-- ===== src/EnabledState.antt =====
-- expansionhub/EnabledState.{h,cpp}: whether the robot is enabled, by the control data of the CAN heartbeat.
pub mod Laws
use scservices.Prelude.{
  ℕ, zero, suc, ◌+◌, ◌-◌, ◌*◌, ◌%◌, ◌^◌, ◌<◌, ◌≤◌, ◌≡◌, min, refl, arith, ap, Bool, true, false,
  not, ◌&&◌, ◌||◌, Option, none, some, List, [], ◌∷◌, ◌++◌, Bytes, All, length, ltb, leb, ◌==◌,
  if◌then◌else◌, ◌>>=◌,
}

abbrev pub or_else : ℕ → Option ℕ → Option ℕ × ℕ → Option ℕ × ℕ
or_else retries none rest = rest
or_else retries (some fd) rest = (some fd, retries)

abbrev pub max_retries : ℕ
max_retries = 50

-- The loop of `Initialize`, with what `open` answers at each try and the tries left: `fd`, and the number
-- of waits of 250 ms.
unfoldable pub open_from : (ℕ → Option ℕ) → ℕ → ℕ → Option ℕ × ℕ
open_from answers retries zero = (none, retries)
open_from answers retries (suc left) =
    or_else retries (answers retries) (open_from answers (suc retries) left)

-- `EnabledState::Initialize`.
unfoldable pub initialize : (ℕ → Option ℕ) → Option ℕ × ℕ
unfolding open_from
initialize answers = open_from answers 0 max_retries

-- The destructor: the descriptor that it closes, if there is one.
unfoldable pub destroy : Option ℕ → Option ℕ
destroy none = none
destroy (some fd) = some fd

-- The value of a hexadecimal digit.
abbrev pub hex_digit : ℕ → Option ℕ
hex_digit c =
    if leb b'0' c && leb c b'9'
    then some (c - b'0')
    else if leb b'a' c && leb c b'f'
    then some (c - b'a' + 10)
    else if leb b'A' c && leb c b'F'
    then some (c - b'A' + 10)
    else none

abbrev digit_then : Option ℕ → (ℕ → ℕ) → ℕ → ℕ
digit_then none next acc = acc
digit_then (some d) next acc = next d

-- The value of the digits up to the first character that is none, behind digits of the value `acc`.
abbrev pub hex_value : Bytes → ℕ → ℕ
hex_value [] acc = acc
hex_value (c ∷ cs) acc = digit_then (hex_digit c) (λ d. hex_value cs (acc * 16 + d)) acc

abbrev pub is_space : ℕ → Bool
is_space c = c == 0x20 || (leb 9 c && leb c 13)

abbrev pub skip_spaces : Bytes → Bytes
skip_spaces [] = []
skip_spaces (c ∷ cs) = let rest = skip_spaces cs in if is_space c then rest else c ∷ cs

-- An optional `0x` before a digit changes nothing of the value.
abbrev pub skip_prefix : Bytes → Bytes
skip_prefix (z ∷ x ∷ cs) = if z == b'0' && (x == b'x' || x == b'X') then cs else z ∷ x ∷ cs
skip_prefix cs = cs

abbrev pub saturated : ℕ → ℕ → ℕ
saturated limit v = if leb limit v then limit else v

-- `strtol(buf, NULL, 16)` as the 32 bits of `control_data`.
abbrev pub with_sign : Bytes → ℕ
with_sign [] = 0
with_sign (c ∷ cs) =
    if c == b'-'
    then (2 ^ 64 - saturated (2 ^ 63) (hex_value (skip_prefix cs) 0)) % 2 ^ 32
    else saturated (2 ^ 63 - 1) (hex_value (skip_prefix (if c == b'+' then cs else c ∷ cs)) 0)
      % 2 ^ 32

abbrev pub control_data : Bytes → ℕ
control_data buf = with_sign (skip_spaces buf)

-- `IsEnabled`, with `fd` and the bytes that `pread` has read into the buffer of 128, if it has not failed.
-- The byte after them is set to zero, which must be in the buffer; no byte has the index -1.
unfoldable pub is_enabled : Option ℕ → Option Bytes → Option Bool
is_enabled none read = some false
is_enabled (some fd) none = none
is_enabled (some fd) (some buf) =
    if leb 128 (length buf) then none else some (control_data buf % 2 == 1)
