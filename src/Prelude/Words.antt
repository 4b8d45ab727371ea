-- ===== src/Prelude/Words.antt =====
-- Unsigned machine words as native numbers, wrap-around written out, and bytes summed modulo 256.
use Prim.Native.Nat.{ℕ, ◌+◌, ◌-◌, ◌%◌, ◌^◌, ◌<◌}
use mathlib.Core.Path.{◌≡◌, refl, ap, ◌∙◌}
use mathlib.Core.List.{List, [], ◌∷◌, ◌++◌}
use native.Mathlib.Omega.{arith}

-- `uint8_t` addition and subtraction.
abbrev pub add_u8 : ℕ → ℕ → ℕ
add_u8 a b = (a + b) % 256

abbrev pub sub_u8 : ℕ → ℕ → ℕ
sub_u8 a b = (a + 256 - b) % 256

abbrev pub to_u8 : ℕ → ℕ
to_u8 a = a % 256

abbrev pub to_u16 : ℕ → ℕ
to_u16 a = a % 2 ^ 16

-- `size_t` and `uint64_t` arithmetic.
abbrev pub add_u64 : ℕ → ℕ → ℕ
add_u64 a b = (a + b) % 2 ^ 64

abbrev pub sub_u64 : ℕ → ℕ → ℕ
sub_u64 a b = (a + 2 ^ 64 - b) % 2 ^ 64

-- The sum of bytes from a start value, as `uint8_t` accumulates it.
unfoldable pub sum_u8 : ℕ → List ℕ → ℕ
sum_u8 acc [] = acc
sum_u8 acc (b ∷ bs) = sum_u8 (add_u8 acc b) bs

pub sum_u8-append : (xs ys : List ℕ) (acc : ℕ) → sum_u8 acc (xs ++ ys) ≡ sum_u8 (sum_u8 acc xs) ys
unfolding sum_u8
sum_u8-append [] ys acc = refl
sum_u8-append (x ∷ xs) ys acc = sum_u8-append xs ys (add_u8 acc x)

-- A start value that is too large by `k` makes the sum too large by `k`.
pub sum_u8_shift : (xs : List ℕ) (acc k : ℕ) → sum_u8 (add_u8 acc k) xs ≡ add_u8 (sum_u8 acc xs) k
unfolding sum_u8
sum_u8_shift [] acc k = refl
sum_u8_shift (x ∷ xs) acc k = ap (λ a. sum_u8 a xs) (omega arith) ∙ sum_u8_shift xs (add_u8 acc x) k

pub sum_u8-lt : (xs : List ℕ) (acc : ℕ) → acc < 256 → sum_u8 acc xs < 256
unfolding sum_u8
sum_u8-lt [] acc h = h
sum_u8-lt (x ∷ xs) acc h = sum_u8-lt xs (add_u8 acc x) (omega arith)
