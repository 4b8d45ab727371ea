-- ===== src/Prelude/Int.antt =====
-- Signed integers over the native numbers, under the library's names, and two's complement.
use Prim.Native.Nat.{ℕ, ◌-◌, ◌^◌}
use scservices.Prelude.Tests.{ltb, if◌then◌else◌}

-- `negsuc n` is -(n + 1).
pub data ℤ : Type 0 where
  pos : ℕ → ℤ
  negsuc : ℕ → ℤ

-- What a 16-bit and a 32-bit pattern stand for as `int16_t` and `int32_t`.
abbrev pub signed16 : ℕ → ℤ
signed16 w = if ltb w (2 ^ 15) then pos w else negsuc (2 ^ 16 - w - 1)

abbrev pub signed32 : ℕ → ℤ
signed32 w = if ltb w (2 ^ 31) then pos w else negsuc (2 ^ 32 - w - 1)
