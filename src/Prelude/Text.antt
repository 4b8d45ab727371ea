-- ===== src/Prelude/Text.antt =====
-- Texts as the bytes that they are, and numbers in decimals.
use Prim.Native.Nat.{ℕ, zero, suc, ◌+◌, ◌/◌, ◌%◌}
pub use Prim.Native.String.{String}
use Prim.Native.Char.{code}
use mathlib.Core.List.{[], ◌∷◌, ◌++◌}
use scservices.Prelude.Tests.{ltb, if◌then◌else◌}
use scservices.Prelude.Lists.{Bytes}

-- The bytes of an ASCII text.
abbrev pub codes : String → Bytes
codes String.[] = []
codes (String.◌∷◌ c s) = code c ∷ codes s

abbrev decimals : ℕ → ℕ → Bytes
decimals zero n = []
decimals (suc fuel) n =
    let rest = decimals fuel (n / 10) in
    if ltb n 10 then (b'0' + n) ∷ [] else rest ++ (b'0' + n % 10) ∷ []

-- `std::to_string`: a number has fewer digits than its successor is large.
abbrev pub to_string : ℕ → Bytes
to_string n = decimals (suc n) n
