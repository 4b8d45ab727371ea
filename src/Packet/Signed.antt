-- ===== src/Packet/Signed.antt =====
-- expansionhub/ExpansionHubSerial.cpp: signed numbers in a payload, which `ReadInt16` and `ReadInt32` read.
use scservices.Prelude.{
  ℤ, pos, negsuc, signed16, signed32, ◌*◌, ◌/◌, ◌%◌, ◌-◌, ℕ, ◌+◌, ◌<◌, ◌≡◌, ap, ◌∙◌, arith, some,
  [], ◌∷◌, ◌++◌, Bytes,
}
use scservices.Packet.{read_int16, read_int32}

-- A number in two's complement, of 16 bits and of 32, and its bytes, the lowest first.
abbrev pub Fits16 : ℤ → Type 0
Fits16 (pos n) = n < 32768
Fits16 (negsuc n) = n < 32768

abbrev pub Fits32 : ℤ → Type 0
Fits32 (pos n) = n < 2147483648
Fits32 (negsuc n) = n < 2147483648

abbrev raw16 : ℤ → ℕ
raw16 (pos n) = n
raw16 (negsuc n) = 65535 - n

abbrev raw32 : ℤ → ℕ
raw32 (pos n) = n
raw32 (negsuc n) = 4294967295 - n

abbrev pub word16 : ℤ → Bytes
word16 z = let n = raw16 z in n % 256 ∷ n / 256 % 256 ∷ []

abbrev pub word32 : ℤ → Bytes
word32 z = let n = raw32 z in n % 256 ∷ n / 256 % 256 ∷ n / 65536 % 256 ∷ n / 16777216 % 256 ∷ []

word16-sum : (n : ℕ) → n < 65536 → n % 256 + n / 256 % 256 * 256 ≡ n
word16-sum n h = omega arith

word32-sum :
    (n : ℕ)
    → n < 4294967296
    → n % 256 + n / 256 % 256 * 256 + n / 65536 % 256 * 65536 + n / 16777216 % 256 * 16777216 ≡ n
word32-sum n h = omega arith

pub read_int16-word16 : (z : ℤ) (rest : Bytes) → Fits16 z → read_int16 (word16 z ++ rest) ≡ some z
unfolding read_int16
read_int16-word16 (pos n) rest h =
    ap (λ w. some (signed16 w)) (word16-sum n (omega arith)) ∙ ground arith
read_int16-word16 (negsuc n) rest h =
    ap (λ w. some (signed16 w)) (word16-sum (65535 - n) (omega arith)) ∙ ground arith

pub read_int32-word32 : (z : ℤ) (rest : Bytes) → Fits32 z → read_int32 (word32 z ++ rest) ≡ some z
unfolding read_int32
read_int32-word32 (pos n) rest h =
    ap (λ w. some (signed32 w)) (word32-sum n (omega arith)) ∙ ground arith
read_int32-word32 (negsuc n) rest h =
    ap (λ w. some (signed32 w)) (word32-sum (4294967295 - n) (omega arith)) ∙ ground arith
