-- ===== src/Packet/Spans.antt =====
-- expansionhub/ExpansionHubSerial.cpp: reads that lie inside of a span.
use scservices.Prelude.{
  ℤ, ◌*◌, ◌^◌, signed16, signed32, ℕ, zero, suc, ◌+◌, ◌≤◌, ◌<◌, ◌≡◌, refl, arith, some, List, [],
  ◌∷◌, Bytes, length, drop, get_elem?,
}
use scservices.Packet.{read_int16, read_int32, subspan}

pub get_elem?-some {ℓ} :
    {A : Type ℓ} (xs : List A) (i : ℕ) → i < length xs → (x : A) × (get_elem? xs i ≡ some x)
get_elem?-some [] i h = absurd (omega arith)
get_elem?-some (x ∷ xs) zero h = (x, refl)
get_elem?-some (x ∷ xs) (suc i) h = get_elem?-some xs i (omega arith)

pub read_int16-some : (xs : Bytes) → 2 ≤ length xs → (v : ℤ) × (read_int16 xs ≡ some v)
unfolding read_int16
read_int16-some xs h =
    let (b0, e0) = get_elem?-some xs 0 (omega arith) in
    let (b1, e1) = get_elem?-some xs 1 (omega arith) in
    (signed16 (b0 + b1 * 2 ^ 8), simp (e0, e1) refl)

pub read_int32-some : (xs : Bytes) → 4 ≤ length xs → (v : ℤ) × (read_int32 xs ≡ some v)
unfolding read_int32
read_int32-some xs h =
    let (b0, e0) = get_elem?-some xs 0 (omega arith) in
    let (b1, e1) = get_elem?-some xs 1 (omega arith) in
    let (b2, e2) = get_elem?-some xs 2 (omega arith) in
    let (b3, e3) = get_elem?-some xs 3 (omega arith) in
    (signed32 (b0 + b1 * 2 ^ 8 + b2 * 2 ^ 16 + b3 * 2 ^ 24), simp (e0, e1, e2, e3) refl)

pub subspan-some : (xs : Bytes) (n : ℕ) → n ≤ length xs → subspan xs n ≡ some (drop n xs)
unfolding subspan
subspan-some xs n h = ground arith
