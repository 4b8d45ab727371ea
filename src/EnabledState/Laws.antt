-- ===== src/EnabledState/Laws.antt =====
-- expansionhub/EnabledState.cpp: the retries, and the bit that is read.
use scservices.Prelude.{
  ℕ, zero, suc, ◌+◌, ◌*◌, ◌%◌, ◌^◌, ◌<◌, ◌≤◌, ◌≡◌, ◌⊎◌, inl, inr, refl, arith, ap, sym, ◌∙◌, Bool,
  true, false, ◌||◌, Option, none, some, [], ◌∷◌, ◌++◌, Bytes, All, length, length-append,
  append_assoc, leb, ◌==◌, Option-cases,
}
use scservices.EnabledState.{
  open_from, initialize, max_retries, or_else, hex_digit, hex_value, is_space, control_data,
  is_enabled,
}

-- What `Initialize` promises from the try `n` on, with `left` tries left.
abbrev Opened : (ℕ → Option ℕ) → ℕ → ℕ → Option ℕ × ℕ → Type 0
Opened answers n left (none, waits) =
    (waits ≡ n + left) × ((i : ℕ) → n ≤ i → i < n + left → answers i ≡ none)
Opened answers n left (some fd, waits) =
    (waits < n + left)
    × (answers waits ≡ some fd)
    × ((i : ℕ) → n ≤ i → i < waits → answers i ≡ none)

open_from-Opened :
    (answers : ℕ → Option ℕ) (n left : ℕ) → Opened answers n left (open_from answers n left)
unfolding open_from
open_from-Opened answers n zero = (omega arith, λ i lo hi. absurd (omega arith))
open_from-Opened answers n (suc left) =
    go (answers n) (open_from answers (suc n) left) refl (open_from-Opened answers (suc n) left)
  where
    earlier : (i : ℕ) → n ≤ i → (n ≡ i) ⊎ (suc n ≤ i)
    earlier i lo = ground arith

    go :
        (o : Option ℕ) (rest : Option ℕ × ℕ)
        → answers n ≡ o
        → Opened answers (suc n) left rest
        → Opened answers n (suc left) (or_else n o rest)
    go (some fd) rest e k = (omega arith, e, λ i lo hi. absurd (omega arith))
    go none (none, waits) e k = (
      omega (arith, k.0),
      λ i lo hi. elim (earlier i lo) [
        | inl same ↦ ap answers (sym same) ∙ e
        | inr above ↦ k.1 i above (omega arith)
      ],
    )
    go none (some fd, waits) e k = (
      omega (arith, k.0),
      k.1,
      λ i lo hi. elim (earlier i lo) [
        | inl same ↦ ap answers (sym same) ∙ e
        | inr above ↦ k.2 i above hi
      ],
    )

-- `Initialize` waits only after a try that has failed: no try before the number of its waits has opened the
-- file. Either the try after the last wait has, there were fewer than 50 waits, and its answer is kept; or there
-- were 50 waits and nothing is kept.
pub initialize_lem :
    (answers : ℕ → Option ℕ) (i : ℕ)
    → (((initialize answers).1 ≤ i) ⊎ (answers i ≡ none))
      × (((fd : ℕ) × ((initialize answers).1 < max_retries)
            × (answers (initialize answers).1 ≡ some fd)
            × ((initialize answers).0 ≡ some fd))
          ⊎ (((initialize answers).1 ≡ max_retries) × ((initialize answers).0 ≡ none)))
unfolding initialize
initialize_lem answers i =
    go (open_from answers 0 max_retries) (open_from-Opened answers 0 max_retries)
  where
    either : (m n : ℕ) → (m ≤ n) ⊎ (n < m)
    either m n = ground arith

    go :
        (r : Option ℕ × ℕ)
        → Opened answers 0 max_retries r
        → ((r.1 ≤ i) ⊎ (answers i ≡ none))
          × (((fd : ℕ) × (r.1 < max_retries) × (answers r.1 ≡ some fd) × (r.0 ≡ some fd))
              ⊎ ((r.1 ≡ max_retries) × (r.0 ≡ none)))
    go (none, waits) k = (
      elim (either waits i) [
        | inl later ↦ inl later
        | inr lt ↦ inr (k.1 i (omega arith) (omega (arith, k.0)))
      ],
      inr (omega (arith, k.0), refl),
    )
    go (some fd, waits) k = (
      elim (either waits i) [ inl later ↦ inl later | inr lt ↦ inr (k.2 i (omega arith) lt) ],
      inl (fd, omega (arith, k.0), k.1, refl),
    )

hex_digit-lt : (c d : ℕ) → hex_digit c ≡ some d → d < 16
hex_digit-lt c d e = ground arith

-- A digit is no space and no sign, and is not the letter of the prefix.
hex_digit-plain :
    (c d : ℕ)
    → hex_digit c ≡ some d
    → (is_space c ≡ false)
      × ((c == b'-') ≡ false)
      × ((c == b'+') ≡ false)
      × ((c == b'x' || c == b'X') ≡ false)
hex_digit-plain c d e = ground arith

abbrev pub is_value : Option ℕ → Bool
is_value none = false
is_value (some d) = true

abbrev pub is_hex : ℕ → Bool
is_hex c = is_value (hex_digit c)

hex_value-append :
    (front rest : Bytes) (acc : ℕ)
    → All (λ c. is_hex c ≡ true) front
    → hex_value (front ++ rest) acc ≡ hex_value rest (hex_value front acc)
hex_value-append [] rest acc h = refl
hex_value-append (c ∷ cs) rest acc (h, hs) = elim (Option-cases (hex_digit c)) [
  | inl bad ↦ absurd (cc (sym (ap is_value bad) ∙ h))
  | inr (d, e) ↦ rw e (hex_value-append cs rest (acc * 16 + d) hs)
]

-- Text that starts with a digit is taken as digits from its start.
control_data-digits :
    (c d : ℕ) (cs : Bytes)
    → hex_digit c ≡ some d
    → All (λ b. is_hex b ≡ true) cs
    → hex_value (c ∷ cs ++ 10 ∷ []) 0 < 2 ^ 63
    → control_data (c ∷ cs ++ 10 ∷ []) ≡ hex_value (c ∷ cs ++ 10 ∷ []) 0 % 2 ^ 32
control_data-digits c d [] e h small = let plain = hex_digit-plain c d e in ground (arith, plain)
control_data-digits c d (b ∷ cs) e (hb, hs) small = elim (Option-cases (hex_digit b)) [
  | inl bad ↦ absurd (cc (sym (ap is_value bad) ∙ hb))
  | inr (d', e') ↦
      let plain = hex_digit-plain c d e in
      let plain' = hex_digit-plain b d' e' in ground (arith, plain, plain')
]

All-hex-concat :
    (cs : Bytes) (c : ℕ)
    → All (λ b. is_hex b ≡ true) cs
    → is_hex c ≡ true
    → All (λ b. is_hex b ≡ true) (cs ++ c ∷ [])
All-hex-concat [] c h k = (k, tt)
All-hex-concat (b ∷ cs) c (h, hs) k = (h, All-hex-concat cs c hs k)

hex_digit-is_hex : (c d : ℕ) → hex_digit c ≡ some d → is_hex c ≡ true
hex_digit-is_hex c d e = ap is_value e

-- The value of digits before a line feed, by its last digit.
hex_value_line :
    (front : Bytes) (c d : ℕ)
    → All (λ b. is_hex b ≡ true) front
    → hex_digit c ≡ some d
    → hex_value (front ++ c ∷ 10 ∷ []) 0 ≡ hex_value front 0 * 16 + d
hex_value_line front c d h e = hex_value-append front (c ∷ 10 ∷ []) 0 h ∙ rw e refl

control_data_line :
    (front : Bytes) (c d : ℕ)
    → All (λ b. is_hex b ≡ true) front
    → hex_digit c ≡ some d
    → hex_value front 0 < 2 ^ 59
    → control_data (front ++ c ∷ 10 ∷ []) ≡ (hex_value front 0 * 16 + d) % 2 ^ 32
control_data_line [] c d h e small =
    let value = hex_value_line [] c d tt e in
    control_data-digits c d [] e tt (omega (arith, value, hex_digit-lt c d e))
    ∙ ap (λ v. v % 2 ^ 32) value
control_data_line (b ∷ front) c d (hb, hs) e small = elim (Option-cases (hex_digit b)) [
  | inl bad ↦ absurd (cc (sym (ap is_value bad) ∙ hb))
  | inr (d', e') ↦
      let value = hex_value_line (b ∷ front) c d (hb, hs) e in
      let same : (front ++ c ∷ []) ++ 10 ∷ [] ≡ front ++ c ∷ 10 ∷ [] =
        append_assoc front (c ∷ []) (10 ∷ []) in
      let read =
        control_data-digits b d' (front ++ c ∷ []) e'
          (All-hex-concat front c hs (hex_digit-is_hex c d e)) in
      (rw same at read) (omega (arith, value, hex_digit-lt c d e, small))
      ∙ ap (λ v. v % 2 ^ 32) value
]

-- Of a line of fewer than 127 hexadecimal digits whose value fits `long`, the robot is enabled exactly if the
-- last digit is odd.
pub is_enabled_line :
    (fd c d : ℕ) (front : Bytes)
    → All (λ b. is_hex b ≡ true) front
    → hex_digit c ≡ some d
    → hex_value front 0 < 2 ^ 59
    → length front < 126
    → is_enabled (some fd) (some (front ++ c ∷ 10 ∷ [])) ≡ some (d % 2 == 1)
unfolding is_enabled
is_enabled_line fd c d front h e small short =
    let line = front ++ c ∷ 10 ∷ [] in
    let counted : length line ≡ length front + 2 = length-append front (c ∷ 10 ∷ []) in
    let fits : leb 128 (length line) ≡ false = ground (arith, counted) in
    let bit : control_data line % 2 ≡ d % 2 =
      omega (arith, control_data_line front c d h e small) in
    rw (fits, bit) refl
