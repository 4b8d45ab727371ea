-- ===== src/Serial/Flow.antt =====
-- expansionhub/ExpansionHubSerial.cpp: the end of a transaction as packets that wait and a number of answers
-- that are still to come, without buffers, sizes and counts.
pub mod Port
pub mod Replies
pub mod Refines
pub mod Reads
pub mod Ends
pub mod Commands
pub mod Commanded
pub mod Transaction
pub mod Stream
use mathlib.Core.Path.{subst}
use scservices.Prelude.{
  ◌⊎◌, inl, inr, ◌≤◌, ◌<◌, sym, ℕ, zero, suc, ◌+◌, ◌-◌, min, ◌≡◌, refl, ap, ◌∙◌, arith, Bool, true,
  false, ◌&&◌, List, [], ◌∷◌, ◌++◌, Bytes, length, take, drop, append_assoc, append-nil, ◌==◌,
}

-- The packets that wait, the answers still to come, the packets that are written, and whether the
-- transaction is over.
pub record Flow : Type 0 where
  pub waiting : List Bytes
  pub unanswered : ℕ
  pub out : List Bytes
  pub is_over : Bool

abbrev pub is_nil : List Bytes → Bool
is_nil [] = true
is_nil (q ∷ qs) = false

-- An answer ends the transaction if it is the last one and no packet waits.
abbrev pub take_answer : Flow → Flow
take_answer a = record a {
  unanswered = a.unanswered - 1;
  is_over = is_nil a.waiting && (a.unanswered - 1 == 0);
}

-- Packets are written, oldest first, while fewer than eight answers are still to come.
abbrev pub room : Flow → ℕ
room a = min (8 - a.unanswered) (length a.waiting)

abbrev pub send_out : Flow → Flow
send_out a = record a {
  waiting = drop (room a) a.waiting;
  unanswered = a.unanswered + room a;
  out = a.out ++ take (room a) a.waiting;
}

abbrev pub answer : Flow → Flow
answer a = send_out (take_answer a)

abbrev pub answers : ℕ → Flow → Flow
answers zero a = a
answers (suc n) a = answers n (answer a)

abbrev pub flow : List Bytes → ℕ → List Bytes → Bool → Flow
flow waiting unanswered out is_over = record {
  waiting = waiting;
  unanswered = unanswered;
  out = out;
  is_over = is_over;
}

answer-nil :
    (u : ℕ) (out : List Bytes) → answer (flow [] (suc u) out false) ≡ flow [] u out (u == 0)
answer-nil u out =
    let none_left : min (8 - (suc u - 1)) 0 ≡ 0 = omega arith in
    let less : suc u - 1 ≡ u = omega arith in
    rw (none_left, less, append-nil) (ap (λ n. flow [] n out (u == 0)) (omega arith))

answer-full :
    (q : Bytes) (qs out : List Bytes)
    → answer (flow (q ∷ qs) 8 out false) ≡ flow qs 8 (out ++ q ∷ []) false
answer-full q qs out = let one : min 1 (suc (length qs)) ≡ 1 = omega arith in rw one refl

-- Answers are still to come, at most eight, and fewer than eight only with nothing left to write.
pub record IsOpen (a : Flow) : Type 0 where
  pub not_over : a.is_over ≡ false
  pub some_left : 1 ≤ a.unanswered
  pub few : a.unanswered ≤ 8
  pub full : (a.waiting ≡ []) ⊎ (a.unanswered ≡ 8)

abbrev pub left : Flow → ℕ
left a = length a.waiting + a.unanswered

-- What one answer leaves: the end of the transaction, or one answer fewer to wait for.
abbrev pub Answered : Flow → Flow → Type 0
Answered a b =
    ((left a ≡ 1) × (b ≡ flow [] 0 (a.out ++ a.waiting) true))
    ⊎ (IsOpen b × (suc (left b) ≡ left a) × (b.out ++ b.waiting ≡ a.out ++ a.waiting))

Answered-nil :
    (u : ℕ) (out : List Bytes)
    → u < 8
    → Answered (flow [] (suc u) out false) (flow [] u out (u == 0))
Answered-nil zero out h = inl (omega arith, ap (λ o. flow [] 0 o true) (sym (append-nil out)))
Answered-nil (suc u) out h = inr (
  record {
    not_over = ground arith;
    some_left = omega arith;
    few = omega (arith, h);
    full = inl refl;
  },
  omega arith,
  refl,
)

pub answer-Answered : (a : Flow) → IsOpen a → Answered a (answer a)
answer-Answered a o = go a.waiting a.unanswered a.is_over o.not_over o.some_left o.few o.full
  where
    go :
        (qs : List Bytes) (u : ℕ) (over : Bool)
        → over ≡ false
        → 1 ≤ u
        → u ≤ 8
        → (qs ≡ []) ⊎ (u ≡ 8)
        → Answered (flow qs u a.out over) (answer (flow qs u a.out over))
    go qs zero over e lo hi full = absurd (omega (arith, lo))
    go [] (suc u) over e lo hi full =
        subst (Answered (flow [] (suc u) a.out false)) (sym (answer-nil u a.out))
          (Answered-nil u a.out (omega (arith, hi)))
    go (q ∷ qs) (suc u) over e lo hi (inl none_left) = absurd (cc none_left)
    go (q ∷ qs) (suc u) over e lo hi (inr eight) = rw eight (
        subst (Answered (flow (q ∷ qs) 8 a.out false)) (sym (answer-full q qs a.out)) (
          inr (
            record { not_over = refl; some_left = omega arith; few = omega arith; full = inr refl },
            omega arith,
            append_assoc a.out (q ∷ []) qs,
          )))

-- As many answers as are still to come, for packets written and waiting, end the transaction, with
-- everything written in order.
pub answers-over :
    (n : ℕ) (a : Flow)
    → IsOpen a
    → left a ≡ suc n
    → answers (suc n) a ≡ flow [] 0 (a.out ++ a.waiting) true
answers-over zero a o e = elim (answer-Answered a o) [
  | inl (one, eq) ↦ eq
  | inr (still, less, same) ↦ absurd (omega (arith, still.some_left, less, e))
]
answers-over (suc n) a o e = elim (answer-Answered a o) [
  | inl (one, eq) ↦ absurd (omega (arith, one, e))
  | inr (still, less, same) ↦
      answers-over n (answer a) still (omega (arith, less, e)) ∙ ap (λ o. flow [] 0 o true) same
]
