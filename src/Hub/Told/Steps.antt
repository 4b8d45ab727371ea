-- ===== src/Hub/Told/Steps.antt =====
-- expansionhub/main.cpp: the handlers of `SendCommands` for a disabled hub, one by one, and what they have told it.
use mathlib.Core.Path.{subst}
use mathlib.Core.List.{Memᴰ}
use scservices.Prelude.{
  ◌+◌, ℕ, zero, suc, ◌≤◌, ◌<◌, ◌≡◌, ap, sym, ◌∙◌, arith, false, inl, inr, Option, none, some, List,
  [], ◌∷◌, ◌++◌, Bytes, ◌==◌, Bool-cases, ◌>>=◌, Mem-left, Mem-right,
}
use scservices.Platform.{Platform}
use scservices.NtState.{ExpansionHubNtState}
use scservices.Serial.{Session, Action}
use scservices.Serial.Keeps.{Ends, Keeps}
use scservices.Hub.{for_from}
use scservices.Hub.Commands.{send_enable, send_servo_enabled}
use scservices.Hub.Adds.{Has, enqueue-Adds}
use scservices.Hub.Silenced.{
  motor_disabling, servo_disabling, send_enable-told, send_servo_enabled-told,
}
use scservices.Hub.Told.Stores.{IsSparing, Leaves, Spares}

-- Among the packets are those that disable the motors below `m` and the servos below `v`.
abbrev pub Told : ℕ → ℕ → ℕ → ℕ → List Bytes → Type 0
Told address interface m v added =
    ((i : ℕ) → i < m → Memᴰ (motor_disabling address interface i) added)
    × ((i : ℕ) → i < v → Memᴰ (servo_disabling address interface i) added)

-- Nothing is acknowledged of the enabled settings of the motors from `m` on and of the servos from `v` on.
abbrev pub Unacknowledged : {p : Platform} → ℕ → ℕ → ExpansionHubNtState p → Type 0
Unacknowledged m v st =
    ((i : ℕ) → m ≤ i → i < 4 → (st.motors i).enabled_subscriber.last_acked_value ≡ none)
    × ((i : ℕ) → v ≤ i → i < 6 → (st.servos i).enabled_subscriber.last_acked_value ≡ none)

pub more-Told :
    (a n m v : ℕ) (added : List Bytes) (packet : Bytes)
    → Told a n m v added
    → Told a n m v (added ++ packet ∷ [])
more-Told a n m v added packet (motors, servos) = (
  λ i lt. Mem-left added (packet ∷ []) (motors i lt),
  λ i lt. Mem-left added (packet ∷ []) (servos i lt),
)

-- A packet that has just been added, and those before it.
one_more :
    (f : ℕ → Bytes) (j : ℕ) (added : List Bytes)
    → ((i : ℕ) → i < j → Memᴰ (f i) added)
    → (i : ℕ) → i < suc j
    → Memᴰ (f i) (added ++ f j ∷ [])
one_more f j added told i lt = elim (Bool-cases (j == i)) [
  | inl same ↦ let e : i ≡ j = ground arith in Mem-right added (f j ∷ []) (Memᴰ.head (ap f e))
  | inr other ↦ Mem-left added (f j ∷ []) (told i (ground arith))
]

module _ {p : Platform} where
  pub Unacknowledged-IsSparing : (m v : ℕ) → IsSparing (Unacknowledged {p = p} m v)
  Unacknowledged-IsSparing m v = record {
    motor_keeps = λ st j m' same (motors, servos). (
      λ i le lt. elim (Bool-cases (j == i)) [
        | inl here ↦
            let e : i ≡ j = ground arith in
            rw here (
              ap (λ c. c.last_acked_value) same
              ∙ ap (λ k. (st.motors k).enabled_subscriber.last_acked_value) (sym e)
              ∙ motors i le lt)
        | inr there ↦ rw there (motors i le lt)
      ],
      servos,
    );
    servo_keeps = λ st j v' same (motors, servos). (
      motors,
      λ i le lt. elim (Bool-cases (j == i)) [
        | inl here ↦
            let e : i ≡ j = ground arith in
            rw here (
              ap (λ c. c.last_acked_value) same
              ∙ ap (λ k. (st.servos k).enabled_subscriber.last_acked_value) (sym e)
              ∙ servos i le lt)
        | inr there ↦ rw there (servos i le lt)
      ],
    );
  }

module _ (p : Platform) (a n : ℕ) (before : Bytes) where
  -- What was added disables the channels below, and nothing is acknowledged of the others.
  abbrev pub Tells : ℕ → ℕ → Session p → Type 0
  Tells m v s = Has p a n before (Told a n m v) s.serial s.effects × Unacknowledged m v s.store

  abbrev pub Goes : (Session p → Type 0) → Option (Session p) → Type 0
  Goes Q none = ⊥
  Goes Q (some t) = Q t

  pub then-Goes :
      (Q R : Session p → Type 0) (m : Option (Session p)) (g : Action p)
      → Goes Q m
      → ((t : Session p) → Q t → Goes R (g t))
      → Goes R (m >>= g)
  then-Goes Q R none g e k = e
  then-Goes Q R (some t) g e k = k t e

  pub kept :
      (m v : ℕ) (f : Action p)
      → Keeps p ⊥ (Has p a n before (Told a n m v)) f
      → Spares (Unacknowledged m v) f
      → (s : Session p) → Tells m v s
      → Goes (Tells m v) (f s)
  kept m v f k spares s (h, fresh) = both (f s) (k s h) (spares s fresh)
    where
      both :
          (o : Option (Session p))
          → Ends p ⊥ (Has p a n before (Told a n m v)) o
          → Leaves (Unacknowledged m v) o
          → Goes (Tells m v) o
      both none e l = e
      both (some t) e l = (e, l)

  pub motor_step :
      (j v : ℕ)
      → j < 4
      → (s : Session p) → Tells j v s
      → Goes (Tells (suc j) v) (send_enable false j s)
  motor_step j v lt s ((added, h, (motors, servos)), (fresh_motors, fresh_servos)) =
      let packet = motor_disabling a n j in
      let sent =
        send_enable-told j a n s h.address_is h.interface_is (fresh_motors j (omega arith) lt) in
      rw sent (
        (
          added ++ packet ∷ [],
          enqueue-Adds p a n before added s.serial s.effects a _ _ (j ∷ 0 ∷ []) (λ off i e. cc e) h,
          (
            one_more (motor_disabling a n) j added motors,
            λ i k. Mem-left added (packet ∷ []) (servos i k),
          ),
        ),
        (
          λ i le k. elim (Bool-cases (j == i)) [
            | inl same ↦ absurd (ground arith)
            | inr other ↦ rw other (fresh_motors i (omega (arith, le)) k)
          ],
          fresh_servos,
        ),
      )

  pub servo_step :
      (m j : ℕ)
      → j < 6
      → (s : Session p) → Tells m j s
      → Goes (Tells m (suc j)) (send_servo_enabled false j s)
  servo_step m j lt s ((added, h, (motors, servos)), (fresh_motors, fresh_servos)) =
      let packet = servo_disabling a n j in
      let sent =
        send_servo_enabled-told j a n s h.address_is h.interface_is
          (fresh_servos j (omega arith) lt) in
      rw sent (
        (
          added ++ packet ∷ [],
          enqueue-Adds p a n before added s.serial s.effects a _ _ (j ∷ 0 ∷ []) (λ off i e. cc e) h,
          (
            λ i k. Mem-left added (packet ∷ []) (motors i k),
            one_more (servo_disabling a n) j added servos,
          ),
        ),
        (
          fresh_motors,
          λ i le k. elim (Bool-cases (j == i)) [
            | inl same ↦ absurd (ground arith)
            | inr other ↦ rw other (fresh_servos i (omega (arith, le)) k)
          ],
        ),
      )

  -- A loop over channels whose rounds go from one property to the next.
  pub loop :
      (L : ℕ → Session p → Type 0) (f : ℕ → Action p) (bound : ℕ)
      → ((j : ℕ) → j < bound → (s : Session p) → L j s → Goes (L (suc j)) (f j s))
      → (rounds j : ℕ) → j + rounds ≡ bound
      → (s : Session p) → L j s
      → Goes (L bound) (for_from rounds j f s)
  loop L f bound step zero j e s h = subst (λ k. L k s) (omega (arith, e)) h
  loop L f bound step (suc rounds) j e s h =
      then-Goes (L (suc j)) (L bound) (f j s) (for_from rounds (suc j) f)
        (step j (omega (arith, e)) s h)
        (λ t. loop L f bound step rounds (suc j) (omega (arith, e)) t)
