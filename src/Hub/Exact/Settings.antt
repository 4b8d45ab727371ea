-- ===== src/Hub/Exact/Settings.antt =====
-- expansionhub/main.cpp: the settings that are still to be sent are as they were when `SendCommands` began.
use scservices.Prelude.{
  ℕ, zero, suc, ◌+◌, ◌≤◌, ◌≡◌, refl, ap, ◌∙◌, arith, false, inl, inr, Option, some, List, Bytes,
  ◌==◌, Bool-cases,
}
use scservices.Platform.{Platform, Moment}
use scservices.NtState.{ExpansionHubNtState, update}
use scservices.Serial.{Session, Action}
use scservices.Hub.{for_from}
use scservices.Hub.Initial.Queues.{queue_all, Queues, then-Leads, skip-Queues}
use scservices.Hub.Exact.{per_channel}

-- From these channels on, the four settings of two stores are the same.
pub record SameFrom {p : Platform} (modes enables periods servo_enables : ℕ)
    (before after : ExpansionHubNtState p) : Type 0 where
  pub same_mode :
      (d : ℕ)
      → modes ≤ d
      → (after.motors d).float_on_0_subscriber ≡ (before.motors d).float_on_0_subscriber
  pub same_enable :
      (d : ℕ)
      → enables ≤ d
      → (after.motors d).enabled_subscriber ≡ (before.motors d).enabled_subscriber
  pub same_period :
      (d : ℕ)
      → periods ≤ d
      → (after.servos d).frame_period_subscriber ≡ (before.servos d).frame_period_subscriber
  pub same_servo_enable :
      (d : ℕ)
      → servo_enables ≤ d
      → (after.servos d).enabled_subscriber ≡ (before.servos d).enabled_subscriber

-- A field of one of many that another has been put in place of.
pub update-field {ℓ ℓ'} :
    {A : Type ℓ} {B : Type ℓ'} (field : A → B) (f : ℕ → A) (c d : ℕ) (v : A)
    → field v ≡ field (f c)
    → field (update f c v d) ≡ field (f d)
update-field field f c d v same = elim (Bool-cases (c == d)) [
  | inl here ↦ let e : c ≡ d = ground arith in rw here (same ∙ ap (λ k. field (f k)) e)
  | inr there ↦ rw there refl
]

pub update-later {ℓ ℓ'} :
    {A : Type ℓ} {B : Type ℓ'} (field : A → B) (f : ℕ → A) (c d : ℕ) (v : A)
    → suc c ≤ d
    → field (update f c v d) ≡ field (f d)
update-later field f c d v h = let there : (c == d) ≡ false = ground arith in rw there refl

module _ {p : Platform} (a i : ℕ) (before : ExpansionHubNtState p) (moments : ℕ → Moment p) where
  -- On a known hub, at the next reading, with the settings as they were from these channels on.
  pub record At (modes enables periods servo_enables reading : ℕ) (s : Session p) : Type 0 where
    pub address_is : s.serial.address ≡ some a
    pub interface_is : s.serial.packet_interface_id ≡ some i
    pub moments_is : s.moments ≡ moments
    pub readings_is : s.readings ≡ reading
    pub same_from : SameFrom modes enables periods servo_enables before s.store

  pub after-At :
      (modes enables periods servo_enables reading : ℕ) (qs : List Bytes) (s : Session p)
      (m : Option (Session p)) (q : Queues 0 qs s.store s m)
      → At modes enables periods servo_enables reading s
      → At modes enables periods servo_enables reading q.after
  after-At modes enables periods servo_enables reading qs s m q h =
      let same = h.same_from in
      record {
        address_is = ap (λ r. r.address) q.serial_is ∙ h.address_is;
        interface_is = ap (λ r. r.packet_interface_id) q.serial_is ∙ h.interface_is;
        moments_is = q.moments_are ∙ h.moments_is;
        readings_is = omega (arith, q.readings_are, h.readings_is);
        same_from = record {
          same_mode =
              λ d k. ap (λ st. (st.motors d).float_on_0_subscriber) q.store_is ∙ same.same_mode d k;
          same_enable =
              λ d k. ap (λ st. (st.motors d).enabled_subscriber) q.store_is ∙ same.same_enable d k;
          same_period = λ d k.
              ap (λ st. (st.servos d).frame_period_subscriber) q.store_is ∙ same.same_period d k;
          same_servo_enable = λ d k.
              ap (λ st. (st.servos d).enabled_subscriber) q.store_is ∙ same.same_servo_enable d k;
        };
      }

-- Packets that are put into the queue after one reading, with `t` the session behind it.
abbrev pub noted-Queues :
    {p : Platform} (qs : List Bytes) (s t : Session p) (m : Option (Session p))
    → t.serial ≡ s.serial
    → t.effects ≡ s.effects
    → t.moments ≡ s.moments
    → t.readings ≡ suc s.readings
    → Queues 0 qs t.store t m
    → Queues 1 qs t.store s m
noted-Queues qs s t m serial effects moments readings q = record {
  after = q.after;
  ends = q.ends;
  serial_is = q.serial_is ∙ ap (queue_all qs) serial;
  store_is = q.store_is;
  effects_are = q.effects_are ∙ effects;
  moments_are = q.moments_are ∙ moments;
  readings_are = omega (arith, q.readings_are, readings);
}

-- One channel after the other: `Inv c r` holds before channel `c`, at the reading `r`.
abbrev pub times : ℕ → ℕ → ℕ
times k zero = 0
times k (suc n) = k + times k n

abbrev pub shift : ℕ → ℕ → ℕ
shift zero c = c
shift (suc n) c = shift n (suc c)

-- What a step does: it puts packets into the queue, and `Inv` holds at the channel and reading behind it.
abbrev pub Steps :
    {p : Platform}
    → (ℕ → ℕ → Session p → Type 0)
    → ℕ
    → List Bytes
    → ℕ
    → ℕ
    → Session p
    → Option (Session p)
    → Type 0
Steps {p} Inv readings qs c r s m =
    (store : ExpansionHubNtState p) × (q : Queues readings qs store s m) × Inv c r q.after

module _ {p : Platform} (k : ℕ) (want : ℕ → ℕ → List Bytes) (f : ℕ → Action p)
    (Inv : ℕ → ℕ → Session p → Type 0) where
  pub per_channel-Steps :
      ((c r : ℕ) (s : Session p) → Inv c r s → Steps Inv k (want c r) (suc c) (suc r) s (f c s))
      → (n c r : ℕ) (s : Session p) → Inv c r s
      → Steps Inv (times k n) (per_channel want r n c) (shift n c) (shift n r) s (for_from n c f s)
  per_channel-Steps step zero c r s h = (s.store, skip-Queues s, h)
  per_channel-Steps step (suc n) c r s h =
      let (store, q, h') = step c r s h in
      let (store', q', h'') = per_channel-Steps step n (suc c) (suc r) q.after h' in
      (
        store',
        then-Leads some k (times k n) (k + times k n) (want c r) _ store store' s (f c)
            (for_from n (suc c) f) q q' refl,
        h'',
      )
