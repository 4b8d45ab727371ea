-- ===== src/Hub/Exact/Cached.antt =====
-- expansionhub/main.cpp: each setting of `SendCommands`, for one channel.
use mathlib.Core.Path.{subst}
use scservices.Platform.{Moment}
use scservices.NtState.{ExpansionHubNtState}
use scservices.Hub.Exact.Settings.{At, after-At, noted-Queues}
use scservices.Prelude.{
  ℕ, suc, ◌≡◌, Option, Bool, false, inl, inr, List, Bytes, Bool-cases, if◌then◌else◌, bool_eq,
  nat_eq, Eq,
}
use scservices.CachedCommand.{CachedCommand, is_acked, get, get_with_can_enable}
use scservices.Platform.{Platform}
use scservices.Serial.{Session, Action}
use scservices.Hub.Commands.{send_if}
use scservices.Hub.Initial.Queues.{Queues, skip-Queues}
use scservices.Hub.Exact.{unless_acked}

module _ {p : Platform} where
  -- What `Get` says is to be sent.
  pub sent-Queues :
      {V : Type 0} ⦃e : Eq V⦄ (v : V) (c : CachedCommand V) (send : V → Action p)
      (qs : V → List Bytes) (t : Session p)
      → ((w : V) → Queues 0 (qs w) t.store t (send w t))
      → Queues 0 (unless_acked v c (qs v)) t.store t (send_if send (get v c).1 t)
  unfolding get
  sent-Queues v c send qs t k = elim (Bool-cases (is_acked v c.last_acked_value)) [
    | inl acked ↦ simp acked (skip-Queues t)
    | inr other ↦ simp other (k v)
  ]

  -- What `GetWithCanEnable` says is to be sent.
  pub sent_enabled-Queues :
      (b v : Bool) (c : CachedCommand Bool) (send : Bool → Action p) (qs : Bool → List Bytes)
      (t : Session p)
      → ((w : Bool) → Queues 0 (qs w) t.store t (send w t))
      → let value = if b then v else false in
        Queues 0
          (unless_acked value c (qs value))
          t.store
          t
          (send_if send (get_with_can_enable b v c).1 t)
  unfolding get_with_can_enable
  sent_enabled-Queues b v c send qs t k =
      elim (Bool-cases (is_acked (if b then v else false) c.last_acked_value)) [
        | inl acked ↦ simp acked (skip-Queues t)
        | inr other ↦ simp other (k (if b then v else false))
      ]

-- A setting, with `t` the session once the topic is read and the setting noted.
pub setting-Steps :
    {p : Platform} (a i : ℕ) (before : ExpansionHubNtState p) (moments : ℕ → Moment p)
    (modes enables periods servo_enables r : ℕ) (qs qs' : List Bytes) (s t : Session p)
    (m : Option (Session p))
    → t.serial ≡ s.serial
    → t.effects ≡ s.effects
    → t.moments ≡ s.moments
    → t.readings ≡ suc s.readings
    → At a i before moments modes enables periods servo_enables (suc r) t
    → Queues 0 qs t.store t m
    → qs ≡ qs'
    → (store : ExpansionHubNtState p) × (q : Queues 1 qs' store s m) × At a i before moments modes
        enables periods servo_enables
        (suc r)
        q.after
setting-Steps {p} a i before moments modes enables periods servo_enables r qs qs' s t m serial
      effects moments_are readings at_t q wants =
    subst
      (λ (packets : List Bytes).
        (store : ExpansionHubNtState p) × (q : Queues 1 packets store s m) × At a i before moments
          modes enables periods servo_enables (suc r) q.after)
      wants
      (
        t.store,
        noted-Queues qs s t m serial effects moments_are readings q,
        after-At a i before moments modes enables periods servo_enables (suc r) qs t m q at_t,
      )
