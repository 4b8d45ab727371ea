-- ===== src/Hub/Reachable.antt =====
-- expansionhub/main.cpp: the states that the daemon reaches, and the invariant of all of them.
use scservices.Prelude.{
  [], ℕ, suc, zero, ◌≡◌, refl, Bool, true, false, inl, inr, Option, none, some, Bytes, ◌==◌, ◌>>=◌,
  if◌then◌else◌, Bool-cases,
}
use mathlib.Core.Path.{subst}
use scservices.Platform.{Platform}
use scservices.NtState.{update}
use scservices.Serial.{poll_started, input_flushed, new_serial, Session}
use scservices.Serial.Handshake.{run_synchronous_steps}
use scservices.Serial.Lifetime.{initialize}
use scservices.Serial.Keeps.{Ends}
use scservices.Serial.Sending.{IsLink, new_serial-IsLink}
use scservices.Serial.Events.{IsLink-Same, IsLink-effect}
use scservices.Serial.Events.Handshake.{run_synchronous_steps-Guards}
use scservices.Hub.{ExpansionHubState, session, leave}
use scservices.Hub.Devices.{
  num_usb_buses, on_device_added, on_device_removed, on_update, on_readable,
}
use scservices.Hub.Daemon.{
  States, on_added, on_removed, on_timeout, updated_below, removed_below, added_to, is_connected,
}
use scservices.Serial.Whole.{AreSafe}
use scservices.Hub.Transaction.{OnHub-AreSafe, IsBus, BusKept}
use scservices.Hub.Invariant.{
  on_update-BusKept, on_readable-BusKept, on_device_added-BusKept, on_device_removed-IsBus,
}

module _ {p : Platform} (can_enable : Bool) where
  -- One event of the daemon, if it is without undefined behaviour: the timer, which finds the robot enabled only
  -- where `can_enable` says so, bytes at the port of a bus, and a hub that comes or goes.
  pub data Step (states : States p) : States p → Type 0 where
    timeout :
        (enabled : Bool) {next : States p}
        → (enabled ≡ true → can_enable ≡ true)
        → on_timeout enabled states ≡ some next
        → Step states next
    readable :
        (bus : ℕ) (bytes : Option Bytes) {h : ExpansionHubState p}
        → on_readable bytes (states bus) ≡ some h
        → Step states (update states bus h)
    added :
        (port : Option ℕ) (has_poll : Bool) (bus : ℕ) (path : Bytes) {next : States p}
        → on_added port has_poll bus path states ≡ some next
        → Step states next
    removed : (path : Bytes) → Step states (on_removed path states)

  -- What the daemon reaches from buses without a hub.
  pub data Reachable (start : States p) : States p → Type 0 where
    started : Reachable start start
    later : {s t : States p} → Reachable start s → Step s t → Reachable start t

  abbrev pub AreBuses : States p → Type 0
  AreBuses states = (i : ℕ) → IsBus p can_enable (states i)

  update-AreBuses :
      (states : States p) (bus : ℕ) (h : ExpansionHubState p)
      → AreBuses states
      → IsBus p can_enable h
      → AreBuses (update states bus h)
  update-AreBuses states bus h k kh i = elim (Bool-cases (bus == i)) [
    | inl same ↦ rw same kh
    | inr other ↦ rw other (k i)
  ]

  kept-AreBuses :
      (states : States p) (bus : ℕ) (m : Option (ExpansionHubState p)) {next : States p}
      → AreBuses states
      → BusKept p can_enable m
      → (m >>= λ h. some (update states bus h)) ≡ some next
      → AreBuses next
  kept-AreBuses states bus none k e same = absurd (cc same)
  kept-AreBuses states bus (some h) {next} k e same =
      subst AreBuses eq (update-AreBuses states bus h k e)
    where
      eq : update states bus h ≡ next
      eq = cc same

  updated_below-AreBuses :
      (n : ℕ) (b : Bool) (states : States p) {next : States p}
      → (b ≡ true → can_enable ≡ true)
      → AreBuses states
      → updated_below n b states ≡ some next
      → AreBuses next
  updated_below-AreBuses zero b states {next} may k e = subst AreBuses eq k
    where
      eq : states ≡ next
      eq = cc e
  updated_below-AreBuses (suc n) b states {next} may k e =
      go (updated_below n b states) (λ s before. updated_below-AreBuses n b states may k before) e
    where
      go :
          (m : Option (States p))
          → ((s : States p) → m ≡ some s → AreBuses s)
          → (m >>= λ s. on_update b (s n) >>= λ h. some (update s n h)) ≡ some next
          → AreBuses next
      go none ks same = absurd (cc same)
      go (some s) ks same =
          kept-AreBuses s n (on_update b (s n)) (ks s refl)
            (on_update-BusKept p can_enable b (s n) may (ks s refl n)) same

  removed_below-AreBuses :
      (n : ℕ) (path : Bytes) (states : States p)
      → AreBuses states
      → AreBuses (removed_below n path states)
  removed_below-AreBuses zero path states k = k
  removed_below-AreBuses (suc n) path states k =
      let s = removed_below n path states in
      let ks = removed_below-AreBuses n path states k in
      update-AreBuses s n (on_device_removed (s n) path) ks
        (on_device_removed-IsBus p can_enable path (s n) (ks n))

  added_to-BusKept :
      (port : Option ℕ) (b : Bool) (path : Bytes) (h : ExpansionHubState p)
      → IsBus p can_enable h
      → BusKept p can_enable (added_to port b path h)
  unfolding initialize
  added_to-BusKept none b path h k = k
  added_to-BusKept (some fd) b path h k =
      let s = (initialize b fd path (session h new_serial)).0 in
      go (run_synchronous_steps s) (
        run_synchronous_steps-Guards s
          (new b (OnHub-AreSafe p can_enable h.current_hub h.effects k)))
    where
      new :
          (has_poll : Bool)
          → AreSafe can_enable h.effects
          → let s = (initialize has_poll fd path (session h new_serial)).0 in
            IsLink can_enable s.serial s.effects
      new true safe =
          IsLink-Same new_serial _ (refl, λ e. e) refl
            (IsLink-effect new_serial _ (poll_started fd) tt (
              IsLink-effect new_serial h.effects (input_flushed fd) tt
                (new_serial-IsLink can_enable h.effects safe)))
      new false safe =
          IsLink-Same new_serial _ (refl, λ e. e) refl
            (IsLink-effect new_serial h.effects (input_flushed fd) tt
              (new_serial-IsLink can_enable h.effects safe))

      go :
          (m : Option (Session p))
          → Ends p Unit (IsLink can_enable) m
          → BusKept p can_enable (m >>= λ s. on_device_added (leave h none s) s.serial)
      go none e = tt
      go (some s) e = on_device_added-BusKept p can_enable (leave h none s) s.serial e

  step-AreBuses : {s t : States p} → Step s t → AreBuses s → AreBuses t
  unfolding on_timeout on_added on_removed
  step-AreBuses {s} (timeout b may e) k = updated_below-AreBuses num_usb_buses b s may k e
  step-AreBuses {s} (readable bus bytes {h} e) k =
      update-AreBuses s bus h k
        (subst (BusKept p can_enable) e (on_readable-BusKept p can_enable bytes (s bus) (k bus)))
  step-AreBuses {s} {t} (added port b bus path e) k = go (is_connected (s bus).current_hub) e
    where
      go :
          (c : Bool)
          → (if c then some s else (added_to port b path (s bus) >>= λ h. some (update s bus h)))
            ≡ some t
          → AreBuses t
      go true same = subst AreBuses (unique same) k
        where
          unique : some s ≡ some t → s ≡ t
          unique q = cc q
      go false same =
          kept-AreBuses s bus (added_to port b path (s bus)) k
            (added_to-BusKept port b path (s bus) (k bus)) same
  step-AreBuses {s} (removed path) k = removed_below-AreBuses num_usb_buses path s k

  -- In every state that the daemon reaches from buses without a hub and without effects, whatever hubs
  -- come and go, bytes arrive and moments are read, the hub of each bus has its invariant: its write buffer
  -- and its pending sizes are those of a queue of packets that `SendPacket` has built, of which a first part
  -- is written; its count of outstanding messages fits a byte; and between transactions no packet waits. And
  -- each write that any bus has made to a port was of such packets, whole, one after the other. Where the robot
  -- is disabled at each event of the timer, none of these packets has the payload that asks to enable a channel.
  pub Reachable-AreBuses :
      (start states : States p)
      → ((i : ℕ) → ((start i).current_hub ≡ none) × ((start i).effects ≡ []))
      → Reachable start states
      → AreBuses states
  Reachable-AreBuses start states empty started = λ i. bare (start i) (empty i)
    where
      bare :
          (h : ExpansionHubState p)
          → (h.current_hub ≡ none) × (h.effects ≡ [])
          → IsBus p can_enable h
      bare h (no_hub, quiet) = rw (no_hub, quiet) tt
  Reachable-AreBuses start states empty (later {s} before step) =
      step-AreBuses step (Reachable-AreBuses start s empty before)
