-- ===== src/Hub/Named/Steps.antt =====
-- expansionhub/main.cpp: the topics of one bus, through the daemon's events.
use scservices.Prelude.{
  ℕ, zero, suc, ◌<◌, ◌≡◌, refl, sym, arith, Bool, true, false, inl, inr, Option, none, some, [],
  Bytes, ◌==◌, leb, if◌then◌else◌, ◌>>=◌, Bool-cases,
}
use mathlib.Core.Path.{subst}
use scservices.Platform.{Platform}
use scservices.NtState.{update}
use scservices.Hub.{ExpansionHubState}
use scservices.Hub.Devices.{num_usb_buses, on_device_removed, on_update, start_uv_loop}
use scservices.Hub.Daemon.{
  States, on_added, on_removed, on_timeout, updated_below, removed_below, added_to, is_connected,
  start_buses,
}
use scservices.Hub.Reachable.{Step, timeout, readable, added, removed, Reachable, started, later}
use scservices.Hub.Named.{
  IsNamed, bare, NamedEnds, ended, on_update-NamedEnds, on_readable-NamedEnds,
  on_device_removed-IsNamed, added_to-NamedEnds,
}

module _ {p : Platform} where
  start_buses-IsNamed :
      (fresh : States p) (bus : ℕ)
      → bus < num_usb_buses
      → (fresh bus).current_hub ≡ none
      → (fresh bus).effects ≡ []
      → (fresh bus).topics ≡ []
      → (fresh bus).nt_store.is_connected_publisher ≡ false
      → IsNamed bus ((start_buses num_usb_buses 0 fresh).0 bus)
  unfolding start_buses start_uv_loop
  start_buses-IsNamed fresh zero lt = bare refl
  start_buses-IsNamed fresh (suc zero) lt = bare refl
  start_buses-IsNamed fresh (suc (suc zero)) lt = bare refl
  start_buses-IsNamed fresh (suc (suc (suc zero))) lt = bare refl
  start_buses-IsNamed fresh (suc (suc (suc (suc bus)))) lt = absurd (omega arith)

  abbrev pub IsIdle : ExpansionHubState p → Type 0
  IsIdle h = (h.current_hub ≡ none) × (h.effects ≡ [])

  update-IsIdle :
      (states : States p) (n : ℕ) (h : ExpansionHubState p)
      → ((i : ℕ) → IsIdle (states i))
      → IsIdle h
      → (i : ℕ) → IsIdle (update states n h i)
  update-IsIdle states n h k kh i = elim (Bool-cases (n == i)) [
    | inl same ↦ rw same kh
    | inr other ↦ rw other (k i)
  ]

  -- The start of the buses leaves them without a hub and without effects.
  pub start_buses-IsIdle :
      (n first : ℕ) (fresh : States p)
      → ((i : ℕ) → IsIdle (fresh i))
      → (i : ℕ) → IsIdle ((start_buses n first fresh).0 i)
  unfolding start_buses start_uv_loop
  start_buses-IsIdle zero first fresh k i = k i
  start_buses-IsIdle (suc n) first fresh k i = elim (Bool-cases (leb num_usb_buses first)) [
    | inl out ↦ rw out (update-IsIdle fresh first (fresh first) k (k first) i)
    | inr within ↦ rw within (
        start_buses-IsIdle n (suc first)
          (update fresh first (record (fresh first) { bus_id = first }))
          (update-IsIdle fresh first (record (fresh first) { bus_id = first }) k (k first)) i)
  ]

module _ {p : Platform} (can_enable : Bool) (bus : ℕ) where
  ended-IsNamed : (h : ExpansionHubState p) → NamedEnds bus (some h) → IsNamed bus h
  ended-IsNamed h (ended k) = k

  update-IsNamed :
      (states : States p) (n : ℕ) (h : ExpansionHubState p)
      → IsNamed bus (states bus)
      → (n ≡ bus → IsNamed bus h)
      → IsNamed bus (update states n h bus)
  update-IsNamed states n h k kh = elim (Bool-cases (n == bus)) [
    | inl same ↦ rw same (kh (ground (arith, same)))
    | inr other ↦ rw other k
  ]

  bound-IsNamed :
      (states : States p) (n : ℕ) (m : Option (ExpansionHubState p)) {next : States p}
      → IsNamed bus (states bus)
      → (n ≡ bus → NamedEnds bus m)
      → (m >>= λ h. some (update states n h)) ≡ some next
      → IsNamed bus (next bus)
  bound-IsNamed states n none k e same = absurd (cc same)
  bound-IsNamed states n (some h) {next} k e same =
      subst (λ s. IsNamed bus (s bus)) eq
        (update-IsNamed states n h k (λ here. ended-IsNamed h (e here)))
    where
      eq : update states n h ≡ next
      eq = cc same

  updated_below-IsNamed :
      (n : ℕ) (b : Bool) (states : States p) {next : States p}
      → IsNamed bus (states bus)
      → updated_below n b states ≡ some next
      → IsNamed bus (next bus)
  updated_below-IsNamed zero b states {next} k e = subst (λ s. IsNamed bus (s bus)) eq k
    where
      eq : states ≡ next
      eq = cc e
  updated_below-IsNamed (suc n) b states {next} k e =
      go (updated_below n b states) (λ s before. updated_below-IsNamed n b states k before) e
    where
      go :
          (m : Option (States p))
          → ((s : States p) → m ≡ some s → IsNamed bus (s bus))
          → (m >>= λ s. on_update b (s n) >>= λ h. some (update s n h)) ≡ some next
          → IsNamed bus (next bus)
      go none ks same = absurd (cc same)
      go (some s) ks same =
          bound-IsNamed s n (on_update b (s n)) (ks s refl)
            (λ here.
              on_update-NamedEnds bus b (s n)
                (subst (λ i. IsNamed bus (s i)) (sym here) (ks s refl)))
            same

  removed_below-IsNamed :
      (n : ℕ) (path : Bytes) (states : States p)
      → IsNamed bus (states bus)
      → IsNamed bus (removed_below n path states bus)
  removed_below-IsNamed zero path states k = k
  removed_below-IsNamed (suc n) path states k =
      let s = removed_below n path states in
      let ks = removed_below-IsNamed n path states k in
      update-IsNamed s n (on_device_removed (s n) path) ks (λ here.
        on_device_removed-IsNamed bus path (s n) (subst (λ i. IsNamed bus (s i)) (sym here) ks))

  step-IsNamed : {s t : States p} → Step can_enable s t → IsNamed bus (s bus) → IsNamed bus (t bus)
  unfolding on_timeout on_added on_removed
  step-IsNamed {s} (timeout b may e) k = updated_below-IsNamed num_usb_buses b s k e
  step-IsNamed {s} (readable n bytes {h} e) k = update-IsNamed s n h k (λ here. ended-IsNamed h (
      subst (NamedEnds bus) e
        (on_readable-NamedEnds bus bytes (s n) (subst (λ i. IsNamed bus (s i)) (sym here) k))))
  step-IsNamed {s} {t} (added port b n path e) k = go (is_connected (s n).current_hub) e
    where
      go :
          (c : Bool)
          → (if c then some s else (added_to port b path (s n) >>= λ h. some (update s n h)))
            ≡ some t
          → IsNamed bus (t bus)
      go true same = subst (λ u. IsNamed bus (u bus)) (unique same) k
        where
          unique : some s ≡ some t → s ≡ t
          unique q = cc q
      go false same =
          bound-IsNamed s n (added_to port b path (s n)) k
            (λ here.
              added_to-NamedEnds bus port b path (s n)
                (subst (λ i. IsNamed bus (s i)) (sym here) k))
            same
  step-IsNamed {s} (removed path) k = removed_below-IsNamed num_usb_buses path s k

  -- A bus that `StartUvLoop` has started.
  pub Reachable-IsNamed :
      (fresh states : States p)
      → bus < num_usb_buses
      → (fresh bus).current_hub ≡ none
      → (fresh bus).effects ≡ []
      → (fresh bus).topics ≡ []
      → (fresh bus).nt_store.is_connected_publisher ≡ false
      → Reachable can_enable (start_buses num_usb_buses 0 fresh).0 states
      → IsNamed bus (states bus)
  Reachable-IsNamed fresh states lt no_hub quiet none_made unset started =
      start_buses-IsNamed fresh bus lt no_hub quiet none_made unset
  Reachable-IsNamed fresh states lt no_hub quiet none_made unset (later {s} before step) =
      step-IsNamed step (Reachable-IsNamed fresh s lt no_hub quiet none_made unset before)
