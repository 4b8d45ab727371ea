-- ===== src/Hub/Plug.antt =====
-- expansionhub/main.cpp: the buses after a port has been removed.
use scservices.Prelude.{
  ℕ, zero, suc, ◌<◌, ◌≡◌, ◌⊎◌, inl, inr, refl, arith, Bool, true, false, Option, none, some, Bytes,
  ◌==◌, Bool-cases, Option-cases, ltb, if◌then◌else◌,
}
use scservices.Platform.{Platform}
use scservices.Serial.{ExpansionHubSerial}
use scservices.Hub.{ExpansionHubState}
use scservices.Hub.Devices.{num_usb_buses, on_device_removed, same_path}
use scservices.Hub.Daemon.{States, on_removed, removed_below}

-- Has the bus a hub at the path?
abbrev pub is_at : Bytes → Option ExpansionHubSerial → Bool
is_at path none = false
is_at path (some r) = same_path path r.serial_path

module _ {p : Platform} where
  removed_below-at :
      (n i : ℕ) (path : Bytes) (states : States p)
      → removed_below n path states i
        ≡ (if ltb i n then on_device_removed (states i) path else states i)
  removed_below-at zero i path states = ground arith
  removed_below-at (suc n) i path states = elim (Bool-cases (n == i)) [
    | inl same ↦
        let eq : n ≡ i = ground arith in ground (arith, removed_below-at n n path states, eq)
    | inr other ↦ ground (arith, removed_below-at n i path states)
  ]

  on_device_removed-at :
      (path : Bytes) (h : ExpansionHubState p)
      → ((is_at path h.current_hub ≡ true) × ((on_device_removed h path).current_hub ≡ none))
        ⊎ ((is_at path h.current_hub ≡ false) × (on_device_removed h path ≡ h))
  unfolding on_device_removed
  on_device_removed-at path h = elim (Option-cases h.current_hub) [
    | inl e ↦ inr (simp e refl, simp e refl)
    | inr (r, e) ↦ elim (Bool-cases (same_path path r.serial_path)) [
      | inl same ↦ inl (simp (e, same) refl, simp (e, same) refl)
      | inr differs ↦ inr (simp (e, differs) refl, simp (e, differs) refl)
    ]
  ]

  -- After a port is removed, each bus of the range that had its hub at that path has none, and each other
  -- bus is as it was.
  pub on_removed-at :
      (path : Bytes) (states : States p) (i : ℕ)
      → i < num_usb_buses
      → ((is_at path (states i).current_hub ≡ true)
          × ((on_removed path states i).current_hub ≡ none))
        ⊎ ((is_at path (states i).current_hub ≡ false) × (on_removed path states i ≡ states i))
  unfolding on_removed
  on_removed-at path states i h =
      let within : ltb i num_usb_buses ≡ true = ground arith in
      rw (removed_below-at num_usb_buses i path states, within)
        (on_device_removed-at path (states i))
