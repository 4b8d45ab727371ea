-- ===== src/Hub/Daemon.antt =====
-- expansionhub/main.cpp: the daemon's handlers over its four buses.
use scservices.Prelude.{
  ℕ, zero, suc, Bool, true, false, Option, none, some, Bytes, if◌then◌else◌, ◌>>=◌,
}
use scservices.Platform.{Platform}
use scservices.NtState.{update}
use scservices.Serial.{ExpansionHubSerial, new_serial}
use scservices.Serial.Lifetime.{initialize}
use scservices.Serial.Handshake.{run_synchronous_steps}
use scservices.Hub.{ExpansionHubState, session, leave}
use scservices.Hub.Devices.{
  num_usb_buses, on_device_added, on_device_removed, on_update, start_uv_loop,
}

abbrev pub is_connected : Option ExpansionHubSerial → Bool
is_connected none = false
is_connected (some serial) = true

-- `std::array<ExpansionHubState, NUM_USB_BUSES>`.
abbrev pub States : Platform → Type 0
States p = ℕ → ExpansionHubState p

module _ {p : Platform} where
  -- What `open` and the event loop answer: the descriptor, or `none` if the port does not open; and
  -- whether a poll is made.
  abbrev pub added_to : Option ℕ → Bool → Bytes → ExpansionHubState p → Option (ExpansionHubState p)
  added_to none has_poll path h = some h
  added_to (some fd) has_poll path h =
      run_synchronous_steps (initialize has_poll fd path (session h new_serial)).0 >>= λ s.
      on_device_added (leave h none s) s.serial

  -- The daemon's `OnDeviceAdded`; the result of `Initialize` is printed and not used.
  unfoldable pub on_added : Option ℕ → Bool → ℕ → Bytes → States p → Option (States p)
  unfolding run_synchronous_steps initialize on_device_added
  on_added port has_poll bus_num path states =
      if is_connected (states bus_num).current_hub
      then some states
      else (added_to port has_poll path (states bus_num) >>= λ h. some (update states bus_num h))

  abbrev pub removed_below : ℕ → Bytes → States p → States p
  removed_below zero path states = states
  removed_below (suc n) path states =
      let states' = removed_below n path states in
      update states' n (on_device_removed (states' n) path)

  -- The daemon's `OnDeviceRemoved`.
  unfoldable pub on_removed : Bytes → States p → States p
  unfolding on_device_removed
  on_removed path states = removed_below num_usb_buses path states

  abbrev pub updated_below : ℕ → Bool → States p → Option (States p)
  updated_below zero enabled states = some states
  updated_below (suc n) enabled states = updated_below n enabled states >>= λ states'.
      on_update enabled (states' n) >>= λ h. some (update states' n h)

  -- The timer's callback, with what `EnabledState::IsEnabled` has answered.
  unfoldable pub on_timeout : Bool → States p → Option (States p)
  unfolding on_update
  on_timeout enabled states = updated_below num_usb_buses enabled states

  -- The loop of `main` over `StartUvLoop`, which stops at the first bus that fails; `n` buses are left.
  unfoldable pub start_buses : ℕ → ℕ → States p → States p × Bool
  unfolding start_uv_loop
  start_buses zero bus states = (states, true)
  start_buses (suc n) bus states =
      let (h, ok) = start_uv_loop bus (states bus) in
      let rest = start_buses n (suc bus) (update states bus h) in
      if ok then rest else (update states bus h, false)
