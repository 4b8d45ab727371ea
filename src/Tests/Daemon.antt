-- ===== src/Tests/Daemon.antt =====
-- The daemon at work: a hub that is added, and a transaction.
use scservices.Prelude.{
  All, ℕ, pos, negsuc, ◌<◌, ◌≡◌, ◌⊎◌, refl, arith, inr, true, false, Option, none, some, [], ◌∷◌,
}
use scservices.Serial.{new_serial}
use scservices.Serial.Sending.{IsLink, IsKnown}
use scservices.Serial.Output.{send_packet}
use scservices.Serial.Handshake.{has_finished_synchronous}
use scservices.Hub.{ExpansionHubState}
use scservices.Hub.Devices.{on_update}
use scservices.Hub.Daemon.{States, on_removed, on_added, start_buses}
use scservices.Hub.Transaction.{IsBus, on_update-IsLink}
use scservices.Hub.Reachable.{started, later, removed, added, AreBuses, Reachable-AreBuses}
use scservices.Hub.Declared.{IsDeclared, Reachable-IsDeclared}
use scservices.Hub.Written.{Reachable-IsHeard}
use scservices.Serial.Whole.Received.{IsHeard}
use scservices.Hub.Plug.{is_at, on_removed-at}
use scservices.UsbMonitor
use scservices.Hub.Start.{System, poll_started, timer_started, found, main, main-setup}
use scservices.Tests.{toy, configured, bus_of}

abbrev empty : States toy
empty bus = record (bus_of new_serial) { current_hub = none }

abbrev get_states : Option (States toy) → States toy
get_states none = empty
get_states (some states) = states

abbrev plugged : States toy
plugged = get_states (on_added (some 5) true 2 (0x2F ∷ []) empty)

plugged_lem : on_added (some 5) true 2 (0x2F ∷ []) empty ≡ some plugged
unfolding on_added send_packet
plugged_lem = refl

Reachable-AreBuses_example : AreBuses true (on_removed (0x2F ∷ []) plugged)
Reachable-AreBuses_example =
    Reachable-AreBuses true empty (on_removed (0x2F ∷ []) plugged) (λ bus. (refl, refl))
      (later (later started (added (some 5) true 2 (0x2F ∷ []) plugged_lem)) (removed (0x2F ∷ [])))

Reachable-IsHeard_example : All IsHeard (on_removed (0x2F ∷ []) plugged 2).effects
Reachable-IsHeard_example =
    Reachable-IsHeard true empty (on_removed (0x2F ∷ []) plugged) (λ bus. (refl, refl))
      (later (later started (added (some 5) true 2 (0x2F ∷ []) plugged_lem)) (removed (0x2F ∷ [])))
      2

-- Bus 2 of the daemon after its start, with a hub plugged in.
abbrev begun : States toy
begun = (start_buses 4 0 empty).0

abbrev begun_plugged : States toy
begun_plugged = get_states (on_added (some 5) true 2 (0x2F ∷ []) begun)

begun_plugged_lem : on_added (some 5) true 2 (0x2F ∷ []) begun ≡ some begun_plugged
unfolding on_added send_packet start_buses
begun_plugged_lem = refl

Reachable-IsDeclared_example : All (IsDeclared 2 (begun_plugged 2).topics) (begun_plugged 2).effects
Reachable-IsDeclared_example =
    Reachable-IsDeclared true empty begun_plugged 2 (λ bus. (refl, refl)) refl refl (omega arith)
      (later started (added (some 5) true 2 (0x2F ∷ []) begun_plugged_lem))

configured-IsLink : IsLink {p = toy} true configured []
configured-IsLink = record {
  has_queue = record {
    sent = [];
    queue = [];
    in_order = record { buffer_is = refl; sizes_are = refl; count_is = refl; nonempty = tt };
    byte_sized = omega arith;
    may_enable = λ on. refl;
    built = tt;
  };
  no_leftover = inr refl;
  safe = tt;
}

configured-IsKnown : IsKnown configured
configured-IsKnown = record {
  address = 2;
  interface = 4096;
  address_is = refl;
  interface_is = refl;
}

on_update-IsLink_example :
    (h' : ExpansionHubState toy) × (on_update true (bus_of configured) ≡ some h')
    × IsBus toy true h'
unfolding has_finished_synchronous
on_update-IsLink_example =
    on_update-IsLink toy true true (bus_of configured) configured (λ on. refl) refl
      configured-IsLink configured-IsKnown refl

on_removed-at_example :
    ((is_at (0x2F ∷ []) (plugged 2).current_hub ≡ true)
      × ((on_removed (0x2F ∷ []) plugged 2).current_hub ≡ none))
    ⊎ ((is_at (0x2F ∷ []) (plugged 2).current_hub ≡ false)
        × (on_removed (0x2F ∷ []) plugged 2 ≡ plugged 2))
on_removed-at_example = on_removed-at (0x2F ∷ []) plugged 2 (omega arith)

-- The control data is there at once, and systemd and the event loop grant everything.
abbrev booted : System
booted = record {
  control = λ i. some 3;
  monitor = record {
    new_ok = true;
    filter_ok = true;
    start_ok = true;
    event_ok = true;
    event_fd = some 4;
  };
  poll = true;
  devices = [];
}

main-setup_example :
    ((fd k : ℕ) × (k < 50)
      × (booted.control k ≡ some fd)
      × ((UsbMonitor.initialize booted.monitor).1 ≡ true)
      × (true ≡ true)
      × ((main booted empty).2 ≡ pos 0)
      × (((main booted empty).0 3).bus_id ≡ 3)
      × ((main booted empty).1 ≡ poll_started (some 4) ∷ timer_started 12 ∷ found [] ∷ []))
    ⊎ ((((booted.control 1 ≡ none) × ((main booted empty).0 ≡ empty))
          ⊎ ((UsbMonitor.initialize booted.monitor).1 ≡ false)
          ⊎ (true ≡ false))
        × ((main booted empty).2 ≡ negsuc 0)
        × ((main booted empty).1 ≡ []))
unfolding UsbMonitor.initialize UsbMonitor.do_initial_check
main-setup_example = main-setup booted empty 3 1 (omega arith) (omega arith)
