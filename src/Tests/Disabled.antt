-- ===== src/Tests/Disabled.antt =====
-- A hub that is not to be enabled while every topic asks for it.
use scservices.Prelude.{
  inl, Bool, All, Option, none, ℕ, ◌+◌, ◌*◌, ◌≡◌, refl, arith, true, false, some, [], ◌∷◌,
}
use scservices.Platform.{Moment}
use scservices.Serial.{ExpansionHubSerial, new_serial, Session}
use scservices.Serial.Queue.{IsQueued}
use scservices.Serial.Sending.{IsKnown}
use scservices.CachedCommand.{CachedCommand}
use scservices.Hub.Commands.{send_commands}
use scservices.Hub.Told.{send_commands-Told}
use scservices.Hub.Told.Steps.{Told}
use scservices.Hub.Reachable.{started, later, added, timeout}
use scservices.Hub.Daemon.{States, on_added, on_timeout}
use scservices.Hub.Devices.{on_update}
use scservices.Serial.Output.{send_packet}
use scservices.Hub.Adds.{Has}
use scservices.Hub.Disabled.{EnablesNone, Reachable-EnablesNone, send_commands-disabled}
use scservices.Tests.{toy, stopped, configured, session_of, bus_of, new_store}

abbrev eager : ℕ → Moment toy
eager i = record {
  now = (i + 2) * 1000000;
  motor = λ channel. record stopped { enabled = true };
  servo = λ channel. record { enabled = true; pulse_width = 1500; frame_period = 20000 };
}

-- Five bytes wait, in two packets, behind one that is written.
abbrev link : ExpansionHubSerial
link = record configured {
  write_buffer = 9 ∷ 1 ∷ 2 ∷ 3 ∷ 4 ∷ 5 ∷ [];
  pending_writes = 3 ∷ 2 ∷ [];
  current_count = 1;
  outstanding_messages = 7;
}

abbrev asked : Session toy
asked = record (session_of link) { moments = eager }

link-IsQueued : IsQueued link (9 ∷ []) ((1 ∷ 2 ∷ 3 ∷ []) ∷ (4 ∷ 5 ∷ []) ∷ [])
link-IsQueued = record {
  buffer_is = refl;
  sizes_are = refl;
  count_is = refl;
  nonempty = (omega arith, (omega arith, tt));
}

abbrev link-IsKnown : IsKnown link
link-IsKnown = record { address = 2; interface = 4096; address_is = refl; interface_is = refl }

send_commands-disabled_example :
    (t : Session toy) × (send_commands false true asked ≡ some t)
    × Has toy 2 4096 (1 ∷ 2 ∷ 3 ∷ 4 ∷ 5 ∷ []) (λ added. Unit) t.serial t.effects
send_commands-disabled_example =
    send_commands-disabled true asked (9 ∷ []) ((1 ∷ 2 ∷ 3 ∷ []) ∷ (4 ∷ 5 ∷ []) ∷ []) link-IsKnown
      (omega arith) link-IsQueued

-- A hub is added, and the timer finds the robot disabled.
abbrev empty : States toy
empty bus = record (bus_of new_serial) { current_hub = none; moments = eager }

abbrev get_states : Option (States toy) → States toy
get_states none = empty
get_states (some states) = states

abbrev plugged : States toy
plugged = get_states (on_added (some 5) true 2 (0x2F ∷ []) empty)

abbrev timed : States toy
timed = get_states (on_timeout false plugged)

plugged_lem : on_added (some 5) true 2 (0x2F ∷ []) empty ≡ some plugged
unfolding on_added send_packet
plugged_lem = refl

timed_lem : on_timeout false plugged ≡ some timed
unfolding on_timeout on_added send_packet on_update
timed_lem = refl

Reachable-EnablesNone_example : All EnablesNone (timed 2).effects
Reachable-EnablesNone_example =
    Reachable-EnablesNone empty timed (λ bus. (refl, refl))
      (later (later started (added (some 5) true 2 (0x2F ∷ []) plugged_lem))
        (timeout false (λ on. absurd (cc on)) timed_lem))
      2

-- A hub that has acknowledged that each of its channels is disabled.
abbrev acked : CachedCommand Bool
acked = record { last_acked_value = some false; last_attempted_value = false }

abbrev acknowledged : Session toy
acknowledged = record asked {
  store = record new_store {
    motors = λ i. record (new_store.motors i) { enabled_subscriber = acked };
    servos = λ i. record (new_store.servos i) { enabled_subscriber = acked };
  };
}

send_commands-Told_example :
    (t : Session toy) × (send_commands false true acknowledged ≡ some t)
    × Has toy 2 4096 (1 ∷ 2 ∷ 3 ∷ 4 ∷ 5 ∷ []) (Told 2 4096 4 6) t.serial t.effects
send_commands-Told_example =
    send_commands-Told true acknowledged (9 ∷ []) ((1 ∷ 2 ∷ 3 ∷ []) ∷ (4 ∷ 5 ∷ []) ∷ [])
      link-IsKnown (omega arith) link-IsQueued (inl refl)
