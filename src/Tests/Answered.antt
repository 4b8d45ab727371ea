-- ===== src/Tests/Answered.antt =====
-- A whole transaction on a hub that answers each request.
use scservices.Serial.Flow.Replies.{are_in}
use scservices.Serial.Flow.Stream.{reports_from}
use scservices.Hub.Answered.Begun.{no_reports}
use scservices.Serial.Handshake.{has_finished_synchronous}
use scservices.Serial.Output.{allow_send}
use scservices.NtState.{ExpansionHubNtState, num_motors_per_hub}
use scservices.Serial.Output.{flush}
use scservices.Hub.Commands.{compute_powers, send_commands}
use scservices.Hub.Initial.Queues.{Leads}
use scservices.Hub.Exact.{command_requests}
use scservices.Hub.Exact.Sent.{send_commands-Leads}
use scservices.Tests.{new_store, moment, session_of}
use scservices.Prelude.{false, ℕ, zero, suc, ◌≡◌, refl, arith, true, [], ◌∷◌, Bytes, sum_u8}
use scservices.Receiver.Frames.{Framed}
use scservices.Messages.{classify}
use scservices.Receiver.{second_byte}
use scservices.Serial.{waiting_for_finish, ExpansionHubSerial}
use scservices.Hub.{ExpansionHubState}
use scservices.Hub.Recovered.{on_update-over}
use scservices.Hub.Served.{requests_at, IsServed, on_update-answered}
use scservices.Serial.Sending.{IsKnown}
use scservices.Serial.Flow.Port.{port_bytes}
use scservices.Serial.Flow.Reads.{IsReply}
use scservices.Hub.Devices.{on_update}
use scservices.Tests.{toy, bus_of, configured}
use scservices.Tests.Frames.{reply, alive, alive-IsReply}

abbrev status : Framed
status = reply 42 0x03 0xFF (0 ∷ []) 0xCA

-- 12 volts.
abbrev battery : Framed
battery = reply 44 0x07 0x90 (0xE0 ∷ 0x2E ∷ []) 0x70

abbrev zero_bytes : ℕ → Bytes
zero_bytes zero = []
zero_bytes (suc n) = 0 ∷ zero_bytes n

abbrev bulk : Framed
bulk = reply 41 0x00 0x90 (zero_bytes 26) 0x70

-- The replies of the hub, in the order of the requests, and acknowledgements behind them.
abbrev pub replies : ℕ → Framed
replies zero = alive
replies (suc zero) = status
replies (suc (suc zero)) = battery
replies (suc (suc (suc zero))) = bulk
replies (suc (suc (suc (suc i)))) = alive

pub replies-IsReply : (i : ℕ) → IsReply (replies i)
unfolding classify sum_u8
replies-IsReply zero = alive-IsReply
replies-IsReply (suc zero) = record {
  is_frame = record { fits = omega arith; checked = refl };
  not_nack = refl;
  not_discover = refl;
  not_ftdi = refl;
  not_interface = refl;
  enough = omega arith;
}
replies-IsReply (suc (suc zero)) = record {
  is_frame = record { fits = omega arith; checked = refl };
  not_nack = refl;
  not_discover = refl;
  not_ftdi = refl;
  not_interface = refl;
  enough = omega arith;
}
replies-IsReply (suc (suc (suc zero))) = record {
  is_frame = record { fits = omega arith; checked = refl };
  not_nack = refl;
  not_discover = refl;
  not_ftdi = refl;
  not_interface = refl;
  enough = omega arith;
}
replies-IsReply (suc (suc (suc (suc i)))) = alive-IsReply

pub none_yet : are_in (reports_from replies 3 0 no_reports) ≡ false
unfolding classify
none_yet = refl

pub all_in : are_in (reports_from replies 4 0 no_reports) ≡ true
unfolding classify
all_in = refl

configured-IsKnown : IsKnown configured
configured-IsKnown = record {
  address = 2;
  interface = 4096;
  address_is = refl;
  interface_is = refl;
}

-- A bus whose hub is ready, and its first transaction.
abbrev ready : ExpansionHubState toy
ready = bus_of configured

on_update-answered_example :
    IsServed true
      (requests_at configured-IsKnown ready)
      0
      replies
      (port_bytes ready.effects)
      (on_update true ready)
unfolding has_finished_synchronous allow_send
on_update-answered_example =
    on_update-answered true ready configured 0 3 replies configured-IsKnown refl refl refl refl refl
      refl (omega arith) replies-IsReply none_yet all_in (omega arith)

-- A bus whose transaction is stuck since two seconds, with a packet that is not whole in its machine.
abbrev stuck_link : ExpansionHubSerial
stuck_link = record configured {
  send_state = waiting_for_finish;
  outstanding_messages = 5;
  write_buffer = 1 ∷ 2 ∷ 3 ∷ [];
  pending_writes = 7 ∷ [];
  state_machine = record {
    state = second_byte;
    bytes_to_receive = 3;
    crc = 0x44;
    storage = 0x44 ∷ [];
  };
}

abbrev stuck : ExpansionHubState toy
stuck = bus_of stuck_link

stuck-IsKnown : IsKnown stuck_link
stuck-IsKnown = record { address = 2; interface = 4096; address_is = refl; interface_is = refl }

on_update-over_example :
    IsServed true
      (requests_at stuck-IsKnown stuck)
      0
      replies
      (port_bytes stuck.effects)
      (on_update true stuck)
unfolding has_finished_synchronous allow_send
on_update-over_example =
    on_update-over true stuck stuck_link 3 replies stuck-IsKnown refl refl refl refl (omega arith)
      replies-IsReply none_yet all_in (omega arith)

-- The requests of a bus whose topics ask for nothing.
send_commands-Leads_example :
    (store : ExpansionHubNtState toy) × Leads flush 24
      (command_requests 2 4096 new_store moment true
        (compute_powers num_motors_per_hub 0 (session_of configured)).1
        4)
      store
      (session_of configured)
      (send_commands true false (session_of configured))
send_commands-Leads_example =
    send_commands-Leads true false 2 4096 (session_of configured) (session_of configured) refl refl
      refl
