-- ===== src/Tests/Frames.antt =====
-- Whole packets that a link reads: the answers of the handshake, and the replies that end a transaction.
use scservices.Prelude.{sum_u8, ℕ, ◌≡◌, refl, arith, false, some, [], ◌∷◌, Bytes, inr, nat_eq}
use scservices.Receiver.Frames.{Framed, bytes_of}
use scservices.Messages.{classify}
use scservices.Packet.{read_uint16}
use scservices.Serial.{waiting_for_finish, ExpansionHubSerial, Session}
use scservices.Serial.Payload.{do_read}
use scservices.Serial.Queue.{IsQueued}
use scservices.Serial.Connect.{AreAnswers}
use scservices.Serial.Flow.{Flow, flow, answer}
use scservices.Serial.Flow.Refines.{Shows}
use scservices.Serial.Flow.Reads.{IsReply, do_read-Shows}
use scservices.Tests.{toy, session_of, configured}
use scservices.Tests.Transactions.{silent}

-- A packet of the hub 2.
abbrev pub reply : ℕ → ℕ → ℕ → Bytes → ℕ → Framed
reply reference id_low id_high pay crc = record {
  fields = record {
    destination = 0;
    source = 2;
    message = 1;
    reference = reference;
    id_low = id_low;
    id_high = id_high;
  };
  pay = pay;
  crc = crc;
}

abbrev pub found : Framed
found = reply 0 0x0F 0xFF (1 ∷ []) 0xAD

abbrev pub told : Framed
told = reply 2 0x07 0xFF (0 ∷ 16 ∷ []) 0xB7

abbrev pub done : Framed
done = reply 1 0x01 0x7F [] 0x1E

pub answers_lem : AreAnswers 2 4096 found told done
unfolding read_uint16 sum_u8
answers_lem = record {
  found_frame = record { fits = omega arith; checked = refl };
  found_id = refl;
  found_source = refl;
  found_rest = [];
  found_pay = refl;
  told_frame = record { fits = omega arith; checked = refl };
  told_id = refl;
  told_pay = refl;
  done_frame = record { fits = omega arith; checked = refl };
  done_id = refl;
  done_reference = refl;
}

-- The acknowledgement of a keep alive, and the current of motor 0.
abbrev pub alive : Framed
alive = reply 43 0x01 0x7F [] 0x48

abbrev current : Framed
current = reply 37 0x07 0x90 (5 ∷ 0 ∷ []) 0x60

pub alive-IsReply : IsReply alive
unfolding classify sum_u8
alive-IsReply = record {
  is_frame = record { fits = omega arith; checked = refl };
  not_nack = refl;
  not_discover = refl;
  not_ftdi = refl;
  not_interface = refl;
  enough = tt;
}

current-IsReply : IsReply current
unfolding classify sum_u8
current-IsReply = record {
  is_frame = record { fits = omega arith; checked = refl };
  not_nack = refl;
  not_discover = refl;
  not_ftdi = refl;
  not_interface = refl;
  enough = omega arith;
}

-- One packet waits, and eight messages are outstanding.
abbrev finishing : ExpansionHubSerial
finishing = record configured {
  send_state = waiting_for_finish;
  write_buffer = 9 ∷ 1 ∷ 2 ∷ 3 ∷ [];
  pending_writes = 3 ∷ [];
  current_count = 1;
  outstanding_messages = 8;
}

finishing-IsQueued : IsQueued finishing (9 ∷ []) ((1 ∷ 2 ∷ 3 ∷ []) ∷ [])
finishing-IsQueued = record {
  buffer_is = refl;
  sizes_are = refl;
  count_is = refl;
  nonempty = (omega arith, tt);
}

abbrev waiting : Flow
waiting = flow ((1 ∷ 2 ∷ 3 ∷ []) ∷ []) 8 [] false

finishing-Shows : Shows {p = toy} [] waiting_for_finish finishing [] waiting
finishing-Shows = record {
  sent = 9 ∷ [];
  queued = finishing-IsQueued;
  unanswered_is = refl;
  written_is = refl;
  state_is = refl;
  callbacks_are = refl;
  last_length = 0;
  between_packets = refl;
}

do_read-Shows_example :
    (s' : Session toy) × (do_read silent (some (bytes_of current)) (session_of finishing) ≡ some s')
    × Shows [] waiting_for_finish s'.serial s'.effects (answer waiting)
do_read-Shows_example =
    do_read-Shows silent [] current (session_of finishing) waiting current-IsReply finishing-Shows
      (record { not_over = refl; some_left = omega arith; few = omega arith; full = inr refl })
