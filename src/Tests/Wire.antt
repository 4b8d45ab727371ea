-- ===== src/Tests/Wire.antt =====
-- Packets and settings at concrete values.
use scservices.Prelude.{
  ◌⊎◌, ℕ, ◌≡◌, ◌≢◌, refl, ◌>>=◌, add_u8, sum_u8, nat_eq, arith, none, some, List, [], ◌∷◌, ◌++◌,
  All, take,
}
use scservices.Receiver.{Delivery, initial, handle_bytes}
use scservices.Receiver.Inv.{IsValid, IsPacket}
use scservices.Receiver.Bytewise.{feed_all, handle_bytes-feed_all, handle_bytes-append}
use scservices.Receiver.Delivered.{handle_bytes-IsPacket}
use scservices.Receiver.Frames.{
  Framed, idle, wire, bytes_of, delivery_of, handle_bytes-wire, handle_bytes_false_start,
}
use scservices.Messages.{
  classify, numbered, message_motor_enable_0, message_motor_reset_encoder_0,
  message_motor_set_run_mode_0, message_motor_get_current_0, message_servo_enable_0,
  message_servo_configuration_0, classify-numbered, motor_enable, motor_reset_encoder,
  motor_set_run_mode, motor_get_current, servo_enable, servo_configuration,
}
use scservices.CachedCommand.{get, ack}
use scservices.CachedCommand.Laws.{Call, asked, replied, after, run, Known, Stray, get-Known}
use scservices.Packet.{
  build_packet, calc_checksum, packet_crc, packet_id, packet_destination_address,
  packet_payload_buffer,
}
use scservices.Packet.RoundTrip.{handle_bytes-build_packet}
use scservices.Tests.{unset}

-- The discover request of address 255, and a packet with two bytes of payload.
abbrev discover : Framed
discover = record {
  fields = record {
    destination = 255;
    source = 0;
    message = 0;
    reference = 0;
    id_low = 15;
    id_high = 127;
  };
  pay = [];
  crc = 39;
}

abbrev two_bytes : Framed
two_bytes = record {
  fields = record {
    destination = 2;
    source = 0;
    message = 5;
    reference = 0;
    id_low = 1;
    id_high = 16;
  };
  pay = 7 ∷ 8 ∷ [];
  crc = 0;
}

handle_bytes-feed_all_example :
    handle_bytes initial (bytes_of discover) ≡ some (feed_all initial (bytes_of discover))
handle_bytes-feed_all_example = handle_bytes-feed_all (bytes_of discover) initial refl

handle_bytes-append_example : handle_bytes initial ((0x44 ∷ 0x4B ∷ 11 ∷ []) ++ (0 ∷ 255 ∷ [])) ≡ (do
  (q, first) ← handle_bytes initial (0x44 ∷ 0x4B ∷ 11 ∷ [])
  (q', second) ← handle_bytes q (0 ∷ 255 ∷ [])
  some (q', first ++ second))
handle_bytes-append_example =
    handle_bytes-append (0x44 ∷ 0x4B ∷ 11 ∷ []) (0 ∷ 255 ∷ []) initial refl

handle_bytes-wire_example :
    (m : ℕ) × (handle_bytes (idle 0 0) (wire (discover ∷ two_bytes ∷ []))
      ≡ some (idle m 0, delivery_of discover ∷ delivery_of two_bytes ∷ []))
handle_bytes-wire_example =
    handle_bytes-wire (discover ∷ two_bytes ∷ []) 0 (omega arith, (omega arith, tt))

handle_bytes_false_start_example :
    (d : Delivery) × (m : ℕ) × (handle_bytes (idle 0 0) (0x44 ∷ 3 ∷ bytes_of discover)
      ≡ some (idle m 0, d ∷ []))
    × (d.bytes ≡ bytes_of discover)
    × (d.sum ≡ add_u8 39 0x44)
    × (d.sum ≢ 39)
unfolding sum_u8
handle_bytes_false_start_example =
    handle_bytes_false_start 3 0 discover (omega arith) (omega arith) refl

handle_bytes-IsPacket_example :
    IsValid (feed_all initial (bytes_of discover)).0
    × All (λ d. IsPacket d.bytes) (feed_all initial (bytes_of discover)).1
handle_bytes-IsPacket_example =
    handle_bytes-IsPacket (bytes_of discover) initial refl
      (handle_bytes-feed_all (bytes_of discover) initial refl)

handle_bytes-build_packet_example :
    (m : ℕ) × (handle_bytes (idle 0 0) (build_packet 2 5 0x1001 (7 ∷ 8 ∷ []))
      ≡ some (
        idle m 0,
        record {
          bytes = build_packet 2 5 0x1001 (7 ∷ 8 ∷ []);
          sum = calc_checksum (take 12 (build_packet 2 5 0x1001 (7 ∷ 8 ∷ [])));
        }
            ∷ [],
      ))
    × (packet_crc (build_packet 2 5 0x1001 (7 ∷ 8 ∷ []))
        ≡ some (calc_checksum (take 12 (build_packet 2 5 0x1001 (7 ∷ 8 ∷ [])))))
    × (packet_destination_address (build_packet 2 5 0x1001 (7 ∷ 8 ∷ [])) ≡ some 2)
    × (packet_id (build_packet 2 5 0x1001 (7 ∷ 8 ∷ [])) ≡ some 0x1001)
    × (packet_payload_buffer (build_packet 2 5 0x1001 (7 ∷ 8 ∷ [])) ≡ some (7 ∷ 8 ∷ []))
handle_bytes-build_packet_example =
    handle_bytes-build_packet 2 5 0x1001 0 (7 ∷ 8 ∷ []) (omega arith) (omega arith)

classify-numbered_example :
    (classify (numbered message_motor_enable_0 2) ≡ motor_enable 2)
    × (classify (numbered message_motor_reset_encoder_0 2) ≡ motor_reset_encoder 2)
    × (classify (numbered message_motor_set_run_mode_0 2) ≡ motor_set_run_mode 2)
    × (classify (numbered message_motor_get_current_0 2) ≡ motor_get_current 2)
    × (classify (numbered message_servo_enable_0 5) ≡ servo_enable 5)
    × (classify (numbered message_servo_configuration_0 5) ≡ servo_configuration 5)
classify-numbered_example = classify-numbered 2 5 (omega arith) (omega arith)

-- 600 is sent, acknowledged, and not sent again.
abbrev sent_once : List (Call ℕ)
sent_once = replied ∷ asked 600 ∷ []

not_sent_again : (get 600 (run (unset 0) sent_once)).1 ≡ none
unfolding run after get ack
not_sent_again = refl

abbrev speed : ℕ
speed = 600

get-Known_example : Known (unset 0) speed sent_once ⊎ (Stray (unset 0) sent_once × (speed ≡ 0))
get-Known_example = get-Known (unset 0) sent_once speed refl not_sent_again
