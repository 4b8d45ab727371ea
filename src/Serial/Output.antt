-- ===== src/Serial/Output.antt =====
-- expansionhub/ExpansionHubSerial.cpp: `SendPacket`, `Flush`, `StartTransaction`, `Recover`, `AllowSend`.
use scservices.Prelude.{
  ℕ, zero, suc, ◌+◌, ◌%◌, min, Bool, true, false, none, some, List, [], ◌∷◌, ◌++◌, Bytes, length,
  take, drop, ltb, leb, ◌==◌, if◌then◌else◌, add_u8, sub_u64,
}
use scservices.Receiver.{reset}
use scservices.Packet.{build_packet}
use scservices.Platform.{Platform}
use scservices.Serial.{
  ready_to_send, waiting_for_packets, ExpansionHubSerial, written, Action, reading, emit,
}

abbrev pub max_num_outstanding_messages : ℕ
max_num_outstanding_messages = 8

-- The sum of the first `n` sizes. They count bytes that are in memory, so the sum does not wrap.
abbrev pub sum_of_first : ℕ → List ℕ → ℕ
sum_of_first zero sizes = 0
sum_of_first (suc n) [] = 0
sum_of_first (suc n) (x ∷ sizes) = x + sum_of_first n sizes

module _ {p : Platform} where
  -- `SendPacket`; the assertion limits the payload.
  unfoldable pub send_packet : ℕ → ℕ → ℕ → Bytes → Bool → Action p
  send_packet dest_addr message_number packet_type_id pay direct s =
      let packet = build_packet dest_addr message_number packet_type_id pay in
      let serial = s.serial in
      if ltb (length pay) 1013
      then (if direct
          then some (emit (written packet) s)
          else some (record s {
            serial = record serial {
              write_buffer = serial.write_buffer ++ packet;
              pending_writes = serial.pending_writes ++ length packet ∷ [];
            };
          }))
      else none

  -- `Flush`. What `write` reads must lie in the buffer.
  unfoldable pub flush : Action p
  flush s =
      let serial = s.serial in
      let available = length serial.pending_writes in
      let allowed = sub_u64 max_num_outstanding_messages serial.outstanding_messages in
      let to_write = min allowed available in
      let count = sum_of_first to_write serial.pending_writes in
      let popped = record serial { pending_writes = drop to_write serial.pending_writes } in
      if count == 0
      then some (record s { serial = popped })
      else if leb (serial.current_count + count) (length serial.write_buffer)
      then some (record s {
        serial = record popped {
          outstanding_messages = add_u8 serial.outstanding_messages (to_write % 256);
          current_count = serial.current_count + count;
        };
        effects =
            s.effects ++ written (take count (drop serial.current_count serial.write_buffer)) ∷ [];
      })
      else none

  unfoldable pub start_transaction : Bool → Action p
  start_transaction can_do_enable = reading λ moment s. some (record s {
    serial = record (s.serial) {
      write_buffer = [];
      current_count = 0;
      last_loop = moment.now;
      can_enable = can_do_enable;
      have_battery = false;
      have_bulk = false;
      have_module_status = false;
      send_state = waiting_for_packets;
    };
  })

unfoldable pub recover : ExpansionHubSerial → ExpansionHubSerial
unfolding reset
recover serial = record serial {
  state_machine = reset serial.state_machine;
  outstanding_messages = 0;
  write_buffer = [];
  pending_writes = [];
  current_count = 0;
}

unfoldable pub allow_send : ExpansionHubSerial → Bool
allow_send serial = elim (serial.send_state) [ ready_to_send ↦ true | _ ↦ false ]
