-- ===== src/Serial/Payload.antt =====
-- expansionhub/ExpansionHubSerial.cpp: `CheckForStateAdvance`, `HandlePayload` and `DoRead`. The callback
-- `onSendCommands` is a parameter.
use scservices.Prelude.{
  ℕ, Bool, true, false, not, ◌&&◌, Option, none, some, List, [], ◌∷◌, Bytes, get_elem?, ◌==◌,
  if◌then◌else◌, sub_u8, sub_u64, ◌>>=◌,
}
use scservices.Receiver.{Delivery, handle_bytes}
use scservices.Messages.{
  classify, message_discover, message_query_interface, message_ftdi_reset_control,
}
use scservices.Packet.{
  packet_crc, packet_id, packet_reference_number, packet_payload_buffer, packet_is_ack,
  packet_is_nack, packet_is_discover, packet_is_query_interface,
}
use scservices.Platform.{Platform}
use scservices.Serial.{
  ready_to_send, waiting_for_packets, waiting_for_finish, SendState, ExpansionHubSerial, Topic,
  published_int, Action, skip, reading, emit, on_serial, ◌>=>◌,
}
use scservices.Serial.Output.{flush}
use scservices.Serial.Handshake.{handle_discover, handle_ftdi_ack, handle_query_interface}
use scservices.Serial.Reply.{with_store, count_crc_failure, count_nack, handle_reply}

abbrev pub is_waiting_for_packets : SendState → Bool
is_waiting_for_packets waiting_for_packets = true
is_waiting_for_packets _ = false

abbrev pub no_writes : List ℕ → Bool
no_writes [] = true
no_writes (x ∷ sizes) = false

-- The two conditions of `CheckForStateAdvance`: the three reports of a transaction are in, and all that
-- was to be sent is sent and answered.
abbrev pub is_reported : ExpansionHubSerial → Bool
is_reported r =
    is_waiting_for_packets r.send_state && (r.have_battery && (r.have_bulk && r.have_module_status))

abbrev pub is_answered : ExpansionHubSerial → Bool
is_answered r = no_writes r.pending_writes && (r.outstanding_messages == 0)

module _ {p : Platform} where
  module _ (on_send_commands : Bool → Bool → Action p) where
    -- The part of `CheckForStateAdvance` that sends the commands, once all has been reported.
    unfoldable pub advance_to_commands : Action p
    advance_to_commands s =
        let serial = s.serial in
        let to_finish : Action p =
          λ t. some (on_serial (λ r. record r { send_state = waiting_for_finish }) t) in
        if is_reported serial
        then (if serial.has_callbacks
            then on_send_commands serial.can_enable serial.device_reset s >>= to_finish
            else to_finish s)
        else some s

    -- The part that ends the transaction.
    unfoldable pub advance_to_ready : Action p
    advance_to_ready s =
        if is_answered s.serial
        then reading
            (λ moment. with_store λ t. some (
              on_serial (λ r. record r { send_state = ready_to_send })
                (emit (published_int Topic.transaction_time (sub_u64 moment.now t.serial.last_loop))
                  t)))
            s
        else some s

    unfoldable pub check_for_state_advance : Action p
    unfolding advance_to_commands advance_to_ready
    check_for_state_advance s =
        (advance_to_commands >=> advance_to_ready)
          (on_serial (λ r. record r { outstanding_messages = sub_u8 r.outstanding_messages 1 }) s)

    -- `if (packetInterfaceId.has_value()) CheckForStateAdvance(…)`, after a checksum failure.
    abbrev pub advance_if_known : Option ℕ → Action p
    advance_if_known none = skip
    advance_if_known (some i) = check_for_state_advance

    unfoldable pub handle_crc_failure : Action p
    unfolding count_crc_failure check_for_state_advance
    handle_crc_failure = count_crc_failure >=> λ s. advance_if_known s.serial.packet_interface_id s

    -- The first byte of the payload is read for the message that is printed.
    unfoldable pub handle_nack : ℕ → Bytes → Action p
    unfolding count_nack check_for_state_advance
    handle_nack reference pay =
        (if not (reference == message_discover) && not (reference == message_query_interface)
          then check_for_state_advance
          else skip)
        >=> λ s. get_elem? pay 0 >>= λ reason. count_nack s

    -- `HandlePayload` after the checksum test.
    unfoldable pub handle_checked : ℕ → ℕ → Bytes → Bytes → Action p
    unfolding handle_nack handle_discover handle_ftdi_ack handle_query_interface handle_reply
    handle_checked id reference pay bytes =
        if packet_is_nack id
        then handle_nack reference pay
        else if packet_is_discover id
        then handle_discover bytes pay
        else if packet_is_ack id && (reference == message_ftdi_reset_control)
        then handle_ftdi_ack
        else if packet_is_query_interface id
        then handle_query_interface pay
        else (handle_reply (classify reference) pay >=> check_for_state_advance)

    unfoldable pub handle_payload : Bytes → ℕ → Action p
    unfolding handle_crc_failure handle_checked
    handle_payload bytes crc s = packet_crc bytes >>= λ last.
        if not (crc == last)
        then handle_crc_failure s
        else (packet_id bytes >>= λ id. packet_reference_number bytes >>= λ reference.
            packet_payload_buffer bytes >>= λ pay. handle_checked id reference pay bytes s)

    -- The packets that `HandleBytes` delivers, one after the other. `HandlePayload` neither reads nor
    -- changes the receive machine, which may therefore move on first.
    unfoldable pub handle_all : List Delivery → Action p
    unfolding handle_payload
    handle_all [] = skip
    handle_all (d ∷ ds) = handle_payload d.bytes d.sum >=> handle_all ds

    -- `DoRead`, with the bytes read, or `none` where `read` returns no byte or an error.
    unfoldable pub do_read : Option Bytes → Action p
    unfolding handle_all
    do_read none s = some s
    do_read (some buffer) s = handle_bytes s.serial.state_machine buffer >>= λ (machine, delivered).
        (handle_all delivered >=> flush) (on_serial (λ r. record r { state_machine = machine }) s)
