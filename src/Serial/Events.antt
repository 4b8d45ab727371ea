-- ===== src/Serial/Events.antt =====
-- expansionhub/ExpansionHubSerial.cpp: the invariant of a link, its fields, and what leaves them alone.
pub mod Handshake
pub mod Replies
pub mod Payload
use scservices.Prelude.{
  ℤ, ℕ, suc, ◌+◌, ◌<◌, ◌≡◌, refl, sym, ap, ◌∙◌, arith, Bool, true, false, not, ◌&&◌, ◌⊎◌, inl, inr,
  Option, none, some, List, [], ◌∷◌, ◌++◌, Bytes, ◌==◌, get_elem?, Bool-cases, if◌then◌else◌,
  length, ltb, leb, sub_u64, sub_u8, ◌>>=◌,
}
use scservices.Receiver.{Delivery, handle_bytes}
use scservices.Messages.{
  Reply, servo_enable, servo_configuration, motor_enable, motor_reset_encoder, motor_set_run_mode,
  motor_get_current, bulk_input, module_status, battery_voltage, other, classify, message_discover,
  message_ftdi_reset_control, message_query_interface,
}
use scservices.Packet.{
  packet_crc, packet_id, packet_reference_number, packet_payload_buffer, packet_source_address,
  packet_is_ack, packet_is_nack, packet_is_discover, packet_is_query_interface, read_uint16,
  read_int16, read_int32, subspan,
}
use scservices.Platform.{Platform}
use scservices.Serial.{
  SendState, ready_to_send, waiting_for_packets, waiting_for_finish, ExpansionHubSerial, Effect,
  Session, Action, skip, ◌>=>◌, on_serial, with_address, with_interface,
}
use scservices.Serial.Output.{send_packet, flush}
use scservices.Serial.Handshake.{
  is_some, handle_discover, handle_ftdi_ack, handle_query_interface, message_timeout, retry,
  run_discover_internal, run_interface_packet_id_internal, run_ftdi_configure_internal, steps_for,
  run_synchronous_steps,
}
use scservices.Serial.Payload.{
  is_waiting_for_packets, is_reported, is_answered, no_writes, advance_to_commands,
  advance_to_ready, check_for_state_advance, advance_if_known, handle_crc_failure, handle_nack,
  handle_checked, handle_payload, handle_all, do_read,
}
use scservices.Serial.Reply.{
  with_store, count_crc_failure, count_nack, publish_encoder, publish_battery, read_encoder,
  handle_bulk_input, handle_battery, handle_current, handle_module_status, handle_reply,
}
use scservices.Serial.Queue.{IsQueued}
use scservices.Serial.Keeps.{
  Ends, Holds, Guards, then-Guards, if-Guards, bind-Holds, if-Holds, Keeps,
}
use scservices.Serial.Whole.{IsSafe, AreSafe, AreSafe-append}
use scservices.Serial.Sending.{no_leftover_after, HasQueue, IsKnown, IsSending, IsLink}

-- The fields on which the invariant depends, the outstanding messages up to their range.
abbrev pub fields : ExpansionHubSerial → Bytes × List ℕ × ℕ × Bool × Option ℕ × Option ℕ
fields r = (
  r.write_buffer, r.pending_writes, r.current_count, r.can_enable, r.address, r.packet_interface_id,
)

abbrev pub Same : ExpansionHubSerial → ExpansionHubSerial → Type 0
Same r r' = (fields r' ≡ fields r) × (r.outstanding_messages < 256 → r'.outstanding_messages < 256)

pub HasQueue-Same :
    {can_enable : Bool} (r r' : ExpansionHubSerial)
    → Same r r'
    → HasQueue can_enable r
    → HasQueue can_enable r'
HasQueue-Same r r' (e, small) h = record {
  sent = h.sent;
  queue = h.queue;
  in_order = record {
    buffer_is = ap (λ t. t.0) e ∙ h.in_order.buffer_is;
    sizes_are = ap (λ t. t.1) e ∙ h.in_order.sizes_are;
    count_is = ap (λ t. t.2) e ∙ h.in_order.count_is;
    nonempty = h.in_order.nonempty;
  };
  byte_sized = small h.byte_sized;
  may_enable = λ on. h.may_enable (sym (ap (λ t. t.3) e) ∙ on);
  built = h.built;
}

pub HasQueue-eq :
    {can_enable : Bool} (r r' : ExpansionHubSerial)
    → ◌≡◌ {A = Bytes × List ℕ × ℕ × ℕ × Bool}
        (
          r'.write_buffer, r'.pending_writes, r'.current_count, r'.outstanding_messages,
          r'.can_enable,
        )
        (r.write_buffer, r.pending_writes, r.current_count, r.outstanding_messages, r.can_enable)
    → HasQueue can_enable r
    → HasQueue can_enable r'
HasQueue-eq r r' e h = record {
  sent = h.sent;
  queue = h.queue;
  in_order = record {
    buffer_is = ap (λ t. t.0) e ∙ h.in_order.buffer_is;
    sizes_are = ap (λ t. t.1) e ∙ h.in_order.sizes_are;
    count_is = ap (λ t. t.2) e ∙ h.in_order.count_is;
    nonempty = h.in_order.nonempty;
  };
  byte_sized = omega (arith, ap (λ t. t.3) e, h.byte_sized);
  may_enable = λ on. h.may_enable (sym (ap (λ t. t.4) e) ∙ on);
  built = h.built;
}

pub IsLink-Same :
    {p : Platform} {can_enable : Bool} {es : List (Effect p)} (r r' : ExpansionHubSerial)
    → Same r r'
    → r'.send_state ≡ r.send_state
    → IsLink can_enable r es
    → IsLink can_enable r' es
IsLink-Same r r' e st h = record {
  has_queue = HasQueue-Same r r' e h.has_queue;
  no_leftover = no_leftover_after r r' st (λ k. ap (λ t. t.1) e.0 ∙ k) h.no_leftover;
  safe = h.safe;
}

-- A link after an effect that is not a write.
pub IsLink-effect :
    {p : Platform} {can_enable : Bool} (r : ExpansionHubSerial) (es : List (Effect p))
    (e : Effect p)
    → IsSafe can_enable e
    → IsLink can_enable r es
    → IsLink can_enable r (es ++ e ∷ [])
IsLink-effect {can_enable = can_enable} r es e safe h = record {
  has_queue = h.has_queue;
  no_leftover = h.no_leftover;
  safe = AreSafe-append can_enable es (e ∷ []) h.safe (safe, tt);
}
