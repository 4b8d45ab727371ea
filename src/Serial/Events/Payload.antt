-- ===== src/Serial/Events/Payload.antt =====
-- expansionhub/ExpansionHubSerial.cpp: what is read from the port and the invariant of a link, for a callback
-- `onSendCommands` that ends and keeps the state within a transaction.
use scservices.Prelude.{
  sym, zero, drop, ℕ, suc, ◌≡◌, refl, ap, ◌∙◌, arith, Bool, true, false, not, ◌&&◌, inl, inr,
  Option, none, some, List, [], ◌∷◌, Bytes, ◌==◌, get_elem?, Bool-cases, if◌then◌else◌, sub_u8,
  ◌>>=◌,
}
use scservices.Receiver.{Delivery, handle_bytes}
use scservices.Messages.{
  classify-ForMotor, classify, message_discover, message_ftdi_reset_control,
  message_query_interface,
}
use scservices.Packet.{
  packet_crc, packet_id, packet_reference_number, packet_payload_buffer, packet_is_ack,
  packet_is_nack, packet_is_discover, packet_is_query_interface,
}
use scservices.Platform.{Platform}
use scservices.Serial.{
  waiting_for_packets, waiting_for_finish, ExpansionHubSerial, Effect, Session, Action, skip, ◌>=>◌,
  on_serial,
}
use scservices.Serial.Output.{flush}
use scservices.Serial.Handshake.{handle_discover, handle_ftdi_ack, handle_query_interface}
use scservices.Serial.Payload.{
  is_reported, is_answered, no_writes, advance_to_commands, advance_to_ready,
  check_for_state_advance, advance_if_known, handle_crc_failure, handle_nack, handle_checked,
  handle_payload, handle_all, do_read,
}
use scservices.Serial.Reply.{count_crc_failure, count_nack, handle_reply}
use scservices.Serial.Queue.Flush.{budget, flush-Flushes}
use scservices.Serial.Keeps.{Holds, Guards, then-Guards, if-Guards, bind-Holds, if-Holds}
use scservices.Serial.Whole.{AreSafe, AreSafe-append, All-IsBuilt-drop}
use scservices.Serial.Sending.{flushed-AreSafe, no_leftover_after, HasQueue, IsWriting, IsLink}
use scservices.Serial.Events.{HasQueue-Same, IsLink-Same}
use scservices.Serial.Events.Handshake.{
  handle_discover-Guards, handle_ftdi_ack-Guards, handle_query_interface-Guards,
}
use scservices.Serial.Events.Replies.{
  count_crc_failure-Guards, count_nack-Guards, handle_reply-Guards,
}

drop-nil : (n : ℕ) → drop {A = ℕ} n [] ≡ []
drop-nil zero = refl
drop-nil (suc n) = refl

no_writes-eq : (sizes : List ℕ) → no_writes sizes ≡ true → sizes ≡ []
no_writes-eq [] h = refl
no_writes-eq (x ∷ sizes) h = cc

module _ {p : Platform} (can_enable : Bool) (on_send_commands : Bool → Bool → Action p)
    (ends : (b d : Bool)
      → (b ≡ true → can_enable ≡ true)
      → Guards p (IsWriting Unit can_enable waiting_for_packets) (on_send_commands b d)) where
  advance_to_ready-Guards : Guards p (IsLink can_enable) (advance_to_ready on_send_commands)
  unfolding advance_to_ready
  advance_to_ready-Guards s h = elim (Bool-cases (is_answered s.serial)) [
    | inl done ↦ simp done (
        if-Holds p (IsLink can_enable) s.serial.has_callbacks _ none
          (record {
            has_queue = HasQueue-Same s.serial _ (refl, λ k. k) h.has_queue;
            no_leftover = inr (no_writes-eq s.serial.pending_writes (ground arith));
            safe = AreSafe-append can_enable s.effects (_ ∷ []) h.safe ((refl, tt), tt);
          })
          tt)
    | inr busy ↦ simp busy h
  ]

  to_finish-IsLink :
      (s : Session p)
      → HasQueue can_enable s.serial
      → AreSafe can_enable s.effects
      → IsLink can_enable (record (s.serial) { send_state = waiting_for_finish }) s.effects
  to_finish-IsLink s q safe = record {
    has_queue = HasQueue-Same s.serial _ (refl, λ k. k) q;
    no_leftover = inl (λ e. absurd (cc e));
    safe = safe;
  }

  commands-Holds :
      (m : Option (Session p))
      → Holds p (IsWriting Unit can_enable waiting_for_packets) m
      → Holds p
          (IsLink can_enable)
          (m >>= λ t. some (on_serial (λ r. record r { send_state = waiting_for_finish }) t))
  commands-Holds none e = tt
  commands-Holds (some t) e = to_finish-IsLink t e.is_sending.has_queue e.safe

  is_sending :
      {es : List (Effect p)} (r : ExpansionHubSerial)
      → IsLink can_enable r es
      → is_reported r ≡ true
      → IsWriting Unit can_enable waiting_for_packets r es
  is_sending r h e =
      let waiting : r.send_state ≡ waiting_for_packets = ground arith in
      record {
        is_sending = record { known = inl tt; has_queue = h.has_queue; state_is = waiting };
        safe = h.safe;
      }

  advance_to_commands-Guards : Guards p (IsLink can_enable) (advance_to_commands on_send_commands)
  unfolding advance_to_commands
  advance_to_commands-Guards s h = elim (Bool-cases (is_reported s.serial)) [
    | inl done ↦ simp done (
        if-Holds p (IsLink can_enable) s.serial.has_callbacks _ _
          (commands-Holds _ (
            ends s.serial.can_enable s.serial.device_reset h.has_queue.may_enable s
              (is_sending s.serial h done)))
          (to_finish-IsLink s h.has_queue h.safe))
    | inr waiting ↦ simp waiting h
  ]

  pub check_for_state_advance-Guards :
      Guards p (IsLink can_enable) (check_for_state_advance on_send_commands)
  unfolding check_for_state_advance
  check_for_state_advance-Guards s h =
      then-Guards p (IsLink can_enable) (advance_to_commands on_send_commands)
        (advance_to_ready on_send_commands) advance_to_commands-Guards advance_to_ready-Guards
        (on_serial (λ r. record r { outstanding_messages = sub_u8 r.outstanding_messages 1 }) s)
        (IsLink-Same s.serial _ (refl, λ k. omega arith) refl h)

  flush-Guards : Guards p (IsLink can_enable) flush
  flush-Guards s h =
      let q = h.has_queue in
      let f = flush-Flushes s q.sent q.queue q.in_order q.byte_sized in
      rw f.ends (record {
        has_queue = record {
          sent = _;
          queue = _;
          in_order = f.queued;
          byte_sized = omega (arith, f.outstanding);
          may_enable = λ on. q.may_enable (sym f.same_can_enable ∙ on);
          built = All-IsBuilt-drop can_enable (budget s.serial) q.queue q.built;
        };
        no_leftover =
            no_leftover_after s.serial f.after.serial f.same_state
              (λ e. f.rest ∙ ap (drop (budget s.serial)) e ∙ drop-nil (budget s.serial))
              h.no_leftover;
        safe = flushed-AreSafe can_enable s f.after q.queue f.wrote q.built h.safe;
      })

  handle_crc_failure-Guards : Guards p (IsLink can_enable) (handle_crc_failure on_send_commands)
  unfolding handle_crc_failure
  handle_crc_failure-Guards =
      then-Guards p (IsLink can_enable) count_crc_failure
        (λ s. advance_if_known on_send_commands s.serial.packet_interface_id s)
        count_crc_failure-Guards (λ s h. advance s.serial.packet_interface_id s h)
    where
      advance : (o : Option ℕ) → Guards p (IsLink can_enable) (advance_if_known on_send_commands o)
      advance none s h = h
      advance (some i) s h = check_for_state_advance-Guards s h

  advance_unless-Guards :
      (b : Bool)
      → Guards p (IsLink can_enable) (if b then check_for_state_advance on_send_commands else skip)
  advance_unless-Guards true s h = check_for_state_advance-Guards s h
  advance_unless-Guards false s h = h

  handle_nack-Guards :
      (reference : ℕ) (pay : Bytes)
      → Guards p (IsLink can_enable) (handle_nack on_send_commands reference pay)
  unfolding handle_nack
  handle_nack-Guards reference pay =
      let b = not (reference == message_discover) && not (reference == message_query_interface) in
      then-Guards p (IsLink can_enable)
        (if b then check_for_state_advance on_send_commands else skip)
        (λ s. get_elem? pay 0 >>= λ reason. count_nack s) (advance_unless-Guards b)
        (λ s h.
          bind-Holds p (IsLink can_enable) (get_elem? pay 0) (λ reason. count_nack s)
            (λ reason. count_nack-Guards s h))

  handle_checked-Guards :
      (id reference : ℕ) (pay bytes : Bytes)
      → Guards p (IsLink can_enable) (handle_checked on_send_commands id reference pay bytes)
  unfolding handle_checked
  handle_checked-Guards id reference pay bytes =
      if-Guards p (IsLink can_enable) (packet_is_nack id)
        (handle_nack on_send_commands reference pay) _ (handle_nack-Guards reference pay)
        (if-Guards p (IsLink can_enable) (packet_is_discover id) (handle_discover bytes pay) _
          (handle_discover-Guards bytes pay)
          (if-Guards p (IsLink can_enable)
            (packet_is_ack id && (reference == message_ftdi_reset_control)) handle_ftdi_ack _
            handle_ftdi_ack-Guards
            (if-Guards p (IsLink can_enable) (packet_is_query_interface id)
              (handle_query_interface pay)
              (handle_reply (classify reference) pay >=> check_for_state_advance on_send_commands)
              (handle_query_interface-Guards pay)
              (then-Guards p (IsLink can_enable) (handle_reply (classify reference) pay)
                (check_for_state_advance on_send_commands)
                (handle_reply-Guards (classify reference) pay (classify-ForMotor reference))
                check_for_state_advance-Guards))))

  handle_payload-Guards :
      (bytes : Bytes) (crc : ℕ)
      → Guards p (IsLink can_enable) (handle_payload on_send_commands bytes crc)
  unfolding handle_payload
  handle_payload-Guards bytes crc s h =
      bind-Holds p (IsLink can_enable) (packet_crc bytes) _ (λ last.
        if-Holds p (IsLink can_enable) (not (crc == last)) (handle_crc_failure on_send_commands s) _
          (handle_crc_failure-Guards s h)
          (bind-Holds p (IsLink can_enable) (packet_id bytes) _ (λ id.
            bind-Holds p (IsLink can_enable) (packet_reference_number bytes) _ (λ reference.
              bind-Holds p (IsLink can_enable) (packet_payload_buffer bytes) _
                (λ pay. handle_checked-Guards id reference pay bytes s h)))))

  handle_all-Guards :
      (ds : List Delivery) → Guards p (IsLink can_enable) (handle_all on_send_commands ds)
  unfolding handle_all
  handle_all-Guards [] s h = h
  handle_all-Guards (d ∷ ds) s h =
      then-Guards p (IsLink can_enable) (handle_payload on_send_commands d.bytes d.sum)
        (handle_all on_send_commands ds) (handle_payload-Guards d.bytes d.sum)
        (handle_all-Guards ds) s h

  -- Whatever is read from the port, the link keeps its invariant.
  pub do_read-Guards :
      (bytes : Option Bytes) → Guards p (IsLink can_enable) (do_read on_send_commands bytes)
  unfolding do_read
  do_read-Guards none s h = h
  do_read-Guards (some buffer) s h =
      bind-Holds p (IsLink can_enable) (handle_bytes s.serial.state_machine buffer) _ (λ out.
        then-Guards p (IsLink can_enable) (handle_all on_send_commands out.1) flush
          (handle_all-Guards out.1) flush-Guards
          (on_serial (λ r. record r { state_machine = out.0 }) s)
          (IsLink-Same s.serial (record (s.serial) { state_machine = out.0 }) (refl, λ k. k) refl
            h))
