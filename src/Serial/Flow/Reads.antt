-- ===== src/Serial/Flow/Reads.antt =====
-- expansionhub/ExpansionHubSerial.cpp: `DoRead` of replies at the end of a transaction.
use scservices.Prelude.{
  arith, Option, ℕ, ◌≡◌, refl, ap, ◌∙◌, Bool, false, ◌&&◌, some, [], ◌∷◌, Bytes, ◌==◌, ◌>>=◌,
}
use scservices.Receiver.{handle_bytes}
use scservices.Receiver.Frames.{Framed, bytes_of, idle, delivery_of}
use scservices.Messages.{classify, message_ftdi_reset_control}
use scservices.Packet.{packet_is_ack, packet_is_nack, packet_is_discover, packet_is_query_interface}
use scservices.Platform.{Platform}
use scservices.Serial.{
  SendState, waiting_for_packets, waiting_for_finish, ExpansionHubSerial, Session, Action, ◌>=>◌,
}
use scservices.Serial.Output.{flush}
use scservices.Serial.Payload.{is_reported, check_for_state_advance, handle_checked, do_read}
use scservices.Serial.Reply.{handle_reply}
use scservices.Serial.Frames.{id_of, IsFrame, at_rest, frame_taken, do_read-frame}
use scservices.Serial.Flow.{Flow, IsOpen, answer}
use scservices.Serial.Flow.Replies.{
  Reports, reports_of, report, are_in, Enough, IsQuiet, quiet_end, handle_reply-EndsQuiet,
}
use scservices.Serial.Flow.Refines.{state_of, kept, Shows, answer-Shows}

-- A reply within a transaction, whole on the line: its checksum is right, it refuses nothing, it is not
-- one of the handshake, and it brings the bytes that are read of it.
pub record IsReply (r : Framed) : Type 0 where
  pub is_frame : IsFrame r
  pub not_nack : packet_is_nack (id_of r) ≡ false
  pub not_discover : packet_is_discover (id_of r) ≡ false
  pub not_ftdi :
      (packet_is_ack (id_of r) && (r.fields.reference == message_ftdi_reset_control)) ≡ false
  pub not_interface : packet_is_query_interface (id_of r) ≡ false
  pub enough : Enough (classify r.fields.reference) r.pay

module _ {p : Platform} (f : Bool → Bool → Action p) where
  handle_checked-reply :
      (r : Framed) (s : Session p)
      → IsReply r
      → handle_checked f (id_of r) r.fields.reference r.pay (bytes_of r) s
        ≡ (handle_reply (classify r.fields.reference) r.pay >=> check_for_state_advance f) s
  unfolding handle_checked
  handle_checked-reply r s i =
      let a = i.not_nack in
      let b = i.not_discover in
      let c = i.not_ftdi in let d = i.not_interface in simp (a, b, c, d) refl

  quiet-Shows :
      (base : Bytes) (busy : SendState) (s t : Session p) (a : Flow) (m : ℕ)
      → IsQuiet (at_rest m s) t
      → Shows base busy s.serial s.effects a
      → Shows base busy t.serial t.effects a
  quiet-Shows base busy s t a m (q, w) h = record {
    sent = h.sent;
    queued = record {
      buffer_is = ap (λ x. x.0) q ∙ h.queued.buffer_is;
      sizes_are = ap (λ x. x.1) q ∙ h.queued.sizes_are;
      count_is = ap (λ x. x.2) q ∙ h.queued.count_is;
      nonempty = h.queued.nonempty;
    };
    unanswered_is = ap (λ x. x.3) q ∙ h.unanswered_is;
    written_is = w ∙ h.written_is;
    state_is = ap (λ x. x.4) q ∙ h.state_is;
    callbacks_are = ap (λ x. x.5) q ∙ h.callbacks_are;
    last_length = m;
    between_packets = ap (λ x. x.6) q;
  }

  do_read-reply :
      (r : Framed) (s t u : Session p) (n m : ℕ)
      → IsReply r
      → s.serial.state_machine ≡ idle n 0
      → handle_bytes (idle n 0) (bytes_of r) ≡ some (idle m 0, delivery_of r ∷ [])
      → handle_reply (classify r.fields.reference) r.pay (at_rest m s) ≡ some t
      → (check_for_state_advance f >=> flush) t ≡ some u
      → do_read f (some (bytes_of r)) s ≡ some u
  do_read-reply r s t u n m i between read handled ends =
      do_read-frame f r s n m i.is_frame between read
      ∙ ap (λ k. k >>= flush)
          (handle_checked-reply r (at_rest m s) i
            ∙ ap (λ k. k >>= check_for_state_advance f) handled)
      ∙ ends

  -- A reply that is read has been handled.
  pub record IsHandled (base : Bytes) (busy : SendState) (r : Framed) (s : Session p) (a : Flow)
      : Type 0 where
    pub handled : Session p
    pub shown : Shows base busy handled.serial handled.effects a
    pub same_state : handled.serial.send_state ≡ s.serial.send_state
    pub kept_is : kept handled.serial ≡ (
      s.serial.address,
      s.serial.packet_interface_id,
      report (classify r.fields.reference) (reports_of s.serial),
      s.serial.can_enable,
    )
    pub goes_on :
        (u : Session p)
        → (check_for_state_advance f >=> flush) handled ≡ some u
        → do_read f (some (bytes_of r)) s ≡ some u

  pub reply-IsHandled :
      (base : Bytes) (busy : SendState) (r : Framed) (s : Session p) (a : Flow)
      → IsReply r
      → Shows base busy s.serial s.effects a
      → IsHandled base busy r s a
  reply-IsHandled base busy r s a i h =
      let (m, read) = frame_taken r h.last_length i.is_frame.fits in
      let (t, e, quiet, reports) =
        quiet_end (report (classify r.fields.reference)) (at_rest m s) _ (
          handle_reply-EndsQuiet (classify r.fields.reference) r.pay i.enough (at_rest m s)
            h.callbacks_are) in
      record {
        handled = t;
        shown = quiet-Shows base busy s t a m quiet h;
        same_state = ap (λ x. x.4) quiet.0;
        kept_is =
            kept_lem (ap (λ x. x.7) quiet.0) (ap (λ x. x.8) quiet.0) reports
              (ap (λ x. x.9) quiet.0);
        goes_on = λ u ends. do_read-reply r s t u h.last_length m i h.between_packets read e ends;
      }
    where
      kept_lem :
          {a b c d : Option ℕ} {x y : Reports} {e e' : Bool}
          → a ≡ b
          → c ≡ d
          → x ≡ y
          → e ≡ e'
          → ◌≡◌ {A = Option ℕ × Option ℕ × Reports × Bool} (a, c, x, e) (b, d, y, e')
      kept_lem p q r s = cc (p, q, r, s)

  -- Refinement: a read of one reply, on a link that waits for the end of a transaction and shows a flow with
  -- answers to come, ends without undefined behaviour, and the link then shows that flow after one answer.
  pub do_read-Shows :
      (base : Bytes) (r : Framed) (s : Session p) (a : Flow)
      → IsReply r
      → Shows base waiting_for_finish s.serial s.effects a
      → IsOpen a
      → (s' : Session p) × (do_read f (some (bytes_of r)) s ≡ some s')
        × Shows base waiting_for_finish s'.serial s'.effects (answer a)
  do_read-Shows base r s a i h o =
      let k = reply-IsHandled base waiting_for_finish r s a i h in
      let (u, e, shown, same) = answer-Shows base waiting_for_finish f k.handled a k.shown o (
        finishing k.handled.serial
          (k.shown.state_is ∙ ap (state_of waiting_for_finish) o.not_over)) in
      (u, k.goes_on u e, shown)
    where
      finishing :
          (r : ExpansionHubSerial) → r.send_state ≡ waiting_for_finish → is_reported r ≡ false
      finishing r e = rw e refl

  -- A read of one reply while reports are missing, and still are with it.
  pub do_read-reporting :
      (base : Bytes) (r : Framed) (s : Session p) (a : Flow)
      → IsReply r
      → Shows base waiting_for_packets s.serial s.effects a
      → IsOpen a
      → are_in (report (classify r.fields.reference) (reports_of s.serial)) ≡ false
      → (s' : Session p) × (do_read f (some (bytes_of r)) s ≡ some s')
        × Shows base waiting_for_packets s'.serial s'.effects (answer a)
        × (kept s'.serial ≡ (
          s.serial.address,
          s.serial.packet_interface_id,
          report (classify r.fields.reference) (reports_of s.serial),
          s.serial.can_enable,
        ))
  do_read-reporting base r s a i h o missing =
      let k = reply-IsHandled base waiting_for_packets r s a i h in
      let (u, e, shown, same) =
        answer-Shows base waiting_for_packets f k.handled a k.shown o
          (unreported k.handled.serial (ap (λ x. are_in x.2) k.kept_is ∙ missing)) in
      (u, k.goes_on u e, shown, same ∙ k.kept_is)
    where
      unreported : (r : ExpansionHubSerial) → are_in (reports_of r) ≡ false → is_reported r ≡ false
      unreported r e = ground arith
