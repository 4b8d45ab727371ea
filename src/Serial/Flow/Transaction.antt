-- ===== src/Serial/Flow/Transaction.antt =====
-- expansionhub/ExpansionHubSerial.cpp: a transaction, from its first reply to its end.
use mathlib.Core.Path.{subst}
use scservices.Prelude.{
  if◌then◌else◌, ℕ, ◌+◌, ◌-◌, ◌≤◌, ◌≡◌, refl, ap, ◌∙◌, arith, Bool, true, false, ◌&&◌, Option, none,
  some, List, [], ◌∷◌, ◌++◌, Bytes, length, ◌==◌, ◌>>=◌,
}
use scservices.Receiver.Frames.{Framed, bytes_of}
use scservices.Messages.{classify}
use scservices.Platform.{Platform}
use scservices.Serial.{
  Effect, waiting_for_packets, waiting_for_finish, ExpansionHubSerial, Session, Action, on_serial,
  ◌>=>◌,
}
use scservices.Serial.Output.{flush}
use scservices.Serial.Payload.{
  is_reported, is_answered, no_writes, advance_to_commands, advance_to_ready,
  check_for_state_advance, do_read,
}
use scservices.Serial.Keeps.{Ends}
use scservices.Serial.Sending.{IsKnown}
use scservices.Serial.Advance.{counted}
use scservices.Serial.Flow.{Flow, IsOpen}
use scservices.Serial.Flow.Replies.{reports_of, report, are_in}
use scservices.Serial.Flow.Refines.{state_of, Shows}
use scservices.Serial.Flow.Reads.{IsReply, reply-IsHandled}
use scservices.Serial.Flow.Commands.{Sent, IsCommands}
use scservices.Serial.Flow.Commanded.{counted-Sends, Commanded, sent-Commanded}

module _ {p : Platform} (f : Bool → Bool → Action p) where
  -- The last report is in, and the commands have been sent.
  check_lem :
      (t u : Session p)
      → is_reported t.serial ≡ true
      → t.serial.has_callbacks ≡ true
      → f t.serial.can_enable t.serial.device_reset (counted t) ≡ some u
      → 1 ≤ u.serial.outstanding_messages
      → check_for_state_advance f t
        ≡ some (on_serial (λ r. record r { send_state = waiting_for_finish }) u)
  unfolding check_for_state_advance advance_to_commands advance_to_ready
  check_lem t u reported c e some_left =
      simp reported
        (sent t.serial.has_callbacks c (f t.serial.can_enable t.serial.device_reset (counted t)) e)
    where
      still : (sizes : List ℕ) → (no_writes sizes && (u.serial.outstanding_messages == 0)) ≡ false
      still [] = ground arith
      still (x ∷ sizes) = refl

      to_finish : Session p → Session p
      to_finish v = on_serial (λ r. record r { send_state = waiting_for_finish }) v

      sent :
          (b : Bool)
          → b ≡ true
          → (m : Option (Session p)) → m ≡ some u
          → ((if b then (m >>= λ v. some (to_finish v)) else some (to_finish (counted t)))
              >>= advance_to_ready f)
            ≡ some (to_finish u)
      sent false k m k' = absurd (cc k)
      sent true k m k' =
          let busy : is_answered u.serial ≡ false = still u.serial.pending_writes in
          rw k' (simp busy refl)

  reported_lem :
      (base : Bytes) (r : ExpansionHubSerial) (es : List (Effect p)) (a : Flow)
      → Shows base waiting_for_packets r es a
      → a.is_over ≡ false
      → are_in (reports_of r) ≡ true
      → is_reported r ≡ true
  reported_lem base r es a h still all_in =
      let waiting : r.send_state ≡ waiting_for_packets =
        h.state_is ∙ ap (state_of waiting_for_packets) still in
      rw waiting all_in

  -- The reply that brings the last report: the commands are sent, and their answers are to come.
  pub do_read-Commanded :
      (base : Bytes) (r : Framed) (s : Session p) (a : Flow)
      → IsCommands p f
      → IsReply r
      → Shows base waiting_for_packets s.serial s.effects a
      → IsOpen a
      → IsKnown s.serial
      → are_in (report (classify r.fields.reference) (reports_of s.serial)) ≡ true
      → Commanded s.serial.can_enable base
          (a.out ++ a.waiting)
          (length a.waiting + (a.unanswered - 1))
          (do_read f (some (bytes_of r)) s)
  do_read-Commanded base r s a commands i h o known all_in =
      let k = reply-IsHandled f base waiting_for_packets r s a i h in
      let t = k.handled in
      let reported =
        reported_lem base t.serial t.effects a k.shown o.not_over
          (ap (λ x. are_in x.2) k.kept_is ∙ all_in) in
      let same_flag : t.serial.can_enable ≡ s.serial.can_enable = ap (λ x. x.3) k.kept_is in
      let start = counted-Sends base t a k.shown o (record {
        address = known.address;
        interface = known.interface;
        address_is = ap (λ x. x.0) k.kept_is ∙ known.address_is;
        interface_is = ap (λ x. x.1) k.kept_is ∙ known.interface_is;
      }) in
      go t reported k.shown.callbacks_are k.goes_on
        (f t.serial.can_enable t.serial.device_reset (counted t)) refl
        (subst
          (λ b.
            Ends p ⊥ (Sent b base (a.out ++ a.waiting) (length a.waiting + (a.unanswered - 1)) 1)
              (f t.serial.can_enable t.serial.device_reset (counted t)))
          same_flag
          (commands base (a.out ++ a.waiting) (length a.waiting + (a.unanswered - 1))
            t.serial.can_enable t.serial.device_reset (counted t) start))
    where
      go :
          (t : Session p)
          → is_reported t.serial ≡ true
          → t.serial.has_callbacks ≡ true
          → ((u : Session p)
              → (check_for_state_advance f >=> flush) t ≡ some u
              → do_read f (some (bytes_of r)) s ≡ some u)
          → (m : Option (Session p)) → f t.serial.can_enable t.serial.device_reset (counted t) ≡ m
          → Ends p ⊥
              (Sent s.serial.can_enable base
                (a.out ++ a.waiting)
                (length a.waiting + (a.unanswered - 1))
                1)
              m
          → Commanded s.serial.can_enable base
              (a.out ++ a.waiting)
              (length a.waiting + (a.unanswered - 1))
              (do_read f (some (bytes_of r)) s)
      go t reported c goes_on none e absurdity = absurd absurdity
      go t reported c goes_on (some u) e sent =
          let (some_left, d) = sent-Commanded s.serial.can_enable base _ _ u sent in
          record {
            after = d.after;
            flow_after = d.flow_after;
            commands = d.commands;
            ends =
                goes_on d.after
                  (ap (λ k. k >>= flush) (check_lem t u reported c e some_left) ∙ d.ends);
            shown = d.shown;
            is_open = d.is_open;
            same_packets = d.same_packets;
            built = d.built;
            left_is = d.left_is;
          }
