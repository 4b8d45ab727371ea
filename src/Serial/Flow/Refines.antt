-- ===== src/Serial/Flow/Refines.antt =====
-- expansionhub/ExpansionHubSerial.cpp: `CheckForStateAdvance` and `Flush` at the end of a transaction, as steps
-- of its abstract flow.
use scservices.Prelude.{
  Option, ℕ, suc, ◌-◌, ◌≤◌, ◌≡◌, refl, ap, sym, ◌∙◌, arith, Bool, true, false, inl, inr, some, List,
  [], ◌∷◌, ◌++◌, map, Bytes, length, take, append_assoc, append-nil, sub_u8, sub_u64, Bool-cases,
}
use scservices.Receiver.Frames.{idle}
use scservices.Platform.{Platform}
use scservices.Serial.{
  ExpansionHubSerial, Effect, SendState, ready_to_send, Session, Action, Topic, published_int,
  on_serial, emit, ◌>=>◌,
}
use scservices.Serial.Output.{flush}
use scservices.Serial.Payload.{
  is_reported, is_answered, no_writes, advance_to_commands, advance_to_ready,
  check_for_state_advance,
}
use scservices.Serial.Queue.{concat, concat-append, IsQueued}
use scservices.Serial.Queue.Flush.{budget, writes, flush-Flushes, length-sizes}
use scservices.Serial.Advance.{counted}
use scservices.Serial.Flow.{Flow, take_answer, send_out, answer, room, is_nil, IsOpen}
use scservices.Serial.Flow.Replies.{Reports, reports_of}
use scservices.Serial.Flow.Port.{port_bytes, port_bytes-append, port_bytes-writes}

abbrev pub state_of : SendState → Bool → SendState
state_of busy true = ready_to_send
state_of busy false = busy

nothing_waits : (qs : List Bytes) → no_writes (map length qs) ≡ is_nil qs
nothing_waits [] = refl
nothing_waits (q ∷ qs) = refl

-- What a reply that is counted leaves alone: the address, the interface, the reports and the flag.
abbrev pub kept : ExpansionHubSerial → Option ℕ × Option ℕ × Reports × Bool
kept r = (r.address, r.packet_interface_id, reports_of r, r.can_enable)

module _ {p : Platform} where
  -- The link shows the flow, in a state of the transaction: its queue holds what waits, its count is that of
  -- the answers to come, and behind `base` it has written to the port what the flow has written. Its
  -- receive machine stands between packets.
  pub record Shows (base : Bytes) (busy : SendState) (r : ExpansionHubSerial) (es : List (Effect p))
      (a : Flow) : Type 0 where
    pub sent : Bytes
    pub queued : IsQueued r sent a.waiting
    pub unanswered_is : r.outstanding_messages ≡ a.unanswered
    pub written_is : port_bytes es ≡ base ++ concat a.out
    pub state_is : r.send_state ≡ state_of busy a.is_over
    pub callbacks_are : r.has_callbacks ≡ true
    pub last_length : ℕ
    pub between_packets : r.state_machine ≡ idle last_length 0

  -- What the end of a transaction does not change.
  room_lem :
      (base : Bytes) (busy : SendState) (s : Session p) (a : Flow)
      → Shows base busy s.serial s.effects a
      → a.unanswered ≤ 8
      → budget s.serial ≡ room a
  room_lem base busy s a h few =
      omega (arith, h.unanswered_is, ap length h.queued.sizes_are, length-sizes a.waiting)

  -- `Flush` writes what the flow may write.
  pub flush-Shows :
      (base : Bytes) (busy : SendState) (s : Session p) (a : Flow)
      → Shows base busy s.serial s.effects a
      → a.unanswered ≤ 8
      → (s' : Session p) × (flush s ≡ some s')
        × Shows base busy s'.serial s'.effects (send_out a)
        × (kept s'.serial ≡ kept s.serial)
  flush-Shows base busy s a h few =
      let f = flush-Flushes s h.sent a.waiting h.queued (omega (arith, h.unanswered_is)) in
      let e = room_lem base busy s a h few in
      let grown = f.outstanding in
      let q = f.queued in
      let w = f.wrote in
      (
        f.after,
        f.ends,
        record {
          sent = h.sent ++ concat (take (room a) a.waiting);
          queued = rw e at q;
          unanswered_is = omega (arith, h.unanswered_is, grown, e);
          written_is =
              ap port_bytes (rw e at w)
              ∙ port_bytes-append s.effects (writes (concat (take (room a) a.waiting)))
              ∙ ap (λ t. port_bytes s.effects ++ t)
                  (port_bytes-writes p (concat (take (room a) a.waiting)))
              ∙ ap (λ t. t ++ concat (take (room a) a.waiting)) h.written_is
              ∙ append_assoc base (concat a.out) (concat (take (room a) a.waiting))
              ∙ ap (λ t. base ++ t) (sym (concat-append a.out (take (room a) a.waiting)));
          state_is = f.same_state ∙ h.state_is;
          callbacks_are = f.same_callbacks ∙ h.callbacks_are;
          last_length = h.last_length;
          between_packets = f.same_machine ∙ h.between_packets;
        },
        cc (f.same_address, f.same_interface, f.same_reports),
      )

  same_end :
      (base : Bytes) (busy : SendState) (s : Session p) (a : Flow)
      → Shows base busy s.serial s.effects a
      → 1 ≤ a.unanswered
      → a.unanswered ≤ 8
      → is_answered (counted s).serial ≡ (take_answer a).is_over
  same_end base busy s a h lo hi =
      let less : sub_u8 s.serial.outstanding_messages 1 ≡ a.unanswered - 1 =
        omega (arith, h.unanswered_is) in
      let sizes = h.queued.sizes_are in rw (less, sizes, nothing_waits) refl

  -- `CheckForStateAdvance` takes an answer.
  advance-Shows :
      (base : Bytes) (busy : SendState) (f : Bool → Bool → Action p) (s : Session p) (a : Flow)
      → Shows base busy s.serial s.effects a
      → a.is_over ≡ false
      → 1 ≤ a.unanswered
      → a.unanswered ≤ 8
      → is_reported s.serial ≡ false
      → (s' : Session p) × (check_for_state_advance f s ≡ some s')
        × Shows base busy s'.serial s'.effects (take_answer a)
        × (kept s'.serial ≡ kept s.serial)
  unfolding check_for_state_advance advance_to_commands advance_to_ready
  advance-Shows base busy f s a h still lo hi unreported =
      let less : sub_u8 s.serial.outstanding_messages 1 ≡ a.unanswered - 1 =
        omega (arith, h.unanswered_is) in
      let same = same_end base busy s a h lo hi in
      let queued : IsQueued (counted s).serial h.sent a.waiting = record {
        buffer_is = h.queued.buffer_is;
        sizes_are = h.queued.sizes_are;
        count_is = h.queued.count_is;
        nonempty = h.queued.nonempty;
      } in
      let c = h.callbacks_are in
      elim (Bool-cases (is_answered (counted s).serial)) [
        | inl done ↦ (
          on_serial (λ r. record r { send_state = ready_to_send })
              (emit
                (published_int Topic.transaction_time
                  (sub_u64 (s.moments s.readings).now s.serial.last_loop))
                (record (counted s) { readings = suc s.readings })),
          simp (unreported, done, c) refl,
          record {
            sent = h.sent;
            queued = record {
              buffer_is = queued.buffer_is;
              sizes_are = queued.sizes_are;
              count_is = queued.count_is;
              nonempty = queued.nonempty;
            };
            unanswered_is = less;
            written_is =
                port_bytes-append s.effects _ ∙ append-nil (port_bytes s.effects) ∙ h.written_is;
            state_is = ap (state_of busy) (sym done ∙ same);
            callbacks_are = c;
            last_length = h.last_length;
            between_packets = h.between_packets;
          },
          refl,
        )
        | inr unanswered ↦ (
          counted s,
          simp (unreported, unanswered) refl,
          record {
            sent = h.sent;
            queued = queued;
            unanswered_is = less;
            written_is = h.written_is;
            state_is = h.state_is ∙ ap (state_of busy) (still ∙ sym unanswered ∙ same);
            callbacks_are = c;
            last_length = h.last_length;
            between_packets = h.between_packets;
          },
          refl,
        )
      ]

  -- What the code does once a reply has been handled, on a link that shows a flow with answers to come: it
  -- ends, and the link shows the flow after one answer.
  pub answer-Shows :
      (base : Bytes) (busy : SendState) (f : Bool → Bool → Action p) (s : Session p) (a : Flow)
      → Shows base busy s.serial s.effects a
      → IsOpen a
      → is_reported s.serial ≡ false
      → (s' : Session p) × ((check_for_state_advance f >=> flush) s ≡ some s')
        × Shows base busy s'.serial s'.effects (answer a)
        × (kept s'.serial ≡ kept s.serial)
  answer-Shows base busy f s a h o unreported =
      let (t, e, k, same) =
        advance-Shows base busy f s a h o.not_over o.some_left o.few unreported in
      let (u, e', k', same') = flush-Shows base busy t (take_answer a) k (omega (arith, o.few)) in
      (u, rw e e', k', same' ∙ same)
