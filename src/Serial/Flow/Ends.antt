-- ===== src/Serial/Flow/Ends.antt =====
-- expansionhub/ExpansionHubSerial.cpp: the replies that end a transaction.
use scservices.Prelude.{
  ℕ, ◌+◌, ◌≤◌, ◌≡◌, refl, sym, arith, Bool, true, false, ◌⊎◌, inl, inr, some, List, [], ◌∷◌, ◌++◌,
  Bytes, length, All, append-nil,
}
use scservices.Receiver.Frames.{Framed, bytes_of, idle}
use scservices.Platform.{Platform}
use scservices.Serial.{Session, Action, skip, ready_to_send, waiting_for_finish, ◌>=>◌}
use scservices.Serial.Payload.{do_read}
use scservices.Serial.Queue.{concat, IsQueued}
use scservices.Serial.Flow.{
  Flow, flow, IsOpen, left, answer, answers, answer-Answered, answers-over,
}
use scservices.Serial.Flow.Port.{port_bytes}
use scservices.Serial.Flow.Refines.{Shows}
use scservices.Serial.Flow.Reads.{IsReply, do_read-Shows}

module _ {p : Platform} (f : Bool → Bool → Action p) where
  -- Replies that are read one after the other.
  abbrev pub read_all : List Framed → Action p
  read_all [] = skip
  read_all (r ∷ rs) = do_read f (some (bytes_of r)) >=> read_all rs

  read_all-Shows :
      (base : Bytes) (rs : List Framed) (s : Session p) (a : Flow)
      → All IsReply rs
      → Shows base waiting_for_finish s.serial s.effects a
      → IsOpen a
      → length rs ≤ left a
      → (s' : Session p) × (read_all rs s ≡ some s')
        × Shows base waiting_for_finish s'.serial s'.effects (answers (length rs) a)
  read_all-Shows base [] s a i h o few = (s, refl, h)
  read_all-Shows base (r ∷ []) s a (i, is) h o few =
      let (t, e, k) = do_read-Shows f base r s a i h o in (t, rw e refl, k)
  read_all-Shows base (r ∷ x ∷ rs) s a (i, is) h o few =
      let (t, e, k) = do_read-Shows f base r s a i h o in
      elim (answer-Answered a o) [
        | inl (one, eq) ↦ absurd (omega (arith, one, few))
        | inr (still, less, same) ↦
            (let (u, e', k') =
                read_all-Shows base (x ∷ rs) t (answer a) is k still (omega (arith, less, few)) in
              (u, rw e e', k'))
      ]

  -- On a link that waits for the end of a transaction, with packets in its queue and between one and
  -- eight messages outstanding, eight unless the queue is empty: when as many replies are read as
  -- packets wait and messages are outstanding, the transaction ends, with nothing waiting and nothing
  -- outstanding, and exactly the queue has been written to the port, in order.
  pub read_all-over :
      (s : Session p) (sent : Bytes) (queue : List Bytes) (rs : List Framed) (n : ℕ)
      → IsQueued s.serial sent queue
      → s.serial.send_state ≡ waiting_for_finish
      → s.serial.has_callbacks ≡ true
      → s.serial.state_machine ≡ idle n 0
      → 1 ≤ s.serial.outstanding_messages
      → s.serial.outstanding_messages ≤ 8
      → (queue ≡ []) ⊎ (s.serial.outstanding_messages ≡ 8)
      → All IsReply rs
      → length rs ≡ length queue + s.serial.outstanding_messages
      → (s' : Session p) × (read_all rs s ≡ some s')
        × (s'.serial.send_state ≡ ready_to_send)
        × (s'.serial.pending_writes ≡ [])
        × (s'.serial.outstanding_messages ≡ 0)
        × (port_bytes s'.effects ≡ port_bytes s.effects ++ concat queue)
  read_all-over s sent queue rs n q st c idle_is lo hi full replies enough =
      let a = flow queue s.serial.outstanding_messages [] false in
      let o : IsOpen a = record { not_over = refl; some_left = lo; few = hi; full = full } in
      let start : Shows (port_bytes s.effects) waiting_for_finish s.serial s.effects a = record {
        sent = sent;
        queued = q;
        unanswered_is = refl;
        written_is = sym (append-nil (port_bytes s.effects));
        state_is = st;
        callbacks_are = c;
        last_length = n;
        between_packets = idle_is;
      } in
      let (t, e, k) =
        read_all-Shows (port_bytes s.effects) rs s a replies start o (omega (arith, enough)) in
      let over : answers (length rs) a ≡ flow [] 0 queue true = all_answers rs a o enough lo in
      let k' : Shows (port_bytes s.effects) waiting_for_finish t.serial t.effects
          (flow [] 0 queue true) =
        rw over at k in
      (t, e, k'.state_is, k'.queued.sizes_are, k'.unanswered_is, k'.written_is)
    where
      all_answers :
          (rs : List Framed) (a : Flow)
          → IsOpen a
          → length rs ≡ left a
          → 1 ≤ a.unanswered
          → answers (length rs) a ≡ flow [] 0 (a.out ++ a.waiting) true
      all_answers [] a o enough lo = absurd (omega (arith, enough, lo))
      all_answers (r ∷ rs) a o enough lo = answers-over (length rs) a o (sym enough)
