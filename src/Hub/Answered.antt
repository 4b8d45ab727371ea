-- ===== src/Hub/Answered.antt =====
-- expansionhub/main.cpp: a whole transaction, with `SendInitial` and `SendCommands`, on a hub that answers.
mod Queued
pub mod Begun
use mathlib.Core.Path.{subst}
use scservices.Serial.Queue.Flush.{length-sizes}
use scservices.Prelude.{
  length-append, ℕ, suc, ◌+◌, ◌≤◌, ◌≡◌, refl, ap, sym, ◌∙◌, arith, Bool, true, false, none, some,
  List, [], ◌++◌, Bytes, length, ◌>>=◌, append-nil, Option, All, All-append,
}
use scservices.Receiver.Frames.{Framed, idle}
use scservices.Platform.{Platform}
use scservices.Serial.{ready_to_send, Session, Action, with_address, with_interface}
use scservices.Serial.Output.{max_num_outstanding_messages, start_transaction}
use scservices.Serial.Requests.{send_keep_alive, send_motor_constant_power}
use scservices.Serial.Queue.{concat}
use scservices.Serial.Keeps.{Ends, Runs, allow_length}
use scservices.Serial.Whole.{IsBuilt}
use scservices.Serial.Sending.{IsKnown}
use scservices.Serial.Flow.{Flow, flow, left}
use scservices.Serial.Flow.Replies.{reports_of, are_in}
use scservices.Serial.Flow.Port.{port_bytes}
use scservices.Serial.Flow.Reads.{IsReply}
use scservices.Serial.Flow.Commands.{
  Sends, Sent, IsCommands, send_packet-Sends, flush-Sends, Sends-IsSendable,
}
use scservices.Serial.Flow.Commanded.{flushed-IsOpen}
use scservices.Serial.Flow.Stream.{read_from, reports_from, IsOver, read_from-IsOver}
use scservices.Hub.Commands.{send_initial, send_commands}
use scservices.Hub.Keeps.{send_initial-Runs, send_commands-Runs}
use scservices.Hub.Devices.{begin_transaction}
use scservices.Hub.Answered.Queued.{send_commands-IsCommands}
use scservices.Hub.Answered.Begun.{no_reports, first_requests, IsBegun, begin_transaction-IsBegun}
use scservices.Serial.Flow.{send_out}
use scservices.Serial.Flow.Commands.{send_out-left, send_out-packets, send_out-full}
use scservices.Hub.Initial.{initial_requests}
use scservices.Hub.Initial.Built.{initial_requests-AreBuilt}

module _ {p : Platform} where
  -- The transaction is begun with these requests, and when `k` replies and then as many as there are requests
  -- in it, those of `SendCommands` included, have been read, it has ended.
  pub record IsAnswered (b : Bool) (first : List Bytes) (k : ℕ) (replies : ℕ → Framed)
      (before : Bytes) (m : Option (Session p)) : Type 0 where
    pub begun : Session p
    pub begins : m ≡ some begun
    pub commands : List Bytes
    pub are_built : All (IsBuilt b) (first ++ commands)
    pub after : Session p
    pub all_read :
        read_from send_commands replies (k + length (first ++ commands)) 0 begun ≡ some after
    pub is_ready : after.serial.send_state ≡ ready_to_send
    pub none_wait : after.serial.pending_writes ≡ []
    pub none_outstanding : after.serial.outstanding_messages ≡ 0
    pub written_is : port_bytes after.effects ≡ before ++ concat (first ++ commands)

  IsOver-IsAnswered :
      (b : Bool) (k : ℕ) (replies : ℕ → Framed) (before : Bytes) (m : Option (Session p))
      (begun : Session p) (a : Flow) (first : List Bytes)
      → m ≡ some begun
      → All (IsBuilt b) first
      → a.out ++ a.waiting ≡ first
      → left a ≡ k + length first
      → IsOver send_commands replies b before (a.out ++ a.waiting) (left a) 0 begun
      → IsAnswered b first k replies before m
  IsOver-IsAnswered b k replies before m begun a first begins built same count d = record {
    begun = begun;
    begins = begins;
    commands = d.commands;
    are_built = All-append (IsBuilt b) first d.commands built d.built;
    after = d.after;
    all_read =
        ap (λ n. read_from send_commands replies n 0 begun)
          (omega (arith, count, length-append first d.commands))
        ∙ d.ends;
    is_ready = d.shown.state_is;
    none_wait = d.shown.queued.sizes_are;
    none_outstanding = d.shown.unanswered_is;
    written_is = d.shown.written_is ∙ ap (λ qs. before ++ concat (qs ++ d.commands)) same;
  }

  -- A transaction that is begun on a known link, between packets, with no packet waiting and at most eight
  -- messages outstanding: it begins with the requests of `SendInitial`, and when whole replies are read one after the other, of which after the first `n` a
  -- report is missing and after one more none is, with no more than those read than there were messages outstanding and first requests, then after as many replies as there were messages outstanding before and requests in the
  -- transaction, those of `SendCommands` included, it has ended.
  pub begin_transaction-IsAnswered :
      (b : Bool) (s : Session p) (m n : ℕ) (replies : ℕ → Framed) (k : IsKnown s.serial)
      → s.serial.has_callbacks ≡ true
      → s.serial.state_machine ≡ idle m 0
      → s.serial.pending_writes ≡ []
      → s.serial.outstanding_messages ≤ max_num_outstanding_messages
      → ((j : ℕ) → IsReply (replies j))
      → are_in (reports_from replies n 0 no_reports) ≡ false
      → are_in (reports_from replies (suc n) 0 no_reports) ≡ true
      → suc n ≤ s.serial.outstanding_messages + length (first_requests k s)
      → IsAnswered b
          (first_requests k s)
          s.serial.outstanding_messages
          replies
          (port_bytes s.effects)
          (begin_transaction b s)
  begin_transaction-IsAnswered b s m n replies k c between empty few good missing all_in enough =
      let first = first_requests k s in
      let g = begin_transaction-IsBegun b s m k c between empty few in
      let a = flow first s.serial.outstanding_messages [] false in
      let waits : 1 ≤ left a = omega (arith, enough) in
      let o =
        flushed-IsOpen (send_out a) refl (omega (arith, few))
          (omega (arith, waits, send_out-left a)) (send_out-full a few) in
      let none_in = g.none_reported in
      let d =
        read_from-IsOver send_commands replies n 0 b (port_bytes s.effects) g.begun (send_out a)
          g.same_can_enable (send_commands-IsCommands p) good g.shown o g.known (rw none_in missing)
          (rw none_in all_in) (omega (arith, enough, send_out-left a)) in
      IsOver-IsAnswered b s.serial.outstanding_messages replies (port_bytes s.effects)
        (begin_transaction b s) g.begun (send_out a) first g.begins
        (initial_requests-AreBuilt b k.address k.interface s.store s.moments (suc s.readings))
        (send_out-packets a) (omega (arith, send_out-left a)) d
