-- ===== src/Hub/Served.antt =====
-- expansionhub/main.cpp: `OnUpdate` of a bus whose hub is ready, and the transaction that it starts.
use mathlib.Core.Path.{subst}
use scservices.Prelude.{
  ℕ, zero, suc, ◌+◌, ◌≤◌, ◌≡◌, refl, ap, sym, Bool, true, false, Option, none, some, List, [], ◌++◌,
  Bytes, length, ◌>>=◌, All,
}
use scservices.Receiver.Frames.{Framed, idle}
use scservices.Platform.{Platform}
use scservices.Serial.{Action, ready_to_send, ExpansionHubSerial, Session}
use scservices.Serial.Output.{max_num_outstanding_messages, allow_send}
use scservices.Serial.Handshake.{has_finished_synchronous}
use scservices.Serial.Queue.{concat}
use scservices.Serial.Sending.{IsKnown}
use scservices.Serial.Whole.{IsBuilt}
use scservices.Serial.Flow.Port.{port_bytes}
use scservices.Serial.Flow.Replies.{are_in}
use scservices.Serial.Flow.Reads.{IsReply}
use scservices.Serial.Flow.Stream.{reports_from}
use scservices.Hub.{ExpansionHubState, session, leave, run_on}
use scservices.Receiver.Frames.{bytes_of}
use scservices.Serial.Payload.{do_read}
use scservices.Serial.Flow.Stream.{read_from}
use scservices.Hub.Commands.{send_commands}
use scservices.Hub.Devices.{on_readable, begin_transaction, update_ready, on_update}
use scservices.Hub.Answered.{IsAnswered, begin_transaction-IsAnswered}
use scservices.Hub.Answered.Begun.{no_reports}
use scservices.Hub.Initial.{initial_requests}

module _ {p : Platform} where
  -- `n` replies that the event loop reads from the port of a bus, from one on.
  abbrev pub reads : (ℕ → Framed) → ℕ → ℕ → ExpansionHubState p → Option (ExpansionHubState p)
  reads replies zero i h = some h
  reads replies (suc n) i h =
      on_readable (some (bytes_of (replies i))) h >>= reads replies n (suc i)

  pub reads-read_from :
      (replies : ℕ → Framed) (n i : ℕ) (h : ExpansionHubState p) (s s' : Session p)
      → read_from send_commands replies n i s ≡ some s'
      → reads replies n i (leave h (some s.serial) s) ≡ some (leave h (some s'.serial) s')
  unfolding on_readable
  reads-read_from replies zero i h s s' e = ap left_by e
    where
      left_by : Option (Session p) → Option (ExpansionHubState p)
      left_by none = none
      left_by (some t) = some (leave h (some t.serial) t)
  reads-read_from replies (suc n) i h s s' e =
      go (do_read send_commands (some (bytes_of (replies i))) s)
        (λ t. reads-read_from replies n (suc i) h t s') e
    where
      go :
          (m : Option (Session p))
          → ((t : Session p)
              → read_from send_commands replies n (suc i) t ≡ some s'
              → reads replies n (suc i) (leave h (some t.serial) t)
                ≡ some (leave h (some s'.serial) s'))
          → (m >>= read_from send_commands replies n (suc i)) ≡ some s'
          → ((m >>= λ t. some (leave h (some t.serial) t)) >>= reads replies n (suc i))
            ≡ some (leave h (some s'.serial) s')
      go none later k = absurd (cc k)
      go (some t) later k = later t k

  -- The bus at the start of a new transaction, and the link of it that is recovered.
  abbrev pub restarted : ExpansionHubState p → ExpansionHubState p
  restarted h = record h { readings = h.readings + 1; last_loop = (h.moments h.readings).now }

  -- The same of a bus: the update ends and begins the transaction, and so on.
  pub record IsServed (b : Bool) (first : List Bytes) (k : ℕ) (replies : ℕ → Framed)
      (before : Bytes) (m : Option (ExpansionHubState p)) : Type 0 where
    pub updated : ExpansionHubState p
    pub updates : m ≡ some updated
    pub commands : List Bytes
    pub are_built : All (IsBuilt b) (first ++ commands)
    pub after : ExpansionHubState p
    pub all_read : reads replies (k + length (first ++ commands)) 0 updated ≡ some after
    pub link : ExpansionHubSerial
    pub has_link : after.current_hub ≡ some link
    pub is_ready : link.send_state ≡ ready_to_send
    pub none_wait : link.pending_writes ≡ []
    pub none_outstanding : link.outstanding_messages ≡ 0
    pub written_is : port_bytes after.effects ≡ before ++ concat (first ++ commands)

  pub IsAnswered-IsServed :
      (b : Bool) (first : List Bytes) (k : ℕ) (replies : ℕ → Framed) (before : Bytes)
      (h : ExpansionHubState p) (r : ExpansionHubSerial) (f : Action p)
      → IsAnswered b first k replies before (f (session h r))
      → IsServed b first k replies before (run_on h r f)
  IsAnswered-IsServed b first k replies before h r f a = record {
    updated = leave h (some a.begun.serial) a.begun;
    updates = ap (λ m. m >>= λ s. some (leave h (some s.serial) s)) a.begins;
    commands = a.commands;
    are_built = a.are_built;
    after = leave h (some a.after.serial) a.after;
    all_read =
        reads-read_from replies (k + length (first ++ a.commands)) 0 h a.begun a.after a.all_read;
    link = a.after.serial;
    has_link = refl;
    is_ready = a.is_ready;
    none_wait = a.none_wait;
    none_outstanding = a.none_outstanding;
    written_is = a.written_is;
  }

  -- The requests of the transaction that `OnUpdate` begins.
  abbrev pub requests_at : {r : ExpansionHubSerial} → IsKnown r → ExpansionHubState p → List Bytes
  requests_at k h =
      initial_requests k.address k.interface h.nt_store h.moments (suc (h.readings + 1))

  on_update-started :
      (b : Bool) (h : ExpansionHubState p) (r : ExpansionHubSerial)
      → h.current_hub ≡ some r
      → has_finished_synchronous r ≡ true
      → allow_send r ≡ true
      → on_update b h ≡ run_on (restarted h) r (begin_transaction b)
  unfolding on_update update_ready
  on_update-started b h r hub done ready = simp (hub, done, ready) refl

  -- `OnUpdate` on a known link past the handshake that is ready, between packets, with no packet waiting and
  -- at most eight messages outstanding, as after the handshake and after each transaction: it ends without
  -- undefined behaviour, with the results of the `Platform` for the conversions of `double`, and begins a
  -- transaction, whose first requests are the keep alive, the module status,
  -- the encoder resets that are asked for, the battery voltage, the bulk input and the pulse widths other than
  -- 0. If from then on whole replies are read, of which after the first `n` a report is missing and after one
  -- more none is, with no more than those read than there were messages outstanding before and first requests,
  -- then after as many replies as there were messages outstanding before and requests in the transaction,
  -- those of `SendCommands` included, it has ended. The link is ready for the next one, nothing waits and
  -- nothing is outstanding, and exactly the requests have been written to the port, in order: each is a packet
  -- that `SendPacket` builds, and none enables a motor or a servo if the update said disabled.
  pub on_update-answered :
      (b : Bool) (h : ExpansionHubState p) (r : ExpansionHubSerial) (m n : ℕ) (replies : ℕ → Framed)
      (k : IsKnown r)
      → h.current_hub ≡ some r
      → r.has_callbacks ≡ true
      → has_finished_synchronous r ≡ true
      → allow_send r ≡ true
      → r.state_machine ≡ idle m 0
      → r.pending_writes ≡ []
      → r.outstanding_messages ≤ max_num_outstanding_messages
      → ((j : ℕ) → IsReply (replies j))
      → are_in (reports_from replies n 0 no_reports) ≡ false
      → are_in (reports_from replies (suc n) 0 no_reports) ≡ true
      → suc n ≤ r.outstanding_messages + length (requests_at k h)
      → IsServed b
          (requests_at k h)
          r.outstanding_messages
          replies
          (port_bytes h.effects)
          (on_update b h)
  on_update-answered b h r m n replies k hub c done ready between empty few good missing all_in
        enough =
      subst (IsServed b (requests_at k h) r.outstanding_messages replies (port_bytes h.effects))
        (sym (on_update-started b h r hub done ready))
        (IsAnswered-IsServed b (requests_at k h) r.outstanding_messages replies
          (port_bytes h.effects) (restarted h) r (begin_transaction b)
          (begin_transaction-IsAnswered b (session (restarted h) r) m n replies k c between empty
            few good missing all_in enough))
