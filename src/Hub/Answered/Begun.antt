-- ===== src/Hub/Answered/Begun.antt =====
-- expansionhub/main.cpp: a transaction that has just been begun.
use scservices.Prelude.{
  ap, ◌∙◌, All, ℕ, suc, ◌≤◌, ◌≡◌, refl, sym, Bool, true, false, some, List, [], Bytes, append-nil,
}
use scservices.Receiver.Frames.{idle}
use scservices.Platform.{Platform}
use scservices.Serial.{Session}
use scservices.Serial.Output.{max_num_outstanding_messages, start_transaction}
use scservices.Serial.Sending.{IsKnown}
use scservices.Serial.Flow.{flow}
use scservices.Serial.Flow.Port.{port_bytes}
use scservices.Serial.{Effect, ExpansionHubSerial, waiting_for_packets}
use scservices.Serial.Whole.{IsBuilt}
use scservices.Serial.Flow.{send_out}
use scservices.Serial.Flow.Replies.{Reports, reports_of}
use scservices.Serial.Flow.Refines.{Shows, flush-Shows}
use scservices.Hub.Initial.{initial_requests}
use scservices.Hub.Initial.Queues.{queue_all, queue_all-IsQueued}
use scservices.Hub.Initial.Built.{initial_requests-AreBuilt, AreBuilt-nonempty}
use scservices.Hub.Initial.Sent.{send_initial-Leads}
use scservices.Hub.Devices.{begin_transaction}

-- No report is in.
abbrev pub no_reports : Reports
no_reports = (false, false, false)

module _ {p : Platform} where
  -- The requests of a transaction that is begun on a known link.
  abbrev pub first_requests : {r : ExpansionHubSerial} → IsKnown r → Session p → List Bytes
  first_requests k s = initial_requests k.address k.interface s.store s.moments (suc s.readings)

  -- The link that `StartTransaction` leaves.
  abbrev started : Bool → Session p → ExpansionHubSerial
  started b s = record (s.serial) {
    write_buffer = [];
    current_count = 0;
    last_loop = (s.moments s.readings).now;
    can_enable = b;
    have_battery = false;
    have_bulk = false;
    have_module_status = false;
    send_state = waiting_for_packets;
  }

  -- They have been queued and flushed, and no report is in.
  pub record IsBegun (b : Bool) (s : Session p) (requests : List Bytes) : Type 0 where
    pub begun : Session p
    pub begins : begin_transaction b s ≡ some begun
    pub shown :
        Shows
          (port_bytes s.effects)
          waiting_for_packets
          begun.serial
          begun.effects
          (send_out (flow requests s.serial.outstanding_messages [] false))
    pub known : IsKnown begun.serial
    pub same_can_enable : begun.serial.can_enable ≡ b
    pub none_reported : reports_of begun.serial ≡ no_reports

  -- The link at the start of a transaction, with its requests queued.
  started-Shows :
      (b : Bool) (s : Session p) (n : ℕ) (requests : List Bytes) (r : ExpansionHubSerial)
      (es : List (Effect p))
      → All (IsBuilt b) requests
      → s.serial.has_callbacks ≡ true
      → s.serial.state_machine ≡ idle n 0
      → s.serial.pending_writes ≡ []
      → r ≡ queue_all requests (started b s)
      → es ≡ s.effects
      → Shows
          (port_bytes s.effects)
          waiting_for_packets
          r
          es
          (flow requests s.serial.outstanding_messages [] false)
  started-Shows b s n requests r es built c between empty same quiet = record {
    sent = [];
    queued = rw same (
        queue_all-IsQueued requests (started b s) [] [] (AreBuilt-nonempty b requests built)
          (record { buffer_is = refl; sizes_are = empty; count_is = refl; nonempty = tt }));
    unanswered_is = ap (λ x. x.outstanding_messages) same;
    written_is = ap port_bytes quiet ∙ sym (append-nil (port_bytes s.effects));
    state_is = ap (λ x. x.send_state) same;
    callbacks_are = ap (λ x. x.has_callbacks) same ∙ c;
    last_length = n;
    between_packets = ap (λ x. x.state_machine) same ∙ between;
  }

  pub begin_transaction-IsBegun :
      (b : Bool) (s : Session p) (n : ℕ) (k : IsKnown s.serial)
      → s.serial.has_callbacks ≡ true
      → s.serial.state_machine ≡ idle n 0
      → s.serial.pending_writes ≡ []
      → s.serial.outstanding_messages ≤ max_num_outstanding_messages
      → IsBegun b s (first_requests k s)
  unfolding begin_transaction start_transaction
  begin_transaction-IsBegun b s n k c between empty few =
      let requests = first_requests k s in
      let s1 = record s { serial = started b s; readings = suc s.readings } in
      let (_, q) = send_initial-Leads k.address k.interface s1 k.address_is k.interface_is in
      let shown =
        started-Shows b s n requests q.after.serial q.after.effects
          (initial_requests-AreBuilt b k.address k.interface s.store s.moments (suc s.readings)) c
          between empty q.serial_is q.effects_are in
      let (t, e, shown', same) =
        flush-Shows (port_bytes s.effects) waiting_for_packets q.after _ shown few in
      record {
        begun = t;
        begins = q.ends ∙ e;
        shown = shown';
        known = record {
          address = k.address;
          interface = k.interface;
          address_is = ap (λ x. x.0) same ∙ ap (λ x. x.address) q.serial_is ∙ k.address_is;
          interface_is =
              ap (λ x. x.1) same ∙ ap (λ x. x.packet_interface_id) q.serial_is ∙ k.interface_is;
        };
        same_can_enable = ap (λ x. x.3) same ∙ ap (λ x. x.can_enable) q.serial_is;
        none_reported = ap (λ x. x.2) same ∙ ap reports_of q.serial_is;
      }
