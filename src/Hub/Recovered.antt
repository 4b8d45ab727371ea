-- ===== src/Hub/Recovered.antt =====
-- expansionhub/main.cpp: a bus whose transaction is stuck, on a hub that answers again.
use mathlib.Core.Path.{subst}
use scservices.Prelude.{
  ℕ, suc, ◌≤◌, ◌≡◌, refl, sym, arith, Bool, true, false, some, length, leb, ltb, sub_u64,
}
use scservices.Receiver.{reset}
use scservices.Receiver.Frames.{Framed}
use scservices.Platform.{Platform}
use scservices.Serial.{ExpansionHubSerial}
use scservices.Serial.Output.{recover, allow_send}
use scservices.Serial.Handshake.{has_finished_synchronous}
use scservices.Serial.Sending.{IsKnown}
use scservices.Serial.Flow.Port.{port_bytes}
use scservices.Serial.Flow.Replies.{are_in}
use scservices.Serial.Flow.Reads.{IsReply}
use scservices.Serial.Flow.Stream.{reports_from}
use scservices.Hub.{ExpansionHubState, session, run_on}
use scservices.Hub.Devices.{begin_transaction, update_ready, on_update}
use scservices.Hub.Answered.{begin_transaction-IsAnswered}
use scservices.Hub.Answered.Begun.{no_reports}
use scservices.Hub.Served.{restarted, IsServed, IsAnswered-IsServed, requests_at}

module _ {p : Platform} where
  on_update-restarted :
      (b : Bool) (h : ExpansionHubState p) (r : ExpansionHubSerial)
      → h.current_hub ≡ some r
      → has_finished_synchronous r ≡ true
      → allow_send r ≡ false
      → 1000000 ≤ sub_u64 (h.moments h.readings).now h.last_loop
      → on_update b h ≡ run_on (restarted h) (recover r) (begin_transaction b)
  unfolding on_update update_ready
  on_update-restarted b h r hub done busy late =
      let soon : ltb (sub_u64 (h.moments h.readings).now h.last_loop) 1000000 ≡ false =
        ground arith in
      let past : leb 1000000 (sub_u64 (h.moments h.readings).now h.last_loop) ≡ true =
        ground arith in
      simp (hub, done, busy, soon, past) refl

  -- `OnUpdate` a second or more after the last transaction was started, on a known link past the handshake on
  -- which that transaction has not ended, whatever has been lost and whatever the counts, the buffers and
  -- the receive machine of the link: it ends without undefined behaviour, with the results of the
  -- `Platform` for the conversions of `double`, and begins a new transaction, whose
  -- first requests are the keep alive, the module status, the encoder resets that are asked for, the battery
  -- voltage, the bulk input and the pulse widths other than 0. If from then on whole replies are read, of which
  -- after the first `n` a report is missing and after one more none is, with no more than those read than there
  -- are first requests, then after as many replies as there are requests in the new transaction, those of
  -- `SendCommands` included, it has ended. The link is ready for the next one, nothing waits and nothing is
  -- outstanding, and exactly the requests have been written to the port, in order: each is a packet that
  -- `SendPacket` builds, and none enables a motor or a servo if the update said disabled.
  pub on_update-over :
      (b : Bool) (h : ExpansionHubState p) (r : ExpansionHubSerial) (n : ℕ) (replies : ℕ → Framed)
      (k : IsKnown r)
      → h.current_hub ≡ some r
      → r.has_callbacks ≡ true
      → has_finished_synchronous r ≡ true
      → allow_send r ≡ false
      → 1000000 ≤ sub_u64 (h.moments h.readings).now h.last_loop
      → ((j : ℕ) → IsReply (replies j))
      → are_in (reports_from replies n 0 no_reports) ≡ false
      → are_in (reports_from replies (suc n) 0 no_reports) ≡ true
      → suc n ≤ length (requests_at k h)
      → IsServed b (requests_at k h) 0 replies (port_bytes h.effects) (on_update b h)
  unfolding recover reset
  on_update-over b h r n replies k hub c done busy late good missing all_in few =
      let known : IsKnown (recover r) = record {
        address = k.address;
        interface = k.interface;
        address_is = k.address_is;
        interface_is = k.interface_is;
      } in
      subst (IsServed b (requests_at k h) 0 replies (port_bytes h.effects))
        (sym (on_update-restarted b h r hub done busy late))
        (IsAnswered-IsServed b (requests_at k h) 0 replies (port_bytes h.effects) (restarted h)
          (recover r) (begin_transaction b)
          (begin_transaction-IsAnswered b (session (restarted h) (recover r))
            r.state_machine.bytes_to_receive n replies known c refl refl (omega arith) good missing
            all_in (omega (arith, few))))
