-- ===== src/Hub/Recovery.antt =====
-- expansionhub/main.cpp: `OnUpdate` while a transaction has not ended.
use scservices.Prelude.{
  ℕ, ◌+◌, ◌<◌, ◌≤◌, ◌≡◌, refl, arith, Bool, true, false, inr, Option, none, some, [], ◌∷◌, ◌++◌,
  Bytes, add_u64, ltb, leb, sub_u64, length, ◌>>=◌,
}
use scservices.Platform.{Platform}
use scservices.Serial.{Topic, published_int, waiting_for_packets, ExpansionHubSerial, Session}
use scservices.Serial.Output.{
  recover, allow_send, start_transaction, flush, send_packet, max_num_outstanding_messages,
}
use scservices.Serial.Handshake.{has_finished_synchronous}
use scservices.Serial.Queue.{send_packet-enqueue}
use scservices.Serial.Queue.Flush.{flush-Flushes}
use scservices.Serial.Keeps.{Ends, Keeps, IsSendable}
use scservices.Serial.Sending.{IsKnown, IsSending, sending}
use scservices.Hub.{ExpansionHubState, session, leave}
use scservices.Hub.Keeps.{send_initial-Keeps}
use scservices.Hub.Devices.{begin_transaction, update_ready, on_update}
use scservices.Hub.Transaction.{start_transaction-IsSending}

-- In a transaction, with no more messages outstanding than the limit.
pub record IsLimited (r : ExpansionHubSerial) : Type 0 where
  pub is_sending : IsSending ⊥ true waiting_for_packets r
  pub limited : r.outstanding_messages ≤ max_num_outstanding_messages

ltb_lt : (m n : ℕ) → m < n → ltb m n ≡ true
ltb_lt m n h = ground arith

module _ (p : Platform) where
  flush-IsLimited : Keeps p ⊥ (λ r es. IsLimited r) flush
  flush-IsLimited s h =
      let q = h.is_sending.has_queue in
      let f = flush-Flushes s q.sent q.queue q.in_order q.byte_sized in
      let grown = f.outstanding in
      let small = h.limited in
      let kept = (sending p ⊥ true waiting_for_packets).flush_keeps s h.is_sending in
      rw f.ends (record { is_sending = rw f.ends at kept; limited = omega (arith, grown, small) })

  send_packet-IsLimited :
      (dest message id : ℕ) (pay : Bytes)
      → length pay < 1013
      → Keeps p ⊥ (λ r es. IsLimited r) (send_packet dest message id pay false)
  send_packet-IsLimited dest message id pay n s h =
      let kept =
        (sending p ⊥ true waiting_for_packets).send_keeps dest message id pay n
          (λ off. absurd (cc off)) s h.is_sending in
      let e = send_packet-enqueue s dest message id pay n in
      rw e (record { is_sending = rw e at kept; limited = h.limited })

  IsLimited-sending : IsSendable p ⊥ (λ r es. IsLimited r) true
  IsLimited-sending = record {
    has_address = λ r es h. (sending p ⊥ true waiting_for_packets).has_address r es h.is_sending;
    has_interface =
        λ r es h. (sending p ⊥ true waiting_for_packets).has_interface r es h.is_sending;
    send_keeps = λ dest message id pay n _. send_packet-IsLimited dest message id pay n;
    flush_keeps = flush-IsLimited;
  }

  begin_transaction-IsLimited :
      (b : Bool) (s : Session p)
      → s.serial.pending_writes ≡ []
      → s.serial.outstanding_messages ≤ max_num_outstanding_messages
      → IsKnown s.serial
      → Ends p ⊥ (λ r es. IsLimited r) (begin_transaction b s)
  unfolding begin_transaction start_transaction
  begin_transaction-IsLimited b s empty small k =
      send_initial-Keeps p ⊥ (λ r es. IsLimited r) true IsLimited-sending _
        (record {
          is_sending =
              start_transaction-IsSending p true ⊥ b s (λ on. refl) empty (omega (arith, small))
                (inr k);
          limited = small;
        })

  -- `OnUpdate` a second or more after the last transaction was started, on a known link past the handshake on which
  -- that transaction has not ended: whatever has been lost, and whatever the counts and buffers of the
  -- link, it starts a new transaction, with a queue of whole packets and no more messages outstanding than
  -- the limit, and notes its time.
  pub on_update-IsLimited :
      (b : Bool) (h : ExpansionHubState p) (r : ExpansionHubSerial)
      → h.current_hub ≡ some r
      → IsKnown r
      → has_finished_synchronous r ≡ true
      → allow_send r ≡ false
      → 1000000 ≤ sub_u64 (h.moments h.readings).now h.last_loop
      → (h' : ExpansionHubState p) × (r' : ExpansionHubSerial) × (on_update b h ≡ some h')
        × (h'.current_hub ≡ some r')
        × IsLimited r'
        × (h'.last_loop ≡ (h.moments h.readings).now)
  unfolding on_update update_ready recover
  on_update-IsLimited b h r hub k done busy late =
      go (begin_transaction b start) (begin_transaction-IsLimited b start refl (omega arith) known)
        (simp (hub, done, busy, soon, past) refl)
    where
      now : ℕ
      now = (h.moments h.readings).now

      after : ExpansionHubState p
      after = record h { readings = h.readings + 1; last_loop = now }

      start : Session p
      start = session after (recover r)

      known : IsKnown (recover r)
      known = record {
        address = k.address;
        interface = k.interface;
        address_is = k.address_is;
        interface_is = k.interface_is;
      }

      soon : ltb (sub_u64 now h.last_loop) 1000000 ≡ false
      soon = ground arith

      past : leb 1000000 (sub_u64 now h.last_loop) ≡ true
      past = ground arith

      go :
          (m : Option (Session p))
          → Ends p ⊥ (λ r es. IsLimited r) m
          → on_update b h ≡ (m >>= λ s. some (leave after (some s.serial) s))
          → (h' : ExpansionHubState p) × (r' : ExpansionHubSerial) × (on_update b h ≡ some h')
            × (h'.current_hub ≡ some r')
            × IsLimited r'
            × (h'.last_loop ≡ now)
      go none e same = absurd e
      go (some s) e same = (leave after (some s.serial) s, s.serial, same, refl, e, refl)

  -- `OnUpdate` less than a second after the last transaction was started, on a link past the handshake on
  -- which that transaction has not ended: the link and the time are left as they are, nothing is written,
  -- and one more missed loop is counted and published.
  pub on_update-missed :
      (b : Bool) (h : ExpansionHubState p) (r : ExpansionHubSerial)
      → h.current_hub ≡ some r
      → has_finished_synchronous r ≡ true
      → allow_send r ≡ false
      → sub_u64 (h.moments h.readings).now h.last_loop < 1000000
      → (h' : ExpansionHubState p) × (on_update b h ≡ some h')
        × (h'.current_hub ≡ some r)
        × (h'.last_loop ≡ h.last_loop)
        × (h'.nt_store.num_missed_send_loops ≡ add_u64 h.nt_store.num_missed_send_loops 1)
        × (h'.effects
            ≡ h.effects
              ++ published_int Topic.num_missed_send_loops
                  (add_u64 h.nt_store.num_missed_send_loops 1)
                ∷ [])
  unfolding on_update update_ready
  on_update-missed b h r hub done busy early =
      let soon : ltb (sub_u64 (h.moments h.readings).now h.last_loop) 1000000 ≡ true =
        ltb_lt _ 1000000 early in
      let n = add_u64 h.nt_store.num_missed_send_loops 1 in
      (
        record h {
          current_hub = some r;
          readings = h.readings + 1;
          nt_store = record (h.nt_store) { num_missed_send_loops = n };
          effects = h.effects ++ published_int Topic.num_missed_send_loops n ∷ [];
        },
        simp (hub, done, busy, soon) refl,
        refl,
        refl,
        refl,
        refl,
      )
