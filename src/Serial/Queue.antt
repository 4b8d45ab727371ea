-- ===== src/Serial/Queue.antt =====
-- expansionhub/ExpansionHubSerial.cpp: `writeBuffer`, `pendingWrites` and `currentCount` as a queue of whole
-- packets, behind the bytes that are written already.
pub mod Flush
use scservices.Prelude.{
  ℕ, zero, suc, ◌+◌, ◌%◌, ◌≤◌, ◌<◌, min, ◌≡◌, ◌≢◌, ◌⊎◌, inl, inr, refl, ap, sym, ◌∙◌, arith, false,
  some, List, [], ◌∷◌, ◌++◌, map, Bytes, length, take, drop, All, All-append, append_assoc,
  append-nil, length-append, take-append, drop-append, ◌==◌, leb, add_u8, sub_u64, Bool-cases,
}
use scservices.Packet.{build_packet}
use scservices.Packet.RoundTrip.{length-build_packet}
use scservices.Platform.{Platform}
use scservices.Serial.{ExpansionHubSerial, Session, Effect, written}
use scservices.Serial.Output.{max_num_outstanding_messages, sum_of_first, send_packet, flush}

abbrev pub concat : List Bytes → Bytes
concat [] = []
concat (q ∷ qs) = q ++ concat qs

-- The packets that are still to be written, oldest first, and what is written of this transaction.
pub record IsQueued (r : ExpansionHubSerial) (sent : Bytes) (queue : List Bytes) : Type 0 where
  pub buffer_is : r.write_buffer ≡ sent ++ concat queue
  pub sizes_are : r.pending_writes ≡ map length queue
  pub count_is : r.current_count ≡ length sent
  pub nonempty : All (λ q. 0 < length q) queue

pub concat-append : (xs ys : List Bytes) → concat (xs ++ ys) ≡ concat xs ++ concat ys
concat-append [] ys = refl
concat-append (x ∷ xs) ys =
    ap (λ t. x ++ t) (concat-append xs ys) ∙ sym (append_assoc x (concat xs) (concat ys))

pub sizes-append : (xs ys : List Bytes) → map length (xs ++ ys) ≡ map length xs ++ map length ys
sizes-append [] ys = refl
sizes-append (x ∷ xs) ys = ap (◌∷◌ (length x)) (sizes-append xs ys)

abbrev pub enqueue : ExpansionHubSerial → Bytes → ExpansionHubSerial
enqueue r packet = record r {
  write_buffer = r.write_buffer ++ packet;
  pending_writes = r.pending_writes ++ length packet ∷ [];
}

pub enqueue-IsQueued :
    (r : ExpansionHubSerial) (packet sent : Bytes) (queue : List Bytes)
    → 0 < length packet
    → IsQueued r sent queue
    → IsQueued (enqueue r packet) sent (queue ++ packet ∷ [])
enqueue-IsQueued r packet sent queue h q = record {
  buffer_is = rw q.buffer_is (simp (concat-append, append_assoc, append-nil));
  sizes_are = rw (q.sizes_are, sizes-append);
  count_is = q.count_is;
  nonempty = All-append _ queue (packet ∷ []) q.nonempty (h, tt);
}

module _ {p : Platform} where
  pub send_packet-enqueue :
      (s : Session p) (dest message id : ℕ) (pay : Bytes)
      → length pay < 1013
      → send_packet dest message id pay false s
        ≡ some (record s { serial = enqueue s.serial (build_packet dest message id pay) })
  unfolding send_packet
  send_packet-enqueue s dest message id pay h = ground arith

  -- `SendPacket` puts one packet behind the queue, and does not write.
  pub send_packet-IsQueued :
      (s : Session p) (dest message id : ℕ) (pay sent : Bytes) (queue : List Bytes)
      → length pay < 1013
      → IsQueued s.serial sent queue
      → (s' : Session p) × (send_packet dest message id pay false s ≡ some s')
        × IsQueued s'.serial sent (queue ++ build_packet dest message id pay ∷ [])
        × (s'.effects ≡ s.effects)
  send_packet-IsQueued s dest message id pay sent queue h q =
      let packet = build_packet dest message id pay in
      (
        record s { serial = enqueue s.serial packet },
        send_packet-enqueue s dest message id pay h,
        enqueue-IsQueued s.serial packet sent queue
            (omega (arith, length-build_packet dest message id pay)) q,
        refl,
      )
