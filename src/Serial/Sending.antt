-- ===== src/Serial/Sending.antt =====
-- expansionhub/ExpansionHubSerial.cpp: the state of a link within a transaction, and the invariant that every
-- event keeps.
use mathlib.Core.Path.{subst}
use scservices.Prelude.{
  Bool, true, ◌⊎◌, inl, inr, sym, ℕ, ◌<◌, ◌≡◌, ◌≢◌, refl, ◌∙◌, arith, false, none, some, List, [],
  ◌∷◌, ◌++◌, Bytes, length, take, All, All-append,
}
use scservices.Packet.{build_packet}
use scservices.Packet.RoundTrip.{length-build_packet}
use scservices.Platform.{Platform}
use scservices.Serial.{SendState, ready_to_send, ExpansionHubSerial, new_serial, Effect, Session}
use scservices.Serial.Output.{send_packet, flush}
use scservices.Serial.Queue.{concat, IsQueued, enqueue, send_packet-enqueue, enqueue-IsQueued}
use scservices.Serial.Queue.Flush.{flush-Flushes, budget, writes}
use scservices.Serial.Whole.{
  IsBuilt, AreSafe, build_packet-IsBuilt, All-IsBuilt-drop, taken-AreSafe,
}
use scservices.Serial.Keeps.{Keeps, IsSendable, IsAllowed}

-- The queue is in order, with some packets written and some not.
pub record HasQueue (can_enable : Bool) (r : ExpansionHubSerial) : Type 0 where
  pub sent : Bytes
  pub queue : List Bytes
  pub in_order : IsQueued r sent queue
  pub byte_sized : r.outstanding_messages < 256
  pub may_enable : r.can_enable ≡ true → can_enable ≡ true
  pub built : All (IsBuilt can_enable) queue

-- The hub has told its address and its interface.
pub record IsKnown (r : ExpansionHubSerial) : Type 0 where
  pub address : ℕ
  pub interface : ℕ
  pub address_is : r.address ≡ some address
  pub interface_is : r.packet_interface_id ≡ some interface

-- Within a transaction, in a given state of it; the hub is known, or `F` allows for its not being so.
pub record IsSending (F : Type 0) (can_enable : Bool) (state : SendState) (r : ExpansionHubSerial)
    : Type 0 where
  pub known : F ⊎ IsKnown r
  pub has_queue : HasQueue can_enable r
  pub state_is : r.send_state ≡ state

-- And all that was written to the port is whole.
pub record IsWriting {p : Platform} (F : Type 0) (can_enable : Bool) (state : SendState)
    (r : ExpansionHubSerial) (es : List (Effect p)) : Type 0 where
  pub is_sending : IsSending F can_enable state r
  pub safe : AreSafe can_enable es

known_address : {F : Type 0} (r : ExpansionHubSerial) → F ⊎ IsKnown r → r.address ≡ none → F
known_address r (inl f) e = f
known_address r (inr k) e = absurd (cc (sym k.address_is ∙ e))

known_interface :
    {F : Type 0} (r : ExpansionHubSerial) → F ⊎ IsKnown r → r.packet_interface_id ≡ none → F
known_interface r (inl f) e = f
known_interface r (inr k) e = absurd (cc (sym k.interface_is ∙ e))

still-IsKnown :
    {F : Type 0} (r r' : ExpansionHubSerial)
    → r'.address ≡ r.address
    → r'.packet_interface_id ≡ r.packet_interface_id
    → F ⊎ IsKnown r
    → F ⊎ IsKnown r'
still-IsKnown r r' a i (inl f) = inl f
still-IsKnown r r' a i (inr k) = inr (record {
  address = k.address;
  interface = k.interface;
  address_is = a ∙ k.address_is;
  interface_is = i ∙ k.interface_is;
})

module _ {p : Platform} where
  pub flushed-AreSafe :
      (can_enable : Bool) (s t : Session p) (queue : List Bytes)
      → t.effects ≡ s.effects ++ writes (concat (take (budget s.serial) queue))
      → All (IsBuilt can_enable) queue
      → AreSafe can_enable s.effects
      → AreSafe can_enable t.effects
  flushed-AreSafe can_enable s t queue wrote built h =
      subst (AreSafe can_enable) (sym wrote)
        (taken-AreSafe can_enable (budget s.serial) queue s.effects built h)

module _ (p : Platform) (F : Type 0) (can_enable : Bool) (state : SendState) where
  flush-IsSending : Keeps p F (λ r es. IsSending F can_enable state r) flush
  flush-IsSending s h =
      let f =
        flush-Flushes s h.has_queue.sent h.has_queue.queue h.has_queue.in_order
          h.has_queue.byte_sized in
      rw f.ends (record {
        known = still-IsKnown s.serial f.after.serial f.same_address f.same_interface h.known;
        has_queue = record {
          sent = _;
          queue = _;
          in_order = f.queued;
          byte_sized = omega (arith, f.outstanding);
          may_enable = λ on. h.has_queue.may_enable (sym f.same_can_enable ∙ on);
          built = All-IsBuilt-drop can_enable (budget s.serial) h.has_queue.queue h.has_queue.built;
        };
        state_is = f.same_state ∙ h.state_is;
      })

  send_packet-IsSending :
      (dest message id : ℕ) (pay : Bytes)
      → length pay < 1013
      → IsAllowed can_enable pay
      → Keeps p F (λ r es. IsSending F can_enable state r) (send_packet dest message id pay false)
  send_packet-IsSending dest message id pay n allowed s h =
      let packet = build_packet dest message id pay in
      let q = h.has_queue in
      rw (send_packet-enqueue s dest message id pay n) (record {
        known = still-IsKnown s.serial (enqueue s.serial packet) refl refl h.known;
        has_queue = record {
          sent = q.sent;
          queue = q.queue ++ packet ∷ [];
          in_order =
              enqueue-IsQueued s.serial packet q.sent q.queue
                (omega (arith, length-build_packet dest message id pay)) q.in_order;
          byte_sized = q.byte_sized;
          may_enable = q.may_enable;
          built =
              All-append (IsBuilt can_enable) q.queue (packet ∷ []) q.built
                (build_packet-IsBuilt dest message id pay n allowed, tt);
        };
        state_is = h.state_is;
      })

  pub sending : IsSendable p F (λ r es. IsSending F can_enable state r) can_enable
  sending = record {
    has_address = λ r es h. known_address r h.known;
    has_interface = λ r es h. known_interface r h.known;
    send_keeps = send_packet-IsSending;
    flush_keeps = flush-IsSending;
  }

  flush-IsWriting : Keeps p F (IsWriting F can_enable state) flush
  flush-IsWriting s h =
      let q = h.is_sending.has_queue in
      let f = flush-Flushes s q.sent q.queue q.in_order q.byte_sized in
      let kept = flush-IsSending s h.is_sending in
      rw f.ends (record {
        is_sending = rw f.ends at kept;
        safe = flushed-AreSafe can_enable s f.after q.queue f.wrote q.built h.safe;
      })

  send_packet-IsWriting :
      (dest message id : ℕ) (pay : Bytes)
      → length pay < 1013
      → IsAllowed can_enable pay
      → Keeps p F (IsWriting F can_enable state) (send_packet dest message id pay false)
  send_packet-IsWriting dest message id pay n allowed s h =
      let kept = send_packet-IsSending dest message id pay n allowed s h.is_sending in
      let e = send_packet-enqueue s dest message id pay n in
      rw e (record { is_sending = rw e at kept; safe = h.safe })

  pub writing : IsSendable p F (IsWriting F can_enable state) can_enable
  writing = record {
    has_address = λ r es h. known_address r h.is_sending.known;
    has_interface = λ r es h. known_interface r h.is_sending.known;
    send_keeps = send_packet-IsWriting;
    flush_keeps = flush-IsWriting;
  }

-- What every event on a link keeps: the bytes, sizes and count are those of a queue of whole packets,
-- between transactions no packet waits, and all that was written to the port is whole.
pub record IsLink {p : Platform} (can_enable : Bool) (r : ExpansionHubSerial) (es : List (Effect p))
    : Type 0 where
  pub has_queue : HasQueue can_enable r
  pub no_leftover : (r.send_state ≢ ready_to_send) ⊎ (r.pending_writes ≡ [])
  pub safe : AreSafe can_enable es

pub no_leftover_after :
    (r r' : ExpansionHubSerial)
    → r'.send_state ≡ r.send_state
    → (r.pending_writes ≡ [] → r'.pending_writes ≡ [])
    → (r.send_state ≢ ready_to_send) ⊎ (r.pending_writes ≡ [])
    → (r'.send_state ≢ ready_to_send) ⊎ (r'.pending_writes ≡ [])
no_leftover_after r r' st k (inl busy) = inl (λ e. busy (sym st ∙ e))
no_leftover_after r r' st k (inr empty) = inr (k empty)

pub new_serial-IsLink :
    {p : Platform} (can_enable : Bool) (es : List (Effect p))
    → AreSafe can_enable es
    → IsLink can_enable new_serial es
new_serial-IsLink can_enable es h = record {
  has_queue = record {
    sent = [];
    queue = [];
    in_order = record { buffer_is = refl; sizes_are = refl; count_is = refl; nonempty = tt };
    byte_sized = omega arith;
    may_enable = λ on. absurd (cc on);
    built = tt;
  };
  no_leftover = inr refl;
  safe = h;
}
