-- ===== src/Hub/Adds.antt =====
-- expansionhub/ExpansionHubSerial.cpp: the packets that are added to the output of a link, while the hub is not to be
-- enabled.
use scservices.Prelude.{
  ℕ, ◌<◌, ◌≡◌, ◌≢◌, refl, sym, ◌∙◌, ap, arith, false, Option, none, some, List, [], ◌∷◌, ◌++◌,
  Bytes, take, drop, All, All-append, length, append_assoc, append-nil, take-append-drop,
}
use scservices.Packet.{build_packet}
use scservices.Packet.RoundTrip.{length-build_packet}
use scservices.Platform.{Platform}
use scservices.Serial.{ExpansionHubSerial, Effect, Session}
use scservices.Serial.Output.{send_packet, flush}
use scservices.Serial.Queue.{
  concat, concat-append, enqueue, IsQueued, send_packet-enqueue, enqueue-IsQueued,
}
use scservices.Serial.Queue.Flush.{flush-Flushes, budget, writes}
use scservices.Serial.Keeps.{Ends, Keeps, IsSendable, IsAllowed}
use scservices.Serial.Flow.Port.{port_bytes, port_bytes-append, port_bytes-writes}

-- A packet that asks for no channel to be enabled: its payload is not a channel and a 1.
pub record IsUnenabling (packet : Bytes) : Type 0 where
  pub dest : ℕ
  pub message : ℕ
  pub id : ℕ
  pub pay : Bytes
  pub built_is : packet ≡ build_packet dest message id pay
  pub enables_none : (channel : ℕ) → pay ≢ channel ∷ 1 ∷ []

-- On a link of a known hub: what was written and what waits are the bytes `before` and, behind them, the packets
-- `added`, which ask for nothing to be enabled.
pub record Adds {p : Platform} (address interface : ℕ) (before : Bytes) (added : List Bytes)
    (r : ExpansionHubSerial) (es : List (Effect p)) : Type 0 where
  pub address_is : r.address ≡ some address
  pub interface_is : r.packet_interface_id ≡ some interface
  pub byte_sized : r.outstanding_messages < 256
  pub sent : Bytes
  pub queue : List Bytes
  pub in_order : IsQueued r sent queue
  pub output_is : port_bytes es ++ concat queue ≡ before ++ concat added
  pub unenabling : All IsUnenabling added

module _ (p : Platform) (address interface : ℕ) (before : Bytes) where
  pub start-Adds :
      (s : Session p) (sent : Bytes) (queue : List Bytes)
      → s.serial.address ≡ some address
      → s.serial.packet_interface_id ≡ some interface
      → s.serial.outstanding_messages < 256
      → IsQueued s.serial sent queue
      → port_bytes s.effects ++ concat queue ≡ before
      → Adds address interface before [] s.serial s.effects
  start-Adds s sent queue a i small q e = record {
    address_is = a;
    interface_is = i;
    byte_sized = small;
    sent = sent;
    queue = queue;
    in_order = q;
    output_is = e ∙ sym (append-nil before);
    unenabling = tt;
  }

  pub enqueue-Adds :
      (added : List Bytes) (r : ExpansionHubSerial) (es : List (Effect p)) (dest message id : ℕ)
      (pay : Bytes)
      → IsAllowed false pay
      → Adds address interface before added r es
      → Adds address interface before
          (added ++ build_packet dest message id pay ∷ [])
          (enqueue r (build_packet dest message id pay))
          es
  enqueue-Adds added r es dest message id pay allowed h =
      let packet = build_packet dest message id pay in
      record {
        address_is = h.address_is;
        interface_is = h.interface_is;
        byte_sized = h.byte_sized;
        sent = h.sent;
        queue = h.queue ++ packet ∷ [];
        in_order =
            enqueue-IsQueued r packet h.sent h.queue
              (omega (arith, length-build_packet dest message id pay)) h.in_order;
        output_is =
            ap (λ t. port_bytes es ++ t) (concat-append h.queue (packet ∷ []))
            ∙ sym (append_assoc (port_bytes es) (concat h.queue) (concat (packet ∷ [])))
            ∙ ap (λ t. t ++ concat (packet ∷ [])) h.output_is
            ∙ append_assoc before (concat added) (concat (packet ∷ []))
            ∙ ap (λ t. before ++ t) (sym (concat-append added (packet ∷ [])));
        unenabling = All-append IsUnenabling added (packet ∷ []) h.unenabling (
          record {
            dest = dest;
            message = message;
            id = id;
            pay = pay;
            built_is = refl;
            enables_none = allowed refl;
          },
          tt,
        );
      }

  flush-Adds : (added : List Bytes) → Keeps p ⊥ (Adds address interface before added) flush
  flush-Adds added s h =
      let f = flush-Flushes s h.sent h.queue h.in_order h.byte_sized in
      let n = budget s.serial in
      let out = port_bytes s.effects in
      let wrote : port_bytes f.after.effects ≡ out ++ concat (take n h.queue) =
        ap port_bytes f.wrote
        ∙ port_bytes-append s.effects (writes (concat (take n h.queue)))
        ∙ ap (λ t. out ++ t) (port_bytes-writes p (concat (take n h.queue))) in
      rw f.ends (record {
        address_is = f.same_address ∙ h.address_is;
        interface_is = f.same_interface ∙ h.interface_is;
        byte_sized = omega (arith, f.outstanding);
        sent = _;
        queue = _;
        in_order = f.queued;
        output_is =
            ap (λ t. t ++ concat (drop n h.queue)) wrote
            ∙ append_assoc out (concat (take n h.queue)) (concat (drop n h.queue))
            ∙ ap (λ t. out ++ t)
                (sym (concat-append (take n h.queue) (drop n h.queue))
                  ∙ ap concat (take-append-drop n h.queue))
            ∙ h.output_is;
        unenabling = h.unenabling;
      })

  -- Some such packets were added, with a property that more of them do not take away.
  abbrev pub Has : (List Bytes → Type 0) → ExpansionHubSerial → List (Effect p) → Type 0
  Has T r es = (added : List Bytes) × Adds address interface before added r es × T added

  module _ (T : List Bytes → Type 0)
      (more : (added : List Bytes) (packet : Bytes) → T added → T (added ++ packet ∷ [])) where
    flush-Has : Keeps p ⊥ (Has T) flush
    flush-Has s (added, h, holds) = later (flush s) (flush-Adds added s h)
      where
        later :
            (m : Option (Session p))
            → Ends p ⊥ (Adds address interface before added) m
            → Ends p ⊥ (Has T) m
        later none e = e
        later (some t) e = (added, e, holds)

    send_packet-Has :
        (dest message id : ℕ) (pay : Bytes)
        → length pay < 1013
        → IsAllowed false pay
        → Keeps p ⊥ (Has T) (send_packet dest message id pay false)
    send_packet-Has dest message id pay short allowed s (added, h, holds) =
        let packet = build_packet dest message id pay in
        rw (send_packet-enqueue s dest message id pay short) (
          added ++ packet ∷ [],
          enqueue-Adds added s.serial s.effects dest message id pay allowed h,
          more added packet holds,
        )

    pub Has-IsSendable : IsSendable p ⊥ (Has T) false
    Has-IsSendable = record {
      has_address = λ r es (added, h, holds) e. absurd (cc (sym h.address_is ∙ e));
      has_interface = λ r es (added, h, holds) e. absurd (cc (sym h.interface_is ∙ e));
      send_keeps = send_packet-Has;
      flush_keeps = flush-Has;
    }
