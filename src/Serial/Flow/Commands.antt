-- ===== src/Serial/Flow/Commands.antt =====
-- expansionhub/ExpansionHubSerial.cpp: handlers that send packets in a transaction, as steps of its flow, and
-- what the callback `onSendCommands` has to do.
use scservices.Prelude.{
  Option, leb, Bool-cases, ℕ, zero, suc, ◌+◌, ◌-◌, ◌≤◌, ◌<◌, ◌≡◌, refl, ap, sym, ◌∙◌, arith, Bool,
  false, ◌⊎◌, inl, inr, none, some, List, [], ◌∷◌, ◌++◌, Bytes, length, take, drop,
  take-append-drop, length-append, length-drop, append_assoc, All, All-append,
}
use scservices.Packet.{build_packet}
use scservices.Packet.RoundTrip.{length-build_packet}
use scservices.Platform.{Platform}
use scservices.Serial.{waiting_for_packets, ExpansionHubSerial, Effect, Session, Action}
use scservices.Serial.Output.{send_packet, flush}
use scservices.Serial.Queue.{enqueue-IsQueued, send_packet-enqueue}
use scservices.Serial.Keeps.{Ends, Runs, IsSendable, IsAllowed}
use scservices.Serial.Whole.{IsBuilt, build_packet-IsBuilt}
use scservices.Serial.Sending.{IsKnown}
use scservices.Serial.Flow.{Flow, left, room, send_out}
use scservices.Serial.Flow.Refines.{Shows, flush-Shows}

-- A flow that goes on: it has eight answers to come at most, and what is written and what waits are the packets
-- `sofar` and new ones behind them, at least `n`, each with an answer to come and an allowed payload.
pub record IsFlow (can_enable : Bool) (sofar : List Bytes) (l n : ℕ) (a : Flow) : Type 0 where
  pub not_over : a.is_over ≡ false
  pub few : a.unanswered ≤ 8
  pub new : List Bytes
  pub same_packets : a.out ++ a.waiting ≡ sofar ++ new
  pub counted : left a ≡ l + length new
  pub enough : n ≤ length new
  pub built : All (IsBuilt can_enable) new

drop_few : (n : ℕ) (qs : List Bytes) → length qs ≤ n → drop n qs ≡ []
drop_few zero [] h = refl
drop_few zero (q ∷ qs) h = absurd (omega arith)
drop_few (suc n) [] h = refl
drop_few (suc n) (q ∷ qs) h = drop_few n qs (omega arith)

-- `Flush` goes as far as eight answers to come.
pub send_out-full :
    (a : Flow) → a.unanswered ≤ 8 → ((send_out a).waiting ≡ []) ⊎ ((send_out a).unanswered ≡ 8)
send_out-full a few = elim (Bool-cases (leb (length a.waiting) (8 - a.unanswered))) [
  | inl all ↦ inl (drop_few (room a) a.waiting (ground arith))
  | inr short ↦ inr (ground arith)
]

pub send_out-packets : (a : Flow) → (send_out a).out ++ (send_out a).waiting ≡ a.out ++ a.waiting
send_out-packets a =
    append_assoc a.out (take (room a) a.waiting) (drop (room a) a.waiting)
    ∙ ap (λ t. a.out ++ t) (take-append-drop (room a) a.waiting)

pub send_out-left : (a : Flow) → left (send_out a) ≡ left a
send_out-left a = omega (arith, length-drop (room a) a.waiting)

module _ {p : Platform} where
  -- A link of a known hub that shows such a flow.
  pub record Sends (can_enable : Bool) (base : Bytes) (sofar : List Bytes) (l n : ℕ)
      (r : ExpansionHubSerial) (es : List (Effect p)) : Type 0 where
    pub flow : Flow
    pub is_flow : IsFlow can_enable sofar l n flow
    pub shown : Shows base waiting_for_packets r es flow
    pub known : IsKnown r
    pub same_can_enable : r.can_enable ≡ can_enable

  -- And that has just been flushed.
  pub record Sent (can_enable : Bool) (base : Bytes) (sofar : List Bytes) (l n : ℕ)
      (r : ExpansionHubSerial) (es : List (Effect p)) : Type 0 where
    pub sends : Sends can_enable base sofar l n r es
    pub full : (sends.flow.waiting ≡ []) ⊎ (sends.flow.unanswered ≡ 8)

module _ (p : Platform) (can_enable : Bool) (base : Bytes) (sofar : List Bytes) (l : ℕ) where
  -- One packet more.
  pub send_packet-Sends :
      (n dest message id : ℕ) (pay : Bytes)
      → length pay < 1013
      → IsAllowed can_enable pay
      → Runs p ⊥
          (Sends can_enable base sofar l n)
          (Sends can_enable base sofar l (suc n))
          (send_packet dest message id pay false)
  send_packet-Sends n dest message id pay short allowed s h =
      let packet = build_packet dest message id pay in
      let a = h.flow in
      let i = h.is_flow in
      rw (send_packet-enqueue s dest message id pay short) (record {
        flow = record a { waiting = a.waiting ++ packet ∷ [] };
        is_flow = record {
          not_over = i.not_over;
          few = i.few;
          new = i.new ++ packet ∷ [];
          same_packets =
              sym (append_assoc a.out a.waiting (packet ∷ []))
              ∙ ap (λ t. t ++ packet ∷ []) i.same_packets
              ∙ append_assoc sofar i.new (packet ∷ []);
          counted = omega (
            arith,
            i.counted,
            length-append a.waiting (packet ∷ []),
            length-append i.new (packet ∷ []),
          );
          enough = omega (arith, i.enough, length-append i.new (packet ∷ []));
          built =
              All-append (IsBuilt can_enable) i.new (packet ∷ []) i.built
                (build_packet-IsBuilt dest message id pay short allowed, tt);
        };
        shown = record {
          sent = h.shown.sent;
          queued =
              enqueue-IsQueued s.serial packet h.shown.sent a.waiting
                (omega (arith, length-build_packet dest message id pay)) h.shown.queued;
          unanswered_is = h.shown.unanswered_is;
          written_is = h.shown.written_is;
          state_is = h.shown.state_is;
          callbacks_are = h.shown.callbacks_are;
          last_length = h.shown.last_length;
          between_packets = h.shown.between_packets;
        };
        known = record {
          address = h.known.address;
          interface = h.known.interface;
          address_is = h.known.address_is;
          interface_is = h.known.interface_is;
        };
        same_can_enable = h.same_can_enable;
      })

  pub flush-Sends :
      (n : ℕ) → Runs p ⊥ (Sends can_enable base sofar l n) (Sent can_enable base sofar l n) flush
  flush-Sends n s h =
      let a = h.flow in
      let i = h.is_flow in
      let (t, e, shown, same) = flush-Shows base waiting_for_packets s a h.shown i.few in
      rw e (record {
        sends = record {
          flow = send_out a;
          is_flow = record {
            not_over = i.not_over;
            few = omega (arith, i.few);
            new = i.new;
            same_packets = send_out-packets a ∙ i.same_packets;
            counted = send_out-left a ∙ i.counted;
            enough = i.enough;
            built = i.built;
          };
          shown = shown;
          known = record {
            address = h.known.address;
            interface = h.known.interface;
            address_is = ap (λ x. x.0) same ∙ h.known.address_is;
            interface_is = ap (λ x. x.1) same ∙ h.known.interface_is;
          };
          same_can_enable = ap (λ x. x.3) same ∙ h.same_can_enable;
        };
        full = send_out-full a i.few;
      })

  at_least :
      (n : ℕ) (r : ExpansionHubSerial) (es : List (Effect p))
      → Sends can_enable base sofar l (suc n) r es
      → Sends can_enable base sofar l n r es
  at_least n r es h = record {
    flow = h.flow;
    is_flow = record {
      not_over = h.is_flow.not_over;
      few = h.is_flow.few;
      new = h.is_flow.new;
      same_packets = h.is_flow.same_packets;
      counted = h.is_flow.counted;
      enough = omega (arith, h.is_flow.enough);
      built = h.is_flow.built;
    };
    shown = h.shown;
    known = h.known;
    same_can_enable = h.same_can_enable;
  }

  weaken :
      (n : ℕ) (m : Option (Session p))
      → Ends p ⊥ (Sends can_enable base sofar l (suc n)) m
      → Ends p ⊥ (Sends can_enable base sofar l n) m
  weaken n none e = e
  weaken n (some s) e = at_least n s.serial s.effects e

  weaken_sent :
      (n : ℕ) (m : Option (Session p))
      → Ends p ⊥ (Sent can_enable base sofar l n) m
      → Ends p ⊥ (Sends can_enable base sofar l n) m
  weaken_sent n none e = e
  weaken_sent n (some s) e = e.sends

  pub Sends-IsSendable : (n : ℕ) → IsSendable p ⊥ (Sends can_enable base sofar l n) can_enable
  Sends-IsSendable n = record {
    has_address = λ r es h e. absurd (cc (sym h.known.address_is ∙ e));
    has_interface = λ r es h e. absurd (cc (sym h.known.interface_is ∙ e));
    send_keeps = λ dest message id pay short allowed s h.
        weaken n (send_packet dest message id pay false s)
          (send_packet-Sends n dest message id pay short allowed s h);
    flush_keeps = λ s h. weaken_sent n (flush s) (flush-Sends n s h);
  }

-- What a transaction expects of its callback: on a known hub it ends without undefined behaviour, with at least
-- one packet more in the queue, and flushed.
abbrev pub IsCommands : (p : Platform) → (Bool → Bool → Action p) → Type 0
IsCommands p f =
    (base : Bytes) (sofar : List Bytes) (l : ℕ) (can_enable device_reset : Bool)
    → Runs p ⊥ (Sends can_enable base sofar l 0) (Sent can_enable base sofar l 1)
        (f can_enable device_reset)
