-- ===== src/Serial/Flow/Commanded.antt =====
-- expansionhub/ExpansionHubSerial.cpp: the flow of a transaction whose commands have been sent.
use scservices.Prelude.{
  ℕ, ◌+◌, ◌-◌, ◌≤◌, ◌≡◌, refl, ap, sym, ◌∙◌, arith, false, ◌⊎◌, inl, inr, Option, some, List, [],
  ◌++◌, Bytes, length, append-nil, Bool, All,
}
use scservices.Platform.{Platform}
use scservices.Serial.{waiting_for_packets, waiting_for_finish, Session, on_serial}
use scservices.Serial.Output.{flush}
use scservices.Serial.Sending.{IsKnown}
use scservices.Serial.Whole.{IsBuilt}
use scservices.Serial.Advance.{counted}
use scservices.Serial.Flow.{Flow, IsOpen, left, send_out}
use scservices.Serial.Flow.Refines.{state_of, Shows, flush-Shows}
use scservices.Serial.Flow.Commands.{Sends, Sent, send_out-full, send_out-left, send_out-packets}

-- After `Flush` a flow with an answer to come is open.
pub flushed-IsOpen :
    (a : Flow)
    → a.is_over ≡ false
    → a.unanswered ≤ 8
    → 1 ≤ left a
    → (a.waiting ≡ []) ⊎ (a.unanswered ≡ 8)
    → IsOpen a
flushed-IsOpen a not_over few some_left (inl none_waits) = record {
  not_over = not_over;
  some_left = omega (arith, ap length none_waits, some_left);
  few = few;
  full = inl none_waits;
}
flushed-IsOpen a not_over few some_left (inr eight) = record {
  not_over = not_over;
  some_left = omega (arith, eight);
  few = few;
  full = inr eight;
}

send_out-IsOpen : (a : Flow) → IsOpen a → IsOpen (send_out a)
send_out-IsOpen a o =
    flushed-IsOpen (send_out a) o.not_over (omega (arith, o.few))
      (omega (arith, send_out-left a, o.some_left)) (send_out-full a o.few)

module _ {p : Platform} where
  -- The flow before the commands.
  pub counted-Sends :
      (base : Bytes) (t : Session p) (a : Flow)
      → Shows base waiting_for_packets t.serial t.effects a
      → IsOpen a
      → IsKnown t.serial
      → Sends t.serial.can_enable base
          (a.out ++ a.waiting)
          (length a.waiting + (a.unanswered - 1))
          0
          (counted t).serial
          t.effects
  counted-Sends base t a h o known = record {
    flow = record a { unanswered = a.unanswered - 1 };
    is_flow = record {
      not_over = o.not_over;
      few = omega (arith, o.few);
      new = [];
      same_packets = sym (append-nil (a.out ++ a.waiting));
      counted = omega arith;
      enough = omega arith;
      built = tt;
    };
    shown = record {
      sent = h.sent;
      queued = record {
        buffer_is = h.queued.buffer_is;
        sizes_are = h.queued.sizes_are;
        count_is = h.queued.count_is;
        nonempty = h.queued.nonempty;
      };
      unanswered_is = omega (arith, h.unanswered_is, o.some_left, o.few);
      written_is = h.written_is;
      state_is = h.state_is;
      callbacks_are = h.callbacks_are;
      last_length = h.last_length;
      between_packets = h.between_packets;
    };
    known = record {
      address = known.address;
      interface = known.interface;
      address_is = known.address_is;
      interface_is = known.interface_is;
    };
    same_can_enable = refl;
  }

  abbrev pub to_finish : Session p → Session p
  to_finish u = on_serial (λ r. record r { send_state = waiting_for_finish }) u

  -- The flow behind them, once they are flushed for good.
  pub record Commanded (can_enable : Bool) (base : Bytes) (sofar : List Bytes) (l : ℕ)
      (m : Option (Session p)) : Type 0 where
    pub after : Session p
    pub flow_after : Flow
    pub commands : List Bytes
    pub ends : m ≡ some after
    pub shown : Shows base waiting_for_finish after.serial after.effects flow_after
    pub is_open : IsOpen flow_after
    pub same_packets : flow_after.out ++ flow_after.waiting ≡ sofar ++ commands
    pub built : All (IsBuilt can_enable) commands
    pub left_is : left flow_after ≡ l + length commands

  pub sent-Commanded :
      (can_enable : Bool) (base : Bytes) (sofar : List Bytes) (l : ℕ) (u : Session p)
      → Sent can_enable base sofar l 1 u.serial u.effects
      → (1 ≤ u.serial.outstanding_messages)
        × Commanded can_enable base sofar l (flush (to_finish u))
  sent-Commanded can_enable base sofar l u h =
      let a = h.sends.flow in
      let i = h.sends.is_flow in
      let w = h.sends.shown in
      let o : IsOpen a =
        flushed-IsOpen a i.not_over i.few (omega (arith, i.counted, i.enough)) h.full in
      let (t, e, shown, same) =
        flush-Shows base waiting_for_finish (to_finish u) a
          (record {
            sent = w.sent;
            queued = record {
              buffer_is = w.queued.buffer_is;
              sizes_are = w.queued.sizes_are;
              count_is = w.queued.count_is;
              nonempty = w.queued.nonempty;
            };
            unanswered_is = w.unanswered_is;
            written_is = w.written_is;
            state_is = ap (state_of waiting_for_finish) (sym i.not_over);
            callbacks_are = w.callbacks_are;
            last_length = w.last_length;
            between_packets = w.between_packets;
          })
          i.few in
      (
        omega (arith, w.unanswered_is, o.some_left),
        record {
          after = t;
          flow_after = send_out a;
          commands = i.new;
          ends = e;
          shown = shown;
          is_open = send_out-IsOpen a o;
          same_packets = send_out-packets a ∙ i.same_packets;
          built = i.built;
          left_is = send_out-left a ∙ i.counted;
        },
      )
