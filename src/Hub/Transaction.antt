-- ===== src/Hub/Transaction.antt =====
-- expansionhub/main.cpp: what is left of a bus after a handler, and the start of a transaction.
use scservices.Prelude.{
  ℕ, ◌+◌, ◌<◌, ◌≡◌, refl, sym, ◌∙◌, arith, Bool, true, ◌⊎◌, inl, inr, Option, none, some, List, [],
  ltb, leb, sub_u64, ◌>>=◌, Bool-cases,
}
use scservices.Platform.{Platform}
use scservices.Serial.{
  ready_to_send, waiting_for_packets, ExpansionHubSerial, Effect, Session, Action,
}
use scservices.Serial.Output.{recover, allow_send, start_transaction}
use scservices.Serial.Handshake.{has_finished_synchronous}
use scservices.Serial.Keeps.{Ends}
use scservices.Serial.Whole.{AreSafe}
use scservices.Serial.Events.{IsLink-effect}
use scservices.Serial.Sending.{IsKnown, IsSending, IsWriting, writing, IsLink}
use scservices.Hub.{ExpansionHubState, session, leave, run_on}
use scservices.Hub.Commands.{send_initial}
use scservices.Hub.Keeps.{send_initial-Keeps}
use scservices.Hub.Devices.{begin_transaction, update_ready, on_update}

module _ (p : Platform) (can_enable : Bool) where
  abbrev pub OnHub : Option ExpansionHubSerial → List (Effect p) → Type 0
  OnHub none es = AreSafe can_enable es
  OnHub (some r) es = IsLink can_enable r es

  -- The hub of a bus, if it has one, has its invariant, and what was written is whole.
  abbrev pub IsBus : ExpansionHubState p → Type 0
  IsBus h = OnHub h.current_hub h.effects

  pub OnHub-AreSafe :
      (o : Option ExpansionHubSerial) (es : List (Effect p)) → OnHub o es → AreSafe can_enable es
  OnHub-AreSafe none es k = k
  OnHub-AreSafe (some r) es k = k.safe

  abbrev pub BusEnds : Type 0 → Option (ExpansionHubState p) → Type 0
  BusEnds F none = F
  BusEnds F (some h) = IsBus h

  abbrev pub BusKept : Option (ExpansionHubState p) → Type 0
  BusKept = BusEnds Unit

  left-BusEnds :
      (F : Type 0) (h : ExpansionHubState p) (m : Option (Session p))
      → Ends p F (IsLink can_enable) m
      → BusEnds F (m >>= λ s. some (leave h (some s.serial) s))
  left-BusEnds F h none e = e
  left-BusEnds F h (some s) e = e

  pub start_transaction-IsSending :
      (F : Type 0) (b : Bool) (s : Session p)
      → (b ≡ true → can_enable ≡ true)
      → s.serial.pending_writes ≡ []
      → s.serial.outstanding_messages < 256
      → F ⊎ IsKnown s.serial
      → Ends p F (λ r es. IsSending F can_enable waiting_for_packets r) (start_transaction b s)
  unfolding start_transaction
  start_transaction-IsSending F b s may empty small (inl f) = record {
    known = inl f;
    has_queue = record {
      sent = [];
      queue = [];
      in_order = record { buffer_is = refl; sizes_are = empty; count_is = refl; nonempty = tt };
      byte_sized = small;
      may_enable = may;
      built = tt;
    };
    state_is = refl;
  }
  start_transaction-IsSending F b s may empty small (inr k) = record {
    known = inr (record {
      address = k.address;
      interface = k.interface;
      address_is = k.address_is;
      interface_is = k.interface_is;
    });
    has_queue = record {
      sent = [];
      queue = [];
      in_order = record { buffer_is = refl; sizes_are = empty; count_is = refl; nonempty = tt };
      byte_sized = small;
      may_enable = may;
      built = tt;
    };
    state_is = refl;
  }

  start_transaction-IsWriting :
      (F : Type 0) (b : Bool) (s : Session p)
      → (b ≡ true → can_enable ≡ true)
      → s.serial.pending_writes ≡ []
      → s.serial.outstanding_messages < 256
      → AreSafe can_enable s.effects
      → F ⊎ IsKnown s.serial
      → Ends p F (IsWriting F can_enable waiting_for_packets) (start_transaction b s)
  unfolding start_transaction
  start_transaction-IsWriting F b s may empty small safe known = record {
    is_sending = start_transaction-IsSending F b s may empty small known;
    safe = safe;
  }

  writing-IsLink :
      (F : Type 0) (m : Option (Session p))
      → Ends p F (IsWriting F can_enable waiting_for_packets) m
      → Ends p F (IsLink can_enable) m
  writing-IsLink F none e = e
  writing-IsLink F (some s) e = record {
    has_queue = e.is_sending.has_queue;
    no_leftover = inl (λ k. absurd (cc (sym e.is_sending.state_is ∙ k)));
    safe = e.safe;
  }

  -- A transaction that starts with nothing waiting is started, its first requests queued and flushed.
  begin_transaction-IsLink :
      (F : Type 0) (b : Bool) (s : Session p)
      → (b ≡ true → can_enable ≡ true)
      → s.serial.pending_writes ≡ []
      → s.serial.outstanding_messages < 256
      → AreSafe can_enable s.effects
      → F ⊎ IsKnown s.serial
      → Ends p F (IsLink can_enable) (begin_transaction b s)
  unfolding begin_transaction
  begin_transaction-IsLink F b s may empty small safe known =
      writing-IsLink F _ (
        later (start_transaction b s)
          (start_transaction-IsWriting F b s may empty small safe known))
    where
      later :
          (m : Option (Session p))
          → Ends p F (IsWriting F can_enable waiting_for_packets) m
          → Ends p F (IsWriting F can_enable waiting_for_packets) (m >>= send_initial)
      later none e = e
      later (some t) e =
          send_initial-Keeps p F (IsWriting F can_enable waiting_for_packets) can_enable
            (writing p F can_enable waiting_for_packets) t e

  pub run_on-BusEnds :
      (F : Type 0) (h : ExpansionHubState p) (r : ExpansionHubSerial) (f : Action p)
      → Ends p F (IsLink can_enable) (f (session h r))
      → BusEnds F (run_on h r f)
  run_on-BusEnds F h r f e = left-BusEnds F h (f (session h r)) e

  -- A link that may send has nothing waiting, and one that is recovered has not either.
  allow_send-empty :
      {es : List (Effect p)} (r : ExpansionHubSerial)
      → IsLink can_enable r es
      → allow_send r ≡ true
      → r.pending_writes ≡ []
  unfolding allow_send
  allow_send-empty r h e =
      let ready : r.send_state ≡ ready_to_send = ground arith in
      elim (h.no_leftover) [ inl busy ↦ absurd (busy ready) | inr empty ↦ empty ]

  recovered :
      (F : Type 0) (b : Bool) (h : ExpansionHubState p) (r : ExpansionHubSerial)
      → (b ≡ true → can_enable ≡ true)
      → AreSafe can_enable h.effects
      → F ⊎ IsKnown r
      → BusEnds F (run_on h (recover r) (begin_transaction b))
  unfolding recover
  recovered F b h r may safe (inl f) =
      run_on-BusEnds F h (recover r) (begin_transaction b)
        (begin_transaction-IsLink F b (session h (recover r)) may refl (omega arith) safe (inl f))
  recovered F b h r may safe (inr k) = run_on-BusEnds F h (recover r) (begin_transaction b) (
      begin_transaction-IsLink F b (session h (recover r)) may refl (omega arith) safe (
        inr (record {
          address = k.address;
          interface = k.interface;
          address_is = k.address_is;
          interface_is = k.interface_is;
        })))

  pub update_ready-BusEnds :
      (F : Type 0) (b : Bool) (h : ExpansionHubState p) (r : ExpansionHubSerial) (now : ℕ)
      → (b ≡ true → can_enable ≡ true)
      → IsLink can_enable r h.effects
      → F ⊎ IsKnown r
      → BusEnds F (update_ready b h r now)
  unfolding update_ready
  update_ready-BusEnds F b h r now may l known = elim (Bool-cases (allow_send r)) [
    | inl ready ↦ simp ready (
        run_on-BusEnds F (record h { last_loop = now }) r (begin_transaction b)
          (begin_transaction-IsLink F b (session (record h { last_loop = now }) r) may
            (allow_send-empty r l ready) l.has_queue.byte_sized l.safe known))
    | inr busy ↦ elim (Bool-cases (ltb (sub_u64 now h.last_loop) 1000000)) [
      | inl soon ↦ simp (busy, soon) (IsLink-effect r h.effects _ (refl, tt) l)
      | inr late ↦
          let past : leb 1000000 (sub_u64 now h.last_loop) ≡ true = ground arith in
          simp (busy, late, past) (recovered F b (record h { last_loop = now }) r may l.safe known)
    ]
  ]

  -- `OnUpdate`, told to enable only where that is allowed, is without undefined behaviour on a bus whose hub has its invariant, a known address
  -- and interface, and is past the handshake: it misses the loop, recovers or starts a transaction,
  -- and the hub keeps its invariant.
  pub on_update-IsLink :
      (b : Bool) (h : ExpansionHubState p) (r : ExpansionHubSerial)
      → (b ≡ true → can_enable ≡ true)
      → h.current_hub ≡ some r
      → IsLink can_enable r h.effects
      → IsKnown r
      → has_finished_synchronous r ≡ true
      → (h' : ExpansionHubState p) × (on_update b h ≡ some h') × IsBus h'
  unfolding on_update
  on_update-IsLink b h r may hub l k done =
      let step =
        update_ready b (record h { readings = h.readings + 1 }) r (h.moments h.readings).now in
      total step
        (update_ready-BusEnds ⊥ b (record h { readings = h.readings + 1 }) r
          (h.moments h.readings).now may l (inr k))
        (simp (hub, done) refl)
    where
      total :
          (m : Option (ExpansionHubState p))
          → BusEnds ⊥ m
          → on_update b h ≡ m
          → (h' : ExpansionHubState p) × (on_update b h ≡ some h') × IsBus h'
      total none e same = absurd e
      total (some h') e same = (h', same, e)
