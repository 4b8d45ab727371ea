-- ===== src/Serial/Flow/Stream.antt =====
-- expansionhub/ExpansionHubSerial.cpp: a transaction on a hub that keeps answering.
use mathlib.Core.Path.{subst}
use scservices.Prelude.{
  ℕ, zero, suc, ◌+◌, ◌-◌, ◌≤◌, ◌≡◌, refl, ap, sym, ◌∙◌, arith, Bool, true, false, inl, inr, some,
  List, [], ◌++◌, Bytes, length, ◌>>=◌, Bool-cases, All,
}
use scservices.Receiver.Frames.{Framed, bytes_of}
use scservices.Messages.{Reply, battery_voltage, bulk_input, module_status, classify}
use scservices.Platform.{Platform}
use scservices.Serial.{waiting_for_packets, waiting_for_finish, Session, Action, skip, ◌>=>◌}
use scservices.Serial.Payload.{do_read}
use scservices.Serial.Sending.{IsKnown}
use scservices.Serial.Whole.{IsBuilt}
use scservices.Serial.Flow.{Flow, flow, IsOpen, left, answer, answer-Answered}
use scservices.Serial.Flow.Replies.{Reports, reports_of, report, are_in}
use scservices.Serial.Flow.Refines.{Shows}
use scservices.Serial.Flow.Reads.{IsReply, do_read-Shows, do_read-reporting}
use scservices.Serial.Flow.Commands.{IsCommands}
use scservices.Serial.Flow.Commanded.{Commanded}
use scservices.Serial.Flow.Transaction.{do_read-Commanded}

report-are_in : (r : Reply) (x : Reports) → are_in x ≡ true → are_in (report r x) ≡ true
report-are_in battery_voltage x e = ground arith
report-are_in bulk_input x e = ground arith
report-are_in module_status x e = ground arith
report-are_in _ x e = e

-- The reports that are in after `n` replies from one on.
abbrev pub reports_from : (ℕ → Framed) → ℕ → ℕ → Reports → Reports
reports_from replies zero i x = x
reports_from replies (suc n) i x =
    reports_from replies n (suc i) (report (classify (replies i).fields.reference) x)

module _ {p : Platform} (f : Bool → Bool → Action p) (replies : ℕ → Framed) where
  -- `n` replies from one on, read one after the other.
  abbrev pub read_from : ℕ → ℕ → Action p
  read_from zero i = skip
  read_from (suc n) i = do_read f (some (bytes_of (replies i))) >=> read_from n (suc i)

  reports_from-are_in :
      (n i : ℕ) (x : Reports) → are_in x ≡ true → are_in (reports_from replies n i x) ≡ true
  reports_from-are_in zero i x e = e
  reports_from-are_in (suc n) i x e =
      reports_from-are_in n (suc i) (report (classify (replies i).fields.reference) x)
        (report-are_in (classify (replies i).fields.reference) x e)

  -- The end, once the commands are sent.
  read_from-finish :
      (n i : ℕ) (base : Bytes) (s : Session p) (a : Flow)
      → ((j : ℕ) → IsReply (replies j))
      → Shows base waiting_for_finish s.serial s.effects a
      → IsOpen a
      → left a ≡ suc n
      → (s' : Session p) × (read_from (suc n) i s ≡ some s')
        × Shows base waiting_for_finish s'.serial s'.effects (flow [] 0 (a.out ++ a.waiting) true)
  read_from-finish zero i base s a good h o e =
      let (t, ends, shown) = do_read-Shows f base (replies i) s a (good i) h o in
      elim (answer-Answered a o) [
        | inl (one, eq) ↦ (t, rw ends refl, rw eq at shown)
        | inr (still, less, same) ↦ absurd (omega (arith, still.some_left, less, e))
      ]
  read_from-finish (suc n) i base s a good h o e =
      let (t, ends, shown) = do_read-Shows f base (replies i) s a (good i) h o in
      elim (answer-Answered a o) [
        | inl (one, eq) ↦ absurd (omega (arith, one, e))
        | inr (still, less, same) ↦
            (let (u, ends', shown') =
                read_from-finish n (suc i) base t (answer a) good shown still
                  (omega (arith, less, e)) in
              (u, rw ends ends', rw same at shown'))
      ]

  -- The whole: `n` replies while reports are missing, the reply that brings the last of them, and as many as
  -- there are commands and answers to come.
  pub record IsOver (can_enable : Bool) (base : Bytes) (sofar : List Bytes) (l i : ℕ)
      (s : Session p) : Type 0 where
    pub commands : List Bytes
    pub built : All (IsBuilt can_enable) commands
    pub after : Session p
    pub ends : read_from (l + length commands) i s ≡ some after
    pub shown :
        Shows base waiting_for_finish after.serial after.effects
          (flow [] 0 (sofar ++ commands) true)

  step_lem :
      (m k i : ℕ) (s t u : Session p)
      → do_read f (some (bytes_of (replies i))) s ≡ some t
      → read_from m (suc i) t ≡ some u
      → k ≡ suc m
      → read_from k i s ≡ some u
  step_lem m k i s t u first rest e =
      ap (λ n. read_from n i s) e ∙ ap (λ x. x >>= read_from m (suc i)) first ∙ rest

  finish-IsOver :
      (can_enable : Bool) (base : Bytes) (sofar : List Bytes) (l i : ℕ) (s : Session p)
      → ((j : ℕ) → IsReply (replies j))
      → Commanded can_enable base sofar l (do_read f (some (bytes_of (replies i))) s)
      → IsOver can_enable base sofar (suc l) i s
  finish-IsOver can_enable base sofar l i s good d = go (left d.flow_after) refl
    where
      go : (k : ℕ) → left d.flow_after ≡ k → IsOver can_enable base sofar (suc l) i s
      go zero e = absurd (omega (arith, d.is_open.some_left, e))
      go (suc n) e =
          let (u, ends, shown) =
            read_from-finish n (suc i) base d.after d.flow_after good d.shown d.is_open e in
          record {
            commands = d.commands;
            built = d.built;
            after = u;
            ends =
                step_lem (suc n) (suc l + length d.commands) i s d.after u d.ends ends
                  (omega (arith, e, d.left_is));
            shown =
                subst (λ qs. Shows base waiting_for_finish u.serial u.effects (flow [] 0 qs true))
                  d.same_packets shown;
          }

  later-IsOver :
      (can_enable : Bool) (base : Bytes) (sofar : List Bytes) (l i : ℕ) (s t : Session p)
      → do_read f (some (bytes_of (replies i))) s ≡ some t
      → IsOver can_enable base sofar l (suc i) t
      → IsOver can_enable base sofar (suc l) i s
  later-IsOver can_enable base sofar l i s t first d = record {
    commands = d.commands;
    built = d.built;
    after = d.after;
    ends =
        step_lem (l + length d.commands) (suc l + length d.commands) i s t d.after first d.ends
          (omega arith);
    shown = d.shown;
  }

  pub read_from-IsOver :
      (n i : ℕ) (can_enable : Bool) (base : Bytes) (s : Session p) (a : Flow)
      → s.serial.can_enable ≡ can_enable
      → IsCommands p f
      → ((j : ℕ) → IsReply (replies j))
      → Shows base waiting_for_packets s.serial s.effects a
      → IsOpen a
      → IsKnown s.serial
      → are_in (reports_from replies n i (reports_of s.serial)) ≡ false
      → are_in (reports_from replies (suc n) i (reports_of s.serial)) ≡ true
      → suc n ≤ left a
      → IsOver can_enable base (a.out ++ a.waiting) (left a) i s
  read_from-IsOver zero i can_enable base s a same_flag commands good h o known missing all_in few =
      subst (λ l. IsOver can_enable base (a.out ++ a.waiting) l i s) (omega (arith, o.some_left))
        (finish-IsOver can_enable base (a.out ++ a.waiting) (length a.waiting + (a.unanswered - 1))
          i s good
          (subst
            (λ b.
              Commanded b base (a.out ++ a.waiting) (length a.waiting + (a.unanswered - 1))
                (do_read f (some (bytes_of (replies i))) s))
            same_flag
            (do_read-Commanded f base (replies i) s a commands (good i) h o known all_in)))
  read_from-IsOver (suc n) i can_enable base s a same_flag commands good h o known missing all_in
        few =
      let r = classify (replies i).fields.reference in
      let x = report r (reports_of s.serial) in
      let still_missing : are_in x ≡ false = elim (Bool-cases (are_in x)) [
        | inl there ↦ absurd (cc (sym (reports_from-are_in n (suc i) x there) ∙ missing))
        | inr not_there ↦ not_there
      ] in
      let (t, ends, shown, same) =
        do_read-reporting f base (replies i) s a (good i) h o still_missing in
      let reports : reports_of t.serial ≡ x = ap (λ k. k.2) same in
      elim (answer-Answered a o) [
        | inl (one, eq) ↦ absurd (omega (arith, one, few))
        | inr (still, less, packets) ↦
            subst (λ l. IsOver can_enable base (a.out ++ a.waiting) l i s) less
              (later-IsOver can_enable base (a.out ++ a.waiting) (left (answer a)) i s t ends (
                subst (λ qs. IsOver can_enable base qs (left (answer a)) (suc i) t) packets
                  (read_from-IsOver n (suc i) can_enable base t (answer a)
                    (ap (λ k. k.3) same ∙ same_flag) commands good shown still
                    (record {
                      address = known.address;
                      interface = known.interface;
                      address_is = ap (λ k. k.0) same ∙ known.address_is;
                      interface_is = ap (λ k. k.1) same ∙ known.interface_is;
                    })
                    (ap (λ k. are_in (reports_from replies n (suc i) k)) reports ∙ missing)
                    (ap (λ k. are_in (reports_from replies (suc n) (suc i) k)) reports ∙ all_in)
                    (omega (arith, less, few)))))
      ]
