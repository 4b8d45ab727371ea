-- ===== src/Serial/Flow/Replies.antt =====
-- expansionhub/ExpansionHubSerial.cpp: the replies within a transaction, the queue and the port.
use scservices.Prelude.{
  ◌&&◌, ℤ, Option, none, ℕ, ◌+◌, ◌≤◌, ◌≡◌, refl, ap, ◌∙◌, arith, Bool, true, some, List, [], ◌∷◌,
  ◌++◌, Bytes, length, drop, length-drop, ◌>>=◌,
}
use scservices.Receiver.{Receiver}
use scservices.Messages.{
  Reply, servo_enable, servo_configuration, motor_enable, motor_reset_encoder, motor_set_run_mode,
  motor_get_current, bulk_input, module_status, battery_voltage, other,
}
use scservices.Platform.{Platform}
use scservices.Serial.{SendState, ExpansionHubSerial, Session, Action, on_serial, ◌>=>◌}
use scservices.Serial.Flow.Port.{port_bytes, publishing-quiet}
use scservices.Packet.Spans.{get_elem?-some, read_int16-some, read_int32-some, subspan-some}
use scservices.Serial.Reply.{
  with_store, publish_encoder, publish_battery, read_encoder, handle_bulk_input, handle_battery,
  handle_current, handle_module_status, handle_reply,
}

-- The fields of the queue and of the transaction.
abbrev pub queue_fields :
    ExpansionHubSerial
    → Bytes × List ℕ × ℕ × ℕ × SendState × Bool × Receiver × Option ℕ × Option ℕ × Bool
queue_fields r = (
  r.write_buffer, r.pending_writes, r.current_count, r.outstanding_messages, r.send_state,
  r.has_callbacks, r.state_machine, r.address, r.packet_interface_id, r.can_enable,
)

-- The three reports that are in: the battery, the bulk input and the module status.
abbrev pub Reports : Type 0
Reports = Bool × Bool × Bool

abbrev pub reports_of : ExpansionHubSerial → Reports
reports_of r = (r.have_battery, r.have_bulk, r.have_module_status)

-- What a reply brings in.
abbrev pub report : Reply → Reports → Reports
report battery_voltage x = (true, x.1, x.2)
report bulk_input x = (x.0, true, x.2)
report module_status x = (x.0, x.1, true)
report _ x = x

abbrev pub are_in : Reports → Bool
are_in x = x.0 && (x.1 && x.2)

abbrev same : Reports → Reports
same x = x

-- The bytes that a reply must bring; the others are not read.
abbrev pub Enough : Reply → Bytes → Type 0
Enough bulk_input pay = 26 ≤ length pay
Enough battery_voltage pay = 2 ≤ length pay
Enough (motor_get_current i) pay = 2 ≤ length pay
Enough module_status pay = 1 ≤ length pay
Enough _ pay = Unit

module _ {p : Platform} where
  -- The queue is left alone, and nothing is written.
  abbrev pub IsQuiet : Session p → Session p → Type 0
  IsQuiet s t =
      (queue_fields t.serial ≡ queue_fields s.serial)
      × (port_bytes t.effects ≡ port_bytes s.effects)

  -- The handler ends, has been quiet, and has brought in its reports.
  abbrev QuietEnd : (Reports → Reports) → Session p → Option (Session p) → Type 0
  QuietEnd g s none = ⊥
  QuietEnd g s (some t) = IsQuiet s t × (reports_of t.serial ≡ g (reports_of s.serial))

  abbrev pub EndsQuiet : (Reports → Reports) → Action p → Type 0
  EndsQuiet g f = (s : Session p) → s.serial.has_callbacks ≡ true → QuietEnd g s (f s)

  pub quiet_end :
      (g : Reports → Reports) (s : Session p) (m : Option (Session p))
      → QuietEnd g s m
      → (t : Session p) × (m ≡ some t)
        × IsQuiet s t
        × (reports_of t.serial ≡ g (reports_of s.serial))
  quiet_end g s none e = absurd e
  quiet_end g s (some t) (q, r) = (t, refl, q, r)

  then-EndsQuiet :
      (g g' : Reports → Reports) (f f' : Action p)
      → EndsQuiet g f
      → EndsQuiet g' f'
      → EndsQuiet (λ x. g' (g x)) (f >=> f')
  then-EndsQuiet g g' f f' kf kf' s c = later (f s) (kf s c)
    where
      after :
          (t : Session p) (m : Option (Session p))
          → QuietEnd g s (some t)
          → QuietEnd g' t m
          → QuietEnd (λ x. g' (g x)) s m
      after t none e e' = e'
      after t (some u) ((q, w), r) ((q', w'), r') = ((q' ∙ q, w' ∙ w), r' ∙ ap g' r)

      later : (m : Option (Session p)) → QuietEnd g s m → QuietEnd (λ x. g' (g x)) s (m >>= f')
      later none e = e
      later (some t) e = after t (f' t) e (kf' t (ap (λ x. x.5) e.0.0 ∙ c))

  publish_encoder-EndsQuiet :
      (i : ℕ) (position velocity : ℤ) → EndsQuiet same (publish_encoder i position velocity)
  unfolding publish_encoder
  publish_encoder-EndsQuiet i position velocity s c =
      simp c
        ((refl, publishing-quiet (s.effects ++ _ ∷ []) _ _ ∙ publishing-quiet s.effects _ _), refl)

  read_encoder-EndsQuiet :
      (i at at' : ℕ) (pay : Bytes)
      → at + 4 ≤ length pay
      → at' + 2 ≤ length pay
      → EndsQuiet same (read_encoder i at at' pay)
  unfolding read_encoder
  read_encoder-EndsQuiet i at at' pay h h' s c =
      let (position, e) = read_int32-some (drop at pay) (omega (arith, length-drop at pay)) in
      let (velocity, e') = read_int16-some (drop at' pay) (omega (arith, length-drop at' pay)) in
      let span = subspan-some pay at (omega arith) in
      let span' = subspan-some pay at' (omega arith) in
      rw (span, e, span', e') (publish_encoder-EndsQuiet i position velocity s c)

  handle_bulk_input-EndsQuiet :
      (pay : Bytes) → 26 ≤ length pay → EndsQuiet (report bulk_input) (handle_bulk_input pay)
  unfolding handle_bulk_input
  handle_bulk_input-EndsQuiet pay h =
      let f = λ (i : ℕ). λ (at : ℕ). λ (at' : ℕ). read_encoder {p = p} i at at' pay in
      then-EndsQuiet (report bulk_input) same
        (λ s. some (on_serial (λ r. record r { have_bulk = true }) s)) _
        (λ s c. ((refl, refl), refl))
        (then-EndsQuiet same same (f 0 1 18) _
          (read_encoder-EndsQuiet 0 1 18 pay (omega arith) (omega arith))
          (then-EndsQuiet same same (f 1 5 20) _
            (read_encoder-EndsQuiet 1 5 20 pay (omega arith) (omega arith))
            (then-EndsQuiet same same (f 2 9 22) (f 3 13 24)
              (read_encoder-EndsQuiet 2 9 22 pay (omega arith) (omega arith))
              (read_encoder-EndsQuiet 3 13 24 pay (omega arith) (omega arith)))))

  handle_battery-EndsQuiet :
      (pay : Bytes) → 2 ≤ length pay → EndsQuiet (report battery_voltage) (handle_battery pay)
  unfolding handle_battery publish_battery
  handle_battery-EndsQuiet pay h s c =
      let (v, e) = read_int16-some pay h in
      simp (e, c) ((refl, publishing-quiet s.effects _ _), refl)

  handle_current-EndsQuiet :
      (i : ℕ) (pay : Bytes) → 2 ≤ length pay → EndsQuiet same (handle_current i pay)
  unfolding handle_current
  handle_current-EndsQuiet i pay h s c =
      let (v, e) = read_int16-some pay h in
      simp (c, e) ((refl, publishing-quiet s.effects _ _), refl)

  handle_module_status-EndsQuiet :
      (pay : Bytes) → 1 ≤ length pay → EndsQuiet (report module_status) (handle_module_status pay)
  unfolding handle_module_status
  handle_module_status-EndsQuiet pay h s c =
      let (v, e) = get_elem?-some pay 0 h in simp e ((refl, refl), refl)

  with_store-EndsQuiet : (f : Action p) → EndsQuiet same f → EndsQuiet same (with_store f)
  with_store-EndsQuiet f k s c = simp c (k s c)

  -- Once the callbacks are set, each reply that brings the bytes that are read of it is handled without
  -- undefined behaviour, leaves the queue alone and writes nothing.
  pub handle_reply-EndsQuiet :
      (r : Reply) (pay : Bytes) → Enough r pay → EndsQuiet (report r) (handle_reply r pay)
  unfolding handle_reply
  handle_reply-EndsQuiet module_status pay h = handle_module_status-EndsQuiet pay h
  handle_reply-EndsQuiet (motor_reset_encoder i) pay h =
      with_store-EndsQuiet _ (λ s c. ((refl, refl), refl))
  handle_reply-EndsQuiet (motor_enable i) pay h =
      with_store-EndsQuiet _ (λ s c. ((refl, refl), refl))
  handle_reply-EndsQuiet (motor_set_run_mode i) pay h =
      with_store-EndsQuiet _ (λ s c. ((refl, refl), refl))
  handle_reply-EndsQuiet (servo_configuration i) pay h =
      with_store-EndsQuiet _ (λ s c. ((refl, refl), refl))
  handle_reply-EndsQuiet (servo_enable i) pay h =
      with_store-EndsQuiet _ (λ s c. ((refl, refl), refl))
  handle_reply-EndsQuiet bulk_input pay h = handle_bulk_input-EndsQuiet pay h
  handle_reply-EndsQuiet battery_voltage pay h = handle_battery-EndsQuiet pay h
  handle_reply-EndsQuiet (motor_get_current i) pay h = handle_current-EndsQuiet i pay h
  handle_reply-EndsQuiet other pay h = λ s c. ((refl, refl), refl)
