-- ===== src/Hub/Initial/Resets.antt =====
-- expansionhub/main.cpp: the encoder resets and the pulse widths of `SendInitial`.
use mathlib.Core.Path.{subst}
use scservices.Prelude.{
  ℕ, zero, suc, ◌≤◌, ◌<◌, ◌≡◌, refl, ap, ◌∙◌, arith, true, inl, inr, Option, some, [], ◌∷◌, ◌==◌,
  Bool-cases, if◌then◌else◌, to_u16,
}
use scservices.Platform.{Platform, Moment}
use scservices.NtState.{ExpansionHubNtState, MotorNtState, update}
use scservices.Serial.{Session}
use scservices.Serial.Reply.{on_motor}
use scservices.Serial.Requests.{send_encoder_reset_request, send_servo_pulse_width}
use scservices.Hub.{for_from}
use scservices.Hub.Commands.{note_reset, send_noted_reset, send_encoder_reset, send_pulse_width}
use scservices.Hub.Initial.{
  one_if, asks_reset, encoder_reset, encoder_resets, pulse_width, pulse_widths,
}
use scservices.Hub.Initial.Queues.{
  queue_all-nil, Queues, then-Leads, skip-Queues, reading_before, request-Queues,
}

update-same {ℓ} : {A : Type ℓ} (f : ℕ → A) (i : ℕ) (v : A) → update f i v i ≡ v
update-same f i v = ground arith

update-other {ℓ} : {A : Type ℓ} (f : ℕ → A) (i j : ℕ) (v : A) → i < j → update f i v j ≡ f j
update-other f i j v h = ground arith

module _ {p : Platform} where
  -- A reading of the topics of a motor, noted.
  abbrev noted : ℕ → Session p → Session p
  noted c s =
      let t = record s { readings = suc s.readings } in
      let time = ((s.moments s.readings).motor c).reset_time in
      if time == (s.store.motors c).last_reset_time
      then t
      else on_motor c (λ m. record m { last_reset_time = time; do_reset = true }) t

  noted_do_reset :
      (c : ℕ) (s : Session p)
      → ((noted c s).store.motors c).do_reset ≡ asks_reset s.store (s.moments s.readings) c
  noted_do_reset c s =
      elim (Bool-cases
        (((s.moments s.readings).motor c).reset_time == (s.store.motors c).last_reset_time)) [
          | inl same ↦ simp same refl
          | inr new ↦
              simp new (ap (λ (m : MotorNtState p). m.do_reset) (update-same s.store.motors c _))
        ]

  noted_others : (c d : ℕ) (s : Session p) → c < d → (noted c s).store.motors d ≡ s.store.motors d
  noted_others c d s h =
      elim (Bool-cases
        (((s.moments s.readings).motor c).reset_time == (s.store.motors c).last_reset_time)) [
          | inl same ↦ simp same refl
          | inr new ↦ simp new (update-other s.store.motors c d _ h)
        ]

  noted_rest :
      (c : ℕ) (s : Session p)
      → ((noted c s).serial ≡ s.serial)
        × ((noted c s).effects ≡ s.effects)
        × ((noted c s).moments ≡ s.moments)
        × ((noted c s).readings ≡ suc s.readings)
  noted_rest c s =
      elim (Bool-cases
        (((s.moments s.readings).motor c).reset_time == (s.store.motors c).last_reset_time)) [
          | inl same ↦ simp same (refl, refl, refl, refl)
          | inr new ↦ simp new (refl, refl, refl, refl)
        ]

  abbrev noted-Queues :
      (c : ℕ) (s : Session p) (m : Option (Session p))
      → m ≡ some (noted c s)
      → Queues 1 [] (noted c s).store s m
  noted-Queues c s m e = record {
    after = noted c s;
    ends = e;
    serial_is = (noted_rest c s).0 ∙ queue_all-nil s.serial;
    store_is = refl;
    effects_are = (noted_rest c s).1;
    moments_are = (noted_rest c s).2;
    readings_are = omega (arith, (noted_rest c s).3);
  }

  send_noted_reset-Queues :
      (a i c : ℕ) (s : Session p)
      → s.serial.address ≡ some a
      → s.serial.packet_interface_id ≡ some i
      → Queues 0
          (one_if (s.store.motors c).do_reset (encoder_reset a i c))
          s.store
          s
          (send_noted_reset c s)
  unfolding send_noted_reset send_encoder_reset_request
  send_noted_reset-Queues a i c s known interface = elim (Bool-cases (s.store.motors c).do_reset) [
    | inl wanted ↦ simp wanted (request-Queues a i _ _ _ s known interface (omega arith))
    | inr unwanted ↦ simp unwanted (skip-Queues s)
  ]

  -- One motor.
  send_encoder_reset-Queues :
      (a i c : ℕ) (s : Session p)
      → s.serial.address ≡ some a
      → s.serial.packet_interface_id ≡ some i
      → Queues 1
          (one_if (asks_reset s.store (s.moments s.readings) c) (encoder_reset a i c))
          (noted c s).store
          s
          (send_encoder_reset c s)
  unfolding send_encoder_reset note_reset
  send_encoder_reset-Queues a i c s known interface =
      let serial = (noted_rest c s).0 in
      let sent =
        send_noted_reset-Queues a i c (noted c s) (ap (λ r. r.address) serial ∙ known)
          (ap (λ r. r.packet_interface_id) serial ∙ interface) in
      then-Leads some 1 0 1 [] _ (noted c s).store (noted c s).store s (note_reset c)
        (send_noted_reset c) (noted-Queues c s (note_reset c s) refl)
        (subst
          (λ b.
            Queues 0 (one_if b (encoder_reset a i c)) (noted c s).store (noted c s)
              (send_noted_reset c (noted c s)))
          (noted_do_reset c s) sent)
        (omega arith)

  -- The motors from one on, whose topics are as in `store`.
  pub encoder_resets-Queues :
      (a i : ℕ) (store : ExpansionHubNtState p) (moments : ℕ → Moment p) (reading n c : ℕ)
      (s : Session p)
      → s.serial.address ≡ some a
      → s.serial.packet_interface_id ≡ some i
      → s.moments ≡ moments
      → s.readings ≡ reading
      → ((d : ℕ) → c ≤ d → s.store.motors d ≡ store.motors d)
      → (store' : ExpansionHubNtState p) × Queues n
          (encoder_resets a i store moments reading n c)
          store'
          s
          (for_from n c send_encoder_reset s)
  encoder_resets-Queues a i store moments reading zero c s known interface m r same =
      (s.store, skip-Queues s)
  encoder_resets-Queues a i store moments reading (suc n) c s known interface m r same =
      let asks : asks_reset s.store (s.moments s.readings) c
          ≡ asks_reset store (moments reading) c =
        rw (m, r, same c (omega arith)) refl in
      let q = rw asks at (send_encoder_reset-Queues a i c s known interface) in
      let (store', rest) =
        encoder_resets-Queues a i store moments (suc reading) n (suc c) q.after
          (ap (λ x. x.address) q.serial_is ∙ known)
          (ap (λ x. x.packet_interface_id) q.serial_is ∙ interface) (q.moments_are ∙ m)
          (omega (arith, q.readings_are, r))
          (λ d h.
            ap (λ x. x.motors d) q.store_is
            ∙ noted_others c d s (omega (arith, h))
            ∙ same d (omega (arith, h))) in
      (
        store',
        then-Leads some 1 n (suc n) _ _ _ store' s (send_encoder_reset c)
            (for_from n (suc c) send_encoder_reset) q rest (omega arith),
      )

  -- One servo.
  send_pulse_width-Queues :
      (a i c : ℕ) (s : Session p)
      → s.serial.address ≡ some a
      → s.serial.packet_interface_id ≡ some i
      → let width = to_u16 (((s.moments s.readings).servo c).pulse_width) in
        Queues 1
          (if width == 0 then [] else pulse_width a i c width ∷ [])
          s.store
          s
          (send_pulse_width c s)
  unfolding send_pulse_width send_servo_pulse_width
  send_pulse_width-Queues a i c s known interface =
      let t = record s { readings = suc s.readings } in
      elim (Bool-cases (to_u16 (((s.moments s.readings).servo c).pulse_width) == 0)) [
        | inl zero_width ↦ simp zero_width (reading_before [] s (some t) (skip-Queues t))
        | inr width ↦
            simp width
              (reading_before _ s _ (request-Queues a i _ _ _ t known interface (omega arith)))
      ]

  -- The servos from one on.
  pub pulse_widths-Queues :
      (a i : ℕ) (moments : ℕ → Moment p) (reading n c : ℕ) (s : Session p)
      → s.serial.address ≡ some a
      → s.serial.packet_interface_id ≡ some i
      → s.moments ≡ moments
      → s.readings ≡ reading
      → (store' : ExpansionHubNtState p) × Queues n
          (pulse_widths a i moments reading n c)
          store'
          s
          (for_from n c send_pulse_width s)
  pulse_widths-Queues a i moments reading zero c s known interface m r = (s.store, skip-Queues s)
  pulse_widths-Queues a i moments reading (suc n) c s known interface m r =
      let now : s.moments s.readings ≡ moments reading = rw (m, r) refl in
      let q = rw now at (send_pulse_width-Queues a i c s known interface) in
      let (store', rest) =
        pulse_widths-Queues a i moments (suc reading) n (suc c) q.after
          (ap (λ x. x.address) q.serial_is ∙ known)
          (ap (λ x. x.packet_interface_id) q.serial_is ∙ interface) (q.moments_are ∙ m)
          (omega (arith, q.readings_are, r)) in
      (
        store',
        then-Leads some 1 n (suc n) _ _ _ store' s (send_pulse_width c)
            (for_from n (suc c) send_pulse_width) q rest (omega arith),
      )
