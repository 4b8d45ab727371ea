-- ===== src/Hub/Keeps.antt =====
-- expansionhub/main.cpp: `SendInitial` and `SendCommands`, for properties that sending a packet keeps.
use scservices.Prelude.{
  ◌≡◌, true, refl, ℕ, zero, suc, Bool, Option, none, some, List, if◌then◌else◌, to_u16, bool_eq,
  nat_eq, Bool-cases, inl, inr, ◌==◌,
}
use scservices.Platform.{Platform}
use scservices.NtState.{num_motors_per_hub, num_servos_per_hub}
use scservices.Serial.{ExpansionHubSerial, Effect, Session, Action, skip}
use scservices.Serial.Output.{flush}
use scservices.Serial.Requests.{
  send_motor_constant_power, send_battery_request, send_motor_current_request,
  send_servo_configuration, send_servo_pulse_width, send_servo_enable, send_motor_mode,
  send_motor_enable, get_module_status, send_keep_alive, send_bulk_input,
}
use scservices.Serial.Keeps.{
  Keeps, Runs, then-Runs, then-Keeps, if-Keeps, reading-Keeps, IsSendable,
  send_battery_request-Keeps, send_motor_current_request-Keeps, send_encoder_reset_request-Keeps,
  send_servo_configuration-Keeps, send_servo_pulse_width-Keeps, send_servo_enable-Keeps,
  send_motor_constant_power-Keeps, send_motor_mode-Keeps, send_motor_enable-Keeps,
  get_module_status-Keeps, send_keep_alive-Keeps, send_bulk_input-Keeps,
}
use scservices.CachedCommand.{get, get_with_can_enable}
use scservices.Serial.Reply.{on_motor, on_servo}
use scservices.CachedCommand.Laws.{get_with_can_enable-on}
use scservices.Hub.{for_from, for_each}
use scservices.Hub.Commands.{
  note_reset, send_noted_reset, send_if, send_encoder_reset, send_pulse_width, send_initial,
  forget_motor, forget_servo, forget_settings, compute_powers, send_power, send_powers,
  send_float_on_0, send_enable, send_frame_period, send_servo_enabled, send_commands,
}

module _ (p : Platform) (F : Type 0) (P : ExpansionHubSerial → List (Effect p) → Type 0) where
  pub for_from-Keeps :
      (n i : ℕ) (f : ℕ → Action p) → ((j : ℕ) → Keeps p F P (f j)) → Keeps p F P (for_from n i f)
  for_from-Keeps zero i f k s h = h
  for_from-Keeps (suc n) i f k s h =
      then-Keeps p F P (f i) (for_from n (suc i) f) (k i) (for_from-Keeps n (suc i) f k) s h

  send_if-Keeps :
      {A : Type 0} (send : A → Action p) (o : Option A)
      → ((a : A) → o ≡ some a → Keeps p F P (send a))
      → Keeps p F P (send_if send o)
  send_if-Keeps send none k s h = h
  send_if-Keeps send (some a) k s h = k a refl s h

  pub forget_settings-Keeps : Keeps p F P forget_settings
  unfolding forget_settings forget_motor forget_servo
  forget_settings-Keeps =
      then-Keeps p F P (for_each num_motors_per_hub forget_motor)
        (for_each num_servos_per_hub forget_servo)
        (for_from-Keeps num_motors_per_hub 0 forget_motor (λ i s h. h))
        (for_from-Keeps num_servos_per_hub 0 forget_servo (λ i s h. h))

  compute_powers-serial :
      (n i : ℕ) (s : Session p)
      → P s.serial s.effects
      → P (compute_powers n i s).0.serial (compute_powers n i s).0.effects
  unfolding compute_powers
  compute_powers-serial zero i s h = h
  compute_powers-serial (suc n) i s h = compute_powers-serial n (suc i) _ h

  module _ (can_enable : Bool) (c : IsSendable p F P can_enable) where
    note_reset-Keeps : (i : ℕ) → Keeps p F P (note_reset i)
    unfolding note_reset
    note_reset-Keeps i s h =
        let time = ((s.moments s.readings).motor i).reset_time in
        elim (Bool-cases (time == (s.store.motors i).last_reset_time)) [
          | inl same ↦ rw same h
          | inr new ↦ rw new h
        ]

    send_noted_reset-Keeps : (i : ℕ) → Keeps p F P (send_noted_reset i)
    unfolding send_noted_reset
    send_noted_reset-Keeps i s h = elim (Bool-cases (s.store.motors i).do_reset) [
      | inl wanted ↦ simp wanted (send_encoder_reset_request-Keeps p F P can_enable c i s h)
      | inr unwanted ↦ simp unwanted h
    ]

    send_encoder_reset-Keeps : (i : ℕ) → Keeps p F P (send_encoder_reset i)
    unfolding send_encoder_reset
    send_encoder_reset-Keeps i =
        then-Keeps p F P (note_reset i) (send_noted_reset i) (note_reset-Keeps i)
          (send_noted_reset-Keeps i)

    send_pulse_width-Keeps : (i : ℕ) → Keeps p F P (send_pulse_width i)
    unfolding send_pulse_width
    send_pulse_width-Keeps i =
        reading-Keeps p F P (λ m. send_servo_pulse_width i (to_u16 (m.servo i).pulse_width))
          (λ m. send_servo_pulse_width-Keeps p F P can_enable c i (to_u16 (m.servo i).pulse_width))

    pub send_float_on_0-Keeps : (i : ℕ) → Keeps p F P (send_float_on_0 i)
    unfolding send_float_on_0
    send_float_on_0-Keeps i s h =
        let t = record s { readings = suc s.readings } in
        let g =
          get ((s.moments s.readings).motor i).float_on_0
            (s.store.motors i).float_on_0_subscriber in
        send_if-Keeps (send_motor_mode i) g.1
          (λ v sent. send_motor_mode-Keeps p F P can_enable c i v)
          (on_motor i (λ m. record m { float_on_0_subscriber = g.0 }) t) h

    send_enable-Keeps :
        (b : Bool) → (b ≡ true → can_enable ≡ true) → (i : ℕ) → Keeps p F P (send_enable b i)
    unfolding send_enable
    send_enable-Keeps b may i s h =
        let t = record s { readings = suc s.readings } in
        let g =
          get_with_can_enable b ((s.moments s.readings).motor i).enabled
            (s.store.motors i).enabled_subscriber in
        send_if-Keeps (send_motor_enable i) g.1
          (λ v sent.
            send_motor_enable-Keeps p F P can_enable c i v
              (λ on. may (get_with_can_enable-on b _ _ v sent on)))
          (on_motor i (λ m. record m { enabled_subscriber = g.0 }) t) h

    pub send_frame_period-Keeps : (i : ℕ) → Keeps p F P (send_frame_period i)
    unfolding send_frame_period
    send_frame_period-Keeps i s h =
        let t = record s { readings = suc s.readings } in
        let g =
          get ((s.moments s.readings).servo i).frame_period
            (s.store.servos i).frame_period_subscriber in
        send_if-Keeps (λ v. send_servo_configuration i (to_u16 v)) g.1
          (λ v sent. send_servo_configuration-Keeps p F P can_enable c i (to_u16 v))
          (on_servo i (λ v. record v { frame_period_subscriber = g.0 }) t) h

    send_servo_enabled-Keeps :
        (b : Bool) → (b ≡ true → can_enable ≡ true) → (i : ℕ) → Keeps p F P (send_servo_enabled b i)
    unfolding send_servo_enabled
    send_servo_enabled-Keeps b may i s h =
        let t = record s { readings = suc s.readings } in
        let g =
          get_with_can_enable b ((s.moments s.readings).servo i).enabled
            (s.store.servos i).enabled_subscriber in
        send_if-Keeps (send_servo_enable i) g.1
          (λ v sent.
            send_servo_enable-Keeps p F P can_enable c i v
              (λ on. may (get_with_can_enable-on b _ _ v sent on)))
          (on_servo i (λ v. record v { enabled_subscriber = g.0 }) t) h

-- `SendInitial` and `SendCommands` send a first packet, others, and flush: what the first packet brings
-- about, the others keep, and the flush brings to its end.
module _ (p : Platform) (F : Type 0) (B P Q : ExpansionHubSerial → List (Effect p) → Type 0)
    (can_enable : Bool) (c : IsSendable p F P can_enable) (last : Runs p F P Q flush) where
  abbrev each :
      (n : ℕ) (f : ℕ → Action p) → ((i : ℕ) → Keeps p F P (f i)) → Keeps p F P (for_each n f)
  each n f k = for_from-Keeps p F P n 0 f k

  pub send_initial-Runs : Runs p F B P send_keep_alive → Runs p F B Q send_initial
  unfolding send_initial
  send_initial-Runs first = then-Runs p F B P Q send_keep_alive _ first (
      then-Runs p F P P Q get_module_status _ (get_module_status-Keeps p F P can_enable c) (
        then-Runs p F P P Q (for_each num_motors_per_hub send_encoder_reset) _
          (each num_motors_per_hub send_encoder_reset (send_encoder_reset-Keeps p F P can_enable c))
          (then-Runs p F P P Q send_battery_request _
            (send_battery_request-Keeps p F P can_enable c)
            (then-Runs p F P P Q send_bulk_input _ (send_bulk_input-Keeps p F P can_enable c) (
              then-Runs p F P P Q (for_each num_servos_per_hub send_pulse_width) flush
                (each num_servos_per_hub send_pulse_width
                  (send_pulse_width-Keeps p F P can_enable c))
                last)))))

  pub send_powers-Runs :
      ((i : ℕ) (power : p.Double) → Runs p F B P (send_motor_constant_power i power))
      → Runs p F B P send_powers
  unfolding send_powers
  send_powers-Runs first s h =
      let (s', powers) = compute_powers num_motors_per_hub 0 s in
      then-Runs p F B P P (send_power powers 0) (for_from 3 1 (send_power powers))
        (unfold send_power in first 0 _)
        (for_from-Keeps p F P 3 1 (send_power powers)
          (λ i. unfold send_power in send_motor_constant_power-Keeps p F P can_enable c i _))
        s' (compute_powers-serial p F B num_motors_per_hub 0 s h)

  pub send_commands-Runs :
      ((i : ℕ) (power : p.Double) → Runs p F B P (send_motor_constant_power i power))
      → (b d : Bool) → (b ≡ true → can_enable ≡ true)
      → Runs p F B Q (send_commands b d)
  unfolding send_commands
  send_commands-Runs first b d may =
      then-Runs p F B B Q (if d then forget_settings else skip) _
        (if-Keeps p F B d forget_settings skip (forget_settings-Keeps p F B) (λ s h. h))
        (then-Runs p F B P Q send_powers _ (send_powers-Runs first) (
          then-Runs p F P P Q (for_each num_motors_per_hub send_motor_current_request) _
            (each num_motors_per_hub send_motor_current_request
              (send_motor_current_request-Keeps p F P can_enable c))
            (then-Runs p F P P Q (for_each num_motors_per_hub send_float_on_0) _
              (each num_motors_per_hub send_float_on_0 (send_float_on_0-Keeps p F P can_enable c))
              (then-Runs p F P P Q (for_each num_motors_per_hub (send_enable b)) _
                (each num_motors_per_hub (send_enable b)
                  (send_enable-Keeps p F P can_enable c b may))
                (then-Runs p F P P Q (for_each num_servos_per_hub send_frame_period) _
                  (each num_servos_per_hub send_frame_period
                    (send_frame_period-Keeps p F P can_enable c))
                  (then-Runs p F P P Q (for_each num_servos_per_hub (send_servo_enabled b)) flush
                    (each num_servos_per_hub (send_servo_enabled b)
                      (send_servo_enabled-Keeps p F P can_enable c b may))
                    last))))))

module _ (p : Platform) (F : Type 0) (P : ExpansionHubSerial → List (Effect p) → Type 0)
    (can_enable : Bool) (c : IsSendable p F P can_enable) where
  -- `SendInitial` ends on a link that can send.
  pub send_initial-Keeps : Keeps p F P send_initial
  send_initial-Keeps =
      send_initial-Runs p F P P P can_enable c c.flush_keeps
        (send_keep_alive-Keeps p F P can_enable c)

  -- So does `SendCommands`.
  pub send_commands-Keeps :
      (b d : Bool) → (b ≡ true → can_enable ≡ true) → Keeps p F P (send_commands b d)
  send_commands-Keeps =
      send_commands-Runs p F P P P can_enable c c.flush_keeps
        (send_motor_constant_power-Keeps p F P can_enable c)
