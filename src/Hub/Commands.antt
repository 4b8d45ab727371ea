-- ===== src/Hub/Commands.antt =====
-- expansionhub/main.cpp: `SendInitial` and `SendCommands`, the two halves of a transaction.
use scservices.Prelude.{
  nat_eq, bool_eq, ℕ, zero, suc, Bool, true, Option, none, some, List, [], ◌∷◌, ltb, ◌==◌, get_or,
  if◌then◌else◌, to_u16, ℤ, pos, negsuc,
}
use scservices.CachedCommand.{force_reset, get, get_with_can_enable}
use scservices.Platform.{Platform}
use scservices.NtState.{num_motors_per_hub, num_servos_per_hub, zero_double, compute_motor_power}
use scservices.Serial.{Session, Action, skip, reading, ◌>=>◌}
use scservices.Serial.Output.{flush}
use scservices.Serial.Reply.{on_motor, on_servo}
use scservices.Serial.Requests.{
  send_battery_request, send_motor_current_request, send_encoder_reset_request,
  send_servo_configuration, send_servo_pulse_width, send_servo_enable, send_motor_constant_power,
  send_motor_mode, send_motor_enable, get_module_status, send_keep_alive, send_bulk_input,
}
use scservices.Hub.{for_each}

abbrev pub send_if : {A : Type 0} {p : Platform} → (A → Action p) → Option A → Action p
send_if send none = skip
send_if send (some value) = send value

module _ {p : Platform} where
  -- A new time stamp of the topic asks for a reset, which is then sent until it is acknowledged.
  unfoldable pub note_reset : ℕ → Action p
  note_reset i = reading λ moment s.
      let time = (moment.motor i).reset_time in
      some (
        if time == (s.store.motors i).last_reset_time
        then s
        else on_motor i (λ m. record m { last_reset_time = time; do_reset = true }) s)

  unfoldable pub send_noted_reset : ℕ → Action p
  send_noted_reset i s =
      if (s.store.motors i).do_reset then send_encoder_reset_request i s else some s

  unfoldable pub send_encoder_reset : ℕ → Action p
  unfolding note_reset send_noted_reset
  send_encoder_reset i = note_reset i >=> send_noted_reset i

  unfoldable pub send_pulse_width : ℕ → Action p
  send_pulse_width i =
      reading λ moment. send_servo_pulse_width i (to_u16 (moment.servo i).pulse_width)

  unfoldable pub send_initial : Action p
  unfolding send_encoder_reset send_pulse_width
  send_initial =
      send_keep_alive
      >=> get_module_status
      >=> for_each num_motors_per_hub send_encoder_reset
      >=> send_battery_request
      >=> send_bulk_input
      >=> for_each num_servos_per_hub send_pulse_width
      >=> flush

  -- `ForceReset` on the settings of a motor, and of a servo.
  unfoldable pub forget_motor : ℕ → Action p
  unfolding force_reset
  forget_motor i s = some (
      on_motor i
        (λ m. record m {
          enabled_subscriber = force_reset m.enabled_subscriber;
          float_on_0_subscriber = force_reset m.float_on_0_subscriber;
        })
        s)

  unfoldable pub forget_servo : ℕ → Action p
  unfolding force_reset
  forget_servo i s = some (
      on_servo i
        (λ v. record v {
          enabled_subscriber = force_reset v.enabled_subscriber;
          frame_period_subscriber = force_reset v.frame_period_subscriber;
        })
        s)

  unfoldable pub forget_settings : Action p
  unfolding forget_motor forget_servo
  forget_settings =
      for_each num_motors_per_hub forget_motor >=> for_each num_servos_per_hub forget_servo

-- The power for a motor, and the motor that it follows or a negative number.
abbrev pub Power : Platform → Type 0
Power p = p.Double × ℤ

abbrev pub power_at : (p : Platform) → List (Power p) → ℕ → Power p
power_at p powers i = get_or powers i (zero_double p, negsuc 0)

-- The power that is sent to a motor.
abbrev pub chosen_power : (p : Platform) → List (Power p) → Power p → p.Double
chosen_power p powers (own, negsuc n) = own
chosen_power p powers (own, pos k) = if ltb k 4 then (power_at p powers k).0 else zero_double p

module _ {p : Platform} where
  -- `motorPowers`, of the channels from `i` on.
  unfoldable pub compute_powers : ℕ → ℕ → Session p → Session p × List (Power p)
  unfolding compute_motor_power
  compute_powers zero i s = (s, [])
  compute_powers (suc n) i s =
      let topics = (s.moments s.readings).motor i in
      let (m, value, followed) =
        compute_motor_power topics s.store.last_battery (s.store.motors i) in
      let (s', powers) =
        compute_powers n (suc i) (on_motor i (λ _. m) (record s { readings = suc s.readings })) in
      (s', (value, followed) ∷ powers)

  unfoldable pub send_power : List (Power p) → ℕ → Action p
  send_power powers i = send_motor_constant_power i (chosen_power p powers (power_at p powers i))

  unfoldable pub send_powers : Action p
  unfolding compute_powers send_power
  send_powers s =
      let (s', powers) = compute_powers num_motors_per_hub 0 s in
      for_each num_motors_per_hub (send_power powers) s'

  unfoldable pub send_float_on_0 : ℕ → Action p
  unfolding get
  send_float_on_0 i = reading λ moment s.
      let (c, send) = get (moment.motor i).float_on_0 (s.store.motors i).float_on_0_subscriber in
      send_if (send_motor_mode i) send (on_motor i (λ m. record m { float_on_0_subscriber = c }) s)

  unfoldable pub send_enable : Bool → ℕ → Action p
  unfolding get_with_can_enable
  send_enable can_enable i = reading λ moment s.
      let (c, send) =
        get_with_can_enable can_enable (moment.motor i).enabled
          (s.store.motors i).enabled_subscriber in
      send_if (send_motor_enable i) send (on_motor i (λ m. record m { enabled_subscriber = c }) s)

  unfoldable pub send_frame_period : ℕ → Action p
  unfolding get
  send_frame_period i = reading λ moment s.
      let (c, send) =
        get (moment.servo i).frame_period (s.store.servos i).frame_period_subscriber in
      send_if (λ v. send_servo_configuration i (to_u16 v)) send
        (on_servo i (λ v. record v { frame_period_subscriber = c }) s)

  unfoldable pub send_servo_enabled : Bool → ℕ → Action p
  unfolding get_with_can_enable
  send_servo_enabled can_enable i = reading λ moment s.
      let (c, send) =
        get_with_can_enable can_enable (moment.servo i).enabled
          (s.store.servos i).enabled_subscriber in
      send_if (send_servo_enable i) send (on_servo i (λ v. record v { enabled_subscriber = c }) s)

  unfoldable pub send_commands : Bool → Bool → Action p
  unfolding forget_settings send_powers send_float_on_0 send_enable send_frame_period
      send_servo_enabled
  send_commands can_enable device_reset =
      (if device_reset then forget_settings else skip)
      >=> send_powers
      >=> for_each num_motors_per_hub send_motor_current_request
      >=> for_each num_motors_per_hub send_float_on_0
      >=> for_each num_motors_per_hub (send_enable can_enable)
      >=> for_each num_servos_per_hub send_frame_period
      >=> for_each num_servos_per_hub (send_servo_enabled can_enable)
      >=> flush
