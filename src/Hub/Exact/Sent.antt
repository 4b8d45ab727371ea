-- ===== src/Hub/Exact/Sent.antt =====
-- expansionhub/main.cpp: `SendCommands` puts exactly its requests into the queue, and flushes it.
use scservices.Prelude.{ℕ, ◌+◌, ◌≡◌, refl, ap, ◌∙◌, arith, Bool, some, if◌then◌else◌, ◌>>=◌}
use scservices.Platform.{Platform, Moment}
use scservices.NtState.{ExpansionHubNtState, num_motors_per_hub, num_servos_per_hub}
use scservices.Serial.{Session, Action, skip, ◌>=>◌}
use scservices.Serial.Output.{flush}
use scservices.Serial.Requests.{send_motor_current_request}
use scservices.Hub.{for_each}
use scservices.Hub.Commands.{
  compute_powers, send_powers, send_float_on_0, send_enable, send_frame_period, send_servo_enabled,
  forget_settings, send_commands,
}
use scservices.Hub.Initial.Queues.{Leads, then-Leads, end-Leads}
use scservices.Hub.Exact.{
  current_for, mode_for, enable_for, period_for, servo_enable_for, setting_requests,
  command_requests,
}
use scservices.Hub.Exact.Settings.{At, per_channel-Steps}
use scservices.Hub.Exact.Motors.{send_float_on_0-Steps, send_enable-Steps}
use scservices.Hub.Exact.Servos.{send_frame_period-Steps, send_servo_enabled-Steps}
use scservices.Hub.Exact.Powers.{reading-At, send_motor_current_request-Steps, send_powers-Queues}

module _ {p : Platform} where
  abbrev settings_sent : Bool → Action p
  settings_sent b =
      for_each num_motors_per_hub send_float_on_0
      >=> for_each num_motors_per_hub (send_enable b)
      >=> for_each num_servos_per_hub send_frame_period
      >=> for_each num_servos_per_hub (send_servo_enabled b)
      >=> flush

  abbrev commands_sent : Bool → Action p
  commands_sent b =
      send_powers >=> for_each num_motors_per_hub send_motor_current_request >=> settings_sent b

module _ {p : Platform} (a i : ℕ) (before : ExpansionHubNtState p) (moments : ℕ → Moment p) where
  -- The settings, and the flush.
  settings-Leads :
      (b : Bool) (r : ℕ) (s : Session p)
      → At a i before moments 0 0 0 0 r s
      → (store : ExpansionHubNtState p) × Leads flush 20
          (setting_requests a i before moments b r)
          store
          s
          (settings_sent b s)
  settings-Leads b r s h =
      let (store1, q1, h1) =
        per_channel-Steps 1 (mode_for a i before moments) send_float_on_0
          (λ c r. At a i before moments c 0 0 0 r) (send_float_on_0-Steps a i before moments 0 0 0)
          4 0 r s h in
      let (store2, q2, h2) =
        per_channel-Steps 1 (enable_for a i before moments b) (send_enable b)
          (λ c r. At a i before moments 4 c 0 0 r) (send_enable-Steps a i before moments b 4 0 0) 4
          0 (4 + r) q1.after
          (reading-At a i before moments 4 0 0 0 _ (4 + r) q1.after (omega arith) h1) in
      let (store3, q3, h3) =
        per_channel-Steps 1 (period_for a i before moments) send_frame_period
          (λ c r. At a i before moments 4 4 c 0 r)
          (send_frame_period-Steps a i before moments 4 4 0) 6 0 (8 + r) q2.after
          (reading-At a i before moments 4 4 0 0 _ (8 + r) q2.after (omega arith) h2) in
      let (store4, q4, h4) =
        per_channel-Steps 1 (servo_enable_for a i before moments b) (send_servo_enabled b)
          (λ c r. At a i before moments 4 4 6 c r)
          (send_servo_enabled-Steps a i before moments b 4 4 6) 6 0 (14 + r) q3.after
          (reading-At a i before moments 4 4 6 0 _ (14 + r) q3.after (omega arith) h3) in
      (
        store4,
        then-Leads flush 4 16 20 _ _ store1 store4 s (for_each num_motors_per_hub send_float_on_0) _
            q1
            (then-Leads flush 4 12 16 _ _ store2 store4 q1.after
              (for_each num_motors_per_hub (send_enable b)) _ q2
              (then-Leads flush 6 6 12 _ _ store3 store4 q2.after
                (for_each num_servos_per_hub send_frame_period) _ q3
                (end-Leads flush 6 _ store4 q3.after
                  (for_each num_servos_per_hub (send_servo_enabled b)) q4)
                (omega arith))
              (omega arith))
            (omega arith),
      )

  -- All behind the reset.
  commands-Leads :
      (b : Bool) (r : ℕ) (s : Session p)
      → At a i before moments 0 0 0 0 r s
      → (store : ExpansionHubNtState p) × Leads flush 24
          (command_requests a i before moments b (compute_powers num_motors_per_hub 0 s).1 (4 + r))
          store
          s
          (commands_sent b s)
  commands-Leads b r s h =
      let (store1, q1, h1) = send_powers-Queues a i before moments r s h in
      let (store2, q2, h2) =
        per_channel-Steps 0 (current_for a i) send_motor_current_request
          (λ c r'. At a i before moments 0 0 0 0 (4 + r))
          (send_motor_current_request-Steps a i before moments (4 + r)) 4 0 (4 + r) q1.after h1 in
      let (store3, rest) = settings-Leads b (4 + r) q2.after h2 in
      (
        store3,
        then-Leads flush 4 20 24 _ _ store1 store3 s send_powers _ q1
            (then-Leads flush 0 20 20 _ _ store2 store3 q1.after
              (for_each num_motors_per_hub send_motor_current_request) _ q2 rest (omega arith))
            (omega arith),
      )

module _ {p : Platform} where
  start-At :
      (a i : ℕ) (s : Session p)
      → s.serial.address ≡ some a
      → s.serial.packet_interface_id ≡ some i
      → At a i s.store s.moments 0 0 0 0 s.readings s
  start-At a i s known interface = record {
    address_is = known;
    interface_is = interface;
    moments_is = refl;
    readings_is = refl;
    same_from = record {
      same_mode = λ d k. refl;
      same_enable = λ d k. refl;
      same_period = λ d k. refl;
      same_servo_enable = λ d k. refl;
    };
  }

  -- `SendCommands` on a hub that is known, where `s'` is what the reset of the settings leaves if the device was
  -- reset, and `s` if it was not: it puts exactly these requests into the queue, in order, and flushes it. They
  -- are the power of each motor, as `computeMotorPower` and the motor that it follows have it, the request for
  -- the current of each motor, and then for each motor its stop mode, for each motor whether it is enabled, for
  -- each servo its frame period, and for each servo whether it is enabled. Of these settings each is sent
  -- exactly if the hub has not acknowledged its value, but a frame period only if it is greater than 1, and the
  -- enabled ones are false while the hub is not to be enabled.
  pub send_commands-Leads :
      (b d : Bool) (a i : ℕ) (s s' : Session p)
      → (if d then forget_settings else skip) s ≡ some s'
      → s'.serial.address ≡ some a
      → s'.serial.packet_interface_id ≡ some i
      → (store : ExpansionHubNtState p) × Leads flush 24
          (command_requests a i s'.store s'.moments b
            (compute_powers num_motors_per_hub 0 s').1
            (4 + s'.readings))
          store
          s'
          (send_commands b d s)
  unfolding send_commands
  send_commands-Leads b d a i s s' forgets known interface =
      let (store, q) =
        commands-Leads a i s'.store s'.moments b s'.readings s' (start-At a i s' known interface) in
      (
        store,
        record {
          after = q.after;
          ends = ap (λ m. m >>= commands_sent b) forgets ∙ q.ends;
          serial_is = q.serial_is;
          store_is = q.store_is;
          effects_are = q.effects_are;
          moments_are = q.moments_are;
          readings_are = q.readings_are;
        },
      )
