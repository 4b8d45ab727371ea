-- ===== src/NtState.antt =====
-- expansionhub/PidConstants.{h,cpp}, MotorNtState.{h,cpp}, ServoNtState.h and ExpansionHubNtState.h: what the
-- daemon keeps for each motor and servo, and its arithmetic. Subscribers are read from `Platform.Moment`.
use scservices.Prelude.{ℕ, Bool, ◌==◌, if◌then◌else◌, ℤ, pos, negsuc}
use scservices.CachedCommand.{CachedCommand}
use scservices.Platform.{Platform, Gains, MotorTopics}

pub record PidConstants (p : Platform) : Type 0 where
  pub pid_controller : p.PidController
  pub feed_forward : p.FeedForward

pub record MotorNtState (p : Platform) : Type 0 where
  pub enabled_subscriber : CachedCommand Bool
  pub float_on_0_subscriber : CachedCommand Bool
  pub position_pid : PidConstants p
  pub velocity_pid : PidConstants p
  pub do_reset : Bool
  pub last_reset_time : ℕ
  pub last_encoder_position : p.Double
  pub last_encoder_velocity : p.Double

pub record ServoNtState : Type 0 where
  pub enabled_subscriber : CachedCommand Bool
  pub frame_period_subscriber : CachedCommand ℕ

-- The arrays as functions of the channel: four motors and six servos. `is_connected_publisher` is
-- whether that publisher has been made.
pub record ExpansionHubNtState (p : Platform) : Type 0 where
  pub motors : ℕ → MotorNtState p
  pub servos : ℕ → ServoNtState
  pub last_battery : p.Double
  pub is_connected_publisher : Bool
  pub num_nacks : ℕ
  pub num_crc_failures : ℕ
  pub num_missed_send_loops : ℕ

abbrev pub num_motors_per_hub : ℕ
num_motors_per_hub = 4

abbrev pub num_servos_per_hub : ℕ
num_servos_per_hub = 6

abbrev pub percentage_mode : ℕ
percentage_mode = 0

abbrev pub voltage_mode : ℕ
voltage_mode = 1

abbrev pub position_pid_mode : ℕ
position_pid_mode = 2

abbrev pub velocity_pid_mode : ℕ
velocity_pid_mode = 3

abbrev pub follower_mode : ℕ
follower_mode = 4

-- An array with one element replaced.
abbrev pub update {ℓ} : {A : Type ℓ} → (ℕ → A) → ℕ → A → ℕ → A
update f i v j = if i == j then v else f j

abbrev pub zero_double : (p : Platform) → p.Double
zero_double p = p.of_int (pos 0)

module _ {p : Platform} where
  -- `PidConstants::Compute`.
  unfoldable pub compute :
      Gains p → PidConstants p → p.Double → p.Double → PidConstants p × p.Double
  compute g c setpoint measurement =
      let gained = p.set_pid g.kp g.ki g.kd c.pid_controller in
      let ready =
        if g.continuous
        then p.enable_continuous_input g.continuous_minimum g.continuous_maximum gained
        else p.disable_continuous_input gained in
      let forward = p.set_ka g.ka (p.set_kv g.kv (p.set_ks g.ks c.feed_forward)) in
      let (controller, output) = p.calculate ready measurement setpoint in
      (
        record { pid_controller = controller; feed_forward = forward },
        p.add (p.calculate_feed_forward forward setpoint) output,
      )

  -- `reversedSubscriber.Get(false) ? -1.0 : 1.0`
  abbrev pub direction : MotorTopics p → p.Double
  direction t = if t.reversed then p.of_int (negsuc 0) else p.of_int (pos 1)

  -- `MotorNtState::SetEncoder`, up to its two publications.
  unfoldable pub set_encoder : MotorTopics p → p.Double → p.Double → MotorNtState p → MotorNtState p
  set_encoder t position_raw velocity_raw m =
      let distance_per_count =
        if p.eqb t.distance_per_count (zero_double p)
        then p.of_int (pos 1)
        else t.distance_per_count in
      record m {
        last_encoder_position = p.mul (p.mul position_raw (direction t)) distance_per_count;
        last_encoder_velocity = p.mul (p.mul velocity_raw (direction t)) distance_per_count;
      }

  -- `MotorNtState::ComputeMotorPower`: the power, and the motor to follow or -1. For a setpoint that does not fit
  -- `int` the motor to follow is the result of the `Platform`, where the source is undefined.
  unfoldable pub compute_motor_power :
      MotorTopics p → p.Double → MotorNtState p → MotorNtState p × p.Double × ℤ
  unfolding compute
  compute_motor_power t battery_voltage m =
      if p.eqb battery_voltage (zero_double p)
      then (m, zero_double p, negsuc 0)
      else if t.mode == voltage_mode
      then (m, p.mul (p.div t.setpoint battery_voltage) (direction t), negsuc 0)
      else if t.mode == position_pid_mode
      then (let (pid, volts) =
            compute t.position_gains m.position_pid t.setpoint m.last_encoder_position in
          (
            record m { position_pid = pid },
            p.mul (p.div volts battery_voltage) (direction t),
            negsuc 0,
          ))
      else if t.mode == velocity_pid_mode
      then (let (pid, volts) =
            compute t.velocity_gains m.velocity_pid t.setpoint m.last_encoder_velocity in
          (
            record m { velocity_pid = pid },
            p.mul (p.div volts battery_voltage) (direction t),
            negsuc 0,
          ))
      else if t.mode == follower_mode
      then (m, zero_double p, p.to_int t.setpoint)
      else (m, p.mul t.setpoint (direction t), negsuc 0)
