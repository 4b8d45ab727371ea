-- ===== src/Platform.antt =====
-- What the expansion hub daemon takes from elsewhere: `double`, the controllers of wpimath, and what the
-- clock and the NetworkTables subscribers hold at each moment at which the code reads them.
use scservices.Prelude.{ℕ, Bool, ℤ}

-- `double` with the operations that the code uses, and the two controllers of wpimath.
pub record Platform : Type 1 where
  pub Double : Type 0
  pub of_int : ℤ → Double
  pub add : Double → Double → Double
  pub mul : Double → Double → Double
  pub div : Double → Double → Double
  pub eqb : Double → Double → Bool
  pub less : Double → Double → Bool
  -- `static_cast<int>`, and `(int16_t)` as a 16-bit pattern: any result where the value does not fit, for which
  -- C++ leaves the conversion undefined.
  pub to_int : Double → ℤ
  pub to_int16 : Double → ℕ
  -- `wpi::math::PIDController`: `SetPID`, `EnableContinuousInput`, `DisableContinuousInput`, and
  -- `Calculate(measurement, setpoint)`.
  pub PidController : Type 0
  pub new_pid : PidController
  pub set_pid : Double → Double → Double → PidController → PidController
  pub enable_continuous_input : Double → Double → PidController → PidController
  pub disable_continuous_input : PidController → PidController
  pub calculate : PidController → Double → Double → PidController × Double
  -- `wpi::math::SimpleMotorFeedforward`: `SetKs`, `SetKv`, `SetKa` and `Calculate(velocity)`.
  pub FeedForward : Type 0
  pub new_feed_forward : FeedForward
  pub set_ks : Double → FeedForward → FeedForward
  pub set_kv : Double → FeedForward → FeedForward
  pub set_ka : Double → FeedForward → FeedForward
  pub calculate_feed_forward : FeedForward → Double → Double

-- The subscribers of one `PidConstants`.
pub record Gains (p : Platform) : Type 0 where
  pub kp : p.Double
  pub ki : p.Double
  pub kd : p.Double
  pub ks : p.Double
  pub kv : p.Double
  pub ka : p.Double
  pub continuous : Bool
  pub continuous_minimum : p.Double
  pub continuous_maximum : p.Double

-- The subscribers of one `MotorNtState`. An `int64_t` is its 64-bit pattern.
pub record MotorTopics (p : Platform) : Type 0 where
  pub enabled : Bool
  pub float_on_0 : Bool
  pub mode : ℕ
  pub setpoint : p.Double
  pub reversed : Bool
  pub distance_per_count : p.Double
  -- the time stamp of `resetEncoderSubscriber.GetAtomic(false)`
  pub reset_time : ℕ
  pub position_gains : Gains p
  pub velocity_gains : Gains p

-- The subscribers of one `ServoNtState`.
pub record ServoTopics : Type 0 where
  pub enabled : Bool
  pub pulse_width : ℕ
  pub frame_period : ℕ

-- One moment: `wpi::util::Now()` in microseconds, and the subscribers by channel.
pub record Moment (p : Platform) : Type 0 where
  pub now : ℕ
  pub motor : ℕ → MotorTopics p
  pub servo : ℕ → ServoTopics
