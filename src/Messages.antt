-- ===== src/Messages.antt =====
-- expansionhub/MessageNumbers.h: the reference numbers of requests and replies, and the kinds of reply
-- that `ExpansionHubSerial::HandlePayload` tells apart by them.
use scservices.Prelude.{
  true, false, refl, ℕ, Bool, ◌+◌, ◌-◌, ◌<◌, ◌≡◌, ◌&&◌, arith, ltb, leb, ◌==◌, if◌then◌else◌, to_u8,
}

-- The enumerators; of a family over channels the first, from which the code counts on.
abbrev pub message_unknown : ℕ
message_unknown = 0

abbrev pub message_discover : ℕ
message_discover = 0

abbrev pub message_ftdi_reset_control : ℕ
message_ftdi_reset_control = 1

abbrev pub message_query_interface : ℕ
message_query_interface = 2

abbrev pub message_servo_enable_0 : ℕ
message_servo_enable_0 = 3

abbrev pub message_servo_configuration_0 : ℕ
message_servo_configuration_0 = 9

abbrev pub message_servo_pulse_width_0 : ℕ
message_servo_pulse_width_0 = 15

abbrev pub message_motor_enable_0 : ℕ
message_motor_enable_0 = 21

abbrev pub message_motor_reset_encoder_0 : ℕ
message_motor_reset_encoder_0 = 25

abbrev pub message_motor_set_run_mode_0 : ℕ
message_motor_set_run_mode_0 = 29

abbrev pub message_motor_set_constant_power_0 : ℕ
message_motor_set_constant_power_0 = 33

abbrev pub message_motor_get_current_0 : ℕ
message_motor_get_current_0 = 37

abbrev pub message_bulk_input : ℕ
message_bulk_input = 41

abbrev pub message_module_status : ℕ
message_module_status = 42

abbrev pub message_keep_alive : ℕ
message_keep_alive = 43

abbrev pub message_battery_voltage : ℕ
message_battery_voltage = 44

-- The cases of the switch in `HandlePayload`, each with its channel.
pub data Reply : Type 0 where
  servo_enable servo_configuration : ℕ → Reply
  motor_enable motor_reset_encoder motor_set_run_mode motor_get_current : ℕ → Reply
  bulk_input module_status battery_voltage other : Reply

-- Is `n` one of the `count` numbers from `first` on?
abbrev in_family : ℕ → ℕ → ℕ → Bool
in_family first count n = leb first n && ltb n (first + count)

-- The case that the switch takes for a reference number.
unfoldable pub classify : ℕ → Reply
classify n =
    if in_family message_servo_enable_0 6 n
    then servo_enable (n - message_servo_enable_0)
    else if in_family message_servo_configuration_0 6 n
    then servo_configuration (n - message_servo_configuration_0)
    else if in_family message_motor_enable_0 4 n
    then motor_enable (n - message_motor_enable_0)
    else if in_family message_motor_reset_encoder_0 4 n
    then motor_reset_encoder (n - message_motor_reset_encoder_0)
    else if in_family message_motor_set_run_mode_0 4 n
    then motor_set_run_mode (n - message_motor_set_run_mode_0)
    else if in_family message_motor_get_current_0 4 n
    then motor_get_current (n - message_motor_get_current_0)
    else if n == message_bulk_input
    then bulk_input
    else if n == message_module_status
    then module_status
    else if n == message_battery_voltage
    then battery_voltage
    else other

-- A reply with the current of a motor is for one of the motors.
abbrev pub ForMotor : Reply → Type 0
ForMotor (motor_get_current i) = i < 4
ForMotor _ = Unit

pub classify-ForMotor : (n : ℕ) → ForMotor (classify n)
unfolding classify
classify-ForMotor n =
    either (in_family message_servo_enable_0 6 n) _ _ (λ e. tt)
      (either (in_family message_servo_configuration_0 6 n) _ _ (λ e. tt)
        (either (in_family message_motor_enable_0 4 n) _ _ (λ e. tt)
          (either (in_family message_motor_reset_encoder_0 4 n) _ _ (λ e. tt)
            (either (in_family message_motor_set_run_mode_0 4 n) _ _ (λ e. tt)
              (either (in_family message_motor_get_current_0 4 n) _ _ (λ e. ground arith)
                (either (n == message_bulk_input) _ _ (λ e. tt)
                  (either (n == message_module_status) _ _ (λ e. tt)
                    (either (n == message_battery_voltage) _ _ (λ e. tt) tt))))))))
  where
    either :
        (b : Bool) (r r' : Reply)
        → (b ≡ true → ForMotor r)
        → ForMotor r'
        → ForMotor (if b then r else r')
    either true r r' k h = k refl
    either false r r' k h = h

-- `MESSAGE_X_0 + channel`, as the `uint8_t` that `SendPacket` takes.
abbrev pub numbered : ℕ → ℕ → ℕ
numbered first channel = to_u8 (first + channel)

-- The reply to the request that was numbered for one of the four motors is taken for that motor, for
-- each of the four kinds of request with one; so for one of the six servos and its two kinds.
pub classify-numbered :
    (i j : ℕ)
    → i < 4
    → j < 6
    → (classify (numbered message_motor_enable_0 i) ≡ motor_enable i)
      × (classify (numbered message_motor_reset_encoder_0 i) ≡ motor_reset_encoder i)
      × (classify (numbered message_motor_set_run_mode_0 i) ≡ motor_set_run_mode i)
      × (classify (numbered message_motor_get_current_0 i) ≡ motor_get_current i)
      × (classify (numbered message_servo_enable_0 j) ≡ servo_enable j)
      × (classify (numbered message_servo_configuration_0 j) ≡ servo_configuration j)
unfolding classify
classify-numbered i j h k = ground arith
