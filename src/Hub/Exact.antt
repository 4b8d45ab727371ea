-- ===== src/Hub/Exact.antt =====
-- expansionhub/main.cpp: the requests of `SendCommands`, as a list.
pub mod Settings
mod Cached
mod Motors
mod Servos
mod Powers
pub mod Sent
use scservices.Prelude.{
  ℕ, zero, suc, ◌+◌, Bool, true, false, List, [], ◌∷◌, ◌++◌, Bytes, leb, if◌then◌else◌, to_u8,
  to_u16, pos, Eq, bool_eq, nat_eq,
}
use scservices.Messages.{
  message_servo_enable_0, message_servo_configuration_0, message_motor_enable_0,
  message_motor_set_run_mode_0, message_motor_set_constant_power_0, message_motor_get_current_0,
  numbered,
}
use scservices.CachedCommand.{CachedCommand, is_acked}
use scservices.Platform.{Platform, Moment}
use scservices.NtState.{ExpansionHubNtState, num_motors_per_hub, num_servos_per_hub}
use scservices.Serial.Requests.{motor_0_adc, power_conversion, flag, low_high, clamp_power}
use scservices.Hub.Commands.{Power, power_at, chosen_power}
use scservices.Hub.Initial.{to_interface}

abbrev pub constant_power : (p : Platform) → ℕ → ℕ → ℕ → p.Double → Bytes
constant_power p a i channel power =
    to_interface a i (numbered message_motor_set_constant_power_0 channel) 15 (
      channel
      ∷ low_high (p.to_int16 (p.mul (clamp_power p power) (p.of_int (pos power_conversion)))))

abbrev pub motor_current : ℕ → ℕ → ℕ → Bytes
motor_current a i channel =
    to_interface a i (numbered message_motor_get_current_0 channel) 7
      (to_u8 (motor_0_adc + channel) ∷ 0 ∷ [])

abbrev pub run_mode : ℕ → ℕ → ℕ → Bool → Bytes
run_mode a i channel float_val =
    to_interface a i (numbered message_motor_set_run_mode_0 channel) 8
      (channel ∷ 0 ∷ flag float_val ∷ [])

abbrev pub motor_enable : ℕ → ℕ → ℕ → Bool → Bytes
motor_enable a i channel enable =
    to_interface a i (numbered message_motor_enable_0 channel) 10 (channel ∷ flag enable ∷ [])

abbrev pub servo_configuration : ℕ → ℕ → ℕ → ℕ → List Bytes
servo_configuration a i channel frame_period =
    if leb frame_period 1
    then []
    else to_interface a i (numbered message_servo_configuration_0 channel) 31
        (channel ∷ low_high frame_period)
      ∷ []

abbrev pub servo_enable : ℕ → ℕ → ℕ → Bool → Bytes
servo_enable a i channel enable =
    to_interface a i (numbered message_servo_enable_0 channel) 35 (channel ∷ flag enable ∷ [])

-- A setting is sent unless the hub has acknowledged its value.
abbrev pub unless_acked : {V : Type 0} ⦃e : Eq V⦄ → V → CachedCommand V → List Bytes → List Bytes
unless_acked value c packets = if is_acked value c.last_acked_value then [] else packets

-- What each of `n` channels wants from one on, at one reading after the other.
abbrev pub per_channel : (ℕ → ℕ → List Bytes) → ℕ → ℕ → ℕ → List Bytes
per_channel want reading zero channel = []
per_channel want reading (suc n) channel =
    want channel reading ++ per_channel want (suc reading) n (suc channel)

abbrev pub power_for : (p : Platform) → ℕ → ℕ → List (Power p) → ℕ → ℕ → List Bytes
power_for p a i powers channel reading =
    constant_power p a i channel (chosen_power p powers (power_at p powers channel)) ∷ []

abbrev pub current_for : ℕ → ℕ → ℕ → ℕ → List Bytes
current_for a i channel reading = motor_current a i channel ∷ []

module _ {p : Platform} (a i : ℕ) (store : ExpansionHubNtState p) (moments : ℕ → Moment p) where
  abbrev pub mode_for : ℕ → ℕ → List Bytes
  mode_for channel reading =
      let value = ((moments reading).motor channel).float_on_0 in
      unless_acked value (store.motors channel).float_on_0_subscriber
        (run_mode a i channel value ∷ [])

  -- A disabled hub is told to disable, whatever its topics say.
  abbrev pub enable_for : Bool → ℕ → ℕ → List Bytes
  enable_for can_enable channel reading =
      let value = if can_enable then ((moments reading).motor channel).enabled else false in
      unless_acked value (store.motors channel).enabled_subscriber
        (motor_enable a i channel value ∷ [])

  abbrev pub period_for : ℕ → ℕ → List Bytes
  period_for channel reading =
      let value = ((moments reading).servo channel).frame_period in
      unless_acked value (store.servos channel).frame_period_subscriber
        (servo_configuration a i channel (to_u16 value))

  abbrev pub servo_enable_for : Bool → ℕ → ℕ → List Bytes
  servo_enable_for can_enable channel reading =
      let value = if can_enable then ((moments reading).servo channel).enabled else false in
      unless_acked value (store.servos channel).enabled_subscriber
        (servo_enable a i channel value ∷ [])

  -- The settings, from the reading that is next once the powers are computed.
  abbrev pub setting_requests : Bool → ℕ → List Bytes
  setting_requests can_enable reading =
      per_channel mode_for reading num_motors_per_hub 0
      ++ (per_channel (enable_for can_enable) (4 + reading) num_motors_per_hub 0
          ++ (per_channel period_for (8 + reading) num_servos_per_hub 0
              ++ per_channel (servo_enable_for can_enable) (14 + reading) num_servos_per_hub 0))

  -- All of them.
  abbrev pub command_requests : Bool → List (Power p) → ℕ → List Bytes
  command_requests can_enable powers reading =
      per_channel (power_for p a i powers) reading num_motors_per_hub 0
      ++ (per_channel (current_for a i) reading num_motors_per_hub 0
          ++ setting_requests can_enable reading)
