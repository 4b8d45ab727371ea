-- ===== src/Serial/Requests.antt =====
-- expansionhub/ExpansionHubSerial.cpp: the requests that a transaction sends.
use scservices.Prelude.{
  ℕ, ◌+◌, ◌/◌, ◌%◌, Bool, false, [], ◌∷◌, Bytes, leb, ◌==◌, if◌then◌else◌, to_u8, to_u16, pos,
  negsuc,
}
use scservices.Messages.{
  message_servo_enable_0, message_servo_configuration_0, message_servo_pulse_width_0,
  message_motor_enable_0, message_motor_reset_encoder_0, message_motor_set_run_mode_0,
  message_motor_set_constant_power_0, message_motor_get_current_0, message_bulk_input,
  message_module_status, message_keep_alive, message_battery_voltage, numbered,
}
use scservices.Packet.{module_status_id, keep_alive_id}
use scservices.Platform.{Platform}
use scservices.Serial.{Action, skip, with_address, with_interface}
use scservices.Serial.Output.{send_packet}

abbrev pub motor_0_adc : ℕ
motor_0_adc = 8

abbrev pub battery_adc : ℕ
battery_adc = 13

abbrev pub power_conversion : ℕ
power_conversion = 32767

abbrev pub flag : Bool → ℕ
flag b = if b then 1 else 0

-- The two bytes of a `uint16_t`, the lower first.
abbrev pub low_high : ℕ → Bytes
low_high v = v % 256 ∷ v / 256 % 256 ∷ []

-- `std::clamp(power, -1.0, 1.0)`.
unfoldable pub clamp_power : (p : Platform) → p.Double → p.Double
clamp_power p power =
    let low = p.of_int (negsuc 0) in
    let high = p.of_int (pos 1) in
    if p.less power low then low else if p.less high power then high else power

module _ {p : Platform} where
  -- A request of the interface `DEKA`: its packet id counts from the one that the hub has reported.
  abbrev pub request : ℕ → ℕ → Bytes → Action p
  request message offset pay = with_interface λ interface.
      with_address λ address. send_packet address message (to_u16 (interface + offset)) pay false

  unfoldable pub send_battery_request : Action p
  send_battery_request = request message_battery_voltage 7 (battery_adc ∷ 0 ∷ [])

  unfoldable pub send_motor_current_request : ℕ → Action p
  send_motor_current_request channel =
      request (numbered message_motor_get_current_0 channel) 7
        (to_u8 (motor_0_adc + channel) ∷ 0 ∷ [])

  unfoldable pub send_encoder_reset_request : ℕ → Action p
  send_encoder_reset_request channel =
      request (numbered message_motor_reset_encoder_0 channel) 14 (channel ∷ [])

  unfoldable pub send_servo_configuration : ℕ → ℕ → Action p
  send_servo_configuration channel frame_period =
      if leb frame_period 1
      then skip
      else request (numbered message_servo_configuration_0 channel) 31
          (channel ∷ low_high frame_period)

  unfoldable pub send_servo_pulse_width : ℕ → ℕ → Action p
  send_servo_pulse_width channel pulse_width =
      if pulse_width == 0
      then skip
      else request (numbered message_servo_pulse_width_0 channel) 33
          (channel ∷ low_high pulse_width)

  unfoldable pub send_servo_enable : ℕ → Bool → Action p
  send_servo_enable channel enable =
      request (numbered message_servo_enable_0 channel) 35 (channel ∷ flag enable ∷ [])

  -- `std::clamp` passes a NaN on, for which the pattern is the result of the `Platform`, where the source is
  -- undefined.
  unfoldable pub send_motor_constant_power : ℕ → p.Double → Action p
  send_motor_constant_power channel power =
      let adjusted = p.to_int16 (p.mul (clamp_power p power) (p.of_int (pos power_conversion))) in
      request (numbered message_motor_set_constant_power_0 channel) 15 (channel ∷ low_high adjusted)

  unfoldable pub send_motor_mode : ℕ → Bool → Action p
  send_motor_mode channel float_val =
      request (numbered message_motor_set_run_mode_0 channel) 8 (channel ∷ 0 ∷ flag float_val ∷ [])

  unfoldable pub send_motor_enable : ℕ → Bool → Action p
  send_motor_enable channel enable =
      request (numbered message_motor_enable_0 channel) 10 (channel ∷ flag enable ∷ [])

  unfoldable pub get_module_status : Action p
  get_module_status =
      with_address
        λ address. send_packet address message_module_status module_status_id (1 ∷ []) false

  unfoldable pub send_keep_alive : Action p
  send_keep_alive =
      with_address λ address. send_packet address message_keep_alive keep_alive_id [] false

  unfoldable pub send_bulk_input : Action p
  send_bulk_input = request message_bulk_input 0 []
