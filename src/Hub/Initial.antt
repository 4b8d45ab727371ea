-- ===== src/Hub/Initial.antt =====
-- expansionhub/main.cpp: the requests of `SendInitial`, as a list.
pub mod Queues
pub mod Resets
pub mod Built
pub mod Sent
use scservices.Prelude.{
  ℕ, zero, suc, ◌+◌, Bool, true, List, [], ◌∷◌, ◌++◌, Bytes, ◌==◌, if◌then◌else◌, to_u16,
}
use scservices.Messages.{
  message_servo_pulse_width_0, message_motor_reset_encoder_0, message_bulk_input,
  message_module_status, message_keep_alive, message_battery_voltage, numbered,
}
use scservices.Packet.{module_status_id, keep_alive_id, build_packet}
use scservices.Platform.{Platform, Moment}
use scservices.NtState.{ExpansionHubNtState, num_motors_per_hub, num_servos_per_hub}
use scservices.Serial.Requests.{battery_adc, low_high}

-- A request of the interface `i` to the hub `a`.
abbrev pub to_interface : ℕ → ℕ → ℕ → ℕ → Bytes → Bytes
to_interface a i message offset pay = build_packet a message (to_u16 (i + offset)) pay

abbrev pub keep_alive : ℕ → Bytes
keep_alive a = build_packet a message_keep_alive keep_alive_id []

abbrev pub module_status : ℕ → Bytes
module_status a = build_packet a message_module_status module_status_id (1 ∷ [])

abbrev pub battery : ℕ → ℕ → Bytes
battery a i = to_interface a i message_battery_voltage 7 (battery_adc ∷ 0 ∷ [])

abbrev pub bulk : ℕ → ℕ → Bytes
bulk a i = to_interface a i message_bulk_input 0 []

abbrev pub encoder_reset : ℕ → ℕ → ℕ → Bytes
encoder_reset a i channel =
    to_interface a i (numbered message_motor_reset_encoder_0 channel) 14 (channel ∷ [])

abbrev pub pulse_width : ℕ → ℕ → ℕ → ℕ → Bytes
pulse_width a i channel width =
    to_interface a i (numbered message_servo_pulse_width_0 channel) 33 (channel ∷ low_high width)

abbrev pub one_if : Bool → Bytes → List Bytes
one_if b packet = if b then packet ∷ [] else []

-- The encoder of a motor is reset if the time stamp of its topic is a new one, or a reset is noted.
abbrev pub asks_reset : {p : Platform} → ExpansionHubNtState p → Moment p → ℕ → Bool
asks_reset store m channel =
    if (m.motor channel).reset_time == (store.motors channel).last_reset_time
    then (store.motors channel).do_reset
    else true

module _ {p : Platform} (a i : ℕ) (moments : ℕ → Moment p) where
  -- The pulse widths of the servos, but for those of 0.
  abbrev pub pulse_widths : ℕ → ℕ → ℕ → List Bytes
  pulse_widths reading zero channel = []
  pulse_widths reading (suc n) channel =
      let width = to_u16 (((moments reading).servo channel).pulse_width) in
      (if width == 0 then [] else pulse_width a i channel width ∷ [])
      ++ pulse_widths (suc reading) n (suc channel)

module _ {p : Platform} (a i : ℕ) (store : ExpansionHubNtState p) (moments : ℕ → Moment p) where
  -- Those of the `n` motors from one on, at the readings from one on.
  abbrev pub encoder_resets : ℕ → ℕ → ℕ → List Bytes
  encoder_resets reading zero channel = []
  encoder_resets reading (suc n) channel =
      one_if (asks_reset store (moments reading) channel) (encoder_reset a i channel)
      ++ encoder_resets (suc reading) n (suc channel)

  -- All of them, from the reading that is next.
  abbrev pub initial_requests : ℕ → List Bytes
  initial_requests reading =
      keep_alive a ∷ module_status a ∷ encoder_resets reading num_motors_per_hub 0
      ++ battery a i
        ∷ bulk a i
        ∷ pulse_widths a i moments (num_motors_per_hub + reading) num_servos_per_hub 0
