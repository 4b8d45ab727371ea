-- ===== src/Serial/Typed.antt =====
-- expansionhub/ExpansionHubNtState.h and MotorNtState.h: the publishers by the type of their values.
use scservices.Prelude.{◌<◌, ◌≡◌}
use scservices.NtState.{num_motors_per_hub}
use scservices.Topics.{Kind, boolean, integer, double}
use scservices.Serial.{
  Topic, transaction_time, battery_voltage, is_connected, num_nacks, num_crc_failures,
  num_missed_send_loops, encoder, velocity, current,
}

-- The type of a publisher's values.
abbrev pub kind_of : Topic → Kind
kind_of transaction_time = integer
kind_of battery_voltage = double
kind_of is_connected = boolean
kind_of num_nacks = integer
kind_of num_crc_failures = integer
kind_of num_missed_send_loops = integer
kind_of (encoder i) = double
kind_of (velocity i) = double
kind_of (current i) = double

-- A publisher of a motor is one of the four motors'.
abbrev pub HasMotor : Topic → Type 0
HasMotor (encoder i) = i < num_motors_per_hub
HasMotor (velocity i) = i < num_motors_per_hub
HasMotor (current i) = i < num_motors_per_hub
HasMotor _ = Unit

-- There is such a publisher, for values of this type.
abbrev pub IsTyped : Kind → Topic → Type 0
IsTyped kind topic = (kind ≡ kind_of topic) × HasMotor topic
