-- ===== src/Tests.antt =====
-- Test data: a platform whose doubles are integers and whose controllers do nothing, a link and a bus.
pub mod Wire
pub mod Link
pub mod Daemon
pub mod Services
pub mod Transactions
pub mod Frames
pub mod Plugged
pub mod Answered
pub mod Disabled
use scservices.Prelude.{
  ℕ, ◌+◌, ◌*◌, ℤ, pos, negsuc, Bool, true, false, none, some, [], ◌∷◌, to_u16, ◌==◌,
}
use scservices.Platform.{Platform, Gains, MotorTopics, ServoTopics, Moment}
use scservices.NtState.{MotorNtState, ServoNtState, ExpansionHubNtState}
use scservices.CachedCommand.{CachedCommand}
use scservices.Serial.{ExpansionHubSerial, new_serial, Session}
use scservices.Hub.{ExpansionHubState}

abbrev same_int : ℤ → ℤ → Bool
same_int (pos m) (pos n) = m == n
same_int (negsuc m) (negsuc n) = m == n
same_int _ _ = false

abbrev pub toy : Platform
toy = record {
  Double = ℤ;
  of_int = λ x. x;
  add = λ x y. x;
  mul = λ x y. x;
  div = λ x y. x;
  eqb = same_int;
  less = λ x y. false;
  to_int = λ x. x;
  to_int16 = λ x. 0;
  PidController = Unit;
  new_pid = tt;
  set_pid = λ kp ki kd c. c;
  enable_continuous_input = λ low high c. c;
  disable_continuous_input = λ c. c;
  calculate = λ c measurement setpoint. (c, setpoint);
  FeedForward = Unit;
  new_feed_forward = tt;
  set_ks = λ k f. f;
  set_kv = λ k f. f;
  set_ka = λ k f. f;
  calculate_feed_forward = λ f velocity. velocity;
}

abbrev zeros : Gains toy
zeros = record {
  kp = pos 0;
  ki = pos 0;
  kd = pos 0;
  ks = pos 0;
  kv = pos 0;
  ka = pos 0;
  continuous = false;
  continuous_minimum = pos 0;
  continuous_maximum = pos 0;
}

abbrev pub stopped : MotorTopics toy
stopped = record {
  enabled = false;
  float_on_0 = false;
  mode = 0;
  setpoint = pos 0;
  reversed = false;
  distance_per_count = pos 0;
  reset_time = 0;
  position_gains = zeros;
  velocity_gains = zeros;
}

-- One reading per second, with nothing enabled.
abbrev pub moment : ℕ → Moment toy
moment i = record {
  now = (i + 2) * 1000000;
  motor = λ channel. stopped;
  servo = λ channel. record { enabled = false; pulse_width = 1500; frame_period = 20000 };
}

abbrev pub unset : {V : Type 0} → V → CachedCommand V
unset v = record { last_acked_value = none; last_attempted_value = v }

abbrev pub new_motor : MotorNtState toy
new_motor = record {
  enabled_subscriber = unset false;
  float_on_0_subscriber = unset false;
  position_pid = record { pid_controller = tt; feed_forward = tt };
  velocity_pid = record { pid_controller = tt; feed_forward = tt };
  do_reset = false;
  last_reset_time = 0;
  last_encoder_position = pos 0;
  last_encoder_velocity = pos 0;
}

abbrev pub new_store : ExpansionHubNtState toy
new_store = record {
  motors = λ channel. new_motor;
  servos =
      λ channel. record { enabled_subscriber = unset false; frame_period_subscriber = unset 0 };
  last_battery = pos 0;
  is_connected_publisher = false;
  num_nacks = 0;
  num_crc_failures = 0;
  num_missed_send_loops = 0;
}

abbrev pub session_of : ExpansionHubSerial → Session toy
session_of serial = record {
  serial = serial;
  store = new_store;
  moments = moment;
  readings = 0;
  effects = [];
}

-- A link that is past the handshake: the hub has address 2 and interface 4096.
abbrev pub configured : ExpansionHubSerial
configured = record new_serial {
  has_callbacks = true;
  serial_fd = some 5;
  address = some 2;
  packet_interface_id = some 4096;
  configured_ftdi_reset = true;
}

abbrev pub bus_of : ExpansionHubSerial → ExpansionHubState toy
bus_of serial = record {
  last_loop = 0;
  nt_store = new_store;
  bus_id = 0;
  topics = [];
  current_hub = some serial;
  moments = moment;
  readings = 0;
  effects = [];
}
