-- ===== src/Serial.antt =====
-- expansionhub/ExpansionHubSerial.h: the state of one serial link, what a handler sees beside it, and how
-- handlers are put together.
pub mod Bulk
pub mod Output
pub mod Requests
pub mod Handshake
pub mod Reply
pub mod Payload
pub mod Lifetime
pub mod Disposal
pub mod Keeps
pub mod Queue
pub mod Sending
pub mod Steps
pub mod Advance
pub mod Events
pub mod Frames
pub mod Connect
pub mod Flow
pub mod Typed
pub mod Whole
use scservices.Prelude.{
  ℕ, suc, ◌+◌, Bool, false, Option, none, some, List, [], ◌∷◌, ◌++◌, Bytes, ◌>>=◌, if◌then◌else◌,
}
use scservices.Receiver.{Receiver, initial}
use scservices.Platform.{Platform, Moment}
use scservices.NtState.{ExpansionHubNtState}

pub data SendState : Type 0 where
  ready_to_send waiting_for_packets waiting_for_finish : SendState

-- The fields of `ExpansionHubSerial`. `has_callbacks` is whether `SetCallbacks` has set `ntStore` and
-- `onSendCommands`, which it sets together; `serial_poll` is whether `serialPoll` refers to a poll.
-- The scratch buffers `readBuf` and `txBuffer` are values of the functions that fill them.
pub record ExpansionHubSerial : Type 0 where
  pub has_callbacks : Bool
  pub serial_fd : Option ℕ
  pub serial_path : Bytes
  pub serial_poll : Bool
  pub state_machine : Receiver
  pub discover_start_time : ℕ
  pub address : Option ℕ
  pub packet_interface_id : Option ℕ
  pub outstanding_messages : ℕ
  pub write_buffer : Bytes
  pub pending_writes : List ℕ
  pub current_count : ℕ
  pub last_loop : ℕ
  pub can_enable : Bool
  pub device_reset : Bool
  pub configured_ftdi_reset : Bool
  pub send_state : SendState
  pub have_bulk : Bool
  pub have_battery : Bool
  pub have_module_status : Bool

-- A new link; `lastLoop` is not initialised, and set before it is read.
abbrev pub new_serial : ExpansionHubSerial
new_serial = record {
  has_callbacks = false;
  serial_fd = none;
  serial_path = [];
  serial_poll = false;
  state_machine = initial;
  discover_start_time = 0;
  address = none;
  packet_interface_id = none;
  outstanding_messages = 0;
  write_buffer = [];
  pending_writes = [];
  current_count = 0;
  last_loop = 0;
  can_enable = false;
  device_reset = false;
  configured_ftdi_reset = false;
  send_state = ready_to_send;
  have_bulk = false;
  have_battery = false;
  have_module_status = false;
}

-- The publishers of `ExpansionHubNtState` and `MotorNtState`.
pub data Topic : Type 0 where
  transaction_time battery_voltage is_connected : Topic
  num_nacks num_crc_failures num_missed_send_loops : Topic
  encoder velocity current : ℕ → Topic

-- What the code does to the outside: bytes written to the port, the poll of the port and its file
-- descriptor, and values published.
pub data Effect (p : Platform) : Type 0 where
  written : Bytes → Effect p
  poll_started : ℕ → Effect p
  poll_stopped : Effect p
  fd_closed : ℕ → Effect p
  input_flushed : ℕ → Effect p
  published_int : Topic → ℕ → Effect p
  published_double : Topic → p.Double → Effect p
  published_bool : Topic → Bool → Effect p

-- What a handler works on. `moments` are the answers that the outside gives to one reading after
-- another, and `readings` is how many have been made; `effects` are the effects so far, in order.
pub record Session (p : Platform) : Type 0 where
  pub serial : ExpansionHubSerial
  pub store : ExpansionHubNtState p
  pub moments : ℕ → Moment p
  pub readings : ℕ
  pub effects : List (Effect p)

-- A handler. `none` is undefined behaviour of the source, other than that of a conversion of a `double` that
-- does not fit, or a failed assertion.
abbrev pub Action : Platform → Type 0
Action p = Session p → Option (Session p)

module _ {p : Platform} where
  infixr 6 ◌>=>◌
  abbrev pub ◌>=>◌ : Action p → Action p → Action p
  ◌>=>◌ f g s = f s >>= g

  abbrev pub skip : Action p
  skip s = some s

  -- The next reading of the outside.
  abbrev pub reading : (Moment p → Action p) → Action p
  reading f s = f (s.moments s.readings) (record s { readings = suc s.readings })

  abbrev pub emit : Effect p → Session p → Session p
  emit e s = record s { effects = s.effects ++ e ∷ [] }

  abbrev pub on_serial : (ExpansionHubSerial → ExpansionHubSerial) → Session p → Session p
  on_serial f s = record s { serial = f s.serial }

  -- `*address` and `*packetInterfaceId`.
  abbrev pub with_address : (ℕ → Action p) → Action p
  with_address f s = s.serial.address >>= λ a. f a s

  abbrev pub with_interface : (ℕ → Action p) → Action p
  with_interface f s = s.serial.packet_interface_id >>= λ i. f i s
