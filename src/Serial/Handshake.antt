-- ===== src/Serial/Handshake.antt =====
-- expansionhub/ExpansionHubSerial.cpp: the synchronous steps that make a link ready, one direct request at
-- a time.
use scservices.Prelude.{
  get_elem?, ◌==◌, ◌>>=◌, ℕ, ◌+◌, Bool, true, false, Option, none, some, [], ◌∷◌, Bytes, leb,
  if◌then◌else◌, sub_u64, to_u16,
}
use scservices.Messages.{message_discover, message_ftdi_reset_control, message_query_interface}
use scservices.Packet.{discover_id, query_interface_id, packet_source_address, read_uint16}
use scservices.Platform.{Platform}
use scservices.Serial.{
  ExpansionHubSerial, Action, skip, reading, on_serial, with_address, with_interface,
}
use scservices.Serial.Output.{send_packet}

abbrev pub message_timeout : ℕ
message_timeout = 1000000

abbrev pub discover_address : ℕ
discover_address = 0xFF

-- `INTERFACE_STRING`, with its final zero.
abbrev pub interface_string : Bytes
interface_string = b'D' ∷ b'E' ∷ b'K' ∷ b'A' ∷ 0 ∷ []

module _ {p : Platform} where
  -- What the three steps share: no second try within the timeout.
  unfoldable pub retry : Action p → Action p
  retry request = reading λ moment s.
      if leb (sub_u64 moment.now s.serial.discover_start_time) message_timeout
      then some s
      else request (on_serial (λ serial. record serial { discover_start_time = moment.now }) s)

  unfoldable pub run_discover_internal : Action p
  unfolding retry
  run_discover_internal = retry (send_packet discover_address message_discover discover_id [] true)

  unfoldable pub run_interface_packet_id_internal : Action p
  unfolding retry
  run_interface_packet_id_internal = retry (
      with_address λ address.
        send_packet address message_query_interface query_interface_id interface_string true)

  unfoldable pub run_ftdi_configure_internal : Action p
  unfolding retry
  run_ftdi_configure_internal = retry (
      with_interface λ interface. with_address λ address.
        send_packet address message_ftdi_reset_control (to_u16 (interface + 49)) (1 ∷ []) true)

  abbrev pub steps_for : Option ℕ → Option ℕ → Bool → Action p
  steps_for none interface configured = run_discover_internal
  steps_for (some a) none configured = run_interface_packet_id_internal
  steps_for (some a) (some i) false = run_ftdi_configure_internal
  steps_for (some a) (some i) true = skip

  unfoldable pub run_synchronous_steps : Action p
  unfolding run_discover_internal run_interface_packet_id_internal run_ftdi_configure_internal
  run_synchronous_steps s =
      let serial = s.serial in
      steps_for serial.address serial.packet_interface_id serial.configured_ftdi_reset s

abbrev pub is_some : Option ℕ → Bool
is_some none = false
is_some (some v) = true

module _ {p : Platform} where
  -- The replies to the synchronous steps. A further reply to a step that is done changes nothing.
  unfoldable pub handle_discover : Bytes → Bytes → Action p
  unfolding run_synchronous_steps
  handle_discover bytes pay s =
      if is_some s.serial.address
      then some s
      else (get_elem? pay 0 >>= λ found.
          if found == 1
          then (packet_source_address bytes >>= λ source.
              run_synchronous_steps
                (on_serial (λ r. record r { address = some source; discover_start_time = 0 }) s))
          else some s)

  unfoldable pub handle_ftdi_ack : Action p
  unfolding run_synchronous_steps
  handle_ftdi_ack s =
      run_synchronous_steps
        (on_serial (λ r. record r { configured_ftdi_reset = true; discover_start_time = 0 }) s)

  unfoldable pub handle_query_interface : Bytes → Action p
  unfolding run_synchronous_steps
  handle_query_interface pay s =
      if is_some s.serial.packet_interface_id
      then some s
      else (read_uint16 pay >>= λ id.
          run_synchronous_steps (
            on_serial (λ r. record r { packet_interface_id = some id; discover_start_time = 0 }) s))

unfoldable pub has_finished_synchronous : ExpansionHubSerial → Bool
has_finished_synchronous serial = serial.configured_ftdi_reset
