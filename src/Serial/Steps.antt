-- ===== src/Serial/Steps.antt =====
-- expansionhub/ExpansionHubSerial.cpp: the handshake, step by step.
use scservices.Prelude.{
  ℕ, suc, ◌+◌, ◌^◌, ◌<◌, ◌≤◌, ◌≡◌, inl, inr, refl, arith, true, false, none, some, [], ◌∷◌, ◌++◌,
  Bytes, leb, sub_u64, to_u16, Option-cases,
}
use scservices.Messages.{message_ftdi_reset_control, message_query_interface}
use scservices.Packet.{query_interface_id, packet_source_address, build_packet, read_uint16}
use scservices.Platform.{Platform}
use scservices.Serial.{Session, written}
use scservices.Serial.Output.{send_packet}
use scservices.Serial.Handshake.{
  message_timeout, interface_string, retry, run_discover_internal, run_interface_packet_id_internal,
  run_ftdi_configure_internal, run_synchronous_steps, handle_discover, handle_ftdi_ack,
  handle_query_interface,
}

pub late_lem :
    (now : ℕ)
    → (message_timeout < now) × (now < 2 ^ 64)
    → leb (sub_u64 now 0) message_timeout ≡ false
late_lem now h = ground arith

module _ {p : Platform} where
  -- The time since boot has passed the timeout, as it has at every try after a step has ended.
  abbrev pub IsLate : Session p → Type 0
  IsLate s = let now = (s.moments s.readings).now in (message_timeout < now) × (now < 2 ^ 64)

  -- The link has told its address, its interface, or that its FTDI chip is set.
  abbrev pub with_question : ℕ → Session p → Session p
  with_question source s =
      let now = (s.moments s.readings).now in
      record s {
        serial = record (s.serial) { address = some source; discover_start_time = now };
        readings = suc s.readings;
        effects =
            s.effects
            ++ written
                (build_packet source message_query_interface query_interface_id interface_string)
              ∷ [];
      }

  abbrev pub with_reset : ℕ → ℕ → Session p → Session p
  with_reset address id s =
      let now = (s.moments s.readings).now in
      record s {
        serial = record (s.serial) { packet_interface_id = some id; discover_start_time = now };
        readings = suc s.readings;
        effects =
            s.effects
            ++ written (build_packet address message_ftdi_reset_control (to_u16 (id + 49)) (1 ∷ []))
              ∷ [];
      }

  abbrev pub with_end : Session p → Session p
  with_end s = record s {
    serial = record (s.serial) { configured_ftdi_reset = true; discover_start_time = 0 };
  }

  -- The first answer of a hub to the discovery is followed at once by the question for its interface.
  pub handle_discover-question :
      (s : Session p) (bytes rest : Bytes) (source : ℕ)
      → s.serial.address ≡ none
      → s.serial.packet_interface_id ≡ none
      → packet_source_address bytes ≡ some source
      → IsLate s
      → handle_discover bytes (1 ∷ rest) s ≡ some (with_question source s)
  unfolding handle_discover run_synchronous_steps run_interface_packet_id_internal retry send_packet
  handle_discover-question s bytes rest source a i from late =
      let again : leb (sub_u64 (s.moments s.readings).now 0) message_timeout ≡ false =
        late_lem _ late in
      simp (a, i, from, again) refl

  -- The answer to that is followed at once by the request to reset the FTDI chip control.
  pub handle_query_interface-reset :
      (s : Session p) (pay : Bytes) (address id : ℕ)
      → s.serial.address ≡ some address
      → s.serial.packet_interface_id ≡ none
      → s.serial.configured_ftdi_reset ≡ false
      → read_uint16 pay ≡ some id
      → IsLate s
      → handle_query_interface pay s ≡ some (with_reset address id s)
  unfolding handle_query_interface run_synchronous_steps run_ftdi_configure_internal retry
      send_packet
  handle_query_interface-reset s pay address id a i not_yet read late =
      let again : leb (sub_u64 (s.moments s.readings).now 0) message_timeout ≡ false =
        late_lem _ late in
      simp (a, i, not_yet, read, again) refl

  -- The answer to that ends the handshake.
  pub handle_ftdi_ack-end :
      (s : Session p) (address interface : ℕ)
      → s.serial.address ≡ some address
      → s.serial.packet_interface_id ≡ some interface
      → handle_ftdi_ack s ≡ some (with_end s)
  unfolding handle_ftdi_ack run_synchronous_steps
  handle_ftdi_ack-end s address interface a i = simp (a, i) refl

  -- Until the timeout has passed since the last try no step is tried again: on a link that is not past the
  -- handshake nothing is written and the link stays as it is.
  pub run_synchronous_steps-early :
      (s : Session p)
      → s.serial.configured_ftdi_reset ≡ false
      → s.serial.discover_start_time ≤ (s.moments s.readings).now
      → (s.moments s.readings).now ≤ s.serial.discover_start_time + message_timeout
      → (s.moments s.readings).now < 2 ^ 64
      → run_synchronous_steps s ≡ some (record s { readings = suc s.readings })
  unfolding run_synchronous_steps run_discover_internal run_interface_packet_id_internal
      run_ftdi_configure_internal retry
  run_synchronous_steps-early s not_yet from to small =
      let early : leb (sub_u64 (s.moments s.readings).now s.serial.discover_start_time)
            message_timeout
          ≡ true =
        ground arith in
      elim (Option-cases s.serial.address) [
        | inl a ↦ simp (a, early) refl
        | inr (address, a) ↦ elim (Option-cases s.serial.packet_interface_id) [
          | inl i ↦ simp (a, i, early) refl
          | inr (interface, i) ↦ simp (a, i, not_yet, early) refl
        ]
      ]
