-- ===== src/Serial/Events/Handshake.antt =====
-- expansionhub/ExpansionHubSerial.cpp: the steps of the handshake and the invariant of a link.
use scservices.Prelude.{
  ℕ, suc, refl, arith, Bool, true, false, inl, inr, Option, none, some, List, Bytes, ◌==◌,
  get_elem?, Bool-cases, if◌then◌else◌, length, ltb, leb, sub_u64, ◌>>=◌,
}
use scservices.Packet.{build_packet, packet_source_address, read_uint16}
use scservices.Platform.{Platform}
use scservices.Serial.{
  ExpansionHubSerial, Effect, Session, Action, on_serial, with_address, with_interface,
}
use scservices.Serial.Output.{send_packet}
use scservices.Serial.Handshake.{
  is_some, handle_discover, handle_ftdi_ack, handle_query_interface, message_timeout, retry,
  run_discover_internal, run_interface_packet_id_internal, run_ftdi_configure_internal, steps_for,
  run_synchronous_steps,
}
use scservices.Serial.Keeps.{allow_length, IsAllowed, Holds, Guards, bind-Holds, if-Holds}
use scservices.Serial.Whole.{written-AreSafe, build_packet-IsBuilt}
use scservices.Serial.Sending.{IsLink}
use scservices.Serial.Events.{HasQueue-eq, IsLink-Same}

-- The steps of the handshake send directly, past the queue.
module _ {p : Platform} {can_enable : Bool} where
  send_direct-Guards :
      (dest message id : ℕ) (pay : Bytes)
      → IsAllowed can_enable pay
      → Guards p (IsLink can_enable) (send_packet dest message id pay true)
  unfolding send_packet
  send_direct-Guards dest message id pay allowed s h = elim (Bool-cases (ltb (length pay) 1013)) [
    | inl fits ↦ simp fits (record {
      has_queue = h.has_queue;
      no_leftover = h.no_leftover;
      safe =
          written-AreSafe can_enable (build_packet dest message id pay) s.effects
            (build_packet-IsBuilt dest message id pay (ground arith) allowed) h.safe;
    })
    | inr long ↦ simp long tt
  ]

  retry-Guards :
      (request : Action p)
      → Guards p (IsLink can_enable) request
      → Guards p (IsLink can_enable) (retry request)
  unfolding retry
  retry-Guards request g s h =
      let moment = s.moments s.readings in
      let t = record s {
        serial = record (s.serial) { discover_start_time = moment.now };
        readings = suc s.readings;
      } in
      elim (Bool-cases (leb (sub_u64 moment.now s.serial.discover_start_time) message_timeout)) [
        | inl early ↦ simp early h
        | inr late ↦ simp late (g t (IsLink-Same s.serial t.serial (refl, λ k. k) refl h))
      ]

  address-Guards :
      (f : ℕ → Action p)
      → ((a : ℕ) → Guards p (IsLink can_enable) (f a))
      → Guards p (IsLink can_enable) (with_address f)
  address-Guards f k s h =
      bind-Holds p (IsLink can_enable) s.serial.address (λ a. f a s) (λ a. k a s h)

  interface-Guards :
      (f : ℕ → Action p)
      → ((a : ℕ) → Guards p (IsLink can_enable) (f a))
      → Guards p (IsLink can_enable) (with_interface f)
  interface-Guards f k s h =
      bind-Holds p (IsLink can_enable) s.serial.packet_interface_id (λ a. f a s) (λ a. k a s h)

  discover-Guards : Guards p (IsLink can_enable) run_discover_internal
  unfolding run_discover_internal
  discover-Guards =
      retry-Guards _ (send_direct-Guards _ _ _ _ (allow_length can_enable _ (ground arith)))

  interface_step-Guards : Guards p (IsLink can_enable) run_interface_packet_id_internal
  unfolding run_interface_packet_id_internal
  interface_step-Guards = retry-Guards _ (
      address-Guards _ (λ a. send_direct-Guards _ _ _ _ (allow_length can_enable _ (ground arith))))

  ftdi-Guards : Guards p (IsLink can_enable) run_ftdi_configure_internal
  unfolding run_ftdi_configure_internal
  ftdi-Guards = retry-Guards _ (
      interface-Guards _ (λ i.
        address-Guards _
          (λ a. send_direct-Guards _ _ _ _ (allow_length can_enable _ (ground arith)))))

  steps_for-Guards :
      (address interface : Option ℕ) (configured : Bool)
      → Guards p (IsLink can_enable) (steps_for address interface configured)
  steps_for-Guards none interface configured s h = discover-Guards s h
  steps_for-Guards (some a) none configured s h = interface_step-Guards s h
  steps_for-Guards (some a) (some i) false s h = ftdi-Guards s h
  steps_for-Guards (some a) (some i) true s h = h

  pub run_synchronous_steps-Guards : Guards p (IsLink can_enable) run_synchronous_steps
  unfolding run_synchronous_steps
  run_synchronous_steps-Guards s h =
      steps_for-Guards s.serial.address s.serial.packet_interface_id s.serial.configured_ftdi_reset
        s h

learn_address :
    {p : Platform} {can_enable : Bool} {es : List (Effect p)} (r : ExpansionHubSerial) (source : ℕ)
    → IsLink can_enable r es
    → IsLink can_enable (record r { address = some source; discover_start_time = 0 }) es
learn_address r source h = record {
  has_queue =
      HasQueue-eq r (record r { address = some source; discover_start_time = 0 }) refl h.has_queue;
  no_leftover = h.no_leftover;
  safe = h.safe;
}

learn_interface :
    {p : Platform} {can_enable : Bool} {es : List (Effect p)} (r : ExpansionHubSerial) (id : ℕ)
    → IsLink can_enable r es
    → IsLink can_enable (record r { packet_interface_id = some id; discover_start_time = 0 }) es
learn_interface r id h = record {
  has_queue =
      HasQueue-eq r (record r { packet_interface_id = some id; discover_start_time = 0 }) refl
        h.has_queue;
  no_leftover = h.no_leftover;
  safe = h.safe;
}

module _ {p : Platform} {can_enable : Bool} where
  found-Guards :
      (bytes : Bytes) (found : ℕ) (s : Session p)
      → IsLink can_enable s.serial s.effects
      → Holds p (IsLink can_enable) (
          if found == 1
          then (packet_source_address bytes >>= λ source.
              run_synchronous_steps
                (on_serial (λ r. record r { address = some source; discover_start_time = 0 }) s))
          else some s)
  found-Guards bytes found s h =
      if-Holds p (IsLink can_enable) (found == 1) _ (some s)
        (bind-Holds p (IsLink can_enable) (packet_source_address bytes) _ (λ source.
          run_synchronous_steps-Guards
            (on_serial (λ r. record r { address = some source; discover_start_time = 0 }) s)
            (learn_address s.serial source h)))
        h

  pub handle_discover-Guards :
      (bytes pay : Bytes) → Guards p (IsLink can_enable) (handle_discover bytes pay)
  unfolding handle_discover
  handle_discover-Guards bytes pay s h = elim (Bool-cases (is_some s.serial.address)) [
    | inl known ↦ simp known h
    | inr unknown ↦ simp unknown (
        bind-Holds p (IsLink can_enable) (get_elem? pay 0) _
          (λ found. found-Guards bytes found s h))
  ]

  pub handle_ftdi_ack-Guards : Guards p (IsLink can_enable) handle_ftdi_ack
  unfolding handle_ftdi_ack
  handle_ftdi_ack-Guards s h =
      let t =
        on_serial (λ r. record r { configured_ftdi_reset = true; discover_start_time = 0 }) s in
      run_synchronous_steps-Guards t (IsLink-Same s.serial t.serial (refl, λ k. k) refl h)

  pub handle_query_interface-Guards :
      (pay : Bytes) → Guards p (IsLink can_enable) (handle_query_interface pay)
  unfolding handle_query_interface
  handle_query_interface-Guards pay s h = elim (Bool-cases (is_some s.serial.packet_interface_id)) [
    | inl known ↦ simp known h
    | inr unknown ↦ simp unknown (
        bind-Holds p (IsLink can_enable) (read_uint16 pay) _ (λ id.
          run_synchronous_steps-Guards
            (on_serial (λ r. record r { packet_interface_id = some id; discover_start_time = 0 }) s)
            (learn_interface s.serial id h)))
  ]
