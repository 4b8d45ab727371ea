-- ===== src/Hub/Initial/Sent.antt =====
-- expansionhub/main.cpp: `SendInitial` puts exactly its requests into the queue, and flushes it.
use scservices.Prelude.{Option, ℕ, ◌+◌, ◌≡◌, ap, ◌∙◌, arith, some, List, [], ◌∷◌, Bytes}
use scservices.Platform.{Platform}
use scservices.NtState.{ExpansionHubNtState, num_motors_per_hub, num_servos_per_hub}
use scservices.Serial.{Session, Action}
use scservices.Serial.Output.{flush}
use scservices.Serial.Requests.{
  send_battery_request, get_module_status, send_keep_alive, send_bulk_input,
}
use scservices.Hub.{for_each}
use scservices.Hub.Commands.{send_encoder_reset, send_pulse_width, send_initial}
use scservices.Hub.Initial.{keep_alive, module_status, battery, bulk, initial_requests}
use scservices.Hub.Initial.Queues.{
  Leads, Queues, then-Leads, end-Leads, to_address-Queues, request-Queues,
}
use scservices.Hub.Initial.Resets.{encoder_resets-Queues, pulse_widths-Queues}

module _ {p : Platform} (a i : ℕ) where
  send_keep_alive-Queues :
      (s : Session p)
      → s.serial.address ≡ some a
      → Queues 0 (keep_alive a ∷ []) s.store s (send_keep_alive s)
  unfolding send_keep_alive
  send_keep_alive-Queues s known = to_address-Queues a _ _ _ s known (omega arith)

  get_module_status-Queues :
      (s : Session p)
      → s.serial.address ≡ some a
      → Queues 0 (module_status a ∷ []) s.store s (get_module_status s)
  unfolding get_module_status
  get_module_status-Queues s known = to_address-Queues a _ _ _ s known (omega arith)

  send_battery_request-Queues :
      (s : Session p)
      → s.serial.address ≡ some a
      → s.serial.packet_interface_id ≡ some i
      → Queues 0 (battery a i ∷ []) s.store s (send_battery_request s)
  unfolding send_battery_request
  send_battery_request-Queues s known interface =
      request-Queues a i _ _ _ s known interface (omega arith)

  send_bulk_input-Queues :
      (s : Session p)
      → s.serial.address ≡ some a
      → s.serial.packet_interface_id ≡ some i
      → Queues 0 (bulk a i ∷ []) s.store s (send_bulk_input s)
  unfolding send_bulk_input
  send_bulk_input-Queues s known interface =
      request-Queues a i _ _ _ s known interface (omega arith)

  -- What is known of the hub stays known.
  module _ {g : Action p} {n : ℕ} {qs : List Bytes} {store : ExpansionHubNtState p} {s : Session p}
      {m : Option (Session p)} (q : Leads g n qs store s m) where
    known_after : s.serial.address ≡ some a → q.after.serial.address ≡ some a
    known_after e = ap (λ x. x.address) q.serial_is ∙ e

    interface_after :
        s.serial.packet_interface_id ≡ some i → q.after.serial.packet_interface_id ≡ some i
    interface_after e = ap (λ x. x.packet_interface_id) q.serial_is ∙ e

  -- `SendInitial` puts exactly its requests into the queue, in order, and flushes it.
  pub send_initial-Leads :
      (s : Session p)
      → s.serial.address ≡ some a
      → s.serial.packet_interface_id ≡ some i
      → (store : ExpansionHubNtState p) × Leads flush
          (num_motors_per_hub + num_servos_per_hub)
          (initial_requests a i s.store s.moments s.readings)
          store
          s
          (send_initial s)
  unfolding send_initial
  send_initial-Leads s k j =
      let q1 = send_keep_alive-Queues s k in
      let q2 = get_module_status-Queues q1.after (known_after q1 k) in
      let k2 = known_after q2 (known_after q1 k) in
      let j2 = interface_after q2 (interface_after q1 j) in
      let (store3, q3) =
        encoder_resets-Queues a i s.store s.moments s.readings num_motors_per_hub 0 q2.after k2 j2
          (q2.moments_are ∙ q1.moments_are) (omega (arith, q2.readings_are, q1.readings_are))
          (λ d _. ap (λ x. x.motors d) (q2.store_is ∙ q1.store_is)) in
      let k3 = known_after q3 k2 in
      let j3 = interface_after q3 j2 in
      let q4 = send_battery_request-Queues q3.after k3 j3 in
      let q5 = send_bulk_input-Queues q4.after (known_after q4 k3) (interface_after q4 j3) in
      let (store6, q6) =
        pulse_widths-Queues a i s.moments (num_motors_per_hub + s.readings) num_servos_per_hub 0
          q5.after (known_after q5 (known_after q4 k3)) (interface_after q5 (interface_after q4 j3))
          (q5.moments_are ∙ q4.moments_are ∙ q3.moments_are ∙ q2.moments_are ∙ q1.moments_are)
          (omega (
            arith, q5.readings_are, q4.readings_are, q3.readings_are, q2.readings_are,
            q1.readings_are,
          )) in
      (
        store6,
        then-Leads flush 0 10 10 _ _ s.store store6 s send_keep_alive _ q1
            (then-Leads flush 0 10 10 _ _ q1.after.store store6 q1.after get_module_status _ q2
              (then-Leads flush 4 6 10 _ _ store3 store6 q2.after
                (for_each num_motors_per_hub send_encoder_reset) _ q3
                (then-Leads flush 0 6 6 _ _ q3.after.store store6 q3.after send_battery_request _ q4
                  (then-Leads flush 0 6 6 _ _ q4.after.store store6 q4.after send_bulk_input _ q5
                    (end-Leads flush 6 _ store6 q5.after
                      (for_each num_servos_per_hub send_pulse_width) q6)
                    (omega arith))
                  (omega arith))
                (omega arith))
              (omega arith))
            (omega arith),
      )
