-- ===== src/Tests/Transactions.antt =====
-- The handshake, the advance of a transaction, its powers, and the daemon's start, at concrete values.
use scservices.Prelude.{
  min, ◌+◌, ℤ, ◌<◌, ◌++◌, negsuc, ℕ, ◌-◌, ◌≡◌, ◌≢◌, ◌⊎◌, refl, arith, Bool, true, false, some, [],
  ◌∷◌, length, sub_u64, pos, if◌then◌else◌, ◌==◌,
}
use scservices.Messages.{message_ftdi_reset_control}
use scservices.Platform.{MotorTopics}
use scservices.NtState.{follower_mode, percentage_mode, direction}
use scservices.Serial.{
  ready_to_send, waiting_for_packets, waiting_for_finish, ExpansionHubSerial, Session, Action,
  Topic, published_int, on_serial,
}
use scservices.Serial.Handshake.{run_synchronous_steps}
use scservices.Packet.Signed.{Fits16, Fits32}
use scservices.Serial.Reply.{handle_bulk_input}
use scservices.Serial.Bulk.{bulk_payload, scaled, topics_at, shown, handle_bulk_input-shown}
use scservices.Serial.Steps.{run_synchronous_steps-early}
use scservices.Serial.Queue.Flush.{budget}
use scservices.Serial.Payload.{check_for_state_advance, handle_nack}
use scservices.Serial.Advance.{
  GoesOn, counted, check_for_state_advance-reported, check_for_state_advance-finish,
  handle_nack-ftdi,
}
use scservices.Hub.Commands.{chosen_power, power_at, compute_powers}
use scservices.Hub.Powers.{own_power, chosen_power-follower}
use scservices.Tests.{toy, session_of, configured, stopped, moment, new_store}

abbrev unfinished : ExpansionHubSerial
unfinished = record configured { configured_ftdi_reset = false }

abbrev tried : Session toy
tried = session_of (record unfinished { discover_start_time = 1500000 })

run_synchronous_steps-early_example :
    run_synchronous_steps tried ≡ some (record tried { readings = 1 })
run_synchronous_steps-early_example =
    run_synchronous_steps-early tried refl (omega arith) (omega arith) (omega arith)

-- A callback that does nothing, and one that queues a packet.
abbrev pub silent : Bool → Bool → Action toy
silent can_enable device_reset s = some s

abbrev queues : Bool → Bool → Action toy
queues can_enable device_reset s = some (on_serial (λ r. record r { pending_writes = 12 ∷ [] }) s)

abbrev reported : ExpansionHubSerial
reported = record configured {
  send_state = waiting_for_packets;
  outstanding_messages = 3;
  have_bulk = true;
  have_battery = true;
  have_module_status = true;
}

abbrev queued : Session toy
queued = on_serial (λ r. record r { pending_writes = 12 ∷ [] }) (counted (session_of reported))

check_for_state_advance-reported_example :
    ((waiting_for_packets ≡ waiting_for_packets)
      × (true ≡ true)
      × (true ≡ true)
      × (true ≡ true)
      × ((s' : Session toy) × (check_for_state_advance queues (session_of reported) ≡ some s')
          × GoesOn queued s'))
    ⊎ (((waiting_for_packets ≢ waiting_for_packets)
          ⊎ (true ≡ false)
          ⊎ (true ≡ false)
          ⊎ (true ≡ false))
        × (check_for_state_advance queues (session_of reported)
            ≡ check_for_state_advance silent (session_of reported)))
check_for_state_advance-reported_example =
    check_for_state_advance-reported queues silent (session_of reported) queued refl refl refl

abbrev finishing : ExpansionHubSerial
finishing = record configured { send_state = waiting_for_finish; outstanding_messages = 1 }

check_for_state_advance-finish_example :
    (s' : Session toy) × (check_for_state_advance silent (session_of finishing) ≡ some s')
    × (s'.serial.outstanding_messages ≡ 1 - 1)
    × (((finishing.pending_writes ≡ [])
          × (finishing.outstanding_messages ≡ 1)
          × (s'.serial.send_state ≡ ready_to_send)
          × (s'.effects ≡ published_int Topic.transaction_time (sub_u64 (moment 0).now 0) ∷ []))
        ⊎ (((finishing.pending_writes ≢ []) ⊎ (finishing.outstanding_messages ≢ 1))
            × (s'.serial.send_state ≡ waiting_for_finish)
            × (s'.effects ≡ [])))
check_for_state_advance-finish_example =
    check_for_state_advance-finish silent (session_of finishing) refl refl (omega arith)
      (omega arith)

handle_nack-ftdi_example :
    (s' : Session toy) × (handle_nack silent message_ftdi_reset_control
        (3 ∷ [])
        (session_of unfinished)
      ≡ some s')
    × (s'.serial.outstanding_messages ≡ 255)
    × (budget s'.serial ≡ length unfinished.pending_writes)
handle_nack-ftdi_example =
    handle_nack-ftdi silent (session_of unfinished) 3 [] refl refl (omega arith)

-- Motor 1 follows motor 2, which has a setpoint.
abbrev channels : ℕ → MotorTopics toy
channels i =
    if i == 1
    then record stopped { mode = 4; setpoint = pos 2 }
    else if i == 2
    then record stopped { setpoint = pos 1 }
    else stopped

abbrev following : Session toy
following = record (session_of configured) {
  store = record new_store { last_battery = pos 12 };
  moments = λ i. record (moment i) { motor = channels };
}

chosen_power-follower_example :
    let sent =
      chosen_power toy
        (compute_powers 4 0 following).1
        (power_at toy (compute_powers 4 0 following).1 1) in
    (sent ≡ (own_power following 0 2).0)
    × (((channels 2).mode ≢ percentage_mode) ⊎ (sent ≡ toy.mul (pos 1) (direction (channels 2))))
    × (((channels 2).mode ≢ follower_mode) ⊎ (sent ≡ pos 0))
chosen_power-follower_example =
    chosen_power-follower following 1 2 (omega arith) (omega arith) refl refl refl

-- The positions are -5, -6, -7 and -8, and the velocities 100, 101, 102 and 103.
abbrev positions : ℕ → ℤ
positions i = negsuc (4 + min i 3)

abbrev velocities : ℕ → ℤ
velocities i = pos (100 + min i 3)

encoders-fit : (i : ℕ) → Fits32 (positions i) × Fits16 (velocities i)
encoders-fit i = (omega arith, omega arith)

handle_bulk_input-shown_example :
    (t : Session toy) × (handle_bulk_input (bulk_payload 0 positions 0 velocities []) following
      ≡ some t)
    × (t.serial ≡ record configured { have_bulk = true })
    × (t.effects
        ≡ shown following positions velocities 0
          ++ shown following positions velocities 1
          ++ shown following positions velocities 2
          ++ shown following positions velocities 3)
    × ((i : ℕ)
        → i < 4
        → ((t.store.motors i).last_encoder_position ≡ scaled (topics_at following i) (positions i))
          × ((t.store.motors i).last_encoder_velocity
              ≡ scaled (topics_at following i) (velocities i)))
handle_bulk_input-shown_example =
    handle_bulk_input-shown 0 0 positions velocities [] following encoders-fit refl
