-- ===== src/Hub/Exact/Powers.antt =====
-- expansionhub/main.cpp: the powers that `SendCommands` computes and sends.
use scservices.Prelude.{ℕ, zero, suc, ◌+◌, ◌≡◌, refl, ap, sym, ◌∙◌, arith, List}
use scservices.Platform.{Platform, Moment, MotorTopics}
use scservices.NtState.{ExpansionHubNtState, MotorNtState, compute_motor_power, num_motors_per_hub}
use scservices.Serial.{Session}
use scservices.Serial.Reply.{on_motor}
use scservices.Serial.Requests.{send_motor_current_request, send_motor_constant_power}
use scservices.Hub.Commands.{Power, compute_powers, send_power, send_powers}
use scservices.Hub.Initial.Queues.{queue_all, Queues, request-Queues}
use scservices.Hub.Exact.{per_channel, power_for, current_for}
use scservices.Hub.Exact.Settings.{At, after-At, update-field, Steps, per_channel-Steps, shift}

compute_motor_power-settings :
    {p : Platform} (t : MotorTopics p) (battery : p.Double) (m : MotorNtState p)
    → ((compute_motor_power t battery m).0.float_on_0_subscriber ≡ m.float_on_0_subscriber)
      × ((compute_motor_power t battery m).0.enabled_subscriber ≡ m.enabled_subscriber)
unfolding compute_motor_power
compute_motor_power-settings t battery m = (ground arith, ground arith)

module _ {p : Platform} (a i : ℕ) (before : ExpansionHubNtState p) (moments : ℕ → Moment p) where
  -- The powers are computed at one reading for each motor; nothing is sent, and no setting changes.
  compute_powers-At :
      (n c r : ℕ) (s : Session p)
      → At a i before moments 0 0 0 0 r s
      → At a i before moments 0 0 0 0 (shift n r) (compute_powers n c s).0
        × ((compute_powers n c s).0.serial ≡ s.serial)
        × ((compute_powers n c s).0.effects ≡ s.effects)
  unfolding compute_powers
  compute_powers-At zero c r s h = (h, refl, refl)
  compute_powers-At (suc n) c r s h =
      let new =
        (compute_motor_power ((s.moments s.readings).motor c) s.store.last_battery
          (s.store.motors c)).0 in
      let (mode, enable) =
        compute_motor_power-settings ((s.moments s.readings).motor c) s.store.last_battery
          (s.store.motors c) in
      let t = on_motor c (λ _. new) (record s { readings = suc s.readings }) in
      let same = h.same_from in
      compute_powers-At n (suc c) (suc r) t (record {
        address_is = h.address_is;
        interface_is = h.interface_is;
        moments_is = h.moments_is;
        readings_is = ap suc h.readings_is;
        same_from = record {
          same_mode = λ d k.
              update-field (λ (x : MotorNtState p). x.float_on_0_subscriber) s.store.motors c d new
                mode
              ∙ same.same_mode d k;
          same_enable = λ d k.
              update-field (λ (x : MotorNtState p). x.enabled_subscriber) s.store.motors c d new
                enable
              ∙ same.same_enable d k;
          same_period = same.same_period;
          same_servo_enable = same.same_servo_enable;
        };
      })

  send_power-Steps :
      (powers : List (Power p)) (r0 c r : ℕ) (s : Session p)
      → At a i before moments 0 0 0 0 r0 s
      → Steps
          (λ c r. At a i before moments 0 0 0 0 r0)
          0
          (power_for p a i powers c r)
          (suc c)
          (suc r)
          s
          (send_power powers c s)
  unfolding send_power send_motor_constant_power
  send_power-Steps powers r0 c r s h =
      let q = request-Queues a i _ _ _ s h.address_is h.interface_is (omega arith) in
      (s.store, q, after-At a i before moments 0 0 0 0 r0 _ s _ q h)

  pub send_motor_current_request-Steps :
      (r0 c r : ℕ) (s : Session p)
      → At a i before moments 0 0 0 0 r0 s
      → Steps
          (λ c r. At a i before moments 0 0 0 0 r0)
          0
          (current_for a i c r)
          (suc c)
          (suc r)
          s
          (send_motor_current_request c s)
  unfolding send_motor_current_request
  send_motor_current_request-Steps r0 c r s h =
      let q = request-Queues a i _ _ _ s h.address_is h.interface_is (omega arith) in
      (s.store, q, after-At a i before moments 0 0 0 0 r0 _ s _ q h)

  pub reading-At :
      (mf me sf se r r' : ℕ) (s : Session p)
      → r ≡ r'
      → At a i before moments mf me sf se r s
      → At a i before moments mf me sf se r' s
  reading-At mf me sf se r r' s e h = record {
    address_is = h.address_is;
    interface_is = h.interface_is;
    moments_is = h.moments_is;
    readings_is = h.readings_is ∙ e;
    same_from = h.same_from;
  }

  -- The powers, of a hub that is known.
  pub send_powers-Queues :
      (r : ℕ) (s : Session p)
      → At a i before moments 0 0 0 0 r s
      → let powers = (compute_powers num_motors_per_hub 0 s).1 in
        (store : ExpansionHubNtState p) × (q : Queues 4
          (per_channel (power_for p a i powers) (4 + r) num_motors_per_hub 0)
          store
          s
          (send_powers s))
        × At a i before moments 0 0 0 0 (4 + r) q.after
  unfolding send_powers
  send_powers-Queues r s h =
      let powers = (compute_powers num_motors_per_hub 0 s).1 in
      let t = (compute_powers num_motors_per_hub 0 s).0 in
      let (at_t, serial, effects) = compute_powers-At 4 0 r s h in
      let (store, q, h') =
        per_channel-Steps 0 (power_for p a i powers) (send_power powers)
          (λ c r'. At a i before moments 0 0 0 0 (4 + r)) (send_power-Steps powers (4 + r)) 4 0
          (4 + r) t (reading-At 0 0 0 0 _ (4 + r) t (omega arith) at_t) in
      (
        store,
        record {
          after = q.after;
          ends = q.ends;
          serial_is =
              q.serial_is
              ∙ ap (queue_all (per_channel (power_for p a i powers) (4 + r) num_motors_per_hub 0))
                  serial;
          store_is = q.store_is;
          effects_are = q.effects_are ∙ effects;
          moments_are = q.moments_are ∙ at_t.moments_is ∙ sym h.moments_is;
          readings_are = omega (arith, q.readings_are, at_t.readings_is, h.readings_is);
        },
        h',
      )
