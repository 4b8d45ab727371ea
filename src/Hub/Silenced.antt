-- ===== src/Hub/Silenced.antt =====
-- expansionhub/main.cpp: `ForceReset` of all the settings, and the enabled settings of a disabled hub.
use scservices.Prelude.{
  ap, ◌∙◌, ℕ, zero, suc, ◌+◌, ◌<◌, ◌≡◌, refl, arith, Bool, false, none, some, [], ◌∷◌, Bytes,
  length, to_u16, Option, ◌>>=◌,
}
use scservices.Messages.{numbered, message_motor_enable_0, message_servo_enable_0}
use scservices.Packet.{build_packet}
use scservices.CachedCommand.{CachedCommand, get_with_can_enable, force_reset}
use scservices.Platform.{Platform}
use scservices.Serial.{ExpansionHubSerial, Session}
use scservices.Serial.Requests.{request, send_motor_enable, send_servo_enable}
use scservices.Serial.Sending.{IsKnown}
use scservices.Serial.Queue.{enqueue, send_packet-enqueue}
use scservices.Serial.Reply.{on_motor, on_servo}
use scservices.Hub.Commands.{send_if, send_enable, send_servo_enabled, forget_settings}

-- `false` has been sent, and is not acknowledged.
abbrev pub sent_off : CachedCommand Bool
sent_off = record { last_acked_value = none; last_attempted_value = false }

-- With nothing acknowledged, a disabled hub is sent `false`.
get_with_can_enable-fresh :
    (value : Bool) (c : CachedCommand Bool)
    → c.last_acked_value ≡ none
    → get_with_can_enable false value c ≡ (sent_off, some false)
unfolding get_with_can_enable
get_with_can_enable-fresh value c fresh = simp fresh refl

bind-some {ℓ} :
    {A B : Type ℓ} (o : Option A) (a : A) (f : A → Option B) (x : Option B)
    → o ≡ some a
    → f a ≡ x
    → (o >>= f) ≡ x
bind-some o a f x e e' = rw e e'

-- The packets that disable a motor, and a servo, of the hub with an address and an interface.
abbrev pub motor_disabling : ℕ → ℕ → ℕ → Bytes
motor_disabling address interface i =
    build_packet address (numbered message_motor_enable_0 i) (to_u16 (interface + 10)) (i ∷ 0 ∷ [])

abbrev pub servo_disabling : ℕ → ℕ → ℕ → Bytes
servo_disabling address interface i =
    build_packet address (numbered message_servo_enable_0 i) (to_u16 (interface + 35)) (i ∷ 0 ∷ [])

module _ {p : Platform} where
  request-enqueue :
      (message offset address interface : ℕ) (pay : Bytes) (s : Session p)
      → s.serial.address ≡ some address
      → s.serial.packet_interface_id ≡ some interface
      → length pay < 1013
      → request message offset pay s
        ≡ some (record s {
          serial =
              enqueue s.serial (build_packet address message (to_u16 (interface + offset)) pay);
        })
  request-enqueue message offset address interface pay s a i short =
      bind-some s.serial.packet_interface_id interface _ _ i (
        bind-some s.serial.address address _ _ a
          (send_packet-enqueue s address message (to_u16 (interface + offset)) pay short))

  -- A motor, and a servo, that a disabled hub is told again to disable.
  abbrev pub motor_told : ℕ → ℕ → ℕ → Session p → Session p
  motor_told address interface i s =
      let t = on_motor i (λ m. record m { enabled_subscriber = sent_off }) s in
      record t {
        serial = enqueue s.serial (motor_disabling address interface i);
        readings = suc s.readings;
      }

  abbrev pub servo_told : ℕ → ℕ → ℕ → Session p → Session p
  servo_told address interface i s =
      let t = on_servo i (λ v. record v { enabled_subscriber = sent_off }) s in
      record t {
        serial = enqueue s.serial (servo_disabling address interface i);
        readings = suc s.readings;
      }

  pub send_enable-told :
      (i address interface : ℕ) (s : Session p)
      → s.serial.address ≡ some address
      → s.serial.packet_interface_id ≡ some interface
      → (s.store.motors i).enabled_subscriber.last_acked_value ≡ none
      → send_enable false i s ≡ some (motor_told address interface i s)
  unfolding send_enable send_motor_enable
  send_enable-told i address interface s a n fresh =
      let value = ((s.moments s.readings).motor i).enabled in
      let c = (s.store.motors i).enabled_subscriber in
      sends (get_with_can_enable false value c) (get_with_can_enable-fresh value c fresh)
    where
      sends :
          (g : CachedCommand Bool × Option Bool)
          → g ≡ (sent_off, some false)
          → send_if (send_motor_enable i) g.1 (
              on_motor i
                (λ m. record m { enabled_subscriber = g.0 })
                (record s { readings = suc s.readings }))
            ≡ some (motor_told address interface i s)
      sends g e = rw e (
          request-enqueue (numbered message_motor_enable_0 i) 10 address interface (i ∷ 0 ∷ [])
            (on_motor i (λ m. record m { enabled_subscriber = sent_off })
              (record s { readings = suc s.readings }))
            a n (omega arith))

  pub send_servo_enabled-told :
      (i address interface : ℕ) (s : Session p)
      → s.serial.address ≡ some address
      → s.serial.packet_interface_id ≡ some interface
      → (s.store.servos i).enabled_subscriber.last_acked_value ≡ none
      → send_servo_enabled false i s ≡ some (servo_told address interface i s)
  unfolding send_servo_enabled send_servo_enable
  send_servo_enabled-told i address interface s a n fresh =
      let value = ((s.moments s.readings).servo i).enabled in
      let c = (s.store.servos i).enabled_subscriber in
      sends (get_with_can_enable false value c) (get_with_can_enable-fresh value c fresh)
    where
      sends :
          (g : CachedCommand Bool × Option Bool)
          → g ≡ (sent_off, some false)
          → send_if (send_servo_enable i) g.1 (
              on_servo i
                (λ v. record v { enabled_subscriber = g.0 })
                (record s { readings = suc s.readings }))
            ≡ some (servo_told address interface i s)
      sends g e = rw e (
          request-enqueue (numbered message_servo_enable_0 i) 35 address interface (i ∷ 0 ∷ [])
            (on_servo i (λ v. record v { enabled_subscriber = sent_off })
              (record s { readings = suc s.readings }))
            a n (omega arith))

  -- The handler ends, and all that it does to the link is to queue a packet.
  abbrev pub Queues : Bytes → ExpansionHubSerial → Option (Session p) → Type 0
  Queues packet r m = (t : Session p) × (m ≡ some t) × (t.serial ≡ enqueue r packet)

  -- Nothing is acknowledged of the enabled settings, and the link is as it was.
  pub record Forgets (s t : Session p) : Type 0 where
    pub same_serial : t.serial ≡ s.serial
    pub same_effects : t.effects ≡ s.effects
    pub motors_fresh :
        (i : ℕ) → i < 4 → (t.store.motors i).enabled_subscriber.last_acked_value ≡ none
    pub servos_fresh :
        (i : ℕ) → i < 6 → (t.store.servos i).enabled_subscriber.last_acked_value ≡ none

  pub forget_settings-Forgets :
      (s : Session p) → (t : Session p) × (forget_settings s ≡ some t) × Forgets s t
  unfolding forget_settings force_reset
  forget_settings-Forgets s = (
    forgotten,
    refl,
    record {
      same_serial = refl;
      same_effects = refl;
      motors_fresh = motors;
      servos_fresh = servos;
    },
  )
    where
      get_session : Option (Session p) → Session p
      get_session none = s
      get_session (some t) = t

      forgotten : Session p
      forgotten = get_session (forget_settings s)

      motors :
          (i : ℕ) → i < 4 → (forgotten.store.motors i).enabled_subscriber.last_acked_value ≡ none
      motors zero h = refl
      motors (suc zero) h = refl
      motors (suc (suc zero)) h = refl
      motors (suc (suc (suc zero))) h = refl
      motors (suc (suc (suc (suc i)))) h = absurd (omega (arith, h))

      servos :
          (i : ℕ) → i < 6 → (forgotten.store.servos i).enabled_subscriber.last_acked_value ≡ none
      servos zero h = refl
      servos (suc zero) h = refl
      servos (suc (suc zero)) h = refl
      servos (suc (suc (suc zero))) h = refl
      servos (suc (suc (suc (suc zero)))) h = refl
      servos (suc (suc (suc (suc (suc zero))))) h = refl
      servos (suc (suc (suc (suc (suc (suc i)))))) h = absurd (omega (arith, h))

  -- On a known hub, whatever it has acknowledged: `ForceReset` of all the settings leaves the link alone, and from
  -- then on, while the hub is not to be enabled and whatever the topics ask for, the enabled setting of each of
  -- the four motors and six servos is sent: exactly the packet that disables the channel is queued.
  pub forget_settings-Queues :
      (s : Session p) (k : IsKnown s.serial)
      → (t : Session p) × (forget_settings s ≡ some t)
        × (t.serial ≡ s.serial)
        × ((i : ℕ)
            → i < 4
            → Queues (motor_disabling k.address k.interface i) s.serial (send_enable false i t))
        × ((i : ℕ)
            → i < 6
            → Queues
                (servo_disabling k.address k.interface i)
                s.serial
                (send_servo_enabled false i t))
  forget_settings-Queues s k =
      let (t, e, f) = forget_settings-Forgets s in
      let same = f.same_serial in
      let a = ap (λ r. r.address) same ∙ k.address_is in
      let n = ap (λ r. r.packet_interface_id) same ∙ k.interface_is in
      (
        t,
        e,
        same,
        λ i h. (
          motor_told k.address k.interface i t,
          send_enable-told i k.address k.interface t a n (f.motors_fresh i h),
          ap (λ r. enqueue r (motor_disabling k.address k.interface i)) same,
        ),
        λ i h. (
          servo_told k.address k.interface i t,
          send_servo_enabled-told i k.address k.interface t a n (f.servos_fresh i h),
          ap (λ r. enqueue r (servo_disabling k.address k.interface i)) same,
        ),
      )
