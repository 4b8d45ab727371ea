-- ===== src/Hub/Told/Stores.antt =====
-- expansionhub/main.cpp: what `SendCommands` leaves of the acknowledged settings before it sends them.
use scservices.Prelude.{
  arith, ℕ, zero, suc, ◌≡◌, refl, Bool, false, Option, none, some, Bytes, leb, to_u16, ◌>>=◌,
  Bool-cases, inl, inr, bool_eq, nat_eq, ltb, length,
}
use scservices.CachedCommand.{get}
use scservices.Platform.{Platform, MotorTopics}
use scservices.NtState.{
  MotorNtState, ServoNtState, ExpansionHubNtState, update, compute_motor_power, num_motors_per_hub,
}
use scservices.Serial.{Session, Action, ◌>=>◌}
use scservices.Serial.Output.{send_packet}
use scservices.Serial.Reply.{on_motor, on_servo}
use scservices.Serial.Requests.{
  request, send_motor_current_request, send_servo_configuration, send_motor_constant_power,
  send_motor_mode,
}
use scservices.Hub.{for_from}
use scservices.Hub.Commands.{
  send_if, compute_powers, send_power, send_powers, send_float_on_0, send_frame_period,
}

compute_motor_power-setting :
    {p : Platform} (t : MotorTopics p) (battery : p.Double) (m : MotorNtState p)
    → (compute_motor_power t battery m).0.enabled_subscriber ≡ m.enabled_subscriber
unfolding compute_motor_power
compute_motor_power-setting t battery m = ground arith

-- A property of the store that holds on to the enabled settings only.
pub record IsSparing {p : Platform} (S : ExpansionHubNtState p → Type 0) : Type 0 where
  pub motor_keeps :
      (st : ExpansionHubNtState p) (i : ℕ) (m : MotorNtState p)
      → m.enabled_subscriber ≡ (st.motors i).enabled_subscriber
      → S st
      → S (record st { motors = update st.motors i m })
  pub servo_keeps :
      (st : ExpansionHubNtState p) (i : ℕ) (v : ServoNtState)
      → v.enabled_subscriber ≡ (st.servos i).enabled_subscriber
      → S st
      → S (record st { servos = update st.servos i v })

module _ {p : Platform} (S : ExpansionHubNtState p → Type 0) where
  abbrev pub Leaves : Option (Session p) → Type 0
  Leaves none = Unit
  Leaves (some t) = S t.store

  -- If the handler ends, the property still holds.
  abbrev pub Spares : Action p → Type 0
  Spares f = (s : Session p) → S s.store → Leaves (f s)

  pub then-Spares : (f g : Action p) → Spares f → Spares g → Spares (f >=> g)
  then-Spares f g kf kg s h = later (f s) (kf s h)
    where
      later : (m : Option (Session p)) → Leaves m → Leaves (m >>= g)
      later none e = tt
      later (some t) e = kg t e

  pub for_from-Spares :
      (n first : ℕ) (f : ℕ → Action p) → ((i : ℕ) → Spares (f i)) → Spares (for_from n first f)
  for_from-Spares zero first f k s h = h
  for_from-Spares (suc n) first f k s h =
      then-Spares (f first) (for_from n (suc first) f) (k first) (for_from-Spares n (suc first) f k)
        s h

  bind-Leaves :
      {A : Type 0} (o : Option A) (f : A → Option (Session p))
      → ((a : A) → Leaves (f a))
      → Leaves (o >>= f)
  bind-Leaves none f k = tt
  bind-Leaves (some a) f k = k a

  send_packet-Spares :
      (dest message id : ℕ) (pay : Bytes) → Spares (send_packet dest message id pay false)
  unfolding send_packet
  send_packet-Spares dest message id pay s h = elim (Bool-cases (ltb (length pay) 1013)) [
    | inl fits ↦ simp fits h
    | inr long ↦ simp long tt
  ]

  pub request-Spares : (message offset : ℕ) (pay : Bytes) → Spares (request message offset pay)
  request-Spares message offset pay s h =
      bind-Leaves s.serial.packet_interface_id _
        (λ i. bind-Leaves s.serial.address _ (λ a. send_packet-Spares a message _ pay s h))

  send_if-Spares :
      {A : Type 0} (send : A → Action p) (o : Option A)
      → ((a : A) → Spares (send a))
      → Spares (send_if send o)
  send_if-Spares send none k s h = h
  send_if-Spares send (some a) k s h = k a s h

  pub send_motor_current_request-Spares : (i : ℕ) → Spares (send_motor_current_request i)
  unfolding send_motor_current_request
  send_motor_current_request-Spares i = request-Spares _ _ _

  send_motor_mode-Spares : (i : ℕ) (b : Bool) → Spares (send_motor_mode i b)
  unfolding send_motor_mode
  send_motor_mode-Spares i b = request-Spares _ _ _

  send_power-Spares : (powers : _) (i : ℕ) → Spares (send_power powers i)
  unfolding send_power send_motor_constant_power
  send_power-Spares powers i = request-Spares _ _ _

  send_servo_configuration-Spares : (i v : ℕ) → Spares (send_servo_configuration i v)
  unfolding send_servo_configuration
  send_servo_configuration-Spares i v s h = elim (Bool-cases (leb v 1)) [
    | inl short ↦ simp short h
    | inr long ↦ simp long (request-Spares _ _ _ s h)
  ]

  module _ (c : IsSparing S) where
    pub send_float_on_0-Spares : (i : ℕ) → Spares (send_float_on_0 i)
    unfolding send_float_on_0
    send_float_on_0-Spares i s h =
        let g =
          get ((s.moments s.readings).motor i).float_on_0
            (s.store.motors i).float_on_0_subscriber in
        send_if-Spares (send_motor_mode i) g.1 (send_motor_mode-Spares i)
          (on_motor i (λ m. record m { float_on_0_subscriber = g.0 })
            (record s { readings = suc s.readings }))
          (c.motor_keeps s.store i (record (s.store.motors i) { float_on_0_subscriber = g.0 }) refl
            h)

    pub send_frame_period-Spares : (i : ℕ) → Spares (send_frame_period i)
    unfolding send_frame_period
    send_frame_period-Spares i s h =
        let g =
          get ((s.moments s.readings).servo i).frame_period
            (s.store.servos i).frame_period_subscriber in
        send_if-Spares (λ v. send_servo_configuration i (to_u16 v)) g.1
          (λ v. send_servo_configuration-Spares i (to_u16 v))
          (on_servo i (λ v. record v { frame_period_subscriber = g.0 })
            (record s { readings = suc s.readings }))
          (c.servo_keeps s.store i (record (s.store.servos i) { frame_period_subscriber = g.0 })
            refl h)

    compute_powers-Spares : (n i : ℕ) (s : Session p) → S s.store → S (compute_powers n i s).0.store
    unfolding compute_powers
    compute_powers-Spares zero i s h = h
    compute_powers-Spares (suc n) i s h = compute_powers-Spares n (suc i) _ (
        c.motor_keeps s.store i _
          (compute_motor_power-setting ((s.moments s.readings).motor i) s.store.last_battery
            (s.store.motors i))
          h)

    pub send_powers-Spares : Spares send_powers
    unfolding send_powers
    send_powers-Spares s h =
        let (s', powers) = compute_powers num_motors_per_hub 0 s in
        for_from-Spares 4 0 (send_power powers) (send_power-Spares powers) s'
          (compute_powers-Spares num_motors_per_hub 0 s h)
