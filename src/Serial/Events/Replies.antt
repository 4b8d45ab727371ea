-- ===== src/Serial/Events/Replies.antt =====
-- expansionhub/ExpansionHubSerial.cpp: the replies within a transaction and the invariant of a link.
use scservices.Prelude.{
  ◌<◌, arith, Bool, [], ◌∷◌, ◌++◌, ℤ, ℕ, refl, true, not, inl, inr, Bytes, ◌==◌, get_elem?,
  Bool-cases,
}
use scservices.Messages.{
  ForMotor, Reply, servo_enable, servo_configuration, motor_enable, motor_reset_encoder,
  motor_set_run_mode, motor_get_current, bulk_input, module_status, battery_voltage, other,
}
use scservices.NtState.{num_motors_per_hub}
use scservices.Packet.{read_int16, read_int32, subspan}
use scservices.Platform.{Platform}
use scservices.Serial.{Action, ◌>=>◌, on_serial}
use scservices.Serial.Reply.{
  with_store, count_crc_failure, count_nack, publish_encoder, publish_battery, read_encoder,
  handle_bulk_input, handle_battery, handle_current, handle_module_status, handle_reply,
}
use scservices.Serial.Keeps.{Guards, then-Guards, bind-Holds}
use scservices.Serial.Sending.{IsLink}
use scservices.Serial.Events.{IsLink-Same, IsLink-effect}

module _ {p : Platform} {can_enable : Bool} where
  pub count_crc_failure-Guards : Guards p (IsLink can_enable) count_crc_failure
  unfolding count_crc_failure
  count_crc_failure-Guards s h = elim (Bool-cases s.serial.has_callbacks) [
    | inl set ↦ simp set (IsLink-effect s.serial s.effects _ (refl, tt) h)
    | inr unset ↦ simp unset h
  ]

  pub count_nack-Guards : Guards p (IsLink can_enable) count_nack
  unfolding count_nack
  count_nack-Guards s h = elim (Bool-cases s.serial.has_callbacks) [
    | inl set ↦ simp set (IsLink-effect s.serial s.effects _ (refl, tt) h)
    | inr unset ↦ simp unset h
  ]

  with_store-Guards :
      (f : Action p) → Guards p (IsLink can_enable) f → Guards p (IsLink can_enable) (with_store f)
  with_store-Guards f g s h = elim (Bool-cases s.serial.has_callbacks) [
    | inl set ↦ simp set (g s h)
    | inr unset ↦ simp unset tt
  ]

  publish_encoder-Guards :
      (i : ℕ) (position velocity : ℤ)
      → i < num_motors_per_hub
      → Guards p (IsLink can_enable) (publish_encoder i position velocity)
  unfolding publish_encoder
  publish_encoder-Guards i position velocity lt s h = elim (Bool-cases s.serial.has_callbacks) [
    | inl set ↦ simp set (
        IsLink-effect s.serial (s.effects ++ _ ∷ []) _ (refl, lt)
          (IsLink-effect s.serial s.effects _ (refl, lt) h))
    | inr unset ↦ simp unset tt
  ]

  read_encoder-Guards :
      (i at at' : ℕ) (pay : Bytes)
      → i < num_motors_per_hub
      → Guards p (IsLink can_enable) (read_encoder i at at' pay)
  unfolding read_encoder
  read_encoder-Guards i at at' pay lt s h =
      bind-Holds p (IsLink can_enable) (subspan pay at) _ (λ b.
        bind-Holds p (IsLink can_enable) (read_int32 b) _ (λ position.
          bind-Holds p (IsLink can_enable) (subspan pay at') _ (λ b'.
            bind-Holds p (IsLink can_enable) (read_int16 b') _
              (λ velocity. publish_encoder-Guards i position velocity lt s h))))

  handle_bulk_input-Guards : (pay : Bytes) → Guards p (IsLink can_enable) (handle_bulk_input pay)
  unfolding handle_bulk_input
  handle_bulk_input-Guards pay s h =
      let f = λ (i : ℕ). λ (at : ℕ). λ (at' : ℕ). read_encoder {p = p} i at at' pay in
      let t = on_serial (λ r. record r { have_bulk = true }) s in
      then-Guards p (IsLink can_enable) (f 0 1 18) (f 1 5 20 >=> f 2 9 22 >=> f 3 13 24)
        (read_encoder-Guards 0 1 18 pay (omega arith))
        (then-Guards p (IsLink can_enable) (f 1 5 20) (f 2 9 22 >=> f 3 13 24)
          (read_encoder-Guards 1 5 20 pay (omega arith))
          (then-Guards p (IsLink can_enable) (f 2 9 22) (f 3 13 24)
            (read_encoder-Guards 2 9 22 pay (omega arith))
            (read_encoder-Guards 3 13 24 pay (omega arith))))
        t (IsLink-Same s.serial t.serial (refl, λ k. k) refl h)

  publish_battery-Guards : (raw : ℤ) → Guards p (IsLink can_enable) (publish_battery raw)
  unfolding publish_battery
  publish_battery-Guards raw s h = elim (Bool-cases s.serial.has_callbacks) [
    | inl set ↦ simp set (IsLink-effect s.serial s.effects _ (refl, tt) h)
    | inr unset ↦ simp unset tt
  ]

  handle_battery-Guards : (pay : Bytes) → Guards p (IsLink can_enable) (handle_battery pay)
  unfolding handle_battery
  handle_battery-Guards pay s h =
      let t = on_serial (λ r. record r { have_battery = true }) s in
      bind-Holds p (IsLink can_enable) (read_int16 pay) _
        (λ raw. publish_battery-Guards raw t (IsLink-Same s.serial t.serial (refl, λ k. k) refl h))

  handle_current-Guards :
      (i : ℕ) (pay : Bytes)
      → i < num_motors_per_hub
      → Guards p (IsLink can_enable) (handle_current i pay)
  unfolding handle_current
  handle_current-Guards i pay lt s h = elim (Bool-cases s.serial.has_callbacks) [
    | inl set ↦ simp set (
        bind-Holds p (IsLink can_enable) (read_int16 pay) _
          (λ raw. IsLink-effect s.serial s.effects _ (refl, lt) h))
    | inr unset ↦ simp unset h
  ]

  handle_module_status-Guards :
      (pay : Bytes) → Guards p (IsLink can_enable) (handle_module_status pay)
  unfolding handle_module_status
  handle_module_status-Guards pay s h =
      bind-Holds p (IsLink can_enable) (get_elem? pay 0) _ (λ status.
        IsLink-Same s.serial
          (record (s.serial) { have_module_status = true; device_reset = not (status == 0) })
          (refl, λ k. k) refl h)

  pub handle_reply-Guards :
      (r : Reply) (pay : Bytes) → ForMotor r → Guards p (IsLink can_enable) (handle_reply r pay)
  unfolding handle_reply
  handle_reply-Guards module_status pay lt = handle_module_status-Guards pay
  handle_reply-Guards (motor_reset_encoder i) pay lt = with_store-Guards _ (λ s h. h)
  handle_reply-Guards (motor_enable i) pay lt = with_store-Guards _ (λ s h. h)
  handle_reply-Guards (motor_set_run_mode i) pay lt = with_store-Guards _ (λ s h. h)
  handle_reply-Guards (servo_configuration i) pay lt = with_store-Guards _ (λ s h. h)
  handle_reply-Guards (servo_enable i) pay lt = with_store-Guards _ (λ s h. h)
  handle_reply-Guards bulk_input pay lt = handle_bulk_input-Guards pay
  handle_reply-Guards battery_voltage pay lt = handle_battery-Guards pay
  handle_reply-Guards (motor_get_current i) pay lt = handle_current-Guards i pay lt
  handle_reply-Guards other pay lt = λ s h. h
