-- ===== src/Serial/Reply.antt =====
-- expansionhub/ExpansionHubSerial.cpp: what `HandlePayload` does with each kind of
-- reply, and its two failure counters.
use scservices.Prelude.{
  ℕ, true, false, not, none, some, Bytes, get_elem?, ◌==◌, if◌then◌else◌, add_u64, ◌>>=◌, ℤ, pos,
}
use scservices.CachedCommand.{ack}
use scservices.Messages.{
  Reply, servo_enable, servo_configuration, motor_enable, motor_reset_encoder, motor_set_run_mode,
  motor_get_current, bulk_input, module_status, battery_voltage, other,
}
use scservices.Packet.{read_int16, read_int32, subspan}
use scservices.Platform.{Platform}
use scservices.NtState.{MotorNtState, ServoNtState, ExpansionHubNtState, update, set_encoder}
use scservices.Serial.{
  Topic, published_int, published_double, Session, Action, skip, reading, emit, on_serial, ◌>=>◌,
}

-- `ReadInt16(payload) / 1000.0`
abbrev pub thousandths : (p : Platform) → ℤ → p.Double
thousandths p v = p.div (p.of_int v) (p.of_int (pos 1000))

module _ {p : Platform} where
  -- `ntStore->`, which wants the store to be set.
  abbrev pub with_store : Action p → Action p
  with_store f s = if s.serial.has_callbacks then f s else none

  abbrev pub on_store : (ExpansionHubNtState p → ExpansionHubNtState p) → Session p → Session p
  on_store f s = record s { store = f s.store }

  abbrev pub on_motor : ℕ → (MotorNtState p → MotorNtState p) → Session p → Session p
  on_motor i f =
      on_store λ store. record store { motors = update store.motors i (f (store.motors i)) }

  abbrev pub on_servo : ℕ → (ServoNtState → ServoNtState) → Session p → Session p
  on_servo i f =
      on_store λ store. record store { servos = update store.servos i (f (store.servos i)) }

  -- The failure counters, which are left alone before `SetCallbacks`.
  unfoldable pub count_crc_failure : Action p
  count_crc_failure s =
      let n = add_u64 s.store.num_crc_failures 1 in
      some (
        if s.serial.has_callbacks
        then emit (published_int Topic.num_crc_failures n)
            (on_store (λ store. record store { num_crc_failures = n }) s)
        else s)

  unfoldable pub count_nack : Action p
  count_nack s =
      let n = add_u64 s.store.num_nacks 1 in
      some (
        if s.serial.has_callbacks
        then emit (published_int Topic.num_nacks n)
            (on_store (λ store. record store { num_nacks = n }) s)
        else s)

  -- One motor's part of the bulk reply: its position and velocity, by their offsets.
  unfoldable pub publish_encoder : ℕ → ℤ → ℤ → Action p
  publish_encoder i position velocity = reading λ moment. with_store λ t.
      let m =
        set_encoder (moment.motor i) (p.of_int position) (p.of_int velocity) (t.store.motors i) in
      some (
        emit (published_double (Topic.velocity i) m.last_encoder_velocity) (
          emit (published_double (Topic.encoder i) m.last_encoder_position)
            (on_motor i (λ _. m) t)))

  unfoldable pub read_encoder : ℕ → ℕ → ℕ → Bytes → Action p
  unfolding publish_encoder
  read_encoder i position_at velocity_at pay s = subspan pay position_at >>= λ position_span.
      read_int32 position_span >>= λ position. subspan pay velocity_at >>= λ velocity_span.
      read_int16 velocity_span >>= λ velocity. publish_encoder i position velocity s

  unfoldable pub handle_bulk_input : Bytes → Action p
  unfolding read_encoder
  handle_bulk_input pay =
      (λ s. some (on_serial (λ r. record r { have_bulk = true }) s))
      >=> read_encoder 0 1 18 pay
      >=> read_encoder 1 5 20 pay
      >=> read_encoder 2 9 22 pay
      >=> read_encoder 3 13 24 pay

  unfoldable pub publish_battery : ℤ → Action p
  publish_battery raw = with_store λ t. some (
      emit (published_double Topic.battery_voltage (thousandths p raw))
        (on_store (λ store. record store { last_battery = thousandths p raw }) t))

  unfoldable pub handle_battery : Bytes → Action p
  unfolding publish_battery
  handle_battery pay s = read_int16 pay >>= λ raw.
      publish_battery raw (on_serial (λ r. record r { have_battery = true }) s)

  unfoldable pub handle_current : ℕ → Bytes → Action p
  handle_current i pay s =
      if s.serial.has_callbacks
      then (read_int16 pay >>= λ raw.
          some (emit (published_double (Topic.current i) (thousandths p raw)) s))
      else some s

  unfoldable pub handle_module_status : Bytes → Action p
  handle_module_status pay s = get_elem? pay 0 >>= λ status.
      some (
        on_serial (λ r. record r { have_module_status = true; device_reset = not (status == 0) }) s)

  -- The switch of `HandlePayload`.
  unfoldable pub handle_reply : Reply → Bytes → Action p
  unfolding handle_module_status handle_bulk_input handle_battery handle_current ack
  handle_reply module_status pay = handle_module_status pay
  handle_reply (motor_reset_encoder i) pay =
      with_store λ s. some (on_motor i (λ m. record m { do_reset = false }) s)
  handle_reply (motor_enable i) pay =
      with_store
        λ s. some (on_motor i (λ m. record m { enabled_subscriber = ack m.enabled_subscriber }) s)
  handle_reply (motor_set_run_mode i) pay = with_store λ s.
      some (on_motor i (λ m. record m { float_on_0_subscriber = ack m.float_on_0_subscriber }) s)
  handle_reply (servo_configuration i) pay = with_store λ s.
      some
        (on_servo i (λ v. record v { frame_period_subscriber = ack v.frame_period_subscriber }) s)
  handle_reply (servo_enable i) pay =
      with_store
        λ s. some (on_servo i (λ v. record v { enabled_subscriber = ack v.enabled_subscriber }) s)
  handle_reply bulk_input pay = handle_bulk_input pay
  handle_reply battery_voltage pay = handle_battery pay
  handle_reply (motor_get_current i) pay = handle_current i pay
  handle_reply other pay = skip
