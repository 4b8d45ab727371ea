-- ===== src/Hub/Devices.antt =====
-- expansionhub/main.cpp: `OnDeviceAdded`, `OnDeviceRemoved`, `OnUpdate` and `StartUvLoop` of a bus.
use scservices.Prelude.{
  ℕ, ◌+◌, Bool, true, false, Option, none, some, List, ◌++◌, [], ◌∷◌, ◌&&◌, Bytes, ltb, leb, ◌==◌,
  if◌then◌else◌, not, add_u64, sub_u64, ◌>>=◌,
}
use scservices.Platform.{Platform}
use scservices.NtState.{ExpansionHubNtState}
use scservices.Topics
use scservices.Serial.{
  poll_started, poll_stopped, Effect, ExpansionHubSerial, Topic, published_int, published_bool,
  Session, Action, emit, on_serial, ◌>=>◌,
}
use scservices.Serial.Output.{recover, allow_send, start_transaction}
use scservices.Serial.Handshake.{run_synchronous_steps, has_finished_synchronous}
use scservices.Serial.Reply.{on_store}
use scservices.Serial.Payload.{do_read}
use scservices.Serial.Lifetime.{set_callbacks, destroy}
use scservices.Hub.{ExpansionHubState, session, leave, run_on}
use scservices.Hub.Commands.{send_initial, send_commands, forget_settings}

abbrev pub num_usb_buses : ℕ
num_usb_buses = 4

-- `==` of two paths.
pub same_path : Bytes → Bytes → Bool
same_path [] [] = true
same_path (x ∷ xs) (y ∷ ys) = x == y && same_path xs ys
same_path _ _ = false

module _ {p : Platform} where
  -- `ntStore.Initialize(*ntInstance, busId)` makes the subscribers and publishers of the bus, once.
  abbrev pub initialize_topics : ExpansionHubState p → ExpansionHubState p
  initialize_topics h = record h {
    topics = h.topics ++ Topics.initialize h.nt_store.is_connected_publisher h.bus_id;
  }

  abbrev initialize_store : ExpansionHubNtState p → ExpansionHubNtState p
  initialize_store store = record store { is_connected_publisher = true }

  abbrev clear_counters : ExpansionHubNtState p → ExpansionHubNtState p
  clear_counters store = record store {
    num_nacks = 0;
    num_crc_failures = 0;
    num_missed_send_loops = 0;
  }

  abbrev pub announce : Session p → Session p
  announce s = emit (published_int Topic.num_missed_send_loops 0) (
      emit (published_int Topic.num_crc_failures 0) (
        emit (published_int Topic.num_nacks 0) (
          emit (published_bool Topic.is_connected true)
            (on_store (λ store. clear_counters (initialize_store store)) s))))

  -- `ExpansionHubState::OnDeviceAdded`.
  unfoldable pub on_device_added :
      ExpansionHubState p → ExpansionHubSerial → Option (ExpansionHubState p)
  unfolding forget_settings set_callbacks
  on_device_added h hub =
      run_on (initialize_topics h) hub
        λ s. forget_settings (announce s) >>= λ t. some (on_serial set_callbacks t)

  abbrev removed_from :
      Option ExpansionHubSerial → ExpansionHubState p → Bytes → ExpansionHubState p
  removed_from none h path = h
  removed_from (some serial) h path =
      if same_path path serial.serial_path
      then leave h none
          (destroy (emit (published_bool Topic.is_connected false) (session h serial)))
      else h

  -- `ExpansionHubState::OnDeviceRemoved`.
  unfoldable pub on_device_removed : ExpansionHubState p → Bytes → ExpansionHubState p
  unfolding same_path destroy
  on_device_removed h path = removed_from h.current_hub h path

  -- The rest of `OnUpdate`, when a transaction may start.
  unfoldable pub begin_transaction : Bool → Action p
  unfolding start_transaction send_initial
  begin_transaction can_enable = start_transaction can_enable >=> send_initial

  abbrev pub miss_loop : Session p → Session p
  miss_loop s =
      let n = add_u64 s.store.num_missed_send_loops 1 in
      emit (published_int Topic.num_missed_send_loops n)
        (on_store (λ store. record store { num_missed_send_loops = n }) s)

  -- `OnUpdate` on a link that is ready, at `now`.
  unfoldable pub update_ready :
      Bool → ExpansionHubState p → ExpansionHubSerial → ℕ → Option (ExpansionHubState p)
  unfolding begin_transaction recover allow_send
  update_ready can_enable h serial now =
      let delta = sub_u64 now h.last_loop in
      if not (allow_send serial) && ltb delta 1000000
      then run_on h serial (λ s. some (miss_loop s))
      else run_on (record h { last_loop = now })
          (if not (allow_send serial) && leb 1000000 delta then recover serial else serial)
          (begin_transaction can_enable)

  abbrev update_on :
      Option ExpansionHubSerial → Bool → ExpansionHubState p → Option (ExpansionHubState p)
  update_on none can_enable h = some h
  update_on (some serial) can_enable h =
      if not (has_finished_synchronous serial)
      then run_on h serial run_synchronous_steps
      else update_ready can_enable (record h { readings = h.readings + 1 }) serial
          (h.moments h.readings).now

  -- `ExpansionHubState::OnUpdate`.
  unfoldable pub on_update : Bool → ExpansionHubState p → Option (ExpansionHubState p)
  unfolding update_ready has_finished_synchronous run_synchronous_steps
  on_update can_enable h = update_on h.current_hub can_enable h

  -- Whether the last poll of a port goes on.
  abbrev polled_after : Bool → List (Effect p) → Bool
  polled_after polled [] = polled
  polled_after polled (poll_started fd ∷ es) = polled_after true es
  polled_after polled (poll_stopped ∷ es) = polled_after false es
  polled_after polled (_ ∷ es) = polled_after polled es

  abbrev pub is_polled : List (Effect p) → Bool
  is_polled es = polled_after false es

  abbrev read_on :
      Option ExpansionHubSerial → Option Bytes → ExpansionHubState p → Option (ExpansionHubState p)
  read_on none bytes h = if is_polled h.effects then none else some h
  read_on (some serial) bytes h = run_on h serial (do_read send_commands bytes)

  -- The event loop's call of `DoRead`, with the callback that `OnDeviceAdded` sets. Once the hub is removed, a poll
  -- that has not been stopped calls it on a deleted object.
  unfoldable pub on_readable : Option Bytes → ExpansionHubState p → Option (ExpansionHubState p)
  unfolding do_read send_commands
  on_readable bytes h = read_on h.current_hub bytes h

  unfoldable pub start_uv_loop : ℕ → ExpansionHubState p → ExpansionHubState p × Bool
  start_uv_loop bus h =
      if leb num_usb_buses bus then (h, false) else (record h { bus_id = bus }, true)
