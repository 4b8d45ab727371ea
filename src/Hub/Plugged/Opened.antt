-- ===== src/Hub/Plugged/Opened.antt =====
-- expansionhub/main.cpp: a port that has been opened, in `OnDeviceAdded`, up to the discovery.
use scservices.Prelude.{
  ℕ, suc, ◌^◌, ◌<◌, ◌≡◌, refl, ap, ◌∙◌, Bool, true, false, Option, none, some, List, [], ◌∷◌, ◌++◌,
  Bytes, ◌>>=◌, append-nil, leb, sub_u64,
}
use scservices.Messages.{message_discover}
use scservices.Packet.{discover_id, build_packet}
use scservices.Platform.{Platform, Moment}
use scservices.Serial.{ExpansionHubSerial, Effect, Session, new_serial, written}
use scservices.Serial.Output.{send_packet}
use scservices.Serial.Handshake.{
  message_timeout, discover_address, retry, run_discover_internal, run_synchronous_steps,
}
use scservices.Serial.Lifetime.{initialize, set_callbacks}
use scservices.Serial.Steps.{late_lem}
use scservices.Serial.Flow.Port.{port_bytes, port_bytes-append}
use scservices.Hub.{ExpansionHubState, session, leave}
use scservices.Hub.Commands.{forget_settings, forget_motor, forget_servo}
use scservices.CachedCommand.{force_reset}
use scservices.Hub.Devices.{on_device_added}
use scservices.Hub.Daemon.{added_to}

-- A moment at which the time since boot has passed the timeout.
abbrev pub IsPast : {p : Platform} → Moment p → Type 0
IsPast m = (message_timeout < m.now) × (m.now < 2 ^ 64)

-- The link of a port that has been opened, at the time of the question who is there.
abbrev pub opened : ℕ → Bytes → ℕ → ExpansionHubSerial
opened fd path now = record new_serial {
  serial_fd = some fd;
  serial_path = path;
  discover_start_time = now;
  has_callbacks = true;
}

abbrev pub discovery : Bytes
discovery = build_packet discover_address message_discover discover_id []

pub bind_to {ℓ ℓ'} :
    {A : Type ℓ} {B : Type ℓ'} (m : Option A) (f : A → Option B) {a : A} {r : Option B}
    → m ≡ some a
    → f a ≡ r
    → (m >>= f) ≡ r
bind_to m f e k = ap (λ o. o >>= f) e ∙ k

module _ {p : Platform} where
  -- Effects that write nothing to the port.
  then_quiet :
      (es fs : List (Effect p)) (bs : Bytes)
      → port_bytes fs ≡ bs
      → port_bytes (es ++ fs) ≡ port_bytes es ++ bs
  then_quiet es fs bs e = port_bytes-append es fs ∙ ap (λ t. port_bytes es ++ t) e

  -- What a bus has after `OnDeviceAdded` of it.
  on_device_added_lem :
      (h : ExpansionHubState p) (r : ExpansionHubSerial)
      → (h' : ExpansionHubState p) × (on_device_added h r ≡ some h')
        × (h'.current_hub ≡ some (record r { has_callbacks = true }))
        × (h'.moments ≡ h.moments)
        × (h'.readings ≡ h.readings)
        × (port_bytes h'.effects ≡ port_bytes h.effects)
  unfolding on_device_added forget_settings forget_motor forget_servo set_callbacks force_reset
  on_device_added_lem h r = (_, refl, refl, refl, refl, simp (port_bytes-append, append-nil) refl)

  abbrev questioned : Session p → Session p
  questioned s = record s {
    serial = record (s.serial) { discover_start_time = (s.moments s.readings).now };
    readings = suc s.readings;
    effects = s.effects ++ written discovery ∷ [];
  }

  -- What a link that is new does with the port that has been opened.
  run_synchronous_steps-discovery :
      (s : Session p)
      → s.serial.address ≡ none
      → s.serial.discover_start_time ≡ 0
      → IsPast (s.moments s.readings)
      → run_synchronous_steps s ≡ some (questioned s)
  unfolding run_synchronous_steps run_discover_internal retry send_packet
  run_synchronous_steps-discovery s a start late =
      let again : leb (sub_u64 (s.moments s.readings).now s.serial.discover_start_time)
            message_timeout
          ≡ false =
        rw start (late_lem _ late) in
      simp (a, again) refl

  -- `Initialize` on a new link.
  initialize_lem :
      (h : ExpansionHubState p) (fd : ℕ) (has_poll : Bool) (path : Bytes)
      → let s = (initialize has_poll fd path (session h new_serial)).0 in
        (s.serial ≡ record new_serial { serial_fd = some fd; serial_path = path })
        × (s.moments ≡ h.moments)
        × (s.readings ≡ h.readings)
        × (port_bytes s.effects ≡ port_bytes h.effects)
  unfolding initialize
  initialize_lem h fd true path = (refl, refl, refl, simp (port_bytes-append, append-nil) refl)
  initialize_lem h fd false path = (refl, refl, refl, simp (port_bytes-append, append-nil) refl)

  -- What a bus has after a port has been opened.
  pub added_to-opened :
      (h : ExpansionHubState p) (fd : ℕ) (has_poll : Bool) (path : Bytes)
      → IsPast (h.moments h.readings)
      → (h' : ExpansionHubState p) × (added_to (some fd) has_poll path h ≡ some h')
        × (h'.current_hub ≡ some (opened fd path (h.moments h.readings).now))
        × (h'.moments ≡ h.moments)
        × (h'.readings ≡ suc h.readings)
        × (port_bytes h'.effects ≡ port_bytes h.effects ++ discovery)
  added_to-opened h fd has_poll path late =
      let s = (initialize has_poll fd path (session h new_serial)).0 in
      let (r, m, n, e) = initialize_lem h fd has_poll path in
      let now : (s.moments s.readings) ≡ h.moments h.readings = rw (m, n) refl in
      let t = questioned s in
      let asked =
        run_synchronous_steps-discovery s (ap (λ x. x.address) r)
          (ap (λ x. x.discover_start_time) r) (rw now late) in
      let (h', ends, hub, moments, readings, quiet) =
        on_device_added_lem (leave h none t) t.serial in
      (
        h',
        bind_to _ _ asked ends,
        hub
            ∙ ap
                (λ (x : ExpansionHubSerial). some (record x {
                  discover_start_time = (s.moments s.readings).now;
                  has_callbacks = true;
                }))
                r
            ∙ ap (λ (x : Moment p). some (opened fd path x.now)) now,
        moments ∙ m,
        readings ∙ ap suc n,
        quiet
            ∙ then_quiet s.effects (written discovery ∷ []) discovery (append-nil discovery)
            ∙ ap (λ bs. bs ++ discovery) e,
      )
