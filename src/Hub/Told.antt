-- ===== src/Hub/Told.antt =====
-- expansionhub/main.cpp: the enabled settings of a disabled hub, in a whole `SendCommands` with nothing
-- acknowledged.
pub mod Stores
pub mod Steps
use mathlib.Core.Path.{subst}
use mathlib.Core.List.{Memᴰ}
use scservices.Prelude.{
  ◌+◌, ℕ, zero, suc, ◌≤◌, ◌<◌, ◌≡◌, refl, ap, sym, ◌∙◌, arith, Bool, true, false, ◌⊎◌, inl, inr,
  Option, none, some, List, [], ◌∷◌, ◌++◌, Bytes, ◌==◌, Bool-cases, ◌>>=◌, if◌then◌else◌, Mem-left,
  Mem-right,
}
use scservices.Platform.{Platform}
use scservices.NtState.{
  MotorNtState, ServoNtState, ExpansionHubNtState, update, num_motors_per_hub, num_servos_per_hub,
}
use scservices.Messages.{numbered, message_motor_enable_0, message_servo_enable_0}
use scservices.Serial.{ExpansionHubSerial, Effect, Session, Action, skip, ◌>=>◌}
use scservices.Serial.Output.{flush}
use scservices.Serial.Requests.{send_motor_current_request}
use scservices.Serial.Queue.{concat, IsQueued}
use scservices.Serial.Keeps.{
  IsSendable, Ends, Keeps, send_motor_current_request-Keeps, send_motor_constant_power-Keeps,
}
use scservices.Serial.Sending.{IsKnown}
use scservices.Serial.Flow.Port.{port_bytes}
use scservices.Hub.{for_from, for_each}
use scservices.Hub.Commands.{
  send_commands, forget_settings, send_powers, send_float_on_0, send_enable, send_frame_period,
  send_servo_enabled,
}
use scservices.Hub.Keeps.{
  for_from-Keeps, send_powers-Runs, send_float_on_0-Keeps, send_frame_period-Keeps,
}
use scservices.Hub.Adds.{Adds, Has, Has-IsSendable, start-Adds, enqueue-Adds}
use scservices.Hub.Silenced.{
  motor_disabling, servo_disabling, sent_off, motor_told, servo_told, send_enable-told,
  send_servo_enabled-told, Forgets, forget_settings-Forgets,
}
use scservices.Hub.Told.Stores.{
  IsSparing, Leaves, Spares, for_from-Spares, send_powers-Spares, send_motor_current_request-Spares,
  send_float_on_0-Spares, send_frame_period-Spares,
}
use scservices.Hub.Told.Steps.{
  Told, more-Told, Unacknowledged, Unacknowledged-IsSparing, Tells, Goes, then-Goes, kept,
  motor_step, servo_step, loop,
}

module _ (p : Platform) (a n : ℕ) (before : Bytes) where
  abbrev HasTold : ℕ → ℕ → ExpansionHubSerial → List (Effect p) → Type 0
  HasTold m v = Has p a n before (Told a n m v)

  sendable : (m v : ℕ) → IsSendable p ⊥ (HasTold m v) false
  sendable m v = Has-IsSendable p a n before (Told a n m v) (more-Told a n m v)

  -- The handler goes from the first `m` motors and `v` servos told to the first `m'` and `v'`.
  abbrev Carries : ℕ → ℕ → ℕ → ℕ → Action p → Type 0
  Carries m v m' v' f =
      (s : Session p)
      → Tells p a n before m v s
      → Goes p a n before (Tells p a n before m' v') (f s)

  each_kept :
      (m v channels : ℕ) (f : ℕ → Action p)
      → ((i : ℕ) → Keeps p ⊥ (HasTold m v) (f i))
      → ((i : ℕ) → Spares (Unacknowledged m v) (f i))
      → Carries m v m v (for_each channels f)
  each_kept m v channels f keeps spares =
      kept p a n before m v (for_each channels f)
        (for_from-Keeps p ⊥ (HasTold m v) channels 0 f keeps)
        (for_from-Spares (Unacknowledged m v) channels 0 f spares)

  Ended : Option (Session p) → Type 0
  Ended = Goes p a n before (λ t. HasTold 4 6 t.serial t.effects)

  next :
      (m v m' v' : ℕ) (f g : Action p)
      → Carries m v m' v' f
      → ((s : Session p) → Tells p a n before m' v' s → Ended (g s))
      → (s : Session p) → Tells p a n before m v s
      → Ended ((f >=> g) s)
  unfolding Ended
  next m v m' v' f g carries later s h =
      then-Goes p a n before (Tells p a n before m' v') _ (f s) g (carries s h) later

  flushed : (s : Session p) → Tells p a n before 4 6 s → Ended (flush s)
  unfolding Ended
  flushed s (h, fresh) = later (flush s) ((sendable 4 6).flush_keeps s h)
    where
      later :
          (o : Option (Session p))
          → Ends p ⊥ (HasTold 4 6) o
          → Goes p a n before (λ t. HasTold 4 6 t.serial t.effects) o
      later none e = e
      later (some t) e = e

  -- `SendCommands` behind `ForceReset`, a handler at a time.
  commands : Action p
  commands =
      send_powers
      >=> for_each num_motors_per_hub send_motor_current_request
      >=> for_each num_motors_per_hub send_float_on_0
      >=> for_each num_motors_per_hub (send_enable false)
      >=> for_each num_servos_per_hub send_frame_period
      >=> for_each num_servos_per_hub (send_servo_enabled false)
      >=> flush

  commands-Ended : (s : Session p) → Tells p a n before 0 0 s → Ended (commands s)
  unfolding commands
  commands-Ended =
      let c = sendable 0 0 in
      let spares = Unacknowledged-IsSparing 0 0 in
      next 0 0 0 0 send_powers _
        (kept p a n before 0 0 send_powers
          (send_powers-Runs p ⊥ (HasTold 0 0) (HasTold 0 0) (HasTold 0 0) false c c.flush_keeps
            (send_motor_constant_power-Keeps p ⊥ (HasTold 0 0) false c))
          (send_powers-Spares (Unacknowledged 0 0) spares))
        (next 0 0 0 0 (for_each num_motors_per_hub send_motor_current_request) _
          (each_kept 0 0 num_motors_per_hub send_motor_current_request
            (send_motor_current_request-Keeps p ⊥ (HasTold 0 0) false c)
            (send_motor_current_request-Spares (Unacknowledged 0 0)))
          (next 0 0 0 0 (for_each num_motors_per_hub send_float_on_0) _
            (each_kept 0 0 num_motors_per_hub send_float_on_0
              (send_float_on_0-Keeps p ⊥ (HasTold 0 0) false c)
              (send_float_on_0-Spares (Unacknowledged 0 0) spares))
            (next 0 0 4 0 (for_each num_motors_per_hub (send_enable false)) _
              (loop p a n before (λ j. Tells p a n before j 0) (send_enable false) 4
                (λ j. motor_step p a n before j 0) 4 0 refl)
              (next 4 0 4 0 (for_each num_servos_per_hub send_frame_period) _
                (each_kept 4 0 num_servos_per_hub send_frame_period
                  (send_frame_period-Keeps p ⊥ (HasTold 4 0) false (sendable 4 0))
                  (send_frame_period-Spares (Unacknowledged 4 0) (Unacknowledged-IsSparing 4 0)))
                (next 4 0 4 6 (for_each num_servos_per_hub (send_servo_enabled false)) flush
                  (loop p a n before (λ j. Tells p a n before 4 j) (send_servo_enabled false) 6
                    (λ j. servo_step p a n before 4 j) 6 0 refl)
                  flushed)))))

  reset_first :
      (device_reset : Bool) (s : Session p)
      → (device_reset ≡ true) ⊎ Unacknowledged 0 0 s.store
      → HasTold 0 0 s.serial s.effects
      → (t : Session p) × ((if device_reset then forget_settings else skip) s ≡ some t)
        × Tells p a n before 0 0 t
  reset_first true s k (added, h, told) =
      let (t, e, f) = forget_settings-Forgets s in
      (
        t,
        e,
        (
          (
            added,
            subst (λ es. Adds a n before added t.serial es) (sym f.same_effects)
                (subst (λ r. Adds a n before added r s.effects) (sym f.same_serial) h),
            told,
          ),
          (λ i le lt. f.motors_fresh i lt, λ i le lt. f.servos_fresh i lt),
        ),
      )
  reset_first false s (inl on) h = absurd (cc on)
  reset_first false s (inr fresh) h = (s, refl, (h, fresh))

module _ {p : Platform} where
  -- `SendCommands` while the hub is not to be enabled, on a known link with a queue in order, after a reset of the
  -- device or with nothing acknowledged of the enabled settings, and whatever the topics ask for: it ends, all that
  -- it adds to what was written and what waits is packets that ask for nothing to be enabled, and among them are
  -- the packets that disable each of the four motors and each of the six servos.
  pub send_commands-Told :
      (device_reset : Bool) (s : Session p) (sent : Bytes) (queue : List Bytes)
      (known : IsKnown s.serial)
      → s.serial.outstanding_messages < 256
      → IsQueued s.serial sent queue
      → (device_reset ≡ true) ⊎ Unacknowledged 0 0 s.store
      → (t : Session p) × (send_commands false device_reset s ≡ some t)
        × Has p known.address known.interface
            (port_bytes s.effects ++ concat queue)
            (Told known.address known.interface 4 6)
            t.serial
            t.effects
  unfolding send_commands commands Ended
  send_commands-Told device_reset s sent queue known small q fresh =
      let a = known.address in
      let n = known.interface in
      let before = port_bytes s.effects ++ concat queue in
      let (t, e, tells) = reset_first p a n before device_reset s fresh (
        [],
        start-Adds p a n before s sent queue known.address_is known.interface_is small q refl,
        (λ i lt. absurd (omega (arith, lt)), λ i lt. absurd (omega (arith, lt))),
      ) in
      let (u, e', told) =
        ended (λ u. HasTold p a n before 4 6 u.serial u.effects) (commands p a n before t)
          (commands-Ended p a n before t tells) in
      (u, ap (λ m. m >>= commands p a n before) e ∙ e', told)
    where
      ended :
          (Q : Session p → Type 0) (m : Option (Session p))
          → Goes p 0 0 [] Q m
          → (u : Session p) × (m ≡ some u) × Q u
      ended Q none e = absurd e
      ended Q (some u) e = (u, refl, e)
