-- ===== src/Hub/Named.antt =====
-- expansionhub/main.cpp and ExpansionHubNtState.cpp: the topics that a bus has made, through the daemon's
-- events.
pub mod Steps
use scservices.Prelude.{
  ℕ, zero, suc, ◌+◌, ◌<◌, ◌≡◌, refl, ap, sym, ◌∙◌, arith, Bool, true, false, not, inl, inr, Option,
  none, some, List, [], ◌∷◌, ◌++◌, Bytes, append_assoc, append-nil, ◌==◌, ltb, ◌&&◌, leb, sub_u64,
  if◌then◌else◌, ◌>>=◌, Bool-cases, Option-cases,
}
use mathlib.Core.Path.{subst}
use scservices.Platform.{Platform}
use scservices.NtState.{update}
use scservices.Topics
use scservices.Topics.{Declaration}
use scservices.Serial.{
  on_serial, emit, published_bool, Topic, ExpansionHubSerial, new_serial, Session, Action,
}
use scservices.Serial.Handshake.{
  run_discover_internal, run_synchronous_steps, retry, has_finished_synchronous, message_timeout,
}
use scservices.Serial.Output.{send_packet, allow_send, recover}
use scservices.Serial.Lifetime.{set_callbacks, initialize, destroy}
use scservices.Serial.Payload.{do_read}
use scservices.Hub.Commands.{send_commands, forget_settings}
use scservices.Hub.{ExpansionHubState, session, leave, run_on}
use scservices.Hub.Devices.{
  num_usb_buses, on_device_added, on_device_removed, on_update, update_ready, on_readable,
  miss_loop, begin_transaction, announce, initialize_topics, is_polled, same_path, start_uv_loop,
}
use scservices.Hub.Daemon.{
  States, on_added, on_removed, on_timeout, updated_below, removed_below, added_to, is_connected,
  start_buses,
}
use scservices.Hub.Reachable.{Step, timeout, readable, added, removed, Reachable, started, later}

module _ {p : Platform} (bus : ℕ) where
  -- Before its first hub a bus has published nothing; from then on it has the topics of its own number.
  pub data IsNamed (h : ExpansionHubState p) : Type 0 where
    bare :
        h.bus_id ≡ bus
        → h.current_hub ≡ none
        → h.effects ≡ []
        → h.topics ≡ []
        → h.nt_store.is_connected_publisher ≡ false
        → IsNamed h
    named :
        (more : List Declaration)
        → h.bus_id ≡ bus
        → h.topics ≡ Topics.initialize false bus ++ more
        → IsNamed h

  -- What a handler leaves, if it ends.
  pub data NamedEnds : Option (ExpansionHubState p) → Type 0 where
    died : NamedEnds none
    ended : {h : ExpansionHubState p} → IsNamed h → NamedEnds (some h)

  if-NamedEnds :
      (b : Bool) {m n : Option (ExpansionHubState p)}
      → NamedEnds m
      → NamedEnds n
      → NamedEnds (if b then m else n)
  if-NamedEnds true km kn = km
  if-NamedEnds false km kn = kn

  left-NamedEnds :
      (more : List Declaration) (h : ExpansionHubState p) (m : Option (Session p))
      → h.bus_id ≡ bus
      → h.topics ≡ Topics.initialize false bus ++ more
      → NamedEnds (m >>= λ s. some (leave h (some s.serial) s))
  left-NamedEnds more h none number made = died
  left-NamedEnds more h (some s) number made = ended (named more number made)

  update_ready-NamedEnds :
      (more : List Declaration) (b : Bool) (h : ExpansionHubState p) (r : ExpansionHubSerial)
      (now : ℕ)
      → h.bus_id ≡ bus
      → h.topics ≡ Topics.initialize false bus ++ more
      → NamedEnds (update_ready b h r now)
  unfolding update_ready
  update_ready-NamedEnds more b h r now number made =
      if-NamedEnds (not (allow_send r) && ltb (sub_u64 now h.last_loop) 1000000)
        (left-NamedEnds more h (some (miss_loop (session h r))) number made)
        (left-NamedEnds more (record h { last_loop = now })
          (begin_transaction b (
            session (record h { last_loop = now })
              (if not (allow_send r) && leb 1000000 (sub_u64 now h.last_loop)
                then recover r
                else r)))
          number made)

  pub on_update-NamedEnds :
      (b : Bool) (h : ExpansionHubState p) → IsNamed h → NamedEnds (on_update b h)
  unfolding on_update
  on_update-NamedEnds b h k = elim (Option-cases h.current_hub) [
    | inl e ↦ simp e (ended k)
    | inr (r, e) ↦ simp e (go r e k)
  ]
    where
      go :
          (r : ExpansionHubSerial)
          → h.current_hub ≡ some r
          → IsNamed h
          → NamedEnds (
              if not (has_finished_synchronous r)
              then run_on h r run_synchronous_steps
              else update_ready b
                  (record h { readings = h.readings + 1 })
                  r
                  (h.moments h.readings).now)
      go r e (bare number no_hub quiet none_made fresh) = absurd (cc (sym e ∙ no_hub))
      go r e (named more number made) =
          if-NamedEnds (not (has_finished_synchronous r))
            (left-NamedEnds more h (run_synchronous_steps (session h r)) number made)
            (update_ready-NamedEnds more b (record h { readings = h.readings + 1 }) r
              (h.moments h.readings).now number made)

  pub on_readable-NamedEnds :
      (bytes : Option Bytes) (h : ExpansionHubState p) → IsNamed h → NamedEnds (on_readable bytes h)
  unfolding on_readable
  on_readable-NamedEnds bytes h k = elim (Option-cases h.current_hub) [
    | inl e ↦ simp e (if-NamedEnds (is_polled h.effects) died (ended k))
    | inr (r, e) ↦ simp e (go r e k)
  ]
    where
      go :
          (r : ExpansionHubSerial)
          → h.current_hub ≡ some r
          → IsNamed h
          → NamedEnds (run_on h r (do_read send_commands bytes))
      go r e (bare number no_hub quiet none_made fresh) = absurd (cc (sym e ∙ no_hub))
      go r e (named more number made) =
          left-NamedEnds more h (do_read send_commands bytes (session h r)) number made

  pub on_device_removed-IsNamed :
      (path : Bytes) (h : ExpansionHubState p) → IsNamed h → IsNamed (on_device_removed h path)
  unfolding on_device_removed
  on_device_removed-IsNamed path h k = elim (Option-cases h.current_hub) [
    | inl e ↦ simp e k
    | inr (r, e) ↦ elim (Bool-cases (same_path path r.serial_path)) [
      | inl same ↦ simp (e, same) (gone r e k)
      | inr differs ↦ simp (e, differs) k
    ]
  ]
    where
      gone :
          (r : ExpansionHubSerial)
          → h.current_hub ≡ some r
          → IsNamed h
          → IsNamed (
              leave h none (destroy (emit (published_bool Topic.is_connected false) (session h r))))
      gone r e (bare number no_hub quiet none_made fresh) = absurd (cc (sym e ∙ no_hub))
      gone r e (named more number made) = named more number made

  on_device_added-NamedEnds :
      (h : ExpansionHubState p) (r : ExpansionHubSerial)
      → h.nt_store.is_connected_publisher ≡ false
      → h.bus_id ≡ bus
      → h.topics ≡ []
      → NamedEnds (on_device_added h r)
  unfolding on_device_added
  on_device_added-NamedEnds h r fresh number none_made =
      left-NamedEnds [] (initialize_topics h)
        (forget_settings (announce (session h r)) >>= λ t. some (on_serial set_callbacks t)) number
        (rw (none_made, fresh, number) (sym (append-nil _)))

  on_device_added-kept :
      (h : ExpansionHubState p) (r : ExpansionHubSerial) (more : List Declaration)
      → h.bus_id ≡ bus
      → h.topics ≡ Topics.initialize false bus ++ more
      → NamedEnds (on_device_added h r)
  unfolding on_device_added
  on_device_added-kept h r more number made =
      left-NamedEnds (more ++ Topics.initialize h.nt_store.is_connected_publisher h.bus_id)
        (initialize_topics h)
        (forget_settings (announce (session h r)) >>= λ t. some (on_serial set_callbacks t)) number
        (ap (λ t. t ++ Topics.initialize h.nt_store.is_connected_publisher h.bus_id) made
          ∙ append_assoc (Topics.initialize false bus) more _)

  abbrev HasStore : ExpansionHubState p → Option (Session p) → Type 0
  HasStore h none = Unit
  HasStore h (some s) = s.store ≡ h.nt_store

  -- The first step of a new link leaves the store alone.
  run_synchronous_steps-HasStore :
      (h : ExpansionHubState p) (t : Session p)
      → t.serial.address ≡ none
      → t.store ≡ h.nt_store
      → HasStore h (run_synchronous_steps t)
  unfolding run_synchronous_steps run_discover_internal retry send_packet
  run_synchronous_steps-HasStore h t unknown same =
      let moment = t.moments t.readings in
      elim (Bool-cases (leb (sub_u64 moment.now t.serial.discover_start_time) message_timeout)) [
        | inl early ↦ simp (unknown, early) same
        | inr late ↦ simp (unknown, late) same
      ]

  pub added_to-NamedEnds :
      (port : Option ℕ) (b : Bool) (path : Bytes) (h : ExpansionHubState p)
      → IsNamed h
      → NamedEnds (added_to port b path h)
  unfolding initialize
  added_to-NamedEnds none b path h k = ended k
  added_to-NamedEnds (some fd) b path h k =
      go (run_synchronous_steps (initialize b fd path (session h new_serial)).0) (opened b) k
    where
      opened :
          (has_poll : Bool)
          → HasStore h
              (run_synchronous_steps (initialize has_poll fd path (session h new_serial)).0)
      opened true = run_synchronous_steps-HasStore h _ refl refl
      opened false = run_synchronous_steps-HasStore h _ refl refl

      go :
          (m : Option (Session p))
          → HasStore h m
          → IsNamed h
          → NamedEnds (m >>= λ s. on_device_added (leave h none s) s.serial)
      go none e k = died
      go (some s) e (bare number no_hub quiet none_made fresh) =
          on_device_added-NamedEnds (leave h none s) s.serial
            (ap (λ store. store.is_connected_publisher) e ∙ fresh) number none_made
      go (some s) e (named more number made) =
          on_device_added-kept (leave h none s) s.serial more number made
