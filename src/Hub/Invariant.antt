-- ===== src/Hub/Invariant.antt =====
-- expansionhub/main.cpp: the handlers of a bus and its invariant.
use scservices.Prelude.{
  ◌≡◌, ℕ, [], ◌∷◌, ◌+◌, refl, Bool, true, false, not, if◌then◌else◌, inl, inr, Option, none, some,
  Bytes, ◌>>=◌, Bool-cases, Option-cases,
}
use scservices.Platform.{Platform}
use scservices.Serial.{
  emit, poll_stopped, fd_closed, waiting_for_packets, ExpansionHubSerial, Topic, published_int,
  published_bool, Session, on_serial,
}
use scservices.Serial.Handshake.{run_synchronous_steps, has_finished_synchronous}
use scservices.Serial.Lifetime.{close_fd, destroy, set_callbacks}
use scservices.Serial.Whole.{AreSafe, AreSafe-append}
use scservices.Serial.Payload.{do_read}
use scservices.Serial.Keeps.{Ends, Guards}
use scservices.Serial.Sending.{IsWriting, writing, IsLink}
use scservices.Serial.Events.{IsLink-Same, IsLink-effect}
use scservices.Serial.Events.Handshake.{run_synchronous_steps-Guards}
use scservices.Serial.Events.Payload.{do_read-Guards}
use scservices.Hub.{ExpansionHubState, session, run_on}
use scservices.Hub.Commands.{send_commands, forget_settings}
use scservices.Hub.Keeps.{send_commands-Keeps, forget_settings-Keeps}
use scservices.Hub.Devices.{
  announce, on_device_added, on_device_removed, update_ready, on_update, on_readable, same_path,
  is_polled,
}
use scservices.Hub.Transaction.{IsBus, BusKept, run_on-BusEnds, update_ready-BusEnds}

module _ (p : Platform) (can_enable : Bool) where
  if-BusKept :
      (b : Bool) (m n : Option (ExpansionHubState p))
      → BusKept p can_enable m
      → BusKept p can_enable n
      → BusKept p can_enable (if b then m else n)
  if-BusKept true m n km kn = km
  if-BusKept false m n km kn = kn

  pub on_update-BusKept :
      (b : Bool) (h : ExpansionHubState p)
      → (b ≡ true → can_enable ≡ true)
      → IsBus p can_enable h
      → BusKept p can_enable (on_update b h)
  unfolding on_update
  on_update-BusKept b h may k = elim (Option-cases h.current_hub) [
    | inl e ↦ simp e (simp e at k)
    | inr (r, e) ↦
        let l : IsLink can_enable r h.effects = simp e at k in
        let now = (h.moments h.readings).now in
        let read = record h { readings = h.readings + 1 } in
        simp e (
          if-BusKept (not (has_finished_synchronous r)) (run_on h r run_synchronous_steps)
            (update_ready b read r now)
            (run_on-BusEnds p can_enable Unit h r run_synchronous_steps
              (run_synchronous_steps-Guards (session h r) l))
            (update_ready-BusEnds p can_enable Unit b read r now may l (inl tt)))
  ]

  pub on_readable-BusKept :
      (bytes : Option Bytes) (h : ExpansionHubState p)
      → IsBus p can_enable h
      → BusKept p can_enable (on_readable bytes h)
  unfolding on_readable
  on_readable-BusKept bytes h k = elim (Option-cases h.current_hub) [
    | inl e ↦ simp e (if-BusKept (is_polled h.effects) none (some h) tt k)
    | inr (r, e) ↦
        let l : IsLink can_enable r h.effects = simp e at k in
        simp e (
          run_on-BusEnds p can_enable Unit h r (do_read send_commands bytes)
            (do_read-Guards can_enable send_commands callback bytes (session h r) l))
  ]
    where
      callback :
          (b d : Bool)
          → (b ≡ true → can_enable ≡ true)
          → Guards p (IsWriting Unit can_enable waiting_for_packets) (send_commands b d)
      callback b d may =
          send_commands-Keeps p Unit (IsWriting Unit can_enable waiting_for_packets) can_enable
            (writing p Unit can_enable waiting_for_packets) b d may

  pub on_device_added-BusKept :
      (h : ExpansionHubState p) (r : ExpansionHubSerial)
      → IsLink can_enable r h.effects
      → BusKept p can_enable (on_device_added h r)
  unfolding on_device_added set_callbacks
  on_device_added-BusKept h r l =
      let s = announce (session h r) in
      run_on-BusEnds p can_enable Unit h r
        (λ t. forget_settings (announce t) >>= λ u. some (on_serial set_callbacks u))
        (later (forget_settings s) (forget_settings-Keeps p Unit (IsLink can_enable) s announced))
    where
      announced : IsLink can_enable r (announce (session h r)).effects
      announced =
          IsLink-effect r _ (published_int Topic.num_missed_send_loops 0) (refl, tt)
            (IsLink-effect r _ (published_int Topic.num_crc_failures 0) (refl, tt)
              (IsLink-effect r _ (published_int Topic.num_nacks 0) (refl, tt)
                (IsLink-effect r h.effects (published_bool Topic.is_connected true) (refl, tt) l)))

      later :
          (m : Option (Session p))
          → Ends p Unit (IsLink can_enable) m
          → Ends p Unit (IsLink can_enable) (m >>= λ t. some (on_serial set_callbacks t))
      later none e = e
      later (some t) e = IsLink-Same t.serial (set_callbacks t.serial) (refl, λ k. k) refl e

  removed-AreSafe :
      (h : ExpansionHubState p) (r : ExpansionHubSerial)
      → IsLink can_enable r h.effects
      → AreSafe can_enable
          (destroy (emit (published_bool Topic.is_connected false) (session h r))).effects
  unfolding destroy
  removed-AreSafe h r l = closed r.serial_fd _ (
      if-AreSafe r.serial_poll (emit poll_stopped told) told
        (AreSafe-append can_enable told.effects (poll_stopped ∷ []) before (tt, tt)) before)
    where
      told : Session p
      told = emit (published_bool Topic.is_connected false) (session h r)

      before : AreSafe can_enable told.effects
      before =
          AreSafe-append can_enable h.effects (published_bool Topic.is_connected false ∷ []) l.safe
            ((refl, tt), tt)

      if-AreSafe :
          (b : Bool) (s t : Session p)
          → AreSafe can_enable s.effects
          → AreSafe can_enable t.effects
          → AreSafe can_enable (if b then s else t).effects
      if-AreSafe true s t hs ht = hs
      if-AreSafe false s t hs ht = ht

      closed :
          (o : Option ℕ) (s : Session p)
          → AreSafe can_enable s.effects
          → AreSafe can_enable (close_fd o s).effects
      closed none s k = k
      closed (some fd) s k = AreSafe-append can_enable s.effects (fd_closed fd ∷ []) k (tt, tt)

  pub on_device_removed-IsBus :
      (path : Bytes) (h : ExpansionHubState p)
      → IsBus p can_enable h
      → IsBus p can_enable (on_device_removed h path)
  unfolding on_device_removed
  on_device_removed-IsBus path h k = elim (Option-cases h.current_hub) [
    | inl e ↦ simp e (simp e at k)
    | inr (r, e) ↦ elim (Bool-cases (same_path path r.serial_path)) [
      | inl same ↦ simp (e, same) (removed-AreSafe h r (simp e at k))
      | inr differs ↦ simp (e, differs) (simp e at k)
    ]
  ]
