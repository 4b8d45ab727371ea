-- ===== src/Hub/Exact/Servos.antt =====
-- expansionhub/main.cpp: the settings of one servo in `SendCommands`.
use scservices.Prelude.{
  ℕ, suc, ◌≡◌, refl, ap, ◌∙◌, arith, Bool, inl, inr, some, [], ◌∷◌, Bool-cases, to_u16, bool_eq,
  nat_eq, leb,
}
use scservices.CachedCommand.{get, get_with_can_enable}
use scservices.Platform.{Platform, Moment}
use scservices.NtState.{ExpansionHubNtState, ServoNtState}
use scservices.Serial.{Session}
use scservices.Serial.Reply.{on_servo}
use scservices.Serial.Requests.{send_servo_configuration, send_servo_enable}
use scservices.Hub.Commands.{send_frame_period, send_servo_enabled}
use scservices.Hub.Initial.Queues.{Queues, skip-Queues, request-Queues}
use scservices.Hub.Exact.{servo_configuration, servo_enable, period_for, servo_enable_for}
use scservices.Hub.Exact.Settings.{At, update-field, update-later, Steps}
use scservices.Hub.Exact.Cached.{setting-Steps, sent-Queues, sent_enabled-Queues}

module _ {p : Platform} (a i : ℕ) (before : ExpansionHubNtState p) (moments : ℕ → Moment p) where
  send_servo_configuration-Queues :
      (c v : ℕ) (t : Session p)
      → t.serial.address ≡ some a
      → t.serial.packet_interface_id ≡ some i
      → Queues 0 (servo_configuration a i c v) t.store t (send_servo_configuration c v t)
  unfolding send_servo_configuration
  send_servo_configuration-Queues c v t known interface = elim (Bool-cases (leb v 1)) [
    | inl short ↦ simp short (skip-Queues t)
    | inr long ↦ simp long (request-Queues a i _ _ _ t known interface (omega arith))
  ]

  pub send_frame_period-Steps :
      (mf me se : ℕ) (c r : ℕ) (s : Session p)
      → At a i before moments mf me c se r s
      → Steps
          (λ c r. At a i before moments mf me c se r)
          1
          (period_for a i before moments c r)
          (suc c)
          (suc r)
          s
          (send_frame_period c s)
  unfolding send_frame_period
  send_frame_period-Steps mf me se c r s h =
      let v = ((s.moments s.readings).servo c).frame_period in
      let cached = (s.store.servos c).frame_period_subscriber in
      let new = record (s.store.servos c) { frame_period_subscriber = (get v cached).0 } in
      let t = on_servo c (λ _. new) (record s { readings = suc s.readings }) in
      let same = h.same_from in
      let at_t : At a i before moments mf me (suc c) se (suc r) t = record {
        address_is = h.address_is;
        interface_is = h.interface_is;
        moments_is = h.moments_is;
        readings_is = ap suc h.readings_is;
        same_from = record {
          same_mode = same.same_mode;
          same_enable = same.same_enable;
          same_period = λ d k.
              update-later (λ (x : ServoNtState). x.frame_period_subscriber) s.store.servos c d new
                k
              ∙ same.same_period d (omega (arith, k));
          same_servo_enable = λ d k.
              update-field (λ (x : ServoNtState). x.enabled_subscriber) s.store.servos c d new refl
              ∙ same.same_servo_enable d k;
        };
      } in
      let q =
        sent-Queues v cached (λ w. send_servo_configuration c (to_u16 w))
          (λ w. servo_configuration a i c (to_u16 w)) t
          (λ w. send_servo_configuration-Queues c (to_u16 w) t h.address_is h.interface_is) in
      let wants : period_for a i s.store s.moments c s.readings
          ≡ period_for a i before moments c r =
        rw (h.moments_is, h.readings_is, same.same_period c (omega arith)) refl in
      setting-Steps a i before moments mf me (suc c) se r _ _ s t _ refl refl refl refl at_t q wants

  pub send_servo_enabled-Steps :
      (b : Bool) (mf me sf : ℕ) (c r : ℕ) (s : Session p)
      → At a i before moments mf me sf c r s
      → Steps
          (λ c r. At a i before moments mf me sf c r)
          1
          (servo_enable_for a i before moments b c r)
          (suc c)
          (suc r)
          s
          (send_servo_enabled b c s)
  unfolding send_servo_enabled send_servo_enable
  send_servo_enabled-Steps b mf me sf c r s h =
      let v = ((s.moments s.readings).servo c).enabled in
      let cached = (s.store.servos c).enabled_subscriber in
      let new = record (s.store.servos c) {
        enabled_subscriber = (get_with_can_enable b v cached).0;
      } in
      let t = on_servo c (λ _. new) (record s { readings = suc s.readings }) in
      let same = h.same_from in
      let at_t : At a i before moments mf me sf (suc c) (suc r) t = record {
        address_is = h.address_is;
        interface_is = h.interface_is;
        moments_is = h.moments_is;
        readings_is = ap suc h.readings_is;
        same_from = record {
          same_mode = same.same_mode;
          same_enable = same.same_enable;
          same_period = λ d k.
              update-field (λ (x : ServoNtState). x.frame_period_subscriber) s.store.servos c d new
                refl
              ∙ same.same_period d k;
          same_servo_enable = λ d k.
              update-later (λ (x : ServoNtState). x.enabled_subscriber) s.store.servos c d new k
              ∙ same.same_servo_enable d (omega (arith, k));
        };
      } in
      let q =
        sent_enabled-Queues b v cached (send_servo_enable c) (λ w. servo_enable a i c w ∷ []) t
          (λ w. request-Queues a i _ _ _ t h.address_is h.interface_is (omega arith)) in
      let wants : servo_enable_for a i s.store s.moments b c s.readings
          ≡ servo_enable_for a i before moments b c r =
        rw (h.moments_is, h.readings_is, same.same_servo_enable c (omega arith)) refl in
      setting-Steps a i before moments mf me sf (suc c) r _ _ s t _ refl refl refl refl at_t q wants
