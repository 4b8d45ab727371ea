-- ===== src/Hub/Exact/Motors.antt =====
-- expansionhub/main.cpp: the settings of one motor in `SendCommands`.
use scservices.Prelude.{ℕ, suc, ◌≡◌, refl, ap, ◌∙◌, arith, Bool, [], ◌∷◌, bool_eq, nat_eq}
use scservices.CachedCommand.{get, get_with_can_enable}
use scservices.Platform.{Platform, Moment}
use scservices.NtState.{ExpansionHubNtState, MotorNtState}
use scservices.Serial.{Session}
use scservices.Serial.Reply.{on_motor}
use scservices.Serial.Requests.{send_motor_mode, send_motor_enable}
use scservices.Hub.Commands.{send_float_on_0, send_enable}
use scservices.Hub.Initial.Queues.{request-Queues}
use scservices.Hub.Exact.{run_mode, motor_enable, mode_for, enable_for}
use scservices.Hub.Exact.Settings.{At, update-field, update-later, Steps}
use scservices.Hub.Exact.Cached.{setting-Steps, sent-Queues, sent_enabled-Queues}

module _ {p : Platform} (a i : ℕ) (before : ExpansionHubNtState p) (moments : ℕ → Moment p) where
  pub send_float_on_0-Steps :
      (me sf se c r : ℕ) (s : Session p)
      → At a i before moments c me sf se r s
      → Steps
          (λ c r. At a i before moments c me sf se r)
          1
          (mode_for a i before moments c r)
          (suc c)
          (suc r)
          s
          (send_float_on_0 c s)
  unfolding send_float_on_0 send_motor_mode
  send_float_on_0-Steps me sf se c r s h =
      let v = ((s.moments s.readings).motor c).float_on_0 in
      let cached = (s.store.motors c).float_on_0_subscriber in
      let new = record (s.store.motors c) { float_on_0_subscriber = (get v cached).0 } in
      let t = on_motor c (λ _. new) (record s { readings = suc s.readings }) in
      let same = h.same_from in
      let at_t : At a i before moments (suc c) me sf se (suc r) t = record {
        address_is = h.address_is;
        interface_is = h.interface_is;
        moments_is = h.moments_is;
        readings_is = ap suc h.readings_is;
        same_from = record {
          same_mode = λ d k.
              update-later (λ (x : MotorNtState p). x.float_on_0_subscriber) s.store.motors c d new
                k
              ∙ same.same_mode d (omega (arith, k));
          same_enable = λ d k.
              update-field (λ (x : MotorNtState p). x.enabled_subscriber) s.store.motors c d new
                refl
              ∙ same.same_enable d k;
          same_period = same.same_period;
          same_servo_enable = same.same_servo_enable;
        };
      } in
      let q =
        sent-Queues v cached (send_motor_mode c) (λ w. run_mode a i c w ∷ []) t
          (λ w. request-Queues a i _ _ _ t h.address_is h.interface_is (omega arith)) in
      let wants : mode_for a i s.store s.moments c s.readings ≡ mode_for a i before moments c r =
        rw (h.moments_is, h.readings_is, same.same_mode c (omega arith)) refl in
      setting-Steps a i before moments (suc c) me sf se r _ _ s t _ refl refl refl refl at_t q wants

  pub send_enable-Steps :
      (b : Bool) (mf sf se : ℕ) (c r : ℕ) (s : Session p)
      → At a i before moments mf c sf se r s
      → Steps
          (λ c r. At a i before moments mf c sf se r)
          1
          (enable_for a i before moments b c r)
          (suc c)
          (suc r)
          s
          (send_enable b c s)
  unfolding send_enable send_motor_enable
  send_enable-Steps b mf sf se c r s h =
      let v = ((s.moments s.readings).motor c).enabled in
      let cached = (s.store.motors c).enabled_subscriber in
      let new = record (s.store.motors c) {
        enabled_subscriber = (get_with_can_enable b v cached).0;
      } in
      let t = on_motor c (λ _. new) (record s { readings = suc s.readings }) in
      let same = h.same_from in
      let at_t : At a i before moments mf (suc c) sf se (suc r) t = record {
        address_is = h.address_is;
        interface_is = h.interface_is;
        moments_is = h.moments_is;
        readings_is = ap suc h.readings_is;
        same_from = record {
          same_mode = λ d k.
              update-field (λ (x : MotorNtState p). x.float_on_0_subscriber) s.store.motors c d new
                refl
              ∙ same.same_mode d k;
          same_enable = λ d k.
              update-later (λ (x : MotorNtState p). x.enabled_subscriber) s.store.motors c d new k
              ∙ same.same_enable d (omega (arith, k));
          same_period = same.same_period;
          same_servo_enable = same.same_servo_enable;
        };
      } in
      let q =
        sent_enabled-Queues b v cached (send_motor_enable c) (λ w. motor_enable a i c w ∷ []) t
          (λ w. request-Queues a i _ _ _ t h.address_is h.interface_is (omega arith)) in
      let wants : enable_for a i s.store s.moments b c s.readings
          ≡ enable_for a i before moments b c r =
        rw (h.moments_is, h.readings_is, same.same_enable c (omega arith)) refl in
      setting-Steps a i before moments mf (suc c) sf se r _ _ s t _ refl refl refl refl at_t q wants
