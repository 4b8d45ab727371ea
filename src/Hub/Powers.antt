-- ===== src/Hub/Powers.antt =====
-- expansionhub/main.cpp, MotorNtState.cpp: the powers that a transaction sends, motors that follow others
-- included.
use scservices.Prelude.{
  ℕ, zero, suc, ◌+◌, ◌<◌, ◌≡◌, ◌≢◌, refl, ap, ◌∙◌, arith, true, false, List, ltb, ◌==◌, Bool-cases,
  inl, inr, if◌then◌else◌, pos, negsuc, ◌⊎◌,
}
use scservices.Platform.{Platform, MotorTopics}
use scservices.NtState.{
  MotorNtState, compute_motor_power, follower_mode, percentage_mode, zero_double,
  num_motors_per_hub, direction,
}
use scservices.Serial.Reply.{on_motor}
use scservices.Serial.{Session}
use scservices.Hub.Commands.{Power, power_at, chosen_power, compute_powers}

either_path : {A B : Type 0} {x y z : B} → x ≡ y → A ⊎ (y ≡ z) → A ⊎ (x ≡ z)
either_path e (inl a) = inl a
either_path e (inr f) = inr (e ∙ f)

module _ {p : Platform} where
  abbrev power_of : MotorTopics p → p.Double → MotorNtState p → Power p
  power_of t battery m =
      let (m', value, followed) = compute_motor_power t battery m in (value, followed)

  -- The power that motor `first + i` computes for itself, at the reading that belongs to it, and the motor
  -- that it follows.
  abbrev pub own_power : Session p → ℕ → ℕ → Power p
  own_power s first i =
      power_of ((s.moments (s.readings + i)).motor (first + i)) s.store.last_battery
        (s.store.motors (first + i))

  -- The motor before has been computed, which leaves this one alone.
  own_power_later :
      (s : Session p) (m : MotorNtState p) (first i : ℕ)
      → own_power (on_motor first (λ _. m) (record s { readings = suc s.readings })) (suc first) i
        ≡ own_power s first (suc i)
  own_power_later s m first i =
      let other : (first == suc first + i) ≡ false = ground arith in
      let reading : suc s.readings + i ≡ s.readings + suc i = omega arith in
      let channel : suc first + i ≡ first + suc i = omega arith in rw (other, reading, channel) refl

  compute_powers-at :
      (n first i : ℕ) (s : Session p)
      → i < n
      → power_at p (compute_powers n first s).1 i ≡ own_power s first i
  unfolding compute_powers
  compute_powers-at zero first i s h = absurd (omega arith)
  compute_powers-at (suc n) first zero s h =
      let reading : s.readings + 0 ≡ s.readings = omega arith in
      let channel : first + 0 ≡ first = omega arith in rw (reading, channel) refl
  compute_powers-at (suc n) first (suc i) s h =
      compute_powers-at n (suc first) i _ (omega arith) ∙ own_power_later s _ first i

  -- What is sent for a motor that has computed this power: its own, or that of the motor which it follows,
  -- and 0 if there is none of that number.
  abbrev pub followed : Session p → Power p → p.Double
  followed s (own, negsuc n) = own
  followed s (own, pos k) = if ltb k 4 then (own_power s 0 k).0 else zero_double p

  -- For each of the four motors the power that a transaction sends is its own, or, if it follows another,
  -- the power that that one has computed in the same transaction, before or after it; a motor that follows
  -- none of the four gets 0.
  pub chosen_power_lem :
      (s : Session p) (i : ℕ)
      → i < num_motors_per_hub
      → let powers = (compute_powers num_motors_per_hub 0 s).1 in
        chosen_power p powers (power_at p powers i) ≡ followed s (own_power s 0 i)
  chosen_power_lem s i h =
      ap (chosen_power p powers) (compute_powers-at num_motors_per_hub 0 i s h)
      ∙ go (own_power s 0 i)
    where
      powers : List (Power p)
      powers = (compute_powers num_motors_per_hub 0 s).1

      go : (q : Power p) → chosen_power p powers q ≡ followed s q
      go (own, negsuc n) = refl
      go (own, pos k) = elim (Bool-cases (ltb k 4)) [
        | inl known ↦
            let lt : k < num_motors_per_hub = ground arith in
            rw known (ap (λ q. q.0) (compute_powers-at num_motors_per_hub 0 k s lt))
        | inr unknown ↦ rw unknown refl
      ]

  power_of-mode :
      (t : MotorTopics p) (battery : p.Double) (m : MotorNtState p)
      → p.eqb battery (zero_double p) ≡ false
      → ((t.mode ≢ percentage_mode) ⊎ ((power_of t battery m).0 ≡ p.mul t.setpoint (direction t)))
        × ((t.mode ≢ follower_mode) ⊎ ((power_of t battery m).0 ≡ zero_double p))
  unfolding compute_motor_power
  power_of-mode t battery m h = elim (Bool-cases (t.mode == percentage_mode)) [
    | inl yields ↦
        let mode : t.mode ≡ percentage_mode = ground arith in
        (inr (rw (h, mode) refl), inl (omega (arith, mode)))
    | inr other ↦ elim (Bool-cases (t.mode == follower_mode)) [
      | inl four ↦
          let mode : t.mode ≡ follower_mode = ground arith in
          (inl (omega (arith, mode)), inr (rw (h, mode) refl))
      | inr another ↦ (inl (ground arith), inl (ground arith))
    ]
  ]

  -- With a battery voltage other than 0, a motor in the mode to follow motor `k` of the four is sent what motor
  -- `k` computes from its setpoint, in percentage mode its setpoint with its direction; and what motor `k`
  -- computes is 0 if it follows a motor itself.
  pub chosen_power-follower :
      (s : Session p) (i k : ℕ)
      → i < num_motors_per_hub
      → k < num_motors_per_hub
      → p.eqb s.store.last_battery (zero_double p) ≡ false
      → ((s.moments (s.readings + i)).motor i).mode ≡ follower_mode
      → p.to_int ((s.moments (s.readings + i)).motor i).setpoint ≡ pos k
      → let powers = (compute_powers num_motors_per_hub 0 s).1 in
        let leader = (s.moments (s.readings + k)).motor k in
        let sent = chosen_power p powers (power_at p powers i) in
        (sent ≡ (own_power s 0 k).0)
        × ((leader.mode ≢ percentage_mode) ⊎ (sent ≡ p.mul leader.setpoint (direction leader)))
        × ((leader.mode ≢ follower_mode) ⊎ (sent ≡ zero_double p))
  unfolding compute_motor_power
  chosen_power-follower s i k hi hk battery follows leader_is =
      let own : own_power s 0 i ≡ (zero_double p, pos k) = ground arith in
      let known : ltb k 4 ≡ true = ground arith in
      let channel : 0 + k ≡ k = omega arith in
      let sent = chosen_power_lem s i hi ∙ ap (followed s) own ∙ rw known refl in
      let topics = (s.moments (s.readings + k)).motor k in
      let same : own_power s 0 k ≡ power_of topics s.store.last_battery (s.store.motors k) =
        rw channel refl in
      let (plain, again) = power_of-mode topics s.store.last_battery (s.store.motors k) battery in
      let sent' = sent ∙ ap (λ q. q.0) same in
      (sent, either_path sent' plain, either_path sent' again)
