-- ===== src/Serial/Bulk.antt =====
-- expansionhub/ExpansionHubSerial.cpp and MotorNtState.cpp: the encoders of a bulk reply.
use scservices.Prelude.{
  ap, zero, List, append_assoc, refl, true, ℤ, pos, ◌≤◌, ℕ, suc, ◌+◌, ◌<◌, ◌≡◌, refl, ap, arith,
  true, some, [], ◌∷◌, ◌++◌, Bytes, length, drop, if◌then◌else◌,
}
use scservices.Packet.Signed.{Fits16, Fits32, word16, word32, read_int16-word16, read_int32-word32}
use scservices.Packet.Spans.{subspan-some}
use scservices.Platform.{Platform, MotorTopics}
use scservices.NtState.{direction, zero_double, set_encoder}
use scservices.Serial.{Effect, on_serial, Topic, published_double, Session, emit}
use scservices.Serial.Reply.{handle_bulk_input, publish_encoder, read_encoder, on_motor}

-- A bulk reply of the hub: the digital inputs, the four positions, a byte of status, and the four velocities.
abbrev pub bulk_payload : ℕ → (ℕ → ℤ) → ℕ → (ℕ → ℤ) → Bytes → Bytes
bulk_payload digital position status velocity rest =
    digital ∷ word32 (position 0)
    ++ word32 (position 1)
    ++ word32 (position 2)
    ++ word32 (position 3)
    ++ status ∷ word16 (velocity 0)
    ++ word16 (velocity 1)
    ++ word16 (velocity 2)
    ++ word16 (velocity 3)
    ++ rest

module _ {p : Platform} where
  -- A count of an encoder in the motor's direction and unit.
  abbrev pub scaled : MotorTopics p → ℤ → p.Double
  scaled t count = p.mul (p.mul (p.of_int count) (direction t)) (
      if p.eqb t.distance_per_count (zero_double p) then p.of_int (pos 1) else t.distance_per_count)

  abbrev published : ℕ → ℤ → ℤ → Session p → Session p
  published i position velocity s =
      let t = (s.moments s.readings).motor i in
      emit (published_double (Topic.velocity i) (scaled t velocity)) (
        emit (published_double (Topic.encoder i) (scaled t position)) (
          on_motor i
            (λ m. record m {
              last_encoder_position = scaled t position;
              last_encoder_velocity = scaled t velocity;
            })
            (record s { readings = suc s.readings })))

  read_encoder-published :
      (i position_at velocity_at : ℕ) (position velocity : ℤ) (pay behind behind' : Bytes)
      (s : Session p)
      → position_at ≤ length pay
      → velocity_at ≤ length pay
      → drop position_at pay ≡ word32 position ++ behind
      → drop velocity_at pay ≡ word16 velocity ++ behind'
      → Fits32 position
      → Fits16 velocity
      → s.serial.has_callbacks ≡ true
      → read_encoder i position_at velocity_at pay s ≡ some (published i position velocity s)
  unfolding read_encoder publish_encoder set_encoder
  read_encoder-published i position_at velocity_at position velocity pay behind behind' s l l' at
        at' fits fits' set =
      simp
        (
          subspan-some pay position_at l,
          at,
          read_int32-word32 position behind fits,
          subspan-some pay velocity_at l',
          at',
          read_int16-word16 velocity behind' fits',
          set,
        )
        refl

  -- The topics of motor `i` as they are when its part of the reply is handled.
  abbrev pub topics_at : Session p → ℕ → MotorTopics p
  topics_at s i = (s.moments (s.readings + i)).motor i

  topics_at-motors :
      (s : Session p)
      → ((s.moments s.readings).motor 0 ≡ topics_at s 0)
        × ((s.moments (suc s.readings)).motor 1 ≡ topics_at s 1)
        × ((s.moments (suc (suc s.readings))).motor 2 ≡ topics_at s 2)
        × ((s.moments (suc (suc (suc s.readings)))).motor 3 ≡ topics_at s 3)
  topics_at-motors s = (
    ap (λ n. (s.moments n).motor 0) (omega arith),
    ap (λ n. (s.moments n).motor 1) (omega arith),
    ap (λ n. (s.moments n).motor 2) (omega arith),
    ap (λ n. (s.moments n).motor 3) (omega arith),
  )

  all_published : (position velocity : ℕ → ℤ) → Session p → Session p
  all_published position velocity s = published 3 (position 3) (velocity 3) (
      published 2 (position 2) (velocity 2) (
        published 1 (position 1) (velocity 1) (
          published 0 (position 0) (velocity 0)
            (on_serial (λ r. record r { have_bulk = true }) s))))

  handle_bulk_input-published :
      (digital status : ℕ) (position velocity : ℕ → ℤ) (rest : Bytes) (s : Session p)
      → ((i : ℕ) → Fits32 (position i) × Fits16 (velocity i))
      → s.serial.has_callbacks ≡ true
      → handle_bulk_input (bulk_payload digital position status velocity rest) s
        ≡ some (all_published position velocity s)
  unfolding handle_bulk_input all_published
  handle_bulk_input-published digital status c v rest s fits set =
      let pay = bulk_payload digital c status v rest in
      let s0 = on_serial (λ r. record r { have_bulk = true }) s in
      let s1 = published 0 (c 0) (v 0) s0 in
      let s2 = published 1 (c 1) (v 1) s1 in
      let s3 = published 2 (c 2) (v 2) s2 in
      simp
        (
          read_encoder-published 0 1 18 (c 0) (v 0) pay _ _ s0 (omega arith) (omega arith) refl refl
              (fits 0).0 (fits 0).1 set,
          read_encoder-published 1 5 20 (c 1) (v 1) pay _ _ s1 (omega arith) (omega arith) refl refl
              (fits 1).0 (fits 1).1 set,
          read_encoder-published 2 9 22 (c 2) (v 2) pay _ _ s2 (omega arith) (omega arith) refl refl
              (fits 2).0 (fits 2).1 set,
          read_encoder-published 3 13 24 (c 3) (v 3) pay _ _ s3 (omega arith) (omega arith) refl
              refl (fits 3).0 (fits 3).1 set,
        )
        refl

  -- What motor `i` publishes.
  abbrev pub shown : Session p → (ℕ → ℤ) → (ℕ → ℤ) → ℕ → List (Effect p)
  shown s position velocity i =
      published_double (Topic.encoder i) (scaled (topics_at s i) (position i))
      ∷ published_double (Topic.velocity i) (scaled (topics_at s i) (velocity i))
      ∷ []

  -- A bulk reply that carries the positions of the four motors as 32-bit and their velocities as 16-bit numbers in
  -- two's complement, once `SetCallbacks` has been called: it is handled without undefined behaviour and noted, and
  -- of each motor exactly these two numbers are published, in its direction and unit, a motor at a time and the
  -- position first; the position and velocity of each motor are then the ones published, and no other field of the
  -- link has changed.
  pub handle_bulk_input-shown :
      (digital status : ℕ) (position velocity : ℕ → ℤ) (rest : Bytes) (s : Session p)
      → ((i : ℕ) → Fits32 (position i) × Fits16 (velocity i))
      → s.serial.has_callbacks ≡ true
      → (t : Session p) × (handle_bulk_input (bulk_payload digital position status velocity rest) s
          ≡ some t)
        × (t.serial ≡ record (s.serial) { have_bulk = true })
        × (t.effects
            ≡ s.effects
              ++ shown s position velocity 0
              ++ shown s position velocity 1
              ++ shown s position velocity 2
              ++ shown s position velocity 3)
        × ((i : ℕ)
            → i < 4
            → ((t.store.motors i).last_encoder_position ≡ scaled (topics_at s i) (position i))
              × ((t.store.motors i).last_encoder_velocity ≡ scaled (topics_at s i) (velocity i)))
  unfolding all_published
  handle_bulk_input-shown digital status c v rest s fits set = (
    all_published c v s,
    handle_bulk_input-published digital status c v rest s fits set,
    refl,
    simp append_assoc
        (let (e0, e1, e2, e3) = topics_at-motors s in simp (← e0, ← e1, ← e2, ← e3) refl),
    each,
  )
    where
      each :
          (i : ℕ)
          → i < 4
          → (((all_published c v s).store.motors i).last_encoder_position
              ≡ scaled (topics_at s i) (c i))
            × (((all_published c v s).store.motors i).last_encoder_velocity
                ≡ scaled (topics_at s i) (v i))
      each zero h =
          let e = (topics_at-motors s).0 in (ap (λ t. scaled t (c 0)) e, ap (λ t. scaled t (v 0)) e)
      each (suc zero) h =
          let e = (topics_at-motors s).1 in (ap (λ t. scaled t (c 1)) e, ap (λ t. scaled t (v 1)) e)
      each (suc (suc zero)) h =
          let e = (topics_at-motors s).2 in (ap (λ t. scaled t (c 2)) e, ap (λ t. scaled t (v 2)) e)
      each (suc (suc (suc zero))) h =
          let e = (topics_at-motors s).3 in (ap (λ t. scaled t (c 3)) e, ap (λ t. scaled t (v 3)) e)
      each (suc (suc (suc (suc i)))) h = absurd (omega (arith, h))
