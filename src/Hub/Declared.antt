-- ===== src/Hub/Declared.antt =====
-- expansionhub/ExpansionHubNtState.cpp and MotorNtState.cpp: the publishers that the daemon uses, and those that
-- `Initialize` makes.
use mathlib.Core.Path.{subst}
use scservices.Prelude.{
  append_assoc, String, Mem-left, Mem-right, refl, ℕ, zero, suc, ◌+◌, ◌<◌, ◌≡◌, sym, arith, Bool,
  none, false, List, [], ◌∷◌, ◌++◌, Bytes, All, codes, to_string,
}
use mathlib.Core.List.{Memᴰ}
use scservices.Platform.{Platform}
use scservices.NtState.{num_motors_per_hub, num_servos_per_hub}
use scservices.Topics.{
  Kind, boolean, integer, double, Declaration, publish, motor_topic, initialize_motor,
  initialize_servo, each, topics_of, initialize,
}
use scservices.Serial.{
  Effect, Topic, written, poll_started, poll_stopped, fd_closed, input_flushed, published_int,
  published_double, published_bool, transaction_time, battery_voltage, is_connected, num_nacks,
  num_crc_failures, num_missed_send_loops, encoder, velocity, current,
}
use scservices.Serial.Typed.{kind_of, HasMotor, IsTyped}
use scservices.Serial.Whole.{AreSafe, IsSafe}
use scservices.Hub.Devices.{num_usb_buses}
use scservices.Hub.Daemon.{States, start_buses}
use scservices.Hub.Named.{IsNamed, bare, named}
use scservices.Hub.Named.Steps.{start_buses-IsIdle, Reachable-IsNamed}
use scservices.Hub.Transaction.{OnHub-AreSafe}
use scservices.Hub.Reachable.{Reachable, Reachable-AreBuses}

Mem-each :
    (n first i : ℕ) (f : ℕ → List Declaration) (d : Declaration)
    → i < n
    → Memᴰ d (f (first + i))
    → Memᴰ d (each n first f)
Mem-each zero first i f d lt m = absurd (omega (arith, lt))
Mem-each (suc n) first zero f d lt m =
    Mem-left (f first) (each n (suc first) f) (subst (λ k. Memᴰ d (f k)) (omega arith) m)
Mem-each (suc n) first (suc i) f d lt m =
    Mem-right (f first) (each n (suc first) f)
      (Mem-each n (suc first) i f d (omega (arith, lt)) (subst (λ k. Memᴰ d (f k)) (omega arith) m))

of_motor :
    (bus : Bytes) (i : ℕ) (d : Declaration)
    → i < num_motors_per_hub
    → Memᴰ d (initialize_motor bus i)
    → Memᴰ d (topics_of bus)
of_motor bus i d lt m = Mem-left (each num_motors_per_hub 0 (initialize_motor bus)) _ (
    Mem-each num_motors_per_hub 0 i (initialize_motor bus) d lt
      (subst (λ k. Memᴰ d (initialize_motor bus k)) {x = i} {y = 0 + i} (omega arith) m))

of_hub :
    (bus : Bytes) (d : Declaration) (ds : List Declaration)
    → Memᴰ d ds
    → Memᴰ d (
        each num_motors_per_hub 0 (initialize_motor bus)
        ++ each num_servos_per_hub 0 (initialize_servo bus)
        ++ ds)
of_hub bus d ds m =
    Mem-right (each num_motors_per_hub 0 (initialize_motor bus)) _
      (Mem-right (each num_servos_per_hub 0 (initialize_servo bus)) ds m)

-- A publisher for values of this type, which is held by the member for `topic` and whose name is one of
-- the bus.
abbrev pub HasPublisher : ℕ → Kind → Topic → List Declaration → Type 0
HasPublisher bus kind topic made =
    (name rest : Bytes) × (name ≡ codes "/rhsp/" ++ to_string bus ++ b'/' ∷ rest)
    × Memᴰ (publish topic kind name) made

motor_topic_lem :
    (bus motor : Bytes) (name : String)
    → motor_topic bus motor name
      ≡ codes "/rhsp/" ++ bus ++ b'/' ∷ (codes "motor" ++ (motor ++ codes name))
motor_topic_lem bus motor name = simp append_assoc refl

published-topics_of :
    (bus : ℕ) (t : Topic) → HasMotor t → HasPublisher bus (kind_of t) t (topics_of (to_string bus))
published-topics_of bus transaction_time h =
    (_, _, refl, of_hub (to_string bus) _ _ (Memᴰ.head refl))
published-topics_of bus battery_voltage h =
    (_, _, refl, of_hub (to_string bus) _ _ (Memᴰ.tail (Memᴰ.head refl)))
published-topics_of bus is_connected h =
    (_, _, refl, of_hub (to_string bus) _ _ (Memᴰ.tail (Memᴰ.tail (Memᴰ.head refl))))
published-topics_of bus num_crc_failures h =
    (_, _, refl, of_hub (to_string bus) _ _ (Memᴰ.tail (Memᴰ.tail (Memᴰ.tail (Memᴰ.head refl)))))
published-topics_of bus num_missed_send_loops h = (
  _,
  _,
  refl,
  of_hub (to_string bus) _ _ (Memᴰ.tail (Memᴰ.tail (Memᴰ.tail (Memᴰ.tail (Memᴰ.head refl))))),
)
published-topics_of bus num_nacks h = (
  _,
  _,
  refl,
  of_hub (to_string bus) _ _
      (Memᴰ.tail (Memᴰ.tail (Memᴰ.tail (Memᴰ.tail (Memᴰ.tail (Memᴰ.head refl)))))),
)
published-topics_of bus (encoder i) h = (
  _,
  _,
  motor_topic_lem (to_string bus) (to_string i) "/encoder",
  of_motor (to_string bus) i _ h (Memᴰ.head refl),
)
published-topics_of bus (velocity i) h = (
  _,
  _,
  motor_topic_lem (to_string bus) (to_string i) "/encoderVelocity",
  of_motor (to_string bus) i _ h (Memᴰ.tail (Memᴰ.head refl)),
)
published-topics_of bus (current i) h = (
  _,
  _,
  motor_topic_lem (to_string bus) (to_string i) "/current",
  of_motor (to_string bus) i _ h (Memᴰ.tail (Memᴰ.tail (Memᴰ.head refl))),
)

HasPublisher-append :
    (bus : ℕ) (k : Kind) (t : Topic) (made more : List Declaration)
    → HasPublisher bus k t made
    → HasPublisher bus k t (made ++ more)
HasPublisher-append bus k t made more (name, rest, e, m) = (name, rest, e, Mem-left made more m)

typed-HasPublisher :
    (bus : ℕ) (k : Kind) (t : Topic) (more : List Declaration)
    → IsTyped k t
    → HasPublisher bus k t (initialize false bus ++ more)
unfolding initialize
typed-HasPublisher bus k t more (same, h) =
    subst (λ k. HasPublisher bus k t (topics_of (to_string bus) ++ more)) (sym same)
      (HasPublisher-append bus (kind_of t) t (topics_of (to_string bus)) more
        (published-topics_of bus t h))

module _ {p : Platform} (bus : ℕ) (made : List Declaration) where
  -- What is published has a publisher of the bus among those that are made, for values of its type.
  abbrev pub IsDeclared : Effect p → Type 0
  IsDeclared (published_int topic value) = HasPublisher bus integer topic made
  IsDeclared (published_double topic value) = HasPublisher bus double topic made
  IsDeclared (published_bool topic value) = HasPublisher bus boolean topic made
  IsDeclared _ = Unit

  AreSafe-IsDeclared :
      (can_enable : Bool) (more : List Declaration) (es : List (Effect p))
      → made ≡ initialize false bus ++ more
      → AreSafe can_enable es
      → All IsDeclared es
  AreSafe-IsDeclared can_enable more [] made_is h = tt
  AreSafe-IsDeclared can_enable more (e ∷ es) made_is (w, h) =
      (one e w, AreSafe-IsDeclared can_enable more es made_is h)
    where
      have : (k : Kind) (t : Topic) → IsTyped k t → HasPublisher bus k t made
      have k t typed =
          subst (HasPublisher bus k t) (sym made_is) (typed-HasPublisher bus k t more typed)

      one : (e : Effect p) → IsSafe can_enable e → IsDeclared e
      one (written bytes) w = tt
      one (poll_started n) w = tt
      one poll_stopped w = tt
      one (fd_closed n) w = tt
      one (input_flushed n) w = tt
      one (published_int t v) w = have integer t w
      one (published_double t v) w = have double t w
      one (published_bool t v) w = have boolean t w

module _ {p : Platform} where
  -- In every state that the daemon reaches from the start of its four buses, which have no hub, no effects and no
  -- topics before, each value that bus `bus` has published went to a publisher that `OnDeviceAdded` has made for it: it is
  -- held by the member for this value, it takes values of its type, and its name starts with `/rhsp/`, the number
  -- of the bus and a slash. No publisher of a motor beyond the four is used, whatever the hub has replied.
  pub Reachable-IsDeclared :
      (can_enable : Bool) (fresh states : States p) (bus : ℕ)
      → ((i : ℕ) → ((fresh i).current_hub ≡ none) × ((fresh i).effects ≡ []))
      → (fresh bus).topics ≡ []
      → (fresh bus).nt_store.is_connected_publisher ≡ false
      → bus < num_usb_buses
      → Reachable can_enable (start_buses num_usb_buses 0 fresh).0 states
      → All (IsDeclared bus (states bus).topics) (states bus).effects
  Reachable-IsDeclared can_enable fresh states bus empty none_made unset lt reached = go (
      Reachable-IsNamed can_enable bus fresh states lt (empty bus).0 (empty bus).1 none_made unset
        reached)
    where
      safe : AreSafe can_enable (states bus).effects
      safe = OnHub-AreSafe p can_enable (states bus).current_hub (states bus).effects (
          Reachable-AreBuses can_enable (start_buses num_usb_buses 0 fresh).0 states
            (start_buses-IsIdle num_usb_buses 0 fresh empty) reached bus)

      go : IsNamed bus (states bus) → All (IsDeclared bus (states bus).topics) (states bus).effects
      go (bare number no_hub quiet no_topics fresh_store) = rw quiet tt
      go (named more number made) =
          AreSafe-IsDeclared bus (states bus).topics can_enable more (states bus).effects made safe
