-- ===== src/Topics.antt =====
-- expansionhub/PidConstants.cpp, MotorNtState.cpp, ServoNtState.cpp and ExpansionHubNtState.cpp: the topics that
-- the functions called `Initialize` publish and subscribe to, in order.
use scservices.Prelude.{
  ℕ, zero, suc, ◌+◌, ◌<◌, ◌≡◌, ◌≢◌, refl, ap, sym, arith, Bool, false, List, [], ◌∷◌, ◌++◌, map,
  drop, Bytes, All, get_or, if◌then◌else◌, codes, to_string, String,
}
use mathlib.Core.Path.{subst}
use scservices.Serial.{Topic}
use scservices.NtState.{num_motors_per_hub, num_servos_per_hub}

pub data Kind : Type 0 where
  boolean integer double : Kind

-- A topic with its type; a publisher is held by the member that the values go to, and a subscriber has a default, of which 0 is also `false`.
pub data Declaration : Type 0 where
  publish : Topic → Kind → Bytes → Declaration
  subscribe : Kind → Bytes → ℕ → Declaration

abbrev pub name_of : Declaration → Bytes
name_of (publish topic k name) = name
name_of (subscribe k name d) = name

-- `"/rhsp/" + busIdStr`
abbrev pub bus_prefix : Bytes → Bytes
bus_prefix bus = codes "/rhsp/" ++ bus

abbrev pub motor_topic : Bytes → Bytes → String → Bytes
motor_topic bus motor name = bus_prefix bus ++ codes "/motor" ++ motor ++ codes name

abbrev pub pid_topic : Bytes → Bytes → String → String → Bytes
pid_topic bus motor pid_type name = motor_topic bus motor "/pid/" ++ codes pid_type ++ codes name

-- `PidConstants::Initialize`.
abbrev pub initialize_pid : Bytes → Bytes → String → List Declaration
initialize_pid bus motor pid_type =
    subscribe double (pid_topic bus motor pid_type "/kp") 0
    ∷ subscribe double (pid_topic bus motor pid_type "/ki") 0
    ∷ subscribe double (pid_topic bus motor pid_type "/kd") 0
    ∷ subscribe double (pid_topic bus motor pid_type "/ka") 0
    ∷ subscribe double (pid_topic bus motor pid_type "/kv") 0
    ∷ subscribe double (pid_topic bus motor pid_type "/ks") 0
    ∷ subscribe boolean (pid_topic bus motor pid_type "/continuous") 0
    ∷ subscribe double (pid_topic bus motor pid_type "/continuousMinimum") 0
    ∷ subscribe double (pid_topic bus motor pid_type "/continousMaximum") 0
    ∷ []

-- `MotorNtState::Initialize`.
abbrev pub initialize_motor : Bytes → ℕ → List Declaration
initialize_motor bus motor_num =
    let motor = to_string motor_num in
    publish (Topic.encoder motor_num) double (motor_topic bus motor "/encoder")
    ∷ publish (Topic.velocity motor_num) double (motor_topic bus motor "/encoderVelocity")
    ∷ publish (Topic.current motor_num) double (motor_topic bus motor "/current")
    ∷ subscribe double (motor_topic bus motor "/setpoint") 0
    ∷ subscribe boolean (motor_topic bus motor "/floatOn0") 0
    ∷ subscribe boolean (motor_topic bus motor "/enabled") 0
    ∷ subscribe integer (motor_topic bus motor "/mode") 0
    ∷ subscribe boolean (motor_topic bus motor "/reversed") 0
    ∷ subscribe double (motor_topic bus motor "/distancePerCount") 0
    ∷ subscribe boolean (motor_topic bus motor "/resetEncoder") 0
    ∷ (initialize_pid bus motor "velocity" ++ initialize_pid bus motor "position")

abbrev pub servo_topic : Bytes → Bytes → String → Bytes
servo_topic bus servo name = bus_prefix bus ++ codes "/servo" ++ servo ++ codes name

-- `ServoNtState::Initialize`.
abbrev pub initialize_servo : Bytes → ℕ → List Declaration
initialize_servo bus servo_num =
    let servo = to_string servo_num in
    subscribe boolean (servo_topic bus servo "/enabled") 0
    ∷ subscribe integer (servo_topic bus servo "/framePeriod") 20000
    ∷ subscribe integer (servo_topic bus servo "/pulseWidth") 1500
    ∷ []

-- The rounds of a loop over channels, from `i` on.
abbrev pub each : ℕ → ℕ → (ℕ → List Declaration) → List Declaration
each zero i f = []
each (suc n) i f = f i ++ each n (suc i) f

abbrev pub topics_of : Bytes → List Declaration
topics_of bus =
    each num_motors_per_hub 0 (initialize_motor bus)
    ++ each num_servos_per_hub 0 (initialize_servo bus)
    ++ publish Topic.transaction_time integer (bus_prefix bus ++ codes "/transactionTime")
      ∷ publish Topic.battery_voltage double (bus_prefix bus ++ codes "/battery")
      ∷ publish Topic.is_connected boolean (bus_prefix bus ++ codes "/connected")
      ∷ publish Topic.num_crc_failures integer (bus_prefix bus ++ codes "/numCrcFailures")
      ∷ publish Topic.num_missed_send_loops integer (bus_prefix bus ++ codes "/numMissedSendLoops")
      ∷ publish Topic.num_nacks integer (bus_prefix bus ++ codes "/numNacks")
      ∷ []

-- `ExpansionHubNtState::Initialize`: what it makes, given whether `isConnectedPublisher` is made.
unfoldable pub initialize : Bool → ℕ → List Declaration
initialize is_connected_publisher device_num =
    if is_connected_publisher then [] else topics_of (to_string device_num)

-- The character behind `/rhsp/`.
abbrev bus_digit : Declaration → ℕ
bus_digit d = get_or (name_of d) 6 0

abbrev replicate : ℕ → ℕ → List ℕ
replicate zero c = []
replicate (suc n) c = c ∷ replicate n c

All-map-replicate :
    (n c : ℕ) (ds : List Declaration)
    → map bus_digit ds ≡ replicate n c
    → All (λ d. bus_digit d ≡ c) ds
All-map-replicate n c [] e = tt
All-map-replicate zero c (d ∷ ds) e = absurd (cc e)
All-map-replicate (suc n) c (d ∷ ds) e =
    (ap (λ t. get_or t 0 0) e, All-map-replicate n c ds (ap (drop 1) e))

to_string_digit : (n : ℕ) → n < 10 → to_string n ≡ (b'0' + n) ∷ []
to_string_digit n h = ground arith

topics_of-digit : (n : ℕ) → All (λ d. bus_digit d ≡ b'0' + n) (topics_of ((b'0' + n) ∷ []))
topics_of-digit n = All-map-replicate 136 (b'0' + n) (topics_of ((b'0' + n) ∷ [])) refl

All-initialize-digit : (n : ℕ) → n < 10 → All (λ d. bus_digit d ≡ b'0' + n) (initialize false n)
unfolding initialize
All-initialize-digit n h =
    subst (λ bus. All (λ d. bus_digit d ≡ b'0' + n) (topics_of bus)) (sym (to_string_digit n h))
      (topics_of-digit n)

All-mono :
    (P Q : Declaration → Type 0) (ds : List Declaration)
    → ((d : Declaration) → P d → Q d)
    → All P ds
    → All Q ds
All-mono P Q [] k h = tt
All-mono P Q (d ∷ ds) k (h, hs) = (k d h, All-mono P Q ds k hs)

-- Two buses with different numbers below 10 have no topic in common.
pub initialize_disjoint :
    (m n : ℕ)
    → m < 10
    → n < 10
    → m ≢ n
    → All (λ d. All (λ e. name_of d ≢ name_of e) (initialize false n)) (initialize false m)
initialize_disjoint m n hm hn differ =
    All-mono _ _ (initialize false m)
      (λ d of_m.
        All-mono _ _ (initialize false n)
          (λ e of_n same. differ (omega (arith, of_m, of_n, ap (λ name. get_or name 6 0) same)))
          (All-initialize-digit n hn))
      (All-initialize-digit m hm)
