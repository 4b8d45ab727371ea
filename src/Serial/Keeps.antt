-- ===== src/Serial/Keeps.antt =====
-- expansionhub/ExpansionHubSerial.cpp: handlers that end in a state with a property, put together from
-- their parts, and the requests, which all send one packet.
use scservices.Prelude.{
  Option-cases, inl, inr, ℕ, suc, ◌<◌, ◌≡◌, ◌≢◌, ap, arith, Bool, true, false, Option, none, some,
  List, refl, [], ◌∷◌, Bytes, ◌==◌, leb, length, if◌then◌else◌, ◌>>=◌,
}
use scservices.Platform.{Platform, Moment}
use scservices.Serial.{
  ExpansionHubSerial, Effect, Session, Action, reading, with_address, with_interface, ◌>=>◌,
}
use scservices.Serial.Output.{send_packet, flush}
use scservices.Serial.Requests.{
  request, flag, send_battery_request, send_motor_current_request, send_encoder_reset_request,
  send_servo_configuration, send_servo_pulse_width, send_servo_enable, send_motor_constant_power,
  send_motor_mode, send_motor_enable, get_module_status, send_keep_alive, send_bulk_input,
}

-- The payloads that may be sent: to a hub that is not to be enabled, not the channel and a 1, which asks to enable
-- the channel.
abbrev pub IsAllowed : Bool → Bytes → Type 0
IsAllowed can_enable pay = can_enable ≡ false → (channel : ℕ) → pay ≢ channel ∷ 1 ∷ []

pub allow_length : (can_enable : Bool) (pay : Bytes) → length pay ≢ 2 → IsAllowed can_enable pay
allow_length can_enable pay other off channel e = other (ap length e)

pub allow_flag :
    (can_enable b : Bool) (channel : ℕ)
    → (b ≡ true → can_enable ≡ true)
    → IsAllowed can_enable (channel ∷ flag b ∷ [])
allow_flag can_enable false channel k off c e = cc e
allow_flag can_enable true channel k off c e = cc (off, k refl)

-- `F` is what is proved where a handler meets undefined behaviour: `⊥` says that it meets none.
module _ (p : Platform) (F : Type 0) (P : ExpansionHubSerial → List (Effect p) → Type 0) where
  -- The handler has ended, and the property holds of what it left.
  abbrev pub Ends : Option (Session p) → Type 0
  Ends none = F
  Ends (some s) = P s.serial s.effects

  abbrev pub Keeps : Action p → Type 0
  Keeps f = (s : Session p) → P s.serial s.effects → Ends (f s)

  pub then-Keeps : (f g : Action p) → Keeps f → Keeps g → Keeps (f >=> g)
  then-Keeps f g kf kg s h = later (f s) (kf s h)
    where
      later : (m : Option (Session p)) → Ends m → Ends (m >>= g)
      later none e = e
      later (some t) e = kg t e

  pub if-Keeps : (b : Bool) (f g : Action p) → Keeps f → Keeps g → Keeps (if b then f else g)
  if-Keeps true f g kf kg = kf
  if-Keeps false f g kf kg = kg

  pub reading-Keeps : (f : Moment p → Action p) → ((m : Moment p) → Keeps (f m)) → Keeps (reading f)
  reading-Keeps f k s h = k (s.moments s.readings) (record s { readings = suc s.readings }) h

  -- A property under which a link can send: the hub's address and interface are known, or that they
  -- are not is allowed for, and the property stays when an
  -- allowed packet is queued and when the queue is flushed.
  pub record IsSendable (can_enable : Bool) : Type 0 where
    pub has_address :
        (r : ExpansionHubSerial) (es : List (Effect p)) → P r es → r.address ≡ none → F
    pub has_interface :
        (r : ExpansionHubSerial) (es : List (Effect p)) → P r es → r.packet_interface_id ≡ none → F
    pub send_keeps :
        (dest message id : ℕ) (pay : Bytes)
        → length pay < 1013
        → IsAllowed can_enable pay
        → Keeps (send_packet dest message id pay false)
    pub flush_keeps : Keeps flush

  module _ (can_enable : Bool) (c : IsSendable can_enable) where
    pub address-Keeps : (f : ℕ → Action p) → ((a : ℕ) → Keeps (f a)) → Keeps (with_address f)
    address-Keeps f k s h = elim (Option-cases s.serial.address) [
      | inl e ↦ simp e (c.has_address s.serial s.effects h e)
      | inr (a, e) ↦ simp e (k a s h)
    ]

    pub interface-Keeps : (f : ℕ → Action p) → ((i : ℕ) → Keeps (f i)) → Keeps (with_interface f)
    interface-Keeps f k s h = elim (Option-cases s.serial.packet_interface_id) [
      | inl e ↦ simp e (c.has_interface s.serial s.effects h e)
      | inr (i, e) ↦ simp e (k i s h)
    ]

    pub request-Keeps :
        (message offset : ℕ) (pay : Bytes)
        → length pay < 1013
        → IsAllowed can_enable pay
        → Keeps (request message offset pay)
    request-Keeps message offset pay h allowed =
        interface-Keeps _ (λ i. address-Keeps _ (λ a. c.send_keeps a message _ pay h allowed))

    pub send_battery_request-Keeps : Keeps send_battery_request
    unfolding send_battery_request
    send_battery_request-Keeps =
        request-Keeps _ _ _ (omega arith) (allow_flag can_enable false _ (ground arith))

    pub send_motor_current_request-Keeps : (i : ℕ) → Keeps (send_motor_current_request i)
    unfolding send_motor_current_request
    send_motor_current_request-Keeps i =
        request-Keeps _ _ _ (omega arith) (allow_flag can_enable false _ (ground arith))

    pub send_encoder_reset_request-Keeps : (i : ℕ) → Keeps (send_encoder_reset_request i)
    unfolding send_encoder_reset_request
    send_encoder_reset_request-Keeps i =
        request-Keeps _ _ _ (omega arith) (allow_length can_enable _ (ground arith))

    pub send_servo_configuration-Keeps : (i v : ℕ) → Keeps (send_servo_configuration i v)
    unfolding send_servo_configuration
    send_servo_configuration-Keeps i v =
        if-Keeps (leb v 1) _ _ (λ s h. h)
          (request-Keeps _ _ _ (omega arith) (allow_length can_enable _ (ground arith)))

    pub send_servo_pulse_width-Keeps : (i v : ℕ) → Keeps (send_servo_pulse_width i v)
    unfolding send_servo_pulse_width
    send_servo_pulse_width-Keeps i v =
        if-Keeps (v == 0) _ _ (λ s h. h)
          (request-Keeps _ _ _ (omega arith) (allow_length can_enable _ (ground arith)))

    pub send_servo_enable-Keeps :
        (i : ℕ) (b : Bool) → (b ≡ true → can_enable ≡ true) → Keeps (send_servo_enable i b)
    unfolding send_servo_enable
    send_servo_enable-Keeps i b k = request-Keeps _ _ _ (omega arith) (allow_flag can_enable b i k)

    pub send_motor_constant_power-Keeps :
        (i : ℕ) (power : p.Double) → Keeps (send_motor_constant_power i power)
    unfolding send_motor_constant_power
    send_motor_constant_power-Keeps i power =
        request-Keeps _ _ _ (omega arith) (allow_length can_enable _ (ground arith))

    pub send_motor_mode-Keeps : (i : ℕ) (b : Bool) → Keeps (send_motor_mode i b)
    unfolding send_motor_mode
    send_motor_mode-Keeps i b =
        request-Keeps _ _ _ (omega arith) (allow_length can_enable _ (ground arith))

    pub send_motor_enable-Keeps :
        (i : ℕ) (b : Bool) → (b ≡ true → can_enable ≡ true) → Keeps (send_motor_enable i b)
    unfolding send_motor_enable
    send_motor_enable-Keeps i b k = request-Keeps _ _ _ (omega arith) (allow_flag can_enable b i k)

    pub get_module_status-Keeps : Keeps get_module_status
    unfolding get_module_status
    get_module_status-Keeps =
        address-Keeps _
          (λ a. c.send_keeps a _ _ _ (omega arith) (allow_length can_enable _ (ground arith)))

    pub send_keep_alive-Keeps : Keeps send_keep_alive
    unfolding send_keep_alive
    send_keep_alive-Keeps =
        address-Keeps _
          (λ a. c.send_keeps a _ _ _ (omega arith) (allow_length can_enable _ (ground arith)))

    pub send_bulk_input-Keeps : Keeps send_bulk_input
    unfolding send_bulk_input
    send_bulk_input-Keeps =
        request-Keeps _ _ _ (omega arith) (allow_length can_enable _ (ground arith))

-- From one property to another.
module _ (p : Platform) (F : Type 0) (P Q : ExpansionHubSerial → List (Effect p) → Type 0) where
  abbrev pub Runs : Action p → Type 0
  Runs f = (s : Session p) → P s.serial s.effects → Ends p F Q (f s)

pub then-Runs :
    (p : Platform) (F : Type 0) (P Q R : ExpansionHubSerial → List (Effect p) → Type 0)
    (f g : Action p)
    → Runs p F P Q f
    → Runs p F Q R g
    → Runs p F P R (f >=> g)
then-Runs p F P Q R f g kf kg s h = later (f s) (kf s h)
  where
    later : (m : Option (Session p)) → Ends p F Q m → Ends p F R (m >>= g)
    later none e = e
    later (some t) e = kg t e

-- With undefined behaviour allowed for: the property holds of what a handler left, if it left anything.
module _ (p : Platform) (P : ExpansionHubSerial → List (Effect p) → Type 0) where
  abbrev pub Holds : Option (Session p) → Type 0
  Holds = Ends p Unit P

  abbrev pub Guards : Action p → Type 0
  Guards = Keeps p Unit P

  pub then-Guards : (f g : Action p) → Guards f → Guards g → Guards (f >=> g)
  then-Guards = then-Keeps p Unit P

  pub if-Guards : (b : Bool) (f g : Action p) → Guards f → Guards g → Guards (if b then f else g)
  if-Guards = if-Keeps p Unit P

  pub bind-Holds {ℓ} :
      {A : Type ℓ} (o : Option A) (f : A → Option (Session p))
      → ((a : A) → Holds (f a))
      → Holds (o >>= f)
  bind-Holds none f k = tt
  bind-Holds (some a) f k = k a

  pub if-Holds :
      (b : Bool) (m n : Option (Session p)) → Holds m → Holds n → Holds (if b then m else n)
  if-Holds true m n hm hn = hm
  if-Holds false m n hm hn = hn
