-- ===== src/Serial/Whole/Received.antt =====
-- expansionhub/ExpansionHubSerial.cpp and ReceiveStateMachine.h: what is written to the port, read by a receive
-- machine.
use scservices.Prelude.{
  Bool, some, map, ap, ◌∙◌, ℕ, ◌≡◌, refl, sym, arith, List, [], ◌∷◌, ◌++◌, Bytes, All,
}
use scservices.Receiver.{Delivery, handle_bytes}
use scservices.Receiver.Frames.{Framed, Fits, bytes_of, wire, idle, delivery_of, handle_bytes-wire}
use scservices.Packet.{packet_crc}
use scservices.Packet.RoundTrip.{sent, build_packet-frame, packet_crc-frame}
use scservices.Platform.{Platform}
use scservices.Serial.{
  Effect, written, poll_started, poll_stopped, fd_closed, input_flushed, published_int,
  published_double, published_bool,
}
use scservices.Serial.Queue.{concat}
use scservices.Serial.Whole.{IsBuilt, IsWhole, AreSafe}

-- A receive machine that stands between packets takes the bytes as packets of them, whole and in order, each
-- with its own last byte as its checksum.
pub record IsReceived (bytes : Bytes) : Type 0 where
  pub deliveries : ℕ → List Delivery
  pub last_length : ℕ → ℕ
  pub taken : (n : ℕ) → handle_bytes (idle n 0) bytes ≡ some (idle (last_length n) 0, deliveries n)
  pub all_taken : (n : ℕ) → concat (map (λ d. d.bytes) (deliveries n)) ≡ bytes
  pub checked : (n : ℕ) → All (λ d. packet_crc d.bytes ≡ some d.sum) (deliveries n)

framed : (can_enable : Bool) (qs : List Bytes) → All (IsBuilt can_enable) qs → List Framed
framed can_enable [] h = []
framed can_enable (q ∷ qs) (b, bs) = sent b.dest b.message b.id b.pay ∷ framed can_enable qs bs

framed-wire :
    (can_enable : Bool) (qs : List Bytes) (h : All (IsBuilt can_enable) qs)
    → wire (framed can_enable qs h) ≡ concat qs
unfolding framed
framed-wire can_enable [] h = refl
framed-wire can_enable (q ∷ qs) (b, bs) =
    let same : bytes_of (sent b.dest b.message b.id b.pay) ≡ q =
      sym (b.built_is ∙ build_packet-frame b.dest b.message b.id b.pay b.short) in
    ap (λ t. t ++ wire (framed can_enable qs bs)) same
    ∙ ap (λ t. q ++ t) (framed-wire can_enable qs bs)

framed-Fits :
    (can_enable : Bool) (qs : List Bytes) (h : All (IsBuilt can_enable) qs)
    → All Fits (framed can_enable qs h)
unfolding framed
framed-Fits can_enable [] h = tt
framed-Fits can_enable (q ∷ qs) (b, bs) = (omega (arith, b.short), framed-Fits can_enable qs bs)

framed-checked :
    (can_enable : Bool) (qs : List Bytes) (h : All (IsBuilt can_enable) qs)
    → All (λ d. packet_crc d.bytes ≡ some d.sum) (map delivery_of (framed can_enable qs h))
unfolding framed
framed-checked can_enable [] h = tt
framed-checked can_enable (q ∷ qs) (b, bs) =
    let r = sent b.dest b.message b.id b.pay in
    (packet_crc-frame r.fields r.pay r.crc, framed-checked can_enable qs bs)

wire-deliveries : (ps : List Framed) → concat (map (λ d. d.bytes) (map delivery_of ps)) ≡ wire ps
wire-deliveries [] = refl
wire-deliveries (p ∷ ps) = ap (λ t. bytes_of p ++ t) (wire-deliveries ps)

pub IsWhole-IsReceived :
    {can_enable : Bool} (bytes : Bytes) → IsWhole can_enable bytes → IsReceived bytes
IsWhole-IsReceived {can_enable} bytes w =
    let ps = framed can_enable w.packets w.are_built in
    let same : wire ps ≡ bytes = framed-wire can_enable w.packets w.are_built ∙ sym w.bytes_are in
    let fit = framed-Fits can_enable w.packets w.are_built in
    record {
      deliveries = λ n. map delivery_of ps;
      last_length = λ n. (handle_bytes-wire ps n fit).0;
      taken = λ n. rw⁻¹ same (handle_bytes-wire ps n fit).1;
      all_taken = λ n. wire-deliveries ps ∙ same;
      checked = λ n. framed-checked can_enable w.packets w.are_built;
    }

module _ {p : Platform} where
  -- Each write to the port can be received.
  abbrev pub IsHeard : Effect p → Type 0
  IsHeard (written bytes) = IsReceived bytes
  IsHeard _ = Unit

  pub AreSafe-IsHeard :
      (can_enable : Bool) (es : List (Effect p)) → AreSafe can_enable es → All IsHeard es
  AreSafe-IsHeard can_enable [] h = tt
  AreSafe-IsHeard can_enable (written bytes ∷ es) (w, h) =
      (IsWhole-IsReceived bytes w, AreSafe-IsHeard can_enable es h)
  AreSafe-IsHeard can_enable (poll_started n ∷ es) (w, h) = (tt, AreSafe-IsHeard can_enable es h)
  AreSafe-IsHeard can_enable (poll_stopped ∷ es) (w, h) = (tt, AreSafe-IsHeard can_enable es h)
  AreSafe-IsHeard can_enable (fd_closed n ∷ es) (w, h) = (tt, AreSafe-IsHeard can_enable es h)
  AreSafe-IsHeard can_enable (input_flushed n ∷ es) (w, h) = (tt, AreSafe-IsHeard can_enable es h)
  AreSafe-IsHeard can_enable (published_int t v ∷ es) (w, h) = (tt, AreSafe-IsHeard can_enable es h)
  AreSafe-IsHeard can_enable (published_double t v ∷ es) (w, h) =
      (tt, AreSafe-IsHeard can_enable es h)
  AreSafe-IsHeard can_enable (published_bool t v ∷ es) (w, h) =
      (tt, AreSafe-IsHeard can_enable es h)
