-- ===== src/Serial/Whole.antt =====
-- expansionhub/ExpansionHubSerial.cpp: what is written to the port is made of whole packets.
pub mod Received
use scservices.Prelude.{
  Bool, some, map, ap, ◌∙◌, ℕ, zero, suc, ◌<◌, ◌≡◌, refl, sym, arith, List, [], ◌∷◌, ◌++◌, Bytes,
  length, take, drop, All, All-append, append-nil,
}
use scservices.Receiver.{Delivery, handle_bytes}
use scservices.Receiver.Frames.{Framed, Fits, bytes_of, wire, idle, delivery_of, handle_bytes-wire}
use scservices.Packet.{build_packet, packet_crc}
use scservices.Packet.RoundTrip.{sent, build_packet-frame, packet_crc-frame}
use scservices.Platform.{Platform}
use scservices.Serial.{
  Effect, Topic, written, poll_started, poll_stopped, fd_closed, input_flushed, published_int,
  published_double, published_bool,
}
use scservices.Topics.{boolean, integer, double}
use scservices.Serial.Typed.{IsTyped}
use scservices.Serial.Keeps.{IsAllowed}
use scservices.Serial.Queue.{concat}
use scservices.Serial.Queue.Flush.{All-drop, writes}

-- A packet that `SendPacket` has built, with an allowed payload.
pub record IsBuilt (can_enable : Bool) (packet : Bytes) : Type 0 where
  pub dest : ℕ
  pub message : ℕ
  pub id : ℕ
  pub pay : Bytes
  pub short : length pay < 1013
  pub allowed : IsAllowed can_enable pay
  pub built_is : packet ≡ build_packet dest message id pay

pub build_packet-IsBuilt :
    {can_enable : Bool} (dest message id : ℕ) (pay : Bytes)
    → length pay < 1013
    → IsAllowed can_enable pay
    → IsBuilt can_enable (build_packet dest message id pay)
build_packet-IsBuilt dest message id pay h allowed = record {
  dest = dest;
  message = message;
  id = id;
  pay = pay;
  short = h;
  allowed = allowed;
  built_is = refl;
}

-- Bytes that are such packets, one after the other.
pub record IsWhole (can_enable : Bool) (bytes : Bytes) : Type 0 where
  pub packets : List Bytes
  pub are_built : All (IsBuilt can_enable) packets
  pub bytes_are : bytes ≡ concat packets

All-take {ℓ} : {A : Type ℓ} (P : A → Type 0) (n : ℕ) (xs : List A) → All P xs → All P (take n xs)
All-take P zero xs h = tt
All-take P (suc n) [] h = tt
All-take P (suc n) (x ∷ xs) h = (h.0, All-take P n xs h.1)

pub All-IsBuilt-drop :
    (can_enable : Bool) (n : ℕ) (qs : List Bytes)
    → All (IsBuilt can_enable) qs
    → All (IsBuilt can_enable) (drop n qs)
All-IsBuilt-drop can_enable = All-drop (IsBuilt can_enable)

module _ {p : Platform} where
  -- Each write to the port is whole, and each value is published where there is a publisher for its type.
  abbrev pub IsSafe : Bool → Effect p → Type 0
  IsSafe can_enable (written bytes) = IsWhole can_enable bytes
  IsSafe can_enable (published_int topic value) = IsTyped integer topic
  IsSafe can_enable (published_double topic value) = IsTyped double topic
  IsSafe can_enable (published_bool topic value) = IsTyped boolean topic
  IsSafe can_enable _ = Unit

  abbrev pub AreSafe : Bool → List (Effect p) → Type 0
  AreSafe can_enable es = All (IsSafe can_enable) es

  pub AreSafe-append :
      (can_enable : Bool) (es fs : List (Effect p))
      → AreSafe can_enable es
      → AreSafe can_enable fs
      → AreSafe can_enable (es ++ fs)
  AreSafe-append can_enable = All-append (IsSafe can_enable)

  pub written-AreSafe :
      (can_enable : Bool) (packet : Bytes) (es : List (Effect p))
      → IsBuilt can_enable packet
      → AreSafe can_enable es
      → AreSafe can_enable (es ++ written packet ∷ [])
  written-AreSafe can_enable packet es b h = AreSafe-append can_enable es (written packet ∷ []) h (
    record { packets = packet ∷ []; are_built = (b, tt); bytes_are = sym (append-nil packet) },
    tt,
  )

writes-AreSafe :
    (p : Platform) (can_enable : Bool) (qs : List Bytes) (bs : Bytes)
    → All (IsBuilt can_enable) qs
    → bs ≡ concat qs
    → AreSafe {p = p} can_enable (writes bs)
writes-AreSafe p can_enable qs [] h e = tt
writes-AreSafe p can_enable qs (b ∷ bs) h e =
    (record { packets = qs; are_built = h; bytes_are = e }, tt)

module _ {p : Platform} where
  -- What `Flush` writes of a queue.
  pub taken-AreSafe :
      (can_enable : Bool) (n : ℕ) (qs : List Bytes) (es : List (Effect p))
      → All (IsBuilt can_enable) qs
      → AreSafe can_enable es
      → AreSafe can_enable (es ++ writes (concat (take n qs)))
  taken-AreSafe can_enable n qs es b h =
      AreSafe-append can_enable es (writes (concat (take n qs))) h (
        writes-AreSafe p can_enable (take n qs) (concat (take n qs))
          (All-take (IsBuilt can_enable) n qs b) refl)
