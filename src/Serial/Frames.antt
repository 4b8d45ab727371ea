-- ===== src/Serial/Frames.antt =====
-- expansionhub/ExpansionHubSerial.cpp: `DoRead` of one whole packet.
use scservices.Prelude.{
  ℕ, ◌+◌, ◌*◌, ◌^◌, ◌≡◌, refl, ap, arith, Bool, true, Option, none, some, [], ◌∷◌, append-nil, ◌==◌,
  ◌>>=◌, sum_u8,
}
use scservices.Receiver.{handle_bytes}
use scservices.Receiver.Frames.{Framed, Fits, bytes_of, body, idle, delivery_of, handle_bytes-wire}
use scservices.Packet.{packet_id, packet_reference_number}
use scservices.Packet.RoundTrip.{packet_crc-frame, packet_payload_buffer-frame}
use scservices.Platform.{Platform}
use scservices.Serial.{Session, Action, skip, on_serial}
use scservices.Serial.Output.{flush}
use scservices.Serial.Payload.{handle_checked, handle_payload, handle_all, do_read}

abbrev pub id_of : Framed → ℕ
id_of r = r.fields.id_high * 2 ^ 8 + r.fields.id_low

-- A packet that the machine takes, with the right checksum.
pub record IsFrame (r : Framed) : Type 0 where
  pub fits : Fits r
  pub checked : r.crc ≡ sum_u8 0 (body r.fields r.pay)

-- The machine stands between packets.
abbrev pub at_rest : {p : Platform} → ℕ → Session p → Session p
at_rest m s = on_serial (λ x. record x { state_machine = idle m 0 }) s

pub frame_taken :
    (r : Framed) (n : ℕ)
    → Fits r
    → (m : ℕ) × (handle_bytes (idle n 0) (bytes_of r) ≡ some (idle m 0, delivery_of r ∷ []))
frame_taken r n h =
    let (m, read) = handle_bytes-wire (r ∷ []) n (h, tt) in (m, rw append-nil at read)

module _ {p : Platform} (f : Bool → Bool → Action p) where
  then-skip : (k : Option (Session p)) → (k >>= skip) ≡ k
  then-skip none = refl
  then-skip (some t) = refl

  -- A packet with a right checksum is handled by its id, reference number and payload.
  handle_payload-frame :
      (r : Framed) (s : Session p)
      → r.crc ≡ sum_u8 0 (body r.fields r.pay)
      → handle_payload f (bytes_of r) (sum_u8 0 (body r.fields r.pay)) s
        ≡ handle_checked f (id_of r) r.fields.reference r.pay (bytes_of r) s
  unfolding handle_payload packet_id packet_reference_number
  handle_payload-frame r s checked =
      let crc = packet_crc-frame r.fields r.pay r.crc in
      let pay = packet_payload_buffer-frame r.fields r.pay r.crc in
      let same : (sum_u8 0 (body r.fields r.pay) == r.crc) ≡ true = ground (arith, checked) in
      simp (crc, pay, same) refl

  -- A read of it, between packets: it is handled, and the queue is flushed.
  pub do_read-frame :
      (r : Framed) (s : Session p) (n m : ℕ)
      → IsFrame r
      → s.serial.state_machine ≡ idle n 0
      → handle_bytes (idle n 0) (bytes_of r) ≡ some (idle m 0, delivery_of r ∷ [])
      → do_read f (some (bytes_of r)) s
        ≡ (handle_checked f (id_of r) r.fields.reference r.pay (bytes_of r) (at_rest m s) >>= flush)
  unfolding do_read handle_all
  do_read-frame r s n m i between read =
      rw (between, read, handle_payload-frame r (at_rest m s) i.checked)
        (ap (λ k. k >>= flush)
          (then-skip
            (handle_checked f (id_of r) r.fields.reference r.pay (bytes_of r) (at_rest m s))))
