-- ===== src/Packet/RoundTrip.antt =====
-- expansionhub/ExpansionHubSerial.cpp: the packets of `SendPacket` before the machine that receives and the
-- functions that take a packet apart.
use scservices.Prelude.{
  ℕ, ◌+◌, ◌/◌, ◌%◌, ◌^◌, ◌<◌, ◌≡◌, refl, ap, ◌∙◌, arith, append-nil, some, List, [], ◌∷◌, ◌++◌,
  Bytes, length, get_elem?, take, length-append, take-append, sum_u8,
}
use scservices.Receiver.{handle_bytes}
use scservices.Receiver.Frames.{Fields, Framed, body, frame, idle, bytes_of, handle_bytes-wire}
use scservices.Packet.{
  read_uint16, write_uint16, packet_id, packet_payload_buffer, packet_crc,
  packet_destination_address, calc_checksum, build_packet,
}

pub read_uint16-write_uint16 : (v : ℕ) → v < 2 ^ 16 → read_uint16 (write_uint16 v) ≡ some v
unfolding read_uint16
read_uint16-write_uint16 v h = ap some (omega arith)

pub get_elem?-concat {ℓ} :
    {A : Type ℓ} (xs : List A) (y : A) → get_elem? (xs ++ y ∷ []) (length xs) ≡ some y
get_elem?-concat [] y = refl
get_elem?-concat (x ∷ xs) y = get_elem?-concat xs y

-- The last byte of a packet, and the bytes between the header and it.
pub packet_crc-frame :
    (f : Fields) (pay : Bytes) (crc : ℕ) → packet_crc (frame f pay crc) ≡ some crc
unfolding packet_crc
packet_crc-frame f pay crc = ground (arith, length-append pay (crc ∷ []), get_elem?-concat pay crc)

pub packet_payload_buffer-frame :
    (f : Fields) (pay : Bytes) (crc : ℕ) → packet_payload_buffer (frame f pay crc) ≡ some pay
unfolding packet_payload_buffer
packet_payload_buffer-frame f pay crc =
    ground (arith, length-append pay (crc ∷ []), take-append pay (crc ∷ []))

-- A packet of `SendPacket` in the form in which the line carries it.
abbrev pub sent : ℕ → ℕ → ℕ → Bytes → Framed
sent dest message id pay =
    let f : Fields = record {
      destination = dest;
      source = 0;
      message = message;
      reference = 0;
      id_low = id % 256;
      id_high = id / 256 % 256;
    } in
    record { fields = f; pay = pay; crc = sum_u8 0 (body f pay) }

pub build_packet-frame :
    (dest message id : ℕ) (pay : Bytes)
    → length pay < 1013
    → build_packet dest message id pay ≡ bytes_of (sent dest message id pay)
unfolding build_packet calc_checksum
build_packet-frame dest message id pay h =
    let low : (10 + length pay + 1) % 2 ^ 16 % 256 ≡ (length pay + 11) % 256 = omega arith in
    let high : (10 + length pay + 1) % 2 ^ 16 / 256 % 256 ≡ (length pay + 11) / 256 = omega arith in
    rw (low, high)

-- What `SendPacket` builds for a 16-bit packet id and fewer than 1013 bytes of payload: the receive
-- machine, between packets with a checksum of 0, takes it as one packet, whole; its last byte is the
-- checksum that the machine has computed; and destination, id and payload read back as they were.
pub handle_bytes-build_packet :
    (dest message id n : ℕ) (pay : Bytes)
    → length pay < 1013
    → id < 2 ^ 16
    → let packet = build_packet dest message id pay in
      let sum = calc_checksum (take (length pay + 10) packet) in
      (m : ℕ) × (handle_bytes (idle n 0) packet
        ≡ some (idle m 0, record { bytes = packet; sum = sum } ∷ []))
      × (packet_crc packet ≡ some sum)
      × (packet_destination_address packet ≡ some dest)
      × (packet_id packet ≡ some id)
      × (packet_payload_buffer packet ≡ some pay)
unfolding calc_checksum packet_destination_address packet_id
handle_bytes-build_packet dest message id n pay h hid =
    let p = sent dest message id pay in
    let (m, read) = handle_bytes-wire (p ∷ []) n (omega arith, tt) in
    let start : take (length pay + 10) (bytes_of p) ≡ body p.fields pay =
      ap (λ k. take k (bytes_of p)) counted ∙ take-append (body p.fields pay) (p.crc ∷ []) in
    rw (build_packet-frame dest message id pay h) (
      rw start (
        m,
        rw append-nil at read,
        packet_crc-frame p.fields pay p.crc,
        refl,
        ap some (omega arith),
        packet_payload_buffer-frame p.fields pay p.crc,
      ))
  where
    counted : length pay + 10 ≡ length (body (sent dest message id pay).fields pay)
    counted = omega arith

pub length-build_packet :
    (dest message id : ℕ) (pay : Bytes)
    → length (build_packet dest message id pay) ≡ length pay + 11
unfolding build_packet
length-build_packet dest message id pay = rw length-append (omega arith)
