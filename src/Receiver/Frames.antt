-- ===== src/Receiver/Frames.antt =====
-- expansionhub/ReceiveStateMachine.h: whole packets on the line, and what a false start does to the
-- packet behind it.
use scservices.Prelude.{
  ℕ, suc, ◌+◌, ◌/◌, ◌%◌, ◌≤◌, ◌≡◌, ◌≢◌, refl, ap, ◌∙◌, some, List, [], ◌∷◌, ◌++◌, arith, Bytes,
  length, All, map, take_all, add_u8, sum_u8, sum_u8_shift, sum_u8-lt, sum_u8-append,
}
use scservices.Receiver.{
  Receiver, first_byte, payload, crc_byte, Delivery, end_of_header, handle_bytes,
}
use scservices.Receiver.Inv.{store_all_lem}
use scservices.Receiver.Bytewise.{
  feed_in, feed, feed_all, feed_all-append, feed_all-payload, handle_bytes-feed_all,
}

-- The six bytes between the length field and the payload.
pub record Fields : Type 0 where
  pub destination : ℕ
  pub source : ℕ
  pub message : ℕ
  pub reference : ℕ
  pub id_low : ℕ
  pub id_high : ℕ

-- The first ten bytes of a packet of `n` bytes.
abbrev pub head : Fields → ℕ → Bytes
head f n =
    0x44
    ∷ 0x4B
    ∷ n % 256
    ∷ n / 256
    ∷ f.destination
    ∷ f.source
    ∷ f.message
    ∷ f.reference
    ∷ f.id_low
    ∷ f.id_high
    ∷ []

-- All of a packet but its last byte.
abbrev pub body : Fields → Bytes → Bytes
body f pay = head f (length pay + 11) ++ pay

abbrev pub frame : Fields → Bytes → ℕ → Bytes
frame f pay crc = body f pay ++ crc ∷ []

-- The machine between packets; `_bytesToReceive` keeps its last value.
abbrev pub idle : ℕ → ℕ → Receiver
idle n c = record { state = first_byte; bytes_to_receive = n; crc = c; storage = [] }

-- The machine before the last byte of a packet.
abbrev full : ℕ → ℕ → Bytes → Receiver
full n c s = record { state = crc_byte; bytes_to_receive = n; crc = c; storage = s }

abbrev pub left : ℕ → Bytes → ℕ
left n [] = n
left n (p ∷ ps) = suc (length ps)

feed_all-head_only :
    (f : Fields) (n c : ℕ)
    → feed_all (idle n c) (head f 11) ≡ (full n (sum_u8 c (head f 11)) (head f 11), [])
unfolding feed_all feed_in end_of_header sum_u8
feed_all-head_only f n c = refl

feed_all-head :
    (f : Fields) (m n c : ℕ)
    → 1 ≤ m
    → m ≤ 1013
    → feed_all (idle n c) (head f (m + 11))
      ≡ (record (full m (sum_u8 c (head f (m + 11))) (head f (m + 11))) { state = payload }, [])
unfolding feed_all feed_in end_of_header sum_u8
feed_all-head f m n c lo hi = ground arith

feed_all_rest :
    (p : ℕ) (ps s : Bytes) (c : ℕ)
    → length s ≡ 10
    → feed_all (record (full (suc (length ps)) c s) { state = payload }) (p ∷ ps)
      ≡ (full (suc (length ps)) (sum_u8 c (p ∷ ps)) (s ++ (p ∷ ps)), [])
feed_all_rest p ps s c h =
    let r : Receiver = record (full (suc (length ps)) c s) { state = payload } in
    ground (
      arith,
      feed_all-payload (length ps) (p ∷ ps) r refl,
      take_all (length ps) ps,
      store_all_lem (p ∷ ps) r,
    )

-- All of a packet but its last byte, taken between packets.
feed_all-body :
    (f : Fields) (pay : Bytes) (n c : ℕ)
    → length pay ≤ 1013
    → feed_all (idle n c) (body f pay)
      ≡ (full (left n pay) (sum_u8 c (body f pay)) (body f pay), [])
feed_all-body f [] n c h = feed_all-head_only f n c
feed_all-body f (p ∷ ps) n c h =
    let first = head f (suc (length ps) + 11) in
    ground (
      arith,
      feed_all-append first (p ∷ ps) (idle n c),
      feed_all-head f (suc (length ps)) n c,
      feed_all_rest p ps first (sum_u8 c first),
      sum_u8-append first (p ∷ ps) c,
    )

feed_all-frame :
    (f : Fields) (pay : Bytes) (crc n c : ℕ)
    → length pay ≤ 1013
    → feed_all (idle n c) (frame f pay crc)
      ≡ (idle (left n pay) 0, record { bytes = frame f pay crc; sum = sum_u8 c (body f pay) } ∷ [])
unfolding feed_in
feed_all-frame f pay crc n c h =
    let last : Receiver = full (left n pay) (sum_u8 c (body f pay)) (body f pay) in
    let one : feed_all last (crc ∷ []) ≡ feed last crc = unfold feed_all in refl in
    ground (arith, feed_all-append (body f pay) (crc ∷ []) (idle n c), feed_all-body f pay n c, one)

-- A packet as it stands on the line.
pub record Framed : Type 0 where
  pub fields : Fields
  pub pay : Bytes
  pub crc : ℕ

abbrev pub bytes_of : Framed → Bytes
bytes_of p = frame p.fields p.pay p.crc

abbrev pub wire : List Framed → Bytes
wire [] = []
wire (p ∷ ps) = bytes_of p ++ wire ps

-- What `_onPacket` is to be given for a packet: its bytes, and the sum of all but the last.
abbrev pub delivery_of : Framed → Delivery
delivery_of p = record { bytes = bytes_of p; sum = sum_u8 0 (body p.fields p.pay) }

abbrev pub Fits : Framed → Type 0
Fits p = length p.pay ≤ 1013

abbrev left_all : ℕ → List Framed → ℕ
left_all n [] = n
left_all n (p ∷ ps) = left_all (left n p.pay) ps

feed_all-wire :
    (ps : List Framed) (n : ℕ)
    → All Fits ps
    → feed_all (idle n 0) (wire ps) ≡ (idle (left_all n ps) 0, map delivery_of ps)
feed_all-wire [] n h = unfold feed_all in refl
feed_all-wire (p ∷ ps) n h = ground (
  arith,
  feed_all-append (bytes_of p) (wire ps) (idle n 0),
  feed_all-frame p.fields p.pay p.crc n 0,
  feed_all-wire ps (left n p.pay),
)

-- Between packets and with a checksum of 0, packets that follow one another on the line, with
-- payloads of at most 1013 bytes, are all delivered, whole and in order, each with the sum of its
-- own bytes, and the machine is then between packets with a checksum of 0 again.
pub handle_bytes-wire :
    (ps : List Framed) (n : ℕ)
    → All Fits ps
    → (m : ℕ) × (handle_bytes (idle n 0) (wire ps) ≡ some (idle m 0, map delivery_of ps))
handle_bytes-wire ps n h = (
  left_all n ps,
  handle_bytes-feed_all (wire ps) (idle n 0) refl ∙ ap some (feed_all-wire ps n h),
)

-- A byte 0x44 that no 0x4B follows.
feed_all_false_start :
    (x n c : ℕ) → x ≢ 0x4B → feed_all (idle n c) (0x44 ∷ x ∷ []) ≡ (idle n (add_u8 c 0x44), [])
unfolding feed_all feed_in
feed_all_false_start x n c h = ground arith

-- After a 0x44 that no 0x4B follows, the next packet is delivered with a sum that is 0x44 too
-- large, and so, if its last byte is the right checksum, with a sum that differs from it.
pub handle_bytes_false_start :
    (x n : ℕ) (p : Framed)
    → x ≢ 0x4B
    → Fits p
    → p.crc ≡ (delivery_of p).sum
    → (d : Delivery) × (m : ℕ) × (handle_bytes (idle n 0) (0x44 ∷ x ∷ bytes_of p)
        ≡ some (idle m 0, d ∷ []))
      × (d.bytes ≡ bytes_of p)
      × (d.sum ≡ add_u8 p.crc 0x44)
      × (d.sum ≢ p.crc)
handle_bytes_false_start x n p ne h e = (
  record { bytes = bytes_of p; sum = sum_u8 0x44 (body p.fields p.pay) },
  left n p.pay,
  handle_bytes-feed_all (0x44 ∷ x ∷ bytes_of p) (idle n 0) refl ∙ ap some read,
  refl,
  shifted,
  omega (arith, shifted, sum_u8-lt (body p.fields p.pay) 0 (omega arith)),
)
  where
    shifted : sum_u8 0x44 (body p.fields p.pay) ≡ add_u8 p.crc 0x44
    shifted = rw e (sum_u8_shift (body p.fields p.pay) 0 0x44)

    read : feed_all (idle n 0) (0x44 ∷ x ∷ bytes_of p) ≡ (
      idle (left n p.pay) 0,
      record { bytes = bytes_of p; sum = sum_u8 0x44 (body p.fields p.pay) } ∷ [],
    )
    read = ground (
      arith,
      feed_all-append (0x44 ∷ x ∷ []) (bytes_of p) (idle n 0),
      feed_all_false_start x n 0,
      feed_all-frame p.fields p.pay p.crc n 0x44,
    )
