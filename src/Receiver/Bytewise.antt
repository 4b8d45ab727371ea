-- ===== src/Receiver/Bytewise.antt =====
-- expansionhub/ReceiveStateMachine.h against a machine that takes one byte at a time.
use scservices.Prelude.{
  ℕ, zero, suc, ◌+◌, ◌-◌, ◌≤◌, min, ◌≡◌, refl, ap, ◌∙◌, some, List, [], ◌∷◌, ◌++◌, arith, Bytes,
  length, take, drop, ◌==◌, if◌then◌else◌, length-append, length-drop, append_assoc, ◌>>=◌,
  take-min, take-append-drop, sym,
}
use scservices.Receiver.{
  CurrentState, first_byte, second_byte, header, payload, crc_byte, Receiver, Delivery, Round,
  store, store_all, end_of_header, round_in, handle_from, handle_bytes,
}
use scservices.Receiver.Inv.{
  Shape, IsValid, end_of_header-IsValid, Starts-append, packet_length-append,
}

abbrev pub Step : Type 0
Step = Receiver × List Delivery

-- The machine's answer to one byte.
unfoldable pub feed_in : CurrentState → Receiver → ℕ → Step
feed_in first_byte r b = (if b == 0x44 then record (store r b) { state = second_byte } else r, [])
feed_in second_byte r b = (
  if b == 0x4B
      then record (store r b) { state = header }
      else record r { storage = []; state = first_byte },
  [],
)
feed_in header r b = (if length r.storage == 9 then end_of_header (store r b) else store r b, [])
feed_in payload r b = (
  if suc (length r.storage) == r.bytes_to_receive + 10
      then record (store r b) { state = crc_byte }
      else store r b,
  [],
)
feed_in crc_byte r b = (
  record r { state = first_byte; storage = []; crc = 0 },
  record { bytes = r.storage ++ b ∷ []; sum = r.crc } ∷ [],
)

abbrev pub feed : Receiver → ℕ → Step
feed r = feed_in r.state r

abbrev pub and_then : Step → Step → Step
and_then s t = (t.0, s.1 ++ t.1)

-- The answer to a run of bytes.
unfoldable pub feed_all : Receiver → Bytes → Step
feed_all r [] = (r, [])
feed_all r (b ∷ bs) = and_then (feed r b) (feed_all (feed r b).0 bs)

pub feed_all-append :
    (xs ys : Bytes) (r : Receiver)
    → feed_all r (xs ++ ys) ≡ and_then (feed_all r xs) (feed_all (feed_all r xs).0 ys)
unfolding feed_all
feed_all-append [] ys r = refl
feed_all-append (x ∷ xs) ys r =
    let ih = feed_all-append xs ys (feed r x).0 in ap (and_then (feed r x)) ih ∙ simp append_assoc

pub feed_in-IsValid :
    (c : CurrentState) (r : Receiver) (b : ℕ)
    → r.state ≡ c
    → Shape c r.storage r.bytes_to_receive
    → IsValid (feed_in c r b).0
unfolding feed_in
feed_in-IsValid first_byte r b e v = ground arith
feed_in-IsValid second_byte r b e v = ground arith
feed_in-IsValid header r b e v = ground (
  arith,
  end_of_header-IsValid (store r b),
  length-append r.storage (b ∷ []),
  Starts-append r.storage (b ∷ []),
)
feed_in-IsValid payload r b e v = ground (
  arith,
  length-append r.storage (b ∷ []),
  Starts-append r.storage (b ∷ []),
  packet_length-append r.storage (b ∷ []),
)
feed_in-IsValid crc_byte r b e v = ground arith

-- The loop over `buffer.subspan(0, canCopy)` in the header, `k` bytes before the header is full.
feed_all-header :
    (k : ℕ) (buf : Bytes) (r : Receiver)
    → r.state ≡ header
    → length r.storage + suc k ≡ 10
    → feed_all r (take (suc k) buf) ≡ (
        let filled = store_all r (take (suc k) buf) in
        (if min (suc k) (length buf) == suc k then end_of_header filled else filled, []))
unfolding feed_all feed_in
feed_all-header k [] r e n = ground arith
feed_all-header zero (b ∷ bs) r e n = ground arith
feed_all-header (suc k) (b ∷ bs) r e n =
    ground (arith, feed_all-header k bs (store r b) e, length-append r.storage (b ∷ []))

pub feed_all-payload :
    (k : ℕ) (buf : Bytes) (r : Receiver)
    → r.state ≡ payload
    → length r.storage + suc k ≡ 10 + r.bytes_to_receive
    → feed_all r (take (suc k) buf) ≡ (
        let filled = store_all r (take (suc k) buf) in
        (
          if min (suc k) (length buf) == suc k then record filled { state = crc_byte } else filled,
          [],
        ))
unfolding feed_all feed_in
feed_all-payload k [] r e n = ground arith
feed_all-payload zero (b ∷ bs) r e n = ground arith
feed_all-payload (suc k) (b ∷ bs) r e n =
    ground (arith, feed_all-payload k bs (store r b) e, length-append r.storage (b ∷ []))

-- A round makes progress, and does to the machine what its bytes do one at a time.
record Progress (r : Receiver) (buffer : Bytes) (round : Round) : Type 0 where
  progress : 1 ≤ round.advance
  within : round.advance ≤ length buffer
  same : feed_all r (take round.advance buffer) ≡ (round.next, round.delivered)

bulk :
    (k : ℕ) (buffer : Bytes) (r : Receiver) (done : Receiver → Receiver) (needed : ℕ)
    → needed ≡ suc k
    → 1 ≤ length buffer
    → feed_all r (take (suc k) buffer) ≡ (
        let filled = store_all r (take (suc k) buffer) in
        (if min (suc k) (length buffer) == suc k then done filled else filled, []))
    → Progress r buffer (record {
      next =
          let filled = store_all r (take (min needed (length buffer)) buffer) in
          if min needed (length buffer) == needed then done filled else filled;
      advance = min needed (length buffer);
      delivered = [];
    })
bulk k buffer r done needed e n h =
    rw e (record { progress = omega arith; within = omega arith; same = rw take-min h })

round_in-Progress :
    (c : CurrentState) (r : Receiver) (b : ℕ) (rest : Bytes)
    → r.state ≡ c
    → Shape c r.storage r.bytes_to_receive
    → Progress r (b ∷ rest) (round_in c r b rest)
unfolding round_in feed_all feed_in
round_in-Progress first_byte r b rest e v = ground arith
round_in-Progress second_byte r b rest e v = ground arith
round_in-Progress header r b rest e v =
    bulk (9 - length r.storage) (b ∷ rest) r end_of_header _ (omega arith) (omega arith)
      (feed_all-header (9 - length r.storage) (b ∷ rest) r e (omega arith))
round_in-Progress payload r b rest e v =
    bulk (9 + r.bytes_to_receive - length r.storage) (b ∷ rest) r
      (λ q. record q { state = crc_byte }) _ (omega arith) (omega arith)
      (feed_all-payload (9 + r.bytes_to_receive - length r.storage) (b ∷ rest) r e (omega arith))
round_in-Progress crc_byte r b rest e v = ground arith

pub feed_all-IsValid : (bs : Bytes) (r : Receiver) → IsValid r → IsValid (feed_all r bs).0
unfolding feed_all
feed_all-IsValid [] r v = v
feed_all-IsValid (b ∷ bs) r v =
    feed_all-IsValid bs (feed r b).0 (feed_in-IsValid r.state r b refl v)

feed_all_split :
    (n : ℕ) (buffer : Bytes) (r : Receiver)
    → feed_all r buffer
      ≡ and_then
          (feed_all r (take n buffer))
          (feed_all (feed_all r (take n buffer)).0 (drop n buffer))
feed_all_split n buffer r =
    ap (feed_all r) (sym (take-append-drop n buffer))
    ∙ feed_all-append (take n buffer) (drop n buffer) r

handle_from-feed_all :
    (fuel : ℕ) (buffer : Bytes) (r : Receiver)
    → length buffer ≤ fuel
    → IsValid r
    → handle_from fuel r buffer ≡ some (feed_all r buffer)
unfolding handle_from
handle_from-feed_all fuel [] r n v = unfold feed_all in refl
handle_from-feed_all zero (b ∷ rest) r n v = absurd (omega arith)
handle_from-feed_all (suc fuel) (b ∷ rest) r n v =
    let round = round_in r.state r b rest in
    let p = round_in-Progress r.state r b rest refl v in
    let v' = feed_all-IsValid (take round.advance (b ∷ rest)) r v in
    ground (
      arith,
      p.progress,
      p.within,
      p.same,
      length-drop round.advance (b ∷ rest),
      feed_all_split round.advance (b ∷ rest) r,
      handle_from-feed_all fuel (drop round.advance (b ∷ rest)) round.next,
      v',
    )

-- From a valid state `HandleBytes` ends, no assertion fails, and it does what its bytes do one at a
-- time: `length buffer` rounds of the loop are enough.
pub handle_bytes-feed_all :
    (buffer : Bytes) (r : Receiver) → IsValid r → handle_bytes r buffer ≡ some (feed_all r buffer)
unfolding handle_bytes
handle_bytes-feed_all buffer r v = handle_from-feed_all (length buffer) buffer r (omega arith) v

-- However the bytes of the line are cut into two reads, the machine ends in the same state and
-- delivers the same packets in the same order as with one read.
pub handle_bytes-append :
    (xs ys : Bytes) (r : Receiver)
    → IsValid r
    → handle_bytes r (xs ++ ys) ≡ (do
      (q, first) ← handle_bytes r xs
      (q', second) ← handle_bytes q ys
      some (q', first ++ second))
handle_bytes-append xs ys r v = rw (
  handle_bytes-feed_all (xs ++ ys) r v,
  handle_bytes-feed_all xs r v,
  handle_bytes-feed_all ys (feed_all r xs).0 (feed_all-IsValid xs r v),
  feed_all-append xs ys r,
)
