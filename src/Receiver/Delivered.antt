-- ===== src/Receiver/Delivered.antt =====
-- expansionhub/ReceiveStateMachine.h: what `_onPacket` may rely on.
use mathlib.Core.Path.{subst}
use scservices.Prelude.{
  ℕ, ◌≡◌, refl, some, List, [], ◌∷◌, arith, Bytes, length-append, All, All-append,
}
use scservices.Receiver.{CurrentState, crc_byte, Receiver, Delivery, handle_bytes}
use scservices.Receiver.Inv.{Shape, IsValid, IsPacket, Starts-append, packet_length-append}
use scservices.Receiver.Bytewise.{
  feed_in, feed, feed_all, feed_in-IsValid, feed_all-IsValid, handle_bytes-feed_all,
}

abbrev pub IsDelivered : Delivery → Type 0
IsDelivered d = IsPacket d.bytes

feed_in-IsDelivered :
    (c : CurrentState) (r : Receiver) (b : ℕ)
    → r.state ≡ c
    → Shape c r.storage r.bytes_to_receive
    → All IsDelivered (feed_in c r b).1
unfolding feed_in
feed_in-IsDelivered crc_byte r b e v = ground (
  arith,
  length-append r.storage (b ∷ []),
  Starts-append r.storage (b ∷ []),
  packet_length-append r.storage (b ∷ []),
)
feed_in-IsDelivered _ r b e v = tt

feed_all-IsDelivered : (bs : Bytes) (r : Receiver) → IsValid r → All IsDelivered (feed_all r bs).1
unfolding feed_all
feed_all-IsDelivered [] r v = tt
feed_all-IsDelivered (b ∷ bs) r v =
    All-append IsDelivered (feed r b).1 _ (feed_in-IsDelivered r.state r b refl v)
      (feed_all-IsDelivered bs (feed r b).0 (feed_in-IsValid r.state r b refl v))

-- From a valid state every read ends in a valid state, and every packet that it delivers opens with
-- 0x44 0x4B, is between 11 and 1024 bytes long, and has its own length in its length field.
pub handle_bytes-IsPacket :
    (buffer : Bytes) (r : Receiver) {q : Receiver} {out : List Delivery}
    → IsValid r
    → handle_bytes r buffer ≡ some (q, out)
    → IsValid q × All (λ d. IsPacket d.bytes) out
handle_bytes-IsPacket buffer r {q} {out} v e =
    subst (λ s. IsValid s.0 × All (λ d. IsPacket d.bytes) s.1) same
      (feed_all-IsValid buffer r v, feed_all-IsDelivered buffer r v)
  where
    same : feed_all r buffer ≡ (q, out)
    same = cc (handle_bytes-feed_all buffer r v)
