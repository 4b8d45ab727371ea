-- ===== src/Receiver/Inv.antt =====
-- expansionhub/ReceiveStateMachine.h: what `_storage` holds in each state, kept by every round.
use scservices.Prelude.{
  ℕ, ◌+◌, ◌≤◌, ◌<◌, ◌≡◌, ◌∙◌, [], ◌∷◌, ◌++◌, arith, Bytes, length, get_or, get_or-append,
  append_assoc, append-nil, sum_u8,
}
use scservices.Receiver.{
  CurrentState, first_byte, second_byte, header, payload, crc_byte, Receiver, store, store_all,
  packet_length, end_of_header,
}

-- The two bytes that open a packet.
abbrev pub Starts : Bytes → Type 0
Starts s = (get_or s 0 0 ≡ 0x44) × (get_or s 1 0 ≡ 0x4B)

-- The states, with the storage and `_bytesToReceive`.
abbrev pub Shape : CurrentState → Bytes → ℕ → Type 0
Shape first_byte s n = s ≡ []
Shape second_byte s n = s ≡ 0x44 ∷ []
Shape header s n = Starts s × (2 ≤ length s) × (length s < 10)
Shape payload s n =
    Starts s × (10 ≤ length s) × (length s < 10 + n) × (n ≤ 1013) × (packet_length s ≡ n + 11)
Shape crc_byte s n =
    Starts s × (10 ≤ length s) × (length s ≤ 1023) × (packet_length s ≡ length s + 1)

abbrev pub IsValid : Receiver → Type 0
IsValid r = Shape r.state r.storage r.bytes_to_receive

-- A whole packet: the two opening bytes, a length field that is its length, and the limits.
pub record IsPacket (bytes : Bytes) : Type 0 where
  pub starts : Starts bytes
  pub min_length : 11 ≤ length bytes
  pub max_length : length bytes ≤ 1024
  pub length_field : packet_length bytes ≡ length bytes

pub store_all_lem :
    (vs : Bytes) (r : Receiver)
    → store_all r vs ≡ record r { storage = r.storage ++ vs; crc = sum_u8 r.crc vs }
unfolding sum_u8
store_all_lem [] r = ground (arith, append-nil r.storage)
store_all_lem (v ∷ vs) r =
    ground (arith, store_all_lem vs (store r v), append_assoc r.storage (v ∷ []) vs)

pub Starts-append : (s t : Bytes) → 2 ≤ length s → Starts s → Starts (s ++ t)
Starts-append s t n h =
    (get_or-append s t 0 0 (omega arith) ∙ h.0, get_or-append s t 1 0 (omega arith) ∙ h.1)

pub packet_length-append : (s t : Bytes) → 4 ≤ length s → packet_length (s ++ t) ≡ packet_length s
packet_length-append s t n =
    omega (arith, get_or-append s t 3 0 (omega arith), get_or-append s t 2 0 (omega arith))

-- After the header the machine is valid, whatever the length field says.
pub end_of_header-IsValid :
    (r : Receiver) → Starts r.storage → length r.storage ≡ 10 → IsValid (end_of_header r)
unfolding end_of_header
end_of_header-IsValid r h n = ground arith
