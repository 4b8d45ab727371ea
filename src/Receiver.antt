-- ===== src/Receiver.antt =====
-- expansionhub/ReceiveStateMachine.h: the machine that cuts the bytes of the serial line into packets.
pub mod Inv
pub mod Bytewise
pub mod Delivered
pub mod Frames
use scservices.Prelude.{
  ℕ, zero, suc, ◌+◌, ◌-◌, ◌*◌, min, ◌||◌, Option, none, some, List, [], ◌∷◌, ◌++◌, Bytes, length,
  get_or, take, drop, ltb, ◌==◌, if◌then◌else◌, add_u8, sub_u64,
}

-- `enum class CurrentState`
pub data CurrentState : Type 0 where
  first_byte second_byte header payload crc_byte : CurrentState

-- The fields `_state`, `_bytesToReceive`, `_crc` and `_storage`.
pub record Receiver : Type 0 where
  pub state : CurrentState
  pub bytes_to_receive : ℕ
  pub crc : ℕ
  pub storage : Bytes

-- One call of `_onPacket`: the stored bytes, and the checksum over all but the last.
pub record Delivery : Type 0 where
  pub bytes : Bytes
  pub sum : ℕ

abbrev pub initial : Receiver
initial = record { state = first_byte; bytes_to_receive = 0; crc = 0; storage = [] }

-- `Reset` leaves `_bytesToReceive` as it is.
unfoldable pub reset : Receiver → Receiver
reset r = record r { storage = []; state = first_byte; crc = 0 }

-- One round of the loop: the machine after it, `bytesToAdvance`, and what it delivered.
pub record Round : Type 0 where
  pub next : Receiver
  pub advance : ℕ
  pub delivered : List Delivery

-- `_storage.push_back(value); _crc += value;`
abbrev pub store : Receiver → ℕ → Receiver
store r value = record r { storage = r.storage ++ value ∷ []; crc = add_u8 r.crc value }

-- `for (uint8_t value : buffer.subspan(0, canCopy))`
abbrev pub store_all : Receiver → Bytes → Receiver
store_all r [] = r
store_all r (v ∷ vs) = store_all (store r v) vs

unfoldable pub on_first_byte : Receiver → ℕ → Round
on_first_byte r b = record {
  next = if b == 0x44 then record (store r b) { state = second_byte } else r;
  advance = 1;
  delivered = [];
}

-- A mismatch clears the storage and leaves `_crc`.
unfoldable pub on_second_byte : Receiver → ℕ → Round
on_second_byte r b = record {
  next =
      if b == 0x4B
      then record (store r b) { state = header }
      else record r { storage = []; state = first_byte };
  advance = 1;
  delivered = [];
}

-- `(uint16_t)(_storage[3]) << 8 | (uint16_t)(_storage[2])`, for bytes.
abbrev pub packet_length : Bytes → ℕ
packet_length bytes = get_or bytes 3 0 * 256 + get_or bytes 2 0

-- What follows once ten bytes are stored.
unfoldable pub end_of_header : Receiver → Receiver
end_of_header r =
    let n = packet_length r.storage in
    if ltb n 11 || ltb 1024 n
    then record r { storage = []; crc = 0; state = first_byte }
    else if ltb 0 (n - 11)
    then record r { bytes_to_receive = n - 11; state = payload }
    else record r { state = crc_byte }

unfoldable pub on_header : Receiver → Bytes → Round
on_header r buffer =
    let num_needed = sub_u64 10 (length r.storage) in
    let can_copy = min num_needed (length buffer) in
    let filled = store_all r (take can_copy buffer) in
    record {
      next = if can_copy == num_needed then end_of_header filled else filled;
      advance = can_copy;
      delivered = [];
    }

unfoldable pub on_payload : Receiver → Bytes → Round
on_payload r buffer =
    let num_needed = sub_u64 r.bytes_to_receive (sub_u64 (length r.storage) 10) in
    let can_copy = min num_needed (length buffer) in
    let filled = store_all r (take can_copy buffer) in
    record {
      next = if can_copy == num_needed then record filled { state = crc_byte } else filled;
      advance = can_copy;
      delivered = [];
    }

unfoldable pub on_crc_byte : Receiver → ℕ → Round
on_crc_byte r b = record {
  next = record r { state = first_byte; storage = []; crc = 0 };
  advance = 1;
  delivered = record { bytes = r.storage ++ b ∷ []; sum = r.crc } ∷ [];
}

-- The switch, on a buffer whose first byte is `b`.
unfoldable pub round_in : CurrentState → Receiver → ℕ → Bytes → Round
unfolding on_first_byte on_second_byte on_header end_of_header on_payload on_crc_byte
round_in first_byte r b rest = on_first_byte r b
round_in second_byte r b rest = on_second_byte r b
round_in header r b rest = on_header r (b ∷ rest)
round_in payload r b rest = on_payload r (b ∷ rest)
round_in crc_byte r b rest = on_crc_byte r b

-- The `while` loop, on fuel. `none` is a failed `assert(bytesToAdvance != 0)`, or no fuel left.
unfoldable pub handle_from : ℕ → Receiver → Bytes → Option (Receiver × List Delivery)
unfolding round_in
handle_from fuel r [] = some (r, [])
handle_from zero r (b ∷ rest) = none
handle_from (suc fuel) r (b ∷ rest) =
    let round = round_in r.state r b rest in
    let later = handle_from fuel round.next (drop round.advance (b ∷ rest)) in
    if round.advance == 0
    then none
    else (elim later [ none ↦ none | some (q, out) ↦ some (q, round.delivered ++ out) ])

-- `HandleBytes`: each round takes at least one byte, so the length of the buffer is fuel enough.
unfoldable pub handle_bytes : Receiver → Bytes → Option (Receiver × List Delivery)
unfolding handle_from
handle_bytes r buffer = handle_from (length buffer) r buffer
