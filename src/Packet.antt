-- ===== src/Packet.antt =====
-- expansionhub/ExpansionHubSerial.cpp: the fields of a packet, its checksum, and the packet that
-- `SendPacket` builds. `none` is a read outside of a span, which C++ leaves undefined.
pub mod RoundTrip
pub mod Spans
pub mod Signed
use scservices.Prelude.{
  ℕ, ◌+◌, ◌-◌, ◌*◌, ◌/◌, ◌%◌, ◌^◌, Bool, Option, none, some, List, [], ◌∷◌, ◌++◌, Bytes, length,
  get_elem?, take, drop, ltb, leb, ◌==◌, if◌then◌else◌, ◌>>=◌, sum_u8, ℤ, signed16, signed32,
}

-- `WriteUint16`, of a 16-bit value: the two bytes that it writes.
abbrev pub write_uint16 : ℕ → Bytes
write_uint16 value = value % 256 ∷ value / 256 % 256 ∷ []

-- `ReadUint16`, `ReadInt16` and `ReadInt32`: of bytes, so that `|` of the shifted parts is their sum.
unfoldable pub read_uint16 : Bytes → Option ℕ
read_uint16 buffer = do b0 ← get_elem? buffer 0; b1 ← get_elem? buffer 1; some (b0 + b1 * 2 ^ 8)

unfoldable pub read_int16 : Bytes → Option ℤ
read_int16 buffer = do
  b0 ← get_elem? buffer 0
  b1 ← get_elem? buffer 1
  some (signed16 (b0 + b1 * 2 ^ 8))

unfoldable pub read_int32 : Bytes → Option ℤ
read_int32 buffer = do
  b0 ← get_elem? buffer 0
  b1 ← get_elem? buffer 1
  b2 ← get_elem? buffer 2
  b3 ← get_elem? buffer 3
  some (signed32 (b0 + b1 * 2 ^ 8 + b2 * 2 ^ 16 + b3 * 2 ^ 24))

-- `span::subspan(offset)`.
unfoldable pub subspan : Bytes → ℕ → Option Bytes
subspan buffer offset = if leb offset (length buffer) then some (drop offset buffer) else none

unfoldable pub packet_reference_number : Bytes → Option ℕ
packet_reference_number buffer = get_elem? buffer 7

unfoldable pub packet_destination_address : Bytes → Option ℕ
packet_destination_address buffer = get_elem? buffer 4

unfoldable pub packet_source_address : Bytes → Option ℕ
packet_source_address buffer = get_elem? buffer 5

unfoldable pub packet_id : Bytes → Option ℕ
packet_id buffer = do high ← get_elem? buffer 9; low ← get_elem? buffer 8; some (high * 2 ^ 8 + low)

-- `buffer.subspan(10, buffer.size() - 11)`.
unfoldable pub packet_payload_buffer : Bytes → Option Bytes
packet_payload_buffer buffer =
    if leb 11 (length buffer) then some (take (length buffer - 11) (drop 10 buffer)) else none

unfoldable pub packet_crc : Bytes → Option ℕ
packet_crc buffer = if ltb 0 (length buffer) then get_elem? buffer (length buffer - 1) else none

-- `QUERY_INTERFACE_ID` and the like; a reply's id has the highest of 16 bits set.
abbrev pub module_status_id : ℕ
module_status_id = 0x7F03

abbrev pub keep_alive_id : ℕ
keep_alive_id = 0x7F04

abbrev pub query_interface_id : ℕ
query_interface_id = 0x7F07

abbrev pub discover_id : ℕ
discover_id = 0x7F0F

abbrev pub packet_is_ack : ℕ → Bool
packet_is_ack id = id == 0x7F01

abbrev pub packet_is_nack : ℕ → Bool
packet_is_nack id = id == 0x7F02

abbrev pub packet_is_discover : ℕ → Bool
packet_is_discover id = id == discover_id + 0x8000

abbrev pub packet_is_query_interface : ℕ → Bool
packet_is_query_interface id = id == query_interface_id + 0x8000

unfoldable pub calc_checksum : Bytes → ℕ
calc_checksum buffer = sum_u8 0 buffer

-- What `SendPacket` writes to `txBuffer` for a payload of fewer than 1013 bytes.
unfoldable pub build_packet : ℕ → ℕ → ℕ → Bytes → Bytes
build_packet dest_addr message_number packet_type_id pay =
    let bytes_to_send = (10 + length pay + 1) % 2 ^ 16 in
    let start =
      (0x44 ∷ 0x4B ∷ write_uint16 bytes_to_send)
      ++ (dest_addr ∷ 0 ∷ message_number ∷ 0 ∷ write_uint16 packet_type_id)
      ++ pay in
    start ++ calc_checksum start ∷ []
