-- ===== src/Rdt/Packet.antt =====
-- email-network-service/src/rdt/rdt_packet.py: the wire format of a packet and its checksum.
pub mod Crc
pub mod Corruption
pub mod Roundtrip
use Prim.Native.Nat.{bit_xor}
use rdt_mail_service.Prelude.{
  ℕ, zero, suc, ◌+◌, ◌*◌, ◌/◌, ◌%◌, ◌^◌, Bool, true, false, [], ◌∷◌, ◌++◌, Option, none, some, ltb,
  ◌==◌, nat_eq, if◌then◌else◌,
}
use rdt_mail_service.Prelude.Text.{Text}

abbrev pub type_data : ℕ
type_data = 0

abbrev pub type_ack : ℕ
type_ack = 1

-- `zlib.crc32`: the reflected polynomial, eight shifts for each byte.
abbrev pub polynomial : ℕ
polynomial = 0xEDB88320

unfoldable pub shift_bit : ℕ → ℕ
shift_bit c = if c % 2 == 1 then bit_xor (c / 2) polynomial else c / 2

unfoldable pub shift_bits : ℕ → ℕ → ℕ
unfolding shift_bit
shift_bits zero c = c
shift_bits (suc n) c = shift_bits n (shift_bit c)

unfoldable pub crc_byte : ℕ → ℕ → ℕ
unfolding shift_bits
crc_byte c b = shift_bits 8 (bit_xor c b)

unfoldable pub crc_bytes : ℕ → Text → ℕ
unfolding crc_byte
crc_bytes c [] = c
crc_bytes c (b ∷ bs) = crc_bytes (crc_byte c b) bs

abbrev pub ones : ℕ
ones = 0xFFFFFFFF

unfoldable pub crc32 : Text → ℕ
unfolding crc_bytes
crc32 bs = bit_xor (crc_bytes ones bs) ones

-- `zlib.crc32(data) & 0xFFFFFFFF`
unfoldable pub calculate_checksum : Text → ℕ
unfolding crc32
calculate_checksum bs = crc32 bs % 2 ^ 32

-- `struct.pack("!BBI", seq, type, checksum)`; `none` is `struct.error`.
unfoldable pub pack_header : ℕ → ℕ → ℕ → Option Text
pack_header seq pkt_type checksum =
    if ltb seq 256
    then if ltb pkt_type 256
      then if ltb checksum (2 ^ 32)
        then some (
            seq
            ∷ pkt_type
            ∷ checksum / 2 ^ 24
            ∷ checksum / 2 ^ 16 % 256
            ∷ checksum / 2 ^ 8 % 256
            ∷ checksum % 256
            ∷ [])
        else none
      else none
    else none

-- A call that may raise `struct.error`, and what follows it.
infixl 5 ◌>>=◌
abbrev pub ◌>>=◌ {ℓ κ} : {A : Type ℓ} {B : Type κ} → Option A → (A → Option B) → Option B
none >>= f = none
some a >>= f = f a

unfoldable pub make_packet : ℕ → Bool → Text → Option Text
unfolding pack_header calculate_checksum
make_packet seq is_ack payload = do
  let pkt_type = if is_ack then type_ack else type_data
  temp_header ← pack_header seq pkt_type 0
  let checksum = calculate_checksum (temp_header ++ payload)
  final_header ← pack_header seq pkt_type checksum
  some (final_header ++ payload)

unfoldable pub make_data_packet : ℕ → Text → Option Text
unfolding make_packet
make_data_packet seq bytes = make_packet seq false bytes

unfoldable pub make_ack_packet : ℕ → Option Text
unfolding make_packet
make_ack_packet seq = make_packet seq true []

-- The dictionary that `unpack_and_validate` returns.
pub record Packet : Type 0 where
  pub is_ack : Bool
  pub seq : ℕ
  pub payload : Text
  pub checksum : ℕ

-- `none` is the `None` of a packet that is too short or corrupt. The first pattern is
-- `len(packet_bytes) >= HEADER_SIZE`.
unfoldable pub unpack_and_validate : Text → Option Packet
unfolding pack_header calculate_checksum
unpack_and_validate (seq ∷ pkt_type ∷ c3 ∷ c2 ∷ c1 ∷ c0 ∷ payload) = do
  let received = ((c3 * 256 + c2) * 256 + c1) * 256 + c0
  clean_header ← pack_header seq pkt_type 0
  let calculated = calculate_checksum (clean_header ++ payload)
  if received == calculated
      then some (record {
        is_ack = pkt_type == type_ack;
        seq = seq;
        payload = payload;
        checksum = received;
      })
      else none
unpack_and_validate _ = none
