-- ===== src/Rdt/Packet/Crc.antt =====
-- The checksum of rdt_packet.py: its range, and that it changes with every single byte.
use Prim.Native.Nat.{bit_xor}
use rdt_mail_service.Prelude.{
  ℕ, zero, suc, ◌/◌, ◌^◌, ◌<◌, ◌≡◌, refl, ◌∙◌, [], ◌∷◌, ◌++◌, arith, nat_eq,
}
use rdt_mail_service.Prelude.Bits.{bit_xor-lt, le-bit_xor, bit_xor_cancel, bit_xor_comm}
use rdt_mail_service.Prelude.Text.{Text, codes}
use rdt_mail_service.Rdt.Packet.{
  shift_bit, shift_bits, crc_byte, crc_bytes, crc32, calculate_checksum, polynomial, ones,
}

-- The check value that every description of CRC-32 gives.
crc32_check_value : crc32 (codes "123456789") ≡ 0xCBF43926
unfolding crc32
crc32_check_value = refl

shift_bit-lt : (c : ℕ) → c < 2 ^ 32 → shift_bit c < 2 ^ 32
unfolding shift_bit
shift_bit-lt c h = ground (arith, bit_xor-lt 32 (c / 2) polynomial (omega arith) (omega arith))

-- A shift loses nothing: the highest bit tells which branch was taken.
shift_bit_cancel : (c d : ℕ) → c < 2 ^ 32 → d < 2 ^ 32 → shift_bit c ≡ shift_bit d → c ≡ d
unfolding shift_bit
shift_bit_cancel c d h k e = ground (
  arith,
  bit_xor_cancel (c / 2) (d / 2) polynomial,
  le-bit_xor 31 (c / 2) polynomial (omega arith) (omega arith) (omega arith),
  le-bit_xor 31 (d / 2) polynomial (omega arith) (omega arith) (omega arith),
)

shift_bits-lt : (n c : ℕ) → c < 2 ^ 32 → shift_bits n c < 2 ^ 32
unfolding shift_bits
shift_bits-lt zero c h = h
shift_bits-lt (suc n) c h = shift_bits-lt n (shift_bit c) (shift_bit-lt c h)

shift_bits_cancel : (n c d : ℕ) → c < 2 ^ 32 → d < 2 ^ 32 → shift_bits n c ≡ shift_bits n d → c ≡ d
unfolding shift_bits
shift_bits_cancel zero c d h k e = e
shift_bits_cancel (suc n) c d h k e =
    shift_bit_cancel c d h k
      (shift_bits_cancel n (shift_bit c) (shift_bit d) (shift_bit-lt c h) (shift_bit-lt d k) e)

crc_byte-lt : (c b : ℕ) → c < 2 ^ 32 → b < 256 → crc_byte c b < 2 ^ 32
unfolding crc_byte
crc_byte-lt c b h k = shift_bits-lt 8 (bit_xor c b) (bit_xor-lt 32 c b h (omega arith))

crc_byte_cancel_state :
    (c d b : ℕ) → c < 2 ^ 32 → d < 2 ^ 32 → b < 256 → crc_byte c b ≡ crc_byte d b → c ≡ d
unfolding crc_byte
crc_byte_cancel_state c d b h k l e = bit_xor_cancel c d b (
    shift_bits_cancel 8 (bit_xor c b) (bit_xor d b) (bit_xor-lt 32 c b h (omega arith))
      (bit_xor-lt 32 d b k (omega arith)) e)

crc_byte_cancel : (c a b : ℕ) → c < 2 ^ 32 → a < 256 → b < 256 → crc_byte c a ≡ crc_byte c b → a ≡ b
unfolding crc_byte
crc_byte_cancel c a b h k l e = bit_xor_cancel a b c (
    bit_xor_comm a c
    ∙ shift_bits_cancel 8 (bit_xor c a) (bit_xor c b) (bit_xor-lt 32 c a h (omega arith))
        (bit_xor-lt 32 c b h (omega arith)) e
    ∙ bit_xor_comm c b)

-- Every element is a byte.
abbrev pub IsBytes : Text → Type 0
IsBytes [] = Unit
IsBytes (b ∷ bs) = (b < 256) × IsBytes bs

crc_bytes-lt : (c : ℕ) (bs : Text) → c < 2 ^ 32 → IsBytes bs → crc_bytes c bs < 2 ^ 32
unfolding crc_bytes
crc_bytes-lt c [] h k = h
crc_bytes-lt c (b ∷ bs) h k = crc_bytes-lt (crc_byte c b) bs (crc_byte-lt c b h k.0) k.1

crc_bytes_cancel_state :
    (c d : ℕ) (bs : Text)
    → c < 2 ^ 32
    → d < 2 ^ 32
    → IsBytes bs
    → crc_bytes c bs ≡ crc_bytes d bs
    → c ≡ d
unfolding crc_bytes
crc_bytes_cancel_state c d [] h k l e = e
crc_bytes_cancel_state c d (b ∷ bs) h k l e = crc_byte_cancel_state c d b h k l.0 (
    crc_bytes_cancel_state (crc_byte c b) (crc_byte d b) bs (crc_byte-lt c b h l.0)
      (crc_byte-lt d b k l.0) l.1 e)

crc_bytes_cancel :
    (c : ℕ) (xs ys : Text) (a b : ℕ)
    → c < 2 ^ 32
    → IsBytes (xs ++ a ∷ ys)
    → b < 256
    → crc_bytes c (xs ++ a ∷ ys) ≡ crc_bytes c (xs ++ b ∷ ys)
    → a ≡ b
unfolding crc_bytes
crc_bytes_cancel c [] ys a b h k l e = crc_byte_cancel c a b h k.0 l (
    crc_bytes_cancel_state (crc_byte c a) (crc_byte c b) ys (crc_byte-lt c a h k.0)
      (crc_byte-lt c b h l) k.1 e)
crc_bytes_cancel c (x ∷ xs) ys a b h k l e =
    crc_bytes_cancel (crc_byte c x) xs ys a b (crc_byte-lt c x h k.0) k.1 l e

crc32-lt : (bs : Text) → IsBytes bs → crc32 bs < 2 ^ 32
unfolding crc32
crc32-lt bs h =
    bit_xor-lt 32 (crc_bytes ones bs) ones (crc_bytes-lt ones bs (omega arith) h) (omega arith)

pub calculate_checksum-lt : (bs : Text) → calculate_checksum bs < 2 ^ 32
unfolding calculate_checksum
calculate_checksum-lt bs = omega arith

-- Two texts that differ in one byte have different checksums.
pub calculate_checksum_cancel :
    (xs ys : Text) (a b : ℕ)
    → IsBytes (xs ++ a ∷ ys)
    → IsBytes (xs ++ b ∷ ys)
    → b < 256
    → calculate_checksum (xs ++ a ∷ ys) ≡ calculate_checksum (xs ++ b ∷ ys)
    → a ≡ b
unfolding calculate_checksum
calculate_checksum_cancel xs ys a b h k l e = crc_bytes_cancel ones xs ys a b (omega arith) h l (
    bit_xor_cancel (crc_bytes ones (xs ++ a ∷ ys)) (crc_bytes ones (xs ++ b ∷ ys)) ones
      (unfold crc32 in omega (arith, crc32-lt (xs ++ a ∷ ys) h, crc32-lt (xs ++ b ∷ ys) k)))
