-- ===== src/Rdt/Packet/Roundtrip.antt =====
-- What `unpack_and_validate` accepts of rdt_packet.py: what `make_packet` builds, and no more.
use rdt_mail_service.Prelude.{
  ℕ, ◌+◌, ◌*◌, ◌/◌, ◌%◌, ◌^◌, ◌<◌, ◌≤◌, ◌≡◌, sym, ◌∙◌, Bool, none, some, ◌∷◌, arith, ltb, lt→ltb,
  le→ltb, lt_or_le, inl, inr, ◌==◌, nat_eq, if◌then◌else◌,
}
use mathlib.Core.Path.{ap₂}
use rdt_mail_service.Prelude.Text.{Text}
use rdt_mail_service.Rdt.Packet.{
  Packet, calculate_checksum, make_packet, unpack_and_validate, type_ack, type_data, ◌>>=◌,
}
use rdt_mail_service.Rdt.Packet.Crc.{calculate_checksum-lt, IsBytes}

abbrev type_of : Bool → ℕ
type_of is_ack = if is_ack then type_ack else type_data

-- The bytes of a packet with a one-byte sequence number.
abbrev pub wire : ℕ → ℕ → ℕ → Text → Text
wire seq pkt_type checksum payload =
    seq
    ∷ pkt_type
    ∷ checksum / 2 ^ 24
    ∷ checksum / 2 ^ 16 % 256
    ∷ checksum / 2 ^ 8 % 256
    ∷ checksum % 256
    ∷ payload

abbrev pub checksum_of : ℕ → ℕ → Text → ℕ
checksum_of seq pkt_type payload = calculate_checksum (seq ∷ pkt_type ∷ 0 ∷ 0 ∷ 0 ∷ 0 ∷ payload)

pub make_packet-wire :
    (seq : ℕ) (is_ack : Bool) (payload : Text)
    → seq < 256
    → make_packet seq is_ack payload
      ≡ some (wire seq (type_of is_ack) (checksum_of seq (type_of is_ack) payload) payload)
unfolding make_packet
make_packet-wire seq is_ack payload h =
    ground (arith, calculate_checksum-lt (seq ∷ type_of is_ack ∷ 0 ∷ 0 ∷ 0 ∷ 0 ∷ payload))

-- A sequence number that needs more than a byte raises `struct.error`.
pub make_packet_error :
    (seq : ℕ) (is_ack : Bool) (payload : Text) → 256 ≤ seq → make_packet seq is_ack payload ≡ none
unfolding make_packet
make_packet_error seq is_ack payload h = ground arith

pub unpack-wire :
    (seq : ℕ) (is_ack : Bool) (payload : Text)
    → seq < 256
    → unpack_and_validate
        (wire seq (type_of is_ack) (checksum_of seq (type_of is_ack) payload) payload)
      ≡ some (record {
        is_ack = is_ack;
        seq = seq;
        payload = payload;
        checksum = checksum_of seq (type_of is_ack) payload;
      })
unfolding unpack_and_validate
unpack-wire seq is_ack payload h =
    ground (arith, calculate_checksum-lt (seq ∷ type_of is_ack ∷ 0 ∷ 0 ∷ 0 ∷ 0 ∷ payload))

-- A packet that is built is accepted, and unpacking gives back its sequence number, its kind and
-- its payload, with the checksum that it carries: for every sequence number of one byte, which is
-- what packing takes; any other raises.
pub unpack-make_packet :
    (seq : ℕ) (is_ack : Bool) (payload : Text)
    → (make_packet seq is_ack payload >>= unpack_and_validate) ≡ (
        if ltb seq 256
        then some (record {
          is_ack = is_ack;
          seq = seq;
          payload = payload;
          checksum = checksum_of seq (type_of is_ack) payload;
        })
        else none)
unpack-make_packet seq is_ack payload = elim (lt_or_le seq 256) [
  | inl h ↦
      rw (make_packet-wire seq is_ack payload h, unpack-wire seq is_ack payload h, lt→ltb seq 256 h)
  | inr h ↦ rw (make_packet_error seq is_ack payload h, le→ltb seq 256 h)
]

unpack_fields :
    (s t c3 c2 c1 c0 : ℕ) (payload : Text) (p : Packet)
    → unpack_and_validate (s ∷ t ∷ c3 ∷ c2 ∷ c1 ∷ c0 ∷ payload) ≡ some p
    → (p.seq ≡ s)
      × (p.payload ≡ payload)
      × (p.checksum ≡ ((c3 * 256 + c2) * 256 + c1) * 256 + c0)
      × (p.checksum ≡ checksum_of s t payload)
      × (p.is_ack ≡ (t == type_ack))
unfolding unpack_and_validate
unpack_fields s t c3 c2 c1 c0 payload p e = ground arith

checksum_digits :
    (c3 c2 c1 c0 : ℕ) {c : ℕ}
    → c3 < 256
    → c2 < 256
    → c1 < 256
    → c0 < 256
    → c ≡ ((c3 * 256 + c2) * 256 + c1) * 256 + c0
    → (c3 ≡ c / 2 ^ 24) × (c2 ≡ c / 2 ^ 16 % 256) × (c1 ≡ c / 2 ^ 8 % 256) × (c0 ≡ c % 256)
checksum_digits c3 c2 c1 c0 h3 h2 h1 h0 e = omega arith

-- What is accepted from the network is a packet in the wire format, with the checksum of its own
-- header and payload; it counts as an ACK exactly if its type byte says so.
pub unpack_sound :
    (bs : Text) (p : Packet)
    → IsBytes bs
    → unpack_and_validate bs ≡ some p
    → (pkt_type : ℕ) × (bs ≡ wire p.seq pkt_type p.checksum p.payload)
      × (p.checksum ≡ checksum_of p.seq pkt_type p.payload)
      × (p.is_ack ≡ (pkt_type == type_ack))
unfolding unpack_and_validate
unpack_sound (s ∷ t ∷ c3 ∷ c2 ∷ c1 ∷ c0 ∷ payload) p h e =
    let f = unpack_fields s t c3 c2 c1 c0 payload p e in
    let d = checksum_digits c3 c2 c1 c0 h.1.1.0 h.1.1.1.0 h.1.1.1.1.0 h.1.1.1.1.1.0 f.2 in
    (
      t,
      cc (f.0, f.1, d.0, d.1, d.2, d.3),
      f.3 ∙ ap₂ (λ (u : ℕ) (v : Text). checksum_of u t v) (sym f.0) (sym f.1),
      f.4,
    )
unpack_sound _ p h e = cc
