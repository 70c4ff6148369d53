-- ===== src/Rdt/Packet/Corruption.antt =====
-- No packet of rdt_packet.py survives the corruption of one of its bytes.
use rdt_mail_service.Prelude.{
  ℕ, ◌+◌, ◌*◌, ◌<◌, ◌≡◌, ◌≢◌, sym, ◌∙◌, inl, inr, none, some, [], ◌∷◌, ◌++◌, arith, Option-cases,
}
use rdt_mail_service.Prelude.Text.{Text}
use rdt_mail_service.Rdt.Packet.{Packet, unpack_and_validate}
use rdt_mail_service.Rdt.Packet.Crc.{IsBytes, calculate_checksum_cancel}
use rdt_mail_service.Rdt.Packet.Roundtrip.{checksum_of}

abbrev Accepted : Text → Type 0
Accepted (s ∷ t ∷ c3 ∷ c2 ∷ c1 ∷ c0 ∷ payload) =
    ((c3 * 256 + c2) * 256 + c1) * 256 + c0 ≡ checksum_of s t payload
Accepted _ = ⊥

unpack-Accepted :
    (bs : Text) (p : Packet) → unpack_and_validate bs ≡ some p → IsBytes bs → Accepted bs
unfolding unpack_and_validate
unpack-Accepted (s ∷ t ∷ c3 ∷ c2 ∷ c1 ∷ c0 ∷ payload) p e h = ground arith
unpack-Accepted _ p e h = cc

zeros-IsBytes : (m : Text) → IsBytes m → IsBytes (0 ∷ 0 ∷ 0 ∷ 0 ∷ m)
zeros-IsBytes m h = (omega arith, (omega arith, (omega arith, (omega arith, h))))

one_byte :
    (xs ys : Text) (a b : ℕ)
    → IsBytes (xs ++ a ∷ ys)
    → IsBytes (xs ++ b ∷ ys)
    → b < 256
    → Accepted (xs ++ a ∷ ys)
    → Accepted (xs ++ b ∷ ys)
    → a ≡ b
one_byte [] (t ∷ c3 ∷ c2 ∷ c1 ∷ c0 ∷ m) a b ha hb l p q =
    calculate_checksum_cancel [] (t ∷ 0 ∷ 0 ∷ 0 ∷ 0 ∷ m) a b
      (ha.0, (ha.1.0, zeros-IsBytes m ha.1.1.1.1.1.1))
      (hb.0, (hb.1.0, zeros-IsBytes m hb.1.1.1.1.1.1)) l (sym p ∙ q)
one_byte (s ∷ []) (c3 ∷ c2 ∷ c1 ∷ c0 ∷ m) a b ha hb l p q =
    calculate_checksum_cancel (s ∷ []) (0 ∷ 0 ∷ 0 ∷ 0 ∷ m) a b
      (ha.0, (ha.1.0, zeros-IsBytes m ha.1.1.1.1.1.1))
      (hb.0, (hb.1.0, zeros-IsBytes m hb.1.1.1.1.1.1)) l (sym p ∙ q)
one_byte (s ∷ t ∷ []) (c2 ∷ c1 ∷ c0 ∷ m) a b ha hb l p q = omega arith
one_byte (s ∷ t ∷ c3 ∷ []) (c1 ∷ c0 ∷ m) a b ha hb l p q = omega arith
one_byte (s ∷ t ∷ c3 ∷ c2 ∷ []) (c0 ∷ m) a b ha hb l p q = omega arith
one_byte (s ∷ t ∷ c3 ∷ c2 ∷ c1 ∷ []) m a b ha hb l p q = omega arith
one_byte (s ∷ t ∷ c3 ∷ c2 ∷ c1 ∷ c0 ∷ xs) ys a b ha hb l p q =
    calculate_checksum_cancel (s ∷ t ∷ 0 ∷ 0 ∷ 0 ∷ 0 ∷ xs) ys a b
      (ha.0, (ha.1.0, zeros-IsBytes (xs ++ a ∷ ys) ha.1.1.1.1.1.1))
      (hb.0, (hb.1.0, zeros-IsBytes (xs ++ b ∷ ys) hb.1.1.1.1.1.1)) l (sym p ∙ q)
one_byte _ _ a b ha hb l p q = absurd p

byte_at : (xs ys : Text) (b : ℕ) → IsBytes (xs ++ b ∷ ys) → b < 256
byte_at [] ys b h = h.0
byte_at (x ∷ xs) ys b h = byte_at xs ys b h.1

-- A datagram that is accepted is no longer accepted once any one of its bytes, in the header, the
-- checksum or the payload, is replaced by another byte.
pub unpack_corrupted :
    (xs ys : Text) (a b : ℕ) (p : Packet)
    → IsBytes (xs ++ a ∷ ys)
    → IsBytes (xs ++ b ∷ ys)
    → a ≢ b
    → unpack_and_validate (xs ++ a ∷ ys) ≡ some p
    → unpack_and_validate (xs ++ b ∷ ys) ≡ none
unpack_corrupted xs ys a b p ha hb ne e = elim (Option-cases (unpack_and_validate (xs ++ b ∷ ys))) [
  | inl rejected ↦ rejected
  | inr (q, f) ↦ absurd (
      ne (
        one_byte xs ys a b ha hb (byte_at xs ys b hb) (unpack-Accepted _ p e ha)
          (unpack-Accepted _ q f hb)))
]
