-- ===== src/Rdt/Receiver/Clients.antt =====
-- The clients of rdt_receiver.py: the receiver never fails, and one client's packets do not
-- change what another client gets.
use rdt_mail_service.Prelude.{
  ℕ, ◌++◌, map, ◌-◌, ◌<◌, ◌≡◌, true, ◌&&◌, List, [], ◌∷◌, none, some, arith, ◌==◌, nat_eq,
  lookup-insert, lookup-erase, if◌then◌else◌,
}
use rdt_mail_service.Prelude.Text.{Text}
use rdt_mail_service.Rdt.Packet.{Packet, make_ack_packet}
use rdt_mail_service.Rdt.Packet.Roundtrip.{make_packet-wire, wire, checksum_of}
use rdt_mail_service.Rdt.Dispatcher.{Addr, addr_eq, Dispatcher, sendto}
use rdt_mail_service.Rdt.Receiver.{
  Receiver, expected_of, accept, receive_once, start_receiving, reset_state,
}

-- Every client's expected sequence number is 0 or 1.
pub record IsAlternating (r : Receiver) : Type 0 where
  pub bit : (addr : Addr) → expected_of addr r < 2

pub accept-IsAlternating :
    (p : Packet) (addr : Addr) (r : Receiver) → IsAlternating r → IsAlternating (accept p addr r).0
unfolding accept
accept-IsAlternating p addr r h = record {
  bit = λ a.
      ground
        (arith, lookup-insert addr a (1 - expected_of addr r) r.expected_seqs, h.bit a, h.bit addr);
}

-- The ACK of a packet has a bit for its sequence number.
pub accept_ack :
    (p : Packet) (addr : Addr) (r : Receiver) → IsAlternating r → (accept p addr r).1 < 2
unfolding accept
accept_ack p addr r h = ground (arith, h.bit addr)

-- The bytes of an ACK.
pub ack_bytes : ℕ → Text
ack_bytes seq = wire seq 1 (checksum_of seq 1 []) []

make_ack_packet_lem : (seq : ℕ) → seq < 256 → make_ack_packet seq ≡ some (ack_bytes seq)
unfolding make_ack_packet ack_bytes
make_ack_packet_lem seq h = make_packet-wire seq true [] h

pub receive_once-idle :
    (r : Receiver) (d : Dispatcher) → d.data_queue ≡ [] → receive_once r d ≡ some (r, d, none)
unfolding receive_once
receive_once-idle r d e = ground arith

pub receive_once-item :
    (p : Packet) (addr : Addr) (rest : List (Packet × Addr)) (r : Receiver) (d : Dispatcher)
    → IsAlternating r
    → d.data_queue ≡ (p, addr) ∷ rest
    → let (r', ack, yielded) = accept p addr r in
      receive_once r d
      ≡ some (r', sendto (ack_bytes ack) addr (record d { data_queue = rest }), yielded)
unfolding receive_once
receive_once-item p addr rest r d h e =
    let b = accept_ack p addr r h in ground (arith, make_ack_packet_lem (accept p addr r).1)

-- The packets of one client, and what the receiver owes it: each payload whose sequence number is
-- the expected one, which then flips.
pub packets_from : Addr → List (Packet × Addr) → List Packet
packets_from addr [] = []
packets_from addr ((p, a) ∷ q) = if a == addr then p ∷ packets_from addr q else packets_from addr q

pub payloads_to : Addr → List (Text × Addr) → List Text
payloads_to addr [] = []
payloads_to addr ((t, a) ∷ q) = if a == addr then t ∷ payloads_to addr q else payloads_to addr q

pub alternating : ℕ → List Packet → List Text
alternating expected [] = []
alternating expected (p ∷ ps) =
    let fresh = alternating (1 - expected) ps in
    let stale = alternating expected ps in if p.seq == expected then p.payload ∷ fresh else stale

-- The numbers of the ACKs that the receiver owes a client: of each packet that is expected its
-- number, and of any other packet the number of the last one that was.
pub acks_due : ℕ → List Packet → List ℕ
acks_due expected [] = []
acks_due expected (p ∷ ps) =
    let fresh = acks_due (1 - expected) ps in
    let stale = acks_due expected ps in
    if p.seq == expected then expected ∷ fresh else (1 - expected) ∷ stale

pub expected_of-accept :
    (addr a : Addr) (p : Packet) (r : Receiver)
    → expected_of addr (accept p a r).0 ≡ (
        if (a == addr) && (p.seq == expected_of addr r)
        then 1 - expected_of addr r
        else expected_of addr r)
unfolding accept
expected_of-accept addr a p r =
    ground
      (arith, addr_eq.beq_iff a addr, lookup-insert a addr (1 - expected_of a r) r.expected_seqs)

pub yielded-accept :
    (a : Addr) (p : Packet) (r : Receiver)
    → (accept p a r).2 ≡ (if p.seq == expected_of a r then some (p.payload, a) else none)
unfolding accept
yielded-accept a p r = ground arith

-- The generator has made its rounds on a queue without raising, and each client has its due.
pub record Drained (rounds : ℕ) (r : Receiver) (d : Dispatcher) (queue : List (Packet × Addr))
    : Type 0 where
  pub receiver : Receiver
  pub dispatcher : Dispatcher
  pub yielded : List (Text × Addr)
  pub result : start_receiving rounds r d ≡ some (receiver, dispatcher, yielded)
  pub empty : dispatcher.data_queue ≡ []
  pub bits : IsAlternating receiver
  pub delivered :
      (addr : Addr)
      → payloads_to addr yielded ≡ alternating (expected_of addr r) (packets_from addr queue)
  pub acknowledged :
      (addr : Addr)
      → payloads_to addr dispatcher.sent
        ≡ payloads_to addr d.sent
          ++ map ack_bytes (acks_due (expected_of addr r) (packets_from addr queue))

-- A client that is reset starts again at 0, and no other client notices.
pub expected_of-reset_state :
    (addr other : Addr) (r : Receiver)
    → expected_of other (reset_state addr r) ≡ (if addr == other then 0 else expected_of other r)
unfolding expected_of reset_state
expected_of-reset_state addr other r = ground (arith, lookup-erase addr other r.expected_seqs)
