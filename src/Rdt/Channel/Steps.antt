-- ===== src/Rdt/Channel/Steps.antt =====
-- Each step of the network keeps the phase of the link.
use rdt_mail_service.Prelude.{
  ℕ, ◌-◌, ◌≡◌, ◌≢◌, refl, sym, ap, ◌∙◌, inl, inr, Bool, true, false, List, [], ◌∷◌, ◌++◌,
  append-nil, arith, beq_refl, nat_eq, if◌then◌else◌,
}
use rdt_mail_service.Prelude.Text.{Text}
use rdt_mail_service.Rdt.Packet.{Packet}
use rdt_mail_service.Rdt.Dispatcher.{Addr, addr_eq}
use rdt_mail_service.Rdt.Sender.{Sender}
use rdt_mail_service.Rdt.Receiver.{expected_of}
use rdt_mail_service.Rdt.Receiver.Clients.{expected_of-accept}
use rdt_mail_service.Rdt.Channel.{Link, packet_for, deliver}
use rdt_mail_service.Rdt.Channel.Phases.{
  All, Split, All-snoc, Split-snoc, Split_of_first, Split-tail, IsCurrent, IsOld, bit_of, Awaiting,
  Holding, Phase,
}

module _ (client : Addr) where
  -- What a packet with the expected number does, and what any other does.
  deliver_fresh :
      (p : Packet) (rest : List Packet) (l : Link)
      → p.seq ≡ expected_of client l.receiver
      → let m = deliver client p rest l in
        (expected_of client m.receiver ≡ 1 - expected_of client l.receiver)
        × (m.to_sender ≡ l.to_sender ++ expected_of client l.receiver ∷ [])
        × (m.delivered ≡ l.delivered ++ p.payload ∷ [])
        × (m.to_receiver ≡ rest)
        × (m.sender ≡ l.sender)
        × (m.pending ≡ l.pending)
        × (m.confirmed ≡ l.confirmed)
  unfolding deliver
  deliver_fresh p rest l e =
      ground (arith, expected_of-accept client client p l.receiver, beq_refl {A = Addr} client)

  deliver_stale :
      (p : Packet) (rest : List Packet) (l : Link)
      → p.seq ≢ expected_of client l.receiver
      → deliver client p rest l ≡ record l {
        to_receiver = rest;
        to_sender = l.to_sender ++ (1 - expected_of client l.receiver) ∷ [];
      }
  unfolding deliver
  deliver_stale p rest l ne = ground (arith, append-nil l.delivered)

  repeat_All :
      (P : Packet → Type 0) (again : Bool) (p : Packet) (rest : List Packet)
      → All P (p ∷ rest)
      → All P (if again then p ∷ rest else rest)
  repeat_All P true p rest h = h
  repeat_All P false p rest h = h.1

  repeat_Split :
      {A : Type 0} (P Q : A → Type 0) (again : Bool) (x : A) (rest : List A)
      → Split P Q (x ∷ rest)
      → Split P Q (if again then x ∷ rest else rest)
  repeat_Split P Q true x rest h = h
  repeat_Split P Q false x rest h = Split-tail P Q x rest h

  receive_old :
      (again : Bool) (p : Packet) (rest : List Packet) (l : Link)
      → l.to_receiver ≡ p ∷ rest
      → Awaiting client l
      → p.seq ≡ 1 - bit_of l
      → Phase client (deliver client p (if again then p ∷ rest else rest) l)
  receive_old again p rest l e h old =
      rw (deliver_stale p (if again then p ∷ rest else rest) l (omega (arith, h.bit, h.expected))) (
        inl (record {
          bit = h.bit;
          expected = h.expected;
          packets =
              repeat_Split (IsOld (bit_of l)) (IsCurrent (bit_of l) l.pending) again p rest
                (rw e at h.packets);
          acks =
              All-snoc (λ a. a ≡ 1 - bit_of l) l.to_sender (1 - expected_of client l.receiver)
                h.acks (omega (arith, h.expected));
          delivered = h.delivered;
        }))

  receive_again :
      (again : Bool) (p : Packet) (rest : List Packet) (l : Link)
      → l.to_receiver ≡ p ∷ rest
      → Holding client l
      → p.seq ≡ bit_of l
      → Phase client (deliver client p (if again then p ∷ rest else rest) l)
  receive_again again p rest l e h same =
      rw (deliver_stale p (if again then p ∷ rest else rest) l (omega (arith, h.bit, h.expected))) (
        inr (record {
          bit = h.bit;
          expected = h.expected;
          packets = repeat_All (IsCurrent (bit_of l) l.pending) again p rest (rw e at h.packets);
          acks =
              Split-snoc (λ a. a ≡ 1 - bit_of l) (λ a. a ≡ bit_of l) l.to_sender
                (1 - expected_of client l.receiver) h.acks (omega (arith, h.bit, h.expected));
          chunk = h.chunk;
          later = h.later;
          pending = h.pending;
          delivered = h.delivered;
        }))

  pub IsCurrent-pending :
      (b : ℕ) (pending : List Text) (p : Packet)
      → IsCurrent b pending p
      → (later : List Text) × (pending ≡ p.payload ∷ later) × (p.seq ≡ b)
  IsCurrent-pending b [] p h = absurd h
  IsCurrent-pending b (chunk ∷ later) p h = (later, ap (λ c. c ∷ later) (sym h.1), h.0)

  receive_new :
      (again : Bool) (p : Packet) (rest : List Packet) (l : Link)
      → Awaiting client l
      → All (IsCurrent (bit_of l) l.pending) (p ∷ rest)
      → Phase client (deliver client p (if again then p ∷ rest else rest) l)
  receive_new again p rest l h all =
      let queue = if again then p ∷ rest else rest in
      let (later, pending, same) = IsCurrent-pending (bit_of l) l.pending p all.0 in
      let (x, acks, delivered, packets, sender, chunks, done) =
        deliver_fresh p queue l (same ∙ sym h.expected) in
      let m = deliver client p queue l in
      let bits : bit_of m ≡ bit_of l = ap (λ (s : Sender). s.curr_seq) sender in
      inr (record {
        bit = omega (arith, bits, h.bit);
        expected = omega (arith, bits, h.expected, x);
        packets =
            rw (packets, bits, chunks)
              (repeat_All (IsCurrent (bit_of l) l.pending) again p rest all);
        acks =
            rw (acks, bits, h.expected)
              (Split-snoc (λ a. a ≡ 1 - bit_of l) (λ a. a ≡ bit_of l) l.to_sender (bit_of l)
                (Split_of_first (λ a. a ≡ 1 - bit_of l) (λ a. a ≡ bit_of l) l.to_sender h.acks)
                refl);
        chunk = p.payload;
        later = later;
        pending = chunks ∙ pending;
        delivered = rw (delivered, done, h.delivered) refl;
      })

  pub receive-Phase :
      (again : Bool) (p : Packet) (rest : List Packet) (l : Link)
      → l.to_receiver ≡ p ∷ rest
      → Phase client l
      → Phase client (deliver client p (if again then p ∷ rest else rest) l)
  receive-Phase again p rest l e (inl h) = waiting (rw e at h.packets)
    where
      waiting :
          Split (IsOld (bit_of l)) (IsCurrent (bit_of l) l.pending) (p ∷ rest)
          → Phase client (deliver client p (if again then p ∷ rest else rest) l)
      waiting (inl s) = receive_old again p rest l e h s.0
      waiting (inr s) = receive_new again p rest l h s
  receive-Phase again p rest l e (inr h) =
      let all : All (IsCurrent (bit_of l) l.pending) (p ∷ rest) = rw e at h.packets in
      let (later, pending, same) = IsCurrent-pending (bit_of l) l.pending p all.0 in
      receive_again again p rest l e h same

  pub transmit-Phase :
      (chunk : Text) (later : List Text) (l : Link)
      → l.pending ≡ chunk ∷ later
      → Phase client l
      → Phase client (record l { to_receiver = l.to_receiver ++ packet_for l.sender chunk ∷ [] })
  transmit-Phase chunk later l e (inl h) = inl (record {
    bit = h.bit;
    expected = h.expected;
    packets =
        Split-snoc (IsOld (bit_of l)) (IsCurrent (bit_of l) l.pending) l.to_receiver
          (packet_for l.sender chunk) h.packets (rw e (refl, refl));
    acks = h.acks;
    delivered = h.delivered;
  })
  transmit-Phase chunk later l e (inr h) = inr (record {
    bit = h.bit;
    expected = h.expected;
    packets =
        All-snoc (IsCurrent (bit_of l) l.pending) l.to_receiver (packet_for l.sender chunk)
          h.packets (rw e (refl, refl));
    acks = h.acks;
    chunk = h.chunk;
    later = h.later;
    pending = h.pending;
    delivered = h.delivered;
  })

  -- Fewer packets or fewer ACKs in the network.
  pub lose_packet-Phase :
      (p : Packet) (rest : List Packet) (l : Link)
      → l.to_receiver ≡ p ∷ rest
      → Phase client l
      → Phase client (record l { to_receiver = rest })
  lose_packet-Phase p rest l e (inl h) = inl (record {
    bit = h.bit;
    expected = h.expected;
    packets =
        Split-tail (IsOld (bit_of l)) (IsCurrent (bit_of l) l.pending) p rest (rw e at h.packets);
    acks = h.acks;
    delivered = h.delivered;
  })
  lose_packet-Phase p rest l e (inr h) =
      let all : All (IsCurrent (bit_of l) l.pending) (p ∷ rest) = rw e at h.packets in
      inr (record {
        bit = h.bit;
        expected = h.expected;
        packets = all.1;
        acks = h.acks;
        chunk = h.chunk;
        later = h.later;
        pending = h.pending;
        delivered = h.delivered;
      })

  pub fewer_acks-Phase :
      (again : Bool) (ack : ℕ) (rest : List ℕ) (l : Link)
      → l.to_sender ≡ ack ∷ rest
      → Phase client l
      → Phase client (record l { to_sender = if again then ack ∷ rest else rest })
  fewer_acks-Phase again ack rest l e (inl h) = inl (record {
    bit = h.bit;
    expected = h.expected;
    packets = h.packets;
    acks = repeat_acks again (rw e at h.acks);
    delivered = h.delivered;
  })
    where
      repeat_acks :
          (b : Bool)
          → All (λ a. a ≡ 1 - bit_of l) (ack ∷ rest)
          → All (λ a. a ≡ 1 - bit_of l) (if b then ack ∷ rest else rest)
      repeat_acks true g = g
      repeat_acks false g = g.1
  fewer_acks-Phase again ack rest l e (inr h) = inr (record {
    bit = h.bit;
    expected = h.expected;
    packets = h.packets;
    acks = repeat_Split (λ a. a ≡ 1 - bit_of l) (λ a. a ≡ bit_of l) again ack rest (rw e at h.acks);
    chunk = h.chunk;
    later = h.later;
    pending = h.pending;
    delivered = h.delivered;
  })
