-- ===== src/Rdt/Channel.antt =====
-- The sender of rdt_sender.py and the receiver of rdt_receiver.py at the two ends of a network
-- that loses and repeats datagrams but keeps their order. Corrupt datagrams count as lost, since
-- `unpack_and_validate` rejects them.
pub mod Phases
pub mod GiveUp
pub mod Steps
pub mod Delivery
use rdt_mail_service.Prelude.{
  ℕ, ◌-◌, ◌≡◌, ◌≢◌, Bool, List, [], ◌∷◌, ◌++◌, Option, none, some, if◌then◌else◌,
}
use rdt_mail_service.Prelude.Text.{Text}
use rdt_mail_service.Rdt.Packet.{Packet}
use rdt_mail_service.Rdt.Packet.Roundtrip.{checksum_of}
use rdt_mail_service.Rdt.Dispatcher.{Addr, Dispatcher, Arrival}
use rdt_mail_service.Rdt.Sender.{Sender, Sent, send}
use rdt_mail_service.Rdt.Receiver.{Receiver, accept}

-- `pending` are the chunks that are still to be sent, the one in transmission first; `confirmed`
-- are those for which `send` has returned True; `delivered` is what the receiver has yielded.
pub record Link : Type 0 where
  pub sender : Sender
  pub receiver : Receiver
  pub to_receiver : List Packet
  pub to_sender : List ℕ
  pub pending : List Text
  pub confirmed : List Text
  pub delivered : List Text

-- What arrives when `send` transmits the chunk.
abbrev pub packet_for : Sender → Text → Packet
packet_for s chunk = record {
  is_ack = Bool.false;
  seq = s.curr_seq;
  payload = chunk;
  checksum = checksum_of s.curr_seq 0 chunk;
}

abbrev pub payload_of : Option (Text × Addr) → List Text
payload_of none = []
payload_of (some (payload, _)) = payload ∷ []

-- The receiver's round on a packet from the client.
unfoldable pub deliver : Addr → Packet → List Packet → Link → Link
unfolding accept
deliver client p rest l =
    let (receiver', ack, yielded) = accept p client l.receiver in
    record l {
      receiver = receiver';
      to_receiver = rest;
      to_sender = l.to_sender ++ ack ∷ [];
      delivered = l.delivered ++ payload_of yielded;
    }

-- `send` has returned True, and has left the sender as `sender'`.
abbrev pub confirm : Sender → Text → List Text → List ℕ → Link → Link
confirm sender' chunk later rest l = record l {
  sender = sender';
  to_sender = rest;
  pending = later;
  confirmed = l.confirmed ++ chunk ∷ [];
}

-- The sender repeats a chunk until a run of `send` takes its ACK and returns True, whatever else its
-- dispatcher receives in the attempts of that run.
-- `again` repeats a datagram: it is processed and stays in the network.
pub data Step (client : Addr) (l m : Link) : Type 0 where
  transmit :
      (chunk : Text) (later : List Text)
      → l.pending ≡ chunk ∷ later
      → m ≡ record l { to_receiver = l.to_receiver ++ packet_for l.sender chunk ∷ [] }
      → Step client l m
  lose_packet :
      (p : Packet) (rest : List Packet)
      → l.to_receiver ≡ p ∷ rest
      → m ≡ record l { to_receiver = rest }
      → Step client l m
  receive :
      (again : Bool) (p : Packet) (rest : List Packet)
      → l.to_receiver ≡ p ∷ rest
      → m ≡ deliver client p (if again then p ∷ rest else rest) l
      → Step client l m
  lose_ack :
      (ack : ℕ) (rest : List ℕ)
      → l.to_sender ≡ ack ∷ rest
      → m ≡ record l { to_sender = rest }
      → Step client l m
  ignore_ack :
      (again : Bool) (ack : ℕ) (rest : List ℕ)
      → l.to_sender ≡ ack ∷ rest
      → ack ≢ l.sender.curr_seq
      → m ≡ record l { to_sender = if again then ack ∷ rest else rest }
      → Step client l m
  take_ack :
      (again : Bool) (ack : ℕ) (rest : List ℕ) (chunk : Text) (later : List Text)
      → l.to_sender ≡ ack ∷ rest
      → ack ≡ l.sender.curr_seq
      → l.pending ≡ chunk ∷ later
      → (arrivals : ℕ → Option (List Arrival)) (d : Dispatcher)
      → (send chunk arrivals l.sender d).0 ≡ Sent.acked
      → m
        ≡ confirm
            (send chunk arrivals l.sender d).1
            chunk
            later
            (if again then ack ∷ rest else rest)
            l
      → Step client l m

pub data Reach (client : Addr) (l : Link) : Link → Type 0 where
  here : Reach client l l
  next : {m n : Link} → Reach client l m → Step client m n → Reach client l n

-- A new sender to `server` with chunks to send, and a new receiver.
abbrev pub connect : Addr → List Text → Link
connect server chunks = record {
  sender = record { dest_addr = server; curr_seq = 0 };
  receiver = record { expected_seqs = []; running = Bool.true };
  to_receiver = [];
  to_sender = [];
  pending = chunks;
  confirmed = [];
  delivered = [];
}
