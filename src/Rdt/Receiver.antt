-- ===== src/Rdt/Receiver.antt =====
-- email-network-service/src/rdt/rdt_receiver.py: the alternating sequence number of each client.
-- `none` is an exception that leaves the generator.
pub mod Clients
use rdt_mail_service.Prelude.{
  ℕ, zero, suc, ◌-◌, Bool, true, false, List, [], ◌∷◌, Option, none, some, ◌==◌, nat_eq, Dict,
  lookup, insert, erase, if◌then◌else◌,
}
use rdt_mail_service.Prelude.Text.{Text}
use rdt_mail_service.Rdt.Packet.{Packet, make_ack_packet, ◌>>=◌}
use rdt_mail_service.Rdt.Dispatcher
use rdt_mail_service.Rdt.Dispatcher.{Addr, addr_eq, Dispatcher, start, sendto, get_data_packet}

pub record Receiver : Type 0 where
  pub expected_seqs : Dict Addr ℕ
  pub running : Bool

-- The constructor starts the dispatcher, unless it runs.
unfoldable pub new_receiver : Dispatcher → Receiver × Dispatcher
unfolding start
new_receiver d = (record { expected_seqs = []; running = true }, if d.running then d else start d)

abbrev pub or_zero : Option ℕ → ℕ
or_zero none = 0
or_zero (some n) = n

-- `self.expected_seqs.get(sender_addr, 0)`
unfoldable pub expected_of : Addr → Receiver → ℕ
expected_of addr r = or_zero (lookup addr r.expected_seqs)

-- What a packet does to the receiver: its new state, the sequence number that is acknowledged,
-- and the data that is yielded.
unfoldable pub accept : Packet → Addr → Receiver → Receiver × ℕ × Option (Text × Addr)
unfolding expected_of
accept packet addr r =
    let expected = expected_of addr r in
    if packet.seq == expected
    then (
      record r { expected_seqs = insert addr (1 - expected) r.expected_seqs },
      expected,
      some (packet.payload, addr),
    )
    else (r, 1 - expected, none)

-- A round of the loop on what the queue gives.
unfoldable pub receive_item :
    Option (Packet × Addr)
    → Receiver
    → Dispatcher
    → Option (Receiver × Dispatcher × Option (Text × Addr))
unfolding accept sendto
receive_item none r d = some (r, d, none)
receive_item (some (packet, addr)) r d =
    let (r', ack, yielded) = accept packet addr r in
    do sndpkt ← make_ack_packet ack; some (r', sendto sndpkt addr d, yielded)

unfoldable pub receive_once :
    Receiver → Dispatcher → Option (Receiver × Dispatcher × Option (Text × Addr))
unfolding receive_item get_data_packet
receive_once r d = let (item, d') = get_data_packet d in receive_item item r d'

abbrev pub yield_to : Option (Text × Addr) → List (Text × Addr) → List (Text × Addr)
yield_to none later = later
yield_to (some x) later = x ∷ later

-- `start_receiving` for a number of rounds, with what it yields.
unfoldable pub start_receiving :
    ℕ → Receiver → Dispatcher → Option (Receiver × Dispatcher × List (Text × Addr))
unfolding receive_once
start_receiving zero r d = some (r, d, [])
start_receiving (suc rounds) r d =
    let next = (do
      (r', d', yielded) ← receive_once r d
      (r'', d'', later) ← start_receiving rounds r' d'
      some (r'', d'', yield_to yielded later)) in
    if r.running then next else some (r, d, [])

unfoldable pub reset_state : Addr → Receiver → Receiver
reset_state addr r = record r { expected_seqs = erase addr r.expected_seqs }

unfoldable pub stop : Receiver → Receiver
stop r = record r { running = false }
