-- ===== src/Rdt/Tests.antt =====
-- The datagram layer at concrete inputs: packets, an exchange of the sender with an ACK, and a
-- queue with a repeated packet and a second client.
use rdt_mail_service.Prelude.{
  ℕ, zero, suc, ◌<◌, ◌≡◌, refl, ◌↔◌, true, false, ◌||◌, List, [], ◌∷◌, none, some, arith, ◌==◌,
  nat_eq, lookup, insert, erase, length,
}
use rdt_mail_service.Prelude.Text.{Text, codes, text_eq}
use rdt_mail_service.Rdt.Packet.{Packet, make_packet, unpack_and_validate, type_ack, ◌>>=◌}
use rdt_mail_service.Rdt.Packet.Roundtrip.{unpack-make_packet, unpack_sound, checksum_of, wire}
use rdt_mail_service.Rdt.Packet.Corruption.{unpack_corrupted}
use rdt_mail_service.Rdt.Dispatcher.{
  Addr, key_eq, addr_eq, Dispatcher, Arrival, datagram, timeout, os_error, init, start, listen_loop,
  received, is_set, register_ack_waiter,
}
use rdt_mail_service.Rdt.Dispatcher.Routing.{data_packets, data_queue-listen_loop}
use rdt_mail_service.Rdt.Dispatcher.Acks.{
  acks, survives, IsRegistry, init-IsRegistry, register-Waits, is_set-listen_loop,
}
use rdt_mail_service.Rdt.Sender.{Sender, acked, connection_error, max_retries, send}
use rdt_mail_service.Rdt.Sender.Attempts.{Ended}
use rdt_mail_service.Rdt.Sender.Reliability.{data_packet_of, waits, send-Ended, send_acked_iff}
use rdt_mail_service.Rdt.Receiver.{Receiver, accept, expected_of}
use rdt_mail_service.Rdt.Channel.{Link, connect, packet_for}
use rdt_mail_service.Rdt.Channel.GiveUp.{give_up_loses_next}

unpack-make_packet_example :
    (make_packet 1 false (codes "hi") >>= unpack_and_validate)
    ≡ some (record {
      is_ack = false;
      seq = 1;
      payload = codes "hi";
      checksum = checksum_of 1 0 (codes "hi");
    })
unpack-make_packet_example = unpack-make_packet 1 false (codes "hi")

-- The ACK with sequence number 0, byte by byte.
abbrev ack_0 : Text
ack_0 = 0 ∷ 1 ∷ 140 ∷ 162 ∷ 136 ∷ 19 ∷ []

abbrev ack_packet : Packet
ack_packet = record { is_ack = true; seq = 0; payload = []; checksum = 2359461907 }

ack_0_unpacked : unpack_and_validate ack_0 ≡ some ack_packet
unfolding unpack_and_validate
ack_0_unpacked = refl

unpack_sound_example :
    (pkt_type : ℕ) × (ack_0 ≡ wire 0 pkt_type 2359461907 [])
    × (◌≡◌ {A = ℕ} 2359461907 (checksum_of 0 pkt_type []))
    × (true ≡ (pkt_type == type_ack))
unpack_sound_example = unpack_sound ack_0 ack_packet (omega arith) ack_0_unpacked

unpack_corrupted_example : unpack_and_validate (0 ∷ 0 ∷ 140 ∷ 162 ∷ 136 ∷ 19 ∷ []) ≡ none
unpack_corrupted_example =
    unpack_corrupted (0 ∷ []) (140 ∷ 162 ∷ 136 ∷ 19 ∷ []) 1 0 ack_packet (omega arith) (omega arith)
      (omega arith) ack_0_unpacked

abbrev server : Addr
server = (codes "127.0.0.1", 2525)

abbrev client : Addr
client = (codes "127.0.0.1", 40000)

abbrev other : Addr
other = (codes "127.0.0.1", 40001)

abbrev listening : Dispatcher
listening = record init { running = true; thread_alive = true }

started : start init ≡ listening
unfolding start
started = refl

listening-IsRegistry : IsRegistry listening
listening-IsRegistry = record { made = init-IsRegistry.made }

-- A data packet, a corrupt one, an ACK, and one after a socket error.
abbrev traffic : List Arrival
traffic =
    datagram (0 ∷ 0 ∷ 167 ∷ 217 ∷ 142 ∷ 176 ∷ 97 ∷ []) client
    ∷ datagram (0 ∷ 0 ∷ 167 ∷ 217 ∷ 142 ∷ 176 ∷ 98 ∷ []) client
    ∷ timeout
    ∷ datagram ack_0 server
    ∷ os_error
    ∷ datagram (0 ∷ 0 ∷ 167 ∷ 217 ∷ 142 ∷ 176 ∷ 97 ∷ []) other
    ∷ []

data_packets-traffic : length (data_packets traffic) ≡ 1
unfolding data_packets received unpack_and_validate
data_packets-traffic = refl

data_queue-listen_loop_example : (listen_loop traffic listening).data_queue ≡ data_packets traffic
data_queue-listen_loop_example = data_queue-listen_loop traffic listening (refl, refl)

is_set-listen_loop_example :
    is_set 0 (listen_loop traffic (register_ack_waiter server 0 listening))
    ≡ (acks (server, 0) traffic || is_set 0 (register_ack_waiter server 0 listening))
unfolding register_ack_waiter
is_set-listen_loop_example =
    is_set-listen_loop (server, 0) 0 traffic (register_ack_waiter server 0 listening) (refl, refl)
      (register-Waits server 0 listening listening-IsRegistry)

acks_traffic : acks (server, 0) traffic ≡ true
unfolding acks received unpack_and_validate key_eq
acks_traffic = refl

abbrev sender_0 : Sender
sender_0 = record { dest_addr = server; curr_seq = 0 }

-- The ACK comes in the second wait.
abbrev answers : ℕ → List Arrival
answers zero = []
answers (suc zero) = datagram ack_0 server ∷ []
answers (suc (suc n)) = []

answers_survive : (n : ℕ) → survives (answers n) ≡ true
unfolding survives
answers_survive zero = refl
answers_survive (suc zero) = refl
answers_survive (suc (suc n)) = refl

send-Ended_example :
    Ended
      (data_packet_of sender_0 (codes "a"))
      sender_0
      listening
      max_retries
      (send (codes "a") (waits answers) sender_0 listening)
send-Ended_example = send-Ended (codes "a") (waits answers) sender_0 listening (omega arith)

send_second_attempt :
    let (out, s, d) = send (codes "a") (waits answers) sender_0 listening in
    (out ≡ acked) × (s.curr_seq ≡ 1) × (length d.sent ≡ 2)
unfolding send key_eq register_ack_waiter lookup insert erase unpack_and_validate
send_second_attempt = (refl, refl, refl)

send_acked_iff_example :
    ((send (codes "a") (waits answers) sender_0 listening).0 ≡ acked)
    ↔ ((n : ℕ) × (n < max_retries) × (acks (server, 0) (answers n) ≡ true))
send_acked_iff_example =
    send_acked_iff (codes "a") answers sender_0 listening (omega arith) listening-IsRegistry
      (refl, refl) answers_survive

abbrev receiver : Receiver
receiver = record { expected_seqs = []; running = true }

abbrev packet : ℕ → Text → Packet
packet seq payload = record { is_ack = false; seq = seq; payload = payload; checksum = 0 }

-- The first packet of `client` is repeated; `other` sends in between.
abbrev queued : Dispatcher
queued = record listening {
  data_queue =
      (packet 0 (codes "x"), client)
      ∷ (packet 0 (codes "y"), other)
      ∷ (packet 0 (codes "x"), client)
      ∷ (packet 1 (codes "z"), client)
      ∷ [];
}

abbrev chunks : List Text
chunks = codes "one" ∷ codes "two" ∷ []

abbrev link_0 : Link
link_0 = connect server chunks

abbrev link_1 : Link
link_1 = record link_0 { to_receiver = packet_for sender_0 (codes "one") ∷ [] }

abbrev link_2 : Link
link_2 = record link_1 {
  receiver = record receiver { expected_seqs = (client, 1) ∷ [] };
  to_receiver = [];
  to_sender = 0 ∷ [];
  delivered = codes "one" ∷ [];
}

silence : ℕ → List Arrival
silence n = []

gives_up : (send (codes "one") (waits silence) sender_0 listening).0 ≡ connection_error
unfolding send silence key_eq lookup insert erase
gives_up = refl

give_up_loses_next_example :
    let s' = (send (codes "one") (waits silence) sender_0 listening).1 in
    let (r', ack, yielded) = accept (packet_for sender_0 (codes "one")) client receiver in
    let (r'', ack', yielded') = accept (packet_for s' (codes "two")) client r' in
    (yielded ≡ some (codes "one", client))
    × (yielded' ≡ none)
    × (((n : ℕ) × (n < max_retries) × (acks (server, ack') (answers n) ≡ true))
        → (send (codes "two") (waits answers) s' listening).0 ≡ acked)
give_up_loses_next_example =
    give_up_loses_next (codes "one") (codes "two") client (waits silence) answers sender_0 listening
      listening receiver (omega arith) (unfold expected_of lookup in refl) gives_up
      listening-IsRegistry (refl, refl) answers_survive
