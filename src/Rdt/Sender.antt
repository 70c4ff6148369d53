-- ===== src/Rdt/Sender.antt =====
-- email-network-service/src/rdt/rdt_sender.py: stop-and-wait with at most five attempts.
-- While a sender waits, the dispatcher's thread runs: `arrivals n` is what the thread receives in
-- the wait of the n-th attempt, and the answer of `ack_event.wait` is the flag after it. Where
-- `arrivals n` is `none`, `sock.sendto` of the n-th attempt raises `OSError`.
pub mod Attempts
pub mod Reliability
use rdt_mail_service.Prelude.{ℕ, zero, suc, ◌-◌, Bool, List, Option, none, some, if◌then◌else◌}
use rdt_mail_service.Prelude.Text.{Text}
use rdt_mail_service.Rdt.Packet.{make_data_packet}
use rdt_mail_service.Rdt.Dispatcher
use rdt_mail_service.Rdt.Dispatcher.{
  Addr, Dispatcher, Arrival, start, sendto, listen_loop, new_event, register_ack_waiter,
  unregister_ack_waiter, is_set,
}

pub record Sender : Type 0 where
  pub dest_addr : Addr
  pub curr_seq : ℕ

-- The constructor starts the dispatcher, unless it runs.
unfoldable pub new_sender : Addr → Dispatcher → Sender × Dispatcher
unfolding start
new_sender addr d = (record { dest_addr = addr; curr_seq = 0 }, if d.running then d else start d)

-- How `send` ends: it returns True, or raises `ConnectionError`, `struct.error`, or the `OSError` of
-- `sendto`.
pub data Sent : Type 0 where
  acked connection_error struct_error os_error : Sent

abbrev pub max_retries : ℕ
max_retries = 5

-- One attempt in which `sendto` does not raise: register, send, wait, unregister.
unfoldable pub attempt : Text → Sender → List Arrival → Dispatcher → Bool × Dispatcher
unfolding register_ack_waiter sendto listen_loop is_set unregister_ack_waiter
attempt sndpkt s arrivals d =
    let event = new_event d in
    let waiting = register_ack_waiter s.dest_addr s.curr_seq d in
    let after = listen_loop arrivals (sendto sndpkt s.dest_addr waiting) in
    (is_set event after, unregister_ack_waiter s.dest_addr s.curr_seq after)

-- An attempt in which `sendto` raises: register, unregister.
unfoldable pub refused_attempt : Sender → Dispatcher → Dispatcher
unfolding register_ack_waiter unregister_ack_waiter
refused_attempt s d =
    unregister_ack_waiter s.dest_addr s.curr_seq (register_ack_waiter s.dest_addr s.curr_seq d)

-- `while attempts < max_retries`, on the attempts that are left.
unfoldable pub send_loop :
    ℕ → Text → (ℕ → Option (List Arrival)) → Sender → Dispatcher → Sent × Sender × Dispatcher
unfolding attempt refused_attempt
send_loop zero sndpkt arrivals s d = (connection_error, s, d)
send_loop (suc left) sndpkt arrivals s d = elim (arrivals (max_retries - suc left)) [
  | none ↦ (os_error, s, refused_attempt s d)
  | some window ↦
      let (done, after) = attempt sndpkt s window d in
      let again = send_loop left sndpkt arrivals s after in
      if done then (acked, record s { curr_seq = 1 - s.curr_seq }, after) else again
]

abbrev send_made :
    Option Text → (ℕ → Option (List Arrival)) → Sender → Dispatcher → Sent × Sender × Dispatcher
send_made none arrivals s d = (struct_error, s, d)
send_made (some sndpkt) arrivals s d = send_loop max_retries sndpkt arrivals s d

unfoldable pub send :
    Text → (ℕ → Option (List Arrival)) → Sender → Dispatcher → Sent × Sender × Dispatcher
unfolding send_loop make_data_packet
send data_chunk arrivals s d = send_made (make_data_packet s.curr_seq data_chunk) arrivals s d
