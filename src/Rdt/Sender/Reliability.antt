-- ===== src/Rdt/Sender/Reliability.antt =====
-- When `send` of rdt_sender.py reports success, and what it has done by then.
use rdt_mail_service.Prelude.{
  ℕ, zero, suc, ◌-◌, ◌<◌, ◌≤◌, ◌≡◌, sym, ap, ◌∙◌, ◌↔◌, inl, inr, Bool, true, false, List, Option,
  some, Bool-cases, lt_or_le, arith,
}
use rdt_mail_service.Prelude.Text.{Text}
use rdt_mail_service.Rdt.Packet.{make_data_packet}
use rdt_mail_service.Rdt.Packet.Roundtrip.{make_packet-wire, wire, checksum_of}
use rdt_mail_service.Rdt.Dispatcher.{Dispatcher, Arrival}
use rdt_mail_service.Rdt.Dispatcher.Routing.{IsListening}
use rdt_mail_service.Rdt.Dispatcher.Acks.{acks, IsRegistry, survives, listen_loop-IsListening}
use rdt_mail_service.Rdt.Sender.{Sender, Sent, acked, max_retries, attempt, send_loop, send}
use rdt_mail_service.Rdt.Sender.Attempts.{
  key_of, waiting, sending-IsListening, attempt-acks, attempt-IsRegistry, Ended, send_loop-Ended,
}

-- The data packet of a sender whose sequence number is a byte.
pub data_packet_of : Sender → Text → Text
data_packet_of s chunk = wire s.curr_seq 0 (checksum_of s.curr_seq 0 chunk) chunk

make_data_packet_lem :
    (s : Sender) (chunk : Text)
    → s.curr_seq < 256
    → make_data_packet s.curr_seq chunk ≡ some (data_packet_of s chunk)
unfolding make_data_packet data_packet_of
make_data_packet_lem s chunk h = make_packet-wire s.curr_seq false chunk h

send-send_loop :
    (chunk : Text) (arrivals : ℕ → Option (List Arrival)) (s : Sender) (d : Dispatcher)
    → s.curr_seq < 256
    → send chunk arrivals s d ≡ send_loop max_retries (data_packet_of s chunk) arrivals s d
unfolding send
send-send_loop chunk arrivals s d h = rw (make_data_packet_lem s chunk h)

-- `send`, for a sequence number that is a byte, puts at most five copies of one data packet on the
-- wire, to its destination and nothing else. If it returns True, it has put one or more there, and
-- the sequence number has flipped; if it raises `ConnectionError` it has made all five attempts and
-- the sender is unchanged; if it raises the `OSError` of `sendto`, fewer than five, and the sender
-- is unchanged. It never raises `struct.error`. In each case other waiters are as they were, there is
-- none of its own if there was none before, and a registry in order stays so.
pub send-Ended :
    (chunk : Text) (arrivals : ℕ → Option (List Arrival)) (s : Sender) (d : Dispatcher)
    → s.curr_seq < 256
    → Ended (data_packet_of s chunk) s d max_retries (send chunk arrivals s d)
send-Ended chunk arrivals s d h =
    rw (send-send_loop chunk arrivals s d h)
      (send_loop-Ended (data_packet_of s chunk) arrivals s max_retries d)

attempt-IsListening :
    (sndpkt : Text) (s : Sender) (window : List Arrival) (d : Dispatcher)
    → IsListening d
    → survives window ≡ true
    → IsListening (attempt sndpkt s window d).1
attempt-IsListening sndpkt s window d h k =
    let l =
      listen_loop-IsListening window (waiting sndpkt s window d) (sending-IsListening sndpkt s d h)
        k in
    (unfold attempt in l)

-- Attempts in which no `sendto` raises, by what the dispatcher's thread receives in each.
abbrev pub waits : (ℕ → List Arrival) → ℕ → Option (List Arrival)
waits arrivals n = some (arrivals n)

not_first : (P : ℕ → Bool) (a m : ℕ) → a ≤ m → P a ≡ false → P m ≡ true → suc a ≤ m
not_first P a m h p q = elim (lt_or_le a m) [
  | inl below ↦ below
  | inr above ↦ let e : a ≡ m = omega arith in cc
]

module _ (sndpkt : Text) (arrivals : ℕ → List Arrival) (s : Sender) where
  -- Some wait from the `from`-th on brings the ACK.
  abbrev Confirmed : ℕ → Type 0
  Confirmed from = (n : ℕ) × (from ≤ n) × (n < max_retries) × (acks (key_of s) (arrivals n) ≡ true)

  after : ℕ → Dispatcher → Dispatcher
  after left d = (attempt sndpkt s (arrivals (max_retries - suc left)) d).1

  send_loop-done :
      (left : ℕ) (d : Dispatcher)
      → (attempt sndpkt s (arrivals (max_retries - suc left)) d).0 ≡ true
      → (send_loop (suc left) sndpkt (waits arrivals) s d).0 ≡ acked
  unfolding send_loop
  send_loop-done left d e = rw e

  send_loop-again :
      (left : ℕ) (d : Dispatcher)
      → (attempt sndpkt s (arrivals (max_retries - suc left)) d).0 ≡ false
      → send_loop (suc left) sndpkt (waits arrivals) s d
        ≡ send_loop left sndpkt (waits arrivals) s (after left d)
  unfolding send_loop after
  send_loop-again left d e = rw e

  module _ (alive : (n : ℕ) → survives (arrivals n) ≡ true) where
    after-IsListening : (left : ℕ) (d : Dispatcher) → IsListening d → IsListening (after left d)
    unfolding after
    after-IsListening left d h =
        attempt-IsListening sndpkt s (arrivals (max_retries - suc left)) d h
          (alive (max_retries - suc left))

    after-IsRegistry : (left : ℕ) (d : Dispatcher) → IsRegistry d → IsRegistry (after left d)
    unfolding after
    after-IsRegistry left d r = attempt-IsRegistry sndpkt s (arrivals (max_retries - suc left)) d r

    sooner :
        (left : ℕ)
        → suc left ≤ max_retries
        → Confirmed (max_retries - left)
        → Confirmed (max_retries - suc left)
    sooner left b (n, h, k, e) = (n, omega arith, k, e)

    send_loop_acked :
        (left : ℕ) (d : Dispatcher)
        → left ≤ max_retries
        → IsRegistry d
        → IsListening d
        → (send_loop left sndpkt (waits arrivals) s d).0 ≡ acked
        → Confirmed (max_retries - left)
    send_loop_acked zero d b r h e = (unfold send_loop in cc)
    send_loop_acked (suc left) d b r h e =
        let from = max_retries - suc left in
        let flag = attempt-acks sndpkt s (arrivals from) d r h in
        elim (Bool-cases (acks (key_of s) (arrivals from))) [
          | inl found ↦ (from, omega arith, omega arith, found)
          | inr missing ↦ sooner left b (
              send_loop_acked left (after left d) (omega arith) (after-IsRegistry left d r)
                (after-IsListening left d h)
                (ap (λ (t : Sent × Sender × Dispatcher). t.0)
                    (sym (send_loop-again left d (flag ∙ missing)))
                  ∙ e))
        ]

    send_loop-Confirmed :
        (left : ℕ) (d : Dispatcher)
        → left ≤ max_retries
        → IsRegistry d
        → IsListening d
        → Confirmed (max_retries - left)
        → (send_loop left sndpkt (waits arrivals) s d).0 ≡ acked
    send_loop-Confirmed zero d b r h (n, k, l, e) = absurd (omega arith)
    send_loop-Confirmed (suc left) d b r h (n, k, l, e) =
        let from = max_retries - suc left in
        let flag = attempt-acks sndpkt s (arrivals from) d r h in
        elim (Bool-cases (acks (key_of s) (arrivals from))) [
          | inl found ↦ send_loop-done left d (flag ∙ found)
          | inr missing ↦
              ap (λ (t : Sent × Sender × Dispatcher). t.0) (send_loop-again left d (flag ∙ missing))
              ∙ send_loop-Confirmed left (after left d) (omega arith) (after-IsRegistry left d r)
                  (after-IsListening left d h)
                  (
                    n,
                    omega (
                      arith,
                      not_first (λ (m : ℕ). acks (key_of s) (arrivals m)) from n k missing e,
                    ),
                    l,
                    e,
                  )
        ]

-- While the dispatcher listens and no socket error comes, of `sendto` or in the thread, `send` returns
-- True exactly if one of the waits of its five attempts brings a valid ACK with its sequence number
-- from its destination.
pub send_acked_iff :
    (chunk : Text) (arrivals : ℕ → List Arrival) (s : Sender) (d : Dispatcher)
    → s.curr_seq < 256
    → IsRegistry d
    → IsListening d
    → ((n : ℕ) → survives (arrivals n) ≡ true)
    → ((send chunk (waits arrivals) s d).0 ≡ acked)
      ↔ ((n : ℕ) × (n < max_retries) × (acks (key_of s) (arrivals n) ≡ true))
send_acked_iff chunk arrivals s d b r h alive = rw (send-send_loop chunk (waits arrivals) s d b) (
  (λ e.
      let (n, _, l, q) =
        send_loop_acked (data_packet_of s chunk) arrivals s alive max_retries d (omega arith) r h
          e in
      (n, l, q)),
  (λ (n, l, q).
      send_loop-Confirmed (data_packet_of s chunk) arrivals s alive max_retries d (omega arith) r h
        (n, omega arith, l, q)),
)
