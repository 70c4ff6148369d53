-- ===== src/Rdt/Channel/GiveUp.antt =====
-- What a sender that gives up leaves behind, in rdt_sender.py and rdt_receiver.py.
use rdt_mail_service.Prelude.{
  ℕ, ◌-◌, ◌<◌, ◌≡◌, refl, ◌∙◌, true, List, Option, none, some, arith, beq_refl, nat_eq, ◌==◌,
  if◌then◌else◌,
}
use rdt_mail_service.Prelude.Text.{Text}
use rdt_mail_service.Rdt.Dispatcher.{Addr, addr_eq, Dispatcher, Arrival}
use rdt_mail_service.Rdt.Dispatcher.Routing.{IsListening}
use rdt_mail_service.Rdt.Dispatcher.Acks.{acks, IsRegistry, survives}
use rdt_mail_service.Rdt.Sender.{Sender, Sent, acked, connection_error, send, max_retries}
use rdt_mail_service.Rdt.Sender.Attempts.{Outcome}
use rdt_mail_service.Rdt.Sender.Reliability.{send-Ended, send_acked_iff, waits}
use rdt_mail_service.Rdt.Receiver.{Receiver, expected_of, accept}
use rdt_mail_service.Rdt.Receiver.Clients.{expected_of-accept, yielded-accept}
use rdt_mail_service.Rdt.Channel.{packet_for}

Outcome_error :
    (out : Sent) (n left : ℕ) (s s' : Sender)
    → out ≡ connection_error
    → Outcome out n left s s'
    → s' ≡ s
Outcome_error acked n left s s' e h = cc
Outcome_error connection_error n left s s' e h = h.1
Outcome_error Sent.struct_error n left s s' e h = cc
Outcome_error Sent.os_error n left s s' e h = cc

accept_stale :
    (chunk : Text) (client : Addr) (s : Sender) (r : Receiver)
    → s.curr_seq < 2
    → expected_of client r ≡ 1 - s.curr_seq
    → accept (packet_for s chunk) client r ≡ (r, s.curr_seq, none)
unfolding accept
accept_stale chunk client s r b e = ground arith

first_expected :
    (first : Text) (client : Addr) (s : Sender) (r : Receiver)
    → expected_of client r ≡ s.curr_seq
    → ◌≡◌ {A = Option (Text × Addr)}
        (if s.curr_seq == expected_of client r then some (first, client) else none)
        (some (first, client))
first_expected first client s r e = rw (e, beq_refl {A = ℕ} s.curr_seq) refl

-- The receiver expects the number of the sender, 0 or 1, and all five attempts to send a chunk
-- fail. Then the receiver, if the chunk has reached it, has yielded it, and the sender keeps the
-- number. Of the next chunk the receiver then yields nothing, and acknowledges just the number that
-- the sender waits for: over a dispatcher that listens, has a registry in order and meets no socket
-- error, in `sendto` or in its thread, and where one of the waits brings that ACK, `send` returns
-- True for a chunk that is lost.
pub give_up_loses_next :
    (first second : Text) (client : Addr) (arrivals : ℕ → Option (List Arrival))
    (again : ℕ → List Arrival) (s : Sender) (d d2 : Dispatcher) (r : Receiver)
    → s.curr_seq < 2
    → expected_of client r ≡ s.curr_seq
    → (send first arrivals s d).0 ≡ connection_error
    → IsRegistry d2
    → IsListening d2
    → ((n : ℕ) → survives (again n) ≡ true)
    → let s' = (send first arrivals s d).1 in
      let (r', ack, yielded) = accept (packet_for s first) client r in
      let (r'', ack', yielded') = accept (packet_for s' second) client r' in
      (yielded ≡ some (first, client))
      × (yielded' ≡ none)
      × (((n : ℕ) × (n < max_retries) × (acks (s.dest_addr, ack') (again n) ≡ true))
          → (send second (waits again) s' d2).0 ≡ acked)
give_up_loses_next first second client arrivals again s d d2 r b e gave_up reg listens alive =
    let ended = send-Ended first arrivals s d (omega arith) in
    let same =
      Outcome_error (send first arrivals s d).0 ended.made max_retries s (send first arrivals s d).1
        gave_up ended.outcome in
    let stale = accept_stale second client s (accept (packet_for s first) client r).0 b (
      ground (
        arith,
        expected_of-accept client client (packet_for s first) r,
        beq_refl {A = Addr} client,
      )) in
    let taken = (send_acked_iff second again s d2 (omega arith) reg listens alive).1 in
    rw (same, stale)
      (
        yielded-accept client (packet_for s first) r ∙ first_expected first client s r e,
        refl,
        taken,
      )
