-- ===== src/Rdt/Dispatcher/Routing.antt =====
-- Where the dispatcher of rdt_dispatcher.py puts what arrives.
use rdt_mail_service.Prelude.{
  ℕ, ◌≡◌, refl, sym, ◌∙◌, true, false, List, [], ◌∷◌, ◌++◌, append-nil, append_assoc, Option, none,
  some, arith, lookup, length, length-set, if◌then◌else◌,
}
use rdt_mail_service.Prelude.Text.{Text}
use rdt_mail_service.Rdt.Packet.{Packet}
use rdt_mail_service.Rdt.Dispatcher.{
  Addr, key_eq, Dispatcher, Arrival, datagram, timeout, os_error, received, route, listen_loop,
  set_event,
}

-- The valid data packets that arrive before the first socket error, in order.
abbrev data_packet : Option Packet → Addr → List (Packet × Addr)
data_packet none addr = []
data_packet (some p) addr = if p.is_ack then [] else (p, addr) ∷ []

unfoldable pub data_packets : List Arrival → List (Packet × Addr)
data_packets [] = []
data_packets (datagram bytes addr ∷ rest) = data_packet (received bytes) addr ++ data_packets rest
data_packets (timeout ∷ rest) = data_packets rest
data_packets (os_error ∷ rest) = []

abbrev pub IsListening : Dispatcher → Type 0
IsListening d = (d.running ≡ true) × (d.thread_alive ≡ true)

-- The rounds after the thread has ended change nothing.
pub listen_loop_dead :
    (arrivals : List Arrival) (d : Dispatcher) → d.thread_alive ≡ false → listen_loop arrivals d ≡ d
unfolding listen_loop
listen_loop_dead [] d h = refl
listen_loop_dead (a ∷ arrivals) d h = ground (arith, listen_loop_dead arrivals d)

-- Routing touches the queue and the flags, never the thread, the waiters or what was sent.
pub record SameShell (d c : Dispatcher) : Type 0 where
  pub running : c.running ≡ d.running
  pub thread_alive : c.thread_alive ≡ d.thread_alive
  pub ack_listeners : c.ack_listeners ≡ d.ack_listeners
  pub sent : c.sent ≡ d.sent
  pub events : length c.events ≡ length d.events

set_event-SameShell : (o : Option ℕ) (d : Dispatcher) → SameShell d (set_event o d)
set_event-SameShell none d = ground arith
set_event-SameShell (some event) d = ground (arith, length-set d.events event true)

pub route-SameShell :
    (o : Option Packet) (addr : Addr) (d : Dispatcher) → SameShell d (route o addr d)
unfolding route
route-SameShell none addr d = ground arith
route-SameShell (some p) addr d =
    ground (arith, set_event-SameShell (lookup (addr, p.seq) d.ack_listeners) d)

data_queue-set_event : (o : Option ℕ) (d : Dispatcher) → (set_event o d).data_queue ≡ d.data_queue
data_queue-set_event none d = refl
data_queue-set_event (some event) d = refl

data_queue-route :
    (o : Option Packet) (addr : Addr) (d : Dispatcher)
    → (route o addr d).data_queue ≡ d.data_queue ++ data_packet o addr
unfolding route
data_queue-route none addr d = sym (append-nil d.data_queue)
data_queue-route (some p) addr d =
    ground (
      arith,
      append-nil d.data_queue,
      data_queue-set_event (lookup (addr, p.seq) d.ack_listeners) d,
    )

pub listen_loop-datagram :
    (bytes : Text) (addr : Addr) (arrivals : List Arrival) (d : Dispatcher)
    → IsListening d
    → listen_loop (datagram bytes addr ∷ arrivals) d
      ≡ listen_loop arrivals (route (received bytes) addr d)
unfolding listen_loop
listen_loop-datagram bytes addr arrivals d h = rw (h.0, h.1)

pub listen_loop-timeout :
    (arrivals : List Arrival) (d : Dispatcher)
    → listen_loop (timeout ∷ arrivals) d ≡ listen_loop arrivals d
unfolding listen_loop
listen_loop-timeout arrivals d = ground arith

pub listen_loop-os_error :
    (arrivals : List Arrival) (d : Dispatcher)
    → IsListening d
    → listen_loop (os_error ∷ arrivals) d ≡ record d { thread_alive = false }
unfolding listen_loop
listen_loop-os_error arrivals d h =
    ground (arith, listen_loop_dead arrivals (record d { thread_alive = false }) refl)

-- Exactly the valid data packets that arrive before the first socket error are queued for the
-- receiver, in the order of their arrival, behind what was queued.
pub data_queue-listen_loop :
    (arrivals : List Arrival) (d : Dispatcher)
    → IsListening d
    → (listen_loop arrivals d).data_queue ≡ d.data_queue ++ data_packets arrivals
unfolding data_packets
data_queue-listen_loop [] d h = (unfold listen_loop in sym (append-nil d.data_queue))
data_queue-listen_loop (datagram bytes addr ∷ arrivals) d h =
    let s = route-SameShell (received bytes) addr d in
    rw
      (
        listen_loop-datagram bytes addr arrivals d h,
        data_queue-listen_loop arrivals (route (received bytes) addr d)
            (s.running ∙ h.0, s.thread_alive ∙ h.1),
        data_queue-route (received bytes) addr d,
      )
      (append_assoc d.data_queue (data_packet (received bytes) addr) (data_packets arrivals))
data_queue-listen_loop (timeout ∷ arrivals) d h =
    rw (listen_loop-timeout arrivals d) (data_queue-listen_loop arrivals d h)
data_queue-listen_loop (os_error ∷ arrivals) d h =
    rw (listen_loop-os_error arrivals d h) (sym (append-nil d.data_queue))
