-- ===== src/Rdt/Dispatcher.antt =====
-- email-network-service/src/rdt/rdt_dispatcher.py: the thread that owns the UDP socket.
-- A `threading.Event` is an object that the dispatcher and a sender share: it is a number, the
-- place of its flag in `events`. What `recvfrom` returns or raises is a value of `Arrival`.
pub mod Routing
pub mod Acks
use rdt_mail_service.Prelude.{
  ℕ, Bool, true, false, ◌&&◌, List, [], ◌∷◌, ◌++◌, Option, none, some, Eq, nat_eq, pair_eq, Dict,
  lookup, insert, erase, length, set, take, get_elem?, if◌then◌else◌,
}
use rdt_mail_service.Prelude.Text.{Text, text_eq}
use rdt_mail_service.Rdt.Packet.{Packet, unpack_and_validate}

-- `(ip, port)`
abbrev pub Addr : Type 0
Addr = Text × ℕ

-- `(remote_ip, remote_port, sequence_number)`
abbrev pub AckKey : Type 0
AckKey = Addr × ℕ

instance unfoldable pub addr_eq : Eq Addr
unfolding text_eq
addr_eq = pair_eq ⦃e = text_eq⦄ ⦃f = nat_eq⦄

instance unfoldable pub key_eq : Eq AckKey
unfolding addr_eq
key_eq = pair_eq ⦃e = addr_eq⦄ ⦃f = nat_eq⦄

abbrev pub rdt_recv_bufsize : ℕ
rdt_recv_bufsize = 4096

pub record Dispatcher : Type 0 where
  pub running : Bool
  -- the thread is in its loop
  pub thread_alive : Bool
  pub data_queue : List (Packet × Addr)
  pub ack_listeners : Dict AckKey ℕ
  pub events : List Bool
  -- what was passed to `sock.sendto`
  pub sent : List (Text × Addr)

abbrev pub init : Dispatcher
init = record {
  running = false;
  thread_alive = false;
  data_queue = [];
  ack_listeners = [];
  events = [];
  sent = [];
}

unfoldable pub start : Dispatcher → Dispatcher
start d = if d.running then d else record d { running = true; thread_alive = true }

unfoldable pub stop : Dispatcher → Dispatcher
stop d = record d { running = false; thread_alive = false }

unfoldable pub sendto : Text → Addr → Dispatcher → Dispatcher
sendto bytes addr d = record d { sent = d.sent ++ (bytes, addr) ∷ [] }

abbrev set_event : Option ℕ → Dispatcher → Dispatcher
set_event none d = d
set_event (some event) d = record d { events = set d.events event true }

unfoldable pub handle_ack : Packet → Addr → Dispatcher → Dispatcher
handle_ack packet addr d = set_event (lookup (addr, packet.seq) d.ack_listeners) d

unfoldable pub handle_data : Packet → Addr → Dispatcher → Dispatcher
handle_data packet addr d = record d { data_queue = d.data_queue ++ (packet, addr) ∷ [] }

pub data Arrival : Type 0 where
  datagram : Text → Addr → Arrival
  timeout : Arrival
  os_error : Arrival

-- `sock.recvfrom` cuts a datagram at the size of the buffer.
unfoldable pub received : Text → Option Packet
received bytes = unpack_and_validate (take rdt_recv_bufsize bytes)

unfoldable pub route : Option Packet → Addr → Dispatcher → Dispatcher
unfolding handle_ack handle_data
route none addr d = d
route (some packet) addr d =
    if packet.is_ack then handle_ack packet addr d else handle_data packet addr d

-- One round of the loop.
unfoldable pub listen_once : Arrival → Dispatcher → Dispatcher
unfolding route received
listen_once (datagram bytes addr) d = route (received bytes) addr d
listen_once timeout d = d
listen_once os_error d = record d { thread_alive = false }

-- The rounds that the loop makes while these arrive.
unfoldable pub listen_loop : List Arrival → Dispatcher → Dispatcher
unfolding listen_once
listen_loop [] d = d
listen_loop (a ∷ arrivals) d =
    listen_loop arrivals (if d.running && d.thread_alive then listen_once a d else d)

-- The event that a new waiter gets.
abbrev pub new_event : Dispatcher → ℕ
new_event d = length d.events

unfoldable pub register_ack_waiter : Addr → ℕ → Dispatcher → Dispatcher
register_ack_waiter addr seq d = record d {
  ack_listeners = insert (addr, seq) (new_event d) d.ack_listeners;
  events = d.events ++ false ∷ [];
}

unfoldable pub unregister_ack_waiter : Addr → ℕ → Dispatcher → Dispatcher
unregister_ack_waiter addr seq d = record d { ack_listeners = erase (addr, seq) d.ack_listeners }

-- `event.is_set()`, which is what `event.wait` returns when the time is over.
unfoldable pub is_set : ℕ → Dispatcher → Bool
is_set event d = elim (get_elem? d.events event) [ none ↦ false | some flag ↦ flag ]

-- `none` is the `None` after the timeout of an empty queue.
unfoldable pub get_data_packet : Dispatcher → Option (Packet × Addr) × Dispatcher
get_data_packet d = elim d.data_queue [
  | [] ↦ (none, d)
  | item ∷ rest ↦ (some item, record d { data_queue = rest })
]
