-- ===== src/Connections/Lifecycle.antt =====
-- `start` and `stop` of smtp_server.py, which pop3_server.py has too, and the threads of
-- `_serve_loop` that they leave.
use rdt_mail_service.Prelude.{
  ℕ, suc, ◌-◌, ◌≤◌, ◌≡◌, refl, Bool, true, false, List, [], ◌∷◌, arith, nat_eq, if◌then◌else◌,
}
use rdt_mail_service.Rdt.Dispatcher
use rdt_mail_service.Rdt.Receiver.{new_receiver}
use rdt_mail_service.Connections.{Connections}

-- `loops` is the number of threads in `_serve_loop`, each with sessions of its own.
pub record Service : Type 0 where
  pub running : Bool
  pub loops : ℕ
  pub connections : Connections

-- The receiver's constructor starts the dispatcher.
unfoldable pub new_service : Service
unfolding new_receiver
new_service =
    let (r, d) = new_receiver Dispatcher.init in
    record {
      running = false;
      loops = 0;
      connections = record { senders = []; dispatcher = d; receiver = r; replies = [] };
    }

-- The thread that `start` makes starts the dispatcher first.
unfoldable pub start : Service → Service
unfolding Dispatcher.start
start s = if s.running then s else record {
  running = true;
  loops = suc s.loops;
  connections = record s.connections { dispatcher = Dispatcher.start s.connections.dispatcher };
}

-- The join with its timeout waits for no packet: a thread that waits for one goes on waiting.
unfoldable pub stop : Service → Service
unfolding Dispatcher.stop
stop s =
    if s.running
    then record s {
      running = false;
      connections = record s.connections { dispatcher = Dispatcher.stop s.connections.dispatcher };
    }
    else s

-- The receiver yields a packet to one of the threads, which ends if the server does not run. The
-- loop of the SMTP server clears the senders when it ends, the one of the POP3 server does not.
unfoldable pub loop_yielded : Bool → Service → Service
loop_yielded clears s =
    if s.running
    then s
    else if clears
    then record s { loops = s.loops - 1; connections = record s.connections { senders = [] } }
    else record s { loops = s.loops - 1 }

pub data Event : Type 0 where
  starts stops yields : Event

unfoldable pub after_event : Bool → Event → Service → Service
after_event clears starts s = start s
after_event clears stops s = stop s
after_event clears yields s = loop_yielded clears s

unfoldable pub lifecycle : Bool → List Event → Service → Service
lifecycle clears [] s = s
lifecycle clears (e ∷ events) s = lifecycle clears events (after_event clears e s)

-- The server runs, a thread serves, and the dispatcher listens; or it does not run.
abbrev pub Served : Service → Type 0
Served s = s.running ≡ true → (1 ≤ s.loops) × (s.connections.dispatcher.running ≡ true)

after-Served :
    (clears : Bool) (e : Event) (s : Service) → Served s → Served (after_event clears e s)
unfolding after_event start stop loop_yielded Dispatcher.start Dispatcher.stop
after-Served clears starts s h = ground arith
after-Served clears stops s h = ground arith
after-Served clears yields s h = ground arith

lifecycle-Served :
    (clears : Bool) (events : List Event) (s : Service)
    → Served s
    → Served (lifecycle clears events s)
unfolding lifecycle
lifecycle-Served clears [] s h = h
lifecycle-Served clears (e ∷ events) s h =
    lifecycle-Served clears events (after_event clears e s) (after-Served clears e s h)

-- A server that runs and is stopped and started again, with no packet between, has a thread more:
-- the old threads go on serving.
pub loops-restart :
    (s : Service)
    → s.running ≡ true
    → ((start (stop s)).running ≡ true) × ((start (stop s)).loops ≡ suc s.loops)
unfolding start stop
loops-restart s h = rw h (refl, refl)

-- Of a server, of either kind, that is made, started, stopped and sent packets, in any order: while
-- it runs, a thread serves, and the dispatcher runs.
pub lifecycle-serves :
    (clears : Bool) (events : List Event)
    → let s = lifecycle clears events new_service in
      s.running ≡ true → (1 ≤ s.loops) × (s.connections.dispatcher.running ≡ true)
lifecycle-serves clears events h =
    lifecycle-Served clears events new_service (unfold new_service in cc) h
