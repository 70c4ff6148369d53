-- ===== src/Rdt/Dispatcher/Acks.antt =====
-- Which arrivals set the event of a waiter in rdt_dispatcher.py.
use rdt_mail_service.Prelude.{
  ℕ, ◌<◌, ◌≡◌, ◌≢◌, refl, ◌∙◌, Bool, true, false, ◌&&◌, ◌||◌, List, [], ◌∷◌, Option, none, some,
  beq_refl, Bool-cases, inl, inr, arith, ◌==◌, nat_eq, lookup, lookup-insert, lookup-erase, length,
  length-append, get_elem?-set_self, get_elem?-set_ne, if◌then◌else◌,
}
use rdt_mail_service.Rdt.Packet.{Packet}
use rdt_mail_service.Rdt.Dispatcher.{
  Addr, AckKey, key_eq, Dispatcher, Arrival, datagram, timeout, os_error, received, route,
  listen_once, listen_loop, init, unregister_ack_waiter, register_ack_waiter, is_set, new_event,
  set_event,
}
use rdt_mail_service.Rdt.Dispatcher.Routing.{
  IsListening, SameShell, route-SameShell, listen_loop-datagram, listen_loop-timeout,
  listen_loop-os_error,
}

-- Whether an ACK with the key's sequence number arrives from its address before a socket error.
abbrev is_ack_for : AckKey → Option Packet → Addr → Bool
is_ack_for key none addr = false
is_ack_for key (some p) addr = p.is_ack && (addr, p.seq) == key

unfoldable pub acks : AckKey → List Arrival → Bool
acks key [] = false
acks key (datagram bytes addr ∷ rest) = is_ack_for key (received bytes) addr || acks key rest
acks key (timeout ∷ rest) = acks key rest
acks key (os_error ∷ rest) = false

-- No socket error ends the thread.
unfoldable pub survives : List Arrival → Bool
survives [] = true
survives (datagram bytes addr ∷ rest) = survives rest
survives (timeout ∷ rest) = survives rest
survives (os_error ∷ rest) = false

or_left_comm : (a b c : Bool) → (a || (b || c)) ≡ ((b || a) || c)
or_left_comm a b c = ground arith

-- An event that belongs to one waiter alone.
pub record Waits (key : AckKey) (event : ℕ) (d : Dispatcher) : Type 0 where
  pub listed : lookup key d.ack_listeners ≡ some event
  pub alone : (j : AckKey) → lookup j d.ack_listeners ≡ some event → j ≡ key
  pub made : event < length d.events

Waits-SameShell :
    {key : AckKey} {event : ℕ} {d : Dispatcher} (c : Dispatcher)
    → SameShell d c
    → Waits key event d
    → Waits key event c
Waits-SameShell c s w = record {
  listed = rw s.ack_listeners w.listed;
  alone = λ j h. w.alone j (rw s.ack_listeners at h);
  made = omega (arith, s.events, w.made);
}

is_set-set_event_self :
    (event : ℕ) (d : Dispatcher)
    → event < length d.events
    → is_set event (set_event (some event) d) ≡ true
unfolding is_set
is_set-set_event_self event d h = rw (is_set, get_elem?-set_self d.events event true h)

is_set-set_event_ne :
    (event other : ℕ) (d : Dispatcher)
    → other ≢ event
    → is_set event (set_event (some other) d) ≡ is_set event d
unfolding is_set
is_set-set_event_ne event other d h = rw (is_set, get_elem?-set_ne d.events true h)

module _ (key : AckKey) (event : ℕ) (d : Dispatcher) (w : Waits key event d) where
  is_set-found :
      (addr : Addr) (seq : ℕ) (o : Option ℕ)
      → lookup (addr, seq) d.ack_listeners ≡ o
      → is_set event (set_event o d) ≡ (((addr, seq) == key) || is_set event d)
  is_set-found addr seq none e = ground (arith, key_eq.beq_iff (addr, seq) key, w.listed)
  is_set-found addr seq (some other) e = elim (Bool-cases (other == event)) [
    | inl same ↦ ground (
      arith,
      key_eq.beq_iff (addr, seq) key,
      w.alone (addr, seq),
      is_set-set_event_self event d w.made,
    )
    | inr differs ↦
        ground (arith, key_eq.beq_iff (addr, seq) key, w.listed, is_set-set_event_ne event other d)
  ]

  is_set-route :
      (o : Option Packet) (addr : Addr)
      → is_set event (route o addr d) ≡ (is_ack_for key o addr || is_set event d)
  unfolding route
  is_set-route none addr = refl
  is_set-route (some p) addr = elim (Bool-cases p.is_ack) [
    | inl y ↦ rw (y, is_set-found addr p.seq (lookup (addr, p.seq) d.ack_listeners) refl)
    | inr n ↦ rw n (unfold is_set in refl)
  ]

-- The event of a waiter is set after these arrivals exactly if it was set before, or a valid ACK
-- with the waiter's sequence number came from the waiter's address before a socket error. ACKs of
-- other addresses or sequence numbers do not set it.
pub is_set-listen_loop :
    (key : AckKey) (event : ℕ) (arrivals : List Arrival) (d : Dispatcher)
    → IsListening d
    → Waits key event d
    → is_set event (listen_loop arrivals d) ≡ (acks key arrivals || is_set event d)
unfolding acks
is_set-listen_loop key event [] d h w = (unfold listen_loop in refl)
is_set-listen_loop key event (datagram bytes addr ∷ arrivals) d h w =
    let s = route-SameShell (received bytes) addr d in
    rw
      (
        listen_loop-datagram bytes addr arrivals d h,
        is_set-listen_loop key event arrivals (route (received bytes) addr d)
            (s.running ∙ h.0, s.thread_alive ∙ h.1)
            (Waits-SameShell (route (received bytes) addr d) s w),
        is_set-route key event d w (received bytes) addr,
      )
      (or_left_comm (acks key arrivals) (is_ack_for key (received bytes) addr) (is_set event d))
is_set-listen_loop key event (timeout ∷ arrivals) d h w =
    rw (listen_loop-timeout arrivals d) (is_set-listen_loop key event arrivals d h w)
is_set-listen_loop key event (os_error ∷ arrivals) d h w =
    rw (listen_loop-os_error arrivals d h) (unfold is_set in refl)

-- What the thread leaves alone, whatever arrives.
pub record SameWaiters (d c : Dispatcher) : Type 0 where
  pub running : c.running ≡ d.running
  pub ack_listeners : c.ack_listeners ≡ d.ack_listeners
  pub sent : c.sent ≡ d.sent
  pub events : length c.events ≡ length d.events

listen_once-SameWaiters : (a : Arrival) (d : Dispatcher) → SameWaiters d (listen_once a d)
unfolding listen_once
listen_once-SameWaiters (datagram bytes addr) d =
    let s = route-SameShell (received bytes) addr d in
    record {
      running = s.running;
      ack_listeners = s.ack_listeners;
      sent = s.sent;
      events = s.events;
    }
listen_once-SameWaiters timeout d = ground arith
listen_once-SameWaiters os_error d = ground arith

SameWaiters-trans : {b c d : Dispatcher} → SameWaiters b c → SameWaiters c d → SameWaiters b d
SameWaiters-trans s t = record {
  running = t.running ∙ s.running;
  ack_listeners = t.ack_listeners ∙ s.ack_listeners;
  sent = t.sent ∙ s.sent;
  events = t.events ∙ s.events;
}

round-SameWaiters :
    (awake : Bool) (a : Arrival) (d : Dispatcher)
    → SameWaiters d (if awake then listen_once a d else d)
round-SameWaiters true a d = listen_once-SameWaiters a d
round-SameWaiters false a d = ground arith

pub listen_loop-SameWaiters :
    (arrivals : List Arrival) (d : Dispatcher) → SameWaiters d (listen_loop arrivals d)
unfolding listen_loop
listen_loop-SameWaiters [] d = ground arith
listen_loop-SameWaiters (a ∷ arrivals) d =
    SameWaiters-trans (round-SameWaiters (d.running && d.thread_alive) a d) (
      listen_loop-SameWaiters arrivals (if d.running && d.thread_alive then listen_once a d else d))

-- Every waiter's event has been made, so a new event belongs to its waiter alone.
pub record IsRegistry (d : Dispatcher) : Type 0 where
  pub made :
      (j : AckKey) (event : ℕ) → lookup j d.ack_listeners ≡ some event → event < length d.events

pub register-IsRegistry :
    (addr : Addr) (seq : ℕ) (d : Dispatcher)
    → IsRegistry d
    → IsRegistry (register_ack_waiter addr seq d)
unfolding register_ack_waiter
register-IsRegistry addr seq d r = record {
  made = λ j event h. ground (
    arith,
    lookup-insert (addr, seq) j (new_event d) d.ack_listeners,
    length-append d.events (false ∷ []),
    r.made j event,
  );
}

pub register-Waits :
    (addr : Addr) (seq : ℕ) (d : Dispatcher)
    → IsRegistry d
    → Waits (addr, seq) (new_event d) (register_ack_waiter addr seq d)
unfolding register_ack_waiter
register-Waits addr seq d r = record {
  listed = ground (
    arith,
    lookup-insert (addr, seq) (addr, seq) (new_event d) d.ack_listeners,
    beq_refl {A = AckKey} (addr, seq),
  );
  alone = λ j h. ground (
    arith,
    lookup-insert (addr, seq) j (new_event d) d.ack_listeners,
    key_eq.beq_iff (addr, seq) j,
    r.made j (new_event d),
  );
  made = omega (arith, length-append d.events (false ∷ []));
}

pub unregister-IsRegistry :
    (addr : Addr) (seq : ℕ) (d : Dispatcher)
    → IsRegistry d
    → IsRegistry (unregister_ack_waiter addr seq d)
unfolding unregister_ack_waiter
unregister-IsRegistry addr seq d r = record {
  made = λ j event h. ground (arith, lookup-erase (addr, seq) j d.ack_listeners, r.made j event);
}

pub listen_loop-IsRegistry :
    (arrivals : List Arrival) (d : Dispatcher) → IsRegistry d → IsRegistry (listen_loop arrivals d)
listen_loop-IsRegistry arrivals d r =
    let s = listen_loop-SameWaiters arrivals d in
    record { made = λ j event h. omega (arith, s.events, r.made j event (rw s.ack_listeners at h)) }

pub init-IsRegistry : IsRegistry init
init-IsRegistry = record { made = λ j event h. (unfold lookup in cc) }

pub listen_loop-IsListening :
    (arrivals : List Arrival) (d : Dispatcher)
    → IsListening d
    → survives arrivals ≡ true
    → IsListening (listen_loop arrivals d)
unfolding survives
listen_loop-IsListening [] d h k = (unfold listen_loop in h)
listen_loop-IsListening (datagram bytes addr ∷ arrivals) d h k =
    let s = route-SameShell (received bytes) addr d in
    rw (listen_loop-datagram bytes addr arrivals d h) (
      listen_loop-IsListening arrivals (route (received bytes) addr d)
        (s.running ∙ h.0, s.thread_alive ∙ h.1) k)
listen_loop-IsListening (timeout ∷ arrivals) d h k =
    rw (listen_loop-timeout arrivals d) (listen_loop-IsListening arrivals d h k)
listen_loop-IsListening (os_error ∷ arrivals) d h k = cc
