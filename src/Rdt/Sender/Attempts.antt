-- ===== src/Rdt/Sender/Attempts.antt =====
-- What the attempts of rdt_sender.py do: which answer ends them, what they put on the wire, and
-- what they leave in the dispatcher.
use rdt_mail_service.Prelude.{
  ℕ, zero, suc, ◌-◌, ◌<◌, ◌≤◌, ◌≡◌, ◌≢◌, refl, ap, sym, ◌∙◌, Bool, true, false, ◌||◌, List, [], ◌∷◌,
  ◌++◌, append-nil, append_assoc, none, some, Option, arith, ◌==◌, lookup, lookup-insert,
  lookup-erase, beq_refl, get_elem?-append_end, if◌then◌else◌,
}
use rdt_mail_service.Prelude.Text.{Text}
use rdt_mail_service.Rdt.Dispatcher.{
  Addr, AckKey, key_eq, Dispatcher, Arrival, listen_loop, new_event, register_ack_waiter,
  unregister_ack_waiter, sendto, is_set,
}
use rdt_mail_service.Rdt.Dispatcher.Routing.{IsListening}
use rdt_mail_service.Rdt.Dispatcher.Acks.{
  acks, Waits, IsRegistry, is_set-listen_loop, listen_loop-SameWaiters, register-IsRegistry,
  register-Waits, unregister-IsRegistry, listen_loop-IsRegistry,
}
use rdt_mail_service.Rdt.Sender.{
  Sender, Sent, acked, connection_error, struct_error, os_error, max_retries, attempt,
  refused_attempt, send_loop,
}

abbrev pub key_of : Sender → AckKey
key_of s = (s.dest_addr, s.curr_seq)

is_set-sendto :
    (event : ℕ) (bytes : Text) (addr : Addr) (d : Dispatcher)
    → is_set event (sendto bytes addr d) ≡ is_set event d
unfolding is_set sendto
is_set-sendto event bytes addr d = refl

-- A new event is not set.
is_set-register :
    (addr : Addr) (seq : ℕ) (d : Dispatcher)
    → is_set (new_event d) (register_ack_waiter addr seq d) ≡ false
unfolding is_set register_ack_waiter
is_set-register addr seq d = rw (is_set, get_elem?-append_end d.events false)

or_false : (b : Bool) → (b || false) ≡ b
or_false b = ground arith

sendto-Waits :
    {key : AckKey} {event : ℕ} {d : Dispatcher} (bytes : Text) (addr : Addr)
    → Waits key event d
    → Waits key event (sendto bytes addr d)
unfolding sendto
sendto-Waits bytes addr w = record { listed = w.listed; alone = w.alone; made = w.made }

sendto-IsRegistry :
    {d : Dispatcher} (bytes : Text) (addr : Addr) → IsRegistry d → IsRegistry (sendto bytes addr d)
unfolding sendto
sendto-IsRegistry bytes addr r = record { made = r.made }

pub sending-IsListening :
    (sndpkt : Text) (s : Sender) (d : Dispatcher)
    → IsListening d
    → IsListening (sendto sndpkt s.dest_addr (register_ack_waiter s.dest_addr s.curr_seq d))
unfolding sendto register_ack_waiter
sending-IsListening sndpkt s d h = h

module _ (sndpkt : Text) (s : Sender) (arrivals : List Arrival) (d : Dispatcher) where
  -- The dispatcher while the sender waits.
  abbrev pub waiting : Dispatcher
  waiting = sendto sndpkt s.dest_addr (register_ack_waiter s.dest_addr s.curr_seq d)

  attempt_flag :
      (attempt sndpkt s arrivals d).0 ≡ is_set (new_event d) (listen_loop arrivals waiting)
  unfolding attempt
  attempt_flag = refl

  -- An attempt succeeds exactly if its wait brings an ACK of the sequence number.
  pub attempt-acks :
      IsRegistry d → IsListening d → (attempt sndpkt s arrivals d).0 ≡ acks (key_of s) arrivals
  attempt-acks r h =
      attempt_flag
      ∙ is_set-listen_loop (key_of s) (new_event d) arrivals waiting
          (sending-IsListening sndpkt s d h)
          (sendto-Waits sndpkt s.dest_addr (register-Waits s.dest_addr s.curr_seq d r))
      ∙ ap (λ (b : Bool). acks (key_of s) arrivals || b)
          (is_set-sendto (new_event d) sndpkt s.dest_addr
              (register_ack_waiter s.dest_addr s.curr_seq d)
            ∙ is_set-register s.dest_addr s.curr_seq d)
      ∙ or_false (acks (key_of s) arrivals)

  attempt-sent : (attempt sndpkt s arrivals d).1.sent ≡ d.sent ++ (sndpkt, s.dest_addr) ∷ []
  attempt-sent = let w = listen_loop-SameWaiters arrivals waiting in (unfold attempt in w.sent)

  attempt-running : (attempt sndpkt s arrivals d).1.running ≡ d.running
  attempt-running =
      let w = listen_loop-SameWaiters arrivals waiting in (unfold attempt in w.running)

  pub attempt-IsRegistry : IsRegistry d → IsRegistry (attempt sndpkt s arrivals d).1
  attempt-IsRegistry r =
      let q =
        sendto-IsRegistry sndpkt s.dest_addr (register-IsRegistry s.dest_addr s.curr_seq d r) in
      (unfold attempt in
        unregister-IsRegistry s.dest_addr s.curr_seq (listen_loop arrivals waiting)
          (listen_loop-IsRegistry arrivals waiting q))

  -- The attempt leaves no waiter of its own behind, and every other waiter as it was.
  attempt-lookup :
      (j : AckKey)
      → lookup j (attempt sndpkt s arrivals d).1.ack_listeners
        ≡ (if key_of s == j then none else lookup j d.ack_listeners)
  unfolding attempt unregister_ack_waiter register_ack_waiter sendto
  attempt-lookup j =
      let w = listen_loop-SameWaiters arrivals waiting in
      ground (
        arith,
        w.ack_listeners,
        lookup-erase (key_of s) j (listen_loop arrivals waiting).ack_listeners,
        lookup-insert (key_of s) j (new_event d) d.ack_listeners,
      )

-- The datagrams of `n` attempts.
pub copies : ℕ → Text → Addr → List (Text × Addr)
copies zero sndpkt addr = []
copies (suc n) sndpkt addr = (sndpkt, addr) ∷ copies n sndpkt addr

copies-sent :
    (n : ℕ) (sndpkt : Text) (addr : Addr) (sent : List (Text × Addr))
    → (sent ++ (sndpkt, addr) ∷ []) ++ copies n sndpkt addr ≡ sent ++ copies (suc n) sndpkt addr
unfolding copies
copies-sent n sndpkt addr sent = append_assoc sent ((sndpkt, addr) ∷ []) (copies n sndpkt addr)

-- How `n` attempts out of `left` ended, by the answer.
abbrev pub Outcome : Sent → ℕ → ℕ → Sender → Sender → Type 0
Outcome acked n left s s' = (0 < n) × (s' ≡ record s { curr_seq = 1 - s.curr_seq })
Outcome connection_error n left s s' = (n ≡ left) × (s' ≡ s)
Outcome struct_error n left s s' = ⊥
Outcome os_error n left s s' = (n < left) × (s' ≡ s)

-- What the attempts have done when they end.
pub record Ended (sndpkt : Text) (s : Sender) (d : Dispatcher) (left : ℕ)
    (r : Sent × Sender × Dispatcher) : Type 0 where
  pub made : ℕ
  pub made_bound : made ≤ left
  pub sent : r.2.sent ≡ d.sent ++ copies made sndpkt s.dest_addr
  pub outcome : Outcome r.0 made left s r.1
  pub registry : IsRegistry d → IsRegistry r.2
  pub others : (j : AckKey) → j ≢ key_of s → lookup j r.2.ack_listeners ≡ lookup j d.ack_listeners
  pub own : lookup (key_of s) d.ack_listeners ≡ none → lookup (key_of s) r.2.ack_listeners ≡ none

module _ (sndpkt : Text) (arrivals : ℕ → Option (List Arrival)) (s : Sender) where
  own_removed :
      (window : List Arrival) (d : Dispatcher)
      → lookup (key_of s) (attempt sndpkt s window d).1.ack_listeners ≡ none
  own_removed window d =
      ground (arith, attempt-lookup sndpkt s window d (key_of s), beq_refl {A = AckKey} (key_of s))

  others_kept :
      (window : List Arrival) (d : Dispatcher) (j : AckKey)
      → j ≢ key_of s
      → lookup j (attempt sndpkt s window d).1.ack_listeners ≡ lookup j d.ack_listeners
  others_kept window d j ne =
      ground (arith, attempt-lookup sndpkt s window d j, key_eq.beq_iff (key_of s) j)

  first_attempt :
      (left : ℕ) (d : Dispatcher) (window : List Arrival)
      → Ended sndpkt s d
          (suc left)
          (acked, record s { curr_seq = 1 - s.curr_seq }, (attempt sndpkt s window d).1)
  first_attempt left d window = record {
    made = 1;
    made_bound = omega arith;
    sent = (unfold copies in attempt-sent sndpkt s window d);
    outcome = (omega arith, refl);
    registry = attempt-IsRegistry sndpkt s window d;
    others = others_kept window d;
    own = λ _. own_removed window d;
  }

  Outcome_suc :
      (out : Sent) (n left : ℕ) (t : Sender)
      → Outcome out n left s t
      → Outcome out (suc n) (suc left) s t
  Outcome_suc acked n left t h = (omega arith, h.1)
  Outcome_suc connection_error n left t h = (omega (arith, h.0), h.1)
  Outcome_suc struct_error n left t h = h
  Outcome_suc os_error n left t h = (omega (arith, h.0), h.1)

  later_attempt :
      (left : ℕ) (d : Dispatcher) (window : List Arrival) (r : Sent × Sender × Dispatcher)
      → Ended sndpkt s (attempt sndpkt s window d).1 left r
      → Ended sndpkt s d (suc left) r
  later_attempt left d window r e = record {
    made = suc e.made;
    made_bound = omega (arith, e.made_bound);
    sent =
        rw (e.sent, attempt-sent sndpkt s window d) (copies-sent e.made sndpkt s.dest_addr d.sent);
    outcome = Outcome_suc r.0 e.made left r.1 e.outcome;
    registry = λ g. e.registry (attempt-IsRegistry sndpkt s window d g);
    others = λ j ne. e.others j ne ∙ others_kept window d j ne;
    own = λ _. e.own (own_removed window d);
  }

  refused_lookup :
      (d : Dispatcher) (j : AckKey)
      → lookup j (refused_attempt s d).ack_listeners
        ≡ (if key_of s == j then none else lookup j d.ack_listeners)
  unfolding refused_attempt unregister_ack_waiter register_ack_waiter
  refused_lookup d j = ground (
    arith,
    lookup-erase (key_of s) j (register_ack_waiter s.dest_addr s.curr_seq d).ack_listeners,
    lookup-insert (key_of s) j (new_event d) d.ack_listeners,
  )

  refused_sent : (d : Dispatcher) → (refused_attempt s d).sent ≡ d.sent
  unfolding refused_attempt unregister_ack_waiter register_ack_waiter
  refused_sent d = refl

  refused-IsRegistry : (d : Dispatcher) → IsRegistry d → IsRegistry (refused_attempt s d)
  unfolding refused_attempt
  refused-IsRegistry d r =
      unregister-IsRegistry s.dest_addr s.curr_seq (register_ack_waiter s.dest_addr s.curr_seq d)
        (register-IsRegistry s.dest_addr s.curr_seq d r)

  refused-Ended :
      (left : ℕ) (d : Dispatcher) → Ended sndpkt s d (suc left) (os_error, s, refused_attempt s d)
  refused-Ended left d = record {
    made = 0;
    made_bound = omega arith;
    sent = (unfold copies in (refused_sent d ∙ sym (append-nil d.sent)));
    outcome = (omega arith, refl);
    registry = refused-IsRegistry d;
    others = λ j ne. ground (arith, refused_lookup d j, key_eq.beq_iff (key_of s) j);
    own = λ _. ground (arith, refused_lookup d (key_of s), beq_refl {A = AckKey} (key_of s));
  }

  Ended-if :
      (left : ℕ) (d : Dispatcher) (done : Bool) (q r : Sent × Sender × Dispatcher)
      → Ended sndpkt s d (suc left) q
      → Ended sndpkt s d (suc left) r
      → Ended sndpkt s d (suc left) (if done then q else r)
  Ended-if left d true q r e f = e
  Ended-if left d false q r e f = f

  pub send_loop-Ended :
      (left : ℕ) (d : Dispatcher) → Ended sndpkt s d left (send_loop left sndpkt arrivals s d)
  unfolding send_loop
  send_loop-Ended zero d = record {
    made = 0;
    made_bound = omega arith;
    sent = (unfold copies in sym (append-nil d.sent));
    outcome = (refl, refl);
    registry = λ r. r;
    others = λ j ne. refl;
    own = λ h. h;
  }
  send_loop-Ended (suc left) d = go (arrivals (max_retries - suc left)) (send_loop-Ended left)
    where
      go :
          (o : Option (List Arrival))
          → ((d' : Dispatcher) → Ended sndpkt s d' left (send_loop left sndpkt arrivals s d'))
          → Ended sndpkt s d (suc left) (elim o [
            | none ↦ (os_error, s, refused_attempt s d)
            | some window ↦
                if (attempt sndpkt s window d).0
                then (acked, record s { curr_seq = 1 - s.curr_seq }, (attempt sndpkt s window d).1)
                else send_loop left sndpkt arrivals s (attempt sndpkt s window d).1
          ])
      go none later = refused-Ended left d
      go (some window) later =
          let after = (attempt sndpkt s window d).1 in
          Ended-if left d (attempt sndpkt s window d).0
            (acked, record s { curr_seq = 1 - s.curr_seq }, after)
            (send_loop left sndpkt arrivals s after) (first_attempt left d window)
            (later_attempt left d window (send_loop left sndpkt arrivals s after) (later after))
