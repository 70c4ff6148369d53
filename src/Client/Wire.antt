-- ===== src/Client/Wire.antt =====
-- What smtp_client.py and pop3_client.py have in common: a reliable sender, the generator of a
-- reliable receiver, and calls that raise, as actions on the client. `Wire` is what the clients
-- use of the two; `rdt_wire` makes it of the sender, the receiver and the dispatcher.
use rdt_mail_service.Prelude.{
  ℕ, ◌+◌, Bool, true, false, List, [], ◌∷◌, ◌++◌, Option, none, some, ltb, if◌then◌else◌,
}
use rdt_mail_service.Prelude.Text.{Text, strip, cr, lf}
use rdt_mail_service.Rdt.Dispatcher
use rdt_mail_service.Rdt.Dispatcher.{Addr, Dispatcher, Arrival, init, start, listen_loop}
use rdt_mail_service.Rdt.Sender.{
  Sender, Sent, acked, connection_error, struct_error, os_error, send, new_sender,
}
use rdt_mail_service.Rdt.Receiver.{Receiver, receive_once, new_receiver}

-- What `next` of the generator does: it yields, ends or raises, or it still waits when all that
-- arrives has arrived.
pub data Next : Type 0 where
  yields : Text → Next
  ends waits : Next
  fails : Next

pub record Wire (S : Type 0) : Type 0 where
  -- `self.rdt_sender.send`
  pub send_bytes : Text → S → Sent × S
  -- `next(self.receiver_gen)`
  pub next_bytes : S → Next × S
  -- `self.rdt_receiver.start_receiving()`
  pub restart : S → S
  -- `self.dispatcher.stop()`
  pub shut : S → S

-- The exceptions: of the sender, of a call of the socket, of `encode` and `decode`, of `int`, of an index, and the two of
-- the clients.
pub data Failure : Type 0 where
  connection_failure struct_failure socket_failure unicode_failure value_failure index_failure :
      Failure
  client_connection_error client_protocol_error : Failure

-- How a call ends: it returns, raises, or waits for a datagram that does not come.
pub data Result {ℓ} (A : Type ℓ) : Type ℓ where
  returned : A → Result A
  raised : Failure → Result A
  waiting : Result A

-- What a client has passed to `send`, and what `next` has yielded or not.
pub data Event : Type 0 where
  said heard : Text → Event
  lost : Event

pub record Client (S : Type 0) : Type 0 where
  pub wire : S
  pub is_connected : Bool
  pub closed : Bool
  -- all that was said and heard, the oldest first
  pub log : List Event

abbrev pub Action : Type 0 → Type 0 → Type 0
Action S A = Client S → Result A × Client S

abbrev pub then_do : {S A B : Type 0} → (A → Action S B) → Result A × Client S → Result B × Client S
then_do f (returned a, c) = f a c
then_do f (raised e, c) = (raised e, c)
then_do f (waiting, c) = (waiting, c)

infixl 5 ◌>>=◌ ◌>>◌
abbrev pub ◌>>=◌ : {S A B : Type 0} → Action S A → (A → Action S B) → Action S B
◌>>=◌ m f c = then_do f (m c)

abbrev pub ◌>>◌ : {S B : Type 0} → Action S (Unit {0}) → Action S B → Action S B
◌>>◌ m k c = then_do (λ _. k) (m c)

abbrev pub return : {S A : Type 0} → A → Action S A
return a c = (returned a, c)

abbrev pub raise : {S A : Type 0} → Failure → Action S A
raise e c = (raised e, c)

-- An `except` that does no more than log the error.
abbrev pub ignore : {S A : Type 0} → Result A × Client S → Result (Unit {0}) × Client S
ignore (raised e, c) = (returned tt, c)
ignore (returned a, c) = (returned tt, c)
ignore (waiting, c) = (waiting, c)

abbrev pub sent_as : {S : Type 0} → Client S → Text → Sent × S → Result (Unit {0}) × Client S
sent_as c bytes (outcome, s) =
    let c' = record c { wire = s; log = c.log ++ said bytes ∷ [] } in
    elim outcome [
      | acked ↦ (returned tt, c')
      | connection_error ↦ (raised connection_failure, c')
      | struct_error ↦ (raised struct_failure, c')
      | os_error ↦ (raised socket_failure, c')
    ]

-- `self.rdt_sender.send(bytes)`
unfoldable pub say : {S : Type 0} → Wire S → Text → Action S (Unit {0})
say w bytes c = sent_as c bytes (w.send_bytes bytes c.wire)

abbrev pub heard_as : {S : Type 0} → Client S → Next × S → Result Text × Client S
heard_as c (yields bytes, s) =
    (returned bytes, record c { wire = s; log = c.log ++ heard bytes ∷ [] })
heard_as c (ends, s) =
    (raised client_connection_error, record c { wire = s; log = c.log ++ lost ∷ [] })
heard_as c (fails, s) = (raised struct_failure, record c { wire = s; log = c.log ++ lost ∷ [] })
heard_as c (waits, s) = (waiting, record c { wire = s })

-- `next(self.receiver_gen)`, with `StopIteration` as the clients raise it again.
unfoldable pub hear : {S : Type 0} → Wire S → Action S Text
hear w c = heard_as c (w.next_bytes c.wire)

-- All codes are ASCII.
unfoldable pub is_ascii : Text → Bool
is_ascii [] = true
is_ascii (c ∷ s) = if ltb c 128 then is_ascii s else false

-- `encode("ascii")` and `decode("ascii")`
unfoldable pub ascii : {S : Type 0} → Text → Action S Text
ascii s = if is_ascii s then return s else raise unicode_failure

-- `_send_command` of both clients
unfoldable pub send_command : {S : Type 0} → Wire S → Text → Action S (Unit {0})
send_command w cmd = do bytes ← ascii (cmd ++ cr ∷ lf ∷ []); say w bytes

-- `data_bytes.decode("ascii").strip()` of what comes next
unfoldable pub hear_text : {S : Type 0} → Wire S → Action S Text
hear_text w = do bytes ← hear w; text ← ascii bytes; return (strip text)

-- A sender and a receiver over one dispatcher. `sends` and `waits_made` count the calls, and
-- `generating` is lost by a generator that has raised.
pub record Link : Type 0 where
  pub sender : Sender
  pub receiver : Receiver
  pub dispatcher : Dispatcher
  pub sends : ℕ
  pub waits_made : ℕ
  pub generating : Bool

unfoldable pub new_link : Addr → Link
unfolding start new_sender new_receiver
new_link server =
    let (s, d) = new_sender server (start init) in
    let (r, d') = new_receiver d in
    record {
      sender = s;
      receiver = r;
      dispatcher = d';
      sends = 0;
      waits_made = 0;
      generating = true;
    }

abbrev went_on :
    Link
    → Option (Receiver × Dispatcher × Option (Text × Addr))
    → (Link → Next × Link)
    → Next × Link
went_on l none again = (fails, record l { generating = false })
went_on l (some (r, d, none)) again = again (record l { receiver = r; dispatcher = d })
went_on l (some (r, d, some (bytes, addr))) again =
    (yields bytes, record l { receiver = r; dispatcher = d })

-- The rounds of the generator until it yields, by what the dispatcher's thread receives in each.
unfoldable pub next_yield : List (List Arrival) → Link → Next × Link
unfolding receive_once listen_loop
next_yield [] l = (waits, l)
next_yield (arrivals ∷ rounds) l =
    if l.receiver.running
    then went_on l (receive_once l.receiver (listen_loop arrivals l.dispatcher))
        (λ (l' : Link). next_yield rounds l')
    else (ends, record l { generating = false })

-- What the dispatcher's thread receives: in the n-th attempt of the m-th `send`
-- (`none` if `sendto` raises in it), and in the rounds
-- of the m-th `next`.
unfoldable pub rdt_wire : (ℕ → ℕ → Option (List Arrival)) → (ℕ → List (List Arrival)) → Wire Link
unfolding send next_yield Dispatcher.stop
rdt_wire acks rounds = record {
  send_bytes = λ (bytes : Text) (l : Link).
      (let (outcome, s, d) = send bytes (acks l.sends) l.sender l.dispatcher in
        (outcome, record l { sender = s; dispatcher = d; sends = l.sends + 1 }));
  next_bytes = λ (l : Link).
      (let l' = record l { waits_made = l.waits_made + 1 } in
        if l.generating then next_yield (rounds l.waits_made) l' else (ends, l'));
  restart = λ (l : Link). record l { generating = true };
  shut = λ (l : Link). record l { dispatcher = Dispatcher.stop l.dispatcher };
}
