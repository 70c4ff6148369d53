-- ===== src/Client/SmtpClient.antt =====
-- email-network-service/src/smtp/smtp_client.py: one email as a whole SMTP transaction.
-- What `log_*` writes is left out, with the message of an exception.
pub mod Replies
pub mod Pieces
pub mod Transcript
pub mod Open
pub mod Outcomes
pub mod Passing
pub mod Success
pub mod Delivery
use rdt_mail_service.Prelude.{
  ℕ, zero, suc, ◌+◌, Bool, true, false, [], ◌∷◌, ◌++◌, Option, none, some, ltb, ◌==◌, nat_eq,
  length, take, drop, if◌then◌else◌,
}
use rdt_mail_service.Prelude.Text.{Text, codes, strip, cr, lf}
use rdt_mail_service.Pop3.Numbers.{ℤ, pos, negsuc, parse_int}
use rdt_mail_service.Client.Wire.{
  Wire, Failure, client_connection_error, client_protocol_error, value_failure, Result, returned,
  raised, waiting, Client, Action, ◌>>=◌, ◌>>◌, return, raise, then_do, say, hear_text,
  send_command, ascii, ignore,
}

abbrev pub smtp_ready : ℕ
smtp_ready = 220

abbrev pub smtp_ok : ℕ
smtp_ok = 250

abbrev pub smtp_start_input : ℕ
smtp_start_input = 354

abbrev pub max_payload_size : ℕ
max_payload_size = 1024

-- `int(reply[:3])`, with `reply[4:]`, once the reply has three characters.
abbrev coded : Option ℤ → Text → Option (ℤ × Text)
coded none reply = none
coded (some code) reply = some (code, drop 4 reply)

unfoldable pub parse_reply : Text → Option (ℤ × Text)
unfolding parse_int strip
parse_reply reply = coded (parse_int (strip (take 3 reply))) reply

-- A code that is the one that is wanted.
abbrev pub is_code : ℕ → ℤ → Bool
is_code n (pos m) = m == n
is_code n (negsuc m) = false

abbrev or_value_error : {S : Type 0} → Option (ℤ × Text) → Action S (ℤ × Text)
or_value_error none = raise value_failure
or_value_error (some r) = return r

unfoldable pub parsed : {S : Type 0} → Text → Action S (ℤ × Text)
parsed reply =
    if ltb (length reply) 3 then raise client_protocol_error else or_value_error (parse_reply reply)

-- `except Exception as e: raise SMTPConnectionError`
abbrev pub reraise : {S A : Type 0} → Failure → Result A × Client S → Result A × Client S
reraise e (raised e', c) = (raised e, c)
reraise e (returned a, c) = (returned a, c)
reraise e (waiting, c) = (waiting, c)

-- `f"Subject: {subject}\r\n\r\n{body}\r\n.\r\n"`
abbrev pub message_text : Text → Text → Text
message_text subject body = codes "Subject: " ++ subject ++ cr ∷ lf ∷ cr ∷ lf ∷ body

abbrev pub terminator : Text
terminator = cr ∷ lf ∷ b'.' ∷ cr ∷ lf ∷ []

abbrev answer_false : {S : Type 0} → Result (Unit {0}) × Client S → Result Bool × Client S
answer_false (returned u, c) = (returned false, c)
answer_false (raised e, c) = (returned false, c)
answer_false (waiting, c) = (waiting, c)

module _ {S : Type 0} (w : Wire S) where
  unfoldable pub get_reply : Action S (ℤ × Text)
  get_reply = do reply ← hear_text w; parsed reply

  -- A reply with that code, or the exception.
  abbrev pub expect : ℕ → Failure → Action S (Unit {0})
  expect code e = do (got, msg) ← get_reply; if is_code code got then return tt else raise e

  abbrev mark_connected : Action S (Unit {0})
  mark_connected c = (returned tt, record c { is_connected = true })

  abbrev renew : Action S (Unit {0})
  renew c = (returned tt, record c { wire = w.restart c.wire })

  abbrev pub welcome : Action S (Unit {0})
  welcome c = reraise client_connection_error (expect smtp_ready client_connection_error c)

  abbrev pub any_reply : Action S (Unit {0})
  any_reply c = ignore (get_reply c)

  unfoldable pub connect : Action S (Unit {0})
  connect = do renew; send_command w (codes "NOOP"); welcome; any_reply; mark_connected

  unfoldable pub do_handshake : Action S (Unit {0})
  do_handshake = do send_command w (codes "HELO localhost"); expect smtp_ok client_protocol_error

  unfoldable pub send_mail_from : Text → Action S (Unit {0})
  send_mail_from sender = do
    send_command w (codes "MAIL FROM:<" ++ sender ++ codes ">")
    expect smtp_ok client_protocol_error

  unfoldable pub send_rcpt_to : Text → Action S (Unit {0})
  send_rcpt_to recipient = do
    send_command w (codes "RCPT TO:<" ++ recipient ++ codes ">")
    expect smtp_ok client_protocol_error

  -- `while sent < total_len`, for at most a number of rounds.
  unfoldable pub send_chunks : ℕ → ℕ → Text → Action S (Unit {0})
  send_chunks zero sent payload_bytes = return tt
  send_chunks (suc rounds) sent payload_bytes =
      let chunk = take max_payload_size (drop sent payload_bytes) in
      if ltb sent (length payload_bytes)
      then (do say w chunk; send_chunks rounds (sent + length chunk) payload_bytes)
      else return tt

  unfoldable pub send_data : Text → Text → Action S (Unit {0})
  send_data subject body = do
    send_command w (codes "DATA")
    expect smtp_start_input client_protocol_error
    payload_bytes ← ascii (message_text subject body ++ terminator)
    send_chunks (suc (length payload_bytes)) 0 payload_bytes
    expect smtp_ok client_protocol_error

  unfoldable pub send_quit : Action S (Unit {0})
  send_quit = do send_command w (codes "QUIT"); any_reply

  unfoldable pub transaction : Text → Text → Text → Text → Action S Bool
  transaction sender recipient subject body = do
    connect
    do_handshake
    send_mail_from sender
    send_rcpt_to recipient
    send_data subject body
    send_quit
    return true

  -- `if self.is_connected`: a last QUIT.
  abbrev pub clean_up : Bool → Client S → Result Bool × Client S
  clean_up true c = answer_false (send_command w (codes "QUIT") c)
  clean_up false c = (returned false, c)

  -- `except Exception`
  abbrev pub rescue : Result Bool × Client S → Result Bool × Client S
  rescue (returned b, c) = (returned b, c)
  rescue (waiting, c) = (waiting, c)
  rescue (raised e, c) = clean_up c.is_connected c

  -- `_close`: the dispatcher is stopped; then `getsockname` raises if the socket is closed already.
  abbrev pub close : Client S → Result (Unit {0}) × Client S
  close c =
      let stopped = record c { wire = w.shut c.wire } in
      if c.closed
      then (raised Failure.socket_failure, stopped)
      else (returned tt, record stopped { closed = true })

  -- An exception of `_close`, which is in `finally`, takes the place of the result.
  abbrev pub after_close : Result Bool → Result (Unit {0}) × Client S → Result Bool × Client S
  after_close r (returned u, c) = (r, c)
  after_close r (raised e, c) = (raised e, c)
  after_close r (waiting, c) = (waiting, c)

  abbrev pub finally : Result Bool × Client S → Result Bool × Client S
  finally (returned b, c) = after_close (returned b) (close c)
  finally (raised e, c) = after_close (raised e) (close c)
  finally (waiting, c) = (waiting, c)

  unfoldable pub send_email : Text → Text → Text → Text → Action S Bool
  send_email sender recipient subject body c =
      finally (rescue (transaction sender recipient subject body c))
