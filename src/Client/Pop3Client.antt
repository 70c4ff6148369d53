-- ===== src/Client/Pop3Client.antt =====
-- email-network-service/src/pop3/pop3_client.py. A loop that reads lines has a number of rounds:
-- when they are used up, it still runs, which is `waiting`.
pub mod Lines
pub mod Listing
pub mod Roundtrip
pub mod Outcomes
mod Tests
use rdt_mail_service.Prelude.{
  ℕ, zero, suc, ◌+◌, Bool, true, false, List, [], ◌∷◌, ◌++◌, Option, none, some, ◌==◌, nat_eq,
  get_elem?, if◌then◌else◌,
}
use rdt_mail_service.Prelude.Text.{Text, text_eq, codes, starts_with, split, lf}
use rdt_mail_service.Pop3.Numbers.{ℤ, pos, negsuc, parse_int, show_int}
use rdt_mail_service.Client.Wire.{
  Wire, Failure, client_connection_error, client_protocol_error, value_failure, index_failure,
  Result, returned, raised, waiting, Client, Action, ◌>>=◌, ◌>>◌, return, raise, then_do, say,
  hear_text, send_command, ignore,
}

-- A reply that starts with "+OK", or the exception.
unfoldable pub accepted : {S : Type 0} → Failure → Text → Action S (Unit {0})
accepted e reply = if starts_with reply (codes "+OK") then return tt else raise e

abbrev pub or_value_error : {S : Type 0} → Option ℤ → Action S ℤ
or_value_error none = raise value_failure
or_value_error (some n) = return n

-- `int(parts[i])`
abbrev pub int_of : {S : Type 0} → Option Text → Action S ℤ
int_of none = raise index_failure
int_of (some part) = or_value_error (parse_int part)

unfoldable pub int_at : {S : Type 0} → List Text → ℕ → Action S ℤ
int_at parts i = int_of (get_elem? parts i)

-- Two of the words of a line, as numbers.
unfoldable pub two_ints : {S : Type 0} → ℕ → ℕ → Text → Action S (ℤ × ℤ)
two_ints i j line = do m ← int_at (split line) i; n ← int_at (split line) j; return (m, n)

-- `"\n".join(lines)`
unfoldable pub join_lines : List Text → Text
join_lines [] = []
join_lines (line ∷ []) = line
join_lines (line ∷ next ∷ lines) = line ++ lf ∷ join_lines (next ∷ lines)

-- A line is the last one, or it is read, and so are the lines after it.
abbrev pub read_line :
    {S A : Type 0} → (Text → Action S A) → Action S (List A) → Text → Action S (List A)
read_line f later line =
    if line == codes "."
    then return []
    else (do item ← f line; items ← later; return (item ∷ items))

module _ {S : Type 0} (w : Wire S) where
  -- `if not self._get_reply().startswith("+OK"): raise ...`
  abbrev pub expect_ok : Failure → Action S (Unit {0})
  expect_ok e = do reply ← hear_text w; accepted e reply

  abbrev renew : Action S (Unit {0})
  renew c = (returned tt, record c { wire = w.restart c.wire })

  abbrev mark_connected : Action S (Unit {0})
  mark_connected c = (returned tt, record c { is_connected = true })

  unfoldable pub connect : Action S (Unit {0})
  connect = do renew; say w []; expect_ok client_connection_error; mark_connected

  unfoldable pub authenticate : Text → Text → Action S (Unit {0})
  authenticate user password = do
    send_command w (codes "USER " ++ user)
    expect_ok client_protocol_error
    send_command w (codes "PASS " ++ password)
    expect_ok client_protocol_error

  unfoldable pub stat : Action S (ℤ × ℤ)
  stat = do
    send_command w (codes "STAT")
    reply ← hear_text w
    accepted client_protocol_error reply
    two_ints 1 2 reply

  -- `while True`: what each line is read as, up to a line that is ".".
  unfoldable pub read_until_dot : {A : Type 0} → ℕ → (Text → Action S A) → Action S (List A)
  read_until_dot zero f = λ (c : Client S). (waiting, c)
  read_until_dot (suc rounds) f = do line ← hear_text w; read_line f (read_until_dot rounds f) line

  unfoldable pub list : ℕ → Action S (List (ℤ × ℤ))
  list rounds = do
    send_command w (codes "LIST")
    expect_ok client_protocol_error
    read_until_dot rounds (two_ints 0 1)

  unfoldable pub retr : ℕ → ℤ → Action S Text
  retr rounds msg_num = do
    send_command w (codes "RETR " ++ show_int msg_num)
    expect_ok client_protocol_error
    lines ← read_until_dot rounds (λ (line : Text). return line)
    return (join_lines lines)

  unfoldable pub dele : ℤ → Action S (Unit {0})
  dele msg_num = do
    send_command w (codes "DELE " ++ show_int msg_num)
    expect_ok client_protocol_error

  -- `_close`
  abbrev pub close : Action S (Unit {0})
  close c = (returned tt, record c { wire = w.shut c.wire; is_connected = false; closed = true })

  abbrev pub any_reply : Action S (Unit {0})
  any_reply c = ignore (hear_text w c)

  abbrev pub quit_if : Bool → Action S (Unit {0})
  quit_if false = return tt
  quit_if true = do send_command w (codes "QUIT"); any_reply; close

  unfoldable pub quit : Action S (Unit {0})
  quit c = quit_if c.is_connected c

  -- `for msg_num, _ in messages_info`
  unfoldable pub take_messages : ℕ → List (ℤ × ℤ) → Action S (List Text)
  take_messages rounds [] = return []
  take_messages rounds ((msg_num, size) ∷ rest) = do
    content ← retr rounds msg_num
    dele msg_num
    emails ← take_messages rounds rest
    return (content ∷ emails)

  abbrev fetch_if : ℕ → ℤ → Action S (List Text)
  fetch_if rounds (pos zero) = return []
  fetch_if rounds total_size = do messages_info ← list rounds; take_messages rounds messages_info

  unfoldable pub fetch : ℕ → Text → Text → Action S (List Text)
  fetch rounds username password = do
    connect
    authenticate username password
    (count, total_size) ← stat
    fetch_if rounds total_size

  -- `except Exception`: the answer is then [].
  abbrev pub rescue : Result (List Text) × Client S → Result (List Text) × Client S
  rescue (returned emails, c) = (returned emails, c)
  rescue (raised e, c) = (returned [], c)
  rescue (waiting, c) = (waiting, c)

  abbrev quitted : List Text → Result (Unit {0}) × Client S → Result (List Text) × Client S
  quitted emails (returned u, c) = (returned emails, c)
  quitted emails (raised e, c) = (raised e, c)
  quitted emails (waiting, c) = (waiting, c)

  -- `finally: self.quit()`; an exception of `quit` takes the place of the answer.
  abbrev pub finally : Result (List Text) × Client S → Result (List Text) × Client S
  finally (returned emails, c) = quitted emails (quit c)
  finally (raised e, c) = (raised e, c)
  finally (waiting, c) = (waiting, c)

  unfoldable pub get_all_messages : ℕ → Text → Text → Action S (List Text)
  get_all_messages rounds username password c = finally (rescue (fetch rounds username password c))
