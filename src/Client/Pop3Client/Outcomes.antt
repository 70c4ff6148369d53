-- ===== src/Client/Pop3Client/Outcomes.antt =====
-- What `retr` and `get_all_messages` of pop3_client.py make of what they hear.
use rdt_mail_service.Prelude.{
  ℕ, suc, ◌≡◌, refl, ◌⊎◌, inl, inr, Bool, true, false, List, [], ◌∷◌, ◌++◌, Bool-cases, nat_eq,
  ◌==◌, beq_refl, if◌then◌else◌,
}
use rdt_mail_service.Prelude.Text.{Text, text_eq, codes, cr, lf, strip, starts_with}
use rdt_mail_service.Rdt.Sender.{Sent, acked, connection_error, struct_error, os_error}
use rdt_mail_service.Pop3.Numbers.{ℤ, show_int}
use rdt_mail_service.Client.Wire.{
  Wire, Failure, Result, returned, raised, waiting, Client, Action, ◌>>=◌, ◌>>◌, return, then_do,
  say, sent_as, ascii, hear_text, send_command, is_ascii, ignore,
}
use rdt_mail_service.Client.Answers.{
  answers_wire, Gives, bind-Gives, seq-Gives, return-Gives, send_command-Gives, hear_text-Gives,
}
use rdt_mail_service.Client.Pop3Client.Lines.{wire_text}
use rdt_mail_service.Client.Pop3Client.Listing.{heard-Gives, dot_heard}
use rdt_mail_service.Client.Pop3Client.{
  accepted, expect_ok, any_reply, read_line, read_until_dot, join_lines, retr, quit, quit_if, close,
  fetch, rescue, finally, quitted, get_all_messages,
}

-- How `get_all_messages` ends, from how its `try` ends. It returns: there is no connection, and if
-- there was one, the dispatcher was stopped last and the socket was closed; if there was none,
-- nothing was done. It raises: there was a connection, and sending the QUIT raised that.
abbrev pub Fetched : {S : Type 0} → Wire S → Client S → Result (List Text) × Client S → Type 0
Fetched {S = S} w tried (returned emails, c) =
    (c.is_connected ≡ false)
    × (((tried.is_connected ≡ true) × (c.closed ≡ true) × (s : S) × (c.wire ≡ w.shut s))
        ⊎ ((tried.is_connected ≡ false) × (c ≡ tried)))
Fetched w tried (raised e, c) =
    (tried.is_connected ≡ true)
    × ((e ≡ Failure.connection_failure)
        ⊎ (e ≡ Failure.struct_failure)
        ⊎ (e ≡ Failure.socket_failure))
Fetched w tried (waiting, c) = Unit

-- The same of the part of `quit` that is made if there is a connection.
abbrev Quitted : {S : Type 0} → Wire S → Result (Unit {0}) × Client S → Type 0
Quitted {S = S} w (returned u, c) =
    (c.is_connected ≡ false) × (c.closed ≡ true) × (s : S) × (c.wire ≡ w.shut s)
Quitted w (raised e, c) =
    (e ≡ Failure.connection_failure) ⊎ (e ≡ Failure.struct_failure) ⊎ (e ≡ Failure.socket_failure)
Quitted w (waiting, c) = Unit

module _ {S : Type 0} (w : Wire S) where
  closed_after :
      {A : Type 0} (r : Result A × Client S) → Quitted w (then_do (λ _. close w) (ignore r))
  closed_after (returned a, c) = (refl, refl, c.wire, refl)
  closed_after (raised e, c) = (refl, refl, c.wire, refl)
  closed_after (waiting, c) = tt

  said_then :
      (c : Client S) (bytes : Text) (r : Sent × S)
      → Quitted w (then_do (λ _. (do any_reply w; close w)) (sent_as c bytes r))
  said_then c bytes (acked, s) = closed_after (hear_text w _)
  said_then c bytes (connection_error, s) = inl refl
  said_then c bytes (struct_error, s) = inr (inl refl)
  said_then c bytes (os_error, s) = inr (inr refl)

  quit_if-Quitted : (c : Client S) → Quitted w (quit_if w true c)
  unfolding send_command ascii is_ascii say
  quit_if-Quitted c =
      said_then c (codes "QUIT" ++ cr ∷ lf ∷ [])
        (w.send_bytes (codes "QUIT" ++ cr ∷ lf ∷ []) c.wire)

  quitted-Fetched :
      (emails : List Text) (tried : Client S) (r : Result (Unit {0}) × Client S)
      → tried.is_connected ≡ true
      → Quitted w r
      → Fetched w tried (quitted w emails r)
  quitted-Fetched emails tried (returned u, c) t (n, k, s, e) = (n, inl (t, k, s, e))
  quitted-Fetched emails tried (raised e, c) t h = (t, h)
  quitted-Fetched emails tried (waiting, c) t h = tt

  quit_if-Fetched :
      (b : Bool) (emails : List Text) (c : Client S)
      → c.is_connected ≡ b
      → Fetched w c (quitted w emails (quit_if w b c))
  quit_if-Fetched true emails c h =
      quitted-Fetched emails c (quit_if w true c) h (quit_if-Quitted c)
  quit_if-Fetched false emails c h = (h, inr (h, refl))

  finally-Fetched : (r : Result (List Text) × Client S) → Fetched w r.1 (finally w (rescue w r))
  unfolding quit
  finally-Fetched (returned emails, c) = quit_if-Fetched c.is_connected emails c refl
  finally-Fetched (raised e, c) = quit_if-Fetched c.is_connected [] c refl
  finally-Fetched (waiting, c) = tt

  -- Whatever the server answers, `get_all_messages` ends as follows, by the client that its `try`
  -- leaves. If it returns, the client is not connected: if it was, the dispatcher has been stopped
  -- as the last use of the wire and the socket closed, and if it was not, nothing more was done. If
  -- it raises, the client was connected, and sending the QUIT in `finally` has raised that.
  pub get_all_messages-Fetched :
      (rounds : ℕ) (username password : Text) (c : Client S)
      → Fetched w
          (fetch w rounds username password c).1
          (get_all_messages w rounds username password c)
  unfolding get_all_messages
  get_all_messages-Fetched rounds username password c =
      finally-Fetched (fetch w rounds username password c)

-- The content of a message, in the datagram after the first reply to RETR, and the dot.
module _ (rounds : ℕ) (n : ℤ) (head content : Text) (xs : List Text)
    (asked : is_ascii (codes "RETR " ++ show_int n ++ cr ∷ lf ∷ []) ≡ true)
    (head_ascii : is_ascii head ≡ true) (ok : starts_with (strip head) (codes "+OK") ≡ true)
    (content_ascii : is_ascii content ≡ true) where
  abbrev dot : Text
  dot = wire_text (codes ".")

  abbrev keep : Text → Action (List Text) Text
  keep line = return line

  accepted-Gives :
      (ys : List Text) → Gives ys ys tt (accepted Failure.client_protocol_error (strip head))
  unfolding accepted
  accepted-Gives ys c e = (c, rw ok refl, e)

  read_dot-Gives : (r : ℕ) → Gives (dot ∷ xs) xs [] (read_until_dot answers_wire (suc r) keep)
  unfolding read_until_dot
  read_dot-Gives r =
      bind-Gives (dot ∷ xs) xs xs (codes ".") [] (hear_text answers_wire)
        (read_line keep (read_until_dot answers_wire r keep)) (heard-Gives (codes ".") xs dot_heard)
        (rw (beq_refl {A = Text} (codes ".")) (return-Gives xs []))

  module _ (after : List Text) (lines : List Text)
      (read : Gives
        (dot ∷ xs)
        after
        lines
        (read_line keep (read_until_dot answers_wire (suc rounds) keep) (strip content))) where
    retr-Gives :
        Gives
          (head ∷ content ∷ dot ∷ xs)
          after
          (join_lines lines)
          (retr answers_wire (suc (suc rounds)) n)
    unfolding retr read_until_dot
    retr-Gives =
        let w = answers_wire in
        let all : List Text = head ∷ content ∷ dot ∷ xs in
        let again : Action (List Text) (List Text) = read_until_dot w (suc rounds) keep in
        let finish : Action (List Text) Text = (do
          ls ← (do line ← hear_text w; read_line keep again line)
          return (join_lines ls)) in
        seq-Gives all all after (join_lines lines) (send_command w (codes "RETR " ++ show_int n))
          (do expect_ok w Failure.client_protocol_error; finish)
          (send_command-Gives (codes "RETR " ++ show_int n) all asked)
          (seq-Gives all (content ∷ dot ∷ xs) after (join_lines lines)
            (expect_ok w Failure.client_protocol_error) finish
            (bind-Gives all (content ∷ dot ∷ xs) (content ∷ dot ∷ xs) (strip head) tt (hear_text w)
              (accepted Failure.client_protocol_error)
              (hear_text-Gives head (content ∷ dot ∷ xs) head_ascii)
              (accepted-Gives (content ∷ dot ∷ xs)))
            (bind-Gives (content ∷ dot ∷ xs) after after lines (join_lines lines)
              (do line ← hear_text w; read_line keep again line)
              (λ (ls : List Text). return (join_lines ls))
              (bind-Gives (content ∷ dot ∷ xs) (dot ∷ xs) after (strip content) lines (hear_text w)
                (read_line keep again) (hear_text-Gives content (dot ∷ xs) content_ascii) read)
              (return-Gives after (join_lines lines))))

  -- The command and the datagrams are ASCII, the first reply starts with "+OK", and two lines at
  -- least are read. Then `retr` returns the content without the white space around it, and leaves
  -- just what follows the closing dot; but of a content that is a single dot between white space,
  -- it returns nothing, and leaves the closing dot for the next command.
  pub retr-content :
      (c : Client (List Text))
      → c.wire ≡ head ∷ content ∷ dot ∷ xs
      → let (r, c') = retr answers_wire (suc (suc rounds)) n c in
        (r ≡ Result.returned (if strip content == codes "." then [] else strip content))
        × (c'.wire ≡ (if strip content == codes "." then dot ∷ xs else xs))
  retr-content c e = elim (Bool-cases (strip content == codes ".")) [
    | inl y ↦
        let (c', r, e') = retr-Gives (dot ∷ xs) [] (rw y (return-Gives (dot ∷ xs) [])) c e in
        rw (y, r) (unfold join_lines in refl, e')
    | inr f ↦
        let (c', r, e') =
          retr-Gives xs (strip content ∷ [])
            (rw f (
              bind-Gives (dot ∷ xs) (dot ∷ xs) xs (strip content) (strip content ∷ [])
                (keep (strip content))
                (λ (line : Text). (do
                  ls ← read_until_dot answers_wire (suc rounds) keep
                  return (line ∷ ls)))
                (return-Gives (dot ∷ xs) (strip content))
                (bind-Gives (dot ∷ xs) xs xs [] (strip content ∷ [])
                  (read_until_dot answers_wire (suc rounds) keep)
                  (λ (ls : List Text). return (strip content ∷ ls)) (read_dot-Gives rounds)
                  (return-Gives xs (strip content ∷ [])))))
            c e in
        rw (f, r) (unfold join_lines in refl, e')
  ]
