-- ===== src/Client/SmtpClient/Success.antt =====
-- That `send_email` of smtp_client.py succeeds when the server and the network do.
use rdt_mail_service.Prelude.{
  suc, ◌≡◌, refl, Bool, true, false, ◌∙◌, List, [], ◌∷◌, ◌++◌, length, nat_eq,
}
use rdt_mail_service.Prelude.Text.{Text, codes, cr, lf}
use rdt_mail_service.Client.Wire.{
  Wire, Failure, Result, returned, raised, waiting, Client, Action, send_command, ◌>>=◌, ◌>>◌,
  then_do, return, ascii, is_ascii,
}
use rdt_mail_service.Client.Answers.{answers_wire, is_ascii-append}
use rdt_mail_service.Client.Conversation.{Answer}
use rdt_mail_service.Client.SmtpClient.{
  expect, send_chunks, connect, do_handshake, send_mail_from, send_rcpt_to, message_text,
  terminator, send_data, send_quit, transaction, send_email, smtp_ready, smtp_ok, smtp_start_input,
  any_reply, welcome, mark_connected, rescue, finally,
}
use rdt_mail_service.Client.SmtpClient.Replies.{HasCode}
use rdt_mail_service.Client.SmtpClient.Open.{transaction-Steady}
use rdt_mail_service.Client.SmtpClient.Passing.{
  Passes, seq-Passes, send_command-Passes, send_chunks-Passes, expect-Passes, any_reply-Passes,
  asked-Passes, ascii-Passes,
}

-- The answers that a transaction takes.
pub record Answers (welcome noop helo mail rcpt start done : Text) : Type 0 where
  pub ready : Answer (HasCode smtp_ready) welcome
  pub helo_ok : Answer (HasCode smtp_ok) helo
  pub mail_ok : Answer (HasCode smtp_ok) mail
  pub rcpt_ok : Answer (HasCode smtp_ok) rcpt
  pub may_start : Answer (HasCode smtp_start_input) start
  pub done_ok : Answer (HasCode smtp_ok) done

bracketed_ascii :
    (before address : Text)
    → is_ascii before ≡ true
    → is_ascii address ≡ true
    → is_ascii ((before ++ address ++ codes ">") ++ cr ∷ lf ∷ []) ≡ true
bracketed_ascii before address h k =
    is_ascii-append (before ++ address ++ codes ">") (cr ∷ lf ∷ [])
      (is_ascii-append (before ++ address) (codes ">") (is_ascii-append before address h k)
        (unfold is_ascii in refl))
      (unfold is_ascii in refl)

message_ascii :
    (subject body : Text)
    → is_ascii subject ≡ true
    → is_ascii body ≡ true
    → is_ascii (message_text subject body ++ terminator) ≡ true
message_ascii subject body h k =
    is_ascii-append (message_text subject body) terminator
      (is_ascii-append (codes "Subject: ") (subject ++ cr ∷ lf ∷ cr ∷ lf ∷ body)
        (unfold is_ascii in refl)
        (is_ascii-append subject (cr ∷ lf ∷ cr ∷ lf ∷ body) h
          (is_ascii-append (cr ∷ lf ∷ cr ∷ lf ∷ []) body (unfold is_ascii in refl) k)))
      (unfold is_ascii in refl)

connect-Passes :
    (welcome_answer noop_answer : Text) (xs : List Text)
    → Answer (HasCode smtp_ready) welcome_answer
    → Passes (welcome_answer ∷ noop_answer ∷ xs) xs (connect answers_wire)
unfolding connect
connect-Passes welcome_answer noop_answer xs a c e =
    let w : Wire (List Text) = answers_wire in
    seq-Passes (welcome_answer ∷ noop_answer ∷ xs) (welcome_answer ∷ noop_answer ∷ xs) xs
      (send_command w (codes "NOOP")) (do welcome w; any_reply w; mark_connected w)
      (send_command-Passes (codes "NOOP") (welcome_answer ∷ noop_answer ∷ xs)
        (unfold is_ascii in refl))
      (seq-Passes (welcome_answer ∷ noop_answer ∷ xs) (noop_answer ∷ xs) xs (welcome w)
        (do any_reply w; mark_connected w)
        (λ c' e'.
          let (u, c'', r, e'') =
            expect-Passes smtp_ready Failure.client_connection_error welcome_answer
              (noop_answer ∷ xs) a c' e' in
          (tt, c'', rw r refl, e''))
        (seq-Passes (noop_answer ∷ xs) xs xs (any_reply w) (mark_connected w)
          (any_reply-Passes noop_answer xs)
          (λ c' e'. (tt, record c' { is_connected = true }, refl, e'))))
      c e

-- A transaction that returns, returns True.
abbrev OnlyTrue : {S : Type 0} → Result Bool × Client S → Type 0
OnlyTrue (returned b, c) = b ≡ true
OnlyTrue (raised e, c) = Unit
OnlyTrue (waiting, c) = Unit

then-OnlyTrue :
    {S A : Type 0} (f : A → Action S Bool) (r : Result A × Client S)
    → ((a : A) (c : Client S) → OnlyTrue (f a c))
    → OnlyTrue (then_do f r)
then-OnlyTrue f (returned a, c) h = h a c
then-OnlyTrue f (raised e, c) h = tt
then-OnlyTrue f (waiting, c) h = tt

transaction-OnlyTrue :
    {S : Type 0} (w : Wire S) (sender recipient subject body : Text) (c : Client S)
    → OnlyTrue (transaction w sender recipient subject body c)
unfolding transaction
transaction-OnlyTrue w sender recipient subject body c0 = then-OnlyTrue _ (connect w c0) (λ _ c1.
    then-OnlyTrue _ (do_handshake w c1) (λ _ c2.
      then-OnlyTrue _ (send_mail_from w sender c2) (λ _ c3.
        then-OnlyTrue _ (send_rcpt_to w recipient c3) (λ _ c4.
          then-OnlyTrue _ (send_data w subject body c4)
            (λ _ c5. then-OnlyTrue _ (send_quit w c5) (λ _ c6. refl))))))

returned_true :
    {S : Type 0} (w : Wire S) (b : Bool) (c : Client S) (r : Result Bool × Client S)
    → OnlyTrue r
    → r ≡ (Result.returned b, c)
    → r.1.closed ≡ false
    → (finally w (rescue w r)).0 ≡ Result.returned true
returned_true w b c (returned b', c') h e k = rw (k, h) refl
returned_true w b c (raised x, c') h e k = cc
returned_true w b c (waiting, c') h e k = cc

module _ (welcome_answer noop helo mail rcpt start done bye : Text)
    (sender recipient subject body : Text)
    (a : Answers welcome_answer noop helo mail rcpt start done) where
  send_data-Passes :
      is_ascii subject ≡ true
      → is_ascii body ≡ true
      → Passes (start ∷ done ∷ bye ∷ []) (bye ∷ []) (send_data answers_wire subject body)
  unfolding send_data
  send_data-Passes h k =
      let w : Wire (List Text) = answers_wire in
      let bytes : Text = message_text subject body ++ terminator in
      let finish : Action (List Text) (Unit {0}) = expect w smtp_ok Failure.client_protocol_error in
      let send : Text → Action (List Text) (Unit {0}) =
        λ t. (do send_chunks w (suc (length t)) 0 t; finish) in
      seq-Passes (start ∷ done ∷ bye ∷ []) (start ∷ done ∷ bye ∷ []) (bye ∷ [])
        (send_command w (codes "DATA"))
        (do
          expect w smtp_start_input Failure.client_protocol_error
          payload_bytes ← ascii bytes
          send payload_bytes)
        (send_command-Passes (codes "DATA") (start ∷ done ∷ bye ∷ []) (unfold is_ascii in refl))
        (seq-Passes (start ∷ done ∷ bye ∷ []) (done ∷ bye ∷ []) (bye ∷ [])
          (expect w smtp_start_input Failure.client_protocol_error)
          (do payload_bytes ← ascii bytes; send payload_bytes)
          (expect-Passes smtp_start_input Failure.client_protocol_error start (done ∷ bye ∷ [])
            a.may_start)
          (ascii-Passes (done ∷ bye ∷ []) (bye ∷ []) bytes send (message_ascii subject body h k) (
            seq-Passes (done ∷ bye ∷ []) (done ∷ bye ∷ []) (bye ∷ [])
              (send_chunks w (suc (length bytes)) 0 bytes) finish
              (send_chunks-Passes (suc (length bytes)) 0 bytes (done ∷ bye ∷ []))
              (expect-Passes smtp_ok Failure.client_protocol_error done (bye ∷ []) a.done_ok))))

  module _ (sender_ascii : is_ascii sender ≡ true) (recipient_ascii : is_ascii recipient ≡ true)
      (subject_ascii : is_ascii subject ≡ true) (body_ascii : is_ascii body ≡ true) where
    abbrev from_data : Action (List Text) Bool
    from_data = do send_data answers_wire subject body; send_quit answers_wire; return true

    from_data-Passes : Passes (start ∷ done ∷ bye ∷ []) [] from_data
    unfolding send_quit
    from_data-Passes =
        let w : Wire (List Text) = answers_wire in
        seq-Passes (start ∷ done ∷ bye ∷ []) (bye ∷ []) [] (send_data w subject body)
          (do send_quit w; return true) (send_data-Passes subject_ascii body_ascii)
          (seq-Passes (bye ∷ []) [] [] (send_quit w) (return true)
            (seq-Passes (bye ∷ []) (bye ∷ []) [] (send_command w (codes "QUIT")) (any_reply w)
              (send_command-Passes (codes "QUIT") (bye ∷ []) (unfold is_ascii in refl))
              (any_reply-Passes bye []))
            (λ c e. (true, c, refl, e)))

    abbrev from_mail : Action (List Text) Bool
    from_mail = do
      send_mail_from answers_wire sender
      send_rcpt_to answers_wire recipient
      from_data

    from_mail-Passes : Passes (mail ∷ rcpt ∷ start ∷ done ∷ bye ∷ []) [] from_mail
    unfolding send_mail_from send_rcpt_to
    from_mail-Passes =
        let w : Wire (List Text) = answers_wire in
        let later : List Text = start ∷ done ∷ bye ∷ [] in
        seq-Passes (mail ∷ rcpt ∷ later) (rcpt ∷ later) [] (send_mail_from w sender)
          (do send_rcpt_to w recipient; from_data)
          (asked-Passes (codes "MAIL FROM:<" ++ sender ++ codes ">") smtp_ok mail (rcpt ∷ later)
            (bracketed_ascii (codes "MAIL FROM:<") sender (unfold is_ascii in refl) sender_ascii)
            a.mail_ok)
          (seq-Passes (rcpt ∷ later) later [] (send_rcpt_to w recipient) from_data
            (asked-Passes (codes "RCPT TO:<" ++ recipient ++ codes ">") smtp_ok rcpt later
              (bracketed_ascii (codes "RCPT TO:<") recipient (unfold is_ascii in refl)
                recipient_ascii)
              a.rcpt_ok)
            from_data-Passes)

    transaction-Passes :
        Passes
          (welcome_answer ∷ noop ∷ helo ∷ mail ∷ rcpt ∷ start ∷ done ∷ bye ∷ [])
          []
          (transaction answers_wire sender recipient subject body)
    unfolding transaction do_handshake
    transaction-Passes =
        let w : Wire (List Text) = answers_wire in
        let later : List Text = mail ∷ rcpt ∷ start ∷ done ∷ bye ∷ [] in
        seq-Passes (welcome_answer ∷ noop ∷ helo ∷ later) (helo ∷ later) [] (connect w)
          (do do_handshake w; from_mail) (connect-Passes welcome_answer noop (helo ∷ later) a.ready)
          (seq-Passes (helo ∷ later) later [] (do_handshake w) from_mail
            (asked-Passes (codes "HELO localhost") smtp_ok helo later (unfold is_ascii in refl)
              a.helo_ok)
            from_mail-Passes)

    -- When the socket is open, every text is ASCII, every `send` is acknowledged, and the answers
    -- come with the codes that are wanted (to the NOOP and the QUIT, any answer), `send_email`
    -- returns True.
    pub send_email_succeeds :
        (c : Client (List Text))
        → c.closed ≡ false
        → c.wire ≡ welcome_answer ∷ noop ∷ helo ∷ mail ∷ rcpt ∷ start ∷ done ∷ bye ∷ []
        → (send_email answers_wire sender recipient subject body c).0 ≡ Result.returned true
    unfolding send_email
    send_email_succeeds c unclosed e =
        let (b, c', r, e') = transaction-Passes c e in
        let w : Wire (List Text) = answers_wire in
        returned_true w b c' (transaction w sender recipient subject body c)
          (transaction-OnlyTrue w sender recipient subject body c) r
          (transaction-Steady w sender recipient subject body c ∙ unclosed)
