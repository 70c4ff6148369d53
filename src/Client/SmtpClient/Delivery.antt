-- ===== src/Client/SmtpClient/Delivery.antt =====
-- What smtp_client.py says, taken by smtp_server.py.
use rdt_mail_service.Prelude.{
  ℕ, suc, ◌+◌, ◌≤◌, ◌<◌, ◌≡◌, refl, sym, ap, ◌∙◌, true, List, [], ◌∷◌, ◌++◌, map, Option, none,
  some, length, take, length-append, arith, nat_eq,
}
use rdt_mail_service.Prelude.Text.{Text, codes, cr, lf, find, contains_sub}
use rdt_mail_service.Rdt.Dispatcher.{Addr}
use rdt_mail_service.Smtp.Session.{SmtpState, Session, create_session}
use rdt_mail_service.Smtp.Server.{SmtpServer, Env, send_reply}
use rdt_mail_service.Smtp.Streams.{
  smtp_terminator, finalize_message, handle_data_stream, process_session,
}
use rdt_mail_service.Smtp.Streams.Chunks.{feed, concat, concat-append, feed-concat}
use rdt_mail_service.Smtp.Streams.Terminators.{find-shorter, found_nothing}
use rdt_mail_service.Smtp.Streams.CommandLines.{take_whole, all_plain}
use rdt_mail_service.Smtp.Streams.Envelopes.{
  between, noop_taken, helo_taken, mail_taken, rcpt_taken, data_taken,
}
use rdt_mail_service.Client.Conversation.{Answer, Step, says, hears, may_hear}
use rdt_mail_service.Client.SmtpClient.{smtp_ok, max_payload_size, message_text, terminator}
use rdt_mail_service.Client.SmtpClient.Replies.{HasCode}
use rdt_mail_service.Client.SmtpClient.Pieces.{
  pieces_short, pieces, AllFit, pieces-AllFit, concat-pieces,
}
use rdt_mail_service.Client.SmtpClient.Transcript.{greeting, envelope, content}

find_nothing : find smtp_terminator [] ≡ none
unfolding find
find_nothing = refl

-- Packets of one client, in turn.
unfoldable pub serve_all : Env → Addr → List Text → Session × SmtpServer → Session × SmtpServer
serve_all env addr [] r = r
serve_all env addr (packet ∷ packets) (session, srv) =
    serve_all env addr packets (process_session env addr packet session srv)

serve_all-feed :
    (env : Env) (addr : Addr) (ts : List Text) (last : Text) (session : Session) (srv : SmtpServer)
    → serve_all env addr (ts ++ last ∷ []) (session, srv) ≡ feed env addr ts last session srv
unfolding serve_all feed
serve_all-feed env addr [] last session srv = refl
serve_all-feed env addr (t ∷ ts) last session srv =
    let (session', srv') = process_session env addr t session srv in
    serve_all-feed env addr ts last session' srv'

-- A last piece, and the pieces before it.
ends_with_piece :
    (t : Text) (ts : List Text)
    → AllFit (t ∷ ts)
    → (before : List Text) × (last : Text) × (t ∷ ts ≡ before ++ last ∷ []) × (1 ≤ length last)
ends_with_piece t [] (p, q, r) = ([], t, refl, p)
ends_with_piece t (u ∷ ts) (p, q, r) =
    let (before, last, e, l) = ends_with_piece u ts r in
    (t ∷ before, last, ap (λ (x : List Text). t ∷ x) e, l)

module _ (env : Env) (addr : Addr) (mail_from : Option Text) (recipients : List Text)
    (srv : SmtpServer) where
  abbrev reading_session : Session
  reading_session = between SmtpState.reading_data_stream mail_from recipients []

  abbrev read_session : Session
  read_session = between SmtpState.wait_for_mail_from mail_from recipients []

  message_taken :
      (bytes : Text) (idx : ℕ)
      → find smtp_terminator bytes ≡ some idx
      → process_session env addr bytes reading_session srv
        ≡ finalize_message env addr read_session (take idx bytes) srv
  unfolding process_session handle_data_stream
  message_taken bytes idx h = rw h refl

  pieces_taken :
      (before : List Text) (last : Text) (idx : ℕ)
      → find smtp_terminator (concat before ++ last) ≡ some idx
      → length (concat before) < idx + 5
      → serve_all env addr (before ++ last ∷ []) (reading_session, srv)
        ≡ finalize_message env addr read_session (take idx (concat before ++ last)) srv
  pieces_taken before last idx h k =
      serve_all-feed env addr before last reading_session srv
      ∙ feed-concat env addr before last reading_session srv refl
          (find-shorter 13 (10 ∷ 46 ∷ 13 ∷ 10 ∷ []) (concat before) last idx h k)
      ∙ message_taken (concat before ++ last) idx h

  all_taken :
      (ts : List Text) (idx : ℕ)
      → AllFit ts
      → find smtp_terminator (concat ts) ≡ some idx
      → length (concat ts) ≤ idx + 5
      → serve_all env addr ts (reading_session, srv)
        ≡ finalize_message env addr read_session (take idx (concat ts)) srv
  all_taken [] idx a h k = absurd (found_nothing (sym find_nothing ∙ h))
  all_taken (t ∷ ts) idx a h k =
      let (before, last, e, l) = ends_with_piece t ts a in
      let whole : concat (t ∷ ts) ≡ concat before ++ last =
        ap concat e ∙ concat-append before last in
      rw (e, whole)
        (pieces_taken before last idx (rw whole at h)
          (omega (arith, length-append (concat before) last, ap length whole)))

-- What is said in a script, without what is heard.
unfoldable pub spoken : List Step → List Text
spoken [] = []
spoken (says bytes ∷ steps) = bytes ∷ spoken steps
spoken (hears Accepts ∷ steps) = spoken steps
spoken (may_hear ∷ steps) = spoken steps

spoken_pieces :
    (ts : List Text) (Accepts : Text → Type 0)
    → spoken (map says ts ++ Step.hears Accepts ∷ []) ≡ ts
unfolding spoken
spoken_pieces [] Accepts = refl
spoken_pieces (t ∷ ts) Accepts = ap (λ (x : List Text). t ∷ x) (spoken_pieces ts Accepts)

-- The replies to the commands before a message.
abbrev pub greeted : Env → Addr → SmtpServer → SmtpServer
greeted env addr srv = send_reply env addr (codes "354 Start mail input; end with <CRLF>.<CRLF>") (
    send_reply env addr (codes "250 OK") (
      send_reply env addr (codes "250 OK")
        (send_reply env addr (codes "250 Hello") (send_reply env addr (codes "250 OK") srv))))

module _ (env : Env) (addr : Addr) (sender recipient subject body : Text) (srv : SmtpServer)
    (sender_plain : all_plain sender ≡ true) (sender_at : contains_sub (codes "@") sender ≡ true)
    (recipient_plain : all_plain recipient ≡ true)
    (recipient_at : contains_sub (codes "@") recipient ≡ true) where
  abbrev message_bytes : Text
  message_bytes = message_text subject body ++ terminator

  commands_taken :
      (packets : List Text)
      → serve_all env addr
          (spoken (greeting ++ envelope sender recipient)
            ++ (codes "DATA" ++ cr ∷ lf ∷ []) ∷ packets)
          (create_session, srv)
        ≡ serve_all env addr packets
            (reading_session env addr (some sender) (recipient ∷ []) srv, greeted env addr srv)
  unfolding serve_all spoken
  commands_taken packets =
      let srv1 : SmtpServer = send_reply env addr (codes "250 OK") srv in
      let srv2 : SmtpServer = send_reply env addr (codes "250 Hello") srv1 in
      let srv3 : SmtpServer = send_reply env addr (codes "250 OK") srv2 in
      let srv4 : SmtpServer = send_reply env addr (codes "250 OK") srv3 in
      rw
        (
          noop_taken env addr srv,
          helo_taken env addr srv1,
          mail_taken sender sender_plain sender_at env addr srv2 none [] [],
          rcpt_taken recipient recipient_plain recipient_at env addr srv3 (some sender) [] [],
          data_taken env addr srv4 (some sender) recipient [] [],
        )
        refl

  spoken_all :
      spoken (greeting ++ envelope sender recipient ++ content subject body)
      ≡ spoken (greeting ++ envelope sender recipient)
        ++ (codes "DATA" ++ cr ∷ lf ∷ []) ∷ pieces (suc (length message_bytes)) message_bytes
  unfolding spoken
  spoken_all =
      ap
        (λ (ts : List Text).
          spoken (greeting ++ envelope sender recipient) ++ (codes "DATA" ++ cr ∷ lf ∷ []) ∷ ts)
        (spoken_pieces (pieces (suc (length message_bytes)) message_bytes)
          (Answer (HasCode smtp_ok)))

  -- Both addresses are ASCII without white space and have an `@`, and in the message, as it is
  -- sent, the first CR LF . CR LF is the one at its end. Then a server that has just made the
  -- session of the client, and takes all that `send_email` says up to QUIT in turn, finalizes that
  -- subject line, an empty line and the body, with this sender and this recipient, once it has answered each command.
  pub spoken-finalize_message :
      find smtp_terminator message_bytes ≡ some (length (message_text subject body))
      → serve_all env addr
          (spoken (greeting ++ envelope sender recipient ++ content subject body))
          (create_session, srv)
        ≡ finalize_message env addr
            (between SmtpState.wait_for_mail_from (some sender) (recipient ∷ []) [])
            (codes "Subject: " ++ subject ++ cr ∷ lf ∷ cr ∷ lf ∷ body)
            (greeted env addr srv)
  spoken-finalize_message h =
      let cuts : List Text = pieces (suc (length message_bytes)) message_bytes in
      let whole : concat cuts ≡ message_bytes =
        concat-pieces (suc (length message_bytes)) message_bytes (omega arith) in
      let taken =
        all_taken env addr (some sender) (recipient ∷ []) (greeted env addr srv) cuts
          (length (message_text subject body))
          (pieces-AllFit (suc (length message_bytes)) message_bytes) (rw whole h)
          (rw whole (omega (arith, length-append (message_text subject body) terminator))) in
      rw spoken_all (
        commands_taken cuts
        ∙ taken
        ∙ ap
            (λ (t : Text).
              finalize_message env addr
                (between SmtpState.wait_for_mail_from (some sender) (recipient ∷ []) []) t
                (greeted env addr srv))
            (ap (take (length (message_text subject body))) whole
              ∙ take_whole (message_text subject body) terminator))

  -- Both addresses are ASCII without white space and have an `@`, and the message fits in one piece.
  -- The server that takes what `send_email` says finalizes what stands before the first
  -- CR LF . CR LF, even if the body holds it: dots at the start of a line are not doubled.
  pub spoken_truncated :
      (idx : ℕ)
      → find smtp_terminator message_bytes ≡ some idx
      → length message_bytes ≤ max_payload_size
      → serve_all env addr
          (spoken (greeting ++ envelope sender recipient ++ content subject body))
          (create_session, srv)
        ≡ finalize_message env addr
            (between SmtpState.wait_for_mail_from (some sender) (recipient ∷ []) [])
            (take idx (codes "Subject: " ++ subject ++ cr ∷ lf ∷ cr ∷ lf ∷ body ++ terminator))
            (greeted env addr srv)
  spoken_truncated idx h k =
      rw (spoken_all, pieces_short (length message_bytes) message_bytes (omega arith) k)
        (commands_taken (message_bytes ∷ [])
          ∙ pieces_taken env addr (some sender) (recipient ∷ []) (greeted env addr srv) []
              message_bytes idx h (omega arith))
