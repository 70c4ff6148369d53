-- ===== src/Smtp/Streams/Verbs.antt =====
-- What a packet of a client makes of a session of smtp_server.py, verb by verb.
use rdt_mail_service.Prelude.{
  ◌⊎◌, ℕ, zero, suc, ◌+◌, ◌≡◌, refl, inl, inr, Bool, true, false, ◌||◌, List, [], ◌∷◌, ◌++◌, Option,
  none, some, arith, ◌==◌, lookup, Bool-cases, Option-cases, length, take, drop, if◌then◌else◌,
}
use rdt_mail_service.Prelude.Text.{Text, text_eq, codes, strip, find, decode_ignore}
use rdt_mail_service.Rdt.Dispatcher.{Addr, addr_eq}
use rdt_mail_service.Disk.{FilePath}
use rdt_mail_service.Mailbox.Storage.{save_email}
use rdt_mail_service.Auth.User.{User}
use rdt_mail_service.Auth.UserManager.{get_user}
use rdt_mail_service.Smtp.Session.{
  wait_for_helo, wait_for_mail_from, wait_for_rcpt_to, wait_for_data_cmd, reading_data_stream,
  SmtpState, LineBuffer, Session, match_cmd,
}
use rdt_mail_service.Smtp.Server.{SmtpServer, Env, Handler, Parsed, send_reply}
use rdt_mail_service.Smtp.Server.Handlers.{
  Moves, Follows, Keeps, cmd_helo-Keeps, cmd_mail-Keeps, cmd_rcpt-Keeps, cmd_data-Keeps,
  cmd_rset-Keeps, cmd_noop-Keeps, cmd_quit-Keeps,
}
use rdt_mail_service.Smtp.Streams.{
  handler_of, run_handler, run_command, handle_line, command_loop, crlf, handle_command_stream,
  bytes_of, handle_data_stream, take_message, smtp_terminator, finalize_message, deliver,
  deliver_to, saved_reply, local_part, email_of, is_reading, process_session,
}

-- The verb of a line of commands, empty where it has none.
abbrev verb_in : Option (Text × Text) → Text
verb_in none = []
verb_in (some (verb, arg)) = verb

abbrev pub verb_of : Text → Text
verb_of line = verb_in (match_cmd (strip (decode_ignore line)))

-- The verbs of the lines that end with CR LF, before those of `vs`.
unfoldable pub verbs_of : ℕ → Text → List Text → List Text
verbs_of zero buf vs = vs
verbs_of (suc rounds) buf vs = elim (find crlf buf) [
  | none ↦ vs
  | some idx ↦ verbs_of rounds (drop (idx + 2) buf) (verb_of (take idx buf) ∷ vs)
]

abbrev ending : Option ℕ → List Text
ending none = []
ending (some idx) = codes "." ∷ []

-- The verbs that a packet gives to a session: the end of the message, if it reads one and the end is
-- in what it has then; else those of the lines that are whole in its buffer then.
unfoldable pub given : Session → Text → List Text
unfolding verbs_of
given session packet =
    if is_reading session.state
    then ending (find smtp_terminator (session.data_buffer ++ packet))
    else verbs_of (suc (length (bytes_of session.line_buffer ++ packet)))
        (bytes_of session.line_buffer ++ packet) []

module _ (start : Session) where
  -- A result in which a session has moved with the verbs, and the others are as they were.
  abbrev Kept : List Text → List Text → Session → SmtpServer → Session × SmtpServer → Type 0
  Kept vs ws session srv (session', srv') =
      (Follows start vs session → Follows start ws session')
      × ((a : Addr) (s : Session)
          → lookup a srv'.sessions ≡ some s
          → lookup a srv.sessions ≡ some s)

  idle-Kept :
      (vs : List Text) (verb : Text) (env : Env) (addr : Addr) (msg : Text) (session : Session)
      (srv : SmtpServer)
      → Kept vs (verb ∷ vs) session srv (session, send_reply env addr msg srv)
  unfolding send_reply
  idle-Kept vs verb env addr msg session srv = (λ f. Moves.idle verb f, λ a s e. e)

  abbrev AllKeep : Text → Option Handler → Type 0
  AllKeep verb none = Unit
  AllKeep verb (some h) = Keeps verb h

  AllKeep-if :
      (verb : Text) (b : Bool) (x y : Option Handler)
      → (b ≡ true → AllKeep verb x)
      → AllKeep verb y
      → AllKeep verb (if b then x else y)
  AllKeep-if verb true x y k l = k refl
  AllKeep-if verb false x y k l = l

  greets :
      (verb : Text)
      → (verb == codes "HELO") || (verb == codes "EHLO") ≡ true
      → (verb ≡ codes "HELO") ⊎ (verb ≡ codes "EHLO")
  greets verb e = elim (Bool-cases (verb == codes "HELO")) [
    | inl helo ↦ inl ((text_eq.beq_iff verb (codes "HELO")).0 helo)
    | inr other ↦ inr ((text_eq.beq_iff verb (codes "EHLO")).0 (ground (arith, e, other)))
  ]

  handler_of-Keeps : (verb : Text) → AllKeep verb (handler_of verb)
  unfolding handler_of
  handler_of-Keeps verb =
      let is = λ (t : Text). (text_eq.beq_iff verb t).0 in
      AllKeep-if verb ((verb == codes "HELO") || (verb == codes "EHLO")) _ _
        (λ e. cmd_helo-Keeps verb (greets verb e))
        (AllKeep-if verb (verb == codes "MAIL") _ _ (λ e. cmd_mail-Keeps verb (is _ e))
          (AllKeep-if verb (verb == codes "RCPT") _ _ (λ e. cmd_rcpt-Keeps verb (is _ e))
            (AllKeep-if verb (verb == codes "DATA") _ _ (λ e. cmd_data-Keeps verb (is _ e))
              (AllKeep-if verb (verb == codes "RSET") _ _ (λ e. cmd_rset-Keeps verb (is _ e))
                (AllKeep-if verb (verb == codes "NOOP") _ _ (λ e. cmd_noop-Keeps verb)
                  (AllKeep-if verb (verb == codes "QUIT") _ none (λ e. cmd_quit-Keeps verb) tt))))))

  run_handler-Kept :
      (vs : List Text) (verb : Text) (env : Env) (addr : Addr) (session : Session) (arg : Text)
      (o : Option Handler) (srv : SmtpServer)
      → AllKeep verb o
      → Kept vs (verb ∷ vs) session srv (run_handler env addr session arg o srv)
  run_handler-Kept vs verb env addr session arg none srv k =
      idle-Kept vs verb env addr (codes "500 Command unrecognized") session srv
  run_handler-Kept vs verb env addr session arg (some h) srv k = k start vs env addr session arg srv

  run_command-Kept :
      (vs : List Text) (env : Env) (addr : Addr) (session : Session) (o : Option (Text × Text))
      (srv : SmtpServer)
      → Kept vs (verb_in o ∷ vs) session srv (run_command env addr session o srv)
  run_command-Kept vs env addr session none srv =
      idle-Kept vs [] env addr (codes "500 Syntax error") session srv
  run_command-Kept vs env addr session (some (verb, arg)) srv =
      run_handler-Kept vs verb env addr session arg (handler_of verb) srv (handler_of-Keeps verb)

  handle_line-Kept :
      (vs : List Text) (env : Env) (addr : Addr) (line : Text) (session : Session)
      (srv : SmtpServer)
      → Kept vs (verb_of line ∷ vs) session srv (handle_line env addr line session srv)
  unfolding handle_line
  handle_line-Kept vs env addr line session srv =
      run_command-Kept vs env addr session (match_cmd (strip (decode_ignore line))) srv

  Kept-trans :
      (us vs ws : List Text) (session : Session) (srv : SmtpServer) (r q : Session × SmtpServer)
      → Kept us vs session srv r
      → Kept vs ws r.0 r.1 q
      → Kept us ws session srv q
  Kept-trans us vs ws session srv r q k l = (λ h. l.0 (k.0 h), λ a s e. k.1 a s (l.1 a s e))

  command_loop-Kept :
      (rounds : ℕ) (vs : List Text) (env : Env) (addr : Addr) (buf : Text) (session : Session)
      (srv : SmtpServer)
      → Kept vs (verbs_of rounds buf vs) session srv (command_loop rounds env addr buf session srv)
  unfolding command_loop verbs_of
  command_loop-Kept zero vs env addr buf session srv = (λ h. h, λ a s e. e)
  command_loop-Kept (suc rounds) vs env addr buf session srv = elim (Option-cases (find crlf buf)) [
    | inl last ↦ rw (command_loop, verbs_of, last) (λ h. h, λ a s e. e)
    | inr (idx, found) ↦
        let r = handle_line env addr (take idx buf) session srv in
        let ws = verb_of (take idx buf) ∷ vs in
        rw (command_loop, verbs_of, found)
          (Kept-trans vs ws (verbs_of rounds (drop (idx + 2) buf) ws) session srv r
            (command_loop rounds env addr (drop (idx + 2) buf) r.0 r.1)
            (handle_line-Kept vs env addr (take idx buf) session srv)
            (command_loop-Kept rounds ws env addr (drop (idx + 2) buf) r.0 r.1))
  ]

  -- How `_finalize_message` leaves a session and the others, if it may lose its recipients.
  module _ (ws : List Text) where
    abbrev Final : Session → SmtpServer → Session × SmtpServer → Type 0
    Final session srv (session', srv') =
        Follows start ws session'
        × ((a : Addr) (s : Session)
            → lookup a srv'.sessions ≡ some s
            → lookup a srv.sessions ≡ some s)

    Final-send_reply :
        (env : Env) (addr : Addr) (msg : Text) (session : Session) (srv : SmtpServer)
        → Follows start ws session
        → Final session srv (session, send_reply env addr msg srv)
    unfolding send_reply
    Final-send_reply env addr msg session srv f = (f, λ a s e. e)

    deliver-Final :
        (env : Env) (addr : Addr) (session : Session) (p : Option Parsed) (rs : List Text)
        (srv : SmtpServer)
        → Follows start ws session
        → Follows start ws (record session { rcpt_to = [] })
        → Final session srv (deliver env addr session p rs srv)
    unfolding send_reply
    deliver-Final env addr session none rs srv f g =
        Final-send_reply env addr (codes "451 Error processing message") session srv f
    deliver-Final env addr session (some p) [] srv f g =
        Final-send_reply env addr (codes "550 No recipients") session srv f
    deliver-Final env addr session (some p) (r ∷ rs) srv f g =
        deliver_to-Final (get_user (local_part r) srv.user_manager)
      where
        saved_reply-Final :
            (o : Option FilePath) (srv' : SmtpServer)
            → Final session srv' (saved_reply env addr session o srv')
        saved_reply-Final none srv' = (f, λ a s e. e)
        saved_reply-Final (some path) srv' = (g, λ a s e. e)

        deliver_to-Final :
            (o : Option User) → Final session srv (deliver_to env addr session p r o srv)
        deliver_to-Final none = Final-send_reply env addr (codes "550 No such user") session srv f
        deliver_to-Final (some user) =
            let (path, storage') =
              save_email env.io env.stamp env.new_uid user (email_of env p r) srv.storage in
            saved_reply-Final path (record srv { storage = storage' })

  take_message-Kept :
      (env : Env) (addr : Addr) (session : Session) (full : Text) (o : Option ℕ) (srv : SmtpServer)
      → session.state ≡ SmtpState.reading_data_stream
      → Follows start [] session
      → Final (ending o) session srv (take_message env addr session full o srv)
  unfolding finalize_message
  take_message-Kept env addr session full none srv q f = (f, λ a s e. e)
  take_message-Kept env addr session full (some idx) srv q f =
      deliver-Final (codes "." ∷ []) env addr
        (record session {
          data_buffer = [];
          line_buffer = LineBuffer.separate [];
          state = SmtpState.wait_for_mail_from;
        })
        (env.parsebytes (take idx full)) session.rcpt_to srv (Moves.refused q f)
        (Moves.accepted q f)

  is_reading_at : (q : SmtpState) → is_reading q ≡ true → q ≡ SmtpState.reading_data_stream
  is_reading_at wait_for_helo h = absurd (ground (arith, h))
  is_reading_at wait_for_mail_from h = absurd (ground (arith, h))
  is_reading_at wait_for_rcpt_to h = absurd (ground (arith, h))
  is_reading_at wait_for_data_cmd h = absurd (ground (arith, h))
  is_reading_at reading_data_stream h = refl

  pub process_session-Kept :
      (env : Env) (addr : Addr) (packet : Text) (session : Session) (srv : SmtpServer)
      → Follows start [] session
      → Final (given session packet) session srv (process_session env addr packet session srv)
  unfolding process_session handle_data_stream handle_command_stream given
  process_session-Kept env addr packet session srv f =
      elim (Bool-cases (is_reading session.state)) [
        | inl reading ↦ rw reading (
            take_message-Kept env addr session (session.data_buffer ++ packet)
              (find smtp_terminator (session.data_buffer ++ packet)) srv
              (is_reading_at session.state reading) f)
        | inr not_reading ↦
            let k =
              command_loop-Kept (suc (length (bytes_of session.line_buffer ++ packet))) [] env addr
                (bytes_of session.line_buffer ++ packet)
                (record session { line_buffer = LineBuffer.in_loop }) srv in
            rw not_reading (k.0 f, k.1)
      ]
