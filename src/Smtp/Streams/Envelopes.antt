-- ===== src/Smtp/Streams/Envelopes.antt =====
-- The commands that smtp_client.py sends before a message, as smtp_server.py takes them.
use rdt_mail_service.Prelude.{◌≡◌, refl, ◌∙◌, true, List, [], ◌∷◌, ◌++◌, Option, none, some, nat_eq}
use rdt_mail_service.Prelude.Text.{
  Text, text_eq, codes, is_space, strip, lstrip, rstrip, decode_ignore, contains_sub, starts_with,
  find, upper, upper_code,
}
use rdt_mail_service.Rdt.Dispatcher.{Addr}
use rdt_mail_service.Smtp.Session.{
  SmtpState, LineBuffer, Session, create_session, match_cmd, span_letters, is_letter,
}
use rdt_mail_service.Smtp.Server.{
  SmtpServer, Env, send_reply, address_after, cmd_mail, cmd_rcpt, cmd_data, cmd_helo, cmd_noop,
}
use rdt_mail_service.Smtp.Streams.{
  crlf, handler_of, handle_line, command_loop, handle_command_stream, process_session,
}
use rdt_mail_service.Smtp.Streams.CommandLines.{
  all_plain, one_line, one_line-append, all_plain-one_line, decode_ignore-one_line,
  contains_sub-one_line, strip-brackets, parse_angle_addr-bracketed, handle_command_stream-one_line,
}

-- A session between two commands.
abbrev pub between : SmtpState → Option Text → List Text → Text → Session
between state mail_from rcpt_to data_buffer = record {
  state = state;
  mail_from = mail_from;
  rcpt_to = rcpt_to;
  data_buffer = data_buffer;
  line_buffer = LineBuffer.separate [];
}

module _ (env : Env) (addr : Addr) (srv : SmtpServer) where
  pub noop_taken :
      process_session env addr (codes "NOOP" ++ crlf) create_session srv
      ≡ (create_session, send_reply env addr (codes "250 OK") srv)
  unfolding process_session handle_command_stream command_loop handle_line handler_of cmd_noop
      match_cmd span_letters is_letter find starts_with strip lstrip rstrip decode_ignore is_space
      upper upper_code contains_sub text_eq
  noop_taken = refl

  pub helo_taken : process_session env addr (codes "HELO localhost" ++ crlf) create_session srv ≡ (
    between SmtpState.wait_for_mail_from none [] [],
    send_reply env addr (codes "250 Hello") srv,
  )
  unfolding process_session handle_command_stream command_loop handle_line handler_of cmd_helo
      match_cmd span_letters is_letter find starts_with strip lstrip rstrip decode_ignore is_space
      upper upper_code contains_sub text_eq
  helo_taken = refl

  pub data_taken :
      (mail_from : Option Text) (recipient : Text) (others : List Text) (data_buffer : Text)
      → process_session env addr
          (codes "DATA" ++ crlf)
          (between SmtpState.wait_for_data_cmd mail_from (recipient ∷ others) data_buffer)
          srv
        ≡ (
          between SmtpState.reading_data_stream mail_from (recipient ∷ others) [],
          send_reply env addr (codes "354 Start mail input; end with <CRLF>.<CRLF>") srv,
        )
  unfolding process_session handle_command_stream command_loop handle_line handler_of cmd_data
      match_cmd span_letters is_letter find starts_with strip lstrip rstrip decode_ignore is_space
      upper upper_code contains_sub text_eq
  data_taken mail_from recipient others data_buffer = refl

module _ (s : Text) (plain : all_plain s ≡ true) (has_at : contains_sub (codes "@") s ≡ true) where
  end_one_line : one_line (s ++ codes ">") ≡ true
  end_one_line = one_line-append s (codes ">") (all_plain-one_line s plain) refl

  match_mail :
      match_cmd (codes "MAIL FROM:<" ++ s ++ codes ">")
      ≡ some (codes "MAIL", codes "FROM:<" ++ s ++ codes ">")
  unfolding match_cmd span_letters is_letter is_space lstrip contains_sub starts_with upper
      upper_code
  match_mail = rw (contains_sub-one_line (s ++ codes ">") end_one_line) refl

  match_rcpt :
      match_cmd (codes "RCPT TO:<" ++ s ++ codes ">")
      ≡ some (codes "RCPT", codes "TO:<" ++ s ++ codes ">")
  unfolding match_cmd span_letters is_letter is_space lstrip contains_sub starts_with upper
      upper_code
  match_rcpt = rw (contains_sub-one_line (s ++ codes ">") end_one_line) refl

  address_after-from : address_after (codes "FROM:") (codes "FROM:<" ++ s ++ codes ">") ≡ some s
  unfolding starts_with upper upper_code
  address_after-from =
      rw (strip-brackets b'<' b'>' s (unfold is_space in refl) (unfold is_space in refl))
        (parse_angle_addr-bracketed s plain has_at)

  address_after-to : address_after (codes "TO:") (codes "TO:<" ++ s ++ codes ">") ≡ some s
  unfolding starts_with upper upper_code
  address_after-to =
      rw (strip-brackets b'<' b'>' s (unfold is_space in refl) (unfold is_space in refl))
        (parse_angle_addr-bracketed s plain has_at)

  whole_one_line :
      (before : Text) → one_line before ≡ true → one_line (before ++ s ++ codes ">") ≡ true
  whole_one_line before h =
      one_line-append (before ++ s) (codes ">")
        (one_line-append before s h (all_plain-one_line s plain)) refl

  abbrev mail_line : Text
  mail_line = codes "MAIL FROM:<" ++ s ++ codes ">"

  abbrev rcpt_line : Text
  rcpt_line = codes "RCPT TO:<" ++ s ++ codes ">"

  mail_read : strip (decode_ignore mail_line) ≡ mail_line
  mail_read = rw (decode_ignore-one_line mail_line (whole_one_line (codes "MAIL FROM:<") refl)) (
      strip-brackets b'M' b'>' (codes "AIL FROM:<" ++ s) (unfold is_space in refl)
        (unfold is_space in refl))

  rcpt_read : strip (decode_ignore rcpt_line) ≡ rcpt_line
  rcpt_read = rw (decode_ignore-one_line rcpt_line (whole_one_line (codes "RCPT TO:<") refl)) (
      strip-brackets b'R' b'>' (codes "CPT TO:<" ++ s) (unfold is_space in refl)
        (unfold is_space in refl))

  module _ (env : Env) (addr : Addr) (srv : SmtpServer) (session : Session) where
    mail_handled :
        handle_line env addr mail_line session srv
        ≡ cmd_mail env addr session (codes "FROM:<" ++ s ++ codes ">") srv
    unfolding handle_line handler_of text_eq
    mail_handled = rw (mail_read, match_mail) refl

    rcpt_handled :
        handle_line env addr rcpt_line session srv
        ≡ cmd_rcpt env addr session (codes "TO:<" ++ s ++ codes ">") srv
    unfolding handle_line handler_of text_eq
    rcpt_handled = rw (rcpt_read, match_rcpt) refl

  module _ (env : Env) (addr : Addr) (srv : SmtpServer) (mail_from : Option Text)
      (rcpt_to : List Text) (data_buffer : Text) where
    pub mail_taken :
        process_session env addr
          (mail_line ++ crlf)
          (between SmtpState.wait_for_mail_from mail_from rcpt_to data_buffer)
          srv
        ≡ (
          between SmtpState.wait_for_rcpt_to (some s) rcpt_to data_buffer,
          send_reply env addr (codes "250 OK") srv,
        )
    unfolding process_session cmd_mail
    mail_taken =
        handle_command_stream-one_line env addr mail_line
          (between SmtpState.wait_for_mail_from mail_from rcpt_to data_buffer) srv
          (whole_one_line (codes "MAIL FROM:<") refl)
        ∙ rw
            (
              mail_handled env addr srv
                  (record (between SmtpState.wait_for_mail_from mail_from rcpt_to data_buffer) {
                    line_buffer = LineBuffer.in_loop;
                  }),
              address_after-from,
            )
            refl

    pub rcpt_taken :
        process_session env addr
          (rcpt_line ++ crlf)
          (between SmtpState.wait_for_rcpt_to mail_from rcpt_to data_buffer)
          srv
        ≡ (
          between SmtpState.wait_for_data_cmd mail_from (rcpt_to ++ s ∷ []) data_buffer,
          send_reply env addr (codes "250 OK") srv,
        )
    unfolding process_session cmd_rcpt
    rcpt_taken =
        handle_command_stream-one_line env addr rcpt_line
          (between SmtpState.wait_for_rcpt_to mail_from rcpt_to data_buffer) srv
          (whole_one_line (codes "RCPT TO:<") refl)
        ∙ rw
            (
              rcpt_handled env addr srv
                  (record (between SmtpState.wait_for_rcpt_to mail_from rcpt_to data_buffer) {
                    line_buffer = LineBuffer.in_loop;
                  }),
              address_after-to,
            )
            refl
