-- ===== src/Smtp/Streams/Pipelining.antt =====
-- Commands and a message in one packet, in smtp_server.py.
use rdt_mail_service.Prelude.{◌≡◌, refl, List, [], ◌∷◌, ◌++◌, Option, none}
use rdt_mail_service.Prelude.Text.{
  Text, text_eq, codes, find, starts_with, strip, lstrip, rstrip, decode_ignore, is_space, upper,
  upper_code, contains_sub,
}
use rdt_mail_service.Rdt.Dispatcher.{Addr}
use rdt_mail_service.Smtp.Session.{
  SmtpState, LineBuffer, Session, match_cmd, span_letters, is_letter,
}
use rdt_mail_service.Smtp.Server.{SmtpServer, Env, send_reply, cmd_data}
use rdt_mail_service.Smtp.Streams.{
  crlf, handler_of, handle_line, command_loop, handle_command_stream, process_session,
}

-- What follows DATA in its packet, if it has no CR LF, is dropped: in a session with a recipient
-- that waits for DATA and has no part of a line, the packet makes the session read a message from
-- the next packet on, with neither buffer holding anything of this one.
pub data_drops_rest :
    (env : Env) (addr : Addr) (rest : Text) (srv : SmtpServer) (mail_from : Option Text)
    (recipient : Text) (others : List Text) (data_buffer : Text)
    → find crlf rest ≡ none
    → let session : SmtpState → Text → Session = λ st t. record {
      state = st;
      mail_from = mail_from;
      rcpt_to = recipient ∷ others;
      data_buffer = t;
      line_buffer = LineBuffer.separate [];
    } in
      process_session env addr
        (codes "DATA" ++ crlf ++ rest)
        (session SmtpState.wait_for_data_cmd data_buffer)
        srv
      ≡ (
        session SmtpState.reading_data_stream [],
        send_reply env addr (codes "354 Start mail input; end with <CRLF>.<CRLF>") srv,
      )
unfolding process_session handle_command_stream command_loop handle_line handler_of cmd_data
    match_cmd span_letters is_letter find starts_with strip lstrip rstrip decode_ignore is_space
    upper upper_code contains_sub text_eq
data_drops_rest env addr rest srv mail_from recipient others data_buffer e = rw e refl
