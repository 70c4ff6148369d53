-- ===== src/Smtp/Server.antt =====
-- The server of email-network-service/src/smtp/smtp_server.py: its command handlers.
-- A packet is processed as one step, whichever worker of the pool takes it. No handler raises: `_send_reply` and
-- `_finalize_message` catch what they call, so the reply "500 Internal Server Error" is not sent.
pub mod Handlers
use rdt_mail_service.Prelude.{
  ℕ, ◌+◌, Bool, true, false, [], ◌∷◌, ◌++◌, Option, none, some, nat_eq, Dict, erase, length, drop,
  if◌then◌else◌,
}
use rdt_mail_service.Prelude.Text.{Text, text_eq, codes, cr, strip, starts_with, upper}
use rdt_mail_service.Disk.{Faults}
use rdt_mail_service.Auth.User.{User}
use rdt_mail_service.Auth.UserManager.{UserManager}
use rdt_mail_service.Mailbox.Storage.{Storage}
use rdt_mail_service.Rdt.Dispatcher.{Addr, addr_eq}
use rdt_mail_service.Connections.{Connections, Network, transmit, end_line, forget}
use rdt_mail_service.Smtp.Session.{
  SmtpState, wait_for_mail_from, wait_for_rcpt_to, wait_for_data_cmd, reading_data_stream,
  LineBuffer, separate, Session, create_session, parse_angle_addr,
}

pub record SmtpServer : Type 0 where
  pub connections : Connections
  pub storage : Storage
  pub user_manager : UserManager
  pub sessions : Dict Addr Session
  pub last_activity : Dict Addr ℕ

-- What `BytesParser` of the standard library makes of a message: its text as `as_string` gives it,
-- and its headers, `none` where there is none.
pub record Parsed : Type 0 where
  pub as_string : Option Text
  pub message_id : Option Text
  pub subject : Option Text
  pub sender : Option Text
  pub date : Option Text

-- What a step takes from outside: the network, the calls that raise, the parser (`none` where it
-- raises), and the clock and `uuid4` as the texts that are made of them.
pub record Env : Type 0 where
  pub network : Network
  pub io : Faults
  pub parsebytes : Text → Option Parsed
  pub made_uid : Text
  pub stamp : Text
  pub new_uid : Text

unfoldable pub send_reply : Env → Addr → Text → SmtpServer → SmtpServer
unfolding transmit end_line
send_reply env addr msg srv = record srv {
  connections = (transmit env.network addr (end_line msg) srv.connections).1;
}

-- `del` and `pop` of the session, the sender and the sequence number.
unfoldable pub cleanup_session : Addr → SmtpServer → SmtpServer
unfolding forget
cleanup_session addr srv = record srv {
  sessions = erase addr srv.sessions;
  last_activity = erase addr srv.last_activity;
  connections = forget addr srv.connections;
}

-- A handler works on the session's object, which QUIT takes out of `sessions`.
abbrev pub Handler : Type 0
Handler = Env → Addr → Session → Text → SmtpServer → Session × SmtpServer

unfoldable pub cmd_helo : Handler
cmd_helo env addr session arg srv = (
  record session { state = SmtpState.wait_for_mail_from },
  send_reply env addr (codes "250 Hello") srv,
)

abbrev may_mail : SmtpState → Bool
may_mail wait_for_mail_from = true
may_mail wait_for_rcpt_to = true
may_mail _ = false

abbrev mail_parsed : Env → Addr → Session → Option Text → SmtpServer → Session × SmtpServer
mail_parsed env addr session none srv =
    (session, send_reply env addr (codes "500 Syntax error in MAIL FROM") srv)
mail_parsed env addr session (some parsed) srv = (
  record session { mail_from = some parsed; state = SmtpState.wait_for_rcpt_to },
  send_reply env addr (codes "250 OK") srv,
)

-- The address after "FROM:" or "TO:", in any case.
abbrev pub address_after : Text → Text → Option Text
address_after prefix arg =
    if starts_with (upper arg) prefix
    then parse_angle_addr (strip (drop (length prefix) arg))
    else none

unfoldable pub cmd_mail : Handler
cmd_mail env addr session arg srv =
    if may_mail session.state
    then mail_parsed env addr session (address_after (codes "FROM:") arg) srv
    else (session, send_reply env addr (codes "503 Bad sequence") srv)

abbrev may_rcpt : SmtpState → Bool
may_rcpt wait_for_rcpt_to = true
may_rcpt _ = false

abbrev rcpt_parsed : Env → Addr → Session → Option Text → SmtpServer → Session × SmtpServer
rcpt_parsed env addr session none srv =
    (session, send_reply env addr (codes "500 Syntax error in RCPT TO") srv)
rcpt_parsed env addr session (some parsed) srv = (
  record session { rcpt_to = session.rcpt_to ++ parsed ∷ []; state = SmtpState.wait_for_data_cmd },
  send_reply env addr (codes "250 OK") srv,
)

unfoldable pub cmd_rcpt : Handler
cmd_rcpt env addr session arg srv =
    if may_rcpt session.state
    then rcpt_parsed env addr session (address_after (codes "TO:") arg) srv
    else (session, send_reply env addr (codes "503 Bad sequence") srv)

abbrev may_data : Session → Bool
may_data session = elim session.state [
  | wait_for_data_cmd ↦ elim session.rcpt_to [ [] ↦ false | r ∷ rs ↦ true ]
  | _ ↦ false
]

unfoldable pub cmd_data : Handler
cmd_data env addr session arg srv =
    if may_data session
    then (
      record session {
        state = SmtpState.reading_data_stream;
        data_buffer = [];
        line_buffer = LineBuffer.separate [];
      },
      send_reply env addr (codes "354 Start mail input; end with <CRLF>.<CRLF>") srv,
    )
    else (session, send_reply env addr (codes "503 Bad sequence") srv)

unfoldable pub cmd_rset : Handler
cmd_rset env addr session arg srv = (create_session, send_reply env addr (codes "250 OK") srv)

unfoldable pub cmd_noop : Handler
cmd_noop env addr session arg srv = (session, send_reply env addr (codes "250 OK") srv)

unfoldable pub cmd_quit : Handler
cmd_quit env addr session arg srv =
    let replied = send_reply env addr (codes "221 Bye") srv in
    (
      session,
      record replied {
        sessions = erase addr replied.sessions;
        connections = forget addr replied.connections;
      },
    )
