-- ===== src/Smtp/Streams.antt =====
-- How email-network-service/src/smtp/smtp_server.py takes a packet: as lines of commands, or as a
-- part of a message that ends at CR LF . CR LF.
pub mod Verbs
pub mod Orderly
pub mod Chunks
pub mod Deliveries
pub mod Reaping
pub mod Pipelining
pub mod Lines
pub mod CommandLines
pub mod Envelopes
pub mod Terminators
use rdt_mail_service.Prelude.{
  ℕ, zero, suc, ◌+◌, ◌-◌, Bool, true, false, ◌||◌, List, [], ◌∷◌, ◌++◌, Option, none, some, ltb,
  ◌==◌, nat_eq, Dict, lookup, contains, insert, length, take, drop, if◌then◌else◌,
}
use rdt_mail_service.Prelude.Text.{Text, text_eq, codes, cr, lf, strip, find, decode_ignore}
use rdt_mail_service.Disk.{FilePath}
use rdt_mail_service.Auth.User.{User}
use rdt_mail_service.Auth.UserManager.{get_user}
use rdt_mail_service.Mailbox.Email.{EmailData}
use rdt_mail_service.Mailbox.Storage.{save_email}
use rdt_mail_service.Rdt.Dispatcher.{Addr, addr_eq}
use rdt_mail_service.Smtp.Session.{
  SmtpState, wait_for_mail_from, reading_data_stream, LineBuffer, in_loop, separate, Session,
  create_session, match_cmd,
}
use rdt_mail_service.Smtp.Server.{
  SmtpServer, Parsed, Env, Handler, send_reply, cmd_helo, cmd_mail, cmd_rcpt, cmd_data, cmd_rset,
  cmd_noop, cmd_quit, cleanup_session,
}

-- The text before the first "@", or all of it.
unfoldable pub local_part : Text → Text
local_part [] = []
local_part (c ∷ s) = let rest = local_part s in if c == b'@' then [] else c ∷ rest

abbrev or_text : Text → Option Text → Text
or_text default none = default
or_text default (some t) = t

abbrev pub email_of : Env → Parsed → Text → EmailData
email_of env p rcpt_addr = record {
  raw_message = p.as_string;
  uid = or_text env.made_uid p.message_id;
  subject = or_text [] p.subject;
  sender = or_text [] p.sender;
  recipient = rcpt_addr;
  date = or_text [] p.date;
  body_html = none;
  body_text = none;
}

abbrev pub saved_reply : Env → Addr → Session → Option FilePath → SmtpServer → Session × SmtpServer
saved_reply env addr session none srv =
    (session, send_reply env addr (codes "451 Local processing error") srv)
saved_reply env addr session (some path) srv = (
  record session { rcpt_to = [] },
  send_reply env addr (codes "250 OK: Message accepted for delivery") srv,
)

abbrev pub deliver_to :
    Env → Addr → Session → Parsed → Text → Option User → SmtpServer → Session × SmtpServer
deliver_to env addr session p rcpt_addr none srv =
    (session, send_reply env addr (codes "550 No such user") srv)
deliver_to env addr session p rcpt_addr (some user) srv =
    let (path, storage') =
      save_email env.io env.stamp env.new_uid user (email_of env p rcpt_addr) srv.storage in
    saved_reply env addr session path (record srv { storage = storage' })

abbrev pub deliver :
    Env → Addr → Session → Option Parsed → List Text → SmtpServer → Session × SmtpServer
deliver env addr session none recipients srv =
    (session, send_reply env addr (codes "451 Error processing message") srv)
deliver env addr session (some p) [] srv =
    (session, send_reply env addr (codes "550 No recipients") srv)
deliver env addr session (some p) (rcpt_addr ∷ others) srv =
    deliver_to env addr session p rcpt_addr (get_user (local_part rcpt_addr) srv.user_manager) srv

unfoldable pub finalize_message : Env → Addr → Session → Text → SmtpServer → Session × SmtpServer
finalize_message env addr session msg_bytes srv =
    deliver env addr session (env.parsebytes msg_bytes) session.rcpt_to srv

abbrev pub smtp_terminator : Text
smtp_terminator = cr ∷ lf ∷ b'.' ∷ cr ∷ lf ∷ []

abbrev pub take_message : Env → Addr → Session → Text → Option ℕ → SmtpServer → Session × SmtpServer
take_message env addr session full none srv = (record session { data_buffer = full }, srv)
take_message env addr session full (some idx) srv =
    finalize_message env addr
      (record session {
        data_buffer = [];
        line_buffer = LineBuffer.separate [];
        state = SmtpState.wait_for_mail_from;
      })
      (take idx full) srv

unfoldable pub handle_data_stream : Env → Addr → Session → Text → SmtpServer → Session × SmtpServer
handle_data_stream env addr session packet srv =
    let full = session.data_buffer ++ packet in
    take_message env addr session full (find smtp_terminator full) srv

-- `getattr(self, f"_cmd_{verb}", None)`
unfoldable pub handler_of : Text → Option Handler
handler_of verb =
    if (verb == codes "HELO") || (verb == codes "EHLO")
    then some cmd_helo
    else if verb == codes "MAIL"
    then some cmd_mail
    else if verb == codes "RCPT"
    then some cmd_rcpt
    else if verb == codes "DATA"
    then some cmd_data
    else if verb == codes "RSET"
    then some cmd_rset
    else if verb == codes "NOOP"
    then some cmd_noop
    else if verb == codes "QUIT"
    then some cmd_quit
    else none

abbrev run_handler :
    Env → Addr → Session → Text → Option Handler → SmtpServer → Session × SmtpServer
run_handler env addr session arg none srv =
    (session, send_reply env addr (codes "500 Command unrecognized") srv)
run_handler env addr session arg (some handler) srv = handler env addr session arg srv

abbrev run_command : Env → Addr → Session → Option (Text × Text) → SmtpServer → Session × SmtpServer
run_command env addr session none srv =
    (session, send_reply env addr (codes "500 Syntax error") srv)
run_command env addr session (some (verb, arg)) srv =
    run_handler env addr session arg (handler_of verb) srv

-- A line of commands.
unfoldable pub handle_line : Env → Addr → Text → Session → SmtpServer → Session × SmtpServer
handle_line env addr line session srv =
    run_command env addr session (match_cmd (strip (decode_ignore line))) srv

-- What the session's buffer holds when the loop ends with `buf`.
abbrev settle : Text → LineBuffer → LineBuffer
settle buf in_loop = LineBuffer.separate buf
settle buf (separate bytes) = LineBuffer.separate bytes

abbrev pub end_loop : Text → Session → SmtpServer → Session × SmtpServer
end_loop buf session srv = (record session { line_buffer = settle buf session.line_buffer }, srv)

abbrev pub crlf : Text
crlf = cr ∷ lf ∷ []

-- `while True`: each round takes a line off `buf`.
unfoldable pub command_loop : ℕ → Env → Addr → Text → Session → SmtpServer → Session × SmtpServer
command_loop zero env addr buf session srv = end_loop buf session srv
command_loop (suc rounds) env addr buf session srv = elim (find crlf buf) [
  | none ↦ end_loop buf session srv
  | some idx ↦
      let (session', srv') = handle_line env addr (take idx buf) session srv in
      command_loop rounds env addr (drop (idx + 2) buf) session' srv'
]

abbrev pub bytes_of : LineBuffer → Text
bytes_of in_loop = []
bytes_of (separate bytes) = bytes

unfoldable pub handle_command_stream :
    Env → Addr → Session → Text → SmtpServer → Session × SmtpServer
handle_command_stream env addr session packet srv =
    let buf = bytes_of session.line_buffer ++ packet in
    command_loop (suc (length buf)) env addr buf
      (record session { line_buffer = LineBuffer.in_loop }) srv

abbrev is_reading : SmtpState → Bool
is_reading reading_data_stream = true
is_reading _ = false

-- A session that is still in `sessions` has what its handlers made of it.
abbrev pub put_session : Addr → Session × SmtpServer → SmtpServer
put_session addr (session, srv) =
    if contains addr srv.sessions
    then record srv { sessions = insert addr session srv.sessions }
    else srv

unfoldable pub process_session : Env → Addr → Text → Session → SmtpServer → Session × SmtpServer
process_session env addr packet session srv =
    if is_reading session.state
    then handle_data_stream env addr session packet srv
    else handle_command_stream env addr session packet srv

abbrev process_found : Env → Addr → Text → Option Session → SmtpServer → SmtpServer
process_found env addr packet none srv = srv
process_found env addr packet (some session) srv =
    put_session addr (process_session env addr packet session srv)

unfoldable pub process_packet : Env → Addr → Text → SmtpServer → SmtpServer
process_packet env addr packet srv = process_found env addr packet (lookup addr srv.sessions) srv

abbrev pub session_timeout : ℕ
session_timeout = 300

-- Addresses that sent nothing for longer than the timeout.
unfoldable pub stale_addrs : ℕ → Dict Addr ℕ → List Addr
stale_addrs now [] = []
stale_addrs now ((a, last_ts) ∷ rest) =
    let others = stale_addrs now rest in
    if ltb session_timeout (now - last_ts) then a ∷ others else others

unfoldable pub reap : List Addr → SmtpServer → SmtpServer
reap [] srv = srv
reap (a ∷ rest) srv = reap rest (cleanup_session a srv)

unfoldable pub open_session : Env → Addr → SmtpServer → SmtpServer
open_session env addr srv =
    if contains addr srv.sessions
    then srv
    else send_reply env addr (codes "220 Welcome Simple SMTP Server")
        (record srv { sessions = insert addr create_session srv.sessions })

-- A round of the serve loop at the times `time` and `now`.
unfoldable pub serve_packet : Env → ℕ → ℕ → Text → Addr → SmtpServer → SmtpServer
serve_packet env time now packet addr srv =
    let active = record srv { last_activity = insert addr time srv.last_activity } in
    let reaped = reap (stale_addrs now active.last_activity) active in
    process_packet env addr packet (open_session env addr reaped)
