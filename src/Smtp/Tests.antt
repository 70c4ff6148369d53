-- ===== src/Smtp/Tests.antt =====
-- The theorems on the SMTP server at concrete sessions.
use rdt_mail_service.Prelude.{
  List, ◌≡◌, refl, true, false, [], ◌∷◌, ◌++◌, none, some, Dict, lookup, contains, if◌then◌else◌,
}
use rdt_mail_service.Prelude.Text.{
  Text, text_eq, codes, find, starts_with, lower, lower_code, strip, ends_with, contains_sub, upper,
  upper_code, is_space, rstrip, lstrip,
}
use rdt_mail_service.Disk.{path_eq, metadata_json, Entry, Faults, mailbox_dir, read_file}
use rdt_mail_service.Auth.User.{User}
use rdt_mail_service.Auth.UserManager.{get_user}
use rdt_mail_service.Mailbox.Reader
use rdt_mail_service.Mailbox.Reader.{metadata_path}
use rdt_mail_service.Mailbox.Writer.{filename_of}
use rdt_mail_service.Mailbox.Storage.{list_messages}
use rdt_mail_service.Rdt.Dispatcher.{Addr, addr_eq, init}
use rdt_mail_service.Connections.{end_line}
use rdt_mail_service.Smtp.Session.{SmtpState, LineBuffer, Session, parse_angle_addr}
use rdt_mail_service.Smtp.Server.{
  SmtpServer, Parsed, Env, cmd_mail, cmd_rcpt, cmd_data, address_after,
}
use rdt_mail_service.Smtp.Streams.{
  local_part, crlf, process_session, stale_addrs, reap, serve_packet, smtp_terminator,
}
use rdt_mail_service.Smtp.Streams.Orderly.{AllFollow, serve_packet-AllFollow}
use rdt_mail_service.Smtp.Streams.Chunks.{feed, feed-concat}
use rdt_mail_service.Smtp.Streams.Reaping.{AllOnce, is_old, reap-outcome}
use rdt_mail_service.Prelude.Text.{split_lines}
use rdt_mail_service.Smtp.Streams.{handle_command_stream}
use rdt_mail_service.Smtp.Streams.Lines.{run_parts, handle_command_stream-run_parts}
use rdt_mail_service.Smtp.Streams.{process_packet}
use rdt_mail_service.Smtp.Pool.{Pool, submit_all, Reach}
use rdt_mail_service.Smtp.Pool.Swaps.{submit_all-swapped}
use rdt_mail_service.Smtp.Streams.Deliveries.{rejected_recipient_stays, message_outcome}

abbrev pub client : Addr
client = (codes "127.0.0.1", 40000)

abbrev no_faults : Faults
no_faults op path = false

-- A parser that finds no headers, and a network that brings nothing.
abbrev pub env : Env
env = record {
  network = λ m n. some [];
  io = no_faults;
  parsebytes = λ t. some (record {
    as_string = some t;
    message_id = none;
    subject = none;
    sender = none;
    date = none;
  });
  made_uid = codes "<0-0>";
  stamp = codes "2";
  new_uid = codes "x";
}

abbrev pub bob : User
bob = record {
  username = codes "bob";
  password = codes "pw";
  mailbox_path = mailbox_dir (codes "bob");
}

abbrev entry : Entry
entry = record { uid = some (codes "u1"); size = some 7; deleted = some false }

abbrev messages : Dict Text Entry
messages = (codes "1.msg", entry) ∷ []

abbrev pub server : SmtpServer
server = record {
  connections = record {
    senders = [];
    dispatcher = init;
    receiver = record { expected_seqs = []; running = true };
    replies = [];
  };
  storage = record {
    locks = [];
    disk = (metadata_path (codes "bob"), metadata_json (record { messages = some messages })) ∷ [];
  };
  user_manager = record { users = (codes "bob", bob) ∷ [] };
  sessions = [];
  last_activity = (client, 7) ∷ [];
}

serve_packet-AllFollow_example :
    AllFollow server client
      (codes "HELO x" ++ crlf)
      (serve_packet env 10 10 (codes "HELO x" ++ crlf) client server)
serve_packet-AllFollow_example =
    serve_packet-AllFollow env 10 10 (codes "HELO x" ++ crlf) client server

abbrev session_to : Text → Session
session_to recipient = record {
  state = SmtpState.reading_data_stream;
  mail_from = some (codes "amy@x");
  rcpt_to = recipient ∷ [];
  data_buffer = codes "he";
  line_buffer = LineBuffer.separate [];
}

incomplete : find smtp_terminator (codes "he" ++ codes "llo" ++ crlf ++ codes ".") ≡ none
unfolding find starts_with
incomplete = refl

feed-concat_example :
    feed env client
      (codes "llo" ∷ (crlf ++ codes ".") ∷ [])
      crlf
      (session_to (codes "bob@x"))
      server
    ≡ process_session env client
        (codes "llo" ++ crlf ++ codes "." ++ crlf)
        (session_to (codes "bob@x"))
        server
feed-concat_example =
    feed-concat env client (codes "llo" ∷ (crlf ++ codes ".") ∷ []) crlf
      (session_to (codes "bob@x")) server refl incomplete

active_once : AllOnce server.last_activity
unfolding contains
active_once = (refl, tt)

reap-outcome_example :
    let after = reap (stale_addrs 308 server.last_activity) server in
    let old = is_old 308 (lookup client server.last_activity) in
    (lookup client after.sessions ≡ (if old then none else lookup client server.sessions))
    × (lookup client after.last_activity
        ≡ (if old then none else lookup client server.last_activity))
reap-outcome_example = reap-outcome 308 server client active_once

abbrev last_packet : Text
last_packet = codes "llo" ++ smtp_terminator

complete_at_5 : find smtp_terminator (codes "he" ++ last_packet) ≡ some 5
unfolding find starts_with
complete_at_5 = refl

abbrev parsed : Parsed
parsed = record {
  as_string = some (codes "hello");
  message_id = none;
  subject = none;
  sender = none;
  date = none;
}

bob_found : get_user (local_part (codes "bob@x")) server.user_manager ≡ some bob
unfolding get_user local_part lower lower_code lookup text_eq
bob_found = refl

eve_missing : get_user (local_part (codes "eve@x")) server.user_manager ≡ none
unfolding get_user local_part lower lower_code lookup text_eq
eve_missing = refl

known :
    (Reader.load_metadata no_faults (metadata_path (codes "bob")) server.storage.disk).messages
    ≡ some messages
unfolding Reader.load_metadata read_file contains lookup path_eq text_eq mailbox_dir
known = refl

free : contains (filename_of (codes "2")) messages ≡ false
unfolding contains text_eq
free = refl

mail_address : address_after (codes "FROM:") (codes "FROM:<amy@x>") ≡ some (codes "amy@x")
unfolding parse_angle_addr strip ends_with contains_sub starts_with upper upper_code is_space lstrip
    rstrip text_eq
mail_address = refl

rcpt_address : address_after (codes "TO:") (codes "to: bob@x") ≡ some (codes "bob@x")
unfolding parse_angle_addr strip ends_with contains_sub starts_with upper upper_code is_space lstrip
    rstrip text_eq
rcpt_address = refl

rejected_recipient_stays_example :
    let (s1, srv1) = process_session env client last_packet (session_to (codes "eve@x")) server in
    let (s2, srv2) = cmd_mail env client s1 (codes "FROM:<amy@x>") srv1 in
    let (s3, srv3) = cmd_rcpt env client s2 (codes "to: bob@x") srv2 in
    let (s4, srv4) = cmd_data env client s3 [] srv3 in
    (srv1.connections.replies ≡ (client, end_line (codes "550 No such user")) ∷ [])
    × (srv1.storage ≡ server.storage)
    × (s4.state ≡ SmtpState.reading_data_stream)
    × (s4.rcpt_to ≡ codes "eve@x" ∷ codes "bob@x" ∷ [])
rejected_recipient_stays_example =
    rejected_recipient_stays env client (session_to (codes "eve@x")) last_packet server 5 parsed
      (codes "eve@x") [] refl refl complete_at_5 refl (codes "FROM:<amy@x>") (codes "to: bob@x")
      (codes "amy@x") (codes "bob@x") eve_missing mail_address rcpt_address

message_outcome_example :
    let (session', srv') =
      process_session env client last_packet (session_to (codes "bob@x")) server in
    (srv'.connections.replies
      ≡ (client, end_line (codes "250 OK: Message accepted for delivery")) ∷ [])
    × ((list_messages no_faults bob srv'.storage).0
        ≡ (list_messages no_faults bob server.storage).0
          ++ (codes "2.msg", 5, some (codes "<0-0>")) ∷ [])
    × (session'.state ≡ SmtpState.wait_for_mail_from)
    × (session'.rcpt_to ≡ [])
message_outcome_example =
    message_outcome env client (session_to (codes "bob@x")) last_packet server 5 parsed
      (codes "bob@x") [] refl refl complete_at_5 refl bob (codes "hello") messages bob_found refl
      known refl free

handle_command_stream-run_parts_example :
    handle_command_stream env client
      (record (session_to (codes "bob@x")) { state = SmtpState.wait_for_helo })
      (codes "NOOP" ++ crlf ++ codes "HE")
      server
    ≡ run_parts env client
        (split_lines [] (codes "NOOP" ++ crlf ++ codes "HE"))
        (record (session_to (codes "bob@x")) {
          state = SmtpState.wait_for_helo;
          line_buffer = LineBuffer.in_loop;
        })
        server
handle_command_stream-run_parts_example =
    handle_command_stream-run_parts env client
      (record (session_to (codes "bob@x")) { state = SmtpState.wait_for_helo })
      (codes "NOOP" ++ crlf ++ codes "HE") server

-- The client's session reads a message, and no worker is busy.
abbrev idle : Pool
idle = record {
  server = record server { sessions = (client, session_to (codes "bob@x")) ∷ [] };
  waiting = [];
}

reads : lookup client idle.server.sessions ≡ some (session_to (codes "bob@x"))
unfolding lookup addr_eq text_eq
reads = refl

submit_all-swapped_example :
    (t : Pool) × Reach env (submit_all client (codes "llo" ∷ codes "!" ∷ []) idle) t
    × (t.waiting ≡ [])
    × (lookup client t.server.sessions
        ≡ some (record (session_to (codes "bob@x")) {
          data_buffer = (codes "he" ++ codes "!") ++ codes "llo";
        }))
submit_all-swapped_example =
    submit_all-swapped env client (session_to (codes "bob@x")) (codes "llo") (codes "!") idle refl
      refl refl refl refl reads

abbrev busy : Pool
busy = submit_all client (codes "llo" ∷ codes "!" ∷ []) idle

abbrev half_done : Pool
half_done = record {
  server = process_packet env client (codes "!") busy.server;
  waiting = (client, codes "llo") ∷ [];
}

abbrev all_done : Pool
all_done = record {
  server = process_packet env client (codes "llo") half_done.server;
  waiting = [];
}
