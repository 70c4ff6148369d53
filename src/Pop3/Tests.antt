-- ===== src/Pop3/Tests.antt =====
-- The theorems on the POP3 server at concrete sessions.
use rdt_mail_service.Prelude.{
  none, ◌≡◌, refl, arith, true, false, [], ◌∷◌, ◌++◌, some, Dict, lookup, contains, insert,
}
use rdt_mail_service.Prelude.Text.{
  Text, text_eq, codes, cr, lf, lower, lower_code, is_space, upper, upper_code, split, split_words,
  split_lines, decode_ignore, strip, lstrip, rstrip,
}
use rdt_mail_service.Disk.{path_eq, metadata_json, Entry, Faults, mailbox_dir, read_file}
use rdt_mail_service.Auth.User.{User, new_user, is_blank}
use rdt_mail_service.Auth.UserManager.{get_user}
use rdt_mail_service.Mailbox.Reader
use rdt_mail_service.Mailbox.Reader.{metadata_path, visible}
use rdt_mail_service.Mailbox.Storage.{list_messages}
use rdt_mail_service.Mailbox.Storage.Deleting.{Works, Readable}
use rdt_mail_service.Rdt.Dispatcher.{Addr, addr_eq, init}
use rdt_mail_service.Pop3.Server.{
  Pop3State, Session, create_session, Pop3Server, Env, send_reply, Outcome, cmd_user,
}
use rdt_mail_service.Pop3.Serving.{cmd_quit, handler_of, handle_command, handle_lines, serve_packet}
use rdt_mail_service.Pop3.Serving.Marks.{Numbers, drop_marked}
use rdt_mail_service.Pop3.Serving.Quit.{cmd_quit-listing}
use rdt_mail_service.Pop3.Serving.Access.{Authorized, Authorized-authorization}
use rdt_mail_service.Pop3.Serving.Login.{LineBefore, handle_command-LineBefore}
use rdt_mail_service.Pop3.Serving.Failures.{quit_first_ends_loop}
use rdt_mail_service.Pop3.Serving.Sessions.{
  Said, heard_in, AllAuthorized, Authorized-insert, serve_packet-AllAuthorized,
}

abbrev pub client : Addr
client = (codes "127.0.0.1", 40000)

abbrev pub no_faults : Faults
no_faults op path = false

abbrev pub env : Env
env = record { network = λ m n. some []; io = no_faults }

abbrev pub bob : User
bob = record { username = codes "bob"; password = []; mailbox_path = mailbox_dir (codes "bob") }

abbrev entry : Text → Entry
entry uid = record { uid = some uid; size = some 7; deleted = some false }

abbrev pub messages : Dict Text Entry
messages = (codes "1.msg", entry (codes "u1")) ∷ (codes "2.msg", entry (codes "u2")) ∷ []

abbrev pub server : Dict Addr Session → Pop3Server
server sessions = record {
  connections = record {
    senders = [];
    dispatcher = init;
    receiver = record { expected_seqs = []; running = true };
    replies = [];
  };
  storage = record {
    locks = [];
    disk = (metadata_path (codes "bob"), metadata_json (record { messages = some messages })) ∷ [];
  };
  user_manager = record { users = (codes "bob", bob) ∷ [] };
  sessions = sessions;
}

abbrev open_mailbox : Session
open_mailbox = record {
  state = Pop3State.transaction;
  user = some (codes "Bob");
  marked_for_deletion = 2 ∷ [];
}

pub bob_made : new_user open_mailbox.user [] ≡ some bob
unfolding new_user is_blank strip lstrip rstrip is_space lower lower_code mailbox_dir
bob_made = refl

works : Works no_faults bob
works = record { reads = refl; writes = refl; replaces = refl }

readable : Readable no_faults bob (server []).storage.disk
unfolding Reader.load_metadata read_file contains lookup path_eq text_eq mailbox_dir
readable = record { messages = messages; known = refl; unique = (refl, (refl, tt)) }

marks : Numbers (list_messages no_faults bob (server []).storage).0 open_mailbox.marked_for_deletion
unfolding list_messages Reader.list_messages Reader.load_metadata visible read_file contains lookup
    path_eq text_eq mailbox_dir
marks = (omega arith, omega arith, tt)

cmd_quit-listing_example :
    (srv' : Pop3Server) × (cmd_quit env client open_mailbox [] (server [])
      ≡ Outcome.done open_mailbox srv')
    × (srv'.connections.replies
        ≡ (client, codes "+OK POP3 server signing off" ++ cr ∷ lf ∷ []) ∷ [])
    × ((list_messages no_faults bob srv'.storage).0
        ≡ drop_marked (2 ∷ []) 1 (list_messages no_faults bob (server []).storage).0)
cmd_quit-listing_example =
    cmd_quit-listing env client open_mailbox [] (server []) bob refl bob_made works readable marks

abbrev one_session : Pop3Server
one_session = server ((client, create_session) ∷ [])

-- Nobody has said a password.
abbrev silent : Said
silent a password = ⊥

nobody :
    (a : Addr) (s : Session)
    → lookup a [] ≡ some s
    → Authorized (silent a) one_session.user_manager s
unfolding lookup
nobody a s e = absurd (ground (arith, e))

one_session-AllAuthorized : AllAuthorized silent one_session
unfolding insert
one_session-AllAuthorized =
    Authorized-insert silent one_session.user_manager [] client create_session nobody
      (Authorized-authorization (silent client) one_session.user_manager create_session refl)

abbrev after_user : Pop3Server
after_user = record (send_reply env client (codes "+OK User bob accepted") one_session) {
  sessions = (client, record create_session { user = some (codes "bob") }) ∷ [];
}

user_accepted :
    serve_packet env client (codes "USER bob" ++ cr ∷ lf ∷ []) one_session ≡ some after_user
unfolding serve_packet handle_lines handle_command handler_of cmd_user get_user decode_ignore
    split_lines split split_words is_space upper upper_code lower lower_code lookup insert text_eq
    addr_eq send_reply
user_accepted = refl

serve_packet-AllAuthorized_example :
    AllAuthorized (heard_in client (codes "USER bob" ++ cr ∷ lf ∷ []) silent) after_user
    × (after_user.user_manager ≡ one_session.user_manager)
serve_packet-AllAuthorized_example =
    serve_packet-AllAuthorized silent env client (codes "USER bob" ++ cr ∷ lf ∷ []) one_session
      after_user one_session-AllAuthorized user_accepted

handle_command-LineBefore_example :
    LineBefore
      (record create_session { user = some (codes "bob") })
      (codes "PASS pw")
      one_session
      (handle_command env client
        (record create_session { user = some (codes "bob") })
        (codes "PASS pw")
        one_session)
handle_command-LineBefore_example =
    handle_command-LineBefore env client (record create_session { user = some (codes "bob") })
      (codes "PASS pw") one_session refl

new_client : lookup client (server []).sessions ≡ none
unfolding lookup
new_client = refl

quit_first_ends_loop_example :
    serve_packet env client (codes "QUIT" ++ cr ∷ lf ∷ []) (server []) ≡ none
quit_first_ends_loop_example = quit_first_ends_loop env client (server []) new_client
