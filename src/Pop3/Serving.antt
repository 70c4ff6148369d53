-- ===== src/Pop3/Serving.antt =====
-- Reading and deleting messages, and the serve loop, of
-- email-network-service/src/pop3/pop3_server.py.
pub mod Access
pub mod Marks
pub mod Quit
pub mod Handlers
pub mod Sessions
pub mod Login
pub mod Failures
use rdt_mail_service.Prelude.{
  ℕ, suc, ◌+◌, ◌-◌, Bool, true, false, not, ◌&&◌, List, [], ◌∷◌, ◌++◌, Option, none, some, ltb,
  ◌==◌, nat_eq, lookup, insert, length, get_elem?, if◌then◌else◌,
}
use rdt_mail_service.Prelude.Text.{Text, text_eq, codes, upper, split, split_lines, decode_ignore}
use rdt_mail_service.Auth.User.{User, new_user}
use rdt_mail_service.Mailbox.Storage.{Storage, list_messages, get_message_content, delete_email}
use rdt_mail_service.Rdt.Dispatcher.{Addr, addr_eq}
use rdt_mail_service.Rdt.Sender.{Sent, acked, connection_error, struct_error, os_error}
use rdt_mail_service.Connections.{transmit, forget}
use rdt_mail_service.Pop3.Numbers.{ℤ, parse_int, decimal, show_int}
use rdt_mail_service.Pop3.Server.{
  authorization, transaction, Session, create_session, Pop3Server, Env, send_reply, Outcome, done,
  escaped, Handler, reply, not_allowed, cmd_user, cmd_pass, cmd_stat, cmd_list, Messages, selected,
  with_messages,
}

abbrev pub is_ascii : Text → Bool
is_ascii [] = true
is_ascii (c ∷ s) = ltb c 128 && is_ascii s

-- `self._get_sender(addr).send(...)`, whose exceptions no one catches, then the end.
abbrev pub sent_content : Env → Addr → Session → Sent × Pop3Server → Outcome
sent_content env addr session (acked, srv) = reply env addr (codes ".") session srv
sent_content env addr session (connection_error, srv) = Outcome.escaped srv
sent_content env addr session (struct_error, srv) = Outcome.escaped srv
sent_content env addr session (os_error, srv) = Outcome.escaped srv

-- `encode("ascii")` of other text raises `UnicodeEncodeError`, which is a `ValueError`.
unfoldable pub send_content : Env → Addr → Session → Text → Pop3Server → Outcome
send_content env addr session content srv =
    let (sent, connections') = transmit env.network addr content srv.connections in
    if is_ascii content
    then sent_content env addr session (sent, record srv { connections = connections' })
    else reply env addr (codes "-ERR Invalid message number") session srv

-- An empty content counts as none.
abbrev retr_content : Env → Addr → Session → Option Text → Pop3Server → Outcome
retr_content env addr session none srv =
    reply env addr (codes "-ERR could not retrieve message") session srv
retr_content env addr session (some []) srv =
    reply env addr (codes "-ERR could not retrieve message") session srv
retr_content env addr session (some (c ∷ content)) srv =
    send_content env addr session (c ∷ content)
      (send_reply env addr (codes "+OK " ++ decimal (length (c ∷ content)) ++ codes " octets") srv)

abbrev retr_one :
    Env → Addr → Session → User → Option (ℕ × Text × ℕ × Option Text) → Pop3Server → Outcome
retr_one env addr session user none srv = reply env addr (codes "-ERR No such message") session srv
retr_one env addr session user (some (n, filename, size, uid)) srv =
    let (content, storage') = get_message_content env.io user filename srv.storage in
    retr_content env addr session content (record srv { storage = storage' })

abbrev invalid_number : Env → Addr → Session → Pop3Server → Outcome
invalid_number env addr session srv =
    reply env addr (codes "-ERR Invalid message number") session srv

unfoldable pub cmd_retr : Handler
cmd_retr env addr session args srv = elim session.state [
  | authorization ↦ not_allowed env addr session srv
  | transaction ↦ elim args [
    | [] ↦ reply env addr (codes "-ERR Missing argument") session srv
    | arg ∷ rest ↦ elim (parse_int arg) [
      | none ↦ invalid_number env addr session srv
      | some n ↦
          with_messages env session (invalid_number env addr session srv)
            (λ user messages srv'.
              retr_one env addr session user (selected n session messages) srv')
            srv
    ]
  ]
]

abbrev dele_one :
    Env → Addr → Session → ℤ → Option (ℕ × Text × ℕ × Option Text) → Pop3Server → Outcome
dele_one env addr session number none srv =
    reply env addr
      (codes "-ERR Message " ++ show_int number ++ codes " already deleted or does not exist")
      session srv
dele_one env addr session number (some (n, name, size, uid)) srv =
    reply env addr (codes "+OK Message " ++ show_int number ++ codes " deleted")
      (record session { marked_for_deletion = n ∷ session.marked_for_deletion }) srv

-- `args[0]` of no arguments raises `IndexError`.
unfoldable pub cmd_dele : Handler
cmd_dele env addr session args srv = elim session.state [
  | authorization ↦ not_allowed env addr session srv
  | transaction ↦ elim args [
    | [] ↦ invalid_number env addr session srv
    | arg ∷ rest ↦ elim (parse_int arg) [
      | none ↦ invalid_number env addr session srv
      | some n ↦
          with_messages env session (invalid_number env addr session srv)
            (λ user messages srv'. dele_one env addr session n (selected n session messages) srv')
            srv
    ]
  ]
]

-- `sorted(list(marked), reverse=True)`
unfoldable pub insert_sorted : ℕ → List ℕ → List ℕ
insert_sorted n [] = n ∷ []
insert_sorted n (m ∷ ms) =
    let later = insert_sorted n ms in if ltb n m then m ∷ later else n ∷ m ∷ ms

unfoldable pub sort_desc : List ℕ → List ℕ
unfolding insert_sorted
sort_desc [] = []
sort_desc (n ∷ ns) = insert_sorted n (sort_desc ns)

-- `messages[msg_num - 1][0]` of a number above 0.
unfoldable pub filename_at : Messages → ℕ → Option Text
filename_at messages n = elim (get_elem? messages (n - 1)) [ none ↦ none | some msg ↦ some msg.0 ]

-- The loop of QUIT; the answer is False if `messages` has no such number, which raises.
unfoldable pub delete_marked : Env → User → Messages → List ℕ → Storage → Bool × Storage
delete_marked env user messages [] s = (true, s)
delete_marked env user messages (n ∷ rest) s = elim (filename_at messages n) [
  | none ↦ (false, s)
  | some filename ↦ delete_marked env user messages rest (delete_email env.io user filename s).1
]

abbrev pub sign_off : Env → Addr → Session → Pop3Server → Outcome
sign_off env addr session srv =
    let replied = send_reply env addr (codes "+OK POP3 server signing off") srv in
    Outcome.done session (record replied { connections = forget addr replied.connections })

abbrev pub quit_deleted : Env → Addr → Session → Bool × Storage → Pop3Server → Outcome
quit_deleted env addr session (false, storage') srv =
    Outcome.escaped (record srv { storage = storage' })
quit_deleted env addr session (true, storage') srv =
    sign_off env addr session (record srv { storage = storage' })

-- `User(session["user"])` comes first, whatever the state.
unfoldable pub cmd_quit : Handler
cmd_quit env addr session args srv = elim (new_user session.user []) [
  | none ↦ Outcome.escaped srv
  | some user ↦ elim session.state [
    | authorization ↦ sign_off env addr session srv
    | transaction ↦
        let (messages, storage') = list_messages env.io user srv.storage in
        quit_deleted env addr session
          (delete_marked env user messages (sort_desc session.marked_for_deletion) storage') srv
  ]
]

-- `getattr(self, f"_cmd_{command}", None)`
unfoldable pub handler_of : Text → Option Handler
handler_of command =
    if command == codes "USER"
    then some cmd_user
    else if command == codes "PASS"
    then some cmd_pass
    else if command == codes "STAT"
    then some cmd_stat
    else if command == codes "LIST"
    then some cmd_list
    else if command == codes "RETR"
    then some cmd_retr
    else if command == codes "DELE"
    then some cmd_dele
    else if command == codes "QUIT"
    then some cmd_quit
    else none

abbrev run_handler : Env → Addr → Session → List Text → Option Handler → Pop3Server → Outcome
run_handler env addr session args none srv =
    reply env addr (codes "-ERR Unknown command") session srv
run_handler env addr session args (some handler) srv = handler env addr session args srv

unfoldable pub handle_command : Env → Addr → Session → Text → Pop3Server → Outcome
handle_command env addr session line srv = elim (split line) [
  | [] ↦ Outcome.done session srv
  | command ∷ args ↦ run_handler env addr session args (handler_of (upper command)) srv
]

-- The lines of a packet, until an exception escapes.
unfoldable pub handle_lines : Env → Addr → Session → List Text → Pop3Server → Outcome
handle_lines env addr session [] srv = Outcome.done session srv
handle_lines env addr session (line ∷ rest) srv = elim (handle_command env addr session line srv) [
  | done session' srv' ↦ handle_lines env addr session' rest srv'
  | escaped srv' ↦ Outcome.escaped srv'
]

-- A session is there after the packet; `none` is the end of the loop.
abbrev keep_session : Addr → Outcome → Option Pop3Server
keep_session addr (done session srv) =
    some (record srv { sessions = insert addr session srv.sessions })
keep_session addr (escaped srv) = none

abbrev open_session : Env → Addr → Option Session → Pop3Server → Session × Pop3Server
open_session env addr (some session) srv = (session, srv)
open_session env addr none srv = (
  create_session,
  send_reply env addr (codes "+OK POP3 server ready")
      (record srv { sessions = insert addr create_session srv.sessions }),
)

unfoldable pub serve_packet : Env → Addr → Text → Pop3Server → Option Pop3Server
serve_packet env addr packet srv =
    let (session, srv') = open_session env addr (lookup addr srv.sessions) srv in
    keep_session addr (handle_lines env addr session (split_lines [] (decode_ignore packet)) srv')
