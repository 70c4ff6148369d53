-- ===== src/Pop3/Server.antt =====
-- The command handlers of email-network-service/src/pop3/pop3_server.py. A handler may raise, and
-- no one catches that: it is the end of the serve loop.
use rdt_mail_service.Prelude.{
  ℕ, zero, suc, ◌+◌, Bool, false, ◌||◌, List, [], ◌∷◌, ◌++◌, map, Option, none, some, ltb, ◌==◌,
  nat_eq, Dict, length, get_elem?, if◌then◌else◌,
}
use rdt_mail_service.Prelude.Text.{Text, text_eq, codes}
use rdt_mail_service.Disk.{Faults}
use rdt_mail_service.Auth.User.{User, new_user}
use rdt_mail_service.Auth.UserManager.{UserManager, get_user, authenticate}
use rdt_mail_service.Mailbox.Storage.{Storage, list_messages}
use rdt_mail_service.Rdt.Dispatcher.{Addr, addr_eq}
use rdt_mail_service.Connections.{Connections, Network, transmit, end_line}
use rdt_mail_service.Pop3.Numbers.{ℤ, pos, negsuc, parse_int, decimal}

pub data Pop3State : Type 0 where
  authorization transaction : Pop3State

-- `marked_for_deletion` is a set.
pub record Session : Type 0 where
  pub state : Pop3State
  pub user : Option Text
  pub marked_for_deletion : List ℕ

abbrev pub create_session : Session
create_session = record { state = Pop3State.authorization; user = none; marked_for_deletion = [] }

pub record Pop3Server : Type 0 where
  pub connections : Connections
  pub storage : Storage
  pub user_manager : UserManager
  pub sessions : Dict Addr Session

pub record Env : Type 0 where
  pub network : Network
  pub io : Faults

-- `encode("ascii", errors="replace")`
unfoldable pub encode_replace : Text → Text
encode_replace = map (λ (c : ℕ). if ltb c 128 then c else b'?')

unfoldable pub send_reply : Env → Addr → Text → Pop3Server → Pop3Server
send_reply env addr msg srv = record srv {
  connections = (transmit env.network addr (encode_replace (end_line msg)) srv.connections).1;
}

-- How a handler ends: it returns, or an exception leaves it.
pub data Outcome : Type 0 where
  done : Session → Pop3Server → Outcome
  escaped : Pop3Server → Outcome

abbrev pub Handler : Type 0
Handler = Env → Addr → Session → List Text → Pop3Server → Outcome

abbrev pub reply : Env → Addr → Text → Session → Pop3Server → Outcome
reply env addr msg session srv = Outcome.done session (send_reply env addr msg srv)

abbrev pub not_allowed : Env → Addr → Session → Pop3Server → Outcome
not_allowed env addr session srv =
    reply env addr (codes "-ERR Command not allowed here") session srv

abbrev pub user_found : Env → Addr → Session → Text → Option User → Pop3Server → Outcome
user_found env addr session username none srv =
    reply env addr (codes "-ERR No such user") session srv
user_found env addr session username (some u) srv =
    reply env addr (codes "+OK User " ++ username ++ codes " accepted")
      (record session { user = some username }) srv

unfoldable pub cmd_user : Handler
cmd_user env addr session args srv = elim session.state [
  | transaction ↦ not_allowed env addr session srv
  | authorization ↦ elim args [
    | [] ↦ reply env addr (codes "-ERR Missing argument") session srv
    | username ∷ rest ↦
        user_found env addr session username (get_user username srv.user_manager) srv
  ]
]

abbrev pub pass_checked : Env → Addr → Session → Option User → Pop3Server → Outcome
pass_checked env addr session none srv =
    reply env addr (codes "-ERR Invalid credentials") (record session { user = none }) srv
pass_checked env addr session (some u) srv =
    reply env addr (codes "+OK Mailbox open") (record session { state = Pop3State.transaction }) srv

-- `not session["user"]`, for a user that is None or "".
abbrev pub pass_for : Env → Addr → Session → Option Text → List Text → Pop3Server → Outcome
pass_for env addr session none args srv = not_allowed env addr session srv
pass_for env addr session (some []) args srv = not_allowed env addr session srv
pass_for env addr session (some (c ∷ name)) [] srv =
    reply env addr (codes "-ERR Missing password") session srv
pass_for env addr session (some (c ∷ name)) (password ∷ rest) srv =
    pass_checked env addr session (authenticate (c ∷ name) password srv.user_manager) srv

unfoldable pub cmd_pass : Handler
cmd_pass env addr session args srv = elim session.state [
  | transaction ↦ not_allowed env addr session srv
  | authorization ↦ pass_for env addr session session.user args srv
]

abbrev pub Messages : Type 0
Messages = List (Text × ℕ × Option Text)

abbrev pub member : ℕ → List ℕ → Bool
member n [] = false
member n (m ∷ ms) = (m == n) || member n ms

-- The messages from number `i` on that are not marked, each with its number.
unfoldable pub undeleted : List ℕ → ℕ → Messages → List (ℕ × Text × ℕ × Option Text)
undeleted marked i [] = []
undeleted marked i ((name, size, uid) ∷ rest) =
    let others = undeleted marked (suc i) rest in
    if member i marked then others else (i, name, size, uid) ∷ others

abbrev pub sum_sizes : List (ℕ × Text × ℕ × Option Text) → ℕ
sum_sizes [] = 0
sum_sizes ((i, name, size, uid) ∷ rest) = size + sum_sizes rest

-- What is done in the transaction state with the user `User(session["user"])`, which may raise
-- `ValueError`, and the messages of the mailbox.
abbrev pub with_messages :
    Env → Session → (Outcome) → (User → Messages → Pop3Server → Outcome) → Pop3Server → Outcome
with_messages env session invalid k srv = elim (new_user session.user []) [
  | none ↦ invalid
  | some user ↦
      let (messages, storage') = list_messages env.io user srv.storage in
      k user messages (record srv { storage = storage' })
]

unfoldable pub cmd_stat : Handler
cmd_stat env addr session args srv = elim session.state [
  | authorization ↦ not_allowed env addr session srv
  | transaction ↦
      with_messages env session (Outcome.escaped srv)
        (λ user messages srv'.
          let left = undeleted session.marked_for_deletion 1 messages in
          reply env addr
            (codes "+OK " ++ decimal (length left) ++ codes " " ++ decimal (sum_sizes left)) session
            srv')
        srv
]

unfoldable pub send_lines : Env → Addr → List (ℕ × Text × ℕ × Option Text) → Pop3Server → Pop3Server
send_lines env addr [] srv = srv
send_lines env addr ((i, name, size, uid) ∷ rest) srv =
    send_lines env addr rest (send_reply env addr (decimal i ++ codes " " ++ decimal size) srv)

-- The message of a number, if `1 <= msg_num <= len(messages)` and it is not marked.
unfoldable pub selected : ℤ → Session → Messages → Option (ℕ × Text × ℕ × Option Text)
selected (negsuc n) session messages = none
selected (pos zero) session messages = none
selected (pos (suc i)) session messages =
    if member (suc i) session.marked_for_deletion then none else elim (get_elem? messages i) [
      | none ↦ none
      | some (name, size, uid) ↦ some (suc i, name, size, uid)
    ]

abbrev pub list_one :
    Env → Addr → Session → Option (ℕ × Text × ℕ × Option Text) → Pop3Server → Outcome
list_one env addr session none srv = reply env addr (codes "-ERR No such message") session srv
list_one env addr session (some (n, name, size, uid)) srv =
    reply env addr (codes "+OK " ++ decimal n ++ codes " " ++ decimal size) session srv

abbrev pub list_number : Env → Addr → Session → Messages → Option ℤ → Pop3Server → Outcome
list_number env addr session messages none srv =
    reply env addr (codes "-ERR Invalid message number") session srv
list_number env addr session messages (some n) srv =
    list_one env addr session (selected n session messages) srv

unfoldable pub cmd_list : Handler
cmd_list env addr session args srv = elim session.state [
  | authorization ↦ not_allowed env addr session srv
  | transaction ↦
      with_messages env session (Outcome.escaped srv)
        (λ user messages srv'. elim args [
          | [] ↦
              let headed =
                send_reply env addr (codes "+OK " ++ decimal (length messages) ++ codes " messages")
                  srv' in
              let listed =
                send_lines env addr (undeleted session.marked_for_deletion 1 messages) headed in
              reply env addr (codes ".") session listed
          | arg ∷ rest ↦ list_number env addr session messages (parse_int arg) srv'
        ])
        srv
]
