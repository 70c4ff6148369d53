-- ===== src/Pop3/Serving/Access.antt =====
-- Who may read a mailbox, in pop3_server.py.
use rdt_mail_service.Prelude.{
  ℕ, ◌≡◌, ◌≢◌, refl, sym, ◌∙◌, Bool, true, false, List, [], ◌∷◌, ◌++◌, Option, none, some, arith,
  Dict, if◌then◌else◌,
}
use rdt_mail_service.Prelude.Text.{Text, text_eq, codes}
use rdt_mail_service.Auth.User.{User, new_user}
use rdt_mail_service.Auth.UserManager.{UserManager, authenticate, get_user}
use rdt_mail_service.Mailbox.Storage.{list_messages}
use rdt_mail_service.Rdt.Dispatcher.{Addr, addr_eq}
use rdt_mail_service.Pop3.Numbers.{ℤ, decimal}
use rdt_mail_service.Pop3.Server.{
  Pop3State, authorization, transaction, Session, Pop3Server, Env, send_reply, Outcome, done,
  escaped, Handler, reply, user_found, pass_checked, pass_for, list_one, list_number, Messages,
  cmd_user, cmd_pass, cmd_stat, send_lines, selected,
}

module _ (said : Text → Type 0) where
  -- A session with a mailbox open has as its user the name of an account, which a password that was
  -- said logs in.
  abbrev pub Authorized : UserManager → Session → Type 0
  Authorized m s =
      s.state ≡ Pop3State.transaction
      → (name : Text) × (password : Text) × (u : User) × (s.user ≡ some name)
        × (authenticate name password m ≡ some u)
        × said password

  -- How a handler may end, from a session and a server with the accounts `m`.
  abbrev pub Good : UserManager → Dict Addr Session → Outcome → Type 0
  Good m sessions (done s srv) = Authorized m s × (srv.user_manager ≡ m) × (srv.sessions ≡ sessions)
  Good m sessions (escaped srv) = Unit

  abbrev pub IsGood : Handler → Type 0
  IsGood h =
      (env : Env) (addr : Addr) (s : Session) (args : List Text) (srv : Pop3Server)
      → Authorized srv.user_manager s
      → Good srv.user_manager srv.sessions (h env addr s args srv)

  pub Good-reply :
      (env : Env) (addr : Addr) (msg : Text) (s : Session) (srv : Pop3Server)
      → Authorized srv.user_manager s
      → Good srv.user_manager srv.sessions (reply env addr msg s srv)
  unfolding send_reply
  Good-reply env addr msg s srv k = (k, refl, refl)

  authorization-ne : Pop3State.authorization ≢ Pop3State.transaction
  authorization-ne e = absurd (ground arith)

  -- A session that is not logged in is authorized.
  pub Authorized-authorization :
      (m : UserManager) (s : Session) → s.state ≡ Pop3State.authorization → Authorized m s
  Authorized-authorization m s h e = absurd (authorization-ne (sym h ∙ e))

  module _ (m : UserManager) (sessions : Dict Addr Session) where
    pub Good-state :
        (st : Pop3State) (a t : Outcome)
        → (st ≡ Pop3State.authorization → Good m sessions a)
        → (st ≡ Pop3State.transaction → Good m sessions t)
        → Good m sessions (elim st [ authorization ↦ a | transaction ↦ t ])
    Good-state authorization a t f g = f refl
    Good-state transaction a t f g = g refl

    pub Good-args :
        (args : List Text) (none_given : Outcome) (given : Text → List Text → Outcome)
        → Good m sessions none_given
        → ((x : Text) (xs : List Text) → Good m sessions (given x xs))
        → Good m sessions (elim args [ [] ↦ none_given | x ∷ xs ↦ given x xs ])
    Good-args [] none_given given f g = f
    Good-args (x ∷ xs) none_given given f g = g x xs

    pub Good-option :
        {A : Type 0} (o : Option A) (missing : Outcome) (found : A → Outcome)
        → Good m sessions missing
        → ((x : A) → Good m sessions (found x))
        → Good m sessions (elim o [ none ↦ missing | some x ↦ found x ])
    Good-option none missing found f g = f
    Good-option (some x) missing found f g = g x

    pub Good-if :
        (b : Bool) (x y : Outcome)
        → Good m sessions x
        → Good m sessions y
        → Good m sessions (if b then x else y)
    Good-if true x y f g = f
    Good-if false x y f g = g

  user_found-Good :
      (env : Env) (addr : Addr) (s : Session) (name : Text) (o : Option User) (srv : Pop3Server)
      → s.state ≡ Pop3State.authorization
      → Good srv.user_manager srv.sessions (user_found env addr s name o srv)
  user_found-Good env addr s name none srv h =
      Good-reply env addr (codes "-ERR No such user") s srv
        (Authorized-authorization srv.user_manager s h)
  user_found-Good env addr s name (some u) srv h =
      Good-reply env addr (codes "+OK User " ++ name ++ codes " accepted")
        (record s { user = some name }) srv
        (Authorized-authorization srv.user_manager (record s { user = some name }) h)

  pub cmd_user-IsGood : IsGood cmd_user
  unfolding cmd_user
  cmd_user-IsGood env addr s args srv k =
      Good-state srv.user_manager srv.sessions s.state _ _
        (λ h.
          Good-args srv.user_manager srv.sessions args _ _ (Good-reply env addr _ s srv k)
            (λ name rest. user_found-Good env addr s name (get_user name srv.user_manager) srv h))
        (λ h. Good-reply env addr _ s srv k)

  pass_checked-Good :
      (env : Env) (addr : Addr) (s : Session) (name password : Text) (o : Option User)
      (srv : Pop3Server)
      → s.state ≡ Pop3State.authorization
      → s.user ≡ some name
      → authenticate name password srv.user_manager ≡ o
      → said password
      → Good srv.user_manager srv.sessions (pass_checked env addr s o srv)
  pass_checked-Good env addr s name password none srv h n e heard =
      Good-reply env addr (codes "-ERR Invalid credentials") (record s { user = none }) srv
        (Authorized-authorization srv.user_manager (record s { user = none }) h)
  pass_checked-Good env addr s name password (some u) srv h n e heard =
      Good-reply env addr (codes "+OK Mailbox open") (record s { state = Pop3State.transaction })
        srv (λ t. (name, password, u, n, e, heard))

  pass_for-Good :
      (env : Env) (addr : Addr) (s : Session) (o : Option Text) (args : List Text)
      (srv : Pop3Server)
      → s.state ≡ Pop3State.authorization
      → s.user ≡ o
      → Authorized srv.user_manager s
      → ((password : Text) (rest : List Text) → args ≡ password ∷ rest → said password)
      → Good srv.user_manager srv.sessions (pass_for env addr s o args srv)
  pass_for-Good env addr s none args srv h n k heard = Good-reply env addr _ s srv k
  pass_for-Good env addr s (some []) args srv h n k heard = Good-reply env addr _ s srv k
  pass_for-Good env addr s (some (c ∷ name)) [] srv h n k heard = Good-reply env addr _ s srv k
  pass_for-Good env addr s (some (c ∷ name)) (password ∷ rest) srv h n k heard =
      pass_checked-Good env addr s (c ∷ name) password
        (authenticate (c ∷ name) password srv.user_manager) srv h n refl (heard password rest refl)

  -- PASS, where its first word is said.
  pub cmd_pass-Good :
      (env : Env) (addr : Addr) (s : Session) (args : List Text) (srv : Pop3Server)
      → Authorized srv.user_manager s
      → ((password : Text) (rest : List Text) → args ≡ password ∷ rest → said password)
      → Good srv.user_manager srv.sessions (cmd_pass env addr s args srv)
  unfolding cmd_pass
  cmd_pass-Good env addr s args srv k heard =
      Good-state srv.user_manager srv.sessions s.state _ _
        (λ h. pass_for-Good env addr s s.user args srv h refl k heard)
        (λ h. Good-reply env addr _ s srv k)

  pub cmd_stat-IsGood : IsGood cmd_stat
  unfolding cmd_stat
  cmd_stat-IsGood env addr s args srv k =
      Good-state srv.user_manager srv.sessions s.state _ _ (λ h. Good-reply env addr _ s srv k)
        (λ h. Good-option srv.user_manager srv.sessions (new_user s.user []) _ _ tt (λ user.
          Good-reply env addr _ s
            (record srv { storage = (list_messages env.io user srv.storage).1 }) k))

  pub send_lines-keeps :
      (env : Env) (addr : Addr) (lines : List (ℕ × Text × ℕ × Option Text)) (srv : Pop3Server)
      → ((send_lines env addr lines srv).user_manager ≡ srv.user_manager)
        × ((send_lines env addr lines srv).sessions ≡ srv.sessions)
  unfolding send_lines send_reply
  send_lines-keeps env addr [] srv = (refl, refl)
  send_lines-keeps env addr ((i, name, size, uid) ∷ rest) srv =
      send_lines-keeps env addr rest
        (send_reply env addr (decimal i ++ codes " " ++ decimal size) srv)

  pub Good-reply_after :
      (env : Env) (addr : Addr) (msg : Text) (s : Session) (srv srv' : Pop3Server)
      → Authorized srv.user_manager s
      → (srv'.user_manager ≡ srv.user_manager) × (srv'.sessions ≡ srv.sessions)
      → Good srv.user_manager srv.sessions (reply env addr msg s srv')
  unfolding send_reply
  Good-reply_after env addr msg s srv srv' k e = (k, e.0, e.1)

  pub list_number-Good :
      (env : Env) (addr : Addr) (s : Session) (messages : Messages) (o : Option ℤ)
      (srv : Pop3Server)
      → Authorized srv.user_manager s
      → Good srv.user_manager srv.sessions (list_number env addr s messages o srv)
  list_number-Good env addr s messages none srv k = Good-reply env addr _ s srv k
  list_number-Good env addr s messages (some n) srv k = list_one-Good (selected n s messages)
    where
      list_one-Good :
          (o : Option (ℕ × Text × ℕ × Option Text))
          → Good srv.user_manager srv.sessions (list_one env addr s o srv)
      list_one-Good none = Good-reply env addr _ s srv k
      list_one-Good (some (i, name, size, uid)) = Good-reply env addr _ s srv k
