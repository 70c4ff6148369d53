-- ===== src/Pop3/Serving/Login.antt =====
-- How a mailbox is opened, in pop3_server.py.
use rdt_mail_service.Prelude.{
  ◌≡◌, refl, ap, ◌∙◌, ◌⊎◌, inl, inr, Bool, true, false, List, [], ◌∷◌, Option, none, some, arith,
  ◌==◌, if◌then◌else◌,
}
use rdt_mail_service.Prelude.Text.{Text, text_eq, codes, split, upper}
use rdt_mail_service.Auth.User.{User, new_user}
use rdt_mail_service.Auth.UserManager.{authenticate, get_user}
use rdt_mail_service.Rdt.Dispatcher.{Addr, addr_eq}
use rdt_mail_service.Pop3.Server.{
  Pop3State, authorization, transaction, Session, Pop3Server, Env, send_reply, Outcome, done,
  escaped, Handler, reply, user_found, pass_checked, pass_for, cmd_user, cmd_pass, cmd_stat,
  cmd_list,
}
use rdt_mail_service.Pop3.Serving.{
  sign_off, cmd_retr, cmd_dele, cmd_quit, handler_of, run_handler, handle_command,
}

-- How a command that comes before the log-in ends: the storage is as before, and the session is
-- not logged in, or it is by a password for the name that was given with USER.
abbrev pub Before : Session → List Text → Pop3Server → Bool → Outcome → Type 0
Before session args srv is_pass (escaped srv') = srv'.storage ≡ srv.storage
Before session args srv is_pass (done session' srv') =
    (srv'.storage ≡ srv.storage)
    × ((session'.state ≡ Pop3State.authorization)
        ⊎ ((is_pass ≡ true)
            × ((name : Text) × (password : Text) × (rest : List Text) × (u : User) × (args
                  ≡ password ∷ rest)
                × (session.user ≡ some name)
                × (session'.user ≡ some name)
                × (authenticate name password srv.user_manager ≡ some u))))

module _ (P : Outcome → Type 0) where
  state_case :
      (st : Pop3State) (a t : Outcome)
      → st ≡ Pop3State.authorization
      → P a
      → P (elim st [ authorization ↦ a | transaction ↦ t ])
  state_case authorization a t h f = f
  state_case transaction a t h f = absurd (ground (arith, h))

  args_case :
      (args : List Text) (none_given : Outcome) (given : Text → List Text → Outcome)
      → P none_given
      → ((x : Text) (xs : List Text) → P (given x xs))
      → P (elim args [ [] ↦ none_given | x ∷ xs ↦ given x xs ])
  args_case [] none_given given f g = f
  args_case (x ∷ xs) none_given given f g = g x xs

  option_case :
      {A : Type 0} (o : Option A) (missing : Outcome) (found : A → Outcome)
      → P missing
      → ((x : A) → P (found x))
      → P (elim o [ none ↦ missing | some x ↦ found x ])
  option_case none missing found f g = f
  option_case (some x) missing found f g = g x

module _ (env : Env) (addr : Addr) (session : Session) (args : List Text) (srv : Pop3Server)
    (out : session.state ≡ Pop3State.authorization) where
  Before-reply :
      (is_pass : Bool) (msg : Text) (session' : Session)
      → session'.state ≡ Pop3State.authorization
      → Before session args srv is_pass (reply env addr msg session' srv)
  unfolding send_reply
  Before-reply is_pass msg session' h = (refl, inl h)

  user_found-Before :
      (name : Text) (o : Option User)
      → Before session args srv false (user_found env addr session name o srv)
  user_found-Before name none = Before-reply false _ session out
  user_found-Before name (some u) = Before-reply false _ (record session { user = some name }) out

  cmd_user-Before : Before session args srv false (cmd_user env addr session args srv)
  unfolding cmd_user
  cmd_user-Before = state_case (Before session args srv false) session.state _ _ out (
      args_case (Before session args srv false) args _ _ (Before-reply false _ session out)
        (λ name rest. user_found-Before name (get_user name srv.user_manager)))

  pass_checked-Before :
      (name password : Text) (rest : List Text) (o : Option User)
      → args ≡ password ∷ rest
      → session.user ≡ some name
      → authenticate name password srv.user_manager ≡ o
      → Before session args srv true (pass_checked env addr session o srv)
  unfolding send_reply
  pass_checked-Before name password rest none a n e = (refl, inl out)
  pass_checked-Before name password rest (some u) a n e =
      (refl, inr (refl, (name, password, rest, u, a, n, n, e)))

  pass_for-Before :
      (o : Option Text) (given : List Text)
      → session.user ≡ o
      → args ≡ given
      → Before session args srv true (pass_for env addr session o given srv)
  pass_for-Before none given n a = Before-reply true _ session out
  pass_for-Before (some []) given n a = Before-reply true _ session out
  pass_for-Before (some (c ∷ name)) [] n a = Before-reply true _ session out
  pass_for-Before (some (c ∷ name)) (password ∷ rest) n a =
      pass_checked-Before (c ∷ name) password rest
        (authenticate (c ∷ name) password srv.user_manager) a n refl

  cmd_pass-Before : Before session args srv true (cmd_pass env addr session args srv)
  unfolding cmd_pass
  cmd_pass-Before =
      state_case (Before session args srv true) session.state _ _ out
        (pass_for-Before session.user args refl refl)

  refused : (msg : Text) → Before session args srv false (reply env addr msg session srv)
  refused msg = Before-reply false msg session out

  cmd_stat-Before : Before session args srv false (cmd_stat env addr session args srv)
  unfolding cmd_stat
  cmd_stat-Before = state_case (Before session args srv false) session.state _ _ out (refused _)

  cmd_list-Before : Before session args srv false (cmd_list env addr session args srv)
  unfolding cmd_list
  cmd_list-Before = state_case (Before session args srv false) session.state _ _ out (refused _)

  cmd_retr-Before : Before session args srv false (cmd_retr env addr session args srv)
  unfolding cmd_retr
  cmd_retr-Before = state_case (Before session args srv false) session.state _ _ out (refused _)

  cmd_dele-Before : Before session args srv false (cmd_dele env addr session args srv)
  unfolding cmd_dele
  cmd_dele-Before = state_case (Before session args srv false) session.state _ _ out (refused _)

  sign_off-Before : Before session args srv false (sign_off env addr session srv)
  unfolding send_reply
  sign_off-Before = (refl, inl out)

  cmd_quit-Before : Before session args srv false (cmd_quit env addr session args srv)
  unfolding cmd_quit
  cmd_quit-Before =
      option_case (Before session args srv false) (new_user session.user []) _ _ refl
        (λ user. state_case (Before session args srv false) session.state _ _ out sign_off-Before)

  -- A command that is no PASS.
  no_pass :
      (is_pass : Bool) (o : Outcome)
      → Before session args srv false o
      → Before session args srv is_pass o
  no_pass is_pass (escaped srv') h = h
  no_pass is_pass (done session' srv') (s, inl h) = (s, inl h)
  no_pass is_pass (done session' srv') (s, inr h) = absurd (ground (arith, h.0))

  if_case :
      (is_pass b : Bool) (x y : Option Handler)
      → (b ≡ true → Before session args srv is_pass (run_handler env addr session args x srv))
      → Before session args srv is_pass (run_handler env addr session args y srv)
      → Before session args srv is_pass (run_handler env addr session args (if b then x else y) srv)
  if_case is_pass true x y f g = f refl
  if_case is_pass false x y f g = g

  run_handler-Before :
      (command : Text)
      → Before session args srv
          (command == codes "PASS")
          (run_handler env addr session args (handler_of command) srv)
  unfolding handler_of
  run_handler-Before command =
      let is_pass = command == codes "PASS" in
      if_case is_pass (command == codes "USER") _ _ (λ e. no_pass is_pass _ cmd_user-Before)
        (if_case is_pass (command == codes "PASS") _ _ (λ e. rw e cmd_pass-Before)
          (if_case is_pass (command == codes "STAT") _ _ (λ e. no_pass is_pass _ cmd_stat-Before)
            (if_case is_pass (command == codes "LIST") _ _ (λ e. no_pass is_pass _ cmd_list-Before)
              (if_case is_pass (command == codes "RETR") _ _
                (λ e. no_pass is_pass _ cmd_retr-Before)
                (if_case is_pass (command == codes "DELE") _ _
                  (λ e. no_pass is_pass _ cmd_dele-Before)
                  (if_case is_pass (command == codes "QUIT") _ none
                    (λ e. no_pass is_pass _ cmd_quit-Before)
                    (no_pass is_pass (reply env addr (codes "-ERR Unknown command") session srv)
                      (refused (codes "-ERR Unknown command")))))))))

-- What a line does to a session that is not logged in: nothing is stored or deleted, whether the
-- line's command returns or raises; and where it returns, the session is still not logged in, or the
-- line is PASS with a word that is the password of the account whose name USER had set, and the
-- session is that account's.
abbrev pub LineBefore : Session → Text → Pop3Server → Outcome → Type 0
LineBefore session line srv (escaped srv') = srv'.storage ≡ srv.storage
LineBefore session line srv (done session' srv') =
    (srv'.storage ≡ srv.storage)
    × ((session'.state ≡ Pop3State.authorization)
        ⊎ ((command : Text) × (password : Text) × (rest : List Text) × (name : Text) × (u : User)
            × (split line ≡ command ∷ password ∷ rest)
            × (upper command ≡ codes "PASS")
            × (session.user ≡ some name)
            × (session'.user ≡ some name)
            × (authenticate name password srv.user_manager ≡ some u)))

Before-LineBefore :
    (session : Session) (line command : Text) (args : List Text) (srv : Pop3Server) (o : Outcome)
    → split line ≡ command ∷ args
    → Before session args srv (upper command == codes "PASS") o
    → LineBefore session line srv o
Before-LineBefore session line command args srv (escaped srv') e h = h
Before-LineBefore session line command args srv (done session' srv') e (s, inl h) = (s, inl h)
Before-LineBefore session line command args srv (done session' srv') e
      (s, inr (p, (name, password, rest, u, a, n, n', k))) =
    (
      s,
      inr (
        command,
        password,
        rest,
        name,
        u,
        e ∙ ap (λ (ws : List Text). command ∷ ws) a,
        (text_eq.beq_iff (upper command) (codes "PASS")).0 p,
        n,
        n',
        k,
      ),
    )

-- For every line of a session that is not logged in, any network and any failures: nothing is
-- stored or deleted; and where the command returns, the session is still not logged in, or the
-- line is PASS with the password of the account whose name USER had set.
pub handle_command-LineBefore :
    (env : Env) (addr : Addr) (session : Session) (line : Text) (srv : Pop3Server)
    → session.state ≡ Pop3State.authorization
    → LineBefore session line srv (handle_command env addr session line srv)
unfolding handle_command
handle_command-LineBefore env addr session line srv out = go (split line) refl
  where
    go :
        (words : List Text)
        → split line ≡ words
        → LineBefore session line srv (elim words [
          | [] ↦ Outcome.done session srv
          | command ∷ args ↦ run_handler env addr session args (handler_of (upper command)) srv
        ])
    go [] e = (refl, inl out)
    go (command ∷ args) e =
        Before-LineBefore session line command args srv
          (run_handler env addr session args (handler_of (upper command)) srv) e
          (run_handler-Before env addr session args srv out (upper command))
