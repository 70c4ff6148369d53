-- ===== src/Pop3/Serving/Sessions.antt =====
-- Every session of pop3_server.py is authorized by a password its client said.
use rdt_mail_service.Prelude.{
  ◌≡◌, refl, sym, ap, ◌∙◌, ◌⊎◌, inl, inr, Bool, true, false, List, [], ◌∷◌, Option, none, some,
  arith, ◌==◌, Dict, lookup, insert, lookup-insert, Bool-cases, if◌then◌else◌,
}
use rdt_mail_service.Prelude.Text.{Text, text_eq, codes, split, split_lines, decode_ignore, upper}
use rdt_mail_service.Auth.UserManager.{UserManager}
use rdt_mail_service.Rdt.Dispatcher.{Addr, addr_eq}
use rdt_mail_service.Pop3.Server.{
  Session, create_session, Pop3Server, Env, send_reply, Outcome, done, escaped, Handler,
}
use rdt_mail_service.Pop3.Serving.{
  handler_of, run_handler, handle_command, handle_lines, keep_session, open_session, serve_packet,
}
use rdt_mail_service.Pop3.Serving.Access.{
  Authorized, Good, IsGood, Good-reply, Authorized-authorization, cmd_user-IsGood, cmd_pass-Good,
  cmd_stat-IsGood,
}
use rdt_mail_service.Pop3.Serving.Handlers.{
  cmd_list-IsGood, cmd_retr-IsGood, cmd_dele-IsGood, cmd_quit-IsGood,
}

-- A line that is PASS with the word `password`.
abbrev pub Pass : Text → Text → Type 0
Pass line password =
    (command : Text) × (rest : List Text) × (split line ≡ command ∷ password ∷ rest)
    × (upper command ≡ codes "PASS")

-- One of the lines gives the password.
abbrev pub Given : List Text → Text → Type 0
Given [] password = ⊥
Given (line ∷ lines) password = Pass line password ⊎ Given lines password

module _ (said : Text → Type 0) where
  -- How the command ends with the words `args`.
  abbrev Ends : List Text → Option Handler → Type 0
  Ends args none = Unit
  Ends args (some h) =
      (env : Env) (addr : Addr) (s : Session) (srv : Pop3Server)
      → Authorized said srv.user_manager s
      → Good said srv.user_manager srv.sessions (h env addr s args srv)

  Ends-if :
      (args : List Text) (b : Bool) (x y : Option Handler)
      → (b ≡ true → Ends args x)
      → Ends args y
      → Ends args (if b then x else y)
  Ends-if args true x y k l = k refl
  Ends-if args false x y k l = l

  IsGood-Ends : (args : List Text) (h : Handler) → IsGood said h → Ends args (some h)
  IsGood-Ends args h k env addr s srv = k env addr s args srv

  handler_of-Ends :
      (command : Text) (args : List Text)
      → ((password : Text) (rest : List Text)
          → command ≡ codes "PASS"
          → args ≡ password ∷ rest
          → said password)
      → Ends args (handler_of command)
  unfolding handler_of
  handler_of-Ends command args heard =
      Ends-if args (command == codes "USER") _ _ (λ e. IsGood-Ends args _ (cmd_user-IsGood said))
        (Ends-if args (command == codes "PASS") _ _
          (λ e env addr s srv k.
            cmd_pass-Good said env addr s args srv k
              (λ password rest. heard password rest ((text_eq.beq_iff command (codes "PASS")).0 e)))
          (Ends-if args (command == codes "STAT") _ _
            (λ e. IsGood-Ends args _ (cmd_stat-IsGood said))
            (Ends-if args (command == codes "LIST") _ _
              (λ e. IsGood-Ends args _ (cmd_list-IsGood said))
              (Ends-if args (command == codes "RETR") _ _
                (λ e. IsGood-Ends args _ (cmd_retr-IsGood said))
                (Ends-if args (command == codes "DELE") _ _
                  (λ e. IsGood-Ends args _ (cmd_dele-IsGood said))
                  (Ends-if args (command == codes "QUIT") _ none
                    (λ e. IsGood-Ends args _ (cmd_quit-IsGood said)) tt))))))

  run_handler-Good :
      (env : Env) (addr : Addr) (s : Session) (args : List Text) (o : Option Handler)
      (srv : Pop3Server)
      → Ends args o
      → Authorized said srv.user_manager s
      → Good said srv.user_manager srv.sessions (run_handler env addr s args o srv)
  run_handler-Good env addr s args none srv g k = Good-reply said env addr _ s srv k
  run_handler-Good env addr s args (some h) srv g k = g env addr s srv k

  handle_command-Good :
      (env : Env) (addr : Addr) (s : Session) (line : Text) (srv : Pop3Server)
      → Authorized said srv.user_manager s
      → ((password : Text) → Pass line password → said password)
      → Good said srv.user_manager srv.sessions (handle_command env addr s line srv)
  unfolding handle_command
  handle_command-Good env addr s line srv k heard = go (split line) refl
    where
      go :
          (words : List Text)
          → split line ≡ words
          → Good said srv.user_manager srv.sessions (elim words [
            | [] ↦ Outcome.done s srv
            | command ∷ args ↦ run_handler env addr s args (handler_of (upper command)) srv
          ])
      go [] e = (k, refl, refl)
      go (command ∷ args) e =
          run_handler-Good env addr s args (handler_of (upper command)) srv
            (handler_of-Ends (upper command) args (λ password rest is_pass a.
              heard password (command, rest, e ∙ ap (λ (ws : List Text). command ∷ ws) a, is_pass)))
            k

  handle_lines-Good :
      (env : Env) (addr : Addr) (m : UserManager) (sessions : Dict Addr Session) (lines : List Text)
      (s : Session) (srv : Pop3Server)
      → Authorized said m s
      → srv.user_manager ≡ m
      → srv.sessions ≡ sessions
      → ((password : Text) → Given lines password → said password)
      → Good said m sessions (handle_lines env addr s lines srv)
  unfolding handle_lines
  handle_lines-Good env addr m sessions [] s srv k um ss heard = (k, um, ss)
  handle_lines-Good env addr m sessions (line ∷ lines) s srv k um ss heard =
      go
        (λ s' srv' k um ss.
          handle_lines-Good env addr m sessions lines s' srv' k um ss
            (λ password p. heard password (inr p)))
        (handle_command env addr s line srv)
        (handle_command-Good env addr s line srv (rw um k) (λ password p. heard password (inl p)))
    where
      go :
          ((s' : Session) (srv' : Pop3Server)
            → Authorized said m s'
            → srv'.user_manager ≡ m
            → srv'.sessions ≡ sessions
            → Good said m sessions (handle_lines env addr s' lines srv'))
          → (o : Outcome) → Good said srv.user_manager srv.sessions o
          → Good said m sessions (elim o [
            | done s' srv' ↦ handle_lines env addr s' lines srv'
            | escaped srv' ↦ Outcome.escaped srv'
          ])
      go later (escaped srv') g = tt
      go later (done s' srv') g = later s' srv' (rw um at g.0) (g.1 ∙ um) (g.2 ∙ ss)

-- The passwords that each address has said.
abbrev pub Said : Type 1
Said = Addr → Text → Type 0

-- Every session is authorized by what its address has said.
abbrev pub AllAuthorized : Said → Pop3Server → Type 0
AllAuthorized said srv =
    (a : Addr) (s : Session)
    → lookup a srv.sessions ≡ some s
    → Authorized (said a) srv.user_manager s

-- What the addresses have said after a packet of `addr`.
abbrev pub heard_in : Addr → Text → Said → Said
heard_in addr packet said a password =
    said a password ⊎ ((a ≡ addr) × Given (split_lines [] (decode_ignore packet)) password)

Authorized-more :
    (said more : Text → Type 0) (m : UserManager) (s : Session)
    → ((password : Text) → said password → more password)
    → Authorized said m s
    → Authorized more m s
Authorized-more said more m s w k open_now =
    let (name, password, u, n, e, heard) = k open_now in (name, password, u, n, e, w password heard)

pub Authorized-insert :
    (said : Said) (m : UserManager) (sessions : Dict Addr Session) (addr : Addr) (new : Session)
    → ((a : Addr) (s : Session) → lookup a sessions ≡ some s → Authorized (said a) m s)
    → Authorized (said addr) m new
    → (a : Addr) (s : Session) → lookup a (insert addr new sessions) ≡ some s
    → Authorized (said a) m s
Authorized-insert said m sessions addr new k h a s e =
    let e' : (if addr == a then some new else lookup a sessions) ≡ some s =
      sym (lookup-insert addr a new sessions) ∙ e in
    elim (Bool-cases (addr == a)) [
      | inl same ↦
          let found : some new ≡ some s = rw same at e' in
          let is_new : new ≡ s = ground (arith, found) in
          rw (is_new, (addr_eq.beq_iff addr a).0 same) at h
      | inr other ↦ k a s (rw other at e')
    ]

opened :
    (said : Said) (env : Env) (addr : Addr) (o : Option Session) (srv : Pop3Server)
    → lookup addr srv.sessions ≡ o
    → AllAuthorized said srv
    → let (s, srv1) = open_session env addr o srv in
      Authorized (said addr) srv.user_manager s
      × (srv1.user_manager ≡ srv.user_manager)
      × AllAuthorized said srv1
unfolding send_reply
opened said env addr (some s) srv e k = (k addr s e, refl, k)
opened said env addr none srv e k =
    let new = Authorized-authorization (said addr) srv.user_manager create_session refl in
    (new, refl, Authorized-insert said srv.user_manager srv.sessions addr create_session k new)

abbrev Remains : Said → UserManager → Option Pop3Server → Type 0
Remains said m none = Unit
Remains said m (some srv) = AllAuthorized said srv × (srv.user_manager ≡ m)

keep_session-Remains :
    (said : Said) (addr : Addr) (m : UserManager) (sessions : Dict Addr Session) (o : Outcome)
    → Good (said addr) m sessions o
    → ((a : Addr) (s : Session) → lookup a sessions ≡ some s → Authorized (said a) m s)
    → Remains said m (keep_session addr o)
keep_session-Remains said addr m sessions (escaped srv) g k = tt
keep_session-Remains said addr m sessions (done s srv) g k =
    (rw (g.1, g.2) (Authorized-insert said m sessions addr s k g.0), g.1)

serve_packet-Remains :
    (said : Said) (env : Env) (addr : Addr) (packet : Text) (srv : Pop3Server)
    → AllAuthorized said srv
    → Remains (heard_in addr packet said) srv.user_manager (serve_packet env addr packet srv)
unfolding serve_packet
serve_packet-Remains said env addr packet srv k =
    let (s, srv1) = open_session env addr (lookup addr srv.sessions) srv in
    let more = heard_in addr packet said in
    let ready = opened more env addr (lookup addr srv.sessions) srv refl (λ a s e.
      Authorized-more (said a) (more a) srv.user_manager s (λ password h. inl h) (k a s e)) in
    let lines = split_lines [] (decode_ignore packet) in
    keep_session-Remains more addr srv.user_manager srv1.sessions
      (handle_lines env addr s lines srv1)
      (handle_lines-Good (more addr) env addr srv.user_manager srv1.sessions lines s srv1 ready.0
        ready.1 refl (λ password given. inr (refl, given)))
      (rw ready.1 at ready.2)

-- A packet of any client, on any network and with any failures, after which the server still runs:
-- if every session that has a mailbox open has as its user the name of an account that one of the
-- passwords its address has said logs in, then so it is after the packet, where the address of the
-- packet has said, besides, the words that follow PASS on the lines of the packet, and no other
-- address has said more. And the accounts are as before.
pub serve_packet-AllAuthorized :
    (said : Said) (env : Env) (addr : Addr) (packet : Text) (srv srv' : Pop3Server)
    → AllAuthorized said srv
    → serve_packet env addr packet srv ≡ some srv'
    → AllAuthorized (heard_in addr packet said) srv' × (srv'.user_manager ≡ srv.user_manager)
serve_packet-AllAuthorized said env addr packet srv srv' k e =
    rw e at (serve_packet-Remains said env addr packet srv k)
