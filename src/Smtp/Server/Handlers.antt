-- ===== src/Smtp/Server/Handlers.antt =====
-- What the command handlers of smtp_server.py keep of a session and of the sessions.
use rdt_mail_service.Prelude.{
  ◌≡◌, ◌≢◌, ◌⊎◌, refl, ap, inl, inr, true, false, List, [], ◌∷◌, ◌++◌, Option, none, some, arith,
  lookup, lookup-erase, Bool-cases,
}
use rdt_mail_service.Prelude.Text.{Text, text_eq, codes}
use rdt_mail_service.Rdt.Dispatcher.{Addr, addr_eq}
use rdt_mail_service.Connections.{transmit, end_line, replies-get_sender}
use rdt_mail_service.Smtp.Session.{
  SmtpState, wait_for_helo, wait_for_mail_from, wait_for_rcpt_to, wait_for_data_cmd,
  reading_data_stream, Session,
}
use rdt_mail_service.Smtp.Server.{
  SmtpServer, Env, Handler, send_reply, may_mail, mail_parsed, may_data, may_rcpt, rcpt_parsed,
  address_after, cmd_helo, cmd_mail, cmd_rcpt, cmd_data, cmd_rset, cmd_noop, cmd_quit,
}

-- How the state, the sender and the recipients of a session move, from a session `start`, with the
-- verbs that it is given, the last one first; the end of a message counts as the verb ".". A verb
-- makes no other move than its own, and that one only where the protocol allows it.
pub data Moves (start : Session) : List Text → SmtpState → Option Text → List Text → Type 0 where
  begin : Moves start [] start.state start.mail_from start.rcpt_to
  idle :
      {vs : List Text}
      → {q : SmtpState} → {m : Option Text} → {rs : List Text} → (verb : Text)
      → Moves start vs q m rs
      → Moves start (verb ∷ vs) q m rs
  helo :
      {vs : List Text}
      → {q : SmtpState} → {m : Option Text} → {rs : List Text} → (verb : Text)
      → (verb ≡ codes "HELO") ⊎ (verb ≡ codes "EHLO")
      → Moves start vs q m rs
      → Moves start (verb ∷ vs) SmtpState.wait_for_mail_from m rs
  mail :
      {vs : List Text}
      → {q : SmtpState} → {m : Option Text} → {rs : List Text} → (verb sender : Text)
      → verb ≡ codes "MAIL"
      → (q ≡ SmtpState.wait_for_mail_from) ⊎ (q ≡ SmtpState.wait_for_rcpt_to)
      → Moves start vs q m rs
      → Moves start (verb ∷ vs) SmtpState.wait_for_rcpt_to (some sender) rs
  rcpt :
      {vs : List Text}
      → {q : SmtpState} → {m : Option Text} → {rs : List Text} → (verb recipient : Text)
      → verb ≡ codes "RCPT"
      → q ≡ SmtpState.wait_for_rcpt_to
      → Moves start vs q m rs
      → Moves start (verb ∷ vs) SmtpState.wait_for_data_cmd m (rs ++ recipient ∷ [])
  begin_data :
      {vs : List Text}
      → {q : SmtpState} → {m : Option Text} → {rs : List Text} → (verb : Text) → verb ≡ codes "DATA"
      → q ≡ SmtpState.wait_for_data_cmd
      → rs ≢ []
      → Moves start vs q m rs
      → Moves start (verb ∷ vs) SmtpState.reading_data_stream m rs
  reset :
      {vs : List Text}
      → {q : SmtpState} → {m : Option Text} → {rs : List Text} → (verb : Text) → verb ≡ codes "RSET"
      → Moves start vs q m rs
      → Moves start (verb ∷ vs) SmtpState.wait_for_helo none []
  refused :
      {vs : List Text}
      → {q : SmtpState} → {m : Option Text} → {rs : List Text} → q ≡ SmtpState.reading_data_stream
      → Moves start vs q m rs
      → Moves start (codes "." ∷ vs) SmtpState.wait_for_mail_from m rs
  accepted :
      {vs : List Text}
      → {q : SmtpState} → {m : Option Text} → {rs : List Text} → q ≡ SmtpState.reading_data_stream
      → Moves start vs q m rs
      → Moves start (codes "." ∷ vs) SmtpState.wait_for_mail_from m []

-- A session that such moves lead to.
abbrev pub Follows : Session → List Text → Session → Type 0
Follows start vs session = Moves start vs session.state session.mail_from session.rcpt_to

pub sessions-send_reply :
    (env : Env) (addr : Addr) (msg : Text) (srv : SmtpServer)
    → (send_reply env addr msg srv).sessions ≡ srv.sessions
unfolding send_reply
sessions-send_reply env addr msg srv = refl

pub storage-send_reply :
    (env : Env) (addr : Addr) (msg : Text) (srv : SmtpServer)
    → (send_reply env addr msg srv).storage ≡ srv.storage
unfolding send_reply
storage-send_reply env addr msg srv = refl

-- The reply is the last of the replies.
pub replies-send_reply :
    (env : Env) (addr : Addr) (msg : Text) (srv : SmtpServer)
    → (send_reply env addr msg srv).connections.replies
      ≡ srv.connections.replies ++ (addr, end_line msg) ∷ []
unfolding send_reply transmit
replies-send_reply env addr msg srv =
    ap (λ (rs : List (Addr × Text)). rs ++ (addr, end_line msg) ∷ [])
      (replies-get_sender addr srv.connections)

-- What a handler of a verb does: it moves its session as the protocol allows, and no session of
-- `sessions` is changed, at most taken out.
abbrev pub Keeps : Text → Handler → Type 0
Keeps verb h =
    (start : Session) (vs : List Text) (env : Env) (addr : Addr) (session : Session) (arg : Text)
    (srv : SmtpServer)
    → (Follows start vs session → Follows start (verb ∷ vs) (h env addr session arg srv).0)
      × ((a : Addr) (s : Session)
          → lookup a (h env addr session arg srv).1.sessions ≡ some s
          → lookup a srv.sessions ≡ some s)

pub cmd_helo-Keeps :
    (verb : Text) → (verb ≡ codes "HELO") ⊎ (verb ≡ codes "EHLO") → Keeps verb cmd_helo
unfolding cmd_helo send_reply
cmd_helo-Keeps verb e start vs env addr session arg srv = (λ f. Moves.helo verb e f, λ a s k. k)

may_mail_at :
    (q : SmtpState)
    → may_mail q ≡ true
    → (q ≡ SmtpState.wait_for_mail_from) ⊎ (q ≡ SmtpState.wait_for_rcpt_to)
may_mail_at wait_for_helo h = absurd (ground (arith, h))
may_mail_at wait_for_mail_from h = inl refl
may_mail_at wait_for_rcpt_to h = inr refl
may_mail_at wait_for_data_cmd h = absurd (ground (arith, h))
may_mail_at reading_data_stream h = absurd (ground (arith, h))

mail_parsed-Follows :
    (start : Session) (vs : List Text) (verb : Text) (env : Env) (addr : Addr) (session : Session)
    (parsed : Option Text) (srv : SmtpServer)
    → verb ≡ codes "MAIL"
    → may_mail session.state ≡ true
    → Follows start vs session
    → Follows start (verb ∷ vs) (mail_parsed env addr session parsed srv).0
mail_parsed-Follows start vs verb env addr session none srv e may f = Moves.idle verb f
mail_parsed-Follows start vs verb env addr session (some parsed) srv e may f =
    Moves.mail verb parsed e (may_mail_at session.state may) f

pub cmd_mail-Keeps : (verb : Text) → verb ≡ codes "MAIL" → Keeps verb cmd_mail
unfolding cmd_mail send_reply
cmd_mail-Keeps verb e start vs env addr session arg srv = (
  λ f. elim (Bool-cases (may_mail session.state)) [
    | inl may ↦ rw may (
        mail_parsed-Follows start vs verb env addr session (address_after (codes "FROM:") arg) srv e
          may f)
    | inr not_now ↦ rw not_now (Moves.idle verb f)
  ],
  ground arith,
)

may_rcpt_at : (q : SmtpState) → may_rcpt q ≡ true → q ≡ SmtpState.wait_for_rcpt_to
may_rcpt_at wait_for_helo h = absurd (ground (arith, h))
may_rcpt_at wait_for_mail_from h = absurd (ground (arith, h))
may_rcpt_at wait_for_rcpt_to h = refl
may_rcpt_at wait_for_data_cmd h = absurd (ground (arith, h))
may_rcpt_at reading_data_stream h = absurd (ground (arith, h))

rcpt_parsed-Follows :
    (start : Session) (vs : List Text) (verb : Text) (env : Env) (addr : Addr) (session : Session)
    (parsed : Option Text) (srv : SmtpServer)
    → verb ≡ codes "RCPT"
    → may_rcpt session.state ≡ true
    → Follows start vs session
    → Follows start (verb ∷ vs) (rcpt_parsed env addr session parsed srv).0
rcpt_parsed-Follows start vs verb env addr session none srv e may f = Moves.idle verb f
rcpt_parsed-Follows start vs verb env addr session (some parsed) srv e may f =
    Moves.rcpt verb parsed e (may_rcpt_at session.state may) f

pub cmd_rcpt-Keeps : (verb : Text) → verb ≡ codes "RCPT" → Keeps verb cmd_rcpt
unfolding cmd_rcpt send_reply
cmd_rcpt-Keeps verb e start vs env addr session arg srv = (
  λ f. elim (Bool-cases (may_rcpt session.state)) [
    | inl may ↦ rw may (
        rcpt_parsed-Follows start vs verb env addr session (address_after (codes "TO:") arg) srv e
          may f)
    | inr not_now ↦ rw not_now (Moves.idle verb f)
  ],
  ground arith,
)

may_data_at :
    (q : SmtpState) (rs : List Text)
    → elim q [ wait_for_data_cmd ↦ elim rs [ [] ↦ false | r ∷ others ↦ true ] | _ ↦ false ] ≡ true
    → (q ≡ SmtpState.wait_for_data_cmd) × (rs ≢ [])
may_data_at wait_for_helo rs h = absurd (ground (arith, h))
may_data_at wait_for_mail_from rs h = absurd (ground (arith, h))
may_data_at wait_for_rcpt_to rs h = absurd (ground (arith, h))
may_data_at wait_for_data_cmd [] h = absurd (ground (arith, h))
may_data_at wait_for_data_cmd (r ∷ rs) h = (refl, λ e. absurd (ground (arith, e)))
may_data_at reading_data_stream rs h = absurd (ground (arith, h))

pub cmd_data-Keeps : (verb : Text) → verb ≡ codes "DATA" → Keeps verb cmd_data
unfolding cmd_data send_reply
cmd_data-Keeps verb e start vs env addr session arg srv = (
  λ f. elim (Bool-cases (may_data session)) [
    | inl may ↦
        let at = may_data_at session.state session.rcpt_to may in
        rw may (Moves.begin_data verb e at.0 at.1 f)
    | inr not_now ↦ rw not_now (Moves.idle verb f)
  ],
  ground arith,
)

pub cmd_rset-Keeps : (verb : Text) → verb ≡ codes "RSET" → Keeps verb cmd_rset
unfolding cmd_rset send_reply
cmd_rset-Keeps verb e start vs env addr session arg srv = (λ f. Moves.reset verb e f, λ a s k. k)

pub cmd_noop-Keeps : (verb : Text) → Keeps verb cmd_noop
unfolding cmd_noop send_reply
cmd_noop-Keeps verb start vs env addr session arg srv = (λ f. Moves.idle verb f, λ a s e. e)

pub cmd_quit-Keeps : (verb : Text) → Keeps verb cmd_quit
unfolding cmd_quit send_reply
cmd_quit-Keeps verb start vs env addr session arg srv =
    (λ f. Moves.idle verb f, λ a s e. ground (arith, lookup-erase addr a srv.sessions))
