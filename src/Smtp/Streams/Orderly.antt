-- ===== src/Smtp/Streams/Orderly.antt =====
-- The sessions of smtp_server.py follow the order of the protocol, whatever a client sends.
use rdt_mail_service.Prelude.{
  contains-lookup, ◌≢◌, sym, ◌∙◌, ◌⊎◌, contains, ℕ, ◌≡◌, refl, inl, inr, true, List, [], ◌∷◌, none,
  some, arith, ◌==◌, lookup, insert, lookup-erase, lookup-insert, Bool-cases, Option-cases,
  if◌then◌else◌,
}
use rdt_mail_service.Prelude.Text.{Text, text_eq}
use rdt_mail_service.Rdt.Dispatcher.{Addr, addr_eq}
use rdt_mail_service.Smtp.Session.{Session, create_session}
use rdt_mail_service.Smtp.Server.{SmtpServer, Env, send_reply, cleanup_session}
use rdt_mail_service.Smtp.Server.Handlers.{Moves, Follows}
use rdt_mail_service.Smtp.Streams.{
  process_session, process_packet, put_session, stale_addrs, reap, open_session, serve_packet,
}
use rdt_mail_service.Smtp.Streams.Verbs.{given, process_session-Kept}

-- The sessions after a packet of `addr`: those of the others are as before; and that of `addr`
-- came from the one it had before, or from a new one, by moves of the protocol with just the verbs
-- that the packet gives.
abbrev pub AllFollow : SmtpServer → Addr → Text → SmtpServer → Type 0
AllFollow before addr packet srv =
    (a : Addr) (s : Session)
    → lookup a srv.sessions ≡ some s
    → (lookup a before.sessions ≡ some s)
      ⊎ ((a ≡ addr)
          × ((start : Session) × ((start ≡ create_session)
                ⊎ (lookup a before.sessions ≡ some start))
              × Follows start (given start packet) s))

-- Each session is one of before, or the new one of `addr`.
abbrev AllOpened : SmtpServer → Addr → SmtpServer → Type 0
AllOpened before addr srv =
    (a : Addr) (s : Session)
    → lookup a srv.sessions ≡ some s
    → (lookup a before.sessions ≡ some s) ⊎ ((a ≡ addr) × (s ≡ create_session))

lookup-put_session :
    (addr a : Addr) (session s : Session) (srv : SmtpServer)
    → lookup a (put_session addr (session, srv)).sessions ≡ some s
    → ((addr ≡ a) × (session ≡ s)) ⊎ ((a ≢ addr) × (lookup a srv.sessions ≡ some s))
lookup-put_session addr a session s srv e = elim (Bool-cases (addr == a)) [
  | inl same ↦ elim (Bool-cases (contains addr srv.sessions)) [
    | inl there ↦
        let e1 : lookup a (insert addr session srv.sessions) ≡ some s = rw there at e in
        let e2 : (if addr == a then some session else lookup a srv.sessions) ≡ some s =
          sym (lookup-insert addr a session srv.sessions) ∙ e1 in
        let e3 : some session ≡ some s = rw same at e2 in
        inl ((addr_eq.beq_iff addr a).0 same, ground (arith, e3))
    | inr not_there ↦
        let e1 : lookup a srv.sessions ≡ some s = rw not_there at e in
        let eq : addr ≡ a = (addr_eq.beq_iff addr a).0 same in
        let e2 : lookup addr srv.sessions ≡ some s = rw (sym eq) at e1 in
        let there : contains addr srv.sessions ≡ true =
          contains-lookup addr srv.sessions ∙ (rw e2) in
        absurd (ground (arith, there, not_there))
  ]
  | inr other ↦ inr (
    λ same. absurd (ground (arith, other, (addr_eq.beq_iff addr a).1 (sym same))),
    ground (arith, e, other, lookup-insert addr a session srv.sessions),
  )
]

process_packet-AllFollow :
    (before srv : SmtpServer) (env : Env) (addr : Addr) (packet : Text)
    → AllOpened before addr srv
    → AllFollow before addr packet (process_packet env addr packet srv)
unfolding process_packet
process_packet-AllFollow before srv env addr packet k =
    elim (Option-cases (lookup addr srv.sessions)) [
      | inl missing ↦ rw missing (λ a s e. was a s missing e (k a s e))
      | inr (session, found) ↦ rw found (go session found)
    ]
  where
    was :
        (a : Addr) (s : Session)
        → lookup addr srv.sessions ≡ none
        → lookup a srv.sessions ≡ some s
        → (lookup a before.sessions ≡ some s) ⊎ ((a ≡ addr) × (s ≡ create_session))
        → (lookup a before.sessions ≡ some s)
          ⊎ ((a ≡ addr)
              × ((start : Session) × ((start ≡ create_session)
                    ⊎ (lookup a before.sessions ≡ some start))
                  × Follows start (given start packet) s))
    was a s missing e (inl h) = inl h
    was a s missing e (inr (same, h)) =
        let e' : lookup addr srv.sessions ≡ some s = rw same at e in
        absurd (ground (arith, missing, e'))

    origin :
        (session : Session)
        → (lookup addr before.sessions ≡ some session)
          ⊎ ((addr ≡ addr) × (session ≡ create_session))
        → (session ≡ create_session) ⊎ (lookup addr before.sessions ≡ some session)
    origin session (inl h) = inr h
    origin session (inr (_, h)) = inl h

    kept_one :
        (session : Session) (a : Addr) (s : Session)
        → a ≢ addr
        → (lookup a before.sessions ≡ some s) ⊎ ((a ≡ addr) × (s ≡ create_session))
        → lookup a before.sessions ≡ some s
    kept_one session a s ne (inl h) = h
    kept_one session a s ne (inr (same, _)) = absurd (ne same)

    go :
        (session : Session)
        → lookup addr srv.sessions ≡ some session
        → AllFollow before addr packet
            (put_session addr (process_session env addr packet session srv))
    go session found a s e =
        let r = process_session env addr packet session srv in
        let final = process_session-Kept session env addr packet session srv Moves.begin in
        elim (lookup-put_session addr a r.0 s r.1 e) [
          | inl (same, is_it) ↦
              rw (sym same, sym is_it)
                (inr (refl, (session, origin session (k addr session found), final.0)))
          | inr (ne, kept) ↦ inl (kept_one session a s ne (k a s (final.1 a s kept)))
        ]

reap-AllOpened :
    (before : SmtpServer) (addr : Addr) (stale : List Addr) (srv : SmtpServer)
    → AllOpened before addr srv
    → AllOpened before addr (reap stale srv)
unfolding reap cleanup_session
reap-AllOpened before addr [] srv k = k
reap-AllOpened before addr (a ∷ stale) srv k =
    reap-AllOpened before addr stale (cleanup_session a srv)
      (λ b s e. k b s (ground (arith, lookup-erase a b srv.sessions)))

open_session-AllOpened :
    (before : SmtpServer) (env : Env) (addr : Addr) (srv : SmtpServer)
    → AllOpened before addr srv
    → AllOpened before addr (open_session env addr srv)
unfolding open_session send_reply
open_session-AllOpened before env addr srv k a s e =
    elim (Bool-cases (contains addr srv.sessions)) [
      | inl there ↦ k a s (rw there at e)
      | inr fresh ↦
          let e1 : lookup a (insert addr create_session srv.sessions) ≡ some s = rw fresh at e in
          let e2 : (if addr == a then some create_session else lookup a srv.sessions) ≡ some s =
            sym (lookup-insert addr a create_session srv.sessions) ∙ e1 in
          elim (Bool-cases (addr == a)) [
            | inl same ↦
                let e3 : some create_session ≡ some s = rw same at e2 in
                let is_new : create_session ≡ s = ground (arith, e3) in
                inr (sym ((addr_eq.beq_iff addr a).0 same), sym is_new)
            | inr other ↦ k a s (rw other at e2)
          ]
    ]

-- A round of the serve loop, on any packet of any client, at any time and with any failures. The
-- sessions of other addresses that are there after it are as before. The session of the address
-- came from the one that it had before, or from a new one, by moves with just the verbs that the
-- packet gives to it, where a verb makes no move but its own: HELO at any time, MAIL after HELO,
-- another MAIL or the end of a message, RCPT after MAIL, DATA after RCPT and with a recipient, RSET
-- at any time, and the end of a message after DATA.
pub serve_packet-AllFollow :
    (env : Env) (time now : ℕ) (packet : Text) (addr : Addr) (srv : SmtpServer)
    → AllFollow srv addr packet (serve_packet env time now packet addr srv)
unfolding serve_packet
serve_packet-AllFollow env time now packet addr srv =
    let active = record srv { last_activity = insert addr time srv.last_activity } in
    let reaped = reap (stale_addrs now active.last_activity) active in
    process_packet-AllFollow srv (open_session env addr reaped) env addr packet (
      open_session-AllOpened srv env addr reaped
        (reap-AllOpened srv addr (stale_addrs now active.last_activity) active (λ a s e. inl e)))
