-- ===== src/Smtp/Pool/Swaps.antt =====
-- The pool of smtp_server.py can take two packets of a message in the wrong order.
use rdt_mail_service.Prelude.{
  arith, ◌≡◌, refl, ap, ◌∙◌, true, List, [], ◌∷◌, ◌++◌, some, lookup, lookup-inserted,
}
use rdt_mail_service.Prelude.Text.{Text}
use rdt_mail_service.Rdt.Dispatcher.{Addr, addr_eq}
use rdt_mail_service.Smtp.Session.{SmtpState, Session}
use rdt_mail_service.Smtp.Server.{SmtpServer, Env}
use rdt_mail_service.Smtp.Streams.{process_packet}
use rdt_mail_service.Smtp.Pool.{Pool, submit_all, Step, Reach}
use rdt_mail_service.Smtp.Pool.Dotless.{dotless, find-dotless, dotless-append}
use rdt_mail_service.Smtp.Pool.Orders.{packet_kept, of_client, waiting-submit_all}

-- A client's session reads a message, and neither what it holds nor the two packets that are then
-- submitted to the idle pool have a full stop. The workers can take the packets so that the session
-- holds the second one before the first.
pub submit_all-swapped :
    (env : Env) (addr : Addr) (session : Session) (p q : Text) (idle : Pool)
    → session.state ≡ SmtpState.reading_data_stream
    → dotless session.data_buffer ≡ true
    → dotless p ≡ true
    → dotless q ≡ true
    → idle.waiting ≡ []
    → lookup addr idle.server.sessions ≡ some session
    → (t : Pool) × Reach env (submit_all addr (p ∷ q ∷ []) idle) t
      × (t.waiting ≡ [])
      × (lookup addr t.server.sessions
          ≡ some (record session { data_buffer = (session.data_buffer ++ q) ++ p }))
submit_all-swapped env addr session p q idle reading no_dot dp dq none_before held =
    let (w, e) = waiting-submit_all addr (p ∷ q ∷ []) idle in
    let s : Pool = submit_all addr (p ∷ q ∷ []) idle in
    let held_at_first : lookup addr s.server.sessions ≡ some session =
      ap (λ (srv : SmtpServer). lookup addr srv.sessions) e ∙ held in
    let with_q : Session = record session { data_buffer = session.data_buffer ++ q } in
    let m : Pool = record {
      server = process_packet env addr q s.server;
      waiting = (addr, p) ∷ [];
    } in
    let t : Pool = record { server = process_packet env addr p m.server; waiting = [] } in
    let held_q : lookup addr m.server.sessions ≡ some with_q =
      ap (λ (srv : SmtpServer). lookup addr srv.sessions)
        (packet_kept env addr q session s.server held_at_first reading (
          find-dotless (session.data_buffer ++ q) (dotless-append session.data_buffer q no_dot dq)))
      ∙ lookup-inserted addr with_q s.server.sessions in
    let held_both : lookup addr t.server.sessions
        ≡ some (record session { data_buffer = (session.data_buffer ++ q) ++ p }) =
      ap (λ (srv : SmtpServer). lookup addr srv.sessions)
        (packet_kept env addr p with_q m.server held_q reading (
          find-dotless ((session.data_buffer ++ q) ++ p) (
            dotless-append (session.data_buffer ++ q) p
              (dotless-append session.data_buffer q no_dot dq) dp)))
      ∙ lookup-inserted addr (record session { data_buffer = (session.data_buffer ++ q) ++ p })
          m.server.sessions in
    let first : Step env s m =
      Step.run ((addr, p) ∷ []) addr q []
        (w ∙ ap (λ (l : List (Addr × Text)). l ++ of_client addr (p ∷ q ∷ [])) none_before)
        (omega arith) refl in
    let second : Step env m t = Step.run [] addr p [] refl (omega arith) refl in
    (t, Reach.next (Reach.next Reach.here first) second, refl, held_both)
