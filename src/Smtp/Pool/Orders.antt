-- ===== src/Smtp/Pool/Orders.antt =====
-- In which order the pool of smtp_server.py takes the packets of a message.
use mathlib.Core.List.{Perm}
use mathlib.Core.List.Perm
use rdt_mail_service.Prelude.{
  none, ◌≡◌, refl, sym, ap, ◌∙◌, true, List, [], ◌∷◌, ◌++◌, append-nil, append_assoc, some, lookup,
  contains, insert, contains-lookup, nat_eq,
}
use rdt_mail_service.Prelude.Text.{find, Text, text_eq}
use rdt_mail_service.Rdt.Dispatcher.{Addr, addr_eq}
use rdt_mail_service.Smtp.Session.{SmtpState, Session}
use rdt_mail_service.Smtp.Server.{SmtpServer, Env}
use rdt_mail_service.Smtp.Streams.{smtp_terminator, process_packet, put_session}
use rdt_mail_service.Smtp.Streams.Chunks.{concat, data_stream_kept}
use rdt_mail_service.Smtp.Pool.{Pool, submit, submit_all}

-- The packets of one client.
abbrev pub of_client : Addr → List Text → List (Addr × Text)
of_client addr [] = []
of_client addr (t ∷ ts) = (addr, t) ∷ of_client addr ts

of_client-append :
    (addr : Addr) (ts us : List Text)
    → of_client addr (ts ++ us) ≡ of_client addr ts ++ of_client addr us
of_client-append addr [] us = refl
of_client-append addr (t ∷ ts) us = ap (λ l. (addr, t) ∷ l) (of_client-append addr ts us)

-- A packet that does not complete the message that a session reads is kept.
pub packet_kept :
    (env : Env) (addr : Addr) (packet : Text) (session : Session) (srv : SmtpServer)
    → lookup addr srv.sessions ≡ some session
    → session.state ≡ SmtpState.reading_data_stream
    → find smtp_terminator (session.data_buffer ++ packet) ≡ none
    → process_packet env addr packet srv ≡ record srv {
      sessions =
          insert addr (record session { data_buffer = session.data_buffer ++ packet }) srv.sessions;
    }
unfolding process_packet
packet_kept env addr packet session srv h r d =
    let there : contains addr srv.sessions ≡ true = contains-lookup addr srv.sessions ∙ rw h refl in
    rw h (ap (put_session addr) (data_stream_kept env addr packet session srv r d) ∙ rw there refl)

module _ (env : Env) (addr : Addr) (session : Session) (pieces : List Text) (start : Pool)
    (reading : session.state ≡ SmtpState.reading_data_stream)
    (incomplete : (order : List Text)
      → Perm order pieces
      → find smtp_terminator (session.data_buffer ++ concat order) ≡ none) where
  abbrev holding : List Text → Session
  holding taken = record session { data_buffer = session.data_buffer ++ concat taken }

  -- Some packets are taken, and the others wait.
  record Underway (t : Pool) : Type 0 where
    taken : List Text
    left : List Text
    queued : t.waiting ≡ of_client addr left
    held : lookup addr t.server.sessions ≡ some (holding taken)
    filed : t.server.storage ≡ start.server.storage
    same : Perm (taken ++ left) pieces

pub waiting-submit_all :
    (addr : Addr) (pieces : List Text) (p : Pool)
    → ((submit_all addr pieces p).waiting ≡ p.waiting ++ of_client addr pieces)
      × ((submit_all addr pieces p).server ≡ p.server)
unfolding submit_all
waiting-submit_all addr [] p = (sym (append-nil p.waiting), refl)
waiting-submit_all addr (t ∷ ts) p =
    let (w, e) = waiting-submit_all addr ts (submit addr t p) in
    (w ∙ append_assoc p.waiting ((addr, t) ∷ []) (of_client addr ts), e)
