-- ===== src/Smtp/Streams/Chunks.antt =====
-- A message does not depend on how it is cut into packets, in smtp_server.py.
use rdt_mail_service.Prelude.{
  ℕ, ◌≡◌, refl, sym, ap, ◌∙◌, false, List, [], ◌∷◌, ◌++◌, append_assoc, append-nil, none, arith,
  nat_eq,
}
use rdt_mail_service.Prelude.Text.{Text, starts_with, find}
use rdt_mail_service.Rdt.Dispatcher.{Addr}
use rdt_mail_service.Smtp.Session.{SmtpState, Session}
use rdt_mail_service.Smtp.Server.{SmtpServer, Env}
use rdt_mail_service.Smtp.Streams.{
  handle_data_stream, take_message, smtp_terminator, process_session,
}

pub starts_with-append : (s t p : Text) → starts_with (s ++ t) p ≡ false → starts_with s p ≡ false
unfolding starts_with
starts_with-append s t [] h = h
starts_with-append [] t (c ∷ p) h = refl
starts_with-append (d ∷ s) t (c ∷ p) h = ground (arith, starts_with-append s t p)

-- What is not found in a text is not found in the text's beginning.
pub find-append_none : (c : ℕ) (p s t : Text) → find (c ∷ p) (s ++ t) ≡ none → find (c ∷ p) s ≡ none
unfolding find
find-append_none c p [] t h = refl
find-append_none c p (d ∷ s) t h =
    ground (arith, starts_with-append (d ∷ s) t (c ∷ p), find-append_none c p s t)

-- Packets of one client that are processed in turn.
unfoldable pub feed : Env → Addr → List Text → Text → Session → SmtpServer → Session × SmtpServer
feed env addr [] last session srv = process_session env addr last session srv
feed env addr (chunk ∷ chunks) last session srv =
    let (session', srv') = process_session env addr chunk session srv in
    feed env addr chunks last session' srv'

abbrev pub concat : List Text → Text
concat [] = []
concat (chunk ∷ chunks) = chunk ++ concat chunks

pub concat-append : (ts : List Text) (last : Text) → concat (ts ++ last ∷ []) ≡ concat ts ++ last
concat-append [] last = append-nil last
concat-append (t ∷ ts) last =
    ap (λ (x : Text). t ++ x) (concat-append ts last) ∙ sym (append_assoc t (concat ts) last)

process_session-data :
    (env : Env) (addr : Addr) (packet : Text) (session : Session) (srv : SmtpServer)
    → session.state ≡ SmtpState.reading_data_stream
    → process_session env addr packet session srv ≡ handle_data_stream env addr session packet srv
unfolding process_session
process_session-data env addr packet session srv h = rw h

kept_lem :
    (env : Env) (addr : Addr) (packet : Text) (session : Session) (srv : SmtpServer)
    → find smtp_terminator (session.data_buffer ++ packet) ≡ none
    → handle_data_stream env addr session packet srv
      ≡ (record session { data_buffer = session.data_buffer ++ packet }, srv)
unfolding handle_data_stream
kept_lem env addr packet session srv n = rw n

-- A packet that does not complete the message is kept.
pub data_stream_kept :
    (env : Env) (addr : Addr) (packet : Text) (session : Session) (srv : SmtpServer)
    → session.state ≡ SmtpState.reading_data_stream
    → find smtp_terminator (session.data_buffer ++ packet) ≡ none
    → process_session env addr packet session srv
      ≡ (record session { data_buffer = session.data_buffer ++ packet }, srv)
data_stream_kept env addr packet session srv h n =
    process_session-data env addr packet session srv h ∙ kept_lem env addr packet session srv n

-- What is buffered, and what comes, count together.
data_stream_assoc :
    (env : Env) (addr : Addr) (a b : Text) (session : Session) (srv : SmtpServer)
    → handle_data_stream env addr (record session { data_buffer = session.data_buffer ++ a }) b srv
      ≡ handle_data_stream env addr session (a ++ b) srv
unfolding handle_data_stream
data_stream_assoc env addr a b session srv =
    ap (λ (full : Text). take_message env addr session full (find smtp_terminator full) srv)
      (append_assoc session.data_buffer a b)

-- While a session reads a message, packets that together do not hold the end of it, followed by
-- any last packet, do what one packet of all their bytes does.
pub feed-concat :
    (env : Env) (addr : Addr) (chunks : List Text) (last : Text) (session : Session)
    (srv : SmtpServer)
    → session.state ≡ SmtpState.reading_data_stream
    → find smtp_terminator (session.data_buffer ++ concat chunks) ≡ none
    → feed env addr chunks last session srv
      ≡ process_session env addr (concat chunks ++ last) session srv
unfolding feed
feed-concat env addr [] last session srv h n = refl
feed-concat env addr (chunk ∷ chunks) last session srv h n =
    let session' : Session = record session { data_buffer = session.data_buffer ++ chunk } in
    let rest : (find smtp_terminator ((session.data_buffer ++ chunk) ++ concat chunks)) ≡ none =
      rw (append_assoc session.data_buffer chunk (concat chunks)) n in
    ap (λ (r : Session × SmtpServer). feed env addr chunks last r.0 r.1)
      (data_stream_kept env addr chunk session srv h (
        find-append_none 13 (10 ∷ 46 ∷ 13 ∷ 10 ∷ []) (session.data_buffer ++ chunk) (concat chunks)
          rest))
    ∙ feed-concat env addr chunks last session' srv h rest
    ∙ process_session-data env addr (concat chunks ++ last) session' srv h
    ∙ data_stream_assoc env addr chunk (concat chunks ++ last) session srv
    ∙ ap (λ (t : Text). handle_data_stream env addr session t srv)
        (sym (append_assoc chunk (concat chunks) last))
    ∙ sym (process_session-data env addr ((chunk ++ concat chunks) ++ last) session srv h)
