-- ===== src/Client/SmtpClient/Open.antt =====
-- Nothing but `_close` of smtp_client.py closes the socket.
use rdt_mail_service.Prelude.{
  ℕ, zero, suc, ◌+◌, ◌≡◌, refl, ◌∙◌, inl, inr, Bool, true, false, [], ◌∷◌, ◌++◌, nat_eq,
  Option-cases, ltb, length, take, drop, if◌then◌else◌,
}
use rdt_mail_service.Prelude.Text.{Text, codes, strip, cr, lf}
use rdt_mail_service.Pop3.Numbers.{ℤ}
use rdt_mail_service.Rdt.Sender.{Sent, acked, connection_error, struct_error, os_error}
use rdt_mail_service.Client.Wire.{
  Wire, Failure, Next, yields, ends, waits, fails, Result, returned, raised, waiting, Client,
  Action, ◌>>=◌, ◌>>◌, return, raise, then_do, say, sent_as, hear, heard_as, hear_text,
  send_command, ascii, is_ascii, ignore,
}
use rdt_mail_service.Client.SmtpClient.{
  parse_reply, or_value_error, parsed, reraise, message_text, terminator, get_reply, expect,
  is_code, welcome, any_reply, mark_connected, renew, connect, do_handshake, send_mail_from,
  send_rcpt_to, send_chunks, send_data, send_quit, transaction, clean_up, rescue, answer_false,
  smtp_ready, smtp_ok, smtp_start_input, max_payload_size,
}

-- The socket is closed after the call exactly if it was before.
abbrev pub Steady : {S A : Type 0} → Action S A → Type 0
Steady {S = S} m = (c : Client S) → (m c).1.closed ≡ c.closed

then_do-closed :
    {S A B : Type 0} (f : A → Action S B) (r : Result A × Client S)
    → ((a : A) → Steady (f a))
    → (then_do f r).1.closed ≡ r.1.closed
then_do-closed f (returned a, c) h = h a c
then_do-closed f (raised e, c) h = refl
then_do-closed f (waiting, c) h = refl

pub bind-Steady :
    {S A B : Type 0} (m : Action S A) (f : A → Action S B)
    → Steady m
    → ((a : A) → Steady (f a))
    → Steady (m >>= f)
bind-Steady m f h k c = then_do-closed f (m c) k ∙ h c

pub seq-Steady :
    {S B : Type 0} (m : Action S (Unit {0})) (k : Action S B)
    → Steady m
    → Steady k
    → Steady (m >> k)
seq-Steady m k h g c = then_do-closed (λ _. k) (m c) (λ _. g) ∙ h c

if-Steady :
    {S A : Type 0} (b : Bool) (m k : Action S A) → Steady m → Steady k → Steady (if b then m else k)
if-Steady true m k h g = h
if-Steady false m k h g = g

ascii-Steady : {S : Type 0} (s : Text) → Steady {S = S} (ascii s)
unfolding ascii
ascii-Steady s =
    if-Steady (is_ascii s) (return s) (raise Failure.unicode_failure) (λ c. refl) (λ c. refl)

sent_as-closed :
    {S : Type 0} (c : Client S) (bytes : Text) (r : Sent × S)
    → (sent_as c bytes r).1.closed ≡ c.closed
sent_as-closed c bytes (acked, s) = refl
sent_as-closed c bytes (connection_error, s) = refl
sent_as-closed c bytes (struct_error, s) = refl
sent_as-closed c bytes (os_error, s) = refl

heard_as-closed : {S : Type 0} (c : Client S) (r : Next × S) → (heard_as c r).1.closed ≡ c.closed
heard_as-closed c (yields bytes, s) = refl
heard_as-closed c (ends, s) = refl
heard_as-closed c (fails, s) = refl
heard_as-closed c (waits, s) = refl

ignore-closed : {S A : Type 0} (r : Result A × Client S) → (ignore r).1.closed ≡ r.1.closed
ignore-closed (returned a, c) = refl
ignore-closed (raised e, c) = refl
ignore-closed (waiting, c) = refl

reraise-closed :
    {S A : Type 0} (e : Failure) (r : Result A × Client S) → (reraise e r).1.closed ≡ r.1.closed
reraise-closed e (returned a, c) = refl
reraise-closed e (raised e', c) = refl
reraise-closed e (waiting, c) = refl

module _ {S : Type 0} (w : Wire S) where
  say-Steady : (bytes : Text) → Steady (say w bytes)
  unfolding say
  say-Steady bytes c = sent_as-closed c bytes (w.send_bytes bytes c.wire)

  pub send_command-Steady : (cmd : Text) → Steady (send_command w cmd)
  unfolding send_command
  send_command-Steady cmd =
      bind-Steady (ascii (cmd ++ cr ∷ lf ∷ [])) (say w) (ascii-Steady (cmd ++ cr ∷ lf ∷ []))
        say-Steady

  hear_text-Steady : Steady (hear_text w)
  unfolding hear_text hear
  hear_text-Steady =
      bind-Steady (hear w) (λ (bytes : Text). (do text ← ascii bytes; return (strip text)))
        (λ c. heard_as-closed c (w.next_bytes c.wire))
        (λ bytes.
          bind-Steady (ascii bytes) (λ (text : Text). return (strip text)) (ascii-Steady bytes)
            (λ text c. refl))

  parsed-Steady : (reply : Text) → Steady {S = S} (parsed reply)
  unfolding parsed
  parsed-Steady reply =
      if-Steady (ltb (length reply) 3) (raise Failure.client_protocol_error)
        (or_value_error (parse_reply reply)) (λ c. refl)
        (λ c. elim (Option-cases (parse_reply reply)) [
          | inl n ↦ rw n refl
          | inr (r, y) ↦ rw y refl
        ])

  get_reply-Steady : Steady (get_reply w)
  unfolding get_reply
  get_reply-Steady = bind-Steady (hear_text w) parsed hear_text-Steady parsed-Steady

  expect-Steady : (code : ℕ) (e : Failure) → Steady (expect w code e)
  expect-Steady code e =
      bind-Steady (get_reply w) (λ (r : ℤ × Text). if is_code code r.0 then return tt else raise e)
        get_reply-Steady
        (λ (got, msg). if-Steady (is_code code got) (return tt) (raise e) (λ c. refl) (λ c. refl))

  any_reply-Steady : Steady (any_reply w)
  any_reply-Steady c = ignore-closed (get_reply w c) ∙ get_reply-Steady c

  asked-Steady :
      (cmd : Text) (code : ℕ) (e : Failure) → Steady (do send_command w cmd; expect w code e)
  asked-Steady cmd code e =
      seq-Steady (send_command w cmd) (expect w code e) (send_command-Steady cmd)
        (expect-Steady code e)

  connect-Steady : Steady (connect w)
  unfolding connect
  connect-Steady =
      seq-Steady (renew w)
        (do send_command w (codes "NOOP"); welcome w; any_reply w; mark_connected w) (λ c. refl)
        (seq-Steady (send_command w (codes "NOOP")) (do welcome w; any_reply w; mark_connected w)
          (send_command-Steady (codes "NOOP"))
          (seq-Steady (welcome w) (do any_reply w; mark_connected w)
            (λ c.
              reraise-closed Failure.client_connection_error
                (expect w smtp_ready Failure.client_connection_error c)
              ∙ expect-Steady smtp_ready Failure.client_connection_error c)
            (seq-Steady (any_reply w) (mark_connected w) any_reply-Steady (λ c. refl))))

  send_chunks-Steady : (rounds sent : ℕ) (p : Text) → Steady (send_chunks w rounds sent p)
  unfolding send_chunks
  send_chunks-Steady zero sent p c = refl
  send_chunks-Steady (suc rounds) sent p c =
      let chunk : Text = take max_payload_size (drop sent p) in
      let go_on : Action S (Unit {0}) = (do
        say w chunk
        send_chunks w rounds (sent + length chunk) p) in
      let gone_on : Steady go_on =
        seq-Steady (say w chunk) (send_chunks w rounds (sent + length chunk) p) (say-Steady chunk)
          (send_chunks-Steady rounds (sent + length chunk) p) in
      if-Steady (ltb sent (length p)) go_on (return tt) gone_on (λ c'. refl) c

  send_data-Steady : (subject body : Text) → Steady (send_data w subject body)
  unfolding send_data
  send_data-Steady subject body =
      let bytes : Text = message_text subject body ++ terminator in
      let finish : Action S (Unit {0}) = expect w smtp_ok Failure.client_protocol_error in
      let deliver : Text → Action S (Unit {0}) =
        λ t. (do send_chunks w (suc (length t)) 0 t; finish) in
      seq-Steady (send_command w (codes "DATA"))
        (do
          expect w smtp_start_input Failure.client_protocol_error
          payload_bytes ← ascii bytes
          deliver payload_bytes)
        (send_command-Steady (codes "DATA"))
        (seq-Steady (expect w smtp_start_input Failure.client_protocol_error)
          (do payload_bytes ← ascii bytes; deliver payload_bytes)
          (expect-Steady smtp_start_input Failure.client_protocol_error)
          (bind-Steady (ascii bytes) deliver (ascii-Steady bytes) (λ t.
            seq-Steady (send_chunks w (suc (length t)) 0 t) finish
              (send_chunks-Steady (suc (length t)) 0 t)
              (expect-Steady smtp_ok Failure.client_protocol_error))))

  pub transaction-Steady :
      (sender recipient subject body : Text) → Steady (transaction w sender recipient subject body)
  unfolding transaction do_handshake send_mail_from send_rcpt_to send_quit
  transaction-Steady sender recipient subject body =
      let e : Failure = Failure.client_protocol_error in
      let from_quit : Action S Bool = (do send_quit w; return true) in
      let from_data : Action S Bool = (do send_data w subject body; from_quit) in
      let from_rcpt : Action S Bool = (do send_rcpt_to w recipient; from_data) in
      let from_mail : Action S Bool = (do send_mail_from w sender; from_rcpt) in
      seq-Steady (connect w) (do do_handshake w; from_mail) connect-Steady
        (seq-Steady (do_handshake w) from_mail (asked-Steady (codes "HELO localhost") smtp_ok e) (
          seq-Steady (send_mail_from w sender) from_rcpt
            (asked-Steady (codes "MAIL FROM:<" ++ sender ++ codes ">") smtp_ok e)
            (seq-Steady (send_rcpt_to w recipient) from_data
              (asked-Steady (codes "RCPT TO:<" ++ recipient ++ codes ">") smtp_ok e)
              (seq-Steady (send_data w subject body) from_quit (send_data-Steady subject body) (
                seq-Steady (send_quit w) (return true)
                  (seq-Steady (send_command w (codes "QUIT")) (any_reply w)
                    (send_command-Steady (codes "QUIT")) any_reply-Steady)
                  (λ c. refl))))))

  answer_false-closed : (r : Result (Unit {0}) × Client S) → (answer_false r).1.closed ≡ r.1.closed
  answer_false-closed (returned u, c) = refl
  answer_false-closed (raised e, c) = refl
  answer_false-closed (waiting, c) = refl

  clean_up-closed : (b : Bool) (c : Client S) → (clean_up w b c).1.closed ≡ c.closed
  clean_up-closed true c =
      answer_false-closed (send_command w (codes "QUIT") c) ∙ send_command-Steady (codes "QUIT") c
  clean_up-closed false c = refl

  pub rescue-closed : (r : Result Bool × Client S) → (rescue w r).1.closed ≡ r.1.closed
  rescue-closed (returned b, c) = refl
  rescue-closed (waiting, c) = refl
  rescue-closed (raised e, c) = clean_up-closed c.is_connected c
