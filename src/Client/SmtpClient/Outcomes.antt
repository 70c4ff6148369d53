-- ===== src/Client/SmtpClient/Outcomes.antt =====
-- How `send_email` of smtp_client.py ends.
use rdt_mail_service.Prelude.{◌≡◌, refl, sym, ap, ◌∙◌, Bool, true, false, List, ◌++◌}
use rdt_mail_service.Prelude.Text.{Text, codes}
use rdt_mail_service.Client.Wire.{
  Wire, Event, Failure, Result, returned, raised, waiting, Client, send_command,
}
use rdt_mail_service.Client.Conversation.{Step, Follows, Keeps}
use rdt_mail_service.Client.SmtpClient.{
  transaction, clean_up, rescue, finally, answer_false, send_email,
}
use rdt_mail_service.Client.SmtpClient.Open.{transaction-Steady, rescue-closed}
use rdt_mail_service.Client.SmtpClient.Transcript.{script, transaction-Scripted}

-- How a call ends, if the socket was open before or not. Open: it has not raised, and if it has
-- returned, the dispatcher was stopped last, and then the socket was closed. Not open: it has not
-- returned, and if it has raised, what a call of a closed socket raises.
abbrev pub Settled : {S : Type 0} → Wire S → Bool → Result Bool × Client S → Type 0
Settled {S = S} w false (returned b, c) = (c.closed ≡ true) × (s : S) × (c.wire ≡ w.shut s)
Settled w false (raised e, c) = ⊥
Settled w true (returned b, c) = ⊥
Settled w true (raised e, c) = e ≡ Failure.socket_failure
Settled w b (waiting, c) = Unit

-- A call that does not raise.
abbrev Calm : {S : Type 0} → Result Bool × Client S → Type 0
Calm (returned b, c) = Unit
Calm (raised e, c) = ⊥
Calm (waiting, c) = Unit

module _ {S : Type 0} (w : Wire S) where
  answered-Calm : (r : Result (Unit {0}) × Client S) → Calm (answer_false r)
  answered-Calm (returned u, c) = tt
  answered-Calm (raised e, c) = tt
  answered-Calm (waiting, c) = tt

  cleaned_up-Calm : (b : Bool) (c : Client S) → Calm (clean_up w b c)
  cleaned_up-Calm true c = answered-Calm (send_command w (codes "QUIT") c)
  cleaned_up-Calm false c = tt

  rescued-Calm : (r : Result Bool × Client S) → Calm (rescue w r)
  rescued-Calm (returned b, c) = tt
  rescued-Calm (waiting, c) = tt
  rescued-Calm (raised e, c) = cleaned_up-Calm c.is_connected c

  finally-Settled :
      (b : Bool) (r : Result Bool × Client S) → Calm r → r.1.closed ≡ b → Settled w b (finally w r)
  finally-Settled true (returned x, c) k h = rw h refl
  finally-Settled false (returned x, c) k h = rw h (refl, c.wire, refl)
  finally-Settled b (raised e, c) k h = absurd k
  finally-Settled true (waiting, c) k h = tt
  finally-Settled false (waiting, c) k h = tt

  -- Whatever is lost, refused or malformed: of a client whose socket is open, `send_email` does not
  -- raise, and when it returns, it has stopped the dispatcher as the last use of the wire, and the
  -- socket is closed. Of a client whose socket is closed it does not return, and what it raises is
  -- what a call of a closed socket raises.
  pub send_email-Settled :
      (sender recipient subject body : Text) (c : Client S)
      → Settled w c.closed (send_email w sender recipient subject body c)
  unfolding send_email
  send_email-Settled sender recipient subject body c =
      let r = transaction w sender recipient subject body c in
      finally-Settled c.closed (rescue w r) (rescued-Calm r)
        (rescue-closed w r ∙ transaction-Steady w sender recipient subject body c)

  not_true :
      (r : Result (Unit {0}) × Client S) (c' : Client S)
      → answer_false r ≡ (Result.returned true, c')
      → ⊥
  not_true (returned u, c) c' h = cc
  not_true (raised e, c) c' h = cc
  not_true (waiting, c) c' h = cc

  cleaned_not_true : (b : Bool) (c c' : Client S) → clean_up w b c ≡ (Result.returned true, c') → ⊥
  cleaned_not_true true c c' h = not_true (send_command w (codes "QUIT") c) c' h
  cleaned_not_true false c c' h = cc

  closed_true :
      (shut : Bool) (b : Bool) (c c' : Client S)
      → c.closed ≡ shut
      → finally w (Result.returned b, c) ≡ (Result.returned true, c')
      → (b ≡ true) × (c'.log ≡ c.log)
  closed_true true b c c' k h = cc (rw k at h)
  closed_true false b c c' k h =
      let e : ◌≡◌ {A = Result Bool × Client S}
          (Result.returned b, record c { wire = w.shut c.wire; closed = true })
          (Result.returned true, c') =
        rw k at h in
      (cc, sym (ap (λ (x : Result Bool × Client S). x.1.log) e))

  raised_never :
      (shut : Bool) (e : Failure) (c c' : Client S)
      → c.closed ≡ shut
      → finally w (Result.raised e, c) ≡ (Result.returned true, c')
      → ⊥
  raised_never true e c c' k h = cc (rw k at h)
  raised_never false e c c' k h = cc (rw k at h)

  finally-true :
      (r : Result Bool × Client S) (c' : Client S)
      → finally w r ≡ (Result.returned true, c')
      → (r ≡ (Result.returned true, r.1)) × (c'.log ≡ r.1.log)
  finally-true (returned b, c) c' h =
      let (e, l) = closed_true c.closed b c c' refl h in
      (ap (λ (x : Bool). (Result.returned x, c)) e, l)
  finally-true (raised e, c) c' h = absurd (raised_never c.closed e c c' refl h)
  finally-true (waiting, c) c' h = cc

  true-Keeps :
      (steps : List Step) (c c' : Client S) (r : Result Bool × Client S)
      → Keeps steps c r
      → finally w (rescue w r) ≡ (Result.returned true, c')
      → (l : List Event) × (c'.log ≡ c.log ++ l) × Follows steps l
  true-Keeps steps c c' (returned b, c1) (l, e, f) h =
      (l, (finally-true (Result.returned b, c1) c' h).1 ∙ e, f)
  true-Keeps steps c c' (waiting, c1) k h = cc
  true-Keeps steps c c' (raised e, c1) k h =
      let r : Result Bool × Client S = clean_up w c1.is_connected c1 in
      absurd (cleaned_not_true c1.is_connected c1 r.1 (finally-true r c' h).0)

  -- If `send_email` returns True, the client has said and heard just one whole transaction: NOOP,
  -- and a reply 220 and at most one more; HELO, MAIL with the sender, RCPT with the recipient, each
  -- with a reply 250; DATA with a reply 354; the message in pieces, then a reply 250; and QUIT, with
  -- or without a reply.
  pub send_email-Follows :
      (sender recipient subject body : Text) (c c' : Client S)
      → send_email w sender recipient subject body c ≡ (Result.returned true, c')
      → (l : List Event) × (c'.log ≡ c.log ++ l) × Follows (script sender recipient subject body) l
  unfolding send_email
  send_email-Follows sender recipient subject body c c' h =
      true-Keeps (script sender recipient subject body) c c'
        (transaction w sender recipient subject body c)
        (transaction-Scripted w sender recipient subject body c) h
