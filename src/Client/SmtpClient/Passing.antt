-- ===== src/Client/SmtpClient/Passing.antt =====
-- Calls of smtp_client.py that return when the server and the network do their part.
use rdt_mail_service.Prelude.{
  ℕ, zero, suc, ◌+◌, ◌≡◌, refl, inl, inr, true, List, [], ◌∷◌, ◌++◌, Bool-cases, ltb, length, arith,
  take, drop, le→ltb, nat_eq,
}
use rdt_mail_service.Prelude.Text.{Text, cr, lf, strip}
use rdt_mail_service.Pop3.Numbers.{ℤ}
use rdt_mail_service.Client.Wire.{
  Event, Failure, Result, Client, Action, send_command, ◌>>=◌, ◌>>◌, say, ascii, is_ascii, hear,
  hear_text,
}
use rdt_mail_service.Client.Answers.{answers_wire, send_command-Gives}
use rdt_mail_service.Client.Conversation.{Answer}
use rdt_mail_service.Client.SmtpClient.{
  max_payload_size, is_code, parsed, expect, send_chunks, any_reply, get_reply,
}
use rdt_mail_service.Client.SmtpClient.Replies.{HasCode}

-- The action returns, and takes the first of the answers and leaves the second.
abbrev pub Passes : {A : Type 0} → List Text → List Text → Action (List Text) A → Type 0
Passes {A = A} before after m =
    (c : Client (List Text))
    → c.wire ≡ before
    → (a : A) × (c' : Client (List Text)) × (m c ≡ (Result.returned a, c')) × (c'.wire ≡ after)

pub seq-Passes :
    {B : Type 0} (xs ys zs : List Text) (m : Action (List Text) (Unit {0}))
    (k : Action (List Text) B)
    → Passes xs ys m
    → Passes ys zs k
    → Passes xs zs (m >> k)
seq-Passes xs ys zs m k h g c e =
    let (u, c', r, e') = h c e in let (b, c'', r', e'') = g c' e' in (b, c'', rw r r', e'')

pub send_command-Passes :
    (cmd : Text) (xs : List Text)
    → is_ascii (cmd ++ cr ∷ lf ∷ []) ≡ true
    → Passes xs xs (send_command answers_wire cmd)
send_command-Passes cmd xs h c e =
    let (c', r, e') = send_command-Gives cmd xs h c e in (tt, c', r, e')

pub send_chunks-Passes :
    (rounds sent : ℕ) (p : Text) (xs : List Text)
    → Passes xs xs (send_chunks answers_wire rounds sent p)
unfolding send_chunks say
send_chunks-Passes zero sent p xs c e = (tt, c, refl, e)
send_chunks-Passes (suc rounds) sent p xs c e =
    let chunk : Text = take max_payload_size (drop sent p) in
    let (u, c', r, e') =
      send_chunks-Passes rounds (sent + length chunk) p xs
        (record c { log = c.log ++ Event.said chunk ∷ [] }) e in
    elim (Bool-cases (ltb sent (length p))) [
      | inl more ↦ (tt, c', rw more r, e')
      | inr over ↦ (tt, c, rw over refl, e)
    ]

is_code_self : (code : ℕ) → is_code code (ℤ.pos code) ≡ true
is_code_self code = ground arith

pub expect-Passes :
    (code : ℕ) (e : Failure) (answer : Text) (xs : List Text)
    → Answer (HasCode code) answer
    → Passes (answer ∷ xs) xs (expect answers_wire code e)
unfolding get_reply hear_text hear ascii parsed
expect-Passes code e answer xs (a, (msg, l, p)) c q = (
  tt,
  record c { wire = xs; log = c.log ++ Event.heard answer ∷ [] },
  rw (q, a, le→ltb (length (strip answer)) 3 l, p, is_code_self code) refl,
  refl,
)

pub any_reply-Passes :
    (answer : Text) (xs : List Text) → Passes (answer ∷ xs) xs (any_reply answers_wire)
unfolding get_reply hear_text hear ascii parsed
any_reply-Passes answer xs c q =
    (tt, record c { wire = xs; log = c.log ++ Event.heard answer ∷ [] }, ground (arith, q), refl)

pub asked-Passes :
    (cmd : Text) (code : ℕ) (answer : Text) (xs : List Text)
    → is_ascii (cmd ++ cr ∷ lf ∷ []) ≡ true
    → Answer (HasCode code) answer
    → Passes
        (answer ∷ xs)
        xs
        (do send_command answers_wire cmd; expect answers_wire code Failure.client_protocol_error)
asked-Passes cmd code answer xs h a =
    seq-Passes (answer ∷ xs) (answer ∷ xs) xs (send_command answers_wire cmd)
      (expect answers_wire code Failure.client_protocol_error)
      (send_command-Passes cmd (answer ∷ xs) h)
      (expect-Passes code Failure.client_protocol_error answer xs a)

pub ascii-Passes :
    {A : Type 0} (xs ys : List Text) (s : Text) (f : Text → Action (List Text) A)
    → is_ascii s ≡ true
    → Passes xs ys (f s)
    → Passes xs ys (ascii s >>= f)
unfolding ascii
ascii-Passes xs ys s f a h c e = rw a (h c e)
