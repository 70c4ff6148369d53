-- ===== src/Client/SmtpClient/Replies.antt =====
-- The replies that smtp_client.py reads.
use rdt_mail_service.Prelude.{
  ℕ, ◌≤◌, ◌≡◌, refl, ap, ◌∙◌, inl, inr, true, List, [], ◌∷◌, ◌++◌, some, Bool-cases, Option-cases,
  ltb, length, arith, if◌then◌else◌,
}
use rdt_mail_service.Prelude.Text.{Text, cr, lf, strip}
use rdt_mail_service.Pop3.Numbers.{ℤ, pos, negsuc}
use rdt_mail_service.Client.Wire.{
  ignore, Wire, Next, yields, ends, fails, waits, hear, heard_as, Event, Failure, Result, returned,
  raised, waiting, Client, Action, ◌>>=◌, ◌>>◌, then_do, return, raise, ascii, send_command,
  hear_text,
}
use rdt_mail_service.Client.Conversation.{
  Step, may_hear, Fits, Keeps, Scripted, Judged, Answer, seq-Scripted, send_command-Scripted,
  hear_text-Scripted, bind_assoc,
}
use rdt_mail_service.Client.SmtpClient.{
  parse_reply, is_code, parsed, expect, any_reply, get_reply, reraise,
}

-- The reply has at least three characters, and is a reply with that code.
abbrev pub HasCode : ℕ → Text → Type 0
HasCode code reply =
    (msg : Text) × (3 ≤ length reply) × (parse_reply reply ≡ some (ℤ.pos code, msg))

abbrev pub command : Text → Step
command cmd = Step.says (cmd ++ cr ∷ lf ∷ [])

abbrev pub reply : ℕ → Step
reply code = Step.hears (Answer (HasCode code))

abbrev check : {S : Type 0} → ℕ → Failure → ℤ × Text → Action S (Unit {0})
check code e (got, msg) = if is_code code got then return tt else raise e

is_code-eq : (code : ℕ) (n : ℤ) → is_code code n ≡ true → n ≡ ℤ.pos code
is_code-eq code (pos m) h = ap ℤ.pos (ground arith)
is_code-eq code (negsuc m) h = absurd (ground arith)

-- `P` is what an accepted reply means.
module _ {S : Type 0} (code : ℕ) (e : Failure) (t : Text) (P : Type 0)
    (means : (msg : Text) → 3 ≤ length t → parse_reply t ≡ some (ℤ.pos code, msg) → P)
    (c : Client S) where
  check-Judged :
      (msg : Text) (n : ℤ)
      → 3 ≤ length t
      → parse_reply t ≡ some (n, msg)
      → Judged P c (check code e (n, msg) c)
  check-Judged msg n l h = elim (Bool-cases (is_code code n)) [
    | inl y ↦ rw y (refl, means msg l (rw (is_code-eq code n y) at h))
    | inr y ↦ rw y tt
  ]

  reply-Judged : Judged P c ((parsed t >>= check code e) c)
  unfolding parsed
  reply-Judged = elim (Bool-cases (ltb (length t) 3)) [
    | inl short ↦ rw short tt
    | inr long ↦ elim (Option-cases (parse_reply t)) [
      | inl bad ↦ rw (long, bad) tt
      | inr (r, good) ↦ rw (long, good) (check-Judged r.1 r.0 (grind arith) good)
    ]
  ]

parsed-Judged :
    {S : Type 0} (code : ℕ) (e : Failure) (t : Text) (c : Client S)
    → Judged (HasCode code t) c ((parsed t >>= check code e) c)
parsed-Judged code e t c = reply-Judged code e t (HasCode code t) (λ msg l h. (msg, l, h)) c

module _ {S : Type 0} (w : Wire S) where
  pub expect-Scripted : (code : ℕ) (e : Failure) → Scripted (reply code ∷ []) (expect w code e)
  unfolding get_reply
  expect-Scripted code e c = rw (bind_assoc (hear_text w) parsed (check code e) c) (
      hear_text-Scripted (HasCode code) (λ (t : Text). parsed t >>= check code e)
        (parsed-Judged code e) w c)

  pub asked-Scripted :
      (cmd : Text) (code : ℕ) (e : Failure)
      → Scripted (command cmd ∷ reply code ∷ []) (do send_command w cmd; expect w code e)
  asked-Scripted cmd code e =
      seq-Scripted (command cmd ∷ []) (reply code ∷ []) (send_command w cmd) (expect w code e)
        (send_command-Scripted w cmd) (expect-Scripted code e)

-- To decode and read an answer changes nothing of the client.
read_quiet :
    {S : Type 0} (bytes : Text) (c : Client S)
    → (then_do parsed (then_do (λ (t : Text). return (strip t)) (ascii bytes c))).1 ≡ c
unfolding ascii parsed
read_quiet bytes c = ground arith

ignore-Keeps :
    {S A : Type 0} (c c' : Client S) (e : Event) (r : Result A × Client S)
    → r.1 ≡ c'
    → c'.log ≡ c.log ++ e ∷ []
    → Fits may_hear e
    → Keeps (may_hear ∷ []) c (ignore r)
ignore-Keeps {S = S} c c' e (returned a, c'') q h f =
    (e ∷ [], ap (λ (x : Client S). x.log) q ∙ h, (e, [], refl, f, refl))
ignore-Keeps {S = S} c c' e (raised x, c'') q h f =
    (e ∷ [], ap (λ (x : Client S). x.log) q ∙ h, (e, [], refl, f, refl))
ignore-Keeps {S = S} c c' e (waiting, c'') q h f = tt

pub reraise-Keeps :
    {S A : Type 0} (steps : List Step) (c : Client S) (e : Failure) (r : Result A × Client S)
    → Keeps steps c r
    → Keeps steps c (reraise e r)
reraise-Keeps steps c e (returned a, c') h = h
reraise-Keeps steps c e (raised x, c') h = tt
reraise-Keeps steps c e (waiting, c') h = tt

any_as :
    {S : Type 0} (c : Client S) (r : Next × S)
    → Keeps (may_hear ∷ []) c (
        ignore (
          then_do parsed
            (then_do (λ (bytes : Text). (do t ← ascii bytes; return (strip t))) (heard_as c r))))
any_as {S = S} c (yields bytes, s) =
    let c' : Client S = record c { wire = s; log = c.log ++ Event.heard bytes ∷ [] } in
    ignore-Keeps c c' (Event.heard bytes)
      (then_do parsed (then_do (λ (t : Text). return (strip t)) (ascii bytes c')))
      (read_quiet bytes c') refl (inl (bytes, refl))
any_as c (ends, s) = (Event.lost ∷ [], refl, (Event.lost, [], refl, inr refl, refl))
any_as c (fails, s) = (Event.lost ∷ [], refl, (Event.lost, [], refl, inr refl, refl))
any_as c (waits, s) = tt

module _ {S : Type 0} (w : Wire S) where
  pub any_reply-Scripted : Scripted (may_hear ∷ []) (any_reply w)
  unfolding get_reply hear_text hear
  any_reply-Scripted c = any_as c (w.next_bytes c.wire)
