-- ===== src/Client/Answers.antt =====
-- Calls of the two clients on a network that acknowledges all that is sent, when the answers of the
-- server are given.
use rdt_mail_service.Prelude.{◌≡◌, refl, true, List, [], ◌∷◌, ◌++◌, arith}
use rdt_mail_service.Prelude.Text.{Text, cr, lf, strip}
use rdt_mail_service.Rdt.Sender.{Sent}
use rdt_mail_service.Client.Wire.{
  Wire, Next, Event, Result, Client, Action, ◌>>=◌, ◌>>◌, return, say, ascii, is_ascii, hear,
  hear_text, send_command,
}

-- A network that acknowledges all that is sent, and these answers in turn.
abbrev pub answers_wire : Wire (List Text)
answers_wire = record {
  send_bytes = λ (bytes : Text) (answers : List Text). (Sent.acked, answers);
  next_bytes = λ (answers : List Text). elim answers [
    | [] ↦ (Next.ends, [])
    | answer ∷ later ↦ (Next.yields answer, later)
  ];
  restart = λ (answers : List Text). answers;
  shut = λ (answers : List Text). answers;
}

-- The action returns the value, takes the first of the answers and leaves the second.
abbrev pub Gives : {A : Type 0} → List Text → List Text → A → Action (List Text) A → Type 0
Gives before after a m =
    (c : Client (List Text))
    → c.wire ≡ before
    → (c' : Client (List Text)) × (m c ≡ (Result.returned a, c')) × (c'.wire ≡ after)

pub bind-Gives :
    {A B : Type 0} (xs ys zs : List Text) (a : A) (b : B) (m : Action (List Text) A)
    (f : A → Action (List Text) B)
    → Gives xs ys a m
    → Gives ys zs b (f a)
    → Gives xs zs b (m >>= f)
bind-Gives xs ys zs a b m f h g c e =
    let (c', r, e') = h c e in let (c'', r', e'') = g c' e' in (c'', rw r r', e'')

pub seq-Gives :
    {B : Type 0} (xs ys zs : List Text) (b : B) (m : Action (List Text) (Unit {0}))
    (k : Action (List Text) B)
    → Gives xs ys tt m
    → Gives ys zs b k
    → Gives xs zs b (m >> k)
seq-Gives xs ys zs b m k h g c e =
    let (c', r, e') = h c e in let (c'', r', e'') = g c' e' in (c'', rw r r', e'')

pub return-Gives : {A : Type 0} (xs : List Text) (a : A) → Gives xs xs a (return a)
return-Gives xs a c e = (c, refl, e)

pub say-Gives : (bytes : Text) (xs : List Text) → Gives xs xs tt (say answers_wire bytes)
unfolding say
say-Gives bytes xs c e = (record c { log = c.log ++ Event.said bytes ∷ [] }, refl, e)

pub send_command-Gives :
    (cmd : Text) (xs : List Text)
    → is_ascii (cmd ++ cr ∷ lf ∷ []) ≡ true
    → Gives xs xs tt (send_command answers_wire cmd)
unfolding send_command ascii say
send_command-Gives cmd xs h c e =
    (record c { log = c.log ++ Event.said (cmd ++ cr ∷ lf ∷ []) ∷ [] }, rw h refl, e)

pub hear_text-Gives :
    (bytes : Text) (xs : List Text)
    → is_ascii bytes ≡ true
    → Gives (bytes ∷ xs) xs (strip bytes) (hear_text answers_wire)
unfolding hear_text hear ascii
hear_text-Gives bytes xs h c e =
    (record c { wire = xs; log = c.log ++ Event.heard bytes ∷ [] }, rw (e, h) refl, refl)

pub is_ascii-append :
    (s t : Text) → is_ascii s ≡ true → is_ascii t ≡ true → is_ascii (s ++ t) ≡ true
unfolding is_ascii
is_ascii-append [] t h k = k
is_ascii-append (c ∷ s) t h k = ground (arith, is_ascii-append s t)
