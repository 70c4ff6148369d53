-- ===== src/Client/Conversation.antt =====
-- What smtp_client.py and pop3_client.py say and hear, in which order: a script is what a client is
-- expected to say, and which answers let it go on.
use rdt_mail_service.Prelude.{
  ◌≡◌, refl, sym, ap, ◌∙◌, ◌⊎◌, inl, inr, true, List, [], ◌∷◌, ◌++◌, append_assoc, append-nil,
  Bool-cases,
}
use rdt_mail_service.Prelude.Text.{Text, cr, lf, strip}
use rdt_mail_service.Rdt.Sender.{Sent, acked, connection_error, struct_error, os_error}
use rdt_mail_service.Client.Wire.{
  Wire, Next, yields, ends, fails, waits, Event, Result, returned, raised, waiting, Client, Action,
  ◌>>=◌, ◌>>◌, then_do, return, say, hear, ascii, is_ascii, send_command, hear_text, sent_as,
  heard_as,
}

-- A step of a script: it is said, or an answer is heard that makes a reader accept, or whatever is
-- heard is accepted, be it that nothing comes.
pub data Step : Type 1 where
  says : Text → Step
  hears : (Text → Type 0) → Step
  may_hear : Step

abbrev pub Fits : Step → Event → Type 0
Fits (says bytes) e = e ≡ Event.said bytes
Fits (hears Accepts) e = (bytes : Text) × (e ≡ Event.heard bytes) × Accepts bytes
Fits may_hear e = ((bytes : Text) × (e ≡ Event.heard bytes)) ⊎ (e ≡ Event.lost)

-- The events follow the script, step by step, to its end.
abbrev pub Follows : List Step → List Event → Type 0
Follows [] events = events ≡ []
Follows (step ∷ steps) events =
    (e : Event) × (rest : List Event) × (events ≡ e ∷ rest) × Fits step e × Follows steps rest

pub Follows-append :
    (xs ys : List Step) (l m : List Event)
    → Follows xs l
    → Follows ys m
    → Follows (xs ++ ys) (l ++ m)
Follows-append [] ys l m h k = rw h k
Follows-append (x ∷ xs) ys l m (e, rest, q, f, h) k =
    (e, rest ++ m, ap (λ (t : List Event). t ++ m) q, f, Follows-append xs ys rest m h k)

-- Where an action returns, what it adds to the log follows a script.
abbrev pub Keeps : {S A : Type 0} → List Step → Client S → Result A × Client S → Type 0
Keeps steps c (returned a, c') = (l : List Event) × (c'.log ≡ c.log ++ l) × Follows steps l
Keeps steps c (raised e, c') = Unit
Keeps steps c (waiting, c') = Unit

abbrev pub Scripted : {S A : Type 0} → List Step → Action S A → Type 0
Scripted {S = S} steps m = (c : Client S) → Keeps steps c (m c)

Keeps-append :
    {S A : Type 0} (xs ys : List Step) (c c' : Client S) (l : List Event) (r : Result A × Client S)
    → c'.log ≡ c.log ++ l
    → Follows xs l
    → Keeps ys c' r
    → Keeps (xs ++ ys) c r
Keeps-append xs ys c c' l (returned a, c'') e f (m, e', g) = (
  l ++ m,
  e' ∙ ap (λ (t : List Event). t ++ m) e ∙ append_assoc c.log l m,
  Follows-append xs ys l m f g,
)
Keeps-append xs ys c c' l (raised x, c'') e f k = tt
Keeps-append xs ys c c' l (waiting, c'') e f k = tt

-- Scripts are put after each other the way actions are.
pub Keeps-then_do :
    {S A B : Type 0} (xs ys : List Step) (c : Client S) (r : Result A × Client S)
    (f : A → Action S B)
    → Keeps xs c r
    → ((a : A) → Scripted ys (f a))
    → Keeps (xs ++ ys) c (then_do f r)
Keeps-then_do xs ys c (returned a, c') f (l, e, g) k =
    Keeps-append xs ys c c' l (f a c') e g (k a c')
Keeps-then_do xs ys c (raised x, c') f h k = tt
Keeps-then_do xs ys c (waiting, c') f h k = tt

pub bind-Scripted :
    {S A B : Type 0} (xs ys : List Step) (m : Action S A) (f : A → Action S B)
    → Scripted xs m
    → ((a : A) → Scripted ys (f a))
    → Scripted (xs ++ ys) (m >>= f)
bind-Scripted xs ys m f h k c = Keeps-then_do xs ys c (m c) f (h c) k

pub seq-Scripted :
    {S B : Type 0} (xs ys : List Step) (m : Action S (Unit {0})) (k : Action S B)
    → Scripted xs m
    → Scripted ys k
    → Scripted (xs ++ ys) (m >> k)
seq-Scripted xs ys m k h g c = Keeps-then_do xs ys c (m c) (λ _. k) (h c) (λ _. g)

pub return-Scripted : {S A : Type 0} (a : A) → Scripted {S = S} [] (return a)
return-Scripted a c = ([], sym (append-nil c.log), refl)

sent_as-Keeps :
    {S : Type 0} (bytes : Text) (c : Client S) (r : Sent × S)
    → Keeps (Step.says bytes ∷ []) c (sent_as c bytes r)
sent_as-Keeps bytes c (acked, s) =
    (Event.said bytes ∷ [], refl, (Event.said bytes, [], refl, refl, refl))
sent_as-Keeps bytes c (connection_error, s) = tt
sent_as-Keeps bytes c (struct_error, s) = tt
sent_as-Keeps bytes c (os_error, s) = tt

pub say-Scripted :
    {S : Type 0} (w : Wire S) (bytes : Text) → Scripted (Step.says bytes ∷ []) (say w bytes)
unfolding say
say-Scripted w bytes c = sent_as-Keeps bytes c (w.send_bytes bytes c.wire)

-- What `encode` gives is what it is given, or it raises.
pub ascii-Scripted :
    {S A : Type 0} (steps : List Step) (s : Text) (f : Text → Action S A)
    → Scripted steps (f s)
    → Scripted steps (ascii s >>= f)
unfolding ascii
ascii-Scripted steps s f h c = elim (Bool-cases (is_ascii s)) [
  | inl e ↦ rw e (h c)
  | inr e ↦ rw e tt
]

pub send_command-Scripted :
    {S : Type 0} (w : Wire S) (cmd : Text)
    → Scripted (Step.says (cmd ++ cr ∷ lf ∷ []) ∷ []) (send_command w cmd)
unfolding send_command
send_command-Scripted w cmd =
    ascii-Scripted (Step.says (cmd ++ cr ∷ lf ∷ []) ∷ []) (cmd ++ cr ∷ lf ∷ []) (say w)
      (say-Scripted w (cmd ++ cr ∷ lf ∷ []))

-- Where a call returns, it has said and heard nothing, and what it returned for holds.
abbrev pub Judged : {S A : Type 0} → Type 0 → Client S → Result A × Client S → Type 0
Judged P c (returned a, c') = (c'.log ≡ c.log) × P
Judged P c (raised e, c') = Unit
Judged P c (waiting, c') = Unit

-- An answer that is ASCII, and whose text without white space around it is accepted.
abbrev pub Answer : (Text → Type 0) → Text → Type 0
Answer Accepts bytes = (is_ascii bytes ≡ true) × Accepts (strip bytes)

heard-Keeps :
    {S A : Type 0} (Accepts : Text → Type 0) (bytes : Text) (c c' : Client S)
    (r : Result A × Client S)
    → c'.log ≡ c.log ++ Event.heard bytes ∷ []
    → is_ascii bytes ≡ true
    → Judged (Accepts (strip bytes)) c' r
    → Keeps (Step.hears (Answer Accepts) ∷ []) c r
heard-Keeps Accepts bytes c c' (returned a, c'') e t (e', h) =
    (Event.heard bytes ∷ [], e' ∙ e, (Event.heard bytes, [], refl, (bytes, refl, (t, h)), refl))
heard-Keeps Accepts bytes c c' (raised x, c'') e t h = tt
heard-Keeps Accepts bytes c c' (waiting, c'') e t h = tt

module _ {S A : Type 0} (Accepts : Text → Type 0) (f : Text → Action S A)
    (judges : (t : Text) (c : Client S) → Judged (Accepts t) c (f t c)) where
  heard_as-Keeps :
      (c : Client S) (r : Next × S)
      → Keeps (Step.hears (Answer Accepts) ∷ []) c (
          then_do f
            (then_do (λ (bytes : Text). (do t ← ascii bytes; return (strip t))) (heard_as c r)))
  unfolding ascii
  heard_as-Keeps c (yields bytes, s) =
      let c' : Client S = record c { wire = s; log = c.log ++ Event.heard bytes ∷ [] } in
      elim (Bool-cases (is_ascii bytes)) [
        | inl e ↦
            rw e
              (heard-Keeps Accepts bytes c c' (f (strip bytes) c') refl e (judges (strip bytes) c'))
        | inr e ↦ rw e tt
      ]
  heard_as-Keeps c (ends, s) = tt
  heard_as-Keeps c (fails, s) = tt
  heard_as-Keeps c (waits, s) = tt

  -- A call that hears an answer and goes on if it is accepted.
  pub hear_text-Scripted :
      (w : Wire S) → Scripted (Step.hears (Answer Accepts) ∷ []) (hear_text w >>= f)
  unfolding hear_text hear
  hear_text-Scripted w c = heard_as-Keeps c (w.next_bytes c.wire)

then_do_assoc :
    {S A B D : Type 0} (f : A → Action S B) (g : B → Action S D) (r : Result A × Client S)
    → then_do g (then_do f r) ≡ then_do (λ (a : A). f a >>= g) r
then_do_assoc f g (returned a, c) = refl
then_do_assoc f g (raised e, c) = refl
then_do_assoc f g (waiting, c) = refl

pub bind_assoc :
    {S A B D : Type 0} (m : Action S A) (f : A → Action S B) (g : B → Action S D) (c : Client S)
    → ((m >>= f) >>= g) c ≡ (m >>= (λ (a : A). f a >>= g)) c
bind_assoc m f g c = then_do_assoc f g (m c)
