-- ===== src/Simulation/Received.antt =====
-- When the check of the mailboxes in simulation.py finds that nothing is missing.
use rdt_mail_service.Prelude.{
  ℕ, ◌+◌, ◌≡◌, ◌⊎◌, ◌↔◌, inl, inr, true, List, [], ◌∷◌, ◌++◌, map, Option, some, length, ◌==◌,
  arith, Bool-cases,
}
use rdt_mail_service.Prelude.Text.{Text, text_eq, codes, strip, lower}
use rdt_mail_service.Auth.User.{User}
use rdt_mail_service.Smtp.Streams.{local_part}
use rdt_mail_service.Simulation.{
  Message, Simulation, is_break, extract_subject, is_received, is_for, run_pop3_integrity_check,
}
use rdt_mail_service.Simulation.Subjects.{unbroken, extract_subject_header}
use rdt_mail_service.Simulation.Integrity.{
  AllReceived, AllFetched, OneEach, Delivered, checks_of, run_pop3_integrity_check-Delivered,
}

-- A message in a mailbox: its subject, the character that ends the line of the subject, the rest.
abbrev pub Arrived : Type 0
Arrived = Text × ℕ × Text

abbrev pub raw : Arrived → Text
raw (subject, b, rest) = codes "Subject: " ++ subject ++ b ∷ rest

-- The subjects are one line each, without white space around them, and a line break follows.
abbrev pub AllPlain : List Arrived → Type 0
AllPlain [] = Unit
AllPlain ((subject, b, rest) ∷ mails) =
    (unbroken subject ≡ true) × (strip subject ≡ subject) × (is_break b ≡ true) × AllPlain mails

-- One of the messages has the subject.
abbrev pub Has : Text → List Arrived → Type 0
Has wanted [] = ⊥
Has wanted ((subject, b, rest) ∷ mails) = (subject ≡ wanted) ⊎ Has wanted mails

-- Each message that was sent to the user has its subject in the mailbox.
abbrev pub AllArrived : List Arrived → User → List Message → Type 0
AllArrived mails user [] = Unit
AllArrived mails user ((sender, recipient, subject, body) ∷ messages) =
    (lower (local_part recipient) ≡ lower user.username → Has subject mails)
    × AllArrived mails user messages

-- The mailboxes as they are fetched.
abbrev pub fetched : List (List Arrived × User) → List (Option (List Text) × User)
fetched [] = []
fetched ((mails, user) ∷ boxes) = (some (map raw mails), user) ∷ fetched boxes

abbrev pub BoxesPlain : List (List Arrived × User) → Type 0
BoxesPlain [] = Unit
BoxesPlain ((mails, user) ∷ boxes) = AllPlain mails × BoxesPlain boxes

abbrev pub BoxesArrived : List (List Arrived × User) → List Message → Type 0
BoxesArrived [] messages = Unit
BoxesArrived ((mails, user) ∷ boxes) messages =
    AllArrived mails user messages × BoxesArrived boxes messages

is_received-Has :
    (wanted : Text) (mails : List Arrived)
    → AllPlain mails
    → (is_received wanted (map extract_subject (map raw mails)) ≡ true) ↔ Has wanted mails
unfolding is_received
is_received-Has wanted [] h = ((λ e. absurd (ground (arith, e))), (λ e. absurd e))
is_received-Has wanted ((subject, b, rest) ∷ mails) (u, s, k, h) =
    let later = is_received-Has wanted mails h in
    rw (extract_subject_header subject rest b u s k) (
      (λ e. elim (Bool-cases (subject == wanted)) [
        | inl same ↦ inl ((text_eq.beq_iff subject wanted).0 same)
        | inr other ↦ inr (later.0 (rw other at e))
      ]),
      (λ e. elim e [
        | inl same ↦ rw ((text_eq.beq_iff subject wanted).1 same)
        | inr k ↦ ground (arith, later.1 k)
      ]),
    )

AllReceived-AllArrived :
    (mails : List Arrived) (user : User) (messages : List Message)
    → AllPlain mails
    → AllReceived (map extract_subject (map raw mails)) user messages
      ↔ AllArrived mails user messages
unfolding is_for
AllReceived-AllArrived mails user [] h = ((λ k. k), (λ k. k))
AllReceived-AllArrived mails user ((sender, recipient, subject, body) ∷ messages) h =
    let later = AllReceived-AllArrived mails user messages h in
    let one = is_received-Has subject mails h in
    let meant = text_eq.beq_iff (lower (local_part recipient)) (lower user.username) in
    (
      (λ k. ((λ e. one.0 (k.0 (meant.1 e))), later.0 k.1)),
      (λ k. ((λ e. one.1 (k.0 (meant.0 e))), later.1 k.1)),
    )

fetched-AllFetched : (boxes : List (List Arrived × User)) → AllFetched (fetched boxes)
fetched-AllFetched [] = tt
fetched-AllFetched ((mails, user) ∷ boxes) = fetched-AllFetched boxes

Delivered-BoxesArrived :
    (boxes : List (List Arrived × User)) (messages : List Message)
    → BoxesPlain boxes
    → Delivered (fetched boxes) messages ↔ BoxesArrived boxes messages
Delivered-BoxesArrived [] messages h = ((λ k. k), (λ k. k))
Delivered-BoxesArrived ((mails, user) ∷ boxes) messages h =
    let here = AllReceived-AllArrived mails user messages h.0 in
    let later = Delivered-BoxesArrived boxes messages h.1 in
    ((λ k. (here.0 k.0, later.0 k.1)), (λ k. (here.1 k.0, later.1 k.1)))

-- The mailboxes are fetched, each message in them begins with the line of its subject, which has no
-- white space around it, and each sent message is for just one of the users. Then the check counts
-- every sent message once, as verified or as missing; and it counts none more as missing exactly
-- if, for every sent message, a message with its subject is in the mailbox of the user whose name,
-- in any case, is the recipient's up to the `@`.
pub run_pop3_integrity_check-BoxesArrived :
    (boxes : List (List Arrived × User)) (sim : Simulation)
    → BoxesPlain boxes
    → OneEach (fetched boxes) sim.sent_messages
    → let s = sim.stats in
      let s' = (run_pop3_integrity_check (fetched boxes) sim).stats in
      (checks_of s' ≡ checks_of s + length sim.sent_messages)
      × ((s'.pop3_missing ≡ s.pop3_missing) ↔ BoxesArrived boxes sim.sent_messages)
run_pop3_integrity_check-BoxesArrived boxes sim plain one =
    let (counted, found) =
      run_pop3_integrity_check-Delivered (fetched boxes) sim (fetched-AllFetched boxes) one in
    let same = Delivered-BoxesArrived boxes sim.sent_messages plain in
    (counted, ((λ e. same.0 (found.0 e)), (λ k. found.1 (same.1 k))))
