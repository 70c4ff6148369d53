-- ===== src/Simulation/Integrity.antt =====
-- What the check of the mailboxes in simulation.py counts.
use rdt_mail_service.Prelude.{
  ℕ, ◌+◌, ◌≤◌, ◌≡◌, refl, sym, ◌∙◌, ◌↔◌, Bool, true, false, List, [], ◌∷◌, map, Option, none, some,
  length, arith, nat_eq, if◌then◌else◌,
}
use rdt_mail_service.Prelude.Text.{Text}
use rdt_mail_service.Auth.User.{User}
use rdt_mail_service.Simulation.{
  Stats, record_pop3, Message, Simulation, extract_subject, is_received, is_for, check_messages,
  verify_user_mailbox, run_pop3_integrity_check,
}

-- The messages that are for a user.
abbrev pub count_for : User → List Message → ℕ
count_for user [] = 0
count_for user (m ∷ messages) = (if is_for user m then 1 else 0) + count_for user messages

abbrev subject_of_message : Message → Text
subject_of_message (sender, recipient, subject, body) = subject

-- Of every message that is for the user, the subject is received.
abbrev pub AllReceived : List (Option Text) → User → List Message → Type 0
AllReceived received user [] = Unit
AllReceived received user (m ∷ messages) =
    (is_for user m ≡ true → is_received (subject_of_message m) received ≡ true)
    × AllReceived received user messages

abbrev pub checks_of : Stats → ℕ
checks_of s = s.pop3_verified + s.pop3_missing

-- A check counts each message that is for the user once, as verified or as missing; and nothing is
-- counted as missing exactly if the subject of each is received.
abbrev pub Checked : List (Option Text) → User → List Message → Stats → Stats → Type 0
Checked received user messages s s' =
    (checks_of s' ≡ checks_of s + count_for user messages)
    × (s.pop3_missing ≤ s'.pop3_missing)
    × ((s'.pop3_missing ≡ s.pop3_missing) ↔ AllReceived received user messages)

-- What one message adds.
checked_step :
    (b1 b2 : Bool) (k : ℕ) (A : Type 0) (s s' : Stats)
    → let s1 = if b1 then record_pop3 b2 s else s in
      (checks_of s' ≡ checks_of s1 + k)
        × (s1.pop3_missing ≤ s'.pop3_missing)
        × ((s'.pop3_missing ≡ s1.pop3_missing) ↔ A)
      → (checks_of s' ≡ checks_of s + ((if b1 then 1 else 0) + k))
        × (s.pop3_missing ≤ s'.pop3_missing)
        × ((s'.pop3_missing ≡ s.pop3_missing) ↔ ((b1 ≡ true → b2 ≡ true) × A))
unfolding record_pop3
checked_step false b2 k A s s' (n, l, f) =
    (omega arith, l, ((λ h. ((λ e. cc), f.0 h)), (λ h. f.1 h.1)))
checked_step true true k A s s' (n, l, f) =
    (omega arith, l, ((λ h. ((λ e. refl), f.0 h)), (λ h. f.1 h.1)))
checked_step true false k A s s' (n, l, f) =
    (omega arith, omega arith, ((λ h. absurd (omega arith)), (λ h. cc (h.0 refl))))

pub check_messages-Checked :
    (received : List (Option Text)) (user : User) (messages : List Message) (s : Stats)
    → Checked received user messages s (check_messages received user messages s)
unfolding check_messages
check_messages-Checked received user [] s = (omega arith, omega arith, ((λ h. tt), (λ h. refl)))
check_messages-Checked received user ((sender, recipient, subject, body) ∷ messages) s =
    let b1 : Bool = is_for user (sender, recipient, subject, body) in
    let b2 : Bool = is_received subject received in
    let s1 : Stats = if b1 then record_pop3 b2 s else s in
    checked_step b1 b2 (count_for user messages) (AllReceived received user messages) s
      (check_messages received user messages s1) (check_messages-Checked received user messages s1)

-- The users of the checks whose mailbox is fetched.
abbrev pub AllFetched : List (Option (List Text) × User) → Type 0
AllFetched [] = Unit
AllFetched ((none, user) ∷ checks) = ⊥
AllFetched ((some raw_messages, user) ∷ checks) = AllFetched checks

-- How many of the checked users a message is for.
abbrev pub matches : List (Option (List Text) × User) → Message → ℕ
matches [] m = 0
matches ((fetched, user) ∷ checks) m = (if is_for user m then 1 else 0) + matches checks m

-- Every message is for just one of the checked users.
abbrev pub OneEach : List (Option (List Text) × User) → List Message → Type 0
OneEach checks [] = Unit
OneEach checks (m ∷ messages) = (matches checks m ≡ 1) × OneEach checks messages

-- Every message is received by the user that it is for.
abbrev pub Delivered : List (Option (List Text) × User) → List Message → Type 0
Delivered [] messages = Unit
Delivered ((none, user) ∷ checks) messages = ⊥
Delivered ((some raw_messages, user) ∷ checks) messages =
    AllReceived (map extract_subject raw_messages) user messages × Delivered checks messages

abbrev total_for : List (Option (List Text) × User) → List Message → ℕ
total_for [] messages = 0
total_for ((fetched, user) ∷ checks) messages = count_for user messages + total_for checks messages

total_for-nil : (checks : List (Option (List Text) × User)) → total_for checks [] ≡ 0
total_for-nil [] = refl
total_for-nil ((fetched, user) ∷ checks) = omega (arith, total_for-nil checks)

total_for-cons :
    (checks : List (Option (List Text) × User)) (m : Message) (messages : List Message)
    → total_for checks (m ∷ messages) ≡ matches checks m + total_for checks messages
total_for-cons [] m messages = omega arith
total_for-cons ((fetched, user) ∷ checks) m messages =
    omega (arith, total_for-cons checks m messages)

total_for-OneEach :
    (checks : List (Option (List Text) × User)) (messages : List Message)
    → OneEach checks messages
    → total_for checks messages ≡ length messages
total_for-OneEach checks [] h = total_for-nil checks
total_for-OneEach checks (m ∷ messages) (h, k) =
    total_for-cons checks m messages ∙ omega (arith, h, total_for-OneEach checks messages k)

integrity :
    (checks : List (Option (List Text) × User)) (sim : Simulation)
    → AllFetched checks
    → let sim' = run_pop3_integrity_check checks sim in
      (sim'.sent_messages ≡ sim.sent_messages)
      × (checks_of sim'.stats ≡ checks_of sim.stats + total_for checks sim.sent_messages)
      × (sim.stats.pop3_missing ≤ sim'.stats.pop3_missing)
      × ((sim'.stats.pop3_missing ≡ sim.stats.pop3_missing) ↔ Delivered checks sim.sent_messages)
unfolding run_pop3_integrity_check verify_user_mailbox
integrity [] sim h = (refl, omega arith, omega arith, ((λ h. tt), (λ h. refl)))
integrity ((none, user) ∷ checks) sim h = absurd h
integrity ((some raw_messages, user) ∷ checks) sim h =
    let received : List (Option Text) = map extract_subject raw_messages in
    let messages : List Message = sim.sent_messages in
    let s1 : Stats = check_messages received user messages sim.stats in
    let (c1, l1, f1) = check_messages-Checked received user messages sim.stats in
    let (sent, c2, l2, f2) =
      integrity checks (verify_user_mailbox (some raw_messages) user sim) h in
    (
      sent,
      omega (arith, c1, c2),
      omega (arith, l1, l2),
      (
        (λ e.
            let here : s1.pop3_missing ≡ sim.stats.pop3_missing = omega (arith, e, l1, l2) in
            (f1.0 here, f2.0 (e ∙ sym here))),
        (λ d. f2.1 d.1 ∙ f1.1 d.0),
      ),
    )

-- The mailboxes of all users are fetched, and each sent message is for just one of them. Then the
-- check counts every message once, as verified or as missing; and it finds none missing exactly if
-- the subject of every message is among those that its recipient received.
pub run_pop3_integrity_check-Delivered :
    (checks : List (Option (List Text) × User)) (sim : Simulation)
    → AllFetched checks
    → OneEach checks sim.sent_messages
    → let s = sim.stats in
      let s' = (run_pop3_integrity_check checks sim).stats in
      (checks_of s' ≡ checks_of s + length sim.sent_messages)
      × ((s'.pop3_missing ≡ s.pop3_missing) ↔ Delivered checks sim.sent_messages)
run_pop3_integrity_check-Delivered checks sim h one =
    let (sent, c, l, f) = integrity checks sim h in
    (omega (arith, c, total_for-OneEach checks sim.sent_messages one), f)
