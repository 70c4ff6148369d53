-- ===== src/Simulation.antt =====
-- email-network-service/src/simulation.py: the statistics, the tasks that send emails, and the
-- check of the mailboxes. What the pool's threads do is a sequence of tasks, in any order.
pub mod Counting
pub mod Integrity
pub mod Received
pub mod Subjects
pub mod Setup
mod Tests
use rdt_mail_service.Prelude.{
  ℕ, zero, suc, ◌+◌, ◌%◌, Bool, false, ◌&&◌, ◌||◌, List, [], ◌∷◌, ◌++◌, map, Option, none, some,
  leb, ◌==◌, nat_eq, length, drop, get_elem?, if◌then◌else◌,
}
use rdt_mail_service.Prelude.Text.{Text, text_eq, codes, lower, strip, starts_with, cr, lf}
use rdt_mail_service.Auth.User.{User}
use rdt_mail_service.Pop3.Numbers.{decimal}
use rdt_mail_service.Smtp.Streams.{local_part}

pub record Stats : Type 0 where
  pub smtp_attempts : ℕ
  pub smtp_success : ℕ
  pub smtp_failed : ℕ
  pub bytes_sent : ℕ
  pub pop3_verified : ℕ
  pub pop3_missing : ℕ

abbrev pub new_stats : Stats
new_stats = record {
  smtp_attempts = 0;
  smtp_success = 0;
  smtp_failed = 0;
  bytes_sent = 0;
  pop3_verified = 0;
  pop3_missing = 0;
}

-- The lock makes both methods atomic.
unfoldable pub record_smtp : Bool → ℕ → Stats → Stats
record_smtp success payload_size s =
    if success
    then record s {
      smtp_attempts = s.smtp_attempts + 1;
      smtp_success = s.smtp_success + 1;
      bytes_sent = s.bytes_sent + payload_size;
    }
    else record s { smtp_attempts = s.smtp_attempts + 1; smtp_failed = s.smtp_failed + 1 }

unfoldable pub record_pop3 : Bool → Stats → Stats
record_pop3 verified s =
    if verified
    then record s { pop3_verified = s.pop3_verified + 1 }
    else record s { pop3_missing = s.pop3_missing + 1 }

-- `(sender_email, recipient_email, subject, body)`
abbrev pub Message : Type 0
Message = Text × Text × Text × Text

pub record Simulation : Type 0 where
  pub users : List User
  pub stats : Stats
  pub sent_messages : List Message

-- What a task takes from outside: the number that `random.choice` takes modulo the length, the
-- number of `randint`, the clock, and what `SMTPClient().send_email` answers, `none` if it raises.
pub record Chance : Type 0 where
  pub pick : ℕ
  pub number : ℕ
  pub stamp : Text
  pub send_email : Text → Text → Text → Text → Option Bool

-- `[u for u in self.users if u.username != sender_user.username]`
unfoldable pub others : User → List User → List User
others sender [] = []
others sender (u ∷ us) =
    let rest = others sender us in if u.username == sender.username then rest else u ∷ rest

-- `random.choice`; `none` is the `IndexError` of an empty list.
abbrev pub choice : ℕ → List User → Option User
choice pick us = get_elem? us (pick % length us)

abbrev pub email_address : User → Text
email_address u = u.username ++ codes "@localhost"

abbrev pub subject_of : User → ℕ → Text
subject_of sender number = codes "[Sim] From " ++ sender.username ++ codes " " ++ decimal number

abbrev pub body_of : User → Text → Text
body_of recipient stamp =
    codes "Hello "
    ++ recipient.username
    ++ codes ","
    ++ lf ∷ codes "This is a concurrency test message."
    ++ lf ∷ codes "Timestamp: "
    ++ stamp
    ++ lf ∷ []

-- A call that raises counts as a failure of no bytes.
abbrev recorded : Option Bool → ℕ → Stats → Stats
recorded none payload_size s = record_smtp false 0 s
recorded (some ok) payload_size s = record_smtp ok payload_size s

abbrev pub send_to : Chance → User → Option User → Simulation → Simulation
send_to chance sender none sim = record sim { stats = record_smtp false 0 sim.stats }
send_to chance sender (some recipient) sim =
    let subject = subject_of sender chance.number in
    let body = body_of recipient chance.stamp in
    let sender_email = email_address sender in
    let recipient_email = email_address recipient in
    record sim {
      sent_messages = sim.sent_messages ++ (sender_email, recipient_email, subject, body) ∷ [];
      stats =
          recorded (chance.send_email sender_email recipient_email subject body)
            (length body + length subject) sim.stats;
    }

unfoldable pub smtp_send_task : Chance → User → Simulation → Simulation
smtp_send_task chance sender sim =
    send_to chance sender (choice chance.pick (others sender sim.users)) sim

-- `for i in range(self.num_emails)`
abbrev repeat : ℕ → User → List User
repeat zero user = []
repeat (suc n) user = user ∷ repeat n user

-- The senders of the tasks that are submitted.
unfoldable pub submitted : ℕ → List User → List User
submitted num_emails [] = []
submitted num_emails (user ∷ users) = repeat num_emails user ++ submitted num_emails users

-- The tasks that are run, in any order.
unfoldable pub run_tasks : List (Chance × User) → Simulation → Simulation
run_tasks [] sim = sim
run_tasks ((chance, sender) ∷ tasks) sim = run_tasks tasks (smtp_send_task chance sender sim)

-- A character at which `splitlines` ends a line.
unfoldable pub is_break : ℕ → Bool
is_break c = (leb 10 c && leb c 13) || (leb 28 c && leb c 30)

-- What is left is a line, unless it is empty.
abbrev pub last_line : Text → List Text
last_line [] = []
last_line (c ∷ line) = (c ∷ line) ∷ []

-- `s.splitlines()`; CR LF is one end.
unfoldable pub splitlines : Text → Text → List Text
splitlines line [] = last_line line
splitlines line (c ∷ []) = if is_break c then line ∷ [] else (line ++ c ∷ []) ∷ []
splitlines line (c ∷ d ∷ s) =
    let longer = splitlines (line ++ c ∷ []) (d ∷ s) in
    let next = splitlines [] (d ∷ s) in
    let past = splitlines [] s in
    if (c == cr) && (d == lf) then line ∷ past else if is_break c then line ∷ next else longer

-- The loop over the lines: its first round returns. `none` is the None of a text without lines.
unfoldable pub subject_in : List Text → Option Text
subject_in [] = none
subject_in (line ∷ lines) =
    if starts_with (lower line) (codes "subject:") then some (strip (drop 8 line)) else some []

unfoldable pub extract_subject : Text → Option Text
extract_subject raw_text = subject_in (splitlines [] raw_text)

-- `subject in received_subjects`
unfoldable pub is_received : Text → List (Option Text) → Bool
is_received subject [] = false
is_received subject (none ∷ received) = is_received subject received
is_received subject (some s ∷ received) = (s == subject) || is_received subject received

-- `recipient.split("@")[0].lower() == user.username.lower()`
unfoldable pub is_for : User → Message → Bool
is_for user (sender, recipient, subject, body) = lower (local_part recipient) == lower user.username

unfoldable pub check_messages : List (Option Text) → User → List Message → Stats → Stats
check_messages received user [] s = s
check_messages received user ((sender, recipient, subject, body) ∷ messages) s =
    check_messages received user messages (
      if is_for user (sender, recipient, subject, body)
      then record_pop3 (is_received subject received) s
      else s)

-- By what `get_all_messages` gives, `none` if it raises.
abbrev pub checked : Option (List Text) → User → List Message → Stats → Stats
checked none user messages s = record_pop3 false s
checked (some raw_messages) user messages s =
    check_messages (map extract_subject raw_messages) user messages s

unfoldable pub verify_user_mailbox : Option (List Text) → User → Simulation → Simulation
verify_user_mailbox fetched user sim = record sim {
  stats = checked fetched user sim.sent_messages sim.stats;
}

-- All users, in any order, each with what is fetched.
unfoldable pub run_pop3_integrity_check : List (Option (List Text) × User) → Simulation → Simulation
run_pop3_integrity_check [] sim = sim
run_pop3_integrity_check ((fetched, user) ∷ checks) sim =
    run_pop3_integrity_check checks (verify_user_mailbox fetched user sim)
