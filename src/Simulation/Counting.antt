-- ===== src/Simulation/Counting.antt =====
-- How simulation.py counts the emails that it sends.
use rdt_mail_service.Prelude.{
  ℕ, zero, suc, ◌+◌, ◌*◌, ◌≡◌, refl, ap, ◌∙◌, Bool, true, false, List, [], ◌∷◌, Option, none, some,
  length, length-append, arith, nat_eq,
}
use rdt_mail_service.Auth.User.{User}
use rdt_mail_service.Simulation.{
  Stats, new_stats, record_smtp, Simulation, Chance, others, choice, send_to, recorded,
  smtp_send_task, repeat, submitted, run_tasks,
}

-- Each attempt is a success or a failure.
abbrev pub IsBalanced : Stats → Type 0
IsBalanced s = s.smtp_attempts ≡ s.smtp_success + s.smtp_failed

-- One attempt more, and still balanced.
abbrev OneMore : Stats → Stats → Type 0
OneMore s s' = (s'.smtp_attempts ≡ s.smtp_attempts + 1) × IsBalanced s'

record_smtp-OneMore : (b : Bool) (n : ℕ) (s : Stats) → IsBalanced s → OneMore s (record_smtp b n s)
unfolding record_smtp
record_smtp-OneMore true n s h = (refl, omega arith)
record_smtp-OneMore false n s h = (refl, omega arith)

recorded-OneMore : (o : Option Bool) (n : ℕ) (s : Stats) → IsBalanced s → OneMore s (recorded o n s)
recorded-OneMore none n s h = record_smtp-OneMore false 0 s h
recorded-OneMore (some ok) n s h = record_smtp-OneMore ok n s h

send_to-OneMore :
    (chance : Chance) (sender : User) (recipient : Option User) (sim : Simulation)
    → IsBalanced sim.stats
    → OneMore sim.stats (send_to chance sender recipient sim).stats
send_to-OneMore chance sender none sim h = record_smtp-OneMore false 0 sim.stats h
send_to-OneMore chance sender (some recipient) sim h = recorded-OneMore _ _ sim.stats h

run_tasks-IsBalanced :
    (tasks : List (Chance × User)) (sim : Simulation)
    → IsBalanced sim.stats
    → ((run_tasks tasks sim).stats.smtp_attempts ≡ sim.stats.smtp_attempts + length tasks)
      × IsBalanced (run_tasks tasks sim).stats
unfolding run_tasks smtp_send_task
run_tasks-IsBalanced [] sim h = (omega arith, h)
run_tasks-IsBalanced ((chance, sender) ∷ tasks) sim h =
    let (one, still) =
      send_to-OneMore chance sender (choice chance.pick (others sender sim.users)) sim h in
    let (more, balanced) = run_tasks-IsBalanced tasks (smtp_send_task chance sender sim) still in
    (more ∙ omega (arith, one), balanced)

length-repeat : (n : ℕ) (user : User) → length (repeat n user) ≡ n
length-repeat zero user = refl
length-repeat (suc n) user = ap suc (length-repeat n user)

length-submitted : (n : ℕ) (users : List User) → length (submitted n users) ≡ length users * n
unfolding submitted
length-submitted n [] = omega arith
length-submitted n (user ∷ users) =
    length-append (repeat n user) (submitted n users)
    ∙ omega (arith, length-repeat n user, length-submitted n users)

-- Whichever tasks are run, in whichever order and with whatever outcome: if they are as many as are
-- submitted and the statistics are new, the attempts are the number of users times the number of
-- emails, and each is counted as a success or as a failure.
pub run_tasks-attempts :
    (tasks : List (Chance × User)) (num_emails : ℕ) (sim : Simulation)
    → sim.stats ≡ new_stats
    → length tasks ≡ length (submitted num_emails sim.users)
    → let s = (run_tasks tasks sim).stats in
      (s.smtp_attempts ≡ length sim.users * num_emails) × IsBalanced s
run_tasks-attempts tasks num_emails sim fresh many =
    let start : IsBalanced sim.stats = rw fresh refl in
    let (count, balanced) = run_tasks-IsBalanced tasks sim start in
    (
      count
          ∙ ap (λ (s : Stats). s.smtp_attempts + length tasks) fresh
          ∙ omega (arith, many ∙ length-submitted num_emails sim.users),
      balanced,
    )
