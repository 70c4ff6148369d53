-- ===== src/Simulation/Tests.antt =====
-- The theorems on the simulation at concrete users and messages.
use rdt_mail_service.Prelude.{◌+◌, ◌≡◌, ◌↔◌, refl, List, [], ◌∷◌}
use rdt_mail_service.Prelude.Text.{
  Text, text_eq, codes, cr, lf, strip, lstrip, rstrip, is_space, lower, lower_code,
}
use rdt_mail_service.Auth.User.{User}
use rdt_mail_service.Smtp.Streams.{local_part}
use rdt_mail_service.Simulation.{new_stats, Message, Simulation, is_for, run_pop3_integrity_check}
use rdt_mail_service.Simulation.{is_break}
use rdt_mail_service.Simulation.Integrity.{OneEach, checks_of}
use rdt_mail_service.Simulation.Received.{
  Arrived, fetched, BoxesPlain, BoxesArrived, run_pop3_integrity_check-BoxesArrived,
}

abbrev user : Text → User
user name = record { username = name; password = codes "password"; mailbox_path = name }

abbrev message : Message
message = (codes "user1@localhost", codes "user2@localhost", codes "[Sim] 1", codes "x")

abbrev sim : List Message → Simulation
sim messages = record {
  users = user (codes "user1") ∷ user (codes "user2") ∷ [];
  stats = new_stats;
  sent_messages = messages;
}

abbrev boxes : List (List Arrived × User)
boxes =
    ([], user (codes "user1"))
    ∷ ((codes "[Sim] 1", cr, lf ∷ cr ∷ lf ∷ codes "x") ∷ [], user (codes "user2"))
    ∷ []

boxes-BoxesPlain : BoxesPlain boxes
unfolding is_break strip lstrip rstrip is_space
boxes-BoxesPlain = (tt, ((refl, refl, refl, tt), tt))

one_each : OneEach (fetched boxes) (message ∷ [])
unfolding is_for local_part lower lower_code text_eq
one_each = (refl, tt)

run_pop3_integrity_check-BoxesArrived_example :
    let s' = (run_pop3_integrity_check (fetched boxes) (sim (message ∷ []))).stats in
    (checks_of s' ≡ checks_of new_stats + 1)
    × ((s'.pop3_missing ≡ 0) ↔ BoxesArrived boxes (message ∷ []))
run_pop3_integrity_check-BoxesArrived_example =
    run_pop3_integrity_check-BoxesArrived boxes (sim (message ∷ [])) boxes-BoxesPlain one_each
