-- ===== src/Simulation/Setup.antt =====
-- The set-up of users and directories in simulation.py. `rmtree` and `makedirs` are taken not to
-- raise; `none` is an exception that leaves `setup_users`.
pub mod Accounts
pub mod Finished
use rdt_mail_service.Prelude.{
  ℕ, zero, suc, ◌+◌, Bool, ◌||◌, List, [], ◌∷◌, ◌++◌, Option, none, some, arith, nat_eq,
  if◌then◌else◌,
}
use rdt_mail_service.Prelude.Text.{Text, text_eq, codes, starts_with}
use rdt_mail_service.Disk.{Disk, path_eq, users_json, Faults, write_file, user_db_file}
use rdt_mail_service.Auth.User.{User}
use rdt_mail_service.Auth.UserManager.{UserManager, get_user, create_user}
use rdt_mail_service.Pop3.Numbers.{decimal}

-- The files below the mailboxes and below the temporary directory go.
unfoldable pub ensure_directories : Disk → Disk
unfolding starts_with
ensure_directories [] = []
ensure_directories (((dir, name), content) ∷ disk) =
    let rest = ensure_directories disk in
    if starts_with dir (codes "mailboxes/") || starts_with dir (codes "temp/")
    then rest
    else ((dir, name), content) ∷ rest

unfoldable pub ensure_users_json : Faults → Disk → Bool × Disk
unfolding write_file
ensure_users_json io disk = write_file io user_db_file (users_json []) disk

-- `f"user{i}"`
unfoldable pub name_of : ℕ → Text
name_of i = codes "user" ++ decimal i

abbrev pub SetUp : Type 0
SetUp = List User × UserManager × Disk

abbrev added : List User → Option (User × UserManager × Disk) → Option SetUp
added users none = none
added users (some (user, m, disk)) = some (users ++ user ∷ [], m, disk)

abbrev taken_up : Faults → Text → Option User → List User → UserManager → Disk → Option SetUp
taken_up io name (some user) users m disk = some (users ++ user ∷ [], m, disk)
taken_up io name none users m disk = added users (create_user io name (codes "password") m disk)

-- A round of the loop for the user of a number.
unfoldable pub setup_user : Faults → ℕ → SetUp → Option SetUp
unfolding get_user create_user
setup_user io i (users, m, disk) = taken_up io (name_of i) (get_user (name_of i) m) users m disk

-- The rounds for the users from a number on.
unfoldable pub setup_from : Faults → ℕ → ℕ → SetUp → Option SetUp
setup_from io zero i s = some s
setup_from io (suc n) i s = elim (setup_user io i s) [
  | none ↦ none
  | some s' ↦ setup_from io n (suc i) s'
]

unfoldable pub setup_users : Faults → ℕ → UserManager → Disk → Option SetUp
unfolding ensure_users_json ensure_directories
setup_users io num_users m disk =
    let (written, disk') = ensure_users_json io (ensure_directories disk) in
    if written then setup_from io num_users 1 ([], m, disk') else none
