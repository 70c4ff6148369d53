-- ===== src/Simulation/Setup/Finished.antt =====
-- What `setup_users` of simulation.py gives, and what it leaves on disk.
use rdt_mail_service.Prelude.{
  lookup-inserted, ◌≤◌, ◌<◌, length-append, lt_or_le, ℕ, zero, suc, ◌+◌, ◌≡◌, refl, ◌∙◌, inl, inr,
  false, List, [], ◌∷◌, ◌++◌, some, length, lookup, insert, arith, nat_eq,
}
use rdt_mail_service.Prelude.Text.{Text, text_eq, codes}
use rdt_mail_service.Disk.{Disk, path_eq, users_json, FileOp, Faults, write_file, user_db_file}
use rdt_mail_service.Auth.User.{User, verify_password}
use rdt_mail_service.Auth.UserManager.{
  UserManager, get_user, initialize, load_records, authenticate,
}
use rdt_mail_service.Simulation.Setup.{
  SetUp, ensure_directories, ensure_users_json, name_of, setup_user, setup_from, setup_users,
}
use rdt_mail_service.Auth.UserManager.Restart.{initialize-lookup}
use rdt_mail_service.Simulation.Setup.Accounts.{SamePassword, already_there, setup_user-Taken}

-- The users of the numbers from `i` on are set up.
abbrev AllLogIn : ℕ → ℕ → UserManager → Type 0
AllLogIn n i m =
    (j : ℕ)
    → i ≤ j
    → j < i + n
    → (u : User) × (authenticate (name_of j) (codes "password") m ≡ some u)

record Ready (io : Faults) (n i : ℕ) (users : List User) (m : UserManager) (disk : Disk)
    : Type 0 where
  users_after : List User
  manager : UserManager
  disk_after : Disk
  runs : setup_from io n i (users, m, disk) ≡ some (users_after, manager, disk_after)
  counted : length users_after ≡ length users + n
  kept : (name : Text) (u : User) → get_user name m ≡ some u → get_user name manager ≡ some u
  secret : SamePassword manager
  ready : AllLogIn n i manager

logs_in :
    (name : Text) (u : User) (m : UserManager)
    → SamePassword m
    → get_user name m ≡ some u
    → authenticate name (codes "password") m ≡ some u
unfolding authenticate verify_password
logs_in name u m p h = rw (h, p name u h) refl

next_round :
    (io : Faults) (n i : ℕ) (s s' : SetUp)
    → setup_user io i s ≡ some s'
    → setup_from io (suc n) i s ≡ setup_from io n (suc i) s'
unfolding setup_from
next_round io n i s s' h = rw (setup_from, h) refl

setup_from-Ready :
    (io : Faults) (n i : ℕ) (users : List User) (m : UserManager) (disk : Disk)
    → SamePassword m
    → Ready io n i users m disk
setup_from-Ready io zero i users m disk p = record {
  users_after = users;
  manager = m;
  disk_after = disk;
  runs = unfold setup_from in refl;
  counted = omega arith;
  kept = λ name u h. h;
  secret = p;
  ready = λ j low high. absurd (omega arith);
}
setup_from-Ready io (suc n) i users m disk p =
    let t = setup_user-Taken io i users m disk p in
    let r = setup_from-Ready io n (suc i) (users ++ t.user ∷ []) t.manager t.disk_after t.secret in
    record {
      users_after = r.users_after;
      manager = r.manager;
      disk_after = r.disk_after;
      runs = next_round io n i _ _ t.runs ∙ r.runs;
      counted = omega (arith, r.counted, length-append users (t.user ∷ []));
      kept = λ name u h. r.kept name u (t.kept name u h);
      secret = r.secret;
      ready = λ j low high. elim (lt_or_le j (suc i)) [
        | inl l ↦
            (let e : j ≡ i = omega arith in
              (
                t.user,
                rw e (
                    logs_in (name_of i) t.user r.manager r.secret
                      (r.kept (name_of i) t.user t.found)),
              ))
        | inr l ↦ r.ready j l (omega arith)
      ];
    }

-- The file of the users can be written, and every account that is there already has the password
-- "password". Then `setup_users` raises nothing, takes up as many users as it is asked for, keeps
-- the accounts that are there, and each user from "user1" on can log in with that password.
pub setup_users-logs_in :
    (io : Faults) (num_users : ℕ) (m : UserManager) (disk : Disk)
    → io FileOp.writing user_db_file ≡ false
    → SamePassword m
    → (users : List User) × (m' : UserManager) × (disk' : Disk) × (setup_users io num_users m disk
        ≡ some (users, m', disk'))
      × (length users ≡ num_users)
      × ((name : Text) (u : User) → get_user name m ≡ some u → get_user name m' ≡ some u)
      × ((i : ℕ)
          → 1 ≤ i
          → i ≤ num_users
          → (u : User) × (authenticate (name_of i) (codes "password") m' ≡ some u))
unfolding setup_users ensure_users_json write_file
setup_users-logs_in io num_users m disk w p =
    let emptied = insert user_db_file (users_json []) (ensure_directories disk) in
    let r = setup_from-Ready io num_users 1 [] m emptied p in
    (
      r.users_after,
      r.manager,
      r.disk_after,
      rw w r.runs,
      r.counted ∙ omega arith,
      r.kept,
      λ i low high. r.ready i low (omega arith),
    )

-- The loop, where all users of the simulation are there already.
setup_known :
    (io : Faults) (n i : ℕ) (users : List User) (m : UserManager) (disk : Disk)
    → ((j : ℕ) → i ≤ j → j < i + n → (u : User) × (get_user (name_of j) m ≡ some u))
    → (users' : List User) × (setup_from io n i (users, m, disk) ≡ some (users', m, disk))
unfolding setup_from
setup_known io zero i users m disk h = (users, refl)
setup_known io (suc n) i users m disk h =
    let (u, e) = h i (omega arith) (omega arith) in
    let (users', g) =
      setup_known io n (suc i) (users ++ u ∷ []) m disk
        (λ j low high. h j (omega arith) (omega arith)) in
    (users', next_round io n i _ _ (already_there io i users m disk u e) ∙ g)

-- The file of the users can be written and read, and the accounts of all users of the simulation
-- are there already. Then `setup_users` takes them up and raises nothing, but leaves an empty
-- users.json: after a restart there is no account.
pub setup_users_forgets :
    (io : Faults) (num_users : ℕ) (m : UserManager) (disk : Disk)
    → io FileOp.writing user_db_file ≡ false
    → io FileOp.reading user_db_file ≡ false
    → ((i : ℕ) → 1 ≤ i → i ≤ num_users → (u : User) × (get_user (name_of i) m ≡ some u))
    → (users : List User) × (disk' : Disk) × (setup_users io num_users m disk
        ≡ some (users, m, disk'))
      × ((initialize io disk').users ≡ [])
unfolding setup_users ensure_users_json write_file
setup_users_forgets io num_users m disk w r h =
    let emptied = insert user_db_file (users_json []) (ensure_directories disk) in
    let (users', e) =
      setup_known io num_users 1 [] m emptied (λ j low high. h j low (omega arith)) in
    let there : lookup user_db_file emptied ≡ some (users_json []) =
      lookup-inserted user_db_file (users_json []) (ensure_directories disk) in
    (
      users',
      emptied,
      rw w e,
      initialize-lookup io emptied [] r there ∙ (unfold load_records in refl),
    )
