-- ===== src/Simulation/Setup/Accounts.antt =====
-- Which accounts are there after `setup_users` of simulation.py.
use rdt_mail_service.Prelude.{
  ℕ, ◌≡◌, refl, sym, ap, ◌∙◌, inl, inr, false, List, [], ◌∷◌, ◌++◌, none, some, lookup, contains,
  insert, lookup-insert, contains-lookup, Option-cases, Bool-cases, beq_refl, nat_eq, ◌==◌,
  if◌then◌else◌,
}
use rdt_mail_service.Prelude.Text.{
  Text, text_eq, codes, is_empty, lower, lower_code, strip, lstrip, rstrip, is_space,
}
use rdt_mail_service.Disk.{Disk, path_eq, Faults}
use rdt_mail_service.Auth.User.{User, is_blank}
use rdt_mail_service.Auth.UserManager.{
  UserManager, get_user, create_user, create_mailbox, save_users,
}
use rdt_mail_service.Auth.UserManager.Accounts.{account, create_user_lem}
use rdt_mail_service.Simulation.Setup.{name_of, added, setup_user}

-- Every account has the password that the simulation gives.
abbrev pub SamePassword : UserManager → Type 0
SamePassword m = (name : Text) (u : User) → get_user name m ≡ some u → u.password ≡ codes "password"

rstrip_kept :
    (c : ℕ) (r : Text)
    → is_space c ≡ false
    → is_empty (elim r [ [] ↦ if is_space c then [] else c ∷ [] | x ∷ s ↦ c ∷ x ∷ s ]) ≡ false
rstrip_kept c [] h = rw h refl
rstrip_kept c (x ∷ s) h = refl

name_of-named : (i : ℕ) → is_blank (lower (name_of i)) ≡ false
unfolding is_blank strip lstrip rstrip lower lower_code name_of
name_of-named i = rstrip_kept b'u' _ (unfold is_space in refl)

-- What a round of the loop does, whether the account is there or not.
pub record Taken (io : Faults) (i : ℕ) (users : List User) (m : UserManager) (disk : Disk)
    : Type 0 where
  pub user : User
  pub manager : UserManager
  pub disk_after : Disk
  pub runs : setup_user io i (users, m, disk) ≡ some (users ++ user ∷ [], manager, disk_after)
  pub found : get_user (name_of i) manager ≡ some user
  pub kept : (name : Text) (u : User) → get_user name m ≡ some u → get_user name manager ≡ some u
  pub secret : SamePassword manager

pub already_there :
    (io : Faults) (i : ℕ) (users : List User) (m : UserManager) (disk : Disk) (u : User)
    → get_user (name_of i) m ≡ some u
    → setup_user io i (users, m, disk) ≡ some (users ++ u ∷ [], m, disk)
unfolding setup_user
already_there io i users m disk u h = rw h refl

-- An account that is made is found under its name, and all others as before.
get_user-insert :
    (made name : Text) (u : User) (m : UserManager)
    → get_user name (record m { users = insert (lower made) u m.users })
      ≡ (if lower made == lower name then some u else get_user name m)
unfolding get_user
get_user-insert made name u m = lookup-insert (lower made) (lower name) u m.users

not_taken :
    (name : Text) (m : UserManager) → get_user name m ≡ none → contains (lower name) m.users ≡ false
unfolding get_user
not_taken name m h = contains-lookup (lower name) m.users ∙ rw h refl

none_found :
    (made name : Text) (m : UserManager) (u : User)
    → get_user made m ≡ none
    → get_user name m ≡ some u
    → lower made ≡ lower name
    → ⊥
unfolding get_user
none_found made name m u a h e = cc (ap (λ (k : Text). lookup k m.users) e)

module _ (io : Faults) (i : ℕ) (users : List User) (m : UserManager) (disk : Disk)
    (absent : get_user (name_of i) m ≡ none) where
  abbrev new : User
  new = account (name_of i) (codes "password")

  abbrev with_new : UserManager
  with_new = record m { users = insert (lower (name_of i)) new m.users }

  abbrev new_disk : Disk
  new_disk = create_mailbox io new (save_users io with_new disk)

  created : create_user io (name_of i) (codes "password") m disk ≡ some (new, with_new, new_disk)
  created =
      create_user_lem io (name_of i) (codes "password") m disk
      ∙ rw (not_taken (name_of i) m absent, name_of-named i) refl

  made_new : setup_user io i (users, m, disk) ≡ some (users ++ new ∷ [], with_new, new_disk)
  unfolding setup_user
  made_new = rw absent (ap (added users) created)

  new_kept : (name : Text) (u : User) → get_user name m ≡ some u → get_user name with_new ≡ some u
  new_kept name u h =
      rw (get_user-insert (name_of i) name new m)
        (elim (Bool-cases (lower (name_of i) == lower name)) [
          | inl y ↦ absurd (none_found (name_of i) name m u absent h ((text_eq.beq_iff _ _).0 y))
          | inr f ↦ rw f h
        ])

  new_secret : SamePassword m → SamePassword with_new
  new_secret p name u h =
      let g = sym (get_user-insert (name_of i) name new m) ∙ h in
      elim (Bool-cases (lower (name_of i) == lower name)) [
        | inl y ↦ (let same : new ≡ u = cc (rw y at g) in rw (sym same) refl)
        | inr f ↦ p name u (rw f at g)
      ]

  new-Taken : SamePassword m → Taken io i users m disk
  new-Taken p = record {
    user = new;
    manager = with_new;
    disk_after = new_disk;
    runs = made_new;
    found =
        get_user-insert (name_of i) (name_of i) new m
        ∙ rw (beq_refl {A = Text} (lower (name_of i))) refl;
    kept = new_kept;
    secret = new_secret p;
  }

pub setup_user-Taken :
    (io : Faults) (i : ℕ) (users : List User) (m : UserManager) (disk : Disk)
    → SamePassword m
    → Taken io i users m disk
setup_user-Taken io i users m disk p = elim (Option-cases (get_user (name_of i) m)) [
  | inl a ↦ new-Taken io i users m disk a p
  | inr (u, h) ↦ record {
    user = u;
    manager = m;
    disk_after = disk;
    runs = already_there io i users m disk u h;
    found = h;
    kept = λ name v g. g;
    secret = p;
  }
]
