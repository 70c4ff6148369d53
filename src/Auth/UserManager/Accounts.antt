-- ===== src/Auth/UserManager/Accounts.antt =====
-- Creating an account and logging in, in user_manager.py.
use rdt_mail_service.Prelude.{
  ◌≡◌, refl, ◌↔◌, inl, inr, true, false, ◌||◌, none, some, arith, ◌==◌, contains, insert,
  lookup-insert, Bool-cases, if◌then◌else◌,
}
use rdt_mail_service.Prelude.Text.{Text, text_eq, lower, lower_idem}
use rdt_mail_service.Disk.{Disk, Faults, mailbox_dir}
use rdt_mail_service.Auth.User.{User, new_user, is_blank, verify_password}
use rdt_mail_service.Auth.UserManager.{
  UserManager, get_user, save_users, create_mailbox, create_user, authenticate,
}

-- The account that is made.
abbrev pub account : Text → Text → User
account username password = record {
  username = lower username;
  password = password;
  mailbox_path = mailbox_dir (lower username);
}

pub new_user-lower :
    (username password : Text)
    → new_user (some (lower username)) password
      ≡ (if is_blank (lower username) then none else some (account username password))
unfolding new_user
new_user-lower username password = rw (lower_idem username) refl

pub create_user_lem :
    (io : Faults) (username password : Text) (m : UserManager) (disk : Disk)
    → create_user io username password m disk ≡ (
        if contains (lower username) m.users || is_blank (lower username)
        then none
        else (let m' = record m {
          users = insert (lower username) (account username password) m.users;
        } in
            some (
              account username password,
              m',
              create_mailbox io (account username password) (save_users io m' disk),
            )))
unfolding create_user
create_user_lem io username password m disk =
    elim (Bool-cases (contains (lower username) m.users)) [
      | inl taken ↦ rw taken
      | inr free ↦ rw (free, new_user-lower username password) (ground arith)
    ]

-- `create_user` raises exactly if the name is blank or, in any case, taken.
pub create_user-eq-none :
    (io : Faults) (username password : Text) (m : UserManager) (disk : Disk)
    → (create_user io username password m disk ≡ none)
      ↔ ((contains (lower username) m.users || is_blank (lower username)) ≡ true)
create_user-eq-none io username password m disk =
    rw (create_user_lem io username password m disk) (ground arith)

-- What a successful `create_user` has made.
pub record Created (io : Faults) (username password : Text) (m : UserManager) (disk : Disk)
    (user : User) (m' : UserManager) (disk' : Disk) : Type 0 where
  pub user_made : user ≡ account username password
  pub stored : m'.users ≡ insert (lower username) (account username password) m.users
  pub written : disk' ≡ create_mailbox io (account username password) (save_users io m' disk)
  pub free : contains (lower username) m.users ≡ false
  pub named : is_blank (lower username) ≡ false

pub create_user-Created :
    (io : Faults) (username password : Text) (m : UserManager) (disk : Disk) {user : User}
    {m' : UserManager} {disk' : Disk}
    → create_user io username password m disk ≡ some (user, m', disk')
    → Created io username password m disk user m' disk'
create_user-Created io username password m disk e =
    ground (arith, create_user_lem io username password m disk)

-- After an account is made, the name in any case and its password log it in, another password
-- does not, and the log-in of every other name is what it was.
pub authenticate-create_user :
    (io : Faults) (username password name attempt : Text) (m m' : UserManager) (disk disk' : Disk)
    (user : User)
    → create_user io username password m disk ≡ some (user, m', disk')
    → authenticate name attempt m' ≡ (
        if lower username == lower name
        then (if password == attempt then some user else none)
        else authenticate name attempt m)
unfolding authenticate get_user verify_password
authenticate-create_user io username password name attempt m m' disk disk' user e =
    let c = create_user-Created io username password m disk e in
    ground (
      arith,
      c.stored,
      c.user_made,
      lookup-insert (lower username) (lower name) (account username password) m.users,
    )
