-- ===== src/Auth/UserManager.antt =====
-- email-network-service/src/auth/user_manager.py: the accounts in memory and on disk. The lock
-- makes every method atomic, so each is a function on the state. `none` is `ValueError`.
pub mod Accounts
pub mod Restart
use rdt_mail_service.Prelude.{
  List, [], ◌∷◌, map, Option, none, some, Dict, lookup, contains, insert, if◌then◌else◌,
}
use rdt_mail_service.Prelude.Text.{Text, text_eq, lower, codes}
use rdt_mail_service.Disk.{
  Disk, FilePath, path_eq, Content, users_json, raw, metadata_json, UserRecord, FileOp, Faults,
  read_file, write_file, atomic_write, user_db_file,
}
use rdt_mail_service.Auth.User
use rdt_mail_service.Auth.User.{User, new_user, verify_password, to_dict, from_dict}

pub record UserManager : Type 0 where
  pub users : Dict Text User

abbrev keep_user : Option User → Dict Text User → Dict Text User
keep_user none users = users
keep_user (some user) users = insert user.username user users

-- The loop of `_load_users`; a record that `from_dict` refuses is skipped.
unfoldable pub load_records : List UserRecord → Dict Text User → Dict Text User
load_records [] users = users
load_records (r ∷ rest) users = load_records rest (keep_user (from_dict r) users)

-- A file that is missing, unreadable or no user database is logged and loads nothing.
abbrev load_content : Option Content → Dict Text User → Dict Text User
load_content none users = users
load_content (some (raw _)) users = users
load_content (some (metadata_json _)) users = users
load_content (some (users_json records)) users = load_records records users

unfoldable pub load_users : Faults → Disk → UserManager → UserManager
unfolding load_records read_file
load_users io disk m = record m { users = load_content (read_file io user_db_file disk) m.users }

-- `_initialize`
unfoldable pub initialize : Faults → Disk → UserManager
unfolding load_users
initialize io disk = load_users io disk (record { users = [] })

abbrev pub values : Dict Text User → List User
values [] = []
values ((k, u) ∷ users) = u ∷ values users

-- An `IOError` is logged and forgotten.
unfoldable pub save_users : Faults → UserManager → Disk → Disk
unfolding to_dict atomic_write
save_users io m disk =
    (atomic_write io user_db_file (users_json (map to_dict (values m.users))) disk).1

unfoldable pub get_user : Text → UserManager → Option User
unfolding lower text_eq
get_user username m = lookup (lower username) m.users

abbrev empty_metadata : Content
empty_metadata = metadata_json (record { messages = some [] })

-- The directory and an empty metadata.json, unless there is one. An `OSError` is logged.
unfoldable pub create_mailbox : Faults → User → Disk → Disk
create_mailbox io user disk =
    let metadata_path : FilePath = (user.mailbox_path, codes "metadata.json") in
    if io FileOp.making (user.mailbox_path, [])
    then disk
    else if contains metadata_path disk
    then disk
    else (write_file io metadata_path empty_metadata disk).1

abbrev store_user :
    Faults → Text → Option User → UserManager → Disk → Option (User × UserManager × Disk)
store_user io lower_name none m disk = none
store_user io lower_name (some user) m disk =
    let m' = record m { users = insert lower_name user m.users } in
    some (user, m', create_mailbox io user (save_users io m' disk))

unfoldable pub create_user :
    Faults → Text → Text → UserManager → Disk → Option (User × UserManager × Disk)
unfolding new_user save_users create_mailbox lower text_eq
create_user io username password m disk =
    let lower_name = lower username in
    if contains lower_name m.users
    then none
    else store_user io lower_name (new_user (some lower_name) password) m disk

abbrev verified : Text → Option User → Option User
verified password none = none
verified password (some user) = if verify_password password user then some user else none

unfoldable pub authenticate : Text → Text → UserManager → Option User
unfolding get_user verify_password
authenticate username password m = verified password (get_user username m)
