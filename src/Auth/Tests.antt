-- ===== src/Auth/Tests.antt =====
-- The theorems on accounts at concrete accounts.
use rdt_mail_service.Prelude.{
  ◌≡◌, refl, true, false, [], ◌∷◌, none, some, ◌==◌, lookup, contains, insert, erase, if◌then◌else◌,
}
use rdt_mail_service.Prelude.Text.{Text, text_eq, codes, lower, lower_code}
use rdt_mail_service.Disk.{
  Disk, path_eq, users_json, metadata_json, Faults, user_db_file, mailbox_dir, tmp_of, write_file,
  replace_file, atomic_write,
}
use rdt_mail_service.Auth.User.{is_blank, new_user, to_dict}
use rdt_mail_service.Auth.UserManager.{
  UserManager, initialize, create_user, authenticate, save_users, create_mailbox,
}
use rdt_mail_service.Auth.UserManager.Accounts.{account, authenticate-create_user}
use rdt_mail_service.Auth.UserManager.Restart.{Restorable, Fresh, create_user_survives}

abbrev no_faults : Faults
no_faults op path = false

abbrev no_users : UserManager
no_users = record { users = [] }

abbrev one_user : Text → UserManager
one_user password = record { users = (codes "bob", account (codes "Bob") password) ∷ [] }

abbrev one_disk : Text → Disk
one_disk password =
    (
      user_db_file,
      users_json (record { username = some (codes "bob"); password = some password } ∷ []),
    )
    ∷ (
      (mailbox_dir (codes "bob"), codes "metadata.json"),
      metadata_json (record { messages = some [] }),
    )
    ∷ []

made :
    create_user no_faults (codes "Bob") (codes "pw") no_users []
    ≡ some (account (codes "Bob") (codes "pw"), one_user (codes "pw"), one_disk (codes "pw"))
unfolding create_user save_users create_mailbox new_user is_blank to_dict mailbox_dir atomic_write
    write_file replace_file tmp_of lookup contains insert erase text_eq path_eq lower lower_code
made = refl

made_blank :
    create_user no_faults (codes "Bob") [] no_users []
    ≡ some (account (codes "Bob") [], one_user [], one_disk [])
unfolding create_user save_users create_mailbox new_user is_blank to_dict mailbox_dir atomic_write
    write_file replace_file tmp_of lookup contains insert erase text_eq path_eq lower lower_code
made_blank = refl

authenticate-create_user_example :
    authenticate (codes "bOb") (codes "pw") (one_user (codes "pw")) ≡ (
      if lower (codes "Bob") == lower (codes "bOb")
      then (if codes "pw" == codes "pw" then some (account (codes "Bob") (codes "pw")) else none)
      else authenticate (codes "bOb") (codes "pw") no_users)
authenticate-create_user_example =
    authenticate-create_user no_faults (codes "Bob") (codes "pw") (codes "bOb") (codes "pw")
      no_users (one_user (codes "pw")) [] (one_disk (codes "pw"))
      (account (codes "Bob") (codes "pw")) made

secret : is_blank (codes "pw") ≡ false
unfolding is_blank
secret = refl

blank : is_blank [] ≡ true
unfolding is_blank
blank = refl

create_user_survives_example :
    ((initialize no_faults (one_disk (codes "pw"))).users ≡ (one_user (codes "pw")).users)
    × Restorable (one_user (codes "pw")).users
    × Fresh [] (one_user (codes "pw")).users
create_user_survives_example =
    create_user_survives no_faults (codes "Bob") (codes "pw") no_users (one_user (codes "pw")) []
      (one_disk (codes "pw")) (account (codes "Bob") (codes "pw")) refl refl refl tt tt made secret
