-- ===== src/Auth/User.antt =====
-- email-network-service/src/auth/user.py. `none` is `ValueError`, and where an argument may be
-- something else than a string, `none` is that. The mailbox path is the directory's.
use rdt_mail_service.Prelude.{Bool, Option, none, some, ◌==◌, if◌then◌else◌}
use rdt_mail_service.Prelude.Text.{Text, text_eq, is_empty, strip, lower, codes}
use rdt_mail_service.Disk.{UserRecord, mailbox_dir}

pub record User : Type 0 where
  pub username : Text
  pub password : Text
  pub mailbox_path : Text

-- `not value.strip()`
unfoldable pub is_blank : Text → Bool
unfolding strip
is_blank t = is_empty (strip t)

abbrev pub internal : Text
internal = codes "__internal__"

unfoldable pub new_user : Option Text → Text → Option User
unfolding is_blank lower
new_user none password = none
new_user (some username) password =
    if is_blank username
    then none
    else some (record {
      username = lower username;
      password = password;
      mailbox_path = mailbox_dir (lower username);
    })

unfoldable pub set_password : Text → User → Option User
unfolding is_blank
set_password raw_password u =
    if is_blank raw_password then none else some (record u { password = raw_password })

unfoldable pub verify_password : Text → User → Bool
unfolding text_eq
verify_password raw_password u = u.password == raw_password

unfoldable pub to_dict : User → UserRecord
to_dict u = record { username = some u.username; password = some u.password }

abbrev from_fields : Option Text → Option Text → Option User
from_fields none _ = none
from_fields (some username) none = none
from_fields (some username) (some password) =
    if is_blank username
    then none
    else if is_blank password
    then none
    else new_user (some username) password

unfoldable pub from_dict : UserRecord → Option User
unfolding new_user
from_dict r = from_fields r.username r.password
