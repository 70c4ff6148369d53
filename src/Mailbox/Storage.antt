-- ===== src/Mailbox/Storage.antt =====
-- email-network-service/src/mailbox/storage_manager.py. Every method holds the user's lock from
-- its first read to its last write, so it is a function on the state.
pub mod Saving
pub mod Listings
pub mod Deleting
pub mod Isolation
pub mod Locks
use rdt_mail_service.Prelude.{
  ℕ, Bool, false, List, Option, none, Dict, contains, insert, length, if◌then◌else◌,
}
use rdt_mail_service.Prelude.Text.{Text, text_eq, lower}
use rdt_mail_service.Disk.{Disk, FilePath, Faults}
use rdt_mail_service.Auth.User.{User}
use rdt_mail_service.Mailbox.Email.{EmailData}
use rdt_mail_service.Mailbox.Reader
use rdt_mail_service.Mailbox.Writer
use rdt_mail_service.Mailbox.Writer.{Result, returned, raised}

-- The locks by user, each a number; and the files.
pub record Storage : Type 0 where
  pub locks : Dict Text ℕ
  pub disk : Disk

-- The lock of a user is made when it is first wanted.
unfoldable pub get_lock : Text → Dict Text ℕ → Dict Text ℕ
unfolding lower
get_lock username locks =
    let name = lower username in
    if contains name locks then locks else insert name (length locks) locks

abbrev pub locked : User → Storage → Storage
locked user s = record s { locks = get_lock (lower user.username) s.locks }

-- `except Exception` gives the value that stands for failure.
abbrev pub caught : {A : Type 0} → A → Result A → A
caught failure (returned a) = a
caught failure raised = failure

unfoldable pub save_email :
    Faults → Text → Text → User → EmailData → Storage → Option FilePath × Storage
unfolding get_lock Writer.write_email
save_email io stamp new_uid user email s =
    let (result, disk') = Writer.write_email io stamp new_uid user email s.disk in
    (caught none result, record (locked user s) { disk = disk' })

unfoldable pub list_messages : Faults → User → Storage → List (Text × ℕ × Option Text) × Storage
unfolding get_lock Reader.list_messages
list_messages io user s = (Reader.list_messages io user s.disk, locked user s)

unfoldable pub get_message_content : Faults → User → Text → Storage → Option Text × Storage
unfolding get_lock Reader.read_message
get_message_content io user filename s =
    (Reader.read_message io user filename s.disk, locked user s)

unfoldable pub get_message_uid : Faults → User → Text → Storage → Option Text × Storage
unfolding get_lock Reader.get_uid
get_message_uid io user filename s = (Reader.get_uid io user filename s.disk, locked user s)

unfoldable pub delete_email : Faults → User → Text → Storage → Bool × Storage
unfolding get_lock Writer.mark_message_as_deleted
delete_email io user filename s =
    let (result, disk') = Writer.mark_message_as_deleted io user filename s.disk in
    (caught false result, record (locked user s) { disk = disk' })
