-- ===== src/Mailbox/Writer.antt =====
-- email-network-service/src/mailbox/mailbox_writer.py. A call that raises leaves the disk as the
-- calls before it made it. The clock and `uuid4` are arguments: `stamp` is `{unix_ts}_{uuid_part}`
-- and `new_uid` the identifier for a message that has none.
pub mod Files
pub mod MetadataFile
use rdt_mail_service.Prelude.{
  Bool, true, false, [], ◌++◌, Option, none, some, Dict, lookup, contains, insert, length,
  if◌then◌else◌,
}
use rdt_mail_service.Prelude.Text.{Text, text_eq, codes, is_empty}
use rdt_mail_service.Disk.{
  Disk, FilePath, path_eq, raw, metadata_json, Entry, Metadata, FileOp, Faults, read_file,
  write_file, replace_file, atomic_write, mailbox_dir, temp_dir,
}
use rdt_mail_service.Auth.User.{User}
use rdt_mail_service.Mailbox.Email.{EmailData}
use rdt_mail_service.Mailbox.Reader.{metadata_path, metadata_in, empty_metadata}

-- A call returns, or raises.
pub data Result (A : Type 0) : Type 0 where
  returned : A → Result A
  raised : Result A

unfoldable pub load_metadata : Faults → FilePath → Disk → Metadata
unfolding read_file
load_metadata io path disk =
    if contains path disk then metadata_in (read_file io path disk) else empty_metadata

-- An exception is logged and forgotten.
unfoldable pub save_metadata : Faults → FilePath → Metadata → Disk → Disk
unfolding atomic_write
save_metadata io path metadata disk = (atomic_write io path (metadata_json metadata) disk).1

-- `email_data.uid or str(uuid.uuid4())`
abbrev pub stable_uid : Text → Text → Text
stable_uid new_uid uid = if is_empty uid then new_uid else uid

abbrev pub filename_of : Text → Text
filename_of stamp = stamp ++ codes ".msg"

-- `metadata["messages"][filename] = metadata_entry` raises if there are no messages.
abbrev pub add_entry : Text → Entry → Metadata → Option Metadata
add_entry filename entry metadata = elim metadata.messages [
  | none ↦ none
  | some messages ↦ some (record { messages = some (insert filename entry messages) })
]

abbrev pub save_added :
    Faults → FilePath → FilePath → Option Metadata → Disk → Result (Option FilePath) × Disk
save_added io path final_path none disk = (raised, disk)
save_added io path final_path (some metadata) disk =
    (returned (some final_path), save_metadata io path metadata disk)

-- The update of metadata.json, after the message has its final place.
unfoldable pub record_email :
    Faults → Text → User → EmailData → Text → Text → Disk → Result (Option FilePath) × Disk
record_email io new_uid user email filename raw_email disk =
    let final_path : FilePath = (mailbox_dir user.username, filename) in
    let path = metadata_path user.username in
    let size_bytes = if io FileOp.sizing final_path then 0 else length raw_email in
    let entry : Entry = record {
      uid = some (stable_uid new_uid email.uid);
      size = some size_bytes;
      deleted = some false;
    } in
    save_added io path final_path (add_entry filename entry (load_metadata io path disk)) disk

-- The message is written to the temporary directory and moved to the mailbox.
unfoldable pub stage_email : Faults → User → Text → Text → Disk → Bool × Disk
unfolding write_file replace_file
stage_email io user filename raw_email disk =
    let temp_path : FilePath = (temp_dir user.username, filename) in
    let final_path : FilePath = (mailbox_dir user.username, filename) in
    let (written, disk') = write_file io temp_path (raw raw_email) disk in
    if written then replace_file io temp_path final_path disk' else (false, disk')

abbrev pub write_text :
    Faults → Text → User → EmailData → Text → Option Text → Disk → Result (Option FilePath) × Disk
write_text io new_uid user email filename none disk = (returned none, disk)
write_text io new_uid user email filename (some raw_email) disk =
    let (staged, disk') = stage_email io user filename raw_email disk in
    if staged
    then record_email io new_uid user email filename raw_email disk'
    else (returned none, disk')

unfoldable pub write_email :
    Faults → Text → Text → User → EmailData → Disk → Result (Option FilePath) × Disk
unfolding stage_email record_email
write_email io stamp new_uid user email disk =
    if io FileOp.making (mailbox_dir user.username, [])
    then (raised, disk)
    else if io FileOp.making (temp_dir user.username, [])
    then (raised, disk)
    else write_text io new_uid user email (filename_of stamp) email.raw_message disk

abbrev pub flag_entry : Entry → Entry
flag_entry entry = record entry { deleted = some true }

abbrev pub flag_found :
    Faults → FilePath → Text → Dict Text Entry → Option Entry → Disk → Result Bool × Disk
flag_found io path filename messages none disk = (returned false, disk)
flag_found io path filename messages (some entry) disk =
    let metadata : Metadata = record {
      messages = some (insert filename (flag_entry entry) messages);
    } in
    (returned true, save_metadata io path metadata disk)

abbrev pub flag_in : Faults → FilePath → Text → Option (Dict Text Entry) → Disk → Result Bool × Disk
flag_in io path filename none disk = (raised, disk)
flag_in io path filename (some messages) disk =
    flag_found io path filename messages (lookup filename messages) disk

unfoldable pub mark_message_as_deleted : Faults → User → Text → Disk → Result Bool × Disk
mark_message_as_deleted io user filename disk =
    let path = metadata_path user.username in
    flag_in io path filename (load_metadata io path disk).messages disk
