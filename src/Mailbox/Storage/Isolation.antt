-- ===== src/Mailbox/Storage/Isolation.antt =====
-- The mailboxes of different users, in storage_manager.py.
use rdt_mail_service.Prelude.{
  true, ◌≡◌, ◌≢◌, refl, sym, ap, ◌∙◌, inl, inr, false, Option, none, some, arith, length, Dict,
  lookup, insert, Bool-cases, if◌then◌else◌,
}
use rdt_mail_service.Prelude.Text.{Text, text_eq, is_empty}
use rdt_mail_service.Disk.{
  is_component, Disk, FilePath, path_eq, Metadata, Entry, FileOp, Faults, tmp_of, mailbox_dir,
}
use rdt_mail_service.Auth.User.{User}
use rdt_mail_service.Mailbox.Email.{EmailData}
use rdt_mail_service.Mailbox.Reader.{metadata_path}
use rdt_mail_service.Mailbox.Reader.Listing.{list_messages_cong, read_message_cong}
use rdt_mail_service.Mailbox.Writer.{
  write_email, write_text, stage_email, record_email, filename_of, mark_message_as_deleted,
  save_metadata, load_metadata, save_added, add_entry, flag_in, flag_found, flag_entry,
}
use rdt_mail_service.Mailbox.Writer.Files.{temp_dir-ne, mailbox_dir_inj, lookup-stage_email_other}
use rdt_mail_service.Mailbox.Storage.{
  Storage, save_email, delete_email, list_messages, get_message_content,
}
use rdt_mail_service.Mailbox.Writer.MetadataFile.{lookup-save_metadata_other}

module _ (io : Faults) (user : User) (other name : Text) (ne : other ≢ user.username) where
  abbrev theirs : FilePath
  theirs = (mailbox_dir other, name)

  dir_ne : (n : Text) → theirs ≢ (mailbox_dir user.username, n)
  dir_ne n e = ne (mailbox_dir_inj other user.username (ap (λ (p : FilePath). p.0) e))

  tmp_ne : theirs ≢ tmp_of (metadata_path user.username)
  unfolding tmp_of
  tmp_ne e = ne (mailbox_dir_inj other user.username (ap (λ (p : FilePath). p.0) e))

  lookup-saved :
      (metadata : Metadata) (disk : Disk)
      → lookup theirs (save_metadata io (metadata_path user.username) metadata disk)
        ≡ lookup theirs disk
  lookup-saved metadata disk =
      lookup-save_metadata_other io (metadata_path user.username) metadata disk theirs
        (dir_ne (metadata_path user.username).1) tmp_ne

  lookup-save_added :
      (final_path : FilePath) (m : Option Metadata) (disk : Disk)
      → lookup theirs (save_added io (metadata_path user.username) final_path m disk).1
        ≡ lookup theirs disk
  lookup-save_added final_path none disk = refl
  lookup-save_added final_path (some m) disk = lookup-saved m disk

  lookup-record_email :
      (new_uid : Text) (email : EmailData) (filename text : Text) (disk : Disk)
      → lookup theirs (record_email io new_uid user email filename text disk).1 ≡ lookup theirs disk
  unfolding record_email
  lookup-record_email new_uid email filename text disk =
      lookup-save_added (mailbox_dir user.username, filename)
        (add_entry filename
          (record {
            uid = some (if is_empty email.uid then new_uid else email.uid);
            size =
                some (
                  if io FileOp.sizing (mailbox_dir user.username, filename)
                  then 0
                  else length text);
            deleted = some false;
          })
          (load_metadata io (metadata_path user.username) disk))
        disk

  lookup-write_text :
      (new_uid : Text) (email : EmailData) (filename : Text) (text : Option Text) (disk : Disk)
      → lookup theirs (write_text io new_uid user email filename text disk).1 ≡ lookup theirs disk
  lookup-write_text new_uid email filename none disk = refl
  lookup-write_text new_uid email filename (some text) disk =
      let staged =
        lookup-stage_email_other io user filename text disk theirs
          (λ e. temp_dir-ne user.username other (sym (ap (λ (p : FilePath). p.0) e)))
          (dir_ne filename) in
      elim (Bool-cases (stage_email io user filename text disk).0) [
        | inl done ↦ rw done (
            lookup-record_email new_uid email filename text
              (stage_email io user filename text disk).1
            ∙ staged)
        | inr failed ↦ rw failed staged
      ]

  pub lookup-write_email :
      (stamp new_uid : Text) (email : EmailData) (disk : Disk)
      → lookup theirs (write_email io stamp new_uid user email disk).1 ≡ lookup theirs disk
  unfolding write_email
  lookup-write_email stamp new_uid email disk =
      ground (arith, lookup-write_text new_uid email (filename_of stamp) email.raw_message disk)

  lookup-flag_found :
      (filename : Text) (messages : Dict Text Entry) (o : Option Entry) (disk : Disk)
      → lookup theirs (flag_found io (metadata_path user.username) filename messages o disk).1
        ≡ lookup theirs disk
  lookup-flag_found filename messages none disk = refl
  lookup-flag_found filename messages (some e) disk =
      lookup-saved (record { messages = some (insert filename (flag_entry e) messages) }) disk

  lookup-flag_in :
      (filename : Text) (messages : Option (Dict Text Entry)) (disk : Disk)
      → lookup theirs (flag_in io (metadata_path user.username) filename messages disk).1
        ≡ lookup theirs disk
  lookup-flag_in filename none disk = refl
  lookup-flag_in filename (some messages) disk =
      lookup-flag_found filename messages (lookup filename messages) disk

  pub lookup-mark :
      (filename : Text) (disk : Disk)
      → lookup theirs (mark_message_as_deleted io user filename disk).1 ≡ lookup theirs disk
  unfolding mark_message_as_deleted
  lookup-mark filename disk =
      lookup-flag_in filename (load_metadata io (metadata_path user.username) disk).messages disk

-- The names of the two users, which differ, of the file that is made and of the files that are
-- named are single components of a path, and the other user's directory is that of its name. Then,
-- whatever raises, saving a message to the mailbox of the one user and deleting one from it leave
-- the listing and the message text of the other as they are.
pub mailboxes_independent :
    (io : Faults) (stamp new_uid : Text) (user : User) (email : EmailData) (filename : Text)
    (s : Storage) (io' : Faults) (other : User) (name : Text)
    → other.username ≢ user.username
    → other.mailbox_path ≡ mailbox_dir other.username
    → (is_component user.username ≡ true) × (is_component other.username ≡ true)
    → (is_component (filename_of stamp) ≡ true)
      × (is_component filename ≡ true)
      × (is_component name ≡ true)
    → let saved = (save_email io stamp new_uid user email s).1 in
      let deleted = (delete_email io user filename s).1 in
      ((list_messages io' other saved).0 ≡ (list_messages io' other s).0)
      × ((list_messages io' other deleted).0 ≡ (list_messages io' other s).0)
      × ((get_message_content io' other name saved).0 ≡ (get_message_content io' other name s).0)
      × ((get_message_content io' other name deleted).0 ≡ (get_message_content io' other name s).0)
unfolding save_email delete_email list_messages get_message_content
mailboxes_independent io stamp new_uid user email filename s io' other name ne path users files =
    let saved = (write_email io stamp new_uid user email s.disk).1 in
    let deleted = (mark_message_as_deleted io user filename s.disk).1 in
    (
      list_messages_cong io' other saved s.disk (
          lookup-write_email io user other.username (metadata_path other.username).1 ne stamp
            new_uid email s.disk),
      list_messages_cong io' other deleted s.disk
          (lookup-mark io user other.username (metadata_path other.username).1 ne filename s.disk),
      read_message_cong io' other name saved s.disk
          (rw path (lookup-write_email io user other.username name ne stamp new_uid email s.disk)),
      read_message_cong io' other name deleted s.disk
          (rw path (lookup-mark io user other.username name ne filename s.disk)),
    )
