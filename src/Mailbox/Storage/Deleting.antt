-- ===== src/Mailbox/Storage/Deleting.antt =====
-- Deleting a message, in storage_manager.py.
use rdt_mail_service.Prelude.{
  ◌≡◌, refl, ap, ◌∙◌, true, false, not, inl, inr, ◌&&◌, none, some, arith, Dict, lookup, contains,
  insert, contains-lookup, Bool-cases, Option-cases, if◌then◌else◌,
}
use rdt_mail_service.Prelude.Text.{Text, text_eq}
use rdt_mail_service.Disk.{Disk, path_eq, metadata_json, Metadata, Entry, FileOp, Faults, tmp_of}
use rdt_mail_service.Auth.User.{User}
use rdt_mail_service.Mailbox.Reader
use rdt_mail_service.Mailbox.Reader.{metadata_path, visible}
use rdt_mail_service.Mailbox.Reader.Listing.{
  Unique, without, visible_flagged, visible_absent, list_messages_lem, list_messages_cong,
  load_metadata-lookup, Unique-insert,
}
use rdt_mail_service.Mailbox.Writer.{
  returned, mark_message_as_deleted, save_metadata, flag_found, flag_entry,
}
use rdt_mail_service.Mailbox.Storage.{Storage, delete_email, list_messages}
use rdt_mail_service.Mailbox.Writer.MetadataFile.{loaders_agree, lookup-save_metadata}

module _ (io : Faults) (user : User) (filename : Text) (disk : Disk) (messages : Dict Text Entry)
    (known : (Reader.load_metadata io (metadata_path user.username) disk).messages
      ≡ some messages) where
  marked :
      mark_message_as_deleted io user filename disk
      ≡ flag_found io
          (metadata_path user.username)
          filename
          messages
          (lookup filename messages)
          disk
  unfolding mark_message_as_deleted
  marked = rw (loaders_agree io (metadata_path user.username) disk, known) refl

  module _ (reads : io FileOp.reading (metadata_path user.username) ≡ false)
      (unique : Unique messages) (entry : Entry)
      (found : lookup filename messages ≡ some entry) where
    abbrev flagged : Metadata
    flagged = record { messages = some (insert filename (flag_entry entry) messages) }

    abbrev flagged_disk : Disk
    flagged_disk = save_metadata io (metadata_path user.username) flagged disk

    pub marked_found : mark_message_as_deleted io user filename disk ≡ (returned true, flagged_disk)
    marked_found = rw (marked, found)

    pub listing_flagged :
        lookup (metadata_path user.username) flagged_disk ≡ some (metadata_json flagged)
        → Reader.list_messages io user flagged_disk ≡ without filename (visible messages)
    listing_flagged e =
        list_messages_lem io user flagged_disk (insert filename (flag_entry entry) messages) (
          ap (λ (m : Metadata). m.messages)
            (load_metadata-lookup io (metadata_path user.username) flagged_disk flagged reads e))
        ∙ visible_flagged filename (flag_entry entry) messages unique
            (contains-lookup filename messages ∙ rw found refl) refl

    pub listing_kept :
        lookup (metadata_path user.username) flagged_disk
          ≡ lookup (metadata_path user.username) disk
        → Reader.list_messages io user flagged_disk ≡ visible messages
    listing_kept e =
        list_messages_cong io user flagged_disk disk e
        ∙ list_messages_lem io user disk messages known

    listing_outcome : Reader.list_messages io user flagged_disk ≡ (
        if not (io FileOp.writing (tmp_of (metadata_path user.username)))
          && not (io FileOp.replacing (metadata_path user.username))
        then without filename (visible messages)
        else visible messages)
    listing_outcome =
        let path = metadata_path user.username in
        let saved = lookup-save_metadata io path flagged disk in
        elim (Bool-cases
          (not (io FileOp.writing (tmp_of path)) && not (io FileOp.replacing path))) [
            | inl works ↦ rw works (listing_flagged (saved ∙ rw works refl))
            | inr fails ↦ rw fails (listing_kept (saved ∙ rw fails refl))
          ]

  pub marked_missing :
      lookup filename messages ≡ none
      → mark_message_as_deleted io user filename disk ≡ (returned false, disk)
  marked_missing e = rw (marked, e)

-- Whichever other calls raise, if metadata.json can be read and has no name twice: `delete_email`
-- returns True exactly if the name has an entry; and the listing loses the messages of that name
-- and nothing else, exactly if metadata.json is written and moved, and is else what it was.
pub delete_email-listing :
    (io : Faults) (user : User) (filename : Text) (s : Storage) (messages : Dict Text Entry)
    → (Reader.load_metadata io (metadata_path user.username) s.disk).messages ≡ some messages
    → io FileOp.reading (metadata_path user.username) ≡ false
    → Unique messages
    → ((delete_email io user filename s).0 ≡ contains filename messages)
      × ((list_messages io user (delete_email io user filename s).1).0 ≡ (
          if not (io FileOp.writing (tmp_of (metadata_path user.username)))
            && not (io FileOp.replacing (metadata_path user.username))
          then without filename (list_messages io user s).0
          else (list_messages io user s).0))
unfolding delete_email list_messages
delete_email-listing io user filename s messages known reads unique =
    let path = metadata_path user.username in
    elim (Option-cases (lookup filename messages)) [
      | inl missing ↦
          rw
            (
              marked_missing io user filename s.disk messages known missing,
              list_messages_lem io user s.disk messages known,
              contains-lookup filename messages,
              missing,
            )
            (
              refl,
              ground (
                arith,
                visible_absent filename messages
                    (contains-lookup filename messages ∙ rw missing refl),
              ),
            )
      | inr (entry, found) ↦
          rw
            (
              marked_found io user filename s.disk messages known reads unique entry found,
              list_messages_lem io user s.disk messages known,
              contains-lookup filename messages,
              found,
            )
            (refl, listing_outcome io user filename s.disk messages known reads unique entry found)
    ]

-- The user's metadata.json can be read and written.
pub record Works (io : Faults) (user : User) : Type 0 where
  pub reads : io FileOp.reading (metadata_path user.username) ≡ false
  pub writes : io FileOp.writing (tmp_of (metadata_path user.username)) ≡ false
  pub replaces : io FileOp.replacing (metadata_path user.username) ≡ false

-- It holds messages, and no name twice.
pub record Readable (io : Faults) (user : User) (disk : Disk) : Type 0 where
  pub messages : Dict Text Entry
  pub known : (Reader.load_metadata io (metadata_path user.username) disk).messages ≡ some messages
  pub unique : Unique messages

flagged-Readable :
    (io : Faults) (user : User) (filename : Text) (disk : Disk) (w : Works io user)
    (r : Readable io user disk) (entry : Entry) (found : lookup filename r.messages ≡ some entry)
    → Readable io user
        (flagged_disk io user filename disk r.messages r.known w.reads r.unique entry found)
flagged-Readable io user filename disk w r entry found =
    let metadata = flagged io user filename disk r.messages r.known w.reads r.unique entry found in
    let path = metadata_path user.username in
    record {
      messages = insert filename (flag_entry entry) r.messages;
      known =
          ap (λ (m : Metadata). m.messages)
            (load_metadata-lookup io path (save_metadata io path metadata disk) metadata w.reads
              (lookup-save_metadata io path metadata disk ∙ rw (w.writes, w.replaces) refl));
      unique = Unique-insert filename (flag_entry entry) r.messages r.unique;
    }

readable :
    (io : Faults) (user : User) (filename : Text) (s : Storage)
    → Works io user
    → Readable io user s.disk
    → Readable io user (delete_email io user filename s).1.disk
unfolding delete_email
readable io user filename s w r = elim (Option-cases (lookup filename r.messages)) [
  | inl missing ↦ rw (marked_missing io user filename s.disk r.messages r.known missing) r
  | inr (entry, found) ↦
      rw (marked_found io user filename s.disk r.messages r.known w.reads r.unique entry found)
        (flagged-Readable io user filename s.disk w r entry found)
]

-- Deleting leaves it so.
pub delete_email-Readable :
    (io : Faults) (user : User) (filename : Text) (s : Storage)
    → Works io user
    → Readable io user s.disk
    → Readable io user (delete_email io user filename s).1.disk
      × ((list_messages io user (delete_email io user filename s).1).0
          ≡ without filename (list_messages io user s).0)
delete_email-Readable io user filename s w r = (
  readable io user filename s w r,
  rw (w.writes, w.replaces) at
      (delete_email-listing io user filename s r.messages r.known w.reads r.unique).1,
)
