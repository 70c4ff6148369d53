-- ===== src/Mailbox/Storage/Saving.antt =====
-- What `save_email` of storage_manager.py does to a mailbox, whichever calls raise.
use rdt_mail_service.Prelude.{
  ℕ, ◌≡◌, refl, sym, ap, ◌∙◌, inl, inr, Bool, true, false, not, ◌&&◌, List, [], ◌∷◌, ◌++◌,
  append-nil, Option, none, some, arith, length, Dict, lookup, contains, insert, Bool-cases,
  if◌then◌else◌,
}
use rdt_mail_service.Prelude.Text.{Text, text_eq, codes}
use rdt_mail_service.Disk.{
  Disk, FilePath, path_eq, Content, raw, metadata_json, Metadata, Entry, FileOp, Faults, tmp_of,
  mailbox_dir, temp_dir,
}
use rdt_mail_service.Auth.User.{User}
use rdt_mail_service.Mailbox.Email.{EmailData}
use rdt_mail_service.Mailbox.Reader
use rdt_mail_service.Mailbox.Reader.{metadata_path, metadata_name, visible, load_metadata}
use rdt_mail_service.Mailbox.Reader.Listing.{
  visible-insert, load_metadata_cong, list_messages_cong, list_messages_lem, load_metadata-lookup,
}
use rdt_mail_service.Mailbox.Writer
use rdt_mail_service.Mailbox.Writer.{
  returned, stage_email, record_email, save_metadata, write_email, filename_of, stable_uid,
}
use rdt_mail_service.Mailbox.Writer.Files.{
  stage_email_result, stage_email_done, lookup-stage_email_other, temp_dir-ne, filename_of-ne,
  filename_of-tmp,
}
use rdt_mail_service.Mailbox.Storage.{caught}
use rdt_mail_service.Mailbox.Writer.MetadataFile.{
  loaders_agree, lookup-save_metadata, lookup-save_metadata_other,
}

module _ (io : Faults) (stamp new_uid : Text) (user : User) (email : EmailData) (disk : Disk)
    (text : Text) (given : email.raw_message ≡ some text) where
  abbrev pub final_path : FilePath
  final_path = (mailbox_dir user.username, filename_of stamp)

  abbrev pub temp_path : FilePath
  temp_path = (temp_dir user.username, filename_of stamp)

  abbrev pub meta_path : FilePath
  meta_path = metadata_path user.username

  -- No call raises before the message is in its place.
  abbrev pub placed : Bool
  placed =
      not (io FileOp.making (mailbox_dir user.username, []))
      && not (io FileOp.making (temp_dir user.username, []))
      && not (io FileOp.writing temp_path)
      && not (io FileOp.replacing final_path)

  -- Nor when metadata.json is written.
  abbrev pub recorded : Bool
  recorded = not (io FileOp.writing (tmp_of meta_path)) && not (io FileOp.replacing meta_path)

  abbrev staged : Disk
  staged = (stage_email io user (filename_of stamp) text disk).1

  abbrev pub new_entry : Entry
  new_entry = record {
    uid = some (stable_uid new_uid email.uid);
    size = some (if io FileOp.sizing final_path then 0 else length text);
    deleted = some false;
  }

  lookup-staged : lookup meta_path staged ≡ lookup meta_path disk
  lookup-staged =
      lookup-stage_email_other io user (filename_of stamp) text disk meta_path
        (λ e. temp_dir-ne user.username user.username (sym (ap (λ (p : FilePath). p.0) e)))
        (λ e. filename_of-ne stamp (sym (ap (λ (p : FilePath). p.1) e)))

  write_email-placed :
      placed ≡ true
      → write_email io stamp new_uid user email disk
        ≡ record_email io new_uid user email (filename_of stamp) text staged
  unfolding write_email
  write_email-placed p =
      rw given (ground (arith, stage_email_result io user (filename_of stamp) text disk))

  write_email-unplaced :
      placed ≡ false
      → (caught none (write_email io stamp new_uid user email disk).0 ≡ none)
        × (lookup meta_path (write_email io stamp new_uid user email disk).1
            ≡ lookup meta_path disk)
  unfolding write_email
  write_email-unplaced p =
      rw given
        (ground (arith, stage_email_result io user (filename_of stamp) text disk, lookup-staged))

  module _ (messages : Dict Text Entry)
      (known : (Reader.load_metadata io meta_path disk).messages ≡ some messages) where
    abbrev pub new_metadata : Metadata
    new_metadata = record { messages = some (insert (filename_of stamp) new_entry messages) }

    tmp_name : final_path ≡ tmp_of meta_path → filename_of stamp ≡ metadata_name ++ codes ".tmp"
    unfolding tmp_of
    tmp_name e = ap (λ (p : FilePath). p.1) e

    staged_ok : placed ≡ true → (stage_email io user (filename_of stamp) text disk).0 ≡ true
    staged_ok p = ground (arith, stage_email_result io user (filename_of stamp) text disk)

    known_staged : (Writer.load_metadata io meta_path staged).messages ≡ some messages
    known_staged =
        rw
          (
            loaders_agree io meta_path staged,
            load_metadata_cong io meta_path staged disk lookup-staged,
          )
          known

    record_email_lem :
        record_email io new_uid user email (filename_of stamp) text staged
        ≡ (returned (some final_path), save_metadata io meta_path new_metadata staged)
    unfolding record_email
    record_email_lem = rw known_staged

    saved :
        lookup meta_path (save_metadata io meta_path new_metadata staged)
        ≡ (if recorded then some (metadata_json new_metadata) else lookup meta_path disk)
    saved =
        lookup-save_metadata io meta_path new_metadata staged
        ∙ ap (λ (c : Option Content). if recorded then some (metadata_json new_metadata) else c)
            lookup-staged

    listed_unchanged :
        (disk' : Disk)
        → lookup meta_path disk' ≡ lookup meta_path disk
        → Reader.list_messages io user disk' ≡ visible messages ++ []
    listed_unchanged disk' e =
        list_messages_cong io user disk' disk e
        ∙ list_messages_lem io user disk messages known
        ∙ sym (append-nil (visible messages))

    pub listed_recorded :
        (io' : Faults) (disk' : Disk)
        → io' FileOp.reading meta_path ≡ false
        → contains (filename_of stamp) messages ≡ false
        → lookup meta_path disk' ≡ some (metadata_json new_metadata)
        → Reader.list_messages io' user disk'
          ≡ visible messages
            ++ (
              filename_of stamp,
              (if io FileOp.sizing final_path then 0 else length text),
              some (stable_uid new_uid email.uid),
            )
              ∷ []
    listed_recorded io' disk' reads free e =
        list_messages_lem io' user disk' (insert (filename_of stamp) new_entry messages) (
          ap (λ (m : Metadata). m.messages)
            (load_metadata-lookup io' meta_path disk' new_metadata reads e))
        ∙ visible-insert (filename_of stamp) new_entry messages free refl

    abbrev pub appended : List (Text × ℕ × Option Text)
    appended =
        (
          filename_of stamp,
          (if io FileOp.sizing final_path then 0 else length text),
          some (stable_uid new_uid email.uid),
        )
        ∷ []

    -- The result is the path exactly if the message has its place; it is listed exactly if
    -- metadata.json was written as well.
    pub write_email_listing :
        io FileOp.reading meta_path ≡ false
        → contains (filename_of stamp) messages ≡ false
        → (caught none (write_email io stamp new_uid user email disk).0
            ≡ (if placed then some final_path else none))
          × (Reader.list_messages io user (write_email io stamp new_uid user email disk).1
              ≡ visible messages ++ (if placed && recorded then appended else []))
    write_email_listing reads free = elim (Bool-cases placed) [
      | inr fails ↦ rw fails (
        (write_email-unplaced fails).0,
        listed_unchanged (write_email io stamp new_uid user email disk).1
            (write_email-unplaced fails).1,
      )
      | inl works ↦
          rw (works, write_email-placed works, record_email_lem)
            (
              refl,
              elim (Bool-cases recorded) [
                | inl done ↦ rw done (
                    listed_recorded io (save_metadata io meta_path new_metadata staged) reads free
                      (saved ∙ rw done refl))
                | inr lost ↦ rw lost (
                    listed_unchanged (save_metadata io meta_path new_metadata staged)
                      (saved ∙ rw lost refl))
              ],
            )
    ]

    -- Where the message is placed and recorded, the disk is this one.
    pub write_email_disk :
        placed ≡ true
        → (write_email io stamp new_uid user email disk).1
          ≡ save_metadata io meta_path new_metadata staged
    write_email_disk works = rw (write_email-placed works, record_email_lem) refl

    pub write_email_saved :
        placed ≡ true
        → recorded ≡ true
        → lookup meta_path (write_email io stamp new_uid user email disk).1
          ≡ some (metadata_json new_metadata)
    write_email_saved works done = rw (write_email_disk works) (saved ∙ rw done refl)

    -- The message file itself.
    pub write_email_file :
        placed ≡ true
        → lookup final_path (write_email io stamp new_uid user email disk).1 ≡ some (raw text)
    write_email_file works = rw (write_email_disk works) (
        lookup-save_metadata_other io meta_path new_metadata staged final_path
          (λ e. filename_of-ne stamp (ap (λ (p : FilePath). p.1) e))
          (λ e. filename_of-tmp stamp (tmp_name e))
        ∙ stage_email_done io user (filename_of stamp) text disk (staged_ok works))
