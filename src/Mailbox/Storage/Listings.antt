-- ===== src/Mailbox/Storage/Listings.antt =====
-- What a saved message looks like to the readers of the mailbox, in storage_manager.py.
use rdt_mail_service.Prelude.{
  ◌≡◌, refl, ap, ◌∙◌, true, false, ◌&&◌, [], ◌∷◌, ◌++◌, none, some, arith, length, Dict, lookup,
  contains, contains-lookup, if◌then◌else◌,
}
use rdt_mail_service.Prelude.Text.{Text, text_eq}
use rdt_mail_service.Disk.{
  Disk, FilePath, path_eq, raw, Entry, FileOp, Faults, mailbox_dir, read_file,
}
use rdt_mail_service.Auth.User.{User}
use rdt_mail_service.Mailbox.Email.{EmailData}
use rdt_mail_service.Mailbox.Reader
use rdt_mail_service.Mailbox.Reader.{metadata_path, universal_newlines}
use rdt_mail_service.Mailbox.Reader.Listing.{list_messages_lem}
use rdt_mail_service.Mailbox.Writer.{filename_of, write_email, stable_uid}
use rdt_mail_service.Mailbox.Storage.{Storage, save_email, list_messages, get_message_content}
use rdt_mail_service.Mailbox.Storage.Saving.{
  placed, recorded, appended, write_email_listing, write_email_file, write_email_saved,
  listed_recorded,
}

-- `Reader.read_message` of a file that holds text.
read_message-raw :
    (io : Faults) (user : User) (filename text : Text) (disk : Disk)
    → io FileOp.reading (user.mailbox_path, filename) ≡ false
    → lookup (user.mailbox_path, filename) disk ≡ some (raw text)
    → Reader.read_message io user filename disk ≡ some (universal_newlines text)
unfolding Reader.read_message read_file
read_message-raw io user filename text disk r e =
    ground (arith, contains-lookup (user.mailbox_path, filename) disk)

module _ (io : Faults) (stamp new_uid : Text) (user : User) (email : EmailData) (s : Storage)
    (text : Text) (messages : Dict Text Entry) (given : email.raw_message ≡ some text)
    (known : (Reader.load_metadata io (metadata_path user.username) s.disk).messages
      ≡ some messages) where
  abbrev after : Storage
  after = (save_email io stamp new_uid user email s).1

  -- For an email with a text, and a user whose metadata.json (or the empty one that stands for it)
  -- can be read, has messages and has none of the new name, whichever other calls raise:
  -- `save_email` returns the path exactly if the directories, the write and the move of the message
  -- succeed, else None; and the listing grows at its end by the message, with its length as size
  -- (0 if that cannot be found) and its identifier, exactly if metadata.json is written and moved
  -- as well, and is else what it was.
  pub save_email-listing :
      io FileOp.reading (metadata_path user.username) ≡ false
      → contains (filename_of stamp) messages ≡ false
      → ((save_email io stamp new_uid user email s).0 ≡ (
          if placed io stamp new_uid user email s.disk text given
          then some (mailbox_dir user.username, filename_of stamp)
          else none))
        × ((list_messages io user after).0
            ≡ (list_messages io user s).0
              ++ (if placed io stamp new_uid user email s.disk text given
                    && recorded io stamp new_uid user email s.disk text given
                  then appended io stamp new_uid user email s.disk text given messages known
                  else []))
  unfolding save_email list_messages
  save_email-listing reads free =
      rw (list_messages_lem io user s.disk messages known) (
        write_email_listing io stamp new_uid user email s.disk text given messages known reads free)

  -- For an email with a text, and a user whose metadata.json has messages and whose mailbox path
  -- is that of the user's mailbox: if `save_email` puts the message in its place and its file can be
  -- read, `get_message_content` returns the text for its name, with CR LF and CR read as LF.
  pub save_email-get_message_content :
      placed io stamp new_uid user email s.disk text given ≡ true
      → user.mailbox_path ≡ mailbox_dir user.username
      → io FileOp.reading (mailbox_dir user.username, filename_of stamp) ≡ false
      → (get_message_content io user (filename_of stamp) after).0 ≡ some (universal_newlines text)
  unfolding save_email get_message_content
  save_email-get_message_content works path r =
      read_message-raw io user (filename_of stamp) text
        (write_email io stamp new_uid user email s.disk).1 (rw path r)
        (ap
            (λ (d : Text).
              lookup (d, filename_of stamp) (write_email io stamp new_uid user email s.disk).1)
            path
          ∙ write_email_file io stamp new_uid user email s.disk text given messages known works)

unreadable :
    (io : Faults) (path : FilePath) (disk : Disk)
    → io FileOp.reading path ≡ true
    → (Reader.load_metadata io path disk).messages ≡ some []
unfolding Reader.load_metadata read_file
unreadable io path disk h = ground arith

-- If metadata.json cannot be read while a message is saved, and every other call works, the new
-- message is all that is listed afterwards, whatever was listed before.
pub save_unreadable_forgets :
    (io io' : Faults) (stamp new_uid : Text) (user : User) (email : EmailData) (s : Storage)
    (text : Text) (given : email.raw_message ≡ some text)
    → io FileOp.reading (metadata_path user.username) ≡ true
    → io' FileOp.reading (metadata_path user.username) ≡ false
    → placed io stamp new_uid user email s.disk text given ≡ true
    → recorded io stamp new_uid user email s.disk text given ≡ true
    → (list_messages io' user (save_email io stamp new_uid user email s).1).0
      ≡ (
        filename_of stamp,
        (if io FileOp.sizing (mailbox_dir user.username, filename_of stamp)
            then 0
            else length text),
        some (stable_uid new_uid email.uid),
      )
        ∷ []
unfolding save_email list_messages contains
save_unreadable_forgets io io' stamp new_uid user email s text given faulty reads works done =
    let known = unreadable io (metadata_path user.username) s.disk faulty in
    listed_recorded io stamp new_uid user email s.disk text given [] known io'
      (write_email io stamp new_uid user email s.disk).1 reads refl
      (write_email_saved io stamp new_uid user email s.disk text given [] known works done)
