-- ===== src/Mailbox/Reader/Listing.antt =====
-- What `list_messages` of mailbox_reader.py shows of a metadata.json, and which files it reads.
use rdt_mail_service.Prelude.{
  ℕ, ◌≡◌, refl, ap, inl, inr, Bool-cases, ◌||◌, true, false, List, [], ◌∷◌, ◌++◌, Option, some,
  arith, ◌==◌, Dict, lookup, contains, insert, contains-lookup, if◌then◌else◌,
}
use rdt_mail_service.Prelude.Text.{Text, text_eq}
use rdt_mail_service.Disk.{
  Disk, FilePath, path_eq, Entry, Metadata, metadata_json, Faults, FileOp, read_file,
}
use rdt_mail_service.Auth.User.{User}
use rdt_mail_service.Mailbox.Reader.{
  visible, load_metadata, or_empty, or_zero, list_messages, metadata_path, read_message,
}

-- No key twice.
abbrev pub Unique : Dict Text Entry → Type 0
Unique [] = Unit
Unique ((key, entry) ∷ rest) = (contains key rest ≡ false) × Unique rest

-- A listing less the messages of a name.
abbrev pub without : Text → List (Text × ℕ × Option Text) → List (Text × ℕ × Option Text)
without filename [] = []
without filename ((name, size, uid) ∷ rest) =
    let later = without filename rest in
    if name == filename then later else (name, size, uid) ∷ later

-- An entry under a new name is listed last.
pub visible-insert :
    (filename : Text) (entry : Entry) (messages : Dict Text Entry)
    → contains filename messages ≡ false
    → entry.deleted ≡ some false
    → visible (insert filename entry messages)
      ≡ visible messages ++ (filename, or_zero entry.size, entry.uid) ∷ []
unfolding visible contains insert
visible-insert filename entry [] h d = ground (arith, d)
visible-insert filename entry ((name, e) ∷ rest) h d =
    ground (arith, d, visible-insert filename entry rest)

pub visible_absent :
    (filename : Text) (messages : Dict Text Entry)
    → contains filename messages ≡ false
    → visible messages ≡ without filename (visible messages)
unfolding visible contains
visible_absent filename [] h = refl
visible_absent filename ((name, e) ∷ rest) h = ground (arith, visible_absent filename rest)

-- An entry that is flagged is listed no more, and nothing else changes.
pub visible_flagged :
    (filename : Text) (entry : Entry) (messages : Dict Text Entry)
    → Unique messages
    → contains filename messages ≡ true
    → entry.deleted ≡ some true
    → visible (insert filename entry messages) ≡ without filename (visible messages)
unfolding visible contains insert
visible_flagged filename entry [] u h d = ground arith
visible_flagged filename entry ((name, e) ∷ rest) u h d = ground (
  arith,
  text_eq.beq_iff name filename,
  visible_flagged filename entry rest u.1,
  visible_absent filename rest,
)

-- Only the file itself is read.
pub load_metadata_cong :
    (io : Faults) (path : FilePath) (disk disk' : Disk)
    → lookup path disk ≡ lookup path disk'
    → load_metadata io path disk ≡ load_metadata io path disk'
unfolding load_metadata read_file
load_metadata_cong io path disk disk' e =
    ground (arith, contains-lookup path disk, contains-lookup path disk')

pub list_messages_cong :
    (io : Faults) (user : User) (disk disk' : Disk)
    → lookup (metadata_path user.username) disk ≡ lookup (metadata_path user.username) disk'
    → list_messages io user disk ≡ list_messages io user disk'
unfolding list_messages
list_messages_cong io user disk disk' e =
    ap (λ (m : Metadata). visible (or_empty m.messages))
      (load_metadata_cong io (metadata_path user.username) disk disk' e)

pub read_message_cong :
    (io : Faults) (user : User) (filename : Text) (disk disk' : Disk)
    → lookup (user.mailbox_path, filename) disk ≡ lookup (user.mailbox_path, filename) disk'
    → read_message io user filename disk ≡ read_message io user filename disk'
unfolding read_message read_file
read_message_cong io user filename disk disk' e =
    let path : FilePath = (user.mailbox_path, filename) in
    ground (arith, contains-lookup path disk, contains-lookup path disk')

-- What is listed when metadata.json can be read.
pub list_messages_lem :
    (io : Faults) (user : User) (disk : Disk) (messages : Dict Text Entry)
    → (load_metadata io (metadata_path user.username) disk).messages ≡ some messages
    → list_messages io user disk ≡ visible messages
unfolding list_messages
list_messages_lem io user disk messages e = rw e

pub load_metadata-lookup :
    (io : Faults) (path : FilePath) (disk : Disk) (metadata : Metadata)
    → io FileOp.reading path ≡ false
    → lookup path disk ≡ some (metadata_json metadata)
    → load_metadata io path disk ≡ metadata
unfolding load_metadata read_file
load_metadata-lookup io path disk metadata r e = ground (arith, contains-lookup path disk)

contains-insert :
    (k j : Text) (entry : Entry) (messages : Dict Text Entry)
    → contains j (insert k entry messages) ≡ ((k == j) || contains j messages)
unfolding contains insert
contains-insert k j entry [] = ground arith
contains-insert k j entry ((i, e) ∷ rest) = ground (
  arith,
  text_eq.beq_iff i k,
  text_eq.beq_iff i j,
  text_eq.beq_iff k j,
  contains-insert k j entry rest,
)

pub Unique-insert :
    (k : Text) (entry : Entry) (messages : Dict Text Entry)
    → Unique messages
    → Unique (insert k entry messages)
unfolding insert contains
Unique-insert k entry [] u = (refl, tt)
Unique-insert k entry ((j, e) ∷ rest) u = elim (Bool-cases (j == k)) [
  | inl same ↦ rw same u
  | inr other ↦ rw other (
    ground (arith, text_eq.beq_iff j k, text_eq.beq_iff k j, contains-insert k j entry rest, u.0),
    Unique-insert k entry rest u.1,
  )
]
