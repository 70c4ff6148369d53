-- ===== src/Mailbox/Reader.antt =====
-- email-network-service/src/mailbox/mailbox_reader.py.
pub mod Listing
use rdt_mail_service.Prelude.{
  ℕ, Bool, false, List, [], ◌∷◌, Option, none, some, ◌==◌, nat_eq, Dict, lookup, contains,
  if◌then◌else◌,
}
use rdt_mail_service.Prelude.Text.{Text, text_eq, codes, cr, lf}
use rdt_mail_service.Disk.{
  Disk, FilePath, path_eq, Content, raw, users_json, metadata_json, Entry, Metadata, Faults,
  read_file, mailbox_dir,
}
use rdt_mail_service.Auth.User.{User}

abbrev pub metadata_name : Text
metadata_name = codes "metadata.json"

-- `{"messages": {}}`
abbrev pub empty_metadata : Metadata
empty_metadata = record { messages = some [] }

-- What `json.load` makes of a file; text that is no JSON raises, and users.json has no messages.
abbrev pub metadata_in : Option Content → Metadata
metadata_in none = empty_metadata
metadata_in (some (raw text)) = empty_metadata
metadata_in (some (users_json records)) = record { messages = none }
metadata_in (some (metadata_json metadata)) = metadata

-- A file that is missing or cannot be read counts as empty.
unfoldable pub load_metadata : Faults → FilePath → Disk → Metadata
unfolding read_file
load_metadata io path disk =
    if contains path disk then metadata_in (read_file io path disk) else empty_metadata

abbrev pub or_empty : Option (Dict Text Entry) → Dict Text Entry
or_empty none = []
or_empty (some messages) = messages

abbrev pub or_zero : Option ℕ → ℕ
or_zero none = 0
or_zero (some n) = n

abbrev pub or_false : Option Bool → Bool
or_false none = false
or_false (some b) = b

-- The loop of `list_messages`.
unfoldable pub visible : Dict Text Entry → List (Text × ℕ × Option Text)
visible [] = []
visible ((filename, meta) ∷ rest) =
    let later = visible rest in
    if or_false meta.deleted then later else (filename, or_zero meta.size, meta.uid) ∷ later

abbrev pub metadata_path : Text → FilePath
metadata_path username = (mailbox_dir username, metadata_name)

unfoldable pub list_messages : Faults → User → Disk → List (Text × ℕ × Option Text)
unfolding load_metadata visible
list_messages io user disk =
    visible (or_empty (load_metadata io (metadata_path user.username) disk).messages)

-- `open(path, "r")` reads CR LF and CR as LF.
unfoldable pub universal_newlines : Text → Text
universal_newlines [] = []
universal_newlines (c ∷ []) = (if c == cr then lf else c) ∷ []
universal_newlines (c ∷ d ∷ rest) =
    let pair = lf ∷ universal_newlines rest in
    let one = (if c == cr then lf else c) ∷ universal_newlines (d ∷ rest) in
    if c == cr then (if d == lf then pair else one) else one

-- A message file holds text; the text of a JSON file is not modelled.
abbrev text_in : Option Content → Option Text
text_in none = none
text_in (some (raw text)) = some (universal_newlines text)
text_in (some (users_json records)) = none
text_in (some (metadata_json metadata)) = none

unfoldable pub read_message : Faults → User → Text → Disk → Option Text
unfolding read_file universal_newlines
read_message io user filename disk =
    let path : FilePath = (user.mailbox_path, filename) in
    if contains path disk then text_in (read_file io path disk) else none

abbrev uid_in : Option Entry → Option Text
uid_in none = none
uid_in (some meta) = meta.uid

unfoldable pub get_uid : Faults → User → Text → Disk → Option Text
unfolding load_metadata
get_uid io user filename disk =
    let metadata = load_metadata io (user.mailbox_path, metadata_name) disk in
    uid_in (lookup filename (or_empty metadata.messages))
