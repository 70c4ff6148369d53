-- ===== src/Disk.antt =====
-- The part of the file system that the service uses: files below its database directory, and
-- calls that may raise. The file system, JSON and the clock are not part of the repository; JSON
-- is the structure that is dumped and loaded, so a `Content` is what a file decodes to.
pub mod Laws
use rdt_mail_service.Prelude.{
  ℕ, Bool, true, false, List, [], ◌∷◌, not, ◌&&◌, ◌==◌, nat_eq, ◌++◌, Option, none, some, Eq,
  pair_eq, Dict, lookup, insert, erase, if◌then◌else◌,
}
use rdt_mail_service.Prelude.Text.{Text, text_eq, codes}

-- A directory below `Config.DATABASE_PATH`, and a name in it.
abbrev pub FilePath : Type 0
FilePath = Text × Text

instance unfoldable pub path_eq : Eq FilePath
unfolding text_eq
path_eq = pair_eq ⦃e = text_eq⦄ ⦃f = text_eq⦄

-- The names for which a pair is just one file: what `os.path.join` adds as one component. Of other
-- names, such as `../x`, the pairs of this model are not the files that the program opens.
abbrev no_slash : Text → Bool
no_slash [] = true
no_slash (c ∷ name) = not (c == b'/') && no_slash name

unfoldable pub is_component : Text → Bool
unfolding text_eq
is_component name =
    no_slash name && not (name == []) && not (name == codes ".") && not (name == codes "..")

-- `Config.USER_DB_FILE`
abbrev pub user_db_file : FilePath
user_db_file = ([], codes "users.json")

-- `os.path.join(Config.MAILBOXES_DIR, username)` and `os.path.join(Config.TEMP_EMAILS_DIR, username)`
unfoldable pub mailbox_dir : Text → Text
mailbox_dir username = codes "mailboxes/" ++ username

unfoldable pub temp_dir : Text → Text
temp_dir username = codes "temp/" ++ username

-- `path + ".tmp"`
unfoldable pub tmp_of : FilePath → FilePath
tmp_of (dir, name) = (dir, name ++ codes ".tmp")

-- A record of users.json; a field that is missing or no string is `none`.
pub record UserRecord : Type 0 where
  pub username : Option Text
  pub password : Option Text

-- An entry of metadata.json; `none` where the key is missing.
pub record Entry : Type 0 where
  pub uid : Option Text
  pub size : Option ℕ
  pub deleted : Option Bool

-- The whole of metadata.json: its `messages`, by filename.
pub record Metadata : Type 0 where
  pub messages : Option (Dict Text Entry)

pub data Content : Type 0 where
  raw : Text → Content
  users_json : List UserRecord → Content
  metadata_json : Metadata → Content

abbrev pub Disk : Type 0
Disk = Dict FilePath Content

-- The calls that may raise, by the path that they work on.
pub data FileOp : Type 0 where
  reading writing replacing sizing making : FileOp

-- Which calls raise.
abbrev pub Faults : Type 0
Faults = FileOp → FilePath → Bool

-- `open(path, "w")` and the write: a call that raises has already emptied the file.
unfoldable pub write_file : Faults → FilePath → Content → Disk → Bool × Disk
write_file io path content disk =
    if io FileOp.writing path
    then (false, insert path (raw []) disk)
    else (true, insert path content disk)

abbrev pub move : FilePath → FilePath → Option Content → Disk → Bool × Disk
move source target none disk = (false, disk)
move source target (some content) disk = (true, insert target content (erase source disk))

-- `os.replace(source, target)`
unfoldable pub replace_file : Faults → FilePath → FilePath → Disk → Bool × Disk
replace_file io source target disk =
    if io FileOp.replacing target
    then (false, disk)
    else move source target (lookup source disk) disk

-- `open(path)` and the read; `none` if it raises.
unfoldable pub read_file : Faults → FilePath → Disk → Option Content
read_file io path disk = if io FileOp.reading path then none else lookup path disk

-- A write to `path + ".tmp"`, then the replacement of `path`; True if neither raises.
unfoldable pub atomic_write : Faults → FilePath → Content → Disk → Bool × Disk
unfolding write_file replace_file tmp_of
atomic_write io path content disk =
    let (written, disk') = write_file io (tmp_of path) content disk in
    if written then replace_file io (tmp_of path) path disk' else (false, disk')
