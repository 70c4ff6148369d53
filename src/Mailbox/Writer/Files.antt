-- ===== src/Mailbox/Writer/Files.antt =====
-- Which files the calls of mailbox_writer.py touch.
use rdt_mail_service.Prelude.{
  ℕ, ◌≡◌, ◌≢◌, refl, ap, true, not, ◌&&◌, [], ◌∷◌, ◌++◌, some, arith, beq_refl, lookup, insert,
  erase, lookup-insert,
}
use rdt_mail_service.Prelude.Text.{Text, text_eq, codes}
use rdt_mail_service.Disk.{
  Disk, FilePath, path_eq, raw, FileOp, Faults, write_file, replace_file, mailbox_dir, temp_dir,
}
use rdt_mail_service.Disk.Laws.{lookup-write_file, lookup-replace_file}
use rdt_mail_service.Auth.User.{User}
use rdt_mail_service.Mailbox.Reader.{metadata_name}
use rdt_mail_service.Mailbox.Writer.{stage_email, filename_of}

append_cancel : (p a b : Text) → p ++ a ≡ p ++ b → a ≡ b
append_cancel [] a b e = e
append_cancel (c ∷ p) a b e =
    append_cancel p a b (ap (λ (t : Text). elim t [ [] ↦ [] | x ∷ xs ↦ xs ]) e)

pub mailbox_dir_inj : (a b : Text) → mailbox_dir a ≡ mailbox_dir b → a ≡ b
unfolding mailbox_dir
mailbox_dir_inj a b e = append_cancel (codes "mailboxes/") a b e

pub temp_dir-ne : (a b : Text) → temp_dir a ≢ mailbox_dir b
unfolding temp_dir mailbox_dir
temp_dir-ne a b e =
    absurd (omega (arith, ap {B = ℕ} (λ (t : Text). elim t [ [] ↦ 0 | c ∷ s ↦ c ]) e))

abbrev last_code : Text → ℕ
last_code [] = 0
last_code (c ∷ []) = c
last_code (c ∷ d ∷ s) = last_code (d ∷ s)

last_code-append : (s : Text) (c : ℕ) (t : Text) → last_code (s ++ c ∷ t) ≡ last_code (c ∷ t)
last_code-append [] c t = refl
last_code-append (d ∷ []) c t = refl
last_code-append (d ∷ e ∷ s) c t = last_code-append (e ∷ s) c t

-- A message is no metadata.json, and no temporary file of one.
pub filename_of-ne : (stamp : Text) → filename_of stamp ≢ metadata_name
filename_of-ne stamp e =
    absurd (omega (arith, ap last_code e, last_code-append stamp b'.' (codes "msg")))

pub filename_of-tmp : (stamp : Text) → filename_of stamp ≢ metadata_name ++ codes ".tmp"
filename_of-tmp stamp e =
    absurd (omega (arith, ap last_code e, last_code-append stamp b'.' (codes "msg")))

module _ (io : Faults) (user : User) (filename raw_email : Text) (disk : Disk) where
  abbrev pub temp_path : FilePath
  temp_path = (temp_dir user.username, filename)

  abbrev pub final_path : FilePath
  final_path = (mailbox_dir user.username, filename)

  pub paths_differ : temp_path ≢ final_path
  paths_differ e = temp_dir-ne user.username user.username (ap (λ (p : FilePath). p.0) e)

  -- The message is in its place exactly if neither the write nor the move raises.
  pub stage_email_result :
      (stage_email io user filename raw_email disk).0
      ≡ (not (io FileOp.writing temp_path) && not (io FileOp.replacing final_path))
  unfolding stage_email write_file replace_file
  stage_email_result = ground (
    arith,
    lookup-insert temp_path temp_path (raw raw_email) disk,
    beq_refl {A = FilePath} temp_path,
  )

  pub stage_email_done :
      (stage_email io user filename raw_email disk).0 ≡ true
      → lookup final_path (stage_email io user filename raw_email disk).1 ≡ some (raw raw_email)
  unfolding stage_email write_file replace_file
  stage_email_done h = ground (
    arith,
    lookup-insert temp_path temp_path (raw raw_email) disk,
    beq_refl {A = FilePath} temp_path,
    beq_refl {A = FilePath} final_path,
    lookup-insert final_path final_path (raw raw_email)
        (erase temp_path (insert temp_path (raw raw_email) disk)),
  )

  -- A write and a move touch the two files only.
  pub lookup-stage_email_other :
      (other : FilePath)
      → other ≢ temp_path
      → other ≢ final_path
      → lookup other (stage_email io user filename raw_email disk).1 ≡ lookup other disk
  unfolding stage_email
  lookup-stage_email_other other t f =
      let (written, disk') = write_file io temp_path (raw raw_email) disk in
      ground (
        arith,
        lookup-write_file io temp_path other (raw raw_email) disk t,
        lookup-replace_file io temp_path final_path other disk' t f,
      )
