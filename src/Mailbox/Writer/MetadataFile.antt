-- ===== src/Mailbox/Writer/MetadataFile.antt =====
-- Reading and writing metadata.json in mailbox_writer.py.
use rdt_mail_service.Prelude.{
  ◌≡◌, ◌≢◌, refl, sym, ◌∙◌, not, ◌&&◌, some, arith, beq_refl, lookup, if◌then◌else◌,
}
use rdt_mail_service.Prelude.Text.{text_eq}
use rdt_mail_service.Disk.{Disk, FilePath, path_eq, metadata_json, Metadata, FileOp, Faults, tmp_of}
use rdt_mail_service.Disk.Laws.{lookup-atomic_write, atomic_write_result, tmp_differs}
use rdt_mail_service.Mailbox.Reader
use rdt_mail_service.Mailbox.Reader.{load_metadata}
use rdt_mail_service.Mailbox.Writer
use rdt_mail_service.Mailbox.Writer.{save_metadata}

-- The two loaders of the two files are the same.
pub loaders_agree :
    (io : Faults) (path : FilePath) (disk : Disk)
    → Writer.load_metadata io path disk ≡ Reader.load_metadata io path disk
unfolding Writer.load_metadata Reader.load_metadata
loaders_agree io path disk = refl

-- A save that fails changes nothing.
pub lookup-save_metadata :
    (io : Faults) (path : FilePath) (metadata : Metadata) (disk : Disk)
    → lookup path (save_metadata io path metadata disk) ≡ (
        if not (io FileOp.writing (tmp_of path)) && not (io FileOp.replacing path)
        then some (metadata_json metadata)
        else lookup path disk)
unfolding save_metadata
lookup-save_metadata io path metadata disk =
    lookup-atomic_write io path (metadata_json metadata) disk path (λ e. tmp_differs path (sym e))
    ∙ ground (
      arith,
      atomic_write_result io path (metadata_json metadata) disk,
      beq_refl {A = FilePath} path,
    )

pub lookup-save_metadata_other :
    (io : Faults) (path : FilePath) (metadata : Metadata) (disk : Disk) (other : FilePath)
    → other ≢ path
    → other ≢ tmp_of path
    → lookup other (save_metadata io path metadata disk) ≡ lookup other disk
unfolding save_metadata
lookup-save_metadata_other io path metadata disk other ne tmp =
    lookup-atomic_write io path (metadata_json metadata) disk other tmp
    ∙ ground (arith, path_eq.beq_iff path other)
