-- ===== src/Disk/Laws.antt =====
-- A file that is replaced atomically holds its old content or its new one, whatever raises.
use rdt_mail_service.Prelude.{
  ◌≡◌, ◌≢◌, ◌&&◌, sym, ap, inl, inr, true, false, not, [], some, arith, length, length-append, ◌==◌,
  beq_refl, lookup, insert, erase, lookup-insert, lookup-erase, Bool-cases, Option-cases,
  if◌then◌else◌,
}
use rdt_mail_service.Prelude.Text.{codes}
use rdt_mail_service.Disk.{
  FilePath, path_eq, tmp_of, Content, raw, Disk, FileOp, Faults, write_file, replace_file,
  atomic_write,
}

pub tmp_differs : (path : FilePath) → tmp_of path ≢ path
unfolding tmp_of
tmp_differs (dir, name) e =
    omega (arith, length-append {0} name (codes ".tmp"), ap (λ (p : FilePath). length p.1) e)

-- A write, done or failed, touches its own file only.
pub lookup-write_file :
    (io : Faults) (path other : FilePath) (content : Content) (disk : Disk)
    → other ≢ path
    → lookup other (write_file io path content disk).1 ≡ lookup other disk
unfolding write_file
lookup-write_file io path other content disk ne = ground (
  arith,
  path_eq.beq_iff path other,
  lookup-insert path other (raw []) disk,
  lookup-insert path other content disk,
)

-- A move touches its two files only.
pub lookup-replace_file :
    (io : Faults) (source target other : FilePath) (disk : Disk)
    → other ≢ source
    → other ≢ target
    → lookup other (replace_file io source target disk).1 ≡ lookup other disk
unfolding replace_file
lookup-replace_file io source target other disk s t = elim (Option-cases (lookup source disk)) [
  | inl missing ↦ ground (arith, missing)
  | inr (content, found) ↦ ground (
    arith,
    found,
    path_eq.beq_iff source other,
    path_eq.beq_iff target other,
    lookup-insert target other content (erase source disk),
    lookup-erase source other disk,
  )
]

module _ (io : Faults) (path : FilePath) (content : Content) (disk : Disk) where
  atomic_write_unwritten :
      io FileOp.writing (tmp_of path) ≡ true
      → atomic_write io path content disk ≡ (false, insert (tmp_of path) (raw []) disk)
  unfolding atomic_write
  atomic_write_unwritten h = rw h

  atomic_write_unmoved :
      io FileOp.writing (tmp_of path) ≡ false
      → io FileOp.replacing path ≡ true
      → atomic_write io path content disk ≡ (false, insert (tmp_of path) content disk)
  unfolding atomic_write
  atomic_write_unmoved h k = rw (h, k)

  -- If nothing raises the file has the new content.
  pub atomic_write_done :
      io FileOp.writing (tmp_of path) ≡ false
      → io FileOp.replacing path ≡ false
      → atomic_write io path content disk
        ≡ (true, insert path content (erase (tmp_of path) (insert (tmp_of path) content disk)))
  unfolding atomic_write
  atomic_write_done h k = rw (
    h,
    k,
    lookup-insert (tmp_of path) (tmp_of path) content disk,
    beq_refl {A = FilePath} (tmp_of path),
  )

  -- It succeeds exactly if neither the write nor the replacement raises.
  pub atomic_write_result :
      (atomic_write io path content disk).0
      ≡ (not (io FileOp.writing (tmp_of path)) && not (io FileOp.replacing path))
  atomic_write_result = elim (Bool-cases (io FileOp.writing (tmp_of path))) [
    | inl fault ↦ rw (atomic_write_unwritten fault, fault)
    | inr written ↦ elim (Bool-cases (io FileOp.replacing path)) [
      | inl fault ↦ rw (atomic_write_unmoved written fault, written, fault)
      | inr moved ↦ rw (atomic_write_done written moved, written, moved)
    ]
  ]

  module _ (other : FilePath) (ne : other ≢ tmp_of path) where
    tmp_ne : (tmp_of path == other) ≡ false
    tmp_ne = elim (Bool-cases (tmp_of path == other)) [
      | inl same ↦ absurd (ne (sym ((path_eq.beq_iff (tmp_of path) other).0 same)))
      | inr differs ↦ differs
    ]

    -- The report is the truth: the file has the new content, or it is unchanged; and no other file
    -- is touched but the temporary one.
    pub lookup-atomic_write : lookup other (atomic_write io path content disk).1 ≡ (
        if (atomic_write io path content disk).0 && (path == other)
        then some content
        else lookup other disk)
    lookup-atomic_write = elim (Bool-cases (io FileOp.writing (tmp_of path))) [
      | inl fault ↦
          rw (atomic_write_unwritten fault, lookup-insert (tmp_of path) other (raw []) disk, tmp_ne)
      | inr written ↦ elim (Bool-cases (io FileOp.replacing path)) [
        | inl fault ↦ rw (
          atomic_write_unmoved written fault,
          lookup-insert (tmp_of path) other content disk,
          tmp_ne,
        )
        | inr moved ↦ rw (
          atomic_write_done written moved,
          lookup-insert path other content
              (erase (tmp_of path) (insert (tmp_of path) content disk)),
          lookup-erase (tmp_of path) other (insert (tmp_of path) content disk),
          lookup-insert (tmp_of path) other content disk,
          tmp_ne,
        )
      ]
    ]
