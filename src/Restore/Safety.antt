-- ===== src/Restore/Safety.antt =====
-- restoreEntry of restore.go never changes a file that is there.
use dumbcas.Prelude.{ℕ, Text, eq_iff, ◌≡◌}
use dumbcas.Prelude.{arith, some, inl, inr, Option-cases}
use dumbcas.Entry.{Entry, entry, Files, nil_map, made, Children, end, child}
use dumbcas.Table.{Reader, CasTable, Result-cases}
use dumbcas.Prelude.FilePath.{join, dir}
use dumbcas.Restore.{Disk, IsLawfulDisk, restore_file, write_file, restore_here, restore_entry}
use dumbcas.Restore.{restore_files, restore_children, copied}

module _ (C : CasTable) (D : Disk) (L : IsLawfulDisk D) where
  write_file_keeps :
      (d : D.State) (f : Reader) (size : ℕ) (root : Text) (q : Text) (b : Text)
      → D.file d q ≡ some b
      → D.file (write_file C D d f size root).1 q ≡ some b
  unfolding write_file copied
  write_file_keeps d f size root q b h =
      elim (Option-cases (D.create (D.mkdir_all d (dir root)).1 root).0) [
        | inl e ↦ ground (
          arith,
          eq_iff root q,
          L.file-mkdir_all d (dir root) q,
          L.create_new (D.mkdir_all d (dir root)).1 root e,
          L.file-create (D.mkdir_all d (dir root)).1 root q e,
          L.file-copy_other (D.create (D.mkdir_all d (dir root)).1 root).1 root q f,
        )
        | inr (why, e) ↦ ground (
          arith,
          L.file-mkdir_all d (dir root) q,
          L.file-create_failed (D.mkdir_all d (dir root)).1 root q why e,
        )
      ]

  restore_here_keeps :
      (s : C.State) (d : D.State) (hash : Text) (size : ℕ) (root q : Text) (b : Text)
      → D.file d q ≡ some b
      → D.file (restore_here C D s d hash size root).2 q ≡ some b
  unfolding restore_here restore_file
  restore_here_keeps s d hash size root q b h = elim (Result-cases (C.open_item s hash)) [
    | inl (f, e) ↦ ground (arith, write_file_keeps d f size root q b h)
    | inr (why, e) ↦ ground arith
  ]

  mutual
    unfolding restore_entry

    entry_keeps :
        (e : Entry) (s : C.State) (d : D.State) (root q b : Text)
        → D.file d q ≡ some b
        → D.file (restore_entry C D e s d root).2 q ≡ some b
    entry_keeps (entry h n fs) s d root q b k =
        files_keeps fs s (restore_here C D s d h n root).2 root q b
          (restore_here_keeps s d h n root q b k)

    files_keeps :
        (fs : Files) (s : C.State) (d : D.State) (root q b : Text)
        → D.file d q ≡ some b
        → D.file (restore_files C D fs s d root).2 q ≡ some b
    files_keeps nil_map s d root q b k = k
    files_keeps (made cs) s d root q b k = children_keeps cs s d root q b k

    children_keeps :
        (cs : Children) (s : C.State) (d : D.State) (root q b : Text)
        → D.file d q ≡ some b
        → D.file (restore_children C D cs s d root).2 q ≡ some b
    children_keeps end s d root q b k = k
    children_keeps (child name e cs) s d root q b k =
        children_keeps cs s (restore_entry C D e s d (join root name)).2 root q b
          (entry_keeps e s d (join root name) q b k)

  -- Whatever the outcome of a restore over a lawful disk, a file that was there before has the same
  -- content after it.
  pub restore_entry_keeps :
      (e : Entry) (s : C.State) (d : D.State) (root path bytes : Text)
      → D.file d path ≡ some bytes
      → D.file (restore_entry C D e s d root).2 path ≡ some bytes
  restore_entry_keeps e s d root path bytes k = entry_keeps e s d root path bytes k

  pub restore_children_keeps :
      (cs : Children) (s : C.State) (d : D.State) (root path bytes : Text)
      → D.file d path ≡ some bytes
      → D.file (restore_children C D cs s d root).2 path ≡ some bytes
  restore_children_keeps cs s d root path bytes k = children_keeps cs s d root path bytes k

  pub restore_files_keeps :
      (fs : Files) (s : C.State) (d : D.State) (root path bytes : Text)
      → D.file d path ≡ some bytes
      → D.file (restore_files C D fs s d root).2 path ≡ some bytes
  restore_files_keeps fs s d root path bytes k = files_keeps fs s d root path bytes k
