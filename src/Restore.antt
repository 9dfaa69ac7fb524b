-- ===== src/Restore.antt =====
-- The command of restore.go, over a disk that the program only calls, and the loading of a node that
-- it shares with info.go.
pub mod Archived
pub mod Safety
pub mod Contents
use dumbcas.Prelude.{ℕ, ◌+◌, Text, ◌==◌, Bool, true, false, eqb, if◌then◌else◌, ◌≡◌, []}
use dumbcas.Prelude.{Option, none, some, length}
use dumbcas.Prelude.FilePath.{join, dir}
use dumbcas.Entry.{Entry, entry, Files, nil_map, made, Children, end, child}
use dumbcas.Table.{
  Error, exist, not_exist, invalid, closed_twice, io, failed, Result, ok, err, Reader, Codec,
  CasTable, NodesTable, Node,
}
use dumbcas.Nodes.{load_reader_as_json, load_entry}
use dumbcas.Common.{Application, Tables, parse}

-- The calls that write files: os.MkdirAll, os.OpenFile with O_CREATE and O_EXCL, and io.Copy to the
-- file opened, with the number of bytes that it wrote. `file` is what a file holds, if there is one.
pub record Disk : Type 1 where
  pub State : Type 0
  pub file : State → Text → Option Text
  pub mkdir_all : State → Text → Option Error × State
  pub create : State → Text → Option Error × State
  pub copy : State → Text → Reader → Option Error × ℕ × State

pub record IsLawfulDisk (D : Disk) : Type 0 where
  pub file-mkdir_all : (d : D.State) (p q : Text) → D.file (D.mkdir_all d p).1 q ≡ D.file d q
  -- A file that exists is not opened; otherwise the new file is empty.
  pub create_new : (d : D.State) (p : Text) → (D.create d p).0 ≡ none → D.file d p ≡ none
  pub file-create :
      (d : D.State) (p q : Text)
      → (D.create d p).0 ≡ none
      → D.file (D.create d p).1 q ≡ (if p == q then some [] else D.file d q)
  pub file-create_failed :
      (d : D.State) (p q : Text) (e : Error)
      → (D.create d p).0 ≡ some e
      → D.file (D.create d p).1 q ≡ D.file d q
  -- A copy without an error to an empty file wrote all that was read.
  pub file-copy :
      (d : D.State) (p : Text) (r : Reader)
      → D.file d p ≡ some []
      → (D.copy d p r).0 ≡ none
      → (bytes : Text) × (r ≡ ok bytes)
        × (D.file (D.copy d p r).2 p ≡ some bytes)
        × ((D.copy d p r).1 ≡ length bytes)
  pub file-copy_other :
      (d : D.State) (p q : Text) (r : Reader)
      → (p == q) ≡ false
      → D.file (D.copy d p r).2 q ≡ D.file d q

-- err != nil && !os.IsExist(err)
abbrev pub blocks : Option Error → Bool
blocks none = false
blocks (some exist) = false
blocks (some not_exist) = true
blocks (some invalid) = true
blocks (some closed_twice) = true
blocks (some io) = true
blocks (some (failed format name)) = true

-- The first error seen.
abbrev pub first : Option Error → Option Error → Option Error
first none e = e
first (some d) e = some d

module _ (C : CasTable) (D : Disk) where
  copied : ℕ → Text → Option Error × ℕ × D.State → Option Error × D.State
  copied size root (some e, n, d) = (some (failed "Failed to copy %s: %s" root), d)
  copied size root (none, n, d) =
      if eqb n size
      then (none, d)
      else (some (failed "Failed to write %s, expected %d, wrote %d" root), d)

  write_file : D.State → Reader → ℕ → Text → Option Error × D.State
  write_file d f size root =
      let (e, d1) = D.mkdir_all d (dir root) in
      let (e', d2) = D.create d1 root in
      elim (blocks e) [
        | true ↦ (some (failed "Failed to create %s: %s" (dir root)), d1)
        | false ↦ elim e' [
          | some why ↦ (some (failed "Failed to create %s in %s: %s" root), d2)
          | none ↦ copied size root (D.copy d2 root f)
        ]
      ]

  -- The first part of restoreEntry, for an entry with a hash.
  unfoldable pub restore_file : C.State → D.State → Text → ℕ → Text → Option Error × D.State
  unfolding copied write_file
  restore_file s d hash size root = elim (C.open_item s hash) [
    | err e ↦ (some (failed "Failed to fetch %s for %s: %s" hash), d)
    | ok f ↦ write_file d f size root
  ]

  restore_here : C.State → D.State → Text → ℕ → Text → Option Error × ℕ × D.State
  restore_here s d hash size root =
      let (e, d') = restore_file s d hash size root in
      if hash == []
      then (none, 0, d)
      else (elim e [ none ↦ (none, 1, d') | some why ↦ (some why, 0, d') ])

  -- restoreEntry: the first error, the number of files restored, and the disk.
  unfoldable mutual
    unfolding restore_here

    pub restore_entry : Entry → C.State → D.State → Text → Option Error × ℕ × D.State
    restore_entry (entry h n fs) s d root =
        let (e, c, d') = restore_here s d h n root in
        let (e', c', d'') = restore_files fs s d' root in (first e e', c + c', d'')

    pub restore_files : Files → C.State → D.State → Text → Option Error × ℕ × D.State
    restore_files nil_map s d root = (none, 0, d)
    restore_files (made cs) s d root = restore_children cs s d root

    pub restore_children : Children → C.State → D.State → Text → Option Error × ℕ × D.State
    restore_children end s d root = (none, 0, d)
    restore_children (child name e cs) s d root =
        let (x, c, d') = restore_entry e s d (join root name) in
        let (y, c', d'') = restore_children cs s d' root in (first x y, c + c', d'')

module _ (C : CasTable) (N : NodesTable) (codec : Codec) where
  tree_of_node : Tables C N → Result Node → Result Entry × C.State
  tree_of_node t (ok node) = load_entry C codec t.cas node.entry_name
  tree_of_node t (err e) = (err e, t.cas)

  tree_of_file : Tables C N → Result Reader → Result Entry × C.State
  tree_of_file t (ok f) = tree_of_node t (load_reader_as_json codec.decode_node f)
  tree_of_file t (err e) = (err e, t.cas)

  -- How restore and info load the tree that their argument names.
  unfoldable pub load_tree : Tables C N → Text → Result Entry × C.State
  unfolding tree_of_file tree_of_node
  load_tree t name = tree_of_file t (N.open_item t.nodes name)

  module _ (D : Disk) where
    -- The error, the count that is printed, and the table and the disk.
    pub record Outcome : Type 0 where
      pub error : Option Error
      pub count : Option ℕ
      pub cas : C.State
      pub disk : D.State

    restore_loaded : D.State → Text → Result Entry → C.State → Outcome
    restore_loaded d out (err e) s = record { error = some e; count = none; cas = s; disk = d }
    restore_loaded d out (ok e) s =
        let (x, c, d') = restore_entry C D e s d out in
        record { error = x; count = some c; cas = s; disk = d' }

    -- main after Parse.
    unfoldable pub restore : Tables C N → D.State → Text → Text → Outcome
    unfolding restore_loaded
    restore t d name out = let (r, s) = load_tree t name in restore_loaded d out r s

    unfoldable pub restore_main : Application C N → Text → D.State → Text → Text → Result Outcome
    restore_main app root d name out = elim (parse C N app root true) [
      | err e ↦ err e
      | ok t ↦ ok (restore t d name out)
    ]
