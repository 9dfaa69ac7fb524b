-- ===== src/Restore/Contents.antt =====
-- What restoreEntry of restore.go has written when it reports no error.
use dumbcas.Prelude.{ap, ℕ, Text, ◌==◌, if◌then◌else◌, ◌≡◌}
use dumbcas.Prelude.{refl, arith, none, some, inl, inr, Option-cases, Bool-cases}
use dumbcas.Prelude.{List, [], ◌∷◌, ◌++◌, length, length-append, All, All-append, eq_refl}
use dumbcas.Entry.{Entry, entry, Files, nil_map, made, Children, end, child}
use dumbcas.Table.{ok, Reader, CasTable, NodesTable, Codec, Result-cases, content}
use dumbcas.Common.{Tables}
use dumbcas.Restore.{restore, load_tree}
use dumbcas.Prelude.FilePath.{join, dir}
use dumbcas.Restore.{Disk, IsLawfulDisk, restore_file, write_file, restore_here, restore_entry}
use dumbcas.Restore.{restore_files, restore_children, copied}
use dumbcas.Restore.Safety.{restore_files_keeps, restore_children_keeps}

-- A file of a tree: its path below the root, its hash and its size.
pub record Placed : Type 0 where
  pub path : Text
  pub hash : Text
  pub size : ℕ

abbrev pub placed_here : Text → Text → ℕ → List Placed
placed_here root hash size =
    if hash == [] then [] else record { path = root; hash = hash; size = size } ∷ []

-- The files of a tree.
unfoldable mutual
  pub files_under : Entry → Text → List Placed
  files_under (entry h n fs) root = placed_here root h n ++ files_under_files fs root

  pub files_under_files : Files → Text → List Placed
  files_under_files nil_map root = []
  files_under_files (made cs) root = files_under_children cs root

  pub files_under_children : Children → Text → List Placed
  files_under_children end root = []
  files_under_children (child name e cs) root =
      files_under e (join root name) ++ files_under_children cs root

module _ (C : CasTable) (D : Disk) where
  -- The path holds the content of the object, and that has the size of the entry.
  abbrev pub IsRestored : C.State → D.State → Placed → Type 0
  IsRestored s d x =
      (bytes : Text) × (content C s x.hash ≡ some (ok bytes))
      × (length bytes ≡ x.size)
      × (D.file d x.path ≡ some bytes)

  All-keeps :
      (s : C.State) (d d' : D.State)
      → ((q b : Text) → D.file d q ≡ some b → D.file d' q ≡ some b)
      → (xs : List Placed) → All (IsRestored s d) xs
      → All (IsRestored s d') xs
  All-keeps s d d' k [] h = tt
  All-keeps s d d' k (x ∷ xs) ((bytes, c, n, f), rest) =
      ((bytes, c, n, k x.path bytes f), All-keeps s d d' k xs rest)

module _ (C : CasTable) (D : Disk) (L : IsLawfulDisk D) where
  write_file-restores :
      (d : D.State) (f : Reader) (size : ℕ) (root : Text)
      → (write_file C D d f size root).0 ≡ none
      → (bytes : Text) × (f ≡ ok bytes)
        × (length bytes ≡ size)
        × (D.file (write_file C D d f size root).1 root ≡ some bytes)
  unfolding write_file copied
  write_file-restores d f size root h =
      let d1 = (D.mkdir_all d (dir root)).1 in
      let d2 = (D.create d1 root).1 in
      elim (Option-cases (D.create d1 root).0) [
        | inl e ↦ elim (Option-cases (D.copy d2 root f).0) [
          | inl c ↦
              let whole =
                L.file-copy d2 root f (ground (arith, L.file-create d1 root root e, eq_refl root))
                  c in
              (whole.0, whole.1, ground (arith, whole), ground (arith, whole))
          | inr (why, c) ↦ absurd (ground arith)
        ]
        | inr (why, e) ↦ absurd (ground arith)
      ]

  restore_here-restores :
      (s : C.State) (d : D.State) (hash : Text) (size : ℕ) (root : Text)
      → (restore_here C D s d hash size root).0 ≡ none
      → All (IsRestored C D s (restore_here C D s d hash size root).2) (placed_here root hash size)
        × ((restore_here C D s d hash size root).1 ≡ length (placed_here root hash size))
  unfolding restore_here restore_file
  restore_here-restores s d hash size root h = elim (Bool-cases (hash == [])) [
    | inl e ↦ rw (e, restore_here) (tt, refl)
    | inr e ↦ elim (Result-cases (C.open_item s hash)) [
      | inl (f, o) ↦
          let n : (write_file C D d f size root).0 ≡ none = ground arith in
          let w = write_file-restores d f size root n in
          rw (e, restore_here)
            (rw (o, restore_file)
              (rw n
                (((w.0, ground (arith, w.1), ground (arith, w.2), ground (arith, w.3)), tt), refl)))
      | inr (why, o) ↦ absurd (ground arith)
    ]
  ]

  mutual
    unfolding restore_entry files_under

    entry-IsRestored :
        (e : Entry) (s : C.State) (d : D.State) (root : Text)
        → (restore_entry C D e s d root).0 ≡ none
        → All (IsRestored C D s (restore_entry C D e s d root).2) (files_under e root)
          × ((restore_entry C D e s d root).1 ≡ length (files_under e root))
    entry-IsRestored (entry h n fs) s d root none_seen =
        let here = restore_here C D s d h n root in
        let below = restore_files C D fs s here.2 root in
        let now = restore_here-restores s d h n root (ground arith) in
        let later = files-IsRestored fs s here.2 root (ground arith) in
        (
          All-append (IsRestored C D s below.2) (placed_here root h n) (files_under_files fs root)
              (All-keeps C D s here.2 below.2
                (λ q b. restore_files_keeps C D L fs s here.2 root q b) (placed_here root h n)
                now.0)
              later.0,
          ground (
            arith,
            now.1,
            later.1,
            length-append (placed_here root h n) (files_under_files fs root),
          ),
        )

    files-IsRestored :
        (fs : Files) (s : C.State) (d : D.State) (root : Text)
        → (restore_files C D fs s d root).0 ≡ none
        → All (IsRestored C D s (restore_files C D fs s d root).2) (files_under_files fs root)
          × ((restore_files C D fs s d root).1 ≡ length (files_under_files fs root))
    files-IsRestored nil_map s d root h = (tt, refl)
    files-IsRestored (made cs) s d root h = children-IsRestored cs s d root h

    children-IsRestored :
        (cs : Children) (s : C.State) (d : D.State) (root : Text)
        → (restore_children C D cs s d root).0 ≡ none
        → All (IsRestored C D s (restore_children C D cs s d root).2) (files_under_children cs root)
          × ((restore_children C D cs s d root).1 ≡ length (files_under_children cs root))
    children-IsRestored end s d root h = (tt, refl)
    children-IsRestored (child name e cs) s d root h =
        let here = restore_entry C D e s d (join root name) in
        let below = restore_children C D cs s here.2 root in
        let now = entry-IsRestored e s d (join root name) (ground arith) in
        let later = children-IsRestored cs s here.2 root (ground arith) in
        (
          All-append (IsRestored C D s below.2) (files_under e (join root name))
              (files_under_children cs root)
              (All-keeps C D s here.2 below.2
                (λ q b. restore_children_keeps C D L cs s here.2 root q b)
                (files_under e (join root name)) now.0)
              later.0,
          ground (
            arith,
            now.1,
            later.1,
            length-append (files_under e (join root name)) (files_under_children cs root),
          ),
        )

  -- A restore that reports no error has written, at its path, every file of the tree: the content of
  -- the object that the entry names, of the size that the entry gives; and it has counted them all.
  pub restore_entry-ok :
      (e : Entry) (s : C.State) (d : D.State) (root : Text)
      → (restore_entry C D e s d root).0 ≡ none
      → All (IsRestored C D s (restore_entry C D e s d root).2) (files_under e root)
        × ((restore_entry C D e s d root).1 ≡ length (files_under e root))
  restore_entry-ok e s d root h = entry-IsRestored e s d root h

-- Over a lawful disk, a restore that reports no error has loaded the tree that its argument names
-- and has written every file of it, with the content of its object and the size of its entry, at
-- its path; the count printed is the number of its files.
pub restore-ok :
    (C : CasTable) (N : NodesTable) (codec : Codec) (D : Disk)
    → IsLawfulDisk D
    → (t : Tables C N) (d : D.State) (name out : Text)
    → (restore C N codec D t d name out).error ≡ none
    → (e : Entry) × ((load_tree C N codec t name).0 ≡ ok e)
      × All
          (IsRestored C D (load_tree C N codec t name).1 (restore C N codec D t d name out).disk)
          (files_under e out)
      × ((restore C N codec D t d name out).count ≡ some (length (files_under e out)))
unfolding restore
restore-ok C N codec D L t d name out h =
    let (r, s) = load_tree C N codec t name in
    elim (Result-cases r) [
      | inr (why, e) ↦ absurd (ground arith)
      | inl (tree, e) ↦
          let done = restore_entry-ok C D L tree s d out (ground arith) in
          (tree, e, rw e done.0, rw e (ap some done.1))
    ]
