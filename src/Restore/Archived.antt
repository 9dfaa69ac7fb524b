-- ===== src/Restore/Archived.antt =====
-- restore.go after archive.go: the files come back.
use mathlib.Core.Path.{subst}
use dumbcas.Prelude.{
  Text, ◌==◌, false, ◌≡◌, refl, ℕ, length, List, [], ◌∷◌, ◌++◌, none, some, All, arith, inl, inr,
  Option-cases, Bool-cases, eq→path,
}
use dumbcas.Prelude.FilePath.{split, join}
use dumbcas.Entry.{
  Entry, entry, Files, nil_map, made, Children, end, child, find_child, empty_entry,
}
use dumbcas.Entry.Paths.{ItemToArchive, walk}
use dumbcas.Table.{Result, ok, Reader, Codec, CasTable, NodesTable}
use dumbcas.Common.{Tables}
use dumbcas.Archive.{archive_items}
use dumbcas.Archive.Counters.{Stats}
use dumbcas.Archive.Objects.{IsAddressed}
use dumbcas.Archive.Trees.{Spares, walk-archive_items}
use dumbcas.Restore.{Disk, IsLawfulDisk, restore, load_tree}
use dumbcas.Restore.Contents.{
  Placed, placed_here, files_under, files_under_files, files_under_children, IsRestored, restore-ok,
}

-- The path at which restoreEntry writes the file that a path of a tree leads to.
unfoldable pub path_under : Text → List Text → Text
path_under root [] = root
path_under root (p ∷ ps) = path_under (join root p) ps

module _ (P : Placed → Type 0) where
  All-right : (xs ys : List Placed) → All P (xs ++ ys) → All P ys
  All-right [] ys a = a
  All-right (x ∷ xs) ys (h, a) = All-right xs ys a

  All-left : (xs ys : List Placed) → All P (xs ++ ys) → All P xs
  All-left [] ys a = tt
  All-left (x ∷ xs) ys (h, a) = (h, All-left xs ys a)

  All-children :
      (p : Text) (cs : Children) (e : Entry) (root : Text)
      → find_child p cs ≡ some e
      → All P (files_under_children cs root)
      → All P (files_under e (join root p))
  unfolding find_child files_under files_under_children
  All-children p end e root f a = cc
  All-children p (child q g cs) e root f a = elim (Bool-cases (q == p)) [
    | inl same ↦
        let name : q ≡ p = eq→path q p same in
        let tree : g ≡ e = ground (arith, f, same) in
        subst (λ n. All P (files_under e (join root n))) name
          (subst (λ x. All P (files_under x (join root q))) tree
            (All-left (files_under g (join root q)) (files_under_children cs root) a))
    | inr other ↦
        All-children p cs e root (ground (arith, f, other))
          (All-right (files_under g (join root q)) (files_under_children cs root) a)
  ]

  All-walk :
      (ps : List Text) (e : Entry) (root h : Text) (n : ℕ) (fs : Files)
      → walk ps e ≡ some (entry h n fs)
      → (h == []) ≡ false
      → All P (files_under e root)
      → P (record { path = path_under root ps; hash = h; size = n })
  unfolding walk path_under files_under files_under_files
  All-walk [] e root h n fs w named a =
      let tree : e ≡ entry h n fs = cc in
      let here : All P (files_under (entry h n fs) root) =
        subst (λ x. All P (files_under x root)) tree a in
      let own : placed_here root h n ≡ record { path = root; hash = h; size = n } ∷ [] =
        rw named refl in
      (subst (All P) own (All-left (placed_here root h n) (files_under_files fs root) here)).0
  All-walk (p ∷ ps) (entry g m nil_map) root h n fs w named a = cc
  All-walk (p ∷ ps) (entry g m (made cs)) root h n fs w named a =
      elim (Option-cases (find_child p cs)) [
        | inl absent ↦ let no : none ≡ some (entry h n fs) = ground (arith, w, absent) in cc
        | inr (f, present) ↦ All-walk ps f (join root p) h n fs (ground (arith, w, present)) named (
            All-children p cs f root present
              (All-right (placed_here root g m) (files_under_children cs root) a))
      ]

-- A restore, over a lawful disk, that reports no error and loads a tree that archiveInputs made
-- writes every archived file with a hash, where no later file lies at its path or below it: in the
-- output directory, under the elements of its relative path, there is a content with the hash and
-- the size that it was archived with, if every object is stored under the sha-1 of its content.
pub restore-archive_items :
    (C : CasTable) (N : NodesTable) (codec : Codec) (D : Disk) (opened : Text → Result Reader)
    (before after : List ItemToArchive) (file : ItemToArchive) (c : C.State) (s : Stats)
    (t : Tables C N) (d : D.State) (name out : Text)
    → IsLawfulDisk D
    → All (Spares (split file.rel_path)) after
    → (file.sha1 == []) ≡ false
    → (load_tree C N codec t name).0
      ≡ ok (archive_items C opened (before ++ file ∷ after) empty_entry c s).0
    → IsAddressed C codec (load_tree C N codec t name).1
    → (restore C N codec D t d name out).error ≡ none
    → (bytes : Text) × (codec.sha1 bytes ≡ file.sha1)
      × (length bytes ≡ file.size)
      × (D.file (restore C N codec D t d name out).disk (path_under out (split file.rel_path))
          ≡ some bytes)
restore-archive_items C N codec D opened before after file c s t d name out L spared named loaded
      addressed h =
    let root = (archive_items C opened (before ++ file ∷ after) empty_entry c s).0 in
    let (fs, at) = walk-archive_items C opened before after file empty_entry c s spared in
    let (e, same, all, count) = restore-ok C N codec D L t d name out h in
    let tree : e ≡ root = ground (arith, same, loaded) in
    let done =
      IsRestored C D (load_tree C N codec t name).1 (restore C N codec D t d name out).disk in
    let (bytes, stored, size, written) =
      All-walk done (split file.rel_path) root out file.sha1 file.size fs at named
        (subst (λ x. All done (files_under x out)) tree all) in
    (bytes, addressed file.sha1 bytes stored, size, written)
