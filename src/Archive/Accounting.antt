-- ===== src/Archive/Accounting.antt =====
-- Every file that is found is counted once at each stage of the pipeline of archive.go.
use dumbcas.Prelude.{ℕ, ◌+◌, ◌≤◌, Text, if◌then◌else◌, List, [], ◌∷◌}
use dumbcas.Prelude.{Option, none, some, length, length-append, ◌≡◌, arith}
use dumbcas.Prelude.{inl, inr}
use dumbcas.Entry.{Entry, empty_entry}
use dumbcas.Entry.Paths.{ItemToArchive, make_entry}
use dumbcas.Table.{Error, exist, Result, ok, err, Reader}
use dumbcas.Table.{Codec, CasTable, Result-cases}
use dumbcas.Cas.{add_bytes}
use dumbcas.Cache.{EntryCache}
use dumbcas.Archive.Counters.{Stats, zero_stats, count_error, count_found}
use dumbcas.Archive.{TreeItem, tree_error, tree_item, Input, InputItem, enumerate_tree}
use dumbcas.Archive.{enumerate_input, enumerate_inputs, hash_item, hash_inputs, count_added}
use dumbcas.Archive.{archive_item, archive_items, archive_entry, archive_inputs, Source}
use dumbcas.Archive.{archive_all}

-- How many errors an enumeration meets.
abbrev tree_failures : List TreeItem → ℕ
tree_failures [] = 0
tree_failures (tree_error e ∷ ts) = 1 + tree_failures ts
tree_failures (tree_item full i ∷ ts) = tree_failures ts

abbrev input_failures : Input → ℕ
input_failures input = elim input.stat [
  | err e ↦ 1
  | ok i ↦ if i.is_directory then tree_failures input.tree else 0
]

abbrev pub failures : List Input → ℕ
failures [] = 0
failures (input ∷ inputs) = input_failures input + failures inputs

abbrev processed : Stats → ℕ
processed s = s.nb_archived + s.nb_not_archived + s.errors

-- A stage that finds files.
abbrev Found : Stats → Stats → ℕ → ℕ → Type 0
Found s s' n f =
    (s'.found ≡ s.found + n)
    × (s'.errors ≡ s.errors + f)
    × (s'.nb_archived ≡ s.nb_archived)
    × (s'.nb_not_archived ≡ s.nb_not_archived)
    × (s'.nb_hashed ≡ s.nb_hashed)
    × (s'.nb_not_hashed ≡ s.nb_not_hashed)

enumerate_tree-Found :
    (input : Text) (ts : List TreeItem) (s : Stats)
    → Found s
        (enumerate_tree input ts s).1
        (length (enumerate_tree input ts s).0)
        (tree_failures ts)
unfolding enumerate_tree
enumerate_tree-Found input [] s = ground arith
enumerate_tree-Found input (tree_error e ∷ ts) s =
    ground (arith, enumerate_tree-Found input ts (count_error s))
enumerate_tree-Found input (tree_item full i ∷ ts) s = ground (
  arith,
  enumerate_tree-Found input ts s,
  enumerate_tree-Found input ts (count_found i.file_size s),
)

enumerate_input-Found :
    (input : Input) (s : Stats)
    → Found s
        (enumerate_input input s).1
        (length (enumerate_input input s).0)
        (input_failures input)
unfolding enumerate_input
enumerate_input-Found input s = ground (arith, enumerate_tree-Found input.path input.tree s)

enumerate_inputs-Found :
    (inputs : List Input) (s : Stats)
    → Found s (enumerate_inputs inputs s).1 (length (enumerate_inputs inputs s).0) (failures inputs)
unfolding enumerate_inputs
enumerate_inputs-Found [] s = ground arith
enumerate_inputs-Found (input ∷ inputs) s = omega (
  arith,
  enumerate_input-Found input s,
  enumerate_inputs-Found inputs (enumerate_input input s).1,
  length-append {0} (enumerate_input input s).0
      (enumerate_inputs inputs (enumerate_input input s).1).0,
)

-- A stage that hashes n files and sends m of them.
abbrev Hashed : Stats → Stats → ℕ → ℕ → Type 0
Hashed s s' n m =
    (s'.found ≡ s.found)
    × (s'.errors + m ≡ s.errors + n)
    × (m ≤ n)
    × (s'.nb_archived ≡ s.nb_archived)
    × (s'.nb_not_archived ≡ s.nb_not_archived)
    × (s'.nb_hashed + s'.nb_not_hashed ≡ s.nb_hashed + s.nb_not_hashed + m)

module _ (codec : Codec) (read : Text → Reader) (now : ℕ) where
  hash_inputs-Hashed :
      (items : List InputItem) (root : EntryCache) (s : Stats)
      → let r = hash_inputs codec read now items root s in Hashed s r.2 (length items) (length r.0)
  unfolding hash_inputs hash_item
  hash_inputs-Hashed [] root s = ground arith
  hash_inputs-Hashed (item ∷ items) root s =
      let r = hash_item codec read now item root s in
      ground (arith, hash_inputs-Hashed items r.1 r.2)

count_added-processed :
    (size : ℕ) (e : Option Error) (s : Stats)
    → (processed (count_added size e s) ≡ processed s + 1)
      × ((count_added size e s).found ≡ s.found)
      × ((count_added size e s).nb_hashed ≡ s.nb_hashed)
      × ((count_added size e s).nb_not_hashed ≡ s.nb_not_hashed)
unfolding count_added
count_added-processed size none s = ground arith
count_added-processed size (some exist) s = ground arith
count_added-processed size (some _) s = ground arith

-- A stage that archives n files.
abbrev Processed : Stats → Stats → ℕ → Type 0
Processed s s' n =
    (processed s' ≡ processed s + n)
    × (s'.found ≡ s.found)
    × (s'.nb_hashed ≡ s.nb_hashed)
    × (s'.nb_not_hashed ≡ s.nb_not_hashed)

module _ (C : CasTable) (opened : Text → Result Reader) where
  archive_item-Processed :
      (item : ItemToArchive) (c : C.State) (s : Stats)
      → Processed s (archive_item C opened item c s).1 1
  unfolding archive_item
  archive_item-Processed item c s = elim (Result-cases (opened item.full_path)) [
    | inl (f, e) ↦
        rw (e, archive_item) (count_added-processed item.size (C.add_entry c f item.sha1).0 s)
    | inr (why, e) ↦ ground arith
  ]

  archive_items-Processed :
      (items : List ItemToArchive) (root : Entry) (c : C.State) (s : Stats)
      → Processed s (archive_items C opened items root c s).2 (length items)
  unfolding archive_items
  archive_items-Processed [] root c s = ground arith
  archive_items-Processed (item ∷ items) root c s =
      let (c', s') = archive_item C opened item c s in
      omega (
        arith,
        archive_item-Processed item c s,
        archive_items-Processed items (make_entry root item) c' s',
      )

  archive_entry-Processed :
      (codec : Codec) (o : Option Text) (c : C.State) (s : Stats)
      → Processed s (archive_entry C opened codec o c s).2 1
  unfolding archive_entry add_bytes
  archive_entry-Processed codec none c s = ground arith
  archive_entry-Processed codec (some bytes) c s =
      count_added-processed (length bytes) (C.add_entry c (ok bytes) (codec.sha1 bytes)).0 s

-- At the end of the pipeline every file found, the entry file and every error of the enumeration is
-- counted exactly once, as archived, as not archived or as an error, and no more files were hashed
-- or taken from the cache than found.
pub archive_all-accounting :
    (C : CasTable) (codec : Codec) (source : Source) (inputs : List Input) (cache : EntryCache)
    (c : C.State)
    → let s = (archive_all C codec source inputs cache c).stats in
      (s.nb_archived + s.nb_not_archived + s.errors ≡ s.found + failures inputs + 1)
      × (s.nb_hashed + s.nb_not_hashed ≤ s.found)
unfolding archive_all archive_inputs
archive_all-accounting C codec source inputs cache c =
    let (items, s) = enumerate_inputs inputs zero_stats in
    let (hashed, cache', s') = hash_inputs codec source.read source.now items cache s in
    let (root, c', s'') = archive_items C source.opened hashed empty_entry c s' in
    omega (
      arith,
      enumerate_inputs-Found inputs zero_stats,
      hash_inputs-Hashed codec source.read source.now items cache s,
      archive_items-Processed C source.opened hashed empty_entry c s',
      archive_entry-Processed C source.opened codec (codec.encode_entry root) c' s'',
    )
