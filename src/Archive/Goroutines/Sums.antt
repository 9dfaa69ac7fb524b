-- ===== src/Archive/Goroutines/Sums.antt =====
-- The stages of archive.go only add to the counters: what they send does not depend on them.
use dumbcas.Prelude.{ℕ, ◌+◌, Text, ◌≡◌, refl, ap, List, [], ◌∷◌, Option, none, some, arith}
use dumbcas.Prelude.{Bool-cases, length, inl, inr}
use dumbcas.Entry.Paths.{ItemToArchive, make_entry}
use dumbcas.Entry.{Entry}
use dumbcas.Table.{Error, exist, Result, Reader, Codec, CasTable, Result-cases}
use dumbcas.Cas.{add_bytes}
use dumbcas.Cache.{EntryCache}
use dumbcas.Archive.Counters.{Stats, zero_stats, count_error, count_found}
use dumbcas.Archive.{TreeItem, tree_error, tree_item, Input, InputItem, enumerate_tree}
use dumbcas.Archive.{enumerate_input, enumerate_inputs, hash_item, hash_inputs, count_added}
use dumbcas.Archive.{archive_item, archive_items, archive_entry, send}

infixl 65 ◌⊕◌
pub ◌⊕◌ : Stats → Stats → Stats
s ⊕ d = record {
  errors = s.errors + d.errors;
  found = s.found + d.found;
  total_size = s.total_size + d.total_size;
  nb_hashed = s.nb_hashed + d.nb_hashed;
  bytes_hashed = s.bytes_hashed + d.bytes_hashed;
  nb_not_hashed = s.nb_not_hashed + d.nb_not_hashed;
  bytes_not_hashed = s.bytes_not_hashed + d.bytes_not_hashed;
  nb_archived = s.nb_archived + d.nb_archived;
  bytes_archived = s.bytes_archived + d.bytes_archived;
  nb_not_archived = s.nb_not_archived + d.nb_not_archived;
  bytes_not_archived = s.bytes_not_archived + d.bytes_not_archived;
}

pub plus_right_comm : (s d e : Stats) → s ⊕ d ⊕ e ≡ s ⊕ e ⊕ d
unfolding ◌⊕◌
plus_right_comm s d e = ground arith

count_error-plus : (s d : Stats) → count_error (s ⊕ d) ≡ count_error s ⊕ d
unfolding ◌⊕◌
count_error-plus s d = ground arith

count_error-zero : (s : Stats) → count_error s ≡ s ⊕ count_error zero_stats
unfolding ◌⊕◌
count_error-zero s = ground arith

count_found-plus : (n : ℕ) (s d : Stats) → count_found n (s ⊕ d) ≡ count_found n s ⊕ d
unfolding ◌⊕◌
count_found-plus n s d = ground arith

abbrev plus_last : {A : Type 0} → A × Stats → Stats → A × Stats
plus_last (a, s) d = (a, s ⊕ d)

pub enumerate_tree-plus :
    (input : Text) (ts : List TreeItem) (s d : Stats)
    → enumerate_tree input ts (s ⊕ d) ≡ plus_last (enumerate_tree input ts s) d
unfolding enumerate_tree
enumerate_tree-plus input [] s d = refl
enumerate_tree-plus input (tree_error e ∷ ts) s d =
    rw (count_error-plus s d) (enumerate_tree-plus input ts (count_error s) d)
enumerate_tree-plus input (tree_item full i ∷ ts) s d = elim (Bool-cases i.is_directory) [
  | inl e ↦ rw e (enumerate_tree-plus input ts s d)
  | inr e ↦
      rw (count_found-plus i.file_size s d)
        (rw (enumerate_tree-plus input ts (count_found i.file_size s) d) (rw e refl))
]

enumerate_input-plus :
    (input : Input) (s d : Stats)
    → enumerate_input input (s ⊕ d) ≡ plus_last (enumerate_input input s) d
unfolding enumerate_input
enumerate_input-plus input s d = elim (Result-cases input.stat) [
  | inr (why, e) ↦ rw (e, enumerate_input) (ground (arith, count_error-plus s d))
  | inl (i, e) ↦ elim (Bool-cases i.is_directory) [
    | inl t ↦ rw (e, enumerate_input) (rw t (enumerate_tree-plus input.path input.tree s d))
    | inr t ↦ rw (e, enumerate_input) (rw t (ground (arith, count_found-plus i.file_size s d)))
  ]
]

pub enumerate_inputs-plus :
    (inputs : List Input) (s d : Stats)
    → enumerate_inputs inputs (s ⊕ d) ≡ plus_last (enumerate_inputs inputs s) d
unfolding enumerate_inputs
enumerate_inputs-plus [] s d = refl
enumerate_inputs-plus (input ∷ inputs) s d =
    rw (enumerate_input-plus input s d)
      (rw (enumerate_inputs-plus inputs (enumerate_input input s).1 d) refl)

module _ (codec : Codec) (read : Text → Reader) (now : ℕ) where
  pub hash_item-plus :
      (item : InputItem) (root : EntryCache) (s : Stats)
      → let r = hash_item codec read now item root zero_stats in
        hash_item codec read now item root s ≡ (r.0, r.1, s ⊕ r.2)
  unfolding hash_item ◌⊕◌
  hash_item-plus item root s = ground arith

  pub hash_inputs-plus :
      (items : List InputItem) (root : EntryCache) (s d : Stats)
      → let r = hash_inputs codec read now items root s in
        hash_inputs codec read now items root (s ⊕ d) ≡ (r.0, r.1, r.2 ⊕ d)
  unfolding hash_inputs
  hash_inputs-plus [] root s d = refl
  hash_inputs-plus (item ∷ items) root s d =
      let (o, root', e) = hash_item codec read now item root zero_stats in
      rw (hash_item-plus item root (s ⊕ d), hash_item-plus item root s)
        (rw (plus_right_comm s d e) (rw (hash_inputs-plus items root' (s ⊕ e) d) refl))

  -- A first file, hashed with any counters, is hashed with none and counted then.
  pub hash_inputs-cons :
      (item : InputItem) (items : List InputItem) (root : EntryCache) (s : Stats)
      → let (o, root', d) = hash_item codec read now item root zero_stats in
        let r = hash_inputs codec read now items root' (s ⊕ d) in
        hash_inputs codec read now (item ∷ items) root s ≡ (send o r.0, r.1, r.2)
  unfolding hash_inputs
  hash_inputs-cons item items root s = rw (hash_item-plus item root s) refl

count_added-plus :
    (size : ℕ) (e : Option Error) (s : Stats)
    → count_added size e s ≡ s ⊕ count_added size e zero_stats
unfolding count_added ◌⊕◌
count_added-plus size none s = ground arith
count_added-plus size (some exist) s = ground arith
count_added-plus size (some _) s = ground arith

module _ (C : CasTable) (opened : Text → Result Reader) where
  pub archive_item-plus :
      (item : ItemToArchive) (c : C.State) (s : Stats)
      → let r = archive_item C opened item c zero_stats in
        archive_item C opened item c s ≡ (r.0, s ⊕ r.1)
  unfolding archive_item
  archive_item-plus item c s = elim (Result-cases (opened item.full_path)) [
    | inl (f, e) ↦
        rw (e, archive_item) (rw (count_added-plus item.size (C.add_entry c f item.sha1).0 s) refl)
    | inr (why, e) ↦ rw (e, archive_item) (ap (λ t. (c, t)) (count_error-zero s))
  ]

  pub archive_items-cons :
      (item : ItemToArchive) (items : List ItemToArchive) (root : Entry) (c : C.State) (s : Stats)
      → let (c', d) = archive_item C opened item c zero_stats in
        archive_items C opened (item ∷ items) root c s
        ≡ archive_items C opened items (make_entry root item) c' (s ⊕ d)
  unfolding archive_items
  archive_items-cons item items root c s = rw (archive_item-plus item c s) refl

  pub archive_entry-plus :
      (codec : Codec) (o : Option Text) (c : C.State) (s : Stats)
      → let r = archive_entry C opened codec o c zero_stats in
        archive_entry C opened codec o c s ≡ (r.0, r.1, s ⊕ r.2)
  unfolding archive_entry
  archive_entry-plus codec none c s = ap (λ t. (none, c, t)) (count_error-zero s)
  archive_entry-plus codec (some bytes) c s =
      rw (count_added-plus (length bytes) (add_bytes C codec c bytes).1 s) refl
