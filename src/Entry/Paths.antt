-- ===== src/Entry/Paths.antt =====
-- Placing a file in a tree and finding it again: makeEntry of archive.go and pathToEntry of
-- dumbcaslib/entry.go.
use dumbcas.Prelude.{
  ℕ, Text, ◌==◌, eq_iff, eq_refl, Bool, true, false, ◌&&◌, if◌then◌else◌, ◌≡◌, ◌≢◌, refl,
}
use dumbcas.Prelude.{List, [], ◌∷◌, Option, none, some, arith, has_prefix, Option-cases, inl, inr}
use dumbcas.Prelude.FilePath.{slash, split, trim_slashes, trim_slashes-slash}
use dumbcas.Entry.{Entry, entry, Files, nil_map, made, Children, end, child, children, files_of}
use dumbcas.Entry.{empty_entry, find_child, set_child}
use dumbcas.Table.{Result, ok, err, failed}

-- type itemToArchive
pub record ItemToArchive : Type 0 where
  pub full_path : Text
  pub rel_path : Text
  pub sha1 : Text
  pub size : ℕ

or_new : Option Entry → Entry
or_new none = empty_entry
or_new (some e) = e

-- The loop of makeEntry over the parts of the path, and the two assignments after it.
unfoldable pub make_parts : List Text → Text → ℕ → Entry → Entry
unfolding or_new
make_parts [] hash size (entry h n fs) = entry hash size fs
make_parts (p ∷ ps) hash size (entry h n fs) =
    let cs = children fs in
    entry h n (made (set_child p (make_parts ps hash size (or_new (find_child p cs))) cs))

unfoldable pub make_entry : Entry → ItemToArchive → Entry
make_entry root item = make_parts (split item.rel_path) item.sha1 item.size root

-- The loop of pathToEntry.
unfoldable pub walk : List Text → Entry → Option Entry
walk [] e = some e
walk (p ∷ ps) (entry h n nil_map) = none
walk (p ∷ ps) (entry h n (made cs)) = elim (find_child p cs) [ none ↦ none | some e ↦ walk ps e ]

unfoldable pub path_to_entry : Entry → Text → Result (Option Entry)
path_to_entry root path =
    if has_prefix path (slash ∷ [])
    then (let trimmed = trim_slashes path in
        if trimmed == [] then ok (some root) else ok (walk (split trimmed) root))
    else err (failed "internal error: %s is malformed" path)

find_child-set_child :
    (p q : Text) (e : Entry) (cs : Children)
    → find_child q (set_child p e cs) ≡ (if p == q then some e else find_child q cs)
unfolding find_child set_child
find_child-set_child p q e end = refl
find_child-set_child p q e (child r f cs) =
    ground (arith, eq_iff p q, eq_iff r p, eq_iff r q, find_child-set_child p q e cs)

-- The files below a place of the tree, if there is such a place.
abbrev pub files_at : Option Entry → Files
files_at none = nil_map
files_at (some e) = files_of e

files_at-walk_empty : (ps : List Text) → files_at (walk ps empty_entry) ≡ nil_map
unfolding walk
files_at-walk_empty [] = refl
files_at-walk_empty (p ∷ ps) = refl

walk-empty_cons : (p : Text) (ps : List Text) → walk (p ∷ ps) empty_entry ≡ none
unfolding walk
walk-empty_cons p ps = refl

-- The file that was placed is found at its path, with its hash and its size, over what was below.
pub walk-make_parts :
    (ps : List Text) (hash : Text) (size : ℕ) (root : Entry)
    → walk ps (make_parts ps hash size root) ≡ some (entry hash size (files_at (walk ps root)))
unfolding walk make_parts find_child set_child
walk-make_parts [] hash size (entry h n fs) = refl
walk-make_parts (p ∷ ps) hash size (entry h n nil_map) =
    ground (arith, eq_refl p, walk-make_parts ps hash size empty_entry, files_at-walk_empty ps)
walk-make_parts (p ∷ ps) hash size (entry h n (made cs)) = elim (Option-cases (find_child p cs)) [
  | inl absent ↦ ground (
    arith,
    eq_refl p,
    find_child-set_child p p (make_parts ps hash size empty_entry) cs,
    walk-make_parts ps hash size empty_entry,
    files_at-walk_empty ps,
  )
  | inr (e, present) ↦ ground (
    arith,
    eq_refl p,
    find_child-set_child p p (make_parts ps hash size e) cs,
    walk-make_parts ps hash size e,
  )
]

abbrev pub is_prefix : List Text → List Text → Bool
is_prefix [] ps = true
is_prefix (q ∷ qs) [] = false
is_prefix (q ∷ qs) (p ∷ ps) = (q == p) && is_prefix qs ps

walk-empty_other : (qs ps : List Text) → is_prefix qs ps ≡ false → walk qs empty_entry ≡ none
walk-empty_other [] ps h = cc
walk-empty_other (q ∷ qs) ps h = walk-empty_cons q qs

-- A path that is not the placed one, nor one of its directories, leads where it led.
pub walk-make_parts_other :
    (qs ps : List Text) (hash : Text) (size : ℕ) (root : Entry)
    → is_prefix qs ps ≡ false
    → walk qs (make_parts ps hash size root) ≡ walk qs root
unfolding walk make_parts find_child set_child
walk-make_parts_other [] ps hash size root h = cc
walk-make_parts_other (q ∷ qs) [] hash size (entry g n nil_map) h = refl
walk-make_parts_other (q ∷ qs) [] hash size (entry g n (made cs)) h = refl
walk-make_parts_other (q ∷ qs) (p ∷ ps) hash size (entry g n nil_map) h = ground (
  arith,
  eq_iff p q,
  eq_iff q p,
  walk-make_parts_other qs ps hash size empty_entry,
  walk-empty_other qs ps,
)
walk-make_parts_other (q ∷ qs) (p ∷ ps) hash size (entry g n (made cs)) h =
    elim (Option-cases (find_child p cs)) [
      | inl absent ↦ ground (
        arith,
        eq_iff p q,
        eq_iff q p,
        find_child-set_child p q (make_parts ps hash size empty_entry) cs,
        walk-make_parts_other qs ps hash size empty_entry,
        walk-empty_other qs ps,
      )
      | inr (e, present) ↦ ground (
        arith,
        eq_iff p q,
        eq_iff q p,
        find_child-set_child p q (make_parts ps hash size e) cs,
        walk-make_parts_other qs ps hash size e,
      )
    ]

-- A file placed in a tree under a relative path with no slash at its ends is found under that path,
-- with its hash and its size over the files that were there.
pub path_to_entry-make_entry :
    (root : Entry) (item : ItemToArchive)
    → item.rel_path ≢ []
    → trim_slashes item.rel_path ≡ item.rel_path
    → path_to_entry (make_entry root item) (slash ∷ item.rel_path)
      ≡ ok (some (entry item.sha1 item.size (files_at (walk (split item.rel_path) root))))
unfolding path_to_entry make_entry has_prefix
path_to_entry-make_entry root item nonempty trimmed = ground (
  arith,
  trim_slashes-slash item.rel_path,
  eq_iff item.rel_path [],
  walk-make_parts (split item.rel_path) item.sha1 item.size root,
)

-- Placing a file does not change what any path leads to, other than the root, its own and those of
-- its directories.
pub path_to_entry-make_entry_other :
    (root : Entry) (item : ItemToArchive) (path : Text)
    → is_prefix (split (trim_slashes path)) (split item.rel_path) ≡ false
    → trim_slashes path ≢ []
    → path_to_entry (make_entry root item) path ≡ path_to_entry root path
unfolding path_to_entry make_entry
path_to_entry-make_entry_other root item path other nonempty = ground (
  arith,
  eq_iff (trim_slashes path) [],
  walk-make_parts_other (split (trim_slashes path)) (split item.rel_path) item.sha1 item.size root
      other,
)
