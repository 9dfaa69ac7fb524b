-- ===== src/Entry.antt =====
-- The tree of archived files: type Entry of dumbcaslib/entry.go, its methods, and tagRecurse of gc.go.
pub mod Paths
pub mod Printing
use dumbcas.Prelude.{ℕ, ◌+◌, Text, ◌==◌, Bool, true, false, if◌then◌else◌}
use dumbcas.Prelude.{[], Option, none, some}
use dumbcas.Prelude.Map.{Map, insert}

-- `Files` is a Go map, which may be nil; a nil map and an empty one differ in `is_dir` alone. Sizes
-- are lengths of files, so they are natural numbers.
mutual
  pub data Entry : Type 0 where
    entry : Text → ℕ → Files → Entry

  pub data Files : Type 0 where
    nil_map : Files
    made : Children → Files

  pub data Children : Type 0 where
    end : Children
    child : Text → Entry → Children → Children

abbrev pub empty_entry : Entry
empty_entry = entry [] 0 nil_map

abbrev pub sha1_of : Entry → Text
sha1_of (entry h n fs) = h

abbrev pub size_of : Entry → ℕ
size_of (entry h n fs) = n

abbrev pub files_of : Entry → Files
files_of (entry h n fs) = fs

-- What a range over the map visits: nothing if it is nil.
abbrev pub children : Files → Children
children nil_map = end
children (made cs) = cs

unfoldable pub is_dir : Entry → Bool
is_dir (entry h n nil_map) = false
is_dir (entry h n (made cs)) = true

-- e.Files[p]
unfoldable pub find_child : Text → Children → Option Entry
find_child p end = none
find_child p (child q e cs) = if q == p then some e else find_child p cs

-- e.Files[p] = v
unfoldable pub set_child : Text → Entry → Children → Children
set_child p e end = child p e end
set_child p e (child q f cs) = if q == p then child p e cs else child q f (set_child p e cs)

-- (*Entry).CountMembers
unfoldable mutual
  pub count_members : Entry → ℕ
  count_members (entry h n fs) = 1 + count_files fs

  count_files : Files → ℕ
  count_files nil_map = 0
  count_files (made cs) = count_children cs

  count_children : Children → ℕ
  count_children end = 0
  count_children (child p e cs) = count_members e + count_children cs

-- tagRecurse of gc.go
unfoldable mutual
  pub tag_recurse : Map Bool → Entry → Map Bool
  tag_recurse m (entry h n fs) = tag_files (if h == [] then m else insert h true m) fs

  pub tag_files : Map Bool → Files → Map Bool
  tag_files m nil_map = m
  tag_files m (made cs) = tag_children m cs

  pub tag_children : Map Bool → Children → Map Bool
  tag_children m end = m
  tag_children m (child p e cs) = tag_children (tag_recurse m e) cs
