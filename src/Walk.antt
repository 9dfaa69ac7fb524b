-- ===== src/Walk.antt =====
-- The walks of directories in dumbcaslib/common.go: recurseEnumerateTree and EnumerateTree, readDirNames,
-- readDirFancy and isDir. The file system is the tree of what os.Open and Readdir give.
pub mod Order
pub mod Interrupts
pub mod Relative
use dumbcas.Prelude.{
  ℕ, ◌+◌, Text, Bool, true, false, if◌then◌else◌, List, [], ◌∷◌, ◌++◌, Option, none, some,
}
use dumbcas.Prelude.FilePath.{join, slash}
use dumbcas.Table.{Error}
use dumbcas.Archive.{TreeItem, tree_error, tree_item}

-- A directory as os.Open finds it; what the calls of Readdir give, one after another, up to an empty
-- list; and the members that one call gives, with their sizes and times.
mutual
  pub data Folder : Type 0 where
    unopened : Error → Folder
    opened : Batches → Folder

  pub data Batches : Type 0 where
    no_more : Batches
    read_error : Error → Batches
    batch : Members → Batches → Batches

  pub data Members : Type 0 where
    no_member : Members
    file : Text → ℕ → ℕ → Members → Members
    folder : Text → Folder → Members → Members

-- len(dirs) == 0
abbrev pub is_none : Members → Bool
is_none no_member = true
is_none (file name size time ms) = false
is_none (folder name f ms) = false

-- What a walk sent, whether recurseEnumerateTree returned true, and how often interrupt.IsSet was asked.
pub record Walked : Type 0 where
  pub sent : List TreeItem
  pub succeeded : Bool
  pub asked : ℕ

-- The loop goes on with `after` if the call before it returned true.
abbrev pub go_on : Walked → (ℕ → Walked) → Walked
go_on w after =
    let next = after w.asked in
    if w.succeeded then record next { sent = w.sent ++ next.sent } else w

abbrev pub stop : ℕ → Walked
stop n = record { sent = []; succeeded = true; asked = n }

abbrev pub fail : Error → ℕ → Walked
fail e n = record { sent = tree_error e ∷ []; succeeded = false; asked = n }

abbrev pub found_file : Text → ℕ → ℕ → TreeItem
found_file path size time =
    tree_item path (record { file_size = size; mod_time = time; is_directory = false })

-- recurseEnumerateTree, with the answers of interrupt.IsSet.
unfoldable mutual
  pub walk_folder : (ℕ → Bool) → Text → Folder → ℕ → Walked
  walk_folder is_set root (unopened e) n = fail e n
  walk_folder is_set root (opened bs) n = walk_batches is_set root bs n

  pub walk_batches : (ℕ → Bool) → Text → Batches → ℕ → Walked
  walk_batches is_set root no_more n = stop (n + 1)
  walk_batches is_set root (read_error e) n = if is_set n then stop (n + 1) else fail e (n + 1)
  walk_batches is_set root (batch ms bs) n =
      let rest = go_on (walk_members is_set root ms (n + 1)) λ k. walk_batches is_set root bs k in
      if is_set n then stop (n + 1) else if is_none ms then stop (n + 1) else rest

  pub walk_members : (ℕ → Bool) → Text → Members → ℕ → Walked
  walk_members is_set root no_member n = stop n
  walk_members is_set root (file name size time ms) n =
      let rest = walk_members is_set root ms (n + 1) in
      if is_set n
      then stop (n + 1)
      else record rest { sent = found_file (join root name) size time ∷ rest.sent }
  walk_members is_set root (folder name f ms) n =
      let rest =
        go_on (walk_folder is_set (join root name) f (n + 1)) λ k. walk_members is_set root ms k in
      if is_set n then stop (n + 1) else rest

-- What EnumerateTree sends.
unfoldable pub enumerate_tree : (ℕ → Bool) → Text → Folder → List TreeItem
enumerate_tree is_set root f = (walk_folder is_set root f 0).sent

-- The names that one call gives; those of directories with a slash in readDirFancy.
names : Text → Members → List Text
names mark no_member = []
names mark (file name size time ms) = name ∷ names mark ms
names mark (folder name f ms) = (name ++ mark) ∷ names mark ms

-- The names up to an error, and the error.
all_names : Text → Batches → List Text × Option Error
all_names mark no_more = ([], none)
all_names mark (read_error e) = ([], some e)
all_names mark (batch ms bs) =
    let (later, e) = all_names mark bs in
    if is_none ms then ([], none) else (names mark ms ++ later, e)

-- readDirNames; Readdirnames(0) gives all names in one call.
unfoldable pub read_dir_names : Folder → List Text × Option Error
unfolding names all_names
read_dir_names (unopened e) = ([], some e)
read_dir_names (opened bs) = all_names [] bs

-- readDirFancy: the error of its loop is a variable of the loop.
unfoldable pub read_dir_fancy : Folder → List Text × Option Error
unfolding names all_names
read_dir_fancy (unopened e) = ([], some e)
read_dir_fancy (opened bs) = ((all_names (slash ∷ []) bs).0, none)
