-- ===== src/Info.antt =====
-- The command of info.go: print the files of a tree, sorted by name in each directory.
pub mod Listing
use dumbcas.Prelude.{ℕ, ◌+◌, Text, ◌==◌, text_lt, if◌then◌else◌, List, [], ◌∷◌, ◌++◌}
use dumbcas.Prelude.FilePath.{join}
use dumbcas.Entry.{Entry, entry, Files, nil_map, made, Children, end, child}
use dumbcas.Table.{Result, ok, err, Codec, CasTable, NodesTable}
use dumbcas.Common.{Tables}
use dumbcas.Restore.{load_tree}

-- A line of the output, " path(size)".
pub record Line : Type 0 where
  pub path : Text
  pub size : ℕ

-- What is printed for a child of a directory, with its name.
pub record Printed : Type 0 where
  pub name : Text
  pub lines : List Line
  pub count : ℕ

insert_by_name : Printed → List Printed → List Printed
insert_by_name x [] = x ∷ []
insert_by_name x (y ∷ ys) = if text_lt y.name x.name then y ∷ insert_by_name x ys else x ∷ y ∷ ys

-- sort.Strings on the names of a directory, each with what is printed for it. Names are different.
unfoldable pub sort_by_name : List Printed → List Printed
unfolding insert_by_name
sort_by_name [] = []
sort_by_name (x ∷ xs) = insert_by_name x (sort_by_name xs)

abbrev pub all_lines : List Printed → List Line
all_lines [] = []
all_lines (x ∷ xs) = x.lines ++ all_lines xs

abbrev pub all_counts : List Printed → ℕ
all_counts [] = 0
all_counts (x ∷ xs) = x.count + all_counts xs

abbrev pub own_lines : Text → Text → ℕ → List Line
own_lines path hash size = if hash == [] then [] else record { path = path; size = size } ∷ []

abbrev pub own_count : Text → ℕ
own_count hash = if hash == [] then 0 else 1

-- printEntry: the lines and the count.
unfoldable mutual
  unfolding sort_by_name

  pub print_entry : Entry → Text → List Line × ℕ
  print_entry (entry h n fs) path =
      let ps = sort_by_name (print_files fs path) in
      (own_lines path h n ++ all_lines ps, own_count h + all_counts ps)

  pub print_files : Files → Text → List Printed
  print_files nil_map path = []
  print_files (made cs) path = print_children cs path

  pub print_children : Children → Text → List Printed
  print_children end path = []
  print_children (child name e cs) path =
      let (ls, c) = print_entry e (join path name) in
      record { name = name; lines = ls; count = c } ∷ print_children cs path

module _ (C : CasTable) (N : NodesTable) (codec : Codec) where
  shown : Result Entry × C.State → Result (List Line × ℕ) × C.State
  shown (ok e, s) = (ok (print_entry e []), s)
  shown (err e, s) = (err e, s)

  -- main after Parse.
  unfoldable pub info : Tables C N → Text → Result (List Line × ℕ) × C.State
  unfolding shown
  info t name = shown (load_tree C N codec t name)
