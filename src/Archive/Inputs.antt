-- ===== src/Archive/Inputs.antt =====
-- What main of archive.go archives: readFileAsStrings, cleanupList and the lines of main before the
-- goroutines start.
pub mod Cleaned
pub mod Located
use dumbcas.Prelude.{Text, ◌==◌, eqb, if◌then◌else◌, List, [], ◌∷◌, ◌++◌}
use dumbcas.Prelude.{has_prefix, Option}
use mathlib.Core.List.{reverse}
use dumbcas.Prelude.Trim.{trim_space}
use dumbcas.Prelude.FilePath.{slash, clean, join, dir}
use dumbcas.Table.{Error, failed, Result, ok, err, ◌>>=◌}

-- A file that os.Open has opened: what can be read, up to its end or to an error.
pub record OpenedFile : Type 0 where
  pub content : Text
  pub failure : Option Error

-- A line of the file, without the spaces around it and if there is something left, before the others.
keep_line : Text → List Text → List Text
keep_line line lines =
    let trimmed = trim_space line in if trimmed == [] then lines else trimmed ∷ lines

-- The loop of readFileAsStrings; `line` is what ReadString has of the line, the last byte first.
unfoldable pub read_lines : Text → Text → List Text
unfolding keep_line
read_lines line [] = keep_line (reverse line) []
read_lines line (c ∷ s) =
    let more = read_lines (c ∷ line) s in
    let next = keep_line (reverse (c ∷ line)) (read_lines [] s) in if eqb c 10 then next else more

-- readFileAsStrings. The error that ends the loop is that of the loop's own variable, and is lost.
unfoldable pub read_file_as_strings : Text → Result OpenedFile → Result (List Text)
read_file_as_strings path (err e) = err (failed "Failed to read %s: %s" path)
read_file_as_strings path (ok f) = ok (read_lines [] f.content)

-- The element of the list of the round of cleanupList. os.ExpandEnv is a parameter; strings.Replace is
-- called for at most 0 places, and replaces nothing.
module _ (expand_env : Text → Text) where
  cleanup_item : Text → Text → Text
  cleanup_item rel_dir item =
      let expanded = expand_env item in
      clean (if has_prefix expanded (slash ∷ []) then expanded else join rel_dir expanded)

  unfoldable pub cleanup_list : Text → List Text → List Text
  unfolding cleanup_item
  cleanup_list rel_dir [] = []
  cleanup_list rel_dir (item ∷ items) = cleanup_item rel_dir item ∷ cleanup_list rel_dir items

-- filepath.Abs, where os.Getwd gives the first argument.
unfoldable pub abs : Result Text → Text → Result Text
abs wd path =
    if has_prefix path (slash ∷ []) then ok (clean path) else (wd >>= λ w. ok (join w path))

abs_or_failed : Text → Result Text → Result Text
abs_or_failed arg (ok path) = ok path
abs_or_failed arg (err e) = err (failed "Failed to process %s" arg)

-- The inputs that the list gives.
unfoldable pub inputs_of : (Text → Text) → (Text → Result OpenedFile) → Text → Result (List Text)
inputs_of expand_env os_open to_archive = do
  inputs ← read_file_as_strings to_archive (os_open to_archive)
  ok (cleanup_list expand_env (dir to_archive) (inputs ++ to_archive ∷ []))

-- main, from filepath.Abs to cleanupList: the path of the list, and the inputs.
unfoldable pub load_inputs :
    (Text → Text) → (Text → Result OpenedFile) → Result Text → Text → Result (Text × List Text)
unfolding abs_or_failed inputs_of
load_inputs expand_env os_open wd to_archive_arg = do
  to_archive ← abs_or_failed to_archive_arg (abs wd to_archive_arg)
  inputs ← inputs_of expand_env os_open to_archive
  ok (to_archive, inputs)
