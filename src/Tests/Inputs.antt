-- ===== src/Tests/Inputs.antt =====
-- The list of what to archive, at concrete data.
use dumbcas.Prelude.{Text, text, ◌≡◌, refl, [], ◌∷◌, ◌++◌, some, has_prefix, ◌==◌, All}
use dumbcas.Prelude.Trim.{trim_space, trim_left}
use dumbcas.Prelude.FilePath.{clean, join, dir, split, join_parts}
use dumbcas.Table.{io, Result, ok}
use dumbcas.Archive.Inputs.{
  OpenedFile, read_lines, read_file_as_strings, abs, cleanup_list, inputs_of, load_inputs,
}
use dumbcas.Prelude.FilePath.Cleaning.{IsCleaned}
use dumbcas.Archive.Inputs.Cleaned.{load_inputs-IsCleaned, load_inputs-joined}

abbrev unexpanded : Text → Text
unexpanded s = s

-- Two lines, the second one with a failure after it.
abbrev list_file : OpenedFile
list_file = record { content = text "photos" ++ 10 ∷ text "/etc/x" ++ 10 ∷ []; failure = some io }

abbrev open_list : Text → Result OpenedFile
open_list path = ok list_file

read_lines_runs :
    read_lines [] (text " a b" ++ 13 ∷ 10 ∷ 10 ∷ 9 ∷ 194 ∷ 160 ∷ text "c")
    ≡ text "a b" ∷ text "c" ∷ []
unfolding read_lines trim_space trim_left has_prefix ◌==◌
read_lines_runs = refl

cleanup_list_runs :
    cleanup_list unexpanded (text "/home/me") (text "photos/" ∷ text "../x" ∷ text "/a//b" ∷ [])
    ≡ text "/home/me/photos" ∷ text "/home/x" ∷ text "/a/b" ∷ []
unfolding cleanup_list clean join split join_parts has_prefix ◌==◌
cleanup_list_runs = refl

loaded :
    load_inputs unexpanded open_list (ok (text "/home")) (text "me/list")
    ≡ ok (text "/home/me/list", text "/home/me/photos" ∷ text "/etc/x" ∷ text "/home/me/list" ∷ [])
unfolding load_inputs inputs_of read_file_as_strings read_lines trim_space trim_left cleanup_list
    abs clean join dir split join_parts has_prefix ◌==◌
loaded = refl

load_inputs-IsCleaned_example :
    All IsCleaned (text "/home/me/photos" ∷ text "/etc/x" ∷ text "/home/me/list" ∷ [])
unfolding has_prefix
load_inputs-IsCleaned_example =
    load_inputs-IsCleaned unexpanded open_list (ok (text "/home")) (text "me/list")
      (text "/home/me/list") (text "/home/me/photos" ∷ text "/etc/x" ∷ text "/home/me/list" ∷ [])
      refl loaded

load_inputs-joined_example :
    load_inputs unexpanded open_list (ok (text "/home")) (text "me/list")
    ≡ ok (text "/home/me/list", text "/home/me/photos" ∷ text "/etc/x" ∷ text "/home/me/list" ∷ [])
unfolding abs clean join dir split join_parts has_prefix ◌==◌
load_inputs-joined_example =
    load_inputs-joined unexpanded open_list (ok (text "/home")) (text "me/list")
      (text "/home/me/list") (text "photos" ∷ text "/etc/x" ∷ []) (some io) refl refl refl
      (refl, (refl, tt)) (refl, (refl, tt)) refl
