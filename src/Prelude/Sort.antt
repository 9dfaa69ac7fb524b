-- ===== src/Prelude/Sort.antt =====
-- sort.Strings of Go's standard library.
pub mod Named
use mathlib.Core.List.{List, [], ◌∷◌}
use dumbcas.Prelude.Tests.{if◌then◌else◌}
use dumbcas.Prelude.Strings.{Text, text_lt}

insert_sorted : Text → List Text → List Text
insert_sorted x [] = x ∷ []
insert_sorted x (y ∷ ys) = if text_lt y x then y ∷ insert_sorted x ys else x ∷ y ∷ ys

unfoldable pub sort_strings : List Text → List Text
unfolding insert_sorted
sort_strings [] = []
sort_strings (x ∷ xs) = insert_sorted x (sort_strings xs)
