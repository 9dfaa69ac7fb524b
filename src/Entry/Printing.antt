-- ===== src/Entry/Printing.antt =====
-- Print and SortedFiles of Entry in dumbcaslib/entry.go.
use dumbcas.Prelude.{
  ℕ, Text, text, ◌==◌, false, ◌≡◌, refl, ap, ◌∙◌, List, [], ◌∷◌, ◌++◌, if◌then◌else◌,
}
use dumbcas.Prelude.FilePath.{decimal}
use dumbcas.Prelude.Sort.{sort_strings}
use dumbcas.Prelude.Sort.Named.{sort_named, sort_named-swap, sort_named-cons}
use dumbcas.Entry.{Entry, entry, Files, nil_map, made, Children, end, child, children, files_of}

file_names : Children → List Text
file_names end = []
file_names (child name e cs) = name ∷ file_names cs

-- SortedFiles
unfoldable pub sorted_files : Entry → List Text
unfolding file_names
sorted_files e = sort_strings (file_names (children (files_of e)))

-- The lines of the hash and of the size, for an entry with a hash.
abbrev pub hash_lines : Text → Text → ℕ → Text
hash_lines indent hash size =
    if hash == []
    then []
    else indent
      ++ text "Sha1: "
      ++ hash
      ++ (10 ∷ indent)
      ++ text "Size: "
      ++ decimal size
      ++ (10 ∷ [])

abbrev pub name_line : Text → Text → Text
name_line indent name = indent ++ text "- '" ++ name ++ text "'" ++ (10 ∷ [])

abbrev pub concatenated : List (Text × Text) → Text
concatenated [] = []
concatenated (x ∷ xs) = x.1 ++ concatenated xs

-- Print. What is printed for each file of a directory is put into the order of SortedFiles.
unfoldable mutual
  pub print : Entry → Text → Text
  print (entry h n fs) indent =
      hash_lines indent h n ++ concatenated (sort_named (printed_files fs indent))

  pub printed_files : Files → Text → List (Text × Text)
  printed_files nil_map indent = []
  printed_files (made cs) indent = printed_children cs indent

  pub printed_children : Children → Text → List (Text × Text)
  printed_children end indent = []
  printed_children (child name e cs) indent =
      (name, name_line indent name ++ print e (indent ++ text "  ")) ∷ printed_children cs indent

-- The same tree, where the maps are ranged over in other orders.
mutual
  pub data SameTree : Entry → Entry → Type 0 where
    same_file : (h : Text) (n : ℕ) → SameTree (entry h n nil_map) (entry h n nil_map)
    same_directory :
        (h : Text) (n : ℕ) (cs ds : Children)
        → SameChildren cs ds
        → SameTree (entry h n (made cs)) (entry h n (made ds))

  pub data SameChildren : Children → Children → Type 0 where
    same_end : SameChildren end end
    same_child :
        (name : Text) (e f : Entry) (cs ds : Children)
        → SameTree e f
        → SameChildren cs ds
        → SameChildren (child name e cs) (child name f ds)
    swapped :
        (a b : Text) (e f : Entry) (cs : Children)
        → (a == b) ≡ false
        → SameChildren (child a e (child b f cs)) (child b f (child a e cs))
    through : (cs ds es : Children) → SameChildren cs ds → SameChildren ds es → SameChildren cs es

mutual
  unfolding print printed_files printed_children

  print-same : (e f : Entry) (indent : Text) → SameTree e f → print e indent ≡ print f indent
  print-same e f indent (same_file h n) = refl
  print-same e f indent (same_directory h n cs ds s) =
      ap (λ ps. hash_lines indent h n ++ concatenated ps) (printed_children-same cs ds indent s)

  printed_children-same :
      (cs ds : Children) (indent : Text)
      → SameChildren cs ds
      → sort_named (printed_children cs indent) ≡ sort_named (printed_children ds indent)
  printed_children-same cs ds indent same_end = refl
  printed_children-same cs ds indent (same_child name e f cs' ds' s t) =
      sort_named-cons _ _ (printed_children cs' indent) (printed_children ds' indent)
        (ap (λ p. (name, name_line indent name ++ p)) (print-same e f (indent ++ text "  ") s))
        (printed_children-same cs' ds' indent t)
  printed_children-same cs ds indent (swapped a b e f cs' h) =
      sort_named-swap _ _ (printed_children cs' indent) h
  printed_children-same cs ds indent (through cs' ds' es s t) =
      printed_children-same _ ds' indent s ∙ printed_children-same ds' _ indent t

-- Print of an entry gives the same for two trees that differ only in the orders of their maps.
pub print-SameTree : (e f : Entry) (indent : Text) → SameTree e f → print e indent ≡ print f indent
print-SameTree e f indent s = print-same e f indent s
