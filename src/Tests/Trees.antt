-- ===== src/Tests/Trees.antt =====
-- A small tree, archived, served, listed and restored.
use dumbcas.Prelude.{text, text_lt, ◌==◌, ◌≡◌, refl, [], ◌∷◌, ◌++◌}
use dumbcas.Prelude.Sort.Named.{sort_named}
use dumbcas.Entry.Printing.{print, same_directory, swapped, print-SameTree}
use dumbcas.Prelude.{has_prefix}
use dumbcas.Prelude.FilePath.{split, join, clean, dir, base, join_parts, decimal}
use dumbcas.Entry.{Entry, entry, made, nil_map, child, end, set_child, find_child}
use dumbcas.Entry.Paths.{ItemToArchive, make_entry, make_parts}

clean_runs :
    (clean (text "/a//b/../c/./d/") ≡ text "/a/c/d")
    × (clean (text "../x/../..") ≡ text "../..")
    × (clean [] ≡ text ".")
unfolding clean join_parts split ◌==◌ has_prefix
clean_runs = (refl, refl, refl)

join_runs :
    (join (text "out") (text "a/b") ≡ text "out/a/b")
    × (join [] (text "a") ≡ text "a")
    × (dir (text "out/a/b") ≡ text "out/a")
    × (base (text "/x/y/") ≡ text "y")
    × (decimal 120 ≡ text "120")
unfolding join clean join_parts split ◌==◌ has_prefix dir base decimal
join_runs = (refl, refl, refl, refl, refl)

abbrev hello : ItemToArchive
hello = record {
  full_path = text "/home/a/hello";
  rel_path = text "a/hello";
  sha1 = text "5";
  size = 5;
}

abbrev tree : Entry
tree = entry [] 0 (made (child (text "z") (entry (text "9") 1 nil_map) end))

archived : Entry
unfolding make_entry make_parts split set_child find_child ◌==◌
archived = make_entry tree hello

archived_lem :
    archived
    ≡ entry [] 0 (
        made (
          child (text "z") (entry (text "9") 1 nil_map) (
            child
              (text "a")
              (entry [] 0 (made (child (text "hello") (entry (text "5") 5 nil_map) end)))
              end)))
unfolding archived
archived_lem = refl

abbrev leaf : Entry
leaf = entry (text "h") 12 nil_map

print_runs :
    print
      (entry [] 0 (made (child (text "b") leaf (child (text "a") (entry [] 0 (made end)) end))))
      []
    ≡ text "- 'a'"
      ++ (10 ∷ text "- 'b'")
      ++ (10 ∷ text "  Sha1: h")
      ++ (10 ∷ text "  Size: 12")
      ++ 10 ∷ []
unfolding print sort_named text_lt decimal ◌==◌
print_runs = refl

print-SameTree_example :
    print (entry [] 0 (made (child (text "b") leaf (child (text "a") leaf end)))) []
    ≡ print (entry [] 0 (made (child (text "a") leaf (child (text "b") leaf end)))) []
unfolding ◌==◌
print-SameTree_example =
    print-SameTree (entry [] 0 (made (child (text "b") leaf (child (text "a") leaf end))))
      (entry [] 0 (made (child (text "a") leaf (child (text "b") leaf end)))) []
      (same_directory [] 0 _ _ (swapped (text "b") (text "a") leaf leaf end refl))
