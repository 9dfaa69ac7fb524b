-- ===== src/Cache/Printing.antt =====
-- Print and SortedFiles of EntryCache in dumbcaslib/cache.go: the output is that of the tree of the entries.
use dumbcas.Prelude.{Text, ◌≡◌, refl, ap, List, [], ◌∷◌, ◌++◌, text}
use dumbcas.Prelude.Sort.{sort_strings}
use dumbcas.Prelude.Sort.Named.{sort_named}
use dumbcas.Entry.{Entry, entry, made, Children, end, child}
use dumbcas.Entry.Printing.{
  hash_lines, name_line, concatenated, print, printed_files, printed_children,
}
use dumbcas.Cache.{EntryCache, entry_cache, CachedFiles, no_files, cached_file}

cached_names : CachedFiles → List Text
cached_names no_files = []
cached_names (cached_file name e cs) = name ∷ cached_names cs

-- SortedFiles
unfoldable pub sorted_cache : EntryCache → List Text
unfolding cached_names
sorted_cache (entry_cache h n t l fs) = sort_strings (cached_names fs)

-- Print
unfoldable mutual
  pub print_cache : EntryCache → Text → Text
  print_cache (entry_cache h n t l fs) indent =
      hash_lines indent h n ++ concatenated (sort_named (print_cached fs indent))

  pub print_cached : CachedFiles → Text → List (Text × Text)
  print_cached no_files indent = []
  print_cached (cached_file name e cs) indent =
      (name, name_line indent name ++ print_cache e (indent ++ text "  ")) ∷ print_cached cs indent

-- The tree with the hashes and the sizes of a cache.
abbrev mutual
  pub tree_of_cache : EntryCache → Entry
  tree_of_cache (entry_cache h n t l fs) = entry h n (made (children_of_cache fs))

  pub children_of_cache : CachedFiles → Children
  children_of_cache no_files = end
  children_of_cache (cached_file name e cs) = child name (tree_of_cache e) (children_of_cache cs)

mutual
  unfolding print_cache print_cached print printed_files printed_children

  pub print_cache-print :
      (e : EntryCache) (indent : Text) → print_cache e indent ≡ print (tree_of_cache e) indent
  print_cache-print (entry_cache h n t l fs) indent =
      ap (λ ps. hash_lines indent h n ++ concatenated (sort_named ps))
        (print_cached-printed_children fs indent)

  print_cached-printed_children :
      (fs : CachedFiles) (indent : Text)
      → print_cached fs indent ≡ printed_children (children_of_cache fs) indent
  print_cached-printed_children no_files indent = refl
  print_cached-printed_children (cached_file name e cs) indent =
      rw (print_cache-print e (indent ++ text "  "), print_cached-printed_children cs indent) refl
