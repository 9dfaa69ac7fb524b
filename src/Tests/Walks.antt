-- ===== src/Tests/Walks.antt =====
-- The walk of a small tree, and the cache of hashes saved and loaded again.
use dumbcas.Prelude.{ℕ, zero, suc, Text, text, ◌≡◌, refl, false, Bool, leb, ◌==◌, arith, has_prefix}
use dumbcas.Prelude.{List, [], ◌∷◌, ◌++◌, Option, none, some}
use dumbcas.Prelude.FilePath.{clean, split, join, join_parts}
use dumbcas.Table.{Error, exist, not_exist, io, Result, ok, err}
use dumbcas.Archive.{TreeItem, tree_error}
use dumbcas.Archive.Counters.{zero_stats}
use dumbcas.Cache.{EntryCache, entry_cache, no_files, cached_file}
use dumbcas.Cache.Disk.{CacheFiles, IsLawfulCacheFiles, DiskCache, Decoded, decoded, nothing}
use dumbcas.Cache.Disk.{load_cache_inner, close, encode, load_cache_inner-close}
use dumbcas.Walk.{Folder, unopened, opened, no_more, batch, no_member, file, folder}
use dumbcas.Walk.{walk_folder, walk_batches, walk_members, enumerate_tree, found_file}
use dumbcas.Walk.Order.{all_folder, up_to_error, enumerate_tree_lem}
use dumbcas.Walk.Interrupts.{enumerate_tree-prefix, StaysSet}
use dumbcas.Walk.Relative.{relative_folder, items_of, is_named}
use dumbcas.Walk.Relative.{enumerate_tree-enumerate_tree}

abbrev inner : Folder
inner = opened (batch (file (text "y") 2 7 no_member) no_more)

abbrev home : Folder
home = opened (
    batch (file (text "x") 1 7 (folder (text "d") inner no_member))
      (batch (folder (text "e") (unopened io) (file (text "z") 3 7 no_member)) no_more))

-- The directory that cannot be opened ends the walk.
home_walked :
    enumerate_tree (λ n. false) (text "/h") home
    ≡ found_file (text "/h/x") 1 7 ∷ found_file (text "/h/d/y") 2 7 ∷ tree_error io ∷ []
unfolding enumerate_tree walk_folder walk_batches walk_members join clean split join_parts
    has_prefix ◌==◌
home_walked = refl

enumerate_tree_lem_example :
    enumerate_tree (λ n. false) (text "/h") home ≡ up_to_error (all_folder (text "/h") home)
enumerate_tree_lem_example = enumerate_tree_lem (text "/h") home

abbrev fourth : ℕ → Bool
fourth n = leb 4 n

fourth-StaysSet : StaysSet fourth
fourth-StaysSet = λ n h. ground arith

enumerate_tree-prefix_example :
    (rest : List TreeItem) × (enumerate_tree (λ n. false) (text "/h") home
      ≡ enumerate_tree fourth (text "/h") home ++ rest)
enumerate_tree-prefix_example = enumerate_tree-prefix fourth fourth-StaysSet (text "/h") home

enumerate_tree-enumerate_tree_example :
    (dumbcas.Archive.enumerate_tree
      (text "/h")
      (enumerate_tree (λ n. false) (text "/h") home)
      zero_stats).0
    ≡ items_of (text "/h/") 0 (up_to_error (relative_folder home))
unfolding clean split join_parts has_prefix is_named ◌==◌
enumerate_tree-enumerate_tree_example =
    enumerate_tree-enumerate_tree (text "/h") home zero_stats refl refl (λ e. cc) refl

-- A disk with one file, and a code for the caches that have a hash alone.
flat : EntryCache → Option Text
flat (entry_cache h zero zero zero no_files) = some (1 ∷ h)
flat (entry_cache h n t l fs) = none

toy_decode : Text → Decoded
toy_decode [] = nothing
toy_decode (c ∷ h) = decoded (entry_cache h 0 0 0 no_files)

toy_encode : Option Text → Text → EntryCache → Option Error × Option Text
toy_encode s p root = elim (flat root) [ none ↦ (some io, s) | some bytes ↦ (none, some bytes) ]

toy_open : Option Text → Text → Result Text
toy_open none p = err not_exist
toy_open (some bytes) p = ok bytes

abbrev cache_files : CacheFiles
cache_files = record {
  State = Option Text;
  mkdir = λ s d. (some exist, s);
  open_file = toy_open;
  truncate = λ s p. (none, some []);
  encode = toy_encode;
  size = λ s p. ok 200;
  home_dir = ok (text "/h");
  decode = toy_decode;
}

toy_encode-decoded :
    (s : Option Text) (p : Text) (root : EntryCache)
    → (toy_encode s p root).0 ≡ none
    → (bytes : Text) × (toy_open (toy_encode s p root).1 p ≡ ok bytes)
      × (toy_decode bytes ≡ decoded root)
unfolding toy_encode flat toy_decode toy_open
toy_encode-decoded s p (entry_cache h zero zero zero no_files) e = (1 ∷ h, refl, refl)
toy_encode-decoded s p (entry_cache h zero zero zero (cached_file q f fs)) e = cc
toy_encode-decoded s p (entry_cache h zero zero (suc l) fs) e = cc
toy_encode-decoded s p (entry_cache h zero (suc t) l fs) e = cc
toy_encode-decoded s p (entry_cache h (suc n) t l fs) e = cc

cache_files-IsLawful : IsLawfulCacheFiles cache_files
cache_files-IsLawful = record {
  open_file-mkdir = λ s d p. refl;
  open_file-encode = λ s p root t e. toy_encode-decoded (some []) p root e;
}

abbrev saved : DiskCache
saved = record {
  root = entry_cache (text "ab") 0 0 0 no_files;
  file_path = text "/h/.dumbcas/cache.gob";
}

load_cache_inner-close_example :
    load_cache_inner cache_files (close cache_files none saved).1 (text "/h/.dumbcas")
    ≡ (saved, none, (close cache_files none saved).1)
unfolding close encode toy_encode flat join clean split join_parts has_prefix ◌==◌
load_cache_inner-close_example =
    load_cache_inner-close cache_files cache_files-IsLawful none saved (text "/h/.dumbcas") refl
      refl refl refl
