-- ===== src/Tests/Pipeline.antt =====
-- Serving over HTTP, and the pipeline of archive on two small inputs.
use dumbcas.Prelude.{ℕ, ◌+◌, ◌≤◌, Text, text, ◌==◌, ◌≡◌, refl, true, false}
use dumbcas.Prelude.{List, [], ◌∷◌, some, arith, has_prefix}
use dumbcas.Prelude.{All}
use dumbcas.Prelude.Map.{lookup, insert}
use dumbcas.Prelude.FilePath.{split, base, trim_slashes}
use dumbcas.Entry.{Entry, entry, Files, nil_map, made, child, end, empty_entry, is_dir}
use dumbcas.Entry.{set_child, find_child}
use dumbcas.Entry.Paths.{ItemToArchive, make_entry, make_parts, walk, path_to_entry}
use dumbcas.Table.{io, not_exist, Result, ok, err, Reader, content}
use dumbcas.Cas.{MemoryCas, memory_cas, make_memory_cas, add_entry, add_bytes, open_item}
use dumbcas.Cas.Laws.{memory_cas-IsLawful, memory_cas-IsAtomic}
use dumbcas.Nodes.{memory_nodes}
use dumbcas.Common.{Tables}
use dumbcas.Fsck.{sha1_reader, fsck}
use dumbcas.Fsck.Archived.{fsck-archive_items}
use dumbcas.Cache.{empty_cache, update_file, entry_at, update_at, find_file, set_file, cache_parts}
use dumbcas.Web.{Request, memory_cas_serve, entry_serve, serve_dir}
use dumbcas.Web.{Written, write, http_error}
use dumbcas.Web.References.{follow}
use dumbcas.Web.Redirects.{entry_serve-directory, entry_serve-file}
use dumbcas.Archive.Counters.{Stats, zero_stats}
use dumbcas.Archive.{FileInfo, tree_error, tree_item, Input, Source, archive_all, enumerate_inputs}
use dumbcas.Archive.{
  enumerate_tree, hash_inputs, hash_item, archive_items, archive_item, archive_inputs,
}
use dumbcas.Archive.{count_added}
use dumbcas.Archive.Accounting.{archive_all-accounting}
use dumbcas.Archive.Objects.{archive_items-present}
use dumbcas.Archive.Objects.{IsPlain}
use dumbcas.Archive.Trees.{walk-archive_items}
use dumbcas.Tests.Tables.{toy, now, name_b}

abbrev pub get : Text → Request
get path = record { http_method = text "GET"; path = path; raw_query = [] }

abbrev pub hello : ItemToArchive
hello = record { full_path = text "/h/a/hello"; rel_path = text "a/hello"; sha1 = name_b; size = 4 }

abbrev pub objects : MemoryCas
objects = record { entries = (name_b, text "bye!") ∷ []; need_fsck = false }

-- A directory and a file.
abbrev folder : Entry
folder = entry [] 0 (
    made (child (text "d") (entry [] 0 (made end)) (child (text "f") (entry name_b 4 nil_map) end)))

entry_serve-directory_example :
    (follow (get (text "/d")) (entry_serve (memory_cas_serve objects) folder (get (text "/d")))
      ≡ some (get (text "/d/")))
    × (entry_serve (memory_cas_serve objects) folder (get (text "/d/"))
        ≡ serve_dir (entry [] 0 (made end)))
unfolding is_dir has_prefix path_to_entry trim_slashes walk split find_child ◌==◌
entry_serve-directory_example =
    entry_serve-directory (memory_cas_serve objects) folder (entry [] 0 (made end))
      (get (text "/d")) [] (text "d") refl refl refl refl refl

entry_serve-file_example :
    (follow (get (text "/f/")) (entry_serve (memory_cas_serve objects) folder (get (text "/f/")))
      ≡ some (get (text "/f/f")))
    × (entry_serve (memory_cas_serve objects) folder (get (text "/f/f"))
        ≡ http_error 404 "404 page not found" [])
unfolding is_dir has_prefix path_to_entry trim_slashes walk split find_child ◌==◌
entry_serve-file_example =
    entry_serve-file (memory_cas_serve objects) folder (entry name_b 4 nil_map) (get (text "/f")) []
      (text "f") refl refl refl refl refl

abbrev writes : List Written
writes = write 3 ∷ write 4 ∷ []

abbrev file_info : ℕ → FileInfo
file_info n = record { file_size = n; mod_time = 7; is_directory = false }

abbrev pub inputs : List Input
inputs =
    record {
      path = text "/h";
      stat = ok (record { file_size = 0; mod_time = 1; is_directory = true });
      tree = tree_item (text "/h/x") (file_info 2) ∷ tree_error io ∷ [];
    }
    ∷ record { path = text "/gone"; stat = err not_exist; tree = [] }
    ∷ record { path = text "/list"; stat = ok (file_info 1); tree = [] }
    ∷ []

abbrev pub source : Source
source = record { read = λ p. ok (text "x"); opened = λ p. ok (ok (text "x")); now = 10 }

-- The tree `{}` has no encoding in the toy codec, so the entry file counts as an error.
run_all : Stats
unfolding archive_all enumerate_inputs enumerate_tree hash_inputs hash_item archive_inputs
    archive_items archive_item count_added update_file sha1_reader entry_at update_at find_file
    set_file cache_parts split base ◌==◌ has_prefix make_entry make_parts set_child find_child
    add_entry add_bytes lookup insert
run_all = (archive_all memory_cas toy source inputs empty_cache make_memory_cas).stats

run_all_runs : run_all ≡ record zero_stats {
  errors = 3;
  found = 2;
  total_size = 3;
  nb_hashed = 2;
  bytes_hashed = 3;
  nb_archived = 1;
  bytes_archived = 2;
  nb_not_archived = 1;
  bytes_not_archived = 1;
}
unfolding run_all make_memory_cas
run_all_runs = refl

archive_all-accounting_example :
    let s = (archive_all memory_cas toy source inputs empty_cache make_memory_cas).stats in
    (s.nb_archived + s.nb_not_archived + s.errors ≡ s.found + 2 + 1)
    × (s.nb_hashed + s.nb_not_hashed ≤ s.found)
archive_all-accounting_example =
    archive_all-accounting memory_cas toy source inputs empty_cache make_memory_cas

abbrev opened_bye : Text → Result Reader
opened_bye p = ok (ok (text "bye!"))

opened_bye-IsPlain : IsPlain opened_bye
opened_bye-IsPlain = λ p e. cc

archive_items-present_example :
    All
      (λ item.
        (r : Reader) × (content memory_cas
            (archive_items memory_cas opened_bye
              (hello ∷ [])
              empty_entry
              make_memory_cas
              zero_stats).1
            item.sha1
          ≡ some r))
      (hello ∷ [])
unfolding run_all make_memory_cas
archive_items-present_example =
    archive_items-present memory_cas memory_cas-IsLawful opened_bye opened_bye-IsPlain (hello ∷ [])
      empty_entry make_memory_cas zero_stats refl

fsck-archive_items_example :
    let left =
      (archive_items memory_cas opened_bye (hello ∷ []) empty_entry make_memory_cas zero_stats).1 in
    content memory_cas
      (fsck memory_cas
        (memory_nodes toy now)
        toy
        (record { cas = left; nodes = record { entries = [] } })).tables.cas
      name_b
    ≡ some (ok (text "bye!"))
unfolding archive_items archive_item count_added make_memory_cas add_entry open_item lookup insert
    ◌==◌
fsck-archive_items_example =
    fsck-archive_items memory_cas memory_cas-IsLawful memory_cas-IsAtomic (memory_nodes toy now) toy
      opened_bye (hello ∷ []) empty_entry make_memory_cas zero_stats (record { entries = [] })
      name_b (text "bye!") ((λ bytes e. ground arith), tt) (λ k bytes e. absurd (ground arith)) refl

walk-archive_items_example :
    (fs : Files) × (walk
        (text "a" ∷ text "hello" ∷ [])
        (archive_items memory_cas opened_bye (hello ∷ []) empty_entry objects zero_stats).0
      ≡ some (entry name_b 4 fs))
unfolding split
walk-archive_items_example =
    walk-archive_items memory_cas opened_bye [] [] hello empty_entry objects zero_stats tt

abbrev tables : Tables memory_cas (memory_nodes toy now)
tables = record { cas = objects; nodes = record { entries = [] } }
