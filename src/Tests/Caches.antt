-- ===== src/Tests/Caches.antt =====
-- The caches and the counters.
use dumbcas.Prelude.{ℕ, ◌≤◌, Text, text, ◌==◌, ◌≡◌, refl, false}
use dumbcas.Prelude.{Bool-cases, inl, inr, eq→path, sym, [], ◌∷◌, some, length, arith}
use dumbcas.Prelude.Map.{Map, lookup, insert, erase, NodupKeys}
use dumbcas.Table.{Result, ok}
use dumbcas.Entry.{Entry, entry, made, child, end, nil_map}
use dumbcas.Nodes.{load_reader_as_json}
use dumbcas.Cas.{MemoryCas, memory_cas, open_item}
use dumbcas.Cache.{EntryCache, entry_cache, no_files, empty_cache, Observed}
use dumbcas.Cache.{MemoryCache}
use dumbcas.Recent.{Cached, update_cache, evict, oldest}
use dumbcas.Recent.Bounds.{update_cache-total, update_cache-evicts}
use dumbcas.Recent.Entries.{read_tree, IsCoherent}
use dumbcas.Archive.{InputItem, hash_inputs}
use dumbcas.Archive.Counters.{zero_stats}
use dumbcas.Archive.SecondRun.{skipped, hash_inputs-hash_inputs}
use dumbcas.Prelude.FilePath.{split}
use dumbcas.Cache.{cache_parts}
use dumbcas.Prelude.{List, has_prefix}
use dumbcas.Table.{err, io}
use dumbcas.Tests.Tables.{toy}

abbrev changed : Observed
changed = record { size = 3; timestamp = 9; reader = ok (text "new") }

abbrev stale : EntryCache
stale = entry_cache (text "h") 3 8 0 no_files

abbrev epoch : Observed
epoch = record { size = 0; timestamp = 0; reader = ok [] }

abbrev open_cache : MemoryCache
open_cache = record { root = stale; closed = false }

abbrev recent : Map (Cached ℕ)
recent =
    (text "2012-01/a", record { object = 1; last_access = 5 })
    ∷ (text "2012-01/b/", record { object = 2; last_access = 3 })
    ∷ []

abbrev entering : Cached ℕ
entering = record { object = 3; last_access = 7 }

update_cache_runs :
    update_cache 2 (text "c") entering recent
    ≡ some (
        (text "2012-01/a", record { object = 1; last_access = 5 })
        ∷ (text "c", record { object = 3; last_access = 7 })
        ∷ [])
unfolding update_cache evict oldest insert erase ◌==◌
update_cache_runs = refl

update_cache-total_example :
    (m : Map (Cached ℕ)) × (update_cache 2 (text "c") entering recent ≡ some m)
    × (length m ≤ 2)
    × NodupKeys m
unfolding lookup ◌==◌
update_cache-total_example =
    update_cache-total 2 (text "c") entering recent (refl, (refl, tt)) (omega arith)

update_cache-evicts_example :
    (v : Text) × (w : Cached ℕ) × (update_cache 2 (text "c") entering recent
      ≡ some (erase v (insert (text "c") entering recent)))
    × (lookup v (insert (text "c") entering recent) ≡ some w)
    × ((j : Text) (x : Cached ℕ)
        → lookup j (insert (text "c") entering recent) ≡ some x
        → w.last_access ≤ x.last_access)
unfolding lookup insert ◌==◌
update_cache-evicts_example =
    update_cache-evicts 2 (text "c") entering recent (refl, (refl, tt)) (omega arith) (omega arith)

-- The tree is in the cache, as it is in the table.
abbrev stored : MemoryCas
stored = record { entries = (text "h", text "bytes") ∷ []; need_fsck = false }

read_stored : Result Entry
unfolding read_tree open_item load_reader_as_json lookup ◌==◌
read_stored = read_tree memory_cas toy stored (text "h")

abbrev trees : Map (Cached Entry)
trees =
    (
      text "h",
      record {
        object = entry [] 0 (made (child (text "f") (entry (text "bytes") 1 nil_map) end));
        last_access = 4;
      },
    )
    ∷ []

trees-IsCoherent : IsCoherent memory_cas toy stored trees
unfolding read_stored
trees-IsCoherent k o h = elim (Bool-cases (text "h" == k)) [
  | inl e ↦ rw (sym (eq→path (text "h") k e)) (ground (arith, e))
  | inr e ↦ absurd (ground (arith, e))
]

abbrev file_at : Text → InputItem
file_at path = record {
  full_path = path;
  rel_path = path;
  info = record { file_size = 2; mod_time = 5; is_directory = false };
}

abbrev two_files : List InputItem
two_files = file_at (text "/d/a") ∷ file_at (text "/d/b") ∷ []

abbrev readable : Text → Result Text
readable path = ok path

abbrev unreadable : Text → Result Text
unreadable path = err io

hash_inputs-hash_inputs_example :
    let first = hash_inputs toy readable 1 two_files empty_cache zero_stats in
    let second = hash_inputs toy unreadable 2 two_files first.1 zero_stats in
    (second.0 ≡ first.0) × (second.2 ≡ skipped two_files zero_stats)
unfolding cache_parts split has_prefix ◌==◌
hash_inputs-hash_inputs_example =
    hash_inputs-hash_inputs toy readable unreadable 1 2 two_files empty_cache zero_stats zero_stats
      ((text "/d/a", refl), ((text "/d/b", refl), tt)) (((refl, refl), tt), (tt, tt))
