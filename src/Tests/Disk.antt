-- ===== src/Tests/Disk.antt =====
-- A disk kept in a map, which never runs full, for the theorems on restore.
use mathlib.Core.List.{Perm}
use dumbcas.Prelude.{ℕ, Text, text, ◌==◌, ◌≡◌, refl, false, List, [], ◌∷◌}
use dumbcas.Prelude.{
  Option, none, some, if◌then◌else◌, length, arith, All, has_prefix, map, eq_iff, text_lt,
}
use dumbcas.Prelude.Map.{Map, lookup, insert, lookup-insert}
use dumbcas.Prelude.FilePath.{split, join, clean, dir, join_parts}
use dumbcas.Entry.{Entry, entry, made, nil_map, child, end}
use dumbcas.Table.{Error, exist, ok, err, Reader}
use dumbcas.Nodes
use dumbcas.Nodes.{memory_nodes, load_entry, load_reader_as_json}
use dumbcas.Common.{Tables}
use dumbcas.Cas.{MemoryCas, memory_cas, open_item}
use dumbcas.Restore.{Disk, IsLawfulDisk, restore_file, restore_entry, restore, load_tree}
use dumbcas.Restore.Safety.{restore_entry_keeps}
use dumbcas.Restore.Contents.{files_under, IsRestored, restore_entry-ok, restore-ok}
use dumbcas.Info.{Line, print_entry, sort_by_name}
use dumbcas.Info.Listing.{line_of, print_entry-perm}
use dumbcas.Tests.Tables.{toy, now, name_a, name_b}

pub create : Map Text → Text → Option Error × Map Text
create d p = elim (lookup p d) [ some old ↦ (some exist, d) | none ↦ (none, insert p [] d) ]

pub copy : Map Text → Text → Reader → Option Error × ℕ × Map Text
copy d p (ok bytes) = (none, length bytes, insert p bytes d)
copy d p (err e) = (some e, 0, d)

abbrev pub memory_disk : Disk
memory_disk = record {
  State = Map Text;
  file = λ d p. lookup p d;
  mkdir_all = λ d p. (none, d);
  create = create;
  copy = copy;
}

file-copy :
    (d : Map Text) (p : Text) (r : Reader)
    → (copy d p r).0 ≡ none
    → (bytes : Text) × (r ≡ ok bytes)
      × (lookup p (copy d p r).2 ≡ some bytes)
      × ((copy d p r).1 ≡ length bytes)
unfolding copy
file-copy d p (ok bytes) h =
    (bytes, refl, ground (arith, lookup-insert p p bytes d, eq_iff p p), refl)
file-copy d p (err e) h = absurd (ground arith)

file-copy_other :
    (d : Map Text) (p q : Text) (r : Reader)
    → (p == q) ≡ false
    → lookup q (copy d p r).2 ≡ lookup q d
unfolding copy
file-copy_other d p q (ok bytes) h = ground (arith, lookup-insert p q bytes d)
file-copy_other d p q (err e) h = refl

create_new : (d : Map Text) (p : Text) → (create d p).0 ≡ none → lookup p d ≡ none
unfolding create
create_new d p h = ground arith

file-create :
    (d : Map Text) (p q : Text)
    → (create d p).0 ≡ none
    → lookup q (create d p).1 ≡ (if p == q then some [] else lookup q d)
unfolding create
file-create d p q h = ground (arith, lookup-insert p q [] d)

file-create_failed :
    (d : Map Text) (p q : Text) (e : Error)
    → (create d p).0 ≡ some e
    → lookup q (create d p).1 ≡ lookup q d
unfolding create
file-create_failed d p q e h = ground arith

pub memory_disk-IsLawful : IsLawfulDisk memory_disk
memory_disk-IsLawful = record {
  file-mkdir_all = λ d p q. refl;
  create_new = create_new;
  file-create = file-create;
  file-create_failed = file-create_failed;
  file-copy = λ d p r empty h. file-copy d p r h;
  file-copy_other = file-copy_other;
}

abbrev objects : MemoryCas
objects = record { entries = (name_a, name_b) ∷ (name_b, text "!") ∷ []; need_fsck = false }

abbrev tree : Entry
tree = entry [] 0 (made (child (text "f") (entry name_b 1 nil_map) end))

abbrev pub before : Map Text
before = (text "out/old", text "kept") ∷ []

unfoldable pub run_restore : Option Error × ℕ × Map Text
unfolding restore_entry restore_file open_item create copy lookup insert join clean dir join_parts
    split ◌==◌ has_prefix
run_restore = restore_entry memory_cas memory_disk tree objects before (text "out")

restored : run_restore ≡ (none, 1, (text "out/old", text "kept") ∷ (text "out/f", text "!") ∷ [])
unfolding run_restore
restored = refl

restore_entry_keeps_example :
    lookup
      (text "out/old")
      (restore_entry memory_cas memory_disk tree objects before (text "out")).2
    ≡ some (text "kept")
unfolding run_restore
restore_entry_keeps_example =
    restore_entry_keeps memory_cas memory_disk memory_disk-IsLawful tree objects before (text "out")
      (text "out/old") (text "kept") refl

restore_entry_runs :
    All
      (IsRestored memory_cas memory_disk objects
        (restore_entry memory_cas memory_disk tree objects before (text "out")).2)
      (files_under tree (text "out"))
    × ((restore_entry memory_cas memory_disk tree objects before (text "out")).1
        ≡ length (files_under tree (text "out")))
unfolding run_restore
restore_entry_runs =
    restore_entry-ok memory_cas memory_disk memory_disk-IsLawful tree objects before (text "out")
      refl

abbrev tables : Tables memory_cas (memory_nodes toy now)
tables = record { cas = objects; nodes = record { entries = (text "n", name_a) ∷ [] } }

restore-ok_example :
    (e : Entry) × ((load_tree memory_cas (memory_nodes toy now) toy tables (text "n")).0 ≡ ok e)
    × All
        (IsRestored memory_cas memory_disk
          (load_tree memory_cas (memory_nodes toy now) toy tables (text "n")).1
          (restore memory_cas
            (memory_nodes toy now)
            toy
            memory_disk
            tables
            before
            (text "n")
            (text "out")).disk)
        (files_under e (text "out"))
    × ((restore memory_cas
          (memory_nodes toy now)
          toy
          memory_disk
          tables
          before
          (text "n")
          (text "out")).count
        ≡ some (length (files_under e (text "out"))))
unfolding run_restore restore load_tree load_entry load_reader_as_json Nodes.open_item
restore-ok_example =
    restore-ok memory_cas (memory_nodes toy now) toy memory_disk memory_disk-IsLawful tables before
      (text "n") (text "out") refl

-- The names of a directory are printed in order.
listing : List Line × ℕ
unfolding print_entry sort_by_name text_lt join clean join_parts split ◌==◌ has_prefix
listing =
    print_entry
      (entry [] 0 (
        made (
          child (text "b") (entry name_b 1 nil_map)
            (child (text "a") (entry name_a 2 nil_map) end))))
      []

abbrev two_files : Entry
two_files = entry [] 0 (
    made
      (child (text "b") (entry name_b 1 nil_map) (child (text "a") (entry name_a 2 nil_map) end)))

listing_runs :
    listing ≡ (record { path = text "a"; size = 2 } ∷ record { path = text "b"; size = 1 } ∷ [], 2)
unfolding listing
listing_runs = refl

print_entry-perm_example :
    Perm (print_entry two_files []).0 (map line_of (files_under two_files []))
    × ((print_entry two_files []).1 ≡ length (files_under two_files []))
print_entry-perm_example = print_entry-perm two_files []
