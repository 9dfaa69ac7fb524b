-- ===== src/Tests/Backup.antt =====
-- A file that is archived, and a gc afterwards.
use dumbcas.Prelude.{Text, text, ◌==◌, ◌≡◌, refl, [], ◌∷◌, some}
use dumbcas.Prelude.Map.{lookup, insert}
use dumbcas.Entry.{empty_entry, set_child, find_child}
use dumbcas.Entry.Paths.{make_entry, make_parts}
use dumbcas.Table.{Result, Reader, ok, Codec, content}
use dumbcas.Cas.{memory_cas, make_memory_cas, add_entry, add_bytes, open_item}
use dumbcas.Cas.Laws.{memory_cas-IsLawful}
use dumbcas.Nodes.{memory_nodes, make_memory_nodes}
use dumbcas.Nodes.Naming.{stamp}
use dumbcas.Archive.Counters.{zero_stats}
use dumbcas.Archive.{archive_item, archive_items, archive_inputs, count_added}
use dumbcas.Gc.{gc}
use dumbcas.Gc.Marks.Archived.{gc-archive_inputs}
use dumbcas.Prelude.{none, false, Bool-cases, inl, inr, eq→path, ap, sym, ◌∙◌, arith, length}
use dumbcas.Common.{Tables}
use dumbcas.Nodes.{load_entry, load_reader_as_json}
use dumbcas.Restore.{load_tree, restore}
use dumbcas.Restore.Archived.{restore-archive_items, path_under}
use dumbcas.Tests.Disk.{memory_disk, memory_disk-IsLawful, before, run_restore}
use dumbcas.Tests.Tables.{now, toy, forty, name_b}
use dumbcas.Tests.Pipeline.{hello}

abbrev writing : Codec
writing = record toy {
  encode_entry = λ e. some (text "t");
  decode_entry = λ bytes. some (make_entry empty_entry hello);
}

abbrev opened_file : Text → Result Reader
opened_file path = ok (ok (text "bye!"))

gc-archive_inputs_example :
    let left =
      (archive_inputs memory_cas opened_file writing (hello ∷ []) make_memory_cas zero_stats).1 in
    let n =
      (dumbcas.Nodes.add_entry writing
        (stamp b'2' (text "012-01") (text "02"))
        make_memory_nodes
        (record { entry_name = forty (text "t"); comment = [] })
        (text "n")).1 in
    content memory_cas
      (gc memory_cas
        (memory_nodes writing (stamp b'2' (text "012-01") (text "02")))
        writing
        left
        n).1
      name_b
    ≡ content memory_cas left name_b
unfolding archive_inputs archive_items archive_item count_added make_memory_cas add_entry add_bytes
    open_item lookup insert ◌==◌
gc-archive_inputs_example =
    gc-archive_inputs memory_cas memory_cas-IsLawful writing opened_file [] [] hello make_memory_cas
      zero_stats (forty (text "t")) (text "t") [] b'2' (text "012-01") (text "02") (text "n")
      (forty (text "t")) make_memory_nodes tt refl refl refl refl refl

abbrev backup : Tables memory_cas (memory_nodes writing now)
backup = record {
  cas = record { entries = (name_b, text "bye!") ∷ []; need_fsck = false };
  nodes = record { entries = (text "n", name_b) ∷ [] };
}

backup_loads :
    load_tree memory_cas (memory_nodes writing now) writing backup (text "n")
    ≡ (ok (make_entry empty_entry hello), backup.cas)
unfolding load_tree load_entry load_reader_as_json open_item dumbcas.Nodes.open_item lookup ◌==◌
backup_loads = refl

addressed : (k bytes : Text) → content memory_cas backup.cas k ≡ some (ok bytes) → forty bytes ≡ k
unfolding open_item lookup
addressed k bytes e = elim (Bool-cases (name_b == k)) [
  | inl same ↦
      let at : name_b ≡ k = eq→path name_b k same in
      let held : text "bye!" ≡ bytes = ground (arith, e, same) in ap forty (sym held) ∙ at
  | inr other ↦ let no : none ≡ some bytes = ground (arith, e, other) in cc
]

restore-archive_items_example :
    let r =
      restore memory_cas
        (memory_nodes writing now)
        writing
        memory_disk
        backup
        before
        (text "n")
        (text "out") in
    (bytes : Text) × (forty bytes ≡ name_b)
    × (length bytes ≡ 4)
    × (memory_disk.file r.disk (text "out/a/hello") ≡ some bytes)
unfolding run_restore restore load_tree load_entry load_reader_as_json dumbcas.Nodes.open_item
    archive_items archive_item path_under make_entry make_parts set_child find_child
restore-archive_items_example =
    restore-archive_items memory_cas (memory_nodes writing now) writing memory_disk opened_file []
      [] hello make_memory_cas zero_stats backup before (text "n") (text "out") memory_disk-IsLawful
      tt refl refl addressed refl
