-- ===== src/Tests/Tables.antt =====
-- The tables in memory, gc and fsck, with a toy encoding: a node is the name of its tree, a tree is the
-- name of its only file, and the sha-1 of a content is its first byte forty times.
use dumbcas.Prelude.{ℕ, zero, suc, Text, text, ◌==◌, ◌≡◌, refl, true, false, [], ◌∷◌}
use dumbcas.Prelude.{Option, none, some}
use dumbcas.Prelude.Map.{lookup, insert, erase, contains}
use dumbcas.Entry.{entry, made, nil_map, child, end, tag_recurse}
use dumbcas.Table.{Error, failed, Codec, content}
use dumbcas.Cas.{MemoryCas, memory_cas, enumerate, open_item, remove, set_fsck_bit}
use dumbcas.Cas.{clear_fsck_bit, get_fsck_bit}
use dumbcas.Cas.Laws.{memory_cas-IsLawful, memory_cas-IsListed}
use dumbcas.Nodes
use dumbcas.Nodes.{MemoryNodes, memory_nodes, Stamp, load_entry, load_reader_as_json}
use dumbcas.Common.{Tables}
use dumbcas.Gc.{gc, collect, orphans, mark_node, mark_nodes, remove_all}
use dumbcas.Gc.Marks.{refers, is_live}
use dumbcas.Gc.Safety.{gc_keeps_live, content-gc}
use dumbcas.Fsck.{Report, fsck, check_objects, check_nodes, is_hash, node_is_valid, sha1_reader}
use dumbcas.Fsck.Objects.{is_intact, content-fsck}

abbrev pub repeated : ℕ → ℕ → Text
repeated zero c = []
repeated (suc n) c = c ∷ repeated n c

abbrev pub forty : Text → Text
forty [] = []
forty (c ∷ s) = repeated 40 c

abbrev pub toy : Codec
toy = record {
  encode_node = λ node. some node.entry_name;
  decode_node = λ bytes. some (record { entry_name = bytes; comment = [] });
  encode_entry = λ e. none;
  decode_entry = λ bytes. some (entry [] 0 (made (child (text "f") (entry bytes 1 nil_map) end)));
  sha1 = forty;
}

abbrev pub name_a : Text
name_a = repeated 40 b'a'

abbrev pub name_b : Text
name_b = repeated 40 b'b'

abbrev pub name_c : Text
name_c = repeated 40 b'c'

-- The tree `a` has the file `b`; `c` is not referred to.
abbrev pub objects : MemoryCas
objects = record {
  entries = (name_a, name_b) ∷ (name_b, text "b!") ∷ (name_c, text "c!") ∷ [];
  need_fsck = false;
}

abbrev backup : MemoryNodes
backup = record { entries = (text "n", name_a) ∷ [] }

abbrev pub dangling : MemoryNodes
dangling = record { entries = (text "n", text "gone") ∷ [] }

abbrev pub now : Stamp
now = record { month = text "2012-01"; second = text "2012-01-02_03-04-05" }

unfoldable pub run_gc : MemoryNodes → Option Error × MemoryCas
unfolding gc enumerate Nodes.enumerate collect mark_nodes mark_node Nodes.open_item load_entry
    load_reader_as_json open_item tag_recurse insert orphans remove_all remove lookup erase
    set_fsck_bit ◌==◌
run_gc n = gc memory_cas (memory_nodes toy now) toy objects n

gc_drops_c :
    run_gc backup
    ≡ (none, record { entries = (name_a, name_b) ∷ (name_b, text "b!") ∷ []; need_fsck = false })
unfolding run_gc
gc_drops_c = refl

gc_of_dangling :
    run_gc dangling
    ≡ (some (failed "Invalid entry name: %s" (text "gone")), record objects { need_fsck = true })
unfolding run_gc
gc_of_dangling = refl

gc_keeps_live_example :
    content memory_cas (gc memory_cas (memory_nodes toy now) toy objects backup).1 name_b
    ≡ content memory_cas objects name_b
unfolding is_live run_gc contains refers
gc_keeps_live_example =
    gc_keeps_live memory_cas memory_cas-IsLawful (memory_nodes toy now) toy objects backup name_b
      refl

content-gc_example :
    content memory_cas (gc memory_cas (memory_nodes toy now) toy objects backup).1 name_c ≡ none
unfolding is_live run_gc contains refers
content-gc_example =
    content-gc memory_cas memory_cas-IsLawful (memory_nodes toy now) toy objects backup name_c
      (memory_cas-IsListed objects) refl

abbrev pub tables : Tables memory_cas (memory_nodes toy now)
tables = record { cas = record objects { need_fsck = true }; nodes = dangling }

unfoldable pub run_fsck : MemoryCas × MemoryNodes
unfolding run_gc fsck check_objects check_nodes node_is_valid sha1_reader clear_fsck_bit
    Nodes.remove is_hash
run_fsck =
    let o = fsck memory_cas (memory_nodes toy now) toy tables in (o.tables.cas, o.tables.nodes)

-- `a` is not the sha-1 of its content, and the node does not name a tree.
fsck_run : run_fsck ≡ (
  record { entries = (name_b, text "b!") ∷ (name_c, text "c!") ∷ []; need_fsck = false },
  record { entries = [] },
)
unfolding run_fsck
fsck_run = refl

abbrev reports : Report × Report
reports = (record { scanned = 3; corrupted = 1 }, record { scanned = 1; corrupted = 1 })

content-fsck_example :
    (content memory_cas (fsck memory_cas (memory_nodes toy now) toy tables).tables.cas name_a
      ≡ none)
    × (get_fsck_bit (fsck memory_cas (memory_nodes toy now) toy tables).tables.cas ≡ false)
unfolding is_intact run_fsck
content-fsck_example =
    content-fsck memory_cas memory_cas-IsLawful toy (memory_nodes toy now) tables reports name_a
      (memory_cas-IsListed tables.cas) refl
