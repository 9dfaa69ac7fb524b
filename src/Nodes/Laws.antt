-- ===== src/Nodes/Laws.antt =====
-- What LoadEntry leaves of the table and when it fails, and the laws of the nodes kept in memory.
use dumbcas.Prelude.{Text, ◌==◌, ◌≡◌, none, some, arith, if◌then◌else◌}
use dumbcas.Prelude.Map.{lookup-erase}
use dumbcas.Entry.{Entry}
use dumbcas.Table.{Error, ok, Codec, CasTable, IsLawful, IsLawfulNodes, content, node_content}
use dumbcas.Nodes.{
  MemoryNodes, Stamp, memory_nodes, open_item, remove, load_entry, load_reader_as_json,
}

module _ (C : CasTable) (codec : Codec) where
  -- A loaded entry leaves the table as it was.
  pub load_entry-ok :
      (s : C.State) (hash : Text) (e : Entry)
      → (load_entry C codec s hash).0 ≡ ok e
      → (load_entry C codec s hash).1 ≡ s
  unfolding load_entry load_reader_as_json
  load_entry-ok s hash e h = ground arith

  pub content-load_entry :
      IsLawful C
      → (s : C.State) (hash j : Text) → content C (load_entry C codec s hash).1 j ≡ content C s j
  unfolding load_entry load_reader_as_json
  content-load_entry L s hash j = ground (arith, L.content-set_fsck_bit s j)

module _ (codec : Codec) (now : Stamp) where
  content-remove :
      (s : MemoryNodes) (k j : Text)
      → (remove s k).0 ≡ none
      → node_content (memory_nodes codec now) (remove s k).1 j
        ≡ (if k == j then none else node_content (memory_nodes codec now) s j)
  unfolding remove open_item
  content-remove s k j h = ground (arith, lookup-erase k j s.entries)

  content-remove_failed :
      (s : MemoryNodes) (k j : Text) (e : Error)
      → (remove s k).0 ≡ some e
      → node_content (memory_nodes codec now) (remove s k).1 j
        ≡ node_content (memory_nodes codec now) s j
  unfolding remove open_item
  content-remove_failed s k j e h = ground arith

  remove-absent :
      (s : MemoryNodes) (k : Text) (e : Error)
      → (remove s k).0 ≡ some e
      → node_content (memory_nodes codec now) s k ≡ none
  unfolding remove open_item
  remove-absent s k e h = ground arith

  pub memory_nodes-IsLawful : IsLawfulNodes (memory_nodes codec now)
  memory_nodes-IsLawful = record {
    content-remove = content-remove;
    content-remove_failed = content-remove_failed;
    remove-absent = remove-absent;
  }
