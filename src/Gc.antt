-- ===== src/Gc.antt =====
-- The command of gc.go: mark what the nodes refer to, and trash the other objects.
pub mod Marks
pub mod Safety
pub mod Errors
use dumbcas.Prelude.{Text, Bool, true, false, if◌then◌else◌, List, [], ◌∷◌, Option, none, some}
use dumbcas.Prelude.Map.{Map, insert}
use dumbcas.Entry.{Entry, tag_recurse}
use dumbcas.Table.{Error, failed, Result, ok, err, Enumeration, item, broken, Node}
use dumbcas.Table.{Codec, CasTable, NodesTable}
use dumbcas.Nodes.{load_reader_as_json, load_entry}
use dumbcas.Common.{Application, Tables, parse}

-- The first loop. Every object starts without a mark.
unfoldable pub collect : List Enumeration → Map Bool → Result (Map Bool)
collect [] marks = ok marks
collect (item k ∷ es) marks = collect es (insert k false marks)
collect (broken e ∷ es) marks = err (failed "Failed enumerating the CAS table %s" [])

unfoldable pub orphans : Map Bool → List Text
orphans [] = []
orphans ((k, tagged) ∷ marks) = let rest = orphans marks in if tagged then rest else k ∷ rest

module _ (C : CasTable) where
  -- The last loop.
  unfoldable pub remove_all : List Text → C.State → Option Error × C.State
  remove_all [] s = (none, s)
  remove_all (k ∷ ks) s =
      let (e, s') = C.remove s k in
      elim e [
        | none ↦ remove_all ks s'
        | some why ↦ (some (failed "Internal error while removing %s: %s" k), C.set_fsck_bit s')
      ]

module _ (C : CasTable) (N : NodesTable) (codec : Codec) where
  tag_loaded : Map Bool → Result Entry → Result (Map Bool)
  tag_loaded marks (ok e) = ok (tag_recurse marks e)
  tag_loaded marks (err e) = err e

  mark_entry : C.State → Map Bool → Node → Result (Map Bool) × C.State
  mark_entry s marks node =
      let (loaded, s') = load_entry C codec s node.entry_name in
      (tag_loaded (insert node.entry_name true marks) loaded, s')

  mark_read : C.State → Map Bool → Text → Result Node → Result (Map Bool) × C.State
  mark_read s marks name (ok node) = mark_entry s marks node
  mark_read s marks name (err e) =
      (err (failed "Failed opening node %s: %s" name), C.set_fsck_bit s)

  -- One round of the second loop.
  unfoldable pub mark_node : C.State → N.State → Map Bool → Text → Result (Map Bool) × C.State
  unfolding tag_loaded mark_entry mark_read
  mark_node s n marks name = elim (N.open_item n name) [
    | err e ↦ (err (failed "Failed opening node %s: %s" name), C.set_fsck_bit s)
    | ok f ↦ mark_read s marks name (load_reader_as_json codec.decode_node f)
  ]

  -- The second loop.
  unfoldable pub mark_nodes :
      N.State → List Enumeration → Map Bool → C.State → Result (Map Bool) × C.State
  mark_nodes n [] marks s = (ok marks, s)
  mark_nodes n (broken e ∷ es) marks s = (err e, s)
  mark_nodes n (item name ∷ es) marks s =
      let (r, s') = mark_node s n marks name in
      elim r [ ok marks' ↦ mark_nodes n es marks' s' | err e ↦ (err e, s') ]

  sweep : Result (Map Bool) × C.State → Option Error × C.State
  sweep (ok marks, s) = remove_all C (orphans marks) s
  sweep (err e, s) = (some e, s)

  mark_from : C.State → N.State → Result (Map Bool) → Option Error × C.State
  mark_from s n (ok marks) = sweep (mark_nodes n (N.enumerate n) marks s)
  mark_from s n (err e) = (some e, C.set_fsck_bit s)

  -- main after Parse. The nodes do not change.
  unfoldable pub gc : C.State → N.State → Option Error × C.State
  unfolding sweep mark_from
  gc s n = let (es, s') = C.enumerate s in mark_from s' n (collect es [])

  -- Without tables, Parse has failed.
  unfoldable pub gc_main : Application C N → Text → Option Error × Option (Tables C N)
  gc_main app root = elim (parse C N app root false) [
    | err e ↦ (some e, none)
    | ok t ↦ let (e, s) = gc t.cas t.nodes in (e, some (record t { cas = s }))
  ]
