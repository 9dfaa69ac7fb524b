-- ===== src/Gc/Errors.antt =====
-- The command of gc.go reports its failures by the fsck bit.
use dumbcas.Prelude.{Text, Bool, true, false, ◌≡◌, List, [], ◌∷◌, some, arith}
use dumbcas.Prelude.{inl, inr}
use dumbcas.Prelude.Map.{Map}
use dumbcas.Table.{Error, Result, ok, err, Enumeration, item, broken, Node, Codec, CasTable}
use dumbcas.Table.{NodesTable, IsLawful, Result-cases}
use dumbcas.Nodes.{load_reader_as_json, load_entry}
use dumbcas.Gc.{
  collect, orphans, tag_loaded, mark_read, mark_entry, mark_node, mark_nodes, remove_all, gc,
}

-- Whether an enumeration went through without an error.
unfoldable pub is_whole : List Enumeration → Bool
is_whole [] = true
is_whole (item k ∷ es) = is_whole es
is_whole (broken e ∷ es) = false

module _ (C : CasTable) (L : IsLawful C) where
  remove_all-error :
      (ks : List Text) (s : C.State) (e : Error)
      → (remove_all C ks s).0 ≡ some e
      → C.get_fsck_bit (remove_all C ks s).1 ≡ true
  unfolding remove_all
  remove_all-error [] s e h = cc
  remove_all-error (k ∷ ks) s e h =
      ground (arith, remove_all-error ks (C.remove s k).1 e, L.get-set_fsck_bit (C.remove s k).1)

module _ (C : CasTable) (L : IsLawful C) (N : NodesTable) (codec : Codec) where
  mark_read-error :
      (s : C.State) (m : Map Bool) (name : Text) (r : Result Node) (e : Error)
      → (mark_read C N codec s m name r).0 ≡ err e
      → C.get_fsck_bit (mark_read C N codec s m name r).1 ≡ true
  unfolding mark_read mark_entry tag_loaded load_entry load_reader_as_json
  mark_read-error s m name (ok node) e h = ground (arith, L.get-set_fsck_bit s)
  mark_read-error s m name (err w) e h = L.get-set_fsck_bit s

  mark_node-error :
      (s : C.State) (n : N.State) (m : Map Bool) (name : Text) (e : Error)
      → (mark_node C N codec s n m name).0 ≡ err e
      → C.get_fsck_bit (mark_node C N codec s n m name).1 ≡ true
  unfolding mark_node
  mark_node-error s n m name e h = elim (Result-cases (N.open_item n name)) [
    | inl (f, o) ↦
        rw (o, mark_node)
          (mark_read-error s m name (load_reader_as_json codec.decode_node f) e
            (rw (o, mark_node) at h))
    | inr (why, o) ↦ rw (o, mark_node) (L.get-set_fsck_bit s)
  ]

  mark_nodes-error :
      (n : N.State) (es : List Enumeration) (m : Map Bool) (s : C.State) (e : Error)
      → is_whole es ≡ true
      → (mark_nodes C N codec n es m s).0 ≡ err e
      → C.get_fsck_bit (mark_nodes C N codec n es m s).1 ≡ true
  unfolding mark_nodes is_whole
  mark_nodes-error n [] m s e w h = cc
  mark_nodes-error n (broken x ∷ es) m s e w h = cc
  mark_nodes-error n (item name ∷ es) m s e w h =
      elim (Result-cases (mark_node C N codec s n m name).0) [
        | inl (m1, o) ↦
            ground (arith, mark_nodes-error n es m1 (mark_node C N codec s n m name).1 e w)
        | inr (why, o) ↦ ground (arith, mark_node-error s n m name why o)
      ]

  -- When gc fails and the enumeration of the nodes had no error, the fsck bit is set, in a lawful
  -- table.
  pub gc_failure-sets_fsck_bit :
      (s : C.State) (n : N.State) (e : Error)
      → is_whole (N.enumerate n) ≡ true
      → (gc C N codec s n).0 ≡ some e
      → C.get_fsck_bit (gc C N codec s n).1 ≡ true
  unfolding gc
  gc_failure-sets_fsck_bit s n e w h = elim (Result-cases (collect (C.enumerate s).0 [])) [
    | inl (m, o) ↦
        elim (Result-cases (mark_nodes C N codec n (N.enumerate n) m (C.enumerate s).1).0) [
          | inl (m', o') ↦ ground (
            arith,
            remove_all-error C L (orphans m')
                (mark_nodes C N codec n (N.enumerate n) m (C.enumerate s).1).1 e,
          )
          | inr (why, o') ↦
              ground (arith, mark_nodes-error n (N.enumerate n) m (C.enumerate s).1 why w o')
        ]
    | inr (why, o) ↦ ground (arith, L.get-set_fsck_bit (C.enumerate s).1)
  ]
