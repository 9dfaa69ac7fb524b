-- ===== src/Gc/Safety.antt =====
-- The command of gc.go keeps what the nodes need and removes the rest.
use dumbcas.Prelude.{Text, Bool, true, false, if◌then◌else◌, inl, inr, Option-cases}
use dumbcas.Prelude.{◌≡◌, refl, List, [], ◌∷◌, none, arith}
use dumbcas.Prelude.Map.{Map, contains}
use dumbcas.Table.{Result, ok, err, Enumeration, item, broken, Node, Codec, CasTable, NodesTable}
use dumbcas.Table.{Result-cases, IsLawful, IsListed, content}
use dumbcas.Nodes.{load_reader_as_json}
use dumbcas.Nodes.Laws.{content-load_entry}
use dumbcas.Gc.{collect, orphans, mark_read, mark_entry, mark_node, mark_nodes, remove_all, gc}
use dumbcas.Gc.Marks.{is_live, contains-orphans_marked}

module _ (C : CasTable) (L : IsLawful C) where
  -- However far the last loop gets, an object that is not listed stays.
  content-remove_all_keep :
      (ks : List Text) (s : C.State) (j : Text)
      → contains ks j ≡ false
      → content C (remove_all C ks s).1 j ≡ content C s j
  unfolding remove_all contains
  content-remove_all_keep [] s j h = refl
  content-remove_all_keep (k ∷ ks) s j h = elim (Option-cases (C.remove s k).0) [
    | inl e ↦
        ground (arith, L.content-remove s k j e, content-remove_all_keep ks (C.remove s k).1 j)
    | inr (why, e) ↦
        ground
          (arith, L.content-remove_failed s k j why e, L.content-set_fsck_bit (C.remove s k).1 j)
  ]

  content-remove_all :
      (ks : List Text) (s : C.State) (j : Text)
      → (remove_all C ks s).0 ≡ none
      → content C (remove_all C ks s).1 j ≡ (if contains ks j then none else content C s j)
  unfolding remove_all contains
  content-remove_all [] s j h = refl
  content-remove_all (k ∷ ks) s j h =
      ground (arith, L.content-remove s k j, content-remove_all ks (C.remove s k).1 j)

module _ (C : CasTable) (L : IsLawful C) (N : NodesTable) (codec : Codec) where
  content-mark_read :
      (s : C.State) (m : Map Bool) (name j : Text) (r : Result Node)
      → content C (mark_read C N codec s m name r).1 j ≡ content C s j
  unfolding mark_read mark_entry
  content-mark_read s m name j (ok node) = content-load_entry C codec L s node.entry_name j
  content-mark_read s m name j (err e) = L.content-set_fsck_bit s j

  content-mark_node :
      (s : C.State) (n : N.State) (m : Map Bool) (name j : Text)
      → content C (mark_node C N codec s n m name).1 j ≡ content C s j
  unfolding mark_node
  content-mark_node s n m name j = elim (Result-cases (N.open_item n name)) [
    | inl (f, e) ↦
        rw (e, mark_node) (content-mark_read s m name j (load_reader_as_json codec.decode_node f))
    | inr (why, e) ↦ rw (e, mark_node) (L.content-set_fsck_bit s j)
  ]

  content-mark_nodes :
      (n : N.State) (es : List Enumeration) (m : Map Bool) (s : C.State) (j : Text)
      → content C (mark_nodes C N codec n es m s).1 j ≡ content C s j
  unfolding mark_nodes
  content-mark_nodes n [] m s j = refl
  content-mark_nodes n (broken e ∷ es) m s j = refl
  content-mark_nodes n (item name ∷ es) m s j =
      elim (Result-cases (mark_node C N codec s n m name).0) [
        | inl (m1, e) ↦ ground (
          arith,
          content-mark_node s n m name j,
          content-mark_nodes n es m1 (mark_node C N codec s n m name).1 j,
        )
        | inr (why, e) ↦ ground (arith, content-mark_node s n m name j)
      ]

  -- Whatever the outcome of gc on a lawful table, an object that an enumerated node needs keeps its
  -- content.
  pub gc_keeps_live :
      (s : C.State) (n : N.State) (k : Text)
      → is_live C N codec (C.enumerate s).1 n k ≡ true
      → content C (gc C N codec s n).1 k ≡ content C s k
  unfolding gc
  gc_keeps_live s n k live = elim (Result-cases (collect (C.enumerate s).0 [])) [
    | inl (m, e) ↦
        elim (Result-cases (mark_nodes C N codec n (N.enumerate n) m (C.enumerate s).1).0) [
          | inl (m', e') ↦ ground (
            arith,
            contains-orphans_marked C N codec n (C.enumerate s).0 (C.enumerate s).1 m m' k e e',
            content-remove_all_keep C L (orphans m') (C.enumerate s).1 k,
            L.content-enumerate s k,
          )
          | inr (why, e') ↦ ground (
            arith,
            content-mark_nodes n (N.enumerate n) m (C.enumerate s).1 k,
            L.content-enumerate s k,
          )
        ]
    | inr (why, e) ↦
        ground (arith, L.content-set_fsck_bit (C.enumerate s).1 k, L.content-enumerate s k)
  ]

  -- When gc succeeds on a lawful table that enumerates all its objects, the table holds exactly the
  -- objects that an enumerated node needs, with their content.
  pub content-gc :
      (s : C.State) (n : N.State) (k : Text)
      → IsListed C s
      → (gc C N codec s n).0 ≡ none
      → content C (gc C N codec s n).1 k
        ≡ (if is_live C N codec (C.enumerate s).1 n k then content C s k else none)
  unfolding gc
  content-gc s n k listed h = elim (Result-cases (collect (C.enumerate s).0 [])) [
    | inl (m, e) ↦
        elim (Result-cases (mark_nodes C N codec n (N.enumerate n) m (C.enumerate s).1).0) [
          | inl (m', e') ↦ elim (Option-cases (content C s k)) [
            | inl absent ↦ ground (
              arith,
              contains-orphans_marked C N codec n (C.enumerate s).0 (C.enumerate s).1 m m' k e e',
              content-remove_all C L (orphans m') (C.enumerate s).1 k,
              L.content-enumerate s k,
            )
            | inr (r, present) ↦ ground (
              arith,
              contains-orphans_marked C N codec n (C.enumerate s).0 (C.enumerate s).1 m m' k e e',
              content-remove_all C L (orphans m') (C.enumerate s).1 k,
              L.content-enumerate s k,
              listed k r present,
            )
          ]
          | inr (why, e') ↦ ground arith
        ]
    | inr (why, e) ↦ ground arith
  ]
