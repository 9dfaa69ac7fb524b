-- ===== src/Archive/Goroutines/Enumerating.antt =====
-- A round of enumerateInputs keeps what a run comes to.
use dumbcas.Prelude.{true, ◌≡◌, refl, List, [], ◌∷◌}
use dumbcas.Prelude.{Option, none, some, length, ltb, append_assoc, inl, inr, Bool-cases}
use dumbcas.Table.{Codec, CasTable, Result-cases}
use dumbcas.Archive.{TreeItem, tree_error, tree_item, Input, InputItem, Source}
use dumbcas.Archive.{enumerate_tree, enumerate_inputs, enumerate_input}
use dumbcas.Archive.Goroutines.{
  Pipeline, walk_item, count_file, send_found, stat_input, next_input, next_found, found_capacity,
  enumerate_step,
}
use dumbcas.Archive.Goroutines.Rest.{left, to_enumerate, pending, rest, Keeps, if_then-Each}

module _ (C : CasTable) (codec : Codec) (source : Source) where
  walk_item-Keeps :
      (p : Pipeline C) (t : TreeItem) (ts : List TreeItem)
      → p.enumerating ≡ true
      → p.found_next ≡ none
      → p.walking ≡ some (t ∷ ts)
      → Keeps C codec source p (walk_item C (record p { walking = some ts }) t)
  unfolding rest left enumerate_tree walk_item count_file
  walk_item-Keeps p (tree_error e) ts on free at = rw (on, free, at) refl
  walk_item-Keeps p (tree_item full i) ts on free at = elim (Bool-cases i.is_directory) [
    | inl d ↦ rw d (rw (on, free, at) (rw d refl))
    | inr d ↦ rw d (rw (on, free, at) (rw d refl))
  ]

  stat_input-Keeps :
      (p : Pipeline C) (i : Input) (is : List Input)
      → p.enumerating ≡ true
      → p.found_next ≡ none
      → p.walking ≡ none
      → p.inputs ≡ i ∷ is
      → Keeps C codec source p (stat_input C (record p { inputs = is }) i)
  unfolding rest left enumerate_tree enumerate_inputs enumerate_input stat_input count_file
  stat_input-Keeps p i is on free out at = elim (Result-cases i.stat) [
    | inr (why, e) ↦ rw (e, stat_input) (rw (on, free, out, at) (rw (e, enumerate_input) refl))
    | inl (f, e) ↦ elim (Bool-cases f.is_directory) [
      | inl d ↦
          rw (e, stat_input) (rw d (rw (on, free, out, at) (rw (e, enumerate_input) (rw d refl))))
      | inr d ↦
          rw (e, stat_input) (rw d (rw (on, free, out, at) (rw (e, enumerate_input) (rw d refl))))
    ]
  ]

  next_input-Keeps :
      (p : Pipeline C) (is : List Input)
      → p.enumerating ≡ true
      → p.found_next ≡ none
      → p.walking ≡ none
      → p.inputs ≡ is
      → Keeps C codec source p (next_input C p is)
  unfolding rest left enumerate_tree enumerate_inputs next_input
  next_input-Keeps p [] on free out at = rw (on, free, out, at) refl
  next_input-Keeps p (i ∷ is) on free out at = stat_input-Keeps p i is on free out at

  next_found-Keeps :
      (p : Pipeline C) (w : Option (List TreeItem))
      → p.enumerating ≡ true
      → p.found_next ≡ none
      → p.walking ≡ w
      → Keeps C codec source p (next_found C p w)
  unfolding rest left enumerate_tree next_found
  next_found-Keeps p none on free at = next_input-Keeps p p.inputs on free at refl
  next_found-Keeps p (some []) on free at = rw (on, free, at) refl
  next_found-Keeps p (some (t ∷ ts)) on free at = walk_item-Keeps p t ts on free at

  send_found-Keeps :
      (p : Pipeline C) (o : Option InputItem)
      → p.enumerating ≡ true
      → p.found_next ≡ o
      → Keeps C codec source p (send_found C p o)
  unfolding rest pending to_enumerate send_found
  send_found-Keeps p none on at = next_found-Keeps p p.walking on at refl
  send_found-Keeps p (some item) on at =
      elim (Bool-cases (ltb (length p.found_items) found_capacity)) [
        | inl room ↦ rw room (rw (on, at) (rw append_assoc refl))
        | inr full ↦ rw full tt
      ]

  pub enumerate_step-Keeps : (p : Pipeline C) → Keeps C codec source p (enumerate_step C p)
  unfolding enumerate_step
  enumerate_step-Keeps p =
      if_then-Each _ p.enumerating (send_found C p p.found_next)
        λ on. send_found-Keeps p p.found_next on refl
