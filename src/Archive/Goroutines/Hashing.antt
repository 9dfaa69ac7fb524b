-- ===== src/Archive/Goroutines/Hashing.antt =====
-- A round of hashInputs keeps what a run comes to.
use dumbcas.Prelude.{true, ◌≡◌, refl, List, [], ◌∷◌, ◌++◌}
use dumbcas.Prelude.{Option, none, some, length, ltb, append_assoc, inl, inr, Bool-cases}
use dumbcas.Entry.Paths.{ItemToArchive}
use dumbcas.Table.{Codec, CasTable}
use dumbcas.Archive.Counters.{zero_stats}
use dumbcas.Archive.{InputItem, Source}
use dumbcas.Archive.{hash_item, hash_inputs}
use dumbcas.Archive.Goroutines.{Pipeline, hash_next, send_hashed, hashed_capacity, hash_step}
use dumbcas.Archive.Goroutines.Sums.{hash_inputs-cons, hash_item-plus}
use dumbcas.Archive.Goroutines.Rest.{
  left, to_hash, work, pending, rest, Keeps, if_then-Each, if_else-Each, to_enumerate-plus,
}

module _ (C : CasTable) (codec : Codec) (source : Source) where
  hash_round-Keeps :
      (p : Pipeline C) (item : InputItem) (items : List InputItem)
      → p.hashing ≡ true
      → p.hashed_next ≡ none
      → p.found_items ≡ item ∷ items
      → Keeps C codec source p (hash_next C codec source p (item ∷ items))
  unfolding rest work to_hash pending hash_next
  hash_round-Keeps p item items on free at =
      let (o, cache, d) = hash_item codec source.read source.now item p.cache zero_stats in
      let (a, s) = pending C p in
      let more =
        to_enumerate-plus C p.enumerating p.found_next p.input (left p.walking) p.inputs p.stats
          d in
      let all = hash_inputs-cons codec source.read source.now item (items ++ a) p.cache s in
      rw (hash_item-plus codec source.read source.now item p.cache p.stats)
        (rw (on, free, at) (rw (more, all) refl))

  hash_next-Keeps :
      (p : Pipeline C) (items : List InputItem)
      → p.hashing ≡ true
      → p.hashed_next ≡ none
      → p.found_items ≡ items
      → Keeps C codec source p (hash_next C codec source p items)
  unfolding rest pending hash_next hash_inputs
  hash_next-Keeps p [] on free at =
      if_else-Each _ p.enumerating _ λ off. rw (off, on, free, at) refl
  hash_next-Keeps p (item ∷ items) on free at = hash_round-Keeps p item items on free at

  send_hashed-Keeps :
      (p : Pipeline C) (o : Option ItemToArchive)
      → p.hashing ≡ true
      → p.hashed_next ≡ o
      → Keeps C codec source p (send_hashed C codec source p o)
  unfolding rest to_hash send_hashed
  send_hashed-Keeps p none on at = hash_next-Keeps p p.found_items on at refl
  send_hashed-Keeps p (some item) on at =
      elim (Bool-cases (ltb (length p.hashed_items) hashed_capacity)) [
        | inl room ↦ rw room (rw (on, at) (rw append_assoc refl))
        | inr full ↦ rw full tt
      ]

  pub hash_step-Keeps : (p : Pipeline C) → Keeps C codec source p (hash_step C codec source p)
  unfolding hash_step
  hash_step-Keeps p =
      if_then-Each _ p.hashing (send_hashed C codec source p p.hashed_next)
        λ on. send_hashed-Keeps p p.hashed_next on refl
