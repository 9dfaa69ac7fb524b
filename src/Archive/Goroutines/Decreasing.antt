-- ===== src/Archive/Goroutines/Decreasing.antt =====
-- A bound on the rounds that are left to the goroutines of archive.go, which each round lowers.
use dumbcas.Prelude.{ℕ, suc, ◌+◌, ◌*◌, ◌<◌, ◌≤◌, Bool, true, false, ◌≡◌, refl, List, [], ◌∷◌}
use dumbcas.Prelude.{
  Option, none, some, length, ltb, length-append, arith, inl, inr, Bool-cases, Option-cases,
}
use dumbcas.Entry.Paths.{ItemToArchive}
use dumbcas.Table.{Codec, CasTable, Result-cases}
use dumbcas.Cache.{EntryCache}
use dumbcas.Archive.{TreeItem, tree_error, tree_item, Input, InputItem, Source}
use dumbcas.Archive.{hash_item}
use dumbcas.Archive.Goroutines.{
  Pipeline, start, walk_item, count_file, send_found, stat_input, next_input, next_found, hash_next,
  send_hashed, archive_next, archive_of, send_entry, found_capacity, hashed_capacity, Archiving,
  running, stopped, ended, enumerate_step, hash_step,
}
use dumbcas.Archive.Goroutines.{
  archive_step, Turn, enumerate_round, hash_round, archive_round, Reach, here, next,
}
use dumbcas.Archive.Goroutines.Rest.{Each, if_then-Each, if_else-Each, taken}

-- A bound on the rounds that are left.
unfoldable pub inputs_left : List Input → ℕ
inputs_left [] = 0
inputs_left (i ∷ is) = 6 + 5 * length i.tree + inputs_left is

walk_left : Option (List TreeItem) → ℕ
walk_left none = 0
walk_left (some ts) = 1 + 5 * length ts

held_left : {A : Type 0} → ℕ → Option A → ℕ
held_left n none = 0
held_left n (some a) = n

loop_left : Bool → ℕ
loop_left true = 1
loop_left false = 0

archiving_left : Archiving → ℕ
archiving_left running = 1
archiving_left stopped = 0
archiving_left (ended e) = 0

module _ (C : CasTable) where
  unfoldable pub rounds_left : Pipeline C → ℕ
  unfolding inputs_left walk_left held_left loop_left archiving_left
  rounds_left p =
      inputs_left p.inputs
      + walk_left p.walking
      + held_left 4 p.found_next
      + 3 * length p.found_items
      + held_left 2 p.hashed_next
      + length p.hashed_items
      + loop_left p.enumerating
      + loop_left p.hashing
      + archiving_left p.archiving

  abbrev Lowers : Pipeline C → Option (Pipeline C) → Type 0
  Lowers p = Each λ q. rounds_left q < rounds_left p

  walk_item-Lowers :
      (p : Pipeline C) (t : TreeItem) (ts : List TreeItem)
      → p.found_next ≡ none
      → p.walking ≡ some (t ∷ ts)
      → Lowers p (walk_item C (record p { walking = some ts }) t)
  unfolding rounds_left walk_item count_file
  walk_item-Lowers p (tree_error e) ts free at = rw (free, at) (omega arith)
  walk_item-Lowers p (tree_item full i) ts free at = elim (Bool-cases i.is_directory) [
    | inl d ↦ rw d (rw (free, at) (omega arith))
    | inr d ↦ rw d (rw (free, at) (omega arith))
  ]

  stat_input-Lowers :
      (p : Pipeline C) (i : Input) (is : List Input)
      → p.found_next ≡ none
      → p.walking ≡ none
      → p.inputs ≡ i ∷ is
      → Lowers p (stat_input C (record p { inputs = is }) i)
  unfolding rounds_left stat_input count_file
  stat_input-Lowers p i is free out at = elim (Result-cases i.stat) [
    | inr (why, e) ↦ rw (e, stat_input) (rw (free, out, at) (omega arith))
    | inl (f, e) ↦ elim (Bool-cases f.is_directory) [
      | inl d ↦ rw (e, stat_input) (rw d (rw (free, out, at) (omega arith)))
      | inr d ↦ rw (e, stat_input) (rw d (rw (free, out, at) (omega arith)))
    ]
  ]

  next_input-Lowers :
      (p : Pipeline C) (is : List Input)
      → p.enumerating ≡ true
      → p.found_next ≡ none
      → p.walking ≡ none
      → p.inputs ≡ is
      → Lowers p (next_input C p is)
  unfolding rounds_left next_input
  next_input-Lowers p [] on free out at = rw (on, free, out, at) (omega arith)
  next_input-Lowers p (i ∷ is) on free out at = stat_input-Lowers p i is free out at

  next_found-Lowers :
      (p : Pipeline C) (w : Option (List TreeItem))
      → p.enumerating ≡ true
      → p.found_next ≡ none
      → p.walking ≡ w
      → Lowers p (next_found C p w)
  unfolding rounds_left next_found
  next_found-Lowers p none on free at = next_input-Lowers p p.inputs on free at refl
  next_found-Lowers p (some []) on free at = rw (free, at) (omega arith)
  next_found-Lowers p (some (t ∷ ts)) on free at = walk_item-Lowers p t ts free at

  send_found-Lowers :
      (p : Pipeline C) (o : Option InputItem)
      → p.enumerating ≡ true
      → p.found_next ≡ o
      → Lowers p (send_found C p o)
  unfolding rounds_left send_found
  send_found-Lowers p none on at = next_found-Lowers p p.walking on at refl
  send_found-Lowers p (some item) on at =
      if_then-Each _ (ltb (length p.found_items) found_capacity) _
        λ room. rw at (omega (arith, length-append p.found_items (item ∷ [])))

  enumerate_step-Lowers : (p : Pipeline C) → Lowers p (enumerate_step C p)
  unfolding enumerate_step
  enumerate_step-Lowers p =
      if_then-Each _ p.enumerating (send_found C p p.found_next)
        λ on. send_found-Lowers p p.found_next on refl

  module _ (codec : Codec) (source : Source) where
    hash_next-Lowers :
        (p : Pipeline C) (items : List InputItem)
        → p.hashing ≡ true
        → p.hashed_next ≡ none
        → p.found_items ≡ items
        → Lowers p (hash_next C codec source p items)
    unfolding rounds_left hash_next
    hash_next-Lowers p [] on free at =
        if_else-Each _ p.enumerating _ λ off. rw (on, free) (omega arith)
    hash_next-Lowers p (item ∷ items) on free at =
        elim (Option-cases (hash_item codec source.read source.now item p.cache p.stats).0) [
          | inl e ↦ rw (e, free, at) (omega arith)
          | inr (o, e) ↦ rw (e, free, at) (omega arith)
        ]

    send_hashed-Lowers :
        (p : Pipeline C) (o : Option ItemToArchive)
        → p.hashing ≡ true
        → p.hashed_next ≡ o
        → Lowers p (send_hashed C codec source p o)
    unfolding rounds_left send_hashed
    send_hashed-Lowers p none on at = hash_next-Lowers p p.found_items on at refl
    send_hashed-Lowers p (some item) on at =
        if_then-Each _ (ltb (length p.hashed_items) hashed_capacity) _
          λ room. rw at (omega (arith, length-append p.hashed_items (item ∷ [])))

    hash_step-Lowers : (p : Pipeline C) → Lowers p (hash_step C codec source p)
    unfolding hash_step
    hash_step-Lowers p =
        if_then-Each _ p.hashing (send_hashed C codec source p p.hashed_next)
          λ on. send_hashed-Lowers p p.hashed_next on refl

    archive_next-Lowers :
        (p : Pipeline C) (items : List ItemToArchive)
        → p.archiving ≡ running
        → p.hashed_items ≡ items
        → Lowers p (archive_next C codec source p items)
    unfolding rounds_left archive_next send_entry
    archive_next-Lowers p [] on at = if_else-Each _ p.hashing _ λ off. rw on (omega arith)
    archive_next-Lowers p (item ∷ items) on at = rw at (omega arith)

    archive_of-Lowers :
        (p : Pipeline C) (a : Archiving)
        → p.archiving ≡ a
        → Lowers p (archive_of C codec source p a)
    unfolding archive_of
    archive_of-Lowers p running on = archive_next-Lowers p p.hashed_items on refl
    archive_of-Lowers p stopped on = tt
    archive_of-Lowers p (ended e) on = tt

    archive_step-Lowers : (p : Pipeline C) → Lowers p (archive_step C codec source p)
    unfolding archive_step
    archive_step-Lowers p = archive_of-Lowers p p.archiving refl

    pub rounds_left-Turn :
        {p q : Pipeline C} → Turn C codec source p q → rounds_left q < rounds_left p
    rounds_left-Turn {p} {q} (enumerate_round h) =
        taken _ (enumerate_step C p) q (enumerate_step-Lowers p) h
    rounds_left-Turn {p} {q} (hash_round h) =
        taken _ (hash_step C codec source p) q (hash_step-Lowers p) h
    rounds_left-Turn {p} {q} (archive_round h) =
        taken _ (archive_step C codec source p) q (archive_step-Lowers p) h

-- The number of steps.
unfoldable pub steps :
    {C : CasTable} {R : Pipeline C → Pipeline C → Type 0} {p q : Pipeline C} → Reach C R p q → ℕ
steps here = 0
steps (next r t) = suc (steps r)

module _ (C : CasTable) (codec : Codec) (source : Source) where
  steps-rounds_left :
      {p q : Pipeline C} (r : Reach C (Turn C codec source) p q)
      → steps r + rounds_left C q ≤ rounds_left C p
  unfolding steps
  steps-rounds_left here = omega arith
  steps-rounds_left (next r t) =
      let fewer = rounds_left-Turn C codec source t in
      let before = steps-rounds_left r in omega arith

  -- Without an interrupt the goroutines of archive take no more rounds than 3, 6 for each input,
  -- and 5 for each item of its walk.
  pub steps-start :
      (inputs : List Input) (cache : EntryCache) (c : C.State) (p : Pipeline C)
      (r : Reach C (Turn C codec source) (start C inputs cache c) p)
      → steps r ≤ inputs_left inputs + 3
  unfolding start rounds_left
  steps-start inputs cache c p r = let most = steps-rounds_left r in omega arith
