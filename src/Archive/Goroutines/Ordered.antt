-- ===== src/Archive/Goroutines/Ordered.antt =====
-- Without an interrupt, a goroutine of archive.go leaves only after the one that sends to it.
use dumbcas.Prelude.{true, ◌≡◌, refl, sym, ◌∙◌, List, [], ◌∷◌}
use dumbcas.Prelude.{Option, none, some, length, ltb, inl, inr, Bool-cases}
use dumbcas.Entry.Paths.{ItemToArchive}
use dumbcas.Table.{Codec, CasTable, Result-cases}
use dumbcas.Cache.{EntryCache}
use dumbcas.Archive.{TreeItem, tree_error, tree_item, Input, InputItem, Source}
use dumbcas.Archive.Goroutines.{
  Pipeline, start, walk_item, count_file, send_found, stat_input, next_input, next_found, hash_next,
  send_hashed, archive_next, archive_of, send_entry, found_capacity, hashed_capacity, Archiving,
  running, stopped, ended, enumerate_step, hash_step,
}
use dumbcas.Archive.Goroutines.{archive_step, Turn, enumerate_round, hash_round, archive_round}
use dumbcas.Archive.Goroutines.Rest.{Each, if_then-Each, if_else-Each, Each-map, taken}

-- A goroutine is there as long as the one that it receives from, and archiveInputs has not been stopped.
abbrev pub IsOrdered : {C : CasTable} → Pipeline C → Type 0
IsOrdered p =
    (p.enumerating ≡ true → p.hashing ≡ true)
    × (p.hashing ≡ true → p.archiving ≡ running)
    × ¬ (p.archiving ≡ stopped)

module _ (C : CasTable) where
  -- A step of enumerateInputs leaves the others where they are.
  unfoldable pub Leaves : Pipeline C → Pipeline C → Type 0
  Leaves p q =
      (q.hashing ≡ p.hashing)
      × (q.archiving ≡ p.archiving)
      × (q.hashed_next ≡ p.hashed_next)
      × (q.hashed_items ≡ p.hashed_items)
      × (q.table ≡ p.table)

  walk_item-Leaves : (p : Pipeline C) (t : TreeItem) → Each (Leaves p) (walk_item C p t)
  unfolding Leaves walk_item count_file
  walk_item-Leaves p (tree_error e) = (refl, refl, refl, refl, refl)
  walk_item-Leaves p (tree_item full i) = elim (Bool-cases i.is_directory) [
    | inl d ↦ rw d (refl, refl, refl, refl, refl)
    | inr d ↦ rw d (refl, refl, refl, refl, refl)
  ]

  stat_input-Leaves : (p : Pipeline C) (i : Input) → Each (Leaves p) (stat_input C p i)
  unfolding Leaves stat_input count_file
  stat_input-Leaves p i = elim (Result-cases i.stat) [
    | inr (why, e) ↦ rw (e, stat_input) (refl, refl, refl, refl, refl)
    | inl (f, e) ↦ elim (Bool-cases f.is_directory) [
      | inl d ↦ rw (e, stat_input) (rw d (refl, refl, refl, refl, refl))
      | inr d ↦ rw (e, stat_input) (rw d (refl, refl, refl, refl, refl))
    ]
  ]

  next_input-Leaves : (p : Pipeline C) (is : List Input) → Each (Leaves p) (next_input C p is)
  unfolding Leaves next_input
  next_input-Leaves p [] = (refl, refl, refl, refl, refl)
  next_input-Leaves p (i ∷ is) = stat_input-Leaves (record p { inputs = is }) i

  next_found-Leaves :
      (p : Pipeline C) (w : Option (List TreeItem)) → Each (Leaves p) (next_found C p w)
  unfolding Leaves next_found
  next_found-Leaves p none = next_input-Leaves p p.inputs
  next_found-Leaves p (some []) = (refl, refl, refl, refl, refl)
  next_found-Leaves p (some (t ∷ ts)) = walk_item-Leaves (record p { walking = some ts }) t

  send_found-Leaves : (p : Pipeline C) (o : Option InputItem) → Each (Leaves p) (send_found C p o)
  unfolding Leaves send_found
  send_found-Leaves p none = next_found-Leaves p p.walking
  send_found-Leaves p (some item) =
      if_then-Each _ (ltb (length p.found_items) found_capacity) _
        λ room. (refl, refl, refl, refl, refl)

  pub enumerate_step-Leaves :
      (p : Pipeline C) → Each (λ q. (p.enumerating ≡ true) × Leaves p q) (enumerate_step C p)
  unfolding enumerate_step
  enumerate_step-Leaves p =
      if_then-Each _ p.enumerating (send_found C p p.found_next)
        λ on. Each-map (Leaves p) _ _ (λ q h. (on, h)) (send_found-Leaves p p.found_next)

  enumerate_step-IsOrdered : (p : Pipeline C) → IsOrdered p → Each IsOrdered (enumerate_step C p)
  unfolding Leaves
  enumerate_step-IsOrdered p (i, j, k) =
      Each-map _ IsOrdered _
        (λ q (on, same).
          let (h, a, _, _, _) = same in (λ _. h ∙ i on, λ _. a ∙ j (i on), λ e. k (sym a ∙ e)))
        (enumerate_step-Leaves p)

  module _ (codec : Codec) (source : Source) where
    hash_next-IsOrdered :
        (p : Pipeline C) (items : List InputItem)
        → p.hashing ≡ true
        → IsOrdered p
        → Each IsOrdered (hash_next C codec source p items)
    unfolding hash_next
    hash_next-IsOrdered p [] on (i, j, k) =
        if_else-Each _ p.enumerating _ λ off. (λ e. cc, λ e. cc, k)
    hash_next-IsOrdered p (item ∷ items) on h = h

    send_hashed-IsOrdered :
        (p : Pipeline C) (o : Option ItemToArchive)
        → p.hashing ≡ true
        → IsOrdered p
        → Each IsOrdered (send_hashed C codec source p o)
    unfolding send_hashed
    send_hashed-IsOrdered p none on h = hash_next-IsOrdered p p.found_items on h
    send_hashed-IsOrdered p (some item) on h =
        if_then-Each _ (ltb (length p.hashed_items) hashed_capacity) _ λ room. h

    hash_step-IsOrdered :
        (p : Pipeline C) → IsOrdered p → Each IsOrdered (hash_step C codec source p)
    unfolding hash_step
    hash_step-IsOrdered p h =
        if_then-Each _ p.hashing (send_hashed C codec source p p.hashed_next)
          λ on. send_hashed-IsOrdered p p.hashed_next on h

    archive_next-IsOrdered :
        (p : Pipeline C) (items : List ItemToArchive)
        → IsOrdered p
        → Each IsOrdered (archive_next C codec source p items)
    unfolding archive_next send_entry
    archive_next-IsOrdered p [] (i, j, k) = if_else-Each _ p.hashing _ λ off. (i, λ e. cc, λ e. cc)
    archive_next-IsOrdered p (item ∷ items) h = h

    archive_of-IsOrdered :
        (p : Pipeline C) (a : Archiving)
        → IsOrdered p
        → Each IsOrdered (archive_of C codec source p a)
    unfolding archive_of
    archive_of-IsOrdered p running h = archive_next-IsOrdered p p.hashed_items h
    archive_of-IsOrdered p stopped h = tt
    archive_of-IsOrdered p (ended e) h = tt

    archive_step-IsOrdered :
        (p : Pipeline C) → IsOrdered p → Each IsOrdered (archive_step C codec source p)
    unfolding archive_step
    archive_step-IsOrdered p h = archive_of-IsOrdered p p.archiving h

    pub Turn-IsOrdered : {p q : Pipeline C} → Turn C codec source p q → IsOrdered p → IsOrdered q
    Turn-IsOrdered {p} {q} (enumerate_round e) h =
        taken IsOrdered (enumerate_step C p) q (enumerate_step-IsOrdered p h) e
    Turn-IsOrdered {p} {q} (hash_round e) h =
        taken IsOrdered (hash_step C codec source p) q (hash_step-IsOrdered p h) e
    Turn-IsOrdered {p} {q} (archive_round e) h =
        taken IsOrdered (archive_step C codec source p) q (archive_step-IsOrdered p h) e

    pub start-IsOrdered :
        (inputs : List Input) (cache : EntryCache) (c : C.State)
        → IsOrdered (start C inputs cache c)
    unfolding start
    start-IsOrdered inputs cache c = (λ e. refl, λ e. refl, λ e. cc)
