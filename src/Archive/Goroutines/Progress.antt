-- ===== src/Archive/Goroutines/Progress.antt =====
-- The goroutines of archive.go do not block one another, and come to an end.
use dumbcas.Prelude.{
  ℕ, zero, suc, ◌≤◌, Text, true, if◌then◌else◌, ◌≡◌, refl, ◌∙◌, ap, List, [], ◌∷◌,
}
use dumbcas.Prelude.{Option, none, some, arith, ◌⊎◌, inl, inr, Bool-cases}
use dumbcas.Entry.Paths.{ItemToArchive}
use dumbcas.Table.{Codec, CasTable, Result-cases}
use dumbcas.Cache.{EntryCache}
use dumbcas.Archive.{TreeItem, tree_error, tree_item, Input, InputItem, Source}
use dumbcas.Archive.Goroutines.{
  Pipeline, start, walk_item, send_found, stat_input, next_input, next_found, hash_next,
  send_hashed, archive_next, archive_of, Archiving, running, stopped, ended, enumerate_step,
  hash_step,
}
use dumbcas.Archive.Goroutines.{
  archive_step, Turn, enumerate_round, hash_round, archive_round, Reach, here, next,
}
use dumbcas.Archive.Goroutines.Ordered.{IsOrdered, Turn-IsOrdered, start-IsOrdered}
use dumbcas.Archive.Goroutines.Decreasing.{rounds_left, rounds_left-Turn}
use dumbcas.Archive.Goroutines.Order.{IsEnded}

-- There is a value.
abbrev HasValue : {A : Type 0} → Option A → Type 0
HasValue {A} o = (a : A) × (o ≡ some a)

module _ (C : CasTable) where
  walk_item-HasValue : (p : Pipeline C) (t : TreeItem) → HasValue (walk_item C p t)
  unfolding walk_item
  walk_item-HasValue p (tree_error e) = (_, refl)
  walk_item-HasValue p (tree_item full i) = (_, refl)

  stat_input-HasValue : (p : Pipeline C) (i : Input) → HasValue (stat_input C p i)
  unfolding stat_input
  stat_input-HasValue p i = elim (Result-cases i.stat) [
    | inr (why, e) ↦ rw (e, stat_input) (_, refl)
    | inl (f, e) ↦ rw (e, stat_input) (_, refl)
  ]

  next_input-HasValue : (p : Pipeline C) (is : List Input) → HasValue (next_input C p is)
  unfolding next_input
  next_input-HasValue p [] = (_, refl)
  next_input-HasValue p (i ∷ is) = stat_input-HasValue (record p { inputs = is }) i

  next_found-HasValue : (p : Pipeline C) (w : Option (List TreeItem)) → HasValue (next_found C p w)
  unfolding next_found
  next_found-HasValue p none = next_input-HasValue p p.inputs
  next_found-HasValue p (some []) = (_, refl)
  next_found-HasValue p (some (t ∷ ts)) = walk_item-HasValue (record p { walking = some ts }) t

  send_found-HasValue :
      (p : Pipeline C) (o : Option InputItem) → p.found_items ≡ [] → HasValue (send_found C p o)
  unfolding send_found
  send_found-HasValue p none none_found = next_found-HasValue p p.walking
  send_found-HasValue p (some item) none_found = rw none_found (_, refl)

  module _ (codec : Codec) (source : Source) where
    hash_next-HasValue :
        (p : Pipeline C) (items : List InputItem)
        → HasValue (hash_next C codec source p items) ⊎ ((p.enumerating ≡ true) × (items ≡ []))
    unfolding hash_next
    hash_next-HasValue p [] = elim (Bool-cases p.enumerating) [
      | inl on ↦ inr (on, refl)
      | inr off ↦ inl (rw off (_, refl))
    ]
    hash_next-HasValue p (item ∷ items) = inl (_, refl)

    send_hashed-HasValue :
        (p : Pipeline C) (o : Option ItemToArchive)
        → p.hashed_items ≡ []
        → HasValue (send_hashed C codec source p o)
          ⊎ ((p.enumerating ≡ true) × (p.found_items ≡ []))
    unfolding send_hashed
    send_hashed-HasValue p none none_hashed = hash_next-HasValue p p.found_items
    send_hashed-HasValue p (some item) none_hashed = inl (rw none_hashed (_, refl))

    archive_next-HasValue :
        (p : Pipeline C) (items : List ItemToArchive)
        → HasValue (archive_next C codec source p items) ⊎ ((p.hashing ≡ true) × (items ≡ []))
    unfolding archive_next
    archive_next-HasValue p [] = elim (Bool-cases p.hashing) [
      | inl on ↦ inr (on, refl)
      | inr off ↦ inl (rw off (_, refl))
    ]
    archive_next-HasValue p (item ∷ items) = inl (_, refl)

    abbrev pub HasTurn : Pipeline C → Type 0
    HasTurn p = (q : Pipeline C) × Turn C codec source p q

    enumerate-HasTurn : (p : Pipeline C) → p.enumerating ≡ true → p.found_items ≡ [] → HasTurn p
    unfolding enumerate_step
    enumerate-HasTurn p on none_found =
        let (q, e) = send_found-HasValue p p.found_next none_found in
        (q, enumerate_round (ap (λ b. if b then send_found C p p.found_next else none) on ∙ e))

    hash-HasTurn : (p : Pipeline C) → p.hashing ≡ true → p.hashed_items ≡ [] → HasTurn p
    unfolding hash_step
    hash-HasTurn p on none_hashed = elim (send_hashed-HasValue p p.hashed_next none_hashed) [
      | inl (q, e) ↦ (
        q,
        hash_round
            (ap (λ b. if b then send_hashed C codec source p p.hashed_next else none) on ∙ e),
      )
      | inr (more, none_found) ↦ enumerate-HasTurn p more none_found
    ]

    -- While archiveInputs is in its loop, some goroutine has a round to do.
    archiving-HasTurn : (p : Pipeline C) → p.archiving ≡ running → HasTurn p
    unfolding archive_step archive_of
    archiving-HasTurn p on = elim (archive_next-HasValue p p.hashed_items) [
      | inl (q, e) ↦ (q, archive_round (ap (archive_of C codec source p) on ∙ e))
      | inr (more, none_hashed) ↦ hash-HasTurn p more none_hashed
    ]

    ended-IsEnded :
        (p : Pipeline C) (e : Option Text) → IsOrdered p → p.archiving ≡ ended e → IsEnded p e
    ended-IsEnded p e (i, j, k) at = elim (Bool-cases p.hashing) [
      | inl on ↦ let wrong = j on in cc
      | inr off ↦ elim (Bool-cases p.enumerating) [
        | inl on ↦ let wrong = i on in cc
        | inr out ↦ (out, off, at)
      ]
    ]

    IsEnded-or-HasTurn :
        (p : Pipeline C) → IsOrdered p → HasTurn p ⊎ ((e : Option Text) × IsEnded p e)
    IsEnded-or-HasTurn p h = ended_or_turn p.archiving refl
      where
        ended_or_turn :
            (a : Archiving) → p.archiving ≡ a → HasTurn p ⊎ ((e : Option Text) × IsEnded p e)
        ended_or_turn running at = inl (archiving-HasTurn p at)
        ended_or_turn stopped at = absurd (h.2 at)
        ended_or_turn (ended e) at = inr (e, ended-IsEnded p e h at)

    Reach-IsOrdered :
        {p q : Pipeline C} → Reach C (Turn C codec source) p q → IsOrdered p → IsOrdered q
    Reach-IsOrdered here h = h
    Reach-IsOrdered (next r t) h = Turn-IsOrdered C codec source t (Reach-IsOrdered r h)

    -- After any rounds of the goroutines of archive, without an interrupt, one of them has a next
    -- round, or all have come to their end.
    pub start-HasTurn :
        (inputs : List Input) (cache : EntryCache) (c : C.State) (p : Pipeline C)
        → Reach C (Turn C codec source) (start C inputs cache c) p
        → HasTurn p ⊎ ((e : Option Text) × IsEnded p e)
    start-HasTurn inputs cache c p r =
        IsEnded-or-HasTurn p (Reach-IsOrdered r (start-IsOrdered C codec source inputs cache c))

    abbrev pub HasEnd : Pipeline C → Type 0
    HasEnd p =
        (q : Pipeline C) × (e : Option Text) × Reach C (Turn C codec source) p q × IsEnded q e

    HasEnd-Reach :
        (n : ℕ) (p q : Pipeline C)
        → rounds_left C q ≤ n
        → IsOrdered q
        → Reach C (Turn C codec source) p q
        → HasEnd p
    HasEnd-Reach zero p q few h r = elim (IsEnded-or-HasTurn q h) [
      | inr (e, done) ↦ (q, e, r, done)
      | inl (q', t) ↦ let fewer = rounds_left-Turn C codec source t in absurd (omega arith)
    ]
    HasEnd-Reach (suc n) p q few h r = elim (IsEnded-or-HasTurn q h) [
      | inr (e, done) ↦ (q, e, r, done)
      | inl (q', t) ↦
          let fewer = rounds_left-Turn C codec source t in
          HasEnd-Reach n p q' (omega arith) (Turn-IsOrdered C codec source t h) (next r t)
    ]

    pub start-HasEnd :
        (inputs : List Input) (cache : EntryCache) (c : C.State) → HasEnd (start C inputs cache c)
    start-HasEnd inputs cache c =
        let p = start C inputs cache c in
        HasEnd-Reach (rounds_left C p) p p (omega arith)
          (start-IsOrdered C codec source inputs cache c) here
