-- ===== src/Archive/Goroutines/Interrupts.antt =====
-- What an interrupt does to the goroutines of archive.go.
use dumbcas.Prelude.{Text, true, false, if◌then◌else◌, ◌≡◌, refl, ◌∙◌, ap, List, [], ◌∷◌, ◌++◌}
use dumbcas.Prelude.{Option, none, some, length, ltb}
use dumbcas.Entry.Paths.{ItemToArchive}
use dumbcas.Table.{ok, Codec, CasTable}
use dumbcas.Cache.{EntryCache}
use dumbcas.Archive.{Input, InputItem, Source}
use dumbcas.Archive.Goroutines.{
  Pipeline, start, hash_next, send_hashed, archive_next, archive_of, send_entry, hashed_capacity,
  Archiving, running, stopped, ended, enumerate_step, hash_step,
}
use dumbcas.Archive.Goroutines.{
  archive_step, Turn, enumerate_round, hash_round, archive_round, Reach, here, next,
}
use dumbcas.Archive.Goroutines.Rest.{Each, if_then-Each, if_else-Each, taken}
use dumbcas.Table.{content, IsLawful, Reader}
use dumbcas.Entry.{empty_entry}
use dumbcas.Cas.{add_bytes}
use dumbcas.Archive.{archive_entry}
use dumbcas.Archive.Counters.{Stats, zero_stats}
use dumbcas.Archive.Objects.{archive_item_keeps}
use dumbcas.Archive.Goroutines.{
  Step, turn, interrupt_walk, interrupt_enumerate, interrupt_hash, interrupt_archive,
}
use dumbcas.Archive.Goroutines.Ordered.{Leaves, enumerate_step-Leaves}

module _ (C : CasTable) (codec : Codec) (source : Source) where
  -- For all inputs there is a run in which an interrupt ends hashInputs alone and archiveInputs
  -- archives the entry file of the empty tree and sends its hash, if that can be encoded and added.
  pub interrupt_hash-ended :
      (inputs : List Input) (cache : EntryCache) (c : C.State)
      → let r = archive_entry C source.opened codec (codec.encode_entry empty_entry) c zero_stats in
        (q : Pipeline C) × Reach C (Step C codec source) (start C inputs cache c) q
        × (q.archiving ≡ ended r.0)
        × (q.table ≡ r.1)
  unfolding start archive_step
  interrupt_hash-ended inputs cache c =
      (_, next (next here (interrupt_hash refl refl refl)) (turn (archive_round refl)), refl, refl)

  -- hashInputs has an item to send, the channel is full and archiveInputs has left.
  abbrev pub IsBlocked : Pipeline C → Type 0
  IsBlocked p =
      (p.hashing ≡ true)
      × ((item : ItemToArchive) × (p.hashed_next ≡ some item))
      × (ltb (length p.hashed_items) hashed_capacity ≡ false)
      × (p.archiving ≡ stopped)

  hash_step-none : (p : Pipeline C) → IsBlocked p → hash_step C codec source p ≡ none
  unfolding hash_step send_hashed
  hash_step-none p (on, (item, held), full, off) =
      ap (λ b. if b then send_hashed C codec source p p.hashed_next else none) on
      ∙ ap (send_hashed C codec source p) held
      ∙ ap
          (λ b.
            if b
            then some (record p { hashed_next = none; hashed_items = p.hashed_items ++ item ∷ [] })
            else none)
          full

  archive_step-none :
      (p : Pipeline C) → p.archiving ≡ stopped → archive_step C codec source p ≡ none
  unfolding archive_step
  archive_step-none p off = ap (archive_of C codec source p) off

  IsBlocked-Leaves : (p q : Pipeline C) → Leaves C p q → IsBlocked p → IsBlocked q
  unfolding Leaves
  IsBlocked-Leaves p q (h, a, n, is, t) (on, (item, held), full, off) =
      (h ∙ on, (item, n ∙ held), ap (λ is. ltb (length is) hashed_capacity) is ∙ full, a ∙ off)

  Turn-IsBlocked : {p q : Pipeline C} → Turn C codec source p q → IsBlocked p → IsBlocked q
  Turn-IsBlocked {p} {q} (enumerate_round e) h =
      IsBlocked-Leaves p q (taken _ (enumerate_step C p) q (enumerate_step-Leaves C p) e).1 h
  Turn-IsBlocked {p} {q} (hash_round e) h = let no = hash_step-none p h in cc
  Turn-IsBlocked {p} {q} (archive_round e) h = let no = archive_step-none p h.3 in cc

  Step-IsBlocked : {p q : Pipeline C} → Step C codec source p q → IsBlocked p → IsBlocked q
  Step-IsBlocked (turn t) h = Turn-IsBlocked t h
  Step-IsBlocked (interrupt_walk ts at e) h = rw e h
  Step-IsBlocked (interrupt_enumerate ts on at free e) h = rw e h
  Step-IsBlocked (interrupt_hash on free e) h = let held = h.1.1 in cc
  Step-IsBlocked (interrupt_archive on e) h = let off = h.3 in cc

  -- When hashInputs has an item to send, the channel is full and archiveInputs was interrupted,
  -- this stays so whatever rounds and interrupts follow: hashInputs never ends.
  pub Reach-IsBlocked :
      {p q : Pipeline C} → Reach C (Step C codec source) p q → IsBlocked p → IsBlocked q
  Reach-IsBlocked here h = h
  Reach-IsBlocked (next r t) h = Step-IsBlocked t (Reach-IsBlocked r h)

module _ (C : CasTable) (L : IsLawful C) (codec : Codec) (source : Source) (k : Text)
    (old : Reader) where
  abbrev Holds : Pipeline C → Type 0
  Holds p = content C p.table k ≡ some old

  hash_step-Holds : (p : Pipeline C) → Holds p → Each Holds (hash_step C codec source p)
  unfolding hash_step hash_next send_hashed
  hash_step-Holds p h = if_then-Each _ p.hashing _ λ on. sent p.hashed_next
    where
      received : (items : List InputItem) → Each Holds (hash_next C codec source p items)
      received [] = if_else-Each _ p.enumerating _ λ off. h
      received (item ∷ items) = h

      sent : (o : Option ItemToArchive) → Each Holds (send_hashed C codec source p o)
      sent none = received p.found_items
      sent (some item) = if_then-Each _ (ltb (length p.hashed_items) hashed_capacity) _ λ room. h

  archive_entry_keeps :
      (o : Option Text) (c : C.State) (s : Stats)
      → content C c k ≡ some old
      → content C (archive_entry C source.opened codec o c s).1 k ≡ some old
  unfolding archive_entry add_bytes
  archive_entry_keeps none c s h = h
  archive_entry_keeps (some bytes) c s h = L.add_entry-keeps c (ok bytes) (codec.sha1 bytes) k old h

  archive_step-Holds : (p : Pipeline C) → Holds p → Each Holds (archive_step C codec source p)
  unfolding archive_step archive_next send_entry archive_of
  archive_step-Holds p h = in_loop p.archiving
    where
      received : (items : List ItemToArchive) → Each Holds (archive_next C codec source p items)
      received [] =
          if_else-Each _ p.hashing _
            λ off. archive_entry_keeps (codec.encode_entry p.root) p.table p.stats h
      received (item ∷ items) = archive_item_keeps C L source.opened item p.table p.stats k old h

      in_loop : (a : Archiving) → Each Holds (archive_of C codec source p a)
      in_loop running = received p.hashed_items
      in_loop stopped = tt
      in_loop (ended e) = tt

  Step-Holds : {p q : Pipeline C} → Step C codec source p q → Holds p → Holds q
  unfolding Leaves
  Step-Holds {p} {q} (turn (enumerate_round e)) h =
      let same = (taken _ (enumerate_step C p) q (enumerate_step-Leaves C p) e).1 in rw same.4 h
  Step-Holds {p} {q} (turn (hash_round e)) h =
      taken Holds (hash_step C codec source p) q (hash_step-Holds p h) e
  Step-Holds {p} {q} (turn (archive_round e)) h =
      taken Holds (archive_step C codec source p) q (archive_step-Holds p h) e
  Step-Holds (interrupt_walk ts at e) h = rw e h
  Step-Holds (interrupt_enumerate ts on at free e) h = rw e h
  Step-Holds (interrupt_hash on free e) h = rw e h
  Step-Holds (interrupt_archive on e) h = rw e h

  -- Whatever the order of the rounds and of the interrupts of the goroutines of archive, an object
  -- of a lawful table keeps its content.
  pub content-Reach :
      {p q : Pipeline C}
      → Reach C (Step C codec source) p q
      → content C p.table k ≡ some old
      → content C q.table k ≡ some old
  content-Reach here h = h
  content-Reach (next r t) h = Step-Holds t (content-Reach r h)
