-- ===== src/Archive/Goroutines/Order.antt =====
-- The end of a run of the goroutines of archive.go does not depend on their order.
use dumbcas.Prelude.{Text, false, ◌≡◌, refl, sym, ◌∙◌, List}
use dumbcas.Prelude.{Option}
use dumbcas.Table.{Codec, CasTable}
use dumbcas.Cache.{EntryCache}
use dumbcas.Archive.{Input, Source, archive_all}
use dumbcas.Archive.{enumerate_tree, enumerate_inputs}
use dumbcas.Archive.{archive_inputs}
use dumbcas.Archive.Goroutines.{Pipeline, start, ended, enumerate_step, hash_step}
use dumbcas.Archive.Goroutines.{
  archive_step, Turn, enumerate_round, hash_round, archive_round, Reach, here, next,
}
use dumbcas.Archive.Goroutines.Rest.{left, rest, taken}
use dumbcas.Archive.Goroutines.Enumerating.{enumerate_step-Keeps}
use dumbcas.Archive.Goroutines.Hashing.{hash_step-Keeps}
use dumbcas.Archive.Goroutines.Storing.{archive_step-Keeps}

-- Where a run stands that has come to its end.
abbrev pub IsEnded : {C : CasTable} → Pipeline C → Option Text → Type 0
IsEnded p entry_hash =
    (p.enumerating ≡ false) × (p.hashing ≡ false) × (p.archiving ≡ ended entry_hash)

module _ (C : CasTable) (codec : Codec) (source : Source) where
  rest-Turn :
      {p q : Pipeline C} → Turn C codec source p q → rest C codec source q ≡ rest C codec source p
  rest-Turn {p} {q} (enumerate_round h) =
      taken _ (enumerate_step C p) q (enumerate_step-Keeps C codec source p) h
  rest-Turn {p} {q} (hash_round h) =
      taken _ (hash_step C codec source p) q (hash_step-Keeps C codec source p) h
  rest-Turn {p} {q} (archive_round h) =
      taken _ (archive_step C codec source p) q (archive_step-Keeps C codec source p) h

  rest-Reach :
      {p q : Pipeline C}
      → Reach C (Turn C codec source) p q
      → rest C codec source q ≡ rest C codec source p
  rest-Reach here = refl
  rest-Reach (next r t) = rest-Turn t ∙ rest-Reach r

  rest-start :
      (inputs : List Input) (cache : EntryCache) (c : C.State)
      → rest C codec source (start C inputs cache c) ≡ archive_all C codec source inputs cache c
  unfolding rest start left enumerate_inputs archive_all archive_inputs enumerate_tree
  rest-start inputs cache c = refl

  -- When the goroutines of archive, which take their rounds in any order over the two channels,
  -- have all come to their end without an interrupt, the hash that was sent, the cache, the table
  -- and the counters are those of the pipeline that runs one stage after another.
  pub archive_all-Reach :
      (inputs : List Input) (cache : EntryCache) (c : C.State) (p : Pipeline C)
      (entry_hash : Option Text)
      → Reach C (Turn C codec source) (start C inputs cache c) p
      → IsEnded p entry_hash
      → archive_all C codec source inputs cache c
        ≡ record { entry_hash = entry_hash; cache = p.cache; table = p.table; stats = p.stats }
  unfolding rest
  archive_all-Reach inputs cache c p entry_hash r (e, h, a) =
      sym (rest-start inputs cache c) ∙ sym (rest-Reach r) ∙ rw (e, h, a) refl
