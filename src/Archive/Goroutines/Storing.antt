-- ===== src/Archive/Goroutines/Storing.antt =====
-- A round of archiveInputs keeps what a run comes to.
use dumbcas.Prelude.{◌≡◌, refl, List, [], ◌∷◌, ◌++◌}
use dumbcas.Entry.Paths.{ItemToArchive}
use dumbcas.Table.{Codec, CasTable}
use dumbcas.Archive.Counters.{Stats, zero_stats}
use dumbcas.Archive.{Source}
use dumbcas.Archive.{archive_item, archive_items}
use dumbcas.Archive.{archive_entry}
use dumbcas.Archive.Goroutines.{
  Pipeline, archive_next, archive_of, send_entry, Archiving, running, stopped, ended,
}
use dumbcas.Archive.Goroutines.{archive_step}
use dumbcas.Archive.Goroutines.Sums.{archive_items-cons, archive_item-plus, archive_entry-plus}
use dumbcas.Archive.Goroutines.Rest.{
  left, to_hash, to_archive, pending, rest, Keeps, if_else-Each, to_enumerate-plus, to_hash-plus,
}

module _ (C : CasTable) (codec : Codec) (source : Source) where
  archive_round-Keeps :
      (p : Pipeline C) (item : ItemToArchive) (items : List ItemToArchive)
      → p.archiving ≡ running
      → p.hashed_items ≡ item ∷ items
      → Keeps C codec source p (archive_next C codec source p (item ∷ items))
  unfolding rest pending to_archive archive_next
  archive_round-Keeps p item items on at =
      let d = (archive_item C source.opened item p.table zero_stats).1 in
      let more =
        to_enumerate-plus C p.enumerating p.found_next p.input (left p.walking) p.inputs p.stats
          d in
      let (a, s) = pending C p in
      let (h, cache, s') =
        to_hash C codec source p.hashing p.hashed_next (p.found_items ++ a) p.cache s in
      rw (archive_item-plus C source.opened item p.table p.stats) (
        rw (on, at)
          (rw
            (
              more,
              to_hash-plus C codec source p.hashing p.hashed_next (p.found_items ++ a) p.cache s d,
            )
            (rw (archive_items-cons C source.opened item (items ++ h) p.root p.table s') refl)))

  archive_next-Keeps :
      (p : Pipeline C) (items : List ItemToArchive)
      → p.archiving ≡ running
      → p.hashed_items ≡ items
      → Keeps C codec source p (archive_next C codec source p items)
  unfolding rest pending to_hash to_archive archive_next archive_items send_entry
  archive_next-Keeps p [] on at = if_else-Each _ p.hashing _ λ off.
      let e = codec.encode_entry p.root in
      let round = λ (s : Stats). archive_entry-plus C source.opened codec e p.table s in
      let d = (archive_entry C source.opened codec e p.table zero_stats).2 in
      let more =
        to_enumerate-plus C p.enumerating p.found_next p.input (left p.walking) p.inputs p.stats
          d in
      rw (round p.stats) (rw (on, at, off) (rw more (rw (round (pending C p).1) refl)))
  archive_next-Keeps p (item ∷ items) on at = archive_round-Keeps p item items on at

  archive_of-Keeps :
      (p : Pipeline C) (a : Archiving)
      → p.archiving ≡ a
      → Keeps C codec source p (archive_of C codec source p a)
  unfolding archive_of
  archive_of-Keeps p running on = archive_next-Keeps p p.hashed_items on refl
  archive_of-Keeps p stopped on = tt
  archive_of-Keeps p (ended e) on = tt

  pub archive_step-Keeps : (p : Pipeline C) → Keeps C codec source p (archive_step C codec source p)
  unfolding archive_step
  archive_step-Keeps p = archive_of-Keeps p p.archiving refl
