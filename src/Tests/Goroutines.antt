-- ===== src/Tests/Goroutines.antt =====
-- The goroutines of archive at the inputs of the pipeline.
use dumbcas.Prelude.{ℕ, zero, suc, ◌+◌, ◌≤◌, Text, text, ◌≡◌, refl, ◌⊎◌}
use dumbcas.Prelude.{List, [], ◌∷◌, Option, some, ◌==◌}
use dumbcas.Prelude.Map.{lookup}
use dumbcas.Entry.Paths.{ItemToArchive}
use dumbcas.Table.{ok, content}
use dumbcas.Cas.{memory_cas, make_memory_cas, open_item}
use dumbcas.Cas.Laws.{memory_cas-IsLawful}
use dumbcas.Cache.{empty_cache}
use dumbcas.Archive.{archive_all}
use dumbcas.Archive.Goroutines.{Pipeline, start, Turn, here, next, turn, enumerate_round}
use dumbcas.Archive.Goroutines.{stopped, enumerate_step, hashed_capacity}
use dumbcas.Archive.Goroutines.Order.{archive_all-Reach, IsEnded}
use dumbcas.Archive.Goroutines.Decreasing.{steps, steps-start, inputs_left}
use dumbcas.Archive.Goroutines.Progress.{start-HasTurn, start-HasEnd, HasTurn, HasEnd}
use dumbcas.Archive.Goroutines.Interrupts.{IsBlocked, content-Reach}
use dumbcas.Tests.Pipeline.{inputs, source, hello, objects}
use dumbcas.Tests.Tables.{toy, name_b}

abbrev begin : Pipeline memory_cas
begin = start memory_cas inputs empty_cache make_memory_cas

-- Some run to the end.
whole : HasEnd memory_cas toy source begin
whole = start-HasEnd memory_cas toy source inputs empty_cache make_memory_cas

archive_all-Reach_example :
    archive_all memory_cas toy source inputs empty_cache make_memory_cas ≡ record {
      entry_hash = whole.1;
      cache = whole.0.cache;
      table = whole.0.table;
      stats = whole.0.stats;
    }
archive_all-Reach_example =
    archive_all-Reach memory_cas toy source inputs empty_cache make_memory_cas whole.0 whole.1
      whole.2 whole.3

steps-start_example : steps whole.2 ≤ inputs_left inputs + 3
steps-start_example =
    steps-start memory_cas toy source inputs empty_cache make_memory_cas whole.0 whole.2

start-HasTurn_example : HasTurn memory_cas toy source begin ⊎ ((e : Option Text) × IsEnded begin e)
start-HasTurn_example =
    start-HasTurn memory_cas toy source inputs empty_cache make_memory_cas begin here

abbrev full : ℕ → List ItemToArchive
full zero = []
full (suc n) = hello ∷ full n

abbrev blocked : Pipeline memory_cas
blocked = record (start memory_cas inputs empty_cache objects) {
  hashed_next = some hello;
  hashed_items = full hashed_capacity;
  archiving = stopped;
}

blocked-IsBlocked : IsBlocked memory_cas toy source blocked
unfolding start
blocked-IsBlocked = (refl, (hello, refl), refl, refl)

after : (q : Pipeline memory_cas) × Turn memory_cas toy source blocked q
unfolding start enumerate_step
after = (_, enumerate_round refl)

content-Reach_example : content memory_cas after.0.table name_b ≡ some (ok (text "bye!"))
unfolding start open_item lookup ◌==◌
content-Reach_example =
    content-Reach memory_cas memory_cas-IsLawful toy source name_b (ok (text "bye!"))
      (next here (turn after.1)) refl
