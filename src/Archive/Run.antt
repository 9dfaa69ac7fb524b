-- ===== src/Archive/Run.antt =====
-- main of archive.go after Parse, on the inputs that its list gives, and what it returns.
use dumbcas.Prelude.{Text, eqb, if◌then◌else◌, List, [], Option}
use dumbcas.Prelude.{none, some}
use dumbcas.Table.{Error, failed, Codec, CasTable, NodesTable}
use dumbcas.Common.{Tables}
use dumbcas.Cache.{EntryCache}
use dumbcas.Archive.Counters.{Stats}
use dumbcas.Archive.{Input, Source, archive_all}

module _ (C : CasTable) (N : NodesTable) (codec : Codec) where
  -- What main returns, the error that its loop ended with, and the state afterwards.
  pub record Outcome : Type 0 where
    pub returned : Option Error
    pub loop_error : Option Error
    pub tables : Tables C N
    pub cache : EntryCache
    pub stats : Stats

  -- The loop for the channel of the entry file: it is closed, or it gives a hash.
  pub finish_loop : Text → Text → Option Text → Stats → N.State → Option Error × N.State
  finish_loop name comment none s n =
      if eqb s.errors 0
      then (some (failed "Unexpected error." []), n)
      else (some (failed "Got %d errors!" []), n)
  finish_loop name comment (some hash) s n =
      let (r, n') = N.add_entry n (record { entry_name = hash; comment = comment }) name in
      (none, n')

  -- The last statement returns nil, whatever the loop ended with. The result of AddEntry is
  -- overwritten in the loop.
  unfoldable pub archive_run : Source → List Input → EntryCache → Text → Text → Tables C N → Outcome
  unfolding finish_loop
  archive_run source inputs cache name comment t =
      let a = archive_all C codec source inputs cache t.cas in
      let (e, n) = finish_loop name comment a.entry_hash a.stats t.nodes in
      record {
        returned = none;
        loop_error = e;
        tables = record { cas = a.table; nodes = n };
        cache = a.cache;
        stats = a.stats;
      }
