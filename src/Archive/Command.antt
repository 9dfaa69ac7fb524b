-- ===== src/Archive/Command.antt =====
-- main of archive.go, from Parse to its end.
use dumbcas.Prelude.{Text, true, List, map}
use dumbcas.Prelude.FilePath.{base}
use dumbcas.Table.{Result, ok, Codec, CasTable, NodesTable, ◌>>=◌}
use dumbcas.Common.{Application, parse}
use dumbcas.Cache.{EntryCache}
use dumbcas.Archive.{FileInfo, TreeItem, Input, Source}
use dumbcas.Archive.Inputs.{OpenedFile, load_inputs}
use dumbcas.Archive.Run.{Outcome, archive_run}

-- What the command finds: the environment, the files, and the cache that LoadCache gives.
pub record Machine : Type 0 where
  pub expand_env : Text → Text
  pub os_open : Text → Result OpenedFile
  pub working_dir : Result Text
  pub stat : Text → Result FileInfo
  pub tree : Text → List TreeItem
  pub source : Source
  pub cache : EntryCache

abbrev pub input_at : Machine → Text → Input
input_at w path = record { path = path; stat = w.stat path; tree = w.tree path }

module _ (C : CasTable) (N : NodesTable) (codec : Codec) where
  unfoldable pub archive_main :
      Application C N → Text → Machine → Text → Text → Result (Outcome C N codec)
  archive_main app root w comment to_archive_arg = do
    t ← parse C N app root true
    (to_archive, inputs) ← load_inputs w.expand_env w.os_open w.working_dir to_archive_arg
    ok (
        archive_run C N codec w.source (map (input_at w) inputs) w.cache (base to_archive) comment
          t)
