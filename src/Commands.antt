-- ===== src/Commands.antt =====
-- The methods Run of the commands: the number of the arguments, main, and the exit code. What is printed
-- is left out, but for version.
pub mod Codes
use dumbcas.Prelude.{ℕ, Text, text, true, List, [], ◌∷◌, Option, none, some}
use dumbcas.Table.{Error, Result, ok, err, Codec, CasTable, NodesTable}
use dumbcas.Common.{Application, Tables, parse}
use dumbcas.Gc.{gc_main}
use dumbcas.Fsck.{fsck_main}
use dumbcas.Restore.{Disk, restore_main}
use dumbcas.Info.{Line, info}
use dumbcas.Archive.Command.{Machine, archive_main}
use dumbcas.Web.Routes.{Handler, routes}

abbrev pub exit_code : Option Error → ℕ
exit_code none = 0
exit_code (some e) = 1

-- The exit code with what a command that was run leaves.
abbrev pub Exit : Type 0 → Type 0
Exit A = ℕ × Option A

abbrev pub refused : {A : Type 0} → Exit A
refused = (1, none)

no_argument : {A : Type 0} → List Text → Exit A → Exit A
no_argument [] run = run
no_argument (arg ∷ args) run = refused

one_argument : {A : Type 0} → List Text → (Text → Exit A) → Exit A
one_argument [] run = refused
one_argument (arg ∷ []) run = run arg
one_argument (arg ∷ other ∷ args) run = refused

exited : {A : Type 0} → (A → Option Error) → Result A → Exit A
exited error (err e) = refused
exited error (ok a) = (exit_code (error a), some a)

unfoldable pub version_command : List Text → Exit Text
unfolding no_argument
version_command args = no_argument args (0, some (text "0.1"))

module _ (C : CasTable) (N : NodesTable) (codec : Codec) (app : Application C N) (root : Text) where
  unfoldable pub gc_command : List Text → Exit (Tables C N)
  unfolding no_argument
  gc_command args = no_argument args (let (e, t) = gc_main C N codec app root in (exit_code e, t))

  failure : {A : Type 0} → Result A → Option Error
  failure (ok a) = none
  failure (err e) = some e

  unfoldable pub fsck_command : List Text → Exit (dumbcas.Fsck.Outcome C N codec)
  unfolding no_argument exited failure
  fsck_command args =
      no_argument args (exited (λ o. failure o.reports) (fsck_main C N codec app root))

  unfoldable pub restore_command :
      (D : Disk) → D.State → Text → List Text → Exit (dumbcas.Restore.Outcome C N codec D)
  unfolding one_argument exited
  restore_command D d out args =
      one_argument args
        (λ name. exited (λ o. o.error) (restore_main C N codec D app root d name out))

  -- main of info.go with Parse: the lines with their total, and the table of the objects.
  pub info_main : Text → Result (Result (List Line × ℕ) × C.State)
  info_main name = elim (parse C N app root true) [
    | err e ↦ err e
    | ok t ↦ ok (info C N codec t name)
  ]

  unfoldable pub info_command : List Text → Exit (Result (List Line × ℕ) × C.State)
  unfolding one_argument exited failure info_main
  info_command args = one_argument args (λ name. exited (λ o. failure o.0) (info_main name))

  unfoldable pub archive_command :
      Machine → Text → List Text → Exit (dumbcas.Archive.Run.Outcome C N codec)
  unfolding one_argument exited
  archive_command w comment args =
      one_argument args
        (λ arg. exited (λ o. o.returned) (archive_main C N codec app root w comment arg))

  -- main of web.go: `listen` is net.Listen with the address of the flags, and `serve` what Serve ends with
  -- for a handler. The handler of each table is given the tables that Parse has made.
  pub web_main :
      (Tables C N → Handler)
      → (Tables C N → Handler)
      → (listen : Option Error) → (serve : Handler → Option Error) → Option Error
  web_main cas_serve nodes_serve listen serve = elim (parse C N app root true) [
    | err e ↦ some e
    | ok t ↦ elim listen [ some e ↦ some e | none ↦ serve (routes (cas_serve t) (nodes_serve t)) ]
  ]

  unfoldable pub web_command :
      (Tables C N → Handler)
      → (Tables C N → Handler)
      → Option Error
      → (Handler → Option Error)
      → List Text
      → Exit (Option Error)
  unfolding no_argument web_main
  web_command cas_serve nodes_serve listen serve args =
      let e = web_main cas_serve nodes_serve listen serve in no_argument args (exit_code e, some e)
