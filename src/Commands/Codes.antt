-- ===== src/Commands/Codes.antt =====
-- What the exit codes of the commands say, and what one command leaves for the next one.
use dumbcas.Prelude.{Text, true, false, ◌≡◌, ◌≢◌, refl, sym, ap, ◌∙◌, [], Option, none, some, arith}
use dumbcas.Prelude.{inl, inr}
use dumbcas.Table.{Error, ok, err, Codec, CasTable, NodesTable, IsLawful, Result-cases}
use dumbcas.Common.{Application, Tables, parse, parse-refused, parse-opened}
use dumbcas.Gc.{gc, gc_main}
use dumbcas.Gc.Errors.{is_whole, gc_failure-sets_fsck_bit}
use dumbcas.Fsck.{fsck, fsck_main}
use dumbcas.Fsck.Objects.{fsck-clears_fsck_bit}
use dumbcas.Commands.{exit_code, no_argument, exited, gc_command, fsck_command, failure}

exit_code-failed : (x : Option Error) → exit_code x ≡ 1 → (e : Error) × (x ≡ some e)
exit_code-failed none h = ground arith
exit_code-failed (some e) h = (e, refl)

some-injective : {A : Type 0} {a b : A} → some a ≡ some b → a ≡ b
some-injective h = cc

module _ (C : CasTable) (L : IsLawful C) (N : NodesTable) (codec : Codec) where
  gc_command-refused :
      (app : Application C N) (root : Text) (e : Error)
      → parse C N app root false ≡ err e
      → gc_command C N codec app root [] ≡ (1, none)
  unfolding gc_command no_argument gc_main
  gc_command-refused app root e p = rw (gc_command, gc_main, p) refl

  gc_command-ran :
      (app : Application C N) (root : Text) (t : Tables C N)
      → parse C N app root false ≡ ok t
      → let r = gc C N codec t.cas t.nodes in
        gc_command C N codec app root [] ≡ (exit_code r.0, some (record t { cas = r.1 }))
  unfolding gc_command no_argument gc_main
  gc_command-ran app root t p = rw (gc_command, gc_main, p) refl

  fsck_command-ran :
      (app : Application C N) (root : Text) (o : dumbcas.Fsck.Outcome C N codec)
      → fsck_command C N codec app root [] ≡ (0, some o)
      → C.get_fsck_bit o.tables.cas ≡ false
  unfolding fsck_command no_argument exited failure fsck_main
  fsck_command-ran app root o h = elim (Result-cases (parse C N app root true)) [
    | inr (e, p) ↦ ground (arith, p)
    | inl (t, p) ↦ elim (Result-cases (fsck C N codec t).reports) [
      | inl (rs, q) ↦ ground (arith, p, fsck-clears_fsck_bit C L codec N t rs q)
      | inr (e, q) ↦ ground (arith, p, q)
    ]
  ]

  -- When gc was run on lawful tables whose nodes were enumerated without an error and exits with 1,
  -- a gc of the table that it leaves exits with 1 and does nothing.
  pub gc_command-gc_command :
      (app app' : Application C N) (root root' path : Text) (before after : Tables C N)
      → parse C N app root false ≡ ok before
      → is_whole (N.enumerate before.nodes) ≡ true
      → gc_command C N codec app root [] ≡ (1, some after)
      → app'.abs root' ≡ ok path
      → app'.make_cas_table path ≡ ok after.cas
      → gc_command C N codec app' root' [] ≡ (1, none)
  gc_command-gc_command app app' root root' path before after p w h a m =
      let g = gc C N codec before.cas before.nodes in
      let ran : (exit_code g.0, some (record before { cas = g.1 })) ≡ (1, some after) =
        sym (gc_command-ran app root before p) ∙ h in
      let (e, failed_by) = exit_code-failed g.0 (ap (λ r. r.0) ran) in
      let left : record before { cas = g.1 } ≡ after = some-injective (ap (λ r. r.1) ran) in
      let bit : C.get_fsck_bit after.cas ≡ true =
        ap (λ t. C.get_fsck_bit t.cas) (sym left)
        ∙ gc_failure-sets_fsck_bit C L N codec before.cas before.nodes e w failed_by in
      let (why, refused_by) = parse-refused C N app' root' path after.cas a m bit in
      gc_command-refused app' root' why refused_by

  -- When fsck exits with 0 on a lawful table, a gc of the table that it leaves is run, if its nodes
  -- can be loaded.
  pub gc_command-fsck_command :
      (app app' : Application C N) (root root' path : Text) (o : dumbcas.Fsck.Outcome C N codec)
      (n : N.State)
      → fsck_command C N codec app root [] ≡ (0, some o)
      → root' ≢ []
      → app'.abs root' ≡ ok path
      → app'.make_cas_table path ≡ ok o.tables.cas
      → app'.load_nodes_table path o.tables.cas ≡ ok n
      → let r = gc C N codec o.tables.cas n in
        gc_command C N codec app' root' [] ≡ (exit_code r.0, some (record { cas = r.1; nodes = n }))
  gc_command-fsck_command app app' root root' path o n h r a m l =
      gc_command-ran app' root' (record { cas = o.tables.cas; nodes = n })
        (parse-opened C N app' root' path o.tables.cas n r a m (fsck_command-ran app root o h) l)
