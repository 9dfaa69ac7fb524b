-- ===== src/Common.antt =====
-- CommonFlags.Parse of common.go, over the constructors of interface DumbcasApplication of main.go.
use dumbcas.Prelude.{
  Text, ◌==◌, Bool, true, false, [], Bool-cases, inl, inr, eq→path, ◌≡◌, ◌≢◌, refl, if◌then◌else◌,
}
use dumbcas.Table.{Error, failed, Result, ok, err, CasTable, NodesTable, ◌>>=◌}

module _ (C : CasTable) (N : NodesTable) where
  -- `abs` is filepath.Abs.
  pub record Application : Type 0 where
    pub abs : Text → Result Text
    pub make_cas_table : Text → Result C.State
    pub load_nodes_table : Text → C.State → Result N.State

  pub record Tables : Type 0 where
    pub cas : C.State
    pub nodes : N.State

  allowed : C.State → Bool → Result (Unit {0})
  allowed cas bypass =
      if C.get_fsck_bit cas
      then (if bypass then ok tt else err (failed "Can't run if fsck is needed." []))
      else ok tt

  unfoldable pub parse : Application → Text → Bool → Result Tables
  unfolding allowed
  parse app root bypass = if root == [] then err (failed "Must provide -root" []) else do
    path ← app.abs root
    cas ← app.make_cas_table path
    _ ← allowed cas bypass
    nodes ← app.load_nodes_table path cas
    ok (record { cas = cas; nodes = nodes })

  -- On a table whose fsck bit is set, Parse without the bypass fails.
  pub parse-refused :
      (app : Application) (root path : Text) (s : C.State)
      → app.abs root ≡ ok path
      → app.make_cas_table path ≡ ok s
      → C.get_fsck_bit s ≡ true
      → (e : Error) × (parse app root false ≡ err e)
  unfolding parse allowed
  parse-refused app root path s a m b = elim (Bool-cases (root == [])) [
    | inl e ↦ (failed "Must provide -root" [], rw e refl)
    | inr e ↦ (failed "Can't run if fsck is needed." [], rw (e, a, m, b) refl)
  ]

  pub parse-opened :
      (app : Application) (root path : Text) (s : C.State) (n : N.State)
      → root ≢ []
      → app.abs root ≡ ok path
      → app.make_cas_table path ≡ ok s
      → C.get_fsck_bit s ≡ false
      → app.load_nodes_table path s ≡ ok n
      → parse app root false ≡ ok (record { cas = s; nodes = n })
  unfolding parse allowed
  parse-opened app root path s n r a m b l = elim (Bool-cases (root == [])) [
    | inl e ↦ absurd (r (eq→path root [] e))
    | inr e ↦ rw (e, a, m, b, l) refl
  ]
