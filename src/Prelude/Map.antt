-- ===== src/Prelude/Map.antt =====
-- A Go map with string keys, as the list of its bindings. Go leaves the order of a range over a map
-- open: here it is the order of the list, and the theorems hold for every list.
use mathlib.Core.Path.{◌≡◌, refl}
use mathlib.Core.Bool.{Bool, true, false, ◌||◌}
use mathlib.Core.Option.{Option, none, some}
use mathlib.Core.List.{List, [], ◌∷◌}
use native.Mathlib.Omega.{arith}
use Prim.Native.Nat.{suc}
use dumbcas.Prelude.Lists.{length}
use dumbcas.Prelude.Tests.{if◌then◌else◌}
use dumbcas.Prelude.Strings.{Text, ◌==◌, eq_iff}

abbrev pub Map {ℓ} : Type ℓ → Type ℓ
Map V = List (Text × V)

-- Whether a list of names holds a name.
unfoldable pub contains : List Text → Text → Bool
contains [] k = false
contains (j ∷ js) k = (j == k) || contains js k

abbrev pub is_some {ℓ} : {A : Type ℓ} → Option A → Bool
is_some none = false
is_some (some a) = true

module _ {ℓ} {V : Type ℓ} where
  -- v, ok := m[k]
  unfoldable pub lookup : Text → Map V → Option V
  lookup key [] = none
  lookup key ((name, value) ∷ rest) = if name == key then some value else lookup key rest

  unfoldable pub keys : Map V → List Text
  keys [] = []
  keys ((name, value) ∷ rest) = name ∷ keys rest

  -- delete(m, k)
  unfoldable pub erase : Text → Map V → Map V
  erase key [] = []
  erase key ((name, value) ∷ rest) =
      let left = erase key rest in if name == key then left else (name, value) ∷ left

  pub lookup-erase :
      (k j : Text) (m : Map V) → lookup j (erase k m) ≡ (if k == j then none else lookup j m)
  unfolding lookup erase
  lookup-erase k j [] = ground arith
  lookup-erase k j ((name, value) ∷ rest) =
      ground (arith, lookup-erase k j rest, eq_iff name k, eq_iff name j, eq_iff k j)

  pub contains-keys : (k : Text) (m : Map V) → contains (keys m) k ≡ is_some (lookup k m)
  unfolding contains keys lookup
  contains-keys k [] = refl
  contains-keys k ((name, value) ∷ rest) = ground (arith, contains-keys k rest)

  -- m[k] = v
  unfoldable pub insert : Text → V → Map V → Map V
  insert key new [] = (key, new) ∷ []
  insert key new ((name, value) ∷ rest) =
      if name == key then (key, new) ∷ rest else (name, value) ∷ insert key new rest

  pub lookup-insert :
      (k j : Text) (new : V) (m : Map V)
      → lookup j (insert k new m) ≡ (if k == j then some new else lookup j m)
  unfolding insert lookup
  lookup-insert k j new [] = refl
  lookup-insert k j new ((name, value) ∷ rest) =
      ground (arith, lookup-insert k j new rest, eq_iff name k, eq_iff name j, eq_iff k j)

  -- No key is bound twice.
  abbrev pub NodupKeys : Map V → Type ℓ
  NodupKeys [] = Unit
  NodupKeys ((name, value) ∷ rest) = (lookup name rest ≡ none) × NodupKeys rest

  pub insert-NodupKeys : (k : Text) (v : V) (m : Map V) → NodupKeys m → NodupKeys (insert k v m)
  unfolding insert lookup
  insert-NodupKeys k v [] h = (refl, tt)
  insert-NodupKeys k v ((name, value) ∷ rest) (fresh, u) = ground (
    arith,
    eq_iff name k,
    eq_iff k name,
    lookup-insert k name v rest,
    insert-NodupKeys k v rest u,
  )

  pub erase-NodupKeys : (k : Text) (m : Map V) → NodupKeys m → NodupKeys (erase k m)
  unfolding erase
  erase-NodupKeys k [] h = tt
  erase-NodupKeys k ((name, value) ∷ rest) (fresh, u) =
      ground (arith, lookup-erase k name rest, erase-NodupKeys k rest u)

  pub length-insert :
      (k : Text) (new : V) (m : Map V)
      → length (insert k new m) ≡ (if is_some (lookup k m) then length m else suc (length m))
  unfolding insert lookup
  length-insert k new [] = refl
  length-insert k new ((name, value) ∷ rest) = ground (arith, length-insert k new rest)

  pub erase-absent : (k : Text) (m : Map V) → lookup k m ≡ none → erase k m ≡ m
  unfolding erase lookup
  erase-absent k [] h = refl
  erase-absent k ((name, value) ∷ rest) h = ground (arith, erase-absent k rest)

  pub length-erase :
      (k : Text) (m : Map V)
      → NodupKeys m
      → length m ≡ (if is_some (lookup k m) then suc (length (erase k m)) else length (erase k m))
  unfolding erase lookup
  length-erase k [] u = refl
  length-erase k ((name, value) ∷ rest) (fresh, u) =
      ground (arith, eq_iff name k, length-erase k rest u, erase-absent k rest)
