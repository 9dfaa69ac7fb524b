-- ===== src/Recent/Kept.antt =====
-- What the caches of nodesTable in dumbcaslib/nodes_local.go keep, through updates and lookups.
use mathlib.Core.Path.{subst}
use dumbcas.Prelude.{
  ℕ, zero, suc, ◌≤◌, Text, ltb, ◌≡◌, refl, sym, [], ◌∷◌, none, some, arith, length,
}
use dumbcas.Prelude.{inl, inr, Bool-cases, eq→path, ◌==◌, Option, Option-cases}
use dumbcas.Prelude.Map.{
  Map, lookup, insert, erase, lookup-insert, lookup-erase, NodupKeys, insert-NodupKeys,
  length-insert,
}
use dumbcas.Recent.{Cached, Candidate, oldest, evict, update_cache, find_cached}
use dumbcas.Recent.Bounds.{update_cache-total}

module _ {V : Type 0} (P : Text → V → Type 0) where
  -- The objects of a cache have a property with their names.
  abbrev pub AllCached : Map (Cached V) → Type 0
  AllCached m = (k : Text) (o : Cached V) → lookup k m ≡ some o → P k o.object

  -- A cache within its bound, with no name twice, whose objects have the property.
  abbrev pub IsKept : ℕ → Map (Cached V) → Type 0
  IsKept max_items m = (length m ≤ max_items) × NodupKeys m × AllCached m

  evict-AllCached :
      (fuel max_items : ℕ) (c : Candidate) (m m' : Map (Cached V))
      → AllCached m
      → evict fuel max_items c m ≡ some m'
      → AllCached m'
  unfolding evict
  evict-AllCached zero max_items c m m' h e = cc
  evict-AllCached (suc fuel) max_items c m m' h e = elim (Bool-cases (ltb max_items (length m))) [
    | inl more ↦
        let v = (oldest m c).older_name in
        evict-AllCached fuel max_items c (erase v m) m'
          (λ k o f. h k o (ground (arith, f, lookup-erase v k m))) (ground arith)
    | inr few ↦ let same : m ≡ m' = ground arith in subst AllCached same h
  ]

  insert-AllCached :
      (name : Text) (p : Cached V) (m : Map (Cached V))
      → AllCached m
      → P name p.object
      → AllCached (insert name p m)
  insert-AllCached name p m h has k o f = elim (Bool-cases (name == k)) [
    | inl e ↦
        let same : name ≡ k = eq→path name k e in
        let at : p ≡ o = ground (arith, f, lookup-insert name k p m) in
        subst (λ j. P j o.object) same (subst (λ q. P name q.object) at has)
    | inr e ↦ h k o (ground (arith, f, lookup-insert name k p m))
  ]

  -- An update.
  pub update_cache-IsKept :
      (max_items : ℕ) (name : Text) (o : Cached V) (m m' : Map (Cached V))
      → IsKept max_items m
      → P name o.object
      → update_cache max_items name o m ≡ some m'
      → IsKept max_items m'
  unfolding update_cache
  update_cache-IsKept max_items name o m m' (few, once, h) has e =
      let (m'', made, few', once') = update_cache-total max_items name o m once few in
      let same : m'' ≡ m' = ground (arith, made, e) in
      (
        subst (λ x. length x ≤ max_items) same few',
        subst NodupKeys same once',
        evict-AllCached 2 max_items (record { older_name = name; older_stamp = o.last_access })
            (insert name o m) m' (insert-AllCached name o m h has) e,
      )

  -- An object that was there is used again.
  pub insert-IsKept :
      (max_items : ℕ) (name : Text) (o p : Cached V) (m : Map (Cached V))
      → IsKept max_items m
      → lookup name m ≡ some o
      → p.object ≡ o.object
      → IsKept max_items (insert name p m)
  insert-IsKept max_items name o p m (few, once, h) hit same = (
    ground (arith, few, hit, length-insert name p m),
    insert-NodupKeys name p m once,
    insert-AllCached name p m h (subst (P name) (sym same) (h name o hit)),
  )

  object_at : Text → Map (Cached V) → Option V
  object_at k m = elim (lookup k m) [ none ↦ none | some o ↦ some o.object ]

  -- A lookup changes times alone.
  find_cached-object_at :
      (now : ℕ) (url k : Text) (m : Map (Cached V))
      → object_at k (find_cached now url m).cache ≡ object_at k m
  unfolding find_cached lookup object_at
  find_cached-object_at now url k [] = refl
  find_cached-object_at now url k ((j, o) ∷ m) = ground (arith, find_cached-object_at now url k m)

  length-find_cached :
      (now : ℕ) (url : Text) (m : Map (Cached V)) → length (find_cached now url m).cache ≡ length m
  unfolding find_cached
  length-find_cached now url [] = refl
  length-find_cached now url ((j, o) ∷ m) = ground (arith, length-find_cached now url m)

  find_cached-NodupKeys :
      (now : ℕ) (url : Text) (m : Map (Cached V))
      → NodupKeys m
      → NodupKeys (find_cached now url m).cache
  unfolding find_cached object_at
  find_cached-NodupKeys now url [] u = tt
  find_cached-NodupKeys now url ((j, o) ∷ m) (fresh, u) =
      ground (arith, find_cached-object_at now url j m, find_cached-NodupKeys now url m u)

  find_cached-AllCached :
      (now : ℕ) (url : Text) (m : Map (Cached V))
      → AllCached m
      → AllCached (find_cached now url m).cache
  unfolding object_at
  find_cached-AllCached now url m h k o f = elim (Option-cases (lookup k m)) [
    | inl e ↦
        let no : some o.object ≡ none = ground (arith, f, e, find_cached-object_at now url k m) in
        cc
    | inr (p, e) ↦
        let same : p.object ≡ o.object = ground (arith, f, e, find_cached-object_at now url k m) in
        subst (P k) same (h k p e)
  ]

  pub find_cached-IsKept :
      (max_items now : ℕ) (url : Text) (m : Map (Cached V))
      → IsKept max_items m
      → IsKept max_items (find_cached now url m).cache
  find_cached-IsKept max_items now url m (few, once, h) = (
    subst (λ n. n ≤ max_items) (sym (length-find_cached now url m)) few,
    find_cached-NodupKeys now url m once,
    find_cached-AllCached now url m h,
  )
