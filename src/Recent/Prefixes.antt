-- ===== src/Recent/Prefixes.antt =====
-- What findCachedNode of dumbcaslib/nodes_local.go finds.
use dumbcas.Prelude.{ℕ, Text, eq_iff, eq_refl, true, false, ◌≡◌, refl}
use dumbcas.Prelude.{[], ◌∷◌, ◌++◌, none, some, arith, has_prefix, drop, length}
use dumbcas.Prelude.{inl, inr, Bool-cases}
use dumbcas.Prelude.Map.{Map, lookup, NodupKeys}
use dumbcas.Recent.{Cached, find_cached}

drop-of_prefix : (url k : Text) → has_prefix url k ≡ true → url ≡ k ++ drop (length k) url
unfolding has_prefix
drop-of_prefix url [] h = refl
drop-of_prefix [] (c ∷ k) h = cc
drop-of_prefix (x ∷ url) (c ∷ k) h = ground (arith, drop-of_prefix url k)

has_prefix-append : (k rest : Text) → has_prefix (k ++ rest) k ≡ true
unfolding has_prefix
has_prefix-append [] [] = refl
has_prefix-append [] (c ∷ rest) = refl
has_prefix-append (c ∷ k) rest = ground (arith, has_prefix-append k rest)

drop-append : (k rest : Text) → drop (length k) (k ++ rest) ≡ rest
drop-append [] rest = refl
drop-append (c ∷ k) rest = drop-append k rest

module _ {V : Type 0} where
  -- In a cache with no name twice, an object that is found is the one cached under some key, and
  -- the url is that key and the rest that is returned.
  pub find_cached-some :
      (now : ℕ) (url : Text) (m : Map (Cached V)) (v : V)
      → NodupKeys m
      → (find_cached now url m).object ≡ some v
      → (k : Text) × (o : Cached V) × (lookup k m ≡ some o)
        × (o.object ≡ v)
        × (url ≡ k ++ (find_cached now url m).rest)
  unfolding find_cached lookup
  find_cached-some now url [] v u h = cc
  find_cached-some now url ((k, o) ∷ m) v (fresh, u) h = elim (Bool-cases (has_prefix url k)) [
    | inl e ↦ (k, o, ground (arith, eq_refl k), ground arith, rw e (drop-of_prefix url k e))
    | inr e ↦
        let later = find_cached-some now url m v u (ground arith) in
        (later.0, later.1, ground (arith, later.2, eq_iff k later.0), later.3, rw e later.4)
  ]

  -- Nothing is found in the cache only when no cached key is a prefix of the url.
  pub find_cached-none :
      (now : ℕ) (url k : Text) (m : Map (Cached V)) (o : Cached V)
      → (find_cached now url m).object ≡ none
      → lookup k m ≡ some o
      → has_prefix url k ≡ false
  unfolding find_cached lookup
  find_cached-none now url k [] o h f = cc
  find_cached-none now url k ((j, x) ∷ m) o h f =
      ground (arith, eq_iff j k, find_cached-none now url k m o)

  -- A cached key that is asked first answers for every url that begins with it, also where the url
  -- goes on without a slash.
  pub find_cached-append :
      (now : ℕ) (k rest : Text) (o : Cached V) (m : Map (Cached V))
      → ((find_cached now (k ++ rest) ((k, o) ∷ m)).object ≡ some o.object)
        × ((find_cached now (k ++ rest) ((k, o) ∷ m)).rest ≡ rest)
  unfolding find_cached
  find_cached-append now k rest o m = ground (arith, has_prefix-append k rest, drop-append k rest)
