-- ===== src/Recent/Bounds.antt =====
-- updateNodeCache of dumbcaslib/nodes_local.go ends, keeps to its bound, and evicts an oldest object.
use dumbcas.Prelude.{ℕ, suc, ◌≤◌, ◌<◌, Text, eq_iff, ltb}
use dumbcas.Prelude.{◌≡◌, refl, [], ◌∷◌, none, some, arith, length}
use dumbcas.Prelude.{◌⊎◌, inl, inr, Bool-cases, eq_refl}
use dumbcas.Prelude.Map.{Map, lookup, insert, erase, lookup-insert, NodupKeys}
use dumbcas.Prelude.Map.{insert-NodupKeys, erase-NodupKeys, length-insert, length-erase}
use dumbcas.Recent.{Cached, Candidate, older, oldest, evict, update_cache}

module _ {V : Type 0} where
  -- The candidate found is not younger than the first one, nor than any object of the map.
  oldest-le : (m : Map (Cached V)) (c : Candidate) → (oldest m c).older_stamp ≤ c.older_stamp
  unfolding oldest
  oldest-le [] c = omega arith
  oldest-le ((k, o) ∷ m) c = ground (arith, oldest-le m (older k o c))

  oldest-le_all :
      (m : Map (Cached V)) (c : Candidate) (j : Text) (o : Cached V)
      → lookup j m ≡ some o
      → (oldest m c).older_stamp ≤ o.last_access
  unfolding oldest lookup
  oldest-le_all [] c j o h = cc
  oldest-le_all ((k, x) ∷ m) c j o h =
      ground (arith, oldest-le m (older k x c), oldest-le_all m (older k x c) j o)

  -- A candidate of a map: a name with the time of its object.
  abbrev IsOf : Map (Cached V) → Candidate → Type 0
  IsOf m c = (o : Cached V) × (lookup c.older_name m ≡ some o) × (o.last_access ≡ c.older_stamp)

  IsOf-cons :
      (k : Text) (x : Cached V) (m : Map (Cached V)) (c : Candidate)
      → lookup k m ≡ none
      → IsOf m c
      → IsOf ((k, x) ∷ m) c
  unfolding lookup
  IsOf-cons k x m c fresh (o, found, same) = (o, ground (arith, eq_iff k c.older_name), same)

  -- The candidate found is the first one, or an object of the map.
  oldest-cases :
      (m : Map (Cached V)) (c : Candidate) → NodupKeys m → (oldest m c ≡ c) ⊎ IsOf m (oldest m c)
  unfolding oldest lookup
  oldest-cases [] c u = inl refl
  oldest-cases ((k, x) ∷ m) c (fresh, u) = elim (oldest-cases m (older k x c) u) [
    | inr found ↦ inr (IsOf-cons k x m (oldest m (older k x c)) fresh found)
    | inl same ↦ elim (Bool-cases (ltb x.last_access c.older_stamp)) [
      | inl e ↦ inr (x, ground (arith, eq_refl k), ground arith)
      | inr e ↦ inl (ground arith)
    ]
  ]

  IsOf-oldest : (m : Map (Cached V)) (c : Candidate) → NodupKeys m → IsOf m c → IsOf m (oldest m c)
  IsOf-oldest m c u given = elim (oldest-cases m c u) [
    | inl same ↦ rw same given
    | inr found ↦ found
  ]

  abbrev entered : Text → Cached V → Candidate
  entered name o = record { older_name = name; older_stamp = o.last_access }

  IsOf-entered :
      (name : Text) (o : Cached V) (m : Map (Cached V))
      → NodupKeys m
      → IsOf (insert name o m) (oldest (insert name o m) (entered name o))
  IsOf-entered name o m u =
      IsOf-oldest (insert name o m) (entered name o) (insert-NodupKeys name o m u)
        (o, ground (arith, lookup-insert name name o m, eq_refl name), refl)

  -- The update of a cache of recent objects that is within its bound and has no name twice ends,
  -- and leaves it within its bound and with no name twice.
  pub update_cache-total :
      (max_items : ℕ) (name : Text) (o : Cached V) (m : Map (Cached V))
      → NodupKeys m
      → length m ≤ max_items
      → (m' : Map (Cached V)) × (update_cache max_items name o m ≡ some m')
        × (length m' ≤ max_items)
        × NodupKeys m'
  unfolding update_cache evict
  update_cache-total max_items name o m u few =
      let m1 = insert name o m in
      let u1 = insert-NodupKeys name o m u in
      let v = oldest m1 (entered name o) in
      let found = IsOf-entered name o m u in
      let shorter : length m1 ≡ suc (length (erase v.older_name m1)) =
        ground (arith, length-erase v.older_name m1 u1, found.1) in
      let grown = length-insert name o m in
      elim (Bool-cases (ltb max_items (length m1))) [
        | inl e ↦ (
          erase v.older_name m1,
          ground (arith, shorter, grown),
          ground (arith, shorter, grown),
          erase-NodupKeys v.older_name m1 u1,
        )
        | inr e ↦ (m1, ground arith, ground arith, u1)
      ]

  -- When an update of a cache that is within its bound and has no name twice would leave one object
  -- too many, exactly one is removed, and no object of the cache was used longer ago.
  pub update_cache-evicts :
      (max_items : ℕ) (name : Text) (o : Cached V) (m : Map (Cached V))
      → NodupKeys m
      → length m ≤ max_items
      → max_items < length (insert name o m)
      → (v : Text) × (w : Cached V) × (update_cache max_items name o m
          ≡ some (erase v (insert name o m)))
        × (lookup v (insert name o m) ≡ some w)
        × ((j : Text) (x : Cached V)
            → lookup j (insert name o m) ≡ some x
            → w.last_access ≤ x.last_access)
  unfolding update_cache evict
  update_cache-evicts max_items name o m u few many =
      let m1 = insert name o m in
      let c = oldest m1 (entered name o) in
      let found = IsOf-entered name o m u in
      let shorter : length m1 ≡ suc (length (erase c.older_name m1)) =
        ground (arith, length-erase c.older_name m1 (insert-NodupKeys name o m u), found.1) in
      (
        c.older_name,
        found.0,
        ground (arith, shorter, length-insert name o m),
        found.1,
        λ j x h. omega (arith, found.2, oldest-le_all m1 (entered name o) j x h),
      )

  oldest-zero : (m : Map (Cached V)) (c : Candidate) → c.older_stamp ≡ 0 → oldest m c ≡ c
  unfolding oldest
  oldest-zero [] c z = refl
  oldest-zero ((k, x) ∷ m) c z = ground (arith, oldest-zero m c z)

  erase-insert :
      (name : Text) (o : Cached V) (m : Map (Cached V))
      → lookup name m ≡ none
      → (erase name (insert name o m) ≡ m) × (length (insert name o m) ≡ suc (length m))
  unfolding erase insert lookup
  erase-insert name o [] h = ground (arith, eq_refl name)
  erase-insert name o ((k, x) ∷ m) h = ground (arith, erase-insert name o m)

  -- An update of a full cache by a new name that was never accessed, as getEntry makes it, removes
  -- that name again and leaves the cache as it was.
  pub update_cache-unused :
      (max_items : ℕ) (name : Text) (o : Cached V) (m : Map (Cached V))
      → lookup name m ≡ none
      → length m ≡ max_items
      → o.last_access ≡ 0
      → update_cache max_items name o m ≡ some m
  unfolding update_cache evict
  update_cache-unused max_items name o m fresh full unused =
      let (back, grown) = erase-insert name o m fresh in
      let same = oldest-zero (insert name o m) (entered name o) unused in
      ground (arith, back, grown, same)
