-- ===== src/Recent/Entries.antt =====
-- getEntry of dumbcaslib/nodes_local.go: the entries that nodesTable keeps in memory.
use dumbcas.Prelude.{ℕ, Text, eq_iff, ◌≡◌, refl, sym, ◌∙◌, ap, [], Option, none, some, arith}
use dumbcas.Prelude.Map.{Map, lookup, insert, lookup-insert}
use dumbcas.Entry.{Entry}
use dumbcas.Table.{Error, failed, Result, ok, err, Codec, CasTable}
use dumbcas.Nodes.{load_reader_as_json}
use dumbcas.Recent.{Cached}

module _ (C : CasTable) (codec : Codec) where
  -- The entry, the cache, and what updateEntryCache is to add to it, in a goroutine of its own. An
  -- entry that is loaded has the zero time.
  pub record Got : Type 0 where
    pub loaded : Result Entry
    pub cache : Map (Cached Entry)
    pub update : Option (Cached Entry)

  -- What getEntry does when the entry is not in the cache.
  unfoldable pub read_tree : C.State → Text → Result Entry
  read_tree s name = elim (C.open_item s name) [
    | err e ↦ err (failed "Failed to load the entry file: %s" [])
    | ok f ↦ load_reader_as_json codec.decode_entry f
  ]

  got_new : Map (Cached Entry) → Result Entry → Got
  got_new m (err e) = record { loaded = err e; cache = m; update = none }
  got_new m (ok e) = record {
    loaded = ok e;
    cache = m;
    update = some (record { object = e; last_access = 0 });
  }

  unfoldable pub get_entry : ℕ → Map (Cached Entry) → C.State → Text → Got
  unfolding read_tree got_new
  get_entry now m s name = elim (lookup name m) [
    | none ↦ got_new m (read_tree s name)
    | some o ↦ record {
      loaded = ok o.object;
      cache = insert name (record o { last_access = now }) m;
      update = none;
    }
  ]

  pub get_entry-hit :
      (now : ℕ) (m : Map (Cached Entry)) (s : C.State) (name : Text) (o : Cached Entry)
      → lookup name m ≡ some o
      → get_entry now m s name ≡ record {
        loaded = ok o.object;
        cache = insert name (record o { last_access = now }) m;
        update = none;
      }
  unfolding get_entry
  get_entry-hit now m s name o hit = rw (get_entry, hit) refl

  pub get_entry-miss :
      (now : ℕ) (m : Map (Cached Entry)) (s : C.State) (name : Text) (e : Entry)
      → lookup name m ≡ none
      → read_tree s name ≡ ok e
      → get_entry now m s name ≡ record {
        loaded = ok e;
        cache = m;
        update = some (record { object = e; last_access = 0 });
      }
  unfolding get_entry
  get_entry-miss now m s name e miss found = rw (miss, get_entry, found) refl

  pub get_entry-failed :
      (now : ℕ) (m : Map (Cached Entry)) (s : C.State) (name : Text) (why : Error)
      → lookup name m ≡ none
      → read_tree s name ≡ err why
      → get_entry now m s name ≡ record { loaded = err why; cache = m; update = none }
  unfolding get_entry
  get_entry-failed now m s name why miss h = rw (miss, get_entry, h) refl

  -- Every entry of the cache is the one in the table.
  abbrev pub IsCoherent : C.State → Map (Cached Entry) → Type 0
  IsCoherent s m =
      (name : Text) (o : Cached Entry) → lookup name m ≡ some o → read_tree s name ≡ ok o.object

  got_new-IsLoaded :
      (m : Map (Cached Entry)) (r : Result Entry)
      → ((got_new m r).loaded ≡ r)
        × ((got_new m r).cache ≡ m)
        × ((o : Cached Entry) → (got_new m r).update ≡ some o → r ≡ ok o.object)
  unfolding got_new
  got_new-IsLoaded m (err e) = (refl, refl, λ o h. cc)
  got_new-IsLoaded m (ok e) = (refl, refl, λ o h. ground arith)

  touched-IsCoherent :
      (s : C.State) (m : Map (Cached Entry)) (name : Text) (o p : Cached Entry)
      → IsCoherent s m
      → lookup name m ≡ some o
      → p.object ≡ o.object
      → IsCoherent s (insert name p m)
  touched-IsCoherent s m name o p coherent hit same j q h =
      ground
        (arith, lookup-insert name j p m, eq_iff name j, coherent name o hit, coherent j q, same)

  get_entry-of :
      (now : ℕ) (m : Map (Cached Entry)) (s : C.State) (name : Text)
      → IsCoherent s m
      → (known : Option (Cached Entry)) → lookup name m ≡ known
      → ((get_entry now m s name).loaded ≡ read_tree s name)
        × IsCoherent s (get_entry now m s name).cache
        × ((o : Cached Entry)
            → (get_entry now m s name).update ≡ some o
            → read_tree s name ≡ ok o.object)
  unfolding get_entry
  get_entry-of now m s name coherent none miss =
      let (same, kept, new) = got_new-IsLoaded m (read_tree s name) in
      rw (miss, get_entry) (same, λ j q h. coherent j q (ap (lookup j) (sym kept) ∙ h), new)
  get_entry-of now m s name coherent (some o) hit =
      rw (hit, get_entry)
        (
          sym (coherent name o hit),
          touched-IsCoherent s m name o (record o { last_access = now }) coherent hit refl,
          λ q h. cc,
        )

  -- When every entry of the cache is the one in the table, getEntry gives what the table has, and
  -- the same holds of the cache afterwards, and of what is to be added to it.
  pub get_entry_lem :
      (now : ℕ) (m : Map (Cached Entry)) (s : C.State) (name : Text)
      → IsCoherent s m
      → ((get_entry now m s name).loaded ≡ read_tree s name)
        × IsCoherent s (get_entry now m s name).cache
        × ((o : Cached Entry)
            → (get_entry now m s name).update ≡ some o
            → read_tree s name ≡ ok o.object)
  get_entry_lem now m s name coherent = get_entry-of now m s name coherent (lookup name m) refl
