-- ===== src/Recent.antt =====
-- The recently used nodes and entries of dumbcaslib/nodes_local.go: updateNodeCache, updateEntryCache and
-- findCachedNode.
pub mod Bounds
pub mod Entries
pub mod Prefixes
pub mod Kept
use dumbcas.Prelude.{ℕ, zero, suc, Text, ltb, if◌then◌else◌, [], ◌∷◌, Option, none, some}
use dumbcas.Prelude.{has_prefix, drop, length}
use dumbcas.Prelude.Map.{Map, insert, erase}

-- A cached object with the time of its last access: nodeCache and entryCache.
pub record Cached (V : Type 0) : Type 0 where
  pub object : V
  pub last_access : ℕ

-- A name and the time of its last access.
pub record Candidate : Type 0 where
  pub older_name : Text
  pub older_stamp : ℕ

-- What findCachedNode returns, with the cache afterwards.
pub record Lookup (V : Type 0) : Type 0 where
  pub object : Option V
  pub rest : Text
  pub cache : Map (Cached V)

module _ {V : Type 0} where
  -- The older one of an object of the map and a candidate, the candidate if they are as old.
  abbrev pub older : Text → Cached V → Candidate → Candidate
  older k o c =
      if ltb o.last_access c.older_stamp
      then record { older_name = k; older_stamp = o.last_access }
      else c

  -- The search for the oldest, from a first candidate.
  unfoldable pub oldest : Map (Cached V) → Candidate → Candidate
  oldest [] c = c
  oldest ((k, o) ∷ m) c = oldest m (older k o c)

  -- The loop that removes the oldest while there are too many. It has no bound in the source: `none`
  -- says that the fuel ran out.
  unfoldable pub evict : ℕ → ℕ → Candidate → Map (Cached V) → Option (Map (Cached V))
  evict zero max_items c m = none
  evict (suc fuel) max_items c m =
      let rest = evict fuel max_items c (erase (oldest m c).older_name m) in
      if ltb max_items (length m) then rest else some m

  -- Two rounds are enough if there were not too many before.
  unfoldable pub update_cache : ℕ → Text → Cached V → Map (Cached V) → Option (Map (Cached V))
  update_cache max_items name o m =
      evict 2 max_items (record { older_name = name; older_stamp = o.last_access })
        (insert name o m)

  -- updateEntryCache, which has the same body.
  abbrev pub update_entry_cache : ℕ → Text → Cached V → Map (Cached V) → Option (Map (Cached V))
  update_entry_cache max_items name o m = update_cache max_items name o m

  missed : Text → Cached V → Lookup V → Lookup V
  missed k o found = record found { cache = (k, o) ∷ found.cache }

  -- The first key in the order of the map that is a prefix of the url answers.
  unfoldable pub find_cached : ℕ → Text → Map (Cached V) → Lookup V
  unfolding missed
  find_cached now url [] = record { object = none; rest = []; cache = [] }
  find_cached now url ((k, o) ∷ m) =
      let later = find_cached now url m in
      if has_prefix url k
      then record {
        object = some o.object;
        rest = drop (length k) url;
        cache = (k, record o { last_access = now }) ∷ m;
      }
      else missed k o later
