-- ===== src/Cache.antt =====
-- The cache of hashes: type EntryCache and FindInCache of dumbcaslib/cache.go, the cache in memory, and
-- updateFile of archive.go.
pub mod Printing
pub mod Paths
pub mod Hashing
pub mod Disk
use dumbcas.Prelude.{ℕ, ◌+◌, Text, ◌==◌, Bool, true, false, ◌&&◌, eqb, if◌then◌else◌, List, [], ◌∷◌}
use dumbcas.Prelude.{Option, none, some, has_prefix, drop}
use dumbcas.Prelude.FilePath.{slash, split}
use dumbcas.Table.{Error, closed_twice, Result, ok, err, Reader, Codec}
use dumbcas.Fsck.{sha1_reader}

-- A nil map of files behaves as an empty one everywhere in the program. Sizes and times are natural
-- numbers; times are compared for equality alone.
mutual
  pub data EntryCache : Type 0 where
    entry_cache : Text → ℕ → ℕ → ℕ → CachedFiles → EntryCache

  pub data CachedFiles : Type 0 where
    no_files : CachedFiles
    cached_file : Text → EntryCache → CachedFiles → CachedFiles

abbrev pub empty_cache : EntryCache
empty_cache = entry_cache [] 0 0 0 no_files

abbrev pub hash_of : EntryCache → Text
hash_of (entry_cache h n t l fs) = h

unfoldable pub find_file : Text → CachedFiles → Option EntryCache
find_file p no_files = none
find_file p (cached_file q e fs) = if q == p then some e else find_file p fs

unfoldable pub set_file : Text → EntryCache → CachedFiles → CachedFiles
set_file p e no_files = cached_file p e no_files
set_file p e (cached_file q f fs) =
    if q == p then cached_file p e fs else cached_file q f (set_file p e fs)

-- (*EntryCache).CountMembers
unfoldable mutual
  pub count_members : EntryCache → ℕ
  count_members (entry_cache h n t l fs) = 1 + count_files fs

  count_files : CachedFiles → ℕ
  count_files no_files = 0
  count_files (cached_file p e fs) = count_members e + count_files fs

or_empty : Option EntryCache → EntryCache
or_empty none = empty_cache
or_empty (some e) = e

-- The loop of FindInCache, and what the caller does to the entry that it points to.
unfoldable pub update_at : List Text → (EntryCache → EntryCache) → EntryCache → EntryCache
unfolding or_empty
update_at [] f e = f e
update_at (p ∷ ps) f (entry_cache h n t l fs) =
    entry_cache h n t l (set_file p (update_at ps f (or_empty (find_file p fs))) fs)

-- The entry that FindInCache returns.
unfoldable pub entry_at : List Text → EntryCache → EntryCache
unfolding or_empty
entry_at [] e = e
entry_at (p ∷ ps) (entry_cache h n t l fs) = entry_at ps (or_empty (find_file p fs))

-- The parts of an item's path. The source panics on an empty path.
unfoldable pub cache_parts : Text → List Text
cache_parts path = split (if has_prefix path (slash ∷ []) then drop 1 path else path)

-- FindInCache: the entry, and the root with what was created on the way.
unfoldable pub find_in_cache : EntryCache → Text → EntryCache × EntryCache
find_in_cache root path =
    let ps = cache_parts path in (entry_at ps root, update_at ps (λ e. e) root)

-- A file to archive, as updateFile sees it: what os.Stat said of it, and what reading it gives.
pub record Observed : Type 0 where
  pub size : ℕ
  pub timestamp : ℕ
  pub reader : Reader

rehashed : EntryCache → Observed → ℕ → Result Text → Result Bool × EntryCache
rehashed e item now (err why) = (err why, e)
rehashed (entry_cache h n t l fs) item now (ok digest) =
    (ok true, entry_cache digest item.size item.timestamp now fs)

-- updateFile: whether the file was hashed, and the entry.
unfoldable pub update_file : Codec → ℕ → EntryCache → Observed → Result Bool × EntryCache
unfolding rehashed
update_file codec now (entry_cache h n t l fs) item =
    if eqb n item.size && eqb t item.timestamp
    then (ok false, entry_cache h n t now fs)
    else rehashed (entry_cache h n t l fs) item now (sha1_reader codec item.reader)

pub record MemoryCache : Type 0 where
  pub root : EntryCache
  pub closed : Bool

unfoldable pub make_memory_cache : MemoryCache
make_memory_cache = record { root = empty_cache; closed = false }

-- `none` is the panic.
unfoldable pub cache_root : MemoryCache → Option EntryCache
cache_root m = if m.closed then none else some m.root

unfoldable pub close_cache : MemoryCache → Option Error × MemoryCache
close_cache m = if m.closed then (some closed_twice, m) else (none, record m { closed = false })
