-- ===== src/Cache/Hashing.antt =====
-- When updateFile of archive.go reads a file, and when its hash is right; Close of the cache in memory.
use dumbcas.Prelude.{ℕ, Text, Bool, true, false, not, ◌&&◌, eqb, ◌≡◌}
use dumbcas.Prelude.{[], none, some, arith}
use dumbcas.Table.{Error, ok, err, Codec}
use dumbcas.Fsck.{sha1_reader}
use dumbcas.Cache.{EntryCache, entry_cache, empty_cache, hash_of, Observed, update_file}
use dumbcas.Cache.{MemoryCache, cache_root, close_cache}

-- Whether the entry has the size and the time that the file has.
unfoldable pub is_current : EntryCache → Observed → Bool
is_current (entry_cache h n t l fs) item = eqb n item.size && eqb t item.timestamp

-- For a readable file, an entry that is current with the right hash, or any other entry, ends
-- current and with the sha-1 of the content, and the file is hashed exactly when the entry was not
-- current.
pub update_file_lem :
    (codec : Codec) (now : ℕ) (e : EntryCache) (item : Observed) (bytes : Text)
    → item.reader ≡ ok bytes
    → (is_current e item ≡ true → hash_of e ≡ codec.sha1 bytes)
    → ((update_file codec now e item).0 ≡ ok (not (is_current e item)))
      × (hash_of (update_file codec now e item).1 ≡ codec.sha1 bytes)
      × (is_current (update_file codec now e item).1 item ≡ true)
unfolding update_file sha1_reader is_current
update_file_lem codec now (entry_cache h n t l fs) item bytes r right = ground arith

-- A file of size zero whose time is the epoch is never hashed when it is new to the cache: it gets
-- an entry without a hash.
pub update_file-epoch :
    (codec : Codec) (now : ℕ) (item : Observed)
    → item.size ≡ 0
    → item.timestamp ≡ 0
    → ((update_file codec now empty_cache item).0 ≡ ok false)
      × (hash_of (update_file codec now empty_cache item).1 ≡ [])
unfolding update_file
update_file-epoch codec now item z t = ground arith

-- A file that cannot be read leaves its entry as it was, and the error is returned, unless the entry
-- is current.
pub update_file-unreadable :
    (codec : Codec) (now : ℕ) (e : EntryCache) (item : Observed) (why : Error)
    → item.reader ≡ err why
    → is_current e item ≡ false
    → update_file codec now e item ≡ (err why, e)
unfolding update_file sha1_reader is_current
update_file-unreadable codec now (entry_cache h n t l fs) item why r stale = ground arith

-- Closing an open cache in memory leaves it open: closing it again succeeds and its root can be
-- read.
pub close_cache-close_cache :
    (m : MemoryCache)
    → m.closed ≡ false
    → ((close_cache (close_cache m).1).0 ≡ none) × (cache_root (close_cache m).1 ≡ some m.root)
unfolding close_cache cache_root
close_cache-close_cache m h = ground arith
