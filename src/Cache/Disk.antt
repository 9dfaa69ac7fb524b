-- ===== src/Cache/Disk.antt =====
-- The cache of hashes on disk, dumbcaslib/cache_local.go, over the calls of package os that it makes and
-- encoding/gob.
use dumbcas.Prelude.{ℕ, Text, text, ◌==◌, false, ltb, if◌then◌else◌, [], ◌≡◌, refl, sym, ◌∙◌, ap}
use dumbcas.Prelude.{Option, none, some, arith}
use dumbcas.Prelude.FilePath.{join}
use dumbcas.Table.{Error, not_exist, io, failed, Result, ok, err}
use dumbcas.Restore.{blocks}
use dumbcas.Cache.{EntryCache, empty_cache}

-- What Decode of a gob does: it fills the value, finds nothing to read (io.EOF), or fails.
pub data Decoded : Type 0 where
  decoded : EntryCache → Decoded
  nothing malformed : Decoded

-- os.Mkdir; os.OpenFile to read, with what is then read; os.OpenFile with O_CREATE and O_TRUNC;
-- Encode of a gob to the file; the size that os.Stat gives; user.Current; Decode of a gob.
pub record CacheFiles : Type 1 where
  pub State : Type 0
  pub mkdir : State → Text → Option Error × State
  pub open_file : State → Text → Result Text
  pub truncate : State → Text → Option Error × State
  pub encode : State → Text → EntryCache → Option Error × State
  pub size : State → Text → Result ℕ
  pub home_dir : Result Text
  pub decode : Text → Decoded

-- What a later run relies on.
pub record IsLawfulCacheFiles (F : CacheFiles) : Type 0 where
  pub open_file-mkdir : (s : F.State) (d p : Text) → F.open_file (F.mkdir s d).1 p ≡ F.open_file s p
  -- What was encoded to an emptied file is decoded from it.
  pub open_file-encode :
      (s : F.State) (p : Text) (root : EntryCache)
      → (F.truncate s p).0 ≡ none
      → (F.encode (F.truncate s p).1 p root).0 ≡ none
      → (bytes : Text) × (F.open_file (F.encode (F.truncate s p).1 p root).1 p ≡ ok bytes)
        × (F.decode bytes ≡ decoded root)

-- type cache
pub record DiskCache : Type 0 where
  pub root : EntryCache
  pub file_path : Text

module _ (F : CacheFiles) where
  -- What is made of the content of the file; io.EOF is the error `io`.
  decoded_cache : Text → Decoded → DiskCache × Option Error
  decoded_cache path (decoded root) = (record { root = root; file_path = path }, none)
  decoded_cache path nothing = (record { root = empty_cache; file_path = path }, some io)
  decoded_cache path malformed = (
    record { root = empty_cache; file_path = path },
    some (failed "failed loading cache: %s" path),
  )

  read_cache : Text → Result Text → DiskCache × Option Error
  unfolding decoded_cache
  read_cache path (ok bytes) = decoded_cache path (F.decode bytes)
  read_cache path (err not_exist) = (record { root = empty_cache; file_path = path }, none)
  read_cache path (err _) = (
    record { root = empty_cache; file_path = path },
    some (failed "Failed to access %s: %s" path),
  )

  unfoldable pub load_cache_inner : F.State → Text → DiskCache × Option Error × F.State
  unfolding read_cache
  load_cache_inner s cache_dir =
      let path = join cache_dir (text "cache.gob") in
      let (e, s') = F.mkdir s cache_dir in
      let (cache, e') = read_cache path (F.open_file s' path) in
      if blocks e
      then (
        record { root = empty_cache; file_path = path },
        some (failed "Failed to access %s: %s" cache_dir),
        s',
      )
      else (cache, e', s')

  unfoldable pub get_cache_path : Result Text
  get_cache_path = elim F.home_dir [ err e ↦ err e | ok home ↦ ok (join home (text ".dumbcas")) ]

  unfoldable pub load_cache : F.State → DiskCache × Option Error × F.State
  unfolding get_cache_path
  load_cache s = elim get_cache_path [
    | err e ↦ (record { root = empty_cache; file_path = [] }, some e, s)
    | ok cache_dir ↦ load_cache_inner s cache_dir
  ]

  encode_error : Text → Option Error × F.State → Option Error × F.State
  encode_error path (none, s) = (none, s)
  encode_error path (some e, s) = (some (failed "failed to write %s: %s" path), s)

  unfoldable pub encode : F.State → Text → EntryCache → Option Error × F.State
  unfolding encode_error
  encode s path root =
      let (e, s') = F.truncate s path in
      elim e [
        | some why ↦ (some (failed "failed to save cache %s: %s" path), s')
        | none ↦ encode_error path (F.encode s' path root)
      ]

  sized : Text → Result ℕ → Option Error
  sized path (err e) = some (failed "Unexpected error while stat'ing %s: %s" path)
  sized path (ok n) = if ltb n 100 then some (failed "Failed to serialize %s: %d" path) else none

  unfoldable pub close : F.State → DiskCache → Option Error × F.State
  unfolding sized
  close s cache =
      let (e, s') = encode s cache.file_path cache.root in
      if cache.file_path == [] then (none, s) else (elim e [
        | some why ↦ (some why, s')
        | none ↦ (sized cache.file_path (F.size s' cache.file_path), s')
      ])

  encode-none :
      (s : F.State) (path : Text) (root : EntryCache)
      → (encode s path root).0 ≡ none
      → ((F.truncate s path).0 ≡ none)
        × ((F.encode (F.truncate s path).1 path root).0 ≡ none)
        × ((encode s path root).1 ≡ (F.encode (F.truncate s path).1 path root).1)
  unfolding encode encode_error
  encode-none s path root h = ground arith

  close-none :
      (s : F.State) (cache : DiskCache)
      → (cache.file_path == []) ≡ false
      → (close s cache).0 ≡ none
      → ((encode s cache.file_path cache.root).0 ≡ none)
        × ((close s cache).1 ≡ (encode s cache.file_path cache.root).1)
  unfolding close sized
  close-none s cache named h = ground arith

  -- A cache of a directory that was closed without an error is loaded again from that directory,
  -- without an error, over lawful files where the directory can be made or exists.
  pub load_cache_inner-close :
      (L : IsLawfulCacheFiles F) (s : F.State) (cache : DiskCache) (cache_dir : Text)
      → cache.file_path ≡ join cache_dir (text "cache.gob")
      → (cache.file_path == []) ≡ false
      → (close s cache).0 ≡ none
      → blocks (F.mkdir (close s cache).1 cache_dir).0 ≡ false
      → load_cache_inner (close s cache).1 cache_dir
        ≡ (cache, none, (F.mkdir (close s cache).1 cache_dir).1)
  unfolding load_cache_inner read_cache decoded_cache
  load_cache_inner-close L s cache cache_dir at named h made =
      let (e, same) = close-none s cache named h in
      let (t, w, same') = encode-none s cache.file_path cache.root e in
      let (bytes, o, d) = L.open_file-encode s cache.file_path cache.root t w in
      let o' =
        L.open_file-mkdir (close s cache).1 cache_dir cache.file_path
        ∙ ap (λ c. F.open_file c cache.file_path) (same ∙ same')
        ∙ o in
      rw (made, sym at) (rw o' (rw d refl))

  -- With an error, the cache that is loaded is empty.
  pub load_cache-err :
      (s : F.State) (e : Error) → (load_cache s).1 ≡ some e → (load_cache s).0.root ≡ empty_cache
  unfolding load_cache get_cache_path load_cache_inner read_cache decoded_cache
  load_cache-err s e h = ground arith
