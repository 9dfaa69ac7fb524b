-- ===== src/Cache/Paths.antt =====
-- FindInCache of dumbcaslib/cache.go leads to one entry for each path.
use dumbcas.Prelude.{Text, ◌==◌, eq_iff, eq_refl, false, if◌then◌else◌, ◌≡◌, refl}
use dumbcas.Prelude.{List, [], ◌∷◌, some, arith}
use dumbcas.Entry.Paths.{is_prefix}
use dumbcas.Cache.{EntryCache, entry_cache, CachedFiles, no_files, cached_file}
use dumbcas.Cache.{find_file, set_file, update_at, entry_at, or_empty}

find_file-set_file :
    (p q : Text) (e : EntryCache) (fs : CachedFiles)
    → find_file q (set_file p e fs) ≡ (if p == q then some e else find_file q fs)
unfolding find_file set_file
find_file-set_file p q e no_files = refl
find_file-set_file p q e (cached_file r f fs) =
    ground (arith, eq_iff p q, eq_iff r p, eq_iff r q, find_file-set_file p q e fs)

-- The entry of a path after an update is the update of the entry that FindInCache finds for it.
pub entry_at-update_at :
    (ps : List Text) (f : EntryCache → EntryCache) (root : EntryCache)
    → entry_at ps (update_at ps f root) ≡ f (entry_at ps root)
unfolding entry_at update_at
entry_at-update_at [] f root = refl
entry_at-update_at (p ∷ ps) f (entry_cache h n t l fs) = ground (
  arith,
  eq_refl p,
  find_file-set_file p p (update_at ps f (or_empty (find_file p fs))) fs,
  entry_at-update_at ps f (or_empty (find_file p fs)),
)

-- An update of a path leaves alone the entry of a path that is neither a directory of it, nor it,
-- nor below it.
pub entry_at-update_at_other :
    (qs ps : List Text) (f : EntryCache → EntryCache) (root : EntryCache)
    → is_prefix qs ps ≡ false
    → is_prefix ps qs ≡ false
    → entry_at qs (update_at ps f root) ≡ entry_at qs root
unfolding entry_at update_at
entry_at-update_at_other [] ps f root h k = cc
entry_at-update_at_other (q ∷ qs) [] f root h k = cc
entry_at-update_at_other (q ∷ qs) (p ∷ ps) f (entry_cache a n t l fs) h k = ground (
  arith,
  eq_iff p q,
  eq_iff q p,
  find_file-set_file p q (update_at ps f (or_empty (find_file p fs))) fs,
  entry_at-update_at_other qs ps f (or_empty (find_file p fs)),
)
