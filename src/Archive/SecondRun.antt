-- ===== src/Archive/SecondRun.antt =====
-- A second run of hashInputs of archive.go over the same files, with the cache of the first one.
use dumbcas.Prelude.{
  ℕ, Text, Bool, true, false, ◌&&◌, eqb, if◌then◌else◌, List, [], ◌∷◌, Option, none, some,
}
use dumbcas.Prelude.{◌≡◌, refl, sym, ◌∙◌, ap, arith, All, Bool-cases, inl, inr}
use dumbcas.Entry.Paths.{ItemToArchive, is_prefix}
use dumbcas.Table.{Error, Result, ok, err, Reader, Codec, Result-cases}
use dumbcas.Cache.{EntryCache, entry_cache, hash_of, cache_parts, entry_at, update_at, update_file}
use dumbcas.Cache.Paths.{entry_at-update_at, entry_at-update_at_other}
use dumbcas.Fsck.{sha1_reader}
use dumbcas.Archive.Counters.{Stats, count_error, count_hashed, count_not_hashed}
use dumbcas.Archive.{InputItem, hash_item, hash_inputs, observed, send}

-- Whether an entry has the size and the time of a file.
unfoldable pub is_fresh : EntryCache → InputItem → Bool
is_fresh (entry_cache h n t l fs) item = eqb n item.info.file_size && eqb t item.info.mod_time

-- The entry of a file in the cache, and what hashInputs sends for a file with that entry.
abbrev pub entry_of : EntryCache → InputItem → EntryCache
entry_of root item = entry_at (cache_parts item.full_path) root

abbrev pub item_with : InputItem → EntryCache → ItemToArchive
item_with item e = record {
  full_path = item.full_path;
  rel_path = item.rel_path;
  sha1 = hash_of e;
  size = item.info.file_size;
}

-- Neither path is the other one, or a directory of it.
abbrev pub Apart : InputItem → InputItem → Type 0
Apart i j =
    (is_prefix (cache_parts i.full_path) (cache_parts j.full_path) ≡ false)
    × (is_prefix (cache_parts j.full_path) (cache_parts i.full_path) ≡ false)

abbrev pub AllApart : List InputItem → Type 0
AllApart [] = Unit
AllApart (i ∷ is) = All (Apart i) is × AllApart is

-- Another file's entry stays.
entry_of-other :
    (i j : InputItem) (root e : EntryCache)
    → Apart i j
    → entry_of (update_at (cache_parts i.full_path) (λ old. e) root) j ≡ entry_of root j
entry_of-other i j root e (a, b) =
    entry_at-update_at_other (cache_parts j.full_path) (cache_parts i.full_path) (λ old. e) root b a

entry_of-hash_item :
    (item : InputItem) (root e : EntryCache)
    → entry_of (update_at (cache_parts item.full_path) (λ old. e) root) item ≡ e
entry_of-hash_item item root e = entry_at-update_at (cache_parts item.full_path) (λ old. e) root

-- What hashInputs sends for files that the cache has, and how it counts them.
abbrev pub sent_for : EntryCache → List InputItem → List ItemToArchive
sent_for root [] = []
sent_for root (i ∷ is) = item_with i (entry_of root i) ∷ sent_for root is

abbrev pub skipped : List InputItem → Stats → Stats
skipped [] s = s
skipped (i ∷ is) s = skipped is (count_not_hashed i.info.file_size s)

abbrev pub AllFresh : EntryCache → List InputItem → Type 0
AllFresh root = All λ i. is_fresh (entry_of root i) i ≡ true

-- Two caches have the same entries for the files.
abbrev Agree : EntryCache → EntryCache → List InputItem → Type 0
Agree root root' = All λ i. entry_of root' i ≡ entry_of root i

sent_for-Agree :
    (root root' : EntryCache) (items : List InputItem)
    → Agree root root' items
    → sent_for root' items ≡ sent_for root items
sent_for-Agree root root' [] h = refl
sent_for-Agree root root' (i ∷ is) (e, h) = rw (e, sent_for-Agree root root' is h) refl

AllFresh-Agree :
    (root root' : EntryCache) (items : List InputItem)
    → Agree root root' items
    → AllFresh root items
    → AllFresh root' items
AllFresh-Agree root root' [] h f = tt
AllFresh-Agree root root' (i ∷ is) (e, h) (f, fs) = (rw e f, AllFresh-Agree root root' is h fs)

update_at-Agree :
    (i : InputItem) (root e : EntryCache) (items : List InputItem)
    → All (Apart i) items
    → Agree root (update_at (cache_parts i.full_path) (λ old. e) root) items
update_at-Agree i root e [] h = tt
update_at-Agree i root e (j ∷ js) (a, h) =
    (entry_of-other i j root e a, update_at-Agree i root e js h)

abbrev pub IsReadable : (Text → Reader) → InputItem → Type 0
IsReadable read item = (bytes : Text) × (read item.full_path ≡ ok bytes)

send-sent_for :
    (i : InputItem) (is : List InputItem) (root e : EntryCache) (o : Option ItemToArchive)
    (rest : List ItemToArchive)
    → o ≡ some (item_with i e)
    → rest ≡ sent_for root is
    → entry_of root i ≡ e
    → send o rest ≡ sent_for root (i ∷ is)
send-sent_for i is root e o rest sent rests at = rw (sent, rests, at) refl

module _ (codec : Codec) (read : Text → Reader) (now : ℕ) where
  abbrev updated : InputItem → EntryCache → Result Bool × EntryCache
  updated item root = update_file codec now (entry_of root item) (observed codec read now item)

  -- A file that is read, or need not be, leaves a fresh entry.
  updated-fresh :
      (e : EntryCache) (item : InputItem) (bytes : Text)
      → read item.full_path ≡ ok bytes
      → (b : Bool) × ((update_file codec now e (observed codec read now item)).0 ≡ ok b)
        × (is_fresh (update_file codec now e (observed codec read now item)).1 item ≡ true)
  unfolding update_file is_fresh observed sha1_reader
  updated-fresh (entry_cache h n t l fs) item bytes r =
      elim (Bool-cases (eqb n item.info.file_size && eqb t item.info.mod_time)) [
        | inl e ↦ (false, ground arith, ground arith)
        | inr e ↦ (true, ground arith, ground arith)
      ]

  -- A fresh entry is not hashed, whatever can be read.
  update_file-fresh :
      (e : EntryCache) (item : InputItem)
      → is_fresh e item ≡ true
      → let r = update_file codec now e (observed codec read now item) in
        (r.0 ≡ ok false) × (hash_of r.1 ≡ hash_of e) × (is_fresh r.1 item ≡ true)
  unfolding update_file is_fresh observed
  update_file-fresh (entry_cache h n t l fs) item f = ground arith

  hash_item-ok :
      (item : InputItem) (root : EntryCache) (s : Stats) (b : Bool)
      → (updated item root).0 ≡ ok b
      → let e = (updated item root).1 in
        hash_item codec read now item root s ≡ (
          some (item_with item e),
          update_at (cache_parts item.full_path) (λ old. e) root,
          if b then count_hashed item.info.file_size s else count_not_hashed item.info.file_size s,
        )
  unfolding hash_item
  hash_item-ok item root s true h = rw (h, hash_item) refl
  hash_item-ok item root s false h = rw (h, hash_item) refl

  hash_item-err :
      (item : InputItem) (root : EntryCache) (s : Stats) (why : Error)
      → (updated item root).0 ≡ err why
      → hash_item codec read now item root s ≡ (
        none,
        update_at (cache_parts item.full_path) (λ old. (updated item root).1) root,
        count_error s,
      )
  unfolding hash_item
  hash_item-err item root s why h = rw (h, hash_item) refl

  hash_item-root :
      (item : InputItem) (root : EntryCache) (s : Stats)
      → (hash_item codec read now item root s).1
        ≡ update_at (cache_parts item.full_path) (λ old. (updated item root).1) root
  hash_item-root item root s = elim (Result-cases (updated item root).0) [
    | inl (b, h) ↦ ap (λ r. r.1) (hash_item-ok item root s b h)
    | inr (why, h) ↦ ap (λ r. r.1) (hash_item-err item root s why h)
  ]

  -- The entry of a file that is apart from all the others.
  entry_of-hash_inputs :
      (j : InputItem) (items : List InputItem) (root : EntryCache) (s : Stats)
      → All (Apart j) items
      → entry_of (hash_inputs codec read now items root s).1 j ≡ entry_of root j
  unfolding hash_inputs
  entry_of-hash_inputs j [] root s h = refl
  entry_of-hash_inputs j (i ∷ is) root s ((a, b), h) =
      let (o, root', s') = hash_item codec read now i root s in
      entry_of-hash_inputs j is root' s' h
      ∙ ap (λ r. entry_of r j) (hash_item-root i root s)
      ∙ entry_of-other i j root (updated i root).1 (b, a)

  -- After a run in which every file can be read, the cache has what was sent.
  pub hash_inputs-AllFresh :
      (items : List InputItem) (root : EntryCache) (s : Stats)
      → All (IsReadable read) items
      → AllApart items
      → let r = hash_inputs codec read now items root s in
        (r.0 ≡ sent_for r.1 items) × AllFresh r.1 items
  unfolding hash_inputs
  hash_inputs-AllFresh [] root s r a = (refl, tt)
  hash_inputs-AllFresh (i ∷ is) root s ((bytes, r), rs) (a, apart) =
      let (b, u, fresh) = updated-fresh (entry_of root i) i bytes r in
      let e = (updated i root).1 in
      let (o, root', s') = hash_item codec read now i root s in
      let (sent, all) = hash_inputs-AllFresh is root' s' rs apart in
      let at : entry_of (hash_inputs codec read now is root' s').1 i ≡ e =
        entry_of-hash_inputs i is root' s' a
        ∙ ap (λ r. entry_of r i) (hash_item-root i root s)
        ∙ entry_of-hash_item i root e in
      (
        send-sent_for i is (hash_inputs codec read now is root' s').1 e o
            (hash_inputs codec read now is root' s').0 (ap (λ r. r.0) (hash_item-ok i root s b u))
            sent at,
        (rw at fresh, all),
      )

  -- A run over files that the cache has entries of sends what the cache has, and hashes none of them.
  pub hash_inputs-sent_for :
      (items : List InputItem) (root : EntryCache) (s : Stats)
      → AllFresh root items
      → AllApart items
      → let r = hash_inputs codec read now items root s in
        (r.0 ≡ sent_for root items) × (r.2 ≡ skipped items s)
  unfolding hash_inputs
  hash_inputs-sent_for [] root s f a = (refl, refl)
  hash_inputs-sent_for (i ∷ is) root s (f, fs) (a, apart) =
      let (u, hash, fresh) = update_file-fresh (entry_of root i) i f in
      let e = (updated i root).1 in
      let (o, root', s') = hash_item codec read now i root s in
      let ok = hash_item-ok i root s false u in
      let agree : Agree root root' is = rw (ap (λ r. r.1) ok) (update_at-Agree i root e is a) in
      let (sent, counted) =
        hash_inputs-sent_for is root' s' (AllFresh-Agree root root' is agree fs) apart in
      let same : item_with i e ≡ item_with i (entry_of root i) =
        ap (λ h. record (item_with i e) { sha1 = h }) hash in
      (
        rw (ap (λ r. r.0) ok, sent, sent_for-Agree root root' is agree, same) refl,
        counted ∙ ap (λ r. skipped is r.2) ok,
      )

-- When all the files can be read and none is in the path of another one, a second run of hashInputs
-- with the cache that the first one leaves sends the items that the first one sent, whatever can be
-- read then, and counts every file as not hashed.
pub hash_inputs-hash_inputs :
    (codec : Codec) (read read' : Text → Reader) (now now' : ℕ) (items : List InputItem)
    (root : EntryCache) (s s' : Stats)
    → All (IsReadable read) items
    → AllApart items
    → let first = hash_inputs codec read now items root s in
      let second = hash_inputs codec read' now' items first.1 s' in
      (second.0 ≡ first.0) × (second.2 ≡ skipped items s')
hash_inputs-hash_inputs codec read read' now now' items root s s' r a =
    let (sent, fresh) = hash_inputs-AllFresh codec read now items root s r a in
    let first = hash_inputs codec read now items root s in
    let (again, counted) = hash_inputs-sent_for codec read' now' items first.1 s' fresh a in
    (again ∙ sym sent, counted)
