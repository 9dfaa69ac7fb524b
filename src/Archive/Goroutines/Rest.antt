-- ===== src/Archive/Goroutines/Rest.antt =====
-- What a run of the goroutines of archive.go would still do, if it went on in the order of the stages.
use dumbcas.Prelude.{Text, Bool, true, false, if◌then◌else◌, ◌≡◌, refl, List, [], ◌++◌}
use dumbcas.Prelude.{Option, none, some}
use dumbcas.Entry.{Entry}
use dumbcas.Entry.Paths.{ItemToArchive}
use dumbcas.Table.{Codec, CasTable}
use dumbcas.Cache.{EntryCache}
use dumbcas.Archive.Counters.{Stats}
use dumbcas.Archive.{TreeItem, Input, InputItem, Source, Archived}
use dumbcas.Archive.{enumerate_tree, enumerate_inputs, hash_inputs, archive_items}
use dumbcas.Archive.{archive_entry, send}
use dumbcas.Archive.Goroutines.{Pipeline, Archiving, running, stopped, ended}
use dumbcas.Archive.Goroutines.Sums.{◌⊕◌, enumerate_tree-plus, enumerate_inputs-plus}
use dumbcas.Archive.Goroutines.Sums.{hash_inputs-plus}

-- What holds of the value of an option, if it has one.
abbrev pub Each : {A : Type 0} → (A → Type 0) → Option A → Type 0
Each P none = Unit
Each P (some a) = P a

-- A step that a test allows, or forbids.
pub if_then-Each :
    {A : Type 0} (P : A → Type 0) (b : Bool) (o : Option A)
    → (b ≡ true → Each P o)
    → Each P (if b then o else none)
if_then-Each P true o k = k refl
if_then-Each P false o k = tt

pub if_else-Each :
    {A : Type 0} (P : A → Type 0) (b : Bool) (a : A)
    → (b ≡ false → P a)
    → Each P (if b then none else some a)
if_else-Each P true a k = tt
if_else-Each P false a k = k refl

pub Each-map :
    {A : Type 0} (P Q : A → Type 0) (o : Option A) → ((a : A) → P a → Q a) → Each P o → Each Q o
Each-map P Q none f k = tt
Each-map P Q (some a) f k = f a k

pub taken : {A : Type 0} (P : A → Type 0) (o : Option A) (a : A) → Each P o → o ≡ some a → P a
taken P none a k h = cc
taken P (some b) a k h = let same : b ≡ a = cc in rw (← same) k

unfoldable pub left : Option (List TreeItem) → List TreeItem
left none = []
left (some ts) = ts

module _ (C : CasTable) where
  -- What each goroutine would still do, if it had all the input that is to come.
  unfoldable pub to_enumerate :
      Bool → Option InputItem → Text → List TreeItem → List Input → Stats → List InputItem × Stats
  to_enumerate false o input ts is s = ([], s)
  to_enumerate true o input ts is s =
      let (first, s') = enumerate_tree input ts s in
      let (later, s'') = enumerate_inputs is s' in (send o (first ++ later), s'')

  -- What is still to be enumerated does not depend on the counters.
  pub to_enumerate-plus :
      (on : Bool) (o : Option InputItem) (input : Text) (ts : List TreeItem) (is : List Input)
      (s d : Stats)
      → to_enumerate on o input ts is (s ⊕ d)
        ≡ ((to_enumerate on o input ts is s).0, (to_enumerate on o input ts is s).1 ⊕ d)
  unfolding to_enumerate
  to_enumerate-plus false o input ts is s d = refl
  to_enumerate-plus true o input ts is s d =
      let s' = (enumerate_tree input ts s).1 in
      rw (enumerate_tree-plus input ts s d) (rw (enumerate_inputs-plus is s' d) refl)

  unfoldable pub pending : Pipeline C → List InputItem × Stats
  unfolding to_enumerate
  pending p = to_enumerate p.enumerating p.found_next p.input (left p.walking) p.inputs p.stats

  module _ (codec : Codec) (source : Source) where
    unfoldable pub to_hash :
        Bool
        → Option ItemToArchive
        → List InputItem
        → EntryCache
        → Stats
        → List ItemToArchive × EntryCache × Stats
    to_hash false o items cache s = ([], cache, s)
    to_hash true o items cache s =
        let (later, cache', s') = hash_inputs codec source.read source.now items cache s in
        (send o later, cache', s')

    unfoldable pub to_archive :
        Archiving → List ItemToArchive → Entry → C.State → Stats → Option Text × C.State × Stats
    to_archive running items root c s =
        let (root', c', s') = archive_items C source.opened items root c s in
        archive_entry C source.opened codec (codec.encode_entry root') c' s'
    to_archive stopped items root c s = (none, c, s)
    to_archive (ended entry_hash) items root c s = (entry_hash, c, s)

    unfoldable pub work : Pipeline C → List InputItem × Stats → Archived C
    unfolding to_hash to_archive
    work p (items, s) =
        let (hashed, cache, s') =
          to_hash p.hashing p.hashed_next (p.found_items ++ items) p.cache s in
        let (entry_hash, c, s'') =
          to_archive p.archiving (p.hashed_items ++ hashed) p.root p.table s' in
        record { entry_hash = entry_hash; cache = cache; table = c; stats = s'' }

    -- What is reached when the rest of the work is done in the order of the stages.
    unfoldable pub rest : Pipeline C → Archived C
    unfolding work pending
    rest p = work p (pending p)

    -- A step that is taken keeps it.
    abbrev pub Keeps : Pipeline C → Option (Pipeline C) → Type 0
    Keeps p = Each λ q. rest q ≡ rest p

    pub to_hash-plus :
        (on : Bool) (o : Option ItemToArchive) (items : List InputItem) (cache : EntryCache)
        (s d : Stats)
        → let r = to_hash on o items cache s in
          to_hash on o items cache (s ⊕ d) ≡ (r.0, r.1, r.2 ⊕ d)
    unfolding to_hash
    to_hash-plus false o items cache s d = refl
    to_hash-plus true o items cache s d =
        rw (hash_inputs-plus codec source.read source.now items cache s d) refl
