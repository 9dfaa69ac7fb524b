-- ===== src/Archive/Goroutines.antt =====
-- The three goroutines that main of archive.go starts, interleaved in any order, over the two channels
-- between them. A round of a loop is one step; each loop may leave by its interrupt case at any time.
pub mod Sums
pub mod Rest
pub mod Enumerating
pub mod Hashing
pub mod Storing
pub mod Order
pub mod Decreasing
pub mod Ordered
pub mod Progress
pub mod Interrupts
use dumbcas.Prelude.{ℕ, ◌+◌, Text, Bool, true, false, ltb, if◌then◌else◌, ◌≡◌, List, [], ◌∷◌, ◌++◌}
use dumbcas.Prelude.{Option, none, some, length, drop}
use dumbcas.Prelude.FilePath.{base}
use dumbcas.Entry.{Entry, empty_entry}
use dumbcas.Entry.Paths.{ItemToArchive, make_entry}
use dumbcas.Table.{ok, err, Codec, CasTable}
use dumbcas.Cache.{EntryCache}
use dumbcas.Archive.Counters.{Stats, zero_stats, count_error, count_found}
use dumbcas.Archive.{TreeItem, tree_error, tree_item, Input, InputItem, FileInfo, Source}
use dumbcas.Archive.{hash_item, archive_item, archive_entry}

-- Where archiveInputs is: in its loop, gone by an interrupt, or at its end with the hash that it sent.
pub data Archiving : Type 0 where
  running stopped : Archiving
  ended : Option Text → Archiving

-- The buffers of the two channels.
abbrev pub found_capacity : ℕ
found_capacity = 128000

abbrev pub hashed_capacity : ℕ
hashed_capacity = 4096

module _ (C : CasTable) where
  -- What the goroutines share and where each of them is. `walking` is what EnumerateTree has still to
  -- send of the directory `input`, if enumerateInputs is in one. A goroutine that has an item to send
  -- waits for room, and looks for no interrupt then. A channel holds what was sent and not received,
  -- the oldest first, and is closed when its sender is gone.
  pub record Pipeline : Type 0 where
    pub input : Text
    pub walking : Option (List TreeItem)
    pub inputs : List Input
    pub enumerating : Bool
    pub found_next : Option InputItem
    pub found_items : List InputItem
    pub hashing : Bool
    pub cache : EntryCache
    pub hashed_next : Option ItemToArchive
    pub hashed_items : List ItemToArchive
    pub archiving : Archiving
    pub root : Entry
    pub table : C.State
    pub stats : Stats
    pub interrupted : ℕ

  unfoldable pub start : List Input → EntryCache → C.State → Pipeline
  start inputs cache c = record {
    input = [];
    walking = none;
    inputs = inputs;
    enumerating = true;
    found_next = none;
    found_items = [];
    hashing = true;
    cache = cache;
    hashed_next = none;
    hashed_items = [];
    archiving = running;
    root = empty_entry;
    table = c;
    stats = zero_stats;
    interrupted = 0;
  }

  count_file : Pipeline → Text → Text → FileInfo → Pipeline
  count_file p full rel i = record p {
    found_next = some (record { full_path = full; rel_path = rel; info = i });
    stats = count_found i.file_size p.stats;
  }

  -- An item of EnumerateTree.
  walk_item : Pipeline → TreeItem → Option Pipeline
  walk_item p (tree_error e) = some (record p { stats = count_error p.stats })
  walk_item p (tree_item full i) =
      some (if i.is_directory then p else count_file p full (drop (length p.input + 1) full) i)

  -- An input.
  stat_input : Pipeline → Input → Option Pipeline
  stat_input p i = elim i.stat [
    | err e ↦ some (record p { stats = count_error p.stats })
    | ok f ↦ some (
        if f.is_directory
        then record p { input = i.path; walking = some i.tree }
        else count_file p i.path (base i.path) f)
  ]

  next_input : Pipeline → List Input → Option Pipeline
  next_input p [] = some (record p { enumerating = false })
  next_input p (i ∷ is) = stat_input (record p { inputs = is }) i

  next_found : Pipeline → Option (List TreeItem) → Option Pipeline
  next_found p none = next_input p p.inputs
  next_found p (some []) = some (record p { walking = none })
  next_found p (some (t ∷ ts)) = walk_item (record p { walking = some ts }) t

  send_found : Pipeline → Option InputItem → Option Pipeline
  send_found p none = next_found p p.walking
  send_found p (some item) =
      if ltb (length p.found_items) found_capacity
      then some (record p { found_next = none; found_items = p.found_items ++ item ∷ [] })
      else none

  -- The goroutine of enumerateInputs; `none` says that it waits or is gone.
  unfoldable pub enumerate_step : Pipeline → Option Pipeline
  unfolding count_file walk_item stat_input next_input next_found send_found
  enumerate_step p = if p.enumerating then send_found p p.found_next else none

  module _ (codec : Codec) (source : Source) where
    hash_next : Pipeline → List InputItem → Option Pipeline
    hash_next p [] = if p.enumerating then none else some (record p { hashing = false })
    hash_next p (item ∷ items) =
        let (o, cache, s) = hash_item codec source.read source.now item p.cache p.stats in
        some (record p { found_items = items; cache = cache; hashed_next = o; stats = s })

    send_hashed : Pipeline → Option ItemToArchive → Option Pipeline
    send_hashed p none = hash_next p p.found_items
    send_hashed p (some item) =
        if ltb (length p.hashed_items) hashed_capacity
        then some (record p { hashed_next = none; hashed_items = p.hashed_items ++ item ∷ [] })
        else none

    -- The goroutine of hashInputs.
    unfoldable pub hash_step : Pipeline → Option Pipeline
    unfolding hash_next send_hashed
    hash_step p = if p.hashing then send_hashed p p.hashed_next else none

    send_entry : Pipeline → Pipeline
    send_entry p =
        let (hash, c, s) =
          archive_entry C source.opened codec (codec.encode_entry p.root) p.table p.stats in
        record p { archiving = ended hash; table = c; stats = s }

    archive_next : Pipeline → List ItemToArchive → Option Pipeline
    archive_next p [] = if p.hashing then none else some (send_entry p)
    archive_next p (item ∷ items) =
        let (c, s) = archive_item C source.opened item p.table p.stats in
        some
          (record p { hashed_items = items; root = make_entry p.root item; table = c; stats = s })

    archive_of : Pipeline → Archiving → Option Pipeline
    archive_of p running = archive_next p p.hashed_items
    archive_of p stopped = none
    archive_of p (ended hash) = none

    -- The goroutine of archiveInputs.
    unfoldable pub archive_step : Pipeline → Option Pipeline
    unfolding send_entry archive_next archive_entry archive_of
    archive_step p = archive_of p p.archiving

    -- One round of one of the goroutines.
    pub data Turn (p : Pipeline) (q : Pipeline) : Type 0 where
      enumerate_round : enumerate_step p ≡ some q → Turn p q
      hash_round : hash_step p ≡ some q → Turn p q
      archive_round : archive_step p ≡ some q → Turn p q

    -- A round, or what an interrupt does: EnumerateTree sends no more, or a goroutine leaves its loop.
    -- The one of enumerateInputs looks for an interrupt while it is in a directory.
    pub data Step (p : Pipeline) (q : Pipeline) : Type 0 where
      turn : Turn p q → Step p q
      interrupt_walk :
          (ts : List TreeItem) → p.walking ≡ some ts → q ≡ record p { walking = some [] } → Step p q
      interrupt_enumerate :
          (ts : List TreeItem)
          → p.enumerating ≡ true
          → p.walking ≡ some ts
          → p.found_next ≡ none
          → q ≡ record p { enumerating = false; interrupted = p.interrupted + 1 }
          → Step p q
      interrupt_hash :
          p.hashing ≡ true
          → p.hashed_next ≡ none
          → q ≡ record p { hashing = false; interrupted = p.interrupted + 1 }
          → Step p q
      interrupt_archive :
          p.archiving ≡ running
          → q ≡ record p { archiving = stopped; interrupted = p.interrupted + 1 }
          → Step p q

  -- Some steps of a kind, one after another.
  pub data Reach (R : Pipeline → Pipeline → Type 0) (p : Pipeline) : Pipeline → Type 0 where
    here : Reach R p p
    next : {q r : Pipeline} → Reach R p q → R q r → Reach R p r
