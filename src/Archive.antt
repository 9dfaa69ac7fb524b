-- ===== src/Archive.antt =====
-- The pipeline of archive.go without an interruption: enumerateInputs, hashInputs and archiveInputs, each
-- as a function from the list of what it receives to the list of what it sends.
pub mod Counters
pub mod Accounting
pub mod Objects
pub mod Trees
pub mod Run
pub mod Command
pub mod Inputs
pub mod SecondRun
pub mod Goroutines
use dumbcas.Prelude.{ℕ, ◌+◌, Text, Bool, true, false, if◌then◌else◌, List, [], ◌∷◌, ◌++◌}
use dumbcas.Prelude.{Option, none, some, drop, length}
use dumbcas.Prelude.FilePath.{base}
use dumbcas.Entry.{Entry, empty_entry}
use dumbcas.Entry.Paths.{ItemToArchive, make_entry}
use dumbcas.Table.{
  Error, exist, not_exist, invalid, closed_twice, io, failed, Result, ok, err, Reader,
}
use dumbcas.Table.{Codec, CasTable}
use dumbcas.Cas.{add_bytes}
use dumbcas.Cache.{EntryCache, hash_of, cache_parts, entry_at, update_at, Observed, update_file}
use Counters.{
  Stats, zero_stats, count_error, count_found, count_hashed, count_not_hashed, count_archived,
}
use Counters.{count_not_archived}

-- What os.Stat says of a file.
pub record FileInfo : Type 0 where
  pub file_size : ℕ
  pub mod_time : ℕ
  pub is_directory : Bool

-- type TreeItem of dumbcaslib/common.go
pub data TreeItem : Type 0 where
  tree_error : Error → TreeItem
  tree_item : Text → FileInfo → TreeItem

-- An input with what os.Stat says of it, and what EnumerateTree sends if it is a directory.
pub record Input : Type 0 where
  pub path : Text
  pub stat : Result FileInfo
  pub tree : List TreeItem

-- type inputItem
pub record InputItem : Type 0 where
  pub full_path : Text
  pub rel_path : Text
  pub info : FileInfo

-- The round of enumerateInputs for a directory.
unfoldable pub enumerate_tree : Text → List TreeItem → Stats → List InputItem × Stats
enumerate_tree input [] s = ([], s)
enumerate_tree input (tree_error e ∷ ts) s = enumerate_tree input ts (count_error s)
enumerate_tree input (tree_item full i ∷ ts) s =
    let skipped = enumerate_tree input ts s in
    let (rest, s') = enumerate_tree input ts (count_found i.file_size s) in
    if i.is_directory
    then skipped
    else (record { full_path = full; rel_path = drop (length input + 1) full; info = i } ∷ rest, s')

enumerate_input : Input → Stats → List InputItem × Stats
enumerate_input input s = elim input.stat [
  | err e ↦ ([], count_error s)
  | ok i ↦ if i.is_directory then enumerate_tree input.path input.tree s else (
    record { full_path = input.path; rel_path = base input.path; info = i } ∷ [],
    count_found i.file_size s,
  )
]

unfoldable pub enumerate_inputs : List Input → Stats → List InputItem × Stats
unfolding enumerate_input
enumerate_inputs [] s = ([], s)
enumerate_inputs (input ∷ inputs) s =
    let (here, s') = enumerate_input input s in
    let (rest, s'') = enumerate_inputs inputs s' in (here ++ rest, s'')

-- An item, if there is one, before the others.
abbrev pub send : {A : Type 0} → Option A → List A → List A
send none rest = rest
send (some item) rest = item ∷ rest

-- `read` gives what reading a file gives when it is hashed; the time is that of the round.
module _ (codec : Codec) (read : Text → Reader) (now : ℕ) where
  observed : InputItem → Observed
  observed item = record {
    size = item.info.file_size;
    timestamp = item.info.mod_time;
    reader = read item.full_path;
  }

  -- One round of hashInputs: the item to send, if there is one, the cache and the counters.
  unfoldable pub hash_item :
      InputItem → EntryCache → Stats → Option ItemToArchive × EntryCache × Stats
  unfolding observed
  hash_item item root s =
      let ps = cache_parts item.full_path in
      let (r, e) = update_file codec now (entry_at ps root) (observed item) in
      let root' = update_at ps (λ old. e) root in
      let sent : ItemToArchive = record {
        full_path = item.full_path;
        rel_path = item.rel_path;
        sha1 = hash_of e;
        size = item.info.file_size;
      } in
      elim r [
        | err why ↦ (none, root', count_error s)
        | ok true ↦ (some sent, root', count_hashed item.info.file_size s)
        | ok false ↦ (some sent, root', count_not_hashed item.info.file_size s)
      ]

  unfoldable pub hash_inputs :
      List InputItem → EntryCache → Stats → List ItemToArchive × EntryCache × Stats
  hash_inputs [] root s = ([], root, s)
  hash_inputs (item ∷ items) root s =
      let (o, root', s') = hash_item item root s in
      let (rest, root'', s'') = hash_inputs items root' s' in (send o rest, root'', s'')

-- How the error of AddEntry is counted, in archiveItem and for the entry file.
unfoldable pub count_added : ℕ → Option Error → Stats → Stats
count_added size none s = count_archived size s
count_added size (some exist) s = count_not_archived size s
count_added size (some not_exist) s = count_error s
count_added size (some invalid) s = count_error s
count_added size (some closed_twice) s = count_error s
count_added size (some io) s = count_error s
count_added size (some (failed f n)) s = count_error s

-- `opened` is what os.Open gives when the file is archived.
module _ (C : CasTable) (opened : Text → Result Reader) where
  unfoldable pub archive_item : ItemToArchive → C.State → Stats → C.State × Stats
  unfolding count_added
  archive_item item c s = elim (opened item.full_path) [
    | err e ↦ (c, count_error s)
    | ok f ↦ let (e, c') = C.add_entry c f item.sha1 in (c', count_added item.size e s)
  ]

  unfoldable pub archive_items :
      List ItemToArchive → Entry → C.State → Stats → Entry × C.State × Stats
  archive_items [] root c s = (root, c, s)
  archive_items (item ∷ items) root c s =
      let (c', s') = archive_item item c s in archive_items items (make_entry root item) c' s'

  module _ (codec : Codec) where
    -- The hash of the entry file, if it is sent, the table and the counters.
    pub archive_entry : Option Text → C.State → Stats → Option Text × C.State × Stats
    archive_entry none c s = (none, c, count_error s)
    archive_entry (some bytes) c s =
        let (hash, e, c') = add_bytes C codec c bytes in
        (
          elim e [ none ↦ some hash | some why ↦ (elim why [ exist ↦ some hash | _ ↦ none ]) ],
          c',
          count_added (length bytes) e s,
        )

    unfoldable pub archive_inputs :
        List ItemToArchive → C.State → Stats → Option Text × C.State × Stats
    unfolding archive_entry
    archive_inputs items c s =
        let (root, c', s') = archive_items items empty_entry c s in
        archive_entry (codec.encode_entry root) c' s'

-- What the three goroutines of main do together, up to the node: the hash of the entry file, if there
-- is one, the cache, the table and the counters. The counters are only added to, so their final values
-- do not depend on how the goroutines are interleaved.
pub record Archived (C : CasTable) : Type 0 where
  pub entry_hash : Option Text
  pub cache : EntryCache
  pub table : C.State
  pub stats : Stats

-- What the run finds on the disk: `read` when a file is hashed, `opened` when it is archived.
pub record Source : Type 0 where
  pub read : Text → Reader
  pub opened : Text → Result Reader
  pub now : ℕ

unfoldable pub archive_all :
    (C : CasTable) → Codec → Source → List Input → EntryCache → C.State → Archived C
archive_all C codec source inputs cache c =
    let (items, s) = enumerate_inputs inputs zero_stats in
    let (hashed, cache', s') = hash_inputs codec source.read source.now items cache s in
    let (hash, c', s'') = archive_inputs C source.opened codec hashed c s' in
    record { entry_hash = hash; cache = cache'; table = c'; stats = s'' }
