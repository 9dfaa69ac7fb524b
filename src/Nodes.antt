-- ===== src/Nodes.antt =====
-- The nodes: the table in memory of dumbcaslib/nodes.go ,
-- LoadReaderAsJSON of common.go and LoadEntry of nodes_local.go.
pub mod Laws
pub mod Naming
use dumbcas.Prelude.FilePath.{join, decimal}
use dumbcas.Prelude.{ℕ, zero, suc, ◌+◌, ◌++◌, length, Text, text, List, [], Option, none, some}
use dumbcas.Prelude.Map.{Map, lookup, insert, erase, keys}
use dumbcas.Entry.{Entry}
use dumbcas.Table.{Error, not_exist, invalid, failed, Result, ok, err, Reader, Enumeration, Node}
use dumbcas.Table.{Codec, CasTable, NodesTable, io}
use dumbcas.Cas.{items_of}

pub record MemoryNodes : Type 0 where
  pub entries : Map Text

unfoldable pub make_memory_nodes : MemoryNodes
make_memory_nodes = record { entries = [] }

unfoldable pub enumerate : MemoryNodes → List Enumeration
unfolding items_of keys
enumerate m = items_of (keys m.entries)

unfoldable pub open_item : MemoryNodes → Text → Result Reader
open_item m name = elim (lookup name m.entries) [
  | none ↦ err (failed "Missing" name)
  | some bytes ↦ ok (ok bytes)
]

unfoldable pub remove : MemoryNodes → Text → Option Error × MemoryNodes
remove m name = elim (lookup name m.entries) [
  | none ↦ (some not_exist, m)
  | some bytes ↦ (none, record m { entries = erase name m.entries })
]

unfoldable pub corrupt : MemoryNodes → MemoryNodes
corrupt m = record m { entries = insert (text "tags/fictious") (text "Invalid JSON") m.entries }

-- The texts of `now` in the formats "2006-01" and "2006-01-02_15-04-05".
pub record Stamp : Type 0 where
  pub month : Text
  pub second : Text

-- The path for one try of AddEntry.
unfoldable pub node_path : Stamp → Text → ℕ → Text
node_path now name zero = join now.month (now.second ++ text "_" ++ name)
node_path now name (suc n) =
    join now.month (now.second ++ text "_" ++ name ++ text "(" ++ decimal (suc n) ++ text ")")

-- The loop over the suffixes. It has no bound in the source; here `none` says that the fuel ran out.
unfoldable pub free_path : ℕ → Stamp → Text → ℕ → Map Text → Option Text
free_path zero now name suffix m = none
free_path (suc fuel) now name suffix m =
    let path = node_path now name suffix in
    let rest = free_path fuel now name (suffix + 1) m in
    elim (lookup path m) [ none ↦ some path | some old ↦ rest ]

tag_path : Text → Text
tag_path name = text "tags" ++ text "/" ++ name

store : Option Text → Text → Text → MemoryNodes → Result Text × MemoryNodes
unfolding tag_path
store none bytes name m = (err io, m)
store (some path) bytes name m =
    (ok path, record m { entries = insert (tag_path name) bytes (insert path bytes m.entries) })

-- Two tries more than there are entries; the paths with a suffix differ.
unfoldable pub add_entry : Codec → Stamp → MemoryNodes → Node → Text → Result Text × MemoryNodes
unfolding free_path store
add_entry codec now m node name = elim (codec.encode_node node) [
  | none ↦ (err (failed "Failed to marshall internal state: %s" []), m)
  | some bytes ↦ store (free_path (suc (suc (length m.entries))) now name 0 m.entries) bytes name m
]

abbrev pub memory_nodes : Codec → Stamp → NodesTable
memory_nodes codec now = record {
  State = MemoryNodes;
  enumerate = enumerate;
  open_item = open_item;
  remove = remove;
  add_entry = add_entry codec now;
}

decoded {ℓ} : {A : Type ℓ} → Option A → Result A
decoded none = err invalid
decoded (some a) = ok a

-- LoadReaderAsJSON; the decoder stands for json.Unmarshal at the type of the value.
unfoldable pub load_reader_as_json {ℓ} : {A : Type ℓ} → (Text → Option A) → Reader → Result A
unfolding decoded
load_reader_as_json decode (ok bytes) = decoded (decode bytes)
load_reader_as_json decode (err e) = err e

module _ (C : CasTable) (codec : Codec) where
  read_entry : C.State → Text → Result Entry → Result Entry × C.State
  read_entry s hash (ok e) = (ok e, s)
  read_entry s hash (err e) = (err (failed "Failed reading entry %s" hash), C.set_fsck_bit s)

  unfoldable pub load_entry : C.State → Text → Result Entry × C.State
  unfolding read_entry
  load_entry s hash = elim (C.open_item s hash) [
    | err e ↦ (err (failed "Invalid entry name: %s" hash), C.set_fsck_bit s)
    | ok f ↦ read_entry s hash (load_reader_as_json codec.decode_entry f)
  ]
