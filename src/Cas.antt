-- ===== src/Cas.antt =====
-- The table in memory of dumbcaslib/cas.go, and AddBytes of cas_local.go.
pub mod Laws
use dumbcas.Prelude.{Text, text, Bool, true, false, List, [], ◌∷◌, Option, none, some}
use dumbcas.Prelude.Map.{Map, lookup, insert, erase, keys}
use dumbcas.Prelude.Sort.{sort_strings}
use dumbcas.Table.{
  Error, exist, not_exist, failed, Result, ok, err, Reader, Enumeration, item, broken,
}
use dumbcas.Table.{Codec, CasTable, ◌>>=◌}

pub record MemoryCas : Type 0 where
  pub entries : Map Text
  pub need_fsck : Bool

unfoldable pub make_memory_cas : MemoryCas
make_memory_cas = record { entries = []; need_fsck = false }

unfoldable pub items_of : List Text → List Enumeration
items_of [] = []
items_of (k ∷ ks) = item k ∷ items_of ks

-- The keys are copied before the first is sent.
unfoldable pub enumerate : MemoryCas → List Enumeration × MemoryCas
unfolding items_of keys
enumerate m = (items_of (keys m.entries), m)

add_data : MemoryCas → Text → Reader → Option Error × MemoryCas
add_data m name (ok bytes) = (none, record m { entries = insert name bytes m.entries })
add_data m name (err e) = (some e, m)

unfoldable pub add_entry : MemoryCas → Reader → Text → Option Error × MemoryCas
unfolding add_data
add_entry m source name = elim (lookup name m.entries) [
  | some old ↦ (some exist, m)
  | none ↦ add_data m name source
]

unfoldable pub open_item : MemoryCas → Text → Result Reader
open_item m name = elim (lookup name m.entries) [
  | none ↦ err (failed "Missing" name)
  | some bytes ↦ ok (ok bytes)
]

unfoldable pub remove : MemoryCas → Text → Option Error × MemoryCas
remove m name = elim (lookup name m.entries) [
  | none ↦ (some not_exist, m)
  | some bytes ↦ (none, record m { entries = erase name m.entries })
]

unfoldable pub set_fsck_bit : MemoryCas → MemoryCas
set_fsck_bit m = record m { need_fsck = true }

unfoldable pub get_fsck_bit : MemoryCas → Bool
get_fsck_bit m = m.need_fsck

unfoldable pub clear_fsck_bit : MemoryCas → MemoryCas
clear_fsck_bit m = record m { need_fsck = false }

abbrev pub memory_cas : CasTable
memory_cas = record {
  State = MemoryCas;
  enumerate = enumerate;
  open_item = open_item;
  remove = remove;
  add_entry = add_entry;
  set_fsck_bit = set_fsck_bit;
  get_fsck_bit = get_fsck_bit;
  clear_fsck_bit = clear_fsck_bit;
}

unfoldable pub collect : List Enumeration → Result (List Text)
collect [] = ok []
collect (item k ∷ es) = do ks ← collect es; ok (k ∷ ks)
collect (broken e ∷ es) = err e

module _ (C : CasTable) where
  unfoldable pub enumerate_cas_as_list : C.State → Result (List Text) × C.State
  unfolding collect sort_strings
  enumerate_cas_as_list s =
      let (es, s') = C.enumerate s in ((do names ← collect es; ok (sort_strings names)), s')

  module _ (codec : Codec) where
    unfoldable pub add_bytes : C.State → Text → Text × Option Error × C.State
    add_bytes s bytes =
        let hash = codec.sha1 bytes in let (e, s') = C.add_entry s (ok bytes) hash in (hash, e, s')

module _ (codec : Codec) where
  unfoldable pub corrupt : MemoryCas → MemoryCas
  corrupt m = record m { entries = insert (codec.sha1 (0 ∷ 1 ∷ [])) (text "content5") m.entries }
