-- ===== src/Cas/Laws.antt =====
-- The table in memory of dumbcaslib/cas.go meets what the clients of a CasTable rely on.
use dumbcas.Prelude.{◌≢◌, eq_iff, true, Text, ◌==◌, ◌≡◌, refl, List, [], ◌∷◌, none, some, arith}
use dumbcas.Prelude.{if◌then◌else◌}
use dumbcas.Prelude.Map.{keys, contains, is_some, lookup-erase, lookup-insert}
use dumbcas.Prelude.Map.{contains-keys}
use dumbcas.Table.{Error, exist, Reader, ok, err, items, content, IsLawful, IsListed}
use dumbcas.Cas.{MemoryCas, items_of, enumerate, open_item, remove, set_fsck_bit, clear_fsck_bit}
use dumbcas.Cas.{get_fsck_bit, memory_cas, add_entry}

content-remove :
    (s : MemoryCas) (k j : Text)
    → (remove s k).0 ≡ none
    → content memory_cas (remove s k).1 j ≡ (if k == j then none else content memory_cas s j)
unfolding remove open_item
content-remove s k j h = ground (arith, lookup-erase k j s.entries)

content-remove_failed :
    (s : MemoryCas) (k j : Text) (e : Error)
    → (remove s k).0 ≡ some e
    → content memory_cas (remove s k).1 j ≡ content memory_cas s j
unfolding remove open_item
content-remove_failed s k j e h = ground arith

content-add_entry :
    (s : MemoryCas) (r : Reader) (k j : Text)
    → (add_entry s r k).0 ≡ none
    → content memory_cas (add_entry s r k).1 j ≡ (if k == j then some r else content memory_cas s j)
unfolding add_entry open_item
content-add_entry s (ok bytes) k j h = ground (arith, lookup-insert k j bytes s.entries)
content-add_entry s (err e) k j h = ground arith

add_entry-exist :
    (s : MemoryCas) (r : Reader) (k : Text)
    → (add_entry s r k).0 ≡ some exist
    → r ≢ err exist
    → is_some (content memory_cas s k) ≡ true
unfolding add_entry open_item
add_entry-exist s (ok bytes) k h n = ground arith
add_entry-exist s (err e) k h n = ground arith

add_entry-keeps :
    (s : MemoryCas) (r : Reader) (k j : Text) (old : Reader)
    → content memory_cas s j ≡ some old
    → content memory_cas (add_entry s r k).1 j ≡ some old
unfolding add_entry open_item
add_entry-keeps s (ok bytes) k j old h =
    ground (arith, eq_iff k j, lookup-insert k j bytes s.entries)
add_entry-keeps s (err e) k j old h = ground arith

-- An entry is added whole, or not at all.
pub memory_cas-IsAtomic :
    (s : MemoryCas) (r : Reader) (k j : Text) (e : Error)
    → (add_entry s r k).0 ≡ some e
    → content memory_cas (add_entry s r k).1 j ≡ content memory_cas s j
unfolding add_entry open_item
memory_cas-IsAtomic s (ok bytes) k j e h = ground arith
memory_cas-IsAtomic s (err why) k j e h = ground arith

pub memory_cas-IsLawful : IsLawful memory_cas
unfolding open_item enumerate set_fsck_bit clear_fsck_bit get_fsck_bit
memory_cas-IsLawful = record {
  content-remove = content-remove;
  content-remove_failed = content-remove_failed;
  content-add_entry = content-add_entry;
  add_entry-exist = add_entry-exist;
  add_entry-keeps = add_entry-keeps;
  content-enumerate = λ s j. refl;
  content-set_fsck_bit = λ s j. refl;
  content-clear_fsck_bit = λ s j. refl;
  get-set_fsck_bit = λ s. refl;
  get-clear_fsck_bit = λ s. refl;
}

pub items-items_of : (ks : List Text) → items (items_of ks) ≡ ks
unfolding items items_of
items-items_of [] = refl
items-items_of (k ∷ ks) = rw (items-items_of ks)

-- The table in memory enumerates exactly the names that can be opened, and is not changed by it.
pub enumerate_lem :
    (m : MemoryCas) (k : Text)
    → (contains (items (enumerate m).0) k ≡ is_some (content memory_cas m k))
      × ((enumerate m).1 ≡ m)
unfolding enumerate open_item
enumerate_lem m k = (rw (items-items_of (keys m.entries), contains-keys) (ground arith), refl)

pub memory_cas-IsListed : (m : MemoryCas) → IsListed memory_cas m
memory_cas-IsListed m k r h = rw (enumerate_lem m k).0 (rw h refl)

-- After AddEntry of the table in memory a name that was taken has the content that it had, a free
-- one has the new content if that could be read, and every other name has what it had.
pub add_entry_lem :
    (m : MemoryCas) (source : Reader) (k j : Text)
    → content memory_cas (add_entry m source k).1 j ≡ (
        if is_some (content memory_cas m k) then content memory_cas m j else elim source [
          | err e ↦ content memory_cas m j
          | ok bytes ↦ if k == j then some (ok bytes) else content memory_cas m j
        ])
unfolding add_entry open_item
add_entry_lem m (ok bytes) k j = ground (arith, lookup-insert k j bytes m.entries)
add_entry_lem m (err e) k j = ground arith
