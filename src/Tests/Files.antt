-- ===== src/Tests/Files.antt =====
-- Files kept in a map, for the theorems on the CAS table on disk. The directories are not recorded.
use dumbcas.Files.{FileSystem, IsLawfulFiles, join_all}
use dumbcas.Prelude.{ℕ, Text, text, ◌==◌, ◌≡◌, refl, true, false, [], ◌∷◌, ◌++◌, Option, none, some}
use dumbcas.Prelude.{if◌then◌else◌, length, arith, eq_iff, has_prefix}
use dumbcas.Prelude.Map.{Map, lookup, insert, erase, lookup-insert, is_some}
use dumbcas.Prelude.FilePath.{dir, clean, join_parts, split}
use dumbcas.Table.{Error, exist, not_exist, Result, ok, err, Reader, content}
use dumbcas.Fsck.{is_hash, all_hex, is_hex}
use dumbcas.Restore.{Disk, IsLawfulDisk}
use dumbcas.LocalCas.{LocalCas, local_cas, add_entry, file_path}
use dumbcas.LocalCas.{remove, move}
use dumbcas.LocalCas.Adding.{content-add_entry}
use dumbcas.Tests.Tables.{name_a, repeated}

unfoldable pub file : Map Text → Text → Option Text
file d p = if p == [] then none else lookup p d

unfoldable pub create : Map Text → Text → Option Error × Map Text
create d p =
    if p == []
    then (some not_exist, d)
    else (elim (lookup p d) [ some old ↦ (some exist, d) | none ↦ (none, insert p [] d) ])

unfoldable pub copy : Map Text → Text → Reader → Option Error × ℕ × Map Text
copy d p (ok bytes) = (none, length bytes, insert p bytes d)
copy d p (err e) = (some e, 0, d)

abbrev pub map_disk : Disk
map_disk = record {
  State = Map Text;
  file = file;
  mkdir_all = λ d p. (none, d);
  create = create;
  copy = copy;
}

pub open_file : Map Text → Text → Result Reader
open_file d p = elim (file d p) [ none ↦ err not_exist | some bytes ↦ ok (ok bytes) ]

pub rename : Map Text → Text → Text → Option Error × Map Text
rename d p q = elim (lookup p d) [
  | none ↦ (some not_exist, d)
  | some bytes ↦ (none, insert q bytes (erase p d))
]

abbrev pub map_files : FileSystem
map_files = record {
  disk = map_disk;
  open_file = open_file;
  read_dir_names = λ d p. ok [];
  create_empty = λ d p. (none, insert p [] d);
  remove = λ d p. (none, erase p d);
  mkdir = λ d p. (none, d);
  rename = rename;
}

pub file-copy :
    (d : Map Text) (p : Text) (r : Reader)
    → file d p ≡ some []
    → (copy d p r).0 ≡ none
    → (bytes : Text) × (r ≡ ok bytes)
      × (file (copy d p r).2 p ≡ some bytes)
      × ((copy d p r).1 ≡ length bytes)
unfolding copy file
file-copy d p (ok bytes) e h =
    (bytes, refl, ground (arith, lookup-insert p p bytes d, eq_iff p p), refl)
file-copy d p (err e) f h = absurd (ground arith)

pub file-copy_other :
    (d : Map Text) (p q : Text) (r : Reader) → (p == q) ≡ false → file (copy d p r).2 q ≡ file d q
unfolding copy file
file-copy_other d p q (ok bytes) h = ground (arith, lookup-insert p q bytes d)
file-copy_other d p q (err e) h = refl

create_new : (d : Map Text) (p : Text) → (create d p).0 ≡ none → file d p ≡ none
unfolding create file
create_new d p h = ground arith

file-create :
    (d : Map Text) (p q : Text)
    → (create d p).0 ≡ none
    → file (create d p).1 q ≡ (if p == q then some [] else file d q)
unfolding create file
file-create d p q h = ground (arith, lookup-insert p q [] d, eq_iff p q)

file-create_failed :
    (d : Map Text) (p q : Text) (e : Error)
    → (create d p).0 ≡ some e
    → file (create d p).1 q ≡ file d q
unfolding create file
file-create_failed d p q e h = ground arith

pub map_disk-IsLawful : IsLawfulDisk map_disk
map_disk-IsLawful = record {
  file-mkdir_all = λ d p q. refl;
  create_new = create_new;
  file-create = file-create;
  file-create_failed = file-create_failed;
  file-copy = file-copy;
  file-copy_other = file-copy_other;
}

open_file-file :
    (d : Map Text) (p bytes : Text) → file d p ≡ some bytes → open_file d p ≡ ok (ok bytes)
unfolding open_file
open_file-file d p bytes h = rw (h, open_file) refl

create-empty_name : (d : Map Text) → (create d []).0 ≡ some not_exist
unfolding create ◌==◌
create-empty_name d = refl

create-exist : (d : Map Text) (p : Text) → is_some (file d p) ≡ true → (create d p).0 ≡ some exist
unfolding create file
create-exist d p h = ground arith

open_file-create_failed :
    (d : Map Text) (p q : Text) (e : Error)
    → (create d p).0 ≡ some e
    → open_file (create d p).1 q ≡ open_file d q
unfolding open_file
open_file-create_failed d p q e h = rw (file-create_failed d p q e h, open_file) refl

open_file-create_other :
    (d : Map Text) (p q : Text) → (p == q) ≡ false → open_file (create d p).1 q ≡ open_file d q
unfolding open_file create file
open_file-create_other d p q h = ground (arith, lookup-insert p q [] d)

open_file-copy_other :
    (d : Map Text) (p q : Text) (r : Reader)
    → (p == q) ≡ false
    → open_file (copy d p r).2 q ≡ open_file d q
unfolding open_file
open_file-copy_other d p q r h = rw (file-copy_other d p q r h, open_file) refl

is_some-copy :
    (d : Map Text) (p : Text) (r : Reader)
    → is_some (file d p) ≡ true
    → is_some (file (copy d p r).2 p) ≡ true
unfolding copy file
is_some-copy d p (ok bytes) h = ground (arith, lookup-insert p p bytes d, eq_iff p p)
is_some-copy d p (err e) h = h

map_files-IsLawful : IsLawfulFiles map_files
map_files-IsLawful = record {
  files = map_disk-IsLawful;
  open_file-file = open_file-file;
  create-empty_name = create-empty_name;
  create-exist = create-exist;
  open_file-create_failed = open_file-create_failed;
  open_file-create_other = open_file-create_other;
  open_file-copy_other = open_file-copy_other;
  is_some-copy = is_some-copy;
}

abbrev empty_table : LocalCas map_files
empty_table = record { cas_dir = text "/d"; trash_created = false; files = [] }

path_a : Text
unfolding file_path join_all clean join_parts split ◌==◌ has_prefix is_hash all_hex is_hex
path_a = file_path (text "/d") name_a

added : Option Error × LocalCas map_files
unfolding path_a add_entry create copy lookup insert
added = add_entry map_files empty_table (ok (text "x")) name_a

add_runs :
    added
    ≡ (none, record empty_table { files = (text "/d/aaa/" ++ repeated 37 b'a', text "x") ∷ [] })
unfolding added
add_runs = refl

-- Removing an object moves it to the trash.
removed : Option Error × LocalCas map_files
unfolding added remove move rename erase dir
removed = remove map_files added.1 name_a

remove_runs : removed ≡ (
  none,
  record {
    cas_dir = text "/d";
    trash_created = true;
    files = (text "/d/trash/aaa/" ++ repeated 37 b'a', text "x") ∷ [];
  },
)
unfolding removed
remove_runs = refl

content-add_entry_example :
    content (local_cas map_files) (add_entry map_files empty_table (ok (text "x")) name_a).1 name_a
    ≡ some (ok (text "x"))
unfolding added ◌==◌
content-add_entry_example =
    content-add_entry map_files map_files-IsLawful empty_table (ok (text "x")) name_a name_a refl
      refl
