-- ===== src/LocalCas.antt =====
-- The CAS table on disk of dumbcaslib/cas_local.go, and the trash of trash.go, over the calls of package
-- os that they make.
pub mod Paths
pub mod Adding
use dumbcas.Prelude.{
  ℕ, zero, suc, ◌+◌, ◌-◌, ◌*◌, ◌/◌, ◌%◌, ◌^◌, Text, text, ◌==◌, Bool, true, false, not,
}
use dumbcas.Prelude.{◌&&◌, eqb, ltb, if◌then◌else◌, List, [], ◌∷◌, ◌++◌, Option, none, some}
use dumbcas.Prelude.{length, take, drop}
use dumbcas.Prelude.FilePath.{clean, dir}
use dumbcas.Table.{
  Error, exist, invalid, failed, Result, ok, err, Reader, Enumeration, item, broken,
}
use dumbcas.Table.{CasTable}
use dumbcas.Fsck.{all_hex, is_hash}
use dumbcas.Restore.{blocks}
use dumbcas.Files.{FileSystem, join_all, is_abs}

abbrev pub prefix_length : ℕ
prefix_length = 3

-- filePath, in the directory of the table. It is empty for a name that is not a hash.
unfoldable pub file_path : Text → Text → Text
unfolding is_hash
file_path cas_dir hash =
    let full = join_all (cas_dir ∷ take prefix_length hash ∷ drop prefix_length hash ∷ []) in
    if is_hash hash then (if is_abs full then full else []) else []

unfoldable pub prefix_space : ℕ → ℕ
prefix_space n = if eqb n 0 then 0 else 2 ^ (n * 4)

hex_digit : ℕ → ℕ
hex_digit n = if ltb n 10 then b'0' + n else b'a' + (n - 10)

-- The digits of `%0*x` of a number below 16 ^ width.
unfoldable pub padded_hex : ℕ → ℕ → Text → Text
unfolding hex_digit
padded_hex zero i acc = acc
padded_hex (suc width) i acc = padded_hex width (i / 16) (hex_digit (i % 16) ∷ acc)

-- The regular expression of Enumerate of so many digits.
abbrev pub is_hex_of : ℕ → Text → Bool
is_hex_of n s = eqb (length s) n && all_hex s

module _ (F : FileSystem) where
  -- type casTable with its trash, and the files.
  pub record LocalCas : Type 0 where
    pub cas_dir : Text
    pub trash_created : Bool
    pub files : F.disk.State

  -- Of the trash, the directory that `created` remembers.
  make_trash_dir : LocalCas → Option Error × LocalCas
  make_trash_dir s =
      let trash_dir = join_all (s.cas_dir ∷ text "trash" ∷ []) in
      let (e, d) = F.mkdir s.files trash_dir in
      if s.trash_created then (none, s) else (elim (blocks e) [
        | true ↦ (some (failed "Failed to create %s: %s" trash_dir), record s { files = d })
        | false ↦ (none, record s { trash_created = true; files = d })
      ])

  make_sub_dir : Text → LocalCas → Option Error × LocalCas
  make_sub_dir rel s =
      let sub = join_all (join_all (s.cas_dir ∷ text "trash" ∷ []) ∷ dir rel ∷ []) in
      let (e, d) = F.disk.mkdir_all s.files sub in
      if dir rel == text "." then (none, s) else (elim (blocks e) [
        | true ↦ (some (failed "Failed to create %s: %s" sub), record s { files = d })
        | false ↦ (none, record s { files = d })
      ])

  rename_to_trash : Text → LocalCas → Option Error × LocalCas
  rename_to_trash rel s =
      let trash_dir = join_all (s.cas_dir ∷ text "trash" ∷ []) in
      let (e, d) =
        F.rename s.files (join_all (s.cas_dir ∷ rel ∷ [])) (join_all (trash_dir ∷ rel ∷ [])) in
      (e, record s { files = d })

  -- move of trashImpl
  unfoldable pub move : LocalCas → Text → Option Error × LocalCas
  unfolding make_trash_dir make_sub_dir rename_to_trash
  move s rel =
      let (e, s1) = make_trash_dir s in
      let (e', s2) = make_sub_dir rel s1 in
      elim e [
        | some why ↦ (some why, s1)
        | none ↦ elim e' [ some why ↦ (some why, s2) | none ↦ rename_to_trash rel s2 ]
      ]

  fsck_path : LocalCas → Text
  fsck_path s = join_all (s.cas_dir ∷ text "need_fsck" ∷ [])

  unfoldable pub set_fsck_bit : LocalCas → LocalCas
  unfolding fsck_path
  set_fsck_bit s = record s { files = (F.create_empty s.files (fsck_path s)).1 }

  unfoldable pub get_fsck_bit : LocalCas → Bool
  unfolding fsck_path
  get_fsck_bit s = elim (F.open_file s.files (fsck_path s)) [ ok f ↦ true | err e ↦ false ]

  unfoldable pub clear_fsck_bit : LocalCas → LocalCas
  unfolding fsck_path
  clear_fsck_bit s = record s { files = (F.remove s.files (fsck_path s)).1 }

  unfoldable pub open_item : LocalCas → Text → Result Reader
  open_item s hash =
      let path = file_path s.cas_dir hash in
      if path == [] then err invalid else F.open_file s.files path

  -- What AddEntry does with the error of OpenFile.
  open_error : Text → Error → Error
  open_error path exist = exist
  open_error path _ = failed "Failed to copy(dst) %s: %s" path

  -- The file that a failed copy has begun is left there.
  unfoldable pub add_entry : LocalCas → Reader → Text → Option Error × LocalCas
  unfolding open_error
  add_entry s source hash =
      let path = file_path s.cas_dir hash in
      let (e, d) = F.disk.create s.files path in
      elim e [
        | some why ↦ (some (open_error path why), record s { files = d })
        | none ↦ let (e', n, d') = F.disk.copy d path source in (e', record s { files = d' })
      ]

  unfoldable pub remove : LocalCas → Text → Option Error × LocalCas
  unfolding is_hash
  remove s hash =
      if is_hash hash
      then move s (join_all (take prefix_length hash ∷ drop prefix_length hash ∷ []))
      else (some (failed "Remove(%s) is invalid" hash), s)

  -- The files of one directory of Enumerate.
  unfoldable pub enumerate_prefix : Text → List Text → LocalCas → List Enumeration × LocalCas
  unfolding set_fsck_bit
  enumerate_prefix prefix [] s = ([], s)
  enumerate_prefix prefix (name ∷ names) s =
      let (sent, kept) = enumerate_prefix prefix names s in
      let moved = (move s (join_all (prefix ∷ name ∷ []))).1 in
      let skipped = enumerate_prefix prefix names (set_fsck_bit moved) in
      if is_hex_of 37 name then (item (prefix ++ name) ∷ sent, kept) else skipped

  enumerate_dir : Text → LocalCas → List Enumeration × LocalCas
  enumerate_dir prefix s =
      let path = join_all (s.cas_dir ∷ prefix ∷ []) in
      elim (F.read_dir_names s.files path) [
        | err e ↦ (broken (failed "Failed reading %s" path) ∷ [], set_fsck_bit s)
        | ok names ↦ enumerate_prefix prefix names s
      ]

  unfoldable pub enumerate_prefixes : List Text → LocalCas → List Enumeration × LocalCas
  unfolding enumerate_dir set_fsck_bit
  enumerate_prefixes [] s = ([], s)
  enumerate_prefixes (prefix ∷ prefixes) s =
      let trash = enumerate_prefixes prefixes s in
      let misplaced = enumerate_prefixes prefixes (set_fsck_bit (move s prefix).1) in
      let (here, s') = enumerate_dir prefix s in
      let (later, s'') = enumerate_prefixes prefixes s' in
      if prefix == text "trash"
      then trash
      else if is_hex_of prefix_length prefix
      then (here ++ later, s'')
      else misplaced

  unfoldable pub enumerate : LocalCas → List Enumeration × LocalCas
  enumerate s = elim (F.read_dir_names s.files s.cas_dir) [
    | err e ↦ (broken (failed "Failed reading %s" s.cas_dir) ∷ [], s)
    | ok prefixes ↦ enumerate_prefixes prefixes s
  ]

  -- The loop of MakeLocalCasTable, over so many numbers from `i`.
  unfoldable pub make_prefixes : ℕ → ℕ → Text → F.disk.State → Option Error × F.disk.State
  make_prefixes zero i cas_dir d = (none, d)
  make_prefixes (suc rest) i cas_dir d =
      let prefix = padded_hex prefix_length i [] in
      let (e, d') = F.mkdir d (join_all (cas_dir ∷ prefix ∷ [])) in
      let (e', d'') = make_prefixes rest (i + 1) cas_dir d' in
      if blocks e then (some (failed "Failed to create %s: %s\n" prefix), d') else (e', d'')

  table_of : Text → Option Error × F.disk.State → Result LocalCas × F.disk.State
  table_of cas_dir (some e, d) = (err e, d)
  table_of cas_dir (none, d) =
      (ok (record { cas_dir = cas_dir; trash_created = false; files = d }), d)

  -- MakeLocalCasTable. The directories of the prefixes are not made if MkdirAll says that it exists.
  unfoldable pub make_local_cas_table : Text → F.disk.State → Result LocalCas × F.disk.State
  unfolding table_of
  make_local_cas_table root d =
      let cas_dir = join_all (clean root ∷ text "cas" ∷ []) in
      let (e, d') = F.disk.mkdir_all d cas_dir in
      let made = table_of cas_dir (make_prefixes (prefix_space prefix_length) 0 cas_dir d') in
      if is_abs root
      then (elim e [
        | none ↦ made
        | some why ↦ elim why [
          | exist ↦ table_of cas_dir (none, d')
          | _ ↦ (err (failed "MakeCasTable(%s): failed to create the directory: %s" cas_dir), d')
        ]
      ])
      else (err (failed "MakeCasTable(%s) is not valid" root), d)

  abbrev pub local_cas : CasTable
  local_cas = record {
    State = LocalCas;
    enumerate = enumerate;
    open_item = open_item;
    remove = remove;
    add_entry = add_entry;
    set_fsck_bit = set_fsck_bit;
    get_fsck_bit = get_fsck_bit;
    clear_fsck_bit = clear_fsck_bit;
  }
