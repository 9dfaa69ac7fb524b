-- ===== src/LocalCas/Adding.antt =====
-- Adding to the table on disk: AddEntry and Open of cas_local.go.
use dumbcas.Files.{FileSystem, IsLawfulFiles, is_abs}
use dumbcas.Prelude.{
  Text, ◌==◌, eq_iff, eq_refl, eq→path, ap, ◌∙◌, ◌≡◌, refl, sym, true, false, inl, inr, Bool-cases,
  Option, none, some,
}
use dumbcas.Prelude.{arith, if◌then◌else◌, []}
use dumbcas.Prelude.Map.{is_some}
use dumbcas.Table.{exist, Reader, ok, content, found}
use dumbcas.Fsck.{is_hash}
use dumbcas.LocalCas.{LocalCas, local_cas, add_entry, open_item, file_path}
use dumbcas.LocalCas.Paths.{file_path-nil, file_path-injective, file_path_invalid}

some_of : (o : Option Text) → is_some o ≡ true → (bytes : Text) × (o ≡ some bytes)
some_of none h = cc
some_of (some bytes) h = (bytes, refl)

module _ (F : FileSystem) (laws : IsLawfulFiles F) where
  created : F.disk.State → Text → F.disk.State
  created d p = (F.disk.create d p).1

  written : F.disk.State → Text → Reader → F.disk.State
  written d p r = (F.disk.copy (created d p) p r).2

  file-created :
      (d : F.disk.State) (p : Text)
      → (F.disk.create d p).0 ≡ none
      → F.disk.file (created d p) p ≡ some []
  unfolding created
  file-created d p c = rw (laws.files.file-create d p p c, eq_refl p) refl

  open_file-written :
      (d : F.disk.State) (p : Text) (r : Reader)
      → (F.disk.create d p).0 ≡ none
      → (F.disk.copy (created d p) p r).0 ≡ none
      → F.open_file (written d p r) p ≡ ok r
  unfolding written
  open_file-written d p r c h =
      let (bytes, e, f, n) = laws.files.file-copy (created d p) p r (file-created d p c) h in
      laws.open_file-file (written d p r) p bytes f ∙ ap ok (sym e)

  open_file-written_other :
      (d : F.disk.State) (p q : Text) (r : Reader)
      → (p == q) ≡ false
      → F.open_file (written d p r) q ≡ F.open_file d q
  unfolding created written
  open_file-written_other d p q r n =
      laws.open_file-copy_other (created d p) p q r n ∙ laws.open_file-create_other d p q n

  -- The table after an addition that opened its file.
  add_entry-opened :
      (s : LocalCas F) (r : Reader) (k : Text)
      → (F.disk.create s.files (file_path s.cas_dir k)).0 ≡ none
      → ((add_entry F s r k).0
          ≡ (F.disk.copy (created s.files (file_path s.cas_dir k)) (file_path s.cas_dir k) r).0)
        × ((add_entry F s r k).1 ≡ record s { files = written s.files (file_path s.cas_dir k) r })
  unfolding add_entry created written
  add_entry-opened s r k c = (rw (c, add_entry) refl, rw (c, add_entry) refl)

  add_entry-opens :
      (s : LocalCas F) (r : Reader) (k : Text)
      → (add_entry F s r k).0 ≡ none
      → (F.disk.create s.files (file_path s.cas_dir k)).0 ≡ none
  unfolding add_entry
  add_entry-opens s r k e = ground arith

  add_entry-IsHash :
      (s : LocalCas F) (r : Reader) (k : Text)
      → is_abs s.cas_dir ≡ true
      → (add_entry F s r k).0 ≡ none
      → is_hash k ≡ true
  unfolding add_entry
  add_entry-IsHash s r k h e = elim (Bool-cases (is_hash k)) [
    | inl v ↦ v
    | inr v ↦ ground (
      arith,
      laws.create-empty_name s.files,
      file_path_invalid s.cas_dir k v,
      add_entry-opens s r k e,
    )
  ]

  file_path-differs :
      (d j k : Text)
      → is_abs d ≡ true
      → is_hash k ≡ true
      → (k == j) ≡ false
      → (file_path d k == file_path d j) ≡ false
  file_path-differs d j k h v n = elim (Bool-cases (file_path d k == file_path d j)) [
    | inr m ↦ m
    | inl m ↦
        let same = file_path-injective d j k h v (sym (eq→path _ _ m)) in ground (arith, eq_iff k j)
  ]

  -- What a name opens to after an addition that opened its file.
  content-opened :
      (s : LocalCas F) (r : Reader) (k j : Text)
      → is_abs s.cas_dir ≡ true
      → (F.disk.create s.files (file_path s.cas_dir k)).0 ≡ none
      → is_hash j ≡ true
      → content (local_cas F) (add_entry F s r k).1 j
        ≡ found (F.open_file (written s.files (file_path s.cas_dir k) r) (file_path s.cas_dir j))
  unfolding open_item
  content-opened s r k j h c v =
      rw (add_entry-opened s r k c).1 (rw (file_path-nil s.cas_dir j h, v) refl)

  content-invalid :
      (s : LocalCas F) (j : Text) → is_hash j ≡ false → content (local_cas F) s j ≡ none
  unfolding open_item ◌==◌
  content-invalid s j v = rw (file_path_invalid s.cas_dir j v) refl

  content-hash :
      (s : LocalCas F) (j : Text)
      → is_abs s.cas_dir ≡ true
      → is_hash j ≡ true
      → content (local_cas F) s j ≡ found (F.open_file s.files (file_path s.cas_dir j))
  unfolding open_item
  content-hash s j h v = rw (file_path-nil s.cas_dir j h, v) refl

  content-add_entry_same :
      (s : LocalCas F) (r : Reader) (k : Text)
      → is_abs s.cas_dir ≡ true
      → (add_entry F s r k).0 ≡ none
      → content (local_cas F) (add_entry F s r k).1 k ≡ some r
  content-add_entry_same s r k h e =
      let c = add_entry-opens s r k e in
      content-opened s r k k h c (add_entry-IsHash s r k h e)
      ∙ ap found (
          open_file-written s.files (file_path s.cas_dir k) r c
            (sym (add_entry-opened s r k c).0 ∙ e))

  content-add_entry_other :
      (s : LocalCas F) (r : Reader) (k j : Text)
      → is_abs s.cas_dir ≡ true
      → (add_entry F s r k).0 ≡ none
      → (k == j) ≡ false
      → content (local_cas F) (add_entry F s r k).1 j ≡ content (local_cas F) s j
  content-add_entry_other s r k j h e n = elim (Bool-cases (is_hash j)) [
    | inr v ↦ content-invalid (add_entry F s r k).1 j v ∙ sym (content-invalid s j v)
    | inl v ↦
        content-opened s r k j h (add_entry-opens s r k e) v
        ∙ ap found (
            open_file-written_other s.files _ _ r
              (file_path-differs s.cas_dir j k h (add_entry-IsHash s r k h e) n))
        ∙ sym (content-hash s j h v)
  ]

  -- After an object was added to the table on disk, in an absolute directory and over lawful files,
  -- its name has its content, and every other name has what it had.
  pub content-add_entry :
      (s : LocalCas F) (r : Reader) (k j : Text)
      → is_abs s.cas_dir ≡ true
      → (add_entry F s r k).0 ≡ none
      → content (local_cas F) (add_entry F s r k).1 j
        ≡ (if k == j then some r else content (local_cas F) s j)
  content-add_entry s r k j h e = elim (Bool-cases (k == j)) [
    | inr n ↦ rw n (content-add_entry_other s r k j h e n)
    | inl m ↦ rw m (rw (sym (eq→path k j m)) (content-add_entry_same s r k h e))
  ]

  open_file-some :
      (d : F.disk.State) (p : Text)
      → is_some (F.disk.file d p) ≡ true
      → is_some (found (F.open_file d p)) ≡ true
  open_file-some d p h =
      let (bytes, e) = some_of (F.disk.file d p) h in rw (laws.open_file-file d p bytes e) refl

  is_some-written :
      (d : F.disk.State) (p : Text) (r : Reader)
      → (F.disk.create d p).0 ≡ none
      → is_some (F.disk.file (written d p r) p) ≡ true
  unfolding written
  is_some-written d p r c = laws.is_some-copy (created d p) p r (rw (file-created d p c) refl)

  add_entry-refused :
      (s : LocalCas F) (r : Reader) (k : Text)
      → is_some (F.disk.file s.files (file_path s.cas_dir k)) ≡ true
      → (add_entry F s r k).0 ≡ some exist
  unfolding add_entry
  add_entry-refused s r k h =
      rw (laws.create-exist s.files (file_path s.cas_dir k) h, add_entry) refl

  -- Once the file of a new object was opened in an absolute directory and over lawful files, the
  -- name of the object can be opened and adding it again is refused because it exists, also if the
  -- copy failed.
  pub add_entry-leaves_file :
      (s : LocalCas F) (r again : Reader) (k : Text)
      → is_abs s.cas_dir ≡ true
      → is_hash k ≡ true
      → (F.disk.create s.files (file_path s.cas_dir k)).0 ≡ none
      → (is_some (content (local_cas F) (add_entry F s r k).1 k) ≡ true)
        × ((add_entry F (add_entry F s r k).1 again k).0 ≡ some exist)
  add_entry-leaves_file s r again k h v c =
      let path = file_path s.cas_dir k in
      let there = is_some-written s.files path r c in
      (
        rw (content-opened s r k k h c v) (open_file-some (written s.files path r) path there),
        rw (add_entry-opened s r k c).1
            (add_entry-refused (record s { files = written s.files path r }) again k there),
      )
