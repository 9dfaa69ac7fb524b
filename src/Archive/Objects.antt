-- ===== src/Archive/Objects.antt =====
-- What the pipeline of archive.go leaves in the table.
use dumbcas.Prelude.{ℕ, ◌≤◌, Text, eq_refl, eq_iff, List}
use dumbcas.Prelude.{[], ◌∷◌, Option, none, some, ◌≡◌, ◌≢◌, refl, sym, ap, ◌∙◌, ◌⊎◌, arith, All}
use dumbcas.Prelude.{inl, inr, Option-cases}
use dumbcas.Entry.{Entry}
use dumbcas.Entry.Paths.{ItemToArchive, make_entry}
use dumbcas.Table.{Error, exist, Result, ok, err, Reader, Codec, CasTable, Result-cases, IsLawful}
use dumbcas.Table.{content}
use dumbcas.Archive.Counters.{Stats}
use dumbcas.Archive.{archive_item, archive_items, count_added}

count_added-cases :
    (size : ℕ) (e : Option Error) (s : Stats)
    → (count_added size e s).errors ≡ s.errors
    → (e ≡ none) ⊎ (e ≡ some exist)
unfolding count_added
count_added-cases size none s h = inl refl
count_added-cases size (some exist) s h = inr refl
count_added-cases size (some _) s h = absurd (omega arith)

-- Opening a source does not give a reader that fails by ErrExist.
abbrev pub IsPlain : (Text → Result Reader) → Type 0
IsPlain opened = (p : Text) → opened p ≢ ok (err exist)

module _ (C : CasTable) (L : IsLawful C) (opened : Text → Result Reader) where
  pub archive_item_keeps :
      (item : ItemToArchive) (c : C.State) (s : Stats) (k : Text) (old : Reader)
      → content C c k ≡ some old
      → content C (archive_item C opened item c s).0 k ≡ some old
  unfolding archive_item
  archive_item_keeps item c s k old h = elim (Result-cases (opened item.full_path)) [
    | inl (f, e) ↦ rw (e, archive_item) (L.add_entry-keeps c f item.sha1 k old h)
    | inr (why, e) ↦ rw (e, archive_item) h
  ]

  -- Archiving in a lawful table never changes an object that is there.
  pub archive_items_keeps :
      (items : List ItemToArchive) (root : Entry) (c : C.State) (s : Stats) (k : Text)
      (old : Reader)
      → content C c k ≡ some old
      → content C (archive_items C opened items root c s).1 k ≡ some old
  unfolding archive_items
  archive_items_keeps [] root c s k old h = h
  archive_items_keeps (item ∷ items) root c s k old h =
      let (c', s') = archive_item C opened item c s in
      archive_items_keeps items (make_entry root item) c' s' k old
        (archive_item_keeps item c s k old h)

  archive_item-errors :
      (item : ItemToArchive) (c : C.State) (s : Stats)
      → s.errors ≤ (archive_item C opened item c s).1.errors
  unfolding archive_item count_added
  archive_item-errors item c s = ground arith

  archive_items-errors :
      (items : List ItemToArchive) (root : Entry) (c : C.State) (s : Stats)
      → s.errors ≤ (archive_items C opened items root c s).2.errors
  unfolding archive_items archive_item count_added
  archive_items-errors [] root c s = omega arith
  archive_items-errors (item ∷ items) root c s =
      let (c', s') = archive_item C opened item c s in
      ground (arith, archive_items-errors items (make_entry root item) c' s')

  -- An item that was archived without an error has an object under its hash.
  archive_item-present :
      IsPlain opened
      → (item : ItemToArchive) (c : C.State) (s : Stats)
      → (archive_item C opened item c s).1.errors ≡ s.errors
      → (r : Reader) × (content C (archive_item C opened item c s).0 item.sha1 ≡ some r)
  unfolding archive_item
  archive_item-present plain item c s h = elim (Result-cases (opened item.full_path)) [
    | inr (why, o) ↦ absurd (omega (arith, rw (o, archive_item) at h))
    | inl (f, o) ↦
        elim (count_added-cases item.size (C.add_entry c f item.sha1).0 s
          (rw (o, archive_item) at h)) [
            | inl added ↦ (
              f,
              rw (o, archive_item)
                  (ground
                    (arith, L.content-add_entry c f item.sha1 item.sha1 added, eq_refl item.sha1)),
            )
            | inr there ↦ elim (Option-cases (content C c item.sha1)) [
              | inl absent ↦ absurd (
                  ground (
                    arith,
                    L.add_entry-exist c f item.sha1 there (λ e. plain item.full_path (o ∙ ap ok e)),
                  ))
              | inr (r, present) ↦
                  (r, rw (o, archive_item) (L.add_entry-keeps c f item.sha1 item.sha1 r present))
            ]
          ]
  ]

  -- When archiving has counted no error, every item has an object under its hash, in a lawful table
  -- and with sources whose reading does not fail by ErrExist.
  pub archive_items-present :
      IsPlain opened
      → (items : List ItemToArchive) (root : Entry) (c : C.State) (s : Stats)
      → (archive_items C opened items root c s).2.errors ≡ s.errors
      → All
          (λ item.
            (r : Reader) × (content C (archive_items C opened items root c s).1 item.sha1 ≡ some r))
          items
  unfolding archive_items
  archive_items-present plain [] root c s h = tt
  archive_items-present plain (item ∷ items) root c s h =
      let (c', s') = archive_item C opened item c s in
      let later = archive_items-errors items (make_entry root item) c' s' in
      let now = archive_item-errors item c s in
      let same : s'.errors ≡ s.errors = omega (arith, later, now, h) in
      let (r, stored) = archive_item-present plain item c s same in
      (
        (r, archive_items_keeps items (make_entry root item) c' s' item.sha1 r stored),
        archive_items-present plain items (make_entry root item) c' s' (omega (arith, h, same)),
      )

-- An entry is added whole, or not at all.
abbrev pub IsAtomic : CasTable → Type 0
IsAtomic C =
    (s : C.State) (r : Reader) (k j : Text) (e : Error)
    → (C.add_entry s r k).0 ≡ some e
    → content C (C.add_entry s r k).1 j ≡ content C s j

-- Every object is stored under the sha-1 of its content.
abbrev pub IsAddressed : (C : CasTable) → Codec → C.State → Type 0
IsAddressed C codec s = (k bytes : Text) → content C s k ≡ some (ok bytes) → codec.sha1 bytes ≡ k

-- The files have, when they are archived, the content that was hashed.
abbrev pub IsUnchanged : Codec → (Text → Result Reader) → ItemToArchive → Type 0
IsUnchanged codec opened item =
    (bytes : Text) → opened item.full_path ≡ ok (ok bytes) → codec.sha1 bytes ≡ item.sha1

module _ (C : CasTable) (L : IsLawful C) (atomic : IsAtomic C) (codec : Codec)
    (opened : Text → Result Reader) where
  archive_item-IsAddressed :
      (item : ItemToArchive) (c : C.State) (s : Stats)
      → IsUnchanged codec opened item
      → IsAddressed C codec c
      → IsAddressed C codec (archive_item C opened item c s).0
  unfolding archive_item
  archive_item-IsAddressed item c s same h k bytes stored =
      elim (Result-cases (opened item.full_path)) [
        | inr (why, o) ↦ h k bytes (rw (o, archive_item) at stored)
        | inl (f, o) ↦ elim (Option-cases (C.add_entry c f item.sha1).0) [
          | inl added ↦ ground (
            arith,
            rw (o, archive_item) at stored,
            L.content-add_entry c f item.sha1 k added,
            eq_iff item.sha1 k,
            same bytes,
            h k bytes,
          )
          | inr (why, e) ↦
              h k bytes (sym (atomic c f item.sha1 k why e) ∙ (rw (o, archive_item) at stored))
        ]
      ]

  -- Archiving files that did not change since they were hashed keeps every object stored under the
  -- sha-1 of its content, in a lawful table that adds an object whole or not at all.
  pub archive_items-IsAddressed :
      (items : List ItemToArchive) (root : Entry) (c : C.State) (s : Stats)
      → All (IsUnchanged codec opened) items
      → IsAddressed C codec c
      → IsAddressed C codec (archive_items C opened items root c s).1
  unfolding archive_items
  archive_items-IsAddressed [] root c s same h = h
  archive_items-IsAddressed (item ∷ items) root c s same h =
      let (c', s') = archive_item C opened item c s in
      archive_items-IsAddressed items (make_entry root item) c' s' same.1
        (archive_item-IsAddressed item c s same.0 h)
