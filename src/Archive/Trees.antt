-- ===== src/Archive/Trees.antt =====
-- The tree that archiveInputs of archive.go makes.
use dumbcas.Prelude.{Text, false, List, [], ◌∷◌, ◌++◌, some, ◌≡◌, refl}
use dumbcas.Prelude.{All, ◌∙◌}
use dumbcas.Prelude.FilePath.{split}
use dumbcas.Entry.{Entry, entry, Files}
use dumbcas.Entry.Paths.{ItemToArchive, make_entry, walk, files_at, is_prefix, walk-make_parts}
use dumbcas.Entry.Paths.{walk-make_parts_other}
use dumbcas.Table.{Result, Reader, CasTable}
use dumbcas.Archive.Counters.{Stats}
use dumbcas.Archive.{archive_item, archive_items}

-- Placing the item leaves alone what the path leads to.
abbrev pub Spares : List Text → ItemToArchive → Type 0
Spares ps item = is_prefix ps (split item.rel_path) ≡ false

module _ (C : CasTable) (opened : Text → Result Reader) where
  walk-archive_items_other :
      (items : List ItemToArchive) (root : Entry) (c : C.State) (s : Stats) (ps : List Text)
      → All (Spares ps) items
      → walk ps (archive_items C opened items root c s).0 ≡ walk ps root
  unfolding archive_items
  walk-archive_items_other [] root c s ps h = refl
  walk-archive_items_other (item ∷ items) root c s ps h =
      let (c', s') = archive_item C opened item c s in
      walk-archive_items_other items (make_entry root item) c' s' ps h.1
      ∙ unfold make_entry in
        walk-make_parts_other ps (split item.rel_path) item.sha1 item.size root h.0

  -- In the tree that archiveInputs makes, the path of an item leads to its hash and its size, if no
  -- later item lies at that path or below it.
  pub walk-archive_items :
      (before after : List ItemToArchive) (item : ItemToArchive) (root : Entry) (c : C.State)
      (s : Stats)
      → All (Spares (split item.rel_path)) after
      → (fs : Files) × (walk
            (split item.rel_path)
            (archive_items C opened (before ++ item ∷ after) root c s).0
          ≡ some (entry item.sha1 item.size fs))
  unfolding archive_items
  walk-archive_items [] after item root c s h =
      let (c', s') = archive_item C opened item c s in
      (
        files_at (walk (split item.rel_path) root),
        walk-archive_items_other after (make_entry root item) c' s' (split item.rel_path) h
            ∙ unfold make_entry in walk-make_parts (split item.rel_path) item.sha1 item.size root,
      )
  walk-archive_items (x ∷ before) after item root c s h =
      let (c', s') = archive_item C opened x c s in
      walk-archive_items before after item (make_entry root x) c' s' h
