-- ===== src/LocalNodes/Tags.antt =====
-- What the calls of the nodes table on disk are relied on for, and what AddEntry leaves after the file of
-- the node was made.
use dumbcas.Prelude.{Text, text, ◌==◌, Bool, true, false, if◌then◌else◌, [], ◌∷◌, ◌≡◌}
use dumbcas.Prelude.{inl, inr, Bool-cases, Option-cases, eq→path, arith, Option, none, some}
use dumbcas.Table.{Error, not_exist, ok, Result-cases}
use dumbcas.Restore.{IsLawfulDisk}
use dumbcas.Files.{join_all}
use dumbcas.LocalNodes.{NodeFiles, write_tag, link_tag, update_tag, write_node}

-- The error of a removal after which there is nothing at the path.
abbrev pub is_gone : Option Error → Bool
is_gone none = true
is_gone (some not_exist) = true
is_gone (some e) = false

-- What AddEntry relies on.
pub record IsLawfulNodeFiles (F : NodeFiles) : Type 0 where
  pub disk : IsLawfulDisk F.system.disk
  -- A file that cannot be made changes nothing.
  pub create_failed :
      (d : F.system.disk.State) (p : Text) (e : Error)
      → (F.system.disk.create d p).0 ≡ some e
      → (F.system.disk.create d p).1 ≡ d
  pub file-remove_other :
      (d : F.system.disk.State) (p q : Text)
      → (p == q) ≡ false
      → F.system.disk.file (F.system.remove d p).1 q ≡ F.system.disk.file d q
  pub file-symlink_other :
      (d : F.system.disk.State) (r p q : Text)
      → (p == q) ≡ false
      → F.system.disk.file (F.symlink d r p).1 q ≡ F.system.disk.file d q
  -- Where an old file or link was removed, a new file is no other one.
  pub file-truncate_other :
      (d : F.system.disk.State) (r p q : Text)
      → is_gone (F.system.remove d p).0 ≡ true
      → (p == q) ≡ false
      → let d' = (F.symlink (F.system.remove d p).1 r p).1 in
        F.system.disk.file (F.truncate d' p).1 q ≡ F.system.disk.file d' q

module _ (F : NodeFiles) (L : IsLawfulNodeFiles F) where
  abbrev State : Type 0
  State = F.system.disk.State

  -- What comes after the file of the node changes no file but the tag.
  write_tag_other :
      (d : State) (r p q bytes : Text)
      → is_gone (F.system.remove d p).0 ≡ true
      → (p == q) ≡ false
      → let d' = (F.symlink (F.system.remove d p).1 r p).1 in
        F.system.disk.file (write_tag F p bytes d').1 q ≡ F.system.disk.file d' q
  unfolding write_tag
  write_tag_other d r p q bytes g e =
      let d' = (F.symlink (F.system.remove d p).1 r p).1 in
      let t = L.file-truncate_other d r p q g e in
      let c = L.disk.file-copy_other (F.truncate d' p).1 p q (ok bytes) e in ground arith

  link_tag_other :
      (d : State) (r p q bytes : Text)
      → is_gone (F.system.remove d p).0 ≡ true
      → (p == q) ≡ false
      → F.system.disk.file (link_tag F r p bytes d).1 q ≡ F.system.disk.file d q
  unfolding link_tag
  link_tag_other d r p q bytes g e =
      let t = write_tag_other d r p q bytes g e in
      let a = L.file-remove_other d p q e in
      let b = L.file-symlink_other (F.system.remove d p).1 r p q e in ground arith

  abbrev pub tag_path : Text → Text → Text
  tag_path nodes_dir name = join_all (join_all (nodes_dir ∷ text "tags" ∷ []) ∷ name ∷ [])

  -- What is at a path can be removed, or is not there.
  abbrev pub IsRemovable : Text → Type 0
  IsRemovable p = (d : State) → is_gone (F.system.remove d p).0 ≡ true

  update_tag_other :
      (nodes_dir name path bytes q : Text) (d : State)
      → IsRemovable (tag_path nodes_dir name)
      → (tag_path nodes_dir name == q) ≡ false
      → F.system.disk.file (update_tag F nodes_dir name path bytes d).1 q ≡ F.system.disk.file d q
  unfolding update_tag
  update_tag_other nodes_dir name path bytes q d g e =
      let tags_dir = join_all (nodes_dir ∷ text "tags" ∷ []) in
      let d1 = (F.system.disk.mkdir_all d tags_dir).1 in
      let m = L.disk.file-mkdir_all d tags_dir q in
      elim (Result-cases (F.rel tags_dir path)) [
        | inr (why, r) ↦ ground arith
        | inl (rel_path, r) ↦
            let t = link_tag_other d1 rel_path (tag_path nodes_dir name) q bytes (g d1) e in
            ground arith
      ]

  pub write_node-ok :
      (nodes_dir name path answer bytes q r : Text) (d : State)
      → F.system.disk.file d path ≡ some []
      → IsRemovable (tag_path nodes_dir name)
      → (tag_path nodes_dir name == q) ≡ false
      → (write_node F nodes_dir name path answer bytes d).0 ≡ ok r
      → (answer ≡ r)
        × (F.system.disk.file (write_node F nodes_dir name path answer bytes d).1 q
            ≡ (if path == q then some bytes else F.system.disk.file d q))
  unfolding write_node
  write_node-ok nodes_dir name path answer bytes q r d fresh g e h =
      let d1 = (F.system.disk.copy d path (ok bytes)).2 in
      let t = update_tag_other nodes_dir name path bytes q d1 g e in
      elim (Option-cases (F.system.disk.copy d path (ok bytes)).0) [
        | inr (why, c) ↦ ground arith
        | inl c ↦
            let (bytes', same, f, n) = L.disk.file-copy d path (ok bytes) fresh c in
            elim (Bool-cases (path == q)) [
              | inl here ↦ let at = eq→path path q here in ground arith
              | inr there ↦ let o = L.disk.file-copy_other d path q (ok bytes) there in ground arith
            ]
      ]
