-- ===== src/LocalNodes/Adding.antt =====
-- When AddEntry of the nodes table on disk ends, and what it leaves.
use dumbcas.Prelude.{
  ℕ, zero, suc, ◌+◌, ◌<◌, Text, ◌==◌, false, if◌then◌else◌, [], ◌∷◌, ◌≡◌, refl, sym, ◌∙◌, ap,
}
use native.Mathlib.Nat.{zero-add}
use dumbcas.Prelude.{inl, inr, Bool-cases, Option-cases, eq_refl, arith, none, some}
use dumbcas.Table.{Error, Result, ok, Codec, Node}
use dumbcas.Restore.{blocks}
use dumbcas.Nodes.{Stamp}
use dumbcas.Files.{join_all}
use dumbcas.LocalNodes.{
  NodeFiles, LocalNodes, new_file, write_node, add_made, path_of, answer_of, add_entry,
}
use dumbcas.LocalNodes.Tags.{IsLawfulNodeFiles, tag_path, IsRemovable, write_node-ok}

module _ (F : NodeFiles) (L : IsLawfulNodeFiles F) where
  abbrev State : Type 0
  State = F.system.disk.State

  abbrev Fails : State → Text → Type 0
  Fails d p = (e : Error) × ((F.system.disk.create d p).0 ≡ some e)

  new_file-none :
      (fuel : ℕ) (path : ℕ → Text) (suffix : ℕ) (d : State)
      → ((n : ℕ) → Fails d (path n))
      → new_file F fuel path suffix d ≡ none
  unfolding new_file
  new_file-none zero path suffix d h = refl
  new_file-none (suc fuel) path suffix d h =
      let (e, f) = h suffix in
      let rest = new_file-none fuel path (suffix + 1) d h in
      rw (f, new_file)
        (ap (new_file F fuel path (suffix + 1)) (L.create_failed d (path suffix) e f) ∙ rest)

  -- The file is a new one.
  new_file-some :
      (j fuel : ℕ) (path : ℕ → Text) (suffix : ℕ) (d : State)
      → j < fuel
      → (F.system.disk.create d (path (suffix + j))).0 ≡ none
      → (n : ℕ) × (new_file F fuel path suffix d ≡ some (n, (F.system.disk.create d (path n)).1))
        × ((F.system.disk.create d (path n)).0 ≡ none)
  unfolding new_file
  new_file-some j zero path suffix d few h = absurd (omega arith)
  new_file-some zero (suc fuel) path suffix d few h =
      let here : suffix + 0 ≡ suffix = omega arith in
      let h' = ap (λ n. (F.system.disk.create d (path n)).0) (sym here) ∙ h in
      (suffix, rw (h', new_file) refl, h')
  new_file-some (suc j) (suc fuel) path suffix d few h =
      elim (Option-cases (F.system.disk.create d (path suffix)).0) [
        | inl e ↦ (suffix, rw (e, new_file) refl, e)
        | inr (why, e) ↦
            let same : suffix + suc j ≡ suffix + 1 + j = omega arith in
            let h' = ap (λ n. (F.system.disk.create d (path n)).0) (sym same) ∙ h in
            let (n, r, c) = new_file-some j fuel path (suffix + 1) d (omega arith) h' in
            (
              n,
              rw (e, new_file)
                  (ap (new_file F fuel path (suffix + 1)) (L.create_failed d (path suffix) why e)
                    ∙ r),
              c,
            )
      ]

  new_file-made :
      (fuel : ℕ) (path : ℕ → Text) (suffix n : ℕ) (d d' : State)
      → new_file F fuel path suffix d ≡ some (n, d')
      → ((F.system.disk.create d (path n)).0 ≡ none) × (d' ≡ (F.system.disk.create d (path n)).1)
  unfolding new_file
  new_file-made zero path suffix n d d' h = cc
  new_file-made (suc fuel) path suffix n d d' h =
      elim (Option-cases (F.system.disk.create d (path suffix)).0) [
        | inl e ↦
            let r : new_file F (suc fuel) path suffix d
                ≡ some (suffix, (F.system.disk.create d (path suffix)).1) =
              rw (e, new_file) refl in
            (cc, cc)
        | inr (why, e) ↦
            let r : new_file F (suc fuel) path suffix d ≡ new_file F fuel path (suffix + 1) d =
              rw (e, new_file)
                (ap (new_file F fuel path (suffix + 1)) (L.create_failed d (path suffix) why e)) in
            new_file-made fuel path (suffix + 1) n d d' (sym r ∙ h)
      ]

  module _ (codec : Codec) (now : Stamp) (s : LocalNodes F) (node : Node) (name bytes : Text) where
    abbrev pub month_dir : Text
    month_dir = join_all (s.nodes_dir ∷ now.month ∷ [])

    abbrev pub with_month : State
    with_month = (F.system.disk.mkdir_all s.files month_dir).1

    abbrev pub IsReady : Type 0
    IsReady =
        (codec.encode_node node ≡ some bytes)
        × (blocks (F.system.disk.mkdir_all s.files month_dir).0 ≡ false)

    add_entry-ready :
        (fuel : ℕ)
        → IsReady
        → add_entry F fuel codec now s node name
          ≡ add_made F s now name bytes (new_file F fuel (path_of F s now name) 0 with_month)
    unfolding add_entry
    add_entry-ready fuel (e, b) = rw (e, add_entry) (rw b refl)

    -- When the node can be encoded, the directory of the month is there and the file of some suffix
    -- can be made, AddEntry of the nodes table on disk returns after at most as many tries, over
    -- lawful files.
    pub add_entry-total :
        (k fuel : ℕ)
        → IsReady
        → (F.system.disk.create with_month (path_of F s now name k)).0 ≡ none
        → k < fuel
        → (r : Result Text × LocalNodes F) × (add_entry F fuel codec now s node name ≡ some r)
    unfolding add_made
    add_entry-total k fuel ready c few =
        let path = path_of F s now name in
        let c' = ap (λ j. (F.system.disk.create with_month (path j)).0) (zero-add k) ∙ c in
        let (n, f, h) = new_file-some k fuel path 0 with_month few c' in
        let made = ap (add_made F s now name bytes) f in (_, add_entry-ready fuel ready ∙ made)

    -- When the node can be encoded and the directory of the month is there, but no file can be made
    -- in it, the loop of AddEntry of the nodes table on disk uses up any fuel, over lawful files.
    pub add_entry-endless :
        (fuel : ℕ)
        → IsReady
        → ((n : ℕ) → Fails with_month (path_of F s now name n))
        → add_entry F fuel codec now s node name ≡ none
    unfolding add_made
    add_entry-endless fuel ready h =
        add_entry-ready fuel ready
        ∙ ap (add_made F s now name bytes)
            (new_file-none fuel (path_of F s now name) 0 with_month h)

    made-ok :
        (n : ℕ) (answer q : Text) (d : State) (s' : LocalNodes F)
        → F.system.disk.file d (path_of F s now name n) ≡ some []
        → IsRemovable F L (tag_path F L s.nodes_dir name)
        → (tag_path F L s.nodes_dir name == q) ≡ false
        → add_made F s now name bytes (some (n, d)) ≡ some (ok answer, s')
        → (answer_of F s now name n ≡ answer)
          × (F.system.disk.file s'.files q
              ≡ (if path_of F s now name n == q then some bytes else F.system.disk.file d q))
    unfolding add_made
    made-ok n answer q d s' fresh g t h =
        let path = path_of F s now name n in
        let w = write_node F s.nodes_dir name path (answer_of F s now name n) bytes d in
        let r : w.0 ≡ ok answer = cc in
        let same : record s { files = w.1 } ≡ s' = cc in
        let (a, f) =
          write_node-ok F L s.nodes_dir name path (answer_of F s now name n) bytes q answer d fresh
            g t r in
        (a, ap (λ (u : LocalNodes F). F.system.disk.file u.files q) (sym same) ∙ f)

    absent :
        (n : ℕ)
        → (F.system.disk.create with_month (path_of F s now name n)).0 ≡ none
        → F.system.disk.file s.files (path_of F s now name n) ≡ none
    absent n c =
        let path = path_of F s now name n in
        sym (L.disk.file-mkdir_all s.files month_dir path) ∙ L.disk.create_new with_month path c

    fresh :
        (n : ℕ) (d : State)
        → (F.system.disk.create with_month (path_of F s now name n)).0 ≡ none
        → d ≡ (F.system.disk.create with_month (path_of F s now name n)).1
        → F.system.disk.file d (path_of F s now name n) ≡ some []
    fresh n d c same =
        let path = path_of F s now name n in
        ap (λ d. F.system.disk.file d path) same
        ∙ L.disk.file-create with_month path path c
        ∙ rw (eq_refl path) refl

    -- When AddEntry of the nodes table on disk returns a path, over lawful files and where the old
    -- tag can be removed or is not there, the path is the one of a suffix whose file was not there,
    -- that file holds the encoded node, and every other file but the tag has what it had.
    pub file-add_entry :
        (fuel : ℕ) (answer q : Text) (s' : LocalNodes F)
        → IsReady
        → IsRemovable F L (tag_path F L s.nodes_dir name)
        → (tag_path F L s.nodes_dir name == q) ≡ false
        → add_entry F fuel codec now s node name ≡ some (ok answer, s')
        → (n : ℕ) × (answer_of F s now name n ≡ answer)
          × (F.system.disk.file s.files (path_of F s now name n) ≡ none)
          × (F.system.disk.file s'.files q
              ≡ (if path_of F s now name n == q then some bytes else F.system.disk.file s.files q))
    unfolding add_made
    file-add_entry fuel answer q s' ready g t h =
        let path = path_of F s now name in
        let h' = sym (add_entry-ready fuel ready) ∙ h in
        elim (Option-cases (new_file F fuel path 0 with_month)) [
          | inl e ↦ let no = sym (ap (add_made F s now name bytes) e) ∙ h' in cc
          | inr (made, e) ↦
              let (c, same) = new_file-made fuel path 0 made.0 with_month made.1 e in
              let (a, f) =
                made-ok made.0 answer q made.1 s' (fresh made.0 made.1 c same) g t
                  (sym (ap (add_made F s now name bytes) e) ∙ h') in
              (
                made.0,
                a,
                absent made.0 c,
                f ∙ elim (Bool-cases (path made.0 == q)) [
                  | inl here ↦ rw here refl
                  | inr there ↦ rw there (
                      ap (λ d. F.system.disk.file d q) same
                      ∙ L.disk.file-create with_month (path made.0) q c
                      ∙ rw there (L.disk.file-mkdir_all s.files month_dir q))
                ],
              )
        ]
