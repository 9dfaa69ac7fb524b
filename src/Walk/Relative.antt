-- ===== src/Walk/Relative.antt =====
-- The relative paths that enumerateInputs of archive.go gives to the files of a walk.
use dumbcas.Prelude.{
  ℕ, ◌+◌, Text, Bool, true, false, ◌&&◌, if◌then◌else◌, List, [], ◌∷◌, ◌++◌, map, ◌≡◌, ◌≢◌, refl,
  sym, ◌∙◌, ap,
}
use dumbcas.Prelude.{
  both, inl, inr, Bool-cases, arith, append_assoc, length, length-append, drop, suc, has_prefix,
}
use dumbcas.Prelude.FilePath.{join, slash, clean}
use dumbcas.Prelude.FilePath.Elements.{
  is_element, IsDirectory, root-join, IsDirectory-join, join-IsDirectory, clean-IsDirectory,
}
use dumbcas.Archive.{FileInfo, TreeItem, tree_error, tree_item, InputItem}
use dumbcas.Archive.Counters.{Stats, count_error, count_found}
use dumbcas.Walk.{Folder, unopened, opened, Batches, no_more, read_error, batch}
use dumbcas.Walk.{Members, no_member, file, folder, is_none, found_file, enumerate_tree}
use dumbcas.Walk.Order.{all_folder, all_batches, all_members, up_to_error, enumerate_tree_lem}

-- An item with a text before its path.
unfoldable pub onto : Text → TreeItem → TreeItem
onto q (tree_error e) = tree_error e
onto q (tree_item p i) = tree_item (q ++ p) i

-- What there is in a tree, by its path from the directory of the walk.
unfoldable mutual
  pub relative_folder : Folder → List TreeItem
  relative_folder (unopened e) = tree_error e ∷ []
  relative_folder (opened bs) = relative_batches bs

  pub relative_batches : Batches → List TreeItem
  relative_batches no_more = []
  relative_batches (read_error e) = tree_error e ∷ []
  relative_batches (batch ms bs) =
      let rest = relative_members ms ++ relative_batches bs in if is_none ms then [] else rest

  pub relative_members : Members → List TreeItem
  relative_members no_member = []
  relative_members (file name size time ms) = found_file name size time ∷ relative_members ms
  relative_members (folder name f ms) =
      map (onto (name ++ (slash ∷ []))) (relative_folder f) ++ relative_members ms

-- The names of a directory are not empty, hold no slash, and are not `.` or `..`.
unfoldable mutual
  pub is_named : Folder → Bool
  is_named (unopened e) = true
  is_named (opened bs) = batches_named bs

  pub batches_named : Batches → Bool
  batches_named no_more = true
  batches_named (read_error e) = true
  batches_named (batch ms bs) = members_named ms && batches_named bs

  pub members_named : Members → Bool
  members_named no_member = true
  members_named (file name size time ms) = is_element name && members_named ms
  members_named (folder name f ms) = is_element name && (is_named f && members_named ms)

-- filepath.Join puts the text before each name.
Begins : Text → Text → Type 0
Begins root q =
    (name : Text) → is_element name ≡ true → (join root name ≡ q ++ name) × IsDirectory (q ++ name)

IsDirectory-Begins : (a : Text) → IsDirectory a → Begins a (a ++ (slash ∷ []))
unfolding Begins
IsDirectory-Begins a h name i =
    rw (append_assoc a (slash ∷ []) name) (IsDirectory-join a name h i, join-IsDirectory a name h i)

map-onto :
    (q r : Text) (ts : List TreeItem) → map (onto q) (map (onto r) ts) ≡ map (onto (q ++ r)) ts
unfolding onto
map-onto q r [] = refl
map-onto q r (tree_error e ∷ ts) = ap (λ us. tree_error e ∷ us) (map-onto q r ts)
map-onto q r (tree_item p i ∷ ts) = rw (map-onto q r ts, append_assoc) refl

map-append :
    (q : Text) (ts us : List TreeItem)
    → map (onto q) (ts ++ us) ≡ map (onto q) ts ++ map (onto q) us
map-append q [] us = refl
map-append q (t ∷ ts) us = ap (λ vs. onto q t ∷ vs) (map-append q ts us)

mutual
  unfolding all_folder all_batches all_members relative_folder relative_batches relative_members
      is_named batches_named members_named onto Begins

  all_folder-onto :
      (root q : Text) (f : Folder)
      → Begins root q
      → is_named f ≡ true
      → all_folder root f ≡ map (onto q) (relative_folder f)
  all_folder-onto root q (unopened e) h v = refl
  all_folder-onto root q (opened bs) h v = all_batches-onto root q bs h v

  all_batches-onto :
      (root q : Text) (bs : Batches)
      → Begins root q
      → batches_named bs ≡ true
      → all_batches root bs ≡ map (onto q) (relative_batches bs)
  all_batches-onto root q no_more h v = refl
  all_batches-onto root q (read_error e) h v = refl
  all_batches-onto root q (batch ms bs) h v =
      let (v', w) = both v in
      elim (Bool-cases (is_none ms)) [
        | inl e ↦ rw e refl
        | inr e ↦ rw e (
            rw (all_members-onto root q ms h v', all_batches-onto root q bs h w)
              (sym (map-append q (relative_members ms) (relative_batches bs))))
      ]

  all_members-onto :
      (root q : Text) (ms : Members)
      → Begins root q
      → members_named ms ≡ true
      → all_members root ms ≡ map (onto q) (relative_members ms)
  all_members-onto root q no_member h v = refl
  all_members-onto root q (file name size time ms) h v =
      let (i, v') = both v in rw ((h name i).0, all_members-onto root q ms h v') refl
  all_members-onto root q (folder name f ms) h v =
      let (i, w) = both v in
      let (n, v') = both w in
      let sub = IsDirectory-Begins (q ++ name) (h name i).1 in
      rw
        (
          (h name i).0,
          all_members-onto root q ms h v',
          all_folder-onto (q ++ name) ((q ++ name) ++ (slash ∷ [])) f sub n,
        )
        (rw
          (
            map-append q (map (onto (name ++ (slash ∷ []))) (relative_folder f))
                (relative_members ms),
            map-onto q (name ++ (slash ∷ [])) (relative_folder f),
          )
          (rw (append_assoc q name (slash ∷ [])) refl))

up_to_error-map :
    (q : Text) (ts : List TreeItem) → up_to_error (map (onto q) ts) ≡ map (onto q) (up_to_error ts)
unfolding onto up_to_error
up_to_error-map q [] = refl
up_to_error-map q (tree_error e ∷ ts) = refl
up_to_error-map q (tree_item p i ∷ ts) = ap (λ us. tree_item (q ++ p) i ∷ us) (up_to_error-map q ts)

-- The files of a list, at a path that begins with `q`; of the path in `onto` the first `n` bytes are left
-- out of the relative path.
unfoldable pub items_of : Text → ℕ → List TreeItem → List InputItem
items_of q n [] = []
items_of q n (tree_error e ∷ ts) = items_of q n ts
items_of q n (tree_item p i ∷ ts) =
    let later = items_of q n ts in
    if i.is_directory
    then later
    else record { full_path = q ++ p; rel_path = drop n p; info = i } ∷ later

pub drop-append : (q p : Text) (n : ℕ) → drop (length q + n) (q ++ p) ≡ drop n p
drop-append [] p n = ap (λ k. drop k p) (omega arith)
drop-append (c ∷ q) p n =
    let same : suc (length q) + n ≡ suc (length q + n) = omega arith in
    ap (λ k. drop k (c ∷ (q ++ p))) same ∙ drop-append q p n

-- What enumerateInputs sends for a directory.
enumerated : Text → List TreeItem → Stats → List InputItem
enumerated root ts s = (dumbcas.Archive.enumerate_tree root ts s).0

enumerated-onto :
    (root q : Text) (n : ℕ) (ts : List TreeItem) (s : Stats)
    → length root + 1 ≡ length q + n
    → enumerated root (map (onto q) ts) s ≡ items_of q n ts
unfolding enumerated dumbcas.Archive.enumerate_tree onto items_of
enumerated-onto root q n [] s h = refl
enumerated-onto root q n (tree_error e ∷ ts) s h = enumerated-onto root q n ts (count_error s) h
enumerated-onto root q n (tree_item p i ∷ ts) s h = elim (Bool-cases i.is_directory) [
  | inl d ↦ rw d (enumerated-onto root q n ts s h)
  | inr d ↦
      let rest = enumerated-onto root q n ts (count_found i.file_size s) h in
      rw (d, h, rest) (rw (drop-append q p n) refl)
]

pub enumerate_tree-onto :
    (root : Text) (f : Folder)
    → IsDirectory root
    → is_named f ≡ true
    → enumerate_tree (λ n. false) root f
      ≡ map (onto (root ++ (slash ∷ []))) (up_to_error (relative_folder f))
enumerate_tree-onto root f h v =
    rw (enumerate_tree_lem root f, all_folder-onto root _ f (IsDirectory-Begins root h) v)
      (up_to_error-map (root ++ (slash ∷ [])) (relative_folder f))

-- A walk that is not interrupted, in a directory to which `q` leads.
walk-Begins :
    (root q : Text) (n : ℕ) (f : Folder) (s : Stats)
    → Begins root q
    → is_named f ≡ true
    → length root + 1 ≡ length q + n
    → enumerated root (enumerate_tree (λ n. false) root f) s
      ≡ items_of q n (up_to_error (relative_folder f))
walk-Begins root q n f s b v h =
    rw
      (
        enumerate_tree_lem root f,
        all_folder-onto root q f b v,
        up_to_error-map q (relative_folder f),
      )
      (enumerated-onto root q n (up_to_error (relative_folder f)) s h)

-- For a clean absolute directory other than the root, whose walk is not interrupted and whose names
-- have no slash and are not empty, a dot or two dots, enumerateInputs sends the files of the tree
-- up to the first error, each with its path relative to the directory.
pub enumerate_tree-enumerate_tree :
    (root : Text) (f : Folder) (s : Stats)
    → has_prefix root (slash ∷ []) ≡ true
    → clean root ≡ root
    → root ≢ slash ∷ []
    → is_named f ≡ true
    → (dumbcas.Archive.enumerate_tree root (enumerate_tree (λ n. false) root f) s).0
      ≡ items_of (root ++ (slash ∷ [])) 0 (up_to_error (relative_folder f))
unfolding enumerated
enumerate_tree-enumerate_tree root f s h c r v =
    walk-Begins root (root ++ (slash ∷ [])) 0 f s
      (IsDirectory-Begins root (clean-IsDirectory root h c r)) v
      (omega (arith, length-append root (slash ∷ [])))

root-Begins : Begins (slash ∷ []) (slash ∷ [])
unfolding Begins
root-Begins name i = root-join name i

-- For the root directory, whose walk is not interrupted and whose names have no slash and are not
-- empty, a dot or two dots, enumerateInputs leaves out the first byte of each relative path.
pub enumerate_tree-root :
    (f : Folder) (s : Stats)
    → is_named f ≡ true
    → (dumbcas.Archive.enumerate_tree (slash ∷ []) (enumerate_tree (λ n. false) (slash ∷ []) f) s).0
      ≡ items_of (slash ∷ []) 1 (up_to_error (relative_folder f))
unfolding enumerated
enumerate_tree-root f s v = walk-Begins (slash ∷ []) (slash ∷ []) 1 f s root-Begins v refl
