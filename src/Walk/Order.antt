-- ===== src/Walk/Order.antt =====
-- A walk that is not interrupted sends the files of a tree in its order, up to the first error.
use dumbcas.Prelude.{
  ℕ, ◌+◌, Text, Bool, true, false, ◌&&◌, if◌then◌else◌, List, [], ◌∷◌, ◌++◌, ◌≡◌, refl, ap,
}
use dumbcas.Prelude.{inl, inr, Bool-cases}
use dumbcas.Prelude.FilePath.{join}
use dumbcas.Archive.{TreeItem, tree_error, tree_item}
use dumbcas.Walk.{Folder, unopened, opened, Batches, no_more, read_error, batch}
use dumbcas.Walk.{Members, no_member, file, folder, is_none, Walked, go_on, found_file}
use dumbcas.Walk.{walk_folder, walk_batches, walk_members, enumerate_tree}

-- Everything there is in a tree, in its order, errors included.
unfoldable mutual
  pub all_folder : Text → Folder → List TreeItem
  all_folder root (unopened e) = tree_error e ∷ []
  all_folder root (opened bs) = all_batches root bs

  pub all_batches : Text → Batches → List TreeItem
  all_batches root no_more = []
  all_batches root (read_error e) = tree_error e ∷ []
  all_batches root (batch ms bs) =
      let rest = all_members root ms ++ all_batches root bs in if is_none ms then [] else rest

  pub all_members : Text → Members → List TreeItem
  all_members root no_member = []
  all_members root (file name size time ms) =
      found_file (join root name) size time ∷ all_members root ms
  all_members root (folder name f ms) = all_folder (join root name) f ++ all_members root ms

unfoldable pub up_to_error : List TreeItem → List TreeItem
up_to_error [] = []
up_to_error (tree_error e ∷ ts) = tree_error e ∷ []
up_to_error (tree_item path i ∷ ts) = tree_item path i ∷ up_to_error ts

unfoldable pub no_error : List TreeItem → Bool
no_error [] = true
no_error (tree_error e ∷ ts) = false
no_error (tree_item path i ∷ ts) = no_error ts

no_error-append : (ts us : List TreeItem) → no_error (ts ++ us) ≡ (no_error ts && no_error us)
unfolding no_error
no_error-append [] us = refl
no_error-append (tree_error e ∷ ts) us = refl
no_error-append (tree_item path i ∷ ts) us = no_error-append ts us

up_to_error-append :
    (ts us : List TreeItem)
    → up_to_error (ts ++ us)
      ≡ (if no_error ts then up_to_error ts ++ up_to_error us else up_to_error ts)
unfolding no_error up_to_error
up_to_error-append [] us = refl
up_to_error-append (tree_error e ∷ ts) us = refl
up_to_error-append (tree_item path i ∷ ts) us = elim (Bool-cases (no_error ts)) [
  | inl h ↦ rw (up_to_error-append ts us, h) refl
  | inr h ↦ rw (up_to_error-append ts us, h) refl
]

abbrev Follows : Walked → List TreeItem → Type 0
Follows w ts = (w.sent ≡ up_to_error ts) × (w.succeeded ≡ no_error ts)

go_on-Follows :
    (w : Walked) (after : ℕ → Walked) (ts us : List TreeItem)
    → Follows w ts
    → ((k : ℕ) → Follows (after k) us)
    → Follows (go_on w after) (ts ++ us)
go_on-Follows w after ts us (s, o) h = elim (Bool-cases (no_error ts)) [
  | inl e ↦
      let (t, p) = h w.asked in
      rw (o, no_error-append ts us, up_to_error-append ts us, e) (rw (s, t) refl, p)
  | inr e ↦ rw (o, no_error-append ts us, up_to_error-append ts us, e) (s, refl)
]

abbrev never : ℕ → Bool
never n = false

mutual
  unfolding walk_folder walk_batches walk_members all_folder all_batches all_members up_to_error
      no_error

  walk_folder-Follows :
      (root : Text) (f : Folder) (n : ℕ) → Follows (walk_folder never root f n) (all_folder root f)
  walk_folder-Follows root (unopened e) n = (refl, refl)
  walk_folder-Follows root (opened bs) n = walk_batches-Follows root bs n

  walk_batches-Follows :
      (root : Text) (bs : Batches) (n : ℕ)
      → Follows (walk_batches never root bs n) (all_batches root bs)
  walk_batches-Follows root no_more n = (refl, refl)
  walk_batches-Follows root (read_error e) n = (refl, refl)
  walk_batches-Follows root (batch ms bs) n = elim (Bool-cases (is_none ms)) [
    | inl e ↦ rw e (refl, refl)
    | inr e ↦ rw e (
        go_on-Follows (walk_members never root ms (n + 1)) (walk_batches never root bs)
          (all_members root ms) (all_batches root bs) (walk_members-Follows root ms (n + 1))
          λ k. walk_batches-Follows root bs k)
  ]

  walk_members-Follows :
      (root : Text) (ms : Members) (n : ℕ)
      → Follows (walk_members never root ms n) (all_members root ms)
  walk_members-Follows root no_member n = (refl, refl)
  walk_members-Follows root (file name size time ms) n =
      let (s, o) = walk_members-Follows root ms (n + 1) in
      (ap (λ r. found_file (join root name) size time ∷ r) s, o)
  walk_members-Follows root (folder name f ms) n =
      go_on-Follows (walk_folder never (join root name) f (n + 1)) (walk_members never root ms)
        (all_folder (join root name) f) (all_members root ms)
        (walk_folder-Follows (join root name) f (n + 1)) λ k. walk_members-Follows root ms k

-- A walk that is not interrupted sends what there is in the tree, in its order, up to and with the
-- first error.
pub enumerate_tree_lem :
    (root : Text) (f : Folder)
    → enumerate_tree (λ n. false) root f ≡ up_to_error (all_folder root f)
unfolding enumerate_tree
enumerate_tree_lem root f = (walk_folder-Follows root f 0).0
