-- ===== src/LocalNodes/Listing.antt =====
-- What Enumerate of the nodes table on disk sends.
use dumbcas.Prelude.{
  ◌+◌, Text, text, ◌==◌, true, false, if◌then◌else◌, List, [], ◌∷◌, ◌++◌, map, ◌≡◌, ◌≢◌, refl, ap,
}
use dumbcas.Prelude.{arith, length, length-append, has_prefix}
use dumbcas.Prelude.FilePath.{slash, clean, base}
use dumbcas.Prelude.FilePath.Elements.{clean-IsDirectory}
use dumbcas.Table.{Enumeration, item, broken}
use dumbcas.Archive.{TreeItem, tree_error, tree_item}
use dumbcas.Walk.{Folder, enumerate_tree}
use dumbcas.Walk.Order.{up_to_error}
use dumbcas.Walk.Relative.{onto, relative_folder, is_named, drop-append, enumerate_tree-onto}
use dumbcas.LocalNodes.{enumerate}

-- The files by their paths from the directory of the nodes, but those that are named trash.
unfoldable pub listed : List TreeItem → List Enumeration
listed [] = []
listed (tree_error e ∷ ts) = broken e ∷ listed ts
listed (tree_item path i ∷ ts) =
    let rest = listed ts in
    if i.is_directory then rest else if base path == text "trash" then rest else item path ∷ rest

enumerate-onto :
    (d q : Text) (ts : List TreeItem)
    → length d + 1 ≡ length q + 0
    → enumerate d (map (onto q) ts) ≡ listed ts
unfolding enumerate onto listed
enumerate-onto d q [] h = refl
enumerate-onto d q (tree_error e ∷ ts) h = ap (λ us. broken e ∷ us) (enumerate-onto d q ts h)
enumerate-onto d q (tree_item path i ∷ ts) h =
    rw (h, enumerate-onto d q ts h) (rw (drop-append q path 0) refl)

-- For a clean absolute directory of the nodes other than the root, whose walk is not interrupted
-- and whose names have no slash and are not empty, a dot or two dots, Enumerate sends the relative
-- path of every file up to the first error, also of those below the directory of the trash, and
-- leaves out the files named trash alone.
pub enumerate_lem :
    (nodes_dir : Text) (f : Folder)
    → has_prefix nodes_dir (slash ∷ []) ≡ true
    → clean nodes_dir ≡ nodes_dir
    → nodes_dir ≢ slash ∷ []
    → is_named f ≡ true
    → enumerate nodes_dir (enumerate_tree (λ n. false) nodes_dir f)
      ≡ listed (up_to_error (relative_folder f))
enumerate_lem nodes_dir f h c r v =
    rw (enumerate_tree-onto nodes_dir f (clean-IsDirectory nodes_dir h c r) v) (
      enumerate-onto nodes_dir (nodes_dir ++ (slash ∷ [])) (up_to_error (relative_folder f))
        (omega (arith, length-append nodes_dir (slash ∷ []))))
