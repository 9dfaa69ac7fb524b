-- ===== src/LocalNodes.antt =====
-- The nodes table on disk: LoadLocalNodesTable, AddEntry, Open, Enumerate and Remove of
-- dumbcaslib/nodes_local.go, over the calls of package os that they make.
pub mod Tags
pub mod Adding
pub mod Listing
use dumbcas.Prelude.{
  ℕ, zero, suc, ◌+◌, Text, text, ◌==◌, Bool, false, eqb, if◌then◌else◌, List, [], ◌∷◌, ◌++◌,
}
use dumbcas.Prelude.{Option, none, some, length, drop}
use dumbcas.Prelude.FilePath.{base, decimal}
use dumbcas.Table.{Error, failed, Result, ok, err, Reader, Codec, Node, Enumeration, item, broken}
use dumbcas.Restore.{blocks}
use dumbcas.Files.{FileSystem, join_all}
use dumbcas.LocalCas.{move}
use dumbcas.Archive.{TreeItem, tree_error, tree_item}
use dumbcas.Nodes.{Stamp}

-- The calls besides those of FileSystem: os.Symlink, os.OpenFile with O_TRUNC and O_CREATE, and
-- filepath.Rel.
pub record NodeFiles : Type 1 where
  pub system : FileSystem
  pub symlink : system.disk.State → Text → Text → Option Error × system.disk.State
  pub truncate : system.disk.State → Text → Option Error × system.disk.State
  pub rel : Text → Text → Result Text

-- parts[0] of strings.SplitN(hostname, ".", 2)
unfoldable pub first_label : Text → Text
first_label [] = []
first_label (c ∷ s) = let rest = first_label s in if eqb c b'.' then [] else c ∷ rest

module _ (F : NodeFiles) where
  -- type nodesTable with its trash, and the files; the recent nodes and entries are apart.
  pub record LocalNodes : Type 0 where
    pub nodes_dir : Text
    pub hostname : Text
    pub trash_created : Bool
    pub files : F.system.disk.State

  unfoldable pub load_local_nodes_table :
      F.system.disk.State → Text → Result Text → Result LocalNodes × F.system.disk.State
  load_local_nodes_table d root_dir host =
      let nodes_dir = join_all (root_dir ∷ text "nodes" ∷ []) in
      let (e, d') = F.system.mkdir d nodes_dir in
      if blocks e
      then (err (failed "LoadNodesTable(%s): Failed to create %s: %s\n" root_dir), d')
      else (elim host [
        | err why ↦ (err (failed "Failed to get the hostname: %s" []), d')
        | ok name ↦ (
          ok (record {
            nodes_dir = nodes_dir;
            hostname = first_label name;
            trash_created = false;
            files = d';
          }),
          d',
        )
      ])

  -- The name for one try of AddEntry.
  unfoldable pub node_name : Text → Stamp → Text → ℕ → Text
  node_name host now name zero = host ++ text "_" ++ now.second ++ text "_" ++ name
  node_name host now name (suc n) =
      host ++ text "_" ++ now.second ++ text "_" ++ name ++ text "(" ++ decimal (suc n) ++ text ")"

  -- The loop over the suffixes, which goes on after any error: the first name whose file can be made.
  -- It has no bound in the source; here `none` says that the fuel ran out.
  unfoldable pub new_file :
      ℕ → (ℕ → Text) → ℕ → F.system.disk.State → Option (ℕ × F.system.disk.State)
  new_file zero path suffix d = none
  new_file (suc fuel) path suffix d =
      let (e, d') = F.system.disk.create d (path suffix) in
      let rest = new_file fuel path (suffix + 1) d' in
      elim e [ none ↦ some (suffix, d') | some why ↦ rest ]

  -- The bytes written over the tag, where no link can be made.
  write_tag : Text → Text → F.system.disk.State → Option Error × F.system.disk.State
  write_tag path bytes d =
      let (e, d1) = F.truncate d path in
      let (e', n, d2) = F.system.disk.copy d1 path (ok bytes) in
      elim e [
        | some why ↦ (some (failed "Failed to create tag %s: %s" path), d1)
        | none ↦ elim e' [
          | some why ↦ (some (failed "Failed to write %s: %s" path), d2)
          | none ↦ (none, d2)
        ]
      ]

  link_tag : Text → Text → Text → F.system.disk.State → Option Error × F.system.disk.State
  unfolding write_tag
  link_tag rel_path path bytes d =
      let (e, d1) = F.system.remove d path in
      let (e', d2) = F.symlink d1 rel_path path in
      let over = write_tag path bytes d2 in elim e' [ none ↦ (none, d2) | some why ↦ over ]

  update_tag : Text → Text → Text → Text → F.system.disk.State → Option Error × F.system.disk.State
  unfolding link_tag
  update_tag nodes_dir name node_path bytes d =
      let tags_dir = join_all (nodes_dir ∷ text "tags" ∷ []) in
      let (e, d1) = F.system.disk.mkdir_all d tags_dir in
      if blocks e
      then (some (failed "Failed to create %s: %s\n" tags_dir), d1)
      else (elim (F.rel tags_dir node_path) [
        | err why ↦ (some why, d1)
        | ok rel_path ↦ link_tag rel_path (join_all (tags_dir ∷ name ∷ [])) bytes d1
      ])

  -- After the file of the node was made.
  pub write_node :
      Text → Text → Text → Text → Text → F.system.disk.State → Result Text × F.system.disk.State
  unfolding update_tag
  write_node nodes_dir name path answer bytes d =
      let (e, n, d1) = F.system.disk.copy d path (ok bytes) in
      let (e', d2) = update_tag nodes_dir name path bytes d1 in
      elim e [
        | some why ↦ (err (failed "Failed to write %s: %s" path), d1)
        | none ↦ elim e' [ some why ↦ (err why, d2) | none ↦ (ok answer, d2) ]
      ]

  -- The file and the path that is returned for one try of AddEntry.
  abbrev pub path_of : LocalNodes → Stamp → Text → ℕ → Text
  path_of s now name n =
      join_all (join_all (s.nodes_dir ∷ now.month ∷ []) ∷ node_name s.hostname now name n ∷ [])

  abbrev pub answer_of : LocalNodes → Stamp → Text → ℕ → Text
  answer_of s now name n = join_all (now.month ∷ node_name s.hostname now name n ∷ [])

  -- The rest of AddEntry after the loop.
  unfoldable pub add_made :
      LocalNodes
      → Stamp
      → Text
      → Text
      → Option (ℕ × F.system.disk.State)
      → Option (Result Text × LocalNodes)
  unfolding write_node
  add_made s now name bytes none = none
  add_made s now name bytes (some (n, d)) =
      let (r, d') =
        write_node s.nodes_dir name (path_of s now name n) (answer_of s now name n) bytes d in
      some (r, record s { files = d' })

  -- `none` says that the fuel of the loop ran out.
  unfoldable pub add_entry :
      ℕ → Codec → Stamp → LocalNodes → Node → Text → Option (Result Text × LocalNodes)
  add_entry fuel codec now s node name = elim (codec.encode_node node) [
    | none ↦ some (err (failed "Failed to marshall internal state: %s" []), s)
    | some bytes ↦
        let month_dir = join_all (s.nodes_dir ∷ now.month ∷ []) in
        let (e, d) = F.system.disk.mkdir_all s.files month_dir in
        if blocks e
        then some (err (failed "Failed to create %s: %s\n" month_dir), record s { files = d })
        else add_made s now name bytes (new_file fuel (path_of s now name) 0 d)
  ]

  unfoldable pub open_item : LocalNodes → Text → Result Reader
  open_item s name = F.system.open_file s.files (join_all (s.nodes_dir ∷ name ∷ []))

  -- By the trash, which is the one of the CAS table.
  unfoldable pub remove : LocalNodes → Text → Option Error × LocalNodes
  unfolding move
  remove s name =
      let (e, t) =
        move F.system
          (record { cas_dir = s.nodes_dir; trash_created = s.trash_created; files = s.files })
          name in
      (e, record s { trash_created = t.trash_created; files = t.files })

-- Enumerate, on what EnumerateTree sends for the directory of the nodes.
unfoldable pub enumerate : Text → List TreeItem → List Enumeration
enumerate nodes_dir [] = []
enumerate nodes_dir (tree_error e ∷ ts) = broken e ∷ enumerate nodes_dir ts
enumerate nodes_dir (tree_item path i ∷ ts) =
    let rest = enumerate nodes_dir ts in
    let rel_path = drop (length nodes_dir + 1) path in
    if i.is_directory
    then rest
    else if base rel_path == text "trash"
    then rest
    else item rel_path ∷ rest
