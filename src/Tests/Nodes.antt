-- ===== src/Tests/Nodes.antt =====
-- The nodes table on disk over files kept in a map.
use dumbcas.Prelude.{◌++◌, ℕ, Text, text, ◌==◌, ◌≡◌, refl, false, if◌then◌else◌}
use dumbcas.Prelude.{[], ◌∷◌, none, some, arith, has_prefix}
use dumbcas.Prelude.Map.{Map, lookup, insert, erase, lookup-insert, lookup-erase}
use dumbcas.Prelude.FilePath.{clean, split, join_parts, base}
use dumbcas.Table.{Error, io, Result, ok, Node, item}
use dumbcas.Files.{join_all}
use dumbcas.LocalNodes.{
  NodeFiles, LocalNodes, add_entry, path_of, answer_of, enumerate, new_file, add_made, node_name,
}
use dumbcas.Nodes.{make_memory_nodes}
use dumbcas.Nodes.Naming.{add_entry-ok, stamp}
use dumbcas.LocalNodes.Tags.{IsLawfulNodeFiles}
use dumbcas.LocalNodes.Adding.{add_entry-total, file-add_entry}
use dumbcas.LocalNodes.Listing.{enumerate_lem, listed}
use dumbcas.Walk.{Folder, opened, no_more, batch, no_member, file, folder, enumerate_tree}
use dumbcas.Walk.Order.{up_to_error}
use dumbcas.Walk.Relative.{relative_folder, is_named, onto}
use dumbcas.Tests.Files.{
  map_files, map_disk, map_disk-IsLawful, create, copy, file-copy, file-copy_other,
}
use dumbcas.Tests.Tables.{toy, now}

truncate_other :
    (d : Map Text) (p q : Text)
    → (p == q) ≡ false
    → map_disk.file (insert p [] d) q ≡ map_disk.file d q
unfolding dumbcas.Tests.Files.file
truncate_other d p q h = ground (arith, lookup-insert p q [] d)

remove_other :
    (d : Map Text) (p q : Text) → (p == q) ≡ false → map_disk.file (erase p d) q ≡ map_disk.file d q
unfolding dumbcas.Tests.Files.file
remove_other d p q h = ground (arith, lookup-erase p q d)

create_failed : (d : Map Text) (p : Text) (e : Error) → (create d p).0 ≡ some e → (create d p).1 ≡ d
unfolding create
create_failed d p e h = ground arith

-- No links can be made.
abbrev node_files : NodeFiles
node_files = record {
  system = map_files;
  symlink = λ d r p. (some io, d);
  truncate = λ d p. (none, insert p [] d);
  rel = λ d p. ok p;
}

node_files-IsLawful : IsLawfulNodeFiles node_files
node_files-IsLawful = record {
  disk = map_disk-IsLawful;
  create_failed = create_failed;
  file-remove_other = remove_other;
  file-symlink_other = λ d r p q h. refl;
  file-truncate_other = λ d r p q g h. truncate_other (erase p d) p q h;
}

abbrev empty : LocalNodes node_files
empty = record {
  nodes_dir = text "/r/nodes";
  hostname = text "h";
  trash_created = false;
  files = [];
}

abbrev a_node : Node
a_node = record { entry_name = text "ab"; comment = [] }

add_entry-total_example :
    (r : Result Text × LocalNodes node_files) × (add_entry node_files 1 toy now empty a_node
        (text "n")
      ≡ some r)
unfolding create lookup join_all clean split join_parts has_prefix node_name ◌==◌
add_entry-total_example =
    add_entry-total node_files node_files-IsLawful toy now empty a_node (text "n") (text "ab") 0 1
      (refl, refl) refl (omega arith)

-- A disk that cannot be written.
abbrev locked : NodeFiles
locked = record node_files {
  system = record map_files { disk = record map_disk { create = λ d p. (some io, d) } };
}

locked-IsLawful : IsLawfulNodeFiles locked
locked-IsLawful = record {
  disk = record {
    file-mkdir_all = λ d p q. refl;
    create_new = λ d p h. cc;
    file-create = λ d p q h. cc;
    file-create_failed = λ d p q e h. refl;
    file-copy = file-copy;
    file-copy_other = file-copy_other;
  };
  create_failed = λ d p e h. refl;
  file-remove_other = remove_other;
  file-symlink_other = λ d r p q h. refl;
  file-truncate_other = λ d r p q g h. truncate_other (erase p d) p q h;
}

abbrev locked_empty : LocalNodes locked
locked_empty = record {
  nodes_dir = text "/r/nodes";
  hostname = text "h";
  trash_created = false;
  files = [];
}

abbrev node_file : Text
node_file = text "/r/nodes/2012-01/h_2012-01-02_03-04-05_n"

abbrev node_answer : Text
node_answer = text "2012-01/h_2012-01-02_03-04-05_n"

abbrev after : LocalNodes node_files
after = record empty { files = (node_file, text "ab") ∷ (text "/r/nodes/tags/n", text "ab") ∷ [] }

file-add_entry_example :
    (n : ℕ) × (answer_of node_files empty now (text "n") n ≡ node_answer)
    × (map_disk.file [] (path_of node_files empty now (text "n") n) ≡ none)
    × (map_disk.file after.files node_file ≡ (
        if path_of node_files empty now (text "n") n == node_file
        then some (text "ab")
        else map_disk.file [] node_file))
unfolding add_entry create copy dumbcas.Tests.Files.file lookup insert erase join_all clean split
    join_parts has_prefix node_name new_file add_made ◌==◌
file-add_entry_example =
    file-add_entry node_files node_files-IsLawful toy now empty a_node (text "n") (text "ab") 1
      node_answer node_file after (refl, refl) (λ d. refl) refl refl

-- A node, and one that was removed.
abbrev tree : Folder
tree = opened (
    batch
      (folder (text "2012-01") (opened (batch (file (text "x") 1 7 no_member) no_more))
        (folder (text "trash") (opened (batch (file (text "y") 1 7 no_member) no_more)) no_member))
      no_more)

enumerate_lem_example :
    enumerate (text "/r/nodes") (enumerate_tree (λ n. false) (text "/r/nodes") tree)
    ≡ listed (up_to_error (relative_folder tree))
unfolding clean split join_parts has_prefix is_named ◌==◌
enumerate_lem_example = enumerate_lem (text "/r/nodes") tree refl refl (λ e. cc) refl

tree_listed :
    listed (up_to_error (relative_folder tree))
    ≡ item (text "2012-01/x") ∷ item (text "trash/y") ∷ []
unfolding listed up_to_error relative_folder onto base split ◌==◌
tree_listed = refl

abbrev a_tag : Text
a_tag = text "tags/n"

add_entry-ok_example :
    let r = dumbcas.Nodes.add_entry toy (stamp b'2' [] []) make_memory_nodes a_node (text "n") in
    (path : Text) × (r.0 ≡ ok path)
    × (lookup path make_memory_nodes.entries ≡ none)
    × (lookup a_tag r.1.entries ≡ (
        if (text "tags/" ++ text "n") == a_tag
        then some (text "ab")
        else if path == a_tag
        then some (text "ab")
        else lookup a_tag make_memory_nodes.entries))
add_entry-ok_example =
    add_entry-ok toy b'2' [] [] (text "n") (text "ab") a_tag make_memory_nodes a_node refl
