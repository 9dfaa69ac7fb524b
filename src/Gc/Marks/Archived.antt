-- ===== src/Gc/Marks/Archived.antt =====
-- gc.go after archive.go: the objects of an archived tree are needed.
use mathlib.Core.Path.{subst}
use dumbcas.Prelude.{Text, text, ◌==◌, eq_refl, eq_iff, true, false}
use dumbcas.Prelude.{
  inl, inr, Option-cases, ◌≡◌, refl, ap, ◌∙◌, List, [], ◌∷◌, ◌++◌, some, arith, All, ℕ,
}
use dumbcas.Prelude.Map.{lookup, keys, contains, contains-keys, is_some}
use dumbcas.Prelude.FilePath.{split}
use dumbcas.Entry.{
  Entry, entry, Files, nil_map, made, Children, end, child, find_child, empty_entry,
}
use dumbcas.Entry.Paths.{ItemToArchive, walk}
use dumbcas.Table.{
  Result, ok, Result-cases, Reader, items, Node, Codec, CasTable, NodesTable, IsLawful, content,
}
use dumbcas.Nodes.{MemoryNodes, memory_nodes, load_reader_as_json}
use dumbcas.Nodes.{add_entry, open_item, enumerate}
use dumbcas.Nodes.Naming.{stamp, add_entry-ok}
use dumbcas.Cas.Laws.{items-items_of}
use dumbcas.Archive.{archive_items, archive_inputs}
use dumbcas.Archive.Counters.{Stats}
use dumbcas.Archive.Trees.{Spares, walk-archive_items}
use dumbcas.Gc.{gc}
use dumbcas.Gc.Safety.{gc_keeps_live}
use dumbcas.Gc.Marks.{refers, refers_children, any_refers, node_refers, entry_refers, is_live}

find_child-refers :
    (p : Text) (cs : Children) (e : Entry) (k : Text)
    → find_child p cs ≡ some e
    → refers e k ≡ true
    → refers_children cs k ≡ true
unfolding refers find_child
find_child-refers p end e k f h = cc
find_child-refers p (child q g cs) e k f h = ground (arith, find_child-refers p cs e k)

-- A tree names the hash of the file at any of its paths.
walk-refers :
    (ps : List Text) (root : Entry) (h : Text) (n : ℕ) (fs : Files)
    → walk ps root ≡ some (entry h n fs)
    → (h == []) ≡ false
    → refers root h ≡ true
unfolding walk refers
walk-refers [] root h n fs w e =
    let here : refers (entry h n fs) h ≡ true = ground (arith, eq_refl h) in
    let same : entry h n fs ≡ root = cc in subst (λ r. refers r h ≡ true) same here
walk-refers (p ∷ ps) (entry g m nil_map) h n fs w e = cc
walk-refers (p ∷ ps) (entry g m (made cs)) h n fs w e = elim (Option-cases (find_child p cs)) [
  | inl absent ↦ ground (arith, absent)
  | inr (f, present) ↦ ground (arith, present, walk-refers ps f h n fs, find_child-refers p cs f h)
]

module _ (C : CasTable) (N : NodesTable) (codec : Codec) where
  any_refers-contains :
      (s : C.State) (n : N.State) (names : List Text) (name k : Text)
      → contains names name ≡ true
      → node_refers C N codec s n name k ≡ true
      → any_refers C N codec s n names k ≡ true
  unfolding any_refers contains
  any_refers-contains s n [] name k c r = cc
  any_refers-contains s n (j ∷ js) name k c r =
      ground (arith, any_refers-contains s n js name k, eq_iff j name)

  node_refers-tree :
      (s : C.State) (n : N.State) (name bytes tree k : Text) (node : Node) (root : Entry)
      → N.open_item n name ≡ ok (ok bytes)
      → codec.decode_node bytes ≡ some node
      → content C s node.entry_name ≡ some (ok tree)
      → codec.decode_entry tree ≡ some root
      → refers root k ≡ true
      → node_refers C N codec s n name k ≡ true
  unfolding node_refers entry_refers load_reader_as_json
  node_refers-tree s n name bytes tree k node root o d c t r =
      elim (Result-cases (C.open_item s node.entry_name)) [
        | inr (why, e) ↦ ground (arith, c, e)
        | inl (f, e) ↦
            let same : f ≡ ok tree = ground (arith, c, e) in
            let there : C.open_item s node.entry_name ≡ ok (ok tree) = e ∙ ap ok same in
            rw (node_refers, o, d, entry_refers, there, t, r) (ground arith)
      ]

  is_live-node :
      (s : C.State) (n : N.State) (name k : Text)
      → contains (items (N.enumerate n)) name ≡ true
      → node_refers C N codec s n name k ≡ true
      → is_live C N codec s n k ≡ true
  unfolding is_live
  is_live-node s n name k c r = any_refers-contains s n (items (N.enumerate n)) name k c r

-- A node that was added can be opened by its tag, and is enumerated.
add_entry-tag :
    (codec : Codec) (month : ℕ) (months second name bytes : Text) (m : MemoryNodes) (node : Node)
    → codec.encode_node node ≡ some bytes
    → (open_item (add_entry codec (stamp month months second) m node name).1 (text "tags/" ++ name)
        ≡ ok (ok bytes))
      × (contains
            (items (enumerate (add_entry codec (stamp month months second) m node name).1))
            (text "tags/" ++ name)
          ≡ true)
unfolding open_item enumerate
add_entry-tag codec month months second name bytes m node encode =
    let tag = text "tags/" ++ name in
    let n = (add_entry codec (stamp month months second) m node name).1 in
    let (path, added, free, found_at) =
      add_entry-ok codec month months second name bytes tag m node encode in
    let here : lookup tag n.entries ≡ some bytes = ground (arith, found_at, eq_refl tag) in
    (
      rw (open_item, here) refl,
      ap (λ ks. contains ks tag) (items-items_of (keys n.entries))
          ∙ contains-keys tag n.entries
          ∙ ap is_some here,
    )

-- After archiving into lawful tables, whatever the outcome of gc: the object of a file with a hash,
-- where no later file lies at its path or below it, is as it was, when a node that AddEntry of the
-- nodes table in memory makes names the entry file, both can be encoded and decoded, and the entry
-- file can be opened.
pub gc-archive_inputs :
    (C : CasTable) (L : IsLawful C) (codec : Codec) (opened : Text → Result Reader)
    (before after : List ItemToArchive) (file : ItemToArchive) (c : C.State) (s : Stats)
    (hash tree comment : Text) (month : ℕ) (months second name bytes : Text) (m : MemoryNodes)
    → All (Spares (split file.rel_path)) after
    → (file.sha1 == []) ≡ false
    → codec.decode_entry tree
      ≡ some (archive_items C opened (before ++ file ∷ after) empty_entry c s).0
    → content C (archive_inputs C opened codec (before ++ file ∷ after) c s).1 hash ≡ some (ok tree)
    → codec.encode_node (record { entry_name = hash; comment = comment }) ≡ some bytes
    → codec.decode_node bytes ≡ some (record { entry_name = hash; comment = comment })
    → let now = stamp month months second in
      let left = (archive_inputs C opened codec (before ++ file ∷ after) c s).1 in
      let n = (add_entry codec now m (record { entry_name = hash; comment = comment }) name).1 in
      content C (gc C (memory_nodes codec now) codec left n).1 file.sha1 ≡ content C left file.sha1
gc-archive_inputs C L codec opened before after file c s hash tree comment month months second name
      bytes m spared named decode_tree stored encode decode =
    let now = stamp month months second in
    let N = memory_nodes codec now in
    let left = (archive_inputs C opened codec (before ++ file ∷ after) c s).1 in
    let node : Node = record { entry_name = hash; comment = comment } in
    let n = (add_entry codec now m node name).1 in
    let root = (archive_items C opened (before ++ file ∷ after) empty_entry c s).0 in
    let (fs, at) = walk-archive_items C opened before after file empty_entry c s spared in
    let (opens, listed) = add_entry-tag codec month months second name bytes m node encode in
    gc_keeps_live C L N codec left n file.sha1 (
      is_live-node C N codec (C.enumerate left).1 n (text "tags/" ++ name) file.sha1 listed (
        node_refers-tree C N codec (C.enumerate left).1 n (text "tags/" ++ name) bytes tree
          file.sha1 node root opens decode (L.content-enumerate left hash ∙ stored) decode_tree
          (walk-refers (split file.rel_path) root file.sha1 file.size fs at named)))
