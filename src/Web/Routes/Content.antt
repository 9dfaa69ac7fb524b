-- ===== src/Web/Routes/Content.antt =====
-- An archived file, from the url of its node to its content.
use dumbcas.Prelude.{
  Text, text, arith, ◌==◌, ◌≡◌, ◌≢◌, refl, true, false, some, ◌∙◌, ◌∷◌, ◌++◌, [], has_prefix,
  length, drop,
}
use dumbcas.Prelude.Map.{lookup}
use dumbcas.Prelude.FilePath.{slash, split, trim_slashes, has_suffix_slash}
use dumbcas.Entry.{Entry, nil_map}
use dumbcas.Entry.Paths.{ItemToArchive, make_entry, walk, files_at}
use dumbcas.Table.{Node, Codec}
use dumbcas.Cas.{MemoryCas, memory_cas, open_item}
use dumbcas.Nodes.{MemoryNodes, load_reader_as_json, load_entry}
use dumbcas.Web.{Request, Response, body, memory_cas_serve, entry_serve}
use dumbcas.Web.Serving.{entry_serve-make_entry}
use dumbcas.Web.MemoryNodes.{IsOnly, find_node-lookup, memory_nodes_serve}
use dumbcas.Web.Routes.{clean_path, nodes_url, routes}
use dumbcas.Web.Routes.Paths.{routed, routes-routed}

drop-key : (key s : Text) → drop (length key) (key ++ s) ≡ s
drop-key [] s = refl
drop-key (c ∷ key) s = drop-key key s

has_prefix-key : (key s : Text) → has_prefix (key ++ s) key ≡ true
unfolding has_prefix
has_prefix-key [] s = refl
has_prefix-key (c ∷ key) s = ground (arith, has_prefix-key key s)

not_empty : (key s : Text) → ((key ++ (slash ∷ s)) == []) ≡ false
unfolding ◌==◌
not_empty [] s = refl
not_empty (c ∷ key) s = refl

routed-nodes :
    (cas_serve nodes_serve : Request → Response) (r : Request) (p : Text)
    → r.path ≡ nodes_url ++ (slash ∷ p)
    → r.http_method ≡ text "GET"
    → routed cas_serve nodes_serve r ≡ nodes_serve (record r { path = slash ∷ p })
unfolding routed has_prefix ◌==◌
routed-nodes cas_serve nodes_serve r p at get = rw (at, get) refl

module _ (codec : Codec) (c : MemoryCas) (m : MemoryNodes) where
  unfoldable pub nodes_serve : Request → Response
  nodes_serve r = (memory_nodes_serve memory_cas codec memory_cas_serve m c r).0

  -- The request for a path below a node.
  nodes_serve-entry :
      (key v rest bytes : Text) (node : Node) (root : Entry) (r : Request)
      → lookup key m.entries ≡ some v
      → IsOnly (key ++ (slash ∷ rest)) key m.entries
      → codec.decode_node v ≡ some node
      → lookup node.entry_name c.entries ≡ some bytes
      → codec.decode_entry bytes ≡ some root
      → nodes_serve (record r { path = slash ∷ (key ++ (slash ∷ rest)) })
        ≡ entry_serve (memory_cas_serve c) root (record r { path = slash ∷ rest })
  unfolding nodes_serve memory_nodes_serve load_reader_as_json load_entry open_item
  nodes_serve-entry key v rest bytes node root r at only n b e =
      rw
        (
          nodes_serve,
          memory_nodes_serve,
          not_empty key rest,
          find_node-lookup (key ++ (slash ∷ rest)) key v m.entries at
              (has_prefix-key key (slash ∷ rest)) only,
          drop-key key (slash ∷ rest),
          not_empty [] rest,
          n,
          load_entry,
          b,
          e,
        )
        refl

-- In the tables in memory, a GET request to web for a file below the name of a node, where no other
-- node name begins the url and the path of the request is clean, is answered by the content of the
-- file, when the tree of the node is one in which the file was archived under a relative path with
-- no slash at its ends, where no directory was.
pub routes-content :
    (codec : Codec) (c : MemoryCas) (m : MemoryNodes) (key v tree bytes : Text) (node : Node)
    (root : Entry) (item : ItemToArchive) (r : Request)
    → r.path ≡ nodes_url ++ (slash ∷ (key ++ (slash ∷ item.rel_path)))
    → clean_path r.path ≡ r.path
    → r.http_method ≡ text "GET"
    → lookup key m.entries ≡ some v
    → IsOnly (key ++ (slash ∷ item.rel_path)) key m.entries
    → codec.decode_node v ≡ some node
    → lookup node.entry_name c.entries ≡ some tree
    → codec.decode_entry tree ≡ some (make_entry root item)
    → item.rel_path ≢ []
    → trim_slashes item.rel_path ≡ item.rel_path
    → has_suffix_slash (slash ∷ item.rel_path) ≡ false
    → files_at (walk (split item.rel_path) root) ≡ nil_map
    → lookup item.sha1 c.entries ≡ some bytes
    → routes (memory_cas_serve c) (nodes_serve codec c m) r ≡ body bytes
unfolding memory_cas_serve
routes-content codec c m key v tree bytes node root item r path clean get at only n t d nonempty
      trimmed open_end no_dir b =
    routes-routed (memory_cas_serve c) (nodes_serve codec c m) r clean
    ∙ routed-nodes (memory_cas_serve c) (nodes_serve codec c m) r (key ++ (slash ∷ item.rel_path))
        path get
    ∙ nodes_serve-entry codec c m key v item.rel_path tree node (make_entry root item) r at only n t
        d
    ∙ entry_serve-make_entry (memory_cas_serve c) root item
        (record r { path = slash ∷ item.rel_path }) refl nonempty trimmed open_end no_dir
    ∙ rw (memory_cas_serve, b) refl
