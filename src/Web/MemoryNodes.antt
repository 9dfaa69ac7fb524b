-- ===== src/Web/MemoryNodes.antt =====
-- ServeHTTP of memoryNodesTable in dumbcaslib/nodes.go.
use dumbcas.Prelude.{Text, ◌==◌, true, not, eqb, if◌then◌else◌, ◌≡◌, arith}
use dumbcas.Prelude.{Option, none, some, List, [], ◌∷◌, ◌++◌, has_prefix, drop, length, eq_iff}
use dumbcas.Prelude.Map.{Map, lookup}
use dumbcas.Prelude.FilePath.{slash, base, has_suffix_slash}
use dumbcas.Entry.{Entry}
use dumbcas.Table.{Result, ok, err, Node, Codec, CasTable}
use dumbcas.Nodes.{MemoryNodes, load_reader_as_json, load_entry}
use dumbcas.Web.{Request, Response, http_error, panicked, local_redirect, entry_serve, dir_list}

-- The first binding of the range whose key the url begins with.
unfoldable pub find_node : Text → Map Text → Option (Text × Text)
find_node url [] = none
find_node url ((k, v) ∷ rest) = if has_prefix url k then some (k, v) else find_node url rest

-- The first part of strings.SplitAfterN(s, "/", 2)
unfoldable pub first_part : Text → Text
first_part [] = []
first_part (c ∷ s) = let rest = first_part s in if eqb c slash then c ∷ [] else c ∷ rest

-- What there is below a text that ends with a slash.
unfoldable pub names_below : Text → Map Text → List Text
names_below dir [] = []
names_below dir ((k, v) ∷ rest) =
    let below = names_below dir rest in
    if has_prefix k dir then first_part (drop (length dir) k) ∷ below else below

list_nodes : MemoryNodes → Request → Text → Response
list_nodes m r url =
    let need_redirect = not (has_suffix_slash r.path) in
    let dir = if need_redirect then url ++ (slash ∷ []) else url in
    elim (names_below dir m.entries) [
      | [] ↦ http_error 404 "Yo dawg" []
      | name ∷ names ↦
          if need_redirect
          then local_redirect r (base r.path ++ (slash ∷ []))
          else dir_list (name ∷ names)
    ]

module _ (C : CasTable) (codec : Codec) (cas_serve : C.State → Request → Response) where
  entry_of_node : C.State → Request → Text → Result Entry × C.State → Response × C.State
  entry_of_node c r rest (err e, c') = (http_error 404 "Failed to load the entry file: %s" [], c')
  entry_of_node c r rest (ok root, c') =
      (entry_serve (cas_serve c') root (record r { path = rest }), c')

  answer_node : C.State → Request → Text → Result Node → Response × C.State
  unfolding entry_of_node
  answer_node c r rest (err e) = (http_error 404 "Failed to load the entry file: %s" [], c)
  answer_node c r rest (ok node) = entry_of_node c r rest (load_entry C codec c node.entry_name)

  serve_binding : C.State → Request → Text → Text × Text → Response × C.State
  unfolding answer_node
  serve_binding c r url (k, v) =
      let rest = drop (length k) url in
      if rest == []
      then (local_redirect r (base r.path ++ (slash ∷ [])), c)
      else answer_node c r rest (load_reader_as_json codec.decode_node (ok v))

  serve_url : MemoryNodes → C.State → Request → Text → Response × C.State
  unfolding serve_binding list_nodes
  serve_url m c r url = elim (if url == [] then none else find_node url m.entries) [
    | some found ↦ serve_binding c r url found
    | none ↦ (list_nodes m r url, c)
  ]

  -- The state is that of the table of the objects, where LoadEntry may set the fsck bit.
  unfoldable pub memory_nodes_serve : MemoryNodes → C.State → Request → Response × C.State
  unfolding serve_url
  memory_nodes_serve m c r = elim r.path [ [] ↦ (panicked, c) | b ∷ url ↦ serve_url m c r url ]

-- No other key is a beginning of the url.
abbrev pub IsOnly : Text → Text → Map Text → Type 0
IsOnly url key [] = Unit
IsOnly url key ((k, v) ∷ rest) = (has_prefix url k ≡ true → (k == key) ≡ true) × IsOnly url key rest

-- Whatever the order of the range.
pub find_node-lookup :
    (url key v : Text) (m : Map Text)
    → lookup key m ≡ some v
    → has_prefix url key ≡ true
    → IsOnly url key m
    → find_node url m ≡ some (key, v)
unfolding find_node lookup
find_node-lookup url key v [] found h only = cc
find_node-lookup url key v ((k, w) ∷ rest) found h (o, only) =
    ground (arith, find_node-lookup url key v rest, eq_iff k key)
