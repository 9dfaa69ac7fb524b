-- ===== src/Web/NodesTable.antt =====
-- ServeHTTP of nodesTable in dumbcaslib/nodes_local.go, with getNode and serveObj. What the goroutines
-- are to add to the caches is part of the result.
pub mod Kept
use dumbcas.Prelude.{ℕ, Text, ◌==◌, not, ◌&&◌, eqb, if◌then◌else◌, List, []}
use dumbcas.Prelude.{◌∷◌, ◌++◌, Option, none, some, has_prefix, drop}
use dumbcas.Prelude.Map.{Map}
use dumbcas.Prelude.FilePath.{slash, base, has_suffix_slash, trim_slashes}
use dumbcas.Entry.{Entry}
use dumbcas.Table.{Result, ok, err, Reader, Node, Codec, CasTable}
use dumbcas.Nodes.{load_reader_as_json}
use dumbcas.Recent.{Cached, find_cached}
use dumbcas.Recent.Entries.{get_entry}
use dumbcas.Web.{Request, Response, http_error, local_redirect, entry_serve, dir_list}

-- What os.Open and Stat find in the directory of the nodes, and the names that readDirFancy lists.
pub data Opened : Type 0 where
  directory : List Text → Opened
  regular : Reader → Opened

on_piece : ℕ → List Text → List Text
on_piece c [] = (c ∷ []) ∷ []
on_piece c (p ∷ ps) = (c ∷ p) ∷ ps

-- The pieces that the loop of getNode cuts off a url: each ends behind a slash, but the last one.
unfoldable pub pieces : Text → List Text
unfolding on_piece
pieces [] = []
pieces (c ∷ s) = let rest = pieces s in if eqb c slash then (c ∷ []) ∷ rest else on_piece c rest

joined : List Text → Text
joined [] = []
joined (p ∷ ps) = p ++ joined ps

-- The node with its key and the rest of the url; if no node is found, the url is the rest.
pub record FoundNode : Type 0 where
  pub found : Option Node
  pub key : Text
  pub rest : Text

module _ (codec : Codec) (opened : Text → Result Opened) where
  -- The error of LoadReaderAsJSON is that of the inner `if`; what is returned is the one of Stat, nil.
  node_in : Text → Text → Result Node → Result FoundNode
  node_in key rest (ok n) = ok (record { found = some n; key = key; rest = rest })
  node_in key rest (err e) = ok (record { found = none; key = []; rest = [] })

  node_from : Text → List Text → Text → Result FoundNode
  unfolding joined node_in
  node_from url [] key = ok (record { found = none; key = []; rest = url })
  node_from url (p ∷ ps) key =
      let deeper = node_from url ps (key ++ p) in
      elim (opened (trim_slashes (key ++ p))) [
        | err e ↦ err e
        | ok file ↦ elim file [
          | directory names ↦ deeper
          | regular r ↦ node_in (key ++ p) (joined ps) (load_reader_as_json codec.decode_node r)
        ]
      ]

  -- getNode
  unfoldable pub get_node : Text → Result FoundNode
  unfolding node_from pieces
  get_node url = node_from url (pieces url) []

module _ (C : CasTable) (codec : Codec) (opened : Text → Result Opened) where
  -- The caches and the table, and what is to be added to the caches.
  pub record Served : Type 0 where
    pub response : Response
    pub nodes : Map (Cached Node)
    pub entries : Map (Cached Entry)
    pub cas : C.State
    pub node_update : Option (Text × Cached Node)
    pub entry_update : Option (Text × Cached Entry)

  module _ (cas_serve : Request → Response) (now : ℕ) where
    abbrev answered : Served → Response → Served
    answered v response = record v { response = response }

    updated : Text → Option (Cached Entry) → Option (Text × Cached Entry)
    updated name none = none
    updated name (some o) = some (name, o)

    -- serveObj, into what is served so far.
    unfoldable pub serve_obj : Served → Request → Node → Served
    unfolding updated
    serve_obj v r node =
        let got = get_entry C codec now v.entries v.cas node.entry_name in
        let touched = record v {
          entries = got.cache;
          entry_update = updated node.entry_name got.update;
        } in
        elim got.loaded [
          | err e ↦ record touched {
            cas = C.set_fsck_bit v.cas;
            response =
                http_error 501 "Internal failure: Failed to load Entry %s: %s" node.entry_name;
          }
          | ok e ↦ answered touched (entry_serve cas_serve e r)
        ]

    -- A node that was found, with the rest of the url.
    serve_node : Served → Request → Node → Text → Served
    serve_node v r node rest =
        let served = serve_obj v (record r { path = slash ∷ rest }) node in
        if rest == [] && not (has_suffix_slash r.path)
        then answered v (local_redirect r (base r.path ++ (slash ∷ [])))
        else served

    names_of : Result Opened → List Text
    names_of (err e) = []
    names_of (ok (regular r)) = []
    names_of (ok (directory names)) = names

    -- The directories of the nodes are browsed.
    browse : Served → Request → Text → Served
    browse v r name = answered v (
        if not (name == []) && not (has_suffix_slash name)
        then local_redirect r (base r.path ++ (slash ∷ []))
        else dir_list (names_of (opened (trim_slashes name))))

    serve_stored : Served → Request → Text → Result FoundNode → Served
    serve_stored v r name (err e) = answered v (http_error 404 "Failure: %s" [])
    serve_stored v r name (ok f) = elim f.found [
      | none ↦ browse v r name
      | some node ↦
          let cached : Cached Node = record { object = node; last_access = now } in
          serve_node (record v { node_update = some (f.key, cached) }) r node f.rest
    ]

    -- ServeHTTP of nodesTable.
    unfoldable pub nodes_serve : Map (Cached Node) → Map (Cached Entry) → C.State → Request → Served
    unfolding serve_node browse names_of serve_stored
    nodes_serve nodes entries s r =
        let name = drop 1 r.path in
        let looked = find_cached now name nodes in
        let start : Served = record {
          response = http_error 501 "Internal failure. nodesTable received an invalid url: " r.path;
          nodes = looked.cache;
          entries = entries;
          cas = s;
          node_update = none;
          entry_update = none;
        } in
        if has_prefix r.path (slash ∷ [])
        then (elim looked.object [
          | some node ↦ serve_node start r node looked.rest
          | none ↦ serve_stored start r name (get_node codec opened name)
        ])
        else record start { nodes = nodes }
