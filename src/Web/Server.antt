-- ===== src/Web/Server.antt =====
-- The server of web.go on the nodes table of dumbcaslib/nodes_local.go, from request to request: ServeHTTP of
-- nodesTable, and the goroutines that it starts to update the caches, in any order. A request is one step,
-- and so is an update, which holds the lock.
pub mod Sound
use dumbcas.Prelude.{ℕ, Text, ◌≡◌, List, [], ◌∷◌, ◌++◌, Option, none, some}
use dumbcas.Prelude.Map.{Map}
use dumbcas.Entry.{Entry}
use dumbcas.Table.{Result, Node, Codec, CasTable}
use dumbcas.Recent.{Cached, update_cache, update_entry_cache}
use dumbcas.Web.{Request, Response}
use dumbcas.Web.NodesTable.{Opened, Served, nodes_serve}

module _ (C : CasTable) (codec : Codec) (opened : Text → Result Opened) (max_items : ℕ) where
  -- The caches, the table, and the updates that were started and have not run.
  pub record Server : Type 0 where
    pub nodes : Map (Cached Node)
    pub entries : Map (Cached Entry)
    pub cas : C.State
    pub node_updates : List (Text × Cached Node)
    pub entry_updates : List (Text × Cached Entry)

  unfoldable pub start_server : C.State → Server
  start_server s = record {
    nodes = [];
    entries = [];
    cas = s;
    node_updates = [];
    entry_updates = [];
  }

  abbrev pub started : {A : Type 0} → Option A → List A → List A
  started none us = us
  started (some u) us = u ∷ us

  -- After a request.
  unfoldable pub after_request : Server → Served C codec opened → Server
  after_request p v = record {
    nodes = v.nodes;
    entries = v.entries;
    cas = v.cas;
    node_updates = started v.node_update p.node_updates;
    entry_updates = started v.entry_update p.entry_updates;
  }

  module _ (cas_serve : Request → Response) where
    pub data ServerStep (p : Server) (q : Server) : Type 0 where
      request :
          (now : ℕ) (r : Request)
          → q ≡ after_request p (nodes_serve C codec opened cas_serve now p.nodes p.entries p.cas r)
          → ServerStep p q
      update_node :
          (us vs : List (Text × Cached Node)) (name : Text) (o : Cached Node)
          (m : Map (Cached Node))
          → p.node_updates ≡ us ++ (name, o) ∷ vs
          → update_cache max_items name o p.nodes ≡ some m
          → q ≡ record p { nodes = m; node_updates = us ++ vs }
          → ServerStep p q
      update_entry :
          (us vs : List (Text × Cached Entry)) (name : Text) (o : Cached Entry)
          (m : Map (Cached Entry))
          → p.entry_updates ≡ us ++ (name, o) ∷ vs
          → update_entry_cache max_items name o p.entries ≡ some m
          → q ≡ record p { entries = m; entry_updates = us ++ vs }
          → ServerStep p q

    -- Some steps, one after_request another.
    pub data Reach (p : Server) : Server → Type 0 where
      here : Reach p p
      next : {q r : Server} → Reach p q → ServerStep q r → Reach p r
