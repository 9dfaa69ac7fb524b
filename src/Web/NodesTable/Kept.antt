-- ===== src/Web/NodesTable/Kept.antt =====
-- What ServeHTTP of nodesTable leaves in the caches, and what it is to add to them.
use mathlib.Core.Path.{subst}
use dumbcas.Prelude.{
  ℕ, Text, ◌==◌, true, false, Bool, not, ◌&&◌, ◌≡◌, refl, sym, ap, ◌∙◌, List, [], ◌∷◌, ◌++◌, Option,
  none, some, arith,
}
use dumbcas.Prelude.{inl, inr, Option-cases, if◌then◌else◌, drop, has_prefix}
use dumbcas.Prelude.Map.{Map, lookup}
use dumbcas.Prelude.FilePath.{slash, trim_slashes, has_suffix_slash}
use dumbcas.Entry.{Entry}
use dumbcas.Table.{Error, Result, ok, err, Result-cases, Node, Codec, CasTable, IsLawful, content}
use dumbcas.Nodes.{load_reader_as_json}
use dumbcas.Recent.{Cached, find_cached}
use dumbcas.Recent.Kept.{IsKept, insert-IsKept, find_cached-IsKept}
use dumbcas.Recent.Entries.{
  Got, read_tree, get_entry, get_entry-hit, get_entry-miss, get_entry-failed,
}
use dumbcas.Web.{Request, Response, http_error, entry_serve}
use dumbcas.Web.NodesTable.{
  Opened, regular, directory, FoundNode, node_in, node_from, get_node, Served, serve_obj,
  serve_node, browse, serve_stored, nodes_serve, updated, joined, pieces,
}

module _ (codec : Codec) (opened : Text → Result Opened) where
  -- A node is what the file of its name holds.
  unfoldable pub IsStored : Text → Node → Type 0
  IsStored key node =
      (r : Result Text) × (opened (trim_slashes key) ≡ ok (regular r))
      × (load_reader_as_json codec.decode_node r ≡ ok node)

  IsStored-regular :
      (key : Text) (node : Node) (r : Result Text)
      → opened (trim_slashes key) ≡ ok (regular r)
      → load_reader_as_json codec.decode_node r ≡ ok node
      → IsStored key node
  unfolding IsStored
  IsStored-regular key node r o l = (r, o, l)

  node_in-found :
      (key rest : Text) (r : Result Node) (f : FoundNode) (node : Node)
      → node_in codec opened key rest r ≡ ok f
      → f.found ≡ some node
      → (f.key ≡ key) × (r ≡ ok node)
  unfolding node_in
  node_in-found key rest (ok n) f node h g = ground (arith, h, g)
  node_in-found key rest (err e) f node h g = let no : none ≡ some node = ground (arith, h, g) in cc

  node_from-directory :
      (url p : Text) (ps : List Text) (key : Text) (names : List Text)
      → opened (trim_slashes (key ++ p)) ≡ ok (directory names)
      → node_from codec opened url (p ∷ ps) key ≡ node_from codec opened url ps (key ++ p)
  unfolding node_from
  node_from-directory url p ps key names o = rw (node_from, o) refl

  node_from-regular :
      (url p : Text) (ps : List Text) (key : Text) (r : Result Text)
      → opened (trim_slashes (key ++ p)) ≡ ok (regular r)
      → node_from codec opened url (p ∷ ps) key
        ≡ node_in codec opened (key ++ p) (joined ps) (load_reader_as_json codec.decode_node r)
  unfolding node_from
  node_from-regular url p ps key r o = rw (node_from, o) refl

  opened-IsStored :
      (url p : Text) (ps : List Text) (key : Text) (f : FoundNode) (node : Node) (file : Opened)
      → (node_from codec opened url ps (key ++ p) ≡ ok f → IsStored f.key node)
      → opened (trim_slashes (key ++ p)) ≡ ok file
      → node_from codec opened url (p ∷ ps) key ≡ ok f
      → f.found ≡ some node
      → IsStored f.key node
  opened-IsStored url p ps key f node (directory names) deeper o h g =
      deeper (sym (node_from-directory url p ps key names o) ∙ h)
  opened-IsStored url p ps key f node (regular r) deeper o h g =
      let (at, loaded) =
        node_in-found (key ++ p) (joined ps) (load_reader_as_json codec.decode_node r) f node
          (sym (node_from-regular url p ps key r o) ∙ h) g in
      subst (λ k. IsStored k node) (sym at) (IsStored-regular (key ++ p) node r o loaded)

  node_from-IsStored :
      (url : Text) (ps : List Text) (key : Text) (f : FoundNode) (node : Node)
      → node_from codec opened url ps key ≡ ok f
      → f.found ≡ some node
      → IsStored f.key node
  unfolding node_from
  node_from-IsStored url [] key f node h g = let no : none ≡ some node = ground (arith, h, g) in cc
  node_from-IsStored url (p ∷ ps) key f node h g =
      elim (Result-cases (opened (trim_slashes (key ++ p)))) [
        | inr (e, o) ↦ let no : true ≡ false = ground (arith, h, o) in cc
        | inl (file, o) ↦
            opened-IsStored url p ps key f node file
              (λ h'. node_from-IsStored url ps (key ++ p) f node h' g) o h g
      ]

  get_node-IsStored :
      (url : Text) (f : FoundNode) (node : Node)
      → get_node codec opened url ≡ ok f
      → f.found ≡ some node
      → IsStored f.key node
  unfolding get_node
  get_node-IsStored url f node h g = node_from-IsStored url (pieces url) [] f node h g

module _ (C : CasTable) (codec : Codec) where
  -- An entry is what the table holds under its name.
  unfoldable pub IsLoaded : C.State → Text → Entry → Type 0
  IsLoaded s name e = read_tree C codec s name ≡ ok e

  pub IsLoaded-content :
      (s s' : C.State) (name : Text) (e : Entry)
      → content C s' name ≡ content C s name
      → IsLoaded s name e
      → IsLoaded s' name e
  unfolding IsLoaded read_tree
  IsLoaded-content s s' name e same h = elim (Result-cases (C.open_item s name)) [
    | inr (w, o) ↦ ground (arith, o, h)
    | inl (f, o) ↦ elim (Result-cases (C.open_item s' name)) [
      | inr (w, o') ↦ ground (arith, o, o', same, h)
      | inl (f', o') ↦ ground (arith, o, o', same, h)
    ]
  ]

  -- What getEntry gives for a name.
  abbrev IsGot : ℕ → C.State → Text → Got C codec → Type 0
  IsGot max_items s name g =
      IsKept (IsLoaded s) max_items g.cache
      × ((o : Cached Entry) → g.update ≡ some o → IsLoaded s name o.object)

  get_entry-IsGot :
      (max_items now : ℕ) (m : Map (Cached Entry)) (s : C.State) (name : Text)
      → IsKept (IsLoaded s) max_items m
      → IsGot max_items s name (get_entry C codec now m s name)
  unfolding IsLoaded
  get_entry-IsGot max_items now m s name k = elim (Option-cases (lookup name m)) [
    | inr (o, hit) ↦
        subst (IsGot max_items s name) (sym (get_entry-hit C codec now m s name o hit)) (
          insert-IsKept (IsLoaded s) max_items name o (record o { last_access = now }) m k hit refl,
          λ p h. cc,
        )
    | inl miss ↦ elim (Result-cases (read_tree C codec s name)) [
      | inl (e, r) ↦
          subst (IsGot max_items s name) (sym (get_entry-miss C codec now m s name e miss r))
            (k, λ p h. ground (arith, h, r))
      | inr (why, r) ↦
          subst (IsGot max_items s name) (sym (get_entry-failed C codec now m s name why miss r))
            (k, λ p h. cc)
    ]
  ]

module _ (C : CasTable) (L : IsLawful C) (codec : Codec) (opened : Text → Result Opened)
    (max_items : ℕ) (s0 : C.State) where
  -- What is served leaves in the caches, and adds to them.
  abbrev pub IsServed : Served C codec opened → Type 0
  IsServed v =
      IsKept (IsStored codec opened) max_items v.nodes
      × IsKept (IsLoaded C codec v.cas) max_items v.entries
      × ((k : Text) (o : Cached Node)
          → v.node_update ≡ some (k, o)
          → IsStored codec opened k o.object)
      × ((k : Text) (o : Cached Entry)
          → v.entry_update ≡ some (k, o)
          → IsLoaded C codec v.cas k o.object)
      × ((k : Text) → content C v.cas k ≡ content C s0 k)

  IsServed-if :
      (b : Bool) (v w : Served C codec opened)
      → IsServed v
      → IsServed w
      → IsServed (if b then v else w)
  IsServed-if true v w hv hw = hv
  IsServed-if false v w hv hw = hw

  IsKept-set_fsck_bit :
      (s : C.State) (m : Map (Cached Entry))
      → IsKept (IsLoaded C codec s) max_items m
      → IsKept (IsLoaded C codec (C.set_fsck_bit s)) max_items m
  IsKept-set_fsck_bit s m (few, once, h) = (
    few,
    once,
    λ k o f.
        IsLoaded-content C codec s (C.set_fsck_bit s) k o.object (L.content-set_fsck_bit s k)
          (h k o f),
  )

  module _ (cas_serve : Request → Response) (now : ℕ) where
    updated-IsLoaded :
        (s : C.State) (name : Text) (u : Option (Cached Entry))
        → ((o : Cached Entry) → u ≡ some o → IsLoaded C codec s name o.object)
        → (k : Text) (o : Cached Entry) → updated C codec opened cas_serve now name u ≡ some (k, o)
        → IsLoaded C codec s k o.object
    unfolding updated
    updated-IsLoaded s name none h k o e = cc
    updated-IsLoaded s name (some p) h k o e =
        let at : name ≡ k = cc in
        let same : p ≡ o = cc in subst (λ j. IsLoaded C codec s j o.object) at (h o (ap some same))

    -- The caches after getEntry.
    abbrev after_entry : Served C codec opened → Node → Served C codec opened
    after_entry v node =
        let got = get_entry C codec now v.entries v.cas node.entry_name in
        record v {
          entries = got.cache;
          entry_update = updated C codec opened cas_serve now node.entry_name got.update;
        }

    serve_obj-ok :
        (v : Served C codec opened) (r : Request) (node : Node) (tree : Entry)
        → (get_entry C codec now v.entries v.cas node.entry_name).loaded ≡ ok tree
        → serve_obj C codec opened cas_serve now v r node
          ≡ record (after_entry v node) { response = entry_serve cas_serve tree r }
    unfolding serve_obj
    serve_obj-ok v r node tree l = rw (serve_obj, l) refl

    serve_obj-err :
        (v : Served C codec opened) (r : Request) (node : Node) (why : Error)
        → (get_entry C codec now v.entries v.cas node.entry_name).loaded ≡ err why
        → serve_obj C codec opened cas_serve now v r node ≡ record (after_entry v node) {
          cas = C.set_fsck_bit v.cas;
          response = http_error 501 "Internal failure: Failed to load Entry %s: %s" node.entry_name;
        }
    unfolding serve_obj
    serve_obj-err v r node why l = rw (serve_obj, l) refl

    serve_obj-IsServed :
        (v : Served C codec opened) (r : Request) (node : Node)
        → IsServed v
        → IsServed (serve_obj C codec opened cas_serve now v r node)
    serve_obj-IsServed v r node (n, e, nu, eu, c) =
        let got = get_entry C codec now v.entries v.cas node.entry_name in
        let (kept, new) = get_entry-IsGot C codec max_items now v.entries v.cas node.entry_name e in
        let new' = updated-IsLoaded v.cas node.entry_name got.update new in
        elim (Result-cases got.loaded) [
          | inl (tree, l) ↦
              subst IsServed (sym (serve_obj-ok v r node tree l)) (n, kept, nu, new', c)
          | inr (why, l) ↦ subst IsServed (sym (serve_obj-err v r node why l)) (
            n,
            IsKept-set_fsck_bit v.cas got.cache kept,
            nu,
            (λ k o u.
                IsLoaded-content C codec v.cas (C.set_fsck_bit v.cas) k o.object
                  (L.content-set_fsck_bit v.cas k) (new' k o u)),
            λ k. L.content-set_fsck_bit v.cas k ∙ c k,
          )
        ]

    serve_node-IsServed :
        (v : Served C codec opened) (r : Request) (node : Node) (rest : Text)
        → IsServed v
        → IsServed (serve_node C codec opened cas_serve now v r node rest)
    unfolding serve_node
    serve_node-IsServed v r node rest h =
        IsServed-if (rest == [] && not (has_suffix_slash r.path)) _ _ h
          (serve_obj-IsServed v (record r { path = slash ∷ rest }) node h)

    serve_stored-none :
        (v : Served C codec opened) (r : Request) (name : Text) (f : FoundNode)
        → f.found ≡ none
        → serve_stored C codec opened cas_serve now v r name (ok f)
          ≡ browse C codec opened cas_serve now v r name
    unfolding serve_stored
    serve_stored-none v r name f g = rw (serve_stored, g) refl

    -- What is to be added for a node that was read.
    abbrev with_node : Served C codec opened → FoundNode → Node → Served C codec opened
    with_node v f node = record v {
      node_update = some (f.key, record { object = node; last_access = now });
    }

    serve_stored-some :
        (v : Served C codec opened) (r : Request) (name : Text) (f : FoundNode) (node : Node)
        → f.found ≡ some node
        → serve_stored C codec opened cas_serve now v r name (ok f)
          ≡ serve_node C codec opened cas_serve now (with_node v f node) r node f.rest
    unfolding serve_stored
    serve_stored-some v r name f node g = rw (serve_stored, g) refl

    with_node-IsServed :
        (v : Served C codec opened) (f : FoundNode) (node : Node)
        → IsStored codec opened f.key node
        → IsServed v
        → IsServed (with_node v f node)
    with_node-IsServed v f node stored (n, e, nu, eu, c) = (
      n,
      e,
      λ k o h.
          let at : f.key ≡ k = cc in
          let same : node ≡ o.object = ground (arith, h) in
          subst (λ m. IsStored codec opened k m) same
            (subst (λ j. IsStored codec opened j node) at stored),
      eu,
      c,
    )

    serve_stored-IsServed :
        (v : Served C codec opened) (r : Request) (name : Text) (g : Result FoundNode)
        → ((f : FoundNode) (node : Node)
            → g ≡ ok f
            → f.found ≡ some node
            → IsStored codec opened f.key node)
        → IsServed v
        → IsServed (serve_stored C codec opened cas_serve now v r name g)
    unfolding serve_stored browse
    serve_stored-IsServed v r name (err e) stored h = h
    serve_stored-IsServed v r name (ok f) stored h = elim (Option-cases f.found) [
      | inl g ↦ subst IsServed (sym (serve_stored-none v r name f g)) h
      | inr (node, g) ↦ subst IsServed (sym (serve_stored-some v r name f node g)) (
          serve_node-IsServed (with_node v f node) r node f.rest
            (with_node-IsServed v f node (stored f node refl g) h))
    ]

    start_of : Map (Cached Node) → Map (Cached Entry) → Request → Served C codec opened
    start_of nodes entries r = record {
      response = http_error 501 "Internal failure. nodesTable received an invalid url: " r.path;
      nodes = nodes;
      entries = entries;
      cas = s0;
      node_update = none;
      entry_update = none;
    }

    looked_up-IsServed :
        (v : Served C codec opened) (r : Request) (name rest : Text) (o : Option Node)
        → IsServed v
        → IsServed (elim o [
          | some node ↦ serve_node C codec opened cas_serve now v r node rest
          | none ↦ serve_stored C codec opened cas_serve now v r name (get_node codec opened name)
        ])
    looked_up-IsServed v r name rest (some node) h = serve_node-IsServed v r node rest h
    looked_up-IsServed v r name rest none h =
        serve_stored-IsServed v r name (get_node codec opened name)
          (λ f node. get_node-IsStored codec opened name f node) h

    -- What ServeHTTP leaves, from caches that are kept.
    pub nodes_serve-IsServed :
        (nodes : Map (Cached Node)) (entries : Map (Cached Entry)) (r : Request)
        → IsKept (IsStored codec opened) max_items nodes
        → IsKept (IsLoaded C codec s0) max_items entries
        → IsServed (nodes_serve C codec opened cas_serve now nodes entries s0 r)
    unfolding nodes_serve start_of
    nodes_serve-IsServed nodes entries r n e =
        let name = drop 1 r.path in
        let looked = find_cached now name nodes in
        let start = start_of looked.cache entries r in
        let kept : IsServed start = (
          find_cached-IsKept (IsStored codec opened) max_items now name nodes n,
          e,
          (λ k o h. cc),
          (λ k o h. cc),
          λ k. refl,
        ) in
        IsServed-if (has_prefix r.path (slash ∷ [])) _ _
          (looked_up-IsServed start r name looked.rest looked.object kept)
          (n, e, (λ k o h. cc), (λ k o h. cc), λ k. refl)
