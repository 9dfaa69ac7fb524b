-- ===== src/Web/Server/Sound.antt =====
-- What holds of the caches of the server, whatever requests it gets and in whatever order it updates them.
use mathlib.Core.Path.{subst}
use dumbcas.Prelude.{ℕ, Text, ◌≡◌, refl, sym, List, [], ◌∷◌, ◌++◌, Option, none, some, All, arith}
use dumbcas.Prelude.Map.{lookup}
use dumbcas.Entry.{Entry}
use dumbcas.Table.{Result, Node, Codec, CasTable, IsLawful, content}
use dumbcas.Recent.{Cached}
use dumbcas.Recent.Kept.{IsKept, update_cache-IsKept}
use dumbcas.Web.{Request, Response}
use dumbcas.Web.NodesTable.{Opened, nodes_serve}
use dumbcas.Recent.Bounds.{update_cache-total}
use dumbcas.Web.NodesTable.Kept.{IsStored, IsLoaded, IsLoaded-content, nodes_serve-IsServed}
use dumbcas.Web.Server.{
  Server, start_server, started, after_request, ServerStep, request, update_node, update_entry,
  Reach, here, next,
}

module _ (C : CasTable) (L : IsLawful C) (codec : Codec) (opened : Text → Result Opened)
    (max_items : ℕ) where
  abbrev pub AllPending : {V : Type 0} → (Text → V → Type 0) → List (Text × Cached V) → Type 0
  AllPending P = All λ u. P u.0 u.1.object

  -- The caches are within their bound and have no name twice; a node in a cache, or to be added to
  -- one, is what the file of its name holds, and an entry what the table holds under its name.
  abbrev pub IsSound : Server C codec opened max_items → Type 0
  IsSound p =
      IsKept (IsStored codec opened) max_items p.nodes
      × IsKept (IsLoaded C codec p.cas) max_items p.entries
      × AllPending (IsStored codec opened) p.node_updates
      × AllPending (IsLoaded C codec p.cas) p.entry_updates

  started-AllPending :
      {V : Type 0} (P : Text → V → Type 0) (u : Option (Text × Cached V))
      (us : List (Text × Cached V))
      → ((k : Text) (o : Cached V) → u ≡ some (k, o) → P k o.object)
      → AllPending P us
      → AllPending P (started C codec opened max_items u us)
  started-AllPending P none us h a = a
  started-AllPending P (some (k, o)) us h a = (h k o refl, a)

  AllPending-remove :
      {V : Type 0} (P : Text → V → Type 0) (us vs : List (Text × Cached V)) (u : Text × Cached V)
      → AllPending P (us ++ u ∷ vs)
      → P u.0 u.1.object × AllPending P (us ++ vs)
  AllPending-remove P [] vs u (h, a) = (h, a)
  AllPending-remove P (w ∷ us) vs u (h, a) =
      let (this, left) = AllPending-remove P us vs u a in (this, (h, left))

  AllPending-content :
      (s s' : C.State) (us : List (Text × Cached Entry))
      → ((k : Text) → content C s' k ≡ content C s k)
      → AllPending (IsLoaded C codec s) us
      → AllPending (IsLoaded C codec s') us
  AllPending-content s s' [] c a = tt
  AllPending-content s s' ((k, o) ∷ us) c (h, a) =
      (IsLoaded-content C codec s s' k o.object (c k) h, AllPending-content s s' us c a)

  ServerStep-IsSound :
      (cas_serve : Request → Response) (p q : Server C codec opened max_items)
      → ServerStep C codec opened max_items cas_serve p q
      → IsSound p
      → IsSound q
  unfolding after_request
  ServerStep-IsSound cas_serve p q (request now r e) (n, m, nu, eu) =
      let v = nodes_serve C codec opened cas_serve now p.nodes p.entries p.cas r in
      let (n', m', nu', eu', same) =
        nodes_serve-IsServed C L codec opened max_items p.cas cas_serve now p.nodes p.entries r n
          m in
      subst IsSound (sym e) (
        n',
        m',
        started-AllPending (IsStored codec opened) v.node_update p.node_updates nu' nu,
        started-AllPending (IsLoaded C codec v.cas) v.entry_update p.entry_updates eu'
            (AllPending-content p.cas v.cas p.entry_updates same eu),
      )
  ServerStep-IsSound cas_serve p q (update_node us vs name o m' u made e) (n, m, nu, eu) =
      let (stored, left) =
        AllPending-remove (IsStored codec opened) us vs (name, o)
          (subst (AllPending (IsStored codec opened)) u nu) in
      subst IsSound (sym e) (
        update_cache-IsKept (IsStored codec opened) max_items name o p.nodes m' n stored made,
        m,
        left,
        eu,
      )
  ServerStep-IsSound cas_serve p q (update_entry us vs name o m' u made e) (n, m, nu, eu) =
      let (loaded, left) =
        AllPending-remove (IsLoaded C codec p.cas) us vs (name, o)
          (subst (AllPending (IsLoaded C codec p.cas)) u eu) in
      subst IsSound (sym e) (
        n,
        update_cache-IsKept (IsLoaded C codec p.cas) max_items name o p.entries m' m loaded made,
        nu,
        left,
      )

  start_server-IsSound : (s : C.State) → IsSound (start_server C codec opened max_items s)
  unfolding start_server lookup
  start_server-IsSound s = ((omega arith, tt, λ k o h. cc), (omega arith, tt, λ k o h. cc), tt, tt)

  -- Whatever requests the server on a lawful table of the objects gets, and in whatever order the
  -- goroutines update its caches: the caches are within their bound and have no name twice, and
  -- each node that they hold or are to hold is what the file of its name holds, each entry what the
  -- table holds under its name.
  pub Reach-IsSound :
      (cas_serve : Request → Response) (s : C.State) (p : Server C codec opened max_items)
      → Reach C codec opened max_items cas_serve (start_server C codec opened max_items s) p
      → IsSound p
  Reach-IsSound cas_serve s p here = start_server-IsSound s
  Reach-IsSound cas_serve s p (next before last) =
      ServerStep-IsSound cas_serve _ p last (Reach-IsSound cas_serve s _ before)

  -- After any requests and updates of the server on a lawful table of the objects, an update of the
  -- cache of the nodes that is waiting can run: its loop ends, the update is gone, and the caches
  -- are as they should be again.
  pub Reach-updates :
      (cas_serve : Request → Response) (s : C.State) (p : Server C codec opened max_items)
      (us vs : List (Text × Cached Node)) (name : Text) (o : Cached Node)
      → Reach C codec opened max_items cas_serve (start_server C codec opened max_items s) p
      → p.node_updates ≡ us ++ (name, o) ∷ vs
      → (q : Server C codec opened max_items) × ServerStep C codec opened max_items cas_serve p q
        × (q.node_updates ≡ us ++ vs)
        × IsSound q
  Reach-updates cas_serve s p us vs name o reached waiting =
      let sound = Reach-IsSound cas_serve s p reached in
      let (few, once, h) = sound.0 in
      let (m, made, less, once') = update_cache-total max_items name o p.nodes once few in
      let stepped = update_node us vs name o m waiting made refl in
      (
        record p { nodes = m; node_updates = us ++ vs },
        stepped,
        refl,
        ServerStep-IsSound cas_serve p _ stepped sound,
      )
