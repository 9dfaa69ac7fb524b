-- ===== src/Gc/Marks.antt =====
-- What the loops of gc.go compute, against a description of the objects that the nodes refer to.
pub mod Archived
use dumbcas.Prelude.{Text, ◌==◌, eq_iff, Bool, true, false, not, ◌&&◌, ◌||◌, if◌then◌else◌}
use dumbcas.Prelude.{inl, inr, ◌≡◌, refl, List, [], ◌∷◌, Option, none, some, arith}
use dumbcas.Prelude.Map.{Map, lookup, insert, contains, lookup-insert, NodupKeys, insert-NodupKeys}
use dumbcas.Entry.{Entry, entry, Files, nil_map, made, Children, end, child}
use dumbcas.Entry.{tag_recurse, tag_files, tag_children}
use dumbcas.Table.{ok, err, Enumeration, item, broken, items, Codec, CasTable}
use dumbcas.Table.{Result-cases, NodesTable}
use dumbcas.Nodes.{load_reader_as_json, load_entry}
use dumbcas.Gc.{collect, orphans, mark_node, mark_nodes}

-- Whether a tree names an object.
unfoldable mutual
  pub refers : Entry → Text → Bool
  refers (entry h n fs) k = (not (h == []) && (h == k)) || refers_files fs k

  refers_files : Files → Text → Bool
  refers_files nil_map k = false
  refers_files (made cs) k = refers_children cs k

  refers_children : Children → Text → Bool
  refers_children end k = false
  refers_children (child p e cs) k = refers e k || refers_children cs k

mutual
  unfolding tag_recurse refers

  lookup-tag :
      (e : Entry) (m : Map Bool) (k : Text)
      → lookup k (tag_recurse m e) ≡ (if refers e k then some true else lookup k m)
  lookup-tag (entry h n fs) m k = ground (
    arith,
    lookup-tag_files fs m k,
    lookup-tag_files fs (insert h true m) k,
    lookup-insert h k true m,
  )

  lookup-tag_files :
      (fs : Files) (m : Map Bool) (k : Text)
      → lookup k (tag_files m fs) ≡ (if refers_files fs k then some true else lookup k m)
  lookup-tag_files nil_map m k = refl
  lookup-tag_files (made cs) m k = lookup-tag_children cs m k

  lookup-tag_children :
      (cs : Children) (m : Map Bool) (k : Text)
      → lookup k (tag_children m cs) ≡ (if refers_children cs k then some true else lookup k m)
  lookup-tag_children end m k = refl
  lookup-tag_children (child p e cs) m k =
      ground (arith, lookup-tag_children cs (tag_recurse m e) k, lookup-tag e m k)

-- tagRecurse marks the objects that the tree names and touches no other mark.
pub lookup-tag_recurse :
    (e : Entry) (m : Map Bool) (k : Text)
    → lookup k (tag_recurse m e) ≡ (if refers e k then some true else lookup k m)
lookup-tag_recurse e m k = lookup-tag e m k

mutual
  unfolding tag_recurse

  tag-NodupKeys : (e : Entry) (m : Map Bool) → NodupKeys m → NodupKeys (tag_recurse m e)
  tag-NodupKeys (entry h n fs) m u =
      tag_files-NodupKeys fs _ (ground (arith, insert-NodupKeys h true m u))

  tag_files-NodupKeys : (fs : Files) (m : Map Bool) → NodupKeys m → NodupKeys (tag_files m fs)
  tag_files-NodupKeys nil_map m u = u
  tag_files-NodupKeys (made cs) m u = tag_children-NodupKeys cs m u

  tag_children-NodupKeys :
      (cs : Children) (m : Map Bool) → NodupKeys m → NodupKeys (tag_children m cs)
  tag_children-NodupKeys end m u = u
  tag_children-NodupKeys (child p e cs) m u = tag_children-NodupKeys cs _ (tag-NodupKeys e m u)

pub tag_recurse-NodupKeys : (e : Entry) (m : Map Bool) → NodupKeys m → NodupKeys (tag_recurse m e)
tag_recurse-NodupKeys e m u = tag-NodupKeys e m u

-- After the first loop exactly the enumerated objects have a mark, and it is false.
pub lookup-collect :
    (es : List Enumeration) (m m' : Map Bool) (k : Text)
    → collect es m ≡ ok m'
    → lookup k m' ≡ (if contains (items es) k then some false else lookup k m)
unfolding collect contains items
lookup-collect [] m m' k h = ground arith
lookup-collect (item j ∷ es) m m' k h =
    ground (arith, lookup-collect es (insert j false m) m' k h, lookup-insert j k false m)
lookup-collect (broken e ∷ es) m m' k h = cc

pub collect-NodupKeys :
    (es : List Enumeration) (m m' : Map Bool) → collect es m ≡ ok m' → NodupKeys m → NodupKeys m'
unfolding collect
collect-NodupKeys [] m m' h u = ground arith
collect-NodupKeys (item j ∷ es) m m' h u =
    collect-NodupKeys es (insert j false m) m' h (insert-NodupKeys j false m u)
collect-NodupKeys (broken e ∷ es) m m' h u = cc

abbrev is_false : Option Bool → Bool
is_false (some false) = true
is_false _ = false

not-contains-orphans :
    (m : Map Bool) (k : Text) → lookup k m ≡ none → contains (orphans m) k ≡ false
unfolding orphans contains lookup
not-contains-orphans [] k h = refl
not-contains-orphans ((j, t) ∷ m) k h = ground (arith, not-contains-orphans m k)

-- The orphans are the objects whose mark is false.
pub contains-orphans :
    (m : Map Bool) (k : Text) → NodupKeys m → contains (orphans m) k ≡ is_false (lookup k m)
unfolding orphans contains lookup
contains-orphans [] k u = refl
contains-orphans ((j, t) ∷ m) k (fresh, u) =
    ground (arith, eq_iff j k, contains-orphans m k u, not-contains-orphans m k)

module _ (C : CasTable) (N : NodesTable) (codec : Codec) where
  -- Whether the stored tree `hash` names the object `k`.
  entry_refers : C.State → Text → Text → Bool
  entry_refers s hash k = elim (C.open_item s hash) [
    | err e ↦ false
    | ok f ↦ elim (load_reader_as_json codec.decode_entry f) [ err e ↦ false | ok e ↦ refers e k ]
  ]

  -- Whether the node `name` needs the object `k`: its tree, or an object that the tree names.
  node_refers : C.State → N.State → Text → Text → Bool
  node_refers s n name k = elim (N.open_item n name) [
    | err e ↦ false
    | ok f ↦ elim (load_reader_as_json codec.decode_node f) [
      | err e ↦ false
      | ok node ↦ (node.entry_name == k) || entry_refers s node.entry_name k
    ]
  ]

  any_refers : C.State → N.State → List Text → Text → Bool
  any_refers s n [] k = false
  any_refers s n (name ∷ names) k = node_refers s n name k || any_refers s n names k

  -- Whether some enumerated node needs the object.
  unfoldable pub is_live : C.State → N.State → Text → Bool
  unfolding entry_refers node_refers any_refers items
  is_live s n k = any_refers s n (items (N.enumerate n)) k

  lookup-mark_node :
      (s : C.State) (n : N.State) (m m' : Map Bool) (name k : Text)
      → (mark_node C N codec s n m name).0 ≡ ok m'
      → ((mark_node C N codec s n m name).1 ≡ s)
        × (lookup k m' ≡ (if node_refers s n name k then some true else lookup k m))
  unfolding mark_node node_refers entry_refers load_entry load_reader_as_json
  lookup-mark_node s n m m' name k h = grind (arith, lookup-tag_recurse, lookup-insert)

  lookup-mark_nodes :
      (n : N.State) (es : List Enumeration) (s : C.State) (m m' : Map Bool) (k : Text)
      → (mark_nodes C N codec n es m s).0 ≡ ok m'
      → ((mark_nodes C N codec n es m s).1 ≡ s)
        × (lookup k m' ≡ (if any_refers s n (items es) k then some true else lookup k m))
  unfolding mark_nodes any_refers items
  lookup-mark_nodes n [] s m m' k h = ground arith
  lookup-mark_nodes n (broken e ∷ es) s m m' k h = cc
  lookup-mark_nodes n (item name ∷ es) s m m' k h =
      elim (Result-cases (mark_node C N codec s n m name).0) [
        | inl (m1, e) ↦ ground (
          arith,
          lookup-mark_node s n m m1 name k e,
          lookup-mark_nodes n es (mark_node C N codec s n m name).1 m1 m' k,
        )
        | inr (why, e) ↦ ground arith
      ]

  mark_node-NodupKeys :
      (s : C.State) (n : N.State) (m m' : Map Bool) (name : Text)
      → (mark_node C N codec s n m name).0 ≡ ok m'
      → NodupKeys m
      → NodupKeys m'
  unfolding mark_node
  mark_node-NodupKeys s n m m' name h u = grind (arith, tag_recurse-NodupKeys, insert-NodupKeys)

  mark_nodes-NodupKeys :
      (n : N.State) (es : List Enumeration) (s : C.State) (m m' : Map Bool)
      → (mark_nodes C N codec n es m s).0 ≡ ok m'
      → NodupKeys m
      → NodupKeys m'
  unfolding mark_nodes
  mark_nodes-NodupKeys n [] s m m' h u = ground arith
  mark_nodes-NodupKeys n (broken e ∷ es) s m m' h u = cc
  mark_nodes-NodupKeys n (item name ∷ es) s m m' h u =
      elim (Result-cases (mark_node C N codec s n m name).0) [
        | inl (m1, e) ↦ ground (
          arith,
          mark_node-NodupKeys s n m m1 name e u,
          mark_nodes-NodupKeys n es (mark_node C N codec s n m name).1 m1 m',
        )
        | inr (why, e) ↦ ground arith
      ]

  -- The orphans left by a mark phase that went through are the enumerated objects that no node needs.
  pub contains-orphans_marked :
      (n : N.State) (listed : List Enumeration) (s : C.State) (m m' : Map Bool) (k : Text)
      → collect listed [] ≡ ok m
      → (mark_nodes C N codec n (N.enumerate n) m s).0 ≡ ok m'
      → ((mark_nodes C N codec n (N.enumerate n) m s).1 ≡ s)
        × (contains (orphans m') k ≡ (contains (items listed) k && not (is_live s n k)))
  unfolding lookup is_live
  contains-orphans_marked n listed s m m' k h h' = ground (
    arith,
    lookup-collect listed [] m k h,
    lookup-mark_nodes n (N.enumerate n) s m m' k h',
    contains-orphans m' k
        (mark_nodes-NodupKeys n (N.enumerate n) s m m' h' (collect-NodupKeys listed [] m h tt)),
  )
