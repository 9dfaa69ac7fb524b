-- ===== src/Table.antt =====
-- What dumbcaslib/common.go, cas.go and nodes.go declare of the tables: errors, enumeration entries,
-- and the interfaces Table, CasTable and NodesTable with what their clients rely on.
use dumbcas.Prelude.{
  ◌≢◌, refl, ◌⊎◌, inl, inr, Text, ◌==◌, String, ◌≡◌, Bool, true, false, [], ◌∷◌, if◌then◌else◌,
  List, Option,
}
use dumbcas.Prelude.{none, some}
use dumbcas.Prelude.Map.{contains, is_some}
use dumbcas.Entry.{Entry}

-- `failed format name` is an error made by fmt.Errorf; the text of the error below it is left out.
pub data Error : Type 0 where
  exist not_exist invalid closed_twice io : Error
  failed : String → Text → Error

pub data Result {ℓ} (A : Type ℓ) : Type ℓ where
  ok : A → Result A
  err : Error → Result A

infixl 10 ◌>>=◌
abbrev pub ◌>>=◌ {ℓ κ} : {A : Type ℓ} {B : Type κ} → Result A → (A → Result B) → Result B
ok a >>= f = f a
err e >>= f = err e

-- What reading an opened item to its end gives.
abbrev pub Reader : Type 0
Reader = Result Text

-- A value sent by Enumerate().
pub data Enumeration : Type 0 where
  item : Text → Enumeration
  broken : Error → Enumeration

-- The names among the values.
unfoldable pub items : List Enumeration → List Text
items [] = []
items (item k ∷ es) = k ∷ items es
items (broken e ∷ es) = items es

-- type Node of nodes.go
pub record Node : Type 0 where
  pub entry_name : Text
  pub comment : Text

-- encoding/json on the two types that are stored, and crypto/sha1 with encoding/hex.
pub record Codec : Type 0 where
  pub encode_node : Node → Option Text
  pub decode_node : Text → Option Node
  pub encode_entry : Entry → Option Text
  pub decode_entry : Text → Option Entry
  pub sha1 : Text → Text

-- type CasTable of cas.go, with the methods of Table. A method that changes the table returns it.
pub record CasTable : Type 1 where
  pub State : Type 0
  pub enumerate : State → List Enumeration × State
  pub open_item : State → Text → Result Reader
  pub remove : State → Text → Option Error × State
  pub add_entry : State → Reader → Text → Option Error × State
  pub set_fsck_bit : State → State
  pub get_fsck_bit : State → Bool
  pub clear_fsck_bit : State → State

-- type NodesTable of nodes.go
pub record NodesTable : Type 1 where
  pub State : Type 0
  pub enumerate : State → List Enumeration
  pub open_item : State → Text → Result Reader
  pub remove : State → Text → Option Error × State
  pub add_entry : State → Node → Text → Result Text × State

abbrev pub found : Result Reader → Option Reader
found (ok r) = some r
found (err e) = none

-- What a reader of the table sees under a name.
abbrev pub content : (C : CasTable) → C.State → Text → Option Reader
content C s k = found (C.open_item s k)

abbrev pub node_content : (N : NodesTable) → N.State → Text → Option Reader
node_content N s k = found (N.open_item s k)

pub record IsLawful (C : CasTable) : Type 0 where
  pub content-remove :
      (s : C.State) (k j : Text)
      → (C.remove s k).0 ≡ none
      → content C (C.remove s k).1 j ≡ (if k == j then none else content C s j)
  pub content-remove_failed :
      (s : C.State) (k j : Text) (e : Error)
      → (C.remove s k).0 ≡ some e
      → content C (C.remove s k).1 j ≡ content C s j
  pub content-add_entry :
      (s : C.State) (r : Reader) (k j : Text)
      → (C.add_entry s r k).0 ≡ none
      → content C (C.add_entry s r k).1 j ≡ (if k == j then some r else content C s j)
  -- What is refused because it exists can be opened. Reading a source does not fail by ErrExist.
  pub add_entry-exist :
      (s : C.State) (r : Reader) (k : Text)
      → (C.add_entry s r k).0 ≡ some exist
      → r ≢ err exist
      → is_some (content C s k) ≡ true
  -- Whatever the outcome, what could be opened stays.
  pub add_entry-keeps :
      (s : C.State) (r : Reader) (k j : Text) (old : Reader)
      → content C s j ≡ some old
      → content C (C.add_entry s r k).1 j ≡ some old
  pub content-enumerate : (s : C.State) (j : Text) → content C (C.enumerate s).1 j ≡ content C s j
  pub content-set_fsck_bit :
      (s : C.State) (j : Text) → content C (C.set_fsck_bit s) j ≡ content C s j
  pub content-clear_fsck_bit :
      (s : C.State) (j : Text) → content C (C.clear_fsck_bit s) j ≡ content C s j
  pub get-set_fsck_bit : (s : C.State) → C.get_fsck_bit (C.set_fsck_bit s) ≡ true
  pub get-clear_fsck_bit : (s : C.State) → C.get_fsck_bit (C.clear_fsck_bit s) ≡ false

-- Every item that can be opened is enumerated.
abbrev pub IsListed : (C : CasTable) → C.State → Type 0
IsListed C s =
    (k : Text) (r : Reader) → content C s k ≡ some r → contains (items (C.enumerate s).0) k ≡ true

pub record IsLawfulNodes (N : NodesTable) : Type 0 where
  pub content-remove :
      (s : N.State) (k j : Text)
      → (N.remove s k).0 ≡ none
      → node_content N (N.remove s k).1 j ≡ (if k == j then none else node_content N s j)
  pub content-remove_failed :
      (s : N.State) (k j : Text) (e : Error)
      → (N.remove s k).0 ≡ some e
      → node_content N (N.remove s k).1 j ≡ node_content N s j
  -- Only what cannot be opened cannot be removed.
  pub remove-absent :
      (s : N.State) (k : Text) (e : Error) → (N.remove s k).0 ≡ some e → node_content N s k ≡ none

pub Result-cases {ℓ} :
    {A : Type ℓ} (r : Result A) → ((a : A) × (r ≡ ok a)) ⊎ ((e : Error) × (r ≡ err e))
Result-cases (ok a) = inl (a, refl)
Result-cases (err e) = inr (e, refl)
