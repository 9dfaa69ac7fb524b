-- ===== src/Fsck.antt =====
-- The command of fsck.go: trash the objects whose name is not the sha-1 of their content, and the
-- nodes that do not name a tree; and sha1Reader of common.go.
pub mod Archived
pub mod Objects
pub mod References
use dumbcas.Prelude.{ℕ, ◌+◌, Text, ◌==◌, Bool, true, false, ◌&&◌, ◌||◌, leb, eqb}
use dumbcas.Prelude.{List, [], ◌∷◌, none, some, length}
use dumbcas.Table.{failed, Result, ok, err, Reader, Enumeration, item, broken}
use dumbcas.Table.{Codec, CasTable, NodesTable}
use dumbcas.Nodes.{load_reader_as_json}
use dumbcas.Common.{Application, Tables, parse}

-- What the log lines at the end of each loop report.
pub record Report : Type 0 where
  pub scanned : ℕ
  pub corrupted : ℕ

abbrev pub no_report : Report
no_report = record { scanned = 0; corrupted = 0 }

abbrev pub good : Report → Report
good r = record r { scanned = r.scanned + 1 }

abbrev pub bad : Report → Report
bad r = record { scanned = r.scanned + 1; corrupted = r.corrupted + 1 }

-- [a-f0-9]
unfoldable pub is_hex : ℕ → Bool
is_hex c = (leb b'a' c && leb c b'f') || (leb b'0' c && leb c b'9')

unfoldable pub all_hex : Text → Bool
unfolding is_hex
all_hex [] = true
all_hex (c ∷ cs) = is_hex c && all_hex cs

-- resha1, "^([a-f0-9]{40})$"
unfoldable pub is_hash : Text → Bool
unfolding all_hex
is_hash h = eqb (length h) 40 && all_hex h

unfoldable pub sha1_reader : Codec → Reader → Result Text
sha1_reader codec (ok bytes) = ok (codec.sha1 bytes)
sha1_reader codec (err e) = err e

module _ (C : CasTable) (codec : Codec) where
  -- The first loop.
  unfoldable pub check_objects : List Enumeration → Report → C.State → Result Report × C.State
  unfolding sha1_reader
  check_objects [] r s = (ok r, s)
  check_objects (broken e ∷ es) r s = check_objects es r s
  check_objects (item k ∷ es) r s = elim (C.open_item s k) [
    | err e ↦ (err (failed "Failed to open %s: %s" k), s)
    | ok f ↦ elim (sha1_reader codec f) [
      | err e ↦ (err (failed "Aborting! Failed to calcultate the sha1 of %s: %s." k), s)
      | ok actual ↦ elim (actual == k) [
        | true ↦ check_objects es (good r) s
        | false ↦
            let (e, s') = C.remove s k in
            elim e [
              | none ↦ check_objects es (bad r) s'
              | some why ↦ (err (failed "Failed to trash object %s: %s" k), s')
            ]
      ]
    ]
  ]

module _ (N : NodesTable) (codec : Codec) where
  -- Whether a node can be read and names a tree.
  unfoldable pub node_is_valid : Result Reader → Bool
  unfolding is_hash
  node_is_valid (err e) = false
  node_is_valid (ok f) = elim (load_reader_as_json codec.decode_node f) [
    | err e ↦ false
    | ok node ↦ is_hash node.entry_name
  ]

  -- The second loop. The three failures of a round do the same; the error of Remove is dropped.
  unfoldable pub check_nodes : List Enumeration → Report → N.State → Report × N.State
  unfolding node_is_valid
  check_nodes [] r n = (r, n)
  check_nodes (broken e ∷ es) r n = check_nodes es r n
  check_nodes (item k ∷ es) r n = elim (node_is_valid (N.open_item n k)) [
    | true ↦ check_nodes es (good r) n
    | false ↦ check_nodes es (bad r) (N.remove n k).1
  ]

module _ (C : CasTable) (N : NodesTable) (codec : Codec) where
  -- The reports, or the error, and the tables afterwards.
  pub record Outcome : Type 0 where
    pub reports : Result (Report × Report)
    pub tables : Tables C N

  finish : N.State → Result Report × C.State → Outcome
  finish n (err e, s) = record { reports = err e; tables = record { cas = s; nodes = n } }
  finish n (ok r, s) =
      let (r', n') = check_nodes N codec (N.enumerate n) no_report n in
      record { reports = ok (r, r'); tables = record { cas = C.clear_fsck_bit s; nodes = n' } }

  -- main after Parse.
  unfoldable pub fsck : Tables C N → Outcome
  unfolding finish
  fsck t = let (es, s) = C.enumerate t.cas in finish t.nodes (check_objects C codec es no_report s)

  unfoldable pub fsck_main : Application C N → Text → Result Outcome
  fsck_main app root = elim (parse C N app root true) [ err e ↦ err e | ok t ↦ ok (fsck t) ]
