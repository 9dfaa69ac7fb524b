-- ===== src/Fsck/References.antt =====
-- What the second loop of fsck.go does to the nodes, and the format of their references.
use dumbcas.Prelude.{Bool, false}
use dumbcas.Prelude.{Option, none, some}
use dumbcas.Table.{ok, err, Reader, Codec}
use dumbcas.Nodes.{load_reader_as_json}
use dumbcas.Fsck.{is_hash}

-- Whether a node that was read names a tree by forty hexadecimal digits.
unfoldable pub is_reference : Codec → Option Reader → Bool
is_reference codec none = false
is_reference codec (some f) = elim (load_reader_as_json codec.decode_node f) [
  | err e ↦ false
  | ok node ↦ is_hash node.entry_name
]
