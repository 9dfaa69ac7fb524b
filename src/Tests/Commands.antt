-- ===== src/Tests/Commands.antt =====
-- The exit codes of the commands on small tables.
use dumbcas.Prelude.{text, true, has_prefix, ◌==◌, ◌≡◌, refl, [], ◌∷◌, none, some}
use dumbcas.Table.{ok, err, not_exist, io}
use dumbcas.Common.{Application, parse}
use dumbcas.Cas.{MemoryCas, memory_cas, get_fsck_bit}
use dumbcas.Cas.Laws.{memory_cas-IsLawful}
use dumbcas.Nodes.{MemoryNodes, memory_nodes}
use dumbcas.Gc.{gc, gc_main}
use dumbcas.Gc.Errors.{is_whole}
use dumbcas.Fsck.{fsck, fsck_main}
use dumbcas.Commands.{exit_code, gc_command, fsck_command, archive_command}
use dumbcas.Cache.{empty_cache}
use dumbcas.Archive.Inputs.{
  load_inputs, inputs_of, read_file_as_strings, read_lines, cleanup_list, abs,
}
use dumbcas.Prelude.Trim.{trim_space, trim_left}
use dumbcas.Prelude.FilePath.{clean, join, dir, split, join_parts}
use dumbcas.Archive.Run.{archive_run}
use dumbcas.Archive.Command.{Machine, archive_main}
use dumbcas.Commands.Codes.{gc_command-gc_command, gc_command-fsck_command}
use dumbcas.Tests.Tables.{toy, now, objects, dangling, tables, run_gc, run_fsck}

-- An application that opens tables that are given.
abbrev opening : MemoryCas → MemoryNodes → Application memory_cas (memory_nodes toy now)
opening c n = record {
  abs = λ root. ok root;
  make_cas_table = λ root. ok c;
  load_nodes_table = λ root s. ok n;
}

abbrev app : Application memory_cas (memory_nodes toy now)
app = opening objects dangling

abbrev bad_objects : MemoryCas
bad_objects = record objects { need_fsck = true }

gc_command-gc_command_example :
    gc_command memory_cas (memory_nodes toy now) toy (opening bad_objects dangling) (text "/r") []
    ≡ (1, none)
unfolding run_gc gc_main gc_command parse get_fsck_bit is_whole
gc_command-gc_command_example =
    gc_command-gc_command memory_cas memory_cas-IsLawful (memory_nodes toy now) toy app
      (opening bad_objects dangling) (text "/r") (text "/r") (text "/r")
      (record { cas = objects; nodes = dangling }) (record { cas = bad_objects; nodes = dangling })
      refl refl refl refl refl

abbrev checked : dumbcas.Fsck.Outcome memory_cas (memory_nodes toy now) toy
checked = fsck memory_cas (memory_nodes toy now) toy tables

gc_command-fsck_command_example :
    let r = gc memory_cas (memory_nodes toy now) toy checked.tables.cas checked.tables.nodes in
    gc_command memory_cas
      (memory_nodes toy now)
      toy
      (opening checked.tables.cas checked.tables.nodes)
      (text "/r")
      []
    ≡ (exit_code r.0, some (record { cas = r.1; nodes = checked.tables.nodes }))
unfolding run_fsck fsck_command fsck_main parse get_fsck_bit ◌==◌
gc_command-fsck_command_example =
    gc_command-fsck_command memory_cas memory_cas-IsLawful (memory_nodes toy now) toy
      (opening tables.cas tables.nodes) (opening checked.tables.cas checked.tables.nodes)
      (text "/r") (text "/r") (text "/r") checked checked.tables.nodes refl (λ e. cc) refl refl refl

-- No input can be found, and the entry file cannot be encoded.
abbrev machine : Machine
machine = record {
  expand_env = λ s. s;
  os_open = λ path. ok (record { content = []; failure = none });
  working_dir = ok (text "/");
  stat = λ path. err not_exist;
  tree = λ path. [];
  source = record { read = λ path. err io; opened = λ path. err io; now = 1 };
  cache = empty_cache;
}

failed_archive_exits_with_0 :
    (archive_command memory_cas
      (memory_nodes toy now)
      toy
      app
      (text "/r")
      machine
      []
      (text "/list" ∷ [])).0
    ≡ 0
unfolding archive_command archive_main archive_run parse get_fsck_bit ◌==◌ load_inputs inputs_of
    read_file_as_strings read_lines trim_space trim_left cleanup_list abs clean join dir split
    join_parts has_prefix
failed_archive_exits_with_0 = refl
