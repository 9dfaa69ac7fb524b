-- ===== src/Lib.antt =====
-- dumbcas, a content-addressed datastore used as a backup tool: the tables of package dumbcaslib and the
-- commands of package main.
--
-- Parts, with their files and the code that they follow:
-- - Prelude and below: names of the libraries, Boolean tests, lists, Go strings as lists of bytes, Go maps
--   as lists of bindings (the order of a range is the order of the list, and theorems hold for every
--   list), sort.Strings, and the functions of path/filepath, path, strings and fmt that are used.
-- - Table: errors, results, readers (a reader is what reading it to the end gives), the interfaces CasTable
--   and NodesTable with their laws (dumbcaslib/common.go, cas.go, nodes.go). The codec stands for
--   encoding/json on the stored types and for crypto/sha1; it is a parameter without laws.
-- - Entry, with Paths and Printing: the tree of archived files, tagRecurse of gc.go, makeEntry of archive.go,
--   pathToEntry and Print of dumbcaslib/entry.go.
-- - Cas, Cas.Laws: memoryCasTable of dumbcaslib/cas.go and AddBytes; it meets the laws of CasTable.
-- - Files: a record of the calls of package os that the tables on disk make, with laws for those that adding
--   and opening rely on.
-- - LocalCas, with Paths and Adding: the table on disk of dumbcaslib/cas_local.go and trash.go.
-- - LocalNodes, with Tags, Adding and Listing: the nodes table on disk of dumbcaslib/nodes_local.go. Enumerate
--   is a function of what the walk of its directory sends.
-- - Nodes, Nodes.Laws, Nodes.Naming: memoryNodesTable of dumbcaslib/nodes.go, LoadReaderAsJSON and LoadEntry.
-- - Common: CommonFlags.Parse of common.go.
-- - Gc, with Marks, Safety and Errors, and Marks.Archived for a gc after archive: gc.go, over any two tables. A command after Parse is a function of
--   the states of the tables; an error is a value and the state that it leaves is returned with it.
-- - Fsck, with Objects, References and Archived: fsck.go, over any two tables.
-- - Restore, with Safety, Contents and Archived: restore.go, over a disk that is a record of operations with laws.
-- - Info, with Listing: info.go.
-- - Cache, with Paths, Hashing and Printing: dumbcaslib/cache.go and updateFile of archive.go.
-- - Recent, with Bounds, Prefixes, Entries and Kept: the caches of nodesTable in dumbcaslib/nodes_local.go. What a
--   goroutine is to add to a cache is part of the result.
-- - Web, with Serving, Redirects and NodesTable: dumbcaslib/web.go, dirList, ServeHTTP of memoryCasTable, casTable,
--   entryFileSystem and nodesTable, the handlers of web.go. A response is a value.
--   Web.References describes what a client makes of a relative redirect; it models no code.
-- - Web.MemoryNodes: ServeHTTP of memoryNodesTable in dumbcaslib/nodes.go.
-- - Web.Routes, with Paths and Content: what main of web.go registers, over what it uses of net/http.
-- - Web.Server, with Sound: the server from request to request, with the goroutines that update the caches of
--   nodesTable. A request is one step, and so is an update.
-- - Cache.Disk: dumbcaslib/cache_local.go, over a record of the calls that it makes, with laws.
-- - Archive.Inputs, with Cleaned and Located: readFileAsStrings, cleanupList and the lines of main before the goroutines
--   start, in archive.go. os.ExpandEnv, os.Getwd and os.Open are parameters. Archive.Command: main as a whole.
-- - Archive, with Counters, Accounting, Objects, Trees, Run and SecondRun: the pipeline of archive.go. Each goroutine
--   is a function from the list that it receives to the list that it sends; the counters, which the
--   goroutines share, are only added to.
-- - Archive.Goroutines: the same goroutines as steps of one state, in any order, with the buffers of the two
--   channels and what an interrupt does. Sums, Rest, Enumerating, Hashing, Storing and Order lead to the
--   theorem that the order does not matter; Decreasing, Ordered and Progress to the one that runs end;
--   Interrupts is about interrupted runs. What a goroutine prints is received at once.
-- - Walk, with Order, Interrupts and Relative: the walks of directories of dumbcaslib/common.go. The file
--   system is the tree of what os.Open and Readdir give; interrupt.IsSet is a function of how often it was
--   asked before.
-- - Commands, with Codes: the methods Run of the commands, with the exit codes and what one command leaves
--   for the next one.
-- - Tests: runs at concrete data and the theorems at concrete data.
--
-- Fuel: the loop that evicts from a recent cache has two rounds, which are enough when the cache was
-- within its bound. The loop of AddEntry in memory that looks for a free name has two rounds more than
-- there are entries, which are enough; the one on disk takes its fuel as an argument, and ends if it is more than the number
-- of a name that can be made. Counters, sizes and times are natural numbers.
--
-- Not modelled: interruption by a signal outside the walk and the goroutines of
-- archive, the output of logs and progress, the tables of commands and flags that main.go gives to the package
-- subcommands, children that the decoder of a tree leaves nil, EnumerateNodesAsList, which is for tests.
pub mod Prelude
pub mod Entry
pub mod Table
pub mod Cas
pub mod Files
pub mod LocalCas
pub mod LocalNodes
pub mod Nodes
pub mod Common
pub mod Gc
pub mod Fsck
pub mod Restore
pub mod Info
pub mod Cache
pub mod Recent
pub mod Web
pub mod Archive
pub mod Walk
pub mod Commands
mod Tests
