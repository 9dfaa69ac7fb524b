-- ===== src/Web/Serving.antt =====
-- An archived file is served under its path.
use dumbcas.Prelude.{ℕ, ◌+◌, true, false, if◌then◌else◌, ◌≡◌, ◌≢◌, refl}
use dumbcas.Prelude.{List, [], ◌∷◌, ◌++◌, some, arith, has_prefix}
use dumbcas.Prelude.FilePath.{
  slash, split, trim_slashes, base, has_suffix_slash, has_prefix-append_slash,
  has_suffix_slash-append, trim_slashes-append_slash,
}
use dumbcas.Entry.{Entry, nil_map, sha1_of, is_dir}
use dumbcas.Entry.Paths.{ItemToArchive, make_entry, walk, path_to_entry, files_at}
use dumbcas.Entry.Paths.{path_to_entry-make_entry}
use dumbcas.Table.{ok}
use dumbcas.Web.{Request, Response, entry_serve}
use dumbcas.Web.{local_redirect, serve_dir, Written, write, write_header, Logged, logged}

-- After a file is archived under a relative path with no slash at its ends, where no directory was,
-- a request for that path is handed to the handler of the objects with the hash of the file.
pub entry_serve-make_entry :
    (cas_serve : Request → Response) (root : Entry) (item : ItemToArchive) (r : Request)
    → r.path ≡ slash ∷ item.rel_path
    → item.rel_path ≢ []
    → trim_slashes item.rel_path ≡ item.rel_path
    → has_suffix_slash r.path ≡ false
    → files_at (walk (split item.rel_path) root) ≡ nil_map
    → entry_serve cas_serve (make_entry root item) r
      ≡ cas_serve (record r { path = slash ∷ item.sha1 })
unfolding entry_serve is_dir has_prefix
entry_serve-make_entry cas_serve root item r at nonempty trimmed open_end no_dir =
    ground (arith, path_to_entry-make_entry root item nonempty trimmed)

-- Of a place of the tree asked for without a slash at the end and with one, a directory is
-- redirected to its name with the slash and listed there, and a file is served without it and
-- redirected to its name.
pub entry_serve-canonical :
    (cas_serve : Request → Response) (root e : Entry) (r : Request)
    → has_prefix r.path (slash ∷ []) ≡ true
    → has_suffix_slash r.path ≡ false
    → path_to_entry root r.path ≡ ok (some e)
    → let slashed : Request = record r { path = r.path ++ (slash ∷ []) } in
      (entry_serve cas_serve root r ≡ (
        if is_dir e
        then local_redirect r (base r.path ++ (slash ∷ []))
        else cas_serve (record r { path = slash ∷ sha1_of e })))
      × (entry_serve cas_serve root slashed
          ≡ (if is_dir e then serve_dir e else local_redirect slashed (base slashed.path)))
unfolding entry_serve path_to_entry
entry_serve-canonical cas_serve root e r absolute open_end here = (
  ground arith,
  ground (
    arith,
    has_prefix-append_slash r.path absolute,
    has_suffix_slash-append r.path,
    trim_slashes-append_slash r.path,
  ),
)

abbrev total_written : List Written → ℕ
total_written [] = 0
total_written (write n ∷ ws) = n + total_written ws
total_written (write_header s ∷ ws) = total_written ws

abbrev last_status : List Written → ℕ → ℕ
last_status [] s = s
last_status (write n ∷ ws) s = last_status ws s
last_status (write_header t ∷ ws) s = last_status ws t

-- The length logged for a request is the initial one and the number of bytes written, and the
-- status is the last one set, or the initial one if none is set.
pub logged_lem :
    (ws : List Written) (l : Logged)
    → ((logged ws l).length_written ≡ l.length_written + total_written ws)
      × ((logged ws l).status ≡ last_status ws l.status)
unfolding logged
logged_lem [] l = (omega arith, refl)
logged_lem (write n ∷ ws) l =
    ground (arith, logged_lem ws (record l { length_written = l.length_written + n }))
logged_lem (write_header s ∷ ws) l = logged_lem ws (record l { status = s })
