-- ===== src/Web.antt =====
-- What is served over HTTP: dumbcaslib/web.go, dirList of nodes_local.go, ServeHTTP of the table in
-- memory and of entryFileSystem, and the handlers of web.go.
pub mod Serving
pub mod References
pub mod Redirects
pub mod NodesTable
pub mod MemoryNodes
pub mod Routes
pub mod Server
use dumbcas.Prelude.{ℕ, ◌+◌, Text, text, String, ◌==◌, eqb, if◌then◌else◌}
use dumbcas.Prelude.{List, [], ◌∷◌, ◌++◌, Option, none, some, has_prefix, drop}
use dumbcas.Prelude.Map.{lookup, contains}
use dumbcas.Prelude.Sort.{sort_strings}
use dumbcas.Prelude.FilePath.{slash, base, has_suffix_slash}
use dumbcas.Entry.{Entry, Children, end, child, children, files_of}
use dumbcas.Entry.{sha1_of, is_dir}
use dumbcas.Entry.Paths.{path_to_entry}
use dumbcas.Table.{Result, ok, err}
use dumbcas.Cas.{MemoryCas}
use dumbcas.LocalCas.{file_path}

pub record Request : Type 0 where
  pub http_method : Text
  pub path : Text
  pub raw_query : Text

-- `http_error` has its status, and what its message says of the request.
pub data Response : Type 0 where
  body : Text → Response
  redirect : ℕ → Text → Response
  http_error : ℕ → String → Text → Response
  panicked : Response

-- localRedirect
unfoldable pub local_redirect : Request → Text → Response
local_redirect r new_path =
    redirect 301 (if r.raw_query == [] then new_path else new_path ++ text "?" ++ r.raw_query)

escape : ℕ → Text
escape c =
    if eqb c b'&'
    then text "&amp;"
    else if eqb c 39
    then text "&#39;"
    else if eqb c b'<'
    then text "&lt;"
    else if eqb c b'>'
    then text "&gt;"
    else if eqb c 34
    then text "&#34;"
    else c ∷ []

-- html.EscapeString
unfoldable pub escape_string : Text → Text
unfolding escape
escape_string [] = []
escape_string (c ∷ s) = escape c ++ escape_string s

links : List Text → Text
links [] = []
links (name ∷ names) =
    let shown = escape_string name in
    text "<a href=" ++ (34 ∷ shown) ++ (34 ∷ text ">") ++ shown ++ text "</a>" ++ (10 ∷ links names)

-- dirList
unfoldable pub dir_list : List Text → Response
unfolding links
dir_list names =
    body (text "<html><body><pre>" ++ links (sort_strings names) ++ text "</pre></body></html>")

-- ServeHTTP of memoryCasTable. The path without its first byte is looked up.
unfoldable pub memory_cas_serve : MemoryCas → Request → Response
memory_cas_serve m r = elim r.path [
  | [] ↦ panicked
  | c ∷ name ↦ elim (lookup name m.entries) [ none ↦ body [] | some bytes ↦ body bytes ]
]

-- ServeHTTP of casTable, in the directory of the table. http.ServeFile is a parameter.
unfoldable pub local_cas_serve : (Text → Request → Response) → Text → Request → Response
local_cas_serve serve_file cas_dir r =
    let path = file_path cas_dir (drop 1 r.path) in
    if has_prefix r.path (slash ∷ [])
    then (if path == [] then http_error 400 "Invalid CAS url: " r.path else serve_file path r)
    else http_error 501 "Internal failure. CasTable received an invalid url: " r.path

unfoldable pub dir_names : Children → List Text
dir_names end = []
dir_names (child name e cs) = (if is_dir e then name ++ (slash ∷ []) else name) ∷ dir_names cs

-- (*Entry).ServeDir
unfoldable pub serve_dir : Entry → Response
serve_dir e = dir_list (dir_names (children (files_of e)))

module _ (cas_serve : Request → Response) where
  serve_found : Request → Entry → Response
  serve_found r e =
      let trailing = has_suffix_slash r.path in
      if is_dir e
      then (if trailing then serve_dir e else local_redirect r (base r.path ++ (slash ∷ [])))
      else (if trailing
          then local_redirect r (base r.path)
          else cas_serve (record r { path = slash ∷ sha1_of e }))

  serve_result : Request → Result (Option Entry) → Response
  serve_result r (err e) = http_error 500 "internal error: %s is malformed" r.path
  serve_result r (ok none) = http_error 404 "404 page not found" []
  serve_result r (ok (some e)) = serve_found r e

  -- ServeHTTP of entryFileSystem.
  unfoldable pub entry_serve : Entry → Request → Response
  unfolding serve_found serve_result
  entry_serve root r =
      if has_prefix r.path (slash ∷ [])
      then serve_result r (path_to_entry root r.path)
      else http_error 501 "Internal failure. entryFileSystem received an invalid url: " r.path

-- ServeHTTP of restricted.
unfoldable pub restricted_serve : (Request → Response) → List Text → Request → Response
restricted_serve handler methods r =
    if contains methods r.http_method then handler r else http_error 405 "Invalid Method" []

-- What a handler does to its ResponseWriter.
pub data Written : Type 0 where
  write : ℕ → Written
  write_header : ℕ → Written

-- type loggingResponseWriter: the status and the length that are logged.
pub record Logged : Type 0 where
  pub status : ℕ
  pub length_written : ℕ

unfoldable pub logged : List Written → Logged → Logged
logged [] l = l
logged (write n ∷ ws) l = logged ws (record l { length_written = l.length_written + n })
logged (write_header s ∷ ws) l = logged ws (record l { status = s })
