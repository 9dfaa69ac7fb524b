-- ===== src/Web/Routes.antt =====
-- The handlers that main of web.go registers, over http.ServeMux, http.StripPrefix and
-- http.RedirectHandler of Go's package net/http.
pub mod Paths
pub mod Content
use dumbcas.Prelude.{ℕ, Text, text, ◌==◌, Bool, not, ltb, if◌then◌else◌}
use dumbcas.Prelude.{List, [], ◌∷◌, ◌++◌, has_prefix, drop, length}
use dumbcas.Prelude.FilePath.{slash, clean, has_suffix_slash}
use dumbcas.Web.{Request, Response, http_error, redirect, restricted_serve}

abbrev pub Handler : Type 0
Handler = Request → Response

-- http.StripPrefix
unfoldable pub strip_prefix : Text → Handler → Handler
strip_prefix prefix handler r =
    if has_prefix r.path prefix
    then handler (record r { path = drop (length prefix) r.path })
    else http_error 404 "404 page not found" []

-- cleanPath of net/http
unfoldable pub clean_path : Text → Text
clean_path p =
    let np = clean (if has_prefix p (slash ∷ []) then p else slash ∷ p) in
    if np == slash ∷ [] then np else if has_suffix_slash p then np ++ (slash ∷ []) else np

-- Whether a pattern matches a path.
path_match : Text → Text → Bool
path_match pattern path =
    if has_suffix_slash pattern then has_prefix path pattern else pattern == path

-- The longest pattern that matches, if it is longer than `n`.
unfoldable pub longest : List (Text × Handler) → Text → ℕ → Handler → Handler
unfolding path_match
longest [] path n h = h
longest ((pattern, g) ∷ patterns) path n h =
    let skipped = longest patterns path n h in
    let taken = longest patterns path (length pattern) g in
    if path_match pattern path then (if ltb n (length pattern) then taken else skipped) else skipped

not_found : Handler
not_found r = http_error 404 "404 page not found" []

-- ServeMux. Patterns are taken without a host; what a redirect says after the path is left out.
unfoldable pub serve_mux : List (Text × Handler) → Handler
unfolding not_found
serve_mux patterns r =
    let p = clean_path r.path in
    let found = longest patterns r.path 0 not_found r in
    if r.http_method == text "CONNECT" then found else if p == r.path then found else redirect 301 p

-- Handle of ServeMux for a pattern that ends with a slash; its path without the slash is redirected to it.
handle : Text → Handler → List (Text × Handler) → List (Text × Handler)
handle dir h patterns =
    (dir ++ (slash ∷ []), h) ∷ (dir, λ r. redirect 301 (dir ++ (slash ∷ []))) ∷ patterns

abbrev pub default_url : Text
default_url = text "/content/retrieve/default"

abbrev pub nodes_url : Text
nodes_url = text "/content/retrieve/nodes"

abbrev pub get_only : List Text
get_only = text "GET" ∷ []

-- The handler that main of web.go makes of those of the two tables.
patterns_of : Handler → Handler → List (Text × Handler)
unfolding handle
patterns_of cas_serve nodes_serve =
    handle default_url (restricted_serve (strip_prefix default_url cas_serve) get_only) (
      handle nodes_url (restricted_serve (strip_prefix nodes_url nodes_serve) get_only) (
        (slash ∷ [], restricted_serve (λ r. redirect 302 (nodes_url ++ (slash ∷ []))) get_only)
        ∷ []))

-- The handler that main of web.go makes of those of the two tables.
unfoldable pub routes : Handler → Handler → Handler
unfolding patterns_of
routes cas_serve nodes_serve = serve_mux (patterns_of cas_serve nodes_serve)
