-- ===== src/Tests/Serving.antt =====
-- Requests to the nodes table: to a file of a tree, to a node without a slash, and for a directory.
use dumbcas.Prelude.{Text, text, ◌==◌, ◌≡◌, refl, [], ◌∷◌, false, has_prefix, if◌then◌else◌}
use dumbcas.Prelude.Map.{lookup, insert}
use dumbcas.Prelude.FilePath.{split, base, has_suffix_slash, trim_slashes}
use dumbcas.Entry.{is_dir, find_child}
use dumbcas.Entry.Paths.{path_to_entry, walk}
use dumbcas.Table.{io, not_exist, Result, ok, err}
use dumbcas.Nodes.{load_reader_as_json}
use dumbcas.Cas.{MemoryCas, memory_cas, open_item}
use dumbcas.Recent.{find_cached}
use dumbcas.Recent.Entries.{get_entry, read_tree}
use dumbcas.Web.{Response, body, redirect, http_error, dir_list, local_redirect, entry_serve}
use dumbcas.Web.NodesTable.{Opened, directory, regular, nodes_serve, get_node, pieces, serve_obj}
use dumbcas.Table.{Node}
use dumbcas.Cas.Laws.{memory_cas-IsLawful}
use dumbcas.Recent.{Cached}
use dumbcas.Web.{Request}
use dumbcas.Web.Server.{Server, start_server, after_request, ServerStep, request, Reach, here, next}
use dumbcas.Web.Server.Sound.{IsSound, Reach-IsSound, Reach-updates}
use dumbcas.Tests.Tables.{toy}

opened : Text → Result Opened
unfolding ◌==◌
opened path =
    if path == text "2012-01"
    then ok (directory (text "n" ∷ []))
    else if path == text "2012-01/n"
    then ok (regular (ok (text "h")))
    else if path == text "2012-01/bad"
    then ok (regular (err io))
    else err not_exist

abbrev stored : MemoryCas
stored = record { entries = (text "h", text "bytes") ∷ []; need_fsck = false }

response_to : Text → Response
unfolding nodes_serve get_node pieces serve_obj find_cached get_entry read_tree open_item opened
    load_reader_as_json lookup insert entry_serve path_to_entry walk is_dir find_child
    local_redirect trim_slashes split base has_suffix_slash has_prefix ◌==◌
response_to path =
    (nodes_serve memory_cas toy opened (λ r. body r.path) 9 [] [] stored
      (record { http_method = text "GET"; path = path; raw_query = [] })).response

file_is_served : response_to (text "/2012-01/n/f") ≡ body (text "/bytes")
unfolding response_to
file_is_served = refl

node_is_redirected : response_to (text "/2012-01/n") ≡ redirect 301 (text "n/")
unfolding response_to
node_is_redirected = refl

directory_is_redirected : response_to (text "/2012-01") ≡ redirect 301 (text "2012-01/")
unfolding response_to
directory_is_redirected = refl

missing_node_is_not_found : response_to (text "/2012-01/none") ≡ http_error 404 "Failure: %s" []
unfolding response_to
missing_node_is_not_found = refl

-- A node that cannot be decoded is no error.
undecoded_node_is_redirected : response_to (text "/2012-01/bad") ≡ redirect 301 (text "bad/")
unfolding response_to
undecoded_node_is_redirected = refl

undecoded_node_is_listed : response_to (text "/2012-01/bad/") ≡ dir_list []
unfolding response_to
undecoded_node_is_listed = refl

abbrev request_file : Request
request_file = record { http_method = text "GET"; path = text "/2012-01/n/f"; raw_query = [] }

abbrev first_state : Server memory_cas toy opened 10
first_state = start_server memory_cas toy opened 10 stored

-- After one request.
abbrev second_state : Server memory_cas toy opened 10
second_state = after_request memory_cas toy opened 10 first_state (
    nodes_serve memory_cas toy opened (λ r. body r.path) 9 first_state.nodes first_state.entries
      first_state.cas request_file)

abbrev second_state_reached :
    Reach memory_cas toy opened 10 (λ r. body r.path) first_state second_state
second_state_reached = next here (request 9 request_file refl)

Reach-IsSound_example : IsSound memory_cas memory_cas-IsLawful toy opened 10 second_state
Reach-IsSound_example =
    Reach-IsSound memory_cas memory_cas-IsLawful toy opened 10 (λ r. body r.path) stored
      second_state second_state_reached

abbrev node_n : Cached Node
node_n = record { object = record { entry_name = text "h"; comment = [] }; last_access = 9 }

Reach-updates_example :
    (q : Server memory_cas toy opened 10) × ServerStep memory_cas toy opened 10
      (λ r. body r.path)
      second_state
      q
    × (q.node_updates ≡ [])
    × IsSound memory_cas memory_cas-IsLawful toy opened 10 q
unfolding response_to start_server after_request
Reach-updates_example =
    Reach-updates memory_cas memory_cas-IsLawful toy opened 10 (λ r. body r.path) stored
      second_state [] [] (text "2012-01/n/") node_n second_state_reached refl
