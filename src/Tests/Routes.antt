-- ===== src/Tests/Routes.antt =====
-- Requests to the handlers of web.go.
use dumbcas.Prelude.{Text, text, ◌==◌, ◌≡◌, refl, [], ◌∷◌, ◌++◌, some, has_prefix}
use dumbcas.Prelude.Map.{lookup}
use dumbcas.Prelude.FilePath.{clean, split, join_parts, trim_slashes, has_suffix_slash, base}
use dumbcas.Entry.{empty_entry}
use dumbcas.Entry.Paths.{make_entry, walk}
use dumbcas.Table.{Codec}
use dumbcas.Nodes.{MemoryNodes}
use dumbcas.Web.{Response, body, redirect, http_error, memory_cas_serve, local_redirect, dir_list}
use dumbcas.Web.MemoryNodes.{memory_nodes_serve, find_node, names_below, first_part}
use dumbcas.Web.Routes.{Handler, clean_path, routes}
use dumbcas.Web.Routes.Paths.{routed, routes-routed}
use dumbcas.Web.Routes.Content.{nodes_serve, routes-content}
use dumbcas.Tests.Tables.{toy, name_b}
use dumbcas.Tests.Pipeline.{hello, objects, get}

abbrev echo : Text → Handler
echo name r = body (name ++ r.path)

routes-routed_example :
    routes (echo (text "cas")) (echo (text "nodes")) (get (text "/content/retrieve/default/ab"))
    ≡ routed (echo (text "cas")) (echo (text "nodes")) (get (text "/content/retrieve/default/ab"))
unfolding clean_path clean split join_parts has_prefix has_suffix_slash ◌==◌
routes-routed_example =
    routes-routed (echo (text "cas")) (echo (text "nodes"))
      (get (text "/content/retrieve/default/ab")) refl

abbrev one_node : MemoryNodes
one_node = record { entries = (text "2012-01/x", text "node") ∷ (text "tags/x", text "node") ∷ [] }

abbrev reading : Codec
reading = record toy {
  decode_node = λ v. some (record { entry_name = name_b; comment = [] });
  decode_entry = λ v. some (make_entry empty_entry hello);
}

routes-content_example :
    routes
      (memory_cas_serve objects)
      (nodes_serve reading objects one_node)
      (get (text "/content/retrieve/nodes/2012-01/x/a/hello"))
    ≡ body (text "bye!")
unfolding clean_path clean split join_parts has_prefix has_suffix_slash ◌==◌ lookup trim_slashes
    walk
routes-content_example =
    routes-content reading objects one_node (text "2012-01/x") (text "node") (text "bye!")
      (text "bye!") (record { entry_name = name_b; comment = [] }) empty_entry hello
      (get (text "/content/retrieve/nodes/2012-01/x/a/hello")) refl refl refl refl
      ((λ e. refl), ((λ e. cc), tt)) refl refl refl (λ e. cc) refl refl refl refl

serve_nodes : Text → Response
unfolding nodes_serve
serve_nodes path = nodes_serve reading objects one_node (get path)

serve_nodes_runs :
    (serve_nodes (text "/tags/x") ≡ redirect 301 (text "x/"))
    × (serve_nodes (text "/tags/") ≡ dir_list (text "x" ∷ []))
    × (serve_nodes (text "/tag") ≡ http_error 404 "Yo dawg" [])
unfolding serve_nodes memory_nodes_serve find_node names_below first_part has_prefix
    has_suffix_slash ◌==◌ local_redirect base split
serve_nodes_runs = (refl, refl, refl)
