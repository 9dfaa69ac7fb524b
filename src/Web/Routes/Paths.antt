-- ===== src/Web/Routes/Paths.antt =====
-- What the handlers that main of web.go registers serve at each path.
use mathlib.Core.Path.{subst}
use dumbcas.Prelude.{
  Text, text, ◌==◌, true, false, not, if◌then◌else◌, ◌≡◌, refl, sym, ◌∙◌, arith, eq_refl, eq→path,
  Bool-cases, inl, inr,
}
use dumbcas.Prelude.{List, [], ◌∷◌, ◌++◌, has_prefix, drop, length}
use dumbcas.Prelude.Map.{contains}
use dumbcas.Prelude.FilePath.{slash, clean, has_suffix_slash, has_suffix_slash-append}
use dumbcas.Prelude.FilePath.Cleaning.{IsRooted, clean-IsRooted}
use dumbcas.Prelude.FilePath.Elements.{has_prefix-rooted}
use dumbcas.Web.{Request, Response, http_error, redirect, restricted_serve}
use dumbcas.Web.Routes.{
  Handler, strip_prefix, clean_path, path_match, longest, not_found, serve_mux, handle, default_url,
  nodes_url, patterns_of, routes,
}

-- What is served at a path.
unfoldable pub routed : Handler → Handler → Handler
routed cas_serve nodes_serve r =
    if default_url == r.path
    then redirect 301 (default_url ++ (slash ∷ []))
    else if nodes_url == r.path
    then redirect 301 (nodes_url ++ (slash ∷ []))
    else if not (text "GET" == r.http_method)
    then http_error 405 "Invalid Method" []
    else if has_prefix r.path (default_url ++ (slash ∷ []))
    then cas_serve (record r { path = drop (length default_url) r.path })
    else if has_prefix r.path (nodes_url ++ (slash ∷ []))
    then nodes_serve (record r { path = drop (length nodes_url) r.path })
    else redirect 302 (nodes_url ++ (slash ∷ []))

clean_path-IsRooted : (p : Text) → IsRooted (clean_path p)
unfolding clean_path has_prefix
clean_path-IsRooted p = elim (Bool-cases (has_prefix p (slash ∷ []))) [
  | inl h ↦ rw h (appended p (clean p) (clean-IsRooted p h))
  | inr h ↦ rw h (appended p (clean (slash ∷ p)) (clean-IsRooted (slash ∷ p) refl))
]
  where
    appended :
        (p np : Text)
        → IsRooted np
        → IsRooted
            (if np == slash ∷ [] then np else if has_suffix_slash p then np ++ (slash ∷ []) else np)
    appended p np r = ground (arith, has_prefix-rooted np (slash ∷ []) r)

serve_mux-clean :
    (patterns : List (Text × Handler)) (r : Request)
    → clean_path r.path ≡ r.path
    → serve_mux patterns r ≡ longest patterns r.path 0 not_found r
unfolding serve_mux
serve_mux-clean patterns r c = ground (arith, c, eq_refl r.path)

prefix-append : (s p : Text) → has_prefix s p ≡ true → (t : Text) × (s ≡ p ++ t)
unfolding has_prefix
prefix-append s [] h = (s, refl)
prefix-append [] (d ∷ p) h = cc
prefix-append (c ∷ s) (d ∷ p) h =
    let (t, e) = prefix-append s p (ground arith) in
    let head : c ≡ d = ground arith in (t, rw (head, e) refl)

default_open : has_suffix_slash default_url ≡ false
unfolding has_suffix_slash has_prefix
default_open = refl

nodes_open : has_suffix_slash nodes_url ≡ false
unfolding has_suffix_slash has_prefix
nodes_open = refl

module _ (cas_serve nodes_serve : Handler) (r : Request) where
  found : Response
  found = longest (patterns_of cas_serve nodes_serve) r.path 0 not_found r

  found-default :
      (p : Text) → r.path ≡ default_url ++ (slash ∷ p) → found ≡ routed cas_serve nodes_serve r
  unfolding found patterns_of handle longest path_match has_prefix ◌==◌ strip_prefix
      restricted_serve contains has_suffix_slash routed
  found-default p at = elim (Bool-cases (text "GET" == r.http_method)) [
    | inl get ↦ rw (at, get) refl
    | inr other ↦ rw (at, other) refl
  ]

  found-nodes :
      (p : Text) → r.path ≡ nodes_url ++ (slash ∷ p) → found ≡ routed cas_serve nodes_serve r
  unfolding found patterns_of handle longest path_match has_prefix ◌==◌ strip_prefix
      restricted_serve contains has_suffix_slash routed
  found-nodes p at = elim (Bool-cases (text "GET" == r.http_method)) [
    | inl get ↦ rw (at, get) refl
    | inr other ↦ rw (at, other) refl
  ]

  found-exact : r.path ≡ default_url → found ≡ routed cas_serve nodes_serve r
  unfolding found patterns_of handle longest path_match has_prefix ◌==◌ has_suffix_slash routed
  found-exact at = rw at refl

  found-exact_nodes : r.path ≡ nodes_url → found ≡ routed cas_serve nodes_serve r
  unfolding found patterns_of handle longest path_match has_prefix ◌==◌ has_suffix_slash routed
  found-exact_nodes at = rw at refl

  found-other :
      IsRooted r.path
      → default_url == r.path ≡ false
      → nodes_url == r.path ≡ false
      → has_prefix r.path (default_url ++ (slash ∷ [])) ≡ false
      → has_prefix r.path (nodes_url ++ (slash ∷ [])) ≡ false
      → found ≡ routed cas_serve nodes_serve r
  unfolding found patterns_of handle longest path_match restricted_serve contains routed
  found-other rooted d n d' n' = ground (
    arith,
    rooted,
    default_open,
    nodes_open,
    has_suffix_slash-append default_url,
    has_suffix_slash-append nodes_url,
    has_suffix_slash-append [],
  )

-- For a clean path web gives a GET request to the handler of the objects, to the one of the nodes
-- or to a redirect by the beginning of the path, refuses other methods, and redirects the two urls
-- of the tables without their slash, whatever the method.
pub routes-routed :
    (cas_serve nodes_serve : Handler) (r : Request)
    → clean_path r.path ≡ r.path
    → routes cas_serve nodes_serve r ≡ routed cas_serve nodes_serve r
unfolding routes found
routes-routed cas_serve nodes_serve r c =
    let rooted : IsRooted r.path = subst IsRooted c (clean_path-IsRooted r.path) in
    serve_mux-clean (patterns_of cas_serve nodes_serve) r c
    ∙ elim (Bool-cases (default_url == r.path)) [
      | inl e ↦ found-exact cas_serve nodes_serve r (sym (eq→path default_url r.path e))
      | inr d ↦ elim (Bool-cases (nodes_url == r.path)) [
        | inl e ↦ found-exact_nodes cas_serve nodes_serve r (sym (eq→path nodes_url r.path e))
        | inr n ↦ elim (Bool-cases (has_prefix r.path (default_url ++ (slash ∷ [])))) [
          | inl h ↦
              let (t, e) = prefix-append r.path (default_url ++ (slash ∷ [])) h in
              found-default cas_serve nodes_serve r t e
          | inr d' ↦ elim (Bool-cases (has_prefix r.path (nodes_url ++ (slash ∷ [])))) [
            | inl h ↦
                let (t, e) = prefix-append r.path (nodes_url ++ (slash ∷ [])) h in
                found-nodes cas_serve nodes_serve r t e
            | inr n' ↦ found-other cas_serve nodes_serve r rooted d n d' n'
          ]
        ]
      ]
    ]
