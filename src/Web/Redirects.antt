-- ===== src/Web/Redirects.antt =====
-- Where the redirects of entryFileSystem in dumbcaslib/entry.go lead a client.
use dumbcas.Prelude.{Text, ◌==◌, true, false, not}
use dumbcas.Prelude.{◌≡◌, refl, sym, ap, ◌∙◌, List, [], ◌∷◌, ◌++◌, none, some, has_prefix}
use dumbcas.Prelude.{Option-cases, inl, inr, arith, append_assoc}
use dumbcas.Prelude.FilePath.{slash, split, base, has_suffix_slash, trim_slashes}
use dumbcas.Prelude.FilePath.Elements.{split-append, split-flat, has_prefix-rooted}
use dumbcas.Prelude.FilePath.Ends.{
  base-last, base-slash, is_name, nonempty-append, has_suffix_slash-last, trim_slashes-twice,
}
use dumbcas.Entry.{Entry, entry, nil_map, made, find_child, is_dir}
use dumbcas.Entry.Paths.{walk, path_to_entry}
use dumbcas.Table.{ok}
use dumbcas.Web.{Request, Response, http_error, serve_dir, serve_result, entry_serve}
use dumbcas.Web.Serving.{entry_serve-canonical}
use dumbcas.Web.References.{
  follow, follow-local_redirect, is_url_element, is_literal-slash, is_reference-name,
  is_reference-slash, up_to_last, up_to_last-name, up_to_last-slash,
}

walk-append :
    (ps qs : List Text) (root e : Entry) → walk ps root ≡ some e → walk (ps ++ qs) root ≡ walk qs e
unfolding walk
walk-append [] qs root e h = let same : root ≡ e = ground (arith, h) in ap (walk qs) same
walk-append (p ∷ ps) qs (entry hash n nil_map) e h = cc
walk-append (p ∷ ps) qs (entry hash n (made cs)) e h = elim (Option-cases (find_child p cs)) [
  | inl absent ↦ let no : none ≡ some e = ground (arith, h, absent) in cc
  | inr (f, present) ↦
      let deeper : walk ps f ≡ some e = ground (arith, h, present) in
      rw (walk, present) (walk-append ps qs f e deeper)
]

walk-file : (p : Text) (e : Entry) → is_dir e ≡ false → walk (p ∷ []) e ≡ none
unfolding walk is_dir
walk-file p (entry hash n nil_map) h = refl
walk-file p (entry hash n (made cs)) h = cc

path_to_entry-trimmed :
    (root : Entry) (path t : Text)
    → has_prefix path (slash ∷ []) ≡ true
    → trim_slashes path ≡ t
    → not (t == []) ≡ true
    → path_to_entry root path ≡ ok (walk (split t) root)
unfolding path_to_entry
path_to_entry-trimmed root path t h e n =
    let some_left : t == [] ≡ false = ground (arith, n) in rw (h, e) (rw some_left refl)

ok-injective : {A : Type 0} {a b : A} → ok a ≡ ok b → a ≡ b
ok-injective h = ground (arith, h)

-- Below a file there is nothing.
path_to_entry-below :
    (root e : Entry) (d name : Text)
    → is_name name ≡ true
    → has_prefix (d ++ (slash ∷ name)) (slash ∷ []) ≡ true
    → path_to_entry root (d ++ (slash ∷ name)) ≡ ok (some e)
    → is_dir e ≡ false
    → path_to_entry root ((d ++ (slash ∷ name)) ++ (slash ∷ name)) ≡ ok none
path_to_entry-below root e d name n h here file =
    let (t, once, twice, nonempty) = trim_slashes-twice d name n in
    let path = d ++ (slash ∷ name) in
    let found : walk (split t) root ≡ some e =
      ok-injective (sym (path_to_entry-trimmed root path t h once nonempty) ∙ here) in
    path_to_entry-trimmed root (path ++ (slash ∷ name)) (t ++ (slash ∷ name))
      (has_prefix-rooted path (slash ∷ name) h)
      (ap trim_slashes (append_assoc d (slash ∷ name) (slash ∷ name)) ∙ twice)
      (nonempty-append t name)
    ∙ ap (λ ps. ok (walk ps root)) (split-append t name)
    ∙ ap (λ ps. ok (walk (split t ++ ps) root)) (split-flat name (ground arith))
    ∙ ap ok (walk-append (split t) (name ∷ []) root e found)
    ∙ ap ok (walk-file name e file)

entry_serve-none :
    (cas_serve : Request → Response) (root : Entry) (r : Request)
    → has_prefix r.path (slash ∷ []) ≡ true
    → path_to_entry root r.path ≡ ok none
    → entry_serve cas_serve root r ≡ http_error 404 "404 page not found" []
unfolding entry_serve serve_result
entry_serve-none cas_serve root r h n = rw (h, n) refl

module _ (cas_serve : Request → Response) (root e : Entry) (r : Request) (d name : Text) where
  -- Asked for without a slash at its end, a directory of the tree is answered by a redirect that
  -- leads a client to the same request with the slash, where it is listed. The client resolves the
  -- Location at the url of the request, and the name of the directory is one element without
  -- special bytes.
  pub entry_serve-directory :
      r.path ≡ d ++ (slash ∷ name)
      → is_url_element name ≡ true
      → has_prefix r.path (slash ∷ []) ≡ true
      → path_to_entry root r.path ≡ ok (some e)
      → is_dir e ≡ true
      → let slashed : Request = record r { path = r.path ++ (slash ∷ []) } in
        (follow r (entry_serve cas_serve root r) ≡ some slashed)
        × (entry_serve cas_serve root slashed ≡ serve_dir e)
  entry_serve-directory at u h here directory =
      let open_end = ap has_suffix_slash at ∙ has_suffix_slash-last d name (ground arith) in
      let based : base r.path ≡ name = ap base at ∙ base-last d name (ground arith) in
      let (plain, slashed) = entry_serve-canonical cas_serve root e r h open_end here in
      let location = name ++ (slash ∷ []) in
      (
        ap (follow r) (plain ∙ rw (directory, based) refl)
            ∙ follow-local_redirect r location (is_literal-slash name (ground arith))
                (is_reference-slash name u)
            ∙ ap (λ p. some (record r { path = p }))
                (ap (λ p. up_to_last p ++ location) at
                  ∙ up_to_last-name d name (slash ∷ []) (ground arith)
                  ∙ ap (λ p. p ++ (slash ∷ [])) (sym at)),
        slashed ∙ rw directory refl,
      )

  -- Asked for with a slash at its end, a file of the tree is answered by a redirect that leads a
  -- client not to the file but below it, and from there to an error 404. The client resolves the
  -- Location at the url of the request, and the name of the file is one element without special
  -- bytes.
  pub entry_serve-file :
      r.path ≡ d ++ (slash ∷ name)
      → is_url_element name ≡ true
      → has_prefix r.path (slash ∷ []) ≡ true
      → path_to_entry root r.path ≡ ok (some e)
      → is_dir e ≡ false
      → let slashed : Request = record r { path = r.path ++ (slash ∷ []) } in
        let below_file : Request = record r { path = r.path ++ (slash ∷ name) } in
        (follow slashed (entry_serve cas_serve root slashed) ≡ some below_file)
        × (entry_serve cas_serve root below_file ≡ http_error 404 "404 page not found" [])
  entry_serve-file at u h here file =
      let open_end = ap has_suffix_slash at ∙ has_suffix_slash-last d name (ground arith) in
      let (plain, behind) = entry_serve-canonical cas_serve root e r h open_end here in
      let nothing : path_to_entry root (r.path ++ (slash ∷ name)) ≡ ok none =
        ap (λ p. path_to_entry root (p ++ (slash ∷ name))) at
        ∙ path_to_entry-below root e d name (ground arith)
            (ap (λ p. has_prefix p (slash ∷ [])) (sym at) ∙ h)
            (ap (path_to_entry root) (sym at) ∙ here) file in
      let slashed : Request = record r { path = r.path ++ (slash ∷ []) } in
      let based : base slashed.path ≡ name =
        ap (λ p. base (p ++ (slash ∷ []))) at ∙ base-slash d name (ground arith) in
      (
        ap (follow slashed) (behind ∙ rw (file, based) refl)
            ∙ follow-local_redirect slashed name (ground arith) (is_reference-name name u)
            ∙ ap (λ p. some (record r { path = p })) (up_to_last-slash r.path name),
        entry_serve-none cas_serve root (record r { path = r.path ++ (slash ∷ name) })
            (has_prefix-rooted r.path (slash ∷ name) h) nothing,
      )
