-- ===== src/Web/References.antt =====
-- What a client makes of a redirect of localRedirect in dumbcaslib/web.go, whose Location is relative:
-- it is resolved at the url of the request.
use dumbcas.Prelude.{Text, text, ◌==◌, Bool, true, false, eqb, not, ◌&&◌, if◌then◌else◌}
use dumbcas.Prelude.{◌≡◌, refl, sym, ap, ◌∙◌, List, [], ◌∷◌, ◌++◌, Option, none, some}
use dumbcas.Prelude.{Bool-cases, inl, inr, eq→path, arith, append_assoc}
use dumbcas.Prelude.FilePath.{slash, split}
use dumbcas.Prelude.FilePath.Elements.{is_flat, is_element, split-append, split-flat}
use dumbcas.Web.{Request, Response, body, redirect, http_error, panicked, local_redirect}

-- A url before the first question mark, and behind it.
cut : Text → Text × Text
cut [] = ([], [])
cut (c ∷ s) = let rest = cut s in if eqb c b'?' then ([], s) else (c ∷ rest.0, rest.1)

-- Bytes that mean nothing special in a url.
abbrev pub is_literal : Text → Bool
is_literal [] = true
is_literal (c ∷ s) =
    not (eqb c b'?')
    && (not (eqb c b'#') && (not (eqb c b'%') && (not (eqb c b':') && is_literal s)))

-- An element of a path that a client reads in a url as it is written.
abbrev pub is_url_element : Text → Bool
is_url_element p = is_element p && is_literal p

-- One such element, with a slash behind it or not.
pub is_reference : List Text → Bool
is_reference [] = false
is_reference (p ∷ []) = is_url_element p
is_reference (p ∷ q ∷ []) = is_url_element p && (q == [])
is_reference (p ∷ q ∷ r ∷ ps) = false

-- A path up to its last slash.
pub up_to_last : Text → Text
up_to_last [] = []
up_to_last (c ∷ s) =
    let rest = up_to_last s in if rest == [] then (if eqb c slash then c ∷ [] else []) else c ∷ rest

-- The request that a client makes for a redirect to such a reference (RFC 3986, section 5.2): the
-- reference takes the place of what stands behind the last slash of the path.
unfoldable pub follow : Request → Response → Option Request
unfolding cut is_reference up_to_last
follow r (redirect status location) =
    let (path, query) = cut location in
    if is_reference (split path)
    then some (record r { path = up_to_last r.path ++ path; raw_query = query })
    else none
follow r (body bytes) = none
follow r (http_error status message arg) = none
follow r panicked = none

cut-literal : (p q : Text) → is_literal p ≡ true → cut (p ++ (b'?' ∷ q)) ≡ (p, q)
unfolding cut
cut-literal [] q h = refl
cut-literal (c ∷ p) q h =
    let other : eqb c b'?' ≡ false = ground arith in
    let rest : cut (p ++ (b'?' ∷ q)) ≡ (p, q) = cut-literal p q (ground arith) in
    rw (other, rest) refl

cut-all : (p : Text) → is_literal p ≡ true → cut p ≡ (p, [])
unfolding cut
cut-all [] h = refl
cut-all (c ∷ p) h =
    let other : eqb c b'?' ≡ false = ground arith in
    let rest : cut p ≡ (p, []) = cut-all p (ground arith) in rw (other, rest) refl

up_to_last-flat : (p : Text) → is_flat p ≡ true → up_to_last p ≡ []
unfolding up_to_last ◌==◌
up_to_last-flat [] h = refl
up_to_last-flat (c ∷ p) h =
    let other : eqb c slash ≡ false = ground arith in
    rw (up_to_last-flat p (ground arith), other) refl

up_to_last-last :
    (d p : Text) → is_flat p ≡ true → up_to_last (d ++ (slash ∷ p)) ≡ d ++ (slash ∷ [])
unfolding up_to_last ◌==◌
up_to_last-last [] p h = rw (up_to_last-flat p h) refl
up_to_last-last (c ∷ []) p h = rw (up_to_last-last [] p h) refl
up_to_last-last (c ∷ e ∷ d) p h = rw (up_to_last-last (e ∷ d) p h) refl

pub is_literal-slash : (p : Text) → is_literal p ≡ true → is_literal (p ++ (slash ∷ [])) ≡ true
is_literal-slash [] h = refl
is_literal-slash (c ∷ p) h = ground (arith, is_literal-slash p)

cut-query :
    (q p : Text) → is_literal p ≡ true → cut (if q == [] then p else p ++ text "?" ++ q) ≡ (p, q)
cut-query q p h = elim (Bool-cases (q == [])) [
  | inl e ↦ rw e (cut-all p h ∙ ap (λ t. (p, t)) (sym (eq→path q [] e)))
  | inr e ↦ rw e (ap cut (append_assoc p (text "?") q) ∙ cut-literal p q h)
]

pub follow-local_redirect :
    (r : Request) (location : Text)
    → is_literal location ≡ true
    → is_reference (split location) ≡ true
    → follow r (local_redirect r location)
      ≡ some (record r { path = up_to_last r.path ++ location })
unfolding follow local_redirect
follow-local_redirect r location l g = rw (cut-query r.raw_query location l) (rw g refl)

pub is_reference-name : (p : Text) → is_url_element p ≡ true → is_reference (split p) ≡ true
unfolding is_reference
is_reference-name p h = rw (split-flat p (ground arith)) h

pub is_reference-slash :
    (p : Text) → is_url_element p ≡ true → is_reference (split (p ++ (slash ∷ []))) ≡ true
unfolding is_reference split ◌==◌
is_reference-slash p h =
    rw (split-append p []) (rw (split-flat p (ground arith)) (ground (arith, h)))

pub up_to_last-name :
    (d p x : Text)
    → is_flat p ≡ true
    → up_to_last (d ++ (slash ∷ p)) ++ (p ++ x) ≡ (d ++ (slash ∷ p)) ++ x
up_to_last-name d p x h =
    ap (λ t. t ++ (p ++ x)) (up_to_last-last d p h)
    ∙ append_assoc d (slash ∷ []) (p ++ x)
    ∙ sym (append_assoc d (slash ∷ p) x)

pub up_to_last-slash : (s p : Text) → up_to_last (s ++ (slash ∷ [])) ++ p ≡ s ++ (slash ∷ p)
up_to_last-slash s p = ap (λ t. t ++ p) (up_to_last-last s [] refl) ∙ append_assoc s (slash ∷ []) p
