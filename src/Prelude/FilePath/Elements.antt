-- ===== src/Prelude/FilePath/Elements.antt =====
-- Joining an element to a rooted path. An element is a name that filepath.Clean keeps.
use dumbcas.Prelude.Strings.{Text, text, ◌==◌, has_prefix}
use mathlib.Core.List.{foldl-append}
use mathlib.Core.Logic.{inl, inr, ◌≢◌}
use dumbcas.Prelude.Tests.{Bool-cases, eqb}
use dumbcas.Prelude.FilePath.{slash, split, join_parts, clean_part, clean, join}
use mathlib.Core.Path.{◌≡◌, refl, sym, ap, ◌∙◌}
use mathlib.Core.Bool.{Bool, true, not, ◌&&◌}
use mathlib.Core.List.{List, [], ◌∷◌, ◌++◌, reverse, foldl, reverse-append, append_assoc}
use native.Mathlib.Omega.{arith}

-- No slash.
abbrev pub is_flat : Text → Bool
is_flat [] = true
is_flat (c ∷ s) = not (eqb c slash) && is_flat s

abbrev pub is_element : Text → Bool
is_element p = is_flat p && (not (p == []) && (not (p == text ".") && not (p == text "..")))

-- The elements of a rooted path, cleaned.
unfoldable pub parts_of : Text → List Text
unfolding clean_part
parts_of a = reverse (foldl (clean_part true) [] (split a))

-- Elements, each with the slash after it.
abbrev pub leading : List Text → Text
leading [] = []
leading (p ∷ ps) = p ++ (slash ∷ leading ps)

pub split-flat : (p : Text) → is_flat p ≡ true → split p ≡ (p ∷ [])
unfolding split
split-flat [] h = refl
split-flat (c ∷ p) h = ground (arith, split-flat p)

pub split-cons : (s : Text) → (q : Text) × (qs : List Text) × (split s ≡ q ∷ qs)
unfolding split
split-cons [] = ([], [], refl)
split-cons (c ∷ s) =
    let (q, qs, e) = split-cons s in
    elim (Bool-cases (eqb c slash)) [
      | inl h ↦ ([], split s, rw h refl)
      | inr h ↦ (c ∷ q, qs, rw (h, e) refl)
    ]

pub split-append : (a p : Text) → split (a ++ (slash ∷ p)) ≡ split a ++ split p
unfolding split
split-append [] p = refl
split-append (c ∷ a) p =
    let (q, qs, e) = split-cons a in
    elim (Bool-cases (eqb c slash)) [
      | inl h ↦ rw (h, split-append a p) refl
      | inr h ↦ rw (h, split-append a p, e) refl
    ]

pub clean_part-element :
    (ps : List Text) (p : Text) → is_element p ≡ true → clean_part true ps p ≡ p ∷ ps
unfolding clean_part
clean_part-element ps p h = ground arith

pub parts_of-join :
    (a p : Text) → is_element p ≡ true → parts_of (a ++ (slash ∷ p)) ≡ parts_of a ++ (p ∷ [])
unfolding parts_of
parts_of-join a p h =
    let ps = foldl (clean_part true) [] (split a) in
    rw (split-append a p, split-flat p (ground arith))
      (rw (foldl-append (clean_part true) [] (split a) (p ∷ []))
        (rw (clean_part-element ps p h) (reverse-append (p ∷ []) ps)))

pub join_parts-append : (ps : List Text) (p : Text) → join_parts (ps ++ (p ∷ [])) ≡ leading ps ++ p
unfolding join_parts
join_parts-append [] p = refl
join_parts-append (q ∷ []) p = rw append_assoc refl
join_parts-append (q ∷ r ∷ ps) p =
    rw (join_parts-append (r ∷ ps) p) (sym (append_assoc q (slash ∷ leading (r ∷ ps)) p))

pub leading-append :
    (ps : List Text) (p : Text) → leading (ps ++ (p ∷ [])) ≡ leading ps ++ (p ++ (slash ∷ []))
leading-append [] p = refl
leading-append (q ∷ ps) p = rw (leading-append ps p, append_assoc) refl

pub has_prefix-rooted :
    (a b : Text) → has_prefix a (slash ∷ []) ≡ true → has_prefix (a ++ b) (slash ∷ []) ≡ true
unfolding has_prefix
has_prefix-rooted [] b h = cc
has_prefix-rooted (c ∷ []) b h = ground arith
has_prefix-rooted (c ∷ d ∷ a) b h = ground arith

-- An element is put at the end of a rooted path.
pub clean-join :
    (a p : Text)
    → has_prefix a (slash ∷ []) ≡ true
    → is_element p ≡ true
    → clean (a ++ (slash ∷ p)) ≡ slash ∷ (leading (parts_of a) ++ p)
unfolding clean parts_of has_prefix
clean-join a p h g =
    rw (has_prefix-rooted a (slash ∷ p) h)
      (rw (parts_of-join a p g) (ap (λ r. slash ∷ r) (join_parts-append (parts_of a) p)))

-- A directory in whose path filepath.Join puts a slash and an element at the end.
abbrev pub IsDirectory : Text → Type 0
IsDirectory a =
    (has_prefix a (slash ∷ []) ≡ true) × (slash ∷ leading (parts_of a) ≡ a ++ (slash ∷ []))

pub leading-cons :
    (p : Text) (ps : List Text) → leading (p ∷ ps) ≡ join_parts (p ∷ ps) ++ (slash ∷ [])
unfolding join_parts
leading-cons p [] = refl
leading-cons p (q ∷ ps) = rw (leading-cons q ps) (rw append_assoc refl)

pub clean-rooted :
    (a : Text) → has_prefix a (slash ∷ []) ≡ true → clean a ≡ slash ∷ join_parts (parts_of a)
unfolding clean parts_of
clean-rooted a h = rw h refl

-- A rooted path that is clean is one, except for the root.
pub clean-IsDirectory :
    (a : Text) → has_prefix a (slash ∷ []) ≡ true → clean a ≡ a → a ≢ slash ∷ [] → IsDirectory a
unfolding join_parts
clean-IsDirectory a h c not_root = (h, of_parts (parts_of a) refl)
  where
    of_parts : (ps : List Text) → parts_of a ≡ ps → slash ∷ leading (parts_of a) ≡ a ++ (slash ∷ [])
    of_parts [] e =
        absurd (not_root (sym c ∙ clean-rooted a h ∙ ap (λ ps. slash ∷ join_parts ps) e))
    of_parts (p ∷ ps) e =
        ap (λ r. slash ∷ r) (ap leading e ∙ leading-cons p ps)
        ∙ ap (λ r. r ++ (slash ∷ []))
            (sym (sym c ∙ clean-rooted a h ∙ ap (λ ps. slash ∷ join_parts ps) e))

pub IsDirectory-join :
    (a p : Text) → IsDirectory a → is_element p ≡ true → join a p ≡ a ++ (slash ∷ p)
unfolding join ◌==◌ has_prefix
IsDirectory-join [] p (h, e) i = cc
IsDirectory-join (c ∷ a) p (h, e) i =
    clean-join (c ∷ a) p h i ∙ ap (λ r. r ++ p) e ∙ append_assoc (c ∷ a) (slash ∷ []) p

pub join-IsDirectory :
    (a p : Text) → IsDirectory a → is_element p ≡ true → IsDirectory (a ++ (slash ∷ p))
join-IsDirectory a p (h, e) i = (
  has_prefix-rooted a (slash ∷ p) h,
  ap (λ ps. slash ∷ leading ps) (parts_of-join a p i)
      ∙ ap (λ r. slash ∷ r) (leading-append (parts_of a) p)
      ∙ ap (λ r. r ++ (p ++ (slash ∷ []))) e
      ∙ append_assoc a (slash ∷ []) (p ++ (slash ∷ []))
      ∙ sym (append_assoc a (slash ∷ p) (slash ∷ [])),
)

-- A name in the root.
pub root-join :
    (p : Text) → is_element p ≡ true → (join (slash ∷ []) p ≡ slash ∷ p) × IsDirectory (slash ∷ p)
unfolding join ◌==◌ has_prefix parts_of split clean_part
root-join p i = (
  clean-join (slash ∷ []) p refl i,
  (has_prefix-rooted (slash ∷ []) p refl, ap (λ ps. slash ∷ leading ps) (parts_of-join [] p i)),
)
