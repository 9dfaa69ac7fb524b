-- ===== src/Prelude/FilePath/Cleaning.antt =====
-- filepath.Clean of a rooted path, and of what it gives.
use mathlib.Core.Path.{◌≡◌, refl, sym, ap, ◌∙◌}
use mathlib.Core.Bool.{Bool, true, false, ◌&&◌}
use mathlib.Core.List.{
  List, [], ◌∷◌, ◌++◌, reverse, reverse_aux, foldl, reverse-append, reverse-reverse,
}
use mathlib.Core.Logic.{inl, inr}
use native.Mathlib.Omega.{arith}
use dumbcas.Prelude.Tests.{Bool-cases, eqb}
use dumbcas.Prelude.Strings.{Text, ◌==◌, has_prefix}
use dumbcas.Prelude.FilePath.{
  slash, split, join_parts, clean_part, clean, join, go_up, on_head, up_to_slash, dir,
}
use dumbcas.Prelude.FilePath.Elements.{
  is_flat, is_element, parts_of, split-flat, split-append, clean_part-element, has_prefix-rooted,
  clean-rooted,
}

abbrev pub all_elements : List Text → Bool
all_elements [] = true
all_elements (p ∷ ps) = is_element p && all_elements ps

abbrev all_flat : List Text → Bool
all_flat [] = true
all_flat (p ∷ ps) = is_flat p && all_flat ps

split-flat_parts : (s : Text) → all_flat (split s) ≡ true
unfolding split
split-flat_parts [] = refl
split-flat_parts (c ∷ s) = elim (Bool-cases (eqb c slash)) [
  | inl h ↦ rw h (split-flat_parts s)
  | inr h ↦ rw h (on_head-flat (split s) h (split-flat_parts s))
]
  where
    on_head-flat :
        (ps : List Text) → eqb c slash ≡ false → all_flat ps ≡ true → all_flat (on_head c ps) ≡ true
    on_head-flat [] h f = ground arith
    on_head-flat (p ∷ ps) h f = ground arith

clean_part-elements :
    (ps : List Text) (p : Text)
    → is_flat p ≡ true
    → all_elements ps ≡ true
    → all_elements (clean_part true ps p) ≡ true
unfolding clean_part go_up
clean_part-elements [] p f h = ground arith
clean_part-elements (q ∷ ps) p f h = ground arith

foldl-elements :
    (ps qs : List Text)
    → all_flat qs ≡ true
    → all_elements ps ≡ true
    → all_elements (foldl (clean_part true) ps qs) ≡ true
foldl-elements ps [] f h = h
foldl-elements ps (q ∷ qs) f h =
    foldl-elements (clean_part true ps q) qs (ground arith)
      (clean_part-elements ps q (ground arith) h)

-- Elements are put onto the stack one by one.
pub foldl-reverse_aux :
    (qs ps : List Text) → all_elements ps ≡ true → foldl (clean_part true) qs ps ≡ reverse_aux ps qs
foldl-reverse_aux qs [] h = refl
foldl-reverse_aux qs (p ∷ ps) h =
    rw (clean_part-element qs p (ground arith)) (foldl-reverse_aux (p ∷ qs) ps (ground arith))

all_elements-reverse_aux :
    (ps qs : List Text)
    → all_elements ps ≡ true
    → all_elements qs ≡ true
    → all_elements (reverse_aux ps qs) ≡ true
all_elements-reverse_aux [] qs h g = g
all_elements-reverse_aux (p ∷ ps) qs h g =
    all_elements-reverse_aux ps (p ∷ qs) (ground arith) (ground arith)

pub parts_of-elements : (a : Text) → all_elements (parts_of a) ≡ true
unfolding parts_of
parts_of-elements a =
    all_elements-reverse_aux (foldl (clean_part true) [] (split a)) []
      (foldl-elements [] (split a) (split-flat_parts a) refl) refl

split-join_parts :
    (p : Text) (ps : List Text)
    → all_elements (p ∷ ps) ≡ true
    → split (join_parts (p ∷ ps)) ≡ p ∷ ps
unfolding join_parts
split-join_parts p [] h = split-flat p (ground arith)
split-join_parts p (q ∷ ps) h =
    rw
      (
        split-append p (join_parts (q ∷ ps)),
        split-flat p (ground arith),
        split-join_parts q ps (ground arith),
      )
      refl

-- The elements of a path that was put together of elements.
parts_of-join_parts :
    (ps : List Text) → all_elements ps ≡ true → parts_of (slash ∷ join_parts ps) ≡ ps
unfolding parts_of split clean_part join_parts ◌==◌
parts_of-join_parts [] h = refl
parts_of-join_parts (p ∷ ps) h =
    rw (split-join_parts p ps h, foldl-reverse_aux [] (p ∷ ps) h) (reverse-reverse (p ∷ ps))

abbrev pub IsRooted : Text → Type 0
IsRooted a = has_prefix a (slash ∷ []) ≡ true

pub clean-IsRooted : (a : Text) → IsRooted a → IsRooted (clean a)
unfolding has_prefix
clean-IsRooted a h = rw (clean-rooted a h) refl

-- Cleaning a rooted path again changes nothing.
pub clean-clean : (a : Text) → IsRooted a → clean (clean a) ≡ clean a
clean-clean a h =
    clean-rooted (clean a) (clean-IsRooted a h)
    ∙ ap (λ ps. slash ∷ join_parts ps)
        (ap parts_of (clean-rooted a h) ∙ parts_of-join_parts (parts_of a) (parts_of-elements a))
    ∙ sym (clean-rooted a h)

pub join-IsRooted : (a b : Text) → IsRooted a → IsRooted (join a b)
unfolding join ◌==◌ has_prefix
join-IsRooted [] b h = cc
join-IsRooted (c ∷ a) b h =
    clean-IsRooted (c ∷ a ++ (slash ∷ b)) (has_prefix-rooted (c ∷ a) (slash ∷ b) h)

-- A path that is absolute and clean.
abbrev pub IsCleaned : Text → Type 0
IsCleaned a = IsRooted a × (clean a ≡ a)

pub join-IsCleaned : (a b : Text) → IsRooted a → IsCleaned (join a b)
unfolding join ◌==◌ has_prefix
join-IsCleaned [] b h = cc
join-IsCleaned (c ∷ a) b h = (
  join-IsRooted (c ∷ a) b h,
  clean-clean (c ∷ a ++ (slash ∷ b)) (has_prefix-rooted (c ∷ a) (slash ∷ b) h),
)

up_to_slash-append : (u : Text) → (v : Text) × (up_to_slash (u ++ (slash ∷ [])) ≡ v ++ (slash ∷ []))
up_to_slash-append [] = ([], refl)
up_to_slash-append (c ∷ u) = elim (Bool-cases (eqb c slash)) [
  | inl h ↦ (c ∷ u, rw h refl)
  | inr h ↦ let (v, e) = up_to_slash-append u in (v, rw h e)
]

up_to_slash-IsRooted : (a : Text) → IsRooted a → IsRooted (reverse (up_to_slash (reverse a)))
unfolding has_prefix
up_to_slash-IsRooted [] h = cc
up_to_slash-IsRooted (c ∷ s) h =
    let (v, e) = up_to_slash-append (reverse s) in
    let ending : up_to_slash (reverse (c ∷ s)) ≡ v ++ (slash ∷ []) =
      ap (λ d. up_to_slash (reverse (d ∷ s))) (ground arith)
      ∙ ap up_to_slash (reverse-append (slash ∷ []) s)
      ∙ e in
    rw (ap reverse ending ∙ reverse-append v (slash ∷ [])) refl

pub dir-IsRooted : (a : Text) → IsRooted a → IsRooted (dir a)
unfolding dir
dir-IsRooted a h = clean-IsRooted (reverse (up_to_slash (reverse a))) (up_to_slash-IsRooted a h)

pub clean-dir : (a : Text) → IsRooted a → clean (dir a) ≡ dir a
unfolding dir
clean-dir a h = clean-clean (reverse (up_to_slash (reverse a))) (up_to_slash-IsRooted a h)
