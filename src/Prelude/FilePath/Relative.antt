-- ===== src/Prelude/FilePath/Relative.antt =====
-- filepath.Join of a rooted directory and a relative path of several elements.
use Prim.Native.Nat.{ℕ}
use mathlib.Core.Path.{◌≡◌, refl, sym, ap, ◌∙◌}
use mathlib.Core.Bool.{true}
use mathlib.Core.List.{
  List, [], ◌∷◌, ◌++◌, reverse, reverse_aux, foldl, foldl-append, reverse-append, append_assoc,
  append-nil,
}
use mathlib.Core.Logic.{inl, inr, ◌≢◌}
use native.Mathlib.Omega.{arith}
use dumbcas.Prelude.Tests.{Bool-cases, eqb, if◌then◌else◌}
use dumbcas.Prelude.Strings.{Text, ◌==◌, has_prefix, eq→path, eq_iff}
use dumbcas.Prelude.FilePath.{slash, split, join_parts, clean_part, clean, join}
use dumbcas.Prelude.FilePath.Elements.{
  parts_of, split-cons, split-append, leading, clean-IsDirectory, has_prefix-rooted, clean-rooted,
}
use dumbcas.Prelude.FilePath.Cleaning.{IsRooted, all_elements, foldl-reverse_aux}

join_parts-on_head :
    (c : ℕ) (q : Text) (qs : List Text) → join_parts ((c ∷ q) ∷ qs) ≡ c ∷ join_parts (q ∷ qs)
unfolding join_parts
join_parts-on_head c q [] = refl
join_parts-on_head c q (r ∷ qs) = refl

join_parts-nil :
    (q : Text) (qs : List Text) → join_parts ([] ∷ q ∷ qs) ≡ slash ∷ join_parts (q ∷ qs)
unfolding join_parts
join_parts-nil q qs = refl

pub join_parts-split : (s : Text) → join_parts (split s) ≡ s
unfolding split join_parts
join_parts-split [] = refl
join_parts-split (c ∷ s) =
    let (q, qs, e) = split-cons s in
    let rest : join_parts (q ∷ qs) ≡ s = ap join_parts (sym e) ∙ join_parts-split s in
    elim (Bool-cases (eqb c slash)) [
      | inl h ↦
          let at : slash ≡ c = ground (arith, h) in
          rw (h, e) (join_parts-nil q qs ∙ ap (λ t. slash ∷ t) rest ∙ ap (λ d. d ∷ s) at)
      | inr h ↦ rw (h, e) (join_parts-on_head c q qs ∙ ap (λ t. c ∷ t) rest)
    ]

reverse_aux-reverse : (ps qs : List Text) → reverse (reverse_aux ps qs) ≡ reverse qs ++ ps
reverse_aux-reverse [] qs = sym (append-nil (reverse qs))
reverse_aux-reverse (p ∷ ps) qs =
    reverse_aux-reverse ps (p ∷ qs)
    ∙ ap (λ t. t ++ ps) (reverse-append (p ∷ []) qs)
    ∙ append_assoc (reverse qs) (p ∷ []) ps

-- The elements of a path below a directory.
parts_of-below :
    (a p : Text)
    → all_elements (split p) ≡ true
    → parts_of (a ++ (slash ∷ p)) ≡ parts_of a ++ split p
unfolding parts_of
parts_of-below a p h =
    let ps = foldl (clean_part true) [] (split a) in
    rw (split-append a p) (
      rw (foldl-append (clean_part true) [] (split a) (split p))
        (rw (foldl-reverse_aux ps (split p) h) (reverse_aux-reverse (split p) ps)))

join_parts-leading :
    (ps : List Text) (q : Text) (qs : List Text)
    → join_parts (ps ++ q ∷ qs) ≡ leading ps ++ join_parts (q ∷ qs)
unfolding join_parts
join_parts-leading [] q qs = refl
join_parts-leading (p ∷ []) q qs = rw append_assoc refl
join_parts-leading (p ∷ r ∷ ps) q qs =
    rw (join_parts-leading (r ∷ ps) q qs)
      (sym (append_assoc p (slash ∷ leading (r ∷ ps)) (join_parts (q ∷ qs))))

join_parts-below : (ps : List Text) (p : Text) → join_parts (ps ++ split p) ≡ leading ps ++ p
join_parts-below ps p =
    let (q, qs, e) = split-cons p in
    ap (λ t. join_parts (ps ++ t)) e
    ∙ join_parts-leading ps q qs
    ∙ ap (λ t. leading ps ++ join_parts t) (sym e)
    ∙ ap (λ t. leading ps ++ t) (join_parts-split p)

clean-below :
    (a p : Text)
    → IsRooted a
    → all_elements (split p) ≡ true
    → clean (a ++ (slash ∷ p)) ≡ slash ∷ (leading (parts_of a) ++ p)
clean-below a p r h =
    clean-rooted (a ++ (slash ∷ p)) (has_prefix-rooted a (slash ∷ p) r)
    ∙ ap (λ ps. slash ∷ join_parts ps) (parts_of-below a p h)
    ∙ ap (λ t. slash ∷ t) (join_parts-below (parts_of a) p)

join-rooted : (a p : Text) → IsRooted a → join a p ≡ clean (a ++ (slash ∷ p))
unfolding join ◌==◌ has_prefix
join-rooted [] p r = cc
join-rooted (c ∷ a) p r = refl

-- A path below a directory: both with a slash between, which the root has already.
abbrev pub below : Text → Text → Text
below a p = if a == slash ∷ [] then slash ∷ p else a ++ (slash ∷ p)

root_parts : parts_of (slash ∷ []) ≡ []
unfolding parts_of split clean_part ◌==◌
root_parts = refl

pub join-below :
    (a p : Text) → IsRooted a → clean a ≡ a → all_elements (split p) ≡ true → join a p ≡ below a p
join-below a p r c h = elim (Bool-cases (a == slash ∷ [])) [
  | inl e ↦ rw e (
      join-rooted a p r
      ∙ clean-below a p r h
      ∙ ap (λ t. slash ∷ (leading t ++ p)) (ap parts_of (eq→path a (slash ∷ []) e) ∙ root_parts))
  | inr e ↦
      let other : a ≢ slash ∷ [] = (λ g. ground (arith, eq_iff a (slash ∷ []), e, g)) in
      rw e (
        join-rooted a p r
        ∙ clean-below a p r h
        ∙ ap (λ t. t ++ p) (clean-IsDirectory a r c other).1
        ∙ append_assoc a (slash ∷ []) p)
]

pub clean-absolute : (p : Text) → all_elements (split p) ≡ true → clean (slash ∷ p) ≡ slash ∷ p
unfolding has_prefix parts_of split clean_part ◌==◌
clean-absolute p h =
    clean-rooted (slash ∷ p) (has_prefix-rooted (slash ∷ []) p refl)
    ∙ ap (λ ps. slash ∷ join_parts ps) (parts_of-below [] p h)
    ∙ ap (λ t. slash ∷ t) (join_parts-below (parts_of []) p)
