-- ===== src/Prelude/FilePath/Ends.antt =====
-- The last element of a path, with no slash behind it and with one: filepath.Base and strings.Trim.
use mathlib.Core.Path.{◌≡◌, refl, sym, ap, ◌∙◌}
use mathlib.Core.Bool.{Bool, true, false, not, ◌&&◌}
use mathlib.Core.List.{
  List, [], ◌∷◌, ◌++◌, reverse, reverse_aux, reverse-append, reverse-reverse, append_assoc,
  append-nil,
}
use mathlib.Core.Logic.{inl, inr}
use native.Mathlib.Omega.{arith}
use dumbcas.Prelude.Tests.{Bool-cases, eqb}
use dumbcas.Prelude.Strings.{Text, ◌==◌, has_prefix, eq→path, eq_iff}
use dumbcas.Prelude.FilePath.{
  slash, split, base, base_of, last_part, drop_slashes, trim_slashes, has_suffix_slash,
}
use dumbcas.Prelude.FilePath.Elements.{is_flat, split-flat, split-append}

-- A name with no slash that is not empty.
abbrev pub is_name : Text → Bool
is_name p = is_flat p && not (p == [])

is_flat-reverse_aux :
    (p q : Text) → is_flat p ≡ true → is_flat q ≡ true → is_flat (reverse_aux p q) ≡ true
is_flat-reverse_aux [] q h g = g
is_flat-reverse_aux (c ∷ p) q h g = is_flat-reverse_aux p (c ∷ q) (ground arith) (ground arith)

nonempty-flat :
    (r s : Text) → is_flat r ≡ true → not (r == []) ≡ true → drop_slashes (r ++ s) ≡ r ++ s
unfolding ◌==◌
nonempty-flat [] s h g = cc
nonempty-flat (c ∷ r) s h g = let other : eqb c slash ≡ false = ground arith in rw other refl

drop_slashes-name : (p s : Text) → is_name p ≡ true → drop_slashes (p ++ s) ≡ p ++ s
drop_slashes-name p s h = nonempty-flat p s (ground arith) (ground arith)

is_name-reverse : (p : Text) → is_name p ≡ true → is_name (reverse p) ≡ true
is_name-reverse p h =
    let flat : is_flat (reverse p) ≡ true = is_flat-reverse_aux p [] (ground arith) refl in
    elim (Bool-cases (reverse p == [])) [
      | inl e ↦
          let none_left : p ≡ [] =
            sym (reverse-reverse p) ∙ ap reverse (eq→path (reverse p) [] e) in
          ground (arith, h, eq_iff p [], none_left)
      | inr e ↦ rw (flat, e) refl
    ]

-- Before a name at the end nothing is dropped from the other side.
drop_slashes-reverse :
    (a p : Text) → is_name p ≡ true → reverse (drop_slashes (reverse (a ++ p))) ≡ a ++ p
drop_slashes-reverse a p h =
    ap (λ t. reverse (drop_slashes t)) (reverse-append a p)
    ∙ ap reverse (drop_slashes-name (reverse p) (reverse a) (is_name-reverse p h))
    ∙ ap reverse (sym (reverse-append a p))
    ∙ reverse-reverse (a ++ p)

last_part-append : (ps : List Text) (p : Text) → last_part (ps ++ p ∷ []) ≡ p
last_part-append [] p = refl
last_part-append (q ∷ []) p = refl
last_part-append (q ∷ r ∷ ps) p = last_part-append (r ∷ ps) p

base_of-cons : (s : Text) → not (s == []) ≡ true → base_of s ≡ last_part (split s)
unfolding ◌==◌
base_of-cons [] h = cc
base_of-cons (c ∷ s) h = refl

pub nonempty-append : (d p : Text) → not (d ++ (slash ∷ p) == []) ≡ true
unfolding ◌==◌
nonempty-append [] p = refl
nonempty-append (c ∷ d) p = refl

base_of-last : (d p : Text) → is_name p ≡ true → base_of (d ++ (slash ∷ p)) ≡ p
base_of-last d p h =
    base_of-cons (d ++ (slash ∷ p)) (nonempty-append d p)
    ∙ ap last_part (split-append d p)
    ∙ ap (λ t. last_part (split d ++ t)) (split-flat p (ground arith))
    ∙ last_part-append (split d) p

base-cons :
    (s : Text) → not (s == []) ≡ true → base s ≡ base_of (reverse (drop_slashes (reverse s)))
unfolding base ◌==◌
base-cons [] h = cc
base-cons (c ∷ s) h = refl

drop_slashes-last :
    (d p : Text)
    → is_name p ≡ true
    → reverse (drop_slashes (reverse (d ++ (slash ∷ p)))) ≡ d ++ (slash ∷ p)
drop_slashes-last d p h =
    ap (λ t. reverse (drop_slashes (reverse t))) (sym (append_assoc d (slash ∷ []) p))
    ∙ drop_slashes-reverse (d ++ (slash ∷ [])) p h
    ∙ append_assoc d (slash ∷ []) p

pub base-last : (d p : Text) → is_name p ≡ true → base (d ++ (slash ∷ p)) ≡ p
base-last d p h =
    base-cons (d ++ (slash ∷ p)) (nonempty-append d p)
    ∙ ap base_of (drop_slashes-last d p h)
    ∙ base_of-last d p h

pub base-slash : (d p : Text) → is_name p ≡ true → base ((d ++ (slash ∷ p)) ++ (slash ∷ [])) ≡ p
base-slash d p h =
    let s = d ++ (slash ∷ p) in
    base-cons (s ++ (slash ∷ [])) (nonempty-append s [])
    ∙ ap (λ t. base_of (reverse (drop_slashes t))) (reverse-append s (slash ∷ []))
    ∙ ap base_of (drop_slashes-last d p h)
    ∙ base_of-last d p h

name_first : (p s : Text) → is_name p ≡ true → has_prefix (p ++ s) (slash ∷ []) ≡ false
unfolding has_prefix ◌==◌
name_first [] s h = cc
name_first (c ∷ p) s h = ground arith

pub has_suffix_slash-last :
    (d p : Text) → is_name p ≡ true → has_suffix_slash (d ++ (slash ∷ p)) ≡ false
unfolding has_suffix_slash
has_suffix_slash-last d p h =
    ap (λ t. has_prefix t (slash ∷ []))
      (reverse-append d (slash ∷ p)
        ∙ ap (λ t. t ++ reverse d) (reverse-append (slash ∷ []) p)
        ∙ append_assoc (reverse p) (slash ∷ []) (reverse d))
    ∙ name_first (reverse p) ((slash ∷ []) ++ reverse d) (is_name-reverse p h)

-- What strings.Trim leaves of a path that ends in a name, and of a path that goes on behind it.
Trims : Text → Text → Text → Type 0
Trims d p u = (z : Text) → drop_slashes (d ++ (slash ∷ (p ++ z))) ≡ u ++ (p ++ z)

last-Trims : (d p : Text) → is_name p ≡ true → (u : Text) × Trims d p u
unfolding Trims
last-Trims [] p h = ([], λ z. drop_slashes-name p z h)
last-Trims (c ∷ d) p h = elim (Bool-cases (eqb c slash)) [
  | inl e ↦ let (u, f) = last-Trims d p h in (u, λ z. rw e (f z))
  | inr e ↦ ((c ∷ d) ++ (slash ∷ []), λ z. rw e (sym (append_assoc (c ∷ d) (slash ∷ []) (p ++ z))))
]

trimmed :
    (d p u v q : Text)
    → drop_slashes (d ++ (slash ∷ (p ++ v))) ≡ u ++ q
    → is_name q ≡ true
    → trim_slashes (d ++ (slash ∷ (p ++ v))) ≡ u ++ q
unfolding trim_slashes
trimmed d p u v q e h = ap (λ t. reverse (drop_slashes (reverse t))) e ∙ drop_slashes-reverse u q h

name_last : (u p : Text) → not (p == []) ≡ true → not (u ++ p == []) ≡ true
unfolding ◌==◌
name_last [] p h = h
name_last (c ∷ u) p h = refl

-- strings.Trim of a path that ends in a name, and of the path with the name behind it once more.
pub trim_slashes-twice :
    (d p : Text)
    → is_name p ≡ true
    → (t : Text) × (trim_slashes (d ++ (slash ∷ p)) ≡ t)
      × (trim_slashes (d ++ (slash ∷ (p ++ (slash ∷ p)))) ≡ t ++ (slash ∷ p))
      × (not (t == []) ≡ true)
unfolding Trims
trim_slashes-twice d p h =
    let (u, f) = last-Trims d p h in
    let longer : u ++ (p ++ (slash ∷ p)) ≡ (u ++ (p ++ (slash ∷ []))) ++ p =
      ap (λ t. u ++ t) (sym (append_assoc p (slash ∷ []) p))
      ∙ sym (append_assoc u (p ++ (slash ∷ [])) p) in
    (
      u ++ p,
      ap (λ t. trim_slashes (d ++ (slash ∷ t))) (sym (append-nil p))
          ∙ trimmed d p u [] p (f [] ∙ ap (λ t. u ++ t) (append-nil p)) h,
      trimmed d p (u ++ (p ++ (slash ∷ []))) (slash ∷ p) p (f (slash ∷ p) ∙ longer) h
          ∙ sym longer
          ∙ sym (append_assoc u p (slash ∷ p)),
      name_last u p (ground arith),
    )
