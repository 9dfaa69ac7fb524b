-- ===== src/Prelude/Sort/Named.antt =====
-- Sorting by distinct names, as sort.Strings does with the keys of a map: the order of the map does not matter.
use mathlib.Core.Path.{◌≡◌, refl, ap, ◌∙◌}
use mathlib.Core.Bool.{true, false}
use mathlib.Core.List.{List, [], ◌∷◌}
use native.Mathlib.Omega.{arith}
use dumbcas.Prelude.Tests.{if◌then◌else◌}
use dumbcas.Prelude.Strings.{Text, text_lt, ◌==◌, eq_comm}
use dumbcas.Prelude.Sort.{insert_sorted, sort_strings}

text_lt_asymm : (a b : Text) → text_lt a b ≡ true → text_lt b a ≡ false
unfolding text_lt
text_lt_asymm [] [] h = cc
text_lt_asymm [] (y ∷ ys) h = refl
text_lt_asymm (x ∷ xs) [] h = cc
text_lt_asymm (x ∷ xs) (y ∷ ys) h = ground (arith, text_lt_asymm xs ys)

text_lt_total : (a b : Text) → (a == b) ≡ false → text_lt a b ≡ false → text_lt b a ≡ true
unfolding text_lt ◌==◌
text_lt_total [] [] h g = cc
text_lt_total [] (y ∷ ys) h g = cc
text_lt_total (x ∷ xs) [] h g = refl
text_lt_total (x ∷ xs) (y ∷ ys) h g = ground (arith, text_lt_total xs ys)

-- Less than something that is not greater.
text_lt_trans : (b y a : Text) → text_lt y b ≡ false → text_lt y a ≡ true → text_lt b a ≡ true
unfolding text_lt
text_lt_trans [] [] a h g = g
text_lt_trans [] (y ∷ ys) [] h g = cc
text_lt_trans [] (y ∷ ys) (x ∷ xs) h g = refl
text_lt_trans (z ∷ zs) [] a h g = cc
text_lt_trans (z ∷ zs) (y ∷ ys) [] h g = cc
text_lt_trans (z ∷ zs) (y ∷ ys) (x ∷ xs) h g = ground (arith, text_lt_trans zs ys xs)

module _ {A : Type 0} where
  insert_named : Text × A → List (Text × A) → List (Text × A)
  insert_named x [] = x ∷ []
  insert_named x (y ∷ ys) = if text_lt y.0 x.0 then y ∷ insert_named x ys else x ∷ y ∷ ys

  unfoldable pub sort_named : List (Text × A) → List (Text × A)
  unfolding insert_named
  sort_named [] = []
  sort_named (x ∷ xs) = insert_named x (sort_named xs)

  insert_named-insert_named :
      (a b : Text × A) (l : List (Text × A))
      → (a.0 == b.0) ≡ false
      → (b.0 == a.0) ≡ false
      → insert_named a (insert_named b l) ≡ insert_named b (insert_named a l)
  unfolding insert_named
  insert_named-insert_named a b [] h g =
      ground (arith, text_lt_asymm a.0 b.0, text_lt_total a.0 b.0 h, text_lt_total b.0 a.0 g)
  insert_named-insert_named a b (y ∷ ys) h g = ground (
    arith,
    insert_named-insert_named a b ys h g,
    text_lt_asymm a.0 b.0,
    text_lt_asymm b.0 a.0,
    text_lt_total a.0 b.0 h,
    text_lt_trans b.0 y.0 a.0,
    text_lt_trans a.0 y.0 b.0,
  )

  -- Two that stand in another order are sorted alike.
  pub sort_named-swap :
      (a b : Text × A) (l : List (Text × A))
      → (a.0 == b.0) ≡ false
      → sort_named (a ∷ b ∷ l) ≡ sort_named (b ∷ a ∷ l)
  unfolding sort_named
  sort_named-swap a b l h = insert_named-insert_named a b (sort_named l) h (eq_comm b.0 a.0 ∙ h)

  pub sort_named-cons :
      (x y : Text × A) (l m : List (Text × A))
      → x ≡ y
      → sort_named l ≡ sort_named m
      → sort_named (x ∷ l) ≡ sort_named (y ∷ m)
  unfolding sort_named
  sort_named-cons x y l m same tail = rw (same, tail) refl

  pub names : List (Text × A) → List Text
  names [] = []
  names (x ∷ xs) = x.0 ∷ names xs

  names-insert_named :
      (x : Text × A) (l : List (Text × A)) → names (insert_named x l) ≡ insert_sorted x.0 (names l)
  unfolding names insert_named insert_sorted
  names-insert_named x [] = refl
  names-insert_named x (y ∷ ys) = ground (arith, names-insert_named x ys)

  -- The names come in the order of sort.Strings.
  pub names-sort_named : (l : List (Text × A)) → names (sort_named l) ≡ sort_strings (names l)
  unfolding names sort_named sort_strings
  names-sort_named [] = refl
  names-sort_named (x ∷ xs) =
      names-insert_named x (sort_named xs) ∙ ap (insert_sorted x.0) (names-sort_named xs)
