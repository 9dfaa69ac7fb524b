-- ===== src/Prelude/FilePath/Suffixes.antt =====
-- Names that end in a number are different, also after filepath.Clean.
use Prim.Native.Nat.{ℕ, zero, suc, ◌+◌, ◌-◌, ◌*◌, ◌/◌, ◌%◌, ◌<◌}
use dumbcas.Prelude.Strings.{Text, text, ◌==◌, has_prefix}
use dumbcas.Prelude.Lists.{drop}
use mathlib.Core.List.{foldl-append, append_cancel_left}
use mathlib.Core.Logic.{inl, inr}
use dumbcas.Prelude.Tests.{Bool-cases, eqb, ltb, if◌then◌else◌}
use dumbcas.Prelude.FilePath.{slash, split, join_parts, clean_part, clean, digits, decimal}
use dumbcas.Prelude.FilePath.Elements.{is_flat, split-flat, leading, join_parts-append}
use mathlib.Core.Path.{◌≡◌, refl, sym, ap, ◌∙◌}
use mathlib.Core.Bool.{Bool, true, false, ◌&&◌}
use mathlib.Core.List.{List, [], ◌∷◌, ◌++◌, reverse, foldl, reverse-append, append_assoc}
use native.Mathlib.Omega.{arith}

-- The number that digits stand for, after those that were read.
read : ℕ → Text → ℕ
read v [] = v
read v (c ∷ s) = read (10 * v + (c - 48)) s

read-digits : (f n : ℕ) (acc : Text) → n < f → read 0 (digits f n acc) ≡ read n acc
unfolding read
read-digits zero n acc h = absurd (omega arith)
read-digits (suc f) n acc h = elim (Bool-cases (ltb n 10)) [
  | inl small ↦
      let v : 10 * 0 + (48 + n - 48) ≡ n = omega arith in rw small (ap (λ k. read k acc) v)
  | inr large ↦
      let least : n / 10 < f = ground arith in
      let v : 10 * (n / 10) + (48 + n % 10 - 48) ≡ n = omega arith in
      rw large (read-digits f (n / 10) ((48 + n % 10) ∷ acc) least ∙ ap (λ k. read k acc) v)
]

digits-append : (f n : ℕ) (acc t : Text) → digits f n acc ++ t ≡ digits f n (acc ++ t)
digits-append zero n acc t = refl
digits-append (suc f) n acc t = elim (Bool-cases (ltb n 10)) [
  | inl small ↦ rw small refl
  | inr large ↦ rw large (digits-append f (n / 10) ((48 + n % 10) ∷ acc) t)
]

decimal-close : (n : ℕ) → decimal n ++ text ")" ≡ digits (suc n) n (text ")")
unfolding decimal
decimal-close n = digits-append (suc n) n [] (text ")")

-- A number with a bracket after it.
pub decimal-injective : (m n : ℕ) → decimal m ++ text ")" ≡ decimal n ++ text ")" → m ≡ n
unfolding read
decimal-injective m n e =
    let a = read-digits (suc m) m (text ")") (omega arith) in
    let b = read-digits (suc n) n (text ")") (omega arith) in
    let same : 10 * m + (41 - 48) ≡ 10 * n + (41 - 48) =
      sym a ∙ ap (read 0) (sym (decimal-close m) ∙ e ∙ decimal-close n) ∙ b in
    omega arith

-- The elements before the last one, and what the last one begins with, for every end that is appended.
Splits : Text → List Text → Text → Type 0
Splits a ps l = (s : Text) → is_flat s ≡ true → split (a ++ s) ≡ ps ++ ((l ++ s) ∷ [])

split-suffix : (a : Text) → (ps : List Text) × (l : Text) × Splits a ps l
unfolding split Splits
split-suffix [] = ([], [], λ s h. split-flat s h)
split-suffix (c ∷ a) = let (ps, l, e) = split-suffix a in longer ps l e
  where
    longer :
        (ps : List Text) (l : Text)
        → Splits a ps l
        → (qs : List Text) × (k : Text) × Splits (c ∷ a) qs k
    longer ps l e = elim (Bool-cases (eqb c slash)) [
      | inl h ↦ ([] ∷ ps, l, λ s f. rw (h, e s f) refl)
      | inr h ↦ joined ps e h
    ]
      where
        joined :
            (ps : List Text)
            → Splits a ps l
            → eqb c slash ≡ false
            → (qs : List Text) × (k : Text) × Splits (c ∷ a) qs k
        joined [] e h = ([], c ∷ l, λ s f. rw (h, e s f) refl)
        joined (p ∷ ps) e h = ((c ∷ p) ∷ ps, l, λ s f. rw (h, e s f) refl)

and_false : (b : Bool) → (b && false) ≡ false
and_false true = refl
and_false false = refl

bracket-nil : (l s : Text) → ((l ++ (b'(' ∷ s)) == []) ≡ false
unfolding ◌==◌
bracket-nil [] s = refl
bracket-nil (x ∷ l) s = refl

bracket-dot : (l s : Text) → ((l ++ (b'(' ∷ s)) == text ".") ≡ false
unfolding ◌==◌
bracket-dot [] s = refl
bracket-dot (x ∷ l) s = rw (bracket-nil l s) (and_false (eqb x b'.'))

bracket-dots : (l s : Text) → ((l ++ (b'(' ∷ s)) == text "..") ≡ false
unfolding ◌==◌
bracket-dots [] s = refl
bracket-dots (x ∷ l) s = rw (bracket-dot l s) (and_false (eqb x b'.'))

-- The end of an element that begins with a bracket.
clean_part-bracket :
    (rooted : Bool) (stack : List Text) (l s : Text)
    → clean_part rooted stack (l ++ (b'(' ∷ s)) ≡ (l ++ (b'(' ∷ s)) ∷ stack
unfolding clean_part
clean_part-bracket rooted stack l s = rw (bracket-nil l s, bracket-dot l s, bracket-dots l s) refl

body-suffix :
    (rooted : Bool) (a l s : Text) (ps : List Text)
    → Splits a ps l
    → is_flat s ≡ true
    → join_parts (reverse (foldl (clean_part rooted) [] (split (a ++ (b'(' ∷ s)))))
      ≡ (leading (reverse (foldl (clean_part rooted) [] ps)) ++ l) ++ (b'(' ∷ s)
unfolding Splits
body-suffix rooted a l s ps e f =
    let t = b'(' ∷ s in
    let stack = foldl (clean_part rooted) [] ps in
    ap (λ qs. join_parts (reverse (foldl (clean_part rooted) [] qs))) (e t f)
    ∙ ap (λ qs. join_parts (reverse qs))
        (foldl-append (clean_part rooted) [] ps ((l ++ t) ∷ [])
          ∙ clean_part-bracket rooted stack l s)
    ∙ ap join_parts (reverse-append ((l ++ t) ∷ []) stack)
    ∙ join_parts-append (reverse stack) (l ++ t)
    ∙ sym (append_assoc (leading (reverse stack)) l t)

abbrev finish : Bool → Text → Text
finish rooted body = if rooted then slash ∷ body else if body == [] then text "." else body

-- An end of that kind is still there after cleaning, and what is before it does not depend on it.
pub clean-suffix :
    (c : ℕ) (a : Text)
    → (before : Text) × ((s : Text)
        → is_flat s ≡ true
        → clean (c ∷ (a ++ (b'(' ∷ s))) ≡ before ++ (b'(' ∷ s))
unfolding clean has_prefix
clean-suffix c a =
    let (ps, l, e) = split-suffix (c ∷ a) in
    let rooted = eqb c slash && true in
    let body = leading (reverse (foldl (clean_part rooted) [] ps)) ++ l in
    let joined = λ (s : Text).
      join_parts (reverse (foldl (clean_part rooted) [] (split (c ∷ (a ++ (b'(' ∷ s)))))) in
    elim (Bool-cases rooted) [
      | inl h ↦ (
        slash ∷ body,
        λ s f.
            ap (λ b. finish b (joined s)) h
            ∙ ap (λ r. slash ∷ r) (body-suffix rooted (c ∷ a) l s ps e f),
      )
      | inr h ↦ (
        body,
        λ s f.
            ap (λ b. finish b (joined s)) h
            ∙ ap (finish false) (body-suffix rooted (c ∷ a) l s ps e f)
            ∙ rw (bracket-nil body s) refl,
      )
    ]

-- Different ends stay different.
pub clean-injective :
    (c : ℕ) (a s t : Text)
    → is_flat s ≡ true
    → is_flat t ≡ true
    → clean (c ∷ (a ++ (b'(' ∷ s))) ≡ clean (c ∷ (a ++ (b'(' ∷ t)))
    → s ≡ t
clean-injective c a s t f g e =
    let (before, h) = clean-suffix c a in
    ap (drop 1) (append_cancel_left before (b'(' ∷ s) (b'(' ∷ t) (sym (h s f) ∙ e ∙ h t g))

is_flat-digits : (f n : ℕ) (acc : Text) → is_flat acc ≡ true → is_flat (digits f n acc) ≡ true
is_flat-digits zero n acc h = h
is_flat-digits (suc f) n acc h = elim (Bool-cases (ltb n 10)) [
  | inl small ↦ rw small (ground (arith, h))
  | inr large ↦ rw large (is_flat-digits f (n / 10) ((48 + n % 10) ∷ acc) (ground (arith, h)))
]

pub is_flat-decimal : (n : ℕ) → is_flat (decimal n ++ text ")") ≡ true
is_flat-decimal n = rw (decimal-close n) (is_flat-digits (suc n) n (text ")") refl)
