-- ===== src/Prelude/Trim.antt =====
-- strings.TrimSpace on the bytes of a string in UTF-8.
use Prim.Native.Nat.{ℕ, zero, suc, ◌-◌}
use mathlib.Core.Path.{◌≡◌, refl, ap, ◌∙◌}
use mathlib.Core.Bool.{Bool, true, not, ◌&&◌}
use mathlib.Core.List.{List, [], ◌∷◌, ◌++◌, map, reverse, reverse-append, reverse-reverse}
use native.Mathlib.Omega.{arith}
use dumbcas.Prelude.Lists.{length, drop}
use dumbcas.Prelude.Tests.{both, eqb, if◌then◌else◌}
use dumbcas.Prelude.Strings.{Text, has_prefix}

-- The runes of unicode.IsSpace, encoded: tab to carriage return and the space, U+0085, U+00A0, U+1680,
-- U+2000 to U+200A, U+2028, U+2029, U+202F, U+205F and U+3000.
abbrev spaces : List Text
spaces =
    (9 ∷ [])
    ∷ (10 ∷ [])
    ∷ (11 ∷ [])
    ∷ (12 ∷ [])
    ∷ (13 ∷ [])
    ∷ (32 ∷ [])
    ∷ (194 ∷ 133 ∷ [])
    ∷ (194 ∷ 160 ∷ [])
    ∷ (225 ∷ 154 ∷ 128 ∷ [])
    ∷ (226 ∷ 128 ∷ 128 ∷ [])
    ∷ (226 ∷ 128 ∷ 129 ∷ [])
    ∷ (226 ∷ 128 ∷ 130 ∷ [])
    ∷ (226 ∷ 128 ∷ 131 ∷ [])
    ∷ (226 ∷ 128 ∷ 132 ∷ [])
    ∷ (226 ∷ 128 ∷ 133 ∷ [])
    ∷ (226 ∷ 128 ∷ 134 ∷ [])
    ∷ (226 ∷ 128 ∷ 135 ∷ [])
    ∷ (226 ∷ 128 ∷ 136 ∷ [])
    ∷ (226 ∷ 128 ∷ 137 ∷ [])
    ∷ (226 ∷ 128 ∷ 138 ∷ [])
    ∷ (226 ∷ 128 ∷ 168 ∷ [])
    ∷ (226 ∷ 128 ∷ 169 ∷ [])
    ∷ (226 ∷ 128 ∷ 175 ∷ [])
    ∷ (226 ∷ 129 ∷ 159 ∷ [])
    ∷ (227 ∷ 128 ∷ 128 ∷ [])
    ∷ []

-- The length of the first of the encodings that a text begins with, or 0.
abbrev pub space_length : List Text → Text → ℕ
space_length [] s = 0
space_length (p ∷ ps) s = if has_prefix s p then length p else space_length ps s

-- A text without the first `n` bytes and the encodings after them.
unfoldable pub trim_left : List Text → ℕ → Text → Text
trim_left ps n [] = []
trim_left ps zero (c ∷ s) =
    let rest = trim_left ps (space_length ps (c ∷ s) - 1) s in
    if eqb (space_length ps (c ∷ s)) 0 then c ∷ s else rest
trim_left ps (suc n) (c ∷ s) = trim_left ps n s

unfoldable pub trim_space : Text → Text
trim_space s = reverse (trim_left (map reverse spaces) 0 (reverse (trim_left spaces 0 s)))

-- Neither end of a text is a space.
abbrev pub is_trimmed : Text → Bool
is_trimmed s =
    eqb (space_length spaces s) 0 && eqb (space_length (map reverse spaces) (reverse s)) 0

trim_left-none :
    (ps : List Text) (s : Text) → eqb (space_length ps s) 0 ≡ true → trim_left ps 0 s ≡ s
unfolding trim_left
trim_left-none ps [] h = refl
trim_left-none ps (c ∷ s) h = rw h refl

-- Nothing is cut off a trimmed text.
pub trim_space-trimmed : (s : Text) → is_trimmed s ≡ true → trim_space s ≡ s
unfolding trim_space
trim_space-trimmed s h =
    let (left, right) = both h in
    rw (trim_left-none spaces s left, trim_left-none (map reverse spaces) (reverse s) right)
      (reverse-reverse s)

abbrev pub no_newline : Text → Bool
no_newline [] = true
no_newline (c ∷ s) = not (eqb c 10) && no_newline s

-- No newline but at the beginning of an encoding.
abbrev newline_first : List Text → Bool
newline_first [] = true
newline_first (p ∷ ps) = no_newline (drop 1 p) && newline_first ps

has_prefix-newline :
    (s p : Text) → no_newline p ≡ true → has_prefix (s ++ (10 ∷ [])) p ≡ has_prefix s p
unfolding has_prefix
has_prefix-newline [] [] h = refl
has_prefix-newline [] (d ∷ p) h = ground arith
has_prefix-newline (c ∷ s) [] h = refl
has_prefix-newline (c ∷ s) (d ∷ p) h = ground (arith, has_prefix-newline s p)

has_prefix-cons_newline :
    (c : ℕ) (s p : Text)
    → no_newline (drop 1 p) ≡ true
    → has_prefix (c ∷ s ++ (10 ∷ [])) p ≡ has_prefix (c ∷ s) p
unfolding has_prefix
has_prefix-cons_newline c s [] h = refl
has_prefix-cons_newline c s (d ∷ p) h = rw (has_prefix-newline s p h) refl

space_length-newline :
    (ps : List Text) (c : ℕ) (s : Text)
    → newline_first ps ≡ true
    → space_length ps (c ∷ s ++ (10 ∷ [])) ≡ space_length ps (c ∷ s)
space_length-newline [] c s h = refl
space_length-newline (p ∷ ps) c s h =
    let (first, rest) = both h in
    rw (has_prefix-cons_newline c s p first, space_length-newline ps c s rest) refl

trim_left-newline :
    (s : Text) → trim_left (map reverse spaces) 0 (10 ∷ s) ≡ trim_left (map reverse spaces) 0 s
unfolding trim_left has_prefix
trim_left-newline s = refl

-- The newline at the end of a trimmed text is cut off.
pub trim_space-newline :
    (c : ℕ) (s : Text) → is_trimmed (c ∷ s) ≡ true → trim_space (c ∷ s ++ (10 ∷ [])) ≡ c ∷ s
unfolding trim_space
trim_space-newline c s h =
    let (left, right) = both h in
    let whole : trim_left spaces 0 (c ∷ s ++ (10 ∷ [])) ≡ c ∷ s ++ (10 ∷ []) =
      trim_left-none spaces (c ∷ s ++ (10 ∷ [])) (rw (space_length-newline spaces c s refl) left) in
    ap reverse (
      ap (λ t. trim_left (map reverse spaces) 0 (reverse t)) whole
      ∙ ap (trim_left (map reverse spaces) 0) (reverse-append (c ∷ s) (10 ∷ []))
      ∙ trim_left-newline (reverse (c ∷ s))
      ∙ trim_left-none (map reverse spaces) (reverse (c ∷ s)) right)
    ∙ reverse-reverse (c ∷ s)
