-- ===== src/Prelude/FilePath.antt =====
-- What the program uses of Go's packages path/filepath (on a system whose separator is a slash), path,
-- strings and fmt to take names apart and put them together.
pub mod Cleaning
pub mod Elements
pub mod Relative
pub mod Ends
pub mod Suffixes
use Prim.Native.Nat.{ℕ, zero, suc, ◌+◌, ◌/◌, ◌%◌}
use mathlib.Core.Path.{◌≡◌, refl}
use mathlib.Core.Bool.{Bool, true}
use mathlib.Core.List.{List, [], ◌∷◌, ◌++◌, reverse, foldl, reverse-append}
use mathlib.Core.Logic.{inl, inr}
use native.Mathlib.Omega.{arith}
use dumbcas.Prelude.Tests.{Bool-cases, eqb, ltb, if◌then◌else◌}
use dumbcas.Prelude.Strings.{Text, text, ◌==◌, has_prefix, eq→path}

abbrev pub slash : ℕ
slash = b'/'

abbrev on_head : ℕ → List Text → List Text
on_head c [] = (c ∷ []) ∷ []
on_head c (p ∷ ps) = (c ∷ p) ∷ ps

-- strings.Split(s, "/")
unfoldable pub split : Text → List Text
split [] = [] ∷ []
split (c ∷ s) = let rest = split s in if eqb c slash then [] ∷ rest else on_head c rest

-- strings.Join(parts, "/")
unfoldable pub join_parts : List Text → Text
join_parts [] = []
join_parts (p ∷ []) = p
join_parts (p ∷ q ∷ ps) = p ++ (slash ∷ join_parts (q ∷ ps))

go_up : Bool → List Text → List Text
go_up rooted [] = if rooted then [] else text ".." ∷ []
go_up rooted (top ∷ stack) = if top == text ".." then text ".." ∷ top ∷ stack else stack

-- One element of a path, onto the elements so far, the last one first.
pub clean_part : Bool → List Text → Text → List Text
unfolding go_up
clean_part rooted stack p =
    if p == []
    then stack
    else if p == text "."
    then stack
    else if p == text ".."
    then go_up rooted stack
    else p ∷ stack

-- filepath.Clean
unfoldable pub clean : Text → Text
unfolding clean_part has_prefix
clean s =
    let rooted = has_prefix s (slash ∷ []) in
    let body = join_parts (reverse (foldl (clean_part rooted) [] (split s))) in
    if rooted then slash ∷ body else if body == [] then text "." else body

-- filepath.Join of two elements
unfoldable pub join : Text → Text → Text
join a b = if a == [] then (if b == [] then [] else clean b) else clean (a ++ (slash ∷ b))

abbrev last_part : List Text → Text
last_part [] = []
last_part (p ∷ []) = p
last_part (p ∷ q ∷ ps) = last_part (q ∷ ps)

abbrev drop_slashes : Text → Text
drop_slashes [] = []
drop_slashes (c ∷ s) = let rest = drop_slashes s in if eqb c slash then rest else c ∷ s

-- strings.Trim(s, "/")
unfoldable pub trim_slashes : Text → Text
trim_slashes s = reverse (drop_slashes (reverse (drop_slashes s)))

-- strings.HasSuffix(s, "/")
unfoldable pub has_suffix_slash : Text → Bool
has_suffix_slash s = has_prefix (reverse s) (slash ∷ [])

abbrev base_of : Text → Text
base_of [] = slash ∷ []
base_of (c ∷ s) = last_part (split (c ∷ s))

-- filepath.Base, and path.Base
unfoldable pub base : Text → Text
base [] = text "."
base (c ∷ s) = base_of (reverse (drop_slashes (reverse (c ∷ s))))

abbrev up_to_slash : Text → Text
up_to_slash [] = []
up_to_slash (c ∷ s) = if eqb c slash then c ∷ s else up_to_slash s

-- filepath.Dir
unfoldable pub dir : Text → Text
unfolding clean
dir s = clean (reverse (up_to_slash (reverse s)))

-- The digits of `%d`; the first argument bounds their number.
abbrev digits : ℕ → ℕ → Text → Text
digits zero n acc = acc
digits (suc f) n acc =
    let rest = digits f (n / 10) ((b'0' + n % 10) ∷ acc) in
    if ltb n 10 then (b'0' + n) ∷ acc else rest

unfoldable pub decimal : ℕ → Text
decimal n = digits (suc n) n []

-- A slash in front is trimmed.
pub trim_slashes-slash : (s : Text) → trim_slashes (slash ∷ s) ≡ trim_slashes s
unfolding trim_slashes
trim_slashes-slash s = refl

drop_slashes-append :
    (s : Text)
    → drop_slashes (s ++ (slash ∷ []))
      ≡ (if drop_slashes s == [] then [] else drop_slashes s ++ (slash ∷ []))
unfolding ◌==◌
drop_slashes-append [] = refl
drop_slashes-append (c ∷ s) = ground (arith, drop_slashes-append s)

-- A slash at the end is trimmed.
pub trim_slashes-append_slash : (s : Text) → trim_slashes (s ++ (slash ∷ [])) ≡ trim_slashes s
unfolding trim_slashes
trim_slashes-append_slash s = elim (Bool-cases (drop_slashes s == [])) [
  | inl e ↦ rw (drop_slashes-append s) (rw e (rw (eq→path (drop_slashes s) [] e)))
  | inr e ↦ rw (drop_slashes-append s) (rw e (rw reverse-append))
]

nil_prefix : (s : Text) → has_prefix (slash ∷ s) (slash ∷ []) ≡ true
unfolding has_prefix
nil_prefix [] = refl
nil_prefix (c ∷ s) = refl

pub has_suffix_slash-append : (s : Text) → has_suffix_slash (s ++ (slash ∷ [])) ≡ true
unfolding has_suffix_slash
has_suffix_slash-append s = rw reverse-append (nil_prefix (reverse s))

pub has_prefix-append_slash :
    (s : Text)
    → has_prefix s (slash ∷ []) ≡ true
    → has_prefix (s ++ (slash ∷ [])) (slash ∷ []) ≡ true
unfolding has_prefix
has_prefix-append_slash [] h = refl
has_prefix-append_slash (c ∷ []) h = ground arith
has_prefix-append_slash (c ∷ d ∷ s) h = ground arith
