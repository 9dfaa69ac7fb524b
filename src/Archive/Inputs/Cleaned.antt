-- ===== src/Archive/Inputs/Cleaned.antt =====
-- The inputs that main of archive.go makes of the lines of its list.
use dumbcas.Prelude.{Text, ◌==◌, Bool, true, false, eqb, not, List, [], ◌∷◌, ◌++◌}
use dumbcas.Prelude.{map}
use dumbcas.Prelude.{◌≡◌, refl, ap, ◌∙◌, All, has_prefix, ◌&&◌, Option, arith, Bool-cases, inl, inr}
use mathlib.Core.Path.{subst}
use mathlib.Core.List.{reverse, reverse_aux, reverse-append, reverse-reverse}
use dumbcas.Prelude.Trim.{trim_space, trim_left, is_trimmed, no_newline, trim_space-newline}
use dumbcas.Prelude.FilePath.{slash, dir}
use dumbcas.Prelude.FilePath.Cleaning.{
  IsRooted, clean-IsRooted, clean-clean, dir-IsRooted, IsCleaned, join-IsCleaned,
}
use dumbcas.Archive.Inputs.Located.{is_plain_path, located, cleanup_list-located, dir-IsCleaned}
use dumbcas.Table.{Error, Result, ok, err, Result-cases}
use dumbcas.Archive.Inputs.{
  OpenedFile, keep_line, read_lines, read_file_as_strings, cleanup_item, cleanup_list, abs,
  abs_or_failed, inputs_of, load_inputs,
}

cleanup_item-IsCleaned :
    (expand_env : Text → Text) (rel_dir item : Text)
    → IsRooted rel_dir
    → IsCleaned (cleanup_item expand_env rel_dir item)
unfolding cleanup_item
cleanup_item-IsCleaned expand_env rel_dir item h =
    elim (Bool-cases (has_prefix (expand_env item) (slash ∷ []))) [
      | inl r ↦ rw r (clean-IsRooted (expand_env item) r, clean-clean (expand_env item) r)
      | inr r ↦
          let (rooted, c) = join-IsCleaned rel_dir (expand_env item) h in rw (r, c) (rooted, c)
    ]

cleanup_list-IsCleaned :
    (expand_env : Text → Text) (rel_dir : Text) (items : List Text)
    → IsRooted rel_dir
    → All IsCleaned (cleanup_list expand_env rel_dir items)
unfolding cleanup_list
cleanup_list-IsCleaned expand_env rel_dir [] h = tt
cleanup_list-IsCleaned expand_env rel_dir (item ∷ items) h = (
  cleanup_item-IsCleaned expand_env rel_dir item h,
  cleanup_list-IsCleaned expand_env rel_dir items h,
)

cleanup_list-append :
    (expand_env : Text → Text) (rel_dir : Text) (items : List Text) (item : Text)
    → cleanup_list expand_env rel_dir (items ++ item ∷ [])
      ≡ cleanup_list expand_env rel_dir items ++ cleanup_item expand_env rel_dir item ∷ []
unfolding cleanup_list
cleanup_list-append expand_env rel_dir [] item = refl
cleanup_list-append expand_env rel_dir (i ∷ is) item =
    rw (cleanup_list-append expand_env rel_dir is item) refl

-- A directory that os.Getwd gives is absolute.
abbrev pub IsLocated : Result Text → Type 0
IsLocated (ok wd) = IsRooted wd
IsLocated (err e) = Unit

abbrev Cleaned : Result Text → Type 0
Cleaned (ok a) = IsCleaned a
Cleaned (err e) = Unit

abs-Cleaned : (wd : Result Text) (path : Text) → IsLocated wd → Cleaned (abs wd path)
unfolding abs
abs-Cleaned (ok w) path l = elim (Bool-cases (has_prefix path (slash ∷ []))) [
  | inl r ↦ rw r (clean-IsRooted path r, clean-clean path r)
  | inr r ↦ rw r (join-IsCleaned w path l)
]
abs-Cleaned (err e) path l = elim (Bool-cases (has_prefix path (slash ∷ []))) [
  | inl r ↦ rw r (clean-IsRooted path r, clean-clean path r)
  | inr r ↦ rw r tt
]

-- The lines of a text.
abbrev pub joined : List Text → Text
joined [] = []
joined (l ∷ ls) = l ++ (10 ∷ joined ls)

abbrev pub is_line : Text → Bool
is_line l = not (l == []) && (is_trimmed l && no_newline l)

read_lines-append :
    (line l s : Text)
    → no_newline l ≡ true
    → read_lines line (l ++ (10 ∷ s))
      ≡ keep_line (reverse (10 ∷ reverse_aux l line)) (read_lines [] s)
unfolding read_lines
read_lines-append line [] s h = refl
read_lines-append line (c ∷ l) s h =
    let other : eqb c 10 ≡ false = ground arith in
    rw other (read_lines-append (c ∷ line) l s (ground arith))

keep_line-newline :
    (l : Text) (lines : List Text) → is_line l ≡ true → keep_line (l ++ (10 ∷ [])) lines ≡ l ∷ lines
unfolding keep_line ◌==◌
keep_line-newline [] lines h = cc
keep_line-newline (c ∷ l) lines h =
    let trimmed : is_trimmed (c ∷ l) ≡ true = ground arith in
    rw (trim_space-newline c l trimmed) refl

read_lines-joined :
    (lines : List Text) → All (λ l. is_line l ≡ true) lines → read_lines [] (joined lines) ≡ lines
unfolding read_lines ◌==◌ trim_space trim_left
read_lines-joined [] h = refl
read_lines-joined (l ∷ ls) (h, hs) =
    let plain : no_newline l ≡ true = ground arith in
    let here : reverse (10 ∷ reverse_aux l []) ≡ l ++ (10 ∷ []) =
      reverse-append (10 ∷ []) (reverse l) ∙ ap (λ t. t ++ (10 ∷ [])) (reverse-reverse l) in
    read_lines-append [] l (joined ls) plain
    ∙ ap (λ t. keep_line t (read_lines [] (joined ls))) here
    ∙ keep_line-newline l (read_lines [] (joined ls)) h
    ∙ ap (λ t. l ∷ t) (read_lines-joined ls hs)

abs_or_failed-ok : (arg : Text) (r : Result Text) (a : Text) → r ≡ ok a → abs_or_failed arg r ≡ ok a
unfolding abs_or_failed
abs_or_failed-ok arg r a h = rw h refl

load_inputs-ok :
    (expand_env : Text → Text) (os_open : Text → Result OpenedFile) (wd : Result Text)
    (arg a : Text) (f : OpenedFile)
    → abs wd arg ≡ ok a
    → os_open a ≡ ok f
    → load_inputs expand_env os_open wd arg
      ≡ ok (a, cleanup_list expand_env (dir a) (read_lines [] f.content ++ a ∷ []))
unfolding load_inputs inputs_of read_file_as_strings
load_inputs-ok expand_env os_open wd arg a f h o =
    rw (abs_or_failed-ok arg (abs wd arg) a h, o) refl

abs-IsCleaned : (wd : Result Text) (path a : Text) → IsLocated wd → abs wd path ≡ ok a → IsCleaned a
abs-IsCleaned wd path a l h = subst Cleaned h (abs-Cleaned wd path l)

abbrev AllCleaned : Result (Text × List Text) → Type 0
AllCleaned (ok (a, inputs)) = All IsCleaned inputs
AllCleaned (err e) = Unit

load_inputs-AllCleaned :
    (expand_env : Text → Text) (os_open : Text → Result OpenedFile) (wd : Result Text) (arg : Text)
    → IsLocated wd
    → AllCleaned (load_inputs expand_env os_open wd arg)
unfolding load_inputs inputs_of read_file_as_strings abs_or_failed
load_inputs-AllCleaned expand_env os_open wd arg l = elim (Result-cases (abs wd arg)) [
  | inr (why, h) ↦ rw h tt
  | inl (a, h) ↦ elim (Result-cases (os_open a)) [
    | inr (why, o) ↦ rw (h, o) tt
    | inl (f, o) ↦ rw (load_inputs-ok expand_env os_open wd arg a f h o) (
        cleanup_list-IsCleaned expand_env (dir a) (read_lines [] f.content ++ a ∷ [])
          (dir-IsRooted a (abs-IsCleaned wd arg a l h).0))
  ]
]

-- When the working directory is absolute, every input of archive is an absolute path that
-- filepath.Clean leaves as it is, whatever the list and the environment hold.
pub load_inputs-IsCleaned :
    (expand_env : Text → Text) (os_open : Text → Result OpenedFile) (wd : Result Text)
    (arg a : Text) (inputs : List Text)
    → IsLocated wd
    → load_inputs expand_env os_open wd arg ≡ ok (a, inputs)
    → All IsCleaned inputs
load_inputs-IsCleaned expand_env os_open wd arg a inputs l h =
    subst AllCleaned h (load_inputs-AllCleaned expand_env os_open wd arg l)

cleanup_item_self :
    (expand_env : Text → Text) (a : Text)
    → IsCleaned a
    → expand_env a ≡ a
    → cleanup_item expand_env (dir a) a ≡ a
unfolding cleanup_item
cleanup_item_self expand_env a (r, c) e = rw (e, r, c) refl

-- When the working directory is absolute, the list holds trimmed lines that are not empty, what
-- os.ExpandEnv makes of each has no empty element, dot or two dots, and it leaves the path of the
-- list as it is, main of archive gets the path of the list, and as inputs, in the order of the
-- lines, each absolute path as it is and each relative one behind the directory of the list, and
-- the list itself, also when reading failed behind the lines.
pub load_inputs-joined :
    (expand_env : Text → Text) (os_open : Text → Result OpenedFile) (wd : Result Text)
    (arg a : Text) (lines : List Text) (failure : Option Error)
    → IsLocated wd
    → abs wd arg ≡ ok a
    → os_open a ≡ ok (record { content = joined lines; failure = failure })
    → All (λ l. is_line l ≡ true) lines
    → All (λ l. is_plain_path (expand_env l) ≡ true) lines
    → expand_env a ≡ a
    → load_inputs expand_env os_open wd arg
      ≡ ok (a, map (λ l. located (dir a) (expand_env l)) lines ++ a ∷ [])
load_inputs-joined expand_env os_open wd arg a lines failure l h o ls ps e =
    let f : OpenedFile = record { content = joined lines; failure = failure } in
    let cleaned = abs-IsCleaned wd arg a l h in
    load_inputs-ok expand_env os_open wd arg a f h o
    ∙ ap (λ r. ok (a, cleanup_list expand_env (dir a) (r ++ a ∷ []))) (read_lines-joined lines ls)
    ∙ ap (λ r. ok (a, r))
        (cleanup_list-append expand_env (dir a) lines a
          ∙ ap (λ b. cleanup_list expand_env (dir a) lines ++ b ∷ [])
              (cleanup_item_self expand_env a cleaned e)
          ∙ ap (λ r. r ++ a ∷ [])
              (cleanup_list-located expand_env (dir a) lines (dir-IsCleaned a cleaned.0) ps))
