-- ===== src/Archive/Inputs/Located.antt =====
-- Where cleanupList of archive.go puts a path without dots, as seen from the directory of the list.
use dumbcas.Prelude.{Text, Bool, true, false, eqb, if◌then◌else◌, List, [], ◌∷◌, map, All}
use dumbcas.Prelude.{◌≡◌, refl, sym, ap, ◌∙◌, has_prefix, arith, Bool-cases, inl, inr}
use dumbcas.Prelude.FilePath.{slash, split, clean, join, dir}
use dumbcas.Prelude.FilePath.Cleaning.{
  IsRooted, dir-IsRooted, clean-dir, all_elements, IsCleaned, join-IsCleaned,
}
use dumbcas.Prelude.FilePath.Relative.{below, join-below, clean-absolute}
use dumbcas.Archive.Inputs.{cleanup_item, cleanup_list}

-- A path without empty elements, dots and two dots, which may begin with a slash.
abbrev pub is_plain_path : Text → Bool
is_plain_path [] = false
is_plain_path (c ∷ p) = if eqb c slash then all_elements (split p) else all_elements (split (c ∷ p))

-- Where such a path lies, as seen from a directory.
abbrev pub located : Text → Text → Text
located d p = if has_prefix p (slash ∷ []) then p else below d p

cleanup_item-rooted :
    (expand_env : Text → Text) (d l : Text)
    → has_prefix (expand_env l) (slash ∷ []) ≡ true
    → cleanup_item expand_env d l ≡ clean (expand_env l)
unfolding cleanup_item
cleanup_item-rooted expand_env d l h = rw h refl

cleanup_item-relative :
    (expand_env : Text → Text) (d l : Text)
    → has_prefix (expand_env l) (slash ∷ []) ≡ false
    → cleanup_item expand_env d l ≡ clean (join d (expand_env l))
unfolding cleanup_item
cleanup_item-relative expand_env d l h = rw h refl

clean-located : (p : Text) → is_plain_path p ≡ true → has_prefix p (slash ∷ []) ≡ true → clean p ≡ p
unfolding has_prefix
clean-located [] h r = cc
clean-located (c ∷ p) h r =
    let at : slash ≡ c = ground (arith, r) in
    let plain : all_elements (split p) ≡ true = ground (arith, h, r) in
    ap (λ d. clean (d ∷ p)) (sym at) ∙ clean-absolute p plain ∙ ap (λ d. d ∷ p) at

split-located :
    (p : Text)
    → is_plain_path p ≡ true
    → has_prefix p (slash ∷ []) ≡ false
    → all_elements (split p) ≡ true
unfolding has_prefix
split-located [] h r = cc
split-located (c ∷ p) h r = ground (arith, h, r)

cleanup_item-located :
    (expand_env : Text → Text) (d l : Text)
    → IsCleaned d
    → is_plain_path (expand_env l) ≡ true
    → cleanup_item expand_env d l ≡ located d (expand_env l)
cleanup_item-located expand_env d l (r, c) h =
    let p = expand_env l in
    elim (Bool-cases (has_prefix p (slash ∷ []))) [
      | inl e ↦ rw e (cleanup_item-rooted expand_env d l e ∙ clean-located p h e)
      | inr e ↦
          let joined_here : join d p ≡ below d p = join-below d p r c (split-located p h e) in
          rw e (cleanup_item-relative expand_env d l e ∙ (join-IsCleaned d p r).1 ∙ joined_here)
    ]

pub cleanup_list-located :
    (expand_env : Text → Text) (d : Text) (lines : List Text)
    → IsCleaned d
    → All (λ l. is_plain_path (expand_env l) ≡ true) lines
    → cleanup_list expand_env d lines ≡ map (λ l. located d (expand_env l)) lines
unfolding cleanup_list
cleanup_list-located expand_env d [] c h = refl
cleanup_list-located expand_env d (l ∷ ls) c (h, hs) =
    rw (cleanup_item-located expand_env d l c h, cleanup_list-located expand_env d ls c hs) refl

pub dir-IsCleaned : (a : Text) → IsRooted a → IsCleaned (dir a)
dir-IsCleaned a r = (dir-IsRooted a r, clean-dir a r)
