-- ===== src/LocalCas/Paths.antt =====
-- Where the table keeps a file: filePath of cas_local.go.
use dumbcas.Files.{join_all, is_abs}
use dumbcas.Prelude.{ℕ, ◌==◌, Text, ◌≡◌, refl, sym, ◌∙◌, ap, true, false, not, [], ◌∷◌, ◌++◌}
use dumbcas.Prelude.{take, drop, has_prefix, arith, inl, inr, Bool-cases, append_assoc}
use dumbcas.Prelude.FilePath.{slash, clean, join_parts}
use dumbcas.Prelude.FilePath.Elements.{
  is_element, is_flat, parts_of, leading, clean-join, parts_of-join,
}
use dumbcas.Prelude.FilePath.Elements.{leading-append, has_prefix-rooted}
use dumbcas.Fsck.{all_hex, is_hash, is_hex}
use mathlib.Core.List.{append_cancel_left}
use dumbcas.LocalCas.{file_path}

all_hex-is_flat : (s : Text) → all_hex s ≡ true → is_flat s ≡ true
unfolding all_hex is_hex
all_hex-is_flat [] h = refl
all_hex-is_flat (c ∷ s) h = ground (arith, all_hex-is_flat s)

all_hex-is_element : (c : ℕ) (s : Text) → all_hex (c ∷ s) ≡ true → is_element (c ∷ s) ≡ true
unfolding all_hex is_hex ◌==◌
all_hex-is_element c s h = ground (arith, all_hex-is_flat (c ∷ s))

-- The two parts of a hash, and what comes after the directory of the table.
hash-parts :
    (k : Text) → is_hash k ≡ true → (is_element (take 3 k) ≡ true) × (is_element (drop 3 k) ≡ true)
unfolding is_hash all_hex
hash-parts [] v = cc
hash-parts (x ∷ []) v = ground arith
hash-parts (x ∷ y ∷ []) v = ground arith
hash-parts (x ∷ y ∷ z ∷ []) v = ground arith
hash-parts (x ∷ y ∷ z ∷ w ∷ r) v =
    (all_hex-is_element x (y ∷ z ∷ []) (ground arith), all_hex-is_element w r (ground arith))

cut : Text → Text
cut k = take 3 k ++ (slash ∷ drop 3 k)

take-cut : (k : Text) → is_hash k ≡ true → take 3 (cut k) ++ drop 4 (cut k) ≡ k
unfolding cut is_hash
take-cut [] v = cc
take-cut (x ∷ []) v = ground arith
take-cut (x ∷ y ∷ []) v = ground arith
take-cut (x ∷ y ∷ z ∷ r) v = refl

join-hash :
    (a b c : Text)
    → has_prefix a (slash ∷ []) ≡ true
    → is_element b ≡ true
    → is_element c ≡ true
    → clean (a ++ (slash ∷ (b ++ (slash ∷ c))))
      ≡ slash ∷ (leading (parts_of a) ++ (b ++ (slash ∷ c)))
join-hash a b c h hb hc = rw (sym (append_assoc a (slash ∷ b) (slash ∷ c))) (
    clean-join (a ++ (slash ∷ b)) c (has_prefix-rooted a (slash ∷ b) h) hc
    ∙ rw (parts_of-join a b hb, leading-append (parts_of a) b)
        (rw (append_assoc (leading (parts_of a)) _ c) (rw (append_assoc b _ c) refl)))

join_all-hash :
    (d k : Text)
    → is_abs d ≡ true
    → is_hash k ≡ true
    → join_all (d ∷ take 3 k ∷ drop 3 k ∷ []) ≡ slash ∷ (leading (parts_of d) ++ cut k)
unfolding join_all join_parts has_prefix ◌==◌ cut
join_all-hash [] k h v = cc
join_all-hash (c ∷ d) k h v =
    let (b, r) = hash-parts k v in join-hash (c ∷ d) (take 3 k) (drop 3 k) h b r

-- The file of a hash: its first three digits are a directory of the table, and its others the name.
pub file_path_lem :
    (d k : Text)
    → is_abs d ≡ true
    → is_hash k ≡ true
    → file_path d k ≡ slash ∷ (leading (parts_of d) ++ (take 3 k ++ (slash ∷ drop 3 k)))
unfolding file_path cut has_prefix
file_path_lem d k h v = rw (join_all-hash d k h v, v) refl

pub file_path_invalid : (d k : Text) → is_hash k ≡ false → file_path d k ≡ []
unfolding file_path
file_path_invalid d k v = rw v refl

pub file_path-nil : (d k : Text) → is_abs d ≡ true → (file_path d k == []) ≡ not (is_hash k)
unfolding ◌==◌
file_path-nil d k h = elim (Bool-cases (is_hash k)) [
  | inl v ↦ rw (file_path_lem d k h v, v) refl
  | inr v ↦ rw (file_path_invalid d k v, v) refl
]

-- In an absolute directory a name with the same path as a hash is that hash.
pub file_path-injective :
    (d j k : Text) → is_abs d ≡ true → is_hash k ≡ true → file_path d j ≡ file_path d k → j ≡ k
unfolding cut
file_path-injective d j k h w e = elim (Bool-cases (is_hash j)) [
  | inr v ↦ ground (arith, file_path-nil d j h, file_path-nil d k h)
  | inl v ↦
      let tails = ap (drop 1) (sym (file_path_lem d j h v) ∙ e ∙ file_path_lem d k h w) in
      let cuts = append_cancel_left (leading (parts_of d)) (cut j) (cut k) tails in
      sym (take-cut j v) ∙ ap (λ s. take 3 s ++ drop 4 s) cuts ∙ take-cut k w
]
