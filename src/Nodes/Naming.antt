-- ===== src/Nodes/Naming.antt =====
-- AddEntry of the nodes table in memory finds a free path.
use dumbcas.Prelude.{ℕ, zero, suc, ◌+◌, ◌<◌, ◌≤◌, Text, text, ◌==◌, eq→path, if◌then◌else◌}
use dumbcas.Prelude.{
  [], ◌∷◌, ◌++◌, ◌≡◌, ◌≢◌, refl, sym, ◌∙◌, ap, append_assoc, length, arith, inl, inr,
}
use dumbcas.Prelude.{none, some, Bool-cases, Option-cases}
use dumbcas.Prelude.Map.{Map, lookup, erase, lookup-erase, insert, lookup-insert}
use dumbcas.Prelude.FilePath.{join, decimal, clean, slash}
use dumbcas.Prelude.FilePath.Suffixes.{decimal-injective, clean-injective, is_flat-decimal}
use dumbcas.Table.{Codec, Node, ok}
use dumbcas.Nodes.{Stamp, MemoryNodes, node_path, free_path, add_entry, store}

length-erase-le : (k : Text) (m : Map Text) → length (erase k m) ≤ length m
unfolding erase
length-erase-le k [] = omega arith
length-erase-le k ((name, value) ∷ rest) =
    let fewer = length-erase-le k rest in
    elim (Bool-cases (name == k)) [ inl e ↦ rw e (omega arith) | inr e ↦ rw e (omega arith) ]

length-erase : (k : Text) (m : Map Text) → (lookup k m ≢ none) → suc (length (erase k m)) ≤ length m
unfolding lookup erase
length-erase k [] h = absurd (h refl)
length-erase k ((name, value) ∷ rest) h = elim (Bool-cases (name == k)) [
  | inl e ↦ rw e (let fewer = length-erase-le k rest in omega arith)
  | inr e ↦ let few = length-erase k rest (λ z. h (rw e z)) in rw e (omega arith)
]

-- A map that binds so many different names has so many bindings.
length-names :
    (n : ℕ) (f : ℕ → Text) (m : Map Text)
    → ((i j : ℕ) → f i ≡ f j → i ≡ j)
    → ((i : ℕ) → i < n → lookup (f i) m ≢ none)
    → n ≤ length m
length-names zero f m inj h = omega arith
length-names (suc n) f m inj h =
    let fewer = length-erase (f n) m (h n (omega arith)) in
    let rest = length-names n f (erase (f n) m) inj (still n f m inj h) in omega arith
  where
    still :
        (n : ℕ) (f : ℕ → Text) (m : Map Text)
        → ((i j : ℕ) → f i ≡ f j → i ≡ j)
        → ((i : ℕ) → i < suc n → lookup (f i) m ≢ none)
        → (i : ℕ) → i < n
        → lookup (f i) (erase (f n) m) ≢ none
    still n f m inj h i few e = elim (Bool-cases (f n == f i)) [
      | inl same ↦ let wrong = inj n i (eq→path (f n) (f i) same) in absurd (omega arith)
      | inr other ↦ h i (omega arith) (
          sym (ap (λ b. if b then none else lookup (f i) m) other)
          ∙ sym (lookup-erase (f n) (f i) m)
          ∙ e)
    ]

free_path-none :
    (fuel : ℕ) (now : Stamp) (name : Text) (suffix : ℕ) (m : Map Text)
    → free_path fuel now name suffix m ≡ none
    → (i : ℕ) → i < fuel
    → ¬ (lookup (node_path now name (suffix + i)) m ≡ none)
unfolding free_path
free_path-none zero now name suffix m h i few e = absurd (omega arith)
free_path-none (suc fuel) now name suffix m h i few e =
    elim (Option-cases (lookup (node_path now name suffix) m)) [
      | inl c ↦
          let r : free_path (suc fuel) now name suffix m ≡ some (node_path now name suffix) =
            rw (c, free_path) refl in
          cc
      | inr (old, c) ↦
          let r : free_path (suc fuel) now name suffix m ≡ free_path fuel now name (suffix + 1) m =
            rw (c, free_path) refl in
          later old c (free_path-none fuel now name (suffix + 1) m (sym r ∙ h)) i few e
    ]
  where
    later :
        (old : Text)
        → lookup (node_path now name suffix) m ≡ some old
        → ((i : ℕ) → i < fuel → ¬ (lookup (node_path now name (suffix + 1 + i)) m ≡ none))
        → (i : ℕ) → i < suc fuel
        → lookup (node_path now name (suffix + i)) m ≢ none
    later old c r zero few e =
        let here : suffix + 0 ≡ suffix = omega arith in
        let e' = ap (λ j. lookup (node_path now name j) m) (sym here) ∙ e in cc
    later old c r (suc i) few e =
        let same : suffix + 1 + i ≡ suffix + suc i = omega arith in
        r i (omega arith) (ap (λ j. lookup (node_path now name j) m) same ∙ e)

free_path-free :
    (fuel : ℕ) (now : Stamp) (name path : Text) (suffix : ℕ) (m : Map Text)
    → free_path fuel now name suffix m ≡ some path
    → lookup path m ≡ none
unfolding free_path
free_path-free zero now name path suffix m h = cc
free_path-free (suc fuel) now name path suffix m h =
    let later = free_path-free fuel now name path (suffix + 1) m in ground (arith, later)

abbrev pub stamp : ℕ → Text → Text → Stamp
stamp c month second = record { month = c ∷ month; second = second }

node_path-suc :
    (c : ℕ) (month second name : Text) (n : ℕ)
    → node_path (stamp c month second) name (suc n)
      ≡ clean (
          c
          ∷ ((month ++ (slash ∷ (second ++ text "_" ++ name)))
              ++ (b'(' ∷ (decimal (suc n) ++ text ")"))))
unfolding node_path join ◌==◌
node_path-suc c month second name n =
    let w = second ++ text "_" ++ name in
    let d = decimal (suc n) in
    ap (λ r. clean (c ∷ r))
      (ap (λ r. month ++ (slash ∷ r))
          (append_assoc (w ++ text "(") d (text ")") ∙ append_assoc w (text "(") (d ++ text ")"))
        ∙ sym (append_assoc month (slash ∷ w) (b'(' ∷ (d ++ text ")"))))

node_path-injective :
    (c : ℕ) (month second name : Text) (m n : ℕ)
    → let now = stamp c month second in
      node_path now name (suc m) ≡ node_path now name (suc n) → m ≡ n
node_path-injective c month second name m n e =
    let a = month ++ (slash ∷ (second ++ text "_" ++ name)) in
    let same =
      clean-injective c a (decimal (suc m) ++ text ")") (decimal (suc n) ++ text ")")
        (is_flat-decimal (suc m)) (is_flat-decimal (suc n))
        (sym (node_path-suc c month second name m) ∙ e ∙ node_path-suc c month second name n) in
    let equal = decimal-injective (suc m) (suc n) same in omega arith

-- Some path of the first ones that are tried is free.
free_path-some :
    (c : ℕ) (month second name : Text) (m : Map Text)
    → let now = stamp c month second in free_path (suc (suc (length m))) now name 0 m ≢ none
free_path-some c month second name m e =
    let now = stamp c month second in
    let many =
      length-names (suc (length m)) (λ n. node_path now name (suc n)) m
        (node_path-injective c month second name)
        (λ i few h.
          let next : 0 + suc i ≡ suc i = omega arith in
          free_path-none (suc (suc (length m))) now name 0 m e (suc i) (omega arith)
            (ap (λ j. lookup (node_path now name j) m) next ∙ h)) in
    omega arith

-- When the node can be encoded and the text of the month is not empty, the loop of AddEntry of the
-- nodes table in memory finds a path that was free within two tries more than there are entries,
-- and afterwards that path and the tag have the encoded node, and every other name has what it had.
pub add_entry-ok :
    (codec : Codec) (c : ℕ) (month second name bytes q : Text) (m : MemoryNodes) (node : Node)
    → codec.encode_node node ≡ some bytes
    → let r = add_entry codec (stamp c month second) m node name in
      (path : Text) × (r.0 ≡ ok path)
      × (lookup path m.entries ≡ none)
      × (lookup q r.1.entries ≡ (
          if (text "tags/" ++ name) == q
          then some bytes
          else if path == q
          then some bytes
          else lookup q m.entries))
unfolding add_entry store
add_entry-ok codec c month second name bytes q m node e =
    let now = stamp c month second in
    let tries = suc (suc (length m.entries)) in
    elim (Option-cases (free_path tries now name 0 m.entries)) [
      | inl none_free ↦ absurd (free_path-some c month second name m.entries none_free)
      | inr (path, free) ↦ (
        path,
        rw (e, add_entry) (rw (free, store) refl),
        free_path-free tries now name path 0 m.entries free,
        rw (e, add_entry)
            (rw (free, store)
              (lookup-insert (text "tags/" ++ name) q bytes (insert path bytes m.entries)
                ∙ rw (lookup-insert path q bytes m.entries) refl)),
      )
    ]
