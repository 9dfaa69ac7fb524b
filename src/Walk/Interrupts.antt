-- ===== src/Walk/Interrupts.antt =====
-- A walk that is interrupted sends the beginning of what it would have sent.
use dumbcas.Prelude.{
  ℕ, ◌+◌, Text, Bool, true, false, if◌then◌else◌, List, [], ◌∷◌, ◌++◌, ◌≡◌, refl, sym, ◌∙◌, ap, ◌⊎◌,
}
use dumbcas.Prelude.{inl, inr, Bool-cases, append_assoc, append-nil}
use dumbcas.Prelude.FilePath.{join}
use dumbcas.Archive.{TreeItem}
use dumbcas.Walk.{Folder, unopened, opened, Batches, no_more, read_error, batch}
use dumbcas.Walk.{Members, no_member, file, folder, is_none, Walked, go_on, stop, fail, found_file}
use dumbcas.Walk.{walk_folder, walk_batches, walk_members, enumerate_tree}

-- The flag of package interrupt stays set.
abbrev pub StaysSet : (ℕ → Bool) → Type 0
StaysSet is_set = (n : ℕ) → is_set n ≡ true → is_set (n + 1) ≡ true

go_on-true :
    (w : Walked) (after : ℕ → Walked)
    → w.succeeded ≡ true
    → go_on w after ≡ record (after w.asked) { sent = w.sent ++ (after w.asked).sent }
go_on-true w after e =
    ap (λ b. if b then record (after w.asked) { sent = w.sent ++ (after w.asked).sent } else w) e

go_on-false : (w : Walked) (after : ℕ → Walked) → w.succeeded ≡ false → go_on w after ≡ w
go_on-false w after e =
    ap (λ b. if b then record (after w.asked) { sent = w.sent ++ (after w.asked).sent } else w) e

module _ (is_set : ℕ → Bool) (stays : StaysSet is_set) where
  -- A walk that was interrupted, and returned true.
  IsInterrupted : Walked → Type 0
  IsInterrupted w = (w.succeeded ≡ true) × (is_set w.asked ≡ true)

  -- A walk that sent all that another one does, or was interrupted before.
  IsCut : Walked → Walked → Type 0
  IsCut w full =
      ((w.sent ≡ full.sent) × (w.succeeded ≡ full.succeeded))
      ⊎ (IsInterrupted w × ((rest : List TreeItem) × (full.sent ≡ w.sent ++ rest)))

  -- What begins when the flag is set sends nothing.
  IsIdle : (ℕ → Walked) → Type 0
  IsIdle after = (k : ℕ) → is_set k ≡ true → ((after k).sent ≡ []) × IsInterrupted (after k)

  go_on-IsCut :
      (w full : Walked) (after all : ℕ → Walked)
      → IsCut w full
      → ((k m : ℕ) → IsCut (after k) (all m))
      → IsIdle after
      → IsCut (go_on w after) (go_on full all)
  unfolding IsCut IsIdle IsInterrupted
  go_on-IsCut w full after all (inl (s, o)) h idle = elim (Bool-cases w.succeeded) [
    | inr e ↦ rw (go_on-false w after e, go_on-false full all (sym o ∙ e)) (inl (s, o))
    | inl e ↦
        rw (go_on-true w after e, go_on-true full all (sym o ∙ e))
          (elim (h w.asked full.asked) [
            | inl (t, p) ↦ inl (rw (s, t) refl, p)
            | inr (i, more) ↦
                let (rest, t) = more in
                inr (i, (rest, rw (s, t) (sym (append_assoc full.sent _ rest))))
          ])
  ]
  go_on-IsCut w full after all (inr (i, more)) h idle =
      let (rest, s) = more in
      let (nothing, j) = idle w.asked i.1 in
      rw (go_on-true w after i.0) (elim (Bool-cases full.succeeded) [
        | inr e ↦ rw (go_on-false full all e) (inr (j, (rest, rw (nothing, append-nil) s)))
        | inl e ↦ rw (go_on-true full all e) (
            inr (
              j,
              (
                rest ++ (all full.asked).sent,
                rw (nothing, append-nil, s) (append_assoc w.sent rest _),
              ),
            ))
      ])

  stop-IsInterrupted : (n : ℕ) → is_set n ≡ true → IsInterrupted (stop (n + 1))
  unfolding IsInterrupted
  stop-IsInterrupted n set = (refl, stays n set)

  walk_batches-IsIdle : (root : Text) (bs : Batches) → IsIdle (walk_batches is_set root bs)
  unfolding IsIdle walk_batches
  walk_batches-IsIdle root no_more n set = (refl, stop-IsInterrupted n set)
  walk_batches-IsIdle root (read_error e) n set = rw set (refl, stop-IsInterrupted n set)
  walk_batches-IsIdle root (batch ms bs) n set = rw set (refl, stop-IsInterrupted n set)

  walk_members-IsIdle : (root : Text) (ms : Members) → IsIdle (walk_members is_set root ms)
  unfolding IsIdle IsInterrupted walk_members
  walk_members-IsIdle root no_member n set = (refl, (refl, set))
  walk_members-IsIdle root (file name size time ms) n set = rw set (refl, stop-IsInterrupted n set)
  walk_members-IsIdle root (folder name f ms) n set = rw set (refl, stop-IsInterrupted n set)

  abbrev never : ℕ → Bool
  never n = false

  stop-IsCut : (n : ℕ) (full : Walked) → is_set n ≡ true → IsCut (stop (n + 1)) full
  unfolding IsCut
  stop-IsCut n full set = inr (stop-IsInterrupted n set, (full.sent, refl))

  mutual
    unfolding walk_folder walk_batches walk_members IsCut IsInterrupted

    walk_folder-IsCut :
        (root : Text) (f : Folder) (n m : ℕ)
        → IsCut (walk_folder is_set root f n) (walk_folder never root f m)
    walk_folder-IsCut root (unopened e) n m = inl (refl, refl)
    walk_folder-IsCut root (opened bs) n m = walk_batches-IsCut root bs n m

    walk_batches-IsCut :
        (root : Text) (bs : Batches) (n m : ℕ)
        → IsCut (walk_batches is_set root bs n) (walk_batches never root bs m)
    walk_batches-IsCut root no_more n m = inl (refl, refl)
    walk_batches-IsCut root (read_error e) n m = elim (Bool-cases (is_set n)) [
      | inl set ↦ rw set (stop-IsCut n (fail e (m + 1)) set)
      | inr off ↦ rw off (inl (refl, refl))
    ]
    walk_batches-IsCut root (batch ms bs) n m = elim (Bool-cases (is_set n)) [
      | inl set ↦ rw set (stop-IsCut n (walk_batches never root (batch ms bs) m) set)
      | inr off ↦ elim (Bool-cases (is_none ms)) [
        | inl e ↦ rw (off, e) (inl (refl, refl))
        | inr e ↦
            rw (off, e)
              (go_on-IsCut (walk_members is_set root ms (n + 1))
                (walk_members never root ms (m + 1)) (walk_batches is_set root bs)
                (walk_batches never root bs) (walk_members-IsCut root ms (n + 1) (m + 1))
                (walk_batches-IsCut root bs) (walk_batches-IsIdle root bs))
      ]
    ]

    walk_members-IsCut :
        (root : Text) (ms : Members) (n m : ℕ)
        → IsCut (walk_members is_set root ms n) (walk_members never root ms m)
    walk_members-IsCut root no_member n m = inl (refl, refl)
    walk_members-IsCut root (file name size time ms) n m = elim (Bool-cases (is_set n)) [
      | inl set ↦ rw set (stop-IsCut n (walk_members never root (file name size time ms) m) set)
      | inr off ↦ rw off (elim (walk_members-IsCut root ms (n + 1) (m + 1)) [
        | inl (s, o) ↦ inl (ap (λ r. found_file (join root name) size time ∷ r) s, o)
        | inr (i, more) ↦
            inr (i, (more.0, ap (λ r. found_file (join root name) size time ∷ r) more.1))
      ])
    ]
    walk_members-IsCut root (folder name f ms) n m = elim (Bool-cases (is_set n)) [
      | inl set ↦ rw set (stop-IsCut n (walk_members never root (folder name f ms) m) set)
      | inr off ↦ rw off (
          go_on-IsCut (walk_folder is_set (join root name) f (n + 1))
            (walk_folder never (join root name) f (m + 1)) (walk_members is_set root ms)
            (walk_members never root ms) (walk_folder-IsCut (join root name) f (n + 1) (m + 1))
            (walk_members-IsCut root ms) (walk_members-IsIdle root ms))
    ]

  -- An interrupted walk sends the beginning of what it would have sent, when the flag of the
  -- interrupt stays set.
  pub enumerate_tree-prefix :
      (root : Text) (f : Folder)
      → (rest : List TreeItem) × (enumerate_tree (λ n. false) root f
          ≡ enumerate_tree is_set root f ++ rest)
  unfolding enumerate_tree IsCut
  enumerate_tree-prefix root f = elim (walk_folder-IsCut root f 0 0) [
    | inl (s, o) ↦ ([], sym s ∙ sym (append-nil _))
    | inr (i, more) ↦ more
  ]
