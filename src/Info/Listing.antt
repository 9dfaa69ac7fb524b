-- ===== src/Info/Listing.antt =====
-- The output of printEntry of info.go lists the files that restoreEntry of restore.go writes.
use mathlib.Core.List.{Perm, append_assoc, map-append, perm_append_comm}
use mathlib.Core.List.Perm
use dumbcas.Prelude.{ℕ, ◌+◌, Text, ◌==◌, text_lt, ◌≡◌, refl, arith}
use dumbcas.Prelude.{List, [], ◌∷◌, ◌++◌, map, length, length-append, inl, inr, Bool-cases}
use dumbcas.Prelude.FilePath.{join}
use dumbcas.Entry.{Entry, entry, Files, nil_map, made, Children, end, child}
use dumbcas.Restore.Contents.{
  Placed, placed_here, files_under, files_under_files, files_under_children,
}
use dumbcas.Info.{
  Line, Printed, own_lines, own_count, insert_by_name, sort_by_name, all_lines, all_counts,
  print_entry,
}
use dumbcas.Info.{print_files, print_children}

abbrev pub line_of : Placed → Line
line_of x = record { path = x.path; size = x.size }

perm_left_comm {ℓ} : {A : Type ℓ} (xs ys zs : List A) → Perm (ys ++ (xs ++ zs)) (xs ++ (ys ++ zs))
perm_left_comm xs ys zs =
    rw (← append_assoc ys xs zs, ← append_assoc xs ys zs)
      (Perm.append_right zs (perm_append_comm ys xs))

insert_by_name_lem :
    (x : Printed) (ys : List Printed)
    → Perm (all_lines (insert_by_name x ys)) (x.lines ++ all_lines ys)
      × (all_counts (insert_by_name x ys) ≡ x.count + all_counts ys)
unfolding insert_by_name
insert_by_name_lem x [] = (Perm.refl _, refl)
insert_by_name_lem x (y ∷ ys) = elim (Bool-cases (text_lt y.name x.name)) [
  | inl e ↦
      let rest = insert_by_name_lem x ys in
      rw e (
        Perm.trans (Perm.append_left y.lines rest.0)
            (perm_left_comm x.lines y.lines (all_lines ys)),
        omega (arith, rest.1),
      )
  | inr e ↦ rw e (Perm.refl _, refl)
]

sort_by_name_lem :
    (ys : List Printed)
    → Perm (all_lines (sort_by_name ys)) (all_lines ys)
      × (all_counts (sort_by_name ys) ≡ all_counts ys)
unfolding sort_by_name
sort_by_name_lem [] = (Perm.refl _, refl)
sort_by_name_lem (y ∷ ys) =
    let rest = sort_by_name_lem ys in
    let inserted = insert_by_name_lem y (sort_by_name ys) in
    (Perm.trans inserted.0 (Perm.append_left y.lines rest.0), omega (arith, inserted.1, rest.1))

own_lines_lem :
    (path hash : Text) (size : ℕ)
    → (own_lines path hash size ≡ map line_of (placed_here path hash size))
      × (own_count hash ≡ length (placed_here path hash size))
own_lines_lem path hash size = elim (Bool-cases (hash == [])) [
  | inl e ↦ rw e (refl, refl)
  | inr e ↦ rw e (refl, refl)
]

mutual
  unfolding print_entry files_under

  entry_listed :
      (e : Entry) (path : Text)
      → Perm (print_entry e path).0 (map line_of (files_under e path))
        × ((print_entry e path).1 ≡ length (files_under e path))
  entry_listed (entry h n fs) path =
      let sorted = sort_by_name_lem (print_files fs path) in
      let own = own_lines_lem path h n in
      let below = files_listed fs path in
      (
        rw (map-append, ← own.0)
            (Perm.append_left (own_lines path h n) (Perm.trans sorted.0 below.0)),
        omega (
          arith,
          own.1,
          sorted.1,
          below.1,
          length-append {0} (placed_here path h n) (files_under_files fs path),
        ),
      )

  files_listed :
      (fs : Files) (path : Text)
      → Perm (all_lines (print_files fs path)) (map line_of (files_under_files fs path))
        × (all_counts (print_files fs path) ≡ length (files_under_files fs path))
  files_listed nil_map path = (Perm.refl _, refl)
  files_listed (made cs) path = children_listed cs path

  children_listed :
      (cs : Children) (path : Text)
      → Perm (all_lines (print_children cs path)) (map line_of (files_under_children cs path))
        × (all_counts (print_children cs path) ≡ length (files_under_children cs path))
  children_listed end path = (Perm.refl _, refl)
  children_listed (child name e cs) path =
      let here = entry_listed e (join path name) in
      let rest = children_listed cs path in
      (
        rw map-append (Perm.append here.0 rest.0),
        omega (
          arith,
          here.1,
          rest.1,
          length-append {0} (files_under e (join path name)) (files_under_children cs path),
        ),
      )

-- The lines that info prints are, in some order, the paths and sizes of the files of the tree, and
-- the total is their number.
pub print_entry-perm :
    (e : Entry) (path : Text)
    → Perm (print_entry e path).0 (map line_of (files_under e path))
      × ((print_entry e path).1 ≡ length (files_under e path))
print_entry-perm e path = entry_listed e path
