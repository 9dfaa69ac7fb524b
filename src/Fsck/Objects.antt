-- ===== src/Fsck/Objects.antt =====
-- What the first loop of fsck.go does to the objects.
use dumbcas.Prelude.{Text, ◌==◌, Bool, true, false, not, ◌&&◌, if◌then◌else◌, ◌≡◌, refl}
use dumbcas.Prelude.{inl, inr, Option-cases, ◌+◌, ◌≤◌, length, eq_iff}
use dumbcas.Prelude.{List, [], ◌∷◌, Option, none, some, arith}
use dumbcas.Prelude.Map.{contains}
use dumbcas.Table.{ok, err, Reader, Enumeration, item, broken, items, Codec, CasTable}
use dumbcas.Table.{NodesTable, Result-cases, IsLawful, IsListed, content}
use dumbcas.Common.{Tables}
use dumbcas.Fsck.{Report, no_report, good, bad, check_objects, fsck}

module _ (codec : Codec) where
  -- Whether a name holds content that it is the sha-1 of.
  unfoldable pub is_intact : Text → Option Reader → Bool
  is_intact k none = false
  is_intact k (some (err e)) = false
  is_intact k (some (ok bytes)) = codec.sha1 bytes == k

module _ (C : CasTable) (L : IsLawful C) (codec : Codec) where
  content-check_objects_keep :
      (es : List Enumeration) (r : Report) (s : C.State) (k : Text)
      → is_intact codec k (content C s k) ≡ true
      → content C (check_objects C codec es r s).1 k ≡ content C s k
  unfolding check_objects is_intact
  content-check_objects_keep [] r s k h = refl
  content-check_objects_keep (broken e ∷ es) r s k h = content-check_objects_keep es r s k h
  content-check_objects_keep (item j ∷ es) r s k h = elim (Option-cases (C.remove s j).0) [
    | inl e ↦ ground (
      arith,
      eq_iff j k,
      L.content-remove s j k e,
      content-check_objects_keep es (good r) s k h,
      content-check_objects_keep es (bad r) (C.remove s j).1 k,
    )
    | inr (why, e) ↦
        ground
          (arith, L.content-remove_failed s j k why e, content-check_objects_keep es (good r) s k h)
  ]

  -- Whatever the outcome of fsck on a lawful table, an object whose name is the sha-1 of its
  -- content stays as it is.
  pub fsck_keeps_intact :
      (N : NodesTable) (t : Tables C N) (k : Text)
      → is_intact codec k (content C t.cas k) ≡ true
      → content C (fsck C N codec t).tables.cas k ≡ content C t.cas k
  unfolding fsck
  fsck_keeps_intact N t k h =
      let (es, s) = C.enumerate t.cas in
      ground (
        arith,
        L.content-enumerate t.cas k,
        content-check_objects_keep es no_report s k,
        L.content-clear_fsck_bit (check_objects C codec es no_report s).1 k,
      )

  content-check_objects :
      (es : List Enumeration) (r r' : Report) (s : C.State) (k : Text)
      → (check_objects C codec es r s).0 ≡ ok r'
      → content C (check_objects C codec es r s).1 k ≡ (
          if contains (items es) k && not (is_intact codec k (content C s k))
          then none
          else content C s k)
  unfolding check_objects is_intact contains items
  content-check_objects [] r r' s k h = refl
  content-check_objects (broken e ∷ es) r r' s k h = content-check_objects es r r' s k h
  content-check_objects (item j ∷ es) r r' s k h = ground (
    arith,
    eq_iff j k,
    L.content-remove s j k,
    content-check_objects es (good r) r' s k,
    content-check_objects es (bad r) r' (C.remove s j).1 k,
  )

  -- When fsck succeeds on a lawful table that enumerates all its objects, exactly the objects whose
  -- name is the sha-1 of their content are left, with their content, and the fsck bit is clear.
  pub content-fsck :
      (N : NodesTable) (t : Tables C N) (rs : Report × Report) (k : Text)
      → IsListed C t.cas
      → (fsck C N codec t).reports ≡ ok rs
      → (content C (fsck C N codec t).tables.cas k
          ≡ (if is_intact codec k (content C t.cas k) then content C t.cas k else none))
        × (C.get_fsck_bit (fsck C N codec t).tables.cas ≡ false)
  unfolding fsck is_intact
  content-fsck N t rs k listed h =
      let (es, s) = C.enumerate t.cas in
      elim (Result-cases (check_objects C codec es no_report s).0) [
        | inl (r, e) ↦ elim (Option-cases (content C t.cas k)) [
          | inl absent ↦ ground (
            arith,
            L.content-enumerate t.cas k,
            content-check_objects es no_report r s k e,
            L.content-clear_fsck_bit (check_objects C codec es no_report s).1 k,
            L.get-clear_fsck_bit (check_objects C codec es no_report s).1,
          )
          | inr (f, present) ↦ ground (
            arith,
            L.content-enumerate t.cas k,
            content-check_objects es no_report r s k e,
            L.content-clear_fsck_bit (check_objects C codec es no_report s).1 k,
            L.get-clear_fsck_bit (check_objects C codec es no_report s).1,
            listed k f present,
          )
        ]
        | inr (why, e) ↦ ground arith
      ]

  -- The first loop, when it goes through, has counted every item, and if it counted none of them as
  -- corrupted it has removed nothing.
  check_objects-counts :
      (es : List Enumeration) (r r' : Report) (s : C.State)
      → (check_objects C codec es r s).0 ≡ ok r'
      → (r'.scanned ≡ r.scanned + length (items es))
        × (r.corrupted ≤ r'.corrupted)
        × (r'.corrupted ≡ r.corrupted → (check_objects C codec es r s).1 ≡ s)
  unfolding check_objects items
  check_objects-counts [] r r' s h = ground arith
  check_objects-counts (broken e ∷ es) r r' s h = check_objects-counts es r r' s h
  check_objects-counts (item j ∷ es) r r' s h = ground (
    arith,
    check_objects-counts es (good r) r' s,
    check_objects-counts es (bad r) r' (C.remove s j).1,
  )

  -- When fsck succeeds, the report has counted every enumerated object, and if it counts none as
  -- corrupted the table is the enumerated one with the fsck bit cleared.
  pub fsck-report :
      (N : NodesTable) (t : Tables C N) (rs : Report × Report)
      → (fsck C N codec t).reports ≡ ok rs
      → (rs.0.scanned ≡ length (items (C.enumerate t.cas).0))
        × (rs.0.corrupted ≡ 0
            → (fsck C N codec t).tables.cas ≡ C.clear_fsck_bit (C.enumerate t.cas).1)
  unfolding fsck
  fsck-report N t rs h =
      let (es, s) = C.enumerate t.cas in
      elim (Result-cases (check_objects C codec es no_report s).0) [
        | inl (r, e) ↦ ground (arith, check_objects-counts es no_report r s e)
        | inr (why, e) ↦ ground arith
      ]

  pub fsck-clears_fsck_bit :
      (N : NodesTable) (t : Tables C N) (rs : Report × Report)
      → (fsck C N codec t).reports ≡ ok rs
      → C.get_fsck_bit (fsck C N codec t).tables.cas ≡ false
  unfolding fsck
  fsck-clears_fsck_bit N t rs h =
      let (es, s) = C.enumerate t.cas in
      let checked = check_objects C codec es no_report s in
      elim (Result-cases checked.0) [
        | inl (r, e) ↦ ground (arith, L.get-clear_fsck_bit checked.1)
        | inr (why, e) ↦ ground arith
      ]
