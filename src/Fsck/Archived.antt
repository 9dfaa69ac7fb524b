-- ===== src/Fsck/Archived.antt =====
-- fsck.go after archive.go.
use dumbcas.Prelude.{Text, ◌==◌, eq_refl, true, ◌≡◌, ap, ◌∙◌, List, some, All}
use dumbcas.Entry.{Entry}
use dumbcas.Entry.Paths.{ItemToArchive}
use dumbcas.Table.{Result, ok, Reader, Codec, CasTable, NodesTable, IsLawful, content}
use dumbcas.Archive.{archive_items}
use dumbcas.Archive.Counters.{Stats}
use dumbcas.Archive.Objects.{IsAddressed, IsAtomic, IsUnchanged, archive_items-IsAddressed}
use dumbcas.Fsck.{fsck}
use dumbcas.Fsck.Objects.{is_intact, fsck_keeps_intact}

-- After archiving files that did not change since they were hashed, into a lawful table that adds
-- an object whole or not at all and stores every object under the sha-1 of its content, fsck leaves
-- every object that can be read as it is.
pub fsck-archive_items :
    (C : CasTable) (L : IsLawful C) (atomic : IsAtomic C) (N : NodesTable) (codec : Codec)
    (opened : Text → Result Reader) (items : List ItemToArchive) (root : Entry) (c : C.State)
    (s : Stats) (n : N.State) (k bytes : Text)
    → All (IsUnchanged codec opened) items
    → IsAddressed C codec c
    → content C (archive_items C opened items root c s).1 k ≡ some (ok bytes)
    → let left = (archive_items C opened items root c s).1 in
      content C (fsck C N codec (record { cas = left; nodes = n })).tables.cas k ≡ some (ok bytes)
unfolding is_intact
fsck-archive_items C L atomic N codec opened items root c s n k bytes same addressed stored =
    let left = (archive_items C opened items root c s).1 in
    let name : codec.sha1 bytes ≡ k =
      archive_items-IsAddressed C L atomic codec opened items root c s same addressed k bytes
        stored in
    let intact : is_intact codec k (content C left k) ≡ true =
      ap (is_intact codec k) stored ∙ ap (λ h. h == k) name ∙ eq_refl k in
    fsck_keeps_intact C L codec N (record { cas = left; nodes = n }) k intact ∙ stored
