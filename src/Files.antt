-- ===== src/Files.antt =====
-- The calls of package os that the tables on disk make besides those of Disk, with what adding and
-- opening rely on, and filepath.Join.
use dumbcas.Prelude.{Text, ◌==◌, Bool, true, false, if◌then◌else◌, ◌≡◌, List, [], ◌∷◌, Option, some}
use dumbcas.Prelude.{has_prefix}
use dumbcas.Prelude.Map.{is_some}
use dumbcas.Prelude.FilePath.{slash, clean, join_parts}
use dumbcas.Table.{Error, exist, not_exist, Result, ok, Reader}
use dumbcas.Restore.{Disk, IsLawfulDisk}

-- The calls: os.Open of a file, os.Open with Readdirnames, os.Create with Close, os.Remove,
-- os.Mkdir and os.Rename.
pub record FileSystem : Type 1 where
  pub disk : Disk
  pub open_file : disk.State → Text → Result Reader
  pub read_dir_names : disk.State → Text → Result (List Text)
  pub create_empty : disk.State → Text → Option Error × disk.State
  pub remove : disk.State → Text → Option Error × disk.State
  pub mkdir : disk.State → Text → Option Error × disk.State
  pub rename : disk.State → Text → Text → Option Error × disk.State

-- What adding and opening rely on.
pub record IsLawfulFiles (F : FileSystem) : Type 0 where
  pub files : IsLawfulDisk F.disk
  -- A file that holds something can be read.
  pub open_file-file :
      (d : F.disk.State) (p bytes : Text)
      → F.disk.file d p ≡ some bytes
      → F.open_file d p ≡ ok (ok bytes)
  -- The empty name is refused, and by O_EXCL a file that exists. What is refused changes nothing.
  pub create-empty_name : (d : F.disk.State) → (F.disk.create d []).0 ≡ some not_exist
  pub create-exist :
      (d : F.disk.State) (p : Text)
      → is_some (F.disk.file d p) ≡ true
      → (F.disk.create d p).0 ≡ some exist
  pub open_file-create_failed :
      (d : F.disk.State) (p q : Text) (e : Error)
      → (F.disk.create d p).0 ≡ some e
      → F.open_file (F.disk.create d p).1 q ≡ F.open_file d q
  -- Writing a file does not change what another one opens to.
  pub open_file-create_other :
      (d : F.disk.State) (p q : Text)
      → (p == q) ≡ false
      → F.open_file (F.disk.create d p).1 q ≡ F.open_file d q
  pub open_file-copy_other :
      (d : F.disk.State) (p q : Text) (r : Reader)
      → (p == q) ≡ false
      → F.open_file (F.disk.copy d p r).2 q ≡ F.open_file d q
  -- A copy that fails leaves the file there.
  pub is_some-copy :
      (d : F.disk.State) (p : Text) (r : Reader)
      → is_some (F.disk.file d p) ≡ true
      → is_some (F.disk.file (F.disk.copy d p r).2 p) ≡ true

-- filepath.Join
unfoldable pub join_all : List Text → Text
join_all [] = []
join_all (p ∷ ps) = if p == [] then join_all ps else clean (join_parts (p ∷ ps))

-- filepath.IsAbs
abbrev pub is_abs : Text → Bool
is_abs p = has_prefix p (slash ∷ [])
