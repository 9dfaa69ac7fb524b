-- ===== src/Archive/Counters.antt =====
-- The counters of archive.go: type statsValues. They stay below 2^63 in any run, so the wrap of int64 is
-- not modelled.
use dumbcas.Prelude.{ℕ, ◌+◌, Bool, ◌&&◌, eqb, true, ◌≡◌, ◌↔◌, arith}

pub record Stats : Type 0 where
  pub errors : ℕ
  pub found : ℕ
  pub total_size : ℕ
  pub nb_hashed : ℕ
  pub bytes_hashed : ℕ
  pub nb_not_hashed : ℕ
  pub bytes_not_hashed : ℕ
  pub nb_archived : ℕ
  pub bytes_archived : ℕ
  pub nb_not_archived : ℕ
  pub bytes_not_archived : ℕ

abbrev pub zero_stats : Stats
zero_stats = record {
  errors = 0;
  found = 0;
  total_size = 0;
  nb_hashed = 0;
  bytes_hashed = 0;
  nb_not_hashed = 0;
  bytes_not_hashed = 0;
  nb_archived = 0;
  bytes_archived = 0;
  nb_not_archived = 0;
  bytes_not_archived = 0;
}

abbrev pub count_error : Stats → Stats
count_error s = record s { errors = s.errors + 1 }

abbrev pub count_found : ℕ → Stats → Stats
count_found size s = record s { found = s.found + 1; total_size = s.total_size + size }

abbrev pub count_hashed : ℕ → Stats → Stats
count_hashed size s = record s { nb_hashed = s.nb_hashed + 1; bytes_hashed = s.bytes_hashed + size }

abbrev pub count_not_hashed : ℕ → Stats → Stats
count_not_hashed size s = record s {
  nb_not_hashed = s.nb_not_hashed + 1;
  bytes_not_hashed = s.bytes_not_hashed + size;
}

abbrev pub count_archived : ℕ → Stats → Stats
count_archived size s = record s {
  nb_archived = s.nb_archived + 1;
  bytes_archived = s.bytes_archived + size;
}

abbrev pub count_not_archived : ℕ → Stats → Stats
count_not_archived size s = record s {
  nb_not_archived = s.nb_not_archived + 1;
  bytes_not_archived = s.bytes_not_archived + size;
}

-- (*statsValues).equals
unfoldable pub equals : Stats → Stats → Bool
equals a b =
    eqb a.errors b.errors
    && eqb a.found b.found
    && eqb a.total_size b.total_size
    && eqb a.nb_hashed b.nb_hashed
    && eqb a.bytes_hashed b.bytes_hashed
    && eqb a.nb_not_hashed b.nb_not_hashed
    && eqb a.bytes_not_hashed b.bytes_not_hashed
    && eqb a.nb_archived b.nb_archived
    && eqb a.bytes_archived b.bytes_archived
    && eqb a.nb_not_archived b.nb_not_archived
    && eqb a.bytes_not_archived b.bytes_not_archived

-- equals holds of two copies of the counters exactly when they are the same.
pub equals_iff : (a b : Stats) → (equals a b ≡ true) ↔ (a ≡ b)
unfolding equals
equals_iff a b = (λ h. ground arith, λ h. ground arith)
