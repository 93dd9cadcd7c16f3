-- ===== src/Db/Iterator.antt =====
-- The loop of `ttl_cleaner` in src/core/db.cpp, over LevelDB's iterator.
pub mod Sweep
mod Tests
use blp_cache.Db.{Storage, LevelDb, clean}
use blp_cache.Prelude.{
  All, Bytes, List, Option, [], if◌then◌else◌, none, same, some, suc, ℕ, ◌∷◌, ◌≡◌,
}

-- The first value that a list of entries has for a key.
abbrev pub find_value : Bytes → List (Bytes × Bytes) → Option Bytes
find_value key [] = none
find_value key ((k, v) ∷ entries) =
    let later = find_value key entries in if same k key then some v else later

-- What the source calls of an iterator: the entries that it steps over, from the first on, which are those of
-- the database at the time of `NewIterator`.
pub record Iterates (l : LevelDb) : Type 0 where
  pub db_entries : l.Database → List (Bytes × Bytes)
  pub entries_stored :
      (d : l.Database) → All (λ (e : Bytes × Bytes). l.db_get d e.0 ≡ some e.1) (db_entries d)
  pub entries_complete : (d : l.Database) (k : Bytes) → find_value k (db_entries d) ≡ l.db_get d k

-- The times that the clock gives, one for each entry.
unfoldable pub with_times : (ℕ → ℕ) → List (Bytes × Bytes) → List (ℕ × Bytes × Bytes)
with_times clock [] = []
with_times clock ((key, value) ∷ entries) =
    (clock 0, key, value) ∷ with_times (λ n. clock (suc n)) entries

module _ {l : LevelDb} (iterates : Iterates l) where
  unfoldable pub new_iterator : Storage l → Option (List (Bytes × Bytes))
  new_iterator s = if s.is_open then some (iterates.db_entries s.database) else none

  -- One round of the outer loop, without its sleep.
  unfoldable pub cleaner_round : (ℕ → ℕ) → Storage l → Storage l
  cleaner_round clock s = elim (new_iterator s) [
    | none ↦ s
    | some entries ↦ clean s (with_times clock entries)
  ]
