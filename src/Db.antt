-- ===== src/Db.antt =====
-- The storage of src/core/db.h and src/core/db.cpp: a LevelDB database behind a wrapper that logs each
-- change to the append-only file and keeps a time of expiry behind a tab in each stored value.
-- LevelDB is a parameter; the time of `now_sec` is an argument of each operation that reads it.
pub mod Split
pub mod Values
pub mod Expiry
pub mod Cleaner
pub mod Clients
pub mod Memory
pub mod Setup
pub mod Interface
pub mod Iterator
pub mod Table
pub mod Refine
pub mod Wrapper
mod Tests
use blp_cache.Decimal.{stoull, to_string}
use mathlib.Core.Option
use mathlib.Core.Option.{get_or}
use blp_cache.Aof.{Aof, append_command_async, append_command_blocking}
use blp_cache.Resp.{Command}
use blp_cache.Prelude.{
  Bool, Bytes, List, Option, [], codes, false, if◌then◌else◌, leb, length, ltb, none, same, some,
  true, ℕ, ◌%◌, ◌++◌, ◌+◌, ◌-◌, ◌==◌, ◌^◌, ◌∷◌, ◌≡◌,
}
use blp_cache.Prelude.Int.{ℤ, pos, negsuc}

-- What the source calls of LevelDB. `db_get` gives nothing where the status is not OK, and then leaves
-- the caller's string alone; the other two give the status and the database.
pub record LevelDb : Type 1 where
  pub Database : Type 0
  pub db_get : Database → Bytes → Option Bytes
  pub db_put : Database → Bytes → Bytes → Bool × Database
  pub db_delete : Database → Bytes → Bool × Database

-- What LevelDB promises of a write whose status is OK.
pub record IsLevelDb (l : LevelDb) : Type 0 where
  pub get-put :
      (d : l.Database) (k v j : Bytes)
      → (l.db_put d k v).0 ≡ true
      → l.db_get (l.db_put d k v).1 j ≡ (if same k j then some v else l.db_get d j)
  pub get-delete :
      (d : l.Database) (k j : Bytes)
      → (l.db_delete d k).0 ≡ true
      → l.db_get (l.db_delete d k).1 j ≡ (if same k j then none else l.db_get d j)

abbrev pub tab : ℕ
tab = 9

-- What `put` appends to each value.
abbrev pub forever_suffix : Bytes
forever_suffix = tab ∷ b'-' ∷ b'1' ∷ []

-- The text before the first tab, and the text behind it.
unfoldable pub split_tab : Bytes → Option (Bytes × Bytes)
split_tab [] = none
split_tab (c ∷ s) =
    let later = Option.map (λ (p : Bytes × Bytes). (c ∷ p.0, p.1)) (split_tab s) in
    if c == tab then some ([], s) else later

-- The time that stands for no expiry: `expire_time == -1`.
abbrev pub never : ℕ
never = 2 ^ 64 - 1

-- An unsigned 64-bit number returned as an `int64_t`.
unfoldable pub signed64 : ℕ → ℤ
signed64 n = if ltb n (2 ^ 63) then pos n else negsuc (2 ^ 64 - 1 - n)

unfoldable pub ttl_until : ℕ → Option ℕ → ℤ
ttl_until now none = negsuc 0
ttl_until now (some expire_time) =
    if expire_time == never
    then negsuc 0
    else if leb expire_time now
    then negsuc 1
    else signed64 (expire_time - now)

unfoldable pub ttl_split : ℕ → Option (Bytes × Bytes) → ℤ
ttl_split now none = negsuc 1
ttl_split now (some (actual, expire_time_str)) = ttl_until now (stoull expire_time_str)

unfoldable pub actual_value : Bytes → Bytes
actual_value value = elim (split_tab value) [ none ↦ value | some (actual, rest) ↦ actual ]

module _ (l : LevelDb) where
  -- The wrapper: `open` says whether `db_` is not null.
  pub record Storage : Type 0 where
    pub database : l.Database
    pub is_open : Bool
    pub aof : Aof

module _ {l : LevelDb} where
  unfoldable pub impl_put : Storage l → Bytes → Bytes → Bool × Storage l
  impl_put s key value =
      if s.is_open
      then (
        (l.db_put s.database key value).0,
        record s { database = (l.db_put s.database key value).1 },
      )
      else (false, s)

  unfoldable pub impl_remove : Storage l → Bytes → Bool × Storage l
  impl_remove s key =
      if s.is_open
      then ((l.db_delete s.database key).0, record s { database = (l.db_delete s.database key).1 })
      else (false, s)

  unfoldable pub impl_get : Storage l → Bytes → Option Bytes
  impl_get s key = if s.is_open then l.db_get s.database key else none

  -- `if (!aof_.appendCommandAsync(cmd)) aof_.appendCommandBlocking(cmd);`
  unfoldable pub log_command : (Aof → Aof) → Storage l → Command → Storage l
  log_command wake s cmd =
      let first = append_command_async s.aof cmd in
      record s {
        aof =
            if first.accepted then first.aof else (append_command_blocking wake first.aof cmd).aof;
      }

  unfoldable pub put : (Aof → Aof) → Storage l → Bytes → Bytes → Bool × Storage l
  put wake s key value =
      impl_put (log_command wake s (codes "SET" ∷ key ∷ value ∷ [])) key (value ++ forever_suffix)

  unfoldable pub remove : (Aof → Aof) → Storage l → Bytes → Bool × Storage l
  remove wake s key = impl_remove (log_command wake s (codes "DEL" ∷ key ∷ [])) key

  -- The string that `impl_->get(key, &value)` leaves in `value`.
  unfoldable pub loaded : Storage l → Bytes → Bytes → Bytes
  loaded s key value = get_or (impl_get s key) value

  -- `get` behind the split of the value, at the time `now`.
  unfoldable pub get_until :
      ℕ → Storage l → Bytes → Bytes → Bytes → Option ℕ → Bool × Bytes × Storage l
  get_until now s key whole actual none = (false, whole, s)
  get_until now s key whole actual (some expire_time) =
      if expire_time == never
      then (true, actual, s)
      else if leb expire_time now
      then (false, [], (impl_remove s key).1)
      else (true, actual, s)

  unfoldable pub get_split :
      ℕ → Storage l → Bytes → Bytes → Option (Bytes × Bytes) → Bool × Bytes × Storage l
  get_split now s key whole none = (true, whole, s)
  get_split now s key whole (some (actual, expire_time_str)) =
      get_until now s key whole actual (stoull expire_time_str)

  -- `get(key, value)`: the result, what `*value` holds at the end, and the storage.
  unfoldable pub get : ℕ → Storage l → Bytes → Bytes → Bool × Bytes × Storage l
  get now s key value =
      let whole = loaded s key value in
      if length whole == 0 then (false, whole, s) else get_split now s key whole (split_tab whole)

  unfoldable pub ttl : ℕ → Storage l → Bytes → ℤ
  ttl now s key =
      let value = loaded s key [] in
      if length value == 0 then negsuc 1 else ttl_split now (split_tab value)

  unfoldable pub expire : (Aof → Aof) → ℕ → Storage l → Bytes → ℕ → Bool × Storage l
  expire wake now s key ts =
      let value = loaded s key [] in
      if length value == 0
      then (false, s)
      else put wake s key (actual_value value ++ (tab ∷ to_string ((now + ts) % 2 ^ 64)))

  -- One round of the loop of `ttl_cleaner` over an iterator, at the time `now`.
  unfoldable pub clean_until : ℕ → Storage l → Bytes → Option ℕ → Storage l
  clean_until now s key none = s
  clean_until now s key (some expire_time) =
      if expire_time == never then s else if leb expire_time now then (impl_remove s key).1 else s

  unfoldable pub clean_entry : ℕ → Storage l → Bytes → Bytes → Storage l
  clean_entry now s key value = elim (split_tab value) [
    | none ↦ s
    | some (actual, expire_time_str) ↦ clean_until now s key (stoull expire_time_str)
  ]

  -- A pass of `ttl_cleaner`: the entries are those of the iterator's snapshot, each with the time that
  -- the clock gives at its round.
  unfoldable pub clean : Storage l → List (ℕ × Bytes × Bytes) → Storage l
  clean s [] = s
  clean s ((now, key, value) ∷ entries) = clean (clean_entry now s key value) entries
