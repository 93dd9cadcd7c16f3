-- ===== src/Db/Clients.antt =====
-- Threads inside `get` and `expire` of src/core/db.cpp at once. Each reads the stored value under the mutex of
-- `Impl` and acts on it later, under the mutex again, and nothing holds the value in between.
pub mod Reads
pub mod Races
mod Tests
use blp_cache.Decimal.{to_string}
use blp_cache.Aof.{Aof}
use blp_cache.Db.{get_split, split_tab, put, remove, loaded, actual_value, tab, Storage, LevelDb}
use blp_cache.Prelude.{
  Bool, Bytes, List, Option, [], false, if◌then◌else◌, length, none, some, ℕ, ◌%◌, ◌++◌, ◌+◌, ◌==◌,
  ◌^◌, ◌∷◌,
}

-- A thread that has read the value of a key: in `get`, which was given an empty string, or in `expire`.
pub data Pending : Type 0 where
  getting : (key whole : Bytes) → Pending
  expiring : (key value : Bytes) (ts : ℕ) → Pending

pub record Clients (l : LevelDb) : Type 0 where
  pub storage : Storage l
  pub pending : ℕ → Option Pending

-- What happens next: a thread reads, a thread acts at the time that its clock gives, or a thread that read
-- nothing puts or removes.
pub data Event : Type 0 where
  starts_get : (thread : ℕ) (key : Bytes) → Event
  starts_expire : (thread : ℕ) (key : Bytes) (ts : ℕ) → Event
  ends : (thread now : ℕ) → Event
  puts_value : (key value : Bytes) → Event
  removes_key : (key : Bytes) → Event

unfoldable pub set_thread : ℕ → Option Pending → (ℕ → Option Pending) → ℕ → Option Pending
set_thread thread p pending i = if i == thread then p else pending i

module _ {l : LevelDb} where
  -- `get` behind the read.
  unfoldable pub get_loaded : ℕ → Storage l → Bytes → Bytes → Bool × Bytes × Storage l
  get_loaded now s key whole =
      if length whole == 0 then (false, whole, s) else get_split now s key whole (split_tab whole)

  -- `expire` behind the read.
  unfoldable pub expire_loaded : (Aof → Aof) → ℕ → Storage l → Bytes → Bytes → ℕ → Bool × Storage l
  expire_loaded wake now s key value ts =
      if length value == 0
      then (false, s)
      else put wake s key (actual_value value ++ (tab ∷ to_string ((now + ts) % 2 ^ 64)))

  unfoldable pub finish_call : (Aof → Aof) → ℕ → Storage l → Option Pending → Storage l
  finish_call wake now s none = s
  finish_call wake now s (some (getting key whole)) = (get_loaded now s key whole).2
  finish_call wake now s (some (expiring key value ts)) = (expire_loaded wake now s key value ts).1

  -- A thread that is busy starts nothing.
  unfoldable pub begin_call : Clients l → ℕ → Pending → Clients l
  begin_call c thread p = elim (c.pending thread) [
    | none ↦ record c { pending = set_thread thread (some p) c.pending }
    | some busy ↦ c
  ]

  unfoldable pub happen : (Aof → Aof) → Clients l → Event → Clients l
  happen wake c (starts_get thread key) =
      begin_call c thread (getting key (loaded c.storage key []))
  happen wake c (starts_expire thread key ts) =
      begin_call c thread (expiring key (loaded c.storage key []) ts)
  happen wake c (ends thread now) = record c {
    storage = finish_call wake now c.storage (c.pending thread);
    pending = set_thread thread none c.pending;
  }
  happen wake c (puts_value key value) = record c { storage = (put wake c.storage key value).1 }
  happen wake c (removes_key key) = record c { storage = (remove wake c.storage key).1 }

  unfoldable pub happen_all : (Aof → Aof) → Clients l → List Event → Clients l
  happen_all wake c [] = c
  happen_all wake c (e ∷ events) = happen_all wake (happen wake c e) events
