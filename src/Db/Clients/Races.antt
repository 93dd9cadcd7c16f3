-- ===== src/Db/Clients/Races.antt =====
-- A `put` between the read of a thread and its action.
use blp_cache.Db.Expiry.{get-timed, actual_value-split}
use blp_cache.Db.Values.{impl_get-put_self, loaded-some, get-put, split-nonempty}
use blp_cache.Decimal.{to_string}
use blp_cache.Db.Split.{timed, LacksTab, split_tab-some}
use blp_cache.Aof.{Aof}
use blp_cache.Db.Cleaner.{visible, AlwaysDeletes}
use blp_cache.Db.Refine.{put-ok, AlwaysPuts}
use blp_cache.Db.{put, impl_get, tab, never, split_tab, Storage, IsLevelDb, LevelDb}
use blp_cache.Db.Clients.{
  ends, puts_value, starts_expire, finish_call, set_thread, begin_call, happen, happen_all,
  expire_loaded, Clients,
}
use blp_cache.Prelude.{
  Bool, Bytes, [], ap, arith, if◌then◌else◌, none, refl, some, true, ℕ, ◌%◌, ◌++◌, ◌+◌, ◌<◌, ◌^◌,
  ◌∙◌, ◌∷◌, ◌≡◌,
}

module _ {l : LevelDb} (law : IsLevelDb l) (puts : AlwaysPuts l) (deletes : AlwaysDeletes l)
    (wake : Aof → Aof) where
  abbrev idle : Storage l → Clients l
  idle s = record { storage = s; pending = λ i. none }

  -- The storage behind an `expire` that read a value before something else was put.
  expire_loaded-stale :
      (now ts : ℕ) (s : Storage l) (k v a r : Bytes)
      → s.is_open ≡ true
      → split_tab v ≡ some (a, r)
      → 0 < ts
      → now + ts < never
      → visible now (expire_loaded wake now s k v ts).1 k ≡ some a
  unfolding expire_loaded
  expire_loaded-stale now ts s k v a r o p later small =
      let whole : (now + ts) % 2 ^ 64 ≡ now + ts = omega arith in
      let (clean, _) = split_tab-some v a r p in
      let new_value = a ++ (tab ∷ to_string ((now + ts) % 2 ^ 64)) in
      let stored : expire_loaded wake now s k v ts ≡ put wake s k new_value =
        rw (expire_loaded, split-nonempty v a r p, actual_value-split v a r p) refl in
      let (ok, _) = put-ok law puts deletes wake s k new_value o in
      let held : impl_get (put wake s k new_value).1 k ≡ some (timed a (now + ts)) =
        impl_get-put_self law wake s k new_value ok ∙ ap (λ (n : ℕ). some (timed a n)) whole in
      let got = get-timed now (now + ts) (put wake s k new_value).1 k [] a held clean small in
      ap (λ (x : Bool × Storage l). visible now x.1 k) stored
      ∙ ap (λ (x : Bool × Bytes × Storage l). if x.0 then some x.1 else none) got
      ∙ (ground arith)

  -- While a thread in `expire` has read a value, another puts a value of the same key, which clients then
  -- see; when the thread ends, they see the first value again, and the put is lost. The first value was
  -- stored by this program, so it has a tab; the second has none; the database is open and its writes
  -- succeed; and the new time is later than now and below 2 ^ 64 - 1.
  pub expire_overwrites_put :
      (now ts : ℕ) (s : Storage l) (k v old a r : Bytes)
      → s.is_open ≡ true
      → impl_get s k ≡ some old
      → split_tab old ≡ some (a, r)
      → LacksTab v
      → 0 < ts
      → now + ts < never
      → let mid = happen_all wake (idle s) (starts_expire 0 k ts ∷ puts_value k v ∷ []) in
        (visible now mid.storage k ≡ some v)
        × (visible now (happen wake mid (ends 0 now)).storage k ≡ some a)
  unfolding happen_all happen begin_call set_thread finish_call
  expire_overwrites_put now ts s k v old a r o e p clean later small =
      let (ok, open_still) = put-ok law puts deletes wake s k v o in
      let kept = ((get-put law wake s k v [] clean ok).0 now).0 in
      (
        ap (λ (x : Bool × Bytes × Storage l). if x.0 then some x.1 else none) kept,
        rw (loaded-some s k [] old e)
            (expire_loaded-stale now ts (put wake s k v).1 k old a r open_still p later small),
      )
