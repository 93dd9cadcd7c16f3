-- ===== src/Replica/Threads/Race.antt =====
-- Two threads that store the changes of one key in another order than that of the log.
use blp_cache.Resp.{serialize}
use blp_cache.Replica.Threads.Log.{
  thread_stores-IsQueued, all_quiet-IsQueued, thread_logs-room, HasRoom,
}
use blp_cache.Replica.Threads.{
  all_quiet, Threads, ThreadReach, logs, stores, moved, unmoved, thread_logs, thread_stores,
}
use blp_cache.Replica.Threads.Order.{IsAny, impl_get-store_change}
use blp_cache.Replica.Stream.{logged_change, Change, changed_all, set_change}
use blp_cache.Db.Refine.{AlwaysPuts, put-ok}
use blp_cache.Db.Split.{LacksTab, split_tab-suffix, stoull-forever}
use blp_cache.Db.Cleaner.{AlwaysDeletes, visible}
use blp_cache.Db.Values.{impl_get-put_self, get-stored}
use blp_cache.Db.{
  never, log_command, get_until, impl_get, put, Storage, LevelDb, IsLevelDb, forever_suffix,
}
use blp_cache.Aof.{Aof}
use blp_cache.Prelude.{
  Bool, Bytes, List, [], ap, arith, codes, if◌then◌else◌, length, map, none, refl, same_refl, some,
  subst, suc, sym, true, ℕ, ◌++◌, ◌∙◌, ◌∷◌, ◌≡◌,
}

visible-forever :
    {l : LevelDb} (now : ℕ) (s : Storage l) (k v : Bytes)
    → impl_get s k ≡ some (v ++ forever_suffix)
    → LacksTab v
    → visible now s k ≡ some v
visible-forever {l} now s k v held clean =
    let whole = v ++ forever_suffix in
    let endless : get_until now s k whole v (some never) ≡ (true, v, s) =
      unfold get_until in refl in
    ap (λ (o : Bool × Bytes × Storage l). if o.0 then some o.1 else none)
      (get-stored now s k [] (v ++ forever_suffix) v _ held (split_tab-suffix v clean)
        ∙ ap (get_until now s k (v ++ forever_suffix) v) stoull-forever
        ∙ endless)

module _ {l : LevelDb} (law : IsLevelDb l) (puts : AlwaysPuts l) (deletes : AlwaysDeletes l)
    (wake other : Aof → Aof) where
  -- From every open storage whose log is not stopped and has room for two records, there is a run of two
  -- threads, each in a `put` of the same key, that ends with no thread in an operation: the queue of the log
  -- has got the record of the first value and behind it that of the second, the storage shows its clients
  -- the first value, and a replica that stores the logged changes shows the second, at any time. The values
  -- have no tab, the replica's storage is open, and the writes of both databases succeed.
  pub threads_diverge :
      (begin replica : Storage l) (now : ℕ) (k v w : Bytes)
      → begin.is_open ≡ true
      → replica.is_open ≡ true
      → HasRoom begin.aof 2
      → LacksTab v
      → LacksTab w
      → (t : Threads l) × ThreadReach wake IsAny (all_quiet begin) t
        × (t.pending ≡ [])
        × (t.logged ≡ set_change k v ∷ set_change k w ∷ [])
        × (t.storage.aof.queue
            ≡ begin.aof.queue
              ++ (serialize (codes "SET" ∷ k ∷ v ∷ []) ∷ serialize (codes "SET" ∷ k ∷ w ∷ []) ∷ []))
        × (visible now t.storage k ≡ some v)
        × (visible now (changed_all other replica t.logged) k ≡ some w)
  unfolding thread_stores
  threads_diverge begin replica now k v w o p room clean_v clean_w =
      let first = set_change k v in
      let second = set_change k w in
      let one = thread_logs wake first (all_quiet begin) in
      let two = thread_logs wake second one in
      let three = thread_stores wake second (first ∷ []) two in
      let four = thread_stores wake first [] three in
      let room_one : HasRoom begin.aof 1 = record {
        open_log = room.open_log;
        room = omega (arith, room.room);
      } in
      let (logged_one, log_one) =
        thread_logs-room wake begin.aof first (all_quiet begin) room_one
          (all_quiet-IsQueued begin) in
      let room_two : HasRoom begin.aof (suc (length one.logged)) =
        subst (λ (cs : List Change). HasRoom begin.aof (suc (length cs))) (sym logged_one)
          (record { open_log = room.open_log; room = omega (arith, room.room) }) in
      let (logged_two, log_two) = thread_logs-room wake begin.aof second one room_two log_one in
      let both : two.logged ≡ first ∷ second ∷ [] =
        logged_two ∙ ap (λ (cs : List Change). cs ++ (second ∷ [])) logged_one in
      let log_four =
        thread_stores-IsQueued wake begin.aof first [] three
          (thread_stores-IsQueued wake begin.aof second (first ∷ []) two log_two) in
      let untaken : four.taken ≡ [] = unfold thread_logs in refl in
      let open_two : two.storage.is_open ≡ true = unfold thread_logs log_command in o in
      let open_three : three.storage.is_open ≡ true =
        (impl_get-store_change law puts deletes wake second two.storage k open_two).1 in
      let held : impl_get four.storage k ≡ some (v ++ forever_suffix) =
        (impl_get-store_change law puts deletes wake first three.storage k open_three).0
        ∙ (rw (same_refl k) refl) in
      let after = (put other replica k v).1 in
      let open_after = (put-ok law puts deletes other replica k v p).1 in
      let put_second = (put-ok law puts deletes other after k w open_after).0 in
      (
        four,
        moved
            (moved (moved (moved unmoved (logs first refl)) (logs second refl))
              (stores second (first ∷ []) [] (unfold thread_logs in refl) tt refl))
            (stores first [] [] refl tt refl),
        refl,
        both,
        ap (λ (q : List Bytes). q ++ four.storage.aof.queue) (sym untaken)
            ∙ log_four.payloads
            ∙ ap (λ (cs : List Change). begin.aof.queue ++ map serialize (map logged_change cs))
                both,
        visible-forever now four.storage k v held clean_v,
        ap (λ (cs : List Change). visible now (changed_all other replica cs) k) both
            ∙ visible-forever now (put other after k w).1 k w
                (impl_get-put_self law other after k w put_second) clean_w,
      )
