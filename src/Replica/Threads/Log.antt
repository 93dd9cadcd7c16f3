-- ===== src/Replica/Threads/Log.antt =====
-- What the log holds behind threads that were at it, while its queue has room.
use blp_cache.Aof.Writer.{collect}
use blp_cache.Aof.Writer.Batch.{collect_lem}
use blp_cache.Aof.{append_raw_async, append_command_async, Aof}
use blp_cache.Db.{log_command, Storage, impl_remove, impl_put, LevelDb}
use blp_cache.Resp.{Command, serialize}
use blp_cache.Replica.Threads.{
  all_quiet, thread_stores, writer_takes, thread_logs, log_accepts, store_change, Threads,
}
use blp_cache.Replica.CatchUp.{log_command-room}
use blp_cache.Replica.Stream.{del_change, set_change, Change, logged_change}
use blp_cache.Prelude.{
  Bool-cases, Bytes, List, [], ap, append-nil, append_assoc, arith, false, inl, inr, leb, length,
  length-append, map, refl, suc, sym, true, ℕ, ◌++◌, ◌+◌, ◌<◌, ◌∙◌, ◌∷◌, ◌≡◌, ◌≤◌,
}

-- A log that takes some more records at once.
pub record HasRoom (a : Aof) (n : ℕ) : Type 0 where
  pub open_log : a.stop_flag ≡ false
  pub room : length a.queue + n ≤ a.opts.max_queue_entries

abbrev records : List Change → List Bytes
records cs = map serialize (map logged_change cs)

records-append : (cs ds : List Change) → records (cs ++ ds) ≡ records cs ++ records ds
records-append [] ds = refl
records-append (c ∷ cs) ds =
    ap (λ (q : List Bytes). serialize (logged_change c) ∷ q) (records-append cs ds)

length-records : (cs : List Change) → length (records cs) ≡ length cs
length-records [] = refl
length-records (c ∷ cs) = ap suc (length-records cs)

module _ {l : LevelDb} where
  pub store_change-aof : (c : Change) (s : Storage l) → (store_change c s).aof ≡ s.aof
  unfolding store_change impl_put impl_remove
  store_change-aof (set_change key value) s = elim (Bool-cases s.is_open) [
    | inl e ↦ rw e refl
    | inr e ↦ rw e refl
  ]
  store_change-aof (del_change key) s = elim (Bool-cases s.is_open) [
    | inl e ↦ rw e refl
    | inr e ↦ rw e refl
  ]

  log_accepts-room :
      (wake : Aof → Aof) (s : Storage l) (cmd : Command)
      → s.aof.stop_flag ≡ false
      → length s.aof.queue < s.aof.opts.max_queue_entries
      → log_accepts wake s cmd ≡ true
  unfolding log_accepts append_command_async append_raw_async
  log_accepts-room wake s cmd open_log room =
      let space : leb s.aof.opts.max_queue_entries (length s.aof.queue) ≡ false = ground arith in
      rw (open_log, log_accepts, space) refl

  -- The log keeps its options and is not stopped, and what the writer took and what is queued are together
  -- what was queued at the start and a record for each accepted change.
  pub record IsQueued (start : Aof) (s : Threads l) : Type 0 where
    pub same_opts : s.storage.aof.opts ≡ start.opts
    pub same_flag : s.storage.aof.stop_flag ≡ start.stop_flag
    pub payloads :
        s.taken ++ s.storage.aof.queue ≡ start.queue ++ map serialize (map logged_change s.logged)

  pub all_quiet-IsQueued : (begin : Storage l) → IsQueued begin.aof (all_quiet begin)
  all_quiet-IsQueued begin = record {
    same_opts = refl;
    same_flag = refl;
    payloads = sym (append-nil begin.aof.queue);
  }

  -- A thread at a log that has room: its change is accepted, and the record is the last of the queue.
  pub thread_logs-room :
      (wake : Aof → Aof) (start : Aof) (c : Change) (s : Threads l)
      → HasRoom start (suc (length s.logged))
      → IsQueued start s
      → ((thread_logs wake c s).logged ≡ s.logged ++ (c ∷ []))
        × IsQueued start (thread_logs wake c s)
  unfolding thread_logs
  thread_logs-room wake start c s h v =
      let payload = serialize (logged_change c) in
      let open_log : s.storage.aof.stop_flag ≡ false = v.same_flag ∙ h.open_log in
      let space : length s.storage.aof.queue < s.storage.aof.opts.max_queue_entries =
        rw v.same_opts (
          omega (
            arith,
            h.room,
            ap (λ (q : List Bytes). length q) v.payloads,
            length-append s.taken s.storage.aof.queue,
            length-append start.queue (records s.logged),
            length-records s.logged,
          )) in
      let accepted : (thread_logs wake c s).logged ≡ s.logged ++ (c ∷ []) =
        rw (log_accepts-room wake s.storage (logged_change c) open_log space) refl in
      let log : (log_command wake s.storage (logged_change c)).aof
          ≡ record s.storage.aof { queue = s.storage.aof.queue ++ (payload ∷ []) } =
        log_command-room wake (logged_change c) s.storage open_log space in
      (
        accepted,
        record {
          same_opts = ap (λ (a : Aof). a.opts) log ∙ v.same_opts;
          same_flag = ap (λ (a : Aof). a.stop_flag) log ∙ v.same_flag;
          payloads =
              ap (λ (a : Aof). s.taken ++ a.queue) log
              ∙ sym (append_assoc s.taken s.storage.aof.queue (payload ∷ []))
              ∙ ap (λ (q : List Bytes). q ++ (payload ∷ [])) v.payloads
              ∙ append_assoc start.queue (records s.logged) (payload ∷ [])
              ∙ ap (λ (q : List Bytes). start.queue ++ q) (sym (records-append s.logged (c ∷ [])))
              ∙ ap (λ (cs : List Change). start.queue ++ records cs) (sym accepted);
        },
      )

  pub thread_stores-IsQueued :
      (wake : Aof → Aof) (start : Aof) (c : Change) (others : List Change) (s : Threads l)
      → IsQueued start s
      → IsQueued start (thread_stores wake c others s)
  unfolding thread_stores
  thread_stores-IsQueued wake start c others s v =
      let log = store_change-aof c s.storage in
      record {
        same_opts = ap (λ (a : Aof). a.opts) log ∙ v.same_opts;
        same_flag = ap (λ (a : Aof). a.stop_flag) log ∙ v.same_flag;
        payloads = ap (λ (a : Aof). s.taken ++ a.queue) log ∙ v.payloads;
      }

  pub writer_takes-IsQueued :
      (start : Aof) (s : Threads l) → IsQueued start s → IsQueued start (writer_takes s)
  unfolding writer_takes
  writer_takes-IsQueued start s v =
      let (whole, rest, _, _) = collect_lem s.storage.aof in
      let (batch, b) = collect s.storage.aof in
      record {
        same_opts = ap (λ (a : Aof). a.opts) rest ∙ v.same_opts;
        same_flag = ap (λ (a : Aof). a.stop_flag) rest ∙ v.same_flag;
        payloads =
            append_assoc s.taken batch b.queue
            ∙ ap (λ (q : List Bytes). s.taken ++ q) whole
            ∙ v.payloads;
      }

  -- The accepted changes never become fewer.
  pub thread_logs-length :
      (wake : Aof → Aof) (c : Change) (s : Threads l)
      → length s.logged ≤ length (thread_logs wake c s).logged
  unfolding thread_logs
  thread_logs-length wake c s = elim (Bool-cases (log_accepts wake s.storage (logged_change c))) [
    | inl e ↦ rw e (omega (arith, length-append s.logged (c ∷ [])))
    | inr e ↦ rw e (omega arith)
  ]
