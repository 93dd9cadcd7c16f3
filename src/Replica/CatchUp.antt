-- ===== src/Replica/CatchUp.antt =====
-- The changes of a master's storage, its log and the storage of a replica.
use blp_cache.Replica.{replica_rounds, on_command, send_reactions}
use blp_cache.Message.Transfer.{Receives, Sends}
use blp_cache.Socket.{Socket}
use blp_cache.Replica.Stream.{
  replica_rounds-send_reactions, stream_size, stream, IsSmallChange, changed, changed_all, Change,
  set_change, del_change, logged_change,
}
use blp_cache.Resp.{Command, serialize}
use blp_cache.Aof.{Aof, append_command_async, append_raw_async}
use blp_cache.Db.{forever_suffix, Storage, LevelDb, put, remove, impl_put, impl_remove, log_command}
use blp_cache.Prelude.{
  All, Bool, Bool-cases, Bytes, List, [], ap, append-nil, append_assoc, ap₂, arith, false,
  if◌then◌else◌, inl, inr, leb, length, length-append, map, refl, some, sym, ℕ, ◌++◌, ◌+◌, ◌<◌, ◌^◌,
  ◌∙◌, ◌∷◌, ◌≡◌, ◌≤◌,
}

-- A log that has queued a record for each change.
abbrev pub queued_all : Aof → List Change → Aof
queued_all a cs = record a { queue = a.queue ++ map serialize (map logged_change cs) }

-- What a change makes of a database.
abbrev stored : (l : LevelDb) → Change → Bool → l.Database → l.Database
stored l (set_change key value) is_open d =
    if is_open then (l.db_put d key (value ++ forever_suffix)).1 else d
stored l (del_change key) is_open d = if is_open then (l.db_delete d key).1 else d

module _ {l : LevelDb} where
  -- Two storages over the same database.
  pub record AreAlike (a b : Storage l) : Type 0 where
    pub same_database : a.database ≡ b.database
    pub same_open : a.is_open ≡ b.is_open

  changed-stored :
      (wake : Aof → Aof) (c : Change) (s : Storage l)
      → ((changed wake s c).database ≡ stored l c s.is_open s.database)
        × ((changed wake s c).is_open ≡ s.is_open)
  unfolding put remove impl_put impl_remove log_command
  changed-stored wake (set_change key value) s = elim (Bool-cases s.is_open) [
    | inl e ↦ rw e (refl, refl)
    | inr e ↦ rw e (refl, refl)
  ]
  changed-stored wake (del_change key) s = elim (Bool-cases s.is_open) [
    | inl e ↦ rw e (refl, refl)
    | inr e ↦ rw e (refl, refl)
  ]

  changed-AreAlike :
      (wake other : Aof → Aof) (c : Change) (a b : Storage l)
      → AreAlike a b
      → AreAlike (changed wake a c) (changed other b c)
  changed-AreAlike wake other c a b v =
      let (d, o) = changed-stored wake c a in
      let (e, p) = changed-stored other c b in
      record {
        same_database = d ∙ ap₂ (stored l c) v.same_open v.same_database ∙ sym e;
        same_open = o ∙ v.same_open ∙ sym p;
      }

  changed_all-AreAlike :
      (wake other : Aof → Aof) (cs : List Change) (a b : Storage l)
      → AreAlike a b
      → AreAlike (changed_all wake a cs) (changed_all other b cs)
  changed_all-AreAlike wake other [] a b v = v
  changed_all-AreAlike wake other (c ∷ cs) a b v =
      changed_all-AreAlike wake other cs (changed wake a c) (changed other b c)
        (changed-AreAlike wake other c a b v)

  module _ (wake : Aof → Aof) where
    pub log_command-room :
        (c : Command) (s : Storage l)
        → s.aof.stop_flag ≡ false
        → length s.aof.queue < s.aof.opts.max_queue_entries
        → (log_command wake s c).aof ≡ record s.aof { queue = s.aof.queue ++ (serialize c ∷ []) }
    unfolding log_command append_command_async append_raw_async
    log_command-room c s open_log room =
        let space : leb s.aof.opts.max_queue_entries (length s.aof.queue) ≡ false = ground arith in
        rw (open_log, log_command, space) refl

    changed-log_command :
        (c : Change) (s : Storage l)
        → (changed wake s c).aof ≡ (log_command wake s (logged_change c)).aof
    unfolding put remove impl_put impl_remove log_command
    changed-log_command (set_change key value) s =
        elim (Bool-cases (log_command wake s (logged_change (set_change key value))).is_open) [
          | inl e ↦ rw e refl
          | inr e ↦ rw e refl
        ]
    changed-log_command (del_change key) s =
        elim (Bool-cases (log_command wake s (logged_change (del_change key))).is_open) [
          | inl e ↦ rw e refl
          | inr e ↦ rw e refl
        ]

    -- The log behind some changes, for which its queue has room.
    pub changed_all-aof :
        (cs : List Change) (s : Storage l)
        → s.aof.stop_flag ≡ false
        → length s.aof.queue + length cs ≤ s.aof.opts.max_queue_entries
        → (changed_all wake s cs).aof ≡ queued_all s.aof cs
    changed_all-aof [] s open_log room =
        ap (λ (q : List Bytes). record s.aof { queue = q }) (sym (append-nil s.aof.queue))
    changed_all-aof (c ∷ cs) s open_log room =
        let payload = serialize (logged_change c) in
        let logged =
          changed-log_command c s ∙ log_command-room (logged_change c) s open_log (omega arith) in
        let queue : (changed wake s c).aof.queue ≡ s.aof.queue ++ (payload ∷ []) =
          ap (λ (a : Aof). a.queue) logged in
        let opts : (changed wake s c).aof.opts ≡ s.aof.opts = ap (λ (a : Aof). a.opts) logged in
        let flag : (changed wake s c).aof.stop_flag ≡ false =
          ap (λ (a : Aof). a.stop_flag) logged ∙ open_log in
        let fits : length (changed wake s c).aof.queue + length cs
            ≤ (changed wake s c).aof.opts.max_queue_entries =
          rw (queue, opts) (omega (arith, length-append s.aof.queue (payload ∷ []))) in
        changed_all-aof cs (changed wake s c) flag fits
        ∙ ap (λ (a : Aof). queued_all a cs) logged
        ∙ ap (λ (q : List Bytes). record s.aof { queue = q })
            (append_assoc s.aof.queue (payload ∷ []) (map serialize (map logged_change cs)))

  -- A master puts and removes some keys, with room in the queue of its log. Then the log has queued a
  -- record for each change, in order; and where the listener reads these records behind an offset, its
  -- messages arrive, and the replica started from the same database, the replica's database is that of the
  -- master as soon as its loop has run a round for each change. The texts are shorter than 2 ^ 32 bytes, the
  -- offset is below 2 ^ 64, and the kernel's answers make progress and are enough.
  pub replica_catches_up :
      (wake other : Aof → Aof) (offset : ℕ) (cs : List Change) (master replica : Storage l)
      (s r : Socket)
      → AreAlike master replica
      → master.aof.stop_flag ≡ false
      → length master.aof.queue + length cs ≤ master.aof.opts.max_queue_entries
      → offset < 2 ^ 64
      → All IsSmallChange cs
      → s.wire ≡ []
      → r.incoming ≡ stream offset cs
      → Sends s (stream_size offset cs)
      → Receives r (stream_size offset cs)
      → ((changed_all wake master cs).aof.queue
          ≡ master.aof.queue ++ map serialize (map logged_change cs))
        × ((t : Socket) × (send_reactions (map (on_command offset) (map logged_change cs)) s
              ≡ some t)
            × (t.wire ≡ r.incoming))
        × ((after : Storage l) × (u : Socket) × (replica_rounds (length cs) other replica r
              ≡ some (after, u))
            × (after.database ≡ (changed_all wake master cs).database))
  replica_catches_up wake other offset cs master replica s r v open_log room h small empty arrives
        sends receives =
      let (t, u, e, w, f, _) =
        replica_rounds-send_reactions other offset cs replica s r h small empty arrives sends
          receives in
      let alike = changed_all-AreAlike wake other cs master replica v in
      (
        ap (λ (a : Aof). a.queue) (changed_all-aof wake cs master open_log room),
        (t, e, w),
        (changed_all other replica cs, u, f, sym alike.same_database),
      )
