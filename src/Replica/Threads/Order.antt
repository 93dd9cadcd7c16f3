-- ===== src/Replica/Threads/Order.antt =====
-- Threads that store the changes of a key in the order of the log.
use blp_cache.Resp.{serialize}
use blp_cache.Replica.Threads.Log.{
  writer_takes-IsQueued, all_quiet-IsQueued, thread_stores-IsQueued, IsQueued, thread_logs-length,
  thread_logs-room, HasRoom,
}
use blp_cache.Replica.Threads.{
  takes, writer_takes, all_quiet, Threads, ThreadReach, logs, stores, moved, unmoved, thread_logs,
  thread_stores, store_change,
}
use blp_cache.Replica.Stream.{changed, changed_all, Change, set_change, del_change, logged_change}
use blp_cache.Db.Refine.{AlwaysPuts, put-ok, remove-ok}
use blp_cache.Db.Cleaner.{AlwaysDeletes, impl_remove-lem}
use blp_cache.Db.Values.{impl_get-impl_put, impl_get-put, impl_get-remove, impl_get-log_command}
use blp_cache.Db.{
  impl_put, impl_remove, impl_get, log_command, Storage, LevelDb, IsLevelDb, forever_suffix,
}
use blp_cache.Aof.{Aof}
use blp_cache.Prelude.{
  All, Bool-cases, Bytes, List, Option, [], ap, arith, false, if◌then◌else◌, inl, inr, length, map,
  none, refl, same, same→eq, some, subst, suc, sym, true, ◌++◌, ◌∙◌, ◌∷◌, ◌≡◌,
}

abbrev pub key_of : Change → Bytes
key_of (set_change key value) = key
key_of (del_change key) = key

-- What a change makes of what is stored under the keys.
abbrev effect : Change → (Bytes → Option Bytes) → Bytes → Option Bytes
effect (set_change key value) f j = if same key j then some (value ++ forever_suffix) else f j
effect (del_change key) f j = if same key j then none else f j

abbrev effects : List Change → (Bytes → Option Bytes) → Bytes → Option Bytes
effects [] f = f
effects (c ∷ cs) f = effects cs (effect c f)

-- The change is the oldest pending one of its key.
abbrev pub IsOldest : Change → List Change → Type 0
IsOldest c before = All (λ (d : Change). same (key_of d) (key_of c) ≡ false) before

-- Any pending change.
abbrev pub IsAny : Change → List Change → Type 0
IsAny c before = Unit

effect-cong :
    (c : Change) (f g : Bytes → Option Bytes)
    → ((j : Bytes) → f j ≡ g j)
    → (j : Bytes) → effect c f j ≡ effect c g j
effect-cong (set_change key value) f g h j =
    ap (λ (o : Option Bytes). if same key j then some (value ++ forever_suffix) else o) (h j)
effect-cong (del_change key) f g h j =
    ap (λ (o : Option Bytes). if same key j then none else o) (h j)

effects-cong :
    (cs : List Change) (f g : Bytes → Option Bytes)
    → ((j : Bytes) → f j ≡ g j)
    → (j : Bytes) → effects cs f j ≡ effects cs g j
effects-cong [] f g h j = h j
effects-cong (c ∷ cs) f g h j = effects-cong cs (effect c f) (effect c g) (effect-cong c f g h) j

effects-append :
    (cs ds : List Change) (f : Bytes → Option Bytes) (j : Bytes)
    → effects (cs ++ ds) f j ≡ effects ds (effects cs f) j
effects-append [] ds f j = refl
effects-append (c ∷ cs) ds f j = effects-append cs ds (effect c f) j

-- What a change puts under its own key.
abbrev result_of : Change → Option Bytes
result_of (set_change key value) = some (value ++ forever_suffix)
result_of (del_change key) = none

effect_lem :
    (c : Change) (f : Bytes → Option Bytes) (j : Bytes)
    → effect c f j ≡ (if same (key_of c) j then result_of c else f j)
effect_lem (set_change key value) f j = refl
effect_lem (del_change key) f j = refl

-- Changes of two keys commute.
effect_comm :
    (c d : Change) (f : Bytes → Option Bytes)
    → same (key_of d) (key_of c) ≡ false
    → (j : Bytes) → effect c (effect d f) j ≡ effect d (effect c f) j
effect_comm c d f ne j =
    effect_lem c (effect d f) j
    ∙ ap (λ (o : Option Bytes). if same (key_of c) j then result_of c else o) (effect_lem d f j)
    ∙ either
    ∙ sym (
        effect_lem d (effect c f) j
        ∙ ap (λ (o : Option Bytes). if same (key_of d) j then result_of d else o)
            (effect_lem c f j))
  where
    both : same (key_of c) j ≡ true → same (key_of d) j ≡ true → ⊥
    both e g = never (
        sym (subst (λ (k : Bytes). same (key_of d) k ≡ true) (sym (same→eq (key_of c) j e)) g) ∙ ne)
      where
        never : true ≡ false → ⊥
        never h = cc

    either :
        (if same (key_of c) j then result_of c else if same (key_of d) j then result_of d else f j)
        ≡ (if same (key_of d) j
            then result_of d
            else if same (key_of c) j
            then result_of c
            else f j)
    either = elim (Bool-cases (same (key_of c) j)) [
      | inr e ↦ rw e refl
      | inl e ↦ elim (Bool-cases (same (key_of d) j)) [
        | inl g ↦ absurd (both e g)
        | inr g ↦ rw (e, g) refl
      ]
    ]

effects-oldest :
    (c : Change) (before behind : List Change) (f : Bytes → Option Bytes) (j : Bytes)
    → IsOldest c before
    → effects (before ++ (c ∷ behind)) f j ≡ effects (before ++ behind) (effect c f) j
effects-oldest c [] behind f j h = refl
effects-oldest c (d ∷ before) behind f j (ne, h) =
    effects-oldest c before behind (effect d f) j h
    ∙ effects-cong (before ++ behind) (effect c (effect d f)) (effect d (effect c f))
        (effect_comm c d f ne) j

module _ {l : LevelDb} (law : IsLevelDb l) (puts : AlwaysPuts l) (deletes : AlwaysDeletes l)
    (wake : Aof → Aof) where
  pub impl_get-store_change :
      (c : Change) (s : Storage l) (j : Bytes)
      → s.is_open ≡ true
      → (impl_get (store_change c s) j ≡ effect c (impl_get s) j)
        × ((store_change c s).is_open ≡ true)
  unfolding store_change
  impl_get-store_change (set_change key value) s j o = (
    impl_get-impl_put law s key (value ++ forever_suffix) j
        (unfold impl_put in rw o (puts.puts _ key _)),
    (unfold impl_put in rw o refl),
  )
  impl_get-store_change (del_change key) s j o =
      (impl_remove-lem law deletes s key j, (unfold impl_remove in rw o refl))

  -- Behind the pending changes, stored in the order of the log, each key holds what the log says; and the
  -- log has queued a record for each accepted change.
  record IsOrdered (begin : Storage l) (s : Threads l) : Type 0 where
    opened : s.storage.is_open ≡ true
    ordered :
        (j : Bytes) → effects s.pending (impl_get s.storage) j ≡ effects s.logged (impl_get begin) j
    queued : IsQueued begin.aof s

  thread_logs-IsOrdered :
      (begin : Storage l) (c : Change) (s : Threads l)
      → HasRoom begin.aof (suc (length s.logged))
      → IsOrdered begin s
      → IsOrdered begin (thread_logs wake c s)
  unfolding thread_logs
  thread_logs-IsOrdered begin c s h v =
      let (accepted, queued) = thread_logs-room wake begin.aof c s h v.queued in
      record {
        opened = unfold log_command in v.opened;
        ordered = λ j.
            effects-append s.pending (c ∷ []) _ j
            ∙ effect-cong c _ _
                (λ k.
                  effects-cong s.pending _ _ (impl_get-log_command wake s.storage (logged_change c))
                    k
                  ∙ v.ordered k)
                j
            ∙ sym (effects-append s.logged (c ∷ []) (impl_get begin) j)
            ∙ ap (λ (cs : List Change). effects cs (impl_get begin) j) (sym accepted);
        queued = queued;
      }

  thread_stores-IsOrdered :
      (begin : Storage l) (c : Change) (before behind : List Change) (s : Threads l)
      → s.pending ≡ before ++ (c ∷ behind)
      → IsOldest c before
      → IsOrdered begin s
      → IsOrdered begin (thread_stores wake c (before ++ behind) s)
  unfolding thread_stores
  thread_stores-IsOrdered begin c before behind s e oldest v = record {
    opened = (impl_get-store_change c s.storage (key_of c) v.opened).1;
    ordered = λ j.
        effects-cong (before ++ behind) _ _ (λ k. (impl_get-store_change c s.storage k v.opened).0)
          j
        ∙ sym (effects-oldest c before behind (impl_get s.storage) j oldest)
        ∙ ap (λ (p : List Change). effects p (impl_get s.storage) j) (sym e)
        ∙ v.ordered j;
    queued = thread_stores-IsQueued wake begin.aof c (before ++ behind) s v.queued;
  }

  writer_takes-IsOrdered :
      (begin : Storage l) (s : Threads l) → IsOrdered begin s → IsOrdered begin (writer_takes s)
  writer_takes-IsOrdered begin s v = record {
    opened = unfold writer_takes in v.opened;
    ordered = unfold writer_takes impl_get in v.ordered;
    queued = writer_takes-IsQueued begin.aof s v.queued;
  }

  ThreadReach-IsOrdered :
      (begin : Storage l) {s t : Threads l}
      → IsOrdered begin s
      → HasRoom begin.aof (suc (length t.logged))
      → ThreadReach wake IsOldest s t
      → IsOrdered begin t
  ThreadReach-IsOrdered begin v h unmoved = v
  ThreadReach-IsOrdered begin {t = t} v h (moved {t = u} r (logs c e)) =
      let before : HasRoom begin.aof (suc (length u.logged)) = record {
        open_log = h.open_log;
        room =
            omega (
              arith,
              h.room,
              thread_logs-length wake c u,
              ap (λ (x : Threads l). length x.logged) e,
            );
      } in
      rw e (thread_logs-IsOrdered begin c u before (ThreadReach-IsOrdered begin v before r))
  ThreadReach-IsOrdered begin v h (moved {t = u} r (stores c before behind p oldest e)) =
      let same_logged : HasRoom begin.aof (suc (length u.logged)) =
        subst (λ (cs : List Change). HasRoom begin.aof (suc (length cs)))
          (ap (λ (x : Threads l). x.logged) e ∙ (unfold thread_stores in refl)) h in
      rw e (
        thread_stores-IsOrdered begin c before behind u p oldest
          (ThreadReach-IsOrdered begin v same_logged r))
  ThreadReach-IsOrdered begin v h (moved {t = u} r (takes e)) =
      let same_logged : HasRoom begin.aof (suc (length u.logged)) =
        subst (λ (cs : List Change). HasRoom begin.aof (suc (length cs)))
          (ap (λ (x : Threads l). x.logged) e ∙ (unfold writer_takes in refl)) h in
      rw e (writer_takes-IsOrdered begin u (ThreadReach-IsOrdered begin v same_logged r))

  changed_all-effects :
      (other : Aof → Aof) (cs : List Change) (s : Storage l) (j : Bytes)
      → s.is_open ≡ true
      → impl_get (changed_all other s cs) j ≡ effects cs (impl_get s) j
  changed_all-effects other [] s j o = refl
  changed_all-effects other (c ∷ cs) s j o =
      changed_all-effects other cs (changed other s c) j (changed-opened c)
      ∙ effects-cong cs _ _ (changed-effect c) j
    where
      changed-opened : (c : Change) → (changed other s c).is_open ≡ true
      changed-opened (set_change key value) = (put-ok law puts deletes other s key value o).1
      changed-opened (del_change key) = (remove-ok law puts deletes other s key o).1

      changed-effect :
          (c : Change) (k : Bytes) → impl_get (changed other s c) k ≡ effect c (impl_get s) k
      changed-effect (set_change key value) k =
          impl_get-put law other s key value k (put-ok law puts deletes other s key value o).0
      changed-effect (del_change key) k =
          impl_get-remove law other s key k (remove-ok law puts deletes other s key o).0

  -- Any threads put and remove any keys at once, where each stores the oldest change of its key that is
  -- pending, and the writer takes batches at any time, while the log is not stopped and has room for more
  -- than all that it accepts: what the writer took and what is queued are together what was queued at the
  -- start and behind it a record for each accepted change, in order; and when no change is pending, the
  -- storage holds under every key what another storage that held the same at the start, such as a
  -- replica's, holds behind the changes of these records, one after the other. Both databases are open and
  -- their writes succeed.
  pub threads_in_order :
      (other : Aof → Aof) (begin replica : Storage l) (t : Threads l) (j : Bytes)
      → begin.is_open ≡ true
      → replica.is_open ≡ true
      → ((k : Bytes) → impl_get replica k ≡ impl_get begin k)
      → HasRoom begin.aof (suc (length t.logged))
      → ThreadReach wake IsOldest (all_quiet begin) t
      → t.pending ≡ []
      → (t.taken ++ t.storage.aof.queue
          ≡ begin.aof.queue ++ map serialize (map logged_change t.logged))
        × (impl_get t.storage j ≡ impl_get (changed_all other replica t.logged) j)
  threads_in_order other begin replica t j o p same_start room r quiet =
      let v =
        ThreadReach-IsOrdered begin
          (record { opened = o; ordered = λ k. refl; queued = all_quiet-IsQueued begin }) room r in
      (
        v.queued.payloads,
        ap (λ (cs : List Change). effects cs (impl_get t.storage) j) (sym quiet)
            ∙ v.ordered j
            ∙ sym (effects-cong t.logged (impl_get replica) (impl_get begin) same_start j)
            ∙ sym (changed_all-effects other t.logged replica j p),
      )
