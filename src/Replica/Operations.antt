-- ===== src/Replica/Operations.antt =====
-- What a master does with its storage over time, and what of it goes into its log: a change for each `put`,
-- `remove` and successful `expire`, and nothing for a key whose time has come and that a `get` or the
-- cleaner takes out.
use mathlib.Core.List.{map-append}
use blp_cache.Resp.{serialize}
use blp_cache.Replica.CatchUp.{changed_all-aof, queued_all}
use blp_cache.Replica.Stream.{logged_change, changed_all, Change, set_change, del_change}
use blp_cache.Db.Cleaner.{clean_entry-cases}
use blp_cache.Aof.{Aof}
use blp_cache.Decimal.{stoull, to_string}
use blp_cache.Db.{
  split_tab, clean_until, get_until, get_split, put, remove, get, expire, clean_entry, loaded,
  actual_value, tab, impl_remove, Storage, LevelDb,
}
use blp_cache.Prelude.{
  Bool-cases, Bytes, List, Option, [], ap, append-nil, append_assoc, arith, false, if◌then◌else◌,
  inl, inr, length, length-append, length-map, map, none, refl, some, suc, sym, ℕ, ◌%◌, ◌++◌, ◌+◌,
  ◌==◌, ◌^◌, ◌∙◌, ◌∷◌, ◌≡◌, ◌≤◌,
}

queued_all-append :
    (a : Aof) (cs ds : List Change) → queued_all (queued_all a cs) ds ≡ queued_all a (cs ++ ds)
queued_all-append a cs ds =
    ap (λ (q : List Bytes). record a { queue = q })
      (append_assoc a.queue (map serialize (map logged_change cs))
          (map serialize (map logged_change ds))
        ∙ ap (λ (m : List Bytes). a.queue ++ m)
            (sym (
              ap (map serialize) (map-append logged_change cs ds)
              ∙ map-append serialize (map logged_change cs) (map logged_change ds))))

-- An operation, with the time that the clock gives in it where it asks for it; the last is the cleaner's at
-- an entry of its snapshot.
pub data Operation : Type 0 where
  putting : (key value : Bytes) → Operation
  removing : (key : Bytes) → Operation
  getting : (now : ℕ) (key : Bytes) → Operation
  expiring : (now : ℕ) (key : Bytes) (seconds : ℕ) → Operation
  cleaning : (now : ℕ) (key value : Bytes) → Operation

-- The text that `expire` puts.
abbrev pub timed_text : Bytes → ℕ → ℕ → Bytes
timed_text value now seconds = actual_value value ++ (tab ∷ to_string ((now + seconds) % 2 ^ 64))

module _ {l : LevelDb} where
  get_until-clean_until :
      (now : ℕ) (s : Storage l) (k w a : Bytes) (o : Option ℕ)
      → (get_until now s k w a o).2 ≡ clean_until now s k o
  unfolding get_until clean_until
  get_until-clean_until now s k w a none = refl
  get_until-clean_until now s k w a (some t) = ground arith

  get_split-clean :
      (now : ℕ) (s : Storage l) (k w : Bytes) (o : Option (Bytes × Bytes))
      → (get_split now s k w o).2
        ≡ elim o [ none ↦ s | some (a, r) ↦ clean_until now s k (stoull r) ]
  unfolding get_split
  get_split-clean now s k w none = refl
  get_split-clean now s k w (some (a, r)) = get_until-clean_until now s k w a (stoull r)

  get_whole-clean :
      (now : ℕ) (s : Storage l) (k w : Bytes)
      → (if length w == 0 then (false, w, s) else get_split now s k w (split_tab w)).2
        ≡ clean_entry now s k w
  unfolding clean_entry split_tab
  get_whole-clean now s k [] = refl
  get_whole-clean now s k (c ∷ w) =
      let nonempty : (suc (length w) == 0) ≡ false = ground arith in
      rw nonempty (get_split-clean now s k (c ∷ w) (split_tab (c ∷ w)))

  -- A `get` leaves the storage as the cleaner does at the value that is stored.
  pub get-clean_entry :
      (now : ℕ) (s : Storage l) (k : Bytes)
      → (get now s k []).2 ≡ clean_entry now s k (loaded s k [])
  unfolding get
  get-clean_entry now s k = get_whole-clean now s k (loaded s k [])

  -- The changes that an operation logs.
  abbrev pub logs : Storage l → Operation → List Change
  logs s (putting key value) = set_change key value ∷ []
  logs s (removing key) = del_change key ∷ []
  logs s (getting now key) = []
  logs s (expiring now key seconds) =
      if length (loaded s key []) == 0
      then []
      else set_change key (timed_text (loaded s key []) now seconds) ∷ []
  logs s (cleaning now key value) = []

  module _ (wake : Aof → Aof) where
    abbrev pub after : Storage l → Operation → Storage l
    after s (putting key value) = (put wake s key value).1
    after s (removing key) = (remove wake s key).1
    after s (getting now key) = (get now s key []).2
    after s (expiring now key seconds) = (expire wake now s key seconds).1
    after s (cleaning now key value) = clean_entry now s key value

    abbrev pub after_all : Storage l → List Operation → Storage l
    after_all s [] = s
    after_all s (o ∷ os) = after_all (after s o) os

    abbrev pub logs_all : Storage l → List Operation → List Change
    logs_all s [] = []
    logs_all s (o ∷ os) = logs s o ++ logs_all (after s o) os

    clean_entry-aof : (now : ℕ) (s : Storage l) (k v : Bytes) → (clean_entry now s k v).aof ≡ s.aof
    unfolding impl_remove
    clean_entry-aof now s k v = elim (clean_entry-cases now s k v) [
      | inl e ↦ ap (λ (x : Storage l). x.aof) e
      | inr (a, r, t, p, q, n, f, e) ↦ ap (λ (x : Storage l). x.aof) e ∙ (ground arith)
    ]

    expire-logs :
        (now : ℕ) (s : Storage l) (k : Bytes) (seconds : ℕ)
        → (expire wake now s k seconds).1 ≡ changed_all wake s (logs s (expiring now k seconds))
    unfolding expire
    expire-logs now s k seconds = elim (Bool-cases (length (loaded s k []) == 0)) [
      | inl e ↦ rw (e, expire) refl
      | inr e ↦ rw (e, expire) refl
    ]

    -- The log behind an operation is the log behind its changes.
    after-aof :
        (s : Storage l) (o : Operation) → (after s o).aof ≡ (changed_all wake s (logs s o)).aof
    after-aof s (putting key value) = refl
    after-aof s (removing key) = refl
    after-aof s (getting now key) =
        ap (λ (x : Storage l). x.aof) (get-clean_entry now s key)
        ∙ clean_entry-aof now s key (loaded s key [])
    after-aof s (expiring now key seconds) =
        ap (λ (x : Storage l). x.aof) (expire-logs now s key seconds)
    after-aof s (cleaning now key value) = clean_entry-aof now s key value

    -- The log behind some operations, for whose changes its queue has room.
    pub after_all-aof :
        (os : List Operation) (s : Storage l)
        → s.aof.stop_flag ≡ false
        → length s.aof.queue + length (logs_all s os) ≤ s.aof.opts.max_queue_entries
        → (after_all s os).aof ≡ queued_all s.aof (logs_all s os)
    after_all-aof [] s open_log room =
        ap (λ (q : List Bytes). record s.aof { queue = q }) (sym (append-nil s.aof.queue))
    after_all-aof (o ∷ os) s open_log room =
        let now = logs s o in
        let later = logs_all (after s o) os in
        let sizes = length-append now later in
        let logged = after-aof s o ∙ changed_all-aof wake now s open_log (omega arith) in
        let queue : (after s o).aof.queue ≡ s.aof.queue ++ map serialize (map logged_change now) =
          ap (λ (a : Aof). a.queue) logged in
        let opts : (after s o).aof.opts ≡ s.aof.opts = ap (λ (a : Aof). a.opts) logged in
        let flag : (after s o).aof.stop_flag ≡ false =
          ap (λ (a : Aof). a.stop_flag) logged ∙ open_log in
        let longer = length-append s.aof.queue (map serialize (map logged_change now)) in
        let same_length = length-map serialize (map logged_change now) in
        let same_length' = length-map logged_change now in
        let fits : length (after s o).aof.queue + length later
            ≤ (after s o).aof.opts.max_queue_entries =
          rw (queue, opts) (omega arith) in
        after_all-aof os (after s o) flag fits
        ∙ ap (λ (a : Aof). queued_all a later) logged
        ∙ queued_all-append s.aof now later
