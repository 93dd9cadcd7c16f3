-- ===== src/Db/Clients/Reads.antt =====
-- Threads inside `get` at once: what they do to a key that no thread writes.
use blp_cache.Aof.{Aof}
use blp_cache.Db.Refine.{put-ok, remove-ok, AlwaysPuts}
use blp_cache.Decimal.{to_string, stoull}
use blp_cache.Db.Values.{impl_get-put, impl_get-remove, split-nonempty, loaded-some}
use blp_cache.Db.Cleaner.{
  clean_entry-impl_get, impl_remove-lem, clean_entry-is_open, clean_entry-cases, AlwaysDeletes,
  seen-none, seen, IsCurrent, visible-seen, visible,
}
use blp_cache.Db.{
  tab, actual_value, put, remove, split_tab, IsLevelDb, clean_until, clean_entry, get_until,
  impl_get, get_split, loaded, Storage, LevelDb,
}
use blp_cache.Db.Clients.{
  happen_all, happen, set_thread, begin_call, expire_loaded, Clients, finish_call, removes_key,
  puts_value, expiring, getting, ends, starts_expire, get_loaded, starts_get, Pending, Event,
}
use mathlib.Core.Option.{get_or}
use blp_cache.Prelude.{
  All, Bool-cases, Bytes, List, Option, Option-cases, [], ap, arith, false, inl, inr, length, none,
  refl, same, same→eq, some, subst, sym, true, ℕ, ◌%◌, ◌++◌, ◌+◌, ◌==◌, ◌^◌, ◌∙◌, ◌∷◌, ◌≡◌, ◌≤◌,
  ◌⊎◌,
}

-- An event that writes other keys only, at a time up to `now`.
abbrev pub Leaves : ℕ → Bytes → Event → Type 0
Leaves now j (starts_get thread k) = Unit
Leaves now j (starts_expire thread k ts) = same k j ≡ false
Leaves now j (ends thread time) = time ≤ now
Leaves now j (puts_value k v) = same k j ≡ false
Leaves now j (removes_key k) = same k j ≡ false

module _ {l : LevelDb} where
  -- What is stored under a key is as before, or it is gone and was not seen before.
  abbrev Kept : ℕ → Bytes → Storage l → Storage l → Type 0
  Kept now j s t =
      (impl_get t j ≡ impl_get s j) ⊎ ((impl_get t j ≡ none) × (seen now (impl_get s j) ≡ none))

  Kept-visible :
      (now : ℕ) (j : Bytes) (s t : Storage l) → Kept now j s t → visible now t j ≡ visible now s j
  Kept-visible now j s t (inl e) =
      visible-seen now t j ∙ ap (seen now) e ∙ sym (visible-seen now s j)
  Kept-visible now j s t (inr (gone, unseen)) =
      visible-seen now t j
      ∙ ap (seen now) gone
      ∙ seen-none now
      ∙ sym unseen
      ∙ sym (visible-seen now s j)

  -- What a thread has read of a key that is not written is what is stored, or the key has gone since.
  abbrev Fresh : Bytes → Storage l → Pending → Type 0
  Fresh j s (getting k whole) = (same k j ≡ false) ⊎ ((whole ≡ []) ⊎ IsCurrent s j whole)
  Fresh j s (expiring k value ts) = same k j ≡ false

  Fresh-Kept :
      (now : ℕ) (j : Bytes) (s t : Storage l) (p : Pending)
      → Kept now j s t
      → Fresh j s p
      → Fresh j t p
  Fresh-Kept now j s t (expiring k value ts) h f = f
  Fresh-Kept now j s t (getting k whole) h (inl f) = inl f
  Fresh-Kept now j s t (getting k whole) h (inr (inl f)) = inr (inl f)
  Fresh-Kept now j s t (getting k whole) (inr (gone, _)) (inr (inr f)) = inr (inr (inr gone))
  Fresh-Kept now j s t (getting k whole) (inl e) (inr (inr (inl f))) = inr (inr (inl (e ∙ f)))
  Fresh-Kept now j s t (getting k whole) (inl e) (inr (inr (inr f))) = inr (inr (inr (e ∙ f)))

  loaded-Fresh : (j k : Bytes) (s : Storage l) → Fresh j s (getting k (loaded s k []))
  unfolding loaded
  loaded-Fresh j k s = elim (Bool-cases (same k j)) [
    | inr d ↦ inl d
    | inl d ↦ elim (Option-cases (impl_get s k)) [
      | inl e ↦ inr (inl (rw e refl))
      | inr (v, e) ↦ inr (
          inr (
            inl
              (ap (impl_get s) (sym (same→eq k j d)) ∙ e ∙ ap some (sym (loaded-some s k [] v e)))))
    ]
  ]

  -- `get` behind the read does to the storage what the cleaner does with the same value.
  get_loaded-clean_entry :
      (now : ℕ) (s : Storage l) (k whole : Bytes)
      → (get_loaded now s k whole).2 ≡ clean_entry now s k whole
  unfolding get_loaded get_split get_until clean_entry clean_until
  get_loaded-clean_entry now s k whole = elim (Option-cases (split_tab whole)) [
    | inl p ↦ rw (p, get_loaded, clean_entry) (ground arith)
    | inr ((a, r), p) ↦ elim (Option-cases (stoull r)) [
      | inl q ↦ rw (split-nonempty whole a r p, p, get_loaded, clean_entry, q) refl
      | inr (t, q) ↦ rw (split-nonempty whole a r p, p, get_loaded, clean_entry, q) (ground arith)
    ]
  ]

module _ {l : LevelDb} (law : IsLevelDb l) (puts : AlwaysPuts l) (deletes : AlwaysDeletes l)
    (wake : Aof → Aof) where
  put-Kept :
      (now : ℕ) (s : Storage l) (k v j : Bytes)
      → s.is_open ≡ true
      → same k j ≡ false
      → Kept now j s (put wake s k v).1 × ((put wake s k v).1.is_open ≡ true)
  put-Kept now s k v j o other =
      let (ok, open_still) = put-ok law puts deletes wake s k v o in
      (inl (impl_get-put law wake s k v j ok ∙ (rw other refl)), open_still)

  remove-Kept :
      (now : ℕ) (s : Storage l) (k j : Bytes)
      → s.is_open ≡ true
      → same k j ≡ false
      → Kept now j s (remove wake s k).1 × ((remove wake s k).1.is_open ≡ true)
  remove-Kept now s k j o other =
      let (ok, open_still) = remove-ok law puts deletes wake s k o in
      (inl (impl_get-remove law wake s k j ok ∙ (rw other refl)), open_still)

  clean_entry-other :
      (t : ℕ) (s : Storage l) (k whole j : Bytes)
      → same k j ≡ false
      → impl_get (clean_entry t s k whole) j ≡ impl_get s j
  clean_entry-other t s k whole j other = elim (clean_entry-cases t s k whole) [
    | inl e ↦ ap (λ (s' : Storage l). impl_get s' j) e
    | inr (a, r, x, p, q, n, g, e) ↦
        ap (λ (s' : Storage l). impl_get s' j) e
        ∙ impl_remove-lem law deletes s k j
        ∙ (rw other refl)
  ]

  clean_entry-Kept :
      (now t : ℕ) (s : Storage l) (k whole j : Bytes)
      → t ≤ now
      → Fresh j s (getting k whole)
      → Kept now j s (clean_entry t s k whole)
  clean_entry-Kept now t s k whole j late (inl other) = inl (clean_entry-other t s k whole j other)
  clean_entry-Kept now t s k whole j late (inr (inl e)) =
      inl (rw e (unfold clean_entry split_tab in refl))
  clean_entry-Kept now t s k whole j late (inr (inr current)) = elim (Bool-cases (same k j)) [
    | inl d ↦
        clean_entry-impl_get law deletes now t s k whole j late
          (subst (λ (i : Bytes). IsCurrent s i whole) (sym (same→eq k j d)) current)
    | inr other ↦ inl (clean_entry-other t s k whole j other)
  ]

  -- Where a thread ends.
  finish_call-Kept :
      (now t : ℕ) (s : Storage l) (p : Option Pending) (j : Bytes)
      → s.is_open ≡ true
      → t ≤ now
      → ((q : Pending) → p ≡ some q → Fresh j s q)
      → Kept now j s (finish_call wake t s p) × ((finish_call wake t s p).is_open ≡ true)
  unfolding finish_call expire_loaded
  finish_call-Kept now t s none j o late f = (inl refl, o)
  finish_call-Kept now t s (some (getting k whole)) j o late f = (
    subst (Kept now j s) (sym (get_loaded-clean_entry t s k whole))
        (clean_entry-Kept now t s k whole j late (f (getting k whole) refl)),
    ap (λ (s' : Storage l). s'.is_open) (get_loaded-clean_entry t s k whole)
        ∙ clean_entry-is_open t s k whole
        ∙ o,
  )
  finish_call-Kept now t s (some (expiring k value ts)) j o late f =
      elim (Bool-cases (length value == 0)) [
        | inl e ↦
            subst (λ (s' : Storage l). Kept now j s s' × (s'.is_open ≡ true))
              (rw (e, finish_call, expire_loaded) refl) (inl refl, o)
        | inr e ↦
            subst (λ (s' : Storage l). Kept now j s s' × (s'.is_open ≡ true))
              (rw (e, finish_call, expire_loaded) refl)
              (put-Kept now s k (actual_value value ++ (tab ∷ to_string ((t + ts) % 2 ^ 64))) j o
                (f (expiring k value ts) refl))
      ]

  -- What holds of the threads while a key is not written.
  record IsFresh (j : Bytes) (c : Clients l) : Type 0 where
    opened : c.storage.is_open ≡ true
    fresh : (thread : ℕ) (p : Pending) → c.pending thread ≡ some p → Fresh j c.storage p

  begin_call-cases :
      (c : Clients l) (thread : ℕ) (p : Pending)
      → (begin_call c thread p ≡ c)
        ⊎ (begin_call c thread p ≡ record c { pending = set_thread thread (some p) c.pending })
  unfolding begin_call
  begin_call-cases c thread p = elim (Option-cases (c.pending thread)) [
    | inl e ↦ inr (rw (e, begin_call) refl)
    | inr (q, e) ↦ inl (rw (e, begin_call) refl)
  ]

  -- A thread begins or ends, and the storage becomes one that keeps the key.
  set_thread-IsFresh :
      (now : ℕ) (j : Bytes) (c : Clients l) (s : Storage l) (thread : ℕ) (o : Option Pending)
      → IsFresh j c
      → s.is_open ≡ true
      → Kept now j c.storage s
      → ((p : Pending) → o ≡ some p → Fresh j s p)
      → IsFresh j (record { storage = s; pending = set_thread thread o c.pending })
  unfolding set_thread
  set_thread-IsFresh now j c s thread o h opened kept f = record {
    opened = opened;
    fresh = λ i q found. elim (Bool-cases (i == thread)) [
      | inl g ↦ f q (sym (rw g refl) ∙ found)
      | inr g ↦ Fresh-Kept now j c.storage s q kept (h.fresh i q (sym (rw g refl) ∙ found))
    ];
  }

  IsFresh-Kept :
      (now : ℕ) (j : Bytes) (c : Clients l) (s : Storage l)
      → IsFresh j c
      → Kept now j c.storage s × (s.is_open ≡ true)
      → IsFresh j (record c { storage = s }) × Kept now j c.storage s
  IsFresh-Kept now j c s h (kept, opened) = (
    record {
      opened = opened;
      fresh = λ i q found. Fresh-Kept now j c.storage s q kept (h.fresh i q found);
    },
    kept,
  )

  begin_call-IsFresh :
      (now : ℕ) (j : Bytes) (c : Clients l) (thread : ℕ) (p : Pending)
      → IsFresh j c
      → Fresh j c.storage p
      → IsFresh j (begin_call c thread p) × Kept now j c.storage (begin_call c thread p).storage
  begin_call-IsFresh now j c thread p h f = elim (begin_call-cases c thread p) [
    | inl e ↦
        subst (λ (d : Clients l). IsFresh j d × Kept now j c.storage d.storage) (sym e)
          (h, inl refl)
    | inr e ↦
        subst (λ (d : Clients l). IsFresh j d × Kept now j c.storage d.storage) (sym e)
          (
            set_thread-IsFresh now j c c.storage thread (some p) h h.opened (inl refl)
                (λ q g. subst (Fresh j c.storage) (ap (λ (o : Option Pending). get_or o p) g) f),
            inl refl,
          )
  ]

  happen-IsFresh :
      (now : ℕ) (j : Bytes) (c : Clients l) (e : Event)
      → IsFresh j c
      → Leaves now j e
      → IsFresh j (happen wake c e) × Kept now j c.storage (happen wake c e).storage
  unfolding happen
  happen-IsFresh now j c (starts_get thread k) h leaves =
      begin_call-IsFresh now j c thread _ h (loaded-Fresh j k c.storage)
  happen-IsFresh now j c (starts_expire thread k ts) h leaves =
      begin_call-IsFresh now j c thread _ h leaves
  happen-IsFresh now j c (ends thread time) h leaves =
      let (kept, opened) =
        finish_call-Kept now time c.storage (c.pending thread) j h.opened leaves (h.fresh thread) in
      (set_thread-IsFresh now j c _ thread none h opened kept (λ p g. absurd (cc)), kept)
  happen-IsFresh now j c (puts_value k v) h leaves =
      IsFresh-Kept now j c _ h (put-Kept now c.storage k v j h.opened leaves)
  happen-IsFresh now j c (removes_key k) h leaves =
      IsFresh-Kept now j c _ h (remove-Kept now c.storage k j h.opened leaves)

  happen_all-IsFresh :
      (now : ℕ) (j : Bytes) (c : Clients l) (events : List Event)
      → IsFresh j c
      → All (Leaves now j) events
      → visible now (happen_all wake c events).storage j ≡ visible now c.storage j
  unfolding happen_all
  happen_all-IsFresh now j c [] h leaves = refl
  happen_all-IsFresh now j c (e ∷ events) h (leaf, leaves) =
      let (fresh, kept) = happen-IsFresh now j c e h leaf in
      happen_all-IsFresh now j (happen wake c e) events fresh leaves ∙ Kept-visible now j _ _ kept

  -- Threads in `get` and `expire` at once, in any interleaving with puts and removes, change nothing that
  -- clients see of a key that none of them writes: neither a put nor a remove of it, nor an `expire`. The
  -- database is open, its writes succeed, no thread is under way at first, and `now` is not before any time
  -- that a thread reads from the clock.
  pub happen_all-visible :
      (now : ℕ) (j : Bytes) (s : Storage l) (events : List Event)
      → s.is_open ≡ true
      → All (Leaves now j) events
      → visible now (happen_all wake (record { storage = s; pending = λ i. none }) events).storage j
        ≡ visible now s j
  happen_all-visible now j s events opened leaves =
      happen_all-IsFresh now j (record { storage = s; pending = λ i. none }) events
        (record { opened = opened; fresh = λ i p g. absurd (cc) }) leaves
