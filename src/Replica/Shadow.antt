-- ===== src/Replica/Shadow.antt =====
-- A replica's storage that was given the logged changes shows its clients what the master's shows, though
-- the master takes keys out whose time has come without a record in its log.
use blp_cache.Replica.Operations.{
  Operation, putting, removing, getting, expiring, cleaning, after, after_all, logs, logs_all,
  timed_text, get-clean_entry,
}
use blp_cache.Replica.Stream.{changed, changed_all, Change}
use blp_cache.Db.Refine.{AlwaysPuts, put-ok, remove-ok}
use blp_cache.Db.Cleaner.{
  clean_entry-is_open, AlwaysDeletes, IsCurrent, clean_entry-impl_get, seen, seen-none, visible,
  visible-seen,
}
use blp_cache.Db.Values.{loaded-some, get-missing, impl_get-put, impl_get-remove}
use blp_cache.Db.{
  put, remove, get, expire, clean_entry, loaded, impl_get, Storage, LevelDb, IsLevelDb,
  forever_suffix,
}
use blp_cache.Aof.{Aof}
use blp_cache.Prelude.{
  Bool, Bool-cases, Bytes, List, Option, Option-cases, [], ap, false, if◌then◌else◌, inl, inr,
  length, none, refl, same, some, subst, sym, true, ℕ, ◌++◌, ◌==◌, ◌∙◌, ◌∷◌, ◌≡◌, ◌≤◌, ◌⊎◌,
}

-- What the first holds the second holds too, and what only the second holds is not seen at the time `now`.
abbrev Covers : ℕ → Option Bytes → Option Bytes → Type 0
Covers now first second = (first ≡ second) ⊎ ((first ≡ none) × (seen now second ≡ none))

-- How the storages of master and replica stand.
pub record Shadows {l : LevelDb} (now : ℕ) (master replica : Storage l) : Type 0 where
  pub first_open : master.is_open ≡ true
  pub second_open : replica.is_open ≡ true
  pub covered : (j : Bytes) → Covers now (impl_get master j) (impl_get replica j)

Covers-if :
    (b : Bool) (now : ℕ) (o p q : Option Bytes)
    → Covers now p q
    → Covers now (if b then o else p) (if b then o else q)
Covers-if true now o p q h = inl refl
Covers-if false now o p q h = h

seen-Covers : (now : ℕ) (o p : Option Bytes) → Covers now o p → seen now p ≡ seen now o
seen-Covers now o p (inl e) = ap (seen now) (sym e)
seen-Covers now o p (inr (gone, unseen)) = unseen ∙ sym (seen-none now) ∙ ap (seen now) (sym gone)

-- A key that is taken out of the first, of which nothing is to be seen.
Covers-taken :
    (now : ℕ) (before taken second : Option Bytes)
    → (taken ≡ before) ⊎ ((taken ≡ none) × (seen now before ≡ none))
    → Covers now before second
    → Covers now taken second
Covers-taken now before taken second (inl e) h = rw e h
Covers-taken now before taken second (inr (gone, unseen)) h =
    inr (gone, seen-Covers now before second h ∙ unseen)

-- The time of an operation has not passed `now`, and the cleaner's entry is overtaken by nothing but removals.
abbrev pub IsTimely : {l : LevelDb} → ℕ → Storage l → Operation → Type 0
IsTimely now s (putting key value) = Unit
IsTimely now s (removing key) = Unit
IsTimely now s (getting time key) = time ≤ now
IsTimely now s (expiring time key seconds) = Unit
IsTimely now s (cleaning time key value) = (time ≤ now) × IsCurrent s key value

abbrev pub AreTimely : {l : LevelDb} → (Aof → Aof) → ℕ → Storage l → List Operation → Type 0
AreTimely wake now s [] = Unit
AreTimely wake now s (o ∷ os) = IsTimely now s o × AreTimely wake now (after wake s o) os

module _ {l : LevelDb} (law : IsLevelDb l) (puts : AlwaysPuts l) (deletes : AlwaysDeletes l)
    (wake other : Aof → Aof) (now : ℕ) where
  put-Shadows :
      (m r : Storage l) (k v : Bytes)
      → Shadows now m r
      → Shadows now (put wake m k v).1 (put other r k v).1
  put-Shadows m r k v h =
      let (ok, opened) = put-ok law puts deletes wake m k v h.first_open in
      let (ok', opened') = put-ok law puts deletes other r k v h.second_open in
      record {
        first_open = opened;
        second_open = opened';
        covered = λ j.
            rw (impl_get-put law wake m k v j ok, impl_get-put law other r k v j ok')
              (Covers-if (same k j) now (some (v ++ forever_suffix)) (impl_get m j) (impl_get r j)
                (h.covered j));
      }

  remove-Shadows :
      (m r : Storage l) (k : Bytes)
      → Shadows now m r
      → Shadows now (remove wake m k).1 (remove other r k).1
  remove-Shadows m r k h =
      let (ok, opened) = remove-ok law puts deletes wake m k h.first_open in
      let (ok', opened') = remove-ok law puts deletes other r k h.second_open in
      record {
        first_open = opened;
        second_open = opened';
        covered = λ j.
            rw (impl_get-remove law wake m k j ok, impl_get-remove law other r k j ok')
              (Covers-if (same k j) now none (impl_get m j) (impl_get r j) (h.covered j));
      }

  clean_entry-Shadows :
      (time : ℕ) (m r : Storage l) (k v : Bytes)
      → time ≤ now
      → IsCurrent m k v
      → Shadows now m r
      → Shadows now (clean_entry time m k v) r
  clean_entry-Shadows time m r k v late current h = record {
    first_open = clean_entry-is_open time m k v ∙ h.first_open;
    second_open = h.second_open;
    covered = λ j.
        Covers-taken now (impl_get m j) (impl_get (clean_entry time m k v) j) (impl_get r j)
          (clean_entry-impl_get law deletes now time m k v j late current) (h.covered j);
  }

  get-Shadows :
      (time : ℕ) (m r : Storage l) (k : Bytes)
      → time ≤ now
      → Shadows now m r
      → Shadows now (get time m k []).2 r
  get-Shadows time m r k late h = elim (Option-cases (impl_get m k)) [
    | inl e ↦ rw (get-missing time m k e) h
    | inr (v, e) ↦
        let whole = get-clean_entry time m k ∙ ap (clean_entry time m k) (loaded-some m k [] v e) in
        rw whole (clean_entry-Shadows time m r k v late (inl e) h)
  ]

  expire-Shadows :
      (time seconds : ℕ) (m r : Storage l) (k : Bytes)
      → Shadows now m r
      → Shadows now
          (expire wake time m k seconds).1
          (changed_all other r (logs m (expiring time k seconds)))
  unfolding expire
  expire-Shadows time seconds m r k h = elim (Bool-cases (length (loaded m k []) == 0)) [
    | inl e ↦ rw (e, expire) h
    | inr e ↦ rw (e, expire) (put-Shadows m r k (timed_text (loaded m k []) time seconds) h)
  ]

  after-Shadows :
      (m r : Storage l) (o : Operation)
      → IsTimely now m o
      → Shadows now m r
      → Shadows now (after wake m o) (changed_all other r (logs m o))
  after-Shadows m r (putting key value) t h = put-Shadows m r key value h
  after-Shadows m r (removing key) t h = remove-Shadows m r key h
  after-Shadows m r (getting time key) t h = get-Shadows time m r key t h
  after-Shadows m r (expiring time key seconds) t h = expire-Shadows time seconds m r key h
  after-Shadows m r (cleaning time key value) (t, current) h =
      clean_entry-Shadows time m r key value t current h

  changed_all-append :
      (cs ds : List Change) (r : Storage l)
      → changed_all other r (cs ++ ds) ≡ changed_all other (changed_all other r cs) ds
  changed_all-append [] ds r = refl
  changed_all-append (c ∷ cs) ds r = changed_all-append cs ds (changed other r c)

  pub after_all-Shadows :
      (os : List Operation) (m r : Storage l)
      → AreTimely wake now m os
      → Shadows now m r
      → Shadows now (after_all wake m os) (changed_all other r (logs_all wake m os))
  after_all-Shadows [] m r t h = h
  after_all-Shadows (o ∷ os) m r (t, ts) h =
      subst (λ (x : Storage l). Shadows now (after_all wake (after wake m o) os) x)
        (sym (changed_all-append (logs m o) (logs_all wake (after wake m o) os) r))
        (after_all-Shadows os (after wake m o) (changed_all other r (logs m o)) ts
          (after-Shadows m r o t h))

  pub visible-Shadows :
      (m r : Storage l) (k : Bytes) → Shadows now m r → visible now r k ≡ visible now m k
  visible-Shadows m r k h =
      visible-seen now r k
      ∙ seen-Covers now (impl_get m k) (impl_get r k) (h.covered k)
      ∙ sym (visible-seen now m k)
