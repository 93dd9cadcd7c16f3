-- ===== src/Db/Iterator/Sweep.antt =====
-- What a round of the cleaner removes, and what clients see of it.
use blp_cache.Decimal.{stoull}
use blp_cache.Db.Cleaner.{
  visible-clean, visible, impl_remove-lem, clean_entry-cases, AreCurrent, AlwaysDeletes,
}
use blp_cache.Db.{
  clean_until, get_or, impl_remove, never, clean_entry, split_tab, impl_get, Storage, clean,
  IsLevelDb, LevelDb,
}
use blp_cache.Db.Iterator.{new_iterator, with_times, Iterates, cleaner_round, find_value}
use blp_cache.Prelude.{
  All, Bool, Bool-cases, Bytes, List, Option, [], ap, arith, false, if◌then◌else◌, inl, inr, le→leb,
  none, refl, same, same_refl, same→eq, some, subst, suc, sym, true, ℕ, ◌==◌, ◌∙◌, ◌∷◌, ◌≡◌, ◌≤◌,
}

module _ {l : LevelDb} (law : IsLevelDb l) (deletes : AlwaysDeletes l) where
  clean_entry-gone :
      (t : ℕ) (s : Storage l) (key value k : Bytes)
      → impl_get s k ≡ none
      → impl_get (clean_entry t s key value) k ≡ none
  clean_entry-gone t s key value k h = elim (clean_entry-cases t s key value) [
    | inl e ↦ ap (λ (s' : Storage l). impl_get s' k) e ∙ h
    | inr (a, r, x, p, q, n, g, e) ↦
        ap (λ (s' : Storage l). impl_get s' k) e
        ∙ impl_remove-lem law deletes s key k
        ∙ (rw h (ground arith))
  ]

  clean-gone :
      (clock : ℕ → ℕ) (s : Storage l) (entries : List (Bytes × Bytes)) (k : Bytes)
      → impl_get s k ≡ none
      → impl_get (clean s (with_times clock entries)) k ≡ none
  unfolding clean with_times
  clean-gone clock s [] k h = h
  clean-gone clock s ((key, value) ∷ entries) k h =
      clean-gone (λ n. clock (suc n)) (clean_entry (clock 0) s key value) entries k
        (clean_entry-gone (clock 0) s key value k h)

  -- The entry of a key whose time has come.
  clean_entry-expired :
      (t e : ℕ) (s : Storage l) (k v a r : Bytes)
      → split_tab v ≡ some (a, r)
      → stoull r ≡ some e
      → (e == never) ≡ false
      → e ≤ t
      → impl_get (clean_entry t s k v) k ≡ none
  unfolding clean_entry clean_until
  clean_entry-expired t e s k v a r p q n over =
      ap (λ (s' : Storage l). impl_get s' k) removed
      ∙ impl_remove-lem law deletes s k k
      ∙ (rw (same_refl k) refl)
    where
      removed : clean_entry t s k v ≡ (impl_remove s k).1
      removed = rw (clean_entry, p, clean_until, q, n, le→leb e t over) refl

  clean-expired :
      (clock : ℕ → ℕ) (e : ℕ) (s : Storage l) (entries : List (Bytes × Bytes)) (k v a r : Bytes)
      → find_value k entries ≡ some v
      → split_tab v ≡ some (a, r)
      → stoull r ≡ some e
      → (e == never) ≡ false
      → ((n : ℕ) → e ≤ clock n)
      → impl_get (clean s (with_times clock entries)) k ≡ none
  unfolding clean with_times
  clean-expired clock e s [] k v a r f p q n over = absurd (cc)
  clean-expired clock e s ((key, value) ∷ entries) k v a r f p q n over =
      elim (Bool-cases (same key k)) [
        | inl d ↦
            let it : value ≡ v =
              ap (λ (o : Option Bytes). get_or o v)
                (sym (ap (λ (b : Bool). if b then some value else find_value k entries) d) ∙ f) in
            clean-gone (λ m. clock (suc m)) (clean_entry (clock 0) s key value) entries k
              (subst (λ (i : Bytes). impl_get (clean_entry (clock 0) s i value) k ≡ none)
                (sym (same→eq key k d))
                (subst (λ (w : Bytes). impl_get (clean_entry (clock 0) s k w) k ≡ none) (sym it)
                  (clean_entry-expired (clock 0) e s k v a r p q n (over 0))))
        | inr d ↦
            clean-expired (λ m. clock (suc m)) e (clean_entry (clock 0) s key value) entries k v a r
              (sym (ap (λ (b : Bool). if b then some value else find_value k entries) d) ∙ f) p q n
              (λ m. over (suc m))
      ]

  with_times-AreCurrent :
      (now : ℕ) (clock : ℕ → ℕ) (s : Storage l) (entries : List (Bytes × Bytes))
      → ((n : ℕ) → clock n ≤ now)
      → All (λ (e : Bytes × Bytes). impl_get s e.0 ≡ some e.1) entries
      → AreCurrent s now (with_times clock entries)
  unfolding with_times
  with_times-AreCurrent now clock s [] late h = tt
  with_times-AreCurrent now clock s ((k, v) ∷ entries) late (e, h) = (
    late 0,
    inl e,
    with_times-AreCurrent now (λ n. clock (suc n)) s entries (λ n. late (suc n)) h,
  )

  module _ (iterates : Iterates l) where
    -- A round of the cleaner over an open database, nothing else being under way: every key whose time had
    -- come when it began is gone behind it, whatever else is stored; and nothing that clients see of any key
    -- is changed. The clock stays between `start` and `now`, and deletions succeed.
    pub cleaner_round-swept :
        (start now : ℕ) (clock : ℕ → ℕ) (e : ℕ) (s : Storage l) (k v a r : Bytes)
        → s.is_open ≡ true
        → ((n : ℕ) → start ≤ clock n)
        → ((n : ℕ) → clock n ≤ now)
        → impl_get s k ≡ some v
        → split_tab v ≡ some (a, r)
        → stoull r ≡ some e
        → (e == never) ≡ false
        → e ≤ start
        → (impl_get (cleaner_round iterates clock s) k ≡ none)
          × ((j : Bytes) → visible now (cleaner_round iterates clock s) j ≡ visible now s j)
    unfolding cleaner_round new_iterator impl_get
    cleaner_round-swept start now clock e s k v a r o early late f p q n over =
        let entries = iterates.db_entries s.database in
        let found : l.db_get s.database k ≡ some v =
          sym (ap (λ (b : Bool). if b then l.db_get s.database k else none) o) ∙ f in
        let swept : cleaner_round iterates clock s ≡ clean s (with_times clock entries) =
          ap
            (λ (b : Bool). elim (if b then some entries else none) [
              | none ↦ s
              | some es ↦ clean s (with_times clock es)
            ])
            o in
        let first =
          clean-expired clock e s entries k v a r (iterates.entries_complete s.database k ∙ found) p
            q n (λ m. omega (arith, early m)) in
        (
          ap (λ (s' : Storage l). impl_get s' k) swept ∙ first,
          λ j.
              ap (λ (s' : Storage l). visible now s' j) swept
              ∙ visible-clean law deletes now s (with_times clock entries) j (
                  with_times-AreCurrent now clock s entries late (
                    subst
                      (λ (b : Bool).
                        All
                          (λ (x : Bytes × Bytes).
                            (if b then l.db_get s.database x.0 else none) ≡ some x.1)
                          entries)
                      (sym o) (iterates.entries_stored s.database))),
        )
