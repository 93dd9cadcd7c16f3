-- ===== src/Db/Cleaner.antt =====
-- The cleaner thread: what a pass over a snapshot does to what clients see.
use blp_cache.Db.Split.{stoull-timed, split_tab-timed, timed, LacksTab}
use blp_cache.Aof.{Aof}
use blp_cache.Db.Values.{get-put, impl_get-impl_remove, split-nonempty}
use blp_cache.Decimal.{stoull}
use blp_cache.Db.{
  put, clean, clean_until, impl_remove, clean_entry, IsLevelDb, get_until, impl_get, get_split,
  Storage, loaded, LevelDb, split_tab, get, never,
}
use blp_cache.Prelude.{
  Bool, Bool-cases, Bytes, List, Option, Option-cases, [], ap, arith, false, if◌then◌else◌, inl,
  inr, leb, leb→le, length, le→leb, none, refl, same, same_refl, same→eq, some, sym, true, ℕ, ◌<◌,
  ◌==◌, ◌∙◌, ◌∷◌, ◌≡◌, ◌≤◌, ◌⊎◌,
}

-- What `get` shows a client that passes an empty string, as the command handler does.
abbrev pub visible : {l : LevelDb} → ℕ → Storage l → Bytes → Option Bytes
visible now s k = let (found, value, _) = get now s k [] in if found then some value else none

-- What a stored value means at a time, told from the value alone.
seen_until : ℕ → Bytes → Option ℕ → Option Bytes
seen_until now a none = none
seen_until now a (some t) = if t == never then some a else if leb t now then none else some a

seen_split : ℕ → Bytes → Option (Bytes × Bytes) → Option Bytes
seen_split now v none = some v
seen_split now v (some (a, r)) = seen_until now a (stoull r)

pub seen : ℕ → Option Bytes → Option Bytes
seen now none = none
seen now (some v) = if length v == 0 then none else seen_split now v (split_tab v)

pub seen-none : (now : ℕ) → seen now none ≡ none
unfolding seen
seen-none now = refl

pub visible-seen :
    {l : LevelDb} (now : ℕ) (s : Storage l) (k : Bytes) → visible now s k ≡ seen now (impl_get s k)
unfolding get loaded get_split get_until seen seen_split seen_until
visible-seen now s k = elim (Option-cases (impl_get s k)) [
  | inl e ↦ rw e refl
  | inr (v, e) ↦ rw e (ground arith)
]

-- Deleting a key never fails.
pub record AlwaysDeletes (l : LevelDb) : Type 0 where
  pub deletes : (d : l.Database) (k : Bytes) → (l.db_delete d k).0 ≡ true

-- An entry of a snapshot that nothing but removals has overtaken.
abbrev pub IsCurrent : {l : LevelDb} → Storage l → Bytes → Bytes → Type 0
IsCurrent s k v = (impl_get s k ≡ some v) ⊎ (impl_get s k ≡ none)

abbrev pub AreCurrent : {l : LevelDb} → Storage l → ℕ → List (ℕ × Bytes × Bytes) → Type 0
AreCurrent s now [] = Unit
AreCurrent s now ((t, k, v) ∷ entries) = (t ≤ now) × IsCurrent s k v × AreCurrent s now entries

-- A value whose time has come is not seen, then or later.
seen-expired :
    (now t e : ℕ) (v a r : Bytes)
    → split_tab v ≡ some (a, r)
    → stoull r ≡ some e
    → (e == never) ≡ false
    → e ≤ t
    → t ≤ now
    → seen now (some v) ≡ none
unfolding seen seen_split seen_until
seen-expired now t e v a r p q n f g =
    let over : leb e now ≡ true = le→leb e now (omega arith) in
    rw (split-nonempty v a r p, p, q, n, over) refl

module _ {l : LevelDb} where
  -- An entry is left alone, or its time has come and its key is removed.
  pub clean_entry-cases :
      (t : ℕ) (s : Storage l) (k v : Bytes)
      → (clean_entry t s k v ≡ s)
        ⊎ ((a : Bytes) × (r : Bytes) × (e : ℕ) × (split_tab v ≡ some (a, r))
            × (stoull r ≡ some e)
            × ((e == never) ≡ false)
            × (e ≤ t)
            × (clean_entry t s k v ≡ (impl_remove s k).1))
  unfolding clean_entry clean_until
  clean_entry-cases t s k v = elim (Option-cases (split_tab v)) [
    | inl p ↦ inl (rw (p, clean_entry) refl)
    | inr ((a, r), p) ↦ elim (Option-cases (stoull r)) [
      | inl q ↦ inl (rw (p, clean_entry, q) refl)
      | inr (e, q) ↦ elim (Bool-cases (e == never)) [
        | inl n ↦ inl (rw (p, clean_entry, q) (ground arith))
        | inr n ↦ elim (Bool-cases (leb e t)) [
          | inl f ↦ inr (a, r, e, p, q, n, leb→le e t f, rw (p, clean_entry, q) (ground arith))
          | inr f ↦ inl (rw (p, clean_entry, q) (ground arith))
        ]
      ]
    ]
  ]

  pub clean_entry-is_open :
      (t : ℕ) (s : Storage l) (k v : Bytes) → (clean_entry t s k v).is_open ≡ s.is_open
  unfolding impl_remove
  clean_entry-is_open t s k v = elim (clean_entry-cases t s k v) [
    | inl e ↦ ap (λ (x : Storage l). x.is_open) e
    | inr (a, r, x, p, q, n, f, e) ↦ ap (λ (x : Storage l). x.is_open) e ∙ (ground arith)
  ]

  clean_entry-timed :
      (t old : ℕ) (s : Storage l) (k a : Bytes)
      → LacksTab a
      → old ≤ t
      → old < never
      → clean_entry t s k (timed a old) ≡ (impl_remove s k).1
  unfolding clean_entry clean_until
  clean_entry-timed t old s k a clean_a expired small =
      rw (split_tab-timed a old clean_a, clean_entry, stoull-timed old (omega arith)) (ground arith)

module _ {l : LevelDb} (law : IsLevelDb l) (always : AlwaysDeletes l) where
  pub impl_remove-lem :
      (s : Storage l) (k j : Bytes)
      → impl_get (impl_remove s k).1 j ≡ (if same k j then none else impl_get s j)
  impl_remove-lem s k j = elim (Bool-cases s.is_open) [
    | inl o ↦
        impl_get-impl_remove law s k j (unfold impl_remove in rw o (always.deletes s.database k))
    | inr o ↦ unfold impl_get impl_remove in ground arith
  ]

  -- A key is as before, or it is gone and was not seen before.
  pub clean_entry-impl_get :
      (now t : ℕ) (s : Storage l) (k v j : Bytes)
      → t ≤ now
      → IsCurrent s k v
      → (impl_get (clean_entry t s k v) j ≡ impl_get s j)
        ⊎ ((impl_get (clean_entry t s k v) j ≡ none) × (seen now (impl_get s j) ≡ none))
  clean_entry-impl_get now t s k v j late current = elim (clean_entry-cases t s k v) [
    | inl e ↦ inl (ap (λ (s' : Storage l). impl_get s' j) e)
    | inr (a, r, e, p, q, n, f, c) ↦
        let after : impl_get (clean_entry t s k v) j ≡ (if same k j then none else impl_get s j) =
          ap (λ (s' : Storage l). impl_get s' j) c ∙ impl_remove-lem s k j in
        elim (Bool-cases (same k j)) [
          | inr d ↦ inl (after ∙ (rw d refl))
          | inl d ↦
              let unseen : seen now (impl_get s k) ≡ none =
                hidden current (seen-expired now t e v a r p q n f late) in
              inr (
                after ∙ (rw d refl),
                ap (λ (i : Bytes). seen now (impl_get s i)) (sym (same→eq k j d)) ∙ unseen,
              )
        ]
  ]
    where
      hidden : IsCurrent s k v → seen now (some v) ≡ none → seen now (impl_get s k) ≡ none
      hidden (inl e) h = rw e h
      hidden (inr e) h = rw e (unfold seen in refl)

  clean_entry-visible :
      (now t : ℕ) (s : Storage l) (k v j : Bytes)
      → t ≤ now
      → IsCurrent s k v
      → visible now (clean_entry t s k v) j ≡ visible now s j
  clean_entry-visible now t s k v j late current =
      visible-seen now (clean_entry t s k v) j
      ∙ same_seen (clean_entry-impl_get now t s k v j late current)
      ∙ sym (visible-seen now s j)
    where
      same_seen :
          (impl_get (clean_entry t s k v) j ≡ impl_get s j)
            ⊎ ((impl_get (clean_entry t s k v) j ≡ none) × (seen now (impl_get s j) ≡ none))
          → seen now (impl_get (clean_entry t s k v) j) ≡ seen now (impl_get s j)
      same_seen (inl e) = ap (seen now) e
      same_seen (inr (gone, unseen)) = ap (seen now) gone ∙ seen-none now ∙ sym unseen

  clean_entry-AreCurrent :
      (now t : ℕ) (s : Storage l) (k v : Bytes) (entries : List (ℕ × Bytes × Bytes))
      → t ≤ now
      → IsCurrent s k v
      → AreCurrent s now entries
      → AreCurrent (clean_entry t s k v) now entries
  clean_entry-AreCurrent now t s k v [] late c h = tt
  clean_entry-AreCurrent now t s k v ((u, j, w) ∷ entries) late c (b, d, h) = (
    b,
    still (clean_entry-impl_get now t s k v j late c) d,
    clean_entry-AreCurrent now t s k v entries late c h,
  )
    where
      still :
          (impl_get (clean_entry t s k v) j ≡ impl_get s j)
            ⊎ ((impl_get (clean_entry t s k v) j ≡ none) × (seen now (impl_get s j) ≡ none))
          → IsCurrent s j w
          → IsCurrent (clean_entry t s k v) j w
      still (inl e) (inl g) = inl (e ∙ g)
      still (inl e) (inr g) = inr (e ∙ g)
      still (inr (gone, _)) _ = inr gone

  -- Where deleting never fails, and each entry of the snapshot was overtaken by nothing but removals,
  -- a pass of the cleaner changes nothing that any client can see, at any time from its end on.
  pub visible-clean :
      (now : ℕ) (s : Storage l) (entries : List (ℕ × Bytes × Bytes)) (j : Bytes)
      → AreCurrent s now entries
      → visible now (clean s entries) j ≡ visible now s j
  unfolding clean
  visible-clean now s [] j h = refl
  visible-clean now s ((t, k, v) ∷ entries) j (late, current, h) =
      visible-clean now (clean_entry t s k v) entries j
        (clean_entry-AreCurrent now t s k v entries late current h)
      ∙ clean_entry-visible now t s k v j late current

  -- A `put` between the snapshot and the removal is lost: if the snapshot has an expired value of the
  -- key, then behind a successful `put` of any value without a tab, where `get` returns that value, a
  -- pass of the cleaner over that entry removes the key, and `get` returns nothing.
  pub clean_loses_put :
      (wake : Aof → Aof) (now t old : ℕ) (s : Storage l) (k v a : Bytes)
      → LacksTab v
      → LacksTab a
      → old ≤ t
      → old < never
      → (put wake s k v).0 ≡ true
      → let after = (put wake s k v).1 in
        (visible now after k ≡ some v)
        × (visible now (clean after ((t, k, timed a old) ∷ [])) k ≡ none)
  unfolding clean
  clean_loses_put wake now t old s k v a clean_v clean_a expired small ok =
      let after = (put wake s k v).1 in
      let kept = ((get-put law wake s k v [] clean_v ok).0 now).0 in
      let removed : impl_get (clean_entry t after k (timed a old)) k ≡ none =
        ap (λ (s' : Storage l). impl_get s' k)
          (clean_entry-timed t old after k a clean_a expired small)
        ∙ impl_remove-lem after k k
        ∙ (rw (same_refl k) refl) in
      (
        ap (λ (o : Bool × Bytes × Storage l). if o.0 then some o.1 else none) kept,
        visible-seen now (clean_entry t after k (timed a old)) k
            ∙ ap (seen now) removed
            ∙ seen-none now,
      )
