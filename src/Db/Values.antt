-- ===== src/Db/Values.antt =====
-- What is put is what is got, for values without a tab.
use blp_cache.Db.Split.{split_tab-suffix, stoull-forever, LacksTab, split_tab-some}
use blp_cache.Prelude.Int.{negsuc}
use blp_cache.Decimal.{stoull}
use blp_cache.Resp.{Command}
use blp_cache.Aof.{Aof}
use blp_cache.Db.{
  never, tab, ttl_split, impl_put, get_split, loaded, impl_remove, get_until, ttl_until, split_tab,
  forever_suffix, put, impl_get, remove, Storage, get, log_command, ttl, IsLevelDb, LevelDb,
}
use blp_cache.Prelude.{
  Bool-cases, Bytes, Option, [], ap, arith, false, if◌then◌else◌, inl, inr, length, length-append,
  none, refl, same, same_ne, same_refl, some, true, ℕ, ◌++◌, ◌==◌, ◌∙◌, ◌∷◌, ◌≡◌, ◌≢◌,
}

-- A value with a tab is not empty.
pub split-nonempty : (v a r : Bytes) → split_tab v ≡ some (a, r) → (length v == 0) ≡ false
split-nonempty v a r p =
    let (_, whole) = split_tab-some v a r p in
    ground (arith, ap (λ (t : Bytes). length t) whole, length-append a (tab ∷ r))

module _ {l : LevelDb} where
  pub impl_get-log_command :
      (wake : Aof → Aof) (s : Storage l) (cmd : Command) (k : Bytes)
      → impl_get (log_command wake s cmd) k ≡ impl_get s k
  unfolding impl_get log_command
  impl_get-log_command wake s cmd k = refl

  pub loaded-some : (s : Storage l) (k x v : Bytes) → impl_get s k ≡ some v → loaded s k x ≡ v
  unfolding loaded
  loaded-some s k x v e = rw e refl

  -- A stored value with a tab is got and timed by what stands behind its first tab.
  pub get-stored :
      (now : ℕ) (s : Storage l) (k x v a r : Bytes)
      → impl_get s k ≡ some v
      → split_tab v ≡ some (a, r)
      → get now s k x ≡ get_until now s k v a (stoull r)
  unfolding get get_split
  get-stored now s k x v a r e p = rw (loaded-some s k x v e, split-nonempty v a r p, p) refl

  pub ttl-stored :
      (now : ℕ) (s : Storage l) (k v a r : Bytes)
      → impl_get s k ≡ some v
      → split_tab v ≡ some (a, r)
      → ttl now s k ≡ ttl_until now (stoull r)
  unfolding ttl ttl_split
  ttl-stored now s k v a r e p = rw (loaded-some s k [] v e, split-nonempty v a r p, p) refl

  pub get-missing :
      (now : ℕ) (s : Storage l) (k : Bytes) → impl_get s k ≡ none → get now s k [] ≡ (false, [], s)
  unfolding get loaded
  get-missing now s k e = rw e refl

  pub ttl-missing :
      (now : ℕ) (s : Storage l) (k : Bytes) → impl_get s k ≡ none → ttl now s k ≡ negsuc 1
  unfolding ttl loaded
  ttl-missing now s k e = rw e refl

module _ {l : LevelDb} (law : IsLevelDb l) where
  pub impl_get-impl_put :
      (s : Storage l) (k w j : Bytes)
      → (impl_put s k w).0 ≡ true
      → impl_get (impl_put s k w).1 j ≡ (if same k j then some w else impl_get s j)
  unfolding impl_put impl_get
  impl_get-impl_put s k w j ok = elim (Bool-cases s.is_open) [
    | inl e ↦ ground (arith, law.get-put s.database k w j)
    | inr e ↦ ground arith
  ]

  pub impl_get-impl_remove :
      (s : Storage l) (k j : Bytes)
      → (impl_remove s k).0 ≡ true
      → impl_get (impl_remove s k).1 j ≡ (if same k j then none else impl_get s j)
  unfolding impl_remove impl_get
  impl_get-impl_remove s k j ok = elim (Bool-cases s.is_open) [
    | inl e ↦ ground (arith, law.get-delete s.database k j)
    | inr e ↦ ground arith
  ]

module _ {l : LevelDb} (law : IsLevelDb l) (wake : Aof → Aof) (s : Storage l) where
  -- After a successful `put` the database holds the value with its suffix, and the other keys as before.
  pub impl_get-put :
      (k v j : Bytes)
      → (put wake s k v).0 ≡ true
      → impl_get (put wake s k v).1 j
        ≡ (if same k j then some (v ++ forever_suffix) else impl_get s j)
  unfolding put
  impl_get-put k v j ok =
      impl_get-impl_put law (log_command wake s _) k (v ++ forever_suffix) j ok
      ∙ ap (λ (o : Option Bytes). if same k j then some (v ++ forever_suffix) else o)
          (impl_get-log_command wake s _ j)

  pub impl_get-remove :
      (k j : Bytes)
      → (remove wake s k).0 ≡ true
      → impl_get (remove wake s k).1 j ≡ (if same k j then none else impl_get s j)
  unfolding remove
  impl_get-remove k j ok =
      impl_get-impl_remove law (log_command wake s _) k j ok
      ∙ ap (λ (o : Option Bytes). if same k j then none else o) (impl_get-log_command wake s _ j)

  -- The value under the key itself.
  pub impl_get-put_self :
      (k v : Bytes)
      → (put wake s k v).0 ≡ true
      → impl_get (put wake s k v).1 k ≡ some (v ++ forever_suffix)
  impl_get-put_self k v ok = impl_get-put k v k ok ∙ (rw (same_refl k) refl)

  -- A successful `put` of a value without a tab is read back: at any later time `get` returns true and
  -- the value and changes nothing, `ttl` returns -1, and what is stored under every other key is as
  -- before.
  pub get-put :
      (k v x : Bytes)
      → LacksTab v
      → (put wake s k v).0 ≡ true
      → let t = (put wake s k v).1 in
        ((now : ℕ) → (get now t k x ≡ (true, v, t)) × (ttl now t k ≡ negsuc 0))
        × ((j : Bytes) → k ≢ j → impl_get t j ≡ impl_get s j)
  get-put k v x clean ok =
      let t = (put wake s k v).1 in
      let held = impl_get-put_self k v ok in
      let parted = split_tab-suffix v clean in
      (
        λ now. (
          get-stored now t k x _ v _ held parted ∙ forever now t (v ++ forever_suffix),
          ttl-stored now t k _ v _ held parted ∙ ap (ttl_until now) stoull-forever ∙ endless now,
        ),
        λ j ne. impl_get-put k v j ok ∙ (rw (same_ne k j ne) refl),
      )
    where
      forever :
          (now : ℕ) (t : Storage l) (w : Bytes)
          → get_until now t k w v (stoull (b'-' ∷ b'1' ∷ [])) ≡ (true, v, t)
      forever now t w = rw stoull-forever (unfold get_until in refl)

      endless : (now : ℕ) → ttl_until now (some never) ≡ negsuc 0
      endless now = unfold ttl_until in refl

  -- After a successful `remove` of a key, `get` of it returns false with nothing, `ttl` returns -2, and
  -- what is stored under every other key is as before.
  pub get-remove :
      (k : Bytes)
      → (remove wake s k).0 ≡ true
      → let t = (remove wake s k).1 in
        ((now : ℕ) → (get now t k [] ≡ (false, [], t)) × (ttl now t k ≡ negsuc 1))
        × ((j : Bytes) → k ≢ j → impl_get t j ≡ impl_get s j)
  get-remove k ok =
      let t = (remove wake s k).1 in
      let gone = impl_get-remove k k ok ∙ (rw (same_refl k) refl) in
      (
        λ now. (get-missing now t k gone, ttl-missing now t k gone),
        λ j ne. impl_get-remove k j ok ∙ (rw (same_ne k j ne) refl),
      )
