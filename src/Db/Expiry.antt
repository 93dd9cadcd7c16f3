-- ===== src/Db/Expiry.antt =====
-- Times of expiry: what `expire` stores, and what `get` and `ttl` make of it.
use blp_cache.Db.Values.{impl_get-put_self, ttl-stored, split-nonempty, loaded-some, get-stored}
use blp_cache.Decimal.{to_string}
use blp_cache.Db.Split.{
  split_tab-clean, stoull-timed, split_tab-timed, split_tab-some, LacksTab, timed,
}
use blp_cache.Aof.{Aof}
use blp_cache.Db.{
  loaded, forever_suffix, ttl_until, get_until, signed64, ttl, impl_remove, get, tab, never, put,
  impl_get, IsLevelDb, expire, split_tab, Storage, actual_value, LevelDb,
}
use blp_cache.Prelude.{
  Bool, Bytes, Option, [], ap, append_assoc, arith, false, if◌then◌else◌, leb, length,
  length-append, le→leb, none, refl, some, sym, true, ℕ, ◌%◌, ◌++◌, ◌+◌, ◌-◌, ◌<◌, ◌^◌, ◌∙◌, ◌∷◌,
  ◌≡◌, ◌≤◌,
}
use blp_cache.Prelude.Int.{negsuc}

pub actual_value-split : (v a r : Bytes) → split_tab v ≡ some (a, r) → actual_value v ≡ a
unfolding actual_value
actual_value-split v a r p = rw (p, actual_value) refl

module _ {l : LevelDb} where
  -- At a time before its expiry a value is got; from then on the key is removed and nothing is got.
  pub get-timed :
      (now t : ℕ) (s : Storage l) (k x a : Bytes)
      → impl_get s k ≡ some (timed a t)
      → LacksTab a
      → t < never
      → get now s k x ≡ (if leb t now then (false, [], (impl_remove s k).1) else (true, a, s))
  get-timed now t s k x a e clean small =
      get-stored now s k x (timed a t) a _ e (split_tab-timed a t clean)
      ∙ ap (get_until now s k (timed a t) a) (stoull-timed t (omega arith))
      ∙ (unfold get_until in ground arith)

  pub ttl-timed :
      (now t : ℕ) (s : Storage l) (k a : Bytes)
      → impl_get s k ≡ some (timed a t)
      → LacksTab a
      → t < never
      → ttl now s k ≡ (if leb t now then negsuc 1 else signed64 (t - now))
  ttl-timed now t s k a e clean small =
      ttl-stored now s k (timed a t) a _ e (split_tab-timed a t clean)
      ∙ ap (ttl_until now) (stoull-timed t (omega arith))
      ∙ (unfold ttl_until in ground arith)

  pub expire-missing :
      (wake : Aof → Aof) (now ts : ℕ) (s : Storage l) (k : Bytes)
      → impl_get s k ≡ none
      → expire wake now s k ts ≡ (false, s)
  unfolding expire loaded
  expire-missing wake now ts s k e = rw e refl

  pub expire-present :
      (wake : Aof → Aof) (now ts : ℕ) (s : Storage l) (k v a r : Bytes)
      → impl_get s k ≡ some v
      → split_tab v ≡ some (a, r)
      → expire wake now s k ts ≡ put wake s k (a ++ (tab ∷ to_string ((now + ts) % 2 ^ 64)))
  unfolding expire
  expire-present wake now ts s k v a r e p =
      rw (loaded-some s k [] v e, split-nonempty v a r p, actual_value-split v a r p) refl

get_until-true :
    {l : LevelDb} (now : ℕ) (s : Storage l) (k whole a : Bytes) (o : Option ℕ)
    → (get_until now s k whole a o).0 ≡ true
    → (get_until now s k whole a o).1 ≡ a
unfolding get_until
get_until-true now s k whole a none h = cc
get_until-true now s k whole a (some t) h = ground arith

module _ {l : LevelDb} (law : IsLevelDb l) (wake : Aof → Aof) (s : Storage l) where
  -- `expire` on a stored value, whatever time stands behind its tab, stores the part before the tab
  -- with the new time: if the call succeeds and the time does not reach 2 ^ 64 - 1, then at every time
  -- `get` returns that part until the new time and afterwards removes the key and returns false, and
  -- `ttl` returns the seconds left and then -2.
  pub get-expire :
      (start ts : ℕ) (k x v a r : Bytes)
      → impl_get s k ≡ some v
      → split_tab v ≡ some (a, r)
      → start + ts < never
      → (expire wake start s k ts).0 ≡ true
      → let t = (expire wake start s k ts).1 in
        (now : ℕ)
        → (get now t k x
            ≡ (if leb (start + ts) now then (false, [], (impl_remove t k).1) else (true, a, t)))
          × (ttl now t k ≡ (if leb (start + ts) now then negsuc 1 else signed64 (start + ts - now)))
  get-expire start ts k x v a r e p small ok now =
      let stored = expire-present wake start ts s k v a r e p in
      let whole : (start + ts) % 2 ^ 64 ≡ start + ts = omega arith in
      let (clean, _) = split_tab-some v a r p in
      let ok' : (put wake s k (a ++ (tab ∷ to_string ((start + ts) % 2 ^ 64)))).0 ≡ true =
        ap (λ (o : Bool × Storage l). o.0) (sym stored) ∙ ok in
      let held : impl_get (expire wake start s k ts).1 k ≡ some (timed a (start + ts)) =
        ap (λ (o : Bool × Storage l). impl_get o.1 k) stored
        ∙ impl_get-put_self law wake s k _ ok'
        ∙ ap (λ (n : ℕ). some (timed a n)) whole in
      (
        get-timed now (start + ts) (expire wake start s k ts).1 k x a held clean small,
        ttl-timed now (start + ts) (expire wake start s k ts).1 k a held clean small,
      )

  -- `expire` does not look at the old time: on a value that has expired but was not removed yet, where
  -- `get` returns false, a successful call that stores a later time brings the value back.
  pub expire_revives :
      (now old ts : ℕ) (k x a : Bytes)
      → impl_get s k ≡ some (timed a old)
      → LacksTab a
      → old ≤ now
      → 0 < ts
      → now + ts < never
      → (expire wake now s k ts).0 ≡ true
      → ((get now s k x).0 ≡ false)
        × (get now (expire wake now s k ts).1 k x ≡ (true, a, (expire wake now s k ts).1))
  expire_revives now old ts k x a e clean expired later small ok =
      let before = get-timed now old s k x a e clean (omega arith) in
      let behind =
        (get-expire now ts k x (timed a old) a _ e (split_tab-timed a old clean) small ok now).0 in
      (
        ap (λ (o : Bool × Bytes × Storage l). o.0) before ∙ (rw (le→leb old now expired) refl),
        behind ∙ (rw (leb-lt (now + ts) now (omega arith)) refl),
      )
    where
      leb-lt : (n m : ℕ) → m < n → leb n m ≡ false
      leb-lt n m h = ground arith

  -- A value with a tab in it is never read back: after a successful `put` of it, at no time does `get`
  -- return true with the value that was put.
  pub get-put-tab :
      (now : ℕ) (k x a b : Bytes)
      → LacksTab a
      → (put wake s k (a ++ (tab ∷ b))).0 ≡ true
      → let r = get now (put wake s k (a ++ (tab ∷ b))).1 k x in
        ¬ ((r.0 ≡ true) × (r.1 ≡ a ++ (tab ∷ b)))
  get-put-tab now k x a b clean ok (t, e) =
      let whole = (a ++ (tab ∷ b)) ++ forever_suffix in
      let held = impl_get-put_self law wake s k (a ++ (tab ∷ b)) ok in
      let parted : split_tab whole ≡ some (a, b ++ forever_suffix) =
        ap split_tab (append_assoc a (tab ∷ b) forever_suffix) ∙ split_tab-clean a _ clean in
      let after = (put wake s k (a ++ (tab ∷ b))).1 in
      let found = get-stored now after k x whole a _ held parted in
      let cut =
        get_until-true now after k whole a _
          (ap (λ (o : Bool × Bytes × Storage l). o.0) (sym found) ∙ t) in
      let short : a ≡ a ++ (tab ∷ b) =
        sym cut ∙ ap (λ (o : Bool × Bytes × Storage l). o.1) (sym found) ∙ e in
      omega (arith, ap (λ (u : Bytes). length u) short, length-append a (tab ∷ b))
