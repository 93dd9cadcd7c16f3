-- ===== src/Service/Commands.antt =====
-- What commands on an unlocked connection do, one after the other.
use blp_cache.Db.Expiry.{get-expire}
use blp_cache.Decimal.RoundTrip.{stoll-to_string}
use blp_cache.Db.Values.{get-put, get-remove}
use blp_cache.Prelude.Int.{pos, negsuc}
use blp_cache.Decimal.{stoll, to_string}
use blp_cache.Db.Split.{LacksTab}
use blp_cache.Aof.{Aof}
use blp_cache.Db.{expire, never, put, split_tab, remove, impl_get, Storage, IsLevelDb, LevelDb}
use blp_cache.Db.Wrapper.{wrapper}
use blp_cache.Service.{
  Reply, integer_reply, null_reply, string_reply, status_reply, seconds64, expire_seconds,
  expire_args, ttl_args, get_args, del_args, set_args, check_session, on_master, guarded,
  next_session, run, answer, answer_all, Connection, get_handler, set_handler, del_handler,
  ttl_handler, expire_handler,
}
use blp_cache.Prelude.{
  Bool, Bytes, List, [], ap, arith, codes, false, if◌then◌else◌, leb, refl, same, some, true, ℕ,
  ◌%◌, ◌+◌, ◌<◌, ◌^◌, ◌∙◌, ◌∷◌, ◌≡◌,
}

abbrev pub unlocked_at : {S : Type 0} → S → Connection S
unlocked_at s = record { session = some (codes "123456"); storage = s }

module _ {l : LevelDb} (law : IsLevelDb l) (wake : Aof → Aof) (s : Storage l) where
  -- On a master, on an unlocked connection, `set` of a value without a tab that LevelDB stores answers
  -- OK; a `get` and a `ttl` of the key behind it, at any times, answer with the value and with -1, and
  -- change nothing more.
  pub answer_all-set_get :
      (set get ttl k v : Bytes) (now soon later : ℕ)
      → LacksTab v
      → (put wake s k v).0 ≡ true
      → answer_all (wrapper wake) (codes "master") (unlocked_at s) (
          record { time = now; handler = set_handler; args = set ∷ k ∷ v ∷ [] }
          ∷ record { time = soon; handler = get_handler; args = get ∷ k ∷ [] }
          ∷ record { time = later; handler = ttl_handler; args = ttl ∷ k ∷ [] }
          ∷ [])
        ≡ (
          status_reply (codes "OK") ∷ string_reply v ∷ integer_reply (negsuc 0) ∷ [],
          unlocked_at (put wake s k v).1,
        )
  unfolding answer_all answer run next_session on_master guarded check_session set_args get_args
      ttl_args same
  answer_all-set_get set get ttl k v now soon later clean ok =
      let (read, other) = get-put law wake s k v [] clean ok in
      rw (ok, (read soon).0, (read later).1, answer_all) refl

  -- On a master, on an unlocked connection, `del` of a key that LevelDB removes answers OK; a `get` and a
  -- `ttl` of the key behind it, at any times, answer with the null string and with -2, and change nothing
  -- more.
  pub answer_all-del_get :
      (del get ttl k : Bytes) (now soon later : ℕ)
      → (remove wake s k).0 ≡ true
      → answer_all (wrapper wake) (codes "master") (unlocked_at s) (
          record { time = now; handler = del_handler; args = del ∷ k ∷ [] }
          ∷ record { time = soon; handler = get_handler; args = get ∷ k ∷ [] }
          ∷ record { time = later; handler = ttl_handler; args = ttl ∷ k ∷ [] }
          ∷ [])
        ≡ (
          status_reply (codes "OK") ∷ null_reply ∷ integer_reply (negsuc 1) ∷ [],
          unlocked_at (remove wake s k).1,
        )
  unfolding answer_all answer run next_session on_master guarded check_session del_args get_args
      ttl_args same
  answer_all-del_get del get ttl k now soon later ok =
      let (read, other) = get-remove law wake s k ok in
      rw (ok, (read soon).0, (read later).1, answer_all) refl

  -- On any node, a replica too, on an unlocked connection, `expire` of a stored key by the digits of `n`
  -- seconds, which LevelDB stores, answers 1; a `get` behind it answers with the value until these
  -- seconds are over, and then with the null string. The number is below 2 ^ 63 and the new time does not
  -- reach 2 ^ 64 - 1.
  pub answer_all-expire_get :
      (model expire_name get_name k v a r : Bytes) (n now soon : ℕ)
      → impl_get s k ≡ some v
      → split_tab v ≡ some (a, r)
      → n < 2 ^ 63
      → now + n < never
      → (expire wake now s k n).0 ≡ true
      → (answer_all (wrapper wake) model (unlocked_at s) (
          record { time = now; handler = expire_handler; args = expire_name ∷ k ∷ to_string n ∷ [] }
          ∷ record { time = soon; handler = get_handler; args = get_name ∷ k ∷ [] }
          ∷ [])).0
        ≡ integer_reply (pos 1) ∷ (if leb (now + n) soon then null_reply else string_reply a) ∷ []
  unfolding answer_all answer run next_session guarded check_session get_args expire_args
      expire_seconds seconds64
  answer_all-expire_get model expire_name get_name k v a r n now soon e p small bounded ok =
      let (read, left) = get-expire law wake s now n k [] v a r e p bounded ok soon in
      rw (expired, read, answer_all) (either _ _ (leb (now + n) soon))
    where
      below : n % 2 ^ 64 ≡ n
      below = omega arith

      expired :
          expire_seconds (wrapper wake) now s k (stoll (to_string n))
          ≡ (integer_reply (pos 1), (expire wake now s k n).1)
      expired =
          ap (expire_seconds (wrapper wake) now s k) (stoll-to_string n small)
          ∙ (unfold expire_seconds seconds64 in
              ap
                (λ (m : ℕ). (
                  integer_reply (if (expire wake now s k m).0 then pos 1 else pos 0),
                  (expire wake now s k m).1,
                ))
                below
              ∙ (rw ok refl))

      either :
          (t u : Storage l) (b : Bool)
          → let found : Bool × Bytes × Storage l = if b then (false, [], t) else (true, a, u) in
            ◌≡◌ {A = List Reply}
              (integer_reply (pos 1) ∷ (if found.0 then string_reply found.1 else null_reply) ∷ [])
              (integer_reply (pos 1) ∷ (if b then null_reply else string_reply a) ∷ [])
      either t u true = refl
      either t u false = refl
