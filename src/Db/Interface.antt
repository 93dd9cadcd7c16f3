-- ===== src/Db/Interface.antt =====
-- What the service uses of the class `LevelDBWrapper`, src/core/db.h: the operations over a state, which
-- the C++ object changes in place. The times are those that the clock gives in a call; `get` takes what
-- the caller's string holds, and gives what it holds behind the call.
use blp_cache.Prelude.Int.{ℤ}
use blp_cache.Prelude.{Bool, Bytes, [], ℕ, ◌≡◌}

pub record StorageApi (S : Type 0) : Type 0 where
  pub put : S → Bytes → Bytes → Bool × S
  pub get : ℕ → S → Bytes → Bytes → Bool × Bytes × S
  pub remove : S → Bytes → Bool × S
  pub ttl : ℕ → S → Bytes → ℤ
  pub expire : ℕ → S → Bytes → ℕ → Bool × S

-- An implementation that answers as another does while the two are alike in the sense of `R`, for the
-- values that `Allowed` lets in. The service gives `get` an empty string.
pub record Simulation {S T : Type 0} (api : StorageApi S) (spec : StorageApi T) (R : S → T → Type 0)
    (Allowed : Bytes → Type 0) : Type 0 where
  pub put_alike :
      (s : S) (t : T) (k v : Bytes)
      → Allowed v
      → R s t
      → ((api.put s k v).0 ≡ (spec.put t k v).0) × R (api.put s k v).1 (spec.put t k v).1
  pub get_alike :
      (now : ℕ) (s : S) (t : T) (k : Bytes)
      → R s t
      → ((api.get now s k []).0 ≡ (spec.get now t k []).0)
        × ((api.get now s k []).1 ≡ (spec.get now t k []).1)
        × R (api.get now s k []).2 (spec.get now t k []).2
  pub remove_alike :
      (s : S) (t : T) (k : Bytes)
      → R s t
      → ((api.remove s k).0 ≡ (spec.remove t k).0) × R (api.remove s k).1 (spec.remove t k).1
  pub ttl_alike : (now : ℕ) (s : S) (t : T) (k : Bytes) → R s t → api.ttl now s k ≡ spec.ttl now t k
  pub expire_alike :
      (now ts : ℕ) (s : S) (t : T) (k : Bytes)
      → R s t
      → ((api.expire now s k ts).0 ≡ (spec.expire now t k ts).0)
        × R (api.expire now s k ts).1 (spec.expire now t k ts).1
