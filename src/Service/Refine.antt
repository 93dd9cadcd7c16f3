-- ===== src/Service/Refine.antt =====
-- The replies of the service over one storage are those over another that it simulates.
use blp_cache.Prelude.Int.{ℤ}
use blp_cache.Service.{
  auth_handler, get_handler, set_handler, del_handler, ttl_handler, expire_handler, answer,
  answer_all, Handler, Reply, Request, Session, run, guarded, on_master, check_session,
  next_session, get_args, set_args, del_args, ttl_args, expire_args, expire_seconds, integer_reply,
  seconds64,
}
use blp_cache.Decimal.{stoll}
use blp_cache.Db.Interface.{StorageApi, Simulation}
use blp_cache.Prelude.{
  All, Bool-cases, Bytes, List, Option, Option-cases, [], ap, ap₂, codes, inl, inr, none, refl,
  same, some, ℕ, ◌∷◌, ◌≡◌,
}

-- The values that a request puts are allowed.
abbrev pub SetsAllowed : (Bytes → Type 0) → Handler → List Bytes → Type 0
SetsAllowed Allowed set_handler (name ∷ key ∷ value ∷ []) = Allowed value
SetsAllowed Allowed handler args = Unit

module _ {S T : Type 0} (api : StorageApi S) (spec : StorageApi T) (R : S → T → Type 0)
    (Allowed : Bytes → Type 0) (sim : Simulation api spec R Allowed) where
  abbrev Alike : Reply × S → Reply × T → Type 0
  Alike x y = (x.0 ≡ y.0) × R x.1 y.1

  guarded-Alike :
      (session : Session) (s : S) (t : T) (x : Reply × S) (y : Reply × T)
      → R s t
      → Alike x y
      → Alike (guarded session s x) (guarded session t y)
  unfolding guarded
  guarded-Alike session s t x y r h = elim (Option-cases (check_session session)) [
    | inl e ↦ rw (e, guarded) h
    | inr (refusal, e) ↦ rw (e, guarded) (refl, r)
  ]

  on_master-Alike :
      (model text : Bytes) (s : S) (t : T) (x : Reply × S) (y : Reply × T)
      → R s t
      → Alike x y
      → Alike (on_master model text s x) (on_master model text t y)
  unfolding on_master
  on_master-Alike model text s t x y r h = elim (Bool-cases (same model (codes "master"))) [
    | inl e ↦ rw (e, on_master) h
    | inr e ↦ rw (e, on_master) (refl, r)
  ]

  get_args-Alike :
      (now : ℕ) (s : S) (t : T) (args : List Bytes)
      → R s t
      → Alike (get_args api now s args) (get_args spec now t args)
  unfolding get_args
  get_args-Alike now s t (name ∷ key ∷ []) r =
      let (found, value, after) = sim.get_alike now s t key r in (rw (found, value) refl, after)
  get_args-Alike now s t [] r = (refl, r)
  get_args-Alike now s t (a ∷ []) r = (refl, r)
  get_args-Alike now s t (a ∷ b ∷ c ∷ args) r = (refl, r)

  set_args-Alike :
      (s : S) (t : T) (args : List Bytes)
      → SetsAllowed Allowed set_handler args
      → R s t
      → Alike (set_args api s args) (set_args spec t args)
  unfolding set_args
  set_args-Alike s t (name ∷ key ∷ value ∷ []) clean r =
      let (ok, after) = sim.put_alike s t key value clean r in (rw ok refl, after)
  set_args-Alike s t [] clean r = (refl, r)
  set_args-Alike s t (a ∷ []) clean r = (refl, r)
  set_args-Alike s t (a ∷ b ∷ []) clean r = (refl, r)
  set_args-Alike s t (a ∷ b ∷ c ∷ d ∷ args) clean r = (refl, r)

  del_args-Alike :
      (s : S) (t : T) (args : List Bytes)
      → R s t
      → Alike (del_args api s args) (del_args spec t args)
  unfolding del_args
  del_args-Alike s t (name ∷ key ∷ []) r =
      let (ok, after) = sim.remove_alike s t key r in (rw ok refl, after)
  del_args-Alike s t [] r = (refl, r)
  del_args-Alike s t (a ∷ []) r = (refl, r)
  del_args-Alike s t (a ∷ b ∷ c ∷ args) r = (refl, r)

  ttl_args-Alike :
      (now : ℕ) (s : S) (t : T) (args : List Bytes)
      → R s t
      → Alike (ttl_args api now s args) (ttl_args spec now t args)
  unfolding ttl_args
  ttl_args-Alike now s t (name ∷ key ∷ []) r = (ap integer_reply (sim.ttl_alike now s t key r), r)
  ttl_args-Alike now s t [] r = (refl, r)
  ttl_args-Alike now s t (a ∷ []) r = (refl, r)
  ttl_args-Alike now s t (a ∷ b ∷ c ∷ args) r = (refl, r)

  expire_seconds-Alike :
      (now : ℕ) (s : S) (t : T) (key : Bytes) (o : Option ℤ)
      → R s t
      → Alike (expire_seconds api now s key o) (expire_seconds spec now t key o)
  unfolding expire_seconds
  expire_seconds-Alike now s t key none r = (refl, r)
  expire_seconds-Alike now s t key (some seconds) r =
      let (ok, after) = sim.expire_alike now (seconds64 seconds) s t key r in (rw ok refl, after)

  expire_args-Alike :
      (now : ℕ) (s : S) (t : T) (args : List Bytes)
      → R s t
      → Alike (expire_args api now s args) (expire_args spec now t args)
  unfolding expire_args
  expire_args-Alike now s t (name ∷ key ∷ value ∷ []) r =
      expire_seconds-Alike now s t key (stoll value) r
  expire_args-Alike now s t [] r = (refl, r)
  expire_args-Alike now s t (a ∷ []) r = (refl, r)
  expire_args-Alike now s t (a ∷ b ∷ []) r = (refl, r)
  expire_args-Alike now s t (a ∷ b ∷ c ∷ d ∷ args) r = (refl, r)

  run-Alike :
      (model : Bytes) (time : ℕ) (handler : Handler) (args : List Bytes) (session : Session) (s : S)
      (t : T)
      → SetsAllowed Allowed handler args
      → R s t
      → let r : Request = record { time = time; handler = handler; args = args } in
        Alike (run api model r session s) (run spec model r session t)
  unfolding run
  run-Alike model time auth_handler args session s t clean r = (refl, r)
  run-Alike model time get_handler args session s t clean r =
      guarded-Alike session s t _ _ r (get_args-Alike time s t args r)
  run-Alike model time set_handler args session s t clean r =
      on_master-Alike model _ s t _ _ r
        (guarded-Alike session s t _ _ r (set_args-Alike s t args clean r))
  run-Alike model time del_handler args session s t clean r =
      on_master-Alike model _ s t _ _ r
        (guarded-Alike session s t _ _ r (del_args-Alike s t args r))
  run-Alike model time ttl_handler args session s t clean r =
      guarded-Alike session s t _ _ r (ttl_args-Alike time s t args r)
  run-Alike model time expire_handler args session s t clean r =
      guarded-Alike session s t _ _ r (expire_args-Alike time s t args r)

  -- On any node and any session, for requests whose `set` values are allowed.
  pub answer_all-Simulation :
      (model : Bytes) (requests : List Request) (session : Session) (s : S) (t : T)
      → All (λ (q : Request). SetsAllowed Allowed q.handler q.args) requests
      → R s t
      → let over_s = answer_all api model (record { session = session; storage = s }) requests in
        let over_t = answer_all spec model (record { session = session; storage = t }) requests in
        (over_s.0 ≡ over_t.0)
        × (over_s.1.session ≡ over_t.1.session)
        × R over_s.1.storage over_t.1.storage
  unfolding answer_all answer
  answer_all-Simulation model [] session s t clean r = (refl, refl, r)
  answer_all-Simulation model (q ∷ requests) session s t (h, hs) r =
      let (same_reply, after) = run-Alike model q.time q.handler q.args session s t h r in
      let (replies, sessions, end) =
        answer_all-Simulation model requests (next_session q session) (run api model q session s).1
          (run spec model q session t).1 hs after in
      (ap₂ (λ (x : Reply) (xs : List Reply). x ∷ xs) same_reply replies, sessions, end)
