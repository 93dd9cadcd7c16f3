-- ===== src/Service/Access.antt =====
-- What a connection can do before it has given the password.
use blp_cache.Db.Interface.{StorageApi}
use blp_cache.Service.{
  auth_handler, get_handler, set_handler, del_handler, ttl_handler, expire_handler, Connection,
  answer, status_reply, guarded, wrong_count, run, answer_all, on_master, Handler, auth,
  error_reply, Reply, check_session, run_auth, next_session, Request, Session,
}
use blp_cache.Prelude.{
  All, Bool, Bool-cases, Bytes, List, [], ap, arith, codes, false, if◌then◌else◌, inl, inr, none,
  refl, same, same→eq, some, subst, sym, true, ℕ, ◌∷◌, ◌≡◌, ◌⊎◌,
}

abbrev pub IsError : Reply → Type 0
IsError r = (text : Bytes) × (r ≡ error_reply text)

-- The session of a connection that was opened, or that gave the password.
pub data IsGood : Session → Type 0 where
  locked : IsGood none
  unlocked : IsGood (some (codes "123456"))

-- Whether a request gives the password.
unfoldable pub gives_password : List Bytes → Bool
gives_password (name ∷ password ∷ []) = same password (codes "123456")
gives_password _ = false

unfoldable pub unlocks : Request → Bool
unlocks r = elim r.handler [
  | auth_handler ↦ gives_password r.args
  | get_handler ↦ false
  | set_handler ↦ false
  | del_handler ↦ false
  | ttl_handler ↦ false
  | expire_handler ↦ false
]

run_auth-two :
    (session : Session) (name password : Bytes)
    → (run_auth session (name ∷ password ∷ [])).1
      ≡ (if same password (codes "123456") then some (codes "123456") else session)
unfolding run_auth auth
run_auth-two session name password = elim (Bool-cases (same password (codes "123456"))) [
  | inl e ↦ ground (arith, e, same→eq password (codes "123456") e)
  | inr e ↦ ground (arith, e)
]

run_auth-IsGood :
    (session : Session) (args : List Bytes) → IsGood session → IsGood (run_auth session args).1
unfolding run_auth
run_auth-IsGood session (name ∷ password ∷ []) h =
    subst IsGood (sym (run_auth-two session name password))
      (either (same password (codes "123456")))
  where
    either : (b : Bool) → IsGood (if b then some (codes "123456") else session)
    either true = unlocked
    either false = h
run_auth-IsGood session [] h = h
run_auth-IsGood session (a ∷ []) h = h
run_auth-IsGood session (a ∷ b ∷ c ∷ s) h = h

next_session-IsGood :
    (time : ℕ) (handler : Handler) (args : List Bytes) (session : Session)
    → IsGood session
    → IsGood (next_session (record { time = time; handler = handler; args = args }) session)
unfolding next_session
next_session-IsGood time auth_handler args session h = run_auth-IsGood session args h
next_session-IsGood time get_handler args session h = h
next_session-IsGood time set_handler args session h = h
next_session-IsGood time del_handler args session h = h
next_session-IsGood time ttl_handler args session h = h
next_session-IsGood time expire_handler args session h = h

check_session-IsGood :
    (session : Session) → IsGood session → (check_session session ≡ none) ⊎ (session ≡ none)
unfolding check_session
check_session-IsGood _ locked = inr refl
check_session-IsGood _ unlocked = inl refl

run_auth-refused :
    (args : List Bytes)
    → gives_password args ≡ false
    → IsError (run_auth none args).0 × ((run_auth none args).1 ≡ none)
unfolding run_auth auth wrong_count gives_password
run_auth-refused (name ∷ password ∷ []) e =
    ((_, ap (λ (b : Bool). (auth_of b).0) e), ap (λ (b : Bool). (auth_of b).1) e)
  where
    auth_of : Bool → Reply × Session
    auth_of b =
        if b
        then (status_reply (codes "OK"), some password)
        else (error_reply (codes "Invalid password for database"), none)
run_auth-refused [] e = ((_, refl), refl)
run_auth-refused (a ∷ []) e = ((_, refl), refl)
run_auth-refused (a ∷ b ∷ c ∷ s) e = ((_, refl), refl)

module _ {S : Type 0} (api : StorageApi S) (model : Bytes) where
  -- A reply with an error that leaves everything alone.
  Refused : Request → S → Type 0
  Refused r s =
      IsError (run api model r none s).0
      × ((run api model r none s).1 ≡ s)
      × (next_session r none ≡ none)

  on_master-refused :
      (text : Bytes) (s : S) (rest : Reply × S)
      → IsError rest.0
      → rest.1 ≡ s
      → IsError (on_master model text s rest).0 × ((on_master model text s rest).1 ≡ s)
  unfolding on_master
  on_master-refused text s rest h e = elim (Bool-cases (same model (codes "master"))) [
    | inl m ↦ rw (m, on_master) (h, e)
    | inr m ↦ rw (m, on_master) ((text, refl), refl)
  ]

  run-Refused :
      (time : ℕ) (handler : Handler) (args : List Bytes) (s : S)
      → unlocks (record { time = time; handler = handler; args = args }) ≡ false
      → Refused (record { time = time; handler = handler; args = args }) s
  unfolding Refused run next_session unlocks guarded check_session
  run-Refused time auth_handler args s h =
      let (bad, same_session) = run_auth-refused args h in (bad, refl, same_session)
  run-Refused time get_handler args s h = ((_, refl), refl, refl)
  run-Refused time set_handler args s h =
      let (bad, same_storage) = on_master-refused _ s _ (_, refl) refl in (bad, same_storage, refl)
  run-Refused time del_handler args s h =
      let (bad, same_storage) = on_master-refused _ s _ (_, refl) refl in (bad, same_storage, refl)
  run-Refused time ttl_handler args s h = ((_, refl), refl, refl)
  run-Refused time expire_handler args s h = ((_, refl), refl, refl)

  -- A connection without a session, whatever requests it sends, as long as none of them gives the
  -- password: each reply is an error, and the storage with its log, and the connection, stay as they are.
  pub answer_all-locked :
      (s : S) (requests : List Request)
      → All (λ (r : Request). unlocks r ≡ false) requests
      → let c : Connection S = record { session = none; storage = s } in
        All IsError (answer_all api model c requests).0 × ((answer_all api model c requests).1 ≡ c)
  unfolding answer_all answer Refused
  answer_all-locked s [] h = (tt, refl)
  answer_all-locked s (r ∷ requests) (h, hs) =
      let (bad, kept, still) = run-Refused r.time r.handler r.args s h in
      let (errors, same_end) = answer_all-locked s requests hs in
      rw (kept, still, answer_all) ((bad, errors), same_end)

  -- After any requests on a connection that is new or gave the password, its session is again none or
  -- the password, so the guard on an empty password never refuses: either the guards on the session let
  -- a request pass, or there is no session.
  pub answer_all-IsGood :
      (requests : List Request) (c : Connection S)
      → IsGood c.session
      → let end = (answer_all api model c requests).1 in
        IsGood end.session × ((check_session end.session ≡ none) ⊎ (end.session ≡ none))
  unfolding answer_all answer
  answer_all-IsGood [] c h = (h, check_session-IsGood c.session h)
  answer_all-IsGood (r ∷ requests) c h =
      answer_all-IsGood requests (answer api model c r).1
        (next_session-IsGood r.time r.handler r.args c.session h)
