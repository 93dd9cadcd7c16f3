-- ===== src/Service.antt =====
-- The command handlers, src/service/cmd_*.cpp, and the class they call in redis_service.cpp beside
-- them. brpc picks the handler and keeps the session of a connection: a request names its handler, with
-- the time at which the storage asks for it.
pub mod Access
pub mod Commands
pub mod Registry
pub mod Refine
pub mod Promise
mod Tests
use blp_cache.Decimal.{stoll, to_string}
use blp_cache.Prelude.Int.{negsuc, pos, ℤ}
use blp_cache.Db.Interface.{StorageApi}
use blp_cache.Prelude.{
  Bool, Bytes, List, Option, [], codes, if◌then◌else◌, length, none, not, same, some, suc, ℕ, ◌%◌,
  ◌++◌, ◌+◌, ◌-◌, ◌==◌, ◌^◌, ◌∷◌,
}

-- What a handler puts into `output`. A formatted error is its text.
pub data Reply : Type 0 where
  status_reply : Bytes → Reply
  error_reply : Bytes → Reply
  null_reply : Reply
  string_reply : Bytes → Reply
  integer_reply : ℤ → Reply

-- The text of an error about the number of arguments: `%lu` of `args.size() - 1`.
unfoldable pub wrong_count : Bytes → List Bytes → Reply
wrong_count text args = error_reply (text ++ to_string ((length args + (2 ^ 64 - 1)) % 2 ^ 64))

-- What `%s` prints of `c_str()`: the bytes in front of the first that is 0.
unfoldable pub c_str : Bytes → Bytes
c_str [] = []
c_str (b ∷ s) = let rest = b ∷ c_str s in if b == 0 then [] else rest

-- `RedisServiceImpl::Auth`
unfoldable pub auth : Bytes → Bool
auth password = same password (codes "123456")

-- The session that brpc keeps for a connection: the password of an `AuthSession`, if there is one.
abbrev pub Session : Type 0
Session = Option Bytes

-- `AuthCommandHandler::Run`
unfoldable pub run_auth : Session → List Bytes → Reply × Session
run_auth session (name ∷ password ∷ []) =
    if auth password
    then (status_reply (codes "OK"), some password)
    else (error_reply (codes "Invalid password for database"), session)
run_auth session args = (wrong_count (codes "Expect 1 arg for 'auth', actually ") args, session)

-- The guards on the session, which all handlers but that of `auth` share.
unfoldable pub check_session : Session → Option Reply
check_session none = some (error_reply (codes "No auth session"))
check_session (some password) =
    if length password == 0 then some (error_reply (codes "No user name")) else none

-- The seconds that `Expire` gets: a negative number becomes a `uint64_t`.
unfoldable pub seconds64 : ℤ → ℕ
seconds64 (pos n) = n % 2 ^ 64
seconds64 (negsuc n) = (2 ^ 64 - suc n) % 2 ^ 64

-- The members of `RedisServiceImpl` that hand on to the storage.
module _ {S : Type 0} (api : StorageApi S) where
  abbrev pub service_set : S → Bytes → Bytes → Bool × S
  service_set s key value = api.put s key value

  abbrev pub service_get : ℕ → S → Bytes → Bytes → Bool × Bytes × S
  service_get now s key value = api.get now s key value

  abbrev pub service_del : S → Bytes → Bool × S
  service_del s key = api.remove s key

  abbrev pub service_ttl : ℕ → S → Bytes → ℤ
  service_ttl now s key = api.ttl now s key

  abbrev pub service_expire : ℕ → S → Bytes → ℕ → Bool × S
  service_expire now s key ts = api.expire now s key ts

module _ {S : Type 0} where
  unfoldable pub guarded : Session → S → Reply × S → Reply × S
  guarded session s rest = elim (check_session session) [
    | some refusal ↦ (refusal, s)
    | none ↦ rest
  ]

  -- `if (blp::config::model != "master")`, in the handlers of `set` and `del`.
  unfoldable pub on_master : Bytes → Bytes → S → Reply × S → Reply × S
  on_master model text s rest = if same model (codes "master") then rest else (error_reply text, s)

module _ {S : Type 0} (api : StorageApi S) where
  unfoldable pub get_args : ℕ → S → List Bytes → Reply × S
  get_args now s (name ∷ key ∷ []) =
      let (found, value, s') = service_get api now s key [] in
      (if found then string_reply value else null_reply, s')
  get_args now s args = (wrong_count (codes "Expect 1 arg for 'get', actually ") args, s)

  unfoldable pub set_args : S → List Bytes → Reply × S
  set_args s (name ∷ key ∷ value ∷ []) =
      let (ok, s') = service_set api s key value in
      (
        if ok
            then status_reply (codes "OK")
            else error_reply (codes "Failed to set key '" ++ (c_str key ++ codes "'")),
        s',
      )
  set_args s args = (wrong_count (codes "Expect 2 args for 'set', actually ") args, s)

  unfoldable pub del_args : S → List Bytes → Reply × S
  del_args s (name ∷ key ∷ []) =
      let (ok, s') = service_del api s key in
      (if ok then status_reply (codes "OK") else null_reply, s')
  del_args s args = (wrong_count (codes "Expect 1 arg for 'del', actually ") args, s)

  unfoldable pub ttl_args : ℕ → S → List Bytes → Reply × S
  ttl_args now s (name ∷ key ∷ []) = (integer_reply (service_ttl api now s key), s)
  ttl_args now s args = (wrong_count (codes "Expect 1 arg for 'ttl', actually ") args, s)

  -- The seconds are read by `std::stoll`, whose exception is caught.
  unfoldable pub expire_seconds : ℕ → S → Bytes → Option ℤ → Reply × S
  expire_seconds now s key none = (error_reply (codes "Invalid expire time"), s)
  expire_seconds now s key (some seconds) =
      let (ok, s') = service_expire api now s key (seconds64 seconds) in
      (integer_reply (if ok then pos 1 else pos 0), s')

  unfoldable pub expire_args : ℕ → S → List Bytes → Reply × S
  expire_args now s (name ∷ key ∷ value ∷ []) = expire_seconds now s key (stoll value)
  expire_args now s args = (wrong_count (codes "Expect 2 arg for 'expire', actually ") args, s)

-- The `Run` of the handlers that work on the storage.
module _ {S : Type 0} (api : StorageApi S) where
  abbrev pub run_get : ℕ → Session → S → List Bytes → Reply × S
  run_get now session s args = guarded session s (get_args api now s args)

  abbrev pub run_set : Bytes → Session → S → List Bytes → Reply × S
  run_set model session s args =
      on_master model (codes "slaver can not run 'set' command") s
        (guarded session s (set_args api s args))

  abbrev pub run_del : Bytes → Session → S → List Bytes → Reply × S
  run_del model session s args =
      on_master model (codes "slaver can not run 'del' command") s
        (guarded session s (del_args api s args))

  abbrev pub run_ttl : ℕ → Session → S → List Bytes → Reply × S
  run_ttl now session s args = guarded session s (ttl_args api now s args)

  abbrev pub run_expire : ℕ → Session → S → List Bytes → Reply × S
  run_expire now session s args = guarded session s (expire_args api now s args)

-- The handlers, and a call of one.
pub data Handler : Type 0 where
  auth_handler get_handler set_handler del_handler ttl_handler expire_handler : Handler

pub record Request : Type 0 where
  pub time : ℕ
  pub handler : Handler
  pub args : List Bytes

-- The session behind a request: only the handler of `auth` sets it.
unfoldable pub next_session : Request → Session → Session
next_session r session = elim r.handler [
  | auth_handler ↦ (run_auth session r.args).1
  | get_handler ↦ session
  | set_handler ↦ session
  | del_handler ↦ session
  | ttl_handler ↦ session
  | expire_handler ↦ session
]

-- A connection, with the storage behind the service.
pub record Connection (S : Type 0) : Type 0 where
  pub session : Session
  pub storage : S

module _ {S : Type 0} (api : StorageApi S) (model : Bytes) where
  -- A call of a handler, as brpc makes it.
  unfoldable pub run : Request → Session → S → Reply × S
  run r session s = elim r.handler [
    | auth_handler ↦ ((run_auth session r.args).0, s)
    | get_handler ↦ run_get api r.time session s r.args
    | set_handler ↦ run_set api model session s r.args
    | del_handler ↦ run_del api model session s r.args
    | ttl_handler ↦ run_ttl api r.time session s r.args
    | expire_handler ↦ run_expire api r.time session s r.args
  ]

  unfoldable pub answer : Connection S → Request → Reply × Connection S
  answer c r =
      let (reply, s) = run r c.session c.storage in
      (reply, record { session = next_session r c.session; storage = s })

  -- The replies to the requests of a connection, in order.
  unfoldable pub answer_all : Connection S → List Request → List Reply × Connection S
  answer_all c [] = ([], c)
  answer_all c (r ∷ requests) =
      let (reply, c') = answer c r in
      let (replies, end) = answer_all c' requests in (reply ∷ replies, end)
