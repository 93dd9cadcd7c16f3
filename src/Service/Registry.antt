-- ===== src/Service/Registry.antt =====
-- `init_redis_service` of src/service/service.cpp, with the constructor and `AddCommandHandler` of
-- src/service/redis_service.cpp. brpc's own table of handlers is a parameter.
use blp_cache.Service.{
  Handler, auth_handler, get_handler, set_handler, del_handler, ttl_handler, expire_handler,
}
use blp_cache.Db.{Storage, LevelDb}
use blp_cache.Prelude.{
  Bool-cases, Bytes, List, Option, [], ap, codes, false, if◌then◌else◌, inl, inr, none, refl, same,
  same_refl, same→eq, some, sym, true, ◌∙◌, ◌∷◌, ◌≡◌, ◌>>=◌,
}

-- What the source calls of brpc: `RedisService::AddCommandHandler`, with the search that brpc makes for
-- the name of a command.
pub record Brpc : Type 1 where
  pub Table : Type 0
  pub add : Table → Bytes → Handler → Table
  pub find : Table → Bytes → Option Handler

-- A handler that is added under a new name is found under it, and the others as before.
pub record IsBrpc (b : Brpc) : Type 0 where
  pub find_add :
      (t : b.Table) (name other : Bytes) (h : Handler)
      → b.find t name ≡ none
      → b.find (b.add t name h) other ≡ (if same name other then some h else b.find t other)

module _ (b : Brpc) (l : LevelDb) where
  -- `RedisServiceImpl`, with the part of it that brpc keeps.
  pub record RedisService : Type 0 where
    pub db : Storage l
    pub command_handlers : List (Bytes × Handler)
    pub table : b.Table

unfoldable pub put_handler : Bytes → Handler → List (Bytes × Handler) → List (Bytes × Handler)
put_handler command handler [] = (command, handler) ∷ []
put_handler command handler ((name, h) ∷ handlers) =
    let rest = (name, h) ∷ put_handler command handler handlers in
    if same command name then (name, handler) ∷ handlers else rest

-- The commands that `init_redis_service` adds, in order.
abbrev pub all_handlers : List (Bytes × Handler)
all_handlers =
    (codes "auth", auth_handler)
    ∷ (codes "get", get_handler)
    ∷ (codes "set", set_handler)
    ∷ (codes "del", del_handler)
    ∷ (codes "ttl", ttl_handler)
    ∷ (codes "expire", expire_handler)
    ∷ []

module _ {b : Brpc} {l : LevelDb} where
  -- The constructor; `none` is the exception for a null pointer.
  unfoldable pub new_service : b.Table → Option (Storage l) → Option (RedisService b l)
  new_service table none = none
  new_service table (some db) = some (record { db = db; command_handlers = []; table = table })

  unfoldable pub add_command_handler : Bytes → Handler → RedisService b l → RedisService b l
  add_command_handler command handler s = record s {
    command_handlers = put_handler command handler s.command_handlers;
    table = b.add s.table command handler;
  }

  unfoldable pub register_handlers : List (Bytes × Handler) → RedisService b l → RedisService b l
  register_handlers [] s = s
  register_handlers ((command, handler) ∷ handlers) s =
      register_handlers handlers (add_command_handler command handler s)

  unfoldable pub init_redis_service : b.Table → Option (Storage l) → Option (RedisService b l)
  init_redis_service table db = do s ← new_service table db; some (register_handlers all_handlers s)

abbrev pub lookup : Bytes → List (Bytes × Handler) → Option Handler
lookup other [] = none
lookup other ((name, h) ∷ handlers) =
    let later = lookup other handlers in if same name other then some h else later

lookup-put_handler :
    (command other : Bytes) (h : Handler) (handlers : List (Bytes × Handler))
    → lookup other (put_handler command h handlers)
      ≡ (if same command other then some h else lookup other handlers)
unfolding put_handler
lookup-put_handler command other h [] = refl
lookup-put_handler command other h ((name, g) ∷ handlers) = elim (Bool-cases (same command name)) [
  | inl e ↦
      let same_name = same→eq command name e in
      rw (e, same_name)
        (elim (Bool-cases (same name other)) [ inl f ↦ rw f refl | inr f ↦ rw f refl ])
  | inr e ↦ rw e (elim (Bool-cases (same name other)) [
    | inl f ↦ rw f (elim (Bool-cases (same command other)) [
      | inl g ↦
          absurd (
            true_ne
              (sym (rw (same→eq command other g, same→eq name other f) (same_refl other)) ∙ e))
      | inr g ↦ rw g refl
    ])
    | inr f ↦ rw f (lookup-put_handler command other h handlers)
  ])
]
  where
    true_ne : true ≡ false → ⊥
    true_ne h = cc

abbrev AreNew : List (Bytes × Handler) → List (Bytes × Handler) → Type 0
AreNew [] owned = Unit
AreNew ((command, h) ∷ handlers) owned =
    (lookup command owned ≡ none) × AreNew handlers (put_handler command h owned)

module _ {b : Brpc} {l : LevelDb} (laws : IsBrpc b) where
  -- brpc finds the handlers that the service owns.
  abbrev Agrees : RedisService b l → Type 0
  Agrees s = (name : Bytes) → b.find s.table name ≡ lookup name s.command_handlers

  register_handlers-Agrees :
      (handlers : List (Bytes × Handler)) (s : RedisService b l)
      → Agrees s
      → AreNew handlers s.command_handlers
      → Agrees (register_handlers handlers s)
  unfolding register_handlers add_command_handler
  register_handlers-Agrees [] s v new = v
  register_handlers-Agrees ((command, h) ∷ handlers) s v (absent, new) =
      register_handlers-Agrees handlers (add_command_handler command h s)
        (λ name.
          laws.find_add s.table command name h (v command ∙ absent)
          ∙ ap (λ (o : Option Handler). if same command name then some h else o) (v name)
          ∙ sym (lookup-put_handler command name h s.command_handlers))
        new

  -- Over a table of brpc without a handler, and a database that is there: the service is made, and brpc
  -- finds for each of the six names the handler of that name, which the service owns, and none for any
  -- other name.
  pub init_redis_service-finds :
      (table : b.Table) (db : Storage l) (name : Bytes)
      → ((other : Bytes) → b.find table other ≡ none)
      → (s : RedisService b l) × (init_redis_service table (some db) ≡ some s)
        × (s.db ≡ db)
        × (s.command_handlers ≡ all_handlers)
        × (b.find s.table name ≡ lookup name all_handlers)
  unfolding init_redis_service new_service register_handlers add_command_handler put_handler same
  init_redis_service-finds table db name fresh =
      let blank : RedisService b l = record { db = db; command_handlers = []; table = table } in
      let agrees =
        register_handlers-Agrees all_handlers blank fresh
          (refl, (refl, (refl, (refl, (refl, (refl, tt)))))) in
      (register_handlers all_handlers blank, refl, refl, refl, agrees name)
