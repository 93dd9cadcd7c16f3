-- ===== src/Program/Start.antt =====
-- A process that serves has a log and a storage that meet what the other parts ask for.
use blp_cache.Config.{text, Field, find_field, FieldMap}
use blp_cache.Db.Setup.{open_options, new_storage, impl_init, init_db, LevelDbCalls}
use blp_cache.Db.{Storage, LevelDb}
use blp_cache.Aof.{Aof, make}
use blp_cache.Program.{
  as_replica, main_at, as_master, main, start_log, text_of, number_of, role_of, Environment,
  start_storage, Served, Role, main_options, serve_as, serves,
}
use blp_cache.Aof.System.{Reach, System, gathering}
use blp_cache.Aof.System.Faithful.{Reach-IsFaithful, IsFaithful}
use blp_cache.Aof.System.Synced.{Reach-IsSynced, IsSynced}
use blp_cache.Config
use mathlib.Core.Option.{get_or}
use blp_cache.Prelude.{
  Bool, Bool-cases, Bytes, Option, Option-cases, [], ap, arith, codes, false, inl, inr, length,
  none, refl, same, same→eq, some, subst, sym, true, ℕ, ◌++◌, ◌↔◌, ◌∙◌, ◌≡◌,
}

-- The log with its thread at the start, over a file that is all on the disk.
abbrev pub started : Aof → Bytes → System
started log file = record {
  aof = log;
  batch = [];
  file = file;
  synced = length file;
  last_fsync = 0;
  phase = gathering;
  accepted = [];
}

abbrev pub fresh_log : ℕ → Aof
fresh_log end = record {
  opts = main_options;
  queue = [];
  stop_flag = false;
  listeners = [];
  fd_open = true;
  writer_started = true;
  written_offset = end;
}

made :
    (opens : Bool) (end : ℕ) (log : Aof)
    → make main_options opens (some end) ≡ some log
    → log ≡ fresh_log end
unfolding make
made true end log h = cc
made false end log h = cc

fresh_log-IsFaithful : (file : Bytes) → IsFaithful file (started (fresh_log (length file)) file)
fresh_log-IsFaithful file = record {
  bytes = refl;
  idle = λ _. refl;
  over = λ e. cc;
  offset = omega arith;
  some_entries = omega arith;
  some_bytes = omega arith;
}

fresh_log-IsSynced : (file : Bytes) → IsSynced (started (fresh_log (length file)) file)
fresh_log-IsSynced file = record { each_batch = refl; all_synced = λ _. refl; within = omega arith }

-- The role is told by the model, and by nothing else.
role_of-told :
    (model : Bytes) (role : Role)
    → role_of model ≡ some role
    → ((role ≡ as_master) ↔ (same model (codes "master") ≡ true))
      × ((role ≡ as_replica) ↔ (same model (codes "replicate") ≡ true))
unfolding role_of
role_of-told model role h = elim (Bool-cases (same model (codes "master"))) [
  | inl e ↦
      let other : same model (codes "replicate") ≡ false =
        ap (λ (m : Bytes). same m (codes "replicate")) (same→eq model (codes "master") e)
        ∙ (unfold same in refl) in
      ((λ _. e, λ _. ground arith), (λ p. ground arith, λ p. ground arith))
  | inr e ↦ elim (Bool-cases (same model (codes "replicate"))) [
    | inl f ↦ ((λ p. ground arith, λ p. ground arith), (λ _. f, λ _. ground arith))
    | inr f ↦ ground arith
  ]
]

module _ {l : LevelDb} where
  serve_as-serves :
      (model : Bytes) (log : Aof) (storage : Storage l) (o : Option Role) (r : Served l)
      → serve_as model log storage o ≡ serves r
      → (r.model ≡ model) × (r.log ≡ log) × (r.storage ≡ storage) × (o ≡ some r.role)
  unfolding serve_as
  serve_as-serves model log storage none r h = cc
  serve_as-serves model log storage (some role) r h = ground arith

module _ {Double : Type 0} (stod : Bytes → Option Double) {l : LevelDb}
    (calls : LevelDbCalls l) where
  init_db-aof :
      (blank : l.Database) (path : Bytes) (log : Aof) (s : Storage l)
      → init_db calls blank path log ≡ some s
      → (s.aof ≡ log) × (s.is_open ≡ true)
  unfolding init_db impl_init new_storage
  init_db-aof blank path log s h =
      elim (Option-cases (calls.db_open (open_options 256 128 2000) path)) [
        | inl e ↦ ground arith
        | inr (d, e) ↦ ground arith
      ]

  start_storage-serves :
      (env : Environment l) (blank : l.Database) (home : Bytes) (fields : FieldMap Double)
      (log : Aof) (r : Served l)
      → start_storage stod calls env blank home fields log ≡ serves r
      → (r.log ≡ log)
        × (r.storage.aof ≡ log)
        × (r.storage.is_open ≡ true)
        × (role_of r.model ≡ some r.role)
        × (r.model ≡ text_of (find_field fields (codes "model")))
  unfolding start_storage
  start_storage-serves env blank home fields log r h =
      elim (Option-cases (init_db calls blank (home ++ codes "/data/db") log)) [
        | inl e ↦ ground arith
        | inr (s, e) ↦
            elim (Bool-cases (env.starts (number_of (find_field fields (codes "port"))))) [
              | inl f ↦
                  let model = text_of (find_field fields (codes "model")) in
                  let step : start_storage stod calls env blank home fields log
                      ≡ serve_as model log s (role_of model) =
                    rw (e, start_storage, f) refl in
                  let (m, g, k, o) = serve_as-serves model log s (role_of model) r (sym step ∙ h) in
                  let (a, p) = init_db-aof blank (home ++ codes "/data/db") log s e in
                  (
                    g,
                    ap (λ (s : Storage l). s.aof) k ∙ a,
                    ap (λ (s : Storage l). s.is_open) k ∙ p,
                    ap role_of m ∙ o,
                    m,
                  )
              | inr f ↦ ground arith
            ]
      ]

  start_log-serves :
      (env : Environment l) (blank : l.Database) (home : Bytes) (fields : FieldMap Double) (end : ℕ)
      (r : Served l)
      → env.aof_end ≡ some end
      → start_log stod calls env blank home fields ≡ serves r
      → (r.log ≡ fresh_log end)
        × (r.storage.aof ≡ r.log)
        × (r.storage.is_open ≡ true)
        × (role_of r.model ≡ some r.role)
        × (r.model ≡ text_of (find_field fields (codes "model")))
  unfolding start_log
  start_log-serves env blank home fields end r at h =
      let file_opens = env.aof_opens (home ++ codes "/data/appendonly.aof") in
      elim (Option-cases (make main_options file_opens env.aof_end)) [
        | inl e ↦ ground arith
        | inr (log, e) ↦
            let step : start_log stod calls env blank home fields
                ≡ start_storage stod calls env blank home fields log =
              rw (e, start_log) refl in
            let (a, b, c, d, m) = start_storage-serves env blank home fields log r (sym step ∙ h) in
            let fresh = made file_opens end log (rw at at e) in (a ∙ fresh, b ∙ sym a, c, d, m)
      ]

  -- The fields behind the configuration file of `BLP_HOME`.
  abbrev pub configured : Environment l → FieldMap Double → Bytes → FieldMap Double
  configured env fields home =
      (blp_cache.Config.init stod (env.conf (home ++ codes "/conf/blp.conf")) fields).1

  main_at-serves :
      (env : Environment l) (blank : l.Database) (fields : FieldMap Double) (home : Option Bytes)
      (end : ℕ) (r : Served l)
      → env.aof_end ≡ some end
      → main_at stod calls env blank fields home ≡ serves r
      → (dir : Bytes) × (home ≡ some dir)
        × (r.log ≡ fresh_log end)
        × (r.storage.aof ≡ r.log)
        × (r.storage.is_open ≡ true)
        × (role_of r.model ≡ some r.role)
        × (r.model ≡ text_of (find_field (configured env fields dir) (codes "model")))
  unfolding main_at
  main_at-serves env blank fields none end r at h = cc
  main_at-serves env blank fields (some home) end r at h =
      let read = blp_cache.Config.init stod (env.conf (home ++ codes "/conf/blp.conf")) fields in
      elim (Bool-cases read.0) [
        | inl ok ↦
            let step : main_at stod calls env blank fields (some home)
                ≡ start_log stod calls env blank home read.1 =
              rw ok refl in
            (let (a, b, c, d, m) = start_log-serves env blank home read.1 end r at (sym step ∙ h) in
              (home, refl, a, b, c, d, m))
        | inr ok ↦ ground arith
      ]

  -- Where `main` comes to serve over a file that is all on the disk, the log is faithful to it and synced
  -- behind each batch after any steps of any threads with no failed write.
  pub main-IsFaithful :
      (env : Environment l) (blank : l.Database) (fields : FieldMap Double) (file : Bytes)
      (r : Served l) (t : System)
      → env.aof_end ≡ some (length file)
      → main stod calls env blank fields ≡ serves r
      → Reach (started r.log file) t
      → IsFaithful file t × IsSynced t
  unfolding main
  main-IsFaithful env blank fields file r t at h reached =
      let (_, _, a, _, _, _, _) = main_at-serves env blank fields env.home (length file) r at h in
      (
        Reach-IsFaithful file
            (subst (λ (g : Aof). IsFaithful file (started g file)) (sym a)
              (fresh_log-IsFaithful file))
            reached,
        Reach-IsSynced
            (subst (λ (g : Aof). IsSynced (started g file)) (sym a) (fresh_log-IsSynced file))
            reached,
      )

  -- Where `main` comes to serve clients, with `BLP_HOME` set, over a file of the log that is all on the disk,
  -- and the field `model` holds a text behind the configuration file: this text is the model that the process
  -- serves with, it runs as a master exactly where the text is "master" and as a replica exactly where it is
  -- "replicate"; the storage is open and logs to this very log; and after any steps of any threads, with no
  -- failed write, the log is faithful to its file and synced behind each batch.
  pub main-serves :
      (env : Environment l) (blank : l.Database) (fields : FieldMap Double)
      (home file model : Bytes) (f : Field Double) (r : Served l) (t : System)
      → env.home ≡ some home
      → find_field (configured env fields home) (codes "model") ≡ some f
      → f.stored ≡ text model
      → env.aof_end ≡ some (length file)
      → main stod calls env blank fields ≡ serves r
      → Reach (started r.log file) t
      → (r.model ≡ model)
        × ((r.role ≡ as_master) ↔ (same model (codes "master") ≡ true))
        × ((r.role ≡ as_replica) ↔ (same model (codes "replicate") ≡ true))
        × (r.storage.is_open ≡ true)
        × (r.storage.aof ≡ r.log)
        × IsFaithful file t
        × IsSynced t
  unfolding main text_of
  main-serves env blank fields home file model f r t at_home field held at h reached =
      let (dir, place, _, b, c, d, m) =
        main_at-serves env blank fields env.home (length file) r at h in
      let same_home : dir ≡ home = ap (λ (o : Option Bytes). get_or o dir) (sym place ∙ at_home) in
      let known : r.model ≡ model =
        m
        ∙ ap (λ (p : Bytes). text_of (find_field (configured env fields p) (codes "model")))
            same_home
        ∙ ap text_of field
        ∙ (rw held refl) in
      let (as_told, as_told') = role_of-told model r.role (ap role_of (sym known) ∙ d) in
      let (faithful, synced) = main-IsFaithful env blank fields file r t at h reached in
      (known, as_told, as_told', c, b, faithful, synced)
