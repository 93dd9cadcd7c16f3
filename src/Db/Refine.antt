-- ===== src/Db/Refine.antt =====
-- The storage implements the table: each operation answers as the table does, and keeps the two alike.
use blp_cache.Db.Split.{
  stoull-forever, split_tab-suffix, LacksTab, stoull-timed, split_tab-timed, timed, split_tab-some,
}
use blp_cache.Db.Expiry.{expire-present, expire-missing}
use blp_cache.Db.Interface.{Simulation}
use blp_cache.Db.Wrapper.{wrapper}
use blp_cache.Db.Table.{table, is_over, table_get, table_ttl, table_expire, Entry, Table, update}
use blp_cache.Db.Cleaner.{AlwaysDeletes}
use blp_cache.Db.Values.{
  get-stored, ttl-stored, get-missing, ttl-missing, impl_get-impl_remove, impl_get-put,
  impl_get-remove,
}
use blp_cache.Decimal.{to_string, stoull}
use blp_cache.Db.{
  never, tab, ttl_until, get, get_until, ttl, expire, log_command, forever_suffix, split_tab, put,
  remove, impl_get, impl_put, impl_remove, Storage, LevelDb, IsLevelDb,
}
use blp_cache.Aof.{Aof}
use blp_cache.Prelude.{
  Bool, Bool-cases, Bytes, Option, Option-cases, [], ap, arith, false, if◌then◌else◌, inl, inr,
  none, refl, same, some, subst, sym, true, ℕ, ◌%◌, ◌++◌, ◌+◌, ◌^◌, ◌∙◌, ◌∷◌, ◌≡◌,
}

-- Writing a key never fails.
pub record AlwaysPuts (l : LevelDb) : Type 0 where
  pub puts : (d : l.Database) (k v : Bytes) → (l.db_put d k v).0 ≡ true

-- A stored text that stands for an entry.
pub record Stores (w : Bytes) (e : Entry) : Type 0 where
  pub behind : Bytes
  pub parts : split_tab w ≡ some (e.value, behind)
  pub time : stoull behind ≡ some e.expires

abbrev pub Holds : Option Bytes → Option Entry → Type 0
Holds none none = Unit
Holds none (some e) = ⊥
Holds (some w) none = ⊥
Holds (some w) (some e) = Stores w e

pub record Represents {l : LevelDb} (s : Storage l) (t : Table) : Type 0 where
  pub opened : s.is_open ≡ true
  pub holds : (k : Bytes) → Holds (impl_get s k) (t k)

pub Holds-if :
    (b : Bool) (o p : Option Bytes) (q r : Option Entry)
    → Holds o q
    → Holds p r
    → Holds (if b then o else p) (if b then q else r)
Holds-if true o p q r h i = h
Holds-if false o p q r h i = i

module _ {l : LevelDb} (law : IsLevelDb l) (puts : AlwaysPuts l) (deletes : AlwaysDeletes l)
    (wake : Aof → Aof) where
  pub put-ok :
      (s : Storage l) (k v : Bytes)
      → s.is_open ≡ true
      → ((put wake s k v).0 ≡ true) × ((put wake s k v).1.is_open ≡ true)
  unfolding put impl_put log_command
  put-ok s k v o = rw o (puts.puts _ k _, refl)

  pub remove-ok :
      (s : Storage l) (k : Bytes)
      → s.is_open ≡ true
      → ((remove wake s k).0 ≡ true) × ((remove wake s k).1.is_open ≡ true)
  unfolding remove impl_remove log_command
  remove-ok s k o = rw o (deletes.deletes _ k, refl)

  impl_remove-ok :
      (s : Storage l) (k : Bytes)
      → s.is_open ≡ true
      → ((impl_remove s k).0 ≡ true) × ((impl_remove s k).1.is_open ≡ true)
  unfolding impl_remove
  impl_remove-ok s k o = rw o (deletes.deletes _ k, refl)

  -- A put of a text that stands for an entry.
  put-Represents :
      (s : Storage l) (t : Table) (k v : Bytes) (e : Entry)
      → Represents s t
      → Stores (v ++ forever_suffix) e
      → ((put wake s k v).0 ≡ true) × Represents (put wake s k v).1 (update t k (some e))
  put-Represents s t k v e r stores =
      let (ok, open_still) = put-ok s k v r.opened in
      (
        ok,
        record {
          opened = open_still;
          holds = λ j.
              subst (λ (o : Option Bytes). Holds o (update t k (some e) j))
                (sym (impl_get-put law wake s k v j ok))
                (Holds-if (same k j) (some (v ++ forever_suffix)) (impl_get s j) (some e) (t j)
                  stores (r.holds j));
        },
      )

  remove-Represents :
      (s : Storage l) (t : Table) (k : Bytes)
      → Represents s t
      → ((remove wake s k).0 ≡ true) × Represents (remove wake s k).1 (update t k none)
  remove-Represents s t k r =
      let (ok, open_still) = remove-ok s k r.opened in
      (
        ok,
        record {
          opened = open_still;
          holds = λ j.
              subst (λ (o : Option Bytes). Holds o (update t k none j))
                (sym (impl_get-remove law wake s k j ok))
                (Holds-if (same k j) none (impl_get s j) none (t j) tt (r.holds j));
        },
      )

  impl_remove-Represents :
      (s : Storage l) (t : Table) (k : Bytes)
      → Represents s t
      → Represents (impl_remove s k).1 (update t k none)
  impl_remove-Represents s t k r =
      let (ok, open_still) = impl_remove-ok s k r.opened in
      record {
        opened = open_still;
        holds = λ j.
            subst (λ (o : Option Bytes). Holds o (update t k none j))
              (sym (impl_get-impl_remove law s k j ok))
              (Holds-if (same k j) none (impl_get s j) none (t j) tt (r.holds j));
      }

  -- What is stored under a key that the table has.
  entry_at :
      (s : Storage l) (t : Table) (k : Bytes) (e : Entry)
      → Represents s t
      → t k ≡ some e
      → (w : Bytes) × (impl_get s k ≡ some w) × Stores w e
  entry_at s t k e r at = elim (Option-cases (impl_get s k)) [
    | inl f ↦ absurd (
        subst (λ (q : Option Entry). Holds none q) at
          (subst (λ (o : Option Bytes). Holds o (t k)) f (r.holds k)))
    | inr (w, f) ↦ (
      w,
      f,
      subst (λ (q : Option Entry). Holds (some w) q) at
          (subst (λ (o : Option Bytes). Holds o (t k)) f (r.holds k)),
    )
  ]

  nothing_at :
      (s : Storage l) (t : Table) (k : Bytes) → Represents s t → t k ≡ none → impl_get s k ≡ none
  nothing_at s t k r at = elim (Option-cases (impl_get s k)) [
    | inl f ↦ f
    | inr (w, f) ↦ absurd (
        subst (λ (q : Option Entry). Holds (some w) q) at
          (subst (λ (o : Option Bytes). Holds o (t k)) f (r.holds k)))
  ]

  get_until-is_over :
      (now : ℕ) (s : Storage l) (k w : Bytes) (e : Entry)
      → get_until now s k w e.value (some e.expires)
        ≡ (if is_over now e then (false, [], (impl_remove s k).1) else (true, e.value, s))
  unfolding get_until
  get_until-is_over now s k w e = ground arith

  -- `get` shows what the table shows.
  get-Represents :
      (now : ℕ) (s : Storage l) (t : Table) (k : Bytes)
      → Represents s t
      → ((get now s k []).0 ≡ (table_get now t k []).0)
        × ((get now s k []).1 ≡ (table_get now t k []).1)
        × Represents (get now s k []).2 (table_get now t k []).2
  get-Represents now s t k r = elim (Option-cases (t k)) [
    | inl at ↦
        let missing = get-missing now s k (nothing_at s t k r at) in
        rw (missing, at, table_get) (refl, refl, r)
    | inr (e, at) ↦
        let (w, f, stores) = entry_at s t k e r at in
        let shown =
          get-stored now s k [] w e.value stores.behind f stores.parts
          ∙ ap (get_until now s k w e.value) stores.time
          ∙ get_until-is_over now s k w e in
        elim (Bool-cases (is_over now e)) [
          | inl over ↦ rw (shown, at, table_get, over) (refl, refl, impl_remove-Represents s t k r)
          | inr over ↦ rw (shown, at, table_get, over) (refl, refl, r)
        ]
  ]

  ttl-Represents :
      (now : ℕ) (s : Storage l) (t : Table) (k : Bytes)
      → Represents s t
      → ttl now s k ≡ table_ttl now t k
  ttl-Represents now s t k r = elim (Option-cases (t k)) [
    | inl at ↦ ttl-missing now s k (nothing_at s t k r at) ∙ (rw (at, table_ttl) refl)
    | inr (e, at) ↦
        let (w, f, stores) = entry_at s t k e r at in
        ttl-stored now s k w e.value stores.behind f stores.parts
        ∙ ap (ttl_until now) stores.time
        ∙ (unfold ttl_until in rw (at, table_ttl) refl)
  ]

  expire-Represents :
      (now ts : ℕ) (s : Storage l) (t : Table) (k : Bytes)
      → Represents s t
      → ((expire wake now s k ts).0 ≡ (table_expire now t k ts).0)
        × Represents (expire wake now s k ts).1 (table_expire now t k ts).1
  expire-Represents now ts s t k r = elim (Option-cases (t k)) [
    | inl at ↦
        rw (expire-missing wake now ts s k (nothing_at s t k r at), at, table_expire) (refl, r)
    | inr (e, at) ↦
        let (w, f, stores) = entry_at s t k e r at in
        let later = (now + ts) % 2 ^ 64 in
        let (clean, _) = split_tab-some w e.value stores.behind stores.parts in
        let timed_entry : Stores (timed e.value later)
            (record { value = e.value; expires = later }) =
          record {
            behind = _;
            parts = split_tab-timed e.value later clean;
            time = stoull-timed later (omega arith);
          } in
        rw (expire-present wake now ts s k w e.value stores.behind f stores.parts, at, table_expire)
          (put-Represents s t k (e.value ++ (tab ∷ to_string later)) _ r timed_entry)
  ]

  -- The storage over a LevelDB whose writes succeed implements the table, for values without a tab: each
  -- operation gives the same results, and leaves storage and table alike.
  pub wrapper-Simulation : Simulation (wrapper {l = l} wake) table Represents LacksTab
  wrapper-Simulation = record {
    put_alike = λ s t k v clean r.
        let (ok, kept) =
          put-Represents s t k v (record { value = v; expires = never }) r
            (record { behind = _; parts = split_tab-suffix v clean; time = stoull-forever }) in
        (ok, kept);
    get_alike = λ now s t k r. get-Represents now s t k r;
    remove_alike = λ s t k r. remove-Represents s t k r;
    ttl_alike = λ now s t k r. ttl-Represents now s t k r;
    expire_alike = λ now ts s t k r. expire-Represents now ts s t k r;
  }
