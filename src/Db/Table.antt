-- ===== src/Db/Table.antt =====
-- What the storage promises its clients: a table from keys to values with a time of expiry. An entry whose
-- time has come is there, and not to be seen, until a `get` or the cleaner takes it out.
use blp_cache.Db.Interface.{StorageApi}
use blp_cache.Db.{never, signed64}
use blp_cache.Prelude.Int.{ℤ, negsuc}
use blp_cache.Prelude.{
  Bool, Bytes, Option, [], false, if◌then◌else◌, leb, none, same, some, true, ℕ, ◌%◌, ◌+◌, ◌-◌,
  ◌==◌, ◌^◌,
}

pub record Entry : Type 0 where
  pub value : Bytes
  pub expires : ℕ

abbrev pub Table : Type 0
Table = Bytes → Option Entry

abbrev pub update : Table → Bytes → Option Entry → Table
update t k o j = if same k j then o else t j

-- Whether the time of an entry has come.
abbrev pub is_over : ℕ → Entry → Bool
is_over now e = if e.expires == never then false else leb e.expires now

abbrev pub table_get : ℕ → Table → Bytes → Bytes → Bool × Bytes × Table
table_get now t k x = elim (t k) [
  | none ↦ (false, x, t)
  | some e ↦ if is_over now e then (false, [], update t k none) else (true, e.value, t)
]

abbrev pub table_ttl : ℕ → Table → Bytes → ℤ
table_ttl now t k = elim (t k) [
  | none ↦ negsuc 1
  | some e ↦
      if e.expires == never
      then negsuc 0
      else if leb e.expires now
      then negsuc 1
      else signed64 (e.expires - now)
]

abbrev pub table_expire : ℕ → Table → Bytes → ℕ → Bool × Table
table_expire now t k ts = elim (t k) [
  | none ↦ (false, t)
  | some e ↦ (true, update t k (some (record { value = e.value; expires = (now + ts) % 2 ^ 64 })))
]

abbrev pub table : StorageApi Table
table = record {
  put = λ t k v. (true, update t k (some (record { value = v; expires = never })));
  get = table_get;
  remove = λ t k. (true, update t k none);
  ttl = table_ttl;
  expire = table_expire;
}
