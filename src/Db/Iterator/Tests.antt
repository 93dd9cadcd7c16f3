-- ===== src/Db/Iterator/Tests.antt =====
-- A database that is a list of entries, and a round of the cleaner over it.
use blp_cache.Db.Memory.{log}
use blp_cache.Db.Iterator.Sweep.{cleaner_round-swept}
use blp_cache.Decimal.{in_unsigned, read_number, stoull}
use blp_cache.Db.{split_tab, Storage, impl_get, IsLevelDb, LevelDb}
use blp_cache.Db.Cleaner.{visible, AlwaysDeletes}
use blp_cache.Db.Iterator.{cleaner_round, Iterates, find_value}
use blp_cache.Prelude.{
  All, Bool-cases, Bytes, List, [], ap, arith, codes, false, if◌then◌else◌, inl, inr, min, none,
  refl, same, same_refl, same→eq, some, sym, true, ◌+◌, ◌∙◌, ◌∷◌, ◌≡◌,
}

-- A key can stand in the list more than once: its first value counts.
abbrev drop_key : Bytes → List (Bytes × Bytes) → List (Bytes × Bytes)
drop_key key [] = []
drop_key key ((k, v) ∷ entries) =
    let later = drop_key key entries in if same key k then later else (k, v) ∷ later

abbrev current_entries : List (Bytes × Bytes) → List (Bytes × Bytes)
current_entries [] = []
current_entries ((k, v) ∷ entries) = (k, v) ∷ drop_key k (current_entries entries)

abbrev listed : LevelDb
listed = record {
  Database = List (Bytes × Bytes);
  db_get = λ d k. find_value k d;
  db_put = λ d k v. (true, (k, v) ∷ d);
  db_delete = λ d k. (true, drop_key k d);
}

find_value-drop_key :
    (k j : Bytes) (d : List (Bytes × Bytes))
    → find_value j (drop_key k d) ≡ (if same k j then none else find_value j d)
find_value-drop_key k j [] = ground arith
find_value-drop_key k j ((i, v) ∷ d) = elim (Bool-cases (same k i)) [
  | inl e ↦
      rw (e, find_value-drop_key k j d, ap (λ (x : Bytes). same x j) (sym (same→eq k i e)))
        (ground arith)
  | inr e ↦ elim (Bool-cases (same i j)) [
    | inl g ↦
        let other : same k j ≡ false = ap (same k) (sym (same→eq i j g)) ∙ e in
        rw (e, other, g) refl
    | inr g ↦ rw (e, g) (find_value-drop_key k j d)
  ]
]

listed-IsLevelDb : IsLevelDb listed
listed-IsLevelDb = record {
  get-put = λ d k v j ok. refl;
  get-delete = λ d k j ok. find_value-drop_key k j d;
}

listed-AlwaysDeletes : AlwaysDeletes listed
listed-AlwaysDeletes = record { deletes = λ d k. refl }

find_value-current_entries :
    (j : Bytes) (d : List (Bytes × Bytes)) → find_value j (current_entries d) ≡ find_value j d
find_value-current_entries j [] = refl
find_value-current_entries j ((k, v) ∷ d) =
    rw (find_value-drop_key k j (current_entries d), find_value-current_entries j d) (ground arith)

-- The entries behind the first do not have its key, and so keep their values.
All-drop_key :
    (k v : Bytes) (d es : List (Bytes × Bytes))
    → All (λ (e : Bytes × Bytes). find_value e.0 d ≡ some e.1) es
    → All (λ (e : Bytes × Bytes). find_value e.0 ((k, v) ∷ d) ≡ some e.1) (drop_key k es)
All-drop_key k v d [] h = tt
All-drop_key k v d ((i, w) ∷ es) (e, h) = elim (Bool-cases (same k i)) [
  | inl f ↦ rw f (All-drop_key k v d es h)
  | inr f ↦ rw f ((rw f e), All-drop_key k v d es h)
]

entries_stored :
    (d : List (Bytes × Bytes))
    → All (λ (e : Bytes × Bytes). find_value e.0 d ≡ some e.1) (current_entries d)
entries_stored [] = tt
entries_stored ((k, v) ∷ d) =
    (rw (same_refl k) refl, All-drop_key k v d (current_entries d) (entries_stored d))

listed-Iterates : Iterates listed
listed-Iterates = record {
  db_entries = current_entries;
  entries_stored = entries_stored;
  entries_complete = λ d k. find_value-current_entries k d;
}

-- The first key expired at second 50; the other never does.
abbrev shelf : Storage listed
shelf = record {
  database = (codes "k", codes "v\t50\t-1") ∷ (codes "m", codes "w\t-1") ∷ [];
  is_open = true;
  aof = log;
}

cleaner_round-swept_example :
    (impl_get (cleaner_round listed-Iterates (λ n. min (60 + n) 62) shelf) (codes "k") ≡ none)
    × ((j : Bytes)
        → visible 70 (cleaner_round listed-Iterates (λ n. min (60 + n) 62) shelf) j
          ≡ visible 70 shelf j)
unfolding impl_get same split_tab stoull read_number in_unsigned
cleaner_round-swept_example =
    cleaner_round-swept listed-IsLevelDb listed-AlwaysDeletes listed-Iterates 60 70
      (λ n. min (60 + n) 62) 50 shelf (codes "k") (codes "v\t50\t-1") (codes "v") (codes "50\t-1")
      refl (λ n. omega arith) (λ n. omega arith) refl refl refl refl (omega arith)
