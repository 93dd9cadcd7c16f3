-- ===== src/Config/Fields.antt =====
-- What one assignment does to the registered fields.
use blp_cache.Decimal.{to_string}
use blp_cache.Config.{
  number, Value, int16, Field, convert, FieldMap, store_field, assign, find_field, set_value,
}
use blp_cache.Decimal.RoundTrip.{stoi-to_string}
use blp_cache.Prelude.Int.{pos}
use blp_cache.Prelude.{
  Bytes, Option, Option-cases, [], arith, codes, false, if◌then◌else◌, inl, inr, lt_or_le, none,
  refl, same, same_iff, some, true, ℕ, ◌%◌, ◌<◌, ◌^◌, ◌↔◌, ◌∷◌, ◌≡◌, ◌⊎◌,
}

int16_iff : (n : ℕ) → (int16 (pos n) ≡ pos n) ↔ (n < 32768)
unfolding int16
int16_iff n = (
  λ p. elim (lt_or_le (n % 65536) 32768) [ inl e ↦ ground arith | inr e ↦ ground arith ],
  λ p. let low : n % 65536 ≡ n = omega arith in ground arith,
)

module _ {Double : Type 0} where
  find_field-store_field :
      (fields : FieldMap Double) (key j : Bytes) (f g : Field Double)
      → find_field fields key ≡ some g
      → find_field (store_field fields key f) j
        ≡ (if same key j then some f else find_field fields j)
  unfolding find_field store_field
  find_field-store_field [] key j f g h = cc
  find_field-store_field ((name, x) ∷ fields) key j f g h = ground (
    arith,
    same_iff name key,
    same_iff key j,
    same_iff name j,
    find_field-store_field fields key j f g,
  )

module _ {Double : Type 0} (stod : Bytes → Option Double) where
  -- An assignment to a key that no field has changes nothing and goes on. Of a field that refuses the
  -- value nothing changes, and `init` ends with an exception. Else the field under the key, and no other,
  -- holds the converted value, and keeps its kind, its name and its default.
  pub assign_lem :
      (fields : FieldMap Double) (key value : Bytes)
      → ((find_field fields key ≡ none) × (assign stod fields key value ≡ (true, fields)))
        ⊎ ((g : Field Double) × (find_field fields key ≡ some g)
            × (((convert stod g.kind g.stored value ≡ none)
                  × (assign stod fields key value ≡ (false, fields)))
                ⊎ ((v : Value Double) × (convert stod g.kind g.stored value ≡ some v)
                    × ((assign stod fields key value).0 ≡ true)
                    × ((j : Bytes)
                        → find_field (assign stod fields key value).1 j ≡ (
                            if same key j
                            then some (record g { stored = v })
                            else find_field fields j)))))
  unfolding assign set_value
  assign_lem fields key value = elim (Option-cases (find_field fields key)) [
    | inl e ↦ inl (e, rw (e, assign) refl)
    | inr (g, e) ↦ inr (
      g,
      e,
      elim (Option-cases (convert stod g.kind g.stored value)) [
        | inl f ↦ inl (f, rw (e, assign, f) refl)
        | inr (v, f) ↦ inr (
          v,
          f,
          rw (e, assign, f) refl,
          λ j.
              rw (e, assign, f) (find_field-store_field fields key j (record g { stored = v }) g e),
        )
      ],
    )
  ]

  -- A field of 16 bits takes the digits of any number below 2 ^ 31 and stores its lowest 16 bits as a
  -- signed number: the number itself exactly where it is below 32768.
  pub set_value-int16 :
      (g : Field Double) (n : ℕ)
      → g.kind ≡ codes "int16_t"
      → n < 2 ^ 31
      → (set_value stod g (to_string n) ≡ some (record g { stored = number (int16 (pos n)) }))
        × ((int16 (pos n) ≡ pos n) ↔ (n < 32768))
  unfolding set_value convert same
  set_value-int16 g n e h = (rw (e, set_value, stoi-to_string n h) refl, int16_iff n)
