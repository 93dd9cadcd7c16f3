-- ===== src/Protocol/Entity.antt =====
-- Entities are read back, and nothing else is taken for an entity.
use blp_cache.Wire.{
  length-be_bytes, be_value-be_bytes, be_bytes-be_value4, be_bytes-be_value8, be_bytes, be_value,
}
use blp_cache.Protocol.{
  read_cmd, read_value, read_sequence, serialize_entity, put_text, read_key, take_bytes,
  deserialize, DataEntity, take_text,
}
use blp_cache.Prelude.{
  AreBytes, Bool, Bool-cases, Bytes, Option, Option-cases, [], ap, append_assoc, ap₂, arith, drop,
  drop-append_self, inl, inr, leb, leb→le, length, length-append, length-take, le→leb, none, refl,
  some, sym, take, take-append-drop, take-append_self, true, ℕ, ◌%◌, ◌++◌, ◌<◌, ◌^◌, ◌∙◌, ◌∷◌, ◌≡◌,
}

-- What the fields of the class and a length of 32 bits can hold.
pub record IsSmall (e : DataEntity) : Type 0 where
  pub sequence : e.sequence < 2 ^ 64
  pub cmd : length e.cmd < 2 ^ 32
  pub key : length e.key < 2 ^ 32
  pub value : length e.value < 2 ^ 32

serialize_entity-append :
    (e : DataEntity) (r : Bytes)
    → serialize_entity e ++ r
      ≡ be_bytes 8 e.sequence ++ (put_text e.cmd ++ (put_text e.key ++ (put_text e.value ++ r)))
unfolding serialize_entity
serialize_entity-append e r = simp append_assoc

take_bytes-append : (s r : Bytes) (n : ℕ) → length s ≡ n → take_bytes n (s ++ r) ≡ some (s, r)
unfolding take_bytes
take_bytes-append s r n e =
    rw (← e, le→leb (length s) (length (s ++ r)) (omega (arith, length-append s r)))
      (ap₂ (λ (a b : Bytes). some (a, b)) (take-append_self s r) (drop-append_self s r))

take_text-put_text : (s r : Bytes) → length s < 2 ^ 32 → take_text (put_text s ++ r) ≡ some (s, r)
unfolding take_text put_text
take_text-put_text s r h =
    let size = be_bytes 4 (length s % 2 ^ 32) in
    let whole : (size ++ s) ++ r ≡ size ++ (s ++ r) = append_assoc size s r in
    let read : be_value 0 size ≡ length s =
      be_value-be_bytes 4 (length s % 2 ^ 32) (omega arith) ∙ omega arith in
    rw (whole, take_bytes-append size (s ++ r) 4 (length-be_bytes 4 _), read)
      (take_bytes-append s r (length s) refl)

-- An entity whose sequence number is below 2 ^ 64 and whose texts are shorter than 2 ^ 32 bytes is read
-- back from its serialization, whatever bytes its texts hold, whatever follows it, and whatever the
-- object that it is read into held before.
pub deserialize-serialize_entity :
    (old e : DataEntity) (r : Bytes)
    → IsSmall e
    → deserialize old (serialize_entity e ++ r) ≡ (true, e)
unfolding deserialize read_sequence read_cmd read_key read_value
deserialize-serialize_entity old e r small =
    let seq = be_bytes 8 e.sequence in
    rw
      (
        serialize_entity-append e r,
        take_bytes-append seq (put_text e.cmd ++ (put_text e.key ++ (put_text e.value ++ r))) 8
            (length-be_bytes 8 e.sequence),
        be_value-be_bytes 8 e.sequence (omega (arith, small.sequence)),
        take_text-put_text e.cmd (put_text e.key ++ (put_text e.value ++ r)) small.cmd,
        take_text-put_text e.key (put_text e.value ++ r) small.key,
        take_text-put_text e.value r small.value,
      )
      refl

take_bytes-some :
    (n : ℕ) (s a r : Bytes) → take_bytes n s ≡ some (a, r) → (s ≡ a ++ r) × (length a ≡ n)
unfolding take_bytes
take_bytes-some n s a r h = elim (Bool-cases (leb n (length s))) [
  | inl e ↦
      let parts : (take n s ≡ a) × (drop n s ≡ r) = ground arith in
      let long = leb→le n (length s) e in
      (
        sym (take-append-drop n s) ∙ ap₂ (λ (x y : Bytes). x ++ y) parts.0 parts.1,
        omega (arith, ap (λ (t : Bytes). length t) parts.0, length-take n s),
      )
  | inr e ↦ ground arith
]

AreBytes-front : (a r : Bytes) → AreBytes (a ++ r) → AreBytes a
AreBytes-front [] r h = tt
AreBytes-front (b ∷ a) r (h, hs) = (h, AreBytes-front a r hs)

AreBytes-back : (a r : Bytes) → AreBytes (a ++ r) → AreBytes r
AreBytes-back [] r h = h
AreBytes-back (b ∷ a) r (h, hs) = AreBytes-back a r hs

be_bytes-of_four : (s : Bytes) → length s ≡ 4 → AreBytes s → be_bytes 4 (be_value 0 s) ≡ s
be_bytes-of_four (a ∷ b ∷ c ∷ d ∷ []) e h = be_bytes-be_value4 a b c d h
be_bytes-of_four [] e h = absurd (omega arith)
be_bytes-of_four (a ∷ []) e h = absurd (omega arith)
be_bytes-of_four (a ∷ b ∷ []) e h = absurd (omega arith)
be_bytes-of_four (a ∷ b ∷ c ∷ []) e h = absurd (omega arith)
be_bytes-of_four (a ∷ b ∷ c ∷ d ∷ x ∷ s) e h = absurd (omega arith)

be_value-of_four : (s : Bytes) → length s ≡ 4 → AreBytes s → be_value 0 s < 2 ^ 32
unfolding be_value
be_value-of_four (a ∷ b ∷ c ∷ d ∷ []) e h = omega arith
be_value-of_four [] e h = absurd (omega arith)
be_value-of_four (a ∷ []) e h = absurd (omega arith)
be_value-of_four (a ∷ b ∷ []) e h = absurd (omega arith)
be_value-of_four (a ∷ b ∷ c ∷ []) e h = absurd (omega arith)
be_value-of_four (a ∷ b ∷ c ∷ d ∷ x ∷ s) e h = absurd (omega arith)

be_bytes-of_eight : (s : Bytes) → length s ≡ 8 → AreBytes s → be_bytes 8 (be_value 0 s) ≡ s
be_bytes-of_eight (a ∷ b ∷ c ∷ d ∷ e ∷ f ∷ g ∷ i ∷ []) l h = be_bytes-be_value8 a b c d e f g i h
be_bytes-of_eight [] l h = absurd (omega arith)
be_bytes-of_eight (a ∷ []) l h = absurd (omega arith)
be_bytes-of_eight (a ∷ b ∷ []) l h = absurd (omega arith)
be_bytes-of_eight (a ∷ b ∷ c ∷ []) l h = absurd (omega arith)
be_bytes-of_eight (a ∷ b ∷ c ∷ d ∷ []) l h = absurd (omega arith)
be_bytes-of_eight (a ∷ b ∷ c ∷ d ∷ e ∷ []) l h = absurd (omega arith)
be_bytes-of_eight (a ∷ b ∷ c ∷ d ∷ e ∷ f ∷ []) l h = absurd (omega arith)
be_bytes-of_eight (a ∷ b ∷ c ∷ d ∷ e ∷ f ∷ g ∷ []) l h = absurd (omega arith)
be_bytes-of_eight (a ∷ b ∷ c ∷ d ∷ e ∷ f ∷ g ∷ i ∷ x ∷ s) l h = absurd (omega arith)

-- A text that was read stands behind its own length.
take_text-some :
    (s a r : Bytes) → AreBytes s → take_text s ≡ some (a, r) → (s ≡ put_text a ++ r) × AreBytes r
unfolding take_text put_text
take_text-some s a r h e = elim (Option-cases (take_bytes 4 s)) [
  | inl n ↦ ground arith
  | inr ((size, rest), f) ↦
      let (whole, four) = take_bytes-some 4 s size rest f in
      let behind : take_bytes (be_value 0 size) rest ≡ some (a, r) = ground arith in
      let (text, long) = take_bytes-some (be_value 0 size) rest a r behind in
      let bytes = rw whole at h in
      let front = AreBytes-front size rest bytes in
      let back = AreBytes-back size rest bytes in
      let number = be_value-of_four size four front in
      let length_bytes : be_bytes 4 (length a % 2 ^ 32) ≡ size =
        ap (be_bytes 4) (omega arith) ∙ be_bytes-of_four size four front in
      (
        whole
            ∙ ap₂ (λ (x y : Bytes). x ++ y) (sym length_bytes) text
            ∙ sym (append_assoc (be_bytes 4 (length a % 2 ^ 32)) a r),
        AreBytes-back a r (rw text at back),
      )
]

read_value-inv :
    (e : DataEntity) (o : Option (Bytes × Bytes))
    → (read_value e o).0 ≡ true
    → (v : Bytes) × (r : Bytes) × (o ≡ some (v, r)) × ((read_value e o).1 ≡ record e { value = v })
unfolding read_value
read_value-inv e none h = cc
read_value-inv e (some (v, r)) h = (v, r, refl, refl)

read_key-inv :
    (e : DataEntity) (o : Option (Bytes × Bytes))
    → (read_key e o).0 ≡ true
    → (k : Bytes) × (r : Bytes) × (o ≡ some (k, r))
      × (read_key e o ≡ read_value (record e { key = k }) (take_text r))
unfolding read_key
read_key-inv e none h = cc
read_key-inv e (some (k, r)) h = (k, r, refl, refl)

read_cmd-inv :
    (e : DataEntity) (o : Option (Bytes × Bytes))
    → (read_cmd e o).0 ≡ true
    → (c : Bytes) × (r : Bytes) × (o ≡ some (c, r))
      × (read_cmd e o ≡ read_key (record e { cmd = c }) (take_text r))
unfolding read_cmd
read_cmd-inv e none h = cc
read_cmd-inv e (some (c, r)) h = (c, r, refl, refl)

read_sequence-inv :
    (e : DataEntity) (o : Option (Bytes × Bytes))
    → (read_sequence e o).0 ≡ true
    → (q : Bytes) × (r : Bytes) × (o ≡ some (q, r))
      × (read_sequence e o ≡ read_cmd (record e { sequence = be_value 0 q }) (take_text r))
unfolding read_sequence
read_sequence-inv e none h = cc
read_sequence-inv e (some (q, r)) h = (q, r, refl, refl)

-- Whatever bytes are accepted are the serialization of the entity that was read, and what follows it,
-- whatever the object held before.
pub deserialize_sound :
    (old : DataEntity) (input : Bytes)
    → AreBytes input
    → (deserialize old input).0 ≡ true
    → (r : Bytes) × (input ≡ serialize_entity (deserialize old input).1 ++ r)
unfolding deserialize
deserialize_sound old input bytes ok =
    let (q, r0, e0, s0) = read_sequence-inv old (take_bytes 8 input) ok in
    let first = λ (p : Bool × DataEntity). p.0 in
    let (c, r1, e1, s1) = read_cmd-inv _ (take_text r0) (ap first (sym s0) ∙ ok) in
    let (k, r2, e2, s2) = read_key-inv _ (take_text r1) (ap first (sym (s0 ∙ s1)) ∙ ok) in
    let (v, r3, e3, s3) = read_value-inv _ (take_text r2) (ap first (sym (s0 ∙ s1 ∙ s2)) ∙ ok) in
    let (w0, eight) = take_bytes-some 8 input q r0 e0 in
    let b = rw w0 at bytes in
    let b0 = AreBytes-back q r0 b in
    let number = be_bytes-of_eight q eight (AreBytes-front q r0 b) in
    let (w1, b1) = take_text-some r0 c r1 b0 e1 in
    let (w2, b2) = take_text-some r1 k r2 b1 e2 in
    let (w3, b3) = take_text-some r2 v r3 b2 e3 in
    let result : (read_sequence old (take_bytes 8 input)).1
        ≡ record { sequence = be_value 0 q; key = k; value = v; cmd = c } =
      ap (λ (p : Bool × DataEntity). p.1) (s0 ∙ s1 ∙ s2) ∙ s3 in
    (
      r3,
      w0
          ∙ ap₂ (λ (x y : Bytes). x ++ y) (sym number)
              (w1
                ∙ ap (λ (y : Bytes). put_text c ++ y) (w2 ∙ ap (λ (y : Bytes). put_text k ++ y) w3))
          ∙ sym (
              serialize_entity-append
                (record { sequence = be_value 0 q; key = k; value = v; cmd = c }) r3)
          ∙ ap (λ (e : DataEntity). serialize_entity e ++ r3) (sym result),
    )
