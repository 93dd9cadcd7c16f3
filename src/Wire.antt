-- ===== src/Wire.antt =====
-- Numbers in network byte order, as `htonl`, `ntohl`, `htobe64` and `be64toh` leave them in memory on a
-- little-endian host.
use blp_cache.Prelude.{
  AreBytes, Bytes, [], ap, append-nil, append_assoc, ap₂, arith, length, length-append, refl, suc,
  sym, zero, ℕ, ◌%◌, ◌*◌, ◌++◌, ◌+◌, ◌/◌, ◌<◌, ◌∙◌, ◌∷◌, ◌≡◌,
}

-- The `k` bytes of a number, most significant first.
unfoldable pub be_bytes : ℕ → ℕ → Bytes
be_bytes zero n = []
be_bytes (suc k) n = be_bytes k (n / 256) ++ ((n % 256) ∷ [])

unfoldable pub be_value : ℕ → Bytes → ℕ
be_value v [] = v
be_value v (b ∷ s) = be_value (v * 256 + b) s

-- The `k` bytes of a number, least significant first: those of an integer in memory.
unfoldable pub le_bytes : ℕ → ℕ → Bytes
le_bytes zero n = []
le_bytes (suc k) n = (n % 256) ∷ le_bytes k (n / 256)

-- `be64toh` of a number that is not in network order: its eight bytes are swapped.
unfoldable pub byte_swap64 : ℕ → ℕ
byte_swap64 n = be_value 0 (le_bytes 8 n)

abbrev pub byte_range : ℕ → ℕ
byte_range zero = 1
byte_range (suc k) = 256 * byte_range k

pub length-be_bytes : (k n : ℕ) → length (be_bytes k n) ≡ k
unfolding be_bytes
length-be_bytes zero n = refl
length-be_bytes (suc k) n =
    omega
      (arith, length-append (be_bytes k (n / 256)) ((n % 256) ∷ []), length-be_bytes k (n / 256))

be_value-be_bytes_rest :
    (k n : ℕ) (r : Bytes) → n < byte_range k → be_value 0 (be_bytes k n ++ r) ≡ be_value n r
unfolding be_bytes
be_value-be_bytes_rest zero n r h = ap (λ v. be_value v r) (omega arith)
be_value-be_bytes_rest (suc k) n r h =
    ap (be_value 0) (append_assoc (be_bytes k (n / 256)) ((n % 256) ∷ []) r)
    ∙ be_value-be_bytes_rest k (n / 256) ((n % 256) ∷ r) (omega arith)
    ∙ (unfold be_value in ap (λ (v : ℕ). be_value v r) (omega arith))

-- A number of `k` bytes is read back.
pub be_value-be_bytes : (k n : ℕ) → n < byte_range k → be_value 0 (be_bytes k n) ≡ n
be_value-be_bytes k n h =
    ap (be_value 0) (sym (append-nil (be_bytes k n)))
    ∙ be_value-be_bytes_rest k n [] h
    ∙ (unfold be_value in refl)

-- Four and eight bytes are those of the number that they spell.
pub be_bytes-be_value4 :
    (a b c d : ℕ)
    → AreBytes (a ∷ b ∷ c ∷ d ∷ [])
    → be_bytes 4 (be_value 0 (a ∷ b ∷ c ∷ d ∷ [])) ≡ a ∷ b ∷ c ∷ d ∷ []
unfolding be_bytes be_value
be_bytes-be_value4 a b c d h =
    ap₂ ◌∷◌ (omega arith)
      (ap₂ ◌∷◌ (omega arith) (ap₂ ◌∷◌ (omega arith) (ap₂ ◌∷◌ (omega arith) refl)))

pub be_bytes-be_value8 :
    (a b c d e f g i : ℕ)
    → AreBytes (a ∷ b ∷ c ∷ d ∷ e ∷ f ∷ g ∷ i ∷ [])
    → be_bytes 8 (be_value 0 (a ∷ b ∷ c ∷ d ∷ e ∷ f ∷ g ∷ i ∷ []))
      ≡ a ∷ b ∷ c ∷ d ∷ e ∷ f ∷ g ∷ i ∷ []
unfolding be_bytes be_value
be_bytes-be_value8 a b c d e f g i h = ap₂ ◌∷◌ (omega arith) (
    ap₂ ◌∷◌ (omega arith) (
      ap₂ ◌∷◌ (omega arith) (
        ap₂ ◌∷◌ (omega arith) (
          ap₂ ◌∷◌ (omega arith)
            (ap₂ ◌∷◌ (omega arith) (ap₂ ◌∷◌ (omega arith) (ap₂ ◌∷◌ (omega arith) refl)))))))
