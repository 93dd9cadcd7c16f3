-- ===== src/Config/Lists.antt =====
-- How a vector is printed: `operator<<` of src/common/config.cpp, for elements that are texts.
use blp_cache.Prelude.{
  Bytes, List, [], ap, append-nil, arith, false, if◌then◌else◌, length, refl, true, ℕ, ◌%◌, ◌++◌,
  ◌+◌, ◌-◌, ◌<◌, ◌==◌, ◌^◌, ◌∷◌, ◌≡◌,
}

abbrev pub separator : Bytes
separator = b',' ∷ b' ' ∷ []

-- The loop, from the element `i` on.
unfoldable pub print_from : ℕ → ℕ → List Bytes → Bytes
print_from last i [] = []
print_from last i (x ∷ v) =
    x ++ ((if i == last then [] else separator) ++ print_from last (i + 1) v)

-- `v.size() - 1` wraps around for an empty vector, whose loop has no round.
unfoldable pub print_list : List Bytes → Bytes
print_list v = print_from ((length v + (2 ^ 64 - 1)) % 2 ^ 64) 0 v

-- The elements with the separator in between.
abbrev pub joined : List Bytes → Bytes
joined [] = []
joined (x ∷ []) = x
joined (x ∷ (y ∷ v)) = x ++ (separator ++ joined (y ∷ v))

print_from-joined :
    (last i : ℕ) (x : Bytes) (v : List Bytes)
    → last ≡ i + length v
    → print_from last i (x ∷ v) ≡ joined (x ∷ v)
unfolding print_from
print_from-joined last i x [] h =
    let at_end : (i == last) ≡ true = ground arith in rw at_end (append-nil x)
print_from-joined last i x (y ∷ v) h =
    let before : (i == last) ≡ false = ground arith in
    rw before
      (ap (λ (t : Bytes). x ++ (separator ++ t)) (print_from-joined last (i + 1) y v (omega arith)))

-- A vector that fits into memory is printed with ", " between its elements, an empty one as nothing.
pub print_list-joined : (v : List Bytes) → length v < 2 ^ 64 → print_list v ≡ joined v
unfolding print_list
print_list-joined [] h = unfold print_from in refl
print_list-joined (x ∷ v) h = print_from-joined _ 0 x v (omega arith)
