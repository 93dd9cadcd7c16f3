-- ===== src/Ring/Latest.antt =====
-- A ring into which many elements are pushed holds the latest of them.
use blp_cache.Ring.{contents, IsRing, push, elements, Ring}
use blp_cache.Prelude.{
  Bool-cases, List, [], ap, append-nil, append_assoc, ap₂, arith, drop, if◌then◌else◌, inl, inr,
  length, le→ltb, lt_or_le, ltb, lt→ltb, refl, suc, sym, zero, ℕ, ◌%◌, ◌++◌, ◌+◌, ◌-◌, ◌<◌, ◌∙◌,
  ◌∷◌, ◌≡◌,
}
use blp_cache.Ring.Contents.{contents-push}

module _ {ℓ} {A : Type ℓ} where
  length-elements : (b : ℕ → A) (c h n : ℕ) → length (elements b c h n) ≡ n
  unfolding elements
  length-elements b c h zero = refl
  length-elements b c h (suc n) = ap suc (length-elements b c ((h + 1) % c) n)

  -- `push` of each element of a list.
  abbrev pub push_all : Ring A → List A → Ring A
  push_all r [] = r
  push_all r (x ∷ xs) = push_all (push r x) xs

  -- A full queue that takes one more element and drops the oldest.
  drop-shift :
      (held xs : List A) (x : A) (n : ℕ)
      → 0 < length held
      → drop n ((drop 1 held ++ (x ∷ [])) ++ xs) ≡ drop (suc n) (held ++ (x ∷ xs))
  drop-shift [] xs x n h = absurd (omega arith)
  drop-shift (y ∷ held) xs x n h = ap (drop n) (append_assoc held (x ∷ []) xs)

  push-size :
      (r : Ring A) (x : A)
      → ((push r x).capacity ≡ r.capacity)
        × ((push r x).size ≡ (if ltb r.size r.capacity then r.size + 1 else r.size))
  unfolding push
  push-size r x = elim (Bool-cases (ltb r.size r.capacity)) [
    | inl e ↦ rw (e, push) (refl, refl)
    | inr e ↦ rw (e, push) (refl, refl)
  ]

  -- Any elements pushed into a well-formed ring, one after the other: it holds the latest of those that it
  -- held and those that were pushed, in order, as many as its capacity allows, and is well formed.
  pub contents-push_all :
      (xs : List A) (r : Ring A)
      → IsRing r
      → IsRing (push_all r xs)
        × (contents (push_all r xs) ≡ drop (r.size + length xs - r.capacity) (contents r ++ xs))
  contents-push_all [] r w =
      let none_dropped : r.size + 0 - r.capacity ≡ 0 = omega (arith, w.size_below) in
      (w, (rw none_dropped (sym (append-nil (contents r)))))
  contents-push_all (x ∷ xs) r w =
      let (good, held) = contents-push r x w in
      let (capacity, size) = push-size r x in
      let (good', held') = contents-push_all xs (push r x) good in
      elim (lt_or_le r.size r.capacity) [
        | inl free ↦
            let test = lt→ltb r.size r.capacity free in
            let more : (push r x).size ≡ r.size + 1 = size ∙ (rw test refl) in
            let count : (push r x).size + length xs - (push r x).capacity
                ≡ r.size + suc (length xs) - r.capacity =
              omega (arith, more, capacity) in
            (
              good',
              held'
                  ∙ ap₂ drop count (
                      ap (λ (s : List A). s ++ xs) (held ∙ (rw test refl))
                      ∙ append_assoc (contents r) (x ∷ []) xs),
            )
        | inr full ↦
            let test = le→ltb r.size r.capacity full in
            let some_held : length (contents r) ≡ r.size =
              unfold contents in length-elements r.buffer r.capacity r.head r.size in
            let one_more : suc (r.size + length xs - r.capacity)
                ≡ r.size + suc (length xs) - r.capacity =
              omega arith in
            let same_size : (push r x).size ≡ r.size = size ∙ (rw test refl) in
            let count : (push r x).size + length xs - (push r x).capacity
                ≡ r.size + length xs - r.capacity =
              omega (arith, same_size, capacity) in
            (
              good',
              held'
                  ∙ ap₂ drop count (ap (λ (s : List A). s ++ xs) (held ∙ (rw test refl)))
                  ∙ drop-shift (contents r) xs x (r.size + length xs - r.capacity)
                      (omega (arith, w.positive))
                  ∙ ap (λ (n : ℕ). drop n (contents r ++ (x ∷ xs))) one_more,
            )
      ]
