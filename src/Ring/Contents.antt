-- ===== src/Ring/Contents.antt =====
-- A ring is a queue that drops its oldest element where it is full.
use blp_cache.Ring.Places.{
  step-steps, store_at-same, places-differ, elements-store_at, elements-suc,
}
use blp_cache.Ring.{pop, Ring, store_at, contents, IsRing, new_ring, elements, push}
use native.Mathlib.Nat.{mod-lt, mod-add-mod, zero-mod}
use blp_cache.Prelude.{
  ==_iff, Bool-cases, List, [], ap, ap₂, arith, drop, false, if◌then◌else◌, inl, inr, le→ltb,
  lt_or_le, ltb, lt→ltb, none, refl, some, suc, sym, ℕ, ◌%◌, ◌++◌, ◌+◌, ◌-◌, ◌<◌, ◌==◌, ◌∙◌, ◌∷◌,
  ◌≡◌, ◌≤◌, ◌⊎◌,
}

module _ {ℓ} {A : Type ℓ} where
  -- A new ring of a capacity that is not 0.
  pub new_ring-IsRing : (blank : A) (capacity : ℕ) → 0 < capacity → IsRing (new_ring blank capacity)
  unfolding new_ring
  new_ring-IsRing blank capacity h = record {
    positive = h;
    head_below = h;
    size_below = omega arith;
    tail_behind = sym (zero-mod capacity);
  }

  -- What one more element at the tail does to what is read from a place on.
  elements-stored :
      (b : ℕ → A) (c h n : ℕ) (x : A)
      → h < c
      → n < c
      → elements (store_at b ((h + n) % c) x) c h (suc n) ≡ elements b c h n ++ (x ∷ [])
  elements-stored b c h n x p q =
      elements-suc (store_at b ((h + n) % c) x) c h n p
      ∙ ap₂ (λ (s : List A) (y : A). s ++ (y ∷ []))
          (elements-store_at b c ((h + n) % c) x h n p (λ i k. places-differ c h i n p k q))
          (store_at-same b ((h + n) % c) x)

  push-free :
      (r : Ring A) (x : A)
      → IsRing r
      → r.size < r.capacity
      → (contents (push r x) ≡ contents r ++ (x ∷ [])) × IsRing (push r x)
  unfolding push contents
  push-free r x w free =
      rw (lt→ltb r.size r.capacity free, push)
        (
          ap₂ (λ (t n : ℕ). elements (store_at r.buffer t x) r.capacity r.head n) w.tail_behind
                (omega arith)
              ∙ elements-stored r.buffer r.capacity r.head r.size x w.head_below free,
          record {
            positive = w.positive;
            head_below = w.head_below;
            size_below = omega arith;
            tail_behind =
                ap (λ (t : ℕ). (t + 1) % r.capacity) w.tail_behind
                ∙ mod-add-mod (r.head + r.size) r.capacity 1
                ∙ ap (λ (k : ℕ). k % r.capacity) (omega arith);
          },
        )

  elements-full :
      (b : ℕ → A) (c h m : ℕ) (x : A)
      → h < c
      → m < c
      → elements (store_at b ((h + suc m) % c) x) c ((h + 1) % c) (suc m)
        ≡ drop 1 (elements b c h (suc m)) ++ (x ∷ [])
  elements-full b c h m x p q =
      ap (λ (t : ℕ). elements (store_at b t x) c ((h + 1) % c) (suc m)) (sym (step-steps c h m))
      ∙ elements-stored b c ((h + 1) % c) m x (mod-lt (h + 1) (omega arith)) q
      ∙ (unfold elements in refl)

  push-full :
      (r : Ring A) (x : A)
      → IsRing r
      → r.capacity ≤ r.size
      → (contents (push r x) ≡ drop 1 (contents r) ++ (x ∷ [])) × IsRing (push r x)
  unfolding push contents
  push-full r x w full =
      let m = r.size - 1 in
      let size : r.size ≡ suc m = omega (arith, w.positive) in
      rw (le→ltb r.size r.capacity full, push)
        (
          ap₂
                (λ (t n : ℕ).
                  elements (store_at r.buffer t x) r.capacity ((r.head + 1) % r.capacity) n)
                (w.tail_behind ∙ ap (λ (n : ℕ). (r.head + n) % r.capacity) size) size
              ∙ elements-full r.buffer r.capacity r.head m x w.head_below
                  (omega (arith, w.size_below, w.positive))
              ∙ ap (λ (n : ℕ). drop 1 (elements r.buffer r.capacity r.head n) ++ (x ∷ []))
                  (sym size),
          record {
            positive = w.positive;
            head_below = mod-lt (r.head + 1) w.positive;
            size_below = w.size_below;
            tail_behind =
                ap (λ (t : ℕ). (t + 1) % r.capacity) w.tail_behind
                ∙ mod-add-mod (r.head + r.size) r.capacity 1
                ∙ ap (λ (k : ℕ). k % r.capacity) (omega arith)
                ∙ sym (mod-add-mod (r.head + 1) r.capacity r.size);
          },
        )

  -- `push` keeps a ring well formed. Where it is not full, the element comes behind those it holds; where
  -- it is full, the oldest one is dropped as well.
  pub contents-push :
      (r : Ring A) (x : A)
      → IsRing r
      → IsRing (push r x)
        × (contents (push r x)
            ≡ (if ltb r.size r.capacity then contents r else drop 1 (contents r)) ++ (x ∷ []))
  contents-push r x w = elim (lt_or_le r.size r.capacity) [
    | inl free ↦
        let (held, good) = push-free r x w free in (good, rw (lt→ltb r.size r.capacity free) held)
    | inr full ↦
        let (held, good) = push-full r x w full in (good, rw (le→ltb r.size r.capacity full) held)
  ]

  pop-full :
      (r : Ring A) (m : ℕ)
      → IsRing r
      → r.size ≡ suc m
      → let (item, rest) = pop r in
        (item ≡ some (r.buffer r.head))
        × (contents r ≡ r.buffer r.head ∷ contents rest)
        × IsRing rest
  unfolding pop contents elements
  pop-full r m w size =
      let some_left : (r.size == 0) ≡ false = ground (arith, size) in
      let less : r.size - 1 ≡ m = omega arith in
      rw (some_left, pop)
        (
          refl,
          ap (elements r.buffer r.capacity r.head) size
              ∙ ap
                  (λ (n : ℕ).
                    r.buffer r.head ∷ elements r.buffer r.capacity ((r.head + 1) % r.capacity) n)
                  (sym less),
          record {
            positive = w.positive;
            head_below = mod-lt (r.head + 1) w.positive;
            size_below = omega (arith, w.size_below);
            tail_behind =
                w.tail_behind
                ∙ ap (λ (k : ℕ). k % r.capacity) (omega arith)
                ∙ sym (mod-add-mod (r.head + 1) r.capacity (r.size - 1));
          },
        )

  -- `pop` of a well-formed ring: where it holds nothing, nothing is returned and nothing changes; else the
  -- oldest element is returned, and the ring holds the others and is well formed.
  pub contents-pop :
      (r : Ring A)
      → IsRing r
      → ((contents r ≡ []) × (pop r ≡ (none, r)))
        ⊎ ((x : A) × (xs : List A) × (contents r ≡ x ∷ xs)
            × ((pop r).0 ≡ some x)
            × (contents (pop r).1 ≡ xs)
            × IsRing (pop r).1)
  contents-pop r w = elim (Bool-cases (r.size == 0)) [
    | inl e ↦ inl (
      unfold contents elements in ap (elements r.buffer r.capacity r.head) ((==_iff r.size 0).0 e),
      unfold pop in rw e refl,
    )
    | inr e ↦
        let (item, held, good) = pop-full r (r.size - 1) w (ground (arith, e)) in
        inr (r.buffer r.head, contents (pop r).1, held, item, refl, good)
  ]
