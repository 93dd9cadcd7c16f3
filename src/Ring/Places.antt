-- ===== src/Ring/Places.antt =====
-- Places in a ring, and what stands at them.
use blp_cache.Ring.{store_at, elements}
use native.Mathlib.Nat.{mod-eq_of_lt, mod-add-mod, mod-eq-sub-mod, mod-lt}
use blp_cache.Prelude.{
  ==_iff, Bool-cases, List, [], ap, ap₂, arith, false, inl, inr, lt_or_le, refl, suc, sym, true,
  zero, ℕ, ◌%◌, ◌++◌, ◌+◌, ◌-◌, ◌<◌, ◌==◌, ◌∙◌, ◌∷◌, ◌≡◌, ◌≢◌, ◌≤◌, ◌⊎◌,
}

-- A place is that many steps on, less one turn where it passes the end.
wrapped :
    (c h i : ℕ)
    → h < c
    → i < c
    → ((h + i < c) × ((h + i) % c ≡ h + i)) ⊎ ((c ≤ h + i) × ((h + i) % c ≡ h + i - c))
wrapped c h i a b = elim (lt_or_le (h + i) c) [
  | inl e ↦ inl (e, mod-eq_of_lt e)
  | inr e ↦ inr (e, mod-eq-sub-mod e ∙ mod-eq_of_lt (omega arith))
]

-- Fewer steps than a turn do not come to the same place.
pub places-differ : (c h i m : ℕ) → h < c → i < m → m < c → (h + i) % c ≢ (h + m) % c
places-differ c h i m a b d e = elim (wrapped c h i a (omega arith)) [
  | inl (p, q) ↦ elim (wrapped c h m a d) [ inl (r, s) ↦ omega arith | inr (r, s) ↦ omega arith ]
  | inr (p, q) ↦ elim (wrapped c h m a d) [ inl (r, s) ↦ omega arith | inr (r, s) ↦ omega arith ]
]

-- One step, and then `n` more.
pub step-steps : (c h n : ℕ) → ((h + 1) % c + n) % c ≡ (h + suc n) % c
step-steps c h n = mod-add-mod (h + 1) c n ∙ ap (λ (k : ℕ). k % c) (omega arith)

module _ {ℓ} {A : Type ℓ} where
  pub elements-suc :
      (b : ℕ → A) (c h n : ℕ)
      → h < c
      → elements b c h (suc n) ≡ elements b c h n ++ (b ((h + n) % c) ∷ [])
  unfolding elements
  elements-suc b c h zero a =
      ap (λ (k : ℕ). b k ∷ []) (sym (mod-eq_of_lt a) ∙ ap (λ (k : ℕ). k % c) (omega arith))
  elements-suc b c h (suc n) a =
      ap (λ (s : List A). b h ∷ s)
        (elements-suc b c ((h + 1) % c) n (mod-lt (h + 1) (omega arith))
          ∙ ap (λ (k : ℕ). elements b c ((h + 1) % c) n ++ (b k ∷ [])) (step-steps c h n))

  -- Storing at a place that is not among those read changes nothing of what is read.
  pub elements-store_at :
      (b : ℕ → A) (c t : ℕ) (x : A) (h n : ℕ)
      → h < c
      → ((i : ℕ) → i < n → (h + i) % c ≢ t)
      → elements (store_at b t x) c h n ≡ elements b c h n
  unfolding elements store_at
  elements-store_at b c t x h zero a far = refl
  elements-store_at b c t x h (suc n) a far = ap₂ ◌∷◌ (kept (Bool-cases (h == t))) (
      elements-store_at b c t x ((h + 1) % c) n (mod-lt (h + 1) (omega arith))
        (λ i p e. far (suc i) (omega arith) (sym (step-steps c h i) ∙ e)))
    where
      here : (h + 0) % c ≡ h
      here = ap (λ (k : ℕ). k % c) (omega arith) ∙ mod-eq_of_lt a

      kept : ((h == t) ≡ true) ⊎ ((h == t) ≡ false) → store_at b t x h ≡ b h
      kept (inl e) = absurd (far 0 (omega arith) (here ∙ (==_iff h t).0 e))
      kept (inr e) = rw (e, store_at) refl

  pub store_at-same : (b : ℕ → A) (t : ℕ) (x : A) → store_at b t x t ≡ x
  unfolding store_at
  store_at-same b t x = ground arith
