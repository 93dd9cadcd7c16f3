-- ===== src/Db/Split.antt =====
-- Where a stored value is split, and the times that stand behind the tab.
use blp_cache.Decimal.RoundTrip.{stoull-to_string}
use blp_cache.Decimal.{in_unsigned, read_number, to_string, stoull}
use blp_cache.Db.{split_tab, tab, forever_suffix, never}
use blp_cache.Prelude.{
  All, Bool-cases, Bytes, Option-cases, [], ap, append_assoc, arith, inl, inr, refl, some, ℕ, ◌++◌,
  ◌<◌, ◌==◌, ◌^◌, ◌∙◌, ◌∷◌, ◌≡◌, ◌≢◌,
}

abbrev pub LacksTab : Bytes → Type 0
LacksTab = All (λ c. c ≢ tab)

-- The split is at the first tab.
pub split_tab-clean : (a r : Bytes) → LacksTab a → split_tab (a ++ (tab ∷ r)) ≡ some (a, r)
unfolding split_tab
split_tab-clean [] r h = refl
split_tab-clean (c ∷ a) r (hc, h) = ground (arith, split_tab-clean a r h)

-- What is split off has no tab, and the parts make up the value.
pub split_tab-some : (v a r : Bytes) → split_tab v ≡ some (a, r) → LacksTab a × (v ≡ a ++ (tab ∷ r))
unfolding split_tab
split_tab-some [] a r h = cc
split_tab-some (c ∷ v) a r h = elim (Bool-cases (c == tab)) [
  | inl e ↦ split_here (ground arith) (ground arith)
  | inr e ↦ elim (Option-cases (split_tab v)) [
    | inl f ↦ ground arith
    | inr ((b, q), f) ↦
        let (clean, whole) = split_tab-some v b q f in
        split_later b q (ground arith) clean whole (ground arith) (ground arith)
  ]
]
  where
    split_here : a ≡ [] → c ∷ v ≡ tab ∷ r → LacksTab a × (c ∷ v ≡ a ++ (tab ∷ r))
    split_here e f = rw e (tt, f)

    split_later :
        (b q : Bytes)
        → c ≢ tab
        → LacksTab b
        → v ≡ b ++ (tab ∷ q)
        → a ≡ c ∷ b
        → r ≡ q
        → LacksTab a × (c ∷ v ≡ a ++ (tab ∷ r))
    split_later b q n clean whole e f = rw (e, f) ((n, clean), ap (λ t. c ∷ t) whole)

pub split_tab-suffix :
    (v : Bytes) → LacksTab v → split_tab (v ++ forever_suffix) ≡ some (v, b'-' ∷ b'1' ∷ [])
split_tab-suffix v h = split_tab-clean v _ h

pub stoull-forever : stoull (b'-' ∷ b'1' ∷ []) ≡ some never
unfolding stoull read_number in_unsigned
stoull-forever = refl

-- A stored value with a time, as `expire` leaves it.
abbrev pub timed : Bytes → ℕ → Bytes
timed a t = (a ++ (tab ∷ to_string t)) ++ forever_suffix

pub split_tab-timed :
    (a : Bytes) (t : ℕ)
    → LacksTab a
    → split_tab (timed a t) ≡ some (a, to_string t ++ forever_suffix)
split_tab-timed a t h =
    ap split_tab (append_assoc a (tab ∷ to_string t) forever_suffix) ∙ split_tab-clean a _ h

pub stoull-timed : (t : ℕ) → t < 2 ^ 64 → stoull (to_string t ++ forever_suffix) ≡ some t
stoull-timed t h = stoull-to_string t forever_suffix h refl
