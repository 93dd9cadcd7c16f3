-- ===== src/Ring/Tests.antt =====
-- A ring of three places.
use blp_cache.Ring.{elements, IsRing, Ring, contents}
use blp_cache.Ring.Latest.{contents-push_all, push_all}
use blp_cache.Prelude.{[], arith, if◌then◌else◌, refl, ℕ, ◌==◌, ◌∷◌, ◌≡◌}

abbrev empty : Ring ℕ
empty = record { buffer = λ _. 0; capacity = 3; head = 0; tail = 0; size = 0 }

empty-IsRing : IsRing empty
empty-IsRing = record {
  positive = omega arith;
  head_below = omega arith;
  size_below = omega arith;
  tail_behind = refl;
}

-- It holds 7, 8 and 9, the oldest in the second place.
abbrev full : Ring ℕ
full = record {
  buffer = λ i. if i == 0 then 9 else if i == 1 then 7 else 8;
  capacity = 3;
  head = 1;
  tail = 1;
  size = 3;
}

full-IsRing : IsRing full
full-IsRing = record {
  positive = omega arith;
  head_below = omega arith;
  size_below = omega arith;
  tail_behind = refl;
}

contents-push_all_example :
    IsRing (push_all empty (1 ∷ 2 ∷ 3 ∷ 4 ∷ 5 ∷ []))
    × (contents (push_all empty (1 ∷ 2 ∷ 3 ∷ 4 ∷ 5 ∷ [])) ≡ 3 ∷ 4 ∷ 5 ∷ [])
unfolding contents elements
contents-push_all_example = contents-push_all (1 ∷ 2 ∷ 3 ∷ 4 ∷ 5 ∷ []) empty empty-IsRing

full_lem : contents full ≡ 7 ∷ 8 ∷ 9 ∷ []
unfolding contents elements
full_lem = refl
