-- ===== src/Config/Trim.antt =====
-- `trim` takes the blanks off both ends, and nothing else.
use blp_cache.Config.{find_first_not_of, find_last_not_of, trim, is_blank}
use blp_cache.Prelude.{
  All, Bool, Bool-cases, Bytes, [], ap, append_assoc, ap₂, arith, drop, drop-append_self, false,
  inl, inr, length, none, refl, some, subst, sym, take, take-append_self, true, ℕ, ◌++◌, ◌+◌, ◌-◌,
  ◌∙◌, ◌∷◌, ◌≡◌,
}

abbrev pub AreBlank : Bytes → Type 0
AreBlank = All (λ c. is_blank c ≡ true)

abbrev pub starts_blank : Bytes → Bool
starts_blank [] = false
starts_blank (c ∷ s) = is_blank c

abbrev pub ends_blank : Bytes → Bool
ends_blank [] = false
ends_blank (c ∷ []) = is_blank c
ends_blank (c ∷ d ∷ s) = ends_blank (d ∷ s)

-- A text with no blank at either end.
pub record IsStripped (m : Bytes) : Type 0 where
  pub starts : starts_blank m ≡ false
  pub ends : ends_blank m ≡ false

first-blanks :
    (l t : Bytes) (i : ℕ)
    → AreBlank l
    → find_first_not_of t ≡ some i
    → find_first_not_of (l ++ t) ≡ some (length l + i)
unfolding find_first_not_of
first-blanks [] t i h e = e ∙ ap some (omega arith)
first-blanks (c ∷ l) t i (b, h) e = rw (b, first-blanks l t i h e) (ap some (omega arith))

first-none : (l : Bytes) → AreBlank l → find_first_not_of l ≡ none
unfolding find_first_not_of
first-none [] h = refl
first-none (c ∷ l) (b, h) = rw (b, first-none l h) refl

last-none : (r : Bytes) → AreBlank r → find_last_not_of r ≡ none
unfolding find_last_not_of
last-none [] h = refl
last-none (c ∷ r) (b, h) = rw (last-none r h, b, find_last_not_of) refl

last-front :
    (l t : Bytes) (i : ℕ)
    → find_last_not_of t ≡ some i
    → find_last_not_of (l ++ t) ≡ some (length l + i)
unfolding find_last_not_of
last-front [] t i e = e ∙ ap some (omega arith)
last-front (c ∷ l) t i e = rw (last-front l t i e, find_last_not_of) (ap some (omega arith))

last-stripped :
    (c : ℕ) (m r : Bytes)
    → AreBlank r
    → ends_blank (c ∷ m) ≡ false
    → find_last_not_of ((c ∷ m) ++ r) ≡ some (length m)
unfolding find_last_not_of
last-stripped c [] r h e = rw (last-none r h, e, find_last_not_of) refl
last-stripped c (d ∷ m) r h e = rw (last-stripped d m r h e, find_last_not_of) refl

AreBlank-append : (l r : Bytes) → AreBlank l → AreBlank r → AreBlank (l ++ r)
AreBlank-append [] r h k = k
AreBlank-append (c ∷ l) r (b, h) k = (b, AreBlank-append l r h k)

first-stripped : (c : ℕ) (s : Bytes) → is_blank c ≡ false → find_first_not_of (c ∷ s) ≡ some 0
unfolding find_first_not_of
first-stripped c s e = rw e refl

-- A stripped text with blanks on both sides is found again.
pub trim-padded :
    (l m r : Bytes) → AreBlank l → AreBlank r → IsStripped m → trim (l ++ (m ++ r)) ≡ m
unfolding trim
trim-padded l [] r hl hr s = rw (first-none (l ++ r) (AreBlank-append l r hl hr), trim) refl
trim-padded l (c ∷ m) r hl hr s =
    let all = (c ∷ m) ++ r in
    let first = first-blanks l all 0 hl (first-stripped c (m ++ r) s.starts) in
    let last = last-front l all (length m) (last-stripped c m r hr s.ends) in
    let size : length l + length m - (length l + 0) + 1 ≡ length (c ∷ m) = omega arith in
    let place : length l + 0 ≡ length l = omega arith in
    rw (first, trim, last)
      (ap₂ (λ (k n : ℕ). take k (drop n (l ++ all))) size place
        ∙ ap (take (length (c ∷ m))) (drop-append_self l all)
        ∙ take-append_self (c ∷ m) r)

-- A text as blanks, a stripped text and blanks.
pub record Parts (s : Bytes) : Type 0 where
  pub front : Bytes
  pub middle : Bytes
  pub back : Bytes
  pub whole : s ≡ front ++ (middle ++ back)
  pub front_blank : AreBlank front
  pub back_blank : AreBlank back
  pub stripped : IsStripped middle

ends_blank-append : (l : Bytes) (c : ℕ) (m : Bytes) → ends_blank (l ++ (c ∷ m)) ≡ ends_blank (c ∷ m)
ends_blank-append [] c m = refl
ends_blank-append (b ∷ []) c m = refl
ends_blank-append (b ∷ d ∷ l) c m = ends_blank-append (d ∷ l) c m

Parts-cons :
    (c : ℕ) (s l m r : Bytes)
    → is_blank c ≡ false
    → s ≡ l ++ (m ++ r)
    → AreBlank l
    → AreBlank r
    → IsStripped m
    → Parts (c ∷ s)
Parts-cons c s l [] r e w hl hr v = record {
  front = [];
  middle = c ∷ [];
  back = l ++ r;
  whole = ap (λ (t : Bytes). c ∷ t) w;
  front_blank = tt;
  back_blank = AreBlank-append l r hl hr;
  stripped = record { starts = e; ends = e };
}
Parts-cons c s l (d ∷ m) r e w hl hr v = record {
  front = [];
  middle = c ∷ (l ++ (d ∷ m));
  back = r;
  whole = ap (λ (t : Bytes). c ∷ t) (w ∙ sym (append_assoc l (d ∷ m) r));
  front_blank = tt;
  back_blank = hr;
  stripped = record { starts = e; ends = ends_blank-append (c ∷ l) d m ∙ v.ends };
}

parts : (s : Bytes) → Parts s
parts [] = record {
  front = [];
  middle = [];
  back = [];
  whole = refl;
  front_blank = tt;
  back_blank = tt;
  stripped = record { starts = refl; ends = refl };
}
parts (c ∷ s) =
    let p = parts s in
    elim (Bool-cases (is_blank c)) [
      | inl e ↦ record {
        front = c ∷ p.front;
        middle = p.middle;
        back = p.back;
        whole = ap (λ (t : Bytes). c ∷ t) p.whole;
        front_blank = (e, p.front_blank);
        back_blank = p.back_blank;
        stripped = p.stripped;
      }
      | inr e ↦
          Parts-cons c s p.front p.middle p.back e p.whole p.front_blank p.back_blank p.stripped
    ]

-- Every text is blanks, what `trim` returns of it, and blanks, and what `trim` returns neither starts nor
-- ends with a blank.
pub trim_lem :
    (s : Bytes)
    → (l : Bytes) × (r : Bytes) × (s ≡ l ++ (trim s ++ r))
      × AreBlank l
      × AreBlank r
      × IsStripped (trim s)
trim_lem s =
    let p = parts s in
    let found =
      ap trim p.whole ∙ trim-padded p.front p.middle p.back p.front_blank p.back_blank p.stripped in
    (
      p.front,
      p.back,
      p.whole ∙ ap (λ (m : Bytes). p.front ++ (m ++ p.back)) (sym found),
      p.front_blank,
      p.back_blank,
      subst IsStripped (sym found) p.stripped,
    )
