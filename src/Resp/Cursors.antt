-- ===== src/Resp/Cursors.antt =====
-- Places in a buffer: what `need` tests, and how one step of the parser reads a longer buffer.
use blp_cache.Resp.{Cursor, start, move, need, find_crlf, crlf}
use mathlib.Core.Option
use blp_cache.Prelude.{
  All, Bytes, Option, Option-cases, [], ap, arith, drop-append_le, if◌then◌else◌, inl, inr, leb,
  length, length-append, length-drop, refl, some, suc, sym, ℕ, ◌&&◌, ◌++◌, ◌+◌, ◌<◌, ◌==◌, ◌^◌, ◌∷◌,
  ◌≡◌, ◌≢◌, ◌≤◌,
}

-- The bytes from the place on are the rest of the buffer, which is no larger than memory can be.
pub record Fits (c : Cursor) : Type 0 where
  pub within : c.place + length c.rest ≡ c.len
  pub small : c.len < 2 ^ 62

-- The same place in the buffer with `t` behind it.
abbrev pub more : Bytes → Cursor → Cursor
more t c = record { len = c.len + length t; place = c.place; rest = c.rest ++ t }

pub start-Fits : (buf : Bytes) → length buf < 2 ^ 62 → Fits (start buf)
start-Fits buf h = omega arith

pub more-start : (buf t : Bytes) → more t (start buf) ≡ start (buf ++ t)
more-start buf t =
    ap (λ (n : ℕ). record { len = n; place = 0; rest = buf ++ t }) (sym (length-append buf t))

pub more-Fits : {c : Cursor} (t : Bytes) → Fits c → c.len + length t < 2 ^ 62 → Fits (more t c)
more-Fits {c} t v h = omega (arith, length-append c.rest t)

-- In a buffer that fits, `need` compares with the bytes that are left: the sum does not wrap.
pub need-rest : {c : Cursor} (n : ℕ) → Fits c → n ≤ 2 ^ 63 + 1 → need c n ≡ leb n (length c.rest)
unfolding need
need-rest n v h = ground arith

pub move-Fits : {c : Cursor} (n : ℕ) → Fits c → n ≤ length c.rest → Fits (move n c)
move-Fits {c} n v h = omega (arith, length-drop n c.rest)

pub move-more :
    (c : Cursor) (n : ℕ) (t : Bytes) → n ≤ length c.rest → move n (more t c) ≡ more t (move n c)
move-more c n t h =
    ap (λ (r : Bytes). record { len = c.len + length t; place = c.place + n; rest = r })
      (drop-append_le n c.rest t h)

find_crlf-step :
    (a b : ℕ) (s : Bytes)
    → find_crlf (a ∷ b ∷ s)
      ≡ (if a == 13 && b == 10 then some 0 else Option.map suc (find_crlf (b ∷ s)))
unfolding find_crlf
find_crlf-step a b s = ground arith

pub find_crlf-le : (s : Bytes) (i : ℕ) → find_crlf s ≡ some i → i + 2 ≤ length s
find_crlf-le [] i h = unfold find_crlf in cc
find_crlf-le (a ∷ []) i h = unfold find_crlf in cc
find_crlf-le (a ∷ b ∷ s) i h = elim (Option-cases (find_crlf (b ∷ s))) [
  | inl e ↦ ground (arith, find_crlf-step a b s)
  | inr (k, e) ↦ ground (arith, find_crlf-step a b s, find_crlf-le (b ∷ s) k e)
]

pub find_crlf-append : (s t : Bytes) (i : ℕ) → find_crlf s ≡ some i → find_crlf (s ++ t) ≡ some i
find_crlf-append [] t i h = unfold find_crlf in cc
find_crlf-append (a ∷ []) t i h = unfold find_crlf in cc
find_crlf-append (a ∷ b ∷ s) t i h = elim (Option-cases (find_crlf (b ∷ s))) [
  | inl e ↦ ground (arith, find_crlf-step a b s, find_crlf-step a b (s ++ t))
  | inr (k, e) ↦
      ground
        (arith, find_crlf-step a b s, find_crlf-step a b (s ++ t), find_crlf-append (b ∷ s) t k e)
]

abbrev pub LacksCr : Bytes → Type 0
LacksCr = All (λ b. b ≢ 13)

-- The first CRLF behind a text with no carriage return is at its end.
pub find_crlf-clean : (s t : Bytes) → LacksCr s → find_crlf (s ++ (crlf ++ t)) ≡ some (length s)
unfolding find_crlf
find_crlf-clean [] t h = refl
find_crlf-clean (a ∷ []) t h = ground (arith, find_crlf-clean [] t tt)
find_crlf-clean (a ∷ b ∷ s) t (ha, h) = ground (arith, find_crlf-clean (b ∷ s) t h)

-- A parser step: what it reads, it reads alike from a longer buffer, and it does not go back.
pub record Steps (f : Cursor → Option (Bytes × Cursor)) : Type 0 where
  pub fits : (c : Cursor) (x : Bytes) (d : Cursor) → Fits c → f c ≡ some (x, d) → Fits d
  pub forward :
      (c : Cursor) (x : Bytes) (d : Cursor)
      → Fits c
      → f c ≡ some (x, d)
      → (c.place ≤ d.place) × (d.len ≡ c.len)
  pub stable :
      (c : Cursor) (x : Bytes) (d : Cursor) (t : Bytes)
      → Fits c
      → c.len + length t < 2 ^ 62
      → f c ≡ some (x, d)
      → f (more t c) ≡ some (x, more t d)
