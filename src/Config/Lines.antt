-- ===== src/Config/Lines.antt =====
-- A file of lines is read as those lines, and a line is split at its first `=`.
use blp_cache.Config.{lines_from, split_equals, lines}
use blp_cache.Prelude.{
  All, Bytes, List, [], ap, append-nil, append_assoc, false, refl, some, sym, ℕ, ◌++◌, ◌==◌, ◌∙◌,
  ◌∷◌, ◌≡◌,
}

abbrev pub Lacks : ℕ → Bytes → Type 0
Lacks b = All (λ c. (c == b) ≡ false)

pub Lacks-append : (b : ℕ) (s t : Bytes) → Lacks b s → Lacks b t → Lacks b (s ++ t)
Lacks-append b [] t h k = k
Lacks-append b (c ∷ s) t (e, h) k = (e, Lacks-append b s t h k)

-- The bytes of lines that each end in a newline.
abbrev pub unlines : List Bytes → Bytes
unlines [] = []
unlines (l ∷ ls) = l ++ (b'\n' ∷ unlines ls)

lines_from-line :
    (line l rest : Bytes)
    → Lacks b'\n' l
    → lines_from line (l ++ (b'\n' ∷ rest)) ≡ (line ++ l) ∷ lines_from [] rest
unfolding lines_from
lines_from-line line [] rest h = ap (λ (s : Bytes). s ∷ lines_from [] rest) (sym (append-nil line))
lines_from-line line (c ∷ l) rest (e, h) =
    rw (e, lines_from-line (line ++ (c ∷ [])) l rest h)
      (ap (λ (s : Bytes). s ∷ lines_from [] rest) (append_assoc line (c ∷ []) l))

pub lines-unlines : (ls : List Bytes) → All (Lacks b'\n') ls → lines (unlines ls) ≡ ls
unfolding lines
lines-unlines [] h = unfold lines_from in refl
lines-unlines (l ∷ ls) (h, hs) =
    lines_from-line [] l (unlines ls) h ∙ ap (λ (r : List Bytes). l ∷ r) (lines-unlines ls hs)

pub split_equals-first : (k v : Bytes) → Lacks b'=' k → split_equals (k ++ (b'=' ∷ v)) ≡ some (k, v)
unfolding split_equals
split_equals-first [] v h = refl
split_equals-first (c ∷ k) v (e, h) = rw (e, split_equals-first k v h) refl
