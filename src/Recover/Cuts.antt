-- ===== src/Recover/Cuts.antt =====
-- A file of serialized commands that is cut anywhere: a crash of the process or of the machine.
use blp_cache.Recover.Log.{logged}
use blp_cache.Resp.{serialize, Command}
use blp_cache.Prelude.{
  Bytes, List, [], ap, append_assoc, arith, inl, inr, length, lt_or_le, refl, subst, suc, sym, take,
  take-append_ge, take-append_le, zero, ℕ, ◌++◌, ◌-◌, ◌<◌, ◌∙◌, ◌∷◌, ◌≡◌,
}

-- How a prefix of the bytes of `cs` ends: between two commands, or inside one.
pub data Cut (cs : List Command) (file : Bytes) : Type 0 where
  between : (done rest : List Command) → cs ≡ done ++ rest → file ≡ logged done → Cut cs file
  inside :
      (done rest : List Command) (torn : Command) (n : ℕ)
      → cs ≡ done ++ (torn ∷ rest)
      → file ≡ logged done ++ take (suc n) (serialize torn)
      → suc n < length (serialize torn)
      → Cut cs file

Cut-cons :
    (c : Command) (cs : List Command) (file : Bytes)
    → Cut cs file
    → Cut (c ∷ cs) (serialize c ++ file)
Cut-cons c cs file (between done rest e f) =
    between (c ∷ done) rest (ap (λ (l : List Command). c ∷ l) e)
      (ap (λ (b : Bytes). serialize c ++ b) f)
Cut-cons c cs file (inside done rest torn n e f h) =
    inside (c ∷ done) rest torn n (ap (λ (l : List Command). c ∷ l) e)
      (ap (λ (b : Bytes). serialize c ++ b) f ∙ sym (append_assoc (serialize c) (logged done) _)) h

-- The first bytes of such a file are a cut of its commands.
pub logged-Cut : (cs : List Command) (n : ℕ) → Cut cs (take n (logged cs))
logged-Cut cs zero = between [] cs refl refl
logged-Cut [] (suc n) = between [] [] refl refl
logged-Cut (c ∷ cs) (suc n) = elim (lt_or_le (suc n) (length (serialize c))) [
  | inl short ↦
      inside [] cs c n refl (take-append_le (suc n) (serialize c) (logged cs) (omega arith)) short
  | inr long ↦
      subst (Cut (c ∷ cs)) (sym (take-append_ge (suc n) (serialize c) (logged cs) long))
        (Cut-cons c cs _ (logged-Cut cs (suc n - length (serialize c))))
]
