-- ===== src/Recover/Loop.antt =====
-- The inner loop has enough fuel: it satisfies the equation of the source's loop.
use blp_cache.Recover.{escaped, after, stopped, drain, drain_rounds}
use blp_cache.Resp.Frames.{try_parse-frame, Parse-cases}
use blp_cache.Resp.{Command, frame, no_frame, thrown, try_parse}
use blp_cache.Prelude.{
  Bytes, [], ap, append-nil, arith, drop, inl, inr, length, length-drop, refl, suc, sym, zero, ℕ,
  ◌+◌, ◌<◌, ◌^◌, ◌∙◌, ◌∷◌, ◌≡◌, ◌≤◌,
}

rounds-frame :
    (fuel : ℕ) (buf : Bytes) (ps : Command) (k : ℕ)
    → try_parse buf ≡ frame ps k
    → drain_rounds (suc fuel) buf ≡ after (ps ∷ []) k (drain_rounds fuel (drop k buf))
unfolding drain_rounds
rounds-frame fuel buf ps k e = rw (e, drain_rounds) refl

rounds-stop :
    (fuel : ℕ) (buf : Bytes)
    → try_parse buf ≡ no_frame
    → drain_rounds (suc fuel) buf ≡ stopped [] 0 buf
unfolding drain_rounds
rounds-stop fuel buf e = rw (e, drain_rounds) refl

rounds-throw :
    (fuel : ℕ) (buf : Bytes) → try_parse buf ≡ thrown → drain_rounds (suc fuel) buf ≡ escaped []
unfolding drain_rounds
rounds-throw fuel buf e = rw (e, drain_rounds) refl

-- A frame takes at least three bytes of the buffer.
pub frame-drop :
    (buf : Bytes) (ps : Command) (k : ℕ)
    → length buf < 2 ^ 62
    → try_parse buf ≡ frame ps k
    → (k ≤ length buf) × (length (drop k buf) + 3 ≤ length buf)
frame-drop buf ps k small e =
    let (least, inside, _) = try_parse-frame buf ps k [] (rw append-nil small) e in
    (inside, omega (arith, length-drop k buf))

-- More fuel than bytes changes nothing.
rounds-fuel :
    (f g : ℕ) (buf : Bytes)
    → length buf < 2 ^ 62
    → length buf < f
    → length buf < g
    → drain_rounds f buf ≡ drain_rounds g buf
rounds-fuel zero g buf small hf hg = absurd (omega arith)
rounds-fuel (suc f) zero buf small hf hg = absurd (omega arith)
rounds-fuel (suc f) (suc g) buf small hf hg = elim (Parse-cases (try_parse buf)) [
  | inl e ↦ rounds-stop f buf e ∙ sym (rounds-stop g buf e)
  | inr (inl e) ↦ rounds-throw f buf e ∙ sym (rounds-throw g buf e)
  | inr (inr (ps, k, e)) ↦
      let shorter = frame-drop buf ps k small e in
      rounds-frame f buf ps k e
      ∙ ap (after (ps ∷ []) k)
          (rounds-fuel f g (drop k buf) (omega arith) (omega arith) (omega arith))
      ∙ sym (rounds-frame g buf ps k e)
]

pub drain-frame :
    (buf : Bytes) (ps : Command) (k : ℕ)
    → length buf < 2 ^ 62
    → try_parse buf ≡ frame ps k
    → drain buf ≡ after (ps ∷ []) k (drain (drop k buf))
unfolding drain
drain-frame buf ps k small e =
    let shorter = frame-drop buf ps k small e in
    rounds-frame (length buf) buf ps k e
    ∙ ap (after (ps ∷ []) k) (
        rounds-fuel (length buf) (suc (length (drop k buf))) (drop k buf) (omega arith)
          (omega arith) (omega arith))

pub drain-stop : (buf : Bytes) → try_parse buf ≡ no_frame → drain buf ≡ stopped [] 0 buf
unfolding drain
drain-stop buf e = rounds-stop (length buf) buf e

pub drain-throw : (buf : Bytes) → try_parse buf ≡ thrown → drain buf ≡ escaped []
unfolding drain
drain-throw buf e = rounds-throw (length buf) buf e
