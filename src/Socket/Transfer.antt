-- ===== src/Socket/Transfer.antt =====
-- With answers that make progress, all bytes are sent and received, however they are cut up.
use blp_cache.Socket.{recv_rounds, send_rounds}
use blp_cache.Prelude.{
  All, Bytes, List, [], ap, append-nil, append_assoc, ap₂, arith, drop, drop-append_le, length,
  length-drop, min, some, suc, sym, take, take-append-drop, take-append_le, true, zero, ℕ, ◌++◌,
  ◌+◌, ◌-◌, ◌<◌, ◌∙◌, ◌∷◌, ◌≡◌, ◌≤◌,
}

-- Each answer is positive.
abbrev pub ArePositive : List ℕ → Type 0
ArePositive = All (λ n. 0 < n)

send_rounds-step :
    (n : ℕ) (answers : List ℕ) (wire buffer : Bytes) (b : ℕ)
    → 0 < n
    → send_rounds (n ∷ answers) wire (b ∷ buffer)
      ≡ send_rounds answers (wire ++ take n (b ∷ buffer)) (drop n (b ∷ buffer))
unfolding send_rounds
send_rounds-step n answers wire buffer b p = ground arith

pub recv_rounds-step :
    (n : ℕ) (answers : List ℕ) (incoming got : Bytes) (size : ℕ)
    → 0 < n
    → recv_rounds (n ∷ answers) incoming got (suc size)
      ≡ recv_rounds answers
          (drop (min n (suc size)) incoming)
          (got ++ take (min n (suc size)) incoming)
          (suc size - min n (suc size))
unfolding recv_rounds
recv_rounds-step n answers incoming got size p = ground arith

pub send_rounds-all :
    (answers : List ℕ) (wire buffer : Bytes)
    → ArePositive answers
    → length buffer ≤ length answers
    → (left : List ℕ) × (send_rounds answers wire buffer ≡ some (true, left, wire ++ buffer))
      × ArePositive left
      × (length answers ≤ length left + length buffer)
unfolding send_rounds
send_rounds-all answers wire [] p h =
    (answers, ap (λ w. some (true, answers, w)) (sym (append-nil wire)), p, omega arith)
send_rounds-all [] wire (b ∷ buffer) p h = absurd (omega arith)
send_rounds-all (zero ∷ answers) wire (b ∷ buffer) (p, ps) h = absurd (omega arith)
send_rounds-all (suc n ∷ answers) wire (b ∷ buffer) (p, ps) h =
    let size = length-drop n buffer in
    let (left, e, q, l) =
      send_rounds-all answers (wire ++ (b ∷ take n buffer)) (drop n buffer) ps (omega arith) in
    (
      left,
      send_rounds-step (suc n) answers wire buffer b p
          ∙ e
          ∙ ap (λ w. some (true, left, w))
              (append_assoc wire (b ∷ take n buffer) (drop n buffer)
                ∙ ap (λ w. wire ++ (b ∷ w)) (take-append-drop n buffer)),
      q,
      omega arith,
    )

pub recv_rounds-all :
    (answers : List ℕ) (b r got : Bytes) (size : ℕ)
    → ArePositive answers
    → size ≡ length b
    → size ≤ length answers
    → (left : List ℕ) × (recv_rounds answers (b ++ r) got size ≡ some (true, left, r, got ++ b))
      × ArePositive left
      × (length answers ≤ length left + length b)
unfolding recv_rounds
recv_rounds-all answers [] r got zero p e h =
    (answers, ap (λ g. some (true, answers, r, g)) (sym (append-nil got)), p, omega arith)
recv_rounds-all answers (x ∷ b) r got zero p e h = absurd (omega arith)
recv_rounds-all [] b r got (suc size) p e h = absurd (omega arith)
recv_rounds-all (zero ∷ answers) b r got (suc size) (p, ps) e h = absurd (omega arith)
recv_rounds-all (suc n ∷ answers) b r got (suc size) (p, ps) e h =
    let m = min (suc n) (suc size) in
    let shorter = length-drop m b in
    let (left, f, q, l) =
      recv_rounds-all answers (drop m b) r (got ++ take m b) (suc size - m) ps (omega arith)
        (omega arith) in
    (
      left,
      recv_rounds-step (suc n) answers (b ++ r) got size p
          ∙ ap₂ (λ (i g : Bytes). recv_rounds answers i g (suc size - m))
              (drop-append_le m b r (omega arith))
              (ap (λ t. got ++ t) (take-append_le m b r (omega arith)))
          ∙ f
          ∙ ap (λ g. some (true, left, r, g))
              (append_assoc got (take m b) (drop m b) ∙ ap (λ t. got ++ t) (take-append-drop m b)),
      q,
      omega arith,
    )
