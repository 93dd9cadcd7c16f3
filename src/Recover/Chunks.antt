-- ===== src/Recover/Chunks.antt =====
-- How `read` cuts the file into chunks does not matter.
use blp_cache.Recover.Loop.{drain-frame, frame-drop, drain-throw, drain-stop}
use blp_cache.Resp.Frames.{try_parse-nil, try_parse-frame, try_parse-thrown, Parse-cases}
use blp_cache.Resp.{Command}
use blp_cache.Resp.{try_parse}
use blp_cache.Recover.{Drained, stopped, escaped, after, drain, read_chunk, read_chunks}
use blp_cache.Prelude.{
  Bytes, List, [], ap, append-nil, append_assoc, ap₂, arith, concat, drop, drop-append_le, inl, inr,
  length, length-append, refl, suc, sym, zero, ℕ, ◌++◌, ◌+◌, ◌<◌, ◌^◌, ◌∙◌, ◌∷◌, ◌≡◌,
}

after-nil : (d : Drained) → after [] 0 d ≡ d
unfolding after
after-nil (stopped more m left) = ap (λ (k : ℕ). stopped more k left) (omega arith)
after-nil (escaped more) = refl

after-after :
    (es fs : List Command) (n m : ℕ) (d : Drained)
    → after es n (after fs m d) ≡ after (es ++ fs) (n + m) d
unfolding after
after-after es fs n m (stopped more k left) =
    ap₂ (λ (c : List Command) (j : ℕ). stopped c j left) (sym (append_assoc es fs more))
      (omega arith)
after-after es fs n m (escaped more) = ap escaped (sym (append_assoc es fs more))

read_chunk-after :
    (es : List Command) (n : ℕ) (d : Drained) (t : Bytes)
    → read_chunk (after es n d) t ≡ after es n (read_chunk d t)
unfolding read_chunk
read_chunk-after es n (stopped fs m left) t =
    let opened : read_chunk (after es n (stopped fs m left)) t
        ≡ after (es ++ fs) (n + m) (drain (left ++ t)) =
      unfold after in refl in
    opened ∙ sym (after-after es fs n m (drain (left ++ t)))
read_chunk-after es n (escaped fs) t = unfold after in refl

read_chunk-fresh : (buf t : Bytes) → read_chunk (stopped [] 0 buf) t ≡ drain (buf ++ t)
unfolding read_chunk
read_chunk-fresh buf t = after-nil (drain (buf ++ t))

read_chunk-escaped : (es : List Command) (t : Bytes) → read_chunk (escaped es) t ≡ escaped es
unfolding read_chunk
read_chunk-escaped es t = refl

-- Draining a buffer, then one with more bytes behind what was left, is draining all the bytes.
drain-append_below :
    (fuel : ℕ) (buf t : Bytes)
    → length buf < fuel
    → length (buf ++ t) < 2 ^ 62
    → drain (buf ++ t) ≡ read_chunk (drain buf) t
drain-append_below zero buf t h small = absurd (omega arith)
drain-append_below (suc fuel) buf t h small =
    let size = length-append buf t in
    let fits : length buf < 2 ^ 62 = omega arith in
    elim (Parse-cases (try_parse buf)) [
      | inl e ↦ rw (drain-stop buf e) (sym (read_chunk-fresh buf t))
      | inr (inl e) ↦
          rw (drain-throw buf e, drain-throw (buf ++ t) (try_parse-thrown buf t small e))
            (sym (read_chunk-escaped [] t))
      | inr (inr (ps, k, e)) ↦
          let (_, _, again) = try_parse-frame buf ps k t small e in
          let (inside, shorter) = frame-drop buf ps k fits e in
          let cut = drop-append_le k buf t inside in
          let sum = length-append (drop k buf) t in
          rw (drain-frame buf ps k fits e, drain-frame (buf ++ t) ps k small again, cut)
            (ap (after (ps ∷ []) k)
                (drain-append_below fuel (drop k buf) t (omega arith) (omega arith))
              ∙ sym (read_chunk-after (ps ∷ []) k (drain (drop k buf)) t))
    ]

pub drain-append :
    (buf t : Bytes) → length (buf ++ t) < 2 ^ 62 → drain (buf ++ t) ≡ read_chunk (drain buf) t
drain-append buf t = drain-append_below (suc (length buf)) buf t (omega arith)

read_chunks-drain :
    (buf : Bytes) (chunks : List Bytes)
    → length (buf ++ concat chunks) < 2 ^ 62
    → read_chunks (drain buf) chunks ≡ drain (buf ++ concat chunks)
unfolding read_chunks
read_chunks-drain buf [] h = ap drain (sym (append-nil buf))
read_chunks-drain buf (c ∷ chunks) h =
    let whole = append_assoc buf c (concat chunks) in
    let size = length-append (buf ++ c) (concat chunks) in
    let total : length ((buf ++ c) ++ concat chunks) < 2 ^ 62 = rw whole h in
    rw (← drain-append buf c (omega arith))
      (read_chunks-drain (buf ++ c) chunks total ∙ ap drain whole)

-- Whatever chunks `read` returns, the loop executes the same commands, leaves the same tail and
-- takes the same number of bytes, or throws behind the same commands, as on all the bytes at once.
pub read_chunks-concat :
    (chunks : List Bytes)
    → length (concat chunks) < 2 ^ 62
    → read_chunks (stopped [] 0 []) chunks ≡ drain (concat chunks)
read_chunks-concat chunks h =
    ap (λ d. read_chunks d chunks) (sym (drain-stop [] try_parse-nil))
    ∙ read_chunks-drain [] chunks h
