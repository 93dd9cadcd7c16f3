-- ===== src/Resp/Frames.antt =====
-- Whole frames: where a frame ends, and that bytes behind a frame do not change it.
use blp_cache.Resp.Stable.{header-forward, bulk-Steps, header-Steps}
use blp_cache.Resp.Cursors.{more-start, more, Fits, start-Fits}
use blp_cache.Resp.{
  need, at_marker, Parse, stoi, start, header, array, bulk, thrown, frame, no_frame, Command,
  try_parse, bulks, opening, Cursor,
}
use blp_cache.Prelude.{
  Bytes, List, Option-cases, [], ap, arith, inl, inr, length, length-append, none, refl, some, suc,
  sym, zero, ℕ, ◌++◌, ◌+◌, ◌<◌, ◌^◌, ◌∙◌, ◌∷◌, ◌≡◌, ◌≢◌, ◌≤◌, ◌⊎◌,
}
use blp_cache.Prelude.Int.{ℤ, pos, negsuc}

pub bulks-step :
    (n : ℕ) (c d : Cursor) (p : Bytes) (done : List Bytes)
    → bulk c ≡ some (p, d)
    → bulks (suc n) c done ≡ bulks n d (done ++ (p ∷ []))
unfolding bulks
bulks-step n c d p done e = rw (e, bulks) refl

bulks-stop :
    (n : ℕ) (c : Cursor) (done : List Bytes) → bulk c ≡ none → bulks (suc n) c done ≡ no_frame
unfolding bulks
bulks-stop n c done e = rw (e, bulks) refl

pub bulks-last : (c : Cursor) (done : List Bytes) → bulks zero c done ≡ frame done c.place
unfolding bulks
bulks-last c done = refl

pub Parse-cases :
    (r : Parse) → (r ≡ no_frame) ⊎ ((r ≡ thrown) ⊎ ((ps : Command) × (k : ℕ) × (r ≡ frame ps k)))
Parse-cases no_frame = inl refl
Parse-cases thrown = inr (inl refl)
Parse-cases (frame ps k) = inr (inr (ps, k, refl))

-- Reading bulk strings throws nothing.
bulks-ne-thrown : (n : ℕ) (c : Cursor) (done : List Bytes) → bulks n c done ≢ thrown
bulks-ne-thrown zero c done h = ground (arith, bulks-last c done)
bulks-ne-thrown (suc n) c done h = elim (Option-cases (bulk c)) [
  | inl e ↦ ground (arith, bulks-stop n c done e)
  | inr ((p, d), e) ↦ bulks-ne-thrown n d (done ++ (p ∷ [])) (sym (bulks-step n c d p done e) ∙ h)
]

-- The frame of some bulk strings ends inside the buffer, and is the same in a longer one.
record Framed (n : ℕ) (c : Cursor) (done ps : List Bytes) (k : ℕ) : Type 0 where
  after : c.place ≤ k
  inside : k ≤ c.len
  stable : (t : Bytes) → c.len + length t < 2 ^ 62 → bulks n (more t c) done ≡ frame ps k

bulks-Framed :
    (n : ℕ) (c : Cursor) (done ps : List Bytes) (k : ℕ)
    → Fits c
    → bulks n c done ≡ frame ps k
    → Framed n c done ps k
bulks-Framed zero c done ps k v h = record {
  after = unfold bulks in ground arith;
  inside = unfold bulks in ground arith;
  stable = λ t b. unfold bulks in h;
}
bulks-Framed (suc n) c done ps k v h = elim (Option-cases (bulk c)) [
  | inl e ↦ ground (arith, bulks-stop n c done e)
  | inr ((p, d), e) ↦
      let v' = bulk-Steps.fits c p d v e in
      let f = bulk-Steps.forward c p d v e in
      let ih = bulks-Framed n d (done ++ (p ∷ [])) ps k v' (sym (bulks-step n c d p done e) ∙ h) in
      record {
        after = omega (arith, f, ih.after);
        inside = omega (arith, f, ih.inside);
        stable = λ t b.
            bulks-step n (more t c) (more t d) p done (bulk-Steps.stable c p d t v b e)
            ∙ ih.stable t (omega (arith, f));
      }
]

opening-inv :
    (buf : Bytes) (num : ℤ) (d : Cursor)
    → opening buf ≡ some (num, d)
    → (text : Bytes) × (header b'*' (start buf) ≡ some (text, d)) × (stoi text ≡ some num)
unfolding opening
opening-inv buf num d h = elim (Option-cases (header b'*' (start buf))) [
  | inl e ↦ ground arith
  | inr ((text, mid), e) ↦ elim (Option-cases (stoi text)) [
    | inl e' ↦ ground arith
    | inr (k, e') ↦ (text, ground arith, ground arith)
  ]
]

pub opening-met :
    (buf text : Bytes) (num : ℤ) (d : Cursor)
    → header b'*' (start buf) ≡ some (text, d)
    → stoi text ≡ some num
    → opening buf ≡ some (num, d)
unfolding opening
opening-met buf text num d p q = ground arith

opening-stable :
    (buf t : Bytes) (num : ℤ) (d : Cursor)
    → length (buf ++ t) < 2 ^ 62
    → opening buf ≡ some (num, d)
    → opening (buf ++ t) ≡ some (num, more t d)
opening-stable buf t num d b h =
    let (text, p, q) = opening-inv buf num d h in
    let sum = length-append buf t in
    opening-met (buf ++ t) text num (more t d)
      (ap (header b'*') (sym (more-start buf t))
        ∙ (header-Steps b'*').stable (start buf) text d t (start-Fits buf (omega arith))
            (omega arith) p)
      q

pub try_parse-opened :
    (buf : Bytes) (num : ℤ) (d : Cursor) → opening buf ≡ some (num, d) → try_parse buf ≡ array num d
unfolding try_parse
try_parse-opened buf num d e = rw (e, try_parse) refl

try_parse-shut : (buf : Bytes) → opening buf ≡ none → try_parse buf ≡ no_frame
unfolding try_parse
try_parse-shut buf e = rw (e, try_parse) refl

-- A frame is at least three bytes, ends inside the buffer, and is found whatever follows it.
pub try_parse-frame :
    (buf : Bytes) (ps : Command) (k : ℕ) (t : Bytes)
    → length (buf ++ t) < 2 ^ 62
    → try_parse buf ≡ frame ps k
    → (3 ≤ k) × (k ≤ length buf) × (try_parse (buf ++ t) ≡ frame ps k)
try_parse-frame buf ps k t b h = elim (Option-cases (opening buf)) [
  | inl e ↦ ground (arith, try_parse-shut buf e)
  | inr ((negsuc j, d), e) ↦ unfold array in ground (arith, try_parse-opened buf (negsuc j) d e)
  | inr ((pos n, d), e) ↦
      let small : length buf < 2 ^ 62 = omega (arith, length-append buf t) in
      let sum = length-append buf t in
      let v = start-Fits buf small in
      let (text, p, q) = opening-inv buf (pos n) d e in
      let v' = (header-Steps b'*').fits (start buf) text d v p in
      let f = (header-Steps b'*').forward (start buf) text d v p in
      let found : bulks n d [] ≡ frame ps k =
        unfold array in sym (try_parse-opened buf (pos n) d e) ∙ h in
      let w = bulks-Framed n d [] ps k v' found in
      (
        omega (arith, header-forward b'*' (start buf) text d p, w.after),
        omega (arith, f, w.inside),
        try_parse-opened (buf ++ t) (pos n) (more t d) (opening-stable buf t (pos n) d b e)
            ∙ (unfold array in w.stable t (omega (arith, f))),
      )
]

-- An exception is thrown whatever follows.
pub try_parse-thrown :
    (buf t : Bytes)
    → length (buf ++ t) < 2 ^ 62
    → try_parse buf ≡ thrown
    → try_parse (buf ++ t) ≡ thrown
try_parse-thrown buf t b h = elim (Option-cases (opening buf)) [
  | inl e ↦ ground (arith, try_parse-shut buf e)
  | inr ((negsuc j, d), e) ↦
      try_parse-opened (buf ++ t) (negsuc j) (more t d) (opening-stable buf t (negsuc j) d b e)
      ∙ (unfold array in refl)
  | inr ((pos n, d), e) ↦
      absurd (bulks-ne-thrown n d [] (unfold array in sym (try_parse-opened buf (pos n) d e) ∙ h))
]

-- No frame stands in an empty buffer.
pub try_parse-nil : try_parse [] ≡ no_frame
unfolding try_parse opening header at_marker need
try_parse-nil = refl
