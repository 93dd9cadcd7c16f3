-- ===== src/Resp/RoundTrip.antt =====
-- A serialized command is read back, and no proper prefix of one is taken for a frame.
use blp_cache.Resp.Frames.{
  bulks-step, bulks-last, try_parse-opened, try_parse-frame, try_parse-thrown, Parse-cases,
  opening-met,
}
use blp_cache.Resp.Cursors.{start-Fits, find_crlf-clean, need-rest, LacksCr, Fits}
use blp_cache.Decimal.RoundTrip.{stoi-to_string, to_string-All, stol-to_string, IsDigit}
use blp_cache.Resp.{
  array, thrown, opening, no_frame, frame, try_parse, bulk_strings, bulks, Command, serialize,
  at_crlf, find_crlf, need, crlf, line, to_string, at_marker, move, header, bulk_string, payload,
  bulk, Cursor,
}
use blp_cache.Prelude.{
  ==_refl, All, Bytes, List, [], ap, append-nil, append_assoc, ap₂, arith, drop, drop-append_self,
  drop-drop, inl, inr, length, length-append, length-take, le→leb, refl, some, sym, take,
  take-append-drop, take-append_self, true, ℕ, ◌++◌, ◌+◌, ◌<◌, ◌==◌, ◌^◌, ◌∙◌, ◌∷◌, ◌≡◌,
}
use blp_cache.Prelude.Int.{pos}

-- The place `P` in a buffer of `L` bytes.
abbrev at : ℕ → ℕ → Bytes → Cursor
at L P r = record { len = L; place = P; rest = r }

move-at : (L P : ℕ) (s r : Bytes) → move (length s) (at L P (s ++ r)) ≡ at L (P + length s) r
move-at L P s r = ap (λ t. at L (P + length s) t) (drop-append_self s r)

digit-LacksCr : (s : Bytes) → All IsDigit s → LacksCr s
digit-LacksCr [] h = tt
digit-LacksCr (c ∷ s) (h, hs) = (omega arith, digit-LacksCr s hs)

-- A marker and a number, printed, are read as that number's text.
header-printed :
    (m L P n : ℕ) (r : Bytes)
    → n < 2 ^ 62
    → Fits (at L P (m ∷ (to_string n ++ (crlf ++ r))))
    → header m (at L P (m ∷ (to_string n ++ (crlf ++ r))))
      ≡ some (to_string n, at L (P + (length (to_string n) + 3)) r)
unfolding header at_marker line
header-printed m L P n r h v =
    let text = to_string n in
    let found : find_crlf (text ++ (crlf ++ r)) ≡ some (length text) =
      find_crlf-clean text r (digit-LacksCr text (to_string-All n (omega arith))) in
    let e1 : need (at L P (m ∷ (text ++ (crlf ++ r)))) 1 ≡ true =
      need-rest 1 v (omega arith) ∙ le→leb _ _ (omega arith) in
    let e3 : (m == m) ≡ true = ==_refl m in
    rw (e1, e3, found)
      (ap₂ (λ (x : Bytes) (c : Cursor). some (x, c)) (take-append_self text (crlf ++ r))
        (ap₂ (λ (p : ℕ) (t : Bytes). at L p t) (omega arith) (skip text r)))
  where
    skip : (s t : Bytes) → drop (length s + 2) (s ++ (crlf ++ t)) ≡ t
    skip s t =
        sym (drop-drop 2 (length s) (s ++ (crlf ++ t)))
        ∙ ap (drop 2) (drop-append_self s (crlf ++ t))

payload-printed :
    (L P : ℕ) (p r : Bytes)
    → length p < 2 ^ 62
    → Fits (at L P (p ++ (crlf ++ r)))
    → payload (pos (length p)) (at L P (p ++ (crlf ++ r))) ≡ some (p, at L (P + (length p + 2)) r)
unfolding payload
payload-printed L P p r h v =
    let size = length-append p (crlf ++ r) in
    let e1 : need (at L P (p ++ (crlf ++ r))) (length p + 2) ≡ true =
      need-rest (length p + 2) v (omega arith) ∙ le→leb _ _ (omega arith) in
    let there = move-at L P p (crlf ++ r) in
    let v' : Fits (at L (P + length p) (crlf ++ r)) = omega arith in
    let e2 : need (move (length p) (at L P (p ++ (crlf ++ r)))) 2 ≡ true =
      rw there (need-rest 2 v' (omega arith) ∙ le→leb _ _ (omega arith)) in
    let e3 : at_crlf (drop (length p) (p ++ (crlf ++ r))) ≡ true =
      rw (drop-append_self p (crlf ++ r)) (unfold at_crlf in refl) in
    rw (e1, e2, e3)
      (ap₂ (λ (x : Bytes) (c : Cursor). some (x, c)) (take-append_self p (crlf ++ r))
        (ap (move 2) there ∙ ap (λ (k : ℕ). at L k r) (omega arith)))

length-bulk_string :
    (p : Bytes) → length (bulk_string p) ≡ length (to_string (length p)) + 3 + (length p + 2)
unfolding bulk_string
length-bulk_string p =
    omega (arith, length-append (to_string (length p)) (crlf ++ (p ++ crlf)), length-append p crlf)

bulk_string-append :
    (p r : Bytes)
    → bulk_string p ++ r ≡ b'$' ∷ (to_string (length p) ++ (crlf ++ (p ++ (crlf ++ r))))
unfolding bulk_string
bulk_string-append p r = simp append_assoc

bulk-printed :
    (L P : ℕ) (p r : Bytes)
    → Fits (at L P (bulk_string p ++ r))
    → bulk (at L P (bulk_string p ++ r)) ≡ some (p, at L (P + length (bulk_string p)) r)
unfolding bulk
bulk-printed L P p r v =
    let size = length-bulk_string p in
    let sum = length-append (bulk_string p) r in
    let whole = bulk_string-append p r in
    let v1 : Fits (at L P (b'$' ∷ (to_string (length p) ++ (crlf ++ (p ++ (crlf ++ r)))))) =
      rw whole at v in
    let tail = length-append p (crlf ++ r) in
    let v2 : Fits (at L (P + (length (to_string (length p)) + 3)) (p ++ (crlf ++ r))) =
      omega arith in
    rw
      (
        whole,
        header-printed b'$' L P (length p) (p ++ (crlf ++ r)) (omega arith) v1,
        stol-to_string (length p) (omega arith),
        payload-printed L _ p r (omega arith) v2,
      )
      (ap (λ (k : ℕ). some (p, at L k r)) (omega arith))

bulks-printed :
    (L P : ℕ) (ps done : List Bytes) (r : Bytes)
    → Fits (at L P (bulk_strings ps ++ r))
    → bulks (length ps) (at L P (bulk_strings ps ++ r)) done
      ≡ frame (done ++ ps) (P + length (bulk_strings ps))
unfolding bulk_strings
bulks-printed L P [] done r v =
    bulks-last (at L P r) done
    ∙ ap₂ (λ (d : Command) (k : ℕ). frame d k) (sym (append-nil done)) (omega arith)
bulks-printed L P (p ∷ ps) done r v =
    let whole = append_assoc (bulk_string p) (bulk_strings ps) r in
    let v1 : Fits (at L P (bulk_string p ++ (bulk_strings ps ++ r))) = rw whole at v in
    let sum = length-append (bulk_string p) (bulk_strings ps ++ r) in
    let both = length-append (bulk_string p) (bulk_strings ps) in
    let v2 : Fits (at L (P + length (bulk_string p)) (bulk_strings ps ++ r)) = omega arith in
    rw whole (
      bulks-step (length ps) _ _ p done (bulk-printed L P p (bulk_strings ps ++ r) v1)
      ∙ bulks-printed L (P + length (bulk_string p)) ps (done ++ (p ∷ [])) r v2
      ∙ ap₂ (λ (d : Command) (k : ℕ). frame d k) (append_assoc done (p ∷ []) ps) (omega arith))

length-serialize :
    (ps : Command)
    → length (serialize ps) ≡ length (to_string (length ps)) + 3 + length (bulk_strings ps)
unfolding serialize
length-serialize ps = omega (arith, length-append (to_string (length ps)) (crlf ++ bulk_strings ps))

serialize-append :
    (ps : Command) (r : Bytes)
    → serialize ps ++ r ≡ b'*' ∷ (to_string (length ps) ++ (crlf ++ (bulk_strings ps ++ r)))
unfolding serialize
serialize-append ps r = simp append_assoc

array-pos : (n : ℕ) (c : Cursor) → array (pos n) c ≡ bulks n c []
unfolding array
array-pos n c = refl

-- Any serialized command of fewer than 2 ^ 31 parts, whatever bytes its parts hold and whatever
-- follows it, in a buffer of fewer than 2 ^ 62 bytes, is parsed as that command, and the parser
-- consumes exactly the bytes of its serialization.
pub try_parse-serialize :
    (ps : Command) (r : Bytes)
    → length ps < 2 ^ 31
    → length (serialize ps ++ r) < 2 ^ 62
    → try_parse (serialize ps ++ r) ≡ frame ps (length (serialize ps))
try_parse-serialize ps r many small =
    let whole = serialize-append ps r in
    let buf = b'*' ∷ (to_string (length ps) ++ (crlf ++ (bulk_strings ps ++ r))) in
    let size : length buf < 2 ^ 62 = rw whole at small in
    let sum = length-append (to_string (length ps)) (crlf ++ (bulk_strings ps ++ r)) in
    let opened : opening buf
        ≡ some (
          pos (length ps),
          at (length buf) (0 + (length (to_string (length ps)) + 3)) (bulk_strings ps ++ r),
        ) =
      opening-met buf _ _ _
        (header-printed b'*' (length buf) 0 (length ps) _ (omega arith) (start-Fits buf size))
        (stoi-to_string (length ps) many) in
    let counted =
      array-pos (length ps)
        (at (length buf) (0 + (length (to_string (length ps)) + 3)) (bulk_strings ps ++ r)) in
    rw whole (
      try_parse-opened buf _ _ opened
      ∙ counted
      ∙ bulks-printed (length buf) _ ps [] r (omega arith)
      ∙ ap (λ (k : ℕ). frame ps k) (omega (arith, length-serialize ps)))

-- Of the bytes of a serialized command that is cut short at any place, no frame is parsed and no
-- exception is thrown: the parser waits for more.
pub try_parse-take-serialize :
    (ps : Command) (n : ℕ)
    → length ps < 2 ^ 31
    → length (serialize ps) < 2 ^ 62
    → n < length (serialize ps)
    → try_parse (take n (serialize ps)) ≡ no_frame
try_parse-take-serialize ps n many small cut =
    let s = serialize ps in
    let joined : take n s ++ drop n s ≡ s = take-append-drop n s in
    let room : length (take n s ++ drop n s) < 2 ^ 62 = rw joined small in
    let size = length-take n s in
    let full : try_parse s ≡ frame ps (length s) =
      ap try_parse (sym (append-nil s)) ∙ try_parse-serialize ps [] many (rw append-nil small) in
    elim (Parse-cases (try_parse (take n s))) [
      | inl e ↦ e
      | inr (inl e) ↦ absurd (
          thrown_ne
            (sym (try_parse-thrown (take n s) (drop n s) room e) ∙ ap try_parse joined ∙ full))
      | inr (inr (qs, k, e)) ↦
          let (_, le, again) = try_parse-frame (take n s) qs k (drop n s) room e in
          let same_end : k ≡ length s = frame_end (sym again ∙ ap try_parse joined ∙ full) in
          absurd (omega arith)
    ]
  where
    thrown_ne : {k : ℕ} {qs : Command} → thrown ≡ frame qs k → ⊥
    thrown_ne h = cc

    frame_end : {k l : ℕ} {qs rs : Command} → frame qs k ≡ frame rs l → k ≡ l
    frame_end h = cc
