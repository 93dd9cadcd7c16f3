-- ===== src/Resp/Stable.antt =====
-- A frame that the parser finds, it finds in every longer buffer, and it lies inside the buffer.
use blp_cache.Resp.{
  pos, stol, negsuc, bulk, payload, ℤ, at_crlf, at_marker, header, line, Cursor, move, need,
  find_crlf,
}
use blp_cache.Resp.Cursors.{move-more, find_crlf-append, find_crlf-le, move-Fits, Fits, more, Steps}
use blp_cache.Prelude.{
  Bytes, Option-cases, [], ap, ap₂, arith, drop, drop-append_le, inl, inr, length, length-drop,
  some, subst, sym, take, take-append_le, true, ℕ, ◌++◌, ◌+◌, ◌∙◌, ◌∷◌, ◌≡◌, ◌≤◌,
}

line-found :
    (c : Cursor) (i : ℕ) → find_crlf c.rest ≡ some i → line c ≡ some (take i c.rest, move (i + 2) c)
unfolding line
line-found c i e = rw e

-- What a line that was read came from.
line-inv :
    (c : Cursor) (x : Bytes) (d : Cursor)
    → line c ≡ some (x, d)
    → (i : ℕ) × (find_crlf c.rest ≡ some i) × (x ≡ take i c.rest) × (d ≡ move (i + 2) c)
unfolding line
line-inv c x d h = elim (Option-cases (find_crlf c.rest)) [
  | inl e ↦ ground arith
  | inr (i, e) ↦ (i, e, ground arith, ground arith)
]

-- A line ends at least two bytes further on.
line-forward :
    (c : Cursor) (x : Bytes) (d : Cursor)
    → line c ≡ some (x, d)
    → (c.place + 2 ≤ d.place) × (d.len ≡ c.len)
line-forward c x d h = let (i, e, ex, ed) = line-inv c x d h in ground arith

line-Fits : (c : Cursor) (x : Bytes) (d : Cursor) → Fits c → line c ≡ some (x, d) → Fits d
line-Fits c x d v h =
    let (i, e, ex, ed) = line-inv c x d h in rw ed (move-Fits (i + 2) v (find_crlf-le c.rest i e))

line-stable :
    (c : Cursor) (x : Bytes) (d : Cursor) (t : Bytes)
    → Fits c
    → line c ≡ some (x, d)
    → line (more t c) ≡ some (x, more t d)
line-stable c x d t v h =
    let (i, e, ex, ed) = line-inv c x d h in
    let room = find_crlf-le c.rest i e in
    line-found (more t c) i (find_crlf-append c.rest t i e)
    ∙ ap₂ (λ (y : Bytes) (k : Cursor). some (y, k))
        (take-append_le i c.rest t (omega arith) ∙ sym ex)
        (move-more c (i + 2) t room ∙ ap (more t) (sym ed))

header-inv :
    (m : ℕ) (c : Cursor) (x : Bytes) (d : Cursor)
    → header m c ≡ some (x, d)
    → (need c 1 ≡ true) × (at_marker m c.rest ≡ true) × (line (move 1 c) ≡ some (x, d))
unfolding header
header-inv m c x d h = ground arith

header-met :
    (m : ℕ) (c : Cursor)
    → need c 1 ≡ true
    → at_marker m c.rest ≡ true
    → header m c ≡ line (move 1 c)
unfolding header
header-met m c p q = ground arith

at_marker-more :
    (m : ℕ) (s t : Bytes) → at_marker m s ≡ true → (at_marker m (s ++ t) ≡ true) × (1 ≤ length s)
unfolding at_marker
at_marker-more m [] t h = cc
at_marker-more m (b ∷ s) t h = (h, omega arith)

need-more : (c : Cursor) (n : ℕ) (t : Bytes) → need c n ≡ true → need (more t c) n ≡ true
unfolding need
need-more c n t h = ground arith

pub header-Steps : (m : ℕ) → Steps (header m)
header-Steps m = record {
  fits = λ c x d v h.
      let (_, q, l) = header-inv m c x d h in
      line-Fits (move 1 c) x d (move-Fits 1 v (at_marker-more m c.rest [] q).1) l;
  forward = λ c x d v h.
      let (_, _, l) = header-inv m c x d h in omega (arith, line-forward (move 1 c) x d l);
  stable = λ c x d t v b h.
      let (p, q, l) = header-inv m c x d h in
      let (q', room) = at_marker-more m c.rest t q in
      header-met m (more t c) (need-more c 1 t p) q'
      ∙ ap line (move-more c 1 t room)
      ∙ line-stable (move 1 c) x d t (move-Fits 1 v room) l;
}

-- A header is at least three bytes.
pub header-forward :
    (m : ℕ) (c : Cursor) (x : Bytes) (d : Cursor) → header m c ≡ some (x, d) → c.place + 3 ≤ d.place
header-forward m c x d h =
    let (_, _, l) = header-inv m c x d h in omega (arith, line-forward (move 1 c) x d l)

payload-inv :
    (n : ℕ) (c : Cursor) (x : Bytes) (d : Cursor)
    → payload (pos n) c ≡ some (x, d)
    → (need c (n + 2) ≡ true)
      × (need (move n c) 2 ≡ true)
      × (at_crlf (drop n c.rest) ≡ true)
      × (x ≡ take n c.rest)
      × (d ≡ move 2 (move n c))
unfolding payload
payload-inv n c x d h = ground arith

payload-met :
    (n : ℕ) (c : Cursor)
    → need c (n + 2) ≡ true
    → need (move n c) 2 ≡ true
    → at_crlf (drop n c.rest) ≡ true
    → payload (pos n) c ≡ some (take n c.rest, move 2 (move n c))
unfolding payload
payload-met n c p q r = ground arith

at_crlf-more : (s t : Bytes) → at_crlf s ≡ true → (at_crlf (s ++ t) ≡ true) × (2 ≤ length s)
unfolding at_crlf
at_crlf-more [] t h = cc
at_crlf-more (a ∷ []) t h = cc
at_crlf-more (a ∷ b ∷ s) t h = (h, omega arith)

-- The bytes and the CRLF of a bulk string that was read are there.
payload-room : (n : ℕ) (c : Cursor) → at_crlf (drop n c.rest) ≡ true → n + 2 ≤ length c.rest
payload-room n c r = omega (arith, (at_crlf-more (drop n c.rest) [] r).1, length-drop n c.rest)

pub payload-Steps : (slen : ℤ) → Steps (payload slen)
payload-Steps (negsuc k) = record {
  fits = λ c x d v h. unfold payload in subst Fits (ground arith) v;
  forward = λ c x d v h. unfold payload in ground arith;
  stable = λ c x d t v b h. unfold payload in ground arith;
}
payload-Steps (pos n) = record {
  fits = λ c x d v h.
      let (_, _, r, _, e) = payload-inv n c x d h in
      let room = payload-room n c r in
      rw e (move-Fits 2 (move-Fits n v (omega arith)) (omega (arith, length-drop n c.rest)));
  forward = λ c x d v h. let (_, _, _, _, e) = payload-inv n c x d h in ground arith;
  stable = λ c x d t v b h.
      let (p, q, r, ex, e) = payload-inv n c x d h in
      let room = payload-room n c r in
      let behind : move n (more t c) ≡ more t (move n c) = move-more c n t (omega arith) in
      let rest : drop n (c.rest ++ t) ≡ drop n c.rest ++ t =
        drop-append_le n c.rest t (omega arith) in
      payload-met n (more t c) (need-more c (n + 2) t p) (rw behind (need-more (move n c) 2 t q))
        (rw rest ((at_crlf-more (drop n c.rest) t r).0))
      ∙ ap₂ (λ (y : Bytes) (k : Cursor). some (y, k))
          (take-append_le n c.rest t (omega arith) ∙ sym ex)
          (ap (move 2) behind
            ∙ move-more (move n c) 2 t (omega (arith, length-drop n c.rest))
            ∙ ap (more t) (sym e));
}

bulk-inv :
    (c : Cursor) (x : Bytes) (d : Cursor)
    → bulk c ≡ some (x, d)
    → (text : Bytes) × (mid : Cursor) × (slen : ℤ) × (header b'$' c ≡ some (text, mid))
      × (stol text ≡ some slen)
      × (payload slen mid ≡ some (x, d))
unfolding bulk
bulk-inv c x d h = elim (Option-cases (header b'$' c)) [
  | inl e ↦ ground arith
  | inr ((text, mid), e) ↦ elim (Option-cases (stol text)) [
    | inl e' ↦ ground arith
    | inr (slen, e') ↦ (text, mid, slen, e, e', ground arith)
  ]
]

bulk-met :
    (c mid : Cursor) (text x : Bytes) (slen : ℤ) (d : Cursor)
    → header b'$' c ≡ some (text, mid)
    → stol text ≡ some slen
    → payload slen mid ≡ some (x, d)
    → bulk c ≡ some (x, d)
unfolding bulk
bulk-met c mid text x slen d p q r = ground arith

pub bulk-Steps : Steps bulk
bulk-Steps = record {
  fits = λ c x d v h.
      let (text, mid, slen, p, q, r) = bulk-inv c x d h in
      (payload-Steps slen).fits mid x d ((header-Steps b'$').fits c text mid v p) r;
  forward = λ c x d v h.
      let (text, mid, slen, p, q, r) = bulk-inv c x d h in
      let v' = (header-Steps b'$').fits c text mid v p in
      omega (
        arith,
        (header-Steps b'$').forward c text mid v p,
        (payload-Steps slen).forward mid x d v' r,
      );
  stable = λ c x d t v b h.
      let (text, mid, slen, p, q, r) = bulk-inv c x d h in
      let v' = (header-Steps b'$').fits c text mid v p in
      let same_len = ((header-Steps b'$').forward c text mid v p).1 in
      bulk-met (more t c) (more t mid) text x slen (more t d)
        ((header-Steps b'$').stable c text mid t v b p) q
        ((payload-Steps slen).stable mid x d t v' (omega arith) r);
}
