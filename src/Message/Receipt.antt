-- ===== src/Message/Receipt.antt =====
-- A message that arrives whole is received whole, but for its offset, its magic number and its length.
use blp_cache.Socket.{recv_all, Socket, Net}
use blp_cache.Wire.{be_value-be_bytes, length-be_bytes, be_value, le_bytes, byte_swap64, be_bytes}
use blp_cache.Prelude.{
  Bool, Bytes, [], ap, append-nil, append_assoc, arith, length, refl, replicate, some, suc, sym,
  true, ℕ, ◌%◌, ◌*◌, ◌++◌, ◌+◌, ◌-◌, ◌/◌, ◌<◌, ◌^◌, ◌∙◌, ◌∷◌, ◌≡◌,
}
use blp_cache.Message.{
  in_memory, receive_message, receive, receive_payload, receive_length, Message,
}
use blp_cache.Message.Transfer.{on_wire, Receives, recv_all-all}

receive-met :
    (size : ℕ) (store : Bytes → Message → Message) (rest : Message → Net (Bool × Message))
    (m : Message) (s t : Socket) (got : Bytes)
    → recv_all size s ≡ some ((true, got), t)
    → receive size store rest m s ≡ rest (store got m) t
unfolding receive
receive-met size store rest m s t got e = rw (e, receive) refl

receive_payload-all :
    (b r : Bytes) (n : ℕ) (m : Message) (s : Socket)
    → s.incoming ≡ b ++ r
    → Receives s (length b + n)
    → (t : Socket) × (receive_payload (length b) m s ≡ some ((true, record m { payload = b }), t))
      × (t.incoming ≡ r)
      × Receives t n
unfolding receive_payload
receive_payload-all [] r n m s i h = (s, refl, i, (h.0, omega (arith, h.1)))
receive_payload-all (x ∷ b) r n m s i (p, h) =
    let (t, e, j, l) = recv_all-all (x ∷ b) r (suc (length b)) n s refl i (p, omega arith) in
    (
      t,
      rw (e, receive_payload)
          (ap (λ (k : ℕ). some ((true, record m { payload = (x ∷ b) ++ replicate k 0 }), t))
              (no_zeros (length b))
            ∙ ap (λ (q : Bytes). some ((true, record m { payload = q }), t)) (append-nil (x ∷ b))),
      j,
      l,
    )
  where
    no_zeros : (n : ℕ) → suc n - suc n ≡ 0
    no_zeros n = omega arith

receive_length-all :
    (b r : Bytes) (n : ℕ) (m : Message) (s : Socket)
    → length b < 2 ^ 64
    → s.incoming ≡ be_bytes 8 (length b) ++ (b ++ r)
    → Receives s (8 + (length b + n))
    → (t : Socket) × (receive_length m s ≡ some ((true, record m { payload = b }), t))
      × (t.incoming ≡ r)
      × Receives t n
unfolding receive_length
receive_length-all b r n m s small i (p, h) =
    let eight = length-be_bytes 8 (length b) in
    let (s1, e1, i1, h1) =
      recv_all-all (be_bytes 8 (length b)) (b ++ r) 8 (length b + n) s (sym eight) i
        (p, omega arith) in
    let (s2, e2, i2, h2) = receive_payload-all b r n m s1 i1 h1 in
    let read : be_value 0 (be_bytes 8 (length b)) ≡ length b =
      be_value-be_bytes 8 (length b) (omega arith) in
    (s2, rw (e1, receive_length, read) e2, i2, h2)

-- The magic number of a message that was received: both bytes of it are lost.
lost_magic : (x y : ℕ) → x < 256 → y < 256 → byte_swap64 (in_memory (x ∷ y ∷ [])) % 2 ^ 16 ≡ 0
unfolding byte_swap64 in_memory le_bytes be_value
lost_magic x y hx hy = omega arith

-- The offset of a message that was received: its last byte, as the first of eight.
moved_offset : (x : ℕ) → x < 256 → byte_swap64 (in_memory (x ∷ [])) ≡ x * 2 ^ 56
unfolding byte_swap64 in_memory le_bytes be_value
moved_offset x hx = omega arith

two_bytes : (n : ℕ) → be_bytes 2 n ≡ (n / 256 % 256) ∷ (n % 256) ∷ []
unfolding be_bytes
two_bytes n = refl

pub receive_message-Receives :
    (m old : Message) (r : Bytes) (n : ℕ) (s : Socket)
    → m.len ≡ length m.payload
    → m.len < 2 ^ 64
    → s.incoming ≡ on_wire m ++ r
    → Receives s (12 + (length m.payload + n))
    → (t : Socket) × (receive_message old s
        ≡ some (
          (
            true,
            record {
              kind = m.kind % 256;
              magic = 0;
              len = old.len;
              offset = m.offset % 256 * 2 ^ 56;
              payload = m.payload;
            },
          ),
          t,
        ))
      × (t.incoming ≡ r)
      × Receives t n
unfolding receive_message
receive_message-Receives m old r n s fits small i (p, h) =
    let l = length m.payload in
    let hi = m.magic / 256 % 256 in
    let lo = m.magic % 256 in
    let tail = be_bytes 8 l ++ (m.payload ++ r) in
    let arrived : s.incoming ≡ (m.kind % 256) ∷ (m.offset % 256) ∷ hi ∷ lo ∷ tail =
      i
      ∙ ap
          (λ (k : ℕ).
            ((m.kind % 256)
              ∷ (m.offset % 256)
              ∷ (be_bytes 2 m.magic ++ (be_bytes 8 k ++ m.payload)))
            ++ r)
          fits
      ∙ ap
          (λ (q : Bytes).
            ((m.kind % 256) ∷ (m.offset % 256) ∷ (q ++ (be_bytes 8 l ++ m.payload))) ++ r)
          (two_bytes m.magic)
      ∙ ap (λ (q : Bytes). (m.kind % 256) ∷ (m.offset % 256) ∷ hi ∷ lo ∷ q)
          (append_assoc (be_bytes 8 l) m.payload r) in
    let (s1, e1, i1, h1) =
      recv_all-all ((m.kind % 256) ∷ []) _ 1 (11 + (l + n)) s refl arrived (p, omega arith) in
    let (s2, e2, i2, h2) =
      recv_all-all ((m.offset % 256) ∷ []) _ 1 (10 + (l + n)) s1 refl i1
        (h1.0, omega (arith, h1.1)) in
    let (s3, e3, i3, h3) =
      recv_all-all (hi ∷ lo ∷ []) _ 2 (8 + (l + n)) s2 refl i2 (h2.0, omega (arith, h2.1)) in
    let got : Message = record {
      kind = in_memory ((m.kind % 256) ∷ []);
      offset = byte_swap64 (in_memory ((m.offset % 256) ∷ []));
      magic = byte_swap64 (in_memory (hi ∷ lo ∷ [])) % 2 ^ 16;
      len = old.len;
      payload = old.payload;
    } in
    let (s4, e4, i4, h4) = receive_length-all m.payload r n got s3 (omega arith) i3 h3 in
    let exact : record got { payload = m.payload } ≡ record {
      kind = m.kind % 256;
      magic = 0;
      len = old.len;
      offset = m.offset % 256 * 2 ^ 56;
      payload = m.payload;
    } =
      fields (unfold in_memory in omega arith) (lost_magic hi lo (omega arith) (omega arith))
        (moved_offset (m.offset % 256) (omega arith)) in
    (
      s4,
      receive-met 1 _ _ old s s1 _ e1
          ∙ receive-met 1 _ _ _ s1 s2 _ e2
          ∙ receive-met 2 _ _ _ s2 s3 _ e3
          ∙ e4
          ∙ ap (λ (g : Message). some ((true, g), s4)) exact,
      i4,
      h4,
    )
  where
    fields :
        {a b c d e f : ℕ}
        → a ≡ d
        → b ≡ e
        → c ≡ f
        → ◌≡◌ {A = Message}
            (record { kind = a; magic = b; len = old.len; offset = c; payload = m.payload })
            (record { kind = d; magic = e; len = old.len; offset = f; payload = m.payload })
    fields p q r =
        λ i. record { kind = p i; magic = q i; len = old.len; offset = r i; payload = m.payload }

-- A message whose `len` is the length of its payload, below 2 ^ 64, that arrives whole and is received
-- with answers that make progress: the type's byte and the payload are those of the message; the magic
-- number is 0, whatever was sent; the offset is the last byte of the one sent, times 2 ^ 56; `len` is
-- not written. What arrives behind the message stays.
pub receive_message-all :
    (m old : Message) (r : Bytes) (s : Socket)
    → m.len ≡ length m.payload
    → m.len < 2 ^ 64
    → s.incoming ≡ on_wire m ++ r
    → Receives s (12 + length m.payload)
    → (t : Socket) × (receive_message old s
        ≡ some (
          (
            true,
            record {
              kind = m.kind % 256;
              magic = 0;
              len = old.len;
              offset = m.offset % 256 * 2 ^ 56;
              payload = m.payload;
            },
          ),
          t,
        ))
      × (t.incoming ≡ r)
receive_message-all m old r s fits small i (p, h) =
    let (t, e, j, _) = receive_message-Receives m old r 0 s fits small i (p, omega arith) in
    (t, e, j)
