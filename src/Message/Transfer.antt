-- ===== src/Message/Transfer.antt =====
-- A message is sent whole, and bytes are received whole, where the kernel makes progress at each call.
use blp_cache.Wire.{length-be_bytes, be_bytes}
use blp_cache.Socket.Transfer.{send_rounds-all, recv_rounds-all, ArePositive}
use blp_cache.Message.{send_payload, Message, send_message}
use blp_cache.Socket.{and_then, Net, recv_all, send_all, Socket}
use blp_cache.Prelude.{
  Bool, Bytes, [], append-nil, append_assoc, arith, length, refl, some, sym, true, ℕ, ◌%◌, ◌++◌,
  ◌+◌, ◌∙◌, ◌∷◌, ◌≡◌, ◌≤◌,
}

-- Answers that make progress, `n` of them or more.
abbrev pub Sends : Socket → ℕ → Type 0
Sends s n = ArePositive s.sends × (n ≤ length s.sends)

abbrev pub Receives : Socket → ℕ → Type 0
Receives s n = ArePositive s.recvs × (n ≤ length s.recvs)

send_all-all :
    (b : Bytes) (n : ℕ) (s : Socket)
    → Sends s (length b + n)
    → (t : Socket) × (send_all b s ≡ some (true, t)) × (t.wire ≡ s.wire ++ b) × Sends t n
unfolding send_all
send_all-all b n s (p, h) =
    let (left, e, q, l) = send_rounds-all s.sends s.wire b p (omega arith) in
    (record s { sends = left; wire = s.wire ++ b }, rw e refl, refl, (q, omega arith))

pub recv_all-all :
    (b r : Bytes) (size n : ℕ) (s : Socket)
    → size ≡ length b
    → s.incoming ≡ b ++ r
    → Receives s (length b + n)
    → (t : Socket) × (recv_all size s ≡ some ((true, b), t)) × (t.incoming ≡ r) × Receives t n
unfolding recv_all
recv_all-all b r size n s e i (p, h) =
    let (left, f, q, l) = recv_rounds-all s.recvs b r [] size p e (omega arith) in
    (record s { recvs = left; incoming = r }, rw (i, f) refl, refl, (q, omega arith))

and_then-met :
    (first rest : Net Bool) (s t : Socket)
    → first s ≡ some (true, t)
    → and_then first rest s ≡ rest t
unfolding and_then
and_then-met first rest s t e = rw (e, and_then) refl

-- The bytes of a message on the wire.
abbrev pub on_wire : Message → Bytes
on_wire m =
    (m.kind % 256) ∷ (m.offset % 256) ∷ (be_bytes 2 m.magic ++ (be_bytes 8 m.len ++ m.payload))

send_payload-all :
    (b : Bytes) (n : ℕ) (s : Socket)
    → Sends s (length b + n)
    → (t : Socket) × (send_payload b s ≡ some (true, t)) × (t.wire ≡ s.wire ++ b) × Sends t n
unfolding send_payload
send_payload-all [] n s h = (s, refl, sym (append-nil s.wire), (h.0, omega (arith, h.1)))
send_payload-all (x ∷ b) n s h = send_all-all (x ∷ b) n s h

-- Where each answer of the kernel makes progress and there are enough, a message is sent whole, and the
-- answers that it did not need are left.
pub send_message-all :
    (m : Message) (n : ℕ) (s : Socket)
    → Sends s (12 + (length m.payload + n))
    → (t : Socket) × (send_message m s ≡ some (true, t))
      × (t.wire ≡ s.wire ++ on_wire m)
      × Sends t n
unfolding send_message
send_message-all m n s (p, h) =
    let two = length-be_bytes 2 m.magic in
    let eight = length-be_bytes 8 m.len in
    let l = length m.payload in
    let part4 = and_then (send_all (be_bytes 8 m.len)) (send_payload m.payload) in
    let part3 = and_then (send_all (be_bytes 2 m.magic)) part4 in
    let part2 = and_then (send_all ((m.offset % 256) ∷ [])) part3 in
    let (s1, e1, w1, h1) = send_all-all ((m.kind % 256) ∷ []) (11 + (l + n)) s (p, omega arith) in
    let (s2, e2, w2, h2) =
      send_all-all ((m.offset % 256) ∷ []) (10 + (l + n)) s1 (h1.0, omega (arith, h1.1)) in
    let (s3, e3, w3, h3) =
      send_all-all (be_bytes 2 m.magic) (8 + (l + n)) s2 (h2.0, omega (arith, h2.1)) in
    let (s4, e4, w4, h4) = send_all-all (be_bytes 8 m.len) (l + n) s3 (h3.0, omega (arith, h3.1)) in
    let (s5, e5, w5, h5) = send_payload-all m.payload n s4 h4 in
    (
      s5,
      and_then-met (send_all ((m.kind % 256) ∷ [])) part2 s s1 e1
          ∙ and_then-met (send_all ((m.offset % 256) ∷ [])) part3 s1 s2 e2
          ∙ and_then-met (send_all (be_bytes 2 m.magic)) part4 s2 s3 e3
          ∙ and_then-met (send_all (be_bytes 8 m.len)) (send_payload m.payload) s3 s4 e4
          ∙ e5,
      rw (w5, w4, w3, w2, w1) (simp append_assoc),
      h5,
    )
