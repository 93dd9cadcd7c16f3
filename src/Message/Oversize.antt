-- ===== src/Message/Oversize.antt =====
-- Where `recvFromSocket` of src/replica/protocol.h resizes the payload to a length that a peer announces:
-- `resize` may throw.
use blp_cache.Message.Transfer.{recv_all-all, Receives}
use blp_cache.Message.{receive, Message, blank_message, in_memory}
use blp_cache.Wire.{be_bytes, be_value, byte_swap64, be_value-be_bytes, length-be_bytes}
use blp_cache.Socket.{Socket, Net, recv_all}
use blp_cache.Prelude.{
  Bool, Bytes, Option-cases, [], arith, false, inl, inr, none, not, refl, some, sym, true, ℕ, ◌%◌,
  ◌&&◌, ◌++◌, ◌<◌, ◌^◌, ◌∷◌, ◌≡◌,
}

-- The part of `recvFromSocket` in front of `resize`, with the length that it asks for as `len`.
unfoldable pub receive_announced : Message → Net (Bool × Message)
receive_announced m s = elim (recv_all 8 s) [
  | none ↦ none
  | some ((ok, got), s') ↦ some ((ok, record m { len = be_value 0 got }), s')
]

unfoldable pub announced : Message → Net (Bool × Message)
announced =
    receive 1 (λ got m. record m { kind = in_memory got })
      (receive 1 (λ got m. record m { offset = byte_swap64 (in_memory got) })
        (receive 2 (λ got m. record m { magic = byte_swap64 (in_memory got) % 2 ^ 16 })
          receive_announced))

-- Which lengths a `std::vector<uint8_t>` can be resized to depends on the machine.
module _ (allocates : ℕ → Bool) where
  unfoldable pub throws : Socket → Bool
  throws s = elim (announced blank_message s) [
    | none ↦ false
    | some ((ok, m), s') ↦ ok && not (allocates m.len)
  ]

  -- Behind twelve bytes of a header, the allocation of the length in the last eight decides.
  pub throws-announced :
      (a b c d n : ℕ) (r : Bytes) (s : Socket)
      → n < 2 ^ 64
      → s.incoming ≡ a ∷ b ∷ c ∷ d ∷ (be_bytes 8 n ++ r)
      → Receives s 12
      → throws s ≡ not (allocates n)
  unfolding throws announced receive receive_announced
  throws-announced a b c d n r s small i (p, h) =
      let eight = length-be_bytes 8 n in
      let (s1, e1, i1, h1) = recv_all-all (a ∷ []) _ 1 11 s refl i (p, omega arith) in
      let (s2, e2, i2, h2) = recv_all-all (b ∷ []) _ 1 10 s1 refl i1 (h1.0, omega (arith, h1.1)) in
      let (s3, e3, i3, h3) =
        recv_all-all (c ∷ d ∷ []) _ 2 8 s2 refl i2 (h2.0, omega (arith, h2.1)) in
      let (s4, e4, i4, h4) =
        recv_all-all (be_bytes 8 n) r 8 0 s3 (sym eight) i3 (h3.0, omega (arith, h3.1)) in
      let read : be_value 0 (be_bytes 8 n) ≡ n = be_value-be_bytes 8 n (omega arith) in
      rw (e1, e2, e3, e4, read, throws) refl

  -- Where every length can be allocated, nothing is thrown.
  pub throws-never : (s : Socket) → ((m : ℕ) → allocates m ≡ true) → throws s ≡ false
  unfolding throws
  throws-never s all = elim (Option-cases (announced blank_message s)) [
    | inl e ↦ rw (e, throws) refl
    | inr (((ok, m), t), e) ↦ rw (e, throws, all m.len) (ground arith)
  ]
