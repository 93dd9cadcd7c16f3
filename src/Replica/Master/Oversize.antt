-- ===== src/Replica/Master/Oversize.antt =====
-- What becomes of the master where `recvFromSocket` throws: nothing in the thread of `handle_replica` catches
-- it.
use blp_cache.Message.Oversize.{throws-announced, throws-never, throws}
use blp_cache.Replica.Master.Rounds.{send_message-OnlySends}
use blp_cache.Replica.Master.{
  master_rounds, Connected, Clock, closed, going_on, blocked, master_round,
}
use blp_cache.Replica.{send_ack}
use blp_cache.Message.Transfer.{send_message-all, Sends, Receives}
use blp_cache.Message.{receive_message, blank_message}
use blp_cache.Wire.{be_bytes}
use blp_cache.Socket.{Socket}
use blp_cache.Prelude.{
  Bool, Bytes, List, Option, Option-cases, [], arith, false, if◌then◌else◌, inl, inr, none, refl,
  some, true, ℕ, ◌++◌, ◌<◌, ◌^◌, ◌∙◌, ◌∷◌, ◌≡◌, ◌≤◌,
}

module _ (allocates : ℕ → Bool) where
  -- The loop of `handle_replica`; `none` where an exception leaves the thread, which ends the process.
  unfoldable pub master_runs : List Clock → ℕ → Socket → Option Connected
  master_runs [] last s = some (going_on last s)
  master_runs (c ∷ clocks) last s =
      if throws allocates s then none else elim (receive_message blank_message s) [
        | none ↦ some blocked
        | some (received, s') ↦ elim (master_round c last received) [
          | none ↦ some (closed s')
          | some last' ↦ master_runs clocks last' s'
        ]
      ]

  unfoldable pub connection_runs : List Clock → ℕ → Socket → Option Connected
  connection_runs clocks start s = elim (send_ack 0 s) [
    | none ↦ some blocked
    | some (ok, s') ↦ master_runs clocks start s'
  ]

  master_runs-oversize :
      (k : Clock) (clocks : List Clock) (last : ℕ) (s : Socket)
      → throws allocates s ≡ true
      → master_runs (k ∷ clocks) last s ≡ none
  unfolding master_runs
  master_runs-oversize k clocks last s h = rw (h, master_runs) refl

  -- A peer that has sent twelve bytes, the last eight of which announce a length that cannot be allocated,
  -- as none from 2 ^ 63 on can: an exception leaves the thread, and the process of the master ends.
  pub connection_runs-oversize :
      (k : Clock) (clocks : List Clock) (start a b c d n : ℕ) (r : Bytes) (s : Socket)
      → n < 2 ^ 64
      → s.incoming ≡ a ∷ b ∷ c ∷ d ∷ (be_bytes 8 n ++ r)
      → Sends s 12
      → Receives s 12
      → ((m : ℕ) → 2 ^ 63 ≤ m → allocates m ≡ false)
      → 2 ^ 63 ≤ n
      → connection_runs (k ∷ clocks) start s ≡ none
  unfolding connection_runs send_ack
  connection_runs-oversize k clocks start a b c d n r s small i sends receives limit large =
      let (t, e, _, _) = send_message-all blank_message 0 s (sends.0, omega (arith, sends.1)) in
      let (answers, incoming) = send_message-OnlySends blank_message true s t e in
      let thrown : throws allocates t ≡ true =
        throws-announced allocates a b c d n r t small (incoming ∙ i) (rw answers receives)
        ∙ (rw (limit n large) refl) in
      rw (e, connection_runs) (master_runs-oversize k clocks start t thrown)

  master_runs-master_rounds :
      (clocks : List Clock) (last : ℕ) (s : Socket)
      → ((m : ℕ) → allocates m ≡ true)
      → master_runs clocks last s ≡ some (master_rounds clocks last s)
  unfolding master_runs master_rounds
  master_runs-master_rounds [] last s all = refl
  master_runs-master_rounds (k ∷ clocks) last s all =
      elim (Option-cases (receive_message blank_message s)) [
        | inl e ↦ rw (throws-never allocates s all, master_runs, e, master_rounds) refl
        | inr ((received, t), e) ↦ elim (Option-cases (master_round k last received)) [
          | inl f ↦ rw (throws-never allocates s all, master_runs, e, master_rounds, f) refl
          | inr (last', f) ↦
              rw (throws-never allocates s all, master_runs, e, master_rounds, f)
                (master_runs-master_rounds clocks last' t all)
        ]
      ]
