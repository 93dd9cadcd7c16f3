-- ===== src/Replica/Master/Rounds.antt =====
-- The connection of a replica whose messages arrive.
use mathlib.Core.Option
use blp_cache.Replica.{send_ack}
use blp_cache.Message.Receipt.{receive_message-Receives}
use blp_cache.Message.{blank_message, send_payload, heartbeat, Message, send_message}
use blp_cache.Replica.Master.{
  blocked, handle_replica, master_round, going_on, closed, Clock, Connected, master_rounds,
}
use blp_cache.Message.Transfer.{send_message-all, Sends, Receives, on_wire}
use blp_cache.Socket.{and_then, Socket, Net, send_all, send_rounds}
use blp_cache.Prelude.{
  All, Bool, Bool-cases, Bytes, List, Option, Option-cases, [], ap, arith, false, if◌then◌else◌,
  inl, inr, length, ltb, map, none, refl, some, sym, true, ℕ, ◌%◌, ◌++◌, ◌+◌, ◌-◌, ◌/◌, ◌<◌, ◌==◌,
  ◌^◌, ◌∙◌, ◌∷◌, ◌≡◌,
}

-- An action that does not touch what arrives.
abbrev OnlySends : Net Bool → Type 0
OnlySends action =
    (ok : Bool) (s t : Socket)
    → action s ≡ some (ok, t)
    → (t.recvs ≡ s.recvs) × (t.incoming ≡ s.incoming)

answered-OnlySends :
    (s t : Socket) (ok : Bool) (o : Option (Bool × List ℕ × Bytes))
    → Option.map {B = Bool × Socket}
        (λ (r : Bool × List ℕ × Bytes). (r.0, record s { sends = r.1; wire = r.2 }))
        o
      ≡ some (ok, t)
    → (t.recvs ≡ s.recvs) × (t.incoming ≡ s.incoming)
answered-OnlySends s t ok none h = cc
answered-OnlySends s t ok (some r) h = (cc, cc)

send_all-OnlySends : (b : Bytes) → OnlySends (send_all b)
unfolding send_all
send_all-OnlySends b ok s t h = answered-OnlySends s t ok (send_rounds s.sends s.wire b) h

send_payload-OnlySends : (b : Bytes) → OnlySends (send_payload b)
unfolding send_payload
send_payload-OnlySends [] ok s t h = (cc, cc)
send_payload-OnlySends (x ∷ b) ok s t h = send_all-OnlySends (x ∷ b) ok s t h

and_then-OnlySends :
    (first rest : Net Bool) → OnlySends first → OnlySends rest → OnlySends (and_then first rest)
unfolding and_then
and_then-OnlySends first rest f g ok s t h = elim (Option-cases (first s)) [
  | inl e ↦
      let step : and_then first rest s ≡ none = rw (e, and_then) refl in
      absurd (none_ne (ok, t) (sym step ∙ h))
  | inr ((true, u), e) ↦
      let step : and_then first rest s ≡ rest u = rw (e, and_then) refl in
      let (a, b) = f true s u e in let (c, d) = g ok u t (sym step ∙ h) in (c ∙ a, d ∙ b)
  | inr ((false, u), e) ↦
      let answer : Option (Bool × Socket) = some (false, u) in
      let step : and_then first rest s ≡ answer = rw (e, and_then) refl in
      let (a, b) = f false s u e in
      let same_socket : u ≡ t = cc in
      (
        ap (λ (x : Socket). x.recvs) (sym same_socket) ∙ a,
        ap (λ (x : Socket). x.incoming) (sym same_socket) ∙ b,
      )
]
  where
    none_ne : (x : Bool × Socket) → ¬ (none ≡ some x)
    none_ne x p = cc

pub send_message-OnlySends : (m : Message) → OnlySends (send_message m)
unfolding send_message
send_message-OnlySends m = and_then-OnlySends _ _ (send_all-OnlySends _) (
    and_then-OnlySends _ _ (send_all-OnlySends _) (
      and_then-OnlySends _ _ (send_all-OnlySends _)
        (and_then-OnlySends _ _ (send_all-OnlySends _) (send_payload-OnlySends m.payload))))

-- A message, and the clock in the round that receives it.
abbrev pub Round : Type 0
Round = Message × Clock

-- What the rounds come to: the time of the last heartbeat, or `none` where one of them ends more than ten
-- whole seconds behind it.
abbrev pub verdict : List Round → ℕ → Option ℕ
verdict [] last = some last
verdict ((m, c) ∷ rounds) last =
    let last' = if m.kind % 256 == heartbeat then c.noted else last in
    let later = verdict rounds last' in if ltb 10 ((c.ending - last') / 1000) then none else later

abbrev pub EndsAs : Option ℕ → Connected → Type 0
EndsAs none (closed s) = Unit
EndsAs none (going_on last s) = ⊥
EndsAs none blocked = ⊥
EndsAs (some last) (closed s) = ⊥
EndsAs (some last) (going_on last' s) = (last' ≡ last) × (s.incoming ≡ [])
EndsAs (some last) blocked = ⊥

abbrev pub stream : List Round → Bytes
stream [] = []
stream ((m, c) ∷ rounds) = on_wire m ++ stream rounds

abbrev pub stream_size : List Round → ℕ
stream_size [] = 0
stream_size ((m, c) ∷ rounds) = 12 + (length m.payload + stream_size rounds)

abbrev pub Fits : Round → Type 0
Fits (m, c) = (m.len ≡ length m.payload) × (m.len < 2 ^ 64)

master_rounds-stream :
    (rounds : List Round) (last : ℕ) (s : Socket)
    → All Fits rounds
    → s.incoming ≡ stream rounds
    → Receives s (stream_size rounds)
    → EndsAs (verdict rounds last) (master_rounds (map (λ (r : Round). r.1) rounds) last s)
unfolding master_rounds master_round
master_rounds-stream [] last s h i enough = (refl, i)
master_rounds-stream ((m, c) ∷ rounds) last s ((fits, small), h) i enough =
    let (t, e, j, left) =
      receive_message-Receives m blank_message (stream rounds) (stream_size rounds) s fits small i
        enough in
    let last' = if m.kind % 256 == heartbeat then c.noted else last in
    elim (Bool-cases (ltb 10 ((c.ending - last') / 1000))) [
      | inl f ↦ rw (e, master_rounds, f) tt
      | inr f ↦ rw (e, master_rounds, f) (master_rounds-stream rounds last' t h j left)
    ]

-- Where a replica's messages arrive, with an answer of the kernel for each byte of them and of the
-- acknowledgement in front: the connection is closed at the first round that ends more than ten whole
-- seconds behind the last heartbeat, or the start; else the master has received every message, and holds
-- the time of the last heartbeat.
pub handle_replica-stream :
    (rounds : List Round) (start : ℕ) (s : Socket)
    → All Fits rounds
    → s.incoming ≡ stream rounds
    → Sends s 12
    → Receives s (stream_size rounds)
    → EndsAs (verdict rounds start) (handle_replica (map (λ (r : Round). r.1) rounds) start s)
unfolding handle_replica send_ack
handle_replica-stream rounds start s h i sends receives =
    let (t, e, _, _) = send_message-all blank_message 0 s (sends.0, omega (arith, sends.1)) in
    let (answers, incoming) = send_message-OnlySends blank_message true s t e in
    rw (e, handle_replica)
      (master_rounds-stream rounds start t h (incoming ∙ i) (rw answers receives))
