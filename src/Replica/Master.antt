-- ===== src/Replica/Master.antt =====
-- `handle_replica` and the loop of `startServer`, src/replica/server.cpp: the master's side of a connection. What it does with the
-- other kinds of message is to print.
pub mod Rounds
pub mod Listeners
pub mod Oversize
mod Tests
use blp_cache.Aof.{register_listener, Aof}
use blp_cache.Replica.{send_ack}
use blp_cache.Message.{receive_message, heartbeat, Message, blank_message}
use blp_cache.Socket.{Socket}
use blp_cache.Prelude.{
  Bool, List, Option, [], false, if◌then◌else◌, ltb, none, some, true, ℕ, ◌-◌, ◌/◌, ◌==◌, ◌∷◌,
}

-- The readings of the clock in a round, in milliseconds: where a heartbeat is noted, and at its end.
pub record Clock : Type 0 where
  pub noted : ℕ
  pub ending : ℕ

-- What a round does with what it received: the time of the last heartbeat, or `none` where the loop is
-- left.
unfoldable pub master_round : Clock → ℕ → Bool × Message → Option ℕ
master_round c last (false, m) = none
master_round c last (true, m) =
    let last' = if m.kind == heartbeat then c.noted else last in
    if ltb 10 ((c.ending - last') / 1000) then none else some last'

-- How a connection stands: closed, behind as many rounds as there are readings, or in a call that never
-- returns.
pub data Connected : Type 0 where
  closed : Socket → Connected
  going_on : ℕ → Socket → Connected
  blocked : Connected

unfoldable pub master_rounds : List Clock → ℕ → Socket → Connected
master_rounds [] last s = going_on last s
master_rounds (c ∷ clocks) last s = elim (receive_message blank_message s) [
  | none ↦ blocked
  | some (received, s') ↦ elim (master_round c last received) [
    | none ↦ closed s'
    | some last' ↦ master_rounds clocks last' s'
  ]
]

-- The result of `send_ack` is only printed.
unfoldable pub handle_replica : List Clock → ℕ → Socket → Connected
handle_replica clocks start s = elim (send_ack 0 s) [
  | none ↦ blocked
  | some (ok, s') ↦ master_rounds clocks start s'
]

-- The loop of `startServer` over the connections that were accepted: for each a listener is registered,
-- which is known by the connection it sends to, and a thread runs `handle_replica`.
unfoldable pub accept_replicas : List ℕ → Aof → Aof
accept_replicas [] a = a
accept_replicas (client_fd ∷ clients) a = accept_replicas clients (register_listener a client_fd)
