-- ===== src/Replica/Client.antt =====
-- A replica that reaches the master behind failed attempts.
use blp_cache.Replica.Stream.{
  stream, stream_size, changed_all, Change, IsSmallChange, replica_rounds-stream,
}
use blp_cache.Replica.Silence.{heartbeat_rounds-sent}
use blp_cache.Replica.{start_replica, connected, heartbeat_message, left_loop}
use blp_cache.Socket.Events.{connect_attempts, create_client_socket}
use blp_cache.Message.Transfer.{on_wire, Sends, Receives}
use blp_cache.Socket.{Socket}
use blp_cache.Aof.{Aof}
use blp_cache.Db.{Storage, LevelDb}
use blp_cache.Prelude.{
  All, Bool, List, [], ap, arith, false, length, refl, some, suc, true, ℕ, ◌++◌, ◌+◌, ◌<◌, ◌^◌, ◌∙◌,
  ◌∷◌, ◌≡◌,
}

pub connect_attempts-reached :
    (failures : List (Bool × Bool)) (open_sockets : ℕ)
    → All (λ (a : Bool × Bool). (a.0 ≡ true) × (a.1 ≡ false)) failures
    → connect_attempts open_sockets (failures ++ ((true, true) ∷ []))
      ≡ (true, open_sockets + (length failures + 1))
unfolding connect_attempts create_client_socket
connect_attempts-reached [] open_sockets h = ap (λ (n : ℕ). (true, n)) (omega arith)
connect_attempts-reached ((socket_ok, connect_ok) ∷ failures) open_sockets ((e, f), h) =
    rw (e, f)
      (connect_attempts-reached failures (open_sockets + 1) h
        ∙ ap (λ (n : ℕ). (true, n)) (omega arith))

module _ {l : LevelDb} (wake : Aof → Aof) where
  -- A replica whose first attempts fail in `connect` and whose next one succeeds: its heartbeat thread
  -- sends one heartbeat and ends; its loop stores the changes of the stream that arrives, in their order,
  -- and takes every byte; and each failed attempt has left a descriptor open. The texts are shorter than
  -- 2 ^ 32 bytes, the offset is below 2 ^ 64, the thread has a round, and the kernel's answers make progress
  -- and are enough.
  pub start_replica-stream :
      (failures : List (Bool × Bool)) (beats offset : ℕ) (cs : List Change) (db : Storage l)
      (s : Socket)
      → All (λ (a : Bool × Bool). (a.0 ≡ true) × (a.1 ≡ false)) failures
      → offset < 2 ^ 64
      → All IsSmallChange cs
      → s.incoming ≡ stream offset cs
      → Sends s 12
      → Receives s (stream_size offset cs)
      → (t : Socket) × (u : Socket) × (start_replica
            (failures ++ ((true, true) ∷ []))
            (suc beats)
            (length cs)
            wake
            db
            s
          ≡ connected (length failures + 1) (left_loop t) (some (changed_all wake db cs, u)))
        × (t.wire ≡ s.wire ++ on_wire heartbeat_message)
        × (u.incoming ≡ [])
  unfolding start_replica
  start_replica-stream failures beats offset cs db s h small smalls i sends receives =
      let (t, e, w) = heartbeat_rounds-sent beats s sends in
      let (u, f, k) = replica_rounds-stream wake offset cs db s small smalls i receives in
      let reached : connect_attempts 0 (failures ++ ((true, true) ∷ []))
          ≡ (true, length failures + 1) =
        connect_attempts-reached failures 0 h ∙ ap (λ (n : ℕ). (true, n)) (omega arith) in
      (t, u, rw (reached, start_replica, e, f) refl, w, k)
