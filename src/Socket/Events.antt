-- ===== src/Socket/Events.antt =====
-- `recv_all_with_event` of src/common/socket_utils.cpp, in its two variants, and how sockets are made.
use blp_cache.Prelude.{
  Bool, Bytes, List, Option, [], drop, false, if◌then◌else◌, min, none, not, some, suc, take, true,
  zero, ℕ, ◌++◌, ◌+◌, ◌-◌, ◌∷◌,
}

-- The variants: with `kqueue` on macOS, with `epoll` on other systems.
pub data Platform : Type 0 where
  apple linux : Platform

-- How the wait behind a `recv` that would block ends.
pub data Wait : Type 0 where
  readable other_event timed_out wait_failed : Wait

-- What a call of `recv` on the nonblocking socket gives: at least one byte, the end of the stream, a
-- wait, or another error.
pub data RecvEvent : Type 0 where
  bytes_arrived : ℕ → RecvEvent
  end_of_stream : RecvEvent
  would_block : Wait → RecvEvent
  recv_failed : RecvEvent

-- Whether the loop goes on behind a wait: an event that is not the wanted one is looked at on macOS only.
unfoldable pub goes_on : Platform → Wait → Bool
goes_on p readable = true
goes_on apple other_event = false
goes_on linux other_event = true
goes_on p timed_out = false
goes_on p wait_failed = false

-- What a call does: its result, the bytes that were received and are still to arrive, and how many
-- descriptors that it opened are left open.
pub record EventCall : Type 0 where
  pub ok : Bool
  pub received : Bytes
  pub to_arrive : Bytes
  pub left_open : ℕ

-- `close(kq)` in front of a `return`; the variant for `epoll` has none.
unfoldable pub close_queue : Platform → ℕ → ℕ
close_queue apple open_queues = open_queues - 1
close_queue linux open_queues = open_queues

-- A `return` of the loop, or behind it.
unfoldable pub leaves_loop : Platform → ℕ → Bool → Bytes → Bytes → EventCall
leaves_loop p open_queues ok incoming got = record {
  ok = ok;
  received = got;
  to_arrive = incoming;
  left_open = close_queue p open_queues;
}

-- The loop, with the number of event queues that are open, the bytes that are still to arrive and those that
-- were received; `none` where an answer is missing.
unfoldable pub event_rounds : Platform → ℕ → List RecvEvent → Bytes → Bytes → ℕ → Option EventCall
event_rounds p open_queues events incoming got zero =
    some (leaves_loop p open_queues true incoming got)
event_rounds p open_queues [] incoming got (suc wanted) = none
event_rounds p open_queues (bytes_arrived n ∷ events) incoming got (suc wanted) =
    let m = min (suc n) (suc wanted) in
    event_rounds p open_queues events (drop m incoming) (got ++ take m incoming) (suc wanted - m)
event_rounds p open_queues (end_of_stream ∷ events) incoming got (suc wanted) =
    some (leaves_loop p open_queues false incoming got)
event_rounds p open_queues (recv_failed ∷ events) incoming got (suc wanted) =
    some (leaves_loop p open_queues false incoming got)
event_rounds p open_queues (would_block w ∷ events) incoming got (suc wanted) =
    let next = event_rounds p open_queues events incoming got (suc wanted) in
    if goes_on p w then next else some (leaves_loop p open_queues false incoming got)

-- A call; `queue_ok` says whether `kqueue` or `epoll_create1` opened a descriptor, and `register_ok` whether
-- the socket was registered with it. The variant for macOS returns where one of them fails; the other looks
-- at neither.
unfoldable pub recv_all_with_event :
    Platform → (queue_ok register_ok : Bool) → List RecvEvent → Bytes → ℕ → Option EventCall
recv_all_with_event apple queue_ok register_ok events incoming size =
    let opened = event_rounds apple 1 events incoming [] size in
    if not queue_ok
    then some (record { ok = false; received = []; to_arrive = incoming; left_open = 0 })
    else if not register_ok
    then some (leaves_loop apple 1 false incoming [])
    else opened
recv_all_with_event linux queue_ok register_ok events incoming size =
    event_rounds linux (if queue_ok then 1 else 0) events incoming [] size

-- What the making of a socket does: whether a descriptor is returned, else an exception is thrown, and how
-- many descriptors are open behind it.
pub record Created : Type 0 where
  pub returned : Bool
  pub open_sockets : ℕ

unfoldable pub create_server_socket : (socket_ok bind_ok listen_ok : Bool) → Created
create_server_socket socket_ok bind_ok listen_ok =
    if not socket_ok
    then record { returned = false; open_sockets = 0 }
    else if not bind_ok
    then record { returned = false; open_sockets = 1 }
    else if not listen_ok
    then record { returned = false; open_sockets = 1 }
    else record { returned = true; open_sockets = 1 }

unfoldable pub create_client_socket : (socket_ok connect_ok : Bool) → Created
create_client_socket socket_ok connect_ok =
    if not socket_ok
    then record { returned = false; open_sockets = 0 }
    else if not connect_ok
    then record { returned = false; open_sockets = 1 }
    else record { returned = true; open_sockets = 1 }

-- The attempts of the outer loop of `startReplica`, each with the answers to its two calls: how many
-- descriptors are open when one succeeds, or behind them all.
unfoldable pub connect_attempts : ℕ → List (Bool × Bool) → Bool × ℕ
connect_attempts open_sockets [] = (false, open_sockets)
connect_attempts open_sockets ((socket_ok, connect_ok) ∷ attempts) =
    let made = create_client_socket socket_ok connect_ok in
    let later = connect_attempts (open_sockets + made.open_sockets) attempts in
    if made.returned then (true, open_sockets + made.open_sockets) else later
