-- ===== src/Socket/Waiting.antt =====
-- Waiting for events receives what blocking calls receive, and what is left open behind calls.
use blp_cache.Socket.Transfer.{recv_rounds-step}
use blp_cache.Socket.{recv_all, Socket, recv_rounds}
use blp_cache.Socket.Events.{
  leaves_loop, close_queue, readable, other_event, timed_out, wait_failed, close_queue, leaves_loop,
  apple, linux, create_client_socket, EventCall, connect_attempts, recv_all_with_event, goes_on,
  RecvEvent, Platform, event_rounds, bytes_arrived, end_of_stream, would_block, recv_failed,
}
use mathlib.Core.Option
use blp_cache.Prelude.{
  All, Bool, Bytes, List, Option, [], ap, arith, drop, false, length, min, none, refl, some, suc,
  sym, take, true, zero, ℕ, ◌++◌, ◌+◌, ◌-◌, ◌∙◌, ◌∷◌, ◌≡◌,
}

-- The answers of a blocking `recv` in place of events. A wait that ends with the socket readable is as if it
-- had not been; one that times out or fails is as if the stream had ended there. Where another event ends
-- the wait, the loop of the variant for `epoll` goes on, and that of the variant for `kqueue` does not.
abbrev pub counts : Platform → List RecvEvent → List ℕ
counts p [] = []
counts p (bytes_arrived n ∷ events) = suc n ∷ counts p events
counts p (end_of_stream ∷ events) = 0 ∷ counts p events
counts p (recv_failed ∷ events) = 0 ∷ counts p events
counts p (would_block readable ∷ events) = counts p events
counts p (would_block timed_out ∷ events) = 0 ∷ counts p events
counts p (would_block wait_failed ∷ events) = 0 ∷ counts p events
counts apple (would_block other_event ∷ events) = 0 ∷ counts apple events
counts linux (would_block other_event ∷ events) = counts linux events

-- How many descriptors a call leaves open.
abbrev pub leaks : Platform → ℕ
leaks apple = 0
leaks linux = 1

abbrev received_as : Platform → Option (Bool × List ℕ × Bytes × Bytes) → Option EventCall
received_as p none = none
received_as p (some (ok, answers, incoming, got)) =
    some (record { ok = ok; received = got; to_arrive = incoming; left_open = leaks p })

leaves_loop-leaks :
    (p : Platform) (ok : Bool) (incoming got : Bytes)
    → leaves_loop p 1 ok incoming got
      ≡ record { ok = ok; received = got; to_arrive = incoming; left_open = leaks p }
unfolding leaves_loop close_queue
leaves_loop-leaks apple ok incoming got = refl
leaves_loop-leaks linux ok incoming got = refl

event_rounds-recv_rounds :
    (p : Platform) (events : List RecvEvent) (incoming got : Bytes) (wanted : ℕ)
    → event_rounds p 1 events incoming got wanted
      ≡ received_as p (recv_rounds (counts p events) incoming got wanted)
unfolding event_rounds recv_rounds goes_on
event_rounds-recv_rounds p events incoming got zero =
    ap some (leaves_loop-leaks p true incoming got)
event_rounds-recv_rounds p [] incoming got (suc wanted) = refl
event_rounds-recv_rounds p (bytes_arrived n ∷ events) incoming got (suc wanted) =
    let m = min (suc n) (suc wanted) in
    event_rounds-recv_rounds p events (drop m incoming) (got ++ take m incoming) (suc wanted - m)
    ∙ ap (received_as p)
        (sym (recv_rounds-step (suc n) (counts p events) incoming got wanted (omega arith)))
event_rounds-recv_rounds p (end_of_stream ∷ events) incoming got (suc wanted) =
    ap some (leaves_loop-leaks p false incoming got)
event_rounds-recv_rounds p (recv_failed ∷ events) incoming got (suc wanted) =
    ap some (leaves_loop-leaks p false incoming got)
event_rounds-recv_rounds p (would_block readable ∷ events) incoming got (suc wanted) =
    event_rounds-recv_rounds p events incoming got (suc wanted)
event_rounds-recv_rounds p (would_block timed_out ∷ events) incoming got (suc wanted) =
    ap some (leaves_loop-leaks p false incoming got)
event_rounds-recv_rounds p (would_block wait_failed ∷ events) incoming got (suc wanted) =
    ap some (leaves_loop-leaks p false incoming got)
event_rounds-recv_rounds apple (would_block other_event ∷ events) incoming got (suc wanted) =
    ap some (leaves_loop-leaks apple false incoming got)
event_rounds-recv_rounds linux (would_block other_event ∷ events) incoming got (suc wanted) =
    event_rounds-recv_rounds linux events incoming got (suc wanted)

abbrev pub as_event_call : Platform → (Bool × Bytes) × Socket → EventCall
as_event_call p ((ok, received), s) = record {
  ok = ok;
  received = received;
  to_arrive = s.incoming;
  left_open = leaks p;
}

with_queue :
    (p : Platform) (events : List RecvEvent) (incoming : Bytes) (size : ℕ)
    → recv_all_with_event p true true events incoming size
      ≡ event_rounds p 1 events incoming [] size
unfolding recv_all_with_event
with_queue apple events incoming size = refl
with_queue linux events incoming size = refl

-- Where the event queue is set up, a call with events receives what `recv_all` receives from a blocking socket
-- on which the waits that end with the socket readable are gone, those that time out or fail are the end of
-- the stream, and those that another event ends are gone with `epoll` and the end of the stream with
-- `kqueue`: the result, the bytes received and the bytes still to arrive are the same. The descriptor that
-- the call opened is left open with `epoll` on every way out, and closed on each with `kqueue`.
pub recv_all_with_event-recv_all :
    (p : Platform) (events : List RecvEvent) (size : ℕ) (s : Socket)
    → s.recvs ≡ counts p events
    → recv_all_with_event p true true events s.incoming size
      ≡ Option.map (as_event_call p) (recv_all size s)
unfolding recv_all
recv_all_with_event-recv_all p events size s e =
    with_queue p events s.incoming size
    ∙ event_rounds-recv_rounds p events s.incoming [] size
    ∙ ap (λ (answers : List ℕ). received_as p (recv_rounds answers s.incoming [] size)) (sym e)
    ∙ both (recv_rounds s.recvs s.incoming [] size)
  where
    both :
        (o : Option (Bool × List ℕ × Bytes × Bytes))
        → received_as p o
          ≡ Option.map (as_event_call p) (
              Option.map
                (λ (r : Bool × List ℕ × Bytes × Bytes).
                  ((r.0, r.3), record s { recvs = r.1; incoming = r.2 }))
                o)
    both none = refl
    both (some (ok, answers, incoming, got)) = refl

-- Each attempt to connect that fails behind `socket` leaves a descriptor open.
pub connect_attempts-failed :
    (attempts : List (Bool × Bool)) (open_sockets : ℕ)
    → All (λ (a : Bool × Bool). (a.0 ≡ true) × (a.1 ≡ false)) attempts
    → connect_attempts open_sockets attempts ≡ (false, open_sockets + length attempts)
unfolding connect_attempts create_client_socket
connect_attempts-failed [] open_sockets h = ap (λ (n : ℕ). (false, n)) (omega arith)
connect_attempts-failed ((socket_ok, connect_ok) ∷ attempts) open_sockets ((e, f), h) =
    rw (e, f)
      (connect_attempts-failed attempts (open_sockets + 1) h
        ∙ ap (λ (n : ℕ). (false, n)) (omega arith))
