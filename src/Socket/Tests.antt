-- ===== src/Socket/Tests.antt =====
-- A receive of three bytes with a wait in between.
use blp_cache.Socket.{recv_all, Socket}
use blp_cache.Socket.Events.{
  close_queue, timed_out, leaves_loop, other_event, event_rounds, goes_on, recv_all_with_event,
  RecvEvent, linux, bytes_arrived, would_block, readable,
}
use blp_cache.Socket.Waiting.{recv_all_with_event-recv_all, as_event_call}
use mathlib.Core.Option
use blp_cache.Prelude.{List, [], codes, false, refl, some, true, ◌∷◌, ◌≡◌}

abbrev events : List RecvEvent
events =
    bytes_arrived 1
    ∷ would_block readable
    ∷ would_block other_event
    ∷ would_block timed_out
    ∷ bytes_arrived 5
    ∷ []

abbrev blocking : Socket
blocking = record { sends = []; recvs = 2 ∷ 0 ∷ 6 ∷ []; wire = []; incoming = codes "abcd" }

recv_all_with_event-recv_all_example :
    recv_all_with_event linux true true events (codes "abcd") 3
    ≡ Option.map (as_event_call linux) (recv_all 3 blocking)
recv_all_with_event-recv_all_example = recv_all_with_event-recv_all linux events 3 blocking refl

received :
    recv_all_with_event linux true true events (codes "abcd") 3
    ≡ some (record { ok = false; received = codes "ab"; to_arrive = codes "cd"; left_open = 1 })
unfolding recv_all_with_event event_rounds goes_on leaves_loop close_queue
received = refl
