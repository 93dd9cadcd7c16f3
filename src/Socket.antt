-- ===== src/Socket.antt =====
-- `send_all` and `recv_all` of src/common/socket_utils.cpp. The kernel's answers are lists of counts, in
-- order: 0 stands for a result that is not positive, and another count for up to as many bytes.
pub mod Transfer
pub mod Events
pub mod Waiting
mod Tests
use mathlib.Core.Option
use blp_cache.Prelude.{
  Bool, Bytes, List, Option, [], drop, false, if◌then◌else◌, min, none, some, suc, take, true, zero,
  ℕ, ◌++◌, ◌-◌, ◌==◌, ◌∷◌,
}

-- A connected socket: the answers to come, the bytes sent so far and those that will arrive.
pub record Socket : Type 0 where
  pub sends : List ℕ
  pub recvs : List ℕ
  pub wire : Bytes
  pub incoming : Bytes

-- The loop of `send_all`; `none` where the call waits for an answer that does not come.
unfoldable pub send_rounds : List ℕ → Bytes → Bytes → Option (Bool × List ℕ × Bytes)
send_rounds answers wire [] = some (true, answers, wire)
send_rounds [] wire (b ∷ left) = none
send_rounds (n ∷ answers) wire (b ∷ left) =
    let next = send_rounds answers (wire ++ take n (b ∷ left)) (drop n (b ∷ left)) in
    if n == 0 then some (false, answers, wire) else next

-- The loop of `recv_all`, which asks for `wanted` more bytes behind those that it got.
unfoldable pub recv_rounds : List ℕ → Bytes → Bytes → ℕ → Option (Bool × List ℕ × Bytes × Bytes)
recv_rounds answers incoming got zero = some (true, answers, incoming, got)
recv_rounds [] incoming got (suc wanted) = none
recv_rounds (n ∷ answers) incoming got (suc wanted) =
    let some_bytes = min n (suc wanted) in
    let next =
      recv_rounds answers (drop some_bytes incoming) (got ++ take some_bytes incoming)
        (suc wanted - some_bytes) in
    if n == 0 then some (false, answers, incoming, got) else next

-- An action on a socket; `none` where it never returns.
abbrev pub Net : Type 0 → Type 0
Net A = Socket → Option (A × Socket)

unfoldable pub send_all : Bytes → Net Bool
send_all buffer s =
    Option.map (λ (r : Bool × List ℕ × Bytes). (r.0, record s { sends = r.1; wire = r.2 }))
      (send_rounds s.sends s.wire buffer)

-- The result is that of `recv_all`, with the bytes that were put into the buffer.
unfoldable pub recv_all : ℕ → Net (Bool × Bytes)
recv_all size s =
    Option.map
      (λ (r : Bool × List ℕ × Bytes × Bytes).
        ((r.0, r.3), record s { recvs = r.1; incoming = r.2 }))
      (recv_rounds s.recvs s.incoming [] size)

-- `if (!first) return false;` and the rest.
unfoldable pub and_then : Net Bool → Net Bool → Net Bool
and_then first rest s = elim (first s) [
  | none ↦ none
  | some (ok, s') ↦ if ok then rest s' else some (false, s')
]
