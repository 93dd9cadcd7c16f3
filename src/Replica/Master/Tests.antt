-- ===== src/Replica/Master/Tests.antt =====
-- A peer that announces a payload of 2 ^ 63 bytes.
use blp_cache.Replica.Master.{Clock}
use blp_cache.Replica.Master.Oversize.{connection_runs, connection_runs-oversize}
use blp_cache.Wire.{be_bytes}
use blp_cache.Socket.{Socket}
use blp_cache.Prelude.{Bool, [], arith, ltb, none, refl, replicate, ℕ, ◌++◌, ◌^◌, ◌∷◌, ◌≡◌}

-- A machine that can allocate less than a gigabyte.
abbrev small_machine : ℕ → Bool
small_machine n = ltb n (2 ^ 30)

abbrev peer : Socket
peer = record {
  sends = replicate 12 1;
  recvs = replicate 12 4;
  wire = [];
  incoming = 3 ∷ 0 ∷ 151 ∷ 152 ∷ (be_bytes 8 (2 ^ 63) ++ []);
}

abbrev clock : Clock
clock = record { noted = 5; ending = 6 }

connection_runs-oversize_example : connection_runs small_machine (clock ∷ []) 0 peer ≡ none
connection_runs-oversize_example =
    connection_runs-oversize small_machine clock [] 0 3 0 151 152 (2 ^ 63) [] peer (omega arith)
      refl (omega arith, omega arith) (omega arith, omega arith) (λ m h. ground arith) (omega arith)
