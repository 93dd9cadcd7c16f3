-- ===== src/Message/Tests.antt =====
-- A heartbeat on a socket whose kernel takes and gives three bytes at a time.
use blp_cache.Message.Receipt.{receive_message-all}
use blp_cache.Message.{blank_message, magic_number, receive_message, incr_sync, Message}
use blp_cache.Socket.{Socket}
use blp_cache.Message.Transfer.{on_wire}
use blp_cache.Prelude.{List, [], arith, codes, refl, some, true, ℕ, ◌*◌, ◌++◌, ◌^◌, ◌∷◌, ◌≡◌}

abbrev threes : List ℕ
threes = 3 ∷ 3 ∷ 3 ∷ 3 ∷ 3 ∷ 3 ∷ 3 ∷ 3 ∷ 3 ∷ 3 ∷ 3 ∷ 3 ∷ 3 ∷ 3 ∷ []

abbrev change : Message
change = record {
  kind = incr_sync;
  magic = magic_number;
  len = 2;
  offset = 259;
  payload = codes "ab";
}

abbrev fresh : Socket
fresh = record { sends = threes; recvs = []; wire = []; incoming = [] }

abbrev waiting : Socket
waiting = record { sends = []; recvs = threes; wire = []; incoming = on_wire change ++ codes "x" }

receive_message-all_example :
    (t : Socket) × (receive_message blank_message waiting
      ≡ some (
        (true, record { kind = 2; magic = 0; len = 0; offset = 3 * 2 ^ 56; payload = codes "ab" }),
        t,
      ))
    × (t.incoming ≡ codes "x")
receive_message-all_example =
    receive_message-all change blank_message (codes "x") waiting refl (omega arith) refl
      (omega arith, omega arith)
