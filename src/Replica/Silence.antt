-- ===== src/Replica/Silence.antt =====
-- What a listener replicates, and how the loops treat a connection.
use blp_cache.Recover.{opened}
use blp_cache.Recover.Log.{drain-logged, AreShort, logged}
use blp_cache.Resp.{no_frame, try_parse, Command}
use blp_cache.Resp.Frames.{try_parse-nil}
use blp_cache.Recover.Loop.{drain-stop}
use blp_cache.Recover.Chunks.{read_chunks-concat}
use blp_cache.Aof.System.Offset.{IsAtEnd, Reach-IsAtEnd}
use blp_cache.Aof.System.{System, Reach, writing}
use blp_cache.Aof.{get_current_offset, Aof}
use blp_cache.Message.Transfer.{send_message-all, on_wire, Sends}
use blp_cache.Recover.{drain, stopped, read_chunks, Kernel, read_scanned, read_commands_from_offset}
use blp_cache.Socket.{Socket}
use blp_cache.Replica.{on_command, heartbeat_message, heartbeat_rounds, on_append, left_loop}
use blp_cache.Prelude.{
  Bytes, List, [], ap, ap₂, arith, concat, drop, drop-append_self, drop-length, length, map, refl,
  suc, true, ℕ, ◌++◌, ◌<◌, ◌^◌, ◌∙◌, ◌≡◌, ◌≢◌,
}

read_commands_from_offset-nothing :
    (k : Kernel) (offset : ℕ)
    → read_chunks (stopped [] 0 []) k.chunks ≡ stopped [] 0 []
    → (read_commands_from_offset k offset).1 ≡ []
unfolding read_commands_from_offset read_scanned
read_commands_from_offset-nothing k offset scanned = ground arith

-- A listener that runs while the stored offset is that of the end of the file, so that the kernel has
-- no byte to read behind it, reacts to no command: whatever is still queued is not replicated by it.
pub on_append-at_end :
    (k : Kernel) (a : Aof) (file : Bytes)
    → get_current_offset a ≡ length file
    → concat k.chunks ≡ drop (get_current_offset a) file
    → on_append k a ≡ []
unfolding on_append
on_append-at_end k a file at_end rest =
    let nothing : concat k.chunks ≡ [] =
      rest ∙ drop-length (get_current_offset a) file (omega arith) in
    let scanned : read_chunks (stopped [] 0 []) k.chunks ≡ stopped [] 0 [] =
      read_chunks-concat k.chunks (rw nothing (omega arith))
      ∙ ap drain nothing
      ∙ drain-stop [] try_parse-nil in
    ap (map (on_command (get_current_offset a)))
      (read_commands_from_offset-nothing k (get_current_offset a) scanned)

-- In every order of steps of any threads, with no failed write, from a state whose stored offset is the end
-- of the file: a listener that is called while the writer is not in the middle of a batch reacts to no
-- command, where the kernel reads what the file has behind the offset.
pub on_append-silent :
    (k : Kernel) {s t : System}
    → IsAtEnd s
    → Reach s t
    → t.phase ≢ writing
    → concat k.chunks ≡ drop (get_current_offset t.aof) t.file
    → on_append k t.aof ≡ []
on_append-silent k {s} {t} v r quiet reads =
    on_append-at_end k t.aof t.file ((Reach-IsAtEnd v r).at_end quiet) reads

-- In every order of steps of any threads, with no failed write, from a state whose stored offset is the end
-- of the file: a listener that reads the offset while the writer is not in the middle of a batch reacts, in
-- order, to exactly the commands that the file got between this and its reading of the file; a torn record
-- behind them is passed over. The kernel opens the file and reads it from the offset to its end, and the
-- commands have fewer than 2 ^ 31 parts each and, with the torn record, fewer than 2 ^ 62 bytes in all.
pub on_append-between :
    (k : Kernel) (cs : List Command) (tail file : Bytes) {s t : System}
    → IsAtEnd s
    → Reach s t
    → t.phase ≢ writing
    → file ≡ t.file ++ (logged cs ++ tail)
    → try_parse tail ≡ no_frame
    → k.open_file ≡ opened
    → k.seek_set (get_current_offset t.aof) ≡ true
    → concat k.chunks ≡ drop (get_current_offset t.aof) file
    → AreShort cs
    → length (logged cs ++ tail) < 2 ^ 62
    → on_append k t.aof ≡ map (on_command (get_current_offset t.aof)) cs
unfolding on_append read_commands_from_offset read_scanned
on_append-between k cs tail file {s} {t} v r quiet grown torn opens seeks reads short small =
    let offset = get_current_offset t.aof in
    let at_end : offset ≡ length t.file = (Reach-IsAtEnd v r).at_end quiet in
    let behind : concat k.chunks ≡ logged cs ++ tail =
      reads
      ∙ ap₂ (λ (n : ℕ) (f : Bytes). drop n f) at_end grown
      ∙ drop-append_self t.file (logged cs ++ tail) in
    let scanned : read_chunks (stopped [] 0 []) k.chunks ≡ stopped cs (length (logged cs)) tail =
      read_chunks-concat k.chunks (rw behind small)
      ∙ ap drain behind
      ∙ drain-logged cs tail short small torn in
    ap (map (on_command offset))
      (rw (opens, read_commands_from_offset, seeks, scanned, read_scanned) refl)

-- A heartbeat loop is left at the first message that is sent: where the kernel's answers make progress
-- and are enough for one heartbeat, any number of rounds but none sends one heartbeat and ends.
pub heartbeat_rounds-sent :
    (rounds : ℕ) (s : Socket)
    → Sends s 12
    → (t : Socket) × (heartbeat_rounds (suc rounds) s ≡ left_loop t)
      × (t.wire ≡ s.wire ++ on_wire heartbeat_message)
unfolding heartbeat_rounds
heartbeat_rounds-sent rounds s h =
    let (t, e, w, _) = send_message-all heartbeat_message 0 s (h.0, omega (arith, h.1)) in
    (t, rw (e, heartbeat_rounds) refl, w)
