-- ===== src/Aof/System/Offset.antt =====
-- Where the stored offset is.
use blp_cache.Aof.Writer.Batch.{collect_lem}
use blp_cache.Aof.Writer.{idle, store_offset, sync_batch}
use blp_cache.Aof.{Aof, append_raw_blocking, append_raw_async}
use blp_cache.Aof.System.{
  testing, Step, Reach, here, next, append, append_waited, request_stop, gather, test, write,
  finish, appended, appended_waited, told_to_stop, gathered, tested, left, written, finished,
  System, gathering, writing,
}
use blp_cache.Prelude.{Bytes, ap, arith, length, sym, ℕ, ◌∙◌, ◌≡◌, ◌≢◌}

-- The offset is that of the end of the file, but for a batch that is being written.
pub record IsAtEnd (s : System) : Type 0 where
  pub at_end : s.phase ≢ writing → s.aof.written_offset ≡ length s.file

module _ {s : System} (v : IsAtEnd s) where
  appended-IsAtEnd : (payload : Bytes) → IsAtEnd (appended s payload)
  unfolding appended append_raw_async
  appended-IsAtEnd payload = record { at_end = λ h. ground (arith, v.at_end h) }

  appended_waited-IsAtEnd : (payload : Bytes) → IsAtEnd (appended_waited s payload)
  unfolding appended_waited append_raw_blocking
  appended_waited-IsAtEnd payload = record { at_end = λ h. ground (arith, v.at_end h) }

  told_to_stop-IsAtEnd : IsAtEnd (told_to_stop s)
  unfolding told_to_stop
  told_to_stop-IsAtEnd = record { at_end = v.at_end }

  gathered-IsAtEnd : s.phase ≡ gathering → IsAtEnd (gathered s)
  unfolding gathered
  gathered-IsAtEnd g =
      let (_, rest, _, _) = collect_lem s.aof in
      let before = v.at_end (λ h. gathering_ne (sym g ∙ h)) in
      record { at_end = λ h. ap (λ (a : Aof). a.written_offset) rest ∙ before }
    where
      gathering_ne : gathering ≡ writing → ⊥
      gathering_ne h = cc

  tested-IsAtEnd : (now : ℕ) → s.phase ≡ testing → IsAtEnd (tested now s)
  unfolding tested idle left
  tested-IsAtEnd now g =
      let before = v.at_end (λ h. testing_ne (sym g ∙ h)) in
      record { at_end = λ h. ground (arith, before) }
    where
      testing_ne : testing ≡ writing → ⊥
      testing_ne h = cc

  written-IsAtEnd : (n : ℕ) → s.phase ≡ writing → IsAtEnd (written n s)
  unfolding written
  written-IsAtEnd n w = record { at_end = λ h. absurd (h w) }

  finished-IsAtEnd : (now : ℕ) → IsAtEnd (finished now s)
  unfolding finished store_offset sync_batch left
  finished-IsAtEnd now = record { at_end = λ h. ground arith }

Step-IsAtEnd : {s t : System} → Step s t → IsAtEnd s → IsAtEnd t
Step-IsAtEnd (append p e) v = rw e (appended-IsAtEnd v p)
Step-IsAtEnd (append_waited p w e) v = rw e (appended_waited-IsAtEnd v p)
Step-IsAtEnd (request_stop e) v = rw e (told_to_stop-IsAtEnd v)
Step-IsAtEnd (gather g e) v = rw e (gathered-IsAtEnd v g)
Step-IsAtEnd (test now g e) v = rw e (tested-IsAtEnd v now g)
Step-IsAtEnd (write n w fits e) v = rw e (written-IsAtEnd v n w)
Step-IsAtEnd (finish now w b e) v = rw e (finished-IsAtEnd v now)

pub Reach-IsAtEnd : {s t : System} → IsAtEnd s → Reach s t → IsAtEnd t
Reach-IsAtEnd v here = v
Reach-IsAtEnd v (next r st) = Step-IsAtEnd st (Reach-IsAtEnd v r)
