-- ===== src/Aof/System/Failure.antt =====
-- Runs in which a `writev` fails with an error other than `EINTR`.
pub mod Gap
use blp_cache.Aof.Writer.Batch.{collect_lem}
use blp_cache.Aof.Writer.{idle, store_offset}
use blp_cache.Aof.{Aof, append_raw_blocking, append_raw_async}
use blp_cache.Aof.System.{
  finish, write, gather, request_stop, append_waited, append, Step, told_to_stop, appended_waited,
  finished, gathered, appended, written, System, writing, tested, test, left,
}
use blp_cache.Prelude.{[], ap, arith, refl, true, ◌∙◌, ◌≡◌, ◌≢◌}

-- The failure: the flag is raised, and the rest of the batch is given up. What follows is what follows a
-- batch that was written.
unfoldable pub failed : System → System
failed s = record s { aof = record s.aof { stop_flag = true }; batch = [] }

-- The steps of any run.
pub data AnyStep (s t : System) : Type 0 where
  fine : Step s t → AnyStep s t
  write_fails : s.phase ≡ writing → s.batch ≢ [] → t ≡ failed s → AnyStep s t

pub data AnyReach (s : System) : System → Type 0 where
  at_start : AnyReach s s
  later : {t u : System} → AnyReach s t → AnyStep t u → AnyReach s u

-- No step lowers the flag.
pub Step-flag : {s t : System} → Step s t → s.aof.stop_flag ≡ true → t.aof.stop_flag ≡ true
unfolding appended append_raw_async appended_waited append_raw_blocking told_to_stop gathered tested
    idle left written finished store_offset
Step-flag (append p e) h = rw e (ground (arith, h))
Step-flag (append_waited p w e) h = rw e (ground (arith, h))
Step-flag (request_stop e) h = rw e refl
Step-flag {s} (gather g e) h =
    let (_, rest, _, _) = collect_lem s.aof in rw e (ap (λ (a : Aof). a.stop_flag) rest ∙ h)
Step-flag (test now g e) h = rw e (ground (arith, h))
Step-flag (write n w fits e) h = rw e h
Step-flag (finish now w b e) h = rw e (ground (arith, h))
