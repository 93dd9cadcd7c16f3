-- ===== src/Aof/System/EndToEnd.antt =====
-- From the appends of a run to the recovery of the next: the log is a durable sequence of commands.
use blp_cache.Recover.Log.{logged-append, logged, AreShort}
use blp_cache.Recover.Results.{recover-intact, Reads}
use blp_cache.Aof.System.Faithful.{IsFaithful}
use blp_cache.Aof.System.Stop.{stop_keeps_all}
use blp_cache.Aof.System.{gathering, writing, ended, Reach, System}
use blp_cache.Resp.{serialize, Command}
use blp_cache.Recover.{finishes, recover, Kernel}
use blp_cache.Prelude.{
  Bool, Bytes, List, ap, concat, length, map, none, sym, true, ◌++◌, ◌<◌, ◌^◌, ◌∙◌, ◌≡◌, ◌⊎◌,
}

-- The commands that a file holds when a run starts, and those that the run accepts, in which no write fails,
-- which is told to stop while the writer is gathering or writing, and whose writer has left its loop, are
-- the commands that the next recovery executes, all of them and in the order of acceptance, if each has
-- fewer than 2 ^ 31 parts, they are fewer than 2 ^ 62 bytes in all, and the kernel reads the file back.
pub recover-System :
    (k : Kernel) (truncate : Bool) (old cs : List Command) {s t : System}
    → IsFaithful (logged old) s
    → s.aof.stop_flag ≡ true
    → (s.phase ≡ gathering) ⊎ (s.phase ≡ writing)
    → Reach s t
    → t.phase ≡ ended
    → t.accepted ≡ map serialize cs
    → Reads k t.file
    → AreShort (old ++ cs)
    → length t.file < 2 ^ 62
    → recover k truncate ≡ finishes k (old ++ cs) none
recover-System k truncate old cs {s} {t} v stop at_work r e took reads short small =
    let (whole, _) = stop_keeps_all (logged old) v stop at_work r e in
    let same_file : t.file ≡ logged (old ++ cs) =
      whole ∙ ap (λ (p : List Bytes). logged old ++ concat p) took ∙ sym (logged-append old cs) in
    recover-intact k truncate (old ++ cs) (rw same_file at reads) short (rw same_file at small)
