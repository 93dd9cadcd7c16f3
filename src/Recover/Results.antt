-- ===== src/Recover/Results.antt =====
-- What `recoverFromAOF` returns and does to the file.
use blp_cache.Resp.Frames.{try_parse-nil}
use blp_cache.Recover.Chunks.{read_chunks-concat}
use blp_cache.Recover.Log.{drain-logged, read_chunks-logged, AreShort, logged}
use blp_cache.Resp.{serialize, Command}
use blp_cache.Recover.{
  drain, returned, quits, finishes, stopped, read_chunks, read_only, recover_sized, opened, Kernel,
  recover, handle_tail, recover_scanned,
}
use blp_cache.Prelude.{
  Bool, Bytes, List, [], ap, append-nil, arith, concat, false, if◌then◌else◌, length, length-take,
  none, refl, some, suc, sym, take, true, ℕ, ◌++◌, ◌<◌, ◌^◌, ◌∙◌, ◌∷◌, ◌≡◌, ◌≢◌,
}

-- The answers of a kernel that opens a nonempty file and reads all of `file`.
pub record Reads (k : Kernel) (file : Bytes) : Type 0 where
  pub opens : k.open_file ≡ opened
  pub sized : k.file_size ≡ some (length file)
  pub nonempty : length file ≢ 0
  pub whole : concat k.chunks ≡ file
  pub no_error : k.read_error ≡ false

recover-scanned :
    (k : Kernel) (truncate : Bool) (file : Bytes)
    → Reads k file
    → recover k truncate ≡ recover_scanned k truncate (read_chunks (stopped [] 0 []) k.chunks)
unfolding recover recover_sized
recover-scanned k truncate file r = rw (r.opens, recover, r.sized) (ground (arith, r.nonempty))

stopped-handled :
    (k : Kernel) (truncate : Bool) (done : List Command) (n : ℕ) (left : Bytes)
    → k.read_error ≡ false
    → recover_scanned k truncate (stopped done n left) ≡ handle_tail k truncate done n left
unfolding recover_scanned
stopped-handled k truncate done n left e = rw e

-- From a file of one or more serialized commands, of fewer than 2 ^ 31 parts each and fewer than
-- 2 ^ 62 bytes in all, a recovery that meets no error executes exactly those commands in order,
-- returns true, cuts nothing, and stores the offset of the end.
pub recover-intact :
    (k : Kernel) (truncate : Bool) (cs : List Command)
    → Reads k (logged cs)
    → AreShort cs
    → length (logged cs) < 2 ^ 62
    → recover k truncate ≡ finishes k cs none
recover-intact k truncate cs r s small =
    let read : read_chunks (stopped [] 0 []) k.chunks ≡ stopped cs (length (logged cs)) [] =
      read_chunks-concat k.chunks (rw r.whole small)
      ∙ ap drain (r.whole ∙ sym (append-nil (logged cs)))
      ∙ drain-logged cs [] s (rw append-nil small) try_parse-nil in
    recover-scanned k truncate (logged cs) r
    ∙ ap (recover_scanned k truncate) read
    ∙ stopped-handled k truncate cs _ [] r.no_error
    ∙ (unfold handle_tail in refl)

torn-handled :
    (k : Kernel) (truncate : Bool) (done : List Command) (good : ℕ) (tail : Bytes)
    → length tail ≢ 0
    → handle_tail k truncate done good tail ≡ (
        if truncate
        then (if k.ftruncate read_only good then finishes k done (some good) else quits false done)
        else finishes k done none)
unfolding handle_tail
torn-handled k truncate done good [] h = absurd (h refl)
torn-handled k truncate done good (b ∷ tail) h = refl

-- From such a file with, behind its commands, at least the first byte but not all of one more, the
-- commands before the torn one are executed, in order. Without truncation the call returns true.
-- With it, the file is cut to exactly the bytes of those commands if `ftruncate` on the descriptor
-- opened for reading succeeds, and the call returns false with nothing stored if it fails.
pub recover-torn :
    (k : Kernel) (truncate : Bool) (cs : List Command) (torn : Command) (n : ℕ)
    → Reads k (logged cs ++ take (suc n) (serialize torn))
    → AreShort cs
    → length torn < 2 ^ 31
    → suc n < length (serialize torn)
    → length (serialize torn) < 2 ^ 62
    → length (logged cs ++ take (suc n) (serialize torn)) < 2 ^ 62
    → recover k truncate ≡ (
        if truncate
        then (if k.ftruncate read_only (length (logged cs))
            then finishes k cs (some (length (logged cs)))
            else quits false cs)
        else finishes k cs none)
recover-torn k truncate cs torn n r s st cut fits small =
    let tail = take (suc n) (serialize torn) in
    let size = length-take (suc n) (serialize torn) in
    recover-scanned k truncate (logged cs ++ tail) r
    ∙ ap (recover_scanned k truncate)
        (read_chunks-logged cs torn (suc n) k.chunks s st cut fits r.whole small)
    ∙ stopped-handled k truncate cs (length (logged cs)) tail r.no_error
    ∙ torn-handled k truncate cs (length (logged cs)) tail (omega arith)

-- On a kernel that refuses to truncate through a descriptor opened for reading, recovery with
-- truncation of such a file fails: it returns false, and neither cuts the file nor stores an offset.
pub recover-torn_read_only :
    (k : Kernel) (cs : List Command) (torn : Command) (n : ℕ)
    → ((len : ℕ) → k.ftruncate read_only len ≡ false)
    → Reads k (logged cs ++ take (suc n) (serialize torn))
    → AreShort cs
    → length torn < 2 ^ 31
    → suc n < length (serialize torn)
    → length (serialize torn) < 2 ^ 62
    → length (logged cs ++ take (suc n) (serialize torn)) < 2 ^ 62
    → ((recover k true).result ≡ returned false)
      × ((recover k true).cut_to ≡ none)
      × ((recover k true).stored_offset ≡ none)
recover-torn_read_only k cs torn n refuses r s st cut fits small =
    let e = recover-torn k true cs torn n r s st cut fits small in
    let no = refuses (length (logged cs)) in ground arith
