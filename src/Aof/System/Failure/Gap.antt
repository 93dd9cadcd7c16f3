-- ===== src/Aof/System/Failure/Gap.antt =====
-- A run with a failed write whose file has a gap.
use blp_cache.Aof.System.Failure.{failed, AnyReach, at_start, later, fine, write_fails, Step-flag}
use blp_cache.Aof.Writer.{offered, leaves, advance, take_batch, collect, store_offset}
use blp_cache.Aof.{append_raw_async}
use blp_cache.Aof.System.{
  finish, write, gather, append, finished, gathered, appended, written, System, gathering, writing,
  ended, left,
}
use blp_cache.Prelude.{
  Bool, Bytes, List, [], ap, append_assoc, arith, false, length, length-append, refl, sym,
  take-append_self, true, ℕ, ◌++◌, ◌<◌, ◌∙◌, ◌∷◌, ◌≡◌, ◌≤◌,
}

-- A system whose flag is down and whose queue has room queues a payload.
appended-room :
    (s : System) (p : Bytes)
    → s.aof.stop_flag ≡ false
    → length s.aof.queue < s.aof.opts.max_queue_entries
    → (appended s p).aof.queue ≡ s.aof.queue ++ (p ∷ [])
      × ((appended s p).aof.opts ≡ s.aof.opts)
      × ((appended s p).aof.stop_flag ≡ false)
      × ((appended s p).accepted ≡ s.accepted ++ (p ∷ []))
unfolding appended append_raw_async
appended-room s p open_log room = (ground arith, ground arith, ground arith, ground arith)

-- A batch of the only payload that is queued.
gathered-one :
    (s : System) (p : Bytes)
    → s.aof.queue ≡ p ∷ []
    → 0 < s.aof.opts.max_batch_entries
    → 0 < s.aof.opts.max_batch_bytes
    → ((gathered s).phase ≡ writing)
      × ((gathered s).batch ≡ p ∷ [])
      × ((gathered s).aof.queue ≡ [])
      × ((gathered s).aof.opts ≡ s.aof.opts)
      × ((gathered s).aof.stop_flag ≡ s.aof.stop_flag)
unfolding gathered collect take_batch
gathered-one s p queued entries bytes =
    rw queued (ground arith, ground arith, ground arith, refl, refl)

-- What a system keeps of the one it started as, with the writer about to gather.
record Waits (s : System) (queue : List Bytes) (flag : Bool) : Type 0 where
  waits : s.phase ≡ gathering
  queued : s.aof.queue ≡ queue
  flagged : s.aof.stop_flag ≡ flag
  entries : 0 < s.aof.opts.max_batch_entries
  bytes : 0 < s.aof.opts.max_batch_bytes

write-one :
    (s : System) (p : Bytes)
    → 0 < length p
    → s.batch ≡ p ∷ []
    → ((written (length p) s).batch ≡ [])
      × ((written (length p) s).file ≡ s.file ++ p)
      × (length p ≤ length (offered s.batch))
unfolding written advance
write-one s p nonempty e =
    let whole = take-append_self p [] in
    rw e (ground arith, ap (λ (b : Bytes). s.file ++ b) whole, omega (arith, length-append p []))

finished-stopped :
    (now : ℕ) (s : System)
    → s.aof.stop_flag ≡ true
    → s.aof.queue ≡ []
    → ((finished now s).phase ≡ ended)
      × ((finished now s).accepted ≡ s.accepted)
      × ((finished now s).file ≡ s.file)
unfolding finished store_offset leaves left
finished-stopped now s flag queue = rw (queue, finished, flag) (refl, refl, refl)

finished-queued :
    (now : ℕ) (s : System) (p : Bytes)
    → s.aof.queue ≡ p ∷ []
    → ((finished now s).phase ≡ gathering)
      × ((finished now s).aof.queue ≡ p ∷ [])
      × ((finished now s).aof.stop_flag ≡ s.aof.stop_flag)
      × ((finished now s).aof.opts ≡ s.aof.opts)
      × ((finished now s).accepted ≡ s.accepted)
      × ((finished now s).file ≡ s.file)
unfolding finished store_offset leaves left
finished-queued now s p queue =
    (ground arith, ground arith, ground arith, ground arith, ground arith, ground arith)

last_batch :
    (s : System) (p : Bytes) {begin : System}
    → AnyReach begin s
    → Waits s (p ∷ []) true
    → 0 < length p
    → (t : System) × AnyReach begin t
      × (t.phase ≡ ended)
      × (t.accepted ≡ s.accepted)
      × (t.file ≡ s.file ++ p)
last_batch s p {begin} r v nonempty =
    let one = gathered s in
    let (writes, batch, empty, _, _) = gathered-one s p v.queued v.entries v.bytes in
    let two = written (length p) one in
    let (none_left, file, fits) = write-one one p nonempty batch in
    let two_writes : two.phase ≡ writing = unfold written in writes in
    let two_empty : two.aof.queue ≡ [] = unfold written in empty in
    let two_flag : two.aof.stop_flag ≡ true =
      unfold written in Step-flag (gather v.waits refl) v.flagged in
    let took0 : two.accepted ≡ s.accepted = unfold written gathered in refl in
    let file0 : one.file ≡ s.file = unfold gathered in refl in
    let (over, took, same_file) = finished-stopped 0 two two_flag two_empty in
    let r1 : AnyReach begin one = later r (fine (gather v.waits refl)) in
    let r2 : AnyReach begin two = later r1 (fine (write (length p) writes fits refl)) in
    (
      finished 0 two,
      later r2 (fine (finish 0 two_writes none_left refl)),
      over,
      took ∙ took0,
      same_file ∙ file ∙ ap (λ (b : Bytes). b ++ p) file0,
    )

lost_batch :
    (s : System) (first second : Bytes)
    → Waits s [] false
    → 0 < s.aof.opts.max_queue_entries
    → (t : System) × AnyReach s t
      × Waits t (second ∷ []) true
      × (t.accepted ≡ s.accepted ++ (first ∷ second ∷ []))
      × (t.file ≡ s.file)
lost_batch s first second v room =
    let one = appended s first in
    let (queue1, opts1, open1, took1) = appended-room s first v.flagged (rw v.queued room) in
    let entries1 : 0 < one.aof.opts.max_batch_entries = rw opts1 v.entries in
    let bytes1 : 0 < one.aof.opts.max_batch_bytes = rw opts1 v.bytes in
    let queued1 : one.aof.queue ≡ first ∷ [] = rw (queue1, v.queued) refl in
    let waits1 : one.phase ≡ gathering = unfold appended in v.waits in
    let two = gathered one in
    let (writes2, batch2, queue2, opts2, open2) = gathered-one one first queued1 entries1 bytes1 in
    let room2 : length two.aof.queue < two.aof.opts.max_queue_entries =
      rw (queue2, opts2, opts1) room in
    let three = appended two second in
    let (queue3, opts3, open3, took3) = appended-room two second (open2 ∙ open1) room2 in
    let queued3 : three.aof.queue ≡ second ∷ [] = rw (queue3, queue2) refl in
    let writes3 : three.phase ≡ writing = unfold appended in writes2 in
    let batch3 : three.batch ≡ first ∷ [] = unfold appended in batch2 in
    let four = failed three in
    let queued4 : four.aof.queue ≡ second ∷ [] = unfold failed in queued3 in
    let (waits5, queue5, flag5, opts5, took5, file5) = finished-queued 0 four second queued4 in
    let opts4 : four.aof.opts ≡ three.aof.opts = unfold failed in refl in
    let opts : (finished 0 four).aof.opts ≡ s.aof.opts = opts5 ∙ opts4 ∙ opts3 ∙ opts2 ∙ opts1 in
    let took2 : two.accepted ≡ one.accepted = unfold gathered in refl in
    let took4 : four.accepted ≡ three.accepted = unfold failed in refl in
    let file4 : four.file ≡ s.file = unfold failed appended gathered in refl in
    let flag4 : four.aof.stop_flag ≡ true = unfold failed in refl in
    (
      finished 0 four,
      later
          (later
            (later (later (later at_start (fine (append first refl))) (fine (gather waits1 refl)))
              (fine (append second refl)))
            (write_fails writes3 (λ h. cons_ne (sym batch3 ∙ h)) refl))
          (fine (finish 0 (unfold failed in writes3) (unfold failed in refl) refl)),
      record {
        waits = waits5;
        queued = queue5;
        flagged = flag5 ∙ flag4;
        entries = rw opts v.entries;
        bytes = rw opts v.bytes;
      },
      took5
          ∙ took4
          ∙ took3
          ∙ ap (λ (l : List Bytes). l ++ (second ∷ [])) (took2 ∙ took1)
          ∙ append_assoc s.accepted (first ∷ []) (second ∷ []),
      file5 ∙ file4,
    )
  where
    cons_ne : first ∷ [] ≡ [] → ⊥
    cons_ne h = cc

-- From every state in which the writer is about to gather, the queue is empty, and appends are accepted,
-- there is a run that accepts two given payloads and ends with the second in the file and not the first:
-- the write of the first fails while the second is queued, and the writer goes on with the second.
pub failed_write_leaves_gap :
    (s : System) (first second : Bytes)
    → s.phase ≡ gathering
    → s.aof.queue ≡ []
    → s.aof.stop_flag ≡ false
    → 0 < s.aof.opts.max_queue_entries
    → 0 < s.aof.opts.max_batch_entries
    → 0 < s.aof.opts.max_batch_bytes
    → 0 < length second
    → (t : System) × AnyReach s t
      × (t.phase ≡ ended)
      × (t.accepted ≡ s.accepted ++ (first ∷ second ∷ []))
      × (t.file ≡ s.file ++ second)
failed_write_leaves_gap s first second g no_queue open_log room entries bytes nonempty =
    let v : Waits s [] false = record {
      waits = g;
      queued = no_queue;
      flagged = open_log;
      entries = entries;
      bytes = bytes;
    } in
    let (t, r, w, took, same_file) = lost_batch s first second v room in
    let (u, q, e, kept, file) = last_batch t second r w nonempty in
    (u, q, e, kept ∙ took, file ∙ ap (λ (b : Bytes). b ++ second) same_file)
