-- ===== src/Aof/Writer/Batch.antt =====
-- What a batch is: a first part of the queue, within the limits.
use blp_cache.Aof.{Options, Aof}
use blp_cache.Aof.Writer.{take_batch, collect}
use blp_cache.Prelude.{
  Bool-cases, Bytes, List, [], arith, concat, inl, inr, length, length-append, ltb, refl, suc, ℕ,
  ◌&&◌, ◌++◌, ◌+◌, ◌∷◌, ◌≡◌, ◌≢◌, ◌≤◌, ◌⊎◌,
}

take_batch-append :
    (o : Options) (count bytes : ℕ) (queue : List Bytes)
    → (take_batch o count bytes queue).0 ++ (take_batch o count bytes queue).1 ≡ queue
unfolding take_batch
take_batch-append o count bytes [] = refl
take_batch-append o count bytes (s ∷ queue) =
    ground (arith, take_batch-append o (count + 1) (bytes + length s) queue)

take_batch-length :
    (o : Options) (count bytes : ℕ) (queue : List Bytes)
    → count ≤ o.max_batch_entries
    → count + length (take_batch o count bytes queue).0 ≤ o.max_batch_entries
unfolding take_batch
take_batch-length o count bytes [] h = omega arith
take_batch-length o count bytes (s ∷ queue) h =
    ground (arith, take_batch-length o (count + 1) (bytes + length s) queue)

-- Where a payload stays behind, a limit was met.
take_batch-full :
    (o : Options) (count bytes : ℕ) (queue : List Bytes)
    → let (batch, rest) = take_batch o count bytes queue in
      rest ≢ []
      → (o.max_batch_entries ≤ count + length batch)
        ⊎ (o.max_batch_bytes ≤ bytes + length (concat batch))
unfolding take_batch
take_batch-full o count bytes [] h = absurd (h refl)
take_batch-full o count bytes (s ∷ queue) h =
    elim (Bool-cases (ltb count o.max_batch_entries && ltb bytes o.max_batch_bytes)) [
      | inl e ↦
          rw e (
            widen
              (take_batch-full o (count + 1) (bytes + length s) queue (rw (take_batch, e) at h)))
      | inr e ↦ rw e (ground arith)
    ]
  where
    batch : List Bytes
    batch = (take_batch o (count + 1) (bytes + length s) queue).0

    widen :
        (o.max_batch_entries ≤ count + 1 + length batch)
          ⊎ (o.max_batch_bytes ≤ bytes + length s + length (concat batch))
        → (o.max_batch_entries ≤ count + suc (length batch))
          ⊎ (o.max_batch_bytes ≤ bytes + length (s ++ concat batch))
    widen (inl f) = inl (omega arith)
    widen (inr f) = inr (omega (arith, length-append s (concat batch)))

-- `collect` moves a first part of the queue into the batch, in order: at most `max_batch_entries`
-- payloads, and as many as the two limits allow, so that a payload stays behind only if the batch has
-- `max_batch_entries` payloads or `max_batch_bytes` bytes. Nothing else of the object changes.
pub collect_lem :
    (a : Aof)
    → let (batch, b) = collect a in
      (batch ++ b.queue ≡ a.queue)
      × (b ≡ record a { queue = b.queue })
      × (length batch ≤ a.opts.max_batch_entries)
      × (b.queue ≢ []
          → (a.opts.max_batch_entries ≤ length batch)
            ⊎ (a.opts.max_batch_bytes ≤ length (concat batch)))
unfolding collect
collect_lem a = (
  take_batch-append a.opts 0 0 a.queue,
  refl,
  omega (arith, take_batch-length a.opts 0 0 a.queue (omega arith)),
  λ h. from_zero (take_batch-full a.opts 0 0 a.queue h),
)
  where
    batch : List Bytes
    batch = (take_batch a.opts 0 0 a.queue).0

    from_zero :
        (a.opts.max_batch_entries ≤ 0 + length batch)
          ⊎ (a.opts.max_batch_bytes ≤ 0 + length (concat batch))
        → (a.opts.max_batch_entries ≤ length batch)
          ⊎ (a.opts.max_batch_bytes ≤ length (concat batch))
    from_zero (inl f) = inl (omega arith)
    from_zero (inr f) = inr (omega arith)
