-- ===== src/Sequence/Calls.antt =====
-- Calls of `next` by any threads: the atomic additions happen one after the other.
use blp_cache.Sequence.{fetch_add, next_number, SequenceNumber}
use blp_cache.Prelude.{
  List, [], arith, get_elem?, length, some, suc, zero, ℕ, ◌%◌, ◌+◌, ◌<◌, ◌^◌, ◌∙◌, ◌∷◌, ◌≡◌, ◌≢◌,
  ◌≤◌,
}

-- The callers, in the order of their additions, and the number that each call returns.
abbrev pub next_calls : SequenceNumber → List ℕ → List (ℕ × ℕ) × SequenceNumber
next_calls s [] = ([], s)
next_calls s (caller ∷ callers) =
    let (numbers, end) = next_calls (next_number s).1 callers in
    ((caller, (next_number s).0) ∷ numbers, end)

-- The call with `i` calls before it returns the number that is `i` further on.
pub next_calls-get_elem? :
    (callers : List ℕ) (s : SequenceNumber) (i : ℕ) (caller n : ℕ)
    → s.sequence < 2 ^ 64
    → get_elem? (next_calls s callers).0 i ≡ some (caller, n)
    → n ≡ (s.sequence + i) % 2 ^ 64
unfolding next_number fetch_add
next_calls-get_elem? [] s i caller n h e = cc
next_calls-get_elem? (c ∷ callers) s zero caller n h e =
    let same_number : s.sequence ≡ n = ground arith in omega arith
next_calls-get_elem? (c ∷ callers) s (suc i) caller n h e =
    next_calls-get_elem? callers (next_number s).1 i caller n (omega arith) e ∙ omega arith

-- Of at most 2 ^ 64 calls of `next`, by any threads in any order, no two return the same number.
pub next_calls-differ :
    (callers : List ℕ) (s : SequenceNumber) (i j : ℕ) (first second n m : ℕ)
    → s.sequence < 2 ^ 64
    → length callers ≤ 2 ^ 64
    → i < j
    → j < length callers
    → get_elem? (next_calls s callers).0 i ≡ some (first, n)
    → get_elem? (next_calls s callers).0 j ≡ some (second, m)
    → n ≢ m
next_calls-differ callers s i j first second n m h few before within e f same_number =
    let here = next_calls-get_elem? callers s i first n h e in
    let there = next_calls-get_elem? callers s j second m h f in omega arith
