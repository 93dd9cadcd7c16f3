-- ===== src/Aof/System/Crash.antt =====
-- A crash at any moment of a run: what the next recovery finds.
use blp_cache.Aof.System.Faithful.{Reach-IsFaithful, IsFaithful}
use blp_cache.Aof.System.{Reach, System}
use blp_cache.Resp.{Command, serialize}
use blp_cache.Recover.{quits, read_only, finishes, Recovery, recover, Kernel}
use blp_cache.Recover.Cuts.{logged-Cut, Cut, between, inside}
use blp_cache.Recover.Results.{recover-torn, recover-intact, Reads}
use blp_cache.Recover.Log.{logged, AreShort}
use mathlib.Core.List.{map-append}
use blp_cache.Prelude.{
  All-parts, Bool, Bytes, List, [], ap, append-nil, arith, concat, concat-append, false,
  if◌then◌else◌, length, length-append, length-take, map, none, refl, some, subst, suc, sym, take,
  take-append_le, true, ℕ, ◌++◌, ◌+◌, ◌<◌, ◌^◌, ◌∙◌, ◌∷◌, ◌≡◌, ◌≤◌,
}

logged-append : (cs ds : List Command) → logged (cs ++ ds) ≡ logged cs ++ logged ds
logged-append cs ds =
    ap concat (map-append serialize cs ds) ∙ concat-append (map serialize cs) (map serialize ds)

serialize-nonempty : (c : Command) → 0 < length (serialize c)
unfolding serialize
serialize-nonempty c = omega arith

-- What a recovery of the bytes `file` of the log of `cs` executes: the commands whose bytes are all there.
pub record Recovered (k : Kernel) (truncate : Bool) (cs : List Command) (file : Bytes)
    : Type 0 where
  pub done : List Command
  pub lost : List Command
  pub parted : cs ≡ done ++ lost
  pub executes : (recover k truncate).executed ≡ done
  pub inside_file : length (logged done) ≤ length file
  pub no_more :
      (c : Command) (l : List Command)
      → lost ≡ c ∷ l
      → length file < length (logged (done ++ (c ∷ [])))

one_more :
    (done : List Command) (c : Command)
    → length (logged (done ++ (c ∷ []))) ≡ length (logged done) + length (serialize c)
one_more done c =
    ap length (logged-append done (c ∷ []))
    ∙ length-append (logged done) (serialize c ++ [])
    ∙ ap (λ (b : Bytes). length (logged done) + length b) (append-nil (serialize c))

short-parts :
    (cs done rest : List Command) → cs ≡ done ++ rest → AreShort cs → AreShort done × AreShort rest
short-parts cs done rest e s = All-parts (λ (c : Command). length c < 2 ^ 31) done rest (rw e at s)

length-parts :
    (cs done rest : List Command)
    → cs ≡ done ++ rest
    → length (logged cs) ≡ length (logged done) + length (logged rest)
length-parts cs done rest e =
    ap length (ap logged e ∙ logged-append done rest) ∙ length-append (logged done) (logged rest)

torn-executes :
    (k : Kernel) (truncate ok : Bool) (done : List Command) (n : ℕ)
    → (if truncate
        then (if ok then finishes k done (some n) else quits false done)
        else finishes k done none).executed
      ≡ done
torn-executes k true true done n = refl
torn-executes k true false done n = refl
torn-executes k false ok done n = refl

recover-Cut :
    (k : Kernel) (truncate : Bool) (cs : List Command) (file : Bytes)
    → Cut cs file
    → Reads k file
    → AreShort cs
    → length (logged cs) < 2 ^ 62
    → Recovered k truncate cs file
recover-Cut k truncate cs file (between done rest e f) r s small =
    let (front, back) = short-parts cs done rest e s in
    let sizes = length-parts cs done rest e in
    let size : length file ≡ length (logged done) = ap length f in
    let whole = recover-intact k truncate done (rw f at r) front (omega arith) in
    record {
      done = done;
      lost = rest;
      parted = e;
      executes = ap (λ (o : Recovery). o.executed) whole;
      inside_file = omega arith;
      no_more = λ c l h. omega (arith, one_more done c, serialize-nonempty c);
    }
recover-Cut k truncate cs file (inside done rest torn n e f cut) r s small =
    let (front, (torn_short, back)) = short-parts cs done (torn ∷ rest) e s in
    let sizes = length-parts cs done (torn ∷ rest) e in
    let last = length-append (serialize torn) (logged rest) in
    let size : length file ≡ length (logged done ++ take (suc n) (serialize torn)) = ap length f in
    let joined = length-append (logged done) (take (suc n) (serialize torn)) in
    let tail = length-take (suc n) (serialize torn) in
    let bound : length (logged done ++ take (suc n) (serialize torn)) < 2 ^ 62 = omega arith in
    let found =
      recover-torn k truncate done torn n (rw f at r) front torn_short cut (omega arith) bound in
    record {
      done = done;
      lost = torn ∷ rest;
      parted = e;
      executes =
          ap (λ (o : Recovery). o.executed) found
          ∙ torn-executes k truncate (k.ftruncate read_only (length (logged done))) done
              (length (logged done));
      inside_file = omega arith;
      no_more = λ c l h.
          let same_command : torn ≡ c = cc in
          let next = one_more done c in
          let bytes : length (serialize torn) ≡ length (serialize c) =
            ap (λ (d : Command). length (serialize d)) same_command in
          omega arith;
    }

-- A crash at any moment of a run that started on an empty file and in which no write failed, with at
-- least the first `n` bytes of the file on the disk, where the kernel reads these `n` bytes back at the
-- next start: the recovery executes the first of the accepted commands, in the order of acceptance, all
-- those whose bytes lie within the first `n`, and no other.
pub recover-crash :
    (k : Kernel) (truncate : Bool) (cs : List Command) (n : ℕ) {s t : System}
    → IsFaithful [] s
    → Reach s t
    → t.accepted ≡ map serialize cs
    → AreShort cs
    → length (logged cs) < 2 ^ 62
    → n ≤ length t.file
    → Reads k (take n t.file)
    → Recovered k truncate cs (take n t.file)
recover-crash k truncate cs n {s} {t} v r took short small within reads =
    let kept = (Reach-IsFaithful [] v r).bytes ∙ ap concat took in
    let same_front : take n t.file ≡ take n (logged cs) =
      sym (take-append_le n t.file _ within) ∙ ap (take n) kept in
    recover-Cut k truncate cs (take n t.file) (subst (Cut cs) (sym same_front) (logged-Cut cs n))
      reads short small
