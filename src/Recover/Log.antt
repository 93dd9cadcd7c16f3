-- ===== src/Recover/Log.antt =====
-- A file of serialized commands is read back as those commands, also behind a torn write.
use blp_cache.Resp.RoundTrip.{try_parse-take-serialize, try_parse-serialize}
use blp_cache.Recover.Loop.{drain-frame, drain-stop}
use blp_cache.Recover.Chunks.{read_chunks-concat}
use blp_cache.Recover.{after, drain, stopped, read_chunks}
use blp_cache.Resp.{no_frame, try_parse, serialize, Command}
use blp_cache.Prelude.{
  All, Bytes, List, [], ap, append_assoc, arith, concat, drop-append_self, length, length-append,
  map, refl, sym, take, ℕ, ◌++◌, ◌<◌, ◌^◌, ◌∙◌, ◌∷◌, ◌≡◌,
}

-- The bytes of a file that the commands were appended to.
abbrev pub logged : List Command → Bytes
logged cs = concat (map serialize cs)

pub logged-append : (old cs : List Command) → logged (old ++ cs) ≡ logged old ++ logged cs
logged-append [] cs = refl
logged-append (c ∷ old) cs =
    ap (λ (t : Bytes). serialize c ++ t) (logged-append old cs)
    ∙ sym (append_assoc (serialize c) (logged old) (logged cs))

-- Every command has fewer than 2 ^ 31 parts.
abbrev pub AreShort : List Command → Type 0
AreShort = All (λ c. length c < 2 ^ 31)

pub drain-logged :
    (cs : List Command) (tail : Bytes)
    → AreShort cs
    → length (logged cs ++ tail) < 2 ^ 62
    → try_parse tail ≡ no_frame
    → drain (logged cs ++ tail) ≡ stopped cs (length (logged cs)) tail
drain-logged [] tail s h e = drain-stop tail e
drain-logged (c ∷ cs) tail (sc, s) h e =
    let whole = append_assoc (serialize c) (logged cs) tail in
    let size = length-append (serialize c) (logged cs ++ tail) in
    let both = length-append (serialize c) (logged cs) in
    let total : length (serialize c ++ (logged cs ++ tail)) < 2 ^ 62 = rw whole at h in
    let found = try_parse-serialize c (logged cs ++ tail) sc total in
    rw
      (
        whole,
        drain-frame (serialize c ++ (logged cs ++ tail)) c _ total found,
        drop-append_self (serialize c) (logged cs ++ tail),
        drain-logged cs tail s (omega arith) e,
      )
      (unfold after in ap (λ (k : ℕ). stopped (c ∷ cs) k tail) (sym both))

-- From a file of serialized commands (each of fewer than 2 ^ 31 parts, fewer than 2 ^ 62 bytes in
-- all) with, behind them, the first bytes of one more that was cut short, in whatever chunks `read`
-- returns it, exactly those commands are executed, in order; the bytes that they took are all theirs,
-- and the torn command is what is left.
pub read_chunks-logged :
    (cs : List Command) (torn : Command) (n : ℕ) (chunks : List Bytes)
    → AreShort cs
    → length torn < 2 ^ 31
    → n < length (serialize torn)
    → length (serialize torn) < 2 ^ 62
    → concat chunks ≡ logged cs ++ take n (serialize torn)
    → length (logged cs ++ take n (serialize torn)) < 2 ^ 62
    → read_chunks (stopped [] 0 []) chunks
      ≡ stopped cs (length (logged cs)) (take n (serialize torn))
read_chunks-logged cs torn n chunks s st cut fits e small =
    read_chunks-concat chunks (rw e small)
    ∙ ap drain e
    ∙ drain-logged cs (take n (serialize torn)) s small
        (try_parse-take-serialize torn n st fits cut)
