-- ===== src/Recover/Tests.antt =====
-- Recoveries of small files, and the theorems at them.
use blp_cache.Recover.Chunks.{read_chunks-concat}
use blp_cache.Recover.Log.{read_chunks-logged, logged}
use blp_cache.Recover.Results.{recover-torn, recover-intact, Reads}
use blp_cache.Recover.{
  read_only, write_append, quits, drain, finishes, stopped, opened, Mode, Kernel, read_chunks,
  recover,
}
use blp_cache.Resp.{Command, serialize, bulk_strings, bulk_string}
use blp_cache.Decimal.{to_string, digits}
use blp_cache.Prelude.{
  Bool, Bytes, List, [], arith, codes, concat, false, if◌then◌else◌, length, none, refl, some, suc,
  take, true, ℕ, ◌++◌, ◌∷◌, ◌≡◌,
}

abbrev set_command : Command
set_command = codes "SET" ∷ codes "k" ∷ codes "v" ∷ []

abbrev del_command : Command
del_command = codes "DEL" ∷ codes "k" ∷ []

abbrev writable : Mode → ℕ → Bool
writable read_only n = false
writable write_append n = true

-- A kernel that returns a file in the given chunks, and truncates only what is open for writing.
abbrev kernel : ℕ → List Bytes → Kernel
kernel size chunks = record {
  open_file = opened;
  file_size = some size;
  chunks = chunks;
  read_error = false;
  ftruncate = writable;
  seek_set = λ _. true;
  seek_end = some size;
}

-- Two commands, cut into chunks in the middle of the first.
abbrev two_chunks : List Bytes
two_chunks =
    codes "*3\r\n$3\r\nSET\r\n$1" ∷ codes "\r\nk\r\n$1\r\nv\r\n*2\r\n$3\r\nDEL\r\n$1\r\nk\r\n" ∷ []

two_chunks-Reads : Reads (kernel 47 two_chunks) (logged (set_command ∷ del_command ∷ []))
unfolding serialize bulk_strings bulk_string to_string digits
two_chunks-Reads = record {
  opens = refl;
  sized = refl;
  nonempty = omega arith;
  whole = refl;
  no_error = refl;
}

read_chunks-concat_example : read_chunks (stopped [] 0 []) two_chunks ≡ drain (concat two_chunks)
read_chunks-concat_example = read_chunks-concat two_chunks (omega arith)

recover-intact_example :
    recover (kernel 47 two_chunks) true
    ≡ finishes (kernel 47 two_chunks) (set_command ∷ del_command ∷ []) none
unfolding serialize bulk_strings bulk_string to_string digits
recover-intact_example =
    recover-intact (kernel 47 two_chunks) true (set_command ∷ del_command ∷ []) two_chunks-Reads
      (omega arith) (omega arith)

-- The second command is cut short behind its fifth byte.
abbrev torn_chunks : List Bytes
torn_chunks = codes "*3\r\n$3\r\nSET\r\n$1" ∷ codes "\r\nk\r\n$1\r\nv\r\n*2\r\n$" ∷ []

torn_chunks-Reads :
    Reads
      (kernel 32 torn_chunks)
      (logged (set_command ∷ []) ++ take (suc 4) (serialize del_command))
unfolding serialize bulk_strings bulk_string to_string digits
torn_chunks-Reads = record {
  opens = refl;
  sized = refl;
  nonempty = omega arith;
  whole = refl;
  no_error = refl;
}

read_chunks-logged_example :
    read_chunks (stopped [] 0 []) torn_chunks
    ≡ stopped
        (set_command ∷ [])
        (length (logged (set_command ∷ [])))
        (take 5 (serialize del_command))
unfolding serialize bulk_strings bulk_string to_string digits
read_chunks-logged_example =
    read_chunks-logged (set_command ∷ []) del_command 5 torn_chunks (omega arith) (omega arith)
      (omega arith) (omega arith) refl (omega arith)

recover-torn_example : recover (kernel 32 torn_chunks) true ≡ (
    if true
    then (if false
        then finishes
            (kernel 32 torn_chunks)
            (set_command ∷ [])
            (some (length (logged (set_command ∷ []))))
        else quits false (set_command ∷ []))
    else finishes (kernel 32 torn_chunks) (set_command ∷ []) none)
unfolding serialize bulk_strings bulk_string to_string digits
recover-torn_example =
    recover-torn (kernel 32 torn_chunks) true (set_command ∷ []) del_command 4 torn_chunks-Reads
      (omega arith) (omega arith) (omega arith) (omega arith) (omega arith)
