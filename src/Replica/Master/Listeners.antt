-- ===== src/Replica/Master/Listeners.antt =====
-- The listeners of the connections that were accepted.
use blp_cache.Replica.Master.{accept_replicas}
use blp_cache.Aof.{Aof, append_raw_async, register_listener}
use blp_cache.Prelude.{
  Bytes, List, [], ap, append-nil, append_assoc, arith, false, leb, length, refl, sym, true, ℕ,
  ◌++◌, ◌<◌, ◌∙◌, ◌∷◌, ◌≡◌,
}

accept_replicas_lem :
    (clients : List ℕ) (a : Aof)
    → accept_replicas clients a ≡ record a { listeners = a.listeners ++ clients }
unfolding accept_replicas register_listener
accept_replicas_lem [] a =
    ap (λ (l : List ℕ). record a { listeners = l }) (sym (append-nil a.listeners))
accept_replicas_lem (c ∷ clients) a =
    accept_replicas_lem clients (register_listener a c)
    ∙ ap (λ (l : List ℕ). record a { listeners = l }) (append_assoc a.listeners (c ∷ []) clients)

-- An append that is accepted calls, behind the listeners that there were, one for each connection ever
-- accepted, in order: also those that were closed since.
pub append_raw_async-accept_replicas :
    (clients : List ℕ) (a : Aof) (payload : Bytes)
    → a.stop_flag ≡ false
    → length a.queue < a.opts.max_queue_entries
    → append_raw_async (accept_replicas clients a) payload ≡ record {
      accepted = true;
      aof = record a { queue = a.queue ++ (payload ∷ []); listeners = a.listeners ++ clients };
      called = a.listeners ++ clients;
    }
unfolding append_raw_async
append_raw_async-accept_replicas clients a payload open_log room =
    let space : leb a.opts.max_queue_entries (length a.queue) ≡ false = ground arith in
    rw (accept_replicas_lem clients a, append_raw_async, open_log, space) refl
