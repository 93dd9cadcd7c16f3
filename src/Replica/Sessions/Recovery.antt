-- ===== src/Replica/Sessions/Recovery.antt =====
-- What a replica has stored behind connections that each ended in an exception of `resize`.
use blp_cache.Replica.{replica_round, replica_rounds}
use blp_cache.Replica.Client.{connect_attempts-reached}
use blp_cache.Message.Oversize.{throws-never, throws-announced, throws}
use blp_cache.Protocol.{serialize_entity}
use blp_cache.Message.{from_data_entity}
use blp_cache.Aof.{Aof}
use blp_cache.Message.Transfer.{on_wire, Receives}
use blp_cache.Db.{
  LevelDb, LevelDb, LevelDb, LevelDb, LevelDb, LevelDb, LevelDb, LevelDb, LevelDb, LevelDb, LevelDb,
  LevelDb, LevelDb, LevelDb, LevelDb, LevelDb, LevelDb, LevelDb, LevelDb, LevelDb, LevelDb, LevelDb,
  LevelDb, LevelDb, LevelDb, LevelDb, Storage, LevelDb, LevelDb, LevelDb,
}
use blp_cache.Socket.{
  Socket, Socket, Socket, Socket, Socket, Socket, Socket, Socket, Socket, Socket, Socket, Socket,
  Socket, Socket, Socket, Socket, Socket, Socket, Socket, Socket, Socket, Socket, Socket, Socket,
  Socket, Socket, Socket, Socket, Socket,
}
use blp_cache.Replica.Stream.{
  changed_all, small_len, replica_round-change, change_entity-IsSmall, changed, change_entity,
  change_message, stream_size, stream, IsSmallChange, Change,
}
use blp_cache.Wire.{be_bytes}
use blp_cache.Replica.Sessions.{
  InnerLoop, going_on, stuck_receiving, connecting, replica_runs, thrown, Link, inner_loop,
}
use blp_cache.Prelude.{
  All, Bool, Bytes, List, Option, Option-cases, [], ap, append_assoc, ap₂, arith, false, inl, inr,
  length, map, none, refl, some, suc, sym, true, zero, ℕ, ◌%◌, ◌++◌, ◌+◌, ◌<◌, ◌^◌, ◌∙◌, ◌∷◌, ◌≡◌,
}

-- A connection that such an exception ends: the attempts that fail first, the changes that arrive, and behind
-- them twelve bytes, the last eight of which announce `len`; then whatever follows.
pub record Visit : Type 0 where
  pub failures : List (Bool × Bool)
  pub offset : ℕ
  pub changes : List Change
  pub first : ℕ
  pub second : ℕ
  pub third : ℕ
  pub fourth : ℕ
  pub len : ℕ
  pub behind : Bytes
  pub answers : List ℕ
  pub rounds : ℕ

abbrev pub poison : Visit → Bytes
poison v = v.first ∷ v.second ∷ v.third ∷ v.fourth ∷ (be_bytes 8 v.len ++ v.behind)

abbrev pub visit_link : Visit → Link
visit_link v = record {
  attempts = v.failures ++ ((true, true) ∷ []);
  rounds = v.rounds;
  socket = record {
    sends = [];
    recvs = v.answers;
    wire = [];
    incoming = stream v.offset v.changes ++ poison v;
  };
}

abbrev pub all_attempts : List Visit → ℕ
all_attempts [] = 0
all_attempts (v ∷ vs) = length v.failures + 1 + all_attempts vs

abbrev pub all_changes : List Visit → List Change
all_changes [] = []
all_changes (v ∷ vs) = v.changes ++ all_changes vs

module _ (allocates : ℕ → Bool) where
  -- The length of the message for a change can be allocated.
  abbrev pub Fits : ℕ → Change → Type 0
  Fits offset c = allocates (length (serialize_entity (change_entity offset c))) ≡ true

  -- The texts are shorter than 2 ^ 32 bytes and their messages can be allocated, the length that is announced
  -- last cannot, and the kernel's answers make progress and are enough.
  pub record IsVisit (v : Visit) : Type 0 where
    pub long_enough : length v.changes < v.rounds
    pub failed : All (λ (a : Bool × Bool). (a.0 ≡ true) × (a.1 ≡ false)) v.failures
    pub small_offset : v.offset < 2 ^ 64
    pub small_changes : All IsSmallChange v.changes
    pub fitting : All (Fits v.offset) v.changes
    pub small_announced : v.len < 2 ^ 64
    pub refused : allocates v.len ≡ false
    pub receives : Receives (visit_link v).socket (stream_size v.offset v.changes + 12)

  throws-change :
      (offset n : ℕ) (c : Change) (r : Bytes) (s : Socket)
      → offset < 2 ^ 64
      → IsSmallChange c
      → Fits offset c
      → s.incoming ≡ on_wire (change_message offset c) ++ r
      → Receives s (12 + n)
      → throws allocates s ≡ false
  unfolding from_data_entity be_bytes
  throws-change offset n c r s h small fit i enough =
      let size = length (serialize_entity (change_entity offset c)) in
      throws-announced allocates 2 ((change_entity offset c).sequence % 256) 151 152 size
        (serialize_entity (change_entity offset c) ++ r) s
        (small_len (change_entity offset c) (change_entity-IsSmall offset c h small))
        (i
          ∙ ap (λ (b : Bytes). 2 ∷ ((change_entity offset c).sequence % 256) ∷ 151 ∷ 152 ∷ b)
              (append_assoc (be_bytes 8 size) (serialize_entity (change_entity offset c)) r))
        (enough.0, omega (arith, enough.1))
      ∙ (rw fit refl)

  module _ {l : LevelDb} (wake : Aof → Aof) where
    inner_loop-change :
        (offset n : ℕ) (c : Change) (r : Bytes) (rounds : ℕ) (db : Storage l) (s : Socket)
        → offset < 2 ^ 64
        → IsSmallChange c
        → Fits offset c
        → s.incoming ≡ on_wire (change_message offset c) ++ r
        → Receives s (12 + (length (serialize_entity (change_entity offset c)) + n))
        → (t : Socket) × (inner_loop allocates wake (suc rounds) db s
            ≡ inner_loop allocates wake rounds (changed wake db c) t)
          × (t.incoming ≡ r)
          × Receives t n
    unfolding inner_loop
    inner_loop-change offset n c r rounds db s h small fit i enough =
        let (t, e, j, left) = replica_round-change wake db offset c r n s h small i enough in
        let calm =
          throws-change offset (length (serialize_entity (change_entity offset c)) + n) c r s h
            small fit i enough in
        (t, rw (inner_loop, calm, e) refl, j, left)

    -- The changes in front of the fatal header are stored, then the connection ends.
    inner_loop-poison :
        (offset a b c d n rounds : ℕ) (cs : List Change) (r : Bytes) (db : Storage l) (s : Socket)
        → offset < 2 ^ 64
        → All IsSmallChange cs
        → All (Fits offset) cs
        → n < 2 ^ 64
        → allocates n ≡ false
        → length cs < rounds
        → s.incoming ≡ stream offset cs ++ (a ∷ b ∷ c ∷ d ∷ (be_bytes 8 n ++ r))
        → Receives s (stream_size offset cs + 12)
        → inner_loop allocates wake rounds db s ≡ thrown (changed_all wake db cs)
    unfolding inner_loop
    inner_loop-poison offset a b c d n zero cs r db s h smalls fits m refused g i enough =
        absurd (omega arith)
    inner_loop-poison offset a b c d n (suc rounds) [] r db s h smalls fits m refused g i enough =
        rw (inner_loop, throws-announced allocates a b c d n r s m i enough, refused) refl
    inner_loop-poison offset a b c d n (suc rounds) (x ∷ cs) r db s h (small, smalls) (fit, fits) m
          refused g i enough =
        let (t, e, j, left) =
          inner_loop-change offset (stream_size offset cs + 12) x
            (stream offset cs ++ (a ∷ b ∷ c ∷ d ∷ (be_bytes 8 n ++ r))) rounds db s h small fit
            (i ∙ append_assoc (on_wire (change_message offset x)) (stream offset cs) _)
            (enough.0, omega (arith, enough.1)) in
        e
        ∙ inner_loop-poison offset a b c d n rounds cs r (changed wake db x) t h smalls fits m
            refused (omega arith) j left

    changed_all-append :
        (db : Storage l) (xs ys : List Change)
        → changed_all wake db (xs ++ ys) ≡ changed_all wake (changed_all wake db xs) ys
    changed_all-append db [] ys = refl
    changed_all-append db (x ∷ xs) ys = changed_all-append (changed wake db x) xs ys

    -- A replica outlives connections that each end, behind some changes, in a header that announces a
    -- payload that cannot be allocated: it has stored the changes of all of them, in order, and goes on to
    -- connect; and each attempt of each of them has left a descriptor open, those of the connections too.
    pub replica_runs-poison :
        (vs : List Visit) (open_sockets : ℕ) (db : Storage l)
        → All IsVisit vs
        → replica_runs allocates wake (map visit_link vs) open_sockets db
          ≡ connecting (open_sockets + all_attempts vs) (changed_all wake db (all_changes vs))
    unfolding replica_runs
    replica_runs-poison [] open_sockets db hs = ap (λ (n : ℕ). connecting n db) (omega arith)
    replica_runs-poison (v ∷ vs) open_sockets db (h, hs) =
        let ended =
          inner_loop-poison v.offset v.first v.second v.third v.fourth v.len v.rounds v.changes
            v.behind db (visit_link v).socket h.small_offset h.small_changes h.fitting
            h.small_announced h.refused h.long_enough refl h.receives in
        rw (replica_runs, ended, connect_attempts-reached v.failures open_sockets h.failed)
          (replica_runs-poison vs (open_sockets + (length v.failures + 1))
              (changed_all wake db v.changes) hs
            ∙ ap₂ (λ (n : ℕ) (d : Storage l). connecting n d) (omega arith)
                (sym (changed_all-append db v.changes (all_changes vs))))

    abbrev received : Option (Storage l × Socket) → InnerLoop l
    received none = stuck_receiving
    received (some (db, s)) = going_on db s

    -- Where every length can be allocated, a connection is that of `replica_rounds`.
    inner_loop-replica_rounds :
        (rounds : ℕ) (db : Storage l) (s : Socket)
        → ((m : ℕ) → allocates m ≡ true)
        → inner_loop allocates wake rounds db s ≡ received (replica_rounds rounds wake db s)
    unfolding inner_loop replica_rounds
    inner_loop-replica_rounds zero db s all = refl
    inner_loop-replica_rounds (suc rounds) db s all =
        elim (Option-cases (replica_round wake db s)) [
          | inl e ↦ rw (inner_loop, throws-never allocates s all, e, replica_rounds) refl
          | inr ((db', t), e) ↦
              rw (inner_loop, throws-never allocates s all, e, replica_rounds)
                (inner_loop-replica_rounds rounds db' t all)
        ]
