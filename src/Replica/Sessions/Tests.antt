-- ===== src/Replica/Sessions/Tests.antt =====
-- A replica whose master is twice taken for a peer that announces 2 ^ 63 bytes.
use blp_cache.Db.Memory.{waits, empty}
use blp_cache.Wire.{be_bytes}
use blp_cache.Replica.Stream.{set_change}
use blp_cache.Protocol.{put_text, serialize_entity}
use blp_cache.Db.{put}
use blp_cache.Replica.Sessions.Recovery.{replica_runs-poison, visit_link, Visit}
use blp_cache.Replica.Sessions.{replica_runs, connecting}
use blp_cache.Prelude.{
  Bool, List, [], arith, codes, false, ltb, map, refl, replicate, true, ℕ, ◌^◌, ◌∷◌, ◌≡◌,
}

-- A machine that can allocate less than a gigabyte.
abbrev small_machine : ℕ → Bool
small_machine n = ltb n (2 ^ 30)

abbrev visits : List Visit
visits =
    (record {
      failures = (true, false) ∷ [];
      offset = 2;
      changes = set_change (codes "k") (codes "v") ∷ [];
      first = 3;
      second = 0;
      third = 151;
      fourth = 152;
      len = 2 ^ 63;
      behind = [];
      answers = replicate 60 6;
      rounds = 5;
    })
    ∷ (record {
      failures = [];
      offset = 2;
      changes = [];
      first = 2;
      second = 0;
      third = 0;
      fourth = 0;
      len = 2 ^ 40;
      behind = 1 ∷ [];
      answers = replicate 60 6;
      rounds = 1;
    })
    ∷ []

replica_runs-poison_example :
    replica_runs small_machine waits (map visit_link visits) 0 empty
    ≡ connecting 3 (put waits empty (codes "k") (codes "v")).1
unfolding serialize_entity be_bytes put_text
replica_runs-poison_example = replica_runs-poison small_machine waits visits 0 empty (
  record {
    long_enough = omega arith;
    failed = ((refl, refl), tt);
    small_offset = omega arith;
    small_changes = ((omega arith, omega arith), tt);
    fitting = (refl, tt);
    small_announced = omega arith;
    refused = refl;
    receives = (omega arith, omega arith);
  },
  (
    record {
      long_enough = omega arith;
      failed = tt;
      small_offset = omega arith;
      small_changes = tt;
      fitting = tt;
      small_announced = omega arith;
      refused = refl;
      receives = (omega arith, omega arith);
    },
    tt,
  ),
)
