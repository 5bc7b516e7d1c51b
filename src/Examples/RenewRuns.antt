-- ===== src/Examples/RenewRuns.antt =====
-- The slot that `mdb_txn_renew0` of liblmdb/mdb.c gives a reader, on the table of the runs of checks.
use sam_lmdb_rs.Base.{
  true, false, ℕ, zero, suc, ◌^◌, ◌≤◌, ◌<◌, ◌≡◌, Option, none, some, ◌>>=◌, Returns, arith, refl,
}
use sam_lmdb_rs.Base.Int.{ℤ, pos, negsuc}
use sam_lmdb_rs.Base.Arrays.{up_loop}
use sam_lmdb_rs.Readers.{find_oldest}
use sam_lmdb_rs.Readers.Check.{
  check_rlocked, mutex_failed, scan_loop, scan_slot, stale_slot, clear_loop, pid_insert, pid_loop,
}
use sam_lmdb_rs.Readers.Renew.{
  ReaderEnv, Answers, Renewed, free_scan, publish_loop, publish, keep_slot, claim_slot, take_slot,
  lock_slot, go_live, own_slot, renew_reader,
}
use sam_lmdb_rs.Readers.Renew.Renewal.{IsReady, Renewal, renew_reader-Renewal}
use sam_lmdb_rs.Readers.Renew.Held.{renew_reader-find_oldest}
use sam_lmdb_rs.Examples.CheckRuns.{table, system, narrow}

-- four slots, all of them used
abbrev environment : ReaderEnv
environment = record {
  me_txns = table;
  me_pid = 7;
  me_notls = true;
  me_live_reader = false;
  me_maxreaders = 4;
  me_close_readers = 4;
  reader_key = none;
}

-- a writer commits between the first two reads of `mti_txnid`; with `owner` 130 the owner of the
-- mutex has died
abbrev answers : (owner : ℕ) → Answers
answers owner = record {
  set_pid = pos 0;
  lock = pos owner;
  set_specific = pos 0;
  system = system owner;
  mti_txnid = λ n. elim n [ zero ↦ 20 | suc k ↦ 21 ];
}

outcome_of : Renewed → ℤ × Option (ℕ × ℕ)
outcome_of c = (c.rc, c.reader)

full_runs :
    (renew_reader (answers 0) 2 environment none >>= λ c. some (outcome_of c))
    ≡ some (negsuc 30789, none)
unfolding renew_reader own_slot go_live lock_slot take_slot free_scan outcome_of
full_runs = refl

-- the repair makes room in the first slot
claim_runs :
    (renew_reader (answers 130) 2 environment none >>= λ c. some (outcome_of c))
    ≡ some (pos 0, some (0, 21))
unfolding renew_reader own_slot go_live lock_slot take_slot free_scan claim_slot keep_slot publish
    publish_loop mutex_failed check_rlocked scan_loop scan_slot stale_slot clear_loop pid_insert
    pid_loop up_loop outcome_of
claim_runs = refl

environment-IsReady : IsReady (answers 130) 2 environment
environment-IsReady = record {
  settles = (1, omega arith, refl);
  room = omega arith;
  few = omega arith;
  narrow = narrow;
}

renew_reader_example :
    Returns (renew_reader (answers 130) 2 environment none) (Renewal (answers 130) environment none)
renew_reader_example = renew_reader-Renewal (answers 130) 2 environment none environment-IsReady

held_example : Returns (renew_reader (answers 130) 2 environment none) (λ c.
    (i v w : ℕ)
    → c.reader ≡ some (i, v)
    → 0 < w
    → w < 2 ^ 64
    → find_oldest (some c.env.me_txns) w ≤ v)
held_example =
    renew_reader-find_oldest (answers 130) 2 environment none environment-IsReady (omega arith)
      (omega arith) (λ i e. cc)
