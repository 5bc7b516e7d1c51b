-- ===== src/Examples/CheckRuns.antt =====
-- `mdb_reader_check0` of liblmdb/mdb.c on a table with four slots; the process 7 checks, 9 is dead
-- and 8 is alive.
use sam_lmdb_rs.Base.{
  true, ℕ, ◌+◌, ◌^◌, ◌<◌, ◌≡◌, Option, some, List, [], ◌∷◌, if◌then◌else◌, ◌==◌, ◌>>=◌, Returns,
  arith, refl, not,
}
use sam_lmdb_rs.Base.Int.{ℤ, pos}
use sam_lmdb_rs.Base.Arrays.{up_loop}
use sam_lmdb_rs.Readers.{Reader, Txninfo}
use sam_lmdb_rs.Readers.Check.{
  System, Checked, reader_check0, check_rlocked, mutex_failed, scan_loop, scan_slot, stale_slot,
  clear_loop, pid_insert, pid_loop,
}
use sam_lmdb_rs.Readers.Check.Complete.{Complete, reader_check0-Complete}
use sam_lmdb_rs.Readers.Check.Table.{Safe}
use sam_lmdb_rs.Readers.Check.Safe.{Gone, reader_check0-Safe}

abbrev pub slots : ℕ → Reader
slots i = record {
  mr_pid = if i == 0 then 9 else if i == 1 then 7 else if i == 2 then 8 else 9;
  mr_txnid = 10 + i;
}

abbrev pub table : Txninfo
table = record { mti_numreaders = 4; mti_readers = slots }

-- the owner of the mutex has died if `owner` is 130
abbrev pub system : (owner : ℕ) → System
system owner = record {
  me_pid = 7;
  alive = λ rlocked again p. not (p == 9);
  malloc = λ rlocked. true;
  lock = λ i. pos owner;
  ownerdead = pos 130;
  mutex_consistent = pos 0;
}

-- the code, the processes in the slots and `dead`
pids_of : Checked → ℤ × List ℕ × Option ℕ
pids_of c = (
  c.rc,
  (c.readers 0).mr_pid ∷ (c.readers 1).mr_pid ∷ (c.readers 2).mr_pid ∷ (c.readers 3).mr_pid ∷ [],
  c.dead,
)

reader_check_runs :
    (reader_check0 (system 0) table >>= λ c. some (pids_of c))
    ≡ some (pos 0, 0 ∷ 7 ∷ 8 ∷ 0 ∷ [], some 2)
unfolding reader_check0 check_rlocked mutex_failed scan_loop scan_slot stale_slot clear_loop
    pid_insert pid_loop up_loop pids_of
reader_check_runs = refl

-- the slots that the repair frees are not in `dead`
repair_runs :
    (reader_check0 (system 130) table >>= λ c. some (pids_of c))
    ≡ some (pos 0, 0 ∷ 7 ∷ 8 ∷ 0 ∷ [], some 0)
unfolding reader_check0 check_rlocked mutex_failed scan_loop scan_slot stale_slot clear_loop
    pid_insert pid_loop up_loop pids_of
repair_runs = refl

-- a mutex that cannot be had
refused_runs :
    (reader_check0 (system 22) table >>= λ c. some (pids_of c))
    ≡ some (pos 22, 9 ∷ 7 ∷ 8 ∷ 9 ∷ [], some 0)
unfolding reader_check0 check_rlocked mutex_failed scan_loop scan_slot stale_slot clear_loop
    pid_insert pid_loop up_loop pids_of
refused_runs = refl

pub narrow : (k : ℕ) → k < 4 → (slots k).mr_pid < 2 ^ 31
narrow k lt = ground arith

reader_check0_example : Returns (reader_check0 (system 0) table) (Complete (system 0) table)
reader_check0_example =
    reader_check0-Complete (system 0) table (omega arith) narrow refl (λ i. refl)

repaired_example :
    Returns (reader_check0 (system 130) table) (λ c. Safe (Gone (system 130)) slots c.readers)
repaired_example = reader_check0-Safe (system 130) table (omega arith) narrow
