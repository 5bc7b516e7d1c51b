-- ===== src/Readers.antt =====
-- liblmdb/mdb.c: the reader table, and `mdb_find_oldest`, which reads it for a writer. The scan sees
-- one state of the table: readers that change their slots during the scan are not modelled.
pub mod Oldest
pub mod Check
pub mod Renew
use sam_lmdb_rs.Base.{
  ℕ, zero, suc, ◌+◌, ◌-◌, ◌%◌, ◌^◌, Option, none, some, Bool, ◌&&◌, not, if◌then◌else◌, ltb, ◌==◌,
}

-- MDB_reader: the fields of a slot that the scan reads
pub record Reader : Type 0 where
  pub mr_pid : ℕ
  pub mr_txnid : ℕ

-- MDB_txninfo: the slots that have been used
pub record Txninfo : Type 0 where
  pub mti_numreaders : ℕ
  pub mti_readers : ℕ → Reader

-- the loop of `mdb_find_oldest`, from the slot below `i` down
unfoldable pub oldest_loop : (ℕ → Reader) → (i oldest : ℕ) → ℕ
oldest_loop r zero oldest = oldest
oldest_loop r (suc i) oldest =
    let mr = (r i).mr_txnid in
    oldest_loop r i (if not ((r i).mr_pid == 0) && ltb mr oldest then mr else oldest)

-- `int i = mti_numreaders`: from 2 ^ 31 on it is negative, and the loop does not run.
abbrev pub rounds : ℕ → ℕ
rounds mti_numreaders = if ltb mti_numreaders (2 ^ 31) then mti_numreaders else 0

-- `mdb_find_oldest`; `me_txns` is NULL for an environment without a lock file.
unfoldable pub find_oldest : (me_txns : Option Txninfo) → (mt_txnid : ℕ) → ℕ
unfolding oldest_loop
find_oldest me_txns mt_txnid =
    let oldest = (mt_txnid + 2 ^ 64 - 1) % 2 ^ 64 in
    elim me_txns [
      | none ↦ oldest
      | some t ↦ oldest_loop t.mti_readers (rounds t.mti_numreaders) oldest
    ]
