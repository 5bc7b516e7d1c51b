-- ===== src/Examples/ReaderRuns.antt =====
-- The reader table of liblmdb/mdb.c with three slots, one of them free.
use sam_lmdb_rs.Base.{ℕ, ◌≡◌, some, if◌then◌else◌, ◌==◌, arith, refl}
use sam_lmdb_rs.Readers.{Reader, Txninfo, oldest_loop, find_oldest}
use sam_lmdb_rs.Readers.Oldest.{IsOldest, find_oldest-IsOldest}

abbrev slots : ℕ → Reader
slots i =
    if i == 0
    then record { mr_pid = 7; mr_txnid = 12 }
    else if i == 1
    then record { mr_pid = 0; mr_txnid = 3 }
    else record { mr_pid = 9; mr_txnid = 10 }

abbrev table : Txninfo
table = record { mti_numreaders = 3; mti_readers = slots }

find_oldest_runs : find_oldest (some table) 15 ≡ 10
unfolding find_oldest oldest_loop
find_oldest_runs = refl

find_oldest_example : IsOldest slots 3 14 (find_oldest (some table) 15)
find_oldest_example = find_oldest-IsOldest table 15 (omega arith) (omega arith) (omega arith)
