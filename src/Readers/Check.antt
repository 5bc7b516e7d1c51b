-- ===== src/Readers/Check.antt =====
-- liblmdb/mdb.c: `mdb_reader_check`, which frees the slots of dead processes, with `mdb_pid_insert`
-- and the repair by `mdb_mutex_failed`. A result `none` is lack of fuel in the search of
-- `mdb_pid_insert`.
pub mod Insert
pub mod Clear
pub mod Sweep
pub mod Slots
pub mod Complete
pub mod Table
pub mod Stops
pub mod Safe
use sam_lmdb_rs.Base.{
  Bool, true, false, ℕ, zero, suc, ◌+◌, ◌-◌, ◌*◌, ◌/◌, ◌%◌, ◌^◌, Option, some, none, ◌||◌, not,
  if◌then◌else◌, ltb, ◌==◌, Ordering, ◌>>=◌,
}
use sam_lmdb_rs.Base.Int.{ℤ, pos, negsuc}
use sam_lmdb_rs.Base.Arrays.{store}
use sam_lmdb_rs.Errors.{is_zero}
use sam_lmdb_rs.Idl.{u32}
use sam_lmdb_rs.Id2.{Sorted, put}
use sam_lmdb_rs.Readers.{Reader, Txninfo}

abbrev pub key_of : ℕ → ℕ
key_of pid = pid

-- the sign of the `int` `pid - ids[cursor]`
abbrev pub val_of : (pid x : ℕ) → Ordering
val_of pid x =
    let val = (pid + 2 ^ 32 - x) % 2 ^ 32 in
    if val == 0 then Ordering.eq else if ltb val (2 ^ 31) then Ordering.gt else Ordering.lt

pub data Place : Type 0 where
  duplicate : Place
  fresh : (cursor : ℕ) → Place

-- the binary search of `mdb_pid_insert`
unfoldable pub pid_loop :
    (ids : ℕ → ℕ) → (pid fuel base cursor : ℕ) → (val : Ordering) → (n : ℕ) → Option Place
pid_loop ids pid zero base cursor val n = none
pid_loop ids pid (suc fuel) base cursor val zero = elim val [
  | Ordering.gt ↦ some (fresh (u32 (cursor + 1)))
  | _ ↦ some (fresh cursor)
]
pid_loop ids pid (suc fuel) base cursor val (suc m) =
    let pivot = suc m / 2 in
    let c = u32 (base + pivot + 1) in
    elim (val_of pid (ids c)) [
      | Ordering.lt ↦ pid_loop ids pid fuel base c Ordering.lt pivot
      | Ordering.gt ↦ pid_loop ids pid fuel c c Ordering.gt (suc m - (pivot + 1))
      | Ordering.eq ↦ some duplicate
    ]

-- `mdb_pid_insert`: -1 for a duplicate
unfoldable pub pid_insert : Sorted ℕ → ℕ → Option (ℤ × Sorted ℕ)
unfolding pid_loop
pid_insert pids pid =
    let n = u32 pids.count in
    pid_loop pids.entries pid (suc n) 0 1 Ordering.eq n >>= λ place. elim place [
      | duplicate ↦ some (negsuc 0, pids)
      | fresh x ↦ some (pos 0, put key_of pids x pid)
    ]

-- What the operating system says. A call of `mdb_reader_check0` is told by `rlocked`; it looks at a
-- process at most twice, the second time after it has taken the mutex.
pub record System : Type 0 where
  -- getpid()
  pub me_pid : ℕ
  -- `mdb_reader_pid(env, Pidcheck, pid)` is not 0
  pub alive : (rlocked again : Bool) → ℕ → Bool
  pub malloc : (rlocked : Bool) → Bool
  -- LOCK_MUTEX0 for the slot
  pub lock : ℕ → ℤ
  -- MDB_OWNERDEAD
  pub ownerdead : ℤ
  pub mutex_consistent : ℤ

-- ENOMEM
abbrev pub enomem : ℤ
enomem = pos 12

-- EINVAL
abbrev einval : ℤ
einval = pos 22

abbrev pub same_code : ℤ → ℤ → Bool
same_code (pos a) (pos b) = a == b
same_code (pos a) (negsuc b) = false
same_code (negsuc a) (pos b) = false
same_code (negsuc a) (negsuc b) = a == b

-- `mr[j].mr_pid = 0`
abbrev pub free_slot : Reader → Reader
free_slot r = record r { mr_pid = 0 }

-- the variables of the scan
pub record Scan : Type 0 where
  pub readers : ℕ → Reader
  pub pids : Sorted ℕ
  pub count : ℕ

-- `for (; j<rdrs; j++) ...`, with `k` rounds to go; `count` is an `int`, kept by its 32 bits
unfoldable pub clear_loop : (pid k j : ℕ) → Scan → Scan
clear_loop pid zero j s = s
clear_loop pid (suc k) j s = clear_loop pid k (j + 1) (
    if (s.readers j).mr_pid == pid
    then record s {
      readers = store s.readers j (free_slot (s.readers j));
      count = (s.count + 1) % 2 ^ 32;
    }
    else s)

-- how the attempt to take the mutex ends; `repaired` and `refused` are the results of
-- `mdb_mutex_failed` with the table that it leaves
pub data Acquired : Type 0 where
  not_needed locked : Acquired
  repaired : (ℕ → Reader) → Acquired
  refused : ℤ → (ℕ → Reader) → Acquired

pub data Round : Type 0 where
  next : Scan → Round
  finish : ℤ → Scan → Round

-- the rest of the parameters of a scan: `rdrs`, the answers of the system and `rmutex`
pub record Look : Type 0 where
  pub me_pid : ℕ
  pub rdrs : ℕ
  pub alive : (again : Bool) → ℕ → Bool
  pub acquire : ℕ → (ℕ → Reader) → Option Acquired

-- "Stale reader found"
unfoldable pub stale_slot : Look → (i pid : ℕ) → Scan → Option Round
unfolding clear_loop
stale_slot look i pid s = look.acquire i s.readers >>= λ a. elim a [
  | not_needed ↦ some (next (clear_loop pid (look.rdrs - i) i s))
  | locked ↦
      if look.alive true pid
      then some (next s)
      else some (next (clear_loop pid (look.rdrs - i) i s))
  | repaired readers ↦ some (finish (pos 0) (record s { readers = readers }))
  | refused rc readers ↦ some (finish rc (record s { readers = readers }))
]

-- the body of the loop over the slots
unfoldable pub scan_slot : Look → (i : ℕ) → Scan → Option Round
unfolding stale_slot pid_insert
scan_slot look i s =
    let pid = (s.readers i).mr_pid in
    if (pid == 0) || (pid == look.me_pid)
    then some (next s)
    else (pid_insert s.pids pid >>= λ (rc, pids).
        let s' : Scan = record s { pids = pids } in
        if not (is_zero rc) || look.alive false pid
        then some (next s')
        else stale_slot look i pid s')

-- the loop over the slots, with `k` rounds to go
unfoldable pub scan_loop : Look → (k i : ℕ) → Scan → Option (ℤ × Scan)
unfolding scan_slot
scan_loop look zero i s = some (pos 0, s)
scan_loop look (suc k) i s = scan_slot look i s >>= λ o. elim o [
  | next s' ↦ scan_loop look k (i + 1) s'
  | finish rc s' ↦ some (rc, s')
]

-- what a check returns: its code, the table and what it stores in `dead`
pub record Checked : Type 0 where
  pub rc : ℤ
  pub readers : ℕ → Reader
  pub dead : Option ℕ

-- the part of `mdb_reader_check0` behind the choice of `rmutex`
abbrev pub check_with : (malloc : Bool) → Look → (ℕ → Reader) → Option Checked
check_with malloc look readers =
    if malloc
    then (scan_loop look look.rdrs 0
          (record { readers = readers; pids = record { count = 0; entries = λ _. 0 }; count = 0 })
        >>= λ (rc, s). some (record { rc = rc; readers = s.readers; dead = some s.count }))
    else some (record { rc = enomem; readers = readers; dead = none })

-- `mdb_reader_check0` with `rlocked` set
unfoldable pub check_rlocked : System → (rdrs : ℕ) → (ℕ → Reader) → Option Checked
unfolding scan_loop
check_rlocked sys rdrs readers =
    check_with (sys.malloc true)
      (record {
        me_pid = sys.me_pid;
        rdrs = rdrs;
        alive = sys.alive true;
        acquire = λ i rs. some not_needed;
      })
      readers

-- `mdb_mutex_failed` for `me_rmutex`
unfoldable pub mutex_failed : System → (rdrs : ℕ) → (ℕ → Reader) → (rc : ℤ) → Option Acquired
unfolding check_rlocked
mutex_failed sys rdrs readers rc =
    if same_code rc sys.ownerdead
    then (check_rlocked sys rdrs readers >>= λ c.
        let rc2 = if is_zero c.rc then sys.mutex_consistent else c.rc in
        some (if is_zero rc2 then repaired c.readers else refused rc2 c.readers))
    else some (refused rc readers)

-- `mdb_reader_check0` without `rlocked`
unfoldable pub reader_check0 : System → Txninfo → Option Checked
unfolding mutex_failed scan_loop
reader_check0 sys t =
    check_with (sys.malloc false)
      (record {
        me_pid = sys.me_pid;
        rdrs = t.mti_numreaders;
        alive = sys.alive false;
        acquire = λ i rs.
            if is_zero (sys.lock i)
            then some locked
            else mutex_failed sys t.mti_numreaders rs (sys.lock i);
      })
      t.mti_readers

-- `mdb_reader_check` with a place for `dead`; an environment has no table if it has no lock file.
unfoldable pub reader_check :
    System → (env : Option (Option Txninfo)) → Option (ℤ × ℕ × Option Txninfo)
unfolding reader_check0
reader_check sys none = some (einval, 0, none)
reader_check sys (some none) = some (pos 0, 0, none)
reader_check sys (some (some t)) = reader_check0 sys t >>= λ c.
    some (c.rc, elim c.dead [ none ↦ 0 | some n ↦ n ], some (record t { mti_readers = c.readers }))
