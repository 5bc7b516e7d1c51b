-- ===== src/Readers/Renew.antt =====
-- liblmdb/mdb.c: how `mdb_txn_renew0` gets a slot of the reader table for a transaction that only
-- reads, and publishes the transaction that it reads. The thread's slot is kept in `mt_u.reader`
-- with MDB_NOTLS and in thread-specific data otherwise. `none` is lack of fuel.
pub mod Claim
pub mod Renewal
pub mod Held
use sam_lmdb_rs.Base.{
  Bool, true, false, ℕ, zero, suc, ◌+◌, ◌-◌, ◌*◌, ◌^◌, Option, some, none, ◌||◌, ◌&&◌, not,
  if◌then◌else◌, ◌==◌, ◌>>=◌,
}
use sam_lmdb_rs.Base.Int.{ℤ, pos, negsuc}
use sam_lmdb_rs.Base.Arrays.{store}
use sam_lmdb_rs.Errors.{is_zero}
use sam_lmdb_rs.Readers.{Reader, Txninfo}
use sam_lmdb_rs.Readers.Check.{
  System, Acquired, locked, repaired, refused, not_needed, mutex_failed, free_slot,
}

-- the fields of `MDB_env` that the code uses; `reader_key` is the slot in thread-specific data
pub record ReaderEnv : Type 0 where
  pub me_txns : Txninfo
  pub me_pid : ℕ
  pub me_notls : Bool
  pub me_live_reader : Bool
  pub me_maxreaders : ℕ
  pub me_close_readers : ℕ
  pub reader_key : Option ℕ

-- What other code answers: `mdb_reader_pid(env, Pidset, pid)`, LOCK_MUTEX0, pthread_setspecific, what
-- the repair of the mutex asks, and `mti_txnid` each time that it is read.
pub record Answers : Type 0 where
  pub set_pid : ℤ
  pub lock : ℤ
  pub set_specific : ℤ
  pub system : System
  pub mti_txnid : ℕ → ℕ

-- MDB_READERS_FULL and MDB_BAD_RSLOT
abbrev pub readers_full : ℤ
readers_full = negsuc 30789

abbrev pub bad_rslot : ℤ
bad_rslot = negsuc 30782

-- (txnid_t)-1
abbrev pub no_txnid : ℕ
no_txnid = 2 ^ 64 - 1

-- the code, the environment, and the slot and the transaction if there is no error
pub record Renewed : Type 0 where
  pub rc : ℤ
  pub env : ReaderEnv
  pub reader : Option (ℕ × ℕ)

-- `for (i=0; i<nr; i++) if (ti->mti_readers[i].mr_pid == 0) break;`, with `k` rounds to go
unfoldable pub free_scan : (ℕ → Reader) → (k i : ℕ) → ℕ
free_scan r zero i = i
free_scan r (suc k) i = let rest = free_scan r k (i + 1) in if (r i).mr_pid == 0 then i else rest

abbrev pub set_reader : ReaderEnv → ℕ → Reader → ReaderEnv
set_reader env i r = record env {
  me_txns = record (env.me_txns) { mti_readers = store env.me_txns.mti_readers i r };
}

-- the loop that retries on a race, in its `n`th round; the result is `mr_txnid`
unfoldable pub publish_loop : (mti_txnid : ℕ → ℕ) → (fuel n : ℕ) → Option ℕ
publish_loop mti_txnid zero n = none
publish_loop mti_txnid (suc fuel) n =
    let again = publish_loop mti_txnid fuel (n + 1) in
    if mti_txnid (2 * n) == mti_txnid (2 * n + 1) then some (mti_txnid (2 * n)) else again

-- from that loop on
unfoldable pub publish : Answers → (fuel : ℕ) → ReaderEnv → (i : ℕ) → Option Renewed
unfolding publish_loop
publish ans fuel env i = publish_loop ans.mti_txnid fuel 0 >>= λ v. some (record {
  rc = pos 0;
  env = set_reader env i (record (env.me_txns.mti_readers i) { mr_txnid = v });
  reader = some (i, v);
})

-- behind the claim: `pthread_setspecific` unless MDB_NOTLS is set
unfoldable pub keep_slot :
    Answers → (fuel : ℕ) → (new_notls : Bool) → ReaderEnv → (i : ℕ) → Option Renewed
unfolding publish
keep_slot ans fuel true env i = publish ans fuel env i
keep_slot ans fuel false env i =
    if is_zero ans.set_specific
    then publish ans fuel (record env { reader_key = some i }) i
    else some (record {
      rc = ans.set_specific;
      env = set_reader env i (free_slot (env.me_txns.mti_readers i));
      reader = none;
    })

-- from "Claim the reader slot" to the end of the branch
unfoldable pub claim_slot : Answers → (fuel : ℕ) → ReaderEnv → (i : ℕ) → Option Renewed
unfolding keep_slot
claim_slot ans fuel env i =
    let nr = env.me_txns.mti_numreaders in
    let nr' = if i == nr then nr + 1 else nr in
    let r : Reader = record { mr_pid = env.me_pid; mr_txnid = no_txnid } in
    let ti : Txninfo = record {
      mti_numreaders = nr';
      mti_readers = store env.me_txns.mti_readers i r;
    } in
    keep_slot ans fuel env.me_notls (record env { me_txns = ti; me_close_readers = nr' }) i

-- with the mutex
unfoldable pub take_slot : Answers → (fuel : ℕ) → ReaderEnv → Option Renewed
unfolding free_scan claim_slot
take_slot ans fuel env =
    let i = free_scan env.me_txns.mti_readers env.me_txns.mti_numreaders 0 in
    if i == env.me_maxreaders
    then some (record { rc = readers_full; env = env; reader = none })
    else claim_slot ans fuel env i

abbrev pub with_readers : ReaderEnv → (ℕ → Reader) → ReaderEnv
with_readers env rs = record env { me_txns = record (env.me_txns) { mti_readers = rs } }

-- LOCK_MUTEX, and what comes then
unfoldable pub lock_slot : Answers → (fuel : ℕ) → ReaderEnv → Option Renewed
unfolding take_slot mutex_failed
lock_slot ans fuel env =
    let t = env.me_txns in
    if is_zero ans.lock
    then take_slot ans fuel env
    else (mutex_failed ans.system t.mti_numreaders t.mti_readers ans.lock >>= λ a. elim a [
      | repaired rs ↦ take_slot ans fuel (with_readers env rs)
      | refused rc rs ↦ some (record { rc = rc; env = with_readers env rs; reader = none })
      | not_needed ↦ none
      | locked ↦ none
    ])

-- `if (!env->me_live_reader) ...`
unfoldable pub go_live : Answers → (fuel : ℕ) → (me_live_reader : Bool) → ReaderEnv → Option Renewed
unfolding lock_slot
go_live ans fuel true env = lock_slot ans fuel env
go_live ans fuel false env =
    if is_zero ans.set_pid
    then lock_slot ans fuel (record env { me_live_reader = true })
    else some (record { rc = ans.set_pid; env = env; reader = none })

-- the two cases of the slot `r` that the thread has
unfoldable pub own_slot : Answers → (fuel : ℕ) → ReaderEnv → (r : Option ℕ) → Option Renewed
unfolding go_live publish
own_slot ans fuel env none = go_live ans fuel env.me_live_reader env
own_slot ans fuel env (some i) =
    let r = env.me_txns.mti_readers i in
    if not (r.mr_pid == env.me_pid) || not (r.mr_txnid == no_txnid)
    then some (record { rc = bad_rslot; env = env; reader = none })
    else publish ans fuel env i

-- The part of `mdb_txn_renew0` for MDB_TXN_RDONLY, up to `mt_u.reader = r`, for an environment with a
-- lock file; `mt_reader` is `mt_u.reader`.
unfoldable pub renew_reader :
    Answers → (fuel : ℕ) → ReaderEnv → (mt_reader : Option ℕ) → Option Renewed
unfolding own_slot
renew_reader ans fuel env mt_reader =
    own_slot ans fuel env (if env.me_notls then mt_reader else env.reader_key)
