-- ===== src/Guard.antt =====
-- src/transaction_guard.rs with the callers in src/transaction.rs and src/environment.rs: the
-- handshake that keeps transactions off the memory map while it is replaced. A party is one
-- activity of a thread: a read transaction, a write transaction, or a resize. Every shared access is
-- one step, and the parties take their steps in any order (all the accesses that matter are SeqCst).
pub mod Tally
pub mod Invariant
pub mod Safety
use sam_lmdb_rs.Base.{ℕ, ◌+◌, ◌-◌, ◌%◌, ◌^◌, ◌<◌, ◌≡◌, ◌≢◌, Option, none, some, Bool, true, false}
use Tally.{update}

-- `Environment`: the two counters are AtomicU32, the mutex names its owner.
pub record Environment : Type 0 where
  pub tx_count : ℕ
  pub tx_blocker_count : ℕ
  pub db_resize_lock : Option ℕ

-- `fetch_add(1)` and `fetch_sub(1)` on an AtomicU32
abbrev pub fetch_add : ℕ → ℕ
fetch_add x = (x + 1) % 2 ^ 32

abbrev pub fetch_sub : ℕ → ℕ
fetch_sub x = (x + 2 ^ 32 - 1) % 2 ^ 32

-- which transaction calls `TransactionGuard::new`
pub data Kind : Type 0 where
  reading writing : Kind

-- Where a party stands.
pub data Pc : Type 0 where
  idle : Pc
  add : Kind → Pc  -- TransactionGuard::new, before `tx_count().fetch_add`
  check : Kind → Pc  -- before `tx_blocker_count().load`
  back : Kind → Pc  -- the load was not 0, before `fetch_sub`
  poll : Kind → Pc  -- the loop around `yield_now`
  live : Pc  -- the guard is held
  live_rw : Pc  -- the guard is held, and the resize lock not yet released
  locked : Pc  -- begin_rw_txn_generic, do_resize or set_map_size, with the lock held
  drain : Pc  -- set_map_size_locked: wait_for_transactions_to_finish
  remap : Pc  -- from the call of mdb_env_set_mapsize to the drop of the blocker

-- One step of party `i`.
pub data Move (i : ℕ) (m : Environment) : Pc → Environment → Pc → Type 0 where
  -- RoTransaction::new takes its guard first.
  begin_ro : Move i m idle m (add reading)
  publish : {k : Kind} → Move i m (add k) (record m { tx_count = fetch_add m.tx_count }) (check k)
  go_live : m.tx_blocker_count ≡ 0 → Move i m (check reading) m live
  go_live_rw : m.tx_blocker_count ≡ 0 → Move i m (check writing) m live_rw
  see_blocker : {k : Kind} → m.tx_blocker_count ≢ 0 → Move i m (check k) m (back k)
  back_out : {k : Kind} → Move i m (back k) (record m { tx_count = fetch_sub m.tx_count }) (poll k)
  -- The relaxed loads of the polling loop may return anything: it may end at any time.
  retry : {k : Kind} → Move i m (poll k) m (add k)
  -- commit, abort or drop of the transaction, and a begin that failed
  drop_guard : Move i m live (record m { tx_count = fetch_sub m.tx_count }) idle
  lock : m.db_resize_lock ≡ none → Move i m idle (record m { db_resize_lock = some i }) locked
  unlock : Move i m locked (record m { db_resize_lock = none }) idle
  -- RwTransaction::new begins the transaction before it takes its guard.
  begin_rw : Move i m locked m (add writing)
  unlock_rw : Move i m live_rw (record m { db_resize_lock = none }) live
  -- ScopedTransactionBlocker::new
  block : Move i m locked (record m { tx_blocker_count = fetch_add m.tx_blocker_count }) drain
  still_live : m.tx_count ≢ 0 → Move i m drain m drain
  drained : m.tx_count ≡ 0 → Move i m drain m remap
  -- the blocker is dropped, whether mdb_env_set_mapsize succeeded or not
  unblock : Move i m remap (record m { tx_blocker_count = fetch_sub m.tx_blocker_count }) locked

-- `n` parties; from `n` on none ever moves.
pub record System : Type 0 where
  pub env : Environment
  pub pc : ℕ → Pc

pub data Step (n : ℕ) (s : System) : System → Type 0 where
  pick :
      (i : ℕ) {m : Environment} {p : Pc}
      → i < n
      → Move i s.env (s.pc i) m p
      → Step n s (record { env = m; pc = update s.pc i p })

-- EnvironmentBuilder::open_with_permissions sets both counters to 0.
abbrev pub init : System
init = record {
  env = record { tx_count = 0; tx_blocker_count = 0; db_resize_lock = none };
  pc = λ _. idle;
}

pub data Reach (n : ℕ) : System → Type 0 where
  start : Reach n init
  later : {s t : System} → Reach n s → Step n s t → Reach n t

-- The party has an LMDB transaction, so it reads through the map.
abbrev pub uses_map : Pc → Bool
uses_map (add writing) = true
uses_map (check writing) = true
uses_map (back writing) = true
uses_map (poll writing) = true
uses_map live = true
uses_map live_rw = true
uses_map _ = false
