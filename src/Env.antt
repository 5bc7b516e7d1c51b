-- ===== src/Env.antt =====
-- liblmdb/mdb.c: the part of `MDB_env` that says how large the memory map is, its two meta pages, and
-- the functions that set and report the size (a 64-bit POSIX build, without MDB_VL32). Calls of the
-- operating system are the parameter `Os`. A return code is an integer, 0 for success.
pub mod Mapsize
use sam_lmdb_rs.Base.{
  ℕ, ◌+◌, ◌-◌, ◌*◌, ◌/◌, ◌%◌, ◌^◌, ◌≡◌, ◌≢◌, Option, none, some, Bool, true, false, ◌&&◌, not,
  if◌then◌else◌, ltb, ◌==◌,
}
use sam_lmdb_rs.Base.Int.{ℤ, pos, negsuc}

-- MDB_meta
pub record Meta : Type 0 where
  pub mm_txnid : ℕ
  pub mm_mapsize : ℕ
  pub mm_last_pg : ℕ

-- MDB_env; `me_map` is the address of the map, `none` for NULL, and a flag is a Bool.
pub record MdbEnv : Type 0 where
  pub me_map : Option ℕ
  pub me_txn : Bool
  pub me_psize : ℕ
  pub me_mapsize : ℕ
  pub me_maxpg : ℕ
  -- the map that the pointers `me_metas` go into, and what the two meta pages of the file hold
  pub me_metas_at : Option ℕ
  pub me_metas0 : Meta
  pub me_metas1 : Meta
  pub prev_snapshot : Bool
  pub fixed_map : Bool
  pub write_map : Bool
  pub raw_part : Bool

-- `ftruncate(fd, size)` succeeds; the address that `mmap` of `size` bytes returns; `errno` of a
-- failed call, which is not 0
pub record Os : Type 0 where
  pub ftruncate : ℕ → Bool
  pub mmap : ℕ → Option ℕ
  pub errno : ℤ
  pub errno_set : errno ≢ pos 0

abbrev pub u64 : ℕ → ℕ
u64 n = n % 2 ^ 64

abbrev pub mdb_success : ℤ
mdb_success = pos 0

abbrev pub einval : ℤ
einval = pos 22

abbrev pub ebusy : ℤ
ebusy = pos 16

unfoldable pub env_pick_meta : MdbEnv → Meta
env_pick_meta env =
    let newer = ltb env.me_metas0.mm_txnid env.me_metas1.mm_txnid in
    if (if env.prev_snapshot then not newer else newer) then env.me_metas1 else env.me_metas0

-- `addr && env->me_map != addr`
abbrev pub moved : Option ℕ → ℕ → Bool
moved none p = false
moved (some a) p = not (a == p)

-- `mdb_env_map`: map the file at `me_mapsize` bytes, at `addr` if that is given.
unfoldable pub env_map : Os → MdbEnv → Option ℕ → ℤ × MdbEnv
env_map os env addr =
    if env.write_map && (not env.raw_part && not (os.ftruncate env.me_mapsize))
    then (os.errno, env)
    else (elim (os.mmap env.me_mapsize) [
      | none ↦ (os.errno, record env { me_map = none })
      | some p ↦
          if moved addr p
          then (ebusy, record env { me_map = some p })
          else (mdb_success, record env { me_map = some p; me_metas_at = some p })
    ])

-- The last two assignments of `mdb_env_set_mapsize`.
abbrev pub set_limits : MdbEnv → ℕ → MdbEnv
set_limits env size = record env {
  me_mapsize = size;
  me_maxpg = if env.me_psize == 0 then env.me_maxpg else size / env.me_psize;
}

-- the size that an open environment is given
unfoldable pub wanted_mapsize : MdbEnv → ℕ → ℕ
wanted_mapsize env size =
    let meta = env_pick_meta env in
    let size' = if size == 0 then meta.mm_mapsize else size in
    let minsize = u64 (u64 (meta.mm_last_pg + 1) * env.me_psize) in
    if ltb size' minsize then minsize else size'

abbrev pub is_success : ℤ → Bool
is_success (pos n) = n == 0
is_success (negsuc n) = false

-- `mdb_env_set_mapsize`
unfoldable pub env_set_mapsize : Os → MdbEnv → ℕ → ℤ × MdbEnv
env_set_mapsize os env size = elim env.me_map [
  | none ↦ (mdb_success, set_limits env size)
  | some old ↦
      if env.me_txn
      then (einval, env)
      else (let size' = wanted_mapsize env size in
          let (rc, env') =
            env_map os (record env { me_mapsize = size' })
              (if env.fixed_map then some old else none) in
          if is_success rc then (mdb_success, set_limits env' size') else (rc, env'))
]

-- the fields of MDB_envinfo and MDB_stat that the resize code reads
pub record EnvInfo : Type 0 where
  pub me_mapsize : ℕ
  pub me_last_pgno : ℕ
  pub me_last_txnid : ℕ

-- `mdb_env_info`, of an environment that is not NULL
unfoldable pub env_info : MdbEnv → EnvInfo
env_info env =
    let meta = env_pick_meta env in
    record {
      me_mapsize = env.me_mapsize;
      me_last_pgno = meta.mm_last_pg;
      me_last_txnid = meta.mm_txnid;
    }

-- `ms_psize` of `mdb_env_stat`
abbrev pub stat_psize : MdbEnv → ℕ
stat_psize env = env.me_psize
