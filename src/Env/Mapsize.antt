-- ===== src/Env/Mapsize.antt =====
-- What `mdb_env_set_mapsize` does to an open environment.
use sam_lmdb_rs.Base.{
  if◌then◌else◌, ◌==◌, ℕ, ◌+◌, ◌*◌, ◌/◌, ◌^◌, ◌≡◌, ◌≢◌, ◌≤◌, ◌<◌, none, some, true, arith,
}
use sam_lmdb_rs.Env.{
  MdbEnv, Os, u64, mdb_success, einval, env_pick_meta, env_map, wanted_mapsize, env_set_mapsize,
}

-- the bytes up to the end of the last page in use
abbrev pub used_bytes : MdbEnv → ℕ
used_bytes env = ((env_pick_meta env).mm_last_pg + 1) * env.me_psize

-- Everything but the map, its size and the page limit is as it was.
pub record SameData (env env' : MdbEnv) : Type 0 where
  pub psize : env'.me_psize ≡ env.me_psize
  pub meta0 : env'.me_metas0 ≡ env.me_metas0
  pub meta1 : env'.me_metas1 ≡ env.me_metas1
  pub snapshot : env'.prev_snapshot ≡ env.prev_snapshot
  pub txn : env'.me_txn ≡ env.me_txn
  pub fixed : env'.fixed_map ≡ env.fixed_map
  pub writable : env'.write_map ≡ env.write_map
  pub raw : env'.raw_part ≡ env.raw_part

-- the size that is asked for; 0 asks for the one in the newer meta page
abbrev pub request : MdbEnv → ℕ → ℕ
request env size = if size == 0 then (env_pick_meta env).mm_mapsize else size

-- `w` is that size, or the bytes of the pages in use where they are more
abbrev pub Wanted : MdbEnv → ℕ → ℕ → Type 0
Wanted env size w =
    (used_bytes env ≤ request env size → w ≡ request env size)
    × (request env size < used_bytes env → w ≡ used_bytes env)

minsize_exact :
    (last psize : ℕ)
    → 0 < psize
    → (last + 1) * psize < 2 ^ 64
    → u64 (u64 (last + 1) * psize) ≡ (last + 1) * psize
minsize_exact last psize page fits =
    let small : last + 1 ≤ (last + 1) * psize = grind arith in
    let e : u64 (last + 1) ≡ last + 1 = omega arith in rw e (omega arith)

wanted_mapsize-Wanted :
    (env : MdbEnv) (size : ℕ)
    → used_bytes env < 2 ^ 64
    → 0 < env.me_psize
    → Wanted env size (wanted_mapsize env size)
unfolding wanted_mapsize
wanted_mapsize-Wanted env size fits page =
    ground (arith, minsize_exact (env_pick_meta env).mm_last_pg env.me_psize page fits)

module _ (os : Os) (env : MdbEnv) (old : ℕ) (opened : env.me_map ≡ some old) (size : ℕ) where
  -- With a write transaction open the call is refused, and nothing changes.
  pub env_set_mapsize-busy : env.me_txn ≡ true → env_set_mapsize os env size ≡ (einval, env)
  unfolding env_set_mapsize
  env_set_mapsize-busy busy = ground arith

  pub env_set_mapsize-SameData : SameData env (env_set_mapsize os env size).1
  unfolding env_set_mapsize env_map
  env_set_mapsize-SameData = ground arith

  pub env_set_mapsize-success :
      used_bytes env < 2 ^ 64
      → 0 < env.me_psize
      → (env_set_mapsize os env size).0 ≡ mdb_success
      → let env' = (env_set_mapsize os env size).1 in
        SameData env env'
        × (used_bytes env ≤ env'.me_mapsize)
        × (env'.me_maxpg ≡ env'.me_mapsize / env.me_psize)
        × Wanted env size env'.me_mapsize
        × (env'.me_metas_at ≡ env'.me_map)
  unfolding env_set_mapsize env_map
  env_set_mapsize-success fits page done =
      ground (arith, env_set_mapsize-SameData, wanted_mapsize-Wanted env size fits page)

  -- After success the environment is still open.
  pub env_set_mapsize-open :
      (env_set_mapsize os env size).0 ≡ mdb_success → (env_set_mapsize os env size).1.me_map ≢ none
  unfolding env_set_mapsize env_map
  env_set_mapsize-open done gone = ground (arith, os.errno_set)
