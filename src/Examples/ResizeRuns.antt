-- ===== src/Examples/ResizeRuns.antt =====
-- Resizing a small environment: src/environment.rs over liblmdb/mdb.c.
use sam_lmdb_rs.Base.{ℕ, ◌*◌, ◌^◌, ◌≡◌, ◌≢◌, some, Bool, true, false, [], arith, refl, ltb}
use sam_lmdb_rs.Base.Int.{pos}
use sam_lmdb_rs.Env.{
  Meta, MdbEnv, Os, env_set_mapsize, env_map, wanted_mapsize, env_pick_meta, env_info, einval,
}
use sam_lmdb_rs.Env.Mapsize.{env_set_mapsize-busy}
use sam_lmdb_rs.Errors.{lmdb_result}
use sam_lmdb_rs.Resize.{
  Environment, FreeSpace, free, done, validate, round_up, set_map_size_locked, finish_resize,
  do_resize_locked,
}
use sam_lmdb_rs.Resize.Step.{IsReady, Target, Resized, target, do_resize_locked-Resized}

abbrev meta : ℕ → Meta
meta id = record { mm_txnid = id; mm_mapsize = 65536; mm_last_pg = 9 }

-- ten pages in use, of sixteen
abbrev small : MdbEnv
small = record {
  me_map = some 4096;
  me_txn = false;
  me_psize = 4096;
  me_mapsize = 65536;
  me_maxpg = 16;
  me_metas_at = some 4096;
  me_metas0 = meta 6;
  me_metas1 = meta 7;
  prev_snapshot = false;
  fixed_map = false;
  write_map = false;
  raw_part = false;
}

success_code : pos 12 ≢ pos 0
success_code e = cc

abbrev os : Os
os = record {
  ftruncate = λ _. true;
  mmap = λ n. some 8192;
  errno = pos 12;
  errno_set = success_code;
}

abbrev environment : Environment
environment = record {
  env = small;
  resize_settings = some (record {
    min_resize_step = 10000;
    max_resize_step = 100000;
    default_resize_ratio_percentage = 100;
  });
  has_callback = true;
  notified = [];
}

abbrev plenty : Environment → FreeSpace
plenty e = free (2 ^ 40)

abbrev over : ℕ → ℕ → Bool
over used size = ltb (size * 9) (used * 10)

environment-IsReady : IsReady environment
unfolding validate env_pick_meta
environment-IsReady = record {
  page = omega arith;
  opened = λ e. cc;
  used = omega arith;
  validated = refl;
  space = omega arith;
}

-- the increase is held at 100000 bytes, and rounded up to whole pages
do_resize_run : (do_resize_locked os plenty environment (some 500000)).0 ≡ done 167936
unfolding do_resize_locked finish_resize set_map_size_locked round_up env_info env_pick_meta
    env_set_mapsize env_map wanted_mapsize lmdb_result
do_resize_run = refl

abbrev asked : ℕ
asked = 100

busy_example :
    env_set_mapsize os (record small { me_txn = true }) 100
    ≡ (einval, record small { me_txn = true })
busy_example = env_set_mapsize-busy os (record small { me_txn = true }) 4096 refl 100 refl

resize_example :
    Target os plenty environment environment-IsReady 500000
    × Resized os plenty environment environment-IsReady
        (4096 * (env_pick_meta small).mm_last_pg)
        (target os plenty environment environment-IsReady 500000)
        (do_resize_locked os plenty environment (some 500000))
resize_example =
    do_resize_locked-Resized os plenty environment environment-IsReady (some 500000) 500000 refl
