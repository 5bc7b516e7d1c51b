-- ===== src/Resize.antt =====
-- src/resize/mod.rs and the resizing methods of `Environment` in src/environment.rs, over the C
-- environment of Env. A method returns its result and the new state; `panicked` is a failed
-- `expect`, `assert!` or a division by zero. The comparison of the f32 fill fraction with the
-- trigger is the parameter `over`, free space on the disk is the parameter `free_space`.
-- The drain of the transactions is Guard; here the caller holds `db_resize_lock`.
pub mod Step
pub mod Headroom
use sam_lmdb_rs.Base.{
  ℕ, zero, suc, ◌+◌, ◌-◌, ◌*◌, ◌/◌, ◌%◌, ◌^◌, ◌≡◌, ◌≢◌, Option, none, some, Bool, true, false, ◌&&◌,
  ◌||◌, not, if◌then◌else◌, ltb, leb, ◌==◌, List, [], ◌∷◌, ◌++◌,
}
use sam_lmdb_rs.Base.Int.{ℤ, pos, negsuc}
use sam_lmdb_rs.Env.{u64, MdbEnv, Os, env_info, stat_psize, env_set_mapsize}
use sam_lmdb_rs.Errors.{Error, other, LmdbResult, ok, err, lmdb_result}

pub data Outcome {ℓ} (A : Type ℓ) : Type ℓ where
  done : A → Outcome A
  failed : Error → Outcome A
  panicked : Outcome A

-- usize: `checked_add`, `checked_mul`
abbrev pub checked : ℕ → Option ℕ
checked n = if ltb n (2 ^ 64) then some n else none

-- DatabaseResizeInfo
pub record DatabaseResizeInfo : Type 0 where
  pub old_size : ℕ
  pub new_size : ℕ
  pub occupied_size_before_resize : ℕ

-- DatabaseResizeSettings, without the fraction
pub record DatabaseResizeSettings : Type 0 where
  pub min_resize_step : ℕ
  pub max_resize_step : ℕ
  pub default_resize_ratio_percentage : ℕ

abbrev pub default_resize_settings : DatabaseResizeSettings
default_resize_settings = record {
  min_resize_step = 2 ^ 28;
  max_resize_step = 2 ^ 31;
  default_resize_ratio_percentage = 100;
}

-- `validate` panics unless this holds.
unfoldable pub validate : DatabaseResizeSettings → Bool
validate s =
    not (s.min_resize_step == 0)
    && (not (s.max_resize_step == 0)
        && (leb s.min_resize_step s.max_resize_step
            && not (s.default_resize_ratio_percentage == 0)))

-- The fields of `Environment` that the resize code uses; `notified` lists the calls of the callback,
-- which `has_callback` says is set.
pub record Environment : Type 0 where
  pub env : MdbEnv
  pub resize_settings : Option DatabaseResizeSettings
  pub has_callback : Bool
  pub notified : List DatabaseResizeInfo

abbrev pub settings_of : Environment → DatabaseResizeSettings
settings_of e = elim e.resize_settings [ none ↦ default_resize_settings | some s ↦ s ]

-- `headroom_from_ratio`: the product is taken in u128, which it fits.
abbrev pub headroom_from_ratio : ℕ → ℕ → Option ℕ
headroom_from_ratio current_map_size resize_ratio = checked (current_map_size * resize_ratio / 100)

-- `map_occupied_size_inner`
abbrev pub map_occupied_size : MdbEnv → Option ℕ
map_occupied_size env = checked (stat_psize env * (env_info env).me_last_pgno)

-- `Ord::clamp`, of bounds in order
abbrev pub clamp : ℕ → ℕ → ℕ → ℕ
clamp x lo hi = if ltb x lo then lo else if ltb hi x then hi else x

-- the new size rounded up to a multiple of the page size, and one page more if that changes nothing
unfoldable pub round_up : ℕ → ℕ → ℕ → ℕ
round_up size page old =
    let rounded = if size % page == 0 then size else u64 (size + (page - size % page)) in
    if rounded == old then u64 (rounded + page) else rounded

-- what `fs4::free_space` gives: the bytes, or an error with the OS code that it may have
pub data FreeSpace : Type 0 where
  free : ℕ → FreeSpace
  io_error : (raw_os_error : Option ℤ) → FreeSpace

-- `raw_os_error().unwrap_or(EIO)`
abbrev pub os_code : Option ℤ → ℤ
os_code none = pos 5
os_code (some code) = code

module _ (os : Os) (free_space : Environment → FreeSpace) where
  -- `set_map_size_locked`, behind the drain
  unfoldable pub set_map_size_locked : Environment → ℕ → Outcome (Unit {0}) × Environment
  set_map_size_locked e size =
      let (rc, env') = env_set_mapsize os e.env size in
      (elim (lmdb_result rc) [ ok ↦ done tt | err x ↦ failed x ], record e { env = env' })

  -- The end of `do_resize_locked`: the error of the free-space query or ENOSPC (28), the remap, the
  -- callback.
  unfoldable pub finish_resize : Environment → (old occupied size : ℕ) → Outcome ℕ × Environment
  finish_resize e old occupied size = elim (free_space e) [
    | io_error code ↦ (failed (other (os_code code)), e)
    | free bytes ↦
        if leb bytes (size - old)
        then (failed (other (pos 28)), e)
        else (let (r, e') = set_map_size_locked e size in
            elim r [
              | failed x ↦ (failed x, e')
              | panicked ↦ (panicked, e')
              | done u ↦
                  let info : DatabaseResizeInfo = record {
                    old_size = old;
                    new_size = size;
                    occupied_size_before_resize = occupied;
                  } in
                  (
                    done size,
                    if e.has_callback
                        then record e' { notified = e'.notified ++ info ∷ [] }
                        else e',
                  )
            ])
  ]

  -- `do_resize_locked`
  unfoldable pub do_resize_locked : Environment → Option ℕ → Outcome ℕ × Environment
  do_resize_locked e increase_size =
      let s = settings_of e in
      let page = stat_psize e.env in
      let old = (env_info e.env).me_mapsize in
      let asked : Option ℕ = elim increase_size [
        | none ↦ headroom_from_ratio old s.default_resize_ratio_percentage
        | some n ↦ some n
      ] in
      elim asked [
        | none ↦ (panicked, e)
        | some increase ↦ elim (map_occupied_size e.env) [
          | none ↦ (panicked, e)
          | some occupied ↦
              elim (checked (old + clamp increase s.min_resize_step s.max_resize_step)) [
                | none ↦ (panicked, e)
                | some new ↦
                    let size = round_up new page old in
                    if page == 0 || (not (size % page == 0) || leb size old)
                    then (panicked, e)
                    else finish_resize e old occupied size
              ]
        ]
      ]

  module _ (over : ℕ → ℕ → Bool) where
    -- `needs_resize`; `over used size` is `used as f32 / size as f32 > trigger`
    unfoldable pub needs_resize : Environment → Option ℕ → Outcome Bool
    needs_resize e headroom =
        let size = (env_info e.env).me_mapsize in
        elim (map_occupied_size e.env) [
          | none ↦ panicked
          | some used ↦ elim headroom [
            | none ↦ done (over used size)
            | some h ↦ elim (checked (h + used)) [
              | none ↦ panicked
              | some total ↦ if ltb size total then done true else done (over used size)
            ]
          ]
        ]

    -- The `while` of `resize_db_if_necessary`. `none` means that the fuel ran out.
    unfoldable pub resize_loop :
        ℕ
        → Environment
        → Option ℕ
        → (required initial : ℕ) → Option (Outcome (Unit {0}) × Environment)
    resize_loop zero e headroom required initial = none
    resize_loop (suc fuel) e headroom required initial = elim (needs_resize e headroom) [
      | panicked ↦ some (panicked, e)
      | failed x ↦ some (failed x, e)
      | done false ↦ some (done tt, e)
      | done true ↦
          let (r, e') = do_resize_locked e (some required) in
          elim r [
            | panicked ↦ some (panicked, e')
            | failed x ↦ some (failed x, e')
            | done new ↦ elim (leb (u64 (required + initial)) new) [
              | true ↦ some (done tt, e')
              | false ↦ resize_loop fuel e' headroom required initial
            ]
          ]
    ]

    -- `resize_db_if_necessary`
    unfoldable pub resize_db_if_necessary :
        ℕ → Environment → Option ℕ → Option (Outcome (Unit {0}) × Environment)
    resize_db_if_necessary fuel e headroom =
        let initial = (env_info e.env).me_mapsize in
        let required : Option ℕ = elim headroom [
          | none ↦ headroom_from_ratio initial (settings_of e).default_resize_ratio_percentage
          | some h ↦ some h
        ] in
        elim required [ none ↦ some (panicked, e) | some r ↦ resize_loop fuel e headroom r initial ]
