-- ===== src/Resize/Step.antt =====
-- One resize.
use sam_lmdb_rs.Base.{
  ℕ, ◌+◌, ◌-◌, ◌*◌, ◌/◌, ◌%◌, ◌^◌, ◌≡◌, ◌≢◌, ◌≤◌, ◌<◌, Option, none, some, true, arith, refl, ap,
  sym, ◌∙◌, subst, lt→ltb, List, [], ◌∷◌, ◌++◌, Option-cases, inl, inr, if◌then◌else◌,
}
use native.Mathlib.Nat.{div-add-mod', mod-lt, mul-mod_left}
use sam_lmdb_rs.Base.Int.{ℤ}
use sam_lmdb_rs.Env.{Os, env_info, env_set_mapsize, env_pick_meta, mdb_success}
use sam_lmdb_rs.Env.Mapsize.{
  SameData, used_bytes, env_set_mapsize-success, env_set_mapsize-SameData, env_set_mapsize-open,
}
use sam_lmdb_rs.Errors.{ok, lmdb_result}
use sam_lmdb_rs.Resize.{
  FreeSpace, Outcome, done, failed, panicked, round_up, clamp, Environment, DatabaseResizeInfo,
  settings_of, set_map_size_locked, finish_resize, do_resize_locked, map_occupied_size, validate,
}

next_multiple : (size page : ℕ) → 0 < page → (size + (page - size % page)) % page ≡ 0
next_multiple size page p =
    let e : size + (page - size % page) ≡ (size / page + 1) * page =
      omega (arith, div-add-mod' size page, mod-lt size p) in
    rw e (mul-mod_left (size / page + 1) page)

-- The rounded size is a multiple of the page size, above the old one, and at most a page above what
-- was asked for.
round_up_lem :
    (size page old : ℕ)
    → 0 < page
    → old < size
    → size + page ≤ 2 ^ 64
    → (round_up size page old % page ≡ 0)
      × (size ≤ round_up size page old)
      × (round_up size page old < size + page)
unfolding round_up
round_up_lem size page old p h fits = ground (arith, next_multiple size page p, mod-lt size p)

-- An open environment whose pages in use lie inside its map, with validated settings, and far enough
-- from the end of the address space for one more resize.
pub record IsReady (e : Environment) : Type 0 where
  pub page : 0 < e.env.me_psize
  pub opened : e.env.me_map ≢ none
  pub used : used_bytes e.env ≤ e.env.me_mapsize
  pub validated : validate (settings_of e) ≡ true
  pub space : e.env.me_mapsize + (settings_of e).max_resize_step + e.env.me_psize ≤ 2 ^ 64

-- The callback is called once after a successful resize, if there is one.
abbrev pub notify : Environment → DatabaseResizeInfo → List DatabaseResizeInfo
notify e info = if e.has_callback then e.notified ++ info ∷ [] else e.notified

abbrev pub Remapped : Environment → Environment → ℕ → Type 0
Remapped e e' size =
    SameData e.env e'.env
    × (e'.env.me_mapsize ≡ size)
    × (e'.env.me_maxpg ≡ size / e.env.me_psize)
    × (e'.env.me_map ≢ none)
    × (e'.resize_settings ≡ e.resize_settings)
    × (e'.has_callback ≡ e.has_callback)

module _ (os : Os) (free_space : Environment → FreeSpace) (e : Environment)
    (ready : IsReady e) where
  -- what `set_map_size_locked` leaves
  abbrev Set : ℕ → Outcome (Unit {0}) × Environment → Type 0
  Set size (done u, e') = Remapped e e' size × (e'.notified ≡ e.notified)
  Set size (failed x, e') = SameData e.env e'.env × (e'.notified ≡ e.notified)
  Set size (panicked, e') = ⊥

  ok_zero : (rc : ℤ) → lmdb_result rc ≡ ok → rc ≡ mdb_success
  unfolding lmdb_result
  ok_zero rc h = ground arith

  set_map_size_locked-Set :
      (size : ℕ)
      → e.env.me_mapsize < size
      → size < 2 ^ 64
      → Set size (set_map_size_locked os free_space e size)
  unfolding set_map_size_locked
  set_map_size_locked-Set size above small = elim (Option-cases e.env.me_map) [
    | inl gone ↦ absurd (ready.opened gone)
    | inr (old, at) ↦ ground (
      arith,
      ready.used,
      ok_zero (env_set_mapsize os e.env size).0,
      env_set_mapsize-success os e.env old at size,
      env_set_mapsize-SameData os e.env old at size,
      env_set_mapsize-open os e.env old at size,
    )
  ]

  -- what `finish_resize` and `do_resize_locked` leave
  abbrev pub Resized : (occupied size : ℕ) → Outcome ℕ × Environment → Type 0
  Resized occupied size (done new, e') =
      (new ≡ size)
      × Remapped e e' size
      × (e'.notified
          ≡ notify e (record {
            old_size = e.env.me_mapsize;
            new_size = size;
            occupied_size_before_resize = occupied;
          }))
  Resized occupied size (failed x, e') = SameData e.env e'.env × (e'.notified ≡ e.notified)
  Resized occupied size (panicked, e') = ⊥

  unchanged : SameData e.env e.env
  unchanged = ground arith

  finish_resize-Resized :
      (occupied size : ℕ)
      → e.env.me_mapsize < size
      → size < 2 ^ 64
      → Resized occupied size (finish_resize os free_space e e.env.me_mapsize occupied size)
  unfolding finish_resize
  finish_resize-Resized occupied size above small =
      ground (arith, unchanged, set_map_size_locked-Set size above small)

  product-le : (last psize size : ℕ) → (last + 1) * psize ≤ size → psize * last ≤ size
  product-le last psize size h = omega arith

  occupied_fits : map_occupied_size e.env ≡ some (e.env.me_psize * (env_pick_meta e.env).mm_last_pg)
  unfolding env_info
  occupied_fits = ground (
    arith,
    product-le (env_pick_meta e.env).mm_last_pg e.env.me_psize e.env.me_mapsize ready.used,
    ready.space,
    ready.page,
  )

  -- the size that `do_resize_locked` goes for
  abbrev pub target : ℕ → ℕ
  target increase =
      let s = settings_of e in
      round_up (e.env.me_mapsize + clamp increase s.min_resize_step s.max_resize_step)
        e.env.me_psize e.env.me_mapsize

  -- The target is a whole number of pages. It exceeds the old size by the increase, held between the
  -- configured steps, and by less than one page more.
  pub record Target (increase : ℕ) : Type 0 where
    pub pages : target increase % e.env.me_psize ≡ 0
    pub least :
        e.env.me_mapsize
          + clamp increase (settings_of e).min_resize_step (settings_of e).max_resize_step
        ≤ target increase
    pub most :
        target increase
        < e.env.me_mapsize
          + clamp increase (settings_of e).min_resize_step (settings_of e).max_resize_step
          + e.env.me_psize

  pub steps :
      let s = settings_of e in (0 < s.min_resize_step) × (s.min_resize_step ≤ s.max_resize_step)
  unfolding validate
  steps = ground (arith, ready.validated)

  pub clamp-bounds : (x lo hi : ℕ) → lo ≤ hi → (lo ≤ clamp x lo hi) × (clamp x lo hi ≤ hi)
  clamp-bounds x lo hi h = ground arith

  goal_within : (increase : ℕ) → Target increase
  goal_within increase =
      let s = settings_of e in
      let bounds = clamp-bounds increase s.min_resize_step s.max_resize_step steps.1 in
      let (a, b, c) =
        round_up_lem (e.env.me_mapsize + clamp increase s.min_resize_step s.max_resize_step)
          e.env.me_psize e.env.me_mapsize ready.page (omega (arith, steps, bounds))
          (omega (arith, bounds, ready.space)) in
      record { pages = a; least = b; most = c }

  asked_increase :
      (increase : ℕ)
      → Target increase
        × Resized
            (e.env.me_psize * (env_pick_meta e.env).mm_last_pg)
            (target increase)
            (do_resize_locked os free_space e (some increase))
  unfolding do_resize_locked env_info
  asked_increase increase =
      let t = goal_within increase in
      let s = settings_of e in
      let bounds = clamp-bounds increase s.min_resize_step s.max_resize_step steps.1 in
      (
        t,
        ground (
          arith,
          t.pages,
          t.least,
          t.most,
          bounds,
          steps,
          ready.space,
          ready.page,
          occupied_fits,
          finish_resize-Resized (e.env.me_psize * (env_pick_meta e.env).mm_last_pg)
              (target increase),
        ),
      )

  -- without an increase it does what it does with the computed one
  ratio-some :
      let grow = e.env.me_mapsize * (settings_of e).default_resize_ratio_percentage / 100 in
      grow < 2 ^ 64
      → do_resize_locked os free_space e none ≡ do_resize_locked os free_space e (some grow)
  unfolding do_resize_locked env_info
  ratio-some small =
      let grow = e.env.me_mapsize * (settings_of e).default_resize_ratio_percentage / 100 in
      rw (do_resize_locked, lt→ltb grow (2 ^ 64) small) refl

  -- the increase that a call asks for: without one, the configured percentage of the map
  abbrev pub Asks : Option ℕ → ℕ → Type 0
  Asks (some n) increase = n ≡ increase
  Asks none increase =
      let grow = e.env.me_mapsize * (settings_of e).default_resize_ratio_percentage / 100 in
      (grow ≡ increase) × (grow < 2 ^ 64)

  -- On a ready environment, and for an increase that fits 64 bits if it is computed from the
  -- percentage, `do_resize_locked` never panics. It succeeds with the target as the new size, in
  -- the map and in what it returns and reports to the callback, once, or it fails and reports
  -- nothing. Either way it keeps the page size, the contents of the meta pages and the flags.
  pub do_resize_locked-Resized :
      (request : Option ℕ) (increase : ℕ)
      → Asks request increase
      → Target increase
        × Resized
            (e.env.me_psize * (env_pick_meta e.env).mm_last_pg)
            (target increase)
            (do_resize_locked os free_space e request)
  do_resize_locked-Resized (some n) increase asked =
      subst
        (λ m.
          Target increase
          × Resized (e.env.me_psize * (env_pick_meta e.env).mm_last_pg) (target increase)
              (do_resize_locked os free_space e (some m)))
        (sym asked) (asked_increase increase)
  do_resize_locked-Resized none increase (asked, small) =
      subst
        (λ p.
          Target increase
          × Resized (e.env.me_psize * (env_pick_meta e.env).mm_last_pg) (target increase) p)
        (sym (ratio-some small ∙ ap (λ m. do_resize_locked os free_space e (some m)) asked))
        (asked_increase increase)
