-- ===== src/Resize/Headroom.antt =====
-- The loop of `resize_db_if_necessary` ends, and gives a write transaction the room it asked for.
use sam_lmdb_rs.Base.{
  ℕ, ◌+◌, ◌-◌, ◌*◌, ◌^◌, ◌≡◌, ◌≤◌, ◌<◌, Option, none, some, Bool, true, false, ◌⊎◌, leb,
}
use sam_lmdb_rs.Env.{Os, env_pick_meta, u64}
use sam_lmdb_rs.Env.Mapsize.{SameData}
use sam_lmdb_rs.Resize.{
  FreeSpace, Outcome, done, failed, panicked, Environment, settings_of, resize_loop,
}
use sam_lmdb_rs.Resize.Step.{IsReady}

-- bytes of the pages that `map_occupied_size` counts
abbrev pub occupied : Environment → ℕ
occupied e = e.env.me_psize * (env_pick_meta e.env).mm_last_pg

module _ (os : Os) (free_space : Environment → FreeSpace) (over : ℕ → ℕ → Bool)
    (headroom : Option ℕ) (required initial : ℕ) where
  -- The map has the room asked for: `h` bytes beyond what `map_occupied_size` counts, which is one
  -- page less than the pages in use, or, where no headroom was given, a fill fraction under the
  -- trigger or the growth by the configured ratio.
  abbrev pub HasRoom : Environment → Option ℕ → Type 0
  HasRoom e (some h) = h + occupied e ≤ e.env.me_mapsize
  HasRoom e none =
      (over (occupied e) e.env.me_mapsize ≡ false) ⊎ (required + initial ≤ e.env.me_mapsize)

  abbrev pub Ended : Environment → Outcome (Unit {0}) × Environment → Type 0
  Ended e (done u, e') =
      SameData e.env e'.env × (e.env.me_mapsize ≤ e'.env.me_mapsize) × HasRoom e' headroom
  Ended e (failed x, e') = SameData e.env e'.env
  Ended e (panicked, e') = ⊥

  -- what holds at the head of the loop
  pub record Inv (e : Environment) : Type 0 where
    pub ready : IsReady e
    pub since : initial ≤ e.env.me_mapsize
    pub fits : occupied e ≤ initial
    pub asked : (h : ℕ) → headroom ≡ some h → required ≡ h
    pub space : initial + required + (settings_of e).max_resize_step + e.env.me_psize ≤ 2 ^ 64

  -- What `needs_resize` answers: with `false` there is room.
  abbrev Answer : Environment → Outcome Bool → Type 0
  Answer e (done true) = Unit
  Answer e (done false) = HasRoom e headroom
  Answer e (failed x) = ⊥
  Answer e panicked = ⊥

  -- the part of the loop's body behind the resize
  abbrev after_resize : ℕ → Outcome ℕ × Environment → Option (Outcome (Unit {0}) × Environment)
  after_resize fuel p = elim p.0 [
    | panicked ↦ some (panicked, p.1)
    | failed x ↦ some (failed x, p.1)
    | done new ↦ elim (leb (u64 (required + initial)) new) [
      | true ↦ some (done tt, p.1)
      | false ↦ resize_loop os free_space over fuel p.1 headroom required initial
    ]
  ]

  -- the growth still to come, counted in smallest steps
  abbrev Fuelled : ℕ → Environment → Type 0
  Fuelled fuel e = required + initial - e.env.me_mapsize < fuel * (settings_of e).min_resize_step
