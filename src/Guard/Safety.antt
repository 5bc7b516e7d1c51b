-- ===== src/Guard/Safety.antt =====
-- No transaction uses the map while it is replaced.
use sam_lmdb_rs.Base.{ℕ, ◌^◌, ◌≤◌, ◌<◌, ◌≡◌, some, true, false, arith, ◌∙◌}
use sam_lmdb_rs.Guard.Tally.{tally, tally-le, tally-zero}
use sam_lmdb_rs.Guard.{writing, Pc, System, Reach, uses_map}
use sam_lmdb_rs.Guard.Invariant.{Reach-Inv, counted, blocks}

module _ {n : ℕ} {s : System} (few : n < 2 ^ 32) (r : Reach n s) where
  -- While a party is inside mdb_env_set_mapsize, no party has a transaction.
  pub remap_excludes_transactions : (i j : ℕ) → s.pc i ≡ Pc.remap → uses_map (s.pc j) ≡ false
  remap_excludes_transactions i j h =
      let inv = Reach-Inv few r in ground (arith, inv.excluded i j, inv.owner i, inv.owner j)

  -- `tx_count` is the number of parties that are counted, and never wraps round.
  pub tx_count_exact : (s.env.tx_count ≡ tally counted n s.pc) × (s.env.tx_count ≤ n)
  tx_count_exact =
      let inv = Reach-Inv few r in
      (inv.transactions, omega (arith, inv.transactions, tally-le counted n s.pc))

  -- At most one party has a blocker, and it holds the resize lock.
  pub single_blocker :
      (i j : ℕ)
      → blocks (s.pc i) ≡ true
      → blocks (s.pc j) ≡ true
      → (i ≡ j) × (s.env.db_resize_lock ≡ some i)
  single_blocker i j p q = let inv = Reach-Inv few r in ground (arith, inv.owner i, inv.owner j)

  -- A write transaction that takes its guard meets no blocker: it goes live at the first try.
  pub writer_not_blocked : (i : ℕ) → s.pc i ≡ Pc.check writing → s.env.tx_blocker_count ≡ 0
  writer_not_blocked i h =
      let inv = Reach-Inv few r in
      inv.blockers ∙ tally-zero blocks n s.pc (λ j. ground (arith, inv.owner i, inv.owner j))
