-- ===== src/Idl/Sort/Scan.antt =====
-- The two scans of the partition step.
use sam_lmdb_rs.Base.{
  true, false, ℕ, zero, suc, ◌+◌, ◌≤◌, ◌<◌, ◌≡◌, inl, inr, arith, refl, Bool-cases, Returns, leb,
  ltb, ◌==◌,
}
use sam_lmdb_rs.Idl.Sort.{scan_up, scan_down}

-- where the scan upwards ends, when it is stopped at `b` at the latest
pub record Up (f : ℕ → ℕ) (a i b r : ℕ) : Type 0 where
  pub above : i < r
  pub bounded : r ≤ b
  pub passed : (x : ℕ) → i < x → x < r → a < f x
  pub stopped : f r ≤ a

pub scan_up-Up :
    (top a : ℕ) (f : ℕ → ℕ) (fuel i b : ℕ)
    → i < b
    → b ≤ top
    → f b ≤ a
    → b < i + fuel + 1
    → Returns (scan_up top a f fuel i) (Up f a i b)
unfolding scan_up
scan_up-Up top a f zero i b lt le stop enough = absurd (omega arith)
scan_up-Up top a f (suc fuel) i b lt le stop enough =
    let t : leb (i + 1) top ≡ true = ground arith in
    elim (Bool-cases (ltb a (f (i + 1)))) [
      | inl g ↦
          let more : i + 1 < b = ground (arith, stop) in
          let (r, run, u) = scan_up-Up top a f fuel (i + 1) b more le stop (omega arith) in
          rw (scan_up, t, g)
            (
              r,
              run,
              record {
                above = omega (arith, u.above);
                bounded = u.bounded;
                passed = λ x p q. ground (arith, g, u.passed x);
                stopped = u.stopped;
              },
            )
      | inr g ↦
          rw (scan_up, t, g)
            (
              i + 1,
              refl,
              record {
                above = omega arith;
                bounded = omega arith;
                passed = λ x p q. absurd (omega arith);
                stopped = ground arith;
              },
            )
    ]

-- where the scan downwards ends
pub record Down (f : ℕ → ℕ) (a j b r : ℕ) : Type 0 where
  pub under : r < j
  pub bounded : b ≤ r
  pub passed : (x : ℕ) → r < x → x < j → f x < a
  pub stopped : a ≤ f r

pub scan_down-Down :
    (a : ℕ) (f : ℕ → ℕ) (j b : ℕ)
    → 1 ≤ b
    → b < j
    → a ≤ f b
    → Returns (scan_down a f j) (Down f a j b)
unfolding scan_down
scan_down-Down a f zero b one lt stop = absurd (omega arith)
scan_down-Down a f (suc j) b one lt stop =
    let t : (j == 0) ≡ false = ground arith in
    elim (Bool-cases (ltb (f j) a)) [
      | inl g ↦
          let more : b < j = ground (arith, stop) in
          let (r, run, u) = scan_down-Down a f j b one more stop in
          rw (scan_down, t, g)
            (
              r,
              run,
              record {
                under = omega (arith, u.under);
                bounded = u.bounded;
                passed = λ x p q. ground (arith, g, u.passed x);
                stopped = u.stopped;
              },
            )
      | inr g ↦
          rw (scan_down, t, g)
            (
              j,
              refl,
              record {
                under = omega arith;
                bounded = omega arith;
                passed = λ x p q. absurd (omega arith);
                stopped = ground arith;
              },
            )
    ]
