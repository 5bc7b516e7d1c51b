-- ===== src/Idl/Search.antt =====
-- `mdb_midl_search` finds the place of an ID.
use sam_lmdb_rs.Base.{
  ℕ, zero, suc, ◌+◌, ◌-◌, ◌/◌, ◌^◌, Option, some, compare, Ordering, ◌≤◌, ◌<◌, ◌≡◌, arith, refl,
  subst, ◌⊎◌, ◌≢◌, Returns,
}
use sam_lmdb_rs.Idl.Valid.{IsValid, at, IsDescending, read-at}
use sam_lmdb_rs.Idl.{Idl, search_loop, u32, cmp_at, midl_search}

-- The index `r` splits `1 .. len` into those that compare greater and those that do not.
pub record Splits (c : ℕ → Ordering) (len r : ℕ) : Type 0 where
  pub positive : 1 ≤ r
  pub bounded : r ≤ len + 1
  pub before : (i : ℕ) → 1 ≤ i → i < r → c i ≡ Ordering.gt
  pub here : r ≤ len → c r ≢ Ordering.gt
  pub after : (i : ℕ) → r < i → i ≤ len → c i ≡ Ordering.lt

module _ (probe : ℕ → Option Ordering) (c : ℕ → Ordering) (len : ℕ) (small : len + 1 < 2 ^ 32)
    (reads : (i : ℕ) → 1 ≤ i → i ≤ len → probe i ≡ some (c i))
    (order : (i j : ℕ) → 1 ≤ i → i < j → j ≤ len → (c i ≡ Ordering.gt) ⊎ (c j ≡ Ordering.lt)) where
  -- what `val` says of `cursor`
  abbrev Tracks : ℕ → ℕ → Ordering → ℕ → Type 0
  Tracks base cursor Ordering.lt n = cursor ≡ base + n + 1
  Tracks base cursor Ordering.gt n = cursor ≡ base
  Tracks base cursor Ordering.eq n = (cursor ≡ 1) × (base ≡ 0)

  record Inv (base cursor : ℕ) (val : Ordering) (n : ℕ) : Type 0 where
    pub inside : base + n ≤ len
    pub tracks : Tracks base cursor val n
    pub before : (i : ℕ) → 1 ≤ i → i ≤ base → c i ≡ Ordering.gt
    pub after : (i : ℕ) → base + n < i → i ≤ len → c i ≡ Ordering.lt

  -- the probe in the middle of a non-empty range
  middle : (base m : ℕ) → base + suc m ≤ len → u32 (base + suc m / 2 + 1) ≡ base + suc m / 2 + 1
  middle base m h = omega arith

  -- a hit splits the list at the cursor
  hit-Splits : (r : ℕ) → 1 ≤ r → r ≤ len → c r ≡ Ordering.eq → Splits c len r
  hit-Splits r p q e = record {
    positive = p;
    bounded = omega arith;
    before = λ i a b. ground (arith, order i r a b q);
    here = λ _. ground arith;
    after = λ i a b. ground (arith, order r i p a b);
  }

  exit-Splits : {base cursor : ℕ} {val : Ordering} → Inv base cursor val 0 → Splits c len (base + 1)
  exit-Splits {base} inv = record {
    positive = omega arith;
    bounded = omega arith;
    before = λ i a b. inv.before i a (omega arith);
    here = λ b g. ground (arith, inv.after (base + 1));
    after = λ i a b. inv.after i (omega arith) b;
  }

  lower-Inv :
      {base cursor m : ℕ} {val : Ordering}
      → Inv base cursor val (suc m)
      → c (base + suc m / 2 + 1) ≡ Ordering.lt
      → Inv base (base + suc m / 2 + 1) Ordering.lt (suc m / 2)
  lower-Inv {base} {m} inv e = record {
    inside = omega arith;
    tracks = refl;
    before = inv.before;
    after = λ i a b. let x = base + suc m / 2 + 1 in ground (arith, order x i);
  }

  upper-Inv :
      {base cursor m : ℕ} {val : Ordering}
      → Inv base cursor val (suc m)
      → c (base + suc m / 2 + 1) ≡ Ordering.gt
      → Inv (base + suc m / 2 + 1) (base + suc m / 2 + 1) Ordering.gt (suc m - (suc m / 2 + 1))
  upper-Inv {base} {m} inv e = record {
    inside = omega arith;
    tracks = refl;
    before = λ i a b. let x = base + suc m / 2 + 1 in ground (arith, order i x);
    after = λ i a b. inv.after i (omega arith) b;
  }

  search_loop_lem :
      (fuel base cursor : ℕ) (val : Ordering) (n : ℕ)
      → n < fuel
      → Inv base cursor val n
      → (r : ℕ) × (search_loop probe fuel base cursor val n ≡ some r) × Splits c len r
  unfolding search_loop
  search_loop_lem zero base cursor val n h inv = absurd (omega arith)
  search_loop_lem (suc fuel) base cursor Ordering.lt zero h inv =
      (cursor, refl, subst (Splits c len) (omega arith) (exit-Splits inv))
  search_loop_lem (suc fuel) base cursor Ordering.eq zero h inv =
      (cursor, refl, subst (Splits c len) (omega arith) (exit-Splits inv))
  search_loop_lem (suc fuel) base cursor Ordering.gt zero h inv =
      (u32 (cursor + 1), refl, subst (Splits c len) (omega arith) (exit-Splits inv))
  search_loop_lem (suc fuel) base cursor val (suc m) h inv =
      step (c x) refl
        (λ e. search_loop_lem fuel base x Ordering.lt pivot (omega arith) (lower-Inv inv e))
        (λ e.
          search_loop_lem fuel x x Ordering.gt (suc m - (pivot + 1)) (omega arith)
            (upper-Inv inv e))
    where
      pivot : ℕ
      pivot = suc m / 2

      x : ℕ
      x = base + pivot + 1

      at : u32 x ≡ x
      at = middle base m inv.inside

      read_at : probe x ≡ some (c x)
      read_at = reads x (omega arith) (omega arith)

      Found : Option ℕ → Type 0
      Found o = (r : ℕ) × (o ≡ some r) × Splits c len r

      step :
          (o : Ordering)
          → c x ≡ o
          → (c x ≡ Ordering.lt → Found (search_loop probe fuel base x Ordering.lt pivot))
          → (c x ≡ Ordering.gt
              → Found (search_loop probe fuel x x Ordering.gt (suc m - (pivot + 1))))
          → Found (search_loop probe (suc fuel) base cursor val (suc m))
      step Ordering.lt e low up =
          let (r, run, s) = low e in (r, ground (arith, at, read_at, e, run), s)
      step Ordering.eq e low up =
          (x, ground (arith, at, read_at, e), hit-Splits x (omega arith) (omega arith) e)
      step Ordering.gt e low up =
          let (r, run, s) = up e in (r, ground (arith, at, read_at, e, run), s)

  -- With fuel for more than `len` rounds the search returns, and its result splits the list.
  pub search_loop-Splits :
      (fuel : ℕ)
      → len < fuel
      → (r : ℕ) × (search_loop probe fuel 0 1 Ordering.eq len ≡ some r) × Splits c len r
  search_loop-Splits fuel h = search_loop_lem fuel 0 1 Ordering.eq len h (record {
    inside = omega arith;
    tracks = (refl, refl);
    before = λ i a b. absurd (omega arith);
    after = λ i a b. absurd (omega arith);
  })

module _ (l : Idl) (id : ℕ) (valid : IsValid l) (small : l.count + 1 < 2 ^ 32)
    (sorted : IsDescending l) where
  abbrev order_at : ℕ → Ordering
  order_at i = compare (at l i) id

  cmp_at-order_at : (i : ℕ) → 1 ≤ i → i ≤ l.count → cmp_at l id i ≡ some (order_at i)
  cmp_at-order_at i p q = rw (read-at l i (omega (arith, valid.sized, valid.fits)), cmp_at) refl

  found : Returns (midl_search l id) (Splits order_at l.count)
  unfolding midl_search
  found =
      let e : u32 l.count ≡ l.count = omega arith in
      rw e (
        search_loop-Splits (cmp_at l id) order_at l.count small cmp_at-order_at
          (λ i j p q r. ground (arith, sorted i j p q r)) (suc l.count) (omega arith))

  -- `mdb_midl_search` on a sorted list ends without a read outside the block, and returns the index
  -- of the first ID that is not greater than the one searched for, `ids[0] + 1` if there is none.
  pub midl_search-Returns : Returns (midl_search l id) (λ r.
      (1 ≤ r)
      × (r ≤ l.count + 1)
      × ((i : ℕ) → 1 ≤ i → i < r → id < at l i)
      × ((i : ℕ) → r ≤ i → i ≤ l.count → at l i ≤ id))
  midl_search-Returns =
      let (r, run, s) = found in
      (
        r,
        run,
        (
          s.positive,
          s.bounded,
          λ i p q. ground (arith, s.before i p q),
          λ i p q. ground (arith, s.here, s.after i),
        ),
      )
