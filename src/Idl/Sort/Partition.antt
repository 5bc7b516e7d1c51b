-- ===== src/Idl/Sort/Partition.antt =====
-- The partition step of `mdb_midl_sort`.
use sam_lmdb_rs.Base.{
  true, ◌>>=◌, ℕ, zero, suc, ◌+◌, ◌-◌, ◌/◌, ◌^◌, ◌≤◌, ◌<◌, ◌≡◌, ◌⊎◌, inl, inr, arith, refl, subst,
  Bool-cases, Returns, ltb, dec_lt,
}
use sam_lmdb_rs.Base.Arrays.{store}
use sam_lmdb_rs.Idl.Sort.{swap, swap_if_less, partition_loop, median, partition, Split}
use sam_lmdb_rs.Idl.Sort.Shuffle.{
  Shuffled, same, swapped, Shuffled-trans, one_swap, swap_if_less-Shuffled,
}
use sam_lmdb_rs.Idl.Sort.Scan.{Up, Down, scan_up-Up, scan_down-Down}

-- The state at the head of the loop: what lies up to `i` is not less than `a`, and what lies from `j`
-- on is not greater.
record Inv (l ir a : ℕ) (f : ℕ → ℕ) (i j : ℕ) : Type 0 where
  starts : l + 1 ≤ i
  meets : i ≤ j
  ends : j ≤ ir
  room : (i < j) ⊎ ((l + 1 < i) × (j < ir))
  left : (x : ℕ) → l ≤ x → x ≤ i → a ≤ f x
  right : (y : ℕ) → j ≤ y → y ≤ ir → f y ≤ a
  pivot : f (l + 1) ≡ a

-- what the loop gives
pub record Parts (l ir a : ℕ) (f : ℕ → ℕ) (s : Split) : Type 0 where
  pub shuffled : Shuffled l ir f s.ids
  pub crossed : s.j < s.i
  pub low : l + 1 ≤ s.j
  pub high : s.i ≤ ir
  pub left : (x : ℕ) → l ≤ x → x < s.i → a ≤ s.ids x
  pub right : (y : ℕ) → s.j < y → y ≤ ir → s.ids y ≤ a
  pub pivot : s.ids (l + 1) ≡ a

-- the elements that stop the scans
up_end :
    {l ir a : ℕ} {f : ℕ → ℕ} {i j : ℕ} → Inv l ir a f i j → (b : ℕ) × (i < b) × (b ≤ ir) × (f b ≤ a)
up_end {j = j} v = elim v.room [
  | inl lt ↦ (j, lt, v.ends, v.right j (omega arith) v.ends)
  | inr (_, lt) ↦
      (j + 1, omega (arith, v.meets), omega arith, v.right (j + 1) (omega arith) (omega arith))
]

down_end :
    {l ir a : ℕ} {f : ℕ → ℕ} {i j : ℕ}
    → Inv l ir a f i j
    → (b : ℕ) × (l + 1 ≤ b) × (b < j) × (a ≤ f b)
down_end {i = i} v = elim v.room [
  | inl lt ↦ (i, v.starts, lt, v.left i (omega (arith, v.starts)) (omega arith))
  | inr (lt, _) ↦
      (i - 1, omega arith, omega (arith, v.meets), v.left (i - 1) (omega arith) (omega arith))
]

module _ (l ir a : ℕ) (f : ℕ → ℕ) (i j i' j' : ℕ) (v : Inv l ir a f i j) (b b' : ℕ)
    (u : Up f a i b i') (d : Down f a j b' j') where
  before_lem : (x : ℕ) → l ≤ x → x < i' → a ≤ f x
  before_lem x p q = elim (dec_lt i x) [
    | yes lt ↦ omega (arith, u.passed x lt q)
    | no ge ↦ v.left x p (omega arith)
  ]

  behind_lem : (y : ℕ) → j' < y → y ≤ ir → f y ≤ a
  behind_lem y p q = elim (dec_lt y j) [
    | yes lt ↦ omega (arith, d.passed y p lt)
    | no ge ↦ v.right y (omega arith) q
  ]

  crossed-Parts :
      l + 1 ≤ b' → b ≤ ir → j' < i' → Parts l ir a f (record { ids = f; i = i'; j = j' })
  crossed-Parts low high lt = record {
    shuffled = same;
    crossed = lt;
    low = omega (arith, d.bounded);
    high = omega (arith, u.bounded);
    left = before_lem;
    right = behind_lem;
    pivot = v.pivot;
  }

  swapped-Inv : l + 1 ≤ b' → i' ≤ j' → Inv l ir a (swap f i' j') i' j'
  swapped-Inv low le = record {
    starts = omega (arith, v.starts, u.above);
    meets = le;
    ends = omega (arith, v.ends, d.under);
    room = inr (omega (arith, v.starts, u.above), omega (arith, v.ends, d.under));
    left = λ x p q. ground (arith, before_lem x p, d.stopped, u.stopped, v.starts, u.above);
    right = λ y p q. ground (arith, behind_lem y, u.stopped, d.stopped);
    pivot = ground (arith, v.pivot, v.starts, u.above);
  }

Parts-after :
    {l ir a : ℕ} {f g : ℕ → ℕ} {s : Split} → Shuffled l ir f g → Parts l ir a g s → Parts l ir a f s
Parts-after h p = record {
  shuffled = Shuffled-trans h p.shuffled;
  crossed = p.crossed;
  low = p.low;
  high = p.high;
  left = p.left;
  right = p.right;
  pivot = p.pivot;
}

partition_loop-Parts :
    (top l ir a fuel : ℕ) (f : ℕ → ℕ) (i j : ℕ)
    → 1 ≤ l
    → ir ≤ top
    → Inv l ir a f i j
    → j < i + fuel
    → Returns (partition_loop top a fuel f i j) (Parts l ir a f)
unfolding partition_loop
partition_loop-Parts top l ir a zero f i j one inside v enough = absurd (omega (arith, v.meets))
partition_loop-Parts top l ir a (suc fuel) f i j one inside v enough =
    let (b, over, top_b, stop_b) = up_end v in
    let (b', low, under, stop_b') = down_end v in
    let (i', run_i, u) = scan_up-Up top a f (suc top) i b over (omega arith) stop_b (omega arith) in
    let (j', run_j, d) = scan_down-Down a f j b' (omega arith) under stop_b' in
    elim (Bool-cases (ltb j' i')) [
      | inl t ↦
          rw (partition_loop, run_i, run_j, t)
            (_, refl, crossed-Parts l ir a f i j i' j' v b b' u d low top_b (ground arith))
      | inr t ↦
          let le : i' ≤ j' = ground arith in
          let h : Shuffled l ir f (swap f i' j') =
            one_swap f i' j' (omega (arith, v.starts, u.above)) (omega (arith, u.bounded))
              (omega (arith, d.bounded)) (omega (arith, d.under, v.ends)) in
          let (s, run, p) =
            partition_loop-Parts top l ir a fuel (swap f i' j') i' j' one inside
              (swapped-Inv l ir a f i j i' j' v b b' u d low le)
              (omega (arith, u.above, d.under)) in
          rw (partition_loop, run_i, run_j, t, run) (s, refl, Parts-after h p)
    ]

-- the three elements that the loop starts with are in order
record Median (l ir : ℕ) (f g : ℕ → ℕ) : Type 0 where
  shuffled : Shuffled l ir f g
  first : g (l + 1) ≤ g l
  last : g ir ≤ g (l + 1)

three_lem :
    (l ir : ℕ) (f : ℕ → ℕ)
    → l + 1 < ir
    → Median l ir f (swap_if_less (swap_if_less (swap_if_less f l ir) (l + 1) ir) l (l + 1))
three_lem l ir f lt =
    let f2 : ℕ → ℕ = swap_if_less f l ir in
    let f3 : ℕ → ℕ = swap_if_less f2 (l + 1) ir in
    record {
      shuffled =
          Shuffled-trans
            (swap_if_less-Shuffled f l ir (omega arith) (omega arith) (omega arith) (omega arith))
            (Shuffled-trans
              (swap_if_less-Shuffled f2 (l + 1) ir (omega arith) (omega arith) (omega arith)
                (omega arith))
              (swap_if_less-Shuffled f3 l (l + 1) (omega arith) (omega arith) (omega arith)
                (omega arith)));
      first = ground arith;
      last = ground arith;
    }

median-Median :
    (l ir : ℕ) (f : ℕ → ℕ) → l + 8 ≤ ir → l + ir < 2 ^ 31 → Returns (median l ir f) (Median l ir f)
unfolding median
median-Median l ir f wide small =
    let k = (l + ir) / 2 in
    let m = three_lem l ir (swap f k (l + 1)) (omega arith) in
    let t : ltb (l + ir) (2 ^ 31) ≡ true = ground arith in
    rw t (
      _,
      refl,
      record {
        shuffled =
            swapped k (l + 1) (omega arith) (omega arith) (omega arith) (omega arith) m.shuffled;
        first = m.first;
        last = m.last;
      },
    )

-- What a partition gives: elements that stand in different parts are in order.
pub record Divided (l ir : ℕ) (f : ℕ → ℕ) (s : Split) : Type 0 where
  pub shuffled : Shuffled l ir f s.ids
  pub crossed : s.j < s.i
  pub low : l + 1 ≤ s.j
  pub high : s.i ≤ ir
  pub ordered : (x y : ℕ) → l ≤ x → x < y → y ≤ ir → (y < s.j) ⊎ ((s.i ≤ x) ⊎ (s.ids y ≤ s.ids x))

-- the pivot goes between the parts
pivot-Divided :
    (l ir a : ℕ) (f : ℕ → ℕ) (s : Split)
    → Parts l ir a f s
    → Divided l ir f (record s { ids = store (store s.ids (l + 1) (s.ids s.j)) s.j a })
pivot-Divided l ir a f s p =
    let g : ℕ → ℕ = store (store s.ids (l + 1) (s.ids s.j)) s.j a in
    let e : swap s.ids (l + 1) s.j ≡ g = rw p.pivot refl in
    record {
      shuffled = Shuffled-trans p.shuffled (
          subst (Shuffled l ir s.ids) e (
            one_swap s.ids (l + 1) s.j (omega arith) (omega (arith, p.low, p.crossed, p.high))
              (omega (arith, p.low)) (omega (arith, p.crossed, p.high))));
      crossed = p.crossed;
      low = p.low;
      high = p.high;
      ordered = λ x y u v w. ground (arith, p.left x u, p.right y, p.left s.j, p.crossed, p.low);
    }

Median-Inv :
    (l ir : ℕ) (f g : ℕ → ℕ) → Median l ir f g → l + 8 ≤ ir → Inv l ir (g (l + 1)) g (l + 1) ir
Median-Inv l ir f g m wide = record {
  starts = omega arith;
  meets = omega arith;
  ends = omega arith;
  room = inl (omega arith);
  left = λ x a b. elim (dec_lt l x) [
    | yes lt ↦ let e : x ≡ l + 1 = omega arith in rw e (omega arith)
    | no ge ↦ let e : x ≡ l = omega arith in rw e m.first
  ];
  right = λ y a b. let e : y ≡ ir = omega arith in rw e m.last;
  pivot = refl;
}

pub partition-Divided :
    (top l ir : ℕ) (f : ℕ → ℕ)
    → 1 ≤ l
    → l + 8 ≤ ir
    → ir ≤ top
    → l + ir < 2 ^ 31
    → Returns (partition top l ir f) (Divided l ir f)
unfolding partition
partition-Divided top l ir f one wide inside small =
    let (g, run_g, m) = median-Median l ir f wide small in
    let (s, run, p) =
      partition_loop-Parts top l ir (g (l + 1)) (suc ir) g (l + 1) ir one inside
        (Median-Inv l ir f g m wide) (omega arith) in
    rw (partition, run_g, ◌>>=◌, run)
      (_, refl, pivot-Divided l ir (g (l + 1)) f s (Parts-after m.shuffled p))
