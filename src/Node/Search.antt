-- ===== src/Node/Search.antt =====
-- `mdb_node_search` on sorted keys.
use sam_lmdb_rs.Base.{
  ℕ, zero, suc, ◌+◌, ◌-◌, ◌/◌, ◌≤◌, ◌<◌, ◌≡◌, ◌↔◌, ◌⊎◌, Option, some, Bool, true, false, arith,
  refl, Ordering, Returns, if◌then◌else◌, Bool-cases, inl, inr, ltb,
}
use sam_lmdb_rs.Node.{search_loop, node_search, Found, finish_search}

module _ (c : ℕ → Ordering) (first nkeys : ℕ)
    (order : (i j : ℕ)
      → first ≤ i
      → i < j
      → j < nkeys
      → (c i ≡ Ordering.gt) ⊎ (c j ≡ Ordering.lt)) where
  -- what `rc` says of `i`
  abbrev Tracks : (low high i : ℕ) → Ordering → Type 0
  Tracks low high i Ordering.lt = high ≡ i
  Tracks low high i Ordering.gt = low ≡ i + 1
  Tracks low high i Ordering.eq = (i ≡ 0) × (low ≡ first) × (high ≡ nkeys)

  record Inv (low high i : ℕ) (rc : Ordering) : Type 0 where
    starts : first ≤ low
    nested : low ≤ high
    inside : high ≤ nkeys
    tracks : Tracks low high i rc
    before : (k : ℕ) → first ≤ k → k < low → c k ≡ Ordering.gt
    after : (k : ℕ) → high ≤ k → k < nkeys → c k ≡ Ordering.lt

  -- The index splits the keys, and the flag tells whether the key at the index is the one.
  pub record Splits (f : Found) : Type 0 where
    pub bounded : (first ≤ f.index) × (f.index ≤ nkeys)
    pub before : (k : ℕ) → first ≤ k → k < f.index → c k ≡ Ordering.gt
    pub after : (k : ℕ) → f.index < k → k < nkeys → c k ≡ Ordering.lt
    pub here : (f.exact ≡ true) ↔ ((f.index < nkeys) × (c f.index ≡ Ordering.eq))
    pub found : (f.present ≡ true) ↔ (f.index < nkeys)
    pub reached : f.index < nkeys → (c f.index ≡ Ordering.eq) ⊎ (c f.index ≡ Ordering.lt)

  hit_lem :
      (x : ℕ)
      → first ≤ x
      → x < nkeys
      → c x ≡ Ordering.eq
      → Splits (finish_search nkeys (x, Ordering.eq))
  hit_lem x p q e = record {
    bounded = (p, omega arith);
    before = λ k a b. ground (arith, order k x a b q);
    after = λ k a b. ground (arith, order x k p a b);
    here = ((λ _. (q, e)), (λ _. ground arith));
    found = ((λ _. q), (λ _. ground arith));
    reached = λ _. inl e;
  }

  -- a search that stops with `rc` other than 0 at the split `low`
  miss_lem :
      (f : Found) (low high : ℕ)
      → f.index ≡ low
      → f.exact ≡ false
      → f.present ≡ ltb low nkeys
      → low ≡ high
      → first ≤ low
      → high ≤ nkeys
      → ((k : ℕ) → first ≤ k → k < low → c k ≡ Ordering.gt)
      → ((k : ℕ) → high ≤ k → k < nkeys → c k ≡ Ordering.lt)
      → Splits f
  miss_lem f low high e q p h a b before after = record {
    bounded = (omega arith, omega arith);
    before = λ k u v. before k u (omega arith);
    after = λ k u v. after k (omega arith) v;
    here = ((λ t. ground arith), (λ t. ground (arith, after low)));
    found = ((λ t. ground arith), (λ t. ground arith));
    reached = λ t. inr (ground (arith, after low));
  }

  exit_lem :
      {low high i : ℕ} (rc : Ordering)
      → high ≤ low
      → first < nkeys
      → Inv low high i rc
      → Splits (finish_search nkeys (i, rc))
  exit_lem {low} {high} {i} Ordering.lt h some_keys inv =
      miss_lem (finish_search nkeys (i, Ordering.lt)) low high (omega arith) refl (ground arith)
        (omega arith) inv.starts inv.inside inv.before inv.after
  exit_lem {low} {high} {i} Ordering.gt h some_keys inv =
      miss_lem (finish_search nkeys (i, Ordering.gt)) low high (omega arith) refl (ground arith)
        (omega arith) inv.starts inv.inside inv.before inv.after
  exit_lem Ordering.eq h some_keys inv = absurd (omega arith)

  search_loop-Splits :
      (fuel low high i : ℕ) (rc : Ordering)
      → high - low < fuel
      → first < nkeys
      → Inv low high i rc
      → Returns (search_loop c fuel low high i rc) (λ r. Splits (finish_search nkeys r))
  unfolding search_loop
  search_loop-Splits zero low high i rc h some_keys inv = absurd (omega arith)
  search_loop-Splits (suc fuel) low high i rc h some_keys inv = elim (Bool-cases (ltb low high)) [
    | inr e ↦ rw (search_loop, e) ((i, rc), refl, exit_lem rc (ground arith) some_keys inv)
    | inl e ↦
        rw (search_loop, e)
          (step (c mid) refl (ground arith)
            (λ p. search_loop-Splits fuel (mid + 1) high mid Ordering.gt (ground arith) some_keys p)
            (λ p. search_loop-Splits fuel low mid mid Ordering.lt (ground arith) some_keys p))
  ]
    where
      mid : ℕ
      mid = (low + (high - 1)) / 2

      Good : Option (ℕ × Ordering) → Type 0
      Good o = Returns o (λ r. Splits (finish_search nkeys r))

      step :
          (o : Ordering)
          → c mid ≡ o
          → low < high
          → (Inv (mid + 1) high mid Ordering.gt
              → Good (search_loop c fuel (mid + 1) high mid Ordering.gt))
          → (Inv low mid mid Ordering.lt → Good (search_loop c fuel low mid mid Ordering.lt))
          → Good (elim o [
            | Ordering.eq ↦ some (mid, Ordering.eq)
            | Ordering.gt ↦ search_loop c fuel (mid + 1) high mid Ordering.gt
            | Ordering.lt ↦ search_loop c fuel low mid mid Ordering.lt
          ])
      step Ordering.eq e q up down =
          ((mid, Ordering.eq), refl, hit_lem mid (omega arith) (omega arith) e)
      step Ordering.gt e q up down = up (record {
        starts = omega arith;
        nested = omega arith;
        inside = inv.inside;
        tracks = refl;
        before = λ k a b. ground (arith, order k mid);
        after = inv.after;
      })
      step Ordering.lt e q up down = down (record {
        starts = inv.starts;
        nested = omega arith;
        inside = omega arith;
        tracks = refl;
        before = inv.before;
        after = λ k a b. ground (arith, order mid k);
      })

abbrev pub first_key : Bool → ℕ
first_key leaf = if leaf then 0 else 1

-- `mdb_node_search` on a leaf page with at least one key, or a branch page with at least two, whose
-- nodes are in order ends. The index splits the nodes into those less than the key and those not;
-- `*exactp` tells whether the node at the index has the key, and a node is returned unless the key
-- is greater than all.
pub node_search-Returns :
    (leaf : Bool) (nkeys : ℕ) (c : ℕ → Ordering)
    → first_key leaf < nkeys
    → (order : (i j : ℕ)
        → first_key leaf ≤ i
        → i < j
        → j < nkeys
        → (c i ≡ Ordering.gt) ⊎ (c j ≡ Ordering.lt))
    → Returns (node_search leaf nkeys c) (Splits c (first_key leaf) nkeys order)
unfolding node_search
node_search-Returns leaf nkeys c h order =
    let (r, run, s) =
      search_loop-Splits c (first_key leaf) nkeys order (suc nkeys) (first_key leaf) nkeys 0
        Ordering.eq (omega arith) h
        (record {
          starts = omega arith;
          nested = omega arith;
          inside = omega arith;
          tracks = (refl, refl, refl);
          before = λ k a b. absurd (omega arith);
          after = λ k a b. absurd (omega arith);
        }) in
    (finish_search nkeys r, rw (node_search, run) refl, s)
