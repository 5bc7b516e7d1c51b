-- ===== src/Node/Shift.antt =====
-- The loop of `mdb_node_del` over the pointers of a page.
use sam_lmdb_rs.Base.{
  ℕ, zero, suc, ◌+◌, ◌≤◌, ◌<◌, ◌≡◌, ◌⊎◌, false, arith, refl, ltb, ◌==◌, if◌then◌else◌, Bool-cases,
  inl, inr,
}
use sam_lmdb_rs.Base.Arrays.{store}
use sam_lmdb_rs.Node.{del_loop, u16}

-- the old index of the node with index `k`
abbrev pub skip : ℕ → ℕ → ℕ
skip indx k = if ltb k indx then k else k + 1

-- the pointer of a node after the deletion
abbrev pub moved : (ptr sz : ℕ) → ℕ → ℕ
moved ptr sz v = if ltb v ptr then u16 (v + sz) else v

module _ (indx ptr sz total : ℕ) (g : ℕ → ℕ) where
  del_loop_lem :
      (n i j : ℕ) (f : ℕ → ℕ)
      → i + n ≡ total
      → ((i ≤ indx) × (j ≡ i)) ⊎ ((indx < i) × (j + 1 ≡ i))
      → ((k : ℕ) → i ≤ k → f k ≡ g k)
      → ((k : ℕ) → k < j → f k ≡ moved ptr sz (g (skip indx k)))
      → (k : ℕ) → k + 1 < total
      → indx < total
      → del_loop indx ptr sz n i j f k ≡ moved ptr sz (g (skip indx k))
  unfolding del_loop
  del_loop_lem zero i j f h c rest done k p q = done k (ground arith)
  del_loop_lem (suc n) i j f h c rest done k p q = elim (Bool-cases (i == indx)) [
    | inl e ↦
        rw (del_loop, e)
          (del_loop_lem n (i + 1) j f (omega arith) (inr (ground arith))
            (λ m a. rest m (omega arith)) done k p q)
    | inr e ↦
        rw (del_loop, e)
          (del_loop_lem n (i + 1) (j + 1) next (omega arith) (later e) (λ m a. kept m a)
            (λ m a. written m a (gap e)) k p q)
  ]
    where
      next : ℕ → ℕ
      next = store f j (moved ptr sz (f i))

      later :
          (i == indx) ≡ false
          → ((i + 1 ≤ indx) × (j + 1 ≡ i + 1)) ⊎ ((indx < i + 1) × (j + 1 + 1 ≡ i + 1))
      later e = elim c [
        | inl (a, b) ↦ inl (ground arith, omega arith)
        | inr (a, b) ↦ inr (omega arith, omega arith)
      ]

      gap : (i == indx) ≡ false → skip indx j ≡ i
      gap e = ground arith

      kept : (m : ℕ) → i + 1 ≤ m → next m ≡ g m
      kept m a = ground (arith, rest m)

      written : (m : ℕ) → m < j + 1 → skip indx j ≡ i → next m ≡ moved ptr sz (g (skip indx m))
      written m a e = elim (Bool-cases (m == j)) [
        | inl t ↦
            let same : m ≡ j = ground arith in
            let there : f i ≡ g i = rest i (omega arith) in rw (t, same, e, there) refl
        | inr t ↦ rw t (done m (ground arith))
      ]

  -- The loop leaves out the pointer at `indx` and moves the nodes below the removed one.
  pub del_loop-skip :
      (k : ℕ)
      → k + 1 < total
      → indx < total
      → del_loop indx ptr sz total 0 0 g k ≡ moved ptr sz (g (skip indx k))
  del_loop-skip k p q =
      del_loop_lem total 0 0 g (omega arith) (inl (omega arith, refl)) (λ m a. refl)
        (λ m a. absurd (omega arith)) k p q
