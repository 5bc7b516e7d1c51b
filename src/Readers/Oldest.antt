-- ===== src/Readers/Oldest.antt =====
-- `mdb_find_oldest` finds the least transaction that is still read.
use sam_lmdb_rs.Base.{
  ℕ, zero, suc, ◌+◌, ◌-◌, ◌%◌, ◌^◌, ◌≤◌, ◌<◌, ◌≡◌, ◌≢◌, ◌⊎◌, some, ◌&&◌, not, if◌then◌else◌, ltb,
  ◌==◌, Bool-cases, true, inl, inr, arith, refl,
}
use sam_lmdb_rs.Readers.{Reader, Txninfo, oldest_loop, find_oldest}

-- `m` is the least of `start` and the transactions of the used slots below `n`
pub record IsOldest (r : ℕ → Reader) (n start m : ℕ) : Type 0 where
  pub bounded : m ≤ start
  pub least : (i : ℕ) → i < n → (r i).mr_pid ≢ 0 → m ≤ (r i).mr_txnid
  pub reached : (m ≡ start) ⊎ ((i : ℕ) × (i < n) × ((r i).mr_pid ≢ 0) × (m ≡ (r i).mr_txnid))

-- one slot more
IsOldest-suc :
    (r : ℕ → Reader) (n start m : ℕ)
    → IsOldest r n
        (if not ((r n).mr_pid == 0) && ltb (r n).mr_txnid start then (r n).mr_txnid else start)
        m
    → IsOldest r (suc n) start m
IsOldest-suc r n start m o = record {
  bounded = ground (arith, o.bounded);
  least = λ i a b.
      let cases : (i < n) ⊎ (i ≡ n) = ground arith in
      elim cases [ inl h ↦ o.least i h b | inr e ↦ rw e (last (λ z. b (rw e z))) ];
  reached = elim o.reached [
    | inl e ↦ start_or_last e
    | inr (i, a, b, e) ↦ inr (i, omega arith, b, e)
  ];
}
  where
    last : (r n).mr_pid ≢ 0 → m ≤ (r n).mr_txnid
    last b = ground (arith, o.bounded)

    start_or_last :
        m ≡ (if not ((r n).mr_pid == 0) && ltb (r n).mr_txnid start then (r n).mr_txnid else start)
        → (m ≡ start) ⊎ ((i : ℕ) × (i < suc n) × ((r i).mr_pid ≢ 0) × (m ≡ (r i).mr_txnid))
    start_or_last e = elim (Bool-cases (not ((r n).mr_pid == 0) && ltb (r n).mr_txnid start)) [
      | inl t ↦ inr (n, omega arith, (λ z. ground arith), ground arith)
      | inr t ↦ inl (ground arith)
    ]

oldest_loop-IsOldest : (r : ℕ → Reader) (n start : ℕ) → IsOldest r n start (oldest_loop r n start)
unfolding oldest_loop
oldest_loop-IsOldest r zero start = record {
  bounded = omega arith;
  least = λ i a b. absurd (omega arith);
  reached = inl refl;
}
oldest_loop-IsOldest r (suc n) start = IsOldest-suc r n start _ (oldest_loop-IsOldest r n _)

-- For a transaction with an ID above 0 and a table with less than 2 ^ 31 slots, `mdb_find_oldest`
-- returns the least of the ID before it and the IDs in the used slots of the reader table.
pub find_oldest-IsOldest :
    (t : Txninfo) (mt_txnid : ℕ)
    → 0 < mt_txnid
    → mt_txnid < 2 ^ 64
    → t.mti_numreaders < 2 ^ 31
    → IsOldest t.mti_readers t.mti_numreaders (mt_txnid - 1) (find_oldest (some t) mt_txnid)
unfolding find_oldest
find_oldest-IsOldest t mt_txnid p q few =
    let e : (mt_txnid + 2 ^ 64 - 1) % 2 ^ 64 ≡ mt_txnid - 1 = omega arith in
    let inside : ltb t.mti_numreaders (2 ^ 31) ≡ true = ground arith in
    rw (e, inside) (oldest_loop-IsOldest t.mti_readers t.mti_numreaders (mt_txnid - 1))
