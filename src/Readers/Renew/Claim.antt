-- ===== src/Readers/Renew/Claim.antt =====
-- The slot that a reader gets with the mutex.
use sam_lmdb_rs.Base.{
  true, false, ℕ, zero, suc, ◌+◌, ◌*◌, ◌≤◌, ◌<◌, ◌≡◌, ◌≢◌, inl, inr, some, arith, refl, Bool-cases,
  Returns, ◌==◌, dec_lt,
}
use sam_lmdb_rs.Base.Int.{pos}
use sam_lmdb_rs.Base.Arrays.{store}
use sam_lmdb_rs.Readers.{Reader}
use sam_lmdb_rs.Readers.Renew.{ReaderEnv, Answers, Renewed, free_scan, publish_loop, publish}

-- the first free slot, or the first that has never been used
pub record Free (r : ℕ → Reader) (i n x : ℕ) : Type 0 where
  pub above : i ≤ x
  pub bounded : x ≤ n
  pub free : x < n → (r x).mr_pid ≡ 0
  pub used : (k : ℕ) → i ≤ k → k < x → (r k).mr_pid ≢ 0

pub free_scan-Free : (r : ℕ → Reader) (k i : ℕ) → Free r i (i + k) (free_scan r k i)
unfolding free_scan
free_scan-Free r zero i = record {
  above = omega arith;
  bounded = omega arith;
  free = λ lt. absurd (omega arith);
  used = λ x p q. absurd (omega arith);
}
free_scan-Free r (suc k) i = elim (Bool-cases ((r i).mr_pid == 0)) [
  | inl hit ↦ rw hit (record {
    above = omega arith;
    bounded = omega arith;
    free = λ lt. ground arith;
    used = λ x p q. absurd (omega arith);
  })
  | inr miss ↦
      let f = free_scan-Free r k (i + 1) in
      rw miss (record {
        above = omega (arith, f.above);
        bounded = omega (arith, f.bounded);
        free = λ lt. f.free (omega arith);
        used = λ x p q. elim (dec_lt i x) [
          | yes lt ↦ f.used x (omega arith) q
          | no ge ↦ let e : x ≡ i = omega arith in rw e (ground arith)
        ];
      })
]

-- two reads in a row of `mti_txnid` have given it
abbrev pub Current : (mti_txnid : ℕ → ℕ) → ℕ → Type 0
Current mti_txnid v = (n : ℕ) × (v ≡ mti_txnid (2 * n)) × (v ≡ mti_txnid (2 * n + 1))

-- in some round that the fuel is enough for, no writer commits between the two reads
abbrev pub Settles : (mti_txnid : ℕ → ℕ) → (fuel : ℕ) → Type 0
Settles mti_txnid fuel = (n : ℕ) × (n < fuel) × (mti_txnid (2 * n) ≡ mti_txnid (2 * n + 1))

publish_loop-Current :
    (mti_txnid : ℕ → ℕ) (fuel m n : ℕ)
    → m ≤ n
    → n < m + fuel
    → mti_txnid (2 * n) ≡ mti_txnid (2 * n + 1)
    → Returns (publish_loop mti_txnid fuel m) (Current mti_txnid)
unfolding publish_loop
publish_loop-Current mti_txnid zero m n le lt same = absurd (omega arith)
publish_loop-Current mti_txnid (suc fuel) m n le lt same =
    elim (Bool-cases (mti_txnid (2 * m) == mti_txnid (2 * m + 1))) [
      | inl t ↦ rw t (_, refl, (m, refl, ground arith))
      | inr t ↦ elim (dec_lt m n) [
        | yes less ↦
            rw t (publish_loop-Current mti_txnid fuel (m + 1) n (omega arith) (omega arith) same)
        | no ge ↦ let e : m ≡ n = omega arith in absurd (differ e t)
      ]
    ]
  where
    differ : m ≡ n → (mti_txnid (2 * m) == mti_txnid (2 * m + 1)) ≡ false → ⊥
    differ e t = let s : mti_txnid (2 * m) ≡ mti_txnid (2 * m + 1) = rw e same in ground arith

-- the tables agree but at one slot
abbrev pub Others : ℕ → (r rs : ℕ → Reader) → Type 0
Others i r rs = (k : ℕ) → k ≢ i → rs k ≡ r k

-- The slot is published.
pub record Published (ans : Answers) (env : ReaderEnv) (i : ℕ) (c : Renewed) : Type 0 where
  pub code : c.rc ≡ pos 0
  pub txnid : ℕ
  pub got : c.reader ≡ some (i, txnid)
  pub current : Current ans.mti_txnid txnid
  pub here :
      c.env.me_txns.mti_readers i
      ≡ record { mr_pid = (env.me_txns.mti_readers i).mr_pid; mr_txnid = txnid }
  pub others : Others i env.me_txns.mti_readers c.env.me_txns.mti_readers
  pub count : c.env.me_txns.mti_numreaders ≡ env.me_txns.mti_numreaders

pub store-Others : (i : ℕ) (r : ℕ → Reader) (v : Reader) → Others i r (store r i v)
store-Others i r v k other = let t : (k == i) ≡ false = ground arith in rw t refl

pub publish-Published :
    (ans : Answers) (fuel : ℕ) (env : ReaderEnv) (i : ℕ)
    → Settles ans.mti_txnid fuel
    → Returns (publish ans fuel env i) (Published ans env i)
unfolding publish
publish-Published ans fuel env i (n, lt, same) =
    let (v, run, current) =
      publish_loop-Current ans.mti_txnid fuel 0 n (omega arith) (omega arith) same in
    let t : (i == i) ≡ true = ground arith in
    rw run (
      _,
      refl,
      record {
        code = refl;
        txnid = v;
        got = refl;
        current = current;
        here = rw t refl;
        others =
            store-Others i env.me_txns.mti_readers
              (record (env.me_txns.mti_readers i) { mr_txnid = v });
        count = refl;
      },
    )
