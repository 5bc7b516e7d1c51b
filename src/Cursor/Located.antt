-- ===== src/Cursor/Located.antt =====
-- What `mdb_cursor_set` is meant to find, and what the answers for the nodes of a leaf page say of
-- its entries.
use sam_lmdb_rs.Base.{
  ℕ, zero, suc, ◌≤◌, ◌<◌, ◌≡◌, ◌⊎◌, Option, some, true, List, [], ◌∷◌, ◌++◌, length, drop, take,
  arith, sym, subst, Ordering,
}
use sam_lmdb_rs.Base.Int.{ℤ}
use sam_lmdb_rs.Cursor.{Leaf, leaf, Page, Cursor, count, numkeys, notfound}
use sam_lmdb_rs.Cursor.Tree.{chunks_of, chunks, concat, IsTree}
use sam_lmdb_rs.Cursor.Search.{Database}
use sam_lmdb_rs.Cursor.Move.{Outcome, without, deliver}
use sam_lmdb_rs.Cursor.Walk.{At}
use sam_lmdb_rs.Cursor.Set.{SetOp, is_range, keep_key, answer}
use sam_lmdb_rs.Cursor.Sorted.{Below, Beyond}

module _ (get : ℕ → ℤ ⊎ Page) (db : Database) (cmp : List ℕ → List ℕ → Ordering) (key : List ℕ)
    (op : SetOp) where
  -- The result for the entries `all`: the cursor is at the entry with the key, or for MDB_SET_RANGE
  -- at the first entry that is not less; or MDB_NOTFOUND, and there is no such entry.
  pub data Located (all : List Leaf) (o : Option Outcome) : Type 0 where
    there :
        (d : Cursor) (before : List Leaf) (e : Leaf) (after : List Leaf)
        → o ≡ deliver get d (keep_key op key e)
        → all ≡ before ++ e ∷ after
        → Below (cmp key) before
        → (cmp key e.key ≡ Ordering.eq) ⊎ ((is_range op ≡ true) × (cmp key e.key ≡ Ordering.lt))
        → At get d before e after
        → Located all o
    absent :
        (d : Cursor) (lows highs : List Leaf)
        → o ≡ some (without notfound d)
        → all ≡ lows ++ highs
        → Below (cmp key) lows
        → Beyond (cmp key) highs
        → (is_range op ≡ true → highs ≡ [])
        → Located all o

  take-Below :
      (es : List Leaf) (k : ℕ)
      → ((i : ℕ) → i < k → i < length es → answer (cmp key) (leaf es) i ≡ Ordering.gt)
      → Below (cmp key) (concat (take k (chunks_of get 0 (leaf es))))
  unfolding concat chunks_of
  take-Below es zero h = tt
  take-Below [] (suc k) h = tt
  take-Below (e ∷ es) (suc k) h = (
    h 0 (omega arith) (omega arith),
    take-Below es k (λ i a b. h (suc i) (omega arith) (omega arith)),
  )

  drop-Beyond :
      (es : List Leaf) (k : ℕ)
      → ((i : ℕ) → k ≤ i → i < length es → answer (cmp key) (leaf es) i ≡ Ordering.lt)
      → Beyond (cmp key) (concat (drop k (chunks_of get 0 (leaf es))))
  unfolding concat chunks_of
  drop-Beyond [] zero h = tt
  drop-Beyond [] (suc k) h = tt
  drop-Beyond (e ∷ es) zero h = (
    h 0 (omega arith) (omega arith),
    drop-Beyond es 0 (λ i a b. h (suc i) (omega arith) (omega arith)),
  )
  drop-Beyond (e ∷ es) (suc k) h = drop-Beyond es k (λ i a b. h (suc i) (omega arith) (omega arith))

  -- the entries of a leaf page before and from an index
  pub page-Below :
      (p : Page) (k : ℕ)
      → IsTree get 0 p
      → ((i : ℕ) → 0 ≤ i → i < k → answer (cmp key) p.nodes i ≡ Ordering.gt)
      → Below (cmp key) (concat (take k (chunks get 0 p)))
  unfolding IsTree
  page-Below p k (es, e, many, few) h =
      subst (λ l. Below (cmp key) (concat (take k (chunks_of get 0 l)))) (sym e)
        (take-Below es k
          (λ i a b. subst (λ l. answer (cmp key) l i ≡ Ordering.gt) e (h i (omega arith) a)))

  pub page-Beyond :
      (p : Page) (k : ℕ)
      → IsTree get 0 p
      → ((i : ℕ) → k ≤ i → i < numkeys p → answer (cmp key) p.nodes i ≡ Ordering.lt)
      → Beyond (cmp key) (concat (drop k (chunks get 0 p)))
  unfolding IsTree
  page-Beyond p k (es, e, many, few) h =
      subst (λ l. Beyond (cmp key) (concat (drop k (chunks_of get 0 l)))) (sym e)
        (drop-Beyond es k (λ i a b.
          subst (λ l. answer (cmp key) l i ≡ Ordering.lt) e
            (h i a (subst (λ l. i < count l) (sym e) b))))
