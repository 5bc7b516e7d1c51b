-- ===== src/Cursor/Value.antt =====
-- `mdb_get`, for a database whose record is up to date.
use sam_lmdb_rs.Base.{
  ℕ, ◌<◌, ◌≡◌, ◌≢◌, ◌⊎◌, inl, inr, Option, none, some, Bool, true, false, not, List, [], ◌∷◌, ◌++◌,
  length, refl, ap, sym, subst, Ordering, if◌then◌else◌, ◌>>=◌,
}
use sam_lmdb_rs.Base.Int.{ℤ}
use sam_lmdb_rs.Cursor.{Leaf, Page, Cursor, notfound, bad_txn}
use sam_lmdb_rs.Cursor.Tree.{entries}
use sam_lmdb_rs.Cursor.Search.{Database}
use sam_lmdb_rs.Cursor.Get.{einval}
use sam_lmdb_rs.Cursor.Move.{Outcome, node_read, deliver}
use sam_lmdb_rs.Cursor.Start.{fresh, Rooted}
use sam_lmdb_rs.Cursor.Set.{SetOp, keep_key, cursor_set}
use sam_lmdb_rs.Cursor.Sorted.{IsSorted, Below, Beyond}
use sam_lmdb_rs.Cursor.Located.{Located, there, absent}
use sam_lmdb_rs.Cursor.Lookup.{cursor_set-Located}

-- the return code, or the data of a successful call
abbrev pub data_of : Outcome → ℤ ⊎ List ℕ
data_of o = elim o.item [ none ↦ inl o.rc | some r ↦ inr r.1 ]

module _ (get : ℕ → ℤ ⊎ Page) (db : Database) (cmp : List ℕ → List ℕ → Ordering)
    (key : List ℕ) where
  -- `usable` is `key && data && TXN_DBI_EXIST(txn, dbi, DB_USRVALID)`.
  unfoldable pub mdb_get : (usable : Bool) → Option (ℤ ⊎ List ℕ)
  unfolding cursor_set
  mdb_get usable =
      if not usable
      then some (inl einval)
      else if db.blocked
      then some (inl bad_txn)
      else cursor_set get db cmp key SetOp.set fresh >>= λ o. some (data_of o)

  -- no entry has the key
  abbrev pub Lacks : List Leaf → Type 0
  Lacks [] = Unit
  Lacks (e ∷ es) = (cmp key e.key ≢ Ordering.eq) × Lacks es

  -- What `mdb_get` returns for the entries `all`.
  pub data Value (all : List Leaf) (o : Option (ℤ ⊎ List ℕ)) : Type 0 where
    stored :
        (before : List Leaf) (e : Leaf) (after : List Leaf)
        → all ≡ before ++ e ∷ after
        → cmp key e.key ≡ Ordering.eq
        → o ≡ node_read get e.content
        → Value all o
    missing : Lacks all → o ≡ some (inl notfound) → Value all o

  split-Lacks :
      (lows highs : List Leaf)
      → Below (cmp key) lows
      → Beyond (cmp key) highs
      → Lacks (lows ++ highs)
  split-Lacks [] [] b y = tt
  split-Lacks [] (e ∷ es) b (l, y) = ((λ h. cc), split-Lacks [] es tt y)
  split-Lacks (e ∷ es) highs (g, b) y = ((λ h. cc), split-Lacks es highs b y)

  opened :
      db.blocked ≡ false
      → mdb_get true ≡ (cursor_set get db cmp key SetOp.set fresh >>= λ o. some (data_of o))
  unfolding mdb_get
  opened h =
      ap
        (λ t.
          if t
          then some (inl bad_txn)
          else (cursor_set get db cmp key SetOp.set fresh >>= λ o. some (data_of o)))
        h

  deliver-node_read :
      (c : Cursor) (e : Leaf) (r : Option (ℤ ⊎ List ℕ))
      → node_read get e.content ≡ r
      → (deliver get c e >>= λ o. some (data_of o)) ≡ r
  unfolding deliver
  deliver-node_read c e none h = rw (deliver, h) refl
  deliver-node_read c e (some (inl rc)) h = rw (deliver, h) refl
  deliver-node_read c e (some (inr v)) h = rw (deliver, h) refl

  value_lem :
      (all : List Leaf) {o : Option Outcome}
      → Located get db cmp key SetOp.set all o
      → Value all (o >>= λ r. some (data_of r))
  value_lem all (there d before e after run split below (inl hit) at) =
      stored before e after split hit
        (rw run (deliver-node_read d (keep_key SetOp.set key e) (node_read get e.content) refl))
  value_lem all (there d before e after run split below (inr (range, less)) at) = cc
  value_lem all (absent d lows highs run split below beyond range) =
      missing (subst Lacks (sym split) (split-Lacks lows highs below beyond)) (rw run refl)

  -- For a key that is not empty, a usable database handle, a transaction that is not blocked, and a
  -- sorted tree of pages, `mdb_get` returns what is read at the entry with the key, its data or the
  -- error of reading it, or MDB_NOTFOUND if no entry has the key.
  pub mdb_get-Value :
      (h : ℕ) (p : Page)
      → 0 < length key
      → Rooted get db h p
      → IsSorted (cmp key) get h p
      → Value (entries get h p) (mdb_get true)
  mdb_get-Value h p some_key r sorted = subst (Value (entries get h p)) (sym (opened r.unblocked)) (
      value_lem (entries get h p)
        (cursor_set-Located get db cmp key SetOp.set h p some_key r sorted))
