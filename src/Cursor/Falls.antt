-- ===== src/Cursor/Falls.antt =====
-- The answers of the comparison with a key along a list of entries: first greater, then at most one
-- equal, then less.
use sam_lmdb_rs.Base.{
  ℕ, zero, suc, ◌+◌, ◌<◌, ◌≡◌, ◌≢◌, ◌⊎◌, inl, inr, List, [], ◌∷◌, ◌++◌, length, arith, refl, ap,
  Ordering,
}
use sam_lmdb_rs.Base.Int.{ℤ}
use sam_lmdb_rs.Cursor.{Leaf, leaf, Page}
use sam_lmdb_rs.Cursor.Tree.{concat, chunks_of, entries}
use sam_lmdb_rs.Cursor.Set.{answer}
use sam_lmdb_rs.Cursor.Sorted.{Falling, Below, Beyond}

-- the entries of a leaf page
pub entries_leaf :
    (get : ℕ → ℤ ⊎ Page) (m : ℕ) (es : List Leaf)
    → entries get 0 (record { mp_pgno = m; nodes = leaf es }) ≡ es
unfolding concat chunks_of
entries_leaf get m [] = refl
entries_leaf get m (e ∷ es) = ap (λ l. e ∷ l) (entries_leaf get m es)

module _ (c : List ℕ → Ordering) where
  abbrev pub Falls : List Leaf → Type 0
  Falls [] = Unit
  Falls (e ∷ es) = ((c e.key ≡ Ordering.gt) × Falls es) ⊎ ((c e.key ≢ Ordering.gt) × Beyond c es)

  pub Below-Falls : (xs ys : List Leaf) → Below c xs → Falls ys → Falls (xs ++ ys)
  Below-Falls [] ys b f = f
  Below-Falls (x ∷ xs) ys (e, b) f = inl (e, Below-Falls xs ys b f)

  pub Beyond-Falls : (ys : List Leaf) → Beyond c ys → Falls ys
  Beyond-Falls [] b = tt
  Beyond-Falls (y ∷ ys) (e, b) = inr ((λ h. cc), b)

  Beyond-drop : (xs ys : List Leaf) → Beyond c (xs ++ ys) → Beyond c ys
  Beyond-drop [] ys b = b
  Beyond-drop (x ∷ xs) ys (e, b) = Beyond-drop xs ys b

  pub drop-Falls : (xs ys : List Leaf) → Falls (xs ++ ys) → Falls ys
  drop-Falls [] ys f = f
  drop-Falls (x ∷ xs) ys (inl (e, f)) = drop-Falls xs ys f
  drop-Falls (x ∷ xs) ys (inr (n, b)) = Beyond-Falls ys (Beyond-drop xs ys b)

  Beyond-lookup :
      (es ys : List Leaf) (i : ℕ)
      → i < length es
      → Beyond c (es ++ ys)
      → answer c (leaf es) i ≡ Ordering.lt
  Beyond-lookup [] ys i h b = absurd (omega arith)
  Beyond-lookup (e ∷ es) ys zero h (l, b) = l
  Beyond-lookup (e ∷ es) ys (suc i) h (l, b) = Beyond-lookup es ys i (omega arith) b

  -- before an entry that is not less
  pub Falls-Below :
      (xs : List Leaf) (e : Leaf) (ys : List Leaf)
      → Falls (xs ++ e ∷ ys)
      → c e.key ≢ Ordering.lt
      → Below c xs
  Falls-Below [] e ys f n = tt
  Falls-Below (x ∷ xs) e ys (inl (g, f)) n = (g, Falls-Below xs e ys f n)
  Falls-Below (x ∷ xs) e ys (inr (g, b)) n = let (l, _) = Beyond-drop xs (e ∷ ys) b in absurd (n l)

  -- behind an entry that is not greater
  pub Falls-Beyond :
      (es ys : List Leaf) (i : ℕ)
      → i < length es
      → answer c (leaf es) i ≢ Ordering.gt
      → Falls (es ++ ys)
      → Beyond c ys
  Falls-Beyond [] ys i h n f = absurd (omega arith)
  Falls-Beyond (e ∷ es) ys i h n (inr (g, b)) = Beyond-drop es ys b
  Falls-Beyond (e ∷ es) ys zero h n (inl (g, f)) = absurd (n g)
  Falls-Beyond (e ∷ es) ys (suc i) h n (inl (g, f)) = Falls-Beyond es ys i (omega arith) n f

  pub Falls-Falling :
      (es ys : List Leaf) → Falls (es ++ ys) → Falling 0 (length es) (answer c (leaf es))
  Falls-Falling [] ys f i j a b h = absurd (omega arith)
  Falls-Falling (e ∷ es) ys f i zero a b h = absurd (omega arith)
  Falls-Falling (e ∷ es) ys (inr (n, b)) i (suc j) a l h =
      inr (Beyond-lookup es ys j (omega arith) b)
  Falls-Falling (e ∷ es) ys (inl (g, f)) zero (suc j) a l h = inl g
  Falls-Falling (e ∷ es) ys (inl (g, f)) (suc i) (suc j) a l h =
      Falls-Falling es ys f i j (omega arith) (omega arith) (omega arith)

  all-Beyond :
      (es ys : List Leaf)
      → ((j : ℕ) → j < length es → answer c (leaf es) j ≡ Ordering.lt)
      → Beyond c ys
      → Beyond c (es ++ ys)
  all-Beyond [] ys h b = b
  all-Beyond (e ∷ es) ys h b =
      (h 0 (omega arith), all-Beyond es ys (λ j l. h (suc j) (omega arith)) b)

  later :
      (e : Leaf) (es : List Leaf)
      → Falling 0 (suc (length es)) (answer c (leaf (e ∷ es)))
      → c e.key ≢ Ordering.gt
      → (j : ℕ) → j < length es
      → answer c (leaf es) j ≡ Ordering.lt
  later e es f n j h = elim (f 0 (suc j) (omega arith) (omega arith) (omega arith)) [
    | inl g ↦ absurd (n g)
    | inr l ↦ l
  ]

  first-Falls :
      (e : Leaf) (es ys : List Leaf)
      → Falling 0 (suc (length es)) (answer c (leaf (e ∷ es)))
      → Beyond c ys
      → Falls (es ++ ys)
      → (o : Ordering) → c e.key ≡ o
      → Falls (e ∷ (es ++ ys))
  first-Falls e es ys f b r Ordering.gt h = inl (h, r)
  first-Falls e es ys f b r Ordering.eq h =
      inr ((λ g. cc), all-Beyond es ys (later e es f (λ g. cc)) b)
  first-Falls e es ys f b r Ordering.lt h =
      inr ((λ g. cc), all-Beyond es ys (later e es f (λ g. cc)) b)

  pub Falling-Falls :
      (es ys : List Leaf)
      → Falling 0 (length es) (answer c (leaf es))
      → Beyond c ys
      → Falls (es ++ ys)
  Falling-Falls [] ys f b = Beyond-Falls ys b
  Falling-Falls (e ∷ es) ys f b =
      first-Falls e es ys f b
        (Falling-Falls es ys
          (λ i j u v w. f (suc i) (suc j) (omega arith) (omega arith) (omega arith)) b)
        (c e.key) refl

  -- the last entry is greater
  pub last-Below :
      (es : List Leaf) (k : ℕ)
      → length es ≡ k + 1
      → Falling 0 (length es) (answer c (leaf es))
      → answer c (leaf es) k ≡ Ordering.gt
      → Below c es
  last-Below [] k n f h = tt
  last-Below (e ∷ []) zero n f h = (h, tt)
  last-Below (e ∷ d ∷ es) zero n f h = absurd (omega arith)
  last-Below (e ∷ es) (suc k) n f h = (
    elim (f 0 (suc k) (omega arith) (omega arith) (omega arith)) [ inl g ↦ g | inr l ↦ cc ],
    last-Below es k (omega arith)
        (λ i j a b d. f (suc i) (suc j) (omega arith) (omega arith) (omega arith)) h,
  )
