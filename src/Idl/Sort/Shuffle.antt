-- ===== src/Idl/Sort/Shuffle.antt =====
-- Rearranging a part of an array by swaps.
use sam_lmdb_rs.Base.{
  false, ℕ, ◌≤◌, ◌<◌, ◌≡◌, ◌⊎◌, inl, inr, arith, refl, ◌∙◌, Bool-cases, ltb, ◌==◌,
}
use sam_lmdb_rs.Idl.Sort.{swap, swap_if_less}

-- `g` is `f` after swaps of elements with indices from `lo` to `hi`.
pub data Shuffled (lo hi : ℕ) : (f g : ℕ → ℕ) → Type 0 where
  same : {f : ℕ → ℕ} → Shuffled lo hi f f
  swapped :
      {f g : ℕ → ℕ} (i j : ℕ)
      → lo ≤ i
      → i ≤ hi
      → lo ≤ j
      → j ≤ hi
      → Shuffled lo hi (swap f i j) g
      → Shuffled lo hi f g

pub Shuffled-trans :
    {lo hi : ℕ} {f g k : ℕ → ℕ} → Shuffled lo hi f g → Shuffled lo hi g k → Shuffled lo hi f k
Shuffled-trans same t = t
Shuffled-trans (swapped i j a b c d s) t = swapped i j a b c d (Shuffled-trans s t)

pub Shuffled-widen :
    {lo hi : ℕ} {f g : ℕ → ℕ} (lo' hi' : ℕ)
    → lo' ≤ lo
    → hi ≤ hi'
    → Shuffled lo hi f g
    → Shuffled lo' hi' f g
Shuffled-widen lo' hi' a b same = same
Shuffled-widen lo' hi' a b (swapped i j p q r s t) =
    swapped i j (omega arith) (omega arith) (omega arith) (omega arith)
      (Shuffled-widen lo' hi' a b t)

-- the elements outside stay
pub Shuffled-kept :
    {lo hi : ℕ} {f g : ℕ → ℕ} (k : ℕ) → Shuffled lo hi f g → (k < lo) ⊎ (hi < k) → g k ≡ f k
Shuffled-kept k same h = refl
Shuffled-kept {f = f} k (swapped i j p q r s t) h =
    let a : (k == i) ≡ false = ground arith in
    let b : (k == j) ≡ false = ground arith in
    let e : swap f i j k ≡ f k = rw (b, a) refl in Shuffled-kept k t h ∙ e

-- what holds of all elements inside still does
pub Shuffled-all :
    {lo hi : ℕ} {f g : ℕ → ℕ} (P : ℕ → Type 0)
    → Shuffled lo hi f g
    → ((x : ℕ) → lo ≤ x → x ≤ hi → P (f x))
    → (x : ℕ) → lo ≤ x
    → x ≤ hi
    → P (g x)
Shuffled-all P same h = h
Shuffled-all {lo} {hi} {f} P (swapped i j p q r s t) h = Shuffled-all P t (λ x a b.
    elim (Bool-cases (x == j)) [
      | inl e ↦ rw e (h i p q)
      | inr e ↦ elim (Bool-cases (x == i)) [
        | inl d ↦ rw (e, d) (h j r s)
        | inr d ↦ rw (e, d) (h x a b)
      ]
    ])

pub one_swap :
    {lo hi : ℕ} (f : ℕ → ℕ) (i j : ℕ)
    → lo ≤ i
    → i ≤ hi
    → lo ≤ j
    → j ≤ hi
    → Shuffled lo hi f (swap f i j)
one_swap f i j a b c d = swapped i j a b c d same

pub swap_if_less-Shuffled :
    {lo hi : ℕ} (f : ℕ → ℕ) (i j : ℕ)
    → lo ≤ i
    → i ≤ hi
    → lo ≤ j
    → j ≤ hi
    → Shuffled lo hi f (swap_if_less f i j)
swap_if_less-Shuffled f i j a b c d = elim (Bool-cases (ltb (f i) (f j))) [
  | inl t ↦ rw t (one_swap f i j a b c d)
  | inr t ↦ rw t same
]
