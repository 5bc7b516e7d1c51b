-- ===== src/Base/Arrays.antt =====
-- C arrays as functions of the index: a store, and the loop that makes room for an element.
use Prim.Native.Nat.{ℕ, zero, suc, ◌+◌, ◌≤◌, ◌<◌}
use mathlib.Core.Path.{◌≡◌, refl}
use mathlib.Core.Logic.{◌⊎◌, inl, inr}
use mathlib.Core.Bool.{true, false}
use native.Mathlib.Omega.{arith}
use sam_lmdb_rs.Base.Tests.{if◌then◌else◌, ◌==◌, Bool-cases}

module _ {ℓ} {A : Type ℓ} where
  -- `f[j] = v`
  abbrev pub store : (ℕ → A) → ℕ → A → ℕ → A
  store f j v k = if k == j then v else f k

  -- `for (i = indx + n; i > indx; i--) f[i] = f[i - 1]`, with `n` rounds to go
  unfoldable pub up_loop : (indx n : ℕ) → (ℕ → A) → ℕ → A
  up_loop indx zero f = f
  up_loop indx (suc n) f = up_loop indx n (store f (indx + suc n) (f (indx + n)))

  pub up_loop-kept :
      (indx n : ℕ) (f : ℕ → A) (k : ℕ) → (k ≤ indx) ⊎ (indx + n < k) → up_loop indx n f k ≡ f k
  unfolding up_loop
  up_loop-kept indx zero f k h = refl
  up_loop-kept indx (suc n) f k h =
      let t : (k == indx + suc n) ≡ false = ground arith in
      rw (up_loop-kept indx n (store f (indx + suc n) (f (indx + n))) k (ground arith), t) refl

  pub up_loop-moved :
      (indx n : ℕ) (f : ℕ → A) (k : ℕ) → indx ≤ k → k < indx + n → up_loop indx n f (k + 1) ≡ f k
  unfolding up_loop
  up_loop-moved indx zero f k a b = absurd (omega arith)
  up_loop-moved indx (suc n) f k a b = elim (Bool-cases (k == indx + n)) [
    | inl e ↦
        let t : (k + 1 == indx + suc n) ≡ true = ground arith in
        let s : k ≡ indx + n = ground arith in
        rw (up_loop-kept indx n next (k + 1) (inr (ground arith)), t, s) refl
    | inr e ↦
        let t : (k == indx + suc n) ≡ false = ground arith in
        rw (up_loop-moved indx n next k a (ground arith), t) refl
  ]
    where
      next : ℕ → A
      next = store f (indx + suc n) (f (indx + n))
