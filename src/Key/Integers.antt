-- ===== src/Key/Integers.antt =====
-- The integer comparisons compare the numbers that the bytes stand for.
use sam_lmdb_rs.Base.{
  ℕ, zero, suc, ◌+◌, ◌*◌, ◌^◌, ◌≤◌, ◌<◌, ◌≡◌, List, [], ◌∷◌, compare, length, take, get_or, arith,
  ap,
}
use native.Mathlib.Nat.{pow-suc}
use sam_lmdb_rs.Key.{or_else, le_value, cmp_int, cmp_long, short_at, cint_loop, cmp_cint}

-- every element is a byte
abbrev pub Bytes : List ℕ → Type 0
Bytes a = (i : ℕ) → get_or a i 0 < 256

-- the value of the first `n` bytes, by index
abbrev value_to : List ℕ → ℕ → ℕ
value_to a n = le_value (take n a)

value-suc : (a : List ℕ) (n : ℕ) → value_to a (suc n) ≡ value_to a n + get_or a n 0 * 256 ^ n
unfolding le_value
value-suc [] zero = omega arith
value-suc [] (suc n) = omega arith
value-suc (x ∷ a) zero = omega arith
value-suc (x ∷ a) (suc n) = omega (arith, value-suc a n, ap (λ t. get_or a n 0 * t) (pow-suc 256 n))

value_to-lt : (a : List ℕ) → Bytes a → (n : ℕ) → value_to a n < 256 ^ n
unfolding le_value
value_to-lt a bytes zero = omega arith
value_to-lt a bytes (suc n) =
    below (value_to a n) (get_or a n 0) (256 ^ n) (value_to a (suc n)) (256 ^ suc n)
      (value_to-lt a bytes n) (bytes n) (value-suc a n) (pow-suc 256 n)
  where
    below : (v d p w q : ℕ) → v < p → d < 256 → w ≡ v + d * p → q ≡ p * 256 → w < q
    below v d p w q h k e f = rw (e, f) (grind arith)

-- the value of the first `n` shorts
abbrev shorts_to : List ℕ → ℕ → ℕ
shorts_to a n = value_to a (2 * n)

shorts-suc :
    (a : List ℕ) (n : ℕ) → shorts_to a (suc n) ≡ shorts_to a n + short_at a n * 256 ^ (2 * n)
shorts-suc a n =
    let e : 2 * suc n ≡ suc (suc (2 * n)) = omega arith in
    let f : 2 * n + 1 ≡ suc (2 * n) = omega arith in
    rw (e, f)
      (omega (
        arith,
        value-suc a (suc (2 * n)),
        value-suc a (2 * n),
        ap (λ t. get_or a (suc (2 * n)) 0 * t) (pow-suc 256 (2 * n)),
      ))

digit-lt : (v w d e p : ℕ) → v < p → d < e → v + d * p < w + e * p
digit-lt v w d e p h q = let more : (d + 1) * p ≤ e * p = grind arith in omega arith

-- A more significant digit decides first.
compare-digits :
    (v w d e p : ℕ)
    → v < p
    → w < p
    → or_else (compare d e) (compare v w) ≡ compare (v + d * p) (w + e * p)
compare-digits v w d e p h k = ground (arith, digit-lt v w d e p h, digit-lt w v e d p k, same)
  where
    same : d ≡ e → d * p ≡ e * p
    same q = ap (λ t. t * p) q

cint_loop-value :
    (a b : List ℕ)
    → Bytes a
    → Bytes b
    → (n : ℕ) → cint_loop a b n ≡ compare (shorts_to a n) (shorts_to b n)
unfolding cint_loop
cint_loop-value a b p q zero = ground arith
cint_loop-value a b p q (suc n) =
    rw (cint_loop-value a b p q n, shorts-suc a n, shorts-suc b n)
      (compare-digits (shorts_to a n) (shorts_to b n) (short_at a n) (short_at b n) (256 ^ (2 * n))
        (value_to-lt a p (2 * n)) (value_to-lt b q (2 * n)))

module _ (a b : List ℕ) (bytes_a : Bytes a) (bytes_b : Bytes b) where
  -- On values of four bytes `mdb_cmp_cint` agrees with `mdb_cmp_int`, and on values of eight bytes
  -- with `mdb_cmp_long`, as the search of a branch page assumes; both compare the numbers stored.
  pub cmp_cint-integer :
      (length a ≡ 4 → cmp_cint a b ≡ cmp_int a b) × (length a ≡ 8 → cmp_cint a b ≡ cmp_long a b)
  unfolding cmp_cint cmp_int cmp_long
  cmp_cint-integer = (
    λ h. rw h (cint_loop-value a b bytes_a bytes_b 2),
    λ h. rw h (cint_loop-value a b bytes_a bytes_b 4),
  )
