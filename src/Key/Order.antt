-- ===== src/Key/Order.antt =====
-- The byte comparisons are lexicographic.
use sam_lmdb_rs.Base.{
  ℕ, zero, suc, ◌-◌, ◌^◌, ◌≤◌, ◌<◌, ◌≡◌, ◌↔◌, List, [], ◌∷◌, ◌++◌, compare, Ordering, length, take,
  get_or, arith, refl, ap, ◌∙◌, if◌then◌else◌, ltb,
}
use mathlib.Core.List.{reverse, reverse-append}
use mathlib.Core.Path.{ap₂}
use Prim.Native.Nat.{min}
use sam_lmdb_rs.Key.{memcmp, or_else, cmp_memn, memnr_loop, cmp_memnr}

-- The dictionary order: the first byte that differs decides, and a prefix comes first.
pub lex : List ℕ → List ℕ → Ordering
lex [] [] = Ordering.eq
lex [] (y ∷ ys) = Ordering.lt
lex (x ∷ xs) [] = Ordering.gt
lex (x ∷ xs) (y ∷ ys) = or_else (compare x y) (lex xs ys)

take_all : (xs : List ℕ) → take (length xs) xs ≡ xs
take_all [] = refl
take_all (x ∷ xs) = ap (λ ys. x ∷ ys) (take_all xs)

-- cutting both blocks at the shorter length
memcmp-lex :
    (n : ℕ) (a b : List ℕ)
    → n ≡ (if ltb (length b) (length a) then length b else length a)
    → or_else (memcmp (take n a) (take n b)) (compare (length a) (length b)) ≡ lex a b
unfolding memcmp lex
memcmp-lex zero [] [] h = refl
memcmp-lex zero [] (y ∷ b) h = ground arith
memcmp-lex zero (x ∷ a) [] h = ground arith
memcmp-lex zero (x ∷ a) (y ∷ b) h = ground arith
memcmp-lex (suc n) [] b h = ground arith
memcmp-lex (suc n) (x ∷ a) [] h = ground arith
memcmp-lex (suc n) (x ∷ a) (y ∷ b) h = ground (arith, memcmp-lex n a b)

-- `mdb_cmp_memn` is the dictionary order, for values shorter than 2^32 bytes.
pub cmp_memn-lex : (a b : List ℕ) → length a < 2 ^ 32 → length b < 2 ^ 32 → cmp_memn a b ≡ lex a b
unfolding cmp_memn
cmp_memn-lex a b p q = memcmp-lex _ a b (ground arith)

lex-swap : (a b : List ℕ) → lex a b ≡ Ordering.lt → lex b a ≡ Ordering.gt
unfolding lex
lex-swap [] [] h = cc
lex-swap [] (y ∷ b) h = refl
lex-swap (x ∷ a) [] h = cc
lex-swap (x ∷ a) (y ∷ b) h = ground (arith, lex-swap a b)

lex-swap_gt : (a b : List ℕ) → lex a b ≡ Ordering.gt → lex b a ≡ Ordering.lt
unfolding lex
lex-swap_gt [] [] h = cc
lex-swap_gt [] (y ∷ b) h = cc
lex-swap_gt (x ∷ a) [] h = refl
lex-swap_gt (x ∷ a) (y ∷ b) h = ground (arith, lex-swap_gt a b)

lex-eq : (a b : List ℕ) → lex a b ≡ Ordering.eq → a ≡ b
unfolding lex
lex-eq [] [] h = refl
lex-eq [] (y ∷ b) h = cc
lex-eq (x ∷ a) [] h = cc
lex-eq (x ∷ a) (y ∷ b) h = ground (arith, lex-eq a b)

lex_trans : (a b c : List ℕ) → lex a b ≡ Ordering.lt → lex b c ≡ Ordering.lt → lex a c ≡ Ordering.lt
unfolding lex
lex_trans [] [] c p q = cc
lex_trans [] (y ∷ b) [] p q = cc
lex_trans [] (y ∷ b) (z ∷ c) p q = refl
lex_trans (x ∷ a) [] c p q = cc
lex_trans (x ∷ a) (y ∷ b) [] p q = cc
lex_trans (x ∷ a) (y ∷ b) (z ∷ c) p q = ground (arith, lex_trans a b c)

-- `mdb_cmp_memn` orders keys strictly and totally: only equal keys compare equal, swapping two keys
-- swaps the result, and `less` is transitive; all values are shorter than 2^32 bytes.
pub cmp_memn_order :
    (a b c : List ℕ)
    → length a < 2 ^ 32
    → length b < 2 ^ 32
    → length c < 2 ^ 32
    → (cmp_memn a b ≡ Ordering.eq → a ≡ b)
      × (cmp_memn a b ≡ Ordering.lt ↔ cmp_memn b a ≡ Ordering.gt)
      × (cmp_memn a b ≡ Ordering.lt → cmp_memn b c ≡ Ordering.lt → cmp_memn a c ≡ Ordering.lt)
cmp_memn_order a b c p q r =
    rw (cmp_memn-lex a b p q, cmp_memn-lex b a q p, cmp_memn-lex b c q r, cmp_memn-lex a c p r)
      (lex-eq a b, (lex-swap a b, lex-swap_gt b a), lex_trans a b c)

take-suc : (i : ℕ) (a : List ℕ) → i < length a → take (suc i) a ≡ take i a ++ get_or a i 0 ∷ []
take-suc i [] h = absurd (omega arith)
take-suc zero (x ∷ a) h = refl
take-suc (suc i) (x ∷ a) h = ap (λ ys. x ∷ ys) (take-suc i a (omega arith))

reverse-take-suc :
    (i : ℕ) (a : List ℕ)
    → i < length a
    → reverse (take (suc i) a) ≡ get_or a i 0 ∷ reverse (take i a)
reverse-take-suc i a h = ap reverse (take-suc i a h) ∙ reverse-append (take i a) (get_or a i 0 ∷ [])

-- The loop, from offsets `i` and `j` down, compares the bytes before them backwards.
memnr_loop-lex :
    (a b : List ℕ) (n i j : ℕ)
    → n ≡ min i j
    → i ≤ length a
    → j ≤ length b
    → or_else (memnr_loop a b n i j) (compare i j) ≡ lex (reverse (take i a)) (reverse (take j b))
unfolding memnr_loop lex
memnr_loop-lex a b n zero zero e p q = ground arith
memnr_loop-lex a b n zero (suc j) e p q = rw (reverse-take-suc j b (omega arith)) (ground arith)
memnr_loop-lex a b n (suc i) zero e p q = rw (reverse-take-suc i a (omega arith)) (ground arith)
memnr_loop-lex a b zero (suc i) (suc j) e p q = absurd (omega arith)
memnr_loop-lex a b (suc n) (suc i) (suc j) e p q =
    let ei : suc i - 1 ≡ i = omega arith in
    let ej : suc j - 1 ≡ j = omega arith in
    rw (reverse-take-suc i a (omega arith), reverse-take-suc j b (omega arith))
      (ground (arith, ei, ej, memnr_loop-lex a b n i j (omega arith) (omega arith) (omega arith)))

-- `mdb_cmp_memnr` is the dictionary order of the values read backwards.
pub cmp_memnr-lex : (a b : List ℕ) → cmp_memnr a b ≡ lex (reverse a) (reverse b)
unfolding cmp_memnr
cmp_memnr-lex a b =
    memnr_loop-lex a b _ (length a) (length b) (ground arith) (omega arith) (omega arith)
    ∙ ap₂ (λ xs ys. lex (reverse xs) (reverse ys)) (take_all a) (take_all b)
