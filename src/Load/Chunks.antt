-- ===== src/Load/Chunks.antt =====
-- What `fgets` and `strlen` give for input without NUL bytes.
use sam_lmdb_rs.Base.{
  ℕ, zero, suc, ◌+◌, ◌-◌, ◌≤◌, ◌<◌, ◌≡◌, inl, inr, false, List, [], ◌∷◌, ◌++◌, Option, none, some,
  arith, refl, ap, ◌==◌, Bool-cases, length,
}
use sam_lmdb_rs.Load.{take_line, fgets, fgets_at, cstr, last}

abbrev pub NoNul : List ℕ → Type 0
NoNul [] = Unit
NoNul (c ∷ s) = (0 < c) × NoNul s

pub append-NoNul : (s t : List ℕ) → NoNul s → NoNul t → NoNul (s ++ t)
append-NoNul [] t h g = g
append-NoNul (c ∷ s) t (a, h) g = (a, append-NoNul s t h g)

take_line-NoNul :
    (k : ℕ) (s : List ℕ)
    → NoNul s
    → NoNul (take_line k s).0 × NoNul (take_line k s).1 × (length (take_line k s).1 ≤ length s)
unfolding take_line
take_line-NoNul zero s h = (tt, h, omega arith)
take_line-NoNul (suc k) [] h = (tt, tt, omega arith)
take_line-NoNul (suc k) (c ∷ s) (a, h) =
    let (l, r, le) = take_line-NoNul k s h in
    elim (Bool-cases (c == b'\n')) [
      | inl e ↦ rw e ((a, tt), h, omega arith)
      | inr e ↦ rw e ((a, l), r, omega arith)
    ]

take_line-some :
    (k : ℕ) (c : ℕ) (s : List ℕ)
    → NoNul s
    → (0 < length (take_line (suc k) (c ∷ s)).0) × (length (take_line (suc k) (c ∷ s)).1 ≤ length s)
unfolding take_line
take_line-some k c s h =
    let (l, r, le) = take_line-NoNul k s h in
    elim (Bool-cases (c == b'\n')) [
      | inl e ↦ rw e (omega arith, omega arith)
      | inr e ↦ rw e (omega arith, omega arith)
    ]

take_line-le : (k : ℕ) (s : List ℕ) → length (take_line k s).0 ≤ k
unfolding take_line
take_line-le zero s = omega arith
take_line-le (suc k) [] = omega arith
take_line-le (suc k) (c ∷ s) = elim (Bool-cases (c == b'\n')) [
  | inl e ↦ rw e (omega arith)
  | inr e ↦ rw e (omega (arith, take_line-le k s))
]

-- a block with room for the whole size
pub fgets_at-fits :
    (block offset size : ℕ) (s : List ℕ)
    → offset + size ≤ block
    → fgets_at block offset size s ≡ some (fgets size s)
unfolding fgets_at
fgets_at-fits block offset size s h = ground arith

-- What `fgets` gives: the end of the input, or a part of a line, which leaves a byte for the NUL.
pub data Got (size : ℕ) (s : List ℕ) (o : Option (List ℕ × List ℕ)) : Type 0 where
  at_end : o ≡ none → Got size s o
  line :
      (chunk rest : List ℕ)
      → o ≡ some (chunk, rest)
      → 0 < length chunk
      → length chunk < size
      → NoNul chunk
      → NoNul rest
      → length rest < length s
      → Got size s o

pub fgets-Got : (size : ℕ) (s : List ℕ) → 2 ≤ size → NoNul s → Got size s (fgets size s)
unfolding fgets
fgets-Got size [] h n = at_end refl
fgets-Got zero (c ∷ s) h n = absurd (omega arith)
fgets-Got (suc zero) (c ∷ s) h n = absurd (omega arith)
fgets-Got (suc (suc k)) (c ∷ s) h n =
    let (l, r, le) = take_line-NoNul (suc k) (c ∷ s) n in
    let (some_byte, shorter) = take_line-some k c s n.1 in
    let e : suc (suc k) - 1 ≡ suc k = omega arith in
    line (take_line (suc k) (c ∷ s)).0 (take_line (suc k) (c ∷ s)).1
      (ap (λ m. some (take_line m (c ∷ s))) e) some_byte
      (omega (arith, take_line-le (suc k) (c ∷ s))) l r (omega arith)

pub cstr-NoNul : (s : List ℕ) → NoNul s → cstr s ≡ s
unfolding cstr
cstr-NoNul [] h = refl
cstr-NoNul (c ∷ s) (a, h) = let t : (c == 0) ≡ false = ground arith in rw (t, cstr-NoNul s h) refl

pub last_lem : (s : List ℕ) → 0 < length s → (c : ℕ) × (last s ≡ some c)
last_lem [] h = absurd (omega arith)
last_lem (c ∷ []) h = (c, refl)
last_lem (c ∷ d ∷ s) h = last_lem (d ∷ s) (omega arith)
