-- ===== src/Idl/Valid.antt =====
-- What a well-formed `MDB_IDL` is, and the IDs that it holds.
use sam_lmdb_rs.Base.{
  ℕ, zero, suc, some, List, get_elem?, get_or, take, length, ◌≤◌, ◌<◌, ◌≡◌, arith, refl, ◌∷◌, [],
}
use sam_lmdb_rs.Idl.{Idl, read}

-- The block has the size that its header states, and the IDs fit in it.
pub record IsValid (l : Idl) : Type 0 where
  pub sized : length l.cells ≡ l.alloclen
  pub fits : l.count ≤ l.alloclen

-- the IDs, in the order of the array
abbrev pub contents : Idl → List ℕ
contents l = take l.count l.cells

-- `ids[i]`, where it is read inside the block
abbrev pub at : Idl → ℕ → ℕ
at l zero = l.count
at l (suc i) = get_or l.cells i 0

-- midl.h: "For libmdb IDLs are sorted in descending order."
abbrev pub IsDescending : Idl → Type 0
IsDescending l = (i j : ℕ) → 1 ≤ i → i < j → j ≤ l.count → at l j < at l i

get_elem?-eq-get_or : (xs : List ℕ) (i : ℕ) → i < length xs → get_elem? xs i ≡ some (get_or xs i 0)
get_elem?-eq-get_or [] i h = absurd (omega arith)
get_elem?-eq-get_or (x ∷ xs) zero h = refl
get_elem?-eq-get_or (x ∷ xs) (suc i) h = get_elem?-eq-get_or xs i (omega arith)

pub read-at : (l : Idl) (i : ℕ) → i ≤ length l.cells → read l i ≡ some (at l i)
read-at l zero h = refl
read-at l (suc i) h = get_elem?-eq-get_or l.cells i (omega arith)
