-- ===== src/Key.antt =====
-- liblmdb/mdb.c: the comparison functions `mdb_cmp_*`. An MDB_val is the list of its bytes, and an
-- `int` result is read by its sign. Integers are stored as on a little-endian machine.
pub mod Order
pub mod Integers
use sam_lmdb_rs.Base.{
  ℕ, zero, suc, ◌+◌, ◌-◌, ◌*◌, ◌/◌, ◌%◌, ◌^◌, List, [], ◌∷◌, compare, Ordering, length, take,
  get_or, if◌then◌else◌, ltb,
}

-- the sign of `memcmp` over two blocks of one length
unfoldable pub memcmp : List ℕ → List ℕ → Ordering
memcmp (x ∷ xs) (y ∷ ys) = elim (compare x y) [
  | Ordering.lt ↦ Ordering.lt
  | Ordering.gt ↦ Ordering.gt
  | Ordering.eq ↦ memcmp xs ys
]
memcmp _ _ = Ordering.eq

-- `diff ? diff : len_diff`
abbrev pub or_else : Ordering → Ordering → Ordering
or_else Ordering.eq o = o
or_else Ordering.lt o = Ordering.lt
or_else Ordering.gt o = Ordering.gt

-- `mdb_cmp_memn`: `len` is an `unsigned int`.
unfoldable pub cmp_memn : List ℕ → List ℕ → Ordering
unfolding memcmp
cmp_memn a b =
    let len = (if ltb (length b) (length a) then length b else length a) % 2 ^ 32 in
    or_else (memcmp (take len a) (take len b)) (compare (length a) (length b))

-- The loop of `mdb_cmp_memnr`, with `n` rounds to go: `p1` and `p2` are offsets.
unfoldable pub memnr_loop : List ℕ → List ℕ → ℕ → ℕ → ℕ → Ordering
memnr_loop a b zero p1 p2 = Ordering.eq
memnr_loop a b (suc n) p1 p2 =
    or_else (compare (get_or a (p1 - 1) 0) (get_or b (p2 - 1) 0))
      (memnr_loop a b n (p1 - 1) (p2 - 1))

-- `mdb_cmp_memnr`
unfoldable pub cmp_memnr : List ℕ → List ℕ → Ordering
unfolding memnr_loop
cmp_memnr a b =
    let limit = if ltb (length b) (length a) then length a - length b else 0 in
    or_else (memnr_loop a b (length a - limit) (length a) (length b))
      (compare (length a) (length b))

-- the number that bytes stand for, least significant byte first
unfoldable pub le_value : List ℕ → ℕ
le_value [] = 0
le_value (x ∷ xs) = x + 256 * le_value xs

-- `mdb_cmp_int` and `mdb_cmp_long`: the first four and eight bytes
unfoldable pub cmp_int : List ℕ → List ℕ → Ordering
unfolding le_value
cmp_int a b = compare (le_value (take 4 a)) (le_value (take 4 b))

unfoldable pub cmp_long : List ℕ → List ℕ → Ordering
unfolding le_value
cmp_long a b = compare (le_value (take 8 a)) (le_value (take 8 b))

-- the `unsigned short` with index `k`
abbrev pub short_at : List ℕ → ℕ → ℕ
short_at a k = get_or a (2 * k) 0 + 256 * get_or a (2 * k + 1) 0

-- The loop of `mdb_cmp_cint` from the last of `n` shorts down to the first.
unfoldable pub cint_loop : List ℕ → List ℕ → ℕ → Ordering
cint_loop a b zero = Ordering.eq
cint_loop a b (suc n) = or_else (compare (short_at a n) (short_at b n)) (cint_loop a b n)

-- `mdb_cmp_cint`, of values with an even number of bytes, at least two
unfoldable pub cmp_cint : List ℕ → List ℕ → Ordering
unfolding cint_loop
cmp_cint a b = cint_loop a b (length a / 2)
