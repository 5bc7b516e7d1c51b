-- ===== src/Examples/KeyRuns.antt =====
-- The comparison functions of liblmdb/mdb.c on short keys.
use sam_lmdb_rs.Base.{ℕ, zero, suc, ◌≡◌, ◌↔◌, List, [], ◌∷◌, length, Ordering, arith, refl}
use mathlib.Core.List.{reverse}
use sam_lmdb_rs.Key.{
  memcmp, cmp_memn, memnr_loop, cmp_memnr, le_value, cmp_int, cmp_long, cint_loop, cmp_cint,
}
use sam_lmdb_rs.Key.Order.{lex, cmp_memn-lex, cmp_memn_order, cmp_memnr-lex}
use sam_lmdb_rs.Key.Integers.{Bytes, cmp_cint-integer}

abbrev ab : List ℕ
ab = 97 ∷ 98 ∷ []

abbrev abc : List ℕ
abc = 97 ∷ 98 ∷ 99 ∷ []

abbrev zed : List ℕ
zed = 122 ∷ []

cmp_memn_runs : (cmp_memn ab abc ≡ Ordering.lt) × (cmp_memn zed abc ≡ Ordering.gt)
unfolding cmp_memn memcmp
cmp_memn_runs = (refl, refl)

cmp_memnr_runs : (cmp_memnr ab abc ≡ Ordering.lt) × (cmp_memnr zed abc ≡ Ordering.gt)
unfolding cmp_memnr memnr_loop
cmp_memnr_runs = (refl, refl)

cmp_memn_order_example :
    (cmp_memn ab abc ≡ Ordering.eq → ab ≡ abc)
    × (cmp_memn ab abc ≡ Ordering.lt ↔ cmp_memn abc ab ≡ Ordering.gt)
    × (cmp_memn ab abc ≡ Ordering.lt
        → cmp_memn abc zed ≡ Ordering.lt
        → cmp_memn ab zed ≡ Ordering.lt)
cmp_memn_order_example = cmp_memn_order ab abc zed (omega arith) (omega arith) (omega arith)

cmp_memn_example : cmp_memn ab abc ≡ lex ab abc
cmp_memn_example = cmp_memn-lex ab abc (omega arith) (omega arith)

cmp_memnr_example : cmp_memnr ab abc ≡ lex (reverse ab) (reverse abc)
cmp_memnr_example = cmp_memnr-lex ab abc

-- 258 and 513 on four bytes
abbrev small : List ℕ
small = 2 ∷ 1 ∷ 0 ∷ 0 ∷ []

abbrev large : List ℕ
large = 1 ∷ 2 ∷ 0 ∷ 0 ∷ []

small-Bytes : Bytes small
small-Bytes zero = omega arith
small-Bytes (suc zero) = omega arith
small-Bytes (suc (suc zero)) = omega arith
small-Bytes (suc (suc (suc zero))) = omega arith
small-Bytes (suc (suc (suc (suc i)))) = omega arith

large-Bytes : Bytes large
large-Bytes zero = omega arith
large-Bytes (suc zero) = omega arith
large-Bytes (suc (suc zero)) = omega arith
large-Bytes (suc (suc (suc zero))) = omega arith
large-Bytes (suc (suc (suc (suc i)))) = omega arith

cmp_cint_runs : (cmp_cint small large ≡ Ordering.lt) × (cmp_int small large ≡ Ordering.lt)
unfolding cmp_cint cint_loop cmp_int le_value
cmp_cint_runs = (refl, refl)

cmp_cint_example :
    (length small ≡ 4 → cmp_cint small large ≡ cmp_int small large)
    × (length small ≡ 8 → cmp_cint small large ≡ cmp_long small large)
cmp_cint_example = cmp_cint-integer small large small-Bytes large-Bytes
