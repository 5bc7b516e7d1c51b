-- ===== src/Idl/Merge.antt =====
-- liblmdb/midl.c: `mdb_midl_xmerge`, which merges a list into one with room for both. `f i` is
-- `idl[i]`, `g i` is `merge[i]`. A result `none` is a read below `idl[0]`.
pub mod Merged
use sam_lmdb_rs.Base.{ℕ, zero, suc, ◌+◌, ◌-◌, ◌^◌, Option, some, none, if◌then◌else◌, ltb, ◌>>=◌}
use sam_lmdb_rs.Base.Arrays.{store}

-- the variables of the loops
pub record Merge : Type 0 where
  pub ids : ℕ → ℕ
  pub j : ℕ
  pub k : ℕ
  pub old_id : ℕ

-- `for (; old_id < merge_id; old_id = idl[--j]) idl[k--] = old_id;`
unfoldable pub keep_loop : (merge_id : ℕ) → (ℕ → ℕ) → (j k old_id : ℕ) → Option Merge
keep_loop merge_id f zero k old_id =
    if ltb old_id merge_id
    then none
    else some (record { ids = f; j = zero; k = k; old_id = old_id })
keep_loop merge_id f (suc j) k old_id =
    let f' : ℕ → ℕ = store f k old_id in
    let rest = keep_loop merge_id f' j (k - 1) (f' j) in
    if ltb old_id merge_id
    then rest
    else some (record { ids = f; j = suc j; k = k; old_id = old_id })

-- `while (i) ...`
unfoldable pub merge_loop : (ℕ → ℕ) → (i : ℕ) → Merge → Option Merge
unfolding keep_loop
merge_loop g zero s = some s
merge_loop g (suc i) s = keep_loop (g (suc i)) s.ids s.j s.k s.old_id >>= λ t.
    merge_loop g i (record t { ids = store t.ids t.k (g (suc i)); k = t.k - 1 })

-- `mdb_midl_xmerge`; `n` is `idl[0]` and `m` is `merge[0]`.
unfoldable pub midl_xmerge : (n : ℕ) → (ℕ → ℕ) → (m : ℕ) → (ℕ → ℕ) → Option (ℕ → ℕ)
unfolding merge_loop
midl_xmerge n f m g =
    let f' : ℕ → ℕ = store f 0 (2 ^ 64 - 1) in
    merge_loop g m (record { ids = f'; j = n; k = m + n; old_id = f' n }) >>= λ t.
    some (store t.ids 0 (m + n))
