-- ===== src/Examples/SortRuns.antt =====
-- Runs of `mdb_midl_sort` and `mdb_midl_xmerge` of liblmdb/midl.c.
use sam_lmdb_rs.Base.{
  ℕ, zero, suc, ◌+◌, ◌*◌, ◌%◌, ◌≡◌, some, List, [], ◌∷◌, if◌then◌else◌, ◌==◌, ◌>>=◌, Returns, arith,
  refl,
}
use sam_lmdb_rs.Idl.Sort.{
  midl_sort, sort_loop, partition, median, partition_loop, scan_up, scan_down, insert_loop,
  shift_loop,
}
use sam_lmdb_rs.Idl.Sort.Insertion.{Arranged}
use sam_lmdb_rs.Idl.Sort.Total.{midl_sort-Arranged}
use sam_lmdb_rs.Idl.Merge.{midl_xmerge, merge_loop, keep_loop}

-- `f 1` to `f n`
read : (ℕ → ℕ) → (i n : ℕ) → List ℕ
read f i zero = []
read f i (suc n) = f i ∷ read f (i + 1) n

-- twelve page numbers, enough for a partition
abbrev mixed : ℕ → ℕ
mixed i = (i * 7) % 13

sort_runs :
    (midl_sort 12 mixed >>= λ g. some (read g 1 12))
    ≡ some (12 ∷ 11 ∷ 10 ∷ 9 ∷ 8 ∷ 7 ∷ 6 ∷ 5 ∷ 4 ∷ 3 ∷ 2 ∷ 1 ∷ [])
unfolding midl_sort sort_loop partition median partition_loop scan_up scan_down insert_loop
    shift_loop read
sort_runs = refl

midl_sort_example : Returns (midl_sort 12 mixed) (Arranged 1 12 mixed)
midl_sort_example = midl_sort-Arranged 12 mixed (omega arith)

-- 90, 44 and 3
abbrev free_pages : ℕ → ℕ
free_pages i = if i == 1 then 90 else if i == 2 then 44 else 3

-- 50 and 44
abbrev loose : ℕ → ℕ
loose i = if i == 1 then 50 else 44

merge_runs :
    (midl_xmerge 3 free_pages 2 loose >>= λ g. some (read g 0 6))
    ≡ some (5 ∷ 90 ∷ 50 ∷ 44 ∷ 44 ∷ 3 ∷ [])
unfolding midl_xmerge merge_loop keep_loop read
merge_runs = refl
