-- ===== src/Examples/IdlRuns.antt =====
-- The ID list of liblmdb/midl.c on small lists.
use sam_lmdb_rs.Base.{
  ℕ, zero, suc, ◌-◌, ◌≤◌, ◌<◌, ◌≡◌, Option, some, List, [], ◌∷◌, ◌++◌, take, length, replicate,
  arith, refl, ap, ◌∙◌, length-append, length-replicate, length-take, Returns,
}
use sam_lmdb_rs.Idl.{Idl, midl_search, search_loop, midl_append, midl_append_list, midl_need}
use sam_lmdb_rs.Idl.Valid.{IsValid, IsDescending, at}
use sam_lmdb_rs.Idl.Search.{midl_search-Returns}
use sam_lmdb_rs.Idl.Append.{
  IsRealloc, Added, Ready, midl_append-Added, midl_append_list-Added, midl_need-room,
}

-- two free pages in a block with room for four
abbrev pages : Idl
pages = record { alloclen = 4; count = 2; cells = 90 ∷ 44 ∷ 0 ∷ 0 ∷ [] }

pages-IsValid : IsValid pages
pages-IsValid = omega arith

pages-IsDescending : IsDescending pages
pages-IsDescending zero j p q r = absurd (omega arith)
pages-IsDescending (suc zero) zero p q r = absurd (omega arith)
pages-IsDescending (suc zero) (suc zero) p q r = absurd (omega arith)
pages-IsDescending (suc zero) (suc (suc zero)) p q r = omega arith
pages-IsDescending (suc zero) (suc (suc (suc j))) p q r = absurd (omega arith)
pages-IsDescending (suc (suc i)) j p q r = absurd (omega arith)

midl_search_runs :
    (midl_search pages 44 ≡ some 2)
    × (midl_search pages 45 ≡ some 2)
    × (midl_search pages 1 ≡ some 3)
unfolding midl_search search_loop
midl_search_runs = (refl, refl, refl)

-- an allocator that always succeeds, and fills a larger block with zeros
realloc : List ℕ → ℕ → Option (List ℕ)
realloc xs n = some (take n xs ++ replicate (n - length xs) 0)

take-append_le : (k : ℕ) (xs ys : List ℕ) → k ≤ length xs → take k (xs ++ ys) ≡ take k xs
take-append_le zero xs ys h = refl
take-append_le (suc k) [] ys h = absurd (omega arith)
take-append_le (suc k) (x ∷ xs) ys h = ap (λ zs. x ∷ zs) (take-append_le k xs ys (omega arith))

take-take_le : (k n : ℕ) (xs : List ℕ) → k ≤ n → take k (take n xs) ≡ take k xs
take-take_le zero n xs h = refl
take-take_le (suc k) zero xs h = absurd (omega arith)
take-take_le (suc k) (suc n) [] h = refl
take-take_le (suc k) (suc n) (x ∷ xs) h = ap (λ zs. x ∷ zs) (take-take_le k n xs (omega arith))

grown-length : (xs : List ℕ) (n : ℕ) (ys : List ℕ) → realloc xs n ≡ some ys → length ys ≡ n
unfolding realloc
grown-length xs n ys e =
    let same : ys ≡ take n xs ++ replicate (n - length xs) 0 = cc in
    omega (
      arith,
      ap length same,
      length-append (take n xs) (replicate (n - length xs) 0),
      length-take n xs,
      length-replicate {A = ℕ} (n - length xs) 0,
    )

grown-prefix :
    (xs : List ℕ) (n : ℕ) (ys : List ℕ) (k : ℕ)
    → realloc xs n ≡ some ys
    → k ≤ length xs
    → k ≤ n
    → take k ys ≡ take k xs
unfolding realloc
grown-prefix xs n ys k e p q =
    let same : ys ≡ take n xs ++ replicate (n - length xs) 0 = cc in
    rw same (
      take-append_le k (take n xs) (replicate (n - length xs) 0) (omega (arith, length-take n xs))
      ∙ take-take_le k n xs q)

realloc-IsRealloc : IsRealloc realloc
unfolding realloc
realloc-IsRealloc = record {
  sized = λ xs ys n e. grown-length xs n ys e;
  kept = λ xs ys n k e p q. grown-prefix xs n ys k e p q;
}

search_example : Returns (midl_search pages 50) (λ r.
    (1 ≤ r)
    × (r ≤ 3)
    × ((i : ℕ) → 1 ≤ i → i < r → 50 < at pages i)
    × ((i : ℕ) → r ≤ i → i ≤ 2 → at pages i ≤ 50))
search_example = midl_search-Returns pages 50 pages-IsValid (omega arith) pages-IsDescending

append_example : Returns (midl_append realloc pages 7) (Added pages (7 ∷ []))
append_example = midl_append-Added realloc realloc-IsRealloc pages pages-IsValid 7

append_list_example : Returns (midl_append_list realloc pages pages) (Added pages (90 ∷ 44 ∷ []))
append_list_example =
    midl_append_list-Added realloc realloc-IsRealloc pages pages-IsValid pages pages-IsValid
      (omega arith)

need_example : Ready realloc realloc-IsRealloc pages pages-IsValid 9 (midl_need realloc pages 9)
need_example = midl_need-room realloc realloc-IsRealloc pages pages-IsValid 9 (omega arith)
