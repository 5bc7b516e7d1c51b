-- ===== src/Examples/PageRuns.antt =====
-- A transaction with a parent, and pages in their lists.
use sam_lmdb_rs.Base.{◌*◌, ◌≡◌, Option, none, some, false, [], ◌∷◌, Returns, arith, refl}
use sam_lmdb_rs.Idl.{Idl}
use sam_lmdb_rs.Idl.Valid.{IsDescending}
use sam_lmdb_rs.Id2.{Id2, Sorted}
use sam_lmdb_rs.Pages.{Txn, Place, dirty, mapped, not_found, page_get}
use sam_lmdb_rs.Pages.Latest.{Answer, Latest, page_get-Latest}

-- the page 15 is spilled
abbrev spills : Idl
spills = record { alloclen = 2; count = 1; cells = 30 ∷ 0 ∷ [] }

-- the pages 10 and 20 are dirty
abbrev dirty_pages : Sorted Id2
dirty_pages = record { count = 2; entries = λ i. record { mid = 10 * i; mptr = 500 * i } }

abbrev child_txn : Txn
child_txn = record { spill_pgs = some spills; dirty_list = record dirty_pages { count = 1 } }

abbrev parent_txn : Txn
parent_txn = record { spill_pgs = none; dirty_list = dirty_pages }

page_get_runs :
    (page_get false (child_txn ∷ parent_txn ∷ []) 30 10 ≡ some (dirty 500 1))
    × (page_get false (child_txn ∷ parent_txn ∷ []) 30 15 ≡ some (mapped 1))
    × (page_get false (child_txn ∷ parent_txn ∷ []) 30 20 ≡ some (dirty 1000 2))
    × (page_get false (child_txn ∷ parent_txn ∷ []) 30 29 ≡ some (mapped 0))
    × (page_get false (child_txn ∷ parent_txn ∷ []) 30 30 ≡ some not_found)
unfolding page_get
page_get_runs = (refl, refl, refl, refl, refl)

spills-IsDescending : IsDescending spills
spills-IsDescending i j a b c = absurd (omega arith)

page_get_example : Returns (page_get false (child_txn ∷ parent_txn ∷ []) 30 20) (λ place.
    (r : Option Place) × Latest 20 1 (child_txn ∷ parent_txn ∷ []) r × Answer 30 20 r place)
page_get_example =
    page_get-Latest (child_txn ∷ parent_txn ∷ []) 30 20
      (
        (omega arith, omega arith, spills-IsDescending),
        omega arith,
        (λ i j a b c. omega arith),
        (tt, omega arith, (λ i j a b c. omega arith), tt),
      )
      (omega arith)
