-- ===== src/Examples/Id2Runs.antt =====
-- ID2 and ID3 lists of liblmdb/midl.c.
use sam_lmdb_rs.Base.{ℕ, ◌*◌, ◌≡◌, some, Returns, arith, refl}
use sam_lmdb_rs.Idl.{search_loop, idl_um_max}
use sam_lmdb_rs.Id2.{Id2, Id3, Sorted, mid2, mid3, mid2l_search, mid2l_insert, mid2l_append}
use sam_lmdb_rs.Id2.Order.{IsAscending, Inserted, mid2l_insert-Inserted, mid2l_append-Inserted}

abbrev dirty : ℕ → Id2
dirty pgno = record { mid = pgno; mptr = 4096 * pgno }

abbrev mapped : ℕ → Id3
mapped pgno = record { mid = pgno; mptr = 4096 * pgno; mcnt = 1; mref = 1 }

-- the pages 10 and 20
abbrev pages : Sorted Id2
pages = record { count = 2; entries = λ i. dirty (10 * i) }

abbrev chunks : Sorted Id3
chunks = record { count = 2; entries = λ i. mapped (10 * i) }

pages-IsAscending : IsAscending mid2 pages
pages-IsAscending i j a b c = omega arith

chunks-IsAscending : IsAscending mid3 chunks
chunks-IsAscending i j a b c = omega arith

mid2l_search_runs : (mid2l_search pages 20 ≡ some 2) × (mid2l_search pages 15 ≡ some 2)
unfolding mid2l_search search_loop
mid2l_search_runs = (refl, refl)

mid2l_insert_example :
    Returns (mid2l_insert pages (dirty 15)) (Inserted mid2 (some idl_um_max) pages (dirty 15))
mid2l_insert_example = mid2l_insert-Inserted pages (dirty 15) (omega arith) pages-IsAscending

mid2l_append_example :
    Inserted mid2 (some idl_um_max) pages (dirty 30) (mid2l_append pages (dirty 30))
mid2l_append_example =
    mid2l_append-Inserted pages (dirty 30) pages-IsAscending (λ k a b. omega arith)
