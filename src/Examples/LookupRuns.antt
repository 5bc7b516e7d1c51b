-- ===== src/Examples/LookupRuns.antt =====
-- The search for a key in the tree of the runs of cursors, with mdb_cmp_memn of liblmdb/mdb.c.
use sam_lmdb_rs.Base.{
  true, ℕ, zero, suc, ◌<◌, ◌≤◌, ◌≡◌, inl, inr, some, List, [], ◌∷◌, length, arith, refl, subst,
  Ordering,
}
use sam_lmdb_rs.Key.{cmp_memn}
use sam_lmdb_rs.Cursor.{Page, Branch, branch, child, notfound}
use sam_lmdb_rs.Cursor.Tree.{entries, chunks_of, concat}
use sam_lmdb_rs.Cursor.Search.{probe}
use sam_lmdb_rs.Cursor.Set.{set_range, answer, cursor_set}
use sam_lmdb_rs.Cursor.Sorted.{Falling, Separates, IsSorted}
use sam_lmdb_rs.Cursor.Located.{Located}
use sam_lmdb_rs.Cursor.Lookup.{cursor_set-Located}
use sam_lmdb_rs.Cursor.Reposition.{cursor_set_at-Located}
use sam_lmdb_rs.Cursor.Start.{fresh}
use sam_lmdb_rs.Cursor.Value.{mdb_get, Value, mdb_get-Value}
use sam_lmdb_rs.Examples.CursorRuns.{
  entry_a, entry_b, entry_c, left_page, right_page, root_page, to_left, to_right, pages, database,
  rooted, at_c, c-At,
}

mdb_get_present : mdb_get pages database cmp_memn (98 ∷ []) true ≡ some (inr (7 ∷ 8 ∷ 9 ∷ []))
unfolding mdb_get cmp_memn
mdb_get_present = refl

mdb_get_absent : mdb_get pages database cmp_memn (98 ∷ 0 ∷ []) true ≡ some (inl notfound)
unfolding mdb_get cmp_memn
mdb_get_absent = refl

abbrev b_ : List ℕ
b_ = 98 ∷ []

-- between the last key of the left page and the first one of the right page
abbrev b_zero : List ℕ
b_zero = 98 ∷ 0 ∷ []

abbrev nodes : List Branch
nodes = to_left ∷ to_right ∷ []

left-Falling :
    (key : List ℕ)
    → (cmp_memn key (97 ∷ []) ≡ Ordering.gt)
    → Falling 0 2 (answer (cmp_memn key) left_page.nodes)
left-Falling key h zero (suc zero) a b c = inl h
left-Falling key h zero zero a b c = absurd (omega arith)
left-Falling key h zero (suc (suc j)) a b c = absurd (omega arith)
left-Falling key h (suc i) j a b c = absurd (omega arith)

right-Falling : (key : List ℕ) → Falling 0 1 (answer (cmp_memn key) right_page.nodes)
right-Falling key i j a b c = absurd (omega arith)

below-IsSorted :
    (key : List ℕ) (i pgno : ℕ) (q : Page)
    → cmp_memn key (97 ∷ []) ≡ Ordering.gt
    → child root_page i ≡ some pgno
    → pages pgno ≡ inr q
    → IsSorted (cmp_memn key) pages 0 q
unfolding IsSorted
below-IsSorted key zero pgno q h at found =
    let n : 2 ≡ pgno = cc in
    let e : left_page ≡ q = cc in
    subst (λ p. IsSorted (cmp_memn key) pages 0 p) e (left-Falling key h)
below-IsSorted key (suc zero) pgno q h at found =
    let n : 3 ≡ pgno = cc in
    let e : right_page ≡ q = cc in
    subst (λ p. IsSorted (cmp_memn key) pages 0 p) e (right-Falling key)
below-IsSorted key (suc (suc i)) pgno q h at found = cc

separated :
    (j : ℕ)
    → 1 ≤ j
    → j < 2
    → Separates (cmp_memn b_zero) pages 0 nodes j (probe (cmp_memn b_zero) nodes j)
unfolding cmp_memn chunks_of concat
separated zero a b = absurd (omega arith)
separated (suc zero) a b = (refl, tt)
separated (suc (suc j)) a b = absurd (omega arith)

same : {ms : List Branch} → root_page.nodes ≡ branch ms → nodes ≡ ms
same e = cc

b_zero-IsSorted : IsSorted (cmp_memn b_zero) pages 1 root_page
unfolding IsSorted cmp_memn
b_zero-IsSorted = (
  (λ ns e.
      subst
        (λ l.
          Falling 1 (length l) (probe (cmp_memn b_zero) l)
          × ((j : ℕ)
              → 1 ≤ j
              → j < length l
              → Separates (cmp_memn b_zero) pages 0 l j (probe (cmp_memn b_zero) l j)))
        (same e) ((λ i j a b c. absurd (omega arith)), separated)),
  (λ i pgno q at found. below-IsSorted b_zero i pgno q refl at found),
)

cursor_set_example :
    Located pages database cmp_memn b_zero set_range
      (entries pages 1 root_page)
      (cursor_set pages database cmp_memn b_zero set_range fresh)
cursor_set_example =
    cursor_set-Located pages database cmp_memn b_zero set_range 1 root_page (omega arith) rooted
      b_zero-IsSorted

mdb_get_example :
    Value pages database cmp_memn b_zero
      (entries pages 1 root_page)
      (mdb_get pages database cmp_memn b_zero true)
mdb_get_example =
    mdb_get-Value pages database cmp_memn b_zero 1 root_page (omega arith) rooted b_zero-IsSorted

-- the key is not on the page of the cursor
cursor_set_at_example :
    Located pages database cmp_memn b_zero set_range
      (entries pages 1 root_page)
      (cursor_set pages database cmp_memn b_zero set_range at_c)
unfolding c-At
cursor_set_at_example =
    cursor_set_at-Located pages database cmp_memn b_zero set_range at_c (entry_a ∷ entry_b ∷ [])
      entry_c [] c-At (omega arith) rooted b_zero-IsSorted
