-- ===== src/Examples/CursorRuns.antt =====
-- Cursors of liblmdb/mdb.c on a tree with a branch page and two leaf pages, and the loop of mdb_dump.
use sam_lmdb_rs.Base.{
  ℕ, zero, suc, ◌≡◌, ◌⊎◌, inr, some, true, false, [], ◌∷◌, get_elem?, arith, refl, subst,
  if◌then◌else◌, ◌==◌,
}
use sam_lmdb_rs.Base.Int.{ℤ}
use sam_lmdb_rs.Cursor.{inline, big, Leaf, Branch, branch, leaf, overflow, Page, Cursor}
use sam_lmdb_rs.Cursor.Tree.{IsTree, chunks_of, concat}
use sam_lmdb_rs.Cursor.Search.{Database}
use sam_lmdb_rs.Cursor.Move.{cursor_first, cursor_last, cursor_next, cursor_prev, node_read}
use sam_lmdb_rs.Cursor.Walk.{At, Next, cursor_next-Next}
use sam_lmdb_rs.Cursor.Back.{Prev, cursor_prev-Prev}
use sam_lmdb_rs.Cursor.Start.{
  fresh, Rooted, AtFirst, AtLast, cursor_first-AtFirst, cursor_last-AtLast,
}
use sam_lmdb_rs.Dump.{Mode, dump_records}
use sam_lmdb_rs.Dump.Scan.{dump_loop, dump_loop-dump_records}

abbrev pub entry_a : Leaf
entry_a = record { key = 97 ∷ []; content = inline (1 ∷ []) }

abbrev pub entry_b : Leaf
entry_b = record { key = 98 ∷ []; content = big 5 3 }

abbrev pub entry_c : Leaf
entry_c = record { key = 99 ∷ []; content = inline [] }

abbrev pub left_page : Page
left_page = record { mp_pgno = 2; nodes = leaf (entry_a ∷ entry_b ∷ []) }

abbrev pub right_page : Page
right_page = record { mp_pgno = 3; nodes = leaf (entry_c ∷ []) }

abbrev pub to_left : Branch
to_left = record { key = []; pgno = 2 }

abbrev pub to_right : Branch
to_right = record { key = 99 ∷ []; pgno = 3 }

abbrev pub root_page : Page
root_page = record { mp_pgno = 4; nodes = branch (to_left ∷ to_right ∷ []) }

abbrev pub pages : ℕ → ℤ ⊎ Page
pages n =
    if n == 2
    then inr left_page
    else if n == 3
    then inr right_page
    else if n == 4
    then inr root_page
    else inr (record { mp_pgno = n; nodes = overflow (7 ∷ 8 ∷ 9 ∷ 0 ∷ []) })

abbrev pub database : Database
database = record { blocked = false; free_dbi = false; md_root = 4 }

below :
    (i : ℕ) (n : Branch)
    → get_elem? (to_left ∷ to_right ∷ []) i ≡ some n
    → (q : Page) × (pages n.pgno ≡ inr q) × IsTree pages 0 q
unfolding IsTree
below zero n e =
    let s : to_left ≡ n = cc in
    subst (λ m. (q : Page) × (pages m.pgno ≡ inr q) × IsTree pages 0 q) s
      (left_page, refl, (entry_a ∷ entry_b ∷ [], refl, omega arith, omega arith))
below (suc zero) n e =
    let s : to_right ≡ n = cc in
    subst (λ m. (q : Page) × (pages m.pgno ≡ inr q) × IsTree pages 0 q) s
      (right_page, refl, (entry_c ∷ [], refl, omega arith, omega arith))
below (suc (suc i)) n e = cc

pub root-IsTree : IsTree pages 1 root_page
unfolding IsTree
root-IsTree = (to_left ∷ to_right ∷ [], refl, omega arith, omega arith, below)

pub rooted : Rooted pages database 1 root_page
rooted = record {
  unblocked = refl;
  used = refl;
  behind_meta = omega arith;
  found = refl;
  tree = root-IsTree;
  height = omega arith;
}

cursor_first_example : AtFirst pages database 1 root_page (cursor_first pages database fresh)
cursor_first_example = cursor_first-AtFirst pages database 1 root_page rooted

cursor_last_example : AtLast pages database 1 root_page (cursor_last pages database fresh)
cursor_last_example = cursor_last-AtLast pages database 1 root_page rooted

dump_loop_example :
    dump_loop pages database Mode.print 4 fresh
    ≡ some (
        dump_records Mode.print
          ((97 ∷ [], 1 ∷ []) ∷ (98 ∷ [], 7 ∷ 8 ∷ 9 ∷ []) ∷ (99 ∷ [], []) ∷ []))
unfolding chunks_of concat node_read
dump_loop_example =
    dump_loop-dump_records pages database Mode.print 1 root_page
      ((97 ∷ [], 1 ∷ []) ∷ (98 ∷ [], 7 ∷ 8 ∷ 9 ∷ []) ∷ (99 ∷ [], []) ∷ []) 4 rooted
      (refl, refl, (refl, refl, (refl, refl, tt))) (omega arith)

left-IsTree : IsTree pages 0 left_page
unfolding IsTree
left-IsTree = (entry_a ∷ entry_b ∷ [], refl, omega arith, omega arith)

pub right-IsTree : IsTree pages 0 right_page
unfolding IsTree
right-IsTree = (entry_c ∷ [], refl, omega arith, omega arith)

abbrev at_b : Cursor
at_b = record {
  stack = record { page = left_page; ki = 1 } ∷ record { page = root_page; ki = 0 } ∷ [];
  initialized = true;
  eof = false;
  del = false;
}

abbrev pub at_c : Cursor
at_c = record {
  stack = record { page = right_page; ki = 0 } ∷ record { page = root_page; ki = 1 } ∷ [];
  initialized = true;
  eof = true;
  del = false;
}

b-At : At pages at_b (entry_a ∷ []) entry_b (entry_c ∷ [])
unfolding chunks_of concat
b-At = record {
  top = record { page = left_page; ki = 1 };
  rest = record { page = root_page; ki = 0 } ∷ [];
  eof = false;
  shape = refl;
  on = (left-IsTree, omega arith, refl, (root-IsTree, omega arith, tt, tt));
  here = refl;
  earlier = refl;
  later = refl;
  ended = λ h. cc;
}

unfoldable pub c-At : At pages at_c (entry_a ∷ entry_b ∷ []) entry_c []
unfolding chunks_of concat
c-At = record {
  top = record { page = right_page; ki = 0 };
  rest = record { page = root_page; ki = 1 } ∷ [];
  eof = true;
  shape = refl;
  on = (right-IsTree, omega arith, refl, (root-IsTree, omega arith, tt, tt));
  here = refl;
  earlier = refl;
  later = refl;
  ended = λ h. refl;
}

cursor_next_example :
    Next pages (entry_a ∷ []) entry_b (entry_c ∷ []) (cursor_next pages database false at_b)
cursor_next_example =
    cursor_next-Next pages database at_b (entry_a ∷ []) entry_b (entry_c ∷ []) b-At

cursor_prev_example :
    Prev pages (entry_a ∷ entry_b ∷ []) entry_c [] (cursor_prev pages database at_c)
cursor_prev_example = cursor_prev-Prev pages database at_c (entry_a ∷ entry_b ∷ []) entry_c [] c-At
