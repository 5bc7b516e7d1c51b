-- ===== src/Cursor/Lookup.antt =====
-- `mdb_cursor_set` of a cursor that was opened and not moved yet, in a sorted tree.
use sam_lmdb_rs.Base.{
  ℕ, ◌<◌, ◌≡◌, ◌⊎◌, Option, false, List, [], length, arith, refl, sym, subst, ◌∙◌, append-nil, ◌==◌,
  Ordering,
}
use sam_lmdb_rs.Base.Int.{ℤ}
use sam_lmdb_rs.Cursor.{Page, Frame}
use sam_lmdb_rs.Cursor.Tree.{entries}
use sam_lmdb_rs.Cursor.Search.{Database, Pick, search_root, stack_room}
use sam_lmdb_rs.Cursor.Start.{fresh, Rooted, page_search-fresh}
use sam_lmdb_rs.Cursor.Set.{SetOp, set_search, cursor_set}
use sam_lmdb_rs.Cursor.Sorted.{IsSorted}
use sam_lmdb_rs.Cursor.Descend.{Reached, descend_key}
use sam_lmdb_rs.Cursor.Located.{Located}
use sam_lmdb_rs.Cursor.LeafSearch.{set2-Located}

module _ (get : ℕ → ℤ ⊎ Page) (db : Database) (cmp : List ℕ → List ℕ → Ordering) (key : List ℕ)
    (op : SetOp) where
  found_page :
      (h : ℕ) (p : Page) (o : Option (ℤ × List Frame))
      → Reached (cmp key) get db.free_dbi false h (record { page = p; ki = 0 }) [] o
      → (o
          ≡ search_root get db.free_dbi false
              (Pick.by_key (cmp key))
              stack_room
              (record { page = p; ki = 0 })
              []
              [])
      → Rooted get db h p
      → Located get db cmp key op (entries get h p) (set_search get db cmp key op fresh)
  unfolding set_search IsSorted
  found_page h p o s e r =
      let l = s.leaf_page in
      let run =
        page_search-fresh get db (Pick.by_key (cmp key)) h p l.top l.rest (sym e ∙ l.run) r in
      subst (λ all. Located get db cmp key op all (set_search get db cmp key op fresh))
        (s.whole ∙ append-nil (entries get h p))
        (rw (set_search, run)
          (set2-Located get db cmp key op l.top l.rest l.tree l.linked l.on s.before s.behind
            s.sorted))

  -- For a key that is not empty, and a tree of pages that is sorted as `md_cmp` tells: MDB_SET and
  -- MDB_SET_KEY come to the entry with the key, MDB_SET_RANGE to the first entry that is not less.
  -- They return MDB_NOTFOUND only if there is no such entry.
  pub cursor_set-Located :
      (h : ℕ) (p : Page)
      → 0 < length key
      → Rooted get db h p
      → IsSorted (cmp key) get h p
      → Located get db cmp key op (entries get h p) (cursor_set get db cmp key op fresh)
  unfolding cursor_set
  cursor_set-Located h p some_key r sorted =
      let k : (length key == 0) ≡ false = ground (arith, some_key) in
      rw (cursor_set, k)
        (found_page h p _
          (descend_key (cmp key) get db.free_dbi false h stack_room (record { page = p; ki = 0 }) []
            [] r.height r.tree sorted tt tt tt tt)
          refl r)
