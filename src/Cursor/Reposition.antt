-- ===== src/Cursor/Reposition.antt =====
-- `mdb_cursor_set` of a cursor that is at an entry of a sorted tree.
use sam_lmdb_rs.Base.{
  ℕ, suc, ◌≤◌, ◌<◌, ◌≡◌, ◌⊎◌, inl, inr, some, Bool, true, false, List, [], ◌∷◌, ◌++◌, length, arith,
  refl, ap, sym, subst, ◌∙◌, append-nil, Bool-cases, Ordering, ltb, ◌==◌,
}
use mathlib.Core.List.{reverse, reverse_aux}
use sam_lmdb_rs.Base.Int.{ℤ}
use sam_lmdb_rs.Cursor.{Leaf, Nodes, leaf, branch, overflow, Page, Frame, Cursor, success}
use sam_lmdb_rs.Cursor.Tree.{entries, IsTree, Linked, OnPath, remaining, preceding}
use sam_lmdb_rs.Cursor.Search.{Database, Pick, page_search, root_frame, stack_room}
use sam_lmdb_rs.Cursor.Walk.{position, At}
use sam_lmdb_rs.Cursor.Start.{Rooted}
use sam_lmdb_rs.Cursor.Set.{SetOp, set_search, cursor_set}
use sam_lmdb_rs.Cursor.Sorted.{IsSorted, Beyond}
use sam_lmdb_rs.Cursor.Descend.{around, around_at, descend_key}
use sam_lmdb_rs.Cursor.Located.{Located}
use sam_lmdb_rs.Cursor.LeafSearch.{set2-Located}
use sam_lmdb_rs.Cursor.Falls.{entries_leaf, Falls, Below-Falls, Falling-Falls}
use sam_lmdb_rs.Cursor.OnPage.{on_page-Located}

-- the page at the bottom of a path, and its height
abbrev pub bottom_page : Frame → List Frame → Page
bottom_page f [] = f.page
bottom_page f (g ∷ rest) = bottom_page g rest

abbrev pub depth : ℕ → List Frame → ℕ
depth h [] = h
depth h (f ∷ rest) = depth (suc h) rest

reverse-bottom :
    (f : Frame) (rest acc : List Frame)
    → (g : Frame) × (stale : List Frame) × (reverse_aux (f ∷ rest) acc ≡ g ∷ stale)
      × (g.page ≡ bottom_page f rest)
reverse-bottom f [] acc = (f, acc, refl, refl)
reverse-bottom f (g ∷ rest) acc = reverse-bottom g rest (f ∷ acc)

module _ (get : ℕ → ℤ ⊎ Page) where
  -- around a page of the path there are all entries of the tree
  around-entries :
      (h : ℕ) (f : Frame) (rest : List Frame)
      → Linked get h f.page rest
      → OnPath get (suc h) rest
      → around get h f.page rest ≡ entries get (depth h rest) (bottom_page f rest)
  around-entries h f [] link on = append-nil (entries get h f.page)
  around-entries h f (g ∷ rest) link (t, lt, up, on) =
      around_at get (suc h) (entries get h f.page) g rest link ∙ around-entries (suc h) g rest up on

  -- the root page is at the bottom already, or is read again
  root_frame_lem :
      (root : ℕ) (f : Frame) (rest : List Frame) (p : Page)
      → bottom_page f rest ≡ p
      → get root ≡ inr p
      → (g : Frame) × (stale : List Frame) × (root_frame get root (reverse (f ∷ rest))
          ≡ inr (g, stale))
        × (g.page ≡ p)
  root_frame_lem root f rest p e found =
      let (g, stale, r, b) = reverse-bottom f rest [] in
      elim (Bool-cases (g.page.mp_pgno == root)) [
        | inl same ↦ (g, stale, rw (r, same) refl, b ∙ e)
        | inr other ↦ (record { page = p; ki = g.ki }, stale, rw (r, other, found) refl, refl)
      ]

module _ (get : ℕ → ℤ ⊎ Page) (db : Database) (cmp : List ℕ → List ℕ → Ordering) (key : List ℕ)
    (op : SetOp) where
  -- the page search from the root
  search_again :
      (h : ℕ) (p : Page) (f : Frame) (rest : List Frame) (eof : Bool)
      → Rooted get db h p
      → IsSorted (cmp key) get h p
      → bottom_page f rest ≡ p
      → Located get db cmp key op
          (entries get h p)
          (set_search get db cmp key op (position get f rest eof))
  unfolding set_search page_search IsSorted
  search_again h p f rest eof r sorted e =
      let (g, stale, base, same) = root_frame_lem get db.md_root f rest p e r.found in
      let tree = subst (IsTree get h) (sym same) r.tree in
      let s =
        descend_key (cmp key) get db.free_dbi true h stack_room g [] stale r.height tree
          (subst (IsSorted (cmp key) get h) (sym same) sorted) tt tt tt tt in
      let l = s.leaf_page in
      let used : ltb 1 db.md_root ≡ true = ground (arith, r.behind_meta) in
      let run : page_search get db (Pick.by_key (cmp key)) (position get f rest eof)
          ≡ some (success, position get l.top l.rest false) =
        rw (page_search, r.unblocked, r.used, used, base, l.run) refl in
      subst
        (λ all.
          Located get db cmp key op all (set_search get db cmp key op (position get f rest eof)))
        (s.whole ∙ append-nil (entries get h g.page) ∙ ap (entries get h) same)
        (rw (set_search, run)
          (set2-Located get db cmp key op l.top l.rest l.tree l.linked l.on s.before s.behind
            s.sorted))

  leaf-Falls :
      (m : ℕ) (ns : Nodes) (ys : List Leaf)
      → IsTree get 0 (record { mp_pgno = m; nodes = ns })
      → IsSorted (cmp key) get 0 (record { mp_pgno = m; nodes = ns })
      → Beyond (cmp key) ys
      → Falls (cmp key) (entries get 0 (record { mp_pgno = m; nodes = ns }) ++ ys)
  unfolding IsTree IsSorted
  leaf-Falls m (leaf es) ys t sorted b =
      subst (λ l. Falls (cmp key) (l ++ ys)) (sym (entries_leaf get m es))
        (Falling-Falls (cmp key) es ys sorted b)
  leaf-Falls m (branch ns) ys (es, e, _, _) sorted b = cc
  leaf-Falls m (overflow o) ys (es, e, _, _) sorted b = cc

  -- the entries of a sorted tree fall
  IsSorted-Falls :
      (h : ℕ) (p : Page)
      → h ≤ stack_room
      → IsTree get h p
      → IsSorted (cmp key) get h p
      → Falls (cmp key) (entries get h p)
  IsSorted-Falls h p le tree sorted =
      let s =
        descend_key (cmp key) get db.free_dbi false h stack_room (record { page = p; ki = 0 }) [] []
          le tree sorted tt tt tt tt in
      subst (Falls (cmp key)) (s.whole ∙ append-nil (entries get h p)) (
        Below-Falls (cmp key) (preceding get 1 s.leaf_page.rest) _ s.before (
          leaf-Falls s.leaf_page.top.page.mp_pgno s.leaf_page.top.page.nodes
            (remaining get 1 s.leaf_page.rest) s.leaf_page.tree s.sorted s.behind))

  -- by the nodes of the page where the cursor is
  by_nodes :
      (m ki : ℕ) (ns : Nodes) (rest : List Frame) (eof : Bool) (all : List Leaf)
      → let f : Frame = record { page = record { mp_pgno = m; nodes = ns }; ki = ki } in
        OnPath get 0 (f ∷ rest)
        → around get 0 f.page rest ≡ all
        → Falls (cmp key) all
        → 0 < length key
        → Located get db cmp key op all (set_search get db cmp key op (position get f rest eof))
        → Located get db cmp key op all (cursor_set get db cmp key op (position get f rest eof))
  unfolding cursor_set IsTree
  by_nodes m ki (leaf []) rest eof all ((es, e, many, few), lt, link, on) whole falls some_key
        search =
      absurd (omega arith)
  by_nodes m ki (leaf (e ∷ es)) rest eof all (tree, lt, link, on) whole falls some_key search =
      let k : (length key == 0) ≡ false = ground (arith, some_key) in
      let split : Falls (cmp key) (preceding get 1 rest ++ ((e ∷ es) ++ remaining get 1 rest)) =
        subst (λ l. Falls (cmp key) (preceding get 1 rest ++ (l ++ remaining get 1 rest)))
          (entries_leaf get m (e ∷ es)) (subst (Falls (cmp key)) (sym whole) falls) in
      let f : Frame = record { page = record { mp_pgno = m; nodes = leaf (e ∷ es) }; ki = ki } in
      let o = cursor_set get db cmp key op (position get f rest eof) in
      subst (λ l. Located get db cmp key op l o) whole
        (rw (cursor_set, k)
          (on_page-Located get db cmp key op m ki e es rest eof tree lt link on split (
            subst
              (λ l.
                Located get db cmp key op l
                  (set_search get db cmp key op (position get f rest eof)))
              (sym whole) search)))
  by_nodes m ki (branch ns) rest eof all ((es, e, many, few), lt, link, on) whole falls some_key
        search =
      cc
  by_nodes m ki (overflow b) rest eof all ((es, e, many, few), lt, link, on) whole falls some_key
        search =
      cc

  -- For a key that is not empty, a tree of pages that is sorted as `md_cmp` tells, and a cursor at an
  -- entry of the tree: MDB_SET and MDB_SET_KEY come to the entry with the key, MDB_SET_RANGE to the
  -- first entry that is not less, whether or not the shortcut for the page of the cursor applies.
  -- They return MDB_NOTFOUND only if there is no such entry.
  pub cursor_set_at-Located :
      (c : Cursor) (before : List Leaf) (e : Leaf) (after : List Leaf) (a : At get c before e after)
      → 0 < length key
      → Rooted get db (depth 0 a.rest) (bottom_page a.top a.rest)
      → IsSorted (cmp key) get (depth 0 a.rest) (bottom_page a.top a.rest)
      → Located get db cmp key op
          (entries get (depth 0 a.rest) (bottom_page a.top a.rest))
          (cursor_set get db cmp key op c)
  cursor_set_at-Located c before e after a some_key r sorted =
      let h = depth 0 a.rest in
      let p = bottom_page a.top a.rest in
      subst (λ d. Located get db cmp key op (entries get h p) (cursor_set get db cmp key op d))
        (sym a.shape)
        (by_nodes a.top.page.mp_pgno a.top.ki a.top.page.nodes a.rest a.eof (entries get h p) a.on
          (around-entries get 0 a.top a.rest a.on.2 a.on.3)
          (IsSorted-Falls h p r.height r.tree sorted) some_key
          (search_again h p a.top a.rest a.eof r sorted refl))
