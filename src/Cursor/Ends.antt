-- ===== src/Cursor/Ends.antt =====
-- A cursor that is not positioned yet comes to the first or the last entry of the tree.
use sam_lmdb_rs.Base.{
  ℕ, zero, suc, ◌+◌, ◌-◌, ◌≤◌, ◌<◌, ◌≡◌, ◌⊎◌, inr, Option, some, Bool, true, false, ◌||◌, List, [],
  ◌∷◌, ◌++◌, length, arith, refl, ap, sym, ◌∙◌, ltb,
}
use sam_lmdb_rs.Base.Int.{ℤ}
use sam_lmdb_rs.Cursor.{Branch, branch, Page, Frame, numkeys, count}
use sam_lmdb_rs.Cursor.Tree.{
  entries, IsTree, OnPath, remaining, preceding, numkeys_small, numkeys_some,
}
use sam_lmdb_rs.Cursor.Siblings.{
  remaining_link, preceding_link, none_behind, none_before, all_before,
}
use sam_lmdb_rs.Cursor.Tree.{Linked, child_lem}
use sam_lmdb_rs.Cursor.Search.{Pick, index_for, stays, round, down, follow_node, search_root}
use sam_lmdb_rs.Cursor.{success, child}

module _ (get : ℕ → ℤ ⊎ Page) (free_dbi init : Bool) where
  follow_node_lem :
      (pick : Pick) (f : Frame) (below stale : List Frame) (i pgno : ℕ) (q : Page)
      → stays pick init f i ≡ false
      → child f.page i ≡ some pgno
      → get pgno ≡ inr q
      → (later : List Frame) × (follow_node get free_dbi init pick f below stale i
          ≡ some (down (record { page = q; ki = 0 }) (record f { ki = i }) below later))
  unfolding follow_node
  follow_node_lem pick f below [] i pgno q moves at found =
      ([], rw (follow_node, moves, at, found) refl)
  follow_node_lem pick f below (g ∷ stale) i pgno q moves at found =
      (stale, rw (follow_node, moves, at, found) refl)

  round_lem :
      (pick : Pick) (ns : List Branch) (f : Frame) (below stale : List Frame) (i : ℕ)
      → 1 < length ns
      → index_for pick ns ≡ some i
      → i < length ns
      → round get free_dbi init pick (branch ns) f below stale
        ≡ follow_node get free_dbi init pick f below stale i
  unfolding round
  round_lem pick ns f below stale i many index lt =
      let a : ltb 1 (length ns) ≡ true = ground arith in
      let b : ltb i (length ns) ≡ true = ground arith in
      let c : (free_dbi || true) ≡ true = ground arith in rw (round, a, c, index, b) refl

  -- one round from a branch page to the page below node `i`
  pub round-down :
      (pick : Pick) (h : ℕ) (f : Frame) (below stale : List Frame) (i : ℕ)
      → ((ns : List Branch)
          → f.page.nodes ≡ branch ns
          → length ns ≡ numkeys f.page
          → 1 < length ns
          → index_for pick ns ≡ some i)
      → stays pick init f i ≡ false
      → i < numkeys f.page
      → IsTree get (suc h) f.page
      → Linked get (suc h) f.page below
      → OnPath get (suc (suc h)) below
      → (q : Page) × (later : List Frame) × (round get free_dbi init pick f.page.nodes f below stale
          ≡ some (down (record { page = q; ki = 0 }) (record f { ki = i }) below later))
        × ((pgno : ℕ) × (child f.page i ≡ some pgno) × (get pgno ≡ inr q))
        × OnPath get h (record { page = q; ki = 0 } ∷ record f { ki = i } ∷ below)
  unfolding IsTree
  round-down pick h f below stale i index moves lt (ns, e, many, few, each) link on =
      let c = child_lem get h f.page i (ns, e, many, few, each) lt in
      let n : length ns ≡ numkeys f.page = ap count (sym e) in
      let (later, run) = follow_node_lem pick f below stale i c.pgno c.below moves c.at c.found in
      (
        c.below,
        later,
        ap (λ t. round get free_dbi init pick t f below stale) e
            ∙ round_lem pick ns f below stale i many (index ns e n many) (omega arith)
            ∙ run,
        (c.pgno, c.at, c.found),
        (
          c.tree,
          numkeys_some get h c.below c.tree,
          c.chunk,
          ((ns, e, many, few, each), lt, link, on),
        ),
      )

  -- where the search ends: a leaf page on top of its path
  pub record Found (o : Option (ℤ × List Frame)) : Type 0 where
    pub top : Frame
    pub rest : List Frame
    pub run : o ≡ some (success, top ∷ rest)
    pub tree : IsTree get 0 top.page
    pub linked : Linked get 0 top.page rest
    pub on : OnPath get 1 rest

  pub at_leaf :
      (pick : Pick) (room : ℕ) (f : Frame) (below stale : List Frame)
      → IsTree get 0 f.page
      → search_root get free_dbi init pick room f below stale ≡ some (success, f ∷ below)
  unfolding search_root round IsTree
  at_leaf pick zero f below stale (es, e, many, few) =
      let r = ap (λ t. round get free_dbi init pick t f below stale) e in rw (search_root, r) refl
  at_leaf pick (suc room) f below stale (es, e, many, few) =
      let r = ap (λ t. round get free_dbi init pick t f below stale) e in rw (search_root, r) refl

  pub descend_first :
      (h room : ℕ) (f : Frame) (below stale : List Frame)
      → h ≤ room
      → IsTree get h f.page
      → Linked get h f.page below
      → OnPath get (suc h) below
      → (o : Found (search_root get free_dbi init Pick.first room f below stale)) × (preceding get 1
            o.rest
          ≡ preceding get (suc h) below)
        × (entries get 0 o.top.page ++ remaining get 1 o.rest
            ≡ entries get h f.page ++ remaining get (suc h) below)
  unfolding search_root index_for
  descend_first zero room f below stale le t link on = (
    record {
      top = f;
      rest = below;
      run = at_leaf Pick.first room f below stale t;
      tree = t;
      linked = link;
      on = on;
    },
    refl,
    refl,
  )
  descend_first (suc h) zero f below stale le t link on = absurd (omega arith)
  descend_first (suc h) (suc room) f below stale le t link on =
      let (q, later, run, from, (tq, _, lq, onq)) =
        round-down Pick.first h f below stale 0 (λ ns e n m. refl) refl
          (numkeys_some get (suc h) f.page t) t link on in
      let g : Frame = record f { ki = 0 } in
      let (o, ahead, behind) =
        descend_first h room (record { page = q; ki = 0 }) (g ∷ below) later (omega arith) tq lq
          onq in
      (
        record {
          top = o.top;
          rest = o.rest;
          run = rw (search_root, run) o.run;
          tree = o.tree;
          linked = o.linked;
          on = o.on;
        },
        ahead ∙ none_before get (suc h) g below refl,
        behind ∙ remaining_link get (suc h) (entries get h q) g below lq,
      )

module _ (get : ℕ → ℤ ⊎ Page) (free_dbi : Bool) where
  pub descend_last :
      (h room : ℕ) (f : Frame) (below stale : List Frame)
      → h ≤ room
      → IsTree get h f.page
      → Linked get h f.page below
      → OnPath get (suc h) below
      → (o : Found get free_dbi false (search_root get free_dbi false Pick.last room f below stale))
        × (remaining get 1 o.rest ≡ remaining get (suc h) below)
        × (preceding get 1 o.rest ++ entries get 0 o.top.page
            ≡ preceding get (suc h) below ++ entries get h f.page)
  unfolding search_root index_for
  descend_last zero room f below stale le t link on = (
    record {
      top = f;
      rest = below;
      run = at_leaf get free_dbi false Pick.last room f below stale t;
      tree = t;
      linked = link;
      on = on;
    },
    refl,
    refl,
  )
  descend_last (suc h) zero f below stale le t link on = absurd (omega arith)
  descend_last (suc h) (suc room) f below stale le t link on =
      let some_keys = numkeys_some get (suc h) f.page t in
      let few = numkeys_small get (suc h) f.page t in
      let (q, later, run, from, (tq, _, lq, onq)) =
        round-down get free_dbi false Pick.last h f below stale (numkeys f.page - 1)
          (λ ns e n m. ap some (omega arith)) refl (omega arith) t link on in
      let g : Frame = record f { ki = numkeys f.page - 1 } in
      let last : numkeys f.page ≤ g.ki + 1 = omega arith in
      let (o, behind, ahead) =
        descend_last h room (record { page = q; ki = 0 }) (g ∷ below) later (omega arith) tq lq
          onq in
      (
        record {
          top = o.top;
          rest = o.rest;
          run = rw (search_root, run) o.run;
          tree = o.tree;
          linked = o.linked;
          on = o.on;
        },
        behind ∙ none_behind get (suc h) g below t last,
        ahead
            ∙ preceding_link get (suc h) (entries get h q) g below lq
            ∙ ap (λ l. preceding get (suc (suc h)) below ++ l) (all_before get (suc h) g t last),
      )
