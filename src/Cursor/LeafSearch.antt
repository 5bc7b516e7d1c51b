-- ===== src/Cursor/LeafSearch.antt =====
-- `mdb_cursor_set` from `set2` on, on the leaf page where the key belongs.
use sam_lmdb_rs.Base.{
  ℕ, ◌≤◌, ◌<◌, ◌≡◌, ◌⊎◌, inl, inr, some, true, false, ◌&&◌, not, List, [], ◌∷◌, ◌++◌, arith, refl,
  ap, sym, subst, ◌∙◌, append_assoc, append-nil, Bool-cases, Ordering, dec_lt,
}
use sam_lmdb_rs.Base.Int.{ℤ}
use sam_lmdb_rs.Node.{node_search, Found}
use sam_lmdb_rs.Node.Search.{Splits, node_search-Returns}
use sam_lmdb_rs.Cursor.{Page, Frame, Cursor, numkeys, notfound, Sibling}
use sam_lmdb_rs.Cursor.Tree.{
  chunks, concat, entries, IsTree, Linked, OnPath, remaining, preceding, numkeys_some, take_whole,
  length-chunks,
}
use sam_lmdb_rs.Cursor.Siblings.{
  Right, at_end, next_page, sibling-Right, remaining_link, none_before,
}
use sam_lmdb_rs.Cursor.Search.{Database}
use sam_lmdb_rs.Cursor.Move.{without}
use sam_lmdb_rs.Cursor.Walk.{position, leaf_lem}
use sam_lmdb_rs.Cursor.Set.{SetOp, is_range, answer, set1, set2, no_leaf}
use sam_lmdb_rs.Cursor.Sorted.{Falling, Below, Beyond, append-Below, append-Beyond, not_hit}
use sam_lmdb_rs.Cursor.Descend.{around, around_split, around_at}
use sam_lmdb_rs.Cursor.Located.{Located, there, absent, page-Below, page-Beyond}

module _ (get : ℕ → ℤ ⊎ Page) (db : Database) (cmp : List ℕ → List ℕ → Ordering) (key : List ℕ)
    (op : SetOp) where
  module _ (f : Frame) (rest : List Frame) (tree : IsTree get 0 f.page)
      (linked : Linked get 0 f.page rest) (on : OnPath get 1 rest)
      (bf : Below (cmp key) (preceding get 1 rest))
      (bh : Beyond (cmp key) (remaining get 1 rest)) where
    -- the node with index `k` is the one
    pub here_lem :
        (k : ℕ)
        → k < numkeys f.page
        → ((i : ℕ) → 0 ≤ i → i < k → answer (cmp key) f.page.nodes i ≡ Ordering.gt)
        → (answer (cmp key) f.page.nodes k ≡ Ordering.eq)
          ⊎ ((is_range op ≡ true) × (answer (cmp key) f.page.nodes k ≡ Ordering.lt))
        → Located get db cmp key op
            (around get 0 f.page rest)
            (set1 get db cmp key op (position get (record f { ki = k }) rest false))
    unfolding set1
    here_lem k lt before hit =
        let (x, here, chunk) = leaf_lem get f.page k tree lt in
        let g : Frame = record f { ki = k } in
        let a : answer (cmp key) f.page.nodes k ≡ cmp key x.key = rw (answer, here) refl in
        there (position get g rest false) (preceding get 0 (g ∷ rest)) x
          (remaining get 0 (g ∷ rest)) (rw (set1, here) refl)
          (sym (around_at get 0 (x ∷ []) g rest chunk))
          (append-Below (cmp key) (preceding get 1 rest) _ bf
            (page-Below get db cmp key op f.page k tree before))
          (subst (λ t. (t ≡ Ordering.eq) ⊎ ((is_range op ≡ true) × (t ≡ Ordering.lt))) a hit)
          (record {
            top = g;
            rest = rest;
            eof = false;
            shape = refl;
            on = (tree, lt, linked, on);
            here = here;
            earlier = refl;
            later = refl;
            ended = λ h. cc;
          })

    -- no node is equal
    pub miss_lem :
        (k : ℕ) (d : Cursor)
        → is_range op ≡ false
        → ((i : ℕ) → 0 ≤ i → i < k → answer (cmp key) f.page.nodes i ≡ Ordering.gt)
        → ((i : ℕ) → k ≤ i → i < numkeys f.page → answer (cmp key) f.page.nodes i ≡ Ordering.lt)
        → Located get db cmp key op (around get 0 f.page rest) (some (without notfound d))
    miss_lem k d exact before after =
        let g : Frame = record f { ki = k } in
        absent d (preceding get 0 (g ∷ rest)) _ refl (sym (around_split get 0 g rest))
          (append-Below (cmp key) (preceding get 1 rest) _ bf
            (page-Below get db cmp key op f.page k tree before))
          (append-Beyond (cmp key) _ (remaining get 1 rest)
            (page-Beyond get db cmp key op f.page k tree after) bh)
          (λ h. cc)

    -- all nodes are less
    past_lem :
        (k : ℕ) {s : Sibling}
        → is_range op ≡ true
        → Below (cmp key) (entries get 0 f.page)
        → Right get 0 f.page rest s
        → Located get db cmp key op
            (around get 0 f.page rest)
            (no_leaf get db cmp key op (position get (record f { ki = k }) rest false) s)
    unfolding no_leaf set1
    past_lem k range below (at_end none_right) =
        absent _ (around get 0 f.page rest) [] refl (sym (append-nil _))
          (append-Below (cmp key) (preceding get 1 rest) _ bf (
            append-Below (cmp key) (entries get 0 f.page) (remaining get 1 rest) below
              (subst (λ l. Below (cmp key) l) (sym none_right) tt)))
          tt (λ h. refl)
    past_lem k range below (next_page q above (tq, lq, uq, onq) later earlier) =
        let g : Frame = record { page = q; ki = 0 } in
        let (x, here, chunk) = leaf_lem get q 0 tq lq in
        let r : x ∷ remaining get 0 (g ∷ above) ≡ remaining get 1 rest =
          remaining_link get 0 (x ∷ []) g above chunk ∙ later in
        let b : preceding get 0 (g ∷ above) ≡ preceding get 1 rest ++ entries get 0 f.page =
          none_before get 0 g above refl ∙ earlier in
        let beyond : Beyond (cmp key) (x ∷ remaining get 0 (g ∷ above)) =
          subst (λ l. Beyond (cmp key) l) (sym r) bh in
        there (position get g above false) (preceding get 0 (g ∷ above)) x
          (remaining get 0 (g ∷ above)) (rw (no_leaf, set1, here) refl)
          (sym (
            ap (λ l. l ++ x ∷ remaining get 0 (g ∷ above)) b
            ∙ append_assoc (preceding get 1 rest) (entries get 0 f.page) _
            ∙ ap (λ l. preceding get 1 rest ++ (entries get 0 f.page ++ l)) r))
          (subst (λ l. Below (cmp key) l) (sym b)
            (append-Below (cmp key) (preceding get 1 rest) _ bf below))
          (inr (range, beyond.0))
          (record {
            top = g;
            rest = above;
            eof = false;
            shape = refl;
            on = (tq, lq, uq, onq);
            here = here;
            earlier = refl;
            later = refl;
            ended = λ h. cc;
          })

    module _ (found : Found) (order : Falling 0 (numkeys f.page) (answer (cmp key) f.page.nodes))
        (s : Splits (answer (cmp key) f.page.nodes) 0 (numkeys f.page) order found) where
      not_below :
          found.exact ≡ false
          → (i : ℕ) → found.index ≤ i
          → i < numkeys f.page
          → answer (cmp key) f.page.nodes i ≡ Ordering.lt
      not_below inexact i a b = elim (dec_lt found.index i) [
        | yes lt ↦ s.after i lt b
        | no ge ↦
            let e : i ≡ found.index = omega arith in
            let lt : found.index < numkeys f.page = omega arith in
            ap (answer (cmp key) f.page.nodes) e
            ∙ not_hit (answer (cmp key) f.page.nodes) (numkeys f.page) found.index found.exact
                inexact lt s.here (s.reached lt)
      ]

      hit_lem :
          found.index < numkeys f.page
          → (not (is_range op) && not found.exact) ≡ false
          → (answer (cmp key) f.page.nodes found.index ≡ Ordering.eq)
            ⊎ ((is_range op ≡ true) × (answer (cmp key) f.page.nodes found.index ≡ Ordering.lt))
      hit_lem lt go = elim (Bool-cases found.exact) [
        | inl exact ↦ let (_, hit) = s.here.0 exact in inl hit
        | inr inexact ↦ inr (ground arith, not_below inexact found.index (omega arith) lt)
      ]

      all-Below : numkeys f.page ≤ found.index → Below (cmp key) (entries get 0 f.page)
      all-Below ge =
          subst (λ l. Below (cmp key) (concat l))
            (take_whole (chunks get 0 f.page) found.index
              (omega (arith, length-chunks get 0 f.page tree)))
            (page-Below get db cmp key op f.page found.index tree s.before)

    searched :
        (found : Found)
        → (order : Falling 0 (numkeys f.page) (answer (cmp key) f.page.nodes))
        → node_search true (numkeys f.page) (answer (cmp key) f.page.nodes) ≡ some found
        → Splits (answer (cmp key) f.page.nodes) 0 (numkeys f.page) order found
        → Located get db cmp key op
            (around get 0 f.page rest)
            (set2 get db cmp key op (position get f rest false))
    unfolding set2
    searched found order run s = elim (Bool-cases (not (is_range op) && not found.exact)) [
      | inl miss ↦
          rw (set2, run, miss)
            (miss_lem found.index _ (ground arith) s.before
              (not_below found order s (ground arith)))
      | inr go ↦ elim (Bool-cases found.present) [
        | inl present ↦
            rw (set2, run, go, present)
              (here_lem found.index (s.found.0 present) s.before
                (hit_lem found order s (s.found.0 present) go))
        | inr out ↦
            let (x, sib, r) = sibling-Right get 0 (record f { ki = found.index }) rest linked on in
            rw (set2, run, go, out, sib)
              (past_lem found.index (ground (arith, go, out, s.here, s.found))
                (all-Below found order s (ground (arith, out, s.found))) r)
      ]
    ]

    pub set2-Located :
        Falling 0 (numkeys f.page) (answer (cmp key) f.page.nodes)
        → Located get db cmp key op
            (around get 0 f.page rest)
            (set2 get db cmp key op (position get f rest false))
    set2-Located order =
        let (found, run, s) =
          node_search-Returns true (numkeys f.page) (answer (cmp key) f.page.nodes)
            (numkeys_some get 0 f.page tree) order in
        searched found order run s
