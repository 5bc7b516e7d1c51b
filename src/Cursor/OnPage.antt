-- ===== src/Cursor/OnPage.antt =====
-- `mdb_cursor_set` of a cursor at an entry: the tests that tell whether the key is on its page.
use sam_lmdb_rs.Base.{
  ℕ, zero, suc, ◌-◌, ◌≤◌, ◌<◌, ◌≡◌, ◌≢◌, ◌⊎◌, inl, inr, some, Bool, true, false, ◌&&◌, not, List,
  [], ◌∷◌, ◌++◌, length, arith, refl, ap, sym, subst, ◌∙◌, append-nil, Bool-cases, Ordering, ltb,
  if◌then◌else◌,
}
use sam_lmdb_rs.Base.Int.{ℤ}
use sam_lmdb_rs.Cursor.{Leaf, leaf, Page, Frame, Cursor, notfound}
use sam_lmdb_rs.Cursor.Tree.{IsTree, Linked, OnPath, remaining, preceding}
use sam_lmdb_rs.Cursor.Siblings.{none_behind}
use sam_lmdb_rs.Cursor.Search.{Database}
use sam_lmdb_rs.Cursor.Move.{without}
use sam_lmdb_rs.Cursor.Walk.{position}
use sam_lmdb_rs.Cursor.Set.{
  SetOp, is_range, answer, set1, set2, set_search, any_right, off_page, on_page, at_index,
}
use sam_lmdb_rs.Cursor.Sorted.{Falling, Below, Beyond, append-Below}
use sam_lmdb_rs.Cursor.Descend.{around}
use sam_lmdb_rs.Cursor.Located.{Located, absent}
use sam_lmdb_rs.Cursor.LeafSearch.{here_lem, miss_lem, set2-Located}
use sam_lmdb_rs.Cursor.Falls.{
  entries_leaf, Falls, drop-Falls, Falls-Below, Falls-Beyond, Falls-Falling, last-Below,
}

module _ (get : ℕ → ℤ ⊎ Page) (db : Database) (cmp : List ℕ → List ℕ → Ordering) (key : List ℕ)
    (op : SetOp) where
  -- no parent has a right sibling
  any_right_lem :
      (h : ℕ) (rest : List Frame)
      → OnPath get h rest
      → any_right get db cmp key op rest ≡ false
      → remaining get h rest ≡ []
  unfolding any_right
  any_right_lem h [] on e = refl
  any_right_lem h (f ∷ rest) (t, lt, up, on) e =
      none_behind get h f rest t (ground arith) ∙ any_right_lem (suc h) rest on (ground arith)

  any_right_some : (rest : List Frame) → any_right get db cmp key op rest ≡ true → rest ≢ []
  unfolding any_right
  any_right_some [] e = λ h. cc
  any_right_some (f ∷ rest) e = λ h. cc

  List-cases : (rest : List Frame) → (rest ≡ []) ⊎ (rest ≢ [])
  List-cases [] = inl refl
  List-cases (f ∷ rest) = inr (λ h. cc)

  off_page-again :
      (above : Bool) (c : Cursor) (f : Frame) (rest : List Frame)
      → rest ≢ []
      → (above && not (any_right get db cmp key op rest)) ≡ false
      → off_page get db cmp key op above c f rest ≡ set_search get db cmp key op c
  unfolding off_page
  off_page-again above c f [] n e = absurd (n refl)
  off_page-again above c f (g ∷ gs) n e = rw (off_page, e) refl

  off_page-single :
      (c : Cursor) (f : Frame) (rest : List Frame)
      → rest ≡ []
      → off_page get db cmp key op false c f rest ≡ (
          if is_range op
          then set1 get db cmp key op (at_index get db cmp key op c f rest 0)
          else some (without notfound (at_index get db cmp key op c f rest 0)))
  unfolding off_page
  off_page-single c f [] h = refl
  off_page-single c f (g ∷ gs) h = cc

  module _ (m ki : ℕ) (e : Leaf) (es : List Leaf) (rest : List Frame) (eof : Bool) where
    abbrev frame : Frame
    frame = record { page = record { mp_pgno = m; nodes = leaf (e ∷ es) }; ki = ki }

    abbrev all : List Leaf
    all = around get 0 frame.page rest

    module _ (tree : IsTree get 0 frame.page) (inside : ki < suc (length es))
        (linked : Linked get 0 frame.page rest) (on : OnPath get 1 rest)
        (falls : Falls (cmp key) (preceding get 1 rest ++ ((e ∷ es) ++ remaining get 1 rest)))
        (search : Located get db cmp key op all
          (set_search get db cmp key op (position get frame rest eof))) where
      order : Falling 0 (suc (length es)) (answer (cmp key) (leaf (e ∷ es)))
      order =
          Falls-Falling (cmp key) (e ∷ es) (remaining get 1 rest)
            (drop-Falls (cmp key) (preceding get 1 rest) _ falls)

      -- the entries before the page, and those behind it
      before_page : cmp key e.key ≢ Ordering.lt → Below (cmp key) (preceding get 1 rest)
      before_page n =
          Falls-Below (cmp key) (preceding get 1 rest) e (es ++ remaining get 1 rest) falls n

      behind_page :
          (i : ℕ)
          → i < suc (length es)
          → answer (cmp key) (leaf (e ∷ es)) i ≢ Ordering.gt
          → Beyond (cmp key) (remaining get 1 rest)
      behind_page i lt n =
          Falls-Beyond (cmp key) (e ∷ es) (remaining get 1 rest) i lt n
            (drop-Falls (cmp key) (preceding get 1 rest) _ falls)

      -- the node with index `i` is the one
      hit_at :
          (i : ℕ)
          → i < suc (length es)
          → cmp key e.key ≢ Ordering.lt
          → answer (cmp key) (leaf (e ∷ es)) i ≡ Ordering.eq
          → Located get db cmp key op all
              (set1 get db cmp key op (position get (record frame { ki = i }) rest eof))
      unfolding set1
      hit_at i lt n hit =
          here_lem get db cmp key op frame rest tree linked on (before_page n)
            (behind_page i lt (λ g. cc)) i lt
            (λ j a b. elim (order j i a b lt) [ inl g ↦ g | inr l ↦ cc ]) (inl hit)

      -- the key is behind all entries of the tree
      past_end :
          (d : Cursor)
          → Below (cmp key) (e ∷ es)
          → remaining get 1 rest ≡ []
          → Located get db cmp key op all (some (without notfound d))
      past_end d b none_right =
          absent d all [] refl (sym (append-nil all))
            (append-Below (cmp key) (preceding get 1 rest) _ (before_page (λ l. cc)) (
              subst (λ l. Below (cmp key) (l ++ remaining get 1 rest))
                (sym (entries_leaf get m (e ∷ es)))
                (subst (λ r. Below (cmp key) ((e ∷ es) ++ r)) (sym none_right)
                  (subst (Below (cmp key)) (sym (append-nil (e ∷ es))) b))))
            tt (λ h. refl)

      all_less :
          answer (cmp key) (leaf (e ∷ es)) (length es) ≡ Ordering.gt → Below (cmp key) (e ∷ es)
      all_less h = last-Below (cmp key) (e ∷ es) (length es) (omega arith) order h

      -- on a tree of several pages the search starts again
      off_right :
          answer (cmp key) (leaf (e ∷ es)) (length es) ≡ Ordering.gt
          → Located get db cmp key op all
              (off_page get db cmp key op true (position get frame rest eof) frame rest)
      unfolding off_page
      off_right h = elim (Bool-cases (any_right get db cmp key op rest)) [
        | inr out ↦ rw (off_page, out) (past_end _ (all_less h) (any_right_lem 1 rest on out))
        | inl more ↦
            rw
              (off_page-again true (position get frame rest eof) frame rest
                (any_right_some rest more) (ground arith))
              search
      ]

      none_less :
          cmp key e.key ≡ Ordering.lt
          → (i : ℕ) → 0 ≤ i
          → i < suc (length es)
          → answer (cmp key) (leaf (e ∷ es)) i ≡ Ordering.lt
      none_less h zero a b = h
      none_less h (suc i) a b = elim (order 0 (suc i) (omega arith) (omega arith) b) [
        | inl g ↦ cc
        | inr l ↦ l
      ]

      off_left :
          cmp key e.key ≡ Ordering.lt
          → Located get db cmp key op all
              (off_page get db cmp key op false (position get frame rest eof) frame rest)
      unfolding set1
      off_left h = elim (List-cases rest) [
        | inr many ↦
            rw (off_page-again false (position get frame rest eof) frame rest many refl) search
        | inl one ↦
            let bf : Below (cmp key) (preceding get 1 rest) =
              subst (λ r. Below (cmp key) (preceding get 1 r)) (sym one) tt in
            let bh = behind_page 0 (omega arith) (λ g. cc) in
            rw (off_page-single (position get frame rest eof) frame rest one)
              (elim (Bool-cases (is_range op)) [
                | inl range ↦ rw range (
                    here_lem get db cmp key op frame rest tree linked on bf bh 0 (omega arith)
                      (λ j a b. absurd (omega arith)) (inr (range, h)))
                | inr exact ↦ rw exact (
                    miss_lem get db cmp key op frame rest tree linked on bf bh 0 _ exact
                      (λ j a b. absurd (omega arith)) (none_less h))
              ])
      ]

      -- the key is between the first and the last entry of the page
      between :
          cmp key e.key ≡ Ordering.gt
          → answer (cmp key) (leaf (e ∷ es)) (length es) ≡ Ordering.lt
          → Located get db cmp key op all (set2 get db cmp key op (position get frame rest false))
      between h l =
          set2-Located get db cmp key op frame rest tree linked on (before_page (λ x. cc))
            (behind_page (length es) (omega arith) (λ x. cc)) order

      -- the entry where the cursor stands
      by_current :
          cmp key e.key ≡ Ordering.gt
          → ltb 1 (length (e ∷ es)) ≡ true
          → answer (cmp key) (leaf (e ∷ es)) (length es) ≡ Ordering.lt
          → (o : Ordering) → answer (cmp key) (leaf (e ∷ es)) ki ≡ o
          → Located get db cmp key op all
              (on_page get db cmp key op (position get frame rest eof) frame rest (e ∷ es))
      unfolding on_page
      by_current ho many hl Ordering.eq h =
          let last : length (e ∷ es) - 1 ≡ length es = omega arith in
          let t : ltb ki (length (e ∷ es)) ≡ true = ground (arith, inside) in
          rw (on_page, ho, many, last, hl, t, h) (hit_at ki inside (λ x. cc) h)
      by_current ho many hl Ordering.gt h =
          let last : length (e ∷ es) - 1 ≡ length es = omega arith in
          let t : ltb ki (length (e ∷ es)) ≡ true = ground (arith, inside) in
          rw (on_page, ho, many, last, hl, t, h) (between ho hl)
      by_current ho many hl Ordering.lt h =
          let last : length (e ∷ es) - 1 ≡ length es = omega arith in
          let t : ltb ki (length (e ∷ es)) ≡ true = ground (arith, inside) in
          rw (on_page, ho, many, last, hl, t, h) (between ho hl)

      by_last :
          cmp key e.key ≡ Ordering.gt
          → ltb 1 (length (e ∷ es)) ≡ true
          → (l : Ordering) → answer (cmp key) (leaf (e ∷ es)) (length es) ≡ l
          → Located get db cmp key op all
              (on_page get db cmp key op (position get frame rest eof) frame rest (e ∷ es))
      unfolding on_page
      by_last ho many Ordering.eq hl =
          let last : length (e ∷ es) - 1 ≡ length es = omega arith in
          rw (on_page, ho, many, last, hl)
            (subst
              (λ i.
                Located get db cmp key op all
                  (set1 get db cmp key op (position get (record frame { ki = i }) rest eof)))
              (sym last) (hit_at (length es) (omega arith) (λ x. cc) hl))
      by_last ho many Ordering.gt hl =
          let last : length (e ∷ es) - 1 ≡ length es = omega arith in
          rw (on_page, ho, many, last, hl) (off_right hl)
      by_last ho many Ordering.lt hl =
          by_current ho many hl (answer (cmp key) (leaf (e ∷ es)) ki) refl

      by_first :
          (o : Ordering)
          → cmp key e.key ≡ o
          → Located get db cmp key op all
              (on_page get db cmp key op (position get frame rest eof) frame rest (e ∷ es))
      unfolding on_page
      by_first Ordering.eq ho = rw (on_page, ho) (hit_at 0 (omega arith) (λ x. cc) ho)
      by_first Ordering.lt ho = rw (on_page, ho) (off_left ho)
      by_first Ordering.gt ho = elim (Bool-cases (ltb 1 (length (e ∷ es)))) [
        | inl many ↦ by_last ho many (answer (cmp key) (leaf (e ∷ es)) (length es)) refl
        | inr one ↦
            let z : length es ≡ 0 = ground arith in
            rw (on_page, ho, one) (off_right (ap (answer (cmp key) (leaf (e ∷ es))) z ∙ ho))
      ]

      pub on_page-Located :
          Located get db cmp key op all
            (on_page get db cmp key op (position get frame rest eof) frame rest (e ∷ es))
      on_page-Located = by_first (cmp key e.key) refl
