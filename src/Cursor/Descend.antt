-- ===== src/Cursor/Descend.antt =====
-- `mdb_page_search_root` by a key comes to the leaf page where the key belongs.
use sam_lmdb_rs.Base.{
  ℕ, zero, suc, ◌+◌, ◌≤◌, ◌<◌, ◌≡◌, ◌⊎◌, inl, inr, Option, some, Bool, List, [], ◌∷◌, ◌++◌, length,
  drop, take, get_elem?, arith, refl, ap, sym, subst, ◌∙◌, append_assoc, Ordering, dec_lt,
}
use sam_lmdb_rs.Base.Int.{ℤ}
use sam_lmdb_rs.Cursor.{Leaf, Branch, Nodes, branch, Page, Frame, count, numkeys}
use sam_lmdb_rs.Cursor.Tree.{
  chunks_of, chunks, concat, entries, IsTree, Linked, OnPath, remaining, preceding, concat-append,
  drop_all, length-chunks,
}
use sam_lmdb_rs.Cursor.Siblings.{remaining_link}
use sam_lmdb_rs.Cursor.Search.{Pick, probe, index_for, search_root, round, down}
use sam_lmdb_rs.Cursor.Ends.{Found, round-down, at_leaf}
use sam_lmdb_rs.Cursor.Sorted.{
  Below, Beyond, append-Below, append-Beyond, Separates, IsSorted, choose,
}

module _ {ℓ} {A : Type ℓ} where
  take-append-drop : (xs : List A) (i : ℕ) → take i xs ++ drop i xs ≡ xs
  take-append-drop xs zero = refl
  take-append-drop [] (suc i) = refl
  take-append-drop (x ∷ xs) (suc i) = ap (λ l. x ∷ l) (take-append-drop xs i)

same_branch : {p : Nodes} {ns ms : List Branch} → p ≡ branch ns → p ≡ branch ms → ns ≡ ms
same_branch a b = cc

module _ (get : ℕ → ℤ ⊎ Page) where
  -- all that a path has before, at and behind its page of height `h`
  abbrev pub around : ℕ → Page → List Frame → List Leaf
  around h p below = preceding get (suc h) below ++ (entries get h p ++ remaining get (suc h) below)

  pub around_split :
      (h : ℕ) (g : Frame) (below : List Frame)
      → preceding get h (g ∷ below)
          ++ (concat (drop g.ki (chunks get h g.page)) ++ remaining get (suc h) below)
        ≡ around h g.page below
  around_split h g below =
      let xs = chunks get h g.page in
      let p = preceding get (suc h) below in
      let r = remaining get (suc h) below in
      append_assoc p (concat (take g.ki xs)) (concat (drop g.ki xs) ++ r)
      ∙ ap (λ l. p ++ l)
          (sym (append_assoc (concat (take g.ki xs)) (concat (drop g.ki xs)) r)
            ∙ ap (λ l. l ++ r)
                (sym (concat-append (take g.ki xs) (drop g.ki xs))
                  ∙ ap concat (take-append-drop xs g.ki)))

  pub around_at :
      (h : ℕ) (x : List Leaf) (g : Frame) (below : List Frame)
      → get_elem? (chunks get h g.page) g.ki ≡ some x
      → preceding get h (g ∷ below) ++ (x ++ remaining get h (g ∷ below)) ≡ around h g.page below
  around_at h x g below link =
      ap (λ l. preceding get h (g ∷ below) ++ l) (remaining_link get h x g below link)
      ∙ around_split h g below

module _ (c : List ℕ → Ordering) (get : ℕ → ℤ ⊎ Page) (free_dbi init : Bool) where
  -- what the answers at the node to follow say of the entries around it
  before_lem :
      (h : ℕ) (ns : List Branch) (i : ℕ)
      → ((j : ℕ) → 1 ≤ j → j < length ns → Separates c get h ns j (probe c ns j))
      → i < length ns
      → (1 ≤ i → (probe c ns i ≡ Ordering.gt) ⊎ (probe c ns i ≡ Ordering.eq))
      → Below c (concat (take i (chunks_of get (suc h) (branch ns))))
  unfolding concat
  before_lem h ns zero sep lt reached = tt
  before_lem h ns (suc i) sep lt reached = elim (reached (omega arith)) [
    | inl e ↦ subst (λ t. Separates c get h ns (suc i) t) e (sep (suc i) (omega arith) lt)
    | inr e ↦ subst (λ t. Separates c get h ns (suc i) t) e (sep (suc i) (omega arith) lt)
  ]

  behind_lem :
      (h : ℕ) (p : Page) (ns : List Branch) (i : ℕ)
      → IsTree get (suc h) p
      → p.nodes ≡ branch ns
      → ((j : ℕ) → 1 ≤ j → j < length ns → Separates c get h ns j (probe c ns j))
      → (i + 1 < length ns → probe c ns (i + 1) ≡ Ordering.lt)
      → Beyond c (concat (drop (i + 1) (chunks get (suc h) p)))
  unfolding concat
  behind_lem h p ns i t e sep passed = elim (dec_lt (i + 1) (length ns)) [
    | yes lt ↦
        subst (λ l. Beyond c (concat (drop (i + 1) (chunks_of get (suc h) l)))) (sym e)
          (subst (λ t. Separates c get h ns (i + 1) t) (passed lt) (sep (i + 1) (omega arith) lt))
    | no ge ↦
        let n : length ns ≡ numkeys p = ap count (sym e) in
        subst (λ l. Beyond c (concat l))
          (sym (
            drop_all (chunks get (suc h) p) (i + 1) (omega (arith, length-chunks get (suc h) p t))))
          tt
  ]

  -- The leaf page with its answers, and what lies around it.
  pub record Reached (h : ℕ) (f : Frame) (below : List Frame) (o : Option (ℤ × List Frame))
      : Type 0 where
    pub leaf_page : Found get free_dbi init o
    pub sorted : IsSorted c get 0 leaf_page.top.page
    pub before : Below c (preceding get 1 leaf_page.rest)
    pub behind : Beyond c (remaining get 1 leaf_page.rest)
    pub whole : around get 0 leaf_page.top.page leaf_page.rest ≡ around get h f.page below

  -- one round of the loop
  record Step (h : ℕ) (f : Frame) (below stale : List Frame) : Type 0 where
    page : Page
    index : ℕ
    later : List Frame
    run :
        round get free_dbi init (Pick.by_key c) f.page.nodes f below stale
        ≡ some (down (record { page = page; ki = 0 }) (record f { ki = index }) below later)
    path : OnPath get h (record { page = page; ki = 0 } ∷ record f { ki = index } ∷ below)
    sorted : IsSorted c get h page
    before : Below c (preceding get (suc h) (record f { ki = index } ∷ below))
    behind : Beyond c (remaining get (suc h) (record f { ki = index } ∷ below))

  step :
      (h : ℕ) (f : Frame) (below stale : List Frame)
      → IsTree get (suc h) f.page
      → IsSorted c get (suc h) f.page
      → Linked get (suc h) f.page below
      → OnPath get (suc (suc h)) below
      → Below c (preceding get (suc (suc h)) below)
      → Beyond c (remaining get (suc (suc h)) below)
      → Step h f below stale
  unfolding IsTree IsSorted
  step h f below stale (ns, e, many, few, each) (at_page, children) link on bf bh =
      let t : IsTree get (suc h) f.page = (ns, e, many, few, each) in
      let (order, sep) = at_page ns e in
      let ch = choose c ns order many few in
      let n : length ns ≡ numkeys f.page = ap count (sym e) in
      let (q, later, run, (pgno, at, found), on_path) =
        round-down get free_dbi init (Pick.by_key c) h f below stale ch.index
          (λ ms em _ _.
            subst (λ l. index_for (Pick.by_key c) l ≡ some ch.index) (same_branch e em) ch.picked)
          refl (omega (arith, ch.inside)) t link on in
      record {
        page = q;
        index = ch.index;
        later = later;
        run = run;
        path = on_path;
        sorted = children ch.index pgno q at found;
        before = append-Below c _ _ bf (
            subst (λ l. Below c (concat (take ch.index (chunks_of get (suc h) l)))) (sym e)
              (before_lem h ns ch.index sep ch.inside ch.reached));
        behind = append-Beyond c _ _ (behind_lem h f.page ns ch.index t e sep ch.passed) bh;
      }

  pub descend_key :
      (h room : ℕ) (f : Frame) (below stale : List Frame)
      → h ≤ room
      → IsTree get h f.page
      → IsSorted c get h f.page
      → Linked get h f.page below
      → OnPath get (suc h) below
      → Below c (preceding get (suc h) below)
      → Beyond c (remaining get (suc h) below)
      → Reached h f below (search_root get free_dbi init (Pick.by_key c) room f below stale)
  unfolding search_root
  descend_key zero room f below stale le t so link on bf bh = record {
    leaf_page = record {
      top = f;
      rest = below;
      run = at_leaf get free_dbi init (Pick.by_key c) room f below stale t;
      tree = t;
      linked = link;
      on = on;
    };
    sorted = so;
    before = bf;
    behind = bh;
    whole = refl;
  }
  descend_key (suc h) zero f below stale le t so link on bf bh = absurd (omega arith)
  descend_key (suc h) (suc room) f below stale le t so link on bf bh =
      let s = step h f below stale t so link on bf bh in
      let g : Frame = record f { ki = s.index } in
      let o =
        descend_key h room (record { page = s.page; ki = 0 }) (g ∷ below) s.later (omega arith)
          s.path.0 s.sorted s.path.2 s.path.3 s.before s.behind in
      record {
        leaf_page = record {
          top = o.leaf_page.top;
          rest = o.leaf_page.rest;
          run = rw (search_root, s.run) o.leaf_page.run;
          tree = o.leaf_page.tree;
          linked = o.leaf_page.linked;
          on = o.leaf_page.on;
        };
        sorted = o.sorted;
        before = o.before;
        behind = o.behind;
        whole = o.whole ∙ around_at get (suc h) (entries get h s.page) g below s.path.2;
      }
