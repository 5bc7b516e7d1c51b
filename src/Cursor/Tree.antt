-- ===== src/Cursor/Tree.antt =====
-- The entries below a page and around a stack of frames: what a cursor is meant to walk over.
use sam_lmdb_rs.Base.{
  ℕ, zero, suc, ◌+◌, ◌^◌, ◌≤◌, ◌<◌, ◌≡◌, ◌⊎◌, inl, inr, some, List, [], ◌∷◌, ◌++◌, length, map,
  take, drop, get_elem?, arith, refl, ap, ◌∙◌, sym, subst, length-map, append_assoc,
}
use sam_lmdb_rs.Base.Int.{ℤ}
use sam_lmdb_rs.Cursor.{
  Leaf, Branch, Nodes, branch, leaf, overflow, Page, Frame, count, numkeys, pgno_at, child,
}

module _ {ℓ} {A : Type ℓ} where
  unfoldable pub concat : List (List A) → List A
  concat [] = []
  concat (xs ∷ xss) = xs ++ concat xss

module _ (get : ℕ → ℤ ⊎ Page) where
  -- the page of a branch node; a page that is missing has no nodes
  abbrev pub page_of : Branch → Page
  page_of n = elim (get n.pgno) [
    | inl rc ↦ record { mp_pgno = n.pgno; nodes = leaf [] }
    | inr p ↦ p
  ]

  -- the entries of a page of height `h`, in one list for each of its nodes
  unfoldable pub chunks_of : ℕ → Nodes → List (List Leaf)
  unfolding concat
  chunks_of zero (leaf es) = map (λ e. e ∷ []) es
  chunks_of zero (branch ns) = []
  chunks_of zero (overflow b) = []
  chunks_of (suc h) (branch ns) = map (λ n. concat (chunks_of h (page_of n).nodes)) ns
  chunks_of (suc h) (leaf es) = []
  chunks_of (suc h) (overflow b) = []

  abbrev pub chunks : ℕ → Page → List (List Leaf)
  chunks h p = chunks_of h p.nodes

  abbrev pub entries : ℕ → Page → List Leaf
  entries h p = concat (chunks h p)

  -- a page of a tree of height `h`, where no page is empty and no page is missing
  unfoldable pub IsTree : ℕ → Page → Type 0
  IsTree zero p = (es : List Leaf) × (p.nodes ≡ leaf es) × (0 < length es) × (length es < 2 ^ 16)
  IsTree (suc h) p =
      (ns : List Branch) × (p.nodes ≡ branch ns)
      × (1 < length ns)
      × (length ns < 2 ^ 16)
      × ((i : ℕ) (n : Branch)
          → get_elem? ns i ≡ some n
          → (q : Page) × (get n.pgno ≡ inr q) × IsTree h q)

  -- the page is the one below the node where the frame above it stands
  abbrev pub Linked : ℕ → Page → List Frame → Type 0
  Linked h q [] = Unit
  Linked h q (p ∷ rest) = get_elem? (chunks (suc h) p.page) p.ki ≡ some (entries h q)

  -- the frames of a path up to the root, from a page of height `h`
  abbrev pub OnPath : ℕ → List Frame → Type 0
  OnPath h [] = Unit
  OnPath h (f ∷ rest) =
      IsTree h f.page × (f.ki < numkeys f.page) × Linked h f.page rest × OnPath (suc h) rest

  -- the entries behind the nodes where the frames stand, and those before them
  abbrev pub remaining : ℕ → List Frame → List Leaf
  remaining h [] = []
  remaining h (f ∷ rest) = concat (drop (f.ki + 1) (chunks h f.page)) ++ remaining (suc h) rest

  abbrev pub preceding : ℕ → List Frame → List Leaf
  preceding h [] = []
  preceding h (f ∷ rest) = preceding (suc h) rest ++ concat (take f.ki (chunks h f.page))

module _ {ℓ} {A : Type ℓ} where
  pub get_elem?-lt : (xs : List A) (i : ℕ) → i < length xs → (x : A) × (get_elem? xs i ≡ some x)
  get_elem?-lt [] i h = absurd (omega arith)
  get_elem?-lt (x ∷ xs) zero h = (x, refl)
  get_elem?-lt (x ∷ xs) (suc i) h = get_elem?-lt xs i (omega arith)

  drop-suc :
      (xs : List A) (i : ℕ) (x : A) → get_elem? xs i ≡ some x → drop i xs ≡ x ∷ drop (suc i) xs
  drop-suc [] i x e = cc
  drop-suc (y ∷ xs) zero x e = cc
  drop-suc (y ∷ xs) (suc i) x e = drop-suc xs i x e

  take-suc :
      (xs : List A) (i : ℕ) (x : A)
      → get_elem? xs i ≡ some x
      → take (suc i) xs ≡ take i xs ++ x ∷ []
  take-suc [] i x e = cc
  take-suc (y ∷ xs) zero x e = cc
  take-suc (y ∷ xs) (suc i) x e = ap (λ l. y ∷ l) (take-suc xs i x e)

  pub drop-get_elem? :
      (xs : List A) (i : ℕ) (x : A) → get_elem? xs i ≡ some x → drop i xs ≡ x ∷ drop (i + 1) xs
  drop-get_elem? xs i x e =
      let n : suc i ≡ i + 1 = omega arith in drop-suc xs i x e ∙ ap (λ j. x ∷ drop j xs) n

  pub take-get_elem? :
      (xs : List A) (i : ℕ) (x : A)
      → get_elem? xs i ≡ some x
      → take (i + 1) xs ≡ take i xs ++ x ∷ []
  take-get_elem? xs i x e =
      let n : i + 1 ≡ suc i = omega arith in ap (λ j. take j xs) n ∙ take-suc xs i x e

  pub drop_all : (xs : List A) (i : ℕ) → length xs ≤ i → drop i xs ≡ []
  drop_all [] zero h = refl
  drop_all [] (suc i) h = refl
  drop_all (x ∷ xs) zero h = absurd (omega arith)
  drop_all (x ∷ xs) (suc i) h = drop_all xs i (omega arith)

  pub take_whole : (xs : List A) (i : ℕ) → length xs ≤ i → take i xs ≡ xs
  take_whole [] zero h = refl
  take_whole [] (suc i) h = refl
  take_whole (x ∷ xs) zero h = absurd (omega arith)
  take_whole (x ∷ xs) (suc i) h = ap (λ l. x ∷ l) (take_whole xs i (omega arith))

  pub concat-append : (xss yss : List (List A)) → concat (xss ++ yss) ≡ concat xss ++ concat yss
  unfolding concat
  concat-append [] yss = refl
  concat-append (xs ∷ xss) yss =
      rw (concat-append xss yss, append_assoc xs (concat xss) (concat yss)) refl

pub get_elem?-map :
    {A : Type 0} {B : Type 0} (f : A → B) (xs : List A) (i : ℕ) (x : A)
    → get_elem? xs i ≡ some x
    → get_elem? (map f xs) i ≡ some (f x)
get_elem?-map f [] i x e = cc
get_elem?-map f (y ∷ xs) zero x e = cc
get_elem?-map f (y ∷ xs) (suc i) x e = get_elem?-map f xs i x e

module _ (get : ℕ → ℤ ⊎ Page) where
  pub length-chunks : (h : ℕ) (p : Page) → IsTree get h p → length (chunks get h p) ≡ numkeys p
  unfolding chunks_of IsTree
  length-chunks zero p (es, e, _, _) =
      subst (λ t. length (chunks_of get 0 t) ≡ count t) (sym e) (length-map es _)
  length-chunks (suc h) p (ns, e, _, _, _) =
      subst (λ t. length (chunks_of get (suc h) t) ≡ count t) (sym e) (length-map ns _)

  -- the page below a node
  pub record Child (h : ℕ) (p : Page) (i : ℕ) : Type 0 where
    pub pgno : ℕ
    pub below : Page
    pub at : child p i ≡ some pgno
    pub found : get pgno ≡ inr below
    pub tree : IsTree get h below
    pub chunk : get_elem? (chunks get (suc h) p) i ≡ some (entries get h below)

  pub child_lem : (h : ℕ) (p : Page) (i : ℕ) → IsTree get (suc h) p → i < numkeys p → Child h p i
  unfolding chunks_of IsTree
  child_lem h p i (ns, e, many, few, each) lt =
      let (n, en) = get_elem?-lt ns i (subst (λ t. i < count t) e lt) in
      let (q, eq, t) = each i n en in
      record {
        pgno = n.pgno;
        below = q;
        at = ap (λ t. pgno_at t i) e ∙ rw (pgno_at, en) refl;
        found = eq;
        tree = t;
        chunk =
            ap (λ t. get_elem? (chunks_of get (suc h) t) i) e
            ∙ get_elem?-map (λ n. concat (chunks_of get h (page_of get n).nodes)) ns i n en
            ∙ rw (page_of, eq) refl;
      }

  pub numkeys_small : (h : ℕ) (p : Page) → IsTree get h p → numkeys p < 2 ^ 16
  unfolding IsTree
  numkeys_small zero p (es, e, many, few) = subst (λ t. count t < 2 ^ 16) (sym e) few
  numkeys_small (suc h) p (ns, e, many, few, each) = subst (λ t. count t < 2 ^ 16) (sym e) few

  pub numkeys_some : (h : ℕ) (p : Page) → IsTree get h p → 0 < numkeys p
  unfolding IsTree
  numkeys_some zero p (es, e, many, few) = subst (λ t. 0 < count t) (sym e) many
  numkeys_some (suc h) p (ns, e, many, few, each) = subst (λ t. 0 < count t) (sym e) (omega arith)
