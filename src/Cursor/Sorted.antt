-- ===== src/Cursor/Sorted.antt =====
-- What the comparison of a key with the keys of a tree answers when the tree is sorted, and which
-- child `mdb_page_search_root` follows then.
use sam_lmdb_rs.Base.{
  ℕ, zero, suc, ◌+◌, ◌-◌, ◌^◌, ◌≤◌, ◌<◌, ◌≡◌, ◌↔◌, ◌⊎◌, inl, inr, some, Bool, true, false, List, [],
  ◌∷◌, ◌++◌, length, drop, take, arith, refl, ap, ◌∙◌, Bool-cases, ◌==◌, Ordering,
}
use sam_lmdb_rs.Base.Int.{ℤ}
use sam_lmdb_rs.Node.{node_search, Found}
use sam_lmdb_rs.Node.Search.{Splits, node_search-Returns}
use sam_lmdb_rs.Cursor.{Leaf, Branch, branch, Page, numkeys, child}
use sam_lmdb_rs.Cursor.Tree.{chunks_of, concat}
use sam_lmdb_rs.Cursor.Search.{Pick, probe, index_for, last_index}
use sam_lmdb_rs.Cursor.Set.{answer}

-- the answers `c i` from `first` on: first greater, then at most one equal, then less
abbrev pub Falling : (first n : ℕ) → (ℕ → Ordering) → Type 0
Falling first n c =
    (i j : ℕ) → first ≤ i → i < j → j < n → (c i ≡ Ordering.gt) ⊎ (c j ≡ Ordering.lt)

pub not_hit :
    (c : ℕ → Ordering) (n i : ℕ) (exact : Bool)
    → exact ≡ false
    → i < n
    → (exact ≡ true) ↔ ((i < n) × (c i ≡ Ordering.eq))
    → (c i ≡ Ordering.eq) ⊎ (c i ≡ Ordering.lt)
    → c i ≡ Ordering.lt
not_hit c n i exact e lt here (inr l) = l
not_hit c n i exact e lt here (inl hit) = let t = here.1 (lt, hit) in cc

-- `c` is the comparison with the key that is looked for
module _ (c : List ℕ → Ordering) where
  -- all entries come before the key, or all behind it
  abbrev pub Below : List Leaf → Type 0
  Below [] = Unit
  Below (e ∷ es) = (c e.key ≡ Ordering.gt) × Below es

  abbrev pub Beyond : List Leaf → Type 0
  Beyond [] = Unit
  Beyond (e ∷ es) = (c e.key ≡ Ordering.lt) × Beyond es

  pub append-Below : (xs ys : List Leaf) → Below xs → Below ys → Below (xs ++ ys)
  append-Below [] ys h k = k
  append-Below (x ∷ xs) ys (e, h) k = (e, append-Below xs ys h k)

  pub append-Beyond : (xs ys : List Leaf) → Beyond xs → Beyond ys → Beyond (xs ++ ys)
  append-Beyond [] ys h k = k
  append-Beyond (x ∷ xs) ys (e, h) k = (e, append-Beyond xs ys h k)

  module _ (get : ℕ → ℤ ⊎ Page) where
    -- A node other than the first separates the entries before it, which are less than its key, from
    -- its own and those behind, which are not.
    abbrev pub Separates : (h : ℕ) → (ns : List Branch) → (j : ℕ) → Ordering → Type 0
    Separates h ns j Ordering.lt = Beyond (concat (drop j (chunks_of get (suc h) (branch ns))))
    Separates h ns j Ordering.eq = Below (concat (take j (chunks_of get (suc h) (branch ns))))
    Separates h ns j Ordering.gt = Below (concat (take j (chunks_of get (suc h) (branch ns))))

    unfoldable pub IsSorted : ℕ → Page → Type 0
    IsSorted zero p = Falling 0 (numkeys p) (answer c p.nodes)
    IsSorted (suc h) p =
        ((ns : List Branch)
          → p.nodes ≡ branch ns
          → Falling 1 (length ns) (probe c ns)
            × ((j : ℕ) → 1 ≤ j → j < length ns → Separates h ns j (probe c ns j)))
        × ((i pgno : ℕ) (q : Page) → child p i ≡ some pgno → get pgno ≡ inr q → IsSorted h q)

  -- the node to follow, with the answers at it and at the next one
  pub record Chosen (ns : List Branch) : Type 0 where
    pub index : ℕ
    pub picked : index_for (Pick.by_key c) ns ≡ some index
    pub inside : index < length ns
    pub reached : 1 ≤ index → (probe c ns index ≡ Ordering.gt) ⊎ (probe c ns index ≡ Ordering.eq)
    pub passed : index + 1 < length ns → probe c ns (index + 1) ≡ Ordering.lt

  index_for_lem :
      (ns : List Branch)
      → (found : Found) → node_search false (length ns) (probe c ns) ≡ some found
      → (order : Falling 1 (length ns) (probe c ns)) → Splits (probe c ns) 1 (length ns) order found
      → 1 < length ns
      → length ns < 2 ^ 16
      → Chosen ns
  unfolding index_for
  index_for_lem ns found run order s many few = elim (Bool-cases found.present) [
    | inr absent ↦
        let n : last_index (length ns) ≡ length ns - 1 = omega arith in
        let full : found.index ≡ length ns = ground (arith, s.bounded, s.found, absent) in
        record {
          index = length ns - 1;
          picked = rw (index_for, run, absent) (ap some n);
          inside = omega arith;
          reached = λ h. inl (s.before (length ns - 1) h (omega arith));
          passed = λ h. absurd (omega arith);
        }
    | inl present ↦ elim (Bool-cases found.exact) [
      | inl exact ↦
          let (lt, hit) = s.here.0 exact in
          record {
            index = found.index;
            picked = rw (index_for, run, present, exact) refl;
            inside = lt;
            reached = λ h. inr hit;
            passed = λ h. s.after (found.index + 1) (omega arith) h;
          }
      | inr inexact ↦
          let lt = s.found.0 present in
          let zero_not : (found.index == 0) ≡ false = ground (arith, s.bounded) in
          let back : found.index - 1 + 1 ≡ found.index = omega (arith, s.bounded) in
          record {
            index = found.index - 1;
            picked = rw (index_for, run, present, inexact, zero_not) refl;
            inside = omega arith;
            reached = λ h. inl (s.before (found.index - 1) h (omega arith));
            passed = λ h.
                ap (probe c ns) back
                ∙ not_hit (probe c ns) (length ns) found.index found.exact inexact lt s.here
                    (s.reached lt);
          }
    ]
  ]

  pub choose :
      (ns : List Branch)
      → Falling 1 (length ns) (probe c ns)
      → 1 < length ns
      → length ns < 2 ^ 16
      → Chosen ns
  choose ns order many few =
      let (found, run, s) = node_search-Returns false (length ns) (probe c ns) many order in
      index_for_lem ns found run order s many few
