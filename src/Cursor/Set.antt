-- ===== src/Cursor/Set.antt =====
-- `mdb_cursor_set` for MDB_SET, MDB_SET_KEY and MDB_SET_RANGE, for a database without MDB_DUPSORT. As
-- in `mdb_cursor_get`, `exactp` is NULL for MDB_SET_RANGE only. `cmp` is `md_cmp`.
use sam_lmdb_rs.Base.{
  ℕ, ◌-◌, ◌⊎◌, Option, none, some, Bool, true, false, ◌&&◌, ◌||◌, not, List, [], ◌∷◌, length,
  Ordering, if◌then◌else◌, ltb, ◌==◌, ◌>>=◌,
}
use sam_lmdb_rs.Base.Int.{ℤ, negsuc}
use sam_lmdb_rs.Env.{is_success}
use sam_lmdb_rs.Node.{node_search}
use sam_lmdb_rs.Cursor.{
  Leaf, Nodes, branch, leaf, overflow, Page, Frame, Cursor, numkeys, notfound, sibling, Sibling,
  moved, no_more, lost,
}
use sam_lmdb_rs.Cursor.Search.{Database, Pick, page_search}
use sam_lmdb_rs.Cursor.Move.{Outcome, without, leaf_at, deliver}

pub data SetOp : Type 0 where
  set set_key set_range : SetOp

abbrev pub is_range : SetOp → Bool
is_range set_range = true
is_range set_key = false
is_range set = false

-- MDB_BAD_VALSIZE (-30781)
abbrev pub bad_valsize : ℤ
bad_valsize = negsuc 30780

-- MDB_SET leaves the key of the caller, which matches
abbrev pub keep_key : SetOp → List ℕ → Leaf → Leaf
keep_key set key e = record e { key = key }
keep_key set_key key e = e
keep_key set_range key e = e

-- the answer of `md_cmp` for a node of a leaf page
abbrev pub answer : (List ℕ → Ordering) → Nodes → ℕ → Ordering
answer c ns i = elim (leaf_at ns i) [ none ↦ Ordering.eq | some e ↦ c e.key ]

module _ (get : ℕ → ℤ ⊎ Page) (db : Database) (cmp : List ℕ → List ℕ → Ordering) (key : List ℕ)
    (op : SetOp) where
  -- from `set1` on
  unfoldable pub set1 : Cursor → Option Outcome
  unfolding deliver
  set1 c = elim c.stack [
    | [] ↦ none
    | f ∷ rest ↦ leaf_at f.page.nodes f.ki >>= λ e.
        deliver get (record c { initialized = true; eof = false }) (keep_key op key e)
  ]

  unfoldable pub no_leaf : Cursor → Sibling → Option Outcome
  unfolding set1
  no_leaf c (moved frames) = set1 (record c { stack = frames })
  no_leaf c no_more = some (without notfound (record c { eof = true }))
  no_leaf c (lost rc frames) =
      some (without rc (record c { stack = frames; initialized = false; eof = true }))

  -- from `set2` on
  unfoldable pub set2 : Cursor → Option Outcome
  unfolding set1 no_leaf node_search sibling
  set2 c = elim c.stack [
    | [] ↦ none
    | f ∷ rest ↦ node_search true (numkeys f.page) (answer (cmp key) f.page.nodes) >>= λ found.
        let frames : List Frame = record f { ki = found.index } ∷ rest in
        let c' : Cursor = record c { stack = frames } in
        if not (is_range op) && not found.exact
        then some (without notfound c')
        else if not found.present
        then (sibling get true frames >>= no_leaf c')
        else set1 c'
  ]

  -- the page search, and `set2` on the page
  unfoldable pub set_search : Cursor → Option Outcome
  unfolding page_search set2
  set_search c = page_search get db (Pick.by_key (cmp key)) c >>= λ r.
      if is_success r.0 then set2 r.1 else some (without r.0 r.1)

  -- whether some parent has a right sibling
  unfoldable pub any_right : List Frame → Bool
  any_right [] = false
  any_right (f ∷ rest) = any_right rest || (numkeys f.page == 0 || ltb f.ki (numkeys f.page - 1))

  -- the key is not on the page
  unfoldable pub off_page : (above : Bool) → Cursor → Frame → List Frame → Option Outcome
  unfolding set1 set_search any_right
  off_page above c f rest =
      if above && not (any_right rest)
      then some (without notfound (record c { stack = record f { ki = numkeys f.page } ∷ rest }))
      else elim rest [
        | g ∷ gs ↦ set_search c
        | [] ↦
            let c' : Cursor = record c { stack = record f { ki = 0 } ∷ [] } in
            if is_range op then set1 c' else some (without notfound c')
      ]

  abbrev pub at_index : Cursor → Frame → List Frame → ℕ → Cursor
  at_index c f rest i = record c { stack = record f { ki = i } ∷ rest }

  -- "See if we're already on the right page"
  unfoldable pub on_page : Cursor → Frame → List Frame → List Leaf → Option Outcome
  unfolding set1 set2 off_page
  on_page c f rest [] = some (without notfound (at_index c f rest 0))
  on_page c f rest (e ∷ es) =
      let n = length (e ∷ es) in
      elim (cmp key e.key) [
        | Ordering.eq ↦ set1 (at_index c f rest 0)
        | Ordering.lt ↦ off_page false c f rest
        | Ordering.gt ↦
            if not (ltb 1 n)
            then off_page true c f rest
            else elim (answer (cmp key) (leaf (e ∷ es)) (n - 1)) [
              | Ordering.eq ↦ set1 (at_index c f rest (n - 1))
              | Ordering.gt ↦ off_page true c f rest
              | Ordering.lt ↦ elim (ltb f.ki n) [
                | false ↦ set2 (record c { eof = false })
                | true ↦ elim (answer (cmp key) (leaf (e ∷ es)) f.ki) [
                  | Ordering.eq ↦ set1 c
                  | _ ↦ set2 (record c { eof = false })
                ]
              ]
            ]
      ]

  -- `mdb_cursor_set`
  unfoldable pub cursor_set : Cursor → Option Outcome
  unfolding on_page set_search
  cursor_set c =
      if length key == 0
      then some (without bad_valsize c)
      else if not c.initialized
      then set_search (record c { stack = [] })
      else elim c.stack [
        | [] ↦ none
        | f ∷ rest ↦ elim f.page.nodes [
          | leaf es ↦ on_page c f rest es
          | branch ns ↦ none
          | overflow b ↦ none
        ]
      ]
