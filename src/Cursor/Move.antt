-- ===== src/Cursor/Move.antt =====
-- `mdb_cursor_first`, `mdb_cursor_last`, `mdb_cursor_next` and `mdb_cursor_prev`, and `mdb_node_read`
-- with which they return the data. A result `none` is a failed assertion or a read of no node.
use sam_lmdb_rs.Base.{
  ℕ, ◌+◌, ◌-◌, ◌⊎◌, inl, inr, Option, none, some, Bool, true, false, ◌&&◌, ◌||◌, not, List, [], ◌∷◌,
  length, take, get_elem?, if◌then◌else◌, ltb, leb, ◌==◌, ◌>>=◌,
}
use sam_lmdb_rs.Base.Int.{ℤ}
use sam_lmdb_rs.Env.{is_success}
use sam_lmdb_rs.Node.{u16}
use sam_lmdb_rs.Cursor.{
  Content, inline, big, Leaf, Nodes, branch, leaf, overflow, Page, Frame, Cursor, numkeys, success,
  notfound, sibling, Sibling, moved, no_more, lost,
}
use sam_lmdb_rs.Cursor.Search.{Database, Pick, page_search, last_index}

-- what an operation returns: the code, the cursor, and the key and data if they are set
pub record Outcome : Type 0 where
  pub rc : ℤ
  pub cursor : Cursor
  pub item : Option (List ℕ × List ℕ)

abbrev pub without : ℤ → Cursor → Outcome
without rc c = record { rc = rc; cursor = c; item = none }

-- the node with index `i` of a leaf page
abbrev pub leaf_at : Nodes → ℕ → Option Leaf
leaf_at (leaf es) i = get_elem? es i
leaf_at (branch ns) i = none
leaf_at (overflow b) i = none

-- METADATA of an overflow page
abbrev pub metadata : Page → Option (List ℕ)
metadata p = elim p.nodes [ overflow b ↦ some b | leaf es ↦ none | branch ns ↦ none ]

module _ (get : ℕ → ℤ ⊎ Page) where
  -- `mdb_node_read`
  unfoldable pub node_read : Content → Option (ℤ ⊎ List ℕ)
  node_read (inline v) = some (inr v)
  node_read (big pgno size) = elim (get pgno) [
    | inl rc ↦ some (inl rc)
    | inr omp ↦ metadata omp >>= λ b. some (inr (take size b))
  ]

  -- the end of each operation: the data and the key of a node
  unfoldable pub deliver : Cursor → Leaf → Option Outcome
  unfolding node_read
  deliver c e = node_read e.content >>= λ r. elim r [
    | inl rc ↦ some (without rc c)
    | inr v ↦ some (record { rc = success; cursor = c; item = some (e.key, v) })
  ]

  -- the node that the cursor is at
  unfoldable pub arrive : Cursor → Option Outcome
  unfolding deliver
  arrive c = elim c.stack [ [] ↦ none | f ∷ rest ↦ leaf_at f.page.nodes f.ki >>= deliver c ]

  module _ (db : Database) where
    abbrev pub at : (Page → ℕ) → List Frame → List Frame
    at index [] = []
    at index (f ∷ rest) = record f { ki = index f.page } ∷ rest

    -- the page search of `mdb_cursor_first` and `mdb_cursor_last`, which an initialized cursor on a
    -- single page leaves out
    unfoldable pub search_end : Pick → Cursor → Option (ℤ × Cursor)
    unfolding page_search
    search_end pick c =
        if not c.initialized || ltb 1 (length c.stack)
        then page_search get db pick c
        else some (success, c)

    unfoldable pub cursor_first : Cursor → Option Outcome
    unfolding search_end arrive
    cursor_first c = search_end Pick.first c >>= λ r.
        if is_success r.0
        then arrive (record r.1 { stack = at (λ p. 0) r.1.stack; initialized = true; eof = false })
        else some (without r.0 r.1)

    unfoldable pub cursor_last : Cursor → Option Outcome
    unfolding search_end arrive
    cursor_last c = search_end Pick.last c >>= λ r.
        if is_success r.0
        then arrive (record r.1 {
          stack = at (λ p. last_index (numkeys p)) r.1.stack;
          initialized = true;
          eof = true;
        })
        else some (without r.0 r.1)

    -- the end of `mdb_cursor_next` and of `mdb_cursor_prev`, where a sibling page was sought
    unfoldable pub cross : (eof_at_end : Bool) → Cursor → Sibling → Option Outcome
    unfolding arrive
    cross end c (moved frames) = arrive (record c { stack = frames })
    cross end c no_more = some (without notfound (record c { eof = end || c.eof }))
    cross end c (lost rc frames) =
        some (without rc (record c { stack = frames; initialized = false; eof = end }))

    -- the part of `mdb_cursor_next` behind the test of C_EOF
    unfoldable pub step_right : Cursor → Frame → List Frame → Option Outcome
    unfolding cross sibling
    step_right c f rest =
        if c.del
        then arrive (record c { del = false })
        else if leb (numkeys f.page) (f.ki + 1)
        then (sibling get true (f ∷ rest) >>= cross true c)
        else arrive (record c { stack = record f { ki = u16 (f.ki + 1) } ∷ rest })

    -- `mdb_cursor_next`; `next_dup` is `op == MDB_NEXT_DUP`.
    unfoldable pub cursor_next : (next_dup : Bool) → Cursor → Option Outcome
    unfolding cursor_first step_right
    cursor_next next_dup c =
        if c.del && next_dup
        then some (without notfound c)
        else if not c.initialized
        then cursor_first c
        else elim c.stack [
          | [] ↦ none
          | f ∷ rest ↦
              if c.eof && (not (numkeys f.page == 0) && leb (numkeys f.page) (f.ki + 1))
              then some (without notfound c)
              else step_right (record c { eof = false }) f rest
        ]

    -- the part of `mdb_cursor_prev` with an initialized cursor
    unfoldable pub step_left : Cursor → Option Outcome
    unfolding cross sibling
    step_left c =
        let c' = record c { eof = false; del = false } in
        elim c.stack [
          | [] ↦ none
          | f ∷ rest ↦
              if f.ki == 0
              then (sibling get false (f ∷ rest) >>= cross false c')
              else arrive (record c' { stack = record f { ki = f.ki - 1 } ∷ rest })
        ]

    -- `mdb_cursor_prev`
    unfoldable pub cursor_prev : Cursor → Option Outcome
    unfolding cursor_last step_left
    cursor_prev c =
        if c.initialized
        then step_left c
        else cursor_last c >>= λ o.
            if is_success o.rc
            then step_left (record o.cursor {
              stack = elim o.cursor.stack [
                | [] ↦ []
                | f ∷ rest ↦ record f { ki = u16 (f.ki + 1) } ∷ rest
              ];
            })
            else some (without o.rc o.cursor)
