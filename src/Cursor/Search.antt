-- ===== src/Cursor/Search.antt =====
-- `mdb_page_search` and `mdb_page_search_root`: from the root page down to a leaf page, for a
-- database whose record is up to date (no DB_STALE), without MDB_PS_MODIFY and MDB_PS_ROOTONLY.
use sam_lmdb_rs.Base.{
  ℕ, zero, suc, ◌+◌, ◌-◌, ◌^◌, ◌⊎◌, inl, inr, Option, none, some, Bool, false, ◌&&◌, ◌||◌, not,
  List, [], ◌∷◌, length, get_elem?, Ordering, if◌then◌else◌, ltb, ◌==◌, ◌>>=◌,
}
use sam_lmdb_rs.Base.Int.{ℤ}
use sam_lmdb_rs.Env.{is_success}
use sam_lmdb_rs.Node.{node_search, u16}
use sam_lmdb_rs.Cursor.{
  Branch, Nodes, branch, leaf, overflow, Page, Frame, Cursor, child, success, notfound, corrupted,
  cursor_full, bad_txn,
}
use mathlib.Core.List.{reverse}

-- MDB_PS_FIRST, MDB_PS_LAST, or a key with what `md_cmp(key, &nodekey)` gives for a node's key
pub data Pick : Type 0 where
  first last : Pick
  by_key : (List ℕ → Ordering) → Pick

-- the key of a node
abbrev pub probe : (List ℕ → Ordering) → List Branch → ℕ → Ordering
probe cmp ns i = elim (get_elem? ns i) [ none ↦ Ordering.eq | some n ↦ cmp n.key ]

abbrev pub last_index : ℕ → ℕ
last_index n = u16 (n + 2 ^ 16 - 1)

-- the node to follow; `none` is the failed assertion `i > 0`
unfoldable pub index_for : Pick → List Branch → Option ℕ
unfolding node_search
index_for first ns = some 0
index_for last ns = some (last_index (length ns))
index_for (by_key cmp) ns = node_search false (length ns) (probe cmp ns) >>= λ found.
    if not found.present
    then some (last_index (length ns))
    else if found.exact
    then some found.index
    else if found.index == 0
    then none
    else some (found.index - 1)

-- one round: at an end, or a page to push above the frame `parent`; `stale` holds the entries of
-- `mc_pg` and `mc_ki` above the top, from an earlier position of the cursor
pub data Round : Type 0 where
  stop : ℤ → List Frame → Round
  down : (page parent : Frame) → (below stale : List Frame) → Round

abbrev pub tail : List Frame → List Frame
tail [] = []
tail (f ∷ fs) = fs

-- with MDB_PS_LAST an initialized cursor that is at the last node already keeps the entry above
abbrev pub stays : Pick → (initialized : Bool) → Frame → ℕ → Bool
stays last initialized f i = initialized && f.ki == i
stays first initialized f i = false
stays (by_key cmp) initialized f i = false

module _ (get : ℕ → ℤ ⊎ Page) (free_dbi initialized : Bool) (pick : Pick) where
  unfoldable pub follow_node : (f : Frame) → (below stale : List Frame) → (i : ℕ) → Option Round
  follow_node f below [] i =
      if stays pick initialized f i
      then none
      else child f.page i >>= λ pgno. elim (get pgno) [
        | inl rc ↦ some (stop rc (f ∷ below))
        | inr p ↦ some (down (record { page = p; ki = 0 }) (record f { ki = i }) below [])
      ]
  follow_node f below (g ∷ stale) i =
      if stays pick initialized f i
      then some (down g f below stale)
      else child f.page i >>= λ pgno. elim (get pgno) [
        | inl rc ↦ some (stop rc (f ∷ below))
        | inr p ↦ some (down (record { page = p; ki = 0 }) (record f { ki = i }) below stale)
      ]

  unfoldable pub round : Nodes → (f : Frame) → (below stale : List Frame) → Option Round
  unfolding index_for follow_node
  round (leaf es) f below stale = some (stop success (f ∷ below))
  round (overflow b) f below stale = some (stop corrupted (f ∷ below))
  round (branch ns) f below stale =
      if not (free_dbi || ltb 1 (length ns))
      then none
      else index_for pick ns >>= λ i.
          if ltb i (length ns) then follow_node f below stale i else none

  -- The loop of `mdb_page_search_root`; the stack has room for `room` more pages.
  unfoldable pub search_root :
      (room : ℕ) → (f : Frame) → (below stale : List Frame) → Option (ℤ × List Frame)
  unfolding round
  search_root zero f below stale = round f.page.nodes f below stale >>= λ r. elim r [
    | stop rc frames ↦ some (rc, frames)
    | down page parent below' stale' ↦ some (cursor_full, parent ∷ below')
  ]
  search_root (suc room) f below stale = round f.page.nodes f below stale >>= λ r. elim r [
    | stop rc frames ↦ some (rc, frames)
    | down page parent below' stale' ↦ search_root room page (parent ∷ below') stale'
  ]

-- the root page as the bottom of the stack, and what lies above it
abbrev pub root_frame : (ℕ → ℤ ⊎ Page) → (root : ℕ) → List Frame → ℤ ⊎ (Frame × List Frame)
root_frame get root [] = elim (get root) [
  | inl rc ↦ inl rc
  | inr p ↦ inr (record { page = p; ki = 0 }, [])
]
root_frame get root (g ∷ stale) =
    if g.page.mp_pgno == root
    then inr (g, stale)
    else elim (get root) [ inl rc ↦ inl rc | inr p ↦ inr (record { page = p; ki = g.ki }, stale) ]

-- CURSOR_STACK less the root page
abbrev pub stack_room : ℕ
stack_room = 31

abbrev pub positioned : Cursor → ℤ × List Frame → ℤ × Cursor
positioned c (rc, frames) =
    let ok = is_success rc in
    (rc, record c { stack = frames; initialized = ok || c.initialized; eof = not ok && c.eof })

-- P_INVALID
abbrev pub p_invalid : ℕ
p_invalid = 2 ^ 64 - 1

-- the database and its transaction: whether MDB_TXN_BLOCKED is set, whether it is the freelist, and
-- `md_root`
pub record Database : Type 0 where
  pub blocked : Bool
  pub free_dbi : Bool
  pub md_root : ℕ

-- `mdb_page_search`; `none` is a failed assertion.
unfoldable pub page_search : (ℕ → ℤ ⊎ Page) → Database → Pick → Cursor → Option (ℤ × Cursor)
unfolding search_root
page_search get db pick c =
    if db.blocked
    then some (bad_txn, c)
    else if db.md_root == p_invalid
    then some (notfound, c)
    else if not (ltb 1 db.md_root)
    then none
    else elim (root_frame get db.md_root (reverse c.stack)) [
      | inl rc ↦ some (rc, c)
      | inr (f, stale) ↦
          search_root get db.free_dbi c.initialized pick stack_room f [] stale >>= λ r.
          some (positioned c r)
    ]
