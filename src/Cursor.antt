-- ===== src/Cursor.antt =====
-- liblmdb/mdb.c: how a cursor moves over the tree of pages, for a database without MDB_DUPSORT. A
-- page is seen as the list of its nodes. `get` is `mdb_page_get` of the transaction. The stack of a
-- cursor is a list of frames, the top first; `mc_snum` is its length.
pub mod Tree
pub mod Siblings
pub mod Search
pub mod Move
pub mod Walk
pub mod Back
pub mod Ends
pub mod Start
pub mod Get
pub mod Set
pub mod Sorted
pub mod Descend
pub mod Located
pub mod LeafSearch
pub mod Lookup
pub mod Falls
pub mod OnPage
pub mod Reposition
pub mod Value
use sam_lmdb_rs.Base.{
  ℕ, zero, suc, ◌+◌, ◌-◌, ◌%◌, ◌^◌, ◌⊎◌, inl, inr, Option, none, some, Bool, true, false, ◌&&◌,
  ◌||◌, not, List, [], ◌∷◌, length, take, get_elem?, Ordering, if◌then◌else◌, ltb, leb, ◌==◌, ◌>>=◌,
}
use sam_lmdb_rs.Base.Int.{ℤ, pos, negsuc}
use sam_lmdb_rs.Node.{node_search, Found, u16}
use mathlib.Core.List.{reverse}

-- the data of a leaf node: in the node, or (F_BIGDATA) the number of an overflow page and the size
pub data Content : Type 0 where
  inline : List ℕ → Content
  big : (pgno size : ℕ) → Content

pub record Leaf : Type 0 where
  pub key : List ℕ
  pub content : Content

pub record Branch : Type 0 where
  pub key : List ℕ
  pub pgno : ℕ

-- what the flags P_BRANCH, P_LEAF and P_OVERFLOW tell of a page, and its nodes or bytes
pub data Nodes : Type 0 where
  branch : List Branch → Nodes
  leaf : List Leaf → Nodes
  overflow : List ℕ → Nodes

pub record Page : Type 0 where
  pub mp_pgno : ℕ
  pub nodes : Nodes

-- NUMKEYS
abbrev pub count : Nodes → ℕ
count (branch ns) = length ns
count (leaf es) = length es
count (overflow b) = 0

abbrev pub numkeys : Page → ℕ
numkeys p = count p.nodes

-- NODEPGNO(NODEPTR(p, i)); `none` is an index past the end, or a page that is no branch
abbrev pub pgno_at : Nodes → ℕ → Option ℕ
pgno_at (branch ns) i = elim (get_elem? ns i) [ none ↦ none | some n ↦ some n.pgno ]
pgno_at (leaf es) i = none
pgno_at (overflow b) i = none

abbrev pub child : Page → ℕ → Option ℕ
child p i = pgno_at p.nodes i

-- an entry of `mc_pg` and the same entry of `mc_ki`
pub record Frame : Type 0 where
  pub page : Page
  pub ki : ℕ

-- MDB_cursor, with C_INITIALIZED, C_EOF and C_DEL of its flags
pub record Cursor : Type 0 where
  pub stack : List Frame
  pub initialized : Bool
  pub eof : Bool
  pub del : Bool

abbrev pub success : ℤ
success = pos 0

-- MDB_NOTFOUND (-30798), MDB_CORRUPTED (-30796), MDB_CURSOR_FULL (-30787), MDB_BAD_TXN (-30782)
abbrev pub notfound : ℤ
notfound = negsuc 30797

abbrev pub corrupted : ℤ
corrupted = negsuc 30795

abbrev pub cursor_full : ℤ
cursor_full = negsuc 30786

abbrev pub bad_txn : ℤ
bad_txn = negsuc 30781

-- What `mdb_cursor_sibling` does: `lost` is a page that `mdb_page_get` does not find.
pub data Sibling : Type 0 where
  moved : List Frame → Sibling
  no_more : Sibling
  lost : ℤ → List Frame → Sibling

-- `mc_ki[top] + 1 >= NUMKEYS` or `mc_ki[top] == 0`
abbrev pub at_edge : (right : Bool) → Frame → Bool
at_edge right f = if right then leb (numkeys f.page) (f.ki + 1) else f.ki == 0

abbrev pub shift : (right : Bool) → Frame → Frame
shift right f = record f { ki = if right then u16 (f.ki + 1) else f.ki - 1 }

-- where the cursor stands on a page that it moves to
abbrev pub entry_index : (right : Bool) → Page → ℕ
entry_index right p = if right then 0 else u16 (numkeys p + 2 ^ 16 - 1)

module _ (get : ℕ → ℤ ⊎ Page) where
  -- from NODEPTR on, with the parent on top
  unfoldable pub push_child : (right : Bool) → List Frame → Option Sibling
  push_child right [] = none
  push_child right (f ∷ rest) = child f.page f.ki >>= λ pgno. elim (get pgno) [
    | inl rc ↦ some (lost rc (f ∷ rest))
    | inr mp ↦ some (moved (record { page = mp; ki = entry_index right mp } ∷ f ∷ rest))
  ]

  -- what follows the nested call; where a page is lost, one pop is undone, and what stands above the
  -- stack is `p` as it was
  abbrev pub follow : (right : Bool) → (p : Frame) → Sibling → Option Sibling
  follow right p (moved frames) = push_child right frames
  follow right p no_more = some no_more
  follow right p (lost rc frames) = some (lost rc (p ∷ frames))

  -- `mdb_cursor_sibling`; `none` is the failed assertion. `no_more` leaves the cursor as it was.
  unfoldable pub sibling : (right : Bool) → List Frame → Option Sibling
  unfolding push_child
  sibling right [] = some no_more
  sibling right (f ∷ []) = some no_more
  sibling right (f ∷ p ∷ rest) =
      let up = sibling right (p ∷ rest) in
      elim (at_edge right p) [
        | true ↦ up >>= follow right p
        | false ↦ push_child right (shift right p ∷ rest)
      ]
