-- ===== src/Pages.antt =====
-- liblmdb/mdb.c: `mdb_page_get`, which finds a page in the lists of the transaction and its
-- parents, or in the memory map, without MDB_VL32. The result says where the page is, not what it
-- holds.
pub mod Latest
use sam_lmdb_rs.Base.{
  ℕ, ◌+◌, ◌*◌, ◌%◌, ◌^◌, Option, none, some, Bool, true, false, ◌&&◌, List, [], ◌∷◌, if◌then◌else◌,
  leb, ◌==◌, ◌>>=◌,
}
use sam_lmdb_rs.Idl.{Idl, read, midl_search}
use sam_lmdb_rs.Id2.{Id2, Sorted, mid2l_search}

-- the fields `mt_spill_pgs` and `mt_u.dirty_list` of MDB_txn
pub record Txn : Type 0 where
  pub spill_pgs : Option Idl
  pub dirty_list : Sorted Id2

-- the pointer of a dirty page, or the place of the page in the map, with `*lvl`; or MDB_PAGE_NOTFOUND
pub data Place : Type 0 where
  dirty : (mptr level : ℕ) → Place
  mapped : (level : ℕ) → Place
  not_found : Place

-- what one transaction of the chain has of the page
pub data Hit : Type 0 where
  spilled nothing : Hit
  dirtied : ℕ → Hit

unfoldable pub in_spill : Idl → ℕ → Option Bool
unfolding midl_search
in_spill l pn = midl_search l pn >>= λ x.
    if leb x l.count then (read l x >>= λ id. some (id == pn)) else some false

unfoldable pub in_dirty : Sorted Id2 → ℕ → Option Hit
unfolding mid2l_search
in_dirty dl pgno =
    if dl.count == 0
    then some nothing
    else mid2l_search dl pgno >>= λ x. some (
        if leb x dl.count && ((dl.entries x).mid == pgno)
        then dirtied (dl.entries x).mptr
        else nothing)

abbrev pub spill_test : Option Idl → ℕ → Option Bool
spill_test none pn = some false
spill_test (some l) pn = in_spill l pn

unfoldable pub hit : Txn → ℕ → Option Hit
unfolding in_spill in_dirty
hit t pgno = spill_test t.spill_pgs (pgno * 2 % 2 ^ 64) >>= λ s.
    if s then some spilled else in_dirty t.dirty_list pgno

-- The loop over the transaction and its parents; the result `some none` is that none has the page.
unfoldable pub chain_loop : (level : ℕ) → List Txn → ℕ → Option (Option Place)
unfolding hit
chain_loop level [] pgno = some none
chain_loop level (t ∷ ts) pgno =
    let up = chain_loop (level + 1) ts pgno in
    hit t pgno >>= λ h. elim h [
      | spilled ↦ some (some (mapped level))
      | dirtied p ↦ some (some (dirty p level))
      | nothing ↦ up
    ]

-- behind the loop
abbrev pub settle : (mt_next_pgno pgno : ℕ) → Option Place → Place
settle next pgno (some p) = p
settle next pgno none = if leb next pgno then not_found else mapped 0

-- `mdb_page_get`; `from_map` is whether C_ORIG_RDONLY or C_WRITEMAP is set. `none` is a read
-- outside a list.
unfoldable pub page_get : (from_map : Bool) → List Txn → (mt_next_pgno pgno : ℕ) → Option Place
unfolding chain_loop
page_get true chain next pgno = some (settle next pgno none)
page_get false chain next pgno = chain_loop 1 chain pgno >>= λ p. some (settle next pgno p)
