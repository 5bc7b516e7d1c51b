-- ===== src/Node.antt =====
-- liblmdb/mdb.c: the nodes of a page. `mdb_node_search` finds a key by binary search, `mdb_node_del`
-- removes a node and closes the gap. `mem` gives the bytes of the page by offset and `mp_ptrs` the
-- entries of the pointer array, which lies between the header and `mp_lower`.
pub mod Search
pub mod Shift
pub mod Delete
pub mod Add
pub mod Written
pub mod Insert
use sam_lmdb_rs.Base.{
  ℕ, zero, suc, ◌+◌, ◌-◌, ◌*◌, ◌/◌, ◌%◌, ◌^◌, Option, none, some, Bool, true, false, ◌&&◌, not,
  if◌then◌else◌, ltb, leb, ◌==◌, Ordering,
}
use sam_lmdb_rs.Base.Arrays.{store}

-- PAGEHDRSZ and NODESIZE of a 64-bit build; PAGEBASE is 0 (MDB_DEVEL is off)
abbrev pub pagehdrsz : ℕ
pagehdrsz = 16

abbrev pub nodesize : ℕ
nodesize = 8

-- MDB_page, with two of its flags
pub record Page : Type 0 where
  pub is_leaf : Bool
  pub is_leaf2 : Bool
  pub mp_lower : ℕ
  pub mp_upper : ℕ
  pub mp_ptrs : ℕ → ℕ
  pub mem : ℕ → ℕ

-- indx_t arithmetic: uint16_t
abbrev pub u16 : ℕ → ℕ
u16 n = n % 2 ^ 16

-- NUMKEYS, SIZELEFT
abbrev pub numkeys : Page → ℕ
numkeys p = (p.mp_lower - pagehdrsz) / 2

abbrev pub sizeleft : Page → ℕ
sizeleft p = u16 (p.mp_upper + 2 ^ 16 - p.mp_lower)

-- EVEN
abbrev pub even : ℕ → ℕ
even n = (n + 1) / 2 * 2

-- an `unsigned short` of the page
abbrev pub short : (ℕ → ℕ) → ℕ → ℕ
short mem at = mem at + 256 * mem (at + 1)

-- the fields of the MDB_node at an offset: NODEDSZ from mn_lo and mn_hi, mn_flags, mn_ksize
abbrev pub nodedsz : (ℕ → ℕ) → ℕ → ℕ
nodedsz mem at = short mem at + 2 ^ 16 * short mem (at + 2)

abbrev pub mn_flags : (ℕ → ℕ) → ℕ → ℕ
mn_flags mem at = short mem (at + 4)

abbrev pub mn_ksize : (ℕ → ℕ) → ℕ → ℕ
mn_ksize mem at = short mem (at + 6)

-- `memmove(dst, src, n)` inside the page
abbrev pub memmove : (ℕ → ℕ) → (dst src n : ℕ) → ℕ → ℕ
memmove mem dst src n x = if leb dst x && ltb x (dst + n) then mem (src + (x - dst)) else mem x

-- The loops of `mdb_node_search`. `probe i` is the sign of `cmp(key, &nodekey)` at node `i`. `high`
-- is the C variable plus one, since that can be -1. The result is `(i, rc)`; `none` is lack of fuel.
unfoldable pub search_loop :
    (ℕ → Ordering) → ℕ → (low high i : ℕ) → Ordering → Option (ℕ × Ordering)
search_loop probe zero low high i rc = none
search_loop probe (suc fuel) low high i rc = elim (ltb low high) [
  | false ↦ some (i, rc)
  | true ↦
      let mid = (low + (high - 1)) / 2 in
      elim (probe mid) [
        | Ordering.eq ↦ some (mid, Ordering.eq)
        | Ordering.gt ↦ search_loop probe fuel (mid + 1) high mid Ordering.gt
        | Ordering.lt ↦ search_loop probe fuel low mid mid Ordering.lt
      ]
]

-- what `mdb_node_search` returns: `*exactp`, the index stored in the cursor, and whether a node is
-- returned (otherwise NULL)
pub record Found : Type 0 where
  pub exact : Bool
  pub index : ℕ
  pub present : Bool

abbrev pub is_eq : Ordering → Bool
is_eq Ordering.eq = true
is_eq _ = false

abbrev pub finish_search : ℕ → ℕ × Ordering → Found
finish_search nkeys (i, rc) =
    let index : ℕ = elim rc [ Ordering.gt ↦ i + 1 | _ ↦ i ] in
    record { exact = is_eq rc && ltb 0 nkeys; index = index; present = ltb index nkeys }

-- `mdb_node_search`; on a branch page the first key is not looked at.
unfoldable pub node_search : (leaf : Bool) → ℕ → (ℕ → Ordering) → Option Found
unfolding search_loop
node_search leaf nkeys probe =
    elim (search_loop probe (suc nkeys) (if leaf then 0 else 1) nkeys 0 Ordering.eq) [
      | none ↦ none
      | some r ↦ some (finish_search nkeys r)
    ]

-- the size of the node at an offset, as `mdb_node_del` computes it in an `unsigned int`
unfoldable pub node_size : Bool → (ℕ → ℕ) → ℕ → ℕ
node_size leaf mem at =
    let base = nodesize + mn_ksize mem at in
    even (
      if leaf then (if mn_flags mem at % 2 == 1 then base + 8 else base + nodedsz mem at) else base)
    % 2 ^ 32

-- The loop of `mdb_node_del` over the pointers, with `n` rounds to go.
unfoldable pub del_loop : (indx ptr sz : ℕ) → ℕ → (i j : ℕ) → (ℕ → ℕ) → ℕ → ℕ
del_loop indx ptr sz zero i j ptrs = ptrs
del_loop indx ptr sz (suc n) i j ptrs =
    let moved = if ltb (ptrs i) ptr then u16 (ptrs i + sz) else ptrs i in
    let next = if i == indx then ptrs else store ptrs j moved in
    let j' = if i == indx then j else j + 1 in del_loop indx ptr sz n (i + 1) j' next

-- `mdb_node_del`; `none` is the failed assertion.
unfoldable pub node_del : Page → (indx ksize : ℕ) → Option Page
unfolding node_size del_loop
node_del mp indx ksize =
    let n = numkeys mp in
    let base = pagehdrsz + indx * ksize in
    let ptr = mp.mp_ptrs indx in
    let sz = node_size mp.is_leaf mp.mem ptr in
    if not (ltb indx n)
    then none
    else if mp.is_leaf2
    then some (record mp {
      mem = memmove mp.mem base (base + ksize) ((n - 1 - indx) * ksize);
      mp_lower = u16 (mp.mp_lower + 2 ^ 16 - 2);
      mp_upper = u16 (mp.mp_upper + 2 ^ 16 + ksize - 2);
    })
    else some (record mp {
      mp_ptrs = del_loop indx ptr sz n 0 0 mp.mp_ptrs;
      mem = memmove mp.mem (mp.mp_upper + sz) mp.mp_upper (ptr - mp.mp_upper);
      mp_lower = u16 (mp.mp_lower + 2 ^ 16 - 2);
      mp_upper = u16 (mp.mp_upper + sz);
    })
