-- ===== src/Node/Add.antt =====
-- `mdb_node_add`, with the sizes its callers compute. The sizes of objects in memory are below 2^63,
-- where the sums in `size_t` and the casts to `ssize_t` do not wrap.
use sam_lmdb_rs.Base.{
  ℕ, ◌+◌, ◌-◌, ◌*◌, ◌/◌, ◌%◌, ◌^◌, Option, none, some, Bool, true, false, ◌&&◌, not, if◌then◌else◌,
  ltb, leb, ◌==◌, ◌⊎◌, inl, inr,
}
use sam_lmdb_rs.Base.Arrays.{store, up_loop}
use sam_lmdb_rs.Base.Int.{ℤ, pos, negsuc}
use sam_lmdb_rs.Node.{Page, pagehdrsz, nodesize, u16, numkeys, sizeleft, even, memmove}

-- MDB_val: a size, and the bytes at its address
pub record Val : Type 0 where
  pub mv_size : ℕ
  pub mv_data : ℕ → ℕ

-- LEAFSIZE and INDXSIZE
abbrev pub leafsize : Val → Val → ℕ
leafsize key val = nodesize + key.mv_size + val.mv_size

abbrev pub indxsize : Option Val → ℕ
indxsize none = nodesize
indxsize (some key) = nodesize + key.mv_size

-- `mdb_leaf_size` and `mdb_branch_size`
unfoldable pub leaf_size : (nodemax : ℕ) → Val → Val → ℕ
leaf_size nodemax key val =
    let sz = leafsize key val in even ((if ltb nodemax sz then sz - (val.mv_size - 8) else sz) + 2)

unfoldable pub branch_size : Option Val → ℕ
branch_size key = indxsize key + 2

-- OVPAGES
abbrev pub ovpages : (size psize : ℕ) → ℕ
ovpages size psize = (pagehdrsz - 1 + size) / psize + 1

-- `memcpy(at, from, n)`
abbrev pub memcpy : (ℕ → ℕ) → (at : ℕ) → (ℕ → ℕ) → (n : ℕ) → ℕ → ℕ
memcpy mem at from n x = if leb at x && ltb x (at + n) then from (x - at) else mem x

-- the bytes of a number, least significant first
abbrev pub le_bytes : ℕ → ℕ → ℕ
le_bytes v i = v / 256 ^ i % 256

-- an assignment to an `unsigned short`
abbrev pub set_short : (ℕ → ℕ) → (at v : ℕ) → ℕ → ℕ
set_short mem at v = memcpy mem at (le_bytes v) 2

-- SETDSZ and SETPGNO
abbrev pub setdsz : (ℕ → ℕ) → (at size : ℕ) → ℕ → ℕ
setdsz mem at size = set_short (set_short mem at (size % 2 ^ 16)) (at + 2) (size / 2 ^ 16)

abbrev pub setpgno : (ℕ → ℕ) → (at pgno : ℕ) → ℕ → ℕ
setpgno mem at pgno = set_short (setdsz mem at pgno) (at + 4) (pgno / 2 ^ 32)

-- the flags that `mdb_node_add` tests
abbrev pub is_bigdata : ℕ → Bool
is_bigdata flags = flags % 2 == 1

abbrev pub is_reserve : ℕ → Bool
is_reserve flags = flags / 2 ^ 16 % 2 == 1

-- the bytes that are written into the node at `at`; `ofp` is the number of a new overflow page
unfoldable pub write_node :
    (leaf : Bool) → (ℕ → ℕ) → (at : ℕ) → Option Val → Val → (pgno flags : ℕ) → Option ℕ → ℕ → ℕ
write_node leaf mem at key val pgno flags ofp =
    let ksize : ℕ = elim key [ none ↦ 0 | some k ↦ k.mv_size ] in
    let mem1 = set_short mem (at + 6) ksize in
    let mem2 = set_short mem1 (at + 4) flags in
    let mem3 : ℕ → ℕ = if leaf then setdsz mem2 at val.mv_size else setpgno mem2 at pgno in
    let mem4 : ℕ → ℕ = elim key [
      | none ↦ mem3
      | some k ↦ memcpy mem3 (at + 8) k.mv_data k.mv_size
    ] in
    let ndata = at + 8 + u16 ksize in
    if leaf
    then elim ofp [
      | none ↦
          (if is_bigdata flags
            then memcpy mem4 ndata val.mv_data 8
            else if is_reserve flags
            then mem4
            else memcpy mem4 ndata val.mv_data val.mv_size)
      | some pg ↦ memcpy mem4 ndata (le_bytes pg) 8
    ]
    else mem4

-- what the call leaves: the return code, the page, the overflow page with the bytes written to it,
-- and whether the transaction has been marked as failed
pub record Outcome : Type 0 where
  pub rc : ℤ
  pub page : Page
  pub overflow : Option (ℕ × Val)
  pub txn_error : Bool

-- MDB_SUCCESS and MDB_PAGE_FULL (-30786)
abbrev pub success : ℤ
success = pos 0

abbrev pub page_full : ℤ
page_full = negsuc 30785

-- from the label `update` on; `none` is the failed assertion
unfoldable pub update_page :
    Page → (indx : ℕ) → Option Val → Val → (pgno flags node_size : ℕ) → Option ℕ → Option Outcome
unfolding up_loop write_node
update_page mp indx key val pgno flags node_size ofp =
    let ofs = u16 (mp.mp_upper + 2 ^ 16 - node_size % 2 ^ 16) in
    let ptrs = up_loop indx (numkeys mp - indx) mp.mp_ptrs in
    if not (leb (mp.mp_lower + 2) ofs)
    then none
    else some (record {
      rc = success;
      page = record mp {
        mp_ptrs = store ptrs indx ofs;
        mp_upper = ofs;
        mp_lower = u16 (mp.mp_lower + 2);
        mem = write_node mp.is_leaf mp.mem ofs key val pgno flags ofp;
      };
      overflow = elim ofp [
        | none ↦ none
        | some pg ↦ (if is_reserve flags then none else some (pg, val))
      ];
      txn_error = false;
    })

abbrev pub failed : Page → ℤ → (marked : Bool) → Outcome
failed mp rc marked = record { rc = rc; page = mp; overflow = none; txn_error = marked }

-- `(ssize_t)node_size > room`
abbrev pub too_large : Page → ℕ → Bool
too_large mp node_size = ltb (sizeleft mp) (node_size + 2)

-- the part for a page with MDB_DUPFIXED records
unfoldable pub add_leaf2 : Page → (md_pad indx : ℕ) → Val → Outcome
add_leaf2 mp ksize indx key =
    let ptr = pagehdrsz + indx * ksize in
    record {
      rc = success;
      page = record mp {
        mem =
            memcpy (memmove mp.mem (ptr + ksize) ptr ((numkeys mp - indx) * ksize)) ptr key.mv_data
              ksize;
        mp_lower = u16 (mp.mp_lower + 2);
        mp_upper = u16 (mp.mp_upper + 2 + 2 ^ 16 - ksize % 2 ^ 16);
      };
      overflow = none;
      txn_error = false;
    }

-- the data of a leaf node is inside the node, or `mdb_page_new` gets overflow pages for it
unfoldable pub add_leaf :
    (page_new : ℕ → ℤ ⊎ ℕ)
    → (nodemax psize : ℕ) → Page
    → (indx : ℕ) → Val
    → Val
    → (flags : ℕ) → Option Outcome
unfolding update_page
add_leaf page_new nodemax psize mp indx key val flags =
    let base = nodesize + key.mv_size in
    let node_size = even (if is_bigdata flags then base + 8 else base + val.mv_size) in
    if not (is_bigdata flags) && ltb nodemax (base + val.mv_size)
    then (if too_large mp (even (base + 8))
        then some (failed mp page_full true)
        else elim (page_new (ovpages val.mv_size psize)) [
          | inl rc ↦ some (failed mp rc false)
          | inr ofp ↦ update_page mp indx (some key) val 0 (flags + 1) (even (base + 8)) (some ofp)
        ])
    else if too_large mp node_size
    then some (failed mp page_full true)
    else update_page mp indx (some key) val 0 flags node_size none

abbrev no_data : Val
no_data = record { mv_size = 0; mv_data = λ i. 0 }

-- `mdb_node_add`; `none` is a failed assertion or a NULL that is read.
unfoldable pub node_add :
    (page_new : ℕ → ℤ ⊎ ℕ)
    → (nodemax psize md_pad : ℕ) → Page
    → (indx : ℕ) → (key val : Option Val) → (pgno flags : ℕ) → Option Outcome
unfolding update_page add_leaf2 add_leaf
node_add page_new nodemax psize md_pad mp indx key val pgno flags =
    if not (leb mp.mp_lower mp.mp_upper)
    then none
    else if mp.is_leaf2
    then elim key [ none ↦ none | some k ↦ some (add_leaf2 mp md_pad indx k) ]
    else if mp.is_leaf
    then elim key [
      | none ↦ none
      | some k ↦ elim val [
        | none ↦ none
        | some d ↦ add_leaf page_new nodemax psize mp indx k d flags
      ]
    ]
    else let node_size = even (indxsize key) in
      (if too_large mp node_size
        then some (failed mp page_full true)
        else update_page mp indx key no_data pgno flags node_size none)
