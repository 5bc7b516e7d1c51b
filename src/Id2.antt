-- ===== src/Id2.antt =====
-- liblmdb/midl.h and midl.c: the ID2 lists, arrays of IDs with a pointer, sorted upwards.
-- `ids[0].mid` is `count`, and `ids[i]` is `entries i`. With MDB_VL32 there are ID3 lists too, with
-- two more fields. `E` is MDB_ID2 or MDB_ID3 and `mid` its first field.
pub mod Order
use sam_lmdb_rs.Base.{
  ℕ, zero, suc, ◌+◌, ◌-◌, ◌%◌, ◌^◌, Option, none, some, Bool, true, false, ◌&&◌, compare, Ordering,
  if◌then◌else◌, ltb, leb, ◌==◌, ◌>>=◌,
}
use sam_lmdb_rs.Base.Int.{ℤ, pos, negsuc}
use sam_lmdb_rs.Base.Arrays.{store, up_loop}
use sam_lmdb_rs.Idl.{search_loop, idl_um_max, u32}

-- MDB_ID2 and MDB_ID3; pointers are numbers
pub record Id2 : Type 0 where
  pub mid : ℕ
  pub mptr : ℕ

pub record Id3 : Type 0 where
  pub mid : ℕ
  pub mptr : ℕ
  pub mcnt : ℕ
  pub mref : ℕ

-- MDB_ID2L and MDB_ID3L
pub record Sorted (E : Type 0) : Type 0 where
  pub count : ℕ
  pub entries : ℕ → E

-- the limit of ID2 lists; ID3 lists have none
abbrev pub is_full : Option ℕ → ℕ → Bool
is_full none count = false
is_full (some m) count = leb m count

module _ {E : Type 0} (mid : E → ℕ) where
  -- the common text of `mdb_mid2l_search` and `mdb_mid3l_search`
  unfoldable pub mid_search : Sorted E → ℕ → Option ℕ
  unfolding search_loop
  mid_search ids id =
      let n = u32 ids.count in
      search_loop (λ c. some (compare id (mid (ids.entries c)))) (suc n) 0 1 Ordering.eq n

  -- `ids[0].mid++`, and the element with index `x`
  abbrev pub put : Sorted E → ℕ → E → Sorted E
  put ids x e = record ids {
    count = ids.count + 1;
    entries = store (up_loop x (ids.count + 1 - x) ids.entries) x e;
  }

  -- the text of `mdb_mid2l_insert` and `mdb_mid3l_insert`; the latter has no `limit`
  unfoldable pub mid_insert : (limit : Option ℕ) → Sorted E → E → Option (ℤ × Sorted E)
  unfolding mid_search up_loop
  mid_insert limit ids e = mid_search ids (mid e) >>= λ x.
      if ltb x 1
      then some (negsuc 1, ids)
      else if leb x ids.count && (mid (ids.entries x) == mid e)
      then some (negsuc 0, ids)
      else if is_full limit ids.count
      then some (negsuc 1, ids)
      else some (pos 0, put ids x e)

abbrev pub mid2 : Id2 → ℕ
mid2 e = e.mid

abbrev pub mid3 : Id3 → ℕ
mid3 e = e.mid

unfoldable pub mid2l_search : Sorted Id2 → ℕ → Option ℕ
unfolding mid_search
mid2l_search = mid_search mid2

unfoldable pub mid2l_insert : Sorted Id2 → Id2 → Option (ℤ × Sorted Id2)
unfolding mid_insert
mid2l_insert = mid_insert mid2 (some idl_um_max)

unfoldable pub mid2l_append : Sorted Id2 → Id2 → ℤ × Sorted Id2
mid2l_append ids e = if leb idl_um_max ids.count then (negsuc 1, ids) else (
  pos 0,
  record ids { count = ids.count + 1; entries = store ids.entries (ids.count + 1) e },
)

unfoldable pub mid3l_search : Sorted Id3 → ℕ → Option ℕ
unfolding mid_search
mid3l_search = mid_search mid3

unfoldable pub mid3l_insert : Sorted Id3 → Id3 → Option (ℤ × Sorted Id3)
unfolding mid_insert
mid3l_insert = mid_insert mid3 none
