-- ===== src/Idl.antt =====
-- liblmdb/midl.h and midl.c: the ID list `MDB_IDL`, an array of page numbers sorted downwards.
-- `ids[-1]` is `alloclen`, `ids[0]` is `count` and `ids[1]`, `ids[2]`, ... are `cells`. A function
-- that returns `none` has read or written outside the block; `realloc` and `malloc` are parameters,
-- which give the block behind its two header words, and take its length in words.
pub mod Valid
pub mod Search
pub mod Append
pub mod Sort
pub mod Merge
use sam_lmdb_rs.Base.{
  ℕ, zero, suc, ◌+◌, ◌-◌, ◌*◌, ◌/◌, ◌%◌, ◌^◌, Option, none, some, List, get_elem?, set, take, ◌∷◌,
  compare, Ordering, length, ◌≤◌, ◌<◌, ◌≡◌, ltb, leb, if◌then◌else◌, ◌>>=◌, [],
}

-- MDB_IDL: the block that `mdb_midl_alloc` returns, with the counter in front of the IDs.
pub record Idl : Type 0 where
  pub alloclen : ℕ
  pub count : ℕ
  pub cells : List ℕ

-- MDB_IDL_UM_MAX, with MDB_IDL_LOGN 16
abbrev pub idl_um_max : ℕ
idl_um_max = 2 ^ 17 - 1

-- unsigned arithmetic: `unsigned` has 32 bits, `MDB_ID` 64
abbrev pub u32 : ℕ → ℕ
u32 n = n % 2 ^ 32

-- `ids[i]`
abbrev pub read : Idl → ℕ → Option ℕ
read l zero = some l.count
read l (suc i) = get_elem? l.cells i

-- `ids[i] = v`
abbrev pub write : Idl → ℕ → ℕ → Option Idl
write l zero v = some (record l { count = v })
write l (suc i) v =
    if ltb i (length l.cells) then some (record l { cells = set l.cells i v }) else none

-- `memcpy(&ids[i], xs, n * sizeof(MDB_ID))`
abbrev pub write_list : Idl → ℕ → List ℕ → Option Idl
write_list l i [] = some l
write_list l i (x ∷ xs) = write l i x >>= λ l'. write_list l' (suc i) xs

-- what the functions return: 0 or ENOMEM
pub data Status : Type 0 where
  success enomem : Status

-- The loop of `mdb_midl_search`, over the locals `base`, `cursor`, `val` and `n`; `probe c` is the
-- value of the `CMP` at `ids[c]`, `none` for a read outside the block. `none` also means that the
-- fuel ran out.
unfoldable pub search_loop : (ℕ → Option Ordering) → ℕ → ℕ → ℕ → Ordering → ℕ → Option ℕ
search_loop probe zero base cursor val n = none
search_loop probe (suc fuel) base cursor val zero = elim val [
  | Ordering.gt ↦ some (u32 (cursor + 1))
  | _ ↦ some cursor
]
search_loop probe (suc fuel) base cursor val (suc m) =
    let pivot = suc m / 2 in
    let c = u32 (base + pivot + 1) in
    elim (probe c) [
      | none ↦ none
      | some Ordering.lt ↦ search_loop probe fuel base c Ordering.lt pivot
      | some Ordering.gt ↦ search_loop probe fuel c c Ordering.gt (suc m - (pivot + 1))
      | some Ordering.eq ↦ some c
    ]

-- CMP( ids[cursor], id )
abbrev pub cmp_at : Idl → ℕ → ℕ → Option Ordering
cmp_at l id c = elim (read l c) [ none ↦ none | some x ↦ some (compare x id) ]

unfoldable pub midl_search : Idl → ℕ → Option ℕ
midl_search l id = let n = u32 l.count in search_loop (cmp_at l id) (suc n) 0 1 Ordering.eq n

pub midl_alloc : (ℕ → Option (List ℕ)) → ℕ → Option Idl
midl_alloc malloc num = elim (malloc num) [
  | none ↦ none
  | some cells ↦ some (record { alloclen = num; count = 0; cells = cells })
]

-- `ids[0]++; ids[ids[0]] = id;`, which is also the macro `mdb_midl_xappend`
abbrev pub midl_xappend : Idl → ℕ → Option Idl
midl_xappend l id = write l 0 (l.count + 1) >>= λ l'. write l' (l'.count) id

-- `while (n) ids[n--] = id++;` behind `ids += len`
unfoldable pub range_loop : Idl → ℕ → ℕ → ℕ → Option Idl
range_loop l len id zero = some l
range_loop l len id (suc n) = write l (len + suc n) id >>= λ l'. range_loop l' len (id + 1) n

-- `n + num`, where `num` is converted to an `int`; from 2 ^ 31 on it is negative
abbrev pub add_int : (n num : ℕ) → ℕ
add_int n num =
    let bits = num % 2 ^ 32 in if ltb bits (2 ^ 31) then n + bits else n - (2 ^ 32 - bits)

module _ (realloc : List ℕ → ℕ → Option (List ℕ)) where
  unfoldable pub midl_shrink : Idl → Idl
  midl_shrink l =
      if ltb idl_um_max l.alloclen
      then (elim (realloc l.cells idl_um_max) [
        | none ↦ l
        | some cells ↦ record l { alloclen = idl_um_max; cells = cells }
      ])
      else l

  -- `num` is an `int`.
  unfoldable pub midl_grow : Idl → ℕ → Status × Idl
  midl_grow l num = elim (realloc l.cells (add_int l.alloclen num)) [
    | none ↦ (enomem, l)
    | some cells ↦ (success, record l { alloclen = add_int l.alloclen num; cells = cells })
  ]

  -- `& -256` clears the low eight bits.
  unfoldable pub midl_need : Idl → ℕ → Status × Idl
  midl_need l num =
      let wanted = u32 (num + l.count) in
      let rounded = u32 (wanted + wanted / 4 + 258) / 256 * 256 in
      if ltb l.alloclen wanted
      then (elim (realloc l.cells (rounded - 2)) [
        | none ↦ (enomem, l)
        | some cells ↦ (success, record l { alloclen = rounded - 2; cells = cells })
      ])
      else (success, l)

  unfoldable pub midl_append : Idl → ℕ → Option (Status × Idl)
  unfolding midl_grow
  midl_append l id =
      let (s, l') = if leb l.alloclen l.count then midl_grow l idl_um_max else (success, l) in
      elim s [
        | enomem ↦ some (enomem, l')
        | success ↦ midl_xappend l' id >>= λ r. some (success, r)
      ]

  unfoldable pub midl_append_list : Idl → Idl → Option (Status × Idl)
  unfolding midl_grow
  midl_append_list l app =
      let (s, l') =
        if leb l.alloclen (l.count + app.count) then midl_grow l app.count else (success, l) in
      elim s [
        | enomem ↦ some (enomem, l')
        | success ↦
            if leb app.count (length app.cells)
            then (write_list l' (l'.count + 1) (take app.count app.cells) >>= λ r.
                some (success, record r { count = r.count + app.count }))
            else none
      ]

  -- `n | MDB_IDL_UM_MAX` sets the low 17 bits.
  unfoldable pub midl_append_range : Idl → ℕ → ℕ → Option (Status × Idl)
  unfolding midl_grow range_loop
  midl_append_range l id n =
      let len = l.count in
      let more = n / 2 ^ 17 * 2 ^ 17 + idl_um_max in
      let (s, l') = if ltb l.alloclen (len + n) then midl_grow l more else (success, l) in
      elim s [
        | enomem ↦ some (enomem, l')
        | success ↦ range_loop (record l' { count = len + n }) len id n >>= λ r. some (success, r)
      ]
