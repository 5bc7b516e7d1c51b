-- ===== src/Idl/Sort.antt =====
-- liblmdb/midl.c: `mdb_midl_sort`, a quicksort with an insertion sort for small ranges. `f i` is
-- `ids[i]`. A result `none` is a scan that leaves `ids[1]` to `ids[ids[0]]`, a push on `istack`
-- when it is full, an overflow of an `int`, or lack of fuel.
pub mod Shuffle
pub mod Insertion
pub mod Scan
pub mod Partition
pub mod Pending
pub mod Steps
pub mod Total
use sam_lmdb_rs.Base.{
  Bool, true, false, ℕ, zero, suc, ◌+◌, ◌-◌, ◌*◌, ◌/◌, ◌^◌, Option, none, some, List, [], ◌∷◌,
  length, if◌then◌else◌, ltb, leb, ◌==◌, ◌>>=◌,
}
use sam_lmdb_rs.Base.Arrays.{store}

-- MIDL_SWAP
abbrev pub swap : (ℕ → ℕ) → ℕ → ℕ → ℕ → ℕ
swap f i j = store (store f i (f j)) j (f i)

-- `for (i=j-1;i>=1;i--) ...` and `ids[i+1] = a`
unfoldable pub shift_loop : (a i : ℕ) → (ℕ → ℕ) → ℕ → ℕ
shift_loop a zero f = store f 1 a
shift_loop a (suc i) f =
    let rest = shift_loop a i (store f (suc (suc i)) (f (suc i))) in
    if leb a (f (suc i)) then store f (suc (suc i)) a else rest

-- the insertion sort from `j` on, with `k` rounds to go
unfoldable pub insert_loop : (k j : ℕ) → (ℕ → ℕ) → ℕ → ℕ
unfolding shift_loop
insert_loop zero j f = f
insert_loop (suc k) j f = insert_loop k (j + 1) (shift_loop (f j) (j - 1) f)

-- `do i++; while(ids[i] > a);`, where `top` is `ids[0]`
unfoldable pub scan_up : (top a : ℕ) → (ℕ → ℕ) → (fuel i : ℕ) → Option ℕ
scan_up top a f zero i = none
scan_up top a f (suc fuel) i =
    let next = scan_up top a f fuel (i + 1) in
    if leb (i + 1) top then (if ltb a (f (i + 1)) then next else some (i + 1)) else none

-- `do j--; while(ids[j] < a);`
unfoldable pub scan_down : (a : ℕ) → (ℕ → ℕ) → (j : ℕ) → Option ℕ
scan_down a f zero = none
scan_down a f (suc j) =
    let next = scan_down a f j in if j == 0 then none else if ltb (f j) a then next else some j

pub record Split : Type 0 where
  pub ids : ℕ → ℕ
  pub i : ℕ
  pub j : ℕ

-- the loop around the scans
unfoldable pub partition_loop : (top a fuel : ℕ) → (ℕ → ℕ) → (i j : ℕ) → Option Split
unfolding scan_up scan_down
partition_loop top a zero f i j = none
partition_loop top a (suc fuel) f i j = scan_up top a f (suc top) i >>= λ i'.
    scan_down a f j >>= λ j'.
    let next = partition_loop top a fuel (swap f i' j') i' j' in
    if ltb j' i' then some (record { ids = f; i = i'; j = j' }) else next

abbrev pub swap_if_less : (ℕ → ℕ) → ℕ → ℕ → ℕ → ℕ
swap_if_less f i j = if ltb (f i) (f j) then swap f i j else f

-- "Choose median of left, center, right"; `none` is an overflow of the `int` `l + ir`
unfoldable pub median : (l ir : ℕ) → (ℕ → ℕ) → Option (ℕ → ℕ)
median l ir f =
    let f1 = swap f ((l + ir) / 2) (l + 1) in
    let f2 = swap_if_less f1 l ir in
    let f3 = swap_if_less f2 (l + 1) ir in
    if ltb (l + ir) (2 ^ 31) then some (swap_if_less f3 l (l + 1)) else none

-- the two ranges that are left of `l` to `ir`
unfoldable pub partition : (top l ir : ℕ) → (ℕ → ℕ) → Option Split
unfolding median partition_loop
partition top l ir f = median l ir f >>= λ g.
    let a = g (l + 1) in
    partition_loop top a (suc ir) g (l + 1) ir >>= λ s.
    some (record s { ids = store (store s.ids (l + 1) (s.ids s.j)) s.j a })

pub record Range : Type 0 where
  pub l : ℕ
  pub ir : ℕ

-- `istack` has 64 elements, of which the first is not used
abbrev pub istack_room : ℕ
istack_room = 31

abbrev pub push : Range → List Range → Option (List Range)
push r stack = if ltb (length stack) istack_room then some (r ∷ stack) else none

unfoldable pub sort_loop :
    (top fuel : ℕ) → (stack : List Range) → (l ir : ℕ) → (ℕ → ℕ) → Option (ℕ → ℕ)
unfolding insert_loop partition
sort_loop top zero stack l ir f = none
sort_loop top (suc fuel) stack l ir f = elim (ltb ir (l + 8)) [
  | true ↦
      let g = insert_loop (ir - l) (l + 1) f in
      elim stack [ [] ↦ some g | r ∷ rest ↦ sort_loop top fuel rest r.l r.ir g ]
  | false ↦ partition top l ir f >>= λ s. elim (leb (s.j - l) (ir + 1 - s.i)) [
    | true ↦ push (record { l = s.i; ir = ir }) stack >>= λ stack'.
        sort_loop top fuel stack' l (s.j - 1) s.ids
    | false ↦ push (record { l = l; ir = s.j - 1 }) stack >>= λ stack'.
        sort_loop top fuel stack' s.i ir s.ids
  ]
]

-- `mdb_midl_sort`; `n` is `ids[0]`.
unfoldable pub midl_sort : (n : ℕ) → (ℕ → ℕ) → Option (ℕ → ℕ)
unfolding sort_loop
midl_sort n f = sort_loop n (2 * n + 2) [] 1 n f
