-- ===== src/Idl/Merge/Merged.antt =====
-- `mdb_midl_xmerge` on two sorted lists.
use sam_lmdb_rs.Base.{ℕ, zero, suc, ◌+◌, ◌-◌, ◌^◌, ◌≤◌, ◌<◌, ◌≡◌, if◌then◌else◌, ◌==◌}
use sam_lmdb_rs.Idl.Sort.Insertion.{Descends}
use sam_lmdb_rs.Idl.Merge.{Merge}

-- how often `v` stands in `f 1` to `f n`
abbrev pub count : (v : ℕ) → (ℕ → ℕ) → (n : ℕ) → ℕ
count v f zero = 0
count v f (suc n) = count v f n + (if f (suc n) == v then 1 else 0)

-- how often `v` stands in the `r` elements behind `f k`
abbrev tally : (v : ℕ) → (ℕ → ℕ) → (k r : ℕ) → ℕ
tally v f k zero = 0
tally v f k (suc r) = (if f (k + 1) == v then 1 else 0) + tally v f (k + 1) r

-- `h` is sorted and has the ids of `f` and `g`
abbrev pub Merges : (n m : ℕ) → (f g h : ℕ → ℕ) → Type 0
Merges n m f g h = Descends 1 (m + n) h × ((v : ℕ) → count v h (m + n) ≡ count v f n + count v g m)

-- The state at the head of the loops, with `i` ids of the other list to go: the last `r` ids are in
-- their places.
pub record Inv (n m : ℕ) (f g : ℕ → ℕ) (i r : ℕ) (s : Merge) : Type 0 where
  k_is : s.k ≡ i + s.j
  total : s.k + r ≡ m + n
  old_is : s.old_id ≡ s.ids s.j
  start : s.ids 0 ≡ 2 ^ 64 - 1
  kept : (x : ℕ) → 1 ≤ x → x ≤ s.j → s.ids x ≡ f x
  behind : Descends (s.k + 1) (m + n) s.ids
  over : (x y : ℕ) → 1 ≤ x → x ≤ s.j → s.k < y → y ≤ m + n → s.ids y ≤ f x
  above : (x y : ℕ) → 1 ≤ x → x ≤ i → s.k < y → y ≤ m + n → s.ids y ≤ g x
  counted :
      (v : ℕ) → count v f n + count v g m ≡ count v f s.j + (count v g i + tally v s.ids s.k r)

-- the state in front of a store of `merge_id`
record Kept (n m : ℕ) (f g : ℕ → ℕ) (i : ℕ) (t : Merge) : Type 0 where
  done : ℕ
  fewer : t.j ≤ n
  inv : Inv n m f g i done t
  stopped : g i ≤ t.old_id

module _ (n m : ℕ) (f g : ℕ → ℕ) (down_f : Descends 1 n f) (down_g : Descends 1 m g)
    (narrow : (x : ℕ) → 1 ≤ x → x ≤ m → g x < 2 ^ 64) where
  -- the state at the end
  record Final (t : Merge) : Type 0 where
    done : ℕ
    inv : Inv n m f g 0 done t
    fewer : t.j ≤ n
