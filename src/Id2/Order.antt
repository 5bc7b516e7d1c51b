-- ===== src/Id2/Order.antt =====
-- ID2 and ID3 lists stay sorted.
use sam_lmdb_rs.Base.{
  ℕ, suc, ◌+◌, ◌-◌, ◌^◌, ◌≤◌, ◌<◌, ◌≡◌, ◌≢◌, ◌⊎◌, Option, none, some, true, false, ◌&&◌, compare,
  Ordering, if◌then◌else◌, ltb, leb, ◌==◌, Returns, Bool-cases, inl, inr, arith, refl,
}
use sam_lmdb_rs.Base.Int.{ℤ, pos, negsuc}
use sam_lmdb_rs.Base.Arrays.{store, up_loop-kept, up_loop-moved}
use sam_lmdb_rs.Idl.{idl_um_max, u32}
use sam_lmdb_rs.Idl.Search.{Splits, search_loop-Splits}
use sam_lmdb_rs.Id2.{
  Sorted, Id2, Id3, mid2, mid3, mid_search, mid_insert, put, is_full, mid2l_search, mid2l_insert,
  mid2l_append, mid3l_insert,
}

module _ {E : Type 0} (mid : E → ℕ) where
  -- each ID once, the least first
  abbrev pub IsAscending : Sorted E → Type 0
  IsAscending ids =
      (i j : ℕ) → 1 ≤ i → i < j → j ≤ ids.count → mid (ids.entries i) < mid (ids.entries j)

  -- the index where the old element `k` stands once there is a new one at `x`
  abbrev pub skip : ℕ → ℕ → ℕ
  skip x k = if ltb k x then k else k + 1

  -- no element has the ID of `e`
  abbrev pub Absent : Sorted E → E → Type 0
  Absent ids e = (k : ℕ) → 1 ≤ k → k ≤ ids.count → mid (ids.entries k) ≢ mid e

  -- what an insertion returns
  pub data Inserted (limit : Option ℕ) (ids : Sorted E) (e : E) : ℤ × Sorted E → Type 0 where
    duplicate :
        (k : ℕ)
        → 1 ≤ k
        → k ≤ ids.count
        → mid (ids.entries k) ≡ mid e
        → Inserted limit ids e (negsuc 0, ids)
    too_big : Absent ids e → is_full limit ids.count ≡ true → Inserted limit ids e (negsuc 1, ids)
    inserted :
        (new : Sorted E) (x : ℕ)
        → Absent ids e
        → is_full limit ids.count ≡ false
        → new.count ≡ ids.count + 1
        → 1 ≤ x
        → x ≤ new.count
        → new.entries x ≡ e
        → ((k : ℕ) → 1 ≤ k → k ≤ ids.count → new.entries (skip x k) ≡ ids.entries k)
        → IsAscending new
        → Inserted limit ids e (pos 0, new)

  module _ (ids : Sorted E) (small : ids.count + 1 < 2 ^ 32) (sorted : IsAscending ids) where
    -- the search returns the first index whose ID is not less
    abbrev pub Place : ℕ → ℕ → Type 0
    Place id r =
        (1 ≤ r)
        × (r ≤ ids.count + 1)
        × ((i : ℕ) → 1 ≤ i → i < r → mid (ids.entries i) < id)
        × ((i : ℕ) → r ≤ i → i ≤ ids.count → id ≤ mid (ids.entries i))

    abbrev order_at : ℕ → ℕ → Ordering
    order_at id i = compare id (mid (ids.entries i))

    found : (id : ℕ) → Returns (mid_search mid ids id) (Splits (order_at id) ids.count)
    unfolding mid_search
    found id =
        let e : u32 ids.count ≡ ids.count = omega arith in
        rw e (
          search_loop-Splits (λ i. some (order_at id i)) (order_at id) ids.count small
            (λ i a b. refl) (λ i j a b d. ground (arith, sorted i j a b d)) (suc ids.count)
            (omega arith))

    pub mid_search_lem : (id : ℕ) → Returns (mid_search mid ids id) (Place id)
    mid_search_lem id =
        let (r, run, s) = found id in
        (
          r,
          run,
          (
            s.positive,
            s.bounded,
            λ i a b. ground (arith, s.before i a b),
            λ i a b. ground (arith, s.here, s.after i),
          ),
        )

    module _ (e : E) (x : ℕ) (place : Place (mid e) x)
        (other : (x ≤ ids.count) → mid (ids.entries x) ≢ mid e) where
      new : Sorted E
      new = put mid ids x e

      at_new : new.entries x ≡ e
      unfolding new
      at_new = let t : (x == x) ≡ true = ground arith in rw t refl

      at_old : (k : ℕ) → 1 ≤ k → k ≤ ids.count → new.entries (skip x k) ≡ ids.entries k
      unfolding new
      at_old k a b = elim (Bool-cases (ltb k x)) [
        | inl h ↦
            let t : (k == x) ≡ false = ground arith in
            rw (h, t) (up_loop-kept x (ids.count + 1 - x) ids.entries k (inl (ground arith)))
        | inr h ↦
            let t : (k + 1 == x) ≡ false = ground arith in
            rw (h, t)
              (up_loop-moved x (ids.count + 1 - x) ids.entries k (ground arith) (ground arith))
      ]

      absent : Absent ids e
      absent k a b =
          let (p, q, before, after) = place in
          ground (arith, before k a, after k, after x, other, sorted x k)

      -- an element of the new list is the new one or an old one
      data View (j : ℕ) : Type 0 where
        fresh : j ≡ x → View j
        older : (k : ℕ) → 1 ≤ k → k ≤ ids.count → j ≡ skip x k → View j

      view : (j : ℕ) → 1 ≤ j → j ≤ ids.count + 1 → View j
      view j a b =
          let cases : (j < x) ⊎ ((j ≡ x) ⊎ (x < j)) = ground arith in
          elim cases [
            | inl h ↦ older j a (omega (arith, place)) (ground arith)
            | inr (inl h) ↦ fresh h
            | inr (inr h) ↦ older (j - 1) (omega (arith, place)) (omega arith) (ground arith)
          ]

      mid_new : (j : ℕ) → j ≡ x → mid (new.entries j) ≡ mid e
      mid_new j h = rw (h, at_new) refl

      mid_old :
          (j k : ℕ)
          → 1 ≤ k
          → k ≤ ids.count
          → j ≡ skip x k
          → mid (new.entries j) ≡ mid (ids.entries k)
      mid_old j k a b h = rw (h, at_old k a b) refl

      new-IsAscending : IsAscending new
      unfolding new
      new-IsAscending i j a b c =
          let (p, q, before, after) = place in
          elim (view i a (omega arith)) [
            | fresh h ↦ elim (view j (omega arith) c) [
              | fresh g ↦ absurd (omega arith)
              | older k d f g ↦
                  ground
                    (arith, mid_new i h, mid_old j k d f g, after k, after x, other, sorted x k)
            ]
            | older l m n h ↦ elim (view j (omega arith) c) [
              | fresh g ↦ ground (arith, mid_old i l m n h, mid_new j g, before l)
              | older k d f g ↦ ground (arith, mid_old i l m n h, mid_old j k d f g, sorted l k m)
            ]
          ]

      pub put-Inserted :
          (limit : Option ℕ)
          → is_full limit ids.count ≡ false
          → Inserted limit ids e (pos 0, put mid ids x e)
      unfolding new
      put-Inserted limit room =
          inserted new x absent room refl place.0 place.1 at_new at_old new-IsAscending

    -- the tests after the search
    mid_insert_tests :
        (limit : Option ℕ) (e : E) (x : ℕ)
        → mid_search mid ids (mid e) ≡ some x
        → 1 ≤ x
        → mid_insert mid limit ids e ≡ (
            if leb x ids.count && (mid (ids.entries x) == mid e)
            then some (negsuc 0, ids)
            else if is_full limit ids.count
            then some (negsuc 1, ids)
            else some (pos 0, put mid ids x e))
    unfolding mid_insert
    mid_insert_tests limit e x run a = let t : ltb x 1 ≡ false = ground arith in rw (run, t) refl

    -- On a sorted list the insertion reports a duplicate, reports that the list is full, or adds the
    -- element where it belongs; nothing else changes.
    pub mid_insert_lem :
        (limit : Option ℕ) (e : E) → Returns (mid_insert mid limit ids e) (Inserted limit ids e)
    unfolding new
    mid_insert_lem limit e =
        let (x, run, place) = mid_search_lem (mid e) in
        rw (mid_insert_tests limit e x run place.0)
          (elim (Bool-cases (leb x ids.count && (mid (ids.entries x) == mid e))) [
            | inl h ↦
                rw h ((negsuc 0, ids), refl, duplicate x place.0 (ground arith) (ground arith))
            | inr h ↦
                let other : x ≤ ids.count → mid (ids.entries x) ≢ mid e = λ b g. ground arith in
                elim (Bool-cases (is_full limit ids.count)) [
                  | inl f ↦ rw (h, f) ((negsuc 1, ids), refl, too_big (absent e x place other) f)
                  | inr f ↦ rw (h, f) (_, refl, put-Inserted e x place other limit f)
                ]
          ])

-- `mdb_mid2l_insert` on a sorted list returns -1 if the ID is there, -2 if the list has
-- MDB_IDL_UM_MAX elements, and otherwise 0 with a sorted list that has the new element and all old
-- ones in order.
pub mid2l_insert-Inserted :
    (ids : Sorted Id2) (e : Id2)
    → ids.count + 1 < 2 ^ 32
    → IsAscending mid2 ids
    → Returns (mid2l_insert ids e) (Inserted mid2 (some idl_um_max) ids e)
unfolding mid2l_insert
mid2l_insert-Inserted ids e small sorted = mid_insert_lem mid2 ids small sorted (some idl_um_max) e

-- `mdb_mid3l_insert` on a sorted list returns -1 if the ID is there, and otherwise 0 with a sorted
-- list that has the new element and all old ones in order.
pub mid3l_insert-Inserted :
    (ids : Sorted Id3) (e : Id3)
    → ids.count + 1 < 2 ^ 32
    → IsAscending mid3 ids
    → Returns (mid3l_insert ids e) (Inserted mid3 none ids e)
unfolding mid3l_insert
mid3l_insert-Inserted ids e small sorted = mid_insert_lem mid3 ids small sorted none e

-- `mdb_mid2l_search` on a sorted list returns the index of the first element whose ID is not less
-- than the one searched for, and `ids[0].mid + 1` if there is none.
pub mid2l_search-Returns :
    (ids : Sorted Id2) (id : ℕ) (small : ids.count + 1 < 2 ^ 32) (sorted : IsAscending mid2 ids)
    → Returns (mid2l_search ids id) (Place mid2 ids small sorted id)
unfolding mid2l_search
mid2l_search-Returns ids id small sorted = mid_search_lem mid2 ids small sorted id

-- `mdb_mid2l_append` of an ID above all others does what `mdb_mid2l_insert` does: it returns -2 if
-- the list has MDB_IDL_UM_MAX elements, and otherwise 0 with a sorted list that has the new
-- element.
pub mid2l_append-Inserted :
    (ids : Sorted Id2) (e : Id2)
    → IsAscending mid2 ids
    → ((k : ℕ) → 1 ≤ k → k ≤ ids.count → mid2 (ids.entries k) < mid2 e)
    → Inserted mid2 (some idl_um_max) ids e (mid2l_append ids e)
unfolding mid2l_append
mid2l_append-Inserted ids e sorted above = elim (Bool-cases (leb idl_um_max ids.count)) [
  | inl f ↦ rw (mid2l_append, f) (too_big absent f)
  | inr f ↦
      rw (mid2l_append, f)
        (inserted new x absent f refl (omega arith) (omega arith) at_new
          (λ k a b. let t : ltb k x ≡ true = ground arith in rw t (at_old k b)) ascending)
]
  where
    x : ℕ
    x = ids.count + 1

    new : Sorted Id2
    new = record ids { count = x; entries = store ids.entries x e }

    absent : Absent mid2 ids e
    absent k a b g = omega (arith, above k a b)

    at_new : new.entries x ≡ e
    at_new = let t : (x == x) ≡ true = ground arith in rw t refl

    at_old : (k : ℕ) → k ≤ ids.count → new.entries k ≡ ids.entries k
    at_old k b = let t : (k == x) ≡ false = ground arith in rw t refl

    ascending : IsAscending mid2 new
    ascending i j a b c = elim (Bool-cases (j == x)) [
      | inl h ↦
          let g : j ≡ x = ground arith in
          rw (g, at_new, at_old i (omega arith)) (above i a (omega arith))
      | inr h ↦
          rw (at_old i (ground arith), at_old j (ground arith)) (sorted i j a b (ground arith))
    ]
