-- ===== src/Readers/Check/Insert.antt =====
-- `mdb_pid_insert` on a sorted list.
use sam_lmdb_rs.Base.{
  ℕ, zero, suc, ◌+◌, ◌-◌, ◌/◌, ◌^◌, ◌≤◌, ◌<◌, ◌≡◌, ◌⊎◌, inl, inr, Option, some, none, arith, refl,
  ◌∙◌, sym, ap, dec_lt, Returns, Ordering,
}
use sam_lmdb_rs.Base.Int.{ℤ, pos, negsuc}
use sam_lmdb_rs.Idl.{u32}
use sam_lmdb_rs.Id2.{Sorted, put}
use sam_lmdb_rs.Id2.Order.{IsAscending, Inserted, duplicate, inserted, too_big, skip, put-Inserted}
use sam_lmdb_rs.Readers.Check.{Place, duplicate, fresh, key_of, val_of, pid_loop, pid_insert}

val_of_cases :
    (pid x : ℕ)
    → pid < 2 ^ 31
    → x < 2 ^ 31
    → ((pid < x) × (val_of pid x ≡ Ordering.lt))
      ⊎ (((pid ≡ x) × (val_of pid x ≡ Ordering.eq)) ⊎ ((x < pid) × (val_of pid x ≡ Ordering.gt)))
val_of_cases pid x a b = ground arith

-- where the search of `ids` ends
data Found (ids : Sorted ℕ) (pid : ℕ) : Place → Type 0 where
  at : (k : ℕ) → 1 ≤ k → k ≤ ids.count → ids.entries k ≡ pid → Found ids pid duplicate
  gap :
      (x : ℕ)
      → 1 ≤ x
      → x ≤ ids.count + 1
      → ((k : ℕ) → 1 ≤ k → k < x → ids.entries k < pid)
      → ((k : ℕ) → x ≤ k → k ≤ ids.count → pid < ids.entries k)
      → Found ids pid (fresh x)

module _ (ids : Sorted ℕ) (pid : ℕ) (small : ids.count + 1 < 2 ^ 32)
    (sorted : IsAscending key_of ids) (pid_small : pid < 2 ^ 31)
    (entries_small : (k : ℕ) → 1 ≤ k → k ≤ ids.count → ids.entries k < 2 ^ 31) where
  -- `val` is the sign at `cursor`, which the search has reached from one side
  abbrev Reached : (base n cursor : ℕ) → Ordering → Type 0
  Reached base n cursor Ordering.gt = cursor ≡ base
  Reached base n cursor _ = cursor ≡ base + n + 1

  pid_end :
      (fuel base cursor : ℕ) (val : Ordering)
      → Reached base 0 cursor val
      → base ≤ ids.count
      → ((k : ℕ) → 1 ≤ k → k ≤ base → ids.entries k < pid)
      → ((k : ℕ) → base < k → k ≤ ids.count → pid < ids.entries k)
      → Returns (pid_loop ids.entries pid (suc fuel) base cursor val zero) (Found ids pid)
  unfolding pid_loop
  pid_end fuel base cursor Ordering.gt r inside low high = (
    _,
    refl,
    gap _ (omega arith) (omega arith) (λ k p q. low k p (omega arith))
        (λ k p q. high k (omega arith) q),
  )
  pid_end fuel base cursor Ordering.lt r inside low high = (
    _,
    refl,
    gap _ (omega arith) (omega arith) (λ k p q. low k p (omega arith))
        (λ k p q. high k (omega arith) q),
  )
  pid_end fuel base cursor Ordering.eq r inside low high = (
    _,
    refl,
    gap _ (omega arith) (omega arith) (λ k p q. low k p (omega arith))
        (λ k p q. high k (omega arith) q),
  )

  pid_loop-Found :
      (fuel base cursor : ℕ) (val : Ordering) (n : ℕ)
      → n < fuel
      → base + n ≤ ids.count
      → (n ≡ 0 → Reached base n cursor val)
      → ((k : ℕ) → 1 ≤ k → k ≤ base → ids.entries k < pid)
      → ((k : ℕ) → base + n < k → k ≤ ids.count → pid < ids.entries k)
      → Returns (pid_loop ids.entries pid fuel base cursor val n) (Found ids pid)
  unfolding pid_loop
  pid_loop-Found zero base cursor val n lt inside r low high = absurd (omega arith)
  pid_loop-Found (suc fuel) base cursor val zero lt inside r low high =
      pid_end fuel base cursor val (r refl) (omega arith) low (λ k p q. high k (omega arith) q)
  pid_loop-Found (suc fuel) base cursor val (suc m) lt inside r low high =
      let c : ℕ = u32 (base + suc m / 2 + 1) in
      let narrow : c ≡ base + suc m / 2 + 1 = omega arith in
      elim (val_of_cases pid (ids.entries c) pid_small
        (entries_small c (omega arith) (omega arith))) [
          | inl (less, e) ↦
              rw (pid_loop, e)
                (pid_loop-Found fuel base c Ordering.lt (suc m / 2) (omega arith) (omega arith)
                  (λ z. omega arith) low (λ k p q. ground (arith, sorted c k, less)))
          | inr (inl (same, e)) ↦
              rw (pid_loop, e) (_, refl, at c (omega arith) (omega arith) (omega arith))
          | inr (inr (more, e)) ↦
              rw (pid_loop, e)
                (pid_loop-Found fuel c c Ordering.gt (suc m - (suc m / 2 + 1)) (omega arith)
                  (omega arith) (λ z. refl) (λ k p q. ground (arith, sorted k c, more))
                  (λ k p q. high k (omega arith) q))
        ]

  place_of :
      Returns
        (pid_loop ids.entries pid (suc (u32 ids.count)) 0 1 Ordering.eq (u32 ids.count))
        (Found ids pid)
  place_of =
      let e : u32 ids.count ≡ ids.count = omega arith in
      rw e (
        pid_loop-Found (suc ids.count) 0 1 Ordering.eq ids.count (omega arith) (omega arith)
          (λ z. omega arith) (λ k p q. absurd (omega arith)) (λ k p q. absurd (omega arith)))

  gap-Inserted :
      (x : ℕ)
      → 1 ≤ x
      → x ≤ ids.count + 1
      → ((k : ℕ) → 1 ≤ k → k < x → ids.entries k < pid)
      → ((k : ℕ) → x ≤ k → k ≤ ids.count → pid < ids.entries k)
      → Inserted key_of none ids pid (pos 0, put key_of ids x pid)
  gap-Inserted x one inside low high =
      put-Inserted key_of ids small sorted pid x
        (one, inside, low, (λ k p q. omega (arith, high k p q)))
        (λ le e. omega (arith, high x (omega arith) le)) none refl

  pub pid_insert_lem : Returns (pid_insert ids pid) (Inserted key_of none ids pid)
  unfolding pid_insert
  pid_insert_lem = let (p, run, found) = place_of in rw run (by_place p found)
    where
      by_place :
          (p : Place)
          → Found ids pid p
          → Returns
              (elim p as (λ _. Option (ℤ × Sorted ℕ)) [
                | duplicate ↦ some (negsuc 0, ids)
                | fresh x ↦ some (pos 0, put key_of ids x pid)
              ])
              (Inserted key_of none ids pid)
      by_place duplicate (at k a b e) = (_, refl, duplicate k a b e)
      by_place (fresh x) (gap _ a b low high) = (_, refl, gap-Inserted x a b low high)

-- the process is in the list
abbrev pub Member : Sorted ℕ → ℕ → Type 0
Member ids p = (k : ℕ) × (1 ≤ k) × (k ≤ ids.count) × (ids.entries k ≡ p)

-- The same without the order of the indices.
pub data Added (ids : Sorted ℕ) (pid : ℕ) : ℤ × Sorted ℕ → Type 0 where
  known : Member ids pid → Added ids pid (negsuc 0, ids)
  added :
      (new : Sorted ℕ)
      → (Member ids pid → ⊥)
      → IsAscending key_of new
      → new.count ≡ ids.count + 1
      → Member new pid
      → ((p : ℕ) → Member ids p → Member new p)
      → ((j : ℕ) → 1 ≤ j → j ≤ new.count → (new.entries j ≡ pid) ⊎ Member ids (new.entries j))
      → Added ids pid (pos 0, new)

pub Inserted-Added :
    (ids : Sorted ℕ) (pid : ℕ) (r : ℤ × Sorted ℕ) → Inserted key_of none ids pid r → Added ids pid r
Inserted-Added ids pid _ (duplicate k a b e) = known (k, a, b, e)
Inserted-Added ids pid _ (inserted new x absent room count a b here old sorted) =
    added new (λ (k, c, d, e). absent k c d e) sorted count (x, a, b, here)
      (λ p (k, c, d, e). (skip key_of x k, ground arith, ground arith, old k c d ∙ e))
      (λ j c d. elim (dec_lt j x) [
        | yes lt ↦
            inr (j, c, omega arith, sym (at_index j j (ground arith) (old j c (omega arith))))
        | no ge ↦ elim (dec_lt x j) [
          | yes gt ↦ inr (
            j - 1,
            omega arith,
            omega arith,
            sym (at_index (j - 1) j (ground arith) (old (j - 1) (omega arith) (omega arith))),
          )
          | no le ↦ let same : j ≡ x = omega arith in inl (ap new.entries same ∙ here)
        ]
      ])
  where
    at_index :
        (k j : ℕ)
        → skip key_of x k ≡ j
        → new.entries (skip key_of x k) ≡ ids.entries k
        → new.entries j ≡ ids.entries k
    at_index k j e h = sym (ap new.entries e) ∙ h
Inserted-Added ids pid _ (too_big absent full) = absurd (ground arith)
