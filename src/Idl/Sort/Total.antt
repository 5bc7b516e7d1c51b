-- ===== src/Idl/Sort/Total.antt =====
-- The loop of `mdb_midl_sort` over the ranges that are left.
use sam_lmdb_rs.Base.{
  ℕ, zero, suc, ◌+◌, ◌-◌, ◌*◌, ◌^◌, ◌≤◌, ◌<◌, inl, inr, Option, some, List, [], ◌∷◌, arith, refl,
  Bool-cases, Returns, ltb, leb, ◌>>=◌,
}
use sam_lmdb_rs.Idl.Sort.{Range, insert_loop, sort_loop, midl_sort}
use sam_lmdb_rs.Idl.Sort.Shuffle.{Shuffled, same, Shuffled-trans, Shuffled-widen}
use sam_lmdb_rs.Idl.Sort.Insertion.{Arranged}
use sam_lmdb_rs.Idl.Sort.Partition.{partition-Divided}
use sam_lmdb_rs.Idl.Sort.Steps.{
  weight, push-room, Waiting, insertion_step, left_part, right_part, left_step, right_step,
}

-- what comes after a step that shuffles
Arranged-after :
    {n : ℕ} {f g : ℕ → ℕ} {o : Option (ℕ → ℕ)}
    → Shuffled 1 n f g
    → Returns o (Arranged 1 n g)
    → Returns o (Arranged 1 n f)
Arranged-after s (k, run, t) =
    (k, run, record { shuffled = Shuffled-trans s t.shuffled; descends = t.descends })

-- what is to be sorted of the ranges `cur` and `stack`
abbrev Goal : (n fuel : ℕ) → Range → List Range → (ℕ → ℕ) → Type 0
Goal n fuel cur stack f =
    weight (cur ∷ stack) ≤ fuel
    → Waiting n (cur ∷ stack) f
    → Returns (sort_loop n fuel stack cur.l cur.ir f) (Arranged 1 n f)

-- the range that is next, if there is one
next_range :
    (n fuel : ℕ) (stack : List Range) (g : ℕ → ℕ)
    → ((r : Range) (rest : List Range) → Goal n fuel r rest g)
    → Waiting n stack g
    → weight stack ≤ fuel
    → Returns
        (elim stack as (λ _. Option (ℕ → ℕ)) [
          | [] ↦ some g
          | r ∷ rest ↦ sort_loop n fuel rest r.l r.ir g
        ])
        (Arranged 1 n g)
next_range n fuel [] g ind w enough = (
  g,
  refl,
  record {
    shuffled = same;
    descends = λ x y a lt b. elim (w.ordered x y a lt b) [ inl le ↦ le | inr h ↦ absurd h ];
  },
)
next_range n fuel (r ∷ rest) g ind w enough = ind r rest enough w

sort_loop-Arranged :
    (n fuel : ℕ) (cur : Range) (stack : List Range) (f : ℕ → ℕ)
    → n < 2 ^ 30
    → Goal n fuel cur stack f
unfolding sort_loop
sort_loop-Arranged n zero cur stack f small enough w = absurd (omega arith)
sort_loop-Arranged n (suc fuel) cur stack f small enough w =
    let (one, inside, _, _) = w.disjoint in
    elim (Bool-cases (ltb cur.ir (cur.l + 8))) [
      | inl t ↦
          let (s, w') = insertion_step n cur stack f w in
          let g : ℕ → ℕ = insert_loop (cur.ir - cur.l) (cur.l + 1) f in
          rw (sort_loop, t)
            (Arranged-after s (
              next_range n fuel stack g (λ r rest. sort_loop-Arranged n fuel r rest g small) w'
                (omega arith)))
      | inr t ↦
          let wide : cur.l + 8 ≤ cur.ir = ground arith in
          let (s, run, d) = partition-Divided n cur.l cur.ir f one wide inside (omega arith) in
          let shuffled = Shuffled-widen 1 n one inside d.shuffled in
          let low = d.low in
          let high = d.high in
          let crossed = d.crossed in
          elim (Bool-cases (leb (s.j - cur.l) (cur.ir + 1 - s.i))) [
            | inl le ↦
                let room =
                  push-room n cur (right_part cur s) stack (omega arith) (omega arith) w.halves in
                rw (sort_loop, t, run, ◌>>=◌, le, room)
                  (Arranged-after shuffled (
                    sort_loop-Arranged n fuel (left_part cur s) (right_part cur s ∷ stack) s.ids
                      small (omega arith) (left_step n cur stack f s d w (ground arith))))
            | inr le ↦
                let room =
                  push-room n cur (left_part cur s) stack (omega arith) (omega arith) w.halves in
                rw (sort_loop, t, run, ◌>>=◌, le, room)
                  (Arranged-after shuffled (
                    sort_loop-Arranged n fuel (right_part cur s) (left_part cur s ∷ stack) s.ids
                      small (omega arith) (right_step n cur stack f s d w (ground arith))))
          ]
    ]

-- `mdb_midl_sort` on a list of less than 2 ^ 30 IDs ends, no `int` overflows, its scans stay inside
-- the list, `istack` has room for what is pushed, and the list is then rearranged by swaps, with
-- the greatest ID first.
pub midl_sort-Arranged : (n : ℕ) (f : ℕ → ℕ) → n < 2 ^ 30 → Returns (midl_sort n f) (Arranged 1 n f)
unfolding midl_sort
midl_sort-Arranged n f small =
    sort_loop-Arranged n (2 * n + 2) (record { l = 1; ir = n }) [] f small (omega arith)
      (record {
        disjoint = (omega arith, omega arith, tt, tt);
        halves = (omega arith, tt);
        ordered = λ x y a lt b. inr (inl (a, b));
      })
