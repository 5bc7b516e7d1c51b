-- ===== src/Idl/Sort/Steps.antt =====
-- One round of `mdb_midl_sort`: what it keeps of the ranges that are left.
use sam_lmdb_rs.Base.{
  true, ℕ, zero, suc, ◌+◌, ◌-◌, ◌*◌, ◌^◌, ◌≤◌, ◌<◌, ◌≡◌, ◌⊎◌, inl, inr, some, List, [], ◌∷◌, length,
  arith, refl, ltb, dec_lt,
}
use sam_lmdb_rs.Idl.Sort.{Range, Split, insert_loop, push, istack_room}
use sam_lmdb_rs.Idl.Sort.Shuffle.{Shuffled, Shuffled-widen}
use sam_lmdb_rs.Idl.Sort.Insertion.{Arranged, insertion_sort-Arranged}
use sam_lmdb_rs.Idl.Sort.Partition.{Divided}
use sam_lmdb_rs.Idl.Sort.Pending.{
  InSome, Disjoint, Ordered, Apart-part, Ordered-Guarded, Ordered-Shuffled,
}

abbrev pub size : Range → ℕ
size r = r.ir + 1 - r.l

-- rounds that the ranges take
abbrev pub weight : List Range → ℕ
weight [] = 0
weight (r ∷ rs) = 2 * size r + 1 + weight rs

abbrev pub doubled : (m k : ℕ) → ℕ
doubled m zero = m
doubled m (suc k) = doubled (2 * m) k

-- every range on the stack is at most half of what the one below it was cut from
abbrev pub Halves : (n : ℕ) → List Range → Type 0
Halves n [] = Unit
Halves n (r ∷ rs) = (doubled (size r) (length rs) ≤ n) × Halves n rs

doubled_mono : (m m' k k' : ℕ) → m ≤ m' → k ≤ k' → doubled m k ≤ doubled m' k'
doubled_mono m m' zero zero le h = le
doubled_mono m m' zero (suc k') le h = doubled_mono m (2 * m') zero k' (omega arith) (omega arith)
doubled_mono m m' (suc k) zero le h = absurd (omega arith)
doubled_mono m m' (suc k) (suc k') le h =
    doubled_mono (2 * m) (2 * m') k k' (omega arith) (omega arith)

-- the stack has room for one more
pub push-room :
    (n : ℕ) (r q : Range) (rs : List Range)
    → n < 2 ^ 31
    → 1 ≤ size r
    → Halves n (r ∷ rs)
    → push q rs ≡ some (q ∷ rs)
push-room n r q rs small some_size (h, _) = elim (dec_lt (length rs) istack_room) [
  | yes lt ↦ let t : ltb (length rs) istack_room ≡ true = ground arith in rw t refl
  | no ge ↦
      let d = doubled_mono 1 (size r) 31 (length rs) some_size (omega arith) in absurd (omega arith)
]

-- What the loop keeps of the ranges that are left.
pub record Waiting (n : ℕ) (rs : List Range) (f : ℕ → ℕ) : Type 0 where
  pub disjoint : Disjoint n rs
  pub halves : Halves n rs
  pub ordered : Ordered n rs f

-- after the insertion sort of a range only the others are left
pub insertion_step :
    (n : ℕ) (r : Range) (rs : List Range) (f : ℕ → ℕ)
    → Waiting n (r ∷ rs) f
    → (Shuffled 1 n f (insert_loop (r.ir - r.l) (r.l + 1) f))
      × Waiting n rs (insert_loop (r.ir - r.l) (r.l + 1) f)
insertion_step n r rs f w =
    let (one, inside, apart, disjoint) = w.disjoint in
    let (_, halves) = w.halves in
    let g : ℕ → ℕ = insert_loop (r.ir - r.l) (r.l + 1) f in
    let s : Arranged r.l r.ir f g =
      insertion_sort-Arranged r.l r.ir f one
        (Ordered-Guarded n r rs f apart w.ordered one inside) in
    (
      Shuffled-widen 1 n one inside s.shuffled,
      record {
        disjoint = disjoint;
        halves = halves;
        ordered = λ x y a lt b.
            elim (Ordered-Shuffled n r rs f apart w.ordered g s.shuffled one inside x y a lt b) [
              | inl (p, q) ↦ inl (s.descends x y p lt q)
              | inr h ↦ h
            ];
      },
    )

abbrev pub left_part : Range → Split → Range
left_part r s = record { l = r.l; ir = s.j - 1 }

abbrev pub right_part : Range → Split → Range
right_part r s = record { l = s.i; ir = r.ir }

module _ (n : ℕ) (r : Range) (rs : List Range) (f : ℕ → ℕ) (s : Split) (d : Divided r.l r.ir f s)
    (w : Waiting n (r ∷ rs) f) where
  parts-Ordered :
      (x y : ℕ)
      → 1 ≤ x
      → x < y
      → y ≤ n
      → (s.ids y ≤ s.ids x)
        ⊎ (((r.l ≤ x) × (y ≤ s.j - 1)) ⊎ (((s.i ≤ x) × (y ≤ r.ir)) ⊎ InSome rs x y))
  parts-Ordered x y a lt b =
      let (one, inside, apart, _) = w.disjoint in
      elim (Ordered-Shuffled n r rs f apart w.ordered s.ids d.shuffled one inside x y a lt b) [
        | inr (inl le) ↦ inl le
        | inr (inr h) ↦ inr (inr (inr h))
        | inl (p, q) ↦ elim (d.ordered x y p lt q) [
          | inl u ↦ inr (inl (p, omega arith))
          | inr (inl u) ↦ inr (inr (inl (u, q)))
          | inr (inr le) ↦ inl le
        ]
      ]

  -- the smaller part goes on, the larger one waits
  parts-Halves :
      (cur wait : Range)
      → size cur ≤ size wait
      → size cur + size wait ≤ size r
      → Halves n (cur ∷ wait ∷ rs)
  parts-Halves cur wait le sum =
      let (h, hs) = w.halves in
      let k : ℕ = length rs in
      let a : doubled (2 * size cur) k ≤ doubled (size r) k =
        doubled_mono (2 * size cur) (size r) k k (omega arith) (omega arith) in
      let b : doubled (size wait) k ≤ doubled (size r) k =
        doubled_mono (size wait) (size r) k k (omega arith) (omega arith) in
      (omega arith, (omega arith, hs))

  pub left_step : s.j - r.l ≤ r.ir + 1 - s.i → Waiting n (left_part r s ∷ right_part r s ∷ rs) s.ids
  left_step le =
      let (one, inside, apart, rest) = w.disjoint in
      let low = d.low in
      let high = d.high in
      let crossed = d.crossed in
      let a = Apart-part r (left_part r s) rs (omega arith) (omega arith) apart in
      let b = Apart-part r (right_part r s) rs (omega arith) (omega arith) apart in
      record {
        disjoint = (one, omega arith, (inl (omega arith), a), (omega arith, inside, b, rest));
        halves = parts-Halves (left_part r s) (right_part r s) (omega arith) (omega arith);
        ordered = parts-Ordered;
      }

  pub right_step :
      r.ir + 1 - s.i ≤ s.j - r.l → Waiting n (right_part r s ∷ left_part r s ∷ rs) s.ids
  right_step le =
      let (one, inside, apart, rest) = w.disjoint in
      let low = d.low in
      let high = d.high in
      let crossed = d.crossed in
      let a = Apart-part r (left_part r s) rs (omega arith) (omega arith) apart in
      let b = Apart-part r (right_part r s) rs (omega arith) (omega arith) apart in
      record {
        disjoint = (omega arith, inside, (inr (omega arith), b), (one, omega arith, a, rest));
        halves = parts-Halves (right_part r s) (left_part r s) (omega arith) (omega arith);
        ordered = λ x y p lt q. elim (parts-Ordered x y p lt q) [
          | inl h ↦ inl h
          | inr (inl h) ↦ inr (inr (inl h))
          | inr (inr (inl h)) ↦ inr (inl h)
          | inr (inr (inr h)) ↦ inr (inr (inr h))
        ];
      }
