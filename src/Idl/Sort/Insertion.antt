-- ===== src/Idl/Sort/Insertion.antt =====
-- The insertion sort of `mdb_midl_sort` sorts a range whose elements are not greater than those
-- before.
use mathlib.Core.Path.{fun_ext}
use sam_lmdb_rs.Base.{
  ℕ, zero, suc, ◌+◌, ◌-◌, ◌≤◌, ◌<◌, ◌≡◌, ◌≢◌, ◌⊎◌, inl, inr, arith, refl, sym, subst, Bool-cases,
  leb,
}
use sam_lmdb_rs.Base.Arrays.{store}
use sam_lmdb_rs.Idl.Sort.{swap, shift_loop, insert_loop}
use sam_lmdb_rs.Idl.Sort.Shuffle.{
  Shuffled, same, swapped, Shuffled-trans, Shuffled-widen, Shuffled-kept, Shuffled-all,
}

-- the elements of a range stand downwards
abbrev pub Descends : (lo hi : ℕ) → (ℕ → ℕ) → Type 0
Descends lo hi f = (x y : ℕ) → lo ≤ x → x < y → y ≤ hi → f y ≤ f x

-- the element before a range is not less than those in it
abbrev pub Guarded : (lo hi : ℕ) → (ℕ → ℕ) → Type 0
Guarded lo hi f = (lo ≡ 1) ⊎ ((1 < lo) × ((x : ℕ) → lo ≤ x → x ≤ hi → f x ≤ f (lo - 1)))

-- in order but for the element at `h`, which may belong farther to the left
abbrev Misplaced : (lo hi h : ℕ) → (ℕ → ℕ) → Type 0
Misplaced lo hi h f = (x y : ℕ) → lo ≤ x → x < y → y ≤ hi → y ≢ h → f y ≤ f x

-- one move to the right is a swap with the element in hand
shift_step :
    (f : ℕ → ℕ) (a i : ℕ) → swap (store f (suc i) a) i (suc i) ≡ store (store f (suc i) (f i)) i a
shift_step f a i = fun_ext (λ k. ground arith)

pub record Arranged (lo hi : ℕ) (f g : ℕ → ℕ) : Type 0 where
  pub shuffled : Shuffled lo hi f g
  pub descends : Descends lo hi g

-- the misplaced element is one place farther to the left
Misplaced-step :
    (lo hi a i : ℕ) (f : ℕ → ℕ)
    → Misplaced lo hi (suc i) (store f (suc i) a)
    → lo ≤ i
    → suc i ≤ hi
    → f i ≤ a
    → Misplaced lo hi i (store (store f (suc i) (f i)) i a)
Misplaced-step lo hi a i f m le inside less x y p q r n =
    ground (arith, m x y p q r, m i y le, m x i p, m (suc i) y)

shift_loop-Arranged :
    (lo hi a i : ℕ) (f : ℕ → ℕ)
    → 1 ≤ lo
    → lo ≤ suc i
    → suc i ≤ hi
    → Misplaced lo hi (suc i) (store f (suc i) a)
    → (lo ≡ 1) ⊎ ((1 < lo) × (a ≤ f (lo - 1)))
    → Arranged lo hi (store f (suc i) a) (shift_loop a i f)
unfolding shift_loop
shift_loop-Arranged lo hi a zero f one le inside m guard = record {
  shuffled = same;
  descends = λ x y p q r. m x y p q r (λ e. omega arith);
}
shift_loop-Arranged lo hi a (suc i) f one le inside m guard =
    elim (Bool-cases (leb a (f (suc i)))) [
      | inl t ↦
          rw (shift_loop, t)
            (record {
              shuffled = same;
              descends = λ x y p q r. ground (arith, m x y p q r, m x (suc i) p, t);
            })
      | inr t ↦
          let in_range : lo ≤ suc i = ground (arith, guard) in
          let g : ℕ → ℕ = store f (suc (suc i)) (f (suc i)) in
          let s : Arranged lo hi (store g (suc i) a) (shift_loop a i g) =
            shift_loop-Arranged lo hi a i g one in_range (omega arith)
              (Misplaced-step lo hi a (suc i) f m in_range inside (ground arith)) (ground arith) in
          rw (shift_loop, t)
            (record {
              shuffled = swapped (suc i) (suc (suc i)) in_range (omega arith) le inside (
                  subst (λ v. Shuffled lo hi v (shift_loop a i g)) (sym (shift_step f a (suc i)))
                    s.shuffled);
              descends = s.descends;
            })
    ]

Guarded-kept : {lo hi : ℕ} {f g : ℕ → ℕ} → Guarded lo hi f → Shuffled lo hi f g → Guarded lo hi g
Guarded-kept (inl e) s = inl e
Guarded-kept {lo} {hi} {f} {g} (inr (lt, h)) s =
    let k : g (lo - 1) ≡ f (lo - 1) = Shuffled-kept (lo - 1) s (inl (omega arith)) in
    inr (lt, (λ x a b. omega (arith, Shuffled-all (λ v. v ≤ f (lo - 1)) s h x a b)))

guard_at :
    {lo hi : ℕ} {f : ℕ → ℕ}
    → Guarded lo hi f
    → (x : ℕ) → lo ≤ x
    → x ≤ hi
    → (lo ≡ 1) ⊎ ((1 < lo) × (f x ≤ f (lo - 1)))
guard_at (inl e) x a b = inl e
guard_at (inr (lt, h)) x a b = inr (lt, h x a b)

-- one round
insert-Arranged :
    (lo hi i : ℕ) (f : ℕ → ℕ)
    → 1 ≤ lo
    → lo ≤ suc i
    → suc i ≤ hi
    → Descends lo i f
    → Guarded lo hi f
    → Arranged lo (suc i) f (shift_loop (f (suc i)) i f)
insert-Arranged lo hi i f one le inside d guard =
    let e : store f (suc i) (f (suc i)) ≡ f = fun_ext (λ k. ground arith) in
    subst (λ v. Arranged lo (suc i) v (shift_loop (f (suc i)) i f)) e
      (shift_loop-Arranged lo (suc i) (f (suc i)) i f one le (omega arith)
        (λ x y p q r n. ground (arith, d x y p q)) (guard_at guard (suc i) le inside))

insert_loop-Arranged :
    (lo hi k j i : ℕ) (f : ℕ → ℕ)
    → j ≡ suc i
    → j + k ≡ hi + 1
    → 1 ≤ lo
    → lo ≤ suc i
    → Descends lo i f
    → Guarded lo hi f
    → Arranged lo hi f (insert_loop k j f)
unfolding insert_loop
insert_loop-Arranged lo hi zero j i f e n one le d guard = record {
  shuffled = same;
  descends = λ x y p q r. d x y p q (omega arith);
}
insert_loop-Arranged lo hi (suc k) j i f e n one le d guard =
    let b : j - 1 ≡ i = omega arith in
    let s = insert-Arranged lo hi i f one le (omega arith) d guard in
    let g : ℕ → ℕ = shift_loop (f (suc i)) i f in
    let w = Shuffled-widen lo hi (omega arith) (omega arith) s.shuffled in
    let same_call : shift_loop (f j) (j - 1) f ≡ g = rw (b, e) refl in
    let r =
      insert_loop-Arranged lo hi k (j + 1) (suc i) g (omega arith) (omega arith) one (omega arith)
        s.descends (Guarded-kept guard w) in
    rw same_call (record { shuffled = Shuffled-trans w r.shuffled; descends = r.descends })

-- the insertion sort of a range
pub insertion_sort-Arranged :
    (lo hi : ℕ) (f : ℕ → ℕ)
    → 1 ≤ lo
    → Guarded lo hi f
    → Arranged lo hi f (insert_loop (hi - lo) (lo + 1) f)
unfolding insert_loop
insertion_sort-Arranged lo hi f one guard = elim (Bool-cases (leb lo hi)) [
  | inl t ↦
      insert_loop-Arranged lo hi (hi - lo) (lo + 1) lo f (omega arith) (ground arith) one
        (omega arith) (λ x y p q r. absurd (omega arith)) guard
  | inr t ↦
      let e : hi - lo ≡ 0 = ground arith in
      rw e (record { shuffled = same; descends = λ x y p q r. absurd (ground arith) })
]
