-- ===== src/Idl/Sort/Pending.antt =====
-- The ranges that `mdb_midl_sort` has still to sort: elements that stand in no such range together
-- are in order.
use sam_lmdb_rs.Base.{ℕ, ◌-◌, ◌≤◌, ◌<◌, ◌⊎◌, inl, inr, List, [], ◌∷◌, arith, dec_lt}
use sam_lmdb_rs.Idl.Sort.{Range}
use sam_lmdb_rs.Idl.Sort.Shuffle.{Shuffled, Shuffled-kept, Shuffled-all}
use sam_lmdb_rs.Idl.Sort.Insertion.{Guarded}

-- one of the ranges holds both indices
abbrev pub InSome : List Range → (x y : ℕ) → Type 0
InSome [] x y = ⊥
InSome (r ∷ rs) x y = ((r.l ≤ x) × (y ≤ r.ir)) ⊎ InSome rs x y

abbrev pub Apart : Range → List Range → Type 0
Apart r [] = Unit
Apart r (q ∷ qs) = ((r.ir < q.l) ⊎ (q.ir < r.l)) × Apart r qs

-- the ranges lie in the array, and no two of them meet
abbrev pub Disjoint : (n : ℕ) → List Range → Type 0
Disjoint n [] = Unit
Disjoint n (r ∷ rs) = (1 ≤ r.l) × (r.ir ≤ n) × Apart r rs × Disjoint n rs

abbrev pub Ordered : (n : ℕ) → List Range → (ℕ → ℕ) → Type 0
Ordered n rs f = (x y : ℕ) → 1 ≤ x → x < y → y ≤ n → (f y ≤ f x) ⊎ InSome rs x y

-- no other range holds an index of the range
Apart-InSome :
    (r : Range) (rs : List Range) (x y z : ℕ)
    → Apart r rs
    → InSome rs x y
    → x ≤ z
    → z ≤ y
    → r.l ≤ z
    → z ≤ r.ir
    → ⊥
Apart-InSome r [] x y z a h p q u v = h
Apart-InSome r (q ∷ qs) x y z (inl lt, a) (inl (b, c)) d e u v = omega arith
Apart-InSome r (q ∷ qs) x y z (inr lt, a) (inl (b, c)) d e u v = omega arith
Apart-InSome r (q ∷ qs) x y z (o, a) (inr h) d e u v = Apart-InSome r qs x y z a h d e u v

-- a part of a range is apart from the others too
pub Apart-part :
    (r part : Range) (rs : List Range) → r.l ≤ part.l → part.ir ≤ r.ir → Apart r rs → Apart part rs
Apart-part r part [] a b h = tt
Apart-part r part (q ∷ qs) a b (inl lt, h) = (inl (omega arith), Apart-part r part qs a b h)
Apart-part r part (q ∷ qs) a b (inr lt, h) = (inr (omega arith), Apart-part r part qs a b h)

module _ (n : ℕ) (r : Range) (rs : List Range) (f : ℕ → ℕ) (apart : Apart r rs)
    (ordered : Ordered n (r ∷ rs) f) where
  -- an index in the range and one behind it
  right_of : (x y : ℕ) → 1 ≤ x → r.l ≤ x → x ≤ r.ir → r.ir < y → y ≤ n → f y ≤ f x
  right_of x y one a b c d = elim (ordered x y one (omega arith) d) [
    | inl le ↦ le
    | inr (inl (p, q)) ↦ absurd (omega arith)
    | inr (inr h) ↦ absurd (Apart-InSome r rs x y x apart h (omega arith) (omega arith) a b)
  ]

  left_of : (x y : ℕ) → 1 ≤ x → x < r.l → r.l ≤ y → y ≤ r.ir → y ≤ n → f y ≤ f x
  left_of x y one a b c d = elim (ordered x y one (omega arith) d) [
    | inl le ↦ le
    | inr (inl (p, q)) ↦ absurd (omega arith)
    | inr (inr h) ↦ absurd (Apart-InSome r rs x y y apart h (omega arith) (omega arith) b c)
  ]

  pub Ordered-Guarded : 1 ≤ r.l → r.ir ≤ n → Guarded r.l r.ir f
  Ordered-Guarded one inside = elim (dec_lt 1 r.l) [
    | no ge ↦ inl (omega arith)
    | yes lt ↦
        inr (lt, (λ x a b. left_of (r.l - 1) x (omega arith) (omega arith) a b (omega arith)))
  ]

  module _ (g : ℕ → ℕ) (s : Shuffled r.l r.ir f g) (one : 1 ≤ r.l) (inside : r.ir ≤ n) where
    -- after the range was rearranged, what does not lie in it is in order or pending as before
    pub Ordered-Shuffled :
        (x y : ℕ) → 1 ≤ x → x < y → y ≤ n → ((r.l ≤ x) × (y ≤ r.ir)) ⊎ ((g y ≤ g x) ⊎ InSome rs x y)
    Ordered-Shuffled x y a lt b = elim (dec_lt x r.l) [
      | yes before ↦ elim (dec_lt y r.l) [
        | yes y_before ↦ outside (inl before) (inl y_before)
        | no y_in ↦ elim (dec_lt r.ir y) [
          | yes behind ↦ outside (inl before) (inr behind)
          | no y_not ↦
              let k = Shuffled-kept x s (inl before) in
              let h =
                Shuffled-all (λ v. v ≤ f x) s (λ z p q. left_of x z a before p q (omega arith)) y
                  (omega arith) (omega arith) in
              inr (inl (omega arith))
        ]
      ]
      | no x_in ↦ elim (dec_lt r.ir x) [
        | yes behind ↦ outside (inr behind) (inr (omega arith))
        | no x_not ↦ elim (dec_lt r.ir y) [
          | no y_not ↦ inl (omega arith, omega arith)
          | yes y_behind ↦
              let k = Shuffled-kept y s (inr y_behind) in
              let h =
                Shuffled-all (λ v. f y ≤ v) s (λ z p q. right_of z y (omega arith) p q y_behind b) x
                  (omega arith) (omega arith) in
              inr (inl (omega arith))
        ]
      ]
    ]
      where
        outside :
            (x < r.l) ⊎ (r.ir < x)
            → (y < r.l) ⊎ (r.ir < y)
            → ((r.l ≤ x) × (y ≤ r.ir)) ⊎ ((g y ≤ g x) ⊎ InSome rs x y)
        outside p q =
            let kx = Shuffled-kept x s p in
            let ky = Shuffled-kept y s q in
            elim (ordered x y a lt b) [
              | inl le ↦ inr (inl (omega arith))
              | inr (inl both) ↦ inl both
              | inr (inr h) ↦ inr (inr h)
            ]
