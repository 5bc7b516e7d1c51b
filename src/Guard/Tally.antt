-- ===== src/Guard/Tally.antt =====
-- How many of the first `n` parties are in a state of some kind, and what a move does to the number.
use sam_lmdb_rs.Base.{
  ℕ, zero, suc, ◌+◌, ◌≤◌, ◌<◌, ◌≡◌, if◌then◌else◌, ◌==◌, arith, refl, false, Bool,
}

abbrev pub update {ℓ} : {A : Type ℓ} → (ℕ → A) → ℕ → A → ℕ → A
update f i a j = if i == j then a else f j

abbrev pub bit : Bool → ℕ
bit b = if b then 1 else 0

module _ {ℓ} {A : Type ℓ} (test : A → Bool) where
  unfoldable pub tally : ℕ → (ℕ → A) → ℕ
  tally zero f = 0
  tally (suc n) f = bit (test (f n)) + tally n f

  tally-update_ge : (n : ℕ) (f : ℕ → A) (i : ℕ) (a : A) → n ≤ i → tally n (update f i a) ≡ tally n f
  unfolding tally
  tally-update_ge zero f i a out = refl
  tally-update_ge (suc n) f i a out = ground (arith, tally-update_ge n f i a)

  -- What leaves the tally with the old state of party `i` comes back with the new one.
  pub tally-update :
      (n i : ℕ) (f : ℕ → A) (a : A)
      → i < n
      → tally n (update f i a) + bit (test (f i)) ≡ tally n f + bit (test a)
  unfolding tally
  tally-update zero i f a inside = absurd (omega arith)
  tally-update (suc n) i f a inside = ground (arith, tally-update n i f a, tally-update_ge n f i a)

  pub tally-le : (n : ℕ) (f : ℕ → A) → tally n f ≤ n
  unfolding tally
  tally-le zero f = omega arith
  tally-le (suc n) f = ground (arith, tally-le n f)

  pub bit-le-tally : (n i : ℕ) (f : ℕ → A) → i < n → bit (test (f i)) ≤ tally n f
  unfolding tally
  bit-le-tally zero i f inside = absurd (omega arith)
  bit-le-tally (suc n) i f inside = ground (arith, bit-le-tally n i f)

  pub tally-const : (n : ℕ) (a : A) → test a ≡ false → tally n (λ _. a) ≡ 0
  unfolding tally
  tally-const zero a none_so = refl
  tally-const (suc n) a none_so = ground (arith, tally-const n a none_so)

  pub tally-zero : (n : ℕ) (f : ℕ → A) → ((i : ℕ) → test (f i) ≡ false) → tally n f ≡ 0
  unfolding tally
  tally-zero zero f none_so = refl
  tally-zero (suc n) f none_so = ground (arith, none_so n, tally-zero n f none_so)
