-- ===== src/Readers/Check/Table.antt =====
-- What a check may do to the reader table.
use sam_lmdb_rs.Base.{false, ℕ, ◌^◌, ◌<◌, ◌≡◌, ◌≢◌, ◌⊎◌, inl, inr, arith, ◌∙◌, ap, subst}
use sam_lmdb_rs.Base.Int.{ℤ}
use sam_lmdb_rs.Errors.{is_zero}
use sam_lmdb_rs.Readers.{Reader}
use sam_lmdb_rs.Readers.Check.{Look, Acquired, not_needed, locked, repaired, refused, free_slot}

-- Slots of processes with `Dead` may be free, the others are as before.
abbrev pub Safe : (Dead : ℕ → Type 0) → (r rs : ℕ → Reader) → Type 0
Safe Dead r rs =
    (k : ℕ) → (rs k ≡ r k) ⊎ ((rs k ≡ free_slot (r k)) × ((r k).mr_pid ≢ 0) × Dead (r k).mr_pid)

pub Safe-trans :
    (Dead : ℕ → Type 0) (r rs rt : ℕ → Reader) → Safe Dead r rs → Safe Dead rs rt → Safe Dead r rt
Safe-trans Dead r rs rt a b k = elim (a k) [
  | inl e ↦ elim (b k) [
    | inl f ↦ inl (f ∙ e)
    | inr (f, used, d) ↦
        inr (
          f ∙ ap free_slot e,
          (λ z. used (ap (λ v. v.mr_pid) e ∙ z)),
          subst (λ v. Dead v.mr_pid) e d,
        )
  ]
  | inr (e, used, d) ↦ elim (b k) [
    | inl f ↦ inr (f ∙ e, used, d)
    | inr (f, again, _) ↦ absurd (again (ap (λ v. v.mr_pid) e))
  ]
]

abbrev pub Narrow : (ℕ → Reader) → (n : ℕ) → Type 0
Narrow r n = (k : ℕ) → k < n → (r k).mr_pid < 2 ^ 31

pub Safe-Narrow :
    (Dead : ℕ → Type 0) (r rs : ℕ → Reader) (n : ℕ) → Safe Dead r rs → Narrow r n → Narrow rs n
Safe-Narrow Dead r rs n a narrow k lt = elim (a k) [
  | inl e ↦ rw e (narrow k lt)
  | inr (e, _, _) ↦ rw e (omega arith)
]

-- the results of the repair of the mutex
pub data Repair (Dead : ℕ → Type 0) (rs : ℕ → Reader) : Acquired → Type 0 where
  by_repair : (new : ℕ → Reader) → Safe Dead rs new → Repair Dead rs (repaired new)
  failed :
      (rc : ℤ) (new : ℕ → Reader)
      → is_zero rc ≡ false
      → Safe Dead rs new
      → Repair Dead rs (refused rc new)

-- a way to take the mutex that leaves a safe table
pub data Takes (look : Look) (Dead : ℕ → Type 0) (rs : ℕ → Reader) : Acquired → Type 0 where
  by_caller :
      ((p : ℕ) → p ≢ look.me_pid → look.alive false p ≡ false → Dead p)
      → Takes look Dead rs not_needed
  by_lock : Takes look Dead rs locked
  by_failure : (a : Acquired) → Repair Dead rs a → Takes look Dead rs a
