-- ===== src/Readers/Check/Clear.antt =====
-- The loop of `mdb_reader_check0` that frees the slots of one process.
use sam_lmdb_rs.Base.{
  false, ℕ, zero, suc, ◌+◌, ◌%◌, ◌^◌, ◌≤◌, ◌<◌, ◌≡◌, ◌≢◌, inl, inr, arith, refl, ◌∙◌, Bool-cases,
  if◌then◌else◌, ltb, leb, ◌==◌, ◌&&◌,
}
use sam_lmdb_rs.Base.Arrays.{store}
use sam_lmdb_rs.Readers.{Reader}
use sam_lmdb_rs.Readers.Check.{Scan, free_slot, clear_loop}

-- free slots among the first `n`
abbrev pub free_slots : (ℕ → Reader) → (n : ℕ) → ℕ
free_slots r zero = 0
free_slots r (suc n) = (if (r n).mr_pid == 0 then 1 else 0) + free_slots r n

free_slots-above :
    (r : ℕ → Reader) (j : ℕ) (v : Reader) (n : ℕ)
    → n ≤ j
    → free_slots (store r j v) n ≡ free_slots r n
free_slots-above r j v zero le = refl
free_slots-above r j v (suc n) le =
    let t : (n == j) ≡ false = ground arith in rw (t, free_slots-above r j v n (omega arith)) refl

pub free_slots-bound : (r : ℕ → Reader) (n : ℕ) → free_slots r n ≤ n
free_slots-bound r zero = omega arith
free_slots-bound r (suc n) = ground (arith, free_slots-bound r n)

-- freeing a used slot
free_slots-store :
    (r : ℕ → Reader) (j n : ℕ)
    → j < n
    → (r j).mr_pid ≢ 0
    → free_slots (store r j (free_slot (r j))) n ≡ free_slots r n + 1
free_slots-store r j zero lt used = absurd (omega arith)
free_slots-store r j (suc n) lt used = elim (Bool-cases (n == j)) [
  | inl e ↦
      let same : n ≡ j = ground arith in
      let u : ((r n).mr_pid == 0) ≡ false = rw same (ground arith) in
      rw (e, u, free_slots-above r j (free_slot (r j)) n (omega arith)) (omega arith)
  | inr e ↦
      let more : j < n = ground arith in rw (e, free_slots-store r j n more used) (omega arith)
]

-- the table with the slots of `pid` from `j` to `j + k` free
abbrev pub cleared : (pid k j : ℕ) → (ℕ → Reader) → ℕ → Reader
cleared pid k j r x =
    if (leb j x && ltb x (j + k)) && ((r x).mr_pid == pid) then free_slot (r x) else r x

cleared-none : (pid j : ℕ) (r : ℕ → Reader) (x : ℕ) → r x ≡ cleared pid 0 j r x
cleared-none pid j r x = ground arith

-- the first slot is freed
cleared-hit :
    (pid k j : ℕ) (r : ℕ → Reader) (x : ℕ)
    → pid ≢ 0
    → (r j).mr_pid ≡ pid
    → cleared pid k (j + 1) (store r j (free_slot (r j))) x ≡ cleared pid (suc k) j r x
cleared-hit pid k j r x used hit = ground arith

cleared-miss :
    (pid k j : ℕ) (r : ℕ → Reader) (x : ℕ)
    → (r j).mr_pid ≢ pid
    → cleared pid k (j + 1) r x ≡ cleared pid (suc k) j r x
cleared-miss pid k j r x miss = ground arith

-- What the loop does.
pub record Cleared (pid k j n : ℕ) (s t : Scan) : Type 0 where
  pub table : (x : ℕ) → t.readers x ≡ cleared pid k j s.readers x
  pub counted :
      s.count ≤ free_slots s.readers n
      → n < 2 ^ 32
      → free_slots t.readers n + s.count ≡ free_slots s.readers n + t.count
  pub same : t.pids ≡ s.pids

pub clear_loop-Cleared :
    (pid k j n : ℕ) (s : Scan) → pid ≢ 0 → j + k ≤ n → Cleared pid k j n s (clear_loop pid k j s)
unfolding clear_loop
clear_loop-Cleared pid zero j n s used inside = record {
  table = λ x. cleared-none pid j s.readers x;
  counted = λ le few. refl;
  same = refl;
}
clear_loop-Cleared pid (suc k) j n s used inside = elim (Bool-cases ((s.readers j).mr_pid == pid)) [
  | inl t ↦
      let s' : Scan = record s {
        readers = store s.readers j (free_slot (s.readers j));
        count = (s.count + 1) % 2 ^ 32;
      } in
      let c = clear_loop-Cleared pid k (j + 1) n s' used (omega arith) in
      let more = free_slots-store s.readers j n (omega arith) (ground arith) in
      rw t (record {
        table = λ x. c.table x ∙ cleared-hit pid k j s.readers x used (ground arith);
        counted = λ le few.
            let bound = free_slots-bound s'.readers n in
            let one : (s.count + 1) % 2 ^ 32 ≡ s.count + 1 = omega arith in
            omega (arith, c.counted (omega arith) few);
        same = c.same;
      })
  | inr t ↦
      let c = clear_loop-Cleared pid k (j + 1) n s used (omega arith) in
      rw t (record {
        table = λ x. c.table x ∙ cleared-miss pid k j s.readers x (ground arith);
        counted = c.counted;
        same = c.same;
      })
]
