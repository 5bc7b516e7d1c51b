-- ===== src/Readers/Check/Complete.antt =====
-- A scan that always gets its mutex frees the slots of all dead processes.
use sam_lmdb_rs.Base.{
  Bool, true, false, ℕ, zero, suc, ◌+◌, ◌^◌, ◌<◌, ◌≡◌, ◌⊎◌, inl, inr, some, arith, refl, ◌∙◌, subst,
  Bool-cases, Returns, if◌then◌else◌, ltb, ◌==◌, ◌&&◌, ◌||◌, not,
}
use sam_lmdb_rs.Base.Int.{ℤ, pos}
use sam_lmdb_rs.Errors.{is_zero}
use sam_lmdb_rs.Readers.{Reader, Txninfo}
use sam_lmdb_rs.Readers.Check.{
  Scan, Look, not_needed, locked, free_slot, scan_loop, System, Checked, mutex_failed,
  reader_check0,
}
use sam_lmdb_rs.Readers.Check.Clear.{free_slots, free_slots-bound}
use sam_lmdb_rs.Readers.Check.Sweep.{Inv, is_stale, swept, choice_same}
use sam_lmdb_rs.Readers.Check.Slots.{scan_slot_next}

module _ (look : Look) (recheck : Bool) (r : ℕ → Reader)
    (narrow : (k : ℕ) → k < look.rdrs → (r k).mr_pid < 2 ^ 31)
    (takes : (i : ℕ) (rs : ℕ → Reader)
      → look.acquire i rs ≡ some (if recheck then locked else not_needed)) where
  -- every slot has been looked at
  record Final (a : ℤ × Scan) : Type 0 where
    code : a.0 ≡ pos 0
    seen : ℕ → Bool
    inv : Inv look recheck r seen look.rdrs a.1

  scan_loop-Final :
      (k i : ℕ) (seen : ℕ → Bool) (s : Scan)
      → look.rdrs + 1 < 2 ^ 32
      → i + k ≡ look.rdrs
      → Inv look recheck r seen i s
      → Returns (scan_loop look k i s) Final
  unfolding scan_loop
  scan_loop-Final zero i seen s few sum v =
      let e : i ≡ look.rdrs = omega arith in
      (
        _,
        refl,
        record { code = refl; seen = seen; inv = subst (λ z. Inv look recheck r seen z s) e v },
      )
  scan_loop-Final (suc k) i seen s few sum v =
      let (seen', s', run, v') =
        scan_slot_next look recheck r narrow takes few seen i s v (omega arith) in
      rw run (scan_loop-Final k (i + 1) seen' s' few (omega arith) v')

  -- What a check does that always gets its mutex.
  pub record Swept (a : ℤ × Scan) : Type 0 where
    pub code : a.0 ≡ pos 0
    pub table : (k : ℕ) → a.1.readers k ≡ swept look recheck (λ _. true) r k
    pub counted : free_slots a.1.readers look.rdrs ≡ free_slots r look.rdrs + a.1.count

  all_seen :
      {a : ℤ × Scan} (f : Final a) (k : ℕ)
      → ltb k look.rdrs ≡ true
      → (is_stale look recheck (r k).mr_pid ≡ false) ⊎ (f.seen (r k).mr_pid ≡ true)
  all_seen f k at = elim (Bool-cases (((r k).mr_pid == 0) || ((r k).mr_pid == look.me_pid))) [
    | inl mine ↦ inl (rw mine refl)
    | inr used ↦ inr (f.inv.passed k (ground arith) (ground arith) (ground arith))
  ]

  Final-Swept : (a : ℤ × Scan) → Final a → Swept a
  Final-Swept a f = record {
    code = f.code;
    table = λ k. f.inv.table k ∙ elim (Bool-cases (ltb k look.rdrs)) [
      | inr out ↦ rw out refl
      | inl at ↦
          choice_same (ltb k look.rdrs) (f.seen (r k).mr_pid) (is_stale look recheck (r k).mr_pid)
            true (free_slot (r k)) (r k) (all_seen f k at)
    ];
    counted = f.inv.counted;
  }

  pub scan_loop-Swept :
      look.rdrs + 1 < 2 ^ 32
      → Returns
          (scan_loop look look.rdrs 0
            (record { readers = r; pids = record { count = 0; entries = λ _. 0 }; count = 0 }))
          Swept
  scan_loop-Swept few =
      let start : Scan = record {
        readers = r;
        pids = record { count = 0; entries = λ _. 0 };
        count = 0;
      } in
      let (a, run, f) =
        scan_loop-Final look.rdrs 0 (λ _. false) start few (omega arith)
          (record {
            sorted = λ i j p q u. absurd (omega arith);
            few = omega arith;
            members = λ k p q. absurd (omega arith);
            complete = λ p h. absurd (ground arith);
            small = λ p h. absurd (ground arith);
            passed = λ k lt. absurd (omega arith);
            table = λ k. ground arith;
            counted = omega arith;
          }) in
      (a, run, Final-Swept a f)

-- a process that both looks have found dead
abbrev pub is_gone : System → ℕ → Bool
is_gone sys p =
    not ((p == 0) || (p == sys.me_pid))
    && (not (sys.alive false false p) && not (sys.alive false true p))

-- What a check does that always gets its mutex.
pub record Complete (sys : System) (t : Txninfo) (c : Checked) : Type 0 where
  pub code : c.rc ≡ pos 0
  pub table :
      (k : ℕ)
      → c.readers k ≡ (
          if ltb k t.mti_numreaders && is_gone sys (t.mti_readers k).mr_pid
          then free_slot (t.mti_readers k)
          else t.mti_readers k)
  pub counted :
      (n : ℕ) × (n < 2 ^ 31)
      × (c.dead ≡ some n)
      × (free_slots c.readers t.mti_numreaders ≡ free_slots t.mti_readers t.mti_numreaders + n)

-- With less than 2 ^ 31 slots, IDs of processes below 2 ^ 31, memory for the list and a mutex that
-- can always be taken, `mdb_reader_check0` ends with 0: it has freed exactly the used slots of
-- other processes that are found dead before and after the mutex is taken, changed nothing else,
-- and `dead` is the number of slots that it has freed.
pub reader_check0-Complete :
    (sys : System) (t : Txninfo)
    → t.mti_numreaders < 2 ^ 31
    → ((k : ℕ) → k < t.mti_numreaders → (t.mti_readers k).mr_pid < 2 ^ 31)
    → sys.malloc false ≡ true
    → ((i : ℕ) → sys.lock i ≡ pos 0)
    → Returns (reader_check0 sys t) (Complete sys t)
unfolding reader_check0
reader_check0-Complete sys t few narrow room lock =
    let look : Look = record {
      me_pid = sys.me_pid;
      rdrs = t.mti_numreaders;
      alive = sys.alive false;
      acquire = λ i rs.
          if is_zero (sys.lock i)
          then some locked
          else mutex_failed sys t.mti_numreaders rs (sys.lock i);
    } in
    let (a, run, w) =
      scan_loop-Swept look true t.mti_readers narrow (λ i rs. rw (lock i) refl) (omega arith) in
    rw (room, run)
      (
        _,
        refl,
        record {
          code = w.code;
          table = w.table;
          counted = (
            a.1.count,
            omega (arith, w.counted, free_slots-bound a.1.readers t.mti_numreaders),
            refl,
            w.counted,
          );
        },
      )
