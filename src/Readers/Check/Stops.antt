-- ===== src/Readers/Check/Stops.antt =====
-- The scan of `mdb_reader_check0` ends with a safe table, whatever the attempt to take the mutex
-- gives.
use sam_lmdb_rs.Base.{
  Bool, true, false, ℕ, zero, suc, ◌+◌, ◌-◌, ◌^◌, ◌≤◌, ◌<◌, ◌≡◌, ◌≢◌, ◌⊎◌, inl, inr, Option, some,
  arith, refl, sym, subst, Bool-cases, Returns, if◌then◌else◌, ltb, leb, ◌==◌, ◌&&◌, ◌||◌, not,
}
use sam_lmdb_rs.Base.Int.{ℤ, pos}
use sam_lmdb_rs.Errors.{is_zero}
use sam_lmdb_rs.Id2.{Sorted}
use sam_lmdb_rs.Id2.Order.{IsAscending}
use sam_lmdb_rs.Readers.{Reader}
use sam_lmdb_rs.Readers.Check.{
  Scan, Look, Round, next, finish, Acquired, not_needed, locked, repaired, refused, free_slot,
  clear_loop, stale_slot, scan_slot, scan_loop, key_of, check_with,
}
use sam_lmdb_rs.Readers.Check.Insert.{Added, known, added, Inserted-Added, pid_insert_lem}
use sam_lmdb_rs.Readers.Check.Clear.{cleared, clear_loop-Cleared}
use sam_lmdb_rs.Readers.Check.Table.{
  Safe, Safe-trans, Narrow, Safe-Narrow, Takes, by_caller, by_lock, by_failure, by_repair, failed,
}

module _ (look : Look) (Dead : ℕ → Type 0)
    (dead_lem : (p : ℕ)
      → p ≢ look.me_pid
      → look.alive false p ≡ false
      → look.alive true p ≡ false
      → Dead p)
    (takes : (i : ℕ) (rs : ℕ → Reader)
      → Narrow rs look.rdrs
      → Returns (look.acquire i rs) (Takes look Dead rs))
    (few_slots : look.rdrs + 1 < 2 ^ 32) (r : ℕ → Reader) (narrow : Narrow r look.rdrs) where
  -- the state before slot `i`
  record Inv (i : ℕ) (s : Scan) : Type 0 where
    sorted : IsAscending key_of s.pids
    few : s.pids.count ≤ i
    small : (k : ℕ) → 1 ≤ k → k ≤ s.pids.count → s.pids.entries k < 2 ^ 31
    safe : Safe Dead r s.readers

  data Ends (i : ℕ) : Round → Type 0 where
    goes : (s : Scan) → Inv (i + 1) s → Ends i (next s)
    stops : (rc : ℤ) (s : Scan) → Safe Dead r s.readers → Ends i (finish rc s)

  -- the slots of one dead process are freed
  cleared-Safe :
      (pid k j : ℕ) (rs : ℕ → Reader) → pid ≢ 0 → Dead pid → Safe Dead rs (cleared pid k j rs)
  cleared-Safe pid k j rs used dead x =
      elim (Bool-cases ((leb j x && ltb x (j + k)) && ((rs x).mr_pid == pid))) [
        | inl hit ↦
            let e : (rs x).mr_pid ≡ pid = ground arith in inr (rw hit refl, rw e used, rw e dead)
        | inr miss ↦ inl (rw miss refl)
      ]

  module _ (i : ℕ) (s : Scan) (v : Inv i s) (inside : i < look.rdrs) where
    Added-Inv :
        (pid : ℕ) (pids : Sorted ℕ)
        → pid < 2 ^ 31
        → Added s.pids pid (pos 0, pids)
        → Inv (i + 1) (record s { pids = pids })
    Added-Inv pid pids small (added new absent sorted count self old view) = record {
      sorted = sorted;
      few = omega (arith, count, v.few);
      small = λ k a b. elim (view k a b) [
        | inl e ↦ rw e small
        | inr (m, c, d, e) ↦ rw (sym e) (v.small m c d)
      ];
      safe = v.safe;
    }

    freed-Inv :
        (pid : ℕ) (t : Scan)
        → Inv (i + 1) t
        → pid ≢ 0
        → Dead pid
        → Inv (i + 1) (clear_loop pid (look.rdrs - i) i t)
    freed-Inv pid t w used dead =
        let c = clear_loop-Cleared pid (look.rdrs - i) i look.rdrs t used (omega arith) in
        record {
          sorted = rw c.same w.sorted;
          few = rw c.same w.few;
          small = rw c.same w.small;
          safe =
              Safe-trans Dead r t.readers (clear_loop pid (look.rdrs - i) i t).readers w.safe (λ k.
                subst
                  (λ z.
                    (z ≡ t.readers k)
                    ⊎ ((z ≡ free_slot (t.readers k))
                        × ((t.readers k).mr_pid ≢ 0)
                        × Dead (t.readers k).mr_pid))
                  (sym (c.table k)) (cleared-Safe pid (look.rdrs - i) i t.readers used dead k));
        }

    by_acquired :
        (pid : ℕ) (t : Scan) (a : Acquired)
        → Inv (i + 1) t
        → pid ≢ 0
        → pid ≢ look.me_pid
        → look.alive false pid ≡ false
        → Takes look Dead t.readers a
        → Returns
            (elim a as (λ _. Option Round) [
              | not_needed ↦ some (next (clear_loop pid (look.rdrs - i) i t))
              | locked ↦
                  if look.alive true pid
                  then some (next t)
                  else some (next (clear_loop pid (look.rdrs - i) i t))
              | repaired readers ↦ some (finish (pos 0) (record t { readers = readers }))
              | refused rc readers ↦ some (finish rc (record t { readers = readers }))
            ])
            (Ends i)
    by_acquired pid t _ w used other first (by_caller dead) =
        (_, refl, goes _ (freed-Inv pid t w used (dead pid other first)))
    by_acquired pid t _ w used other first by_lock = elim (Bool-cases (look.alive true pid)) [
      | inl again ↦ rw again (_, refl, goes t w)
      | inr gone ↦
          rw gone (_, refl, goes _ (freed-Inv pid t w used (dead_lem pid other first gone)))
    ]
    by_acquired pid t _ w used other first (by_failure _ (by_repair new h)) =
        (_, refl, stops _ _ (Safe-trans Dead r t.readers new w.safe h))
    by_acquired pid t _ w used other first (by_failure _ (failed rc new bad h)) =
        (_, refl, stops _ _ (Safe-trans Dead r t.readers new w.safe h))

    stale-Ends :
        (pid : ℕ) (t : Scan)
        → Inv (i + 1) t
        → pid ≢ 0
        → pid ≢ look.me_pid
        → look.alive false pid ≡ false
        → Returns (stale_slot look i pid t) (Ends i)
    unfolding stale_slot
    stale-Ends pid t w used other first =
        let (a, run, h) =
          takes i t.readers (Safe-Narrow Dead r t.readers look.rdrs w.safe narrow) in
        rw (stale_slot, run) (by_acquired pid t a w used other first h)

    by_insert :
        (pid : ℕ) (a : ℤ × Sorted ℕ)
        → pid ≢ 0
        → pid ≢ look.me_pid
        → pid < 2 ^ 31
        → Added s.pids pid a
        → Returns
            (if not (is_zero a.0) || look.alive false pid
              then some (next (record s { pids = a.1 }))
              else stale_slot look i pid (record s { pids = a.1 }))
            (Ends i)
    by_insert pid _ used other small (known m) = (
      _,
      refl,
      goes s (record {
        sorted = v.sorted;
        few = omega (arith, v.few);
        small = v.small;
        safe = v.safe;
      }),
    )
    by_insert pid _ used other small (added new absent sorted count self old view) =
        let w = Added-Inv pid new small (added new absent sorted count self old view) in
        elim (Bool-cases (look.alive false pid)) [
          | inl first ↦ rw first (_, refl, goes _ w)
          | inr first ↦ rw first (stale-Ends pid (record s { pids = new }) w used other first)
        ]

    scan_slot-Ends : Returns (scan_slot look i s) (Ends i)
    unfolding scan_slot
    scan_slot-Ends =
        elim (Bool-cases (((s.readers i).mr_pid == 0) || ((s.readers i).mr_pid == look.me_pid))) [
          | inl skip ↦ rw skip (
            _,
            refl,
            goes s (record {
              sorted = v.sorted;
              few = omega (arith, v.few);
              small = v.small;
              safe = v.safe;
            }),
          )
          | inr used ↦
              let pid_used : (s.readers i).mr_pid ≢ 0 = ground arith in
              let pid_other : (s.readers i).mr_pid ≢ look.me_pid = ground arith in
              let small = Safe-Narrow Dead r s.readers look.rdrs v.safe narrow i inside in
              let (a, run, h) =
                pid_insert_lem s.pids (s.readers i).mr_pid (omega (arith, v.few)) v.sorted small
                  v.small in
              rw (used, run)
                (by_insert (s.readers i).mr_pid a pid_used pid_other small
                  (Inserted-Added s.pids (s.readers i).mr_pid a h))
        ]

  -- how the loop goes on
  by_end :
      (k i : ℕ) (o : Round)
      → Ends i o
      → ((s : Scan)
          → Inv (i + 1) s
          → Returns (scan_loop look k (i + 1) s) (λ a. Safe Dead r a.1.readers))
      → Returns
          (elim o as (λ _. Option (ℤ × Scan)) [
            | next s' ↦ scan_loop look k (i + 1) s'
            | finish rc s' ↦ some (rc, s')
          ])
          (λ a. Safe Dead r a.1.readers)
  by_end k i _ (goes s w) ind = ind s w
  by_end k i _ (stops rc s safe) ind = (_, refl, safe)

  scan_loop-Safe :
      (k i : ℕ) (s : Scan)
      → i + k ≡ look.rdrs
      → Inv i s
      → Returns (scan_loop look k i s) (λ a. Safe Dead r a.1.readers)
  unfolding scan_loop
  scan_loop-Safe zero i s sum v = (_, refl, v.safe)
  scan_loop-Safe (suc k) i s sum v =
      let (o, run, e) = scan_slot-Ends i s v (omega arith) in
      rw run (by_end k i o e (λ s' w. scan_loop-Safe k (i + 1) s' (omega arith) w))

  pub check_with-Safe :
      (malloc : Bool) → Returns (check_with malloc look r) (λ c. Safe Dead r c.readers)
  check_with-Safe false = (_, refl, λ k. inl refl)
  check_with-Safe true =
      let start : Scan = record {
        readers = r;
        pids = record { count = 0; entries = λ _. 0 };
        count = 0;
      } in
      let (a, run, safe) = scan_loop-Safe look.rdrs 0 start (omega arith) (record {
        sorted = λ i j p q u. absurd (omega arith);
        few = omega arith;
        small = λ k p q. absurd (omega arith);
        safe = λ k. inl refl;
      }) in
      rw run (_, refl, safe)
