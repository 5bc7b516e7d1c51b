-- ===== src/Readers/Check/Slots.antt =====
-- One round of the scan of `mdb_reader_check0` when it always gets its mutex.
use sam_lmdb_rs.Base.{
  Bool, true, false, ℕ, ◌+◌, ◌-◌, ◌^◌, ◌<◌, ◌≡◌, ◌≢◌, inl, inr, some, arith, refl, sym, ◌∙◌, ap,
  subst, Bool-cases, Returns, if◌then◌else◌, ◌==◌, ◌||◌, not,
}
use sam_lmdb_rs.Base.Int.{ℤ, pos}
use sam_lmdb_rs.Errors.{is_zero}
use sam_lmdb_rs.Id2.{Sorted}
use sam_lmdb_rs.Readers.{Reader}
use sam_lmdb_rs.Readers.Check.{
  Scan, Look, Round, next, not_needed, locked, clear_loop, pid_insert, stale_slot, scan_slot,
}
use sam_lmdb_rs.Readers.Check.Insert.{Added, known, added, Inserted-Added, pid_insert_lem}
use sam_lmdb_rs.Readers.Check.Clear.{clear_loop-Cleared}
use sam_lmdb_rs.Readers.Check.Sweep.{
  Inv, is_stale, kept_lem, pass_Inv, fresh_Inv, spared_lem, cleared_lem, also,
}

module _ (look : Look) (recheck : Bool) (r : ℕ → Reader)
    (narrow : (k : ℕ) → k < look.rdrs → (r k).mr_pid < 2 ^ 31)
    (takes : (i : ℕ) (rs : ℕ → Reader)
      → look.acquire i rs ≡ some (if recheck then locked else not_needed)) where
  -- how the body of the loop ends: the next slot
  data Goes (i : ℕ) : Round → Type 0 where
    goes : (seen : ℕ → Bool) (s : Scan) → Inv look recheck r seen (i + 1) s → Goes i (next s)

  module _ (few_slots : look.rdrs + 1 < 2 ^ 32) (seen : ℕ → Bool) (i : ℕ) (s : Scan)
      (v : Inv look recheck r seen i s) (inside : i < look.rdrs) where
    small_lem : (pid : ℕ) → (s.readers i).mr_pid ≡ pid → pid ≢ 0 → pid < 2 ^ 31
    small_lem pid e used =
        let at_i : s.readers i ≡ r i = kept_lem look recheck r seen s i v.table (ground arith) in
        let pid_i : (r i).mr_pid ≡ pid = ap (λ x. x.mr_pid) (sym at_i) ∙ e in
        omega (arith, narrow i inside)

    -- the process of the slot is dead
    freed_Goes :
        (pid : ℕ) (pids : Sorted ℕ)
        → (s.readers i).mr_pid ≡ pid
        → pid ≢ 0
        → pid ≢ look.me_pid
        → seen pid ≡ false
        → Added s.pids pid (pos 0, pids)
        → is_stale look recheck pid ≡ true
        → Goes i (next (clear_loop pid (look.rdrs - i) i (record s { pids = pids })))
    freed_Goes pid pids e used other new a dead =
        let s' : Scan = record s { pids = pids } in
        let c = clear_loop-Cleared pid (look.rdrs - i) i look.rdrs s' used (omega arith) in
        goes (also pid seen) (clear_loop pid (look.rdrs - i) i s') (
          fresh_Inv look recheck r seen i pid s pids (clear_loop pid (look.rdrs - i) i s') v e used
            (small_lem pid e used) a c.same
            (λ k.
              c.table k ∙ cleared_lem look recheck r seen i pid s v e used other new inside dead k)
            (omega (arith, c.counted (omega (arith, v.counted)) (omega arith), v.counted)))

    spared_Goes :
        (pid : ℕ) (pids : Sorted ℕ)
        → (s.readers i).mr_pid ≡ pid
        → pid ≢ 0
        → pid ≢ look.me_pid
        → seen pid ≡ false
        → Added s.pids pid (pos 0, pids)
        → is_stale look recheck pid ≡ false
        → Goes i (next (record s { pids = pids }))
    spared_Goes pid pids e used other new a alive =
        goes (also pid seen) (record s { pids = pids })
          (fresh_Inv look recheck r seen i pid s pids (record s { pids = pids }) v e used
            (small_lem pid e used) a refl
            (spared_lem look recheck r seen i pid s v e used other new inside alive) v.counted)

    -- the two looks at the process
    looked_Goes :
        (pid : ℕ) (pids : Sorted ℕ)
        → (s.readers i).mr_pid ≡ pid
        → pid ≢ 0
        → pid ≢ look.me_pid
        → seen pid ≡ false
        → Added s.pids pid (pos 0, pids)
        → Returns
            (if look.alive false pid
              then some (next (record s { pids = pids }))
              else stale_slot look i pid (record s { pids = pids }))
            (Goes i)
    unfolding stale_slot
    looked_Goes pid pids e used other new a =
        let mine : ((pid == 0) || (pid == look.me_pid)) ≡ false = ground arith in
        elim (Bool-cases (look.alive false pid)) [
          | inl first ↦
              rw first (_, refl, spared_Goes pid pids e used other new a (rw (mine, first) refl))
          | inr first ↦
              rw (first, stale_slot, takes i s.readers)
                (elim (Bool-cases recheck) [
                  | inr only ↦ rw only (
                    _,
                    refl,
                    freed_Goes pid pids e used other new a (rw (mine, first, only) refl),
                  )
                  | inl both ↦ elim (Bool-cases (look.alive true pid)) [
                    | inl second ↦
                        rw (both, second)
                          (
                            _,
                            refl,
                            spared_Goes pid pids e used other new a
                                (rw (mine, first, both, second) refl),
                          )
                    | inr second ↦
                        rw (both, second)
                          (
                            _,
                            refl,
                            freed_Goes pid pids e used other new a
                                (rw (mine, first, both, second) refl),
                          )
                  ]
                ])
        ]

    insert_Added : (pid : ℕ) → pid < 2 ^ 31 → Returns (pid_insert s.pids pid) (Added s.pids pid)
    insert_Added pid narrow_pid =
        let (p, run, h) =
          pid_insert_lem s.pids pid (omega (arith, v.few)) v.sorted narrow_pid
            (λ k a b. v.small (s.pids.entries k) (v.members k a b)) in
        (p, run, Inserted-Added s.pids pid p h)

    by_insert :
        (pid : ℕ) (a : ℤ × Sorted ℕ)
        → (s.readers i).mr_pid ≡ pid
        → pid ≢ 0
        → pid ≢ look.me_pid
        → Added s.pids pid a
        → Returns
            (if not (is_zero a.0) || look.alive false pid
              then some (next (record s { pids = a.1 }))
              else stale_slot look i pid (record s { pids = a.1 }))
            (Goes i)
    by_insert pid _ e used other (known (k, a, b, h)) =
        let at_i : s.readers i ≡ r i = kept_lem look recheck r seen s i v.table (ground arith) in
        let pid_i : (r i).mr_pid ≡ pid = ap (λ x. x.mr_pid) (sym at_i) ∙ e in
        (
          _,
          refl,
          goes seen s (
              pass_Inv look recheck r seen i s v
                (λ p q. subst (λ z. seen z ≡ true) (h ∙ sym pid_i) (v.members k a b))),
        )
    by_insert pid _ e used other (added new absent sorted count self old view) =
        looked_Goes pid new e used other
          (elim (Bool-cases (seen pid)) [ inr f ↦ f | inl t ↦ absurd (absent (v.complete pid t)) ])
          (added new absent sorted count self old view)

    scan_slot_lem : Returns (scan_slot look i s) (Goes i)
    unfolding scan_slot
    scan_slot_lem =
        elim (Bool-cases (((s.readers i).mr_pid == 0) || ((s.readers i).mr_pid == look.me_pid))) [
          | inl skip ↦ rw skip (
            _,
            refl,
            goes seen s (
                pass_Inv look recheck r seen i s v (λ p q. elim (Bool-cases (seen (r i).mr_pid)) [
                  | inl t ↦ t
                  | inr unseen ↦
                      let same : s.readers i ≡ r i = v.table i ∙ ground arith in
                      let pids_same : (s.readers i).mr_pid ≡ (r i).mr_pid =
                        ap (λ z. z.mr_pid) same in
                      absurd (ground arith)
                ])),
          )
          | inr used ↦
              let pid_used : (s.readers i).mr_pid ≢ 0 = ground arith in
              let pid_other : (s.readers i).mr_pid ≢ look.me_pid = ground arith in
              let pids_same : (s.readers i).mr_pid ≡ (r i).mr_pid =
                ap (λ z. z.mr_pid) (kept_lem look recheck r seen s i v.table pid_used) in
              let (a, run, h) =
                insert_Added (s.readers i).mr_pid (omega (arith, narrow i inside)) in
              rw (used, run) (by_insert (s.readers i).mr_pid a refl pid_used pid_other h)
        ]

    next_of :
        (o : Round)
        → Goes i o
        → (seen' : ℕ → Bool) × (s' : Scan) × (o ≡ next s') × Inv look recheck r seen' (i + 1) s'
    next_of _ (goes seen' s' w) = (seen', s', refl, w)

    pub scan_slot_next :
        (seen' : ℕ → Bool) × (s' : Scan) × (scan_slot look i s ≡ some (next s'))
        × Inv look recheck r seen' (i + 1) s'
    scan_slot_next =
        let (o, run, g) = scan_slot_lem in
        let (seen', s', e, w) = next_of o g in (seen', s', run ∙ ap some e, w)
