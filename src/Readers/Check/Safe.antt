-- ===== src/Readers/Check/Safe.antt =====
-- A check frees the slots of dead processes only, whichever way it ends.
use sam_lmdb_rs.Base.{
  true, false, ℕ, ◌+◌, ◌^◌, ◌<◌, ◌≡◌, ◌≢◌, ◌⊎◌, inl, inr, some, refl, Bool-cases, Returns,
  if◌then◌else◌,
}
use sam_lmdb_rs.Base.Int.{ℤ}
use sam_lmdb_rs.Errors.{is_zero}
use sam_lmdb_rs.Readers.{Reader, Txninfo}
use sam_lmdb_rs.Readers.Check.{
  Look, not_needed, locked, repaired, refused, System, check_rlocked, mutex_failed, same_code,
  reader_check0,
}
use sam_lmdb_rs.Readers.Check.Table.{
  Safe, Narrow, Repair, by_failure, by_caller, by_lock, by_repair, failed,
}
use sam_lmdb_rs.Readers.Check.Stops.{check_with-Safe}

-- Both looks have found the process dead, or the one of the call that repairs the mutex.
abbrev pub Gone : System → ℕ → Type 0
Gone sys p =
    (p ≢ sys.me_pid)
    × ((sys.alive true false p ≡ false)
        ⊎ ((sys.alive false false p ≡ false) × (sys.alive false true p ≡ false)))

check_rlocked-Safe :
    (sys : System) (rdrs : ℕ) (r : ℕ → Reader)
    → rdrs + 1 < 2 ^ 32
    → Narrow r rdrs
    → Returns (check_rlocked sys rdrs r) (λ c. Safe (Gone sys) r c.readers)
unfolding check_rlocked
check_rlocked-Safe sys rdrs r few narrow =
    let look : Look = record {
      me_pid = sys.me_pid;
      rdrs = rdrs;
      alive = sys.alive true;
      acquire = λ i rs. some not_needed;
    } in
    check_with-Safe look (Gone sys) (λ p other first again. (other, inl first))
      (λ i rs narrow. (not_needed, refl, by_caller (λ p other first. (other, inl first)))) few r
      narrow (sys.malloc true)

repair_lem :
    (sys : System) (r : ℕ → Reader) (rc2 : ℤ) (new : ℕ → Reader)
    → Safe (Gone sys) r new
    → Repair (Gone sys) r (if is_zero rc2 then repaired new else refused rc2 new)
repair_lem sys r rc2 new safe = elim (Bool-cases (is_zero rc2)) [
  | inl ok ↦ rw ok (by_repair new safe)
  | inr bad ↦ rw bad (failed rc2 new bad safe)
]

pub mutex_failed-Repair :
    (sys : System) (rdrs : ℕ) (r : ℕ → Reader) (rc : ℤ)
    → rdrs + 1 < 2 ^ 32
    → Narrow r rdrs
    → is_zero rc ≡ false
    → Returns (mutex_failed sys rdrs r rc) (Repair (Gone sys) r)
unfolding mutex_failed
mutex_failed-Repair sys rdrs r rc few narrow bad = elim (Bool-cases (same_code rc sys.ownerdead)) [
  | inr other ↦ rw other (_, refl, failed rc r bad (λ k. inl refl))
  | inl died ↦
      let (c, run, safe) = check_rlocked-Safe sys rdrs r few narrow in
      let rc2 : ℤ = if is_zero c.rc then sys.mutex_consistent else c.rc in
      rw (died, run) (_, refl, repair_lem sys r rc2 c.readers safe)
]

-- With less than 2 ^ 32 - 1 slots and IDs of processes below 2 ^ 31, `mdb_reader_check0` ends, and
-- whichever way it does, also without memory, without the mutex or after the repair of one whose
-- owner died, a slot is as before or it is free and was that of another process which both looks
-- found dead, or the look of the repair.
pub reader_check0-Safe :
    (sys : System) (t : Txninfo)
    → t.mti_numreaders + 1 < 2 ^ 32
    → Narrow t.mti_readers t.mti_numreaders
    → Returns (reader_check0 sys t) (λ c. Safe (Gone sys) t.mti_readers c.readers)
unfolding reader_check0
reader_check0-Safe sys t few narrow =
    check_with-Safe
      (record {
        me_pid = sys.me_pid;
        rdrs = t.mti_numreaders;
        alive = sys.alive false;
        acquire = λ i rs.
            if is_zero (sys.lock i)
            then some locked
            else mutex_failed sys t.mti_numreaders rs (sys.lock i);
      })
      (Gone sys) (λ p other first again. (other, inr (first, again)))
      (λ i rs narrow_rs. elim (Bool-cases (is_zero (sys.lock i))) [
        | inl ok ↦ rw ok (locked, refl, by_lock)
        | inr bad ↦
            let (a, run, h) =
              mutex_failed-Repair sys t.mti_numreaders rs (sys.lock i) few narrow_rs bad in
            rw bad (a, run, by_failure a h)
      ])
      few t.mti_readers narrow (sys.malloc false)
