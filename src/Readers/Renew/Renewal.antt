-- ===== src/Readers/Renew/Renewal.antt =====
-- What `mdb_txn_renew0` does for a reader, on every branch.
use sam_lmdb_rs.Base.{
  Bool, true, false, ℕ, ◌+◌, ◌^◌, ◌≤◌, ◌<◌, ◌≡◌, ◌≢◌, inl, inr, Option, some, none, arith, refl,
  sym, ap, subst, ◌∙◌, Bool-cases, Returns, if◌then◌else◌, ◌==◌, ◌||◌, not,
}
use sam_lmdb_rs.Base.Int.{pos}
use sam_lmdb_rs.Base.Arrays.{store}
use sam_lmdb_rs.Errors.{is_zero}
use sam_lmdb_rs.Readers.{Reader}
use sam_lmdb_rs.Readers.Check.{Acquired, free_slot, repaired, refused, not_needed, locked}
use sam_lmdb_rs.Readers.Check.Table.{Safe, Narrow, Repair, by_repair, failed}
use sam_lmdb_rs.Readers.Check.Safe.{Gone, mutex_failed-Repair}
use sam_lmdb_rs.Readers.Renew.{
  ReaderEnv, Answers, Renewed, readers_full, bad_rslot, no_txnid, free_scan, publish, claim_slot,
  take_slot, lock_slot, keep_slot, go_live, own_slot, with_readers, renew_reader,
}
use sam_lmdb_rs.Readers.Renew.Claim.{
  Free, free_scan-Free, Current, Settles, Others, Published, publish-Published, store-Others,
}

abbrev pub slots : ReaderEnv → ℕ → Reader
slots env = env.me_txns.mti_readers

abbrev pub nr : ReaderEnv → ℕ
nr env = env.me_txns.mti_numreaders

-- What comes of a table for which the mutex is held.
pub data Claim (ans : Answers) (env : ReaderEnv) : Renewed → Type 0 where
  full :
      nr env ≡ env.me_maxreaders
      → ((k : ℕ) → k < nr env → (slots env k).mr_pid ≢ 0)
      → Claim ans env (record { rc = readers_full; env = env; reader = none })
  no_key :
      (c : Renewed) (i : ℕ)
      → Free (slots env) 0 (nr env) i
      → is_zero ans.set_specific ≡ false
      → c.rc ≡ ans.set_specific
      → c.reader ≡ none
      → (slots c.env i).mr_pid ≡ 0
      → Others i (slots env) (slots c.env)
      → Claim ans env c
  claimed :
      (c : Renewed) (i v : ℕ)
      → Free (slots env) 0 (nr env) i
      → i < env.me_maxreaders
      → c.rc ≡ pos 0
      → c.reader ≡ some (i, v)
      → Current ans.mti_txnid v
      → slots c.env i ≡ record { mr_pid = env.me_pid; mr_txnid = v }
      → Others i (slots env) (slots c.env)
      → nr c.env ≡ (if i == nr env then nr env + 1 else nr env)
      → Claim ans env c

module _ (ans : Answers) (fuel : ℕ) (settles : Settles ans.mti_txnid fuel) where
  -- the slot `i` is claimed in `e`, and is then published
  claimed-Claim :
      (env e : ReaderEnv) (i : ℕ)
      → Free (slots env) 0 (nr env) i
      → i < env.me_maxreaders
      → slots e ≡ store (slots env) i (record { mr_pid = env.me_pid; mr_txnid = no_txnid })
      → nr e ≡ (if i == nr env then nr env + 1 else nr env)
      → Returns (publish ans fuel e i) (Claim ans env)
  claimed-Claim env e i free room same count =
      let mine : Reader = record { mr_pid = env.me_pid; mr_txnid = no_txnid } in
      let t : (i == i) ≡ true = ground arith in
      let at_i : slots e i ≡ mine = ap (λ f. f i) same ∙ rw t refl in
      let (c, run, p) = publish-Published ans fuel e i settles in
      (
        c,
        run,
        claimed c i p.txnid free room p.code p.got p.current
            (p.here ∙ ap (λ r. record { mr_pid = r.mr_pid; mr_txnid = p.txnid }) at_i)
            (λ k other.
              p.others k other ∙ ap (λ f. f k) same ∙ store-Others i (slots env) mine k other)
            (p.count ∙ count),
      )

  keep_slot-Claim :
      (env e : ReaderEnv) (i : ℕ) (new_notls : Bool)
      → Free (slots env) 0 (nr env) i
      → i < env.me_maxreaders
      → slots e ≡ store (slots env) i (record { mr_pid = env.me_pid; mr_txnid = no_txnid })
      → nr e ≡ (if i == nr env then nr env + 1 else nr env)
      → Returns (keep_slot ans fuel new_notls e i) (Claim ans env)
  unfolding keep_slot
  keep_slot-Claim env e i true free room same count = claimed-Claim env e i free room same count
  keep_slot-Claim env e i false free room same count =
      elim (Bool-cases (is_zero ans.set_specific)) [
        | inl ok ↦
            rw ok (claimed-Claim env (record e { reader_key = some i }) i free room same count)
        | inr bad ↦
            let mine : Reader = record { mr_pid = env.me_pid; mr_txnid = no_txnid } in
            let t : (i == i) ≡ true = ground arith in
            rw bad (
              _,
              refl,
              no_key _ i free bad refl refl (rw t refl) (λ k other.
                  store-Others i (slots e) (free_slot (slots e i)) k other
                  ∙ (ap (λ f. f k) same ∙ store-Others i (slots env) mine k other)),
            )
      ]

  claim_slot-Claim :
      (env : ReaderEnv) (i : ℕ)
      → Free (slots env) 0 (nr env) i
      → i < env.me_maxreaders
      → Returns (claim_slot ans fuel env i) (Claim ans env)
  unfolding claim_slot
  claim_slot-Claim env i free room = keep_slot-Claim env _ i env.me_notls free room refl refl

  take_slot-Claim :
      (env : ReaderEnv)
      → nr env ≤ env.me_maxreaders
      → Returns (take_slot ans fuel env) (Claim ans env)
  unfolding take_slot
  take_slot-Claim env le =
      let i : ℕ = free_scan (slots env) (nr env) 0 in
      let sum : 0 + nr env ≡ nr env = omega arith in
      let free : Free (slots env) 0 (nr env) i =
        subst (λ z. Free (slots env) 0 z i) sum (free_scan-Free (slots env) (nr env) 0) in
      elim (Bool-cases (i == env.me_maxreaders)) [
        | inl all ↦ rw all (
          _,
          refl,
          full (ground (arith, free.bounded))
              (λ k lt. free.used k (omega arith) (ground (arith, free.bounded))),
        )
        | inr room ↦ rw room (claim_slot-Claim env i free (ground (arith, free.bounded)))
      ]

-- The state before: `mti_txnid` is read twice alike in a round that the fuel is enough for.
pub record IsReady (ans : Answers) (fuel : ℕ) (env : ReaderEnv) : Type 0 where
  pub settles : Settles ans.mti_txnid fuel
  pub room : nr env ≤ env.me_maxreaders
  pub few : nr env + 1 < 2 ^ 32
  pub narrow : Narrow (slots env) (nr env)

-- What the code does for a reader, where `own` is the slot that the thread has.
pub data Renewal (ans : Answers) (env : ReaderEnv) (own : Option ℕ) : Renewed → Type 0 where
  foreign :
      (i : ℕ)
      → own ≡ some i
      → ((slots env i).mr_pid ≡ env.me_pid → (slots env i).mr_txnid ≡ no_txnid → ⊥)
      → Renewal ans env own (record { rc = bad_rslot; env = env; reader = none })
  reused :
      (c : Renewed) (i : ℕ)
      → own ≡ some i
      → (slots env i).mr_pid ≡ env.me_pid
      → (slots env i).mr_txnid ≡ no_txnid
      → Published ans env i c
      → Renewal ans env own c
  not_live :
      own ≡ none
      → env.me_live_reader ≡ false
      → is_zero ans.set_pid ≡ false
      → Renewal ans env own (record { rc = ans.set_pid; env = env; reader = none })
  no_mutex :
      (c : Renewed)
      → own ≡ none
      → is_zero ans.lock ≡ false
      → is_zero c.rc ≡ false
      → c.reader ≡ none
      → Safe (Gone ans.system) (slots env) (slots c.env)
      → Renewal ans env own c
  with_mutex :
      (c : Renewed) (rs : ℕ → Reader)
      → own ≡ none
      → Safe (Gone ans.system) (slots env) rs
      → Claim ans (record (with_readers env rs) { me_live_reader = true }) c
      → Renewal ans env own c

module _ (ans : Answers) (fuel : ℕ) where
  -- what comes after the repair of the mutex
  repaired-Renewal :
      (env : ReaderEnv) (a : Acquired)
      → IsReady ans fuel env
      → is_zero ans.lock ≡ false
      → Repair (Gone ans.system) (slots env) a
      → let live : ReaderEnv = record env { me_live_reader = true } in
        Returns
          (elim a as (λ _. Option Renewed) [
            | repaired rs ↦ take_slot ans fuel (with_readers live rs)
            | refused rc rs ↦ some (record { rc = rc; env = with_readers live rs; reader = none })
            | not_needed ↦ none
            | locked ↦ none
          ])
          (Renewal ans env none)
  repaired-Renewal env _ ready bad (by_repair rs safe) =
      let live : ReaderEnv = record env { me_live_reader = true } in
      let (c, run, claim) =
        take_slot-Claim ans fuel ready.settles (with_readers live rs) ready.room in
      (c, run, with_mutex c rs refl safe claim)
  repaired-Renewal env _ ready bad (failed rc rs wrong safe) =
      (_, refl, no_mutex _ refl bad wrong refl safe)

  lock_slot-Renewal :
      (env : ReaderEnv)
      → IsReady ans fuel env
      → Returns (lock_slot ans fuel (record env { me_live_reader = true })) (Renewal ans env none)
  unfolding lock_slot
  lock_slot-Renewal env ready = elim (Bool-cases (is_zero ans.lock)) [
    | inl ok ↦
        let (c, run, claim) =
          take_slot-Claim ans fuel ready.settles (record env { me_live_reader = true })
            ready.room in
        rw ok (c, run, with_mutex c (slots env) refl (λ k. inl refl) claim)
    | inr bad ↦
        let (a, run, h) =
          mutex_failed-Repair ans.system (nr env) (slots env) ans.lock ready.few ready.narrow bad in
        rw (bad, run) (repaired-Renewal env a ready bad h)
  ]

  go_live-Renewal :
      (env : ReaderEnv) (me_live_reader : Bool)
      → env.me_live_reader ≡ me_live_reader
      → IsReady ans fuel env
      → Returns (go_live ans fuel me_live_reader env) (Renewal ans env none)
  unfolding go_live
  go_live-Renewal env true e ready =
      subst
        (λ b.
          Returns (lock_slot ans fuel (record env { me_live_reader = b })) (Renewal ans env none))
        (sym e) (lock_slot-Renewal env ready)
  go_live-Renewal env false e ready = elim (Bool-cases (is_zero ans.set_pid)) [
    | inl ok ↦ rw ok (lock_slot-Renewal env ready)
    | inr bad ↦ rw bad (_, refl, not_live refl e bad)
  ]

  own_slot-Renewal :
      (env : ReaderEnv) (own : Option ℕ)
      → IsReady ans fuel env
      → Returns (own_slot ans fuel env own) (Renewal ans env own)
  unfolding own_slot
  own_slot-Renewal env (some i) ready =
      elim (Bool-cases
        (not ((slots env i).mr_pid == env.me_pid) || not ((slots env i).mr_txnid == no_txnid))) [
          | inl bad ↦ rw bad (_, refl, foreign i refl (λ p q. ground arith))
          | inr good ↦
              let (c, run, p) = publish-Published ans fuel env i ready.settles in
              rw good (c, run, reused c i refl (ground arith) (ground arith) p)
        ]
  own_slot-Renewal env none ready = go_live-Renewal env env.me_live_reader refl ready

-- For a reader in an environment with a lock file with no more used slots than `me_maxreaders` and
-- less than 2 ^ 32 - 1 of them, IDs of processes below 2 ^ 31, and a `mti_txnid` that is read twice
-- alike in some round, `mdb_txn_renew0` gets to the end of its branch: a slot that the thread has
-- is used again if it is the process's and idle and refused with MDB_BAD_RSLOT otherwise; without
-- one the first free slot is claimed, in a table that the repair of the mutex may have cleared of
-- dead processes, and no other slot is changed; or MDB_READERS_FULL, a failed lock or a failed
-- thread key is reported without a slot.
pub renew_reader-Renewal :
    (ans : Answers) (fuel : ℕ) (env : ReaderEnv) (mt_reader : Option ℕ)
    → IsReady ans fuel env
    → Returns
        (renew_reader ans fuel env mt_reader)
        (Renewal ans env (if env.me_notls then mt_reader else env.reader_key))
unfolding renew_reader
renew_reader-Renewal ans fuel env mt_reader ready =
    own_slot-Renewal ans fuel env (if env.me_notls then mt_reader else env.reader_key) ready
