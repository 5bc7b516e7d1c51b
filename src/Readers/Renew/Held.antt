-- ===== src/Readers/Renew/Held.antt =====
-- A reader that has a slot holds writers back: `mdb_find_oldest` finds nothing above its transaction.
use sam_lmdb_rs.Base.{
  ◌+◌, ℕ, ◌^◌, ◌≤◌, ◌<◌, ◌≡◌, ◌≢◌, Option, some, none, arith, refl, sym, ap, subst, ◌∙◌, Returns,
  if◌then◌else◌,
}
use sam_lmdb_rs.Readers.{find_oldest}
use sam_lmdb_rs.Readers.Oldest.{find_oldest-IsOldest}
use sam_lmdb_rs.Readers.Renew.{ReaderEnv, Answers, Renewed, renew_reader}
use sam_lmdb_rs.Readers.Renew.Renewal.{
  slots, nr, IsReady, Claim, full, no_key, claimed, Renewal, foreign, reused, not_live, no_mutex,
  with_mutex, renew_reader-Renewal,
}

-- the transaction stands in a used slot
record Holds (env : ReaderEnv) (i v : ℕ) : Type 0 where
  inside : i < nr env
  used : (slots env i).mr_pid ≢ 0
  txnid : (slots env i).mr_txnid ≡ v
  few : nr env < 2 ^ 31

Holds-find_oldest :
    (env : ReaderEnv) (i v w : ℕ)
    → Holds env i v
    → 0 < w
    → w < 2 ^ 64
    → find_oldest (some env.me_txns) w ≤ v
Holds-find_oldest env i v w h p q =
    let o = find_oldest-IsOldest env.me_txns w p q h.few in
    omega (arith, o.least i h.inside h.used, h.txnid)

-- the slot that a renewal reports
abbrev Reports : Renewed → Type 0
Reports c = (i v : ℕ) → c.reader ≡ some (i, v) → Holds c.env i v

abbrev slot_of : ℕ × ℕ → Option (ℕ × ℕ) → ℕ × ℕ
slot_of d none = d
slot_of d (some p) = p

nothing : {i v : ℕ} {o : Option (ℕ × ℕ)} {P : Type 0} → o ≡ none → o ≡ some (i, v) → P
nothing e f = cc

at_slot :
    (c : Renewed) (i v : ℕ) (pid : ℕ)
    → c.reader ≡ some (i, v)
    → pid ≢ 0
    → i < nr c.env
    → nr c.env < 2 ^ 31
    → slots c.env i ≡ record { mr_pid = pid; mr_txnid = v }
    → Reports c
at_slot c i v pid got used inside few here i' v' e =
    let same : (i, v) ≡ (i', v') = ap (slot_of (0, 0)) (sym got ∙ e) in
    let same_i : i ≡ i' = ap (λ p. p.0) same in
    let same_v : v ≡ v' = ap (λ p. p.1) same in
    subst (λ z. Holds c.env z v') same_i
      (subst (λ z. Holds c.env i z) same_v
        (record {
          inside = inside;
          used = λ z. used (sym (ap (λ r. r.mr_pid) here) ∙ z);
          txnid = ap (λ r. r.mr_txnid) here;
          few = few;
        }))

Claim-Reports :
    (ans : Answers) (env : ReaderEnv) (c : Renewed)
    → env.me_pid ≢ 0
    → nr env + 1 < 2 ^ 31
    → Claim ans env c
    → Reports c
Claim-Reports ans env _ pid few (full a b) = λ i v e. nothing refl e
Claim-Reports ans env _ pid few (no_key c i a b d none_read f g) = λ i v e. nothing none_read e
Claim-Reports ans env _ pid few (claimed c i v free room code got current here others count) =
    at_slot c i v env.me_pid got pid (ground (arith, count, free.bounded)) (ground (arith, count))
      here

Renewal-Reports :
    (ans : Answers) (env : ReaderEnv) (own : Option ℕ) (c : Renewed)
    → env.me_pid ≢ 0
    → nr env + 1 < 2 ^ 31
    → ((i : ℕ) → own ≡ some i → i < nr env)
    → Renewal ans env own c
    → Reports c
Renewal-Reports ans env own _ pid few inside (foreign i a b) = λ i v e. nothing refl e
Renewal-Reports ans env own _ pid few inside (reused c i a b d p) =
    at_slot c i p.txnid (slots env i).mr_pid p.got (λ z. pid (sym b ∙ z))
      (let lt = inside i a in omega (arith, p.count)) (omega (arith, p.count)) p.here
Renewal-Reports ans env own _ pid few inside (not_live a b d) = λ i v e. nothing refl e
Renewal-Reports ans env own _ pid few inside (no_mutex c a b d none_read f) =
    λ i v e. nothing none_read e
Renewal-Reports ans env own _ pid few inside (with_mutex c rs a safe claim) =
    Claim-Reports ans _ c pid few claim

-- In the same state, for a process with an ID above 0 and a thread whose own slot, if it has one,
-- is in the table: once `mdb_txn_renew0` has given a reader the transaction `v`, `mdb_find_oldest`
-- of a writer with an ID above 0 is not above `v`, if the table has had less than 2 ^ 31 - 1 slots.
pub renew_reader-find_oldest :
    (ans : Answers) (fuel : ℕ) (env : ReaderEnv) (mt_reader : Option ℕ)
    → IsReady ans fuel env
    → env.me_pid ≢ 0
    → nr env + 1 < 2 ^ 31
    → ((i : ℕ) → (if env.me_notls then mt_reader else env.reader_key) ≡ some i → i < nr env)
    → Returns (renew_reader ans fuel env mt_reader) (λ c.
      (i v w : ℕ)
      → c.reader ≡ some (i, v)
      → 0 < w
      → w < 2 ^ 64
      → find_oldest (some c.env.me_txns) w ≤ v)
renew_reader-find_oldest ans fuel env mt_reader ready pid few inside =
    let (c, run, h) = renew_reader-Renewal ans fuel env mt_reader ready in
    (
      c,
      run,
      λ i v w e p q.
          Holds-find_oldest c.env i v w
            (Renewal-Reports ans env (if env.me_notls then mt_reader else env.reader_key) c pid few
              inside h i v e)
            p q,
    )
