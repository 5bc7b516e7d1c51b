-- ===== src/Guard/Invariant.antt =====
-- What holds in every reachable state of the handshake.
use sam_lmdb_rs.Base.{ℕ, ◌+◌, ◌^◌, ◌≤◌, ◌<◌, ◌≡◌, some, Bool, true, false, arith, refl, sym, dec_lt}
use sam_lmdb_rs.Guard.Tally.{update, bit, tally, tally-update, tally-le, bit-le-tally, tally-const}
use sam_lmdb_rs.Guard.{Environment, writing, Pc, Move, System, pick, init, Reach, start, later}

-- The party's contribution to `tx_count`: the fetch_add is made and not undone.
abbrev pub counted : Pc → Bool
counted (Pc.check _) = true
counted (Pc.back _) = true
counted Pc.live = true
counted Pc.live_rw = true
counted _ = false

-- The party's blocker is alive.
abbrev pub blocks : Pc → Bool
blocks Pc.drain = true
blocks Pc.remap = true
blocks _ = false

-- The party holds `db_resize_lock`.
abbrev pub owns_lock : Pc → Bool
owns_lock Pc.locked = true
owns_lock Pc.live_rw = true
owns_lock Pc.drain = true
owns_lock Pc.remap = true
owns_lock (Pc.add writing) = true
owns_lock (Pc.check writing) = true
owns_lock (Pc.back writing) = true
owns_lock (Pc.poll writing) = true
owns_lock _ = false

-- a transaction that has its guard
abbrev pub is_live : Pc → Bool
is_live Pc.live = true
is_live Pc.live_rw = true
is_live _ = false

pub record Inv (n : ℕ) (m : Environment) (pc : ℕ → Pc) : Type 0 where
  pub few : n < 2 ^ 32
  pub transactions : m.tx_count ≡ tally counted n pc
  pub blockers : m.tx_blocker_count ≡ tally blocks n pc
  pub owner : (i : ℕ) → owns_lock (pc i) ≡ true → m.db_resize_lock ≡ some i
  pub beyond : (i : ℕ) → n ≤ i → pc i ≡ Pc.idle
  pub excluded : (i j : ℕ) → pc i ≡ Pc.remap → is_live (pc j) ≡ false

module _ {n : ℕ} {m : Environment} {pc : ℕ → Pc} (inv : Inv n m pc) (i : ℕ) (inside : i < n) where
  open inv use {few, transactions, blockers, owner, beyond, excluded}

  -- Party `i` goes from `p` to `p'`. A match on `Move` needs the variable `p` for `pc i`.
  record Mover (p p' : Pc) : Type 0 where
    here : pc i ≡ p
    in_tally :
        tally counted n (update pc i p') + bit (counted p) ≡ tally counted n pc + bit (counted p')
    in_blocks :
        tally blocks n (update pc i p') + bit (blocks p) ≡ tally blocks n pc + bit (blocks p')
    room : (tally counted n pc ≤ n) × (tally blocks n pc ≤ n)
    room' : (tally counted n (update pc i p') ≤ n) × (tally blocks n (update pc i p') ≤ n)
    own : owns_lock p ≡ true → m.db_resize_lock ≡ some i

  mover : (p' : Pc) → Mover (pc i) p'
  mover p' = record {
    here = refl;
    in_tally = tally-update counted n i pc p' inside;
    in_blocks = tally-update blocks n i pc p' inside;
    room = (tally-le counted n pc, tally-le blocks n pc);
    room' = (tally-le counted n (update pc i p'), tally-le blocks n (update pc i p'));
    own = owner i;
  }

  Move-counts :
      {p p' : Pc} {m' : Environment}
      → Move i m p m' p'
      → Mover p p'
      → (m'.tx_count ≡ tally counted n (update pc i p'))
        × (m'.tx_blocker_count ≡ tally blocks n (update pc i p'))
  Move-counts (Move.begin_ro) f = ground arith
  Move-counts mv f = ground arith

  Move-owner :
      {p p' : Pc} {m' : Environment}
      → Move i m p m' p'
      → Mover p p'
      → (j : ℕ) → owns_lock (update pc i p' j) ≡ true
      → m'.db_resize_lock ≡ some j
  Move-owner (Move.lock free) f j h = ground (arith, owner j)
  Move-owner mv f j h = ground (arith, owner j)

  -- a live party is counted, a party that remaps is tallied among the blockers
  tallied :
      (j : ℕ)
      → (bit (counted (pc j)) ≤ tally counted n pc) × (bit (blocks (pc j)) ≤ tally blocks n pc)
  tallied j = elim (dec_lt j n) [
    | yes low ↦ (bit-le-tally counted n j pc low, bit-le-tally blocks n j pc low)
    | no high ↦ rw (beyond j (omega arith)) (omega arith, omega arith)
  ]

  Move-excluded :
      {p p' : Pc} {m' : Environment}
      → Move i m p m' p'
      → Mover p p'
      → (j k : ℕ) → update pc i p' j ≡ Pc.remap
      → is_live (update pc i p' k) ≡ false
  Move-excluded (Move.go_live clear) f j k h = ground (arith, excluded j k, tallied j)
  Move-excluded (Move.go_live_rw clear) f j k h = ground (arith, excluded j k, tallied j)
  Move-excluded (Move.drained empty) f j k h = ground (arith, excluded j k, tallied k)
  Move-excluded mv f j k h = ground (arith, excluded j k)

  pub Move-Inv : {p' : Pc} {m' : Environment} → Move i m (pc i) m' p' → Inv n m' (update pc i p')
  Move-Inv {p'} mv = record {
    few = few;
    transactions = (Move-counts mv f).0;
    blockers = (Move-counts mv f).1;
    owner = Move-owner mv f;
    beyond = λ j h. ground (arith, beyond j);
    excluded = Move-excluded mv f;
  }
    where
      f : Mover (pc i) p'
      f = mover p'

init-Inv : (n : ℕ) → n < 2 ^ 32 → Inv n init.env init.pc
init-Inv n few = record {
  few = few;
  transactions = sym (tally-const counted n Pc.idle refl);
  blockers = sym (tally-const blocks n Pc.idle refl);
  owner = λ i h. cc;
  beyond = λ i h. refl;
  excluded = λ i j h. refl;
}

-- With fewer than 2^32 parties every reachable state satisfies the invariant.
pub Reach-Inv : {n : ℕ} {s : System} → n < 2 ^ 32 → Reach n s → Inv n s.env s.pc
Reach-Inv {n} few start = init-Inv n few
Reach-Inv few (later r (pick i inside mv)) = Move-Inv (Reach-Inv few r) i inside mv
