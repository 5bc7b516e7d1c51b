-- ===== src/Readers/Check/Sweep.antt =====
-- The state of the scan of `mdb_reader_check0` when it always gets its mutex.
use sam_lmdb_rs.Base.{
  Bool, true, false, ℕ, ◌+◌, ◌-◌, ◌^◌, ◌≤◌, ◌<◌, ◌≡◌, ◌≢◌, ◌⊎◌, inl, inr, arith, refl, sym, ◌∙◌, ap,
  subst, Bool-cases, if◌then◌else◌, ltb, leb, ◌==◌, ◌&&◌, ◌||◌, not, dec_lt,
}
use sam_lmdb_rs.Base.Int.{pos}
use sam_lmdb_rs.Id2.{Sorted}
use sam_lmdb_rs.Id2.Order.{IsAscending}
use sam_lmdb_rs.Readers.{Reader}
use sam_lmdb_rs.Readers.Check.{Scan, Look, free_slot, key_of}
use sam_lmdb_rs.Readers.Check.Insert.{Member, Added, added}
use sam_lmdb_rs.Readers.Check.Clear.{free_slots, cleared}

-- what the system says of a process: it is another one, dead at the first look and, with `recheck`,
-- at the second
abbrev pub is_stale : Look → (recheck : Bool) → ℕ → Bool
is_stale look recheck p =
    not ((p == 0) || (p == look.me_pid))
    && (not (look.alive false p) && not (recheck && look.alive true p))

-- the table with the slots of dead processes free
abbrev pub swept : Look → (recheck : Bool) → (seen : ℕ → Bool) → (ℕ → Reader) → ℕ → Reader
swept look recheck seen r k =
    if ltb k look.rdrs && (seen (r k).mr_pid && is_stale look recheck (r k).mr_pid)
    then free_slot (r k)
    else r k

-- one process more
abbrev pub also : ℕ → (ℕ → Bool) → ℕ → Bool
also pid seen q = (q == pid) || seen q

also_self : (pid : ℕ) (seen : ℕ → Bool) (q : ℕ) → q ≡ pid → also pid seen q ≡ true
also_self pid seen q e = let t : (q == pid) ≡ true = ground arith in rw t refl

also-old : (pid : ℕ) (seen : ℕ → Bool) (q : ℕ) → seen q ≡ true → also pid seen q ≡ true
also-old pid seen q e = ground arith

also-cases :
    (pid : ℕ) (seen : ℕ → Bool) (q : ℕ) → also pid seen q ≡ true → (q ≡ pid) ⊎ (seen q ≡ true)
also-cases pid seen q e = ground arith

-- the third test decides, or the second ones agree
pub choice_same :
    (a b c d : Bool) (x y : Reader)
    → (c ≡ false) ⊎ (b ≡ d)
    → (if a && (b && c) then x else y) ≡ (if a && (d && c) then x else y)
choice_same false b c d x y h = refl
choice_same true false false false x y h = refl
choice_same true false false true x y h = refl
choice_same true true false false x y h = refl
choice_same true true false true x y h = refl
choice_same true b true d x y (inl f) = absurd (ground arith)
choice_same true b true d x y (inr e) = rw e refl

also-other : (pid : ℕ) (seen : ℕ → Bool) (q : ℕ) → (q == pid) ≡ false → seen q ≡ also pid seen q
also-other pid seen q t = rw t refl

module _ (look : Look) (recheck : Bool) (r : ℕ → Reader) where
  -- The state before slot `i`; `seen` are the processes that are in `pids`.
  pub record Inv (seen : ℕ → Bool) (i : ℕ) (s : Scan) : Type 0 where
    pub sorted : IsAscending key_of s.pids
    pub few : s.pids.count ≤ i
    pub members : (k : ℕ) → 1 ≤ k → k ≤ s.pids.count → seen (s.pids.entries k) ≡ true
    pub complete : (p : ℕ) → seen p ≡ true → Member s.pids p
    pub small : (p : ℕ) → seen p ≡ true → p < 2 ^ 31
    pub passed :
        (k : ℕ) → k < i → (r k).mr_pid ≢ 0 → (r k).mr_pid ≢ look.me_pid → seen (r k).mr_pid ≡ true
    pub table : (k : ℕ) → s.readers k ≡ swept look recheck seen r k
    pub counted : free_slots s.readers look.rdrs ≡ free_slots r look.rdrs + s.count

  -- a slot with the process in it has not been freed
  pub kept_lem :
      (seen : ℕ → Bool) (s : Scan) (k : ℕ)
      → ((x : ℕ) → s.readers x ≡ swept look recheck seen r x)
      → (s.readers k).mr_pid ≢ 0
      → s.readers k ≡ r k
  kept_lem seen s k table used =
      let t = table k in
      elim (Bool-cases
        (ltb k look.rdrs && (seen (r k).mr_pid && is_stale look recheck (r k).mr_pid))) [
          | inr no_hit ↦ t ∙ rw no_hit refl
          | inl hit ↦ absurd (used (ap (λ x. x.mr_pid) t ∙ rw hit refl))
        ]

  -- nothing happens at the slot
  pub pass_Inv :
      (seen : ℕ → Bool) (i : ℕ) (s : Scan)
      → Inv seen i s
      → ((r i).mr_pid ≢ 0 → (r i).mr_pid ≢ look.me_pid → seen (r i).mr_pid ≡ true)
      → Inv seen (i + 1) s
  pass_Inv seen i s v here = record {
    sorted = v.sorted;
    few = omega (arith, v.few);
    members = v.members;
    complete = v.complete;
    small = v.small;
    passed = λ k lt used other. elim (dec_lt k i) [
      | yes before ↦ v.passed k before used other
      | no ge ↦
          let e : k ≡ i = omega arith in
          subst (λ z. (r z).mr_pid ≢ 0 → (r z).mr_pid ≢ look.me_pid → seen (r z).mr_pid ≡ true)
            (sym e) here used other
    ];
    table = v.table;
    counted = v.counted;
  }

  -- the slot's process was not seen before
  pub fresh_Inv :
      (seen : ℕ → Bool) (i pid : ℕ) (s : Scan) (pids : Sorted ℕ) (t : Scan)
      → Inv seen i s
      → (s.readers i).mr_pid ≡ pid
      → pid ≢ 0
      → pid < 2 ^ 31
      → Added s.pids pid (pos 0, pids)
      → t.pids ≡ pids
      → ((k : ℕ) → t.readers k ≡ swept look recheck (also pid seen) r k)
      → free_slots t.readers look.rdrs ≡ free_slots r look.rdrs + t.count
      → Inv (also pid seen) (i + 1) t
  fresh_Inv seen i pid s pids t v e used small (added new absent sorted count self old view) same
        table counted =
      let at_i : s.readers i ≡ r i = kept_lem seen s i v.table (ground arith) in
      let pid_i : (r i).mr_pid ≡ pid = ap (λ x. x.mr_pid) (sym at_i) ∙ e in
      record {
        sorted = rw same sorted;
        few = rw same (omega (arith, count, v.few));
        members = rw same (λ k a b. elim (view k a b) [
          | inl self_k ↦ also_self pid seen (pids.entries k) self_k
          | inr (m, c, d, h) ↦
              also-old pid seen (pids.entries k) (subst (λ z. seen z ≡ true) h (v.members m c d))
        ]);
        complete = rw same (λ p h. elim (also-cases pid seen p h) [
          | inl is_pid ↦ rw is_pid self
          | inr was ↦ old p (v.complete p was)
        ]);
        small = λ p h. elim (also-cases pid seen p h) [
          | inl is_pid ↦ omega arith
          | inr was ↦ v.small p was
        ];
        passed = λ k lt used other. elim (dec_lt k i) [
          | yes before ↦ also-old pid seen (r k).mr_pid (v.passed k before used other)
          | no ge ↦
              let k_is : k ≡ i = omega arith in
              also_self pid seen (r k).mr_pid (ap (λ z. (r z).mr_pid) k_is ∙ pid_i)
        ];
        table = table;
        counted = counted;
      }

  -- the tables before and after a process is seen
  module _ (seen : ℕ → Bool) (i pid : ℕ) (s : Scan) (v : Inv seen i s)
      (e : (s.readers i).mr_pid ≡ pid) (used : pid ≢ 0) (other : pid ≢ look.me_pid)
      (new : seen pid ≡ false) (inside : i < look.rdrs) where
    -- it is alive
    pub spared_lem :
        is_stale look recheck pid ≡ false
        → (k : ℕ) → s.readers k ≡ swept look recheck (also pid seen) r k
    spared_lem alive k =
        v.table k
        ∙ choice_same (ltb k look.rdrs) (seen (r k).mr_pid) (is_stale look recheck (r k).mr_pid)
            (also pid seen (r k).mr_pid) (free_slot (r k)) (r k)
            (elim (Bool-cases ((r k).mr_pid == pid)) [
              | inl t ↦
                  let q : (r k).mr_pid ≡ pid = ground arith in
                  inl (ap (is_stale look recheck) q ∙ alive)
              | inr t ↦ inr (also-other pid seen (r k).mr_pid t)
            ])

    of_other : (k : ℕ) → ((r k).mr_pid == pid) ≡ false → ((s.readers k).mr_pid == pid) ≡ false
    of_other k t = elim (Bool-cases ((s.readers k).mr_pid == pid)) [
      | inr miss ↦ miss
      | inl hit ↦
          let same = kept_lem seen s k v.table (ground arith) in
          let pids_same : (s.readers k).mr_pid ≡ (r k).mr_pid = ap (λ z. z.mr_pid) same in
          absurd (ground arith)
    ]

    cleared-miss :
        (k : ℕ)
        → ((s.readers k).mr_pid == pid) ≡ false
        → cleared pid (look.rdrs - i) i s.readers k ≡ s.readers k
    cleared-miss k miss = ground arith

    unseen_passed : (k : ℕ) → (r k).mr_pid ≡ pid → k < i → ⊥
    unseen_passed k q before =
        let t : seen (r k).mr_pid ≡ true =
          v.passed k before (λ z. used (sym q ∙ z)) (λ z. other (sym q ∙ z)) in
        let f : seen (r k).mr_pid ≡ false = rw q new in ground arith

    -- a slot of the process
    of_pid :
        (k : ℕ)
        → (r k).mr_pid ≡ pid
        → is_stale look recheck pid ≡ true
        → cleared pid (look.rdrs - i) i s.readers k ≡ swept look recheck (also pid seen) r k
    of_pid k q dead =
        let unseen : seen (r k).mr_pid ≡ false = rw q new in
        let same : s.readers k ≡ r k = v.table k ∙ ground arith in
        elim (dec_lt k look.rdrs) [
          | no ge ↦
              let out : ltb k look.rdrs ≡ false = ground arith in
              let left : cleared pid (look.rdrs - i) i s.readers k ≡ s.readers k = ground arith in
              left ∙ same ∙ rw out refl
          | yes lt ↦
              let reached : i ≤ k = elim (dec_lt k i) [
                | no ge ↦ omega arith
                | yes before ↦ absurd (unseen_passed k q before)
              ] in
              let a : leb i k ≡ true = ground arith in
              let b : ltb k (i + (look.rdrs - i)) ≡ true = ground arith in
              let c : ltb k look.rdrs ≡ true = ground arith in
              let d : ((r k).mr_pid == pid) ≡ true = ground arith in
              rw (same, a, b, c, d, ap (is_stale look recheck) q, dead) refl
        ]

    pub cleared_lem :
        is_stale look recheck pid ≡ true
        → (k : ℕ)
        → cleared pid (look.rdrs - i) i s.readers k ≡ swept look recheck (also pid seen) r k
    cleared_lem dead k = elim (Bool-cases ((r k).mr_pid == pid)) [
      | inl t ↦ of_pid k (ground arith) dead
      | inr t ↦
          cleared-miss k (of_other k t)
          ∙ v.table k
          ∙ choice_same (ltb k look.rdrs) (seen (r k).mr_pid) (is_stale look recheck (r k).mr_pid)
              (also pid seen (r k).mr_pid) (free_slot (r k)) (r k)
              (inr (also-other pid seen (r k).mr_pid t))
    ]
