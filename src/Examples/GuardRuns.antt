-- ===== src/Examples/GuardRuns.antt =====
-- The handshake of src/transaction_guard.rs, step by step: party 0 resizes, party 1 wants to read.
use sam_lmdb_rs.Base.{ℕ, ◌≤◌, ◌≡◌, some, false, arith, refl}
use sam_lmdb_rs.Guard.Tally.{update, tally}
use sam_lmdb_rs.Guard.{
  Environment, reading, writing, Pc, Move, System, pick, Reach, start, later, uses_map,
}
use sam_lmdb_rs.Guard.Invariant.{counted}
use sam_lmdb_rs.Guard.Safety.{
  remap_excludes_transactions, tx_count_exact, single_blocker, writer_not_blocked,
}

abbrev counters : ℕ → ℕ → Environment
counters t b = record { tx_count = t; tx_blocker_count = b; db_resize_lock = some 0 }

abbrev parties : Pc → Pc → ℕ → Pc
parties p q = update (update (λ _. Pc.idle) 0 p) 1 q

-- party 0 has drained the transactions and remaps
abbrev remapping : System
remapping = record {
  env = counters 0 1;
  pc = update (update (update (λ _. Pc.idle) 0 Pc.locked) 0 Pc.drain) 0 Pc.remap;
}

remapping_reached : Reach 2 remapping
remapping_reached =
    later
      (later (later start (pick 0 (omega arith) (Move.lock refl)))
        (pick 0 (omega arith) Move.block))
      (pick 0 (omega arith) (Move.drained refl))

-- party 1 has published itself meanwhile, and will find the blocker
abbrev refused : System
refused = record {
  env = counters 1 1;
  pc = update (update remapping.pc 1 (Pc.add reading)) 1 (Pc.check reading);
}

refused_reached : Reach 2 refused
refused_reached =
    later (later remapping_reached (pick 1 (omega arith) Move.begin_ro))
      (pick 1 (omega arith) Move.publish)

-- party 0 has begun a write transaction, and published its guard
abbrev writing_party : System
writing_party = record {
  env = counters 1 0;
  pc = update (update (update (λ _. Pc.idle) 0 Pc.locked) 0 (Pc.add writing)) 0 (Pc.check writing);
}

writing_reached : Reach 2 writing_party
writing_reached =
    later
      (later (later start (pick 0 (omega arith) (Move.lock refl)))
        (pick 0 (omega arith) Move.begin_rw))
      (pick 0 (omega arith) Move.publish)

remap_excludes_example : uses_map (refused.pc 1) ≡ false
remap_excludes_example = remap_excludes_transactions {n = 2} (omega arith) refused_reached 0 1 refl

tx_count_example : (1 ≡ tally counted 2 refused.pc) × (1 ≤ 2)
tx_count_example = tx_count_exact {n = 2} (omega arith) refused_reached

single_blocker_example : ◌≡◌ {A = ℕ} 0 0 × (refused.env.db_resize_lock ≡ some 0)
single_blocker_example = single_blocker {n = 2} (omega arith) refused_reached 0 0 refl refl

writer_example : writing_party.env.tx_blocker_count ≡ 0
writer_example = writer_not_blocked {n = 2} (omega arith) writing_reached 0 refl
