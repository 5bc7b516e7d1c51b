-- ===== src/Load/Safety.antt =====
-- `readline` and the loop around it end for every input without NUL bytes, whatever `realloc` does.
use sam_lmdb_rs.Base.{ℕ, ◌≤◌, ◌<◌, ◌≡◌, Bool, List, Option, length}
use sam_lmdb_rs.Load.{Input, out, Read}
use sam_lmdb_rs.Load.Chunks.{NoNul}

module _ (realloc : ℕ → Bool) where
  -- what a loop over a line leaves
  abbrev Kept : (size : ℕ) → List ℕ → Option (List ℕ) × ℕ × List ℕ → Type 0
  Kept size s (l, size', s') = (size ≤ size') × NoNul s' × (length s' ≤ length s)

  -- What `readline` leaves: no NUL byte, and less input if it has read a line; the buffer never
  -- shrinks.
  pub record Progress (size : ℕ) (i : Input) (r : Read) : Type 0 where
    pub grows : size ≤ r.size
    pub clean : NoNul r.input.stdin
    pub rest : length r.input.stdin ≤ length i.stdin
    pub reads : (v : List ℕ) → r.result ≡ out v → length r.input.stdin < length i.stdin
