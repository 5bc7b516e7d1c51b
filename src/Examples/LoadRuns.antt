-- ===== src/Examples/LoadRuns.antt =====
-- Runs of mdb_dump and mdb_load on small inputs.
use sam_lmdb_rs.Base.{ℕ, ◌≡◌, true, false, some, List, [], ◌∷◌, refl}
use sam_lmdb_rs.Dump.{Mode}
use sam_lmdb_rs.Load.{load_loop}

abbrev records : List (List ℕ × List ℕ)
records = (97 ∷ 92 ∷ [], 0 ∷ 255 ∷ []) ∷ (98 ∷ [], []) ∷ []

-- a record, and a line that ends too early in an escape
abbrev malformed : List ℕ
malformed = b' ' ∷ b'a' ∷ b'\n' ∷ b' ' ∷ b'b' ∷ b'\n' ∷ b' ' ∷ b'\\' ∷ b'0' ∷ b'\n' ∷ []

malformed_runs :
    load_loop
      (λ n. true)
      false
      Mode.print
      11
      2
      2
      (record { stdin = malformed; lineno = 0; eof = false })
    ≡ some (record {
      records = (97 ∷ [], 98 ∷ []) ∷ [];
      complete = true;
      left = record { stdin = []; lineno = 3; eof = true };
    })
unfolding load_loop
malformed_runs = refl
