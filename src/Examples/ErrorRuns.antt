-- ===== src/Examples/ErrorRuns.antt =====
-- The error codes of src/error.rs.
use sam_lmdb_rs.Base.{◌-◌, ◌≡◌, ◌≢◌, refl}
use sam_lmdb_rs.Base.Int.{pos, negsuc}
use sam_lmdb_rs.Errors.{Kind, other, code_of, to_err_code, from_err_code, strerror, errstr}
use sam_lmdb_rs.Errors.Roundtrip.{to_err_code-from_err_code, from_err_code-to_err_code}

-- MDB_PROBLEM, -30779, has a text but no kind.
problem_is_other : from_err_code (negsuc 30778) ≡ other (negsuc 30778)
unfolding from_err_code
problem_is_other = refl

problem_text : strerror (negsuc 30778) ≡ errstr 20
unfolding strerror
problem_text = refl

not_known : (k : Kind) → other (pos 13) ≢ other (negsuc (code_of k - 1))
not_known k e = cc

code_example : to_err_code (from_err_code (negsuc 30797)) ≡ negsuc 30797
code_example = to_err_code-from_err_code (negsuc 30797)

error_example : from_err_code (to_err_code (other (pos 13))) ≡ other (pos 13)
error_example = from_err_code-to_err_code (other (pos 13)) not_known
