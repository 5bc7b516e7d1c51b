-- ===== src/Errors.antt =====
-- src/error.rs: the error kinds and their codes; and mdb_strerror of liblmdb/mdb.c.
-- A `c_int` is an integer; `negsuc n` is -(n + 1). The texts of the operating system's `strerror`
-- are not modelled: `system` names the call.
pub mod Roundtrip
use sam_lmdb_rs.Base.{
  ℕ, ◌+◌, ◌-◌, ◌≡◌, Option, none, some, List, [], ◌∷◌, if◌then◌else◌, ◌==◌, leb, ◌&&◌, get_elem?,
  Bool, true, false,
}
use sam_lmdb_rs.Base.Int.{ℤ, pos, negsuc}

-- `Error`; the library's own kinds in the order of their codes
pub data Kind : Type 0 where
  key_exist not_found page_not_found corrupted panic : Kind
  version_mismatch invalid map_full dbs_full readers_full : Kind
  tls_full txn_full cursor_full page_full map_resized : Kind
  incompatible bad_rslot bad_txn bad_val_size bad_dbi : Kind

pub data Error : Type 0 where
  known : Kind → Error
  other : ℤ → Error

-- MDB_KEYEXIST is -30799, MDB_BAD_DBI -30780.
abbrev pub code_of : Kind → ℕ
code_of key_exist = 30799
code_of not_found = 30798
code_of page_not_found = 30797
code_of corrupted = 30796
code_of panic = 30795
code_of version_mismatch = 30794
code_of invalid = 30793
code_of map_full = 30792
code_of dbs_full = 30791
code_of readers_full = 30790
code_of tls_full = 30789
code_of txn_full = 30788
code_of cursor_full = 30787
code_of page_full = 30786
code_of map_resized = 30785
code_of incompatible = 30784
code_of bad_rslot = 30783
code_of bad_txn = 30782
code_of bad_val_size = 30781
code_of bad_dbi = 30780

-- `Error::to_err_code`
unfoldable pub to_err_code : Error → ℤ
to_err_code (known k) = negsuc (code_of k - 1)
to_err_code (other c) = c

-- the arms of the `match` for negative codes, tried in order: `n` is the code's absolute value
abbrev pub kind_of : ℕ → Option Kind
kind_of n =
    if n == 30799
    then some key_exist
    else if n == 30798
    then some not_found
    else if n == 30797
    then some page_not_found
    else if n == 30796
    then some corrupted
    else if n == 30795
    then some panic
    else if n == 30794
    then some version_mismatch
    else if n == 30793
    then some invalid
    else if n == 30792
    then some map_full
    else if n == 30791
    then some dbs_full
    else if n == 30790
    then some readers_full
    else if n == 30789
    then some tls_full
    else if n == 30788
    then some txn_full
    else if n == 30787
    then some cursor_full
    else if n == 30786
    then some page_full
    else if n == 30785
    then some map_resized
    else if n == 30784
    then some incompatible
    else if n == 30783
    then some bad_rslot
    else if n == 30782
    then some bad_txn
    else if n == 30781
    then some bad_val_size
    else if n == 30780
    then some bad_dbi
    else none

-- `Error::from_err_code`
unfoldable pub from_err_code : ℤ → Error
from_err_code (pos n) = other (pos n)
from_err_code (negsuc n) = elim (kind_of (n + 1)) [ some k ↦ known k | none ↦ other (negsuc n) ]

-- `lmdb_result`
pub data LmdbResult : Type 0 where
  ok : LmdbResult
  err : Error → LmdbResult

abbrev pub is_zero : ℤ → Bool
is_zero (pos n) = n == 0
is_zero (negsuc n) = false

unfoldable pub lmdb_result : ℤ → LmdbResult
unfolding from_err_code
lmdb_result c = if is_zero c then ok else err (from_err_code c)

-- what `mdb_strerror` returns: the text for 0, an entry of `mdb_errstr`, the fixed text for another
-- negative number, or the system's text
pub data Message : Type 0 where
  successful invalid_code : Message
  errstr : ℕ → Message
  system : ℕ → Message

-- `err >= MDB_KEYEXIST && err <= MDB_LAST_ERRCODE`, with MDB_PROBLEM, -30779, the last
unfoldable pub strerror : ℤ → Message
strerror (pos n) = if n == 0 then successful else system n
strerror (negsuc n) =
    if leb (n + 1) 30799 && leb 30779 (n + 1) then errstr (30799 - (n + 1)) else invalid_code
