-- ===== src/Errors/Roundtrip.antt =====
-- Codes and kinds correspond.
use sam_lmdb_rs.Base.{ℕ, ◌+◌, ◌-◌, ◌≡◌, ◌≢◌, ◌≤◌, arith, refl, some, none, ap, Option, sym, ◌∙◌}
use sam_lmdb_rs.Base.Int.{ℤ, pos, negsuc}
use sam_lmdb_rs.Errors.{
  Error, Kind, known, other, code_of, kind_of, to_err_code, from_err_code, strerror, errstr,
}

kind_of-code_of : (k : Kind) → kind_of (code_of k) ≡ some k
kind_of-code_of Kind.key_exist = refl
kind_of-code_of _ = refl

code_of-kind_of : (n : ℕ) (k : Kind) → kind_of n ≡ some k → code_of k ≡ n
code_of-kind_of n k h = ground arith

entry : (k : Kind) → strerror (to_err_code (known k)) ≡ errstr (30799 - code_of k)
unfolding strerror to_err_code
entry Kind.key_exist = refl
entry _ = refl

code_of-le : (k : Kind) → (code_of k ≤ 30799) × (30780 ≤ code_of k)
code_of-le Kind.key_exist = omega arith
code_of-le _ = omega arith

code_of-injective : (j k : Kind) → code_of j ≡ code_of k → j ≡ k
code_of-injective j k e = cc (kind_of-code_of j, kind_of-code_of k, ap kind_of e)

errstr-injective : (a b : ℕ) → errstr a ≡ errstr b → a ≡ b
errstr-injective a b h = cc

-- Every code survives the way to an `Error` and back.
pub to_err_code-from_err_code : (c : ℤ) → to_err_code (from_err_code c) ≡ c
unfolding to_err_code from_err_code
to_err_code-from_err_code (pos n) = refl
to_err_code-from_err_code (negsuc n) = go (kind_of (n + 1)) refl
  where
    go :
        (o : Option Kind)
        → kind_of (n + 1) ≡ o
        → to_err_code (elim o [ some k ↦ known k | none ↦ other (negsuc n) ]) ≡ negsuc n
    go none e = refl
    go (some k) e = ap negsuc (omega (arith, code_of-kind_of (n + 1) k e))

known_back : (k : Kind) → from_err_code (to_err_code (known k)) ≡ known k
unfolding from_err_code to_err_code
known_back Kind.key_exist = refl
known_back _ = refl

-- An error comes back from its code, unless it is an `Other` that carries a code of the library.
pub from_err_code-to_err_code :
    (e : Error)
    → ((k : Kind) → e ≢ other (negsuc (code_of k - 1)))
    → from_err_code (to_err_code e) ≡ e
unfolding from_err_code to_err_code
from_err_code-to_err_code (known k) h = known_back k
from_err_code-to_err_code (other (pos n)) h = refl
from_err_code-to_err_code (other (negsuc n)) h = go (kind_of (n + 1)) refl
  where
    go :
        (o : Option Kind)
        → kind_of (n + 1) ≡ o
        → ◌≡◌ {A = Error} (elim o [ some k ↦ known k | none ↦ other (negsuc n) ]) (other (negsuc n))
    go none e = refl
    go (some k) e =
        absurd (h k (ap (λ i. other (negsuc i)) (omega (arith, code_of-kind_of (n + 1) k e))))

-- `mdb_strerror` has an entry of its table for the code of every kind, and tells the kinds apart.
pub strerror-known :
    (j k : Kind)
    → (strerror (to_err_code (known k)) ≡ errstr (30799 - code_of k))
      × (strerror (to_err_code (known j)) ≡ strerror (to_err_code (known k)) → j ≡ k)
strerror-known j k = (
  entry k,
  λ e. code_of-injective j k (
      omega
        (arith, code_of-le j, code_of-le k, errstr-injective _ _ (sym (entry j) ∙ e ∙ entry k))),
)
