-- ===== src/Load/Digits.antt =====
-- Hexadecimal digits, and the escapes of a line.
use sam_lmdb_rs.Base.{
  dec_lt, ◌≤◌, ℕ, zero, suc, ◌<◌, ◌≡◌, ◌≢◌, Bool, true, false, ◌&&◌, List, [], ◌∷◌, ◌++◌, some,
  arith, refl, ltb, ◌==◌, Bool-cases, inl, inr, ◌>>=◌,
}
use sam_lmdb_rs.Dump.{high, low, escape, text_loop, byte_loop, isprint}
use sam_lmdb_rs.Load.{isxdigit, unhex, unhex_digit, unescape, unhex_all}

-- whether all bytes up to `top` pass
passes : (test : ℕ → Bool) → (top : ℕ) → Bool
passes test zero = test zero
passes test (suc top) = passes test top && test (suc top)

passes-lookup : (test : ℕ → Bool) (top c : ℕ) → c ≤ top → passes test top ≡ true → test c ≡ true
unfolding passes
passes-lookup test zero c le h = let e : c ≡ 0 = omega arith in rw e h
passes-lookup test (suc top) c le h = elim (dec_lt c (suc top)) [
  | yes lt ↦ passes-lookup test top c (omega arith) (ground (arith, h))
  | no ge ↦ let e : c ≡ suc top = omega arith in rw e (ground (arith, h))
]

abbrev digits_fit : ℕ → Bool
digits_fit c =
    unhex (high c) (low c) == c
    && (isxdigit (high c) && isxdigit (low c))
    && (ltb b'\n' (high c) && ltb b'\n' (low c))

digits_table : passes digits_fit 255 ≡ true
unfolding passes isxdigit unhex unhex_digit high low
digits_table = refl

digits_lem : (c : ℕ) → c < 256 → digits_fit c ≡ true
digits_lem c h = passes-lookup digits_fit 255 c (omega arith) digits_table

pub unhex-digits : (c : ℕ) → c < 256 → unhex (high c) (low c) ≡ c
unhex-digits c h = ground (arith, digits_lem c h)

-- every element is a byte
abbrev pub Bytes : List ℕ → Type 0
Bytes [] = Unit
Bytes (c ∷ s) = (c < 256) × Bytes s

-- no element ends a line or a string
abbrev pub Plain : List ℕ → Type 0
Plain [] = Unit
Plain (c ∷ s) = (c ≢ b'\n') × (c ≢ 0) × Plain s

pub isxdigit-digits : (c : ℕ) → c < 256 → (isxdigit (high c) && isxdigit (low c)) ≡ true
isxdigit-digits c h = ground (arith, digits_lem c h)

pub digits_plain : (c : ℕ) → c < 256 → (b'\n' < high c) × (b'\n' < low c)
digits_plain c h = ground (arith, digits_lem c h)

-- a byte that is not a backslash stands for itself
unescape_plain :
    (c : ℕ) (s : List ℕ)
    → (c == b'\\') ≡ false
    → unescape (c ∷ s) ≡ (unescape s >>= λ l. some (c ∷ l))
unfolding unescape
unescape_plain c [] h = rw h refl
unescape_plain c (d ∷ []) h = rw (unescape, h) refl
unescape_plain c (d ∷ e ∷ s) h = rw (unescape, h) refl

unescape_backslash :
    (s : List ℕ) → unescape (b'\\' ∷ b'\\' ∷ s) ≡ (unescape s >>= λ l. some (b'\\' ∷ l))
unfolding unescape
unescape_backslash [] = refl
unescape_backslash (e ∷ s) = refl

not_backslash : (c : ℕ) → c < 256 → (high c == b'\\') ≡ false
unfolding isxdigit
not_backslash c h = ground (arith, isxdigit-digits c h)

unescape_hex :
    (c : ℕ) (s : List ℕ)
    → c < 256
    → unescape (b'\\' ∷ high c ∷ low c ∷ s) ≡ (unescape s >>= λ l. some (c ∷ l))
unfolding unescape
unescape_hex c s h =
    let t : (high c == b'\\') ≡ false = not_backslash c h in
    rw (unescape, t, isxdigit-digits c h, unhex-digits c h) refl

pub unescape-escape :
    (c : ℕ) (s : List ℕ) → c < 256 → unescape (escape c ++ s) ≡ (unescape s >>= λ l. some (c ∷ l))
unfolding escape
unescape-escape c s h = elim (Bool-cases (isprint c)) [
  | inr e ↦ rw e (unescape_hex c s h)
  | inl e ↦ rw e (elim (Bool-cases (c == b'\\')) [
    | inr f ↦ rw f (unescape_plain c s f)
    | inl f ↦ let g : c ≡ b'\\' = ground arith in rw (f, g) (unescape_backslash s)
  ])
]

pub unescape-text_loop : (v : List ℕ) → Bytes v → unescape (text_loop v) ≡ some v
unfolding text_loop
unescape-text_loop [] h = unfold unescape in refl
unescape-text_loop (c ∷ v) (h, t) =
    rw (unescape-escape c (text_loop v) h, unescape-text_loop v t) refl

pub unhex_all-byte_loop : (v : List ℕ) → Bytes v → unhex_all (byte_loop v) ≡ some v
unfolding unhex_all byte_loop
unhex_all-byte_loop [] h = refl
unhex_all-byte_loop (c ∷ v) (h, t) =
    rw (unhex_all, isxdigit-digits c h, unhex-digits c h, unhex_all-byte_loop v t) refl

escape-Plain : (c : ℕ) (s : List ℕ) → c < 256 → Plain s → Plain (escape c ++ s)
unfolding escape
escape-Plain c s h p = ground (arith, digits_plain c h)

pub text_loop-Plain : (v : List ℕ) → Bytes v → Plain (text_loop v)
unfolding text_loop
text_loop-Plain [] h = tt
text_loop-Plain (c ∷ v) (h, t) = escape-Plain c (text_loop v) h (text_loop-Plain v t)

pub byte_loop-Plain : (v : List ℕ) → Bytes v → Plain (byte_loop v)
unfolding byte_loop
byte_loop-Plain [] h = tt
byte_loop-Plain (c ∷ v) (h, t) = let p = byte_loop-Plain v t in ground (arith, digits_plain c h)
