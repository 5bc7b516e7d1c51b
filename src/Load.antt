-- ===== src/Load.antt =====
-- liblmdb/mdb_load.c: how a line with a key or with data is read. The standard input is the list of
-- the bytes that are left. A result `none` is a read or a write outside a buffer, or lack of fuel.
pub mod Digits
pub mod Lines
pub mod Roundtrip
pub mod Chunks
pub mod Safety
use Prim.Native.Nat.{bit_and, bit_or}
use sam_lmdb_rs.Base.{
  ℕ, zero, suc, ◌+◌, ◌-◌, ◌*◌, ◌/◌, ◌%◌, Bool, true, false, ◌&&◌, ◌||◌, not, List, [], ◌∷◌, ◌++◌,
  Option, none, some, length, take, drop, if◌then◌else◌, leb, ◌==◌, ◌>>=◌,
}
use sam_lmdb_rs.Dump.{Mode}

unfoldable pub isxdigit : ℕ → Bool
isxdigit c = leb b'0' c && leb c b'9' || (leb b'a' c && leb c b'f' || leb b'A' c && leb c b'F')

-- `unhex` of the two bytes at its argument
unfoldable pub unhex_digit : ℕ → ℕ
unhex_digit c = let x = bit_and c 0x4f in if bit_and x 0x40 == 0 then x else x - 55

unfoldable pub unhex : ℕ → ℕ → ℕ
unfolding unhex_digit
unhex a b = bit_or (unhex_digit a * 16) (unhex_digit b) % 256

-- `fgets`: up to `k` bytes of a line
unfoldable pub take_line : ℕ → List ℕ → List ℕ × List ℕ
take_line zero s = ([], s)
take_line (suc k) [] = ([], [])
take_line (suc k) (c ∷ s) =
    let (l, r) = take_line k s in if c == b'\n' then (c ∷ [], s) else (c ∷ l, r)

unfoldable pub fgets : ℕ → List ℕ → Option (List ℕ × List ℕ)
unfolding take_line
fgets size [] = none
fgets size (c ∷ s) = some (take_line (size - 1) (c ∷ s))

-- `fgets` to an offset in a block of `block` bytes, which has to have room for all that it may write
unfoldable pub fgets_at : (block offset size : ℕ) → List ℕ → Option (Option (List ℕ × List ℕ))
unfolding fgets
fgets_at block offset size s = if leb (offset + size) block then some (fgets size s) else none

-- the bytes that `strlen` counts
unfoldable pub cstr : List ℕ → List ℕ
cstr [] = []
cstr (c ∷ s) = let l = cstr s in if c == 0 then [] else c ∷ l

abbrev pub last : List ℕ → Option ℕ
last [] = none
last (c ∷ []) = some c
last (c ∷ d ∷ s) = last (d ∷ s)

-- `strncmp(s, prefix, strlen(prefix)) == 0`
unfoldable pub has_prefix : List ℕ → List ℕ → Bool
has_prefix [] s = true
has_prefix (p ∷ ps) [] = false
has_prefix (p ∷ ps) (c ∷ s) = p == c && has_prefix ps s

-- the statics that `readline` changes
pub record Input : Type 0 where
  pub stdin : List ℕ
  pub lineno : ℕ
  pub eof : Bool

-- The result of `readline`: 0 with `out`, or EOF; what it leaves, and the new size of the buffer.
pub data Line : Type 0 where
  out : List ℕ → Line
  end : Line

pub record Read : Type 0 where
  pub result : Line
  pub input : Input
  pub size : ℕ

abbrev pub returned : List ℕ → Input → ℕ → Read
returned v i size = record { result = out v; input = i; size = size }

-- the end of the input, with or without a message
abbrev pub stop : Input → ℕ → Read
stop i size = record { result = end; input = record i { eof = true }; size = size }

-- The loop for a buffer that is too short. `acc` is what the buffer holds, up to `l2`; `size` is
-- `buf->mv_size`, and `realloc n` tells whether `realloc` gives a block of `n` bytes. The line, or
-- `none` for EOF.
unfoldable pub read_long :
    (realloc : ℕ → Bool)
    → ℕ
    → (acc : List ℕ) → (size : ℕ) → List ℕ
    → Option (Option (List ℕ) × ℕ × List ℕ)
unfolding fgets_at cstr
read_long realloc zero acc size s = none
read_long realloc (suc fuel) acc size s = elim (last acc) [
  | none ↦ none
  | some c ↦ elim (c == b'\n') [
    | true ↦ some (some acc, size, s)
    | false ↦ elim (realloc (size * 2)) [
      | false ↦ some (none, size, s)
      | true ↦ fgets_at (size * 2) (length acc) (size + 1) s >>= λ got. elim got [
        | none ↦ some (none, size, s)
        | some (chunk, rest) ↦ read_long realloc fuel (acc ++ cstr chunk) (size * 2) rest
      ]
    ]
  ]
]

-- The loops over the line without its newline; `none` is a bad escape or a digit that is none.
unfoldable pub unescape : List ℕ → Option (List ℕ)
unfolding isxdigit unhex
unescape [] = some []
unescape (c ∷ []) = if c == b'\\' then none else some (c ∷ [])
unescape (c ∷ d ∷ []) = elim (c == b'\\') [
  | true ↦ if d == b'\\' then some (c ∷ []) else none
  | false ↦ unescape (d ∷ []) >>= λ l. some (c ∷ l)
]
unescape (c ∷ d ∷ e ∷ s) = elim (c == b'\\') [
  | true ↦ elim (d == b'\\') [
    | true ↦ unescape (e ∷ s) >>= λ l. some (c ∷ l)
    | false ↦ elim (isxdigit d && isxdigit e) [
      | true ↦ unescape s >>= λ l. some (unhex d e ∷ l)
      | false ↦ none
    ]
  ]
  | false ↦ unescape (d ∷ e ∷ s) >>= λ l. some (c ∷ l)
]

unfoldable pub unhex_all : List ℕ → Option (List ℕ)
unfolding isxdigit unhex
unhex_all [] = some []
unhex_all (c ∷ []) = none
unhex_all (c ∷ d ∷ s) = elim (isxdigit c && isxdigit d) [
  | true ↦ unhex_all s >>= λ l. some (unhex c d ∷ l)
  | false ↦ none
]

abbrev pub decode : Mode → List ℕ → Option (List ℕ)
decode Mode.print = unescape
decode Mode.bytevalue = unhex_all

-- from the newline on, with what `read_long` has left
unfoldable pub decode_line : Mode → Input → Option (List ℕ) × ℕ × List ℕ → Read
unfolding unescape unhex_all
decode_line mode i (none, size, s) = stop (record i { stdin = s }) size
decode_line mode i (some l, size, s) = elim (decode mode (take (length l - 1) l)) [
  | none ↦ stop (record i { stdin = s }) size
  | some v ↦ returned v (record i { stdin = s }) size
]

-- the part of `readline` behind the test of the first byte
unfoldable pub read_body : (realloc : ℕ → Bool) → Mode → (size : ℕ) → Input → Option Read
unfolding fgets_at cstr read_long decode_line
read_body realloc mode size i = fgets_at size 0 size i.stdin >>= λ got. elim got [
  | none ↦ some (stop i size)
  | some (chunk, rest) ↦
      let i' = record i { lineno = i.lineno + 1 } in
      read_long realloc (suc (length rest)) (cstr chunk) size rest >>= λ r.
      some (decode_line mode i' r)
]

-- a line that does not begin with a blank
unfoldable pub read_trailer : (first size : ℕ) → Input → Option Read
unfolding fgets_at cstr has_prefix
read_trailer c size i = fgets_at size 0 size i.stdin >>= λ got. elim got [
  | none ↦ some (stop (record i { lineno = i.lineno + 1 }) size)
  | some (chunk, rest) ↦
      let i' = record i { stdin = rest; lineno = i.lineno + 1 } in
      if c == b'D' && has_prefix (b'A' ∷ b'T' ∷ b'A' ∷ b'=' ∷ b'E' ∷ b'N' ∷ b'D' ∷ []) (cstr chunk)
      then some (record { result = end; input = i'; size = size })
      else some (stop i' size)
]

-- `readline`; `size` is the size of the buffer. `nohdr` is `mode & NOHDR`.
unfoldable pub readline :
    (realloc : ℕ → Bool) → (nohdr : Bool) → Mode → (size : ℕ) → Input → Option Read
unfolding read_body read_trailer
readline realloc true mode size i = read_body realloc mode size i
readline realloc false mode size i = elim i.stdin [
  | [] ↦ some (stop i size)
  | c ∷ s ↦ elim (c == b' ') [
    | true ↦ read_body realloc mode size (record i { stdin = s })
    | false ↦ read_trailer c size (record i { stdin = s })
  ]
]

-- The inner loop of `main`, where every `mdb_cursor_put` succeeds: the records that it puts, and
-- whether it ends where a key was to be read.
pub record Loaded : Type 0 where
  pub records : List (List ℕ × List ℕ)
  pub complete : Bool
  pub left : Input

unfoldable pub load_loop :
    (realloc : ℕ → Bool) → (nohdr : Bool) → Mode → ℕ → (ksize dsize : ℕ) → Input → Option Loaded
unfolding readline
load_loop realloc nohdr mode zero ksize dsize i = none
load_loop realloc nohdr mode (suc fuel) ksize dsize i = readline realloc nohdr mode ksize i >>= λ r.
    elim r.result [
      | end ↦ some (record { records = []; complete = true; left = r.input })
      | out key ↦ readline realloc nohdr mode dsize r.input >>= λ q. elim q.result [
        | end ↦ some (record { records = []; complete = false; left = q.input })
        | out value ↦ load_loop realloc nohdr mode fuel r.size q.size q.input >>= λ rest.
            some (record rest { records = (key, value) ∷ rest.records })
      ]
    ]
