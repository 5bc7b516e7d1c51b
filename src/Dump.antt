-- ===== src/Dump.antt =====
-- liblmdb/mdb_dump.c: how keys and data are written. The standard output is the list of its bytes.
-- `isprint` is that of the C locale.
pub mod Scan
use sam_lmdb_rs.Base.{
  ℕ, ◌/◌, ◌%◌, Bool, ◌&&◌, List, [], ◌∷◌, ◌++◌, get_or, if◌then◌else◌, leb, ◌==◌,
}

abbrev pub hexc : List ℕ
hexc =
    b'0' ∷ b'1' ∷ b'2' ∷ b'3' ∷ b'4' ∷ b'5' ∷ b'6' ∷ b'7' ∷ b'8' ∷ b'9' ∷ b'a' ∷ b'b' ∷ b'c' ∷ b'd'
    ∷ b'e' ∷ b'f' ∷ []

abbrev pub isprint : ℕ → Bool
isprint c = leb 32 c && leb c 126

-- `hexc[c >> 4]` and `hexc[c & 0xf]`
unfoldable pub high : ℕ → ℕ
high c = get_or hexc (c / 16) 0

unfoldable pub low : ℕ → ℕ
low c = get_or hexc (c % 16) 0

abbrev pub hex : ℕ → List ℕ
hex c = high c ∷ low c ∷ []

-- what the loop of `text` writes for a byte
unfoldable pub escape : ℕ → List ℕ
unfolding high low
escape c = if isprint c then (if c == b'\\' then b'\\' ∷ c ∷ [] else c ∷ []) else b'\\' ∷ hex c

unfoldable pub text_loop : List ℕ → List ℕ
unfolding escape
text_loop [] = []
text_loop (c ∷ cs) = escape c ++ text_loop cs

unfoldable pub byte_loop : List ℕ → List ℕ
unfolding high low
byte_loop [] = []
byte_loop (c ∷ cs) = high c ∷ low c ∷ byte_loop cs

-- `text` and `byte`
unfoldable pub text : List ℕ → List ℕ
unfolding text_loop
text v = b' ' ∷ (text_loop v ++ b'\n' ∷ [])

unfoldable pub byte : List ℕ → List ℕ
unfolding byte_loop
byte v = b' ' ∷ (byte_loop v ++ b'\n' ∷ [])

-- `mode & PRINT`
pub data Mode : Type 0 where
  print bytevalue : Mode

abbrev pub line : Mode → List ℕ → List ℕ
line print v = text v
line bytevalue v = byte v

-- The loop of `dumpit` over the records that the cursor gives, with the last line behind it; no
-- signal arrives.
unfoldable pub dump_records : Mode → List (List ℕ × List ℕ) → List ℕ
unfolding text byte
dump_records mode [] = b'D' ∷ b'A' ∷ b'T' ∷ b'A' ∷ b'=' ∷ b'E' ∷ b'N' ∷ b'D' ∷ b'\n' ∷ []
dump_records mode ((key, value) ∷ rs) = line mode key ++ (line mode value ++ dump_records mode rs)
