-- ===== src/Load/Roundtrip.antt =====
-- What mdb_dump writes, mdb_load reads.
use sam_lmdb_rs.Base.{
  ℕ, suc, ◌+◌, ◌-◌, ◌≤◌, ◌≡◌, Bool, true, false, List, [], ◌∷◌, ◌++◌, Option, some, arith, refl, ap,
  ◌∙◌, ltb, Bool-cases, inl, inr, length, take, drop, append_assoc, length-take, length-append,
  ◌>>=◌,
}
use sam_lmdb_rs.Dump.{Mode, text, byte, text_loop, byte_loop, line}
use sam_lmdb_rs.Load.{
  Input, returned, decode, decode_line, read_body, readline, fgets, cstr, read_long, Read,
}
use sam_lmdb_rs.Load.Digits.{
  Bytes, Plain, unescape-text_loop, unhex_all-byte_loop, text_loop-Plain, byte_loop-Plain,
}
use sam_lmdb_rs.Load.Chunks.{fgets_at-fits}
use sam_lmdb_rs.Load.Lines.{
  newline, fgets-short, fgets-long, cstr-newline, cstr-Plain, Plain-take, Plain-drop, joined,
  read_long-done, read_long-line,
}

-- the line of a value without its first and last byte
abbrev body : Mode → List ℕ → List ℕ
body Mode.print = text_loop
body Mode.bytevalue = byte_loop

body-Plain : (mode : Mode) (v : List ℕ) → Bytes v → Plain (body mode v)
body-Plain Mode.print = text_loop-Plain
body-Plain Mode.bytevalue = byte_loop-Plain

decode-body : (mode : Mode) (v : List ℕ) → Bytes v → decode mode (body mode v) ≡ some v
decode-body Mode.print = unescape-text_loop
decode-body Mode.bytevalue = unhex_all-byte_loop

line-body :
    (mode : Mode) (v rest : List ℕ) → line mode v ++ rest ≡ b' ' ∷ (body mode v ++ newline rest)
unfolding text byte
line-body Mode.print v rest = ap (λ l. b' ' ∷ l) (append_assoc (text_loop v) (newline []) rest)
line-body Mode.bytevalue v rest = ap (λ l. b' ' ∷ l) (append_assoc (byte_loop v) (newline []) rest)

take-length_append : (w t : List ℕ) → take (length w) (w ++ t) ≡ w
take-length_append [] t = refl
take-length_append (c ∷ w) t = ap (λ l. c ∷ l) (take-length_append w t)

take_body : (w : List ℕ) → take (length (w ++ newline []) - 1) (w ++ newline []) ≡ w
take_body w =
    let e : length (w ++ newline []) - 1 ≡ length w = omega (arith, length-append w (newline [])) in
    rw e (take-length_append w (newline []))

abbrev pub input : List ℕ → ℕ → Bool → Input
input s lineno eof = record { stdin = s; lineno = lineno; eof = eof }

decode_whole :
    (mode : Mode) (i : Input) (w v : List ℕ) (size : ℕ) (rest : List ℕ)
    → decode mode w ≡ some v
    → decode_line mode i (some (w ++ newline []), size, rest)
      ≡ returned v (record i { stdin = rest }) size
unfolding decode_line
decode_whole mode i w v size rest h = rw (decode_line, take_body w, h) refl

-- a line that `fgets` and the loop behind it read
read_body-read :
    (realloc : ℕ → Bool) (mode : Mode) (size : ℕ) (i : Input) (chunk rest acc : List ℕ)
    (read : Option (List ℕ) × ℕ × List ℕ)
    → fgets size i.stdin ≡ some (chunk, rest)
    → cstr chunk ≡ acc
    → read_long realloc (suc (length rest)) acc size rest ≡ some read
    → read_body realloc mode size i
      ≡ some (decode_line mode (record i { lineno = i.lineno + 1 }) read)
unfolding read_body
read_body-read realloc mode size i chunk rest acc read e ec run =
    let whole = fgets_at-fits size 0 size i.stdin (omega arith) in
    let next : Option (Option (List ℕ) × ℕ × List ℕ) → Option Read =
      λ o. o >>= λ r. some (decode_line mode (record i { lineno = i.lineno + 1 }) r) in
    rw (read_body, whole, ◌>>=◌, e)
      (ap (λ a. next (read_long realloc (suc (length rest)) a size rest)) ec ∙ ap next run)

module _ (realloc : ℕ → Bool) (enough : (n : ℕ) → realloc n ≡ true) where
  read_body-line :
      (mode : Mode) (size lineno : ℕ) (eof : Bool) (w v rest : List ℕ)
      → 2 ≤ size
      → Plain w
      → decode mode w ≡ some v
      → (s : ℕ) × (size ≤ s)
        × (read_body realloc mode size (input (w ++ newline rest) lineno eof)
            ≡ some (returned v (input rest (lineno + 1) eof) s))
  unfolding read_body
  read_body-line mode size lineno eof w v rest hs hw hv =
      elim (Bool-cases (ltb (length w + 1) size)) [
        | inl short ↦ (
          size,
          omega arith,
          read_body-read realloc mode size (input (w ++ newline rest) lineno eof) _ rest _ _
                (fgets-short size w rest hw (ground arith)) (cstr-newline w hw)
                (read_long-done realloc enough (length rest) w size rest)
              ∙ ap some (decode_whole mode i w v size rest hv),
        )
        | inr long ↦
            let k = size - 1 in
            let le : size ≤ length w + 1 = ground arith in
            let (s, hs', run) =
              read_long-line realloc enough (suc (length (drop k w ++ newline rest))) (take k w)
                (drop k w) size rest (Plain-take k w hw) (omega (arith, length-take k w))
                (Plain-drop k w hw) (omega (arith, length-take k w))
                (omega (arith, length-append (drop k w) (newline rest))) in
            (
              s,
              hs',
              read_body-read realloc mode size (input (w ++ newline rest) lineno eof) _ _ _ _
                    (fgets-long size w rest hw le) (cstr-Plain (take k w) (Plain-take k w hw)) run
                  ∙ rw (joined [] w k) (ap some (decode_whole mode i w v s rest hv)),
            )
      ]
    where
      i : Input
      i = input (w ++ newline rest) (lineno + 1) eof

  -- One line is read back, whatever the size of the buffer.
  pub readline-line :
      (mode : Mode) (size lineno : ℕ) (eof : Bool) (v rest : List ℕ)
      → 2 ≤ size
      → Bytes v
      → (s : ℕ) × (size ≤ s)
        × (readline realloc false mode size (input (line mode v ++ rest) lineno eof)
            ≡ some (returned v (input rest (lineno + 1) eof) s))
  unfolding readline
  readline-line mode size lineno eof v rest hs hv =
      let (s, hs', run) =
        read_body-line mode size lineno eof (body mode v) v rest hs (body-Plain mode v hv)
          (decode-body mode v hv) in
      (s, hs', rw (line-body mode v rest) run)

-- the keys and data are bytes
abbrev pub Records : List (List ℕ × List ℕ) → Type 0
Records [] = Unit
Records ((key, value) ∷ rs) = Bytes key × Bytes value × Records rs
