-- ===== src/Load/Lines.antt =====
-- A whole line is read, however short the buffer is.
use sam_lmdb_rs.Base.{
  ℕ, zero, suc, ◌+◌, ◌-◌, ◌*◌, ◌≤◌, ◌<◌, ◌≡◌, Bool, true, false, List, [], ◌∷◌, ◌++◌, some, arith,
  refl, ap, ◌∙◌, ltb, ◌==◌, Bool-cases, inl, inr, length, take, drop, append_assoc,
  take-append-drop, length-drop, length-take, length-append, ◌>>=◌,
}
use sam_lmdb_rs.Load.{take_line, fgets, cstr, last, read_long}
use sam_lmdb_rs.Load.Chunks.{fgets_at-fits}
use sam_lmdb_rs.Load.Digits.{Plain}

pub Plain-take : (k : ℕ) (s : List ℕ) → Plain s → Plain (take k s)
Plain-take zero s h = tt
Plain-take (suc k) [] h = tt
Plain-take (suc k) (c ∷ s) (a, b, h) = (a, b, Plain-take k s h)

pub Plain-drop : (k : ℕ) (s : List ℕ) → Plain s → Plain (drop k s)
Plain-drop zero s h = h
Plain-drop (suc k) [] h = tt
Plain-drop (suc k) (c ∷ s) (a, b, h) = Plain-drop k s h

Plain-append : (s t : List ℕ) → Plain s → Plain t → Plain (s ++ t)
Plain-append [] t h g = g
Plain-append (c ∷ s) t (a, b, h) g = (a, b, Plain-append s t h g)

-- the end of a line
abbrev pub newline : List ℕ → List ℕ
newline rest = b'\n' ∷ rest

take_line-short :
    (k : ℕ) (w rest : List ℕ)
    → Plain w
    → length w < k
    → take_line k (w ++ newline rest) ≡ (w ++ newline [], rest)
unfolding take_line
take_line-short zero w rest h lt = absurd (omega arith)
take_line-short (suc k) [] rest h lt = refl
take_line-short (suc k) (c ∷ w) rest (a, b, h) lt =
    let t : (c == b'\n') ≡ false = ground arith in
    rw (t, take_line-short k w rest h (omega arith)) refl

take_line-long :
    (k : ℕ) (w rest : List ℕ)
    → Plain w
    → k ≤ length w
    → take_line k (w ++ newline rest) ≡ (take k w, drop k w ++ newline rest)
unfolding take_line
take_line-long zero w rest h le = refl
take_line-long (suc k) [] rest h le = absurd (omega arith)
take_line-long (suc k) (c ∷ w) rest (a, b, h) le =
    let t : (c == b'\n') ≡ false = ground arith in
    rw (t, take_line-long k w rest h (omega arith)) refl

fgets-take_line :
    (size : ℕ) (w rest : List ℕ)
    → fgets size (w ++ newline rest) ≡ some (take_line (size - 1) (w ++ newline rest))
unfolding fgets
fgets-take_line size [] rest = refl
fgets-take_line size (c ∷ w) rest = refl

pub fgets-short :
    (size : ℕ) (w rest : List ℕ)
    → Plain w
    → length w + 1 < size
    → fgets size (w ++ newline rest) ≡ some (w ++ newline [], rest)
fgets-short size w rest h lt =
    fgets-take_line size w rest ∙ ap some (take_line-short (size - 1) w rest h (omega arith))

pub fgets-long :
    (size : ℕ) (w rest : List ℕ)
    → Plain w
    → size ≤ length w + 1
    → fgets size (w ++ newline rest) ≡ some (take (size - 1) w, drop (size - 1) w ++ newline rest)
fgets-long size w rest h le =
    fgets-take_line size w rest ∙ ap some (take_line-long (size - 1) w rest h (omega arith))

pub cstr-Plain : (s : List ℕ) → Plain s → cstr s ≡ s
unfolding cstr
cstr-Plain [] h = refl
cstr-Plain (c ∷ s) (a, b, h) =
    let t : (c == 0) ≡ false = ground arith in rw (t, cstr-Plain s h) refl

pub cstr-newline : (s : List ℕ) → Plain s → cstr (s ++ newline []) ≡ s ++ newline []
unfolding cstr
cstr-newline [] h = refl
cstr-newline (c ∷ s) (a, b, h) =
    let t : (c == 0) ≡ false = ground arith in rw (t, cstr-newline s h) refl

last-newline : (s : List ℕ) → last (s ++ newline []) ≡ some b'\n'
last-newline [] = refl
last-newline (c ∷ []) = refl
last-newline (c ∷ d ∷ s) = last-newline (d ∷ s)

last-Plain :
    (s : List ℕ) → Plain s → 0 < length s → (c : ℕ) × (last s ≡ some c) × ((c == b'\n') ≡ false)
last-Plain [] h lt = absurd (omega arith)
last-Plain (c ∷ []) (a, b, h) lt = (c, refl, ground arith)
last-Plain (c ∷ d ∷ s) (a, b, h) lt = last-Plain (d ∷ s) h (omega arith)

pub joined :
    (acc w : List ℕ) (k : ℕ)
    → (acc ++ take k w) ++ (drop k w ++ newline []) ≡ acc ++ (w ++ newline [])
joined acc w k =
    rw
      (
        append_assoc acc (take k w) (drop k w ++ newline []),
        ← append_assoc (take k w) (drop k w) (newline []),
        take-append-drop k w,
      )
      refl

module _ (realloc : ℕ → Bool) (enough : (n : ℕ) → realloc n ≡ true) where
  -- a line that ends with what the buffer holds
  pub read_long-done :
      (fuel : ℕ) (acc : List ℕ) (size : ℕ) (rest : List ℕ)
      → read_long realloc (suc fuel) (acc ++ newline []) size rest
        ≡ some (some (acc ++ newline []), size, rest)
  unfolding read_long
  read_long-done fuel acc size rest = rw (read_long, last-newline acc) refl

  -- one more piece of the line
  read_long-round :
      (fuel : ℕ) (acc : List ℕ) (size : ℕ) (s chunk rest : List ℕ)
      → Plain acc
      → 0 < length acc
      → length acc < size
      → fgets (size + 1) s ≡ some (chunk, rest)
      → read_long realloc (suc fuel) acc size s
        ≡ read_long realloc fuel (acc ++ cstr chunk) (size * 2) rest
  unfolding read_long
  read_long-round fuel acc size s chunk rest ha na room e =
      let (c, ec, nc) = last-Plain acc ha na in
      let fits = fgets_at-fits (size * 2) (length acc) (size + 1) s (omega arith) in
      rw (read_long, ec, nc, enough (size * 2), fits, ◌>>=◌, e) refl

  -- The loop doubles the buffer until the line fits.
  pub read_long-line :
      (fuel : ℕ) (acc w : List ℕ) (size : ℕ) (rest : List ℕ)
      → Plain acc
      → 0 < length acc
      → Plain w
      → length acc < size
      → length w + 1 < fuel
      → (s : ℕ) × (size ≤ s)
        × (read_long realloc fuel acc size (w ++ newline rest)
            ≡ some (some (acc ++ (w ++ newline [])), s, rest))
  read_long-line zero acc w size rest ha na hw hs lt = absurd (omega arith)
  read_long-line (suc zero) acc w size rest ha na hw hs lt = absurd (omega arith)
  read_long-line (suc (suc fuel)) acc w size rest ha na hw hs lt =
      elim (Bool-cases (ltb (length w) size)) [
        | inl short ↦
            let got = fgets-short (size + 1) w rest hw (ground arith) in
            (
              size * 2,
              omega arith,
              read_long-round (suc fuel) acc size _ _ _ ha na hs got
                  ∙ rw (cstr-newline w hw, ← append_assoc acc w (newline []))
                      (read_long-done fuel (acc ++ w) (size * 2) rest),
            )
        | inr long ↦
            let le : size ≤ length w = ground arith in
            let e : size + 1 - 1 ≡ size = omega arith in
            let got = rw e at (fgets-long (size + 1) w rest hw (omega arith)) in
            let (s, hs', run) =
              read_long-line (suc fuel) (acc ++ take size w) (drop size w) (size * 2) rest
                (Plain-append acc (take size w) ha (Plain-take size w hw))
                (omega (arith, length-append acc (take size w))) (Plain-drop size w hw)
                (omega (arith, length-append acc (take size w), length-take size w))
                (omega (arith, length-drop size w)) in
            (
              s,
              omega arith,
              read_long-round (suc fuel) acc size _ _ _ ha na hs got
                  ∙ rw (cstr-Plain (take size w) (Plain-take size w hw)) run
                  ∙ ap (λ l. some (some l, s, rest)) (joined acc w size),
            )
      ]
