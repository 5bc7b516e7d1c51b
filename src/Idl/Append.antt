-- ===== src/Idl/Append.antt =====
-- The growing operations against the sequence of IDs that the list holds.
use sam_lmdb_rs.Base.{
  ℕ, zero, suc, ◌+◌, ◌-◌, ◌*◌, ◌/◌, ◌^◌, Option, none, some, List, set, take, drop, length, ◌≤◌,
  ◌<◌, ◌≡◌, ltb, leb, if◌then◌else◌, ◌>>=◌, [], ◌∷◌, ◌++◌, arith, refl, ap, subst, ◌∙◌, sym,
  take-set_self, take-set_ge, drop-set_self, take-drop_cons, length-set, append_assoc, length-take,
  Returns, append-nil, Bool, true, false,
}
use sam_lmdb_rs.Idl.Valid.{IsValid, contents}
use sam_lmdb_rs.Idl.{
  Idl, Status, success, enomem, write_list, range_loop, midl_grow, midl_xappend, midl_append,
  midl_append_list, midl_append_range, midl_need, idl_um_max, u32, add_int,
}

-- What is documented of `realloc`: the new block has the size asked for, and keeps what fits.
pub record IsRealloc (realloc : List ℕ → ℕ → Option (List ℕ)) : Type 0 where
  pub sized : (xs ys : List ℕ) (n : ℕ) → realloc xs n ≡ some ys → length ys ≡ n
  pub kept :
      (xs ys : List ℕ) (n k : ℕ)
      → realloc xs n ≡ some ys
      → k ≤ length xs
      → k ≤ n
      → take k ys ≡ take k xs

-- the numbers `id + n - 1` down to `id`
abbrev pub range_desc : ℕ → ℕ → List ℕ
range_desc id zero = []
range_desc id (suc n) = (id + n) ∷ range_desc id n

range_desc-snoc : (id n : ℕ) → range_desc (id + 1) n ++ id ∷ [] ≡ range_desc id (suc n)
range_desc-snoc id zero = ap (λ x. x ∷ []) (omega arith)
range_desc-snoc id (suc n) =
    ap (λ x. x ∷ (range_desc (id + 1) n ++ id ∷ [])) (omega arith)
    ∙ ap (λ ys. (id + suc n) ∷ ys) (range_desc-snoc id n)

-- a run of writes from `ids[k + 1]` on
write_list-Returns :
    (l : Idl) (k : ℕ) (xs : List ℕ)
    → k + length xs ≤ length l.cells
    → Returns (write_list l (suc k) xs) (λ r.
      (r.count ≡ l.count)
      × (r.alloclen ≡ l.alloclen)
      × (length r.cells ≡ length l.cells)
      × (take (k + length xs) r.cells ≡ take k l.cells ++ xs))
write_list-Returns l k [] h = (
  l,
  refl,
  (refl, refl, refl, ap (λ j. take j l.cells) (omega arith) ∙ sym (append-nil (take k l.cells))),
)
write_list-Returns l k (x ∷ xs) h =
    let l' : Idl = record l { cells = set l.cells k x } in
    let keep = length-set l.cells k x in
    let (r, run, p) = write_list-Returns l' (suc k) xs (omega arith) in
    (
      r,
      ground (arith, run),
      (
        p.0,
        p.1,
        p.2 ∙ keep,
        ap (λ j. take j r.cells) (omega arith)
            ∙ p.3
            ∙ ap (λ ys. ys ++ xs) (take-set_self l.cells k x (omega arith))
            ∙ append_assoc (take k l.cells) (x ∷ []) xs,
      ),
    )

range_loop-Returns :
    (l : Idl) (len id n : ℕ)
    → len + n ≤ length l.cells
    → Returns (range_loop l len id n) (λ r.
      (r.count ≡ l.count)
      × (r.alloclen ≡ l.alloclen)
      × (length r.cells ≡ length l.cells)
      × (take (len + n) r.cells ≡ take len l.cells ++ range_desc id n)
      × (drop (len + n) r.cells ≡ drop (len + n) l.cells))
unfolding range_loop
range_loop-Returns l len id zero h = (
  l,
  refl,
  (
    refl,
    refl,
    refl,
    ap (λ j. take j l.cells) (omega arith) ∙ sym (append-nil (take len l.cells)),
    refl,
  ),
)
range_loop-Returns l len id (suc n) h =
    let l' : Idl = record l { cells = set l.cells (len + n) id } in
    let keep = length-set l.cells (len + n) id in
    let (r, run, p) = range_loop-Returns l' len (id + 1) n (omega arith) in
    let rest = drop (suc (len + n)) l.cells in
    let cut =
      take-drop_cons (len + n) r.cells rest id
        (p.4 ∙ drop-set_self l.cells (len + n) id (omega arith)) in
    let e : len + suc n ≡ suc (len + n) = omega arith in
    (
      r,
      rw e (ground (arith, run)),
      (
        p.0,
        p.1,
        p.2 ∙ keep,
        ap (λ j. take j r.cells) e
            ∙ cut.0
            ∙ ap (λ ys. ys ++ id ∷ [])
                (p.3
                  ∙ ap (λ ys. ys ++ range_desc (id + 1) n)
                      (take-set_ge len l.cells (len + n) id (omega arith)))
            ∙ append_assoc (take len l.cells) (range_desc (id + 1) n) (id ∷ [])
            ∙ ap (λ ys. take len l.cells ++ ys) (range_desc-snoc id n),
        ap (λ j. drop j r.cells) e ∙ cut.1 ∙ ap (λ j. drop j l.cells) (sym e),
      ),
    )

-- What an operation that adds `xs` leaves: a valid list that holds `xs` at its end, or, where the
-- allocation failed, the list as it was.
abbrev pub Added : Idl → List ℕ → Status × Idl → Type 0
Added l xs (success, r) = IsValid r × (contents r ≡ contents l ++ xs)
Added l xs (enomem, r) = r ≡ l

module _ (realloc : List ℕ → ℕ → Option (List ℕ)) (documented : IsRealloc realloc) (l : Idl)
    (valid : IsValid l) where
  open documented use {sized, kept}

  -- what growing by `num` leaves
  abbrev Grown : ℕ → Status × Idl → Type 0
  Grown num (success, r) =
      (r.alloclen ≡ l.alloclen + num)
      × (length r.cells ≡ l.alloclen + num)
      × (r.count ≡ l.count)
      × (take l.count r.cells ≡ take l.count l.cells)
  Grown num (enomem, r) = r ≡ l

  add_int-small : (n num : ℕ) → num < 2 ^ 31 → add_int n num ≡ n + num
  add_int-small n num small = ground arith

  grow-Grown : (num : ℕ) → num < 2 ^ 31 → Grown num (midl_grow realloc l num)
  unfolding midl_grow
  grow-Grown num small =
      subst
        (λ m. Grown num (elim (realloc l.cells m) [
          | none ↦ (enomem, l)
          | some cells ↦ (success, record l { alloclen = m; cells = cells })
        ]))
        (sym (add_int-small l.alloclen num small)) (go (realloc l.cells (l.alloclen + num)) refl)
    where
      go :
          (o : Option (List ℕ))
          → realloc l.cells (l.alloclen + num) ≡ o
          → Grown num (elim o [
            | none ↦ (enomem, l)
            | some cells ↦ (success, record l { alloclen = l.alloclen + num; cells = cells })
          ])
      go none e = refl
      go (some cells) e = (
        refl,
        sized _ _ _ e,
        refl,
        kept _ _ _ l.count e (omega (arith, valid.sized, valid.fits)) (omega (arith, valid.fits)),
      )

  -- the list with room behind its IDs, as each operation has it before it writes
  pub record HasRoom (num : ℕ) (r : Idl) : Type 0 where
    pub room : l.count + num ≤ length r.cells
    pub sized : length r.cells ≡ r.alloclen
    pub same : r.count ≡ l.count
    pub prefix : take l.count r.cells ≡ contents l

  abbrev pub Ready : ℕ → Status × Idl → Type 0
  Ready num (success, r) = HasRoom num r
  Ready num (enomem, r) = r ≡ l

  Grown-Ready : (num more : ℕ) → num ≤ more → (p : Status × Idl) → Grown more p → Ready num p
  Grown-Ready num more h (success, r) g = record {
    room = omega (arith, valid.fits, g.1);
    sized = g.1 ∙ sym g.0;
    same = g.2;
    prefix = g.3;
  }
  Grown-Ready num more h (enomem, r) g = g

  -- growing on demand makes room
  room-Ready :
      (test : Bool) (num more : ℕ)
      → (test ≡ false → l.count + num ≤ l.alloclen)
      → num ≤ more
      → more < 2 ^ 31
      → Ready num (if test then midl_grow realloc l more else (success, l))
  room-Ready true num more h g small = Grown-Ready num more g _ (grow-Grown more small)
  room-Ready false num more h g small = record {
    room = omega (arith, h refl, valid.sized);
    sized = valid.sized;
    same = refl;
    prefix = refl;
  }

  append_step :
      (id : ℕ) (p : Status × Idl)
      → Ready 1 p
      → Returns
          (elim p.0 [
            | enomem ↦ some (enomem, p.1)
            | success ↦ midl_xappend p.1 id >>= λ r. some (success, r)
          ])
          (Added l (id ∷ []))
  append_step id (enomem, r) h = ((enomem, r), refl, h)
  append_step id (success, r) h =
      let t : Idl = record r { count = r.count + 1; cells = set r.cells r.count id } in
      let e : r.count + 1 ≡ suc r.count = omega arith in
      (
        (success, t),
        rw e (ground arith),
        (
          record {
            sized = length-set r.cells r.count id ∙ h.sized;
            fits = omega (arith, h.room, h.same, h.sized);
          },
          ap (λ j. take j t.cells) e
              ∙ take-set_self r.cells r.count id (omega (arith, h.room, h.same))
              ∙ ap (λ j. take j r.cells ++ id ∷ []) h.same
              ∙ ap (λ ys. ys ++ id ∷ []) h.prefix,
        ),
      )

  -- `mdb_midl_append` never writes outside the block. It adds the ID at the end, or it reports that
  -- the allocation failed and has changed nothing; either way the list stays valid.
  pub midl_append-Added : (id : ℕ) → Returns (midl_append realloc l id) (Added l (id ∷ []))
  unfolding midl_append
  midl_append-Added id = append_step id _ (
      room-Ready (leb l.alloclen l.count) 1 idl_um_max (λ h. ground arith) (omega arith)
        (omega arith))

  -- a run of writes behind the IDs, and the counter that goes with it
  added :
      (xs : List ℕ) (n : ℕ) (r t : Idl)
      → length xs ≡ n
      → HasRoom n r
      → length t.cells ≡ length r.cells
      → t.alloclen ≡ r.alloclen
      → take (l.count + n) t.cells ≡ take l.count r.cells ++ xs
      → t.count ≡ l.count + n
      → Added l xs (success, t)
  added xs n r t size h z a w c = (
    record { sized = z ∙ h.sized ∙ sym a; fits = omega (arith, c, z, a, h.room, h.sized) },
    ap (λ j. take j t.cells) c ∙ w ∙ ap (λ ys. ys ++ xs) h.prefix,
  )

  list_step :
      (app : Idl) (p : Status × Idl)
      → IsValid app
      → Ready app.count p
      → Returns
          (elim p.0 [
            | enomem ↦ some (enomem, p.1)
            | success ↦
                if leb app.count (length app.cells)
                then (write_list p.1 (p.1.count + 1) (take app.count app.cells) >>= λ r.
                    some (success, record r { count = r.count + app.count }))
                else none
          ])
          (Added l (contents app))
  list_step app (enomem, r) v h = ((enomem, r), refl, h)
  list_step app (success, r) v h =
      let size : length (contents app) ≡ app.count =
        omega (arith, length-take app.count app.cells, v.fits, v.sized) in
      let (t, run, w) =
        write_list-Returns r r.count (contents app) (omega (arith, size, h.room, h.same)) in
      let t' : Idl = record t { count = t.count + app.count } in
      let e : r.count + 1 ≡ suc r.count = omega arith in
      (
        (success, t'),
        rw e (ground (arith, run, v.fits, v.sized)),
        added (contents app) app.count r t' size h w.2 w.1
            (ap (λ j. take j t.cells) (omega (arith, size, h.same))
              ∙ w.3
              ∙ ap (λ j. take j r.cells ++ contents app) h.same)
            (omega (arith, w.0, h.same)),
      )

  -- `mdb_midl_append_list` does so with all IDs of the other list, in order, if these are fewer than
  -- 2^31, so that their number fits the `int` that `mdb_midl_grow` takes.
  pub midl_append_list-Added :
      (app : Idl)
      → IsValid app
      → app.count < 2 ^ 31
      → Returns (midl_append_list realloc l app) (Added l (contents app))
  unfolding midl_append_list
  midl_append_list-Added app v small = list_step app _ v (
      room-Ready (leb l.alloclen (l.count + app.count)) app.count app.count (λ h. ground arith)
        (omega arith) small)

  length-range_desc : (id n : ℕ) → length (range_desc id n) ≡ n
  length-range_desc id zero = refl
  length-range_desc id (suc n) = ap suc (length-range_desc id n)

  range_step :
      (id n : ℕ) (p : Status × Idl)
      → Ready n p
      → Returns
          (elim p.0 [
            | enomem ↦ some (enomem, p.1)
            | success ↦ range_loop (record p.1 { count = l.count + n }) l.count id n >>= λ r.
                some (success, r)
          ])
          (Added l (range_desc id n))
  range_step id n (enomem, r) h = ((enomem, r), refl, h)
  range_step id n (success, r) h =
      let r' : Idl = record r { count = l.count + n } in
      let (t, run, w) = range_loop-Returns r' l.count id n h.room in
      (
        (success, t),
        rw run refl,
        added (range_desc id n) n r t (length-range_desc id n) h w.2 w.1 w.3 w.0,
      )

  -- `mdb_midl_append_range` adds `id + n - 1` down to `id`, so the list stays sorted if they are
  -- below what it holds. What it grows by has to fit an `int` too.
  pub midl_append_range-Added :
      (id n : ℕ)
      → n / 2 ^ 17 * 2 ^ 17 + idl_um_max < 2 ^ 31
      → Returns (midl_append_range realloc l id n) (Added l (range_desc id n))
  unfolding midl_append_range
  midl_append_range-Added id n small = range_step id n _ (
      room-Ready (ltb l.alloclen (l.count + n)) n (n / 2 ^ 17 * 2 ^ 17 + idl_um_max)
        (λ h. ground arith) (omega arith) small)

  -- `mdb_midl_need` either makes room for `num` more IDs and keeps those of the list, or reports that
  -- the allocation failed and has changed nothing.
  pub midl_need-room :
      (num : ℕ)
      → l.count + num + (l.count + num) / 4 + 258 < 2 ^ 32
      → Ready num (midl_need realloc l num)
  unfolding midl_need
  midl_need-room num small = split (ltb l.alloclen wanted) refl (realloc l.cells (rounded - 2)) refl
    where
      wanted : ℕ
      wanted = u32 (num + l.count)

      rounded : ℕ
      rounded = u32 (wanted + wanted / 4 + 258) / 256 * 256

      exact : wanted ≡ l.count + num
      exact = omega arith

      enough : l.count + num ≤ rounded - 2
      enough = omega arith

      split :
          (test : Bool)
          → ltb l.alloclen wanted ≡ test
          → (o : Option (List ℕ)) → realloc l.cells (rounded - 2) ≡ o
          → Ready num (
              if test
              then (elim o [
                | none ↦ (enomem, l)
                | some cells ↦ (success, record l { alloclen = rounded - 2; cells = cells })
              ])
              else (success, l))
      split false h o e = record {
        room = ground (arith, exact, valid.sized);
        sized = valid.sized;
        same = refl;
        prefix = refl;
      }
      split true h none e = refl
      split true h (some cells) e = record {
        room = omega (arith, enough, sized _ _ _ e);
        sized = sized _ _ _ e;
        same = refl;
        prefix =
            kept _ _ _ l.count e (omega (arith, valid.sized, valid.fits)) (omega (arith, enough));
      }
