-- ===== src/Cursor/Siblings.antt =====
-- `mdb_cursor_sibling` moves to the neighbour page of the same height.
use sam_lmdb_rs.Base.{
  ℕ, suc, ◌+◌, ◌-◌, ◌^◌, ◌≤◌, ◌<◌, ◌≡◌, ◌⊎◌, inl, inr, some, true, false, List, [], ◌∷◌, ◌++◌, take,
  drop, get_elem?, arith, refl, ap, sym, ◌∙◌, Returns, append_assoc, append-nil, Bool-cases,
}
use sam_lmdb_rs.Base.Int.{ℤ}
use sam_lmdb_rs.Node.{u16}
use sam_lmdb_rs.Cursor.{
  Leaf, Page, Frame, numkeys, sibling, Sibling, moved, no_more, push_child, follow, at_edge, shift,
}
use sam_lmdb_rs.Cursor.Tree.{
  chunks, entries, IsTree, Linked, OnPath, remaining, preceding, concat, child_lem, length-chunks,
  drop-get_elem?, take-get_elem?, drop_all, take_whole, concat-append, numkeys_small, numkeys_some,
}

module _ (get : ℕ → ℤ ⊎ Page) where
  -- The result of a move to the right from page `o` of height `h`, where `rest` are the frames above.
  pub data Right (h : ℕ) (o : Page) (rest : List Frame) : Sibling → Type 0 where
    at_end : remaining get (suc h) rest ≡ [] → Right h o rest no_more
    next_page :
        (q : Page) (above : List Frame)
        → OnPath get h (record { page = q; ki = 0 } ∷ above)
        → entries get h q ++ remaining get (suc h) above ≡ remaining get (suc h) rest
        → preceding get (suc h) above ≡ preceding get (suc h) rest ++ entries get h o
        → Right h o rest (moved (record { page = q; ki = 0 } ∷ above))

  -- The result of a move to the left.
  pub data Left (h : ℕ) (o : Page) (rest : List Frame) : Sibling → Type 0 where
    at_start : preceding get (suc h) rest ≡ [] → Left h o rest no_more
    last_page :
        (q : Page) (above : List Frame)
        → OnPath get h (record { page = q; ki = numkeys q - 1 } ∷ above)
        → preceding get (suc h) above ++ entries get h q ≡ preceding get (suc h) rest
        → remaining get (suc h) above ≡ entries get h o ++ remaining get (suc h) rest
        → Left h o rest (moved (record { page = q; ki = numkeys q - 1 } ∷ above))

  -- the page below the frame on top
  push_right :
      (h : ℕ) (f : Frame) (above : List Frame)
      → OnPath get (suc h) (f ∷ above)
      → (q : Page) × OnPath get h (record { page = q; ki = 0 } ∷ f ∷ above)
        × (push_child get true (f ∷ above) ≡ some (moved (record { page = q; ki = 0 } ∷ f ∷ above)))
  unfolding push_child
  push_right h f above (t, lt, up, on) =
      let c = child_lem get h f.page f.ki t lt in
      (
        c.below,
        (c.tree, numkeys_some get h c.below c.tree, c.chunk, (t, lt, up, on)),
        rw (push_child, c.at, c.found) refl,
      )

  push_left :
      (h : ℕ) (f : Frame) (above : List Frame)
      → OnPath get (suc h) (f ∷ above)
      → (q : Page) × OnPath get h (record { page = q; ki = numkeys q - 1 } ∷ f ∷ above)
        × (push_child get false (f ∷ above)
            ≡ some (moved (record { page = q; ki = numkeys q - 1 } ∷ f ∷ above)))
  unfolding push_child
  push_left h f above (t, lt, up, on) =
      let c = child_lem get h f.page f.ki t lt in
      let few = numkeys_small get h c.below c.tree in
      let many = numkeys_some get h c.below c.tree in
      let e : u16 (numkeys c.below + 2 ^ 16 - 1) ≡ numkeys c.below - 1 = omega arith in
      (
        c.below,
        (c.tree, omega arith, c.chunk, (t, lt, up, on)),
        rw (push_child, c.at, c.found, e) refl,
      )

  -- The entries around the node where a frame stands, `x` being those of the node.
  pub remaining_link :
      (h : ℕ) (x : List Leaf) (p : Frame) (rest : List Frame)
      → get_elem? (chunks get h p.page) p.ki ≡ some x
      → x ++ remaining get h (p ∷ rest)
        ≡ concat (drop p.ki (chunks get h p.page)) ++ remaining get (suc h) rest
  unfolding concat
  remaining_link h x p rest link =
      sym (append_assoc x _ (remaining get (suc h) rest))
      ∙ ap (λ l. concat l ++ remaining get (suc h) rest)
          (sym (drop-get_elem? (chunks get h p.page) p.ki x link))

  pub preceding_link :
      (h : ℕ) (x : List Leaf) (p : Frame) (rest : List Frame)
      → get_elem? (chunks get h p.page) p.ki ≡ some x
      → preceding get h (p ∷ rest) ++ x
        ≡ preceding get (suc h) rest ++ concat (take (p.ki + 1) (chunks get h p.page))
  unfolding concat
  preceding_link h x p rest link =
      let before = take p.ki (chunks get h p.page) in
      append_assoc (preceding get (suc h) rest) _ x
      ∙ ap (λ l. preceding get (suc h) rest ++ l)
          (sym (
            ap concat (take-get_elem? (chunks get h p.page) p.ki x link)
            ∙ concat-append before (x ∷ [])
            ∙ ap (λ l. concat before ++ l) (append-nil x)))

  -- the parent has one more page
  inner-Right :
      (h : ℕ) (o : Page) (p : Frame) (rest : List Frame)
      → Linked get h o (p ∷ rest)
      → OnPath get (suc h) (p ∷ rest)
      → p.ki + 1 < numkeys p.page
      → Returns (push_child get true (shift true p ∷ rest)) (Right h o (p ∷ rest))
  inner-Right h o p rest link (t, lt, up, on) more =
      let e : u16 (p.ki + 1) ≡ p.ki + 1 = omega (arith, numkeys_small get (suc h) p.page t) in
      let (q, onq, run) = push_right h (shift true p) rest (t, rw e more, up, on) in
      (
        _,
        run,
        next_page q (shift true p ∷ rest) onq
            (remaining_link (suc h) (entries get h q) (shift true p) rest onq.2
              ∙ ap
                  (λ i.
                    concat (drop i (chunks get (suc h) p.page)) ++ remaining get (suc (suc h)) rest)
                  e)
            (ap
                (λ i.
                  preceding get (suc (suc h)) rest ++ concat (take i (chunks get (suc h) p.page)))
                e
              ∙ sym (preceding_link (suc h) (entries get h o) p rest link)),
      )

  -- nothing is left behind the last node of a page
  pub none_behind :
      (h : ℕ) (p : Frame) (rest : List Frame)
      → IsTree get h p.page
      → numkeys p.page ≤ p.ki + 1
      → remaining get h (p ∷ rest) ≡ remaining get (suc h) rest
  unfolding concat
  none_behind h p rest t edge =
      ap (λ l. concat l ++ remaining get (suc h) rest)
        (drop_all (chunks get h p.page) (p.ki + 1) (omega (arith, length-chunks get h p.page t)))

  pub none_before :
      (h : ℕ) (p : Frame) (rest : List Frame)
      → p.ki ≡ 0
      → preceding get h (p ∷ rest) ≡ preceding get (suc h) rest
  unfolding concat
  none_before h p rest e =
      ap (λ i. preceding get (suc h) rest ++ concat (take i (chunks get h p.page))) e
      ∙ append-nil (preceding get (suc h) rest)

  pub all_before :
      (h : ℕ) (p : Frame)
      → IsTree get h p.page
      → numkeys p.page ≤ p.ki + 1
      → concat (take (p.ki + 1) (chunks get h p.page)) ≡ entries get h p.page
  all_before h p t edge =
      ap concat
        (take_whole (chunks get h p.page) (p.ki + 1) (omega (arith, length-chunks get h p.page t)))

  -- the parent has none, and its own neighbour is `q`
  outer-Right :
      (h : ℕ) (o : Page) (p : Frame) (rest : List Frame) {s : Sibling}
      → Linked get h o (p ∷ rest)
      → OnPath get (suc h) (p ∷ rest)
      → numkeys p.page ≤ p.ki + 1
      → Right (suc h) p.page rest s
      → Returns (follow get true p s) (Right h o (p ∷ rest))
  outer-Right h o p rest link (t, lt, up, on) edge (at_end e) =
      (no_more, refl, at_end (none_behind (suc h) p rest t edge ∙ e))
  outer-Right h o p rest link (t, lt, up, on) edge (next_page q above onq er ep) =
      let f : Frame = record { page = q; ki = 0 } in
      let (r, onr, run) = push_right h f above onq in
      (
        _,
        run,
        next_page r (f ∷ above) onr
            (remaining_link (suc h) (entries get h r) f above onr.2
              ∙ er
              ∙ sym (none_behind (suc h) p rest t edge))
            (none_before (suc h) f above refl
              ∙ ep
              ∙ ap (λ l. preceding get (suc (suc h)) rest ++ l) (sym (all_before (suc h) p t edge))
              ∙ sym (preceding_link (suc h) (entries get h o) p rest link)),
      )

  pub sibling-Right :
      (h : ℕ) (f : Frame) (rest : List Frame)
      → Linked get h f.page rest
      → OnPath get (suc h) rest
      → Returns (sibling get true (f ∷ rest)) (Right h f.page rest)
  unfolding sibling
  sibling-Right h f [] link on = (no_more, refl, at_end refl)
  sibling-Right h f (p ∷ rest) link (t, lt, up, on) =
      let (s, run, spec) = sibling-Right (suc h) p rest up on in
      elim (Bool-cases (at_edge true p)) [
        | inl e ↦
            rw (sibling, e, run)
              (outer-Right h f.page p rest link (t, lt, up, on) (ground arith) spec)
        | inr e ↦ rw (sibling, e) (inner-Right h f.page p rest link (t, lt, up, on) (ground arith))
      ]

  -- a page to the left in the same parent
  inner-Left :
      (h : ℕ) (o : Page) (p : Frame) (rest : List Frame)
      → Linked get h o (p ∷ rest)
      → OnPath get (suc h) (p ∷ rest)
      → 0 < p.ki
      → Returns (push_child get false (shift false p ∷ rest)) (Left h o (p ∷ rest))
  inner-Left h o p rest link (t, lt, up, on) more =
      let e : p.ki - 1 + 1 ≡ p.ki = omega arith in
      let (q, onq, run) = push_left h (shift false p) rest (t, omega arith, up, on) in
      (
        _,
        run,
        last_page q (shift false p ∷ rest) onq
            (preceding_link (suc h) (entries get h q) (shift false p) rest onq.2
              ∙ ap
                  (λ i.
                    preceding get (suc (suc h)) rest ++ concat (take i (chunks get (suc h) p.page)))
                  e)
            (ap
                (λ i.
                  concat (drop i (chunks get (suc h) p.page)) ++ remaining get (suc (suc h)) rest)
                e
              ∙ sym (remaining_link (suc h) (entries get h o) p rest link)),
      )

  outer-Left :
      (h : ℕ) (o : Page) (p : Frame) (rest : List Frame) {s : Sibling}
      → Linked get h o (p ∷ rest)
      → p.ki ≡ 0
      → Left (suc h) p.page rest s
      → Returns (follow get false p s) (Left h o (p ∷ rest))
  outer-Left h o p rest link edge (at_start e) =
      (no_more, refl, at_start (none_before (suc h) p rest edge ∙ e))
  outer-Left h o p rest link edge (last_page q above onq ep er) =
      let f : Frame = record { page = q; ki = numkeys q - 1 } in
      let last : numkeys q ≤ f.ki + 1 = omega arith in
      let (r, onr, run) = push_left h f above onq in
      (
        _,
        run,
        last_page r (f ∷ above) onr
            (preceding_link (suc h) (entries get h r) f above onr.2
              ∙ ap (λ l. preceding get (suc (suc h)) above ++ l) (all_before (suc h) f onq.0 last)
              ∙ ep
              ∙ sym (none_before (suc h) p rest edge))
            (none_behind (suc h) f above onq.0 last
              ∙ er
              ∙ ap
                  (λ i.
                    concat (drop i (chunks get (suc h) p.page)) ++ remaining get (suc (suc h)) rest)
                  (sym edge)
              ∙ sym (remaining_link (suc h) (entries get h o) p rest link)),
      )

  pub sibling-Left :
      (h : ℕ) (f : Frame) (rest : List Frame)
      → Linked get h f.page rest
      → OnPath get (suc h) rest
      → Returns (sibling get false (f ∷ rest)) (Left h f.page rest)
  unfolding sibling
  sibling-Left h f [] link on = (no_more, refl, at_start refl)
  sibling-Left h f (p ∷ rest) link (t, lt, up, on) =
      let (s, run, spec) = sibling-Left (suc h) p rest up on in
      elim (Bool-cases (at_edge false p)) [
        | inl e ↦ rw (sibling, e, run) (outer-Left h f.page p rest link (ground arith) spec)
        | inr e ↦ rw (sibling, e) (inner-Left h f.page p rest link (t, lt, up, on) (ground arith))
      ]
