-- ===== src/Cursor/Back.antt =====
-- A cursor walks backwards over the entries of the tree.
use sam_lmdb_rs.Base.{
  ℕ, ◌+◌, ◌-◌, ◌≤◌, ◌<◌, ◌≡◌, ◌⊎◌, inl, inr, Option, some, Bool, false, List, [], ◌∷◌, ◌++◌, take,
  drop, arith, refl, ap, sym, ◌∙◌, subst, Bool-cases, ◌==◌,
}
use sam_lmdb_rs.Base.Int.{ℤ}
use sam_lmdb_rs.Cursor.{Leaf, Page, Frame, Cursor, numkeys, notfound, Sibling}
use sam_lmdb_rs.Cursor.Tree.{chunks, OnPath, remaining, preceding, concat}
use sam_lmdb_rs.Cursor.Siblings.{
  Left, at_start, last_page, sibling-Left, remaining_link, preceding_link, none_behind, none_before,
  all_before,
}
use sam_lmdb_rs.Cursor.Search.{Database}
use sam_lmdb_rs.Cursor.Move.{
  Outcome, without, leaf_at, deliver, arrive, cross, step_left, cursor_prev,
}
use sam_lmdb_rs.Cursor.Walk.{position, At, leaf_lem, chunk_lem, arrive_lem}

module _ (get : ℕ → ℤ ⊎ Page) where
  -- What `mdb_cursor_prev` does at `e`.
  pub data Prev (before : List Leaf) (e : Leaf) (after : List Leaf) (o : Option Outcome)
      : Type 0 where
    finished :
        (c : Cursor)
        → o ≡ some (without notfound c)
        → before ≡ []
        → At get c [] e after
        → Prev before e after o
    prev :
        (c : Cursor) (f : Leaf) (fewer : List Leaf)
        → o ≡ deliver get c f
        → before ≡ fewer ++ f ∷ []
        → At get c fewer f (e ∷ after)
        → Prev before e after o

  land_left :
      (f : Frame) (rest : List Frame) (before : List Leaf) (e : Leaf) (after : List Leaf)
      → OnPath get 0 (f ∷ rest)
      → before ≡ preceding get 1 rest ++ concat (take (f.ki + 1) (chunks get 0 f.page))
      → remaining get 0 (f ∷ rest) ≡ e ∷ after
      → Prev before e after (arrive get (position get f rest false))
  land_left f rest before e after (t, lt, up, on) earlier later =
      let (x, here, chunk) = leaf_lem get f.page f.ki t lt in
      prev (position get f rest false) x (preceding get 0 (f ∷ rest))
        (arrive_lem get f rest false x here)
        (earlier ∙ sym (preceding_link get 0 (x ∷ []) f rest chunk))
        (record {
          top = f;
          rest = rest;
          eof = false;
          shape = refl;
          on = (t, lt, up, on);
          here = here;
          earlier = refl;
          later = later;
          ended = λ h. cc;
        })

  module _ (db : Database) where
    -- before the first entry of a page
    cross-Prev :
        (f : Frame) (rest : List Frame) (e : Leaf) {s : Sibling}
        → OnPath get 0 (f ∷ rest)
        → leaf_at f.page.nodes f.ki ≡ some e
        → f.ki ≡ 0
        → Left get 0 f.page rest s
        → Prev
            (preceding get 0 (f ∷ rest))
            e
            (remaining get 0 (f ∷ rest))
            (cross get db false (position get f rest false) s)
    unfolding cross
    cross-Prev f rest e on here edge (at_start none_left) =
        let none_ahead = none_before get 0 f rest edge ∙ none_left in
        finished (position get f rest false) refl none_ahead (record {
          top = f;
          rest = rest;
          eof = false;
          shape = refl;
          on = on;
          here = here;
          earlier = none_ahead;
          later = refl;
          ended = λ h. cc;
        })
    cross-Prev f rest e (t, lt, up, on) here edge (last_page q above onq earlier later) =
        let g : Frame = record { page = q; ki = numkeys q - 1 } in
        let last : numkeys q ≤ g.ki + 1 = omega arith in
        land_left g above _ e _ onq
          (none_before get 0 f rest edge
            ∙ sym earlier
            ∙ ap (λ l. preceding get 1 above ++ l) (sym (all_before get 0 g onq.0 last)))
          (none_behind get 0 g above onq.0 last
            ∙ later
            ∙ ap (λ i. concat (drop i (chunks get 0 f.page)) ++ remaining get 1 rest) (sym edge)
            ∙ sym (remaining_link get 0 (e ∷ []) f rest (chunk_lem get f.page f.ki e t here)))

    position-Prev :
        (f : Frame) (rest : List Frame) (eof : Bool) (e : Leaf)
        → OnPath get 0 (f ∷ rest)
        → leaf_at f.page.nodes f.ki ≡ some e
        → Prev
            (preceding get 0 (f ∷ rest))
            e
            (remaining get 0 (f ∷ rest))
            (step_left get db (position get f rest eof))
    unfolding step_left
    position-Prev f rest eof e (t, lt, up, on) here = elim (Bool-cases (f.ki == 0)) [
      | inl edge ↦
          let (s, run, spec) = sibling-Left get 0 f rest up on in
          rw (step_left, edge, run) (cross-Prev f rest e (t, lt, up, on) here (ground arith) spec)
      | inr inside ↦
          let more : 0 < f.ki = ground arith in
          let n : f.ki ≡ f.ki - 1 + 1 = omega arith in
          rw (step_left, inside)
            (land_left (record f { ki = f.ki - 1 }) rest _ e _ (t, omega arith, up, on)
              (ap (λ i. preceding get 1 rest ++ concat (take i (chunks get 0 f.page))) n)
              (ap (λ i. concat (drop i (chunks get 0 f.page)) ++ remaining get 1 rest) (sym n)
                ∙ sym (remaining_link get 0 (e ∷ []) f rest (chunk_lem get f.page f.ki e t here))))
    ]

    -- `mdb_cursor_prev` of a cursor at an entry of the tree: it stays and returns MDB_NOTFOUND if no
    -- entry is before; otherwise it comes to the entry before and returns what `mdb_node_read` gives.
    pub cursor_prev-Prev :
        (c : Cursor) (before : List Leaf) (e : Leaf) (after : List Leaf)
        → At get c before e after
        → Prev before e after (cursor_prev get db c)
    unfolding cursor_prev
    cursor_prev-Prev c before e after a =
        let o = λ (d : Cursor). cursor_prev get db d in
        subst (λ d. Prev before e after (o d)) (sym a.shape)
          (subst (λ l. Prev l e after (o (position get a.top a.rest a.eof))) a.earlier
            (subst
              (λ l.
                Prev (preceding get 0 (a.top ∷ a.rest)) e l (o (position get a.top a.rest a.eof)))
              a.later (position-Prev a.top a.rest a.eof e a.on a.here)))
