-- ===== src/Cursor/Walk.antt =====
-- A cursor walks over the entries of the tree in order: seen from outside it is a list with a mark.
use sam_lmdb_rs.Base.{
  ℕ, ◌+◌, ◌≤◌, ◌<◌, ◌≡◌, ◌⊎◌, inl, inr, Option, some, Bool, true, false, ◌&&◌, not, List, [], ◌∷◌,
  ◌++◌, drop, get_elem?, arith, refl, ap, sym, ◌∙◌, subst, Bool-cases, leb, ◌==◌,
}
use sam_lmdb_rs.Base.Int.{ℤ}
use sam_lmdb_rs.Node.{u16}
use sam_lmdb_rs.Cursor.{Leaf, Page, Frame, Cursor, numkeys, count, notfound, Sibling}
use sam_lmdb_rs.Cursor.Tree.{
  chunks, chunks_of, IsTree, OnPath, remaining, preceding, concat, get_elem?-lt, get_elem?-map,
  numkeys_small,
}
use sam_lmdb_rs.Cursor.Siblings.{
  Right, at_end, next_page, sibling-Right, remaining_link, preceding_link, none_behind, none_before,
  all_before,
}
use sam_lmdb_rs.Cursor.Search.{Database}
use sam_lmdb_rs.Cursor.Move.{
  Outcome, without, leaf_at, deliver, arrive, cross, step_right, cursor_next,
}

module _ (get : ℕ → ℤ ⊎ Page) where
  -- an initialized cursor, without C_DEL
  abbrev pub position : Frame → List Frame → (eof : Bool) → Cursor
  position f rest eof = record { stack = f ∷ rest; initialized = true; eof = eof; del = false }

  -- The cursor is at entry `e` of the tree, with `before` ahead of it and `after` behind.
  pub record At (c : Cursor) (before : List Leaf) (e : Leaf) (after : List Leaf) : Type 0 where
    pub top : Frame
    pub rest : List Frame
    pub eof : Bool
    pub shape : c ≡ position top rest eof
    pub on : OnPath get 0 (top ∷ rest)
    pub here : leaf_at top.page.nodes top.ki ≡ some e
    pub earlier : preceding get 0 (top ∷ rest) ≡ before
    pub later : remaining get 0 (top ∷ rest) ≡ after
    pub ended : eof ≡ true → after ≡ []

  -- the entry of a leaf page at an index
  pub leaf_lem :
      (p : Page) (i : ℕ)
      → IsTree get 0 p
      → i < numkeys p
      → (e : Leaf) × (leaf_at p.nodes i ≡ some e) × (get_elem? (chunks get 0 p) i ≡ some (e ∷ []))
  unfolding IsTree chunks_of
  leaf_lem p i (es, e, many, few) lt =
      let (x, ex) = get_elem?-lt es i (subst (λ t. i < count t) e lt) in
      (
        x,
        ap (λ t. leaf_at t i) e ∙ ex,
        ap (λ t. get_elem? (chunks_of get 0 t) i) e ∙ get_elem?-map (λ e. e ∷ []) es i x ex,
      )

  -- the chunk of the entry that is known to be there
  pub chunk_lem :
      (p : Page) (i : ℕ) (e : Leaf)
      → IsTree get 0 p
      → leaf_at p.nodes i ≡ some e
      → get_elem? (chunks get 0 p) i ≡ some (e ∷ [])
  unfolding IsTree chunks_of
  chunk_lem p i x (es, e, many, few) here =
      ap (λ t. get_elem? (chunks_of get 0 t) i) e
      ∙ get_elem?-map (λ e. e ∷ []) es i x (sym (ap (λ t. leaf_at t i) e) ∙ here)

  pub arrive_lem :
      (f : Frame) (rest : List Frame) (eof : Bool) (e : Leaf)
      → leaf_at f.page.nodes f.ki ≡ some e
      → arrive get (position f rest eof) ≡ deliver get (position f rest eof) e
  unfolding arrive
  arrive_lem f rest eof e h = rw h refl

  -- What `mdb_cursor_next` does at `e`.
  pub data Next (before : List Leaf) (e : Leaf) (after : List Leaf) (o : Option Outcome)
      : Type 0 where
    finished :
        (c : Cursor)
        → o ≡ some (without notfound c)
        → after ≡ []
        → At c before e []
        → Next before e after o
    next :
        (c : Cursor) (f : Leaf) (more : List Leaf)
        → o ≡ deliver get c f
        → after ≡ f ∷ more
        → At c (before ++ e ∷ []) f more
        → Next before e after o

  -- the cursor comes to a frame
  land :
      (f : Frame) (rest : List Frame) (before : List Leaf) (e : Leaf) (after : List Leaf)
      → OnPath get 0 (f ∷ rest)
      → after ≡ concat (drop f.ki (chunks get 0 f.page)) ++ remaining get 1 rest
      → preceding get 0 (f ∷ rest) ≡ before ++ e ∷ []
      → Next before e after (arrive get (position f rest false))
  land f rest before e after (t, lt, up, on) later earlier =
      let (x, here, chunk) = leaf_lem f.page f.ki t lt in
      next (position f rest false) x (remaining get 0 (f ∷ rest)) (arrive_lem f rest false x here)
        (later ∙ sym (remaining_link get 0 (x ∷ []) f rest chunk))
        (record {
          top = f;
          rest = rest;
          eof = false;
          shape = refl;
          on = (t, lt, up, on);
          here = here;
          earlier = earlier;
          later = refl;
          ended = λ h. cc;
        })

  module _ (db : Database) where
    -- behind the last entry of a page
    cross-Next :
        (f : Frame) (rest : List Frame) (e : Leaf) {s : Sibling}
        → OnPath get 0 (f ∷ rest)
        → leaf_at f.page.nodes f.ki ≡ some e
        → numkeys f.page ≤ f.ki + 1
        → Right get 0 f.page rest s
        → Next
            (preceding get 0 (f ∷ rest))
            e
            (remaining get 0 (f ∷ rest))
            (cross get db true (position f rest false) s)
    unfolding cross
    cross-Next f rest e (t, lt, up, on) here edge (at_end none_right) =
        let none_left = none_behind get 0 f rest t edge ∙ none_right in
        finished (position f rest true) refl none_left (record {
          top = f;
          rest = rest;
          eof = true;
          shape = refl;
          on = (t, lt, up, on);
          here = here;
          earlier = refl;
          later = none_left;
          ended = λ h. refl;
        })
    cross-Next f rest e (t, lt, up, on) here edge (next_page q above onq later earlier) =
        land (record { page = q; ki = 0 }) above _ e _ onq
          (none_behind get 0 f rest t edge ∙ sym later)
          (none_before get 0 (record { page = q; ki = 0 }) above refl
            ∙ earlier
            ∙ ap (λ l. preceding get 1 rest ++ l) (sym (all_before get 0 f t edge))
            ∙ sym (preceding_link get 0 (e ∷ []) f rest (chunk_lem f.page f.ki e t here)))

    step_right-Next :
        (f : Frame) (rest : List Frame) (e : Leaf)
        → OnPath get 0 (f ∷ rest)
        → leaf_at f.page.nodes f.ki ≡ some e
        → Next
            (preceding get 0 (f ∷ rest))
            e
            (remaining get 0 (f ∷ rest))
            (step_right get db (position f rest false) f rest)
    unfolding step_right
    step_right-Next f rest e (t, lt, up, on) here =
        elim (Bool-cases (leb (numkeys f.page) (f.ki + 1))) [
          | inl edge ↦
              let (s, run, spec) = sibling-Right get 0 f rest up on in
              rw (step_right, edge, run)
                (cross-Next f rest e (t, lt, up, on) here (ground arith) spec)
          | inr inside ↦
              let n : u16 (f.ki + 1) ≡ f.ki + 1 = ground (arith, numkeys_small get 0 f.page t) in
              rw (step_right, inside, n)
                (land (record f { ki = f.ki + 1 }) rest _ e _ (t, ground arith, up, on) refl
                  (sym (preceding_link get 0 (e ∷ []) f rest (chunk_lem f.page f.ki e t here))))
        ]

    position-Next :
        (f : Frame) (rest : List Frame) (eof : Bool) (e : Leaf)
        → OnPath get 0 (f ∷ rest)
        → leaf_at f.page.nodes f.ki ≡ some e
        → (eof ≡ true → remaining get 0 (f ∷ rest) ≡ [])
        → Next
            (preceding get 0 (f ∷ rest))
            e
            (remaining get 0 (f ∷ rest))
            (cursor_next get db false (position f rest eof))
    unfolding cursor_next
    position-Next f rest false e on here ended = step_right-Next f rest e on here
    position-Next f rest true e on here ended =
        elim (Bool-cases (not (numkeys f.page == 0) && leb (numkeys f.page) (f.ki + 1))) [
          | inr t ↦ rw (cursor_next, t) (step_right-Next f rest e on here)
          | inl t ↦
              finished (position f rest true) (rw (cursor_next, t) refl) (ended refl) (record {
                top = f;
                rest = rest;
                eof = true;
                shape = refl;
                on = on;
                here = here;
                earlier = refl;
                later = ended refl;
                ended = λ h. refl;
              })
        ]

    -- `mdb_cursor_next` of a cursor at an entry of the tree: it stays and returns MDB_NOTFOUND if no
    -- entry is behind; otherwise it comes to the next entry and returns what `mdb_node_read` gives.
    pub cursor_next-Next :
        (c : Cursor) (before : List Leaf) (e : Leaf) (after : List Leaf)
        → At c before e after
        → Next before e after (cursor_next get db false c)
    unfolding cursor_next
    cursor_next-Next c before e after a =
        let o = λ (d : Cursor). cursor_next get db false d in
        subst (λ d. Next before e after (o d)) (sym a.shape)
          (subst (λ l. Next l e after (o (position a.top a.rest a.eof))) a.earlier
            (subst
              (λ l. Next (preceding get 0 (a.top ∷ a.rest)) e l (o (position a.top a.rest a.eof)))
              a.later (position-Next a.top a.rest a.eof e a.on a.here (λ h. a.later ∙ a.ended h))))
