-- ===== src/Cursor/Start.antt =====
-- `mdb_cursor_first` and `mdb_cursor_last` of a cursor that was opened and not moved yet.
use sam_lmdb_rs.Base.{
  ℕ, ◌+◌, ◌≤◌, ◌<◌, ◌≡◌, ◌⊎◌, inr, Option, some, true, false, List, [], ◌∷◌, ◌++◌, arith, refl, ap,
  sym, ◌∙◌, append-nil, ltb, ◌==◌,
}
use sam_lmdb_rs.Base.Int.{ℤ}
use sam_lmdb_rs.Cursor.{Leaf, Page, Frame, Cursor, numkeys, success}
use sam_lmdb_rs.Cursor.Tree.{entries, IsTree, remaining, preceding, numkeys_small, numkeys_some}
use sam_lmdb_rs.Cursor.Siblings.{
  remaining_link, preceding_link, none_behind, none_before, all_before,
}
use sam_lmdb_rs.Cursor.Search.{
  Database, Pick, search_root, page_search, p_invalid, stack_room, last_index,
}
use sam_lmdb_rs.Cursor.Move.{Outcome, deliver, search_end, cursor_first, cursor_last}
use sam_lmdb_rs.Cursor.Walk.{position, At, leaf_lem, arrive_lem}
use sam_lmdb_rs.Cursor.Ends.{descend_first, descend_last}

-- a cursor after `mdb_cursor_open`
abbrev pub fresh : Cursor
fresh = record { stack = []; initialized = false; eof = false; del = false }

module _ (get : ℕ → ℤ ⊎ Page) (db : Database) where
  -- The database has the tree `p` of height `h`, and its transaction is not blocked.
  pub record Rooted (h : ℕ) (p : Page) : Type 0 where
    pub unblocked : db.blocked ≡ false
    pub used : (db.md_root == p_invalid) ≡ false
    pub behind_meta : 1 < db.md_root
    pub found : get db.md_root ≡ inr p
    pub tree : IsTree get h p
    pub height : h ≤ stack_room

  abbrev bottom : Page → Frame
  bottom p = record { page = p; ki = 0 }

  pub page_search-fresh :
      (pick : Pick) (h : ℕ) (p : Page) (top : Frame) (rest : List Frame)
      → search_root get db.free_dbi false pick stack_room (bottom p) [] []
        ≡ some (success, top ∷ rest)
      → Rooted h p
      → page_search get db pick fresh ≡ some (success, position get top rest false)
  unfolding page_search
  page_search-fresh pick h p top rest run r =
      let g : ltb 1 db.md_root ≡ true = ground (arith, r.behind_meta) in
      rw (page_search, r.unblocked, r.used, g, r.found, run) refl

  -- The cursor is at the first entry of the tree.
  pub record AtFirst (h : ℕ) (p : Page) (result : Option Outcome) : Type 0 where
    pub c : Cursor
    pub e : Leaf
    pub after : List Leaf
    pub run : result ≡ deliver get c e
    pub whole : entries get h p ≡ e ∷ after
    pub position : At get c [] e after

  pub cursor_first-AtFirst :
      (h : ℕ) (p : Page) → Rooted h p → AtFirst h p (cursor_first get db fresh)
  unfolding cursor_first search_end
  cursor_first-AtFirst h p r =
      let (o, ahead, behind) =
        descend_first get db.free_dbi false h stack_room (bottom p) [] [] r.height r.tree tt tt in
      let f : Frame = record o.top { ki = 0 } in
      let (x, here, chunk) =
        leaf_lem get o.top.page 0 o.tree (numkeys_some get 0 o.top.page o.tree) in
      record {
        c = position get f o.rest false;
        e = x;
        after = remaining get 0 (f ∷ o.rest);
        run =
            rw (cursor_first, page_search-fresh Pick.first h p o.top o.rest o.run r)
              (arrive_lem get f o.rest false x here);
        whole =
            sym (append-nil (entries get h p))
            ∙ sym behind
            ∙ sym (remaining_link get 0 (x ∷ []) f o.rest chunk);
        position = record {
          top = f;
          rest = o.rest;
          eof = false;
          shape = refl;
          on = (o.tree, numkeys_some get 0 o.top.page o.tree, o.linked, o.on);
          here = here;
          earlier = none_before get 0 f o.rest refl ∙ ahead;
          later = refl;
          ended = λ h. cc;
        };
      }

  -- The cursor is at the last entry of the tree.
  pub record AtLast (h : ℕ) (p : Page) (result : Option Outcome) : Type 0 where
    pub c : Cursor
    pub e : Leaf
    pub before : List Leaf
    pub run : result ≡ deliver get c e
    pub whole : entries get h p ≡ before ++ e ∷ []
    pub position : At get c before e []

  pub cursor_last-AtLast : (h : ℕ) (p : Page) → Rooted h p → AtLast h p (cursor_last get db fresh)
  unfolding cursor_last search_end
  cursor_last-AtLast h p r =
      let (o, behind, ahead) =
        descend_last get db.free_dbi h stack_room (bottom p) [] [] r.height r.tree tt tt in
      let few = numkeys_small get 0 o.top.page o.tree in
      let many = numkeys_some get 0 o.top.page o.tree in
      let f : Frame = record o.top { ki = last_index (numkeys o.top.page) } in
      let lt : f.ki < numkeys f.page = omega arith in
      let last : numkeys f.page ≤ f.ki + 1 = omega arith in
      let (x, here, chunk) = leaf_lem get f.page f.ki o.tree lt in
      let nothing = none_behind get 0 f o.rest o.tree last ∙ behind in
      record {
        c = position get f o.rest true;
        e = x;
        before = preceding get 0 (f ∷ o.rest);
        run =
            rw (cursor_last, page_search-fresh Pick.last h p o.top o.rest o.run r)
              (arrive_lem get f o.rest true x here);
        whole = sym (
            preceding_link get 0 (x ∷ []) f o.rest chunk
            ∙ ap (λ l. preceding get 1 o.rest ++ l) (all_before get 0 f o.tree last)
            ∙ ahead);
        position = record {
          top = f;
          rest = o.rest;
          eof = true;
          shape = refl;
          on = (o.tree, lt, o.linked, o.on);
          here = here;
          earlier = refl;
          later = nothing;
          ended = λ h. refl;
        };
      }
