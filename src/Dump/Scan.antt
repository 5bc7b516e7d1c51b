-- ===== src/Dump/Scan.antt =====
-- liblmdb/mdb_dump.c: the loop of `dumpit`, which moves a cursor over a database. No signal arrives.
use sam_lmdb_rs.Base.{
  ℕ, zero, suc, ◌<◌, ◌≡◌, ◌⊎◌, inr, Option, none, some, false, List, [], ◌∷◌, ◌++◌, length, arith,
  refl, ap, sym, ◌∙◌, subst, if◌then◌else◌, ◌>>=◌,
}
use sam_lmdb_rs.Base.Int.{ℤ}
use sam_lmdb_rs.Env.{is_success}
use sam_lmdb_rs.Cursor.{Leaf, Page, Cursor, notfound}
use sam_lmdb_rs.Cursor.Tree.{entries}
use sam_lmdb_rs.Cursor.Search.{Database}
use sam_lmdb_rs.Cursor.Move.{without, node_read, deliver, cursor_next}
use sam_lmdb_rs.Cursor.Walk.{At, Next, finished, next, cursor_next-Next}
use sam_lmdb_rs.Cursor.Start.{fresh, Rooted, cursor_first-AtFirst}
use sam_lmdb_rs.Cursor.Get.{CursorOp, cursor_get, cursor_get_open}
use sam_lmdb_rs.Dump.{Mode, line, dump_records}

module _ (get : ℕ → ℤ ⊎ Page) (db : Database) (mode : Mode) where
  -- The condition of the loop stores in `rc` whether the call succeeded, so any failure ends the loop
  -- like the end of the database. The result is what is written from here on.
  unfoldable pub dump_loop : (fuel : ℕ) → Cursor → Option (List ℕ)
  unfolding cursor_get dump_records
  dump_loop zero c = none
  dump_loop (suc fuel) c = cursor_get get db CursorOp.next c >>= λ o.
      if is_success o.rc
      then (o.item >>= λ r.
          dump_loop fuel o.cursor >>= λ out. some (line mode r.0 ++ (line mode r.1 ++ out)))
      else some (dump_records mode [])

  -- what is read at each of the entries
  abbrev pub Reads : List Leaf → List (List ℕ × List ℕ) → Type 0
  Reads [] [] = Unit
  Reads [] (r ∷ rs) = ⊥
  Reads (e ∷ es) [] = ⊥
  Reads (e ∷ es) ((key, value) ∷ rs) =
      (e.key ≡ key) × (node_read get e.content ≡ some (inr value)) × Reads es rs

  one_record :
      (fuel : ℕ) (c d : Cursor) (e : Leaf) (value : List ℕ) (before after : List Leaf)
      → db.blocked ≡ false
      → cursor_next get db false c ≡ deliver get d e
      → node_read get e.content ≡ some (inr value)
      → At get d before e after
      → dump_loop (suc fuel) c
        ≡ (dump_loop fuel d >>= λ out. some (line mode e.key ++ (line mode value ++ out)))
  unfolding dump_loop cursor_get deliver
  one_record fuel c d e value before after open_ run read a =
      let put = λ (x : Cursor).
        (dump_loop fuel x >>= λ out. some (line mode e.key ++ (line mode value ++ out))) in
      let same : record d { del = false } ≡ d =
        subst (λ x. record x { del = false } ≡ x) (sym a.shape) refl in
      rw (dump_loop, cursor_get_open get db CursorOp.next c open_, run, deliver, read) (ap put same)

  no_record :
      (fuel : ℕ) (c d : Cursor)
      → db.blocked ≡ false
      → cursor_next get db false c ≡ some (without notfound d)
      → dump_loop (suc fuel) c ≡ some (dump_records mode [])
  unfolding dump_loop
  no_record fuel c d open_ run =
      rw (dump_loop, cursor_get_open get db CursorOp.next c open_, run) refl

  -- from an entry on, what remains is written
  abbrev Rest : (fuel : ℕ) → Type 0
  Rest fuel =
      (c : Cursor) (before : List Leaf) (e : Leaf) (after : List Leaf) (rs : List (List ℕ × List ℕ))
      → At get c before e after
      → Reads after rs
      → length rs < fuel
      → dump_loop fuel c ≡ some (dump_records mode rs)

  -- one record, and what remains
  dump_one :
      (fuel : ℕ) (c d : Cursor) (before : List Leaf) (e : Leaf) (more : List Leaf)
      (rs : List (List ℕ × List ℕ))
      → db.blocked ≡ false
      → Rest fuel
      → cursor_next get db false c ≡ deliver get d e
      → At get d before e more
      → Reads (e ∷ more) rs
      → length rs < suc fuel
      → dump_loop (suc fuel) c ≡ some (dump_records mode rs)
  unfolding dump_records
  dump_one fuel c d before e more [] open_ rest run a h lt = absurd h
  dump_one fuel c d before e more ((key, value) ∷ rs) open_ rest run a (ek, read, h) lt =
      one_record fuel c d e value before more open_ run read a
      ∙ rw (rest d before e more rs a h (omega arith), ek) refl

  dump_step :
      (fuel : ℕ) (c : Cursor) (before : List Leaf) (e : Leaf) (after : List Leaf)
      (rs : List (List ℕ × List ℕ))
      → db.blocked ≡ false
      → Rest fuel
      → Next get before e after (cursor_next get db false c)
      → Reads after rs
      → length rs < suc fuel
      → dump_loop (suc fuel) c ≡ some (dump_records mode rs)
  unfolding dump_records
  dump_step fuel c before e after [] open_ rest (finished d run empty a) h lt =
      no_record fuel c d open_ run
  dump_step fuel c before e after (r ∷ rs) open_ rest (finished d run empty a) h lt =
      absurd (subst (λ l. Reads l (r ∷ rs)) empty h)
  dump_step fuel c before e after rs open_ rest (next d f more run split a) h lt =
      dump_one fuel c d (before ++ e ∷ []) f more rs open_ rest run a
        (subst (λ l. Reads l rs) split h) lt

  dump-Rest : (fuel : ℕ) → db.blocked ≡ false → Rest fuel
  dump-Rest zero open_ c before e after rs a h lt = absurd (omega arith)
  dump-Rest (suc fuel) open_ c before e after rs a h lt =
      dump_step fuel c before e after rs open_ (dump-Rest fuel open_)
        (cursor_next-Next get db c before e after a) h lt

  -- For a database with a tree of pages whose data can be read, and a transaction that is not
  -- blocked, the loop ends, and writes the records of all entries in order, then the last line.
  pub dump_loop-dump_records :
      (h : ℕ) (p : Page) (rs : List (List ℕ × List ℕ)) (fuel : ℕ)
      → Rooted get db h p
      → Reads (entries get h p) rs
      → length rs < fuel
      → dump_loop fuel fresh ≡ some (dump_records mode rs)
  unfolding cursor_next
  dump_loop-dump_records h p rs zero r reads lt = absurd (omega arith)
  dump_loop-dump_records h p rs (suc fuel) r reads lt =
      let o = cursor_first-AtFirst get db h p r in
      dump_one fuel fresh o.c [] o.e o.after rs r.unblocked (dump-Rest fuel r.unblocked) o.run
        o.position (subst (λ l. Reads l rs) o.whole reads) lt
