-- ===== src/Cursor/Get.antt =====
-- `mdb_cursor_get` for the operations that neither search for a key nor read several data items, with
-- a key and a data pointer, for a database without MDB_DUPSORT.
use sam_lmdb_rs.Base.{
  ℕ, ◌≡◌, ap, ◌⊎◌, Option, none, some, true, false, ◌||◌, not, [], ◌∷◌, if◌then◌else◌, leb, ◌==◌,
  ◌>>=◌,
}
use sam_lmdb_rs.Base.Int.{ℤ, pos}
use sam_lmdb_rs.Cursor.{Page, Cursor, numkeys, notfound, bad_txn}
use sam_lmdb_rs.Cursor.Search.{Database}
use sam_lmdb_rs.Cursor.Move.{
  Outcome, without, leaf_at, deliver, cursor_first, cursor_last, cursor_next, cursor_prev,
}

-- MDB_cursor_op
pub data CursorOp : Type 0 where
  get_current next next_dup next_nodup prev prev_dup prev_nodup first last : CursorOp

-- EINVAL
abbrev pub einval : ℤ
einval = pos 22

module _ (get : ℕ → ℤ ⊎ Page) (db : Database) where
  unfoldable pub current : Cursor → Option Outcome
  unfolding deliver
  current c = if not c.initialized then some (without einval c) else elim c.stack [
    | [] ↦ none
    | f ∷ rest ↦
        if numkeys f.page == 0 || leb (numkeys f.page) f.ki
        then some (without notfound (record c { stack = record f { ki = numkeys f.page } ∷ rest }))
        else leaf_at f.page.nodes f.ki >>= deliver get c
  ]

  abbrev pub operation : CursorOp → Cursor → Option Outcome
  operation get_current c = current c
  operation next c = cursor_next get db false c
  operation next_dup c = cursor_next get db true c
  operation next_nodup c = cursor_next get db false c
  operation prev c = cursor_prev get db c
  operation prev_dup c = cursor_prev get db c
  operation prev_nodup c = cursor_prev get db c
  operation first c = cursor_first get db c
  operation last c = cursor_last get db c

  -- `mdb_cursor_get`
  unfoldable pub cursor_get : CursorOp → Cursor → Option Outcome
  unfolding current cursor_next cursor_prev cursor_first cursor_last
  cursor_get op c =
      if db.blocked
      then some (without bad_txn c)
      else operation op c >>= λ o. some (record o { cursor = record o.cursor { del = false } })

  abbrev pub clear_del : Outcome → Outcome
  clear_del o = record o { cursor = record o.cursor { del = false } }

  pub cursor_get_open :
      (op : CursorOp) (c : Cursor)
      → db.blocked ≡ false
      → cursor_get op c ≡ (operation op c >>= λ o. some (clear_del o))
  unfolding cursor_get
  cursor_get_open op c h =
      ap (λ t. if t then some (without bad_txn c) else (operation op c >>= λ o. some (clear_del o)))
        h
