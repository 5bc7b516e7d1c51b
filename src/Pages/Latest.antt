-- ===== src/Pages/Latest.antt =====
-- `mdb_page_get` finds the latest version of a page.
use sam_lmdb_rs.Base.{
  ℕ, ◌+◌, ◌*◌, ◌%◌, ◌^◌, ◌≤◌, ◌<◌, ◌≡◌, ◌≢◌, ◌⊎◌, inl, inr, Option, none, some, Bool, true, false,
  ◌&&◌, List, [], ◌∷◌, length, arith, refl, Returns, Bool-cases, leb, ◌==◌,
}
use sam_lmdb_rs.Idl.{Idl}
use sam_lmdb_rs.Idl.Valid.{IsValid, at, IsDescending, read-at}
use sam_lmdb_rs.Idl.Search.{midl_search-Returns}
use sam_lmdb_rs.Id2.{Id2, Sorted, mid2}
use sam_lmdb_rs.Id2.Order.{IsAscending, mid2l_search-Returns}
use sam_lmdb_rs.Pages.{
  Txn, Place, dirty, mapped, not_found, Hit, nothing, dirtied, in_spill, in_dirty, spill_test, hit,
  chain_loop, settle, page_get,
}

-- the lists of a transaction are well formed
abbrev pub SpillReady : Option Idl → Type 0
SpillReady none = Unit
SpillReady (some l) = IsValid l × (l.count + 1 < 2 ^ 32) × IsDescending l

abbrev pub Ready : List Txn → Type 0
Ready [] = Unit
Ready (t ∷ ts) =
    SpillReady t.spill_pgs
    × (t.dirty_list.count + 1 < 2 ^ 32)
    × IsAscending mid2 t.dirty_list
    × Ready ts

-- An IDL holds an ID, or does not.
abbrev pub Has : Idl → ℕ → Type 0
Has l id = (k : ℕ) × (1 ≤ k) × (k ≤ l.count) × (at l k ≡ id)

abbrev pub HasNot : Idl → ℕ → Type 0
HasNot l id = (k : ℕ) → 1 ≤ k → k ≤ l.count → at l k ≢ id

-- The page was spilled: its number times two is in the list.
abbrev pub Spilled : Option Idl → ℕ → Type 0
Spilled none pgno = ⊥
Spilled (some l) pgno = Has l (pgno * 2)

abbrev pub NotSpilled : Option Idl → ℕ → Type 0
NotSpilled none pgno = Unit
NotSpilled (some l) pgno = HasNot l (pgno * 2)

abbrev pub Dirty : Sorted Id2 → ℕ → ℕ → Type 0
Dirty dl pgno p =
    (k : ℕ) × (1 ≤ k) × (k ≤ dl.count) × ((dl.entries k).mid ≡ pgno) × ((dl.entries k).mptr ≡ p)

abbrev pub NotDirty : Sorted Id2 → ℕ → Type 0
NotDirty dl pgno = (k : ℕ) → 1 ≤ k → k ≤ dl.count → (dl.entries k).mid ≢ pgno

-- The first transaction of the chain that has the page decides where it is: in the map at this level
-- if it was spilled, otherwise at the pointer of the dirty list.
pub data Latest (pgno : ℕ) : ℕ → List Txn → Option Place → Type 0 where
  is_spilled :
      {level : ℕ} {t : Txn} {ts : List Txn}
      → Spilled t.spill_pgs pgno
      → Latest pgno level (t ∷ ts) (some (mapped level))
  is_dirty :
      {level : ℕ} {t : Txn} {ts : List Txn} (p : ℕ)
      → NotSpilled t.spill_pgs pgno
      → Dirty t.dirty_list pgno p
      → Latest pgno level (t ∷ ts) (some (dirty p level))
  in_parent :
      {level : ℕ} {t : Txn} {ts : List Txn} {r : Option Place}
      → NotSpilled t.spill_pgs pgno
      → NotDirty t.dirty_list pgno
      → Latest pgno (level + 1) ts r
      → Latest pgno level (t ∷ ts) r
  in_none : {level : ℕ} → Latest pgno level [] none

in_spill_lem :
    (l : Idl) (id : ℕ)
    → IsValid l
    → l.count + 1 < 2 ^ 32
    → IsDescending l
    → Returns (in_spill l id) (λ b. ((b ≡ true) × Has l id) ⊎ ((b ≡ false) × HasNot l id))
unfolding in_spill
in_spill_lem l id valid small sorted =
    let (x, run, (positive, bounded, before, after)) =
      midl_search-Returns l id valid small sorted in
    elim (Bool-cases (leb x l.count)) [
      | inr out ↦
          rw (in_spill, run, out)
            (false, refl, inr (refl, (λ k a b. ground (arith, before k a, out))))
      | inl inside ↦
          let in_list : x ≤ l.count = ground arith in
          let le : x ≤ length l.cells = omega (arith, valid.sized, valid.fits) in
          let least : at l x ≤ id = after x (omega arith) in_list in
          elim (Bool-cases (at l x == id)) [
            | inl same ↦
                rw (in_spill, run, inside, read-at l x le, same)
                  (true, refl, inl (refl, (x, positive, ground arith, ground arith)))
            | inr other ↦
                rw (in_spill, run, inside, read-at l x le, other)
                  (
                    false,
                    refl,
                    inr (refl, (λ k a b. ground (arith, before k a, sorted x k positive))),
                  )
          ]
    ]

in_dirty_lem :
    (dl : Sorted Id2) (pgno : ℕ)
    → dl.count + 1 < 2 ^ 32
    → IsAscending mid2 dl
    → Returns
        (in_dirty dl pgno)
        (λ h. ((p : ℕ) × (h ≡ dirtied p) × Dirty dl pgno p) ⊎ ((h ≡ nothing) × NotDirty dl pgno))
unfolding in_dirty
in_dirty_lem dl pgno small sorted =
    let (x, run, (positive, bounded, before, after)) = mid2l_search-Returns dl pgno small sorted in
    elim (Bool-cases (dl.count == 0)) [
      | inl empty ↦
          rw (in_dirty, empty) (nothing, refl, inr (refl, (λ k a b. absurd (ground arith))))
      | inr some_pages ↦ elim (Bool-cases (leb x dl.count && ((dl.entries x).mid == pgno))) [
        | inl same ↦
            rw (in_dirty, some_pages, run, same)
              (
                dirtied (dl.entries x).mptr,
                refl,
                inl ((dl.entries x).mptr, refl, (x, positive, ground arith, ground arith, refl)),
              )
        | inr other ↦
            rw (in_dirty, some_pages, run, other)
              (
                nothing,
                refl,
                inr (refl, (λ k a b. ground (arith, before k a, sorted x k positive, after x))),
              )
      ]
    ]

spill_test_lem :
    (s : Option Idl) (pgno : ℕ)
    → SpillReady s
    → pgno < 2 ^ 63
    → Returns
        (spill_test s (pgno * 2 % 2 ^ 64))
        (λ b. ((b ≡ true) × Spilled s pgno) ⊎ ((b ≡ false) × NotSpilled s pgno))
spill_test_lem none pgno ready small = (false, refl, inr (refl, tt))
spill_test_lem (some l) pgno (valid, room, sorted) small =
    let e : pgno * 2 % 2 ^ 64 ≡ pgno * 2 = omega arith in
    rw e (in_spill_lem l (pgno * 2) valid room sorted)

-- one transaction, when what its parents have is known
one_txn :
    (level : ℕ) (t : Txn) (ts : List Txn) (pgno : ℕ) (b : Bool) (h : Hit) (r : Option Place)
    → chain_loop (level + 1) ts pgno ≡ some r
    → Latest pgno (level + 1) ts r
    → spill_test t.spill_pgs (pgno * 2 % 2 ^ 64) ≡ some b
    → ((b ≡ true) × Spilled t.spill_pgs pgno) ⊎ ((b ≡ false) × NotSpilled t.spill_pgs pgno)
    → in_dirty t.dirty_list pgno ≡ some h
    → ((p : ℕ) × (h ≡ dirtied p) × Dirty t.dirty_list pgno p)
      ⊎ ((h ≡ nothing) × NotDirty t.dirty_list pgno)
    → Returns (chain_loop level (t ∷ ts) pgno) (Latest pgno level (t ∷ ts))
unfolding chain_loop hit
one_txn level t ts pgno b h r up up_ok run (inl (e, s)) run_d d =
    (some (mapped level), rw (chain_loop, hit, run, e) refl, is_spilled s)
one_txn level t ts pgno b h r up up_ok run (inr (e, s)) run_d (inl (p, eh, d)) =
    (some (dirty p level), rw (chain_loop, hit, run, e, run_d, eh) refl, is_dirty p s d)
one_txn level t ts pgno b h r up up_ok run (inr (e, s)) run_d (inr (eh, d)) =
    (r, rw (chain_loop, hit, run, e, run_d, eh) up, in_parent s d up_ok)

chain_loop-Latest :
    (level : ℕ) (chain : List Txn) (pgno : ℕ)
    → Ready chain
    → pgno < 2 ^ 63
    → Returns (chain_loop level chain pgno) (Latest pgno level chain)
unfolding chain_loop
chain_loop-Latest level [] pgno ready small = (none, refl, in_none)
chain_loop-Latest level (t ∷ ts) pgno (spill, room, sorted, ready) small =
    let (r, up, up_ok) = chain_loop-Latest (level + 1) ts pgno ready small in
    let (b, run, s) = spill_test_lem t.spill_pgs pgno spill small in
    let (h, run_d, d) = in_dirty_lem t.dirty_list pgno room sorted in
    one_txn level t ts pgno b h r up up_ok run s run_d d

-- What is returned: what the chain has, or else the page of the map, unless there is no such page.
pub data Answer (mt_next_pgno pgno : ℕ) : Option Place → Place → Type 0 where
  from_chain : (p : Place) → Answer mt_next_pgno pgno (some p) p
  from_map : pgno < mt_next_pgno → Answer mt_next_pgno pgno none (mapped 0)
  no_page : mt_next_pgno ≤ pgno → Answer mt_next_pgno pgno none not_found

settle-Answer : (next pgno : ℕ) (r : Option Place) → Answer next pgno r (settle next pgno r)
settle-Answer next pgno (some p) = from_chain p
settle-Answer next pgno none = elim (Bool-cases (leb next pgno)) [
  | inl t ↦ rw t (no_page (ground arith))
  | inr t ↦ rw t (from_map (ground arith))
]

-- For well-formed lists, and a page number below 2^63, `mdb_page_get` of a transaction that does
-- not read from the map alone returns the page of the innermost transaction that has it: from the
-- map if that one has spilled it, otherwise the one in its dirty list. If none has it, the page is
-- read from the map, and the result is MDB_PAGE_NOTFOUND exactly if the number is not below
-- `mt_next_pgno`.
pub page_get-Latest :
    (chain : List Txn) (mt_next_pgno pgno : ℕ)
    → Ready chain
    → pgno < 2 ^ 63
    → Returns
        (page_get false chain mt_next_pgno pgno)
        (λ place. (r : Option Place) × Latest pgno 1 chain r × Answer mt_next_pgno pgno r place)
unfolding page_get
page_get-Latest chain next pgno ready small =
    let (r, run, ok) = chain_loop-Latest 1 chain pgno ready small in
    (settle next pgno r, rw (page_get, run) refl, (r, ok, settle-Answer next pgno r))
