-- ===== src/Node/Insert.antt =====
-- `mdb_node_add` on a leaf page, for data that stays inside the node.
use sam_lmdb_rs.Base.{
  ℕ, ◌+◌, ◌-◌, ◌/◌, ◌%◌, ◌^◌, ◌≤◌, ◌<◌, ◌≡◌, ◌≢◌, ◌⊎◌, none, some, true, false, arith, refl, sym,
  inl, inr, subst, Bool-cases, Returns, if◌then◌else◌, ltb, leb, ◌==◌,
}
use sam_lmdb_rs.Base.Arrays.{store, up_loop, up_loop-kept, up_loop-moved}
use sam_lmdb_rs.Base.Int.{ℤ}
use sam_lmdb_rs.Node.{
  Page, nodesize, short, nodedsz, mn_flags, mn_ksize, u16, numkeys, sizeleft, even, node_size,
}
use sam_lmdb_rs.Node.Add.{
  Val, Outcome, node_add, add_leaf, update_page, is_bigdata, failed, success, page_full, too_large,
}
use sam_lmdb_rs.Node.Written.{
  written, written_ksize, written_flags, written_lo, written_hi, written_key, written_data,
  written_outside,
}
use sam_lmdb_rs.Node.Shift.{skip}
use sam_lmdb_rs.Node.Delete.{IsValid, Removed, start, size, size_cong}

-- the node at an offset has this key, these flags and this data
pub record Holds (mem : ℕ → ℕ) (at : ℕ) (key val : Val) (flags : ℕ) : Type 0 where
  pub key_size : mn_ksize mem at ≡ key.mv_size
  pub data_size : nodedsz mem at ≡ val.mv_size
  pub flag_bits : mn_flags mem at ≡ flags
  pub key_bytes : (x : ℕ) → x < key.mv_size → mem (at + nodesize + x) ≡ key.mv_data x
  pub data_bytes : (x : ℕ) → x < val.mv_size → mem (at + nodesize + key.mv_size + x) ≡ val.mv_data x

-- the size of the node that is added
abbrev pub new_size : Val → Val → ℕ
new_size key val = even (nodesize + key.mv_size + val.mv_size)

module _ (psize : ℕ) (p : Page) (indx : ℕ) (key val : Val) (flags : ℕ) (valid : IsValid psize p)
    (leaf : p.is_leaf ≡ true) (h : indx ≤ numkeys p) (ksize : key.mv_size < 2 ^ 16)
    (dsize : val.mv_size < 2 ^ 32) (plain : flags < 2 ^ 16) (inside : is_bigdata flags ≡ false)
    (fits : new_size key val + 2 ≤ p.mp_upper - p.mp_lower) where
  abbrev ofs : ℕ
  ofs = p.mp_upper - new_size key val

  after : Page
  after = record p {
    mp_ptrs = store (up_loop indx (numkeys p - indx) p.mp_ptrs) indx ofs;
    mp_upper = ofs;
    mp_lower = p.mp_lower + 2;
    mem = written p.mem ofs key val flags ksize dsize plain inside;
  }

  numkeys-after : numkeys after ≡ numkeys p + 1
  unfolding after
  numkeys-after = omega (arith, valid.lower)

  start_new : start after indx ≡ ofs
  unfolding after
  start_new = let t : (indx == indx) ≡ true = ground arith in rw t refl

  start_old : (k : ℕ) → k < numkeys p → start after (skip indx k) ≡ start p k
  unfolding after
  start_old k a = elim (Bool-cases (ltb k indx)) [
    | inl e ↦
        let t : (k == indx) ≡ false = ground arith in
        rw (e, t) (up_loop-kept indx (numkeys p - indx) p.mp_ptrs k (inl (ground arith)))
    | inr e ↦
        let t : (k + 1 == indx) ≡ false = ground arith in
        rw (e, t) (up_loop-moved indx (numkeys p - indx) p.mp_ptrs k (ground arith) (ground arith))
  ]

  mem_above : (x : ℕ) → p.mp_upper ≤ x → after.mem x ≡ p.mem x
  unfolding after
  mem_above x a =
      written_outside p.mem ofs key val flags ksize dsize plain inside x (inr (omega (arith, fits)))

  kept_bytes :
      (k x : ℕ) → k < numkeys p → p.mem (start p k + x) ≡ after.mem (start after (skip indx k) + x)
  kept_bytes k x a =
      rw (start_old k a) (sym (mem_above (start p k + x) (omega (arith, valid.above k a))))

  kept_size : (k : ℕ) → k < numkeys p → size p k ≡ size after (skip indx k)
  unfolding after
  kept_size k a =
      size_cong p.is_leaf p.mem after.mem (start p k) (start after (skip indx k))
        (λ x b. kept_bytes k x a)

  data_size_new : nodedsz after.mem ofs ≡ val.mv_size
  unfolding after
  data_size_new =
      let lo : short after.mem ofs ≡ val.mv_size % 2 ^ 16 =
        written_lo p.mem ofs key val flags ksize dsize plain inside in
      let hi : short after.mem (ofs + 2) ≡ val.mv_size / 2 ^ 16 =
        written_hi p.mem ofs key val flags ksize dsize plain inside in
      rw (lo, hi) (omega arith)

  after-Holds : Holds after.mem (start after indx) key val flags
  unfolding after
  after-Holds =
      subst (λ a. Holds after.mem a key val flags) (sym start_new)
        (record {
          key_size = written_ksize p.mem ofs key val flags ksize dsize plain inside;
          data_size = data_size_new;
          flag_bits = written_flags p.mem ofs key val flags ksize dsize plain inside;
          key_bytes = written_key p.mem ofs key val flags ksize dsize plain inside;
          data_bytes = written_data p.mem ofs key val flags ksize dsize plain inside;
        })

  size_new : size after indx ≡ new_size key val
  unfolding after node_size
  size_new =
      let f : mn_flags after.mem ofs ≡ flags =
        written_flags p.mem ofs key val flags ksize dsize plain inside in
      let k : mn_ksize after.mem ofs ≡ key.mv_size =
        written_ksize p.mem ofs key val flags ksize dsize plain inside in
      rw (start_new, leaf, f, inside, k, data_size_new)
        (omega (arith, fits, valid.small, valid.upper))

  -- what is known of a node of the new page
  data Place (j : ℕ) : Type 0 where
    added : j ≡ indx → start after j ≡ ofs → size after j ≡ new_size key val → Place j
    kept :
        (k : ℕ)
        → k < numkeys p
        → j ≡ skip indx k
        → start after j ≡ start p k
        → size after j ≡ size p k
        → Place j

  from_old : (j k : ℕ) → k < numkeys p → j ≡ skip indx k → Place j
  from_old j k a e = subst Place (sym e) (kept k a refl (start_old k a) (sym (kept_size k a)))

  place : (j : ℕ) → j < numkeys after → Place j
  place j a =
      let cases : (j < indx) ⊎ ((j ≡ indx) ⊎ (indx < j)) = ground arith in
      elim cases [
        | inl b ↦ from_old j j (omega arith) (ground arith)
        | inr (inl e) ↦ subst Place (sym e) (added refl start_new size_new)
        | inr (inr b) ↦ from_old j (j - 1) (omega (arith, numkeys-after)) (ground arith)
      ]

  bounds : (after.mp_upper ≡ ofs) × (after.mp_lower ≡ p.mp_lower + 2)
  unfolding after
  bounds = (refl, refl)

  kept_above : (j : ℕ) → j < numkeys after → after.mp_upper ≤ start after j
  kept_above j a = elim (place j a) [
    | added e s z ↦ omega (arith, bounds)
    | kept k b e s z ↦ omega (arith, bounds, valid.above k b)
  ]

  kept_inside : (j : ℕ) → j < numkeys after → start after j + size after j ≤ psize
  kept_inside j a = elim (place j a) [
    | added e s z ↦ omega (arith, valid.upper, fits)
    | kept k b e s z ↦ omega (arith, valid.inside k b)
  ]

  kept_header : (j : ℕ) → j < numkeys after → nodesize ≤ size after j
  kept_header j a = elim (place j a) [
    | added e s z ↦ omega arith
    | kept k b e s z ↦ omega (arith, valid.header k b)
  ]

  kept_apart :
      (i j : ℕ)
      → i < numkeys after
      → j < numkeys after
      → i ≢ j
      → (start after i + size after i ≤ start after j)
        ⊎ (start after j + size after j ≤ start after i)
  kept_apart i j a b ne = elim (place i a) [
    | added e s z ↦ elim (place j b) [
      | added f t y ↦ absurd (ne (omega arith))
      | kept l c f t y ↦ inl (omega (arith, valid.above l c, fits))
    ]
    | kept k c e s z ↦ elim (place j b) [
      | added f t y ↦ inr (omega (arith, valid.above k c, fits))
      | kept l d f t y ↦ ground (arith, valid.apart k l c d (ground arith))
    ]
  ]

  after-IsValid : IsValid psize after
  unfolding after
  after-IsValid = record {
    small = valid.small;
    plain = valid.plain;
    lower = omega (arith, valid.lower);
    room = omega (arith, fits);
    upper = omega (arith, valid.upper);
    above = kept_above;
    inside = kept_inside;
    header = kept_header;
    apart = kept_apart;
  }

  after-Removed : Removed after indx p
  after-Removed = record {
    fewer = sym numkeys-after;
    freed = omega (arith, bounds, size_new, fits);
    sizes = kept_size;
    bytes = λ k x a b. kept_bytes k x a;
  }

abbrev ok : Page → Outcome
ok q = record { rc = success; page = q; overflow = none; txn_error = false }

sizeleft_lem : (psize : ℕ) (p : Page) → IsValid psize p → sizeleft p ≡ p.mp_upper - p.mp_lower
sizeleft_lem psize p valid = omega (arith, valid.room, valid.upper, valid.small)

-- data that is small enough takes the last branch
node_add_small :
    (page_new : ℕ → ℤ ⊎ ℕ) (nodemax psize md_pad : ℕ) (p : Page) (indx : ℕ) (key val : Val)
    (pgno flags : ℕ)
    → IsValid psize p
    → p.is_leaf ≡ true
    → is_bigdata flags ≡ false
    → nodesize + key.mv_size + val.mv_size ≤ nodemax
    → node_add page_new nodemax psize md_pad p indx (some key) (some val) pgno flags ≡ (
        if too_large p (new_size key val)
        then some (failed p page_full true)
        else update_page p indx (some key) val 0 flags (new_size key val) none)
unfolding node_add add_leaf
node_add_small page_new nodemax psize md_pad p indx key val pgno flags valid leaf inside small =
    let r : leb p.mp_lower p.mp_upper ≡ true = ground (arith, valid.room) in
    let t : ltb nodemax (nodesize + key.mv_size + val.mv_size) ≡ false = ground arith in
    rw (r, valid.plain, leaf, inside, t) refl

update_page_lem :
    (psize : ℕ) (p : Page) (indx : ℕ) (key val : Val) (flags : ℕ) (valid : IsValid psize p)
    (leaf : p.is_leaf ≡ true) (h : indx ≤ numkeys p) (ksize : key.mv_size < 2 ^ 16)
    (dsize : val.mv_size < 2 ^ 32) (plain : flags < 2 ^ 16) (inside : is_bigdata flags ≡ false)
    (fits : new_size key val + 2 ≤ p.mp_upper - p.mp_lower)
    → update_page p indx (some key) val 0 flags (new_size key val) none
      ≡ some (ok (after psize p indx key val flags valid leaf h ksize dsize plain inside fits))
unfolding update_page after written
update_page_lem psize p indx key val flags valid leaf h ksize dsize plain inside fits =
    let o : u16 (p.mp_upper + 2 ^ 16 - new_size key val % 2 ^ 16) ≡ p.mp_upper - new_size key val =
      omega (arith, valid.upper, valid.small) in
    let b : leb (p.mp_lower + 2) (p.mp_upper - new_size key val) ≡ true = ground arith in
    let l : u16 (p.mp_lower + 2) ≡ p.mp_lower + 2 = omega (arith, valid.upper, valid.small) in
    rw (update_page, o, b, l, leaf) refl

-- `p` has no room for the node, and nothing is changed but MDB_TXN_ERROR; or `q` is `p` with the node
pub data Inserted (psize : ℕ) (p : Page) (indx : ℕ) (key val : Val) (flags : ℕ)
    : Outcome → Type 0 where
  full :
      p.mp_upper - p.mp_lower < new_size key val + 2
      → Inserted psize p indx key val flags (failed p page_full true)
  fitted :
      (q : Page)
      → new_size key val + 2 ≤ p.mp_upper - p.mp_lower
      → IsValid psize q
      → Removed q indx p
      → Holds q.mem (start q indx) key val flags
      → Inserted psize p indx key val flags
          (record { rc = success; page = q; overflow = none; txn_error = false })

-- `mdb_node_add` on a valid leaf page, at an index that is at most its number of keys, with a key
-- shorter than 2^16 bytes, data shorter than 2^32 bytes, flags below 2^16 without F_BIGDATA, and
-- header, key and data that fit `me_nodemax`, returns. If the node and its pointer do not fit it
-- returns MDB_PAGE_FULL and leaves the page. Otherwise it returns success with a valid page that
-- holds the key, the flags and the data at the index, and is the old page once that node is
-- removed.
pub node_add-Inserted :
    (page_new : ℕ → ℤ ⊎ ℕ) (nodemax psize md_pad : ℕ) (p : Page) (indx : ℕ) (key val : Val)
    (pgno flags : ℕ)
    → IsValid psize p
    → p.is_leaf ≡ true
    → indx ≤ numkeys p
    → key.mv_size < 2 ^ 16
    → val.mv_size < 2 ^ 32
    → flags < 2 ^ 16
    → is_bigdata flags ≡ false
    → nodesize + key.mv_size + val.mv_size ≤ nodemax
    → Returns
        (node_add page_new nodemax psize md_pad p indx (some key) (some val) pgno flags)
        (Inserted psize p indx key val flags)
node_add-Inserted page_new nodemax psize md_pad p indx key val pgno flags valid leaf h ksize dsize
      plain inside small =
    rw
      (node_add_small page_new nodemax psize md_pad p indx key val pgno flags valid leaf inside
        small)
      (elim (Bool-cases (too_large p (new_size key val))) [
        | inl e ↦
            rw e (failed p page_full true, refl, full (ground (arith, sizeleft_lem psize p valid)))
        | inr e ↦
            let fits : new_size key val + 2 ≤ p.mp_upper - p.mp_lower =
              ground (arith, sizeleft_lem psize p valid) in
            rw
              (
                e,
                update_page_lem psize p indx key val flags valid leaf h ksize dsize plain inside
                    fits,
              )
              (
                ok (after psize p indx key val flags valid leaf h ksize dsize plain inside fits),
                refl,
                fitted (after psize p indx key val flags valid leaf h ksize dsize plain inside fits)
                    fits
                    (after-IsValid psize p indx key val flags valid leaf h ksize dsize plain inside
                      fits)
                    (after-Removed psize p indx key val flags valid leaf h ksize dsize plain inside
                      fits)
                    (after-Holds psize p indx key val flags valid leaf h ksize dsize plain inside
                      fits),
              )
      ])
