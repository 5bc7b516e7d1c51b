-- ===== src/Node/Written.antt =====
-- What `mdb_node_add` writes into a node of a leaf page.
use sam_lmdb_rs.Base.{
  ℕ, ◌+◌, ◌-◌, ◌/◌, ◌%◌, ◌^◌, ◌≤◌, ◌<◌, ◌≡◌, ◌⊎◌, none, some, true, false, ◌&&◌, arith, refl, inl,
  inr, subst, ltb, leb,
}
use sam_lmdb_rs.Node.{short, u16}
use sam_lmdb_rs.Node.Add.{
  memcpy, le_bytes, set_short, setdsz, write_node, Val, is_bigdata, is_reserve,
}

pub memcpy_inside :
    (mem : ℕ → ℕ) (at : ℕ) (from : ℕ → ℕ) (n x : ℕ) → x < n → memcpy mem at from n (at + x) ≡ from x
memcpy_inside mem at from n x h =
    let t : (leb at (at + x) && ltb (at + x) (at + n)) ≡ true = ground arith in
    let e : at + x - at ≡ x = omega arith in rw (t, e) refl

pub memcpy_outside :
    (mem : ℕ → ℕ) (at : ℕ) (from : ℕ → ℕ) (n x : ℕ)
    → (x < at) ⊎ (at + n ≤ x)
    → memcpy mem at from n x ≡ mem x
memcpy_outside mem at from n x h =
    let t : (leb at x && ltb x (at + n)) ≡ false = ground arith in rw t refl

short_outside :
    (mem : ℕ → ℕ) (at : ℕ) (from : ℕ → ℕ) (n x : ℕ)
    → (x + 2 ≤ at) ⊎ (at + n ≤ x)
    → short (memcpy mem at from n) x ≡ short mem x
short_outside mem at from n x h =
    rw
      (
        memcpy_outside mem at from n x (ground arith),
        memcpy_outside mem at from n (x + 1) (ground arith),
      )
      refl

short-set_short : (mem : ℕ → ℕ) (at v : ℕ) → v < 2 ^ 16 → short (set_short mem at v) at ≡ v
short-set_short mem at v h =
    let z : at + 0 ≡ at = omega arith in
    let lo : set_short mem at v at ≡ v % 256 =
      subst (λ a. set_short mem at v a ≡ v % 256) z
        (rw (memcpy_inside mem at (le_bytes v) 2 0 (omega arith)) (omega arith)) in
    let hi : set_short mem at v (at + 1) ≡ v / 256 % 256 =
      rw (memcpy_inside mem at (le_bytes v) 2 1 (omega arith)) (omega arith) in
    rw (lo, hi) (omega arith)

module _ (mem : ℕ → ℕ) (at : ℕ) (key val : Val) (flags : ℕ) (ksize : key.mv_size < 2 ^ 16)
    (dsize : val.mv_size < 2 ^ 32) (plain : flags < 2 ^ 16)
    (inside : is_bigdata flags ≡ false) where
  unfoldable pub written : ℕ → ℕ
  unfolding write_node
  written = write_node true mem at (some key) val 0 flags none

  abbrev m1 : ℕ → ℕ
  m1 = set_short mem (at + 6) key.mv_size

  abbrev m2 : ℕ → ℕ
  m2 = set_short m1 (at + 4) flags

  abbrev m3 : ℕ → ℕ
  m3 = set_short m2 at (val.mv_size % 2 ^ 16)

  -- the writes in their order
  written_lem :
      written
      ≡ memcpy
          (memcpy (setdsz m2 at val.mv_size) (at + 8) key.mv_data key.mv_size)
          (at + 8 + key.mv_size)
          val.mv_data
          val.mv_size
  unfolding written write_node
  written_lem =
      let r : is_reserve flags ≡ false = ground arith in
      let k : u16 key.mv_size ≡ key.mv_size = omega arith in rw (inside, r, k) refl

  header_lem : (x : ℕ) → x < 7 → short written (at + x) ≡ short (setdsz m2 at val.mv_size) (at + x)
  header_lem x h =
      rw
        (
          written_lem,
          short_outside (memcpy (setdsz m2 at val.mv_size) (at + 8) key.mv_data key.mv_size)
              (at + 8 + key.mv_size) val.mv_data val.mv_size (at + x) (inl (omega arith)),
          short_outside (setdsz m2 at val.mv_size) (at + 8) key.mv_data key.mv_size (at + x)
              (inl (omega arith)),
        )
        refl

  -- the data size does not touch the fields behind it
  setdsz_lem :
      (x : ℕ) → 4 ≤ x → x < 7 → short (setdsz m2 at val.mv_size) (at + x) ≡ short m2 (at + x)
  setdsz_lem x a b =
      rw
        (
          short_outside m3 (at + 2) (le_bytes (val.mv_size / 2 ^ 16)) 2 (at + x)
              (inr (omega arith)),
          short_outside m2 at (le_bytes (val.mv_size % 2 ^ 16)) 2 (at + x) (inr (omega arith)),
        )
        refl

  pub written_ksize : short written (at + 6) ≡ key.mv_size
  written_ksize =
      rw
        (
          header_lem 6 (omega arith),
          setdsz_lem 6 (omega arith) (omega arith),
          short_outside m1 (at + 4) (le_bytes flags) 2 (at + 6) (inr (omega arith)),
        )
        (short-set_short mem (at + 6) key.mv_size ksize)

  pub written_flags : short written (at + 4) ≡ flags
  written_flags =
      rw (header_lem 4 (omega arith), setdsz_lem 4 (omega arith) (omega arith))
        (short-set_short m1 (at + 4) flags plain)

  pub written_lo : short written at ≡ val.mv_size % 2 ^ 16
  written_lo =
      let z : at + 0 ≡ at = omega arith in
      let e : short written at ≡ short (setdsz m2 at val.mv_size) at =
        subst (λ a. short written a ≡ short (setdsz m2 at val.mv_size) a) z
          (header_lem 0 (omega arith)) in
      rw (e, short_outside m3 (at + 2) (le_bytes (val.mv_size / 2 ^ 16)) 2 at (inl (omega arith)))
        (short-set_short m2 at (val.mv_size % 2 ^ 16) (omega arith))

  pub written_hi : short written (at + 2) ≡ val.mv_size / 2 ^ 16
  written_hi =
      rw (header_lem 2 (omega arith))
        (short-set_short m3 (at + 2) (val.mv_size / 2 ^ 16) (omega arith))

  pub written_key : (x : ℕ) → x < key.mv_size → written (at + 8 + x) ≡ key.mv_data x
  written_key x h =
      rw
        (
          written_lem,
          memcpy_outside (memcpy (setdsz m2 at val.mv_size) (at + 8) key.mv_data key.mv_size)
              (at + 8 + key.mv_size) val.mv_data val.mv_size (at + 8 + x) (inl (omega arith)),
        )
        (memcpy_inside (setdsz m2 at val.mv_size) (at + 8) key.mv_data key.mv_size x h)

  pub written_data : (x : ℕ) → x < val.mv_size → written (at + 8 + key.mv_size + x) ≡ val.mv_data x
  written_data x h = rw written_lem (
      memcpy_inside (memcpy (setdsz m2 at val.mv_size) (at + 8) key.mv_data key.mv_size)
        (at + 8 + key.mv_size) val.mv_data val.mv_size x h)

  pub written_outside :
      (x : ℕ) → (x < at) ⊎ (at + 8 + key.mv_size + val.mv_size ≤ x) → written x ≡ mem x
  written_outside x h =
      rw
        (
          written_lem,
          memcpy_outside (memcpy (setdsz m2 at val.mv_size) (at + 8) key.mv_data key.mv_size)
              (at + 8 + key.mv_size) val.mv_data val.mv_size x (ground arith),
          memcpy_outside (setdsz m2 at val.mv_size) (at + 8) key.mv_data key.mv_size x
              (ground arith),
          memcpy_outside m3 (at + 2) (le_bytes (val.mv_size / 2 ^ 16)) 2 x (ground arith),
          memcpy_outside m2 at (le_bytes (val.mv_size % 2 ^ 16)) 2 x (ground arith),
          memcpy_outside m1 (at + 4) (le_bytes flags) 2 x (ground arith),
          memcpy_outside mem (at + 6) (le_bytes key.mv_size) 2 x (ground arith),
        )
        refl
