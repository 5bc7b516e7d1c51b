-- ===== src/Node/Delete.antt =====
-- `mdb_node_del` on a page with nodes of their own sizes.
use sam_lmdb_rs.Base.{
  ℕ, ◌+◌, ◌-◌, ◌*◌, ◌^◌, ◌≤◌, ◌<◌, ◌≡◌, ◌≢◌, ◌⊎◌, Bool, true, false, Returns, arith, refl, ltb, leb,
  ◌&&◌, inl, inr, subst,
}
use sam_lmdb_rs.Node.{
  Page, node_del, node_size, memmove, numkeys, pagehdrsz, nodesize, u16, short, del_loop,
}
use sam_lmdb_rs.Node.Shift.{skip, moved, del_loop-skip}

-- where the node with index `k` starts, and its size
abbrev pub start : Page → ℕ → ℕ
start p k = p.mp_ptrs k

abbrev pub size : Page → ℕ → ℕ
size p k = node_size p.is_leaf p.mem (start p k)

-- A page of `psize` bytes: the pointers end at `mp_lower`, the nodes lie between `mp_upper` and the
-- end of the page, each has a header, and no two overlap.
pub record IsValid (psize : ℕ) (p : Page) : Type 0 where
  pub small : psize ≤ 2 ^ 15
  pub plain : p.is_leaf2 ≡ false
  pub lower : p.mp_lower ≡ pagehdrsz + 2 * numkeys p
  pub room : p.mp_lower ≤ p.mp_upper
  pub upper : p.mp_upper ≤ psize
  pub above : (k : ℕ) → k < numkeys p → p.mp_upper ≤ start p k
  pub inside : (k : ℕ) → k < numkeys p → start p k + size p k ≤ psize
  pub header : (k : ℕ) → k < numkeys p → nodesize ≤ size p k
  pub apart :
      (i j : ℕ)
      → i < numkeys p
      → j < numkeys p
      → i ≢ j
      → (start p i + size p i ≤ start p j) ⊎ (start p j + size p j ≤ start p i)

-- `q` is `p` without the node at `indx`: the other nodes keep their order and their bytes, and the
-- free space grows by the node and its pointer.
pub record Removed (p : Page) (indx : ℕ) (q : Page) : Type 0 where
  pub fewer : numkeys q + 1 ≡ numkeys p
  pub freed : q.mp_upper - q.mp_lower ≡ p.mp_upper - p.mp_lower + size p indx + 2
  pub sizes : (k : ℕ) → k < numkeys q → size q k ≡ size p (skip indx k)
  pub bytes :
      (k x : ℕ)
      → k < numkeys q
      → x < size q k
      → q.mem (start q k + x) ≡ p.mem (start p (skip indx k) + x)

short_cong : (f g : ℕ → ℕ) (s t : ℕ) → f s ≡ g t → f (s + 1) ≡ g (t + 1) → short f s ≡ short g t
short_cong f g s t p q = rw (p, q) refl

-- the size is read from the header of the node
pub size_cong :
    (leaf : Bool) (f g : ℕ → ℕ) (s t : ℕ)
    → ((x : ℕ) → x < nodesize → f (s + x) ≡ g (t + x))
    → node_size leaf f s ≡ node_size leaf g t
unfolding node_size
size_cong leaf f g s t h =
    let lo : short f s ≡ short g t = short_cong f g s t first (h 1 (omega arith)) in
    let hi : short f (s + 2) ≡ short g (t + 2) = field 2 (omega arith) in
    let flags : short f (s + 4) ≡ short g (t + 4) = field 4 (omega arith) in
    let ksize : short f (s + 6) ≡ short g (t + 6) = field 6 (omega arith) in
    rw (lo, hi, flags, ksize) refl
  where
    first : f s ≡ g t
    first =
        subst (λ a. f a ≡ g t) (omega arith)
          (subst (λ a. f (s + 0) ≡ g a) (omega arith) (h 0 (omega arith)))

    next : (k : ℕ) → k + 1 < nodesize → f (s + k + 1) ≡ g (t + k + 1)
    next k q =
        subst (λ a. f a ≡ g (t + k + 1)) (omega arith)
          (subst (λ a. f (s + (k + 1)) ≡ g a) (omega arith) (h (k + 1) q))

    field : (k : ℕ) → k + 1 < nodesize → short f (s + k) ≡ short g (t + k)
    field k q = short_cong f g (s + k) (t + k) (h k (omega arith)) (next k q)

memmove_inside :
    (mem : ℕ → ℕ) (dst src n x y : ℕ)
    → dst ≤ x
    → x < dst + n
    → y ≡ src + (x - dst)
    → memmove mem dst src n x ≡ mem y
memmove_inside mem dst src n x y a b e =
    let t : (leb dst x && ltb x (dst + n)) ≡ true = ground arith in rw (t, e) refl

memmove_outside : (mem : ℕ → ℕ) (dst src n x : ℕ) → dst + n ≤ x → memmove mem dst src n x ≡ mem x
memmove_outside mem dst src n x a =
    let t : (leb dst x && ltb x (dst + n)) ≡ false = ground arith in rw t refl

module _ (psize : ℕ) (p : Page) (indx : ℕ) (valid : IsValid psize p) (h : indx < numkeys p) where
  abbrev ptr : ℕ
  ptr = start p indx

  abbrev sz : ℕ
  sz = size p indx

  -- the page after the removal
  after : Page
  after = record p {
    mp_ptrs = del_loop indx ptr sz (numkeys p) 0 0 p.mp_ptrs;
    mem = memmove p.mem (p.mp_upper + sz) p.mp_upper (ptr - p.mp_upper);
    mp_lower = u16 (p.mp_lower + 2 ^ 16 - 2);
    mp_upper = u16 (p.mp_upper + sz);
  }

  -- where the removed node lies
  hole : (p.mp_upper ≤ ptr) × (ptr + sz ≤ psize) × (nodesize ≤ sz)
  hole = (valid.above indx h, valid.inside indx h, valid.header indx h)

  bounds : (after.mp_upper ≡ p.mp_upper + sz) × (after.mp_lower + 2 ≡ p.mp_lower)
  unfolding after
  bounds = (
    omega (arith, hole, valid.small),
    omega (arith, valid.lower, valid.room, valid.upper, valid.small),
  )

  numkeys-after : numkeys after + 1 ≡ numkeys p
  numkeys-after = omega (arith, bounds, valid.lower, h)

  -- the bytes below the removed node move up, those above it stay
  mem_below : (x : ℕ) → p.mp_upper ≤ x → x < ptr → after.mem (x + sz) ≡ p.mem x
  unfolding after
  mem_below x a b =
      memmove_inside p.mem (p.mp_upper + sz) p.mp_upper (ptr - p.mp_upper) (x + sz) x (omega arith)
        (omega arith) (omega arith)

  mem_above : (x : ℕ) → ptr + sz ≤ x → after.mem x ≡ p.mem x
  unfolding after
  mem_above x a =
      memmove_outside p.mem (p.mp_upper + sz) p.mp_upper (ptr - p.mp_upper) x (omega (arith, hole))

  -- the place of a node that stays
  abbrev Place : ℕ → Type 0
  Place k =
      ((start p (skip indx k) + size p (skip indx k) ≤ ptr)
        × (start after k ≡ start p (skip indx k) + sz))
      ⊎ ((ptr + sz ≤ start p (skip indx k)) × (start after k ≡ start p (skip indx k)))

  place : (k : ℕ) → k < numkeys after → Place k
  unfolding after
  place k a = elim (valid.apart old indx old_bound h (ground arith)) [
    | inl b ↦ inl (
      b,
      rw moves (ground (arith, valid.inside indx h, valid.small, hole, valid.header old old_bound)),
    )
    | inr b ↦ inr (b, rw moves (ground (arith, hole)))
  ]
    where
      old : ℕ
      old = skip indx k

      old_bound : old < numkeys p
      old_bound = ground (arith, numkeys-after)

      moves : del_loop indx ptr sz (numkeys p) 0 0 p.mp_ptrs k ≡ moved ptr sz (start p old)
      moves = del_loop-skip indx ptr sz (numkeys p) p.mp_ptrs k (omega (arith, numkeys-after)) h

  kept_bytes :
      (k x : ℕ)
      → k < numkeys after
      → x < size p (skip indx k)
      → after.mem (start after k + x) ≡ p.mem (start p (skip indx k) + x)
  kept_bytes k x a b = elim (place k a) [
    | inl (c, e) ↦
        subst (λ y. after.mem y ≡ p.mem (start p (skip indx k) + x)) (omega arith)
          (mem_below (start p (skip indx k) + x) (omega (arith, above_upper)) (omega arith))
    | inr (c, e) ↦ rw e (mem_above (start p (skip indx k) + x) (omega arith))
  ]
    where
      above_upper : p.mp_upper ≤ start p (skip indx k)
      above_upper = valid.above (skip indx k) (ground (arith, numkeys-after))

  kept_size : (k : ℕ) → k < numkeys after → size after k ≡ size p (skip indx k)
  unfolding after
  kept_size k a =
      size_cong p.is_leaf after.mem p.mem (start after k) (start p (skip indx k)) (λ x b.
        kept_bytes k x a
          (omega (arith, valid.header (skip indx k) (ground (arith, numkeys-after)))))

  old_index : (k : ℕ) → k < numkeys after → (skip indx k < numkeys p) × (skip indx k ≢ indx)
  old_index k a = (ground (arith, numkeys-after), ground arith)

  kept_above : (k : ℕ) → k < numkeys after → after.mp_upper ≤ start after k
  kept_above k a =
      ground (arith, place k a, bounds, hole, valid.above (skip indx k) ((old_index k a).0))

  kept_inside : (k : ℕ) → k < numkeys after → start after k + size after k ≤ psize
  kept_inside k a =
      ground (arith, place k a, kept_size k a, hole, valid.inside (skip indx k) ((old_index k a).0))

  kept_header : (k : ℕ) → k < numkeys after → nodesize ≤ size after k
  kept_header k a = ground (arith, kept_size k a, valid.header (skip indx k) ((old_index k a).0))

  kept_apart :
      (i j : ℕ)
      → i < numkeys after
      → j < numkeys after
      → i ≢ j
      → (start after i + size after i ≤ start after j)
        ⊎ (start after j + size after j ≤ start after i)
  kept_apart i j a b ne = ground (
    arith,
    place i a,
    place j b,
    kept_size i a,
    kept_size j b,
    valid.apart (skip indx i) (skip indx j) ((old_index i a).0) ((old_index j b).0) (ground arith),
  )

  after-IsValid : IsValid psize after
  unfolding after
  after-IsValid = record {
    small = valid.small;
    plain = valid.plain;
    lower = omega (arith, bounds, valid.lower, h);
    room = omega (arith, bounds, valid.room);
    upper = omega (arith, bounds, hole);
    above = kept_above;
    inside = kept_inside;
    header = kept_header;
    apart = kept_apart;
  }

  after-Removed : Removed p indx after
  after-Removed = record {
    fewer = numkeys-after;
    freed = omega (arith, bounds, valid.lower, valid.room);
    sizes = kept_size;
    bytes = λ k x a b. kept_bytes k x a (omega (arith, kept_size k a));
  }

  -- `mdb_node_del` on a valid page with the node `indx` does not fail its assertion. The page that is
  -- left is valid, holds the other nodes in their order with the same bytes, and has gained the room
  -- of the node and of its pointer.
  pub node_del-Removed :
      (ksize : ℕ) → Returns (node_del p indx ksize) (λ q. IsValid psize q × Removed p indx q)
  unfolding after node_del node_size del_loop
  node_del-Removed ksize =
      let t : ltb indx (numkeys p) ≡ true = ground arith in
      (after, rw (node_del, t, valid.plain) refl, (after-IsValid, after-Removed))
