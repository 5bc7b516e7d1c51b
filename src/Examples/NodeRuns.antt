-- ===== src/Examples/NodeRuns.antt =====
-- The nodes of a page of 64 bytes.
use sam_lmdb_rs.Base.{
  ℕ, zero, suc, ◌+◌, ◌*◌, ◌≤◌, ◌<◌, ◌≡◌, ◌⊎◌, true, false, some, Ordering, compare, if◌then◌else◌,
  ◌==◌, Returns, arith, refl, inl,
}
use sam_lmdb_rs.Base.Int.{ℤ, pos}
use sam_lmdb_rs.Node.{Page, search_loop, node_search, node_size, node_del}
use sam_lmdb_rs.Node.Search.{Splits, first_key, node_search-Returns}
use sam_lmdb_rs.Node.Delete.{IsValid, Removed, node_del-Removed, size}
use sam_lmdb_rs.Node.Add.{Val, node_add}
use sam_lmdb_rs.Node.Insert.{Inserted, node_add-Inserted}

-- two keys of one byte, without data, at offsets 54 and 44
abbrev two_nodes : Page
two_nodes = record {
  is_leaf = true;
  is_leaf2 = false;
  mp_lower = 20;
  mp_upper = 44;
  mp_ptrs = λ k. if k == 0 then 54 else 44;
  mem = λ x.
      if x == 60 then 1 else if x == 50 then 1 else if x == 62 then 5 else if x == 52 then 7 else 0;
}

sizes : (k : ℕ) → k < 2 → size two_nodes k ≡ 10
unfolding node_size
sizes zero h = refl
sizes (suc zero) h = refl
sizes (suc (suc k)) h = absurd (omega arith)

two_nodes-IsValid : IsValid 64 two_nodes
two_nodes-IsValid = record {
  small = omega arith;
  plain = refl;
  lower = refl;
  room = omega arith;
  upper = omega arith;
  above = λ k a. ground arith;
  inside = λ k a. ground (arith, sizes k a);
  header = λ k a. ground (arith, sizes k a);
  apart = λ i j a b ne. ground (arith, sizes i a, sizes j b);
}

node_del_example : Returns (node_del two_nodes 0 0) (λ q. IsValid 64 q × Removed two_nodes 0 q)
node_del_example = node_del-Removed 64 two_nodes 0 two_nodes-IsValid (omega arith) 0

abbrev new_key : Val
new_key = record { mv_size = 1; mv_data = λ i. 6 }

abbrev new_data : Val
new_data = record { mv_size = 2; mv_data = λ i. 90 + i }

-- an allocator of overflow pages that is out of memory
abbrev no_pages : ℕ → ℤ ⊎ ℕ
no_pages n = inl (pos 12)

node_add_example :
    Returns
      (node_add no_pages 32 64 0 two_nodes 1 (some new_key) (some new_data) 0 0)
      (Inserted 64 two_nodes 1 new_key new_data 0)
node_add_example =
    node_add-Inserted no_pages 32 64 0 two_nodes 1 new_key new_data 0 0 two_nodes-IsValid refl
      (omega arith) (omega arith) (omega arith) (omega arith) refl (omega arith)

-- a search for the key 6 among the keys 2, 4, 6 and 8
abbrev probe : ℕ → Ordering
probe i = compare 6 (2 * i + 2)

node_search_runs :
    (node_search true 4 probe ≡ some (record { exact = true; index = 2; present = true }))
    × (node_search false 2 probe ≡ some (record { exact = false; index = 2; present = false }))
unfolding node_search search_loop
node_search_runs = (refl, refl)

probe_order : (i j : ℕ) → 0 ≤ i → i < j → j < 4 → (probe i ≡ Ordering.gt) ⊎ (probe j ≡ Ordering.lt)
probe_order i j a b c = ground arith

node_search_example :
    Returns (node_search true 4 probe) (Splits probe (first_key true) 4 probe_order)
node_search_example = node_search-Returns true 4 probe (omega arith) probe_order
