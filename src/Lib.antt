-- ===== src/Lib.antt =====
-- This library models parts of sam-lmdb-rs: the crate in src/, which wraps LMDB for Rust, and the C
-- sources of the storage engine in lmdb-sys/lmdb/libraries/liblmdb/, which the crate lmdb-sys builds.
--
-- The parts, bottom up:
--
-- Base: shared names, Boolean tests on native numbers, `Option` as the monad of code that may fault,
-- C arrays as lists with native indices, integers for return codes.
--
-- Idl: liblmdb/midl.h and midl.c, the ID list `MDB_IDL` in which transactions keep page numbers.
-- `mdb_midl_search` is `midl_search`, and so on for each function; `ids[-1]`, `ids[0]` and `ids[1]` on
-- are the fields `alloclen`, `count` and `cells`. The result `none` is an access outside the block.
-- `add_int` is the sum in `mdb_midl_grow`, whose argument is converted to an `int`.
-- `malloc` and `realloc` are parameters; `IsRealloc` is what is documented of `realloc`. Idl/Sort has
-- `mdb_midl_sort` and Idl/Merge `mdb_midl_xmerge`, where the IDs are a function of the index. The sort
-- of `n` IDs takes fuel for its loop over ranges, 2 * n + 2 units: a range of `k` IDs needs at most
-- 2 * k + 1, and a partition leaves the pivot out. `istack` is a list of at most 31 ranges; a sum of
-- indices that an `int` cannot hold is `none`.
--
-- Id2: liblmdb/midl.h and midl.c, the ID2 lists (dirty pages) and the ID3 lists of MDB_VL32, arrays
-- sorted upwards. An array is a function of the index, which has no end: that the caller's block is
-- large enough is not modelled.
--
-- Key: liblmdb/mdb.c, the comparison functions `mdb_cmp_*`, over lists of bytes.
--
-- Node: liblmdb/mdb.c, the nodes of a page. A `Page` has the fields of the header, the pointer array as
-- a function of the index, and the bytes as a function of the offset. Node/Add has `mdb_node_add`,
-- with `mdb_page_new` as a parameter. The comparison function is the parameter `probe` of
-- `mdb_node_search`, whose loop takes fuel, one unit more than the page has keys.
--
-- Readers: liblmdb/mdb.c, the reader table and `mdb_find_oldest`, over one state of the table; its
-- counter is an `int`, negative from 2^31 slots on (`rounds`), and the counter of the check wraps at
-- 2^32.
-- Readers/Check has `mdb_reader_check` with `mdb_pid_insert`, whose list is an ID2 list of numbers, and
-- with `mdb_mutex_failed`, which calls the check once more when the owner of the mutex has died. Whether
-- a process is alive, whether the mutex can be taken and whether there is memory are the parameter
-- `System`; every answer may differ from call to call. What other processes do to the table during a
-- check is not modelled. Readers/Renew has the branch of `mdb_txn_renew0` for readers, which claims a
-- slot; the reads of `mti_txnid` are a sequence, and the loop that waits for two equal ones takes fuel,
-- one unit for each round.
--
-- Env: liblmdb/mdb.c, the part of `MDB_env` that holds the size of the memory map, with
-- `mdb_env_set_mapsize`, `mdb_env_map`, `mdb_env_pick_meta` and `mdb_env_info`. Calls of the operating
-- system are the parameter `Os`. `me_metas_at` is the map into which `me_metas` points; the contents of
-- the meta pages are fields of their own, so that a read of them through a region that was unmapped,
-- after a failed mmap, is not a fault of the model.
--
-- Cursor: liblmdb/mdb.c, the movement of a cursor over the tree of pages, for databases without
-- MDB_DUPSORT. A page is the list of its nodes, `get` is `mdb_page_get`, and the stack `mc_pg`, `mc_ki`
-- is a list of frames with the top first. Cursor/Tree says what the entries of a tree are,
-- Cursor/Search has `mdb_page_search` with at most CURSOR_STACK pages, Cursor/Move has
-- `mdb_cursor_first`, `mdb_cursor_last`, `mdb_cursor_next` and `mdb_cursor_prev`, Cursor/Get has
-- `mdb_cursor_get` for these and MDB_GET_CURRENT, Cursor/Set has `mdb_cursor_set`, and Cursor/Value has
-- `mdb_get`; whether its arguments are there and the database exists is an argument of it. Cursor/Sorted says what a sorted tree is, by the answers of `md_cmp` for one key;
-- Cursor/Reposition is about `mdb_cursor_set` on a cursor that stands at an entry. LEAF2 pages are only used with MDB_DUPSORT.
--
-- Pages: liblmdb/mdb.c, `mdb_page_get`: in which list of a transaction or of its parents a page is, or
-- that it is in the map. It uses the searches of Idl and Id2. MDB_VL32 is not modelled.
--
-- Dump: liblmdb/mdb_dump.c, the lines that it writes for keys and data, and in Dump/Scan the loop of
-- `dumpit` over a cursor, with fuel, one unit more than there are entries.
--
-- Load: liblmdb/mdb_load.c, `readline` and the loop of `main` that reads keys and data. The input is
-- the list of its bytes; `realloc` is a parameter. `fgets_at` is a call of `fgets` into a block of a
-- given size, and `none` if the block has no room for what the call may write. That loop takes fuel, one unit more than there are
-- records or one more than there are bytes; the loop over a line that does not fit takes one unit for
-- each byte of the input and one more.
--
-- Errors: src/error.rs, the kinds and codes of errors, and `mdb_strerror`.
--
-- Resize: src/resize/mod.rs and the methods of `Environment` in src/environment.rs that grow the map,
-- over the C environment of Env. The loop of `resize_db_if_necessary` takes fuel, one unit for each
-- round; `h / min_resize_step + 2` units are enough for a headroom of `h`. The comparison of f32
-- fractions and the free space on the disk, or the error of asking for it, are parameters.
--
-- Guard: src/transaction_guard.rs with its callers in src/transaction.rs and src/environment.rs. Any
-- number of parties below 2^32 take steps on the two counters and the resize lock in any order; all
-- accesses that matter are SeqCst, so interleavings are what can happen, and the relaxed polling load
-- may return anything. Nested transactions are not modelled.
--
-- Examples: runs of the definitions, and each theorem at an input.
--
-- Not modelled: the rest of liblmdb/mdb.c, which is insertion and deletion with page splits, the
-- databases with MDB_DUPSORT, the transactions but for the slot of a reader, the freelist, the
-- printing of the reader table, and the opening and locking of files; the Rust cursors, iterators
-- and flags, which only call the C interface; the header lines and options of mdb_dump and
-- mdb_load, and the tools mdb_stat, mdb_copy and mdb_drop; the C test programs; and the generated
-- bindings.
pub mod Base
pub mod Idl
pub mod Id2
pub mod Key
pub mod Node
pub mod Readers
pub mod Guard
pub mod Errors
pub mod Env
pub mod Resize
pub mod Cursor
pub mod Pages
pub mod Dump
pub mod Load
mod Examples
