-- ===== src/Lib.antt =====
-- A verification library for the copy-on-write B+tree store of 01-btree.
--
-- The program. A store keeps fixed-size pages behind a page I/O interface. Page 0 is the header
-- page: it names the root of the tree and the head of a chain of free-list pages. The tree's pages
-- are leaves, with keys and values, and internal nodes, with separator keys and children. `put`
-- reads the path from the root to a leaf, builds a copy of each node on it, splits a node that no
-- longer fits its page, and commits: it writes the new pages, persists the free list and the header,
-- and publishes the new root. `get` searches from the published root.
--
-- Where the code is modelled.
--   Bytes          little-endian words, slices, the order on byte strings: what the source uses of
--                  the language's own library
--   Page.Tags      01-btree/src/page/mod.rs (tags), 01-btree/src/io/mod.rs (PageId), checked
--                  arithmetic on machine words
--   Page           01-btree/src/page/mod.rs (Page, decode, to_bytes, check_limits)
--   Page.Header    01-btree/src/page/header.rs
--   Page.FreeList  01-btree/src/page/free_list.rs
--   Page.Leaf      01-btree/src/page/leaf.rs
--   Page.Internal  01-btree/src/page/internal.rs
--   Io             01-btree/src/io/mod.rs, 01-btree/src/io/in_memory_backend.rs
--   Io.File        01-btree/src/io/file_backend.rs
--   Storage.Store  01-btree/src/storage/store.rs
--   Storage.Tree   01-btree/src/storage/tree.rs
--   Storage.Engine 01-btree/src/storage/engine.rs; Storage.Engine.File has `open`
-- Storage.Entries is what a leaf promises, an ascending list of entries with an upsert and a lookup;
-- Storage.Tree.Shape and Storage.Tree.Valid are the tree that a store's pages hold, as a value of its
-- own and when it is a search tree; Storage.Store.Own is which page belongs to whom. The other
-- children of Storage.Tree follow `get` (Get) and `insert_page` (Outcome, Absorb, Grown, Insert,
-- Root) level by level, those of Storage.Store follow a commit (Alloc, Chain, Commit) and a later
-- opening (Reopen), and Storage.Put and Storage.PutGet join both. Io has the laws of a backend, which
-- the proofs on commits assume; Io.Memory and Io.File.Keeps show them for the two backends.
-- Storage.Fresh is about a store on an empty backend; Storage.System is a store over time, as a step
-- relation: guards that are entered, load the root or are dropped, while transactions commit or are
-- refused, and restarts. Storage.Fuel compares runs on different fuel. Examples holds the inputs.
-- Functions keep their names; a method of a type stands in the module of that type. A method of
-- `ReadGuard` starts with `view_`; `root`, `read` and `page_size` of `WriteTxn` start with `txn_`. A
-- loop of the source is a function of its own beside the function it stands in. The child modules
-- hold the views (`leaf_of`, `node_of`, `page_of`: a node as the list of what it holds) and the
-- proofs.
--
-- Failure. `Run` is the result of code that may panic: `done`, `panic`, and `out_of_fuel` for the
-- loops on fuel. The model is that of a build with debug assertions: an index out of range, a failed
-- `debug_assert!` and an overflow of checked arithmetic are all `panic`. Casts wrap, with `% 2 ^ w`
-- written out. `usize` is not bounded.
--
-- State. `&mut` is state passing. A `WriteTxn` holds the store whose lock it took and gives it back
-- at `commit`, or by an error of `put`, which leaves the store as it was. A read guard is the store
-- with the number of readers raised; in Storage.System it stays open while the store goes on, and
-- has the root that its `get` loaded. There a commit is one step for the readers, and a restart comes
-- between two commits.
--
-- The file. `std::fs::File` and `memmap2::MmapRaw` are one parameter, the record Mapping of the calls
-- that the source makes, on one file with its mapping; IsMapping is what their documentation says,
-- with the space on the disk as a bound. A copy out of a mapping past the file's end is `panic`,
-- also where the system would fill the file's last memory page with zeros; the source takes the same
-- view in its comment on SIGBUS.
--
-- Fuel. The binary searches run on the length of the node and one more, which is enough: their
-- theorems say that they return. `insert_page` and `get_loop` take the number of levels to descend,
-- since a page's children are found only by reading the store: the height of the tree and one more
-- is enough, by the theorems on `put` and `get`. `load_loop` takes the number of pages of the chain,
-- since a chain on disk may be cyclic. The other loops are structural, on the number of rounds left.
--
-- Bounds. The offsets of a node are 16-bit words. A leaf or an internal node that is too long for its
-- page is at most one and a half pages long, so page sizes up to 43690 bytes keep every offset exact;
-- the theorems on splits and on insertion assume this. They also assume that every entry of the
-- node they start from is within the limit of `check_limits`, and so is the key of every separator,
-- which is what keeps both halves of a split within the page; a valid tree has both. A `put` on a tree of height `h` allocates at
-- most `allowance h + 3` pages, and the commit at most as many for the free-list chain as there are
-- pages; `reserve h next` bounds the page ids from this, and the theorems on `put` assume that the
-- backend has room for so many pages and that their ids are 64-bit words. In Storage.System the bound
-- is `headroom`, which does not name the height, since a tree is lower than the number of pages.
--
-- Not modelled: printing (`print_pretty`, `Display`, 01-btree/src/debug/mod.rs, 01-btree/src/main.rs);
-- the interleaving of readers with the steps inside a commit, and a crash inside one; 02-raft, a
-- separate program in another language.
pub mod Prelude
pub mod Bytes
pub mod Page
pub mod Io
pub mod Storage
pub mod Examples
