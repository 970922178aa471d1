-- ===== src/Storage/Store.antt =====
-- The store, its read guards and its write transactions: 01-btree/src/storage/store.rs.
pub mod Transaction
pub mod Own
pub mod Alloc
pub mod Chain
pub mod Reopen
pub mod Commit
use ucu_de_distributed_algor.Prelude.{
  ℕ, zero, suc, ◌+◌, ◌-◌, ◌*◌, ◌/◌, min, max, Option, none, some, List, [], ◌∷◌, ◌++◌, ltb, ◌==◌,
  if◌then◌else◌, length, Run, Result, ok, err, done, panic, out_of_fuel, ◌>>=◌,
}
use ucu_de_distributed_algor.Bytes.{Bytes, index, slice}
use ucu_de_distributed_algor.Io.{PageIo}
use ucu_de_distributed_algor.Page.Tags.{PageId, u64_mod}
use ucu_de_distributed_algor.Page
use ucu_de_distributed_algor.Page.{Page}
use ucu_de_distributed_algor.Page.Leaf as LeafPage
use ucu_de_distributed_algor.Page.Header as HeaderPage
use ucu_de_distributed_algor.Page.Header.{Header, DecodeError, not_a_header, header_page_id}
use ucu_de_distributed_algor.Page.FreeList.{free_list_capacity, free_list_encode, free_list_decode}

abbrev pub initial_root_page_id : PageId
initial_root_page_id = 1

pub data OpenError : Type 0 where
  -- requested, persisted
  page_size_mismatch : ℕ → ℕ → OpenError
  -- found, expected
  version_mismatch : ℕ → ℕ → OpenError

-- The state behind `write_lock`.
pub record WriterState : Type 0 where
  pub next_page_id : ℕ
  pub free_list : List PageId
  pub pending_free : List PageId
  pub free_list_page_ids : List PageId

pub record Store (IO : Type 0) : Type 0 where
  pub io : IO
  pub root : PageId
  pub readers : ℕ
  pub writer : WriterState

-- A transaction with the store that it borrows and whose lock it holds.
pub record WriteTxn (IO : Type 0) : Type 0 where
  pub store : Store IO
  pub writes : List (PageId × Bytes)
  pub freed : List PageId
  pub base_root : PageId

-- `vec.pop()` takes the last element.
unfoldable pub pop {ℓ} : {A : Type ℓ} → List A → Option (A × List A)
pop [] = none
pop (x ∷ xs) = elim (pop xs) [ none ↦ some (x, []) | some (y, ys) ↦ some (y, x ∷ ys) ]

-- `writes.iter().rev().find(|(pid, _)| *pid == id)`
unfoldable pub last_write : List (PageId × Bytes) → PageId → Option Bytes
last_write [] id = none
last_write ((pid, bytes) ∷ rest) id = elim (last_write rest id) [
  | some later ↦ some later
  | none ↦ if pid == id then some bytes else none
]

-- `a.div_ceil(b)` for `b` above 0
abbrev pub div_ceil : ℕ → ℕ → ℕ
div_ceil a b = (a + b - 1) / b

-- `n += 1` on `u64`
unfoldable pub next_u64 : ℕ → Run ℕ
next_u64 n = if ltb (n + 1) u64_mod then done (n + 1) else panic

-- Steps 2 and 3: the frees become pending, and pending frees reusable if no reader is active.
unfoldable pub promote : ℕ → List PageId → WriterState → WriterState
promote readers freed w =
    let pending = w.pending_free ++ freed in
    if readers == 0
    then record w { free_list = w.free_list ++ pending; pending_free = [] }
    else record w { pending_free = pending }

-- `while free_list_page_ids.len() < pages_needed`, with the number of missing pages
unfoldable pub extend_chain : ℕ → WriterState → Run WriterState
extend_chain zero w = done w
extend_chain (suc missing) w = do
  next ← next_u64 w.next_page_id
  extend_chain missing (record w {
    next_page_id = next;
    free_list_page_ids = w.free_list_page_ids ++ (w.next_page_id ∷ []);
  })

module _ {IO : Type 0} ⦃p : PageIo IO⦄ where
  -- The loop of `load_free_list_chain`. A chain on disk may be cyclic, and the source then never
  -- ends: the fuel bounds the pages read.
  unfoldable pub load_loop :
      ℕ → IO → PageId → List PageId → List PageId → Run (List PageId × List PageId)
  load_loop zero io cur free_list page_ids = out_of_fuel
  load_loop (suc fuel) io cur free_list page_ids =
      let round = (do
        bytes ← p.read_page io cur
        (next, entries) ← free_list_decode cur bytes
        load_loop fuel io next (free_list ++ entries) (page_ids ++ (cur ∷ []))) in
      if cur == 0 then done (free_list, page_ids) else round

  unfoldable pub load_free_list_chain : ℕ → IO → PageId → Run (List PageId × List PageId)
  load_free_list_chain fuel io head = load_loop fuel io head [] []

  -- The fresh store of `open_or_create`: an empty leaf as root, and a header.
  unfoldable pub bootstrap : IO → Run (Header × IO)
  bootstrap io = do
    let page_size = p.page_size io
    root ← LeafPage.to_bytes (LeafPage.empty page_size) initial_root_page_id page_size
    io ← p.write_page io initial_root_page_id root
    let h = HeaderPage.new page_size initial_root_page_id (initial_root_page_id + 1)
    bytes ← HeaderPage.to_bytes h page_size
    io ← p.write_page io header_page_id bytes
    io ← p.sync io
    done (h, io)

  -- The rest of `open_or_create`, once there is a header.
  unfoldable pub with_header : ℕ → Header → IO → Run (Result (Store IO) OpenError)
  with_header fuel header io = do
    (free_list, free_list_page_ids) ← load_free_list_chain fuel io header.free_list_head
    done (
        ok (record {
          io = io;
          root = header.root_id;
          readers = 0;
          writer = record {
            next_page_id = header.next_page_id;
            free_list = free_list;
            pending_free = [];
            free_list_page_ids = free_list_page_ids;
          };
        }))

  unfoldable pub open_with : ℕ → IO → Result Header DecodeError → Run (Result (Store IO) OpenError)
  open_with fuel io (ok h) =
      if h.page_size == p.page_size io
      then with_header fuel h io
      else done (err (page_size_mismatch (p.page_size io) h.page_size))
  open_with fuel io (err (DecodeError.version_mismatch found expected)) =
      done (err (OpenError.version_mismatch found expected))
  open_with fuel io (err not_a_header) = bootstrap io >>= λ fresh. with_header fuel fresh.0 fresh.1

  -- `Store::open_or_create`
  unfoldable pub open_or_create : ℕ → IO → Run (Result (Store IO) OpenError)
  open_or_create fuel io = do
    bytes ← p.read_page io header_page_id
    decoded ← HeaderPage.from_bytes bytes
    open_with fuel io decoded

  -- `Store::enter_read` and the guard's `drop`
  unfoldable pub enter_read : Store IO → Store IO
  enter_read store = record store { readers = store.readers + 1 }

  unfoldable pub drop_read : Store IO → Store IO
  drop_read store = record store { readers = store.readers - 1 }

  -- `ReadGuard::root` and `ReadGuard::read`
  unfoldable pub view_root : Store IO → PageId
  view_root store = store.root

  unfoldable pub view_read : Store IO → PageId → Run Page
  view_read store id = p.read_page store.io id >>= Page.decode id

  -- `Store::begin_write`
  unfoldable pub begin_write : Store IO → WriteTxn IO
  begin_write store = record { store = store; writes = []; freed = []; base_root = store.root }

  -- The methods of `WriteTxn`
  unfoldable pub txn_page_size : WriteTxn IO → ℕ
  txn_page_size txn = p.page_size txn.store.io

  unfoldable pub txn_root : WriteTxn IO → PageId
  txn_root txn = txn.base_root

  unfoldable pub txn_read : WriteTxn IO → PageId → Run Page
  txn_read txn id = elim (last_write txn.writes id) [
    | some bytes ↦ Page.decode id bytes
    | none ↦ p.read_page txn.store.io id >>= Page.decode id
  ]

  abbrev pub with_writer : WriteTxn IO → WriterState → WriteTxn IO
  with_writer txn w = record txn { store = record (txn.store) { writer = w } }

  unfoldable pub alloc : WriteTxn IO → Run (PageId × WriteTxn IO)
  alloc txn = elim (pop txn.store.writer.free_list) [
    | some (id, rest) ↦ done (id, with_writer txn (record (txn.store.writer) { free_list = rest }))
    | none ↦
        let id = txn.store.writer.next_page_id in
        next_u64 id >>= λ next.
        done (id, with_writer txn (record (txn.store.writer) { next_page_id = next }))
  ]

  unfoldable pub write : WriteTxn IO → PageId → Page → Run (WriteTxn IO)
  write txn id page = do
    bytes ← Page.to_bytes page id (txn_page_size txn)
    done (record txn { writes = txn.writes ++ ((id, bytes) ∷ []) })

  unfoldable pub free : WriteTxn IO → PageId → WriteTxn IO
  free txn id = record txn { freed = txn.freed ++ (id ∷ []) }

  -- Step 1 of `commit`: the buffered writes, in order.
  unfoldable pub apply_writes : List (PageId × Bytes) → IO → Run IO
  apply_writes [] io = done io
  apply_writes ((id, bytes) ∷ rest) io = p.write_page io id bytes >>= apply_writes rest

  -- `for i in 0..pages_needed`, with `count` rounds left
  unfoldable pub write_chain : ℕ → ℕ → ℕ → ℕ → List PageId → List PageId → IO → Run IO
  write_chain zero i pages_needed cap page_ids payload io = done io
  write_chain (suc count) i pages_needed cap page_ids payload io = do
    id ← index page_ids i
    next ← if ltb (i + 1) pages_needed then index page_ids (i + 1) else done 0
    chunk ← slice payload (i * cap) (min ((i + 1) * cap) (length payload))
    bytes ← free_list_encode id next chunk (p.page_size io)
    io ← p.write_page io id bytes
    write_chain count (i + 1) pages_needed cap page_ids payload io

  -- `persist_free_list`: the head and the count for the header.
  unfoldable pub persist_free_list : IO → WriterState → Run (PageId × ℕ × WriterState × IO)
  persist_free_list io w = do
    capacity ← free_list_capacity (p.page_size io)
    let cap = max capacity 1
    let payload = w.free_list ++ w.pending_free
    let pages_needed = div_ceil (length payload) cap
    w ← extend_chain (pages_needed - length w.free_list_page_ids) w
    io ← write_chain pages_needed 0 pages_needed cap w.free_list_page_ids payload io
    head ← if ltb 0 pages_needed then index w.free_list_page_ids 0 else done 0
    done (head, length payload, w, io)

  -- `WriteTxn::commit`; the transaction ends here, and its store is what others see.
  unfoldable pub commit : WriteTxn IO → PageId → Run (Store IO)
  commit txn new_root = do
    io ← apply_writes txn.writes txn.store.io
    let w = promote txn.store.readers txn.freed txn.store.writer
    (head, count, w, io) ← persist_free_list io w
    let header : Header = record {
      page_size = p.page_size io;
      root_id = new_root;
      next_page_id = w.next_page_id;
      free_list_head = head;
      free_count = count;
    }
    bytes ← HeaderPage.to_bytes header (p.page_size io)
    io ← p.write_page io header_page_id bytes
    io ← p.sync io
    done (record (txn.store) { io = io; root = new_root; writer = w })
