-- ===== src/Examples/Storage.antt =====
-- Each theorem on the store at an input: 01-btree/src/io/in_memory_backend.rs and
-- 01-btree/src/storage.
use ucu_de_distributed_algor.Prelude.{ℕ, suc, ◌≡◌, refl, ◌≢◌, none, List, [], ◌∷◌, arith, ok, done}
use ucu_de_distributed_algor.Bytes.{Bytes, cmp}
use ucu_de_distributed_algor.Io.{
  memory_io, MemoryPageIo, new_memory, memory_read_page, memory_write_page,
}
use ucu_de_distributed_algor.Page.Tags.{PageId}
use ucu_de_distributed_algor.Page.{leaf}
use ucu_de_distributed_algor.Page.Leaf.View.{Entry, keys, leaf_of}
use ucu_de_distributed_algor.Page.Keys.{IsAscending}
use ucu_de_distributed_algor.Storage.Entries.{lookup}
use ucu_de_distributed_algor.Storage.Store.{Store, WriteTxn, open_or_create}
use ucu_de_distributed_algor.Storage.Tree.{get_loop, get}
use ucu_de_distributed_algor.Storage.Tree.Lookup.{get_loop-lookup}
use ucu_de_distributed_algor.Io.Memory.{memory_read_page-memory_write_page}
use ucu_de_distributed_algor.Storage.Fresh.{open_or_create-new_memory}

abbrev backend : ℕ → MemoryPageIo
backend n = record { page_bytes = n; pages = λ _. none }

abbrev store : Store MemoryPageIo
store = record {
  io = backend 64;
  root = 1;
  readers = 0;
  writer = record {
    next_page_id = 5;
    free_list = 4 ∷ [];
    pending_free = [];
    free_list_page_ids = [];
  };
}

abbrev txn : WriteTxn MemoryPageIo
txn = record { store = store; writes = []; freed = []; base_root = 1 }

abbrev two : List Entry
two = (1 ∷ [], 10 ∷ []) ∷ (3 ∷ [], 30 ∷ []) ∷ []

two-IsAscending : IsAscending (keys two)
unfolding cmp
two-IsAscending = ((refl, tt), (tt, tt))

memory_read_page-memory_write_page_example :
    (t : MemoryPageIo) × (memory_write_page (backend 3) 7 (1 ∷ 2 ∷ 3 ∷ []) ≡ done t)
    × (t.page_bytes ≡ 3)
    × (memory_read_page t 7 ≡ done (1 ∷ 2 ∷ 3 ∷ []))
    × ((j : PageId) → j ≢ 7 → memory_read_page t j ≡ memory_read_page (backend 3) j)
memory_read_page-memory_write_page_example =
    memory_read_page-memory_write_page (backend 3) 7 (1 ∷ 2 ∷ 3 ∷ []) refl

get_loop-lookup_example :
    get_loop 1 store (leaf (leaf_of 1 two)) (3 ∷ []) ≡ done (lookup two (3 ∷ []))
get_loop-lookup_example = get_loop-lookup 0 store 1 two (3 ∷ []) (omega arith) two-IsAscending

open_or_create-new_memory_example :
    (s : Store MemoryPageIo) × (open_or_create 1 (new_memory 64) ≡ done (ok s))
    × ((levels : ℕ) (key : Bytes) → get (suc levels) s key ≡ done none)
    × (open_or_create 1 s.io ≡ done (ok s))
open_or_create-new_memory_example = open_or_create-new_memory 64 0 (omega arith) (omega arith)
