-- ===== src/Examples/Put.antt =====
-- Each theorem on `put` and `get` at an input: 01-btree/src/storage/tree.rs on a memory backend.
use ucu_de_distributed_algor.Prelude.{
  ℕ, suc, ◌+◌, ◌≤◌, ◌<◌, ◌≡◌, refl, ◌≢◌, none, some, [], ◌∷◌, arith, ok, done,
}
use ucu_de_distributed_algor.Prelude.Count.{one}
use ucu_de_distributed_algor.Bytes.{Bytes}
use ucu_de_distributed_algor.Io.{memory_io, MemoryPageIo}
use ucu_de_distributed_algor.Io.Memory.{memory_law}
use ucu_de_distributed_algor.Page.{check_limits, max_kv_size}
use ucu_de_distributed_algor.Page.Tags.{PageId, u64_mod}
use ucu_de_distributed_algor.Storage.Entries.{upsert, lookup}
use ucu_de_distributed_algor.Storage.Store.{Store, WriteTxn, alloc, open_or_create, begin_write}
use ucu_de_distributed_algor.Storage.Fresh.{open-Holds}
use ucu_de_distributed_algor.Storage.Tree.{put, get}
use ucu_de_distributed_algor.Storage.Tree.Get.{get-lookup}
use ucu_de_distributed_algor.Storage.Tree.Shape.{Tree, uses, entries_of}
use ucu_de_distributed_algor.Storage.Put.{Holds, reserve, begin_write-Own}
use ucu_de_distributed_algor.Storage.Store.Alloc.{Allocates, alloc_lem}
use ucu_de_distributed_algor.Storage.Engine as Engine
use ucu_de_distributed_algor.Storage.Engine.{StorageEngine, in_memory, get-Holds, get-put-in_memory}
use ucu_de_distributed_algor.Storage.PutGet.{
  get-open_or_create-put, put-Holds, get-put, get-put_old_root,
}

-- A store opened on an empty backend with pages of 4096 bytes.
opened :
    (s : Store MemoryPageIo) × Holds 4096 s 0 []
    × (reserve 0 s.writer.next_page_id ≤ memory_law.room s.io)
    × (reserve 0 s.writer.next_page_id < u64_mod)
opened =
    let (s, run, holds, lasting, idle, next) = open-Holds 4096 0 (omega arith) (omega arith) in
    (s, holds, omega (arith, next), omega (arith, next))

accepted : check_limits 4096 (7 ∷ []) (8 ∷ 9 ∷ []) ≡ ok tt
unfolding check_limits max_kv_size
accepted = refl

get-lookup_example : get 1 opened.0 (7 ∷ []) ≡ done none
unfolding lookup
get-lookup_example =
    get-lookup 4096 opened.0 0 [] (7 ∷ []) (omega arith) opened.1.valid opened.1.stored

put-Holds_example :
    (s' : Store MemoryPageIo) × (put 1 (begin_write opened.0) (7 ∷ []) (8 ∷ 9 ∷ [])
      ≡ done (ok tt, s'))
    × (h' : ℕ) × (t' : Tree h') × (0 ≤ h')
    × (h' ≤ 1)
    × Holds 4096 s' h' t'
    × (entries_of h' t' ≡ upsert [] (7 ∷ []) (8 ∷ 9 ∷ []))
    × (s'.readers ≡ opened.0.readers)
    × (s'.writer.next_page_id ≤ reserve 0 opened.0.writer.next_page_id)
put-Holds_example =
    put-Holds memory_law 4096 (7 ∷ []) (8 ∷ 9 ∷ []) opened.0 0 [] (omega arith) (omega arith)
      accepted opened.1 opened.2 opened.3

get-put_example :
    (s' : Store MemoryPageIo) × (put 1 (begin_write opened.0) (7 ∷ []) (8 ∷ 9 ∷ [])
      ≡ done (ok tt, s'))
    × (h' : ℕ) × (h' ≤ 1)
    × (get (suc h') s' (7 ∷ []) ≡ done (some (8 ∷ 9 ∷ [])))
    × ((q : Bytes) → q ≢ 7 ∷ [] → get (suc h') s' q ≡ get 1 opened.0 q)
get-put_example =
    get-put memory_law 4096 (7 ∷ []) (8 ∷ 9 ∷ []) opened.0 0 [] (omega arith) (omega arith) accepted
      opened.1 opened.2 opened.3

get-open_or_create-put_example :
    (s' : Store MemoryPageIo) × (put 1 (begin_write opened.0) (7 ∷ []) (8 ∷ 9 ∷ [])
      ≡ done (ok tt, s'))
    × (h' : ℕ) × (t' : Tree h') × (h' ≤ 1)
    × (again : Store MemoryPageIo) × ((fuel : ℕ)
        → s'.writer.next_page_id < fuel
        → open_or_create fuel s'.io ≡ done (ok again))
    × (again.readers ≡ 0)
    × Holds 4096 again h' t'
    × (get (suc h') again (7 ∷ []) ≡ done (some (8 ∷ 9 ∷ [])))
    × ((q : Bytes) → q ≢ 7 ∷ [] → get (suc h') again q ≡ get 1 opened.0 q)
get-open_or_create-put_example =
    get-open_or_create-put memory_law 4096 (7 ∷ []) (8 ∷ 9 ∷ []) opened.0 0 [] (omega arith)
      (omega arith) accepted opened.1 opened.2 opened.3

get-put_old_root_example :
    (s' : Store MemoryPageIo) × (put 1 (begin_write opened.0) (7 ∷ []) (8 ∷ 9 ∷ [])
      ≡ done (ok tt, s'))
    × ((q : Bytes) → get 1 (record s' { root = opened.0.root }) q ≡ get 1 opened.0 q)
get-put_old_root_example =
    get-put_old_root memory_law 4096 (7 ∷ []) (8 ∷ 9 ∷ []) opened.0 0 [] (omega arith) (omega arith)
      accepted opened.1 opened.2 opened.3

in_use : PageId → ℕ
in_use i = uses 0 [] i + one opened.0.root i

alloc_lem_example :
    (id : PageId) × (u : WriteTxn MemoryPageIo) × (alloc (begin_write opened.0) ≡ done (id, u))
    × Allocates (begin_write opened.0) in_use id u
unfolding in_use begin_write
alloc_lem_example =
    alloc_lem (begin_write opened.0) in_use (omega (arith, opened.3))
      (begin_write-Own opened.0 0 [] opened.1.owned)

get-Holds_example :
    Engine.get 1 (record { store = opened.0 }) (7 ∷ []) ≡ done (none, record { store = opened.0 })
unfolding lookup
get-Holds_example =
    get-Holds 4096 0 (record { store = opened.0 }) [] (7 ∷ []) (omega arith) opened.1

get-put-in_memory_example :
    (e : StorageEngine MemoryPageIo) × (in_memory 1 4096 ≡ done e)
    × (e' : StorageEngine MemoryPageIo) × (Engine.put 1 e (7 ∷ []) (8 ∷ 9 ∷ []) ≡ done (ok tt, e'))
    × (h : ℕ) × (h ≤ 1)
    × (Engine.get (suc h) e' (7 ∷ []) ≡ done (some (8 ∷ 9 ∷ []), e'))
    × ((q : Bytes) → q ≢ 7 ∷ [] → Engine.get (suc h) e' q ≡ done (none, e'))
get-put-in_memory_example =
    get-put-in_memory 4096 (7 ∷ []) (8 ∷ 9 ∷ []) (omega arith) (omega arith) accepted
