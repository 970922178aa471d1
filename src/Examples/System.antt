-- ===== src/Examples/System.antt =====
-- Each theorem on a store over time at an input: 01-btree/src/storage on a memory backend, with a guard that
-- reads while a transaction commits.
use ucu_de_distributed_algor.Prelude.{ℕ, suc, ◌≤◌, ◌<◌, ◌≡◌, refl, [], ◌∷◌, arith, ok, done}
use ucu_de_distributed_algor.Bytes.{Bytes}
use ucu_de_distributed_algor.Io.{memory_io, MemoryPageIo}
use ucu_de_distributed_algor.Io.Memory.{memory_law}
use ucu_de_distributed_algor.Page.{check_limits, max_kv_size}
use ucu_de_distributed_algor.Page.Tags.{u64_mod}
use ucu_de_distributed_algor.Storage.Entries.{upsert, lookup}
use ucu_de_distributed_algor.Storage.Fresh.{open-Holds}
use ucu_de_distributed_algor.Storage.Store.{Store, enter_read, view_root}
use ucu_de_distributed_algor.Storage.Tree.{get}
use ucu_de_distributed_algor.Storage.System.{
  entered, reading, System, headroom, Step, enter, load, Reach, here, next, IsConsistent,
}
use ucu_de_distributed_algor.Storage.System.Safety.{
  Reach-IsConsistent, get-Reach, get-Snapshot, put-Step,
}

-- A store opened on an empty backend with pages of 4096 bytes.
opened :
    (s : Store MemoryPageIo) × IsConsistent 4096 (record { store = s; guards = []; contents = [] })
    × (headroom s.writer.next_page_id ≤ memory_law.room s.io)
    × (headroom s.writer.next_page_id < u64_mod)
opened =
    let (s, run, holds, lasting, idle, mark) = open-Holds 4096 0 (omega arith) (omega arith) in
    (
      s,
      record {
        height = 0;
        tree = [];
        holds = holds;
        same_entries = refl;
        counted = idle;
        durable = lasting;
        guarded = tt;
      },
      omega (arith, mark),
      omega (arith, mark),
    )

abbrev start : System MemoryPageIo
start = record { store = opened.0; guards = []; contents = [] }

accepted : check_limits 4096 (7 ∷ []) (8 ∷ 9 ∷ []) ≡ ok tt
unfolding check_limits max_kv_size
accepted = refl

-- A guard is entered and loads the root.
abbrev one_reader : System MemoryPageIo
one_reader = record {
  store = enter_read start.store;
  guards = reading start.store.root start.contents ∷ [];
  contents = start.contents;
}

start-one_reader : Reach memory_law start one_reader
unfolding enter_read view_root
start-one_reader = next (next here (enter refl)) (load [] [] entered refl refl)

-- A transaction commits while it reads.
written :
    (d : System MemoryPageIo) × Step memory_law one_reader d
    × (d.contents ≡ upsert [] (7 ∷ []) (8 ∷ 9 ∷ []))
    × (d.guards ≡ one_reader.guards)
unfolding enter_read
written =
    put-Step memory_law 4096 (omega arith) (omega arith) one_reader (7 ∷ []) (8 ∷ 9 ∷ [])
      (Reach-IsConsistent memory_law 4096 (omega arith) (omega arith) start-one_reader opened.1)
      accepted opened.2 opened.3

start-written : Reach memory_law start written.0
start-written = next start-one_reader written.1

Reach-IsConsistent_example : IsConsistent 4096 written.0
Reach-IsConsistent_example =
    Reach-IsConsistent memory_law 4096 (omega arith) (omega arith) start-written opened.1

get-Reach_example :
    (h : ℕ) × ((q : Bytes) → get (suc h) written.0.store q ≡ done (lookup written.0.contents q))
get-Reach_example =
    get-Reach memory_law 4096 (omega arith) (omega arith) start written.0 opened.1 start-written

get-Snapshot_example :
    (h : ℕ) × ((q : Bytes)
      → get (suc h) (record (written.0.store) { root = start.store.root }) q
        ≡ done (lookup start.contents q))
get-Snapshot_example =
    get-Snapshot memory_law 4096 (omega arith) (omega arith) start written.0 [] [] start.store.root
      start.contents opened.1 start-written written.3

put-Step_example :
    (d : System MemoryPageIo) × Step memory_law start d
    × (d.contents ≡ upsert start.contents (7 ∷ []) (8 ∷ 9 ∷ []))
    × (d.guards ≡ start.guards)
put-Step_example =
    put-Step memory_law 4096 (omega arith) (omega arith) start (7 ∷ []) (8 ∷ 9 ∷ []) opened.1
      accepted opened.2 opened.3
