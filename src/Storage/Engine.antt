-- ===== src/Storage/Engine.antt =====
-- The engine over a memory backend: `in_memory`, `put` and `get` of 01-btree/src/storage/engine.rs.
pub mod File
use ucu_de_distributed_algor.Prelude.{
  ℕ, suc, ◌+◌, ◌-◌, ◌≤◌, ◌<◌, ◌≡◌, refl, ap, ◌∙◌, ◌≢◌, Option, none, some, [], arith, Run, Result,
  ok, err, done, panic, ◌>>=◌,
}
use ucu_de_distributed_algor.Bytes.{Bytes}
use ucu_de_distributed_algor.Io.{PageIo, memory_io, MemoryPageIo, new_memory}
use ucu_de_distributed_algor.Io.Memory.{memory_law}
use ucu_de_distributed_algor.Page.{Error, check_limits}
use ucu_de_distributed_algor.Page.Tags.{u16_mod}
use ucu_de_distributed_algor.Storage.Entries.{lookup, lookup-upsert_self, lookup-upsert_ne}
use ucu_de_distributed_algor.Storage.Fresh.{open-Holds}
use ucu_de_distributed_algor.Storage.Put.{Holds}
use ucu_de_distributed_algor.Storage.PutGet.{put-Holds}
use ucu_de_distributed_algor.Storage.Store.{
  Store, OpenError, open_or_create, enter_read, drop_read, begin_write, view_read,
}
use ucu_de_distributed_algor.Storage.Tree as BTree
use ucu_de_distributed_algor.Storage.Tree.InsertLeaf.{max_page_size}
use ucu_de_distributed_algor.Storage.Tree.Get.{get-lookup}
use ucu_de_distributed_algor.Storage.Tree.Shape.{Tree, entries_of}

pub record StorageEngine (IO : Type 0) : Type 0 where
  pub store : Store IO

-- `expect` on the opened store.
unfoldable pub expect_open :
    Result (Store MemoryPageIo) OpenError → Run (StorageEngine MemoryPageIo)
expect_open (ok s) = done (record { store = s })
expect_open (err e) = panic

-- The fuel is that of `open_or_create`.
unfoldable pub in_memory : ℕ → ℕ → Run (StorageEngine MemoryPageIo)
in_memory fuel page_size = open_or_create fuel (new_memory page_size) >>= expect_open

module _ {IO : Type 0} ⦃p : PageIo IO⦄ where
  -- `put` and `get` take the number of levels as fuel, and return the engine with the result.
  unfoldable pub put :
      ℕ → StorageEngine IO → Bytes → Bytes → Run (Result (Unit {0}) Error × StorageEngine IO)
  put fuel engine key val = BTree.put fuel (begin_write engine.store) key val >>= λ (result, s).
      done (result, record { store = s })

  unfoldable pub get : ℕ → StorageEngine IO → Bytes → Run (Option Bytes × StorageEngine IO)
  get fuel engine key =
      let view = enter_read engine.store in
      BTree.get fuel view key >>= λ found. done (found, record { store = drop_read view })

  drop_read-enter_read : (s : Store IO) → drop_read (enter_read s) ≡ s
  unfolding drop_read enter_read
  drop_read-enter_read s =
      let back : s.readers + 1 - 1 ≡ s.readers = omega arith in
      ap (λ n. record s { readers = n }) back

  -- On an engine whose store holds a tree of height `h` in pages below 65536 bytes: `get`, with fuel
  -- for `h + 1` levels, returns what the tree's entries have under the key, and the same engine.
  pub get-Holds :
      (ps h : ℕ) (engine : StorageEngine IO) (t : Tree h) (key : Bytes)
      → ps < u16_mod
      → Holds ps engine.store h t
      → get (suc h) engine key ≡ done (lookup (entries_of h t) key, engine)
  unfolding get enter_read drop_read view_read
  get-Holds ps h engine t key narrow now =
      let found = get-lookup ps (enter_read engine.store) h t key narrow now.valid now.stored in
      ap (λ r. r >>= λ found. done (found, record { store = drop_read (enter_read engine.store) }))
        found
      ∙ ap (λ s. done (lookup (entries_of h t) key, record { store = s }))
          (drop_read-enter_read engine.store)

-- An engine in memory with pages of 49 to 43690 bytes, and a key and value that `check_limits`
-- accepts: opening it returns, the first `put` returns, and then, with fuel for at most two levels,
-- `get` returns the value under the key and nothing under any other key, and leaves the engine.
pub get-put-in_memory :
    (ps : ℕ) (key val : Bytes)
    → 49 ≤ ps
    → ps ≤ max_page_size
    → check_limits ps key val ≡ ok tt
    → (e : StorageEngine MemoryPageIo) × (in_memory 1 ps ≡ done e)
      × (e' : StorageEngine MemoryPageIo) × (put 1 e key val ≡ done (ok tt, e'))
      × (h : ℕ) × (h ≤ 1)
      × (get (suc h) e' key ≡ done (some val, e'))
      × ((q : Bytes) → q ≢ key → get (suc h) e' q ≡ done (none, e'))
unfolding in_memory expect_open put lookup
get-put-in_memory ps key val wide narrow accept =
    let (s, opened, now, lasting, idle, next) = open-Holds ps 0 wide (omega arith) in
    let (s', run, h, t, low, high, holds, same, readers, n) =
      put-Holds memory_law ps key val s 0 [] wide narrow accept now (omega (arith, next))
        (omega (arith, next)) in
    let e' : StorageEngine MemoryPageIo = record { store = s' } in
    let found = λ (q : Bytes).
      get-Holds ps h e' t q (omega arith) holds ∙ ap (λ es. done (lookup es q, e')) same in
    (
      record { store = s },
      rw opened refl,
      e',
      rw run refl,
      h,
      high,
      found key ∙ ap (λ o. done (o, e')) (lookup-upsert_self [] key val),
      λ q n. found q ∙ ap (λ o. done (o, e')) (lookup-upsert_ne [] key val q n),
    )
