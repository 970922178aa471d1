-- ===== src/Storage/Engine/File.antt =====
-- The engine over a page file: `StorageEngine::open` of 01-btree/src/storage/engine.rs on the backend of
-- 01-btree/src/io/file_backend.rs.
use ucu_de_distributed_algor.Prelude.{
  ℕ, suc, ◌*◌, ◌/◌, ◌≤◌, ◌<◌, min, max, ◌≡◌, refl, sym, ap, ◌∙◌, ◌≢◌, none, some, [], arith, Run,
  Result, ok, err, done, ◌>>=◌,
}
use native.Mathlib.Nat.{le-div_iff_mul-le}
use ucu_de_distributed_algor.Storage.Tree.Shape.{Tree}
use ucu_de_distributed_algor.Bytes.{Bytes}
use ucu_de_distributed_algor.Io.File.{
  mmap_io, IoError, Mapping, MmapPageIo, default_max_size, open_with_max_size, open_file,
}
use ucu_de_distributed_algor.Io.File.Laws.{IsMapping, file_room, has_room}
use ucu_de_distributed_algor.Io.File.Keeps.{mmap_law}
use ucu_de_distributed_algor.Io.File.Open.{open_with_max_size-returns}
use ucu_de_distributed_algor.Page.{check_limits}
use ucu_de_distributed_algor.Storage.Entries.{lookup, lookup-upsert_self, lookup-upsert_ne}
use ucu_de_distributed_algor.Storage.Fresh.{open_or_create-blank}
use ucu_de_distributed_algor.Storage.Put.{Holds, IsDurable, put-After, reopened-Holds}
use ucu_de_distributed_algor.Storage.Store as StoreModule
use ucu_de_distributed_algor.Storage.Store.{Store, open_or_create, begin_write}
use ucu_de_distributed_algor.Storage.Store.Reopen.{reopened}
use ucu_de_distributed_algor.Storage.Tree as BTree
use ucu_de_distributed_algor.Storage.Tree.InsertLeaf.{max_page_size}
use ucu_de_distributed_algor.Storage.Engine.{StorageEngine, put, get, get-Holds}

pub data OpenError : Type 0 where
  io_error : IoError → OpenError
  store_error : StoreModule.OpenError → OpenError

ten_pages :
    (ps space most : ℕ) → 1 ≤ ps → 10 * ps ≤ space → 10 * ps ≤ most → 10 ≤ min space most / ps
ten_pages ps space most pos a b = (le-div_iff_mul-le pos).1 (omega arith)

module _ {M : Type 0} ⦃o : Mapping M⦄ where
  -- `?` on the opened store
  unfoldable pub wrap_store :
      Result (Store (MmapPageIo M)) StoreModule.OpenError
      → Result (StorageEngine (MmapPageIo M)) OpenError
  wrap_store (ok s) = ok (record { store = s })
  wrap_store (err e) = err (store_error e)

  -- `StorageEngine::open`, on what opening the path returned; the fuel is that of `open_or_create`.
  unfoldable pub open_engine :
      ℕ → Result M IoError → ℕ → Run (Result (StorageEngine (MmapPageIo M)) OpenError)
  open_engine fuel opened page_size = elim (open_file opened page_size) [
    | ok io ↦ open_or_create fuel io >>= λ s. done (wrap_store s)
    | err e ↦ done (err (io_error e))
  ]

  open_run :
      (fuel : ℕ) (m : M) (ps : ℕ) (io : MmapPageIo M) (s : Store (MmapPageIo M))
      → open_with_max_size (ok m) ps default_max_size ≡ ok io
      → open_or_create fuel io ≡ done (ok s)
      → open_engine fuel (ok m) ps ≡ done (ok (record { store = s }))
  unfolding open_engine open_file wrap_store
  open_run fuel m ps io s a b = rw (open_engine, open_file, a, b)

  put_run :
      (fuel : ℕ) (s s' : Store (MmapPageIo M)) (k v : Bytes)
      → BTree.put fuel (begin_write s) k v ≡ done (ok tt, s')
      → put fuel (record { store = s }) k v ≡ done (ok tt, record { store = s' })
  unfolding put
  put_run fuel s s' k v a = rw a

  first_opening :
      (law : IsMapping o) (m : M) (ps : ℕ)
      → 49 ≤ ps
      → ps ≤ max_page_size
      → law.file_len m ≡ 0
      → 10 * ps ≤ law.space m
      → (s : Store (MmapPageIo M)) × (open_engine 1 (ok m) ps ≡ done (ok (record { store = s })))
        × Holds ps s 0 []
        × (s.writer.next_page_id ≡ 2)
        × (10 ≤ file_room law s.io)
  first_opening law m ps wide narrow empty space =
      let (io, opened, size, room, keeps, blank) =
        open_with_max_size-returns law m ps default_max_size (omega arith) (omega arith) in
      let most = max default_max_size (max (law.file_len m) ps) in
      let roomy = ten_pages ps (law.space m) most (omega arith) space (omega arith) in
      let (s, created, holds, lasting, idle, next, same_room, nothing, twice) =
        open_or_create-blank (mmap_law law) ps 0 io wide (omega arith) size
          (omega (arith, room, roomy)) (blank empty) in
      (s, open_run 1 m ps io s opened created, holds, next, omega (arith, same_room, room, roomy))

  -- For a file and a mapping that keep their laws, and a durable store on this backend that holds a
  -- tree, with room for a page: opening the engine on the same file, with fuel above the high-water
  -- mark, returns an engine whose store holds the same tree.
  pub open_engine-Holds :
      (law : IsMapping o) (ps : ℕ) (s : Store (MmapPageIo M)) (h : ℕ) (t : Tree h)
      → 1 ≤ ps
      → Holds ps s h t
      → IsDurable s
      → 1 ≤ file_room law s.io
      → (again : StorageEngine (MmapPageIo M)) × Holds ps again.store h t
        × ((fuel : ℕ)
            → s.writer.next_page_id < fuel
            → open_engine fuel (ok s.io.mapped) ps ≡ done (ok again))
  open_engine-Holds law ps s h t pos holds (needed, few, opens) room =
      let (whole, some_byte, space, mapped) = has_room law s.io 0 room in
      let (io, opened, size, room', keeps, blank) =
        open_with_max_size-returns law s.io.mapped ps default_max_size pos
          (omega (arith, holds.size)) in
      let same_pages = keeps s.io refl holds.size in
      let same_size = size ∙ sym holds.size in
      (
        record { store = reopened needed s io },
        reopened-Holds ps needed s io h t same_size same_pages holds,
        λ fuel more.
            open_run fuel s.io.mapped ps io (reopened needed s io) opened
              (opens io same_size same_pages fuel (omega arith)),
      )

  -- For a file and a mapping that keep their laws, with an empty file, pages of 49 to 43690 bytes and
  -- space for ten of them, and a key and value that `check_limits` accepts: opening the engine
  -- returns, and the first `put` returns. Opening the engine on that file again, with fuel above the
  -- high-water mark, returns, and there `get`, with fuel for at most two levels, returns the value
  -- under the key and nothing under any other key.
  pub get-open_engine-put :
      (law : IsMapping o) (m : M) (ps : ℕ) (k v : Bytes)
      → 49 ≤ ps
      → ps ≤ max_page_size
      → law.file_len m ≡ 0
      → 10 * ps ≤ law.space m
      → check_limits ps k v ≡ ok tt
      → (e : StorageEngine (MmapPageIo M)) × (open_engine 1 (ok m) ps ≡ done (ok e))
        × (e' : StorageEngine (MmapPageIo M)) × (put 1 e k v ≡ done (ok tt, e'))
        × (again : StorageEngine (MmapPageIo M)) × (h : ℕ) × (h ≤ 1)
        × ((fuel : ℕ)
            → e'.store.writer.next_page_id < fuel
            → open_engine fuel (ok e'.store.io.mapped) ps ≡ done (ok again))
        × (get (suc h) again k ≡ done (some v, again))
        × ((q : Bytes) → q ≢ k → get (suc h) again q ≡ done (none, again))
  unfolding lookup
  get-open_engine-put law m ps k v wide narrow empty space accept =
      let (s, opened, holds, next, room) = first_opening law m ps wide narrow empty space in
      let (s', run, a) =
        put-After (mmap_law law) ps wide narrow k v accept s 0 [] holds (omega (arith, next))
          (omega (arith, next)) in
      let (again, held, reopens) =
        open_engine-Holds law ps s' a.height a.tree (omega arith) a.holds a.reopens
          (omega (arith, next, a.room_kept)) in
      let found = λ (q : Bytes).
        get-Holds ps a.height again a.tree q (omega arith) held
        ∙ ap (λ es. done (lookup es q, again)) a.same_entries in
      (
        record { store = s },
        opened,
        record { store = s' },
        put_run 1 s s' k v run,
        again,
        a.height,
        a.one_higher,
        reopens,
        found k ∙ ap (λ x. done (x, again)) (lookup-upsert_self [] k v),
        λ q n. found q ∙ ap (λ x. done (x, again)) (lookup-upsert_ne [] k v q n),
      )
