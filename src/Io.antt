-- ===== src/Io.antt =====
-- Page I/O: 01-btree/src/io/mod.rs and the in-memory backend of 01-btree/src/io/in_memory_backend.rs.
pub mod Memory
pub mod File
use ucu_de_distributed_algor.Prelude.{
  ℕ, ◌<◌, ◌≡◌, ◌≢◌, Option, none, some, ◌==◌, if◌then◌else◌, length, replicate, Run, done, ◌>>◌,
  assert,
}
use ucu_de_distributed_algor.Bytes.{Bytes}
use ucu_de_distributed_algor.Page.Tags.{PageId}

-- The trait `PageIo`. A backend is mutated behind `&self`: a write returns its new state.
pub record PageIo (IO : Type 0) : Type 0 where
  pub page_size : IO → ℕ
  pub read_page : IO → PageId → Run Bytes
  pub write_page : IO → PageId → Bytes → Run IO
  pub sync : IO → Run IO

-- The `HashMap` of pages is a function.
pub record MemoryPageIo : Type 0 where
  pub page_bytes : ℕ
  pub pages : PageId → Option Bytes

-- `MemoryPageIo::new`
unfoldable pub new_memory : ℕ → MemoryPageIo
new_memory page_size = record { page_bytes = page_size; pages = λ _. none }

unfoldable pub memory_read_page : MemoryPageIo → PageId → Run Bytes
memory_read_page io id = elim (io.pages id) [
  | some bytes ↦ done bytes
  | none ↦ done (replicate io.page_bytes 0)
]

unfoldable pub memory_write_page : MemoryPageIo → PageId → Bytes → Run MemoryPageIo
memory_write_page io id bytes = do
  assert (length bytes == io.page_bytes)
  done (record io { pages = λ j. if j == id then some bytes else io.pages j })

instance abbrev pub memory_io : PageIo MemoryPageIo
memory_io = record {
  page_size = λ io. io.page_bytes;
  read_page = memory_read_page;
  write_page = memory_write_page;
  sync = λ io. done io;
}

-- What reads at a page before still reads there.
abbrev pub Keeps : {IO : Type 0} ⦃io : PageIo IO⦄ → IO → IO → PageId → Type 0
Keeps ⦃io⦄ s t id = (old : Bytes) → io.read_page s id ≡ done old → io.read_page t id ≡ done old

-- What the store relies on of a backend: a page below `room` can be written, and then reads as what
-- was written; every other page that could be read reads as before.
pub record IsPageIo {IO : Type 0} (io : PageIo IO) : Type 0 where
  pub room : IO → ℕ
  pub write :
      (s : IO) (id : PageId) (bytes : Bytes)
      → id < room s
      → length bytes ≡ io.page_size s
      → (t : IO) × (io.write_page s id bytes ≡ done t)
        × (room t ≡ room s)
        × (io.page_size t ≡ io.page_size s)
        × (io.read_page t id ≡ done bytes)
        × ((j : PageId) → j ≢ id → Keeps ⦃io = io⦄ s t j)
  pub flush :
      (s : IO)
      → (t : IO) × (io.sync s ≡ done t)
        × (room t ≡ room s)
        × (io.page_size t ≡ io.page_size s)
        × ((j : PageId) → Keeps ⦃io = io⦄ s t j)
