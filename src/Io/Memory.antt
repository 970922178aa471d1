-- ===== src/Io/Memory.antt =====
-- The backend of 01-btree/src/io/in_memory_backend.rs keeps the laws of the interface.
use ucu_de_distributed_algor.Prelude.{
  ◌≡◌, refl, ◌∙◌, ◌≢◌, some, arith, ◌==◌, if◌then◌else◌, ==_self, length, done,
}
use ucu_de_distributed_algor.Bytes.{Bytes}
use ucu_de_distributed_algor.Page.Tags.{PageId, u64_mod}
use ucu_de_distributed_algor.Io.{
  Keeps, IsPageIo, MemoryPageIo, memory_read_page, memory_write_page, memory_io,
}

-- Writing a page of the backend's size returns a backend with the same page size that reads the page
-- back, and every other page as before.
pub memory_read_page-memory_write_page :
    (io : MemoryPageIo) (id : PageId) (bytes : Bytes)
    → length bytes ≡ io.page_bytes
    → (t : MemoryPageIo) × (memory_write_page io id bytes ≡ done t)
      × (t.page_bytes ≡ io.page_bytes)
      × (memory_read_page t id ≡ done bytes)
      × ((j : PageId) → j ≢ id → memory_read_page t j ≡ memory_read_page io j)
unfolding memory_read_page memory_write_page
memory_read_page-memory_write_page io id bytes len = (
  record io { pages = λ j. if j == id then some bytes else io.pages j },
  rw (len, ==_self io.page_bytes),
  refl,
  ground (arith, ==_self id),
  λ j n. ground arith,
)

pub memory_write-keeps :
    (io : MemoryPageIo) (id : PageId) (bytes : Bytes)
    → length bytes ≡ io.page_bytes
    → (t : MemoryPageIo) × (memory_write_page io id bytes ≡ done t)
      × (u64_mod ≡ u64_mod)
      × (t.page_bytes ≡ io.page_bytes)
      × (memory_read_page t id ≡ done bytes)
      × ((j : PageId) → j ≢ id → Keeps io t j)
memory_write-keeps io id bytes len =
    let (t, written, size, back, others) = memory_read_page-memory_write_page io id bytes len in
    (t, written, refl, size, back, λ j n old read. others j n ∙ read)

-- There is room for every page id.
abbrev pub memory_law : IsPageIo memory_io
memory_law = record {
  room = λ _. u64_mod;
  write = λ s id bytes h len. memory_write-keeps s id bytes len;
  flush = λ s. (s, refl, refl, refl, λ j old read. read);
}
