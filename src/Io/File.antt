-- ===== src/Io/File.antt =====
-- The memory-mapped backend: 01-btree/src/io/file_backend.rs.
pub mod Laws
pub mod Keeps
pub mod Open
use ucu_de_distributed_algor.Prelude.{
  ℕ, ◌+◌, ◌*◌, ◌^◌, max, ltb, leb, ◌==◌, if◌then◌else◌, length, Run, Result, ok, err, done, panic,
  ◌>>=◌, ◌>>◌, assert,
}
use ucu_de_distributed_algor.Bytes.{Bytes}
use ucu_de_distributed_algor.Page.Tags.{PageId}
use ucu_de_distributed_algor.Io.{PageIo}

-- A `std::io::Error` by a number.
abbrev pub IoError : Type 0
IoError = ℕ

-- What the source calls of `std::fs::File` and of `memmap2::MmapRaw`, on one file with its mapping. A
-- copy out of the mapping or into it may end the process, which is `panic` here.
pub record Mapping (M : Type 0) : Type 0 where
  -- `file.metadata()?.len()`
  pub metadata_len : M → Result ℕ IoError
  pub set_len : M → ℕ → Result M IoError
  -- `MmapOptions::new().len(len).map_raw(&file)`
  pub map_raw : M → ℕ → Result M IoError
  -- `mmap.len()`
  pub mapped_len : M → ℕ
  -- `copy_nonoverlapping` from the mapping, and to it
  pub copy_out : M → ℕ → ℕ → Run Bytes
  pub copy_in : M → ℕ → Bytes → Run M
  pub flush : M → Result M IoError

-- `DEFAULT_MAX_SIZE`
abbrev pub default_max_size : ℕ
default_max_size = 2 ^ 30

pub record MmapPageIo (M : Type 0) : Type 0 where
  pub mapped : M
  pub page_bytes : ℕ
  pub committed_len : ℕ

-- `?` on a result
abbrev pub and_then : {A B E : Type 0} → Result A E → (A → Result B E) → Result B E
and_then (ok a) f = f a
and_then (err e) f = err e

-- `expect` on a result
abbrev pub expect : {A E : Type 0} → Result A E → Run A
expect (ok a) = done a
expect (err e) = panic

module _ {M : Type 0} ⦃o : Mapping M⦄ where
  -- The file is set to its first length if it is shorter.
  unfoldable pub first_len : M → ℕ → ℕ → Result M IoError
  first_len file current_len initial_len =
      if initial_len == current_len then ok file else o.set_len file initial_len

  -- `MmapPageIo::open_with_max_size`, on what opening the path returned
  unfoldable pub open_with_max_size : Result M IoError → ℕ → ℕ → Result (MmapPageIo M) IoError
  open_with_max_size opened page_size max_size = and_then opened (λ file.
      and_then (o.metadata_len file) (λ current_len.
        let initial_len = max current_len page_size in
        and_then (first_len file current_len initial_len) (λ file.
          and_then (o.map_raw file (max max_size initial_len)) (λ file.
            ok (record { mapped = file; page_bytes = page_size; committed_len = initial_len })))))

  -- `MmapPageIo::open`
  unfoldable pub open_file : Result M IoError → ℕ → Result (MmapPageIo M) IoError
  open_file opened page_size = open_with_max_size opened page_size default_max_size

  -- `MmapPageIo::ensure_committed`
  unfoldable pub ensure_committed : MmapPageIo M → ℕ → Run (MmapPageIo M)
  ensure_committed io needed =
      let grown = (do
        assert (leb needed (o.mapped_len io.mapped))
        file ← expect (o.set_len io.mapped needed)
        done (record io { mapped = file; committed_len = needed })) in
      if ltb io.committed_len needed then grown else done io

  -- `MmapPageIo::read_at` and `MmapPageIo::write_at`
  unfoldable pub read_at : MmapPageIo M → ℕ → ℕ → Run Bytes
  read_at io offset len = do
    assert (leb (offset + len) (o.mapped_len io.mapped))
    o.copy_out io.mapped offset len

  unfoldable pub write_at : MmapPageIo M → ℕ → Bytes → Run (MmapPageIo M)
  write_at io offset bytes = do
    assert (leb (offset + length bytes) (o.mapped_len io.mapped))
    file ← o.copy_in io.mapped offset bytes
    done (record io { mapped = file })

  -- `read_page`, `write_page` and `sync` of the trait
  unfoldable pub mmap_read_page : MmapPageIo M → PageId → Run Bytes
  mmap_read_page io id = read_at io (id * io.page_bytes) io.page_bytes

  unfoldable pub mmap_write_page : MmapPageIo M → PageId → Bytes → Run (MmapPageIo M)
  mmap_write_page io id bytes = do
    assert (length bytes == io.page_bytes)
    let offset = id * io.page_bytes
    io ← ensure_committed io (offset + io.page_bytes)
    write_at io offset bytes

  unfoldable pub mmap_sync : MmapPageIo M → Run (MmapPageIo M)
  mmap_sync io = expect (o.flush io.mapped) >>= λ file. done (record io { mapped = file })

instance abbrev pub mmap_io : {M : Type 0} → ⦃o : Mapping M⦄ → PageIo (MmapPageIo M)
mmap_io ⦃o⦄ = record {
  page_size = λ io. io.page_bytes;
  read_page = λ io id. mmap_read_page ⦃o = o⦄ io id;
  write_page = λ io id bytes. mmap_write_page ⦃o = o⦄ io id bytes;
  sync = λ io. mmap_sync ⦃o = o⦄ io;
}
