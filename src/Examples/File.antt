-- ===== src/Examples/File.antt =====
-- Each theorem on the page file at an input: 01-btree/src/io/file_backend.rs on a file in memory.
use ucu_de_distributed_algor.Prelude.{
  ℕ, suc, ◌+◌, ◌/◌, ◌^◌, ◌≤◌, ◌<◌, min, max, ◌≡◌, refl, ◌≢◌, ◌⊎◌, inl, inr, none, some, [], ◌∷◌,
  arith, ltb, leb, ◌==◌, if◌then◌else◌, ==_self, length, replicate, Run, ok, done, panic,
}
use ucu_de_distributed_algor.Bytes.{Bytes}
use ucu_de_distributed_algor.Page.{check_limits, max_kv_size}
use ucu_de_distributed_algor.Page.Tags.{PageId}
use ucu_de_distributed_algor.Io.{Keeps}
use ucu_de_distributed_algor.Io.File.{
  mmap_io, Mapping, MmapPageIo, open_with_max_size, mmap_read_page, mmap_write_page,
}
use ucu_de_distributed_algor.Io.File.Laws.{IsMapping, window, window_cong, file_room}
use ucu_de_distributed_algor.Io.File.Keeps.{mmap_read_page-mmap_write_page}
use ucu_de_distributed_algor.Io.File.Open.{open_with_max_size-returns}
use ucu_de_distributed_algor.Storage.Engine.{StorageEngine, put, get}
use ucu_de_distributed_algor.Storage.Engine.File.{open_engine, get-open_engine-put}

-- A file in memory, with the length of its mapping.
record Disk : Type 0 where
  bytes : ℕ → ℕ
  len : ℕ
  mapped : ℕ

abbrev put_at : ℕ → Bytes → (ℕ → ℕ) → ℕ → ℕ
put_at off [] f i = f i
put_at off (b ∷ bs) f i = if i == off then b else put_at (suc off) bs f i

abbrev copied_out : Disk → ℕ → ℕ → Run Bytes
copied_out m off n = if leb (off + n) m.len then done (window m.bytes off n) else panic

abbrev copied_in : Disk → ℕ → Bytes → Run Disk
copied_in m off bs =
    if leb (off + length bs) m.len then done (record m { bytes = put_at off bs m.bytes }) else panic

abbrev resized : Disk → ℕ → Disk
resized m n = record m { bytes = λ i. if ltb i m.len then m.bytes i else 0; len = n }

instance abbrev disk_mapping : Mapping Disk
disk_mapping = record {
  metadata_len = λ m. ok m.len;
  set_len = λ m n. ok (resized m n);
  map_raw = λ m n. ok (record m { mapped = n });
  mapped_len = λ m. m.mapped;
  copy_out = copied_out;
  copy_in = copied_in;
  flush = λ m. ok m;
}

put_at-window : (off : ℕ) (bs : Bytes) (f : ℕ → ℕ) → window (put_at off bs f) off (length bs) ≡ bs
put_at-window off [] f = refl
put_at-window off (b ∷ bs) f =
    let first : put_at off (b ∷ bs) f off ≡ b = ground (arith, ==_self off) in
    let rest =
      window_cong (put_at off (b ∷ bs) f) (put_at (suc off) bs f) (suc off) (length bs)
        (λ i low high. ground arith) in
    rw (first, rest, put_at-window (suc off) bs f)

put_at-outside :
    (off : ℕ) (bs : Bytes) (f : ℕ → ℕ) (i : ℕ)
    → (i < off) ⊎ (off + length bs ≤ i)
    → put_at off bs f i ≡ f i
put_at-outside off [] f i h = refl
put_at-outside off (b ∷ bs) f i (inl low) =
    ground (arith, put_at-outside (suc off) bs f i (inl (omega arith)))
put_at-outside off (b ∷ bs) f i (inr high) =
    ground (arith, put_at-outside (suc off) bs f i (inr (omega arith)))

abbrev space_of : Disk → ℕ
space_of m = max m.len (2 ^ 40)

abbrev disk_law : IsMapping disk_mapping
disk_law = record {
  file_len = λ m. m.len;
  space = space_of;
  byte = λ m. m.bytes;
  fits = λ m. omega arith;
  length_read = λ m. refl;
  map = λ m n. (record m { mapped = n }, refl, refl, refl, refl, λ i. refl);
  grow = λ m n longer room.
      (resized m n, refl, refl, omega arith, refl, λ i h. ground arith, λ i h. ground arith);
  out_of = λ m off n h k. ground arith;
  within = λ m off n bs pos e. ground arith;
  into = λ m off bs h k. (
    record m { bytes = put_at off bs m.bytes },
    ground arith,
    refl,
    refl,
    refl,
    put_at-window off bs m.bytes,
    λ i out. put_at-outside off bs m.bytes i out,
  );
  flushed = λ m. (m, refl, refl, refl, refl, λ off n. refl);
}

abbrev empty_file : Disk
empty_file = record { bytes = λ _. 0; len = 0; mapped = 0 }

abbrev two_pages : MmapPageIo Disk
two_pages = record {
  mapped = record { bytes = λ _. 7; len = 8; mapped = 40 };
  page_bytes = 4;
  committed_len = 8;
}

five_pages_more : 5 < file_room disk_law two_pages
unfolding file_room
five_pages_more = omega arith

accepted : check_limits 4096 (7 ∷ []) (8 ∷ 9 ∷ []) ≡ ok tt
unfolding check_limits max_kv_size
accepted = refl

mmap_read_page-mmap_write_page_example :
    (t : MmapPageIo Disk) × (mmap_write_page two_pages 5 (1 ∷ 2 ∷ 3 ∷ 4 ∷ []) ≡ done t)
    × (file_room disk_law t ≡ file_room disk_law two_pages)
    × (t.page_bytes ≡ 4)
    × (mmap_read_page t 5 ≡ done (1 ∷ 2 ∷ 3 ∷ 4 ∷ []))
    × ((j : PageId) → j ≢ 5 → Keeps two_pages t j)
mmap_read_page-mmap_write_page_example =
    mmap_read_page-mmap_write_page disk_law two_pages 5 (1 ∷ 2 ∷ 3 ∷ 4 ∷ []) five_pages_more refl

open_with_max_size-returns_example :
    (io : MmapPageIo Disk) × (open_with_max_size (ok empty_file) 64 1024 ≡ ok io)
    × (io.page_bytes ≡ 64)
    × (file_room disk_law io ≡ min (2 ^ 40) (max 1024 (max 0 64)) / 64)
    × ((old : MmapPageIo Disk)
        → old.mapped ≡ empty_file
        → old.page_bytes ≡ 64
        → (j : PageId) → Keeps old io j)
    × (◌≡◌ {A = ℕ} 0 0 → mmap_read_page io 0 ≡ done (replicate 64 0))
open_with_max_size-returns_example =
    open_with_max_size-returns disk_law empty_file 64 1024 (omega arith) (omega arith)

get-open_engine-put_example :
    (e : StorageEngine (MmapPageIo Disk)) × (open_engine 1 (ok empty_file) 4096 ≡ done (ok e))
    × (e' : StorageEngine (MmapPageIo Disk)) × (put 1 e (7 ∷ []) (8 ∷ 9 ∷ []) ≡ done (ok tt, e'))
    × (again : StorageEngine (MmapPageIo Disk)) × (h : ℕ) × (h ≤ 1)
    × ((fuel : ℕ)
        → e'.store.writer.next_page_id < fuel
        → open_engine fuel (ok e'.store.io.mapped) 4096 ≡ done (ok again))
    × (get (suc h) again (7 ∷ []) ≡ done (some (8 ∷ 9 ∷ []), again))
    × ((q : Bytes) → q ≢ 7 ∷ [] → get (suc h) again q ≡ done (none, again))
get-open_engine-put_example =
    get-open_engine-put disk_law empty_file 4096 (7 ∷ []) (8 ∷ 9 ∷ []) (omega arith) (omega arith)
      refl (omega arith) accepted
