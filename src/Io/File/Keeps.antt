-- ===== src/Io/File/Keeps.antt =====
-- The backend of 01-btree/src/io/file_backend.rs keeps the laws of the interface, on a file and a mapping
-- that keep theirs.
use ucu_de_distributed_algor.Prelude.{
  ◌+◌, ◌*◌, ◌≤◌, ◌<◌, ◌≡◌, refl, sym, ap, ◌∙◌, ◌≢◌, true, arith, ◌==◌, le→leb, ==_self, length, ok,
  done,
}
use ucu_de_distributed_algor.Bytes.{Bytes}
use ucu_de_distributed_algor.Page.Tags.{PageId}
use ucu_de_distributed_algor.Io.{IsPageIo, Keeps}
use ucu_de_distributed_algor.Io.File.{
  Mapping, MmapPageIo, ensure_committed, write_at, mmap_read_page, mmap_write_page, mmap_sync,
  read_at, mmap_io,
}
use ucu_de_distributed_algor.Io.File.Laws.{
  IsMapping, window, pages_apart, file_room, has_room, ensure_committed-Grown, read_run, page_kept,
}

module _ {M : Type 0} ⦃o : Mapping M⦄ (law : IsMapping o) where
  write_run :
      (s t : MmapPageIo M) (m : M) (id : PageId) (bytes : Bytes)
      → length bytes ≡ s.page_bytes
      → ensure_committed s (id * s.page_bytes + s.page_bytes) ≡ done t
      → id * s.page_bytes + length bytes ≤ o.mapped_len t.mapped
      → o.copy_in t.mapped (id * s.page_bytes) bytes ≡ done m
      → mmap_write_page s id bytes ≡ done (record t { mapped = m })
  unfolding mmap_write_page write_at
  write_run s t m id bytes len grown fits copied =
      let right : (length bytes == s.page_bytes) ≡ true = ground (arith, ==_self s.page_bytes) in
      rw (right, grown, le→leb _ _ fits, copied)

  -- The file's own pages are read through.
  same_room :
      (s t : MmapPageIo M)
      → t.page_bytes ≡ s.page_bytes
      → s.committed_len ≡ law.file_len s.mapped
      → t.committed_len ≡ law.file_len t.mapped
      → law.space t.mapped ≡ law.space s.mapped
      → o.mapped_len t.mapped ≡ o.mapped_len s.mapped
      → file_room law t ≡ file_room law s
  unfolding file_room
  same_room s t size whole whole' space mapped = rw (
    whole,
    whole',
    ==_self (law.file_len s.mapped),
    ==_self (law.file_len t.mapped),
    size,
    space,
    mapped,
  )

  -- On a backend whose file has the length that the code keeps, and that has room for the page: a
  -- write of a whole page returns. The page then reads as what was written, and every other page that
  -- could be read reads as before.
  pub mmap_read_page-mmap_write_page :
      (s : MmapPageIo M) (id : PageId) (bytes : Bytes)
      → id < file_room law s
      → length bytes ≡ s.page_bytes
      → (t : MmapPageIo M) × (mmap_write_page s id bytes ≡ done t)
        × (file_room law t ≡ file_room law s)
        × (t.page_bytes ≡ s.page_bytes)
        × (mmap_read_page t id ≡ done bytes)
        × ((j : PageId) → j ≢ id → Keeps s t j)
  mmap_read_page-mmap_write_page s id bytes inside len =
      let (whole, pos, space, mapped) = has_room law s id inside in
      let ps = s.page_bytes in
      let (u, grown, g) = ensure_committed-Grown law s (id * ps + ps) whole space mapped in
      let (m, copied, file_same, space_same, map_same, back, others) =
        law.into u.mapped (id * ps) bytes (omega (arith, len, g.enough))
          (omega (arith, len, g.same_map)) in
      let t : MmapPageIo M = record u { mapped = m } in
      let whole' : t.committed_len ≡ law.file_len t.mapped = g.whole ∙ sym file_same in
      let own =
        read_run law t id ps g.size (omega (arith, file_same, g.enough))
          (omega (arith, map_same, g.same_map)) in
      (
        t,
        write_run s u m id bytes len grown (omega (arith, len, g.same_map)) copied,
        same_room s t g.size whole whole' (space_same ∙ g.same_space) (map_same ∙ g.same_map),
        g.size,
        own ∙ ap done (ap (λ n. window (law.byte m) (id * ps) n) (sym len) ∙ back),
        λ j apart.
            page_kept law s t j ps refl g.size pos (omega (arith, file_same, g.no_shorter))
              (omega (arith, map_same, g.same_map))
              (λ i h low high.
                others i (rw len (pages_apart id j ps i apart low high)) ∙ g.same i h),
      )

  sync_run :
      (s : MmapPageIo M) (m : M)
      → o.flush s.mapped ≡ ok m
      → mmap_sync s ≡ done (record s { mapped = m })
  unfolding mmap_sync
  sync_run s m e = rw e

  pub mmap_sync-keeps :
      (s : MmapPageIo M)
      → (t : MmapPageIo M) × (mmap_sync s ≡ done t)
        × (file_room law t ≡ file_room law s)
        × (t.page_bytes ≡ s.page_bytes)
        × ((j : PageId) → Keeps s t j)
  unfolding mmap_read_page read_at file_room
  mmap_sync-keeps s =
      let (m, run, file_same, space_same, map_same, same) = law.flushed s.mapped in
      (
        record s { mapped = m },
        sync_run s m run,
        rw (file_same, space_same, map_same),
        refl,
        λ j old read. rw (map_same, same) read,
      )

  abbrev pub mmap_law : IsPageIo (mmap_io ⦃o = o⦄)
  mmap_law = record {
    room = file_room law;
    write = λ s id bytes h len. mmap_read_page-mmap_write_page s id bytes h len;
    flush = λ s. mmap_sync-keeps s;
  }
