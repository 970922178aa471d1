-- ===== src/Io/File/Open.antt =====
-- Opening a page file: `open_with_max_size` of 01-btree/src/io/file_backend.rs.
use ucu_de_distributed_algor.Prelude.{
  ℕ, zero, suc, ◌+◌, ◌*◌, ◌/◌, ◌≤◌, ◌<◌, min, max, ◌≡◌, refl, sym, ap, ◌∙◌, inl, inr, map, arith,
  ◌==◌, le→leb, ==_self, Bool-cases, replicate, set, ok, done,
}
use ucu_de_distributed_algor.Page.Tags.{PageId}
use ucu_de_distributed_algor.Io.File.{
  mmap_io, Mapping, MmapPageIo, first_len, open_with_max_size, mmap_read_page,
}
use ucu_de_distributed_algor.Io.File.Laws.{IsMapping, window, file_room, read_run, page_kept}
use ucu_de_distributed_algor.Io.{Keeps}

window-zeros :
    (f : ℕ → ℕ) (off n : ℕ)
    → ((i : ℕ) → off ≤ i → i < off + n → f i ≡ 0)
    → window f off n ≡ replicate n 0
window-zeros f off zero h = refl
window-zeros f off (suc n) h = rw (
  h off (omega arith) (omega arith),
  window-zeros f (suc off) n (λ i a b. h i (omega arith) (omega arith)),
)

module _ {M : Type 0} ⦃o : Mapping M⦄ (law : IsMapping o) where
  -- The file behind its first growth.
  record Sized (n : ℕ) (m t : M) : Type 0 where
    len : law.file_len t ≡ n
    same_space : law.space t ≡ law.space m
    same : (i : ℕ) → i < law.file_len m → law.byte t i ≡ law.byte m i
    zeros : (i : ℕ) → law.file_len m ≤ i → i < n → law.byte t i ≡ 0

  first_len-Sized :
      (m : M) (n : ℕ)
      → law.file_len m ≤ n
      → n ≤ law.space m
      → (t : M) × (first_len m (law.file_len m) n ≡ ok t) × Sized n m t
  unfolding first_len
  first_len-Sized m n longer space = elim (Bool-cases (n == law.file_len m)) [
    | inl same ↦ (
      m,
      rw same,
      record {
        len = ground arith;
        same_space = refl;
        same = λ i h. refl;
        zeros = λ i a b. absurd (ground arith);
      },
    )
    | inr other ↦
        let (t, set, len, space', map, same, zeros) = law.grow m n longer space in
        (
          t,
          rw (other, set),
          record { len = len; same_space = space'; same = same; zeros = λ i a b. zeros i a },
        )
  ]

  open_run :
      (m t u : M) (ps max_size : ℕ)
      → first_len m (law.file_len m) (max (law.file_len m) ps) ≡ ok t
      → o.map_raw t (max max_size (max (law.file_len m) ps)) ≡ ok u
      → open_with_max_size (ok m) ps max_size
        ≡ ok (record { mapped = u; page_bytes = ps; committed_len = max (law.file_len m) ps })
  unfolding open_with_max_size
  open_run m t u ps max_size first mapped = rw (law.length_read m, first, mapped)

  sized_room :
      (io : MmapPageIo M)
      → io.committed_len ≡ law.file_len io.mapped
      → 1 ≤ io.page_bytes
      → file_room law io ≡ min (law.space io.mapped) (o.mapped_len io.mapped) / io.page_bytes
  unfolding file_room
  sized_room io whole pos = rw (whole, ==_self (law.file_len io.mapped), le→leb 1 io.page_bytes pos)

  -- On a file and a mapping that keep their laws, with pages of a byte or more, and where there is
  -- space for one page: opening the file returns a backend with this page size, with
  -- room for the pages that fit both the space and the reserved mapping. What an earlier backend on the
  -- file, of the same page size, could read is read as before; if the file was empty, the header page
  -- reads as zeros.
  pub open_with_max_size-returns :
      (m : M) (ps max_size : ℕ)
      → 1 ≤ ps
      → ps ≤ law.space m
      → (io : MmapPageIo M) × (open_with_max_size (ok m) ps max_size ≡ ok io)
        × (io.page_bytes ≡ ps)
        × (file_room law io ≡ min (law.space m) (max max_size (max (law.file_len m) ps)) / ps)
        × ((old : MmapPageIo M)
            → old.mapped ≡ m
            → old.page_bytes ≡ ps
            → (j : PageId) → Keeps old io j)
        × (law.file_len m ≡ 0 → mmap_read_page io 0 ≡ done (replicate ps 0))
  open_with_max_size-returns m ps max_size pos room =
      let n = max (law.file_len m) ps in
      let (t, first, sized) = first_len-Sized m n (omega arith) (omega (arith, law.fits m)) in
      let (u, mapped, file_same, space_same, len, same) = law.map t (max max_size n) in
      let io : MmapPageIo M = record { mapped = u; page_bytes = ps; committed_len = n } in
      let nowhere : 0 * ps ≡ 0 = grind arith in
      let whole : n ≡ law.file_len u = sym (file_same ∙ sized.len) in
      (
        io,
        open_run m t u ps max_size first mapped,
        refl,
        sized_room io whole pos ∙ rw (space_same, sized.same_space, len),
        λ old file size j.
            page_kept law old io j ps size refl pos
              (omega (arith, ap law.file_len file, file_same, sized.len))
              (omega (arith, ap law.file_len file, len))
              (λ i h low high.
                same i
                ∙ (sized.same i (omega (arith, ap law.file_len file, h))
                    ∙ ap (λ z. law.byte z i) (sym file))),
        λ empty.
            read_run law io 0 ps refl (omega (arith, nowhere, whole)) (omega (arith, nowhere, len))
            ∙ ap done (
                window-zeros (law.byte u) (0 * ps) ps
                  (λ i a b. same i ∙ sized.zeros i (omega arith) (omega (arith, nowhere)))),
      )
