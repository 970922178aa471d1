-- ===== src/Io/File/Laws.antt =====
-- A file and its mapping as their documentation describes them, and what the helpers of
-- 01-btree/src/io/file_backend.rs do on them.
use ucu_de_distributed_algor.Prelude.{
  ℕ, zero, suc, ◌+◌, ◌*◌, ◌/◌, ◌≤◌, ◌<◌, min, ◌≡◌, refl, sym, ap, ◌∙◌, ◌≢◌, ◌⊎◌, inl, inr, true,
  ◌&&◌, [], ◌∷◌, arith, ltb, leb, ◌==◌, if◌then◌else◌, le→leb, ltb→lt, leb→le, ltb_false→le,
  Bool-cases, length, set, ok, done, panic,
}
use native.Mathlib.Decide.{dec_le}
use native.Mathlib.Nat.{le-div_iff_mul-le}
use ucu_de_distributed_algor.Bytes.{Bytes}
use ucu_de_distributed_algor.Page.Tags.{PageId}
use ucu_de_distributed_algor.Io.{Keeps}
use ucu_de_distributed_algor.Io.File.{
  mmap_io, Mapping, MmapPageIo, ensure_committed, read_at, mmap_read_page,
}

-- The bytes from an offset on.
abbrev pub window : (ℕ → ℕ) → ℕ → ℕ → Bytes
window f off zero = []
window f off (suc n) = f off ∷ window f (suc off) n

pub window_cong :
    (f g : ℕ → ℕ) (off n : ℕ)
    → ((i : ℕ) → off ≤ i → i < off + n → f i ≡ g i)
    → window f off n ≡ window g off n
window_cong f g off zero h = refl
window_cong f g off (suc n) h = rw (
  h off (omega arith) (omega arith),
  window_cong f g (suc off) n (λ i a b. h i (omega arith) (omega arith)),
)

-- What the documentation says of them: a file fits the space there is; its length is read and it can be mapped; a
-- file grows by zeros up to the space there is; its bytes are
-- those of the mapping; a copy past the file's end does not return, one inside it does; a flush
-- returns.
pub record IsMapping {M : Type 0} (o : Mapping M) : Type 0 where
  pub file_len : M → ℕ
  pub space : M → ℕ
  pub byte : M → ℕ → ℕ
  pub fits : (m : M) → file_len m ≤ space m
  pub length_read : (m : M) → o.metadata_len m ≡ ok (file_len m)
  pub map :
      (m : M) (n : ℕ)
      → (t : M) × (o.map_raw m n ≡ ok t)
        × (file_len t ≡ file_len m)
        × (space t ≡ space m)
        × (o.mapped_len t ≡ n)
        × ((i : ℕ) → byte t i ≡ byte m i)
  pub grow :
      (m : M) (n : ℕ)
      → file_len m ≤ n
      → n ≤ space m
      → (t : M) × (o.set_len m n ≡ ok t)
        × (file_len t ≡ n)
        × (space t ≡ space m)
        × (o.mapped_len t ≡ o.mapped_len m)
        × ((i : ℕ) → i < file_len m → byte t i ≡ byte m i)
        × ((i : ℕ) → file_len m ≤ i → byte t i ≡ 0)
  pub out_of :
      (m : M) (off n : ℕ)
      → off + n ≤ file_len m
      → off + n ≤ o.mapped_len m
      → o.copy_out m off n ≡ done (window (byte m) off n)
  pub within :
      (m : M) (off n : ℕ) (bytes : Bytes)
      → 1 ≤ n
      → o.copy_out m off n ≡ done bytes
      → off + n ≤ file_len m
  pub into :
      (m : M) (off : ℕ) (bytes : Bytes)
      → off + length bytes ≤ file_len m
      → off + length bytes ≤ o.mapped_len m
      → (t : M) × (o.copy_in m off bytes ≡ done t)
        × (file_len t ≡ file_len m)
        × (space t ≡ space m)
        × (o.mapped_len t ≡ o.mapped_len m)
        × (window (byte t) off (length bytes) ≡ bytes)
        × ((i : ℕ) → (i < off) ⊎ (off + length bytes ≤ i) → byte t i ≡ byte m i)
  pub flushed :
      (m : M)
      → (t : M) × (o.flush m ≡ ok t)
        × (file_len t ≡ file_len m)
        × (space t ≡ space m)
        × (o.mapped_len t ≡ o.mapped_len m)
        × ((off n : ℕ) → o.copy_out t off n ≡ o.copy_out m off n)

-- Pages do not overlap.
pub pages_apart :
    (id j ps i : ℕ) → j ≢ id → j * ps ≤ i → i < j * ps + ps → (i < id * ps) ⊎ (id * ps + ps ≤ i)
pages_apart id j ps i n low high = elim (dec_le (suc j) id) [
  | yes before ↦
      let scaled : suc j * ps ≤ id * ps = grind arith in
      let spread : suc j * ps ≡ j * ps + ps = grind arith in inl (omega arith)
  | no later ↦
      let above : suc id ≤ j = omega arith in
      let scaled : suc id * ps ≤ j * ps = grind arith in
      let spread : suc id * ps ≡ id * ps + ps = grind arith in inr (omega arith)
]

-- A page below a number of whole pages ends within them.
page_ends : (id ps len : ℕ) → 1 ≤ ps → id < len / ps → id * ps + ps ≤ len
page_ends id ps len pos h =
    let scaled : suc id * ps ≤ len = (le-div_iff_mul-le pos).0 h in
    let spread : suc id * ps ≡ id * ps + ps = grind arith in omega arith

module _ {M : Type 0} ⦃o : Mapping M⦄ (law : IsMapping o) where
  -- The pages that there is room for, once the length that the code keeps is the file's.
  unfoldable pub file_room : MmapPageIo M → ℕ
  file_room io =
      if (io.committed_len == law.file_len io.mapped) && leb 1 io.page_bytes
      then min (law.space io.mapped) (o.mapped_len io.mapped) / io.page_bytes
      else 0

  pub has_room :
      (io : MmapPageIo M) (id : PageId)
      → id < file_room io
      → (io.committed_len ≡ law.file_len io.mapped)
        × (1 ≤ io.page_bytes)
        × (id * io.page_bytes + io.page_bytes ≤ law.space io.mapped)
        × (id * io.page_bytes + io.page_bytes ≤ o.mapped_len io.mapped)
  unfolding file_room
  has_room io id h =
      elim (Bool-cases ((io.committed_len == law.file_len io.mapped) && leb 1 io.page_bytes)) [
        | inl e ↦
            let inside : id < min (law.space io.mapped) (o.mapped_len io.mapped) / io.page_bytes =
              rw e at h in
            let whole : (io.committed_len ≡ law.file_len io.mapped) × (1 ≤ io.page_bytes) =
              both e in
            let ends =
              page_ends id io.page_bytes (min (law.space io.mapped) (o.mapped_len io.mapped))
                whole.1 inside in
            (whole.0, whole.1, omega arith, omega arith)
        | inr e ↦ let none_left : id < 0 = rw e at h in absurd (omega arith)
      ]
    where
      both :
          ((io.committed_len == law.file_len io.mapped) && leb 1 io.page_bytes) ≡ true
          → (io.committed_len ≡ law.file_len io.mapped) × (1 ≤ io.page_bytes)
      both e = (ground arith, ground arith)

  -- What `ensure_committed` leaves, with `needed` bytes of the file behind it.
  pub record Grown (needed : ℕ) (s t : MmapPageIo M) : Type 0 where
    pub size : t.page_bytes ≡ s.page_bytes
    pub whole : t.committed_len ≡ law.file_len t.mapped
    pub enough : needed ≤ law.file_len t.mapped
    pub same_space : law.space t.mapped ≡ law.space s.mapped
    pub same_map : o.mapped_len t.mapped ≡ o.mapped_len s.mapped
    pub no_shorter : law.file_len s.mapped ≤ law.file_len t.mapped
    pub same : (i : ℕ) → i < law.file_len s.mapped → law.byte t.mapped i ≡ law.byte s.mapped i

  pub ensure_committed-Grown :
      (s : MmapPageIo M) (needed : ℕ)
      → s.committed_len ≡ law.file_len s.mapped
      → needed ≤ law.space s.mapped
      → needed ≤ o.mapped_len s.mapped
      → (t : MmapPageIo M) × (ensure_committed s needed ≡ done t) × Grown needed s t
  unfolding ensure_committed
  ensure_committed-Grown s needed whole space mapped =
      elim (Bool-cases (ltb s.committed_len needed)) [
        | inl more ↦
            let longer = ltb→lt s.committed_len needed more in
            let (m, set, len, same_space, same_map, same, zeros) =
              law.grow s.mapped needed (omega arith) space in
            (
              record s { mapped = m; committed_len = needed },
              rw (more, le→leb needed (o.mapped_len s.mapped) mapped, set),
              record {
                size = refl;
                whole = sym len;
                enough = omega (arith, len);
                same_space = same_space;
                same_map = same_map;
                no_shorter = omega (arith, len);
                same = same;
              },
            )
        | inr enough ↦ (
          s,
          rw enough,
          record {
            size = refl;
            whole = whole;
            enough = omega (arith, ltb_false→le s.committed_len needed enough);
            same_space = refl;
            same_map = refl;
            no_shorter = omega arith;
            same = λ i h. refl;
          },
        )
      ]

  -- A page inside the file is read.
  pub read_run :
      (io : MmapPageIo M) (id ps : ℕ)
      → io.page_bytes ≡ ps
      → id * ps + ps ≤ law.file_len io.mapped
      → id * ps + ps ≤ o.mapped_len io.mapped
      → mmap_read_page io id ≡ done (window (law.byte io.mapped) (id * ps) ps)
  unfolding mmap_read_page read_at
  read_run io id ps size file mapped =
      rw (size, le→leb (id * ps + ps) (o.mapped_len io.mapped) mapped)
        (law.out_of io.mapped (id * ps) ps file mapped)

  -- A page that was read lies inside the file.
  pub read_in :
      (io : MmapPageIo M) (id ps : ℕ) (old : Bytes)
      → io.page_bytes ≡ ps
      → 1 ≤ ps
      → mmap_read_page io id ≡ done old
      → (id * ps + ps ≤ law.file_len io.mapped) × (id * ps + ps ≤ o.mapped_len io.mapped)
  unfolding mmap_read_page read_at
  read_in io id ps old size pos e =
      elim (Bool-cases (leb (id * ps + ps) (o.mapped_len io.mapped))) [
        | inl fits ↦
            let copied : o.copy_out io.mapped (id * ps) ps ≡ done old = rw (size, fits) at e in
            (law.within io.mapped (id * ps) ps old pos copied, leb→le _ _ fits)
        | inr past ↦ let never : panic ≡ done old = rw (size, past) at e in absurd (cc)
      ]

  -- A page whose bytes stay is read as before.
  pub page_kept :
      (s t : MmapPageIo M) (j ps : ℕ)
      → s.page_bytes ≡ ps
      → t.page_bytes ≡ ps
      → 1 ≤ ps
      → law.file_len s.mapped ≤ law.file_len t.mapped
      → min (law.file_len s.mapped) (o.mapped_len s.mapped) ≤ o.mapped_len t.mapped
      → ((i : ℕ)
          → i < law.file_len s.mapped
          → j * ps ≤ i
          → i < j * ps + ps
          → law.byte t.mapped i ≡ law.byte s.mapped i)
      → Keeps s t j
  page_kept s t j ps size size' pos longer mapped same old read =
      let (inside, reach) = read_in s j ps old size pos read in
      let before = read_run s j ps size inside reach in
      read_run t j ps size' (omega arith) (omega (arith, mapped))
      ∙ (ap done (
            window_cong (law.byte t.mapped) (law.byte s.mapped) (j * ps) ps
              (λ i low high. same i (omega arith) low high))
          ∙ (sym before ∙ read))
