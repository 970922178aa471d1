-- ===== src/Bytes/Laws.antt =====
-- Reading and writing ranges of a buffer that is known as a concatenation.
use ucu_de_distributed_algor.Prelude.{
  ℕ, zero, suc, ◌+◌, ◌-◌, ◌^◌, ◌≤◌, ◌<◌, ◌≡◌, sym, ap, some, List, [], ◌∷◌, ◌++◌, append_assoc,
  arith, lt→ltb, le→leb, ==_self, length, get_elem?, take, drop, replicate, length-append,
  length-replicate, take-append, drop-append, drop_past, replicate_cong, drop-replicate, done,
}
use ucu_de_distributed_algor.Bytes.{
  Bytes, to_le_bytes, read_le, write_le, assign, index, slice, copy_from_slice,
}
use ucu_de_distributed_algor.Bytes.Words.{length-to_le_bytes, from_le_bytes-to_le_bytes}

module _ {ℓ} {A : Type ℓ} where
  pub slice_in :
      (xs : List A) (a b : ℕ)
      → a ≤ b
      → b ≤ length xs
      → slice xs a b ≡ done (take (b - a) (drop a xs))
  unfolding slice
  slice_in xs a b p q = rw (le→leb a b p, le→leb b (length xs) q)

  -- The middle of three parts.
  pub slice_mid :
      (pre mid post : List A) (a b : ℕ)
      → length pre ≡ a
      → a + length mid ≡ b
      → slice (pre ++ (mid ++ post)) a b ≡ done mid
  slice_mid pre mid post a b p q =
      rw
        (
          slice_in (pre ++ (mid ++ post)) a b (omega arith)
              (rw (length-append pre (mid ++ post), length-append mid post) (omega arith)),
          drop-append pre (mid ++ post) a p,
        )
        (ap done (take-append mid post (b - a) (omega arith)))

  pub index-some : (xs : List A) (i : ℕ) {x : A} → get_elem? xs i ≡ some x → index xs i ≡ done x
  unfolding index
  index-some xs i h = rw h

  pub copy_in :
      (buf : List A) (a b : ℕ) (src : List A)
      → b ≤ length buf
      → a + length src ≡ b
      → copy_from_slice buf a b src ≡ done (take a buf ++ (src ++ drop b buf))
  unfolding copy_from_slice
  copy_in buf a b src q h =
      let e : b - a ≡ length src = omega arith in
      rw (le→leb a b (omega arith), le→leb b (length buf) q, e, ==_self (length src))

-- A page of `ps` bytes: what is written, and zeros behind it.
abbrev pub padded : ℕ → Bytes → Bytes
padded ps pre = pre ++ replicate (ps - length pre) 0

pub length-padded : (ps : ℕ) (pre : Bytes) → length pre ≤ ps → length (padded ps pre) ≡ ps
length-padded ps pre h =
    rw (length-append pre (replicate (ps - length pre) 0), length-replicate {A = ℕ}) (omega arith)

-- The next field goes right behind what is written.
pub copy_padded :
    (ps : ℕ) (pre src : Bytes) (a b : ℕ)
    → length pre ≡ a
    → a + length src ≡ b
    → b ≤ ps
    → copy_from_slice (padded ps pre) a b src ≡ done (padded ps (pre ++ src))
copy_padded ps pre src a b p q r =
    let zs : Bytes = replicate (ps - length pre) 0 in
    let left : ps - length pre - length src ≡ ps - length (pre ++ src) =
      rw (length-append pre src) (omega arith) in
    rw
      (
        copy_in (pre ++ zs) a b src (rw (length-padded ps pre (omega arith)) r) q,
        take-append pre zs a p,
        drop_past pre zs b (length src) (omega arith),
        drop-replicate {A = ℕ} (length src) (ps - length pre) 0,
        left,
      )
      (ap done (sym (append_assoc pre src (replicate (ps - length (pre ++ src)) 0))))

pub assign-padded : (ps v : ℕ) → 1 ≤ ps → assign (replicate ps 0) 0 v ≡ done (padded ps (v ∷ []))
unfolding assign
assign-padded zero v h = absurd (omega arith)
assign-padded (suc n) v h =
    rw (lt→ltb 0 (suc (length (replicate {A = ℕ} n 0))) (omega arith))
      (ap (λ t. done (v ∷ t)) (replicate_cong n (suc n - 1) 0 (omega arith)))

pub write_le-padded :
    (w v ps : ℕ) (pre : Bytes) (a : ℕ)
    → length pre ≡ a
    → a + w ≤ ps
    → write_le w (padded ps pre) a v ≡ done (padded ps (pre ++ to_le_bytes w v))
unfolding write_le
write_le-padded w v ps pre a p q =
    copy_padded ps pre (to_le_bytes w v) a (a + w) p (rw (length-to_le_bytes w v)) q

pub length-snoc_le :
    (w v : ℕ) (pre : Bytes) (a b : ℕ)
    → length pre ≡ a
    → a + w ≡ b
    → length (pre ++ to_le_bytes w v) ≡ b
length-snoc_le w v pre a b p q =
    rw (length-append pre (to_le_bytes w v), length-to_le_bytes w v, p) q

-- An integer that stands at `a` in a known buffer is read there.
pub read_le_at :
    (w v : ℕ) (whole pre post : Bytes) (a : ℕ)
    → whole ≡ pre ++ (to_le_bytes w v ++ post)
    → length pre ≡ a
    → v < 256 ^ w
    → read_le w whole a ≡ done v
unfolding read_le
read_le_at w v whole pre post a e p fits = rw (
  e,
  slice_mid pre (to_le_bytes w v) post a (a + w) p (rw (length-to_le_bytes w v)),
  from_le_bytes-to_le_bytes w v fits,
)

pub slice_at {ℓ} :
    {A : Type ℓ} (whole pre mid post : List A) (a b : ℕ)
    → whole ≡ pre ++ (mid ++ post)
    → length pre ≡ a
    → a + length mid ≡ b
    → slice whole a b ≡ done mid
slice_at whole pre mid post a b e p q = rw e (slice_mid pre mid post a b p q)
