-- ===== src/Page/Leaf/Codec.antt =====
-- A leaf written to a page and decoded again.
use ucu_de_distributed_algor.Prelude.{
  ℕ, ◌+◌, ◌-◌, ◌≤◌, ◌<◌, ◌≡◌, refl, sym, ap, ◌∙◌, List, [], ◌∷◌, ◌++◌, append-nil, append_assoc,
  arith, le→leb, ==_self, length, replicate, length-append, take-append, done,
}
use ucu_de_distributed_algor.Bytes.{Bytes, to_le_bytes, index, slice}
use ucu_de_distributed_algor.Bytes.Laws.{
  padded, length-padded, copy_padded, assign-padded, write_le-padded, length-snoc_le, read_le_at,
  slice_at,
}
use ucu_de_distributed_algor.Bytes.Words.{length-to_le_bytes}
use mathlib.Core.Path.{ap₂}
use ucu_de_distributed_algor.Page.Tags.{PageId, page_type_leaf, u16_mod, u64_mod, add_u16_fits}
use ucu_de_distributed_algor.Page.Leaf.{leaf_header, decode_loop, decode, to_bytes}
use ucu_de_distributed_algor.Page.Leaf.View.{
  Entry, size, total, encode, encode_all, starts, leaf_of, IsSmall, length-encode,
  length-encode_all, nkeys-leaf_of, nbytes-leaf_of, length-le-total,
}

-- The offsets behind the first.
ends : ℕ → List Entry → List ℕ
ends b [] = []
ends b (e ∷ es) = (b + size e) ∷ ends (b + size e) es

starts-ends : (b : ℕ) (es : List Entry) → starts b es ≡ b ∷ ends b es
unfolding starts ends
starts-ends b [] = refl
starts-ends b (e ∷ es) = ap (λ t. b ∷ t) (starts-ends (b + size e) es)

-- The loop walks the encoded entries, behind any prefix and in front of any padding.
decode_loop-encode_all :
    (es : List Entry) (whole pre zs : Bytes) (b : ℕ) (acc : List ℕ)
    → whole ≡ pre ++ (encode_all es ++ zs)
    → length pre ≡ b
    → b + total es < u16_mod
    → decode_loop (length es) whole b acc ≡ done (b + total es, acc ++ ends b es)
unfolding decode_loop encode_all encode ends
decode_loop-encode_all [] whole pre zs b acc w p fits =
    let end : b ≡ b + 0 = omega arith in rw (← end) (ap (λ t. done (b, t)) (sym (append-nil acc)))
decode_loop-encode_all (e ∷ es) whole pre zs b acc w p fits =
    let more : Bytes = encode_all es ++ zs in
    let kb = to_le_bytes 2 (length e.0) in
    let vb = to_le_bytes 2 (length e.1) in
    let at_klen : whole ≡ pre ++ (kb ++ (e.0 ++ (vb ++ (e.1 ++ more)))) = w ∙ simp append_assoc in
    let at_vlen : whole ≡ ((pre ++ kb) ++ e.0) ++ (vb ++ (e.1 ++ more)) = w ∙ simp append_assoc in
    let at_next : whole ≡ (pre ++ encode e) ++ more = w ∙ simp append_assoc in
    let len_key : length ((pre ++ kb) ++ e.0) ≡ b + 2 + length e.0 =
      rw (
        length-append (pre ++ kb) e.0,
        length-append pre kb,
        length-to_le_bytes 2 (length e.0),
        p,
      ) in
    let len_next : length (pre ++ encode e) ≡ b + size e =
      rw (length-append pre (encode e), p) (ap (λ n. b + n) (length-encode e)) in
    let end : b + size e + total es ≡ b + (size e + total es) = omega arith in
    let run =
      decode_loop-encode_all es whole (pre ++ encode e) zs (b + size e) (acc ++ ((b + size e) ∷ []))
        at_next len_next (omega arith) in
    rw
      (
        read_le_at 2 (length e.0) whole pre (e.0 ++ (vb ++ (e.1 ++ more))) b at_klen p
            (omega arith),
        read_le_at 2 (length e.1) whole ((pre ++ kb) ++ e.0) (e.1 ++ more) (b + 2 + length e.0)
            at_vlen len_key (omega arith),
        add_u16_fits 4 (length e.0) (omega arith),
        add_u16_fits (4 + length e.0) (length e.1) (omega arith),
        add_u16_fits b (size e) (omega arith),
      )
      (run
        ∙ ap₂ (λ n t. done (n, t)) end
            (append_assoc acc ((b + size e) ∷ []) (ends (b + size e) es)))

-- The bytes in front of the entries.
module _ (id : PageId) (es : List Entry) where
  tag_part : Bytes
  tag_part = page_type_leaf ∷ []

  up_to_count : Bytes
  up_to_count = tag_part ++ to_le_bytes 8 id

  head : Bytes
  head = up_to_count ++ to_le_bytes 2 (length es)

  length-up_to_count : length up_to_count ≡ 9
  unfolding up_to_count tag_part
  length-up_to_count = length-snoc_le 8 id tag_part 1 9 refl refl

  length-head : length head ≡ leaf_header
  unfolding head
  length-head = length-snoc_le 2 (length es) up_to_count 9 leaf_header length-up_to_count refl

  page : ℕ → Bytes
  page ps = padded ps (head ++ encode_all es)

  length-content : length (head ++ encode_all es) ≡ leaf_header + total es
  length-content = rw (length-append head (encode_all es), length-head, length-encode_all es)

  entries_of : (old : PageId) → (leaf_of old es).entries ≡ encode_all es
  unfolding leaf_of
  entries_of old = refl

  to_bytes-page :
      (old : PageId) (ps : ℕ)
      → IsSmall es
      → leaf_header + total es ≤ ps
      → to_bytes (leaf_of old es) id ps ≡ done (page ps)
  unfolding to_bytes tag_part up_to_count head page
  to_bytes-page old ps small fits = rw (
    nbytes-leaf_of old es,
    le→leb (leaf_header + total es) ps fits,
    assign-padded ps page_type_leaf (omega arith),
    write_le-padded 8 id ps tag_part 1 refl (omega arith),
    nkeys-leaf_of old es small,
    write_le-padded 2 (length es) ps up_to_count 9 length-up_to_count (omega arith),
    entries_of old,
    copy_padded ps head (encode_all es) leaf_header (leaf_header + length (encode_all es))
        length-head refl (omega (arith, length-encode_all es)),
  )

  module _ (ps : ℕ) (small : IsSmall es) (fits : leaf_header + total es ≤ ps) where
    padding : Bytes
    padding = replicate (ps - length (head ++ encode_all es)) 0

    at_entries : page ps ≡ head ++ (encode_all es ++ padding)
    unfolding page padding
    at_entries = append_assoc head (encode_all es) padding

    at_count : page ps ≡ up_to_count ++ (to_le_bytes 2 (length es) ++ (encode_all es ++ padding))
    unfolding head
    at_count =
        at_entries ∙ append_assoc up_to_count (to_le_bytes 2 (length es)) (encode_all es ++ padding)

    at_id :
        page ps
        ≡ tag_part
          ++ (to_le_bytes 8 id ++ (to_le_bytes 2 (length es) ++ (encode_all es ++ padding)))
    unfolding up_to_count
    at_id = at_count ∙ append_assoc tag_part (to_le_bytes 8 id) _

    length-page : length (page ps) ≡ ps
    unfolding page
    length-page = length-padded ps (head ++ encode_all es) (rw length-content fits)

    first_byte : index (page ps) 0 ≡ done page_type_leaf
    unfolding tag_part index
    first_byte = rw at_id

    entries_slice : slice (page ps) leaf_header (length (page ps)) ≡ done (encode_all es ++ padding)
    entries_slice =
        slice_at (page ps) head (encode_all es ++ padding) [] leaf_header (length (page ps))
          (at_entries ∙ ap (λ t. head ++ t) (sym (append-nil (encode_all es ++ padding))))
          length-head
          (sym (
            ap length at_entries ∙ rw (length-append head (encode_all es ++ padding), length-head)))

    decode-page : id < u64_mod → decode id (page ps) ≡ done (leaf_of id es)
    unfolding decode
    decode-page id_fits =
        rw
          (
            first_byte,
            read_le_at 8 id (page ps) tag_part
                (to_le_bytes 2 (length es) ++ (encode_all es ++ padding)) 1 at_id
                (unfold tag_part in refl) (omega arith),
            ==_self id,
            read_le_at 2 (length es) (page ps) up_to_count (encode_all es ++ padding) 9 at_count
                length-up_to_count (omega (arith, length-le-total es)),
            entries_slice,
            decode_loop-encode_all es (encode_all es ++ padding) [] padding 0 (0 ∷ []) refl refl
                (omega arith),
          )
          (unfold leaf_of in
            ap₂ (λ b t. done (record { id = id; entries = b; entry_start = t }))
              (take-append (encode_all es) padding (0 + total es)
                (omega (arith, length-encode_all es)))
              (sym (starts-ends 0 es)))

-- A leaf that fits its page is written without panic as a page of exactly that size, and decoding
-- the page under the same id gives the entries back, under that id.
pub decode-to_bytes-leaf_of :
    (old id : PageId) (es : List Entry) (ps : ℕ)
    → id < u64_mod
    → IsSmall es
    → leaf_header + total es ≤ ps
    → (bytes : Bytes) × (to_bytes (leaf_of old es) id ps ≡ done bytes)
      × (length bytes ≡ ps)
      × (index bytes 0 ≡ done page_type_leaf)
      × (decode id bytes ≡ done (leaf_of id es))
decode-to_bytes-leaf_of old id es ps id_fits small fits = (
  page id es ps,
  to_bytes-page id es old ps small fits,
  length-page id es ps small fits,
  first_byte id es ps small fits,
  decode-page id es ps small fits id_fits,
)
