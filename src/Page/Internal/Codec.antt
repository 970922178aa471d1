-- ===== src/Page/Internal/Codec.antt =====
-- An internal page written and decoded again.
use ucu_de_distributed_algor.Prelude.{
  ℕ, suc, ◌+◌, ◌-◌, ◌*◌, ◌%◌, ◌≤◌, ◌<◌, ◌≡◌, refl, sym, ap, ◌∙◌, true, List, [], ◌∷◌, ◌++◌,
  append-nil, append_assoc, arith, ◌==◌, le→leb, ==_self, length, replicate, All, length-append,
  done,
}
use ucu_de_distributed_algor.Bytes.{Bytes, to_le_bytes, index}
use ucu_de_distributed_algor.Bytes.Laws.{
  padded, length-padded, copy_padded, assign-padded, write_le-padded, length-snoc_le, read_le_at,
  slice_at,
}
use ucu_de_distributed_algor.Bytes.Words.{length-to_le_bytes}
use mathlib.Core.Path.{ap₂}
use native.Mathlib.Numerals.{add-one}
use ucu_de_distributed_algor.Page.Tags.{PageId, page_type_internal, u16_mod, u64_mod}
use ucu_de_distributed_algor.Page.Internal.{
  internal_header, decode_keys, decode_children, decode, write_children, to_bytes,
}
use ucu_de_distributed_algor.Page.Internal.View.{
  size, total, encode, encode_all, starts, node_of, IsSmall, length-encode, length-encode_all,
  nkeys-node_of, nbytes-node_of, length-le-total,
}

-- The offsets behind the first.
ends : ℕ → List Bytes → List ℕ
ends b [] = []
ends b (k ∷ ks) = (b + size k) ∷ ends (b + size k) ks

starts-ends : (b : ℕ) (ks : List Bytes) → starts b ks ≡ b ∷ ends b ks
unfolding starts ends
starts-ends b [] = refl
starts-ends b (k ∷ ks) = ap (λ t. b ∷ t) (starts-ends (b + size k) ks)

decode_keys-encode_all :
    (ks : List Bytes) (whole pre zs : Bytes) (b pos : ℕ) (acc : List ℕ)
    → whole ≡ pre ++ (encode_all ks ++ zs)
    → length pre ≡ pos
    → pos ≡ internal_header + b
    → b + total ks < u16_mod
    → decode_keys (length ks) whole pos acc ≡ done (pos + total ks, acc ++ ends b ks)
unfolding decode_keys encode_all encode ends
decode_keys-encode_all [] whole pre zs b pos acc w p at fits =
    let end : pos ≡ pos + 0 = omega arith in ap₂ (λ n t. done (n, t)) end (sym (append-nil acc))
decode_keys-encode_all (k ∷ ks) whole pre zs b pos acc w p at fits =
    let kb = to_le_bytes 2 (length k) in
    let more : Bytes = encode_all ks ++ zs in
    let at_klen : whole ≡ pre ++ (kb ++ (k ++ more)) = w ∙ simp append_assoc in
    let at_next : whole ≡ (pre ++ encode k) ++ more = w ∙ simp append_assoc in
    let len_next : length (pre ++ encode k) ≡ pos + size k =
      rw (length-append pre (encode k), p) (ap (λ n. pos + n) (length-encode k)) in
    let offset : (pos + size k - internal_header) % u16_mod ≡ b + size k = omega arith in
    let end : pos + size k + total ks ≡ pos + (size k + total ks) = omega arith in
    let run =
      decode_keys-encode_all ks whole (pre ++ encode k) zs (b + size k) (pos + size k)
        (acc ++ ((b + size k) ∷ [])) at_next len_next (omega arith) (omega arith) in
    rw (read_le_at 2 (length k) whole pre (k ++ more) pos at_klen p (omega arith), offset)
      (run
        ∙ ap₂ (λ n t. done (n, t)) end
            (append_assoc acc ((b + size k) ∷ []) (ends (b + size k) ks)))

child_bytes : List PageId → Bytes
child_bytes [] = []
child_bytes (c ∷ cs) = to_le_bytes 8 c ++ child_bytes cs

length-child_bytes : (cs : List PageId) → length (child_bytes cs) ≡ 8 * length cs
unfolding child_bytes
length-child_bytes [] = refl
length-child_bytes (c ∷ cs) =
    rw (length-append (to_le_bytes 8 c) (child_bytes cs), length-to_le_bytes 8 c)
      (omega (arith, length-child_bytes cs))

write_children-padded :
    (cs : List PageId) (ps : ℕ) (pre : Bytes) (a : ℕ)
    → length pre ≡ a
    → a + 8 * length cs ≤ ps
    → write_children cs (padded ps pre) a ≡ done (padded ps (pre ++ child_bytes cs))
unfolding write_children child_bytes
write_children-padded [] ps pre a p h = ap (λ t. done (padded ps t)) (sym (append-nil pre))
write_children-padded (c ∷ cs) ps pre a p h = rw (write_le-padded 8 c ps pre a p (omega arith)) (
    write_children-padded cs ps (pre ++ to_le_bytes 8 c) (a + 8)
      (length-snoc_le 8 c pre a (a + 8) p refl) (omega arith)
    ∙ ap (λ t. done (padded ps t)) (append_assoc pre (to_le_bytes 8 c) (child_bytes cs)))

-- Every child is a `u64`.
abbrev pub AreIds : List PageId → Type 0
AreIds cs = All (λ c. c < u64_mod) cs

decode_children-child_bytes :
    (cs : List PageId) (whole pre zs : Bytes) (a : ℕ) (acc : List PageId)
    → whole ≡ pre ++ (child_bytes cs ++ zs)
    → length pre ≡ a
    → AreIds cs
    → decode_children (length cs) whole a acc ≡ done (acc ++ cs)
unfolding decode_children child_bytes
decode_children-child_bytes [] whole pre zs a acc w p ids = ap done (sym (append-nil acc))
decode_children-child_bytes (c ∷ cs) whole pre zs a acc w p ids =
    let cb = to_le_bytes 8 c in
    let at_child : whole ≡ pre ++ (cb ++ (child_bytes cs ++ zs)) = w ∙ simp append_assoc in
    let at_next : whole ≡ (pre ++ cb) ++ (child_bytes cs ++ zs) = w ∙ simp append_assoc in
    rw (read_le_at 8 c whole pre (child_bytes cs ++ zs) a at_child p (omega (arith, ids.0))) (
      decode_children-child_bytes cs whole (pre ++ cb) zs (a + 8) (acc ++ c ∷ []) at_next
        (length-snoc_le 8 c pre a (a + 8) p refl) ids.1
      ∙ ap done (append_assoc acc (c ∷ []) cs))

module _ (id : PageId) (ks : List Bytes) (cs : List PageId) where
  tag_part : Bytes
  tag_part = page_type_internal ∷ []

  up_to_count : Bytes
  up_to_count = tag_part ++ to_le_bytes 8 id

  head : Bytes
  head = up_to_count ++ to_le_bytes 2 (length ks)

  up_to_children : Bytes
  up_to_children = head ++ encode_all ks

  content : Bytes
  content = up_to_children ++ child_bytes cs

  page : ℕ → Bytes
  page ps = padded ps content

  length-up_to_count : length up_to_count ≡ 9
  unfolding up_to_count tag_part
  length-up_to_count = length-snoc_le 8 id tag_part 1 9 refl refl

  length-head : length head ≡ internal_header
  unfolding head
  length-head = length-snoc_le 2 (length ks) up_to_count 9 internal_header length-up_to_count refl

  length-up_to_children : length up_to_children ≡ internal_header + total ks
  unfolding up_to_children
  length-up_to_children = rw (length-append head (encode_all ks), length-head, length-encode_all ks)

  length-content : length content ≡ internal_header + total ks + 8 * length cs
  unfolding content
  length-content =
      rw (
        length-append up_to_children (child_bytes cs),
        length-up_to_children,
        length-child_bytes cs,
      )

  parts_of :
      (old : PageId)
      → ((node_of old ks cs).keys ≡ encode_all ks) × ((node_of old ks cs).children ≡ cs)
  unfolding node_of
  parts_of old = (refl, refl)

  to_bytes-page :
      (old : PageId) (ps : ℕ)
      → IsSmall ks
      → length cs ≡ suc (length ks)
      → internal_header + total ks + 8 * length cs ≤ ps
      → to_bytes (node_of old ks cs) id ps ≡ done (page ps)
  unfolding to_bytes tag_part up_to_count head up_to_children content page
  to_bytes-page old ps small l fits =
      let count : (length cs == length ks + 1) ≡ true =
        rw (l, add-one (length ks)) (==_self (suc (length ks))) in
      rw
        (
          nbytes-node_of old ks cs,
          le→leb (internal_header + total ks + 8 * length cs) ps fits,
          nkeys-node_of old ks cs small,
          (parts_of old).0,
          (parts_of old).1,
          count,
          assign-padded ps page_type_internal (omega arith),
          write_le-padded 8 id ps tag_part 1 refl (omega arith),
          write_le-padded 2 (length ks) ps up_to_count 9 length-up_to_count (omega arith),
          copy_padded ps head (encode_all ks) internal_header
              (internal_header + length (encode_all ks)) length-head refl
              (omega (arith, length-encode_all ks)),
        )
        (write_children-padded cs ps (head ++ encode_all ks)
          (internal_header + length (encode_all ks))
          (rw (length-append head (encode_all ks), length-head))
          (omega (arith, length-encode_all ks)))

  module _ (ps : ℕ) (small : IsSmall ks) (l : length cs ≡ suc (length ks))
      (fits : internal_header + total ks + 8 * length cs ≤ ps) where
    padding : Bytes
    padding = replicate (ps - length content) 0

    at_children : page ps ≡ up_to_children ++ (child_bytes cs ++ padding)
    unfolding page content padding
    at_children = append_assoc up_to_children (child_bytes cs) padding

    at_keys : page ps ≡ head ++ (encode_all ks ++ (child_bytes cs ++ padding))
    unfolding up_to_children
    at_keys = at_children ∙ append_assoc head (encode_all ks) (child_bytes cs ++ padding)

    at_count :
        page ps
        ≡ up_to_count
          ++ (to_le_bytes 2 (length ks) ++ (encode_all ks ++ (child_bytes cs ++ padding)))
    unfolding head
    at_count = at_keys ∙ append_assoc up_to_count (to_le_bytes 2 (length ks)) _

    at_id :
        page ps
        ≡ tag_part
          ++ (to_le_bytes 8 id
              ++ (to_le_bytes 2 (length ks) ++ (encode_all ks ++ (child_bytes cs ++ padding))))
    unfolding up_to_count
    at_id = at_count ∙ append_assoc tag_part (to_le_bytes 8 id) _

    length-page : length (page ps) ≡ ps
    unfolding page
    length-page = length-padded ps content (rw length-content fits)

    first_byte : index (page ps) 0 ≡ done page_type_internal
    unfolding tag_part index
    first_byte = rw at_id

    children_read :
        AreIds cs
        → decode_children (suc (length ks)) (page ps) (internal_header + total ks) [] ≡ done cs
    children_read ids = rw (← l) (
        decode_children-child_bytes cs (page ps) up_to_children padding (internal_header + total ks)
          [] at_children length-up_to_children ids)

    decode-page : id < u64_mod → AreIds cs → decode id (page ps) ≡ done (node_of id ks cs)
    unfolding decode
    decode-page id_fits ids =
        rw
          (
            first_byte,
            read_le_at 8 id (page ps) tag_part
                (to_le_bytes 2 (length ks) ++ (encode_all ks ++ (child_bytes cs ++ padding))) 1
                at_id (unfold tag_part in refl) (omega arith),
            ==_self id,
            read_le_at 2 (length ks) (page ps) up_to_count
                (encode_all ks ++ (child_bytes cs ++ padding)) 9 at_count length-up_to_count
                (omega (arith, length-le-total ks)),
            decode_keys-encode_all ks (page ps) head (child_bytes cs ++ padding) 0 internal_header
                (0 ∷ []) at_keys length-head refl (omega arith),
            slice_at (page ps) head (encode_all ks) (child_bytes cs ++ padding) internal_header
                (internal_header + total ks) at_keys length-head
                (omega (arith, length-encode_all ks)),
            children_read ids,
          )
          (unfold node_of in
            ap (λ t. done (record { id = id; keys = encode_all ks; key_start = t; children = cs }))
              (sym (starts-ends 0 ks)))

-- An internal node with one child more than keys, that fits its page, is written without panic as
-- a page of exactly that size, and decoding the page under the same id gives the keys and the
-- children back, under that id.
pub decode-to_bytes-node_of :
    (old id : PageId) (ks : List Bytes) (cs : List PageId) (ps : ℕ)
    → id < u64_mod
    → AreIds cs
    → IsSmall ks
    → length cs ≡ suc (length ks)
    → internal_header + total ks + 8 * length cs ≤ ps
    → (bytes : Bytes) × (to_bytes (node_of old ks cs) id ps ≡ done bytes)
      × (length bytes ≡ ps)
      × (index bytes 0 ≡ done page_type_internal)
      × (decode id bytes ≡ done (node_of id ks cs))
decode-to_bytes-node_of old id ks cs ps id_fits ids small l fits = (
  page id ks cs ps,
  to_bytes-page id ks cs old ps small l fits,
  length-page id ks cs ps small l fits,
  first_byte id ks cs ps small l fits,
  decode-page id ks cs ps small l fits id_fits ids,
)
