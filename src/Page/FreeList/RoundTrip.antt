-- ===== src/Page/FreeList/RoundTrip.antt =====
-- A free-list page written and decoded again.
use ucu_de_distributed_algor.Prelude.{
  ℕ, ◌+◌, ◌-◌, ◌*◌, ◌/◌, ◌%◌, ◌≤◌, ◌<◌, ◌≡◌, refl, sym, ap, ◌∙◌, List, [], ◌∷◌, ◌++◌, append-nil,
  append_assoc, arith, le→leb, ==_self, length, replicate, All, length-append, done,
}
use ucu_de_distributed_algor.Bytes.{Bytes, to_le_bytes, index}
use ucu_de_distributed_algor.Bytes.Laws.{
  padded, length-padded, assign-padded, write_le-padded, length-snoc_le, read_le_at,
}
use ucu_de_distributed_algor.Bytes.Words.{length-to_le_bytes}
use ucu_de_distributed_algor.Page.Tags.{
  PageId, page_type_free_list, u16_mod, u64_mod, sub_checked, sub_checked_fits,
}
use ucu_de_distributed_algor.Page.FreeList.{
  free_list_header, free_list_capacity, write_ids, free_list_encode, read_ids, free_list_decode,
}

id_bytes : List PageId → Bytes
id_bytes [] = []
id_bytes (c ∷ cs) = to_le_bytes 8 c ++ id_bytes cs

length-id_bytes : (cs : List PageId) → length (id_bytes cs) ≡ 8 * length cs
unfolding id_bytes
length-id_bytes [] = refl
length-id_bytes (c ∷ cs) =
    rw (length-append (to_le_bytes 8 c) (id_bytes cs), length-to_le_bytes 8 c)
      (omega (arith, length-id_bytes cs))

write_ids-padded :
    (cs : List PageId) (ps : ℕ) (pre : Bytes) (a : ℕ)
    → length pre ≡ a
    → a + 8 * length cs ≤ ps
    → write_ids cs (padded ps pre) a ≡ done (padded ps (pre ++ id_bytes cs))
unfolding write_ids id_bytes
write_ids-padded [] ps pre a p h = ap (λ t. done (padded ps t)) (sym (append-nil pre))
write_ids-padded (c ∷ cs) ps pre a p h = rw (write_le-padded 8 c ps pre a p (omega arith)) (
    write_ids-padded cs ps (pre ++ to_le_bytes 8 c) (a + 8)
      (length-snoc_le 8 c pre a (a + 8) p refl) (omega arith)
    ∙ ap (λ t. done (padded ps t)) (append_assoc pre (to_le_bytes 8 c) (id_bytes cs)))

read_ids-id_bytes :
    (cs : List PageId) (whole pre zs : Bytes) (a : ℕ) (acc : List PageId)
    → whole ≡ pre ++ (id_bytes cs ++ zs)
    → length pre ≡ a
    → All (λ c. c < u64_mod) cs
    → read_ids (length cs) whole a acc ≡ done (acc ++ cs)
unfolding read_ids id_bytes
read_ids-id_bytes [] whole pre zs a acc w p ids = ap done (sym (append-nil acc))
read_ids-id_bytes (c ∷ cs) whole pre zs a acc w p ids =
    let cb = to_le_bytes 8 c in
    let at_id : whole ≡ pre ++ (cb ++ (id_bytes cs ++ zs)) = w ∙ simp append_assoc in
    let at_next : whole ≡ (pre ++ cb) ++ (id_bytes cs ++ zs) = w ∙ simp append_assoc in
    rw (read_le_at 8 c whole pre (id_bytes cs ++ zs) a at_id p (omega (arith, ids.0))) (
      read_ids-id_bytes cs whole (pre ++ cb) zs (a + 8) (acc ++ c ∷ []) at_next
        (length-snoc_le 8 c pre a (a + 8) p refl) ids.1
      ∙ ap done (append_assoc acc (c ∷ []) cs))

module _ (id next : PageId) (ids : List PageId) where
  tag_part : Bytes
  tag_part = page_type_free_list ∷ []

  up_to_next : Bytes
  up_to_next = tag_part ++ to_le_bytes 8 id

  up_to_count : Bytes
  up_to_count = up_to_next ++ to_le_bytes 8 next

  head : Bytes
  head = up_to_count ++ to_le_bytes 2 (length ids)

  content : Bytes
  content = head ++ id_bytes ids

  page : ℕ → Bytes
  page ps = padded ps content

  length-up_to_next : length up_to_next ≡ 9
  unfolding up_to_next tag_part
  length-up_to_next = length-snoc_le 8 id tag_part 1 9 refl refl

  length-up_to_count : length up_to_count ≡ 17
  unfolding up_to_count
  length-up_to_count = length-snoc_le 8 next up_to_next 9 17 length-up_to_next refl

  length-head : length head ≡ free_list_header
  unfolding head
  length-head =
      length-snoc_le 2 (length ids) up_to_count 17 free_list_header length-up_to_count refl

  length-content : length content ≡ free_list_header + 8 * length ids
  unfolding content
  length-content = rw (length-append head (id_bytes ids), length-head, length-id_bytes ids)

  module _ (ps : ℕ) (fits : free_list_header + 8 * length ids ≤ ps)
      (count_fits : length ids < u16_mod) where
    encode-page : free_list_encode id next ids ps ≡ done (page ps)
    unfolding free_list_encode free_list_capacity tag_part up_to_next up_to_count head content page
    encode-page =
        let count : length ids % u16_mod ≡ length ids = omega arith in
        rw
          (
            sub_checked_fits ps free_list_header (omega arith),
            le→leb (length ids) ((ps - free_list_header) / 8) (omega arith),
            assign-padded ps page_type_free_list (omega arith),
            write_le-padded 8 id ps tag_part 1 refl (omega arith),
            write_le-padded 8 next ps up_to_next 9 length-up_to_next (omega arith),
            count,
            write_le-padded 2 (length ids) ps up_to_count 17 length-up_to_count (omega arith),
          )
          (write_ids-padded ids ps head free_list_header length-head fits)

    padding : Bytes
    padding = replicate (ps - length content) 0

    at_ids : page ps ≡ head ++ (id_bytes ids ++ padding)
    unfolding page content padding
    at_ids = append_assoc head (id_bytes ids) padding

    at_count : page ps ≡ up_to_count ++ (to_le_bytes 2 (length ids) ++ (id_bytes ids ++ padding))
    unfolding head
    at_count = at_ids ∙ append_assoc up_to_count (to_le_bytes 2 (length ids)) _

    at_next :
        page ps
        ≡ up_to_next
          ++ (to_le_bytes 8 next ++ (to_le_bytes 2 (length ids) ++ (id_bytes ids ++ padding)))
    unfolding up_to_count
    at_next = at_count ∙ append_assoc up_to_next (to_le_bytes 8 next) _

    at_id :
        page ps
        ≡ tag_part
          ++ (to_le_bytes 8 id
              ++ (to_le_bytes 8 next ++ (to_le_bytes 2 (length ids) ++ (id_bytes ids ++ padding))))
    unfolding up_to_next
    at_id = at_next ∙ append_assoc tag_part (to_le_bytes 8 id) _

    length-page : length (page ps) ≡ ps
    unfolding page
    length-page = length-padded ps content (rw length-content fits)

    first_byte : index (page ps) 0 ≡ done page_type_free_list
    unfolding tag_part index
    first_byte = rw at_id

    decode-page :
        id < u64_mod
        → next < u64_mod
        → All (λ c. c < u64_mod) ids
        → free_list_decode id (page ps) ≡ done (next, ids)
    unfolding free_list_decode
    decode-page id_fits next_fits ids_fit = rw (
      first_byte,
      read_le_at 8 id (page ps) tag_part
          (to_le_bytes 8 next ++ (to_le_bytes 2 (length ids) ++ (id_bytes ids ++ padding))) 1 at_id
          (unfold tag_part in refl) (omega arith),
      ==_self id,
      read_le_at 8 next (page ps) up_to_next
          (to_le_bytes 2 (length ids) ++ (id_bytes ids ++ padding)) 9 at_next length-up_to_next
          (omega arith),
      read_le_at 2 (length ids) (page ps) up_to_count (id_bytes ids ++ padding) 17 at_count
          length-up_to_count (omega arith),
      read_ids-id_bytes ids (page ps) head padding free_list_header [] at_ids length-head ids_fit,
    )

capacity_room :
    (ps capacity : ℕ) → free_list_capacity ps ≡ done capacity → free_list_header + 8 * capacity ≤ ps
unfolding free_list_capacity sub_checked
capacity_room ps capacity cap = ground arith

-- A chunk of ids within the capacity of its page is written without panic as a page of exactly
-- that size, and decoding it under the same id gives the next id and the chunk back, in order.
pub free_list_decode-free_list_encode :
    (id next : PageId) (ids : List PageId) (ps capacity : ℕ)
    → free_list_capacity ps ≡ done capacity
    → length ids ≤ capacity
    → length ids < u16_mod
    → id < u64_mod
    → next < u64_mod
    → All (λ c. c < u64_mod) ids
    → (bytes : Bytes) × (free_list_encode id next ids ps ≡ done bytes)
      × (length bytes ≡ ps)
      × (free_list_decode id bytes ≡ done (next, ids))
free_list_decode-free_list_encode id next ids ps capacity cap within count_fits id_fits next_fits
      ids_fit =
    let fits = capacity_room ps capacity cap in
    let room : free_list_header + 8 * length ids ≤ ps = omega (arith, fits) in
    (
      page id next ids ps,
      encode-page id next ids ps room count_fits,
      length-page id next ids ps room count_fits,
      decode-page id next ids ps room count_fits id_fits next_fits ids_fit,
    )
