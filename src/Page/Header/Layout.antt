-- ===== src/Page/Header/Layout.antt =====
-- The bytes that `to_bytes` writes in front of the padding, field by field.
use ucu_de_distributed_algor.Prelude.{ℕ, ◌%◌, ◌≤◌, ◌≡◌, refl, [], ◌∷◌, ◌++◌, arith, length, done}
use ucu_de_distributed_algor.Bytes.{Bytes, to_le_bytes}
use ucu_de_distributed_algor.Bytes.Laws.{
  padded, copy_padded, assign-padded, write_le-padded, length-snoc_le,
}
use ucu_de_distributed_algor.Page.Tags.{page_type_header, u32_mod}
use ucu_de_distributed_algor.Page.Header.{Header, format_signature, version, to_bytes}

-- The bytes in front of the padding, for any version number.
module _ (v : ℕ) (h : Header) where
  unfoldable pub tag_part : Bytes
  tag_part = page_type_header ∷ []

  unfoldable pub up_to_version : Bytes
  up_to_version = tag_part ++ format_signature

  unfoldable pub up_to_page_size : Bytes
  up_to_page_size = up_to_version ++ to_le_bytes 4 v

  unfoldable pub up_to_root_id : Bytes
  up_to_root_id = up_to_page_size ++ to_le_bytes 4 (h.page_size % u32_mod)

  unfoldable pub up_to_next_page_id : Bytes
  up_to_next_page_id = up_to_root_id ++ to_le_bytes 8 h.root_id

  unfoldable pub up_to_free_list_head : Bytes
  up_to_free_list_head = up_to_next_page_id ++ to_le_bytes 8 h.next_page_id

  unfoldable pub up_to_free_count : Bytes
  up_to_free_count = up_to_free_list_head ++ to_le_bytes 8 h.free_list_head

  unfoldable pub layout : Bytes
  layout = up_to_free_count ++ to_le_bytes 8 h.free_count

  pub length-up_to_version : length up_to_version ≡ 9
  unfolding tag_part up_to_version
  length-up_to_version = refl

  pub length-up_to_page_size : length up_to_page_size ≡ 13
  unfolding up_to_page_size
  length-up_to_page_size = length-snoc_le 4 v up_to_version 9 13 length-up_to_version refl

  pub length-up_to_root_id : length up_to_root_id ≡ 17
  unfolding up_to_root_id
  length-up_to_root_id =
      length-snoc_le 4 (h.page_size % u32_mod) up_to_page_size 13 17 length-up_to_page_size refl

  pub length-up_to_next_page_id : length up_to_next_page_id ≡ 25
  unfolding up_to_next_page_id
  length-up_to_next_page_id =
      length-snoc_le 8 h.root_id up_to_root_id 17 25 length-up_to_root_id refl

  pub length-up_to_free_list_head : length up_to_free_list_head ≡ 33
  unfolding up_to_free_list_head
  length-up_to_free_list_head =
      length-snoc_le 8 h.next_page_id up_to_next_page_id 25 33 length-up_to_next_page_id refl

  pub length-up_to_free_count : length up_to_free_count ≡ 41
  unfolding up_to_free_count
  length-up_to_free_count =
      length-snoc_le 8 h.free_list_head up_to_free_list_head 33 41 length-up_to_free_list_head refl

  pub length-layout : length layout ≡ 49
  unfolding layout
  length-layout = length-snoc_le 8 h.free_count up_to_free_count 41 49 length-up_to_free_count refl

  pub to_bytes-layout : (ps : ℕ) → 49 ≤ ps → v ≡ version → to_bytes h ps ≡ done (padded ps layout)
  unfolding to_bytes tag_part up_to_version up_to_page_size up_to_root_id up_to_next_page_id
      up_to_free_list_head up_to_free_count layout
  to_bytes-layout ps fits e = rw (
    assign-padded ps page_type_header (omega arith),
    copy_padded ps tag_part format_signature 1 9 refl refl (omega arith),
    ← e,
    write_le-padded 4 v ps up_to_version 9 length-up_to_version (omega arith),
    write_le-padded 4 (h.page_size % u32_mod) ps up_to_page_size 13 length-up_to_page_size
        (omega arith),
    write_le-padded 8 h.root_id ps up_to_root_id 17 length-up_to_root_id (omega arith),
    write_le-padded 8 h.next_page_id ps up_to_next_page_id 25 length-up_to_next_page_id
        (omega arith),
    write_le-padded 8 h.free_list_head ps up_to_free_list_head 33 length-up_to_free_list_head
        (omega arith),
    write_le-padded 8 h.free_count ps up_to_free_count 41 length-up_to_free_count (omega arith),
  )
