-- ===== src/Page/Header/RoundTrip.antt =====
-- A header page written and read back: 01-btree/src/page/header.rs.
use ucu_de_distributed_algor.Prelude.{
  ℕ, zero, suc, ◌-◌, ◌%◌, ◌^◌, ◌≤◌, ◌<◌, ◌≡◌, refl, ap, ◌∙◌, ◌≢◌, ◌++◌, append_assoc, arith,
  le→ltb_false, length, replicate, length-append, ok, err, done,
}
use ucu_de_distributed_algor.Bytes.{Bytes, to_le_bytes, index, slice, read_le}
use ucu_de_distributed_algor.Bytes.Laws.{length-padded, read_le_at, slice_at}
use ucu_de_distributed_algor.Bytes.Order.{eq_bytes_refl}
use ucu_de_distributed_algor.Page.Tags.{page_type_header, u32_mod, u64_mod}
use ucu_de_distributed_algor.Page.Header.{
  Header, not_a_header, version_mismatch, format_signature, version, to_bytes, fields, from_bytes,
}
use ucu_de_distributed_algor.Page.Header.Layout.{
  tag_part, up_to_version, up_to_page_size, up_to_root_id, up_to_next_page_id, up_to_free_list_head,
  up_to_free_count, layout, length-up_to_version, length-up_to_page_size, length-up_to_root_id,
  length-up_to_next_page_id, length-up_to_free_list_head, length-up_to_free_count, length-layout,
  to_bytes-layout,
}

-- The fields that the page has room for.
pub record IsHeader (h : Header) : Type 0 where
  pub page_size_fits : h.page_size < u32_mod
  pub root_id_fits : h.root_id < u64_mod
  pub next_page_id_fits : h.next_page_id < u64_mod
  pub free_list_head_fits : h.free_list_head < u64_mod
  pub free_count_fits : h.free_count < u64_mod

module _ (v : ℕ) (h : Header) where
  module _ (zs : Bytes) where
    from_free_count : Bytes
    from_free_count = to_le_bytes 8 h.free_count ++ zs

    from_free_list_head : Bytes
    from_free_list_head = to_le_bytes 8 h.free_list_head ++ from_free_count

    from_next_page_id : Bytes
    from_next_page_id = to_le_bytes 8 h.next_page_id ++ from_free_list_head

    from_root_id : Bytes
    from_root_id = to_le_bytes 8 h.root_id ++ from_next_page_id

    from_page_size : Bytes
    from_page_size = to_le_bytes 4 (h.page_size % u32_mod) ++ from_root_id

    from_version : Bytes
    from_version = to_le_bytes 4 v ++ from_page_size

    from_signature : Bytes
    from_signature = format_signature ++ from_version

    at-from_free_count : (layout v h) ++ zs ≡ (up_to_free_count v h) ++ from_free_count
    unfolding layout from_free_count
    at-from_free_count = append_assoc (up_to_free_count v h) (to_le_bytes 8 h.free_count) zs

    at-from_free_list_head : (layout v h) ++ zs ≡ (up_to_free_list_head v h) ++ from_free_list_head
    unfolding up_to_free_count from_free_list_head
    at-from_free_list_head =
        at-from_free_count
        ∙ append_assoc (up_to_free_list_head v h) (to_le_bytes 8 h.free_list_head) from_free_count

    at-from_next_page_id : (layout v h) ++ zs ≡ (up_to_next_page_id v h) ++ from_next_page_id
    unfolding up_to_free_list_head from_next_page_id
    at-from_next_page_id =
        at-from_free_list_head
        ∙ append_assoc (up_to_next_page_id v h) (to_le_bytes 8 h.next_page_id) from_free_list_head

    at-from_root_id : (layout v h) ++ zs ≡ (up_to_root_id v h) ++ from_root_id
    unfolding up_to_next_page_id from_root_id
    at-from_root_id =
        at-from_next_page_id
        ∙ append_assoc (up_to_root_id v h) (to_le_bytes 8 h.root_id) from_next_page_id

    at-from_page_size : (layout v h) ++ zs ≡ (up_to_page_size v h) ++ from_page_size
    unfolding up_to_root_id from_page_size
    at-from_page_size =
        at-from_root_id
        ∙ append_assoc (up_to_page_size v h) (to_le_bytes 4 (h.page_size % u32_mod)) from_root_id

    at-from_version : (layout v h) ++ zs ≡ (up_to_version v h) ++ from_version
    unfolding up_to_page_size from_version
    at-from_version =
        at-from_page_size ∙ append_assoc (up_to_version v h) (to_le_bytes 4 v) from_page_size

    at-from_signature : (layout v h) ++ zs ≡ (tag_part v h) ++ from_signature
    unfolding up_to_version from_signature
    at-from_signature =
        at-from_version ∙ append_assoc (tag_part v h) (format_signature) from_version

    whole_long : 49 ≤ length ((layout v h) ++ zs)
    whole_long = rw (length-append (layout v h) zs, (length-layout v h)) (omega arith)

    first_byte : index ((layout v h) ++ zs) 0 ≡ done page_type_header
    unfolding tag_part index
    first_byte = rw at-from_signature

    signature : slice ((layout v h) ++ zs) 1 9 ≡ done format_signature
    unfolding tag_part from_signature
    signature =
        slice_at ((layout v h) ++ zs) (tag_part v h) format_signature from_version 1 9
          at-from_signature refl refl

    read-version : v < 256 ^ 4 → read_le 4 ((layout v h) ++ zs) 9 ≡ done v
    unfolding from_version
    read-version =
        read_le_at 4 v ((layout v h) ++ zs) (up_to_version v h) from_page_size 9 at-from_version
          (length-up_to_version v h)

    read-page_size :
        (h.page_size % u32_mod) < 256 ^ 4
        → read_le 4 ((layout v h) ++ zs) 13 ≡ done (h.page_size % u32_mod)
    unfolding from_page_size
    read-page_size =
        read_le_at 4 (h.page_size % u32_mod) ((layout v h) ++ zs) (up_to_page_size v h) from_root_id
          13 at-from_page_size (length-up_to_page_size v h)

    read-root_id : h.root_id < 256 ^ 8 → read_le 8 ((layout v h) ++ zs) 17 ≡ done h.root_id
    unfolding from_root_id
    read-root_id =
        read_le_at 8 h.root_id ((layout v h) ++ zs) (up_to_root_id v h) from_next_page_id 17
          at-from_root_id (length-up_to_root_id v h)

    read-next_page_id :
        h.next_page_id < 256 ^ 8 → read_le 8 ((layout v h) ++ zs) 25 ≡ done h.next_page_id
    unfolding from_next_page_id
    read-next_page_id =
        read_le_at 8 h.next_page_id ((layout v h) ++ zs) (up_to_next_page_id v h)
          from_free_list_head 25 at-from_next_page_id (length-up_to_next_page_id v h)

    read-free_list_head :
        h.free_list_head < 256 ^ 8 → read_le 8 ((layout v h) ++ zs) 33 ≡ done h.free_list_head
    unfolding from_free_list_head
    read-free_list_head =
        read_le_at 8 h.free_list_head ((layout v h) ++ zs) (up_to_free_list_head v h)
          from_free_count 33 at-from_free_list_head (length-up_to_free_list_head v h)

    read-free_count : h.free_count < 256 ^ 8 → read_le 8 ((layout v h) ++ zs) 41 ≡ done h.free_count
    unfolding from_free_count
    read-free_count =
        read_le_at 8 h.free_count ((layout v h) ++ zs) (up_to_free_count v h) zs 41
          at-from_free_count (length-up_to_free_count v h)

    from_bytes_stale :
        v < u32_mod
        → v ≢ version
        → from_bytes ((layout v h) ++ zs) ≡ done (err (version_mismatch v version))
    unfolding from_bytes
    from_bytes_stale small stale =
        rw
          (
            le→ltb_false (length ((layout v h) ++ zs)) 49 whole_long,
            first_byte,
            signature,
            eq_bytes_refl format_signature,
            read-version small,
          )
          (ground arith)

    fields-layout : IsHeader h → fields ((layout v h) ++ zs) ≡ done (ok h)
    unfolding fields
    fields-layout fits =
        let exact : h.page_size % u32_mod ≡ h.page_size = omega arith in
        rw
          (
            read-page_size (omega arith),
            read-root_id (omega arith),
            read-next_page_id (omega arith),
            read-free_list_head (omega arith),
            read-free_count (omega arith),
          )
          (ap (λ n. done (ok (record h { page_size = n }))) exact)

    from_bytes_current : IsHeader h → v ≡ version → from_bytes ((layout v h) ++ zs) ≡ done (ok h)
    unfolding from_bytes
    from_bytes_current fits e =
        rw
          (
            le→ltb_false (length ((layout v h) ++ zs)) 49 whole_long,
            first_byte,
            signature,
            eq_bytes_refl format_signature,
            read-version (omega arith),
            fields-layout fits,
          )
          (ground arith)

-- A header whose fields fit, written to a page of at least 49 bytes, fills the page exactly and is
-- read back unchanged: neither step panics, and no field is lost.
pub from_bytes-to_bytes :
    (h : Header) (ps : ℕ)
    → 49 ≤ ps
    → IsHeader h
    → (page : Bytes) × (to_bytes h ps ≡ done page)
      × (length page ≡ ps)
      × (from_bytes page ≡ done (ok h))
from_bytes-to_bytes h ps fits good =
    let zs : Bytes = replicate (ps - length (layout version h)) 0 in
    (
      layout version h ++ zs,
      to_bytes-layout version h ps fits refl,
      length-padded ps (layout version h) (rw (length-layout version h) fits),
      from_bytes_current version h zs good refl,
    )

-- A page whose first bytes carry the tag and the signature but another version number is refused
-- with both numbers, whatever its fields and its padding hold.
pub from_bytes-stale_version :
    (v : ℕ) (h : Header) (zs : Bytes)
    → v < u32_mod
    → v ≢ version
    → from_bytes (layout v h ++ zs) ≡ done (err (version_mismatch v version))
from_bytes-stale_version v h zs small stale = from_bytes_stale v h zs small stale

-- A fresh page, of any size and all zeros, is no header.
pub from_bytes-zeros : (n : ℕ) → from_bytes (replicate n 0) ≡ done (err not_a_header)
unfolding from_bytes index
from_bytes-zeros zero = refl
from_bytes-zeros (suc n) = ground arith
