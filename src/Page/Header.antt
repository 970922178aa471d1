-- ===== src/Page/Header.antt =====
-- The header page: 01-btree/src/page/header.rs.
pub mod Layout
pub mod RoundTrip
use ucu_de_distributed_algor.Prelude.{
  ℕ, ◌%◌, not, [], ◌∷◌, ltb, ◌==◌, if◌then◌else◌, length, replicate, Run, Result, ok, err, done,
  ◌>>=◌, ◌>>◌,
}
use ucu_de_distributed_algor.Bytes.{
  Bytes, index, slice, copy_from_slice, assign, read_le, write_le, eq_bytes,
}
use ucu_de_distributed_algor.Page.Tags.{PageId, page_type_header, u32_mod}

-- `*b"HWBTREE1"`
abbrev pub format_signature : Bytes
format_signature = b'H' ∷ b'W' ∷ b'B' ∷ b'T' ∷ b'R' ∷ b'E' ∷ b'E' ∷ b'1' ∷ []

abbrev pub version : ℕ
version = 2

abbrev pub header_page_id : PageId
header_page_id = 0

pub record Header : Type 0 where
  pub page_size : ℕ
  pub root_id : PageId
  pub next_page_id : ℕ
  pub free_list_head : PageId
  pub free_count : ℕ

pub data DecodeError : Type 0 where
  not_a_header : DecodeError
  -- found, expected
  version_mismatch : ℕ → ℕ → DecodeError

-- `Header::new`
unfoldable pub new : ℕ → PageId → ℕ → Header
new page_size root_id next_page_id = record {
  page_size = page_size;
  root_id = root_id;
  next_page_id = next_page_id;
  free_list_head = 0;
  free_count = 0;
}

unfoldable pub to_bytes : Header → ℕ → Run Bytes
to_bytes h page_size = do
  buf ← assign (replicate page_size 0) 0 page_type_header
  buf ← copy_from_slice buf 1 9 format_signature
  buf ← write_le 4 buf 9 version
  buf ← write_le 4 buf 13 (h.page_size % u32_mod)
  buf ← write_le 8 buf 17 h.root_id
  buf ← write_le 8 buf 25 h.next_page_id
  buf ← write_le 8 buf 33 h.free_list_head
  write_le 8 buf 41 h.free_count

-- The fields behind a version that matches.
unfoldable pub fields : Bytes → Run (Result Header DecodeError)
fields bytes = do
  page_size ← read_le 4 bytes 13
  root_id ← read_le 8 bytes 17
  next_page_id ← read_le 8 bytes 25
  free_list_head ← read_le 8 bytes 33
  free_count ← read_le 8 bytes 41
  done (
      ok (record {
        page_size = page_size;
        root_id = root_id;
        next_page_id = next_page_id;
        free_list_head = free_list_head;
        free_count = free_count;
      }))

-- The three tests behind `||` are made in their order, and each only if those before it fail.
unfoldable pub from_bytes : Bytes → Run (Result Header DecodeError)
from_bytes bytes = if ltb (length bytes) 49 then done (err not_a_header) else do
  tag ← index bytes 0
  if not (tag == page_type_header) then done (err not_a_header) else do
    signature ← slice bytes 1 9
    if not (eq_bytes signature format_signature) then done (err not_a_header) else do
      found ← read_le 4 bytes 9
      if not (found == version) then done (err (version_mismatch found version)) else fields bytes
