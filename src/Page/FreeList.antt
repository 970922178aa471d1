-- ===== src/Page/FreeList.antt =====
-- A page of the free-list chain: 01-btree/src/page/free_list.rs.
pub mod RoundTrip
use ucu_de_distributed_algor.Prelude.{
  ℕ, zero, suc, ◌+◌, ◌/◌, ◌%◌, List, [], ◌∷◌, ◌++◌, leb, ◌==◌, length, replicate, Run, done, ◌>>=◌,
  ◌>>◌, assert,
}
use ucu_de_distributed_algor.Bytes.{Bytes, index, assign, read_le, write_le}
use ucu_de_distributed_algor.Page.Tags.{PageId, page_type_free_list, u16_mod, sub_checked}

-- `FREE_LIST_HEADER`
abbrev pub free_list_header : ℕ
free_list_header = 19

unfoldable pub free_list_capacity : ℕ → Run ℕ
free_list_capacity page_size = do room ← sub_checked page_size free_list_header; done (room / 8)

-- The loop of `free_list_encode` over the ids left.
unfoldable pub write_ids : List PageId → Bytes → ℕ → Run Bytes
write_ids [] buf pos = done buf
write_ids (pid ∷ rest) buf pos = do buf ← write_le 8 buf pos pid; write_ids rest buf (pos + 8)

unfoldable pub free_list_encode : PageId → PageId → List PageId → ℕ → Run Bytes
free_list_encode id next ids page_size = do
  capacity ← free_list_capacity page_size
  assert (leb (length ids) capacity)
  buf ← assign (replicate page_size 0) 0 page_type_free_list
  buf ← write_le 8 buf 1 id
  buf ← write_le 8 buf 9 next
  buf ← write_le 2 buf 17 (length ids % u16_mod)
  write_ids ids buf free_list_header

-- The loop of `free_list_decode`, with `count` rounds left.
unfoldable pub read_ids : ℕ → Bytes → ℕ → List PageId → Run (List PageId)
read_ids zero bytes pos ids = done ids
read_ids (suc count) bytes pos ids = do
  pid ← read_le 8 bytes pos
  read_ids count bytes (pos + 8) (ids ++ (pid ∷ []))

-- The next page's id, and the free ids of this page.
unfoldable pub free_list_decode : PageId → Bytes → Run (PageId × List PageId)
free_list_decode expected_id bytes = do
  tag ← index bytes 0
  assert (tag == page_type_free_list)
  id ← read_le 8 bytes 1
  assert (id == expected_id)
  next ← read_le 8 bytes 9
  count ← read_le 2 bytes 17
  ids ← read_ids count bytes free_list_header []
  done (next, ids)
