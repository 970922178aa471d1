-- ===== src/Examples.antt =====
-- Each theorem at an input, and runs of the pages' code: 01-btree/src/page, 01-btree/src/storage/tree.rs.
pub mod File
pub mod Put
pub mod Storage
pub mod System
use ucu_de_distributed_algor.Prelude.{
  ℕ, suc, ◌+◌, ◌*◌, ◌≤◌, ◌<◌, ◌≡◌, refl, ◌⊎◌, some, List, [], ◌∷◌, ◌++◌, arith, length, get_elem?,
  take, drop, replicate, ok, err, done,
}
use ucu_de_distributed_algor.Bytes.{Bytes, cmp}
use ucu_de_distributed_algor.Page.Tags.{PageId, sub_checked}
use ucu_de_distributed_algor.Page.{entry_too_large, max_kv_size, check_limits, to_bytes}
use ucu_de_distributed_algor.Page.Keys.{IsAscending, rank_le}
use ucu_de_distributed_algor.Page.Header as HeaderPage
use ucu_de_distributed_algor.Page.Header.{Header, DecodeError, version}
use ucu_de_distributed_algor.Page.Header.Layout.{layout}
use ucu_de_distributed_algor.Page.Header.RoundTrip.{
  IsHeader, from_bytes-to_bytes, from_bytes-stale_version, from_bytes-zeros,
}
use ucu_de_distributed_algor.Page.FreeList.{free_list_capacity, free_list_encode, free_list_decode}
use ucu_de_distributed_algor.Page.FreeList.RoundTrip.{free_list_decode-free_list_encode}
use ucu_de_distributed_algor.Page.Leaf.{
  leaf_header, Found, leaf_search, leaf_insert, leaf_update, leaf_split_by_size,
}
use ucu_de_distributed_algor.Page.Leaf.View.{Entry, keys, total, leaf_of}
use ucu_de_distributed_algor.Page.Leaf.Edit.{IsEntries, leaf_insert-leaf_of, leaf_update-leaf_of}
use ucu_de_distributed_algor.Page.Leaf.Search.{IsPlace, leaf_search-IsPlace}
use ucu_de_distributed_algor.Page.Leaf.Split as LeafSplit
use ucu_de_distributed_algor.Page.Leaf.Split.{leaf_split_by_size-fits}
use ucu_de_distributed_algor.Page.Internal.{
  internal_header, internal_child_index, internal_replace_child, internal_insert_split_child,
  internal_split_with_promotion,
}
use ucu_de_distributed_algor.Page.Internal.View.{node_of}
use ucu_de_distributed_algor.Page.Internal.Edit.{IsKeys}
use ucu_de_distributed_algor.Page.Internal.Search.{internal_child_index-rank_le}
use ucu_de_distributed_algor.Page.Internal.Splice.{
  internal_replace_child-node_of, internal_insert_split_child-node_of,
}
use ucu_de_distributed_algor.Page.Internal.Split as InternalSplit
use ucu_de_distributed_algor.Page.Internal.Split.{
  left_size, right_size, internal_split_with_promotion-fits,
}
use ucu_de_distributed_algor.Page.Limits.{check_limits_bounds}
use ucu_de_distributed_algor.Storage.Entries.{upsert}
use ucu_de_distributed_algor.Storage.Tree.{insert_leaf}
use ucu_de_distributed_algor.Storage.Tree.InsertLeaf.{IsLeafPage, Inserts, insert_leaf-Inserts}

-- A page size at which a leaf holds five of these entries, and no sixth.
abbrev small_page : ℕ
small_page = 43

abbrev entry : ℕ → Entry
entry n = (n ∷ [], 10 * n ∷ [])

abbrev five : List Entry
five = entry 1 ∷ entry 2 ∷ entry 3 ∷ entry 5 ∷ entry 6 ∷ []

abbrev six : List Entry
six = entry 1 ∷ entry 2 ∷ entry 3 ∷ entry 4 ∷ entry 5 ∷ entry 6 ∷ []

abbrev seps : List Bytes
seps = (3 ∷ []) ∷ (5 ∷ []) ∷ (8 ∷ []) ∷ []

abbrev grown_seps : List Bytes
grown_seps = (3 ∷ []) ∷ (4 ∷ []) ∷ (5 ∷ []) ∷ (8 ∷ []) ∷ []

abbrev ids : List PageId
ids = 10 ∷ 20 ∷ 30 ∷ 40 ∷ []

five-IsAscending : IsAscending (keys five)
unfolding cmp
five-IsAscending = (
  (refl, (refl, (refl, (refl, tt)))),
  ((refl, (refl, (refl, tt))), ((refl, (refl, tt)), ((refl, tt), (tt, tt)))),
)

six-IsAscending : IsAscending (keys six)
unfolding cmp
six-IsAscending = (
  (refl, (refl, (refl, (refl, (refl, tt))))),
  (
    (refl, (refl, (refl, (refl, tt)))),
    ((refl, (refl, (refl, tt))), ((refl, (refl, tt)), ((refl, tt), (tt, tt)))),
  ),
)

seps-IsAscending : IsAscending seps
unfolding cmp
seps-IsAscending = ((refl, (refl, tt)), ((refl, tt), (tt, tt)))

grown_seps-IsAscending : IsAscending grown_seps
unfolding cmp
grown_seps-IsAscending = ((refl, (refl, (refl, tt))), ((refl, (refl, tt)), ((refl, tt), (tt, tt))))

six-IsEntries : IsEntries six
six-IsEntries = record { small = omega arith; ascending = six-IsAscending }

five-IsEntries : IsEntries five
five-IsEntries = record { small = omega arith; ascending = five-IsAscending }

five-IsLeafPage : IsLeafPage small_page five
five-IsLeafPage = record {
  ascending = five-IsAscending;
  fits = omega arith;
  each = (omega arith, (omega arith, (omega arith, (omega arith, (omega arith, tt)))));
}

accepts : check_limits small_page (4 ∷ []) (40 ∷ []) ≡ ok tt
unfolding check_limits max_kv_size
accepts = refl

insert_leaf-Inserts_example :
    Inserts small_page
      (upsert five (4 ∷ []) (40 ∷ []))
      (insert_leaf (leaf_of 7 five) (4 ∷ []) (40 ∷ []) small_page)
insert_leaf-Inserts_example =
    insert_leaf-Inserts small_page 7 five (4 ∷ []) (40 ∷ []) (omega arith) (omega arith) accepts
      five-IsLeafPage

six-IsOverfull : LeafSplit.IsOverfull small_page six
six-IsOverfull = record {
  entries = six-IsEntries;
  page_fits = omega arith;
  offsets_fit = omega arith;
  each =
      (omega arith, (omega arith, (omega arith, (omega arith, (omega arith, (omega arith, tt))))));
  whole = omega arith;
  two = omega arith;
}

leaf_split_by_size-fits_example :
    (m : ℕ) × (leaf_split_by_size (leaf_of 7 six) small_page
      ≡ done (leaf_of 0 (take m six), leaf_of 0 (drop m six)))
    × (1 ≤ m)
    × (m < length six)
    × (leaf_header + total (take m six) ≤ small_page)
    × (leaf_header + total (drop m six) ≤ small_page)
leaf_split_by_size-fits_example = leaf_split_by_size-fits small_page 7 six six-IsOverfull

seps-IsKeys : IsKeys seps
seps-IsKeys = record { small = omega arith; ascending = seps-IsAscending }

seps-IsOverfull : InternalSplit.IsOverfull small_page seps ids
seps-IsOverfull = record {
  keys = seps-IsKeys;
  children = refl;
  page_fits = omega arith;
  bytes_fit = omega arith;
  each = (omega arith, (omega arith, (omega arith, tt)));
  whole = omega arith;
  over = omega arith;
}

internal_split_with_promotion-fits_example :
    (m : ℕ) × (k : Bytes) × (get_elem? seps m ≡ some k)
    × (internal_split_with_promotion (node_of 7 seps ids) small_page
        ≡ done (
          node_of 0 (take m seps) (take (suc m) ids),
          k,
          node_of 0 (drop (suc m) seps) (drop (suc m) ids),
        ))
    × (1 ≤ m)
    × (suc (suc m) ≤ length seps)
    × (left_size seps m ≤ small_page)
    × (right_size seps m ≤ small_page)
internal_split_with_promotion-fits_example =
    internal_split_with_promotion-fits small_page 7 seps ids (omega arith) seps-IsOverfull

leaf_search-IsPlace_example :
    (f : Found) × (leaf_search (leaf_of 7 five) (4 ∷ []) ≡ done f) × IsPlace (keys five) (4 ∷ []) f
leaf_search-IsPlace_example = leaf_search-IsPlace 7 five (4 ∷ []) (omega arith) five-IsAscending

internal_child_index-rank_le_example :
    internal_child_index (node_of 7 seps ids) (5 ∷ []) ≡ done (rank_le seps (5 ∷ []))
internal_child_index-rank_le_example =
    internal_child_index-rank_le 7 seps ids (5 ∷ []) (omega arith) seps-IsAscending

internal_replace_child-node_of_example :
    internal_replace_child (node_of 7 seps ids) 2 99
    ≡ done (node_of 0 seps (10 ∷ 20 ∷ 99 ∷ 40 ∷ []))
internal_replace_child-node_of_example =
    internal_replace_child-node_of 7 seps ids 2 99 seps-IsKeys refl

internal_insert_split_child-node_of_example :
    internal_insert_split_child (node_of 7 seps ids) 1 (4 ∷ []) 98 99
    ≡ done (node_of 0 grown_seps (10 ∷ 98 ∷ 99 ∷ 30 ∷ 40 ∷ []))
internal_insert_split_child-node_of_example =
    internal_insert_split_child-node_of 7 seps ids 1 (4 ∷ []) 98 99 (omega arith) refl (omega arith)
      (record { small = omega arith; ascending = grown_seps-IsAscending })

abbrev header : Header
header = record {
  page_size = 4096;
  root_id = 12;
  next_page_id = 40;
  free_list_head = 3;
  free_count = 2;
}

header_of-IsHeader : IsHeader header
header_of-IsHeader = record {
  page_size_fits = omega arith;
  root_id_fits = omega arith;
  next_page_id_fits = omega arith;
  free_list_head_fits = omega arith;
  free_count_fits = omega arith;
}

from_bytes-to_bytes_example :
    (page : Bytes) × (HeaderPage.to_bytes header 64 ≡ done page)
    × (length page ≡ 64)
    × (HeaderPage.from_bytes page ≡ done (ok header))
from_bytes-to_bytes_example = from_bytes-to_bytes header 64 (omega arith) header_of-IsHeader

from_bytes-stale_version_example :
    HeaderPage.from_bytes (layout 9 header ++ replicate 15 0)
    ≡ done (err (DecodeError.version_mismatch 9 version))
from_bytes-stale_version_example =
    from_bytes-stale_version 9 header (replicate 15 0) (omega arith) (λ e. omega arith)

from_bytes-zeros_example :
    HeaderPage.from_bytes (replicate 64 0) ≡ done (err DecodeError.not_a_header)
from_bytes-zeros_example = from_bytes-zeros 64

capacity_43 : free_list_capacity small_page ≡ done 3
unfolding free_list_capacity sub_checked
capacity_43 = refl

free_list_decode-free_list_encode_example :
    (bytes : Bytes) × (free_list_encode 5 6 (20 ∷ 21 ∷ 22 ∷ []) small_page ≡ done bytes)
    × (length bytes ≡ small_page)
    × (free_list_decode 5 bytes ≡ done (6, 20 ∷ 21 ∷ 22 ∷ []))
free_list_decode-free_list_encode_example =
    free_list_decode-free_list_encode 5 6 (20 ∷ 21 ∷ 22 ∷ []) small_page 3 capacity_43 (omega arith)
      (omega arith) (omega arith) (omega arith) (omega arith, (omega arith, (omega arith, tt)))

leaf_insert-leaf_of_example :
    leaf_insert (leaf_of 7 five) 3 (4 ∷ []) (40 ∷ []) ≡ done (leaf_of 0 six)
leaf_insert-leaf_of_example =
    leaf_insert-leaf_of 7 five 3 (4 ∷ []) (40 ∷ []) (omega arith) (omega arith) six-IsEntries

leaf_update-leaf_of_example :
    leaf_update (leaf_of 7 five) 2 (3 ∷ []) (30 ∷ []) ≡ done (leaf_of 0 five)
leaf_update-leaf_of_example =
    leaf_update-leaf_of 7 five 2 (3 ∷ []) (30 ∷ []) (omega arith) (omega arith) five-IsEntries

check_limits_bounds_example :
    ((check_limits small_page (4 ∷ []) (40 ∷ []) ≡ ok tt)
      × (internal_header + 2 * (2 + (1 + 1)) + 8 * 3 ≤ small_page))
    ⊎ ((check_limits small_page (4 ∷ []) (40 ∷ [])
          ≡ err (entry_too_large (1 + 1) (max_kv_size small_page)))
        × (small_page < internal_header + 2 * (2 + (1 + 1)) + 8 * 3))
check_limits_bounds_example = check_limits_bounds small_page (4 ∷ []) (40 ∷ []) (omega arith)
