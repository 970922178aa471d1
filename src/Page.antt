-- ===== src/Page.antt =====
-- The pages of 01-btree/src/page: what src/page/mod.rs declares over its submodules.
pub mod Tags
pub mod Keys
pub mod Header
pub mod FreeList
pub mod Leaf
pub mod Internal
pub mod Limits
use ucu_de_distributed_algor.Prelude.{
  ℕ, ◌+◌, ◌-◌, ◌/◌, max, ltb, ◌==◌, if◌then◌else◌, length, Run, Result, ok, err, done, panic, ◌>>=◌,
  ◌>>◌,
}
use ucu_de_distributed_algor.Bytes.{Bytes, index}
use ucu_de_distributed_algor.Page.Tags.{PageId, page_type_leaf, page_type_internal}
use ucu_de_distributed_algor.Page.Leaf.{LeafNode}
use ucu_de_distributed_algor.Page.Internal.{InternalNode, internal_header}

pub data Page : Type 0 where
  leaf : LeafNode → Page
  internal : InternalNode → Page

-- `Page::decode`
unfoldable pub decode : PageId → Bytes → Run Page
decode id bytes = do
  tag ← index bytes 0
  if tag == page_type_leaf
      then Leaf.decode id bytes >>= (λ l. done (leaf l))
      else if tag == page_type_internal
      then Internal.decode id bytes >>= (λ i. done (internal i))
      else panic

-- `Page::to_bytes`
unfoldable pub to_bytes : Page → PageId → ℕ → Run Bytes
to_bytes (leaf l) id page_size = Leaf.to_bytes l id page_size
to_bytes (internal i) id page_size = Internal.to_bytes i id page_size

-- `Error::EntryTooLarge { len, max }`
pub data Error : Type 0 where
  entry_too_large : ℕ → ℕ → Error

-- `saturating_sub` is the subtraction of ℕ.
unfoldable pub max_kv_size : ℕ → ℕ
max_kv_size page_size = (page_size - (internal_header + 28)) / 2

unfoldable pub check_limits : ℕ → Bytes → Bytes → Result (Unit {0}) Error
check_limits page_size key val =
    let max = max_kv_size page_size in
    let len = length key + length val in
    if ltb max len then err (entry_too_large len max) else ok tt
