-- ===== src/Page/Leaf.antt =====
-- The leaf page: 01-btree/src/page/leaf.rs.
pub mod View
pub mod Edit
pub mod Search
pub mod Split
pub mod Codec
use ucu_de_distributed_algor.Prelude.{
  ℕ, zero, suc, ◌+◌, ◌-◌, ◌*◌, ◌/◌, ◌%◌, Ordering, Bool, true, List, [], ◌∷◌, ◌++◌, ltb, leb, ◌==◌,
  if◌then◌else◌, length, take, replicate, Run, done, out_of_fuel, ◌>>=◌, ◌>>◌, assert,
}
use ucu_de_distributed_algor.Bytes.{
  Bytes, to_le_bytes, index, slice, copy_from_slice, assign, read_le, write_le, cmp, lt_bytes,
}
use ucu_de_distributed_algor.Prelude.Int.{ℤ, pos, ◌+ℤ◌, ◌-ℤ◌, leb_ℤ, half_ℤ, to_u16}
use ucu_de_distributed_algor.Page.Tags.{PageId, page_type_leaf, u16_mod, add_u16, sub_checked}

-- `LEAF_HEADER`
abbrev pub leaf_header : ℕ
leaf_header = 11

-- A Rust vector of bytes is a list; `entry_start` holds `u16` offsets.
pub record LeafNode : Type 0 where
  pub id : PageId
  pub entries : Bytes
  pub entry_start : List ℕ

-- `LeafNode::empty`: the capacity hint sizes a buffer only.
unfoldable pub empty : ℕ → LeafNode
empty capacity_hint = record { id = 0; entries = []; entry_start = 0 ∷ [] }

-- The loop of `decode` over the entries left, with `pos` as `offset` and the offsets pushed so far.
unfoldable pub decode_loop : ℕ → Bytes → ℕ → List ℕ → Run (ℕ × List ℕ)
decode_loop zero entries offset starts = done (offset, starts)
decode_loop (suc n) entries offset starts = do
  klen ← read_le 2 entries offset
  vlen ← read_le 2 entries (offset + 2 + klen)
  step ← add_u16 4 klen
  step ← add_u16 step vlen
  offset ← add_u16 offset step
  decode_loop n entries offset (starts ++ (offset ∷ []))

-- `LeafNode::decode`
unfoldable pub decode : PageId → Bytes → Run LeafNode
decode expected_id bytes = do
  tag ← index bytes 0
  assert (tag == page_type_leaf)
  id ← read_le 8 bytes 1
  assert (id == expected_id)
  nkeys ← read_le 2 bytes 9
  entries ← slice bytes leaf_header (length bytes)
  (offset, starts) ← decode_loop nkeys entries 0 (0 ∷ [])
  done (record { id = id; entries = take offset entries; entry_start = starts })

unfoldable pub nkeys : LeafNode → Run ℕ
nkeys node = do n ← sub_checked (length node.entry_start) 1; done (n % u16_mod)

unfoldable pub get_key : LeafNode → ℕ → Run Bytes
get_key node idx = do
  start ← index node.entry_start idx
  klen ← read_le 2 node.entries start
  slice node.entries (start + 2) (start + 2 + klen)

unfoldable pub get_val : LeafNode → ℕ → Run Bytes
get_val node idx = do
  start ← index node.entry_start idx
  klen ← read_le 2 node.entries start
  let vstart = start + 2 + klen
  vlen ← read_le 2 node.entries vstart
  slice node.entries (vstart + 2) (vstart + 2 + vlen)

unfoldable pub nbytes : LeafNode → ℕ
nbytes node = leaf_header + length node.entries

-- `self.nkeys() == 0 || key > self.get_key(self.nkeys() - 1)`
unfoldable pub may_push : LeafNode → Bytes → Run Bool
may_push node key = do
  n ← nkeys node
  if n == 0
      then done true
      else do last ← sub_checked n 1; k ← get_key node last; done (lt_bytes k key)

unfoldable pub push : LeafNode → Bytes → Bytes → Run LeafNode
push node key val = do
  ordered ← may_push node key
  assert ordered
  let entries =
      node.entries
      ++ (to_le_bytes 2 (length key % u16_mod)
          ++ (key ++ (to_le_bytes 2 (length val % u16_mod) ++ val)))
  done (record node {
    entries = entries;
    entry_start = node.entry_start ++ (length entries % u16_mod ∷ []);
  })

-- `for i in from..to`, with `count` rounds left
unfoldable pub push_loop : ℕ → LeafNode → LeafNode → ℕ → Run LeafNode
push_loop zero node src i = done node
push_loop (suc count) node src i = do
  key ← get_key src i
  val ← get_val src i
  node ← push node key val
  push_loop count node src (i + 1)

unfoldable pub push_range : LeafNode → LeafNode → ℕ → ℕ → Run LeafNode
push_range node src from to = push_loop (to - from) node src from

-- `LeafNode::to_bytes`
unfoldable pub to_bytes : LeafNode → PageId → ℕ → Run Bytes
to_bytes node id page_size = do
  assert (leb (nbytes node) page_size)
  buf ← assign (replicate page_size 0) 0 page_type_leaf
  buf ← write_le 8 buf 1 id
  n ← nkeys node
  buf ← write_le 2 buf 9 n
  copy_from_slice buf leaf_header (leaf_header + length node.entries) node.entries

-- `Result<u16, u16>` of a search
pub data Found : Type 0 where
  at : ℕ → Found
  belongs_at : ℕ → Found

-- The loop of `leaf_search`, on `i32` bounds that stay in range; the fuel bounds its rounds.
unfoldable pub search_loop : ℕ → LeafNode → Bytes → ℤ → ℤ → Run Found
search_loop zero node key lo hi = out_of_fuel
search_loop (suc fuel) node key lo hi =
    let mid = lo +ℤ half_ℤ (hi -ℤ lo) in
    let round = (do
      k ← get_key node (to_u16 mid)
      elim (cmp k key) [
        | Ordering.eq ↦ done (at (to_u16 mid))
        | Ordering.lt ↦ search_loop fuel node key (mid +ℤ pos 1) hi
        | Ordering.gt ↦ search_loop fuel node key lo (mid -ℤ pos 1)
      ]) in
    if leb_ℤ lo hi then round else done (belongs_at (to_u16 lo))

-- Each round leaves out a key at least.
unfoldable pub leaf_search : LeafNode → Bytes → Run Found
leaf_search node key = do n ← nkeys node; search_loop (suc n) node key (pos 0) (pos n -ℤ pos 1)

unfoldable pub leaf_insert : LeafNode → ℕ → Bytes → Bytes → Run LeafNode
leaf_insert old idx key val = do
  let new = empty (2 * (nbytes old + length key + length val + 4))
  new ← push_range new old 0 idx
  new ← push new key val
  n ← nkeys old
  push_range new old idx n

unfoldable pub leaf_update : LeafNode → ℕ → Bytes → Bytes → Run LeafNode
leaf_update old idx key val = do
  let new = empty (2 * (nbytes old + length val + 4))
  new ← push_range new old 0 idx
  new ← push new key val
  next ← add_u16 idx 1
  n ← nkeys old
  push_range new old next n

-- The two closures of `leaf_split_by_size`
unfoldable pub left_bytes : LeafNode → ℕ → Run ℕ
left_bytes old m = do s ← index old.entry_start m; add_u16 leaf_header s

unfoldable pub right_bytes : LeafNode → ℕ → Run ℕ
right_bytes old m = do
  s ← index old.entry_start m
  d ← sub_checked (length old.entries % u16_mod) s
  add_u16 leaf_header d

-- `while m >= 1 && left_bytes(m) > page_size { m -= 1; }`
unfoldable pub shrink_left : LeafNode → ℕ → ℕ → Run ℕ
shrink_left old page_size zero = done zero
shrink_left old page_size (suc m) =
    let rest = shrink_left old page_size m in
    left_bytes old (suc m) >>= λ b. if ltb page_size b then rest else done (suc m)

-- `while m < old.nkeys() - 1 && right_bytes(m) > page_size { m += 1; }`, with `left` the distance
-- from `m` to `old.nkeys() - 1`
unfoldable pub shrink_right : LeafNode → ℕ → ℕ → ℕ → Run ℕ
shrink_right old page_size zero m = done m
shrink_right old page_size (suc left) m =
    let rest = shrink_right old page_size left (m + 1) in
    right_bytes old m >>= λ b. if ltb page_size b then rest else done m

unfoldable pub leaf_split_by_size : LeafNode → ℕ → Run (LeafNode × LeafNode)
leaf_split_by_size old page_size = do
  n ← nkeys old
  assert (leb 2 n)
  assert (ltb page_size u16_mod)
  let ps = page_size % u16_mod
  m ← shrink_left old ps (n / 2)
  assert (leb 1 m)
  last ← sub_checked n 1
  m ← shrink_right old ps (last - m) m
  b ← right_bytes old m
  assert (leb b ps)
  assert (ltb m n)
  left ← push_range (empty ps) old 0 m
  right ← push_range (empty ps) old m n
  done (left, right)
