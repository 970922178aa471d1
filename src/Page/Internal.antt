-- ===== src/Page/Internal.antt =====
-- The internal page: 01-btree/src/page/internal.rs.
pub mod View
pub mod Edit
pub mod Search
pub mod Splice
pub mod Split
pub mod Codec
use ucu_de_distributed_algor.Prelude.{
  ℕ, zero, suc, ◌+◌, ◌-◌, ◌*◌, ◌/◌, ◌%◌, Bool, true, List, [], ◌∷◌, ◌++◌, ltb, leb, ◌==◌,
  if◌then◌else◌, length, replicate, Run, done, out_of_fuel, ◌>>=◌, ◌>>◌, assert,
}
use ucu_de_distributed_algor.Bytes.{
  Bytes, to_le_bytes, index, slice, copy_from_slice, assign, read_le, write_le, lt_bytes, le_bytes,
}
use ucu_de_distributed_algor.Page.Tags.{
  PageId, page_type_internal, u16_mod, add_u16, mul_u16, sub_checked,
}

-- `INTERNAL_HEADER`
abbrev pub internal_header : ℕ
internal_header = 11

pub record InternalNode : Type 0 where
  pub id : PageId
  pub keys : Bytes
  pub key_start : List ℕ
  pub children : List PageId

-- `InternalNode::empty`: the capacity hint sizes a buffer only.
unfoldable pub empty : ℕ → InternalNode
empty capacity_hint = record { id = 0; keys = []; key_start = 0 ∷ []; children = [] }

-- The loop of `decode` over the keys left; `pos` stays at `internal_header` or above.
unfoldable pub decode_keys : ℕ → Bytes → ℕ → List ℕ → Run (ℕ × List ℕ)
decode_keys zero bytes pos key_start = done (pos, key_start)
decode_keys (suc n) bytes pos key_start = do
  klen ← read_le 2 bytes pos
  let pos = pos + (2 + klen)
  decode_keys n bytes pos (key_start ++ ((pos - internal_header) % u16_mod ∷ []))

-- The loop over the children left.
unfoldable pub decode_children : ℕ → Bytes → ℕ → List PageId → Run (List PageId)
decode_children zero bytes cpos children = done children
decode_children (suc n) bytes cpos children = do
  child ← read_le 8 bytes cpos
  decode_children n bytes (cpos + 8) (children ++ (child ∷ []))

-- `InternalNode::decode`
unfoldable pub decode : PageId → Bytes → Run InternalNode
decode expected_id bytes = do
  tag ← index bytes 0
  assert (tag == page_type_internal)
  id ← read_le 8 bytes 1
  assert (id == expected_id)
  nkeys ← read_le 2 bytes 9
  (keys_end, key_start) ← decode_keys nkeys bytes internal_header (0 ∷ [])
  keys ← slice bytes internal_header keys_end
  children ← decode_children (suc nkeys) bytes keys_end []
  done (record { id = id; keys = keys; key_start = key_start; children = children })

unfoldable pub nkeys : InternalNode → Run ℕ
nkeys node = do n ← sub_checked (length node.key_start) 1; done (n % u16_mod)

unfoldable pub nchildren : InternalNode → Run ℕ
nchildren node = do n ← nkeys node; add_u16 n 1

unfoldable pub get_key : InternalNode → ℕ → Run Bytes
get_key node idx = do
  start ← index node.key_start idx
  end ← index node.key_start (idx + 1)
  slice node.keys (start + 2) end

unfoldable pub get_child : InternalNode → ℕ → Run PageId
get_child node idx = index node.children idx

unfoldable pub nbytes : InternalNode → ℕ
nbytes node = internal_header + length node.keys + 8 * length node.children

-- `self.nkeys() == 0 || key > self.get_key(self.nkeys() - 1)`
unfoldable pub may_push : InternalNode → Bytes → Run Bool
may_push node key = do
  n ← nkeys node
  if n == 0
      then done true
      else do last ← sub_checked n 1; k ← get_key node last; done (lt_bytes k key)

unfoldable pub push_key : InternalNode → Bytes → Run InternalNode
push_key node key = do
  ordered ← may_push node key
  assert ordered
  let keys = node.keys ++ (to_le_bytes 2 (length key % u16_mod) ++ key)
  done (record node { keys = keys; key_start = node.key_start ++ (length keys % u16_mod ∷ []) })

unfoldable pub push_child : InternalNode → PageId → InternalNode
push_child node child = record node { children = node.children ++ (child ∷ []) }

-- The loop of `to_bytes` over the children.
unfoldable pub write_children : List PageId → Bytes → ℕ → Run Bytes
write_children [] buf cpos = done buf
write_children (child ∷ rest) buf cpos = do
  buf ← write_le 8 buf cpos child
  write_children rest buf (cpos + 8)

-- `InternalNode::to_bytes`
unfoldable pub to_bytes : InternalNode → PageId → ℕ → Run Bytes
to_bytes node id page_size = do
  assert (leb (nbytes node) page_size)
  n ← nkeys node
  assert (length node.children == n + 1)
  buf ← assign (replicate page_size 0) 0 page_type_internal
  buf ← write_le 8 buf 1 id
  buf ← write_le 2 buf 9 n
  let keys_end = internal_header + length node.keys
  buf ← copy_from_slice buf internal_header keys_end node.keys
  write_children node.children buf keys_end

-- The loop of `internal_child_index`; the fuel bounds its rounds.
unfoldable pub child_loop : ℕ → InternalNode → Bytes → ℕ → ℕ → Run ℕ
child_loop zero node key lo hi = out_of_fuel
child_loop (suc fuel) node key lo hi =
    let mid = lo + (hi - lo) / 2 in
    let right = child_loop fuel node key (mid + 1) hi in
    let left = child_loop fuel node key lo mid in
    let round = get_key node mid >>= λ k. if le_bytes k key then right else left in
    if ltb lo hi then round else done lo

unfoldable pub internal_child_index : InternalNode → Bytes → Run ℕ
internal_child_index node key = do n ← nkeys node; child_loop (suc n) node key 0 n

-- `for i in from..to { new.push_key(node.get_key(i)); }`, with `count` rounds left
unfoldable pub push_keys : ℕ → InternalNode → InternalNode → ℕ → Run InternalNode
push_keys zero new node i = done new
push_keys (suc count) new node i = do
  key ← get_key node i
  new ← push_key new key
  push_keys count new node (i + 1)

-- `for i in from..to { new.push_child(node.get_child(i)); }`, with `count` rounds left
unfoldable pub push_children : ℕ → InternalNode → InternalNode → ℕ → Run InternalNode
push_children zero new node i = done new
push_children (suc count) new node i = do
  child ← get_child node i
  push_children count (push_child new child) node (i + 1)

-- The loop over the children of `internal_replace_child`.
unfoldable pub replace_loop : ℕ → InternalNode → InternalNode → ℕ → ℕ → PageId → Run InternalNode
replace_loop zero new node i idx new_child = done new
replace_loop (suc count) new node i idx new_child = do
  child ← if i == idx then done new_child else get_child node i
  replace_loop count (push_child new child) node (i + 1) idx new_child

unfoldable pub internal_replace_child : InternalNode → ℕ → PageId → Run InternalNode
internal_replace_child node idx new_child = do
  n ← nkeys node
  new ← push_keys n (empty (length node.keys)) node 0
  c ← nchildren node
  replace_loop c new node 0 idx new_child

unfoldable pub internal_insert_split_child :
    InternalNode → ℕ → Bytes → PageId → PageId → Run InternalNode
internal_insert_split_child node child_idx sep_key left right = do
  new ← push_keys child_idx (empty (length node.keys + 2 + length sep_key)) node 0
  new ← push_key new sep_key
  n ← nkeys node
  new ← push_keys (n - child_idx) new node child_idx
  new ← push_children child_idx new node 0
  let new = push_child (push_child new left) right
  next ← add_u16 child_idx 1
  c ← nchildren node
  push_children (c - next) new node next

-- The two closures of `internal_split_with_promotion`
unfoldable pub left_bytes : InternalNode → ℕ → Run ℕ
left_bytes grown m = do
  s ← index grown.key_start m
  keys ← add_u16 internal_header s
  c ← add_u16 m 1
  children ← mul_u16 8 c
  add_u16 keys children

unfoldable pub right_bytes : InternalNode → ℕ → ℕ → Run ℕ
right_bytes grown np m = do
  next ← add_u16 m 1
  s ← index grown.key_start next
  d ← sub_checked (length grown.keys % u16_mod) s
  keys ← add_u16 internal_header d
  c ← sub_checked np m
  children ← mul_u16 8 c
  add_u16 keys children

-- `while m >= 1 && left_bytes(m) > page_size { m -= 1; }`
unfoldable pub shrink_left : InternalNode → ℕ → ℕ → Run ℕ
shrink_left grown page_size zero = done zero
shrink_left grown page_size (suc m) =
    let rest = shrink_left grown page_size m in
    left_bytes grown (suc m) >>= λ b. if ltb page_size b then rest else done (suc m)

-- `while m < np - 1 && right_bytes(m) > page_size { m += 1; }`, with `left` the distance from `m`
-- to `np - 1`
unfoldable pub shrink_right : InternalNode → ℕ → ℕ → ℕ → ℕ → Run ℕ
shrink_right grown page_size np zero m = done m
shrink_right grown page_size np (suc left) m =
    let rest = shrink_right grown page_size np left (m + 1) in
    right_bytes grown np m >>= λ b. if ltb page_size b then rest else done m

-- The choice of the split key, with the assertions on it.
unfoldable pub split_point : InternalNode → ℕ → ℕ → Run ℕ
split_point grown np ps = do
  m ← shrink_left grown ps (np / 2)
  assert (leb 1 m)
  last ← sub_checked np 1
  m ← shrink_right grown ps np (last - m) m
  highest ← sub_checked np 2
  assert (leb m highest)
  l ← left_bytes grown m
  assert (leb l ps)
  r ← right_bytes grown np m
  assert (leb r ps)
  done m

-- Building the two halves round the key at `m`.
unfoldable pub split_around : InternalNode → ℕ → ℕ → ℕ → Run (InternalNode × Bytes × InternalNode)
split_around grown np ps m = do
  left ← push_keys m (empty ps) grown 0
  left ← push_children (m + 1) left grown 0
  promoted ← get_key grown m
  right ← push_keys (np - (m + 1)) (empty ps) grown (m + 1)
  right ← push_children (np + 1 - (m + 1)) right grown (m + 1)
  done (left, promoted, right)

unfoldable pub internal_split_with_promotion :
    InternalNode → ℕ → Run (InternalNode × Bytes × InternalNode)
internal_split_with_promotion grown page_size = do
  np ← nkeys grown
  assert (leb 2 np)
  assert (ltb page_size u16_mod)
  let ps = page_size % u16_mod
  m ← split_point grown np ps
  split_around grown np ps m
