-- ===== src/Storage/Tree.antt =====
-- The tree over the store's pages: 01-btree/src/storage/tree.rs.
pub mod InsertLeaf
pub mod Shape
pub mod Valid
pub mod Descend
pub mod Outcome
pub mod Absorb
pub mod Grown
pub mod Insert
pub mod Root
pub mod Height
pub mod Get
pub mod Lookup
use ucu_de_distributed_algor.Prelude.{
  ℕ, zero, suc, Option, none, some, leb, if◌then◌else◌, Run, Result, ok, err, done, out_of_fuel,
  ◌>>=◌, ◌>>◌,
}
use ucu_de_distributed_algor.Bytes.{Bytes}
use ucu_de_distributed_algor.Io.{PageIo}
use ucu_de_distributed_algor.Page.Tags.{PageId}
use ucu_de_distributed_algor.Page.{Page, leaf, internal, Error, check_limits}
use ucu_de_distributed_algor.Page.Leaf as LeafPage
use ucu_de_distributed_algor.Page.Leaf.{
  LeafNode, Found, at, belongs_at, leaf_search, leaf_insert, leaf_update, leaf_split_by_size,
}
use ucu_de_distributed_algor.Page.Internal as InternalPage
use ucu_de_distributed_algor.Page.Internal.{
  InternalNode, internal_child_index, internal_replace_child, internal_insert_split_child,
  internal_split_with_promotion,
}
use ucu_de_distributed_algor.Storage.Store.{
  Store, WriteTxn, view_root, view_read, txn_page_size, txn_root, txn_read, alloc, write, free,
  commit,
}

pub data InsertResult : Type 0 where
  single : Page → InsertResult
  -- left, separator key, right
  split : Page → Bytes → Page → InsertResult

-- The leaf with the entry put in at the place that the search found.
unfoldable pub place : LeafNode → Bytes → Bytes → Found → Run LeafNode
place node key val (at idx) = leaf_update node idx key val
place node key val (belongs_at idx) = leaf_insert node idx key val

unfoldable pub insert_leaf : LeafNode → Bytes → Bytes → ℕ → Run InsertResult
insert_leaf node key val page_size = do
  found ← leaf_search node key
  built ← place node key val found
  if leb (LeafPage.nbytes built) page_size then done (single (leaf built)) else do
    (left, right) ← leaf_split_by_size built page_size
    sep_key ← LeafPage.get_key right 0
    done (split (leaf left) sep_key (leaf right))

-- The value of a leaf at the place found.
unfoldable pub value_at : LeafNode → Found → Run (Option Bytes)
value_at l (at idx) = LeafPage.get_val l idx >>= λ v. done (some v)
value_at l (belongs_at idx) = done none

module _ {IO : Type 0} ⦃p : PageIo IO⦄ where
  -- The second half of `insert_internal`: what the parent makes of its child's result.
  unfoldable pub absorb :
      WriteTxn IO → InternalNode → ℕ → ℕ → InsertResult → Run (InsertResult × WriteTxn IO)
  absorb txn node idx page_size (single new_child) = do
    (id, txn) ← alloc txn
    txn ← write txn id new_child
    new ← internal_replace_child node idx id
    done (single (internal new), txn)
  absorb txn node idx page_size (split left sep_key right) = do
    (lid, txn) ← alloc txn
    txn ← write txn lid left
    (rid, txn) ← alloc txn
    txn ← write txn rid right
    grown ← internal_insert_split_child node idx sep_key lid rid
    if leb (InternalPage.nbytes grown) page_size then done (single (internal grown), txn) else do
      (l2, promoted, r2) ← internal_split_with_promotion grown page_size
      done (split (internal l2) promoted (internal r2), txn)

  -- `match page { Leaf => insert_leaf, Internal => insert_internal }`, on fuel for the levels left
  unfoldable pub insert_page :
      ℕ → WriteTxn IO → Page → Bytes → Bytes → ℕ → Run (InsertResult × WriteTxn IO)
  insert_page zero txn page key val page_size = out_of_fuel
  insert_page (suc fuel) txn (leaf l) key val page_size =
      insert_leaf l key val page_size >>= λ result. done (result, txn)
  insert_page (suc fuel) txn (internal node) key val page_size = do
    idx ← internal_child_index node key
    child_id ← InternalPage.get_child node idx
    child ← txn_read txn child_id
    (result, txn) ← insert_page fuel txn child key val page_size
    absorb (free txn child_id) node idx page_size result

  -- The new root of `put`.
  unfoldable pub grow_root : WriteTxn IO → ℕ → InsertResult → Run (PageId × WriteTxn IO)
  grow_root txn page_size (single node) = do
    (id, txn) ← alloc txn
    txn ← write txn id node
    done (id, txn)
  grow_root txn page_size (split left sep_key right) = do
    (lid, txn) ← alloc txn
    txn ← write txn lid left
    (rid, txn) ← alloc txn
    txn ← write txn rid right
    root ← InternalPage.push_key (InternalPage.empty page_size) sep_key
    let root = InternalPage.push_child (InternalPage.push_child root lid) rid
    (id, txn) ← alloc txn
    txn ← write txn id (internal root)
    done (id, txn)

  -- The part of `put` behind `check_limits`.
  unfoldable pub put_checked : ℕ → WriteTxn IO → Bytes → Bytes → Run (Store IO)
  put_checked fuel txn key val = do
    let page_size = txn_page_size txn
    let root_id = txn_root txn
    page ← txn_read txn root_id
    (result, txn) ← insert_page fuel txn page key val page_size
    (new_root, txn) ← grow_root (free txn root_id) page_size result
    commit txn new_root

  -- `put` returns its result and the store behind the transaction, which an error leaves alone.
  unfoldable pub put : ℕ → WriteTxn IO → Bytes → Bytes → Run (Result (Unit {0}) Error × Store IO)
  put fuel txn key val = elim (check_limits (txn_page_size txn) key val) [
    | err e ↦ done (err e, txn.store)
    | ok _ ↦ put_checked fuel txn key val >>= λ store. done (ok tt, store)
  ]

  -- The loop of `get`, on fuel for the levels left.
  unfoldable pub get_loop : ℕ → Store IO → Page → Bytes → Run (Option Bytes)
  get_loop zero view page key = out_of_fuel
  get_loop (suc fuel) view (leaf l) key = leaf_search l key >>= value_at l
  get_loop (suc fuel) view (internal i) key = do
    idx ← internal_child_index i key
    child ← InternalPage.get_child i idx
    page ← view_read view child
    get_loop fuel view page key

  unfoldable pub get : ℕ → Store IO → Bytes → Run (Option Bytes)
  get fuel view key = do page ← view_read view (view_root view); get_loop fuel view page key
