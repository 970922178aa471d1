-- ===== src/Storage/Store/Transaction.antt =====
-- What a transaction reads after a write: `WriteTxn::read` and `WriteTxn::write` of
-- 01-btree/src/storage/store.rs.
use ucu_de_distributed_algor.Prelude.{◌≡◌, ◌≢◌, some, List, [], ◌∷◌, ◌++◌, arith, ==_self}
use ucu_de_distributed_algor.Bytes.{Bytes}
use ucu_de_distributed_algor.Page.Tags.{PageId}
use ucu_de_distributed_algor.Storage.Store.{last_write}

pub last_write-snoc_self :
    (ws : List (PageId × Bytes)) (id : PageId) (bytes : Bytes)
    → last_write (ws ++ (id, bytes) ∷ []) id ≡ some bytes
unfolding last_write
last_write-snoc_self [] id bytes = ground (arith, ==_self id)
last_write-snoc_self ((pid, b) ∷ ws) id bytes = ground (arith, last_write-snoc_self ws id bytes)

pub last_write-snoc_ne :
    (ws : List (PageId × Bytes)) (id j : PageId) (bytes : Bytes)
    → j ≢ id
    → last_write (ws ++ (id, bytes) ∷ []) j ≡ last_write ws j
unfolding last_write
last_write-snoc_ne [] id j bytes n = ground arith
last_write-snoc_ne ((pid, b) ∷ ws) id j bytes n = ground (arith, last_write-snoc_ne ws id j bytes n)
