-- ===== src/Storage/Store/Reopen.antt =====
-- Opening a backend with a header again: `Store::open_or_create` of 01-btree/src/storage/store.rs.
use ucu_de_distributed_algor.Prelude.{
  ℕ, ◌≤◌, ◌≡◌, refl, true, List, [], ◌++◌, arith, ◌==◌, ==_self, take, ok, done,
}
use ucu_de_distributed_algor.Prelude.Count.{count-append, count-take}
use ucu_de_distributed_algor.Bytes.{Bytes}
use ucu_de_distributed_algor.Io.{PageIo}
use ucu_de_distributed_algor.Page.Tags.{PageId}
use ucu_de_distributed_algor.Page.Header as HeaderPage
use ucu_de_distributed_algor.Page.Header.{Header, header_page_id}
use ucu_de_distributed_algor.Storage.Store.{
  WriterState, Store, load_free_list_chain, with_header, open_with, open_or_create,
}
use ucu_de_distributed_algor.Storage.Store.Own.{idle}
use ucu_de_distributed_algor.Storage.Store.Chain.{IsOwned}

-- The writer's state as a reopened store has it: pending pages are free, and the chain has the pages
-- that were needed for its last payload.
abbrev pub reloaded : ℕ → WriterState → WriterState
reloaded needed w = record {
  next_page_id = w.next_page_id;
  free_list = w.free_list ++ w.pending_free;
  pending_free = [];
  free_list_page_ids = take needed w.free_list_page_ids;
}

abbrev pub reopened : {IO : Type 0} → ℕ → Store IO → IO → Store IO
reopened needed s later = record {
  io = later;
  root = s.root;
  readers = 0;
  writer = reloaded needed s.writer;
}

pub reloaded-IsOwned :
    (needed : ℕ) (w : WriterState) (X : PageId → ℕ) → IsOwned w X → IsOwned (reloaded needed w) X
reloaded-IsOwned needed w X o = record {
  once = λ i. omega (arith, fewer i, o.once i);
  inside = λ i h. o.inside i (omega (arith, fewer i));
  positive = o.positive;
}
  where
    fewer : (i : PageId) → idle (reloaded needed w) i ≤ idle w i
    fewer i =
        omega (
          arith,
          count-append w.free_list w.pending_free i,
          count-take needed w.free_list_page_ids i,
        )

pub open_header :
    {IO : Type 0} ⦃p : PageIo IO⦄ (fuel : ℕ) (io : IO) (bytes : Bytes) (h : Header)
    (free ids : List PageId)
    → p.read_page io header_page_id ≡ done bytes
    → HeaderPage.from_bytes bytes ≡ done (ok h)
    → h.page_size ≡ p.page_size io
    → load_free_list_chain fuel io h.free_list_head ≡ done (free, ids)
    → open_or_create fuel io
      ≡ done (
          ok (record {
            io = io;
            root = h.root_id;
            readers = 0;
            writer = record {
              next_page_id = h.next_page_id;
              free_list = free;
              pending_free = [];
              free_list_page_ids = ids;
            };
          }))
unfolding open_or_create open_with with_header
open_header ⦃p⦄ fuel io bytes h free ids read decoded size loaded =
    let same : (h.page_size == p.page_size io) ≡ true = ground (arith, ==_self (p.page_size io)) in
    rw (read, decoded, same, loaded) refl
