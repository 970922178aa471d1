-- ===== src/Storage/Store/Chain.antt =====
-- Who owns the pages between transactions, and how the free-list chain grows: `persist_free_list` of
-- 01-btree/src/storage/store.rs.
pub mod Write
pub mod Persist
use ucu_de_distributed_algor.Prelude.{
  ℕ, zero, suc, ◌+◌, ◌≤◌, ◌<◌, ◌≡◌, refl, ap, [], ◌∷◌, ◌++◌, arith, lt→ltb, length, length-append,
  done,
}
use native.Mathlib.Decide.{ℕ_discrete}
use ucu_de_distributed_algor.Prelude.Count.{one_ne, one_le, count-snoc}
use ucu_de_distributed_algor.Page.Tags.{PageId, u64_mod}
use ucu_de_distributed_algor.Storage.Store.{WriterState, next_u64, extend_chain}
use ucu_de_distributed_algor.Storage.Store.Own.{idle}

-- Ownership with no transaction open: of the pages in use, counted by `X`, and of the lists.
pub record IsOwned (w : WriterState) (X : PageId → ℕ) : Type 0 where
  pub once : (i : PageId) → X i + idle w i ≤ 1
  pub inside : (i : PageId) → 1 ≤ X i + idle w i → (0 < i) × (i < w.next_page_id)
  pub positive : 0 < w.next_page_id

longer : WriterState → WriterState
longer w = record w {
  next_page_id = w.next_page_id + 1;
  free_list_page_ids = w.free_list_page_ids ++ (w.next_page_id ∷ []);
}

longer-IsOwned : (w : WriterState) (X : PageId → ℕ) → IsOwned w X → IsOwned (longer w) X
unfolding longer
longer-IsOwned w X o =
    let next = w.next_page_id in
    let counted = λ (i : PageId). count-snoc w.free_list_page_ids next i in
    record {
      once = λ i. elim (ℕ_discrete next i) [
        | yes e ↦ omega (arith, counted i, ap (λ j. X j + idle w j) e, unowned, one_le next i)
        | no n ↦ omega (arith, counted i, one_ne next i n, o.once i)
      ];
      inside = λ i h. elim (ℕ_discrete next i) [
        | yes e ↦ omega (arith, o.positive)
        | no n ↦ omega (arith, o.inside i (omega (arith, counted i, one_ne next i n)))
      ];
      positive = omega arith;
    }
  where
    unowned : X w.next_page_id + idle w w.next_page_id ≡ 0
    unowned = elim (ℕ_discrete (X w.next_page_id + idle w w.next_page_id) 0) [
      | yes e ↦ e
      | no n ↦ absurd (omega (arith, o.inside w.next_page_id (omega arith)))
    ]

-- The chain gets pages that nobody owned.
pub extend_chain-IsOwned :
    (k : ℕ) (w : WriterState) (X : PageId → ℕ)
    → w.next_page_id + k < u64_mod
    → IsOwned w X
    → (w' : WriterState) × (extend_chain k w ≡ done w')
      × IsOwned w' X
      × (w'.next_page_id ≡ w.next_page_id + k)
      × (w'.free_list ≡ w.free_list)
      × (w'.pending_free ≡ w.pending_free)
      × (length w'.free_list_page_ids ≡ length w.free_list_page_ids + k)
unfolding extend_chain next_u64 longer
extend_chain-IsOwned zero w X room o = (w, refl, o, omega arith, refl, refl, omega arith)
extend_chain-IsOwned (suc k) w X room o =
    let (w', run, own, next, free, pending, len) =
      extend_chain-IsOwned k (longer w) X (omega arith) (longer-IsOwned w X o) in
    (
      w',
      rw (lt→ltb (w.next_page_id + 1) u64_mod (omega arith)) run,
      own,
      omega (arith, next),
      free,
      pending,
      omega (arith, len, length-append w.free_list_page_ids (w.next_page_id ∷ [])),
    )
