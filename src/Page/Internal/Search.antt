-- ===== src/Page/Internal/Search.antt =====
-- `internal_child_index` on a node with ascending keys.
use ucu_de_distributed_algor.Prelude.{
  ℕ, zero, suc, ◌+◌, ◌-◌, ◌/◌, ◌≤◌, ◌<◌, ◌≡◌, ap, inl, inr, List, arith, lt→ltb, le→ltb_false,
  Bool-cases, length, get_elem?_lt, done,
}
use ucu_de_distributed_algor.Bytes.{Bytes, le_bytes}
use native.Mathlib.Decide.{dec_lt}
use native.Mathlib.Numerals.{add-one}
use ucu_de_distributed_algor.Page.Tags.{PageId}
use ucu_de_distributed_algor.Page.Keys.{
  IsAscending, rank_le, rank_le_down, prefix_len-le, pass_lt_prefix, fail_ge_prefix,
}
use ucu_de_distributed_algor.Page.Internal.{child_loop, internal_child_index}
use ucu_de_distributed_algor.Page.Internal.View.{node_of, IsSmall, nkeys-node_of, get_key-node_of}

module _ (id : PageId) (ks : List Bytes) (cs : List PageId) (q : Bytes) (s : IsAscending ks) where
  child_loop-rank_le :
      (fuel lo hi : ℕ)
      → hi - lo < fuel
      → lo ≤ rank_le ks q
      → rank_le ks q ≤ hi
      → hi ≤ length ks
      → child_loop fuel (node_of id ks cs) q lo hi ≡ done (rank_le ks q)
  unfolding child_loop
  child_loop-rank_le zero lo hi f l h fits = absurd (omega arith)
  child_loop-rank_le (suc fuel) lo hi f l h fits = elim (dec_lt lo hi) [
    | no empty ↦ rw (le→ltb_false lo hi (omega arith)) (ap done (omega arith))
    | yes below ↦
        let mid = lo + (hi - lo) / 2 in
        let (k, here) = get_elem?_lt ks mid (omega arith) in
        elim (Bool-cases (le_bytes k q)) [
          | inl pass ↦
              let r = pass_lt_prefix (λ x. le_bytes x q) ks s (rank_le_down q) mid k here pass in
              rw (lt→ltb lo hi below, get_key-node_of id ks cs mid k here, pass, add-one mid)
                (child_loop-rank_le fuel (suc mid) hi (omega arith) r h fits)
          | inr fail ↦
              let r = fail_ge_prefix (λ x. le_bytes x q) ks s (rank_le_down q) mid k here fail in
              rw (lt→ltb lo hi below, get_key-node_of id ks cs mid k here, fail)
                (child_loop-rank_le fuel lo mid (omega arith) l r (omega arith))
        ]
  ]

-- On a node whose keys ascend and whose offsets fit 16 bits `internal_child_index` returns the number of keys that are at most
-- the key searched for.
pub internal_child_index-rank_le :
    (id : PageId) (ks : List Bytes) (cs : List PageId) (q : Bytes)
    → IsSmall ks
    → IsAscending ks
    → internal_child_index (node_of id ks cs) q ≡ done (rank_le ks q)
unfolding internal_child_index
internal_child_index-rank_le id ks cs q small s = rw (nkeys-node_of id ks cs small) (
    child_loop-rank_le id ks cs q s (suc (length ks)) 0 (length ks) (omega arith) (omega arith)
      (prefix_len-le (λ x. le_bytes x q) ks) (omega arith))
