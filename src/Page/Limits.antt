-- ===== src/Page/Limits.antt =====
-- What `check_limits` leaves of an entry, and pages of either kind written and read back.
use ucu_de_distributed_algor.Prelude.{
  ℕ, suc, ◌+◌, ◌-◌, ◌*◌, ◌/◌, ◌≤◌, ◌<◌, ◌≡◌, ◌⊎◌, inl, inr, List, arith, ltb, ltb→lt, ltb_false→le,
  Bool-cases, length, ok, err, done,
}
use ucu_de_distributed_algor.Bytes.{Bytes}
use ucu_de_distributed_algor.Page.Tags.{PageId, u64_mod}
use ucu_de_distributed_algor.Page.Leaf.{leaf_header}
use ucu_de_distributed_algor.Page.Leaf.Codec.{decode-to_bytes-leaf_of}
use ucu_de_distributed_algor.Page.Leaf.View as LeafView
use ucu_de_distributed_algor.Page.Leaf.View.{Entry, leaf_of}
use ucu_de_distributed_algor.Page.Internal.{internal_header}
use ucu_de_distributed_algor.Page.Internal.View as InternalView
use ucu_de_distributed_algor.Page.Internal.View.{node_of}
use ucu_de_distributed_algor.Page.Internal.Codec.{AreIds, decode-to_bytes-node_of}
use ucu_de_distributed_algor.Page.{
  Page, leaf, internal, decode, to_bytes, entry_too_large, max_kv_size, check_limits,
}

-- For pages of at least 39 bytes `check_limits` accepts an entry exactly when an internal page has
-- room for two keys as long as the entry and three children. It reports the length and the bound
-- otherwise.
pub check_limits_bounds :
    (ps : ℕ) (key val : Bytes)
    → 39 ≤ ps
    → ((check_limits ps key val ≡ ok tt)
        × (internal_header + 2 * (2 + (length key + length val)) + 8 * 3 ≤ ps))
      ⊎ ((check_limits ps key val
            ≡ err (entry_too_large (length key + length val) (max_kv_size ps)))
          × (ps < internal_header + 2 * (2 + (length key + length val)) + 8 * 3))
unfolding check_limits max_kv_size
check_limits_bounds ps key val h =
    elim (Bool-cases (ltb ((ps - (internal_header + 28)) / 2) (length key + length val))) [
      | inl over ↦ inr (rw over, omega (arith, ltb→lt _ _ over))
      | inr fits ↦ inl (rw fits, omega (arith, ltb_false→le _ _ fits))
    ]

-- What a page holds: entries, or keys and children.
pub data Content : Type 0 where
  entries : List Entry → Content
  branches : List Bytes → List PageId → Content

unfoldable pub page_of : PageId → Content → Page
page_of id (entries es) = leaf (leaf_of id es)
page_of id (branches ks cs) = internal (node_of id ks cs)

-- The content has the shape of its kind and fits a page of `ps` bytes.
abbrev pub FitsPage : ℕ → Content → Type 0
FitsPage ps (entries es) = LeafView.IsSmall es × (leaf_header + LeafView.total es ≤ ps)
FitsPage ps (branches ks cs) =
    InternalView.IsSmall ks
    × AreIds cs
    × (length cs ≡ suc (length ks))
    × (internal_header + InternalView.total ks + 8 * length cs ≤ ps)

pub decode-to_bytes-page_of :
    (old id : PageId) (c : Content) (ps : ℕ)
    → id < u64_mod
    → FitsPage ps c
    → (bytes : Bytes) × (to_bytes (page_of old c) id ps ≡ done bytes)
      × (length bytes ≡ ps)
      × (decode id bytes ≡ done (page_of id c))
unfolding to_bytes decode page_of
decode-to_bytes-page_of old id (entries es) ps id_fits (small, fits) =
    let (bytes, written, len, tag, back) =
      decode-to_bytes-leaf_of old id es ps id_fits small fits in
    (bytes, written, len, rw (tag, back))
decode-to_bytes-page_of old id (branches ks cs) ps id_fits (small, ids, l, fits) =
    let (bytes, written, len, tag, back) =
      decode-to_bytes-node_of old id ks cs ps id_fits ids small l fits in
    (bytes, written, len, rw (tag, back))
