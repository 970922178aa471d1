-- ===== src/Storage/Tree/Grown.antt =====
-- An internal node that took in a separator and a child: it fits its page, or is split in two. The
-- last step of `insert_internal` in 01-btree/src/storage/tree.rs.
use ucu_de_distributed_algor.Prelude.{
  ℕ, suc, ◌+◌, ◌-◌, ◌*◌, ◌≤◌, ◌<◌, ◌≡◌, refl, sym, ap, ◌∙◌, Option, some, List, arith, leb,
  if◌then◌else◌, le→leb, lt→leb_false, length, get_elem?, take, drop, All, length-take, length-drop,
  take-append-drop, All-take, All-drop, All-get, Run, done, ◌>>=◌,
}
use native.Mathlib.Decide.{dec_le}
use ucu_de_distributed_algor.Prelude.Count.{one}
use ucu_de_distributed_algor.Bytes.{Bytes}
use ucu_de_distributed_algor.Io.{PageIo}
use ucu_de_distributed_algor.Page.Tags.{PageId, u16_mod}
use ucu_de_distributed_algor.Page.{internal}
use ucu_de_distributed_algor.Page.Limits.{page_of}
use ucu_de_distributed_algor.Page.Internal as InternalPage
use ucu_de_distributed_algor.Page.Internal.{internal_header, internal_split_with_promotion}
use ucu_de_distributed_algor.Page.Internal.View as Node
use ucu_de_distributed_algor.Page.Internal.View.{node_of, nbytes-node_of}
use ucu_de_distributed_algor.Page.Internal.Split.{IsOverfull, internal_split_with_promotion-fits}
use ucu_de_distributed_algor.Storage.Store.{WriteTxn, txn_read}
use ucu_de_distributed_algor.Storage.Store.Own.{Own, Grows, Own-cong, Grows-cong}
use ucu_de_distributed_algor.Storage.Tree.{InsertResult, single, split}
use ucu_de_distributed_algor.Storage.Tree.Shape.{
  Kid, ids_of, content, flat, entries_of, sum, uses, Below, sum-append, flat-append, ids_of-take,
  ids_of-drop, length-ids_of,
}
use ucu_de_distributed_algor.Storage.Tree.Valid.{
  Kids, Valid, Kids-length, Kids-IsAscending, Kids-split,
}
use ucu_de_distributed_algor.Storage.Tree.Outcome.{Outcome, fits, splits}

-- What the code does with the grown node.
abbrev pub settles :
    {IO : Type 0} → InternalPage.InternalNode → ℕ → WriteTxn IO → Run (InsertResult × WriteTxn IO)
settles grown ps u =
    if leb (InternalPage.nbytes grown) ps then done (single (internal grown), u) else (do
      (l2, promoted, r2) ← internal_split_with_promotion grown ps
      done (split (internal l2) promoted (internal r2), u))

-- The two runs of that code.
settles-fits :
    {IO : Type 0} (ks : List Bytes) (cs : List PageId) (ps : ℕ) (u : WriteTxn IO)
    → internal_header + Node.total ks + 8 * length cs ≤ ps
    → settles (node_of 0 ks cs) ps u ≡ done (single (internal (node_of 0 ks cs)), u)
settles-fits ks cs ps u fit =
    rw (nbytes-node_of 0 ks cs, le→leb (internal_header + Node.total ks + 8 * length cs) ps fit)

settles-splits :
    {IO : Type 0} (ks : List Bytes) (cs : List PageId) (ps : ℕ) (u : WriteTxn IO)
    (a : InternalPage.InternalNode) (k : Bytes) (b : InternalPage.InternalNode)
    → ps < internal_header + Node.total ks + 8 * length cs
    → internal_split_with_promotion (node_of 0 ks cs) ps ≡ done (a, k, b)
    → settles (node_of 0 ks cs) ps u ≡ done (split (internal a) k (internal b), u)
settles-splits ks cs ps u a k b big cut = rw (
  nbytes-node_of 0 ks cs,
  lt→leb_false (internal_header + Node.total ks + 8 * length cs) ps big,
  cut,
)

module _ {IO : Type 0} ⦃p : PageIo IO⦄ (ps h : ℕ) (lo hi : Option Bytes) (ks : List Bytes)
    (cs : List (Kid h)) (kids : Kids (Valid ps h) lo hi ks cs)
    (each : All (λ k. 2 * Node.size k + 35 ≤ ps) ks) (wide : 39 ≤ ps) (narrow : ps < u16_mod)
    (bytes_fit : internal_header + Node.total ks + 8 * suc (length ks) < u16_mod)
    (whole : 2 * Node.total ks + 16 * length ks + 57 ≤ 3 * ps) (t : WriteTxn IO) (X R : PageId → ℕ)
    (n : ℕ) (u : WriteTxn IO) (below : Below (txn_read u) (suc h) (ks, cs))
    (own : Own u (λ i. sum (λ c. one c.0 i + uses h c.1 i) cs + R i))
    (grows : Grows n t X u (λ i. sum (λ c. one c.0 i + uses h c.1 i) cs + R i)) where
  weight : PageId → Kid h → ℕ
  weight i c = one c.0 i + uses h c.1 i

  width : length cs ≡ suc (length ks)
  width = Kids-length (Valid ps h) lo hi ks cs kids

  kept :
      internal_header + Node.total ks + 8 * length cs ≤ ps
      → Outcome ps
          (suc h)
          lo
          hi
          (flat (entries_of h) cs)
          R
          n
          t
          X
          u
          (single (internal (node_of 0 ks (ids_of cs))))
  unfolding page_of
  kept fit = fits (ks, cs) refl (record { fits = fit; each = each }, kids) refl below own grows

  overfull :
      ps < internal_header + Node.total ks + 8 * suc (length ks) → IsOverfull ps ks (ids_of cs)
  overfull big = record {
    keys = record {
      small = omega arith;
      ascending = Kids-IsAscending (Valid ps h) lo hi ks cs kids;
    };
    children = length-ids_of cs ∙ width;
    page_fits = narrow;
    bytes_fit = bytes_fit;
    each = each;
    whole = whole;
    over = big;
  }

  halves :
      (m : ℕ) (k : Bytes)
      → get_elem? ks m ≡ some k
      → internal_header + Node.total (take m ks) + 8 * suc m ≤ ps
      → internal_header + Node.total (drop (suc m) ks) + 8 * (length ks - m) ≤ ps
      → suc (suc m) ≤ length ks
      → Outcome ps (suc h) lo hi (flat (entries_of h) cs) R n t X u (
          split
            (internal (node_of 0 (take m ks) (take (suc m) (ids_of cs))))
            k
            (internal (node_of 0 (drop (suc m) ks) (drop (suc m) (ids_of cs)))))
  unfolding page_of weight
  halves m k here left_fits right_fits inner =
      let (left, right, past, upto) = Kids-split (Valid ps h) lo hi ks cs m k kids here in
      let front = take (suc m) cs in
      let back = drop (suc m) cs in
      let whole_list = take-append-drop (suc m) cs in
      let counted = λ (i : PageId). sum-append (weight i) front back in
      let total_count = λ (i : PageId). sym (counted i) ∙ ap (λ l. sum (weight i) l) whole_list in
      let P : Kid h → Type 0 =
        λ c. (txn_read u c.0 ≡ done (page_of c.0 (content h c.1))) × Below (txn_read u) h c.1 in
      splits (take m ks, front) (drop (suc m) ks, back) k
        (rw (ids_of-take (suc m) cs, ids_of-drop (suc m) cs)) past upto
        (omega (arith, All-get (λ x. 2 * Node.size x + 35 ≤ ps) ks m k here each))
        (
          record {
            fits = omega (arith, length-take (suc m) cs, width);
            each = All-take (λ x. 2 * Node.size x + 35 ≤ ps) m ks each;
          },
          left,
        )
        (
          record {
            fits = omega (arith, length-drop (suc m) cs, width);
            each = All-drop (λ x. 2 * Node.size x + 35 ≤ ps) (suc m) ks each;
          },
          right,
        )
        (sym (flat-append (entries_of h) front back) ∙ ap (flat (entries_of h)) whole_list)
        (All-take P (suc m) cs below) (All-drop P (suc m) cs below)
        (Own-cong (λ i. omega (arith, total_count i)) own)
        (Grows-cong (λ i. omega (arith, total_count i)) grows)

  pub settles-Outcome :
      (r : InsertResult) × (settles (node_of 0 ks (ids_of cs)) ps u ≡ done (r, u))
      × Outcome ps (suc h) lo hi (flat (entries_of h) cs) R n t X u r
  settles-Outcome = elim (dec_le (internal_header + Node.total ks + 8 * length (ids_of cs)) ps) [
    | yes fit ↦ (
      single (internal (node_of 0 ks (ids_of cs))),
      settles-fits ks (ids_of cs) ps u fit,
      kept (omega (arith, length-ids_of cs)),
    )
    | no over ↦
        let big : ps < internal_header + Node.total ks + 8 * length (ids_of cs) = omega arith in
        let (m, k, here, cut, pos, inner, left_fits, right_fits) =
          internal_split_with_promotion-fits ps 0 ks (ids_of cs) (omega arith)
            (overfull (omega (arith, length-ids_of cs, width))) in
        (
          split (internal (node_of 0 (take m ks) (take (suc m) (ids_of cs)))) k
              (internal (node_of 0 (drop (suc m) ks) (drop (suc m) (ids_of cs)))),
          settles-splits ks (ids_of cs) ps u (node_of 0 (take m ks) (take (suc m) (ids_of cs))) k
              (node_of 0 (drop (suc m) ks) (drop (suc m) (ids_of cs))) big cut,
          halves m k here left_fits right_fits inner,
        )
  ]
