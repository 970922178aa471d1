-- ===== src/Storage/Tree/Insert.antt =====
-- `insert_leaf` and `insert_internal` of 01-btree/src/storage/tree.rs, on a valid tree of any height.
use ucu_de_distributed_algor.Prelude.{
  ℕ, zero, suc, ◌+◌, ◌≤◌, ◌<◌, ◌≡◌, refl, sym, ap, ◌∙◌, Option, List, [], ◌∷◌, ◌++◌, arith,
  get_elem?, All, All-append, ok, done,
}
use mathlib.Core.Path.{subst}
use ucu_de_distributed_algor.Bytes.{Bytes}
use ucu_de_distributed_algor.Bytes.Order.{gt_of_lt}
use ucu_de_distributed_algor.Io.{PageIo}
use ucu_de_distributed_algor.Page.Tags.{PageId, u64_mod}
use ucu_de_distributed_algor.Page.{Page, internal, check_limits}
use ucu_de_distributed_algor.Page.Limits.{page_of}
use ucu_de_distributed_algor.Page.Keys.{rank_le}
use ucu_de_distributed_algor.Page.Leaf.View.{Entry}
use ucu_de_distributed_algor.Page.Internal as InternalPage
use ucu_de_distributed_algor.Page.Internal.{InternalNode, internal_child_index}
use ucu_de_distributed_algor.Page.Internal.View.{node_of, get_child-node_of}
use ucu_de_distributed_algor.Page.Internal.Search.{internal_child_index-rank_le}
use ucu_de_distributed_algor.Storage.Entries.{upsert}
use ucu_de_distributed_algor.Storage.Store.{WriteTxn, txn_read, txn_page_size, free}
use ucu_de_distributed_algor.Storage.Store.Own.{Own, Own-cong}
use ucu_de_distributed_algor.Storage.Tree.{InsertResult, insert_page, absorb}
use ucu_de_distributed_algor.Storage.Tree.InsertLeaf.{max_page_size}
use ucu_de_distributed_algor.Storage.Tree.Shape.{
  Tree, Kid, ids_of, content, flat, entries_of, uses, Below, flat-append,
}
use ucu_de_distributed_algor.Storage.Tree.Valid.{From, Upto, Valid, Valid-InRange, Kids-IsAscending}
use ucu_de_distributed_algor.Storage.Tree.Descend.{Smaller, Larger, find-Place}
use ucu_de_distributed_algor.Storage.Tree.Get.{kid_at}
use ucu_de_distributed_algor.Storage.Tree.Outcome.{Outcome, Outcome-out, insert_page-leaf}
use ucu_de_distributed_algor.Storage.Tree.Absorb.{outside, uses-parts, absorb-Outcome}

-- An upsert concerns only the part in which the key belongs.
upsert-Smaller :
    (xs ys : List Entry) (k v : Bytes) → Smaller k xs → upsert (xs ++ ys) k v ≡ xs ++ upsert ys k v
unfolding upsert
upsert-Smaller [] ys k v s = refl
upsert-Smaller (e ∷ xs) ys k v s = ground (arith, s.0, upsert-Smaller xs ys k v s.1)

upsert-Larger :
    (xs ys : List Entry) (k v : Bytes) → Larger k ys → upsert (xs ++ ys) k v ≡ upsert xs k v ++ ys
unfolding upsert
upsert-Larger [] [] k v l = refl
upsert-Larger [] (y ∷ ys) k v l = ground (arith, gt_of_lt k y.0 l.0)
upsert-Larger (e ∷ xs) ys k v l = ground (arith, upsert-Larger xs ys k v l)

upsert-place {ℓ} :
    {A : Type ℓ} (E : A → List Entry) (before after : List (PageId × A)) (kid : PageId × A)
    (k v : Bytes)
    → Smaller k (flat E before)
    → Larger k (flat E after)
    → flat E before ++ (upsert (E kid.1) k v ++ flat E after)
      ≡ upsert (flat E (before ++ kid ∷ after)) k v
upsert-place E before after kid k v s l = sym (
    ap (λ t. upsert t k v) (flat-append E before (kid ∷ after))
    ∙ (upsert-Smaller (flat E before) (E kid.1 ++ flat E after) k v s
        ∙ ap (λ t. flat E before ++ t) (upsert-Larger (E kid.1) (flat E after) k v l)))

-- The pages that an insertion at a height allocates at most.
abbrev pub allowance : ℕ → ℕ
allowance zero = 0
allowance (suc h) = allowance h + 2

module _ {IO : Type 0} ⦃p : PageIo IO⦄ (ps : ℕ) (k v : Bytes) (wide : 39 ≤ ps)
    (narrow : ps ≤ max_page_size) (accept : check_limits ps k v ≡ ok tt) where
  through :
      (fuel : ℕ) (t u : WriteTxn IO) (node : InternalNode) (n : ℕ) (c : PageId) (child : Page)
      (r : InsertResult) (x : InsertResult × WriteTxn IO)
      → internal_child_index node k ≡ done n
      → InternalPage.get_child node n ≡ done c
      → txn_read t c ≡ done child
      → insert_page fuel t child k v ps ≡ done (r, u)
      → absorb (free u c) node n ps r ≡ done x
      → insert_page (suc fuel) t (internal node) k v ps ≡ done x
  unfolding insert_page
  through fuel t u node n c child r x index at read inner outer = rw (index, at, read, inner) outer

  -- Inserting into the subtree of a page that was read returns, with fuel for one level more than its
  -- height. The outcome keeps to the bounds of the subtree and has the upserted entries.
  pub insert_page-Outcome :
      (h : ℕ) (lo hi : Option Bytes) (id : PageId) (t : Tree h) (txn : WriteTxn IO) (R : PageId → ℕ)
      → txn_page_size txn ≡ ps
      → Valid ps h lo hi t
      → From lo k
      → Upto hi k
      → Below (txn_read txn) h t
      → Own txn (λ i. uses h t i + R i)
      → txn.store.writer.next_page_id + allowance h < u64_mod
      → (r : InsertResult) × (u : WriteTxn IO) × (insert_page
            (suc h)
            txn
            (page_of id (content h t))
            k
            v
            ps
          ≡ done (r, u))
        × Outcome ps h lo hi
            (upsert (entries_of h t) k v)
            R
            (allowance h)
            txn
            (λ i. uses h t i + R i)
            u
            r
  unfolding page_of
  insert_page-Outcome zero lo hi id es txn R size valid low high below own room =
      let (r, run, outcome) =
        insert_page-leaf ps k v wide narrow accept txn R id es lo hi valid.0 valid.1 low high own in
      (r, txn, run, outcome)
  insert_page-Outcome (suc h) lo hi id t txn R size valid low high below own room =
      let place =
        find-Place (Valid ps h) (entries_of h) (Valid-InRange ps h) k lo hi t.0 t.1 low high
          valid.1 in
      let n = rank_le t.0 k in
      let index =
        internal_child_index-rank_le id t.0 (ids_of t.1) k (omega (arith, valid.0.fits))
          (Kids-IsAscending (Valid ps h) lo hi t.0 t.1 valid.1) in
      let here =
        ap (λ cs. get_elem? (ids_of cs) n) place.parts
        ∙ kid_at place.before place.after place.kid n place.number in
      let at = get_child-node_of id t.0 (ids_of t.1) n place.kid.0 here in
      let P : Kid h → Type 0 =
        λ c. (txn_read txn c.0 ≡ done (page_of c.0 (content h c.1))) × Below (txn_read txn) h c.1 in
      let there =
        ((All-append P place.before (place.kid ∷ place.after)).0
          (subst (λ cs. All P cs) place.parts below)).1.0 in
      let counted =
        uses-parts ps narrow h wide lo hi t.0 t.1 k n place valid.0 valid.1 txn R size below in
      let (r, u, inner, outcome) =
        insert_page-Outcome h place.lo' place.hi' place.kid.0 place.kid.1 txn
          (outside ps narrow h wide lo hi t.0 t.1 k n place valid.0 valid.1 txn R size below) size
          place.valid place.low place.high there.1 (Own-cong counted own) (omega arith) in
      let (r', u', outer, outcome') =
        absorb-Outcome ps narrow h wide lo hi t.0 t.1 k n place valid.0 valid.1 txn R size below id
          u (allowance h) (upsert (entries_of h place.kid.1) k v) r outcome (omega arith) in
      (
        r',
        u',
        through (suc h) txn u (node_of id t.0 (ids_of t.1)) n place.kid.0
            (page_of place.kid.0 (content h place.kid.1)) r (r', u') index at there.0 inner outer,
        Outcome-out
            (upsert-place (entries_of h) place.before place.after place.kid k v place.smaller
                place.larger
              ∙ sym (ap (λ cs. upsert (flat (entries_of h) cs) k v) place.parts))
            outcome',
      )
