-- ===== src/Storage/Tree/Get.antt =====
-- `get` of 01-btree/src/storage/tree.rs on a store that holds a valid tree.
use ucu_de_distributed_algor.Prelude.{
  ℕ, zero, suc, ◌<◌, ◌≡◌, refl, sym, ap, ◌∙◌, Option, none, some, List, [], ◌∷◌, ◌++◌, arith,
  length, get_elem?, All, All-append, done,
}
use ucu_de_distributed_algor.Bytes.{Bytes}
use ucu_de_distributed_algor.Bytes.Order.{gt_of_lt}
use mathlib.Core.Path.{subst}
use ucu_de_distributed_algor.Io.{PageIo}
use ucu_de_distributed_algor.Page.Tags.{PageId, u16_mod}
use ucu_de_distributed_algor.Page.{Page, internal}
use ucu_de_distributed_algor.Page.Limits.{page_of}
use ucu_de_distributed_algor.Page.Keys.{rank_le}
use ucu_de_distributed_algor.Page.Leaf.View.{Entry}
use ucu_de_distributed_algor.Page.Internal as InternalPage
use ucu_de_distributed_algor.Page.Internal.{InternalNode, internal_child_index}
use ucu_de_distributed_algor.Page.Internal.View as Node
use ucu_de_distributed_algor.Page.Internal.View.{node_of, get_child-node_of}
use ucu_de_distributed_algor.Page.Internal.Search.{internal_child_index-rank_le}
use ucu_de_distributed_algor.Storage.Entries.{lookup}
use ucu_de_distributed_algor.Storage.Store.{Store, view_root, view_read}
use ucu_de_distributed_algor.Storage.Tree.{get_loop, get}
use ucu_de_distributed_algor.Storage.Tree.Lookup.{get_loop-lookup}
use ucu_de_distributed_algor.Storage.Tree.Shape.{
  Tree, Kid, ids_of, content, flat, entries_of, Below, Stored, flat-append,
}
use ucu_de_distributed_algor.Storage.Tree.Valid.{From, Upto, Valid, Valid-InRange, Kids-IsAscending}
use ucu_de_distributed_algor.Storage.Tree.Descend.{Smaller, Larger, find-Place}

-- Entries with other keys do not matter to a lookup.
lookup-Smaller : (xs ys : List Entry) (q : Bytes) → Smaller q xs → lookup (xs ++ ys) q ≡ lookup ys q
unfolding lookup
lookup-Smaller [] ys q s = refl
lookup-Smaller (e ∷ xs) ys q s = ground (arith, s.0, lookup-Smaller xs ys q s.1)

lookup-Larger : (xs : List Entry) (q : Bytes) → Larger q xs → lookup xs q ≡ none
unfolding lookup
lookup-Larger [] q l = refl
lookup-Larger (e ∷ xs) q l = ground (arith, gt_of_lt q e.0 l.0, lookup-Larger xs q l.1)

lookup-front : (xs ys : List Entry) (q : Bytes) → Larger q ys → lookup (xs ++ ys) q ≡ lookup xs q
unfolding lookup
lookup-front [] ys q l = lookup-Larger ys q l
lookup-front (e ∷ xs) ys q l = ground (arith, lookup-front xs ys q l)

-- Only the child at the place matters to a lookup.
lookup-place {ℓ} :
    {A : Type ℓ} (E : A → List Entry) (before after : List (PageId × A)) (kid : PageId × A)
    (q : Bytes)
    → Smaller q (flat E before)
    → Larger q (flat E after)
    → lookup (flat E (before ++ kid ∷ after)) q ≡ lookup (E kid.1) q
lookup-place E before after kid q s l =
    ap (λ t. lookup t q) (flat-append E before (kid ∷ after))
    ∙ (lookup-Smaller (flat E before) (E kid.1 ++ flat E after) q s
        ∙ lookup-front (E kid.1) (flat E after) q l)

-- The child at a place, by its number.
pub kid_at {ℓ} :
    {A : Type ℓ} (before after : List (PageId × A)) (kid : PageId × A) (n : ℕ)
    → length before ≡ n
    → get_elem? (ids_of (before ++ kid ∷ after)) n ≡ some kid.0
kid_at [] after kid zero l = refl
kid_at [] after kid (suc n) l = absurd (omega arith)
kid_at (b ∷ before) after kid zero l = absurd (omega arith)
kid_at (b ∷ before) after kid (suc n) l = kid_at before after kid n (omega arith)

module _ {IO : Type 0} ⦃p : PageIo IO⦄ (ps : ℕ) (fits_u16 : ps < u16_mod) (view : Store IO)
    (q : Bytes) where
  descend :
      (fuel : ℕ) (node : InternalNode) (n : ℕ) (c : PageId) (page : Page)
      → internal_child_index node q ≡ done n
      → InternalPage.get_child node n ≡ done c
      → view_read view c ≡ done page
      → get_loop (suc fuel) view (internal node) q ≡ get_loop fuel view page q
  unfolding get_loop
  descend fuel node n c page index child read = rw (index, child, read)

  get_loop-Valid :
      (h : ℕ) (lo hi : Option Bytes) (id : PageId) (t : Tree h)
      → Valid ps h lo hi t
      → From lo q
      → Upto hi q
      → Below (view_read view) h t
      → get_loop (suc h) view (page_of id (content h t)) q ≡ done (lookup (entries_of h t) q)
  unfolding page_of
  get_loop-Valid zero lo hi id es v low high b =
      get_loop-lookup 0 view id es q (omega (arith, v.0.fits)) v.0.ascending
  get_loop-Valid (suc h) lo hi id t v low high b =
      let small : Node.IsSmall t.0 = omega (arith, v.0.fits) in
      let ascending = Kids-IsAscending (Valid ps h) lo hi t.0 t.1 v.1 in
      let place =
        find-Place (Valid ps h) (entries_of h) (Valid-InRange ps h) q lo hi t.0 t.1 low high v.1 in
      let number = internal_child_index-rank_le id t.0 (ids_of t.1) q small ascending in
      let here =
        ap (λ cs. get_elem? (ids_of cs) (rank_le t.0 q)) place.parts
        ∙ kid_at place.before place.after place.kid (rank_le t.0 q) place.number in
      let child = get_child-node_of id t.0 (ids_of t.1) (rank_le t.0 q) place.kid.0 here in
      let P : Kid h → Type 0 = λ c.
        (view_read view c.0 ≡ done (page_of c.0 (content h c.1))) × Below (view_read view) h c.1 in
      let there =
        ((All-append P place.before (place.kid ∷ place.after)).0
          (subst (λ cs. All P cs) place.parts b)).1.0 in
      descend (suc h) (node_of id t.0 (ids_of t.1)) (rank_le t.0 q) place.kid.0
        (page_of place.kid.0 (content h place.kid.1)) number child there.0
      ∙ (get_loop-Valid h place.lo' place.hi' place.kid.0 place.kid.1 place.valid place.low
            place.high there.1
          ∙ ap done (
              sym (
                ap (λ cs. lookup (flat (entries_of h) cs) q) place.parts
                ∙ lookup-place (entries_of h) place.before place.after place.kid q place.smaller
                    place.larger)))

-- A store with pages below 65536 bytes whose root is that of a valid tree of height `h`: `get`, with
-- fuel for `h + 1` levels, returns the value that the tree's entries have under the key, or nothing
-- if none has it.
pub get-lookup :
    {IO : Type 0} ⦃p : PageIo IO⦄ (ps : ℕ) (view : Store IO) (h : ℕ) (t : Tree h) (q : Bytes)
    → ps < u16_mod
    → Valid ps h none none t
    → Stored (view_read view) h view.root t
    → get (suc h) view q ≡ done (lookup (entries_of h t) q)
unfolding get view_root
get-lookup ps view h t q fits v s =
    rw s.0 (get_loop-Valid ps fits view q h none none view.root t v tt tt s.1)
