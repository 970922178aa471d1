-- ===== src/Storage/Tree/Lookup.antt =====
-- What `get` of 01-btree/src/storage/tree.rs finds in a leaf.
use ucu_de_distributed_algor.Prelude.{
  ℕ, zero, suc, Ordering, ◌≡◌, refl, sym, ap, ◌∙◌, ◌≢◌, none, some, List, [], ◌∷◌, arith, get_elem?,
  get_elem?-split, get_elem?_lt, length-map, done,
}
use ucu_de_distributed_algor.Bytes.{Bytes, cmp}
use ucu_de_distributed_algor.Bytes.Order.{cmp_refl, gt_of_lt}
use mathlib.Core.Option.{some-injective}
use native.Mathlib.Decide.{dec_lt}
use ucu_de_distributed_algor.Io.{PageIo}
use ucu_de_distributed_algor.Page.Tags.{PageId}
use ucu_de_distributed_algor.Page.{leaf}
use ucu_de_distributed_algor.Page.Keys.{IsAscending, All_at}
use ucu_de_distributed_algor.Page.Leaf.{Found, at, belongs_at}
use ucu_de_distributed_algor.Page.Leaf.View.{
  Entry, key_of, keys, leaf_of, IsSmall, get_val-leaf_of, get_elem?-keys,
}
use ucu_de_distributed_algor.Page.Leaf.Search.{IsPlace, leaf_search-IsPlace}
use ucu_de_distributed_algor.Storage.Entries.{lookup}
use ucu_de_distributed_algor.Storage.Store.{Store}
use ucu_de_distributed_algor.Storage.Tree.{value_at, get_loop}

-- The entry at an index with the key is the one found.
lookup_at :
    (es : List Entry) (i : ℕ) (e : Entry)
    → IsAscending (keys es)
    → get_elem? es i ≡ some e
    → lookup es e.0 ≡ some e.1
unfolding lookup
lookup_at [] i e s h = cc
lookup_at (x ∷ es) zero e s h = let same : x ≡ e = some-injective _ _ h in rw same found
  where
    found : lookup (e ∷ es) e.0 ≡ some e.1
    found = ground (arith, cmp_refl e.0)
lookup_at (x ∷ es) (suc i) e s h =
    let below = All_at x.0 (keys es) i e.0 s.0 (get_elem?-keys es i e h) in
    ground (arith, below, lookup_at es i e s.1 h)

-- No entry has a key that every key differs from.
lookup_absent :
    (es : List Entry) (q : Bytes)
    → ((j : ℕ) (k : Bytes) → get_elem? (keys es) j ≡ some k → cmp k q ≢ Ordering.eq)
    → lookup es q ≡ none
unfolding lookup
lookup_absent [] q n = refl
lookup_absent (x ∷ es) q n =
    ground (arith, n 0 x.0 refl, lookup_absent es q (λ j k p. n (suc j) k p))

differs :
    (ks : List Bytes) (q : Bytes) (i : ℕ)
    → IsPlace ks q (belongs_at i)
    → (j : ℕ) (k : Bytes) → get_elem? ks j ≡ some k
    → cmp k q ≢ Ordering.eq
differs ks q i p j k h c = elim (dec_lt j i) [
  | yes l ↦ ground (arith, p.1 j k h l)
  | no l ↦ ground (arith, gt_of_lt q k (p.2 j k h (omega arith)))
]

module _ (id : PageId) (es : List Entry) (q : Bytes) (small : IsSmall es)
    (s : IsAscending (keys es)) where
  value_at-lookup :
      (f : Found) → IsPlace (keys es) q f → value_at (leaf_of id es) f ≡ done (lookup es q)
  unfolding value_at
  value_at-lookup (belongs_at i) p = ap done (sym (lookup_absent es q (differs (keys es) q i p)))
  value_at-lookup (at i) p =
      let (e, here) =
        get_elem?_lt es i
          (omega (arith, (get_elem?-split (keys es) i q p).1, length-map es key_of)) in
      let same : q ≡ e.0 = some-injective _ _ (sym p ∙ get_elem?-keys es i e here) in
      rw (get_val-leaf_of id es i e here small)
        (ap done (sym (ap (λ x. lookup es x) same ∙ lookup_at es i e s here)))

-- In a leaf with ascending keys and offsets that fit 16 bits the search of `get` returns the value of the entry with the key, and
-- nothing if no entry has it. The leaf is the last level to descend.
pub get_loop-lookup :
    {IO : Type 0} ⦃p : PageIo IO⦄ (levels : ℕ) (view : Store IO) (id : PageId) (es : List Entry)
    (q : Bytes)
    → IsSmall es
    → IsAscending (keys es)
    → get_loop (suc levels) view (leaf (leaf_of id es)) q ≡ done (lookup es q)
unfolding get_loop
get_loop-lookup levels view id es q small s =
    let (f, run, pl) = leaf_search-IsPlace id es q small s in
    rw run (value_at-lookup id es q small s f pl)
