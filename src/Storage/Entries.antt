-- ===== src/Storage/Entries.antt =====
-- The abstract content of a leaf: a list of entries with ascending keys, as a finite map.
use ucu_de_distributed_algor.Prelude.{
  ℕ, zero, suc, ◌+◌, ◌≤◌, ◌<◌, Ordering, ◌≡◌, refl, sym, ap, ◌∙◌, ◌≢◌, Option, none, some, List, [],
  ◌∷◌, ◌++◌, arith, length, take, drop, All,
}
use ucu_de_distributed_algor.Bytes.{Bytes, cmp}
use ucu_de_distributed_algor.Bytes.Order.{◌≺◌, cmp_refl, eq_of_cmp, lt_of_gt, gt_of_lt, lt_trans}
use mathlib.Core.Option.{some-injective}
use ucu_de_distributed_algor.Page.Keys.{IsAscending, All_at}
use ucu_de_distributed_algor.Page.Leaf.{at, belongs_at}
use ucu_de_distributed_algor.Page.Leaf.View.{Entry, keys, size, total}
use ucu_de_distributed_algor.Page.Leaf.Search.{IsPlace}

-- Puts an entry in its place, over one with the same key.
unfoldable pub upsert : List Entry → Bytes → Bytes → List Entry
upsert [] k v = (k, v) ∷ []
upsert (e ∷ es) k v = elim (cmp e.0 k) [
  | Ordering.lt ↦ e ∷ upsert es k v
  | Ordering.eq ↦ (k, v) ∷ es
  | Ordering.gt ↦ (k, v) ∷ (e ∷ es)
]

-- The value under a key.
unfoldable pub lookup : List Entry → Bytes → Option Bytes
lookup [] q = none
lookup (e ∷ es) q = elim (cmp e.0 q) [ Ordering.eq ↦ some e.1 | _ ↦ lookup es q ]

-- After an upsert the key has the new value, and every other key has what it had.
pub lookup-upsert_self : (es : List Entry) (k v : Bytes) → lookup (upsert es k v) k ≡ some v
unfolding lookup upsert
lookup-upsert_self [] k v = ground (arith, cmp_refl k)
lookup-upsert_self (e ∷ es) k v = ground (arith, cmp_refl k, lookup-upsert_self es k v)

pub lookup-upsert_ne :
    (es : List Entry) (k v q : Bytes) → q ≢ k → lookup (upsert es k v) q ≡ lookup es q
unfolding lookup upsert
lookup-upsert_ne [] k v q n = ground (arith, eq_of_cmp k q)
lookup-upsert_ne (e ∷ es) k v q n =
    ground (arith, eq_of_cmp k q, eq_of_cmp e.0 k, eq_of_cmp e.0 q, lookup-upsert_ne es k v q n)

All-upsert {κ} :
    (P : Bytes → Type κ) (es : List Entry) (k v : Bytes)
    → P k
    → All P (keys es)
    → All P (keys (upsert es k v))
unfolding upsert
All-upsert P [] k v p a = (p, tt)
All-upsert P (e ∷ es) k v p a = ground (arith, All-upsert P es k v p a.1)

All-trans : (a b : Bytes) (ks : List Bytes) → a ≺ b → All (λ x. b ≺ x) ks → All (λ x. a ≺ x) ks
All-trans a b [] h al = tt
All-trans a b (k ∷ ks) h al = (lt_trans a b k h al.0, All-trans a b ks h al.1)

pub upsert-IsAscending :
    (es : List Entry) (k v : Bytes) → IsAscending (keys es) → IsAscending (keys (upsert es k v))
unfolding upsert
upsert-IsAscending [] k v s = (tt, tt)
upsert-IsAscending (e ∷ es) k v s = ground (
  arith,
  upsert-IsAscending es k v s.1,
  All-upsert (λ x. e.0 ≺ x) es k v,
  lt_of_gt e.0 k,
  eq_of_cmp e.0 k,
  All-trans k e.0 (keys es),
)

pub total-upsert : (es : List Entry) (k v : Bytes) → total (upsert es k v) ≤ total es + size (k, v)
unfolding upsert
total-upsert [] k v = omega arith
total-upsert (e ∷ es) k v = ground (arith, total-upsert es k v)

pub All-entries-upsert {κ} :
    (P : Entry → Type κ) (es : List Entry) (k v : Bytes)
    → P (k, v)
    → All P es
    → All P (upsert es k v)
unfolding upsert
All-entries-upsert P [] k v p a = (p, tt)
All-entries-upsert P (e ∷ es) k v p a = ground (arith, All-entries-upsert P es k v p a.1)

-- Putting the entry at the place that a search finds is the upsert.
pub place_at-upsert :
    (es : List Entry) (k v : Bytes) (i : ℕ)
    → IsAscending (keys es)
    → IsPlace (keys es) k (at i)
    → (take i es ++ ((k, v) ∷ drop (suc i) es) ≡ upsert es k v) × (i < length es)
unfolding upsert
place_at-upsert [] k v i s p = absurd (cc)
place_at-upsert (e ∷ es) k v zero s p =
    let same : cmp e.0 k ≡ Ordering.eq = ap (cmp e.0) (sym (some-injective _ _ p)) ∙ cmp_refl e.0 in
    (ground arith, omega arith)
place_at-upsert (e ∷ es) k v (suc i) s p =
    let (ih, l) = place_at-upsert es k v i s.1 p in
    let less : e.0 ≺ k = All_at e.0 (keys es) i k s.0 p in (ground arith, omega arith)

pub place_belongs-upsert :
    (es : List Entry) (k v : Bytes) (i : ℕ)
    → IsPlace (keys es) k (belongs_at i)
    → take i es ++ ((k, v) ∷ drop i es) ≡ upsert es k v
unfolding upsert
place_belongs-upsert [] k v zero p = refl
place_belongs-upsert [] k v (suc i) p = absurd (omega (arith, p.0))
place_belongs-upsert (e ∷ es) k v zero p =
    let more = gt_of_lt k e.0 (p.2 0 e.0 refl (omega arith)) in ground arith
place_belongs-upsert (e ∷ es) k v (suc i) p =
    let less = p.1 0 e.0 refl (omega arith) in
    let ih = place_belongs-upsert es k v i (
      omega (arith, p.0),
      λ j x g l. p.1 (suc j) x g (omega arith),
      λ j x g l. p.2 (suc j) x g (omega arith),
    ) in
    ground arith
