-- ===== src/Storage/Tree/Height.antt =====
-- A tree is no higher than the store has pages: the leftmost path from its root.
use ucu_de_distributed_algor.Prelude.{
  ℕ, zero, suc, ◌+◌, ◌*◌, ◌≤◌, ◌<◌, ◌≡◌, refl, Option, some, List, [], ◌∷◌, arith, length,
}
use ucu_de_distributed_algor.Prelude.Count.{one, count, length-le_of_count}
use ucu_de_distributed_algor.Bytes.{Bytes}
use ucu_de_distributed_algor.Page.Tags.{PageId}
use ucu_de_distributed_algor.Storage.Tree.Shape.{Tree, Kid, uses}
use ucu_de_distributed_algor.Storage.Tree.Valid.{Valid, Kids}
use ucu_de_distributed_algor.Storage.Tree.Insert.{allowance}

abbrev path : (h : ℕ) → Tree h → List PageId
path zero es = []
path (suc h) (ks, []) = []
path (suc h) (ks, c ∷ cs) = c.0 ∷ path h c.1

Kids-first :
    {A : Type 0} (V : Option Bytes → Option Bytes → A → Type 0) (lo hi : Option Bytes)
    (ks : List Bytes) (cs : List (PageId × A))
    → Kids V lo hi ks cs
    → (c : PageId × A) × (rest : List (PageId × A)) × (cs ≡ c ∷ rest)
      × (up : Option Bytes) × V lo up c.1
Kids-first V lo hi [] [] v = absurd v
Kids-first V lo hi (k ∷ ks) [] v = absurd v
Kids-first V lo hi [] (c ∷ []) v = (c, [], refl, hi, v)
Kids-first V lo hi [] (c ∷ d ∷ cs) v = absurd v
Kids-first V lo hi (k ∷ ks) (c ∷ cs) v = (c, cs, refl, some k, v.2)

length-path :
    (ps h : ℕ) (lo hi : Option Bytes) (t : Tree h) → Valid ps h lo hi t → length (path h t) ≡ h
length-path ps zero lo hi es v = refl
length-path ps (suc h) lo hi (ks, []) v =
    absurd (none_left (Kids-first (Valid ps h) lo hi ks [] v.1))
  where
    none_left :
        (c : Kid h) × (rest : List (Kid h)) × (◌≡◌ {A = List (Kid h)} [] (c ∷ rest))
          × (up : Option Bytes) × Valid ps h lo up c.1
        → ⊥
    none_left (c, rest, e, up, w) = cc
length-path ps (suc h) lo hi ([], c ∷ []) v = omega (arith, length-path ps h lo hi c.1 v.1)
length-path ps (suc h) lo hi ([], c ∷ d ∷ cs) v = absurd v.1
length-path ps (suc h) lo hi (k ∷ ks, c ∷ cs) v =
    omega (arith, length-path ps h lo (some k) c.1 v.1.2)

count-path : (h : ℕ) (t : Tree h) (i : PageId) → count (path h t) i ≤ uses h t i
count-path zero es i = omega arith
count-path (suc h) (ks, []) i = omega arith
count-path (suc h) (ks, c ∷ cs) i = omega (arith, count-path h c.1 i)

pub allowance_twice : (h : ℕ) → allowance h ≡ 2 * h
allowance_twice zero = refl
allowance_twice (suc h) = omega (arith, allowance_twice h)

-- A valid tree whose pages, with the root, are distinct and below `next` is lower than `next`.
pub height-lt :
    (ps h next : ℕ) (lo hi : Option Bytes) (root : PageId) (t : Tree h)
    → Valid ps h lo hi t
    → ((i : PageId) → one root i + uses h t i ≤ 1)
    → ((i : PageId) → 1 ≤ one root i + uses h t i → i < next)
    → h < next
height-lt ps h next lo hi root t v once inside = omega (
  arith,
  length-path ps h lo hi t v,
  length-le_of_count next (root ∷ path h t) (λ i. omega (arith, once i, count-path h t i))
      (λ i k. inside i (omega (arith, count-path h t i))),
)
