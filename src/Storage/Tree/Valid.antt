-- ===== src/Storage/Tree/Valid.antt =====
-- Which trees are search trees that fit their pages: the separator convention in the comment on
-- `InternalNode` of 01-btree/src/page/internal.rs, at every level.
use ucu_de_distributed_algor.Prelude.{
  ℕ, zero, suc, ◌+◌, ◌*◌, ◌≤◌, ◌≡◌, refl, ap, true, Option, none, some, List, [], ◌∷◌, append-nil,
  arith, length, get_elem?, take, drop, All, All-append,
}
use ucu_de_distributed_algor.Bytes.{Bytes, le_bytes}
use ucu_de_distributed_algor.Bytes.Order.{◌≺◌, eq_of_cmp, lt_trans}
use mathlib.Core.Option.{some-injective}
use ucu_de_distributed_algor.Page.Tags.{PageId}
use ucu_de_distributed_algor.Page.Keys.{IsAscending}
use ucu_de_distributed_algor.Page.Internal.{internal_header}
use ucu_de_distributed_algor.Page.Internal.View as Node
use ucu_de_distributed_algor.Page.Leaf.View.{Entry}
use ucu_de_distributed_algor.Storage.Tree.InsertLeaf.{IsLeafPage}
use ucu_de_distributed_algor.Storage.Tree.Shape.{Tree, flat, entries_of}

-- A bound on keys; `none` bounds nothing. A subtree has keys from its lower bound on and below its
-- upper bound; a separator inside is past the lower bound.
abbrev pub From : Option Bytes → Bytes → Type 0
From none q = Unit {0}
From (some l) q = le_bytes l q ≡ true

abbrev pub Past : Option Bytes → Bytes → Type 0
Past none q = Unit {0}
Past (some l) q = l ≺ q

abbrev pub Upto : Option Bytes → Bytes → Type 0
Upto none q = Unit {0}
Upto (some u) q = q ≺ u

abbrev pub InRange : Option Bytes → Option Bytes → List Entry → Type 0
InRange lo hi es = All (λ e. From lo e.0 × Upto hi e.0) es

-- One child more than keys, each with the keys on its two sides as bounds.
abbrev pub Kids :
    {A : Type 0}
    → (Option Bytes → Option Bytes → A → Type 0)
    → Option Bytes
    → Option Bytes
    → List Bytes
    → List (PageId × A)
    → Type 0
Kids V lo hi ks [] = ⊥
Kids V lo hi [] (c ∷ []) = V lo hi c.1
Kids V lo hi [] (c ∷ d ∷ cs) = ⊥
Kids V lo hi (k ∷ ks) (c ∷ cs) =
    Past lo k × Upto hi k × V lo (some k) c.1 × Kids V (some k) hi ks cs

-- The keys `ks` with `n` children fit a page, and each key is one that `check_limits` accepts.
pub record IsNodePage (ps : ℕ) (ks : List Bytes) (n : ℕ) : Type 0 where
  pub fits : internal_header + Node.total ks + 8 * n ≤ ps
  pub each : All (λ k. 2 * Node.size k + 35 ≤ ps) ks

abbrev pub Valid : ℕ → (h : ℕ) → Option Bytes → Option Bytes → Tree h → Type 0
Valid ps zero lo hi es = IsLeafPage ps es × InRange lo hi es
Valid ps (suc h) lo hi t = IsNodePage ps t.0 (length t.1) × Kids (Valid ps h) lo hi t.0 t.1

pub lt_le_trans : (a b c : Bytes) → a ≺ b → le_bytes b c ≡ true → a ≺ c
unfolding le_bytes
lt_le_trans a b c h k = ground (arith, lt_trans a b c, eq_of_cmp b c)

pub le_lt_trans : (a b c : Bytes) → le_bytes a b ≡ true → b ≺ c → a ≺ c
unfolding le_bytes
le_lt_trans a b c h k = ground (arith, lt_trans a b c, eq_of_cmp a b)

le_of_lt : (a b : Bytes) → a ≺ b → le_bytes a b ≡ true
unfolding le_bytes
le_of_lt a b h = ground arith

pub Past-trans : (lo : Option Bytes) (k q : Bytes) → Past lo k → k ≺ q → Past lo q
Past-trans none k q p h = tt
Past-trans (some l) k q p h = lt_trans l k q p h

pub Upto-trans : (hi : Option Bytes) (k q : Bytes) → Upto hi k → q ≺ k → Upto hi q
Upto-trans none k q u h = tt
Upto-trans (some u) k q p h = lt_trans q k u h p

pub From-trans : (lo : Option Bytes) (k q : Bytes) → Past lo k → le_bytes k q ≡ true → From lo q
From-trans none k q p h = tt
From-trans (some l) k q p h = le_of_lt l q (lt_le_trans l k q p h)

-- A key past one that is from the bound on.
pub Past-From : (lo : Option Bytes) (k q : Bytes) → From lo k → k ≺ q → Past lo q
Past-From none k q f h = tt
Past-From (some l) k q f h = le_lt_trans l k q f h

module _ {A : Type 0} (V : Option Bytes → Option Bytes → A → Type 0) where
  pub Kids-length :
      (lo hi : Option Bytes) (ks : List Bytes) (cs : List (PageId × A))
      → Kids V lo hi ks cs
      → length cs ≡ suc (length ks)
  Kids-length lo hi ks [] a = absurd a
  Kids-length lo hi [] (c ∷ []) a = refl
  Kids-length lo hi [] (c ∷ d ∷ cs) a = absurd a
  Kids-length lo hi (k ∷ ks) (c ∷ cs) a = ap suc (Kids-length (some k) hi ks cs a.3)

  Kids-Past :
      (lo hi : Option Bytes) (ks : List Bytes) (cs : List (PageId × A))
      → Kids V lo hi ks cs
      → All (λ k. Past lo k) ks
  Kids-Past lo hi ks [] a = absurd a
  Kids-Past lo hi [] (c ∷ cs) a = tt
  Kids-Past lo hi (k ∷ ks) (c ∷ cs) a = (a.0, lift ks (Kids-Past (some k) hi ks cs a.3))
    where
      lift : (xs : List Bytes) → All (λ x. k ≺ x) xs → All (λ x. Past lo x) xs
      lift [] b = tt
      lift (x ∷ xs) b = (Past-trans lo k x a.0 b.0, lift xs b.1)

  pub Kids-IsAscending :
      (lo hi : Option Bytes) (ks : List Bytes) (cs : List (PageId × A))
      → Kids V lo hi ks cs
      → IsAscending ks
  Kids-IsAscending lo hi ks [] a = absurd a
  Kids-IsAscending lo hi [] (c ∷ cs) a = tt
  Kids-IsAscending lo hi (k ∷ ks) (c ∷ cs) a =
      (Kids-Past (some k) hi ks cs a.3, Kids-IsAscending (some k) hi ks cs a.3)

  -- The two sides of a key are the children of two nodes with that key as a bound.
  pub Kids-split :
      (lo hi : Option Bytes) (ks : List Bytes) (cs : List (PageId × A)) (m : ℕ) (k : Bytes)
      → Kids V lo hi ks cs
      → get_elem? ks m ≡ some k
      → Kids V lo (some k) (take m ks) (take (suc m) cs)
        × Kids V (some k) hi (drop (suc m) ks) (drop (suc m) cs)
        × Past lo k
        × Upto hi k
  Kids-split lo hi ks [] m k a here = absurd a
  Kids-split lo hi [] (c ∷ cs) m k a here = absurd (none_ne here)
    where
      none_ne : none ≡ some k → ⊥
      none_ne e = cc
  Kids-split lo hi (x ∷ ks) (c ∷ cs) zero k a here =
      let same : x ≡ k = some-injective _ _ here in
      (rw (← same) a.2, rw (← same) a.3, rw (← same) a.0, rw (← same) a.1)
  Kids-split lo hi (x ∷ ks) (c ∷ cs) (suc m) k a here =
      let (left, right, past, upto) = Kids-split (some x) hi ks cs m k a.3 here in
      ((a.0, past, a.2, left), right, Past-trans lo x k a.0 past, upto)

  module _ (E : A → List Entry)
      (range : (lo hi : Option Bytes) (x : A) → V lo hi x → InRange lo hi (E x)) where
    pub Kids-InRange :
        (lo hi : Option Bytes) (ks : List Bytes) (cs : List (PageId × A))
        → Kids V lo hi ks cs
        → InRange lo hi (flat E cs)
    Kids-InRange lo hi ks [] a = absurd a
    Kids-InRange lo hi [] (c ∷ []) a = rw append-nil (range lo hi c.1 a)
    Kids-InRange lo hi [] (c ∷ d ∷ cs) a = absurd a
    Kids-InRange lo hi (k ∷ ks) (c ∷ cs) a =
        (All-append (λ e. From lo e.0 × Upto hi e.0) (E c.1) (flat E cs)).1 (
          below (E c.1) (range lo (some k) c.1 a.2),
          above (flat E cs) (Kids-InRange (some k) hi ks cs a.3),
        )
      where
        below : (es : List Entry) → InRange lo (some k) es → InRange lo hi es
        below [] b = tt
        below (e ∷ es) b = ((b.0.0, Upto-trans hi k e.0 a.1 b.0.1), below es b.1)

        above : (es : List Entry) → InRange (some k) hi es → InRange lo hi es
        above [] b = tt
        above (e ∷ es) b = ((From-trans lo k e.0 a.0 b.0.0, b.0.1), above es b.1)

-- A valid tree's entries keep to its bounds.
pub Valid-InRange :
    (ps h : ℕ) (lo hi : Option Bytes) (t : Tree h)
    → Valid ps h lo hi t
    → InRange lo hi (entries_of h t)
Valid-InRange ps zero lo hi es v = v.1
Valid-InRange ps (suc h) lo hi t v =
    Kids-InRange (Valid ps h) (entries_of h) (Valid-InRange ps h) lo hi t.0 t.1 v.1
