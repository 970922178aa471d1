-- ===== src/Storage/Tree/Descend.antt =====
-- The child that `internal_child_index` of 01-btree/src/page/internal.rs descends to, with what may
-- stand in its place.
use ucu_de_distributed_algor.Prelude.{
  ℕ, suc, ◌≡◌, refl, ap, inl, inr, true, Option, some, List, [], ◌∷◌, ◌++◌, Bool-cases, length,
  take, drop, All, All-append,
}
use ucu_de_distributed_algor.Bytes.{Bytes, le_bytes}
use ucu_de_distributed_algor.Bytes.Order.{◌≺◌}
use ucu_de_distributed_algor.Page.Tags.{PageId}
use ucu_de_distributed_algor.Page.Keys.{prefix_len, rank_le, le_bytes_false}
use ucu_de_distributed_algor.Page.Leaf.View.{Entry}
use ucu_de_distributed_algor.Storage.Tree.Shape.{flat}
use ucu_de_distributed_algor.Storage.Tree.Valid.{
  From, Past, Upto, InRange, Kids, Kids-InRange, Upto-trans, lt_le_trans,
}

-- The entries below and above a key.
abbrev pub Smaller : Bytes → List Entry → Type 0
Smaller q es = All (λ e. e.0 ≺ q) es

abbrev pub Larger : Bytes → List Entry → Type 0
Larger q es = All (λ e. q ≺ e.0) es

InRange-Smaller :
    (lo : Option Bytes) (k q : Bytes) (es : List Entry)
    → le_bytes k q ≡ true
    → InRange lo (some k) es
    → Smaller q es
InRange-Smaller lo k q [] l a = tt
InRange-Smaller lo k q (e ∷ es) l a = (lt_le_trans e.0 k q a.0.1 l, InRange-Smaller lo k q es l a.1)

InRange-Larger :
    (hi : Option Bytes) (k q : Bytes) (es : List Entry)
    → q ≺ k
    → InRange (some k) hi es
    → Larger q es
InRange-Larger hi k q [] l a = tt
InRange-Larger hi k q (e ∷ es) l a = (lt_le_trans q k e.0 l a.0.0, InRange-Larger hi k q es l a.1)

module _ {A : Type 0} (V : Option Bytes → Option Bytes → A → Type 0) (E : A → List Entry)
    (range : (lo hi : Option Bytes) (x : A) → V lo hi x → InRange lo hi (E x)) (q : Bytes) where
  -- The child in whose bounds the key lies, with its number `n` and the children on its two sides.
  -- It may be replaced by a child with the same bounds, and by two with a separator between them.
  pub record Place (lo hi : Option Bytes) (ks : List Bytes) (cs : List (PageId × A)) (n : ℕ)
      : Type 0 where
    pub before : List (PageId × A)
    pub kid : PageId × A
    pub after : List (PageId × A)
    pub lo' : Option Bytes
    pub hi' : Option Bytes
    pub parts : cs ≡ before ++ kid ∷ after
    pub number : length before ≡ n
    pub valid : V lo' hi' kid.1
    pub low : From lo' q
    pub high : Upto hi' q
    pub replace : (c : PageId × A) → V lo' hi' c.1 → Kids V lo hi ks (before ++ c ∷ after)
    pub grow :
        (l r : PageId × A) (sep : Bytes)
        → Past lo' sep
        → Upto hi' sep
        → V lo' (some sep) l.1
        → V (some sep) hi' r.1
        → Kids V lo hi (take n ks ++ (sep ∷ drop n ks)) (before ++ l ∷ r ∷ after)
    pub smaller : Smaller q (flat E before)
    pub larger : Larger q (flat E after)

  single-Place :
      (lo hi : Option Bytes) (c : PageId × A)
      → From lo q
      → Upto hi q
      → V lo hi c.1
      → Place lo hi [] (c ∷ []) 0
  single-Place lo hi c low high v = record {
    before = [];
    kid = c;
    after = [];
    lo' = lo;
    hi' = hi;
    parts = refl;
    number = refl;
    valid = v;
    low = low;
    high = high;
    replace = λ d w. w;
    grow = λ l r sep p u vl vr. (p, u, vl, vr);
    smaller = tt;
    larger = tt;
  }

  first-Place :
      (lo hi : Option Bytes) (k : Bytes) (ks : List Bytes) (c : PageId × A) (cs : List (PageId × A))
      → From lo q
      → q ≺ k
      → Kids V lo hi (k ∷ ks) (c ∷ cs)
      → Place lo hi (k ∷ ks) (c ∷ cs) 0
  first-Place lo hi k ks c cs low high a = record {
    before = [];
    kid = c;
    after = cs;
    lo' = lo;
    hi' = some k;
    parts = refl;
    number = refl;
    valid = a.2;
    low = low;
    high = high;
    replace = λ d w. (a.0, a.1, w, a.3);
    grow = λ l r sep p u vl vr. (p, upto sep u, vl, (u, a.1, vr, a.3));
    smaller = tt;
    larger = InRange-Larger hi k q (flat E cs) high (Kids-InRange V E range (some k) hi ks cs a.3);
  }
    where
      upto : (sep : Bytes) → sep ≺ k → Upto hi sep
      upto sep u = Upto-trans hi k sep a.1 u

  next-Place :
      (lo hi : Option Bytes) (k : Bytes) (ks : List Bytes) (c : PageId × A) (cs : List (PageId × A))
      (n : ℕ)
      → le_bytes k q ≡ true
      → Kids V lo hi (k ∷ ks) (c ∷ cs)
      → Place (some k) hi ks cs n
      → Place lo hi (k ∷ ks) (c ∷ cs) (suc n)
  next-Place lo hi k ks c cs n l a p = record {
    before = c ∷ p.before;
    kid = p.kid;
    after = p.after;
    lo' = p.lo';
    hi' = p.hi';
    parts = ap (λ t. c ∷ t) p.parts;
    number = ap suc p.number;
    valid = p.valid;
    low = p.low;
    high = p.high;
    replace = λ d w. (a.0, a.1, a.2, p.replace d w);
    grow = λ x y sep s u vl vr. (a.0, a.1, a.2, p.grow x y sep s u vl vr);
    smaller =
        (All-append (λ e. e.0 ≺ q) (E c.1) (flat E p.before)).1
          (InRange-Smaller lo k q (E c.1) l (range lo (some k) c.1 a.2), p.smaller);
    larger = p.larger;
  }

  -- A key within the bounds of a node has a place among its children, at its rank.
  pub find-Place :
      (lo hi : Option Bytes) (ks : List Bytes) (cs : List (PageId × A))
      → From lo q
      → Upto hi q
      → Kids V lo hi ks cs
      → Place lo hi ks cs (rank_le ks q)
  unfolding prefix_len
  find-Place lo hi ks [] low high a = absurd a
  find-Place lo hi [] (c ∷ []) low high a = single-Place lo hi c low high a
  find-Place lo hi [] (c ∷ d ∷ cs) low high a = absurd a
  find-Place lo hi (k ∷ ks) (c ∷ cs) low high a = elim (Bool-cases (le_bytes k q)) [
    | inl l ↦
        rw l
          (next-Place lo hi k ks c cs (rank_le ks q) l a (find-Place (some k) hi ks cs l high a.3))
    | inr g ↦ rw g (first-Place lo hi k ks c cs low (le_bytes_false k q g) a)
  ]
