-- ===== src/Storage/Tree/Shape.antt =====
-- The tree that a store's pages hold, as a value: what the searches of 01-btree/src/storage/tree.rs find
-- from a root. A tree's type carries its height, so all its leaves stand at one depth.
use ucu_de_distributed_algor.Prelude.{
  ℕ, zero, suc, ◌+◌, ◌≤◌, ◌<◌, ◌≡◌, refl, sym, ap, ◌∙◌, List, [], ◌∷◌, ◌++◌, append_assoc, arith,
  length, take, drop, All, Run, done,
}
use ucu_de_distributed_algor.Prelude.Count.{one, one_self}
use ucu_de_distributed_algor.Bytes.{Bytes}
use ucu_de_distributed_algor.Page.Tags.{PageId}
use ucu_de_distributed_algor.Page.{Page}
use ucu_de_distributed_algor.Page.Leaf.View.{Entry}
use ucu_de_distributed_algor.Page.Limits.{Content, entries, branches, page_of}

-- Entries at height 0; above, separator keys with the children and the ids of their pages.
abbrev pub Tree : ℕ → Type 0
Tree zero = List Entry
Tree (suc h) = List Bytes × List (PageId × Tree h)

abbrev pub Kid : ℕ → Type 0
Kid h = PageId × Tree h

abbrev pub ids_of {ℓ} : {A : Type ℓ} → List (PageId × A) → List PageId
ids_of [] = []
ids_of (c ∷ cs) = c.0 ∷ ids_of cs

-- What the tree's own page holds.
abbrev pub content : (h : ℕ) → Tree h → Content
content zero es = entries es
content (suc h) t = branches t.0 (ids_of t.1)

-- All entries, from left to right.
abbrev pub flat {ℓ} : {A : Type ℓ} → (A → List Entry) → List (PageId × A) → List Entry
flat f [] = []
flat f (c ∷ cs) = f c.1 ++ flat f cs

abbrev pub entries_of : (h : ℕ) → Tree h → List Entry
entries_of zero es = es
entries_of (suc h) t = flat (entries_of h) t.1

-- How often a page id stands in a tree, its own page not counted.
abbrev pub sum {ℓ} : {A : Type ℓ} → (A → ℕ) → List A → ℕ
sum f [] = 0
sum f (c ∷ cs) = f c + sum f cs

abbrev pub uses : (h : ℕ) → Tree h → PageId → ℕ
uses zero es i = 0
uses (suc h) t i = sum (λ c. one c.0 i + uses h c.1 i) t.1

-- The pages below a tree's own are the ones that `rd` reads at their ids.
abbrev pub Below : (PageId → Run Page) → (h : ℕ) → Tree h → Type 0
Below rd zero es = Unit {0}
Below rd (suc h) t = All (λ c. (rd c.0 ≡ done (page_of c.0 (content h c.1))) × Below rd h c.1) t.1

abbrev pub Stored : (PageId → Run Page) → (h : ℕ) → PageId → Tree h → Type 0
Stored rd h id t = (rd id ≡ done (page_of id (content h t))) × Below rd h t

pub sum-append {ℓ} :
    {A : Type ℓ} (f : A → ℕ) (xs ys : List A) → sum f (xs ++ ys) ≡ sum f xs + sum f ys
sum-append f [] ys = omega arith
sum-append f (x ∷ xs) ys = omega (arith, sum-append f xs ys)

pub flat-append {ℓ} :
    {A : Type ℓ} (f : A → List Entry) (xs ys : List (PageId × A))
    → flat f (xs ++ ys) ≡ flat f xs ++ flat f ys
flat-append f [] ys = refl
flat-append f (x ∷ xs) ys =
    ap (λ t. f x.1 ++ t) (flat-append f xs ys) ∙ sym (append_assoc (f x.1) _ _)

pub ids_of-append {ℓ} :
    {A : Type ℓ} (xs ys : List (PageId × A)) → ids_of (xs ++ ys) ≡ ids_of xs ++ ids_of ys
ids_of-append [] ys = refl
ids_of-append (x ∷ xs) ys = ap (λ t. x.0 ∷ t) (ids_of-append xs ys)

pub ids_of-take {ℓ} :
    {A : Type ℓ} (m : ℕ) (xs : List (PageId × A)) → ids_of (take m xs) ≡ take m (ids_of xs)
ids_of-take zero xs = refl
ids_of-take (suc m) [] = refl
ids_of-take (suc m) (x ∷ xs) = ap (λ t. x.0 ∷ t) (ids_of-take m xs)

pub ids_of-drop {ℓ} :
    {A : Type ℓ} (m : ℕ) (xs : List (PageId × A)) → ids_of (drop m xs) ≡ drop m (ids_of xs)
ids_of-drop zero xs = refl
ids_of-drop (suc m) [] = refl
ids_of-drop (suc m) (x ∷ xs) = ids_of-drop m xs

module _ (rd rd' : PageId → Run Page) where
  kids-keep :
      (h : ℕ) (cs : List (Kid h))
      → ((t : Tree h)
          → ((j : PageId) → 1 ≤ uses h t j → (page : Page) → rd j ≡ done page → rd' j ≡ done page)
          → Below rd h t
          → Below rd' h t)
      → ((j : PageId)
          → 1 ≤ sum (λ c. one c.0 j + uses h c.1 j) cs
          → (page : Page) → rd j ≡ done page
          → rd' j ≡ done page)
      → All (λ c. (rd c.0 ≡ done (page_of c.0 (content h c.1))) × Below rd h c.1) cs
      → All (λ c. (rd' c.0 ≡ done (page_of c.0 (content h c.1))) × Below rd' h c.1) cs
  kids-keep h [] deep keep a = tt
  kids-keep h (c ∷ cs) deep keep a = (
    (
      keep c.0 (omega (arith, one_self c.0)) (page_of c.0 (content h c.1)) a.0.0,
      deep c.1 (λ j u. keep j (omega arith)) a.0.1,
    ),
    kids-keep h cs deep (λ j u. keep j (omega arith)) a.1,
  )

  -- Pages that read as before are still there.
  pub Below-keep :
      (h : ℕ) (t : Tree h)
      → ((j : PageId) → 1 ≤ uses h t j → (page : Page) → rd j ≡ done page → rd' j ≡ done page)
      → Below rd h t
      → Below rd' h t
  Below-keep zero es keep b = tt
  Below-keep (suc h) t keep b = kids-keep h t.1 (Below-keep h) keep b

  pub Below-frame :
      (h : ℕ) (t : Tree h)
      → ((j : PageId) → 1 ≤ uses h t j → rd' j ≡ rd j)
      → Below rd h t
      → Below rd' h t
  Below-frame h t same b = Below-keep h t (λ j u page e. same j u ∙ e) b

-- An id that is used is within any bound that holds of all used ids.
pub uses-ids :
    (h : ℕ) (cs : List (Kid h)) (b : ℕ)
    → ((j : PageId) → 1 ≤ sum (λ c. one c.0 j + uses h c.1 j) cs → j < b)
    → All (λ c. c < b) (ids_of cs)
uses-ids h [] b k = tt
uses-ids h (c ∷ cs) b k =
    (k c.0 (omega (arith, one_self c.0)), uses-ids h cs b (λ j u. k j (omega arith)))

pub length-ids_of {ℓ} : {A : Type ℓ} (cs : List (PageId × A)) → length (ids_of cs) ≡ length cs
length-ids_of [] = refl
length-ids_of (c ∷ cs) = ap suc (length-ids_of cs)
