-- ===== src/Storage/Tree/Outcome.antt =====
-- What an insertion into a subtree leaves, and the case of a leaf: `InsertResult` and `insert_leaf` of
-- 01-btree/src/storage/tree.rs.
use ucu_de_distributed_algor.Prelude.{
  ℕ, zero, suc, ◌+◌, ◌*◌, ◌≤◌, ◌≡◌, refl, ap, ◌∙◌, inl, inr, Option, none, some, List, [], ◌∷◌,
  ◌++◌, arith, length, get_elem?, take, drop, All, take-append-drop, drop-suc, All-get, ok, done,
}
use mathlib.Core.Path.{subst}
use mathlib.Core.Option.{some-injective}
use ucu_de_distributed_algor.Bytes.{Bytes}
use ucu_de_distributed_algor.Bytes.Order.{◌≺◌}
use ucu_de_distributed_algor.Io.{PageIo}
use ucu_de_distributed_algor.Page.Tags.{PageId}
use ucu_de_distributed_algor.Page.{leaf, check_limits}
use ucu_de_distributed_algor.Page.Limits.{page_of}
use ucu_de_distributed_algor.Page.Keys.{IsAscending, All_at, le_bytes_refl, le_bytes_of_lt}
use ucu_de_distributed_algor.Page.Leaf.View.{Entry, key_of, keys, size, leaf_of, get_elem?-keys}
use ucu_de_distributed_algor.Storage.Entries.{upsert, upsert-IsAscending, All-entries-upsert}
use ucu_de_distributed_algor.Storage.Store.{WriteTxn, txn_read}
use ucu_de_distributed_algor.Storage.Store.Own.{Own, Grows, Own-cong, Grows-cong, Grows-refl}
use ucu_de_distributed_algor.Storage.Tree.{InsertResult, single, split, insert_page}
use ucu_de_distributed_algor.Storage.Tree.InsertLeaf.{
  IsLeafPage, max_page_size, insert_leaf-Inserts,
}
use ucu_de_distributed_algor.Storage.Tree.Shape.{Tree, content, entries_of, uses, Below}
use ucu_de_distributed_algor.Storage.Tree.Valid.{From, Past, Upto, InRange, Valid, Past-From}

-- In the bounds of the old subtree, with the entries `out`: one subtree, or two and a separator.
-- Their own pages are not stored yet, those below are; `R` counts the pages used elsewhere.
pub data Outcome {IO : Type 0} ⦃p : PageIo IO⦄ (ps h : ℕ) (lo hi : Option Bytes) (out : List Entry)
    (R : PageId → ℕ) (n : ℕ) (t : WriteTxn IO) (X : PageId → ℕ) (u : WriteTxn IO) (r : InsertResult)
    : Type 0 where
  fits :
      (a : Tree h)
      → r ≡ single (page_of 0 (content h a))
      → Valid ps h lo hi a
      → entries_of h a ≡ out
      → Below (txn_read u) h a
      → Own u (λ i. uses h a i + R i)
      → Grows n t X u (λ i. uses h a i + R i)
      → Outcome ps h lo hi out R n t X u r
  splits :
      (a b : Tree h) (sep : Bytes)
      → r ≡ split (page_of 0 (content h a)) sep (page_of 0 (content h b))
      → Past lo sep
      → Upto hi sep
      → 2 * length sep + 39 ≤ ps
      → Valid ps h lo (some sep) a
      → Valid ps h (some sep) hi b
      → entries_of h a ++ entries_of h b ≡ out
      → Below (txn_read u) h a
      → Below (txn_read u) h b
      → Own u (λ i. uses h a i + (uses h b i + R i))
      → Grows n t X u (λ i. uses h a i + (uses h b i + R i))
      → Outcome ps h lo hi out R n t X u r

front_range :
    (lo : Option Bytes) (es : List Entry) (m : ℕ) (e : Entry) (hi : Option Bytes)
    → IsAscending (keys es)
    → get_elem? es m ≡ some e
    → InRange lo hi es
    → InRange lo (some e.0) (take m es)
front_range lo [] zero e hi s h a = tt
front_range lo [] (suc m) e hi s h a = tt
front_range lo (x ∷ es) zero e hi s h a = tt
front_range lo (x ∷ es) (suc m) e hi s h a = (
  (a.0.0, All_at x.0 (keys es) m e.0 s.0 (get_elem?-keys es m e h)),
  front_range lo es m e hi s.1 h a.1,
)

back_range :
    (hi : Option Bytes) (es : List Entry) (m : ℕ) (e : Entry) (lo : Option Bytes)
    → IsAscending (keys es)
    → get_elem? es m ≡ some e
    → InRange lo hi es
    → InRange (some e.0) hi (drop m es)
back_range hi [] zero e lo s h a = tt
back_range hi [] (suc m) e lo s h a = tt
back_range hi (x ∷ es) (suc m) e lo s h a = back_range hi es m e lo s.1 h a.1
back_range hi (x ∷ es) zero e lo s h a =
    subst (λ z. InRange (some z) hi (x ∷ es)) (ap key_of (some-injective _ _ h))
      ((le_bytes_refl x.0, a.0.1), rest es s.0 a.1)
  where
    rest :
        (ys : List Entry)
        → All (λ k. x.0 ≺ k) (keys ys)
        → InRange lo hi ys
        → InRange (some x.0) hi ys
    rest [] b c = tt
    rest (y ∷ ys) b c = ((le_bytes_of_lt x.0 y.0 b.0, c.0.1), rest ys b.1 c.1)

-- An entry with others in front of it is past the lower bound.
first-Past :
    (lo hi : Option Bytes) (es : List Entry) (m : ℕ) (e : Entry)
    → 1 ≤ m
    → IsAscending (keys es)
    → get_elem? es m ≡ some e
    → InRange lo hi es
    → Past lo e.0
first-Past lo hi es zero e one s h a = absurd (omega arith)
first-Past lo hi [] (suc m) e one s h a = absurd (absent h)
  where
    absent : none ≡ some e → ⊥
    absent h = cc
first-Past lo hi (x ∷ es) (suc m) e one s h a =
    Past-From lo x.0 e.0 a.0.0 (All_at x.0 (keys es) m e.0 s.0 (get_elem?-keys es m e h))

key_size :
    (ps m : ℕ) (es : List Entry) (e : Entry)
    → get_elem? es m ≡ some e
    → All (λ x. 2 * size x + 31 ≤ ps) (drop m es)
    → 2 * length e.0 + 39 ≤ ps
key_size ps m es e h a =
    let first : get_elem? (drop m es) 0 ≡ some e = ap (λ t. get_elem? t 0) (drop-suc es m e h) in
    omega (arith, All-get (λ x. 2 * size x + 31 ≤ ps) (drop m es) 0 e first a)

module _ {IO : Type 0} ⦃p : PageIo IO⦄ (ps : ℕ) (k v : Bytes) (wide : 39 ≤ ps)
    (narrow : ps ≤ max_page_size) (accept : check_limits ps k v ≡ ok tt) (t : WriteTxn IO)
    (R : PageId → ℕ) where
  -- Inserting into a leaf page of the store.
  pub insert_page-leaf :
      (id : PageId) (es : List Entry) (lo hi : Option Bytes)
      → IsLeafPage ps es
      → InRange lo hi es
      → From lo k
      → Upto hi k
      → Own t (λ i. 0 + R i)
      → (r : InsertResult) × (insert_page 1 t (leaf (leaf_of id es)) k v ps ≡ done (r, t))
        × Outcome ps zero lo hi (upsert es k v) R 0 t (λ i. 0 + R i) t r
  unfolding insert_page page_of
  insert_page-leaf id es lo hi page range low high o =
      let out = upsert es k v in
      let kept : InRange lo hi out =
        All-entries-upsert (λ e. From lo e.0 × Upto hi e.0) es k v (low, high) range in
      let ascending = upsert-IsAscending es k v page.ascending in
      elim (insert_leaf-Inserts ps id es k v wide narrow accept page) [
        | inl (run, good) ↦ (
          single (leaf (leaf_of 0 out)),
          rw run,
          fits out refl (good, kept) refl tt o (Grows-refl t (λ i. 0 + R i)),
        )
        | inr (m, e, here, run, pos, good_front, good_back) ↦ (
          split (leaf (leaf_of 0 (take m out))) e.0 (leaf (leaf_of 0 (drop m out))),
          rw run,
          splits (take m out) (drop m out) e.0 refl
              (first-Past lo hi out m e pos ascending here kept)
              (All-get (λ x. From lo x.0 × Upto hi x.0) out m e here kept).1
              (key_size ps m out e here good_back.each)
              (good_front, front_range lo out m e hi ascending here kept)
              (good_back, back_range hi out m e lo ascending here kept) (take-append-drop m out) tt
              tt (Own-cong (λ i. omega arith) o)
              (Grows-cong (λ i. omega arith) (Grows-refl t (λ i. 0 + R i))),
        )
      ]

-- The same outcome, with its entries and its bounds of change written in another way.
pub Outcome-out :
    {IO : Type 0} ⦃p : PageIo IO⦄ {ps h : ℕ} {lo hi : Option Bytes} {out out' : List Entry}
    {R : PageId → ℕ} {n : ℕ} {t : WriteTxn IO} {X : PageId → ℕ} {u : WriteTxn IO} {r : InsertResult}
    → out ≡ out'
    → Outcome ps h lo hi out R n t X u r
    → Outcome ps h lo hi out' R n t X u r
Outcome-out e (fits a q v s b o g) = fits a q v (s ∙ e) b o g
Outcome-out e (splits a b sep q p1 p2 l va vb s ba bb o g) =
    splits a b sep q p1 p2 l va vb (s ∙ e) ba bb o g
