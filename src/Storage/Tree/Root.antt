-- ===== src/Storage/Tree/Root.antt =====
-- The new root of `put` in 01-btree/src/storage/tree.rs.
use ucu_de_distributed_algor.Prelude.{
  ℕ, suc, ◌+◌, ◌*◌, ◌≤◌, ◌<◌, ◌≡◌, refl, ap, ◌∙◌, none, some, List, [], ◌∷◌, ◌++◌, append-nil,
  arith, length, done,
}
use ucu_de_distributed_algor.Prelude.Count.{one, one_self}
use ucu_de_distributed_algor.Bytes.{Bytes}
use ucu_de_distributed_algor.Io.{PageIo}
use ucu_de_distributed_algor.Page.Tags.{PageId, u16_mod, u64_mod}
use ucu_de_distributed_algor.Page.{Page, internal}
use ucu_de_distributed_algor.Page.Limits.{page_of}
use ucu_de_distributed_algor.Page.Leaf.View.{Entry}
use ucu_de_distributed_algor.Page.Internal.View.{node_of}
use ucu_de_distributed_algor.Page.Internal.Edit.{
  IsKeys, empty-node_of, push_key-node_of, push_child-node_of,
}
use ucu_de_distributed_algor.Storage.Store.{WriteTxn, txn_read, txn_page_size, alloc, write, free}
use ucu_de_distributed_algor.Storage.Store.Own.{
  Own, Grows, Own-cong, Grows-cong, Grows-trans, Grows-widen, Grows-page_size, free-Own,
}
use ucu_de_distributed_algor.Storage.Tree.{InsertResult, single, split, grow_root}
use ucu_de_distributed_algor.Storage.Tree.InsertLeaf.{max_page_size}
use ucu_de_distributed_algor.Storage.Tree.Shape.{
  Tree, content, entries_of, uses, Below, Stored, Below-frame,
}
use ucu_de_distributed_algor.Storage.Tree.Valid.{IsNodePage, Valid}
use ucu_de_distributed_algor.Storage.Tree.Outcome.{Outcome, fits, splits}
use ucu_de_distributed_algor.Storage.Tree.Absorb.{renew}

-- The tree with its root stored, at most one level higher than before.
pub record NewRoot {IO : Type 0} ⦃p : PageIo IO⦄ (ps h : ℕ) (out : List Entry) (n : ℕ)
    (t : WriteTxn IO) (X : PageId → ℕ) (u : WriteTxn IO) (id : PageId) : Type 0 where
  pub height : ℕ
  pub tree : Tree height
  pub no_lower : h ≤ height
  pub one_higher : height ≤ suc h
  pub valid : Valid ps height none none tree
  pub same_entries : entries_of height tree ≡ out
  pub stored : Stored (txn_read u) height id tree
  pub own : Own u (λ i. one id i + uses height tree i)
  pub grows : Grows n t X u (λ i. one id i + uses height tree i)

le_suc : (h : ℕ) → h ≤ suc h
le_suc h = omega arith

le_refl : (h : ℕ) → h ≤ h
le_refl h = omega arith

three_more : (m : ℕ) → m + 0 + 1 + 1 + 1 ≤ m + 3
three_more m = omega arith

root_short :
    (ps : ℕ) (sep : Bytes)
    → 2 * length sep + 39 ≤ ps
    → ps ≤ max_page_size
    → length sep + 2 < u16_mod
root_short ps sep h k = omega arith

-- A root of one key and two children.
root-IsNodePage : (ps : ℕ) (sep : Bytes) → 2 * length sep + 39 ≤ ps → IsNodePage ps (sep ∷ []) 2
root-IsNodePage ps sep short = record { fits = omega arith; each = (omega arith, tt) }

root_run :
    {IO : Type 0} ⦃p : PageIo IO⦄ (ps : ℕ) (f u1 w1 u2 w2 u3 w3 : WriteTxn IO) (l r id : PageId)
    (sep : Bytes) (a b : Page)
    → length sep + 2 < u16_mod
    → alloc f ≡ done (l, u1)
    → write u1 l a ≡ done w1
    → alloc w1 ≡ done (r, u2)
    → write u2 r b ≡ done w2
    → alloc w2 ≡ done (id, u3)
    → write u3 id (internal (node_of 0 (sep ∷ []) (l ∷ r ∷ []))) ≡ done w3
    → grow_root f ps (split a sep b) ≡ done (id, w3)
unfolding grow_root
root_run ps f u1 w1 u2 w2 u3 w3 l r id sep a b short a1 a2 a3 a4 a5 a6 =
    let good : IsKeys (sep ∷ []) = record { small = omega arith; ascending = (tt, tt) } in
    rw (
      a1,
      a2,
      a3,
      a4,
      empty-node_of ps,
      push_key-node_of 0 [] [] sep good,
      push_child-node_of 0 (sep ∷ []) [] l,
      push_child-node_of 0 (sep ∷ []) (l ∷ []) r,
      a5,
      a6,
    )

single_run :
    {IO : Type 0} ⦃p : PageIo IO⦄ (ps : ℕ) (f u w : WriteTxn IO) (id : PageId) (a : Page)
    → alloc f ≡ done (id, u)
    → write u id a ≡ done w
    → grow_root f ps (single a) ≡ done (id, w)
unfolding grow_root
single_run ps f u w id a a1 a2 = rw (a1, a2)

module _ {IO : Type 0} ⦃p : PageIo IO⦄ (ps : ℕ) (wide : 39 ≤ ps) (narrow : ps ≤ max_page_size)
    (h : ℕ) (out : List Entry) (m : ℕ) (t0 : WriteTxn IO) (X : PageId → ℕ)
    (size0 : txn_page_size t0 ≡ ps) (root : PageId) where
  -- A tree whose pages are stored but its own: the last allocation and write of `put`.
  top-NewRoot :
      (w : WriteTxn IO) (k height : ℕ) (tree : Tree height)
      → Valid ps height none none tree
      → entries_of height tree ≡ out
      → Below (txn_read w) height tree
      → Own w (λ i. uses height tree i + 0)
      → Grows k t0 X w (λ i. uses height tree i + 0)
      → h ≤ height
      → height ≤ suc h
      → k + 1 ≤ m + 3
      → t0.store.writer.next_page_id + (m + 3) < u64_mod
      → (id : PageId) × (u : WriteTxn IO) × (v : WriteTxn IO) × (alloc w ≡ done (id, u))
        × (write u id (page_of 0 (content height tree)) ≡ done v)
        × NewRoot ps h out (m + 3) t0 X v id
  top-NewRoot w k height tree valid same_entries below own grows lower higher enough room =
      let (id, u, v, given, written, own', grows', back) =
        renew ps narrow height w none none tree (λ i. 0) (Grows-page_size grows ∙ size0)
          (omega (arith, grows.upto_next)) own valid in
      (
        id,
        u,
        v,
        given,
        written,
        record {
          height = height;
          tree = tree;
          no_lower = lower;
          one_higher = higher;
          valid = valid;
          same_entries = same_entries;
          stored = (
            back,
            Below-frame (txn_read w) (txn_read v) height tree (λ j s. grows'.same j (omega arith))
                below,
          );
          own = Own-cong (λ i. omega arith) own';
          grows =
              Grows-cong (λ i. omega arith)
                (Grows-widen (m + 3) enough (λ i. refl) (Grows-trans k 1 grows grows'));
        },
      )

  single-NewRoot :
      (t : WriteTxn IO) (a : Tree h)
      → Valid ps h none none a
      → entries_of h a ≡ out
      → Below (txn_read t) h a
      → Own t (λ i. uses h a i + one root i)
      → Grows m t0 X t (λ i. uses h a i + one root i)
      → t0.store.writer.next_page_id + (m + 3) < u64_mod
      → (id : PageId) × (u : WriteTxn IO) × (grow_root
            (free t root)
            ps
            (single (page_of 0 (content h a)))
          ≡ done (id, u))
        × NewRoot ps h out (m + 3) t0 X u id
  single-NewRoot t a valid same_entries below own grows room =
      let Y : PageId → ℕ = λ i. uses h a i + 0 in
      let (own1, grows1) = free-Own t Y root (Own-cong (λ i. omega arith) own) in
      let grows2 = Grows-trans m 0 (Grows-cong (λ i. omega arith) grows) grows1 in
      let same_pages = λ (j : PageId) (s : 1 ≤ uses h a j). grows1.same j (omega arith) in
      let (id, u, w, given, written, new) =
        top-NewRoot (free t root) (m + 0) h a valid same_entries
          (Below-frame (txn_read t) (txn_read (free t root)) h a same_pages below) own1 grows2
          (omega arith) (omega arith) (omega arith) room in
      (id, w, single_run ps (free t root) u w id (page_of 0 (content h a)) given written, new)

  split-NewRoot :
      (t : WriteTxn IO) (a b : Tree h) (sep : Bytes)
      → 2 * length sep + 39 ≤ ps
      → Valid ps h none (some sep) a
      → Valid ps h (some sep) none b
      → entries_of h a ++ entries_of h b ≡ out
      → Below (txn_read t) h a
      → Below (txn_read t) h b
      → Own t (λ i. uses h a i + (uses h b i + one root i))
      → Grows m t0 X t (λ i. uses h a i + (uses h b i + one root i))
      → t0.store.writer.next_page_id + (m + 3) < u64_mod
      → (id : PageId) × (u : WriteTxn IO) × (grow_root
            (free t root)
            ps
            (split (page_of 0 (content h a)) sep (page_of 0 (content h b)))
          ≡ done (id, u))
        × NewRoot ps h out (m + 3) t0 X u id
  unfolding page_of
  split-NewRoot t a b sep short valid_a valid_b same_entries below_a below_b own grows room =
      let Y : PageId → ℕ = λ i. uses h a i + uses h b i in
      let (own1, grows1) = free-Own t Y root (Own-cong (λ i. omega arith) own) in
      let grows2 = Grows-trans m 0 (Grows-cong (λ i. omega arith) grows) grows1 in
      let (l, u1, w1, given1, written1, own3, grows3, back1) =
        renew ps narrow h (free t root) none (some sep) a (λ i. uses h b i)
          (Grows-page_size grows2 ∙ size0) (omega (arith, grows2.upto_next)) own1 valid_a in
      let grows4 = Grows-trans (m + 0) 1 grows2 grows3 in
      let Z : PageId → ℕ = λ i. uses h b i + (one l i + uses h a i) in
      let (r, u2, w2, given2, written2, own5, grows5, back2) =
        renew ps narrow h w1 (some sep) none b (λ i. one l i + uses h a i)
          (Grows-page_size grows4 ∙ size0) (omega (arith, grows4.upto_next))
          (Own-cong (λ i. omega arith) own3) valid_b in
      let grows6 =
        Grows-trans (m + 0 + 1) 1 (Grows-cong {Y' = Z} (λ i. omega arith) grows4) grows5 in
      let tree : Tree (suc h) = (sep ∷ [], (l, a) ∷ (r, b) ∷ []) in
      let valid : Valid ps (suc h) none none tree =
        (root-IsNodePage ps sep short, (tt, tt, valid_a, valid_b)) in
      let T : PageId → ℕ = λ i. uses (suc h) tree i + 0 in
      let since =
        Grows-trans 0 2 grows1
          (Grows-trans 1 1 (Grows-cong {Y' = Z} (λ i. omega arith) grows3) grows5) in
      let still = grows5.same l (omega (arith, one_self l)) ∙ back1 in
      let deep_a =
        Below-frame (txn_read t) (txn_read w2) h a (λ j s. since.same j (omega arith)) below_a in
      let deep_b =
        Below-frame (txn_read t) (txn_read w2) h b (λ j s. since.same j (omega arith)) below_b in
      let (id, u3, w3, given3, written3, new) =
        top-NewRoot w2 (m + 0 + 1 + 1) (suc h) tree valid
          (ap (λ x. entries_of h a ++ x) (append-nil (entries_of h b)) ∙ same_entries)
          ((still, deep_a), ((back2, deep_b), tt)) (Own-cong {Y = T} (λ i. omega arith) own5)
          (Grows-cong {Y' = T} (λ i. omega arith) grows6) (le_suc h) (le_refl (suc h))
          (three_more m) room in
      (
        id,
        w3,
        root_run ps (free t root) u1 w1 u2 w2 u3 w3 l r id sep (page_of 0 (content h a))
            (page_of 0 (content h b)) (root_short ps sep short narrow) given1 written1 given2
            written2 given3 written3,
        new,
      )

  pub grow_root-NewRoot :
      (t : WriteTxn IO) (r : InsertResult)
      → Outcome ps h none none out (one root) m t0 X t r
      → t0.store.writer.next_page_id + (m + 3) < u64_mod
      → (id : PageId) × (u : WriteTxn IO) × (grow_root (free t root) ps r ≡ done (id, u))
        × NewRoot ps h out (m + 3) t0 X u id
  grow_root-NewRoot t r (fits a e v s b o g) room =
      let (id, u, run, new) = single-NewRoot t a v s b o g room in
      (id, u, ap (λ x. grow_root (free t root) ps x) e ∙ run, new)
  grow_root-NewRoot t r (splits a b sep e past upto short va vb s ba bb o g) room =
      let (id, u, run, new) = split-NewRoot t a b sep short va vb s ba bb o g room in
      (id, u, ap (λ x. grow_root (free t root) ps x) e ∙ run, new)
