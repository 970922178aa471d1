-- ===== src/Storage/System/Steps.antt =====
-- Each step of a store over time keeps it consistent: 01-btree/src/storage/store.rs and
-- 01-btree/src/storage/tree.rs.
use ucu_de_distributed_algor.Prelude.{
  ℕ, suc, ◌+◌, ◌≤◌, ◌≡◌, sym, ap, ◌∙◌, List, [], ◌∷◌, ◌++◌, arith, length, All, length-append,
  All-append, done,
}
use mathlib.Core.Path.{subst}
use ucu_de_distributed_algor.Prelude.Count.{one, one_self, count}
use ucu_de_distributed_algor.Io.{PageIo}
use ucu_de_distributed_algor.Page.Tags.{PageId}
use ucu_de_distributed_algor.Page.{Page}
use ucu_de_distributed_algor.Page.Limits.{page_of}
use ucu_de_distributed_algor.Storage.Store.{Store, view_root, view_read}
use ucu_de_distributed_algor.Storage.Tree.Shape.{Tree, content, uses, Below-keep}
use ucu_de_distributed_algor.Storage.Put.{Holds}
use ucu_de_distributed_algor.Storage.System.{Reader, entered, reading, System, Sees, IsConsistent}

-- What an opened guard counts as, in a list that is cut at it.
pub length-cut :
    (before after : List Reader) (r : Reader)
    → length (before ++ r ∷ after) ≡ suc (length (before ++ after))
length-cut before after r =
    omega (arith, length-append before (r ∷ after), length-append before after)

-- A property of every element, but of that in the middle.
pub All-cut {κ} :
    (P : Reader → Type κ) (before after : List Reader) (r r' : Reader)
    → All P (before ++ r ∷ after)
    → All P (before ++ after) × (P r' → All P (before ++ r' ∷ after))
All-cut P before after r r' a =
    let (front, back) = (All-append P before (r ∷ after)).0 a in
    (
      (All-append P before after).1 (front, back.1),
      λ q. (All-append P before (r' ∷ after)).1 (front, (q, back.1)),
    )

pub All-map {κ μ} :
    (P : Reader → Type κ) (Q : Reader → Type μ) (rs : List Reader)
    → ((r : Reader) → 1 ≤ length rs → P r → Q r)
    → All P rs
    → All Q rs
All-map P Q [] f a = tt
All-map P Q (r ∷ rs) f a =
    (f r (omega arith) a.0, All-map P Q rs (λ s h p. f s (omega arith) p) a.1)

module _ {IO : Type 0} ⦃p : PageIo IO⦄ where
  -- A step that takes no page of the tree or the pending ones away, nor writes it.
  pub Sees-frame :
      (ps : ℕ) (s s' : Store IO) (h h' : ℕ) (t : Tree h) (t' : Tree h')
      → ((i : PageId)
          → uses h t i + one s.root i + count s.writer.pending_free i
            ≤ uses h' t' i + one s'.root i + count s'.writer.pending_free i)
      → ((j : PageId)
          → 1 ≤ uses h t j + one s.root j + count s.writer.pending_free j
          → (page : Page) → view_read s j ≡ done page
          → view_read s' j ≡ done page)
      → (r : Reader) → Sees ps s h t r
      → Sees ps s' h' t' r
  Sees-frame ps s s' h h' t t' held same entered g = tt
  Sees-frame ps s s' h h' t t' held same (reading root seen) g = record {
    height = g.height;
    tree = g.tree;
    valid = g.valid;
    stored = (
      same root (omega (arith, g.held root, one_self root)) (page_of root (content g.height g.tree))
          g.stored.0,
      Below-keep (view_read s) (view_read s') g.height g.tree
          (λ j u. same j (omega (arith, g.held j))) g.stored.1,
    );
    same_entries = g.same_entries;
    held = λ i. omega (arith, g.held i, held i);
  }

  -- The number of readers is not looked at.
  abbrev with_readers : Store IO → ℕ → Store IO
  with_readers s n = record s { readers = n }

  Holds-readers :
      (ps : ℕ) (s : Store IO) (n h : ℕ) (t : Tree h)
      → Holds ps s h t
      → Holds ps (with_readers s n) h t
  unfolding view_read
  Holds-readers ps s n h t now = record {
    size = now.size;
    valid = now.valid;
    stored = now.stored;
    owned = now.owned;
  }

  Sees-readers :
      (ps : ℕ) (s : Store IO) (n h : ℕ) (t : Tree h) (r : Reader)
      → Sees ps s h t r
      → Sees ps (with_readers s n) h t r
  unfolding view_read
  Sees-readers ps s n h t r g =
      Sees-frame ps s (with_readers s n) h h t t (λ i. omega arith) (λ j u page e. e) r g

  -- Guards come and go.
  pub readers_step :
      (ps : ℕ) (c : System IO) (n : ℕ) (guards : List Reader)
      → (k : IsConsistent ps c) → n ≡ length guards
      → All (Sees ps c.store k.height k.tree) guards
      → IsConsistent ps
          (record { store = with_readers c.store n; guards = guards; contents = c.contents })
  readers_step ps c n guards k counted guarded = record {
    height = k.height;
    tree = k.tree;
    holds = Holds-readers ps c.store n k.height k.tree k.holds;
    same_entries = k.same_entries;
    counted = counted;
    durable = k.durable;
    guarded =
        All-map _ _ guards (λ r some p. Sees-readers ps c.store n k.height k.tree r p) guarded;
  }

  pub load_step :
      (ps : ℕ) (c : System IO) (before after : List Reader) (r : Reader)
      → c.guards ≡ before ++ r ∷ after
      → IsConsistent ps c
      → IsConsistent ps
          (record c { guards = before ++ reading (view_root c.store) c.contents ∷ after })
  unfolding view_root
  load_step ps c before after r cut k =
      let P : Reader → Type 0 = Sees ps c.store k.height k.tree in
      let split =
        All-cut P before after r (reading c.store.root c.contents)
          (subst (λ l. All P l) cut k.guarded) in
      record {
        height = k.height;
        tree = k.tree;
        holds = k.holds;
        same_entries = k.same_entries;
        counted =
            k.counted
            ∙ (ap (λ l. length l) cut
                ∙ (length-cut before after r
                    ∙ sym (length-cut before after (reading c.store.root c.contents))));
        durable = k.durable;
        guarded = split.1 (record {
          height = k.height;
          tree = k.tree;
          valid = k.holds.valid;
          stored = k.holds.stored;
          same_entries = k.same_entries;
          held = λ i. omega arith;
        });
      }
