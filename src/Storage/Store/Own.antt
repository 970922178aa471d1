-- ===== src/Storage/Store/Own.antt =====
-- Which pages a transaction owns: `WriteTxn::alloc`, `WriteTxn::write` and `WriteTxn::free` of
-- 01-btree/src/storage/store.rs, over the pages in use, freed, free, pending and of the free-list chain.
use ucu_de_distributed_algor.Prelude.{
  ℕ, ◌+◌, ◌≤◌, ◌<◌, ◌≡◌, refl, ap, ◌∙◌, ◌⊎◌, inl, inr, none, some, List, [], ◌∷◌, ◌++◌, arith,
  length, All,
}
use ucu_de_distributed_algor.Prelude.Count.{one, count, count-snoc}
use ucu_de_distributed_algor.Io.{PageIo}
use ucu_de_distributed_algor.Page.Tags.{PageId}
use ucu_de_distributed_algor.Storage.Store.{
  WriterState, WriteTxn, pop, txn_page_size, txn_read, free,
}

-- How often an id stands in the lists of the writer's state.
abbrev pub idle : WriterState → PageId → ℕ
idle w i = count w.free_list i + count w.pending_free i + count w.free_list_page_ids i

pub pop-cases {ℓ} :
    {A : Type ℓ} (xs : List A)
    → ((pop xs ≡ none) × (xs ≡ []))
      ⊎ ((x : A) × (rest : List A) × (pop xs ≡ some (x, rest)) × (xs ≡ rest ++ x ∷ []))
unfolding pop
pop-cases [] = inl (refl, refl)
pop-cases (x ∷ xs) = elim (pop-cases xs) [
  | inl (e, n) ↦ inr (x, [], rw e, ap (λ t. x ∷ t) n)
  | inr (y, ys, e, n) ↦ inr (y, x ∷ ys, rw e, ap (λ t. x ∷ t) n)
]

module _ {IO : Type 0} ⦃p : PageIo IO⦄ where
  -- The number of owners of a page, with `X` the number of times that it is in use.
  abbrev pub owners : WriteTxn IO → (PageId → ℕ) → PageId → ℕ
  owners t X i = X i + count t.freed i + idle t.store.writer i

  -- The same without the lists that a transaction takes pages from: in use, freed or pending.
  abbrev pub kept : WriteTxn IO → (PageId → ℕ) → PageId → ℕ
  kept t X i = X i + count t.freed i + count t.store.writer.pending_free i

  -- Every page has one owner at most; none is the header, and none is past the high-water mark.
  pub record Own (t : WriteTxn IO) (X : PageId → ℕ) : Type 0 where
    pub once : (i : PageId) → owners t X i ≤ 1
    pub inside : (i : PageId) → 1 ≤ owners t X i → (0 < i) × (i < t.store.writer.next_page_id)
    pub positive : 0 < t.store.writer.next_page_id
    pub pages :
        All (λ w. (w.0 < t.store.writer.next_page_id) × (length w.1 ≡ txn_page_size t)) t.writes

  -- What a transaction leaves alone while it allocates at most `n` pages: the backend, the published
  -- root, and every page that was in use, freed or pending.
  pub record Grows (n : ℕ) (t : WriteTxn IO) (X : PageId → ℕ) (t' : WriteTxn IO) (X' : PageId → ℕ)
      : Type 0 where
    pub same : (j : PageId) → 1 ≤ kept t X j → txn_read t' j ≡ txn_read t j
    pub held : (j : PageId) → kept t X j ≤ kept t' X' j
    pub io : t'.store.io ≡ t.store.io
    pub readers : t'.store.readers ≡ t.store.readers
    pub root : t'.store.root ≡ t.store.root
    pub base : t'.base_root ≡ t.base_root
    pub from_next : t.store.writer.next_page_id ≤ t'.store.writer.next_page_id
    pub upto_next : t'.store.writer.next_page_id ≤ t.store.writer.next_page_id + n

  pub Grows-refl : (t : WriteTxn IO) (X : PageId → ℕ) → Grows 0 t X t X
  Grows-refl t X = record {
    same = λ j h. refl;
    held = λ j. omega arith;
    io = refl;
    readers = refl;
    root = refl;
    base = refl;
    from_next = omega arith;
    upto_next = omega arith;
  }

  pub Grows-trans :
      (m n : ℕ) {t u v : WriteTxn IO} {X Y Z : PageId → ℕ}
      → Grows m t X u Y
      → Grows n u Y v Z
      → Grows (m + n) t X v Z
  Grows-trans m n g k = record {
    same = λ j h. k.same j (omega (arith, g.held j)) ∙ g.same j h;
    held = λ j. omega (arith, g.held j, k.held j);
    io = k.io ∙ g.io;
    readers = k.readers ∙ g.readers;
    root = k.root ∙ g.root;
    base = k.base ∙ g.base;
    from_next = omega (arith, g.from_next, k.from_next);
    upto_next = omega (arith, g.upto_next, k.upto_next);
  }

  -- Ownership looks at the number of uses only.
  pub Own-cong :
      {t : WriteTxn IO} {X Y : PageId → ℕ} → ((i : PageId) → X i ≡ Y i) → Own t X → Own t Y
  Own-cong e o = record {
    once = λ i. omega (arith, e i, o.once i);
    inside = λ i h. o.inside i (omega (arith, e i));
    positive = o.positive;
    pages = o.pages;
  }

  pub Grows-cong :
      {n : ℕ} {t u : WriteTxn IO} {X Y Y' : PageId → ℕ}
      → ((i : PageId) → Y i ≡ Y' i)
      → Grows n t X u Y
      → Grows n t X u Y'
  Grows-cong e g = record {
    same = g.same;
    held = λ j. omega (arith, e j, g.held j);
    io = g.io;
    readers = g.readers;
    root = g.root;
    base = g.base;
    from_next = g.from_next;
    upto_next = g.upto_next;
  }

  -- The same from another count of the pages in use, and with a larger allowance.
  pub Grows-widen :
      {m : ℕ} (n : ℕ) {t u : WriteTxn IO} {X X' Y : PageId → ℕ}
      → m ≤ n
      → ((i : PageId) → X i ≡ X' i)
      → Grows m t X u Y
      → Grows n t X' u Y
  Grows-widen n l e g = record {
    same = λ j h. g.same j (omega (arith, e j));
    held = λ j. omega (arith, e j, g.held j);
    io = g.io;
    readers = g.readers;
    root = g.root;
    base = g.base;
    from_next = g.from_next;
    upto_next = omega (arith, g.upto_next);
  }

  pub Grows-page_size :
      {n : ℕ} {t u : WriteTxn IO} {X Y : PageId → ℕ}
      → Grows n t X u Y
      → txn_page_size u ≡ txn_page_size t
  unfolding txn_page_size
  Grows-page_size g = ap p.page_size g.io

  -- A page in use becomes a freed one.
  pub free-Own :
      (t : WriteTxn IO) (X : PageId → ℕ) (id : PageId)
      → Own t (λ i. one id i + X i)
      → Own (free t id) X × Grows 0 t (λ i. one id i + X i) (free t id) X
  unfolding free txn_page_size txn_read
  free-Own t X id o = (
    record {
      once = λ i. omega (arith, o.once i, count-snoc t.freed id i);
      inside = λ i h. o.inside i (omega (arith, count-snoc t.freed id i));
      positive = o.positive;
      pages = o.pages;
    },
    record {
      same = λ j h. refl;
      held = λ j. omega (arith, count-snoc t.freed id j);
      io = refl;
      readers = refl;
      root = refl;
      base = refl;
      from_next = omega arith;
      upto_next = omega arith;
    },
  )
