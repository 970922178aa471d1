-- ===== src/Storage/Store/Alloc.antt =====
-- `WriteTxn::alloc` of 01-btree/src/storage/store.rs gives a page that nobody owns, and a write to it
-- disturbs no other.
use ucu_de_distributed_algor.Prelude.{
  ℕ, ◌+◌, ◌≤◌, ◌<◌, ◌≡◌, refl, ap, ◌∙◌, ◌≢◌, inl, inr, List, [], ◌∷◌, ◌++◌, arith, lt→ltb, length,
  All, All-append, done,
}
use native.Mathlib.Decide.{ℕ_discrete}
use ucu_de_distributed_algor.Prelude.Count.{one, one_self, one_ne, one_le, count, count-snoc}
use ucu_de_distributed_algor.Bytes.{Bytes}
use ucu_de_distributed_algor.Io.{PageIo}
use ucu_de_distributed_algor.Page.Tags.{PageId, u64_mod}
use ucu_de_distributed_algor.Page.Limits.{Content, page_of, FitsPage, decode-to_bytes-page_of}
use ucu_de_distributed_algor.Storage.Store.{
  WriteTxn, next_u64, txn_page_size, txn_read, with_writer, alloc, write,
}
use ucu_de_distributed_algor.Storage.Store.Own.{owners, kept, Own, Grows, pop-cases}
use ucu_de_distributed_algor.Storage.Store.Transaction.{last_write-snoc_self, last_write-snoc_ne}

abbrev Written : ℕ → ℕ → PageId × Bytes → Type 0
Written next size w = (w.0 < next) × (length w.1 ≡ size)

Written-mono :
    (m n size : ℕ) (ws : List (PageId × Bytes))
    → m ≤ n
    → All (Written m size) ws
    → All (Written n size) ws
Written-mono m n size [] h a = tt
Written-mono m n size (w ∷ ws) h a = ((omega arith, a.0.1), Written-mono m n size ws h a.1)

module _ {IO : Type 0} ⦃p : PageIo IO⦄ (t : WriteTxn IO) (X : PageId → ℕ) where
  -- The page that an allocation gives, and the transaction behind it.
  abbrev pub Allocates : PageId → WriteTxn IO → Type 0
  Allocates id u =
      Own u (λ i. one id i + X i)
      × Grows 1 t X u (λ i. one id i + X i)
      × (kept t X id ≡ 0)
      × (u.writes ≡ t.writes)

  bump : WriteTxn IO
  bump = with_writer t (record (t.store.writer) { next_page_id = t.store.writer.next_page_id + 1 })

  fresh_next : Own t X → owners t X t.store.writer.next_page_id ≡ 0
  fresh_next o = elim (ℕ_discrete (owners t X t.store.writer.next_page_id) 0) [
    | yes e ↦ e
    | no n ↦ absurd (omega (arith, o.inside t.store.writer.next_page_id (omega arith)))
  ]

  bump-Own : Own t X → Own bump (λ i. one t.store.writer.next_page_id i + X i)
  unfolding bump txn_page_size
  bump-Own o =
      let next = t.store.writer.next_page_id in
      record {
        once = λ i. elim (ℕ_discrete next i) [
          | yes e ↦ omega (arith, ap (λ j. owners t X j) e, fresh_next o, one_le next i)
          | no n ↦ omega (arith, one_ne next i n, o.once i)
        ];
        inside = λ i h. elim (ℕ_discrete next i) [
          | yes e ↦ omega (arith, o.positive)
          | no n ↦ omega (arith, one_ne next i n, o.inside i (omega (arith, one_ne next i n)))
        ];
        positive = omega arith;
        pages = Written-mono next (next + 1) (txn_page_size t) t.writes (omega arith) o.pages;
      }

  bump-Allocates : Own t X → Allocates t.store.writer.next_page_id bump
  unfolding bump txn_read
  bump-Allocates o =
      let next = t.store.writer.next_page_id in
      (
        bump-Own o,
        record {
          same = λ j h. refl;
          held = λ j. omega arith;
          io = refl;
          readers = refl;
          root = refl;
          base = refl;
          from_next = omega arith;
          upto_next = omega arith;
        },
        omega (arith, fresh_next o),
        refl,
      )

  recycle : List PageId → WriteTxn IO
  recycle rest = with_writer t (record (t.store.writer) { free_list = rest })

  recycle-Allocates :
      (id : PageId) (rest : List PageId)
      → t.store.writer.free_list ≡ rest ++ id ∷ []
      → Own t X
      → Allocates id (recycle rest)
  unfolding recycle txn_read txn_page_size
  recycle-Allocates id rest e o =
      let counted = λ (i : PageId). ap (λ l. count l i) e ∙ count-snoc rest id i in
      (
        record {
          once = λ i. omega (arith, o.once i, counted i);
          inside = λ i h. o.inside i (omega (arith, counted i));
          positive = o.positive;
          pages = o.pages;
        },
        record {
          same = λ j h. refl;
          held = λ j. omega arith;
          io = refl;
          readers = refl;
          root = refl;
          base = refl;
          from_next = omega arith;
          upto_next = omega arith;
        },
        omega (arith, o.once id, counted id, one_self id),
        refl,
      )

  -- In a transaction where every page has one owner at most and the high-water mark is below the last
  -- page id: an allocation returns. Its page was not in use, freed or pending; afterwards it is in use,
  -- every page still has one owner at most, and every page in use, freed or pending reads as before.
  pub alloc_lem :
      t.store.writer.next_page_id + 1 < u64_mod
      → Own t X
      → (id : PageId) × (u : WriteTxn IO) × (alloc t ≡ done (id, u)) × Allocates id u
  unfolding alloc next_u64 bump recycle
  alloc_lem room o = elim (pop-cases t.store.writer.free_list) [
    | inl (e, n) ↦ (
      t.store.writer.next_page_id,
      bump,
      rw (alloc, e, lt→ltb (t.store.writer.next_page_id + 1) u64_mod room),
      bump-Allocates o,
    )
    | inr (id, rest, e, l) ↦ (id, recycle rest, rw (alloc, e), recycle-Allocates id rest l o)
  ]

  -- Writing a node that fits to a page in use.
  pub write_lem :
      (id old : PageId) (c : Content)
      → Own t X
      → id < t.store.writer.next_page_id
      → id < u64_mod
      → FitsPage (txn_page_size t) c
      → (u : WriteTxn IO) × (write t id (page_of old c) ≡ done u)
        × Own u X
        × (txn_read u id ≡ done (page_of id c))
        × ((j : PageId) → j ≢ id → txn_read u j ≡ txn_read t j)
        × (u ≡ record t { writes = u.writes })
  unfolding write txn_read txn_page_size
  write_lem id old c o below small fits =
      let (bytes, written, len, back) =
        decode-to_bytes-page_of old id c (txn_page_size t) small fits in
      (
        record t { writes = t.writes ++ ((id, bytes) ∷ []) },
        rw written,
        record {
          once = o.once;
          inside = o.inside;
          positive = o.positive;
          pages =
              (All-append (Written t.store.writer.next_page_id (txn_page_size t)) t.writes
                  ((id, bytes) ∷ [])).1
                (o.pages, ((below, len), tt));
        },
        rw (txn_read, last_write-snoc_self t.writes id bytes) back,
        λ j n. rw (txn_read, last_write-snoc_ne t.writes id j bytes n),
        refl,
      )

-- Storing a node that fits on a new page: the steps `alloc` and `write` of
-- 01-btree/src/storage/tree.rs.
pub put_page :
    {IO : Type 0} ⦃p : PageIo IO⦄ (t : WriteTxn IO) (X : PageId → ℕ) (old : PageId) (c : Content)
    → t.store.writer.next_page_id + 1 < u64_mod
    → Own t X
    → FitsPage (txn_page_size t) c
    → (id : PageId) × (u : WriteTxn IO) × (v : WriteTxn IO) × (alloc t ≡ done (id, u))
      × (write u id (page_of old c) ≡ done v)
      × Own v (λ i. one id i + X i)
      × Grows 1 t X v (λ i. one id i + X i)
      × (txn_read v id ≡ done (page_of id c))
unfolding txn_page_size
put_page ⦃p⦄ t X old c room o fits =
    let (id, u, given, (owned, grows, unused, unwritten)) = alloc_lem t X room o in
    let below : id < u.store.writer.next_page_id =
      (owned.inside id (omega (arith, one_self id))).1 in
    let size : p.page_size u.store.io ≡ p.page_size t.store.io = ap p.page_size grows.io in
    let (v, written, own, back, others, rest) =
      write_lem u (λ i. one id i + X i) id old c owned below (omega (arith, grows.upto_next))
        (rw size fits) in
    (
      id,
      u,
      v,
      given,
      written,
      own,
      record {
        same =
            λ j h. others j (λ e. omega (arith, unused, ap (λ k. kept t X k) e)) ∙ grows.same j h;
        held = λ j. omega (
          arith,
          grows.held j,
          ap (λ z. count z.freed j + count z.store.writer.pending_free j) rest,
        );
        io = ap (λ z. z.store.io) rest ∙ grows.io;
        readers = ap (λ z. z.store.readers) rest ∙ grows.readers;
        root = ap (λ z. z.store.root) rest ∙ grows.root;
        base = ap (λ z. z.base_root) rest ∙ grows.base;
        from_next = omega (arith, ap (λ z. z.store.writer.next_page_id) rest, grows.from_next);
        upto_next = omega (arith, ap (λ z. z.store.writer.next_page_id) rest, grows.upto_next);
      },
      back,
    )
