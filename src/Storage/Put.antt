-- ===== src/Storage/Put.antt =====
-- `put` and `get` of 01-btree/src/storage/tree.rs on a store that holds a tree.
use ucu_de_distributed_algor.Prelude.{
  ℕ, suc, ◌+◌, ◌*◌, ◌≤◌, ◌<◌, ◌≡◌, refl, sym, ap, ◌∙◌, none, arith, ok, done, ◌>>=◌, >>=-eq-done,
}
use mathlib.Core.Path.{subst}
use ucu_de_distributed_algor.Prelude.Count.{one, one_self, count}
use ucu_de_distributed_algor.Bytes.{Bytes}
use ucu_de_distributed_algor.Io.{PageIo, IsPageIo, Keeps}
use ucu_de_distributed_algor.Page.Tags.{PageId, u64_mod}
use ucu_de_distributed_algor.Page as PageModule
use ucu_de_distributed_algor.Page.{Page, check_limits}
use ucu_de_distributed_algor.Page.Limits.{page_of}
use ucu_de_distributed_algor.Storage.Entries.{upsert}
use ucu_de_distributed_algor.Storage.Store.{
  Store, WriteTxn, last_write, view_read, begin_write, txn_page_size, txn_root, txn_read, free,
  promote, commit, open_or_create,
}
use ucu_de_distributed_algor.Storage.Store.Own.{kept, Own, Grows}
use ucu_de_distributed_algor.Storage.Store.Chain.{IsOwned}
use ucu_de_distributed_algor.Storage.Store.Reopen.{reopened, reloaded-IsOwned}
use ucu_de_distributed_algor.Storage.Store.Commit.{promote-pending, commit-Committed}
use ucu_de_distributed_algor.Storage.Tree.{InsertResult, insert_page, grow_root, put_checked, put}
use ucu_de_distributed_algor.Storage.Tree.InsertLeaf.{max_page_size}
use ucu_de_distributed_algor.Storage.Tree.Shape.{
  Tree, content, entries_of, uses, Stored, Below-frame, Below-keep,
}
use ucu_de_distributed_algor.Storage.Tree.Valid.{Valid}
use ucu_de_distributed_algor.Storage.Tree.Insert.{allowance, insert_page-Outcome}
use ucu_de_distributed_algor.Storage.Tree.Root.{NewRoot, grow_root-NewRoot}

-- The store holds the tree `t`: its pages are read from the published root, it is a search tree whose
-- nodes fit their pages, and no page of it is the header, reusable, pending, or of the free-list chain.
pub record Holds {IO : Type 0} ⦃p : PageIo IO⦄ (ps : ℕ) (s : Store IO) (h : ℕ) (t : Tree h)
    : Type 0 where
  pub size : p.page_size s.io ≡ ps
  pub valid : Valid ps h none none t
  pub stored : Stored (view_read s) h s.root t
  pub owned : IsOwned s.writer (λ i. one s.root i + uses h t i)

-- Opening the backend of the store again, or one on which its pages still read the same, gives the
-- store, with no reader and the pending pages free, once the fuel covers the chain.
abbrev pub IsDurable : {IO : Type 0} ⦃p : PageIo IO⦄ → Store IO → Type 0
IsDurable {IO} ⦃p⦄ s =
    (needed : ℕ) × (needed ≤ s.writer.next_page_id)
    × ((later : IO)
        → p.page_size later ≡ p.page_size s.io
        → ((j : PageId) → Keeps s.io later j)
        → (fuel : ℕ) → needed < fuel
        → open_or_create fuel later ≡ done (ok (reopened needed s later)))

pub reopened-Holds :
    {IO : Type 0} ⦃p : PageIo IO⦄ (ps needed : ℕ) (s : Store IO) (later : IO) (h : ℕ) (t : Tree h)
    → p.page_size later ≡ p.page_size s.io
    → ((j : PageId) → Keeps s.io later j)
    → Holds ps s h t
    → Holds ps (reopened needed s later) h t
unfolding view_read
reopened-Holds ⦃p⦄ ps needed s later h t size keeps now = record {
  size = size ∙ now.size;
  valid = now.valid;
  stored = (
    view_keeps s.root (page_of s.root (content h t)) now.stored.0,
    Below-keep (view_read s) (view_read (reopened needed s later)) h t
        (λ j u page e. view_keeps j page e) now.stored.1,
  );
  owned = reloaded-IsOwned needed s.writer (λ i. one s.root i + uses h t i) now.owned;
}
  where
    view_keeps :
        (j : PageId) (page : Page)
        → (p.read_page s.io j >>= PageModule.decode j) ≡ done page
        → (p.read_page later j >>= PageModule.decode j) ≡ done page
    view_keeps j page e =
        let (bytes, read, decoded) = >>=-eq-done (p.read_page s.io j) (PageModule.decode j) e in
        rw (keeps j bytes read) decoded

-- How many pages a store may have after a `put`, and how many the backend must have room for.
abbrev pub reserve : ℕ → ℕ → ℕ
reserve h next = 2 * (next + (allowance h + 3))

module _ {IO : Type 0} ⦃p : PageIo IO⦄ where
  txn_read-begin_write : (s : Store IO) (j : PageId) → txn_read (begin_write s) j ≡ view_read s j
  unfolding txn_read begin_write view_read last_write
  txn_read-begin_write s j = refl

  pub begin_write-Own :
      (s : Store IO) (h : ℕ) (t : Tree h)
      → IsOwned s.writer (λ i. one s.root i + uses h t i)
      → Own (begin_write s) (λ i. uses h t i + one s.root i)
  unfolding begin_write
  begin_write-Own s h t o = record {
    once = λ i. omega (arith, o.once i);
    inside = λ i k. o.inside i (omega arith);
    positive = o.positive;
    pages = tt;
  }

  checked_run :
      (fuel : ℕ) (t u w : WriteTxn IO) (s : Store IO) (k v : Bytes) (page : Page) (r : InsertResult)
      (id : PageId)
      → txn_read t (txn_root t) ≡ done page
      → insert_page fuel t page k v (txn_page_size t) ≡ done (r, u)
      → grow_root (free u (txn_root t)) (txn_page_size t) r ≡ done (id, w)
      → commit w id ≡ done s
      → put_checked fuel t k v ≡ done s
  unfolding put_checked
  checked_run fuel t u w s k v page r id a2 a3 a4 a5 = rw (a2, a3, a4, a5)

  put_run :
      (fuel ps : ℕ) (t u w : WriteTxn IO) (s : Store IO) (k v : Bytes) (page : Page)
      (r : InsertResult) (id : PageId)
      → txn_page_size t ≡ ps
      → check_limits ps k v ≡ ok tt
      → txn_read t (txn_root t) ≡ done page
      → insert_page fuel t page k v ps ≡ done (r, u)
      → grow_root (free u (txn_root t)) ps r ≡ done (id, w)
      → commit w id ≡ done s
      → put fuel t k v ≡ done (ok tt, s)
  unfolding put
  put_run fuel ps t u w s k v page r id a0 a1 a2 a3 a4 a5 =
      let accept : check_limits (txn_page_size t) k v ≡ ok tt = rw a0 a1 in
      let run = checked_run fuel t u w s k v page r id a2 (rw a0 a3) (rw a0 a4) a5 in
      rw (put, accept, run)

  module _ (law : IsPageIo p) (ps : ℕ) (wide : 49 ≤ ps) (narrow : ps ≤ max_page_size) (k v : Bytes)
      (accept : check_limits ps k v ≡ ok tt) (s : Store IO) (h : ℕ) (t : Tree h)
      (now : Holds ps s h t) (room : reserve h s.writer.next_page_id ≤ law.room s.io)
      (words : reserve h s.writer.next_page_id < u64_mod) where
    -- The store behind a `put`: it holds a tree with the upserted entries, and the pages of the old
    -- tree, and those pending, are still read as before.
    pub record After (s' : Store IO) : Type 0 where
      pub height : ℕ
      pub tree : Tree height
      pub no_lower : h ≤ height
      pub one_higher : height ≤ suc h
      pub holds : Holds ps s' height tree
      pub same_entries : entries_of height tree ≡ upsert (entries_of h t) k v
      pub old_stored : Stored (view_read s') h s.root t
      pub reopens : IsDurable s'
      pub pages_kept :
          (j : PageId)
          → 1 ≤ uses h t j + one s.root j + count s.writer.pending_free j
          → (page : Page) → view_read s j ≡ done page
          → view_read s' j ≡ done page
      pub readers_kept : s'.readers ≡ s.readers
      -- With a reader active, no page of the old tree and no pending page becomes reusable.
      pub still_held :
          1 ≤ s.readers
          → (j : PageId)
          → uses h t j + one s.root j + count s.writer.pending_free j
            ≤ uses height tree j + one s'.root j + count s'.writer.pending_free j
      pub next : s'.writer.next_page_id ≤ reserve h s.writer.next_page_id
      pub room_kept : reserve h s.writer.next_page_id ≤ law.room s'.io

    used : PageId → ℕ
    used i = uses h t i + one s.root i

    -- The pages of the old tree are read after the commit as before the transaction.
    old_pages :
        (w : WriteTxn IO) (Y : PageId → ℕ) (n : ℕ) (s' : Store IO)
        → Grows n (begin_write s) used w Y
        → ((j : PageId)
            → 1 ≤ kept w Y j
            → (page : Page) → txn_read w j ≡ done page
            → view_read s' j ≡ done page)
        → (j : PageId) → 1 ≤ used j + count s.writer.pending_free j
        → (page : Page) → view_read s j ≡ done page
        → view_read s' j ≡ done page
    unfolding begin_write
    old_pages w Y n s' g same j h page e =
        same j (omega (arith, g.held j)) page
          (g.same j (omega arith) ∙ (txn_read-begin_write s j ∙ e))

    held_by :
        (w : WriteTxn IO) (Y : PageId → ℕ) (s' : Store IO)
        → s'.writer.pending_free ≡ (promote w.store.readers w.freed w.store.writer).pending_free
        → w.store.readers ≡ s.readers
        → ((j : PageId) → kept (begin_write s) used j ≤ kept w Y j)
        → 1 ≤ s.readers
        → (j : PageId)
        → used j + count s.writer.pending_free j ≤ Y j + count s'.writer.pending_free j
    unfolding begin_write
    held_by w Y s' pending same held some_reader j = omega (
      arith,
      held j,
      ap (λ l. count l j) pending,
      promote-pending w.store.readers w.freed w.store.writer j (omega arith),
    )

    finish :
        (w : WriteTxn IO) (id : PageId)
        → NewRoot ps h (upsert (entries_of h t) k v) (allowance h + 3) (begin_write s) used w id
        → (s' : Store IO) × (commit w id ≡ done s') × After s'
    unfolding used begin_write
    finish w id new =
        let b = reserve h s.writer.next_page_id in
        let Y : PageId → ℕ = λ i. one id i + uses new.height new.tree i in
        let inside = new.own.inside id (omega (arith, one_self id)) in
        let (s', run, c) =
          commit-Committed law ps wide (omega arith) b w Y id new.own
            (ap p.page_size new.grows.io ∙ now.size) (rw new.grows.io room)
            (omega (arith, new.grows.upto_next)) (omega (arith, new.grows.upto_next))
            (omega (arith, inside.1, new.grows.upto_next)) in
        let old = old_pages w Y (allowance h + 3) s' new.grows c.same in
        (
          s',
          run,
          record {
            height = new.height;
            tree = new.tree;
            no_lower = new.no_lower;
            one_higher = new.one_higher;
            holds = record {
              size = c.size_kept;
              valid = new.valid;
              stored =
                  subst (λ z. Stored (view_read s') new.height z new.tree) (sym c.root_set)
                    (
                      c.same id (omega (arith, one_self id))
                          (page_of id (content new.height new.tree)) new.stored.0,
                      Below-keep (txn_read w) (view_read s') new.height new.tree
                          (λ j u. c.same j (omega arith)) new.stored.1,
                    );
              owned =
                  subst (λ z. IsOwned s'.writer (λ i. one z i + uses new.height new.tree i))
                    (sym c.root_set) c.owned;
            };
            same_entries = new.same_entries;
            old_stored = (
              old s.root (omega (arith, one_self s.root)) (page_of s.root (content h t))
                  now.stored.0,
              Below-keep (view_read s) (view_read s') h t (λ j u. old j (omega arith)) now.stored.1,
            );
            reopens = c.reopens;
            pages_kept = λ j u. old j (omega arith);
            still_held = λ some_reader j. omega (
              arith,
              held_by w Y s' c.pending new.grows.readers new.grows.held some_reader j,
              ap (λ z. one z j) c.root_set,
            );
            readers_kept = c.readers_kept ∙ new.grows.readers;
            next = omega (arith, c.next, new.grows.upto_next);
            room_kept = c.room_kept;
          },
        )

    pub put-After :
        (s' : Store IO) × (put (suc h) (begin_write s) k v ≡ done (ok tt, s')) × After s'
    unfolding begin_write txn_root txn_page_size used
    put-After =
        let b = reserve h s.writer.next_page_id in
        let t0 = begin_write s in
        let same0 = λ (j : PageId). txn_read-begin_write s j in
        let below0 = Below-frame (view_read s) (txn_read t0) h t (λ j u. same0 j) now.stored.1 in
        let own0 = begin_write-Own s h t now.owned in
        let (r, u, inserted, outcome) =
          insert_page-Outcome ps k v (omega arith) narrow accept h none none s.root t t0
            (one s.root) now.size now.valid tt tt below0 own0 (omega arith) in
        let (id, w, grown, new) =
          grow_root-NewRoot ps (omega arith) narrow h (upsert (entries_of h t) k v) (allowance h) t0
            used now.size s.root u r outcome (omega arith) in
        let (s', committed, after) = finish w id new in
        (
          s',
          put_run (suc h) ps t0 u w s' k v (page_of s.root (content h t)) r id now.size accept
              (same0 s.root ∙ now.stored.0) inserted grown committed,
          after,
        )
