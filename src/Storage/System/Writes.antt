-- ===== src/Storage/System/Writes.antt =====
-- A transaction and a restart keep a store over time consistent: `put` of 01-btree/src/storage/tree.rs
-- and `Store::open_or_create` of 01-btree/src/storage/store.rs.
use ucu_de_distributed_algor.Prelude.{
  ℕ, zero, suc, ◌≤◌, ◌<◌, ◌≡◌, refl, sym, ap, ◌∙◌, none, List, [], ◌∷◌, ◌++◌, append-nil, arith,
  take, Run, Result, ok, err, done, ◌>>=◌, >>=-eq-done,
}
use mathlib.Core.Path.{subst}
use ucu_de_distributed_algor.Bytes.{Bytes}
use ucu_de_distributed_algor.Io.{PageIo, IsPageIo, Keeps}
use ucu_de_distributed_algor.Page.Tags.{PageId, u64_mod}
use ucu_de_distributed_algor.Page.{Error, check_limits}
use ucu_de_distributed_algor.Storage.Entries.{upsert}
use ucu_de_distributed_algor.Storage.Store.{
  Store, WriteTxn, OpenError, begin_write, open_or_create, txn_page_size,
}
use ucu_de_distributed_algor.Storage.Store.Reopen.{reopened}
use ucu_de_distributed_algor.Storage.Tree.{put, put_checked}
use ucu_de_distributed_algor.Storage.Tree.InsertLeaf.{max_page_size}
use ucu_de_distributed_algor.Storage.Tree.Shape.{Tree}
use ucu_de_distributed_algor.Storage.Tree.Height.{allowance_twice, height-lt}
use ucu_de_distributed_algor.Storage.Fuel.{put-one_result, open_or_create-one_result}
use ucu_de_distributed_algor.Storage.Put.{Holds, reserve, reopened-Holds, After, put-After}
use ucu_de_distributed_algor.Storage.System.{System, headroom, IsConsistent}
use ucu_de_distributed_algor.Storage.System.Steps.{All-map, Sees-frame}

take-take : (n : ℕ) (xs : List PageId) → take n (take n xs) ≡ take n xs
take-take zero xs = refl
take-take (suc n) [] = refl
take-take (suc n) (x ∷ xs) = ap (λ l. x ∷ l) (take-take n xs)

abbrev with_lists : {IO : Type 0} → Store IO → IO → List PageId → List PageId → Store IO
with_lists s io free ids = record {
  io = io;
  root = s.root;
  readers = 0;
  writer = record {
    next_page_id = s.writer.next_page_id;
    free_list = free;
    pending_free = [];
    free_list_page_ids = ids;
  };
}

reopened_twice :
    {IO : Type 0} (needed : ℕ) (s : Store IO) (later last : IO)
    → reopened needed s last ≡ reopened needed (reopened needed s later) last
reopened_twice needed s later last =
    let lists = s.writer.free_list ++ s.writer.pending_free in
    let ids = take needed s.writer.free_list_page_ids in
    ap (λ l. with_lists s last l ids) (sym (append-nil lists))
    ∙ ap (λ l. with_lists s last (lists ++ []) l)
        (sym (take-take needed s.writer.free_list_page_ids))

module _ {IO : Type 0} ⦃p : PageIo IO⦄ where
  put-accepts :
      (fuel : ℕ) (t : WriteTxn IO) (k v : Bytes) (s : Store IO)
      → put fuel t k v ≡ done (ok tt, s)
      → check_limits (txn_page_size t) k v ≡ ok tt
  unfolding put
  put-accepts fuel t k v s h = by_check (check_limits (txn_page_size t) k v) h
    where
      by_check :
          (c : Result (Unit {0}) Error)
          → ◌≡◌ {A = Run (Result (Unit {0}) Error × Store IO)}
              (elim c [
                | err e ↦ done (err e, t.store)
                | ok _ ↦ put_checked fuel t k v >>= λ store. done (ok tt, store)
              ])
              (done (ok tt, s))
          → c ≡ ok tt
      by_check (ok u) r = refl
      by_check (err e) r = cc

  -- A `put` that `check_limits` refuses leaves the store.
  put-refuses :
      (fuel : ℕ) (t : WriteTxn IO) (k v : Bytes) (e : Error) (s : Store IO)
      → put fuel t k v ≡ done (err e, s)
      → s ≡ t.store
  unfolding put
  put-refuses fuel t k v e s h = by_check (check_limits (txn_page_size t) k v) h
    where
      by_check :
          (c : Result (Unit {0}) Error)
          → ◌≡◌ {A = Run (Result (Unit {0}) Error × Store IO)}
              (elim c [
                | err e ↦ done (err e, t.store)
                | ok _ ↦ put_checked fuel t k v >>= λ store. done (ok tt, store)
              ])
              (done (err e, s))
          → s ≡ t.store
      by_check (ok u) r = let (s', run, clash) = >>=-eq-done (put_checked fuel t k v) _ r in cc
      by_check (err d) r = cc

  -- The height is bounded by the pages, so the headroom is enough for a transaction.
  pub reserve-le :
      (ps : ℕ) (s : Store IO) (h : ℕ) (t : Tree h)
      → Holds ps s h t
      → reserve h s.writer.next_page_id ≤ headroom s.writer.next_page_id
  reserve-le ps s h t now =
      let lower =
        height-lt ps h s.writer.next_page_id none none s.root t now.valid
          (λ i. omega (arith, now.owned.once i)) (λ i u. (now.owned.inside i (omega arith)).1) in
      omega (arith, lower, allowance_twice h)

  module _ (law : IsPageIo p) (ps : ℕ) (wide : 49 ≤ ps) (narrow : ps ≤ max_page_size) where
    -- The store behind a `put`, for the guards that are open.
    After-IsConsistent :
        (c : System IO) (k v : Bytes) (q : IsConsistent ps c) (accept : check_limits ps k v ≡ ok tt)
        (room : reserve q.height c.store.writer.next_page_id ≤ law.room c.store.io)
        (words : reserve q.height c.store.writer.next_page_id < u64_mod) (s : Store IO)
        → After law ps wide narrow k v accept c.store q.height q.tree q.holds room words s
        → IsConsistent ps
            (record { store = s; guards = c.guards; contents = upsert c.contents k v })
    After-IsConsistent c k v q accept room words s a = record {
      height = a.height;
      tree = a.tree;
      holds = a.holds;
      same_entries = a.same_entries ∙ ap (λ es. upsert es k v) q.same_entries;
      counted = a.readers_kept ∙ q.counted;
      durable = a.reopens;
      guarded =
          All-map _ _ c.guards
            (λ r some g.
              Sees-frame ps c.store s q.height a.height q.tree a.tree
                (a.still_held (omega (arith, q.counted))) a.pages_kept r g)
            q.guarded;
    }

    -- An accepted `put` returns, with the same result on any fuel on which it returns.
    pub put-IsConsistent :
        (c : System IO) (k v : Bytes)
        → IsConsistent ps c
        → check_limits ps k v ≡ ok tt
        → headroom c.store.writer.next_page_id ≤ law.room c.store.io
        → headroom c.store.writer.next_page_id < u64_mod
        → (s : Store IO) × (fuel : ℕ) × (put fuel (begin_write c.store) k v ≡ done (ok tt, s))
          × IsConsistent ps
              (record { store = s; guards = c.guards; contents = upsert c.contents k v })
    put-IsConsistent c k v q accept room words =
        let below = reserve-le ps c.store q.height q.tree q.holds in
        let (s, run, a) =
          put-After law ps wide narrow k v accept c.store q.height q.tree q.holds (omega arith)
            (omega arith) in
        (s, suc q.height, run, After-IsConsistent c k v q accept (omega arith) (omega arith) s a)

    pub write_step :
        (c : System IO) (fuel : ℕ) (k v : Bytes) (s : Store IO)
        → IsConsistent ps c
        → headroom c.store.writer.next_page_id ≤ law.room c.store.io
        → headroom c.store.writer.next_page_id < u64_mod
        → put fuel (begin_write c.store) k v ≡ done (ok tt, s)
        → IsConsistent ps
            (record { store = s; guards = c.guards; contents = upsert c.contents k v })
    unfolding begin_write txn_page_size
    write_step c fuel k v s q room words run =
        let accept : check_limits ps k v ≡ ok tt =
          ap (λ z. check_limits z k v) (sym q.holds.size)
          ∙ put-accepts fuel (begin_write c.store) k v s run in
        let (s', fuel', run', next) = put-IsConsistent c k v q accept room words in
        let same : s' ≡ s =
          ap (λ z. z.1)
            (put-one_result (begin_write c.store) k v fuel' fuel (ok tt, s') (ok tt, s) run' run) in
        subst
          (λ z.
            IsConsistent ps
              (record { store = z; guards = c.guards; contents = upsert c.contents k v }))
          same next

    pub refuse_step :
        (c : System IO) (fuel : ℕ) (k v : Bytes) (e : Error) (s : Store IO)
        → IsConsistent ps c
        → put fuel (begin_write c.store) k v ≡ done (err e, s)
        → IsConsistent ps (record c { store = s })
    unfolding begin_write
    refuse_step c fuel k v e s q run =
        let same : c.store ≡ s = sym (put-refuses fuel (begin_write c.store) k v e s run) in
        subst (λ z. IsConsistent ps (record c { store = z })) same q

    pub restart_step :
        (c : System IO) (later : IO) (fuel : ℕ) (s : Store IO)
        → IsConsistent ps c
        → p.page_size later ≡ p.page_size c.store.io
        → ((j : PageId) → Keeps c.store.io later j)
        → open_or_create fuel later ≡ done (ok s)
        → IsConsistent ps (record { store = s; guards = []; contents = c.contents })
    restart_step c later fuel s q size keeps run =
        let (needed, few, opens) = q.durable in
        let again = reopened needed c.store later in
        let same : again ≡ s = ok-injective (
          open_or_create-one_result later (suc needed) fuel (ok again) (ok s)
            (opens later size keeps (suc needed) (omega arith)) run) in
        subst (λ z. IsConsistent ps (record { store = z; guards = []; contents = c.contents })) same
          (record {
            height = q.height;
            tree = q.tree;
            holds = reopened-Holds ps needed c.store later q.height q.tree size keeps q.holds;
            same_entries = q.same_entries;
            counted = refl;
            durable = (
              needed,
              few,
              λ last size' keeps' f more.
                  opens last (size' ∙ size) (λ j old read. keeps' j old (keeps j old read)) f more
                  ∙ ap (λ z. done (ok z)) (reopened_twice needed c.store later last),
            );
            guarded = tt;
          })
      where
        ok-injective :
            {x y : Store IO} → ◌≡◌ {A = Result (Store IO) OpenError} (ok x) (ok y) → x ≡ y
        ok-injective e = cc
