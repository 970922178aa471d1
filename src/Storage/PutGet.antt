-- ===== src/Storage/PutGet.antt =====
-- `put` and then `get` of 01-btree/src/storage/tree.rs, on a store that holds a tree.
use ucu_de_distributed_algor.Prelude.{
  ℕ, suc, ◌≤◌, ◌<◌, ◌≡◌, sym, refl, ap, ◌∙◌, ◌≢◌, some, arith, ok, done,
}
use ucu_de_distributed_algor.Bytes.{Bytes}
use ucu_de_distributed_algor.Io.{PageIo, IsPageIo}
use ucu_de_distributed_algor.Page.Tags.{u64_mod}
use ucu_de_distributed_algor.Page.{check_limits}
use ucu_de_distributed_algor.Storage.Entries.{upsert, lookup, lookup-upsert_self, lookup-upsert_ne}
use ucu_de_distributed_algor.Storage.Store.{Store, begin_write, view_read, open_or_create}
use ucu_de_distributed_algor.Storage.Store.Reopen.{reopened}
use ucu_de_distributed_algor.Storage.Tree.{put, get}
use ucu_de_distributed_algor.Storage.Tree.InsertLeaf.{max_page_size}
use ucu_de_distributed_algor.Storage.Tree.Shape.{Tree, entries_of}
use ucu_de_distributed_algor.Storage.Tree.Get.{get-lookup}
use ucu_de_distributed_algor.Storage.Put.{reopened-Holds, Holds, reserve, put-After}

-- A store with pages of 49 to 43690 bytes that holds a tree of height `h`, with room for the pages
-- that a `put` may need: a `put` that `check_limits` accepts, with fuel for `h + 1` levels, returns a
-- store that holds a tree of height `h` or `h + 1`, whose entries are the old ones with the key
-- inserted or its value replaced. The number of readers stays, and the high-water mark is within the
-- reserve.
pub put-Holds :
    {IO : Type 0} ⦃p : PageIo IO⦄ (law : IsPageIo p) (ps : ℕ) (k v : Bytes) (s : Store IO) (h : ℕ)
    (t : Tree h)
    → 49 ≤ ps
    → ps ≤ max_page_size
    → check_limits ps k v ≡ ok tt
    → Holds ps s h t
    → reserve h s.writer.next_page_id ≤ law.room s.io
    → reserve h s.writer.next_page_id < u64_mod
    → (s' : Store IO) × (put (suc h) (begin_write s) k v ≡ done (ok tt, s'))
      × (h' : ℕ) × (t' : Tree h') × (h ≤ h')
      × (h' ≤ suc h)
      × Holds ps s' h' t'
      × (entries_of h' t' ≡ upsert (entries_of h t) k v)
      × (s'.readers ≡ s.readers)
      × (s'.writer.next_page_id ≤ reserve h s.writer.next_page_id)
put-Holds law ps k v s h t wide narrow accept now room words =
    let (s', run, a) = put-After law ps wide narrow k v accept s h t now room words in
    (
      s', run, a.height, a.tree, a.no_lower, a.one_higher, a.holds, a.same_entries, a.readers_kept,
      a.next,
    )

-- Under the same conditions: after the `put`, `get` with fuel for the new tree's levels returns the
-- value under the key, and for every other key what it returned before.
pub get-put :
    {IO : Type 0} ⦃p : PageIo IO⦄ (law : IsPageIo p) (ps : ℕ) (k v : Bytes) (s : Store IO) (h : ℕ)
    (t : Tree h)
    → 49 ≤ ps
    → ps ≤ max_page_size
    → check_limits ps k v ≡ ok tt
    → Holds ps s h t
    → reserve h s.writer.next_page_id ≤ law.room s.io
    → reserve h s.writer.next_page_id < u64_mod
    → (s' : Store IO) × (put (suc h) (begin_write s) k v ≡ done (ok tt, s'))
      × (h' : ℕ) × (h' ≤ suc h)
      × (get (suc h') s' k ≡ done (some v))
      × ((q : Bytes) → q ≢ k → get (suc h') s' q ≡ get (suc h) s q)
get-put law ps k v s h t wide narrow accept now room words =
    let (s', run, a) = put-After law ps wide narrow k v accept s h t now room words in
    let after = λ (q : Bytes).
      get-lookup ps s' a.height a.tree q (omega arith) a.holds.valid a.holds.stored
      ∙ ap (λ es. done (lookup es q)) a.same_entries in
    (
      s',
      run,
      a.height,
      a.one_higher,
      after k ∙ ap done (lookup-upsert_self (entries_of h t) k v),
      λ q n.
          after q
          ∙ (ap done (lookup-upsert_ne (entries_of h t) k v q n)
              ∙ sym (get-lookup ps s h t q (omega arith) now.valid now.stored)),
    )

-- Under the same conditions: a reader that keeps the old root finds after the `put` what it found
-- before, at every key.
pub get-put_old_root :
    {IO : Type 0} ⦃p : PageIo IO⦄ (law : IsPageIo p) (ps : ℕ) (k v : Bytes) (s : Store IO) (h : ℕ)
    (t : Tree h)
    → 49 ≤ ps
    → ps ≤ max_page_size
    → check_limits ps k v ≡ ok tt
    → Holds ps s h t
    → reserve h s.writer.next_page_id ≤ law.room s.io
    → reserve h s.writer.next_page_id < u64_mod
    → (s' : Store IO) × (put (suc h) (begin_write s) k v ≡ done (ok tt, s'))
      × ((q : Bytes) → get (suc h) (record s' { root = s.root }) q ≡ get (suc h) s q)
unfolding view_read
get-put_old_root law ps k v s h t wide narrow accept now room words =
    let (s', run, a) = put-After law ps wide narrow k v accept s h t now room words in
    (
      s',
      run,
      λ q.
          get-lookup ps (record s' { root = s.root }) h t q (omega arith) now.valid a.old_stored
          ∙ sym (get-lookup ps s h t q (omega arith) now.valid now.stored),
    )

-- Under the same conditions: opening the backend again after the `put`, with fuel above the
-- high-water mark, returns a store with no reader, in which `get` returns the value under the key and
-- for every other key what it returned before the `put`. The store holds a tree again.
pub get-open_or_create-put :
    {IO : Type 0} ⦃p : PageIo IO⦄ (law : IsPageIo p) (ps : ℕ) (k v : Bytes) (s : Store IO) (h : ℕ)
    (t : Tree h)
    → 49 ≤ ps
    → ps ≤ max_page_size
    → check_limits ps k v ≡ ok tt
    → Holds ps s h t
    → reserve h s.writer.next_page_id ≤ law.room s.io
    → reserve h s.writer.next_page_id < u64_mod
    → (s' : Store IO) × (put (suc h) (begin_write s) k v ≡ done (ok tt, s'))
      × (h' : ℕ) × (t' : Tree h') × (h' ≤ suc h)
      × (again : Store IO) × ((fuel : ℕ)
          → s'.writer.next_page_id < fuel
          → open_or_create fuel s'.io ≡ done (ok again))
      × (again.readers ≡ 0)
      × Holds ps again h' t'
      × (get (suc h') again k ≡ done (some v))
      × ((q : Bytes) → q ≢ k → get (suc h') again q ≡ get (suc h) s q)
get-open_or_create-put law ps k v s h t wide narrow accept now room words =
    let (s', run, a) = put-After law ps wide narrow k v accept s h t now room words in
    let (needed, few, opens) = a.reopens in
    let again = reopened needed s' s'.io in
    let held =
      reopened-Holds ps needed s' s'.io a.height a.tree refl (λ j old read. read) a.holds in
    let after = λ (q : Bytes).
      get-lookup ps again a.height a.tree q (omega arith) held.valid held.stored
      ∙ ap (λ es. done (lookup es q)) a.same_entries in
    (
      s',
      run,
      a.height,
      a.tree,
      a.one_higher,
      again,
      λ fuel more. opens s'.io refl (λ j old read. read) fuel (omega arith),
      refl,
      held,
      after k ∙ ap done (lookup-upsert_self (entries_of h t) k v),
      λ q n.
          after q
          ∙ (ap done (lookup-upsert_ne (entries_of h t) k v q n)
              ∙ sym (get-lookup ps s h t q (omega arith) now.valid now.stored)),
    )
