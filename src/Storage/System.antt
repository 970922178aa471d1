-- ===== src/Storage/System.antt =====
-- A store over time: 01-btree/src/storage/store.rs and 01-btree/src/storage/tree.rs with read guards that stay
-- open while transactions commit.

pub mod Steps
pub mod Writes
pub mod Safety
use ucu_de_distributed_algor.Prelude.{
  ℕ, ◌+◌, ◌*◌, ◌≤◌, ◌<◌, ◌≡◌, none, List, [], ◌∷◌, ◌++◌, length, All, ok, err, done,
}
use ucu_de_distributed_algor.Prelude.Count.{one, count}
use ucu_de_distributed_algor.Bytes.{Bytes}
use ucu_de_distributed_algor.Io.{PageIo, IsPageIo, Keeps}
use ucu_de_distributed_algor.Page.Tags.{PageId, u64_mod}
use ucu_de_distributed_algor.Page.{Error}
use ucu_de_distributed_algor.Page.Leaf.View.{Entry}
use ucu_de_distributed_algor.Storage.Entries.{upsert}
use ucu_de_distributed_algor.Storage.Store.{
  Store, enter_read, drop_read, view_root, view_read, begin_write, open_or_create,
}
use ucu_de_distributed_algor.Storage.Tree.{put}
use ucu_de_distributed_algor.Storage.Tree.Shape.{Tree, entries_of, uses, Stored}
use ucu_de_distributed_algor.Storage.Tree.Valid.{Valid}
use ucu_de_distributed_algor.Storage.Put.{Holds, IsDurable}

-- A read guard: as `enter_read` returns it, or in a `get` that has loaded the root. The entries are
-- what was committed at that time; the code does not have them.
pub data Reader : Type 0 where
  entered : Reader
  reading : PageId → List Entry → Reader

-- The store, its open guards, and the entries that the transactions so far amount to.
pub record System (IO : Type 0) : Type 0 where
  pub store : Store IO
  pub guards : List Reader
  pub contents : List Entry

-- Room for the pages that one more transaction may need.
abbrev pub headroom : ℕ → ℕ
headroom next = 6 * (next + 1)

module _ {IO : Type 0} ⦃p : PageIo IO⦄ (law : IsPageIo p) where
  -- One step; a commit is one step for the readers.
  pub data Step (c d : System IO) : Type 0 where
    -- `enter_read`
    enter :
        d ≡ record {
          store = enter_read c.store;
          guards = entered ∷ c.guards;
          contents = c.contents;
        }
        → Step c d
    -- a `get` on a guard loads the root
    load :
        (before after : List Reader) (r : Reader)
        → c.guards ≡ before ++ r ∷ after
        → d ≡ record c { guards = before ++ reading (view_root c.store) c.contents ∷ after }
        → Step c d
    -- a guard is dropped
    leave :
        (before after : List Reader) (r : Reader)
        → c.guards ≡ before ++ r ∷ after
        → d ≡ record { store = drop_read c.store; guards = before ++ after; contents = c.contents }
        → Step c d
    -- a `put` that commits, on a backend with room
    write :
        (fuel : ℕ) (k v : Bytes) (s : Store IO)
        → headroom c.store.writer.next_page_id ≤ law.room c.store.io
        → headroom c.store.writer.next_page_id < u64_mod
        → put fuel (begin_write c.store) k v ≡ done (ok tt, s)
        → d ≡ record { store = s; guards = c.guards; contents = upsert c.contents k v }
        → Step c d
    -- a `put` that is refused
    refuse :
        (fuel : ℕ) (k v : Bytes) (e : Error) (s : Store IO)
        → put fuel (begin_write c.store) k v ≡ done (err e, s)
        → d ≡ record c { store = s }
        → Step c d
    -- the process ends between two commits, and a store is opened on a backend with the same pages
    restart :
        (later : IO) (fuel : ℕ) (s : Store IO)
        → p.page_size later ≡ p.page_size c.store.io
        → ((j : PageId) → Keeps c.store.io later j)
        → open_or_create fuel later ≡ done (ok s)
        → d ≡ record { store = s; guards = []; contents = c.contents }
        → Step c d

  pub data Reach (c : System IO) : System IO → Type 0 where
    here : Reach c c
    next : {d e : System IO} → Reach c d → Step d e → Reach c e

module _ {IO : Type 0} ⦃p : PageIo IO⦄ where
  -- What a guard relies on: the tree of its root is still stored, with the entries of that time, and
  -- its pages are of the current tree or pending.
  pub record Snapshot (ps : ℕ) (s : Store IO) (h : ℕ) (t : Tree h) (root : PageId)
      (seen : List Entry) : Type 0 where
    pub height : ℕ
    pub tree : Tree height
    pub valid : Valid ps height none none tree
    pub stored : Stored (view_read s) height root tree
    pub same_entries : entries_of height tree ≡ seen
    pub held :
        (i : PageId)
        → uses height tree i + one root i
          ≤ uses h t i + one s.root i + count s.writer.pending_free i

  abbrev pub Sees : (ps : ℕ) → Store IO → (h : ℕ) → Tree h → Reader → Type 0
  Sees ps s h t entered = Unit {0}
  Sees ps s h t (reading root seen) = Snapshot ps s h t root seen

  pub record IsConsistent (ps : ℕ) (c : System IO) : Type 0 where
    pub height : ℕ
    pub tree : Tree height
    pub holds : Holds ps c.store height tree
    pub same_entries : entries_of height tree ≡ c.contents
    pub counted : c.store.readers ≡ length c.guards
    pub durable : IsDurable c.store
    pub guarded : All (Sees ps c.store height tree) c.guards
