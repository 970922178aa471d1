-- ===== src/Storage/System/Safety.antt =====
-- What holds of a store over time, in every order of its steps: the published entries are those of the
-- transactions so far, and a guard goes on to see the entries that were published when its `get` began.
use ucu_de_distributed_algor.Prelude.{
  ℕ, suc, ◌+◌, ◌-◌, ◌≤◌, ◌<◌, ◌≡◌, refl, ap, ◌∙◌, List, ◌∷◌, ◌++◌, arith, length, All, All-append,
  ok, done,
}
use mathlib.Core.Path.{subst}
use ucu_de_distributed_algor.Bytes.{Bytes}
use ucu_de_distributed_algor.Io.{PageIo, IsPageIo}
use ucu_de_distributed_algor.Page.Tags.{PageId, u64_mod}
use ucu_de_distributed_algor.Page.{check_limits}
use ucu_de_distributed_algor.Page.Leaf.View.{Entry}
use ucu_de_distributed_algor.Storage.Entries.{upsert, lookup}
use ucu_de_distributed_algor.Storage.Store.{enter_read, drop_read, view_read}
use ucu_de_distributed_algor.Storage.Tree.{get}
use ucu_de_distributed_algor.Storage.Tree.InsertLeaf.{max_page_size}
use ucu_de_distributed_algor.Storage.Tree.Get.{get-lookup}
use ucu_de_distributed_algor.Storage.System.{
  Reader, entered, reading, System, headroom, Step, enter, load, leave, write, refuse, restart,
  Reach, here, next, Sees, IsConsistent,
}
use ucu_de_distributed_algor.Storage.System.Steps.{length-cut, All-cut, readers_step, load_step}
use ucu_de_distributed_algor.Storage.System.Writes.{
  put-IsConsistent, write_step, refuse_step, restart_step,
}

module _ {IO : Type 0} ⦃p : PageIo IO⦄ (law : IsPageIo p) (ps : ℕ) (wide : 49 ≤ ps)
    (narrow : ps ≤ max_page_size) where
  Step-IsConsistent : {c d : System IO} → Step law c d → IsConsistent ps c → IsConsistent ps d
  unfolding enter_read drop_read
  Step-IsConsistent {c} (enter e) k = rw e (
      readers_step ps c (c.store.readers + 1) (entered ∷ c.guards) k (omega (arith, k.counted))
        (tt, k.guarded))
  Step-IsConsistent {c} (load before after r cut e) k = rw e (load_step ps c before after r cut k)
  Step-IsConsistent {c} (leave before after r cut e) k =
      let P : Reader → Type 0 = Sees ps c.store k.height k.tree in
      rw e (
        readers_step ps c (c.store.readers - 1) (before ++ after) k
          (omega (arith, k.counted, ap (λ l. length l) cut, length-cut before after r))
          (All-cut P before after r r (subst (λ l. All P l) cut k.guarded)).0)
  Step-IsConsistent {c} (write fuel x v s room words run e) k =
      rw e (write_step law ps wide narrow c fuel x v s k room words run)
  Step-IsConsistent {c} (refuse fuel x v bad s run e) k =
      rw e (refuse_step law ps wide narrow c fuel x v bad s k run)
  Step-IsConsistent {c} (restart later fuel s size keeps run e) k =
      rw e (restart_step law ps wide narrow c later fuel s k size keeps run)

  -- For pages of 49 to 43690 bytes and a backend that keeps its laws: if a store with its open guards
  -- is consistent, it still is after any sequence of steps: guards that are entered, load the root or
  -- are dropped, transactions that commit on a backend with room or are refused, and restarts.
  pub Reach-IsConsistent : {c d : System IO} → Reach law c d → IsConsistent ps c → IsConsistent ps d
  Reach-IsConsistent here k = k
  Reach-IsConsistent (next r st) k = Step-IsConsistent st (Reach-IsConsistent r k)

  -- For such pages, after any sequence of these steps from a consistent store: there is a number of
  -- levels with which `get` returns at every key, and what it returns is what the upserts of the
  -- transactions that committed amount to.
  pub get-Reach :
      (c d : System IO)
      → IsConsistent ps c
      → Reach law c d
      → (h : ℕ) × ((q : Bytes) → get (suc h) d.store q ≡ done (lookup d.contents q))
  get-Reach c d k r =
      let m = Reach-IsConsistent r k in
      (
        m.height,
        λ q.
            get-lookup ps d.store m.height m.tree q (omega arith) m.holds.valid m.holds.stored
            ∙ ap (λ es. done (lookup es q)) m.same_entries,
      )

  -- For such pages, after any sequence of these steps from a consistent store: for a guard that has
  -- loaded a root, there is a number of levels with which `get` from this root returns at every key
  -- what was committed when the root was loaded, whatever was committed since.
  pub get-Snapshot :
      (c d : System IO) (before after : List Reader) (root : PageId) (seen : List Entry)
      → IsConsistent ps c
      → Reach law c d
      → d.guards ≡ before ++ reading root seen ∷ after
      → (h : ℕ) × ((q : Bytes)
          → get (suc h) (record (d.store) { root = root }) q ≡ done (lookup seen q))
  unfolding view_read
  get-Snapshot c d before after root seen k r cut =
      let m = Reach-IsConsistent r k in
      let P : Reader → Type 0 = Sees ps d.store m.height m.tree in
      let snap =
        ((All-append P before (reading root seen ∷ after)).0
          (subst (λ l. All P l) cut m.guarded)).1.0 in
      (
        snap.height,
        λ q.
            get-lookup ps (record (d.store) { root = root }) snap.height snap.tree q (omega arith)
              snap.valid snap.stored
            ∙ ap (λ es. done (lookup es q)) snap.same_entries,
      )

  -- For such pages: a consistent store on a backend with room can take the step that commits any
  -- entry that `check_limits` accepts, whatever guards are open, and keeps them open.
  pub put-Step :
      (c : System IO) (k v : Bytes)
      → IsConsistent ps c
      → check_limits ps k v ≡ ok tt
      → headroom c.store.writer.next_page_id ≤ law.room c.store.io
      → headroom c.store.writer.next_page_id < u64_mod
      → (d : System IO) × Step law c d
        × (d.contents ≡ upsert c.contents k v)
        × (d.guards ≡ c.guards)
  put-Step c k v q accept room words =
      let (s, fuel, run, after) = put-IsConsistent law ps wide narrow c k v q accept room words in
      (
        record { store = s; guards = c.guards; contents = upsert c.contents k v },
        write fuel k v s room words run refl,
        refl,
        refl,
      )
