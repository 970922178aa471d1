-- ===== src/Storage/Fuel.antt =====
-- Fuel only bounds a run of `put` of 01-btree/src/storage/tree.rs, or of `open_or_create` of
-- 01-btree/src/storage/store.rs: a run that returns does so with any more fuel, with the same result.
use ucu_de_distributed_algor.Prelude.{
  ℕ, zero, suc, ◌+◌, ◌≡◌, sym, ap, ◌∙◌, Bool, true, false, List, [], ◌∷◌, ◌++◌, arith, ◌==◌,
  if◌then◌else◌, Run, Result, ok, err, done, panic, out_of_fuel, ◌>>=◌, >>=-eq-done,
}
use ucu_de_distributed_algor.Bytes.{Bytes}
use ucu_de_distributed_algor.Io.{PageIo}
use ucu_de_distributed_algor.Page.Tags.{PageId}
use ucu_de_distributed_algor.Page.{Page, leaf, internal, Error, check_limits}
use ucu_de_distributed_algor.Page.Header.{Header, DecodeError, header_page_id, not_a_header}
use ucu_de_distributed_algor.Page.Header as HeaderPage
use ucu_de_distributed_algor.Page.FreeList.{free_list_decode}
use ucu_de_distributed_algor.Page.Internal as InternalPage
use ucu_de_distributed_algor.Page.Internal.{internal_child_index}
use ucu_de_distributed_algor.Storage.Store.{
  Store, WriteTxn, OpenError, txn_read, txn_root, txn_page_size, load_loop, load_free_list_chain,
  bootstrap, with_header, open_with, open_or_create,
}
use ucu_de_distributed_algor.Storage.Tree.{InsertResult, insert_page, put_checked, put}

-- A chain of calls that return.
bind_done {ℓ κ} :
    {A : Type ℓ} {B : Type κ} (m : Run A) (f g : A → Run B) {b : B}
    → ((a : A) → f a ≡ done b → g a ≡ done b)
    → (m >>= f) ≡ done b
    → (m >>= g) ≡ done b
bind_done (done a) f g more h = more a h
bind_done panic f g more h = cc
bind_done out_of_fuel f g more h = cc

-- The same where the first call changes.
bind_more {ℓ κ} :
    {A : Type ℓ} {B : Type κ} (m n : Run A) (f : A → Run B) {b : B}
    → ((a : A) → m ≡ done a → n ≡ done a)
    → (m >>= f) ≡ done b
    → (n >>= f) ≡ done b
bind_more m n f more h = let (a, e, k) = >>=-eq-done m f h in rw (more a e) k

if_more {ℓ} :
    {A : Type ℓ} (b : Bool) (m m' n n' : Run A) {x : A}
    → (n ≡ done x → n' ≡ done x)
    → (m ≡ done x → m' ≡ done x)
    → (if b then n else m) ≡ done x
    → (if b then n' else m') ≡ done x
if_more true m m' n n' more other h = more h
if_more false m m' n n' more other h = other h

module _ {IO : Type 0} ⦃p : PageIo IO⦄ where
  insert_page_more :
      (fuel : ℕ) (t : WriteTxn IO) (page : Page) (k v : Bytes) (ps : ℕ)
      (x : InsertResult × WriteTxn IO)
      → insert_page fuel t page k v ps ≡ done x
      → insert_page (suc fuel) t page k v ps ≡ done x
  unfolding insert_page
  insert_page_more zero t page k v ps x h = cc
  insert_page_more (suc fuel) t (leaf l) k v ps x h = h
  insert_page_more (suc fuel) t (internal node) k v ps x h =
      bind_done (internal_child_index node k) _ _
        (λ idx. bind_done (InternalPage.get_child node idx) _ _ (λ child_id.
          bind_done (txn_read t child_id) _ _ (λ child.
            bind_more (insert_page fuel t child k v ps) (insert_page (suc fuel) t child k v ps) _
              (λ y. insert_page_more fuel t child k v ps y))))
        h

  put_checked_more :
      (fuel : ℕ) (t : WriteTxn IO) (k v : Bytes) (s : Store IO)
      → put_checked fuel t k v ≡ done s
      → put_checked (suc fuel) t k v ≡ done s
  unfolding put_checked
  put_checked_more fuel t k v s h =
      bind_done (txn_read t (txn_root t)) _ _
        (λ page.
          bind_more (insert_page fuel t page k v (txn_page_size t))
            (insert_page (suc fuel) t page k v (txn_page_size t)) _
            (λ y. insert_page_more fuel t page k v (txn_page_size t) y))
        h

  put_more :
      (fuel : ℕ) (t : WriteTxn IO) (k v : Bytes) (x : Result (Unit {0}) Error × Store IO)
      → put fuel t k v ≡ done x
      → put (suc fuel) t k v ≡ done x
  unfolding put
  put_more fuel t k v x h = by_check (check_limits (txn_page_size t) k v) h
    where
      by_check :
          (c : Result (Unit {0}) Error)
          → (elim c [
            | err e ↦ done (err e, t.store)
            | ok _ ↦ put_checked fuel t k v >>= λ store. done (ok tt, store)
          ])
            ≡ done x
          → (elim c [
            | err e ↦ done (err e, t.store)
            | ok _ ↦ put_checked (suc fuel) t k v >>= λ store. done (ok tt, store)
          ])
            ≡ done x
      by_check (err e) h = h
      by_check (ok u) h =
          bind_more (put_checked fuel t k v) (put_checked (suc fuel) t k v) _
            (λ y. put_checked_more fuel t k v y) h

  load_loop_more :
      (fuel : ℕ) (io : IO) (cur : PageId) (found pages : List PageId)
      (x : List PageId × List PageId)
      → load_loop fuel io cur found pages ≡ done x
      → load_loop (suc fuel) io cur found pages ≡ done x
  unfolding load_loop
  load_loop_more zero io cur found pages x h = cc
  load_loop_more (suc fuel) io cur found pages x h =
      if_more (cur == 0) _ _ (done (found, pages)) (done (found, pages)) (λ k. k)
        (bind_done (p.read_page io cur) _ _ (λ bytes.
          bind_done (free_list_decode cur bytes) _ _
            (λ y. load_loop_more fuel io y.0 (found ++ y.1) (pages ++ cur ∷ []) x)))
        h

  with_header_more :
      (fuel : ℕ) (header : Header) (io : IO) (x : Result (Store IO) OpenError)
      → with_header fuel header io ≡ done x
      → with_header (suc fuel) header io ≡ done x
  unfolding with_header load_free_list_chain
  with_header_more fuel header io x h =
      bind_more (load_loop fuel io header.free_list_head [] [])
        (load_loop (suc fuel) io header.free_list_head [] []) _
        (λ y. load_loop_more fuel io header.free_list_head [] [] y) h

  open_with_more :
      (fuel : ℕ) (io : IO) (r : Result Header DecodeError) (x : Result (Store IO) OpenError)
      → open_with fuel io r ≡ done x
      → open_with (suc fuel) io r ≡ done x
  unfolding open_with
  open_with_more fuel io (ok header) x h =
      if_more (header.page_size == p.page_size io)
        (done (err (OpenError.page_size_mismatch (p.page_size io) header.page_size)))
        (done (err (OpenError.page_size_mismatch (p.page_size io) header.page_size)))
        (with_header fuel header io) (with_header (suc fuel) header io)
        (with_header_more fuel header io x) (λ k. k) h
  open_with_more fuel io (err (DecodeError.version_mismatch found expected)) x h = h
  open_with_more fuel io (err not_a_header) x h =
      bind_done (bootstrap io) _ _ (λ fresh. with_header_more fuel fresh.0 fresh.1 x) h

  open_or_create_more :
      (fuel : ℕ) (io : IO) (x : Result (Store IO) OpenError)
      → open_or_create fuel io ≡ done x
      → open_or_create (suc fuel) io ≡ done x
  unfolding open_or_create
  open_or_create_more fuel io x h =
      bind_done (p.read_page io header_page_id) _ _
        (λ bytes. bind_done (HeaderPage.from_bytes bytes) _ _ (λ r. open_with_more fuel io r x)) h

-- A function of fuel that keeps its result with one unit more has one result.
one_result {ℓ} :
    {A : Type ℓ} (f : ℕ → Run A)
    → ((fuel : ℕ) (x : A) → f fuel ≡ done x → f (suc fuel) ≡ done x)
    → (m n : ℕ) (x y : A) → f m ≡ done x
    → f n ≡ done y
    → x ≡ y
one_result {A = A} f more m n x y a b =
    let meet : upto n m ≡ upto m n = omega (arith, upto_add m n, upto_add n m) in
    done-injective (sym (raise n m x a) ∙ (ap f meet ∙ raise m n y b))
  where
    upto : ℕ → ℕ → ℕ
    upto zero n = n
    upto (suc m) n = suc (upto m n)

    upto_add : (m n : ℕ) → upto m n ≡ m + n
    upto_add zero n = omega arith
    upto_add (suc m) n = omega (arith, upto_add m n)

    raise : (d n : ℕ) (x : A) → f n ≡ done x → f (upto d n) ≡ done x
    raise zero n x a = a
    raise (suc d) n x a = more (upto d n) x (raise d n x a)

    done-injective : {x y : A} → done x ≡ done y → x ≡ y
    done-injective e = cc

module _ {IO : Type 0} ⦃p : PageIo IO⦄ where
  -- Two runs of `put` on the same transaction that return, on any two fuels, return the same.
  pub put-one_result :
      (t : WriteTxn IO) (k v : Bytes) (m n : ℕ) (x y : Result (Unit {0}) Error × Store IO)
      → put m t k v ≡ done x
      → put n t k v ≡ done y
      → x ≡ y
  put-one_result t k v = one_result (λ fuel. put fuel t k v) (λ fuel. put_more fuel t k v)

  -- Two runs of `open_or_create` on the same backend that return, on any two fuels, return the same.
  pub open_or_create-one_result :
      (io : IO) (m n : ℕ) (x y : Result (Store IO) OpenError)
      → open_or_create m io ≡ done x
      → open_or_create n io ≡ done y
      → x ≡ y
  open_or_create-one_result io =
      one_result (λ fuel. open_or_create fuel io) (λ fuel. open_or_create_more fuel io)
