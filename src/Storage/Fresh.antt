-- ===== src/Storage/Fresh.antt =====
-- A store opened on an empty backend, and opened again: `Store::open_or_create` of
-- 01-btree/src/storage/store.rs and `get` of 01-btree/src/storage/tree.rs.
use ucu_de_distributed_algor.Prelude.{
  ℕ, zero, suc, ◌+◌, ◌≤◌, ◌<◌, ◌≡◌, refl, sym, ap, ◌∙◌, true, none, [], arith, ◌==◌, ==_self,
  replicate, ok, done,
}
use ucu_de_distributed_algor.Bytes.{Bytes}
use ucu_de_distributed_algor.Io.{
  PageIo, IsPageIo, Keeps, memory_io, MemoryPageIo, new_memory, memory_read_page,
}
use ucu_de_distributed_algor.Io.Memory.{memory_law}
use ucu_de_distributed_algor.Page.Tags.{PageId, u32_mod}
use ucu_de_distributed_algor.Page as PageModule
use ucu_de_distributed_algor.Page.{leaf}
use ucu_de_distributed_algor.Page.Header as HeaderPage
use ucu_de_distributed_algor.Page.Header.{Header, header_page_id}
use ucu_de_distributed_algor.Page.Header.RoundTrip.{IsHeader, from_bytes-to_bytes, from_bytes-zeros}
use ucu_de_distributed_algor.Page.Leaf.{Found, at, belongs_at, leaf_search}
use ucu_de_distributed_algor.Page.Leaf.View.{leaf_of}
use ucu_de_distributed_algor.Page.Leaf.Edit.{empty-leaf_of}
use ucu_de_distributed_algor.Page.Leaf.Search.{IsPlace, leaf_search-IsPlace}
use ucu_de_distributed_algor.Page.Limits.{entries, page_of, decode-to_bytes-page_of}
use ucu_de_distributed_algor.Storage.Store.{
  Store, initial_root_page_id, load_loop, load_free_list_chain, bootstrap, with_header, open_with,
  open_or_create, view_root, view_read,
}
use ucu_de_distributed_algor.Storage.Tree.{value_at, get_loop, get}
use ucu_de_distributed_algor.Storage.Put.{Holds, IsDurable}
use native.Mathlib.Decide.{ℕ_discrete}
use ucu_de_distributed_algor.Prelude.Count.{one, one_le, one_ne}
use ucu_de_distributed_algor.Storage.Store.Chain.{IsOwned}
use ucu_de_distributed_algor.Storage.Tree.Shape.{uses}

-- The header of a store with nothing in it.
abbrev fresh_header : ℕ → Header
fresh_header ps = HeaderPage.new ps initial_root_page_id (initial_root_page_id + 1)

-- The store that opens on a backend with such a header.
abbrev fresh_store : {IO : Type 0} → IO → Store IO
fresh_store io = record {
  io = io;
  root = initial_root_page_id;
  readers = 0;
  writer = record {
    next_page_id = initial_root_page_id + 1;
    free_list = [];
    pending_free = [];
    free_list_page_ids = [];
  };
}

leaf_search-empty :
    (id : PageId) (key : Bytes)
    → (f : Found) × (leaf_search (leaf_of id []) key ≡ done f) × ((i : ℕ) × (f ≡ belongs_at i))
leaf_search-empty id key =
    let (f, run, pl) = leaf_search-IsPlace id [] key (omega arith) tt in (f, run, not_found f pl)
  where
    not_found : (f : Found) → IsPlace [] key f → (i : ℕ) × (f ≡ belongs_at i)
    not_found (at i) p = cc
    not_found (belongs_at i) p = (i, refl)

fresh_header-IsHeader : (ps : ℕ) → ps < u32_mod → IsHeader (fresh_header ps)
unfolding HeaderPage.new
fresh_header-IsHeader ps h = record {
  page_size_fits = h;
  root_id_fits = omega arith;
  next_page_id_fits = omega arith;
  free_list_head_fits = omega arith;
  free_count_fits = omega arith;
}

fresh-IsOwned :
    {IO : Type 0} (io : IO)
    → IsOwned (fresh_store io).writer (λ i. one initial_root_page_id i + uses 0 [] i)
fresh-IsOwned io = record {
  once = λ i. omega (arith, one_le initial_root_page_id i);
  inside = λ i h. elim (ℕ_discrete initial_root_page_id i) [
    | yes e ↦ omega arith
    | no n ↦ omega (arith, one_ne initial_root_page_id i n)
  ];
  positive = omega arith;
}

empty_page : leaf (leaf_of initial_root_page_id []) ≡ page_of initial_root_page_id (entries [])
unfolding page_of
empty_page = refl

unwritten : (ps : ℕ) → memory_read_page (new_memory ps) header_page_id ≡ done (replicate ps 0)
unfolding memory_read_page new_memory
unwritten ps = refl

module _ {IO : Type 0} ⦃p : PageIo IO⦄ where
  with_header-fresh :
      (fuel ps : ℕ) (io : IO)
      → with_header (suc fuel) (fresh_header ps) io ≡ done (ok (fresh_store io))
  unfolding with_header load_free_list_chain load_loop HeaderPage.new
  with_header-fresh fuel ps io = refl

  -- A backend as the first opening leaves it.
  record IsFresh (ps : ℕ) (io : IO) : Type 0 where
    size : p.page_size io ≡ ps
    header : Bytes
    header_read : p.read_page io header_page_id ≡ done header
    header_decoded : HeaderPage.from_bytes header ≡ done (ok (fresh_header ps))
    root : Bytes
    root_read : p.read_page io initial_root_page_id ≡ done root
    root_decoded :
        PageModule.decode initial_root_page_id root ≡ done (leaf (leaf_of initial_root_page_id []))

  bootstrap_run :
      (ps : ℕ) (io one two three : IO) (root head : Bytes)
      → p.page_size io ≡ ps
      → PageModule.to_bytes (page_of 0 (entries [])) initial_root_page_id ps ≡ done root
      → p.write_page io initial_root_page_id root ≡ done one
      → HeaderPage.to_bytes (fresh_header ps) ps ≡ done head
      → p.write_page one header_page_id head ≡ done two
      → p.sync two ≡ done three
      → bootstrap io ≡ done (fresh_header ps, three)
  unfolding bootstrap PageModule.to_bytes page_of
  bootstrap_run ps io one two three root head size a b c d e =
      rw (size, empty-leaf_of ps, a, b, c, d, e)

  bootstrap-IsFresh :
      (law : IsPageIo p) (ps : ℕ) (io : IO)
      → 49 ≤ ps
      → ps < u32_mod
      → p.page_size io ≡ ps
      → 2 ≤ law.room io
      → (io' : IO) × (bootstrap io ≡ done (fresh_header ps, io'))
        × IsFresh ps io'
        × (law.room io' ≡ law.room io)
  bootstrap-IsFresh law ps io wide fits size room =
      let (root, root_written, root_len, root_back) =
        decode-to_bytes-page_of 0 initial_root_page_id (entries []) ps (omega arith)
          (omega arith, omega arith) in
      let (head, head_written, head_len, head_back) =
        from_bytes-to_bytes (fresh_header ps) ps wide (fresh_header-IsHeader ps fits) in
      let (one, write_one, room_one, size_one, read_one, keeps_one) =
        law.write io initial_root_page_id root (omega arith) (root_len ∙ sym size) in
      let (two, write_two, room_two, size_two, read_two, keeps_two) =
        law.write one header_page_id head (omega (arith, room_one))
          (head_len ∙ sym (size_one ∙ size)) in
      let (three, synced, room_three, size_three, keeps_three) = law.flush two in
      (
        three,
        bootstrap_run ps io one two three root head size root_written write_one head_written
            write_two synced,
        record {
          size = size_three ∙ (size_two ∙ (size_one ∙ size));
          header = head;
          header_read = keeps_three header_page_id head read_two;
          header_decoded = head_back;
          root = root;
          root_read =
              keeps_three initial_root_page_id root
                (keeps_two initial_root_page_id (λ e. omega arith) root read_one);
          root_decoded = root_back ∙ ap done (sym empty_page);
        },
        omega (arith, room_one, room_two, room_three),
      )

  open-IsFresh :
      (fuel ps : ℕ) (io : IO)
      → IsFresh ps io
      → open_or_create (suc fuel) io ≡ done (ok (fresh_store io))
  unfolding open_or_create open_with HeaderPage.new
  open-IsFresh fuel ps io f =
      let same : (ps == p.page_size io) ≡ true = rw f.size (==_self ps) in
      rw (f.header_read, f.header_decoded, same) (with_header-fresh fuel ps io)

  get-IsFresh :
      (levels ps : ℕ) (io : IO) (key : Bytes)
      → IsFresh ps io
      → get (suc levels) (fresh_store io) key ≡ done none
  unfolding get get_loop view_read view_root value_at
  get-IsFresh levels ps io key f =
      let (g, run, (i, absent)) = leaf_search-empty initial_root_page_id key in
      rw (f.root_read, f.root_decoded, run, absent)

  IsFresh-keeps :
      (ps : ℕ) (io later : IO)
      → p.page_size later ≡ p.page_size io
      → ((j : PageId) → Keeps io later j)
      → IsFresh ps io
      → IsFresh ps later
  IsFresh-keeps ps io later size keeps f = record {
    size = size ∙ f.size;
    header = f.header;
    header_read = keeps header_page_id f.header f.header_read;
    header_decoded = f.header_decoded;
    root = f.root;
    root_read = keeps initial_root_page_id f.root f.root_read;
    root_decoded = f.root_decoded;
  }

  IsFresh-IsDurable : (ps : ℕ) (io : IO) → IsFresh ps io → IsDurable (fresh_store io)
  IsFresh-IsDurable ps io f = (
    0,
    omega arith,
    λ later size keeps fuel more. again later (IsFresh-keeps ps io later size keeps f) fuel more,
  )
    where
      again :
          (later : IO)
          → IsFresh ps later
          → (fuel : ℕ) → 0 < fuel
          → open_or_create fuel later ≡ done (ok (fresh_store later))
      again later f zero h = absurd (omega arith)
      again later f (suc fuel) h = open-IsFresh fuel ps later f

  IsFresh-Holds : (ps : ℕ) (io : IO) → 49 ≤ ps → IsFresh ps io → Holds ps (fresh_store io) 0 []
  unfolding view_read
  IsFresh-Holds ps io wide f = record {
    size = f.size;
    valid = (record { ascending = tt; fits = omega arith; each = tt }, tt);
    stored = (rw (f.root_read, f.root_decoded, empty_page), tt);
    owned = fresh-IsOwned io;
  }

  -- On a backend that keeps its laws, has pages of 49 bytes or more whose size fits 32 bits, has room
  -- for two pages, and whose header page is all zeros: opening a store returns. The store has no
  -- reader and holds the tree with no entry, `get` with any fuel finds nothing at every key, and a
  -- later opening of its backend returns it.
  pub open_or_create-blank :
      (law : IsPageIo p) (ps fuel : ℕ) (io : IO)
      → 49 ≤ ps
      → ps < u32_mod
      → p.page_size io ≡ ps
      → 2 ≤ law.room io
      → p.read_page io header_page_id ≡ done (replicate ps 0)
      → (s : Store IO) × (open_or_create (suc fuel) io ≡ done (ok s))
        × Holds ps s 0 []
        × IsDurable s
        × (s.readers ≡ 0)
        × (s.writer.next_page_id ≡ 2)
        × (law.room s.io ≡ law.room io)
        × ((levels : ℕ) (key : Bytes) → get (suc levels) s key ≡ done none)
        × (open_or_create (suc fuel) s.io ≡ done (ok s))
  unfolding open_or_create open_with
  open_or_create-blank law ps fuel io wide fits size room blank =
      let (io', run, fresh, same_room) = bootstrap-IsFresh law ps io wide fits size room in
      (
        fresh_store io',
        rw (blank, from_bytes-zeros ps, run) (with_header-fresh fuel ps io'),
        IsFresh-Holds ps io' wide fresh,
        IsFresh-IsDurable ps io' fresh,
        refl,
        refl,
        same_room,
        λ levels key. get-IsFresh levels ps io' key fresh,
        open-IsFresh fuel ps io' fresh,
      )

-- The opened store holds the tree with no entry.
pub open-Holds :
    (ps fuel : ℕ)
    → 49 ≤ ps
    → ps < u32_mod
    → (s : Store MemoryPageIo) × (open_or_create (suc fuel) (new_memory ps) ≡ done (ok s))
      × Holds ps s 0 []
      × IsDurable s
      × (s.readers ≡ 0)
      × (s.writer.next_page_id ≡ 2)
unfolding new_memory
open-Holds ps fuel wide fits =
    let (s, run, holds, lasting, idle, next, room, empty, again) =
      open_or_create-blank memory_law ps fuel (new_memory ps) wide fits refl (omega arith)
        (unwritten ps) in
    (s, run, holds, lasting, idle, next)

-- A memory backend that nothing was written to, with pages of 49 bytes or more whose size fits 32
-- bits: opening a store on it returns one, which a reader finds empty at every key, with the root as
-- the one level to descend, and opening the store's backend again returns the same store.
pub open_or_create-new_memory :
    (ps fuel : ℕ)
    → 49 ≤ ps
    → ps < u32_mod
    → (s : Store MemoryPageIo) × (open_or_create (suc fuel) (new_memory ps) ≡ done (ok s))
      × ((levels : ℕ) (key : Bytes) → get (suc levels) s key ≡ done none)
      × (open_or_create (suc fuel) s.io ≡ done (ok s))
unfolding new_memory
open_or_create-new_memory ps fuel wide fits =
    let (s, run, holds, lasting, idle, next, room, empty, again) =
      open_or_create-blank memory_law ps fuel (new_memory ps) wide fits refl (omega arith)
        (unwritten ps) in
    (s, run, empty, again)
