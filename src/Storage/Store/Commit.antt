-- ===== src/Storage/Store/Commit.antt =====
-- `WriteTxn::commit` of 01-btree/src/storage/store.rs: the published store holds what the transaction
-- read, and every page has still one owner at most.
use ucu_de_distributed_algor.Prelude.{
  ℕ, ◌+◌, ◌*◌, ◌≤◌, ◌<◌, ◌≡◌, refl, sym, ap, ◌∙◌, inl, inr, ◌⊎◌, ==_self, none, some, List, [], ◌∷◌,
  ◌++◌, arith, ◌==◌, Bool-cases, Option-cases, length, take, All, ok, done, ◌>>=◌, >>=-eq-done, ◌≢◌,
}
use ucu_de_distributed_algor.Prelude.Count.{count, count-append}
use ucu_de_distributed_algor.Bytes.{Bytes}
use ucu_de_distributed_algor.Io.{PageIo, IsPageIo, Keeps}
use ucu_de_distributed_algor.Page.Tags.{PageId, u16_mod, u64_mod}
use ucu_de_distributed_algor.Page as PageModule
use ucu_de_distributed_algor.Page.{Page}
use ucu_de_distributed_algor.Page.Header as HeaderPage
use ucu_de_distributed_algor.Page.Header.{Header, header_page_id}
use ucu_de_distributed_algor.Page.Header.RoundTrip.{IsHeader, from_bytes-to_bytes}
use ucu_de_distributed_algor.Storage.Store.{
  WriterState, Store, WriteTxn, last_write, promote, view_read, txn_page_size, txn_read,
  apply_writes, persist_free_list, commit, load_free_list_chain, open_or_create,
}
use ucu_de_distributed_algor.Storage.Store.Own.{idle, owners, kept, Own}
use ucu_de_distributed_algor.Storage.Store.Reopen.{reopened, open_header}
use ucu_de_distributed_algor.Storage.Store.Chain.{IsOwned}
use ucu_de_distributed_algor.Storage.Store.Chain.Persist.{persist_free_list-Frame}

promote-IsOwned :
    {IO : Type 0} ⦃p : PageIo IO⦄ (t : WriteTxn IO) (X : PageId → ℕ)
    → Own t X
    → IsOwned (promote t.store.readers t.freed t.store.writer) X
promote-IsOwned t X o = record {
  once = λ i. omega (arith, o.once i, moved i);
  inside = λ i h. rw next (o.inside i (omega (arith, moved i)));
  positive = rw next o.positive;
}
  where
    w : WriterState
    w = t.store.writer

    next : (promote t.store.readers t.freed w).next_page_id ≡ w.next_page_id
    next = unfold promote in ground arith

    moved : (i : PageId) → idle (promote t.store.readers t.freed w) i ≡ count t.freed i + idle w i
    moved i =
        unfold promote in
        elim (Bool-cases (t.store.readers == 0)) [
          | inl e ↦ rw e (
              omega (
                arith,
                count-append w.free_list (w.pending_free ++ t.freed) i,
                count-append w.pending_free t.freed i,
              ))
          | inr e ↦ rw e (omega (arith, count-append w.pending_free t.freed i))
        ]

-- With a reader active, the freed pages are only pending.
pub promote-pending :
    (readers : ℕ) (freed : List PageId) (w : WriterState) (i : PageId)
    → 1 ≤ readers
    → count (promote readers freed w).pending_free i ≡ count w.pending_free i + count freed i
unfolding promote
promote-pending readers freed w i h = ground (arith, count-append w.pending_free freed i)

unwritten :
    (ws : List (PageId × Bytes)) (id : PageId) (bytes : Bytes) (j : PageId)
    → last_write ((id, bytes) ∷ ws) j ≡ none
    → (last_write ws j ≡ none) × (j ≢ id)
unfolding last_write
unwritten ws id bytes j e = elim (Option-cases (last_write ws j)) [
  | inl n ↦ (n, λ same. ground (arith, ==_self j))
  | inr (later, l) ↦ absurd (ground arith)
]

-- Which write a page holds: a later one, or else the first.
written_by :
    (ws : List (PageId × Bytes)) (id : PageId) (bytes : Bytes) (j : PageId) (new : Bytes)
    → last_write ((id, bytes) ∷ ws) j ≡ some new
    → (last_write ws j ≡ some new) ⊎ ((last_write ws j ≡ none) × ((id ≡ j) × (bytes ≡ new)))
unfolding last_write
written_by ws id bytes j new e = elim (Option-cases (last_write ws j)) [
  | inl n ↦ inr (n, (ground arith, ground arith))
  | inr (later, l) ↦ inl (ground arith)
]

module _ {IO : Type 0} ⦃p : PageIo IO⦄ (law : IsPageIo p) (ps : ℕ) (wide : 49 ≤ ps)
    (narrow : ps < u16_mod) (b : ℕ) where
  apply_writes-reads :
      (ws : List (PageId × Bytes)) (io : IO)
      → p.page_size io ≡ ps
      → b ≤ law.room io
      → All (λ w. (w.0 < b) × (length w.1 ≡ ps)) ws
      → (io' : IO) × (apply_writes ws io ≡ done io')
        × (p.page_size io' ≡ ps)
        × (b ≤ law.room io')
        × ((j : PageId) → last_write ws j ≡ none → Keeps io io' j)
        × ((j : PageId) (bytes : Bytes)
            → last_write ws j ≡ some bytes
            → p.read_page io' j ≡ done bytes)
  unfolding apply_writes last_write
  apply_writes-reads [] io size room a =
      (io, refl, size, room, λ j n old read. read, λ j bytes e. cc)
  apply_writes-reads ((id, bytes) ∷ ws) io size room a =
      let (io1, written, room1, size1, back1, others1) =
        law.write io id bytes (omega (arith, a.0.0)) (a.0.1 ∙ sym size) in
      let (io2, run, size2, room2, keeps2, back2) =
        apply_writes-reads ws io1 (size1 ∙ size) (omega (arith, room1)) a.1 in
      (
        io2,
        rw written run,
        size2,
        room2,
        λ j n old read.
            let (none_later, differs) = unwritten ws id bytes j n in
            keeps2 j none_later old (others1 j differs old read),
        λ j new e. elim (written_by ws id bytes j new e) [
          | inl later ↦ back2 j new later
          | inr (none_later, (same, first)) ↦
              keeps2 j none_later new (rw (sym same, sym first) back1)
        ],
      )

  -- A page that the transaction reads is read after its writes.
  read_at :
      (io : IO) (t : WriteTxn IO) (j : PageId) (page : Page)
      → (last_write t.writes j ≡ none → Keeps t.store.io io j)
      → ((bytes : Bytes) → last_write t.writes j ≡ some bytes → p.read_page io j ≡ done bytes)
      → txn_read t j ≡ done page
      → (p.read_page io j >>= PageModule.decode j) ≡ done page
  unfolding txn_read
  read_at io t j page old new e = elim (Option-cases (last_write t.writes j)) [
    | inl none_written ↦
        let before : (p.read_page t.store.io j >>= PageModule.decode j) ≡ done page =
          rw (txn_read, none_written) at e in
        let (bytes, read, decoded) =
          >>=-eq-done (p.read_page t.store.io j) (PageModule.decode j) before in
        rw (old none_written bytes read) decoded
    | inr (bytes, last) ↦
        let before : PageModule.decode j bytes ≡ done page = rw (txn_read, last) at e in
        rw (new bytes last) before
  ]

  module _ (t : WriteTxn IO) (X : PageId → ℕ) (root : PageId) (o : Own t X)
      (size : p.page_size t.store.io ≡ ps) (room : b ≤ law.room t.store.io)
      (enough : 2 * t.store.writer.next_page_id ≤ b)
      (words : 2 * t.store.writer.next_page_id < u64_mod) (root_word : root < u64_mod) where
    -- What a commit leaves: the published root, the readers, the pages in use, freed or pending as
    -- the transaction read them, and one owner at most for each page. The reusable pages are those of the
    -- quiescence gate.
    pub record Committed (s : Store IO) : Type 0 where
      pub root_set : s.root ≡ root
      pub readers_kept : s.readers ≡ t.store.readers
      pub size_kept : p.page_size s.io ≡ ps
      pub room_kept : b ≤ law.room s.io
      pub owned : IsOwned s.writer X
      pub next : s.writer.next_page_id ≤ 2 * t.store.writer.next_page_id
      pub free_list :
          s.writer.free_list ≡ (promote t.store.readers t.freed t.store.writer).free_list
      pub pending :
          s.writer.pending_free ≡ (promote t.store.readers t.freed t.store.writer).pending_free
      -- A later opening of the backend returns the same store, with no reader.
      pub reopens :
          (needed : ℕ) × (needed ≤ s.writer.next_page_id)
          × ((later : IO)
              → p.page_size later ≡ p.page_size s.io
              → ((j : PageId) → Keeps s.io later j)
              → (fuel : ℕ) → needed < fuel
              → open_or_create fuel later ≡ done (ok (reopened needed s later)))
      pub same :
          (j : PageId)
          → 1 ≤ kept t X j
          → (page : Page) → txn_read t j ≡ done page
          → view_read s j ≡ done page

    gate : WriterState
    gate = promote t.store.readers t.freed t.store.writer

    gate-next : gate.next_page_id ≡ t.store.writer.next_page_id
    unfolding gate promote
    gate-next = ground arith

    header_of : ℕ → PageId → ℕ → WriterState → Header
    header_of size head n w = record {
      page_size = size;
      root_id = root;
      next_page_id = w.next_page_id;
      free_list_head = head;
      free_count = n;
    }

    commit_run :
        (io1 io2 io3 io4 : IO) (w : WriterState) (head : PageId) (n : ℕ) (bytes : Bytes)
        → apply_writes t.writes t.store.io ≡ done io1
        → persist_free_list io1 gate ≡ done (head, n, w, io2)
        → HeaderPage.to_bytes (header_of (p.page_size io2) head n w) (p.page_size io2) ≡ done bytes
        → p.write_page io2 header_page_id bytes ≡ done io3
        → p.sync io3 ≡ done io4
        → commit t root ≡ done (record (t.store) { io = io4; root = root; writer = w })
    unfolding commit gate header_of
    commit_run io1 io2 io3 io4 w head n bytes a1 a2 a3 a4 a5 = rw (a1, a2, a3, a4, a5)

    written_pages : All (λ w. (w.0 < b) × (length w.1 ≡ ps)) t.writes
    unfolding txn_page_size
    written_pages = lift t.writes o.pages
      where
        lift :
            (ws : List (PageId × Bytes))
            → All
                (λ w. (w.0 < t.store.writer.next_page_id) × (length w.1 ≡ p.page_size t.store.io))
                ws
            → All (λ w. (w.0 < b) × (length w.1 ≡ ps)) ws
        lift [] a = tt
        lift (x ∷ ws) a = ((omega arith, a.0.1 ∙ size), lift ws a.1)

    gate_lists :
        (i : PageId)
        → count gate.free_list i + count gate.pending_free i
          ≡ count t.freed i
            + (count t.store.writer.free_list i + count t.store.writer.pending_free i)
    unfolding gate promote
    gate_lists i =
        let w = t.store.writer in
        elim (Bool-cases (t.store.readers == 0)) [
          | inl e ↦ rw e (
              omega (
                arith,
                count-append w.free_list (w.pending_free ++ t.freed) i,
                count-append w.pending_free t.freed i,
              ))
          | inr e ↦ rw e (omega (arith, count-append w.pending_free t.freed i))
        ]

    -- A page in use, freed or pending is not of the chain that was written.
    off_chain :
        (w : WriterState) (j : PageId)
        → IsOwned w X
        → w.free_list ≡ gate.free_list
        → w.pending_free ≡ gate.pending_free
        → 1 ≤ kept t X j
        → count w.free_list_page_ids j ≡ 0
    off_chain w j own free pending used =
        omega
          (arith, own.once j, gate_lists j, ap (λ l. count l j) free, ap (λ l. count l j) pending)

    header_of-IsHeader :
        (head : PageId) (n : ℕ) (w : WriterState)
        → w.next_page_id < u64_mod
        → head < u64_mod
        → n < u64_mod
        → IsHeader (header_of ps head n w)
    unfolding header_of
    header_of-IsHeader head n w a h k = record {
      page_size_fits = omega arith;
      root_id_fits = root_word;
      next_page_id_fits = a;
      free_list_head_fits = h;
      free_count_fits = k;
    }

    owner : (j : PageId) → 1 ≤ kept t X j → 1 ≤ owners t X j
    owner j used = omega arith

    reopen :
        (fuel needed : ℕ) (io : IO) (w : WriterState) (head : PageId) (n : ℕ) (bytes : Bytes)
        → p.page_size io ≡ ps
        → p.read_page io header_page_id ≡ done bytes
        → HeaderPage.from_bytes bytes ≡ done (ok (header_of ps head n w))
        → load_free_list_chain fuel io head
          ≡ done (w.free_list ++ w.pending_free, take needed w.free_list_page_ids)
        → open_or_create fuel io
          ≡ done (ok (reopened needed (record (t.store) { root = root; writer = w }) io))
    unfolding header_of
    reopen fuel needed io w head n bytes sized read decoded loaded =
        open_header fuel io bytes (header_of ps head n w) (w.free_list ++ w.pending_free)
          (take needed w.free_list_page_ids) read decoded (sym sized) loaded

    -- Committing returns.
    pub commit-Committed : (s : Store IO) × (commit t root ≡ done s) × Committed s
    unfolding view_read
    commit-Committed =
        let (io1, applied, size1, room1, keeps1, back1) =
          apply_writes-reads t.writes t.store.io size room written_pages in
        let start : 2 * gate.next_page_id ≤ b = omega (arith, gate-next) in
        let (
          head,
          n,
          w,
          io2,
          persisted,
          own,
          next,
          free,
          pending,
          head_word,
          n_word,
          frame,
          (needed, few, reads),
        ) =
          persist_free_list-Frame law ps wide narrow b io1 gate X size1 room1
            (unfold gate in promote-IsOwned t X o) start (omega (arith, gate-next)) in
        let (bytes, written, len, decoded) =
          from_bytes-to_bytes (header_of ps head n w) ps wide
            (header_of-IsHeader head n w (omega (arith, next, gate-next)) head_word n_word) in
        let (io3, header_written, room3, size3, back3, others3) =
          law.write io2 header_page_id bytes (omega (arith, o.positive, frame.room))
            (len ∙ sym frame.size) in
        let (io4, synced, room4, size4, keeps4) = law.flush io3 in
        let header_bytes : HeaderPage.to_bytes (header_of (p.page_size io2) head n w)
              (p.page_size io2)
            ≡ done bytes =
          ap (λ z. HeaderPage.to_bytes (header_of z head n w) z) frame.size ∙ written in
        let size_end : p.page_size io4 ≡ ps = size4 ∙ (size3 ∙ frame.size) in
        let joined : gate.free_list ++ gate.pending_free ≡ w.free_list ++ w.pending_free =
          rw (free, pending) refl in
        let off_header : (j : PageId) → 0 < j → Keeps io2 io4 j =
          λ j pos old read. keeps4 j old (others3 j (λ e. omega arith) old read) in
        let room_end : b ≤ law.room io4 = omega (arith, frame.room, room3, room4) in
        (
          record (t.store) { io = io4; root = root; writer = w },
          commit_run io1 io2 io3 io4 w head n bytes applied persisted header_bytes header_written
              synced,
          record {
            root_set = refl;
            readers_kept = refl;
            size_kept = size_end;
            room_kept = room_end;
            owned = own;
            next = omega (arith, next, gate-next);
            free_list = unfold gate in free;
            pending = unfold gate in pending;
            reopens = (
              needed,
              few,
              λ later sized keeps fuel enough_fuel.
                  reopen fuel needed later w head n bytes (sized ∙ size_end)
                    (keeps header_page_id bytes (keeps4 header_page_id bytes back3)) decoded
                    (reads later
                        (λ j used old read.
                          keeps j old (off_header j (own.inside j (omega arith)).0 old read))
                        fuel enough_fuel
                      ∙ ap (λ l. done (l, take needed w.free_list_page_ids)) joined),
            );
            same = λ j used page e.
                let later : Keeps io1 io4 j = λ old read.
                  off_header j ((o.inside j (owner j used)).0) old (
                    frame.keeps j
                      (off_chain w j own (unfold gate in free) (unfold gate in pending) used) old
                      read) in
                read_at io4 t j page (λ n old read. later old (keeps1 j n old read))
                  (λ bytes last. later bytes (back1 j bytes last)) e;
          },
        )
