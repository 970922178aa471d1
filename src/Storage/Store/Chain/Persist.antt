-- ===== src/Storage/Store/Chain/Persist.antt =====
-- `persist_free_list` of 01-btree/src/storage/store.rs: which pages it writes, and that it returns.
use ucu_de_distributed_algor.Prelude.{
  ℕ, zero, suc, ◌+◌, ◌-◌, ◌*◌, ◌≤◌, ◌<◌, max, ◌≡◌, ap, ◌∙◌, List, [], ◌++◌, arith, length, take,
  drop, All, done,
}
use native.Mathlib.Decide.{dec_le}
use native.Mathlib.Nat.{le-div_iff_mul-le}
use ucu_de_distributed_algor.Prelude.Count.{count, count-append, All-of_count, length-le_of_count}
use ucu_de_distributed_algor.Io.{PageIo, IsPageIo}
use ucu_de_distributed_algor.Page.Tags.{PageId, u16_mod, u64_mod}
use ucu_de_distributed_algor.Page.FreeList.{free_list_capacity}
use ucu_de_distributed_algor.Storage.Store.{
  load_free_list_chain, WriterState, div_ceil, extend_chain, write_chain, persist_free_list,
}
use ucu_de_distributed_algor.Storage.Store.Chain.{IsOwned, extend_chain-IsOwned}
use ucu_de_distributed_algor.Storage.Store.Chain.Write.{
  chain_capacity, link, link_at, Frame, Agrees, Loads, write_chain-Frame,
}
use ucu_de_distributed_algor.Storage.Store.Own.{idle}

needed-le : (len cap : ℕ) → 1 ≤ cap → div_ceil len cap ≤ len
needed-le len cap pos = elim (dec_le (div_ceil len cap) len) [
  | yes h ↦ h
  | no over ↦
      let scaled : (len + 1) * cap ≤ len + cap - 1 = (le-div_iff_mul-le pos).0 (omega arith) in
      let spread : (len + 1) * cap ≡ len * cap + cap = grind arith in
      let grown : len ≤ len * cap = mul_grows len cap pos in absurd (omega arith)
]
  where
    mul_grows : (n c : ℕ) → 1 ≤ c → n ≤ n * c
    mul_grows n zero h = absurd (omega arith)
    mul_grows n (suc c) h = grind arith

module _ {IO : Type 0} ⦃p : PageIo IO⦄ (law : IsPageIo p) (ps : ℕ) (wide : 49 ≤ ps)
    (narrow : ps < u16_mod) (b : ℕ) (io : IO) (w : WriterState) (X : PageId → ℕ)
    (size : p.page_size io ≡ ps) (room : b ≤ law.room io) (o : IsOwned w X)
    (enough : 2 * w.next_page_id ≤ b) (words : 2 * w.next_page_id < u64_mod) where
  abbrev pub payload : List PageId
  payload = w.free_list ++ w.pending_free

  payload-count : (i : PageId) → count payload i ≤ idle w i
  payload-count i = omega (arith, count-append w.free_list w.pending_free i)

  payload_short : length payload ≤ w.next_page_id
  payload_short =
      length-le_of_count w.next_page_id payload (λ i. omega (arith, payload-count i, o.once i))
        (λ i h. (o.inside i (omega (arith, payload-count i))).1)

  payload_words : All (λ c. c < u64_mod) payload
  payload_words =
      All-of_count (λ c. c < u64_mod) payload
        (λ i h. omega (arith, (o.inside i (omega (arith, payload-count i))).1))

  -- What `load_free_list_chain` reads back from the head that was stored, with fuel for the pages
  -- of the chain and one more: the lists' pages, and a front part of the chain's.
  abbrev pub Reads : WriterState → PageId → IO → Type 0
  Reads w' head io' =
      (needed : ℕ) × (needed ≤ w'.next_page_id)
      × ((later : IO)
          → Agrees law ps wide narrow b w'.free_list_page_ids io' later
          → (fuel : ℕ) → needed < fuel
          → load_free_list_chain fuel later head
            ≡ done (payload, take needed w'.free_list_page_ids))

  chain_below :
      (w' : WriterState) (c : ℕ)
      → IsOwned w' X
      → w'.next_page_id ≤ c
      → All (λ i. (0 < i) × (i < c)) w'.free_list_page_ids
  chain_below w' c o' h =
      All-of_count (λ i. (0 < i) × (i < c)) w'.free_list_page_ids
        (λ i k. let (pos, top) = o'.inside i (omega arith) in (pos, omega arith))

  chain_words :
      (w' : WriterState)
      → IsOwned w' X
      → w'.next_page_id ≤ u64_mod
      → All (λ i. i < u64_mod) w'.free_list_page_ids
  chain_words w' o' h =
      All-of_count (λ i. i < u64_mod) w'.free_list_page_ids
        (λ i k. omega (arith, (o'.inside i (omega arith)).1))

  read_back :
      (needed : ℕ) (head : PageId) (ids : List PageId) (cap : ℕ) (io' : IO)
      → Loads law ps wide narrow b needed 0 needed cap ids payload io'
      → link needed 0 ids ≡ done head
      → (later : IO) → Agrees law ps wide narrow b ids io' later
      → (fuel : ℕ) → needed < fuel
      → load_free_list_chain fuel later head ≡ done (payload, take needed ids)
  unfolding load_free_list_chain
  read_back needed head ids cap io' loads first later agrees fuel more =
      let enough_fuel : fuel ≡ suc (needed + (fuel - suc needed)) = omega arith in
      let nowhere : 0 * cap ≡ 0 = omega arith in
      rw enough_fuel (
        loads later agrees (fuel - suc needed) head [] [] first
        ∙ ap (λ n. done (drop n payload, take needed ids)) nowhere)

  persist_run :
      (cap : ℕ) (w' : WriterState) (io' : IO) (head : PageId)
      → free_list_capacity ps ≡ done cap
      → 1 ≤ cap
      → extend_chain (div_ceil (length payload) cap - length w.free_list_page_ids) w ≡ done w'
      → write_chain
          (div_ceil (length payload) cap)
          0
          (div_ceil (length payload) cap)
          cap
          w'.free_list_page_ids
          payload
          io
        ≡ done io'
      → link (div_ceil (length payload) cap) 0 w'.free_list_page_ids ≡ done head
      → persist_free_list io w ≡ done (head, length payload, w', io')
  unfolding persist_free_list
  persist_run cap w' io' head capacity pos extended written first =
      let same : max cap 1 ≡ cap = omega arith in
      let room_for : free_list_capacity (p.page_size io) ≡ done cap =
        ap (λ s. free_list_capacity s) size ∙ capacity in
      rw (room_for, same, extended, written, first)

  -- Persisting the free list returns. The pages that it writes are those of the chain, which grows by
  -- pages that nobody owned.
  pub persist_free_list-Frame :
      (head : PageId) × (n : ℕ) × (w' : WriterState) × (io' : IO) × (persist_free_list io w
        ≡ done (head, n, w', io'))
      × IsOwned w' X
      × (w'.next_page_id ≤ 2 * w.next_page_id)
      × (w'.free_list ≡ w.free_list)
      × (w'.pending_free ≡ w.pending_free)
      × (head < u64_mod)
      × (n < u64_mod)
      × Frame law ps wide narrow b w'.free_list_page_ids io io'
      × Reads w' head io'
  unfolding persist_free_list
  persist_free_list-Frame =
      let (cap, capacity, pos, small) = chain_capacity ps wide narrow in
      let needed = div_ceil (length payload) cap in
      let few : needed ≤ w.next_page_id =
        omega (arith, needed-le (length payload) cap pos, payload_short) in
      let (w', extended, own, next, free, pending, len) =
        extend_chain-IsOwned (needed - length w.free_list_page_ids) w X (omega arith) o in
      let ids = w'.free_list_page_ids in
      let below : w'.next_page_id ≤ 2 * w.next_page_id = omega (arith, next) in
      let all_words = chain_words w' own (omega arith) in
      let long : needed ≤ length ids = omega (arith, len) in
      let (io', written, frame, loads) =
        write_chain-Frame law ps wide narrow b needed 0 cap ids payload io size room capacity pos
          small (omega arith) long all_words (chain_below w' b own (omega arith))
          (λ j. omega (arith, own.once j)) payload_words in
      let (head, first, head_word) = link_at needed 0 ids long all_words in
      (
        head,
        length payload,
        w',
        io',
        persist_run cap w' io' head capacity pos extended written first,
        own,
        below,
        free,
        pending,
        head_word,
        omega (arith, payload_short),
        frame,
        (needed, omega (arith, few, next), read_back needed head ids cap io' loads first),
      )
