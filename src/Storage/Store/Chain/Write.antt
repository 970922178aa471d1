-- ===== src/Storage/Store/Chain/Write.antt =====
-- The loop of `persist_free_list` of 01-btree/src/storage/store.rs that writes the chain, and the
-- loop of `load_free_list_chain` over what it wrote.
use ucu_de_distributed_algor.Prelude.{
  ℕ, zero, suc, ◌+◌, ◌-◌, ◌*◌, ◌/◌, ◌≤◌, ◌<◌, min, ◌≡◌, refl, sym, ap, ◌∙◌, inl, inr, false, some,
  List, [], ◌∷◌, ◌++◌, append-nil, append_assoc, arith, ltb, ◌==◌, if◌then◌else◌, lt→ltb, le→leb,
  ltb→lt, Bool-cases, length, get_elem?, take, drop, All, length-take, length-drop,
  take-append-drop, drop_all, drop-suc, get_elem?_lt, All-take, All-drop, All-get, Run, done,
}
use ucu_de_distributed_algor.Bytes.{Bytes, index}
use native.Mathlib.Decide.{dec_le, ℕ_discrete}
use native.Mathlib.Nat.{zero-add, suc-add, le-div_iff_mul-le}
use ucu_de_distributed_algor.Prelude.Count.{one, one_self, count, count-append, count_at}
use ucu_de_distributed_algor.Bytes.Laws.{slice_in, index-some}
use ucu_de_distributed_algor.Io.{PageIo, IsPageIo, Keeps}
use ucu_de_distributed_algor.Page.Tags.{PageId, u16_mod, u64_mod, sub_checked}
use ucu_de_distributed_algor.Page.FreeList.{
  free_list_header, free_list_capacity, free_list_encode, free_list_decode,
}
use ucu_de_distributed_algor.Page.FreeList.RoundTrip.{free_list_decode-free_list_encode}
use ucu_de_distributed_algor.Storage.Store.{div_ceil, load_loop, write_chain}

-- Where the chunks of the payload lie.
chunk_bounds :
    (len cap i : ℕ)
    → 1 ≤ cap
    → i < div_ceil len cap
    → (i * cap ≤ len) × ((i + 1) * cap ≡ i * cap + cap)
chunk_bounds len cap i pos h =
    let scaled : (i + 1) * cap ≤ len + cap - 1 = (le-div_iff_mul-le pos).0 (omega arith) in
    let spread : (i + 1) * cap ≡ i * cap + cap = grind arith in (omega arith, spread)

chunk_short :
    (xs : List PageId) (a b cap : ℕ)
    → a ≤ b
    → b ≤ length xs
    → b ≤ a + cap
    → length (take (b - a) (drop a xs)) ≤ cap
chunk_short xs a b cap h k l = omega (arith, length-take (b - a) (drop a xs), length-drop a xs)

pub chain_capacity :
    (ps : ℕ)
    → 49 ≤ ps
    → ps < u16_mod
    → (cap : ℕ) × (free_list_capacity ps ≡ done cap) × (1 ≤ cap) × (cap < u16_mod)
unfolding free_list_capacity sub_checked
chain_capacity ps h k = (
  (ps - free_list_header) / 8,
  rw (le→leb free_list_header ps (omega arith)),
  omega arith,
  omega arith,
)

-- The link to a page of the chain.
abbrev pub link : ℕ → ℕ → List PageId → Run PageId
link needed i ids = if ltb i needed then index ids i else done 0

pub link_at :
    (needed i : ℕ) (ids : List PageId)
    → needed ≤ length ids
    → All (λ c. c < u64_mod) ids
    → (c : PageId) × (link needed i ids ≡ done c) × (c < u64_mod)
link_at needed i ids h a = elim (Bool-cases (ltb i needed)) [
  | inl more ↦
      let (c, here) = get_elem?_lt ids i (omega (arith, ltb→lt _ _ more, h)) in
      (c, rw (more, index-some ids i here), All-get (λ c. c < u64_mod) ids i c here a)
  | inr last ↦ (0, rw last, omega arith)
]

drop-drop {ℓ} : {A : Type ℓ} (m n : ℕ) (xs : List A) → drop m (drop n xs) ≡ drop (n + m) xs
drop-drop m zero xs = ap (λ k. drop k xs) (sym (zero-add m))
drop-drop zero (suc n) [] = rw suc-add
drop-drop (suc m) (suc n) [] = rw suc-add
drop-drop m (suc n) (x ∷ xs) = rw suc-add (drop-drop m n xs)

drop_at {ℓ} :
    {A : Type ℓ} (xs : List A) (i : ℕ) (x : A)
    → get_elem? xs i ≡ some x
    → drop i xs ≡ x ∷ drop (i + 1) xs
drop_at xs i x h =
    let e : suc i ≡ i + 1 = omega arith in drop-suc xs i x h ∙ ap (λ n. x ∷ drop n xs) e

drop-min {ℓ} : {A : Type ℓ} (xs : List A) (b : ℕ) → drop (min b (length xs)) xs ≡ drop b xs
drop-min xs b = elim (dec_le b (length xs)) [
  | yes h ↦ let e : min b (length xs) ≡ b = omega arith in ap (λ n. drop n xs) e
  | no h ↦ drop_all (min b (length xs)) xs (omega arith) ∙ sym (drop_all b xs (omega arith))
]

-- The pages needed have room for the whole payload.
div_ceil-covers : (len cap : ℕ) → 1 ≤ cap → len ≤ div_ceil len cap * cap
div_ceil-covers len cap pos =
    let needed = div_ceil len cap in
    let spread : (needed + 1) * cap ≡ needed * cap + cap = grind arith in
    elim (dec_le ((needed + 1) * cap) (len + cap - 1)) [
      | yes h ↦ absurd (omega (arith, (le-div_iff_mul-le pos).1 h))
      | no h ↦ omega arith
    ]

count-drop : (n : ℕ) (xs : List PageId) (j : PageId) → count (drop n xs) j ≤ count xs j
count-drop n xs j =
    omega
      (arith, count-append (take n xs) (drop n xs) j, ap (λ l. count l j) (take-append-drop n xs))

-- A chunk and what lies behind it.
chunk-append :
    (xs : List PageId) (a b stop : ℕ)
    → a ≤ stop
    → stop ≡ min b (length xs)
    → take (stop - a) (drop a xs) ++ drop b xs ≡ drop a xs
chunk-append xs a b stop h e =
    let met : a + (stop - a) ≡ stop = omega arith in
    let rest : drop (stop - a) (drop a xs) ≡ drop b xs =
      drop-drop (stop - a) a xs ∙ (ap (λ n. drop n xs) (met ∙ e) ∙ drop-min xs b) in
    ap (λ l. take (stop - a) (drop a xs) ++ l) (sym rest) ∙ take-append-drop (stop - a) (drop a xs)

module _ {IO : Type 0} ⦃p : PageIo IO⦄ (law : IsPageIo p) (ps : ℕ) (wide : 49 ≤ ps)
    (narrow : ps < u16_mod) (b : ℕ) where
  -- What a step on the backend leaves: its size, its room, and the pages off the list `ids`.
  pub record Frame (ids : List PageId) (io io' : IO) : Type 0 where
    pub size : p.page_size io' ≡ ps
    pub room : b ≤ law.room io'
    pub keeps : (j : PageId) → count ids j ≡ 0 → Keeps io io' j

  -- A backend on which the pages of the list read the same.
  abbrev pub Agrees : List PageId → IO → IO → Type 0
  Agrees ids io io' = (j : PageId) → 1 ≤ count ids j → Keeps io io' j

  -- The chain from its page `i` on, as `load_free_list_chain` reads it from any such backend: the
  -- rest of the payload, on `k` pages.
  abbrev pub Loads : ℕ → ℕ → ℕ → ℕ → List PageId → List PageId → IO → Type 0
  Loads k i needed cap ids payload io =
      (later : IO)
      → Agrees ids io later
      → (fuel : ℕ) (c : PageId) (found pages : List PageId) → link needed i ids ≡ done c
      → load_loop (suc (k + fuel)) later c found pages
        ≡ done (found ++ drop (i * cap) payload, pages ++ take k (drop i ids))

  load_end :
      (fuel : ℕ) (io : IO) (found pages : List PageId)
      → load_loop (suc fuel) io 0 found pages ≡ done (found, pages)
  unfolding load_loop
  load_end fuel io found pages = refl

  load_page :
      (fuel : ℕ) (io : IO) (c nx : PageId) (bytes : Bytes) (chunk found pages : List PageId)
      → 0 < c
      → p.read_page io c ≡ done bytes
      → free_list_decode c bytes ≡ done (nx, chunk)
      → load_loop (suc fuel) io c found pages
        ≡ load_loop fuel io nx (found ++ chunk) (pages ++ c ∷ [])
  unfolding load_loop
  load_page fuel io c nx bytes chunk found pages pos read decoded =
      let more : (c == 0) ≡ false = ground arith in rw (more, read, decoded)

  Loads-zero :
      (needed i cap : ℕ) (ids payload : List PageId) (io : IO)
      → needed ≤ i
      → length payload ≤ i * cap
      → Loads 0 i needed cap ids payload io
  Loads-zero needed i cap ids payload io past covered later agrees fuel c found pages linked =
      let last : link needed i ids ≡ done 0 = ground (arith, ltb→lt i needed) in
      let zero_c : c ≡ 0 = cc in
      let lists : ◌≡◌ {A = List PageId × List PageId} (found, pages) (found ++ [], pages ++ []) =
        rw (append-nil found, append-nil pages) in
      rw (zero_c, load_end, drop_all (i * cap) payload covered) (ap done lists)

  Loads-suc :
      (k i needed cap nx : ℕ) (ids payload chunk : List PageId) (io : IO) (id : PageId)
      (bytes : Bytes)
      → get_elem? ids i ≡ some id
      → i < needed
      → 0 < id
      → p.read_page io id ≡ done bytes
      → free_list_decode id bytes ≡ done (nx, chunk)
      → link needed (i + 1) ids ≡ done nx
      → chunk ++ drop ((i + 1) * cap) payload ≡ drop (i * cap) payload
      → Loads k (i + 1) needed cap ids payload io
      → Loads (suc k) i needed cap ids payload io
  Loads-suc k i needed cap nx ids payload chunk io id bytes here more pos back decoded linked joined
        loads later agrees fuel c found pages start =
      let read : p.read_page later id ≡ done bytes =
        agrees id (count_at ids i id here) bytes back in
      let first : link needed i ids ≡ done id = rw (lt→ltb i needed more, index-some ids i here) in
      let same : c ≡ id = cc in
      let tail : drop i ids ≡ id ∷ drop (i + 1) ids = drop_at ids i id here in
      let lists : ◌≡◌ {A = List PageId × List PageId}
          (
            (found ++ chunk) ++ drop ((i + 1) * cap) payload,
            (pages ++ id ∷ []) ++ take k (drop (i + 1) ids),
          )
          (found ++ drop (i * cap) payload, pages ++ id ∷ take k (drop (i + 1) ids)) =
        rw (
          sym joined,
          append_assoc found chunk (drop ((i + 1) * cap) payload),
          append_assoc pages (id ∷ []) (take k (drop (i + 1) ids)),
        ) in
      let counted : suc k + fuel ≡ suc (k + fuel) = omega arith in
      rw
        (
          same,
          counted,
          load_page (suc (k + fuel)) later id nx bytes chunk found pages pos read decoded,
          tail,
        )
        (loads later agrees fuel nx (found ++ chunk) (pages ++ id ∷ []) linked ∙ ap done lists)

  chain_page :
      (io : IO) (id nx cap : ℕ) (ids chunk : List PageId)
      → p.page_size io ≡ ps
      → b ≤ law.room io
      → free_list_capacity ps ≡ done cap
      → cap < u16_mod
      → length chunk ≤ cap
      → id < u64_mod
      → id < b
      → nx < u64_mod
      → All (λ c. c < u64_mod) chunk
      → 1 ≤ count ids id
      → (bytes : Bytes) × (io' : IO) × (free_list_encode id nx chunk (p.page_size io) ≡ done bytes)
        × (p.write_page io id bytes ≡ done io')
        × Frame ids io io'
        × (p.read_page io' id ≡ done bytes)
        × (free_list_decode id bytes ≡ done (nx, chunk))
  chain_page io id nx cap ids chunk size room capacity small short id_word id_room nx_word words
        used =
      let (bytes, encoded, len, decoded) =
        free_list_decode-free_list_encode id nx chunk ps cap capacity short (omega arith) id_word
          nx_word words in
      let (io', written, room', size', back, others) =
        law.write io id bytes (omega arith) (len ∙ sym size) in
      (
        bytes,
        io',
        ap (λ s. free_list_encode id nx chunk s) size ∙ encoded,
        written,
        record {
          size = size' ∙ size;
          room = omega (arith, room');
          keeps = λ j off. elim (ℕ_discrete j id) [
            | yes e ↦ absurd (omega (arith, ap (λ k. count ids k) e))
            | no n ↦ others j n
          ];
        },
        back,
        decoded,
      )

  pub write_chain-Frame :
      (k i cap : ℕ) (ids payload : List PageId) (io : IO)
      → p.page_size io ≡ ps
      → b ≤ law.room io
      → free_list_capacity ps ≡ done cap
      → 1 ≤ cap
      → cap < u16_mod
      → k + i ≡ div_ceil (length payload) cap
      → div_ceil (length payload) cap ≤ length ids
      → All (λ c. c < u64_mod) ids
      → All (λ c. (0 < c) × (c < b)) ids
      → ((j : PageId) → count ids j ≤ 1)
      → All (λ c. c < u64_mod) payload
      → (io' : IO) × (write_chain k i (div_ceil (length payload) cap) cap ids payload io ≡ done io')
        × Frame (drop i ids) io io'
        × Loads k i (div_ceil (length payload) cap) cap ids payload io'
  unfolding write_chain
  write_chain-Frame zero i cap ids payload io size room capacity pos small all enough words rooms
        once pay =
      (
        io,
        refl,
        record { size = size; room = room; keeps = λ j off old read. read },
        Loads-zero (div_ceil (length payload) cap) i cap ids payload io (omega arith) (
            let met : i ≡ div_ceil (length payload) cap = omega arith in
            rw met (div_ceil-covers (length payload) cap pos)),
      )
  write_chain-Frame (suc k) i cap ids payload io size room capacity pos small all enough words rooms
        once pay =
      let needed = div_ceil (length payload) cap in
      let (id, here) = get_elem?_lt ids i (omega arith) in
      let tail : (j : PageId) → count (drop i ids) j ≡ one id j + count (drop (i + 1) ids) j =
        λ j. ap (λ l. count l j) (drop_at ids i id here) in
      let (positive, below) = All-get (λ c. (0 < c) × (c < b)) ids i id here rooms in
      let fewer : (j : PageId) → count (drop i ids) j ≤ count ids j = λ j. count-drop i ids j in
      let (nx, linked, nx_word) = link_at needed (i + 1) ids enough words in
      let (start, next_start) = chunk_bounds (length payload) cap i pos (omega arith) in
      let stop = min ((i + 1) * cap) (length payload) in
      let lower : i * cap ≤ stop = omega arith in
      let upper : stop ≤ length payload = omega arith in
      let chunk : List PageId = take (stop - i * cap) (drop (i * cap) payload) in
      let cut = slice_in payload (i * cap) stop lower upper in
      let P : PageId → Type 0 = λ c. c < u64_mod in
      let (bytes, io1, encoded, written, frame, back, decoded) =
        chain_page io id nx cap (drop i ids) chunk size room capacity small
          (chunk_short payload (i * cap) stop cap lower upper (omega arith))
          (All-get P ids i id here words) below nx_word
          (All-take P (stop - i * cap) (drop (i * cap) payload) (All-drop P (i * cap) payload pay))
          (rw (drop-suc ids i id here) (omega (arith, one_self id))) in
      let (io2, run, frame', loads) =
        write_chain-Frame k (i + 1) cap ids payload io1 frame.size frame.room capacity pos small
          (omega arith) enough words rooms once pay in
      (
        io2,
        rw (index-some ids i here, linked, cut, encoded, written) run,
        record {
          size = frame'.size;
          room = frame'.room;
          keeps = λ j off old read.
              frame'.keeps j (omega (arith, off, tail j)) old (frame.keeps j off old read);
        },
        Loads-suc k i needed cap nx ids payload chunk io2 id bytes here (omega arith) positive
            (frame'.keeps id (omega (arith, fewer id, once id, tail id, one_self id)) bytes back)
            decoded linked (chunk-append payload (i * cap) ((i + 1) * cap) stop lower refl) loads,
      )
