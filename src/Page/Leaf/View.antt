-- ===== src/Page/Leaf/View.antt =====
-- A leaf as the list of its entries: the node that holds a list, and what each accessor reads there.
use ucu_de_distributed_algor.Prelude.{
  ℕ, zero, suc, ◌+◌, ◌-◌, ◌*◌, ◌%◌, ◌≤◌, ◌<◌, ◌≡◌, refl, sym, ap, ◌∙◌, some, List, [], ◌∷◌, ◌++◌,
  map, append_assoc, arith, length, get_elem?, take, drop, length-append, get_elem?-split, drop-suc,
  done,
}
use ucu_de_distributed_algor.Bytes.{Bytes, to_le_bytes, index, slice, read_le}
use ucu_de_distributed_algor.Bytes.Laws.{index-some, length-snoc_le, read_le_at, slice_at}
use ucu_de_distributed_algor.Bytes.Words.{length-to_le_bytes}
use native.Mathlib.Nat.{zero-add}
use ucu_de_distributed_algor.Page.Tags.{PageId, u16_mod, sub_checked_fits}
use ucu_de_distributed_algor.Page.Leaf.{LeafNode, leaf_header, nkeys, get_key, get_val, nbytes}

-- A key with its value.
abbrev pub Entry : Type 0
Entry = Bytes × Bytes

abbrev pub key_of : Entry → Bytes
key_of e = e.0

abbrev pub keys : List Entry → List Bytes
keys = map key_of

-- `key_len(2B) | key | val_len(2B) | val`
unfoldable pub encode : Entry → Bytes
encode e = to_le_bytes 2 (length e.0) ++ (e.0 ++ (to_le_bytes 2 (length e.1) ++ e.1))

abbrev pub size : Entry → ℕ
size e = 4 + length e.0 + length e.1

abbrev pub total : List Entry → ℕ
total [] = 0
total (e ∷ es) = size e + total es

unfoldable pub encode_all : List Entry → Bytes
encode_all [] = []
encode_all (e ∷ es) = encode e ++ encode_all es

-- The offset of each entry, and the end.
unfoldable pub starts : ℕ → List Entry → List ℕ
starts b [] = b ∷ []
starts b (e ∷ es) = b ∷ starts (b + size e) es

-- The node that holds the entries `es`.
unfoldable pub leaf_of : PageId → List Entry → LeafNode
leaf_of id es = record { id = id; entries = encode_all es; entry_start = starts 0 es }

-- The entries' offsets fit `u16`.
abbrev pub IsSmall : List Entry → Type 0
IsSmall es = total es < u16_mod

pub length-encode : (e : Entry) → length (encode e) ≡ size e
unfolding encode
length-encode e =
    rw
      (
        length-append (to_le_bytes 2 (length e.0)) (e.0 ++ (to_le_bytes 2 (length e.1) ++ e.1)),
        length-append e.0 (to_le_bytes 2 (length e.1) ++ e.1),
        length-append (to_le_bytes 2 (length e.1)) e.1,
        length-to_le_bytes 2 (length e.0),
        length-to_le_bytes 2 (length e.1),
      )
      (omega arith)

pub length-encode_all : (es : List Entry) → length (encode_all es) ≡ total es
unfolding encode_all
length-encode_all [] = refl
length-encode_all (e ∷ es) = rw length-append (omega (arith, length-encode e, length-encode_all es))

pub encode_all-append :
    (xs ys : List Entry) → encode_all (xs ++ ys) ≡ encode_all xs ++ encode_all ys
unfolding encode_all
encode_all-append [] ys = refl
encode_all-append (e ∷ xs) ys =
    ap (λ t. encode e ++ t) (encode_all-append xs ys) ∙ sym (append_assoc (encode e) _ _)

pub total-append : (xs ys : List Entry) → total (xs ++ ys) ≡ total xs + total ys
total-append [] ys = omega arith
total-append (e ∷ xs) ys = omega (arith, total-append xs ys)

pub total-split : (k : ℕ) (es : List Entry) → total (take k es) + total (drop k es) ≡ total es
total-split zero es = omega arith
total-split (suc k) [] = omega arith
total-split (suc k) (e ∷ es) = omega (arith, total-split k es)

pub length-le-total : (es : List Entry) → 4 * length es ≤ total es
length-le-total [] = omega arith
length-le-total (e ∷ es) = omega (arith, length-le-total es)

pub length-starts : (b : ℕ) (es : List Entry) → length (starts b es) ≡ suc (length es)
unfolding starts
length-starts b [] = refl
length-starts b (e ∷ es) = ap suc (length-starts (b + size e) es)

pub starts-at :
    (b : ℕ) (es : List Entry) (i : ℕ)
    → i ≤ length es
    → get_elem? (starts b es) i ≡ some (b + total (take i es))
unfolding starts
starts-at b [] zero h = ap some (omega arith)
starts-at b [] (suc i) h = absurd (omega arith)
starts-at b (e ∷ es) zero h = ap some (omega arith)
starts-at b (e ∷ es) (suc i) h = starts-at (b + size e) es i (omega arith) ∙ ap some (omega arith)

pub starts-snoc :
    (b : ℕ) (es : List Entry) (e : Entry)
    → starts b (es ++ e ∷ []) ≡ starts b es ++ (b + total (es ++ e ∷ [])) ∷ []
unfolding starts
starts-snoc b [] e =
    let end : b + size e ≡ b + (size e + 0) = omega arith in ap (λ n. b ∷ n ∷ []) end
starts-snoc b (x ∷ es) e =
    let end : b + size x + total (es ++ e ∷ []) ≡ b + (size x + total (es ++ e ∷ [])) =
      omega arith in
    ap (λ t. b ∷ t) (starts-snoc (b + size x) es e)
    ∙ ap (λ n. b ∷ (starts (b + size x) es ++ n ∷ [])) end

pub nkeys-leaf_of :
    (id : PageId) (es : List Entry) → IsSmall es → nkeys (leaf_of id es) ≡ done (length es)
unfolding nkeys leaf_of
nkeys-leaf_of id es small =
    let fits : (suc (length es) - 1) % u16_mod ≡ length es = omega (arith, length-le-total es) in
    rw (length-starts 0 es, sub_checked_fits (suc (length es)) 1 (omega arith)) (ap done fits)

pub nbytes-leaf_of :
    (id : PageId) (es : List Entry) → nbytes (leaf_of id es) ≡ leaf_header + total es
unfolding nbytes leaf_of
nbytes-leaf_of id es = rw (length-encode_all es)

module _ (id : PageId) (es : List Entry) (i : ℕ) (e : Entry) (here : get_elem? es i ≡ some e)
    (small : IsSmall es) where
  before : Bytes
  before = encode_all (take i es)

  behind : Bytes
  behind = encode_all (drop (suc i) es)

  klen_bytes : Bytes
  klen_bytes = to_le_bytes 2 (length e.0)

  vlen_bytes : Bytes
  vlen_bytes = to_le_bytes 2 (length e.1)

  start : ℕ
  start = total (take i es)

  entry_at : encode_all es ≡ before ++ (encode e ++ behind)
  unfolding before behind encode_all
  entry_at =
      ap encode_all (get_elem?-split es i e here).0
      ∙ encode_all-append (take i es) (e ∷ drop (suc i) es)

  at_klen : encode_all es ≡ before ++ (klen_bytes ++ (e.0 ++ (vlen_bytes ++ (e.1 ++ behind))))
  unfolding encode klen_bytes vlen_bytes
  at_klen = entry_at ∙ simp append_assoc

  at_key : encode_all es ≡ (before ++ klen_bytes) ++ (e.0 ++ (vlen_bytes ++ (e.1 ++ behind)))
  at_key = at_klen ∙ simp append_assoc

  at_vlen : encode_all es ≡ ((before ++ klen_bytes) ++ e.0) ++ (vlen_bytes ++ (e.1 ++ behind))
  at_vlen = at_klen ∙ simp append_assoc

  at_val : encode_all es ≡ (((before ++ klen_bytes) ++ e.0) ++ vlen_bytes) ++ (e.1 ++ behind)
  at_val = at_klen ∙ simp append_assoc

  length-before : length before ≡ start
  unfolding before start
  length-before = length-encode_all (take i es)

  end_le_total : start + size e ≤ total es
  unfolding start
  end_le_total =
      let d : total (drop i es) ≡ total (e ∷ drop (suc i) es) = ap total (drop-suc es i e here) in
      omega (arith, total-split i es)

  starts_here : index (starts 0 es) i ≡ done start
  unfolding start
  starts_here =
      index-some (starts 0 es) i (
        starts-at 0 es i (omega (arith, (get_elem?-split es i e here).1))
        ∙ ap some (zero-add start))

  read_klen : read_le 2 (encode_all es) start ≡ done (length e.0)
  unfolding klen_bytes
  read_klen =
      read_le_at 2 (length e.0) (encode_all es) before (e.0 ++ (vlen_bytes ++ (e.1 ++ behind)))
        start at_klen length-before (omega (arith, end_le_total))

  read_key : slice (encode_all es) (start + 2) (start + 2 + length e.0) ≡ done e.0
  read_key =
      slice_at (encode_all es) (before ++ klen_bytes) e.0 (vlen_bytes ++ (e.1 ++ behind))
        (start + 2) (start + 2 + length e.0) at_key length-klen refl
    where
      length-klen : length (before ++ klen_bytes) ≡ start + 2
      length-klen =
          unfold klen_bytes in
          length-snoc_le 2 (length e.0) before start (start + 2) length-before refl

  read_vlen : read_le 2 (encode_all es) (start + 2 + length e.0) ≡ done (length e.1)
  unfolding klen_bytes vlen_bytes
  read_vlen =
      read_le_at 2 (length e.1) (encode_all es) ((before ++ klen_bytes) ++ e.0) (e.1 ++ behind)
        (start + 2 + length e.0) at_vlen
        (rw (
          length-append (before ++ klen_bytes) e.0,
          length-append before klen_bytes,
          length-before,
          length-to_le_bytes 2 (length e.0),
        ))
        (omega (arith, end_le_total))

  read_val :
      slice (encode_all es) (start + 2 + length e.0 + 2) (start + 2 + length e.0 + 2 + length e.1)
      ≡ done e.1
  unfolding klen_bytes vlen_bytes
  read_val =
      slice_at (encode_all es) (((before ++ klen_bytes) ++ e.0) ++ vlen_bytes) e.1 behind
        (start + 2 + length e.0 + 2) (start + 2 + length e.0 + 2 + length e.1) at_val
        (rw (
          length-append ((before ++ klen_bytes) ++ e.0) vlen_bytes,
          length-append (before ++ klen_bytes) e.0,
          length-append before klen_bytes,
          length-before,
          length-to_le_bytes 2 (length e.0),
          length-to_le_bytes 2 (length e.1),
        ))
        refl

  -- The accessors read the entry at an index in range.
  pub get_key-leaf_of : get_key (leaf_of id es) i ≡ done e.0
  unfolding get_key leaf_of
  get_key-leaf_of = rw (starts_here, read_klen, read_key)

  pub get_val-leaf_of : get_val (leaf_of id es) i ≡ done e.1
  unfolding get_val leaf_of
  get_val-leaf_of = rw (starts_here, read_klen, read_vlen, read_val)

pub get_elem?-keys :
    (es : List Entry) (i : ℕ) (e : Entry)
    → get_elem? es i ≡ some e
    → get_elem? (keys es) i ≡ some e.0
get_elem?-keys [] i e h = cc
get_elem?-keys (x ∷ es) zero e h = ground arith
get_elem?-keys (x ∷ es) (suc i) e h = get_elem?-keys es i e h
