-- ===== src/Page/Leaf/Edit.antt =====
-- Building leaves: `push`, `push_range`, `leaf_insert` and `leaf_update` on the list of entries.
use ucu_de_distributed_algor.Prelude.{
  ℕ, zero, suc, ◌+◌, ◌-◌, ◌*◌, ◌%◌, ◌≤◌, ◌<◌, ◌≡◌, refl, sym, ap, ◌∙◌, true, some, List, [], ◌∷◌,
  ◌++◌, append-nil, append_assoc, arith, length, get_elem?, take, drop, length-drop, take_all,
  drop-suc, get_elem?_lt, All-append, done,
}
use ucu_de_distributed_algor.Bytes.{Bytes, to_le_bytes}
use ucu_de_distributed_algor.Bytes.Order.{◌≺◌}
use mathlib.Core.List.{map-append}
use mathlib.Core.Option.{some-injective}
use native.Mathlib.Numerals.{add-one}
use ucu_de_distributed_algor.Page.Tags.{PageId, u16_mod, add_u16_fits, sub_checked_fits}
use ucu_de_distributed_algor.Page.Keys.{IsAscending, lt_bytes_of, IsAscending-append}
use ucu_de_distributed_algor.Page.Leaf.{
  empty, nbytes, may_push, push, push_loop, push_range, leaf_insert, leaf_update,
}
use ucu_de_distributed_algor.Page.Leaf.View.{
  Entry, key_of, keys, encode, total, encode_all, starts, leaf_of, IsSmall, total-append,
  length-encode_all, encode_all-append, starts-snoc, nkeys-leaf_of, length-le-total,
  get_key-leaf_of, get_val-leaf_of,
}

-- The empty node, whatever the capacity hint.
pub empty-leaf_of : (hint : ℕ) → empty hint ≡ leaf_of 0 []
unfolding empty leaf_of encode_all starts
empty-leaf_of hint = refl

-- A list that may be written to a node: its offsets fit, and its keys ascend.
pub record IsEntries (es : List Entry) : Type 0 where
  pub small : IsSmall es
  pub ascending : IsAscending (keys es)

pub IsEntries-front : (xs ys : List Entry) → IsEntries (xs ++ ys) → IsEntries xs
IsEntries-front xs ys h = record {
  small = omega (arith, total-append xs ys, h.small);
  ascending =
      (IsAscending-append (keys xs) (keys ys) (rw (map-append key_of xs ys) at h.ascending)).0;
}

pub IsEntries-back : (xs ys : List Entry) → IsEntries (xs ++ ys) → IsEntries ys
IsEntries-back xs ys h = record {
  small = omega (arith, total-append xs ys, h.small);
  ascending =
      (IsAscending-append (keys xs) (keys ys) (rw (map-append key_of xs ys) at h.ascending)).1;
}

last_below :
    (es : List Entry) (k v : Bytes) (i : ℕ) (e : Entry)
    → IsAscending (keys (es ++ (k, v) ∷ []))
    → get_elem? es i ≡ some e
    → e.0 ≺ k
last_below [] k v i e s h = cc
last_below (x ∷ es) k v zero e s h =
    rw (← some-injective _ _ h)
      ((All-append (λ y. x.0 ≺ y) (keys es) (k ∷ [])).0
        (rw (map-append key_of es ((k, v) ∷ [])) at s.0)).1.0
last_below (x ∷ es) k v (suc i) e s h = last_below es k v i e s.1 h

may_push-leaf_of :
    (id : PageId) (es : List Entry) (k v : Bytes)
    → IsEntries (es ++ (k, v) ∷ [])
    → may_push (leaf_of id es) k ≡ done true
unfolding may_push
may_push-leaf_of id [] k v h = rw (nkeys-leaf_of id [] (omega arith))
may_push-leaf_of id (x ∷ es) k v h =
    let whole = IsEntries-front (x ∷ es) ((k, v) ∷ []) h in
    let (e, at) = get_elem?_lt (x ∷ es) (length es) (omega arith) in
    let last : suc (length es) - 1 ≡ length es = omega arith in
    rw
      (
        nkeys-leaf_of id (x ∷ es) whole.small,
        sub_checked_fits (suc (length es)) 1 (omega arith),
        last,
        get_key-leaf_of id (x ∷ es) (length es) e at whole.small,
        lt_bytes_of e.0 k (last_below (x ∷ es) k v (length es) e h.ascending at),
      )
      (ground arith)

appended :
    (es : List Entry) (k v : Bytes)
    → IsSmall (es ++ (k, v) ∷ [])
    → encode_all es
        ++ (to_le_bytes 2 (length k % u16_mod) ++ (k ++ (to_le_bytes 2 (length v % u16_mod) ++ v)))
      ≡ encode_all (es ++ (k, v) ∷ [])
unfolding encode_all encode
appended es k v small =
    let t = total-append es ((k, v) ∷ []) in
    let fits_k : length k % u16_mod ≡ length k = omega arith in
    let fits_v : length v % u16_mod ≡ length v = omega arith in
    rw (fits_k, fits_v)
      (sym (
        encode_all-append es ((k, v) ∷ [])
        ∙ ap (λ t. encode_all es ++ t) (append-nil (encode (k, v)))))

-- A push appends the entry.
pub push-leaf_of :
    (id : PageId) (es : List Entry) (k v : Bytes)
    → IsEntries (es ++ (k, v) ∷ [])
    → push (leaf_of id es) k v ≡ done (leaf_of id (es ++ (k, v) ∷ []))
unfolding push leaf_of
push-leaf_of id es k v h =
    let end : length (encode_all (es ++ (k, v) ∷ [])) % u16_mod ≡ 0 + total (es ++ (k, v) ∷ []) =
      omega (arith, length-encode_all (es ++ (k, v) ∷ []), h.small) in
    rw (may_push-leaf_of id es k v h, appended es k v h.small, end, starts-snoc 0 es (k, v))

-- Copying a range of `src` behind `acc`.
push_loop-leaf_of :
    (count : ℕ) (acc : List Entry) (id : PageId) (src : List Entry) (i : ℕ) (out : List Entry)
    → IsSmall src
    → i + count ≤ length src
    → acc ++ take count (drop i src) ≡ out
    → IsEntries out
    → push_loop count (leaf_of 0 acc) (leaf_of id src) i ≡ done (leaf_of 0 out)
unfolding push_loop
push_loop-leaf_of zero acc id src i out small h e good =
    ap (λ o. done (leaf_of 0 o)) (sym (append-nil acc) ∙ e)
push_loop-leaf_of (suc count) acc id src i out small h e good =
    let (x, at) = get_elem?_lt src i (omega arith) in
    let tail = take count (drop (suc i) src) in
    let split : (acc ++ x ∷ []) ++ tail ≡ out =
      append_assoc acc (x ∷ []) tail
      ∙ (ap (λ t. acc ++ take (suc count) t) (sym (drop-suc src i x at)) ∙ e) in
    rw
      (
        get_key-leaf_of id src i x at small,
        get_val-leaf_of id src i x at small,
        push-leaf_of 0 acc x.0 x.1 (IsEntries-front (acc ++ x ∷ []) tail (rw split good)),
        add-one i,
      )
      (push_loop-leaf_of count (acc ++ x ∷ []) id src (suc i) out small (omega arith) split good)

pub push_range-leaf_of :
    (acc : List Entry) (id : PageId) (src : List Entry) (from to : ℕ) (out : List Entry)
    → IsSmall src
    → from ≤ to
    → to ≤ length src
    → acc ++ take (to - from) (drop from src) ≡ out
    → IsEntries out
    → push_range (leaf_of 0 acc) (leaf_of id src) from to ≡ done (leaf_of 0 out)
unfolding push_range
push_range-leaf_of acc id src from to out small h k e good =
    push_loop-leaf_of (to - from) acc id src from out small (omega arith) e good

-- The entries in front of an index, copied to an empty node.
pub push_front-leaf_of :
    (hint : ℕ) (id : PageId) (src : List Entry) (to : ℕ)
    → IsSmall src
    → to ≤ length src
    → IsEntries (take to src)
    → push_range (empty hint) (leaf_of id src) 0 to ≡ done (leaf_of 0 (take to src))
push_front-leaf_of hint id src to small h good =
    let count : to - 0 ≡ to = omega arith in
    rw (empty-leaf_of hint) (
      push_range-leaf_of [] id src 0 to (take to src) small (omega arith) h
        (ap (λ n. take n src) count) good)

-- The entries from an index on, copied behind `acc`.
pub push_back-leaf_of :
    (acc : List Entry) (id : PageId) (src : List Entry) (from : ℕ)
    → IsSmall src
    → from ≤ length src
    → IsEntries (acc ++ drop from src)
    → push_range (leaf_of 0 acc) (leaf_of id src) from (length src)
      ≡ done (leaf_of 0 (acc ++ drop from src))
push_back-leaf_of acc id src from small h good =
    push_range-leaf_of acc id src from (length src) (acc ++ drop from src) small h (omega arith)
      (ap (λ t. acc ++ t)
        (take_all (length src - from) (drop from src) (omega (arith, length-drop from src))))
      good

-- An insertion at an index up to the number of entries puts the entry between those in front of the
-- index and those from it on, if the entries that result ascend and the offsets of both nodes fit 16
-- bits.
pub leaf_insert-leaf_of :
    (id : PageId) (es : List Entry) (idx : ℕ) (k v : Bytes)
    → IsSmall es
    → idx ≤ length es
    → IsEntries (take idx es ++ ((k, v) ∷ drop idx es))
    → leaf_insert (leaf_of id es) idx k v ≡ done (leaf_of 0 (take idx es ++ ((k, v) ∷ drop idx es)))
unfolding leaf_insert
leaf_insert-leaf_of id es idx k v small h good =
    let front = take idx es in
    let both = append_assoc front ((k, v) ∷ []) (drop idx es) in
    rw
      (
        push_front-leaf_of (2 * (nbytes (leaf_of id es) + length k + length v + 4)) id es idx small
            h (IsEntries-front front ((k, v) ∷ drop idx es) good),
        push-leaf_of 0 front k v
            (IsEntries-front (front ++ (k, v) ∷ []) (drop idx es) (rw both good)),
        nkeys-leaf_of id es small,
        push_back-leaf_of (front ++ (k, v) ∷ []) id es idx small h (rw both good),
      )
      (ap (λ o. done (leaf_of 0 o)) both)

-- An update at an index below the number of entries puts the entry in place of the one at the
-- index, if the entries that result ascend and the offsets of both nodes fit 16 bits.
pub leaf_update-leaf_of :
    (id : PageId) (es : List Entry) (idx : ℕ) (k v : Bytes)
    → IsSmall es
    → idx < length es
    → IsEntries (take idx es ++ ((k, v) ∷ drop (suc idx) es))
    → leaf_update (leaf_of id es) idx k v
      ≡ done (leaf_of 0 (take idx es ++ ((k, v) ∷ drop (suc idx) es)))
unfolding leaf_update
leaf_update-leaf_of id es idx k v small h good =
    let front = take idx es in
    let both = append_assoc front ((k, v) ∷ []) (drop (suc idx) es) in
    rw
      (
        push_front-leaf_of (2 * (nbytes (leaf_of id es) + length v + 4)) id es idx small
            (omega arith) (IsEntries-front front ((k, v) ∷ drop (suc idx) es) good),
        push-leaf_of 0 front k v
            (IsEntries-front (front ++ (k, v) ∷ []) (drop (suc idx) es) (rw both good)),
        add_u16_fits idx 1 (omega (arith, length-le-total es)),
        add-one idx,
        nkeys-leaf_of id es small,
        push_back-leaf_of (front ++ (k, v) ∷ []) id es (suc idx) small h (rw both good),
      )
      (ap (λ o. done (leaf_of 0 o)) both)
