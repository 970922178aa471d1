-- ===== src/Page/Internal/Edit.antt =====
-- Building internal nodes: keys and children copied, replaced and spliced in.
use ucu_de_distributed_algor.Prelude.{
  ℕ, zero, suc, ◌+◌, ◌-◌, ◌%◌, ◌≤◌, ◌≡◌, refl, sym, ap, ◌∙◌, true, List, [], ◌∷◌, ◌++◌, append-nil,
  append_assoc, arith, length, take, drop, drop-suc, get_elem?_lt, done,
}
use ucu_de_distributed_algor.Bytes.{Bytes, to_le_bytes}
use native.Mathlib.Numerals.{add-one}
use ucu_de_distributed_algor.Page.Tags.{PageId, u16_mod, sub_checked_fits}
use ucu_de_distributed_algor.Page.Keys.{
  IsAscending, IsAscending-append, ascending_last, lt_bytes_of,
}
use ucu_de_distributed_algor.Page.Internal.{
  empty, may_push, push_key, push_child, push_keys, push_children,
}
use ucu_de_distributed_algor.Page.Internal.View.{
  encode, total, encode_all, starts, node_of, IsSmall, total-append, length-encode_all,
  encode_all-append, starts-snoc, nkeys-node_of, get_key-node_of, get_child-node_of,
}

-- A list of keys that may be written to a node.
pub record IsKeys (ks : List Bytes) : Type 0 where
  pub small : IsSmall ks
  pub ascending : IsAscending ks

pub IsKeys-front : (xs ys : List Bytes) → IsKeys (xs ++ ys) → IsKeys xs
IsKeys-front xs ys h = record {
  small = omega (arith, total-append xs ys, h.small);
  ascending = (IsAscending-append xs ys h.ascending).0;
}

pub IsKeys-back : (xs ys : List Bytes) → IsKeys (xs ++ ys) → IsKeys ys
IsKeys-back xs ys h = record {
  small = omega (arith, total-append xs ys, h.small);
  ascending = (IsAscending-append xs ys h.ascending).1;
}

pub empty-node_of : (hint : ℕ) → empty hint ≡ node_of 0 [] []
unfolding empty node_of encode_all starts
empty-node_of hint = refl

pub push_child-node_of :
    (id : PageId) (ks : List Bytes) (cs : List PageId) (c : PageId)
    → push_child (node_of id ks cs) c ≡ node_of id ks (cs ++ c ∷ [])
unfolding push_child node_of
push_child-node_of id ks cs c = refl

may_push-node_of :
    (id : PageId) (ks : List Bytes) (cs : List PageId) (k : Bytes)
    → IsKeys (ks ++ k ∷ [])
    → may_push (node_of id ks cs) k ≡ done true
unfolding may_push
may_push-node_of id [] cs k h = rw (nkeys-node_of id [] cs (omega arith))
may_push-node_of id (x ∷ ks) cs k h =
    let whole = IsKeys-front (x ∷ ks) (k ∷ []) h in
    let (e, at) = get_elem?_lt (x ∷ ks) (length ks) (omega arith) in
    let last : suc (length ks) - 1 ≡ length ks = omega arith in
    rw
      (
        nkeys-node_of id (x ∷ ks) cs whole.small,
        sub_checked_fits (suc (length ks)) 1 (omega arith),
        last,
        get_key-node_of id (x ∷ ks) cs (length ks) e at,
        lt_bytes_of e k (ascending_last (x ∷ ks) k (length ks) e h.ascending at),
      )
      (ground arith)

appended :
    (ks : List Bytes) (k : Bytes)
    → IsSmall (ks ++ k ∷ [])
    → encode_all ks ++ (to_le_bytes 2 (length k % u16_mod) ++ k) ≡ encode_all (ks ++ k ∷ [])
unfolding encode_all encode
appended ks k small =
    let t = total-append ks (k ∷ []) in
    let fits : length k % u16_mod ≡ length k = omega arith in
    rw fits
      (sym (encode_all-append ks (k ∷ []) ∙ ap (λ t. encode_all ks ++ t) (append-nil (encode k))))

-- A push appends the key and leaves the children.
pub push_key-node_of :
    (id : PageId) (ks : List Bytes) (cs : List PageId) (k : Bytes)
    → IsKeys (ks ++ k ∷ [])
    → push_key (node_of id ks cs) k ≡ done (node_of id (ks ++ k ∷ []) cs)
unfolding push_key node_of
push_key-node_of id ks cs k h =
    let end : length (encode_all (ks ++ k ∷ [])) % u16_mod ≡ 0 + total (ks ++ k ∷ []) =
      omega (arith, length-encode_all (ks ++ k ∷ []), h.small) in
    rw (may_push-node_of id ks cs k h, appended ks k h.small, end, starts-snoc 0 ks k)

pub push_keys-node_of :
    (count : ℕ) (acc : List Bytes) (ds : List PageId) (id : PageId) (ks : List Bytes)
    (cs : List PageId) (i : ℕ) (out : List Bytes)
    → i + count ≤ length ks
    → acc ++ take count (drop i ks) ≡ out
    → IsKeys out
    → push_keys count (node_of 0 acc ds) (node_of id ks cs) i ≡ done (node_of 0 out ds)
unfolding push_keys
push_keys-node_of zero acc ds id ks cs i out h e good =
    ap (λ o. done (node_of 0 o ds)) (sym (append-nil acc) ∙ e)
push_keys-node_of (suc count) acc ds id ks cs i out h e good =
    let (x, at) = get_elem?_lt ks i (omega arith) in
    let tail = take count (drop (suc i) ks) in
    let split : (acc ++ x ∷ []) ++ tail ≡ out =
      append_assoc acc (x ∷ []) tail
      ∙ (ap (λ t. acc ++ take (suc count) t) (sym (drop-suc ks i x at)) ∙ e) in
    rw
      (
        get_key-node_of id ks cs i x at,
        push_key-node_of 0 acc ds x (IsKeys-front (acc ++ x ∷ []) tail (rw split good)),
        add-one i,
      )
      (push_keys-node_of count (acc ++ x ∷ []) ds id ks cs (suc i) out (omega arith) split good)

pub push_children-node_of :
    (count : ℕ) (js : List Bytes) (acc : List PageId) (id : PageId) (ks : List Bytes)
    (cs : List PageId) (i : ℕ)
    → i + count ≤ length cs
    → push_children count (node_of 0 js acc) (node_of id ks cs) i
      ≡ done (node_of 0 js (acc ++ take count (drop i cs)))
unfolding push_children
push_children-node_of zero js acc id ks cs i h =
    ap (λ o. done (node_of 0 js o)) (sym (append-nil acc))
push_children-node_of (suc count) js acc id ks cs i h =
    let (c, at) = get_elem?_lt cs i (omega arith) in
    let tail = take count (drop (suc i) cs) in
    rw
      (
        get_child-node_of id ks cs i c at,
        push_child-node_of 0 js acc c,
        add-one i,
        push_children-node_of count js (acc ++ c ∷ []) id ks cs (suc i) (omega arith),
      )
      (ap (λ o. done (node_of 0 js o))
        (append_assoc acc (c ∷ []) tail
          ∙ ap (λ t. acc ++ take (suc count) t) (sym (drop-suc cs i c at))))

-- The keys in front of an index, copied to an empty node.
pub push_keys_front :
    (hint : ℕ) (id : PageId) (ks : List Bytes) (cs : List PageId) (n : ℕ)
    → n ≤ length ks
    → IsKeys (take n ks)
    → push_keys n (empty hint) (node_of id ks cs) 0 ≡ done (node_of 0 (take n ks) [])
push_keys_front hint id ks cs n h good =
    rw (empty-node_of hint)
      (push_keys-node_of n [] [] id ks cs 0 (take n ks) (omega arith) refl good)
