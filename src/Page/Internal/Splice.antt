-- ===== src/Page/Internal/Splice.antt =====
-- `internal_replace_child` and `internal_insert_split_child` on the lists of keys and children.
use ucu_de_distributed_algor.Prelude.{
  ℕ, zero, suc, ◌+◌, ◌-◌, ◌≤◌, ◌<◌, ◌≡◌, sym, ap, ◌∙◌, false, some, List, [], ◌∷◌, ◌++◌, append-nil,
  append_assoc, arith, ◌==◌, if◌then◌else◌, ==_self, length, get_elem?, take, drop, length-drop,
  take_all, drop-suc, get_elem?_lt, set, length-set, get_elem?-set_self, get_elem?-set_ne, done,
}
use ucu_de_distributed_algor.Bytes.{Bytes}
use mathlib.Core.Option.{some-injective}
use native.Mathlib.Decide.{ℕ_discrete}
use native.Mathlib.Numerals.{add-one}
use ucu_de_distributed_algor.Page.Tags.{PageId, add_u16_fits}
use ucu_de_distributed_algor.Page.Internal.{
  get_child, replace_loop, internal_replace_child, internal_insert_split_child,
}
use ucu_de_distributed_algor.Page.Internal.View.{
  node_of, IsSmall, nkeys-node_of, nchildren-node_of, get_child-node_of, length-le-total,
}
use ucu_de_distributed_algor.Page.Internal.Edit.{
  IsKeys, IsKeys-front, push_child-node_of, push_key-node_of, push_keys-node_of,
  push_children-node_of, push_keys_front,
}

-- The child that the loop pushes at an index.
replaced :
    (id : PageId) (ks : List Bytes) (cs : List PageId) (i idx : ℕ) (new c : PageId)
    → i < length cs
    → get_elem? (set cs idx new) i ≡ some c
    → (if i == idx then done new else get_child (node_of id ks cs) i) ≡ done c
replaced id ks cs i idx new c h e = elim (ℕ_discrete idx i) [
  | yes same ↦
      let there : get_elem? (set cs idx new) idx ≡ some new =
        get_elem?-set_self cs idx new (omega arith) in
      let back : get_elem? (set cs idx new) idx ≡ some c =
        ap (get_elem? (set cs idx new)) same ∙ e in
      rw (same, ==_self i) (ap done (some-injective _ _ (sym there ∙ back)))
  | no other ↦
      let apart : (i == idx) ≡ false = ground arith in
      rw apart (get_child-node_of id ks cs i c (sym (get_elem?-set_ne cs idx i new other) ∙ e))
]

replace_loop-node_of :
    (count : ℕ) (js : List Bytes) (acc : List PageId) (id : PageId) (ks : List Bytes)
    (cs : List PageId) (i idx : ℕ) (new : PageId)
    → i + count ≤ length cs
    → replace_loop count (node_of 0 js acc) (node_of id ks cs) i idx new
      ≡ done (node_of 0 js (acc ++ take count (drop i (set cs idx new))))
unfolding replace_loop
replace_loop-node_of zero js acc id ks cs i idx new h =
    ap (λ o. done (node_of 0 js o)) (sym (append-nil acc))
replace_loop-node_of (suc count) js acc id ks cs i idx new h =
    let (c, at) = get_elem?_lt (set cs idx new) i (rw (length-set cs idx new) (omega arith)) in
    let tail = take count (drop (suc i) (set cs idx new)) in
    rw
      (
        replaced id ks cs i idx new c (omega arith) at,
        push_child-node_of 0 js acc c,
        add-one i,
        replace_loop-node_of count js (acc ++ c ∷ []) id ks cs (suc i) idx new (omega arith),
      )
      (ap (λ o. done (node_of 0 js o))
        (append_assoc acc (c ∷ []) tail
          ∙ ap (λ t. acc ++ take (suc count) t) (sym (drop-suc (set cs idx new) i c at))))

-- On a node with ascending keys, with offsets that fit 16 bits and with one child more than keys,
-- replacing a child keeps every key and every other child; an index out of range replaces nothing.
-- The node that results has no id of its own yet.
pub internal_replace_child-node_of :
    (id : PageId) (ks : List Bytes) (cs : List PageId) (idx : ℕ) (new : PageId)
    → IsKeys ks
    → length cs ≡ suc (length ks)
    → internal_replace_child (node_of id ks cs) idx new ≡ done (node_of 0 ks (set cs idx new))
unfolding internal_replace_child
internal_replace_child-node_of id ks cs idx new good l =
    let all : take (length ks) ks ≡ ks = take_all (length ks) ks (omega arith) in
    rw
      (
        nkeys-node_of id ks cs good.small,
        push_keys_front (length ((node_of id ks cs).keys)) id ks cs (length ks) (omega arith)
            (rw all good),
        all,
        nchildren-node_of id ks cs good.small,
        replace_loop-node_of (suc (length ks)) ks [] id ks cs 0 idx new (omega arith),
      )
      (ap (λ o. done (node_of 0 ks o))
        (take_all (suc (length ks)) (set cs idx new) (omega (arith, length-set cs idx new))))

-- On a node with offsets that fit 16 bits and one child more than keys, at an index up to the number
-- of keys: if the keys with the separator put in ascend and their offsets fit 16 bits, a split
-- child's two halves take its place, with the separator between them, and every other key and child
-- stays.
pub internal_insert_split_child-node_of :
    (id : PageId) (ks : List Bytes) (cs : List PageId) (idx : ℕ) (sep : Bytes) (left right : PageId)
    → IsSmall ks
    → length cs ≡ suc (length ks)
    → idx ≤ length ks
    → IsKeys (take idx ks ++ (sep ∷ drop idx ks))
    → internal_insert_split_child (node_of id ks cs) idx sep left right
      ≡ done (
          node_of 0
            (take idx ks ++ (sep ∷ drop idx ks))
            (take idx cs ++ (left ∷ (right ∷ drop (suc idx) cs))))
unfolding internal_insert_split_child
internal_insert_split_child-node_of id ks cs idx sep left right small l h good =
    let front = take idx ks in
    let grown = front ++ (sep ∷ drop idx ks) in
    let both = append_assoc front (sep ∷ []) (drop idx ks) in
    let rest : take (length ks - idx) (drop idx ks) ≡ drop idx ks =
      take_all (length ks - idx) (drop idx ks) (omega (arith, length-drop idx ks)) in
    let cs_front : List PageId = take idx cs in
    let cs_rest : take (suc (length ks) - suc idx) (drop (suc idx) cs) ≡ drop (suc idx) cs =
      take_all (suc (length ks) - suc idx) (drop (suc idx) cs)
        (omega (arith, length-drop (suc idx) cs)) in
    rw
      (
        push_keys_front (length ((node_of id ks cs).keys) + 2 + length sep) id ks cs idx h
            (IsKeys-front front (sep ∷ drop idx ks) good),
        push_key-node_of 0 front [] sep
            (IsKeys-front (front ++ sep ∷ []) (drop idx ks) (rw both good)),
        nkeys-node_of id ks cs small,
        push_keys-node_of (length ks - idx) (front ++ sep ∷ []) [] id ks cs idx grown (omega arith)
            (ap (λ t. (front ++ sep ∷ []) ++ t) rest ∙ both) good,
        push_children-node_of idx grown [] id ks cs 0 (omega arith),
        push_child-node_of 0 grown cs_front left,
        push_child-node_of 0 grown (cs_front ++ left ∷ []) right,
        add_u16_fits idx 1 (omega (arith, length-le-total ks)),
        add-one idx,
        nchildren-node_of id ks cs small,
        push_children-node_of (suc (length ks) - suc idx) grown
            ((cs_front ++ left ∷ []) ++ right ∷ []) id ks cs (suc idx) (omega arith),
        cs_rest,
      )
      (ap (λ o. done (node_of 0 grown o))
        (append_assoc (cs_front ++ left ∷ []) (right ∷ []) (drop (suc idx) cs)
          ∙ append_assoc cs_front (left ∷ []) (right ∷ drop (suc idx) cs)))
