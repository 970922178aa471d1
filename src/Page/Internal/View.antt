-- ===== src/Page/Internal/View.antt =====
-- An internal node as its list of separator keys and its list of children.
use ucu_de_distributed_algor.Prelude.{
  ℕ, zero, suc, ◌+◌, ◌-◌, ◌*◌, ◌%◌, ◌≤◌, ◌<◌, ◌≡◌, refl, sym, ap, ◌∙◌, some, List, [], ◌∷◌, ◌++◌,
  append_assoc, arith, length, get_elem?, take, drop, length-append, get_elem?-split, take-suc,
  done,
}
use ucu_de_distributed_algor.Bytes.{Bytes, to_le_bytes, index}
use ucu_de_distributed_algor.Bytes.Laws.{index-some, length-snoc_le, slice_at}
use ucu_de_distributed_algor.Bytes.Words.{length-to_le_bytes}
use native.Mathlib.Nat.{zero-add, add-zero}
use native.Mathlib.Numerals.{add-one}
use ucu_de_distributed_algor.Page.Tags.{PageId, u16_mod, add_u16_fits, sub_checked_fits}
use ucu_de_distributed_algor.Page.Internal.{
  InternalNode, internal_header, nkeys, nchildren, get_key, get_child, nbytes,
}

-- `key_len(2B) | key`
unfoldable pub encode : Bytes → Bytes
encode k = to_le_bytes 2 (length k) ++ k

abbrev pub size : Bytes → ℕ
size k = 2 + length k

abbrev pub total : List Bytes → ℕ
total [] = 0
total (k ∷ ks) = size k + total ks

unfoldable pub encode_all : List Bytes → Bytes
encode_all [] = []
encode_all (k ∷ ks) = encode k ++ encode_all ks

-- The offset of each key, and the end.
unfoldable pub starts : ℕ → List Bytes → List ℕ
starts b [] = b ∷ []
starts b (k ∷ ks) = b ∷ starts (b + size k) ks

-- The node that holds the keys `ks` and the children `cs`.
unfoldable pub node_of : PageId → List Bytes → List PageId → InternalNode
node_of id ks cs = record { id = id; keys = encode_all ks; key_start = starts 0 ks; children = cs }

-- The keys' offsets fit `u16`.
abbrev pub IsSmall : List Bytes → Type 0
IsSmall ks = total ks < u16_mod

pub length-encode : (k : Bytes) → length (encode k) ≡ size k
unfolding encode
length-encode k = rw (length-append (to_le_bytes 2 (length k)) k, length-to_le_bytes 2 (length k))

pub length-encode_all : (ks : List Bytes) → length (encode_all ks) ≡ total ks
unfolding encode_all
length-encode_all [] = refl
length-encode_all (k ∷ ks) = rw length-append (omega (arith, length-encode k, length-encode_all ks))

pub encode_all-append :
    (xs ys : List Bytes) → encode_all (xs ++ ys) ≡ encode_all xs ++ encode_all ys
unfolding encode_all
encode_all-append [] ys = refl
encode_all-append (k ∷ xs) ys =
    ap (λ t. encode k ++ t) (encode_all-append xs ys) ∙ sym (append_assoc (encode k) _ _)

pub total-append : (xs ys : List Bytes) → total (xs ++ ys) ≡ total xs + total ys
total-append [] ys = omega arith
total-append (k ∷ xs) ys = omega (arith, total-append xs ys)

pub total-split : (n : ℕ) (ks : List Bytes) → total (take n ks) + total (drop n ks) ≡ total ks
total-split zero ks = omega arith
total-split (suc n) [] = omega arith
total-split (suc n) (k ∷ ks) = omega (arith, total-split n ks)

pub length-le-total : (ks : List Bytes) → 2 * length ks ≤ total ks
length-le-total [] = omega arith
length-le-total (k ∷ ks) = omega (arith, length-le-total ks)

pub length-starts : (b : ℕ) (ks : List Bytes) → length (starts b ks) ≡ suc (length ks)
unfolding starts
length-starts b [] = refl
length-starts b (k ∷ ks) = ap suc (length-starts (b + size k) ks)

pub starts-at :
    (b : ℕ) (ks : List Bytes) (i : ℕ)
    → i ≤ length ks
    → get_elem? (starts b ks) i ≡ some (b + total (take i ks))
unfolding starts
starts-at b [] zero h = ap some (omega arith)
starts-at b [] (suc i) h = absurd (omega arith)
starts-at b (k ∷ ks) zero h = ap some (omega arith)
starts-at b (k ∷ ks) (suc i) h = starts-at (b + size k) ks i (omega arith) ∙ ap some (omega arith)

pub starts-index :
    (ks : List Bytes) (i : ℕ) → i ≤ length ks → index (starts 0 ks) i ≡ done (total (take i ks))
starts-index ks i h =
    index-some (starts 0 ks) i (starts-at 0 ks i h ∙ ap some (zero-add (total (take i ks))))

pub starts-snoc :
    (b : ℕ) (ks : List Bytes) (k : Bytes)
    → starts b (ks ++ k ∷ []) ≡ starts b ks ++ (b + total (ks ++ k ∷ [])) ∷ []
unfolding starts
starts-snoc b [] k =
    let end : b + size k ≡ b + (size k + 0) = omega arith in ap (λ n. b ∷ n ∷ []) end
starts-snoc b (x ∷ ks) k =
    let end : b + size x + total (ks ++ k ∷ []) ≡ b + (size x + total (ks ++ k ∷ [])) =
      omega arith in
    ap (λ t. b ∷ t) (starts-snoc (b + size x) ks k)
    ∙ ap (λ n. b ∷ (starts (b + size x) ks ++ n ∷ [])) end

pub total-take-suc :
    (ks : List Bytes) (m : ℕ) (k : Bytes)
    → get_elem? ks m ≡ some k
    → total (take (suc m) ks) ≡ total (take m ks) + size k
total-take-suc ks m k h =
    ap total (take-suc ks m k h)
    ∙ (total-append (take m ks) (k ∷ []) ∙ ap (λ n. total (take m ks) + n) (add-zero (size k)))

pub nkeys-node_of :
    (id : PageId) (ks : List Bytes) (cs : List PageId)
    → IsSmall ks
    → nkeys (node_of id ks cs) ≡ done (length ks)
unfolding nkeys node_of
nkeys-node_of id ks cs small =
    let fits : (suc (length ks) - 1) % u16_mod ≡ length ks = omega (arith, length-le-total ks) in
    rw (length-starts 0 ks, sub_checked_fits (suc (length ks)) 1 (omega arith)) (ap done fits)

pub nchildren-node_of :
    (id : PageId) (ks : List Bytes) (cs : List PageId)
    → IsSmall ks
    → nchildren (node_of id ks cs) ≡ done (suc (length ks))
unfolding nchildren
nchildren-node_of id ks cs small = rw (
  nkeys-node_of id ks cs small,
  add_u16_fits (length ks) 1 (omega (arith, length-le-total ks)),
  add-one (length ks),
)

pub nbytes-node_of :
    (id : PageId) (ks : List Bytes) (cs : List PageId)
    → nbytes (node_of id ks cs) ≡ internal_header + total ks + 8 * length cs
unfolding nbytes node_of
nbytes-node_of id ks cs = rw (length-encode_all ks)

-- The accessors read the key and the child at an index in range.
pub get_key-node_of :
    (id : PageId) (ks : List Bytes) (cs : List PageId) (i : ℕ) (k : Bytes)
    → get_elem? ks i ≡ some k
    → get_key (node_of id ks cs) i ≡ done k
unfolding get_key node_of
get_key-node_of id ks cs i k here =
    let (split, inside) = get_elem?-split ks i k here in
    let before = encode_all (take i ks) in
    let behind = encode_all (drop (suc i) ks) in
    let kb = to_le_bytes 2 (length k) in
    let whole : encode_all ks ≡ before ++ (encode k ++ behind) =
      ap encode_all split
      ∙ (encode_all-append (take i ks) (k ∷ drop (suc i) ks)
          ∙ encoded before k (drop (suc i) ks)) in
    let at_key : encode_all ks ≡ (before ++ kb) ++ (k ++ behind) = whole ∙ around before k behind in
    rw (starts-index ks i (omega arith), add-one i, starts-index ks (suc i) (omega arith))
      (slice_at (encode_all ks) (before ++ kb) k behind (total (take i ks) + 2)
        (total (take (suc i) ks)) at_key
        (length-snoc_le 2 (length k) before (total (take i ks)) (total (take i ks) + 2)
          (length-encode_all (take i ks)) refl)
        (omega (arith, total-take-suc ks i k here)))
  where
    encoded :
        (p : Bytes) (k : Bytes) (rest : List Bytes)
        → p ++ encode_all (k ∷ rest) ≡ p ++ (encode k ++ encode_all rest)
    encoded p k rest = unfold encode_all in refl

    around : (p k t : Bytes) → p ++ (encode k ++ t) ≡ (p ++ to_le_bytes 2 (length k)) ++ (k ++ t)
    around p k t = unfold encode in simp append_assoc

pub get_child-node_of :
    (id : PageId) (ks : List Bytes) (cs : List PageId) (i : ℕ) (c : PageId)
    → get_elem? cs i ≡ some c
    → get_child (node_of id ks cs) i ≡ done c
unfolding get_child node_of
get_child-node_of id ks cs i c here = index-some cs i here
