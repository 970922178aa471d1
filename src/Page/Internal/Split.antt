-- ===== src/Page/Internal/Split.antt =====
-- `internal_split_with_promotion`: where it cuts, and that both halves fit a page.
use ucu_de_distributed_algor.Prelude.{
  ℕ, zero, suc, ◌+◌, ◌-◌, ◌*◌, ◌/◌, ◌%◌, ◌≤◌, ◌<◌, ◌≡◌, refl, ap, ◌∙◌, some, List, [], ◌∷◌, arith,
  lt→ltb, le→leb, le→ltb_false, length, get_elem?, take, drop, All, length-drop, take-append-drop,
  take_all, drop_all, get_elem?-split, drop-suc, get_elem?_lt, All-get, done,
}
use ucu_de_distributed_algor.Bytes.{Bytes}
use native.Mathlib.Decide.{dec_lt}
use native.Mathlib.Numerals.{add-one}
use native.Mathlib.Nat.{add-zero}
use ucu_de_distributed_algor.Page.Tags.{
  PageId, u16_mod, add_u16_fits, mul_u16_fits, sub_checked_fits,
}
use ucu_de_distributed_algor.Page.Internal.{
  internal_header, left_bytes, right_bytes, shrink_left, shrink_right, split_point, split_around,
  internal_split_with_promotion,
}
use ucu_de_distributed_algor.Page.Internal.View.{
  size, total, encode_all, node_of, total-split, total-take-suc, starts-index, length-encode_all,
  nkeys-node_of, get_key-node_of,
}
use ucu_de_distributed_algor.Page.Internal.Edit.{
  IsKeys, IsKeys-front, IsKeys-back, empty-node_of, push_keys-node_of, push_children-node_of,
  push_keys_front,
}

-- A node that is too long for a page of `ps` bytes by one key and child at most. `each` is what
-- `check_limits` leaves of a key; `whole` adds one such key and a child to a page that is full.
pub record IsOverfull (ps : ℕ) (ks : List Bytes) (cs : List PageId) : Type 0 where
  pub keys : IsKeys ks
  pub children : length cs ≡ suc (length ks)
  pub page_fits : ps < u16_mod
  pub bytes_fit : internal_header + total ks + 8 * suc (length ks) < u16_mod
  pub each : All (λ k. 2 * size k + 35 ≤ ps) ks
  pub whole : 2 * total ks + 16 * length ks + 57 ≤ 3 * ps
  pub over : ps < internal_header + total ks + 8 * suc (length ks)

-- Two keys and three children always fit.
three_keys :
    (ps : ℕ) (ks : List Bytes)
    → All (λ k. 2 * size k + 35 ≤ ps) ks
    → ps < internal_header + total ks + 8 * suc (length ks)
    → 19 ≤ ps
    → 3 ≤ length ks
three_keys ps [] a over h = absurd (omega arith)
three_keys ps (x ∷ []) a over h = absurd (omega (arith, a.0))
three_keys ps (x ∷ y ∷ []) a over h = absurd (omega (arith, a.0, a.1.0))
three_keys ps (x ∷ y ∷ z ∷ ks) a over h = omega arith

abbrev pub left_size : List Bytes → ℕ → ℕ
left_size ks m = internal_header + total (take m ks) + 8 * suc m

abbrev pub right_size : List Bytes → ℕ → ℕ
right_size ks m = internal_header + total (drop (suc m) ks) + 8 * (length ks - m)

module _ (id : PageId) (ks : List Bytes) (cs : List PageId)
    (fit : internal_header + total ks + 8 * suc (length ks) < u16_mod) where
  left_bytes-node_of :
      (m : ℕ) → m ≤ length ks → left_bytes (node_of id ks cs) m ≡ done (left_size ks m)
  unfolding left_bytes node_of
  left_bytes-node_of m h =
      rw
        (
          starts-index ks m h,
          add_u16_fits internal_header (total (take m ks)) (omega (arith, total-split m ks)),
          add_u16_fits m 1 (omega arith),
          add-one m,
          mul_u16_fits 8 (suc m) (omega arith),
        )
        (add_u16_fits (internal_header + total (take m ks)) (8 * suc m)
          (omega (arith, total-split m ks)))

  right_bytes-node_of :
      (m : ℕ)
      → m < length ks
      → right_bytes (node_of id ks cs) (length ks) m ≡ done (right_size ks m)
  unfolding right_bytes node_of
  right_bytes-node_of m h =
      let len : length (encode_all ks) % u16_mod ≡ total ks = omega (arith, length-encode_all ks) in
      let rest : total ks - total (take (suc m) ks) ≡ total (drop (suc m) ks) =
        omega (arith, total-split (suc m) ks) in
      rw
        (
          add_u16_fits m 1 (omega arith),
          add-one m,
          starts-index ks (suc m) h,
          len,
          sub_checked_fits (total ks) (total (take (suc m) ks))
              (omega (arith, total-split (suc m) ks)),
          rest,
          add_u16_fits internal_header (total (drop (suc m) ks))
              (omega (arith, total-split (suc m) ks)),
          sub_checked_fits (length ks) m (omega arith),
          mul_u16_fits 8 (length ks - m) (omega arith),
        )
        (add_u16_fits (internal_header + total (drop (suc m) ks)) (8 * (length ks - m))
          (omega (arith, total-split (suc m) ks)))

total-drop_last :
    (ks : List Bytes) (m : ℕ) (k : Bytes)
    → get_elem? ks m ≡ some k
    → suc m ≡ length ks
    → total (drop m ks) ≡ size k
total-drop_last ks m k h l =
    let rest : drop m ks ≡ k ∷ [] =
      drop-suc ks m k h ∙ ap (λ t. k ∷ t) (drop_all (suc m) ks (omega arith)) in
    ap total rest ∙ add-zero (size k)

module _ (ps : ℕ) (id : PageId) (ks : List Bytes) (cs : List PageId) (o : IsOverfull ps ks cs) where
  key_fits : (m : ℕ) (k : Bytes) → get_elem? ks m ≡ some k → 2 * size k + 35 ≤ ps
  key_fits m k h = All-get (λ x. 2 * size x + 35 ≤ ps) ks m k h o.each

  more_than_one : (m : ℕ) (k : Bytes) → get_elem? ks m ≡ some k → ps < left_size ks (suc m) → 1 ≤ m
  more_than_one zero k here big =
      absurd (omega (arith, total-take-suc ks 0 k here, key_fits 0 k here))
  more_than_one (suc m) k here big = omega arith

  shrink_left-fits :
      (m : ℕ)
      → m ≤ length ks
      → 19 ≤ ps
      → (r : ℕ) × (shrink_left (node_of id ks cs) ps m ≡ done r)
        × (r ≤ m)
        × (1 ≤ m → 1 ≤ r)
        × (left_size ks r ≤ ps)
  unfolding shrink_left
  shrink_left-fits zero h p = (0, refl, omega arith, λ l. l, omega arith)
  shrink_left-fits (suc m) h p = elim (dec_lt ps (left_size ks (suc m))) [
    | yes big ↦
        let (k, here) = get_elem?_lt ks m (omega arith) in
        let (r, eq, le, pos, fits) = shrink_left-fits m (omega arith) p in
        (
          r,
          rw (left_bytes-node_of id ks cs o.bytes_fit (suc m) h, lt→ltb ps _ big) eq,
          omega arith,
          λ l. pos (more_than_one m k here big),
          fits,
        )
    | no fits ↦ (
      suc m,
      rw (
        left_bytes-node_of id ks cs o.bytes_fit (suc m) h,
        le→ltb_false ps (left_size ks (suc m)) (omega arith),
      ),
      omega arith,
      λ l. l,
      omega arith,
    )
  ]

  -- A cut in front of the last key but one leaves more than that key on the right.
  not_last :
      (m : ℕ) → suc (suc m) ≤ length ks → ps < right_size ks m → suc (suc (suc m)) ≤ length ks
  not_last m h big =
      let (k, here) = get_elem?_lt ks (suc m) (omega arith) in
      elim (dec_lt (suc (suc m)) (length ks)) [
        | yes l ↦ omega arith
        | no l ↦ absurd (
            omega (arith, total-drop_last ks (suc m) k here (omega arith), key_fits (suc m) k here))
      ]

  shrink_right-fits :
      (left m : ℕ)
      → suc (m + left) ≡ length ks
      → suc (suc m) ≤ length ks
      → left_size ks m ≤ ps
      → (r : ℕ) × (shrink_right (node_of id ks cs) ps (length ks) left m ≡ done r)
        × (m ≤ r)
        × (suc (suc r) ≤ length ks)
        × (left_size ks r ≤ ps)
        × (right_size ks r ≤ ps)
  unfolding shrink_right
  shrink_right-fits zero m e h fits = absurd (omega arith)
  shrink_right-fits (suc left) m e h fits = elim (dec_lt ps (right_size ks m)) [
    | yes big ↦
        let (k, here) = get_elem?_lt ks m (omega arith) in
        let (r, eq, le, lt, l, d) =
          shrink_right-fits left (suc m) (omega arith) (not_last m h big)
            (omega (arith, total-split (suc m) ks, o.whole)) in
        (
          r,
          rw (right_bytes-node_of id ks cs o.bytes_fit m (omega arith), lt→ltb ps _ big, add-one m)
              eq,
          omega arith,
          lt,
          l,
          d,
        )
    | no small ↦ (
      m,
      rw (
        right_bytes-node_of id ks cs o.bytes_fit m (omega arith),
        le→ltb_false ps (right_size ks m) (omega arith),
      ),
      omega arith,
      h,
      fits,
      omega arith,
    )
  ]

split_around-node_of :
    (ps : ℕ) (id : PageId) (ks : List Bytes) (cs : List PageId) (m : ℕ) (k : Bytes)
    → IsKeys ks
    → length cs ≡ suc (length ks)
    → get_elem? ks m ≡ some k
    → split_around (node_of id ks cs) (length ks) ps m
      ≡ done (
        node_of 0 (take m ks) (take (suc m) cs),
        k,
        node_of 0 (drop (suc m) ks) (drop (suc m) cs),
      )
unfolding split_around
split_around-node_of ps id ks cs m k good l here =
    let n = length ks in
    let inside = (get_elem?-split ks m k here).1 in
    let keys_rest : take (n - suc m) (drop (suc m) ks) ≡ drop (suc m) ks =
      take_all (n - suc m) (drop (suc m) ks) (omega (arith, length-drop (suc m) ks)) in
    let cs_rest : take (n + 1 - suc m) (drop (suc m) cs) ≡ drop (suc m) cs =
      take_all (n + 1 - suc m) (drop (suc m) cs) (omega (arith, length-drop (suc m) cs)) in
    rw (
      push_keys_front ps id ks cs m (omega arith)
          (IsKeys-front (take m ks) (drop m ks) (rw (take-append-drop m ks) good)),
      add-one m,
      push_children-node_of (suc m) (take m ks) [] id ks cs 0 (omega arith),
      get_key-node_of id ks cs m k here,
      empty-node_of ps,
      push_keys-node_of (n - suc m) [] [] id ks cs (suc m) (drop (suc m) ks) (omega arith) keys_rest
          (IsKeys-back (take (suc m) ks) (drop (suc m) ks) (rw (take-append-drop (suc m) ks) good)),
      push_children-node_of (n + 1 - suc m) (drop (suc m) ks) [] id ks cs (suc m) (omega arith),
      cs_rest,
    )

split_point-fits :
    (ps : ℕ) (id : PageId) (ks : List Bytes) (cs : List PageId)
    → 19 ≤ ps
    → IsOverfull ps ks cs
    → (m : ℕ) × (split_point (node_of id ks cs) (length ks) ps ≡ done m)
      × (1 ≤ m)
      × (suc (suc m) ≤ length ks)
      × (left_size ks m ≤ ps)
      × (right_size ks m ≤ ps)
unfolding split_point
split_point-fits ps id ks cs p o =
    let n = length ks in
    let three = three_keys ps ks o.each o.over p in
    let (a, left_run, a_le, a_pos, a_fits) =
      shrink_left-fits ps id ks cs o (n / 2) (omega arith) p in
    let (m, right_run, a_le_m, m_lt, front_fits, back_fits) =
      shrink_right-fits ps id ks cs o (n - 1 - a) a (omega arith) (omega arith) a_fits in
    let a_one = a_pos (omega arith) in
    (
      m,
      rw (
        left_run,
        le→leb 1 a a_one,
        sub_checked_fits n 1 (omega arith),
        right_run,
        sub_checked_fits n 2 (omega arith),
        le→leb m (n - 2) (omega arith),
        left_bytes-node_of id ks cs o.bytes_fit m (omega arith),
        le→leb (left_size ks m) ps front_fits,
        right_bytes-node_of id ks cs o.bytes_fit m (omega arith),
        le→leb (right_size ks m) ps back_fits,
      ),
      omega arith,
      m_lt,
      front_fits,
      back_fits,
    )

-- An internal node with ascending keys and one child more than keys, the bytes of each key at most
-- half of what 39 bytes leave of the page, that is longer than its page, by one such separator and a child at most, where the page
-- has 19 bytes or more and page and node are below 65536 bytes: the split returns, the key at some
-- index inside is promoted and leaves both halves, the keys and children in front of it and behind it
-- are kept in their order with none lost, neither half is without a key, and each half with its
-- header fits the page.
pub internal_split_with_promotion-fits :
    (ps : ℕ) (id : PageId) (ks : List Bytes) (cs : List PageId)
    → 19 ≤ ps
    → IsOverfull ps ks cs
    → (m : ℕ) × (k : Bytes) × (get_elem? ks m ≡ some k)
      × (internal_split_with_promotion (node_of id ks cs) ps
          ≡ done (
            node_of 0 (take m ks) (take (suc m) cs),
            k,
            node_of 0 (drop (suc m) ks) (drop (suc m) cs),
          ))
      × (1 ≤ m)
      × (suc (suc m) ≤ length ks)
      × (left_size ks m ≤ ps)
      × (right_size ks m ≤ ps)
unfolding internal_split_with_promotion
internal_split_with_promotion-fits ps id ks cs p o =
    let n = length ks in
    let three = three_keys ps ks o.each o.over p in
    let (m, point, m_pos, m_lt, front_fits, back_fits) = split_point-fits ps id ks cs p o in
    let (k, here) = get_elem?_lt ks m (omega arith) in
    let ps_exact : ps % u16_mod ≡ ps = omega (arith, o.page_fits) in
    (
      m,
      k,
      here,
      rw
          (
            nkeys-node_of id ks cs o.keys.small,
            le→leb 2 n (omega arith),
            lt→ltb ps u16_mod o.page_fits,
            ps_exact,
            point,
          )
          (split_around-node_of ps id ks cs m k o.keys o.children here),
      m_pos,
      m_lt,
      front_fits,
      back_fits,
    )
