-- ===== src/Page/Leaf/Search.antt =====
-- `leaf_search` on a node with ascending keys.
use ucu_de_distributed_algor.Prelude.{
  ℕ, zero, suc, ◌+◌, ◌-◌, ◌/◌, ◌≤◌, ◌<◌, Ordering, ◌≡◌, refl, sym, ap, ◌∙◌, ◌⊎◌, inl, inr, true,
  false, some, List, arith, length-map, length, get_elem?, get_elem?-split, get_elem?_lt, Run, done,
}
use ucu_de_distributed_algor.Bytes.{Bytes, cmp}
use ucu_de_distributed_algor.Bytes.Order.{◌≺◌, eq_of_cmp, lt_of_gt, lt_trans}
use mathlib.Core.Option.{some-injective}
use native.Mathlib.Decide.{dec_lt, ℕ_discrete}
use ucu_de_distributed_algor.Prelude.Int.{pos, ◌+ℤ◌, ◌-ℤ◌, sub_ℕ, leb_ℤ, half_ℤ, to_u16}
use ucu_de_distributed_algor.Page.Tags.{PageId, u16_mod}
use ucu_de_distributed_algor.Page.Keys.{IsAscending, ascending_at}
use ucu_de_distributed_algor.Page.Leaf.{Found, at, belongs_at, search_loop, leaf_search}
use ucu_de_distributed_algor.Page.Leaf.View.{
  Entry, key_of, keys, leaf_of, IsSmall, nkeys-leaf_of, get_key-leaf_of, length-le-total,
  get_elem?-keys,
}

-- The place of `q` in a list of keys: an index that holds it, or the index that splits the keys
-- below it from those above it.
abbrev pub IsPlace : List Bytes → Bytes → Found → Type 0
IsPlace ks q (at i) = get_elem? ks i ≡ some q
IsPlace ks q (belongs_at i) =
    (i ≤ length ks)
    × ((j : ℕ) (k : Bytes) → get_elem? ks j ≡ some k → j < i → k ≺ q)
    × ((j : ℕ) (k : Bytes) → get_elem? ks j ≡ some k → i ≤ j → q ≺ k)

-- The middle of the range from `lo` to `hi`, the latter outside it.
mid : ℕ → ℕ → ℕ
mid lo hi = lo + (hi - 1 - lo) / 2

mid_bounds : (lo hi : ℕ) → lo < hi → (lo ≤ mid lo hi) × (mid lo hi < hi)
unfolding mid
mid_bounds lo hi h = omega arith

-- The source's bounds are `i32` and its `hi` stands inside the range.
midpoint : (lo hi : ℕ) → lo < hi → pos lo +ℤ half_ℤ (sub_ℕ hi 1 -ℤ pos lo) ≡ pos (mid lo hi)
unfolding ◌+ℤ◌ ◌-ℤ◌ half_ℤ mid
midpoint lo hi h = ground arith

in_range : (lo hi : ℕ) → lo < hi → leb_ℤ (pos lo) (sub_ℕ hi 1) ≡ true
in_range lo hi h = ground arith

out_of_range : (lo hi : ℕ) → ¬ (lo < hi) → leb_ℤ (pos lo) (sub_ℕ hi 1) ≡ false
out_of_range lo hi h = ground arith

next_lo : (m : ℕ) → pos m +ℤ pos 1 ≡ pos (suc m)
unfolding ◌+ℤ◌
next_lo m = ground arith

next_hi : (m : ℕ) → pos m -ℤ pos 1 ≡ sub_ℕ m 1
unfolding ◌-ℤ◌
next_hi m = ground arith

index_fits : (m : ℕ) → m < u16_mod → to_u16 (pos m) ≡ m
unfolding to_u16
index_fits m h = omega arith

Ordering-cases : (o : Ordering) → (o ≡ Ordering.lt) ⊎ ((o ≡ Ordering.eq) ⊎ (o ≡ Ordering.gt))
Ordering-cases Ordering.lt = inl refl
Ordering-cases Ordering.eq = inr (inl refl)
Ordering-cases Ordering.gt = inr (inr refl)

module _ (id : PageId) (es : List Entry) (q : Bytes) (small : IsSmall es) where
  -- One round of the loop, by the order of the key that it reads.
  module _ (fuel lo hi : ℕ) (h : lo < hi) (fits : hi ≤ length es) (e : Entry)
      (here : get_elem? es (mid lo hi) ≡ some e) where
    mid_fits : mid lo hi < u16_mod
    mid_fits = omega (arith, mid_bounds lo hi h, length-le-total es)

    round_eq :
        cmp e.0 q ≡ Ordering.eq
        → search_loop (suc fuel) (leaf_of id es) q (pos lo) (sub_ℕ hi 1) ≡ done (at (mid lo hi))
    unfolding search_loop
    round_eq c = ground (
      arith,
      midpoint lo hi h,
      in_range lo hi h,
      index_fits (mid lo hi) mid_fits,
      get_key-leaf_of id es (mid lo hi) e here small,
    )

    round_lt :
        cmp e.0 q ≡ Ordering.lt
        → search_loop (suc fuel) (leaf_of id es) q (pos lo) (sub_ℕ hi 1)
          ≡ search_loop fuel (leaf_of id es) q (pos (suc (mid lo hi))) (sub_ℕ hi 1)
    unfolding search_loop
    round_lt c = ground (
      arith,
      midpoint lo hi h,
      in_range lo hi h,
      index_fits (mid lo hi) mid_fits,
      get_key-leaf_of id es (mid lo hi) e here small,
      next_lo (mid lo hi),
    )

    round_gt :
        cmp e.0 q ≡ Ordering.gt
        → search_loop (suc fuel) (leaf_of id es) q (pos lo) (sub_ℕ hi 1)
          ≡ search_loop fuel (leaf_of id es) q (pos lo) (sub_ℕ (mid lo hi) 1)
    unfolding search_loop
    round_gt c = ground (
      arith,
      midpoint lo hi h,
      in_range lo hi h,
      index_fits (mid lo hi) mid_fits,
      get_key-leaf_of id es (mid lo hi) e here small,
      next_hi (mid lo hi),
    )

  stop :
      (fuel lo hi : ℕ)
      → ¬ (lo < hi)
      → lo < u16_mod
      → search_loop (suc fuel) (leaf_of id es) q (pos lo) (sub_ℕ hi 1) ≡ done (belongs_at lo)
  unfolding search_loop
  stop fuel lo hi h fits = rw (out_of_range lo hi h, index_fits lo fits)

  -- What a run of the loop must return.
  abbrev Finds : Run Found → Type 0
  Finds r = (f : Found) × (r ≡ done f) × IsPlace (keys es) q f

  module _ (s : IsAscending (keys es)) where
    -- An entry below `q` has only entries below `q` in front of it; so for one above `q` behind it.
    below_down :
        (m : ℕ) (e : Entry)
        → get_elem? es m ≡ some e
        → e.0 ≺ q
        → (j : ℕ) (k : Bytes) → get_elem? (keys es) j ≡ some k
        → j < suc m
        → k ≺ q
    below_down m e here h j k p l = elim (ℕ_discrete j m) [
      | yes same ↦
          rw
            (some-injective _ _
              (sym p ∙ (ap (get_elem? (keys es)) same ∙ get_elem?-keys es m e here)))
            h
      | no other ↦
          lt_trans k e.0 q
            (ascending_at (keys es) j m k e.0 s (omega arith) p (get_elem?-keys es m e here)) h
    ]

    above_up :
        (m : ℕ) (e : Entry)
        → get_elem? es m ≡ some e
        → q ≺ e.0
        → (j : ℕ) (k : Bytes) → get_elem? (keys es) j ≡ some k
        → m ≤ j
        → q ≺ k
    above_up m e here h j k p l = elim (ℕ_discrete j m) [
      | yes same ↦
          rw
            (some-injective _ _
              (sym p ∙ (ap (get_elem? (keys es)) same ∙ get_elem?-keys es m e here)))
            h
      | no other ↦
          lt_trans q e.0 k h
            (ascending_at (keys es) m j e.0 k s (omega arith) (get_elem?-keys es m e here) p)
    ]

    search_loop-Finds :
        (fuel lo hi : ℕ)
        → hi - lo < fuel
        → lo ≤ hi
        → hi ≤ length es
        → ((j : ℕ) (k : Bytes) → get_elem? (keys es) j ≡ some k → j < lo → k ≺ q)
        → ((j : ℕ) (k : Bytes) → get_elem? (keys es) j ≡ some k → hi ≤ j → q ≺ k)
        → Finds (search_loop fuel (leaf_of id es) q (pos lo) (sub_ℕ hi 1))
    search_loop-Finds zero lo hi f h fits below above = absurd (omega arith)
    search_loop-Finds (suc fuel) lo hi f h fits below above = elim (dec_lt lo hi) [
      | no empty ↦ (
        belongs_at lo,
        stop fuel lo hi empty (omega (arith, length-le-total es)),
        (rw (length-map es key_of) (omega arith), below, λ j k p l. above j k p (omega arith)),
      )
      | yes l ↦
          let (lower, upper) = mid_bounds lo hi l in
          let (e, here) = get_elem?_lt es (mid lo hi) (omega arith) in
          elim (Ordering-cases (cmp e.0 q)) [
            | inl c ↦ rw (round_lt fuel lo hi l fits e here c) (
                search_loop-Finds fuel (suc (mid lo hi)) hi (omega arith) (omega arith) fits
                  (below_down (mid lo hi) e here c) above)
            | inr (inl c) ↦ (
              at (mid lo hi),
              round_eq fuel lo hi l fits e here c,
              get_elem?-keys es (mid lo hi) e here ∙ ap some (eq_of_cmp e.0 q c),
            )
            | inr (inr c) ↦ rw (round_gt fuel lo hi l fits e here c) (
                search_loop-Finds fuel lo (mid lo hi) (omega arith) (omega arith) (omega arith)
                  below (above_up (mid lo hi) e here (lt_of_gt e.0 q c)))
          ]
    ]

-- On a node whose keys ascend and whose offsets fit 16 bits `leaf_search` returns: the index of the key where it is there, and
-- otherwise the index with all smaller keys in front and all larger keys from it on.
pub leaf_search-IsPlace :
    (id : PageId) (es : List Entry) (q : Bytes)
    → IsSmall es
    → IsAscending (keys es)
    → (f : Found) × (leaf_search (leaf_of id es) q ≡ done f) × IsPlace (keys es) q f
unfolding leaf_search
leaf_search-IsPlace id es q small s =
    let last : pos (length es) -ℤ pos 1 ≡ sub_ℕ (length es) 1 = next_hi (length es) in
    rw (nkeys-leaf_of id es small, last)
      (search_loop-Finds id es q small s (suc (length es)) 0 (length es) (omega arith) (omega arith)
        (omega arith) (λ j k p l. absurd (omega arith)) none_above)
  where
    none_above : (j : ℕ) (k : Bytes) → get_elem? (keys es) j ≡ some k → length es ≤ j → q ≺ k
    none_above j k p l =
        absurd (omega (arith, (get_elem?-split (keys es) j k p).1, length-map es key_of))
