-- ===== src/Page/Leaf/Split.antt =====
-- `leaf_split_by_size`: where it cuts, and that both halves fit a page.
use ucu_de_distributed_algor.Prelude.{
  ℕ, zero, suc, ◌+◌, ◌-◌, ◌*◌, ◌/◌, ◌%◌, ◌≤◌, ◌<◌, ◌≡◌, refl, ap, ◌∙◌, some, List, [], ◌∷◌, arith,
  lt→ltb, le→leb, le→ltb_false, length, get_elem?, take, drop, All, take-append-drop, drop_all,
  drop-suc, get_elem?_lt, All-get, done,
}
use ucu_de_distributed_algor.Bytes.Laws.{index-some}
use mathlib.Core.Option.{some-injective}
use native.Mathlib.Decide.{dec_lt}
use native.Mathlib.Numerals.{add-one}
use native.Mathlib.Nat.{zero-add}
use ucu_de_distributed_algor.Page.Tags.{PageId, u16_mod, add_u16_fits, sub_checked_fits}
use ucu_de_distributed_algor.Page.Leaf.{
  leaf_header, left_bytes, right_bytes, shrink_left, shrink_right, leaf_split_by_size,
}
use ucu_de_distributed_algor.Page.Leaf.View.{
  Entry, size, total, starts, leaf_of, total-split, starts-at, length-encode_all, encode_all,
  nkeys-leaf_of,
}
use ucu_de_distributed_algor.Page.Leaf.Edit.{
  IsEntries, IsEntries-front, IsEntries-back, empty-leaf_of, push_front-leaf_of, push_back-leaf_of,
}

-- A list of entries that is too long for a page of `ps` bytes by one entry at most. `each` is what
-- `check_limits` leaves of an entry; `whole` adds one such entry to a page that is full.
pub record IsOverfull (ps : ℕ) (es : List Entry) : Type 0 where
  pub entries : IsEntries es
  pub page_fits : ps < u16_mod
  pub offsets_fit : leaf_header + total es < u16_mod
  pub each : All (λ e. 2 * size e + 31 ≤ ps) es
  pub whole : 2 * total es + 53 ≤ 3 * ps
  pub two : 2 ≤ length es

module _ (id : PageId) (es : List Entry) (fit : leaf_header + total es < u16_mod) where
  left_bytes-leaf_of :
      (m : ℕ)
      → m ≤ length es
      → left_bytes (leaf_of id es) m ≡ done (leaf_header + total (take m es))
  unfolding left_bytes leaf_of
  left_bytes-leaf_of m h =
      rw (index-some (starts 0 es) m (starts-at 0 es m h ∙ ap some (zero-add (total (take m es)))))
        (add_u16_fits leaf_header (total (take m es)) (omega (arith, total-split m es)))

  right_bytes-leaf_of :
      (m : ℕ)
      → m ≤ length es
      → right_bytes (leaf_of id es) m ≡ done (leaf_header + total (drop m es))
  unfolding right_bytes leaf_of
  right_bytes-leaf_of m h =
      let len : length (encode_all es) % u16_mod ≡ total es = omega (arith, length-encode_all es) in
      let rest : total es - total (take m es) ≡ total (drop m es) =
        omega (arith, total-split m es) in
      rw
        (
          index-some (starts 0 es) m (starts-at 0 es m h ∙ ap some (zero-add (total (take m es)))),
          len,
          sub_checked_fits (total es) (total (take m es)) (omega (arith, total-split m es)),
          rest,
        )
        (add_u16_fits leaf_header (total (drop m es)) (omega (arith, total-split m es)))

total-take-suc :
    (es : List Entry) (m : ℕ) (e : Entry)
    → get_elem? es m ≡ some e
    → total (take (suc m) es) ≡ total (take m es) + size e
total-take-suc [] m e h = cc
total-take-suc (x ∷ es) zero e h =
    let same : size x ≡ size e = ap size (some-injective _ _ h) in omega arith
total-take-suc (x ∷ es) (suc m) e h = omega (arith, total-take-suc es m e h)

total-drop_last :
    (es : List Entry) (m : ℕ) (e : Entry)
    → get_elem? es m ≡ some e
    → suc m ≡ length es
    → total (drop m es) ≡ size e
total-drop_last es m e h l =
    let rest : drop m es ≡ e ∷ [] =
      drop-suc es m e h ∙ ap (λ t. e ∷ t) (drop_all (suc m) es (omega arith)) in
    ap total rest ∙ alone
  where
    alone : total (e ∷ []) ≡ size e
    alone = omega arith

module _ (ps : ℕ) (id : PageId) (es : List Entry) (o : IsOverfull ps es) where
  entry_fits : (m : ℕ) (e : Entry) → get_elem? es m ≡ some e → 2 * size e + 31 ≤ ps
  entry_fits m e h = All-get (λ x. 2 * size x + 31 ≤ ps) es m e h o.each

  -- A cut that leaves too much in front is not the first.
  more_than_one :
      (m : ℕ) (e : Entry)
      → get_elem? es m ≡ some e
      → ps < leaf_header + total (take (suc m) es)
      → 1 ≤ m
  more_than_one zero e here big =
      absurd (omega (arith, total-take-suc es 0 e here, entry_fits 0 e here))
  more_than_one (suc m) e here big = omega arith

  shrink_left-fits :
      (m : ℕ)
      → m ≤ length es
      → (r : ℕ) × (shrink_left (leaf_of id es) ps m ≡ done r)
        × (r ≤ m)
        × (1 ≤ m → 1 ≤ r)
        × (leaf_header + total (take r es) ≤ ps)
  unfolding shrink_left
  shrink_left-fits zero h =
      let (e, here) = get_elem?_lt es 0 (omega (arith, o.two)) in
      (0, refl, omega arith, λ l. l, omega (arith, entry_fits 0 e here))
  shrink_left-fits (suc m) h = elim (dec_lt ps (leaf_header + total (take (suc m) es))) [
    | yes big ↦
        let (e, here) = get_elem?_lt es m (omega arith) in
        let (r, eq, le, pos, fits) = shrink_left-fits m (omega arith) in
        (
          r,
          rw (left_bytes-leaf_of id es o.offsets_fit (suc m) h, lt→ltb ps _ big) eq,
          omega arith,
          λ l. pos (more_than_one m e here big),
          fits,
        )
    | no fits ↦ (
      suc m,
      rw (
        left_bytes-leaf_of id es o.offsets_fit (suc m) h,
        le→ltb_false ps (leaf_header + total (take (suc m) es)) (omega arith),
      ),
      omega arith,
      λ l. l,
      omega arith,
    )
  ]

  shrink_right-fits :
      (left m : ℕ)
      → suc (m + left) ≡ length es
      → leaf_header + total (take m es) ≤ ps
      → (r : ℕ) × (shrink_right (leaf_of id es) ps left m ≡ done r)
        × (m ≤ r)
        × (r < length es)
        × (leaf_header + total (take r es) ≤ ps)
        × (leaf_header + total (drop r es) ≤ ps)
  unfolding shrink_right
  shrink_right-fits zero m h fits =
      let (e, here) = get_elem?_lt es m (omega arith) in
      (
        m,
        refl,
        omega arith,
        omega arith,
        fits,
        omega (arith, total-drop_last es m e here (omega arith), entry_fits m e here),
      )
  shrink_right-fits (suc left) m h fits =
      let (e, here) = get_elem?_lt es m (omega arith) in
      elim (dec_lt ps (leaf_header + total (drop m es))) [
        | yes big ↦
            let (r, eq, le, lt, l, d) = shrink_right-fits left (suc m) (omega arith) (
              omega (
                arith,
                total-take-suc es m e here,
                total-split m es,
                entry_fits m e here,
                o.whole,
              )) in
            (
              r,
              rw
                  (
                    right_bytes-leaf_of id es o.offsets_fit m (omega arith),
                    lt→ltb ps _ big,
                    add-one m,
                  )
                  eq,
              omega arith,
              lt,
              l,
              d,
            )
        | no small ↦ (
          m,
          rw (
            right_bytes-leaf_of id es o.offsets_fit m (omega arith),
            le→ltb_false ps (leaf_header + total (drop m es)) (omega arith),
          ),
          omega arith,
          omega arith,
          fits,
          omega arith,
        )
      ]

-- A leaf with ascending keys, of two entries or more, the bytes of each one's key and value at most
-- half of what 39 bytes leave of the page, that is longer than its page by one such entry at most, where the page and the leaf are below 65536 bytes: the split
-- returns, it cuts the entries in two, in their order and with none lost, neither half is empty, and
-- each half with its header fits the page.
pub leaf_split_by_size-fits :
    (ps : ℕ) (id : PageId) (es : List Entry)
    → IsOverfull ps es
    → (m : ℕ) × (leaf_split_by_size (leaf_of id es) ps
        ≡ done (leaf_of 0 (take m es), leaf_of 0 (drop m es)))
      × (1 ≤ m)
      × (m < length es)
      × (leaf_header + total (take m es) ≤ ps)
      × (leaf_header + total (drop m es) ≤ ps)
unfolding leaf_split_by_size
leaf_split_by_size-fits ps id es o =
    let n = length es in
    let small = o.entries.small in
    let (a, left_run, a_le, a_pos, a_fits) = shrink_left-fits ps id es o (n / 2) (omega arith) in
    let a_one = a_pos (omega (arith, o.two)) in
    let (m, right_run, a_le_m, m_lt, front_fits, back_fits) =
      shrink_right-fits ps id es o (n - 1 - a) a (omega (arith, o.two)) a_fits in
    let ps_exact : ps % u16_mod ≡ ps = omega (arith, o.page_fits) in
    let whole = take-append-drop m es in
    (
      m,
      rw (
        nkeys-leaf_of id es small,
        le→leb 2 n o.two,
        lt→ltb ps u16_mod o.page_fits,
        ps_exact,
        left_run,
        le→leb 1 a a_one,
        sub_checked_fits n 1 (omega arith),
        right_run,
        right_bytes-leaf_of id es o.offsets_fit m (omega arith),
        le→leb (leaf_header + total (drop m es)) ps back_fits,
        lt→ltb m n m_lt,
        push_front-leaf_of ps id es m small (omega arith)
            (IsEntries-front (take m es) (drop m es) (rw whole o.entries)),
        empty-leaf_of ps,
        push_back-leaf_of [] id es m small (omega arith)
            (IsEntries-back (take m es) (drop m es) (rw whole o.entries)),
      ),
      omega arith,
      m_lt,
      front_fits,
      back_fits,
    )
