-- ===== src/Storage/Tree/InsertLeaf.antt =====
-- `insert_leaf` refines the upsert of the leaf's entries.
use ucu_de_distributed_algor.Prelude.{
  ℕ, ◌+◌, ◌*◌, ◌≤◌, ◌<◌, ◌≡◌, ap, ◌∙◌, ◌⊎◌, inl, inr, some, List, [], ◌∷◌, arith, le→leb,
  lt→leb_false, length, get_elem?, take, drop, All, take-append-drop, drop-suc, get_elem?_lt,
  All-take, All-drop, length-map, Run, ok, done,
}
use ucu_de_distributed_algor.Bytes.{Bytes}
use native.Mathlib.Decide.{dec_le}
use ucu_de_distributed_algor.Page.Tags.{PageId}
use ucu_de_distributed_algor.Page.{leaf, max_kv_size, check_limits}
use ucu_de_distributed_algor.Page.Keys.{IsAscending}
use ucu_de_distributed_algor.Page.Leaf as LeafPage
use ucu_de_distributed_algor.Page.Leaf.{
  leaf_header, leaf_split_by_size, Found, at, belongs_at, leaf_search,
}
use ucu_de_distributed_algor.Page.Leaf.View.{
  Entry, key_of, keys, size, total, leaf_of, IsSmall, nbytes-leaf_of, get_key-leaf_of, total-split,
}
use ucu_de_distributed_algor.Page.Leaf.Edit.{
  IsEntries, IsEntries-front, IsEntries-back, leaf_insert-leaf_of, leaf_update-leaf_of,
}
use ucu_de_distributed_algor.Page.Leaf.Search.{IsPlace, leaf_search-IsPlace}
use ucu_de_distributed_algor.Page.Leaf.Split.{IsOverfull, leaf_split_by_size-fits}
use ucu_de_distributed_algor.Storage.Entries.{
  upsert, upsert-IsAscending, total-upsert, All-entries-upsert, place_at-upsert,
  place_belongs-upsert,
}
use ucu_de_distributed_algor.Storage.Tree.{InsertResult, single, split, place, insert_leaf}

-- The entries of a leaf in a store with pages of `ps` bytes: their keys ascend, they fit the page, and
-- each is within the limit of `check_limits`.
pub record IsLeafPage (ps : ℕ) (es : List Entry) : Type 0 where
  pub ascending : IsAscending (keys es)
  pub fits : leaf_header + total es ≤ ps
  pub each : All (λ e. 2 * size e + 31 ≤ ps) es

-- Page sizes up to which no offset of a node wraps while it is too long for its page.
abbrev pub max_page_size : ℕ
max_page_size = 43690

-- The result is one leaf with the entries `out`, or two that share them, with the first key of the
-- right one to tell them apart.
abbrev pub Inserts : ℕ → List Entry → Run InsertResult → Type 0
Inserts ps out r =
    ((r ≡ done (single (leaf (leaf_of 0 out)))) × IsLeafPage ps out)
    ⊎ ((m : ℕ) × (e : Entry) × (get_elem? out m ≡ some e)
        × (r ≡ done (split (leaf (leaf_of 0 (take m out))) e.0 (leaf (leaf_of 0 (drop m out)))))
        × (1 ≤ m)
        × IsLeafPage ps (take m out)
        × IsLeafPage ps (drop m out))

accepted :
    (ps : ℕ) (k v : Bytes) → 39 ≤ ps → check_limits ps k v ≡ ok tt → 2 * size (k, v) + 31 ≤ ps
unfolding check_limits max_kv_size
accepted ps k v h e = ground arith

two_entries :
    (ps : ℕ) (es : List Entry)
    → 39 ≤ ps
    → All (λ e. 2 * size e + 31 ≤ ps) es
    → ps < leaf_header + total es
    → 2 ≤ length es
two_entries ps [] h a big = absurd (omega arith)
two_entries ps (x ∷ []) h a big = absurd (omega (arith, a.0))
two_entries ps (x ∷ y ∷ es) h a big = omega arith

-- The parts of a cut are leaves of the store when they fit.
front-IsLeafPage :
    (ps : ℕ) (es : List Entry) (m : ℕ)
    → IsEntries es
    → All (λ e. 2 * size e + 31 ≤ ps) es
    → leaf_header + total (take m es) ≤ ps
    → IsLeafPage ps (take m es)
front-IsLeafPage ps es m good each fits = record {
  ascending = (IsEntries-front (take m es) (drop m es) (rw (take-append-drop m es) good)).ascending;
  fits = fits;
  each = All-take (λ e. 2 * size e + 31 ≤ ps) m es each;
}

back-IsLeafPage :
    (ps : ℕ) (es : List Entry) (m : ℕ)
    → IsEntries es
    → All (λ e. 2 * size e + 31 ≤ ps) es
    → leaf_header + total (drop m es) ≤ ps
    → IsLeafPage ps (drop m es)
back-IsLeafPage ps es m good each fits = record {
  ascending = (IsEntries-back (take m es) (drop m es) (rw (take-append-drop m es) good)).ascending;
  fits = fits;
  each = All-drop (λ e. 2 * size e + 31 ≤ ps) m es each;
}

module _ (ps : ℕ) (id : PageId) (es : List Entry) (k v : Bytes) (wide : 39 ≤ ps)
    (narrow : ps ≤ max_page_size) (ok_entry : check_limits ps k v ≡ ok tt)
    (page : IsLeafPage ps es) where
  out : List Entry
  out = upsert es k v

  out-IsEntries : IsEntries out
  unfolding out
  out-IsEntries = record {
    small = omega (arith, total-upsert es k v, accepted ps k v wide ok_entry, page.fits);
    ascending = upsert-IsAscending es k v page.ascending;
  }

  out_each : All (λ e. 2 * size e + 31 ≤ ps) out
  unfolding out
  out_each =
      All-entries-upsert (λ e. 2 * size e + 31 ≤ ps) es k v (accepted ps k v wide ok_entry)
        page.each

  old-IsSmall : IsSmall es
  old-IsSmall = omega (arith, page.fits)

  -- The leaf that the search and the edit build.
  built : (f : Found) → IsPlace (keys es) k f → place (leaf_of id es) k v f ≡ done (leaf_of 0 out)
  unfolding place out
  built (at i) p =
      let (same, inside) = place_at-upsert es k v i page.ascending p in
      leaf_update-leaf_of id es i k v old-IsSmall inside (rw same (unfold out in out-IsEntries))
      ∙ ap (λ o. done (leaf_of 0 o)) same
  built (belongs_at i) p =
      let same = place_belongs-upsert es k v i p in
      leaf_insert-leaf_of id es i k v old-IsSmall (rw (length-map es key_of) at p.0)
        (rw same (unfold out in out-IsEntries))
      ∙ ap (λ o. done (leaf_of 0 o)) same

  overfull : ps < leaf_header + total out → IsOverfull ps out
  unfolding out
  overfull big = record {
    entries = out-IsEntries;
    page_fits = omega arith;
    offsets_fit = omega (arith, total-upsert es k v, accepted ps k v wide ok_entry, page.fits);
    each = out_each;
    whole = omega (arith, total-upsert es k v, accepted ps k v wide ok_entry, page.fits);
    two = two_entries ps out wide out_each big;
  }

  split_run :
      (f : Found) (m : ℕ) (e : Entry)
      → leaf_search (leaf_of id es) k ≡ done f
      → place (leaf_of id es) k v f ≡ done (leaf_of 0 out)
      → ps < leaf_header + total out
      → leaf_split_by_size (leaf_of 0 out) ps
        ≡ done (leaf_of 0 (take m out), leaf_of 0 (drop m out))
      → LeafPage.get_key (leaf_of 0 (drop m out)) 0 ≡ done e.0
      → insert_leaf (leaf_of id es) k v ps
        ≡ done (split (leaf (leaf_of 0 (take m out))) e.0 (leaf (leaf_of 0 (drop m out))))
  unfolding insert_leaf
  split_run f m e run made big cut sep =
      rw (run, made, nbytes-leaf_of 0 out, lt→leb_false (leaf_header + total out) ps big, cut, sep)

  -- Inserting into a leaf.
  inserts : Inserts ps out (insert_leaf (leaf_of id es) k v ps)
  unfolding insert_leaf
  inserts =
      let (f, run, pl) = leaf_search-IsPlace id es k old-IsSmall page.ascending in
      let made = built f pl in
      let size_of = nbytes-leaf_of 0 out in
      elim (dec_le (leaf_header + total out) ps) [
        | yes fits ↦ inl (
          rw (run, made, size_of, le→leb (leaf_header + total out) ps fits),
          record { ascending = out-IsEntries.ascending; fits = fits; each = out_each },
        )
        | no over ↦
            let big : ps < leaf_header + total out = omega arith in
            let (m, cut, m_pos, m_lt, front_fits, back_fits) =
              leaf_split_by_size-fits ps 0 out (overfull big) in
            let (e, here) = get_elem?_lt out m m_lt in
            let first : get_elem? (drop m out) 0 ≡ some e =
              ap (λ t. get_elem? t 0) (drop-suc out m e here) in
            let back_small : IsSmall (drop m out) =
              omega (arith, total-split m out, out-IsEntries.small) in
            inr (
              m,
              e,
              here,
              split_run f m e run made big cut
                  (get_key-leaf_of 0 (drop m out) 0 e first back_small),
              m_pos,
              front-IsLeafPage ps out m out-IsEntries out_each front_fits,
              back-IsLeafPage ps out m out-IsEntries out_each back_fits,
            )
      ]

-- A leaf with ascending keys that fits a page of 39 to 43690 bytes, each entry of which is within
-- the limit: inserting a key and value that check_limits accepts returns. The result is the leaf of the upserted entries, if
-- they fit the page, or two leaves that share them in order, the left one not empty, with the first
-- key of the right one as separator. Every leaf of the result has ascending keys, fits the page, and
-- its entries keep to the limits.
pub insert_leaf-Inserts :
    (ps : ℕ) (id : PageId) (es : List Entry) (k v : Bytes)
    → 39 ≤ ps
    → ps ≤ max_page_size
    → check_limits ps k v ≡ ok tt
    → IsLeafPage ps es
    → Inserts ps (upsert es k v) (insert_leaf (leaf_of id es) k v ps)
insert_leaf-Inserts ps id es k v wide narrow accept page =
    unfold out in inserts ps id es k v wide narrow accept page
