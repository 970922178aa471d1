-- ===== src/Storage/Tree/Absorb.antt =====
-- What the parent makes of its child's result: the second half of `insert_internal` in
-- 01-btree/src/storage/tree.rs.
use ucu_de_distributed_algor.Prelude.{
  ℕ, zero, suc, ◌+◌, ◌*◌, ◌≤◌, ◌<◌, ◌≡◌, refl, sym, ap, ◌∙◌, Option, some, List, [], ◌∷◌, ◌++◌,
  append_assoc, arith, length, take, drop, All, length-append, length-take, length-drop, All-append,
  All-take, All-drop, set, done,
}
use mathlib.Core.Path.{subst}
use ucu_de_distributed_algor.Prelude.Count.{one, one_self}
use ucu_de_distributed_algor.Bytes.{Bytes}
use ucu_de_distributed_algor.Io.{PageIo}
use ucu_de_distributed_algor.Page.Tags.{PageId, u64_mod}
use ucu_de_distributed_algor.Page.{internal}
use ucu_de_distributed_algor.Page.Limits.{page_of, FitsPage}
use ucu_de_distributed_algor.Page.Leaf.View.{Entry}
use ucu_de_distributed_algor.Page.Internal.{internal_insert_split_child}
use ucu_de_distributed_algor.Page.Internal.View as Node
use ucu_de_distributed_algor.Page.Internal.View.{node_of}
use ucu_de_distributed_algor.Page.Internal.Edit.{IsKeys}
use ucu_de_distributed_algor.Page.Internal.Splice.{
  internal_replace_child-node_of, internal_insert_split_child-node_of,
}
use ucu_de_distributed_algor.Storage.Store.{WriteTxn, txn_read, txn_page_size, alloc, write, free}
use ucu_de_distributed_algor.Storage.Store.Own.{
  Own, Grows, Own-cong, Grows-cong, Grows-trans, Grows-widen, Grows-page_size, free-Own,
}
use ucu_de_distributed_algor.Storage.Store.Alloc.{put_page}
use ucu_de_distributed_algor.Storage.Tree.{InsertResult, single, split, absorb}
use ucu_de_distributed_algor.Storage.Tree.InsertLeaf.{max_page_size}
use ucu_de_distributed_algor.Storage.Tree.Shape.{
  Tree, Kid, ids_of, content, flat, entries_of, sum, uses, Below, sum-append, flat-append,
  length-ids_of, Below-frame, uses-ids,
}
use ucu_de_distributed_algor.Storage.Tree.Valid.{
  Past, Upto, IsNodePage, Kids, Valid, Valid-InRange, Kids-length, Kids-IsAscending,
}
use ucu_de_distributed_algor.Storage.Tree.Descend.{Place}
use ucu_de_distributed_algor.Storage.Tree.Grown.{settles, settles-Outcome}
use ucu_de_distributed_algor.Storage.Tree.Outcome.{Outcome, fits, splits, Outcome-out}

-- A valid tree's own page fits, if its children's ids are words.
pub Valid-FitsPage :
    (ps h : ℕ) (lo hi : Option Bytes) (a : Tree h)
    → ps ≤ max_page_size
    → ((j : PageId) → 1 ≤ uses h a j → j < u64_mod)
    → Valid ps h lo hi a
    → FitsPage ps (content h a)
Valid-FitsPage ps zero lo hi es narrow ids v = (omega (arith, v.0.fits), v.0.fits)
Valid-FitsPage ps (suc h) lo hi a narrow ids v = (
  omega (arith, v.0.fits),
  uses-ids h a.1 u64_mod ids,
  length-ids_of a.1 ∙ Kids-length (Valid ps h) lo hi a.0 a.1 v.1,
  omega (arith, v.0.fits, length-ids_of a.1),
)

set-kid {ℓ} :
    {A : Type ℓ} (before after : List (PageId × A)) (kid : PageId × A) (n : ℕ) (new : PageId)
    (a : A)
    → length before ≡ n
    → set (ids_of (before ++ kid ∷ after)) n new ≡ ids_of (before ++ (new, a) ∷ after)
set-kid [] after kid zero new a l = refl
set-kid [] after kid (suc n) new a l = absurd (omega arith)
set-kid (b ∷ before) after kid zero new a l = absurd (omega arith)
set-kid (b ∷ before) after kid (suc n) new a l =
    ap (λ t. b.0 ∷ t) (set-kid before after kid n new a (omega arith))

split-kid {ℓ} :
    {A : Type ℓ} (before after : List (PageId × A)) (kid l r : PageId × A) (n : ℕ)
    → length before ≡ n
    → take n (ids_of (before ++ kid ∷ after))
        ++ (l.0 ∷ (r.0 ∷ drop (suc n) (ids_of (before ++ kid ∷ after))))
      ≡ ids_of (before ++ l ∷ r ∷ after)
split-kid [] after kid l r zero e = refl
split-kid [] after kid l r (suc n) e = absurd (omega arith)
split-kid (b ∷ before) after kid l r zero e = absurd (omega arith)
split-kid (b ∷ before) after kid l r (suc n) e =
    ap (λ t. b.0 ∷ t) (split-kid before after kid l r n (omega arith))

-- A separator put between the keys.
abbrev put_in : List Bytes → ℕ → Bytes → List Bytes
put_in ks n sep = take n ks ++ (sep ∷ drop n ks)

total-put_in :
    (ks : List Bytes) (n : ℕ) (sep : Bytes)
    → Node.total (put_in ks n sep) ≡ Node.total ks + Node.size sep
total-put_in ks n sep =
    omega (arith, Node.total-append (take n ks) (sep ∷ drop n ks), Node.total-split n ks)

length-put_in : (ks : List Bytes) (n : ℕ) (sep : Bytes) → length (put_in ks n sep) ≡ suc (length ks)
length-put_in ks n sep =
    omega (arith, length-append (take n ks) (sep ∷ drop n ks), length-take n ks, length-drop n ks)

each-put_in :
    (ps : ℕ) (ks : List Bytes) (n : ℕ) (sep : Bytes)
    → 2 * length sep + 39 ≤ ps
    → All (λ k. 2 * Node.size k + 35 ≤ ps) ks
    → All (λ k. 2 * Node.size k + 35 ≤ ps) (put_in ks n sep)
each-put_in ps ks n sep h a =
    let P : Bytes → Type 0 = λ k. 2 * Node.size k + 35 ≤ ps in
    (All-append P (take n ks) (sep ∷ drop n ks)).1
      (All-take P n ks a, (omega arith, All-drop P n ks a))

-- How often the children and the pages below them are used.
abbrev pub spread : (h : ℕ) → List (Kid h) → PageId → ℕ
spread h cs i = sum (λ c. one c.0 i + uses h c.1 i) cs

module _ {IO : Type 0} ⦃p : PageIo IO⦄ where
  module _ (ps : ℕ) (narrow : ps ≤ max_page_size) (h : ℕ) where
    -- The child's page goes from use to the freed ones, and a new one takes its place.
    pub renew :
        (t : WriteTxn IO) (lo hi : Option Bytes) (a : Tree h) (Y : PageId → ℕ)
        → txn_page_size t ≡ ps
        → t.store.writer.next_page_id + 1 < u64_mod
        → Own t (λ i. uses h a i + Y i)
        → Valid ps h lo hi a
        → (id : PageId) × (u : WriteTxn IO) × (v : WriteTxn IO) × (alloc t ≡ done (id, u))
          × (write u id (page_of 0 (content h a)) ≡ done v)
          × Own v (λ i. one id i + (uses h a i + Y i))
          × Grows 1 t (λ i. uses h a i + Y i) v (λ i. one id i + (uses h a i + Y i))
          × (txn_read v id ≡ done (page_of id (content h a)))
    renew t lo hi a Y size room o v =
        put_page t (λ i. uses h a i + Y i) 0 (content h a) room o
          (rw size (
            Valid-FitsPage ps h lo hi a narrow (λ j u. omega (arith, (o.inside j (omega arith)).1))
              v))

    module _ (wide : 39 ≤ ps) (lo hi : Option Bytes) (ks : List Bytes) (cs : List (Kid h))
        (q : Bytes) (n : ℕ)
        (place : Place (Valid ps h) (entries_of h) (Valid-InRange ps h) q lo hi ks cs n)
        (page : IsNodePage ps ks (length cs)) (kids : Kids (Valid ps h) lo hi ks cs)
        (t0 : WriteTxn IO) (R : PageId → ℕ) (size0 : txn_page_size t0 ≡ ps)
        (below0 : Below (txn_read t0) (suc h) (ks, cs)) where
      -- The pages used outside the child: by its brothers and elsewhere, and with its own page.
      abbrev pub beside : PageId → ℕ
      beside i = spread h place.before i + (spread h place.after i + R i)

      abbrev pub outside : PageId → ℕ
      outside i = one place.kid.0 i + beside i

      pub uses-parts : (i : PageId) → spread h cs i + R i ≡ uses h place.kid.1 i + outside i
      uses-parts i = omega (
        arith,
        ap (λ l. spread h l i) place.parts,
        sum-append (λ c. one c.0 i + uses h c.1 i) place.before (place.kid ∷ place.after),
      )

      is_keys : IsKeys ks
      is_keys = record {
        small = omega (arith, page.fits);
        ascending = Kids-IsAscending (Valid ps h) lo hi ks cs kids;
      }

      one_more : length (ids_of cs) ≡ suc (length ks)
      one_more = length-ids_of cs ∙ Kids-length (Valid ps h) lo hi ks cs kids

      parts-Below : Below (txn_read t0) (suc h) ([], place.before ++ place.kid ∷ place.after)
      parts-Below = subst (λ l. Below (txn_read t0) (suc h) ([], l)) place.parts below0

      -- The child's brothers stay where they are.
      brothers :
          (m : ℕ) (u : WriteTxn IO) (Y : PageId → ℕ)
          → Grows m t0 (λ i. uses h place.kid.1 i + outside i) u Y
          → Below (txn_read u) (suc h) ([], place.before)
            × Below (txn_read u) (suc h) ([], place.after)
      brothers m u Y g =
          let P : Kid h → Type 0 = λ c.
            (txn_read t0 c.0 ≡ done (page_of c.0 (content h c.1))) × Below (txn_read t0) h c.1 in
          let (front, back) = (All-append P place.before (place.kid ∷ place.after)).0 parts-Below in
          (
            Below-frame (txn_read t0) (txn_read u) (suc h) ([], place.before)
                (λ j s. g.same j (omega arith)) front,
            Below-frame (txn_read t0) (txn_read u) (suc h) ([], place.after)
                (λ j s. g.same j (omega arith)) back.1,
          )

      -- A child that fits its page: the node gets the id of the child's new page.
      absorb-single :
          (id : PageId) (t : WriteTxn IO) (m : ℕ) (out : List Entry) (a : Tree h)
          → Valid ps h place.lo' place.hi' a
          → entries_of h a ≡ out
          → Below (txn_read t) h a
          → Own t (λ i. uses h a i + outside i)
          → Grows m t0 (λ i. uses h place.kid.1 i + outside i) t (λ i. uses h a i + outside i)
          → t0.store.writer.next_page_id + (m + 2) < u64_mod
          → (r : InsertResult) × (u : WriteTxn IO) × (absorb
                (free t place.kid.0)
                (node_of id ks (ids_of cs))
                n
                ps
                (single (page_of 0 (content h a)))
              ≡ done (r, u))
            × Outcome ps
                (suc h)
                lo
                hi
                (flat (entries_of h) place.before ++ (out ++ flat (entries_of h) place.after))
                R
                (m + 2)
                t0
                (λ i. spread h cs i + R i)
                u
                r
      unfolding absorb page_of
      absorb-single id t m out a valid same_entries below own grows room =
          let Y : PageId → ℕ = λ i. uses h a i + beside i in
          let (own1, grows1) = free-Own t Y place.kid.0 (Own-cong (λ i. omega arith) own) in
          let grows2 = Grows-trans m 0 (Grows-cong (λ i. omega arith) grows) grows1 in
          let size = Grows-page_size grows2 ∙ size0 in
          let (new, u, w, given, written, own3, grows3, back) =
            renew (free t place.kid.0) place.lo' place.hi' a beside size
              (omega (arith, grows2.upto_next)) own1 valid in
          let grows4 = Grows-trans (m + 0) 1 grows2 grows3 in
          let grows5 = Grows-trans 0 1 grows1 grows3 in
          let kids' : List (Kid h) = place.before ++ (new, a) ∷ place.after in
          let (front, rear) =
            brothers (m + 0 + 1) w (λ i. one new i + (uses h a i + beside i)) grows4 in
          let deep =
            Below-frame (txn_read t) (txn_read w) h a (λ j s. grows5.same j (omega arith)) below in
          let P : Kid h → Type 0 =
            λ c. (txn_read w c.0 ≡ done (page_of c.0 (content h c.1))) × Below (txn_read w) h c.1 in
          let good = place.replace (new, a) valid in
          let counted = λ (i : PageId).
            sum-append (λ c. one c.0 i + uses h c.1 i) place.before ((new, a) ∷ place.after) in
          let renamed =
            ap (λ l. set (ids_of l) n new) place.parts
            ∙ set-kid place.before place.after place.kid n new a place.number in
          let replaced =
            internal_replace_child-node_of id ks (ids_of cs) n new is_keys one_more
            ∙ ap (λ l. done (node_of 0 ks l)) renamed in
          (
            single (internal (node_of 0 ks (ids_of kids'))),
            w,
            rw (given, written, replaced),
            fits (ks, kids') refl
                (
                  record {
                    fits =
                        rw
                          (Kids-length (Valid ps h) lo hi ks kids' good
                            ∙ sym (Kids-length (Valid ps h) lo hi ks cs kids))
                          page.fits;
                    each = page.each;
                  },
                  good,
                )
                (flat-append (entries_of h) place.before ((new, a) ∷ place.after)
                  ∙ ap
                      (λ l.
                        flat (entries_of h) place.before ++ (l ++ flat (entries_of h) place.after))
                      same_entries)
                ((All-append P place.before ((new, a) ∷ place.after)).1
                  (front, ((back, deep), rear)))
                (Own-cong (λ i. omega (arith, counted i)) own3)
                (Grows-cong (λ i. omega (arith, counted i))
                  (Grows-widen (m + 2) (omega arith) (λ i. sym (uses-parts i)) grows4)),
          )

      grown_ids :
          (l r : Kid h)
          → take n (ids_of cs) ++ (l.0 ∷ (r.0 ∷ drop (suc n) (ids_of cs)))
            ≡ ids_of (place.before ++ l ∷ r ∷ place.after)
      grown_ids l r =
          ap (λ x. take n (ids_of x) ++ (l.0 ∷ (r.0 ∷ drop (suc n) (ids_of x)))) place.parts
          ∙ split-kid place.before place.after place.kid l r n place.number

      within : n ≤ length ks
      within = omega (
        arith,
        Kids-length (Valid ps h) lo hi ks cs kids,
        ap length place.parts,
        length-append place.before (place.kid ∷ place.after),
        place.number,
      )

      -- The node with a separator and a child more.
      grown :
          (id : PageId) (l r : Kid h) (sep : Bytes)
          → 2 * length sep + 39 ≤ ps
          → Kids (Valid ps h) lo hi (put_in ks n sep) (place.before ++ l ∷ r ∷ place.after)
          → internal_insert_split_child (node_of id ks (ids_of cs)) n sep l.0 r.0
            ≡ done (node_of 0 (put_in ks n sep) (ids_of (place.before ++ l ∷ r ∷ place.after)))
      grown id l r sep short good =
          internal_insert_split_child-node_of id ks (ids_of cs) n sep l.0 r.0 is_keys.small one_more
            within
            (record {
              small = omega (arith, total-put_in ks n sep, page.fits);
              ascending =
                  Kids-IsAscending (Valid ps h) lo hi (put_in ks n sep)
                    (place.before ++ l ∷ r ∷ place.after) good;
            })
          ∙ ap (λ x. done (node_of 0 (put_in ks n sep) x)) (grown_ids l r)

      absorb_run :
          (f u1 w1 u2 w2 : WriteTxn IO) (id : PageId) (l r : Kid h) (sep : Bytes)
          (x : InsertResult × WriteTxn IO)
          → alloc f ≡ done (l.0, u1)
          → write u1 l.0 (page_of 0 (content h l.1)) ≡ done w1
          → alloc w1 ≡ done (r.0, u2)
          → write u2 r.0 (page_of 0 (content h r.1)) ≡ done w2
          → internal_insert_split_child (node_of id ks (ids_of cs)) n sep l.0 r.0
            ≡ done (node_of 0 (put_in ks n sep) (ids_of (place.before ++ l ∷ r ∷ place.after)))
          → settles
              (node_of 0 (put_in ks n sep) (ids_of (place.before ++ l ∷ r ∷ place.after)))
              ps
              w2
            ≡ done x
          → absorb f
              (node_of id ks (ids_of cs))
              n
              ps
              (split (page_of 0 (content h l.1)) sep (page_of 0 (content h r.1)))
            ≡ done x
      unfolding absorb
      absorb_run f u1 w1 u2 w2 id l r sep x a1 a2 a3 a4 a5 a6 = rw (a1, a2, a3, a4, a5) a6

      entries_split :
          (l r : PageId) (a b : Tree h) (out : List Entry)
          → entries_of h a ++ entries_of h b ≡ out
          → flat (entries_of h) (place.before ++ (l, a) ∷ (r, b) ∷ place.after)
            ≡ flat (entries_of h) place.before ++ (out ++ flat (entries_of h) place.after)
      entries_split l r a b out e =
          flat-append (entries_of h) place.before ((l, a) ∷ (r, b) ∷ place.after)
          ∙ ap (λ x. flat (entries_of h) place.before ++ x)
              (sym
                  (append_assoc (entries_of h a) (entries_of h b) (flat (entries_of h) place.after))
                ∙ ap (λ x. x ++ flat (entries_of h) place.after) e)

      -- A child that was split: the node gets a separator and a child more, and is split in turn if
      -- it no longer fits its page.
      absorb-split :
          (id : PageId) (t : WriteTxn IO) (m : ℕ) (out : List Entry) (a b : Tree h) (sep : Bytes)
          → Past place.lo' sep
          → Upto place.hi' sep
          → 2 * length sep + 39 ≤ ps
          → Valid ps h place.lo' (some sep) a
          → Valid ps h (some sep) place.hi' b
          → entries_of h a ++ entries_of h b ≡ out
          → Below (txn_read t) h a
          → Below (txn_read t) h b
          → Own t (λ i. uses h a i + (uses h b i + outside i))
          → Grows m t0
              (λ i. uses h place.kid.1 i + outside i)
              t
              (λ i. uses h a i + (uses h b i + outside i))
          → t0.store.writer.next_page_id + (m + 2) < u64_mod
          → (r : InsertResult) × (u : WriteTxn IO) × (absorb
                (free t place.kid.0)
                (node_of id ks (ids_of cs))
                n
                ps
                (split (page_of 0 (content h a)) sep (page_of 0 (content h b)))
              ≡ done (r, u))
            × Outcome ps
                (suc h)
                lo
                hi
                (flat (entries_of h) place.before ++ (out ++ flat (entries_of h) place.after))
                R
                (m + 2)
                t0
                (λ i. spread h cs i + R i)
                u
                r
      absorb-split id t m out a b sep past upto short valid_a valid_b same_entries below_a below_b
            own grows room =
          let Y : PageId → ℕ = λ i. uses h a i + (uses h b i + beside i) in
          let (own1, grows1) = free-Own t Y place.kid.0 (Own-cong (λ i. omega arith) own) in
          let grows2 = Grows-trans m 0 (Grows-cong (λ i. omega arith) grows) grows1 in
          let (l, u1, w1, given1, written1, own3, grows3, back1) =
            renew (free t place.kid.0) place.lo' (some sep) a (λ i. uses h b i + beside i)
              (Grows-page_size grows2 ∙ size0) (omega (arith, grows2.upto_next)) own1 valid_a in
          let grows4 = Grows-trans (m + 0) 1 grows2 grows3 in
          let Z : PageId → ℕ = λ i. uses h b i + (one l i + (uses h a i + beside i)) in
          let grows4' = Grows-cong {Y' = Z} (λ i. omega arith) grows4 in
          let (r, u2, w2, given2, written2, own5, grows5, back2) =
            renew w1 (some sep) place.hi' b (λ i. one l i + (uses h a i + beside i))
              (Grows-page_size grows4 ∙ size0) (omega (arith, grows4.upto_next))
              (Own-cong (λ i. omega arith) own3) valid_b in
          let grows6 = Grows-trans (m + 0 + 1) 1 grows4' grows5 in
          let later = Grows-trans 1 1 (Grows-cong {Y' = Z} (λ i. omega arith) grows3) grows5 in
          let since = Grows-trans 0 2 grows1 later in
          let (front, rear) = brothers (m + 0 + 1 + 1) w2 (λ i. one r i + Z i) grows6 in
          let deep_a =
            Below-frame (txn_read t) (txn_read w2) h a (λ j s. since.same j (omega arith))
              below_a in
          let deep_b =
            Below-frame (txn_read t) (txn_read w2) h b (λ j s. since.same j (omega arith))
              below_b in
          let still = grows5.same l (omega (arith, one_self l)) ∙ back1 in
          let P : Kid h → Type 0 = λ c.
            (txn_read w2 c.0 ≡ done (page_of c.0 (content h c.1))) × Below (txn_read w2) h c.1 in
          let kids' : List (Kid h) = place.before ++ (l, a) ∷ (r, b) ∷ place.after in
          let good = place.grow (l, a) (r, b) sep past upto valid_a valid_b in
          let counted = λ (i : PageId).
            sum-append (λ c. one c.0 i + uses h c.1 i) place.before
              ((l, a) ∷ (r, b) ∷ place.after) in
          let (res, settled, outcome) =
            settles-Outcome ps h lo hi (put_in ks n sep) kids' good
              (each-put_in ps ks n sep short page.each) wide (omega arith)
              (omega (
                arith,
                total-put_in ks n sep,
                length-put_in ks n sep,
                page.fits,
                Kids-length (Valid ps h) lo hi ks cs kids,
              ))
              (omega (
                arith,
                total-put_in ks n sep,
                length-put_in ks n sep,
                page.fits,
                Kids-length (Valid ps h) lo hi ks cs kids,
              ))
              t0 (λ i. spread h cs i + R i) R (m + 2) w2
              ((All-append P place.before ((l, a) ∷ (r, b) ∷ place.after)).1
                (front, ((still, deep_a), ((back2, deep_b), rear))))
              (Own-cong (λ i. omega (arith, counted i)) own5)
              (Grows-cong (λ i. omega (arith, counted i))
                (Grows-widen (m + 2) (omega arith) (λ i. sym (uses-parts i)) grows6)) in
          (
            res,
            w2,
            absorb_run (free t place.kid.0) u1 w1 u2 w2 id (l, a) (r, b) sep (res, w2) given1
                written1 given2 written2 (grown id (l, a) (r, b) sep short good) settled,
            Outcome-out (entries_split l r a b out same_entries) outcome,
          )

      -- Whatever came of the child.
      pub absorb-Outcome :
          (id : PageId) (t : WriteTxn IO) (m : ℕ) (out : List Entry) (r : InsertResult)
          → Outcome ps h place.lo' place.hi' out outside m t0
              (λ i. uses h place.kid.1 i + outside i)
              t
              r
          → t0.store.writer.next_page_id + (m + 2) < u64_mod
          → (r' : InsertResult) × (u : WriteTxn IO) × (absorb
                (free t place.kid.0)
                (node_of id ks (ids_of cs))
                n
                ps
                r
              ≡ done (r', u))
            × Outcome ps
                (suc h)
                lo
                hi
                (flat (entries_of h) place.before ++ (out ++ flat (entries_of h) place.after))
                R
                (m + 2)
                t0
                (λ i. spread h cs i + R i)
                u
                r'
      absorb-Outcome id t m out r (fits a e v s b o g) room =
          let (r', u, run, outcome) = absorb-single id t m out a v s b o g room in
          (
            r',
            u,
            ap (λ x. absorb (free t place.kid.0) (node_of id ks (ids_of cs)) n ps x) e ∙ run,
            outcome,
          )
      absorb-Outcome id t m out r (splits a b sep e past upto short va vb s ba bb o g) room =
          let (r', u, run, outcome) =
            absorb-split id t m out a b sep past upto short va vb s ba bb o g room in
          (
            r',
            u,
            ap (λ x. absorb (free t place.kid.0) (node_of id ks (ids_of cs)) n ps x) e ∙ run,
            outcome,
          )
