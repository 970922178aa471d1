-- ===== src/Page/Keys.antt =====
-- Lists of keys in strictly ascending order, and where a key belongs in one. The leaf and the
-- internal page are both searched through these lemmas.
use ucu_de_distributed_algor.Prelude.{
  ℕ, zero, suc, ◌≤◌, ◌<◌, ◌≡◌, sym, ap, ◌∙◌, Bool, true, false, some, List, [], ◌∷◌, ◌++◌, arith,
  if◌then◌else◌, length, get_elem?, All, get_elem?-split, get_elem?_lt, All-append, All-get,
}
use ucu_de_distributed_algor.Bytes.{Bytes, lt_bytes, le_bytes}
use ucu_de_distributed_algor.Bytes.Order.{◌≺◌, cmp_refl, eq_of_cmp, lt_of_gt, lt_trans}
use mathlib.Core.Option.{some-injective}
use native.Mathlib.Decide.{dec_lt, ℕ_discrete}

abbrev pub IsAscending : List Bytes → Type 0
IsAscending [] = Unit {0}
IsAscending (k ∷ ks) = All (λ x. k ≺ x) ks × IsAscending ks

-- The number of keys in front that pass a test.
unfoldable pub prefix_len : (Bytes → Bool) → List Bytes → ℕ
prefix_len p [] = 0
prefix_len p (k ∷ ks) = if p k then suc (prefix_len p ks) else 0

-- The number of keys below `q`, and of keys not above `q`.
abbrev pub rank : List Bytes → Bytes → ℕ
rank ks q = prefix_len (λ k. lt_bytes k q) ks

abbrev pub rank_le : List Bytes → Bytes → ℕ
rank_le ks q = prefix_len (λ k. le_bytes k q) ks

pub prefix_len-le : (p : Bytes → Bool) (ks : List Bytes) → prefix_len p ks ≤ length ks
unfolding prefix_len
prefix_len-le p [] = omega arith
prefix_len-le p (k ∷ ks) = ground (arith, prefix_len-le p ks)

-- Every key in front of that place passes the test,
pub prefix_len_pass :
    (p : Bytes → Bool) (ks : List Bytes) (i : ℕ) (k : Bytes)
    → get_elem? ks i ≡ some k
    → i < prefix_len p ks
    → p k ≡ true
unfolding prefix_len
prefix_len_pass p [] i k e h = cc
prefix_len_pass p (x ∷ ks) zero k e h = ground arith
prefix_len_pass p (x ∷ ks) (suc i) k e h = ground (arith, prefix_len_pass p ks i k)

-- and the key at that place fails it.
pub prefix_len_fail :
    (p : Bytes → Bool) (ks : List Bytes) (k : Bytes)
    → get_elem? ks (prefix_len p ks) ≡ some k
    → p k ≡ false
unfolding prefix_len
prefix_len_fail p [] k e = cc
prefix_len_fail p (x ∷ ks) k e = ground (arith, prefix_len_fail p ks k)

pub All_at :
    (k : Bytes) (ks : List Bytes) (j : ℕ) (x : Bytes)
    → All (λ y. k ≺ y) ks
    → get_elem? ks j ≡ some x
    → k ≺ x
All_at k ks j x a e = All-get (λ y. k ≺ y) ks j x e a

-- Keys at ascending places ascend.
pub ascending_at :
    (ks : List Bytes) (i j : ℕ) (a b : Bytes)
    → IsAscending ks
    → i < j
    → get_elem? ks i ≡ some a
    → get_elem? ks j ≡ some b
    → a ≺ b
ascending_at [] i j a b s h p q = cc
ascending_at (x ∷ ks) i zero a b s h p q = absurd (omega arith)
ascending_at (x ∷ ks) zero (suc j) a b s h p q = rw (← some-injective _ _ p) (All_at x ks j b s.0 q)
ascending_at (x ∷ ks) (suc i) (suc j) a b s h p q = ascending_at ks i j a b s.1 (omega arith) p q

pub lt_bytes_true : (a b : Bytes) → lt_bytes a b ≡ true → a ≺ b
unfolding lt_bytes
lt_bytes_true a b h = ground arith

pub le_bytes_false : (a b : Bytes) → le_bytes a b ≡ false → b ≺ a
unfolding le_bytes
le_bytes_false a b h = ground (arith, lt_of_gt a b)

pub lt_bytes_of : (a b : Bytes) → a ≺ b → lt_bytes a b ≡ true
unfolding lt_bytes
lt_bytes_of a b h = ground arith

pub lt_bytes_irrefl : (a : Bytes) → lt_bytes a a ≡ false
unfolding lt_bytes
lt_bytes_irrefl a = ground (arith, cmp_refl a)

pub le_bytes_of_lt : (a b : Bytes) → a ≺ b → le_bytes a b ≡ true
unfolding le_bytes
le_bytes_of_lt a b h = ground arith

pub le_bytes_refl : (a : Bytes) → le_bytes a a ≡ true
unfolding le_bytes
le_bytes_refl a = ground (arith, cmp_refl a)

pub le_lt_bytes_trans : (a b c : Bytes) → a ≺ b → le_bytes b c ≡ true → le_bytes a c ≡ true
unfolding le_bytes
le_lt_bytes_trans a b c h k = ground (arith, lt_trans a b c, eq_of_cmp b c)

-- A test that holds below each key that passes it: it holds of the keys in front and of no other.
module _ (p : Bytes → Bool) (ks : List Bytes) (s : IsAscending ks)
    (down : (a b : Bytes) → a ≺ b → p b ≡ true → p a ≡ true) where
  pub pass_lt_prefix :
      (i : ℕ) (k : Bytes) → get_elem? ks i ≡ some k → p k ≡ true → i < prefix_len p ks
  pass_lt_prefix i k e h = elim (dec_lt i (prefix_len p ks)) [
    | yes l ↦ l
    | no n ↦
        let inside = (get_elem?-split ks i k e).1 in
        let (b, f) = get_elem?_lt ks (prefix_len p ks) (omega arith) in
        let fails = prefix_len_fail p ks b f in
        elim (ℕ_discrete (prefix_len p ks) i) [
          | yes same ↦ absurd (
              true_false
                (sym (rw (some-injective _ _ (sym f ∙ (ap (get_elem? ks) same ∙ e))) at fails) ∙ h))
          | no other ↦ absurd (
              true_false (
                sym fails
                ∙ down b k (ascending_at ks (prefix_len p ks) i b k s (omega arith) f e) h))
        ]
  ]
    where
      true_false : false ≡ true → ⊥
      true_false z = cc

  pub fail_ge_prefix :
      (i : ℕ) (k : Bytes) → get_elem? ks i ≡ some k → p k ≡ false → prefix_len p ks ≤ i
  fail_ge_prefix i k e h = elim (dec_lt i (prefix_len p ks)) [
    | yes l ↦ absurd (true_false (sym h ∙ prefix_len_pass p ks i k e l))
    | no n ↦ omega arith
  ]
    where
      true_false : false ≡ true → ⊥
      true_false z = cc

pub rank_down : (q a b : Bytes) → a ≺ b → lt_bytes b q ≡ true → lt_bytes a q ≡ true
rank_down q a b h k = lt_bytes_of a q (lt_trans a b q h (lt_bytes_true b q k))

pub rank_le_down : (q a b : Bytes) → a ≺ b → le_bytes b q ≡ true → le_bytes a q ≡ true
rank_le_down q a b h k = le_lt_bytes_trans a b q h k

-- A key that is in the list stands at its rank.
pub rank_self :
    (ks : List Bytes) (q : Bytes) (i : ℕ) → IsAscending ks → get_elem? ks i ≡ some q → rank ks q ≡ i
rank_self ks q i s e =
    let p = λ (k : Bytes). lt_bytes k q in
    let above : rank ks q ≤ i = fail_ge_prefix p ks s (rank_down q) i q e (lt_bytes_irrefl q) in
    let inside = (get_elem?-split ks i q e).1 in
    elim (dec_lt (rank ks q) i) [
      | no n ↦ omega arith
      | yes l ↦
          let (b, f) = get_elem?_lt ks (rank ks q) (omega arith) in
          let less = ascending_at ks (rank ks q) i b q s l f e in
          absurd (
            omega
              (arith, pass_lt_prefix p ks s (rank_down q) (rank ks q) b f (lt_bytes_of b q less)))
    ]

pub IsAscending-append :
    (xs ys : List Bytes) → IsAscending (xs ++ ys) → IsAscending xs × IsAscending ys
IsAscending-append [] ys s = (tt, s)
IsAscending-append (x ∷ xs) ys s =
    let (p, q) = IsAscending-append xs ys s.1 in ((((All-append (λ y. x ≺ y) xs ys).0 s.0).0, p), q)

-- In front of a last key stand smaller keys.
pub ascending_last :
    (ks : List Bytes) (k : Bytes) (i : ℕ) (x : Bytes)
    → IsAscending (ks ++ k ∷ [])
    → get_elem? ks i ≡ some x
    → x ≺ k
ascending_last [] k i x s h = cc
ascending_last (y ∷ ks) k zero x s h =
    rw (← some-injective _ _ h) ((All-append (λ z. y ≺ z) ks (k ∷ [])).0 s.0).1.0
ascending_last (y ∷ ks) k (suc i) x s h = ascending_last ks k i x s.1 h
