-- ===== src/Prelude/Count.antt =====
-- How often a number stands in a list: a list as a multiset.
use Prim.Native.Nat.{ℕ, zero, suc, ◌+◌, ◌≤◌, ◌<◌}
use mathlib.Core.Path.{◌≡◌, refl, ap}
use mathlib.Core.Logic.{◌≢◌}
use mathlib.Core.List.{List, [], ◌∷◌, ◌++◌}
use native.Mathlib.Decide.{ℕ_discrete}
use native.Mathlib.Omega.{arith}
use ucu_de_distributed_algor.Prelude.Lists.{length, take, get_elem?, All}
use mathlib.Core.Option.{some, some-injective}
use ucu_de_distributed_algor.Prelude.Tests.{◌==◌, if◌then◌else◌, ==_self}

abbrev pub one : ℕ → ℕ → ℕ
one a i = if a == i then 1 else 0

abbrev pub count : List ℕ → ℕ → ℕ
count [] i = 0
count (x ∷ xs) i = one x i + count xs i

pub one_self : (a : ℕ) → one a a ≡ 1
one_self a = ground (arith, ==_self a)

pub one_ne : (a i : ℕ) → a ≢ i → one a i ≡ 0
one_ne a i n = ground arith

pub one_eq : (a i : ℕ) → 1 ≤ one a i → a ≡ i
one_eq a i h = ground arith

pub count-append : (xs ys : List ℕ) (i : ℕ) → count (xs ++ ys) i ≡ count xs i + count ys i
count-append [] ys i = omega arith
count-append (x ∷ xs) ys i = omega (arith, count-append xs ys i)

pub count-snoc : (xs : List ℕ) (a i : ℕ) → count (xs ++ a ∷ []) i ≡ count xs i + one a i
count-snoc xs a i = omega (arith, count-append xs (a ∷ []) i)

pub count-take : (n : ℕ) (xs : List ℕ) (i : ℕ) → count (take n xs) i ≤ count xs i
count-take zero xs i = omega arith
count-take (suc n) [] i = omega arith
count-take (suc n) (x ∷ xs) i = omega (arith, count-take n xs i)

pub one_le : (a i : ℕ) → one a i ≤ 1
one_le a i = ground arith

-- Of every number that stands in the list.
pub All-of_count {κ} : (P : ℕ → Type κ) (xs : List ℕ) → ((i : ℕ) → 1 ≤ count xs i → P i) → All P xs
All-of_count P [] h = tt
All-of_count P (x ∷ xs) h =
    (h x (omega (arith, one_self x)), All-of_count P xs (λ i k. h i (omega arith)))

without : ℕ → List ℕ → List ℕ
without a [] = []
without a (x ∷ xs) = if x == a then without a xs else x ∷ without a xs

length-without : (a : ℕ) (xs : List ℕ) → length xs ≡ length (without a xs) + count xs a
unfolding without
length-without a [] = omega arith
length-without a (x ∷ xs) = ground (arith, length-without a xs)

count-without : (a : ℕ) (xs : List ℕ) (i : ℕ) → count (without a xs) i ≤ count xs i
unfolding without
count-without a [] i = omega arith
count-without a (x ∷ xs) i = ground (arith, count-without a xs i)

count-without_self : (a : ℕ) (xs : List ℕ) → count (without a xs) a ≡ 0
unfolding without
count-without_self a [] = refl
count-without_self a (x ∷ xs) = ground (arith, count-without_self a xs)

-- Numbers below `n` with none twice are `n` at most.
pub length-le_of_count :
    (n : ℕ) (xs : List ℕ)
    → ((i : ℕ) → count xs i ≤ 1)
    → ((i : ℕ) → 1 ≤ count xs i → i < n)
    → length xs ≤ n
length-le_of_count n [] once below = omega arith
length-le_of_count zero (x ∷ xs) once below =
    absurd (omega (arith, below x (omega (arith, one_self x))))
length-le_of_count (suc n) (x ∷ xs) once below =
    let rest = without n (x ∷ xs) in
    omega (
      arith,
      length-without n (x ∷ xs),
      once n,
      length-le_of_count n rest (λ i. fewer i) (λ i h. lower i h),
    )
  where
    fewer : (i : ℕ) → count (without n (x ∷ xs)) i ≤ 1
    fewer i = omega (arith, once i, count-without n (x ∷ xs) i)

    lower : (i : ℕ) → 1 ≤ count (without n (x ∷ xs)) i → i < n
    lower i h = elim (ℕ_discrete i n) [
      | yes e ↦
          absurd
            (omega (arith, ap (λ k. count (without n (x ∷ xs)) k) e, count-without_self n (x ∷ xs)))
      | no d ↦ omega (arith, below i (omega (arith, count-without n (x ∷ xs) i)))
    ]

pub count_at : (xs : List ℕ) (i a : ℕ) → get_elem? xs i ≡ some a → 1 ≤ count xs a
count_at [] i a h = cc
count_at (x ∷ xs) zero a h = rw (some-injective _ _ h) (omega (arith, one_self a))
count_at (x ∷ xs) (suc i) a h = omega (arith, count_at xs i a h)
