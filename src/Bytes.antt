-- ===== src/Bytes.antt =====
-- Byte strings and what the code uses of Rust's slices: indexing, sub-slices, `copy_from_slice`,
-- little-endian integers and the lexicographic order of `[u8]`. A byte is a number below 256.
pub mod Laws
pub mod Order
pub mod Words
use ucu_de_distributed_algor.Prelude.{
  ◌>>=◌, ℕ, zero, suc, ◌+◌, ◌-◌, ◌*◌, ◌/◌, ◌%◌, ◌<◌, Ordering, Bool, true, false, ◌&&◌, List, [],
  ◌∷◌, ◌++◌, ltb, leb, ◌==◌, if◌then◌else◌, length, get_elem?, take, drop, Run, done, panic, unwrap,
}
use Prim.Native.Nat.{compare}

abbrev pub Bytes : Type 0
Bytes = List ℕ

abbrev pub IsByte : ℕ → Type 0
IsByte b = b < 256

-- `n.to_le_bytes()` of an integer of `w` bytes
unfoldable pub to_le_bytes : ℕ → ℕ → Bytes
to_le_bytes zero n = []
to_le_bytes (suc w) n = n % 256 ∷ to_le_bytes w (n / 256)

-- `from_le_bytes`
unfoldable pub from_le_bytes : Bytes → ℕ
from_le_bytes [] = 0
from_le_bytes (b ∷ bs) = b + 256 * from_le_bytes bs

module _ {ℓ} {A : Type ℓ} where
  -- `xs[i]`
  unfoldable pub index : List A → ℕ → Run A
  index xs i = unwrap (get_elem? xs i)

  -- `xs[a..b]`
  unfoldable pub slice : List A → ℕ → ℕ → Run (List A)
  slice xs a b = if leb a b && leb b (length xs) then done (take (b - a) (drop a xs)) else panic

  -- `buf[a..b].copy_from_slice(src)`
  unfoldable pub copy_from_slice : List A → ℕ → ℕ → List A → Run (List A)
  copy_from_slice buf a b src =
      if leb a b && leb b (length buf) && length src == b - a
      then done (take a buf ++ (src ++ drop b buf))
      else panic

  -- `buf[i] = v`
  unfoldable pub assign : List A → ℕ → A → Run (List A)
  assign buf i v = if ltb i (length buf) then done (take i buf ++ (v ∷ drop (suc i) buf)) else panic

-- `uN::from_le_bytes(bytes[a..a + w].try_into().unwrap())`, an integer of `w` bytes
unfoldable pub read_le : ℕ → Bytes → ℕ → Run ℕ
read_le w bytes a = slice bytes a (a + w) >>= λ s. done (from_le_bytes s)

-- `buf[a..a + w].copy_from_slice(&n.to_le_bytes())`
unfoldable pub write_le : ℕ → Bytes → ℕ → ℕ → Run Bytes
write_le w buf a n = copy_from_slice buf a (a + w) (to_le_bytes w n)

-- `a == b` on byte strings
unfoldable pub eq_bytes : Bytes → Bytes → Bool
eq_bytes [] [] = true
eq_bytes (a ∷ xs) (b ∷ bs) = a == b && eq_bytes xs bs
eq_bytes _ _ = false

-- `a.cmp(b)` on byte strings
unfoldable pub cmp : Bytes → Bytes → Ordering
cmp [] [] = Ordering.eq
cmp [] (b ∷ bs) = Ordering.lt
cmp (a ∷ xs) [] = Ordering.gt
cmp (a ∷ xs) (b ∷ bs) = elim (compare a b) [
  | Ordering.lt ↦ Ordering.lt
  | Ordering.gt ↦ Ordering.gt
  | Ordering.eq ↦ cmp xs bs
]

-- `a < b` and `a <= b` on byte strings
unfoldable pub lt_bytes : Bytes → Bytes → Bool
lt_bytes a b = elim (cmp a b) [ Ordering.lt ↦ true | _ ↦ false ]

unfoldable pub le_bytes : Bytes → Bytes → Bool
le_bytes a b = elim (cmp a b) [ Ordering.gt ↦ false | _ ↦ true ]
