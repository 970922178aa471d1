-- ===== src/Page/Tags.antt =====
-- The page-type tags of 01-btree/src/page/mod.rs, the ranges of the integer types and their checked
-- arithmetic. `usize` and `u64` sums of lengths in memory are taken as unbounded.
use ucu_de_distributed_algor.Prelude.{
  ℕ, ◌+◌, ◌-◌, ◌*◌, ◌^◌, ◌≤◌, ◌<◌, ◌≡◌, ltb, leb, if◌then◌else◌, lt→ltb, le→leb, Run, done, panic,
}

abbrev pub page_type_header : ℕ
page_type_header = 0x2a

abbrev pub page_type_leaf : ℕ
page_type_leaf = 0x01

abbrev pub page_type_internal : ℕ
page_type_internal = 0x02

abbrev pub page_type_free_list : ℕ
page_type_free_list = 0x03

-- `PageId` is a `u64`.
abbrev pub PageId : Type 0
PageId = ℕ

abbrev pub u16_mod : ℕ
u16_mod = 2 ^ 16

abbrev pub u32_mod : ℕ
u32_mod = 2 ^ 32

abbrev pub u64_mod : ℕ
u64_mod = 2 ^ 64

-- `a + b` on `u16`
unfoldable pub add_u16 : ℕ → ℕ → Run ℕ
add_u16 a b = if ltb (a + b) u16_mod then done (a + b) else panic

-- `a * b` on `u16`
unfoldable pub mul_u16 : ℕ → ℕ → Run ℕ
mul_u16 a b = if ltb (a * b) u16_mod then done (a * b) else panic

-- `a - b` on an unsigned type of any width
unfoldable pub sub_checked : ℕ → ℕ → Run ℕ
sub_checked a b = if leb b a then done (a - b) else panic

pub add_u16_fits : (a b : ℕ) → a + b < u16_mod → add_u16 a b ≡ done (a + b)
unfolding add_u16
add_u16_fits a b h = rw (lt→ltb (a + b) u16_mod h)

pub sub_checked_fits : (a b : ℕ) → b ≤ a → sub_checked a b ≡ done (a - b)
unfolding sub_checked
sub_checked_fits a b h = rw (le→leb b a h)

pub mul_u16_fits : (a b : ℕ) → a * b < u16_mod → mul_u16 a b ≡ done (a * b)
unfolding mul_u16
mul_u16_fits a b h = rw (lt→ltb (a * b) u16_mod h)
