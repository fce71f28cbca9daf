-- ===== src/Prelude/Int.antt =====
-- Signed integers over the native numbers, under the library's names, and the 64-bit and 32-bit
-- operations on them that the program and its database use.
use Prim.Native.Nat.{ℕ, suc, ◌+◌, ◌-◌, ◌%◌, ◌≤◌}
use mathlib.Core.Path.{◌≡◌}
use mathlib.Core.Bool.{Bool, true, ◌&&◌, not}
use mathlib.Core.Option.{Option, none, some}
use native.Mathlib.Omega.{arith}
use mcp_host.Prelude.Tests.{ltb, leb, if◌then◌else◌}

-- `negsuc n` is -(n + 1).
pub data ℤ : Type 0 where
  pos : ℕ → ℤ
  negsuc : ℕ → ℤ

abbrev pub pos_part : ℤ → ℕ
pos_part (pos n) = n
pos_part (negsuc n) = 0

abbrev pub neg_part : ℤ → ℕ
neg_part (pos n) = 0
neg_part (negsuc n) = suc n

abbrev pub sub_ℕ : ℕ → ℕ → ℤ
sub_ℕ a b = if leb b a then pos (a - b) else negsuc (b - a - 1)

infixl 65 ◌+ℤ◌ ◌-ℤ◌
infix 50 ◌≤ℤ◌
unfoldable pub ◌+ℤ◌ : ℤ → ℤ → ℤ
a +ℤ b = sub_ℕ (pos_part a + pos_part b) (neg_part a + neg_part b)

unfoldable pub ◌-ℤ◌ : ℤ → ℤ → ℤ
a -ℤ b = sub_ℕ (pos_part a + neg_part b) (neg_part a + pos_part b)

abbrev pub ◌≤ℤ◌ : ℤ → ℤ → Type 0
a ≤ℤ b = pos_part a + neg_part b ≤ pos_part b + neg_part a

abbrev pub ltb_ℤ : ℤ → ℤ → Bool
ltb_ℤ a b = ltb (pos_part a + neg_part b) (pos_part b + neg_part a)

abbrev pub i64_max : ℤ
i64_max = pos 9223372036854775807

abbrev pub i64_min : ℤ
i64_min = negsuc 9223372036854775807

abbrev pub i64_mod : ℤ
i64_mod = pos 18446744073709551616

abbrev pub i32_max : ℕ
i32_max = 2147483647

abbrev pub InI64 : ℤ → Type 0
InI64 a = (i64_min ≤ℤ a) × (a ≤ℤ i64_max)

abbrev pub in_i64 : ℤ → Bool
in_i64 a = not (ltb_ℤ i64_max a) && not (ltb_ℤ a i64_min)

-- `a + b` on `i64` in a release build: the sum of two values of the type, wrapped once.
unfoldable pub add_i64 : ℤ → ℤ → ℤ
add_i64 a b =
    let s = a +ℤ b in
    if ltb_ℤ i64_max s then s -ℤ i64_mod else if ltb_ℤ s i64_min then s +ℤ i64_mod else s

-- `a - b` on `i64` in a release build.
unfoldable pub sub_i64 : ℤ → ℤ → ℤ
sub_i64 a b =
    let s = a -ℤ b in
    if ltb_ℤ i64_max s then s -ℤ i64_mod else if ltb_ℤ s i64_min then s +ℤ i64_mod else s

-- `i64::saturating_sub`
unfoldable pub saturating_sub_i64 : ℤ → ℤ → ℤ
saturating_sub_i64 a b =
    let s = a -ℤ b in if ltb_ℤ i64_max s then i64_max else if ltb_ℤ s i64_min then i64_min else s

-- A `BIGINT` sum in the database, which is an error out of range.
unfoldable pub checked_add_i64 : ℤ → ℤ → Option ℤ
checked_add_i64 a b = let s = a +ℤ b in if in_i64 s then some s else none

pub +ℤ_parts :
    (a b : ℤ)
    → pos_part (a +ℤ b) + neg_part a + neg_part b ≡ neg_part (a +ℤ b) + pos_part a + pos_part b
unfolding ◌+ℤ◌
+ℤ_parts a b = ground arith

pub -ℤ_parts :
    (a b : ℤ)
    → pos_part (a -ℤ b) + neg_part a + pos_part b ≡ neg_part (a -ℤ b) + pos_part a + neg_part b
unfolding ◌-ℤ◌
-ℤ_parts a b = ground arith

pub eq_of_parts : (a b : ℤ) → pos_part a + neg_part b ≡ pos_part b + neg_part a → a ≡ b
eq_of_parts a b h = ground arith

pub ruleset int_laws = (arith, +ℤ_parts, -ℤ_parts, eq_of_parts)

-- Where the database accepts a sum, the program's own sum of the same values has not wrapped.
pub checked_add_i64-add_i64 :
    (a b : ℤ) {s : ℤ} → checked_add_i64 a b ≡ some s → (add_i64 a b ≡ s) × (s ≡ a +ℤ b) × InI64 s
unfolding checked_add_i64 add_i64
checked_add_i64-add_i64 a b h = ground (arith, +ℤ_parts a b)

pub zero-add_ℤ : (a : ℤ) → pos 0 +ℤ a ≡ a
unfolding ◌+ℤ◌
zero-add_ℤ a = ground arith

pub checked_add_i64-none : (a b : ℤ) → checked_add_i64 a b ≡ none → ¬ InI64 (a +ℤ b)
unfolding checked_add_i64
checked_add_i64-none a b h = ground (arith, +ℤ_parts a b)

pub add_i64_exact : (a b : ℤ) → InI64 (a +ℤ b) → add_i64 a b ≡ a +ℤ b
unfolding add_i64
add_i64_exact a b h = ground arith

abbrev pub eq_ℤ : ℤ → ℤ → Bool
eq_ℤ a b = not (ltb_ℤ a b) && not (ltb_ℤ b a)

pub eq_ℤ_refl : (a : ℤ) → eq_ℤ a a ≡ true
eq_ℤ_refl a = ground arith

-- `i32::saturating_add(1)`
unfoldable pub saturating_inc_i32 : ℤ → ℤ
saturating_inc_i32 a = if ltb_ℤ a (pos i32_max) then a +ℤ pos 1 else pos i32_max

-- `n as i32`, of a number that is not negative
abbrev pub as_i32 : ℕ → ℤ
as_i32 n =
    let low = n % 4294967296 in if leb low i32_max then pos low else negsuc (4294967295 - low)
