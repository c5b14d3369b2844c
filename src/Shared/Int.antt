-- ===== src/Shared/Int.antt =====
-- Signed integers over the native numbers, and Go's `int` (64 bits, sums wrap around).
use Prim.Native.Nat.{ℕ, suc, ◌+◌, ◌-◌, ◌≤◌, ◌<◌}
use mathlib.Core.Bool.{Bool}
use opensearch_query_gateway.Shared.Tests.{ltb, leb, if◌then◌else◌}

-- `negsuc n` is -(n + 1).
pub data ℤ : Type 0 where
  pos : ℕ → ℤ
  negsuc : ℕ → ℤ

abbrev pub pos_part : ℤ → ℕ
pos_part (pos n) = n
pos_part (negsuc n) = 0

abbrev pub neg_part : ℤ → ℕ
neg_part (pos n) = 0
neg_part (negsuc n) = suc n

-- a - b, as an integer.
abbrev pub sub_ℕ : ℕ → ℕ → ℤ
sub_ℕ a b = if leb b a then pos (a - b) else negsuc (b - a - 1)

infix 50 ◌≤ℤ◌
abbrev pub ◌≤ℤ◌ : ℤ → ℤ → Type 0
a ≤ℤ b = pos_part a + neg_part b ≤ pos_part b + neg_part a

abbrev pub ltb_ℤ : ℤ → ℤ → Bool
ltb_ℤ a b = ltb (pos_part a + neg_part b) (pos_part b + neg_part a)

abbrev pub leb_ℤ : ℤ → ℤ → Bool
leb_ℤ a b = leb (pos_part a + neg_part b) (pos_part b + neg_part a)

-- 2 ^ 63, one more than the largest `int`.
abbrev pub int_limit : ℕ
int_limit = 9223372036854775808

abbrev pub int_modulus : ℕ
int_modulus = 18446744073709551616

-- A value of Go's `int`.
abbrev pub IsInt : ℤ → Type 0
IsInt a = (pos_part a < int_limit) × (neg_part a ≤ int_limit)

-- `a + b` of two `int` values: the sum of their parts, brought back into range by one modulus.
unfoldable pub add_int : ℤ → ℤ → ℤ
add_int a b =
    let p = pos_part a + pos_part b in
    let n = neg_part a + neg_part b in
    if leb (n + int_limit) p
    then sub_ℕ p (n + int_modulus)
    else if ltb (p + int_limit) n
    then sub_ℕ (p + int_modulus) n
    else sub_ℕ p n
