-- ===== src/Int64.antt =====
-- Go's int64 and uint64, as the 64 bits they hold: a number below 2 ^ 64. The operations wrap
-- around, and the orders of the two types read the bits with and without a sign.
use drivechain_litwindow.Prelude.{
  ℕ, ◌+◌, ◌-◌, ◌*◌, ◌/◌, ◌%◌, ◌^◌, ◌≤◌, ◌<◌, ◌≡◌, Bool, arith, leb, ltb, if◌then◌else◌,
}

unfoldable pub i64_add : ℕ → ℕ → ℕ
i64_add a b = (a + b) % 2 ^ 64

unfoldable pub i64_sub : ℕ → ℕ → ℕ
i64_sub a b = (a + (2 ^ 64 - b % 2 ^ 64)) % 2 ^ 64

unfoldable pub i64_mul : ℕ → ℕ → ℕ
i64_mul a b = (a * b) % 2 ^ 64

-- a / k by a positive constant k, rounded towards 0
unfoldable pub i64_div : ℕ → ℕ → ℕ
i64_div a k = if ltb a (2 ^ 63) then a / k else (2 ^ 64 - (2 ^ 64 - a) / k) % 2 ^ 64

-- a ≤ b, of signed numbers
unfoldable pub i64_leb : ℕ → ℕ → Bool
i64_leb a b = leb ((a + 2 ^ 63) % 2 ^ 64) ((b + 2 ^ 63) % 2 ^ 64)

-- a < b, of signed numbers
unfoldable pub i64_ltb : ℕ → ℕ → Bool
i64_ltb a b = ltb ((a + 2 ^ 63) % 2 ^ 64) ((b + 2 ^ 63) % 2 ^ 64)

-- The bits of a signed number that is not negative.
abbrev pub IsNat63 : ℕ → Type 0
IsNat63 n = n < 2 ^ 63

pub i64_add_lem : (a b : ℕ) → IsNat63 (a + b) → i64_add a b ≡ a + b
unfolding i64_add
i64_add_lem a b h = omega arith

pub i64_sub_lem : (a b : ℕ) → IsNat63 a → b ≤ a → i64_sub a b ≡ a - b
unfolding i64_sub
i64_sub_lem a b h k = omega arith

pub i64_mul_lem : (a b : ℕ) → IsNat63 (a * b) → i64_mul a b ≡ a * b
unfolding i64_mul
i64_mul_lem a b h = omega arith

pub i64_leb_lem : (a b : ℕ) → IsNat63 a → IsNat63 b → i64_leb a b ≡ leb a b
unfolding i64_leb
i64_leb_lem a b h k = ground arith

pub i64_ltb_lem : (a b : ℕ) → IsNat63 a → IsNat63 b → i64_ltb a b ≡ ltb a b
unfolding i64_ltb
i64_ltb_lem a b h k = ground arith

pub i64_div_lem : (a k : ℕ) → IsNat63 a → i64_div a k ≡ a / k
unfolding i64_div
i64_div_lem a k h = ground arith
