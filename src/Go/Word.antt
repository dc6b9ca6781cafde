-- ===== src/Go/Word.antt =====
-- Go's `int64` (and `int`, 64 bits wide): the two's-complement bit pattern, a number below 2 ^ 64.
use binboi_go.Base.{ℕ, ◌+◌, ◌-◌, ◌%◌, ◌^◌, ◌≤◌, ◌<◌, ◌≡◌, Bool, arith, ltb, refl}

abbrev pub Int64 : Type 0
Int64 = ℕ

-- Bit patterns from here on stand for negative numbers.
abbrev pub sign_bit : ℕ
sign_bit = 2 ^ 63

abbrev pub modulus : ℕ
modulus = 2 ^ 64

-- `a + b` and `a - b`, wrapping.
unfoldable pub add : Int64 → Int64 → Int64
add a b = (a + b) % modulus

unfoldable pub sub : Int64 → Int64 → Int64
sub a b = (a + modulus - b) % modulus

-- `a < b` on signed numbers: the patterns compared after a shift by half the range.
unfoldable pub slt : Int64 → Int64 → Bool
slt a b = ltb ((a + sign_bit) % modulus) ((b + sign_bit) % modulus)

-- A number that is not negative.
abbrev pub IsNat : Int64 → Type 0
IsNat a = a < sign_bit

-- Where both operands and the sum are representable, nothing wraps.
pub add-eq : (a b : Int64) → a + b < modulus → add a b ≡ a + b
unfolding add
add-eq a b h = omega arith

pub sub-eq : (a b : Int64) → b ≤ a → a < modulus → sub a b ≡ a - b
unfolding sub
sub-eq a b h l = omega arith

pub slt-ltb : (a b : Int64) → IsNat a → IsNat b → slt a b ≡ ltb a b
unfolding slt
slt-ltb a b h k = ground arith

slt_test : slt (modulus - 1) 0 ≡ Bool.true
unfolding slt
slt_test = refl
