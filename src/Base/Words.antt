-- ===== src/Base/Words.antt =====
-- Arithmetic of `u32`, in a debug build, which checks for overflow, and in a release build, which
-- wraps.
use Prim.Native.Nat.{ℕ, zero, suc, ◌+◌, ◌-◌, ◌*◌, ◌/◌, ◌%◌, ◌^◌}
use rtain.Base.Int.{ℤ, pos, negsuc}
use rtain.Base.Tests.{ltb, leb, if◌then◌else◌}
use rtain.Base.Failure.{Outcome, ok, panic}

pub data Profile : Type 0 where
  debug release : Profile

-- What an overflow does: a panic, or the value that wraps.
abbrev pub overflow : Profile → ℕ → Outcome ℕ
overflow debug wrapped = panic
overflow release wrapped = ok wrapped

unfoldable pub add_u32 : Profile → ℕ → ℕ → Outcome ℕ
add_u32 p a b = if ltb (a + b) (2 ^ 32) then ok (a + b) else overflow p ((a + b) % 2 ^ 32)

unfoldable pub sub_u32 : Profile → ℕ → ℕ → Outcome ℕ
sub_u32 p a b = if ltb a b then overflow p (a + 2 ^ 32 - b) else ok (a - b)

-- `2u32.pow(n)`
unfoldable pub pow2_u32 : Profile → ℕ → Outcome ℕ
pow2_u32 p n = if ltb n 32 then ok (2 ^ n) else overflow p 0

-- `1u32 << n`, where a release build takes the shift modulo 32.
unfoldable pub shl1_u32 : Profile → ℕ → Outcome ℕ
shl1_u32 p n = if ltb n 32 then ok (2 ^ n) else overflow p (2 ^ (n % 32))

-- `x & !(s - 1)` at a power of two `s`.
abbrev pub clear_low : ℕ → ℕ → ℕ
clear_low x s = x / s * s

unfoldable pub add_u64 : Profile → ℕ → ℕ → Outcome ℕ
add_u64 p a b = if ltb (a + b) (2 ^ 64) then ok (a + b) else overflow p ((a + b) % 2 ^ 64)

unfoldable pub sub_u64 : Profile → ℕ → ℕ → Outcome ℕ
sub_u64 p a b = if ltb a b then overflow p (a + 2 ^ 64 - b) else ok (a - b)

unfoldable pub mul_u64 : Profile → ℕ → ℕ → Outcome ℕ
mul_u64 p a b = if ltb (a * b) (2 ^ 64) then ok (a * b) else overflow p (a * b % 2 ^ 64)

-- The `i64` of 64 bits.
abbrev signed : ℕ → ℤ
signed r = if ltb r (2 ^ 63) then pos r else negsuc (2 ^ 64 - r - 1)

abbrev overflow_i64 : Profile → ℕ → Outcome ℤ
overflow_i64 debug bits = panic
overflow_i64 release bits = ok (signed bits)

-- A product with a factor that is not negative.
unfoldable pub mul_i64 : Profile → ℤ → ℕ → Outcome ℤ
mul_i64 p (pos a) b =
    if ltb (a * b) (2 ^ 63) then ok (pos (a * b)) else overflow_i64 p (a * b % 2 ^ 64)
mul_i64 p (negsuc a) zero = ok (pos 0)
mul_i64 p (negsuc a) (suc b) =
    let size = (a + 1) * (b + 1) in
    if leb size (2 ^ 63)
    then ok (negsuc (size - 1))
    else overflow_i64 p ((2 ^ 64 - size % 2 ^ 64) % 2 ^ 64)
