-- ===== src/Base/Bytes.antt =====
-- Bytes as numbers: `u64::to_le_bytes`, `u64::from_le_bytes`, and the serializer that the program
-- takes from the crate bincode.
use Prim.Native.Nat.{ℕ, zero, suc, ◌+◌, ◌*◌, ◌/◌, ◌%◌, ◌^◌, ◌<◌}
use native.Mathlib.Nat.{pow-suc}
use mathlib.Core.Path.{◌≡◌, refl, ap}
use mathlib.Core.List.{List, [], ◌∷◌, ◌++◌}
use native.Mathlib.Omega.{arith}
use rtain.Base.Lists.{length, take, drop}
use rtain.Base.Failure.{Outcome, ok}

abbrev pub Bytes : Type 0
Bytes = List ℕ

-- The `k` low bytes of a number, the lowest first.
unfoldable pub le_bytes : ℕ → ℕ → Bytes
le_bytes zero n = []
le_bytes (suc k) n = (n % 256) ∷ le_bytes k (n / 256)

unfoldable pub from_le_bytes : Bytes → ℕ
from_le_bytes [] = 0
from_le_bytes (b ∷ bs) = b + 256 * from_le_bytes bs

pub length-le_bytes : (k n : ℕ) → length (le_bytes k n) ≡ k
unfolding le_bytes
length-le_bytes zero n = refl
length-le_bytes (suc k) n = ap suc (length-le_bytes k (n / 256))

-- A number below 256 ^ k is read back from its k bytes.
pub from-le_bytes : (k n : ℕ) → n < 256 ^ k → from_le_bytes (le_bytes k n) ≡ n
unfolding le_bytes from_le_bytes
from-le_bytes zero n h = omega arith
from-le_bytes (suc k) n h = omega (arith, from-le_bytes k (n / 256) (omega (arith, pow-suc 256 k)))

-- The k bytes of a number are what the first k of a longer text are.
pub take-le_bytes : (k n : ℕ) (more : Bytes) → take k (le_bytes k n ++ more) ≡ le_bytes k n
unfolding le_bytes
take-le_bytes zero n more = refl
take-le_bytes (suc k) n more = ap (λ l. (n % 256) ∷ l) (take-le_bytes k (n / 256) more)

pub drop-le_bytes : (k n : ℕ) (more : Bytes) → drop k (le_bytes k n ++ more) ≡ more
unfolding le_bytes
drop-le_bytes zero n more = refl
drop-le_bytes (suc k) n more = drop-le_bytes k (n / 256) more

-- `bincode::serialize` and `bincode::deserialize` at one type.
pub record Codec (A : Type 0) : Type 0 where
  pub serialize : A → Outcome Bytes
  pub deserialize : Bytes → Outcome A

-- What is documented of it: what was serialized is read back, and a `Vec` holds less than 2 ^ 63 bytes.
pub record IsLawful {A : Type 0} (c : Codec A) : Type 0 where
  pub round_trip : (a : A) (bytes : Bytes) → c.serialize a ≡ ok bytes → c.deserialize bytes ≡ ok a
  pub fits : (a : A) (bytes : Bytes) → c.serialize a ≡ ok bytes → length bytes < 2 ^ 63
