-- ===== src/Network/BitVec.antt =====
-- What src/core/network/ipam.rs uses of `BitVec<u8>` of the crate bitvec.
use rtain.Base.{
  ℕ, ◌+◌, ◌*◌, ◌/◌, ◌<◌, ◌≡◌, Bool, true, false, Option, none, some, ◌==◌, if◌then◌else◌,
}
use rtain.Base.Bytes.{Bytes}

pub record BitVec : Type 1 where
  pub Bits : Type 0
  -- `BitVec::new()` and `resize(n, false)`
  pub zeros : ℕ → Bits
  pub len : Bits → ℕ
  -- `bits[i]`, at an index in range
  pub get : Bits → ℕ → Bool
  -- `set`, at an index in range
  pub set : Bits → ℕ → Bool → Bits
  pub first_zero : Bits → Option ℕ
  -- `as_raw_slice().to_vec()` and `from_vec`
  pub to_bytes : Bits → Bytes
  pub from_bytes : Bytes → Bits

-- What is documented of it.
pub record IsLawful (B : BitVec) : Type 0 where
  pub len-zeros : (n : ℕ) → B.len (B.zeros n) ≡ n
  pub get-zeros : (n i : ℕ) → i < n → B.get (B.zeros n) i ≡ false
  pub len-set : (b : B.Bits) (i : ℕ) (v : Bool) → i < B.len b → B.len (B.set b i v) ≡ B.len b
  pub get-set :
      (b : B.Bits) (i j : ℕ) (v : Bool)
      → i < B.len b
      → B.get (B.set b i v) j ≡ (if i == j then v else B.get b j)
  pub first_zero-some :
      (b : B.Bits) (i : ℕ)
      → B.first_zero b ≡ some i
      → (i < B.len b) × (B.get b i ≡ false) × ((j : ℕ) → j < i → B.get b j ≡ true)
  pub first_zero-none :
      (b : B.Bits) → B.first_zero b ≡ none → (j : ℕ) → j < B.len b → B.get b j ≡ true
  -- whole bytes are stored
  pub len-reload : (b : B.Bits) → B.len (B.from_bytes (B.to_bytes b)) ≡ (B.len b + 7) / 8 * 8
  pub get-reload :
      (b : B.Bits) (i : ℕ) → i < B.len b → B.get (B.from_bytes (B.to_bytes b)) i ≡ B.get b i
