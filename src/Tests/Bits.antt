-- ===== src/Tests/Bits.antt =====
-- A bitmap as a list of bits, with the behaviour that is documented of `BitVec`.
use rtain.Base.{
  ℕ, zero, suc, ◌+◌, ◌*◌, ◌/◌, ◌-◌, ◌<◌, ◌≡◌, refl, ap, List, [], ◌∷◌, ◌++◌, Option, none, some,
  Bool, true, false, length, arith, ◌==◌, inl, inr, Option-cases, length-append, ◌∙◌, if◌then◌else◌,
}
use mathlib.Core.Option
use mathlib.Core.Path.{subst}
use rtain.Base.Bytes.{Bytes}
use rtain.Network.BitVec.{BitVec, IsLawful}

abbrev pub Bits : Type 0
Bits = List Bool

unfoldable pub zeros : ℕ → Bits
zeros zero = []
zeros (suc n) = false ∷ zeros n

unfoldable pub get : Bits → ℕ → Bool
get [] i = false
get (b ∷ bs) zero = b
get (b ∷ bs) (suc i) = get bs i

unfoldable pub set : Bits → ℕ → Bool → Bits
set [] i v = []
set (b ∷ bs) zero v = v ∷ bs
set (b ∷ bs) (suc i) v = b ∷ set bs i v

unfoldable pub first_zero : Bits → Option ℕ
first_zero [] = none
first_zero (false ∷ bs) = some 0
first_zero (true ∷ bs) = Option.map suc (first_zero bs)

-- A byte holds eight bits, the lowest first; the last byte is filled with zeros.
unfoldable pub pad : ℕ → Bits
pad n = zeros ((n + 7) / 8 * 8 - n)

-- Bytes are taken as the numbers of their bits: here a bit each, of a padded bitmap.
unfoldable pub to_bytes : Bits → Bytes
to_bytes [] = []
to_bytes (true ∷ bs) = 1 ∷ to_bytes bs
to_bytes (false ∷ bs) = 0 ∷ to_bytes bs

unfoldable pub from_bytes : Bytes → Bits
from_bytes [] = []
from_bytes (zero ∷ bs) = false ∷ from_bytes bs
from_bytes (suc n ∷ bs) = true ∷ from_bytes bs

from-to_bytes : (b : Bits) → from_bytes (to_bytes b) ≡ b
unfolding to_bytes from_bytes
from-to_bytes [] = refl
from-to_bytes (true ∷ bs) = ap (λ l. true ∷ l) (from-to_bytes bs)
from-to_bytes (false ∷ bs) = ap (λ l. false ∷ l) (from-to_bytes bs)

length-zeros : (n : ℕ) → length (zeros n) ≡ n
unfolding zeros
length-zeros zero = refl
length-zeros (suc n) = ap suc (length-zeros n)

get-zeros : (n i : ℕ) → i < n → get (zeros n) i ≡ false
unfolding zeros get
get-zeros zero i h = refl
get-zeros (suc n) zero h = refl
get-zeros (suc n) (suc i) h = get-zeros n i (omega arith)

length-set : (b : Bits) (i : ℕ) (v : Bool) → i < length b → length (set b i v) ≡ length b
unfolding set
length-set [] i v h = refl
length-set (b ∷ bs) zero v h = refl
length-set (b ∷ bs) (suc i) v h = ap suc (length-set bs i v (omega arith))

get-set :
    (b : Bits) (i j : ℕ) (v : Bool)
    → i < length b
    → get (set b i v) j ≡ (if i == j then v else get b j)
unfolding set get
get-set [] i j v h = absurd (omega arith)
get-set (b ∷ bs) zero zero v h = ground arith
get-set (b ∷ bs) zero (suc j) v h = ground arith
get-set (b ∷ bs) (suc i) zero v h = ground arith
get-set (b ∷ bs) (suc i) (suc j) v h = ground (arith, get-set bs i j v (omega arith))

-- One more bit in front that is set.
set_below :
    (bs : Bits) (k : ℕ)
    → ((j : ℕ) → j < k → get bs j ≡ true)
    → (j : ℕ) → j < suc k
    → get (true ∷ bs) j ≡ true
unfolding get
set_below bs k lower zero l = refl
set_below bs k lower (suc j) l = lower j (omega arith)

first_zero-some :
    (b : Bits) (i : ℕ)
    → first_zero b ≡ some i
    → (i < length b) × (get b i ≡ false) × ((j : ℕ) → j < i → get b j ≡ true)
unfolding first_zero get
first_zero-some [] i h = absurd (cc)
first_zero-some (false ∷ bs) zero h = (omega arith, refl, λ j l. absurd (omega arith))
first_zero-some (false ∷ bs) (suc i) h = absurd (cc)
first_zero-some (true ∷ bs) i h = elim (Option-cases (first_zero bs)) [
  | inl e ↦ let nothing = rw (e) at h in absurd (cc)
  | inr (k, e) ↦
      let there = rw (e) at h in
      let same : suc k ≡ i = cc in
      let (bound, free, lower) = first_zero-some bs k e in
      subst
        (λ (n : ℕ).
          (n < suc (length bs))
          × (get (true ∷ bs) n ≡ false)
          × ((j : ℕ) → j < n → get (true ∷ bs) j ≡ true))
        same (omega arith, free, set_below bs k lower)
]

first_zero-none : (b : Bits) → first_zero b ≡ none → (j : ℕ) → j < length b → get b j ≡ true
unfolding first_zero get
first_zero-none [] h j l = absurd (omega arith)
first_zero-none (false ∷ bs) h j l = absurd (cc)
first_zero-none (true ∷ bs) h zero l = refl
first_zero-none (true ∷ bs) h (suc j) l = elim (Option-cases (first_zero bs)) [
  | inl e ↦ first_zero-none bs e j (omega arith)
  | inr (k, e) ↦ let there = rw (e) at h in absurd (cc)
]

get-append : (b c : Bits) (i : ℕ) → i < length b → get (b ++ c) i ≡ get b i
unfolding get
get-append [] c i h = absurd (omega arith)
get-append (b ∷ bs) c zero h = refl
get-append (b ∷ bs) c (suc i) h = get-append bs c i (omega arith)

abbrev pub bits : BitVec
bits = record {
  Bits = Bits;
  zeros = zeros;
  len = λ b. length b;
  get = get;
  set = set;
  first_zero = first_zero;
  to_bytes = λ b. to_bytes (b ++ pad (length b));
  from_bytes = from_bytes;
}

length-padded : (b : Bits) → length (b ++ pad (length b)) ≡ (length b + 7) / 8 * 8
unfolding pad
length-padded b =
    omega
      (arith, length-append b (pad (length b)), length-zeros ((length b + 7) / 8 * 8 - length b))

pub bits-IsLawful : IsLawful bits
bits-IsLawful = record {
  len-zeros = length-zeros;
  get-zeros = get-zeros;
  len-set = length-set;
  get-set = get-set;
  first_zero-some = first_zero-some;
  first_zero-none = first_zero-none;
  len-reload =
      λ b. ap (λ (l : Bits). length l) (from-to_bytes (b ++ pad (length b))) ∙ length-padded b;
  get-reload = λ b i h.
      ap (λ (l : Bits). get l i) (from-to_bytes (b ++ pad (length b)))
      ∙ get-append b (pad (length b)) i h;
}
